-- ===== src/Ftp/Server/Secrecy.antt =====
-- Runs of the server: what was sent on a data connection, and what had to come before it.
mod Steps
unfoldable pub use Steps.*
use hyu_2021_network_protoco.Common.{
  ℕ, ◌≤◌, ◌≡◌, refl, sym, ap, ◌∙◌, ◌⊎◌, inl, inr, Bool, true, false, ◌||◌, List, [], ◌∷◌, ◌++◌,
  arith,
}
use hyu_2021_network_protoco.Clib.Text.{Text, text_eq_iff}
use hyu_2021_network_protoco.Ftp.Protocol.{Command, Message, interpret}
use hyu_2021_network_protoco.Ftp.Server.State.{user_id, user_password, initial}
use hyu_2021_network_protoco.Ftp.Server.Login.{grant, rank, Guarded}
use hyu_2021_network_protoco.Ftp.Server.System.{System, Event, step, start, run}

or_cases : (a b : Bool) → (a || b) ≡ true → (a ≡ true) ⊎ (b ≡ true)
or_cases true b h = inl refl
or_cases false b h = inr h

run-Kept :
    (es : List Event) (level : ℕ) (s : System)
    → Guarded level s.server
    → Kept (grant_all level (handled s es)) (run s es)
unfolding run handled
run-Kept [] level s g = stay level s g
run-Kept (e ∷ es) level s g =
    let k = step-Kept level e s g in
    let ks = run-Kept es (grant_all level (request_of e s.main)) (step e s).0 k.state in
    rw (grant_all-append level (request_of e s.main) (handled (step e s).0 es)) (record {
      state = ks.state;
      quiet = λ h. elim (or_cases _ _ (sym (sends_data-append (step e s).1 _) ∙ h)) [
        | inl now ↦ grant_all-full (handled (step e s).0 es) _ (k.quiet now)
        | inr later ↦ ks.quiet later
      ];
    })

-- The request gives the word of a command with an argument.
abbrev pub Gives : Command → Text → Message → Type 0
Gives c text m = (interpret m.command ≡ c) × (m.body ≡ text)

-- Somewhere in the requests the password comes behind the user name.
pub record HasCredentials (ms : List Message) : Type 0 where
  pub before : List Message
  pub name_request : Message
  pub between : List Message
  pub password_request : Message
  pub rest : List Message
  pub order : ms ≡ before ++ name_request ∷ (between ++ password_request ∷ rest)
  pub name : Gives Command.user user_id name_request
  pub password : Gives Command.pass user_password password_request

grant_from_zero : (m : Message) → (grant 0 m ≡ 0) ⊎ ((grant 0 m ≡ 1) × Gives Command.user user_id m)
grant_from_zero m = ground (arith, text_eq_iff m.body user_id)

grant_from_one : (m : Message) → (grant 1 m ≡ 1) ⊎ Gives Command.pass user_password m
grant_from_one m = ground (arith, text_eq_iff m.body user_password)

password_given :
    (ms : List Message)
    → 2 ≤ grant_all 1 ms
    → (between : List Message) × (m : Message) × (rest : List Message) × (ms ≡ between ++ m ∷ rest)
      × Gives Command.pass user_password m
password_given [] h = absurd (omega arith)
password_given (m ∷ ms) h = elim (grant_from_one m) [
  | inl e ↦
      let (between, p, rest, order, given) = password_given ms (rw e at h) in
      (m ∷ between, p, rest, ap (λ r. m ∷ r) order, given)
  | inr given ↦ ([], m, ms, refl, given)
]

pub credentials_given : (ms : List Message) → 2 ≤ grant_all 0 ms → HasCredentials ms
credentials_given [] h = absurd (omega arith)
credentials_given (m ∷ ms) h = elim (grant_from_zero m) [
  | inl e ↦
      let c = credentials_given ms (rw e at h) in
      record {
        before = m ∷ c.before;
        name_request = c.name_request;
        between = c.between;
        password_request = c.password_request;
        rest = c.rest;
        order = ap (λ r. m ∷ r) c.order;
        name = c.name;
        password = c.password;
      }
  | inr (e, given) ↦
      let (between, p, rest, order, given') = password_given ms (rw e at h) in
      record {
        before = [];
        name_request = m;
        between = between;
        password_request = p;
        rest = rest;
        order = ap (λ r. m ∷ r) order;
        name = given;
        password = given';
      }
]

pub start-Guarded : Guarded 0 initial
start-Guarded = omega arith

-- From the start, whatever happens: if anything was sent on a data connection, then the requests that
-- were handled hold the right user name and, behind it, the right password.
pub data_needs_credentials :
    (es : List Event) → sends_data (run start es).1 ≡ true → HasCredentials (handled start es)
data_needs_credentials es h =
    credentials_given (handled start es) ((run-Kept es 0 start start-Guarded).quiet h)

-- From the start, whatever happens: if the session is logged in, with or without a transfer mode, then
-- the requests that were handled hold the right user name and, behind it, the right password.
pub login_needs_credentials :
    (es : List Event)
    → 2 ≤ rank (run start es).0.server.auth_status
    → HasCredentials (handled start es)
login_needs_credentials es h =
    credentials_given (handled start es)
      (omega (arith, (run-Kept es 0 start start-Guarded).state.status))
