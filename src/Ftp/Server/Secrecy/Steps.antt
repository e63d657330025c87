-- ===== src/Ftp/Server/Secrecy/Steps.antt =====
-- The steps of the server of FTP/server.c, with what was granted before them and behind them.
use hyu_2021_network_protoco.Common.{
  ℕ, ◌≤◌, ◌<◌, ◌≡◌, refl, inl, inr, Bool, true, false, ◌||◌, List, [], ◌∷◌, ◌++◌, none, some, arith,
  Option, Option-cases, length, length-set, get_elem?,
}
use hyu_2021_network_protoco.Clib.Text.{Text, codes, text_eq}
use hyu_2021_network_protoco.Ftp.Protocol.{
  Command, Message, to_lowercase, interpret_lower, interpret,
}
use hyu_2021_network_protoco.Ftp.Server.State.{
  Phase, opening, waiting, woken, done, DataThread, Server, Outcome, reply, joining, exited, crash,
  Files,
}
use hyu_2021_network_protoco.Ftp.Server.Execute.{Surroundings, execute, after_join}
use hyu_2021_network_protoco.Ftp.Server.Login.{
  grant_command, grant, Guarded, execute-Guarded, after_join-Guarded,
}
use hyu_2021_network_protoco.Ftp.Server.System.{
  Main, accepting, receiving, stopped, awaiting, System, Output, control, channel, Result, Bind,
  Received, broken, closed, message, Event, accepted, refused, received, opened, spurious, served,
  joined, stop, send_control, conclude, empty_request, handle, receive, set_phase, open_socket,
  send_channel, transfer, serve, at_phase, with_thread, subject, finish_join, join_thread,
  main_step, step,
}

-- Whether something was sent on a data connection.
abbrev pub sends_data : List Output → Bool
sends_data [] = false
sends_data (control _ ∷ out) = sends_data out
sends_data (channel _ _ ∷ out) = true

-- The requests that a run handles, in order.
abbrev pub request_of : Event → Main → List Message
request_of (received _ (message m)) receiving = m ∷ []
request_of _ _ = []

unfoldable pub handled : System → List Event → List Message
handled s [] = []
handled s (e ∷ es) = request_of e s.main ++ handled (step e s).0 es

abbrev pub grant_all : ℕ → List Message → ℕ
grant_all level [] = level
grant_all level (m ∷ ms) = grant_all (grant level m) ms

pub record Kept (level : ℕ) (r : Result) : Type 0 where
  pub state : Guarded level r.0.server
  pub quiet : sends_data r.1 ≡ true → 2 ≤ level

pub stay : (level : ℕ) (s : System) → Guarded level s.server → Kept level (s, [])
stay level s g = record { state = g; quiet = λ h. cc }

halt : (level : ℕ) (s : System) → Guarded level s.server → Kept level (stop s)
halt level s g = record { state = g; quiet = λ h. cc }

pub send_control-Kept :
    (level status : ℕ) (text : Text) (next : Main) (s : System)
    → Guarded level s.server
    → Kept level (send_control status text next s)
unfolding send_control
send_control-Kept level status text next s g = ground arith

conclude-Kept :
    (level : ℕ) (c : Command) (o : Outcome) (s : Server)
    → Guarded level s
    → Kept level (conclude c (o, s))
unfolding conclude
conclude-Kept level c (reply status text) s g =
    send_control-Kept level status text receiving (record { server = s; main = receiving }) g
conclude-Kept level c joining s g =
    send_control-Kept level 150 [] (awaiting c) (record { server = s; main = receiving }) g
conclude-Kept level c exited s g = halt level (record { server = s; main = receiving }) g
conclude-Kept level c crash s g = halt level (record { server = s; main = receiving }) g

handle-Kept :
    (level : ℕ) (e : Surroundings) (m : Message) (s : Server)
    → Guarded level s
    → Kept (grant level m) (handle e m s)
unfolding handle
handle-Kept level e m s g =
    conclude-Kept (grant level m) (interpret m.command) (execute e m s).0 (execute e m s).1
      (execute-Guarded level e m s g)

-- A thread that is there moves on.
set_phase-Guarded :
    (level i : ℕ) (t : DataThread) (p : Phase) (s : Server)
    → Guarded level s
    → Guarded level (set_phase i t p s)
set_phase-Guarded level i t p s g =
    ground (arith, length-set s.data_threads i (record t { phase = p }))

get_elem?-length {ℓ} :
    {A : Type ℓ} (xs : List A) (i : ℕ) (a : A) → get_elem? xs i ≡ some a → 0 < length xs
get_elem?-length [] i a h = cc
get_elem?-length (x ∷ xs) i a h = omega arith

-- The steps of a data thread need a thread, so a full login.
module _ (level : ℕ) (s : System) (g : Guarded level s.server) (two : 2 ≤ level) where
  phase-Kept :
      (i : ℕ) (t : DataThread) (p : Phase) (out : List Output)
      → Kept level (record s { server = set_phase i t p s.server }, out)
  phase-Kept i t p out = record {
    state = set_phase-Guarded level i t p s.server g;
    quiet = λ _. two;
  }

  bound-Kept :
      (i : ℕ) (t : DataThread) (fd : Option ℕ)
      → Kept level (
        record s { server = record (set_phase i t waiting s.server) { data_server_fd = fd } },
        [],
      )
  bound-Kept i t fd =
      let kept = set_phase-Guarded level i t waiting s.server g in
      record { state = record { status = kept.status; threads = kept.threads }; quiet = λ _. two }

  open_socket-Kept :
      (i : ℕ) (t : DataThread) (ok : Bool) (b : Bind) → Kept level (open_socket i t ok b s)
  unfolding open_socket
  open_socket-Kept i t false b = halt level s g
  open_socket-Kept i t true Bind.address_in_use = halt level s g
  open_socket-Kept i t true Bind.bound = bound-Kept i t (some t.number)
  open_socket-Kept i t true Bind.other_error = bound-Kept i t none

  send_channel-Kept : (i : ℕ) (t : DataThread) (text : Text) → Kept level (send_channel i t text s)
  unfolding send_channel
  send_channel-Kept i t text =
      ground (arith, halt level s g, set_phase-Guarded level i t (done true) s.server g)

  serve-Kept :
      (i : ℕ) (t : DataThread) (files : Files) (memory : List ℕ) (l a : Bool)
      → Kept level (serve i t files memory l a s)
  unfolding serve transfer send_channel
  serve-Kept i t files memory l a = ground (
    arith,
    halt level s g,
    set_phase-Guarded level i t (done true) s.server g,
    set_phase-Guarded level i t (done false) s.server g,
  )

with_thread-Kept :
    (level i : ℕ) (p : Phase) (f : DataThread → Result) (s : System)
    → Guarded level s.server
    → ((t : DataThread) → 2 ≤ level → Kept level (f t))
    → Kept level (with_thread i p f s)
unfolding with_thread at_phase
with_thread-Kept level i p f s g k = elim (Option-cases (get_elem? s.server.data_threads i)) [
  | inl e ↦ rw (e, with_thread) (stay level s g)
  | inr (t, e) ↦ ground (arith, stay level s g, k t, get_elem?-length s.server.data_threads i t e)
]

finish-Kept :
    (level : ℕ) (c : Command) (p : Phase) (s : System)
    → Guarded level s.server
    → 2 ≤ level
    → Kept level (finish_join c p s)
unfolding finish_join
finish-Kept level c (done ended) s g two =
    let t : Server = record s.server { data_thread = none } in
    conclude-Kept level c (after_join ended (subject c s.server) t).0
      (after_join ended (subject c s.server) t).1
      (after_join-Guarded level ended (subject c s.server) t two
        (record { status = g.status; threads = g.threads }))
finish-Kept level c _ s g two = stay level s g

join-Kept :
    (level : ℕ) (c : Command) (s : System) → Guarded level s.server → Kept level (join_thread c s)
unfolding join_thread
join-Kept level c s g = elim (Option-cases s.server.data_thread) [
  | inl e ↦ rw (e, join_thread) (halt level s g)
  | inr (i, e) ↦ elim (Option-cases (get_elem? s.server.data_threads i)) [
    | inl k ↦ ground (arith, halt level s g)
    | inr (t, k) ↦
        ground
          (arith, finish-Kept level c t.phase s g, get_elem?-length s.server.data_threads i t k)
  ]
]

interpret-nil : interpret [] ≡ Command.unknown
unfolding interpret to_lowercase interpret_lower text_eq
interpret-nil = refl

receive-Kept :
    (level : ℕ) (e : Surroundings) (r : Received) (s : System)
    → Guarded level s.server
    → Kept (grant_all level (request_of (received e r) receiving)) (receive e r s)
unfolding receive
receive-Kept level e broken s g = stay level (record s { main = accepting }) g
receive-Kept level e closed s g = rw interpret-nil at (handle-Kept level e empty_request s.server g)
receive-Kept level e (message m) s g = handle-Kept level e m s.server g

main_step-Kept :
    (level : ℕ) (e : Event) (m : Main) (s : System)
    → Guarded level s.server
    → Kept (grant_all level (request_of e m)) (main_step e m s)
unfolding main_step
main_step-Kept level accepted accepting s g =
    send_control-Kept level 220 (codes "Server ready") receiving s g
main_step-Kept level accepted _ s g = stay level s g
main_step-Kept level refused accepting s g = halt level s g
main_step-Kept level refused _ s g = stay level s g
main_step-Kept level (received e r) receiving s g = receive-Kept level e r s g
main_step-Kept level (received e broken) _ s g = stay level s g
main_step-Kept level (received e closed) _ s g = stay level s g
main_step-Kept level (received e (message m)) _ s g = stay level s g
main_step-Kept level joined (awaiting c) s g = join-Kept level c s g
main_step-Kept level joined _ s g = stay level s g
main_step-Kept level (opened i ok b) stopped s g = stay level s g
main_step-Kept level (opened i ok b) _ s g =
    with_thread-Kept level i opening (λ t. open_socket i t ok b s) s g
      (λ t two. open_socket-Kept level s g two i t ok b)
main_step-Kept level (spurious i) stopped s g = stay level s g
main_step-Kept level (spurious i) _ s g =
    with_thread-Kept level i waiting (λ t. (record s { server = set_phase i t woken s.server }, []))
      s g (λ t two. phase-Kept level s g two i t woken [])
main_step-Kept level (served i files memory l a) stopped s g = stay level s g
main_step-Kept level (served i files memory l a) _ s g =
    with_thread-Kept level i woken (λ t. serve i t files memory l a s) s g
      (λ t two. serve-Kept level s g two i t files memory l a)

pub step-Kept :
    (level : ℕ) (e : Event) (s : System)
    → Guarded level s.server
    → Kept (grant_all level (request_of e s.main)) (step e s)
unfolding step
step-Kept level e s g = main_step-Kept level e s.main s g

pub grant_all-append :
    (level : ℕ) (ms ns : List Message)
    → grant_all level (ms ++ ns) ≡ grant_all (grant_all level ms) ns
grant_all-append level [] ns = refl
grant_all-append level (m ∷ ms) ns = grant_all-append (grant level m) ms ns

grant_command-full :
    (c : Command) (level : ℕ) (body : Text) → 2 ≤ level → 2 ≤ grant_command c level body
grant_command-full Command.user level body h = ground arith
grant_command-full c level body h = ground arith

pub grant_all-full : (ms : List Message) (level : ℕ) → 2 ≤ level → 2 ≤ grant_all level ms
grant_all-full [] level h = h
grant_all-full (m ∷ ms) level h =
    grant_all-full ms (grant level m) (grant_command-full (interpret m.command) level m.body h)

pub sends_data-append :
    (out outs : List Output) → sends_data (out ++ outs) ≡ (sends_data out || sends_data outs)
sends_data-append [] outs = refl
sends_data-append (control m ∷ out) outs = sends_data-append out outs
sends_data-append (channel i m ∷ out) outs = refl
