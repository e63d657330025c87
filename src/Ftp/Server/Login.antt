-- ===== src/Ftp/Server/Login.antt =====
-- How much of the credentials the requests have given, and that `execute` of FTP/server.c keeps the state within
-- that.
use hyu_2021_network_protoco.Common.{
  ◌↔◌, ℕ, zero, suc, ◌≤◌, ◌<◌, ◌≡◌, refl, inl, inr, Bool, List, [], ◌∷◌, Option, if◌then◌else◌,
  arith, Option-cases, length, length-set, get_elem?,
}
use hyu_2021_network_protoco.Clib.Text.{Text, text_eq, text_eq_iff}
use hyu_2021_network_protoco.Clib.Strtok.{first_token}
use hyu_2021_network_protoco.Ftp.Protocol.{
  Command, AuthorizationStatus, not_logged_in, need_password, logged_in, mode_selected, Message,
  whitespaces, interpret,
}
use hyu_2021_network_protoco.Ftp.Server.State.{
  user_id, user_password, woken, DataThread, Server, Create, wake_first, signal,
}
use hyu_2021_network_protoco.Ftp.Server.Directory.{Lookup, valid_directory_entry}
use hyu_2021_network_protoco.Ftp.Server.Execute.{
  Surroundings, execute_user, execute_pass, execute_nlst, execute_retr, retr_named, after_join,
  execute_cwd, execute_quit, execute_type, set_type, start_data_thread, execute_pasv, execute_port,
  dispatch, execute,
}

-- How much of the credentials a sequence of requests has given: 1 for the user name, 2 for the
-- password behind it.
abbrev pub grant_command : Command → ℕ → Text → ℕ
grant_command Command.user zero body = if text_eq body user_id then 1 else 0
grant_command Command.pass (suc zero) body = if text_eq body user_password then 2 else 1
grant_command _ level _ = level

abbrev pub grant : ℕ → Message → ℕ
grant level m = grant_command (interpret m.command) level m.body

abbrev pub rank : AuthorizationStatus → ℕ
rank not_logged_in = 0
rank need_password = 1
rank logged_in = 2
rank mode_selected = 2

-- The state claims no more than was given, and data threads exist only for a full login.
pub record Guarded (level : ℕ) (s : Server) : Type 0 where
  pub status : rank s.auth_status ≤ level
  pub threads : 0 < length s.data_threads → 2 ≤ level

length-wake_first : (ts : List DataThread) → length (wake_first ts) ≡ length ts
unfolding wake_first
length-wake_first [] = refl
length-wake_first (t ∷ ts) = ground (arith, length-wake_first ts)

pub length-signal : (pick : ℕ) (ts : List DataThread) → length (signal pick ts) ≡ length ts
unfolding signal
length-signal pick ts = elim (Option-cases (get_elem? ts pick)) [
  | inl e ↦ ground (arith, length-wake_first ts)
  | inr (t, e) ↦
      ground (arith, length-wake_first ts, length-set ts pick (record t { phase = woken }))
]

user-Guarded :
    (level : ℕ) (body : Text) (s : Server)
    → Guarded level s
    → Guarded (grant_command Command.user level body) (execute_user body s).1
unfolding execute_user
user-Guarded level body s g = ground arith

pass-Guarded :
    (level : ℕ) (body : Text) (s : Server)
    → Guarded level s
    → Guarded (grant_command Command.pass level body) (execute_pass body s).1
unfolding execute_pass
pass-Guarded level body s g = ground arith

retr_named-Guarded :
    (level pick : ℕ) (name : Option Text) (l : Lookup) (s : Server)
    → Guarded level s
    → Guarded level (retr_named pick name l s).1
unfolding retr_named
retr_named-Guarded level pick name l s g = ground (arith, length-signal pick s.data_threads)

pasv-Guarded :
    (level : ℕ) (made : Create) (s : Server)
    → Guarded level s
    → Guarded level (execute_pasv made s).1
unfolding execute_pasv start_data_thread
pasv-Guarded level made s g = ground arith

port-Guarded :
    (level : ℕ) (made : Create) (body : Text) (s : Server)
    → Guarded level s
    → Guarded level (execute_port made body s).1
unfolding execute_port start_data_thread
port-Guarded level made body s g = ground arith

set_type-Guarded :
    (level : ℕ) (body : Text) (s : Server) → Guarded level s → Guarded level (set_type body s).1
unfolding set_type
set_type-Guarded level body s g = ground arith

pub after_join-Guarded :
    (level : ℕ) (ended : Bool) (text : Text) (s : Server)
    → 2 ≤ level
    → Guarded level s
    → Guarded level (after_join ended text s).1
unfolding after_join
after_join-Guarded level ended text s two g = ground arith

dispatch-Guarded :
    (c : Command) (level : ℕ) (e : Surroundings) (body : Text) (s : Server)
    → Guarded level s
    → Guarded (grant_command c level body) (dispatch c e body s).1
unfolding dispatch execute_nlst execute_retr execute_cwd execute_quit execute_type
dispatch-Guarded Command.user level e body s g = user-Guarded level body s g
dispatch-Guarded Command.pass level e body s g = pass-Guarded level body s g
dispatch-Guarded Command.nlst level e body s g = ground (arith, length-signal e.pick s.data_threads)
dispatch-Guarded Command.retr level e body s g =
    let name : Option Text = first_token whitespaces body in
    ground (
      arith,
      retr_named-Guarded level e.pick name (valid_directory_entry e.files s.relative_path name)
          (record s { file_name = name }),
    )
dispatch-Guarded Command.cwd level e body s g = ground arith
dispatch-Guarded Command.quit level e body s g = ground arith
dispatch-Guarded Command.type level e body s g = ground (arith, set_type-Guarded level body s g)
dispatch-Guarded Command.pasv level e body s g = pasv-Guarded level e.create s g
dispatch-Guarded Command.port level e body s g = port-Guarded level e.create body s g
dispatch-Guarded Command.unknown level e body s g = g

-- Handling a request keeps the state within what was granted.
pub execute-Guarded :
    (level : ℕ) (e : Surroundings) (req : Message) (s : Server)
    → Guarded level s
    → Guarded (grant level req) (execute e req s).1
unfolding execute
execute-Guarded level e req s g = dispatch-Guarded (interpret req.command) level e req.body s g

-- In a session that is not logged in, a USER and then a PASS lead to a login exactly if they give the
-- right name and the right password.
pub login_exact :
    (e f : Surroundings) (name_request password_request : Message) (s : Server)
    → s.auth_status ≡ not_logged_in
    → interpret name_request.command ≡ Command.user
    → interpret password_request.command ≡ Command.pass
    → ((execute f password_request (execute e name_request s).1).1.auth_status ≡ logged_in)
      ↔ ((name_request.body ≡ user_id) × (password_request.body ≡ user_password))
unfolding execute dispatch execute_user execute_pass
login_exact e f m p s out name pass =
    ground (arith, text_eq_iff m.body user_id, text_eq_iff p.body user_password)
