-- ===== src/Ftp/Server/Replies.antt =====
-- What the replies of `execute` say about the state that it leaves.
use hyu_2021_network_protoco.Common.{ℕ, ◌≤◌, ◌<◌, ◌≡◌, refl, Option, lt→ltb, arith, length}
use hyu_2021_network_protoco.Clib.Text.{Text}
use hyu_2021_network_protoco.Clib.Strtok.{first_token}
use hyu_2021_network_protoco.Ftp.Protocol.{
  Command, Message, whitespaces, interpret, max_buffer_size,
}
use hyu_2021_network_protoco.Ftp.Server.State.{
  Server, Outcome, reply, joining, exited, crash, respond, Files, Create,
}
use hyu_2021_network_protoco.Ftp.Server.Directory.{Lookup, valid_directory_entry}
use hyu_2021_network_protoco.Ftp.Server.Execute.{
  Surroundings, execute_user, execute_pass, execute_nlst, execute_retr, retr_named, announce,
  execute_cwd, execute_quit, execute_type, set_type, start_data_thread, execute_pasv, execute_port,
  dispatch, execute,
}

-- What a client can notice of the state is the same.
pub record Same (s t : Server) : Type 0 where
  pub auth : t.auth_status ≡ s.auth_status
  pub ascii : t.ascii_mode ≡ s.ascii_mode
  pub path : t.relative_path ≡ s.relative_path
  pub command : t.data_command ≡ s.data_command
  pub threads : t.data_threads ≡ s.data_threads

-- The outcome is a reply with an error status.
abbrev pub IsError : Outcome → Type 0
IsError (reply status text) = 400 ≤ status
IsError joining = ⊥
IsError exited = ⊥
IsError crash = ⊥

-- A text that fits the buffer is the reply.
pub respond_fits :
    (status : ℕ) (text : Text)
    → length text < max_buffer_size
    → respond status text ≡ reply status text
unfolding respond
respond_fits status text h = rw (lt→ltb (length text) max_buffer_size h)

user_error :
    (body : Text) (s : Server) → IsError (execute_user body s).0 → Same s (execute_user body s).1
unfolding execute_user respond
user_error body s h = ground arith

pass_error :
    (body : Text) (s : Server) → IsError (execute_pass body s).0 → Same s (execute_pass body s).1
unfolding execute_pass respond
pass_error body s h = ground arith

nlst_error :
    (pick : ℕ) (s : Server) → IsError (execute_nlst pick s).0 → Same s (execute_nlst pick s).1
unfolding execute_nlst respond announce
nlst_error pick s h = ground arith

retr_named_error :
    (pick : ℕ) (name : Option Text) (l : Lookup) (s : Server)
    → IsError (retr_named pick name l s).0
    → Same s (retr_named pick name l s).1
unfolding retr_named respond announce
retr_named_error pick name l s h = ground arith

set_type_error :
    (body : Text) (s : Server) → IsError (set_type body s).0 → Same s (set_type body s).1
unfolding set_type respond
set_type_error body s h = ground arith

start_error :
    (made : Create) (number status : ℕ) (text : Text) (s : Server)
    → status < 400
    → IsError (start_data_thread made number status text s).0
    → Same s (start_data_thread made number status text s).1
unfolding start_data_thread respond
start_error made number status text s k h = ground arith

retr_error :
    (files : Files) (pick : ℕ) (body : Text) (s : Server)
    → IsError (execute_retr files pick body s).0
    → Same s (execute_retr files pick body s).1
unfolding execute_retr
retr_error files pick body s h =
    let name : Option Text = first_token whitespaces body in
    ground (
      arith,
      retr_named_error pick name (valid_directory_entry files s.relative_path name)
          (record s { file_name = name }),
    )

cwd_error :
    (files : Files) (body : Text) (s : Server)
    → IsError (execute_cwd files body s).0
    → Same s (execute_cwd files body s).1
unfolding execute_cwd respond
cwd_error files body s h = ground arith

type_error :
    (body : Text) (s : Server) → IsError (execute_type body s).0 → Same s (execute_type body s).1
unfolding execute_type respond
type_error body s h = ground (arith, set_type_error body s)

pasv_error :
    (made : Create) (s : Server) → IsError (execute_pasv made s).0 → Same s (execute_pasv made s).1
unfolding execute_pasv respond start_data_thread
pasv_error made s h = ground arith

port_error :
    (made : Create) (body : Text) (s : Server)
    → IsError (execute_port made body s).0
    → Same s (execute_port made body s).1
unfolding execute_port respond start_data_thread
port_error made body s h = ground arith

quit_error : (s : Server) → IsError (execute_quit s).0 → Same s (execute_quit s).1
unfolding execute_quit respond
quit_error s h = ground arith

dispatch_error :
    (c : Command) (e : Surroundings) (body : Text) (s : Server)
    → IsError (dispatch c e body s).0
    → Same s (dispatch c e body s).1
unfolding dispatch
dispatch_error Command.user e body s h = user_error body s h
dispatch_error Command.pass e body s h = pass_error body s h
dispatch_error Command.nlst e body s h = nlst_error e.pick s h
dispatch_error Command.retr e body s h = retr_error e.files e.pick body s h
dispatch_error Command.cwd e body s h = cwd_error e.files body s h
dispatch_error Command.quit e body s h = quit_error s h
dispatch_error Command.type e body s h = type_error body s h
dispatch_error Command.pasv e body s h = pasv_error e.create s h
dispatch_error Command.port e body s h = port_error e.create body s h
dispatch_error Command.unknown e body s h = record {
  auth = refl;
  ascii = refl;
  path = refl;
  command = refl;
  threads = refl;
}

-- When `execute` returns with a status of 400 or more before it has come to a `pthread_join`, which leaves out the 500
-- behind a transfer that was begun, then the authorization status, the transfer type, the working directory, the data
-- command and the data threads are as they were before the call.
pub error_reply_keeps_state :
    (e : Surroundings) (req : Message) (s : Server)
    → IsError (execute e req s).0
    → Same s (execute e req s).1
unfolding execute
error_reply_keeps_state e req s h = dispatch_error (interpret req.command) e req.body s h
