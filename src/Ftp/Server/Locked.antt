-- ===== src/Ftp/Server/Locked.antt =====
-- FTP/server.c: what the server can be brought to before the credentials were given.
use hyu_2021_network_protoco.Common.{
  ℕ, ◌≤◌, ◌<◌, ◌≡◌, refl, sym, subst, inl, inr, ◌⊎◌, true, List, [], ◌∷◌, ◌++◌, none, arith,
}
use hyu_2021_network_protoco.Clib.Text.{Text, codes}
use hyu_2021_network_protoco.Ftp.Protocol.{Command, Message, interpret}
use hyu_2021_network_protoco.Ftp.Server.State.{
  Phase, opening, waiting, woken, DataThread, Server, initial, Outcome, reply, joining, exited,
  crash,
}
use hyu_2021_network_protoco.Ftp.Server.Execute.{
  Surroundings, execute_user, execute_pass, execute_nlst, execute_retr, execute_cwd, execute_quit,
  execute_type, execute_pasv, execute_port, dispatch, execute,
}
use hyu_2021_network_protoco.Ftp.Server.Login.{rank, Guarded}
use hyu_2021_network_protoco.Ftp.Server.System.{
  Main, accepting, receiving, stopped, awaiting, System, Result, Received, broken, closed, message,
  empty_request, Event, accepted, refused, received, opened, spurious, served, joined, send_control,
  conclude, handle, receive, with_thread, join_thread, main_step, step, start, run,
}
use hyu_2021_network_protoco.Ftp.Server.Secrecy.{
  HasCredentials, credentials_given, handled, grant_all, grant_all-full, grant_all-append,
  request_of, step-Kept, start-Guarded,
}

-- The globals but `authStatus` are as they were at the start.
pub record Untouched (s : Server) : Type 0 where
  pub command : s.data_command ≡ Command.unknown
  pub ascii : s.ascii_mode ≡ true
  pub path : s.relative_path ≡ codes "./"
  pub file : s.file_name ≡ none
  pub ports : s.port_idx ≡ 0
  pub threads : s.data_threads ≡ []
  pub socket : s.data_server_fd ≡ none
  pub handle : s.data_thread ≡ none

execute-Untouched :
    (c : Command) (e : Surroundings) (body : Text) (s : Server)
    → rank s.auth_status < 2
    → Untouched s
    → Untouched (dispatch c e body s).1
unfolding dispatch execute_user execute_pass execute_nlst execute_retr execute_cwd execute_quit
    execute_type execute_pasv execute_port
execute-Untouched Command.user e body s out u = ground arith
execute-Untouched Command.pass e body s out u = ground arith
execute-Untouched Command.nlst e body s out u = ground arith
execute-Untouched Command.retr e body s out u = ground arith
execute-Untouched Command.cwd e body s out u = ground arith
execute-Untouched Command.quit e body s out u = ground arith
execute-Untouched Command.type e body s out u = ground arith
execute-Untouched Command.pasv e body s out u = ground arith
execute-Untouched Command.port e body s out u = ground arith
execute-Untouched Command.unknown e body s out u = u

-- The state at the start.
fresh : Untouched initial
fresh = record {
  command = refl;
  ascii = refl;
  path = refl;
  file = refl;
  ports = refl;
  threads = refl;
  socket = refl;
  handle = refl;
}

Nat-split : (n : ℕ) → (n < 2) ⊎ (2 ≤ n)
Nat-split n = ground arith

send_control-server :
    (status : ℕ) (text : Text) (next : Main) (s : System)
    → (send_control status text next s).0.server ≡ s.server
unfolding send_control
send_control-server status text next s = ground arith

conclude-server : (c : Command) (o : Outcome) (s : Server) → (conclude c (o, s)).0.server ≡ s
unfolding conclude
conclude-server c (reply status text) s = send_control-server status text receiving _
conclude-server c joining s = send_control-server 150 [] (awaiting c) _
conclude-server c exited s = refl
conclude-server c crash s = refl

handle-Untouched :
    (e : Surroundings) (m : Message) (s : Server)
    → rank s.auth_status < 2
    → Untouched s
    → Untouched (handle e m s).0.server
unfolding handle execute
handle-Untouched e m s out u =
    let r = dispatch (interpret m.command) e m.body s in
    subst (λ t. Untouched t) (sym (conclude-server (interpret m.command) r.0 r.1))
      (execute-Untouched (interpret m.command) e m.body s out u)

receive-Untouched :
    (e : Surroundings) (r : Received) (s : System)
    → rank s.server.auth_status < 2
    → Untouched s.server
    → Untouched (receive e r s).0.server
unfolding receive
receive-Untouched e broken s out u = u
receive-Untouched e closed s out u = handle-Untouched e empty_request s.server out u
receive-Untouched e (message m) s out u = handle-Untouched e m s.server out u

-- With no data thread there is none to go on.
no_thread :
    (i : ℕ) (p : Phase) (f : DataThread → Result) (s : System)
    → s.server.data_threads ≡ []
    → with_thread i p f s ≡ (s, [])
unfolding with_thread
no_thread i p f s h = rw h refl

no_join :
    (c : Command) (s : System) → s.server.data_thread ≡ none → (join_thread c s).0.server ≡ s.server
unfolding join_thread
no_join c s h = ground (arith, h)

main_step-Untouched :
    (e : Event) (m : Main) (s : System)
    → rank s.server.auth_status < 2
    → Untouched s.server
    → Untouched (main_step e m s).0.server
unfolding main_step
main_step-Untouched accepted accepting s out u =
    subst (λ t. Untouched t) (sym (send_control-server 220 (codes "Server ready") receiving s)) u
main_step-Untouched accepted _ s out u = u
main_step-Untouched refused accepting s out u = u
main_step-Untouched refused _ s out u = u
main_step-Untouched (received e r) receiving s out u = receive-Untouched e r s out u
main_step-Untouched (received e r) _ s out u = u
main_step-Untouched joined (awaiting c) s out u =
    subst (λ t. Untouched t) (sym (no_join c s u.handle)) u
main_step-Untouched joined _ s out u = u
main_step-Untouched (opened i ok b) stopped s out u = u
main_step-Untouched (opened i ok b) _ s out u =
    subst (λ r. Untouched r.0.server) (sym (no_thread i opening _ s u.threads)) u
main_step-Untouched (spurious i) stopped s out u = u
main_step-Untouched (spurious i) _ s out u =
    subst (λ r. Untouched r.0.server) (sym (no_thread i waiting _ s u.threads)) u
main_step-Untouched (served i files memory l a) stopped s out u = u
main_step-Untouched (served i files memory l a) _ s out u =
    subst (λ r. Untouched r.0.server) (sym (no_thread i woken _ s u.threads)) u

step-Untouched :
    (e : Event) (s : System)
    → rank s.server.auth_status < 2
    → Untouched s.server
    → Untouched (step e s).0.server
unfolding step
step-Untouched e s out u = main_step-Untouched e s.main s out u

run-Untouched :
    (es : List Event) (level : ℕ) (s : System)
    → Guarded level s.server
    → Untouched s.server
    → grant_all level (handled s es) < 2
    → Untouched (run s es).0.server
unfolding run handled
run-Untouched [] level s g u small = u
run-Untouched (e ∷ es) level s g u small =
    let now = request_of e s.main in
    let rest = handled (step e s).0 es in
    let later : grant_all (grant_all level now) rest < 2 =
      subst (λ n. n < 2) (grant_all-append level now rest) small in
    let k = step-Kept level e s g in
    let before : level < 2 = elim (Nat-split level) [
      | inl h ↦ h
      | inr h ↦ absurd (omega (arith, grant_all-full (now ++ rest) level h, small))
    ] in
    run-Untouched es (grant_all level now) (step e s).0 k.state
      (step-Untouched e s (omega (arith, g.status, before)) u) later

-- From the start, whatever happens: either the requests that were handled hold the right user name and, behind it, the
-- right password; or all that has changed of the server's state is its authorization status: the directory, the type,
-- the name of the file, the command, the place in the list of ports, and the data threads, of which there is none, are
-- as they were.
pub untouched_without_credentials :
    (es : List Event) → HasCredentials (handled start es) ⊎ Untouched (run start es).0.server
untouched_without_credentials es = elim (Nat-split (grant_all 0 (handled start es))) [
  | inr full ↦ inl (credentials_given (handled start es) full)
  | inl small ↦ inr (run-Untouched es 0 start start-Guarded fresh small)
]
