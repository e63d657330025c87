-- ===== src/Ftp/Network/Lockstep/Answers.antt =====
-- The answers of the server: what `execute` may come to, and how a step of the server moves its main
-- thread on.
use hyu_2021_network_protoco.Common.{
  ℕ, ◌≤◌, ◌≡◌, refl, ◌⊎◌, inl, inr, Bool, true, false, List, [], ◌∷◌, Option, none, some, arith,
  Option-cases, get_elem?, All,
}
use hyu_2021_network_protoco.Clib.Text.{Text}
use hyu_2021_network_protoco.Clib.Strtok.{first_token}
use hyu_2021_network_protoco.Ftp.Protocol.{
  Command, pasv, retr, type, port, Message, interpret, whitespaces,
}
use hyu_2021_network_protoco.Ftp.Server.State.{
  DataThread, Server, Outcome, reply, joining, exited, crash, respond, Files, Phase, Create,
  created, failed, returned_minus_one, done,
}
use hyu_2021_network_protoco.Ftp.Server.Directory.{Lookup, found, valid_directory_entry}
use hyu_2021_network_protoco.Ftp.Server.Execute.{
  Surroundings, execute_user, execute_pass, execute_nlst, execute_retr, retr_named, announce,
  after_join, execute_cwd, execute_quit, execute_type, set_type, start_data_thread, execute_pasv,
  execute_port, dispatch, execute,
}
use hyu_2021_network_protoco.Ftp.Server.System as Server
use hyu_2021_network_protoco.Ftp.Network.Lockstep.{Transfers, IsFinal, IsOpening}

-- What an outcome of a command may be: an answer that is final, or a transfer of one of the two commands.
abbrev Suits : Command → Outcome → Type 0
Suits c (reply status text) = 200 ≤ status
Suits c joining = Transfers c
Suits c exited = Unit
Suits c crash = Unit

respond-Suits :
    (c : Command) (status : ℕ) (text : Text) → 200 ≤ status → Suits c (respond status text)
unfolding respond
respond-Suits c status text h = ground arith

retr_named-Suits :
    (pick : ℕ) (name : Option Text) (l : Lookup) (s : Server)
    → Suits retr (retr_named pick name l s).0
unfolding retr_named announce respond
retr_named-Suits pick none (found b) s = tt
retr_named-Suits pick (some n) (found true) s = ground arith
retr_named-Suits pick (some n) (found false) s = ground arith
retr_named-Suits pick name Lookup.exits s = tt
retr_named-Suits pick name Lookup.faults s = tt

set_type-Suits : (body : Text) (s : Server) → Suits type (set_type body s).0
unfolding set_type respond
set_type-Suits [] s = ground arith
set_type-Suits (c ∷ []) s = ground arith
set_type-Suits (c ∷ d ∷ r) s = ground arith

start-Suits :
    (c : Command) (made : Create) (number status : ℕ) (text : Text) (s : Server)
    → 200 ≤ status
    → Suits c (start_data_thread made number status text s).0
unfolding start_data_thread
start-Suits c created number status text s h = respond-Suits c status text h
start-Suits c failed number status text s h = respond-Suits c status text h
start-Suits c returned_minus_one number status text s h = respond-Suits c 500 _ (omega arith)

pasv-Suits : (made : Create) (s : Server) → Suits pasv (execute_pasv made s).0
unfolding execute_pasv start_data_thread respond
pasv-Suits created s = ground arith
pasv-Suits failed s = ground arith
pasv-Suits returned_minus_one s = ground arith

port-Suits : (made : Create) (body : Text) (s : Server) → Suits port (execute_port made body s).0
unfolding execute_port start_data_thread respond
port-Suits created body s = ground arith
port-Suits failed body s = ground arith
port-Suits returned_minus_one body s = ground arith

dispatch-Suits :
    (c : Command) (e : Surroundings) (body : Text) (s : Server) → Suits c (dispatch c e body s).0
unfolding dispatch respond execute_user execute_pass execute_nlst execute_retr announce execute_cwd
    execute_quit execute_type
dispatch-Suits retr e body s =
    let name : Option Text = first_token whitespaces body in
    ground (
      arith,
      retr_named-Suits e.pick name (valid_directory_entry e.files s.relative_path name)
          (record s { file_name = name }),
    )
dispatch-Suits type e body s = ground (arith, set_type-Suits body s)
dispatch-Suits pasv e body s = pasv-Suits e.create s
dispatch-Suits port e body s = port-Suits e.create body s
dispatch-Suits c e body s = ground arith

-- The end of a command: one answer, which is final, and on to the next request; or all is over.
pub data Closes (r : Server.Result) : Type 0 where
  answers :
      (m : Message)
      → r.0.main ≡ Server.receiving
      → r.1 ≡ Server.control m ∷ []
      → IsFinal m
      → Closes r
  stops : r.0.main ≡ Server.stopped → r.1 ≡ [] → Closes r

-- What a request comes to: the end of its command; or the opening answer, and on to `pthread_join`.
pub data Answered (c : Command) (r : Server.Result) : Type 0 where
  closes : Closes r → Answered c r
  opens :
      (m : Message)
      → r.0.main ≡ Server.awaiting c
      → r.1 ≡ Server.control m ∷ []
      → IsOpening m
      → Transfers c
      → Answered c r

status-new_message :
    (status : ℕ) (text : Text) (m : Message)
    → Server.new_message status text ≡ some m
    → m.status ≡ status
unfolding Server.new_message
status-new_message status text m h = ground arith

pub send_final :
    (status : ℕ) (text : Text) (s : Server.System)
    → 200 ≤ status
    → Closes (Server.send_control status text Server.receiving s)
unfolding Server.send_control
send_final status text s h = elim (Option-cases (Server.new_message status text)) [
  | inl e ↦ rw (e, Server.send_control) (stops refl refl)
  | inr (m, e) ↦
      rw (e, Server.send_control)
        (answers m refl refl (ground (arith, status-new_message status text m e)))
]

send_opening :
    (c : Command) (s : Server.System)
    → Transfers c
    → Answered c (Server.send_control 150 [] (Server.awaiting c) s)
unfolding Server.send_control Server.new_message
send_opening c s h = opens _ refl refl refl h

conclude-Answered :
    (c : Command) (o : Outcome) (s : Server) → Suits c o → Answered c (Server.conclude c (o, s))
unfolding Server.conclude
conclude-Answered c (reply status text) s h = closes (send_final status text _ h)
conclude-Answered c joining s h = send_opening c _ h
conclude-Answered c exited s h = closes (stops refl refl)
conclude-Answered c crash s h = closes (stops refl refl)

pub handle-Answered :
    (e : Surroundings) (m : Message) (s : Server)
    → Answered (interpret m.command) (Server.handle e m s)
unfolding Server.handle execute
handle-Answered e m s =
    let r = dispatch (interpret m.command) e m.body s in
    conclude-Answered (interpret m.command) r.0 r.1
      (dispatch-Suits (interpret m.command) e m.body s)

-- An output on a data connection.
abbrev pub IsParcel : Server.Output → Type 0
IsParcel (Server.control m) = ⊥
IsParcel (Server.channel i m) = Unit

-- What a step of the server does that is none of its main thread: nothing is sent on the control
-- connection, and the main thread stays where it is, or all is over.
pub record Aside (before : Server.Main) (r : Server.Result) : Type 0 where
  pub silent : All (λ o. IsParcel o) r.1
  pub stays : (r.0.main ≡ before) ⊎ (r.0.main ≡ Server.stopped)

pub idle : (s : Server.System) → Aside s.main (s, [])
idle s = record { silent = tt; stays = inl refl }

pub with_thread-Aside :
    (i : ℕ) (p : Phase) (f : DataThread → Server.Result) (s : Server.System)
    → ((t : DataThread) → Aside s.main (f t))
    → Aside s.main (Server.with_thread i p f s)
unfolding Server.with_thread Server.at_phase
with_thread-Aside i p f s h = elim (Option-cases (get_elem? s.server.data_threads i)) [
  | inl e ↦ rw (e, Server.with_thread) (idle s)
  | inr (t, e) ↦ ground (arith, idle s, h t)
]

halt : (before : Server.Main) (s : Server.System) → Aside before (Server.stop s)
halt before s = record { silent = tt; stays = inr refl }

pub opened-Aside :
    (i : ℕ) (t : DataThread) (ok : Bool) (b : Server.Bind) (s : Server.System)
    → Aside s.main (Server.open_socket i t ok b s)
unfolding Server.open_socket
opened-Aside i t false b s = halt s.main s
opened-Aside i t true Server.Bind.address_in_use s = halt s.main s
opened-Aside i t true Server.Bind.bound s = record { silent = tt; stays = inl refl }
opened-Aside i t true Server.Bind.other_error s = record { silent = tt; stays = inl refl }

pub served-Aside :
    (i : ℕ) (t : DataThread) (files : Files) (memory : List ℕ) (l a : Bool) (s : Server.System)
    → Aside s.main (Server.serve i t files memory l a s)
unfolding Server.serve Server.transfer Server.send_channel
served-Aside i t files memory l a s = ground (arith, halt s.main s)

respond_cases :
    (status : ℕ) (text : Text)
    → (respond status text ≡ reply status text) ⊎ (respond status text ≡ crash)
unfolding respond
respond_cases status text = ground arith

conclude-Closes :
    (c : Command) (status : ℕ) (text : Text) (s : Server)
    → 200 ≤ status
    → Closes (Server.conclude c (respond status text, s))
unfolding Server.conclude
conclude-Closes c status text s h = elim (respond_cases status text) [
  | inl e ↦ rw (e, Server.conclude) (send_final status text _ h)
  | inr e ↦ rw (e, Server.conclude) (stops refl refl)
]

finish-Closes :
    (c : Command) (p : Phase) (s : Server.System)
    → (Server.finish_join c p s ≡ (s, [])) ⊎ Closes (Server.finish_join c p s)
unfolding Server.finish_join after_join
finish-Closes c (done true) s = inr (conclude-Closes c 226 _ _ (omega arith))
finish-Closes c (done false) s = inr (conclude-Closes c 500 _ _ (omega arith))
finish-Closes c _ s = inl refl

joins_thread :
    (c : Command) (s : Server.System) (i : ℕ) (t : DataThread)
    → s.server.data_thread ≡ some i
    → get_elem? s.server.data_threads i ≡ some t
    → Server.join_thread c s ≡ Server.finish_join c t.phase s
unfolding Server.join_thread
joins_thread c s i t e k = ground arith

-- `pthread_join` does not come back yet, or the command comes to its end.
pub join-Closes :
    (c : Command) (s : Server.System)
    → (Server.join_thread c s ≡ (s, [])) ⊎ Closes (Server.join_thread c s)
unfolding Server.join_thread
join-Closes c s = elim (Option-cases s.server.data_thread) [
  | inl e ↦ rw (e, Server.join_thread) (inr (stops refl refl))
  | inr (i, e) ↦ elim (Option-cases (get_elem? s.server.data_threads i)) [
    | inl k ↦ rw (e, k, Server.join_thread) (inr (stops refl refl))
    | inr (t, k) ↦ simp (joins_thread c s i t e k) (finish-Closes c t.phase s)
  ]
]
