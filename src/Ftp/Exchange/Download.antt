-- ===== src/Ftp/Exchange/Download.antt =====
-- A whole transfer: PORT, then RETR, from a state that is logged in to one that is logged in again.
use hyu_2021_network_protoco.Common.{
  ℕ, ◌+◌, ◌<◌, ◌≡◌, ◌≢◌, refl, true, List, [], ◌∷◌, ◌++◌, some, arith, length, length-append, All,
  get_elem?,
}
use hyu_2021_network_protoco.Clib.Text.{Text, codes, IsText}
use hyu_2021_network_protoco.Clib.Strtok.{first_token}
use hyu_2021_network_protoco.Ftp.Protocol.{
  Command, logged_in, mode_selected, Message, interpret, max_buffer_size, max_relative_path_length,
  whitespaces,
}
use hyu_2021_network_protoco.Ftp.Server.State.{
  opening, waiting, woken, done, Server, reply, joining, Files, created,
}
use hyu_2021_network_protoco.Ftp.Server.Directory.Laws.{valid_directory_entry_accepts}
use hyu_2021_network_protoco.Ftp.Server.Execute.{
  Surroundings, active_text, announce, start_data_thread, execute_port, execute_retr, retr_named,
  dispatch, execute,
}
use hyu_2021_network_protoco.Ftp.Server.Replies.{respond_fits}
use hyu_2021_network_protoco.Ftp.Server.System.{
  new_message, receiving, awaiting, channel, bound, message, Event, received, opened, served,
  joined, send_control, conclude, handle, receive, serve, at_phase, with_thread, main_step, step,
  run,
}
use hyu_2021_network_protoco.Ftp.Exchange.Agreement.{
  port_body, port_decoded, active_number, active_range, length-active_text,
}
use hyu_2021_network_protoco.Ftp.Exchange.Data.{data_message, retr_delivers}
use hyu_2021_network_protoco.Ftp.Exchange.Thread.{
  answer, with_last, last_thread, last_moves, listening, open_step, signal_last, after_transfer,
  join_step, run-cons, run-nil,
}

-- What PORT makes of a state.
abbrev pub after_port : Server → Server
after_port s = record s { data_thread = some (length s.data_threads); auth_status = mode_selected }

-- What RETR makes of a state, up to `pthread_join`.
abbrev pub after_retr : Text → Server → Server
after_retr name s = record s { data_command = Command.retr; file_name = some name }

-- Six numbers of PORT.
pub record Address : Type 0 where
  pub h1 : ℕ
  pub h2 : ℕ
  pub h3 : ℕ
  pub h4 : ℕ
  pub high : ℕ
  pub low : ℕ

abbrev pub address_body : Address → Text
address_body a = port_body a.h1 a.h2 a.h3 a.h4 a.high a.low

abbrev pub address_port : Address → ℕ
address_port a = active_number a.high a.low

abbrev pub IsAddress : Address → Type 0
IsAddress a = All (λ h. h < 256) (a.h1 ∷ a.h2 ∷ a.h3 ∷ a.h4 ∷ a.high ∷ a.low ∷ [])

port_executed :
    (a : Address) (s : Server)
    → IsAddress a
    → s.auth_status ≡ logged_in
    → execute_port created (address_body a) s ≡ (
      reply 200 (active_text (address_port a)),
      with_last (after_port s) (address_port a) opening,
    )
unfolding execute_port start_data_thread
port_executed a s small login =
    let n : ℕ = address_port a in
    let range = active_range a.high a.low (omega arith) (omega arith) in
    ground (
      arith,
      port_decoded a.h1 a.h2 a.h3 a.h4 a.high a.low small,
      respond_fits 200 (active_text n) (length-active_text n range),
    )

pub port_step :
    (a : Address) (s : Server) (e : Surroundings) (m : Message)
    → IsAddress a
    → s.auth_status ≡ logged_in
    → interpret m.command ≡ Command.port
    → m.body ≡ address_body a
    → e.create ≡ created
    → step (received e (message m)) (record { server = s; main = receiving }) ≡ (
      record { server = with_last (after_port s) (address_port a) opening; main = receiving },
      answer 200 (active_text (address_port a)) ∷ [],
    )
unfolding step main_step receive handle execute dispatch conclude send_control new_message
port_step a s e m small login word body made =
    let range = active_range a.high a.low (omega arith) (omega arith) in
    ground (arith, port_executed a s small login, length-active_text (address_port a) range)

-- A file that RETR transfers whole, and the directory that it is found in.
pub record IsFile (files : Files) (path name contents : Text) : Type 0 where
  pub first : Text
  pub second : Text
  pub others : List Text
  pub listed : files.opendir path ≡ some (first ∷ second ∷ others)
  pub differ : first ≢ second
  pub short_path : length path + length name < max_relative_path_length
  pub short_name : length name + 60 < max_buffer_size
  pub opens : files.fopen (path ++ name) ≡ some contents
  pub text : IsText contents
  pub fits : length contents < max_buffer_size

retr_executed :
    (s : Server) (n : ℕ) (files : Files) (name contents body : Text)
    → s.auth_status ≡ mode_selected
    → IsFile files s.relative_path name contents
    → first_token whitespaces body ≡ some name
    → execute_retr files (length s.data_threads) body (with_last s n waiting)
      ≡ (joining, with_last (after_retr name s) n woken)
unfolding execute_retr retr_named announce
retr_executed s n files name contents body mode file token = ground (
  arith,
  token,
  signal_last (after_retr name s) n,
  valid_directory_entry_accepts files s.relative_path name file.first file.second file.others
      file.listed file.differ,
  file.short_name,
  length-append name (codes "\""),
)

pub retr_step :
    (s : Server) (n : ℕ) (name contents : Text) (e : Surroundings) (m : Message)
    → s.auth_status ≡ mode_selected
    → IsFile e.files s.relative_path name contents
    → interpret m.command ≡ Command.retr
    → first_token whitespaces m.body ≡ some name
    → e.pick ≡ length s.data_threads
    → step (received e (message m)) (record { server = with_last s n waiting; main = receiving })
      ≡ (
        record { server = with_last (after_retr name s) n woken; main = awaiting Command.retr },
        answer 150 [] ∷ [],
      )
unfolding step main_step receive handle execute dispatch conclude send_control new_message
retr_step s n name contents e m mode file word token picked =
    ground (arith, retr_executed s n e.files name contents m.body mode file token)

pub serve_step :
    (s : Server) (n : ℕ) (files : Files) (memory : List ℕ) (name contents : Text)
    → s.data_command ≡ Command.retr
    → s.file_name ≡ some name
    → IsFile files s.relative_path name contents
    → get_elem? memory (length contents) ≡ some 0
    → step
        (served (length s.data_threads) files memory true true)
        (record { server = with_last s n woken; main = awaiting Command.retr })
      ≡ (
        record { server = with_last s n (done true); main = awaiting Command.retr },
        channel (length s.data_threads) (data_message contents) ∷ [],
      )
unfolding step main_step with_thread at_phase serve
serve_step s n files memory name contents command named file ends = ground (
  arith,
  last_thread s n woken (done true),
  last_moves s n woken (done true),
  retr_delivers (length s.data_threads) (record { number = n; phase = woken }) files memory
      (record { server = with_last s n woken; main = awaiting Command.retr }) name contents command
      named file.short_path (omega (arith, file.short_name)) file.opens file.text file.fits ends,
)

-- The events of the transfer: the two requests, and the turns of the data thread between them.
abbrev pub download_events :
    Server → List ℕ → Message → Message → Surroundings → Surroundings → List Event
download_events s memory port_request retr_request e f =
    received e (message port_request)
    ∷ opened (length s.data_threads) true bound
    ∷ received f (message retr_request)
    ∷ served (length s.data_threads) f.files memory true true
    ∷ joined
    ∷ []

abbrev pub after_download : Server → Text → ℕ → Server
after_download s name n =
    with_last (after_transfer (after_retr name (listening n (after_port s)))) n (done true)

-- From a state that is logged in, for a text file that fits a message, in a directory that opens and has
-- two different first entries: if the thread is made, its sockets work, the signal reaches it while it
-- waits, and the block of `malloc` has a NUL just behind the contents, then PORT with six numbers below 256
-- and RETR are answered with 200, 150 and 226, the data thread sends the contents, and the state is logged
-- in again.
pub retr_session :
    (s : Server) (a : Address) (memory : List ℕ) (name contents : Text)
    (port_request retr_request : Message) (e f : Surroundings)
    → s.auth_status ≡ logged_in
    → IsAddress a
    → interpret port_request.command ≡ Command.port
    → port_request.body ≡ address_body a
    → interpret retr_request.command ≡ Command.retr
    → first_token whitespaces retr_request.body ≡ some name
    → e.create ≡ created
    → f.pick ≡ length s.data_threads
    → IsFile f.files s.relative_path name contents
    → get_elem? memory (length contents) ≡ some 0
    → run
        (record { server = s; main = receiving })
        (download_events s memory port_request retr_request e f)
      ≡ (
        record { server = after_download s name (address_port a); main = receiving },
        answer 200 (active_text (address_port a))
            ∷ answer 150 []
            ∷ channel (length s.data_threads) (data_message contents)
            ∷ answer 226 (codes "Successfully transferred " ++ (name ++ 10 ∷ []))
            ∷ [],
      )
retr_session s a memory name contents pm rm e f login small pword body rword token made picked file
      ends =
    let n : ℕ = address_port a in
    let t = after_port s in
    let v = listening n t in
    let u = after_retr name v in
    run-cons _ _ _ _ _ _ _ (port_step a s e pm small login pword body made) (
      run-cons _ _ _ _ _ _ _ (open_step t n) (
        run-cons _ _ _ _ _ _ _ (retr_step v n name contents f rm refl file rword token picked) (
          run-cons _ _ _ _ _ _ _ (serve_step u n f.files memory name contents refl refl file ends) (
            run-cons _ _ _ _ _ _ _
              (join_step Command.retr u n refl (omega (arith, file.short_name))) (run-nil _)))))
