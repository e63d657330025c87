-- ===== src/Ftp/Exchange/Session.antt =====
-- A whole transfer: PASV, then NLST, from a state that is logged in to one that is logged in again.
use hyu_2021_network_protoco.Common.{
  ℕ, ◌+◌, ◌<◌, ◌≡◌, refl, true, List, [], ◌∷◌, ◌++◌, some, arith, length, length-append, All,
  All-get_elem?, get_elem?,
}
use hyu_2021_network_protoco.Clib.Text.{Text, codes}
use hyu_2021_network_protoco.Ftp.Protocol.{
  Command, logged_in, mode_selected, Message, interpret, max_buffer_size,
}
use hyu_2021_network_protoco.Ftp.Server.State.{
  opening, waiting, woken, done, Server, ports, reply, joining, Files, created,
}
use hyu_2021_network_protoco.Ftp.Server.Execute.{
  Surroundings, passive_text, announce, start_data_thread, execute_pasv, execute_nlst, dispatch,
  execute,
}
use hyu_2021_network_protoco.Ftp.Server.Replies.{respond_fits}
use hyu_2021_network_protoco.Ftp.Server.Directory.Laws.{listing}
use hyu_2021_network_protoco.Ftp.Server.System.{
  new_message, receiving, awaiting, channel, bound, message, Event, received, opened, served,
  joined, send_control, conclude, handle, receive, serve, at_phase, with_thread, main_step, step,
  run,
}
use hyu_2021_network_protoco.Ftp.Exchange.Agreement.{IsListed, ports_sound, length-passive_text}
use hyu_2021_network_protoco.Ftp.Exchange.Data.{IsEntry, data_message, nlst_delivers}
use hyu_2021_network_protoco.Ftp.Exchange.Thread.{
  answer, with_last, last_thread, last_moves, listening, open_step, signal_last, after_transfer,
  join_step, run-cons, run-nil,
}

-- What PASV makes of a state.
abbrev pub after_pasv : Server → Server
after_pasv s = record s {
  port_idx = s.port_idx + 1;
  data_thread = some (length s.data_threads);
  auth_status = mode_selected;
}

module _ (s : Server) (n : ℕ) (login : s.auth_status ≡ logged_in)
    (listed : get_elem? ports s.port_idx ≡ some n) where
  pasv_executed :
      execute_pasv created s ≡ (reply 227 (passive_text n), with_last (after_pasv s) n opening)
  unfolding execute_pasv start_data_thread
  pasv_executed =
      let (small, _) = All-get_elem? IsListed ports s.port_idx ports_sound listed in
      ground (arith, respond_fits 227 (passive_text n) (length-passive_text n small))

  pub pasv_step :
      (e : Surroundings) (m : Message)
      → interpret m.command ≡ Command.pasv
      → e.create ≡ created
      → step (received e (message m)) (record { server = s; main = receiving }) ≡ (
        record { server = with_last (after_pasv s) n opening; main = receiving },
        answer 227 (passive_text n) ∷ [],
      )
  unfolding step main_step receive handle execute dispatch conclude send_control new_message
  pasv_step e m word made =
      let (small, _) = All-get_elem? IsListed ports s.port_idx ports_sound listed in
      ground (arith, pasv_executed, length-passive_text n small)

-- What NLST makes of a state, up to `pthread_join`.
abbrev pub after_nlst : Server → Server
after_nlst s = record s { data_command = Command.nlst }

nlst_executed :
    (s : Server) (n : ℕ)
    → s.auth_status ≡ mode_selected
    → length s.relative_path + 45 < max_buffer_size
    → execute_nlst (length s.data_threads) (with_last s n waiting)
      ≡ (joining, with_last (after_nlst s) n woken)
unfolding execute_nlst announce
nlst_executed s n mode fits = ground (
  arith,
  signal_last s n,
  length-append (codes "Opening data channel of directory listing of ") s.relative_path,
)

pub nlst_step :
    (s : Server) (n : ℕ) (e : Surroundings) (m : Message)
    → s.auth_status ≡ mode_selected
    → length s.relative_path + 45 < max_buffer_size
    → interpret m.command ≡ Command.nlst
    → e.pick ≡ length s.data_threads
    → step (received e (message m)) (record { server = with_last s n waiting; main = receiving })
      ≡ (
        record { server = with_last (after_nlst s) n woken; main = awaiting Command.nlst },
        answer 150 [] ∷ [],
      )
unfolding step main_step receive handle execute dispatch conclude send_control new_message
nlst_step s n e m mode fits word picked = ground (arith, nlst_executed s n mode fits)

pub serve_step :
    (s : Server) (n : ℕ) (files : Files) (memory : List ℕ) (names : List Text)
    → s.data_command ≡ Command.nlst
    → files.opendir s.relative_path ≡ some names
    → All IsEntry names
    → length (listing names) < max_buffer_size
    → step
        (served (length s.data_threads) files memory true true)
        (record { server = with_last s n woken; main = awaiting Command.nlst })
      ≡ (
        record { server = with_last s n (done true); main = awaiting Command.nlst },
        channel (length s.data_threads) (data_message (listing names)) ∷ [],
      )
unfolding step main_step with_thread at_phase serve
serve_step s n files memory names command opens entries fits = ground (
  arith,
  last_thread s n woken (done true),
  last_moves s n woken (done true),
  nlst_delivers (length s.data_threads) (record { number = n; phase = woken }) files memory
      (record { server = with_last s n woken; main = awaiting Command.nlst }) names true [] command
      opens entries fits,
)

-- The events of the transfer: the two requests, and the turns of the data thread between them.
abbrev pub listing_events :
    Server → Files → List ℕ → Message → Message → Surroundings → Surroundings → List Event
listing_events s files memory pasv_request nlst_request e f =
    received e (message pasv_request)
    ∷ opened (length s.data_threads) true bound
    ∷ received f (message nlst_request)
    ∷ served (length s.data_threads) files memory true true
    ∷ joined
    ∷ []

abbrev pub after_listing : Server → ℕ → Server
after_listing s n =
    with_last (after_transfer (after_nlst (listening n (after_pasv s)))) n (done true)

-- From a state that is logged in, with a port left in the list, and with a directory whose names the
-- client leaves whole and whose listing fits a message: if the thread is made, its sockets work, and the
-- signal reaches it while it waits, then PASV and NLST are answered with 227, 150 and 226, the data
-- thread sends the listing, and the state is logged in again, with the next port to give out.
pub nlst_session :
    (s : Server) (n : ℕ) (files : Files) (memory : List ℕ) (names : List Text)
    (pasv_request nlst_request : Message) (e f : Surroundings)
    → s.auth_status ≡ logged_in
    → get_elem? ports s.port_idx ≡ some n
    → length s.relative_path + 45 < max_buffer_size
    → interpret pasv_request.command ≡ Command.pasv
    → interpret nlst_request.command ≡ Command.nlst
    → e.create ≡ created
    → f.pick ≡ length s.data_threads
    → files.opendir s.relative_path ≡ some names
    → All IsEntry names
    → length (listing names) < max_buffer_size
    → run
        (record { server = s; main = receiving })
        (listing_events s files memory pasv_request nlst_request e f)
      ≡ (
        record { server = after_listing s n; main = receiving },
        answer 227 (passive_text n)
            ∷ answer 150 []
            ∷ channel (length s.data_threads) (data_message (listing names))
            ∷ answer 226 (codes "Successfully transferred " ++ (s.relative_path ++ 10 ∷ []))
            ∷ [],
      )
nlst_session s n files memory names pm nm e f login listed path_fits pword nword made picked opens
      entries fits =
    let t = after_pasv s in
    let v = listening n t in
    let u = after_nlst v in
    run-cons _ _ _ _ _ _ _ (pasv_step s n login listed e pm pword made) (
      run-cons _ _ _ _ _ _ _ (open_step t n) (
        run-cons _ _ _ _ _ _ _ (nlst_step v n f nm refl path_fits nword picked) (
          run-cons _ _ _ _ _ _ _ (serve_step u n files memory names refl opens entries fits)
            (run-cons _ _ _ _ _ _ _ (join_step Command.nlst u n refl (omega arith)) (run-nil _)))))
