-- ===== src/Ftp/Network/Listing.antt =====
-- A listing from the directory of the server to the screen of the client: PASV, then NLST.
use hyu_2021_network_protoco.Common.{
  ◌%◌, ◌^◌, ℕ, ◌+◌, ◌<◌, ◌≡◌, refl, true, List, [], ◌∷◌, some, arith, length, All, get_elem?,
}
use hyu_2021_network_protoco.Clib.Text.{Text}
use hyu_2021_network_protoco.Ftp.Protocol.{Command, Message, logged_in, max_buffer_size}
use hyu_2021_network_protoco.Ftp.Server.State.{woken, Server, ports, Files, created}
use hyu_2021_network_protoco.Ftp.Server.Execute.{Surroundings}
use hyu_2021_network_protoco.Ftp.Server.Directory.Laws.{listing}
use hyu_2021_network_protoco.Ftp.Server.System as Server
use hyu_2021_network_protoco.Ftp.Client.{callback, extract_class, printed, ready, prompt, remember}
use hyu_2021_network_protoco.Ftp.Client.System as Client
use hyu_2021_network_protoco.Ftp.Exchange.Requests.{prompt_ready}
use hyu_2021_network_protoco.Ftp.Exchange.Session.{
  after_pasv, after_nlst, after_listing, nlst_step, serve_step,
}
use hyu_2021_network_protoco.Ftp.Exchange.Data.{IsEntry, nlst_delivers}
use hyu_2021_network_protoco.Ftp.Exchange.Thread.{listening}
use hyu_2021_network_protoco.Ftp.Network.Transfer.{finished, transfer_schedule, transfer_run}
use hyu_2021_network_protoco.Ftp.Network.Prepare.{at_rest, with_command, preparation, passive_run}
use hyu_2021_network_protoco.Ftp.Network.{Event, run}

-- The schedule of the whole, with the two lines of the user.
abbrev pub listing_schedule :
    Text → Text → Server → Client.System → Files → List ℕ → Surroundings → Surroundings → List Event
listing_schedule pasv_line nlst_line s c files memory e f =
    preparation pasv_line s c e (transfer_schedule nlst_line s c.threads files memory f)

-- Both sides are at rest, the session is logged in, with a port left in the server's list; the
-- directory's path is at most 978 bytes long, its names are such as the client leaves whole, and
-- its listing fits a message. The user types a line that is read as PASV and one that is read as
-- NLST, the threads are made, the sockets work, and each signal reaches the thread that is new.
-- Then, with the turns of the schedule, the client prints exactly the names of the directory, in
-- order, and both sides are at rest again, the session logged in, with the next port to give out.
pub listing_arrives :
    (s : Server) (c : Client.System) (n : ℕ) (files : Files) (memory : List ℕ) (names : List Text)
    (pasv_line nlst_line : Text) (pm nm : Message) (e f : Surroundings)
    → s.auth_status ≡ logged_in
    → get_elem? ports s.port_idx ≡ some n
    → length s.relative_path + 45 < max_buffer_size
    → prompt (pasv_line ∷ []) ≡ ready Command.pasv pm []
    → prompt (nlst_line ∷ []) ≡ ready Command.nlst nm []
    → e.create ≡ created
    → f.pick ≡ length s.data_threads
    → files.opendir s.relative_path ≡ some names
    → All IsEntry names
    → length (listing names) < max_buffer_size
    → run (at_rest s c) (listing_schedule pasv_line nlst_line s c files memory e f) ≡ (
      at_rest
          (after_listing s n)
          (finished (with_command Command.nlst c.client) c.threads (n % 2 ^ 16)),
      printed names ∷ [],
    )
unfolding callback extract_class remember
listing_arrives s c n files memory names l1 l2 pm nm e f login listed path_fits p1 p2 made picked
      opens entries fits =
    let s1 = listening n (after_pasv s) in
    let s2 = after_nlst s1 in
    passive_run s c n l1 pm [] e _ _ _ login listed p1 made (
      transfer_run Command.nlst s1 s2 (with_command Command.pasv c.client)
        (with_command Command.nlst c.client) c.threads n (listing names) files memory l2 nm [] f
        (printed names) refl refl refl p2 refl
        (nlst_step s1 n f nm refl path_fits (prompt_ready _ _ nm [] p2).same picked) refl
        (serve_step s2 n files memory names refl opens entries fits)
        (nlst_delivers 0 (record { number = n; phase = woken }) files memory
          (record { server = s2; main = Server.receiving }) names true c.client.file_name refl opens
          entries fits).1
        (λ h. cc) (omega arith))
