-- ===== src/Ftp/Network/Download.antt =====
-- A file from the server to the client: PORT, then RETR.
use hyu_2021_network_protoco.Common.{
  ◌%◌, ◌^◌, ℕ, ℕ, ◌+◌, ◌<◌, ◌≡◌, refl, ◌∙◌, ap, List, [], ◌∷◌, ◌++◌, some, arith, length, get_elem?,
}
use hyu_2021_network_protoco.Clib.Text.{Text, codes}
use hyu_2021_network_protoco.Ftp.Protocol.{
  Command, Message, logged_in, max_relative_path_length, whitespaces,
}
use hyu_2021_network_protoco.Ftp.Server.State.{woken, Server, created}
use hyu_2021_network_protoco.Ftp.Server.Execute.{Surroundings}
use hyu_2021_network_protoco.Ftp.Server.System as Server
use hyu_2021_network_protoco.Ftp.Client.{callback, extract_class, wrote, ready, prompt, remember}
use hyu_2021_network_protoco.Ftp.Client.System as Client
use hyu_2021_network_protoco.Ftp.Exchange.Requests.{prompt_ready}
use hyu_2021_network_protoco.Ftp.Exchange.Download.{
  Address, IsAddress, address_body, address_port, after_port, after_retr, after_download, IsFile,
  retr_step, serve_step,
}
use hyu_2021_network_protoco.Clib.Strtok.{first_token}
use hyu_2021_network_protoco.Ftp.Exchange.Data.{retr_delivers}
use hyu_2021_network_protoco.Ftp.Exchange.Thread.{listening}
use hyu_2021_network_protoco.Ftp.Network.Transfer.{finished, transfer_schedule, transfer_run}
use hyu_2021_network_protoco.Ftp.Network.Prepare.{at_rest, with_command, preparation, active_run}
use hyu_2021_network_protoco.Ftp.Network.{Event, run}

-- The schedule of the whole, with the two lines of the user.
abbrev pub download_schedule :
    Text → Text → Server → Client.System → List ℕ → Surroundings → Surroundings → List Event
download_schedule port_line retr_line s c memory e f =
    preparation port_line s c e (transfer_schedule retr_line s c.threads f.files memory f)

-- The client has written the file.
abbrev pub after_write : Text → ℕ → Client.System → Client.System
after_write name port c =
    finished (record { sent_command = Command.retr; file_name = name ++ codes "fromServer" })
      c.threads port

-- Both sides are at rest, the session is logged in; the file is a text file that fits a message, in
-- a directory that opens and has two different first entries, and its path and its name, which is
-- one word, fit their buffers on both sides. The user types a line that is read as PORT with six
-- numbers below 256 and one that is read as RETR with the name of the file, the threads are made,
-- the sockets and `fopen` work, each signal reaches the thread that is new, and the block of
-- `malloc` has a NUL just behind the contents. Then, with the turns of the schedule, the client
-- writes exactly the contents of the file, under its name with "fromServer" behind it, and both
-- sides are at rest again, the session logged in.
pub file_arrives :
    (s : Server) (c : Client.System) (a : Address) (memory : List ℕ) (name contents : Text)
    (port_line retr_line : Text) (pm rm : Message) (e f : Surroundings)
    → s.auth_status ≡ logged_in
    → IsAddress a
    → prompt (port_line ∷ []) ≡ ready Command.port pm []
    → pm.body ≡ address_body a
    → prompt (retr_line ∷ []) ≡ ready Command.retr rm []
    → rm.body ≡ name
    → first_token whitespaces name ≡ some name
    → e.create ≡ created
    → f.pick ≡ length s.data_threads
    → IsFile f.files s.relative_path name contents
    → length name + 10 < max_relative_path_length
    → get_elem? memory (length contents) ≡ some 0
    → run (at_rest s c) (download_schedule port_line retr_line s c memory e f) ≡ (
      at_rest
          (after_download s name (address_port a))
          (after_write name (address_port a % 2 ^ 16) c),
      wrote (name ++ codes "fromServer") contents ∷ [],
    )
unfolding callback extract_class remember
file_arrives s c a memory name contents l1 l2 pm rm e f login small p1 body p2 rbody token made
      picked file short ends =
    let n = address_port a in
    let s1 = listening n (after_port s) in
    let s2 = after_retr name s1 in
    active_run s c a l1 pm [] e _ _ _ login small p1 body made (
      transfer_run Command.retr s1 s2 (with_command Command.port c.client)
        (record { sent_command = Command.retr; file_name = name }) c.threads n contents f.files
        memory l2 rm [] f (wrote (name ++ codes "fromServer") contents) refl refl refl p2
        (ap (λ x. record { sent_command = Command.retr; file_name = x }) rbody)
        (retr_step s1 n name contents f rm refl file (prompt_ready _ _ rm [] p2).same
          (ap (first_token whitespaces) rbody ∙ token) picked)
        refl (serve_step s2 n f.files memory name contents refl refl file ends)
        (retr_delivers 0 (record { number = n; phase = woken }) f.files memory
          (record { server = s2; main = Server.receiving }) name contents refl refl file.short_path
          short file.opens file.text file.fits ends).1
        (λ h. cc) (omega (arith, file.short_name)))
