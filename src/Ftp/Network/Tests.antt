-- ===== src/Ftp/Network/Tests.antt =====
-- The theorems about the network on concrete inputs.
use hyu_2021_network_protoco.Common.{
  ◌≡◌, ◌≢◌, ◌⊎◌, refl, List, [], ◌∷◌, ◌++◌, some, none, true, false, arith, All,
}
use hyu_2021_network_protoco.Clib.Text.{Text, codes, text_eq, tolower, elem}
use hyu_2021_network_protoco.Clib.Strtok.{first_token, skip, word, after, strtok}
use hyu_2021_network_protoco.Clib.Decimal.{decimal, digits_fuel}
use hyu_2021_network_protoco.Ftp.Protocol.{
  Command, logged_in, Message, to_lowercase, interpret_lower, interpret, whitespaces,
}
use hyu_2021_network_protoco.Ftp.Server.State.{Server, initial, Files, created}
use hyu_2021_network_protoco.Ftp.Server.Execute.{Surroundings}
use hyu_2021_network_protoco.Ftp.Client.{printed, wrote, callback, prompt, ready, request_message}
use hyu_2021_network_protoco.Ftp.Client.System as Client
use hyu_2021_network_protoco.Ftp.Server.System as Server
use hyu_2021_network_protoco.Ftp.Exchange.Data.{IsEntry}
use hyu_2021_network_protoco.Ftp.Exchange.Session.{after_listing}
use hyu_2021_network_protoco.Ftp.Exchange.Download.{address_body, Address, IsFile, after_download}
use hyu_2021_network_protoco.Ftp.Network.{
  Network, Event, greets, client_reads, types, server_reads, start, run, step, server_does,
  client_does, read_reply,
}
use hyu_2021_network_protoco.Ftp.Network.Prepare.{at_rest, with_command}
use hyu_2021_network_protoco.Ftp.Network.Transfer.{finished}
use hyu_2021_network_protoco.Ftp.Network.Listing.{listing_schedule, listing_arrives}
use hyu_2021_network_protoco.Ftp.Network.Download.{download_schedule, after_write, file_arrives}
use hyu_2021_network_protoco.Ftp.Network.Lockstep.{InLockstep}
use hyu_2021_network_protoco.Ftp.Network.Lockstep.Progress.{answer_comes}
use hyu_2021_network_protoco.Ftp.Network.Lockstep.Runs.{run-InLockstep}

abbrev two_names : List Text
two_names = codes "a.c" ∷ codes "b" ∷ []

abbrev disk : Files
disk = record { opendir = λ _. some two_names; fopen = λ _. some (codes "hi") }

abbrev quiet : Surroundings
quiet = record { files = disk; create = created; pick = 0 }

abbrev logins : List Event
logins =
    greets
    ∷ client_reads true 0
    ∷ types (codes "USER auaicn")
    ∷ server_reads quiet
    ∷ client_reads false 0
    ∷ types (codes "PASS thislove1!")
    ∷ server_reads quiet
    ∷ client_reads true 7
    ∷ types (codes "nlst")
    ∷ server_reads quiet
    ∷ []

run-InLockstep_example : InLockstep (run start logins).0
run-InLockstep_example = run-InLockstep logins

-- The user has typed a command, and nobody has read it.
abbrev asking : List Event
asking = greets ∷ client_reads true 0 ∷ types (codes "PASV") ∷ []

asking_waits : (run start asking).0.client.main ≡ Client.receiving
unfolding run step server_does Server.step Server.main_step Server.send_control Server.new_message
    read_reply client_does Client.step Client.main_step Client.receive Client.react callback
    Client.enter prompt strtok skip word after elem interpret interpret_lower to_lowercase tolower
    text_eq
asking_waits = refl

abbrev three_steps : Network
three_steps = (run (run start asking).0 (greets ∷ server_reads quiet ∷ client_reads true 0 ∷ [])).0

answer_comes_example :
    (three_steps.server.main ≡ Server.stopped) ⊎ (three_steps.client.main ≢ Client.receiving)
answer_comes_example = answer_comes asking quiet true 0 asking_waits

abbrev session : Server
session = record initial { auth_status = logged_in; port_idx = 3 }

-- A client with a data thread of an earlier transfer.
abbrev client : Client.System
client = record {
  client = record { sent_command = Command.type; file_name = codes "x" };
  threads = Client.ended ∷ [];
  data_thread = none;
  data_port = 0;
  main = Client.prompting;
}

types_pasv : prompt (codes "PASV" ∷ []) ≡ ready Command.pasv (request_message (codes "PASV") []) []
unfolding prompt strtok skip word after elem interpret interpret_lower to_lowercase tolower text_eq
types_pasv = refl

types_nlst : prompt (codes "Nlst" ∷ []) ≡ ready Command.nlst (request_message (codes "Nlst") []) []
unfolding prompt strtok skip word after elem interpret interpret_lower to_lowercase tolower text_eq
types_nlst = refl

names_whole : All IsEntry two_names
unfolding elem
names_whole = ground arith

listing_arrives_example :
    run
      (at_rest session client)
      (listing_schedule (codes "PASV") (codes "Nlst") session client disk [] quiet quiet)
    ≡ (
      at_rest
          (after_listing session 1028)
          (finished (with_command Command.nlst client.client) client.threads 1028),
      printed two_names ∷ [],
    )
listing_arrives_example =
    listing_arrives session client 1028 disk [] two_names (codes "PASV") (codes "Nlst")
      (request_message (codes "PASV") []) (request_message (codes "Nlst") []) quiet quiet refl refl
      (omega arith) types_pasv types_nlst refl refl refl names_whole (omega arith)

abbrev six_numbers : Address
six_numbers = record { h1 = 192; h2 = 168; h3 = 0; h4 = 1; high = 4; low = 7 }

abbrev port_message : Message
port_message = record { status = 0; command = codes "port"; body = codes "192,168,0,1,4,7" }

abbrev retr_message : Message
retr_message = record { status = 0; command = codes "retr"; body = codes "b" }

types_port : prompt (codes "port 192,168,0,1,4,7" ∷ []) ≡ ready Command.port port_message []
unfolding prompt strtok skip word after elem interpret interpret_lower to_lowercase tolower text_eq
    first_token
types_port = refl

types_retr : prompt (codes "RETR b" ∷ []) ≡ ready Command.retr retr_message []
unfolding prompt strtok skip word after elem interpret interpret_lower to_lowercase tolower text_eq
    first_token
types_retr = refl

six_body : port_message.body ≡ address_body six_numbers
unfolding decimal digits_fuel
six_body = refl

b_is_word : first_token whitespaces (codes "b") ≡ some (codes "b")
unfolding first_token strtok skip word after elem
b_is_word = refl

names_apart : codes "a.c" ≢ codes "b"
names_apart h = cc

disk-IsFile : IsFile disk (codes "./") (codes "b") (codes "hi")
disk-IsFile = record {
  first = codes "a.c";
  second = codes "b";
  others = [];
  listed = refl;
  differ = names_apart;
  short_path = omega arith;
  short_name = omega arith;
  opens = refl;
  text = omega arith;
  fits = omega arith;
}

file_arrives_example :
    run (at_rest session client) (
      download_schedule
        (codes "port 192,168,0,1,4,7")
        (codes "RETR b")
        session
        client
        (7 ∷ 7 ∷ 0 ∷ [])
        quiet
        quiet)
    ≡ (
      at_rest (after_download session (codes "b") 1031) (after_write (codes "b") 1031 client),
      wrote (codes "b" ++ codes "fromServer") (codes "hi") ∷ [],
    )
file_arrives_example =
    file_arrives session client six_numbers (7 ∷ 7 ∷ 0 ∷ []) (codes "b") (codes "hi")
      (codes "port 192,168,0,1,4,7") (codes "RETR b") port_message retr_message quiet quiet refl
      (omega arith) types_port six_body types_retr refl b_is_word refl refl disk-IsFile
      (omega arith) refl
