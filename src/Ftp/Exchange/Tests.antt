-- ===== src/Ftp/Exchange/Tests.antt =====
-- The theorems about server and client together on concrete inputs.
use hyu_2021_network_protoco.Common.{
  ◌<◌, ◌≡◌, refl, List, [], ◌∷◌, ◌++◌, some, true, arith, All, if◌then◌else◌, ◌==◌, ◌/◌, ◌%◌,
}
use hyu_2021_network_protoco.Clib.Text.{Text, codes, elem}
use hyu_2021_network_protoco.Ftp.Protocol.{Command, logged_in}
use hyu_2021_network_protoco.Ftp.Server.State.{
  Server, initial, Files, created, failed, woken, DataThread, reply, respond,
}
use hyu_2021_network_protoco.Ftp.Server.Execute.{
  passive_text, execute_pasv, execute_port, decode_port, login_first,
}
use hyu_2021_network_protoco.Ftp.Server.System.{System, receiving, transfer}
use hyu_2021_network_protoco.Ftp.Client.{
  decode_address, data_port_of, decoded, faults, wrote, deliver,
}
use hyu_2021_network_protoco.Ftp.Exchange.Address.{passive_port}
use hyu_2021_network_protoco.Ftp.Exchange.Agreement.{
  Agreed, passive-Agreed, active-Agreed, port_body, active_number,
}
use hyu_2021_network_protoco.Ftp.Exchange.Data.{IsEntry, delivered, retr_delivers}
use hyu_2021_network_protoco.Ftp.Exchange.Decoding.{as_data_port, decode_address-decode_port}
use hyu_2021_network_protoco.Ftp.Exchange.Refusals.{refused_port_faults}

abbrev entry_names : List Text
entry_names = codes "a.c" ∷ codes "b" ∷ []

abbrev small_disk : Files
small_disk = record { opendir = λ _. some entry_names; fopen = λ _. some (codes "hi") }

entries_whole : All IsEntry entry_names
unfolding elem
entries_whole = ground arith

abbrev session : Server
session = record initial { auth_status = logged_in; port_idx = 3 }

passive-Agreed_example : Agreed 1028 227 Command.pasv session (execute_pasv created session)
passive-Agreed_example = passive-Agreed session 1028 refl refl

octets_small : All (λ h. h < 256) (192 ∷ 168 ∷ 0 ∷ 1 ∷ 4 ∷ 7 ∷ [])
octets_small = omega arith

active-Agreed_example :
    Agreed
      (active_number 4 7)
      200
      Command.port
      session
      (execute_port created (port_body 192 168 0 1 4 7) session)
active-Agreed_example = active-Agreed session 192 168 0 1 4 7 refl octets_small

passive_port_example :
    data_port_of Command.pasv (passive_text 1028)
    ≡ decoded (if 1028 % 256 == 0 then 1028 / 256 else 1028)
passive_port_example = passive_port 1028 (omega arith)

abbrev ready_thread : DataThread
ready_thread = record { number = 1028; phase = woken }

abbrev listing_now : System
listing_now = record {
  server = record session { data_command = Command.nlst; data_threads = ready_thread ∷ [] };
  main = receiving;
}

abbrev fetching_now : System
fetching_now = record {
  server = record session {
    data_command = Command.retr;
    file_name = some (codes "b");
    data_threads = ready_thread ∷ [];
  };
  main = receiving;
}

retr_delivers_example :
    (transfer 0 ready_thread small_disk (7 ∷ 7 ∷ 0 ∷ []) fetching_now
      ≡ delivered 0 ready_thread (codes "hi") fetching_now)
    × (deliver Command.retr true (codes "b") (codes "hi")
        ≡ wrote (codes "b" ++ codes "fromServer") (codes "hi"))
retr_delivers_example =
    retr_delivers 0 ready_thread small_disk (7 ∷ 7 ∷ 0 ∷ []) fetching_now (codes "b") (codes "hi")
      refl refl (omega arith) (omega arith) refl (omega arith) (omega arith) refl

decode_address-decode_port_example :
    decode_address 4 9 3 (codes "1" ∷ codes "0" ∷ codes "7" ∷ [])
    ≡ as_data_port (decode_port 4 2 3 (codes "1" ∷ codes "0" ∷ codes "7" ∷ []))
decode_address-decode_port_example =
    decode_address-decode_port 4 9 2 3 (codes "1" ∷ codes "0" ∷ codes "7" ∷ [])

refusal : (execute_port failed [] initial).0 ≡ reply 401 login_first
unfolding execute_port respond
refusal = refl

refused_port_faults_example : data_port_of Command.port login_first ≡ faults
refused_port_faults_example =
    refused_port_faults failed [] initial 401 login_first refusal (omega arith)
