-- ===== src/Ftp/Network.antt =====
-- FTP/server.c and FTP/client.c connected: one client and the server, with the messages that are on
-- their way between them. The connections lose nothing, keep the order, and do not break.
pub mod Prepare
pub mod Steps
pub mod Tests
pub mod Transfer
pub mod Turns
pub mod Download
pub mod Listing
pub mod Lockstep
use hyu_2021_network_protoco.Common.{
  ℕ, ◌%◌, ◌^◌, Bool, true, false, List, [], ◌∷◌, ◌++◌, Option, none, some, ◌==◌, get_elem?,
}
use hyu_2021_network_protoco.Clib.Text.{Text}
use hyu_2021_network_protoco.Ftp.Protocol.{Message}
use hyu_2021_network_protoco.Ftp.Server.State.{Files}
use hyu_2021_network_protoco.Ftp.Server.Execute.{Surroundings}
use hyu_2021_network_protoco.Ftp.Server.System as Server
use hyu_2021_network_protoco.Ftp.Server.System.{Bind}
use hyu_2021_network_protoco.Ftp.Client.System as Client
use hyu_2021_network_protoco.Ftp.Client.{Delivery}

-- A message on a data connection, with the port that the connection is to.
abbrev pub Parcel : Type 0
Parcel = ℕ × Message

pub record Network : Type 0 where
  pub server : Server.System
  pub client : Client.System
  pub requests : List Message  -- sent by the client, not received
  pub replies : List Message  -- sent by the server on the control connection, not received
  pub parcels : List Parcel  -- sent by data threads of the server, not received

-- The port of the server's data socket; a socket that was not bound is on no port that a client dials, here 2 ^ 16.
abbrev pub port_of : Server.System → ℕ
port_of s = elim s.server.data_server_fd [ none ↦ 2 ^ 16 | some number ↦ number % 2 ^ 16 ]

-- What the server sent goes on its way.
abbrev pub posted : List Server.Output → Server.System → Network → Network
posted [] s n = n
posted (Server.control m ∷ out) s n = posted out s (record n { replies = n.replies ++ m ∷ [] })
posted (Server.channel i m ∷ out) s n =
    posted out s (record n { parcels = n.parcels ++ (port_of s, m) ∷ [] })

unfoldable pub server_does : Server.Event → Network → Network
server_does e n = let (s, out) = Server.step e n.server in posted out s (record n { server = s })

-- What the client's data threads did with the data that came.
abbrev pub Result : Type 0
Result = Network × List Delivery

abbrev pub asked : List Client.Output → Network → Result
asked [] n = (n, [])
asked (Client.request m ∷ out) n = asked out (record n { requests = n.requests ++ m ∷ [] })
asked (Client.delivery d ∷ out) n = let (n', ds) = asked out n in (n', d ∷ ds)

unfoldable pub client_does : Client.Event → Network → Result
client_does e n = let (c, out) = Client.step e n.client in asked out (record n { client = c })

-- The first parcel for a port, and those that are left.
unfoldable pub take_parcel : ℕ → List Parcel → Option (Message × List Parcel)
take_parcel port [] = none
take_parcel port ((p, m) ∷ ps) = elim (p == port) [
  | true ↦ some (m, ps)
  | false ↦ elim (take_parcel port ps) [ none ↦ none | some (m', rest) ↦ some (m', (p, m) ∷ rest) ]
]

-- Who goes on, with what the operating system answers.
pub data Event : Type 0 where
  greets : Event
  server_refuses : Event
  server_reads : Surroundings → Event
  server_opens : (thread : ℕ) → (socket_ok : Bool) → Bind → Event
  server_wakes : (thread : ℕ) → Event
  server_serves : (thread : ℕ) → Files → (memory : List ℕ) → (listen_ok accept_ok : Bool) → Event
  server_joins : Event
  client_reads : (created : Bool) → (pick : ℕ) → Event
  client_joins : Event
  types : Text → Event
  client_starts : (thread : ℕ) → (socket_ok : Bool) → (garbage : ℕ) → Event
  client_wakes : (thread : ℕ) → Event
  client_fails : (thread : ℕ) → Event
  client_fetches : (thread : ℕ) → (fopen_ok : Bool) → Event

-- The server's `recv`, if it stands there and a request has come.
unfoldable pub read_request : Surroundings → Server.Main → List Message → Network → Network
read_request e Server.receiving (m ∷ ms) n =
    server_does (Server.received e (Server.message m)) (record n { requests = ms })
read_request e _ _ n = n

-- The client's `recv` on the control connection, at the answer of a turn or behind `pthread_join`.
unfoldable pub read_reply : Bool → ℕ → Client.Main → List Message → Network → Result
read_reply created pick Client.receiving (m ∷ ms) n =
    client_does (Client.answered (Client.message m) created pick) (record n { replies = ms })
read_reply created pick Client.closing (m ∷ ms) n =
    client_does (Client.closed (Client.message m)) (record n { replies = ms })
read_reply created pick _ _ n = (n, [])

-- The client's `recv` on a data connection to `data_port`.
unfoldable pub read_parcel : ℕ → Bool → Client.Phase → Network → Result
read_parcel i fopen_ok Client.woken n = elim (take_parcel n.client.data_port n.parcels) [
  | none ↦ (n, [])
  | some (m, rest) ↦
      client_does (Client.fetched i (Client.message m) fopen_ok) (record n { parcels = rest })
]
read_parcel i fopen_ok _ n = (n, [])

unfoldable pub fetch_parcel : ℕ → Bool → Network → Result
fetch_parcel i fopen_ok n = elim (get_elem? n.client.threads i) [
  | none ↦ (n, [])
  | some p ↦ read_parcel i fopen_ok p n
]

unfoldable pub step : Event → Network → Result
step greets n = (server_does Server.accepted n, [])
step server_refuses n = (server_does Server.refused n, [])
step (server_reads e) n = (read_request e n.server.main n.requests n, [])
step (server_opens i ok b) n = (server_does (Server.opened i ok b) n, [])
step (server_wakes i) n = (server_does (Server.spurious i) n, [])
step (server_serves i files memory l a) n = (server_does (Server.served i files memory l a) n, [])
step server_joins n = (server_does Server.joined n, [])
step (client_reads created pick) n = read_reply created pick n.client.main n.replies n
step client_joins n = client_does Client.joined n
step (types line) n = client_does (Client.typed line) n
step (client_starts i ok garbage) n = client_does (Client.started i ok garbage) n
step (client_wakes i) n = client_does (Client.spurious i) n
step (client_fails i) n = client_does (Client.unreachable i) n
step (client_fetches i fopen_ok) n = fetch_parcel i fopen_ok n

abbrev pub start : Network
start = record {
  server = Server.start;
  client = Client.start;
  requests = [];
  replies = [];
  parcels = [];
}

unfoldable pub run : Network → List Event → Result
run n [] = (n, [])
run n (e ∷ es) = let (m, ds) = step e n in let (k, rest) = run m es in (k, ds ++ rest)
