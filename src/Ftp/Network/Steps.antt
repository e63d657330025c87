-- ===== src/Ftp/Network/Steps.antt =====
-- Steps of the network, each from a step of one of its two sides.
use hyu_2021_network_protoco.Common.{
  ℕ, ◌≡◌, refl, Bool, true, List, [], ◌∷◌, ◌++◌, some, arith, get_elem?,
}
use hyu_2021_network_protoco.Clib.Text.{Text}
use hyu_2021_network_protoco.Ftp.Protocol.{Message}
use hyu_2021_network_protoco.Ftp.Server.State.{Files}
use hyu_2021_network_protoco.Ftp.Server.Execute.{Surroundings}
use hyu_2021_network_protoco.Ftp.Server.System as Server
use hyu_2021_network_protoco.Ftp.Client.{Delivery}
use hyu_2021_network_protoco.Ftp.Client.System as Client
use hyu_2021_network_protoco.Ftp.Network.{
  Parcel, Network, Event, server_reads, server_opens, server_serves, server_joins, client_reads,
  client_joins, types, client_starts, client_fetches, port_of, server_does, client_does,
  take_parcel, read_request, read_reply, read_parcel, fetch_parcel, step, run,
}

abbrev pub net : Server.System → Client.System → List Message → List Message → List Parcel → Network
net s c qs rs ps = record { server = s; client = c; requests = qs; replies = rs; parcels = ps }

pub run-cons :
    (e : Event) (es : List Event) (n m k : Network) (ds rest : List Delivery)
    → step e n ≡ (m, ds)
    → run m es ≡ (k, rest)
    → run n (e ∷ es) ≡ (k, ds ++ rest)
unfolding run
run-cons e es n m k ds rest h i = rw (h, i) refl

pub run-nil : (n : Network) → run n [] ≡ (n, [])
unfolding run
run-nil n = refl

module _ (s t : Server.System) (c : Client.System) where
  pub read_step :
      (e : Surroundings) (m r : Message)
      → s.main ≡ Server.receiving
      → Server.step (Server.received e (Server.message m)) s ≡ (t, Server.control r ∷ [])
      → step (server_reads e) (net s c (m ∷ []) [] []) ≡ (net t c [] (r ∷ []) [], [])
  unfolding step read_request server_does
  read_step e m r h k = ground (arith, h, k)

  pub open_step :
      (i : ℕ) (ok : Bool) (b : Server.Bind) (qs rs : List Message)
      → Server.step (Server.opened i ok b) s ≡ (t, [])
      → step (server_opens i ok b) (net s c qs rs []) ≡ (net t c qs rs [], [])
  unfolding step server_does
  open_step i ok b qs rs k = rw (k, step) refl

  pub serve_step :
      (i : ℕ) (files : Files) (memory : List ℕ) (m : Message)
      → Server.step (Server.served i files memory true true) s ≡ (t, Server.channel i m ∷ [])
      → step (server_serves i files memory true true) (net s c [] [] [])
        ≡ (net t c [] [] ((port_of t, m) ∷ []), [])
  unfolding step server_does
  serve_step i files memory m k = rw (k, step) refl

  pub join_step :
      (m : Message)
      → Server.step Server.joined s ≡ (t, Server.control m ∷ [])
      → step server_joins (net s c [] [] []) ≡ (net t c [] (m ∷ []) [], [])
  unfolding step server_does
  join_step m k = rw (k, step) refl

module _ (s : Server.System) (c d : Client.System) where
  pub type_step :
      (line : Text) (m : Message)
      → Client.step (Client.typed line) c ≡ (d, Client.request m ∷ [])
      → step (types line) (net s c [] [] []) ≡ (net s d (m ∷ []) [] [], [])
  unfolding step client_does
  type_step line m k = rw (k, step) refl

  pub answer_step :
      (made : Bool) (pick : ℕ) (m : Message)
      → c.main ≡ Client.receiving
      → Client.step (Client.answered (Client.message m) made pick) c ≡ (d, [])
      → step (client_reads made pick) (net s c [] (m ∷ []) []) ≡ (net s d [] [] [], [])
  unfolding step read_reply client_does
  answer_step made pick m h k = ground (arith, h, k)

  pub close_step :
      (made : Bool) (pick : ℕ) (m : Message)
      → c.main ≡ Client.closing
      → Client.step (Client.closed (Client.message m)) c ≡ (d, [])
      → step (client_reads made pick) (net s c [] (m ∷ []) []) ≡ (net s d [] [] [], [])
  unfolding step read_reply client_does
  close_step made pick m h k = ground (arith, h, k)

  pub start_step :
      (i : ℕ) (ok : Bool) (garbage : ℕ)
      → Client.step (Client.started i ok garbage) c ≡ (d, [])
      → step (client_starts i ok garbage) (net s c [] [] []) ≡ (net s d [] [] [], [])
  unfolding step client_does
  start_step i ok garbage k = rw (k, step) refl

  pub fetch_step :
      (i p : ℕ) (m : Message) (fopen_ok : Bool) (x : Delivery)
      → get_elem? c.threads i ≡ some Client.woken
      → c.data_port ≡ p
      → Client.step (Client.fetched i (Client.message m) fopen_ok) c ≡ (d, Client.delivery x ∷ [])
      → step (client_fetches i fopen_ok) (net s c [] [] ((p, m) ∷ [])) ≡ (net s d [] [] [], x ∷ [])
  unfolding step fetch_parcel read_parcel take_parcel client_does
  fetch_step i p m fopen_ok x h e k = ground (arith, h, e, k)

  pub end_step :
      Client.step Client.joined c ≡ (d, [])
      → step client_joins (net s c [] [] []) ≡ (net s d [] [] [], [])
  unfolding step client_does
  end_step k = rw (k, step) refl
