-- ===== src/Ftp/Network/Lockstep/Threads.antt =====
-- The steps of the client's data threads, and the turns of the two sides.
use hyu_2021_network_protoco.Common.{
  ℕ, ◌≡◌, refl, sym, ◌⊎◌, inl, inr, Bool, true, false, List, [], ◌∷◌, Option, none, some, arith,
  Option-cases, get_elem?, All, subst,
}
use hyu_2021_network_protoco.Ftp.Protocol.{Command, retr, Message}
use hyu_2021_network_protoco.Ftp.Server.System as Server
use hyu_2021_network_protoco.Ftp.Client.System as Client
use hyu_2021_network_protoco.Ftp.Network.Lockstep.{InStep, InLockstep}
use hyu_2021_network_protoco.Ftp.Client.{DataPort, decoded, malformed, Delivery}
use hyu_2021_network_protoco.Ftp.Network.{
  Network, asked, client_does, read_parcel, fetch_parcel, take_parcel,
}

-- The network when the client has made a step.
abbrev pub after_client : Client.Result → Network → Network
after_client r n = (asked r.1 (record n { client = r.0 })).0

abbrev pub IsDelivery : Client.Output → Type 0
IsDelivery (Client.request m) = ⊥
IsDelivery (Client.delivery d) = Unit

-- What a step of the client leaves as it is: it asks for nothing, and its last command stays the last.
pub record Unasked (s : Client.System) (r : Client.Result) : Type 0 where
  pub silent : All (λ o. IsDelivery o) r.1
  pub same : r.0.client.sent_command ≡ s.client.sent_command

pub asked_nothing :
    (out : List Client.Output) (n : Network) → All (λ o. IsDelivery o) out → (asked out n).0 ≡ n
asked_nothing [] n h = refl
asked_nothing (Client.request m ∷ out) n h = absurd h.0
asked_nothing (Client.delivery d ∷ out) n h = asked_nothing out n h.1

-- A step of the client that asks for nothing and brings its main thread to `cm`.
pub moved-InLockstep :
    (cm : Client.Main) (r : Client.Result) (n : Network)
    → Unasked n.client r
    → r.0.main ≡ cm
    → InStep n.server.main cm n.client.client.sent_command n.requests n.replies
    → InLockstep (after_client r n)
moved-InLockstep cm r n u main k = simp (asked_nothing r.1 (record n { client = r.0 }) u.silent) (
    subst (λ x. InStep n.server.main x r.0.client.sent_command n.requests n.replies) (sym main)
      (subst (λ c. InStep n.server.main cm c n.requests n.replies) (sym u.same) k))

pub stopped-InStep :
    (sm : Server.Main) (c : Command) (qs rs : List Message) → InStep sm Client.stopped c qs rs
stopped-InStep Server.stopped c qs rs = tt
stopped-InStep Server.accepting c qs rs = tt
stopped-InStep Server.receiving c qs rs = tt
stopped-InStep (Server.awaiting d) c qs rs = tt

-- A step of a data thread of the client.
record Aside (s : Client.System) (r : Client.Result) : Type 0 where
  unasked : Unasked s r
  stays : (r.0.main ≡ s.main) ⊎ (r.0.main ≡ Client.stopped)

Aside-InLockstep :
    (r : Client.Result) (n : Network)
    → Aside n.client r
    → InLockstep n
    → InLockstep (after_client r n)
Aside-InLockstep r n a k = elim a.stays [
  | inl same ↦ moved-InLockstep n.client.main r n a.unasked same k
  | inr gone ↦
      moved-InLockstep Client.stopped r n a.unasked gone
        (stopped-InStep n.server.main n.client.client.sent_command n.requests n.replies)
]

idle : (s : Client.System) → Aside s (s, [])
idle s = record { unasked = record { silent = tt; same = refl }; stays = inl refl }

halt : (s : Client.System) → Aside s (Client.stop s)
halt s = record { unasked = record { silent = tt; same = refl }; stays = inr refl }

start_thread-Aside :
    (i : ℕ) (d : DataPort) (ok : Bool) (s : Client.System) → Aside s (Client.start_thread i d ok s)
unfolding Client.start_thread
start_thread-Aside i (decoded p) true s = record {
  unasked = record { silent = tt; same = refl };
  stays = inl refl;
}
start_thread-Aside i (decoded p) false s = halt s
start_thread-Aside i malformed ok s = record {
  unasked = record { silent = tt; same = refl };
  stays = inl refl;
}
start_thread-Aside i DataPort.faults ok s = halt s

sent_command-renamed :
    (c : Command) (s : hyu_2021_network_protoco.Ftp.Client.Client)
    → (Client.renamed c s).sent_command ≡ s.sent_command
sent_command-renamed retr s = refl
sent_command-renamed c s = refl

take_data-Aside : (i : ℕ) (d : Delivery) (s : Client.System) → Aside s (Client.take_data i d s)
unfolding Client.take_data
take_data-Aside i Delivery.faults s = halt s
take_data-Aside i d s = record {
  unasked = record {
    silent = (tt, tt);
    same = sent_command-renamed s.client.sent_command s.client;
  };
  stays = inl refl;
}

thread_step-Aside :
    (e : Client.Event) (p : Client.Phase) (s : Client.System) → Aside s (Client.thread_step e p s)
unfolding Client.thread_step Client.fetch_data
thread_step-Aside (Client.started i ok garbage) (Client.starting text) s =
    start_thread-Aside i _ ok s
thread_step-Aside (Client.spurious i) Client.waiting s = record {
  unasked = record { silent = tt; same = refl };
  stays = inl refl;
}
thread_step-Aside (Client.unreachable i) Client.woken s = halt s
thread_step-Aside (Client.fetched i r fopen_ok) Client.woken s = take_data-Aside i _ s
thread_step-Aside e p s = idle s

at_thread-Aside : (i : ℕ) (e : Client.Event) (s : Client.System) → Aside s (Client.at_thread i e s)
unfolding Client.at_thread
at_thread-Aside i e s = elim (Option-cases (get_elem? s.threads i)) [
  | inl h ↦ rw (h, Client.at_thread) (idle s)
  | inr (p, h) ↦ rw (h, Client.at_thread) (thread_step-Aside e p s)
]

-- The data thread that an event is of.
abbrev thread_of : Client.Event → Option ℕ
thread_of (Client.started i ok garbage) = some i
thread_of (Client.spurious i) = some i
thread_of (Client.unreachable i) = some i
thread_of (Client.fetched i r fopen_ok) = some i
thread_of _ = none

-- Wherever the main thread stands.
threads-main_step :
    (e : Client.Event) (m : Client.Main) (i : ℕ) (s : Client.System)
    → thread_of e ≡ some i
    → (Client.main_step e m s ≡ (s, [])) ⊎ (Client.main_step e m s ≡ Client.at_thread i e s)
unfolding Client.main_step
threads-main_step e m i s h = ground arith

thread-Aside :
    (e : Client.Event) (i : ℕ) (s : Client.System)
    → thread_of e ≡ some i
    → Aside s (Client.step e s)
unfolding Client.step
thread-Aside e i s h = elim (threads-main_step e s.main i s h) [
  | inl k ↦ rw k (idle s)
  | inr k ↦ rw k (at_thread-Aside i e s)
]

does-InLockstep :
    (e : Client.Event) (i : ℕ) (n : Network)
    → thread_of e ≡ some i
    → InLockstep n
    → InLockstep (client_does e n).0
unfolding client_does
does-InLockstep e i n h k =
    Aside-InLockstep (Client.step e n.client) n (thread-Aside e i n.client h) k

pub starts-InLockstep :
    (i : ℕ) (ok : Bool) (garbage : ℕ) (n : Network)
    → InLockstep n
    → InLockstep (client_does (Client.started i ok garbage) n).0
starts-InLockstep i ok garbage n k = does-InLockstep (Client.started i ok garbage) i n refl k

pub wakes-InLockstep :
    (i : ℕ) (n : Network) → InLockstep n → InLockstep (client_does (Client.spurious i) n).0
wakes-InLockstep i n k = does-InLockstep (Client.spurious i) i n refl k

pub fails-InLockstep :
    (i : ℕ) (n : Network) → InLockstep n → InLockstep (client_does (Client.unreachable i) n).0
fails-InLockstep i n k = does-InLockstep (Client.unreachable i) i n refl k

read_parcel-InLockstep :
    (i : ℕ) (fopen_ok : Bool) (p : Client.Phase) (n : Network)
    → InLockstep n
    → InLockstep (read_parcel i fopen_ok p n).0
unfolding read_parcel
read_parcel-InLockstep i fopen_ok Client.woken n k =
    elim (Option-cases (take_parcel n.client.data_port n.parcels)) [
      | inl h ↦ rw (h, read_parcel) k
      | inr ((m, rest), h) ↦
          rw (h, read_parcel)
            (does-InLockstep (Client.fetched i (Client.message m) fopen_ok) i
              (record n { parcels = rest }) refl k)
    ]
read_parcel-InLockstep i fopen_ok p n k = k

pub fetches-InLockstep :
    (i : ℕ) (fopen_ok : Bool) (n : Network)
    → InLockstep n
    → InLockstep (fetch_parcel i fopen_ok n).0
unfolding fetch_parcel
fetches-InLockstep i fopen_ok n k = elim (Option-cases (get_elem? n.client.threads i)) [
  | inl h ↦ rw (h, fetch_parcel) k
  | inr (p, h) ↦ rw (h, fetch_parcel) (read_parcel-InLockstep i fopen_ok p n k)
]
