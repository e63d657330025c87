-- ===== src/Ftp/Network/Lockstep/Takes.antt =====
-- The answers that the client takes, and the turns of the two sides.
use hyu_2021_network_protoco.Common.{
  ℕ, ◌≡◌, ◌≢◌, refl, sym, ◌⊎◌, inl, inr, Bool, true, false, List, [], ◌∷◌, none, arith, subst,
}
use hyu_2021_network_protoco.Ftp.Protocol.{
  Command, user, pass, nlst, pasv, retr, cwd, quit, type, port, unknown, Message,
}
use hyu_2021_network_protoco.Ftp.Server.System as Server
use hyu_2021_network_protoco.Ftp.Client.System as Client
use hyu_2021_network_protoco.Ftp.Network.Lockstep.{
  Transfers, IsFinal, IsOpening, InStep, InLockstep,
}
use hyu_2021_network_protoco.Ftp.Client.{
  extract_class, callback, Reaction, nothing, fetch, exit_success, complain, spawn,
}
use hyu_2021_network_protoco.Ftp.Network.Lockstep.Threads.{
  after_client, Unasked, moved-InLockstep, stopped-InStep,
}
use hyu_2021_network_protoco.Ftp.Network.{Network, client_does, read_reply}

-- What the answer to a command does: the main thread goes back to the prompt, or into `pthread_join`.
data Taken (s : Client.System) (r : Client.Result) : Type 0 where
  over : r.0.main ≡ Client.prompting → Taken s r
  gone : r.0.main ≡ Client.stopped → Taken s r

react-Unasked :
    (x : Reaction) (created : Bool) (pick : ℕ) (s : Client.System)
    → Unasked s (Client.react x created pick s)
unfolding Client.react Client.spawn_thread
react-Unasked nothing created pick s = record { silent = tt; same = refl }
react-Unasked complain created pick s = record { silent = tt; same = refl }
react-Unasked exit_success created pick s = record { silent = tt; same = refl }
react-Unasked (spawn text) true pick s = record { silent = tt; same = refl }
react-Unasked (spawn text) false pick s = record { silent = tt; same = refl }
react-Unasked fetch created pick s = record { silent = tt; same = refl }

react-Taken :
    (x : Reaction) (created : Bool) (pick : ℕ) (s : Client.System)
    → x ≢ fetch
    → Taken s (Client.react x created pick s)
unfolding Client.react Client.spawn_thread
react-Taken nothing created pick s h = over refl
react-Taken complain created pick s h = over refl
react-Taken exit_success created pick s h = gone refl
react-Taken (spawn text) true pick s h = over refl
react-Taken (spawn text) false pick s h = over refl
react-Taken fetch created pick s h = absurd (h refl)

callback_final : (c : Command) (m : Message) → IsFinal m → callback c m ≢ fetch
unfolding callback extract_class
callback_final user m f h = cc
callback_final nlst m f h = ground arith
callback_final retr m f h = ground arith
callback_final c m f h = cc

callback_opening : (c : Command) (m : Message) → IsOpening m → Transfers c → callback c m ≡ fetch
unfolding callback extract_class
callback_opening nlst m o t = rw o refl
callback_opening retr m o t = rw o refl
callback_opening user m o t = absurd t
callback_opening pass m o t = absurd t
callback_opening pasv m o t = absurd t
callback_opening cwd m o t = absurd t
callback_opening quit m o t = absurd t
callback_opening type m o t = absurd t
callback_opening port m o t = absurd t
callback_opening unknown m o t = absurd t

-- The client takes the answer `m`, which is the last of its command.
final-InLockstep :
    (m : Message) (created : Bool) (pick : ℕ) (n : Network)
    → IsFinal m
    → InStep n.server.main Client.prompting n.client.client.sent_command n.requests n.replies
    → InLockstep (after_client (Client.receive (Client.message m) created pick n.client) n)
unfolding Client.receive
final-InLockstep m created pick n f k =
    let c = n.client.client.sent_command in
    let x = callback c m in
    elim (react-Taken x created pick n.client (callback_final c m f)) [
      | over e ↦
          moved-InLockstep Client.prompting (Client.react x created pick n.client) n
            (react-Unasked x created pick n.client) e k
      | gone e ↦
          moved-InLockstep Client.stopped (Client.react x created pick n.client) n
            (react-Unasked x created pick n.client) e
            (stopped-InStep n.server.main c n.requests n.replies)
    ]

opening-InLockstep :
    (m : Message) (created : Bool) (pick : ℕ) (n : Network)
    → IsOpening m
    → Transfers n.client.client.sent_command
    → InStep n.server.main Client.joining n.client.client.sent_command n.requests n.replies
    → InLockstep (after_client (Client.receive (Client.message m) created pick n.client) n)
unfolding Client.receive Client.react
opening-InLockstep m created pick n o t k =
    let e : callback n.client.client.sent_command m ≡ fetch =
      callback_opening n.client.client.sent_command m o t in
    simp e (
      moved-InLockstep Client.joining (Client.react fetch created pick n.client) n
        (react-Unasked fetch created pick n.client) refl k)

put-InStep :
    (sm : Server.Main) (cm : Client.Main) (qs rs : List Message) (n : Network)
    → n.server.main ≡ sm
    → n.requests ≡ qs
    → n.replies ≡ rs
    → InStep sm cm n.client.client.sent_command qs rs
    → InStep n.server.main cm n.client.client.sent_command n.requests n.replies
put-InStep sm cm qs rs n a b d k =
    subst (λ x. InStep x cm n.client.client.sent_command n.requests n.replies) (sym a)
      (subst (λ q. InStep sm cm n.client.client.sent_command q n.replies) (sym b)
        (subst (λ r. InStep sm cm n.client.client.sent_command qs r) (sym d) k))

-- The client takes the first answer from its connection.
answer-InLockstep :
    (sm : Server.Main) (m : Message) (rs qs : List Message) (created : Bool) (pick : ℕ)
    (n : Network)
    → n.server.main ≡ sm
    → n.requests ≡ qs
    → n.replies ≡ rs
    → InStep sm Client.receiving n.client.client.sent_command qs (m ∷ rs)
    → InLockstep (after_client (Client.receive (Client.message m) created pick n.client) n)
unfolding Client.receive
answer-InLockstep Server.stopped m rs qs created pick n a b d k =
    let x = callback n.client.client.sent_command m in
    let r = Client.react x created pick n.client in
    moved-InLockstep r.0.main r n (react-Unasked x created pick n.client) refl
      (put-InStep Server.stopped r.0.main qs rs n a b d tt)
answer-InLockstep Server.accepting m rs [] created pick n a b d k = absurd k
answer-InLockstep Server.accepting m rs (q ∷ qs) created pick n a b d k = absurd k
answer-InLockstep Server.receiving m [] [] created pick n a b d k =
    final-InLockstep m created pick n k
      (put-InStep Server.receiving Client.prompting [] [] n a b d tt)
answer-InLockstep Server.receiving m (r ∷ []) [] created pick n a b d k =
    opening-InLockstep m created pick n k.0 k.1
      (put-InStep Server.receiving Client.joining [] (r ∷ []) n a b d tt)
answer-InLockstep Server.receiving m (r ∷ x ∷ rs) [] created pick n a b d k = absurd k
answer-InLockstep Server.receiving m rs (q ∷ []) created pick n a b d k = absurd k
answer-InLockstep Server.receiving m rs (q ∷ p ∷ qs) created pick n a b d k = absurd k
answer-InLockstep (Server.awaiting c) m [] [] created pick n a b d k =
    opening-InLockstep m created pick n k.2 k.1
      (put-InStep (Server.awaiting c) Client.joining [] [] n a b d (k.0, k.1, tt))
answer-InLockstep (Server.awaiting c) m (r ∷ rs) [] created pick n a b d k = absurd k.2
answer-InLockstep (Server.awaiting c) m rs (q ∷ qs) created pick n a b d k = absurd k.2

-- The client takes the closing answer of a transfer, whatever it is.
closing-InStep :
    (sm : Server.Main) (c : Command) (m : Message) (rs qs : List Message)
    → InStep sm Client.closing c qs (m ∷ rs)
    → InStep sm Client.prompting c qs rs
closing-InStep Server.stopped c m rs qs k = tt
closing-InStep Server.accepting c m rs qs k = absurd k
closing-InStep Server.receiving c m [] [] k = tt
closing-InStep Server.receiving c m (r ∷ rs) [] k = absurd k
closing-InStep Server.receiving c m rs (q ∷ qs) k = absurd k
closing-InStep (Server.awaiting d) c m rs [] k = absurd k.2
closing-InStep (Server.awaiting d) c m rs (q ∷ qs) k = absurd k.2

joined-InStep :
    (sm : Server.Main) (c : Command) (qs rs : List Message)
    → InStep sm Client.joining c qs rs
    → InStep sm Client.closing c qs rs
joined-InStep Server.stopped c qs rs k = k
joined-InStep Server.accepting c qs rs k = k
joined-InStep Server.receiving c qs rs k = k
joined-InStep (Server.awaiting d) c qs rs k = k

pub takes :
    (r : Client.Received) (created : Bool) (pick : ℕ) (s : Client.System)
    → s.main ≡ Client.receiving
    → Client.step (Client.answered r created pick) s ≡ Client.receive r created pick s
unfolding Client.step Client.main_step
takes r created pick s h = rw (h, Client.main_step) refl

closes :
    (r : Client.Received) (s : Client.System)
    → s.main ≡ Client.closing
    → Client.step (Client.closed r) s ≡ (record s { main = Client.prompting }, [])
unfolding Client.step Client.main_step
closes r s h = rw (h, Client.main_step) refl

-- What is known of the client and the replies is put into what the invariant says.
pub open_InStep :
    (cm : Client.Main) (rs : List Message) (n : Network)
    → n.client.main ≡ cm
    → n.replies ≡ rs
    → InLockstep n
    → InStep n.server.main cm n.client.client.sent_command n.requests rs
open_InStep cm rs n b d k =
    subst (λ x. InStep n.server.main x n.client.client.sent_command n.requests rs) b
      (subst (λ r. InStep n.server.main n.client.main n.client.client.sent_command n.requests r) d
        k)

pub client_reads-InLockstep :
    (created : Bool) (pick : ℕ) (cm : Client.Main) (rs : List Message) (n : Network)
    → n.client.main ≡ cm
    → n.replies ≡ rs
    → InLockstep n
    → InLockstep (read_reply created pick cm rs n).0
unfolding read_reply client_does
client_reads-InLockstep created pick Client.receiving (m ∷ rs) n b d k =
    simp (takes (Client.message m) created pick n.client b) (
      answer-InLockstep n.server.main m rs n.requests created pick (record n { replies = rs }) refl
        refl refl (open_InStep Client.receiving (m ∷ rs) n b d k))
client_reads-InLockstep created pick Client.closing (m ∷ rs) n b d k =
    simp (closes (Client.message m) n.client b) (
      closing-InStep n.server.main n.client.client.sent_command m rs n.requests
        (open_InStep Client.closing (m ∷ rs) n b d k))
client_reads-InLockstep created pick Client.receiving [] n b d k = k
client_reads-InLockstep created pick Client.closing [] n b d k = k
client_reads-InLockstep created pick Client.joining rs n b d k = k
client_reads-InLockstep created pick Client.prompting rs n b d k = k
client_reads-InLockstep created pick Client.stopped rs n b d k = k

-- `pthread_join` comes back, or does not yet, or is undefined behaviour.
join_thread-cases :
    (s : Client.System)
    → (Client.join_thread s ≡ (s, []))
      ⊎ (Client.join_thread s ≡ Client.stop s)
      ⊎ (Client.join_thread s ≡ (record s { data_thread = none; main = Client.closing }, []))
unfolding Client.join_thread
join_thread-cases s = ground arith

join-InLockstep :
    (n : Network)
    → n.client.main ≡ Client.joining
    → InLockstep n
    → InLockstep (after_client (Client.join_thread n.client) n)
join-InLockstep n b k = elim (join_thread-cases n.client) [
  | inl h ↦ rw h k
  | inr (inl h) ↦
      rw h (stopped-InStep n.server.main n.client.client.sent_command n.requests n.replies)
  | inr (inr h) ↦ rw h (
      joined-InStep n.server.main n.client.client.sent_command n.requests n.replies
        (open_InStep Client.joining n.replies n b refl k))
]

join_step-InLockstep :
    (cm : Client.Main) (n : Network)
    → n.client.main ≡ cm
    → InLockstep n
    → InLockstep (after_client (Client.main_step Client.joined cm n.client) n)
unfolding Client.main_step
join_step-InLockstep Client.joining n b k = join-InLockstep n b k
join_step-InLockstep Client.receiving n b k = k
join_step-InLockstep Client.closing n b k = k
join_step-InLockstep Client.prompting n b k = k
join_step-InLockstep Client.stopped n b k = k

pub client_joins-InLockstep :
    (n : Network) → InLockstep n → InLockstep (client_does Client.joined n).0
unfolding client_does Client.step
client_joins-InLockstep n k = join_step-InLockstep n.client.main n refl k
