-- ===== src/Chat/Room/Broadcast.antt =====
-- What the clients of the chat room get: to whom a message is sent, and whose name it carries.
use hyu_2021_network_protoco.Common.{
  ℕ, zero, suc, ◌+◌, ◌-◌, ◌<◌, ◌≡◌, ◌∙◌, refl, ap, Bool, true, false, List, [], ◌∷◌, ◌++◌, map,
  some, if◌then◌else◌, ltb, arith, Option-cases, ◌⊎◌, inl, inr, length, replicate, get_or,
  get_elem?, get_elem?-get_or, get_elem?-lt, get_elem?-set_self, drop, drop_all,
}
use hyu_2021_network_protoco.Clib.Text.{Text}
use hyu_2021_network_protoco.Chat.Queue.{Message, is_full, max_message_queue_size}
use hyu_2021_network_protoco.Chat.Room.{
  max_num_client, Receiver, reading, entering, Sender, looking, sending, Room, opening, Sent, Event,
  joined, incoming, hung_up, refused, entered, looked, removed, sent, accept, receive, enter,
  send_next, receiver_step, sender_step, at_receiver, fail_accept, live_step, step, run,
}
use hyu_2021_network_protoco.Chat.Room.Invariant.{IsSafe, opening-IsSafe, run-IsSafe}

-- A message to each of some sockets.
abbrev pub to_all : Message → List ℕ → List Sent
to_all m fds = map (λ fd. record { socket = fd; message = m }) fds

send_one :
    (slot id : ℕ) (m : Message) (r : Room)
    → id < max_num_client
    → length r.sockets ≡ max_num_client
    → get_elem? r.queue.messages slot ≡ some m
    → send_next slot id true r ≡ (
      record r { sender = if ltb (id + 1) max_num_client then sending slot (id + 1) else looking },
      record { socket = get_or r.sockets id 0; message = m } ∷ [],
    )
unfolding send_next
send_one slot id m r h table here = ground (arith, get_elem?-get_or r.sockets id 0)

drop-get_or :
    (xs : List ℕ) (i n : ℕ) → length xs ≡ n → i < n → drop i xs ≡ get_or xs i 0 ∷ drop (suc i) xs
drop-get_or [] i n h k = absurd (omega arith)
drop-get_or (x ∷ xs) zero n h k = refl
drop-get_or (x ∷ xs) (suc i) n h k = drop-get_or xs i (length xs) refl (omega arith)

-- Where the sender goes on after client `id`.
abbrev after_client : ℕ → ℕ → Sender
after_client slot id = if ltb (id + 1) max_num_client then sending slot (id + 1) else looking

step_sent :
    (slot id : ℕ) (m : Message) (r : Room)
    → r.running ≡ true
    → r.sender ≡ sending slot id
    → id < max_num_client
    → length r.sockets ≡ max_num_client
    → get_elem? r.queue.messages slot ≡ some m
    → step (sent true) r ≡ (
      record r { sender = after_client slot id },
      record { socket = get_or r.sockets id 0; message = m } ∷ [],
    )
unfolding step live_step sender_step
step_sent slot id m r live at h table here = ground (arith, live, send_one slot id m r h table here)

run-cons :
    (e : Event) (es : List Event) (r s : Room) (out : List Sent)
    → step e r ≡ (s, out)
    → run r (e ∷ es) ≡ ((run s es).0, out ++ (run s es).1)
unfolding run
run-cons e es r s out h = rw h refl

drop_next :
    (xs : List ℕ) (i n : ℕ) → length xs ≡ n → i < n → drop i xs ≡ get_or xs i 0 ∷ drop (i + 1) xs
drop_next xs i n h k =
    drop-get_or xs i n h k ∙ ap (λ j. get_or xs i 0 ∷ drop j xs) {x = suc i} (omega arith)

run-nil : (r : Room) → run r [] ≡ (r, [])
unfolding run
run-nil r = refl

send_loop :
    (k id slot : ℕ) (m : Message) (r : Room)
    → id + suc k ≡ max_num_client
    → r.running ≡ true
    → r.sender ≡ sending slot id
    → length r.sockets ≡ max_num_client
    → get_elem? r.queue.messages slot ≡ some m
    → run r (replicate (suc k) (sent true))
      ≡ (record r { sender = looking }, to_all m (drop id r.sockets))
send_loop zero id slot m r e live at table here =
    let over : after_client slot id ≡ looking = ground arith in
    run-cons (sent true) [] r _ _ (step_sent slot id m r live at (omega arith) table here)
    ∙ rw (run-nil (record r { sender = after_client slot id }), over)
        (rw (
          drop_next r.sockets id 10 table (omega arith),
          drop_all (id + 1) r.sockets (omega arith),
        ))
send_loop (suc k) id slot m r e live at table here =
    let more : after_client slot id ≡ sending slot (id + 1) = ground arith in
    let next : Room = record r { sender = sending slot (id + 1) } in
    run-cons (sent true) (replicate (suc k) (sent true)) r _ _
      (step_sent slot id m r live at (omega arith) table here)
    ∙ rw more (
        rw (send_loop k (id + 1) slot m next (omega arith) live refl table here)
          (rw (drop_next r.sockets id 10 table (omega arith))))

-- In a safe state of the running server, ten turns of the sender, with no other thread between them, from the message
-- in its slot on, over connections that all stand: the message is sent once to every entry of the table of sockets,
-- in order, and the sender looks for the next.
pub broadcast_reaches_all :
    (slot : ℕ) (m : Message) (r : Room)
    → r.running ≡ true
    → r.sender ≡ sending slot 0
    → IsSafe r
    → get_elem? r.queue.messages slot ≡ some m
    → run r (replicate max_num_client (sent true))
      ≡ (record r { sender = looking }, to_all m r.sockets)
broadcast_reaches_all slot m r live at safe here =
    send_loop 9 0 slot m r refl live at safe.table here

-- The variable that the receivers read holds the number of the client accepted last.
abbrev LastAccepted : Room → Type 0
LastAccepted r = (r.thread_count ≡ 0) ⊎ (r.user_id + 1 ≡ r.thread_count)

accept-LastAccepted :
    (fd : ℕ) (made : Bool) (r : Room) → LastAccepted r → LastAccepted (accept fd made r)
unfolding accept
accept-LastAccepted fd made r h = ground arith

-- No thread but `main` writes the count or the variable.
abbrev SameCount : Room → Room → Type 0
SameCount r s = (s.thread_count ≡ r.thread_count) × (s.user_id ≡ r.user_id)

receiver-SameCount : (e : Event) (t : Receiver) (r : Room) → SameCount r (receiver_step e t r)
unfolding receiver_step receive enter
receiver-SameCount e t r = ground arith

at_receiver-SameCount : (i : ℕ) (e : Event) (r : Room) → SameCount r (at_receiver i e r)
unfolding at_receiver
at_receiver-SameCount i e r = elim (Option-cases (get_elem? r.receivers i)) [
  | inl h ↦ rw (h, at_receiver) (refl, refl)
  | inr (t, h) ↦ rw (h, at_receiver) (receiver-SameCount e t r)
]

sender-SameCount : (e : Event) (t : Sender) (r : Room) → SameCount r (sender_step e t r).0
unfolding sender_step send_next
sender-SameCount e t r = ground arith

live_step-LastAccepted : (e : Event) (r : Room) → LastAccepted r → LastAccepted (live_step e r).0
unfolding live_step fail_accept
live_step-LastAccepted (joined fd made) r h = accept-LastAccepted fd made r h
live_step-LastAccepted refused r h = ground (arith, h)
live_step-LastAccepted (incoming i text) r h =
    omega (arith, at_receiver-SameCount i (incoming i text) r)
live_step-LastAccepted (hung_up i) r h = omega (arith, at_receiver-SameCount i (hung_up i) r)
live_step-LastAccepted (entered i) r h = omega (arith, at_receiver-SameCount i (entered i) r)
live_step-LastAccepted looked r h = omega (arith, sender-SameCount looked r.sender r)
live_step-LastAccepted removed r h = omega (arith, sender-SameCount removed r.sender r)
live_step-LastAccepted (sent up) r h = omega (arith, sender-SameCount (sent up) r.sender r)

step-LastAccepted : (e : Event) (r : Room) → LastAccepted r → LastAccepted (step e r).0
unfolding step
step-LastAccepted e r h = ground (arith, live_step-LastAccepted e r h)

run-LastAccepted : (es : List Event) (r : Room) → LastAccepted r → LastAccepted (run r es).0
unfolding run
run-LastAccepted [] r h = h
run-LastAccepted (e ∷ es) r h = run-LastAccepted es (step e r).0 (step-LastAccepted e r h)

label_step :
    (i : ℕ) (text : Text) (r : Room)
    → IsSafe r
    → LastAccepted r
    → is_full r.queue ≡ false
    → r.running ≡ true
    → get_elem? r.receivers i ≡ some reading
    → get_elem? (step (incoming i text) r).0.receivers i
      ≡ some (entering (record { user_id = r.thread_count - 1; text = text }))
unfolding step live_step at_receiver receiver_step receive
label_step i text r safe last room live here =
    let below : i < length r.receivers = get_elem?-lt r.receivers i reading here in
    let label : r.user_id ≡ r.thread_count - 1 = omega (arith, safe.threads) in
    ground (
      arith,
      live,
      get_elem?-set_self r.receivers i (entering (record { user_id = r.user_id; text = text })),
    )

-- From the start, whatever happens, while the server runs: a message that any receiver thread takes on while the
-- queue is not full carries the number of the client that was accepted last, whichever client the thread was
-- made for.
pub message_carries_last :
    (memory : List Message) (es : List Event) (i : ℕ) (text : Text)
    → length memory ≡ max_message_queue_size
    → is_full (run (opening memory) es).0.queue ≡ false
    → (run (opening memory) es).0.running ≡ true
    → get_elem? (run (opening memory) es).0.receivers i ≡ some reading
    → get_elem? (step (incoming i text) (run (opening memory) es).0).0.receivers i
      ≡ some (
          entering (record { user_id = (run (opening memory) es).0.thread_count - 1; text = text }))
message_carries_last memory es i text size room live here =
    label_step i text (run (opening memory) es).0
      (run-IsSafe es (opening memory) (opening-IsSafe memory size))
      (run-LastAccepted es (opening memory) (inl refl)) room live here
