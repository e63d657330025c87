-- ===== src/Chat/Room/Invariant.antt =====
-- What holds in every state that the threads of the chat server can reach, in whatever order they run.
use hyu_2021_network_protoco.Common.{
  ℕ, ◌≤◌, ◌<◌, ◌≡◌, inl, inr, refl, Bool, false, List, [], ◌∷◌, arith, Option-cases, length,
  length-append, length-set, get_elem?, set,
}
use hyu_2021_network_protoco.Clib.Text.{Text}
use hyu_2021_network_protoco.Chat.Queue.{
  Message, Queue, max_message_queue_size, is_empty, insert, remove,
}
use hyu_2021_network_protoco.Chat.Queue.Fifo.{IsValid, fresh-IsValid, insert-IsValid}
use hyu_2021_network_protoco.Chat.Room.{
  max_num_client, Receiver, reading, ended, entering, Sender, looking, removing, sending, Room,
  opening, Event, joined, refused, incoming, hung_up, entered, looked, removed, sent, accept,
  receive, enter, send_next, receiver_step, sender_step, at_receiver, fail_accept, live_step, step,
  run,
}

-- The sender's pointer is a slot of the array, its client is one of the ten, and it goes to the lock only
-- if there was a message once.
abbrev pub SenderIn : Queue → Sender → Type 0
SenderIn q looking = Unit
SenderIn q removing = q.front < max_message_queue_size
SenderIn q (sending slot id) = (slot < max_message_queue_size) × (id < max_num_client)

pub record IsSafe (r : Room) : Type 0 where
  pub valid : IsValid r.queue
  pub count : r.thread_count ≤ max_num_client
  pub threads : length r.receivers ≤ r.thread_count
  pub table : length r.sockets ≡ max_num_client
  pub pointer : SenderIn r.queue r.sender

pub opening-IsSafe :
    (memory : List Message) → length memory ≡ max_message_queue_size → IsSafe (opening memory)
opening-IsSafe memory h = record {
  valid = fresh-IsValid memory h;
  count = omega arith;
  threads = omega arith;
  table = refl;
  pointer = tt;
}

accept-IsSafe : (fd : ℕ) (made : Bool) (r : Room) → IsSafe r → IsSafe (accept fd made r)
unfolding accept
accept-IsSafe fd made r safe =
    ground (arith, length-append r.receivers (reading ∷ []), length-set r.sockets r.thread_count fd)

receive-IsSafe : (i : ℕ) (text : Text) (r : Room) → IsSafe r → IsSafe (receive i text r)
unfolding receive
receive-IsSafe i text r safe =
    ground
      (arith, length-set r.receivers i (entering (record { user_id = r.user_id; text = text })))

front-insert : (m : Message) (q : Queue) → q.front < 100 → (insert m q).front < 100
unfolding insert
front-insert m q h = ground arith

SenderIn-insert : (m : Message) (q : Queue) (s : Sender) → SenderIn q s → SenderIn (insert m q) s
SenderIn-insert m q looking h = tt
SenderIn-insert m q removing h = front-insert m q h
SenderIn-insert m q (sending slot id) h = h

enter-IsSafe : (i : ℕ) (m : Message) (r : Room) → IsSafe r → IsSafe (enter i m r)
unfolding enter
enter-IsSafe i m r safe = record {
  valid = insert-IsValid m r.queue safe.valid;
  count = safe.count;
  threads = omega (arith, length-set r.receivers i reading, safe.threads);
  table = safe.table;
  pointer = SenderIn-insert m r.queue r.sender safe.pointer;
}

hang_up-IsSafe :
    (i : ℕ) (r : Room) → IsSafe r → IsSafe (record r { receivers = set r.receivers i ended })
hang_up-IsSafe i r safe = ground (arith, length-set r.receivers i ended)

receiver_step-IsSafe :
    (e : Event) (t : Receiver) (r : Room) → IsSafe r → IsSafe (receiver_step e t r)
unfolding receiver_step
receiver_step-IsSafe (incoming i text) reading r safe = receive-IsSafe i text r safe
receiver_step-IsSafe (hung_up i) reading r safe = hang_up-IsSafe i r safe
receiver_step-IsSafe (entered i) (entering m) r safe = enter-IsSafe i m r safe
receiver_step-IsSafe _ _ r safe = safe

at_receiver-IsSafe : (i : ℕ) (e : Event) (r : Room) → IsSafe r → IsSafe (at_receiver i e r)
unfolding at_receiver
at_receiver-IsSafe i e r safe = elim (Option-cases (get_elem? r.receivers i)) [
  | inl h ↦ rw (h, at_receiver) safe
  | inr (t, h) ↦ rw (h, at_receiver) (receiver_step-IsSafe e t r safe)
]

front_of_message : (q : Queue) → IsValid q → is_empty q ≡ false → q.front < 100
unfolding is_empty
front_of_message q v h = ground arith

remove_lem : (q : Queue) → IsValid q → q.front < 100 → ((remove q).0 < 100) × IsValid (remove q).1
unfolding remove
remove_lem q v h = ground arith

fail_accept-IsSafe : (r : Room) → IsSafe r → IsSafe (fail_accept r)
unfolding fail_accept
fail_accept-IsSafe r safe = ground (arith, safe)

send_next-IsSafe :
    (slot id : ℕ) (up : Bool) (r : Room) → slot < 100 → IsSafe r → IsSafe (send_next slot id up r).0
unfolding send_next
send_next-IsSafe slot id up r h safe = ground arith

sender_step-IsSafe :
    (e : Event) (s : Sender) (r : Room)
    → SenderIn r.queue s
    → IsSafe r
    → IsSafe (sender_step e s r).0
unfolding sender_step
sender_step-IsSafe looked looking r h safe = ground (arith, front_of_message r.queue safe.valid)
sender_step-IsSafe removed removing r h safe = ground (arith, remove_lem r.queue safe.valid h)
sender_step-IsSafe (sent up) (sending slot id) r h safe = send_next-IsSafe slot id up r h.0 safe
sender_step-IsSafe _ _ r h safe = safe

live_step-IsSafe : (e : Event) (r : Room) → IsSafe r → IsSafe (live_step e r).0
unfolding live_step
live_step-IsSafe (joined fd made) r safe = accept-IsSafe fd made r safe
live_step-IsSafe refused r safe = fail_accept-IsSafe r safe
live_step-IsSafe (incoming i text) r safe = at_receiver-IsSafe i (incoming i text) r safe
live_step-IsSafe (hung_up i) r safe = at_receiver-IsSafe i (hung_up i) r safe
live_step-IsSafe (entered i) r safe = at_receiver-IsSafe i (entered i) r safe
live_step-IsSafe looked r safe = sender_step-IsSafe looked r.sender r safe.pointer safe
live_step-IsSafe removed r safe = sender_step-IsSafe removed r.sender r safe.pointer safe
live_step-IsSafe (sent up) r safe = sender_step-IsSafe (sent up) r.sender r safe.pointer safe

-- Every step of every thread keeps the state safe: the indices of the queue, the number of clients, the
-- tables, and the sender's pointer and counter stay in range.
pub step-IsSafe : (e : Event) (r : Room) → IsSafe r → IsSafe (step e r).0
unfolding step
step-IsSafe e r safe = ground (arith, live_step-IsSafe e r safe)

-- So does every run.
pub run-IsSafe : (es : List Event) (r : Room) → IsSafe r → IsSafe (run r es).0
unfolding run
run-IsSafe [] r safe = safe
run-IsSafe (e ∷ es) r safe = run-IsSafe es (step e r).0 (step-IsSafe e r safe)
