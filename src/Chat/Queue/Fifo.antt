-- ===== src/Chat/Queue/Fifo.antt =====
-- What the message queue does as a queue: the messages that it holds, in order of arrival.
use hyu_2021_network_protoco.Common.{
  ℕ, suc, ◌+◌, ◌-◌, ◌%◌, ◌≤◌, ◌<◌, ◌≡◌, ◌⊎◌, inl, inr, ◌∙◌, refl, sym, ap, false, List, [], ◌∷◌,
  ◌++◌, none, some, if◌then◌else◌, ◌==◌, arith, length, length-set, get_elem?, get_elem?-get_or,
  set,
}
use hyu_2021_network_protoco.Clib.Decimal.{int32}
use hyu_2021_network_protoco.Chat.Queue.{
  Message, Queue, max_message_queue_size, nowhere, fresh, is_full, is_empty, insert, enqueue,
  remove, dequeue,
}
use hyu_2021_network_protoco.Chat.Queue.Slots.{slots, length-slots, slots-set_behind, slots_cong}

-- Both indices are -1, or both are slots.
pub record IsValid (q : Queue) : Type 0 where
  pub size : length q.messages ≡ max_message_queue_size
  pub indices :
      ((q.front ≡ nowhere) × (q.rear ≡ nowhere))
      ⊎ ((q.front < max_message_queue_size) × (q.rear < max_message_queue_size))

abbrev pub no_message : Message
no_message = record { user_id = 0; text = [] }

-- How many messages the queue holds: the slots from `front` to `rear`, both included.
abbrev pub held : Queue → ℕ
held q = if q.rear == nowhere then 0 else (q.rear + 100 - q.front) % 100 + 1

-- The messages that the queue holds, in order of arrival.
abbrev pub contents : Queue → List Message
contents q = slots no_message q.messages q.front (held q)

pub fresh-IsValid :
    (memory : List Message) → length memory ≡ max_message_queue_size → IsValid (fresh memory)
fresh-IsValid memory h = record { size = h; indices = inl (refl, refl) }

-- The critical section alone keeps the queue valid, whatever the test outside the lock said.
pub insert-IsValid : (m : Message) (q : Queue) → IsValid q → IsValid (insert m q)
unfolding insert
insert-IsValid m q v = ground (arith, length-set q.messages (int32 (q.rear + 1) % 100) m)

-- `enqueue` and `dequeue` keep the queue valid, also where it is full or empty.
pub enqueue-IsValid : (m : Message) (q : Queue) → IsValid q → IsValid (enqueue m q).1
unfolding enqueue
enqueue-IsValid m q v = ground (arith, insert-IsValid m q v)

pub dequeue-IsValid : (q : Queue) → IsValid q → IsValid (dequeue q).1
unfolding dequeue remove is_empty
dequeue-IsValid q v = ground arith

-- The place at which `isFull` does not see a full array: `front` at the first slot, `rear` at the last.
abbrev pub AtSeam : Queue → Type 0
AtSeam q = (q.front ≡ 0) × (q.rear ≡ 99)

pub is_full-false : (q : Queue) → IsValid q → held q < 100 → is_full q ≡ false
unfolding is_full
is_full-false q v room = ground arith

held-insert :
    (m : Message) (q : Queue) → IsValid q → held q < 100 → held (insert m q) ≡ suc (held q)
unfolding insert
held-insert m q v room = ground arith

-- The slot that `insert` writes comes behind those that were held.
insert_slots :
    (m : Message) (q : Queue)
    → IsValid q
    → held q < 100
    → ((insert m q).front < 100)
      × ((insert m q).rear ≡ ((insert m q).front + held q) % 100)
      × ((held q ≡ 0) ⊎ ((insert m q).front ≡ q.front))
unfolding insert
insert_slots m q v room = ground arith

messages-insert :
    (m : Message) (q : Queue) → (insert m q).messages ≡ set q.messages (insert m q).rear m
unfolding insert
messages-insert m q = refl

contents_written :
    (m : Message) (q : Queue) (n : ℕ)
    → IsValid q
    → n < 100
    → (insert m q).front < 100
    → (insert m q).rear ≡ ((insert m q).front + n) % 100
    → held (insert m q) ≡ suc n
    → contents (insert m q) ≡ slots no_message q.messages (insert m q).front n ++ m ∷ []
contents_written m q n v room first behind count =
    let front = (insert m q).front in
    slots_cong no_message (insert m q).messages (set q.messages (insert m q).rear m) front front
      (held (insert m q)) (suc n) (messages-insert m q) refl count
    ∙ slots-set_behind no_message q.messages m n front (insert m q).rear v.size first room behind

pub contents-insert :
    (m : Message) (q : Queue)
    → IsValid q
    → held q < 100
    → contents (insert m q) ≡ contents q ++ m ∷ []
contents-insert m q v room =
    let (first, behind, keeps) = insert_slots m q v room in
    contents_written m q (held q) v room first behind (held-insert m q v room)
    ∙ ap (λ l. l ++ m ∷ []) (elim keeps [ inl e ↦ rw e | inr e ↦ rw e ])

seam_slots :
    (m : Message) (q : Queue)
    → AtSeam q
    → ((insert m q).front ≡ 0)
      × ((insert m q).rear ≡ 0)
      × (held (insert m q) ≡ 1)
      × (held q ≡ 100)
      × (is_full q ≡ false)
unfolding insert is_full
seam_slots m q seam = ground arith

-- In a valid queue, until 100 messages are held, `enqueue` accepts a message and puts it behind the
-- others.
pub enqueue_appends :
    (m : Message) (q : Queue)
    → IsValid q
    → held q < 100
    → ((enqueue m q).0 ≡ 0) × (contents (enqueue m q).1 ≡ contents q ++ m ∷ [])
unfolding enqueue
enqueue_appends m q v room = ground (arith, is_full-false q v room, contents-insert m q v room)

-- A valid queue that holds 100 messages, not with the oldest in the first slot and the newest in
-- the last, refuses one more, and does not change.
pub enqueue_refuses :
    (m : Message) (q : Queue) → IsValid q → held q ≡ 100 → ¬ AtSeam q → enqueue m q ≡ (nowhere, q)
unfolding enqueue is_full
enqueue_refuses m q v full away = ground arith

-- In a valid queue with the oldest of 100 messages in the first slot and the newest in the last,
-- `enqueue` reports success for one message more, and from then on the queue holds that message
-- alone: the 100 messages before it are lost.
pub enqueue_overwrites :
    (m : Message) (q : Queue)
    → IsValid q
    → AtSeam q
    → (length (contents q) ≡ 100) × ((enqueue m q).0 ≡ 0) × (contents (enqueue m q).1 ≡ m ∷ [])
unfolding enqueue
enqueue_overwrites m q v seam =
    let (front, rear, one, all, unseen) = seam_slots m q seam in
    let alone : contents (insert m q) ≡ m ∷ [] =
      contents_written m q 0 v (omega arith) (omega arith) (omega arith) one in
    (length-slots no_message q.messages q.front (held q) ∙ all, ground arith, ground arith)

-- What `dequeue` does where more than one message is held.
pub remove_slots :
    (q : Queue) (n : ℕ)
    → IsValid q
    → held q ≡ suc (suc n)
    → (q.front < 100)
      × (dequeue q ≡ (some q.front, (remove q).1))
      × ((remove q).1.front ≡ (q.front + 1) % 100)
      × ((remove q).1.messages ≡ q.messages)
      × (held (remove q).1 ≡ suc n)
unfolding dequeue remove is_empty
remove_slots q n v h = ground arith

-- In a valid queue `dequeue` gives the slot of the oldest message, and takes that off, as long as
-- another message is held behind it.
pub dequeue_takes :
    (q : Queue) (x y : Message) (rest : List Message)
    → IsValid q
    → contents q ≡ x ∷ y ∷ rest
    → ((dequeue q).0 ≡ some q.front)
      × (get_elem? q.messages q.front ≡ some x)
      × (contents (dequeue q).1 ≡ y ∷ rest)
dequeue_takes q x y rest v h =
    let n = length rest in
    let count : held q ≡ suc (suc n) =
      sym (length-slots no_message q.messages q.front (held q)) ∙ ap length h in
    let (first, takes, next, same, fewer) = remove_slots q n v count in
    let shape =
      sym (
        slots_cong no_message q.messages q.messages q.front q.front (held q) (suc (suc n)) refl refl
          count)
      ∙ h in
    let left =
      slots_cong no_message (remove q).1.messages q.messages (remove q).1.front
        ((q.front + 1) % 100) (held (remove q).1) (suc n) same next fewer in
    (ground arith, ground (arith, get_elem?-get_or q.messages q.front no_message), ground arith)

-- In a valid queue the last message that is held is not given out: `dequeue` returns NULL, and
-- nothing changes.
pub dequeue_holds_back : (q : Queue) → IsValid q → length (contents q) ≤ 1 → dequeue q ≡ (none, q)
unfolding dequeue is_empty
dequeue_holds_back q v h = ground (arith, length-slots no_message q.messages q.front (held q))

-- `dequeue` writes to no slot.
pub messages-dequeue : (q : Queue) → (dequeue q).1.messages ≡ q.messages
unfolding dequeue remove
messages-dequeue q = ground arith
