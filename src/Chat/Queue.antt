-- ===== src/Chat/Queue.antt =====
-- Socket (Multi Threaded)/server.c: the message queue over a circular array. The queue is what the
-- globals `messages`, `front` and `rear` hold; a function that changes them returns the new queue.
pub mod Slots
pub mod Fifo
pub mod Runs
pub mod Backlog
use hyu_2021_network_protoco.Common.{
  ℕ, ◌+◌, ◌-◌, ◌%◌, ◌^◌, Bool, List, Option, none, some, if◌then◌else◌, ◌==◌, set,
}
use hyu_2021_network_protoco.Clib.Text.{Text}
use hyu_2021_network_protoco.Clib.Decimal.{int32}

pub record Message : Type 0 where
  pub user_id : ℕ  -- int
  pub text : Text

abbrev pub max_message_queue_size : ℕ
max_message_queue_size = 100

-- `(int) -1`
abbrev pub nowhere : ℕ
nowhere = 2 ^ 32 - 1

pub record Queue : Type 0 where
  pub messages : List Message
  pub front : ℕ  -- int
  pub rear : ℕ  -- int

-- The queue when `main` has allocated `messages`.
abbrev pub fresh : List Message → Queue
fresh memory = record { messages = memory; front = nowhere; rear = nowhere }

unfoldable pub is_full : Queue → Bool
is_full q = q.front == int32 (q.rear + 1)

unfoldable pub is_empty : Queue → Bool
is_empty q = q.rear == q.front

-- The critical section of `enqueue`.
unfoldable pub insert : Message → Queue → Queue
insert mes q =
    let rear = int32 (q.rear + 1) % max_message_queue_size in
    record {
      messages = set q.messages rear mes;
      front = if q.front == nowhere then 0 else q.front;
      rear = rear;
    }

-- `enqueue`: -1 and no change, or 0 beside the new queue.
unfoldable pub enqueue : Message → Queue → ℕ × Queue
enqueue mes q = if is_full q then (nowhere, q) else (0, insert mes q)

-- The critical section of `dequeue`: the index of the slot that `mes` points to.
unfoldable pub remove : Queue → ℕ × Queue
remove q = (q.front, record q { front = int32 (q.front + 1) % max_message_queue_size })

-- `dequeue`: NULL, or a pointer into the array.
unfoldable pub dequeue : Queue → Option ℕ × Queue
dequeue q = if is_empty q then (none, q) else let (slot, q') = remove q in (some slot, q')
