-- ===== src/Chat/Room.antt =====
-- Socket (Multi Threaded)/server.c: `main`, `receiverWorkload` and `senderWorkload` as threads that
-- take turns. A step is what one thread does up to the next call at which another may run; the
-- critical sections of the queue are one step each, their tests outside the lock are another.
pub mod Invariant
pub mod Broadcast
use hyu_2021_network_protoco.Common.{
  ℕ, ◌+◌, Bool, true, false, List, [], ◌∷◌, ◌++◌, none, some, if◌then◌else◌, ltb, replicate,
  get_elem?, set,
}
use hyu_2021_network_protoco.Clib.Text.{Text}
use hyu_2021_network_protoco.Chat.Queue.{Message, Queue, fresh, is_full, is_empty, insert, remove}

abbrev pub max_num_client : ℕ
max_num_client = 10

-- Where a receiver thread stands: in `recv`, before the lock of `enqueue` with its message, or at its end.
pub data Receiver : Type 0 where
  reading ended : Receiver
  entering : Message → Receiver

-- Where the sender thread stands: at `dequeue`, before its lock, or in the loop of `send` with the slot
-- that `front` points to and the next client.
pub data Sender : Type 0 where
  looking removing : Sender
  sending : (slot id : ℕ) → Sender

-- `user_id` is the variable of `main` whose address every receiver thread is given: the threads read it
-- each time, so all see what the last accepted client left there.
pub record Room : Type 0 where
  pub queue : Queue
  pub sockets : List ℕ  -- socketOfClients
  pub thread_count : ℕ
  pub user_id : ℕ
  pub receivers : List Receiver
  pub sender : Sender
  pub running : Bool

abbrev pub opening : List Message → Room
opening memory = record {
  queue = fresh memory;
  sockets = replicate max_num_client 0;
  thread_count = 0;
  user_id = 0;
  receivers = [];
  sender = looking;
  running = true;
}

-- What the sender sends: a copy of the slot at the time of the call, to a socket.
pub record Sent : Type 0 where
  pub socket : ℕ
  pub message : Message

pub data Event : Type 0 where
  joined : (fd : ℕ) → (thread_made : Bool) → Event  -- `accept` returns
  refused : Event  -- `accept` fails
  incoming : (receiver : ℕ) → Text → Event  -- `recv` returns a message
  hung_up : (receiver : ℕ) → Event  -- `recv` returns 0 or -1
  entered : (receiver : ℕ) → Event  -- a receiver gets the lock
  looked : Event  -- the sender's test, outside the lock
  removed : Event  -- the sender gets the lock
  sent : (connected : Bool) → Event  -- one `send`; on a connection that is gone it raises SIGPIPE

-- `exit`, also that of `handlerOnConnectionBroken`
abbrev pub exit_process : Room → Room
exit_process r = record r { running = false }

-- A thread that `pthread_create` makes; it returns nothing below 0.
abbrev pub with_thread : Bool → List Receiver → List Receiver
with_thread true receivers = receivers ++ reading ∷ []
with_thread false receivers = receivers

-- The body of the loop of `main`.
unfoldable pub accept : ℕ → Bool → Room → Room
accept fd made r =
    if ltb r.thread_count max_num_client
    then record r {
      sockets = set r.sockets r.thread_count fd;
      user_id = r.thread_count;
      thread_count = r.thread_count + 1;
      receivers = with_thread made r.receivers;
    }
    else r

-- `receivedMessage.userId = *tid`, and the test of `enqueue`: a full queue drops the message.
unfoldable pub receive : ℕ → Text → Room → Room
receive i text r = if is_full r.queue then r else record r {
  receivers = set r.receivers i (entering (record { user_id = r.user_id; text = text }));
}

-- The critical section of `enqueue`.
unfoldable pub enter : ℕ → Message → Room → Room
enter i m r = record r { queue = insert m r.queue; receivers = set r.receivers i reading }

-- `accept` fails, where there is room for one more.
unfoldable pub fail_accept : Room → Room
fail_accept r = if ltb r.thread_count max_num_client then exit_process r else r

-- One round of the loop of `senderWorkload` over the clients.
unfoldable pub send_next : ℕ → ℕ → Bool → Room → Room × List Sent
send_next slot id false r = (exit_process r, [])
send_next slot id true r =
    let next = id + 1 in
    elim (get_elem? r.sockets id) [
      | none ↦ (record r { sender = looking }, [])
      | some fd ↦ elim (get_elem? r.queue.messages slot) [
        | none ↦ (record r { sender = looking }, [])
        | some m ↦ (
          record r { sender = if ltb next max_num_client then sending slot next else looking },
          record { socket = fd; message = m } ∷ [],
        )
      ]
    ]

unfoldable pub receiver_step : Event → Receiver → Room → Room
receiver_step (incoming i text) reading r = receive i text r
receiver_step (hung_up i) reading r = record r { receivers = set r.receivers i ended }
receiver_step (entered i) (entering m) r = enter i m r
receiver_step _ _ r = r

unfoldable pub sender_step : Event → Sender → Room → Room × List Sent
sender_step looked looking r = (if is_empty r.queue then r else record r { sender = removing }, [])
sender_step removed removing r =
    let (slot, q) = remove r.queue in (record r { queue = q; sender = sending slot 0 }, [])
sender_step (sent connected) (sending slot id) r = send_next slot id connected r
sender_step _ _ r = (r, [])

unfoldable pub at_receiver : ℕ → Event → Room → Room
at_receiver i e r = elim (get_elem? r.receivers i) [ none ↦ r | some t ↦ receiver_step e t r ]

-- A step while the process runs; an event that cannot happen now changes nothing.
unfoldable pub live_step : Event → Room → Room × List Sent
live_step (joined fd made) r = (accept fd made r, [])
live_step refused r = (fail_accept r, [])
live_step (incoming i text) r = (at_receiver i (incoming i text) r, [])
live_step (hung_up i) r = (at_receiver i (hung_up i) r, [])
live_step (entered i) r = (at_receiver i (entered i) r, [])
live_step looked r = sender_step looked r.sender r
live_step removed r = sender_step removed r.sender r
live_step (sent connected) r = sender_step (sent connected) r.sender r

unfoldable pub step : Event → Room → Room × List Sent
step e r = if r.running then live_step e r else (r, [])

unfoldable pub run : Room → List Event → Room × List Sent
run r [] = (r, [])
run r (e ∷ es) = let (s, out) = step e r in let (t, outs) = run s es in (t, out ++ outs)
