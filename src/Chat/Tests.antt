-- ===== src/Chat/Tests.antt =====
-- The theorems about the chat server on concrete inputs.
use hyu_2021_network_protoco.Common.{
  ℕ, ◌-◌, ◌≡◌, refl, inr, List, [], ◌∷◌, ◌++◌, some, arith, true, false, length, replicate,
  get_elem?,
}
use hyu_2021_network_protoco.Clib.Text.{codes}
use hyu_2021_network_protoco.Chat.Queue.{Message, Queue, nowhere, is_full, insert, enqueue}
use hyu_2021_network_protoco.Chat.Queue.Fifo.{IsValid, contents, enqueue_overwrites}
use hyu_2021_network_protoco.Chat.Queue.Runs
use hyu_2021_network_protoco.Chat.Queue.Backlog
use hyu_2021_network_protoco.Chat.Client as Client
use hyu_2021_network_protoco.Chat.Client.{Client, prompting}
use hyu_2021_network_protoco.Chat.Client.Screen.{IsReading, arrivals, messages_to, count}
use hyu_2021_network_protoco.Chat.Client.Words.{turn_of, word_pushes_out}
use hyu_2021_network_protoco.Chat.Room.{
  max_num_client, reading, entering, looking, sending, Room, opening, Event, Sent, joined, incoming,
  sent, accept, live_step, step, run,
}
use hyu_2021_network_protoco.Chat.Room.Invariant.{IsSafe, opening-IsSafe, step-IsSafe}
use hyu_2021_network_protoco.Chat.Room.Broadcast.{message_carries_last}

abbrev hello : Message
hello = record { user_id = 3; text = codes "hello" }

abbrev bye : Message
bye = record { user_id = 4; text = codes "bye" }

abbrev memory : List Message
memory = hello ∷ bye ∷ replicate 98 hello

-- A queue of 100 slots with its two indices.
abbrev queue_at : ℕ → ℕ → Queue
queue_at front rear = record { messages = memory; front = front; rear = rear }

two_held : IsValid (queue_at 0 1)
two_held = record { size = refl; indices = inr (omega arith) }

full_at_seam : IsValid (queue_at 0 99)
full_at_seam = record { size = refl; indices = inr (omega arith) }

enqueue_overwrites_example :
    (length (contents (queue_at 0 99)) ≡ 100)
    × ((enqueue bye (queue_at 0 99)).0 ≡ 0)
    × (contents (enqueue bye (queue_at 0 99)).1 ≡ bye ∷ [])
enqueue_overwrites_example = enqueue_overwrites bye (queue_at 0 99) full_at_seam (refl, refl)

abbrev calls : List Runs.Op
calls = Runs.put hello ∷ Runs.put bye ∷ Runs.get ∷ []

away_from_seam : Runs.AwayFromSeam (queue_at 0 1) calls
unfolding enqueue is_full insert
away_from_seam = ground arith

run_conserves_example :
    contents (queue_at 0 1) ++ (Runs.run (queue_at 0 1) calls).accepted
    ≡ (Runs.run (queue_at 0 1) calls).delivered ++ contents (Runs.run (queue_at 0 1) calls).final
run_conserves_example = Runs.run_conserves calls (queue_at 0 1) two_held away_from_seam

calls_refine_backlog_example :
    Backlog.backlog calls (contents (queue_at 0 1))
    ≡ ((Backlog.calls calls (queue_at 0 1)).0, contents (Backlog.calls calls (queue_at 0 1)).1)
calls_refine_backlog_example =
    Backlog.calls_refine_backlog calls (queue_at 0 1) two_held away_from_seam

step-IsSafe_example : IsSafe (step (joined 4 true) (opening memory)).0
step-IsSafe_example = step-IsSafe (joined 4 true) (opening memory) (opening-IsSafe memory refl)

abbrev reader : Client
reader = record { main = prompting; reading = true; message_from_server = hello; running = true }

reader-IsReading : IsReading reader
reader-IsReading = record { thread = refl; live = refl }

-- A room whose sender is in its loop over the clients, with the message of slot 1.
abbrev sending_room : Room
sending_room = record {
  queue = queue_at 2 2;
  sockets = 4 ∷ replicate 9 0;
  thread_count = 1;
  user_id = 0;
  receivers = reading ∷ [];
  sender = sending 1 0;
  running = true;
}

-- A room with one client, whose other message stands in slot 1.
abbrev waiting_room : Room
waiting_room = record {
  queue = queue_at 1 1;
  sockets = 4 ∷ replicate 9 0;
  thread_count = 1;
  user_id = 0;
  receivers = reading ∷ [];
  sender = looking;
  running = true;
}

waiting-IsSafe : IsSafe waiting_room
waiting-IsSafe = record {
  valid = record { size = refl; indices = inr (omega arith) };
  count = omega arith;
  threads = omega arith;
  table = refl;
  pointer = tt;
}

abbrev after_word : Room × List Sent
after_word = run waiting_room (turn_of 0 (codes "hi") ++ replicate max_num_client (sent true))

word_pushes_out_example :
    (Client.step (Client.types (codes "hi") true) reader
      ≡ (reader, Client.sent (record { user_id = nowhere; text = codes "hi" }) ∷ []))
    × ((Client.run reader (arrivals (messages_to 4 after_word.1))).1
        ≡ replicate (count 4 (4 ∷ replicate 9 0)) (Client.printed bye))
    × (contents after_word.0.queue ≡ record { user_id = 0; text = codes "hi" } ∷ [])
word_pushes_out_example =
    word_pushes_out 0 4 (codes "hi") bye waiting_room reader reader waiting-IsSafe refl refl refl
      refl (omega arith) refl refl reader-IsReading

abbrev two_join : List Event
two_join = joined 4 true ∷ joined 5 true ∷ []

two_joined_room : is_full (run (opening memory) two_join).0.queue ≡ false
unfolding run step live_step accept is_full
two_joined_room = refl

two_joined_live : (run (opening memory) two_join).0.running ≡ true
unfolding run step live_step accept
two_joined_live = refl

first_reads : get_elem? (run (opening memory) two_join).0.receivers 0 ≡ some reading
unfolding run step live_step accept
first_reads = refl

message_carries_last_example :
    get_elem? (step (incoming 0 (codes "hi")) (run (opening memory) two_join).0).0.receivers 0
    ≡ some (
        entering (record {
          user_id = (run (opening memory) two_join).0.thread_count - 1;
          text = codes "hi";
        }))
message_carries_last_example =
    message_carries_last memory two_join 0 (codes "hi") refl two_joined_room two_joined_live
      first_reads
