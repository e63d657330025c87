-- ===== src/Subscriber.antt =====
-- publisher and subscriber architecture/subscriber.cpp: the main thread, which sends topics, and the thread of
-- `receiver_routine`, which prints messages. A step is what one thread does up to the next call at which another
-- may run.
pub mod Ports
pub mod Screen
mod Tests
use hyu_2021_network_protoco.Common.{
  ℕ, ◌%◌, ◌^◌, Bool, true, false, List, [], ◌∷◌, ◌++◌, Option, none, some, if◌then◌else◌, ltb,
  length,
}
use hyu_2021_network_protoco.Clib.Text.{Text}
use hyu_2021_network_protoco.Broker.{Message, Port}
use hyu_2021_network_protoco.Broker.Process.{Opens, Opened, exits, returns, opens, open_socket}

abbrev pub max_topic_length : ℕ
max_topic_length = 1024

-- Where the main thread stands: before its first socket, before the socket for the port of its topics, or at
-- `scanf`, with that port.
pub data Main : Type 0 where
  starting : Main
  dialing prompting : ℕ → Main

-- Where the thread of `receiver_routine` stands: not created; before its socket, or at `accept`, with its port;
-- in its loop; at its end.
pub data Receiver : Type 0 where
  absent reading ended : Receiver
  created listening : ℕ → Receiver

pub record Subscriber : Type 0 where
  pub main : Main
  pub receiver : Receiver
  pub running : Bool

-- What it sends on the connection to a port, and what it prints.
pub data Output : Type 0 where
  topic : (port : ℕ) → Text → Output
  printed : Message → Output

abbrev pub Result : Type 0
Result = Subscriber × List Output

-- The outcomes of the calls that open a connection, in the order of the calls.
pub record Dials : Type 0 where
  pub socket_ok : Bool
  pub setsockopt_ok : Bool
  pub connect_ok : Bool

-- What happens next, with what the operating system answers. `recv` gives -1, or what its buffer holds then.
pub data Event : Type 0 where
  connects : Dials → Option Port → (thread_made : Bool) → Event
  dials : Dials → Event
  types : Text → Event
  listens : Opens → Event
  accepts : (ok : Bool) → Event
  receives : Option Message → Event

abbrev pub stop : Subscriber → Subscriber
stop s = record s { running = false }

-- Both `setsockopt` that fails, which returns from `main`, and the calls that `exit`, end the process.
unfoldable pub dial : Dials → Bool
dial d = if d.socket_ok then if d.setsockopt_ok then d.connect_ok else false else false

-- `receiver_init`; `pthread_create` returns nothing below 0.
unfoldable pub receiver_init : Bool → ℕ → Receiver
receiver_init true port = created port
receiver_init false port = absent

-- `main`, up to `main_thread_as_topic_sender`
unfoldable pub take_ports : Bool → Option Port → Bool → Subscriber → Subscriber
take_ports false p made s = stop s
take_ports true none made s = stop s
take_ports true (some p) made s = record s {
  main = dialing p.receiver;
  receiver = receiver_init made p.sender;
}

-- `main_thread_as_topic_sender`, up to its loop; the port is `htons(port)`.
unfoldable pub dial_topics : Bool → ℕ → Subscriber → Subscriber
dial_topics false port s = stop s
dial_topics true port s = record s { main = prompting (port % 2 ^ 16) }

-- One turn of its loop; a word that overruns `topic_to_subscribe` is undefined behaviour.
unfoldable pub send_topic : ℕ → Text → Subscriber → Result
send_topic port word s =
    if ltb (length word) max_topic_length then (s, topic port word ∷ []) else (stop s, [])

unfoldable pub main_step : Event → Main → Subscriber → Result
main_step (connects d p made) starting s = (take_ports (dial d) p made s, [])
main_step (dials d) (dialing port) s = (dial_topics (dial d) port s, [])
main_step (types word) (prompting port) s = send_topic port word s
main_step _ _ s = (s, [])

-- `receiver_routine`, up to `accept`
unfoldable pub listen_at : Opened → ℕ → Subscriber → Subscriber
listen_at exits port s = stop s
listen_at returns port s = record s { receiver = ended }
listen_at opens port s = record s { receiver = listening (port % 2 ^ 16) }

unfoldable pub accept : Bool → Subscriber → Subscriber
accept true s = record s { receiver = reading }
accept false s = stop s

-- One turn of its loop
unfoldable pub print_message : Option Message → Subscriber → Result
print_message none s = (stop s, [])
print_message (some m) s = (s, printed m ∷ [])

unfoldable pub receiver_step : Event → Receiver → Subscriber → Result
receiver_step (listens o) (created port) s = (listen_at (open_socket o) port s, [])
receiver_step (accepts ok) (listening port) s = (accept ok s, [])
receiver_step (receives m) reading s = print_message m s
receiver_step _ _ s = (s, [])

-- A step while the process runs; an event that cannot happen now changes nothing.
unfoldable pub live_step : Event → Subscriber → Result
live_step (connects d p made) s = main_step (connects d p made) s.main s
live_step (dials d) s = main_step (dials d) s.main s
live_step (types word) s = main_step (types word) s.main s
live_step (listens o) s = receiver_step (listens o) s.receiver s
live_step (accepts ok) s = receiver_step (accepts ok) s.receiver s
live_step (receives m) s = receiver_step (receives m) s.receiver s

unfoldable pub step : Event → Subscriber → Result
step e s = if s.running then live_step e s else (s, [])

unfoldable pub run : Subscriber → List Event → Result
run s [] = (s, [])
run s (e ∷ es) = let (t, out) = step e s in let (u, outs) = run t es in (u, out ++ outs)

abbrev pub start : Subscriber
start = record { main = starting; receiver = absent; running = true }
