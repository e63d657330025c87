-- ===== src/Broker/Process.antt =====
-- publisher and subscriber architecture/broker.cpp: the threads of the process, from `main` on, with their
-- sockets, what the operating system answers, and the arguments that they are created with.
pub mod Arguments
pub mod Abstraction
pub mod Handlers
pub mod Loops
pub mod Senders
pub mod Receivers
pub mod Races
pub mod Refinement
use hyu_2021_network_protoco.Common.{
  ℕ, Bool, true, false, List, [], ◌∷◌, ◌++◌, map, Option, none, some, if◌then◌else◌, get_elem?, set,
}
use hyu_2021_network_protoco.Clib.Text.{Text}
use hyu_2021_network_protoco.Broker.{
  Message, Phase, away, waiting, woken, Broker, Port, publish, accept, ask, interests_of, set_user,
  send_topics,
}
use hyu_2021_network_protoco.Broker as Broker

pub record User : Type 0 where
  pub port : ℕ
  pub id : ℕ

-- Where `handle_publisher` or `handle_subscriber` stands: before its socket, at `accept`, or at its end.
pub data Handler : Type 0 where
  created accepting returned : Handler

-- Where a thread of `handle_sender` or `handle_receiver` stands: before it reads its argument; before `connect`
-- or `accept`; in its loop; at its end.
pub data Worker : Type 0 where
  starting ended : Worker
  opening serving : User → Worker

-- `broker` is what the threads share, with the place of each sender thread in its loop. `data_sender` and
-- `data_receiver` are the two variables of the loop of `handle_subscriber` whose addresses its threads are given.
pub record Process : Type 0 where
  pub broker : Broker
  pub data_sender : User
  pub data_receiver : User
  pub senders : List Worker  -- in order of creation
  pub receivers : List Worker
  pub publisher_handler : Handler
  pub subscriber_handler : Handler
  pub running : Bool

-- What is sent: its two ports to a subscriber that was accepted, and messages by a sender thread.
pub data Output : Type 0 where
  ports : Port → Output
  message : (port : ℕ) → Message → Output

abbrev pub Result : Type 0
Result = Process × List Output

-- The outcomes of the calls that open a socket, in the order of the calls.
pub record Opens : Type 0 where
  pub socket_ok : Bool
  pub setsockopt_ok : Bool
  pub bind_ok : Bool
  pub listen_ok : Bool

-- What a `send` of a message does: it takes the whole message; it returns -1; or it raises SIGPIPE, which ends the
-- process.
pub data Sending : Type 0 where
  whole failed broken : Sending

-- What happens next, with what the operating system answers.
pub data Event : Type 0 where
  publisher_opens : Opens → Event
  publisher_accepts : (ok : Bool) → Option Message → Event  -- `recv` gives a message, or 0 or -1
  subscriber_opens : Opens → Event
  subscriber_accepts : (ok : Bool) → (sender_made receiver_made : Bool) → Event
  sender_opens : (thread : ℕ) → (socket_ok setsockopt_ok : Bool) → Event
  sender_connects : (thread : ℕ) → (ok : Bool) → Event
  receiver_opens : (thread : ℕ) → Opens → Event
  receiver_accepts : (thread : ℕ) → (ok : Bool) → Event
  received : (thread : ℕ) → Option Text → Event  -- -1, or what `topic` holds then
  settled : (thread : ℕ) → Event  -- a sender thread comes to `pthread_cond_wait`
  spurious : (thread : ℕ) → Event
  resumed : (thread : ℕ) → List Sending → Event  -- a woken sender thread gets the lock, and sends
  main_joins : Event

abbrev pub exit_failure : Process → Process
exit_failure p = record p { running = false }

-- What the calls that open a socket come to: `exit`, `return NULL`, or the socket.
pub data Opened : Type 0 where
  exits returns opens : Opened

unfoldable pub open_socket : Opens → Opened
open_socket o =
    if o.socket_ok
    then if o.setsockopt_ok
      then if o.bind_ok then if o.listen_ok then opens else exits else exits
      else returns
    else exits

-- `handle_publisher` up to its loop
unfoldable pub open_publisher : Opened → Process → Process
open_publisher exits p = exit_failure p
open_publisher returns p = record p { publisher_handler = returned }
open_publisher opens p = record p { publisher_handler = accepting }

-- One turn of its loop
unfoldable pub serve_publisher : Bool → Option Message → Process → Process
serve_publisher false m p = exit_failure p
serve_publisher true none p = p
serve_publisher true (some m) p = record p { broker = publish m p.broker }

-- `handle_subscriber` up to its loop
unfoldable pub open_subscriber : Opened → Process → Process
open_subscriber exits p = exit_failure p
open_subscriber returns p = record p { subscriber_handler = returned }
open_subscriber opens p = record p { subscriber_handler = accepting }

-- A thread that `pthread_create` makes; it returns nothing below 0.
abbrev pub created_with : {A : Type 0} → Bool → A → List A → List A
created_with true a l = l ++ a ∷ []
created_with false a l = l

-- One turn of its loop
unfoldable pub serve_subscriber : Bool → Bool → Bool → Process → Result
serve_subscriber false s r p = (exit_failure p, [])
serve_subscriber true s r p =
    let id = p.broker.subscriber_idx in
    let (port, b) = accept p.broker in
    (
      record p {
        broker = record b { senders = created_with s away p.broker.senders };
        data_sender = record { port = port.sender; id = id };
        senders = created_with s starting p.senders;
        data_receiver = record { port = port.receiver; id = id };
        receivers = created_with r starting p.receivers;
      },
      ports port ∷ [],
    )

abbrev pub set_sender : ℕ → Worker → Process → Process
set_sender i w p = record p { senders = set p.senders i w }

abbrev pub set_receiver : ℕ → Worker → Process → Process
set_receiver i w p = record p { receivers = set p.receivers i w }

-- `handle_sender` up to `sleep`: what it reads of its argument is what the variable holds then.
unfoldable pub open_sender : ℕ → Bool → Bool → Process → Process
open_sender i false option_ok p = exit_failure p
open_sender i true false p = set_sender i ended p
open_sender i true true p = set_sender i (opening p.data_sender) p

unfoldable pub connect_sender : ℕ → User → Bool → Process → Process
connect_sender i u false p = exit_failure p
connect_sender i u true p = set_sender i (serving u) p

-- `handle_receiver` up to `accept`
unfoldable pub open_receiver : ℕ → Opened → Process → Process
open_receiver i exits p = exit_failure p
open_receiver i returns p = set_receiver i ended p
open_receiver i opens p = set_receiver i (opening p.data_receiver) p

unfoldable pub accept_receiver : ℕ → User → Bool → Process → Process
accept_receiver i u false p = exit_failure p
accept_receiver i u true p = set_receiver i (serving u) p

-- One turn of the loop of `handle_receiver`
unfoldable pub receive_topic : User → Option Text → Process → Process
receive_topic u none p = exit_failure p
receive_topic u (some topic) p = record p { broker = ask u.id topic p.broker }

-- The messages that go out, and whether the process is still there; a `send` that nothing is said of works.
unfoldable pub send_all : List Sending → List Message → List Message × Bool
send_all outcomes [] = ([], true)
send_all [] (m ∷ ms) = (m ∷ ms, true)
send_all (whole ∷ outcomes) (m ∷ ms) = let (out, up) = send_all outcomes ms in (m ∷ out, up)
send_all (failed ∷ outcomes) (m ∷ ms) = send_all outcomes ms
send_all (broken ∷ outcomes) (m ∷ ms) = ([], false)

-- One turn of the loop of `handle_sender` of thread `i`, behind `pthread_cond_wait`. Where a `send` ends the process
-- nobody sees any more what it leaves.
unfoldable pub send_new : ℕ → List Sending → User → Process → Result
send_new i outcomes u p =
    let b = p.broker in
    let (topics, mine, out) = send_topics b.topics (interests_of u.id b) in
    let (gone, up) = send_all outcomes out in
    let q : Process = record p {
      broker = record (set_user u.id mine b) { topics = topics; senders = set b.senders i away };
    } in
    (if up then q else exit_failure q, map (λ m. message u.port m) gone)

abbrev pub set_phase : ℕ → Phase → Process → Process
set_phase i q p = record p { broker = record p.broker { senders = set p.broker.senders i q } }

-- A sender thread in its loop
unfoldable pub loop_step : Event → Phase → User → Process → Result
loop_step (settled i) away u p = (set_phase i waiting p, [])
loop_step (spurious i) waiting u p = (set_phase i woken p, [])
loop_step (resumed i outcomes) woken u p = send_new i outcomes u p
loop_step _ _ u p = (p, [])

unfoldable pub at_loop : ℕ → Event → User → Process → Result
at_loop i e u p = elim (get_elem? p.broker.senders i) [
  | none ↦ (p, [])
  | some q ↦ loop_step e q u p
]

unfoldable pub sender_step : ℕ → Event → Worker → Process → Result
sender_step i (sender_opens _ socket_ok option_ok) starting p =
    (open_sender i socket_ok option_ok p, [])
sender_step i (sender_connects _ ok) (opening u) p = (connect_sender i u ok p, [])
sender_step i (settled j) (serving u) p = at_loop i (settled j) u p
sender_step i (spurious j) (serving u) p = at_loop i (spurious j) u p
sender_step i (resumed j outcomes) (serving u) p = at_loop i (resumed j outcomes) u p
sender_step i _ _ p = (p, [])

unfoldable pub at_sender : ℕ → Event → Process → Result
at_sender i e p = elim (get_elem? p.senders i) [ none ↦ (p, []) | some w ↦ sender_step i e w p ]

unfoldable pub receiver_step : ℕ → Event → Worker → Process → Process
receiver_step i (receiver_opens _ o) starting p = open_receiver i (open_socket o) p
receiver_step i (receiver_accepts _ ok) (opening u) p = accept_receiver i u ok p
receiver_step i (received _ t) (serving u) p = receive_topic u t p
receiver_step i _ _ p = p

unfoldable pub at_receiver : ℕ → Event → Process → Result
at_receiver i e p = elim (get_elem? p.receivers i) [
  | none ↦ (p, [])
  | some w ↦ (receiver_step i e w p, [])
]

-- `main`: `subscriber_init` has put its thread over that of `publisher_init` in `p_thread`, so the first
-- `pthread_join` waits for that one; no thread was ever put in `s_thread`, and to join it is undefined behaviour.
unfoldable pub join_main : Handler → Process → Process
join_main returned p = exit_failure p
join_main _ p = p

unfoldable pub publisher_step : Event → Handler → Process → Process
publisher_step (publisher_opens o) created p = open_publisher (open_socket o) p
publisher_step (publisher_accepts ok m) accepting p = serve_publisher ok m p
publisher_step _ _ p = p

unfoldable pub subscriber_step : Event → Handler → Process → Result
subscriber_step (subscriber_opens o) created p = (open_subscriber (open_socket o) p, [])
subscriber_step (subscriber_accepts ok s r) accepting p = serve_subscriber ok s r p
subscriber_step _ _ p = (p, [])

-- A step while the process runs; an event that cannot happen now changes nothing.
unfoldable pub live_step : Event → Process → Result
live_step (publisher_opens o) p = (publisher_step (publisher_opens o) p.publisher_handler p, [])
live_step (publisher_accepts ok m) p =
    (publisher_step (publisher_accepts ok m) p.publisher_handler p, [])
live_step (subscriber_opens o) p = subscriber_step (subscriber_opens o) p.subscriber_handler p
live_step (subscriber_accepts ok s r) p =
    subscriber_step (subscriber_accepts ok s r) p.subscriber_handler p
live_step (sender_opens i s o) p = at_sender i (sender_opens i s o) p
live_step (sender_connects i ok) p = at_sender i (sender_connects i ok) p
live_step (receiver_opens i o) p = at_receiver i (receiver_opens i o) p
live_step (receiver_accepts i ok) p = at_receiver i (receiver_accepts i ok) p
live_step (received i t) p = at_receiver i (received i t) p
live_step (settled i) p = at_sender i (settled i) p
live_step (spurious i) p = at_sender i (spurious i) p
live_step (resumed i outcomes) p = at_sender i (resumed i outcomes) p
live_step main_joins p = (join_main p.subscriber_handler p, [])

unfoldable pub step : Event → Process → Result
step e p = if p.running then live_step e p else (p, [])

unfoldable pub run : Process → List Event → Result
run p [] = (p, [])
run p (e ∷ es) = let (q, out) = step e p in let (r, outs) = run q es in (r, out ++ outs)

-- The process when `ps_init` has created the two threads; nothing has set the two variables.
abbrev pub start : User → User → Process
start garbage_sender garbage_receiver = record {
  broker = Broker.opening;
  data_sender = garbage_sender;
  data_receiver = garbage_receiver;
  senders = [];
  receivers = [];
  publisher_handler = created;
  subscriber_handler = created;
  running = true;
}
