-- ===== src/Broker.antt =====
-- publisher and subscriber architecture/broker.cpp: topics with their messages, subscribers with the
-- topics that they asked for, and a sender thread for each, as threads that take turns. A step is what one
-- thread does up to the next call at which another may run.
pub mod Process
pub mod Subscriptions
pub mod Topics
pub mod Received
pub mod Delivery
pub mod Subscribers
mod Tests
use hyu_2021_network_protoco.Common.{
  ℕ, ◌+◌, Bool, true, false, List, [], ◌∷◌, ◌++◌, map, Option, none, some, if◌then◌else◌, ltb, ◌==◌,
  length, drop, get_elem?, set,
}
use hyu_2021_network_protoco.Clib.Text.{Text, text_eq}
use hyu_2021_network_protoco.Clib.Decimal.{int32}
use hyu_2021_network_protoco.Broker.Subscriptions.{Interest, Interests, find, assign}

pub record Message : Type 0 where
  pub topic : Text
  pub contents : Text

-- `map<string, vector<string>>`
abbrev pub TopicMap : Type 0
TopicMap = Text → Option (List Text)

-- `topics[t] = v`
abbrev pub set_topic : Text → List Text → TopicMap → TopicMap
set_topic t v topics u = if text_eq u t then some v else topics u

-- What `topics[t]` refers to: a topic that is not there is made with no message.
unfoldable pub subscript : Text → TopicMap → List Text × TopicMap
subscript t topics = elim (topics t) [ none ↦ ([], set_topic t [] topics) | some v ↦ (v, topics) ]

-- Where a sender thread stands: on its way to `pthread_cond_wait`, in it, or behind it.
pub data Phase : Type 0 where
  away waiting woken : Phase

pub record Broker : Type 0 where
  pub topics : TopicMap
  pub user_informations : ℕ → Option Interests
  pub subscriber_idx : ℕ  -- int
  pub port_for_each_subscriber : ℕ  -- int
  pub senders : List Phase  -- one for each subscriber, in order

abbrev pub opening : Broker
opening = record {
  topics = λ _. none;
  user_informations = λ _. none;
  subscriber_idx = 0;
  port_for_each_subscriber = 20000;
  senders = [];
}

-- `register_message`
unfoldable pub register_message : Message → TopicMap → TopicMap
register_message m topics = elim (topics m.topic) [
  | some v ↦ set_topic m.topic (v ++ m.contents ∷ []) topics
  | none ↦ set_topic m.topic (m.contents ∷ []) topics
]

-- `pthread_cond_broadcast(&p_thread_cond)`: every thread that waits goes on.
abbrev pub wake : Phase → Phase
wake away = away
wake waiting = woken
wake woken = woken

abbrev pub broadcast : Broker → Broker
broadcast b = record b { senders = map wake b.senders }

-- `distribute_message`: -1 as `false`.
unfoldable pub distribute_message : Text → Broker → Bool × Broker
distribute_message topic b = elim (b.topics topic) [
  | none ↦ (false, b)
  | some _ ↦ (true, broadcast b)
]

-- The critical section of `handle_publisher`.
unfoldable pub publish : Message → Broker → Broker
publish m b = (distribute_message m.topic (record b { topics = register_message m b.topics })).1

-- The two ports of a subscriber, as they are sent to it.
pub record Port : Type 0 where
  pub receiver : ℕ
  pub sender : ℕ

-- The critical section of `handle_subscriber`, and the threads that it creates.
unfoldable pub accept : Broker → Port × Broker
accept b = (
  record { receiver = b.port_for_each_subscriber; sender = int32 (b.port_for_each_subscriber + 1) },
  record b {
    subscriber_idx = int32 (b.subscriber_idx + 1);
    port_for_each_subscriber = int32 (b.port_for_each_subscriber + 2);
    senders = b.senders ++ away ∷ [];
  },
)

-- `user_informations[id] = v`
abbrev pub set_user : ℕ → Interests → Broker → Broker
set_user id v b = record b {
  user_informations = λ j. if j == id then some v else b.user_informations j;
}

-- What `user_informations[id]` refers to, where a user that is not there is made with no topic.
abbrev pub interests_of : ℕ → Broker → Interests
interests_of id b = elim (b.user_informations id) [ none ↦ [] | some v ↦ v ]

-- What becomes of the topic that a subscriber names.
abbrev pub toggle : Option Interest → Interest
toggle none = (true, 0)
toggle (some (true, n)) = (false, n)
toggle (some (false, n)) = (true, 0)

-- One turn of the loop of `handle_receiver`. At the end of the stream the topic is empty.
unfoldable pub ask : ℕ → Text → Broker → Broker
ask id topic b =
    let mine = interests_of id b in
    broadcast (set_user id (assign topic (toggle (find topic mine)) mine) b)

-- The inner loop of `handle_sender`.
abbrev pub messages_of : Text → List Text → List Message
messages_of topic contents = map (λ c. record { topic = topic; contents = c }) contents

-- The loop of `handle_sender` over the topics of its subscriber: the topics, the subscriber's topics with
-- their new indices, and the messages sent.
unfoldable pub send_topics : TopicMap → Interests → TopicMap × Interests × List Message
send_topics topics [] = (topics, [], [])
send_topics topics ((t, (false, n)) ∷ rest) =
    let (topics', rest', out) = send_topics topics rest in (topics', (t, (false, n)) ∷ rest', out)
send_topics topics ((t, (true, n)) ∷ rest) =
    let (log, grown) = subscript t topics in
    let (topics', rest', out) = send_topics grown rest in
    if ltb n (length log)
    then (topics', (t, (true, int32 (length log))) ∷ rest', messages_of t (drop n log) ++ out)
    else (topics', (t, (true, n)) ∷ rest', out)

-- What a sender thread sends, to its subscriber.
pub record Sent : Type 0 where
  pub subscriber : ℕ
  pub message : Message

abbrev pub Result : Type 0
Result = Broker × List Sent

abbrev pub addressed : ℕ → List Message → List Sent
addressed id ms = map (λ m. record { subscriber = id; message = m }) ms

-- One turn of the loop of `handle_sender`, from `pthread_cond_wait` to the end.
unfoldable pub send_new : ℕ → Broker → Result
send_new id b =
    let (topics, mine, out) = send_topics b.topics (interests_of id b) in
    (
      record (set_user id mine b) { topics = topics; senders = set b.senders id away },
      addressed id out,
    )

pub data Event : Type 0 where
  joined : Event  -- a subscriber is accepted
  published : Message → Event  -- a publisher's message is received
  asked : (id : ℕ) → (topic : Text) → Event  -- a subscriber's topic is received
  settled : (id : ℕ) → Event  -- a sender thread comes to `pthread_cond_wait`
  spurious : (id : ℕ) → Event  -- it wakes up with no broadcast
  resumed : (id : ℕ) → Event  -- a woken sender thread gets the lock

unfoldable pub sender_step : Event → Phase → Broker → Result
sender_step (settled id) away b = (record b { senders = set b.senders id waiting }, [])
sender_step (spurious id) waiting b = (record b { senders = set b.senders id woken }, [])
sender_step (resumed id) woken b = send_new id b
sender_step _ _ b = (b, [])

unfoldable pub at_sender : ℕ → Event → Broker → Result
at_sender id e b = elim (get_elem? b.senders id) [ none ↦ (b, []) | some p ↦ sender_step e p b ]

-- A step of the whole process; an event that cannot happen now changes nothing.
unfoldable pub step : Event → Broker → Result
step joined b = ((accept b).1, [])
step (published m) b = (publish m b, [])
step (asked id topic) b = (ask id topic b, [])
step (settled id) b = at_sender id (settled id) b
step (spurious id) b = at_sender id (spurious id) b
step (resumed id) b = at_sender id (resumed id) b

unfoldable pub run : Broker → List Event → Result
run b [] = (b, [])
run b (e ∷ es) = let (c, out) = step e b in let (d, outs) = run c es in (d, out ++ outs)
