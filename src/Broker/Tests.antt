-- ===== src/Broker/Tests.antt =====
-- The theorems about the broker on concrete inputs.
use hyu_2021_network_protoco.Common.{
  ◌+◌, ◌<◌, ◌^◌, ◌≡◌, refl, true, List, [], ◌∷◌, ◌++◌, none, some, arith, length, drop, get_elem?,
  map, if◌then◌else◌, ◌==◌,
}
use hyu_2021_network_protoco.Clib.Text.{Text, codes, text_eq}
use hyu_2021_network_protoco.Broker.Subscriptions.{find}
use hyu_2021_network_protoco.Broker.Topics.{log}
use hyu_2021_network_protoco.Broker.Received.{received_on}
use hyu_2021_network_protoco.Broker.Delivery.{Reads}
use hyu_2021_network_protoco.Broker.Process as Process
use hyu_2021_network_protoco.Broker.Process.{User, Process}
use hyu_2021_network_protoco.Broker.Process.Arguments.{Good}
use hyu_2021_network_protoco.Broker.Process.Abstraction.{
  abstracts, AllInTime, messages_sent, by_port,
}
use hyu_2021_network_protoco.Broker.Process.Refinement.{process_refines_broker}
use hyu_2021_network_protoco.Broker.Process.Races.{later_user, two_accepted_share}
use hyu_2021_network_protoco.Broker.Subscribers.{
  published_reaches, published_missed, asking_twice_restarts,
}
use hyu_2021_network_protoco.Broker.{
  Message, Broker, Phase, away, waiting, opening, ask, published, settled, resumed, run,
}

abbrev news : Text
news = codes "news"

abbrev later_news : Message
later_news = record { topic = news; contents = codes "two" }

-- One subscriber that has read the one message of its topic.
abbrev with_sender : Phase → Broker
with_sender p = record {
  topics = λ t. if text_eq t news then some (codes "one" ∷ []) else none;
  user_informations = λ j. if j == 0 then some ((news, (true, 1)) ∷ []) else none;
  subscriber_idx = 1;
  port_for_each_subscriber = 20002;
  senders = p ∷ [];
}

news_read : (p : Phase) → Reads 0 news 1 (with_sender p)
unfolding find text_eq
news_read p = record { subscribed = refl; there = omega arith; unique = (tt, tt) }

news_logged : length (log news (with_sender waiting).topics) + 1 < 2 ^ 31
unfolding text_eq
news_logged = omega arith

published_reaches_example :
    received_on 0 news (run (with_sender waiting) (published later_news ∷ resumed 0 ∷ [])).1
    ≡ drop 1 (log news (with_sender waiting).topics ++ codes "two" ∷ [])
published_reaches_example =
    published_reaches 0 1 later_news (with_sender waiting) refl (news_read waiting) news_logged

published_missed_example :
    ((run (with_sender away) (published later_news ∷ settled 0 ∷ resumed 0 ∷ [])).1 ≡ [])
    × (get_elem?
          (run (with_sender away) (published later_news ∷ settled 0 ∷ resumed 0 ∷ [])).0.senders
          0
        ≡ some waiting)
    × (log news
          (run (with_sender away) (published later_news ∷ settled 0 ∷ resumed 0 ∷ [])).0.topics
        ≡ log news (with_sender away).topics ++ codes "two" ∷ [])
published_missed_example = published_missed 0 later_news (with_sender away) refl

asking_twice_restarts_example : Reads 0 news 0 (ask 0 news (ask 0 news (with_sender waiting)))
asking_twice_restarts_example =
    asking_twice_restarts 0 1 news (with_sender waiting) (news_read waiting)

abbrev opens_all : Process.Opens
opens_all = record { socket_ok = true; setsockopt_ok = true; bind_ok = true; listen_ok = true }

abbrev nobody : User
nobody = record { port = 7; id = 7 }

-- The process when `handle_subscriber` stands at `accept`.
abbrev ready_process : Process
ready_process = record (Process.start nobody nobody) { subscriber_handler = Process.accepting }

ready-Good : Good ready_process
ready-Good = record {
  senders = tt;
  receivers = tt;
  paired = refl;
  next_id = refl;
  next_port = refl;
  phases = refl;
}

abbrev process_events : List Process.Event
process_events =
    Process.subscriber_accepts true true true
    ∷ Process.sender_opens 0 true true
    ∷ Process.receiver_opens 0 opens_all
    ∷ Process.sender_connects 0 true
    ∷ Process.receiver_accepts 0 true
    ∷ Process.settled 0
    ∷ Process.received 0 (some news)
    ∷ Process.resumed 0 (Process.whole ∷ [])
    ∷ []

in_time : AllInTime ready_process process_events
in_time = ((tt, tt, refl, refl, omega arith), (tt, (tt, (tt, (tt, (tt, (tt, ((refl, tt), tt))))))))

process_refines_broker_example :
    ((Process.run ready_process process_events).0.broker
      ≡ (run opening (abstracts ready_process process_events)).0)
    × (messages_sent (Process.run ready_process process_events).1
        ≡ map by_port (run opening (abstracts ready_process process_events)).1)
process_refines_broker_example =
    process_refines_broker process_events ready_process ready-Good in_time

two_accepted_share_example :
    (get_elem?
        (Process.run ready_process (
          Process.subscriber_accepts true true true
          ∷ Process.subscriber_accepts true true true
          ∷ Process.sender_opens 0 true true
          ∷ Process.sender_opens 1 true true
          ∷ [])).0.senders
        0
      ≡ some (Process.opening (later_user ready_process)))
    × (get_elem?
          (Process.run ready_process (
            Process.subscriber_accepts true true true
            ∷ Process.subscriber_accepts true true true
            ∷ Process.sender_opens 0 true true
            ∷ Process.sender_opens 1 true true
            ∷ [])).0.senders
          1
        ≡ some (Process.opening (later_user ready_process)))
two_accepted_share_example = two_accepted_share ready_process refl refl
