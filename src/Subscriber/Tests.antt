-- ===== src/Subscriber/Tests.antt =====
-- The theorems about publishers, the broker and subscribers on concrete inputs.
use hyu_2021_network_protoco.Common.{
  ℕ, ◌<◌, ◌^◌, ◌≡◌, refl, inl, true, List, [], ◌∷◌, ◌++◌, map, none, some, arith, length, All, drop,
  take, get_elem?, if◌then◌else◌, ◌==◌,
}
use hyu_2021_network_protoco.Clib.Text.{Text, codes, text_eq}
use hyu_2021_network_protoco.Broker.Subscriptions.{find, insert, assign}
use hyu_2021_network_protoco.Broker.Topics.{log}
use hyu_2021_network_protoco.Broker.Delivery.{Reads, Leaves}
use hyu_2021_network_protoco.Broker.Subscribers.{IsUnread}
use hyu_2021_network_protoco.Broker.{
  Message, Broker, waiting, opening, accept, ask, register_message, distribute_message, publish,
  Event, joined, published, settled, resumed, subscript, send_topics, send_new, sender_step,
  at_sender, step, run,
}
use hyu_2021_network_protoco.Broker.Process as Process
use hyu_2021_network_protoco.Broker.Process.Arguments.{user, Good}
use hyu_2021_network_protoco.Publisher.{Disk, topic, posts}
use hyu_2021_network_protoco.Publisher.Reach.{IsWrong, IsPostable}
use hyu_2021_network_protoco.Subscriber as Sub
use hyu_2021_network_protoco.Subscriber.{Subscriber}
use hyu_2021_network_protoco.Subscriber.Screen.{
  sent_to, printed_on, arrivals, IsUp, file_to_screen, topic_to_screen,
}
use hyu_2021_network_protoco.Subscriber.Ports.{
  all_open, all_dial, broker_events, ports_of, ports_meet,
}

abbrev watcher : Subscriber
watcher = record { main = Sub.prompting 20000; receiver = Sub.reading; running = true }

watcher-IsUp : IsUp 20000 watcher
watcher-IsUp = record { main = refl; receiver = refl; live = refl }

abbrev sport : Text
sport = codes "sport"

abbrev male_txt : Text
male_txt = codes "male.txt"

abbrev one_file : Disk
one_file = λ name. if text_eq name male_txt then some (codes "run") else none

-- One subscriber that waits for the first message of the topic.
abbrev one_reader : Broker
one_reader = record {
  topics = λ _. none;
  user_informations = λ j. if j == 0 then some ((sport, (true, 0)) ∷ []) else none;
  subscriber_idx = 1;
  port_for_each_subscriber = 20002;
  senders = waiting ∷ [];
}

sport_read : Reads 0 sport 0 one_reader
unfolding find text_eq
sport_read = record { subscribed = refl; there = omega arith; unique = (tt, tt) }

file_opens : IsPostable one_file male_txt (codes "run")
unfolding text_eq
file_opens = record { short = omega arith; opens = refl; text = omega arith; fits = omega arith }

mistyped : All (IsWrong one_file) (codes "mail" ∷ [])
unfolding text_eq
mistyped = ((omega arith, refl), tt)

file_to_screen_example :
    printed_on sport
      (Sub.run watcher (
        arrivals (
          sent_to 0
            (run one_reader (
              map
                (λ m. published m)
                (posts one_file topic (sport ∷ (codes "mail" ∷ [] ++ male_txt ∷ [])))
              ++ resumed 0 ∷ [])).1))).1
    ≡ drop 0 (log sport one_reader.topics ++ codes "run" ∷ [])
file_to_screen_example =
    file_to_screen one_file sport male_txt (codes "run") (codes "mail" ∷ []) 0 0 20000 one_reader
      watcher (omega arith) mistyped file_opens refl sport_read (omega arith) watcher-IsUp

abbrev news : Text
news = codes "news"

abbrev first_news : Message
first_news = record { topic = news; contents = codes "one" }

abbrev later_news : Message
later_news = record { topic = news; contents = codes "two" }

-- A message comes before the subscriber, and one after it.
abbrev before : List Event
before = published first_news ∷ joined ∷ settled 0 ∷ []

abbrev behind : List Event
behind = resumed 0 ∷ published later_news ∷ settled 0 ∷ published first_news ∷ resumed 0 ∷ []

news-IsUnread : IsUnread 0 news (run opening before).0
unfolding run step accept publish register_message distribute_message at_sender sender_step find
    text_eq
news-IsUnread = inl refl

behind-Leaves : All (Leaves 0 news) behind
behind-Leaves = omega arith

news_short : length (log news (run (ask 0 news (run opening before).0) behind).0.topics) < 2 ^ 31
unfolding run step accept publish register_message distribute_message at_sender sender_step ask find
    insert assign text_eq send_new send_topics subscript
news_short = omega arith

topic_to_screen_example :
    (now : ℕ) × Reads 0 news now (run (ask 0 news (run opening before).0) behind).0
    × ((Sub.step (Sub.types news) watcher).1 ≡ Sub.topic 20000 news ∷ [])
    × (printed_on news
          (Sub.run watcher (
            Sub.types news
            ∷ arrivals (sent_to 0 (run (ask 0 news (run opening before).0) behind).1))).1
        ≡ take now (log news (run (ask 0 news (run opening before).0) behind).0.topics))
topic_to_screen_example =
    topic_to_screen before behind 0 20000 news watcher news-IsUnread behind-Leaves news_short
      (omega arith) watcher-IsUp

abbrev nobody : Process.User
nobody = record { port = 7; id = 7 }

abbrev ready_process : Process.Process
ready_process = record (Process.start nobody nobody) { subscriber_handler = Process.accepting }

ready-Good : Good ready_process
ready-Good = record {
  senders = tt;
  receivers = tt;
  paired = refl;
  next_id = refl;
  next_port = refl;
  phases = refl;
}

ports_meet_example :
    ((Process.run ready_process (broker_events 0)).1 ≡ Process.ports (ports_of 0) ∷ [])
    × (get_elem? (Process.run ready_process (broker_events 0)).0.senders 0
        ≡ some (Process.opening (user 20001 0)))
    × (get_elem? (Process.run ready_process (broker_events 0)).0.receivers 0
        ≡ some (Process.opening (user 20000 0)))
    × ((Sub.run Sub.start (
          Sub.connects all_dial (some (ports_of 0)) true
          ∷ Sub.listens all_open
          ∷ Sub.dials all_dial
          ∷ [])).0.receiver
        ≡ Sub.listening 20001)
    × ((Sub.run Sub.start (
          Sub.connects all_dial (some (ports_of 0)) true
          ∷ Sub.listens all_open
          ∷ Sub.dials all_dial
          ∷ [])).0.main
        ≡ Sub.prompting 20000)
ports_meet_example = ports_meet ready_process refl refl ready-Good (omega arith)
