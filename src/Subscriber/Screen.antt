-- ===== src/Subscriber/Screen.antt =====
-- From the broker to the screen of a subscriber.
use hyu_2021_network_protoco.Common.{
  ℕ, ◌+◌, ◌^◌, ◌<◌, ◌≡◌, ◌∙◌, refl, ap, true, false, List, [], ◌∷◌, ◌++◌, map, some, arith, length,
  All, drop, take, get_elem?, ◌==◌,
}
use hyu_2021_network_protoco.Clib.Text.{Text, text_eq}
use hyu_2021_network_protoco.Broker as Broker
use hyu_2021_network_protoco.Broker.{Message, waiting, Sent, resumed, published, ask, opening}
use hyu_2021_network_protoco.Broker.Topics.{log}
use hyu_2021_network_protoco.Broker.Received.{received_on}
use hyu_2021_network_protoco.Broker.Delivery.{Reads, Leaves}
use hyu_2021_network_protoco.Broker.Subscribers.{IsUnread, subscription_delivers}
use hyu_2021_network_protoco.Publisher.{Disk, topic, posts, max_topic_length}
use hyu_2021_network_protoco.Publisher.Reach.{IsWrong, IsPostable, file_reaches}
use hyu_2021_network_protoco.Subscriber as Sub
use hyu_2021_network_protoco.Subscriber.{
  prompting, reading, Subscriber, Output, printed, Event, types, receives, send_topic, main_step,
  print_message, receiver_step, live_step, step, run,
}

-- The messages that were sent to a subscriber, in order.
abbrev pub sent_to : ℕ → List Sent → List Message
sent_to id [] = []
sent_to id (s ∷ out) = elim (s.subscriber == id) [
  | true ↦ s.message ∷ sent_to id out
  | false ↦ sent_to id out
]

-- What the screen shows of a topic.
unfoldable pub printed_on : Text → List Output → List Text
printed_on t [] = []
printed_on t (Sub.topic port word ∷ out) = printed_on t out
printed_on t (printed m ∷ out) = elim (text_eq m.topic t) [
  | true ↦ m.contents ∷ printed_on t out
  | false ↦ printed_on t out
]

abbrev pub arrivals : List Message → List Event
arrivals ms = map (λ m. receives (some m)) ms

-- A subscriber in both its loops, whose topics go to `port`.
pub record IsUp (port : ℕ) (s : Subscriber) : Type 0 where
  pub main : s.main ≡ prompting port
  pub receiver : s.receiver ≡ reading
  pub live : s.running ≡ true

step-receives :
    (m : Message) (port : ℕ) (s : Subscriber)
    → IsUp port s
    → step (receives (some m)) s ≡ (s, printed m ∷ [])
unfolding step live_step receiver_step print_message
step-receives m port s up = ground (arith, up.receiver, up.live)

prints_all :
    (ms : List Message) (port : ℕ) (s : Subscriber)
    → IsUp port s
    → run s (arrivals ms) ≡ (s, map (λ m. printed m) ms)
unfolding run
prints_all [] port s up = refl
prints_all (m ∷ ms) port s up = simp (step-receives m port s up, prints_all ms port s up) refl

shown :
    (id : ℕ) (t : Text) (out : List Sent)
    → printed_on t (map (λ m. printed m) (sent_to id out)) ≡ received_on id t out
unfolding printed_on received_on
shown id t [] = refl
shown id t (s ∷ out) = ground (arith, shown id t out)

types_step :
    (word : Text) (port : ℕ) (s : Subscriber)
    → IsUp port s
    → length word < 1024
    → step (types word) s ≡ (s, Sub.topic port word ∷ [])
unfolding step live_step main_step send_topic
types_step word port s up h = ground (arith, up.main, up.live)

-- From a file to a screen: a user of the publisher types a topic, any names that do not open, and the name of a
-- text file; the words and the file fit their buffers. A subscriber of the topic has read up to message n, its
-- sender in the broker waits, and the topic has fewer than 2 ^ 31 - 1 messages. Then what is posted is published
-- by the broker and sent with the sender's next turn; the subscriber's screen shows of the topic the messages
-- from n on, and the contents of that file last.
pub file_to_screen :
    (disk : Disk) (t name contents : Text) (wrong : List Text) (id n port : ℕ) (b : Broker.Broker)
    (s : Subscriber)
    → length t < max_topic_length
    → All (IsWrong disk) wrong
    → IsPostable disk name contents
    → get_elem? b.senders id ≡ some waiting
    → Reads id t n b
    → length (log t b.topics) + 1 < 2 ^ 31
    → IsUp port s
    → let out =
        (Broker.run b (
          map (λ m. published m) (posts disk topic (t ∷ (wrong ++ name ∷ [])))
          ++ resumed id ∷ [])).1 in
      printed_on t (run s (arrivals (sent_to id out))).1 ≡ drop n (log t b.topics ++ contents ∷ [])
file_to_screen disk t name contents wrong id n port b s short w file at reads small up =
    let out =
      (Broker.run b (
        map (λ m. published m) (posts disk topic (t ∷ (wrong ++ name ∷ [])))
        ++ resumed id ∷ [])).1 in
    ap (λ r. printed_on t r.1) (prints_all (sent_to id out) port s up)
    ∙ shown id t out
    ∙ file_reaches disk t name contents wrong id n b short w file at reads small

-- After any run of the broker, the user of a subscriber that is in both its loops types a topic
-- that the subscriber does not read: it sends the topic on its connection for topics. When the
-- broker has got that, whatever happens then but that the subscriber asks for the topic again, the
-- screen shows, of the messages that the broker sends to it, those of the topic up to the one that
-- it is marked to read it to, each once and in order of publication, those published before it
-- asked included. The topic fits its buffer and has fewer than 2 ^ 31 messages.
pub topic_to_screen :
    (es fs : List Broker.Event) (id port : ℕ) (t : Text) (s : Subscriber)
    → IsUnread id t (Broker.run opening es).0
    → All (Leaves id t) fs
    → length (log t (Broker.run (ask id t (Broker.run opening es).0) fs).0.topics) < 2 ^ 31
    → length t < 1024
    → IsUp port s
    → let r = Broker.run (ask id t (Broker.run opening es).0) fs in
      (now : ℕ) × Reads id t now r.0
      × ((step (types t) s).1 ≡ Sub.topic port t ∷ [])
      × (printed_on t (run s (types t ∷ arrivals (sent_to id r.1))).1 ≡ take now (log t r.0.topics))
unfolding run printed_on
topic_to_screen es fs id port t s unread leaves small short up =
    let r = Broker.run (ask id t (Broker.run opening es).0) fs in
    let (now, reads, order) = subscription_delivers es fs id t unread leaves small in
    (
      now,
      reads,
      ap (λ x. x.1) (types_step t port s up short),
      simp (types_step t port s up short, prints_all (sent_to id r.1) port s up)
          (shown id t r.1 ∙ order),
    )
