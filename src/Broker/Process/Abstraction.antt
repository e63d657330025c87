-- ===== src/Broker/Process/Abstraction.antt =====
-- The broker's process as an implementation of the broker of `Broker`, in which the sender thread of a
-- subscriber is told by the subscriber's number: what a step of the one is for the other.
use hyu_2021_network_protoco.Common.{
  ℕ, suc, ◌+◌, ◌*◌, ◌<◌, ◌≡◌, ◌∙◌, refl, sym, ap, Bool, true, false, List, [], ◌∷◌, ◌++◌,
  append-nil, map, Option, some, if◌then◌else◌, arith, All, length, get_elem?,
}
use hyu_2021_network_protoco.Clib.Text.{Text}
use hyu_2021_network_protoco.Broker as Broker
use hyu_2021_network_protoco.Broker.{
  Message, Phase, wake, Sent, publish, register_message, distribute_message, ask,
}
use hyu_2021_network_protoco.Broker.Process.{
  Handler, accepting, Worker, serving, Process, Output, ports, message, Result, Sending, whole,
  Event, publisher_accepts, subscriber_accepts, received, settled, spurious, resumed, exit_failure,
  step,
}
use hyu_2021_network_protoco.Broker.Process.Arguments.{HasStarted, Good}

-- The messages among the outputs, each with its port.
abbrev pub messages_sent : List Output → List (ℕ × Message)
messages_sent [] = []
messages_sent (ports p ∷ out) = messages_sent out
messages_sent (message n m ∷ out) = (n, m) ∷ messages_sent out

-- What the broker sends, with the port that was given to the subscriber for it.
abbrev pub by_port : Sent → ℕ × Message
by_port s = (20001 + 2 * s.subscriber, s.message)

-- What a thread in its loop does is an event of the broker.
abbrev pub act : Broker.Event → Option Worker → List Broker.Event
act e (some (serving u)) = e ∷ []
act e _ = []

abbrev pub accepted : Broker.Event → Handler → List Broker.Event
accepted e accepting = e ∷ []
accepted e _ = []

abbrev pub abstract : Event → Process → List Broker.Event
abstract (publisher_accepts true (some m)) p = accepted (Broker.published m) p.publisher_handler
abstract (subscriber_accepts true s r) p = accepted Broker.joined p.subscriber_handler
abstract (received i (some t)) p = act (Broker.asked i t) (get_elem? p.receivers i)
abstract (settled i) p = act (Broker.settled i) (get_elem? p.senders i)
abstract (spurious i) p = act (Broker.spurious i) (get_elem? p.senders i)
abstract (resumed i outcomes) p = act (Broker.resumed i) (get_elem? p.senders i)
abstract _ p = []

abbrev pub abstracts : Process → List Event → List Broker.Event
abstracts p [] = []
abstracts p (e ∷ es) = (if p.running then abstract e p else []) ++ abstracts (step e p).0 es

abbrev pub IsWhole : Sending → Type 0
IsWhole s = s ≡ whole

-- A subscriber is accepted only when every thread that was created has read its argument, both its threads are
-- made, and its ports are port numbers; and each `send` of a message works.
abbrev pub InTime : Event → Process → Type 0
InTime (subscriber_accepts ok s r) p =
    All HasStarted p.senders
    × All HasStarted p.receivers
    × (s ≡ true)
    × (r ≡ true)
    × (length p.senders < 22767)
InTime (resumed i outcomes) p = All IsWhole outcomes
InTime _ p = Unit

abbrev pub AllInTime : Process → List Event → Type 0
AllInTime p [] = Unit
AllInTime p (e ∷ es) = InTime e p × AllInTime (step e p).0 es

-- A step keeps the invariant, and is what the broker does with the abstract events.
pub record Refines (p : Process) (r : Result) (es : List Broker.Event) : Type 0 where
  pub good : Good r.0
  pub state : (Broker.run p.broker es).0 ≡ r.0.broker
  pub sent : map by_port (Broker.run p.broker es).1 ≡ messages_sent r.1

-- A step that leaves the broker alone.
pub quiet : (p q : Process) → Good q → q.broker ≡ p.broker → Refines p (q, []) []
unfolding Broker.run
quiet p q g e = record { good = g; state = sym e; sent = refl }

pub broker_step :
    (p : Process) (r : Result) (e : Broker.Event)
    → Good r.0
    → (Broker.step e p.broker).0 ≡ r.0.broker
    → map by_port (Broker.step e p.broker).1 ≡ messages_sent r.1
    → Refines p r (e ∷ [])
unfolding Broker.run
broker_step p r e g h k = record {
  good = g;
  state = h;
  sent = rw (append-nil (Broker.step e p.broker).1) k;
}

-- What stays the same in the broker when no subscriber is accepted.
abbrev pub SameCounts : Broker.Broker → Broker.Broker → Type 0
SameCounts b c =
    (c.subscriber_idx ≡ b.subscriber_idx)
    × (c.port_for_each_subscriber ≡ b.port_for_each_subscriber)
    × (length c.senders ≡ length b.senders)

length-wake : (ps : List Phase) → length (map wake ps) ≡ length ps
length-wake [] = refl
length-wake (q ∷ ps) = ap suc (length-wake ps)

pub publish-SameCounts : (m : Message) (b : Broker.Broker) → SameCounts b (publish m b)
unfolding publish register_message distribute_message
publish-SameCounts m b = ground (arith, length-wake b.senders)

pub ask-SameCounts : (id : ℕ) (t : Text) (b : Broker.Broker) → SameCounts b (ask id t b)
unfolding ask
ask-SameCounts id t b = (refl, refl, length-wake b.senders)

pub with_broker-Good :
    (p : Process) (b : Broker.Broker)
    → Good p
    → SameCounts p.broker b
    → Good (record p { broker = b })
with_broker-Good p b g s = record {
  senders = g.senders;
  receivers = g.receivers;
  paired = g.paired;
  next_id = s.0 ∙ g.next_id;
  next_port = s.1 ∙ g.next_port;
  phases = s.2 ∙ g.phases;
}

-- Where the handlers stand, and whether the process runs, is not of the broker.
pub frame-Refines :
    (p : Process) (x y : Handler) (live : Bool)
    → Good p
    → Refines p (record p { publisher_handler = x; subscriber_handler = y; running = live }, []) []
frame-Refines p x y live g =
    quiet p _
      (record {
        senders = g.senders;
        receivers = g.receivers;
        paired = g.paired;
        next_id = g.next_id;
        next_port = g.next_port;
        phases = g.phases;
      })
      refl

pub idle : (p : Process) → Good p → Refines p (p, []) []
idle p g = quiet p p g refl

pub exit-Refines : (p : Process) → Good p → Refines p (exit_failure p, []) []
exit-Refines p g = frame-Refines p p.publisher_handler p.subscriber_handler false g
