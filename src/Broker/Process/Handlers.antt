-- ===== src/Broker/Process/Handlers.antt =====
-- The steps of `handle_publisher` and `handle_subscriber`, beside the events of the broker.
use hyu_2021_network_protoco.Common.{
  ℕ, ◌+◌, ◌*◌, ◌<◌, ◌≡◌, refl, subst, Bool, true, false, [], ◌∷◌, Option, none, some, arith, All,
  length, length-append,
}
use hyu_2021_network_protoco.Broker as Broker
use hyu_2021_network_protoco.Broker.{Message, away, accept, publish}
use hyu_2021_network_protoco.Broker.Process.{
  Handler, created, accepting, returned, starting, Process, Opens, Opened, exits, returns, opens,
  publisher_opens, publisher_accepts, subscriber_opens, subscriber_accepts, open_socket,
  open_publisher, serve_publisher, open_subscriber, serve_subscriber, publisher_step,
  subscriber_step,
}
use hyu_2021_network_protoco.Broker.Process.Arguments.{user, HasStarted, AllOwn-snoc, Good}
use hyu_2021_network_protoco.Broker.Process.Abstraction.{
  accepted, abstract, InTime, Refines, broker_step, publish-SameCounts, with_broker-Good,
  frame-Refines, idle, exit-Refines,
}

open_publisher-Refines : (x : Opened) (p : Process) → Good p → Refines p (open_publisher x p, []) []
unfolding open_publisher
open_publisher-Refines exits p g = exit-Refines p g
open_publisher-Refines returns p g = frame-Refines p returned p.subscriber_handler p.running g
open_publisher-Refines opens p g = frame-Refines p accepting p.subscriber_handler p.running g

pub publisher_opens-Refines :
    (o : Opens) (h : Handler) (p : Process)
    → Good p
    → Refines p (publisher_step (publisher_opens o) h p, []) []
unfolding publisher_step
publisher_opens-Refines o created p g = open_publisher-Refines (open_socket o) p g
publisher_opens-Refines o accepting p g = idle p g
publisher_opens-Refines o returned p g = idle p g

publishes-Refines :
    (m : Message) (h : Handler) (p : Process)
    → Good p
    → Refines p
        (publisher_step (publisher_accepts true (some m)) h p, [])
        (accepted (Broker.published m) h)
unfolding publisher_step serve_publisher Broker.step
publishes-Refines m accepting p g =
    broker_step p _ (Broker.published m)
      (with_broker-Good p (publish m p.broker) g (publish-SameCounts m p.broker)) refl refl
publishes-Refines m created p g = idle p g
publishes-Refines m returned p g = idle p g

pub publisher_accepts-Refines :
    (ok : Bool) (m : Option Message) (h : Handler) (p : Process)
    → Good p
    → h ≡ p.publisher_handler
    → Refines p
        (publisher_step (publisher_accepts ok m) h p, [])
        (abstract (publisher_accepts ok m) p)
unfolding publisher_step serve_publisher
publisher_accepts-Refines true (some m) h p g e =
    subst
      (λ x.
        Refines p (publisher_step (publisher_accepts true (some m)) h p, [])
          (accepted (Broker.published m) x))
      e (publishes-Refines m h p g)
publisher_accepts-Refines true none accepting p g e = idle p g
publisher_accepts-Refines true none created p g e = idle p g
publisher_accepts-Refines true none returned p g e = idle p g
publisher_accepts-Refines false m accepting p g e = exit-Refines p g
publisher_accepts-Refines false m created p g e = idle p g
publisher_accepts-Refines false m returned p g e = idle p g

open_subscriber-Refines :
    (x : Opened) (p : Process) → Good p → Refines p (open_subscriber x p, []) []
unfolding open_subscriber
open_subscriber-Refines exits p g = exit-Refines p g
open_subscriber-Refines returns p g = frame-Refines p p.publisher_handler returned p.running g
open_subscriber-Refines opens p g = frame-Refines p p.publisher_handler accepting p.running g

pub subscriber_opens-Refines :
    (o : Opens) (h : Handler) (p : Process)
    → Good p
    → Refines p (subscriber_step (subscriber_opens o) h p) []
unfolding subscriber_step
subscriber_opens-Refines o created p g = open_subscriber-Refines (open_socket o) p g
subscriber_opens-Refines o accepting p g = idle p g
subscriber_opens-Refines o returned p g = idle p g

is_user :
    (base port id n : ℕ)
    → port ≡ base + 2 * n
    → id ≡ n
    → record { port = port; id = id } ≡ user base n
is_user base port id n p q = λ i. record { port = p i; id = q i }

-- A subscriber is accepted.
joins-Good :
    (p : Process)
    → Good p
    → All HasStarted p.senders
    → All HasStarted p.receivers
    → length p.senders < 22767
    → Good (serve_subscriber true true true p).0
unfolding serve_subscriber accept
joins-Good p g s r small =
    let n = length p.senders in
    let id : p.broker.subscriber_idx ≡ n = g.next_id in
    let port : p.broker.port_for_each_subscriber ≡ 20000 + 2 * n = g.next_port in
    let grown = length-append p.senders (starting ∷ []) in
    record {
      senders =
          AllOwn-snoc 20001 p.data_sender _ p.senders 0 s g.senders
            (is_user 20001 _ _ (0 + n) (omega arith) (omega arith));
      receivers = AllOwn-snoc 20000 p.data_receiver _ p.receivers 0 r g.receivers (
          is_user 20000 _ _ (0 + length p.receivers) (omega (arith, g.paired))
            (omega (arith, g.paired)));
      paired = omega (arith, length-append p.receivers (starting ∷ []), g.paired);
      next_id = omega arith;
      next_port = omega arith;
      phases = omega (arith, length-append p.broker.senders (away ∷ []), g.phases);
    }

joins-Refines :
    (h : Handler) (p : Process)
    → Good p
    → InTime (subscriber_accepts true true true) p
    → Refines p (subscriber_step (subscriber_accepts true true true) h p) (accepted Broker.joined h)
unfolding subscriber_step serve_subscriber accept Broker.step
joins-Refines accepting p g t = broker_step p _ Broker.joined (joins-Good p g t.0 t.1 t.4) refl refl
joins-Refines created p g t = idle p g
joins-Refines returned p g t = idle p g

pub subscriber_accepts-Refines :
    (ok s r : Bool) (h : Handler) (p : Process)
    → Good p
    → h ≡ p.subscriber_handler
    → InTime (subscriber_accepts ok s r) p
    → Refines p
        (subscriber_step (subscriber_accepts ok s r) h p)
        (abstract (subscriber_accepts ok s r) p)
unfolding subscriber_step serve_subscriber
subscriber_accepts-Refines true true true h p g e t =
    subst
      (λ x.
        Refines p (subscriber_step (subscriber_accepts true true true) h p)
          (accepted Broker.joined x))
      e (joins-Refines h p g t)
subscriber_accepts-Refines true true false h p g e t = absurd (cc (t.3))
subscriber_accepts-Refines true false r h p g e t = absurd (cc (t.2))
subscriber_accepts-Refines false s r accepting p g e t = exit-Refines p g
subscriber_accepts-Refines false s r created p g e t = idle p g
subscriber_accepts-Refines false s r returned p g e t = idle p g
