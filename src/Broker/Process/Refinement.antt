-- ===== src/Broker/Process/Refinement.antt =====
-- The broker's process against the broker, for runs in time.
use hyu_2021_network_protoco.Common.{
  ◌≡◌, ◌∙◌, refl, sym, ap, List, [], ◌∷◌, ◌++◌, map, if◌then◌else◌, inl, inr, Bool-cases,
  append_assoc,
}
use hyu_2021_network_protoco.Broker as Broker
use hyu_2021_network_protoco.Broker.Process.{
  Handler, created, accepting, returned, Process, Output, ports, message, Event, publisher_opens,
  publisher_accepts, subscriber_opens, subscriber_accepts, sender_opens, sender_connects,
  receiver_opens, receiver_accepts, received, settled, spurious, resumed, main_joins, join_main,
  live_step, step, run,
}
use hyu_2021_network_protoco.Broker.Process.Arguments.{Good}
use hyu_2021_network_protoco.Broker.Process.Abstraction.{
  messages_sent, by_port, abstract, abstracts, InTime, AllInTime, Refines, idle, exit-Refines,
}
use hyu_2021_network_protoco.Broker.Process.Handlers.{
  publisher_opens-Refines, publisher_accepts-Refines, subscriber_opens-Refines,
  subscriber_accepts-Refines,
}
use hyu_2021_network_protoco.Broker.Process.Senders.{
  settled-Refines, spurious-Refines, resumed-Refines, sender_opens-Refines, sender_connects-Refines,
}
use hyu_2021_network_protoco.Broker.Process.Receivers.{
  receiver_opens-Refines, receiver_accepts-Refines, received-Refines,
}

join_main-Refines : (h : Handler) (p : Process) → Good p → Refines p (join_main h p, []) []
unfolding join_main
join_main-Refines returned p g = exit-Refines p g
join_main-Refines created p g = idle p g
join_main-Refines accepting p g = idle p g

live_step-Refines :
    (e : Event) (p : Process) → Good p → InTime e p → Refines p (live_step e p) (abstract e p)
unfolding live_step
live_step-Refines (publisher_opens o) p g t = publisher_opens-Refines o p.publisher_handler p g
live_step-Refines (publisher_accepts ok m) p g t =
    publisher_accepts-Refines ok m p.publisher_handler p g refl
live_step-Refines (subscriber_opens o) p g t = subscriber_opens-Refines o p.subscriber_handler p g
live_step-Refines (subscriber_accepts ok s r) p g t =
    subscriber_accepts-Refines ok s r p.subscriber_handler p g refl t
live_step-Refines (sender_opens i s o) p g t = sender_opens-Refines i s o p g
live_step-Refines (sender_connects i ok) p g t = sender_connects-Refines i ok p g
live_step-Refines (receiver_opens i o) p g t = receiver_opens-Refines i o p g
live_step-Refines (receiver_accepts i ok) p g t = receiver_accepts-Refines i ok p g
live_step-Refines (received i x) p g t = received-Refines i x p g
live_step-Refines (settled i) p g t = settled-Refines i p g
live_step-Refines (spurious i) p g t = spurious-Refines i p g
live_step-Refines (resumed i outcomes) p g t = resumed-Refines i outcomes p g t
live_step-Refines main_joins p g t = join_main-Refines p.subscriber_handler p g

step-Refines :
    (e : Event) (p : Process)
    → Good p
    → InTime e p
    → Refines p (step e p) (if p.running then abstract e p else [])
unfolding step
step-Refines e p g t = elim (Bool-cases p.running) [
  | inl h ↦ simp h (live_step-Refines e p g t)
  | inr h ↦ simp h (idle p g)
]

run_both :
    (b : Broker.Broker) (es fs : List Broker.Event)
    → Broker.run b (es ++ fs) ≡ (
      (Broker.run (Broker.run b es).0 fs).0,
      (Broker.run b es).1 ++ (Broker.run (Broker.run b es).0 fs).1,
    )
unfolding Broker.run
run_both b [] fs = refl
run_both b (e ∷ es) fs = simp (run_both (Broker.step e b).0 es fs, append_assoc) refl

map-append : {A B : Type 0} (f : A → B) (xs ys : List A) → map f (xs ++ ys) ≡ map f xs ++ map f ys
map-append f [] ys = refl
map-append f (x ∷ xs) ys = ap (λ l. f x ∷ l) (map-append f xs ys)

messages_sent-append :
    (out outs : List Output) → messages_sent (out ++ outs) ≡ messages_sent out ++ messages_sent outs
messages_sent-append [] outs = refl
messages_sent-append (ports q ∷ out) outs = messages_sent-append out outs
messages_sent-append (message n m ∷ out) outs = ap (λ l. (n, m) ∷ l) (messages_sent-append out outs)

-- From a process in which each thread serves its own subscriber, and as long as a subscriber is
-- accepted only while fewer than 22767 have been, every thread has read its argument, and both new
-- threads are made, and each `send` of a message works: whatever else happens, also where the other
-- calls of the operating system fail or the process ends, what the threads share is what the broker comes to with the events that the steps
-- stand for, and the messages sent, each with its port, are the messages of the broker, each with
-- the port that its subscriber was given.
pub process_refines_broker :
    (es : List Event) (p : Process)
    → Good p
    → AllInTime p es
    → ((run p es).0.broker ≡ (Broker.run p.broker (abstracts p es)).0)
      × (messages_sent (run p es).1 ≡ map by_port (Broker.run p.broker (abstracts p es)).1)
unfolding run Broker.run
process_refines_broker [] p g t = (refl, refl)
process_refines_broker (e ∷ es) p g t =
    let r = step e p in
    let now = if p.running then abstract e p else [] in
    let first = step-Refines e p g t.0 in
    let (state, sent) = process_refines_broker es r.0 first.good t.1 in
    let both = run_both p.broker now (abstracts r.0 es) in
    (
      state
          ∙ sym (ap (λ b. (Broker.run b (abstracts r.0 es)).0) first.state)
          ∙ sym (ap (λ x. x.0) both),
      messages_sent-append r.1 (run r.0 es).1
          ∙ simp (both, map-append, first.state, first.sent, sent) refl,
    )
