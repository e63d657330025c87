-- ===== src/Broker/Process/Receivers.antt =====
-- The steps of the threads of `handle_receiver`, beside the events of the broker.
use hyu_2021_network_protoco.Common.{
  ℕ, ◌≡◌, ◌∙◌, refl, sym, ap, subst, Bool, true, false, List, [], ◌∷◌, Option, none, some, arith,
  length-set, get_elem?, inl, inr, Option-cases,
}
use hyu_2021_network_protoco.Clib.Text.{Text}
use hyu_2021_network_protoco.Broker as Broker
use hyu_2021_network_protoco.Broker.{ask}
use hyu_2021_network_protoco.Broker.Process.{
  Worker, starting, ended, opening, serving, Process, Opens, Opened, exits, returns, opens, Event,
  receiver_opens, receiver_accepts, received, open_socket, open_receiver, accept_receiver,
  receive_topic, set_receiver, receiver_step, at_receiver,
}
use hyu_2021_network_protoco.Broker.Process.Arguments.{
  user, Owns, AllOwn-get_elem?, AllOwn-set, Good,
}
use hyu_2021_network_protoco.Broker.Process.Abstraction.{
  act, abstract, Refines, quiet, broker_step, ask-SameCounts, with_broker-Good, idle, exit-Refines,
}

set_receiver-Good :
    (i : ℕ) (w : Worker) (p : Process)
    → Good p
    → Owns 20000 p.data_receiver i w
    → Good (set_receiver i w p)
set_receiver-Good i w p g o = record {
  senders = g.senders;
  receivers = AllOwn-set 20000 p.data_receiver p.receivers 0 i i w (omega arith) g.receivers o;
  paired = length-set p.receivers i w ∙ g.paired;
  next_id = g.next_id;
  next_port = g.next_port;
  phases = g.phases;
}

sets_receiver :
    (i : ℕ) (w : Worker) (p : Process)
    → Good p
    → Owns 20000 p.data_receiver i w
    → Refines p (set_receiver i w p, []) []
sets_receiver i w p g o = quiet p (set_receiver i w p) (set_receiver-Good i w p g o) refl

open_receiver-Refines :
    (i : ℕ) (x : Opened) (p : Process)
    → Good p
    → Owns 20000 p.data_receiver i starting
    → Refines p (open_receiver i x p, []) []
unfolding open_receiver
open_receiver-Refines i exits p g own = exit-Refines p g
open_receiver-Refines i returns p g own = sets_receiver i ended p g tt
open_receiver-Refines i opens p g own = sets_receiver i (opening p.data_receiver) p g own

opening_receiver :
    (i : ℕ) (o : Opens) (w : Worker) (p : Process)
    → Good p
    → Owns 20000 p.data_receiver i w
    → Refines p (receiver_step i (receiver_opens i o) w p, []) []
unfolding receiver_step
opening_receiver i o starting p g own = open_receiver-Refines i (open_socket o) p g own
opening_receiver i o ended p g own = idle p g
opening_receiver i o (opening u) p g own = idle p g
opening_receiver i o (serving u) p g own = idle p g

accepting_receiver :
    (i : ℕ) (ok : Bool) (w : Worker) (p : Process)
    → Good p
    → Owns 20000 p.data_receiver i w
    → Refines p (receiver_step i (receiver_accepts i ok) w p, []) []
unfolding receiver_step accept_receiver
accepting_receiver i true (opening u) p g own = sets_receiver i (serving u) p g own
accepting_receiver i false (opening u) p g own = exit-Refines p g
accepting_receiver i ok starting p g own = idle p g
accepting_receiver i ok ended p g own = idle p g
accepting_receiver i ok (serving u) p g own = idle p g

asks-Refines :
    (i : ℕ) (t : Text) (p : Process)
    → Good p
    → Refines p (receive_topic (user 20000 i) (some t) p, []) (Broker.asked i t ∷ [])
unfolding receive_topic Broker.step
asks-Refines i t p g =
    broker_step p _ (Broker.asked i t)
      (with_broker-Good p (ask i t p.broker) g (ask-SameCounts i t p.broker)) refl refl

asking :
    (i : ℕ) (t : Text) (w : Worker) (p : Process)
    → Good p
    → Owns 20000 p.data_receiver i w
    → Refines p (receiver_step i (received i (some t)) w p, []) (act (Broker.asked i t) (some w))
unfolding receiver_step
asking i t (serving u) p g own =
    subst (λ v. Refines p (receive_topic v (some t) p, []) (Broker.asked i t ∷ [])) (sym own)
      (asks-Refines i t p g)
asking i t starting p g own = idle p g
asking i t ended p g own = idle p g
asking i t (opening u) p g own = idle p g

failing :
    (i : ℕ) (w : Worker) (p : Process)
    → Good p
    → Refines p (receiver_step i (received i none) w p, []) []
unfolding receiver_step receive_topic
failing i (serving u) p g = exit-Refines p g
failing i starting p g = idle p g
failing i ended p g = idle p g
failing i (opening u) p g = idle p g

-- The thread that an event is of, if there is one.
at_receiver-Refines :
    (i : ℕ) (e : Event) (f : Option Worker → List Broker.Event) (p : Process)
    → Good p
    → f none ≡ []
    → ((w : Worker)
        → Owns 20000 p.data_receiver i w
        → Refines p (receiver_step i e w p, []) (f (some w)))
    → Refines p (at_receiver i e p) (f (get_elem? p.receivers i))
unfolding at_receiver
at_receiver-Refines i e f p g z t = elim (Option-cases (get_elem? p.receivers i)) [
  | inl h ↦
      let still : at_receiver i e p ≡ (p, []) = rw (h, at_receiver) refl in
      subst (λ r. Refines p r (f (get_elem? p.receivers i))) (sym still)
        (subst (λ es. Refines p (p, []) es) (sym (ap f h ∙ z)) (idle p g))
  | inr (w, h) ↦
      let turn : at_receiver i e p ≡ (receiver_step i e w p, []) = rw (h, at_receiver) refl in
      let own =
        AllOwn-get_elem? 20000 p.data_receiver p.receivers 0 i i w (omega arith) g.receivers h in
      subst (λ r. Refines p r (f (get_elem? p.receivers i))) (sym turn)
        (subst (λ es. Refines p (receiver_step i e w p, []) es) (sym (ap f h)) (t w own))
]

pub receiver_opens-Refines :
    (i : ℕ) (o : Opens) (p : Process) → Good p → Refines p (at_receiver i (receiver_opens i o) p) []
receiver_opens-Refines i o p g =
    at_receiver-Refines i (receiver_opens i o) (λ x. []) p g refl
      (λ w own. opening_receiver i o w p g own)

pub receiver_accepts-Refines :
    (i : ℕ) (ok : Bool) (p : Process)
    → Good p
    → Refines p (at_receiver i (receiver_accepts i ok) p) []
receiver_accepts-Refines i ok p g =
    at_receiver-Refines i (receiver_accepts i ok) (λ x. []) p g refl
      (λ w own. accepting_receiver i ok w p g own)

pub received-Refines :
    (i : ℕ) (t : Option Text) (p : Process)
    → Good p
    → Refines p (at_receiver i (received i t) p) (abstract (received i t) p)
received-Refines i none p g =
    at_receiver-Refines i (received i none) (λ x. []) p g refl (λ w own. failing i w p g)
received-Refines i (some t) p g =
    at_receiver-Refines i (received i (some t)) (act (Broker.asked i t)) p g refl
      (λ w own. asking i t w p g own)
