-- ===== src/Broker/Process/Senders.antt =====
-- The steps of the threads of `handle_sender`, beside the events of the broker.
use hyu_2021_network_protoco.Common.{
  ℕ, ◌+◌, ◌*◌, ◌≡◌, ◌∙◌, refl, sym, ap, subst, Bool, true, false, List, [], Option, none, some, All,
  arith, length-set, get_elem?, inl, inr, Option-cases,
}
use hyu_2021_network_protoco.Broker as Broker
use hyu_2021_network_protoco.Broker.{
  Message, Phase, away, waiting, woken, addressed, interests_of, send_topics,
}
use hyu_2021_network_protoco.Broker.Process.{
  Sending, Worker, starting, ended, opening, serving, Process, Event, sender_opens, sender_connects,
  settled, spurious, resumed, open_sender, connect_sender, set_sender, sender_step, at_sender,
}
use hyu_2021_network_protoco.Broker.Process.Arguments.{Owns, AllOwn-get_elem?, AllOwn-set, Good}
use hyu_2021_network_protoco.Broker.Process.Abstraction.{
  act, abstract, IsWhole, Refines, quiet, idle, exit-Refines,
}
use hyu_2021_network_protoco.Broker.Process.Loops.{settling, waking, resuming}

set_sender-Good :
    (i : ℕ) (w : Worker) (p : Process)
    → Good p
    → Owns 20001 p.data_sender i w
    → Good (set_sender i w p)
set_sender-Good i w p g o =
    let same = length-set p.senders i w in
    record {
      senders = AllOwn-set 20001 p.data_sender p.senders 0 i i w (omega arith) g.senders o;
      receivers = g.receivers;
      paired = g.paired ∙ sym same;
      next_id = g.next_id ∙ sym same;
      next_port = g.next_port ∙ ap (λ n. 20000 + 2 * n) (sym same);
      phases = g.phases ∙ sym same;
    }

sets_sender :
    (i : ℕ) (w : Worker) (p : Process)
    → Good p
    → Owns 20001 p.data_sender i w
    → Refines p (set_sender i w p, []) []
sets_sender i w p g o = quiet p (set_sender i w p) (set_sender-Good i w p g o) refl

-- A thread on its way to its loop. What it reads of its argument is its own subscriber.
opening_sender :
    (i : ℕ) (s o : Bool) (w : Worker) (p : Process)
    → Good p
    → Owns 20001 p.data_sender i w
    → Refines p (sender_step i (sender_opens i s o) w p) []
unfolding sender_step open_sender
opening_sender i true true starting p g own = sets_sender i (opening p.data_sender) p g own
opening_sender i true false starting p g own = sets_sender i ended p g tt
opening_sender i false o starting p g own = exit-Refines p g
opening_sender i s o ended p g own = idle p g
opening_sender i s o (opening u) p g own = idle p g
opening_sender i s o (serving u) p g own = idle p g

connecting_sender :
    (i : ℕ) (ok : Bool) (w : Worker) (p : Process)
    → Good p
    → Owns 20001 p.data_sender i w
    → Refines p (sender_step i (sender_connects i ok) w p) []
unfolding sender_step connect_sender
connecting_sender i true (opening u) p g own = sets_sender i (serving u) p g own
connecting_sender i false (opening u) p g own = exit-Refines p g
connecting_sender i ok starting p g own = idle p g
connecting_sender i ok ended p g own = idle p g
connecting_sender i ok (serving u) p g own = idle p g

-- The thread that an event is of, if there is one.
at_sender-Refines :
    (i : ℕ) (e : Event) (f : Option Worker → List Broker.Event) (p : Process)
    → Good p
    → f none ≡ []
    → ((w : Worker) → Owns 20001 p.data_sender i w → Refines p (sender_step i e w p) (f (some w)))
    → Refines p (at_sender i e p) (f (get_elem? p.senders i))
unfolding at_sender
at_sender-Refines i e f p g z t = elim (Option-cases (get_elem? p.senders i)) [
  | inl h ↦
      let still : at_sender i e p ≡ (p, []) = rw (h, at_sender) refl in
      subst (λ r. Refines p r (f (get_elem? p.senders i))) (sym still)
        (subst (λ es. Refines p (p, []) es) (sym (ap f h ∙ z)) (idle p g))
  | inr (w, h) ↦
      let turn : at_sender i e p ≡ sender_step i e w p = rw (h, at_sender) refl in
      let own = AllOwn-get_elem? 20001 p.data_sender p.senders 0 i i w (omega arith) g.senders h in
      subst (λ r. Refines p r (f (get_elem? p.senders i))) (sym turn)
        (subst (λ es. Refines p (sender_step i e w p) es) (sym (ap f h)) (t w own))
]

pub settled-Refines :
    (i : ℕ) (p : Process) → Good p → Refines p (at_sender i (settled i) p) (abstract (settled i) p)
settled-Refines i p g =
    at_sender-Refines i (settled i) (act (Broker.settled i)) p g refl (λ w o. settling i w p g o)

pub spurious-Refines :
    (i : ℕ) (p : Process)
    → Good p
    → Refines p (at_sender i (spurious i) p) (abstract (spurious i) p)
spurious-Refines i p g =
    at_sender-Refines i (spurious i) (act (Broker.spurious i)) p g refl (λ w o. waking i w p g o)

pub resumed-Refines :
    (i : ℕ) (outcomes : List Sending) (p : Process)
    → Good p
    → All IsWhole outcomes
    → Refines p (at_sender i (resumed i outcomes) p) (abstract (resumed i outcomes) p)
resumed-Refines i outcomes p g works =
    at_sender-Refines i (resumed i outcomes) (act (Broker.resumed i)) p g refl
      (λ w o. resuming i outcomes w p g works o)

pub sender_opens-Refines :
    (i : ℕ) (s o : Bool) (p : Process) → Good p → Refines p (at_sender i (sender_opens i s o) p) []
sender_opens-Refines i s o p g =
    at_sender-Refines i (sender_opens i s o) (λ x. []) p g refl
      (λ w own. opening_sender i s o w p g own)

pub sender_connects-Refines :
    (i : ℕ) (ok : Bool) (p : Process) → Good p → Refines p (at_sender i (sender_connects i ok) p) []
sender_connects-Refines i ok p g =
    at_sender-Refines i (sender_connects i ok) (λ x. []) p g refl
      (λ w own. connecting_sender i ok w p g own)
