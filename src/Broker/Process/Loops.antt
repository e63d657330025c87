-- ===== src/Broker/Process/Loops.antt =====
-- A turn of the loop of `handle_sender`, beside the event of the broker that it stands for.
use hyu_2021_network_protoco.Common.{
  ℕ, ◌+◌, ◌*◌, ◌≡◌, ◌∙◌, refl, sym, ap, subst, true, All, List, [], ◌∷◌, map, some, length-set,
  get_elem?, set, inl, inr, Option-cases,
}
use hyu_2021_network_protoco.Broker as Broker
use hyu_2021_network_protoco.Broker.{
  Message, Phase, away, waiting, woken, addressed, interests_of, set_user, send_topics,
}
use hyu_2021_network_protoco.Broker.Process.{
  Worker, starting, ended, opening, serving, Process, message, Result, Event, settled, spurious,
  resumed, Sending, send_all, send_new, set_phase, loop_step, at_loop, sender_step,
}
use hyu_2021_network_protoco.Broker.Process.Arguments.{user, Owns, Good}
use hyu_2021_network_protoco.Broker.Process.Abstraction.{
  messages_sent, by_port, act, IsWhole, Refines, broker_step, with_broker-Good, idle,
}

-- A sender thread in its loop.
set_phase-Good : (i : ℕ) (q : Phase) (p : Process) → Good p → Good (set_phase i q p)
set_phase-Good i q p g =
    with_broker-Good p (record p.broker { senders = set p.broker.senders i q }) g
      (refl, refl, length-set p.broker.senders i q)

messages_addressed :
    (i : ℕ) (ms : List Message)
    → map by_port (addressed i ms) ≡ messages_sent (map (λ m. message (20001 + 2 * i) m) ms)
messages_addressed i [] = refl
messages_addressed i (m ∷ ms) = ap (λ l. (20001 + 2 * i, m) ∷ l) (messages_addressed i ms)

send_all-whole :
    (outcomes : List Sending) (ms : List Message)
    → All IsWhole outcomes
    → send_all outcomes ms ≡ (ms, true)
unfolding send_all
send_all-whole outcomes [] w = refl
send_all-whole [] (m ∷ ms) w = refl
send_all-whole (o ∷ outcomes) (m ∷ ms) w = rw (w.0, send_all-whole outcomes ms w.1) refl

-- What a turn in which each `send` works leaves.
abbrev after_turn : ℕ → Process → Process
after_turn i p =
    let (topics, mine, out) = send_topics p.broker.topics (interests_of i p.broker) in
    record p {
      broker = record (set_user i mine p.broker) {
        topics = topics;
        senders = set p.broker.senders i away;
      };
    }

sends-Good : (i : ℕ) (p : Process) → Good p → Good (after_turn i p)
sends-Good i p g =
    with_broker-Good p (after_turn i p).broker g (refl, refl, length-set p.broker.senders i away)

-- A turn of the loop of thread `i` does what the broker's event does in the same phase.
record SameTurn (i : ℕ) (p : Process) (r : Result) (b : Broker.Result) : Type 0 where
  good : Good r.0
  state : b.0 ≡ r.0.broker
  sent : map by_port b.1 ≡ messages_sent r.1

stays : (i : ℕ) (p : Process) → Good p → SameTurn i p (p, []) (p.broker, [])
stays i p g = record { good = g; state = refl; sent = refl }

settles :
    (i : ℕ) (q : Phase) (p : Process)
    → Good p
    → SameTurn i p
        (loop_step (settled i) q (user 20001 i) p)
        (Broker.sender_step (Broker.settled i) q p.broker)
unfolding loop_step Broker.sender_step
settles i away p g = record { good = set_phase-Good i waiting p g; state = refl; sent = refl }
settles i waiting p g = stays i p g
settles i woken p g = stays i p g

wakes :
    (i : ℕ) (q : Phase) (p : Process)
    → Good p
    → SameTurn i p
        (loop_step (spurious i) q (user 20001 i) p)
        (Broker.sender_step (Broker.spurious i) q p.broker)
unfolding loop_step Broker.sender_step
wakes i waiting p g = record { good = set_phase-Good i woken p g; state = refl; sent = refl }
wakes i away p g = stays i p g
wakes i woken p g = stays i p g

resumes :
    (i : ℕ) (outcomes : List Sending) (q : Phase) (p : Process)
    → Good p
    → All IsWhole outcomes
    → SameTurn i p
        (loop_step (resumed i outcomes) q (user 20001 i) p)
        (Broker.sender_step (Broker.resumed i) q p.broker)
unfolding loop_step Broker.sender_step send_new Broker.send_new
resumes i outcomes woken p g w =
    let out = (send_topics p.broker.topics (interests_of i p.broker)).2 in
    rw (send_all-whole outcomes out w)
      (record { good = sends-Good i p g; state = refl; sent = messages_addressed i out })
resumes i outcomes away p g w = stays i p g
resumes i outcomes waiting p g w = stays i p g

turn-Refines :
    (i : ℕ) (e : Event) (e' : Broker.Event) (p : Process)
    → Good p
    → Broker.step e' p.broker ≡ Broker.at_sender i e' p.broker
    → ((q : Phase)
        → SameTurn i p (loop_step e q (user 20001 i) p) (Broker.sender_step e' q p.broker))
    → Refines p (at_loop i e (user 20001 i) p) (e' ∷ [])
unfolding at_loop Broker.at_sender
turn-Refines i e e' p g same t = elim (Option-cases (get_elem? p.broker.senders i)) [
  | inl h ↦
      let none_here : Broker.at_sender i e' p.broker ≡ (p.broker, []) =
        rw (h, Broker.at_sender) refl in
      let still : at_loop i e (user 20001 i) p ≡ (p, []) = rw (h, at_loop) refl in
      let both = same ∙ none_here in
      subst (λ r. Refines p r (e' ∷ [])) (sym still)
        (broker_step p (p, []) e' g (ap (λ x. x.0) both) (ap (λ x. map by_port x.1) both))
  | inr (q, h) ↦
      let here : Broker.at_sender i e' p.broker ≡ Broker.sender_step e' q p.broker =
        rw (h, Broker.at_sender) refl in
      let turn : at_loop i e (user 20001 i) p ≡ loop_step e q (user 20001 i) p =
        rw (h, at_loop) refl in
      let both = same ∙ here in
      subst (λ r. Refines p r (e' ∷ [])) (sym turn)
        (broker_step p (loop_step e q (user 20001 i) p) e' (t q).good
          (ap (λ x. x.0) both ∙ (t q).state) (ap (λ x. map by_port x.1) both ∙ (t q).sent))
]

-- A thread that is in its loop.
pub settling :
    (i : ℕ) (w : Worker) (p : Process)
    → Good p
    → Owns 20001 p.data_sender i w
    → Refines p (sender_step i (settled i) w p) (act (Broker.settled i) (some w))
unfolding sender_step Broker.step
settling i (serving u) p g o =
    subst (λ v. Refines p (at_loop i (settled i) v p) (Broker.settled i ∷ [])) (sym o)
      (turn-Refines i (settled i) (Broker.settled i) p g refl (λ q. settles i q p g))
settling i starting p g o = idle p g
settling i ended p g o = idle p g
settling i (opening u) p g o = idle p g

pub waking :
    (i : ℕ) (w : Worker) (p : Process)
    → Good p
    → Owns 20001 p.data_sender i w
    → Refines p (sender_step i (spurious i) w p) (act (Broker.spurious i) (some w))
unfolding sender_step Broker.step
waking i (serving u) p g o =
    subst (λ v. Refines p (at_loop i (spurious i) v p) (Broker.spurious i ∷ [])) (sym o)
      (turn-Refines i (spurious i) (Broker.spurious i) p g refl (λ q. wakes i q p g))
waking i starting p g o = idle p g
waking i ended p g o = idle p g
waking i (opening u) p g o = idle p g

pub resuming :
    (i : ℕ) (outcomes : List Sending) (w : Worker) (p : Process)
    → Good p
    → All IsWhole outcomes
    → Owns 20001 p.data_sender i w
    → Refines p (sender_step i (resumed i outcomes) w p) (act (Broker.resumed i) (some w))
unfolding sender_step Broker.step
resuming i outcomes (serving u) p g works o =
    subst (λ v. Refines p (at_loop i (resumed i outcomes) v p) (Broker.resumed i ∷ [])) (sym o)
      (turn-Refines i (resumed i outcomes) (Broker.resumed i) p g refl
        (λ q. resumes i outcomes q p g works))
resuming i outcomes starting p g works o = idle p g
resuming i outcomes ended p g works o = idle p g
resuming i outcomes (opening u) p g works o = idle p g
