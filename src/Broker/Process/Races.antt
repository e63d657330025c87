-- ===== src/Broker/Process/Races.antt =====
-- What happens to the arguments of the threads of the broker when they are not read in time.
use hyu_2021_network_protoco.Common.{
  suc, ◌+◌, ◌≡◌, ◌∙◌, refl, ap, true, List, [], ◌∷◌, ◌++◌, some, arith, length, get_elem?, set,
}
use hyu_2021_network_protoco.Clib.Decimal.{int32}
use hyu_2021_network_protoco.Broker.{accept}
use hyu_2021_network_protoco.Broker.Process.{
  User, Worker, starting, opening, accepting, Process, Event, Output, subscriber_accepts,
  sender_opens, serve_subscriber, open_sender, sender_step, at_sender, subscriber_step, live_step,
  step, run,
}

-- A list with a value behind another list, and one more behind that.
second_last :
    {A : Type 0} (l : List A) (a b : A) → get_elem? ((l ++ a ∷ []) ++ b ∷ []) (length l) ≡ some a
second_last [] a b = refl
second_last (x ∷ l) a b = second_last l a b

set-second_last :
    {A : Type 0} (l : List A) (a b c : A)
    → set ((l ++ a ∷ []) ++ b ∷ []) (length l) c ≡ (l ++ c ∷ []) ++ b ∷ []
set-second_last [] a b c = refl
set-second_last (x ∷ l) a b c = ap (λ r. x ∷ r) (set-second_last l a b c)

last_of_two :
    {A : Type 0} (l : List A) (a b : A)
    → get_elem? ((l ++ a ∷ []) ++ b ∷ []) (suc (length l)) ≡ some b
last_of_two [] a b = refl
last_of_two (x ∷ l) a b = last_of_two l a b

set-last_of_two :
    {A : Type 0} (l : List A) (a b c : A)
    → set ((l ++ a ∷ []) ++ b ∷ []) (suc (length l)) c ≡ (l ++ a ∷ []) ++ c ∷ []
set-last_of_two [] a b c = refl
set-last_of_two (x ∷ l) a b c = ap (λ r. x ∷ r) (set-last_of_two l a b c)

-- A process with two more sender threads behind those of `l`.
abbrev with_two : Process → List Worker → Worker → Worker → Process
with_two p l a b = record p { senders = (l ++ a ∷ []) ++ b ∷ [] }

first_opens :
    (p : Process) (l : List Worker)
    → p.running ≡ true
    → step (sender_opens (length l) true true) (with_two p l starting starting)
      ≡ (with_two p l (opening p.data_sender) starting, [])
unfolding step live_step at_sender sender_step open_sender
first_opens p l live = ground (
  arith,
  live,
  second_last l starting starting,
  set-second_last l starting starting (opening p.data_sender),
)

second_opens :
    (p : Process) (l : List Worker) (w : Worker)
    → p.running ≡ true
    → step (sender_opens (suc (length l)) true true) (with_two p l w starting)
      ≡ (with_two p l w (opening p.data_sender), [])
unfolding step live_step at_sender sender_step open_sender
second_opens p l w live =
    ground
      (arith, live, last_of_two l w starting, set-last_of_two l w starting (opening p.data_sender))

accepts_step :
    (p : Process)
    → p.running ≡ true
    → p.subscriber_handler ≡ accepting
    → step (subscriber_accepts true true true) p ≡ serve_subscriber true true true p
unfolding step live_step subscriber_step
accepts_step p live ready = ground (arith, live, ready)

run-cons :
    (e : Event) (es : List Event) (p q r : Process) (out : List Output)
    → step e p ≡ (q, out)
    → (run q es).0 ≡ r
    → (run p (e ∷ es)).0 ≡ r
unfolding run
run-cons e es p q r out h k = rw h k

run-nil : (p : Process) → (run p []).0 ≡ p
unfolding run
run-nil p = refl

-- The argument of the sender thread of the subscriber that is accepted next but one.
abbrev pub later_user : Process → User
later_user p = record {
  port = int32 (int32 (p.broker.port_for_each_subscriber + 2) + 1);
  id = int32 (p.broker.subscriber_idx + 1);
}

-- If two subscribers are accepted before the sender threads that were created for them read their arguments, both
-- threads go on with the port and the number of the second one: no thread sends to the first.
pub two_accepted_share :
    (p : Process)
    → p.running ≡ true
    → p.subscriber_handler ≡ accepting
    → let n = length p.senders in
      let q =
        (run p (
          subscriber_accepts true true true
          ∷ subscriber_accepts true true true
          ∷ sender_opens n true true
          ∷ sender_opens (suc n) true true
          ∷ [])).0 in
      (get_elem? q.senders n ≡ some (opening (later_user p)))
      × (get_elem? q.senders (suc n) ≡ some (opening (later_user p)))
unfolding serve_subscriber accept
two_accepted_share p live ready =
    let l = p.senders in
    let u = later_user p in
    let p1 = (serve_subscriber true true true p).0 in
    let p2 = (serve_subscriber true true true p1).0 in
    let end = run-cons _ _ p _ _ _ (accepts_step p live ready) (
      run-cons _ _ p1 _ _ _ (accepts_step p1 live ready) (
        run-cons _ _ p2 _ _ _ (first_opens p2 l live) (
          run-cons _ _ _ _ _ _ (second_opens p2 l (opening u) live)
            (run-nil (with_two p2 l (opening u) (opening u)))))) in
    (
      ap (λ q. get_elem? q.senders (length l)) end ∙ second_last l (opening u) (opening u),
      ap (λ q. get_elem? q.senders (suc (length l))) end ∙ last_of_two l (opening u) (opening u),
    )
