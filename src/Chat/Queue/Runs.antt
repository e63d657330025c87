-- ===== src/Chat/Queue/Runs.antt =====
-- Whole sequences of calls of `enqueue` and `dequeue`.
use hyu_2021_network_protoco.Common.{
  ℕ, ◌+◌, ◌≤◌, ◌<◌, ◌≡◌, ◌⊎◌, inl, inr, ◌∙◌, refl, sym, ap, List, [], ◌∷◌, ◌++◌, append_assoc,
  append-nil, Option, none, some, if◌then◌else◌, ◌==◌, arith, Bool-cases, List-cases, length,
  get_elem?, get_or, get_or-get_elem?,
}
use hyu_2021_network_protoco.Chat.Queue.{
  Message, Queue, max_message_queue_size, nowhere, fresh, is_empty, insert, enqueue, remove,
  dequeue,
}
use hyu_2021_network_protoco.Chat.Queue.Fifo.{
  IsValid, no_message, held, contents, AtSeam, fresh-IsValid, enqueue-IsValid, dequeue-IsValid,
  enqueue_appends, enqueue_refuses, dequeue_takes, messages-dequeue, dequeue_holds_back,
}

-- A call of a receiver thread, or of the sender thread.
pub data Op : Type 0 where
  put : Message → Op
  get : Op

-- The messages that the calls accepted, those that they gave out, and the queue at the end.
pub record Trace : Type 0 where
  pub accepted : List Message
  pub delivered : List Message
  pub final : Queue

-- The message behind the pointer that `dequeue` returned.
abbrev pub given : Option ℕ × Queue → List Message
given (none, q) = []
given (some slot, q) = get_or q.messages slot no_message ∷ []

abbrev pub taken : Message → ℕ → List Message
taken m status = if status == 0 then m ∷ [] else []

unfoldable pub run : Queue → List Op → Trace
run q [] = record { accepted = []; delivered = []; final = q }
run q (put m ∷ ops) =
    let t = run (enqueue m q).1 ops in record t { accepted = taken m (enqueue m q).0 ++ t.accepted }
run q (get ∷ ops) =
    let t = run (dequeue q).1 ops in record t { delivered = given (dequeue q) ++ t.delivered }

-- No message comes in while the queue stands at the seam.
abbrev pub AwayFromSeam : Queue → List Op → Type 0
AwayFromSeam q [] = Unit
AwayFromSeam q (put m ∷ ops) = (¬ AtSeam q) × AwayFromSeam (enqueue m q).1 ops
AwayFromSeam q (get ∷ ops) = AwayFromSeam (dequeue q).1 ops

pub held-le : (q : Queue) → held q ≤ 100
held-le q = ground arith

put_conserves :
    (m : Message) (q : Queue)
    → IsValid q
    → ¬ AtSeam q
    → contents (enqueue m q).1 ≡ contents q ++ taken m (enqueue m q).0
put_conserves m q v away = elim (Bool-cases (held q == 100)) [
  | inl full ↦ rw (enqueue_refuses m q v (ground arith) away) (sym (append-nil (contents q)))
  | inr room ↦
      let small : held q < 100 = ground (arith, held-le q) in
      let (status, grown) = enqueue_appends m q v small in rw status grown
]

given_slot :
    (r : Option ℕ × Queue) (slot : ℕ) (x : Message)
    → r.0 ≡ some slot
    → get_elem? r.1.messages slot ≡ some x
    → given r ≡ x ∷ []
given_slot (none, q) slot x h k = absurd (cc h)
given_slot (some s, q) slot x h k = ground (arith, get_or-get_elem? q.messages slot no_message x k)

get_keeps :
    (q : Queue) → dequeue q ≡ (none, q) → contents q ≡ given (dequeue q) ++ contents (dequeue q).1
get_keeps q h = rw h refl

get_conserves : (q : Queue) → IsValid q → contents q ≡ given (dequeue q) ++ contents (dequeue q).1
get_conserves q v = elim (List-cases (contents q)) [
  | inl e ↦ get_keeps q (dequeue_holds_back q v (omega (arith, ap length e)))
  | inr (x, r, e) ↦ elim (List-cases r) [
    | inl k ↦ get_keeps q (dequeue_holds_back q v (omega (arith, ap length e, ap length k)))
    | inr (y, rest, k) ↦
        let shape = e ∙ ap (λ l. x ∷ l) k in
        let (slot, oldest, left) = dequeue_takes q x y rest v shape in
        let out =
          given_slot (dequeue q) q.front x slot
            (ap (λ l. get_elem? l q.front) (messages-dequeue q) ∙ oldest) in
        rw (out, left) shape
  ]
]

-- From a valid queue, for calls that bring no message in while the oldest stands in the first slot
-- and the newest in the last, no message is lost, repeated or overtaken: the messages that the
-- queue held at first, with those that it accepted, are those that it gave out, with those that it
-- holds at the end, in the same order.
pub run_conserves :
    (ops : List Op) (q : Queue)
    → IsValid q
    → AwayFromSeam q ops
    → let t = run q ops in contents q ++ t.accepted ≡ t.delivered ++ contents t.final
unfolding run
run_conserves [] q v away = append-nil (contents q)
run_conserves (put m ∷ ops) q v away =
    let t = run (enqueue m q).1 ops in
    sym (append_assoc (contents q) (taken m (enqueue m q).0) t.accepted)
    ∙ ap (λ l. l ++ t.accepted) (sym (put_conserves m q v away.0))
    ∙ run_conserves ops (enqueue m q).1 (enqueue-IsValid m q v) away.1
run_conserves (get ∷ ops) q v away =
    let t = run (dequeue q).1 ops in
    ap (λ l. l ++ t.accepted) (get_conserves q v)
    ∙ append_assoc (given (dequeue q)) (contents (dequeue q).1) t.accepted
    ∙ ap (λ l. given (dequeue q) ++ l) (run_conserves ops (dequeue q).1 (dequeue-IsValid q v) away)
    ∙ sym (append_assoc (given (dequeue q)) t.delivered (contents t.final))

-- The messages that the calls bring in.
abbrev pub puts : List Op → List Message
puts [] = []
puts (put m ∷ ops) = m ∷ puts ops
puts (get ∷ ops) = puts ops

-- A valid queue that has not gone round, after at most `k` calls of `enqueue`.
record Early (k : ℕ) (q : Queue) : Type 0 where
  valid : IsValid q
  few : (q.rear ≡ nowhere) ⊎ (q.rear < k)
  ordered : q.front ≤ q.rear

enqueue-Early :
    (k : ℕ) (m : Message) (q : Queue) → k < 100 → Early k q → Early (k + 1) (enqueue m q).1
unfolding enqueue insert
enqueue-Early k m q h early = record {
  valid = enqueue-IsValid m q early.valid;
  few = ground arith;
  ordered = ground arith;
}

dequeue-Early : (k : ℕ) (q : Queue) → k ≤ 100 → Early k q → Early k (dequeue q).1
unfolding dequeue remove is_empty
dequeue-Early k q h early = record {
  valid = dequeue-IsValid q early.valid;
  few = ground arith;
  ordered = ground arith;
}

Early-room : (k : ℕ) (q : Queue) → k < 100 → Early k q → (held q < 100) × (¬ AtSeam q)
Early-room k q h early = (ground arith, λ seam. ground arith)

Early-run :
    (ops : List Op) (k : ℕ) (q : Queue)
    → k + length (puts ops) ≤ 100
    → Early k q
    → ((run q ops).accepted ≡ puts ops) × AwayFromSeam q ops
unfolding run
Early-run [] k q h early = (refl, tt)
Early-run (put m ∷ ops) k q h early =
    let (room, away) = Early-room k q (omega arith) early in
    let (status, _) = enqueue_appends m q early.valid room in
    let (all, apart) =
      Early-run ops (k + 1) (enqueue m q).1 (omega arith)
        (enqueue-Early k m q (omega arith) early) in
    (rw (status, all) refl, (away, apart))
Early-run (get ∷ ops) k q h early =
    Early-run ops k (dequeue q).1 h (dequeue-Early k q (omega arith) early)

-- On a new queue, calls that bring in at most 100 messages in all, and take them out in any order of
-- calls: every message is accepted, and the messages given out, with those still held, are those that
-- were brought in, in the same order.
first_hundred :
    (memory : List Message) (ops : List Op)
    → length memory ≡ max_message_queue_size
    → length (puts ops) ≤ 100
    → let t = run (fresh memory) ops in
      (t.accepted ≡ puts ops) × (t.delivered ++ contents t.final ≡ puts ops)
first_hundred memory ops size few =
    let valid = fresh-IsValid memory size in
    let (all, away) =
      Early-run ops 0 (fresh memory) (omega arith)
        (record { valid = valid; few = inl refl; ordered = omega arith }) in
    (all, sym (run_conserves ops (fresh memory) valid away) ∙ all)
