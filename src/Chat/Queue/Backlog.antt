-- ===== src/Chat/Queue/Backlog.antt =====
-- The message queue as an implementation of a plain backlog: a list of messages that takes at most 100, and
-- keeps the last one back.
use hyu_2021_network_protoco.Common.{
  ℕ, ◌<◌, ◌≡◌, inl, inr, ◌∙◌, refl, ap, List, [], ◌∷◌, ◌++◌, Option, none, some, if◌then◌else◌,
  ◌==◌, arith, Bool-cases, List-cases, length, get_elem?, get_or, get_or-get_elem?,
}
use hyu_2021_network_protoco.Chat.Queue.{
  Message, Queue, max_message_queue_size, nowhere, enqueue, dequeue,
}
use hyu_2021_network_protoco.Chat.Queue.Slots.{length-slots}
use hyu_2021_network_protoco.Chat.Queue.Fifo.{
  IsValid, no_message, held, contents, AtSeam, enqueue-IsValid, dequeue-IsValid, enqueue_appends,
  enqueue_refuses, dequeue_takes, messages-dequeue, dequeue_holds_back,
}
use hyu_2021_network_protoco.Chat.Queue.Runs.{Op, put, get, AwayFromSeam, held-le}

-- What the caller of an operation sees: the status of `enqueue`, or what `dequeue` returns, with the message
-- behind the pointer.
pub data Seen : Type 0 where
  status : ℕ → Seen
  got : Option Message → Seen

-- A step of the abstract backlog.
unfoldable pub backlog_step : Op → List Message → Seen × List Message
backlog_step (put m) l =
    if length l == max_message_queue_size then (status nowhere, l) else (status 0, l ++ m ∷ [])
backlog_step get [] = (got none, [])
backlog_step get (x ∷ []) = (got none, x ∷ [])
backlog_step get (x ∷ y ∷ l) = (got (some x), y ∷ l)

unfoldable pub backlog : List Op → List Message → List Seen × List Message
backlog [] l = ([], l)
backlog (op ∷ ops) l =
    let (s, k) = backlog_step op l in let (seen, end) = backlog ops k in (s ∷ seen, end)

abbrev pub pointed : Option ℕ × Queue → Option Message
pointed (none, q) = none
pointed (some slot, q) = some (get_or q.messages slot no_message)

abbrev pub queue_step : Op → Queue → Seen × Queue
queue_step (put m) q = (status (enqueue m q).0, (enqueue m q).1)
queue_step get q = (got (pointed (dequeue q)), (dequeue q).1)

unfoldable pub calls : List Op → Queue → List Seen × Queue
calls [] q = ([], q)
calls (op ∷ ops) q =
    let (s, r) = queue_step op q in let (seen, end) = calls ops r in (s ∷ seen, end)

-- A step of the queue is a step of the backlog.
abbrev Steps : Op → Queue → Type 0
Steps op q = let (s, r) = queue_step op q in backlog_step op (contents q) ≡ (s, contents r)

put-Steps : (m : Message) (q : Queue) → IsValid q → ¬ AtSeam q → Steps (put m) q
unfolding backlog_step
put-Steps m q v away =
    let count = length-slots no_message q.messages q.front (held q) in
    elim (Bool-cases (held q == 100)) [
      | inl full ↦
          let same = enqueue_refuses m q v (ground arith) away in ground (arith, count, same)
      | inr room ↦
          let small : held q < 100 = ground (arith, held-le q) in
          let (accepted, grown) = enqueue_appends m q v small in
          ground (arith, count, accepted, grown)
    ]

points :
    (r : Option ℕ × Queue) (slot : ℕ) (x : Message)
    → r.0 ≡ some slot
    → get_elem? r.1.messages slot ≡ some x
    → pointed r ≡ some x
points (none, q) slot x h k = absurd (cc h)
points (some s, q) slot x h k = ground (arith, get_or-get_elem? q.messages slot no_message x k)

holds_back :
    (q : Queue) (l : List Message)
    → contents q ≡ l
    → dequeue q ≡ (none, q)
    → backlog_step get l ≡ (got none, l)
    → Steps get q
holds_back q l e h k = simp (h, e) k

get-Steps : (q : Queue) → IsValid q → Steps get q
unfolding backlog_step
get-Steps q v = elim (List-cases (contents q)) [
  | inl e ↦ holds_back q [] e (dequeue_holds_back q v (omega (arith, ap length e))) refl
  | inr (x, r, e) ↦ elim (List-cases r) [
    | inl k ↦
        holds_back q (x ∷ []) (e ∙ ap (λ l. x ∷ l) k)
          (dequeue_holds_back q v (omega (arith, ap length e, ap length k))) refl
    | inr (y, rest, k) ↦
        let shape = e ∙ ap (λ l. x ∷ l) k in
        let (slot, oldest, left) = dequeue_takes q x y rest v shape in
        let out =
          points (dequeue q) q.front x slot
            (ap (λ l. get_elem? l q.front) (messages-dequeue q) ∙ oldest) in
        simp (shape, out, left) refl
  ]
]

step-Steps :
    (op : Op) (q : Queue) (ops : List Op) → IsValid q → AwayFromSeam q (op ∷ ops) → Steps op q
step-Steps (put m) q ops v away = put-Steps m q v away.0
step-Steps get q ops v away = get-Steps q v

next :
    (op : Op) (q : Queue) (ops : List Op)
    → IsValid q
    → AwayFromSeam q (op ∷ ops)
    → IsValid (queue_step op q).1 × AwayFromSeam (queue_step op q).1 ops
next (put m) q ops v away = (enqueue-IsValid m q v, away.1)
next get q ops v away = (dequeue-IsValid q v, away)

-- Away from the seam the circular array implements the backlog: from a valid queue, for calls that bring no
-- message in while the oldest stands in the first slot and the newest in the last, every status and every
-- message that the callers see is that of the backlog which holds the messages of the queue, and the messages at
-- the end are those of the backlog at the end.
pub calls_refine_backlog :
    (ops : List Op) (q : Queue)
    → IsValid q
    → AwayFromSeam q ops
    → backlog ops (contents q) ≡ ((calls ops q).0, contents (calls ops q).1)
unfolding backlog calls
calls_refine_backlog [] q v away = refl
calls_refine_backlog (op ∷ ops) q v away =
    let (w, apart) = next op q ops v away in
    simp (step-Steps op q ops v away, calls_refine_backlog ops (queue_step op q).1 w apart) refl
