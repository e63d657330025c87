-- ===== src/Broker/Process/Arguments.antt =====
-- Which subscriber the threads of the broker serve: the one that they were created for, if each reads its
-- argument in time.
use hyu_2021_network_protoco.Common.{
  ℕ, zero, suc, ◌+◌, ◌*◌, ◌≡◌, ◌∙◌, ap, subst, List, [], ◌∷◌, ◌++◌, some, arith, All, length,
  get_elem?, set,
}
use hyu_2021_network_protoco.Broker.Process.{
  User, Worker, starting, ended, opening, serving, Process,
}

-- Subscriber `i`, with its port above the first one of a kind.
abbrev pub user : ℕ → ℕ → User
user base i = record { port = base + 2 * i; id = i }

-- A thread serves the subscriber whose number is its own, or will, when the variable holds `slot`.
abbrev pub Owns : ℕ → User → ℕ → Worker → Type 0
Owns base slot i starting = slot ≡ user base i
Owns base slot i ended = Unit
Owns base slot i (opening u) = u ≡ user base i
Owns base slot i (serving u) = u ≡ user base i

abbrev pub AllOwn : ℕ → User → ℕ → List Worker → Type 0
AllOwn base slot k [] = Unit
AllOwn base slot k (w ∷ ws) = Owns base slot k w × AllOwn base slot (k + 1) ws

abbrev pub HasStarted : Worker → Type 0
HasStarted starting = ⊥
HasStarted _ = Unit

module _ (base : ℕ) (slot : User) where
  pub AllOwn-get_elem? :
      (ws : List Worker) (k i j : ℕ) (w : Worker)
      → j ≡ k + i
      → AllOwn base slot k ws
      → get_elem? ws i ≡ some w
      → Owns base slot j w
  AllOwn-get_elem? [] k i j w e h g = absurd (cc g)
  AllOwn-get_elem? (x ∷ ws) k zero j w e h g =
      let same : x ≡ w = cc in
      let here : k ≡ j = omega arith in
      subst (λ y. Owns base slot j y) same (subst (λ n. Owns base slot n x) here h.0)
  AllOwn-get_elem? (x ∷ ws) k (suc i) j w e h g =
      AllOwn-get_elem? ws (k + 1) i j w (omega arith) h.1 g

  pub AllOwn-set :
      (ws : List Worker) (k i j : ℕ) (w : Worker)
      → j ≡ k + i
      → AllOwn base slot k ws
      → Owns base slot j w
      → AllOwn base slot k (set ws i w)
  AllOwn-set [] k i j w e h o = h
  AllOwn-set (x ∷ ws) k zero j w e h o =
      let here : j ≡ k = omega arith in (subst (λ n. Owns base slot n w) here o, h.1)
  AllOwn-set (x ∷ ws) k (suc i) j w e h o = (h.0, AllOwn-set ws (k + 1) i j w (omega arith) h.1 o)

  kept : (next : User) (k : ℕ) (w : Worker) → HasStarted w → Owns base slot k w → Owns base next k w
  kept next k starting s o = absurd s
  kept next k ended s o = tt
  kept next k (opening u) s o = o
  kept next k (serving u) s o = o

  -- A new thread, when all others have read their argument.
  pub AllOwn-snoc :
      (next : User) (ws : List Worker) (k : ℕ)
      → All HasStarted ws
      → AllOwn base slot k ws
      → next ≡ user base (k + length ws)
      → AllOwn base next k (ws ++ starting ∷ [])
  AllOwn-snoc next [] k s h e = (e ∙ ap (user base) {y = k} (omega arith), tt)
  AllOwn-snoc next (w ∷ ws) k s h e = (
    kept next k w s.0 h.0,
    AllOwn-snoc next ws (k + 1) s.1 h.1
        (e ∙ ap (user base) {x = k + length (w ∷ ws)} {y = k + 1 + length ws} (omega arith)),
  )

-- The invariant: sender thread and receiver thread `i` serve subscriber `i`, to which the ports 20000 + 2 i and
-- 20001 + 2 i were given.
pub record Good (p : Process) : Type 0 where
  pub senders : AllOwn 20001 p.data_sender 0 p.senders
  pub receivers : AllOwn 20000 p.data_receiver 0 p.receivers
  pub paired : length p.receivers ≡ length p.senders
  pub next_id : p.broker.subscriber_idx ≡ length p.senders
  pub next_port : p.broker.port_for_each_subscriber ≡ 20000 + 2 * length p.senders
  pub phases : length p.broker.senders ≡ length p.senders
