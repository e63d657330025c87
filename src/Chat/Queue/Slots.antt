-- ===== src/Chat/Queue/Slots.antt =====
-- The slots of the circular array from an index on.
use hyu_2021_network_protoco.Common.{
  ℕ, zero, suc, ◌+◌, ◌%◌, ◌<◌, ◌≡◌, refl, ap, ap₂, List, [], ◌∷◌, ◌++◌, arith, length, get_or, set,
  get_or-set_self, get_or-set_ne,
}
use hyu_2021_network_protoco.Chat.Queue.{max_message_queue_size}

module _ {ℓ} {A : Type ℓ} (d : A) where
  -- `n` slots from slot `i` on, round the end of the array.
  abbrev pub slots : List A → ℕ → ℕ → List A
  slots xs i zero = []
  slots xs i (suc n) = get_or xs i d ∷ slots xs ((i + 1) % max_message_queue_size) n

  pub length-slots : (xs : List A) (i n : ℕ) → length (slots xs i n) ≡ n
  length-slots xs i zero = refl
  length-slots xs i (suc n) = ap suc (length-slots xs ((i + 1) % max_message_queue_size) n)

  -- A write just behind the slots extends them.
  pub slots-set_behind :
      (xs : List A) (v : A) (n i j : ℕ)
      → length xs ≡ max_message_queue_size
      → i < max_message_queue_size
      → n < max_message_queue_size
      → j ≡ (i + n) % max_message_queue_size
      → slots (set xs j v) i (suc n) ≡ slots xs i n ++ v ∷ []
  slots-set_behind xs v zero i j hl hi hn e =
      let same : j ≡ i = omega arith in
      ap (λ x. x ∷ []) (rw same (get_or-set_self xs i v d (omega arith)))
  slots-set_behind xs v (suc n) i j hl hi hn e = ap₂ ◌∷◌ (get_or-set_ne xs j i v d (omega arith)) (
      slots-set_behind xs v n ((i + 1) % max_message_queue_size) j hl (omega arith) (omega arith)
        (omega arith))

  pub slots_cong :
      (xs ys : List A) (i j m n : ℕ) → xs ≡ ys → i ≡ j → m ≡ n → slots xs i m ≡ slots ys j n
  slots_cong xs ys i j m n p q r = rw (p, q, r)
