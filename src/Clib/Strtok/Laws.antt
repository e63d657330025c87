-- ===== src/Clib/Strtok/Laws.antt =====
-- Laws of the `strtok` loop: enough rounds, and how it cuts a text.
use hyu_2021_network_protoco.Common.{
  if◌then◌else◌, Bool, false, ℕ, zero, suc, ◌≤◌, ◌<◌, ◌≡◌, refl, ap, ◌≢◌, ◌∙◌, sym, inl, inr, true,
  false, [], ◌∷◌, ◌++◌, none, some, arith, Bool-cases, Option-cases, List-cases, length, All,
}
use hyu_2021_network_protoco.Clib.Text.{Text, elem}
use hyu_2021_network_protoco.Clib.Strtok.{
  skip, word, after, strtok, first_token, tokens_fuel, tokens,
}

module _ (d : Text) where
  -- A text with no delimiter in it.
  abbrev pub IsWord : Text → Type 0
  IsWord = All (λ c. elem c d ≡ false)

  -- The same as a test, for texts that are written out.
  abbrev pub is_word : Text → Bool
  is_word [] = true
  is_word (c ∷ s) = if elem c d then false else is_word s

  pub is_word_sound : (s : Text) → is_word s ≡ true → IsWord s
  is_word_sound [] h = tt
  is_word_sound (c ∷ s) h = elim (Bool-cases (elem c d)) [
    | inl e ↦ absurd (cc (rw e at h))
    | inr e ↦ (e, is_word_sound s (rw e at h))
  ]

  length-skip : (s : Text) → length (skip d s) ≤ length s
  unfolding skip
  length-skip [] = omega arith
  length-skip (c ∷ s) = ground (arith, length-skip s)

  length-after : (s : Text) → length (after d s) ≤ length s
  unfolding after
  length-after [] = omega arith
  length-after (c ∷ s) = ground (arith, length-after s)

  skip_head : (s : Text) (c : ℕ) (r : Text) → skip d s ≡ c ∷ r → elem c d ≡ false
  unfolding skip
  skip_head [] c r h = cc
  skip_head (x ∷ s) c r h = ground (arith, skip_head s c r)

  strtok_of_skip :
      (s : Text) (c : ℕ) (r : Text)
      → skip d s ≡ c ∷ r
      → (elem c d ≡ false) × (strtok d s ≡ some (c ∷ word d r, after d r)) × (length r < length s)
  unfolding strtok
  strtok_of_skip s c r h = ground (arith, skip_head s c r, length-skip s)

  strtok_of_empty : (s : Text) → skip d s ≡ [] → strtok d s ≡ none
  unfolding strtok
  strtok_of_empty s h = rw (h, strtok)

  skip-nil : skip d [] ≡ []
  unfolding skip
  skip-nil = refl

  -- What a call leaves is shorter.
  pub strtok_shorter : (s t r : Text) → strtok d s ≡ some (t, r) → length r < length s
  strtok_shorter s t r h = elim (List-cases (skip d s)) [
    | inl e ↦ ground (arith, strtok_of_empty s)
    | inr (c, r', e) ↦ ground (arith, strtok_of_skip s c r', length-after r')
  ]

  -- Any number of rounds from the length on gives the same tokens.
  tokens_fuel_enough :
      (n m : ℕ) (s : Text) → length s ≤ n → length s ≤ m → tokens_fuel d n s ≡ tokens_fuel d m s
  unfolding tokens_fuel
  tokens_fuel_enough zero zero s h k = refl
  tokens_fuel_enough zero (suc m) [] h k = rw (strtok_of_empty [] skip-nil, tokens_fuel)
  tokens_fuel_enough zero (suc m) (c ∷ s) h k = absurd (omega arith)
  tokens_fuel_enough (suc n) zero [] h k = rw (strtok_of_empty [] skip-nil, tokens_fuel)
  tokens_fuel_enough (suc n) zero (c ∷ s) h k = absurd (omega arith)
  tokens_fuel_enough (suc n) (suc m) s h k = elim (Option-cases (strtok d s)) [
    | inl e ↦ ground arith
    | inr ((t, r), e) ↦ ground (arith, strtok_shorter s t r e, tokens_fuel_enough n m r)
  ]

  -- The loop: the first token, then the tokens of what is left.
  pub tokens-some : (s t r : Text) → strtok d s ≡ some (t, r) → tokens d s ≡ t ∷ tokens d r
  unfolding tokens tokens_fuel
  tokens-some [] t r e = ground (arith, strtok_of_empty [] skip-nil)
  tokens-some (c ∷ s) t r e =
      rw (e, tokens_fuel)
        (ap (λ ts. t ∷ ts)
          (tokens_fuel_enough (length s) (length r) r (omega (arith, strtok_shorter (c ∷ s) t r e))
            (omega arith)))

  pub tokens-none : (s : Text) → strtok d s ≡ none → tokens d s ≡ []
  unfolding tokens tokens_fuel
  tokens-none [] e = refl
  tokens-none (c ∷ s) e = rw (e, tokens_fuel)

  skip_delim : (c : ℕ) (s : Text) → elem c d ≡ true → skip d (c ∷ s) ≡ skip d s
  unfolding skip
  skip_delim c s h = ground arith

  strtok_delim : (c : ℕ) (s : Text) → elem c d ≡ true → strtok d (c ∷ s) ≡ strtok d s
  unfolding strtok
  strtok_delim c s h = rw (skip_delim c s h, strtok)

  -- A delimiter in front changes nothing.
  pub tokens_delim : (c : ℕ) (s : Text) → elem c d ≡ true → tokens d (c ∷ s) ≡ tokens d s
  tokens_delim c s h = elim (Option-cases (strtok d s)) [
    | inl e ↦ tokens-none (c ∷ s) (strtok_delim c s h ∙ e) ∙ sym (tokens-none s e)
    | inr ((t, r), e) ↦ tokens-some (c ∷ s) t r (strtok_delim c s h ∙ e) ∙ sym (tokens-some s t r e)
  ]

  word_all : (w : Text) → IsWord w → (word d w ≡ w) × (after d w ≡ [])
  unfolding word after
  word_all [] h = (refl, refl)
  word_all (c ∷ w) h = ground (arith, word_all w h.1)

  word-append :
      (w : Text) (c : ℕ) (s : Text)
      → IsWord w
      → elem c d ≡ true
      → (word d (w ++ c ∷ s) ≡ w) × (after d (w ++ c ∷ s) ≡ s)
  unfolding word after
  word-append [] c s h e = ground arith
  word-append (x ∷ w) c s h e = ground (arith, word-append w c s h.1)

  skip_word : (x : ℕ) (w : Text) → elem x d ≡ false → skip d (x ∷ w) ≡ x ∷ w
  unfolding skip
  skip_word x w h = ground arith

  strtok-word :
      (x : ℕ) (s : Text)
      → elem x d ≡ false
      → strtok d (x ∷ s) ≡ some (word d (x ∷ s), after d (x ∷ s))
  unfolding strtok
  strtok-word x s h = rw (skip_word x s h, strtok)

  -- A word behind which a delimiter stands is the first token.
  pub tokens_word :
      (x : ℕ) (w : Text) (c : ℕ) (s : Text)
      → IsWord (x ∷ w)
      → elem c d ≡ true
      → tokens d (x ∷ w ++ c ∷ s) ≡ (x ∷ w) ∷ tokens d s
  tokens_word x w c s h e =
      tokens-some (x ∷ w ++ c ∷ s) (x ∷ w) s
        (strtok-word x (w ++ c ∷ s) h.0 ∙ ground (arith, word-append (x ∷ w) c s h))

  -- A word alone is taken whole.
  pub strtok_last : (x : ℕ) (w : Text) → IsWord (x ∷ w) → strtok d (x ∷ w) ≡ some (x ∷ w, [])
  strtok_last x w h = strtok-word x w h.0 ∙ ground (arith, word_all (x ∷ w) h)

  -- A word alone is the one token.
  pub tokens_last : (x : ℕ) (w : Text) → IsWord (x ∷ w) → tokens d (x ∷ w) ≡ (x ∷ w) ∷ []
  tokens_last x w h =
      tokens-some (x ∷ w) (x ∷ w) [] (strtok_last x w h)
      ∙ ap (λ ts. (x ∷ w) ∷ ts) (tokens-none [] (strtok_of_empty [] skip-nil))

  word-IsWord : (s : Text) → IsWord (word d s)
  unfolding word
  word-IsWord [] = tt
  word-IsWord (c ∷ s) = elim (Bool-cases (elem c d)) [
    | inl e ↦ rw e tt
    | inr e ↦ rw e (e, word-IsWord s)
  ]

  -- A token is not empty and has no delimiter.
  abbrev pub IsToken : Text → Type 0
  IsToken t = (t ≢ []) × IsWord t

  strtok-IsToken : (s t r : Text) → strtok d s ≡ some (t, r) → IsToken t
  unfolding word
  strtok-IsToken s t r e = elim (List-cases (skip d s)) [
    | inl k ↦ absurd (cc (strtok_of_empty s k))
    | inr (c, r', k) ↦
        let (delim, step, _) = strtok_of_skip s c r' k in
        let same : t ≡ c ∷ word d r' = ground (arith, step) in
        rw same (λ q. cc, (delim, word-IsWord r'))
  ]

  tokens_fuel-IsToken : (n : ℕ) (s : Text) → All IsToken (tokens_fuel d n s)
  unfolding tokens_fuel
  tokens_fuel-IsToken zero s = tt
  tokens_fuel-IsToken (suc n) s = elim (Option-cases (strtok d s)) [
    | inl e ↦ rw (e, tokens_fuel) tt
    | inr ((t, r), e) ↦ rw (e, tokens_fuel) (strtok-IsToken s t r e, tokens_fuel-IsToken n r)
  ]

  -- All that the loop hands out are tokens.
  pub tokens-IsToken : (s : Text) → All IsToken (tokens d s)
  unfolding tokens
  tokens-IsToken s = tokens_fuel-IsToken (length s) s

length-word : (d s : Text) → length (word d s) ≤ length s
unfolding word
length-word d [] = omega arith
length-word d (c ∷ s) = ground (arith, length-word d s)

-- The first token is no longer than the text.
pub length-first_token : (d s t : Text) → first_token d s ≡ some t → length t ≤ length s
unfolding first_token strtok
length-first_token d s t h = elim (List-cases (skip d s)) [
  | inl e ↦ absurd (cc (h, e))
  | inr (c, r, e) ↦ ground (arith, length-word d (c ∷ r), length-skip d s)
]
