-- ===== src/Clib/Decimal/Laws.antt =====
-- Laws of decimal texts.
use hyu_2021_network_protoco.Common.{
  ℕ, zero, suc, ◌+◌, ◌-◌, ◌*◌, ◌/◌, ◌%◌, ◌^◌, ◌≤◌, ◌<◌, min, ◌≡◌, inl, inr, [], ◌∷◌, ◌++◌, ltb,
  arith, Bool-cases, List-cases, ltb→lt, lt→ltb, length, length-append, All, All-append,
}
use native.Mathlib.Nat.{pow-suc}
use hyu_2021_network_protoco.Clib.Text.{Text, isspace}
use hyu_2021_network_protoco.Clib.Decimal.{
  isdigit, digits_fuel, decimal, digits_value, skip_space, signed_value, atoi,
}

abbrev pub IsDigit : ℕ → Type 0
IsDigit c = (b'0' ≤ c) × (c ≤ b'9')

digits_fuel-IsDigit : (f n : ℕ) → All IsDigit (digits_fuel f n)
unfolding digits_fuel
digits_fuel-IsDigit zero n = tt
digits_fuel-IsDigit (suc f) n = elim (Bool-cases (ltb n 10)) [
  | inl e ↦ rw e (omega (arith, ltb→lt n 10 e))
  | inr e ↦ rw e (
      All-append IsDigit (digits_fuel f (n / 10)) ((b'0' + n % 10) ∷ [])
        (digits_fuel-IsDigit f (n / 10)) (omega arith))
]

-- `%d` prints digits only.
pub decimal-IsDigit : (n : ℕ) → All IsDigit (decimal n)
unfolding decimal
decimal-IsDigit n = digits_fuel-IsDigit (suc n) n

digits_value-append :
    (s : Text) (v c : ℕ)
    → All IsDigit s
    → IsDigit c
    → digits_value v (s ++ c ∷ []) ≡ digits_value v s * 10 + (c - b'0')
unfolding digits_value isdigit
digits_value-append [] v c h k = ground arith
digits_value-append (x ∷ s) v c h k =
    ground (arith, digits_value-append s (v * 10 + (x - b'0')) c h.1 k)

digits_value_one : (n : ℕ) → n < 10 → digits_value 0 ((b'0' + n) ∷ []) ≡ n
unfolding digits_value isdigit
digits_value_one n h = ground arith

digits_value-digits_fuel : (f n : ℕ) → n < f → digits_value 0 (digits_fuel f n) ≡ n
unfolding digits_fuel
digits_value-digits_fuel zero n h = absurd (omega arith)
digits_value-digits_fuel (suc f) n h = elim (Bool-cases (ltb n 10)) [
  | inl e ↦ rw e (digits_value_one n (ltb→lt n 10 e))
  | inr e ↦
      let big : 10 ≤ n = ground arith in
      rw e (
        omega (
          arith,
          digits_value-append (digits_fuel f (n / 10)) 0 (b'0' + n % 10)
              (digits_fuel-IsDigit f (n / 10)) (omega arith),
          digits_value-digits_fuel f (n / 10) (omega arith),
        ))
]

-- The digits of `n` read as a number give `n` back.
pub digits_value-decimal : (n : ℕ) → digits_value 0 (decimal n) ≡ n
unfolding decimal
digits_value-decimal n = digits_value-digits_fuel (suc n) n (omega arith)

-- A text of digits is read with no sign and no space to pass over.
signed_value_digits :
    (s : Text) → All IsDigit s → signed_value (skip_space s) ≡ min (digits_value 0 s) (2 ^ 63 - 1)
unfolding signed_value skip_space isspace digits_value
signed_value_digits [] h = omega arith
signed_value_digits (c ∷ s) h = ground arith

-- `atoi` reads back what `%d` prints, for every `int` that is not negative.
pub atoi-decimal : (n : ℕ) → n < 2 ^ 31 → atoi (decimal n) ≡ n
unfolding atoi
atoi-decimal n h =
    omega (arith, signed_value_digits (decimal n) (decimal-IsDigit n), digits_value-decimal n)

length-digits_fuel : (f n k : ℕ) → n < 10 ^ suc k → length (digits_fuel f n) ≤ suc k
unfolding digits_fuel
length-digits_fuel zero n k h = omega arith
length-digits_fuel (suc f) n zero h = rw (lt→ltb n 10 h) (omega arith)
length-digits_fuel (suc f) n (suc k) h = elim (Bool-cases (ltb n 10)) [
  | inl e ↦ rw e (omega arith)
  | inr e ↦ rw e (
      omega (
        arith,
        length-append (digits_fuel f (n / 10)) ((b'0' + n % 10) ∷ []),
        length-digits_fuel f (n / 10) k (omega (arith, pow-suc 10 (suc k))),
      ))
]

digits_fuel-cons : (f n : ℕ) → (c : ℕ) × (s : Text) × (digits_fuel (suc f) n ≡ c ∷ s)
unfolding digits_fuel
digits_fuel-cons f n = elim (Bool-cases (ltb n 10)) [
  | inl e ↦ (b'0' + n, [], rw e)
  | inr e ↦ elim (List-cases (digits_fuel f (n / 10))) [
    | inl k ↦ (b'0' + n % 10, [], rw (e, k))
    | inr (c, s, k) ↦ (c, s ++ (b'0' + n % 10) ∷ [], rw (e, k))
  ]
]

-- A number below `10 ^ (k + 1)` prints in at most `k + 1` digits, and never in none.
pub length-decimal : (n k : ℕ) → n < 10 ^ suc k → length (decimal n) ≤ suc k
unfolding decimal
length-decimal n k h = length-digits_fuel (suc n) n k h

pub decimal-cons : (n : ℕ) → (c : ℕ) × (s : Text) × (decimal n ≡ c ∷ s)
unfolding decimal
decimal-cons n = digits_fuel-cons n n
