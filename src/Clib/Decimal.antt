-- ===== src/Clib/Decimal.antt =====
-- `int` and its text: 32-bit two's complement as bit patterns, `printf`'s %d, and `atoi`.
pub mod Laws
use hyu_2021_network_protoco.Common.{
  ℕ, zero, suc, ◌+◌, ◌-◌, ◌*◌, ◌/◌, ◌%◌, ◌^◌, min, Bool, ◌&&◌, [], ◌∷◌, ◌++◌, if◌then◌else◌, ltb,
  leb, ◌==◌,
}
use hyu_2021_network_protoco.Clib.Text.{Text, isspace}

-- An `int` is its bit pattern, a number below 2 ^ 32; sums and products wrap.
abbrev pub int32 : ℕ → ℕ
int32 n = n % 2 ^ 32

unfoldable pub isdigit : ℕ → Bool
isdigit c = leb b'0' c && leb c b'9'

-- The decimal digits of a number, in at most `f` rounds.
unfoldable pub digits_fuel : ℕ → ℕ → Text
digits_fuel zero n = []
digits_fuel (suc f) n =
    let more = digits_fuel f (n / 10) ++ (b'0' + n % 10) ∷ [] in
    if ltb n 10 then (b'0' + n) ∷ [] else more

-- `%d` of an `int` that is not negative
unfoldable pub decimal : ℕ → Text
decimal n = digits_fuel (suc n) n

-- `%d`
unfoldable pub print_int : ℕ → Text
print_int i = if ltb i (2 ^ 31) then decimal i else b'-' ∷ decimal (2 ^ 32 - i)

-- The loop of `strtol` over digits.
unfoldable pub digits_value : ℕ → Text → ℕ
digits_value v [] = v
digits_value v (c ∷ s) =
    let rest = digits_value (v * 10 + (c - b'0')) s in if isdigit c then rest else v

unfoldable pub skip_space : Text → Text
skip_space [] = []
skip_space (c ∷ s) = if isspace c then skip_space s else c ∷ s

-- `strtol` saturates at the range of a 64-bit `long`.
abbrev pub negated : ℕ → ℕ
negated v = 2 ^ 64 - min v (2 ^ 63)

unfoldable pub signed_value : Text → ℕ
signed_value [] = 0
signed_value (c ∷ s) =
    if c == b'-'
    then negated (digits_value 0 s)
    else if c == b'+'
    then min (digits_value 0 s) (2 ^ 63 - 1)
    else min (digits_value 0 (c ∷ s)) (2 ^ 63 - 1)

-- `atoi(s)`: `(int) strtol(s, NULL, 10)`
unfoldable pub atoi : Text → ℕ
atoi s = int32 (signed_value (skip_space s))
