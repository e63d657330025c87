-- ===== src/Clib/Text.antt =====
-- C strings and the functions of <string.h> and <ctype.h> that the programs call: `strcmp`,
-- `tolower`, `isspace`. A text is the bytes of a string before its NUL.
use Prim.Native.Char.{code}
use Prim.Native.String.{String}
use hyu_2021_network_protoco.Common.{
  ℕ, ◌+◌, ◌<◌, ◌≡◌, refl, ◌↔◌, Bool, true, false, ◌&&◌, ◌||◌, List, [], ◌∷◌, ◌++◌, arith, leb, ◌==◌,
  if◌then◌else◌, All,
}

abbrev pub Text : Type 0
Text = List ℕ

-- A literal's bytes (the sources' literals are ASCII).
abbrev pub codes : String → Text
codes String.[] = []
codes (String.◌∷◌ c s) = code c ∷ codes s

-- `strcmp(s, t) == 0`
unfoldable pub text_eq : Text → Text → Bool
text_eq [] [] = true
text_eq [] (y ∷ t) = false
text_eq (x ∷ s) [] = false
text_eq (x ∷ s) (y ∷ t) = x == y && text_eq s t

pub text_eq_sound : (s t : Text) → text_eq s t ≡ true → s ≡ t
unfolding text_eq
text_eq_sound [] [] h = refl
text_eq_sound [] (y ∷ t) h = cc
text_eq_sound (x ∷ s) [] h = cc
text_eq_sound (x ∷ s) (y ∷ t) h = ground (arith, text_eq_sound s t)

pub text_eq_refl : (s : Text) → text_eq s s ≡ true
unfolding text_eq
text_eq_refl [] = refl
text_eq_refl (x ∷ s) = ground (arith, text_eq_refl s)

pub text_eq_iff : (s t : Text) → (text_eq s t ≡ true) ↔ (s ≡ t)
text_eq_iff s t = (text_eq_sound s t, λ e. rw e (text_eq_refl t))

-- `tolower` in the C locale
unfoldable pub tolower : ℕ → ℕ
tolower c = if leb b'A' c && leb c b'Z' then c + 32 else c

pub tolower_idem : (c : ℕ) → tolower (tolower c) ≡ tolower c
unfolding tolower
tolower_idem c = ground arith

-- `isspace` in the C locale: space, \t \n \v \f \r
unfoldable pub isspace : ℕ → Bool
isspace c = c == 32 || (leb 9 c && leb c 13)

-- `strchr(s, c) != NULL`, for a byte that is not NUL
unfoldable pub elem : ℕ → Text → Bool
elem c [] = false
elem c (x ∷ s) = c == x || elem c s

-- The string that a buffer of bytes holds: what stands before its first NUL.
unfoldable pub c_string : List ℕ → Text
c_string [] = []
c_string (b ∷ bs) = elim (b == 0) [ true ↦ [] | false ↦ b ∷ c_string bs ]

-- A text as it stands in memory: no byte of it is NUL.
abbrev pub IsText : Text → Type 0
IsText = All (λ c. 0 < c)

pub c_string-append : (s : Text) (bs : List ℕ) → IsText s → c_string (s ++ 0 ∷ bs) ≡ s
unfolding c_string
c_string-append [] bs h = refl
c_string-append (c ∷ s) bs h = ground (arith, c_string-append s bs h.1)
