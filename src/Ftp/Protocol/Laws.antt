-- ===== src/Ftp/Protocol/Laws.antt =====
-- Laws of the command words.
use hyu_2021_network_protoco.Common.{
  ℕ, ◌+◌, ◌≤◌, All, suc, ◌<◌, ◌≡◌, ◌≢◌, refl, sym, ◌∙◌, subst, ap, ap₂, ◌↔◌, ◌⊎◌, [], ◌∷◌, Option,
  none, some, arith, length,
}
use hyu_2021_network_protoco.Clib.Text.{Text, codes, text_eq, text_eq_iff, tolower, tolower_idem}
use hyu_2021_network_protoco.Ftp.Protocol.{
  Command, user, pass, nlst, pasv, retr, cwd, quit, type, port, unknown, to_lowercase,
  interpret_lower, interpret, max_len_command,
}

pub to_lowercase_idem : (s : Text) → to_lowercase (to_lowercase s) ≡ to_lowercase s
unfolding to_lowercase
to_lowercase_idem [] = refl
to_lowercase_idem (c ∷ s) = ap₂ ◌∷◌ (tolower_idem c) (to_lowercase_idem s)

pub length-to_lowercase : (s : Text) → length (to_lowercase s) ≡ length s
unfolding to_lowercase
length-to_lowercase [] = refl
length-to_lowercase (c ∷ s) = ap suc (length-to_lowercase s)

-- The word of a command, as the documentation of the protocol spells it in lower case.
abbrev pub command_word : Command → Option Text
command_word user = some (codes "user")
command_word pass = some (codes "pass")
command_word nlst = some (codes "nlst")
command_word pasv = some (codes "pasv")
command_word retr = some (codes "retr")
command_word cwd = some (codes "cwd")
command_word quit = some (codes "quit")
command_word type = some (codes "type")
command_word port = some (codes "port")
command_word unknown = none

interpret_lower_sound :
    (w : Text) → (interpret_lower w ≡ unknown) ⊎ (command_word (interpret_lower w) ≡ some w)
unfolding interpret_lower
interpret_lower_sound w = ground (
  arith,
  text_eq_iff w (codes "user"),
  text_eq_iff w (codes "pass"),
  text_eq_iff w (codes "nlst"),
  text_eq_iff w (codes "pasv"),
  text_eq_iff w (codes "retr"),
  text_eq_iff w (codes "cwd"),
  text_eq_iff w (codes "quit"),
  text_eq_iff w (codes "type"),
  text_eq_iff w (codes "port"),
)

interpret_lower_complete :
    (c : Command) (w : Text) → command_word c ≡ some w → interpret_lower w ≡ c
unfolding interpret_lower text_eq
interpret_lower_complete user w h = ground arith
interpret_lower_complete c w h = ground arith

lowered_exact :
    (w : Text) (c : Command)
    → c ≢ unknown
    → (interpret w ≡ c) ↔ (command_word c ≡ some (to_lowercase w))
unfolding interpret
lowered_exact w c known = (
  λ h. ground (arith, interpret_lower_sound (to_lowercase w)),
  λ h. interpret_lower_complete c (to_lowercase w) h,
)

-- The byte is the letter in lower or in upper case, which is 32 below.
abbrev IsLetter : ℕ → ℕ → Type 0
IsLetter letter c = (c ≡ letter) ⊎ (c + 32 ≡ letter)

-- The text has the letters of the word, one for one, each in lower or in upper case.
abbrev pub Spells : Text → Text → Type 0
Spells [] [] = Unit
Spells [] (c ∷ w) = ⊥
Spells (letter ∷ word) [] = ⊥
Spells (letter ∷ word) (c ∷ w) = IsLetter letter c × Spells word w

abbrev IsLower : ℕ → Type 0
IsLower letter = (97 ≤ letter) × (letter ≤ 122)

tolower_exact : (letter c : ℕ) → IsLower letter → (letter ≡ tolower c) ↔ IsLetter letter c
unfolding tolower
tolower_exact letter c low = (λ h. ground arith, λ h. ground arith)

to_lowercase_exact : (word w : Text) → All IsLower word → (word ≡ to_lowercase w) ↔ Spells word w
unfolding to_lowercase
to_lowercase_exact [] [] low = (λ h. tt, λ h. refl)
to_lowercase_exact [] (c ∷ w) low = (λ h. absurd (cc h), λ h. absurd h)
to_lowercase_exact (letter ∷ word) [] low = (λ h. absurd (cc h), λ h. absurd h)
to_lowercase_exact (letter ∷ word) (c ∷ w) low =
    let first = tolower_exact letter c low.0 in
    let rest = to_lowercase_exact word w low.1 in
    (λ h. (first.0 (cc h), rest.0 (cc h)), λ h. ap₂ ◌∷◌ (first.1 h.0) (rest.1 h.1))

same_word : {a b : Text} → some a ≡ some b → a ≡ b
same_word {a} h = ap (λ o. elim o [ none ↦ a | some x ↦ x ]) h

named : (c : Command) (word : Text) → command_word c ≡ some word → c ≢ unknown
named c word h e = absurd (cc (sym (ap command_word e) ∙ h))

command_word-IsLower : (c : Command) (word : Text) → command_word c ≡ some word → All IsLower word
command_word-IsLower user word h = subst (λ x. All IsLower x) (same_word h) (omega arith)
command_word-IsLower pass word h = subst (λ x. All IsLower x) (same_word h) (omega arith)
command_word-IsLower nlst word h = subst (λ x. All IsLower x) (same_word h) (omega arith)
command_word-IsLower pasv word h = subst (λ x. All IsLower x) (same_word h) (omega arith)
command_word-IsLower retr word h = subst (λ x. All IsLower x) (same_word h) (omega arith)
command_word-IsLower cwd word h = subst (λ x. All IsLower x) (same_word h) (omega arith)
command_word-IsLower quit word h = subst (λ x. All IsLower x) (same_word h) (omega arith)
command_word-IsLower type word h = subst (λ x. All IsLower x) (same_word h) (omega arith)
command_word-IsLower port word h = subst (λ x. All IsLower x) (same_word h) (omega arith)
command_word-IsLower unknown word h = absurd (cc h)

-- A text is interpreted as a command exactly if it spells the word of that command, letter by letter, each in upper or
-- in lower case.
pub interpret_exact :
    (w word : Text) (c : Command) → command_word c ≡ some word → (interpret w ≡ c) ↔ Spells word w
interpret_exact w word c h =
    let lowered = lowered_exact w c (named c word h) in
    let spelled = to_lowercase_exact word w (command_word-IsLower c word h) in
    (
      λ e. spelled.0 (same_word (sym h ∙ lowered.0 e)),
      λ s. lowered.1 (h ∙ ap (λ x. some x) (spelled.1 s)),
    )

-- Lowering a word does not change the command.
pub interpret-to_lowercase : (w : Text) → interpret (to_lowercase w) ≡ interpret w
unfolding interpret
interpret-to_lowercase w = rw (to_lowercase_idem w)

length-command_word :
    (c : Command) (w : Text) → command_word c ≡ some w → length w < max_len_command
length-command_word user w h = ground arith
length-command_word c w h = ground arith

-- The word of a known command fits the five bytes of `command` with its NUL.
pub known_command_fits : (w : Text) → interpret w ≢ unknown → length w < max_len_command
known_command_fits w known = omega (
  arith,
  length-command_word (interpret w) (to_lowercase w) ((lowered_exact w (interpret w) known).0 refl),
  length-to_lowercase w,
)
