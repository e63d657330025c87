-- ===== src/Clib/Strtok.antt =====
-- `strtok`: one call, and the loop `pch = strtok(s, d); while (pch != NULL) … pch = strtok(NULL, d)`.
pub mod Laws
use hyu_2021_network_protoco.Common.{
  ℕ, zero, suc, List, [], ◌∷◌, Option, none, some, if◌then◌else◌, length,
}
use hyu_2021_network_protoco.Clib.Text.{Text, elem}

module _ (delims : Text) where
  -- Leading delimiters are passed over.
  unfoldable pub skip : Text → Text
  skip [] = []
  skip (c ∷ s) = if elem c delims then skip s else c ∷ s

  -- The bytes up to the next delimiter, and what stands behind that delimiter.
  unfoldable pub word : Text → Text
  word [] = []
  word (c ∷ s) = if elem c delims then [] else c ∷ word s

  unfoldable pub after : Text → Text
  after [] = []
  after (c ∷ s) = if elem c delims then s else after s

  -- One call: the token, and the text that the next call `strtok(NULL, …)` goes on with.
  unfoldable pub strtok : Text → Option (Text × Text)
  unfolding skip word after
  strtok s = elim (skip s) [ [] ↦ none | c ∷ r ↦ some (word (c ∷ r), after (c ∷ r)) ]

  -- All tokens that the loop sees, in order, in at most `n` rounds.
  unfoldable pub tokens_fuel : ℕ → Text → List Text
  tokens_fuel zero s = []
  tokens_fuel (suc n) s = elim (strtok s) [ none ↦ [] | some (t, r) ↦ t ∷ tokens_fuel n r ]

  -- A token takes at least one byte, so as many rounds as bytes are enough.
  unfoldable pub tokens : Text → List Text
  tokens s = tokens_fuel (length s) s

-- What a single call returns, NULL as `none`.
unfoldable pub first_token : Text → Text → Option Text
first_token delims s = elim (strtok delims s) [ none ↦ none | some (t, _) ↦ some t ]
