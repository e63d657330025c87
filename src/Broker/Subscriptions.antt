-- ===== src/Broker/Subscriptions.antt =====
-- `map<string, pair<bool, int>>`: the topics of a subscriber, in the order of their names.
use hyu_2021_network_protoco.Common.{
  ℕ, ◌≡◌, ◌≢◌, refl, inl, inr, Bool, true, false, ◌||◌, ◌&&◌, List, [], ◌∷◌, Option, none, some,
  ltb, ◌==◌, arith, All, Option-cases,
}
use hyu_2021_network_protoco.Clib.Text.{Text, text_eq, text_eq_iff}

-- Whether the topic is subscribed, and up to which message it is read.
abbrev pub Interest : Type 0
Interest = Bool × ℕ

abbrev pub Interests : Type 0
Interests = List (Text × Interest)

-- `string::compare` less than 0
unfoldable pub text_before : Text → Text → Bool
text_before s [] = false
text_before [] (y ∷ t) = true
text_before (x ∷ s) (y ∷ t) = ltb x y || (x == y && text_before s t)

unfoldable pub find : Text → Interests → Option Interest
find t [] = none
find t ((u, i) ∷ m) = elim (text_eq u t) [ true ↦ some i | false ↦ find t m ]

-- A name that is not there goes in front of the first that it stands before.
unfoldable pub insert : Text → Interest → Interests → Interests
insert t i [] = (t, i) ∷ []
insert t i ((u, j) ∷ m) = elim (text_before t u) [
  | true ↦ (t, i) ∷ (u, j) ∷ m
  | false ↦ (u, j) ∷ insert t i m
]

unfoldable pub replace : Text → Interest → Interests → Interests
replace t i [] = []
replace t i ((u, j) ∷ m) = elim (text_eq u t) [ true ↦ (u, i) ∷ m | false ↦ (u, j) ∷ replace t i m ]

-- `m[t] = i`
unfoldable pub assign : Text → Interest → Interests → Interests
assign t i m = elim (find t m) [ none ↦ insert t i m | some _ ↦ replace t i m ]

-- No entry is for the topic.
abbrev pub Absent : Text → Interests → Type 0
Absent t = All (λ e. e.0 ≢ t)

-- No two entries are for the same topic.
abbrev pub IsUnique : Interests → Type 0
IsUnique [] = Unit
IsUnique ((t, _) ∷ m) = Absent t m × IsUnique m

pub find-none : (t : Text) (m : Interests) → find t m ≡ none → Absent t m
unfolding find
find-none t [] h = tt
find-none t ((u, i) ∷ m) h = ground (arith, text_eq_iff u t, find-none t m)

insert-Absent :
    (t u : Text) (i : Interest) (m : Interests) → t ≢ u → Absent u m → Absent u (insert t i m)
unfolding insert
insert-Absent t u i [] d h = (d, tt)
insert-Absent t u i ((v, j) ∷ m) d h = ground (arith, insert-Absent t u i m)

insert-IsUnique :
    (t : Text) (i : Interest) (m : Interests) → Absent t m → IsUnique m → IsUnique (insert t i m)
unfolding insert
insert-IsUnique t i [] h u = (tt, tt)
insert-IsUnique t i ((v, j) ∷ m) h u =
    ground (arith, insert-Absent t v i m (λ q. h.0 (rw q refl)) u.0, insert-IsUnique t i m h.1 u.1)

replace-Absent : (t u : Text) (i : Interest) (m : Interests) → Absent u m → Absent u (replace t i m)
unfolding replace
replace-Absent t u i [] h = tt
replace-Absent t u i ((v, j) ∷ m) h = ground (arith, replace-Absent t u i m)

replace-IsUnique : (t : Text) (i : Interest) (m : Interests) → IsUnique m → IsUnique (replace t i m)
unfolding replace
replace-IsUnique t i [] u = tt
replace-IsUnique t i ((v, j) ∷ m) u = ground (arith, replace-Absent t v i m, replace-IsUnique t i m)

pub assign-IsUnique :
    (t : Text) (i : Interest) (m : Interests) → IsUnique m → IsUnique (assign t i m)
unfolding assign
assign-IsUnique t i m u =
    ground (arith, find-none t m, insert-IsUnique t i m, replace-IsUnique t i m)

find-insert_other :
    (t u : Text) (i : Interest) (m : Interests) → t ≢ u → find u (insert t i m) ≡ find u m
unfolding find insert
find-insert_other t u i [] d = ground (arith, text_eq_iff t u)
find-insert_other t u i ((v, j) ∷ m) d = ground (arith, text_eq_iff t u, find-insert_other t u i m)

find-replace_other :
    (t u : Text) (i : Interest) (m : Interests) → t ≢ u → find u (replace t i m) ≡ find u m
unfolding find replace
find-replace_other t u i [] d = refl
find-replace_other t u i ((v, j) ∷ m) d =
    ground (arith, text_eq_iff v t, text_eq_iff v u, find-replace_other t u i m)

-- Another topic's entry stays as it was.
pub find-assign_other :
    (t u : Text) (i : Interest) (m : Interests) → t ≢ u → find u (assign t i m) ≡ find u m
unfolding assign
find-assign_other t u i m d = ground (arith, find-insert_other t u i m, find-replace_other t u i m)

find-insert_same :
    (t : Text) (i : Interest) (m : Interests) → Absent t m → find t (insert t i m) ≡ some i
unfolding find insert
find-insert_same t i [] h = ground (arith, text_eq_iff t t)
find-insert_same t i ((v, j) ∷ m) h =
    ground (arith, text_eq_iff t t, text_eq_iff v t, find-insert_same t i m)

find-replace_same :
    (t : Text) (i j : Interest) (m : Interests)
    → find t m ≡ some j
    → find t (replace t i m) ≡ some i
unfolding find replace
find-replace_same t i j [] h = cc
find-replace_same t i j ((v, k) ∷ m) h = ground (arith, find-replace_same t i j m)

pub find-assign_same : (t : Text) (i : Interest) (m : Interests) → find t (assign t i m) ≡ some i
unfolding assign
find-assign_same t i m = elim (Option-cases (find t m)) [
  | inl e ↦ ground (arith, find-insert_same t i m (find-none t m e))
  | inr (j, e) ↦ ground (arith, find-replace_same t i j m e)
]
