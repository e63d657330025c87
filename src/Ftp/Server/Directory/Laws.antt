-- ===== src/Ftp/Server/Directory/Laws.antt =====
-- Laws of the directory functions: which names pass `validDirectoryEntry`, the listing, and the block
-- that `getStreamFromFile` returns.
use hyu_2021_network_protoco.Common.{
  ℕ, zero, suc, ◌+◌, ◌≤◌, ◌<◌, ◌≡◌, ◌≢◌, ◌∙◌, sym, refl, ap, ◌↔◌, inl, inr, true, false, List, [],
  ◌∷◌, ◌++◌, append_assoc, append-nil, some, lt→ltb, arith, Bool-cases, length, length-append, drop,
  take_of_le, get_elem?, All,
}
use hyu_2021_network_protoco.Clib.Text.{
  Text, text_eq, text_eq_iff, c_string, c_string-append, IsText,
}
use hyu_2021_network_protoco.Ftp.Protocol.{max_buffer_size}
use hyu_2021_network_protoco.Ftp.Server.State.{Files}
use hyu_2021_network_protoco.Ftp.Server.Directory.{
  strcat, found, scan_entries, valid_directory_entry, list_entries, fread,
}

scan_entries-true : (t : Text) (es : List Text) → scan_entries t true es ≡ true
unfolding scan_entries
scan_entries-true t [] = refl
scan_entries-true t (e ∷ es) = elim (Bool-cases (text_eq e t)) [
  | inl k ↦ rw k (scan_entries-true t es)
  | inr k ↦ rw k (scan_entries-true t es)
]

-- The loop of `validDirectoryEntry` finds nothing exactly if every entry of the directory is the name that
-- it was given.
pub scan_entries_misses :
    (t : Text) (es : List Text) → (scan_entries t false es ≡ false) ↔ All (λ e. e ≡ t) es
unfolding scan_entries
scan_entries_misses t [] = (λ _. tt, λ _. refl)
scan_entries_misses t (e ∷ es) = elim (Bool-cases (text_eq e t)) [
  | inl k ↦ (
    λ h. ((text_eq_iff e t).0 k, (scan_entries_misses t es).0 (rw k at h)),
    λ h. rw k ((scan_entries_misses t es).1 h.1),
  )
  | inr k ↦ (
    λ h. absurd (cc (scan_entries-true t es, rw k at h)),
    λ h. absurd (cc ((text_eq_iff e t).1 h.0, k)),
  )
]

-- In a directory that opens, and whose first two entries differ, such as "." and "..", every name is found
-- valid, whether it is there or not.
pub valid_directory_entry_accepts :
    (files : Files) (path t a b : Text) (es : List Text)
    → files.opendir path ≡ some (a ∷ b ∷ es)
    → a ≢ b
    → valid_directory_entry files path (some t) ≡ found true
unfolding valid_directory_entry
valid_directory_entry_accepts files path t a b es opens different =
    elim (Bool-cases (scan_entries t false (a ∷ b ∷ es))) [
      | inl h ↦ ground arith
      | inr h ↦
          let same = (scan_entries_misses t (a ∷ b ∷ es)).0 h in
          absurd (different (same.0 ∙ sym same.1.0))
    ]

-- The listing's text: a bar in front of each name.
abbrev pub listing : List Text → Text
listing [] = []
listing (e ∷ es) = b'|' ∷ e ++ listing es

pub strcat_fits :
    (size : ℕ) (s t : Text) → length s + length t < size → strcat size s t ≡ some (s ++ t)
unfolding strcat
strcat_fits size s t h = rw (lt→ltb (length (s ++ t)) size (omega (arith, length-append s t)))

-- As long as the listing fits the buffer, `getDirectoryEntries` builds it whole.
pub list_entries-listing :
    (acc : Text) (es : List Text)
    → length acc + length (listing es) < max_buffer_size
    → list_entries acc es ≡ some (acc ++ listing es)
unfolding list_entries
list_entries-listing acc [] h = ap some (sym (append-nil acc))
list_entries-listing acc (e ∷ es) h =
    let grown = length-append acc (b'|' ∷ e) in
    let rest = length-append e (listing es) in
    rw (strcat_fits max_buffer_size acc (b'|' ∷ e) (omega arith), list_entries)
      (list_entries-listing (acc ++ b'|' ∷ e) es (omega arith)
        ∙ ap some (append_assoc acc (b'|' ∷ e) (listing es)))

drop-cons :
    (n : ℕ) (xs : List ℕ) (a : ℕ) → get_elem? xs n ≡ some a → (ys : List ℕ) × (drop n xs ≡ a ∷ ys)
drop-cons n [] a h = absurd (cc h)
drop-cons zero (x ∷ xs) a h = (xs, ground arith)
drop-cons (suc n) (x ∷ xs) a h = drop-cons n xs a h

-- A file with no NUL that is shorter than the buffer is read whole, if the block of `malloc` held a NUL
-- just behind it.
pub c_string-fread :
    (contents memory : List ℕ)
    → IsText contents
    → length contents ≤ max_buffer_size
    → get_elem? memory (length contents) ≡ some 0
    → c_string (fread max_buffer_size contents memory) ≡ contents
unfolding fread
c_string-fread contents memory text fits ends =
    let (ys, e) = drop-cons (length contents) memory 0 ends in
    rw (take_of_le max_buffer_size contents fits, e) (c_string-append contents ys text)
