-- ===== src/Clib/Buffers.antt =====
-- Buffers of bytes that hold a text and NUL bytes behind it.
use hyu_2021_network_protoco.Common.{
  ℕ, zero, suc, ◌<◌, ◌≡◌, ◌∙◌, ap, List, [], ◌∷◌, ◌++◌, ◌-◌, arith, length, drop, replicate,
}
use hyu_2021_network_protoco.Clib.Text.{Text, c_string, c_string-append, IsText}

-- A buffer that holds a text, with only NUL bytes behind it.
abbrev pub holding : Text → ℕ → List ℕ
holding text rest = text ++ replicate rest 0

pub drop-replicate : (n rest : ℕ) → drop n (holding [] rest) ≡ holding [] (rest - n)
drop-replicate zero rest = ap (holding []) (omega arith)
drop-replicate (suc n) zero =
    let none_left : 0 ≡ 0 - suc n = omega arith in ap (holding []) none_left
drop-replicate (suc n) (suc rest) = drop-replicate n rest ∙ ap (holding []) (omega arith)

pub drop-holding :
    (n : ℕ) (old : Text) (rest : ℕ)
    → drop n (holding old rest) ≡ holding (drop n old) (rest - (n - length old))
drop-holding zero old rest = ap (holding old) (omega arith)
drop-holding (suc n) [] rest = drop-replicate (suc n) rest ∙ ap (holding []) (omega arith)
drop-holding (suc n) (x ∷ old) rest =
    drop-holding n old rest ∙ ap (holding (drop n old)) (omega arith)

pub c_string-holding :
    (text : Text) (rest : ℕ) → 0 < rest → IsText text → c_string (holding text rest) ≡ text
c_string-holding text zero some_left h = absurd (omega arith)
c_string-holding text (suc rest) some_left h = c_string-append text (replicate rest 0) h
