-- ===== src/Echoer/Reuse.antt =====
-- What the server of the echoer prints out of its one buffer.
use hyu_2021_network_protoco.Common.{
  ℕ, zero, suc, ◌+◌, ◌≤◌, ◌<◌, ◌≡◌, refl, ◌∙◌, sym, ap, false, List, [], ◌∷◌, ◌++◌, ◌-◌,
  length-append, length-drop, drop_all, All-append, append-nil, append_assoc, map, arith, All,
  length, drop, take_of_le, replicate,
}
use hyu_2021_network_protoco.Clib.Text.{Text, c_string-append, IsText}
use hyu_2021_network_protoco.Clib.Buffers.{holding, drop-holding, c_string-holding}
use hyu_2021_network_protoco.Echoer.{
  max_buffer_size, Echoer, bytes, recv, goes_on, serve, send_word, send_all, serve_all,
}

-- A message over the text that the buffer holds.
abbrev pub overlay : Text → Text → Text
overlay m old = m ++ drop (length m) old

recv_over :
    (m old : Text) (rest : ℕ)
    → length m ≤ max_buffer_size
    → recv (bytes m) (holding old rest) ≡ holding (overlay m old) (rest - (length m - length old))
unfolding recv
recv_over m old rest fits = rw (take_of_le max_buffer_size m fits) (
    ap (λ r. m ++ r) (drop-holding (length m) old rest)
    ∙ sym (append_assoc m (drop (length m) old) _))

drop-IsText : (n : ℕ) (s : Text) → IsText s → IsText (drop n s)
drop-IsText zero s h = h
drop-IsText (suc n) [] h = tt
drop-IsText (suc n) (c ∷ s) h = drop-IsText n s h.1

overlay-IsText : (m old : Text) → IsText m → IsText old → IsText (overlay m old)
overlay-IsText m old h k =
    All-append (λ c. 0 < c) m (drop (length m) old) h (drop-IsText (length m) old k)

length-overlay : (m old : Text) → length (overlay m old) ≡ length m + (length old - length m)
length-overlay m old =
    length-append m (drop (length m) old) ∙ ap (λ k. length m + k) (length-drop (length m) old)

-- The texts that the buffer holds one after the other.
abbrev pub overlays : Text → List Text → List Text
overlays old [] = []
overlays old (m ∷ ms) = overlay m old ∷ overlays (overlay m old) ms

-- A message has no NUL, and leaves room for one in the buffer.
abbrev pub IsWord : Text → Type 0
IsWord m = IsText m × (length m < max_buffer_size)

-- The server prints, for each message, the message with what stands behind it of the text printed before:
-- its own text alone, if that is not shorter. This is for messages with no NUL that are shorter than the
-- buffer, each received by itself.
pub serve_all-overlays :
    (ms : List Text) (old : Text) (rest : ℕ)
    → All IsWord ms
    → IsText old
    → 0 < rest
    → length old + rest ≡ max_buffer_size
    → serve_all (map (λ m. bytes m) ms) (record { buff = holding old rest; broken = false })
      ≡ overlays old ms
unfolding serve_all serve
serve_all-overlays [] old rest words text left size = refl
serve_all-overlays (m ∷ ms) old rest words text left size =
    let rest' : ℕ = rest - (length m - length old) in
    let room : 0 < rest' = omega (arith, words.0.1) in
    let next = overlay-IsText m old words.0.0 text in
    rw
      (
        recv_over m old rest (omega (arith, words.0.1)),
        c_string-holding (overlay m old) rest' room next,
      )
      (ap (λ r. overlay m old ∷ r)
        (serve_all-overlays ms (overlay m old) rest' words.1 next room
          (omega (arith, length-overlay m old))))

-- No text is shorter than the one before it, nor than `least`.
abbrev pub Grows : ℕ → List Text → Type 0
Grows least [] = Unit
Grows least (m ∷ ms) = (least ≤ length m) × Grows (length m) ms

overlays-Grows : (old : Text) (ms : List Text) → Grows (length old) ms → overlays old ms ≡ ms
overlays-Grows old [] h = refl
overlays-Grows old (m ∷ ms) h =
    let whole : overlay m old ≡ m = ap (λ r. m ++ r) (drop_all (length m) old h.0) ∙ append-nil m in
    rw whole (ap (λ r. m ∷ r) (overlays-Grows m ms h.1))

-- A word has no NUL, and fits behind the first byte of the client's buffer.
abbrev pub IsInput : Text → Type 0
IsInput w = IsText w × (length w + 1 < max_buffer_size)

-- The client sends the word that it has just read, whatever the buffer held before.
send_word_lem :
    (w : Text) (b : ℕ) (buff : List ℕ)
    → IsInput w
    → (buff' : List ℕ) × (send_word w (record { buff = b ∷ buff; broken = false })
        ≡ goes_on w (record { buff = b ∷ buff'; broken = false }))
unfolding send_word
send_word_lem w b buff h =
    let rest : List ℕ = drop (length w + 2) (b ∷ buff) in
    (w ++ 0 ∷ rest, ground (arith, h.1, c_string-append w rest h.0))

send_all_lem :
    (ws : List Text) (b : ℕ) (buff : List ℕ)
    → All IsInput ws
    → send_all ws (record { buff = b ∷ buff; broken = false }) ≡ ws
unfolding send_all
send_all_lem [] b buff h = refl
send_all_lem (w ∷ ws) b buff h =
    let (buff', sent) = send_word_lem w b buff h.0 in
    rw (sent, send_all) (ap (λ r. w ∷ r) (send_all_lem ws b buff' h.1))

inputs-IsWord : (ws : List Text) → All IsInput ws → All IsWord ws
inputs-IsWord [] h = tt
inputs-IsWord (w ∷ ws) h = ((h.0.0, omega (arith, h.0.1)), inputs-IsWord ws h.1)

abbrev pub cleared : Echoer
cleared = record { buff = replicate max_buffer_size 0; broken = false }

-- From the start, with both buffers full of NUL bytes: if no word that the client reads is shorter than the
-- one before it, the server prints exactly these words, in order. This is for words with no NUL that fit
-- the client's buffer, each received by itself.
pub growing_words_arrive :
    (words : List Text)
    → All IsInput words
    → Grows 0 words
    → serve_all (map (λ m. bytes m) (send_all words cleared)) cleared ≡ words
growing_words_arrive words inputs grows =
    ap (λ ms. serve_all (map (λ m. bytes m) ms) cleared)
      (send_all_lem words 0 (replicate 1023 0) inputs)
    ∙ serve_all-overlays words [] max_buffer_size (inputs-IsWord words inputs) tt (omega arith) refl
    ∙ overlays-Grows [] words grows
