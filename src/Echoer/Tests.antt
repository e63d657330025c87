-- ===== src/Echoer/Tests.antt =====
-- The theorems about the echoer on concrete inputs.
use hyu_2021_network_protoco.Common.{◌≡◌, refl, false, List, [], ◌∷◌, map, arith, All}
use hyu_2021_network_protoco.Clib.Text.{Text, codes}
use hyu_2021_network_protoco.Echoer.{bytes, send_all, serve_all}
use hyu_2021_network_protoco.Clib.Buffers.{holding}
use hyu_2021_network_protoco.Echoer.Reuse.{
  IsWord, Grows, serve_all-overlays, growing_words_arrive, IsInput, cleared,
}

-- The second text is shorter than the first.
abbrev shrinking : List Text
shrinking = codes "hello" ∷ codes "ab" ∷ []

abbrev growing : List Text
growing = codes "ab" ∷ codes "hello" ∷ []

shrinking_words : All IsWord shrinking
shrinking_words = omega arith

growing_inputs : All IsInput growing
growing_inputs = omega arith

serve_all-overlays_example :
    serve_all (map (λ m. bytes m) shrinking) (record { buff = holding [] 1024; broken = false })
    ≡ codes "hello" ∷ codes "abllo" ∷ []
serve_all-overlays_example =
    serve_all-overlays shrinking [] 1024 shrinking_words tt (omega arith) refl

growing-Grows : Grows 0 growing
growing-Grows = omega arith

growing_words_arrive_example :
    serve_all (map (λ m. bytes m) (send_all growing cleared)) cleared ≡ growing
growing_words_arrive_example = growing_words_arrive growing growing_inputs growing-Grows
