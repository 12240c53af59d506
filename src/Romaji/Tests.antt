-- ===== src/Romaji/Tests.antt =====
-- Concrete runs of the converter and the buffer, from tsf/Ohagey/tools/kana-selftest.cpp, and the
-- theorems at concrete inputs.
use mathlib.Core.List.{foldl}
use ohagey.Common.{
  map, ℕ, ◌+◌, ◌≤◌, ◌<◌, ◌⊎◌, false, ◌≡◌, ◌≢◌, refl, inr, [], ◌∷◌, ◌++◌, All, arith,
}
use ohagey.Common.Text.{Text, wide}
use ohagey.Romaji.Rules.{is_vowel}
use ohagey.Romaji.Kana.{
  converter_runs, rebuild, rebuilt, RomajiKana, fresh, append, romaji_to_kana, romaji_to_display,
}
use ohagey.Romaji.Table.{IsWide}
use ohagey.Romaji.Output.{IsPending, rebuild_output}
use ohagey.Romaji.State.{
  IsRebuilt, key, erase, edit, run-IsRebuilt, Stores, signs, append_cases, folded, romaji_case,
}
use ohagey.Romaji.Buffer.{buffer_runs, buffer_reading, buffer_display}
use ohagey.Romaji.Buffer.Typing.{IsLetter}
use ohagey.Romaji.Buffer.Whole.{typed}
use ohagey.Romaji.Buffer.Shown.{closed, shown, buffer_shown, buffer_whole, buffer_reading-IsWide}
use ohagey.Romaji.Buffer.DoubleN.{typed_nn, nn_vowel}

readings :
    (romaji_to_kana (wide "sannin") ≡ wide "さんにん")
    × (romaji_to_kana (wide "Henkan") ≡ wide "へんかん")
    × (romaji_to_kana (wide "gakkou") ≡ wide "がっこう")
    × (romaji_to_kana (wide "qka") ≡ wide "か")
    × (romaji_to_display (wide "henk") ≡ wide "へんk")
unfolding converter_runs
readings = (refl, refl, refl, refl, refl)

buffers :
    (typed (wide "tte") ≡ wide "って")
    × (typed (wide "hona") ≡ wide "ほな")
    × (typed (wide "sannin") ≡ wide "さんいn")
unfolding buffer_runs
buffers = (refl, refl, refl)

abbrev kyon : Text
kyon = wide "kyon"

kyon-letters : All IsLetter kyon
unfolding converter_runs
kyon-letters = (
  record { accepted = refl; lower = refl },
  (
    record { accepted = refl; lower = refl },
    (record { accepted = refl; lower = refl }, (record { accepted = refl; lower = refl }, tt)),
  ),
)

buffer_whole_example :
    (buffer_reading (typed kyon) ≡ romaji_to_kana kyon)
    × (buffer_display (typed kyon) ≡ romaji_to_display kyon)
unfolding ohagey.Romaji.Rounds.is_plain
buffer_whole_example = buffer_whole kyon kyon-letters refl

ky-letters : All IsLetter (wide "ky")
unfolding converter_runs
ky-letters =
    (record { accepted = refl; lower = refl }, (record { accepted = refl; lower = refl }, tt))

ky-IsPending : IsPending (wide "ky")
unfolding converter_runs
ky-IsPending = inr refl

buffer_shown_example :
    (buffer_reading (wide "か" ++ wide "ky") ≡ wide "か" ++ closed (wide "ky"))
    × (buffer_display (wide "か" ++ wide "ky") ≡ wide "か" ++ shown (wide "ky"))
buffer_shown_example = buffer_shown (wide "か") (wide "ky") (omega arith) ky-letters ky-IsPending

buffer_reading-IsWide_example : IsWide (buffer_reading (wide "か" ++ wide "q1"))
buffer_reading-IsWide_example =
    buffer_reading-IsWide (wide "か") (wide "q1") (omega arith) (omega arith)

nn_vowel_example :
    (buffer_reading (typed_nn (wide "さ") b'i')
      ≡ wide "さ" ++ (wide "ん" ++ romaji_to_kana (b'i' ∷ [])))
    × (buffer_reading (typed_nn (wide "さ") b'i')
        ≢ wide "さ" ++ romaji_to_kana (b'n' ∷ b'n' ∷ b'i' ∷ []))
unfolding is_vowel
nn_vowel_example = nn_vowel (wide "さ") b'i' (omega arith) refl

rebuild_output_example :
    IsWide (rebuild (wide "toukyo'q")).0 × IsPending (rebuild (wide "toukyo'q")).1
rebuild_output_example = rebuild_output (wide "toukyo'q")

run-IsRebuilt_example : IsRebuilt (foldl edit fresh (key b'k' ∷ key b'1' ∷ key b'a' ∷ erase ∷ []))
run-IsRebuilt_example = run-IsRebuilt (key b'k' ∷ key b'1' ∷ key b'a' ∷ erase ∷ [])

abbrev after_k : RomajiKana
after_k = rebuilt (wide "k")

after_k-IsRebuilt : IsRebuilt after_k
unfolding rebuilt
after_k-IsRebuilt = refl

append_cases_example :
    (b'a' ≤ b'A' → b'A' ≤ b'z' → Stores b'A' b'A' after_k)
    × (b'A' ≤ b'A' → b'A' ≤ b'Z' → Stores b'A' (b'A' + 0x20) after_k)
    × All (λ (sign : ℕ). Stores sign sign after_k) signs
    × ((b'A' < b'A') ⊎ ((b'Z' < b'A') × (b'A' < b'a')) ⊎ (b'z' < b'A')
        → All (λ (sign : ℕ). b'A' ≢ sign) signs
        → append b'A' after_k ≡ (after_k, false))
append_cases_example = append_cases b'A' after_k after_k-IsRebuilt

romaji_case_example :
    (romaji_to_kana (map folded (wide "KyOn")) ≡ romaji_to_kana (wide "KyOn"))
    × (romaji_to_display (map folded (wide "KyOn")) ≡ romaji_to_display (wide "KyOn"))
romaji_case_example = romaji_case (wide "KyOn")
