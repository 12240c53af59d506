-- ===== src/Romaji/Buffer/DoubleN.antt =====
-- `nn` before a vowel: the buffer and the whole conversion part ways (tsf/Ohagey/RomajiKana.cpp).
use mathlib.Core.Path.{subst}
use ohagey.Common.{
  ℕ, ◌≤◌, ◌≡◌, ◌≢◌, refl, sym, ap, ◌∙◌, ◌⊎◌, inl, inr, true, [], ◌∷◌, ◌++◌, append_assoc,
  append-nil, arith, All-append,
}
use ohagey.Common.Text.{Text, wide}
use ohagey.Romaji.Rules.{is_vowel}
use ohagey.Romaji.Kana.{converter_runs, rebuild, is_accepted, lower_case, romaji_to_kana}
use ohagey.Romaji.Table.{IsWide}
use ohagey.Romaji.Buffer.{buffer_after_keystroke, buffer_reading}
use ohagey.Romaji.Buffer.Typing.{IsLetter, keystroke_lem}
use ohagey.Romaji.Buffer.Shown.{buffer_shown}

append_cancel : (s x y : Text) → s ++ x ≡ s ++ y → x ≡ y
append_cancel [] x y e = e
append_cancel (c ∷ s) x y e = append_cancel s x y (cc)

vowel-cases :
    (v : ℕ)
    → is_vowel v ≡ true
    → (v ≡ b'a') ⊎ ((v ≡ b'i') ⊎ ((v ≡ b'u') ⊎ ((v ≡ b'e') ⊎ (v ≡ b'o'))))
unfolding is_vowel
vowel-cases v h = grind arith

-- The kana of the vowel, and that `nn` with the vowel is not ん with that kana.
record Vowel (v : ℕ) : Type 0 where
  kana : ℕ
  kana_wide : 0x80 ≤ kana
  read : romaji_to_kana (v ∷ []) ≡ kana ∷ []
  alone : rebuild (v ∷ []) ≡ (kana ∷ [], [])
  accepted : is_accepted v ≡ true
  lower : lower_case v ≡ v
  differs : romaji_to_kana (b'n' ∷ b'n' ∷ v ∷ []) ≢ wide "ん" ++ kana ∷ []

at_a : Vowel b'a'
unfolding converter_runs
at_a = record {
  kana = 0x3042;
  kana_wide = omega arith;
  alone = refl;
  read = refl;
  accepted = refl;
  lower = refl;
  differs = λ e. ground arith;
}

at_i : Vowel b'i'
unfolding converter_runs
at_i = record {
  kana = 0x3044;
  kana_wide = omega arith;
  alone = refl;
  read = refl;
  accepted = refl;
  lower = refl;
  differs = λ e. ground arith;
}

at_u : Vowel b'u'
unfolding converter_runs
at_u = record {
  kana = 0x3046;
  kana_wide = omega arith;
  alone = refl;
  read = refl;
  accepted = refl;
  lower = refl;
  differs = λ e. ground arith;
}

at_e : Vowel b'e'
unfolding converter_runs
at_e = record {
  kana = 0x3048;
  kana_wide = omega arith;
  alone = refl;
  read = refl;
  accepted = refl;
  lower = refl;
  differs = λ e. ground arith;
}

at_o : Vowel b'o'
unfolding converter_runs
at_o = record {
  kana = 0x304A;
  kana_wide = omega arith;
  alone = refl;
  read = refl;
  accepted = refl;
  lower = refl;
  differs = λ e. ground arith;
}

vowel : (v : ℕ) → is_vowel v ≡ true → Vowel v
vowel v h = elim (vowel-cases v h) [
  | inl e ↦ subst Vowel (sym e) at_a
  | inr (inl e) ↦ subst Vowel (sym e) at_i
  | inr (inr (inl e)) ↦ subst Vowel (sym e) at_u
  | inr (inr (inr (inl e))) ↦ subst Vowel (sym e) at_e
  | inr (inr (inr (inr e))) ↦ subst Vowel (sym e) at_o
]

nn_pending : (rebuild (b'n' ∷ []) ≡ ([], b'n' ∷ [])) × (rebuild (b'n' ∷ b'n' ∷ []) ≡ (wide "ん", []))
unfolding converter_runs
nn_pending = (refl, refl)

n-IsLetter : IsLetter b'n'
unfolding converter_runs
n-IsLetter = record { accepted = refl; lower = refl }

abbrev pub typed_nn : Text → ℕ → Text
typed_nn s v =
    buffer_after_keystroke (buffer_after_keystroke (buffer_after_keystroke s b'n') b'n') v

typed_nn_lem :
    (s : Text) (v : ℕ) → IsWide s → (f : Vowel v) → typed_nn s v ≡ (s ++ wide "ん") ++ (f.kana ∷ [])
typed_nn_lem s v hs f =
    ap (λ b. buffer_after_keystroke (buffer_after_keystroke b b'n') v) first
    ∙ ap (λ b. buffer_after_keystroke b v) second
    ∙ third
  where
    first : buffer_after_keystroke s b'n' ≡ s ++ b'n' ∷ []
    first =
        ap (λ b. buffer_after_keystroke b b'n') (sym (append-nil s))
        ∙ keystroke_lem s [] b'n' hs tt
        ∙ rw (n-IsLetter.accepted, n-IsLetter.lower)
            (ap (λ (p : Text × Text). s ++ (p.0 ++ p.1)) nn_pending.0)

    second : buffer_after_keystroke (s ++ b'n' ∷ []) b'n' ≡ s ++ wide "ん"
    second =
        keystroke_lem s (b'n' ∷ []) b'n' hs (n-IsLetter, tt)
        ∙ rw (n-IsLetter.accepted, n-IsLetter.lower)
            (ap (λ (p : Text × Text). s ++ (p.0 ++ p.1)) nn_pending.1)

    closed-IsWide : IsWide (s ++ wide "ん")
    closed-IsWide = All-append (λ c. 0x80 ≤ c) s (wide "ん") hs (omega arith)

    third : buffer_after_keystroke (s ++ wide "ん") v ≡ (s ++ wide "ん") ++ (f.kana ∷ [])
    third =
        ap (λ b. buffer_after_keystroke b v) (sym (append-nil (s ++ wide "ん")))
        ∙ keystroke_lem (s ++ wide "ん") [] v closed-IsWide tt
        ∙ rw (f.accepted, f.lower)
            (ap (λ (p : Text × Text). (s ++ wide "ん") ++ (p.0 ++ p.1)) f.alone)

typed_nn_reads :
    (s : Text) (v : ℕ)
    → IsWide s
    → (f : Vowel v) → buffer_reading (typed_nn s v) ≡ s ++ (wide "ん" ++ f.kana ∷ [])
typed_nn_reads s v hs f =
    let whole = (s ++ wide "ん") ++ f.kana ∷ [] in
    let whole-IsWide : IsWide whole =
      All-append (λ c. 0x80 ≤ c) (s ++ wide "ん") (f.kana ∷ [])
        (All-append (λ c. 0x80 ≤ c) s (wide "ん") hs (omega arith)) (f.kana_wide, tt) in
    ap buffer_reading (typed_nn_lem s v hs f ∙ sym (append-nil whole))
    ∙ (buffer_shown whole [] whole-IsWide tt (inl refl)).0
    ∙ append-nil whole
    ∙ append_assoc s (wide "ん") (f.kana ∷ [])

-- Typed one by one behind any kana, `n`, `n` and a vowel read as ん and the kana of the vowel alone,
-- which is never the reading that the three letters have when they are converted together.
pub nn_vowel :
    (s : Text) (v : ℕ)
    → IsWide s
    → is_vowel v ≡ true
    → (buffer_reading (typed_nn s v) ≡ s ++ (wide "ん" ++ romaji_to_kana (v ∷ [])))
      × (buffer_reading (typed_nn s v) ≢ s ++ romaji_to_kana (b'n' ∷ b'n' ∷ v ∷ []))
nn_vowel s v hs h =
    let f : Vowel v = vowel v h in
    let reads = typed_nn_reads s v hs f in
    (
      reads ∙ ap (λ t. s ++ (wide "ん" ++ t)) (sym f.read),
      λ e. f.differs (append_cancel s _ _ (sym e ∙ reads)),
    )
