-- ===== src/Composer/Punctuation/Agree.antt =====
-- `IsPunctuation` against `GetPunctuation` (tsf/SampleIME/CompositionProcessorEngine.cpp).
use ohagey.Common.{
  ℕ, ◌≡◌, refl, ◌∙◌, Bool, true, false, not, ◌||◌, Option, none, some, List, [], ◌∷◌, ◌==◌, arith,
  every, Bool-cases, inl, inr,
}
use ohagey.Composer.Punctuation.{
  Punctuation, punctuation_table, is_in_table, is_in_pairs, is_in_nest_pairs, is_punctuation,
  from_table, from_pairs, from_nest_pairs, get_punctuation, no_pairs, or_nul, table_answer,
}

table_agrees :
    (ps : List Punctuation) (wch : ℕ)
    → every (λ p. not (p.punctuation == 0)) ps ≡ true
    → is_in_table ps wch ≡ not (or_nul (from_table ps wch) == 0)
unfolding is_in_table from_table
table_agrees [] wch h = refl
table_agrees (p ∷ ps) wch h = elim (Bool-cases (p.code == wch)) [
  | inl e ↦ rw e (ground arith)
  | inr e ↦ rw e (table_agrees ps wch (ground arith))
]

marks : every (λ p. not (p.punctuation == 0)) punctuation_table ≡ true
unfolding punctuation_table
marks = refl

or_false : (b : Bool) → (b || false) ≡ b
or_false true = refl
or_false false = refl

answers :
    (wch : ℕ) (found : Option ℕ) (b : Bool)
    → b ≡ not (or_nul found == 0)
    → ((b || false) ≡ not ((table_answer no_pairs wch found).0 == 0))
      × ((table_answer no_pairs wch found).1 ≡ no_pairs)
unfolding from_pairs from_nest_pairs
answers wch none b e = (or_false b ∙ e, refl)
answers wch (some w) b e = (or_false b ∙ e, refl)

-- With the pairs as they are set up, a key is a punctuation key exactly when it has a mark that is
-- not 0, and getting the mark changes nothing.
pub punctuation_agrees :
    (wch : ℕ)
    → (is_punctuation no_pairs wch ≡ not ((get_punctuation wch no_pairs).0 == 0))
      × ((get_punctuation wch no_pairs).1 ≡ no_pairs)
unfolding is_punctuation get_punctuation is_in_pairs is_in_nest_pairs from_pairs from_nest_pairs
punctuation_agrees wch =
    answers wch (from_table punctuation_table wch) (is_in_table punctuation_table wch)
      (table_agrees punctuation_table wch marks)
