-- ===== src/Romaji/Table.antt =====
-- What the table of spellings (tsf/Ohagey/RomajiKana.cpp) gives to every text that it answers.
use mathlib.Core.Path.{subst}
use ohagey.Common.{
  ◌≤◌, ◌≡◌, refl, Bool, true, some, List, [], ◌∷◌, arith, leb, every, All, Bool-cases, inl, inr,
}
use ohagey.Common.Text.{Text, text_eq, text_eq→eq}
use ohagey.Romaji.Rules.{Rule, rules, lookup_in, lookup}

-- A rule that the search found has every property that a test of the whole table shows.
pub lookup_in_rule :
    (p : Rule → Bool) (rs : List Rule) (romaji : Text) {kana : Text}
    → every p rs ≡ true
    → lookup_in rs romaji ≡ some kana
    → (r : Rule) × (p r ≡ true) × (r.romaji ≡ romaji) × (r.kana ≡ kana)
unfolding lookup_in
lookup_in_rule p [] romaji h e = cc
lookup_in_rule p (r ∷ rs) romaji h e = elim (Bool-cases (text_eq romaji r.romaji)) [
  | inl t ↦ (r, ground arith, cc (text_eq→eq romaji r.romaji t), ground arith)
  | inr t ↦ lookup_in_rule p rs romaji (ground arith) (ground arith)
]

-- Code units that are not ASCII.
abbrev pub IsWide : Text → Type 0
IsWide s = All (λ c. 0x80 ≤ c) s

IsWide-test : (s : Text) → every (leb 0x80) s ≡ true → IsWide s
IsWide-test [] h = tt
IsWide-test (c ∷ s) h = (ground arith, IsWide-test s (ground arith))

-- No spelling yields ASCII.
pub lookup-IsWide : (romaji : Text) {kana : Text} → lookup romaji ≡ some kana → IsWide kana
unfolding lookup rules
lookup-IsWide romaji e =
    let (r, h, _, k) = lookup_in_rule (λ r. every (leb 0x80) r.kana) rules romaji refl e in
    subst IsWide k (IsWide-test r.kana h)
