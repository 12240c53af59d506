-- ===== src/Romaji/Output.antt =====
-- What `Rebuild` (tsf/Ohagey/RomajiKana.cpp) leaves in the kana and in the pending letters.
use mathlib.Core.Path.{subst}
use ohagey.Common.{
  ℕ, zero, suc, ◌≤◌, ◌≡◌, refl, ◌⊎◌, inl, inr, true, Option, none, some, [], ◌∷◌, ◌++◌, arith,
  length, take, drop, All, All-append, All-drop, Option-cases,
}
use ohagey.Common.Text.{Text}
use ohagey.Romaji.Rules.{lookup, is_prefix_of_rule}
use ohagey.Romaji.Table.{IsWide, lookup-IsWide}
use ohagey.Romaji.Kana.{
  Round, emit, hold, or_else, close_n, syllabic_n, sokuon, longest_match, no_match, round,
  rebuild_loop, rebuild,
}
use ohagey.Romaji.Rebuild.{Round-cases}

-- What a round may do to `tail`: the kana are not ASCII, and only the beginning of a rule is held.
abbrev Fine : Text → Round → Type 0
Fine tail (emit k n) = IsWide k
Fine tail hold = is_prefix_of_rule tail ≡ true

abbrev FineIf : Text → Option Round → Type 0
FineIf tail none = Unit {0}
FineIf tail (some r) = Fine tail r

close_n-Fine : (next : ℕ) (more tail : Text) → FineIf tail (close_n next more)
unfolding close_n
close_n-Fine next [] tail = ground arith
close_n-Fine next (c ∷ more) tail = ground arith

syllabic_n-Fine : (tail : Text) → FineIf tail (syllabic_n tail)
unfolding syllabic_n
syllabic_n-Fine [] = tt
syllabic_n-Fine (c ∷ []) = tt
syllabic_n-Fine (c ∷ next ∷ more) = ground (arith, close_n-Fine next more (c ∷ next ∷ more))

sokuon-Fine : (tail : Text) → FineIf tail (sokuon tail)
unfolding sokuon
sokuon-Fine [] = tt
sokuon-Fine (c ∷ []) = tt
sokuon-Fine (c ∷ next ∷ more) = ground arith

longest_match-Fine : (n : ℕ) (tail : Text) → FineIf tail (longest_match n tail)
unfolding longest_match
longest_match-Fine zero tail = tt
longest_match-Fine (suc n) tail = elim (Option-cases (lookup (take (suc n) tail))) [
  | inl e ↦ rw (e, longest_match) (longest_match-Fine n tail)
  | inr (k, e) ↦ rw (e, longest_match) (lookup-IsWide (take (suc n) tail) e)
]

or_else-Fine :
    (tail : Text) (o : Option Round) (r : Round)
    → FineIf tail o
    → Fine tail r
    → Fine tail (or_else o r)
or_else-Fine tail none r ho hr = hr
or_else-Fine tail (some r') r ho hr = ho

no_match-Fine : (tail : Text) → Fine tail (no_match tail)
unfolding no_match
no_match-Fine tail = ground arith

round-Fine : (tail : Text) → Fine tail (round tail)
unfolding round
round-Fine tail = or_else-Fine tail (syllabic_n tail) _ (syllabic_n-Fine tail) (
    or_else-Fine tail (sokuon tail) _ (sokuon-Fine tail)
      (or_else-Fine tail (longest_match _ tail) _ (longest_match-Fine _ tail) (no_match-Fine tail)))

-- The pending letters are none, or they could still grow into a rule.
abbrev pub IsPending : Text → Type 0
IsPending p = (p ≡ []) ⊎ (is_prefix_of_rule p ≡ true)

rebuild_loop-Fine :
    (f : ℕ) (tail kana : Text)
    → IsWide kana
    → IsWide (rebuild_loop f tail kana).0 × IsPending (rebuild_loop f tail kana).1
unfolding rebuild_loop
rebuild_loop-Fine zero tail kana h = (h, inl refl)
rebuild_loop-Fine (suc f) [] kana h = (h, inl refl)
rebuild_loop-Fine (suc f) (c ∷ tail) kana h = elim (Round-cases (round (c ∷ tail))) [
  | inl (k, n, e) ↦
      let k-IsWide : IsWide k = subst (Fine (c ∷ tail)) e (round-Fine (c ∷ tail)) in
      rw (e, rebuild_loop)
        (rebuild_loop-Fine f (drop n (c ∷ tail)) (kana ++ k)
          (All-append (λ x. 0x80 ≤ x) kana k h k-IsWide))
  | inr e ↦ rw (e, rebuild_loop) (h, inr (subst (Fine (c ∷ tail)) e (round-Fine (c ∷ tail))))
]

rebuild_loop-All :
    (P : ℕ → Type 0) (f : ℕ) (tail kana : Text) → All P tail → All P (rebuild_loop f tail kana).1
unfolding rebuild_loop
rebuild_loop-All P zero tail kana h = tt
rebuild_loop-All P (suc f) [] kana h = tt
rebuild_loop-All P (suc f) (c ∷ tail) kana h = elim (Round-cases (round (c ∷ tail))) [
  | inl (k, n, e) ↦
      rw (e, rebuild_loop)
        (rebuild_loop-All P f (drop n (c ∷ tail)) (kana ++ k) (All-drop P n (c ∷ tail) h))
  | inr e ↦ rw (e, rebuild_loop) h
]

-- Whatever the romaji, no resolved kana is ASCII, and the pending letters are none or a proper
-- beginning of a spelling in the table.
pub rebuild_output : (romaji : Text) → IsWide (rebuild romaji).0 × IsPending (rebuild romaji).1
unfolding rebuild rebuild_loop
rebuild_output romaji = rebuild_loop-Fine (length romaji) romaji [] tt

-- What holds of every letter holds of the pending ones.
pub rebuild_pending : (P : ℕ → Type 0) (romaji : Text) → All P romaji → All P (rebuild romaji).1
unfolding rebuild rebuild_loop
rebuild_pending P romaji h = rebuild_loop-All P (length romaji) romaji [] h
