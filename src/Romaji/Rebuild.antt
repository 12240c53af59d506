-- ===== src/Romaji/Rebuild.antt =====
-- The loop of `RomajiKana::Rebuild` (tsf/Ohagey/RomajiKana.cpp): it ends, and what it yields.
use ohagey.Common.{
  ℕ, zero, suc, ◌≤◌, ◌≡◌, refl, ap, ◌∙◌, ◌⊎◌, inl, inr, Option, none, some, [], ◌∷◌, ◌++◌,
  append-nil, append_assoc, arith, length, drop, length-drop,
}
use ohagey.Common.Text.{Text}
use ohagey.Romaji.Kana.{
  Round, emit, hold, or_else, close_n, syllabic_n, sokuon, longest_match, no_match, round,
  rebuild_loop, rebuild,
}

-- A round that goes on takes a letter at least, and no more than there are.
abbrev Takes : ℕ → Text → Type 0
Takes n tail = (1 ≤ n) × (n ≤ length tail)

abbrev Advances : Text → Option Round → Type 0
Advances tail none = Unit {0}
Advances tail (some (emit k n)) = Takes n tail
Advances tail (some hold) = ⊥

syllabic_n-Advances : (tail : Text) → Advances tail (syllabic_n tail)
unfolding syllabic_n close_n
syllabic_n-Advances [] = tt
syllabic_n-Advances (c ∷ []) = tt
syllabic_n-Advances (c ∷ next ∷ []) = ground arith
syllabic_n-Advances (c ∷ next ∷ d ∷ more) = ground arith

sokuon-Advances : (tail : Text) → Advances tail (sokuon tail)
unfolding sokuon
sokuon-Advances [] = tt
sokuon-Advances (c ∷ []) = tt
sokuon-Advances (c ∷ next ∷ more) = ground arith

longest_match-Advances :
    (n : ℕ) (tail : Text) → n ≤ length tail → Advances tail (longest_match n tail)
unfolding longest_match
longest_match-Advances zero tail h = tt
longest_match-Advances (suc n) tail h = ground (arith, longest_match-Advances n tail)

or_else_emit :
    (tail : Text) (o : Option Round) (r : Round) {k : Text} {n : ℕ}
    → Advances tail o
    → (r ≡ emit k n → Takes n tail)
    → or_else o r ≡ emit k n
    → Takes n tail
or_else_emit tail none r a later e = later e
or_else_emit tail (some (emit k n)) r a later e = ground arith
or_else_emit tail (some hold) r a later e = absurd a

no_match_emit :
    (c : ℕ) (tail : Text) {k : Text} {n : ℕ} → no_match (c ∷ tail) ≡ emit k n → Takes n (c ∷ tail)
unfolding no_match
no_match_emit c tail e = ground arith

-- Every round that goes on takes a letter at least, and stays within the romaji.
pub round_advances :
    (c : ℕ) (tail : Text) {k : Text} {n : ℕ}
    → round (c ∷ tail) ≡ emit k n
    → (1 ≤ n) × (n ≤ length (c ∷ tail))
unfolding round
round_advances c tail =
    let x = c ∷ tail in
    or_else_emit x (syllabic_n x) _ (syllabic_n-Advances x) (
      or_else_emit x (sokuon x) _ (sokuon-Advances x) (
        or_else_emit x (longest_match _ x) _ (longest_match-Advances _ x (omega arith))
          (no_match_emit c tail)))

pub Round-cases : (r : Round) → ((k : Text) × (n : ℕ) × (r ≡ emit k n)) ⊎ (r ≡ hold)
Round-cases (emit k n) = inl (k, n, refl)
Round-cases hold = inr refl

-- Fuel beyond the letters that are left changes nothing.
rebuild_loop_fuel :
    (f g : ℕ) (tail kana : Text)
    → length tail ≤ f
    → length tail ≤ g
    → rebuild_loop f tail kana ≡ rebuild_loop g tail kana
unfolding rebuild_loop
rebuild_loop_fuel zero zero tail kana hf hg = refl
rebuild_loop_fuel zero (suc g) [] kana hf hg = refl
rebuild_loop_fuel zero (suc g) (c ∷ tail) kana hf hg = absurd (omega arith)
rebuild_loop_fuel (suc f) zero [] kana hf hg = refl
rebuild_loop_fuel (suc f) zero (c ∷ tail) kana hf hg = absurd (omega arith)
rebuild_loop_fuel (suc f) (suc g) [] kana hf hg = refl
rebuild_loop_fuel (suc f) (suc g) (c ∷ tail) kana hf hg = elim (Round-cases (round (c ∷ tail))) [
  | inl (k, n, e) ↦
      let shorter : length (drop n (c ∷ tail)) ≤ length tail =
        omega (arith, round_advances c tail e, length-drop n (c ∷ tail)) in
      rw (e, rebuild_loop)
        (rebuild_loop_fuel f g (drop n (c ∷ tail)) (kana ++ k) (omega arith) (omega arith))
  | inr e ↦ rw (e, rebuild_loop)
]

-- The kana found so far stand in front of what the rest yields.
rebuild_loop-append :
    (f : ℕ) (tail kana : Text)
    → rebuild_loop f tail kana ≡ (kana ++ (rebuild_loop f tail []).0, (rebuild_loop f tail []).1)
unfolding rebuild_loop
rebuild_loop-append zero tail kana = rw append-nil
rebuild_loop-append (suc f) [] kana = rw append-nil
rebuild_loop-append (suc f) (c ∷ tail) kana = elim (Round-cases (round (c ∷ tail))) [
  | inl (k, n, e) ↦
      rw (e, rebuild_loop)
        (rw (rebuild_loop-append f (drop n (c ∷ tail)) (kana ++ k))
          (rw (rebuild_loop-append f (drop n (c ∷ tail)) k) (rw append_assoc)))
  | inr e ↦ rw (e, rebuild_loop, append-nil)
]

-- The kana and the pending letters of a whole romaji string follow from its first round: a round
-- that emits `k` and takes `n` letters puts `k` in front of the kana of the rest and leaves the
-- rest's pending letters, a round that holds leaves everything pending, and no romaji is nothing.
pub rebuild_unroll :
    (c : ℕ) (tail : Text)
    → (rebuild [] ≡ ([], []))
      × ((k : Text) (n : ℕ)
          → round (c ∷ tail) ≡ emit k n
          → rebuild (c ∷ tail)
            ≡ (k ++ (rebuild (drop n (c ∷ tail))).0, (rebuild (drop n (c ∷ tail))).1))
      × (round (c ∷ tail) ≡ hold → rebuild (c ∷ tail) ≡ ([], c ∷ tail))
unfolding rebuild rebuild_loop
rebuild_unroll c tail = (refl, emits, λ e. rw (e, rebuild_loop))
  where
    emits :
        (k : Text) (n : ℕ)
        → round (c ∷ tail) ≡ emit k n
        → rebuild (c ∷ tail)
          ≡ (k ++ (rebuild (drop n (c ∷ tail))).0, (rebuild (drop n (c ∷ tail))).1)
    emits k n e =
        let rest = drop n (c ∷ tail) in
        let shorter : length rest ≤ length tail =
          omega (arith, round_advances c tail e, length-drop n (c ∷ tail)) in
        rw (e, rebuild_loop)
          (rebuild_loop-append (length tail) rest k
            ∙ ap (λ (p : Text × Text). (k ++ p.0, p.1))
                (rebuild_loop_fuel (length tail) (length rest) rest [] shorter (omega arith)))
