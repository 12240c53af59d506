-- ===== src/Romaji/Pending.antt =====
-- Pending letters rebuild to themselves (tsf/Ohagey/RomajiKana.cpp).
use mathlib.Core.Path.{subst}
use ohagey.Common.{
  ℕ, zero, suc, ◌<◌, ◌≡◌, refl, inl, inr, Bool, true, false, ◌&&◌, ◌||◌, List, [], ◌∷◌, arith, leb,
  ltb, length, take, every, Bool-cases,
}
use ohagey.Common.Text.{Text, starts_with}
use ohagey.Romaji.Rules.{
  Rule, rules, lookup, lookup_in, grows_in, is_prefix_of_rule, is_vowel, is_lower,
  doubles_to_sokuon,
}
use ohagey.Romaji.Kana.{
  Round, emit, hold, close_n, syllabic_n, sokuon, longest_match, no_match, round, rebuild,
}
use ohagey.Romaji.Rebuild.{rebuild_unroll}
use ohagey.Romaji.Output.{IsPending}

starts_with-take : (w q : Text) → starts_with w q ≡ true → take (length q) w ≡ q
starts_with-take w [] h = refl
starts_with-take [] (y ∷ q) h = cc
starts_with-take (x ∷ w) (y ∷ q) h = ground (arith, starts_with-take w q)

is_hold : Round → Bool
is_hold (emit k n) = false
is_hold hold = true

is_hold-eq : (r : Round) → is_hold r ≡ true → r ≡ hold
unfolding is_hold
is_hold-eq (emit k n) h = cc
is_hold-eq hold h = refl

-- Every proper beginning of a spelling, one to three letters long, is held.
held_at : Rule → ℕ → Bool
held_at r n = leb (length r.romaji) n || is_hold (round (take n r.romaji))

held : Rule → Bool
held r = held_at r 1 && (held_at r 2 && held_at r 3)

table : every held rules ≡ true
unfolding held held_at is_hold rules lookup_in lookup grows_in is_prefix_of_rule is_vowel is_lower
    doubles_to_sokuon close_n syllabic_n sokuon longest_match no_match round
table = refl

grows_in_rule :
    (p : Rule → Bool) (rs : List Rule) (q : Text)
    → every p rs ≡ true
    → grows_in rs q ≡ true
    → (r : Rule) × (p r ≡ true) × (length q < length r.romaji) × (starts_with r.romaji q ≡ true)
unfolding grows_in
grows_in_rule p [] q h e = cc
grows_in_rule p (r ∷ rs) q h e =
    elim (Bool-cases (ltb (length q) (length r.romaji) && starts_with r.romaji q)) [
      | inl t ↦ (r, ground arith, ground arith, ground arith)
      | inr t ↦ grows_in_rule p rs q (ground arith) (ground arith)
    ]

prefix_grows : (q : Text) → is_prefix_of_rule q ≡ true → (length q < 4) × (grows_in rules q ≡ true)
unfolding is_prefix_of_rule
prefix_grows q h = ground arith

held_at-hold :
    (r : Rule) (n : ℕ)
    → held_at r n ≡ true
    → n < length r.romaji
    → is_hold (round (take n r.romaji)) ≡ true
unfolding held_at
held_at-hold r n h short = ground arith

held_all :
    (r : Rule) → held r ≡ true → (held_at r 1 ≡ true) × (held_at r 2 ≡ true) × (held_at r 3 ≡ true)
unfolding held
held_all r h = ground arith

held_below :
    (r : Rule) (n : ℕ)
    → held r ≡ true
    → 0 < n
    → n < 4
    → n < length r.romaji
    → is_hold (round (take n r.romaji)) ≡ true
held_below r zero h lo hi short = absurd (omega arith)
held_below r (suc zero) h lo hi short = held_at-hold r 1 (held_all r h).0 short
held_below r (suc (suc zero)) h lo hi short = held_at-hold r 2 (held_all r h).1 short
held_below r (suc (suc (suc zero))) h lo hi short = held_at-hold r 3 (held_all r h).2 short
held_below r (suc (suc (suc (suc n)))) h lo hi short = absurd (omega arith)

-- The letters that are kept pending are held again.
pending_held : (c : ℕ) (tail : Text) → is_prefix_of_rule (c ∷ tail) ≡ true → round (c ∷ tail) ≡ hold
pending_held c tail h =
    let q = c ∷ tail in
    let (few, grows) = prefix_grows q h in
    let (r, ok, short, begins) = grows_in_rule held rules q table grows in
    subst (λ x. round x ≡ hold) (starts_with-take r.romaji q begins)
      (is_hold-eq _ (held_below r (length q) ok (omega arith) few short))

pub pending_stable : (p : Text) → IsPending p → rebuild p ≡ ([], p)
pending_stable [] h = (rebuild_unroll 0 []).0
pending_stable (c ∷ p) (inl e) = cc
pending_stable (c ∷ p) (inr e) = (rebuild_unroll c p).2 (pending_held c p e)
