-- ===== src/Romaji/Rounds.antt =====
-- When a further letter cannot change a round of `Rebuild` (tsf/Ohagey/RomajiKana.cpp).
use Prim.Native.Nat.{min}
use native.Mathlib.Decide.{dec_lt}
use mathlib.Core.Path.{subst}
use ohagey.Common.{
  ℕ, zero, suc, ◌≤◌, ◌<◌, ◌≡◌, ◌≢◌, refl, sym, ap, ◌∙◌, inl, inr, Bool, true, false, ◌&&◌, ◌||◌,
  not, Option, none, some, [], ◌∷◌, ◌++◌, append_assoc, arith, ◌==◌, length, length-append, take,
  drop, take-append-drop, every, Bool-cases, Option-cases,
}
use ohagey.Common.Text.{Text}
use ohagey.Romaji.Rules.{
  rules, lookup, grows_in, is_prefix_of_rule, is_vowel, is_lower, doubles_to_sokuon,
  max_rule_length,
}
use ohagey.Romaji.Table.{lookup_in_rule}
use ohagey.Romaji.Prefix.{is_prefix_of_rule-drop, lookup_prefix, lookup-not_prefix}
use ohagey.Romaji.Kana.{
  Round, emit, hold, or_else, close_n, syllabic_n, sokuon, longest_match, no_match, round,
}

-- No two `n` stand together, and there is no `q`.
unfoldable pub is_plain : Text → Bool
is_plain [] = true
is_plain (c ∷ []) = not (c == b'q')
is_plain (c ∷ d ∷ s) = not (c == b'q') && (not (c == b'n' && d == b'n') && is_plain (d ∷ s))

or_else_keeps :
    (o : Option Round) (r r' e : Round) → (r ≡ e → r' ≡ e) → or_else o r ≡ e → or_else o r' ≡ e
or_else_keeps none r r' e keep h = keep h
or_else_keeps (some x) r r' e keep h = h

-- The end of a round, after the two special cases.
abbrev matching : Text → Round
matching x = or_else (longest_match (min max_rule_length (length x)) x) (no_match x)

longest_match_found :
    (m : ℕ) (x : Text) {r : Round}
    → longest_match m x ≡ some r
    → (n : ℕ) × (k : Text) × (lookup (take n x) ≡ some k)
unfolding longest_match
longest_match_found zero x e = cc
longest_match_found (suc m) x e = elim (Option-cases (lookup (take (suc m) x))) [
  | inl miss ↦ longest_match_found m x (rw (miss, longest_match) at e)
  | inr (k, hit) ↦ (suc m, k, hit)
]

no_match_holds : (x : Text) → is_prefix_of_rule x ≡ true → no_match x ≡ hold
unfolding no_match
no_match_holds x h = rw h

no_match_drops : (x : Text) → is_prefix_of_rule x ≡ false → no_match x ≡ emit [] 1
unfolding no_match
no_match_drops x h = rw h

-- A spelling that `x` begins with does not grow into a longer one.
no_spelling_beyond :
    (n : ℕ) (x : Text) (ch : ℕ) {k k' : Text}
    → lookup (take n x) ≡ some k
    → lookup (x ++ ch ∷ []) ≢ some k'
no_spelling_beyond n x ch found hit =
    let whole : take n x ++ (drop n x ++ ch ∷ []) ≡ x ++ ch ∷ [] =
      sym (append_assoc (take n x) (drop n x) (ch ∷ []))
      ∙ ap (λ t. t ++ ch ∷ []) (take-append-drop n x) in
    let longer : 0 < length (drop n x ++ ch ∷ []) =
      omega (arith, length-append (drop n x) (ch ∷ [])) in
    cc (
      lookup-not_prefix (take n x) found,
      lookup_prefix (take n x) (drop n x ++ ch ∷ []) longer (ap lookup whole ∙ hit),
    )

-- Where the round goes on, one letter more makes no spelling of the whole.
no_longer_match :
    (x : Text) (ch : ℕ) {k : Text} {n : ℕ} → matching x ≡ emit k n → lookup (x ++ ch ∷ []) ≡ none
no_longer_match x ch h = elim (Option-cases (lookup (x ++ ch ∷ []))) [
  | inl miss ↦ miss
  | inr (k', hit) ↦ absurd (elim (Option-cases (longest_match (min max_rule_length (length x)) x)) [
    | inl missed ↦
        let holds = no_match_holds x (lookup_prefix x (ch ∷ []) (omega arith) hit) in
        cc (rw missed at h, holds)
    | inr (r, found) ↦
        let (n, k, e) = longest_match_found (min max_rule_length (length x)) x found in
        no_spelling_beyond n x ch e hit
  ])
]

take-snoc : (m : ℕ) (x : Text) (ch : ℕ) → m ≤ length x → take m (x ++ ch ∷ []) ≡ take m x
take-snoc zero x ch h = refl
take-snoc (suc m) [] ch h = elim h [ ]
take-snoc (suc m) (c ∷ x) ch h = ap (λ t. c ∷ t) (take-snoc m x ch (omega arith))

take_all : (x : Text) (m : ℕ) → m ≡ length x → take m x ≡ x
take_all [] zero e = refl
take_all [] (suc m) e = refl
take_all (c ∷ x) zero e = absurd (omega arith)
take_all (c ∷ x) (suc m) e = ap (λ t. c ∷ t) (take_all x m (omega arith))

longest_match_miss :
    (m : ℕ) (x : Text)
    → lookup (take (suc m) x) ≡ none
    → longest_match (suc m) x ≡ longest_match m x
unfolding longest_match
longest_match_miss m x h = rw (h, longest_match)

longest_match_hit :
    (m : ℕ) (x : Text) {k : Text}
    → lookup (take (suc m) x) ≡ some k
    → longest_match (suc m) x ≡ some (emit k (suc m))
unfolding longest_match
longest_match_hit m x h = rw (h, longest_match)

longest_match-snoc :
    (m : ℕ) (x : Text) (ch : ℕ) → m ≤ length x → longest_match m (x ++ ch ∷ []) ≡ longest_match m x
longest_match-snoc zero x ch h = unfold longest_match in refl
longest_match-snoc (suc m) x ch h =
    let same : lookup (take (suc m) (x ++ ch ∷ [])) ≡ lookup (take (suc m) x) =
      ap lookup (take-snoc (suc m) x ch h) in
    elim (Option-cases (lookup (take (suc m) x))) [
      | inl miss ↦
          longest_match_miss m (x ++ ch ∷ []) (same ∙ miss)
          ∙ longest_match-snoc m x ch (omega arith)
          ∙ sym (longest_match_miss m x miss)
      | inr (k, hit) ↦
          longest_match_hit m (x ++ ch ∷ []) (same ∙ hit) ∙ sym (longest_match_hit m x hit)
    ]

-- So the search over the longer tail finds what the search over `x` finds.
longest_match-tail :
    (x : Text) (ch : ℕ)
    → lookup (x ++ ch ∷ []) ≡ none
    → longest_match (min max_rule_length (length (x ++ ch ∷ []))) (x ++ ch ∷ [])
      ≡ longest_match (min max_rule_length (length x)) x
longest_match-tail x ch miss = elim (dec_lt (length x) max_rule_length) [
  | yes short ↦
      let one_more : min max_rule_length (length (x ++ ch ∷ [])) ≡ suc (length x) =
        omega (arith, length-append x (ch ∷ [])) in
      let as_long : min max_rule_length (length x) ≡ length x = omega arith in
      rw (one_more, as_long)
        (longest_match_miss (length x) (x ++ ch ∷ []) (
            ap lookup
              (take_all (x ++ ch ∷ []) (suc (length x)) (omega (arith, length-append x (ch ∷ []))))
            ∙ miss)
          ∙ longest_match-snoc (length x) x ch (omega arith))
  | no long ↦
      let whole : min max_rule_length (length (x ++ ch ∷ [])) ≡ 4 =
        omega (arith, length-append x (ch ∷ [])) in
      let as_long : min max_rule_length (length x) ≡ 4 = omega arith in
      rw (whole, as_long) (longest_match-snoc 4 x ch (omega arith))
]

no_match-snoc :
    (x : Text) (ch : ℕ) {k : Text} {n : ℕ}
    → no_match x ≡ emit k n
    → no_match (x ++ ch ∷ []) ≡ emit k n
no_match-snoc x ch h = elim (Bool-cases (is_prefix_of_rule x)) [
  | inl begins ↦ cc (no_match_holds x begins)
  | inr stray ↦ elim (Bool-cases (is_prefix_of_rule (x ++ ch ∷ []))) [
    | inl longer ↦ cc (is_prefix_of_rule-drop x (ch ∷ []) longer)
    | inr still ↦ no_match_drops (x ++ ch ∷ []) still ∙ sym (no_match_drops x stray) ∙ h
  ]
]

matching-snoc :
    (x : Text) (ch : ℕ) {k : Text} {n : ℕ}
    → matching x ≡ emit k n
    → matching (x ++ ch ∷ []) ≡ emit k n
matching-snoc x ch {k} {n} h =
    ap (λ o. or_else o (no_match (x ++ ch ∷ []))) (longest_match-tail x ch (no_longer_match x ch h))
    ∙ or_else_keeps (longest_match (min max_rule_length (length x)) x) (no_match x)
        (no_match (x ++ ch ∷ [])) (emit k n) (no_match-snoc x ch) h

-- The special cases at a single letter, from the table and a look at every letter.
all_below : ℕ → (ℕ → Bool) → Bool
all_below zero p = true
all_below (suc n) p = p n && all_below n p

all_below_at : (n : ℕ) (p : ℕ → Bool) (x : ℕ) → all_below n p ≡ true → x < n → p x ≡ true
unfolding all_below
all_below_at zero p x h lt = absurd (omega arith)
all_below_at (suc n) p x h lt = ground (arith, all_below_at n p x)

begins_test : ℕ → Bool
begins_test c = c == b'n' || doubles_to_sokuon c && not (c == b'q')

begins_test-lt : (c : ℕ) → begins_test c ≡ true → c < 128
unfolding begins_test doubles_to_sokuon is_lower
begins_test-lt c h = ground arith

-- A letter that doubles, or `n`, begins a spelling; `q` is the exception.
doubling_begins : (c : ℕ) → begins_test c ≡ true → is_prefix_of_rule (c ∷ []) ≡ true
doubling_begins c h = ground (arith, all_below_at 128 test c table (begins_test-lt c h))
  where
    test : ℕ → Bool
    test c = not (begins_test c) || is_prefix_of_rule (c ∷ [])

    table : all_below 128 test ≡ true
    table =
        unfold all_below begins_test doubles_to_sokuon is_vowel is_lower is_prefix_of_rule grows_in
          rules in
        refl

-- No spelling of one letter is a letter that doubles, or `n`.
single_test : Text → Bool
single_test (c ∷ []) = not (begins_test c) && not (doubles_to_sokuon c)
single_test _ = true

single_spelling :
    (c : ℕ) {k : Text}
    → lookup (c ∷ []) ≡ some k
    → (begins_test c ≡ false) × (doubles_to_sokuon c ≡ false)
unfolding lookup
single_spelling c e =
    let (r, h, same, _) = lookup_in_rule (λ r. single_test r.romaji) rules (c ∷ []) table e in
    let whole : single_test (c ∷ []) ≡ true = subst (λ x. single_test x ≡ true) same h in
    unfold single_test in ground arith
  where
    table : every (λ r. single_test r.romaji) rules ≡ true
    table = unfold rules single_test begins_test doubles_to_sokuon is_vowel is_lower in refl

-- A round that goes on from a single letter was no `n` and no letter that doubles.
single_letter :
    (c : ℕ) {k : Text} {n : ℕ}
    → is_plain (c ∷ []) ≡ true
    → matching (c ∷ []) ≡ emit k n
    → ((c == b'n') ≡ false) × (doubles_to_sokuon c ≡ false)
unfolding is_plain
single_letter c plain h = elim (Option-cases (lookup (c ∷ []))) [
  | inr (k, hit) ↦ unfold begins_test in ground (arith, single_spelling c hit)
  | inl miss ↦ elim (Bool-cases (begins_test c)) [
    | inl begins ↦
        let missed : longest_match 1 (c ∷ []) ≡ none =
          longest_match_miss 0 (c ∷ []) miss ∙ (unfold longest_match in refl) in
        cc (rw missed at h, no_match_holds (c ∷ []) (doubling_begins c begins))
    | inr other ↦ unfold begins_test in ground arith
  ]
]

syllabic_n-snoc :
    (c d : ℕ) (more : Text) (ch : ℕ)
    → is_plain (c ∷ d ∷ more) ≡ true
    → syllabic_n (c ∷ d ∷ more ++ ch ∷ []) ≡ syllabic_n (c ∷ d ∷ more)
unfolding is_plain syllabic_n close_n
syllabic_n-snoc c d more ch plain = ground arith

and-false : (b : Bool) → (b && false) ≡ false
and-false b = ground arith

-- In plain letters, a round that goes on does the same whatever letter comes behind.
pub round-snoc :
    (c : ℕ) (tail : Text) (ch : ℕ) {k : Text} {n : ℕ}
    → is_plain (c ∷ tail) ≡ true
    → round (c ∷ tail) ≡ emit k n
    → round (c ∷ tail ++ ch ∷ []) ≡ emit k n
unfolding round syllabic_n sokuon
round-snoc c [] ch plain h =
    let (not_n, single) = single_letter c plain h in
    rw not_n (rw single (rw and-false (matching-snoc (c ∷ []) ch h)))
round-snoc c (d ∷ more) ch {k} {n} plain h =
    let x = c ∷ d ∷ more in
    let x' = x ++ ch ∷ [] in
    ap (λ o. or_else o (or_else (sokuon x') (matching x'))) (syllabic_n-snoc c d more ch plain)
    ∙ or_else_keeps (syllabic_n x) (or_else (sokuon x) (matching x))
        (or_else (sokuon x) (matching x')) (emit k n)
        (or_else_keeps (sokuon x) (matching x) (matching x') (emit k n) (matching-snoc x ch)) h
