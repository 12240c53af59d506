-- ===== src/Romaji/Buffer/Whole.antt =====
-- Typing through the buffer against converting the whole romaji (tsf/Ohagey/RomajiKana.cpp).
use mathlib.Core.List.{foldl}
use mathlib.Core.Path.{subst}
use ohagey.Common.{
  ℕ, zero, suc, ◌≤◌, ◌≡◌, refl, sym, ap, ◌∙◌, inl, inr, true, [], ◌∷◌, ◌++◌, append_assoc,
  append-nil, arith, length, drop, length-drop, All,
}
use ohagey.Common.Text.{Text}
use ohagey.Romaji.Kana.{round, rebuild}
use ohagey.Romaji.Rebuild.{Round-cases, round_advances, rebuild_unroll}
use ohagey.Romaji.Rounds.{is_plain, round-snoc}
use ohagey.Romaji.Output.{rebuild_output, rebuild_pending}
use ohagey.Romaji.Buffer.{buffer_after_keystroke}
use ohagey.Romaji.Buffer.Typing.{IsLetter, retyped, keystroke_lem}

is_plain-drop : (n : ℕ) (s : Text) → is_plain s ≡ true → is_plain (drop n s) ≡ true
is_plain-drop zero s h = h
is_plain-drop (suc n) [] h = h
is_plain-drop (suc n) (c ∷ s) h = is_plain-drop n s (is_plain-tail c s h)
  where
    is_plain-tail : (c : ℕ) (s : Text) → is_plain (c ∷ s) ≡ true → is_plain s ≡ true
    is_plain-tail c [] h = unfold is_plain in refl
    is_plain-tail c (d ∷ s) h = unfold is_plain in ground arith

is_plain-prefix : (s t : Text) → is_plain (s ++ t) ≡ true → is_plain s ≡ true
unfolding is_plain
is_plain-prefix [] t h = refl
is_plain-prefix (c ∷ []) [] h = h
is_plain-prefix (c ∷ []) (d ∷ t) h = ground arith
is_plain-prefix (c ∷ d ∷ s) t h = ground (arith, is_plain-prefix (d ∷ s) t)

drop-snoc : (n : ℕ) (s : Text) (ch : ℕ) → n ≤ length s → drop n (s ++ ch ∷ []) ≡ drop n s ++ ch ∷ []
drop-snoc zero s ch h = refl
drop-snoc (suc n) [] ch h = elim h [ ]
drop-snoc (suc n) (c ∷ s) ch h = drop-snoc n s ch (omega arith)

-- A further letter only changes what was pending.
abbrev Extends : Text → ℕ → Type 0
Extends s ch = rebuild (s ++ ch ∷ []) ≡ (
  (rebuild s).0 ++ (rebuild ((rebuild s).1 ++ ch ∷ [])).0,
  (rebuild ((rebuild s).1 ++ ch ∷ [])).1,
)

rebuild-snoc_fuel :
    (fuel : ℕ) (s : Text) (ch : ℕ) → length s ≤ fuel → is_plain s ≡ true → Extends s ch
rebuild-snoc_fuel fuel [] ch le plain = rw ((rebuild_unroll 0 []).0) refl
rebuild-snoc_fuel zero (c ∷ s) ch le plain = absurd (omega arith)
rebuild-snoc_fuel (suc fuel) (c ∷ s) ch le plain = elim (Round-cases (round (c ∷ s))) [
  | inl (k, n, e) ↦
      let rest = drop n (c ∷ s) in
      let (one, within) = round_advances c s e in
      let ih =
        rebuild-snoc_fuel fuel rest ch (omega (arith, length-drop n (c ∷ s)))
          (is_plain-drop n (c ∷ s) plain) in
      let longer = (rebuild_unroll c (s ++ ch ∷ [])).1 k n (round-snoc c s ch plain e) in
      let split = drop-snoc n (c ∷ s) ch within in
      let (so_far, kept) = rebuild rest in
      let (more, left) = rebuild (kept ++ ch ∷ []) in
      longer
      ∙ ap (λ r. (k ++ (rebuild r).0, (rebuild r).1)) split
      ∙ ap (λ (p : Text × Text). (k ++ p.0, p.1)) ih
      ∙ rw ((rebuild_unroll c s).1 k n e)
          (ap (λ (z : Text). (z, left)) (sym (append_assoc k so_far more)))
  | inr e ↦ rw ((rebuild_unroll c s).2 e) refl
]

-- A letter behind plain romaji changes only what was pending: the kana so far stay.
rebuild-snoc : (s : Text) (ch : ℕ) → is_plain s ≡ true → Extends s ch
rebuild-snoc s ch = rebuild-snoc_fuel (length s) s ch (omega arith)

-- The letters typed one by one into an empty composition.
abbrev pub typed : Text → Text
typed s = foldl buffer_after_keystroke [] s

-- One keystroke on the buffer that plain romaji leaves is the buffer of the longer romaji.
keystroke-whole :
    (s : Text) (ch : ℕ)
    → All IsLetter s
    → IsLetter ch
    → is_plain s ≡ true
    → buffer_after_keystroke (retyped [] s) ch ≡ retyped [] (s ++ ch ∷ [])
keystroke-whole s ch letters letter plain =
    let (kana, pending) = rebuild s in
    let q = pending ++ ch ∷ [] in
    keystroke_lem kana pending ch (rebuild_output s).0 (rebuild_pending IsLetter s letters)
    ∙ rw (letter.accepted, letter.lower)
        (sym (append_assoc kana (rebuild q).0 (rebuild q).1)
          ∙ ap (λ (p : Text × Text). p.0 ++ p.1) (sym (rebuild-snoc s ch plain)))

All-left : (s t : Text) → All IsLetter (s ++ t) → All IsLetter s
All-left [] t h = tt
All-left (c ∷ s) t h = (h.0, All-left s t h.1)

All-right : (s t : Text) → All IsLetter (s ++ t) → All IsLetter t
All-right [] t h = h
All-right (c ∷ s) t h = All-right s t h.1

typed_from :
    (front back : Text)
    → All IsLetter (front ++ back)
    → is_plain (front ++ back) ≡ true
    → foldl buffer_after_keystroke (retyped [] front) back ≡ retyped [] (front ++ back)
typed_from front [] h plain = rw append-nil
typed_from front (c ∷ back) h plain =
    let shift = append_assoc front (c ∷ []) back in
    ap (λ b. foldl buffer_after_keystroke b back)
      (keystroke-whole front c (All-left front (c ∷ back) h) (All-right front (c ∷ back) h).0
        (is_plain-prefix front (c ∷ back) plain))
    ∙ typed_from (front ++ c ∷ []) back (subst (All IsLetter) (sym shift) h)
        (subst (λ x. is_plain x ≡ true) (sym shift) plain)
    ∙ ap (retyped []) shift

-- Letters with no two `n` together and no `q`, typed one by one into an empty composition, leave in
-- the buffer the kana and the pending letters that the whole romaji has.
pub typed-eq-rebuild :
    (s : Text) → All IsLetter s → is_plain s ≡ true → typed s ≡ (rebuild s).0 ++ (rebuild s).1
typed-eq-rebuild s h plain =
    ap (λ b. foldl buffer_after_keystroke b s) (sym empty) ∙ typed_from [] s h plain
  where
    empty : retyped [] [] ≡ []
    empty = rw ((rebuild_unroll 0 []).0)
