-- ===== src/Romaji/Buffer/Split.antt =====
-- `PendingStart` (tsf/Ohagey/RomajiKana.cpp) finds where the kana end and the letters begin.
use ohagey.Common.{
  ℕ, zero, suc, ◌+◌, ◌≤◌, ◌<◌, ◌≡◌, refl, ap, [], ◌∷◌, ◌++◌, arith, lt→ltb, le→ltb_false, length,
  length-append, take, drop, take-append, drop-append, All,
}
use ohagey.Common.Text.{Text}
use ohagey.Romaji.Table.{IsWide}
use ohagey.Romaji.Buffer.{char_at, ascii_from, pending_start}

abbrev pub IsAscii : Text → Type 0
IsAscii s = All (λ c. c < 0x80) s

module _ (P : ℕ → Type 0) where
  char_at-All : (s : Text) (i : ℕ) → All P s → i < length s → P (char_at s i)
  char_at-All [] i h lt = elim lt [ ]
  char_at-All (x ∷ s) zero h lt = h.0
  char_at-All (x ∷ s) (suc i) h lt = char_at-All s i h.1 (omega arith)

char_at-append_left : (s p : Text) (i : ℕ) → i < length s → char_at (s ++ p) i ≡ char_at s i
char_at-append_left [] p i lt = elim lt [ ]
char_at-append_left (x ∷ s) p zero lt = refl
char_at-append_left (x ∷ s) p (suc i) lt = char_at-append_left s p i (omega arith)

char_at-append_right : (s p : Text) (i j : ℕ) → j ≡ length s + i → char_at (s ++ p) j ≡ char_at p i
char_at-append_right [] p i j e = ap (char_at p) (omega arith)
char_at-append_right (x ∷ s) p i zero e = absurd (omega arith)
char_at-append_right (x ∷ s) p i (suc j) e = char_at-append_right s p i j (omega arith)

-- The loop stops at a kana, and goes on over letters.
stops : (s p : Text) → IsWide s → ascii_from (s ++ p) (length s) ≡ length s
stops s p h = at (length s) refl
  where
    at : (n : ℕ) → n ≡ length s → ascii_from (s ++ p) n ≡ n
    at zero e = unfold ascii_from in refl
    at (suc n) e =
        let kana : 0x80 ≤ char_at (s ++ p) n =
          rw (char_at-append_left s p n (omega arith))
            (char_at-All (λ c. 0x80 ≤ c) s n h (omega arith)) in
        unfold ascii_from in rw (le→ltb_false _ _ kana)

goes_on :
    (s p : Text) (k j : ℕ)
    → IsWide s
    → IsAscii p
    → k ≤ length p
    → j ≡ length s + k
    → ascii_from (s ++ p) j ≡ length s
unfolding ascii_from
goes_on s p zero j hs hp le e = let e' : j ≡ length s = omega arith in rw e' (stops s p hs)
goes_on s p (suc k) zero hs hp le e = absurd (omega arith)
goes_on s p (suc k) (suc j) hs hp le e =
    let letter : char_at (s ++ p) j < 0x80 =
      rw (char_at-append_right s p k j (omega arith))
        (char_at-All (λ c. c < 0x80) p k hp (omega arith)) in
    rw (lt→ltb _ _ letter) (goes_on s p k j hs hp (omega arith) (omega arith))

-- Behind kana that are not ASCII, the trailing ASCII starts where the kana end.
pending_start_lem : (s p : Text) → IsWide s → IsAscii p → pending_start (s ++ p) ≡ length s
unfolding pending_start
pending_start_lem s p hs hp =
    goes_on s p (length p) (length (s ++ p)) hs hp (omega arith) (length-append s p)

-- So the two `substr` calls give back the kana and the letters.
pub settled_part : (s p : Text) → IsWide s → IsAscii p → take (pending_start (s ++ p)) (s ++ p) ≡ s
settled_part s p hs hp = rw (pending_start_lem s p hs hp) (take-append s p)

pub pending_part : (s p : Text) → IsWide s → IsAscii p → drop (pending_start (s ++ p)) (s ++ p) ≡ p
pending_part s p hs hp = rw (pending_start_lem s p hs hp) (drop-append s p)
