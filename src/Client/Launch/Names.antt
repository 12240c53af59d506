-- ===== src/Client/Launch/Names.antt =====
-- `PipeName` and `EnginePath` (tsf/Ohagey/OhageyEngineClient.cpp).
use ohagey.Common.{
  ℕ, zero, suc, ◌+◌, ◌-◌, ◌*◌, ◌/◌, ◌%◌, ◌^◌, ◌<◌, ◌≡◌, ◌≢◌, refl, sym, ap, ◌∙◌, false, ◌||◌, none,
  some, [], ◌∷◌, ◌++◌, arith, ltb, leb, ◌==◌, length, length-append, take, All, Bool-cases, inl,
  inr,
}
use ohagey.Common.Text.{Text, wide}
use ohagey.Client.Launch.{
  decimal, pipe_prefix, session_pipe, last_backslash, beside, engine_exe_name, max_path,
}

-- The number that digits spell.
abbrev value_from : ℕ → Text → ℕ
value_from acc [] = acc
value_from acc (d ∷ ds) = value_from (acc * 10 + (d - b'0')) ds

value_from-snoc :
    (acc : ℕ) (ds : Text) (d : ℕ)
    → value_from acc (ds ++ d ∷ []) ≡ value_from acc ds * 10 + (d - b'0')
value_from-snoc acc [] d = refl
value_from-snoc acc (e ∷ ds) d = value_from-snoc (acc * 10 + (e - b'0')) ds d

value_decimal : (k n : ℕ) → n < 10 ^ suc k → value_from 0 (decimal k n) ≡ n
unfolding decimal
value_decimal zero n h = omega arith
value_decimal (suc k) n h = elim (Bool-cases (ltb n 10)) [
  | inl e ↦ rw e (omega arith)
  | inr e ↦ rw e (
      value_from-snoc 0 (decimal k (n / 10)) (b'0' + n % 10)
      ∙ omega (arith, value_decimal k (n / 10) (omega arith)))
]

prefix_cancel : (p a b : Text) → p ++ a ≡ p ++ b → a ≡ b
prefix_cancel [] a b e = e
prefix_cancel (x ∷ p) a b e = prefix_cancel p a b cc

-- Two sessions never share a pipe: different session numbers of 32 bits have different pipe names.
pub session_pipe-apart :
    (m n : ℕ) → m < 2 ^ 32 → n < 2 ^ 32 → m ≢ n → session_pipe m ≢ session_pipe n
unfolding session_pipe
session_pipe-apart m n hm hn apart e =
    let digits = prefix_cancel pipe_prefix (decimal 9 m) (decimal 9 n) e in
    apart (
      sym (value_decimal 9 m (omega arith))
      ∙ ap (value_from 0) digits
      ∙ value_decimal 9 n (omega arith))

-- A name without a backslash.
abbrev IsPlainName : Text → Type 0
IsPlainName s = All (λ c. c ≢ 0x5C) s

last_backslash-none : (s : Text) → IsPlainName s → last_backslash s ≡ none
unfolding last_backslash
last_backslash-none [] h = refl
last_backslash-none (c ∷ s) h =
    let apart : (c == 0x5C) ≡ false = ground (arith, h.0) in
    rw (last_backslash-none s h.1) (rw apart)

last_backslash-found :
    (dir file : Text) → IsPlainName file → last_backslash (dir ++ 0x5C ∷ file) ≡ some (length dir)
unfolding last_backslash
last_backslash-found [] file h = rw (last_backslash-none file h)
last_backslash-found (c ∷ dir) file h = rw (last_backslash-found dir file h)

take_dir :
    (dir file : Text) (n : ℕ) → n ≡ length dir + 1 → take n (dir ++ 0x5C ∷ file) ≡ dir ++ 0x5C ∷ []
take_dir [] file zero e = absurd (omega arith)
take_dir [] file (suc zero) e = refl
take_dir [] file (suc (suc n)) e = absurd (omega arith)
take_dir (c ∷ dir) file zero e = absurd (omega arith)
take_dir (c ∷ dir) file (suc n) e = ap (λ t. c ∷ t) (take_dir dir file n (omega arith))

-- The engine's path is OhageyEngine.exe in the directory of this module's own file, for any file
-- name without a backslash and a path of fewer than the 260 characters of MAX_PATH.
pub beside_lem :
    (dir file : Text)
    → IsPlainName file
    → length (dir ++ 0x5C ∷ file) < 260
    → beside (dir ++ 0x5C ∷ file) ≡ some ((dir ++ 0x5C ∷ []) ++ wide "OhageyEngine.exe")
unfolding beside
beside_lem dir file h short =
    let fits : (length (dir ++ 0x5C ∷ file) == 0 || leb max_path (length (dir ++ 0x5C ∷ file)))
        ≡ false =
      ground (arith, length-append dir (0x5C ∷ file)) in
    rw fits (
      rw (last_backslash-found dir file h)
        (ap (λ t. some (t ++ engine_exe_name)) (take_dir dir file (length dir + 1) refl)))
