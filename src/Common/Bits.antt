-- ===== src/Common/Bits.antt =====
-- `&` and `|` on the values that the program masks and joins, as arithmetic.
use Prim.Native.Nat.{
  ℕ, zero, suc, ◌+◌, ◌*◌, ◌/◌, ◌%◌, ◌^◌, ◌≤◌, ◌<◌, min, max, bit_and, bit_or, digits,
  bit_and-bitwise, bit_or-bitwise,
}
use mathlib.Core.Path.{◌≡◌, refl, ap}
use mathlib.Core.Bool.{Bool, true, ◌&&◌}
use native.Mathlib.Omega.{arith}
use ohagey.Common.Tests.{◌==◌, ==_iff}

-- A law of one byte is checked at every byte.
every_below : ℕ → (ℕ → Bool) → Bool
every_below zero p = true
every_below (suc n) p = p n && every_below n p

every_below_at : (n : ℕ) (p : ℕ → Bool) (x : ℕ) → every_below n p ≡ true → x < n → p x ≡ true
unfolding every_below
every_below_at zero p x h lt = absurd (omega arith)
every_below_at (suc n) p x h lt = ground (arith, every_below_at n p x)

byte_low_table : every_below 256 (λ b. bit_and b 0x7f == b % 128) ≡ true
unfolding every_below
byte_low_table = refl

pub byte_low : (b : ℕ) → b < 256 → bit_and b 0x7f ≡ b % 128
byte_low b h = (==_iff _ _).0 (every_below_at 256 _ b byte_low_table h)

byte_top_table : every_below 256 (λ b. bit_and b 0x80 == b / 128 * 128) ≡ true
unfolding every_below
byte_top_table = refl

pub byte_top : (b : ℕ) → b < 256 → bit_and b 0x80 ≡ b / 128 * 128
byte_top b h = (==_iff _ _).0 (every_below_at 256 _ b byte_top_table h)

byte_mark_table : every_below 256 (λ b. bit_or b 0x80 == b % 128 + 128) ≡ true
unfolding every_below
byte_mark_table = refl

pub byte_mark : (b : ℕ) → b < 256 → bit_or b 0x80 ≡ b % 128 + 128
byte_mark b h = (==_iff _ _).0 (every_below_at 256 _ b byte_mark_table h)

module _ (f : ℕ → ℕ) (g : ℕ → ℕ → ℕ) where
  digits_more : (n m a b : ℕ) → a ≤ n → a ≤ m → digits f g n a b ≡ digits f g m a b
  digits_more zero zero a b p q = refl
  digits_more zero (suc m) zero b p q = refl
  digits_more zero (suc m) (suc a) b p q = absurd (omega arith)
  digits_more (suc n) zero zero b p q = refl
  digits_more (suc n) zero (suc a) b p q = absurd (omega arith)
  digits_more (suc n) (suc m) zero b p q = refl
  digits_more (suc n) (suc m) (suc a) b p q =
      ap (λ t. t * 2 + g (suc a % 2) (b % 2))
        (digits_more n m (suc a / 2) (b / 2) (omega arith) (omega arith))

or-zero_left : (b : ℕ) → bit_or 0 b ≡ b
or-zero_left b = bit_or-bitwise 0 b

and-zero_left : (b : ℕ) → bit_and 0 b ≡ 0
and-zero_left b = bit_and-bitwise 0 b

-- The lowest binary digit of `|` and `&`.
or_step : (a b : ℕ) → bit_or a b ≡ bit_or (a / 2) (b / 2) * 2 + max (a % 2) (b % 2)
or_step zero b = omega (arith, or-zero_left b, or-zero_left (b / 2))
or_step (suc a) b = omega (
  arith,
  bit_or-bitwise (suc a) b,
  bit_or-bitwise (suc a / 2) (b / 2),
  digits_more (λ x. x) max a (suc a / 2) (suc a / 2) (b / 2) (omega arith) (omega arith),
)

and_step : (a b : ℕ) → bit_and a b ≡ bit_and (a / 2) (b / 2) * 2 + min (a % 2) (b % 2)
and_step zero b = omega (arith, and-zero_left b, and-zero_left (b / 2))
and_step (suc a) b = omega (
  arith,
  bit_and-bitwise (suc a) b,
  bit_and-bitwise (suc a / 2) (b / 2),
  digits_more (λ x. zero) min a (suc a / 2) (suc a / 2) (b / 2) (omega arith) (omega arith),
)

or-zero_below : (n a : ℕ) → a ≤ n → bit_or a 0 ≡ a
or-zero_below n zero h = refl
or-zero_below zero (suc a) h = absurd (omega arith)
or-zero_below (suc n) (suc a) h =
    omega (arith, or_step (suc a) 0, or-zero_below n (suc a / 2) (omega arith))

and-zero_below : (n a : ℕ) → a ≤ n → bit_and a 0 ≡ 0
and-zero_below n zero h = refl
and-zero_below zero (suc a) h = absurd (omega arith)
and-zero_below (suc n) (suc a) h =
    omega (arith, and_step (suc a) 0, and-zero_below n (suc a / 2) (omega arith))

-- (c << 3) | t, for three bits t.
pub or_low3 : (c t : ℕ) → t < 8 → bit_or (c * 8) t ≡ c * 8 + t
or_low3 c t h = omega (
  arith,
  or_step (c * 8) t,
  or_step (c * 8 / 2) (t / 2),
  or_step (c * 8 / 2 / 2) (t / 2 / 2),
  ap (λ x. bit_or (c * 8 / 2 / 2 / 2) x) zero_top,
  or-zero_below (c * 8 / 2 / 2 / 2) (c * 8 / 2 / 2 / 2) (omega arith),
)
  where
    zero_top : t / 2 / 2 / 2 ≡ 0
    zero_top = omega arith

-- tag & 7
pub and_low3 : (a : ℕ) → bit_and a 7 ≡ a % 8
and_low3 a = omega (
  arith,
  and_step a 7,
  and_step (a / 2) 3,
  and_step (a / 2 / 2) 1,
  and-zero_below (a / 2 / 2 / 2) (a / 2 / 2 / 2) (omega arith),
)

pow_suc : (s : ℕ) → 2 ^ suc s ≡ 2 * 2 ^ s
pow_suc s = omega arith

-- a | (c << s), where `a` lies below bit s.
pub or_shifted : (s a c : ℕ) → a < 2 ^ s → bit_or a (c * 2 ^ s) ≡ a + c * 2 ^ s
or_shifted zero a c h =
    let e : a ≡ 0 = omega arith in
    omega (arith, ap (λ x. bit_or x (c * 2 ^ 0)) e, or-zero_left (c * 2 ^ 0))
or_shifted (suc s) a c h =
    let double : c * 2 ^ suc s ≡ 2 * (c * 2 ^ s) =
      omega (arith, ap (λ (t : ℕ). c * t) (pow_suc s)) in
    let half : c * 2 ^ suc s / 2 ≡ c * 2 ^ s = omega (arith, double) in
    omega (
      arith,
      double,
      or_step a (c * 2 ^ suc s),
      ap (λ x. bit_or (a / 2) x) half,
      or_shifted s (a / 2) c (omega (arith, pow_suc s)),
    )
