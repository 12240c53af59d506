-- ===== src/Wire/Varint.antt =====
-- `WriteVarint` against `ReadVarint` (tsf/Ohagey/OhageyWire.cpp).
use Prim.Native.Nat.{bit_or}
use mathlib.Core.Logic.{dif_pos}
use mathlib.Core.WellFounded.{Acc}
use native.Mathlib.Decide.{dec_le}
use native.Mathlib.Nat.{div-add-mod}
use native.Mathlib.Bridge.{le_prop}
use native.Mathlib.Numerals.{towards_suc}
use ohagey.Common.{
  ℕ, zero, suc, ◌+◌, ◌*◌, ◌/◌, ◌%◌, ◌^◌, ◌≤◌, ◌<◌, ◌≡◌, ap, ◌∙◌, true, some, [], ◌∷◌, ◌++◌,
  append_assoc, arith, ltb, lt→ltb, ltb→lt, inl, inr, le→ltb_false, if◌then◌else◌, length, All,
  Bool-cases,
}
use ohagey.Common.Bits.{byte_low, byte_top, byte_mark, or_shifted}
use ohagey.Wire.{
  shift_shrinks, Bytes, IsByte, IsU64, Reader, reader, write_varint_loop, write_varint, require,
  next_byte, read_varint_loop, read_varint,
}

-- The groups of seven bits of a number below 128 ^ (k + 1), lowest first.
unfoldable pub groups : ℕ → ℕ → Bytes
groups zero v = v ∷ []
groups (suc k) v =
    let more = groups k (v / 128) in if ltb v 0x80 then v ∷ [] else (v % 128 + 128) ∷ more

marked : (v : ℕ) → bit_or (v % 256) 0x80 ≡ v % 128 + 128
marked v = omega (arith, byte_mark (v % 256) (omega arith))

write_varint_loop_last :
    (buf : Bytes) (v : ℕ) (w : Acc ◌<◌ v) → v < 0x80 → write_varint_loop buf v w ≡ buf ++ v ∷ []
unfolding write_varint_loop
write_varint_loop_last buf v (Acc.intro _ smaller) h =
    let small : v % 256 ≡ v = omega arith in ground arith

write_varint_loop-groups :
    (k : ℕ) (buf : Bytes) (v : ℕ) (w : Acc ◌<◌ v)
    → v < 128 ^ suc k
    → write_varint_loop buf v w ≡ buf ++ groups k v
unfolding write_varint_loop groups
write_varint_loop-groups zero buf v w h = write_varint_loop_last buf v w h
write_varint_loop-groups (suc k) buf v (Acc.intro _ smaller) h = elim (dec_le 0x80 v) [
  | yes big ↦
      rw (dif_pos _ le_prop big, marked v, le→ltb_false v 0x80 big)
        (write_varint_loop-groups k (buf ++ (v % 128 + 128) ∷ []) (v / 128)
            (smaller (v / 128) (shift_shrinks v big)) (omega arith)
          ∙ append_assoc buf ((v % 128 + 128) ∷ []) (groups k (v / 128)))
  | no small ↦
      rw (lt→ltb v 0x80 (omega arith))
        (write_varint_loop_last buf v (Acc.intro v smaller) (omega arith))
]

-- On every 64-bit value `WriteVarint` appends its groups, at most ten.
pub write_varint-groups : (buf : Bytes) (v : ℕ) → IsU64 v → write_varint buf v ≡ buf ++ groups 9 v
unfolding write_varint
write_varint-groups buf v h = write_varint_loop-groups 9 buf v _ (omega arith)

groups-IsByte : (k v : ℕ) → v < 128 ^ suc k → All IsByte (groups k v)
unfolding groups
groups-IsByte zero v h = (omega arith, tt)
groups-IsByte (suc k) v h = ground (arith, groups-IsByte k (v / 128) (omega arith))

pub length-groups : (k v : ℕ) → (1 ≤ length (groups k v)) × (length (groups k v) ≤ k + 1)
unfolding groups
length-groups zero v = omega arith
length-groups (suc k) v = ground (arith, length-groups k (v / 128))

-- One round of the reader, on a last byte and on a byte with the top bit set.
abbrev at : Bytes → Reader
at bs = record { rest = bs; ok = true }

read_last :
    (n shift result b : ℕ) (bs : Bytes)
    → b < 128
    → result < 2 ^ shift
    → b * 2 ^ shift < 2 ^ 64
    → read_varint_loop (suc n) shift result (at (b ∷ bs)) ≡ (some (result + b * 2 ^ shift), at bs)
unfolding read_varint_loop require next_byte
read_last n shift result b bs hb low fits =
    ground
      (arith, byte_low b (omega arith), byte_top b (omega arith), or_shifted shift result b low)

read_more :
    (n shift result g : ℕ) (bs : Bytes)
    → g < 128
    → result < 2 ^ shift
    → g * 2 ^ shift < 2 ^ 64
    → read_varint_loop (suc n) shift result (at ((g + 128) ∷ bs))
      ≡ read_varint_loop n (shift + 7) (result + g * 2 ^ shift) (at bs)
unfolding read_varint_loop require next_byte
read_more n shift result g bs hg low fits = ground (
  arith,
  byte_low (g + 128) (omega arith),
  byte_top (g + 128) (omega arith),
  or_shifted shift result g low,
)

pow_seven : (s : ℕ) → 2 ^ (s + 7) ≡ 128 * 2 ^ s
pow_seven s = simp towards_suc (omega arith)

-- The lowest group of `v` and the rest of it, both at bit `s`.
split_low : (v s : ℕ) → v * 2 ^ s ≡ v % 128 * 2 ^ s + v / 128 * 2 ^ (s + 7)
split_low v s = omega (
  arith,
  ap (λ (t : ℕ). t * 2 ^ s) (div-add-mod v 128),
  ap (λ (t : ℕ). v / 128 * t) (pow_seven s),
)

low_group_fits : (s result g : ℕ) → result < 2 ^ s → g < 128 → result + g * 2 ^ s < 2 ^ (s + 7)
low_group_fits s result g low hg =
    let at_most : g * 2 ^ s ≤ 127 * 2 ^ s = grind arith in omega (arith, pow_seven s)

read_varint_loop-groups :
    (k n shift result v : ℕ) (bs : Bytes)
    → v < 128 ^ suc k
    → k < n
    → result < 2 ^ shift
    → v * 2 ^ shift < 2 ^ 64
    → read_varint_loop n shift result (at (groups k v ++ bs))
      ≡ (some (result + v * 2 ^ shift), at bs)
unfolding groups
read_varint_loop-groups k zero shift result v bs hv hk low fits = absurd (omega arith)
read_varint_loop-groups zero (suc n) shift result v bs hv hk low fits =
    read_last n shift result v bs (omega arith) low fits
read_varint_loop-groups (suc k) (suc n) shift result v bs hv hk low fits =
    elim (Bool-cases (ltb v 0x80)) [
      | inl small ↦ rw small (read_last n shift result v bs (ltb→lt v 0x80 small) low fits)
      | inr big ↦
          let g : ℕ = v % 128 in
          let split = split_low v shift in
          rw big (
            read_more n shift result g (groups k (v / 128) ++ bs) (omega arith) low
              (omega (arith, split))
            ∙ read_varint_loop-groups k n (shift + 7) (result + g * 2 ^ shift) (v / 128) bs
                (omega arith) (omega arith) (low_group_fits shift result g low (omega arith))
                (omega (arith, split))
            ∙ ap (λ (t : ℕ). (some t, at bs)) (omega (arith, split)))
    ]

pub read_varint-groups :
    (v : ℕ) (bs : Bytes) → IsU64 v → read_varint (at (groups 9 v ++ bs)) ≡ (some v, at bs)
unfolding read_varint
read_varint-groups v bs h =
    read_varint_loop-groups 9 10 0 0 v bs (omega arith) (omega arith) (omega arith) (omega arith)
    ∙ ap (λ (t : ℕ). (some t, at bs)) (omega arith)

-- `ReadVarint` reads back every 64-bit value that `WriteVarint` wrote, and leaves what follows;
-- what was written is one to ten bytes.
pub read_varint-write_varint :
    (v : ℕ) (bs : Bytes)
    → IsU64 v
    → (read_varint (reader (write_varint [] v ++ bs)) ≡ (some v, reader bs))
      × All IsByte (write_varint [] v)
      × (1 ≤ length (write_varint [] v))
      × (length (write_varint [] v) ≤ 10)
read_varint-write_varint v bs h =
    let (some_byte, few) = length-groups 9 v in
    rw (write_varint-groups [] v h)
      (read_varint-groups v bs h, groups-IsByte 9 v (omega arith), some_byte, few)
