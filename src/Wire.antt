-- ===== src/Wire.antt =====
-- tsf/Ohagey/OhageyWire.h and OhageyWire.cpp: the protobuf wire format, written and read by hand.
-- A byte vector is a list of numbers below 256, an `int32_t` is its bit pattern, and the pointers
-- `_p` and `_end` of a reader are the bytes between them.
pub mod Text
pub mod Varint
pub mod Discipline
pub mod Fields
pub mod Values
mod Tests
use Prim.Native.Nat.{bit_and, bit_or}
use mathlib.Core.Logic.{dite}
use mathlib.Core.WellFounded.{Acc}
use native.Mathlib.Decide.{dec_le}
use ohagey.Common.{
  ℕ, zero, suc, ◌+◌, ◌-◌, ◌*◌, ◌/◌, ◌%◌, ◌^◌, ◌≤◌, ◌<◌, Bool, true, false, not, ◌||◌, Option, none,
  some, List, [], ◌∷◌, ◌++◌, arith, ltb, ◌==◌, if◌then◌else◌, length, take, drop,
}
use ohagey.Common.Order.{lt_wf}

abbrev pub Bytes : Type 0
Bytes = List ℕ

abbrev pub IsByte : ℕ → Type 0
IsByte b = b < 256

abbrev pub IsU32 : ℕ → Type 0
IsU32 n = n < 2 ^ 32

abbrev pub IsU64 : ℕ → Type 0
IsU64 n = n < 2 ^ 64

pub data WireType : Type 0 where
  varint fixed64 length_delimited start_group end_group fixed32 : WireType

unfoldable pub wire_code : WireType → ℕ
wire_code varint = 0
wire_code fixed64 = 1
wire_code length_delimited = 2
wire_code start_group = 3
wire_code end_group = 4
wire_code fixed32 = 5

-- static_cast<WireType>(wire), after the check that `wire` is at most 5.
unfoldable pub wire_type : ℕ → WireType
wire_type n =
    if n == 0
    then varint
    else if n == 1
    then fixed64
    else if n == 2
    then length_delimited
    else if n == 3
    then start_group
    else if n == 4
    then end_group
    else fixed32

-- Writing. Each function appends to the buffer.

shift_shrinks : (v : ℕ) → 0x80 ≤ v → v / 128 < v
shift_shrinks v h = omega arith

unfoldable pub write_varint_loop : Bytes → (value : ℕ) → Acc ◌<◌ value → Bytes
unfolding shift_shrinks
write_varint_loop buf value (Acc.intro _ smaller) =
    dite (dec_le 0x80 value)
      (λ big.
        write_varint_loop (buf ++ bit_or (value % 256) 0x80 ∷ []) (value / 128)
          (smaller (value / 128) (shift_shrinks value big)))
      (λ _. buf ++ (value % 256) ∷ [])

unfoldable pub write_varint : Bytes → ℕ → Bytes
write_varint buf value = write_varint_loop buf value (lt_wf.apply value)

unfoldable pub write_tag : Bytes → ℕ → WireType → Bytes
write_tag buf field type = write_varint buf (bit_or (field * 8) (wire_code type))

unfoldable pub write_uint32 : Bytes → ℕ → ℕ → Bytes
write_uint32 buf field value =
    if value == 0 then buf else write_varint (write_tag buf field varint) value

-- The 64-bit pattern of the same signed number.
unfoldable pub sign_extend : ℕ → ℕ
sign_extend value = if ltb value (2 ^ 31) then value else value + (2 ^ 64 - 2 ^ 32)

unfoldable pub write_int32 : Bytes → ℕ → ℕ → Bytes
write_int32 buf field value =
    if value == 0 then buf else write_varint (write_tag buf field varint) (sign_extend value)

unfoldable pub write_bool : Bytes → ℕ → Bool → Bytes
write_bool buf field value = if not value then buf else write_varint (write_tag buf field varint) 1

unfoldable pub write_message : Bytes → ℕ → Bytes → Bytes
write_message buf field body =
    write_varint (write_tag buf field length_delimited) (length body) ++ body

-- Reading. A method that returns false is `none`: its out parameter is not written.

pub record Reader : Type 0 where
  pub rest : Bytes
  pub ok : Bool

abbrev pub reader : Bytes → Reader
reader bytes = record { rest = bytes; ok = true }

abbrev pub Read : Type 0 → Type 0
Read A = Reader → Option A × Reader

abbrev pub continue : {A B : Type 0} → (A → Read B) → Option A × Reader → Option B × Reader
continue f (none, r) = (none, r)
continue f (some a, r) = f a r

infixl 5 ◌>>=◌ ◌>>◌
abbrev pub ◌>>=◌ : {A B : Type 0} → Read A → (A → Read B) → Read B
◌>>=◌ m f r = continue f (m r)

abbrev pub ◌>>◌ : {A B : Type 0} → Read A → Read B → Read B
m >> k = m >>= λ _. k

abbrev pub pure : {A : Type 0} → A → Read A
pure a r = (some a, r)

-- _ok = false; return false;
abbrev pub fail : {A : Type 0} → Read A
fail r = (none, record r { ok = false })

abbrev pub at_end : Reader → Bool
at_end r = length r.rest == 0

unfoldable pub require : ℕ → Read (Unit {0})
require bytes r =
    if not r.ok then (none, r) else if ltb (length r.rest) bytes then fail r else (some tt, r)

-- *_p++, after `Require(1)`.
unfoldable pub next_byte : Read ℕ
next_byte r = elim r.rest [ [] ↦ (none, r) | b ∷ bs ↦ (some b, record r { rest = bs }) ]

-- _p += n
abbrev pub advance : ℕ → Read (Unit {0})
advance n r = (some tt, record r { rest = drop n r.rest })

-- result |= static_cast<uint64_t>(byte & 0x7F) << shift
abbrev pub add_group : ℕ → ℕ → ℕ → ℕ
add_group result byte shift = bit_or result (bit_and byte 0x7f * 2 ^ shift % 2 ^ 64)

-- The rounds left of `for (shift = 0; shift < 64; shift += 7)`, ten in all.
unfoldable pub read_varint_loop : ℕ → ℕ → ℕ → Read ℕ
read_varint_loop zero shift result = fail
read_varint_loop (suc rounds) shift result = do
  require 1
  byte ← next_byte
  let result' = add_group result byte shift
  let more = read_varint_loop rounds (shift + 7) result'
  if bit_and byte 0x80 == 0 then pure result' else more

unfoldable pub read_varint : Read ℕ
read_varint r = if not r.ok then (none, r) else read_varint_loop 10 0 0 r

unfoldable pub read_tag : Read (ℕ × WireType)
read_tag = do
  tag ← read_varint
  let number = tag / 8 % 2 ^ 32
  let wire = bit_and tag 7
  if number == 0 || ltb 5 wire then fail else pure (number, wire_type wire)

unfoldable pub read_uint32 : Read ℕ
read_uint32 = do raw ← read_varint; pure (raw % 2 ^ 32)

unfoldable pub read_int32 : Read ℕ
read_int32 = do raw ← read_varint; pure (raw % 2 ^ 32)

unfoldable pub read_bool : Read Bool
read_bool = do raw ← read_varint; pure (not (raw == 0))

-- The first `n` bytes of what is left, and past them.
abbrev split_off : ℕ → Read Bytes
split_off n r = (some (take n r.rest), record r { rest = drop n r.rest })

unfoldable pub read_message : Read Bytes
read_message = do
  size ← read_varint
  λ r. if ltb (length r.rest) size then fail r else split_off size r

unfoldable pub skip_field : WireType → Read (Unit {0})
skip_field varint = do read_varint; pure tt
skip_field fixed64 = do require 8; advance 8
skip_field length_delimited = do read_message; pure tt
skip_field fixed32 = do require 4; advance 4
skip_field start_group = fail
skip_field end_group = fail
