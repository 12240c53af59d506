-- ===== src/Client/Parse.antt =====
-- The loop that every parser of tsf/Ohagey/OhageyEngineClient.cpp has:
-- `while (!reader.AtEnd()) { if (!reader.ReadTag(...)) return false; ... } return reader.Ok();`
pub mod Steps
use ohagey.Common.{ℕ, zero, suc, Bool, true, false, Option, none, some, ◌==◌, if◌then◌else◌, length}
use ohagey.Wire.{
  Bytes, Reader, reader, at_end, WireType, varint, length_delimited, read_tag, skip_field,
}

-- Whether to go on, the object that is filled, and the reader.
abbrev pub Turn : Type 0 → Type 0
Turn S = Bool × S × Reader

-- What the body of the loop does with a field; false is `return false`.
abbrev pub Handler : Type 0 → Type 0
Handler S = ℕ → WireType → S → Reader → Turn S

abbrev pub is_varint : WireType → Bool
is_varint varint = true
is_varint _ = false

abbrev pub is_block : WireType → Bool
is_block length_delimited = true
is_block _ = false

-- if (!reader.Read...(&s->field)) return false;
abbrev pub store {ℓ} : {S A : Type ℓ} → Option A × Reader → S → (A → S) → Bool × S × Reader
store (none, r) s put = (false, s, r)
store (some a, r) s put = (true, put a, r)

-- else if (!reader.SkipField(type)) return false;
abbrev pub skip : {S : Type 0} → WireType → S → Reader → Turn S
skip t s r = store (skip_field t r) s (λ _. s)

-- A nested message: its bytes are read, then parsed, and a refusal of either returns false.
abbrev pub nest {ℓ} :
    {S : Type ℓ} → Option Bytes × Reader → S → (Bytes → Bool × S) → Bool × S × Reader
nest (none, r) s parse = (false, s, r)
nest (some body, r) s parse = let (good, s') = parse body in (good, s', r)

abbrev pub on_tag : {S : Type 0} → Handler S → S → Option (ℕ × WireType) × Reader → Turn S
on_tag h s (none, r) = (false, s, r)
on_tag h s (some (field, t), r) = h field t s r

abbrev pub go_on : {S : Type 0} → (S → Reader → Turn S) → Turn S → Turn S
go_on k (true, s, r) = k s r
go_on k (false, s, r) = (false, s, r)

unfoldable pub parse_loop : {S : Type 0} → ℕ → Handler S → S → Reader → Turn S
parse_loop zero h s r = (false, s, r)
parse_loop (suc fuel) h s r =
    let next = go_on (parse_loop fuel h) (on_tag h s (read_tag r)) in
    if at_end r then (r.ok, s, r) else next

-- Every turn reads a tag, so there are no more turns than bytes.
unfoldable pub parse : {S : Type 0} → Handler S → S → Bytes → Bool × S
parse h s bytes =
    let (good, s', r) = parse_loop (suc (length bytes)) h s (reader bytes) in (good, s')
