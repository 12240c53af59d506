-- ===== src/Wire/Fields.antt =====
-- Fields of the wire format as data, of the four wire types that a message can have: what the writers
-- of tsf/Ohagey/OhageyWire.cpp append for those that they write, and what its reader makes of one.
use Prim.Native.Nat.{bit_and}
use ohagey.Common.{
  ℕ, ◌+◌, ◌*◌, ◌/◌, ◌%◌, ◌^◌, ◌<◌, ◌≡◌, refl, sym, ap, ◌∙◌, Bool, true, false, some, List, [], ◌∷◌,
  ◌++◌, append-nil, append_assoc, arith, ◌==◌, if◌then◌else◌, length, Bool-cases, inl, inr,
}
use ohagey.Common.Text.{Text}
use ohagey.Common.Bits.{or_low3, and_low3}
use ohagey.Wire.{
  Bytes, IsU32, IsU64, reader, WireType, varint, fixed64, length_delimited, start_group, end_group,
  fixed32, wire_code, wire_type, write_varint, write_tag, write_uint32, sign_extend, write_int32,
  write_bool, write_message, read_tag,
}
use ohagey.Wire.Text.{CodePage, to_utf8, write_string}
use ohagey.Wire.Varint.{groups, write_varint-groups, read_varint-groups}

pub data Field : Type 0 where
  scalar : ℕ → ℕ → Field
  block : ℕ → Bytes → Field
  four_bytes : ℕ → Bytes → Field
  eight_bytes : ℕ → Bytes → Field

abbrev pub number : Field → ℕ
number (scalar n v) = n
number (block n b) = n
number (four_bytes n b) = n
number (eight_bytes n b) = n

abbrev pub type_of : Field → WireType
type_of (scalar n v) = varint
type_of (block n b) = length_delimited
type_of (four_bytes n b) = fixed32
type_of (eight_bytes n b) = fixed64

abbrev pub IsNumber : ℕ → Type 0
IsNumber n = (0 < n) × (n < 2 ^ 32)

abbrev pub IsField : Field → Type 0
IsField (scalar n v) = IsNumber n × IsU64 v
IsField (block n b) = IsNumber n × IsU64 (length b)
IsField (four_bytes n b) = IsNumber n × (length b ≡ 4)
IsField (eight_bytes n b) = IsNumber n × (length b ≡ 8)

abbrev pub payload : Field → Bytes
payload (scalar n v) = groups 9 v
payload (block n b) = groups 9 (length b) ++ b
payload (four_bytes n b) = b
payload (eight_bytes n b) = b

abbrev pub tag : ℕ → WireType → Bytes
tag n t = groups 9 (n * 8 + wire_code t)

abbrev pub encode : Field → Bytes
encode x = tag (number x) (type_of x) ++ payload x

abbrev pub encode_all : List Field → Bytes
encode_all [] = []
encode_all (x ∷ xs) = encode x ++ encode_all xs

wire_code-lt : (t : WireType) → wire_code t < 6
unfolding wire_code
wire_code-lt varint = omega arith
wire_code-lt fixed64 = omega arith
wire_code-lt length_delimited = omega arith
wire_code-lt start_group = omega arith
wire_code-lt end_group = omega arith
wire_code-lt fixed32 = omega arith

wire_type-wire_code : (t : WireType) → wire_type (wire_code t) ≡ t
unfolding wire_type wire_code
wire_type-wire_code varint = refl
wire_type-wire_code fixed64 = refl
wire_type-wire_code length_delimited = refl
wire_type-wire_code start_group = refl
wire_type-wire_code end_group = refl
wire_type-wire_code fixed32 = refl

write_tag_lem :
    (buf : Bytes) (n : ℕ) (t : WireType) → n < 2 ^ 32 → write_tag buf n t ≡ buf ++ tag n t
unfolding write_tag
write_tag_lem buf n t h =
    ap (write_varint buf) (or_low3 n (wire_code t) (omega (arith, wire_code-lt t)))
    ∙ write_varint-groups buf (n * 8 + wire_code t) (omega (arith, wire_code-lt t))

pub read_tag-tag :
    (n : ℕ) (t : WireType) (bs : Bytes)
    → IsNumber n
    → read_tag (reader (tag n t ++ bs)) ≡ (some (n, t), reader bs)
unfolding read_tag
read_tag-tag n t bs h =
    let code = wire_code t in
    let few = wire_code-lt t in
    let field : (n * 8 + code) / 8 % 2 ^ 32 ≡ n = omega (arith, few) in
    let low : bit_and (n * 8 + code) 7 ≡ code = omega (arith, few, and_low3 (n * 8 + code)) in
    rw
      (read_varint-groups (n * 8 + code) bs (omega (arith, few)), field, low, wire_type-wire_code t)
      (ground (arith, h.0, few))

-- The fields that each writer appends: none for a value at its default, but always a message.
unfoldable pub uint32_field : ℕ → ℕ → List Field
uint32_field n v = if v == 0 then [] else scalar n v ∷ []

unfoldable pub int32_field : ℕ → ℕ → List Field
int32_field n v = if v == 0 then [] else scalar n (sign_extend v) ∷ []

unfoldable pub bool_field : ℕ → Bool → List Field
bool_field n v = if v then scalar n 1 ∷ [] else []

unfoldable pub string_field : CodePage → ℕ → Text → List Field
string_field cp n [] = []
string_field cp n (c ∷ cs) = block n (to_utf8 cp (c ∷ cs)) ∷ []

write_scalar :
    (buf : Bytes) (n v : ℕ)
    → IsNumber n
    → IsU64 v
    → write_varint (write_tag buf n varint) v ≡ buf ++ (encode (scalar n v) ++ [])
write_scalar buf n v hn hv =
    write_varint-groups (write_tag buf n varint) v hv
    ∙ ap (λ b. b ++ groups 9 v) (write_tag_lem buf n varint hn.1)
    ∙ append_assoc buf (tag n varint) (groups 9 v)
    ∙ ap (λ b. buf ++ b) (sym (append-nil (encode (scalar n v))))

write_block :
    (buf : Bytes) (n : ℕ) (b : Bytes)
    → IsNumber n
    → IsU64 (length b)
    → write_varint (write_tag buf n length_delimited) (length b) ++ b
      ≡ buf ++ (encode (block n b) ++ [])
write_block buf n b hn hb =
    ap (λ x. x ++ b)
      (write_varint-groups (write_tag buf n length_delimited) (length b) hb
        ∙ ap (λ x. x ++ groups 9 (length b)) (write_tag_lem buf n length_delimited hn.1))
    ∙ append_assoc (buf ++ tag n length_delimited) (groups 9 (length b)) b
    ∙ append_assoc buf (tag n length_delimited) (groups 9 (length b) ++ b)
    ∙ ap (λ x. buf ++ x) (sym (append-nil (encode (block n b))))

pub sign_extend-IsU64 : (v : ℕ) → IsU32 v → IsU64 (sign_extend v)
unfolding sign_extend
sign_extend-IsU64 v h = ground arith

pub write_uint32_lem :
    (buf : Bytes) (n v : ℕ)
    → IsNumber n
    → IsU32 v
    → write_uint32 buf n v ≡ buf ++ encode_all (uint32_field n v)
unfolding write_uint32 uint32_field
write_uint32_lem buf n v hn hv = elim (Bool-cases (v == 0)) [
  | inl z ↦ rw z (sym (append-nil buf))
  | inr nz ↦ rw nz (write_scalar buf n v hn (omega arith))
]

pub write_int32_lem :
    (buf : Bytes) (n v : ℕ)
    → IsNumber n
    → IsU32 v
    → write_int32 buf n v ≡ buf ++ encode_all (int32_field n v)
unfolding write_int32 int32_field
write_int32_lem buf n v hn hv = elim (Bool-cases (v == 0)) [
  | inl z ↦ rw z (sym (append-nil buf))
  | inr nz ↦ rw nz (write_scalar buf n (sign_extend v) hn (sign_extend-IsU64 v hv))
]

pub write_bool_lem :
    (buf : Bytes) (n : ℕ) (v : Bool)
    → IsNumber n
    → write_bool buf n v ≡ buf ++ encode_all (bool_field n v)
unfolding write_bool bool_field
write_bool_lem buf n false hn = sym (append-nil buf)
write_bool_lem buf n true hn = write_scalar buf n 1 hn (omega arith)

pub write_message_lem :
    (buf : Bytes) (n : ℕ) (body : Bytes)
    → IsNumber n
    → IsU64 (length body)
    → write_message buf n body ≡ buf ++ encode_all (block n body ∷ [])
unfolding write_message
write_message_lem buf n body hn hb = write_block buf n body hn hb

pub write_string_lem :
    (cp : CodePage) (buf : Bytes) (n : ℕ) (s : Text)
    → IsNumber n
    → IsU64 (length (to_utf8 cp s))
    → write_string cp buf n s ≡ buf ++ encode_all (string_field cp n s)
unfolding write_string string_field
write_string_lem cp buf n [] hn hs = sym (append-nil buf)
write_string_lem cp buf n (c ∷ cs) hn hs = write_block buf n (to_utf8 cp (c ∷ cs)) hn hs
