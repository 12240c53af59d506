-- ===== src/Wire/Values.antt =====
-- What the readers of tsf/Ohagey/OhageyWire.cpp make of a field that was written.
use mathlib.Core.Path.{subst}
use ohagey.Common.{
  ℕ, ◌%◌, ◌^◌, ◌≡◌, ◌≢◌, refl, ap, ◌∙◌, true, false, not, some, [], ◌∷◌, ◌++◌, append-nil,
  append_assoc, arith, ltb, le→ltb_false, ◌==◌, length, length-append, take-append, drop-append,
}
use ohagey.Wire.{
  Bytes, IsU32, IsU64, reader, Read, ◌>>=◌, ◌>>◌, pure, require, advance, WireType, varint,
  length_delimited, write_uint32, sign_extend, write_int32, write_bool, write_message, read_tag,
  read_uint32, read_int32, read_bool, read_message, skip_field,
}
use ohagey.Wire.Text.{CodePage, from_utf8, read_string}
use ohagey.Wire.Varint.{groups, read_varint-groups}
use ohagey.Wire.Fields.{
  Field, scalar, block, four_bytes, eight_bytes, number, type_of, IsNumber, IsField, payload, tag,
  encode, encode_all, read_tag-tag, sign_extend-IsU64, uint32_field, int32_field, bool_field,
  write_uint32_lem, write_int32_lem, write_bool_lem, write_message_lem,
}

pub read_uint32-payload :
    (v : ℕ) (bs : Bytes)
    → IsU64 v
    → read_uint32 (reader (groups 9 v ++ bs)) ≡ (some (v % 2 ^ 32), reader bs)
unfolding read_uint32
read_uint32-payload v bs h = rw (read_varint-groups v bs h)

pub read_int32-payload :
    (v : ℕ) (bs : Bytes)
    → IsU64 v
    → read_int32 (reader (groups 9 v ++ bs)) ≡ (some (v % 2 ^ 32), reader bs)
unfolding read_int32
read_int32-payload v bs h = rw (read_varint-groups v bs h)

pub read_bool-payload :
    (v : ℕ) (bs : Bytes)
    → IsU64 v
    → read_bool (reader (groups 9 v ++ bs)) ≡ (some (not (v == 0)), reader bs)
unfolding read_bool
read_bool-payload v bs h = rw (read_varint-groups v bs h)

not_short : (b bs : Bytes) → ltb (length (b ++ bs)) (length b) ≡ false
not_short b bs = le→ltb_false _ _ (omega (arith, length-append b bs))

pub read_message-payload :
    (b bs : Bytes)
    → IsU64 (length b)
    → read_message (reader ((groups 9 (length b) ++ b) ++ bs)) ≡ (some b, reader bs)
unfolding read_message
read_message-payload b bs h =
    rw (append_assoc (groups 9 (length b)) b bs, read_varint-groups (length b) (b ++ bs) h)
      (rw (not_short b bs, take-append b bs, drop-append b bs))

pub read_string-payload :
    (cp : CodePage) (b bs : Bytes)
    → IsU64 (length b)
    → read_string cp (reader ((groups 9 (length b) ++ b) ++ bs))
      ≡ (some (from_utf8 cp b), reader bs)
unfolding read_string
read_string-payload cp b bs h =
    rw (append_assoc (groups 9 (length b)) b bs, read_varint-groups (length b) (b ++ bs) h)
      (rw (not_short b bs, take-append b bs, drop-append b bs))

skip_bytes-payload :
    (size : ℕ) (b bs : Bytes)
    → length b ≡ size
    → (require size >> advance size) (reader (b ++ bs)) ≡ (some tt, reader bs)
unfolding require
skip_bytes-payload size b bs e =
    subst (λ (n : ℕ). (require n >> advance n) (reader (b ++ bs)) ≡ (some tt, reader bs)) e
      (rw (not_short b bs, drop-append b bs))

pub skip_field-payload :
    (x : Field) (bs : Bytes)
    → IsField x
    → skip_field (type_of x) (reader (payload x ++ bs)) ≡ (some tt, reader bs)
unfolding skip_field
skip_field-payload (scalar n v) bs h = rw (read_varint-groups v bs h.1)
skip_field-payload (block n b) bs h = rw (read_message-payload b bs h.1)
skip_field-payload (four_bytes n b) bs h = skip_bytes-payload 4 b bs h.1
skip_field-payload (eight_bytes n b) bs h = skip_bytes-payload 8 b bs h.1

-- Reads a tag and then the value.
abbrev pub tagged : {A : Type 0} → Read A → Read ((ℕ × WireType) × A)
tagged m = do t ← read_tag; a ← m; pure (t, a)

tagged-encode :
    {A : Type 0} (m : Read A) (x : Field) (a : A) (bs : Bytes)
    → IsNumber (number x)
    → m (reader (payload x ++ bs)) ≡ (some a, reader bs)
    → tagged m (reader (encode x ++ bs)) ≡ (some ((number x, type_of x), a), reader bs)
tagged-encode m x a bs h e =
    rw
      (
        append_assoc (tag (number x) (type_of x)) (payload x) bs,
        read_tag-tag (number x) (type_of x) (payload x ++ bs) h,
      )
      (rw e)

tagged-written :
    {A : Type 0} (m : Read A) (x : Field) (a : A) (w bs : Bytes)
    → w ≡ encode_all (x ∷ [])
    → IsNumber (number x)
    → m (reader (payload x ++ bs)) ≡ (some a, reader bs)
    → tagged m (reader (w ++ bs)) ≡ (some ((number x, type_of x), a), reader bs)
tagged-written m x a w bs e h r =
    ap (λ y. tagged m (reader (y ++ bs))) (e ∙ append-nil (encode x)) ∙ tagged-encode m x a bs h r

uint32_field-nonzero : (n v : ℕ) → v ≢ 0 → uint32_field n v ≡ scalar n v ∷ []
unfolding uint32_field
uint32_field-nonzero n v h = ground arith

int32_field-nonzero : (n v : ℕ) → v ≢ 0 → int32_field n v ≡ scalar n (sign_extend v) ∷ []
unfolding int32_field
int32_field-nonzero n v h = ground arith

pub int32_back : (v : ℕ) → IsU32 v → sign_extend v % 2 ^ 32 ≡ v
unfolding sign_extend
int32_back v h = ground arith

small_back : (v : ℕ) → IsU32 v → v % 2 ^ 32 ≡ v
small_back v h = omega arith

-- A 32-bit number that is not 0, an integer of either sign that is not 0, a true and a message
-- shorter than 2 ^ 64 bytes, which the writers put under a legal field number, are read back with
-- their number, wire type and value, and what follows is left.
pub read_written :
    (n u i : ℕ) (body bs : Bytes)
    → IsNumber n
    → IsU32 u
    → IsU32 i
    → IsU64 (length body)
    → u ≢ 0
    → i ≢ 0
    → (tagged read_uint32 (reader (write_uint32 [] n u ++ bs)) ≡ (some ((n, varint), u), reader bs))
      × (tagged read_int32 (reader (write_int32 [] n i ++ bs)) ≡ (some ((n, varint), i), reader bs))
      × (tagged read_bool (reader (write_bool [] n true ++ bs))
          ≡ (some ((n, varint), true), reader bs))
      × (tagged read_message (reader (write_message [] n body ++ bs))
          ≡ (some ((n, length_delimited), body), reader bs))
read_written n u i body bs hn hu hi hb u-ne i-ne = (
  tagged-written read_uint32 (scalar n u) u (write_uint32 [] n u) bs
      (write_uint32_lem [] n u hn hu ∙ ap encode_all (uint32_field-nonzero n u u-ne)) hn
      (read_uint32-payload u bs (omega arith)
        ∙ ap (λ (v : ℕ). (some v, reader bs)) (small_back u hu)),
  tagged-written read_int32 (scalar n (sign_extend i)) i (write_int32 [] n i) bs
      (write_int32_lem [] n i hn hi ∙ ap encode_all (int32_field-nonzero n i i-ne)) hn
      (read_int32-payload (sign_extend i) bs (sign_extend-IsU64 i hi)
        ∙ ap (λ (v : ℕ). (some v, reader bs)) (int32_back i hi)),
  tagged-written read_bool (scalar n 1) true (write_bool [] n true) bs
      (write_bool_lem [] n true hn ∙ (unfold bool_field in refl)) hn
      (read_bool-payload 1 bs (omega arith)),
  tagged-written read_message (block n body) body (write_message [] n body) bs
      (write_message_lem [] n body hn hb) hn (read_message-payload body bs hb),
)
