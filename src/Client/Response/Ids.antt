-- ===== src/Client/Response/Ids.antt =====
-- Which replies `Exchange` (tsf/Ohagey/OhageyEngineClient.cpp) takes for an answer to its request.
use ohagey.Common.{
  ℕ, zero, suc, ◌%◌, ◌^◌, ◌<◌, ◌≡◌, refl, ap, ◌∙◌, Bool, true, false, not, ◌&&◌, Option, none, some,
  List, [], ◌∷◌, ◌++◌, ◌==◌, arith, if◌then◌else◌, length, All, All-append, Bool-cases, inl, inr,
}
use ohagey.Wire.{Bytes, IsU32, reader}
use ohagey.Wire.Fields.{
  Field, scalar, block, four_bytes, eight_bytes, number, type_of, payload, IsNumber, IsField,
  encode_all, uint32_field,
}
use ohagey.Wire.Values.{read_uint32-payload, skip_field-payload}
use ohagey.Client.Parse.{Turn, parse_loop}
use ohagey.Client.Parse.Steps.{length-encode_all, turn_read}
use ohagey.Client.Messages.Fields.{and_false}
use ohagey.Client.Response.{id_field, is_ours, accepts}

-- The value of the first field 1 that is a number.
abbrev first_id : List Field → Option ℕ
first_id [] = none
first_id (scalar n v ∷ xs) = if n == 1 then some (v % 2 ^ 32) else first_id xs
first_id (block n b ∷ xs) = first_id xs
first_id (four_bytes n b ∷ xs) = first_id xs
first_id (eight_bytes n b ∷ xs) = first_id xs

-- The loop's turn on one field: an id ends it.
abbrev id_turn : Field → Bytes → Turn (Option ℕ)
id_turn (scalar n v) bs =
    if n == 1 then (false, some (v % 2 ^ 32), reader bs) else (true, none, reader bs)
id_turn (block n b) bs = (true, none, reader bs)
id_turn (four_bytes n b) bs = (true, none, reader bs)
id_turn (eight_bytes n b) bs = (true, none, reader bs)

id_field_turn :
    (x : Field) (bs : Bytes)
    → IsField x
    → id_field (number x) (type_of x) none (reader (payload x ++ bs)) ≡ id_turn x bs
unfolding id_field
id_field_turn (scalar n v) bs h = elim (Bool-cases (n == 1)) [
  | inl e ↦ rw e (rw (read_uint32-payload v bs h.1))
  | inr e ↦ rw e (rw (skip_field-payload (scalar n v) bs h))
]
id_field_turn (block n b) bs h = rw (and_false (n == 1)) (rw (skip_field-payload (block n b) bs h))
id_field_turn (four_bytes n b) bs h =
    rw (and_false (n == 1)) (rw (skip_field-payload (four_bytes n b) bs h))
id_field_turn (eight_bytes n b) bs h =
    rw (and_false (n == 1)) (rw (skip_field-payload (eight_bytes n b) bs h))

-- What the loop leaves.
abbrev seen_ok : Turn (Option ℕ) → Option ℕ × Bool
seen_ok (good, seen, r) = (seen, r.ok)

id_loop :
    (f : ℕ) (xs : List Field)
    → length xs < f
    → All IsField xs
    → seen_ok (parse_loop f id_field none (reader (encode_all xs))) ≡ (first_id xs, true)
id_loop zero xs lt hs = elim lt [ ]
id_loop (suc f) [] lt hs = unfold parse_loop in refl
id_loop (suc f) (scalar n v ∷ xs) lt hs = elim (Bool-cases (n == 1)) [
  | inl e ↦
      ap seen_ok (
        turn_read id_field f none (scalar n v) (encode_all xs)
          (id_turn (scalar n v) (encode_all xs)) hs.0
          (id_field_turn (scalar n v) (encode_all xs) hs.0))
      ∙ rw e
  | inr e ↦
      ap seen_ok (
        turn_read id_field f none (scalar n v) (encode_all xs)
          (id_turn (scalar n v) (encode_all xs)) hs.0
          (id_field_turn (scalar n v) (encode_all xs) hs.0))
      ∙ rw e (id_loop f xs (omega arith) hs.1)
]
id_loop (suc f) (block n b ∷ xs) lt hs =
    ap seen_ok (
      turn_read id_field f none (block n b) (encode_all xs) (id_turn (block n b) (encode_all xs))
        hs.0 (id_field_turn (block n b) (encode_all xs) hs.0))
    ∙ id_loop f xs (omega arith) hs.1
id_loop (suc f) (four_bytes n b ∷ xs) lt hs =
    ap seen_ok (
      turn_read id_field f none (four_bytes n b) (encode_all xs)
        (id_turn (four_bytes n b) (encode_all xs)) hs.0
        (id_field_turn (four_bytes n b) (encode_all xs) hs.0))
    ∙ id_loop f xs (omega arith) hs.1
id_loop (suc f) (eight_bytes n b ∷ xs) lt hs =
    ap seen_ok (
      turn_read id_field f none (eight_bytes n b) (encode_all xs)
        (id_turn (eight_bytes n b) (encode_all xs)) hs.0
        (id_field_turn (eight_bytes n b) (encode_all xs) hs.0))
    ∙ id_loop f xs (omega arith) hs.1

-- A reply made of fields that the format can carry is taken exactly when its first id is the one
-- that the request was sent under.
accepts-first_id :
    (xs : List Field) (request_id : ℕ)
    → All IsField xs
    → accepts (encode_all xs) request_id ≡ is_ours request_id (first_id xs)
unfolding accepts
accepts-first_id xs request_id hs =
    ap (λ (p : Option ℕ × Bool). p.1 && is_ours request_id p.0)
      (id_loop (suc (length (encode_all xs))) xs (omega (arith, length-encode_all xs)) hs)

-- Fields that are no ids.
abbrev HasNoId : List Field → Type 0
HasNoId xs = first_id xs ≡ none

first_id-uint32_field :
    (id : ℕ) (xs : List Field)
    → IsU32 id
    → HasNoId xs
    → first_id (uint32_field 1 id ++ xs) ≡ (if id == 0 then none else some id)
unfolding uint32_field
first_id-uint32_field id xs hid none_ = elim (Bool-cases (id == 0)) [
  | inl e ↦ rw e none_
  | inr e ↦ let same : id % 2 ^ 32 ≡ id = omega arith in rw e (ap some same)
]

pub uint32_field-IsField : (n v : ℕ) → IsNumber n → IsU32 v → All IsField (uint32_field n v)
unfolding uint32_field
uint32_field-IsField n v hn hv = elim (Bool-cases (v == 0)) [
  | inl e ↦ rw e tt
  | inr e ↦ rw e ((hn, omega arith), tt)
]

uint32_field_zero : (xs : List Field) → uint32_field 1 0 ++ xs ≡ xs
unfolding uint32_field
uint32_field_zero xs = refl

-- The engine's reply carries the id the way the format writes numbers, which leaves out 0. So a
-- reply with a 32-bit id in front of fields that the format can carry and that hold no other id is
-- taken when its id is the request's and is not 0, and the reply to a request under the id 0 is
-- never taken.
pub accepts_reply :
    (id request_id : ℕ) (xs : List Field)
    → IsU32 id
    → HasNoId xs
    → All IsField xs
    → (accepts (encode_all (uint32_field 1 id ++ xs)) request_id
        ≡ (not (id == 0) && id == request_id))
      × (accepts (encode_all (uint32_field 1 0 ++ xs)) 0 ≡ false)
accepts_reply id request_id xs hid no_id hs = (by_id, zero_refused)
  where
    by_id :
        accepts (encode_all (uint32_field 1 id ++ xs)) request_id
        ≡ (not (id == 0) && id == request_id)
    by_id =
        accepts-first_id (uint32_field 1 id ++ xs) request_id (
          All-append IsField (uint32_field 1 id) xs (uint32_field-IsField 1 id (omega arith) hid)
            hs)
        ∙ ap (is_ours request_id) (first_id-uint32_field id xs hid no_id)
        ∙ taken (id == 0)
      where
        taken :
            (b : Bool)
            → is_ours request_id (if b then none else some id) ≡ (not b && id == request_id)
        taken true = refl
        taken false = refl

    zero_refused : accepts (encode_all (uint32_field 1 0 ++ xs)) 0 ≡ false
    zero_refused =
        ap (λ y. accepts (encode_all y) 0) (uint32_field_zero xs)
        ∙ accepts-first_id xs 0 hs
        ∙ ap (is_ours 0) no_id
