-- ===== src/Client/Parse/Steps.antt =====
-- The parsing loop of tsf/Ohagey/OhageyEngineClient.cpp, one field at a time.
use ohagey.Common.{
  ℕ, zero, suc, ◌+◌, ◌*◌, ◌≤◌, ◌<◌, ◌≡◌, refl, ap, ◌∙◌, Bool, true, false, List, [], ◌∷◌, ◌++◌,
  append_assoc, arith, ◌==◌, length, length-append, All,
}
use ohagey.Wire.{Bytes, reader, read_tag, wire_code}
use ohagey.Wire.Varint.{length-groups}
use ohagey.Wire.Fields.{
  Field, number, type_of, IsField, IsNumber, scalar, block, four_bytes, eight_bytes, payload, tag,
  encode, encode_all, read_tag-tag,
}
use ohagey.Client.Parse.{Turn, Handler, on_tag, go_on, parse_loop, parse}

is_encoded : (x : Field) (bs : Bytes) → (length (encode x ++ bs) == 0) ≡ false
is_encoded x bs = ground (
  arith,
  length-append (encode x) bs,
  length-append (tag (number x) (type_of x)) (payload x),
  length-groups 9 (number x * 8 + wire_code (type_of x)),
)

pub length-encode_all : (xs : List Field) → length xs ≤ length (encode_all xs)
length-encode_all [] = omega arith
length-encode_all (x ∷ xs) = omega (
  arith,
  length-encode_all xs,
  length-append (encode x) (encode_all xs),
  length-append (tag (number x) (type_of x)) (payload x),
  length-groups 9 (number x * 8 + wire_code (type_of x)),
)

IsField-IsNumber : (x : Field) → IsField x → IsNumber (number x)
IsField-IsNumber (scalar n v) h = h.0
IsField-IsNumber (block n b) h = h.0
IsField-IsNumber (four_bytes n b) h = h.0
IsField-IsNumber (eight_bytes n b) h = h.0

-- What a handler does with the fields that the format can carry.
abbrev pub Apply : Type 0 → Type 0
Apply S = S → Field → Bool × S

abbrev turn_of : {S : Type 0} → Bool × S → Bytes → Turn S
turn_of (good, s) bs = (good, s, reader bs)

abbrev pub Handles : {S : Type 0} → Handler S → Apply S → Type 0
Handles {S} h apply =
    (x : Field) (s : S) (bs : Bytes)
    → IsField x
    → h (number x) (type_of x) s (reader (payload x ++ bs)) ≡ turn_of (apply s x) bs

-- The fields in order, up to one that is refused.
abbrev pub apply_next : {S : Type 0} → (S → Bool × S) → Bool × S → Bool × S
apply_next k (true, s) = k s
apply_next k (false, s) = (false, s)

unfoldable pub apply_all : {S : Type 0} → Apply S → List Field → S → Bool × S
apply_all apply [] s = (true, s)
apply_all apply (x ∷ xs) s = apply_next (apply_all apply xs) (apply s x)

abbrev drop_reader : {S : Type 0} → Turn S → Bool × S
drop_reader (good, s, r) = (good, s)

-- One turn of the loop on a field, from what the handler makes of the field's value.
pub turn_read :
    {S : Type 0} (h : Handler S) (f : ℕ) (s : S) (x : Field) (bs : Bytes) (turn : Turn S)
    → IsField x
    → h (number x) (type_of x) s (reader (payload x ++ bs)) ≡ turn
    → parse_loop (suc f) h s (reader (encode x ++ bs)) ≡ go_on (parse_loop f h) turn
unfolding parse_loop
turn_read h f s x bs turn hx e = rw (is_encoded x bs) (
    ap (λ y. go_on (parse_loop f h) (on_tag h s (read_tag (reader y))))
      (append_assoc (tag (number x) (type_of x)) (payload x) bs)
    ∙ ap (λ y. go_on (parse_loop f h) (on_tag h s y))
        (read_tag-tag (number x) (type_of x) (payload x ++ bs) (IsField-IsNumber x hx))
    ∙ ap (go_on (parse_loop f h)) e)

module _ {S : Type 0} (h : Handler S) (apply : Apply S) (handles : Handles h apply) where
  turn_encoded :
      (f : ℕ) (s : S) (x : Field) (bs : Bytes)
      → IsField x
      → parse_loop (suc f) h s (reader (encode x ++ bs))
        ≡ go_on (parse_loop f h) (turn_of (apply s x) bs)
  turn_encoded f s x bs hx = turn_read h f s x bs (turn_of (apply s x) bs) hx (handles x s bs hx)

  rest_lem :
      (f : ℕ) (xs : List Field) (turn : Bool × S)
      → ((s : S) → drop_reader (parse_loop f h s (reader (encode_all xs))) ≡ apply_all apply xs s)
      → drop_reader (go_on (parse_loop f h) (turn_of turn (encode_all xs)))
        ≡ apply_next (apply_all apply xs) turn
  rest_lem f xs (true, s) ih = ih s
  rest_lem f xs (false, s) ih = refl

  parse_loop-encode_all :
      (f : ℕ) (xs : List Field) (s : S)
      → length xs < f
      → All IsField xs
      → drop_reader (parse_loop f h s (reader (encode_all xs))) ≡ apply_all apply xs s
  unfolding apply_all
  parse_loop-encode_all zero xs s lt hs = elim lt [ ]
  parse_loop-encode_all (suc f) [] s lt hs = unfold parse_loop in refl
  parse_loop-encode_all (suc f) (x ∷ xs) s lt hs =
      ap drop_reader (turn_encoded f s x (encode_all xs) hs.0)
      ∙ rest_lem f xs (apply s x) (λ s'. parse_loop-encode_all f xs s' (omega arith) hs.1)

  -- A parser whose handler follows `apply` on the fields that the format carries reads a whole
  -- message of them as `apply` says, one after another, up to one that is refused.
  pub parse-encode_all :
      (xs : List Field) (s : S) → All IsField xs → parse h s (encode_all xs) ≡ apply_all apply xs s
  unfolding parse
  parse-encode_all xs s hs =
      parse_loop-encode_all (suc (length (encode_all xs))) xs s
        (omega (arith, length-encode_all xs)) hs
