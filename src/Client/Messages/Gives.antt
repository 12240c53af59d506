-- ===== src/Client/Messages/Gives.antt =====
-- The fields that each message of tsf/Ohagey/OhageyProtocol.h is written as, and what one of them
-- gives the parsers of tsf/Ohagey/OhageyEngineClient.cpp.
use ohagey.Common.{
  ℕ, ◌%◌, ◌^◌, ◌≡◌, refl, ap, ◌∙◌, Bool, true, false, List, [], ◌∷◌, ◌++◌, map, ◌==◌, arith, length,
  All, Bool-cases, inl, inr,
}
use ohagey.Common.Text.{Text}
use ohagey.Wire.{Bytes, IsU32, IsU64, sign_extend}
use ohagey.Wire.Text.{CodePage, to_utf8, from_utf8}
use ohagey.Wire.Fields.{
  Field, scalar, block, IsNumber, IsField, encode_all, int32_field, bool_field, string_field,
  sign_extend-IsU64,
}
use ohagey.Wire.Values.{int32_back}
use ohagey.Client.Parse.Steps.{Apply, apply_all, apply_next}
use ohagey.Client.Messages.{Segment, Candidate, ConvertResult, PingResult, Status}

-- A handler accepts all the fields, and they make `s'` of `s`.
abbrev pub Gives : {S : Type 0} → Apply S → List Field → S → S → Type 0
Gives apply xs s s' = apply_all apply xs s ≡ (true, s')

next-Gives :
    {S : Type 0} (apply : Apply S) (xs ys : List Field) {s' s'' : S}
    → ((t : S) → Gives apply xs t s' → Gives apply (xs ++ ys) t s'')
    → (turn : Bool × S) → apply_next (apply_all apply xs) turn ≡ (true, s')
    → apply_next (apply_all apply (xs ++ ys)) turn ≡ (true, s'')
next-Gives apply xs ys more (true, t) h = more t h
next-Gives apply xs ys more (false, t) h = cc

pub Gives-append :
    {S : Type 0} (apply : Apply S) (xs ys : List Field) (s : S) {s' s'' : S}
    → Gives apply xs s s'
    → Gives apply ys s' s''
    → Gives apply (xs ++ ys) s s''
unfolding apply_all
Gives-append apply [] ys s {s'} {s''} hx hy =
    ap (apply_all apply ys) (ap (λ (p : Bool × _). p.1) hx) ∙ hy
Gives-append apply (x ∷ xs) ys s {s'} {s''} hx hy =
    next-Gives apply xs ys (λ t h. Gives-append apply xs ys t h hy) (apply s x) hx

module _ (cp : CodePage) where
  -- A text that the conversion to UTF-8 and back keeps, as it does any well-formed UTF-16.
  pub record IsCarried (s : Text) : Type 0 where
    pub back : from_utf8 cp (to_utf8 cp s) ≡ s
    pub short : IsU64 (length (to_utf8 cp s))

  -- The fields of each message, as ohagey.proto numbers them.
  abbrev pub segment_fields : Segment → List Field
  segment_fields s = string_field cp 1 s.text ++ string_field cp 2 s.reading

  abbrev pub segment_block : Segment → Field
  segment_block s = block 4 (encode_all (segment_fields s))

  abbrev pub candidate_fields : Candidate → List Field
  candidate_fields c =
      (string_field cp 1 c.text ++ string_field cp 2 c.reading)
      ++ (int32_field 3 c.score ++ map segment_block c.segments)

  abbrev pub candidate_block : Candidate → Field
  candidate_block c = block 1 (encode_all (candidate_fields c))

  abbrev pub result_fields : ConvertResult → List Field
  result_fields o = map candidate_block o.candidates ++ bool_field 2 o.zenzai_used

  abbrev pub ping_fields : PingResult → List Field
  ping_fields o =
      string_field cp 1 o.engine_version ++ (bool_field 2 o.model_loaded ++ int32_field 3 o.backend)

  abbrev pub status_fields : Status → List Field
  status_fields s = int32_field 1 s.code ++ string_field cp 2 s.message

  pub string_field-IsField :
      (n : ℕ) (t : Text) → IsNumber n → IsCarried t → All IsField (string_field cp n t)
  unfolding string_field
  string_field-IsField n [] hn ht = tt
  string_field-IsField n (c ∷ t) hn ht = ((hn, ht.short), tt)

  -- A text field sets what it is given, and a text that is not written was empty.
  module _ {S : Type 0} (apply : Apply S) (n : ℕ) (put : Text → S)
      (sets : (b : Bytes) → apply (put []) (block n b) ≡ (true, put (from_utf8 cp b))) where
    pub string_field-Gives :
        (t : Text) → IsCarried t → Gives apply (string_field cp n t) (put []) (put t)
    unfolding apply_all string_field
    string_field-Gives [] ht = refl
    string_field-Gives (c ∷ t) ht =
        ap (apply_next (λ s. (true, s))) (sets (to_utf8 cp (c ∷ t)))
        ∙ ap (λ x. (true, put x)) ht.back

pub int32_field-IsField : (n v : ℕ) → IsNumber n → IsU32 v → All IsField (int32_field n v)
unfolding int32_field
int32_field-IsField n v hn hv = elim (Bool-cases (v == 0)) [
  | inl e ↦ rw e tt
  | inr e ↦ rw e ((hn, sign_extend-IsU64 v hv), tt)
]

pub bool_field-IsField : (n : ℕ) (v : Bool) → IsNumber n → All IsField (bool_field n v)
unfolding bool_field
bool_field-IsField n false hn = tt
bool_field-IsField n true hn = ((hn, omega arith), tt)

module _ {S : Type 0} (apply : Apply S) (n : ℕ) (put : ℕ → S)
    (sets : (v : ℕ) → apply (put 0) (scalar n v) ≡ (true, put (v % 2 ^ 32))) where
  pub int32_field-Gives : (v : ℕ) → IsU32 v → Gives apply (int32_field n v) (put 0) (put v)
  unfolding apply_all int32_field
  int32_field-Gives v hv = elim (Bool-cases (v == 0)) [
    | inl e ↦ let z : v ≡ 0 = ground arith in rw z
    | inr e ↦ rw e (
        ap (apply_next (λ s. (true, s))) (sets (sign_extend v))
        ∙ ap (λ x. (true, put x)) (int32_back v hv))
  ]

module _ {S : Type 0} (apply : Apply S) (n : ℕ) (put : Bool → S)
    (sets : apply (put false) (scalar n 1) ≡ (true, put true)) where
  pub bool_field-Gives : (v : Bool) → Gives apply (bool_field n v) (put false) (put v)
  unfolding apply_all bool_field
  bool_field-Gives false = refl
  bool_field-Gives true = ap (apply_next (λ s. (true, s))) sets
