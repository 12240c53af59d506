-- ===== src/Client/Response/Answers.antt =====
-- `ReadResponse` (tsf/Ohagey/OhageyEngineClient.cpp): what a reply makes of a call.
use ohagey.Common.{
  ℕ, ◌≡◌, ◌≢◌, refl, ap, ◌∙◌, Bool, true, false, not, Option, none, some, List, [], ◌∷◌, ◌++◌, ◌==◌,
  arith, if◌then◌else◌, length, All, All-append, Bool-cases, inl, inr,
}
use ohagey.Wire.{Bytes, IsU32, IsU64}
use ohagey.Wire.Text.{CodePage}
use ohagey.Wire.Fields.{
  Field, scalar, block, four_bytes, eight_bytes, IsField, encode_all, uint32_field,
}
use ohagey.Wire.Values.{read_message-payload, skip_field-payload}
use ohagey.Client.Parse.Steps.{Apply, Handles, apply_all, parse-encode_all}
use ohagey.Client.Messages.{
  Status, status_ok, parse_status, ConvertResult, no_result, parse_convert_response, CallResult, ok,
  bad_response, status,
}
use ohagey.Client.Messages.Fields.{and_false}
use ohagey.Client.Messages.Gives.{Gives, Gives-append, IsCarried, status_fields, result_fields}
use ohagey.Client.Messages.RoundTrip.{IsCandidate, convert_response_back, status_back}
use ohagey.Client.Response.Ids.{uint32_field-IsField}
use ohagey.Client.Response.{
  Reply, ParseBody, take_status, take_body, response_field, verdict, read_response,
}

module _ (cp : CodePage) {B : Type 0} (parse_body : ParseBody B) (body_field : ℕ) where
  -- What one field of a reply does.
  unfoldable response_apply : Apply (Reply B)
  response_apply s (scalar n v) = (true, s)
  response_apply s (block n b) =
      if n == 2
      then take_status s (parse_status cp b)
      else if n == body_field
      then take_body s (parse_body b s.body)
      else (true, s)
  response_apply s (four_bytes n b) = (true, s)
  response_apply s (eight_bytes n b) = (true, s)

  response-Handles : Handles (response_field cp parse_body body_field) response_apply
  unfolding response_field response_apply
  response-Handles (scalar n v) s bs h =
      rw (and_false (n == 2), and_false (n == body_field))
        (rw (skip_field-payload (scalar n v) bs h))
  response-Handles (block n b) s bs h = elim (Bool-cases (n == 2)) [
    | inl e ↦ rw e (rw (read_message-payload b bs h.1))
    | inr e ↦ elim (Bool-cases (n == body_field)) [
      | inl d ↦ rw (e, d) (rw (read_message-payload b bs h.1))
      | inr d ↦ rw (e, d) (rw (skip_field-payload (block n b) bs h))
    ]
  ]
  response-Handles (four_bytes n b) s bs h =
      rw (and_false (n == 2), and_false (n == body_field))
        (rw (skip_field-payload (four_bytes n b) bs h))
  response-Handles (eight_bytes n b) s bs h =
      rw (and_false (n == 2), and_false (n == body_field))
        (rw (skip_field-payload (eight_bytes n b) bs h))

  -- The id is a number, and passes.
  id-Gives : (id : ℕ) (s : Reply B) → Gives response_apply (uint32_field 1 id) s s
  unfolding response_apply apply_all uint32_field
  id-Gives id s = elim (Bool-cases (id == 0)) [ inl e ↦ rw e | inr e ↦ rw e ]

  status-Gives :
      (b : Bytes) (st : Status) (s : Reply B)
      → parse_status cp b ≡ (true, st)
      → Gives response_apply (block 2 b ∷ []) s (record s { last_status = st })
  unfolding response_apply apply_all
  status-Gives b st s h = rw h

  body-Gives :
      (b : Bytes) (out : B) (s : Reply B)
      → body_field ≢ 2
      → parse_body b s.body ≡ (true, out)
      → Gives response_apply (block body_field b ∷ []) s (record s { body = out; saw_body = true })
  unfolding response_apply apply_all
  body-Gives b out s apart h =
      let e : (body_field == 2) ≡ false = ground arith in
      let d : (body_field == body_field) ≡ true = ground arith in rw e (rw d (rw h))

-- The replies of the engine to a conversion: under its id, a status, and the result where it has
-- one.
module _ (cp : CodePage) where
  abbrev body_block : Option ConvertResult → List Field
  body_block none = []
  body_block (some o) = block 3 (encode_all (result_fields cp o)) ∷ []

  abbrev pub reply_fields : ℕ → Status → Option ConvertResult → List Field
  reply_fields id st o =
      uint32_field 1 id ++ (block 2 (encode_all (status_fields cp st)) ∷ [] ++ body_block o)

  abbrev pub IsBody : Option ConvertResult → Type 0
  IsBody none = Unit {0}
  IsBody (some o) =
      All (IsCandidate cp) o.candidates × IsU64 (length (encode_all (result_fields cp o)))

  abbrev pub body_of : Option ConvertResult → ConvertResult
  body_of none = no_result
  body_of (some o) = o

  abbrev pub has_body : Option ConvertResult → Bool
  has_body none = false
  has_body (some _) = true

  body_block-IsField : (o : Option ConvertResult) → IsBody o → All IsField (body_block o)
  body_block-IsField none h = tt
  body_block-IsField (some o) h = ((omega arith, h.1), tt)

  body_block-Gives :
      (o : Option ConvertResult) (st : Status)
      → IsBody o
      → Gives
          (response_apply cp (parse_convert_response cp) 3)
          (body_block o)
          (record { last_status = st; body = no_result; saw_body = false })
          (record { last_status = st; body = body_of o; saw_body = has_body o })
  body_block-Gives none st h = unfold apply_all in refl
  body_block-Gives (some o) st h =
      body-Gives cp (parse_convert_response cp) 3 (encode_all (result_fields cp o)) o _
        (omega arith) (convert_response_back cp o h.0)

  pub record IsStatus (st : Status) : Type 0 where
    pub message-carried : IsCarried cp st.message
    pub code-fits : IsU32 st.code
    pub short : IsU64 (length (encode_all (status_fields cp st)))

  reply_fields-IsField :
      (id : ℕ) (st : Status) (o : Option ConvertResult)
      → IsU32 id
      → IsStatus st
      → IsBody o
      → All IsField (reply_fields id st o)
  reply_fields-IsField id st o hid hs ho =
      All-append IsField (uint32_field 1 id) _ (uint32_field-IsField 1 id (omega arith) hid) (
        All-append IsField (block 2 (encode_all (status_fields cp st)) ∷ []) (body_block o)
          ((omega arith, hs.short), tt) (body_block-IsField o ho))

  reply_fields-Gives :
      (id : ℕ) (st last : Status) (o : Option ConvertResult)
      → IsStatus st
      → IsBody o
      → Gives
          (response_apply cp (parse_convert_response cp) 3)
          (reply_fields id st o)
          (record { last_status = last; body = no_result; saw_body = false })
          (record { last_status = st; body = body_of o; saw_body = has_body o })
  reply_fields-Gives id st last o hs ho =
      let apply = response_apply cp (parse_convert_response cp) 3 in
      Gives-append apply (uint32_field 1 id) _ _ (id-Gives cp (parse_convert_response cp) 3 id _) (
        Gives-append apply (block 2 (encode_all (status_fields cp st)) ∷ []) (body_block o) _
          (status-Gives cp (parse_convert_response cp) 3 _ st _
            (status_back cp st hs.message-carried hs.code-fits))
          (body_block-Gives o st ho))

  -- The result of the call: a status that is not Ok, or else whether the body was there.
  abbrev pub outcome : Status → Option ConvertResult → CallResult
  outcome st o =
      if not (st.code == status_ok) then status else if not (has_body o) then bad_response else ok

  -- A reply to a conversion that is written by the schema, under any 32-bit id, with its status
  -- and with or without a result, is read as it was meant: a status other than Ok reports
  -- `Status`, an Ok with a result yields the whole result, and an Ok without one is a bad
  -- response. The status that was there before does not show through. The code page keeps the
  -- texts, the codes and scores have 32 bits, and every message is shorter than 2 ^ 64 bytes.
  pub conversion_reply :
      (id : ℕ) (st last : Status) (o : Option ConvertResult)
      → IsU32 id
      → IsStatus st
      → IsBody o
      → read_response cp
          (parse_convert_response cp)
          3
          (encode_all (reply_fields id st o))
          last
          no_result
        ≡ (outcome st o, record { last_status = st; body = body_of o; saw_body = has_body o })
  unfolding read_response verdict
  conversion_reply id st last o hid hs ho = ap verdict (
      parse-encode_all (response_field cp (parse_convert_response cp) 3)
        (response_apply cp (parse_convert_response cp) 3)
        (response-Handles cp (parse_convert_response cp) 3) (reply_fields id st o) _
        (reply_fields-IsField id st o hid hs ho)
      ∙ reply_fields-Gives id st last o hs ho)
