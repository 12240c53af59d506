-- ===== src/Client/Messages/RoundTrip.antt =====
-- Messages written with the field numbers that tsf/Ohagey/OhageyEngineClient.cpp reads, and parsed.
use ohagey.Common.{
  ◌≡◌, refl, ap, ◌∙◌, true, List, [], ◌∷◌, ◌++◌, append-nil, append_assoc, map, arith, length, All,
  All-append,
}
use ohagey.Wire.{IsU32, IsU64}
use ohagey.Wire.Text.{CodePage}
use ohagey.Wire.Fields.{IsField, encode_all, int32_field, bool_field, string_field}
use ohagey.Client.Parse.Steps.{apply_all, parse-encode_all}
use ohagey.Client.Messages.{
  Segment, Candidate, ConvertResult, PingResult, Status, no_segment, no_candidate, no_result,
  no_ping, no_status, parse_status, parse_segment, parse_candidate, parse_convert_response,
  parse_ping_response, status_field, segment_field, candidate_field, convert_field, ping_field,
}
use ohagey.Client.Messages.Fields.{
  status_apply, segment_apply, candidate_apply, convert_apply, ping_apply, status-Handles,
  segment-Handles, candidate-Handles, convert-Handles, ping-Handles,
}
use ohagey.Client.Messages.Gives.{
  Gives, Gives-append, IsCarried, segment_fields, segment_block, candidate_fields, candidate_block,
  result_fields, ping_fields, status_fields, string_field-IsField, string_field-Gives,
  int32_field-IsField, int32_field-Gives, bool_field-IsField, bool_field-Gives,
}

module _ (cp : CodePage) where
  pub record IsSegment (s : Segment) : Type 0 where
    pub text-carried : IsCarried cp s.text
    pub reading-carried : IsCarried cp s.reading
    pub short : IsU64 (length (encode_all (segment_fields cp s)))

  pub record IsCandidate (c : Candidate) : Type 0 where
    pub text-carried : IsCarried cp c.text
    pub reading-carried : IsCarried cp c.reading
    pub score-fits : IsU32 c.score
    pub segments-fine : All IsSegment c.segments
    pub short : IsU64 (length (encode_all (candidate_fields cp c)))

  segment_fields-IsField : (s : Segment) → IsSegment s → All IsField (segment_fields cp s)
  segment_fields-IsField s h =
      All-append IsField (string_field cp 1 s.text) _
        (string_field-IsField cp 1 s.text (omega arith) h.text-carried)
        (string_field-IsField cp 2 s.reading (omega arith) h.reading-carried)

  segment_fields-Gives :
      (s : Segment) → IsSegment s → Gives (segment_apply cp) (segment_fields cp s) no_segment s
  unfolding segment_apply
  segment_fields-Gives s h =
      Gives-append (segment_apply cp) (string_field cp 1 s.text) _ no_segment
        (string_field-Gives cp (segment_apply cp) 1 (λ t. record { text = t; reading = [] })
          (λ b. refl) s.text h.text-carried)
        (string_field-Gives cp (segment_apply cp) 2 (λ t. record { text = s.text; reading = t })
          (λ b. refl) s.reading h.reading-carried)

  parse_segment_back :
      (s : Segment) → IsSegment s → parse_segment cp (encode_all (segment_fields cp s)) ≡ (true, s)
  unfolding parse_segment
  parse_segment_back s h =
      parse-encode_all (segment_field cp) (segment_apply cp) (segment-Handles cp)
        (segment_fields cp s) no_segment (segment_fields-IsField s h)
      ∙ segment_fields-Gives s h

  segment_blocks-IsField :
      (ss : List Segment) → All IsSegment ss → All IsField (map (segment_block cp) ss)
  segment_blocks-IsField [] h = tt
  segment_blocks-IsField (s ∷ ss) h = ((omega arith, h.0.short), segment_blocks-IsField ss h.1)

  segment_blocks-Gives :
      (c : Candidate) (ss : List Segment)
      → All IsSegment ss
      → Gives
          (candidate_apply cp)
          (map (segment_block cp) ss)
          c
          (record c { segments = c.segments ++ ss })
  unfolding apply_all candidate_apply
  segment_blocks-Gives c [] h = rw append-nil
  segment_blocks-Gives c (s ∷ ss) h = rw (parse_segment_back s h.0) (
      segment_blocks-Gives (record c { segments = c.segments ++ s ∷ [] }) ss h.1
      ∙ ap (λ x. (true, record c { segments = x })) (append_assoc c.segments (s ∷ []) ss))

  candidate_fields-IsField : (c : Candidate) → IsCandidate c → All IsField (candidate_fields cp c)
  candidate_fields-IsField c h =
      All-append IsField (string_field cp 1 c.text ++ string_field cp 2 c.reading) _
        (All-append IsField (string_field cp 1 c.text) _
          (string_field-IsField cp 1 c.text (omega arith) h.text-carried)
          (string_field-IsField cp 2 c.reading (omega arith) h.reading-carried))
        (All-append IsField (int32_field 3 c.score) _
          (int32_field-IsField 3 c.score (omega arith) h.score-fits)
          (segment_blocks-IsField c.segments h.segments-fine))

  candidate_fields-Gives :
      (c : Candidate)
      → IsCandidate c
      → Gives (candidate_apply cp) (candidate_fields cp c) no_candidate c
  unfolding candidate_apply
  candidate_fields-Gives c h =
      let apply = candidate_apply cp in
      Gives-append apply (string_field cp 1 c.text ++ string_field cp 2 c.reading) _ no_candidate
        (Gives-append apply (string_field cp 1 c.text) _ no_candidate
          (string_field-Gives cp apply 1 (λ t. record no_candidate { text = t }) (λ b. refl) c.text
            h.text-carried)
          (string_field-Gives cp apply 2 (λ t. record no_candidate { text = c.text; reading = t })
            (λ b. refl) c.reading h.reading-carried))
        (Gives-append apply (int32_field 3 c.score) _ _
          (int32_field-Gives apply 3
            (λ v. record { text = c.text; reading = c.reading; score = v; segments = [] })
            (λ v. refl) c.score h.score-fits)
          (segment_blocks-Gives (record c { segments = [] }) c.segments h.segments-fine))

  parse_candidate_back :
      (c : Candidate)
      → IsCandidate c
      → parse_candidate cp (encode_all (candidate_fields cp c)) ≡ (true, c)
  unfolding parse_candidate
  parse_candidate_back c h =
      parse-encode_all (candidate_field cp) (candidate_apply cp) (candidate-Handles cp)
        (candidate_fields cp c) no_candidate (candidate_fields-IsField c h)
      ∙ candidate_fields-Gives c h

  candidate_blocks-IsField :
      (cs : List Candidate) → All IsCandidate cs → All IsField (map (candidate_block cp) cs)
  candidate_blocks-IsField [] h = tt
  candidate_blocks-IsField (c ∷ cs) h = ((omega arith, h.0.short), candidate_blocks-IsField cs h.1)

  candidate_blocks-Gives :
      (o : ConvertResult) (cs : List Candidate)
      → All IsCandidate cs
      → Gives
          (convert_apply cp)
          (map (candidate_block cp) cs)
          o
          (record o { candidates = o.candidates ++ cs })
  unfolding apply_all convert_apply
  candidate_blocks-Gives o [] h = rw append-nil
  candidate_blocks-Gives o (c ∷ cs) h = rw (parse_candidate_back c h.0) (
      candidate_blocks-Gives (record o { candidates = o.candidates ++ c ∷ [] }) cs h.1
      ∙ ap (λ x. (true, record o { candidates = x })) (append_assoc o.candidates (c ∷ []) cs))

  result_fields-IsField :
      (o : ConvertResult) → All IsCandidate o.candidates → All IsField (result_fields cp o)
  result_fields-IsField o h =
      All-append IsField (map (candidate_block cp) o.candidates) _
        (candidate_blocks-IsField o.candidates h) (bool_field-IsField 2 o.zenzai_used (omega arith))

  -- A whole conversion result, its candidates with their segments, that is written field by field
  -- with the numbers of the schema is parsed back as it was, as long as the code page keeps the
  -- texts, the scores have 32 bits and every message is shorter than 2 ^ 64 bytes.
  pub convert_response_back :
      (o : ConvertResult)
      → All IsCandidate o.candidates
      → parse_convert_response cp (encode_all (result_fields cp o)) no_result ≡ (true, o)
  unfolding parse_convert_response convert_apply
  convert_response_back o h =
      parse-encode_all (convert_field cp) (convert_apply cp) (convert-Handles cp)
        (result_fields cp o) no_result (result_fields-IsField o h)
      ∙ Gives-append (convert_apply cp) (map (candidate_block cp) o.candidates) _ no_result
          (candidate_blocks-Gives no_result o.candidates h)
          (bool_field-Gives (convert_apply cp) 2
            (λ v. record { candidates = o.candidates; zenzai_used = v }) refl o.zenzai_used)

  ping_back :
      (o : PingResult)
      → IsCarried cp o.engine_version
      → IsU32 o.backend
      → parse_ping_response cp (encode_all (ping_fields cp o)) no_ping ≡ (true, o)
  unfolding parse_ping_response ping_apply
  ping_back o ho hb =
      let apply = ping_apply cp in
      parse-encode_all (ping_field cp) apply (ping-Handles cp) (ping_fields cp o) no_ping (
        All-append IsField (string_field cp 1 o.engine_version) _
          (string_field-IsField cp 1 o.engine_version (omega arith) ho)
          (All-append IsField (bool_field 2 o.model_loaded) _
            (bool_field-IsField 2 o.model_loaded (omega arith))
            (int32_field-IsField 3 o.backend (omega arith) hb)))
      ∙ Gives-append apply (string_field cp 1 o.engine_version) _ no_ping
          (string_field-Gives cp apply 1 (λ t. record no_ping { engine_version = t }) (λ b. refl)
            o.engine_version ho)
          (Gives-append apply (bool_field 2 o.model_loaded) _ _
            (bool_field-Gives apply 2
              (λ v. record no_ping { engine_version = o.engine_version; model_loaded = v }) refl
              o.model_loaded)
            (int32_field-Gives apply 3 (λ v. record o { backend = v }) (λ v. refl) o.backend hb))

  pub status_back :
      (s : Status)
      → IsCarried cp s.message
      → IsU32 s.code
      → parse_status cp (encode_all (status_fields cp s)) ≡ (true, s)
  unfolding parse_status status_apply
  status_back s hs hc =
      let apply = status_apply cp in
      parse-encode_all (status_field cp) apply (status-Handles cp) (status_fields cp s) no_status (
        All-append IsField (int32_field 1 s.code) _ (int32_field-IsField 1 s.code (omega arith) hc)
          (string_field-IsField cp 2 s.message (omega arith) hs))
      ∙ Gives-append apply (int32_field 1 s.code) _ no_status
          (int32_field-Gives apply 1 (λ v. record no_status { code = v }) (λ v. refl) s.code hc)
          (string_field-Gives cp apply 2 (λ t. record s { message = t }) (λ b. refl) s.message hs)

  -- The answer to a ping and a status are parsed back as they were written, where the code page
  -- keeps their texts and their numbers have 32 bits.
  pub ping_status_back :
      (o : PingResult) (s : Status)
      → IsCarried cp o.engine_version
      → IsU32 o.backend
      → IsCarried cp s.message
      → IsU32 s.code
      → (parse_ping_response cp (encode_all (ping_fields cp o)) no_ping ≡ (true, o))
        × (parse_status cp (encode_all (status_fields cp s)) ≡ (true, s))
  ping_status_back o s ho hb hs hc = (ping_back o ho hb, status_back s hs hc)
