-- ===== src/Client/Messages/Fields.antt =====
-- What the parsers of tsf/Ohagey/OhageyEngineClient.cpp do with one field that the format carries.
use ohagey.Common.{
  ◌%◌, ◌^◌, ◌≡◌, refl, Bool, true, false, not, ◌&&◌, ◌++◌, ◌==◌, if◌then◌else◌, Bool-cases, inl,
  inr,
}
use ohagey.Wire.{Bytes, reader}
use ohagey.Wire.Text.{CodePage, from_utf8}
use ohagey.Wire.Fields.{Field, scalar, block, four_bytes, eight_bytes, IsField, payload, type_of}
use ohagey.Wire.Values.{
  read_int32-payload, read_bool-payload, read_message-payload, read_string-payload,
  skip_field-payload,
}
use ohagey.Client.Parse.{skip}
use ohagey.Client.Parse.Steps.{Apply, Handles}
use ohagey.Client.Messages.{
  Segment, Candidate, ConvertResult, PingResult, Status, status_field, segment_field, parse_segment,
  push_segment, candidate_field, parse_candidate, push_candidate, convert_field, ping_field,
}

pub and_false : (b : Bool) → (b && false) ≡ false
and_false true = refl
and_false false = refl

skip-payload :
    {S : Type 0} (x : Field) (s : S) (bs : Bytes)
    → IsField x
    → skip (type_of x) s (reader (payload x ++ bs)) ≡ (true, s, reader bs)
skip-payload x s bs h = rw (skip_field-payload x bs h)

module _ (cp : CodePage) where
  -- The value that a field gives, and the rest of the object as it was.
  unfoldable pub status_apply : Apply Status
  status_apply s (scalar n v) = (true, if n == 1 then record s { code = v % 2 ^ 32 } else s)
  status_apply s (block n b) = (true, if n == 2 then record s { message = from_utf8 cp b } else s)
  status_apply s (four_bytes n b) = (true, s)
  status_apply s (eight_bytes n b) = (true, s)

  unfoldable pub segment_apply : Apply Segment
  segment_apply s (scalar n v) = (true, s)
  segment_apply s (block n b) = (
    true,
    if n == 1
        then record s { text = from_utf8 cp b }
        else if n == 2
        then record s { reading = from_utf8 cp b }
        else s,
  )
  segment_apply s (four_bytes n b) = (true, s)
  segment_apply s (eight_bytes n b) = (true, s)

  unfoldable pub candidate_apply : Apply Candidate
  candidate_apply c (scalar n v) = (true, if n == 3 then record c { score = v % 2 ^ 32 } else c)
  candidate_apply c (block n b) =
      if n == 1
      then (true, record c { text = from_utf8 cp b })
      else if n == 2
      then (true, record c { reading = from_utf8 cp b })
      else if n == 4
      then push_segment cp c (parse_segment cp b)
      else (true, c)
  candidate_apply c (four_bytes n b) = (true, c)
  candidate_apply c (eight_bytes n b) = (true, c)

  unfoldable pub convert_apply : Apply ConvertResult
  convert_apply o (scalar n v) =
      (true, if n == 2 then record o { zenzai_used = not (v == 0) } else o)
  convert_apply o (block n b) =
      if n == 1 then push_candidate cp o (parse_candidate cp b) else (true, o)
  convert_apply o (four_bytes n b) = (true, o)
  convert_apply o (eight_bytes n b) = (true, o)

  unfoldable pub ping_apply : Apply PingResult
  ping_apply o (scalar n v) = (
    true,
    if n == 2
        then record o { model_loaded = not (v == 0) }
        else if n == 3
        then record o { backend = v % 2 ^ 32 }
        else o,
  )
  ping_apply o (block n b) =
      (true, if n == 1 then record o { engine_version = from_utf8 cp b } else o)
  ping_apply o (four_bytes n b) = (true, o)
  ping_apply o (eight_bytes n b) = (true, o)

  pub status-Handles : Handles (status_field cp) status_apply
  unfolding status_field status_apply
  status-Handles (scalar n v) s bs h = elim (Bool-cases (n == 1)) [
    | inl e ↦ rw e (rw (read_int32-payload v bs h.1))
    | inr e ↦ rw (e, and_false (n == 2)) (skip-payload (scalar n v) s bs h)
  ]
  status-Handles (block n b) s bs h = elim (Bool-cases (n == 2)) [
    | inl e ↦ rw (e, and_false (n == 1)) (rw (read_string-payload cp b bs h.1))
    | inr e ↦ rw (e, and_false (n == 1)) (skip-payload (block n b) s bs h)
  ]
  status-Handles (four_bytes n b) s bs h =
      rw (and_false (n == 1), and_false (n == 2)) (skip-payload (four_bytes n b) s bs h)
  status-Handles (eight_bytes n b) s bs h =
      rw (and_false (n == 1), and_false (n == 2)) (skip-payload (eight_bytes n b) s bs h)

  pub segment-Handles : Handles (segment_field cp) segment_apply
  unfolding segment_field segment_apply
  segment-Handles (scalar n v) s bs h =
      rw (and_false (n == 1), and_false (n == 2)) (skip-payload (scalar n v) s bs h)
  segment-Handles (block n b) s bs h = elim (Bool-cases (n == 1)) [
    | inl e ↦ rw e (rw (read_string-payload cp b bs h.1))
    | inr e ↦ elim (Bool-cases (n == 2)) [
      | inl d ↦ rw (e, d) (rw (read_string-payload cp b bs h.1))
      | inr d ↦ rw (e, d) (skip-payload (block n b) s bs h)
    ]
  ]
  segment-Handles (four_bytes n b) s bs h =
      rw (and_false (n == 1), and_false (n == 2)) (skip-payload (four_bytes n b) s bs h)
  segment-Handles (eight_bytes n b) s bs h =
      rw (and_false (n == 1), and_false (n == 2)) (skip-payload (eight_bytes n b) s bs h)

  pub candidate-Handles : Handles (candidate_field cp) candidate_apply
  unfolding candidate_field candidate_apply
  candidate-Handles (scalar n v) c bs h = elim (Bool-cases (n == 3)) [
    | inl e ↦ rw (and_false (n == 1), and_false (n == 2)) (rw e (rw (read_int32-payload v bs h.1)))
    | inr e ↦
        rw (and_false (n == 1), and_false (n == 2), and_false (n == 4))
          (rw e (skip-payload (scalar n v) c bs h))
  ]
  candidate-Handles (block n b) c bs h = elim (Bool-cases (n == 1)) [
    | inl e ↦ rw e (rw (read_string-payload cp b bs h.1))
    | inr e ↦ elim (Bool-cases (n == 2)) [
      | inl d ↦ rw (e, d) (rw (read_string-payload cp b bs h.1))
      | inr d ↦ elim (Bool-cases (n == 4)) [
        | inl k ↦ rw (e, d, and_false (n == 3), k) (rw (read_message-payload b bs h.1))
        | inr k ↦ rw (e, d, and_false (n == 3), k) (skip-payload (block n b) c bs h)
      ]
    ]
  ]
  candidate-Handles (four_bytes n b) c bs h =
      rw (and_false (n == 1), and_false (n == 2), and_false (n == 3), and_false (n == 4))
        (skip-payload (four_bytes n b) c bs h)
  candidate-Handles (eight_bytes n b) c bs h =
      rw (and_false (n == 1), and_false (n == 2), and_false (n == 3), and_false (n == 4))
        (skip-payload (eight_bytes n b) c bs h)

  pub convert-Handles : Handles (convert_field cp) convert_apply
  unfolding convert_field convert_apply
  convert-Handles (scalar n v) o bs h = elim (Bool-cases (n == 2)) [
    | inl e ↦ rw (and_false (n == 1), e) (rw (read_bool-payload v bs h.1))
    | inr e ↦ rw (and_false (n == 1), e) (skip-payload (scalar n v) o bs h)
  ]
  convert-Handles (block n b) o bs h = elim (Bool-cases (n == 1)) [
    | inl e ↦ rw e (rw (read_message-payload b bs h.1))
    | inr e ↦ rw (e, and_false (n == 2)) (skip-payload (block n b) o bs h)
  ]
  convert-Handles (four_bytes n b) o bs h =
      rw (and_false (n == 1), and_false (n == 2)) (skip-payload (four_bytes n b) o bs h)
  convert-Handles (eight_bytes n b) o bs h =
      rw (and_false (n == 1), and_false (n == 2)) (skip-payload (eight_bytes n b) o bs h)

  pub ping-Handles : Handles (ping_field cp) ping_apply
  unfolding ping_field ping_apply
  ping-Handles (scalar n v) o bs h = elim (Bool-cases (n == 2)) [
    | inl e ↦ rw (and_false (n == 1), e) (rw (read_bool-payload v bs h.1))
    | inr e ↦ elim (Bool-cases (n == 3)) [
      | inl d ↦ rw (and_false (n == 1), e, d) (rw (read_int32-payload v bs h.1))
      | inr d ↦ rw (and_false (n == 1), e, d) (skip-payload (scalar n v) o bs h)
    ]
  ]
  ping-Handles (block n b) o bs h = elim (Bool-cases (n == 1)) [
    | inl e ↦ rw e (rw (read_string-payload cp b bs h.1))
    | inr e ↦ rw (e, and_false (n == 2), and_false (n == 3)) (skip-payload (block n b) o bs h)
  ]
  ping-Handles (four_bytes n b) o bs h =
      rw (and_false (n == 1), and_false (n == 2), and_false (n == 3))
        (skip-payload (four_bytes n b) o bs h)
  ping-Handles (eight_bytes n b) o bs h =
      rw (and_false (n == 1), and_false (n == 2), and_false (n == 3))
        (skip-payload (eight_bytes n b) o bs h)
