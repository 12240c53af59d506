-- ===== src/Client/Tests.antt =====
-- The theorems on messages and replies at concrete inputs.
use ohagey.Common.{◌≡◌, refl, true, false, not, ◌&&◌, some, List, [], ◌∷◌, ◌++◌, ◌==◌, arith}
use ohagey.Common.Text.{wide}
use ohagey.Wire.{wire_code, sign_extend}
use ohagey.Wire.Text.{CodePage, to_utf8, from_utf8}
use ohagey.Wire.Varint.{groups}
use ohagey.Wire.Fields.{
  Field, scalar, block, eight_bytes, encode_all, string_field, int32_field, uint32_field,
  bool_field,
}
use ohagey.Client.Messages.{
  Segment, Candidate, ConvertResult, Status, no_result, no_ping, no_status, parse_convert_response,
  parse_ping_response, parse_candidate, parse_segment, parse_status, PingResult,
}
use ohagey.Client.Messages.Gives.{IsCarried, result_fields, ping_fields, status_fields}
use ohagey.Client.Messages.RoundTrip.{
  IsSegment, IsCandidate, convert_response_back, ping_status_back,
}
use ohagey.Client.Messages.Skips.{new_field_skipped}
use ohagey.Client.Response.{read_response, accepts}
use ohagey.Client.Response.Ids.{accepts_reply}
use ohagey.Client.Response.Answers.{
  IsStatus, IsBody, reply_fields, outcome, body_of, has_body, conversion_reply,
}

abbrev latin : CodePage
latin = record { wide_char_to_multi_byte = λ s. some s; multi_byte_to_wide_char = λ s. some s }

abbrev a_segment : Segment
a_segment = record { text = wide "ab"; reading = wide "c" }

abbrev a_candidate : Candidate
a_candidate = record { text = wide "ab"; reading = wide "c"; score = 7; segments = a_segment ∷ [] }

abbrev a_result : ConvertResult
a_result = record { candidates = a_candidate ∷ []; zenzai_used = true }

ab-IsCarried : IsCarried latin (wide "ab")
unfolding to_utf8 from_utf8
ab-IsCarried = record { back = refl; short = omega arith }

c-IsCarried : IsCarried latin (wide "c")
unfolding to_utf8 from_utf8
c-IsCarried = record { back = refl; short = omega arith }

a_segment-IsSegment : IsSegment latin a_segment
unfolding to_utf8 string_field groups wire_code
a_segment-IsSegment = record {
  text-carried = ab-IsCarried;
  reading-carried = c-IsCarried;
  short = omega arith;
}

a_candidate-IsCandidate : IsCandidate latin a_candidate
unfolding to_utf8 string_field int32_field groups wire_code sign_extend
a_candidate-IsCandidate = record {
  text-carried = ab-IsCarried;
  reading-carried = c-IsCarried;
  score-fits = omega arith;
  segments-fine = (a_segment-IsSegment, tt);
  short = omega arith;
}

convert_response_back_example :
    parse_convert_response latin (encode_all (result_fields latin a_result)) no_result
    ≡ (true, a_result)
convert_response_back_example = convert_response_back latin a_result (a_candidate-IsCandidate, tt)

abbrev a_status : Status
a_status = record { code = 3; message = wide "c" }

abbrev a_ping : PingResult
a_ping = record { engine_version = wide "ab"; model_loaded = true; backend = 2 }

ping_status_back_example :
    (parse_ping_response latin (encode_all (ping_fields latin a_ping)) no_ping ≡ (true, a_ping))
    × (parse_status latin (encode_all (status_fields latin a_status)) ≡ (true, a_status))
ping_status_back_example =
    ping_status_back latin a_ping a_status ab-IsCarried (omega arith) c-IsCarried (omega arith)

abbrev old_fields : List Field
old_fields = scalar 2 1 ∷ []

abbrev new_field : Field
new_field = eight_bytes 9 (1 ∷ 2 ∷ 3 ∷ 4 ∷ 5 ∷ 6 ∷ 7 ∷ 8 ∷ [])

new_field_skipped_example :
    (parse_convert_response latin (encode_all (old_fields ++ new_field ∷ [])) no_result
      ≡ parse_convert_response latin (encode_all (old_fields ++ [])) no_result)
    × (parse_ping_response latin (encode_all (old_fields ++ new_field ∷ [])) no_ping
        ≡ parse_ping_response latin (encode_all (old_fields ++ [])) no_ping)
    × (parse_candidate latin (encode_all (old_fields ++ new_field ∷ []))
        ≡ parse_candidate latin (encode_all (old_fields ++ [])))
    × (parse_segment latin (encode_all (old_fields ++ new_field ∷ []))
        ≡ parse_segment latin (encode_all (old_fields ++ [])))
    × (parse_status latin (encode_all (old_fields ++ new_field ∷ []))
        ≡ parse_status latin (encode_all (old_fields ++ [])))
new_field_skipped_example =
    new_field_skipped latin new_field old_fields [] no_result no_ping (omega arith)
      ((omega arith, omega arith), ((omega arith, refl), tt))

accepts_reply_example :
    (accepts (encode_all (uint32_field 1 5 ++ block 2 [] ∷ [])) 5 ≡ (not (5 == 0) && 5 == 5))
    × (accepts (encode_all (uint32_field 1 0 ++ block 2 [] ∷ [])) 0 ≡ false)
accepts_reply_example =
    accepts_reply 5 5 (block 2 [] ∷ []) (omega arith) refl ((omega arith, omega arith), tt)

a_status-IsStatus : IsStatus latin a_status
unfolding to_utf8 string_field int32_field groups wire_code sign_extend
a_status-IsStatus = record {
  message-carried = c-IsCarried;
  code-fits = omega arith;
  short = omega arith;
}

a_result-IsBody : IsBody latin (some a_result)
unfolding to_utf8 string_field int32_field bool_field groups wire_code sign_extend
a_result-IsBody = ((a_candidate-IsCandidate, tt), omega arith)

conversion_reply_example :
    read_response latin
      (parse_convert_response latin)
      3
      (encode_all (reply_fields latin 5 a_status (some a_result)))
      no_status
      no_result
    ≡ (
      outcome latin a_status (some a_result),
      record {
        last_status = a_status;
        body = body_of latin (some a_result);
        saw_body = has_body latin (some a_result);
      },
    )
conversion_reply_example =
    conversion_reply latin 5 a_status no_status (some a_result) (omega arith) a_status-IsStatus
      a_result-IsBody
