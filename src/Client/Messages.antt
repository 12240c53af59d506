-- ===== src/Client/Messages.antt =====
-- The messages of tsf/Ohagey/OhageyProtocol.h, and the parsers and requests of
-- tsf/Ohagey/OhageyEngineClient.cpp.
pub mod Fields
pub mod Gives
pub mod RoundTrip
pub mod Skips
use ohagey.Common.{ℕ, Bool, true, false, ◌&&◌, List, [], ◌∷◌, ◌++◌, ◌==◌, if◌then◌else◌}
use ohagey.Common.Text.{Text}
use ohagey.Wire.{Bytes, read_int32, read_bool, read_message}
use ohagey.Wire.Text.{CodePage, read_string}
use ohagey.Client.Parse.{Handler, is_varint, is_block, store, skip, nest, parse}

-- A `StatusCode` and a `Backend` are cast from any `int32_t`.
abbrev pub status_ok : ℕ
status_ok = 0

pub record Segment : Type 0 where
  pub text : Text
  pub reading : Text

pub record Candidate : Type 0 where
  pub text : Text
  pub reading : Text
  pub score : ℕ
  pub segments : List Segment

pub record ConvertResult : Type 0 where
  pub candidates : List Candidate
  pub zenzai_used : Bool

pub record PingResult : Type 0 where
  pub engine_version : Text
  pub model_loaded : Bool
  pub backend : ℕ

pub record Status : Type 0 where
  pub code : ℕ
  pub message : Text

abbrev pub no_segment : Segment
no_segment = record { text = []; reading = [] }

abbrev pub no_candidate : Candidate
no_candidate = record { text = []; reading = []; score = 0; segments = [] }

abbrev pub no_result : ConvertResult
no_result = record { candidates = []; zenzai_used = false }

abbrev pub no_ping : PingResult
no_ping = record { engine_version = []; model_loaded = false; backend = 0 }

abbrev pub no_status : Status
no_status = record { code = status_ok; message = [] }

pub data CallResult : Type 0 where
  ok not_connected write_failed read_failed bad_response status : CallResult

module _ (cp : CodePage) where
  unfoldable pub status_field : Handler Status
  status_field field t s r =
      if field == 1 && is_varint t
      then store (read_int32 r) s (λ raw. record s { code = raw })
      else if field == 2 && is_block t
      then store (read_string cp r) s (λ m. record s { message = m })
      else skip t s r

  -- `*code = Ok` and `message->clear()` come first.
  unfoldable pub parse_status : Bytes → Bool × Status
  parse_status = parse status_field no_status

  unfoldable pub segment_field : Handler Segment
  segment_field field t s r =
      if field == 1 && is_block t
      then store (read_string cp r) s (λ v. record s { text = v })
      else if field == 2 && is_block t
      then store (read_string cp r) s (λ v. record s { reading = v })
      else skip t s r

  unfoldable pub parse_segment : Bytes → Bool × Segment
  parse_segment = parse segment_field no_segment

  abbrev push_segment : Candidate → Bool × Segment → Bool × Candidate
  push_segment c (false, x) = (false, c)
  push_segment c (true, x) = (true, record c { segments = c.segments ++ x ∷ [] })

  unfoldable pub candidate_field : Handler Candidate
  candidate_field field t c r =
      if field == 1 && is_block t
      then store (read_string cp r) c (λ v. record c { text = v })
      else if field == 2 && is_block t
      then store (read_string cp r) c (λ v. record c { reading = v })
      else if field == 3 && is_varint t
      then store (read_int32 r) c (λ v. record c { score = v })
      else if field == 4 && is_block t
      then nest (read_message r) c (λ body. push_segment c (parse_segment body))
      else skip t c r

  unfoldable pub parse_candidate : Bytes → Bool × Candidate
  parse_candidate = parse candidate_field no_candidate

  abbrev push_candidate : ConvertResult → Bool × Candidate → Bool × ConvertResult
  push_candidate o (false, x) = (false, o)
  push_candidate o (true, x) = (true, record o { candidates = o.candidates ++ x ∷ [] })

  unfoldable pub convert_field : Handler ConvertResult
  convert_field field t o r =
      if field == 1 && is_block t
      then nest (read_message r) o (λ body. push_candidate o (parse_candidate body))
      else if field == 2 && is_varint t
      then store (read_bool r) o (λ v. record o { zenzai_used = v })
      else skip t o r

  unfoldable pub parse_convert_response : Bytes → ConvertResult → Bool × ConvertResult
  parse_convert_response body out = parse convert_field out body

  unfoldable pub ping_field : Handler PingResult
  ping_field field t o r =
      if field == 1 && is_block t
      then store (read_string cp r) o (λ v. record o { engine_version = v })
      else if field == 2 && is_varint t
      then store (read_bool r) o (λ v. record o { model_loaded = v })
      else if field == 3 && is_varint t
      then store (read_int32 r) o (λ raw. record o { backend = raw })
      else skip t o r

  unfoldable pub parse_ping_response : Bytes → PingResult → Bool × PingResult
  parse_ping_response body out = parse ping_field out body
