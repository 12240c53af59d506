-- ===== src/Client/Response.antt =====
-- `ReadResponse` and the search for the reply's id (tsf/Ohagey/OhageyEngineClient.cpp).
pub mod Ids
pub mod Answers
use ohagey.Common.{
  ℕ, suc, ◌+◌, Bool, true, false, not, ◌&&◌, Option, none, some, ◌==◌, if◌then◌else◌, length,
}
use ohagey.Wire.{Bytes, Reader, reader, WireType, read_uint32, read_message}
use ohagey.Wire.Text.{CodePage}
use ohagey.Client.Parse.{Turn, Handler, is_varint, is_block, skip, nest, parse, parse_loop}
use ohagey.Client.Messages.{Status, status_ok, parse_status, CallResult, ok, bad_response, status}

-- `_lastStatus` and `_lastStatusMessage`, the body's object `out`, and `sawBody`.
pub record Reply (B : Type 0) : Type 0 where
  pub last_status : Status
  pub body : B
  pub saw_body : Bool

-- What `parseBody` does: the object is written even where it refuses.
abbrev pub ParseBody : Type 0 → Type 0
ParseBody B = Bytes → B → Bool × B

abbrev pub take_status : {B : Type 0} → Reply B → Bool × Status → Bool × Reply B
take_status s (good, st) = (good, record s { last_status = st })

abbrev pub take_body : {B : Type 0} → Reply B → Bool × B → Bool × Reply B
take_body s (false, b) = (false, record s { body = b })
take_body s (true, b) = (true, record s { body = b; saw_body = true })

unfoldable pub response_field : {B : Type 0} → CodePage → ParseBody B → ℕ → Handler (Reply B)
response_field cp parse_body body_field field t s r =
    if field == 2 && is_block t
    then nest (read_message r) s (λ body. take_status s (parse_status cp body))
    else if field == body_field && is_block t
    then nest (read_message r) s (λ body. take_body s (parse_body body s.body))
    else skip t s r

-- After the loop: a refusal, the status, and whether the body was there.
unfoldable pub verdict : {B : Type 0} → Bool × Reply B → CallResult × Reply B
verdict (good, s) = (
  if not good
      then bad_response
      else if not (s.last_status.code == status_ok)
      then status
      else if not s.saw_body
      then bad_response
      else ok,
  s,
)

unfoldable pub read_response :
    {B : Type 0} → CodePage → ParseBody B → ℕ → Bytes → Status → B → CallResult × Reply B
read_response cp parse_body body_field reply last_status out = verdict (
    parse (response_field cp parse_body body_field)
      (record { last_status = last_status; body = out; saw_body = false }) reply)

-- The loop of `Exchange` that looks for the id: `break` leaves with the reader as it is.
abbrev pub stop {ℓ} : {A : Type ℓ} → Option A × Reader → Bool × Option A × Reader
stop (seen, r) = (false, seen, r)

unfoldable pub id_field : Handler (Option ℕ)
id_field field t seen r = if field == 1 && is_varint t then stop (read_uint32 r) else skip t seen r

-- `replyId == requestId`, where an id was seen.
abbrev pub is_ours : ℕ → Option ℕ → Bool
is_ours request_id none = false
is_ours request_id (some id) = id == request_id

-- reader.Ok() && sawId && replyId == requestId
unfoldable pub accepts : Bytes → ℕ → Bool
accepts reply request_id =
    let (_, seen, r) = parse_loop (suc (length reply)) id_field none (reader reply) in
    r.ok && is_ours request_id seen
