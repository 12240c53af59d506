-- ===== src/Client/Exchange.antt =====
-- `EngineClient::Exchange` (tsf/Ohagey/OhageyEngineClient.cpp): one request and its reply.
pub mod Settles
pub mod Unchanged
use ohagey.Common.{ℕ, Bool, true, false, not, Option, none, some, [], ltb, if◌then◌else◌, ◌==◌}
use ohagey.Wire.{Bytes}
use ohagey.Client.Messages.{CallResult, ok, not_connected, write_failed, read_failed, bad_response}
use ohagey.Client.Response.{accepts}
use ohagey.Client.Os.{Os, Client, Do, call, effect, pure, ◌>>=◌, ◌>>◌}
use ohagey.Client.Launch.{connect, disconnect}
use ohagey.Client.Frame.{
  frame_of, read_frame_header, frame_header_size, max_payload, write_all, read_all,
}

module _ (os : Os) where
  -- Disconnect(); return CallResult::...;
  unfoldable pub drop_with : CallResult → Do os (CallResult × Bytes)
  drop_with reason = do disconnect os; pure (reason, [])

  -- The id of the reply decides.
  unfoldable pub correlate : ℕ → Bytes → Do os (CallResult × Bytes)
  correlate request_id reply =
      if accepts reply request_id then pure (ok, reply) else drop_with bad_response

  abbrev pub body_read : ℕ → Option Bytes → Do os (CallResult × Bytes)
  body_read request_id none = drop_with read_failed
  body_read request_id (some reply) = correlate request_id reply

  -- `ReadAll` is not called for an empty body.
  unfoldable pub receive_body : ℕ → ℕ → Do os (CallResult × Bytes)
  receive_body request_id size =
      if size == 0
      then correlate request_id []
      else do reply ← read_all os size; body_read request_id reply

  unfoldable pub header_read : ℕ → Option Bytes → Do os (CallResult × Bytes)
  header_read request_id none = drop_with read_failed
  header_read request_id (some header) =
      if ltb max_payload (read_frame_header header)
      then drop_with bad_response
      else receive_body request_id (read_frame_header header)

  unfoldable pub receive : ℕ → Do os (CallResult × Bytes)
  receive request_id = do header ← read_all os frame_header_size; header_read request_id header

  abbrev pub sent_all : ℕ → Bool → Do os (CallResult × Bytes)
  sent_all request_id sent = if not sent then drop_with write_failed else receive request_id

  unfoldable pub send : Bytes → ℕ → Do os (CallResult × Bytes)
  send payload request_id = do sent ← write_all os (frame_of payload); sent_all request_id sent

  -- The reply counts only with `ok`.
  unfoldable pub exchange : Bytes → ℕ → Do os (CallResult × Bytes)
  exchange payload request_id = do
    connected ← connect os
    if not connected then pure (not_connected, []) else send payload request_id
