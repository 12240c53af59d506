-- ===== src/Client/Exchange/Unchanged.antt =====
-- `Exchange` (tsf/Ohagey/OhageyEngineClient.cpp) leaves the next request id and the last status.
use ohagey.Common.{
  ℕ, zero, suc, ◌-◌, refl, Bool, true, false, not, Option, none, some, [], ◌∷◌, ◌++◌, ltb, ◌==◌,
  if◌then◌else◌, length, take, drop,
}
use ohagey.Wire.{Bytes}
use ohagey.Client.Messages.{CallResult, ok, not_connected, write_failed, read_failed, bad_response}
use ohagey.Client.Response.{accepts}
use ohagey.Client.Os.{Os, Do, pure, ◌>>=◌}
use ohagey.Client.Launch.{connect}
use ohagey.Client.Frame.{
  frame_of, read_frame_header, frame_header_size, max_payload, dword, write_file, read_file,
  next_write, write_loop, write_all, next_read, read_loop, read_all,
}
use ohagey.Client.Keeps.{
  same, Same-then, Keeps, bind-Keeps, if-Keeps, connect-Keeps, disconnect-Keeps,
}
use ohagey.Client.Exchange.{
  drop_with, correlate, body_read, receive_body, header_read, receive, sent_all, send, exchange,
}

module _ (os : Os) where
  next_write-Keeps :
      (written : Option ℕ) (go : ℕ → Do os Bool)
      → ((n : ℕ) → Keeps os (go n))
      → Keeps os (next_write os written go)
  next_write-Keeps none go h c = same os c
  next_write-Keeps (some n) go h c = if-Keeps os (n == 0) (pure false) (go n) (same os) (h n) c

  write_loop-Keeps : (fuel : ℕ) (bs : Bytes) → Keeps os (write_loop os fuel bs)
  unfolding write_loop
  write_loop-Keeps zero [] c = same os c
  write_loop-Keeps (suc fuel) [] c = same os c
  write_loop-Keeps zero (b ∷ bs) c = same os c
  write_loop-Keeps (suc fuel) (b ∷ bs) c =
      let m = write_file os (take (dword (length (b ∷ bs))) (b ∷ bs)) c in
      Same-then os c m.1 _ (record { id = refl; status = refl })
        (next_write-Keeps m.0 (λ n. write_loop os fuel (drop n (b ∷ bs)))
          (λ n. write_loop-Keeps fuel (drop n (b ∷ bs))) m.1)

  next_read-Keeps :
      (read : Option Bytes) (go : Bytes → Do os (Option Bytes))
      → ((bs : Bytes) → Keeps os (go bs))
      → Keeps os (next_read os read go)
  next_read-Keeps none go h c = same os c
  next_read-Keeps (some bs) go h c =
      if-Keeps os (length bs == 0) (pure none) (go bs) (same os) (h bs) c

  read_loop-Keeps : (fuel left : ℕ) (got : Bytes) → Keeps os (read_loop os fuel left got)
  unfolding read_loop
  read_loop-Keeps zero zero got c = same os c
  read_loop-Keeps (suc fuel) zero got c = same os c
  read_loop-Keeps zero (suc left) got c = same os c
  read_loop-Keeps (suc fuel) (suc left) got c =
      let m = read_file os (dword (suc left)) c in
      Same-then os c m.1 _ (record { id = refl; status = refl })
        (next_read-Keeps m.0 (λ bs. read_loop os fuel (suc left - length bs) (got ++ bs))
          (λ bs. read_loop-Keeps fuel (suc left - length bs) (got ++ bs)) m.1)

  read_all-Keeps : (size : ℕ) → Keeps os (read_all os size)
  unfolding read_all
  read_all-Keeps size = read_loop-Keeps size size []

  drop_with-Keeps : (reason : CallResult) → Keeps os (drop_with os reason)
  unfolding drop_with
  drop_with-Keeps reason c = disconnect-Keeps os c

  correlate-Keeps : (request_id : ℕ) (reply : Bytes) → Keeps os (correlate os request_id reply)
  unfolding correlate
  correlate-Keeps request_id reply =
      if-Keeps os (accepts reply request_id) (pure (ok, reply)) (drop_with os bad_response)
        (same os) (drop_with-Keeps bad_response)

  body_read-Keeps :
      (request_id : ℕ) (reply : Option Bytes) → Keeps os (body_read os request_id reply)
  body_read-Keeps request_id none c = drop_with-Keeps read_failed c
  body_read-Keeps request_id (some reply) c = correlate-Keeps request_id reply c

  receive_body-Keeps : (request_id size : ℕ) → Keeps os (receive_body os request_id size)
  unfolding receive_body
  receive_body-Keeps request_id size =
      if-Keeps os (size == 0) (correlate os request_id [])
        (read_all os size >>= body_read os request_id) (correlate-Keeps request_id [])
        (bind-Keeps os (read_all os size) (body_read os request_id) (read_all-Keeps size)
          (body_read-Keeps request_id))

  header_read-Keeps :
      (request_id : ℕ) (header : Option Bytes) → Keeps os (header_read os request_id header)
  unfolding header_read
  header_read-Keeps request_id none c = drop_with-Keeps read_failed c
  header_read-Keeps request_id (some header) c =
      if-Keeps os (ltb max_payload (read_frame_header header)) (drop_with os bad_response)
        (receive_body os request_id (read_frame_header header)) (drop_with-Keeps bad_response)
        (receive_body-Keeps request_id (read_frame_header header)) c

  sent_all-Keeps : (request_id : ℕ) (sent : Bool) → Keeps os (sent_all os request_id sent)
  unfolding receive
  sent_all-Keeps request_id false c = drop_with-Keeps write_failed c
  sent_all-Keeps request_id true c =
      bind-Keeps os (read_all os frame_header_size) (header_read os request_id)
        (read_all-Keeps frame_header_size) (header_read-Keeps request_id) c

  send-Keeps : (payload : Bytes) (request_id : ℕ) → Keeps os (send os payload request_id)
  unfolding send write_all
  send-Keeps payload request_id =
      bind-Keeps os (write_all os (frame_of payload)) (sent_all os request_id)
        (write_loop-Keeps (length (frame_of payload)) (frame_of payload))
        (sent_all-Keeps request_id)

  pub exchange-Keeps :
      (payload : Bytes) (request_id : ℕ) → Keeps os (exchange os payload request_id)
  unfolding exchange
  exchange-Keeps payload request_id =
      bind-Keeps os (connect os)
        (λ connected.
          if not connected then pure (not_connected, []) else send os payload request_id)
        (connect-Keeps os)
        (λ connected.
          if-Keeps os (not connected) (pure (not_connected, [])) (send os payload request_id)
            (same os) (send-Keeps payload request_id))
