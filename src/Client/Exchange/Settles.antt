-- ===== src/Client/Exchange/Settles.antt =====
-- `Exchange` (tsf/Ohagey/OhageyEngineClient.cpp): every way that it ends.
use ohagey.Common.{
  ℕ, ◌≡◌, sym, ap, ◌∙◌, Bool, true, false, not, Option, none, some, [], ltb, ◌==◌, if◌then◌else◌,
  Bool-cases, Option-cases, inl, inr,
}
use ohagey.Wire.{Bytes}
use ohagey.Client.Messages.{
  CallResult, ok, not_connected, write_failed, read_failed, bad_response, status,
}
use ohagey.Client.Response.{accepts}
use ohagey.Client.Os.{Os, Client, Do, is_connected, pure}
use ohagey.Client.Launch.{connect}
use ohagey.Client.Launch.Connects.{connect-Agrees, disconnect-pipe}
use ohagey.Client.Frame.{
  frame_of, read_frame_header, frame_header_size, max_payload, write_all, read_all,
}
use ohagey.Client.Frame.Transfers.{write_all-pipe, read_all-pipe}
use ohagey.Client.Exchange.{
  drop_with, correlate, body_read, receive_body, header_read, receive, sent_all, send, exchange,
}

module _ (os : Os) (request_id : ℕ) where
  -- A success keeps the connection and has a reply under the request's id; a failure leaves no
  -- connection.
  abbrev pub Settled : (CallResult × Bytes) × Client os → Type 0
  Settled ((ok, reply), c) = (is_connected os c ≡ true) × (accepts reply request_id ≡ true)
  Settled ((not_connected, reply), c) = c.pipe ≡ none
  Settled ((write_failed, reply), c) = c.pipe ≡ none
  Settled ((read_failed, reply), c) = c.pipe ≡ none
  Settled ((bad_response, reply), c) = c.pipe ≡ none
  Settled ((status, reply), c) = ⊥

  -- From a connection on.
  abbrev FromOpen : Do os (CallResult × Bytes) → Type 0
  FromOpen m = (c : Client os) → is_connected os c ≡ true → Settled (m c)

  correlate-Settled : (reply : Bytes) → FromOpen (correlate os request_id reply)
  unfolding correlate drop_with
  correlate-Settled reply c up = elim (Bool-cases (accepts reply request_id)) [
    | inl e ↦ rw e (up, e)
    | inr e ↦ rw e (disconnect-pipe os c)
  ]

  body_read-Settled : (reply : Option Bytes) → FromOpen (body_read os request_id reply)
  unfolding drop_with
  body_read-Settled none c up = disconnect-pipe os c
  body_read-Settled (some reply) c up = correlate-Settled reply c up

  -- A transfer keeps the connection.
  still_open :
      (c c' : Client os) → c'.pipe ≡ c.pipe → is_connected os c ≡ true → is_connected os c' ≡ true
  still_open c c' e up = ap (λ (p : Option ℕ). elim p [ none ↦ false | some _ ↦ true ]) e ∙ up

  receive_body-Settled : (size : ℕ) → FromOpen (receive_body os request_id size)
  unfolding receive_body
  receive_body-Settled size c up = elim (Bool-cases (size == 0)) [
    | inl e ↦ rw e (correlate-Settled [] c up)
    | inr e ↦
        let m = read_all os size c in
        rw e (body_read-Settled m.0 m.1 (still_open c m.1 (read_all-pipe os size c) up))
  ]

  header_read-Settled : (header : Option Bytes) → FromOpen (header_read os request_id header)
  unfolding header_read drop_with
  header_read-Settled none c up = disconnect-pipe os c
  header_read-Settled (some header) c up =
      elim (Bool-cases (ltb max_payload (read_frame_header header))) [
        | inl e ↦ rw e (disconnect-pipe os c)
        | inr e ↦ rw e (receive_body-Settled (read_frame_header header) c up)
      ]

  receive-Settled : FromOpen (receive os request_id)
  unfolding receive
  receive-Settled c up =
      let m = read_all os frame_header_size c in
      header_read-Settled m.0 m.1 (still_open c m.1 (read_all-pipe os frame_header_size c) up)

  sent_all-Settled : (sent : Bool) → FromOpen (sent_all os request_id sent)
  unfolding drop_with
  sent_all-Settled true c up = receive-Settled c up
  sent_all-Settled false c up = disconnect-pipe os c

  send-Settled : (payload : Bytes) → FromOpen (send os payload request_id)
  unfolding send
  send-Settled payload c up =
      let m = write_all os (frame_of payload) c in
      sent_all-Settled m.0 m.1 (still_open c m.1 (write_all-pipe os (frame_of payload) c) up)

  no_pipe : (c : Client os) → is_connected os c ≡ false → c.pipe ≡ none
  no_pipe c h = elim (Option-cases c.pipe) [
    | inl e ↦ e
    | inr (handle, e) ↦
        let no : true ≡ false =
          sym (ap (λ (p : Option ℕ). elim p [ none ↦ false | some _ ↦ true ]) e) ∙ h in
        cc
  ]

  connected_or_not :
      (payload : Bytes) (b : Bool) (c : Client os)
      → b ≡ is_connected os c
      → Settled ((if not b then pure (not_connected, []) else send os payload request_id) c)
  connected_or_not payload true c e = send-Settled payload c (sym e)
  connected_or_not payload false c e = no_pipe c (sym e)

  -- However an exchange ends: a success keeps the connection and has a reply that carries the id of
  -- the request, and every failure leaves the client without a connection, so that the next call
  -- connects again. It never ends with `Status`.
  pub exchange-Settled :
      (payload : Bytes) (c : Client os) → Settled (exchange os payload request_id c)
  unfolding exchange
  exchange-Settled payload c =
      connected_or_not payload (connect os c).0 (connect os c).1 (connect-Agrees os c)
