-- ===== src/Client/Calls/Ends.antt =====
-- `Convert`, `Commit`, `RegisterWord` and `Ping` (tsf/Ohagey/OhageyEngineClient.cpp): every way that
-- a call ends.
use ohagey.Common.{
  ℕ, ◌+◌, ◌%◌, ◌^◌, ◌≡◌, ◌≢◌, refl, ◌∙◌, ◌⊎◌, inl, inr, Bool, true, false, none, [], ◌==◌, arith,
  Bool-cases,
}
use ohagey.Common.Text.{Text}
use ohagey.Wire.{Bytes}
use ohagey.Wire.Text.{CodePage}
use ohagey.Client.Messages.{
  CallResult, ok, not_connected, write_failed, read_failed, bad_response, status, status_ok,
  ConvertResult, PingResult, no_result, no_ping, parse_convert_response, parse_ping_response,
}
use ohagey.Client.Response.{ParseBody, Reply, verdict, read_response}
use ohagey.Client.Os.{Os, Client, is_connected}
use ohagey.Client.Exchange.{exchange}
use ohagey.Client.Exchange.Settles.{Settled, exchange-Settled}
use ohagey.Client.Exchange.Unchanged.{exchange-Keeps}
use ohagey.Client.Calls.{
  request_bytes, convert_request, commit_request, register_word_request, next_id, answer, finish,
  perform, no_body, convert, commit, register_word, ping,
}

-- What the verdict says of the status.
abbrev Judged : {B : Type 0} → CallResult × Reply B → Type 0
Judged (ok, r) = r.last_status.code ≡ status_ok
Judged (status, r) = r.last_status.code ≢ status_ok
Judged (bad_response, r) = Unit {0}
Judged (not_connected, r) = ⊥
Judged (write_failed, r) = ⊥
Judged (read_failed, r) = ⊥

verdict-Judged : {B : Type 0} (p : Bool × Reply B) → Judged (verdict p)
unfolding verdict
verdict-Judged (false, s) = tt
verdict-Judged (true, s) = elim (Bool-cases (s.last_status.code == status_ok)) [
  | inl e ↦ elim (Bool-cases s.saw_body) [ inl b ↦ rw (e, b) (ground arith) | inr b ↦ rw (e, b) tt ]
  | inr e ↦ rw e (ground arith)
]

module _ (os : Os) (cp : CodePage) where
  -- The object `out` and the last status as they were before the call.
  abbrev Untouched : {B : Type 0} → Client os → B → B → Client os → Type 0
  Untouched c out b c' = (c'.pipe ≡ none) × (b ≡ out) × (c'.last_status ≡ c.last_status)

  abbrev pub Ends : {B : Type 0} → Client os → B → (CallResult × B) × Client os → Type 0
  Ends c out ((ok, b), c') = (is_connected os c' ≡ true) × (c'.last_status.code ≡ status_ok)
  Ends c out ((status, b), c') = (is_connected os c' ≡ true) × (c'.last_status.code ≢ status_ok)
  Ends c out ((bad_response, b), c') = (is_connected os c' ≡ true) ⊎ Untouched c out b c'
  Ends c out ((not_connected, b), c') = Untouched c out b c'
  Ends c out ((write_failed, b), c') = Untouched c out b c'
  Ends c out ((read_failed, b), c') = Untouched c out b c'

  -- A call takes the next id, and ends in one of these ways.
  pub record IsCall {B : Type 0} (c : Client os) (out : B) (r : (CallResult × B) × Client os)
      : Type 0 where
    pub id : r.1.next_request_id ≡ (c.next_request_id + 1) % 2 ^ 32
    pub ends : Ends c out r

  module _ {B : Type 0} (parse_body : ParseBody B) (body_field : ℕ) (empty out : B) where
    Judged-Ends :
        (c c' : Client os) (r : CallResult × Reply B)
        → is_connected os c' ≡ true
        → Judged r
        → Ends c out ((r.0, r.1.body), record c' { last_status = r.1.last_status })
    Judged-Ends c c' (ok, r) up h = (up, h)
    Judged-Ends c c' (status, r) up h = (up, h)
    Judged-Ends c c' (bad_response, r) up h = inl up
    Judged-Ends c c' (not_connected, r) up h = elim h [ ]
    Judged-Ends c c' (write_failed, r) up h = elim h [ ]
    Judged-Ends c c' (read_failed, r) up h = elim h [ ]

    finish-Ends :
        (id : ℕ) (c : Client os) (e : (CallResult × Bytes) × Client os)
        → e.1.last_status ≡ c.last_status
        → Settled os id e
        → Ends c out (finish os cp parse_body body_field empty out e.0 e.1)
    unfolding answer read_response
    finish-Ends id c ((ok, reply), c') same (up, ours) = Judged-Ends c c' _ up (verdict-Judged _)
    finish-Ends id c ((not_connected, reply), c') same none_ = (none_, refl, same)
    finish-Ends id c ((write_failed, reply), c') same none_ = (none_, refl, same)
    finish-Ends id c ((read_failed, reply), c') same none_ = (none_, refl, same)
    finish-Ends id c ((bad_response, reply), c') same none_ = inr (none_, refl, same)
    finish-Ends id c ((status, reply), c') same none_ = elim none_ [ ]

    finish-id :
        (e : (CallResult × Bytes) × Client os)
        → (finish os cp parse_body body_field empty out e.0 e.1).1.next_request_id
          ≡ e.1.next_request_id
    unfolding answer
    finish-id ((ok, reply), c') = refl
    finish-id ((not_connected, reply), c') = refl
    finish-id ((write_failed, reply), c') = refl
    finish-id ((read_failed, reply), c') = refl
    finish-id ((bad_response, reply), c') = refl
    finish-id ((status, reply), c') = refl

    perform-IsCall :
        (request_field : ℕ) (body : Bytes) (c : Client os)
        → IsCall c out (perform os cp request_field body parse_body body_field empty out c)
    unfolding perform
    perform-IsCall request_field body c =
        let id = c.next_request_id in
        let payload = request_bytes id request_field body in
        let c1 = (next_id os cp c).1 in
        let kept = exchange-Keeps os payload id c1 in
        record {
          id = finish-id (exchange os payload id c1) ∙ kept.id;
          ends =
              finish-Ends id c (exchange os payload id c1) kept.status
                (exchange-Settled os id payload c1);
        }

  -- However one of the four calls ends, it has taken the next request id. `Ok` and `Status` leave the
  -- client connected, with a last status that is Ok or is not; a call that got no reply leaves no
  -- connection and neither touches the result nor the last status; a bad response does the same, or
  -- it keeps the connection.
  pub calls_end :
      (reading text part : Text) (n_best : ℕ) (learn : Bool) (o : ConvertResult) (p : PingResult)
      (c : Client os)
      → IsCall c o (convert os cp reading n_best text o c)
        × IsCall c tt (commit os cp reading text learn c)
        × IsCall c tt (register_word os cp reading text part c)
        × IsCall c p (ping os cp p c)
  unfolding convert commit register_word ping
  calls_end reading text part n_best learn o p c = (
    perform-IsCall (parse_convert_response cp) 3 no_result o 2
        (convert_request cp reading n_best text) c,
    perform-IsCall no_body 4 tt tt 3 (commit_request cp reading text learn) c,
    perform-IsCall no_body 5 tt tt 4 (register_word_request cp reading text part) c,
    perform-IsCall (parse_ping_response cp) 6 no_ping p 5 [] c,
  )
