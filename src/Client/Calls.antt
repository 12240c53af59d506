-- ===== src/Client/Calls.antt =====
-- `Convert`, `Commit`, `RegisterWord` and `Ping` (tsf/Ohagey/OhageyEngineClient.cpp).
pub mod Ends
pub mod Requests
use ohagey.Common.{ℕ, ◌+◌, ◌%◌, ◌^◌, Bool, true, false, Option, none, some, [], ◌∷◌}
use ohagey.Common.Text.{Text}
use ohagey.Wire.{Bytes, write_uint32, write_bool, write_message}
use ohagey.Wire.Text.{CodePage, write_string}
use ohagey.Client.Messages.{
  CallResult, ok, ConvertResult, PingResult, no_result, no_ping, parse_convert_response,
  parse_ping_response,
}
use ohagey.Client.Response.{ParseBody, Reply, read_response}
use ohagey.Client.Os.{Os, Client, Do, pure, ◌>>=◌, ◌>>◌}
use ohagey.Client.Exchange.{exchange}

-- The bytes of a request under its id; `field` is the oneof case.
unfoldable pub request_bytes : ℕ → ℕ → Bytes → Bytes
request_bytes request_id field body = write_message (write_uint32 [] 1 request_id) field body

module _ (cp : CodePage) where
  unfoldable pub convert_context : Bytes → Text → Bytes
  convert_context convert [] = convert
  convert_context convert (c ∷ cs) = write_message convert 3 (write_string cp [] 1 (c ∷ cs))

  unfoldable pub convert_request : Text → ℕ → Text → Bytes
  convert_request reading n_best preceding_text =
      convert_context (write_uint32 (write_string cp [] 1 reading) 2 n_best) preceding_text

  unfoldable pub commit_request : Text → Text → Bool → Bytes
  commit_request reading text update_learning =
      write_bool (write_string cp (write_string cp [] 1 reading) 2 text) 3 update_learning

  unfoldable pub register_word_request : Text → Text → Text → Bytes
  register_word_request reading surface part_of_speech =
      write_string cp (write_string cp (write_string cp [] 1 reading) 2 surface) 3 part_of_speech

-- The body of a reply that has no fields.
abbrev pub no_body : ParseBody (Unit {0})
no_body bytes u = (true, u)

module _ (os : Os) (cp : CodePage) where
  -- _nextRequestId++
  abbrev pub next_id : Do os ℕ
  next_id c = (c.next_request_id, record c { next_request_id = (c.next_request_id + 1) % 2 ^ 32 })

  -- What a call does with a reply: `empty` is the object that `out` is reset to.
  unfoldable pub answer : {B : Type 0} → ParseBody B → ℕ → B → Bytes → Do os (CallResult × B)
  answer parse_body body_field empty reply c =
      let (result, r) = read_response cp parse_body body_field reply c.last_status empty in
      ((result, r.body), record c { last_status = r.last_status })

  abbrev pub finish :
      {B : Type 0} → ParseBody B → ℕ → B → B → CallResult × Bytes → Do os (CallResult × B)
  finish parse_body body_field empty out (ok, reply) = answer parse_body body_field empty reply
  finish parse_body body_field empty out (failed, reply) = pure (failed, out)

  -- What the four calls share: `out` is kept where the exchange fails.
  unfoldable pub perform :
      {B : Type 0} → ℕ → Bytes → ParseBody B → ℕ → B → B → Do os (CallResult × B)
  perform request_field body parse_body body_field empty out = do
    id ← next_id
    exchanged ← exchange os (request_bytes id request_field body) id
    finish parse_body body_field empty out exchanged

  unfoldable pub convert : Text → ℕ → Text → ConvertResult → Do os (CallResult × ConvertResult)
  convert reading n_best preceding_text out =
      perform 2 (convert_request cp reading n_best preceding_text) (parse_convert_response cp) 3
        no_result out

  unfoldable pub commit : Text → Text → Bool → Do os (CallResult × Unit {0})
  commit reading text update_learning =
      perform 3 (commit_request cp reading text update_learning) no_body 4 tt tt

  unfoldable pub register_word : Text → Text → Text → Do os (CallResult × Unit {0})
  register_word reading surface part_of_speech =
      perform 4 (register_word_request cp reading surface part_of_speech) no_body 5 tt tt

  unfoldable pub ping : PingResult → Do os (CallResult × PingResult)
  ping out = perform 5 [] (parse_ping_response cp) 6 no_ping out
