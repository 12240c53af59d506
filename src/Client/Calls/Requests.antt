-- ===== src/Client/Calls/Requests.antt =====
-- The bytes of the requests (tsf/Ohagey/OhageyEngineClient.cpp), as fields of the schema.
use ohagey.Common.{
  ℕ, ◌≡◌, refl, sym, ap, ◌∙◌, Bool, List, [], ◌∷◌, ◌++◌, append-nil, append_assoc, arith, length,
}
use ohagey.Common.Text.{Text}
use ohagey.Wire.{Bytes, IsU32, IsU64, write_uint32, write_bool, write_message}
use ohagey.Wire.Text.{CodePage, to_utf8, write_string}
use ohagey.Wire.Fields.{
  Field, block, IsNumber, encode, encode_all, uint32_field, bool_field, string_field,
  write_uint32_lem, write_bool_lem, write_message_lem, write_string_lem,
}
use ohagey.Client.Calls.{
  request_bytes, convert_context, convert_request, commit_request, register_word_request,
}

encode_all-append : (xs ys : List Field) → encode_all (xs ++ ys) ≡ encode_all xs ++ encode_all ys
encode_all-append [] ys = refl
encode_all-append (x ∷ xs) ys =
    ap (λ t. encode x ++ t) (encode_all-append xs ys)
    ∙ sym (append_assoc (encode x) (encode_all xs) (encode_all ys))

-- A writer that appends fields to a buffer of fields.
more_fields :
    (xs ys : List Field) (written : Bytes)
    → written ≡ encode_all xs ++ encode_all ys
    → written ≡ encode_all (xs ++ ys)
more_fields xs ys written e = e ∙ sym (encode_all-append xs ys)

module _ (cp : CodePage) where
  -- A text short enough for a length on the wire.
  abbrev IsShort : Text → Type 0
  IsShort s = IsU64 (length (to_utf8 cp s))

  abbrev context_fields : Text → List Field
  context_fields [] = []
  context_fields (c ∷ cs) = block 3 (encode_all (string_field cp 1 (c ∷ cs))) ∷ []

  abbrev pub convert_fields : Text → ℕ → Text → List Field
  convert_fields reading n_best preceding =
      (string_field cp 1 reading ++ uint32_field 2 n_best) ++ context_fields preceding

  convert_context_lem :
      (xs : List Field) (s : Text)
      → IsShort s
      → IsU64 (length (encode_all (string_field cp 1 s)))
      → convert_context cp (encode_all xs) s ≡ encode_all (xs ++ context_fields s)
  unfolding convert_context
  convert_context_lem xs [] h k = ap encode_all (sym (append-nil xs))
  convert_context_lem xs (c ∷ cs) h k = more_fields xs (context_fields (c ∷ cs)) _ (
      ap (write_message (encode_all xs) 3) (write_string_lem cp [] 1 (c ∷ cs) (omega arith) h)
      ∙ write_message_lem (encode_all xs) 3 (encode_all (string_field cp 1 (c ∷ cs))) (omega arith)
          k)

  two_texts :
      (a b : Text)
      → IsShort a
      → IsShort b
      → write_string cp (write_string cp [] 1 a) 2 b
        ≡ encode_all (string_field cp 1 a ++ string_field cp 2 b)
  two_texts a b ha hb = more_fields (string_field cp 1 a) (string_field cp 2 b) _ (
      ap (λ t. write_string cp t 2 b) (write_string_lem cp [] 1 a (omega arith) ha)
      ∙ write_string_lem cp (encode_all (string_field cp 1 a)) 2 b (omega arith) hb)

  -- A conversion request is its reading, its number of candidates and its context, each under its
  -- number in the schema and left out where it is empty or 0; a commit and a new word likewise.
  -- The request around it is the id, left out where it is 0, and the body, which is there even
  -- when it is empty. The id and the number have 32 bits, the field number is legal, and texts and
  -- bodies are shorter than 2 ^ 64 bytes.
  pub requests_lem :
      (id n_best field : ℕ) (a b d : Text) (learn : Bool) (body : Bytes)
      → IsU32 id
      → IsU32 n_best
      → IsNumber field
      → IsShort a
      → IsShort b
      → IsShort d
      → IsU64 (length (encode_all (string_field cp 1 b)))
      → IsU64 (length body)
      → (convert_request cp a n_best b ≡ encode_all (convert_fields a n_best b))
        × (commit_request cp a b learn
            ≡ encode_all ((string_field cp 1 a ++ string_field cp 2 b) ++ bool_field 3 learn))
        × (register_word_request cp a b d
            ≡ encode_all ((string_field cp 1 a ++ string_field cp 2 b) ++ string_field cp 3 d))
        × (request_bytes id field body ≡ encode_all (uint32_field 1 id ++ block field body ∷ []))
  unfolding convert_request commit_request register_word_request request_bytes
  requests_lem id n_best field a b d learn body hid hn hf ha hb hd hc hbody =
      let pair = string_field cp 1 a ++ string_field cp 2 b in
      (
        ap (λ t. convert_context cp t b)
              (more_fields (string_field cp 1 a) (uint32_field 2 n_best) _ (
                ap (λ t. write_uint32 t 2 n_best) (write_string_lem cp [] 1 a (omega arith) ha)
                ∙ write_uint32_lem (encode_all (string_field cp 1 a)) 2 n_best (omega arith) hn))
            ∙ convert_context_lem (string_field cp 1 a ++ uint32_field 2 n_best) b hb hc,
        more_fields pair (bool_field 3 learn) _ (
            ap (λ t. write_bool t 3 learn) (two_texts a b ha hb)
            ∙ write_bool_lem (encode_all pair) 3 learn (omega arith)),
        more_fields pair (string_field cp 3 d) _ (
            ap (λ t. write_string cp t 3 d) (two_texts a b ha hb)
            ∙ write_string_lem cp (encode_all pair) 3 d (omega arith) hd),
        more_fields (uint32_field 1 id) (block field body ∷ []) _ (
            ap (λ t. write_message t field body) (write_uint32_lem [] 1 id (omega arith) hid)
            ∙ write_message_lem (encode_all (uint32_field 1 id)) field body hf hbody),
      )
