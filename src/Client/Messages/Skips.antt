-- ===== src/Client/Messages/Skips.antt =====
-- The parsers of tsf/Ohagey/OhageyEngineClient.cpp on fields that are newer than they are: they
-- skip them.
use ohagey.Common.{◌<◌, ◌≡◌, refl, sym, ap, ◌∙◌, Bool, true, false, List, [], ◌∷◌, ◌++◌, arith, All}
use ohagey.Wire.Text.{CodePage}
use ohagey.Wire.Fields.{Field, scalar, block, four_bytes, eight_bytes, number, IsField, encode_all}
use ohagey.Client.Parse.{Handler, parse}
use ohagey.Client.Parse.Steps.{Apply, Handles, apply_all, apply_next, parse-encode_all}
use ohagey.Client.Messages.{
  Segment, Candidate, ConvertResult, PingResult, Status, parse_status, parse_segment,
  parse_candidate, parse_convert_response, parse_ping_response, status_field, segment_field,
  candidate_field, convert_field, ping_field, no_status, no_segment, no_candidate,
}
use ohagey.Client.Messages.Fields.{
  status_apply, segment_apply, candidate_apply, convert_apply, ping_apply, status-Handles,
  segment-Handles, candidate-Handles, convert-Handles, ping-Handles,
}

module _ {S : Type 0} (apply : Apply S) (x : Field)
    (ignored : (s : S) → apply s x ≡ (true, s)) where
  apply_all-skip :
      (xs ys : List Field) (s : S) → apply_all apply (xs ++ x ∷ ys) s ≡ apply_all apply (xs ++ ys) s
  unfolding apply_all
  apply_all-skip [] ys s = ap (apply_next (apply_all apply ys)) (ignored s)
  apply_all-skip (z ∷ xs) ys s = at (apply s z) (λ t. apply_all-skip xs ys t)
    where
      at :
          (turn : Bool × S)
          → ((t : S) → apply_all apply (xs ++ x ∷ ys) t ≡ apply_all apply (xs ++ ys) t)
          → apply_next (apply_all apply (xs ++ x ∷ ys)) turn
            ≡ apply_next (apply_all apply (xs ++ ys)) turn
      at (true, t) more = more t
      at (false, t) more = refl

All-drop_middle :
    (x : Field) (xs ys : List Field) → All IsField (xs ++ x ∷ ys) → All IsField (xs ++ ys)
All-drop_middle x [] ys h = h.1
All-drop_middle x (z ∷ xs) ys h = (h.0, All-drop_middle x xs ys h.1)

parse-skip :
    {S : Type 0} (h : Handler S) (apply : Apply S) (x : Field) (xs ys : List Field) (s : S)
    → Handles h apply
    → ((s : S) → apply s x ≡ (true, s))
    → All IsField (xs ++ x ∷ ys)
    → parse h s (encode_all (xs ++ x ∷ ys)) ≡ parse h s (encode_all (xs ++ ys))
parse-skip h apply x xs ys s handles ignored fields =
    parse-encode_all h apply handles (xs ++ x ∷ ys) s fields
    ∙ apply_all-skip apply x ignored xs ys s
    ∙ sym (parse-encode_all h apply handles (xs ++ ys) s (All-drop_middle x xs ys fields))

module _ (cp : CodePage) where
  -- No message has a field above 4.
  status_new : (x : Field) (s : Status) → 4 < number x → status_apply cp s x ≡ (true, s)
  unfolding status_apply
  status_new (scalar n v) s h = ground arith
  status_new (block n b) s h = ground arith
  status_new (four_bytes n b) s h = refl
  status_new (eight_bytes n b) s h = refl

  segment_new : (x : Field) (s : Segment) → 4 < number x → segment_apply cp s x ≡ (true, s)
  unfolding segment_apply
  segment_new (scalar n v) s h = ground arith
  segment_new (block n b) s h = ground arith
  segment_new (four_bytes n b) s h = refl
  segment_new (eight_bytes n b) s h = refl

  candidate_new : (x : Field) (c : Candidate) → 4 < number x → candidate_apply cp c x ≡ (true, c)
  unfolding candidate_apply
  candidate_new (scalar n v) c h = ground arith
  candidate_new (block n b) c h = ground arith
  candidate_new (four_bytes n b) c h = refl
  candidate_new (eight_bytes n b) c h = refl

  convert_new : (x : Field) (o : ConvertResult) → 4 < number x → convert_apply cp o x ≡ (true, o)
  unfolding convert_apply
  convert_new (scalar n v) o h = ground arith
  convert_new (block n b) o h = ground arith
  convert_new (four_bytes n b) o h = refl
  convert_new (eight_bytes n b) o h = refl

  ping_new : (x : Field) (o : PingResult) → 4 < number x → ping_apply cp o x ≡ (true, o)
  unfolding ping_apply
  ping_new (scalar n v) o h = ground arith
  ping_new (block n b) o h = ground arith
  ping_new (four_bytes n b) o h = refl
  ping_new (eight_bytes n b) o h = refl

  -- A field that a newer engine adds, under a number above all that this client knows, changes
  -- nothing in what any of the five parsers makes of a message, wherever it stands among fields
  -- that the format can carry.
  pub new_field_skipped :
      (x : Field) (xs ys : List Field) (o : ConvertResult) (p : PingResult)
      → 4 < number x
      → All IsField (xs ++ x ∷ ys)
      → (parse_convert_response cp (encode_all (xs ++ x ∷ ys)) o
          ≡ parse_convert_response cp (encode_all (xs ++ ys)) o)
        × (parse_ping_response cp (encode_all (xs ++ x ∷ ys)) p
            ≡ parse_ping_response cp (encode_all (xs ++ ys)) p)
        × (parse_candidate cp (encode_all (xs ++ x ∷ ys))
            ≡ parse_candidate cp (encode_all (xs ++ ys)))
        × (parse_segment cp (encode_all (xs ++ x ∷ ys)) ≡ parse_segment cp (encode_all (xs ++ ys)))
        × (parse_status cp (encode_all (xs ++ x ∷ ys)) ≡ parse_status cp (encode_all (xs ++ ys)))
  unfolding parse_convert_response parse_ping_response parse_candidate parse_segment parse_status
  new_field_skipped x xs ys o p new fields = (
    parse-skip (convert_field cp) (convert_apply cp) x xs ys o (convert-Handles cp)
        (λ s. convert_new x s new) fields,
    parse-skip (ping_field cp) (ping_apply cp) x xs ys p (ping-Handles cp) (λ s. ping_new x s new)
        fields,
    parse-skip (candidate_field cp) (candidate_apply cp) x xs ys no_candidate (candidate-Handles cp)
        (λ s. candidate_new x s new) fields,
    parse-skip (segment_field cp) (segment_apply cp) x xs ys no_segment (segment-Handles cp)
        (λ s. segment_new x s new) fields,
    parse-skip (status_field cp) (status_apply cp) x xs ys no_status (status-Handles cp)
        (λ s. status_new x s new) fields,
  )
