-- ===== src/Composer/Candidates.antt =====
-- `GetCandidateListFromEngine` (tsf/SampleIME/CompositionProcessorEngine.cpp): which candidates the
-- window gets.
use ohagey.Common.{
  ◌≡◌, ◌≢◌, refl, ap, ◌∙◌, true, List, [], ◌∷◌, ◌++◌, append-nil, append_assoc, map, ◌==◌, arith,
  length, Bool-cases, inl, inr,
}
use ohagey.Common.Text.{Text, text_eq, text_eq→eq}
use ohagey.Wire.Text.{CodePage}
use ohagey.Romaji.Buffer.{buffer_runs, buffer_reading}
use ohagey.Client.Messages.{
  Candidate, ConvertResult, CallResult, ok, not_connected, write_failed, read_failed, bad_response,
  status, no_result,
}
use ohagey.Client.Os.{Os, Client}
use ohagey.Client.Calls.{convert}
use ohagey.Composer.{
  CandidateListItem, Composer, item_of, add_candidates, took, get_candidate_list_from_engine,
}

-- The strings that are kept for the candidates, a text and a reading each.
abbrev strings_of : List Candidate → List Text
strings_of [] = []
strings_of (c ∷ cs) = c.text ∷ c.reading ∷ strings_of cs

add_candidates_lem :
    (cs : List Candidate) (strings : List Text) (items : List CandidateListItem)
    → add_candidates cs strings items ≡ (strings ++ strings_of cs, items ++ map item_of cs)
unfolding add_candidates
add_candidates_lem [] strings items = rw (append-nil strings, append-nil items)
add_candidates_lem (c ∷ cs) strings items =
    add_candidates_lem cs ((strings ++ c.text ∷ []) ++ c.reading ∷ []) (items ++ item_of c ∷ [])
    ∙ ap (λ x. (x, (items ++ item_of c ∷ []) ++ map item_of cs))
        (append_assoc (strings ++ c.text ∷ []) (c.reading ∷ []) (strings_of cs)
          ∙ append_assoc strings (c.text ∷ []) (c.reading ∷ strings_of cs))
    ∙ ap (λ x. (strings ++ strings_of (c ∷ cs), x))
        (append_assoc items (item_of c ∷ []) (map item_of cs))

empty_reading : buffer_reading [] ≡ []
unfolding buffer_runs
empty_reading = refl

module _ (os : Os) (cp : CodePage) where
  -- What the engine adds: its candidates in its order when the conversion is Ok, and nothing else.
  abbrev pub Adds :
      List CandidateListItem
      → List Text
      → (CallResult × ConvertResult) × Client os
      → List CandidateListItem × Composer os
      → Type 0
  Adds items strings ((ok, result), client) (items', c') =
      (items' ≡ items ++ map item_of result.candidates)
      × (c'.candidate_strings ≡ strings ++ strings_of result.candidates)
      × (c'.client ≡ client)
  Adds items strings ((failed, result), client) (items', c') =
      (items' ≡ items) × (c'.candidate_strings ≡ strings) × (c'.client ≡ client)

  took-Adds :
      (items : List CandidateListItem) (r : (CallResult × ConvertResult) × Client os)
      (c : Composer os)
      → Adds items c.candidate_strings r (took os cp items r c)
  took-Adds items ((ok, result), client) c =
      let e = add_candidates_lem result.candidates c.candidate_strings items in
      (
        ap (λ (p : List Text × List CandidateListItem). p.1) e,
        ap (λ (p : List Text × List CandidateListItem). p.0) e,
        refl,
      )
  took-Adds items ((not_connected, result), client) c = (refl, refl, refl)
  took-Adds items ((write_failed, result), client) c = (refl, refl, refl)
  took-Adds items ((read_failed, result), client) c = (refl, refl, refl)
  took-Adds items ((bad_response, result), client) c = (refl, refl, refl)
  took-Adds items ((status, result), client) c = (refl, refl, refl)

  length-zero : (s : Text) → (length s == 0) ≡ true → s ≡ []
  length-zero [] h = refl
  length-zero (x ∷ s) h = ground arith

  -- Keys that have no reading yet, or no keys, add nothing and do not ask the engine. A reading is
  -- sent, and an Ok adds the engine's candidates in its order, each with its text and its reading,
  -- behind those that were there; any other result adds nothing.
  pub engine_candidates :
      (keystrokes preceding : Text) (items : List CandidateListItem) (c : Composer os)
      → (buffer_reading keystrokes ≡ []
          → get_candidate_list_from_engine os cp keystrokes preceding items c ≡ (items, c))
        × (buffer_reading keystrokes ≢ []
            → Adds items c.candidate_strings
                (convert os cp (buffer_reading keystrokes) 0 preceding no_result c.client)
                (get_candidate_list_from_engine os cp keystrokes preceding items c))
  unfolding get_candidate_list_from_engine
  engine_candidates keystrokes preceding items c = (silent, asked)
    where
      silent :
          buffer_reading keystrokes ≡ []
          → get_candidate_list_from_engine os cp keystrokes preceding items c ≡ (items, c)
      silent e = elim (Bool-cases (length keystrokes == 0)) [ inl z ↦ rw z | inr n ↦ rw n (rw e) ]

      asked :
          buffer_reading keystrokes ≢ []
          → Adds items c.candidate_strings
              (convert os cp (buffer_reading keystrokes) 0 preceding no_result c.client)
              (get_candidate_list_from_engine os cp keystrokes preceding items c)
      asked h = elim (Bool-cases (length keystrokes == 0)) [
        | inl z ↦ absurd (h (ap buffer_reading (length-zero keystrokes z) ∙ empty_reading))
        | inr n ↦ elim (Bool-cases (text_eq (buffer_reading keystrokes) [])) [
          | inl t ↦ absurd (h (text_eq→eq (buffer_reading keystrokes) [] t))
          | inr t ↦ rw n (
              rw t (
                took-Adds items
                  (convert os cp (buffer_reading keystrokes) 0 preceding no_result c.client) c))
        ]
      ]
