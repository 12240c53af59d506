-- ===== src/Service/Handlers.antt =====
-- The handlers of a key during a composition (tsf/SampleIME/KeyHandler.cpp).
use ohagey.Common.{
  ℕ, Bool, true, false, not, ◌&&◌, ◌||◌, Option, none, some, List, [], ◌∷◌, ◌==◌, if◌then◌else◌,
  length, take,
}
use ohagey.Common.Text.{Text}
use ohagey.Wire.Text.{CodePage}
use ohagey.Client.Os.{Os}
use ohagey.Composer.{
  Composer, add_virtual_key, backspace_key, get_reading_strings, notify_committed,
}
use ohagey.Keys.{KeystrokeFunction, is_none_mode, is_incremental}
use ohagey.Service.{
  Hresult, s_ok, s_false, is_failed, is_s_ok, Tsf, CandidatePresenter, TextService, Handler, ask,
  tell, compose, ask_composition, pure, ◌>>=◌, ◌>>◌,
}
use ohagey.Service.Presenter.{clear_candidates, selected_string, advise_arrow_key}
use ohagey.Service.Compositions.{
  end_composition, start_composition, handle_cancel, add_composing_and_char, add_char_and_finalize,
}

abbrev pub has_presenter : Option CandidatePresenter → Bool
has_presenter none = false
has_presenter (some p) = true

abbrev pub text_of : Option Text → Text
text_of none = []
text_of (some text) = text

-- PRECEDING_TEXT_MAX (tsf/SampleIME/SampleIME.h), the size of the buffers for GetText.
abbrev pub preceding_text_max : ℕ
preceding_text_max = 30

-- What GetText copies of a range into such a buffer.
abbrev pub copied : Option Text → Option Text
copied none = none
copied (some text) = some (take preceding_text_max text)

abbrev is_break : ℕ → Bool
is_break c = c == 0x0d || c == 0x0a

abbrev has_break : Text → Bool
has_break [] = false
has_break (c ∷ cs) = is_break c || has_break cs

-- What is left after the last line break.
unfoldable pub after_break : Text → Text
after_break [] = []
after_break (c ∷ cs) =
    let rest = after_break cs in if has_break cs then rest else if is_break c then cs else c ∷ cs

module _ (os : Os) (cp : CodePage) (tsf : Tsf) where
  -- A handler that reads the state that it starts from.
  abbrev pub with_service :
      {A : Type 0} → (TextService os tsf → Handler os tsf A) → Handler os tsf A
  with_service f s = f s s

  abbrev pub reading_of : Composer os → List Text × Composer os
  reading_of c = get_reading_strings [] c

  abbrev pub take_reading : Handler os tsf (List Text)
  take_reading s =
      let (strings, c) = reading_of s.composer in (some strings, record s { composer = c })

  abbrev pub add_next : Handler os tsf Hresult → Hresult → Handler os tsf Hresult
  add_next rest result = if is_failed result then pure result else rest

  -- The loop over the reading strings.
  unfoldable pub add_readings : List Text → Handler os tsf Hresult
  add_readings [] = pure s_ok
  add_readings (text ∷ texts) = do
    let rest = add_readings texts
    result ← add_composing_and_char os tsf text
    add_next rest result

  abbrev pub clear_if : Option CandidatePresenter → Handler os tsf (Unit {0})
  clear_if p = if has_presenter p then clear_candidates else pure tt

  abbrev pub clear_shown : Hresult → Handler os tsf Hresult
  clear_shown result =
      if is_failed result
      then pure result
      else (do with_service (λ (s : TextService os tsf). clear_if s.presenter); pure result)

  unfoldable pub handle_composition_input_worker : Handler os tsf Hresult
  handle_composition_input_worker = do
    texts ← take_reading
    result ← add_readings texts
    clear_shown result

  abbrev pub learn : Text → Handler os tsf (Unit {0})
  learn text = compose os tsf (notify_committed os cp text (not tsf.is_secure_mode))

  abbrev pub learn_if_ok : Text → Hresult → Handler os tsf Hresult
  learn_if_ok text result =
      if is_failed result then pure result else (do learn text; handle_cancel os tsf)

  -- The selected candidate is committed; an empty one is dropped.
  abbrev pub finalize_candidate : Text → Handler os tsf Hresult
  finalize_candidate text =
      if length text == 0
      then handle_cancel os tsf
      else (do result ← add_char_and_finalize os tsf text; learn_if_ok text result)

  abbrev pub learn_text : Option Text → Handler os tsf (Unit {0})
  learn_text text = if length (text_of text) == 0 then pure tt else learn (text_of text)

  abbrev pub end_if_covered : Bool → Handler os tsf (Unit {0})
  end_if_covered covered =
      if covered
      then (do text ← ask os tsf tsf.get_text; learn_text (copied text); end_composition os tsf)
      else pure tt

  abbrev pub end_if_found : Bool → Handler os tsf (Unit {0})
  end_if_found found =
      if found
      then (do covered ← ask os tsf tsf.is_range_covered; end_if_covered covered)
      else pure tt

  abbrev pub finalize_at : Hresult × Bool → Handler os tsf Hresult
  finalize_at (result, fetched) = if is_failed result || not fetched then pure s_false else (do
    found ← ask_composition os tsf tsf.get_range
    end_if_found found
    handle_cancel os tsf)

  -- What is composed stays as it is.
  abbrev pub finalize_text : Bool → Handler os tsf Hresult
  finalize_text composing =
      if composing
      then (do selection ← ask os tsf tsf.get_selection; finalize_at selection)
      else handle_cancel os tsf

  abbrev pub finalize_from : Bool → TextService os tsf → Handler os tsf Hresult
  finalize_from is_candidate_list s =
      if is_candidate_list && has_presenter s.presenter && not (is_none_mode s.candidate_mode)
      then (do text ← selected_string; finalize_candidate (text_of text))
      else finalize_text s.is_composing

  unfoldable pub handle_composition_finalize : Bool → Handler os tsf Hresult
  handle_composition_finalize is_candidate_list = with_service (finalize_from is_candidate_list)

  abbrev pub settle_list : TextService os tsf → Handler os tsf (Unit {0})
  settle_list s =
      if has_presenter s.presenter
        && not (is_incremental s.candidate_mode)
        && not (is_none_mode s.candidate_mode)
      then (do handle_composition_finalize false; pure tt)
      else pure tt

  abbrev pub start_unless : Bool → Handler os tsf (Unit {0})
  start_unless composing = if composing then pure tt else start_composition os tsf

  abbrev pub input_key : ℕ → Bool → Handler os tsf Hresult
  input_key wch covered =
      if covered
      then (do
        compose os tsf (λ (c : Composer os). (add_virtual_key wch c).1)
        handle_composition_input_worker
        pure s_ok)
      else pure s_ok

  -- Without a range the key goes in.
  abbrev pub covered_if : Bool → Handler os tsf Bool
  covered_if found = if found then ask os tsf tsf.is_range_covered else pure true

  abbrev pub input_at : ℕ → Hresult × Bool → Handler os tsf Hresult
  input_at wch (result, fetched) = if not (is_s_ok result) || not fetched then pure s_false else (do
    found ← ask_composition os tsf tsf.get_range
    covered ← covered_if found
    input_key wch covered)

  unfoldable pub handle_composition_input : ℕ → Handler os tsf Hresult
  handle_composition_input wch = do
    with_service settle_list
    with_service (λ (s : TextService os tsf). start_unless s.is_composing)
    selection ← ask os tsf tsf.get_selection
    input_at wch selection

  abbrev pub after_backspace : Composer os → Handler os tsf Hresult
  after_backspace c =
      if length c.keystrokes == 0 then handle_cancel os tsf else handle_composition_input_worker

  abbrev pub backspace_from : Composer os → Handler os tsf Hresult
  backspace_from c = if length c.keystrokes == 0 then pure s_ok else (do
    compose os tsf backspace_key
    with_service (λ (s : TextService os tsf). after_backspace s.composer)
    pure s_ok)

  abbrev pub backspace_if : Bool → Handler os tsf Hresult
  backspace_if covered =
      if covered
      then with_service (λ (s : TextService os tsf). backspace_from s.composer)
      else pure s_ok

  abbrev pub backspace_at : Hresult × Bool → Handler os tsf Hresult
  backspace_at (result, fetched) = if is_failed result || not fetched then pure s_false else (do
    found ← ask_composition os tsf tsf.get_range
    covered ← covered_if found
    backspace_if covered)

  abbrev pub backspace_while : Bool → Handler os tsf Hresult
  backspace_while composing =
      if composing
      then (do selection ← ask os tsf tsf.get_selection; backspace_at selection)
      else pure s_ok

  unfoldable pub handle_composition_backspace : Handler os tsf Hresult
  handle_composition_backspace =
      with_service (λ (s : TextService os tsf). backspace_while s.is_composing)

  abbrev pub advise_if : KeystrokeFunction → Option CandidatePresenter → Handler os tsf (Unit {0})
  advise_if f p = if has_presenter p then advise_arrow_key f else pure tt

  abbrev pub arrow_in : KeystrokeFunction → Bool → Handler os tsf Hresult
  arrow_in f found =
      if found
      then (do
        with_service (λ (s : TextService os tsf). advise_if f s.presenter)
        tell os tsf tsf.set_selection
        pure s_ok)
      else pure s_ok

  abbrev pub arrow_at : KeystrokeFunction → Hresult × Bool → Handler os tsf Hresult
  arrow_at f (result, fetched) =
      if is_failed result || not fetched
      then pure s_ok
      else (do found ← ask_composition os tsf tsf.get_range; arrow_in f found)

  unfoldable pub handle_composition_arrow_key : KeystrokeFunction → Handler os tsf Hresult
  handle_composition_arrow_key f = do selection ← ask os tsf tsf.get_selection; arrow_at f selection
