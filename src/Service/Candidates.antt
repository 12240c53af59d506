-- ===== src/Service/Candidates.antt =====
-- The handlers that convert, commit a symbol, and work on a candidate list
-- (tsf/SampleIME/KeyHandler.cpp, CandidateListUIPresenter.cpp).
use ohagey.Common.{
  ℕ, ◌+◌, Bool, false, not, ◌&&◌, Option, none, some, List, [], ◌∷◌, ◌==◌, if◌then◌else◌, length,
}
use ohagey.Common.Text.{Text}
use ohagey.Wire.Text.{CodePage}
use ohagey.Client.Os.{Os}
use ohagey.Composer.{CandidateListItem, get_candidate_list}
use ohagey.Composer.Punctuation.{Pairs, get_punctuation}
use ohagey.Keys.{KeystrokeFunction, candidate_none, candidate_original, is_none_mode}
use ohagey.Keys.Needed.{initial_range, get_index}
use ohagey.Service.{
  Hresult, s_ok, s_false, is_failed, is_s_ok, Tsf, CandidatePresenter, TextService, Handler, ask,
  fault, ask_composition, pure, ◌>>=◌, ◌>>◌,
}
use ohagey.Service.Presenter.{
  selected_string, select_in_page, set_text, advise_arrow_key, end_candidate_list,
  start_candidate_list, set_presenter,
}
use ohagey.Service.Compositions.{
  set_mode, handle_complete, handle_cancel, add_composing_and_char, add_char_and_finalize,
}
use ohagey.Service.Handlers.{
  preceding_text_max, copied, has_presenter, text_of, after_break, with_service, learn,
}

-- FullWidthCharTable at `wch - 0x20`: the ideographic space and the full-width forms.
abbrev pub full_width : ℕ → ℕ
full_width wch = if wch == 0x20 then 0x3000 else 0xfee0 + wch

module _ (os : Os) (cp : CodePage) (tsf : Tsf) where
  abbrev pub preceding_while : Bool → Handler os tsf Text
  preceding_while composing =
      if composing
      then (do
        text ← ask os tsf (tsf.text_before preceding_text_max)
        pure (after_break (text_of (copied text))))
      else pure []

  unfoldable pub get_preceding_text : Handler os tsf Text
  get_preceding_text =
      with_service os cp tsf (λ (s : TextService os tsf). preceding_while s.is_composing)

  abbrev pub ask_candidates : Text → Handler os tsf (List CandidateListItem)
  ask_candidates preceding s =
      let (items, c) = get_candidate_list os cp preceding [] s.composer in
      (some items, record s { composer = c })

  abbrev pub drop_presenter : Option CandidatePresenter → Handler os tsf (Unit {0})
  drop_presenter none = pure tt
  drop_presenter (some p) = do
    end_candidate_list os tsf
    set_presenter none
    set_mode os tsf candidate_none false

  -- The new presenter has no window; `new` is taken to succeed.
  abbrev pub new_presenter : Bool → Handler os tsf (Unit {0})
  new_presenter wildcard = do set_presenter (some none); set_mode os tsf candidate_original wildcard

  abbrev pub start_in : Bool → Handler os tsf Hresult
  start_in found = if found then start_candidate_list os tsf else pure s_ok

  abbrev pub start_list : Bool → Handler os tsf Hresult
  start_list has_manager =
      if has_manager
      then (do found ← ask_composition os tsf tsf.get_range; start_in found)
      else pure s_ok

  abbrev pub show_items : List CandidateListItem → Hresult → Handler os tsf Hresult
  show_items items result =
      if is_failed result then pure result else (do set_text items false; pure result)

  abbrev pub show_if_any : Bool → List CandidateListItem → Handler os tsf Hresult
  show_if_any wildcard items = if length items == 0 then pure s_ok else (do
    with_service os cp tsf (λ (s : TextService os tsf). drop_presenter s.presenter)
    new_presenter wildcard
    has_manager ← ask os tsf tsf.get_document_mgr
    result ← start_list has_manager
    show_items items result)

  unfoldable pub handle_composition_convert : Bool → Handler os tsf Hresult
  handle_composition_convert wildcard = do
    preceding ← get_preceding_text
    items ← ask_candidates preceding
    show_if_any wildcard items

  abbrev pub cancel_unless : Hresult → Handler os tsf Hresult
  cancel_unless result = if is_failed result then pure result else handle_cancel os tsf

  abbrev pub show_candidate : Text → Handler os tsf (Unit {0})
  show_candidate text =
      if length text == 0 then pure tt else (do add_composing_and_char os tsf text; pure tt)

  abbrev pub settle_candidate : TextService os tsf → Handler os tsf (Unit {0})
  settle_candidate s =
      if not (is_none_mode s.candidate_mode) && has_presenter s.presenter
      then (do text ← selected_string; show_candidate (text_of text))
      else pure tt

  -- The character is GetPunctuation's.
  unfoldable pub handle_composition_punctuation : Pairs → ℕ → Handler os tsf Hresult
  handle_composition_punctuation pairs wch = do
    with_service os cp tsf settle_candidate
    result ← add_char_and_finalize os tsf ((get_punctuation wch pairs).0 ∷ [])
    cancel_unless result

  unfoldable pub handle_composition_double_single_byte : ℕ → Handler os tsf Hresult
  handle_composition_double_single_byte wch = do
    result ← add_char_and_finalize os tsf (full_width wch ∷ [])
    cancel_unless result

  abbrev pub complete_with : Hresult → Handler os tsf Hresult
  complete_with result = do handle_complete os tsf; pure result

  abbrev pub learn_shown : Text → Hresult → Handler os tsf Hresult
  learn_shown text result =
      if is_failed result then pure result else (do learn os cp tsf text; complete_with result)

  abbrev pub commit_shown : Text → Handler os tsf Hresult
  commit_shown text =
      if length text == 0
      then complete_with s_ok
      else (do result ← add_composing_and_char os tsf text; learn_shown text result)

  abbrev pub finalize_shown : Option CandidatePresenter → Handler os tsf Hresult
  finalize_shown none = complete_with s_ok
  finalize_shown (some p) = do text ← selected_string; commit_shown (text_of text)

  unfoldable pub handle_candidate_finalize : Handler os tsf Hresult
  handle_candidate_finalize =
      with_service os cp tsf (λ (s : TextService os tsf). finalize_shown s.presenter)

  -- GetCandidateStringInConverted gives no phrase, so no second list is made.
  abbrev pub finalize_found : Bool → Handler os tsf Hresult
  finalize_found has_manager =
      if has_manager
      then (do ask_composition os tsf tsf.get_range; handle_candidate_finalize)
      else handle_candidate_finalize

  abbrev pub finalize_selected : Text → Handler os tsf Hresult
  finalize_selected text =
      if length text == 0
      then pure s_false
      else (do has_manager ← ask os tsf tsf.get_document_mgr; finalize_found has_manager)

  abbrev pub worker_on : Option CandidatePresenter → Handler os tsf Hresult
  worker_on none = pure s_ok
  worker_on (some p) = do text ← selected_string; finalize_selected (text_of text)

  unfoldable pub handle_candidate_worker : Handler os tsf Hresult
  handle_candidate_worker =
      with_service os cp tsf (λ (s : TextService os tsf). worker_on s.presenter)

  abbrev pub arrow_on : KeystrokeFunction → Option CandidatePresenter → Handler os tsf Hresult
  arrow_on f none = pure s_false
  arrow_on f (some p) = do advise_arrow_key f; pure s_ok

  unfoldable pub handle_candidate_arrow_key : KeystrokeFunction → Handler os tsf Hresult
  handle_candidate_arrow_key f =
      with_service os cp tsf (λ (s : TextService os tsf). arrow_on f s.presenter)

  -- What a number key does once its candidate is selected.
  abbrev pub if_selected : Handler os tsf Hresult → Bool → Handler os tsf Hresult
  if_selected commit selected = if selected then commit else pure s_false

  abbrev pub select_on :
      Handler os tsf Hresult → ℕ → Option CandidatePresenter → Handler os tsf Hresult
  select_on commit pos none = pure s_false
  select_on commit pos (some p) = do selected ← select_in_page pos; if_selected commit selected

  abbrev pub select_number : Handler os tsf Hresult → Option ℕ → Handler os tsf Hresult
  select_number commit none = pure s_false
  select_number commit (some pos) =
      with_service os cp tsf (λ (s : TextService os tsf). select_on commit pos s.presenter)

  unfoldable pub handle_candidate_select_by_number : ℕ → Handler os tsf Hresult
  handle_candidate_select_by_number code =
      select_number handle_candidate_worker (get_index initial_range code)

  abbrev pub complete_if_ok : Hresult → Handler os tsf Hresult
  complete_if_ok result = if is_s_ok result then handle_complete os tsf else pure result

  abbrev pub commit_phrase : Text → Handler os tsf Hresult
  commit_phrase text =
      if length text == 0
      then handle_complete os tsf
      else (do result ← add_char_and_finalize os tsf text; complete_if_ok result)

  unfoldable pub handle_phrase_finalize : Handler os tsf Hresult
  handle_phrase_finalize = do text ← selected_string; commit_phrase (text_of text)

  -- The presenter is followed without a test.
  abbrev pub phrase_arrow_on :
      KeystrokeFunction → Option CandidatePresenter → Handler os tsf Hresult
  phrase_arrow_on f none = fault os tsf
  phrase_arrow_on f (some p) = do advise_arrow_key f; pure s_ok

  unfoldable pub handle_phrase_arrow_key : KeystrokeFunction → Handler os tsf Hresult
  handle_phrase_arrow_key f =
      with_service os cp tsf (λ (s : TextService os tsf). phrase_arrow_on f s.presenter)

  unfoldable pub handle_phrase_select_by_number : ℕ → Handler os tsf Hresult
  handle_phrase_select_by_number code =
      select_number handle_phrase_finalize (get_index initial_range code)
