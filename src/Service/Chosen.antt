-- ===== src/Service/Chosen.antt =====
-- The handlers that work on a candidate list (tsf/SampleIME/CandidateListUIPresenter.cpp) keep the
-- mode with its presenter.
use ohagey.Common.{ℕ, Bool, true, false, Option, none, some, length, ◌==◌}
use ohagey.Common.Text.{Text}
use ohagey.Wire.Text.{CodePage}
use ohagey.Client.Os.{Os}
use ohagey.Window.Moves.{set_selection_in_page}
use ohagey.Keys.{KeystrokeFunction}
use ohagey.Keys.Needed.{get_index, initial_range}
use ohagey.Service.{
  Hresult, s_ok, s_false, is_s_ok, is_failed, Tsf, CandidatePresenter, TextService, Handler, ask,
  ask_composition, pure, ◌>>=◌, ◌>>◌,
}
use ohagey.Service.Presenter.{selected_string, select_in_page, advise_arrow_key}
use ohagey.Service.Compositions.{handle_complete, add_composing_and_char, add_char_and_finalize}
use ohagey.Service.Handlers.{text_of, learn}
use ohagey.Service.Candidates.{
  complete_with, learn_shown, commit_shown, finalize_shown, handle_candidate_finalize,
  finalize_found, finalize_selected, worker_on, handle_candidate_worker, arrow_on,
  handle_candidate_arrow_key, if_selected, select_on, select_number,
  handle_candidate_select_by_number, complete_if_ok, commit_phrase, handle_phrase_finalize,
  phrase_arrow_on, handle_phrase_arrow_key, handle_phrase_select_by_number,
}
use ohagey.Service.Keeps.{bind-Keeps, then-Keeps, if-Keeps, pure-Keeps}
use ohagey.Service.Paired.{
  IsPaired, Stays, ask-Stays, ask_composition-Stays, on_window-Stays, handle_complete-Stays,
}
use ohagey.Service.Written.{
  add_composing_and_char-Stays, add_char_and_finalize-Stays, advise_arrow_key-Stays,
}
use ohagey.Service.Steps.{with_service-Stays, learn-Stays, selected_string-Stays}

module _ (os : Os) (cp : CodePage) (tsf : Tsf) where
  abbrev P : TextService os tsf → Type 0
  P = IsPaired os tsf

  complete_with-Stays : (r : Hresult) → Stays os tsf (complete_with os cp tsf r)
  complete_with-Stays r =
      then-Keeps P (handle_complete os tsf) (pure r) (handle_complete-Stays os tsf) (pure-Keeps P r)

  learn_shown-Stays : (text : Text) (r : Hresult) → Stays os tsf (learn_shown os cp tsf text r)
  learn_shown-Stays text r =
      if-Keeps P (is_failed r) (pure r) (learn os cp tsf text >> complete_with os cp tsf r)
        (pure-Keeps P r)
        (then-Keeps P (learn os cp tsf text) (complete_with os cp tsf r)
          (learn-Stays os cp tsf text) (complete_with-Stays r))

  commit_shown-Stays : (text : Text) → Stays os tsf (commit_shown os cp tsf text)
  commit_shown-Stays text =
      if-Keeps P (length text == 0) (complete_with os cp tsf s_ok)
        (add_composing_and_char os tsf text >>= learn_shown os cp tsf text)
        (complete_with-Stays s_ok)
        (bind-Keeps P (add_composing_and_char os tsf text) (learn_shown os cp tsf text)
          (add_composing_and_char-Stays os tsf text) (learn_shown-Stays text))

  -- A step that goes on with the selected candidate.
  selected-Stays :
      (k : Text → Handler os tsf Hresult)
      → ((text : Text) → Stays os tsf (k text))
      → Stays os tsf (selected_string >>= λ (text : Option Text). k (text_of text))
  selected-Stays k each =
      bind-Keeps P selected_string (λ (text : Option Text). k (text_of text))
        (selected_string-Stays os cp tsf) (λ (text : Option Text). each (text_of text))

  finalize_shown-Stays : (p : Option CandidatePresenter) → Stays os tsf (finalize_shown os cp tsf p)
  finalize_shown-Stays none = complete_with-Stays s_ok
  finalize_shown-Stays (some p) = selected-Stays (commit_shown os cp tsf) commit_shown-Stays

  pub candidate_finalize-Stays : Stays os tsf (handle_candidate_finalize os cp tsf)
  unfolding handle_candidate_finalize
  candidate_finalize-Stays =
      with_service-Stays os cp tsf
        (λ (s : TextService os tsf). finalize_shown os cp tsf s.presenter)
        (λ (s : TextService os tsf). finalize_shown-Stays s.presenter)

  finalize_found-Stays : (found : Bool) → Stays os tsf (finalize_found os cp tsf found)
  finalize_found-Stays false = candidate_finalize-Stays
  finalize_found-Stays true =
      then-Keeps P (ask_composition os tsf tsf.get_range) (handle_candidate_finalize os cp tsf)
        (ask_composition-Stays os tsf tsf.get_range) candidate_finalize-Stays

  finalize_selected-Stays : (text : Text) → Stays os tsf (finalize_selected os cp tsf text)
  finalize_selected-Stays text =
      if-Keeps P (length text == 0) (pure s_false)
        (ask os tsf tsf.get_document_mgr >>= finalize_found os cp tsf) (pure-Keeps P s_false)
        (bind-Keeps P (ask os tsf tsf.get_document_mgr) (finalize_found os cp tsf)
          (ask-Stays os tsf tsf.get_document_mgr) finalize_found-Stays)

  worker_on-Stays : (p : Option CandidatePresenter) → Stays os tsf (worker_on os cp tsf p)
  worker_on-Stays none = pure-Keeps P s_ok
  worker_on-Stays (some p) = selected-Stays (finalize_selected os cp tsf) finalize_selected-Stays

  candidate_worker-Stays : Stays os tsf (handle_candidate_worker os cp tsf)
  unfolding handle_candidate_worker
  candidate_worker-Stays =
      with_service-Stays os cp tsf (λ (s : TextService os tsf). worker_on os cp tsf s.presenter)
        (λ (s : TextService os tsf). worker_on-Stays s.presenter)

  abbrev advised : KeystrokeFunction → Handler os tsf Hresult
  advised f = advise_arrow_key f >> pure s_ok

  advised-Stays : (f : KeystrokeFunction) → Stays os tsf (advised f)
  advised-Stays f =
      then-Keeps P (advise_arrow_key f) (pure s_ok) (advise_arrow_key-Stays os tsf f)
        (pure-Keeps P s_ok)

  arrow_on-Stays :
      (f : KeystrokeFunction) (p : Option CandidatePresenter)
      → Stays os tsf (arrow_on os cp tsf f p)
  arrow_on-Stays f none = pure-Keeps P s_false
  arrow_on-Stays f (some p) = advised-Stays f

  pub candidate_arrow_key-Stays :
      (f : KeystrokeFunction) → Stays os tsf (handle_candidate_arrow_key os cp tsf f)
  unfolding handle_candidate_arrow_key
  candidate_arrow_key-Stays f =
      with_service-Stays os cp tsf (λ (s : TextService os tsf). arrow_on os cp tsf f s.presenter)
        (λ (s : TextService os tsf). arrow_on-Stays f s.presenter)

  if_selected-Stays :
      (commit : Handler os tsf Hresult) (selected : Bool)
      → Stays os tsf commit
      → Stays os tsf (if_selected os cp tsf commit selected)
  if_selected-Stays commit selected h =
      if-Keeps P selected commit (pure s_false) h (pure-Keeps P s_false)

  select_on-Stays :
      (commit : Handler os tsf Hresult) (pos : ℕ) (p : Option CandidatePresenter)
      → Stays os tsf commit
      → Stays os tsf (select_on os cp tsf commit pos p)
  select_on-Stays commit pos none h = pure-Keeps P s_false
  select_on-Stays commit pos (some p) h =
      bind-Keeps P (select_in_page pos) (if_selected os cp tsf commit)
        (on_window-Stays os tsf (set_selection_in_page pos))
        (λ (selected : Bool). if_selected-Stays commit selected h)

  select_number-Stays :
      (commit : Handler os tsf Hresult) (pos : Option ℕ)
      → Stays os tsf commit
      → Stays os tsf (select_number os cp tsf commit pos)
  select_number-Stays commit none h = pure-Keeps P s_false
  select_number-Stays commit (some pos) h =
      with_service-Stays os cp tsf
        (λ (s : TextService os tsf). select_on os cp tsf commit pos s.presenter)
        (λ (s : TextService os tsf). select_on-Stays commit pos s.presenter h)

  pub candidate_select_by_number-Stays :
      (code : ℕ) → Stays os tsf (handle_candidate_select_by_number os cp tsf code)
  unfolding handle_candidate_select_by_number
  candidate_select_by_number-Stays code =
      select_number-Stays (handle_candidate_worker os cp tsf) (get_index initial_range code)
        candidate_worker-Stays

  complete_if_ok-Stays : (r : Hresult) → Stays os tsf (complete_if_ok os cp tsf r)
  complete_if_ok-Stays r =
      if-Keeps P (is_s_ok r) (handle_complete os tsf) (pure r) (handle_complete-Stays os tsf)
        (pure-Keeps P r)

  commit_phrase-Stays : (text : Text) → Stays os tsf (commit_phrase os cp tsf text)
  commit_phrase-Stays text =
      if-Keeps P (length text == 0) (handle_complete os tsf)
        (add_char_and_finalize os tsf text >>= complete_if_ok os cp tsf)
        (handle_complete-Stays os tsf)
        (bind-Keeps P (add_char_and_finalize os tsf text) (complete_if_ok os cp tsf)
          (add_char_and_finalize-Stays os tsf text) complete_if_ok-Stays)

  pub phrase_finalize-Stays : Stays os tsf (handle_phrase_finalize os cp tsf)
  unfolding handle_phrase_finalize
  phrase_finalize-Stays = selected-Stays (commit_phrase os cp tsf) commit_phrase-Stays

  phrase_arrow_on-Stays :
      (f : KeystrokeFunction) (p : Option CandidatePresenter)
      → Stays os tsf (phrase_arrow_on os cp tsf f p)
  phrase_arrow_on-Stays f none s h = h
  phrase_arrow_on-Stays f (some p) s h = advised-Stays f s h

  pub phrase_arrow_key-Stays :
      (f : KeystrokeFunction) → Stays os tsf (handle_phrase_arrow_key os cp tsf f)
  unfolding handle_phrase_arrow_key
  phrase_arrow_key-Stays f =
      with_service-Stays os cp tsf
        (λ (s : TextService os tsf). phrase_arrow_on os cp tsf f s.presenter)
        (λ (s : TextService os tsf). phrase_arrow_on-Stays f s.presenter)

  pub phrase_select_by_number-Stays :
      (code : ℕ) → Stays os tsf (handle_phrase_select_by_number os cp tsf code)
  unfolding handle_phrase_select_by_number
  phrase_select_by_number-Stays code =
      select_number-Stays (handle_phrase_finalize os cp tsf) (get_index initial_range code)
        phrase_finalize-Stays
