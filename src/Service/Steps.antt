-- ===== src/Service/Steps.antt =====
-- Every handler keeps the mode with its presenter (tsf/SampleIME/KeyHandler.cpp).
use ohagey.Common.{Bool, true, false, not, ◌&&◌, ◌||◌, Option, List, length, ◌==◌}
use ohagey.Common.Text.{Text}
use ohagey.Wire.Text.{CodePage}
use ohagey.Client.Os.{Os}
use ohagey.Composer.{notify_committed}
use ohagey.Window.{clear_list, get_selected_candidate_string, CandidateWindow}
use ohagey.Keys.{is_none_mode}
use ohagey.Service.{
  Hresult, s_ok, s_false, is_failed, Tsf, CandidatePresenter, TextService, Handler, ask,
  ask_composition, pure, ◌>>=◌, ◌>>◌,
}
use ohagey.Service.Presenter.{clear_candidates, selected_string}
use ohagey.Service.Compositions.{end_composition, handle_cancel, add_char_and_finalize}
use ohagey.Service.Handlers.{
  copied, has_presenter, text_of, with_service, take_reading, add_readings, clear_if, clear_shown,
  handle_composition_input_worker, learn, learn_if_ok, finalize_candidate, learn_text,
  end_if_covered, end_if_found, finalize_at, finalize_text, finalize_from,
  handle_composition_finalize,
}
use ohagey.Service.Keeps.{bind-Keeps, then-Keeps, if-Keeps, pure-Keeps}
use ohagey.Service.Paired.{
  IsPaired, Stays, ask-Stays, compose-Stays, ask_composition-Stays, on_window-Stays, done-Stays,
  end_composition-Stays, handle_cancel-Stays,
}
use ohagey.Service.Written.{add_readings-Stays, add_char_and_finalize-Stays}

module _ (os : Os) (cp : CodePage) (tsf : Tsf) where
  abbrev P : TextService os tsf → Type 0
  P = IsPaired os tsf

  pub with_service-Stays :
      {A : Type 0} (f : TextService os tsf → Handler os tsf A)
      → ((s : TextService os tsf) → Stays os tsf (f s))
      → Stays os tsf (with_service os cp tsf f)
  with_service-Stays f each s h = each s s h

  abbrev ok : Handler os tsf Hresult
  ok = pure s_ok

  abbrev no_selection : Handler os tsf Hresult
  no_selection = pure s_false

  take_reading-Stays : Stays os tsf (take_reading os cp tsf)
  take_reading-Stays s h = h

  clear_if-Stays : (p : Option CandidatePresenter) → Stays os tsf (clear_if os cp tsf p)
  clear_if-Stays p =
      if-Keeps P (has_presenter p) clear_candidates (pure tt)
        (on_window-Stays os tsf (λ (w : CandidateWindow). (tt, clear_list w))) (done-Stays os tsf)

  abbrev clear_now : Handler os tsf (Unit {0})
  clear_now = with_service os cp tsf (λ (s : TextService os tsf). clear_if os cp tsf s.presenter)

  clear_shown-Stays : (result : Hresult) → Stays os tsf (clear_shown os cp tsf result)
  clear_shown-Stays result =
      if-Keeps P (is_failed result) (pure result) (clear_now >> pure result) (pure-Keeps P result) (
        then-Keeps P clear_now (pure result)
          (with_service-Stays (λ (s : TextService os tsf). clear_if os cp tsf s.presenter)
            (λ (s : TextService os tsf). clear_if-Stays s.presenter))
          (pure-Keeps P result))

  pub input_worker-Stays : Stays os tsf (handle_composition_input_worker os cp tsf)
  unfolding handle_composition_input_worker
  input_worker-Stays =
      bind-Keeps P (take_reading os cp tsf)
        (λ (texts : List Text). add_readings os cp tsf texts >>= clear_shown os cp tsf)
        take_reading-Stays
        (λ (texts : List Text).
          bind-Keeps P (add_readings os cp tsf texts) (clear_shown os cp tsf)
            (add_readings-Stays os tsf cp texts) clear_shown-Stays)

  pub learn-Stays : (text : Text) → Stays os tsf (learn os cp tsf text)
  learn-Stays text = compose-Stays os tsf (notify_committed os cp text (not tsf.is_secure_mode))

  learn_if_ok-Stays :
      (text : Text) (result : Hresult) → Stays os tsf (learn_if_ok os cp tsf text result)
  learn_if_ok-Stays text result =
      if-Keeps P (is_failed result) (pure result) (learn os cp tsf text >> handle_cancel os tsf)
        (pure-Keeps P result)
        (then-Keeps P (learn os cp tsf text) (handle_cancel os tsf) (learn-Stays text)
          (handle_cancel-Stays os tsf))

  finalize_candidate-Stays : (text : Text) → Stays os tsf (finalize_candidate os cp tsf text)
  finalize_candidate-Stays text =
      if-Keeps P (length text == 0) (handle_cancel os tsf)
        (add_char_and_finalize os tsf text >>= learn_if_ok os cp tsf text)
        (handle_cancel-Stays os tsf)
        (bind-Keeps P (add_char_and_finalize os tsf text) (learn_if_ok os cp tsf text)
          (add_char_and_finalize-Stays os tsf text) (learn_if_ok-Stays text))

  learn_text-Stays : (text : Option Text) → Stays os tsf (learn_text os cp tsf text)
  learn_text-Stays text =
      if-Keeps P (length (text_of text) == 0) (pure tt) (learn os cp tsf (text_of text))
        (done-Stays os tsf) (learn-Stays (text_of text))

  end_if_covered-Stays : (covered : Bool) → Stays os tsf (end_if_covered os cp tsf covered)
  end_if_covered-Stays false = done-Stays os tsf
  end_if_covered-Stays true =
      bind-Keeps P (ask os tsf tsf.get_text)
        (λ (text : Option Text). learn_text os cp tsf (copied text) >> end_composition os tsf)
        (ask-Stays os tsf tsf.get_text)
        (λ (text : Option Text).
          then-Keeps P (learn_text os cp tsf (copied text)) (end_composition os tsf)
            (learn_text-Stays (copied text)) (end_composition-Stays os tsf))

  end_if_found-Stays : (found : Bool) → Stays os tsf (end_if_found os cp tsf found)
  end_if_found-Stays false = done-Stays os tsf
  end_if_found-Stays true =
      bind-Keeps P (ask os tsf tsf.is_range_covered) (end_if_covered os cp tsf)
        (ask-Stays os tsf tsf.is_range_covered) end_if_covered-Stays

  abbrev finalize_range : Bool → Handler os tsf Hresult
  finalize_range found = end_if_found os cp tsf found >> handle_cancel os tsf

  finalize_at-Stays : (r : Hresult × Bool) → Stays os tsf (finalize_at os cp tsf r)
  finalize_at-Stays (result, fetched) =
      if-Keeps P (is_failed result || not fetched) no_selection
        (ask_composition os tsf tsf.get_range >>= finalize_range) (pure-Keeps P s_false)
        (bind-Keeps P (ask_composition os tsf tsf.get_range) finalize_range
          (ask_composition-Stays os tsf tsf.get_range)
          (λ (found : Bool).
            then-Keeps P (end_if_found os cp tsf found) (handle_cancel os tsf)
              (end_if_found-Stays found) (handle_cancel-Stays os tsf)))

  finalize_text-Stays : (composing : Bool) → Stays os tsf (finalize_text os cp tsf composing)
  finalize_text-Stays false = handle_cancel-Stays os tsf
  finalize_text-Stays true =
      bind-Keeps P (ask os tsf tsf.get_selection) (finalize_at os cp tsf)
        (ask-Stays os tsf tsf.get_selection) finalize_at-Stays

  pub selected_string-Stays : Stays os tsf selected_string
  selected_string-Stays =
      on_window-Stays os tsf (λ (w : CandidateWindow). (get_selected_candidate_string w, w))

  abbrev finalize_selected : Option Text → Handler os tsf Hresult
  finalize_selected text = finalize_candidate os cp tsf (text_of text)

  finalize_from-Stays :
      (list : Bool) (s : TextService os tsf) → Stays os tsf (finalize_from os cp tsf list s)
  finalize_from-Stays list s =
      if-Keeps P (list && has_presenter s.presenter && not (is_none_mode s.candidate_mode))
        (selected_string >>= finalize_selected) (finalize_text os cp tsf s.is_composing)
        (bind-Keeps P selected_string finalize_selected selected_string-Stays
          (λ (text : Option Text). finalize_candidate-Stays (text_of text)))
        (finalize_text-Stays s.is_composing)

  pub composition_finalize-Stays :
      (list : Bool) → Stays os tsf (handle_composition_finalize os cp tsf list)
  unfolding handle_composition_finalize
  composition_finalize-Stays list =
      with_service-Stays (finalize_from os cp tsf list) (finalize_from-Stays list)
