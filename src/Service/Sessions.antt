-- ===== src/Service/Sessions.antt =====
-- A session that handles a key (tsf/SampleIME/KeyHandlerEditSession.cpp) keeps the mode with its
-- presenter, whatever the keys are and however the context answers.
use mathlib.Core.List.{foldl}
use ohagey.Common.{ℕ, ◌≡◌, true, false, Option, none, some, List, [], ◌∷◌}
use ohagey.Wire.Text.{CodePage}
use ohagey.Client.Os.{Os}
use ohagey.Composer.Punctuation.{Pairs}
use ohagey.Keys.{function_move_down}
use ohagey.Keys.Category.{
  ServiceCall, composition_input, composition_finalize, composition_finalize_and_input,
  composition_convert, cancel, composition_backspace, composition_arrow_key,
  composition_double_single_byte, composition_punctuation, candidate_finalize,
  candidate_finalize_and_input, candidate_move_down, candidate_arrow_key,
  candidate_select_by_number, phrase_finalize, phrase_arrow_key, phrase_select_by_number,
  key_state_handler,
}
use ohagey.Keys.Eaten.{Request}
use ohagey.Service.{CandidatePresenter, Hresult, failed, Tsf, TextService, ◌>>◌}
use ohagey.Service.Compositions.{remove_dummy_composition, end_composition, delete_candidate_list}
use ohagey.Service.Handlers.{handle_composition_finalize, handle_composition_input}
use ohagey.Service.Candidates.{handle_candidate_finalize}
use ohagey.Service.Session.{
  serve, serve_if, do_edit_session, guarded, edit_session, on_composition_terminated,
}
use ohagey.Service.Element.{
  change_presenter, finalize_request, element_set_selection, element_set_page_index, end_of_layout,
  layout_destroy_notification,
}
use ohagey.Service.Handlers.{has_presenter}
use ohagey.Window.{CandidateWindow, set_page_index}
use ohagey.Window.Moves.{set_selection}
use ohagey.Keys.{CandidateMode, is_none_mode}
use ohagey.Service.Keeps.{then-Keeps, pure-Keeps}
use ohagey.Service.Paired.{
  IsPaired, Stays, done-Stays, end_candidate_list-Stays, remove_dummy_composition-Stays,
  end_composition-Stays, delete_candidate_list-Stays, handle_cancel-Stays,
}
use ohagey.Service.Steps.{composition_finalize-Stays}
use ohagey.Service.Typed.{
  composition_input-Stays, composition_backspace-Stays, composition_arrow_key-Stays,
}
use ohagey.Service.Listed.{
  composition_convert-Stays, composition_punctuation-Stays, composition_double_single_byte-Stays,
}
use ohagey.Service.Chosen.{
  candidate_finalize-Stays, candidate_arrow_key-Stays, candidate_select_by_number-Stays,
  phrase_finalize-Stays, phrase_arrow_key-Stays, phrase_select_by_number-Stays,
}

-- A key that is handled in a session, the application that ends the composition, and an application
-- that shows the list itself: a candidate or a page that it selects, a candidate that it takes, and
-- a layout that is gone.
pub data Event : Type 0 where
  key_session : Request → Event
  composition_terminated : Event
  candidate_shown : ℕ → Event
  pages_shown : List ℕ → Event
  candidate_taken : Event
  layout_destroyed : Event

module _ (os : Os) (cp : CodePage) (tsf : Tsf) (pairs : Pairs) where
  abbrev P : TextService os tsf → Type 0
  P = IsPaired os tsf

  serve-Stays : (call : ServiceCall) (r : Request) → Stays os tsf (serve os cp tsf pairs call r)
  serve-Stays composition_input r = composition_input-Stays os cp tsf r.wch
  serve-Stays (composition_finalize list) r = composition_finalize-Stays os cp tsf list
  serve-Stays (composition_finalize_and_input list) r =
      then-Keeps P (handle_composition_finalize os cp tsf list)
        (handle_composition_input os cp tsf r.wch) (composition_finalize-Stays os cp tsf list)
        (composition_input-Stays os cp tsf r.wch)
  serve-Stays (composition_convert wildcard) r = composition_convert-Stays os cp tsf wildcard
  serve-Stays cancel r = handle_cancel-Stays os tsf
  serve-Stays composition_backspace r = composition_backspace-Stays os cp tsf
  serve-Stays composition_arrow_key r = composition_arrow_key-Stays os cp tsf r.state.function
  serve-Stays composition_double_single_byte r =
      composition_double_single_byte-Stays os cp tsf r.wch
  serve-Stays composition_punctuation r = composition_punctuation-Stays os cp tsf pairs r.wch
  serve-Stays candidate_finalize r = candidate_finalize-Stays os cp tsf
  serve-Stays candidate_finalize_and_input r =
      then-Keeps P (handle_candidate_finalize os cp tsf) (handle_composition_input os cp tsf r.wch)
        (candidate_finalize-Stays os cp tsf) (composition_input-Stays os cp tsf r.wch)
  serve-Stays candidate_move_down r = candidate_arrow_key-Stays os cp tsf function_move_down
  serve-Stays candidate_arrow_key r = candidate_arrow_key-Stays os cp tsf r.state.function
  serve-Stays candidate_select_by_number r = candidate_select_by_number-Stays os cp tsf r.code
  serve-Stays phrase_finalize r = phrase_finalize-Stays os cp tsf
  serve-Stays phrase_arrow_key r = phrase_arrow_key-Stays os cp tsf r.state.function
  serve-Stays phrase_select_by_number r = phrase_select_by_number-Stays os cp tsf r.code

  serve_if-Stays :
      (call : Option ServiceCall) (r : Request) → Stays os tsf (serve_if os cp tsf pairs call r)
  serve_if-Stays none r = pure-Keeps P failed
  serve_if-Stays (some call) r = serve-Stays call r

  guarded_lem : (r : Option Hresult × TextService os tsf) → P r.1 → P (guarded os cp tsf pairs r).1
  guarded_lem (none, s) h = h
  guarded_lem (some result, s) h = h

  edit_session-IsPaired :
      (r : Request) (s : TextService os tsf) → P s → P (edit_session os cp tsf pairs r s).1
  unfolding edit_session do_edit_session
  edit_session-IsPaired r s h =
      guarded_lem
        (serve_if os cp tsf pairs (key_state_handler r.state.category r.state.function) r s)
        (serve_if-Stays (key_state_handler r.state.category r.state.function) r s h)

  terminated-Stays : Stays os tsf (on_composition_terminated os cp tsf pairs)
  unfolding on_composition_terminated
  terminated-Stays =
      then-Keeps P (remove_dummy_composition os tsf)
        (end_composition os tsf >> delete_candidate_list os tsf)
        (remove_dummy_composition-Stays os tsf)
        (then-Keeps P (end_composition os tsf) (delete_candidate_list os tsf)
          (end_composition-Stays os tsf) (delete_candidate_list-Stays os tsf))

  change_shown-Stays :
      (f : CandidateWindow → CandidateWindow) (p : Option CandidatePresenter) (mode : CandidateMode)
      → (is_none_mode mode ≡ false → has_presenter p ≡ true)
      → is_none_mode mode ≡ false
      → has_presenter (change_presenter f p) ≡ true
  change_shown-Stays f none mode h = h
  change_shown-Stays f (some none) mode h = h
  change_shown-Stays f (some (some w)) mode h = h

  end_of_layout-Stays : (p : Option CandidatePresenter) → Stays os tsf (end_of_layout os tsf p)
  end_of_layout-Stays none = done-Stays os tsf
  end_of_layout-Stays (some p) = end_candidate_list-Stays os tsf

  abbrev pub on_event : TextService os tsf → Event → TextService os tsf
  on_event s (key_session r) = (edit_session os cp tsf pairs r s).1
  on_event s composition_terminated = (on_composition_terminated os cp tsf pairs s).1
  on_event s (candidate_shown index) = (element_set_selection os tsf index s).1
  on_event s (pages_shown pages) = (element_set_page_index os tsf pages s).1
  on_event s candidate_taken = (edit_session os cp tsf pairs finalize_request s).1
  on_event s layout_destroyed = (layout_destroy_notification os tsf s).1

  on_event-IsPaired : (s : TextService os tsf) (e : Event) → P s → P (on_event s e)
  unfolding element_set_selection element_set_page_index layout_destroy_notification
  on_event-IsPaired s (key_session r) h = edit_session-IsPaired r s h
  on_event-IsPaired s composition_terminated h = terminated-Stays s h
  on_event-IsPaired s (candidate_shown index) h =
      change_shown-Stays (λ (w : CandidateWindow). (set_selection index w).1) s.presenter
        s.candidate_mode h
  on_event-IsPaired s (pages_shown pages) h =
      change_shown-Stays (set_page_index pages) s.presenter s.candidate_mode h
  on_event-IsPaired s candidate_taken h = edit_session-IsPaired finalize_request s h
  on_event-IsPaired s layout_destroyed h = end_of_layout-Stays s.presenter s h

  -- After any sequence of key sessions, of compositions that the application ended, and of calls of
  -- an application that shows the candidate list itself or loses its layout, whatever
  -- the context, the composition and the windows answered and wherever a null pointer was
  -- followed, a candidate mode other than CANDIDATE_NONE has a presenter, if it has one at first.
  pub sessions-IsPaired :
      (events : List Event) (s : TextService os tsf)
      → IsPaired os tsf s
      → IsPaired os tsf (foldl on_event s events)
  sessions-IsPaired [] s h = h
  sessions-IsPaired (e ∷ events) s h =
      sessions-IsPaired events (on_event s e) (on_event-IsPaired s e h)
