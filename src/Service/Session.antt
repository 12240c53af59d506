-- ===== src/Service/Session.antt =====
-- The session in which a key is handled (tsf/SampleIME/KeyHandlerEditSession.cpp,
-- KeyStateCategory.cpp), and its guard (tsf/Ohagey/OhageySeh.h).
use ohagey.Common.{Option, none, some}
use ohagey.Wire.Text.{CodePage}
use ohagey.Client.Os.{Os}
use ohagey.Composer.Punctuation.{Pairs}
use ohagey.Keys.{function_move_down}
use ohagey.Keys.Category.{
  ServiceCall, composition_input, composition_finalize, composition_finalize_and_input,
  composition_convert, cancel, composition_backspace, composition_arrow_key,
  composition_double_single_byte, composition_punctuation, candidate_finalize,
  candidate_finalize_and_input, candidate_move_down, candidate_arrow_key,
  candidate_select_by_number, phrase_finalize, phrase_arrow_key, phrase_select_by_number,
  key_state_handler,
}
use ohagey.Keys.Eaten.{Request}
use ohagey.Service.{Hresult, failed, Tsf, TextService, Handler, pure, ◌>>◌}
use ohagey.Service.Compositions.{
  handle_cancel, remove_dummy_composition, end_composition, delete_candidate_list,
}
use ohagey.Service.Handlers.{
  handle_composition_input, handle_composition_finalize, handle_composition_backspace,
  handle_composition_arrow_key,
}
use ohagey.Service.Candidates.{
  handle_composition_convert, handle_composition_punctuation, handle_composition_double_single_byte,
  handle_candidate_finalize, handle_candidate_arrow_key, handle_candidate_select_by_number,
  handle_phrase_finalize, handle_phrase_arrow_key, handle_phrase_select_by_number,
}

module _ (os : Os) (cp : CodePage) (tsf : Tsf) (pairs : Pairs) where
  abbrev pub serve : ServiceCall → Request → Handler os tsf Hresult
  serve composition_input r = handle_composition_input os cp tsf r.wch
  serve (composition_finalize list) r = handle_composition_finalize os cp tsf list
  serve (composition_finalize_and_input list) r = do
    handle_composition_finalize os cp tsf list
    handle_composition_input os cp tsf r.wch
  serve (composition_convert wildcard) r = handle_composition_convert os cp tsf wildcard
  serve cancel r = handle_cancel os tsf
  serve composition_backspace r = handle_composition_backspace os cp tsf
  serve composition_arrow_key r = handle_composition_arrow_key os cp tsf r.state.function
  serve composition_double_single_byte r = handle_composition_double_single_byte os cp tsf r.wch
  serve composition_punctuation r = handle_composition_punctuation os cp tsf pairs r.wch
  serve candidate_finalize r = handle_candidate_finalize os cp tsf
  serve candidate_finalize_and_input r = do
    handle_candidate_finalize os cp tsf
    handle_composition_input os cp tsf r.wch
  serve candidate_move_down r = handle_candidate_arrow_key os cp tsf function_move_down
  serve candidate_arrow_key r = handle_candidate_arrow_key os cp tsf r.state.function
  serve candidate_select_by_number r = handle_candidate_select_by_number os cp tsf r.code
  serve phrase_finalize r = handle_phrase_finalize os cp tsf
  serve phrase_arrow_key r = handle_phrase_arrow_key os cp tsf r.state.function
  serve phrase_select_by_number r = handle_phrase_select_by_number os cp tsf r.code

  -- E_NOTIMPL and E_INVALIDARG for a key without a handler.
  abbrev pub serve_if : Option ServiceCall → Request → Handler os tsf Hresult
  serve_if none r = pure failed
  serve_if (some call) r = serve call r

  unfoldable pub do_edit_session : Request → Handler os tsf Hresult
  do_edit_session r = serve_if (key_state_handler r.state.category r.state.function) r

  -- The guard answers E_UNEXPECTED after a fault, and the state is what the fault left.
  abbrev pub guarded : Option Hresult × TextService os tsf → Hresult × TextService os tsf
  guarded (none, s) = (failed, s)
  guarded (some result, s) = (result, s)

  unfoldable pub edit_session : Request → TextService os tsf → Hresult × TextService os tsf
  edit_session r s = guarded (do_edit_session r s)

  -- OnCompositionTerminated.
  unfoldable pub on_composition_terminated : Handler os tsf (Unit {0})
  on_composition_terminated = do
    remove_dummy_composition os tsf
    end_composition os tsf
    delete_candidate_list os tsf
