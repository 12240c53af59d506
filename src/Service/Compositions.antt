-- ===== src/Service/Compositions.antt =====
-- The composition (tsf/SampleIME/Composition.cpp, EndComposition.cpp, StartComposition.cpp) and what
-- ends it (tsf/SampleIME/KeyHandler.cpp).
use ohagey.Common.{Bool, true, false, not, ◌||◌, Option, none, some, if◌then◌else◌}
use ohagey.Common.Text.{Text}
use ohagey.Client.Os.{Os}
use ohagey.Composer.{purge_virtual_key}
use ohagey.Keys.{CandidateMode, candidate_none}
use ohagey.Service.{
  Hresult, s_ok, s_false, is_s_ok, Tsf, CandidatePresenter, Handler, ask, tell, compose,
  ask_composition, pure, ◌>>=◌, ◌>>◌,
}
use ohagey.Service.Presenter.{end_candidate_list}

module _ (os : Os) (tsf : Tsf) where
  abbrev pub set_mode : CandidateMode → Bool → Handler os tsf (Unit {0})
  set_mode mode wildcard s =
      (some tt, record s { candidate_mode = mode; is_candidate_with_wildcard = wildcard })

  abbrev pub set_composing : Bool → Handler os tsf (Unit {0})
  set_composing composing s = (some tt, record s { is_composing = composing })

  -- The presenter stays; its window does not.
  abbrev pub end_list : Option CandidatePresenter → Handler os tsf (Unit {0})
  end_list none = pure tt
  end_list (some p) = do end_candidate_list os tsf; set_mode candidate_none false

  abbrev pub end_list_of : Handler os tsf (Unit {0})
  end_list_of s = end_list s.presenter s

  unfoldable pub delete_candidate_list : Handler os tsf (Unit {0})
  delete_candidate_list = do compose os tsf purge_virtual_key; end_list_of

  abbrev pub unless_ended : Bool → Handler os tsf (Unit {0})
  unless_ended ended = if ended then pure tt else delete_candidate_list

  abbrev pub terminate_if : Bool → Handler os tsf (Unit {0})
  terminate_if composing =
      if composing
      then (do
        tell os tsf tsf.clear_attributes
        ended ← ask os tsf tsf.end_composition
        unless_ended ended
        set_composing false)
      else pure tt

  unfoldable pub terminate_composition : Handler os tsf (Unit {0})
  terminate_composition s = terminate_if s.is_composing s

  -- _EndComposition: the session terminates the composition, at once or later.
  abbrev pub when_granted : Bool → Handler os tsf (Unit {0})
  when_granted now = if now then terminate_composition else pure tt

  unfoldable pub end_composition : Handler os tsf (Unit {0})
  end_composition = do now ← ask os tsf tsf.runs_now; when_granted now

  abbrev pub composing_if : Bool → Handler os tsf (Unit {0})
  composing_if started = if started then set_composing true else pure tt

  -- _StartComposition, whose session runs at once.
  unfoldable pub start_composition : Handler os tsf (Unit {0})
  start_composition = do started ← ask os tsf tsf.start_composition; composing_if started

  abbrev pub clear_range : Bool → Handler os tsf (Unit {0})
  clear_range found = if found then tell os tsf tsf.clear_text else pure tt

  abbrev pub remove_dummy_if : Bool → Handler os tsf (Unit {0})
  remove_dummy_if composing =
      if composing then (do found ← ask os tsf tsf.get_range; clear_range found) else pure tt

  unfoldable pub remove_dummy_composition : Handler os tsf (Unit {0})
  remove_dummy_composition s = remove_dummy_if s.is_composing s

  unfoldable pub handle_complete : Handler os tsf Hresult
  handle_complete = do delete_candidate_list; terminate_composition; pure s_ok

  unfoldable pub handle_cancel : Handler os tsf Hresult
  handle_cancel = do
    remove_dummy_composition
    delete_candidate_list
    terminate_composition
    pure s_ok

  -- The range that the text goes to: the one that is composed, or one at the selection.
  abbrev pub write_in_range : Text → Bool → Handler os tsf (Unit {0})
  write_in_range text found =
      if found
      then (do
        tell os tsf (tsf.set_range_text text)
        ask_composition os tsf (λ (w : tsf.World). (tt, tsf.set_language w))
        tell os tsf tsf.set_attributes
        tell os tsf tsf.caret_after)
      else pure tt

  unfoldable pub set_input_string : Text → Bool → Handler os tsf (Unit {0})
  set_input_string text exists =
      if exists
      then write_in_range text true
      else (do found ← ask os tsf (tsf.insert_at_selection text); write_in_range text found)

  abbrev pub write_at_start : Text → Bool → Handler os tsf Hresult
  write_at_start text reached =
      if reached
      then (do
        exists ← ask os tsf tsf.find_composing_range
        set_input_string text exists
        pure s_ok)
      else pure s_ok

  abbrev pub write_composing : Text → Hresult × Bool → Handler os tsf Hresult
  write_composing text (result, fetched) =
      if not (is_s_ok result) || not fetched
      then pure s_false
      else (do reached ← ask os tsf tsf.start_to_selection; write_at_start text reached)

  unfoldable pub add_composing_and_char : Text → Handler os tsf Hresult
  add_composing_and_char text = do
    selection ← ask os tsf tsf.get_selection
    write_composing text selection

  abbrev pub move_caret : Hresult → Handler os tsf Hresult
  move_caret result =
      if is_s_ok result
      then (do tell os tsf tsf.caret_after; tell os tsf tsf.set_selection; pure result)
      else pure result

  abbrev pub write_final : Text → Hresult × Bool → Handler os tsf Hresult
  write_final text (result, fetched) =
      if not (is_s_ok result) || not fetched
      then pure result
      else (do written ← ask os tsf (tsf.set_selection_text text); move_caret written)

  unfoldable pub add_char_and_finalize : Text → Handler os tsf Hresult
  add_char_and_finalize text = do
    selection ← ask os tsf tsf.get_selection
    write_final text selection
