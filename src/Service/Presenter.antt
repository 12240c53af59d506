-- ===== src/Service/Presenter.antt =====
-- The presenter of the candidate list (tsf/SampleIME/CandidateListUIPresenter.cpp). Its window is
-- null before the list starts and after it has ended.
use ohagey.Common.{
  ℕ, zero, suc, ◌+◌, ◌*◌, ◌/◌, Bool, true, false, Option, none, some, List, [], ◌∷◌, if◌then◌else◌,
  length,
}
use ohagey.Common.Text.{Text}
use ohagey.Client.Os.{Os}
use ohagey.Composer.{CandidateListItem}
use ohagey.Keys.{
  KeystrokeFunction, function_move_up, function_move_down, function_move_page_up,
  function_move_page_down, function_move_page_top, function_move_page_bottom,
}
use ohagey.Keys.Needed.{initial_range}
use ohagey.Window.{
  CandidateWindow, minus_one, per_page, new_window, add_string, clear_list, set_page_index,
  get_selected_candidate_string,
}
use ohagey.Window.Moves.{move_selection, move_page, set_selection, set_selection_in_page}
use ohagey.Service.{
  Hresult, s_ok, failed, Tsf, CandidatePresenter, Handler, ask, tell, fault, pure, ◌>>=◌, ◌>>◌,
}

-- The loop of AddCandidateToCandidateListUI.
abbrev pub add_strings : List CandidateListItem → Bool → CandidateWindow → CandidateWindow
add_strings [] is_add w = w
add_strings (item ∷ items) is_add w = add_strings items is_add (add_string item is_add w)

-- `i * candCntInPage` for each i below the size of the buffer.
unfoldable pub page_starts : ℕ → ℕ → ℕ → List ℕ
page_starts i per zero = []
page_starts i per (suc n) = i * per ∷ page_starts (i + 1) per n

abbrev pub set_page_index_with_scroll_info :
    List CandidateListItem → CandidateWindow → CandidateWindow
set_page_index_with_scroll_info items w =
    set_page_index (page_starts 0 (per_page w) (length items / per_page w + 1)) w

unfoldable pub with_text : List CandidateListItem → Bool → CandidateWindow → CandidateWindow
with_text items is_add w = set_page_index_with_scroll_info items (add_strings items is_add w)

-- AdviseUIChangedByArrowKey: a key that is no arrow does nothing.
unfoldable pub arrow_key : KeystrokeFunction → CandidateWindow → CandidateWindow
arrow_key function_move_up w = (move_selection minus_one w).1
arrow_key function_move_down w = (move_selection 1 w).1
arrow_key function_move_page_up w = (move_page minus_one w).1
arrow_key function_move_page_down w = (move_page 1 w).1
arrow_key function_move_page_top w = (set_selection 0 w).1
arrow_key function_move_page_bottom w = (set_selection minus_one w).1
arrow_key _ w = w

abbrev pub is_arrow : KeystrokeFunction → Bool
is_arrow function_move_up = true
is_arrow function_move_down = true
is_arrow function_move_page_up = true
is_arrow function_move_page_down = true
is_arrow function_move_page_top = true
is_arrow function_move_page_bottom = true
is_arrow _ = false

module _ {os : Os} {tsf : Tsf} where
  abbrev pub with_window :
      {A : Type 0}
      → (CandidateWindow → A × CandidateWindow)
      → Option CandidatePresenter
      → Handler os tsf A
  with_window f (some (some w)) s =
      let (a, w') = f w in (some a, record s { presenter = some (some w') })
  with_window f _ s = fault os tsf s

  -- A call through `_pCandidateListUIPresenter` and its `_pCandidateWnd`.
  abbrev pub on_window : {A : Type 0} → (CandidateWindow → A × CandidateWindow) → Handler os tsf A
  on_window f s = with_window f s.presenter s

  abbrev pub set_presenter : Option CandidatePresenter → Handler os tsf (Unit {0})
  set_presenter p s = (some tt, record s { presenter = p })

  abbrev pub change_window : (CandidateWindow → CandidateWindow) → Handler os tsf (Unit {0})
  change_window f = on_window (λ (w : CandidateWindow). (tt, f w))

  abbrev pub clear_candidates : Handler os tsf (Unit {0})
  clear_candidates = change_window clear_list

  abbrev pub selected_string : Handler os tsf (Option Text)
  selected_string = on_window (λ (w : CandidateWindow). (get_selected_candidate_string w, w))

  abbrev pub select_in_page : ℕ → Handler os tsf Bool
  select_in_page pos = on_window (set_selection_in_page pos)

  abbrev pub set_text : List CandidateListItem → Bool → Handler os tsf (Unit {0})
  set_text items is_add = change_window (with_text items is_add)

  -- Only an arrow follows the pointer to the window.
  unfoldable pub advise_arrow_key : KeystrokeFunction → Handler os tsf (Unit {0})
  advise_arrow_key f = if is_arrow f then change_window (arrow_key f) else pure tt

module _ (os : Os) (tsf : Tsf) where
  -- EndUIElement, DisposeCandidateWindow, _EndLayout.
  unfoldable pub end_candidate_list : Handler os tsf (Unit {0})
  end_candidate_list = do tell os tsf tsf.end_user_interface; set_presenter (some none)

  abbrev pub has_window : Option CandidatePresenter → Bool
  has_window (some (some w)) = true
  has_window _ = false

  abbrev pub put_window : Option CandidatePresenter → Handler os tsf Bool
  put_window (some (some w)) = pure true
  put_window _ = do
    set_presenter (some (some (new_window initial_range)))
    ask os tsf tsf.create_window

  -- A window that is there already is kept.
  abbrev pub make_candidate_window : Handler os tsf Bool
  make_candidate_window s = put_window s.presenter s

  abbrev pub end_if_failed : Bool → Handler os tsf Hresult
  end_if_failed made =
      if made
      then (do tell os tsf tsf.show_window; pure s_ok)
      else (do end_candidate_list; pure failed)

  abbrev pub after_layout : Bool → Handler os tsf Hresult
  after_layout advised =
      if advised
      then (do made ← make_candidate_window; end_if_failed made)
      else (do end_candidate_list; pure failed)

  unfoldable pub start_candidate_list : Handler os tsf Hresult
  start_candidate_list = do advised ← ask os tsf tsf.advise_layout; after_layout advised
