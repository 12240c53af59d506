-- ===== src/Service/Element.antt =====
-- The user-interface element of the candidate list (tsf/SampleIME/CandidateListUIPresenter.cpp): what
-- an application that draws the list itself asks and changes. The argument is `_pCandidateWnd`.
use ohagey.Common.{
  ℕ, Bool, true, Option, none, some, List, [], ◌∷◌, ◌==◌, ltb, if◌then◌else◌, length,
}
use ohagey.Common.Text.{Text}
use ohagey.Client.Os.{Os}
use ohagey.Keys.{category_candidate, function_finalize_candidatelist}
use ohagey.Keys.Eaten.{Request}
use ohagey.Window.{
  CandidateWindow, count, get_candidate_string, get_page_index, set_page_index,
  get_current_page_int,
}
use ohagey.Window.Moves.{set_selection}
use ohagey.Service.{Tsf, CandidatePresenter, Handler, pure}
use ohagey.Service.Presenter.{end_candidate_list}

abbrev get_count : Option CandidateWindow → ℕ
get_count none = 0
get_count (some w) = count w

abbrev pub get_selection : Option CandidateWindow → ℕ
get_selection none = 0
get_selection (some w) = w.current_selection

-- A string that is empty or missing is a null pointer.
abbrev string_of : Option Text → Option Text
string_of none = none
string_of (some text) = if length text == 0 then none else some text

-- E_FAIL is `none`. The index may be the count itself.
unfoldable get_string : ℕ → Option CandidateWindow → Option (Option Text)
get_string i none = none
get_string i (some w) =
    if ltb (count w) i then none else some (string_of (get_candidate_string i w))

-- The pages, how many there are, and whether it is S_OK.
abbrev get_pages : ℕ → Option CandidateWindow → List ℕ × ℕ × Bool
get_pages size none = (0 ∷ [], 0, true)
get_pages size (some w) = get_page_index size w

-- `none` where the window finds no page.
abbrev get_page : Option CandidateWindow → Option ℕ
get_page none = some 0
get_page (some w) = get_current_page_int w

abbrev pub change_presenter :
    (CandidateWindow → CandidateWindow) → Option CandidatePresenter → Option CandidatePresenter
change_presenter f none = none
change_presenter f (some none) = some none
change_presenter f (some (some w)) = some (some (f w))

-- The request of _CandidateChangeNotification for a candidate that is selected.
abbrev pub finalize_request : Request
finalize_request = record {
  code = 0;
  wch = 0;
  state = record { category = category_candidate; function = function_finalize_candidatelist };
}

module _ (os : Os) (tsf : Tsf) where
  abbrev change_shown : (CandidateWindow → CandidateWindow) → Handler os tsf (Unit {0})
  change_shown f s = (some tt, record s { presenter = change_presenter f s.presenter })

  unfoldable pub element_set_selection : ℕ → Handler os tsf (Unit {0})
  element_set_selection index = change_shown (λ (w : CandidateWindow). (set_selection index w).1)

  unfoldable pub element_set_page_index : List ℕ → Handler os tsf (Unit {0})
  element_set_page_index pages = change_shown (set_page_index pages)

  -- Only a presenter is told. The mode stays.
  abbrev pub end_of_layout : Option CandidatePresenter → Handler os tsf (Unit {0})
  end_of_layout none = pure tt
  end_of_layout (some p) = end_candidate_list os tsf

  unfoldable pub layout_destroy_notification : Handler os tsf (Unit {0})
  layout_destroy_notification s = end_of_layout s.presenter s
