-- ===== src/Window/Tests.antt =====
-- The candidate window at concrete inputs.
use ohagey.Common.{ℕ, zero, suc, ◌<◌, ◌≡◌, refl, inr, true, false, none, some, List, [], ◌∷◌, arith}
use ohagey.Common.Text.{wide}
use ohagey.Composer.{CandidateListItem}
use ohagey.Window.{
  CandidateWindow, minus_one, count, per_page, get_at, get_current_page, get_current_page_int,
  pages_from, new_page_count, get_selected_candidate_string, set_page_index, pages_reached,
}
use ohagey.Window.Moves.{move_selection, set_selection, set_selection_in_page}
use ohagey.Window.Pages.{IsPaged, set_selection-IsPaged}
use ohagey.Window.Inside.{IsInside, commands-IsInside, obey, line_by, page_by, paint_page}
use ohagey.Window.Current.{get_current_page-IsAround, IsAround, set_selection_in_page-past}

abbrev items : ℕ → List CandidateListItem
items zero = []
items (suc n) = record { item_string = wide "川"; find_key_code = [] } ∷ items n

abbrev digits : List ℕ
digits = 1 ∷ 2 ∷ 3 ∷ 4 ∷ 5 ∷ 6 ∷ 7 ∷ 8 ∷ 9 ∷ 0 ∷ []

-- 15 candidates on two pages, the second one showing.
abbrev fifteen : CandidateWindow
fifteen = record {
  candidate_list = items 15;
  current_selection = 10;
  page_index = 0 ∷ 10 ∷ [];
  index_range = digits;
  dont_adjust = false;
}

-- With 25 candidates and the sixth one selected there is a page that is past the end.
empty_page :
    (set_selection 5 (record fifteen { candidate_list = items 25 })).1.page_index
    ≡ 0 ∷ 5 ∷ 15 ∷ 25 ∷ []
unfolding set_selection ohagey.Window.adjust_page_index_for_selection set_page_index new_page_count
    pages_from
empty_page = refl

set_selection-IsPaged_example :
    ((set_selection 5 fifteen).0 ≡ true)
    × ((set_selection 5 fifteen).1.current_selection ≡ 5)
    × IsPaged 10 15 5 (set_selection 5 fifteen).1.page_index
set_selection-IsPaged_example =
    set_selection-IsPaged fifteen 5 (omega arith) (omega arith) (omega arith) (omega arith)

commands-IsInside_example :
    IsInside (obey (obey (obey fifteen (line_by 1)) (page_by minus_one)) (paint_page 0))
commands-IsInside_example =
    commands-IsInside fifteen (line_by 1 ∷ page_by minus_one ∷ paint_page 0 ∷ [])
      (record { small = omega arith; sized = omega arith; within = inr (omega arith) })

get_current_page-IsAround_example :
    (n : ℕ) × (get_current_page fifteen ≡ some n) × (n < 2) × IsAround (0 ∷ 10 ∷ []) 10 n
get_current_page-IsAround_example = get_current_page-IsAround fifteen (omega arith) (omega arith)

second_page : get_current_page_int fifteen ≡ some 1
unfolding pages_reached
second_page = refl

-- Key 6, the first place past the end, from which the up arrow comes back.
set_selection_in_page-past_example :
    ((set_selection_in_page 5 fifteen).0 ≡ true)
    × (get_selected_candidate_string (set_selection_in_page 5 fifteen).1 ≡ none)
    × ((move_selection 1 (set_selection_in_page 5 fifteen).1).0 ≡ false)
    × ((move_selection minus_one (set_selection_in_page 5 fifteen).1).0 ≡ true)
set_selection_in_page-past_example =
    set_selection_in_page-past fifteen 1 5 second_page (omega arith) (omega arith) (omega arith)
      (omega arith)
