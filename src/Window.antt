-- ===== src/Window.antt =====
-- The candidate window (tsf/SampleIME/CandidateWindow.cpp): its list, pages and selection. A UINT or
-- an int is its bit pattern; the scroll bar is the desktop's, which does nothing.
pub mod Moves
pub mod Pages
pub mod Inside
pub mod Current
mod Tests
use ohagey.Common.{
  ℕ, zero, suc, ◌+◌, ◌-◌, ◌*◌, ◌/◌, ◌%◌, Bool, true, false, not, ◌&&◌, ◌||◌, Option, none, some,
  List, [], ◌∷◌, ◌++◌, ltb, leb, ◌==◌, if◌then◌else◌, length, take,
}
use ohagey.Common.Text.{Text}
use ohagey.Composer.{CandidateListItem}

-- `_candidateList`, `_currentSelection`, `_PageIndex`, the entries of `_pIndexRange`, and
-- `_dontAdjustOnEmptyItemPage`.
pub record CandidateWindow : Type 0 where
  pub candidate_list : List CandidateListItem
  pub current_selection : ℕ
  pub page_index : List ℕ
  pub index_range : List ℕ
  pub dont_adjust : Bool

abbrev pub uint : ℕ → ℕ
uint n = n % 0x100000000

abbrev pub minus_one : ℕ
minus_one = 0xffffffff

-- The int with this bit pattern is below 0.
abbrev pub is_negative : ℕ → Bool
is_negative n = leb 0x80000000 n

abbrev pub count : CandidateWindow → ℕ
count w = length w.candidate_list

abbrev pub per_page : CandidateWindow → ℕ
per_page w = length w.index_range

-- GetAt, whose index is always inside.
abbrev pub get_at : List ℕ → ℕ → ℕ
get_at [] i = 0
get_at (n ∷ ns) zero = n
get_at (n ∷ ns) (suc i) = get_at ns i

abbrev pub new_window : List ℕ → CandidateWindow
new_window range = record {
  candidate_list = [];
  current_selection = 0;
  page_index = [];
  index_range = range;
  dont_adjust = false;
}

-- `isAddFindKeyCode` says whether the reading is kept; `new` is taken to succeed.
unfoldable pub add_string : CandidateListItem → Bool → CandidateWindow → CandidateWindow
add_string item is_add w =
    let kept = if is_add then item else record item { find_key_code = [] } in
    record w { candidate_list = w.candidate_list ++ kept ∷ [] }

unfoldable pub clear_list : CandidateWindow → CandidateWindow
clear_list w = record w { current_selection = 0; candidate_list = []; page_index = [] }

-- The string at an index, `none` for a null pointer.
abbrev pub item_at : List CandidateListItem → ℕ → Option Text
item_at [] i = none
item_at (c ∷ cs) zero = some c.item_string
item_at (c ∷ cs) (suc i) = item_at cs i

unfoldable pub get_candidate_string : ℕ → CandidateWindow → Option Text
get_candidate_string i w =
    if is_negative i then none else if leb (count w) i then none else item_at w.candidate_list i

unfoldable pub get_selected_candidate_string : CandidateWindow → Option Text
get_selected_candidate_string w =
    if leb (count w) w.current_selection then none else item_at w.candidate_list w.current_selection

-- The loop over the pages after the first: how many of them start at the selection or before it.
unfoldable pub pages_reached : List ℕ → ℕ → ℕ
pages_reached [] selection = 0
pages_reached (page ∷ pages) selection =
    let rest = pages_reached pages selection in if ltb selection page then 0 else suc rest

abbrev pub page_in : List ℕ → ℕ → Option ℕ
page_in [] selection = none
page_in (page ∷ pages) selection = some (pages_reached pages selection)

-- The two _GetCurrentPage: the second one casts to int.
abbrev pub get_current_page : CandidateWindow → Option ℕ
get_current_page w = page_in w.page_index w.current_selection

abbrev pub as_int : Option ℕ → Option ℕ
as_int none = none
as_int (some page) = if is_negative page then none else some page

abbrev pub get_current_page_int : CandidateWindow → Option ℕ
get_current_page_int w = as_int (get_current_page w)

-- The array, the page count, and whether it is S_OK.
unfoldable pub get_page_index : ℕ → CandidateWindow → List ℕ × ℕ × Bool
get_page_index size w =
    let pages = length w.page_index in
    if ltb pages size
    then (take pages w.page_index, pages, true)
    else (take size w.page_index, pages, false)

unfoldable pub set_page_index : List ℕ → CandidateWindow → CandidateWindow
set_page_index pages w = record w { page_index = pages }

-- How many pages there are around the selection.
unfoldable pub new_page_count : ℕ → ℕ → ℕ → ℕ
new_page_count total selection per =
    let is_before = not (selection == 0) in
    let is_after = ltb (selection + per) total in
    if not is_before && not is_after
    then 1
    else if not is_before && is_after
    then (total - 1) / per + 1
    else if is_before && not is_after
    then 2 + (selection - 1) / per
    else (total - 2) / per + 2

-- The loop that adds the size of a page to the page before.
unfoldable pub pages_from : ℕ → ℕ → ℕ → List ℕ
pages_from start per zero = []
pages_from start per (suc n) = start ∷ pages_from (start + per) per n

-- A first page that is not whole comes before the page at `selection % per`.
abbrev pub new_page_index : ℕ → ℕ → ℕ → List ℕ
new_page_index first per n =
    if first == 0 then pages_from 0 per n else 0 ∷ pages_from first per (n - 1)

unfoldable pub adjust_page_index_for_selection : CandidateWindow → CandidateWindow
adjust_page_index_for_selection w =
    if ltb (count w) (per_page w)
    then w
    else let n = new_page_count (count w) w.current_selection (per_page w) in
      set_page_index (new_page_index (w.current_selection % per_page w) (per_page w) n) w

unfoldable pub has_empty_items : ℕ → CandidateWindow → Bool
has_empty_items page w =
    let pages = length w.page_index in
    (page == 0 || page == uint (pages + minus_one))
    && ltb 0 pages
    && ltb (uint (count w + (0x100000000 - per_page w))) (get_at w.page_index page)

-- Without a current page the caller's FALSE is left.
abbrev pub empty_items_of : Option ℕ → CandidateWindow → Bool
empty_items_of none w = false
empty_items_of (some page) w = has_empty_items page w

abbrev pub current_page_has_empty_items : CandidateWindow → Bool
current_page_has_empty_items w = empty_items_of (get_current_page w) w
