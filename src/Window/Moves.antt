-- ===== src/Window/Moves.antt =====
-- The moves of the selection and the page in the candidate window
-- (tsf/SampleIME/CandidateWindow.cpp).
use ohagey.Common.{
  ℕ, zero, suc, ◌+◌, ◌-◌, ◌%◌, Bool, true, false, not, ◌&&◌, ◌||◌, Option, none, some, ltb, leb,
  ◌==◌, if◌then◌else◌, length,
}
use ohagey.Window.{
  CandidateWindow, uint, minus_one, is_negative, count, per_page, get_at, get_current_page,
  get_current_page_int, adjust_page_index_for_selection, current_page_has_empty_items,
}

abbrev pub with_selection : ℕ → CandidateWindow → CandidateWindow
with_selection n w = record w { current_selection = n }

-- What a move answers, and the window after it.
abbrev pub Moved : Type 0
Moved = Bool × CandidateWindow

unfoldable pub move_selection : ℕ → CandidateWindow → Moved
move_selection offset w =
    let next = uint (w.current_selection + offset) in
    if leb (count w) next
    then (false, w)
    else (true, record w { current_selection = next; dont_adjust = true })

-- -1 stands for the last candidate.
abbrev pub last_for_minus_one : ℕ → CandidateWindow → ℕ
last_for_minus_one index w = if index == minus_one then uint (count w + minus_one) else index

unfoldable pub set_selection : ℕ → CandidateWindow → Moved
set_selection index w =
    let selected = last_for_minus_one index w in
    if is_negative selected
    then (false, w)
    else if leb (count w) selected
    then (false, w)
    else (true, adjust_page_index_for_selection (with_selection selected w))

abbrev pub clamp : ℕ → ℕ → ℕ
clamp total selection = if ltb selection total then selection else uint (total + minus_one)

-- The move from a page to another one.
unfoldable pub turn_page : ℕ → ℕ → CandidateWindow → CandidateWindow
turn_page page next w =
    let start = get_at w.page_index page in
    let at_top = (w.current_selection % per_page w == 0) && (w.current_selection == start) in
    let offset = uint (w.current_selection + (0x100000000 - start)) in
    record w {
      current_selection = clamp (count w) (uint (get_at w.page_index next + offset));
      dont_adjust = at_top || w.dont_adjust;
    }

unfoldable pub move_page_from : Option ℕ → ℕ → CandidateWindow → Moved
move_page_from none offset w = (false, w)
move_page_from (some page) offset w =
    let next = uint (page + offset) in
    if is_negative next || leb (length w.page_index) next
    then (false, w)
    else (true, turn_page page next w)

unfoldable pub move_page : ℕ → CandidateWindow → Moved
move_page offset w =
    if offset == 0 then (true, w) else move_page_from (get_current_page_int w) offset w

abbrev pub select_in : Option ℕ → ℕ → CandidateWindow → Moved
select_in none pos w = (false, w)
select_in (some page) pos w = (true, with_selection (uint (get_at w.page_index page + pos)) w)

unfoldable pub set_selection_in_page : ℕ → CandidateWindow → Moved
set_selection_in_page pos w =
    if is_negative pos
    then (false, w)
    else if leb (count w) pos
    then (false, w)
    else select_in (get_current_page_int w) pos w

-- A move by one line on a list whose current page has empty items and that has another page.
abbrev pub is_line_move : ℕ → CandidateWindow → Bool
is_line_move offset w =
    (offset == 1 || offset == minus_one)
    && current_page_has_empty_items w
    && ltb 1 (length w.page_index)

unfoldable pub set_selection_offset : ℕ → CandidateWindow → Moved
set_selection_offset offset w =
    let next = uint (w.current_selection + offset) in
    if leb (count w) next
    then (false, w)
    else let special = is_line_move offset w in
      let last_page = get_at w.page_index (length w.page_index - 1) in
      let moved = record w { current_selection = next; dont_adjust = special || w.dont_adjust } in
      if special && leb last_page next
      then (true, moved)
      else (true, adjust_page_index_for_selection moved)

-- The pages around a selection, and the window's own selection again.
abbrev pub paged_around : ℕ → CandidateWindow → CandidateWindow
paged_around selection w =
    with_selection w.current_selection
      (adjust_page_index_for_selection (with_selection selection w))

-- The page, where it starts, and the window. The pages of a window that has some are found again.
abbrev pub Adjusted : Type 0
Adjusted = ℕ × ℕ × CandidateWindow

abbrev pub page_again : Option ℕ → ℕ → CandidateWindow → Adjusted
page_again none start w = (0, start, w)
page_again (some page) start w = (page, get_at w.page_index page, record w { dont_adjust = false })

-- What painting does before it draws.
unfoldable pub adjust_page_index : ℕ → CandidateWindow → Adjusted
adjust_page_index page w =
    let start = get_at w.page_index page in
    let pages = length w.page_index in
    let last_start = uint (count w + (0x100000000 - per_page w)) in
    let last = paged_around last_start w in
    if not (current_page_has_empty_items w) || w.dont_adjust
    then (page, start, w)
    else if ltb last_start start && ltb 0 pages && (page == uint (pages + minus_one))
    then page_again (get_current_page last) start last
    else if ltb start (per_page w) && (page == 0)
    then (page, start, record (paged_around 0 w) { dont_adjust = false })
    else (page, start, record w { dont_adjust = false })

-- The rows of a page, and the first one that the point is in.
unfoldable pub row_hit : (ℕ → Bool) → ℕ → ℕ → ℕ → ℕ → Option ℕ
row_hit is_in_row total index row zero = none
row_hit is_in_row total index row (suc rows) =
    let later = row_hit is_in_row total (suc index) (suc row) rows in
    if not (ltb index total) then none else if is_in_row row then some index else later

-- The click: the row of the page that it hits is selected.
unfoldable pub hit_test : (ℕ → Bool) → Option ℕ → CandidateWindow → Option ℕ
hit_test is_in_row none w = none
hit_test is_in_row (some page) w =
    row_hit is_in_row (count w) (get_at w.page_index page) 0 (per_page w)

abbrev pub select_hit : Option ℕ → CandidateWindow → Moved
select_hit none w = (false, w)
select_hit (some index) w = (true, with_selection index w)

-- Whether the callback is called for a selected candidate.
abbrev pub on_l_button_down : (ℕ → Bool) → CandidateWindow → Moved
on_l_button_down is_in_row w = select_hit (hit_test is_in_row (get_current_page_int w) w) w

pub data ScrollCode : Type 0 where
  line_down : ScrollCode
  line_up : ScrollCode
  page_down : ScrollCode
  page_up : ScrollCode
  thumb_position : ScrollCode
  other_code : ScrollCode

unfoldable pub on_v_scroll : ScrollCode → ℕ → CandidateWindow → CandidateWindow
on_v_scroll line_down pos w = (set_selection_offset 1 w).1
on_v_scroll line_up pos w = (set_selection_offset minus_one w).1
on_v_scroll page_down pos w = (move_page 1 w).1
on_v_scroll page_up pos w = (move_page minus_one w).1
on_v_scroll thumb_position pos w = (set_selection pos w).1
on_v_scroll other_code pos w = w
