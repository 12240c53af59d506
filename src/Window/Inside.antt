-- ===== src/Window/Inside.antt =====
-- The selection of the candidate window stays inside the list
-- (tsf/SampleIME/CandidateWindow.cpp).
use mathlib.Core.List.{foldl}
use ohagey.Common.{
  ℕ, zero, suc, ◌+◌, ◌-◌, ◌≤◌, ◌<◌, ◌≡◌, refl, ◌⊎◌, inl, inr, Bool, true, false, not, ◌&&◌, ◌||◌,
  Option, none, some, List, [], ◌∷◌, arith, length, ltb, leb, ◌==◌, Bool-cases,
}
use ohagey.Window.{
  CandidateWindow, uint, minus_one, is_negative, count, per_page, get_at, get_current_page,
  get_current_page_int, adjust_page_index_for_selection, set_page_index, clear_list,
  current_page_has_empty_items,
}
use ohagey.Window.Current.{page_in-inside}
use ohagey.Window.Moves.{
  with_selection, move_selection, last_for_minus_one, set_selection, clamp, turn_page,
  move_page_from, move_page, is_line_move, set_selection_offset, paged_around, page_again,
  adjust_page_index, row_hit, hit_test, select_hit, on_l_button_down, ScrollCode, line_down,
  line_up, page_down, page_up, thumb_position, other_code, on_v_scroll,
}

-- What the keys, the mouse, the scroll bar and painting do to a window; an int is cut to its bits.
pub data Command : Type 0 where
  line_by : ℕ → Command
  page_by : ℕ → Command
  select_at : ℕ → Command
  scroll_to : ScrollCode → ℕ → Command
  click_in : (ℕ → Bool) → Command
  paint_page : ℕ → Command
  clear_all : Command

abbrev pub obey : CandidateWindow → Command → CandidateWindow
obey w (line_by offset) = (move_selection (uint offset) w).1
obey w (page_by offset) = (move_page (uint offset) w).1
obey w (select_at index) = (set_selection (uint index) w).1
obey w (scroll_to code pos) = on_v_scroll code pos w
obey w (click_in is_in_row) = (on_l_button_down is_in_row w).1
obey w (paint_page page) = (adjust_page_index page w).2
obey w clear_all = clear_list w

-- The list is no longer than an int, and the selection is in it or it is empty.
pub record IsInside (w : CandidateWindow) : Type 0 where
  pub small : count w < 0x80000000
  pub sized : 0 < per_page w
  pub within : (count w ≡ 0) × (length w.page_index ≤ 1) ⊎ (w.current_selection < count w)

adjust-IsInside : (w : CandidateWindow) → IsInside w → IsInside (adjust_page_index_for_selection w)
unfolding adjust_page_index_for_selection set_page_index
adjust-IsInside w h = elim (Bool-cases (ltb (count w) (per_page w))) [
  | inl e ↦ rw e h
  | inr e ↦ rw e (record {
    small = h.small;
    sized = h.sized;
    within = elim h.within [
      | inl (none_left, few) ↦ absurd (let p = h.sized in ground (arith, e))
      | inr i ↦ inr i
    ];
  })
]

move_selection-IsInside :
    (offset : ℕ) (w : CandidateWindow) → IsInside w → IsInside (move_selection offset w).1
unfolding move_selection
move_selection-IsInside offset w h =
    elim (Bool-cases (leb (count w) (uint (w.current_selection + offset)))) [
      | inl e ↦ rw e h
      | inr e ↦ rw e (record { small = h.small; sized = h.sized; within = inr (ground (arith, e)) })
    ]

set_selection-IsInside :
    (index : ℕ) (w : CandidateWindow) → IsInside w → IsInside (set_selection index w).1
unfolding set_selection
set_selection-IsInside index w h =
    let selected = last_for_minus_one index w in
    elim (Bool-cases (is_negative selected)) [
      | inl e ↦ rw e h
      | inr e ↦ rw e (elim (Bool-cases (leb (count w) selected)) [
        | inl f ↦ rw f h
        | inr f ↦ rw f (
            adjust-IsInside (with_selection selected w)
              (record { small = h.small; sized = h.sized; within = inr (ground (arith, f)) }))
      ])
    ]

clamp_inside :
    (total selection : ℕ) → 0 < total → total < 0x80000000 → clamp total selection < total
clamp_inside total selection some_left small = ground arith

turn_page-IsInside :
    (here next : ℕ) (w : CandidateWindow)
    → 0 < count w
    → IsInside w
    → IsInside (turn_page here next w)
unfolding turn_page
turn_page-IsInside here next w some_left h = record {
  small = h.small;
  sized = h.sized;
  within = inr (clamp_inside (count w) _ some_left h.small);
}

-- Without candidates there is no other page to go to.
no_other_page :
    (here offset pages : ℕ)
    → pages ≤ 1
    → here < pages
    → (offset == 0) ≡ false
    → offset < 0x100000000
    → leb pages (uint (here + offset)) ≡ true
no_other_page here offset pages few inside some_offset small = ground arith

move_page_from-IsInside :
    (here : Option ℕ) (offset : ℕ) (w : CandidateWindow)
    → ((p : ℕ) → here ≡ some p → p < length w.page_index)
    → (offset == 0) ≡ false
    → offset < 0x100000000
    → IsInside w
    → IsInside (move_page_from here offset w).1
unfolding move_page_from
move_page_from-IsInside none offset w known some_offset small h = h
move_page_from-IsInside (some p) offset w known some_offset small h =
    let next = uint (p + offset) in
    elim (Bool-cases (is_negative next || leb (length w.page_index) next)) [
      | inl e ↦ rw e h
      | inr e ↦ rw e (elim h.within [
        | inl (none_left, few) ↦ absurd (
            let no =
              no_other_page p offset (length w.page_index) few (known p refl) some_offset small in
            ground (arith, e, no))
        | inr i ↦ turn_page-IsInside p next w (omega arith) h
      ])
    ]

move_page-IsInside :
    (offset : ℕ) (w : CandidateWindow)
    → offset < 0x100000000
    → IsInside w
    → IsInside (move_page offset w).1
unfolding move_page
move_page-IsInside offset w small h = elim (Bool-cases (offset == 0)) [
  | inl e ↦ rw e h
  | inr e ↦ rw e (
      move_page_from-IsInside (get_current_page_int w) offset w
        (λ (p : ℕ) (known : get_current_page_int w ≡ some p).
          page_in-inside w.page_index w.current_selection p known)
        e small h)
]

set_selection_offset-IsInside :
    (offset : ℕ) (w : CandidateWindow) → IsInside w → IsInside (set_selection_offset offset w).1
unfolding set_selection_offset
set_selection_offset-IsInside offset w h =
    let next = uint (w.current_selection + offset) in
    elim (Bool-cases (leb (count w) next)) [
      | inl e ↦ rw e h
      | inr e ↦ rw e (
          let special = is_line_move offset w in
          let moved = record w {
            current_selection = next;
            dont_adjust = special || w.dont_adjust;
          } in
          let inside : IsInside moved = record {
            small = h.small;
            sized = h.sized;
            within = inr (ground (arith, e));
          } in
          elim (Bool-cases (special && leb (get_at w.page_index (length w.page_index - 1)) next)) [
            | inl f ↦ rw f inside
            | inr f ↦ rw f (adjust-IsInside moved inside)
          ])
    ]

row_hit-inside :
    (is_in_row : ℕ → Bool) (total index row rows hit : ℕ)
    → row_hit is_in_row total index row rows ≡ some hit
    → hit < total
unfolding row_hit
row_hit-inside is_in_row total index row zero hit e = grind arith
row_hit-inside is_in_row total index row (suc rows) hit e =
    let later = row_hit-inside is_in_row total (suc index) (suc row) rows hit in
    ground (arith, later, e)

select_hit-IsInside :
    (hit : Option ℕ) (w : CandidateWindow)
    → ((i : ℕ) → hit ≡ some i → i < count w)
    → IsInside w
    → IsInside (select_hit hit w).1
select_hit-IsInside none w known h = h
select_hit-IsInside (some i) w known h = record {
  small = h.small;
  sized = h.sized;
  within = inr (known i refl);
}

hit_test-inside :
    (is_in_row : ℕ → Bool) (here : Option ℕ) (w : CandidateWindow) (i : ℕ)
    → hit_test is_in_row here w ≡ some i
    → i < count w
unfolding hit_test
hit_test-inside is_in_row none w i e = grind arith
hit_test-inside is_in_row (some p) w i e = row_hit-inside is_in_row (count w) _ 0 (per_page w) i e

no_candidates_kept :
    (w : CandidateWindow) → IsInside w → count w ≡ 0 → adjust_page_index_for_selection w ≡ w
unfolding adjust_page_index_for_selection
no_candidates_kept w h none_left =
    let few : ltb (count w) (per_page w) ≡ true = (let p = h.sized in ground (arith, none_left)) in
    rw few refl

-- The selection is put back, and without candidates nothing is paged.
paged_around-IsInside :
    (selection : ℕ) (w : CandidateWindow) → IsInside w → IsInside (paged_around selection w)
unfolding adjust_page_index_for_selection set_page_index
paged_around-IsInside selection w h = elim (Bool-cases (ltb (count w) (per_page w))) [
  | inl e ↦ rw e h
  | inr e ↦ rw e (record {
    small = h.small;
    sized = h.sized;
    within = elim h.within [
      | inl (none_left, few) ↦ absurd (let p = h.sized in ground (arith, e))
      | inr i ↦ inr i
    ];
  })
]

settled-IsInside : (w : CandidateWindow) → IsInside w → IsInside (record w { dont_adjust = false })
settled-IsInside w h = record { small = h.small; sized = h.sized; within = h.within }

page_again-IsInside :
    (here : Option ℕ) (start : ℕ) (w : CandidateWindow)
    → IsInside w
    → IsInside (page_again here start w).2
page_again-IsInside none start w h = h
page_again-IsInside (some p) start w h = settled-IsInside w h

adjust_page_index-IsInside :
    (here : ℕ) (w : CandidateWindow) → IsInside w → IsInside (adjust_page_index here w).2
unfolding adjust_page_index
adjust_page_index-IsInside here w h =
    let start = get_at w.page_index here in
    let pages = length w.page_index in
    let last_start = uint (count w + (0x100000000 - per_page w)) in
    let last = paged_around last_start w in
    elim (Bool-cases (not (current_page_has_empty_items w) || w.dont_adjust)) [
      | inl e ↦ rw e h
      | inr e ↦
          rw e
            (elim (Bool-cases
              (ltb last_start start && ltb 0 pages && (here == uint (pages + minus_one)))) [
                | inl f ↦ rw f (
                    page_again-IsInside (get_current_page last) start last
                      (paged_around-IsInside last_start w h))
                | inr f ↦ rw f (elim (Bool-cases (ltb start (per_page w) && (here == 0))) [
                  | inl g ↦ rw g (settled-IsInside (paged_around 0 w) (paged_around-IsInside 0 w h))
                  | inr g ↦ rw g (settled-IsInside w h)
                ])
              ])
    ]

on_v_scroll-IsInside :
    (code : ScrollCode) (pos : ℕ) (w : CandidateWindow)
    → IsInside w
    → IsInside (on_v_scroll code pos w)
unfolding on_v_scroll
on_v_scroll-IsInside line_down pos w h = set_selection_offset-IsInside 1 w h
on_v_scroll-IsInside line_up pos w h = set_selection_offset-IsInside minus_one w h
on_v_scroll-IsInside page_down pos w h = move_page-IsInside 1 w (omega arith) h
on_v_scroll-IsInside page_up pos w h = move_page-IsInside minus_one w (omega arith) h
on_v_scroll-IsInside thumb_position pos w h = set_selection-IsInside pos w h
on_v_scroll-IsInside other_code pos w h = h

obey-IsInside : (w : CandidateWindow) (c : Command) → IsInside w → IsInside (obey w c)
unfolding clear_list
obey-IsInside w (line_by offset) h = move_selection-IsInside (uint offset) w h
obey-IsInside w (page_by offset) h = move_page-IsInside (uint offset) w (omega arith) h
obey-IsInside w (select_at index) h = set_selection-IsInside (uint index) w h
obey-IsInside w (scroll_to code pos) h = on_v_scroll-IsInside code pos w h
obey-IsInside w (click_in is_in_row) h =
    select_hit-IsInside (hit_test is_in_row (get_current_page_int w) w) w
      (hit_test-inside is_in_row (get_current_page_int w) w) h
obey-IsInside w (paint_page here) h = adjust_page_index-IsInside here w h
obey-IsInside w clear_all h = record {
  small = omega arith;
  sized = h.sized;
  within = inl (refl, omega arith);
}

-- From a window whose list is empty, or no longer than an int and with the selection in it, no
-- sequence of line, page, scroll and mouse commands, selections, paintings and clearings leaves the
-- selection outside a list that is not empty.
pub commands-IsInside :
    (w : CandidateWindow) (cs : List Command) → IsInside w → IsInside (foldl obey w cs)
commands-IsInside w [] h = h
commands-IsInside w (c ∷ cs) h = commands-IsInside (obey w c) cs (obey-IsInside w c h)
