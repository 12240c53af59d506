-- ===== src/Window/Current.antt =====
-- `_GetCurrentPage` and `_SetSelectionInPage` (tsf/SampleIME/CandidateWindow.cpp).
use ohagey.Common.{
  ℕ, suc, ◌+◌, ◌≤◌, ◌<◌, ◌≡◌, refl, sym, ◌⊎◌, inl, inr, true, false, none, some, List, [], ◌∷◌,
  arith, length, ltb, leb, ◌==◌, Bool-cases,
}
use ohagey.Window.{
  CandidateWindow, uint, minus_one, is_negative, count, get_at, page_in, as_int, get_current_page,
  get_current_page_int, pages_reached, get_selected_candidate_string,
}
use ohagey.Window.Moves.{set_selection_in_page, move_selection}

pages_reached-le : (pages : List ℕ) (selection : ℕ) → pages_reached pages selection ≤ length pages
unfolding pages_reached
pages_reached-le [] selection = omega arith
pages_reached-le (p ∷ ps) selection = elim (Bool-cases (ltb selection p)) [
  | inl e ↦ rw e (omega arith)
  | inr e ↦ rw e (let le = pages_reached-le ps selection in omega arith)
]

pub page_in-inside :
    (pages : List ℕ) (selection here : ℕ)
    → as_int (page_in pages selection) ≡ some here
    → here < length pages
page_in-inside [] selection here e = grind arith
page_in-inside (p ∷ ps) selection here e = let le = pages_reached-le ps selection in grind arith

-- The page that is reached starts at the selection or before it, the next one after it.
abbrev pub IsAround : List ℕ → ℕ → ℕ → Type 0
IsAround pages selection n =
    (get_at pages n ≤ selection) × ((suc n ≡ length pages) ⊎ (selection < get_at pages (suc n)))

reached-IsAround :
    (first : ℕ) (pages : List ℕ) (selection : ℕ)
    → first ≤ selection
    → IsAround (first ∷ pages) selection (pages_reached pages selection)
unfolding pages_reached
reached-IsAround first [] selection le = (le, inl refl)
reached-IsAround first (p ∷ ps) selection le = elim (Bool-cases (ltb selection p)) [
  | inl e ↦ rw e (le, inr (ground (arith, e)))
  | inr e ↦ rw e (
      let (here, later) = reached-IsAround p ps selection (ground (arith, e)) in
      (here, elim later [ inl last ↦ inl (omega arith) | inr next ↦ inr next ]))
]

page_in-IsAround :
    (pages : List ℕ) (selection : ℕ)
    → 0 < length pages
    → get_at pages 0 ≤ selection
    → (n : ℕ) × (page_in pages selection ≡ some n) × (n < length pages) × IsAround pages selection n
page_in-IsAround [] selection some_page first = absurd (omega arith)
page_in-IsAround (p ∷ ps) selection some_page first =
    let le = pages_reached-le ps selection in
    (pages_reached ps selection, refl, omega arith, reached-IsAround p ps selection first)

-- With pages of which the first starts at the selection or before it, the current page is one of
-- them that starts there too, and it is the last one or the next one starts after the selection.
pub get_current_page-IsAround :
    (w : CandidateWindow)
    → 0 < length w.page_index
    → get_at w.page_index 0 ≤ w.current_selection
    → (n : ℕ) × (get_current_page w ≡ some n)
      × (n < length w.page_index)
      × IsAround w.page_index w.current_selection n
get_current_page-IsAround w some_page first =
    page_in-IsAround w.page_index w.current_selection some_page first

-- Where the current page is known and the places count as an int, a number key past the last
-- candidate of the list is taken, when the list has so many candidates as the key's position needs:
-- the selection leaves the list, no string is selected, the down arrow is refused, and the up arrow
-- is refused too unless the selection is the first place past the end.
pub set_selection_in_page-past :
    (w : CandidateWindow) (here pos : ℕ)
    → get_current_page_int w ≡ some here
    → pos < count w
    → count w < 0x80000000
    → count w ≤ get_at w.page_index here + pos
    → get_at w.page_index here + pos < 0x80000000
    → let moved = set_selection_in_page pos w in
      (moved.0 ≡ true)
      × (get_selected_candidate_string moved.1 ≡ none)
      × ((move_selection 1 moved.1).0 ≡ false)
      × ((move_selection minus_one moved.1).0 ≡ (get_at w.page_index here + pos == count w))
unfolding set_selection_in_page get_selected_candidate_string move_selection
set_selection_in_page-past w here pos e counted small past fits =
    let e1 : is_negative pos ≡ false = ground arith in
    let e2 : leb (count w) pos ≡ false = ground arith in
    let at = get_at w.page_index here + pos in
    let e3 : leb (count w) (uint at) ≡ true = ground arith in
    let e4 : leb (count w) (uint (uint at + 1)) ≡ true = ground arith in
    let up : ((move_selection minus_one (set_selection_in_page pos w).1).0) ≡ (at == count w) =
      elim (Bool-cases (at == count w)) [
        | inl d ↦
            let e5 : leb (count w) (uint (uint at + minus_one)) ≡ false = ground (arith, d) in
            rw e1 (rw e2 (rw e (rw e5 (sym d))))
        | inr d ↦
            let e5 : leb (count w) (uint (uint at + minus_one)) ≡ true = ground (arith, d) in
            rw e1 (rw e2 (rw e (rw e5 (sym d))))
      ] in
    (
      rw e1 (rw e2 (rw e refl)),
      rw e1 (rw e2 (rw e (rw e3 refl))),
      rw e1 (rw e2 (rw e (rw e4 refl))),
      up,
    )
