-- ===== src/Window/Pages.antt =====
-- The pages that `_AdjustPageIndexForSelection` makes (tsf/SampleIME/CandidateWindow.cpp).
use ohagey.Common.{
  ℕ, zero, suc, ◌+◌, ◌-◌, ◌*◌, ◌/◌, ◌%◌, ◌≤◌, ◌<◌, ◌≡◌, refl, ◌∙◌, ap, true, false, List, [], ◌∷◌,
  arith, length, ltb, leb, ◌==◌, inl, inr, Bool-cases,
}
use ohagey.Window.{
  CandidateWindow, get_at, count, per_page, pages_from, new_page_count, new_page_index,
  adjust_page_index_for_selection, set_page_index,
}
use ohagey.Window.Moves.{set_selection}

-- Each page starts after the one before it, and at most one page's size after it.
abbrev pub Steps : ℕ → List ℕ → Type 0
Steps per [] = Unit {0}
Steps per (p ∷ []) = Unit {0}
Steps per (p ∷ q ∷ qs) = (p < q) × (q ≤ p + per) × Steps per (q ∷ qs)

abbrev pub last_start : List ℕ → ℕ
last_start [] = 0
last_start (p ∷ []) = p
last_start (p ∷ q ∷ qs) = last_start (q ∷ qs)

-- The first page starts at 0, a page starts at the selection, and the last one reaches the end.
abbrev pub IsPaged : ℕ → ℕ → ℕ → List ℕ → Type 0
IsPaged per total selection pages =
    (get_at pages 0 ≡ 0)
    × Steps per pages
    × ((i : ℕ) × (i < length pages) × (get_at pages i ≡ selection))
    × (total ≤ last_start pages + per)

pages_from-length : (start per n : ℕ) → length (pages_from start per n) ≡ n
unfolding pages_from
pages_from-length start per zero = refl
pages_from-length start per (suc n) = ap suc (pages_from-length (start + per) per n)

pages_from-at : (start per n i : ℕ) → i < n → get_at (pages_from start per n) i ≡ start + i * per
unfolding pages_from
pages_from-at start per zero i h = absurd (omega arith)
pages_from-at start per (suc n) zero h = omega arith
pages_from-at start per (suc n) (suc i) h =
    pages_from-at (start + per) per n i (omega arith) ∙ grind arith

pages_from-Steps : (start per n : ℕ) → 0 < per → Steps per (pages_from start per n)
unfolding pages_from
pages_from-Steps start per zero h = tt
pages_from-Steps start per (suc zero) h = tt
pages_from-Steps start per (suc (suc n)) h =
    (omega arith, omega arith, pages_from-Steps (start + per) per (suc n) h)

after_zero-Steps :
    (first per n : ℕ) → 0 < first → first ≤ per → 0 < per → Steps per (0 ∷ pages_from first per n)
unfolding pages_from
after_zero-Steps first per zero f le h = tt
after_zero-Steps first per (suc n) f le h = (f, omega arith, pages_from-Steps first per (suc n) h)

-- The four branches of the count: whether there are candidates before the page and after it.
data Around (total selection per n : ℕ) : Type 0 where
  alone : selection ≡ 0 → total ≤ selection + per → n ≡ 1 → Around total selection per n
  first_page :
      selection ≡ 0
      → selection + per < total
      → n ≡ (total - 1) / per + 1
      → Around total selection per n
  last_page :
      0 < selection
      → total ≤ selection + per
      → n ≡ 2 + (selection - 1) / per
      → Around total selection per n
  between :
      0 < selection
      → selection + per < total
      → n ≡ (total - 2) / per + 2
      → Around total selection per n

around : (total selection per : ℕ) → Around total selection per (new_page_count total selection per)
unfolding new_page_count
around total selection per = elim (Bool-cases (selection == 0)) [
  | inl e ↦ rw e (elim (Bool-cases (ltb (selection + per) total)) [
    | inl a ↦ rw a (first_page (ground (arith, e)) (ground (arith, a)) refl)
    | inr a ↦ rw a (alone (ground (arith, e)) (ground (arith, a)) refl)
  ])
  | inr e ↦ rw e (elim (Bool-cases (ltb (selection + per) total)) [
    | inl a ↦ rw a (between (ground (arith, e)) (ground (arith, a)) refl)
    | inr a ↦ rw a (last_page (ground (arith, e)) (ground (arith, a)) refl)
  ])
]

whole_count :
    (total selection per n : ℕ)
    → 0 < per
    → selection < total
    → selection % per ≡ 0
    → Around total selection per n
    → (selection / per < n) × (total ≤ n * per)
whole_count total selection per n h inside r (alone s t e) = grind arith
whole_count total selection per n h inside r (first_page s t e) = grind arith
whole_count total selection per n h inside r (last_page s t e) = grind arith
whole_count total selection per n h inside r (between s t e) = grind arith

part_count :
    (total selection per n : ℕ)
    → 0 < per
    → selection < total
    → 0 < selection % per
    → Around total selection per n
    → (suc (selection / per) < n) × (total ≤ selection % per + (n - 1) * per)
part_count total selection per n h inside r (alone s t e) = grind arith
part_count total selection per n h inside r (first_page s t e) = grind arith
part_count total selection per n h inside r (last_page s t e) = grind arith
part_count total selection per n h inside r (between s t e) = grind arith

last_at : (start per n : ℕ) → last_start (pages_from start per (suc n)) ≡ start + n * per
unfolding pages_from
last_at start per zero = omega arith
last_at start per (suc n) = last_at (start + per) per n ∙ grind arith

after_zero-last :
    (first per n : ℕ) → last_start (0 ∷ pages_from first per (suc n)) ≡ first + n * per
unfolding pages_from
after_zero-last first per zero = omega arith
after_zero-last first per (suc n) = last_at (first + per) per n ∙ grind arith

whole-IsPaged :
    (total selection per n : ℕ)
    → 0 < per
    → selection % per ≡ 0
    → selection / per < n
    → total ≤ n * per
    → IsPaged per total selection (pages_from 0 per n)
whole-IsPaged total selection per zero h r inside reach = absurd (omega arith)
whole-IsPaged total selection per (suc n) h r inside reach =
    let at = pages_from-at 0 per (suc n) (selection / per) inside in
    (
      pages_from-at 0 per (suc n) 0 (omega arith) ∙ grind arith,
      pages_from-Steps 0 per (suc n) h,
      (selection / per, rw (pages_from-length 0 per (suc n)) inside, at ∙ grind arith),
      rw (last_at 0 per n) (grind arith),
    )

part-IsPaged :
    (total selection per n : ℕ)
    → 0 < per
    → 0 < selection % per
    → selection / per < n
    → total ≤ selection % per + n * per
    → IsPaged per total selection (0 ∷ pages_from (selection % per) per n)
part-IsPaged total selection per zero h r inside reach = absurd (omega arith)
part-IsPaged total selection per (suc n) h r inside reach =
    let first = selection % per in
    let at = pages_from-at first per (suc n) (selection / per) inside in
    let size = pages_from-length first per (suc n) in
    (
      refl,
      after_zero-Steps first per (suc n) r (omega arith) h,
      (suc (selection / per), rw size (omega arith), at ∙ grind arith),
      rw (after_zero-last first per n) (grind arith),
    )

adjusted-IsPaged :
    (total selection per : ℕ)
    → 0 < per
    → selection < total
    → IsPaged per total selection
        (new_page_index (selection % per) per (new_page_count total selection per))
adjusted-IsPaged total selection per h inside =
    let n = new_page_count total selection per in
    let counted = around total selection per in
    elim (Bool-cases (selection % per == 0)) [
      | inl e ↦ rw e (
          let r : selection % per ≡ 0 = ground (arith, e) in
          let (within, reach) = whole_count total selection per n h inside r counted in
          whole-IsPaged total selection per n h r within reach)
      | inr e ↦ rw e (
          let r : 0 < selection % per = ground (arith, e) in
          let (within, reach) = part_count total selection per n h inside r counted in
          part-IsPaged total selection per (n - 1) h r (omega arith) reach)
    ]

-- On a list that fills a page, selecting a candidate succeeds and makes pages of which the first
-- starts at the first candidate, one starts at the selection, each starts at most a page's size
-- after the one before, and the last reaches the end of the list.
pub set_selection-IsPaged :
    (w : CandidateWindow) (index : ℕ)
    → 0 < per_page w
    → per_page w ≤ count w
    → count w < 0x80000000
    → index < count w
    → let moved = set_selection index w in
      (moved.0 ≡ true)
      × (moved.1.current_selection ≡ index)
      × IsPaged (per_page w) (count w) index moved.1.page_index
unfolding set_selection adjust_page_index_for_selection set_page_index
set_selection-IsPaged w index h full small inside =
    let e1 : (index == 0xffffffff) ≡ false = ground arith in
    let e2 : leb 0x80000000 index ≡ false = ground arith in
    let e3 : leb (count w) index ≡ false = ground arith in
    let e4 : ltb (count w) (per_page w) ≡ false = ground arith in
    rw e1
      (rw e2 (rw e3 (rw e4 (refl, refl, adjusted-IsPaged (count w) index (per_page w) h inside))))
