-- ===== src/Romaji/State.antt =====
-- The state of `RomajiKana` (tsf/Ohagey/RomajiKana.cpp) under its operations.
use mathlib.Core.List.{foldl}
use ohagey.Common.{
  ℕ, ◌+◌, ◌≤◌, ◌<◌, ◌≢◌, ◌⊎◌, All, ◌≡◌, refl, sym, ap, ◌∙◌, inl, inr, true, false, List, [], ◌∷◌,
  ◌++◌, append-nil, append_assoc, arith, if◌then◌else◌, leb, ◌&&◌, Bool-cases, map, pop_back,
  pop_back-append,
}
use ohagey.Common.Text.{Text, text_eq}
use ohagey.Romaji.Rules.{is_lower}
use ohagey.Romaji.Kana.{
  RomajiKana, fresh, rebuild_loop, rebuild, rebuilt, is_upper, is_accepted, lower_case, append,
  backspace, clear, feed, romaji_to_kana, romaji_to_display, reading, display,
}

-- Kana and pending letters are those of the romaji.
abbrev pub IsRebuilt : RomajiKana → Type 0
IsRebuilt c = c ≡ rebuilt c.romaji

pub data Edit : Type 0 where
  key : ℕ → Edit
  erase : Edit
  reset : Edit

abbrev pub edit : RomajiKana → Edit → RomajiKana
edit c (key ch) = (append ch c).0
edit c erase = backspace c
edit c reset = clear c

pub fresh-IsRebuilt : IsRebuilt fresh
unfolding rebuilt rebuild rebuild_loop
fresh-IsRebuilt = refl

rebuilt-IsRebuilt : (romaji : Text) → IsRebuilt (rebuilt romaji)
unfolding rebuilt
rebuilt-IsRebuilt romaji = refl

pub append_accepted :
    (ch : ℕ) (c : RomajiKana)
    → is_accepted ch ≡ true
    → append ch c ≡ (rebuilt (c.romaji ++ lower_case ch ∷ []), true)
unfolding append
append_accepted ch c a = rw a

pub append_rejected : (ch : ℕ) (c : RomajiKana) → is_accepted ch ≡ false → append ch c ≡ (c, false)
unfolding append
append_rejected ch c r = rw r

edit-IsRebuilt : (c : RomajiKana) (e : Edit) → IsRebuilt c → IsRebuilt (edit c e)
edit-IsRebuilt c (key ch) h = elim (Bool-cases (is_accepted ch)) [
  | inl a ↦ rw (append_accepted ch c a, edit) (rebuilt-IsRebuilt (c.romaji ++ lower_case ch ∷ []))
  | inr r ↦ rw (append_rejected ch c r, edit) h
]
edit-IsRebuilt c erase h = elim (Bool-cases (text_eq c.romaji [])) [
  | inl a ↦ unfold backspace in rw (a, backspace) h
  | inr r ↦ unfold backspace in rw (r, backspace) (rebuilt-IsRebuilt (pop_back c.romaji))
]
edit-IsRebuilt c reset h = unfold clear in fresh-IsRebuilt

edits-IsRebuilt : (c : RomajiKana) (es : List Edit) → IsRebuilt c → IsRebuilt (foldl edit c es)
edits-IsRebuilt c [] h = h
edits-IsRebuilt c (e ∷ es) h = edits-IsRebuilt (edit c e) es (edit-IsRebuilt c e h)

-- After any keys, backspaces and clears, the kana and the pending letters of the converter are
-- exactly those that a rebuild from its romaji gives.
pub run-IsRebuilt : (es : List Edit) → IsRebuilt (foldl edit fresh es)
run-IsRebuilt es = edits-IsRebuilt fresh es fresh-IsRebuilt

romaji-rebuilt : (romaji : Text) → (rebuilt romaji).romaji ≡ romaji
unfolding rebuilt
romaji-rebuilt romaji = refl

text_eq-snoc : (s : Text) (x : ℕ) → text_eq (s ++ x ∷ []) [] ≡ false
text_eq-snoc [] x = refl
text_eq-snoc (y ∷ s) x = refl

backspace-rebuilt : (s : Text) (x : ℕ) → backspace (rebuilt (s ++ x ∷ [])) ≡ rebuilt s
unfolding backspace
backspace-rebuilt s x = rw romaji-rebuilt (rw text_eq-snoc (ap rebuilt (pop_back-append s x)))

-- A key is taken and stored as `kept` at the end of the romaji, and a backspace undoes it.
abbrev pub Stores : ℕ → ℕ → RomajiKana → Type 0
Stores ch kept c =
    ((append ch c).1 ≡ true)
    × ((append ch c).0.romaji ≡ c.romaji ++ kept ∷ [])
    × (backspace (append ch c).0 ≡ c)

-- The signs on the keys that the kana table has.
abbrev pub signs : Text
signs = b'-' ∷ b',' ∷ b'.' ∷ b'/' ∷ b'[' ∷ b']' ∷ 0x27 ∷ []

accepted-Stores :
    (ch kept : ℕ) (c : RomajiKana)
    → IsRebuilt c
    → is_accepted ch ≡ true
    → lower_case ch ≡ kept
    → Stores ch kept c
accepted-Stores ch kept c h a e = rw (append_accepted ch c a) (
  refl,
  romaji-rebuilt (c.romaji ++ lower_case ch ∷ []) ∙ ap (λ (x : ℕ). c.romaji ++ x ∷ []) e,
  backspace-rebuilt c.romaji (lower_case ch) ∙ sym h,
)

not_key :
    (ch : ℕ)
    → (ch < b'A') ⊎ ((b'Z' < ch) × (ch < b'a')) ⊎ (b'z' < ch)
    → All (λ (sign : ℕ). ch ≢ sign) signs
    → is_accepted ch ≡ false
unfolding is_accepted is_lower is_upper
not_key ch apart (minus, (comma, (stop, (slash, (opens, (closes, (quote, _))))))) = elim apart [
  | inl below ↦ ground arith
  | inr other ↦ elim other [
    | inl between ↦ ground (arith, between.0, between.1)
    | inr above ↦ ground arith
  ]
]

-- Where the kana are those of the romaji: a letter from a to z and each of the signs - , . / [ ] '
-- is stored as it is, a letter from A to Z as the letter 32 code units further, and a backspace
-- brings back the whole state; any other key is refused and changes nothing.
pub append_cases :
    (ch : ℕ) (c : RomajiKana)
    → IsRebuilt c
    → (b'a' ≤ ch → ch ≤ b'z' → Stores ch ch c)
      × (b'A' ≤ ch → ch ≤ b'Z' → Stores ch (ch + 0x20) c)
      × All (λ (sign : ℕ). Stores sign sign c) signs
      × ((ch < b'A') ⊎ ((b'Z' < ch) × (ch < b'a')) ⊎ (b'z' < ch)
          → All (λ (sign : ℕ). ch ≢ sign) signs
          → append ch c ≡ (c, false))
unfolding is_accepted lower_case is_lower is_upper
append_cases ch c h = (
  λ low high. accepted-Stores ch ch c h (ground arith) (ground arith),
  λ low high. accepted-Stores ch (ch + 0x20) c h (ground arith) (ground arith),
  (
    accepted-Stores b'-' b'-' c h refl refl,
    (
      accepted-Stores b',' b',' c h refl refl,
      (
        accepted-Stores b'.' b'.' c h refl refl,
        (
          accepted-Stores b'/' b'/' c h refl refl,
          (
            accepted-Stores b'[' b'[' c h refl refl,
            (
              accepted-Stores b']' b']' c h refl refl,
              (accepted-Stores 0x27 0x27 c h refl refl, tt),
            ),
          ),
        ),
      ),
    ),
  ),
  λ apart others. append_rejected ch c (not_key ch apart others),
)

-- What the converter keeps of a text: the letters that it takes, in lower case.
abbrev pub letters : Text → Text
letters [] = []
letters (c ∷ s) = if is_accepted c then lower_case c ∷ letters s else letters s

feed_from : (r s : Text) → foldl (λ c ch. (append ch c).0) (rebuilt r) s ≡ rebuilt (r ++ letters s)
unfolding rebuilt
feed_from r [] = rw append-nil
feed_from r (x ∷ s) = elim (Bool-cases (is_accepted x)) [
  | inl a ↦ rw (append_accepted x (rebuilt r) a) (
      rw a (
        rw romaji-rebuilt (
          feed_from (r ++ lower_case x ∷ []) s
          ∙ ap rebuilt (append_assoc r (lower_case x ∷ []) (letters s)))))
  | inr n ↦ rw (append_rejected x (rebuilt r) n) (rw n (feed_from r s))
]

-- Feeding a text letter by letter is one rebuild from the letters of it that are accepted.
pub feed-eq-rebuilt : (s : Text) → feed s ≡ rebuilt (letters s)
unfolding feed
feed-eq-rebuilt s = ap (λ c. foldl (λ c ch. (append ch c).0) c s) fresh-IsRebuilt ∙ feed_from [] s

lower_case_accepted : (c : ℕ) → is_accepted (lower_case c) ≡ is_accepted c
unfolding is_accepted lower_case is_lower is_upper
lower_case_accepted c = ground arith

lower_case_idem : (c : ℕ) → lower_case (lower_case c) ≡ lower_case c
unfolding lower_case is_upper
lower_case_idem c = ground arith

letters-lower_case : (s : Text) → letters (map lower_case s) ≡ letters s
letters-lower_case [] = refl
letters-lower_case (c ∷ s) =
    rw (lower_case_accepted c) (rw (lower_case_idem c) (rw (letters-lower_case s)))

-- A letter from A to Z as the letter 32 code units further, anything else as it is.
abbrev pub folded : ℕ → ℕ
folded ch = if leb b'A' ch && leb ch b'Z' then ch + 0x20 else ch

folded-lower_case : (ch : ℕ) → folded ch ≡ lower_case ch
unfolding lower_case is_upper
folded-lower_case ch = ground arith

map-folded : (s : Text) → map folded s ≡ map lower_case s
map-folded [] = refl
map-folded (ch ∷ s) = rw (folded-lower_case ch, map-folded s) refl

-- A text gives the reading and the display of the same text with its letters from A to Z replaced
-- by those from a to z.
pub romaji_case :
    (s : Text)
    → (romaji_to_kana (map folded s) ≡ romaji_to_kana s)
      × (romaji_to_display (map folded s) ≡ romaji_to_display s)
unfolding romaji_to_kana romaji_to_display
romaji_case s =
    let same : feed (map folded s) ≡ feed s =
      ap feed (map-folded s)
      ∙ feed-eq-rebuilt (map lower_case s)
      ∙ ap rebuilt (letters-lower_case s)
      ∙ sym (feed-eq-rebuilt s) in
    (ap reading same, ap display same)
