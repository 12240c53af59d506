-- ===== src/Romaji/Buffer/Shown.antt =====
-- `BufferDisplay` and `BufferReading` (tsf/Ohagey/RomajiKana.cpp): what is shown and what is sent.
use ohagey.Common.{
  ◌≤◌, ◌≡◌, refl, sym, ap, ◌∙◌, inl, inr, Bool, true, false, [], ◌++◌, append-nil, arith,
  if◌then◌else◌, All, All-append, Bool-cases,
}
use ohagey.Common.Text.{Text, wide, text_eq}
use ohagey.Romaji.Kana.{rebuild, rebuilt, reading, display, romaji_to_kana, romaji_to_display}
use ohagey.Romaji.Table.{IsWide}
use ohagey.Romaji.State.{letters, feed-eq-rebuilt}
use ohagey.Romaji.Output.{IsPending, rebuild_output, rebuild_pending}
use ohagey.Romaji.Pending.{pending_stable}
use ohagey.Romaji.Rounds.{is_plain}
use ohagey.Romaji.Buffer.{buffer_display, buffer_reading}
use ohagey.Romaji.Buffer.Split.{IsAscii, settled_part, pending_part}
use ohagey.Romaji.Buffer.Typing.{IsLetter, letters-IsAscii, letters_self}
use ohagey.Romaji.Buffer.Whole.{typed, typed-eq-rebuild}

-- A lone `n` closes to ん in the reading and the display; other letters are shown and not sent.
abbrev pub closed : Text → Text
closed p = if text_eq p (wide "n") then wide "ん" else []

abbrev pub shown : Text → Text
shown p = if text_eq p (wide "n") then wide "ん" else p

romaji_to_kana_lem :
    (s : Text) → romaji_to_kana s ≡ (rebuild (letters s)).0 ++ closed (rebuild (letters s)).1
unfolding romaji_to_kana reading rebuilt
romaji_to_kana_lem s =
    ap reading (feed-eq-rebuilt s)
    ∙ at (rebuild (letters s)).0 (text_eq (rebuild (letters s)).1 (wide "n"))
  where
    at :
        (k : Text) (b : Bool) → (if b then k ++ wide "ん" else k) ≡ k ++ (if b then wide "ん" else [])
    at k true = refl
    at k false = sym (append-nil k)

romaji_to_display_lem :
    (s : Text) → romaji_to_display s ≡ (rebuild (letters s)).0 ++ shown (rebuild (letters s)).1
unfolding romaji_to_display display rebuilt
romaji_to_display_lem s =
    ap display (feed-eq-rebuilt s)
    ∙ at (rebuild (letters s)).0 (rebuild (letters s)).1
        (text_eq (rebuild (letters s)).1 (wide "n"))
  where
    at :
        (k p : Text) (b : Bool)
        → (if b then k ++ wide "ん" else k ++ p) ≡ k ++ (if b then wide "ん" else p)
    at k p true = refl
    at k p false = refl

-- On kana followed by pending letters: both keep the kana and close a lone trailing `n` to ん; any
-- other letters are shown as they are and are left out of the reading.
pub buffer_shown :
    (s p : Text)
    → IsWide s
    → All IsLetter p
    → IsPending p
    → (buffer_reading (s ++ p) ≡ s ++ closed p) × (buffer_display (s ++ p) ≡ s ++ shown p)
unfolding buffer_reading buffer_display
buffer_shown s p hs hp pend =
    let ascii = letters-IsAscii p hp in
    let stable : rebuild (letters p) ≡ ([], p) =
      ap rebuild (letters_self p hp) ∙ pending_stable p pend in
    rw (settled_part s p hs ascii, pending_part s p hs ascii)
      (
        ap (λ x. s ++ x)
            (romaji_to_kana_lem p ∙ ap (λ (q : Text × Text). q.0 ++ closed q.1) stable),
        ap (λ x. s ++ x)
            (romaji_to_display_lem p ∙ ap (λ (q : Text × Text). q.0 ++ shown q.1) stable),
      )

-- Lower-case letters and signs that the converter takes, with no two `n` together and no `q`,
-- typed one by one into an empty composition, give the reading and the display that converting the
-- whole romaji at once gives.
pub buffer_whole :
    (s : Text)
    → All IsLetter s
    → is_plain s ≡ true
    → (buffer_reading (typed s) ≡ romaji_to_kana s)
      × (buffer_display (typed s) ≡ romaji_to_display s)
buffer_whole s h plain =
    let (kana, pending) = rebuild s in
    let (kana-IsWide, pend) = rebuild_output s in
    let both = buffer_shown kana pending kana-IsWide (rebuild_pending IsLetter s h) pend in
    let same = letters_self s h in
    rw (typed-eq-rebuild s h plain) (
      both.0 ∙ sym (romaji_to_kana_lem s ∙ ap (λ x. (rebuild x).0 ++ closed (rebuild x).1) same),
      both.1 ∙ sym (romaji_to_display_lem s ∙ ap (λ x. (rebuild x).0 ++ shown (rebuild x).1) same),
    )

closed-IsWide : (p : Text) → IsWide (closed p)
closed-IsWide p = elim (Bool-cases (text_eq p (wide "n"))) [
  | inl e ↦ rw e (omega arith)
  | inr e ↦ rw e tt
]

-- The reading of kana followed by any ASCII has no ASCII: no letter is sent to the engine.
pub buffer_reading-IsWide : (s p : Text) → IsWide s → IsAscii p → IsWide (buffer_reading (s ++ p))
unfolding buffer_reading
buffer_reading-IsWide s p hs hp =
    rw (settled_part s p hs hp, pending_part s p hs hp, romaji_to_kana_lem p)
      (All-append (λ c. 0x80 ≤ c) s _ hs
        (All-append (λ c. 0x80 ≤ c) (rebuild (letters p)).0 _ (rebuild_output (letters p)).0
          (closed-IsWide (rebuild (letters p)).1)))
