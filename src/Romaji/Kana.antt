-- ===== src/Romaji/Kana.antt =====
-- class RomajiKana of tsf/Ohagey/RomajiKana.h and RomajiKana.cpp.
use Prim.Native.Nat.{min}
use mathlib.Core.List.{foldl}
use ohagey.Common.{
  ℕ, zero, suc, ◌+◌, ◌-◌, Bool, true, false, ◌&&◌, ◌||◌, not, Option, none, some, [], ◌∷◌, ◌++◌,
  leb, ◌==◌, if◌then◌else◌, length, take, drop, pop_back,
}
use ohagey.Common.Text.{Text, wide, text_eq}
use ohagey.Romaji.Rules.{
  rules, lookup_in, grows_in, max_rule_length, is_vowel, is_lower, doubles_to_sokuon, lookup,
  is_prefix_of_rule,
}

unfoldable pub is_upper : ℕ → Bool
is_upper ch = leb b'A' ch && leb ch b'Z'

unfoldable pub is_accepted : ℕ → Bool
unfolding is_lower is_upper
is_accepted ch =
    is_lower ch
    || is_upper ch
    || ch == b'-'
    || ch == b','
    || ch == b'.'
    || ch == b'/'
    || ch == b'['
    || ch == b']'
    || ch == 0x27

-- One round of the loop in `Rebuild`: kana to add and how far `i` moves, or the tail is kept as
-- pending and the loop returns.
pub data Round : Type 0 where
  emit : Text → ℕ → Round
  hold : Round

abbrev pub or_else : Option Round → Round → Round
or_else none later = later
or_else (some r) later = r

-- The second `n` of `nn` begins the next syllable.
abbrev second_starts_syllable : Text → Bool
second_starts_syllable [] = false
second_starts_syllable (c ∷ more) = is_vowel c || c == b'y'

-- An `n` that has a letter `next` behind it; `none` is the fall through.
unfoldable pub close_n : ℕ → Text → Option Round
close_n next more =
    if next == b'n'
    then some (emit (wide "ん") (if second_starts_syllable more then 1 else 2))
    else if next == 0x27
    then some (emit (wide "ん") 2)
    else if not (is_vowel next) && not (next == b'y')
    then some (emit (wide "ん") 1)
    else none

unfoldable pub syllabic_n : Text → Option Round
syllabic_n (c ∷ next ∷ more) = if c == b'n' then close_n next more else none
syllabic_n _ = none

unfoldable pub sokuon : Text → Option Round
sokuon (c ∷ next ∷ more) =
    if c == next && doubles_to_sokuon c then some (emit (wide "っ") 1) else none
sokuon _ = none

-- for (length = maxLength; length >= 1; --length)
unfoldable pub longest_match : ℕ → Text → Option Round
longest_match zero tail = none
longest_match (suc length') tail = elim (lookup (take (suc length') tail)) [
  | some kana ↦ some (emit kana (suc length'))
  | none ↦ longest_match length' tail
]

unfoldable pub no_match : Text → Round
no_match tail = if is_prefix_of_rule tail then hold else emit [] 1

unfoldable pub round : Text → Round
round tail = or_else (syllabic_n tail) (
    or_else (sokuon tail)
      (or_else (longest_match (min max_rule_length (length tail)) tail) (no_match tail)))

-- The loop, over what is left of the romaji: the kana and the pending letters.
unfoldable pub rebuild_loop : ℕ → Text → Text → Text × Text
rebuild_loop zero tail kana = (kana, [])
rebuild_loop (suc fuel) [] kana = (kana, [])
rebuild_loop (suc fuel) (c ∷ tail) kana = elim (round (c ∷ tail)) [
  | emit k n ↦ rebuild_loop fuel (drop n (c ∷ tail)) (kana ++ k)
  | hold ↦ (kana, c ∷ tail)
]

-- Every round takes a letter at least.
unfoldable pub rebuild : Text → Text × Text
rebuild romaji = rebuild_loop (length romaji) romaji []

pub record RomajiKana : Type 0 where
  pub romaji : Text
  pub kana : Text
  pub pending : Text

abbrev pub fresh : RomajiKana
fresh = record { romaji = []; kana = []; pending = [] }

-- `Rebuild` after `_romaji` was given a new value.
unfoldable pub rebuilt : Text → RomajiKana
rebuilt romaji = let (k, p) = rebuild romaji in record { romaji = romaji; kana = k; pending = p }

unfoldable pub lower_case : ℕ → ℕ
unfolding is_upper
lower_case ch = if is_upper ch then ch - b'A' + b'a' else ch

unfoldable pub append : ℕ → RomajiKana → RomajiKana × Bool
append ch c =
    if not (is_accepted ch) then (c, false) else (rebuilt (c.romaji ++ lower_case ch ∷ []), true)

unfoldable pub backspace : RomajiKana → RomajiKana
backspace c = if text_eq c.romaji [] then c else rebuilt (pop_back c.romaji)

unfoldable pub clear : RomajiKana → RomajiKana
clear c = fresh

unfoldable pub reading : RomajiKana → Text
reading c = if text_eq c.pending (wide "n") then c.kana ++ wide "ん" else c.kana

unfoldable pub display : RomajiKana → Text
display c = if text_eq c.pending (wide "n") then c.kana ++ wide "ん" else c.kana ++ c.pending

-- The result of `Append` is not looked at.
unfoldable pub feed : Text → RomajiKana
feed = foldl (λ c ch. (append ch c).0) fresh

unfoldable pub romaji_to_kana : Text → Text
romaji_to_kana romaji = reading (feed romaji)

unfoldable pub romaji_to_display : Text → Text
romaji_to_display romaji = display (feed romaji)

-- A test that unfolds this name computes with the whole converter.
unfoldable pub converter_runs : Unit {0}
unfolding rules lookup_in lookup grows_in is_prefix_of_rule is_vowel is_lower doubles_to_sokuon
    is_upper is_accepted close_n syllabic_n sokuon longest_match no_match round rebuild_loop rebuild
    rebuilt lower_case append backspace clear feed reading display romaji_to_kana romaji_to_display
converter_runs = tt
