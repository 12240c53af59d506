-- ===== src/Composer/Punctuation.antt =====
-- `IsPunctuation` and `GetPunctuation` (tsf/SampleIME/CompositionProcessorEngine.cpp) and the table
-- of tsf/SampleIME/Globals.cpp.
pub mod Agree
use ohagey.Common.{
  ℕ, ◌+◌, ◌-◌, ◌%◌, ◌^◌, Bool, true, false, ◌||◌, Option, none, some, List, [], ◌∷◌, ◌==◌,
  if◌then◌else◌,
}

pub record Punctuation : Type 0 where
  pub code : ℕ
  pub punctuation : ℕ

abbrev mark : ℕ → ℕ → Punctuation
mark code punctuation = record { code = code; punctuation = punctuation }

unfoldable pub punctuation_table : List Punctuation
punctuation_table =
    mark b'!' 0xFF01
    ∷ mark 0x22 0x201D
    ∷ mark b'#' 0xFF03
    ∷ mark b'$' 0xFF04
    ∷ mark b'%' 0xFF05
    ∷ mark b'&' 0xFF06
    ∷ mark 0x27 0x2019
    ∷ mark b'(' 0xFF08
    ∷ mark b')' 0xFF09
    ∷ mark b'*' 0xFF0A
    ∷ mark b'+' 0xFF0B
    ∷ mark b',' 0x3001
    ∷ mark b'.' 0x3002
    ∷ mark b'/' 0x30FB
    ∷ mark b':' 0xFF1A
    ∷ mark b';' 0xFF1B
    ∷ mark b'<' 0xFF1C
    ∷ mark b'=' 0xFF1D
    ∷ mark b'>' 0xFF1E
    ∷ mark b'?' 0xFF1F
    ∷ mark b'@' 0xFF20
    ∷ mark b'[' 0x300C
    ∷ mark 0x5C 0xFFE5
    ∷ mark b']' 0x300D
    ∷ mark b'^' 0xFF3E
    ∷ mark b'_' 0xFF3F
    ∷ mark 0x60 0xFF40
    ∷ mark b'{' 0xFF5B
    ∷ mark b'|' 0xFF5C
    ∷ mark b'}' 0xFF5D
    ∷ mark b'~' 0x301C
    ∷ []

-- CPunctuationPair
pub record PunctuationPair : Type 0 where
  pub punctuation : Punctuation
  pub pair_punctuation : ℕ
  pub is_pair_toggle : Bool

-- CPunctuationNestPair
pub record PunctuationNestPair : Type 0 where
  pub nest_count : ℕ
  pub punctuation_begin : Punctuation
  pub pair_punctuation_begin : ℕ
  pub punctuation_end : Punctuation
  pub pair_punctuation_end : ℕ

-- `_PunctuationPair` and `_PunctuationNestPair`.
pub record Pairs : Type 0 where
  pub pairs : List PunctuationPair
  pub nest_pairs : List PunctuationNestPair

unfoldable pub is_in_table : List Punctuation → ℕ → Bool
is_in_table [] wch = false
is_in_table (p ∷ ps) wch = p.code == wch || is_in_table ps wch

unfoldable pub is_in_pairs : List PunctuationPair → ℕ → Bool
is_in_pairs [] wch = false
is_in_pairs (p ∷ ps) wch = p.punctuation.code == wch || is_in_pairs ps wch

unfoldable pub is_in_nest_pairs : List PunctuationNestPair → ℕ → Bool
is_in_nest_pairs [] wch = false
is_in_nest_pairs (p ∷ ps) wch =
    (p.punctuation_begin.code == wch || p.punctuation_end.code == wch) || is_in_nest_pairs ps wch

unfoldable pub is_punctuation : Pairs → ℕ → Bool
is_punctuation s wch =
    is_in_table punctuation_table wch
    || (is_in_pairs s.pairs wch || is_in_nest_pairs s.nest_pairs wch)

unfoldable pub from_table : List Punctuation → ℕ → Option ℕ
from_table [] wch = none
from_table (p ∷ ps) wch = if p.code == wch then some p.punctuation else from_table ps wch

-- One pair answers, and turns.
abbrev pub toggle : PunctuationPair → ℕ × PunctuationPair
toggle p =
    if p.is_pair_toggle
    then (p.pair_punctuation, record p { is_pair_toggle = false })
    else (p.punctuation.punctuation, record p { is_pair_toggle = true })

unfoldable pub from_pairs : List PunctuationPair → ℕ → Option ℕ × List PunctuationPair
from_pairs [] wch = (none, [])
from_pairs (p ∷ ps) wch =
    let (found, ps') = from_pairs ps wch in
    if p.punctuation.code == wch then (some (toggle p).0, (toggle p).1 ∷ ps) else (found, p ∷ ps')

-- _nestCount++ and --_nestCount, of an int.
abbrev begin_nest : PunctuationNestPair → ℕ × PunctuationNestPair
begin_nest p = (
  if p.nest_count == 0 then p.punctuation_begin.punctuation else p.pair_punctuation_begin,
  record p { nest_count = (p.nest_count + 1) % 2 ^ 32 },
)

abbrev end_nest : PunctuationNestPair → ℕ × PunctuationNestPair
end_nest p =
    let less = (p.nest_count + (2 ^ 32 - 1)) % 2 ^ 32 in
    (
      if less == 0 then p.punctuation_end.punctuation else p.pair_punctuation_end,
      record p { nest_count = less },
    )

unfoldable pub from_nest_pairs : List PunctuationNestPair → ℕ → Option ℕ × List PunctuationNestPair
from_nest_pairs [] wch = (none, [])
from_nest_pairs (p ∷ ps) wch =
    let (found, ps') = from_nest_pairs ps wch in
    if p.punctuation_begin.code == wch
    then (some (begin_nest p).0, (begin_nest p).1 ∷ ps)
    else if p.punctuation_end.code == wch
    then (some (end_nest p).0, (end_nest p).1 ∷ ps)
    else (found, p ∷ ps')

-- `return 0` where nothing answers.
abbrev pub or_nul : Option ℕ → ℕ
or_nul none = 0
or_nul (some w) = w

abbrev nest_answer : Pairs → Option ℕ × List PunctuationNestPair → ℕ × Pairs
nest_answer s (found, nest) = (or_nul found, record s { nest_pairs = nest })

abbrev pair_answer : Pairs → ℕ → Option ℕ × List PunctuationPair → ℕ × Pairs
pair_answer s wch (some w, pairs) = (w, record s { pairs = pairs })
pair_answer s wch (none, pairs) = nest_answer s (from_nest_pairs s.nest_pairs wch)

abbrev pub table_answer : Pairs → ℕ → Option ℕ → ℕ × Pairs
table_answer s wch (some w) = (w, s)
table_answer s wch none = pair_answer s wch (from_pairs s.pairs wch)

unfoldable pub get_punctuation : ℕ → Pairs → ℕ × Pairs
get_punctuation wch s = table_answer s wch (from_table punctuation_table wch)

-- SetupPunctuationPair leaves both empty.
abbrev pub no_pairs : Pairs
no_pairs = record { pairs = []; nest_pairs = [] }
