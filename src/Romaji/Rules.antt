-- ===== src/Romaji/Rules.antt =====
-- The table of spellings (tsf/Ohagey/RomajiKana.cpp) and its two searches.
use Prim.Native.String.{String}
use ohagey.Common.{
  ℕ, Bool, false, ◌&&◌, ◌||◌, not, Option, none, some, List, [], ◌∷◌, ltb, leb, ◌==◌, if◌then◌else◌,
  length,
}
use ohagey.Common.Text.{Text, wide, text_eq, starts_with}

pub record Rule : Type 0 where
  pub romaji : Text
  pub kana : Text

abbrev rule : String → String → Rule
rule r k = record { romaji = wide r; kana = wide k }

unfoldable pub rules : List Rule
rules =
    rule "kya" "きゃ"
    ∷ rule "kyi" "きぃ"
    ∷ rule "kyu" "きゅ"
    ∷ rule "kye" "きぇ"
    ∷ rule "kyo" "きょ"
    ∷ rule "gya" "ぎゃ"
    ∷ rule "gyi" "ぎぃ"
    ∷ rule "gyu" "ぎゅ"
    ∷ rule "gye" "ぎぇ"
    ∷ rule "gyo" "ぎょ"
    ∷ rule "sha" "しゃ"
    ∷ rule "shu" "しゅ"
    ∷ rule "she" "しぇ"
    ∷ rule "sho" "しょ"
    ∷ rule "shi" "し"
    ∷ rule "sya" "しゃ"
    ∷ rule "syi" "しぃ"
    ∷ rule "syu" "しゅ"
    ∷ rule "sye" "しぇ"
    ∷ rule "syo" "しょ"
    ∷ rule "ja" "じゃ"
    ∷ rule "ju" "じゅ"
    ∷ rule "je" "じぇ"
    ∷ rule "jo" "じょ"
    ∷ rule "ji" "じ"
    ∷ rule "jya" "じゃ"
    ∷ rule "jyi" "じぃ"
    ∷ rule "jyu" "じゅ"
    ∷ rule "jye" "じぇ"
    ∷ rule "jyo" "じょ"
    ∷ rule "zya" "じゃ"
    ∷ rule "zyi" "じぃ"
    ∷ rule "zyu" "じゅ"
    ∷ rule "zye" "じぇ"
    ∷ rule "zyo" "じょ"
    ∷ rule "cha" "ちゃ"
    ∷ rule "chu" "ちゅ"
    ∷ rule "che" "ちぇ"
    ∷ rule "cho" "ちょ"
    ∷ rule "chi" "ち"
    ∷ rule "cya" "ちゃ"
    ∷ rule "cyi" "ちぃ"
    ∷ rule "cyu" "ちゅ"
    ∷ rule "cye" "ちぇ"
    ∷ rule "cyo" "ちょ"
    ∷ rule "tya" "ちゃ"
    ∷ rule "tyi" "ちぃ"
    ∷ rule "tyu" "ちゅ"
    ∷ rule "tye" "ちぇ"
    ∷ rule "tyo" "ちょ"
    ∷ rule "tsu" "つ"
    ∷ rule "dya" "ぢゃ"
    ∷ rule "dyi" "ぢぃ"
    ∷ rule "dyu" "ぢゅ"
    ∷ rule "dye" "ぢぇ"
    ∷ rule "dyo" "ぢょ"
    ∷ rule "nya" "にゃ"
    ∷ rule "nyi" "にぃ"
    ∷ rule "nyu" "にゅ"
    ∷ rule "nye" "にぇ"
    ∷ rule "nyo" "にょ"
    ∷ rule "hya" "ひゃ"
    ∷ rule "hyi" "ひぃ"
    ∷ rule "hyu" "ひゅ"
    ∷ rule "hye" "ひぇ"
    ∷ rule "hyo" "ひょ"
    ∷ rule "bya" "びゃ"
    ∷ rule "byi" "びぃ"
    ∷ rule "byu" "びゅ"
    ∷ rule "bye" "びぇ"
    ∷ rule "byo" "びょ"
    ∷ rule "pya" "ぴゃ"
    ∷ rule "pyi" "ぴぃ"
    ∷ rule "pyu" "ぴゅ"
    ∷ rule "pye" "ぴぇ"
    ∷ rule "pyo" "ぴょ"
    ∷ rule "mya" "みゃ"
    ∷ rule "myi" "みぃ"
    ∷ rule "myu" "みゅ"
    ∷ rule "mye" "みぇ"
    ∷ rule "myo" "みょ"
    ∷ rule "rya" "りゃ"
    ∷ rule "ryi" "りぃ"
    ∷ rule "ryu" "りゅ"
    ∷ rule "rye" "りぇ"
    ∷ rule "ryo" "りょ"
    ∷ rule "fya" "ふゃ"
    ∷ rule "fyu" "ふゅ"
    ∷ rule "fyo" "ふょ"
    ∷ rule "vya" "ゔゃ"
    ∷ rule "vyu" "ゔゅ"
    ∷ rule "vyo" "ゔょ"
    ∷ rule "xya" "ゃ"
    ∷ rule "xyu" "ゅ"
    ∷ rule "xyo" "ょ"
    ∷ rule "lya" "ゃ"
    ∷ rule "lyu" "ゅ"
    ∷ rule "lyo" "ょ"
    ∷ rule "xtsu" "っ"
    ∷ rule "ltsu" "っ"
    ∷ rule "xtu" "っ"
    ∷ rule "ltu" "っ"
    ∷ rule "xwa" "ゎ"
    ∷ rule "lwa" "ゎ"
    ∷ rule "xa" "ぁ"
    ∷ rule "xi" "ぃ"
    ∷ rule "xu" "ぅ"
    ∷ rule "xe" "ぇ"
    ∷ rule "xo" "ぉ"
    ∷ rule "la" "ぁ"
    ∷ rule "li" "ぃ"
    ∷ rule "lu" "ぅ"
    ∷ rule "le" "ぇ"
    ∷ rule "lo" "ぉ"
    ∷ rule "ka" "か"
    ∷ rule "ki" "き"
    ∷ rule "ku" "く"
    ∷ rule "ke" "け"
    ∷ rule "ko" "こ"
    ∷ rule "ga" "が"
    ∷ rule "gi" "ぎ"
    ∷ rule "gu" "ぐ"
    ∷ rule "ge" "げ"
    ∷ rule "go" "ご"
    ∷ rule "sa" "さ"
    ∷ rule "si" "し"
    ∷ rule "su" "す"
    ∷ rule "se" "せ"
    ∷ rule "so" "そ"
    ∷ rule "za" "ざ"
    ∷ rule "zi" "じ"
    ∷ rule "zu" "ず"
    ∷ rule "ze" "ぜ"
    ∷ rule "zo" "ぞ"
    ∷ rule "ta" "た"
    ∷ rule "ti" "ち"
    ∷ rule "tu" "つ"
    ∷ rule "te" "て"
    ∷ rule "to" "と"
    ∷ rule "da" "だ"
    ∷ rule "di" "ぢ"
    ∷ rule "du" "づ"
    ∷ rule "de" "で"
    ∷ rule "do" "ど"
    ∷ rule "na" "な"
    ∷ rule "ni" "に"
    ∷ rule "nu" "ぬ"
    ∷ rule "ne" "ね"
    ∷ rule "no" "の"
    ∷ rule "ha" "は"
    ∷ rule "hi" "ひ"
    ∷ rule "hu" "ふ"
    ∷ rule "he" "へ"
    ∷ rule "ho" "ほ"
    ∷ rule "ba" "ば"
    ∷ rule "bi" "び"
    ∷ rule "bu" "ぶ"
    ∷ rule "be" "べ"
    ∷ rule "bo" "ぼ"
    ∷ rule "pa" "ぱ"
    ∷ rule "pi" "ぴ"
    ∷ rule "pu" "ぷ"
    ∷ rule "pe" "ぺ"
    ∷ rule "po" "ぽ"
    ∷ rule "fa" "ふぁ"
    ∷ rule "fi" "ふぃ"
    ∷ rule "fu" "ふ"
    ∷ rule "fe" "ふぇ"
    ∷ rule "fo" "ふぉ"
    ∷ rule "ma" "ま"
    ∷ rule "mi" "み"
    ∷ rule "mu" "む"
    ∷ rule "me" "め"
    ∷ rule "mo" "も"
    ∷ rule "ya" "や"
    ∷ rule "yu" "ゆ"
    ∷ rule "yo" "よ"
    ∷ rule "yi" "い"
    ∷ rule "ye" "いぇ"
    ∷ rule "ra" "ら"
    ∷ rule "ri" "り"
    ∷ rule "ru" "る"
    ∷ rule "re" "れ"
    ∷ rule "ro" "ろ"
    ∷ rule "wa" "わ"
    ∷ rule "wo" "を"
    ∷ rule "wi" "うぃ"
    ∷ rule "we" "うぇ"
    ∷ rule "wu" "う"
    ∷ rule "va" "ゔぁ"
    ∷ rule "vi" "ゔぃ"
    ∷ rule "vu" "ゔ"
    ∷ rule "ve" "ゔぇ"
    ∷ rule "vo" "ゔぉ"
    ∷ rule "a" "あ"
    ∷ rule "i" "い"
    ∷ rule "u" "う"
    ∷ rule "e" "え"
    ∷ rule "o" "お"
    ∷ rule "-" "ー"
    ∷ rule "," "、"
    ∷ rule "." "。"
    ∷ rule "/" "・"
    ∷ rule "[" "「"
    ∷ rule "]" "」"
    ∷ []

-- Longest romaji in the table.
abbrev pub max_rule_length : ℕ
max_rule_length = 4

unfoldable pub is_vowel : ℕ → Bool
is_vowel ch = ch == b'a' || ch == b'i' || ch == b'u' || ch == b'e' || ch == b'o'

unfoldable pub is_lower : ℕ → Bool
is_lower ch = leb b'a' ch && leb ch b'z'

unfoldable pub doubles_to_sokuon : ℕ → Bool
unfolding is_vowel is_lower
doubles_to_sokuon ch = is_lower ch && not (is_vowel ch) && not (ch == b'n')

unfoldable pub lookup_in : List Rule → Text → Option Text
lookup_in [] romaji = none
lookup_in (r ∷ rs) romaji = if text_eq romaji r.romaji then some r.kana else lookup_in rs romaji

unfoldable pub lookup : Text → Option Text
lookup = lookup_in rules

-- Some rule is longer than `romaji` and begins with it.
unfoldable pub grows_in : List Rule → Text → Bool
grows_in [] romaji = false
grows_in (r ∷ rs) romaji =
    (ltb (length romaji) (length r.romaji) && starts_with r.romaji romaji) || grows_in rs romaji

unfoldable pub is_prefix_of_rule : Text → Bool
is_prefix_of_rule romaji =
    if leb max_rule_length (length romaji) then false else grows_in rules romaji
