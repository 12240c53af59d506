-- ===== src/Keys/Needed.antt =====
-- `IsVirtualKeyNeed` and its helpers (tsf/SampleIME/CompositionProcessorEngine.cpp): which keys the
-- engine takes, and the category and function that each gets.
use ohagey.Common.{
  ℕ, zero, suc, ◌+◌, ◌-◌, Bool, true, false, not, ◌&&◌, ◌||◌, Option, none, some, List, [], ◌∷◌,
  ◌++◌, leb, ◌==◌, if◌then◌else◌,
}
use ohagey.Keys.{
  KeystrokeCategory, KeystrokeFunction, function_code, CandidateMode, is_original, is_phrase,
  is_with_next, Slot, put, no_key, category_composing, category_candidate, category_phrase,
  category_invoke_composition_edit_session, function_none, function_input,
  function_finalize_textstore_and_input, function_select_by_number, candidate_none,
  candidate_phrase, candidate_with_next_composition,
}
use ohagey.Keys.Modifiers.{Modifiers, no_modifiers, bits, any_bit, check_modifiers}
use ohagey.Window.{uint}

-- _KEYSTROKE.
pub record KeystrokeEntry : Type 0 where
  pub virtual_key : ℕ
  pub modifiers : Modifiers
  pub function : KeystrokeFunction

-- What IsVirtualKeyNeed reads of the engine: its tables, the range of the number keys, the
-- modifiers for phrases, the flags for wildcards, and whether the keystroke buffer has a key.
pub record KeyTables : Type 0 where
  pub keystroke_composition : List KeystrokeEntry
  pub keystroke_candidate : List KeystrokeEntry
  pub keystroke_candidate_wildcard : List KeystrokeEntry
  pub candidate_list_index_range : List ℕ
  pub candidate_list_phrase_modifier : Modifiers
  pub is_wildcard : Bool
  pub is_disable_wildcard_at_first : Bool
  pub has_wildcard_included : Bool
  pub has_keystrokes : Bool

abbrev pub input_key : ℕ → KeystrokeEntry
input_key key = record { virtual_key = key; modifiers = no_modifiers; function = function_input }

abbrev pub letter_keys : ℕ → ℕ → List KeystrokeEntry
letter_keys key zero = []
letter_keys key (suc n) = input_key key ∷ letter_keys (key + 1) n

-- InitKeyStrokeTable, copied by SetKeystrokeTable: the letters and the key of the long vowel.
unfoldable pub keystroke_table : List KeystrokeEntry
keystroke_table = letter_keys 0x41 26 ++ input_key 0xbd ∷ []

abbrev pub index_range_from : ℕ → ℕ → List ℕ
index_range_from i zero = []
index_range_from i (suc n) = (if i == 10 then 0 else i) ∷ index_range_from (i + 1) n

-- SetInitialCandidateListRange.
unfoldable pub initial_range : List ℕ
initial_range = index_range_from 1 10

-- The engine after its constructor, SetupKeystroke and SetupConfiguration.
abbrev pub set_up : Bool → KeyTables
set_up has_keys = record {
  keystroke_composition = keystroke_table;
  keystroke_candidate = [];
  keystroke_candidate_wildcard = [];
  candidate_list_index_range = initial_range;
  candidate_list_phrase_modifier = no_modifiers;
  is_wildcard = true;
  is_disable_wildcard_at_first = true;
  has_wildcard_included = false;
  has_keystrokes = has_keys;
}

-- CCandidateRange::IsRange and GetIndex: a digit key, or the same digit of the number pad.
abbrev pub is_number_for : ℕ → ℕ → Bool
is_number_for key digit =
    uint (key + (0x100000000 - 0x30)) == digit
    || (leb 0x60 key && leb key 0x69 && (key - 0x60 == digit))

unfoldable pub index_from : ℕ → ℕ → List ℕ → Option ℕ
index_from i key [] = none
index_from i key (digit ∷ digits) =
    let later = index_from (i + 1) key digits in if is_number_for key digit then some i else later

abbrev pub get_index : List ℕ → ℕ → Option ℕ
get_index digits key = index_from 0 key digits

unfoldable pub is_range : List ℕ → ℕ → Bool
is_range [] key = false
is_range (digit ∷ digits) key = is_number_for key digit || is_range digits key

abbrev pub is_wildcard_char : ℕ → Bool
is_wildcard_char wch = wch == 0x3f || wch == 0x2a

abbrev pub is_list_mode : CandidateMode → Bool
is_list_mode mode = is_original mode || is_phrase mode || is_with_next mode

-- The first entry for the key: of any function, or of the one that is asked for.
abbrev pub is_asked : KeystrokeFunction → KeystrokeFunction → Bool
is_asked function_none found = true
is_asked f found = function_code f == function_code found

unfoldable pub find_composition :
    Modifiers → ℕ → KeystrokeFunction → List KeystrokeEntry → Option KeystrokeFunction
find_composition mods code f [] = none
find_composition mods code f (e ∷ es) =
    let later = find_composition mods code f es in
    if (e.virtual_key == code) && check_modifiers mods e.modifiers && is_asked f e.function
    then some e.function
    else later

unfoldable pub find_candidate : Modifiers → ℕ → List KeystrokeEntry → Option KeystrokeFunction
find_candidate mods code [] = none
find_candidate mods code (e ∷ es) =
    let later = find_candidate mods code es in
    if (e.virtual_key == code) && check_modifiers mods e.modifiers then some e.function else later

-- A result, and what was written through the pointer.
abbrev pub Answer : Type 0
Answer = Bool × Slot

abbrev pub composing_as : Option KeystrokeFunction → Answer
composing_as none = (false, some no_key)
composing_as (some f) = (true, some (record { category = category_composing; function = f }))

-- Without a state to write, the answer is FALSE.
unfoldable pub is_virtual_key_keystroke_composition :
    KeyTables → Modifiers → ℕ → KeystrokeFunction → Slot → Answer
is_virtual_key_keystroke_composition t mods code f none = (false, none)
is_virtual_key_keystroke_composition t mods code f (some s) =
    composing_as (find_composition mods code f t.keystroke_composition)

abbrev pub candidate_category : CandidateMode → KeystrokeCategory
candidate_category mode = if is_phrase mode then category_phrase else category_candidate

abbrev pub candidate_as : CandidateMode → Option KeystrokeFunction → Slot → Answer
candidate_as mode none slot = (false, slot)
candidate_as mode (some f) slot = (true, put (candidate_category mode) f slot)

-- The return code that it also writes is TRUE whenever the answer is.
unfoldable pub is_virtual_key_keystroke_candidate :
    List KeystrokeEntry → Modifiers → ℕ → CandidateMode → Slot → Answer
is_virtual_key_keystroke_candidate table mods code mode slot =
    candidate_as mode (find_candidate mods code table) slot

abbrev pub has_phrase_modifier : KeyTables → Modifiers → Bool
has_phrase_modifier t mods =
    let wanted = t.candidate_list_phrase_modifier in
    (not (any_bit (bits wanted)) && not (any_bit (bits mods)))
    || (any_bit (bits wanted) && check_modifiers mods wanted)

abbrev pub to_state : KeystrokeCategory → KeystrokeFunction → Slot
to_state c f = some (record { category = c; function = f })

abbrev pub range_in_mode : KeyTables → Modifiers → CandidateMode → Answer
range_in_mode t mods candidate_phrase =
    if has_phrase_modifier t mods
    then (true, to_state category_phrase function_select_by_number)
    else (
      false,
      to_state category_invoke_composition_edit_session function_finalize_textstore_and_input,
    )
range_in_mode t mods candidate_with_next_composition =
    if has_phrase_modifier t mods
    then (true, to_state category_candidate function_select_by_number)
    else (false, some no_key)
range_in_mode t mods candidate_none = (false, some no_key)
range_in_mode t mods _ = (true, to_state category_candidate function_select_by_number)

unfoldable pub is_keystroke_range : KeyTables → Modifiers → ℕ → CandidateMode → Slot → Answer
is_keystroke_range t mods code mode none = (false, none)
is_keystroke_range t mods code mode (some s) =
    if is_range t.candidate_list_index_range code
    then range_in_mode t mods mode
    else (false, some no_key)
