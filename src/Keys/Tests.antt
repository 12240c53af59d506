-- ===== src/Keys/Tests.antt =====
-- Keys at concrete inputs.
use ohagey.Common.{◌+◌, ◌≡◌, refl, true, false, some}
use ohagey.Composer.Punctuation.{no_pairs}
use ohagey.Keys.{candidate_none, CandidateMode}
use ohagey.Keys.Modifiers.{no_modifiers, check_modifiers}
use ohagey.Keys.Needed.{
  set_up, keystroke_table, find_composition, is_virtual_key_keystroke_composition,
}
use ohagey.Keys.Need.{is_virtual_key_need, composing_part}
use ohagey.Keys.Category.{key_state_handler}
use ohagey.Keys.Good.{is_some}
use ohagey.Keys.Eaten.{
  KeyContext, Request, on_key_down, is_key_eaten, vkey_from_packet, is_keyboard_disabled,
}
use ohagey.Keys.Taken.{on_key_down-handled}

-- An open keyboard whose keys give their lower-case letters, with and without a list.
abbrev typing : CandidateMode → KeyContext
typing mode = record {
  focus = record {
    has_document = true;
    has_context = true;
    keyboard_disabled = false;
    empty_context = false;
  };
  is_open = true;
  is_double_single_byte = false;
  convert_vkey = λ key. key + 0x20;
  tables = set_up true;
  pairs = no_pairs;
  modifiers = no_modifiers;
  composing = true;
  mode = mode;
  with_wildcard = false;
}

letter_taken : (on_key_down (typing candidate_none) 0x41).0 ≡ true
unfolding on_key_down is_key_eaten vkey_from_packet is_keyboard_disabled is_virtual_key_need
    composing_part is_virtual_key_keystroke_composition find_composition keystroke_table
    check_modifiers
letter_taken = refl

on_key_down-handled_example :
    (r : Request) × ((on_key_down (typing candidate_none) 0x41).1 ≡ some r)
    × (is_some (key_state_handler r.state.category r.state.function) ≡ true)
on_key_down-handled_example =
    on_key_down-handled (typing candidate_none) true 0x41 refl refl refl letter_taken
