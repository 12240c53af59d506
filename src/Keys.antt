-- ===== src/Keys.antt =====
-- Which keys the text service takes, and for what (tsf/SampleIME/SampleIMEBaseStructure.h). A virtual
-- key is its number in the Windows headers.
pub mod Modifiers
pub mod Needed
pub mod Need
pub mod Category
pub mod Eaten
pub mod Good
pub mod Handled
pub mod Taken
mod Tests
use ohagey.Common.{ℕ, Bool, true, false, Option, none, some, ◌==◌}

pub data KeystrokeCategory : Type 0 where
  category_none : KeystrokeCategory
  category_composing : KeystrokeCategory
  category_candidate : KeystrokeCategory
  category_phrase : KeystrokeCategory
  category_phrase_from_keystroke : KeystrokeCategory
  category_invoke_composition_edit_session : KeystrokeCategory

pub data KeystrokeFunction : Type 0 where
  function_none : KeystrokeFunction
  function_input : KeystrokeFunction
  function_cancel : KeystrokeFunction
  function_finalize_textstore : KeystrokeFunction
  function_finalize_textstore_and_input : KeystrokeFunction
  function_finalize_candidatelist : KeystrokeFunction
  function_finalize_candidatelist_and_input : KeystrokeFunction
  function_convert : KeystrokeFunction
  function_convert_wildcard : KeystrokeFunction
  function_select_by_number : KeystrokeFunction
  function_backspace : KeystrokeFunction
  function_move_left : KeystrokeFunction
  function_move_right : KeystrokeFunction
  function_move_up : KeystrokeFunction
  function_move_down : KeystrokeFunction
  function_move_page_up : KeystrokeFunction
  function_move_page_down : KeystrokeFunction
  function_move_page_top : KeystrokeFunction
  function_move_page_bottom : KeystrokeFunction
  function_double_single_byte : KeystrokeFunction
  function_punctuation : KeystrokeFunction

-- The value of the enumeration.
abbrev pub category_code : KeystrokeCategory → ℕ
category_code category_none = 0
category_code category_composing = 1
category_code category_candidate = 2
category_code category_phrase = 3
category_code category_phrase_from_keystroke = 4
category_code category_invoke_composition_edit_session = 5

abbrev pub function_code : KeystrokeFunction → ℕ
function_code function_none = 0
function_code function_input = 1
function_code function_cancel = 2
function_code function_finalize_textstore = 3
function_code function_finalize_textstore_and_input = 4
function_code function_finalize_candidatelist = 5
function_code function_finalize_candidatelist_and_input = 6
function_code function_convert = 7
function_code function_convert_wildcard = 8
function_code function_select_by_number = 9
function_code function_backspace = 10
function_code function_move_left = 11
function_code function_move_right = 12
function_code function_move_up = 13
function_code function_move_down = 14
function_code function_move_page_up = 15
function_code function_move_page_down = 16
function_code function_move_page_top = 17
function_code function_move_page_bottom = 18
function_code function_double_single_byte = 19
function_code function_punctuation = 20

pub data CandidateMode : Type 0 where
  candidate_none : CandidateMode
  candidate_original : CandidateMode
  candidate_phrase : CandidateMode
  candidate_incremental : CandidateMode
  candidate_with_next_composition : CandidateMode

abbrev pub is_none_mode : CandidateMode → Bool
is_none_mode candidate_none = true
is_none_mode _ = false

abbrev pub is_original : CandidateMode → Bool
is_original candidate_original = true
is_original _ = false

abbrev pub is_phrase : CandidateMode → Bool
is_phrase candidate_phrase = true
is_phrase _ = false

abbrev pub is_incremental : CandidateMode → Bool
is_incremental candidate_incremental = true
is_incremental _ = false

abbrev pub is_with_next : CandidateMode → Bool
is_with_next candidate_with_next_composition = true
is_with_next _ = false

pub record KeystrokeState : Type 0 where
  pub category : KeystrokeCategory
  pub function : KeystrokeFunction

-- A pointer to a state that is written, or `nullptr`.
abbrev pub Slot : Type 0
Slot = Option KeystrokeState

abbrev pub put : KeystrokeCategory → KeystrokeFunction → Slot → Slot
put c f none = none
put c f (some s) = some (record { category = c; function = f })

abbrev pub no_key : KeystrokeState
no_key = record { category = category_none; function = function_none }

-- CATEGORY_NONE in the state that the pointer leads to.
abbrev has_category : KeystrokeCategory → Slot → Bool
has_category c none = false
has_category c (some s) = category_code s.category == category_code c
