-- ===== src/Keys/Category.antt =====
-- The key state classes (tsf/SampleIME/KeyStateCategory.cpp): which handler of the text service a
-- category and a function lead to.
use ohagey.Common.{Bool, true, false, Option, none, some}
use ohagey.Keys.{
  KeystrokeCategory, category_composing, category_candidate, category_phrase, KeystrokeFunction,
  function_none, function_input, function_cancel, function_finalize_textstore,
  function_finalize_textstore_and_input, function_finalize_candidatelist,
  function_finalize_candidatelist_and_input, function_convert, function_convert_wildcard,
  function_select_by_number, function_backspace, function_move_left, function_move_right,
  function_move_up, function_move_down, function_move_page_up, function_move_page_down,
  function_move_page_top, function_move_page_bottom, function_double_single_byte,
  function_punctuation,
}

-- CKeyStateNull, CKeyStateComposing, CKeyStateCandidate and CKeyStatePhrase.
pub data KeyStateClass : Type 0 where
  key_state_null : KeyStateClass
  key_state_composing : KeyStateClass
  key_state_candidate : KeyStateClass
  key_state_phrase : KeyStateClass

abbrev make_key_state_category : KeystrokeCategory → KeyStateClass
make_key_state_category category_composing = key_state_composing
make_key_state_category category_candidate = key_state_candidate
make_key_state_category category_phrase = key_state_phrase
make_key_state_category _ = key_state_null

-- The virtual methods of the classes.
pub data Method : Type 0 where
  handle_input : Method
  handle_finalize_text_store_and_input : Method
  handle_finalize_text_store : Method
  handle_finalize_candidatelist_and_input : Method
  handle_finalize_candidatelist : Method
  handle_convert : Method
  handle_convert_wild_card : Method
  handle_cancel : Method
  handle_backspace : Method
  handle_arrow : Method
  handle_double_single_byte : Method
  handle_punctuation : Method
  handle_select_by_number : Method

-- KeyStateHandler: `none` is E_INVALIDARG.
abbrev method_of : KeystrokeFunction → Option Method
method_of function_none = none
method_of function_input = some handle_input
method_of function_finalize_textstore_and_input = some handle_finalize_text_store_and_input
method_of function_finalize_textstore = some handle_finalize_text_store
method_of function_finalize_candidatelist_and_input = some handle_finalize_candidatelist_and_input
method_of function_finalize_candidatelist = some handle_finalize_candidatelist
method_of function_convert = some handle_convert
method_of function_convert_wildcard = some handle_convert_wild_card
method_of function_cancel = some handle_cancel
method_of function_backspace = some handle_backspace
method_of function_move_left = some handle_arrow
method_of function_move_right = some handle_arrow
method_of function_move_up = some handle_arrow
method_of function_move_down = some handle_arrow
method_of function_move_page_up = some handle_arrow
method_of function_move_page_down = some handle_arrow
method_of function_move_page_top = some handle_arrow
method_of function_move_page_bottom = some handle_arrow
method_of function_double_single_byte = some handle_double_single_byte
method_of function_punctuation = some handle_punctuation
method_of function_select_by_number = some handle_select_by_number

-- The handlers of CSampleIME that the methods call; a flag is their last argument.
pub data ServiceCall : Type 0 where
  composition_input : ServiceCall
  composition_finalize : Bool → ServiceCall
  composition_finalize_and_input : Bool → ServiceCall
  composition_convert : Bool → ServiceCall
  cancel : ServiceCall
  composition_backspace : ServiceCall
  composition_arrow_key : ServiceCall
  composition_double_single_byte : ServiceCall
  composition_punctuation : ServiceCall
  candidate_finalize : ServiceCall
  candidate_finalize_and_input : ServiceCall
  candidate_move_down : ServiceCall
  candidate_arrow_key : ServiceCall
  candidate_select_by_number : ServiceCall
  phrase_finalize : ServiceCall
  phrase_arrow_key : ServiceCall
  phrase_select_by_number : ServiceCall

abbrev composing_method : Method → Option ServiceCall
composing_method handle_input = some composition_input
composing_method handle_finalize_text_store_and_input = some (composition_finalize_and_input false)
composing_method handle_finalize_text_store = some (composition_finalize false)
composing_method handle_finalize_candidatelist_and_input =
    some (composition_finalize_and_input true)
composing_method handle_finalize_candidatelist = some (composition_finalize true)
composing_method handle_convert = some (composition_convert false)
composing_method handle_convert_wild_card = some (composition_convert true)
composing_method handle_cancel = some cancel
composing_method handle_backspace = some composition_backspace
composing_method handle_arrow = some composition_arrow_key
composing_method handle_double_single_byte = some composition_double_single_byte
composing_method handle_punctuation = some composition_punctuation
composing_method handle_select_by_number = none

-- The conversion key moves down the list.
abbrev candidate_method : Method → Option ServiceCall
candidate_method handle_finalize_candidatelist = some candidate_finalize
candidate_method handle_finalize_candidatelist_and_input = some candidate_finalize_and_input
candidate_method handle_convert = some candidate_move_down
candidate_method handle_cancel = some cancel
candidate_method handle_arrow = some candidate_arrow_key
candidate_method handle_select_by_number = some candidate_select_by_number
candidate_method _ = none

abbrev phrase_method : Method → Option ServiceCall
phrase_method handle_finalize_candidatelist = some phrase_finalize
phrase_method handle_cancel = some cancel
phrase_method handle_arrow = some phrase_arrow_key
phrase_method handle_select_by_number = some phrase_select_by_number
phrase_method _ = none

-- A method that the class does not override is the base class's: `none`, for E_NOTIMPL.
abbrev class_method : KeyStateClass → Method → Option ServiceCall
class_method key_state_null m = none
class_method key_state_composing m = composing_method m
class_method key_state_candidate m = candidate_method m
class_method key_state_phrase m = phrase_method m

abbrev call_method : KeyStateClass → Option Method → Option ServiceCall
call_method c none = none
call_method c (some m) = class_method c m

-- DoEditSession of CKeyHandlerEditSession: the handler that it comes to, if there is one.
unfoldable pub key_state_handler : KeystrokeCategory → KeystrokeFunction → Option ServiceCall
key_state_handler c f = call_method (make_key_state_category c) (method_of f)
