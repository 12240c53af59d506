-- ===== src/Keys/Eaten.antt =====
-- The key event sink (tsf/SampleIME/KeyEventSink.cpp): which keys the text service takes from the
-- application, and what its key handler is asked to do.
use ohagey.Common.{
  ℕ, ◌+◌, ◌-◌, ◌%◌, Bool, true, false, not, ◌&&◌, ◌||◌, Option, none, some, leb, ◌==◌,
  if◌then◌else◌,
}
use ohagey.Composer.Punctuation.{Pairs, is_punctuation}
use ohagey.Keys.{
  category_none, category_composing, function_none, function_double_single_byte,
  function_punctuation, CandidateMode, is_none_mode, KeystrokeState, Slot, put, no_key,
  category_code, function_code,
}
use ohagey.Keys.Modifiers.{Modifiers}
use ohagey.Keys.Needed.{KeyTables, Answer}
use ohagey.Keys.Need.{KeyQuery, is_virtual_key_need}

abbrev pub is_touch_key : ℕ → Bool
is_touch_key wch = wch == 0xf003 || wch == 0xf004

-- The key that a character sent by VK_PACKET stands for.
abbrev key_of_char : ℕ → ℕ → ℕ
key_of_char wch key =
    if wch == 0x20
    then 0x20
    else if leb 0x30 wch && leb wch 0x39
    then wch
    else if leb 0x61 wch && leb wch 0x7a
    then 0x41 + (0x7a - wch)
    else if leb 0x41 wch && leb wch 0x5a
    then wch
    else if wch == 0xf003
    then 0x22
    else if wch == 0xf004
    then 0x21
    else key

unfoldable pub vkey_from_packet : ℕ → ℕ → ℕ
vkey_from_packet key wch = if key % 0x10000 == 0xe7 then key_of_char wch key else key

-- What _IsKeyboardDisabled finds: a focused document, a context in it, and the two compartments.
pub record Focus : Type 0 where
  pub has_document : Bool
  pub has_context : Bool
  pub keyboard_disabled : Bool
  pub empty_context : Bool

-- The second compartment is read into the variable of the first.
unfoldable pub is_keyboard_disabled : Focus → Bool
is_keyboard_disabled f =
    if not f.has_document then true else if not f.has_context then true else f.empty_context

-- What a key finds: the focus, the open and the width compartments, ConvertVKey's character, the
-- engine's tables and punctuation, the modifiers, and the text service's composition and mode.
pub record KeyContext : Type 0 where
  pub focus : Focus
  pub is_open : Bool
  pub is_double_single_byte : Bool
  pub convert_vkey : ℕ → ℕ
  pub tables : KeyTables
  pub pairs : Pairs
  pub modifiers : Modifiers
  pub composing : Bool
  pub mode : CandidateMode
  pub with_wildcard : Bool

abbrev pub is_double_single_byte_char : ℕ → Bool
is_double_single_byte_char wch = leb 0x20 wch && leb wch 0x7e

-- The answer, `*pCodeOut` and `*pwch`, and the state through the pointer.
pub record Eaten : Type 0 where
  pub eaten : Bool
  pub code : ℕ
  pub wch : ℕ
  pub slot : Slot

-- The answer of the engine, then punctuation, then the wide characters.
abbrev pub after_need : KeyContext → ℕ → ℕ → Answer → Eaten
after_need k code wch (true, slot) = record { eaten = true; code = code; wch = wch; slot = slot }
after_need k code wch (false, slot) =
    if is_punctuation k.pairs wch && is_none_mode k.mode
    then record {
      eaten = true;
      code = code;
      wch = wch;
      slot = put category_composing function_punctuation slot;
    }
    else if k.is_double_single_byte && is_double_single_byte_char wch && is_none_mode k.mode
    then record {
      eaten = true;
      code = code;
      wch = wch;
      slot = put category_composing function_double_single_byte slot;
    }
    else record { eaten = is_touch_key wch; code = code; wch = wch; slot = slot }

abbrev pub query : KeyContext → ℕ → ℕ → KeyQuery
query k code wch = record {
  code = code;
  wch = wch;
  composing = k.composing;
  mode = k.mode;
  with_wildcard = k.with_wildcard;
}

unfoldable pub is_key_eaten : KeyContext → ℕ → Slot → Eaten
is_key_eaten k code_in slot =
    let cleared = put category_none function_none slot in
    let wch = k.convert_vkey code_in in
    let code = vkey_from_packet code_in wch in
    if is_keyboard_disabled k.focus
    then record { eaten = false; code = code_in; wch = 0; slot = cleared }
    else if not k.is_open
    then record {
      eaten = is_touch_key wch;
      code = code;
      wch = if is_touch_key wch then wch else 0;
      slot = cleared;
    }
    else after_need k code wch (is_virtual_key_need k.tables k.modifiers (query k code wch) cleared)

-- What _InvokeKeyHandler is called with.
pub record Request : Type 0 where
  pub code : ℕ
  pub wch : ℕ
  pub state : KeystrokeState

abbrev as_composing : KeystrokeState → KeystrokeState
as_composing s = record s { category = category_composing }

abbrev is_invoke : KeystrokeState → Bool
is_invoke s = category_code s.category == 5

abbrev is_no_key : KeystrokeState → Bool
is_no_key s = (category_code s.category == 0) && (function_code s.function == 0)

abbrev pub request : Eaten → KeystrokeState → Option Request
request e s = some (record { code = e.code; wch = e.wch; state = s })

-- The state behind the pointer that the two handlers of a key that goes down pass.
abbrev state_in : Slot → KeystrokeState
state_in none = no_key
state_in (some s) = s

-- Whether the key is eaten, and the request that it makes.
unfoldable on_test_key_down : KeyContext → ℕ → Bool × Option Request
on_test_key_down k wparam =
    let e = is_key_eaten k wparam (some no_key) in
    let s = state_in e.slot in (e.eaten, if is_invoke s then request e (as_composing s) else none)

abbrev pub escape_composing : ℕ → KeystrokeState → KeystrokeState
escape_composing code s = if code == 0x1b then as_composing s else s

abbrev pub key_down_request : Eaten → Option Request
key_down_request e =
    let s = state_in e.slot in
    let t = escape_composing e.code s in
    if e.eaten
    then (if is_touch_key e.wch && is_no_key t then none else request e t)
    else if is_invoke s
    then request e (as_composing s)
    else none

unfoldable pub on_key_down : KeyContext → ℕ → Bool × Option Request
on_key_down k wparam = let e = is_key_eaten k wparam (some no_key) in (e.eaten, key_down_request e)

-- OnTestKeyUp and OnKeyUp pass a null pointer.
unfoldable on_key_up : KeyContext → ℕ → Bool
on_key_up k wparam = (is_key_eaten k wparam none).eaten
