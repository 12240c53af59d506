-- ===== src/Compartments.antt =====
-- The compartments that hold the input mode, and the preserved keys that change them
-- (tsf/SampleIME/Compartment.cpp, CompositionProcessorEngine.cpp).
pub mod Preserved
pub mod Words
pub mod Agreed
pub mod Settled
mod Tests
use ohagey.Common.{ℕ, Bool, true, false, not, ◌&&◌, ◌||◌, Option, none, some, ◌==◌, if◌then◌else◌}

-- A compartment: GetCompartment or GetValue fails, its value is no VT_I4, or it is.
pub data Cell (A : Type 0) : Type 0 where
  unreachable : Cell A
  unset : Cell A
  holds : A → Cell A

-- The word of GUID_COMPARTMENT_KEYBOARD_INPUTMODE_CONVERSION: the bits TF_CONVERSIONMODE_NATIVE,
-- FULLSHAPE and SYMBOL, and the word that its other bits make.
pub record Conversion : Type 0 where
  pub native : Bool
  pub full_shape : Bool
  pub symbol : Bool
  pub others : ℕ

abbrev zero_word : Conversion
zero_word = record { native = false; full_shape = false; symbol = false; others = 0 }

-- `_GetCompartmentBOOL`: a result that is no failure, with FALSE for a value of another type.
abbrev pub get_compartment_bool : Cell Bool → Option Bool
get_compartment_bool unreachable = none
get_compartment_bool unset = some false
get_compartment_bool (holds flag) = some flag

abbrev pub get_compartment_dword : Cell Conversion → Option Conversion
get_compartment_dword unreachable = none
get_compartment_dword unset = some zero_word
get_compartment_dword (holds mode) = some mode

-- `_SetCompartmentBOOL` and `_SetCompartmentDWORD`.
abbrev pub set_compartment : {A : Type 0} → A → Cell A → Cell A
set_compartment a unreachable = unreachable
set_compartment a _ = holds a

-- The compartments of the thread manager, and whether `_pCompartmentConversion` is set.
pub record Compartments : Type 0 where
  pub keyboard_open : Cell Bool
  pub double_single_byte : Cell Bool
  pub punctuation : Cell Bool
  pub conversion : Cell Conversion
  pub has_conversion : Bool

abbrev pub same : Bool → Bool → Bool
same true b = b
same false b = not b

abbrev pub same_mode : Conversion → Conversion → Bool
same_mode a b =
    same a.native b.native
    && same a.full_shape b.full_shape
    && same a.symbol b.symbol
    && a.others == b.others

-- A compartment that is brought to a bit of the word.
abbrev pub brought : Option Bool → Bool → Cell Bool → Cell Bool
brought none bit cell = cell
brought (some flag) bit cell =
    if not flag && bit
    then set_compartment true cell
    else if flag && not bit
    then set_compartment false cell
    else cell

abbrev pub bring : Bool → Cell Bool → Cell Bool
bring bit cell = brought (get_compartment_bool cell) bit cell

abbrev pub bring_all : Option Conversion → Compartments → Compartments
bring_all none s = s
bring_all (some mode) s = record s {
  double_single_byte = bring mode.full_shape s.double_single_byte;
  punctuation = bring mode.symbol s.punctuation;
  keyboard_open = bring mode.native s.keyboard_open;
}

unfoldable pub conversion_mode_compartment_updated : Compartments → Compartments
conversion_mode_compartment_updated s =
    if not s.has_conversion then s else bring_all (get_compartment_dword s.conversion) s

-- A bit of the word that follows a compartment.
abbrev pub bit_from : Option Bool → Bool → Bool
bit_from none bit = bit
bit_from (some flag) bit = if not flag && bit then false else if flag && not bit then true else bit

abbrev pub set_if_changed : Conversion → Conversion → Compartments → Compartments
set_if_changed mode previous s =
    if same_mode mode previous
    then s
    else record s { conversion = set_compartment mode s.conversion }

abbrev pub private_mode : Compartments → Conversion → Conversion
private_mode s mode = record mode {
  full_shape = bit_from (get_compartment_bool s.double_single_byte) mode.full_shape;
  symbol = bit_from (get_compartment_bool s.punctuation) mode.symbol;
}

abbrev pub private_with : Option Conversion → Compartments → Compartments
private_with none s = s
private_with (some mode) s = set_if_changed (private_mode s mode) mode s

unfoldable pub private_compartments_updated : Compartments → Compartments
private_compartments_updated s =
    if not s.has_conversion then s else private_with (get_compartment_dword s.conversion) s

abbrev pub open_mode : Compartments → Conversion → Conversion
open_mode s mode = record mode {
  native = bit_from (get_compartment_bool s.keyboard_open) mode.native;
}

abbrev pub open_with : Option Conversion → Compartments → Compartments
open_with none s = s
open_with (some mode) s = set_if_changed (open_mode s mode) mode s

unfoldable pub keyboard_open_compartment_updated : Compartments → Compartments
keyboard_open_compartment_updated s =
    if not s.has_conversion then s else open_with (get_compartment_dword s.conversion) s

-- The GUIDs of the compartments whose changes the engine is told.
pub data CompartmentGuid : Type 0 where
  double_single_byte_guid : CompartmentGuid
  punctuation_guid : CompartmentGuid
  input_mode_conversion : CompartmentGuid
  input_mode_sentence : CompartmentGuid
  keyboard_openclose : CompartmentGuid
  another_guid : CompartmentGuid

unfoldable pub compartment_callback : CompartmentGuid → Compartments → Compartments
compartment_callback double_single_byte_guid s = private_compartments_updated s
compartment_callback punctuation_guid s = private_compartments_updated s
compartment_callback input_mode_conversion s = conversion_mode_compartment_updated s
compartment_callback input_mode_sentence s = conversion_mode_compartment_updated s
compartment_callback keyboard_openclose s = keyboard_open_compartment_updated s
compartment_callback another_guid s = s

-- InitializeSampleIMECompartment.
unfoldable initialize_compartments : Compartments → Compartments
initialize_compartments s = private_compartments_updated (record s {
  keyboard_open = set_compartment true s.keyboard_open;
  double_single_byte = set_compartment false s.double_single_byte;
  punctuation = set_compartment true s.punctuation;
})
