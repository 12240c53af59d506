-- ===== src/Compartments/Tests.antt =====
-- Preserved keys and compartments at concrete inputs.
use ohagey.Common.{◌≡◌, refl, true, false}
use ohagey.Keys.Modifiers.{no_modifiers, Keyboard}
use ohagey.Compartments.{
  Compartments, Conversion, holds, unset, CompartmentGuid, input_mode_conversion,
  compartment_callback,
}
use ohagey.Compartments.Preserved.{setup_preserved, ime_mode_guid, on_preserved_key, compartment_of}
use ohagey.Compartments.Agreed.{IsAgreed}
use ohagey.Compartments.Settled.{on_preserved_key-settles, conversion_mode-settles}

abbrev at_rest : Keyboard
at_rest = record {
  modifiers = no_modifiers;
  is_shift_key_down_only = false;
  is_control_key_down_only = false;
  is_alt_key_down_only = false;
}

-- Hiragana: native, full shape and no symbols.
abbrev hiragana : Conversion
hiragana = record { native = true; full_shape = true; symbol = false; others = 0 }

abbrev agreed : Compartments
agreed = record {
  keyboard_open = holds true;
  double_single_byte = holds true;
  punctuation = unset;
  conversion = holds hiragana;
  has_conversion = true;
}

agreed-IsAgreed : IsAgreed hiragana agreed
agreed-IsAgreed = record { is_set = refl; mode = refl; opened = refl; double = refl; marks = refl }

on_preserved_key-settles_example :
    ((on_preserved_key at_rest setup_preserved ime_mode_guid agreed).0 ≡ true)
    × IsAgreed
        (record hiragana { native = false })
        (compartment_callback
          (compartment_of ime_mode_guid)
          (on_preserved_key at_rest setup_preserved ime_mode_guid agreed).1)
    × ((h : CompartmentGuid)
        → compartment_callback h (
            compartment_callback
              (compartment_of ime_mode_guid)
              (on_preserved_key at_rest setup_preserved ime_mode_guid agreed).1)
          ≡ compartment_callback
              (compartment_of ime_mode_guid)
              (on_preserved_key at_rest setup_preserved ime_mode_guid agreed).1)
on_preserved_key-settles_example =
    on_preserved_key-settles at_rest ime_mode_guid hiragana agreed agreed-IsAgreed

-- The word alone has changed.
abbrev told_word : Compartments
told_word = record agreed { keyboard_open = holds false; punctuation = holds true }

conversion_mode-settles_example :
    IsAgreed hiragana (compartment_callback input_mode_conversion told_word)
    × ((h : CompartmentGuid)
        → compartment_callback h (compartment_callback input_mode_conversion told_word)
          ≡ compartment_callback input_mode_conversion told_word)
conversion_mode-settles_example =
    conversion_mode-settles hiragana false true true told_word refl refl refl refl refl
