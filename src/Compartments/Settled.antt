-- ===== src/Compartments/Settled.antt =====
-- The compartments agree with the word of the conversion mode once a change has been told to the
-- engine (tsf/SampleIME/CompositionProcessorEngine.cpp).
use mathlib.Core.Path.{subst}
use ohagey.Common.{◌≡◌, refl, sym, Bool, true, not, some}
use ohagey.Keys.Modifiers.{Keyboard}
use ohagey.Compartments.{
  Conversion, get_compartment_bool, get_compartment_dword, Compartments,
  conversion_mode_compartment_updated, CompartmentGuid, input_mode_conversion, compartment_callback,
}
use ohagey.Compartments.Preserved.{
  setup_preserved, PreservedGuid, ime_mode_guid, double_single_byte_key, punctuation_key,
  unknown_key, check_shift_key_only, toggle, on_preserved_key, compartment_of,
}
use ohagey.Compartments.Words.{brought-get, toggle-get}
use ohagey.Compartments.Agreed.{IsAgreed, private_told, open_told, bring_lem, callback-same}

-- The word that a preserved key makes.
abbrev pub toggled : PreservedGuid → Conversion → Conversion
toggled ime_mode_guid m = record m { native = not m.native }
toggled double_single_byte_key m = record m { full_shape = not m.full_shape }
toggled punctuation_key m = record m { symbol = not m.symbol }
toggled unknown_key m = m

abbrev pressed : Keyboard → PreservedGuid → Compartments → Bool × Compartments
pressed k g s = on_preserved_key k setup_preserved g s

abbrev told : Keyboard → PreservedGuid → Compartments → Compartments
told k g s = compartment_callback (compartment_of g) (pressed k g s).1

pressed-eaten : (k : Keyboard) (g : PreservedGuid) (s : Compartments) → (pressed k g s).0 ≡ true
unfolding on_preserved_key check_shift_key_only
pressed-eaten k ime_mode_guid s = refl
pressed-eaten k double_single_byte_key s = refl
pressed-eaten k punctuation_key s = refl
pressed-eaten k unknown_key s = refl

told-IsAgreed :
    (k : Keyboard) (g : PreservedGuid) (m : Conversion) (s : Compartments)
    → IsAgreed m s
    → IsAgreed (toggled g m) (told k g s)
unfolding on_preserved_key check_shift_key_only compartment_callback
told-IsAgreed k ime_mode_guid m s h =
    open_told m (toggled ime_mode_guid m) (record s { keyboard_open = toggle s.keyboard_open })
      (record {
        is_set = h.is_set;
        read = h.mode;
        opened = toggle-get s.keyboard_open m.native h.opened;
        double = h.double;
        marks = h.marks;
      })
      refl refl refl
told-IsAgreed k double_single_byte_key m s h =
    private_told m (toggled double_single_byte_key m)
      (record s { double_single_byte = toggle s.double_single_byte })
      (record {
        is_set = h.is_set;
        read = h.mode;
        opened = h.opened;
        double = toggle-get s.double_single_byte m.full_shape h.double;
        marks = h.marks;
      })
      refl refl
told-IsAgreed k punctuation_key m s h =
    private_told m (toggled punctuation_key m) (record s { punctuation = toggle s.punctuation })
      (record {
        is_set = h.is_set;
        read = h.mode;
        opened = h.opened;
        double = h.double;
        marks = toggle-get s.punctuation m.symbol h.marks;
      })
      refl refl
told-IsAgreed k unknown_key m s h = h

conversion-IsAgreed :
    (m : Conversion) (a b c : Bool) (s : Compartments)
    → s.has_conversion ≡ true
    → get_compartment_dword s.conversion ≡ some m
    → get_compartment_bool s.keyboard_open ≡ some a
    → get_compartment_bool s.double_single_byte ≡ some b
    → get_compartment_bool s.punctuation ≡ some c
    → IsAgreed m (compartment_callback input_mode_conversion s)
unfolding compartment_callback conversion_mode_compartment_updated
conversion-IsAgreed m a b c s set e opened double marks =
    subst (IsAgreed m)
      (sym (bring_lem m s s.has_conversion (get_compartment_dword s.conversion) set e))
      (record {
        is_set = set;
        mode = e;
        opened =
            brought-get m.native (get_compartment_bool s.keyboard_open) s.keyboard_open a opened
              refl;
        double =
            brought-get m.full_shape (get_compartment_bool s.double_single_byte)
              s.double_single_byte b double refl;
        marks =
            brought-get m.symbol (get_compartment_bool s.punctuation) s.punctuation c marks refl;
      })

-- When the three flags agree with the word of the conversion mode, a preserved key as it is set up
-- is eaten, and once the engine has been told of the compartment that it changed, they agree with
-- the word in which the key's bit alone is the other one; no callback changes anything after that.
pub on_preserved_key-settles :
    (k : Keyboard) (g : PreservedGuid) (m : Conversion) (s : Compartments)
    → IsAgreed m s
    → ((on_preserved_key k setup_preserved g s).0 ≡ true)
      × IsAgreed
          (toggled g m)
          (compartment_callback (compartment_of g) (on_preserved_key k setup_preserved g s).1)
      × ((h : CompartmentGuid)
          → compartment_callback h
              (compartment_callback (compartment_of g) (on_preserved_key k setup_preserved g s).1)
            ≡ compartment_callback (compartment_of g) (on_preserved_key k setup_preserved g s).1)
on_preserved_key-settles k g m s h = (
  pressed-eaten k g s,
  told-IsAgreed k g m s h,
  λ (c : CompartmentGuid). callback-same (toggled g m) c (told k g s) (told-IsAgreed k g m s h),
)

-- From flags that can be read, however they stand, a word of the conversion mode that is told to
-- the engine is what the three flags agree with, and no callback changes anything after that.
pub conversion_mode-settles :
    (m : Conversion) (a b c : Bool) (s : Compartments)
    → s.has_conversion ≡ true
    → get_compartment_dword s.conversion ≡ some m
    → get_compartment_bool s.keyboard_open ≡ some a
    → get_compartment_bool s.double_single_byte ≡ some b
    → get_compartment_bool s.punctuation ≡ some c
    → IsAgreed m (compartment_callback input_mode_conversion s)
      × ((h : CompartmentGuid)
          → compartment_callback h (compartment_callback input_mode_conversion s)
            ≡ compartment_callback input_mode_conversion s)
conversion_mode-settles m a b c s set e opened double marks =
    let agreed = conversion-IsAgreed m a b c s set e opened double marks in
    (
      agreed,
      λ (h : CompartmentGuid).
          callback-same m h (compartment_callback input_mode_conversion s) agreed,
    )
