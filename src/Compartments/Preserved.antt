-- ===== src/Compartments/Preserved.antt =====
-- The preserved keys (tsf/SampleIME/CompositionProcessorEngine.cpp).
use ohagey.Common.{
  ℕ, Bool, true, false, not, ◌&&◌, ◌||◌, Option, none, some, List, [], ◌∷◌, if◌then◌else◌,
}
use ohagey.Keys.Modifiers.{Modifiers, no_modifiers, Keyboard}
use ohagey.Compartments.{
  Cell, Compartments, get_compartment_bool, set_compartment, CompartmentGuid,
  double_single_byte_guid, punctuation_guid, keyboard_openclose, another_guid,
}

-- TF_PRESERVEDKEY, and XPreservedKey by its table.
pub record PreservedKey : Type 0 where
  pub vkey : ℕ
  pub modifiers : Modifiers

abbrev pub preserved : ℕ → PreservedKey
preserved vkey = record { vkey = vkey; modifiers = no_modifiers }

abbrev with_shift : ℕ → PreservedKey
with_shift vkey = record { vkey = vkey; modifiers = record no_modifiers { shift = true } }

pub record PreservedKeys : Type 0 where
  pub ime_mode : List PreservedKey
  pub double_single_byte : List PreservedKey
  pub punctuation : List PreservedKey

-- VK_KANJI, VK_OEM_AUTO, VK_OEM_ENLW, VK_OEM_ATTN and VK_CAPITAL; VK_SPACE; VK_OEM_PERIOD.
abbrev pub setup_preserved : PreservedKeys
setup_preserved = record {
  ime_mode =
      preserved 0x19
      ∷ preserved 0xf3
      ∷ preserved 0xf4
      ∷ preserved 0xf0
      ∷ with_shift 0xf0
      ∷ preserved 0x14
      ∷ with_shift 0x14
      ∷ [];
  double_single_byte = with_shift 0x20 ∷ [];
  punctuation = record { vkey = 0xbe; modifiers = record no_modifiers { control = true } } ∷ [];
}

abbrev is_held_back : Keyboard → PreservedKey → Bool
is_held_back k key =
    (key.modifiers.shift_only && not k.is_shift_key_down_only)
    || (key.modifiers.control_only && not k.is_control_key_down_only)
    || (key.modifiers.alt_only && not k.is_alt_key_down_only)

unfoldable pub check_shift_key_only : Keyboard → List PreservedKey → Bool
check_shift_key_only k [] = true
check_shift_key_only k (key ∷ keys) =
    let rest = check_shift_key_only k keys in if is_held_back k key then false else rest

-- The GUIDs of the three preserved keys, or another.
pub data PreservedGuid : Type 0 where
  ime_mode_guid : PreservedGuid
  double_single_byte_key : PreservedGuid
  punctuation_key : PreservedGuid
  unknown_key : PreservedGuid

-- FALSE stands for what _GetCompartmentBOOL leaves when it fails.
abbrev flag_of : Option Bool → Bool
flag_of none = false
flag_of (some flag) = flag

abbrev pub toggle : Cell Bool → Cell Bool
toggle cell = set_compartment (if flag_of (get_compartment_bool cell) then false else true) cell

abbrev toggle_if : Bool → Compartments → Compartments → Bool × Compartments
toggle_if allowed s toggled = if allowed then (true, toggled) else (false, s)

-- Whether the key is eaten. The last statement writes TRUE, for an unknown GUID too.
unfoldable pub on_preserved_key :
    Keyboard → PreservedKeys → PreservedGuid → Compartments → Bool × Compartments
on_preserved_key k keys ime_mode_guid s =
    toggle_if (check_shift_key_only k keys.ime_mode) s
      (record s { keyboard_open = toggle s.keyboard_open })
on_preserved_key k keys double_single_byte_key s =
    toggle_if (check_shift_key_only k keys.double_single_byte) s
      (record s { double_single_byte = toggle s.double_single_byte })
on_preserved_key k keys punctuation_key s =
    toggle_if (check_shift_key_only k keys.punctuation) s
      (record s { punctuation = toggle s.punctuation })
on_preserved_key k keys unknown_key s = (true, s)

-- The compartment that a preserved key changes.
abbrev pub compartment_of : PreservedGuid → CompartmentGuid
compartment_of ime_mode_guid = keyboard_openclose
compartment_of double_single_byte_key = double_single_byte_guid
compartment_of punctuation_key = punctuation_guid
compartment_of unknown_key = another_guid
