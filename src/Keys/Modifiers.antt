-- ===== src/Keys/Modifiers.antt =====
-- The modifier keys (tsf/SampleIME/Globals.cpp). A word of modifiers is the record of its bits.
use ohagey.Common.{
  ℕ, ◌/◌, ◌%◌, ◌^◌, Bool, true, false, not, ◌&&◌, ◌||◌, List, [], ◌∷◌, ◌==◌, if◌then◌else◌,
}

-- TF_MOD_RALT and so on, TF_MOD_ON_KEYUP, TF_MOD_IGNORE_ALL_MODIFIER, and the bits that
-- _TF_MOD_ON_KEYUP_SHIFT_ONLY, CONTROL_ONLY and ALT_ONLY add (tsf/SampleIME/Define.h).
pub record Modifiers : Type 0 where
  pub ralt : Bool
  pub lalt : Bool
  pub alt : Bool
  pub rcontrol : Bool
  pub lcontrol : Bool
  pub control : Bool
  pub rshift : Bool
  pub lshift : Bool
  pub shift : Bool
  pub on_keyup : Bool
  pub ignore_all : Bool
  pub shift_only : Bool
  pub control_only : Bool
  pub alt_only : Bool

abbrev pub no_modifiers : Modifiers
no_modifiers = record {
  ralt = false;
  lalt = false;
  alt = false;
  rcontrol = false;
  lcontrol = false;
  control = false;
  rshift = false;
  lshift = false;
  shift = false;
  on_keyup = false;
  ignore_all = false;
  shift_only = false;
  control_only = false;
  alt_only = false;
}

-- The bits of a word in a list.
abbrev pub bits : Modifiers → List Bool
bits m =
    m.ralt ∷ m.lalt ∷ m.alt ∷ m.rcontrol ∷ m.lcontrol ∷ m.control ∷ m.rshift ∷ m.lshift ∷ m.shift
    ∷ m.on_keyup ∷ m.ignore_all ∷ m.shift_only ∷ m.control_only ∷ m.alt_only ∷ []

abbrev pub any_bit : List Bool → Bool
any_bit [] = false
any_bit (b ∷ bs) = b || any_bit bs

abbrev same_bit : Bool → Bool → Bool
same_bit true b = b
same_bit false b = not b

abbrev same_bits : List Bool → List Bool → Bool
same_bits [] [] = true
same_bits (a ∷ rest) (b ∷ bs) = same_bit a b && same_bits rest bs
same_bits _ _ = false

-- The macro CheckMod: the key of either side, or both words with the same sides.
abbrev check_mod : (m0 m1 r0 r1 l0 l1 : Bool) → Bool
check_mod m0 m1 r0 r1 l0 l1 = if m1 then m0 else same_bit r1 r0 && same_bit l1 l0

unfoldable pub check_modifiers : Modifiers → Modifiers → Bool
check_modifiers current wanted =
    let asked = record wanted { on_keyup = false } in
    if asked.ignore_all
    then true
    else if same_bits (bits current) (bits asked)
    then true
    else if any_bit (bits current) && not (any_bit (bits asked))
    then false
    else check_mod current.alt asked.alt current.ralt asked.ralt current.lalt asked.lalt
      && check_mod current.shift asked.shift current.rshift asked.rshift current.lshift asked.lshift
      && check_mod current.control asked.control current.rcontrol asked.rcontrol current.lcontrol
          asked.lcontrol

-- `ModifiersValue`, `IsShiftKeyDownOnly`, `IsControlKeyDownOnly` and `IsAltKeyDownOnly`.
pub record Keyboard : Type 0 where
  pub modifiers : Modifiers
  pub is_shift_key_down_only : Bool
  pub is_control_key_down_only : Bool
  pub is_alt_key_down_only : Bool

abbrev none_alone : Keyboard → Keyboard
none_alone k = record k {
  is_shift_key_down_only = false;
  is_control_key_down_only = false;
  is_alt_key_down_only = false;
}

-- Which of VK_MENU, VK_CONTROL and VK_SHIFT GetKeyState reports as down.
pub record Held : Type 0 where
  pub menu : Bool
  pub ctrl : Bool
  pub shft : Bool

-- The bits of lParam: 24 for an extended key, 30 for a key that was down before, 16 to 23 for the
-- scan code, which is 0x36 for the right shift.
abbrev bit_of : ℕ → ℕ → Bool
bit_of n k = n / 2 ^ k % 2 == 1

abbrev is_extended : ℕ → Bool
is_extended flags = bit_of flags 24

abbrev was_down : ℕ → Bool
was_down flags = bit_of flags 30

abbrev is_right_shift : ℕ → Bool
is_right_shift flags = flags / 0x10000 % 0x100 == 0x36

abbrev press_menu : ℕ → Modifiers → Modifiers
press_menu flags m =
    if is_extended flags
    then record m { ralt = true; alt = true }
    else record m { lalt = true; alt = true }

abbrev press_control : ℕ → Modifiers → Modifiers
press_control flags m =
    if is_extended flags
    then record m { rcontrol = true; control = true }
    else record m { lcontrol = true; control = true }

abbrev press_shift : ℕ → Modifiers → Modifiers
press_shift flags m =
    if is_right_shift flags
    then record m { rshift = true; shift = true }
    else record m { lshift = true; shift = true }

-- A key that was up before: alone if the other two are up.
abbrev pub alone : ℕ → Bool → (Keyboard → Keyboard) → Keyboard → Keyboard
alone flags others_down mark k =
    if was_down flags then k else if others_down then none_alone k else mark k

-- The three cases of the switch and its default.
abbrev key_event : ℕ → ℕ → Held → Keyboard → Keyboard
key_event code flags held k =
    if code == 0x12
    then (if held.menu
        then alone flags (held.ctrl || held.shft)
            (λ (b : Keyboard). record b { is_alt_key_down_only = true })
            (record k { modifiers = press_menu flags k.modifiers })
        else k)
    else if code == 0x11
    then (if held.ctrl
        then alone flags (held.shft || held.menu)
            (λ (b : Keyboard). record b { is_control_key_down_only = true })
            (record k { modifiers = press_control flags k.modifiers })
        else k)
    else if code == 0x10
    then (if held.shft
        then alone flags (held.menu || held.ctrl)
            (λ (b : Keyboard). record b { is_shift_key_down_only = true })
            (record k { modifiers = press_shift flags k.modifiers })
        else k)
    else none_alone k

-- The bits of keys that are up are taken off.
abbrev pub release : Held → Modifiers → Modifiers
release held m = record m {
  ralt = m.ralt && held.menu;
  lalt = m.lalt && held.menu;
  alt = m.alt && held.menu;
  rcontrol = m.rcontrol && held.ctrl;
  lcontrol = m.lcontrol && held.ctrl;
  control = m.control && held.ctrl;
  rshift = m.rshift && held.shft;
  lshift = m.lshift && held.shft;
  shift = m.shift && held.shft;
}

unfoldable update_modifiers : ℕ → ℕ → Held → Keyboard → Keyboard
update_modifiers wparam flags held k =
    let pressed = key_event (wparam % 0x100) flags held k in
    record pressed { modifiers = release held pressed.modifiers }
