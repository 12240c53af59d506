-- ===== src/Keys/Good.antt =====
-- Parts of `IsVirtualKeyNeed` (tsf/SampleIME/CompositionProcessorEngine.cpp) that leave a state with a
-- handler (tsf/SampleIME/KeyStateCategory.cpp).
use ohagey.Common.{
  ℕ, zero, suc, ◌+◌, ◌≡◌, refl, sym, Bool, true, false, ◌&&◌, Option, none, some, List, [], ◌∷◌,
  arith, ◌==◌, ==_iff, every, All, if◌then◌else◌, Bool-cases, inl, inr, ◌++◌,
}
use mathlib.Core.Path.{subst}
use ohagey.Keys.{
  KeystrokeCategory, category_composing, KeystrokeFunction, KeystrokeState, Slot, put, is_original,
  is_with_next, category_candidate, function_finalize_candidatelist_and_input, CandidateMode,
  function_input,
}
use ohagey.Keys.Modifiers.{Modifiers}
use ohagey.Keys.Needed.{
  KeyTables, KeystrokeEntry, set_up, find_composition, find_candidate,
  is_virtual_key_keystroke_composition, is_virtual_key_keystroke_candidate, Answer, composing_as,
  keystroke_table, letter_keys, input_key,
}
use ohagey.Keys.Need.{
  Part, and_then, if_so, returns, Case, switch, KeyQuery, next_composition, restart_if,
}
use ohagey.Keys.Category.{key_state_handler, ServiceCall}
use ohagey.Keys.Eaten.{escape_composing}

abbrev pub is_some : Option ServiceCall → Bool
is_some none = false
is_some (some c) = true

-- A state whose handler exists once the escape key has been made a composing one.
abbrev is_handled : ℕ → KeystrokeState → Bool
is_handled code s =
    let t = escape_composing code s in is_some (key_state_handler t.category t.function)

abbrev pub is_set : Slot → Bool
is_set none = false
is_set (some s) = true

-- The pointer leads to a state with a handler.
abbrev pub IsHandled : ℕ → Slot → Type 0
IsHandled code none = false ≡ true
IsHandled code (some s) = is_handled code s ≡ true

-- A part that answers TRUE leaves such a state, and any other keeps the pointer.
unfoldable pub IsGood : ℕ → Part → Type 0
IsGood code (some true, slot) = IsHandled code slot
IsGood code (some false, slot) = is_set slot ≡ true
IsGood code (none, slot) = is_set slot ≡ true

-- The same of an answer.
abbrev pub IsRight : ℕ → Answer → Type 0
IsRight code (true, slot) = IsHandled code slot
IsRight code (false, slot) = is_set slot ≡ true

pub and_then-IsGood :
    (code : ℕ) (p : Part) (rest : Slot → Part)
    → IsGood code p
    → ((s : Slot) → is_set s ≡ true → IsGood code (rest s))
    → IsGood code (and_then p rest)
unfolding IsGood
and_then-IsGood code (some true, slot) rest good later = good
and_then-IsGood code (some false, slot) rest good later = good
and_then-IsGood code (none, slot) rest good later = later slot good

pub put-IsHandled :
    (code : ℕ) (c : KeystrokeCategory) (f : KeystrokeFunction) (slot : Slot)
    → is_set slot ≡ true
    → is_handled code (record { category = c; function = f }) ≡ true
    → IsHandled code (put c f slot)
put-IsHandled code c f none set good = set
put-IsHandled code c f (some s) set good = good

handled-is_set : (code : ℕ) (slot : Slot) → IsHandled code slot → is_set slot ≡ true
handled-is_set code none good = good
handled-is_set code (some s) good = refl

and_left : (a b : Bool) → (a && b) ≡ true → a ≡ true
and_left a b h = ground arith

and_right : (a b : Bool) → (a && b) ≡ true → b ≡ true
and_right a b h = ground arith

pub done-IsGood : (code : ℕ) (slot : Slot) → is_set slot ≡ true → IsGood code (none, slot)
unfolding IsGood
done-IsGood code slot set = set

pub true-IsGood : (code : ℕ) (slot : Slot) → IsHandled code slot → IsGood code (some true, slot)
unfolding IsGood
true-IsGood code slot good = good

-- The cases of a switch that return TRUE.
abbrev pub good_case : Case → Bool
good_case (key, c, f, true) = is_handled key (record { category = c; function = f })
good_case (key, c, f, false) = true

pub put-is_set :
    (c : KeystrokeCategory) (f : KeystrokeFunction) (slot : Slot)
    → is_set slot ≡ true
    → is_set (put c f slot) ≡ true
put-is_set c f none set = set
put-is_set c f (some s) set = refl

case-IsGood :
    (key : ℕ) (c : KeystrokeCategory) (f : KeystrokeFunction) (answer : Bool) (slot : Slot)
    → is_set slot ≡ true
    → good_case (key, c, f, answer) ≡ true
    → IsGood key (returns c f answer slot)
unfolding IsGood
case-IsGood key c f true slot set good = put-IsHandled key c f slot set good
case-IsGood key c f false slot set good = put-is_set c f slot set

pub switch-IsGood :
    (code : ℕ) (cases : List Case) (slot : Slot)
    → is_set slot ≡ true
    → every good_case cases ≡ true
    → IsGood code (switch code cases slot)
unfolding IsGood
switch-IsGood code [] slot set good = set
switch-IsGood code ((key, c, f, answer) ∷ cases) slot set good = elim (Bool-cases (code == key)) [
  | inl e ↦ rw e (
      subst (λ (n : ℕ). IsGood n (returns c f answer slot)) (sym ((==_iff code key).0 e))
        (case-IsGood key c f answer slot set (and_left _ _ good)))
  | inr e ↦ rw e (switch-IsGood code cases slot set (and_right _ _ good))
]

abbrev AllInput : List KeystrokeEntry → Type 0
AllInput = All (λ (e : KeystrokeEntry). e.function ≡ function_input)

find_composition_lem :
    (mods : Modifiers) (code : ℕ) (f : KeystrokeFunction) (es : List KeystrokeEntry)
    (g : KeystrokeFunction)
    → AllInput es
    → find_composition mods code f es ≡ some g
    → g ≡ function_input
unfolding find_composition
find_composition_lem mods code f [] g inputs e = absurd (grind arith)
find_composition_lem mods code f (k ∷ ks) g (input, inputs) e =
    let later = find_composition_lem mods code f ks g inputs in grind (arith, later)

letters_then_inputs :
    (key n : ℕ) (es : List KeystrokeEntry) → AllInput es → AllInput (letter_keys key n ++ es)
letters_then_inputs key zero es h = h
letters_then_inputs key (suc n) es h = (refl, letters_then_inputs (key + 1) n es h)

table_inputs : AllInput keystroke_table
unfolding keystroke_table
table_inputs = letters_then_inputs 0x41 26 (input_key 0xbd ∷ []) (refl, tt)

pub input-handled :
    (code : ℕ)
    → is_handled code (record { category = category_composing; function = function_input }) ≡ true
unfolding key_state_handler
input-handled code = elim (Bool-cases (code == 0x1b)) [ inl e ↦ rw e refl | inr e ↦ rw e refl ]

composing_as-IsGood :
    (code : ℕ) (found : Option KeystrokeFunction)
    → ((g : KeystrokeFunction) → found ≡ some g → g ≡ function_input)
    → IsGood code (if_so (composing_as found))
unfolding IsGood
composing_as-IsGood code none known = refl
composing_as-IsGood code (some g) known =
    subst
      (λ (f : KeystrokeFunction).
        is_handled code (record { category = category_composing; function = f }) ≡ true)
      (sym (known g refl)) (input-handled code)

pub composition-IsGood :
    (has_keys : Bool) (mods : Modifiers) (code : ℕ) (f : KeystrokeFunction) (slot : Slot)
    → is_set slot ≡ true
    → IsGood code (if_so (is_virtual_key_keystroke_composition (set_up has_keys) mods code f slot))
unfolding IsGood is_virtual_key_keystroke_composition
composition-IsGood has_keys mods code f none set = set
composition-IsGood has_keys mods code f (some s) set =
    composing_as-IsGood code (find_composition mods code f keystroke_table)
      (λ (g : KeystrokeFunction) (e : find_composition mods code f keystroke_table ≡ some g).
        find_composition_lem mods code f keystroke_table g table_inputs e)

pub if-IsGood :
    (code : ℕ) (b : Bool) (p r : Part)
    → IsGood code p
    → IsGood code r
    → IsGood code (if b then p else r)
unfolding IsGood
if-IsGood code true p r good other = good
if-IsGood code false p r good other = other

pub restart-IsGood :
    (t : KeyTables) (mods : Modifiers) (q : KeyQuery) (a : Answer)
    → IsGood q.code (if_so a)
    → IsGood q.code (restart_if t mods q a)
unfolding IsGood key_state_handler
restart-IsGood t mods q (false, slot) good = good
restart-IsGood t mods q (true, slot) good = elim (Bool-cases (is_original q.mode)) [
  | inl e ↦ rw e (
      put-IsHandled q.code category_candidate function_finalize_candidatelist_and_input slot
        (handled-is_set q.code slot good)
        (elim (Bool-cases (q.code == 0x1b)) [ inl e ↦ rw e refl | inr e ↦ rw e refl ]))
  | inr e ↦ rw e good
]

pub empty_list-IsGood :
    (mods : Modifiers) (code : ℕ) (mode : CandidateMode) (slot : Slot)
    → is_set slot ≡ true
    → IsGood code (if_so (is_virtual_key_keystroke_candidate [] mods code mode slot))
unfolding IsGood is_virtual_key_keystroke_candidate find_candidate
empty_list-IsGood mods code mode slot set = set

-- The question that a list with a next composition asks is asked of a null pointer.
pub no_next_composition :
    (t : KeyTables) (mods : Modifiers) (q : KeyQuery) (slot : Slot)
    → next_composition t mods q slot ≡ (none, slot)
unfolding is_virtual_key_keystroke_composition
no_next_composition t mods q slot = elim (Bool-cases (is_with_next q.mode)) [
  | inl e ↦ rw e refl
  | inr e ↦ rw e refl
]
