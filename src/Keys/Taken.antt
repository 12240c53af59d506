-- ===== src/Keys/Taken.antt =====
-- What becomes of a key that the text service takes (tsf/SampleIME/KeyEventSink.cpp).
use ohagey.Common.{
  ℕ, ◌≡◌, refl, Bool, true, false, ◌&&◌, none, some, arith, ◌==◌, Bool-cases, if◌then◌else◌, inl,
  inr,
}
use ohagey.Composer.Punctuation.{is_punctuation}
use ohagey.Keys.{
  category_none, category_composing, function_none, function_punctuation,
  function_double_single_byte, KeystrokeFunction, Slot, put, no_key, is_phrase, is_none_mode,
}
use ohagey.Keys.Needed.{Answer, set_up}
use ohagey.Keys.Need.{is_virtual_key_need}
use ohagey.Keys.Category.{key_state_handler}
use ohagey.Keys.Good.{is_some, IsHandled, IsRight, put-IsHandled, is_set, put-is_set}
use ohagey.Keys.Handled.{need-IsRight}
use ohagey.Keys.Eaten.{
  KeyContext, Eaten, Request, is_key_eaten, after_need, is_touch_key, is_double_single_byte_char,
  query, vkey_from_packet, is_keyboard_disabled, on_key_down, key_down_request, escape_composing,
}

-- A key that is eaten leaves a state with a handler, unless it is a page key of the touch keyboard.
IsTaken : Eaten → Type 0
IsTaken e = e.eaten ≡ true → is_touch_key e.wch ≡ false → IsHandled e.code e.slot

after_need-IsTaken :
    (k : KeyContext) (code wch : ℕ) (a : Answer)
    → IsRight code a
    → IsTaken (after_need k code wch a)
unfolding IsTaken key_state_handler
after_need-IsTaken k code wch (true, slot) good = λ e touch. good
after_need-IsTaken k code wch (false, slot) kept =
    let plain : (f : KeystrokeFunction)
        → is_some (key_state_handler category_composing f) ≡ true
        → IsHandled code (put category_composing f slot) =
      (λ (f : KeystrokeFunction) (h : is_some (key_state_handler category_composing f) ≡ true).
        put-IsHandled code category_composing f slot kept
          (elim (Bool-cases (code == 0x1b)) [ inl c ↦ rw c h | inr c ↦ rw c h ])) in
    elim (Bool-cases (is_punctuation k.pairs wch && is_none_mode k.mode)) [
      | inl p ↦ rw p (λ e touch. plain function_punctuation refl)
      | inr p ↦
          rw p
            (elim (Bool-cases
              (k.is_double_single_byte && is_double_single_byte_char wch && is_none_mode k.mode)) [
                | inl d ↦ rw d (λ e touch. plain function_double_single_byte refl)
                | inr d ↦ rw d (λ (e : is_touch_key wch ≡ true) (touch : is_touch_key wch ≡ false).
                    absurd (grind arith))
              ])
    ]

closed-IsTaken :
    (wch code : ℕ) (slot : Slot)
    → IsTaken (record {
      eaten = is_touch_key wch;
      code = code;
      wch = if is_touch_key wch then wch else 0;
      slot = slot;
    })
unfolding IsTaken
closed-IsTaken wch code slot = λ (e : is_touch_key wch ≡ true).
    rw e (λ (touch : is_touch_key wch ≡ false). absurd (grind arith))

is_key_eaten-IsTaken :
    (k : KeyContext) (has_keys : Bool) (code_in : ℕ) (slot : Slot)
    → k.tables ≡ set_up has_keys
    → is_phrase k.mode ≡ false
    → is_set slot ≡ true
    → IsTaken (is_key_eaten k code_in slot)
unfolding is_key_eaten IsTaken
is_key_eaten-IsTaken k has_keys code_in slot tables mode set =
    let wch = k.convert_vkey code_in in
    let code = vkey_from_packet code_in wch in
    let cleared = put category_none function_none slot in
    let kept = put-is_set category_none function_none slot set in
    let needed = need-IsRight has_keys k.modifiers (query k code wch) mode cleared kept in
    elim (Bool-cases (is_keyboard_disabled k.focus)) [
      | inl d ↦ rw d (λ (e : false ≡ true) touch. absurd (grind arith))
      | inr d ↦ rw d (elim (Bool-cases k.is_open) [
        | inl o ↦ rw o (rw tables (after_need-IsTaken k code wch _ needed))
        | inr o ↦ rw o (closed-IsTaken wch code cleared)
      ])
    ]

after_need-wch : (k : KeyContext) (code wch : ℕ) (a : Answer) → (after_need k code wch a).wch ≡ wch
after_need-wch k code wch (true, slot) = refl
after_need-wch k code wch (false, slot) =
    elim (Bool-cases (is_punctuation k.pairs wch && is_none_mode k.mode)) [
      | inl p ↦ rw p refl
      | inr p ↦
          rw p
            (elim (Bool-cases
              (k.is_double_single_byte && is_double_single_byte_char wch && is_none_mode k.mode)) [
                | inl d ↦ rw d refl
                | inr d ↦ rw d refl
              ])
    ]

is_key_eaten-wch :
    (k : KeyContext) (code_in : ℕ) (slot : Slot)
    → is_touch_key (k.convert_vkey code_in) ≡ false
    → is_touch_key (is_key_eaten k code_in slot).wch ≡ false
unfolding is_key_eaten
is_key_eaten-wch k code_in slot touch =
    let wch = k.convert_vkey code_in in
    elim (Bool-cases (is_keyboard_disabled k.focus)) [
      | inl d ↦ rw d refl
      | inr d ↦ rw d (elim (Bool-cases k.is_open) [
        | inl o ↦ rw o (
            rw
              (after_need-wch k (vkey_from_packet code_in wch) wch (
                is_virtual_key_need k.tables k.modifiers
                  (query k (vkey_from_packet code_in wch) wch)
                  (put category_none function_none slot)))
              touch)
        | inr o ↦ rw o (rw touch refl)
      ])
    ]

request_made :
    (eaten : Bool) (code wch : ℕ) (slot : Slot)
    → eaten ≡ true
    → is_touch_key wch ≡ false
    → IsHandled code slot
    → (r : Request) × (key_down_request
          (record { eaten = eaten; code = code; wch = wch; slot = slot })
        ≡ some r)
      × (is_some (key_state_handler r.state.category r.state.function) ≡ true)
request_made false code wch slot taken quiet good = absurd (grind arith)
request_made true code wch none taken quiet good = absurd (grind arith)
request_made true code wch (some s) taken quiet good =
    (record { code = code; wch = wch; state = escape_composing code s }, rw quiet refl, good)

-- With the tables that the engine is set up with, outside the phrase mode, a key that OnKeyDown
-- takes, other than a page key of the touch keyboard, makes a request, and the category and the
-- function of that request have a handler.
pub on_key_down-handled :
    (k : KeyContext) (has_keys : Bool) (key : ℕ)
    → k.tables ≡ set_up has_keys
    → is_phrase k.mode ≡ false
    → is_touch_key (k.convert_vkey key) ≡ false
    → (on_key_down k key).0 ≡ true
    → (r : Request) × ((on_key_down k key).1 ≡ some r)
      × (is_some (key_state_handler r.state.category r.state.function) ≡ true)
unfolding on_key_down IsTaken
on_key_down-handled k has_keys key tables mode touch taken =
    let e = is_key_eaten k key (some no_key) in
    let quiet = is_key_eaten-wch k key (some no_key) touch in
    let good = is_key_eaten-IsTaken k has_keys key (some no_key) tables mode refl taken quiet in
    request_made e.eaten e.code e.wch e.slot taken quiet good
