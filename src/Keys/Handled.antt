-- ===== src/Keys/Handled.antt =====
-- Every key that the text service takes reaches a handler (tsf/SampleIME/KeyEventSink.cpp,
-- CompositionProcessorEngine.cpp, KeyStateCategory.cpp).
use ohagey.Common.{
  ◌≡◌, refl, Bool, true, false, Option, none, some, arith, ◌==◌, every, Bool-cases, inl, inr,
}
use ohagey.Keys.{
  category_invoke_composition_edit_session, function_finalize_textstore, KeystrokeFunction,
  category_none, put, category_code, category_composing, Slot, is_incremental, is_with_next,
  CandidateMode, candidate_none, candidate_original, candidate_phrase, candidate_incremental,
  candidate_with_next_composition, is_phrase, function_input, function_none,
}
use ohagey.Keys.Modifiers.{Modifiers}
use ohagey.Keys.Needed.{
  composing_as, find_composition, keystroke_table, KeyTables, set_up,
  is_virtual_key_keystroke_composition, Answer, is_range, initial_range, is_keystroke_range,
  range_in_mode, has_phrase_modifier,
}
use ohagey.Keys.Need.{
  early_parts, Part, and_then, switch, KeyQuery, is_virtual_key_need, composing_part, list_part,
  start_part, system_part, candidate_part, phrase_part, range_part, composing_keys,
  incremental_keys, candidate_keys, next_composition, wildcard_key, wildcard_list, ask_composition,
  after_range, flush, flush_after, or_range, early_parts, late_parts,
}
use ohagey.Keys.Category.{key_state_handler}
use ohagey.Keys.Good.{
  put-is_set, is_set, IsGood, IsRight, and_then-IsGood, put-IsHandled, done-IsGood, true-IsGood,
  good_case, switch-IsGood, input-handled, composition-IsGood, if-IsGood, restart-IsGood,
  empty_list-IsGood, no_next_composition,
}

module _ (has_keys : Bool) (mods : Modifiers) (q : KeyQuery) where
  abbrev tables : KeyTables
  tables = set_up has_keys

  composing_part-IsGood :
      (slot : Slot) → is_set slot ≡ true → IsGood q.code (composing_part tables mods q slot)
  unfolding composing_part
  composing_part-IsGood slot set =
      if-IsGood q.code _ _ (none, slot)
        (and_then-IsGood q.code _ (wildcard_key tables mods q)
          (composition-IsGood has_keys mods q.code function_none slot set)
          (λ (s : Slot) (kept : is_set s ≡ true).
            if-IsGood q.code _ _ (none, s)
              (true-IsGood q.code _ (
                put-IsHandled q.code category_composing function_input s kept
                  (input-handled q.code)))
              (done-IsGood q.code s kept)))
        (done-IsGood q.code slot set)

  list_part-IsGood :
      (slot : Slot) → is_set slot ≡ true → IsGood q.code (list_part tables mods q slot)
  unfolding list_part
  list_part-IsGood slot set =
      if-IsGood q.code _ _ _
        (and_then-IsGood q.code (and_then _ (wildcard_list tables mods q)) _
          (and_then-IsGood q.code _ (wildcard_list tables mods q)
            (empty_list-IsGood mods q.code q.mode slot set)
            (λ (s : Slot) (kept : is_set s ≡ true).
              if-IsGood q.code q.with_wildcard _ (none, s)
                (empty_list-IsGood mods q.code q.mode s kept) (done-IsGood q.code s kept)))
          (λ (s : Slot) (kept : is_set s ≡ true).
            restart-IsGood tables mods q _
              (composition-IsGood has_keys mods q.code function_input s kept)))
        (if-IsGood q.code (is_incremental q.mode) _ (none, slot)
          (empty_list-IsGood mods q.code q.mode slot set) (done-IsGood q.code slot set))

  start_part-IsGood :
      (slot : Slot) → is_set slot ≡ true → IsGood q.code (start_part tables mods q slot)
  unfolding start_part
  start_part-IsGood slot set =
      if-IsGood q.code _ _ (none, slot)
        (composition-IsGood has_keys mods q.code function_input slot set)
        (done-IsGood q.code slot set)

  system_part-IsGood :
      (slot : Slot) → is_set slot ≡ true → IsGood q.code (system_part tables mods q slot)
  unfolding system_part key_state_handler
  system_part-IsGood slot set =
      if-IsGood q.code _ _ (none, slot)
        (if-IsGood q.code _ (switch q.code composing_keys slot)
          (switch q.code incremental_keys slot) (switch-IsGood q.code composing_keys slot set refl)
          (switch-IsGood q.code incremental_keys slot set refl))
        (done-IsGood q.code slot set)

  candidate_keys-good : every good_case (candidate_keys q.mode) ≡ true
  unfolding key_state_handler
  candidate_keys-good = elim (Bool-cases (is_with_next q.mode)) [
    | inl e ↦ rw e refl
    | inr e ↦ rw e refl
  ]

  candidate_part-IsGood :
      (slot : Slot) → is_set slot ≡ true → IsGood q.code (candidate_part tables mods q slot)
  unfolding candidate_part is_virtual_key_keystroke_composition
  candidate_part-IsGood slot set =
      if-IsGood q.code _ _ (none, slot)
        (and_then-IsGood q.code (switch q.code (candidate_keys q.mode) slot)
          (next_composition tables mods q)
          (switch-IsGood q.code (candidate_keys q.mode) slot set candidate_keys-good)
          (λ (s : Slot) (kept : is_set s ≡ true).
            rw (no_next_composition tables mods q s) (done-IsGood q.code s kept)))
        (done-IsGood q.code slot set)

  -- In every mode but that of phrases, whose conversion key has no handler.
  phrase_part-IsGood :
      is_phrase q.mode ≡ false
      → (slot : Slot) → is_set slot ≡ true
      → IsGood q.code (phrase_part tables mods q slot)
  unfolding phrase_part
  phrase_part-IsGood e slot set = rw e (done-IsGood q.code slot set)

  not_a_number : is_range initial_range q.code ≡ true → (q.code == 0x1b) ≡ false
  unfolding is_range initial_range
  not_a_number h = ground arith

  range_in_mode-IsRight :
      is_phrase q.mode ≡ false
      → (q.code == 0x1b) ≡ false
      → IsRight q.code (range_in_mode tables mods q.mode)
  unfolding key_state_handler
  range_in_mode-IsRight e no_escape = in_mode q.mode e
    where
      in_mode :
          (mode : CandidateMode)
          → is_phrase mode ≡ false
          → IsRight q.code (range_in_mode tables mods mode)
      in_mode candidate_none e = refl
      in_mode candidate_original e = rw no_escape refl
      in_mode candidate_phrase e = absurd (grind arith)
      in_mode candidate_incremental e = rw no_escape refl
      in_mode candidate_with_next_composition e =
          elim (Bool-cases (has_phrase_modifier tables mods)) [
            | inl m ↦ rw m (rw no_escape refl)
            | inr m ↦ rw m refl
          ]

  range-IsRight :
      is_phrase q.mode ≡ false
      → (slot : Slot) → is_set slot ≡ true
      → IsRight q.code (is_keystroke_range tables mods q.code q.mode slot)
  unfolding is_keystroke_range
  range-IsRight e none set = set
  range-IsRight e (some s) set = elim (Bool-cases (is_range initial_range q.code)) [
    | inl n ↦ rw n (range_in_mode-IsRight e (not_a_number n))
    | inr n ↦ rw n refl
  ]

  composing_as-is_set : (found : Option KeystrokeFunction) → is_set (composing_as found).1 ≡ true
  composing_as-is_set none = refl
  composing_as-is_set (some f) = refl

  ask-is_set :
      (f : KeystrokeFunction) (slot : Slot)
      → is_set slot ≡ true
      → is_set (ask_composition tables mods q f slot).1 ≡ true
  unfolding is_virtual_key_keystroke_composition
  ask-is_set f none set = set
  ask-is_set f (some s) set = composing_as-is_set (find_composition mods q.code f keystroke_table)

  flush_after-IsRight :
      (a : Answer) → is_set a.1 ≡ true → IsRight q.code (flush_after tables mods q a)
  flush_after-IsRight (true, slot) set = set
  flush_after-IsRight (false, slot) set =
      put-is_set category_invoke_composition_edit_session function_finalize_textstore slot set

  flush-IsRight : (slot : Slot) → is_set slot ≡ true → IsRight q.code (flush tables mods q slot)
  flush-IsRight slot set = elim (Bool-cases (q.wch == 0)) [
    | inl n ↦ rw n set
    | inr n ↦ rw n (
        flush_after-IsRight (ask_composition tables mods q function_none slot)
          (ask-is_set function_none slot set))
  ]

  after_range-IsRight :
      (a : Answer) → IsRight q.code a → IsRight q.code (after_range tables mods q a)
  after_range-IsRight (true, slot) good = good
  after_range-IsRight (false, none) good = flush-IsRight none good
  after_range-IsRight (false, some s) good = elim (Bool-cases (category_code s.category == 0)) [
    | inl n ↦ rw n (flush-IsRight (some s) refl)
    | inr n ↦ rw n refl
  ]

  or_range-IsRight :
      is_phrase q.mode ≡ false
      → (p : Part) → IsGood q.code p
      → IsRight q.code (or_range tables mods q p)
  unfolding IsGood range_part
  or_range-IsRight e (some true, slot) good = good
  or_range-IsRight e (some false, slot) good = good
  or_range-IsRight e (none, slot) good =
      after_range-IsRight (is_keystroke_range tables mods q.code q.mode slot)
        (range-IsRight e slot good)

  early_parts-IsGood :
      (slot : Slot) → is_set slot ≡ true → IsGood q.code (early_parts tables mods q slot)
  early_parts-IsGood slot set =
      and_then-IsGood q.code _ (start_part tables mods q)
        (and_then-IsGood q.code _ (list_part tables mods q) (composing_part-IsGood slot set)
          list_part-IsGood)
        start_part-IsGood

  late_parts-IsGood :
      is_phrase q.mode ≡ false
      → (slot : Slot) → is_set slot ≡ true
      → IsGood q.code (late_parts tables mods q slot)
  late_parts-IsGood e slot set =
      and_then-IsGood q.code _ (phrase_part tables mods q)
        (and_then-IsGood q.code _ (candidate_part tables mods q) (system_part-IsGood slot set)
          candidate_part-IsGood)
        (phrase_part-IsGood e)

  pub need-IsRight :
      is_phrase q.mode ≡ false
      → (slot : Slot) → is_set slot ≡ true
      → IsRight q.code (is_virtual_key_need tables mods q slot)
  unfolding is_virtual_key_need
  need-IsRight e slot set = or_range-IsRight e _ (
      and_then-IsGood q.code _ (late_parts tables mods q)
        (early_parts-IsGood (put category_none function_none slot)
          (put-is_set category_none function_none slot set))
        (late_parts-IsGood e))
