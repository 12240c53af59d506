-- ===== src/Keys/Need.antt =====
-- `IsVirtualKeyNeed` (tsf/SampleIME/CompositionProcessorEngine.cpp), one part after the other.
use ohagey.Common.{
  ℕ, Bool, true, false, not, ◌&&◌, ◌||◌, Option, none, some, List, [], ◌∷◌, ◌==◌, if◌then◌else◌,
}
use ohagey.Keys.{
  KeystrokeCategory, KeystrokeFunction, category_code, CandidateMode, is_none_mode, is_original,
  is_phrase, is_incremental, is_with_next, Slot, put, category_none, category_composing,
  category_candidate, category_phrase, category_invoke_composition_edit_session, function_none,
  function_input, function_cancel, function_finalize_textstore,
  function_finalize_textstore_and_input, function_finalize_candidatelist,
  function_finalize_candidatelist_and_input, function_convert, function_convert_wildcard,
  function_backspace, function_move_left, function_move_right, function_move_up, function_move_down,
  function_move_page_up, function_move_page_down, function_move_page_top, function_move_page_bottom,
}
use ohagey.Keys.Modifiers.{Modifiers}
use ohagey.Keys.Needed.{
  KeyTables, is_wildcard_char, is_list_mode, Answer, is_virtual_key_keystroke_composition,
  is_virtual_key_keystroke_candidate, is_keystroke_range,
}

-- A part of the function either returns or goes on.
abbrev pub Part : Type 0
Part = Option Bool × Slot

abbrev pub and_then : Part → (Slot → Part) → Part
and_then (some answer, slot) rest = (some answer, slot)
and_then (none, slot) rest = rest slot

-- `if (f(...)) return TRUE;`
abbrev pub if_so : Answer → Part
if_so (true, slot) = (some true, slot)
if_so (false, slot) = (none, slot)

abbrev pub returns : KeystrokeCategory → KeystrokeFunction → Bool → Slot → Part
returns c f answer slot = (some answer, put c f slot)

-- A key with its category, its function and the answer, in a switch.
abbrev pub Case : Type 0
Case = ℕ × KeystrokeCategory × KeystrokeFunction × Bool

abbrev pub switch : ℕ → List Case → Slot → Part
switch code [] slot = (none, slot)
switch code ((key, c, f, answer) ∷ cases) slot =
    if code == key then returns c f answer slot else switch code cases slot

-- The six keys that move in a list: VK_UP, VK_DOWN, VK_PRIOR, VK_NEXT, VK_HOME, VK_END.
abbrev list_keys : KeystrokeCategory → List Case → List Case
list_keys c more =
    (0x26, c, function_move_up, true)
    ∷ (0x28, c, function_move_down, true)
    ∷ (0x21, c, function_move_page_up, true)
    ∷ (0x22, c, function_move_page_down, true)
    ∷ (0x24, c, function_move_page_top, true)
    ∷ (0x23, c, function_move_page_bottom, true)
    ∷ more

-- VK_LEFT, VK_RIGHT, VK_RETURN, VK_ESCAPE, VK_BACK, the list's keys, and VK_SPACE.
abbrev pub composing_keys : List Case
composing_keys =
    (0x25, category_composing, function_move_left, true)
    ∷ (0x27, category_composing, function_move_right, true)
    ∷ (0x0d, category_composing, function_finalize_candidatelist, true)
    ∷ (0x1b, category_composing, function_cancel, true)
    ∷ (0x08, category_composing, function_backspace, true)
    ∷ list_keys category_composing ((0x20, category_composing, function_convert, true) ∷ [])

abbrev pub incremental_keys : List Case
incremental_keys =
    (0x25, category_invoke_composition_edit_session, function_cancel, false)
    ∷ (0x27, category_invoke_composition_edit_session, function_cancel, false)
    ∷ (0x0d, category_candidate, function_finalize_candidatelist, true)
    ∷ (0x1b, category_candidate, function_cancel, true)
    ∷ (0x08, category_composing, function_backspace, true)
    ∷ list_keys category_candidate ((0x20, category_candidate, function_convert, true) ∷ [])

abbrev escape_key : CandidateMode → Case
escape_key mode =
    if is_with_next mode
    then (0x1b, category_invoke_composition_edit_session, function_finalize_textstore, true)
    else (0x1b, category_candidate, function_cancel, true)

abbrev pub candidate_keys : CandidateMode → List Case
candidate_keys mode = list_keys category_candidate (
    (0x0d, category_candidate, function_finalize_candidatelist, true)
    ∷ (0x20, category_candidate, function_convert, true)
    ∷ (0x08, category_candidate, function_cancel, true)
    ∷ escape_key mode
    ∷ [])

abbrev phrase_keys : List Case
phrase_keys = list_keys category_phrase (
    (0x0d, category_phrase, function_finalize_candidatelist, true)
    ∷ (0x20, category_phrase, function_convert, true)
    ∷ (0x1b, category_phrase, function_cancel, true)
    ∷ (0x08, category_candidate, function_cancel, true)
    ∷ [])

-- The arguments of a call: the key and its character, whether there is a composition, the mode, and
-- whether the candidates are those of a wildcard.
pub record KeyQuery : Type 0 where
  pub code : ℕ
  pub wch : ℕ
  pub composing : Bool
  pub mode : CandidateMode
  pub with_wildcard : Bool

-- While a list is up there is no composing.
abbrev composes : KeyQuery → Bool
composes q = not (is_list_mode q.mode) && q.composing

module _ (t : KeyTables) (mods : Modifiers) (q : KeyQuery) where
  abbrev pub ask_composition : KeystrokeFunction → Slot → Answer
  ask_composition f slot = is_virtual_key_keystroke_composition t mods q.code f slot

  abbrev pub wildcard_key : Slot → Part
  wildcard_key slot =
      if (t.is_wildcard && is_wildcard_char q.wch && not t.is_disable_wildcard_at_first)
        || (t.is_wildcard
            && is_wildcard_char q.wch
            && t.is_disable_wildcard_at_first
            && t.has_keystrokes)
      then returns category_composing function_input true slot
      else if t.has_wildcard_included && (q.code == 0x20)
      then returns category_composing function_convert_wildcard true slot
      else (none, slot)

  unfoldable pub composing_part : Slot → Part
  composing_part slot =
      if composes q || is_incremental q.mode || is_none_mode q.mode
      then and_then (if_so (ask_composition function_none slot)) wildcard_key
      else (none, slot)

  abbrev restart : Slot → Part
  restart slot = (
    some true,
    if is_original q.mode
        then put category_candidate function_finalize_candidatelist_and_input slot
        else slot,
  )

  abbrev pub restart_if : Answer → Part
  restart_if (true, slot) = restart slot
  restart_if (false, slot) = (none, slot)

  abbrev pub wildcard_list : Slot → Part
  wildcard_list slot =
      if q.with_wildcard
      then if_so (
          is_virtual_key_keystroke_candidate t.keystroke_candidate_wildcard mods q.code q.mode slot)
      else (none, slot)

  abbrev pub candidate_list : Slot → Part
  candidate_list slot =
      if_so (is_virtual_key_keystroke_candidate t.keystroke_candidate mods q.code q.mode slot)

  unfoldable pub list_part : Slot → Part
  list_part slot =
      if is_list_mode q.mode
      then and_then (and_then (candidate_list slot) wildcard_list)
          (λ (s : Slot). restart_if (ask_composition function_input s))
      else if is_incremental q.mode
      then candidate_list slot
      else (none, slot)

  unfoldable pub start_part : Slot → Part
  start_part slot =
      if not (composes q) && not (is_list_mode q.mode)
      then if_so (ask_composition function_input slot)
      else (none, slot)

  unfoldable pub system_part : Slot → Part
  system_part slot =
      if composes q
      then (if not (is_incremental q.mode)
          then switch q.code composing_keys slot
          else switch q.code incremental_keys slot)
      else (none, slot)

  -- The answer for a null pointer, which is always FALSE.
  abbrev pub next_composition : Slot → Part
  next_composition slot =
      if is_with_next q.mode && (ask_composition function_none none).0
      then returns category_composing function_finalize_textstore_and_input true slot
      else (none, slot)

  unfoldable pub candidate_part : Slot → Part
  candidate_part slot =
      if is_original q.mode || is_with_next q.mode
      then and_then (switch q.code (candidate_keys q.mode) slot) next_composition
      else (none, slot)

  unfoldable pub phrase_part : Slot → Part
  phrase_part slot = if is_phrase q.mode then switch q.code phrase_keys slot else (none, slot)

  -- The last question writes NONE through the pointer and TRUE ends the composition.
  abbrev pub flush_after : Answer → Answer
  flush_after (true, slot) = (false, slot)
  flush_after (false, slot) =
      (false, put category_invoke_composition_edit_session function_finalize_textstore slot)

  abbrev pub flush : Slot → Answer
  flush slot =
      if q.wch == 0 then (false, slot) else flush_after (ask_composition function_none slot)

  abbrev pub after_range : Answer → Answer
  after_range (true, slot) = (true, slot)
  after_range (false, none) = flush none
  after_range (false, some s) =
      if category_code s.category == 0 then flush (some s) else (false, some s)

  unfoldable pub range_part : Slot → Answer
  range_part slot = after_range (is_keystroke_range t mods q.code q.mode slot)

  abbrev pub or_range : Part → Answer
  or_range (some answer, slot) = (answer, slot)
  or_range (none, slot) = range_part slot

  abbrev pub early_parts : Slot → Part
  early_parts slot = and_then (and_then (composing_part slot) list_part) start_part

  abbrev pub late_parts : Slot → Part
  late_parts slot = and_then (and_then (system_part slot) candidate_part) phrase_part

  unfoldable pub is_virtual_key_need : Slot → Answer
  is_virtual_key_need slot =
      or_range (and_then (early_parts (put category_none function_none slot)) late_parts)
