-- ===== src/Composer.antt =====
-- The keystroke buffer of CCompositionProcessorEngine (tsf/SampleIME/CompositionProcessorEngine.cpp)
-- and what it sends to the engine.
pub mod Punctuation
pub mod Keys
pub mod Candidates
mod Tests
use ohagey.Common.{
  ℕ, ◌+◌, ◌-◌, Bool, true, false, not, ◌||◌, Option, none, some, List, [], ◌∷◌, ◌++◌, ltb, ◌==◌,
  if◌then◌else◌, length, take, drop, pop_back,
}
use ohagey.Common.Text.{Text, text_eq}
use ohagey.Wire.Text.{CodePage}
use ohagey.Romaji.Buffer.{char_at, buffer_after_keystroke, buffer_display, buffer_reading}
use ohagey.Client.Messages.{Candidate, ConvertResult, CallResult, ok, no_result}
use ohagey.Client.Os.{Os, Client}
use ohagey.Client.Launch.{connect}
use ohagey.Client.Calls.{convert, commit}

-- A candidate as the window shows it: `_ItemString` and `_FindKeyCode`.
pub record CandidateListItem : Type 0 where
  pub item_string : Text
  pub find_key_code : Text

-- `_keystrokeBuffer`, `_candidateStrings`, `_displayReading` and `_engineClient`.
pub record Composer (os : Os) : Type 0 where
  pub keystrokes : Text
  pub candidate_strings : List Text
  pub display_reading : Text
  pub client : Client os

-- The buffer after one more key; `new` is taken to succeed.
unfoldable pub key_added : Text → ℕ → Text × Bool
key_added keystrokes wch =
    if wch == 0 then (keystrokes, false) else (buffer_after_keystroke keystrokes wch, true)

-- The key handler asks for the last key only, and not of an empty buffer.
unfoldable pub key_removed : Text → ℕ → Text
key_removed keystrokes index =
    if ltb (index + 1) (length keystrokes)
    then take index keystrokes ++ drop (index + 1) keystrokes
    else pop_back keystrokes

module _ {os : Os} where
  unfoldable pub add_virtual_key : ℕ → Composer os → Bool × Composer os
  add_virtual_key wch c =
      let (keys, added) = key_added c.keystrokes wch in (added, record c { keystrokes = keys })

  unfoldable pub remove_virtual_key : ℕ → Composer os → Composer os
  remove_virtual_key index c = record c { keystrokes = key_removed c.keystrokes index }

  unfoldable pub purge_virtual_key : Composer os → Composer os
  purge_virtual_key c = record c { keystrokes = []; candidate_strings = []; display_reading = [] }

  -- _HandleCompositionBackspace of tsf/SampleIME/KeyHandler.cpp: its part on the buffer.
  unfoldable pub backspace_key : Composer os → Composer os
  backspace_key c =
      if length c.keystrokes == 0 then c else remove_virtual_key (length c.keystrokes - 1) c

  abbrev get_virtual_key : ℕ → Composer os → ℕ
  get_virtual_key index c = char_at c.keystrokes index

  -- Into a list of reading strings that may hold some already.
  unfoldable pub get_reading_strings : List Text → Composer os → List Text × Composer os
  get_reading_strings strings c =
      if not (length strings == 0) || length c.keystrokes == 0
      then (strings, c)
      else let shown = buffer_display c.keystrokes in
        if text_eq shown []
        then (strings, record c { display_reading = shown })
        else (strings ++ shown ∷ [], record c { display_reading = shown })

abbrev pub item_of : Candidate → CandidateListItem
item_of c = record { item_string = c.text; find_key_code = c.reading }

-- The loop over the candidates; `Append` is taken to succeed.
unfoldable pub add_candidates :
    List Candidate → List Text → List CandidateListItem → List Text × List CandidateListItem
add_candidates [] strings items = (strings, items)
add_candidates (c ∷ cs) strings items =
    add_candidates cs ((strings ++ c.text ∷ []) ++ c.reading ∷ []) (items ++ item_of c ∷ [])

module _ (os : Os) (cp : CodePage) where
  -- Only a conversion that is Ok adds candidates.
  abbrev pub took :
      List CandidateListItem
      → (CallResult × ConvertResult) × Client os
      → Composer os
      → List CandidateListItem × Composer os
  took items ((ok, result), client) c =
      let (strings, items') = add_candidates result.candidates c.candidate_strings items in
      (items', record c { candidate_strings = strings; client = client })
  took items ((failed, result), client) c = (items, record c { client = client })

  unfoldable pub get_candidate_list_from_engine :
      Text → Text → List CandidateListItem → Composer os → List CandidateListItem × Composer os
  get_candidate_list_from_engine keystrokes preceding_text items c =
      if length keystrokes == 0
      then (items, c)
      else let reading = buffer_reading keystrokes in
        if text_eq reading []
        then (items, c)
        else took items (convert os cp reading 0 preceding_text no_result c.client) c

  -- IsDictionaryAvailable is whether the client connects.
  unfoldable pub get_candidate_list :
      Text → List CandidateListItem → Composer os → List CandidateListItem × Composer os
  get_candidate_list preceding_text items c =
      let (available, client) = connect os c.client in
      let c' = record c { client = client } in
      if not available
      then (items, c')
      else get_candidate_list_from_engine c.keystrokes preceding_text items c'

  -- The result of `Commit` is not looked at.
  unfoldable pub notify_committed : Text → Bool → Composer os → Composer os
  notify_committed committed_text update_learning c =
      if length committed_text == 0 || length c.keystrokes == 0
      then c
      else let reading = buffer_reading c.keystrokes in
        if text_eq reading []
        then c
        else record c { client = (commit os cp reading committed_text update_learning c.client).1 }
