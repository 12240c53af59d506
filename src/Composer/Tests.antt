-- ===== src/Composer/Tests.antt =====
-- The keystroke buffer and its candidates at concrete inputs.
use mathlib.Core.List.{foldl}
use ohagey.Common.{not, ◌==◌, ◌≡◌, ◌≢◌, refl, false, none, some, List, [], ◌∷◌}
use ohagey.Common.Text.{wide}
use ohagey.Wire.Text.{CodePage}
use ohagey.Romaji.Kana.{converter_runs}
use ohagey.Romaji.Buffer.{buffer_reading}
use ohagey.Romaji.Buffer.Typing.{IsBuffer}
use ohagey.Client.Messages.{no_result}
use ohagey.Client.Os.{Os, new_client}
use ohagey.Client.Calls.{convert}
use ohagey.Composer.{Composer, get_candidate_list_from_engine}
use ohagey.Composer.Keys.{Keystroke, add, back, handle, keystrokes-IsBuffer}
use ohagey.Composer.Candidates.{Adds, engine_candidates}
use ohagey.Composer.Punctuation.Agree.{punctuation_agrees}
use ohagey.Composer.Punctuation.{
  is_punctuation, get_punctuation, no_pairs, punctuation_table, from_table,
}

-- A system without an engine.
abbrev nothing_there : Os
nothing_there = record {
  World = Unit {0};
  tick_count = λ w. (1, w);
  session_id = λ w. (none, w);
  module_handle = λ w. (none, w);
  module_file_name = λ self w. ([], w);
  create_file = λ name w. (none, w);
  last_error = λ w. (2, w);
  wait_named_pipe = λ name ms w. (false, w);
  create_process = λ path line w. (none, w);
  close_handle = λ h w. w;
  write_file = λ h bs w. (none, w);
  read_file = λ h n w. (none, w);
  log_connect = λ error w. w;
}

abbrev latin : CodePage
latin = record { wide_char_to_multi_byte = λ s. some s; multi_byte_to_wide_char = λ s. some s }

abbrev empty : Composer nothing_there
empty = record {
  keystrokes = [];
  candidate_strings = [];
  display_reading = [];
  client = new_client nothing_there tt;
}

abbrev some_keys : List Keystroke
unfolding converter_runs
some_keys = add b'k' refl ∷ add b'y' refl ∷ back ∷ add b'a' refl ∷ []

keystrokes-IsBuffer_example : IsBuffer (foldl handle empty some_keys).keystrokes
keystrokes-IsBuffer_example = keystrokes-IsBuffer empty some_keys refl

engine_candidates_example :
    (buffer_reading (wide "かn") ≡ []
      → get_candidate_list_from_engine nothing_there latin (wide "かn") [] [] empty ≡ ([], empty))
    × (buffer_reading (wide "かn") ≢ []
        → Adds nothing_there latin [] empty.candidate_strings
            (convert nothing_there latin (buffer_reading (wide "かn")) 0 [] no_result empty.client)
            (get_candidate_list_from_engine nothing_there latin (wide "かn") [] [] empty))
engine_candidates_example = engine_candidates nothing_there latin (wide "かn") [] [] empty

-- A quotation mark and a comparison are replaced.
quotes : ((get_punctuation 0x22 no_pairs).0 ≡ 0x201D) × ((get_punctuation b'<' no_pairs).0 ≡ 0xFF1C)
unfolding get_punctuation punctuation_table from_table
quotes = (refl, refl)

punctuation_agrees_example :
    (is_punctuation no_pairs b'<' ≡ not ((get_punctuation b'<' no_pairs).0 == 0))
    × ((get_punctuation b'<' no_pairs).1 ≡ no_pairs)
punctuation_agrees_example = punctuation_agrees b'<'
