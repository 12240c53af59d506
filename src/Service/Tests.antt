-- ===== src/Service/Tests.antt =====
-- Handlers at concrete inputs, with a context that grants everything and holds one character.
use mathlib.Core.List.{foldl}
use ohagey.Common.{◌≡◌, refl, sym, true, false, none, some, [], ◌∷◌}
use ohagey.Wire.Text.{CodePage}
use ohagey.Client.Os.{Os, new_client}
use ohagey.Composer.{Composer, notify_committed}
use ohagey.Composer.Punctuation.{no_pairs}
use ohagey.Keys.{candidate_none, candidate_original, category_composing, function_convert}
use ohagey.Keys.Eaten.{Request}
use ohagey.Keys.Needed.{initial_range}
use ohagey.Window.{new_window}
use ohagey.Service.{s_ok, Hresult, Tsf, TextService}
use ohagey.Service.Compositions.{handle_complete, handle_cancel}
use ohagey.Service.Handlers.{handle_composition_finalize, handle_composition_input}
use ohagey.Service.Paired.{IsPaired}
use ohagey.Service.Triples.{Holds}
use ohagey.Service.Sessions.{
  key_session, composition_terminated, candidate_shown, layout_destroyed, on_event,
  sessions-IsPaired,
}
use ohagey.Service.Idle.{IsDone, handle_complete-handle_cancel-IsDone}
use ohagey.Service.Faults.{Starts, next_key-none}
use ohagey.Service.Learned.{Answers, plain_commit-learn}

-- A system without an engine.
abbrev nothing_there : Os
nothing_there = record {
  World = Unit {0};
  tick_count = λ w. (1, w);
  session_id = λ w. (none, w);
  module_handle = λ w. (none, w);
  module_file_name = λ self w. ([], w);
  create_file = λ name w. (none, w);
  last_error = λ w. (2, w);
  wait_named_pipe = λ name ms w. (false, w);
  create_process = λ path line w. (none, w);
  close_handle = λ h w. w;
  write_file = λ h bs w. (none, w);
  read_file = λ h n w. (none, w);
  log_connect = λ error w. w;
}

abbrev latin : CodePage
latin = record { wide_char_to_multi_byte = λ s. some s; multi_byte_to_wide_char = λ s. some s }

abbrev granting : Tsf
granting = record {
  World = Unit {0};
  get_selection = λ w. ((s_ok, true), w);
  get_range = λ w. (true, w);
  is_range_covered = λ w. (true, w);
  get_text = λ w. (some (0x3042 ∷ []), w);
  text_before = λ size w. (none, w);
  start_composition = λ w. (true, w);
  end_composition = λ w. (true, w);
  runs_now = λ w. (true, w);
  clear_text = λ w. w;
  clear_attributes = λ w. w;
  start_to_selection = λ w. (true, w);
  find_composing_range = λ w. (true, w);
  insert_at_selection = λ text w. (true, w);
  set_range_text = λ text w. w;
  set_language = λ w. w;
  set_attributes = λ w. w;
  caret_after = λ w. w;
  set_selection_text = λ text w. (s_ok, w);
  set_selection = λ w. w;
  get_document_mgr = λ w. (true, w);
  advise_layout = λ w. (true, w);
  create_window = λ w. (true, w);
  show_window = λ w. w;
  end_user_interface = λ w. w;
  is_secure_mode = false;
}

abbrev typed : Composer nothing_there
typed = record {
  keystrokes = 0x3042 ∷ [];
  candidate_strings = [];
  display_reading = [];
  client = new_client nothing_there tt;
}

-- One character is typed; with a candidate list, and without.
abbrev listing : TextService nothing_there granting
listing = record {
  composer = typed;
  presenter = some (some (new_window initial_range));
  candidate_mode = candidate_original;
  is_candidate_with_wildcard = false;
  is_composing = true;
  world = tt;
}

abbrev plain : TextService nothing_there granting
plain = record listing { presenter = none; candidate_mode = candidate_none }

listing-IsPaired : IsPaired nothing_there granting listing
listing-IsPaired e = refl

plain-IsPaired : IsPaired nothing_there granting plain
plain-IsPaired e = sym e

abbrev converting : Request
converting = record {
  code = 0x20;
  wch = 0x20;
  state = record { category = category_composing; function = function_convert };
}

sessions-IsPaired_example : IsPaired nothing_there granting (
    foldl
      (on_event nothing_there latin granting no_pairs)
      listing
      (key_session converting ∷ candidate_shown 1 ∷ layout_destroyed ∷ composition_terminated ∷ []))
sessions-IsPaired_example =
    sessions-IsPaired nothing_there latin granting no_pairs
      (key_session converting ∷ candidate_shown 1 ∷ layout_destroyed ∷ composition_terminated ∷ [])
      listing listing-IsPaired

handle_complete-handle_cancel-IsDone_example :
    Holds
      (IsDone nothing_there granting listing.presenter)
      (handle_complete nothing_there granting listing)
    × Holds
        (IsDone nothing_there granting listing.presenter)
        (handle_cancel nothing_there granting listing)
handle_complete-handle_cancel-IsDone_example =
    handle_complete-handle_cancel-IsDone nothing_there granting listing listing-IsPaired

granting-Starts : Starts granting
granting-Starts = record {
  starts = λ w. refl;
  has_selection = λ w. refl;
  has_range = λ w. refl;
  is_covered = λ w. refl;
}

next_key-none_example :
    ((handle_composition_input nothing_there latin granting 0x61
        (handle_complete nothing_there granting listing).1).0
      ≡ none)
    × ((handle_composition_input nothing_there latin granting 0x61
          (handle_cancel nothing_there granting listing).1).0
        ≡ none)
next_key-none_example =
    next_key-none nothing_there latin granting 0x61 (some (new_window initial_range)) listing
      granting-Starts listing-IsPaired refl

granting-Answers : Answers granting (0x3042 ∷ [])
granting-Answers = record {
  has_selection = λ w. refl;
  has_range = λ w. refl;
  is_covered = λ w. refl;
  has_text = λ w. refl;
}

plain_commit-learn_example :
    Holds
      (λ (result : Hresult) (t : TextService nothing_there granting).
        IsDone nothing_there granting none result t
        × t.composer.client
          ≡ (notify_committed nothing_there latin (0x3042 ∷ []) true typed).client)
      (handle_composition_finalize nothing_there latin granting true plain)
plain_commit-learn_example =
    plain_commit-learn nothing_there latin granting true (0x3042 ∷ []) plain granting-Answers refl
      plain-IsPaired refl refl
