-- ===== src/Client/Runs.antt =====
-- The theorems on whole calls, over a system that is made up of two byte queues and a clock.
use ohagey.Common.{
  ℕ, zero, suc, ◌+◌, ◌≤◌, ◌≡◌, ◌≢◌, refl, sym, ap, ◌∙◌, true, false, none, some, [], ◌∷◌, ◌++◌,
  arith, length, take, drop, take-append-drop, All,
}
use ohagey.Common.Text.{wide}
use ohagey.Wire.{Bytes, IsByte}
use ohagey.Wire.Text.{CodePage, to_utf8}
use ohagey.Wire.Varint.{groups}
use ohagey.Wire.Fields.{block, encode_all, string_field, uint32_field, bool_field}
use ohagey.Client.Messages.{no_result, no_ping}
use ohagey.Client.Os.{Os, Client, new_client, is_connected}
use ohagey.Client.Launch.{
  session_pipe, beside, engine_exe_name, launch_engine, connect, disconnect, too_soon,
}
use ohagey.Client.Launch.Connects.{connect_lem}
use ohagey.Client.Launch.Names.{session_pipe-apart, beside_lem}
use ohagey.Client.Launch.Throttle.{launch_throttled}
use ohagey.Client.Frame.{frame_of, read_frame_header, frame_header_size, write_all, read_all}
use ohagey.Client.Frame.Header.{little_endian, frame_lem}
use ohagey.Client.Frame.Transfers.{PipeLaw, transfers_whole}
use ohagey.Client.Frame.Completes.{Flows, transfers_complete}
use ohagey.Client.Exchange.{exchange}
use ohagey.Client.Exchange.Settles.{Settled, exchange-Settled}
use ohagey.Client.Calls.{
  convert, commit, register_word, ping, convert_request, commit_request, register_word_request,
  request_bytes,
}
use ohagey.Client.Calls.Ends.{IsCall, calls_end}
use ohagey.Client.Calls.Requests.{convert_fields, requests_lem}

record Queues : Type 0 where
  outgoing : Bytes
  incoming : Bytes
  clock : ℕ

abbrev queues : Os
queues = record {
  World = Queues;
  tick_count = λ w. (w.clock, record w { clock = w.clock + 1000 });
  session_id = λ w. (some 1, w);
  module_handle = λ w. (some 7, w);
  module_file_name = λ self w. (wide "C:\\x\\ime.dll", w);
  create_file = λ name w. (some 3, w);
  last_error = λ w. (2, w);
  wait_named_pipe = λ name ms w. (true, w);
  create_process = λ path line w. (some (4, 5), w);
  close_handle = λ h w. w;
  write_file = λ h bs w. (some (length bs), record w { outgoing = w.outgoing ++ bs });
  read_file = λ h n w. (some (take n w.incoming), record w { incoming = drop n w.incoming });
  log_connect = λ error w. w;
}

-- One whose reads give a zero each.
abbrev zeros : Os
zeros = record queues { read_file = λ h n w. (some (0 ∷ []), w) }

abbrev start : Client queues
start = new_client queues (record { outgoing = []; incoming = 1 ∷ 2 ∷ 3 ∷ []; clock = 9 })

abbrev five_six : Bytes
five_six = 5 ∷ 6 ∷ []

abbrev one_two : Bytes
one_two = 1 ∷ 2 ∷ []

take-all : (bs : Bytes) → take (length bs) bs ≡ bs
take-all [] = refl
take-all (b ∷ bs) = ap (λ t. b ∷ t) (take-all bs)

length-take : (n : ℕ) (bs : Bytes) → length (take n bs) ≤ n
length-take zero bs = omega arith
length-take (suc n) [] = omega arith
length-take (suc n) (b ∷ bs) = omega (arith, length-take n bs)

queues-PipeLaw : PipeLaw queues
queues-PipeLaw = record {
  sent = λ w. w.outgoing;
  unread = λ w. w.incoming;
  writes = λ h bs w n e.
      let same : length bs ≡ n = cc in
      (
        omega arith,
        ap (λ t. w.outgoing ++ t) (sym (ap (λ (k : ℕ). take k bs) (sym same) ∙ take-all bs)),
      );
  reads = λ h size w bs e.
      let same : take size w.incoming ≡ bs = cc in
      (
        omega (arith, length-take size w.incoming, ap length same),
        sym (ap (λ t. t ++ drop size w.incoming) (sym same) ∙ take-append-drop size w.incoming),
      );
}

zeros-Flows : Flows zeros
zeros-Flows = record {
  writes = λ h bs w pos. (length bs, refl, pos);
  reads = λ h size w pos. (0 ∷ [], refl, omega arith);
}

transfers_whole_example :
    ((write_all queues five_six start).0 ≡ true
      → queues-PipeLaw.sent (write_all queues five_six start).1.world
        ≡ queues-PipeLaw.sent start.world ++ five_six)
    × ((read_all queues 2 start).0 ≡ some one_two
        → (length one_two ≡ 2)
          × (queues-PipeLaw.unread start.world
              ≡ one_two ++ queues-PipeLaw.unread (read_all queues 2 start).1.world))
transfers_whole_example = transfers_whole queues queues-PipeLaw five_six one_two 2 start

abbrev zero_start : Client zeros
zero_start = new_client zeros start.world

transfers_complete_example :
    ((write_all zeros five_six zero_start).0 ≡ true)
    × ((got : Bytes) × ((read_all zeros 2 zero_start).0 ≡ some got))
transfers_complete_example =
    transfers_complete zeros zeros-Flows five_six 2 zero_start (omega arith) (omega arith)

frame_example :
    (little_endian (take frame_header_size (frame_of five_six)) ≡ length five_six)
    × (length (take frame_header_size (frame_of five_six)) ≡ frame_header_size)
    × All IsByte (take frame_header_size (frame_of five_six))
    × (drop frame_header_size (frame_of five_six) ≡ five_six)
    × (read_frame_header (6 ∷ 1 ∷ 2 ∷ 200 ∷ []) ≡ little_endian (6 ∷ 1 ∷ 2 ∷ 200 ∷ []))
frame_example =
    frame_lem five_six 6 1 2 200 (omega arith)
      (omega arith, (omega arith, (omega arith, (omega arith, tt))))

exchange-Settled_example : Settled queues 1 (exchange queues (8 ∷ 1 ∷ []) 1 start)
exchange-Settled_example = exchange-Settled queues 1 (8 ∷ 1 ∷ []) start

connect_example :
    ((connect queues start).0 ≡ is_connected queues (connect queues start).1)
    × (is_connected queues start ≡ true → connect queues start ≡ (true, start))
    × ((disconnect queues start).1.pipe ≡ none)
connect_example = connect_lem queues start

abbrev latin : CodePage
latin = record { wide_char_to_multi_byte = λ s. some s; multi_byte_to_wide_char = λ s. some s }

calls_end_example :
    IsCall queues latin start no_result
      (convert queues latin (wide "a") 3 (wide "b") no_result start)
    × IsCall queues latin start tt (commit queues latin (wide "a") (wide "b") true start)
    × IsCall queues latin start tt
        (register_word queues latin (wide "a") (wide "b") (wide "c") start)
    × IsCall queues latin start no_ping (ping queues latin no_ping start)
calls_end_example =
    calls_end queues latin (wide "a") (wide "b") (wide "c") 3 true no_result no_ping start

requests_example :
    (convert_request latin (wide "a") 3 (wide "b")
      ≡ encode_all (convert_fields latin (wide "a") 3 (wide "b")))
    × (commit_request latin (wide "a") (wide "b") true
        ≡ encode_all (
            (string_field latin 1 (wide "a") ++ string_field latin 2 (wide "b"))
            ++ bool_field 3 true))
    × (register_word_request latin (wide "a") (wide "b") (wide "c")
        ≡ encode_all (
            (string_field latin 1 (wide "a") ++ string_field latin 2 (wide "b"))
            ++ string_field latin 3 (wide "c")))
    × (request_bytes 1 5 [] ≡ encode_all (uint32_field 1 1 ++ block 5 [] ∷ []))
unfolding to_utf8 string_field groups ohagey.Wire.wire_code
requests_example =
    requests_lem latin 1 3 5 (wide "a") (wide "b") (wide "c") true [] (omega arith) (omega arith)
      (omega arith) (omega arith) (omega arith) (omega arith) (omega arith) (omega arith)

beside_example :
    beside (wide "C:\\x" ++ 0x5C ∷ wide "ime.dll")
    ≡ some ((wide "C:\\x" ++ 0x5C ∷ []) ++ wide "OhageyEngine.exe")
beside_example =
    beside_lem (wide "C:\\x") (wide "ime.dll")
      (
        omega arith,
        (
          omega arith,
          (omega arith, (omega arith, (omega arith, (omega arith, (omega arith, tt))))),
        ),
      )
      (omega arith)

session_pipe_example : session_pipe 1 ≢ session_pipe 12
session_pipe_example = session_pipe-apart 1 12 (omega arith) (omega arith) (omega arith)

abbrev launched : Client queues
launched = (launch_engine queues start).1

launched_at : (launch_engine queues start).1.world.clock ≡ 1009
unfolding launch_engine ohagey.Client.Launch.start_engine ohagey.Client.Launch.engine_path beside
    ohagey.Client.Launch.last_backslash
launched_at = refl

launch_throttled_example :
    launch_engine queues launched
    ≡ (false, record launched { world = (queues.tick_count launched.world).1 })
launch_throttled_example =
    launch_throttled queues start launched refl refl (omega arith) (omega (arith, launched_at))
      (omega (arith, launched_at)) (omega (arith, launched_at))
