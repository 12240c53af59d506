-- ===== src/Lib.antt =====
-- Ohagey, a Japanese input method for Windows: the text service's own logic, apart from the
-- COM and window plumbing that it inherits from the Microsoft sample.
--
-- The parts, and the files of the repository that they model:
-- - Romaji (tsf/Ohagey/RomajiKana.h, RomajiKana.cpp). Romaji.Rules has the table `kRules` and its
--   searches; Romaji.Kana has the class RomajiKana: the record of `_romaji`, `_kana` and `_pending`,
--   Append, Backspace, Clear, Reading, Display, and Rebuild, whose loop is `rebuild_loop` over what
--   is left of the romaji, one `round` for each turn; Romaji.Buffer has PendingStart,
--   BufferAfterKeystroke, BufferDisplay and BufferReading, which the text service calls for each
--   key. A wide string is a list of UTF-16 code units.
-- - Wire (tsf/Ohagey/OhageyWire.h, OhageyWire.cpp): the protobuf wire format. A writer appends to a
--   list of bytes; a reader is a record of the bytes left and `_ok`, and its methods are functions
--   from a reader to an optional value and a reader. Wire.Text has the strings; the two Windows
--   conversions are the parameter CodePage. Wire.Fields describes a message as a list of fields,
--   which is what the theorems on the client are stated with.
-- - Client (tsf/Ohagey/OhageyProtocol.h, OhageyEngineClient.cpp): the client of the conversion
--   engine. Client.Parse has the loop that the seven parsers share, Client.Messages the messages and
--   their parsers, Client.Response the reading of a reply and the search for its id, Client.Os the
--   fields of EngineClient and the system calls, Client.Launch PipeName, EnginePath, LaunchEngine,
--   Warmup, Connect and Disconnect, Client.Frame the header and WriteAll and ReadAll, Client.Exchange
--   Exchange, and Client.Calls Convert, Commit, RegisterWord and Ping.
-- - Composer (tsf/SampleIME/CompositionProcessorEngine.cpp): the keystroke buffer that the text
--   service fills with kana, AddVirtualKey, RemoveVirtualKey, PurgeVirtualKey, GetReadingStrings, the
--   candidates from the engine, NotifyCommitted, and in Composer.Punctuation IsPunctuation and
--   GetPunctuation with their table (tsf/SampleIME/Globals.cpp).
-- - Window (tsf/SampleIME/CandidateWindow.h, CandidateWindow.cpp): the record of the candidate list,
--   its selection and its pages. Window.Moves has the moves of the selection and of the page, the
--   wheel, the scroll bar's commands and the mouse, and the adjustment of the pages that painting
--   makes. A scroll bar of the desktop has no window, so what it would be told is left out.
-- - Keys (tsf/SampleIME/SampleIMEBaseStructure.h, Globals.cpp, CompositionProcessorEngine.cpp,
--   KeyStateCategory.cpp, KeyEventSink.cpp): which keys are taken and what they reach. Keys has the
--   categories, functions and modes, Keys.Modifiers the modifier keys as records of bits, Keys.Needed the
--   keystroke tables and their searches, Keys.Need IsVirtualKeyNeed, part by part as its early returns
--   divide it, Keys.Category the classes behind CKeyStateCategoryFactory and the handler each method
--   calls, and Keys.Eaten the event sink. The numbers of the virtual keys are those of the Windows
--   headers; a test of a compartment is a field of KeyContext.
-- - Service (tsf/SampleIME/SampleIME.h, KeyHandler.cpp, CandidateListUIPresenter.cpp, Composition.cpp,
--   StartComposition.cpp, EndComposition.cpp, KeyHandlerEditSession.cpp, tsf/Ohagey/OhageySeh.h): the
--   text service that a key reaches. A handler is a function from the state to a result and a state,
--   and its result is none where the code follows a null pointer; the pointers are
--   `_pComposition`, `_pCandidateListUIPresenter` and its `_pCandidateWnd`. Service.Presenter has the
--   presenter, Service.Compositions what starts, writes and ends a composition, Service.Handlers and
--   Service.Candidates the handlers of keys, Service.Element what an application asks that draws the
--   list itself, and Service.Session the edit session with the guard that
--   turns a fault into E_UNEXPECTED. The record Tsf has one operation for each thing that the
--   handlers ask of the context, its ranges and the user interface. Service.Triples states what a
--   handler brings about without a fault, and Service.Keeps what it keeps in any case.
-- - Compartments (tsf/SampleIME/Compartment.cpp, CompositionProcessorEngine.cpp): the flags for the
--   open keyboard, double byte and punctuation and the word of the conversion mode, each a cell that
--   may be unreachable or hold another type, the callbacks that bring them together, and in
--   Compartments.Preserved the preserved keys and OnPreservedKey. The word is a record of the three
--   bits that the code tests and of the rest. A callback is a step of its own after the change; that
--   a callback runs inside the call that sets a value is not modelled.
-- - Common: tests, lists, text, bits and orders that the parts share.
--
-- How they interact: the composer keeps the buffer of Romaji, and its reading is what Convert writes with
-- the wire format, frames and sends; the reply comes back through Exchange to the parsers, and its
-- candidates to the composer. A key goes from the event sink, which asks the composer's tables
-- whether it is needed, to a request, and in the edit session to a handler of the text service; the
-- handler changes the composer, the context and, through the presenter, the candidate window.
--
-- Numbers and bounds: a number is unbounded where the program's cannot overflow, and the
-- wrap-around of a uint32_t, a uint64_t or a DWORD is written out where it can. An int32_t is its
-- bit pattern. A size that the program casts to int for the code page is taken to fit.
--
-- Bounds: what the text service reads of a text it reads into a buffer of `preceding_text_max`, 30,
-- characters, so what it tells the engine of a longer one is cut.
--
-- Fuel: the loop of Rebuild gets one turn for each letter, since every round takes a letter;
-- ReadVarint has its ten rounds; a parser gets one turn more than there are bytes, since every turn
-- reads a tag; WriteAll and ReadAll get one turn for each byte, since a call that moves no byte ends
-- them; Connect has its two attempts. WriteVarint recurses on the order of the numbers.
--
-- The system: the record Os has one operation for each Windows call that the client makes, over a
-- world that they change; PipeLaw and Flows state what WriteFile and ReadFile promise. The line that
-- a failed connection writes to the log is one such operation.
--
-- Not modelled: an allocation that fails; RemoveVirtualKey of an empty buffer, which its one caller
-- rules out; the development-only override of the engine's path, which a release leaves out; the
-- making, sizing, theme and drawing of the candidate window and the flags that tell an application
-- that it has changed; a session that TSF grants later; the registration of keys and sinks, the
-- language bar and the dictionary of tsf/SampleIME; the engine (Swift), the settings application (C#)
-- and the installer. FullWidthCharTable is written as the rule that its entries follow.
pub mod Common
pub mod Romaji
pub mod Wire
pub mod Client
pub mod Composer
pub mod Window
pub mod Keys
pub mod Service
pub mod Compartments
