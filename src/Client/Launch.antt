-- ===== src/Client/Launch.antt =====
-- `PipeName`, `EnginePath`, `LaunchEngine`, `Warmup`, `Connect` and `Disconnect`
-- (tsf/Ohagey/OhageyEngineClient.cpp).
pub mod Connects
pub mod Names
pub mod Throttle
use ohagey.Common.{
  ℕ, zero, suc, ◌+◌, ◌-◌, ◌/◌, ◌%◌, ◌^◌, Bool, true, false, not, ◌&&◌, ◌||◌, Option, none, some, [],
  ◌∷◌, ◌++◌, ◌==◌, ltb, leb, if◌then◌else◌, length, take,
}
use ohagey.Common.Text.{Text, wide}
use ohagey.Client.Os.{Os, Client, Do, call, effect, is_connected, pure, ◌>>=◌, ◌>>◌}

-- %lu of a 32-bit number, of ten digits at most.
unfoldable pub decimal : ℕ → ℕ → Text
decimal zero n = (b'0' + n) ∷ []
decimal (suc more) n =
    let front = decimal more (n / 10) in
    if ltb n 10 then (b'0' + n) ∷ [] else front ++ (b'0' + n % 10) ∷ []

abbrev pub pipe_prefix : Text
pipe_prefix = wide "\\\\.\\pipe\\ohagey_session_"

unfoldable pub session_pipe : ℕ → Text
session_pipe id = pipe_prefix ++ decimal 9 id

abbrev pub engine_exe_name : Text
engine_exe_name = wide "OhageyEngine.exe"

abbrev pub max_path : ℕ
max_path = 260

abbrev launch_throttle_ms : ℕ
launch_throttle_ms = 5000

abbrev pub post_launch_wait_ms : ℕ
post_launch_wait_ms = 250

abbrev pub error_file_not_found : ℕ
error_file_not_found = 2

abbrev pub error_pipe_busy : ℕ
error_pipe_busy = 231

-- NMPWAIT_NOWAIT
abbrev no_wait : ℕ
no_wait = 1

-- path.find_last_of(L'\\')
unfoldable pub last_backslash : Text → Option ℕ
last_backslash [] = none
last_backslash (c ∷ cs) = elim (last_backslash cs) [
  | some i ↦ some (suc i)
  | none ↦ if c == 0x5C then some 0 else none
]

-- The engine beside the module; `written` is the length of the name.
unfoldable pub beside : Text → Option Text
beside name =
    if length name == 0 || leb max_path (length name) then none else elim (last_backslash name) [
      | none ↦ none
      | some slash ↦ some (take (slash + 1) name ++ engine_exe_name)
    ]

module _ (os : Os) where
  abbrev pub name_for : Option ℕ → Do os (Option Text)
  name_for none = pure none
  name_for (some id) = pure (some (session_pipe id))

  unfoldable pub pipe_name : Do os (Option Text)
  pipe_name = do id ← call os os.session_id; name_for id

  abbrev pub path_of : Option ℕ → Do os (Option Text)
  path_of none = pure none
  path_of (some self) = do name ← call os (os.module_file_name self); pure (beside name)

  unfoldable pub engine_path : Do os (Option Text)
  engine_path = do self ← call os os.module_handle; path_of self

  abbrev set_launch_tick : ℕ → Do os (Unit {0})
  set_launch_tick t c = (tt, record c { last_launch_tick = t })

  abbrev pub set_pipe : Option ℕ → Do os (Unit {0})
  set_pipe p c = (tt, record c { pipe = p })

  -- The 64-bit difference wraps.
  abbrev pub too_soon : ℕ → ℕ → Bool
  too_soon last now = not (last == 0) && ltb ((now + 2 ^ 64 - last) % 2 ^ 64) launch_throttle_ms

  abbrev pub quoted : Text → Text
  quoted path = wide "\"" ++ (path ++ wide "\"")

  -- Both handles are closed at once.
  abbrev pub close_process : Option (ℕ × ℕ) → Do os Bool
  close_process none = pure false
  close_process (some (h_thread, h_process)) = do
    effect os (os.close_handle h_thread)
    effect os (os.close_handle h_process)
    pure true

  abbrev pub start_with : Option Text → Do os Bool
  start_with none = pure false
  start_with (some path) = do
    process ← call os (os.create_process path (quoted path))
    close_process process

  -- What follows the throttle.
  unfoldable pub start_engine : Do os Bool
  start_engine = do path ← engine_path; start_with path

  unfoldable pub launch_engine : Do os Bool
  launch_engine = do
    now ← call os os.tick_count
    λ c.
        if too_soon c.last_launch_tick now
        then (false, c)
        else (do set_launch_tick now; start_engine) c

  -- Warmup, past the check of the connection.
  unfoldable warmup_name : Text → Do os (Unit {0})
  warmup_name name = do
    there ← call os (os.wait_named_pipe name no_wait)
    if there then pure tt else (do
      error ← call os os.last_error
      if not (error == error_file_not_found) then pure tt else (do launch_engine; pure tt))

  abbrev warmup_named : Option Text → Do os (Unit {0})
  warmup_named none = pure tt
  warmup_named (some name) = warmup_name name

  unfoldable warmup : Do os (Unit {0})
  warmup c = if is_connected os c then (tt, c) else (do name ← pipe_name; warmup_named name) c

  -- The `break`s and the end of the loop.
  abbrev pub give_up : Do os Bool
  give_up = do set_pipe none; pure false

  -- CreateFileW failed with `error`; `again` is `continue`. The pipe is busy, or is not there, or
  -- something else is wrong.
  unfoldable pub await_free : Text → Do os Bool → Do os Bool
  await_free name again = do
    free ← call os (os.wait_named_pipe name 1000)
    if free then again else give_up

  abbrev pub await_engine : Text → Do os Bool → Do os Bool
  await_engine name again = do call os (os.wait_named_pipe name post_launch_wait_ms); again

  unfoldable pub start_and_await : Text → Do os Bool → Do os Bool
  start_and_await name again = do
    launched ← launch_engine
    if launched then await_engine name again else give_up

  unfoldable pub say_why : ℕ → Do os Bool
  say_why error = do effect os (os.log_connect error); give_up

  unfoldable pub refused : Text → ℕ → Do os Bool → ℕ → Do os Bool
  refused name attempt again error =
      if error == error_pipe_busy
      then await_free name again
      else if error == error_file_not_found && attempt == 0
      then start_and_await name again
      else say_why error

  abbrev pub created : Text → ℕ → Do os Bool → Option ℕ → Do os Bool
  created name attempt again (some handle) = pure true
  created name attempt again none = do
    error ← call os os.last_error
    refused name attempt again error

  -- One turn of the loop.
  unfoldable pub attempt_pipe : Text → ℕ → Do os Bool → Do os Bool
  attempt_pipe name attempt again = do
    pipe ← call os (os.create_file name)
    set_pipe pipe
    created name attempt again pipe

  -- The turns left, from `attempt`.
  unfoldable pub connect_loop : ℕ → ℕ → Text → Do os Bool
  connect_loop zero attempt name = give_up
  connect_loop (suc turns) attempt name =
      let again = connect_loop turns (suc attempt) name in attempt_pipe name attempt again

  abbrev pub connect_named : Option Text → Do os Bool
  connect_named none = pure false
  connect_named (some name) = connect_loop 2 0 name

  unfoldable pub connect : Do os Bool
  connect c = if is_connected os c then (true, c) else (do name ← pipe_name; connect_named name) c

  unfoldable pub disconnect : Do os (Unit {0})
  disconnect c = elim c.pipe [
    | none ↦ (tt, c)
    | some handle ↦ (tt, record c { pipe = none; world = os.close_handle handle c.world })
  ]
