-- ===== src/Client/Os.antt =====
-- The Windows calls of tsf/Ohagey/OhageyEngineClient.cpp, and the state of `EngineClient`
-- (tsf/Ohagey/OhageyProtocol.h).
use ohagey.Common.{ℕ, Bool, true, false, Option, none, some, if◌then◌else◌}
use ohagey.Common.Text.{Text}
use ohagey.Wire.{Bytes}
use ohagey.Client.Messages.{Status, no_status}

-- A handle is a number, and INVALID_HANDLE_VALUE is `none`. A call that fails is `none` or false.
pub record Os : Type 1 where
  pub World : Type 0
  -- GetTickCount64.
  pub tick_count : World → ℕ × World
  -- ProcessIdToSessionId of this process.
  pub session_id : World → Option ℕ × World
  -- GetModuleHandleExW for this module's own code, then GetModuleFileNameW: what it wrote.
  pub module_handle : World → Option ℕ × World
  pub module_file_name : ℕ → World → Text × World
  -- CreateFileW on the pipe, GetLastError, WaitNamedPipeW.
  pub create_file : Text → World → Option ℕ × World
  pub last_error : World → ℕ × World
  pub wait_named_pipe : Text → ℕ → World → Bool × World
  -- CreateProcessW with a path and a command line: the thread's and the process's handle.
  pub create_process : Text → Text → World → Option (ℕ × ℕ) × World
  pub close_handle : ℕ → World → World
  -- WriteFile: how many of the bytes were written. ReadFile: the bytes read, for so many at most.
  pub write_file : Option ℕ → Bytes → World → Option ℕ × World
  pub read_file : Option ℕ → ℕ → World → Option Bytes × World
  -- Ohagey::Log of a connection that failed with this error.
  pub log_connect : ℕ → World → World

module _ (os : Os) where
  -- The fields of `EngineClient`, and the world that its calls change.
  pub record Client : Type 0 where
    pub pipe : Option ℕ
    pub next_request_id : ℕ
    pub last_status : Status
    pub last_launch_tick : ℕ
    pub world : os.World

  abbrev pub new_client : os.World → Client
  new_client w = record {
    pipe = none;
    next_request_id = 1;
    last_status = no_status;
    last_launch_tick = 0;
    world = w;
  }

  abbrev pub Do : Type 0 → Type 0
  Do A = Client → A × Client

  -- A call of the system.
  abbrev pub call : {A : Type 0} → (os.World → A × os.World) → Do A
  call f c = let (a, w) = f c.world in (a, record c { world = w })

  abbrev pub effect : (os.World → os.World) → Do (Unit {0})
  effect f c = (tt, record c { world = f c.world })

  -- bool IsConnected() const
  abbrev pub is_connected : Client → Bool
  is_connected c = elim c.pipe [ none ↦ false | some _ ↦ true ]

module _ {os : Os} {A B : Type 0} where
  infixl 5 ◌>>=◌ ◌>>◌
  abbrev pub ◌>>=◌ : Do os A → (A → Do os B) → Do os B
  ◌>>=◌ m f c = let (a, c') = m c in f a c'

  abbrev pub ◌>>◌ : Do os A → Do os B → Do os B
  m >> k = m >>= λ _. k

abbrev pub pure : {os : Os} {A : Type 0} → A → Do os A
pure a c = (a, c)

-- What holds of every run of an operation.
module _ {os : Os} {B : Type 0} (P : B × Client os → Type 0) where
  abbrev pub Always : Do os B → Type 0
  Always m = (c : Client os) → P (m c)

  pub bind-Always :
      {A : Type 0} (m : Do os A) (k : A → Do os B) → ((a : A) → Always (k a)) → Always (m >>= k)
  bind-Always m k h c = h (m c).0 (m c).1

  pub if-Always : (b : Bool) (m k : Do os B) → Always m → Always k → Always (if b then m else k)
  if-Always true m k hm hk = hm
  if-Always false m k hm hk = hk
