-- ===== src/Client/Frame.antt =====
-- The frame of a message: `PutFrameHeader`, `ReadFrameHeader`, and `WriteAll` and `ReadAll`
-- (tsf/Ohagey/OhageyEngineClient.cpp).
pub mod Header
pub mod Transfers
pub mod Completes
use Prim.Native.Nat.{bit_or}
use ohagey.Common.{
  ℕ, zero, suc, ◌+◌, ◌-◌, ◌*◌, ◌/◌, ◌%◌, ◌^◌, Bool, true, false, Option, none, some, List, [], ◌∷◌,
  ◌++◌, ◌==◌, if◌then◌else◌, length, take, drop,
}
use ohagey.Wire.{Bytes}
use ohagey.Client.Os.{Os, Client, Do, call, pure, ◌>>=◌, ◌>>◌}

abbrev pub max_payload : ℕ
max_payload = 8 * 1024 * 1024

abbrev pub frame_header_size : ℕ
frame_header_size = 4

unfoldable pub put_frame_header : Bytes → ℕ → Bytes
put_frame_header frame size =
    frame
    ++ (size % 256) ∷ (size / 2 ^ 8 % 256) ∷ (size / 2 ^ 16 % 256) ∷ (size / 2 ^ 24 % 256) ∷ []

-- header[i]
abbrev byte_at : Bytes → ℕ → ℕ
byte_at [] i = 0
byte_at (b ∷ bs) zero = b
byte_at (b ∷ bs) (suc i) = byte_at bs i

unfoldable pub read_frame_header : Bytes → ℕ
read_frame_header header =
    bit_or
      (bit_or (bit_or (byte_at header 0) (byte_at header 1 * 2 ^ 8)) (byte_at header 2 * 2 ^ 16))
      (byte_at header 3 * 2 ^ 24)

unfoldable pub frame_of : Bytes → Bytes
frame_of payload = put_frame_header [] (length payload % 2 ^ 32) ++ payload

-- A DWORD of a size.
abbrev pub dword : ℕ → ℕ
dword size = size % 2 ^ 32

module _ (os : Os) where
  abbrev pub write_file : Bytes → Do os (Option ℕ)
  write_file bytes c = call os (os.write_file c.pipe bytes) c

  abbrev pub read_file : ℕ → Do os (Option Bytes)
  read_file size c = call os (os.read_file c.pipe size) c

  -- if (!WriteFile(...) || written == 0) return false;
  abbrev pub next_write : Option ℕ → (ℕ → Do os Bool) → Do os Bool
  next_write none go = pure false
  next_write (some written) go = if written == 0 then pure false else go written

  -- What is left to write; a turn that goes on has written a byte at least.
  unfoldable pub write_loop : ℕ → Bytes → Do os Bool
  write_loop fuel [] = pure true
  write_loop zero (b ∷ bs) = pure false
  write_loop (suc fuel) (b ∷ bs) = do
    written ← write_file (take (dword (length (b ∷ bs))) (b ∷ bs))
    next_write written (λ n. write_loop fuel (drop n (b ∷ bs)))

  unfoldable pub write_all : Bytes → Do os Bool
  write_all bytes = write_loop (length bytes) bytes

  -- if (!ReadFile(...) || read == 0) return false;
  abbrev pub next_read : Option Bytes → (Bytes → Do os (Option Bytes)) → Do os (Option Bytes)
  next_read none go = pure none
  next_read (some bytes) go = if length bytes == 0 then pure none else go bytes

  -- How many bytes are still to read, and those that were read.
  unfoldable pub read_loop : ℕ → ℕ → Bytes → Do os (Option Bytes)
  read_loop fuel zero got = pure (some got)
  read_loop zero (suc left) got = pure none
  read_loop (suc fuel) (suc left) got = do
    read ← read_file (dword (suc left))
    next_read read (λ bytes. read_loop fuel (suc left - length bytes) (got ++ bytes))

  -- `none` is false: the buffer that was filled in part is not used.
  unfoldable pub read_all : ℕ → Do os (Option Bytes)
  read_all size = read_loop size size []
