-- ===== src/Client/Frame/Header.antt =====
-- The four bytes in front of a message (tsf/Ohagey/OhageyEngineClient.cpp).
use Prim.Native.Nat.{bit_or}
use ohagey.Common.{
  ℕ, ◌+◌, ◌*◌, ◌^◌, ◌<◌, ◌≡◌, refl, ap, ◌∙◌, [], ◌∷◌, arith, length, take, drop, All,
}
use ohagey.Common.Bits.{or_shifted}
use ohagey.Wire.{Bytes, IsByte}
use ohagey.Client.Frame.{put_frame_header, read_frame_header, frame_of, frame_header_size}

read_bytes :
    (b0 b1 b2 b3 : ℕ)
    → b0 < 256
    → b1 < 256
    → b2 < 256
    → read_frame_header (b0 ∷ b1 ∷ b2 ∷ b3 ∷ []) ≡ b0 + b1 * 0x100 + b2 * 0x10000 + b3 * 0x1000000
unfolding read_frame_header
read_bytes b0 b1 b2 b3 h0 h1 h2 =
    ap (λ (x : ℕ). bit_or (bit_or x (b2 * 2 ^ 16)) (b3 * 2 ^ 24)) (or_shifted 8 b0 b1 (omega arith))
    ∙ ap (λ (x : ℕ). bit_or x (b3 * 2 ^ 24)) (or_shifted 16 (b0 + b1 * 2 ^ 8) b2 (omega arith))
    ∙ or_shifted 24 (b0 + b1 * 2 ^ 8 + b2 * 2 ^ 16) b3 (omega arith)

-- The number that bytes stand for, the least significant one first.
abbrev pub little_endian : Bytes → ℕ
little_endian [] = 0
little_endian (b ∷ bs) = b + 0x100 * little_endian bs

-- A message of less than 2 ^ 32 bytes is framed as four bytes, of which the least significant
-- comes first and which stand for its length, and then the message itself; and a header of any
-- four bytes is read as the number that they stand for in that order.
pub frame_lem :
    (payload : Bytes) (b0 b1 b2 b3 : ℕ)
    → length payload < 2 ^ 32
    → All IsByte (b0 ∷ b1 ∷ b2 ∷ b3 ∷ [])
    → (little_endian (take frame_header_size (frame_of payload)) ≡ length payload)
      × (length (take frame_header_size (frame_of payload)) ≡ frame_header_size)
      × All IsByte (take frame_header_size (frame_of payload))
      × (drop frame_header_size (frame_of payload) ≡ payload)
      × (read_frame_header (b0 ∷ b1 ∷ b2 ∷ b3 ∷ []) ≡ little_endian (b0 ∷ b1 ∷ b2 ∷ b3 ∷ []))
unfolding frame_of put_frame_header
frame_lem payload b0 b1 b2 b3 h bytes = (
  omega arith,
  refl,
  (omega arith, (omega arith, (omega arith, (omega arith, tt)))),
  refl,
  read_bytes b0 b1 b2 b3 bytes.0 bytes.1.0 bytes.1.1.0 ∙ omega arith,
)
