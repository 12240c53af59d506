-- ===== src/Romaji/Buffer.antt =====
-- The composition buffer: `PendingStart` and the three free functions of
-- tsf/Ohagey/RomajiKana.cpp.
pub mod Split
pub mod Typing
pub mod Whole
pub mod Shown
pub mod DoubleN
use ohagey.Common.{
  ℕ, zero, suc, Bool, true, ◌&&◌, [], ◌∷◌, ◌++◌, ltb, if◌then◌else◌, length, take, drop,
}
use ohagey.Common.Text.{Text}
use ohagey.Romaji.Kana.{
  converter_runs, RomajiKana, fresh, append, romaji_to_kana, romaji_to_display,
}

-- buffer[i] for i inside the buffer.
abbrev pub char_at : Text → ℕ → ℕ
char_at [] i = 0
char_at (x ∷ xs) zero = x
char_at (x ∷ xs) (suc i) = char_at xs i

-- while (i > 0 && buffer[i - 1] < 0x80) --i;
unfoldable pub ascii_from : Text → ℕ → ℕ
ascii_from buffer zero = zero
ascii_from buffer (suc i) =
    let further = ascii_from buffer i in if ltb (char_at buffer i) 0x80 then further else suc i

unfoldable pub pending_start : Text → ℕ
pending_start buffer = ascii_from buffer (length buffer)

-- The converter after the letters, and whether it took every one.
unfoldable pub replay : Text → RomajiKana × Bool → RomajiKana × Bool
replay [] s = s
replay (c ∷ cs) s = let (c', taken) = append c s.0 in replay cs (c', s.1 && taken)

unfoldable pub buffer_after_keystroke : Text → ℕ → Text
buffer_after_keystroke buffer ch =
    let split = pending_start buffer in
    let settled = take split buffer in
    let pending = drop split buffer in
    let (converter, accepted) = replay (pending ++ ch ∷ []) (fresh, true) in
    if accepted then settled ++ (converter.kana ++ converter.pending) else buffer ++ ch ∷ []

unfoldable pub buffer_display : Text → Text
buffer_display buffer =
    let split = pending_start buffer in take split buffer ++ romaji_to_display (drop split buffer)

unfoldable pub buffer_reading : Text → Text
buffer_reading buffer =
    let split = pending_start buffer in take split buffer ++ romaji_to_kana (drop split buffer)

-- The same for the buffer.
unfoldable pub buffer_runs : Unit {0}
unfolding converter_runs ascii_from pending_start replay buffer_after_keystroke buffer_display
    buffer_reading
buffer_runs = tt
