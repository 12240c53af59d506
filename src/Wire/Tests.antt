-- ===== src/Wire/Tests.antt =====
-- Concrete runs of the wire format, and the theorems at concrete inputs.
use ohagey.Common.{ℕ, ◌≤◌, ◌≡◌, true, some, [], ◌∷◌, ◌++◌, length, All, arith}
use ohagey.Wire.{
  IsByte, reader, WireType, varint, length_delimited, write_varint, write_uint32, write_int32,
  write_bool, write_message, read_varint, read_tag, read_uint32, read_int32, read_bool,
  read_message, skip_field,
}
use ohagey.Wire.Text.{CodePage, read_string}
use ohagey.Wire.Varint.{read_varint-write_varint}
use ohagey.Wire.Discipline.{IsDisciplined, reads-IsDisciplined}
use ohagey.Wire.Values.{tagged, read_written}

read_varint_example :
    (read_varint (reader (write_varint [] 300 ++ 7 ∷ [])) ≡ (some 300, reader (7 ∷ [])))
    × All IsByte (write_varint [] 300)
    × (1 ≤ length (write_varint [] 300))
    × (length (write_varint [] 300) ≤ 10)
read_varint_example = read_varint-write_varint 300 (7 ∷ []) (omega arith)

-- A code page of Latin letters.
abbrev pub ascii : CodePage
ascii = record { wide_char_to_multi_byte = λ s. some s; multi_byte_to_wide_char = λ s. some s }

reads-IsDisciplined_example :
    IsDisciplined read_tag
    × IsDisciplined read_varint
    × IsDisciplined read_uint32
    × IsDisciplined read_int32
    × IsDisciplined read_bool
    × IsDisciplined (read_string ascii)
    × IsDisciplined read_message
    × ((t : WireType) → IsDisciplined (skip_field t))
reads-IsDisciplined_example = reads-IsDisciplined ascii

abbrev minus_two : ℕ
minus_two = 0xFFFFFFFE

read_written_example :
    (tagged read_uint32 (reader (write_uint32 [] 3 9 ++ 1 ∷ []))
      ≡ (some ((3, varint), 9), reader (1 ∷ [])))
    × (tagged read_int32 (reader (write_int32 [] 3 minus_two ++ 1 ∷ []))
        ≡ (some ((3, varint), minus_two), reader (1 ∷ [])))
    × (tagged read_bool (reader (write_bool [] 3 true ++ 1 ∷ []))
        ≡ (some ((3, varint), true), reader (1 ∷ [])))
    × (tagged read_message (reader (write_message [] 3 (5 ∷ []) ++ 1 ∷ []))
        ≡ (some ((3, length_delimited), 5 ∷ []), reader (1 ∷ [])))
read_written_example =
    read_written 3 9 minus_two (5 ∷ []) (1 ∷ []) (omega arith) (omega arith) (omega arith)
      (omega arith) (omega arith) (omega arith)
