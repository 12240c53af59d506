-- ===== src/Wire/Text.antt =====
-- `ToUtf8`, `FromUtf8`, `WriteString` and `ReadString` (tsf/Ohagey/OhageyWire.cpp). The conversions
-- themselves are Windows calls, and parameters here.
use ohagey.Common.{
  ℕ, Option, none, some, List, [], ◌∷◌, ◌++◌, ltb, if◌then◌else◌, length, take, drop,
}
use ohagey.Common.Text.{Text}
use ohagey.Wire.{Bytes, length_delimited, write_varint, write_tag, Read, fail, read_varint, ◌>>=◌}

-- WideCharToMultiByte and MultiByteToWideChar for CP_UTF8. A call that returns 0 is `none`; the
-- first of the two calls is taken to report the size that the second one fills.
pub record CodePage : Type 0 where
  pub wide_char_to_multi_byte : Text → Option Bytes
  pub multi_byte_to_wide_char : Bytes → Option Text

abbrev pub or_empty {ℓ} : {A : Type ℓ} → Option (List A) → List A
or_empty none = []
or_empty (some s) = s

module _ (cp : CodePage) where
  unfoldable pub to_utf8 : Text → Bytes
  to_utf8 [] = []
  to_utf8 (c ∷ cs) = or_empty (cp.wide_char_to_multi_byte (c ∷ cs))

  unfoldable pub from_utf8 : Bytes → Text
  from_utf8 [] = []
  from_utf8 (b ∷ bs) = or_empty (cp.multi_byte_to_wide_char (b ∷ bs))

  unfoldable pub write_string : Bytes → ℕ → Text → Bytes
  unfolding to_utf8
  write_string buf field [] = buf
  write_string buf field (c ∷ cs) =
      let utf8 = to_utf8 (c ∷ cs) in
      write_varint (write_tag buf field length_delimited) (length utf8) ++ utf8

  unfoldable pub read_string : Read Text
  read_string = do
    size ← read_varint
    λ r.
        if ltb (length r.rest) size
        then fail r
        else (some (from_utf8 (take size r.rest)), record r { rest = drop size r.rest })
