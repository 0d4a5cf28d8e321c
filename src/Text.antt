-- ===== src/Text.antt =====
-- uefi.go, DecodeUTF16LE and EncodeUTF16LE, on Go strings, which are the bytes of UTF-8. The
-- conversions `[]rune(s)` and `string(runes)` and unicode/utf16's Encode and Decode are Go's own,
-- modelled in the children `Utf8` and `Utf16`.
pub mod Utf8
pub mod Utf16
pub mod RoundTrip
pub mod Decoded
use uefi.Base.{
  ℕ, ◌+◌, ◌-◌, ◌*◌, ◌%◌, Bool, List, [], ◌∷◌, ◌++◌, Bytes, Result, ok, err, guard, ◌>>=◌, ◌>>◌,
}
use uefi.Base.{length, ◌==◌, le16, odd_length, if◌then◌else◌}
use Utf8.{runes, string}
use Utf16.{utf16_encode, utf16_decode}

-- The loop over `u16` of EncodeUTF16LE.
unfoldable pub put_units : List ℕ → Bytes
put_units [] = []
put_units (u ∷ us) = le16 u ++ put_units us

unfoldable pub encode_utf16le : Bytes → Bytes
unfolding put_units
encode_utf16le s = put_units (utf16_encode (runes s) ++ 0 ∷ [])

-- The loop over `b` of DecodeUTF16LE, for a buffer of even length.
unfoldable pub get_units : Bytes → List ℕ
get_units (a ∷ b ∷ rest) = (a + 256 * b) ∷ get_units rest
get_units _ = []

-- `if len(u16) > 0 && u16[len(u16)-1] == 0 { u16 = u16[:len(u16)-1] }`
unfoldable pub drop_nul : List ℕ → List ℕ
drop_nul [] = []
drop_nul (u ∷ []) = if u == 0 then [] else u ∷ []
drop_nul (u ∷ v ∷ us) = u ∷ drop_nul (v ∷ us)

unfoldable pub decode_utf16le : Bytes → Result Bytes
unfolding get_units drop_nul
decode_utf16le b = do
  guard (length b % 2 == 0) odd_length
  ok (string (utf16_decode (drop_nul (get_units b))))
