-- ===== src/Text/Decoded.antt =====
-- uefi.go: what DecodeUTF16LE gives, on any bytes.
use uefi.Base.{ℕ, ◌%◌, ◌≡◌, refl, sym, arith, List, [], ◌∷◌, ◌++◌, ◌&&◌, ◌||◌}
use uefi.Base.{Bytes, ltb, leb, if◌then◌else◌, Yields, yields, Yields-guard, length, ◌==◌}
use mathlib.Core.Path.{ap₂}
use uefi.Text.{get_units, drop_nul, decode_utf16le}
use uefi.Text.Utf8.{IsScalar, encode_rune, string}
use uefi.Text.Utf16.{utf16_decode}
use uefi.Text.RoundTrip.{IsUtf8}

-- A rune, or U+FFFD for what is none.
unfoldable scalar : ℕ → ℕ
scalar r = if ltb r 0xd800 || (leb 0xe000 r && ltb r 0x110000) then r else 0xfffd

scalar-IsScalar : (r : ℕ) → IsScalar (scalar r)
unfolding scalar
scalar-IsScalar r = ground arith

encode_rune-scalar : (r : ℕ) → encode_rune (scalar r) ≡ encode_rune r
unfolding scalar encode_rune
encode_rune-scalar r = ground arith

-- `string(runes)` is valid UTF-8, whatever the runes.
pub string-IsUtf8 : (rs : List ℕ) → IsUtf8 (string rs)
unfolding string
string-IsUtf8 [] = ([], tt, refl)
string-IsUtf8 (r ∷ rs) =
    let (ss, h, e) = string-IsUtf8 rs in
    (scalar r ∷ ss, (scalar-IsScalar r, h), ap₂ ◌++◌ (sym (encode_rune-scalar r)) e)

-- What DecodeUTF16LE gives is valid UTF-8.
pub decode_utf16le-IsUtf8 : (b : Bytes) → Yields IsUtf8 (decode_utf16le b)
unfolding decode_utf16le
decode_utf16le-IsUtf8 b =
    Yields-guard (length b % 2 == 0) _
      (λ _. yields (string-IsUtf8 (utf16_decode (drop_nul (get_units b)))))
