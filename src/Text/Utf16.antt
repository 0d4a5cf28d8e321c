-- ===== src/Text/Utf16.antt =====
-- Go's unicode/utf16: Encode and Decode.
use uefi.Base.{ℕ, ◌+◌, ◌-◌, ◌*◌, ◌/◌, ◌%◌, Bool, List, [], ◌∷◌, ◌++◌, ◌&&◌, ◌||◌}
use uefi.Base.{ltb, leb, if◌then◌else◌}

-- The ranges of the surrogates, the first rune above them, and unicode.ReplacementChar.
abbrev pub surr1 : ℕ
surr1 = 0xd800

abbrev pub surr2 : ℕ
surr2 = 0xdc00

abbrev pub surr3 : ℕ
surr3 = 0xe000

abbrev pub surr_self : ℕ
surr_self = 0x10000

abbrev pub max_rune : ℕ
max_rune = 0x10ffff

abbrev pub replacement : ℕ
replacement = 0xfffd

-- One rune: one unit, a surrogate pair, or the replacement character.
unfoldable pub encode_unit : ℕ → List ℕ
encode_unit r =
    if ltb r surr1 || (leb surr3 r && ltb r surr_self)
    then r ∷ []
    else if leb surr_self r && leb r max_rune
    then (surr1 + (r - surr_self) / 1024 % 1024) ∷ (surr2 + (r - surr_self) % 1024) ∷ []
    else replacement ∷ []

unfoldable pub utf16_encode : List ℕ → List ℕ
unfolding encode_unit
utf16_encode [] = []
utf16_encode (r ∷ rs) = encode_unit r ++ utf16_encode rs

-- A high surrogate with a low one behind it.
unfoldable pub is_pair : ℕ → ℕ → Bool
is_pair u v = leb surr1 u && ltb u surr2 && (leb surr2 v && ltb v surr3)

unfoldable pub is_lone : ℕ → Bool
is_lone u = leb surr1 u && ltb u surr3

unfoldable pub utf16_decode : List ℕ → List ℕ
unfolding is_pair is_lone
utf16_decode [] = []
utf16_decode (u ∷ []) = (if is_lone u then replacement else u) ∷ []
utf16_decode (u ∷ v ∷ us) =
    let paired = ((u - surr1) * 1024 + (v - surr2) + surr_self) ∷ utf16_decode us in
    let single = (if is_lone u then replacement else u) ∷ utf16_decode (v ∷ us) in
    if is_pair u v then paired else single
