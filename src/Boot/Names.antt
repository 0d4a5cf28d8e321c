-- ===== src/Boot/Names.antt =====
-- bootvars.go: the names Boot#### and their numbers.
use uefi.Base.{
  ℕ, ◌+◌, ◌*◌, ◌/◌, ◌%◌, ◌<◌, ◌≡◌, ◌≢◌, refl, ap, ◌∙◌, false, some, List, [], ◌∷◌, Bytes, arith,
  length, eq_bytes, eq_bytes→eq, Bool-cases, inl, inr,
}
use uefi.Text.Utf8.{runes, runes_from}
use uefi.Text.RoundTrip.{decode_one}
use uefi.Boot.{hex_digit, hex_value, hex_number, boot_name, parse_boot_name}

-- Strings of two lengths differ.
pub eq_bytes_ne : (xs ys : Bytes) → length xs ≢ length ys → eq_bytes xs ys ≡ false
eq_bytes_ne xs ys h = elim (Bool-cases (eq_bytes xs ys)) [
  | inl same ↦ absurd (h (ap length (eq_bytes→eq xs ys same)))
  | inr other ↦ other
]

pub hex_digit-lt : (d : ℕ) → d < 16 → hex_digit d < 128
unfolding hex_digit
hex_digit-lt d h = ground arith

hex_value-hex_digit : (d : ℕ) → d < 16 → hex_value (hex_digit d) ≡ some d
unfolding hex_value hex_digit
hex_value-hex_digit d h = ground arith

hex_number-hex_digit :
    (d n : ℕ) (cs : List ℕ)
    → d < 16
    → hex_number (hex_digit d ∷ cs) n ≡ hex_number cs (n * 16 % 65536 + d)
unfolding hex_number
hex_number-hex_digit d n cs h = rw (hex_value-hex_digit d h, hex_number)

runes_from_ascii : (b : ℕ) (bs : Bytes) → b < 128 → runes_from 0 (b ∷ bs) ≡ b ∷ runes_from 0 bs
unfolding runes_from
runes_from_ascii b bs h = rw (decode_one b bs h)

runes_four :
    (a b c d : ℕ)
    → a < 128
    → b < 128
    → c < 128
    → d < 128
    → runes (a ∷ b ∷ c ∷ d ∷ []) ≡ a ∷ b ∷ c ∷ d ∷ []
unfolding runes
runes_four a b c d ha hb hc hd = rw (
  runes_from_ascii a _ ha,
  runes_from_ascii b _ hb,
  runes_from_ascii c _ hc,
  runes_from_ascii d _ hd,
)

hex_four :
    (a b c d : ℕ)
    → a < 16
    → b < 16
    → c < 16
    → d < 16
    → hex_number (runes (hex_digit a ∷ hex_digit b ∷ hex_digit c ∷ hex_digit d ∷ [])) 0
      ≡ some ((((0 * 16 % 65536 + a) * 16 % 65536 + b) * 16 % 65536 + c) * 16 % 65536 + d)
hex_four a b c d ha hb hc hd =
    ap (λ cs. hex_number cs 0)
      (runes_four (hex_digit a) (hex_digit b) (hex_digit c) (hex_digit d) (hex_digit-lt a ha)
        (hex_digit-lt b hb) (hex_digit-lt c hc) (hex_digit-lt d hd))
    ∙ hex_number-hex_digit a 0 (hex_digit b ∷ hex_digit c ∷ hex_digit d ∷ []) ha
    ∙ hex_number-hex_digit b _ (hex_digit c ∷ hex_digit d ∷ []) hb
    ∙ hex_number-hex_digit c _ (hex_digit d ∷ []) hc
    ∙ hex_number-hex_digit d _ [] hd
    ∙ unfold hex_number in refl

-- parseBootName reads back the number of every name that bootName writes.
pub parse_boot_name-boot_name : (n : ℕ) → n < 65536 → parse_boot_name (boot_name n) ≡ some n
unfolding parse_boot_name boot_name eq_bytes runes
parse_boot_name-boot_name n h =
    hex_four (n / 4096 % 16) (n / 256 % 16) (n / 16 % 16) (n % 16) (omega arith) (omega arith)
      (omega arith) (omega arith)
    ∙ ap some (omega arith)
