-- ===== src/Boot/Parsed.antt =====
-- bootvars.go: the names that parseBootName reads as numbers.
use uefi.Base.{
  ◌↔◌, ℕ, ◌+◌, ◌*◌, ◌/◌, ◌%◌, ◌<◌, ◌≡◌, refl, sym, ap, subst, ◌∙◌, true, ◌||◌, not, some, List, [],
  ◌∷◌, ◌++◌, Bytes, arith, length, ◌==◌, take, drop, length-drop, take-append-drop, eq_bytes,
  eq_bytes→eq, Bool-cases, Option-cases, inl, inr,
}
use uefi.Text.Utf8.{runes, runes_from, decode_rune}
use uefi.Boot.Names.{hex_digit-lt, parse_boot_name-boot_name}
use uefi.Boot.{hex_digit, hex_value, hex_number, boot_name, parse_boot_name, boot_prefix}

hex_value-eq-some : (c d : ℕ) → hex_value c ≡ some d → (d < 16) × (c ≡ hex_digit d)
unfolding hex_value hex_digit
hex_value-eq-some c d h = ground arith

-- A rune below 128 is a byte.
decode_rune_ascii : (b : ℕ) (bs : Bytes) → (decode_rune b bs).0 < 128 → decode_rune b bs ≡ (b, 0)
unfolding decode_rune
decode_rune_ascii b [] h = ground arith
decode_rune_ascii b (c ∷ []) h = ground arith
decode_rune_ascii b (c ∷ d ∷ []) h = ground arith
decode_rune_ascii b (c ∷ d ∷ e ∷ bs) h = ground arith

hex_number-eq-some :
    (r : ℕ) (rs : List ℕ) (acc n : ℕ)
    → hex_number (r ∷ rs) acc ≡ some n
    → (d : ℕ) × (d < 16) × (r ≡ hex_digit d) × (hex_number rs (acc * 16 % 65536 + d) ≡ some n)
unfolding hex_number
hex_number-eq-some r rs acc n h = elim (Option-cases (hex_value r)) [
  | inl bad ↦ cc (rw (hex_number, bad) at h)
  | inr (d, good) ↦
      let (small, digit) = hex_value-eq-some r d good in
      (d, small, digit, rw (hex_number, good) at h)
]

-- A byte from which a digit is read is that digit.
first_digit :
    (b : ℕ) (bs : Bytes) (acc n : ℕ)
    → hex_number (runes_from 0 (b ∷ bs)) acc ≡ some n
    → (d : ℕ) × (d < 16)
      × (b ≡ hex_digit d)
      × (hex_number (runes_from 0 bs) (acc * 16 % 65536 + d) ≡ some n)
unfolding runes_from
first_digit b bs acc n h =
    let (d, small, digit, rest) =
      hex_number-eq-some (decode_rune b bs).0 (runes_from (decode_rune b bs).1 bs) acc n h in
    let ascii : (decode_rune b bs).0 < 128 = rw digit (hex_digit-lt d small) in
    let whole = decode_rune_ascii b bs ascii in
    (d, small, sym (ap (λ r. r.0) whole) ∙ digit, rw whole at rest)

last_digit : (v n : ℕ) → hex_number (runes_from 0 []) v ≡ some n → v ≡ n
unfolding hex_number runes_from
last_digit v n h = cc

digits_of :
    (w x y z n : ℕ)
    → w < 16
    → x < 16
    → y < 16
    → z < 16
    → (((0 * 16 % 65536 + w) * 16 % 65536 + x) * 16 % 65536 + y) * 16 % 65536 + z ≡ n
    → (n < 65536) × (w ≡ n / 4096 % 16) × (x ≡ n / 256 % 16) × (y ≡ n / 16 % 16) × (z ≡ n % 16)
digits_of w x y z n hw hx hy hz e =
    (omega arith, omega arith, omega arith, omega arith, omega arith)

-- Four bytes that are read as a number are its four digits.
four_digits :
    (a b c d n : ℕ)
    → hex_number (runes (a ∷ b ∷ c ∷ d ∷ [])) 0 ≡ some n
    → (n < 65536)
      × (a ≡ hex_digit (n / 4096 % 16))
      × (b ≡ hex_digit (n / 256 % 16))
      × (c ≡ hex_digit (n / 16 % 16))
      × (d ≡ hex_digit (n % 16))
unfolding runes
four_digits a b c d n h =
    let (w, w_small, w_digit, h1) = first_digit a (b ∷ c ∷ d ∷ []) 0 n h in
    let (x, x_small, x_digit, h2) = first_digit b (c ∷ d ∷ []) _ n h1 in
    let (y, y_small, y_digit, h3) = first_digit c (d ∷ []) _ n h2 in
    let (z, z_small, z_digit, h4) = first_digit d [] _ n h3 in
    let (small, ew, ex, ey, ez) =
      digits_of w x y z n w_small x_small y_small z_small (last_digit _ n h4) in
    (
      small,
      w_digit ∙ ap hex_digit ew,
      x_digit ∙ ap hex_digit ex,
      y_digit ∙ ap hex_digit ey,
      z_digit ∙ ap hex_digit ez,
    )

-- The bytes of a name of eight.
tail_of_four : (bs : Bytes) → length bs ≡ 4 → (a b c d : ℕ) × (bs ≡ a ∷ b ∷ c ∷ d ∷ [])
tail_of_four (a ∷ b ∷ c ∷ d ∷ []) h = (a, b, c, d, refl)
tail_of_four [] h = absurd (omega arith)
tail_of_four (a ∷ []) h = absurd (omega arith)
tail_of_four (a ∷ b ∷ []) h = absurd (omega arith)
tail_of_four (a ∷ b ∷ c ∷ []) h = absurd (omega arith)
tail_of_four (a ∷ b ∷ c ∷ d ∷ e ∷ bs) h = absurd (omega arith)

pub boot_name-parse_boot_name :
    (name : Bytes) (n : ℕ) → parse_boot_name name ≡ some n → (n < 65536) × (name ≡ boot_name n)
unfolding parse_boot_name boot_name
boot_name-parse_boot_name name n h =
    elim (Bool-cases (not (length name == 8) || not (eq_bytes (take 4 name) boot_prefix))) [
      | inl bad ↦ cc (rw bad at h)
      | inr good ↦
          let eight : length name ≡ 8 = ground arith in
          let same : eq_bytes (take 4 name) boot_prefix ≡ true = ground arith in
          let (a, b, c, d, four) = tail_of_four (drop 4 name) (omega (arith, length-drop 4 name)) in
          let (small, ea, eb, ec, ed) = four_digits a b c d n (rw four at (rw good at h)) in
          let front = eq_bytes→eq (take 4 name) boot_prefix same in
          let back : drop 4 name
              ≡ hex_digit (n / 4096 % 16)
                ∷ hex_digit (n / 256 % 16)
                ∷ hex_digit (n / 16 % 16)
                ∷ hex_digit (n % 16)
                ∷ [] =
            four ∙ cc (ea, eb, ec, ed) in
          (
            small,
            sym (take-append-drop 4 name)
                ∙ ap (λ t. t ++ drop 4 name) front
                ∙ ap (λ t. boot_prefix ++ t) back,
          )
    ]

-- parseBootName reads a name as a number just where the number is a uint16 and the name is the one
-- that bootName writes for it.
pub parse_boot_name_iff :
    (name : Bytes) (n : ℕ) → (parse_boot_name name ≡ some n) ↔ ((n < 65536) × (name ≡ boot_name n))
parse_boot_name_iff name n = (
  boot_name-parse_boot_name name n,
  λ (small, e).
      subst (λ (b : Bytes). parse_boot_name b ≡ some n) (sym e) (parse_boot_name-boot_name n small),
)
