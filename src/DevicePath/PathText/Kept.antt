-- ===== src/DevicePath/PathText/Kept.antt =====
-- devicepath.go: what the text form of a node keeps of the node.
use uefi.Base.{ok-injective}
use uefi.Base.{
  ℕ, suc, ◌+◌, ◌-◌, ◌*◌, ◌/◌, ◌%◌, ◌<◌, ◌≤◌, ◌≡◌, refl, sym, ap, ◌∙◌, true, false, some, [], ◌∷◌,
  ◌++◌, Bytes, IsByte, All, arith, leb, lt→ltb, le→ltb, ◌==◌, drop, slice, ok, if◌then◌else◌,
}
use native.Mathlib.Decide.{dec_le}
use uefi.Variable.{Guid, guid_bytes, guid_of}
use uefi.DevicePath.{DevicePathNode, type_hardware, type_acpi, type_messaging, type_media}
use uefi.DevicePath.PathText.{
  is_vendor, media_vendor_prefix, guid_text, media_text, node_text, generic_text, hex_bytes, digits,
  hex, lower_digit, closing, comma, comma_hex,
}

-- A digit's value, and the bytes that pairs of digits write.
unfoldable digit_value : ℕ → ℕ
digit_value c = if leb c 57 then c - 48 else c - 87

unfoldable read_hex : Bytes → Bytes
unfolding digit_value
read_hex (c ∷ d ∷ cs) = (16 * digit_value c + digit_value d) ∷ read_hex cs
read_hex _ = []

-- One or two digits and what follows them.
unfoldable read_number : Bytes → ℕ × Bytes
unfolding digit_value
read_number (c ∷ d ∷ cs) =
    if d == b',' then (digit_value c, d ∷ cs) else (16 * digit_value c + digit_value d, cs)
read_number cs = (0, cs)

-- A reader of the generic form.
unfoldable read_rest : ℕ × Bytes → DevicePathNode
unfolding read_hex read_number
read_rest (typ, t) =
    let r = read_number (drop 3 t) in
    record { node_type = typ; sub_type = r.0; content = read_hex (drop 1 r.1) }

unfoldable read_generic : Bytes → DevicePathNode
unfolding read_rest
read_generic t = read_rest (read_number (drop 7 t))

digit_value-lower_digit : (d : ℕ) → d < 16 → digit_value (lower_digit d) ≡ d
unfolding digit_value lower_digit
digit_value-lower_digit d h = ground arith

lower_digit-ne_comma : (d : ℕ) → (lower_digit d == b',') ≡ false
unfolding lower_digit
lower_digit-ne_comma d = ground arith

read_hex-hex_bytes : (b : Bytes) → All IsByte b → read_hex (hex_bytes b ++ closing) ≡ b
unfolding read_hex hex_bytes
read_hex-hex_bytes [] h = refl
read_hex-hex_bytes (c ∷ b) (h, hs) =
    let whole : 16 * (c / 16) + c % 16 ≡ c = omega arith in
    rw (
      digit_value-lower_digit (c / 16) (omega arith),
      digit_value-lower_digit (c % 16) (omega arith),
      whole,
      read_hex-hex_bytes b hs,
    )

hex_one : (k n : ℕ) (done : Bytes) → n < 16 → digits 16 (suc k) n done ≡ lower_digit n ∷ done
unfolding digits
hex_one k n done h = rw (lt→ltb n 16 h)

hex_more :
    (k n : ℕ) (done : Bytes)
    → 16 ≤ n
    → digits 16 (suc k) n done ≡ digits 16 k (n / 16) (lower_digit (n % 16) ∷ done)
unfolding digits
hex_more k n done h = rw (le→ltb n 16 h)

read_number-hex :
    (n : ℕ) (cs : Bytes) → IsByte n → read_number (hex n ++ b',' ∷ cs) ≡ (n, b',' ∷ cs)
unfolding read_number
read_number-hex n cs h = elim (dec_le 16 n) [
  | no one ↦ rw (hex_one 19 n [] (omega arith), digit_value-lower_digit n (omega arith))
  | yes two ↦
      let whole : 16 * (n / 16) + n % 16 ≡ n = omega arith in
      rw (
        hex_more 19 n [] two,
        hex_one 18 (n / 16) (lower_digit (n % 16) ∷ []) (omega arith),
        lower_digit-ne_comma (n % 16),
        digit_value-lower_digit (n / 16) (omega arith),
        digit_value-lower_digit (n % 16) (omega arith),
        whole,
      )
]

read_generic-generic_text :
    (n : DevicePathNode)
    → IsByte n.node_type
    → IsByte n.sub_type
    → All IsByte n.content
    → read_generic (generic_text n) ≡ n
unfolding read_generic read_rest generic_text
read_generic-generic_text n typ sub bytes =
    let tail = hex_bytes n.content ++ closing in
    let e1 : read_number (hex n.node_type ++ (comma_hex ++ (hex n.sub_type ++ (comma ++ tail))))
        ≡ (n.node_type, comma_hex ++ (hex n.sub_type ++ (comma ++ tail))) =
      read_number-hex n.node_type (b'0' ∷ b'x' ∷ (hex n.sub_type ++ (comma ++ tail))) typ in
    let e2 : read_number (hex n.sub_type ++ (comma ++ tail)) ≡ (n.sub_type, comma ++ tail) =
      read_number-hex n.sub_type tail sub in
    ap (λ r. read_rest r) e1
    ∙ ap (λ r. record { node_type = n.node_type; sub_type = r.0; content = read_hex (drop 1 r.1) })
        e2
    ∙ ap (λ b. record n { content = b }) (read_hex-hex_bytes n.content bytes)

above : (a b : ℕ) → b < a → (a == b) ≡ false
above a b h = ground arith

generic : (k : DevicePathNode) → type_media < k.node_type → node_text k ≡ ok (generic_text k)
unfolding node_text
generic k h = rw (
  above k.node_type type_hardware (omega arith),
  above k.node_type type_acpi (omega arith),
  above k.node_type type_messaging (omega arith),
  above k.node_type type_media h,
)

-- Two nodes of bytes, of types above the media type, which have no renderer of their own, have the
-- same text only if they are the same.
pub node_text-injective :
    (n m : DevicePathNode)
    → All IsByte (n.node_type ∷ n.sub_type ∷ n.content)
    → All IsByte (m.node_type ∷ m.sub_type ∷ m.content)
    → type_media < n.node_type
    → type_media < m.node_type
    → node_text n ≡ node_text m
    → n ≡ m
unfolding node_text
node_text-injective n m (typ, (sub, bytes)) (typ', (sub', bytes')) other other' h =
    sym (read_generic-generic_text n typ sub bytes)
    ∙ ap read_generic (ok-injective (sym (generic n other) ∙ h ∙ generic m other'))
    ∙ read_generic-generic_text m typ' sub' bytes'

vendor_text :
    (g : Guid) (s : ℕ) (more : Bytes)
    → is_vendor s ≡ true
    → media_text (record { node_type = type_media; sub_type = s; content = guid_bytes g ++ more })
      ≡ ok (some (media_vendor_prefix ++ (guid_text g ++ closing)))
unfolding media_text slice guid_of
vendor_text g s more v = ground arith

-- All media nodes of the vendor, firmware file and firmware volume sub-types whose data begin with
-- the same GUID have the same text, whatever the sub-type and the data behind the GUID.
pub node_text-vendor :
    (g : Guid) (s s' : ℕ) (more more' : Bytes)
    → is_vendor s ≡ true
    → is_vendor s' ≡ true
    → node_text (record { node_type = type_media; sub_type = s; content = guid_bytes g ++ more })
      ≡ node_text
          (record { node_type = type_media; sub_type = s'; content = guid_bytes g ++ more' })
unfolding node_text
node_text-vendor g s s' more more' v v' = rw (vendor_text g s more v, vendor_text g s' more' v')
