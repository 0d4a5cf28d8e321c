-- ===== src/Store/Prefix.antt =====
-- uefi.go, OpenLimits: the layout that it reads, and the bytes that it depends on.
use uefi.Base.{
  ℕ, ◌+◌, ◌^◌, ◌<◌, ◌≤◌, ◌≡◌, refl, sym, ◌∙◌, Bool, true, false, ◌∷◌, ◌++◌, Bytes, some, arith,
  Bool-cases, inl, inr, eq_bytes,
}
use uefi.Base.{
  ok, ◌>>=◌, index, slice-prefix, index-prefix, slice_ok, length, length-append, ltb, take, drop,
  get_elem?, get_elem?-drop, index→get_elem?, if◌then◌else◌, >>=-eq-ok, length-drop,
}
use uefi.Variable.{
  Guid, guid_of, eq_guid, efi_system_nv_data_fv_guid, fv_header_size, store_header_size,
}
use uefi.Store.{Layout, detect_fv_wrap, read_store_header, read_layout}

-- The offset of the store header.
abbrev header_off : Bool → ℕ
header_off wrapped = if wrapped then fv_header_size else 0

module _ (h t t' : Bytes) (same : length t ≡ length t') where
  same_length : length (h ++ t) ≡ length (h ++ t')
  same_length = omega (arith, length-append h t, length-append h t')

  read_store_header-prefix :
      (wrapped : Bool)
      → header_off wrapped + store_header_size ≤ length h
      → read_store_header (h ++ t) wrapped ≡ read_store_header (h ++ t') wrapped
  unfolding read_store_header
  read_store_header-prefix true fits = rw (
    same_length,
    slice-prefix h t t' 72 88 (omega arith) (omega arith),
    index-prefix h t t' 92 (omega arith),
    index-prefix h t t' 93 (omega arith),
    slice-prefix h t t' 88 92 (omega arith) (omega arith),
  )
  read_store_header-prefix false fits = rw (
    same_length,
    slice-prefix h t t' 0 16 (omega arith) (omega arith),
    index-prefix h t t' 20 (omega arith),
    index-prefix h t t' 21 (omega arith),
    slice-prefix h t t' 16 20 (omega arith) (omega arith),
  )

  detect_fv_wrap-prefix : 44 ≤ length h → detect_fv_wrap (h ++ t) ≡ detect_fv_wrap (h ++ t')
  unfolding detect_fv_wrap
  detect_fv_wrap-prefix fits = rw (
    same_length,
    slice-prefix h t t' 16 32 (omega arith) (omega arith),
    slice-prefix h t t' 40 44 (omega arith) (omega arith),
  )

-- A raw store has the format byte where a firmware volume has the fifth byte of its GUID.
fifth_byte : (y : Bytes) → 16 ≤ length y → get_elem? y 4 ≡ some (guid_of (take 16 y)).b4
unfolding guid_of
fifth_byte (a ∷ b ∷ c ∷ d ∷ e ∷ f ∷ g ∷ h ∷ i ∷ j ∷ k ∷ l ∷ m ∷ n ∷ o ∷ p ∷ y) h' = refl
fifth_byte _ h' = absurd (omega arith)

not_fv_guid : (g : Guid) → g.b4 ≡ 0x5a → eq_guid g efi_system_nv_data_fv_guid ≡ false
unfolding eq_bytes
not_fv_guid g e = ground arith

pub format_byte :
    (buf : Bytes) (lay : Layout) → read_store_header buf false ≡ ok lay → index buf 20 ≡ ok 0x5a
unfolding read_store_header
format_byte buf lay e = ground arith

-- Where the header is found, and what the clamp of its size achieves.
pub record IsWithin (lay : Layout) (len : ℕ) : Type 0 where
  pub off_of_flavour : lay.store_off ≡ header_off lay.fv_wrapped
  pub header_in : lay.store_off + store_header_size ≤ len
  pub store_in : lay.store_off + lay.store_size ≤ len

pub read_store_header-IsWithin :
    (buf : Bytes) (wrapped : Bool) (lay : Layout)
    → read_store_header buf wrapped ≡ ok lay
    → length buf < 2 ^ 32
    → IsWithin lay (length buf) × (lay.fv_wrapped ≡ wrapped)
unfolding read_store_header
read_store_header-IsWithin buf true lay e small = ground arith
read_store_header-IsWithin buf false lay e small = ground arith

pub detect_fv_wrap_raw : (buf : Bytes) → index buf 20 ≡ ok 0x5a → detect_fv_wrap buf ≡ ok false
unfolding detect_fv_wrap
detect_fv_wrap_raw buf e = elim (Bool-cases (ltb (length buf) fv_header_size)) [
  | inl short ↦ rw short
  | inr long ↦
      let size : 72 ≤ length buf = ground arith in
      let tail = drop 16 buf in
      let fifth : some 0x5a ≡ some (guid_of (take 16 tail)).b4 =
        sym (get_elem?-drop 16 4 buf ∙ index→get_elem? buf 20 0x5a e)
        ∙ fifth_byte tail (rw length-drop (omega arith)) in
      let other = not_fv_guid (guid_of (take 16 tail)) (cc) in
      rw (long, slice_ok buf 16 32 (omega arith) (omega arith), other)
]

pub read_layout-IsWithin :
    (buf : Bytes) (lay : Layout)
    → read_layout buf ≡ ok lay
    → length buf < 2 ^ 32
    → IsWithin lay (length buf)
unfolding read_layout
read_layout-IsWithin buf lay e small =
    let (wrapped, _, e') = >>=-eq-ok (detect_fv_wrap buf) _ e in
    (read_store_header-IsWithin buf wrapped lay e' small).0

-- A file with the same headers and the same length has the same layout.
pub read_layout-prefix :
    (h t t' : Bytes) (lay : Layout)
    → length t ≡ length t'
    → read_layout (h ++ t) ≡ ok lay
    → length (h ++ t) < 2 ^ 32
    → length h ≡ lay.store_off + store_header_size
    → read_layout (h ++ t') ≡ ok lay
unfolding read_layout
read_layout-prefix h t t' lay same e small size =
    let (wrapped, detected, e') = >>=-eq-ok (detect_fv_wrap (h ++ t)) _ e in
    go wrapped detected e' (read_store_header-IsWithin (h ++ t) wrapped lay e' small)
  where
    go :
        (wrapped : Bool)
        → detect_fv_wrap (h ++ t) ≡ ok wrapped
        → read_store_header (h ++ t) wrapped ≡ ok lay
        → IsWithin lay (length (h ++ t)) × (lay.fv_wrapped ≡ wrapped)
        → (detect_fv_wrap (h ++ t') >>= read_store_header (h ++ t')) ≡ ok lay
    go true d r (inside, flavour) =
        let wide : length h ≡ 100 = ground arith in
        rw (sym (detect_fv_wrap-prefix h t t' same (omega arith)) ∙ d)
          (sym (read_store_header-prefix h t t' same true (omega arith)) ∙ r)
    go false d r (inside, flavour) =
        let narrow : length h ≡ 28 = ground arith in
        let format = sym (index-prefix h t t' 20 (omega arith)) ∙ format_byte (h ++ t) lay r in
        rw (detect_fv_wrap_raw (h ++ t') format)
          (sym (read_store_header-prefix h t t' same false (omega arith)) ∙ r)
