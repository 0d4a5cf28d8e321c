-- ===== src/Store/Cut.antt =====
-- uefi.go, OpenLimits: the layout of a store file whose end is missing.
use uefi.Base.{
  ℕ, ◌+◌, ◌-◌, ◌^◌, ◌<◌, ◌≤◌, ◌≡◌, refl, sym, ◌∙◌, ◌≢◌, Bool, true, false, Bytes, ◌++◌, arith, min,
  length, length-append, get_elem?-append_lt, index→get_elem?,
}
use uefi.Base.{ok, ◌>>=◌, >>=-eq-ok, ltb, le→leb, index, slice-prefix, index-prefix}
use uefi.Variable.{store_header_size}
use uefi.Store.{Layout, detect_fv_wrap, read_store_header, read_layout}
use uefi.Store.Prefix.{IsWithin, read_store_header-IsWithin, format_byte, detect_fv_wrap_raw}

-- The layout of the store in a file that ends at `len`.
abbrev pub clamped : Layout → ℕ → Layout
clamped lay len = record lay { store_size = min lay.store_size (len - lay.store_off) }

module _ (h t t' : Bytes) (shorter : length t' ≤ length t) (small : length (h ++ t) < 2 ^ 32) where
  detect_fv_wrap_cut : 72 ≤ length h → detect_fv_wrap (h ++ t) ≡ detect_fv_wrap (h ++ t')
  unfolding detect_fv_wrap
  detect_fv_wrap_cut fits =
      let long : ltb (length (h ++ t)) 72 ≡ false = ground (arith, length-append h t) in
      let long' : ltb (length (h ++ t')) 72 ≡ false = ground (arith, length-append h t') in
      rw (
        long,
        long',
        slice-prefix h t t' 16 32 (omega arith) (omega arith),
        slice-prefix h t t' 40 44 (omega arith) (omega arith),
      )

  read_store_header_cut :
      (wrapped : Bool) (lay : Layout)
      → read_store_header (h ++ t) wrapped ≡ ok lay
      → lay.store_off + store_header_size ≤ length h
      → read_store_header (h ++ t') wrapped ≡ ok (clamped lay (length (h ++ t')))
  unfolding read_store_header
  read_store_header_cut true lay e fits =
      let hundred : 100 ≤ length h = ground arith in
      rw
        (
          le→leb 100 (length (h ++ t')) (omega (arith, length-append h t')),
          slice-prefix h t' t 72 88 (omega arith) (omega arith),
          index-prefix h t' t 92 (omega arith),
          index-prefix h t' t 93 (omega arith),
          slice-prefix h t' t 88 92 (omega arith) (omega arith),
        )
        (ground (arith, length-append h t, length-append h t'))
  read_store_header_cut false lay e fits =
      let twenty_eight : 28 ≤ length h = ground arith in
      rw
        (
          le→leb 28 (length (h ++ t')) (omega (arith, length-append h t')),
          slice-prefix h t' t 0 16 (omega arith) (omega arith),
          index-prefix h t' t 20 (omega arith),
          index-prefix h t' t 21 (omega arith),
          slice-prefix h t' t 16 20 (omega arith) (omega arith),
        )
        (ground (arith, length-append h t, length-append h t'))

  -- Where the headers are left, the layout is the same but for the size, which ends at the cut.
  pub read_layout_cut :
      (lay : Layout)
      → read_layout (h ++ t) ≡ ok lay
      → lay.store_off + store_header_size ≤ length h
      → read_layout (h ++ t') ≡ ok (clamped lay (length (h ++ t')))
  unfolding read_layout
  read_layout_cut lay e fits =
      let (wrapped, detected, e') = >>=-eq-ok (detect_fv_wrap (h ++ t)) _ e in
      go wrapped detected e' (read_store_header-IsWithin (h ++ t) wrapped lay e' small)
    where
      go :
          (wrapped : Bool)
          → detect_fv_wrap (h ++ t) ≡ ok wrapped
          → read_store_header (h ++ t) wrapped ≡ ok lay
          → IsWithin lay (length (h ++ t)) × (lay.fv_wrapped ≡ wrapped)
          → (detect_fv_wrap (h ++ t') >>= read_store_header (h ++ t'))
            ≡ ok (clamped lay (length (h ++ t')))
      go true d r (inside, flavour) =
          let wide : 100 ≤ length h = ground arith in
          rw (sym (detect_fv_wrap_cut (omega arith)) ∙ d) (read_store_header_cut true lay r fits)
      go false d r (inside, flavour) =
          let format = sym (index-prefix h t t' 20 (omega arith)) ∙ format_byte (h ++ t) lay r in
          rw (detect_fv_wrap_raw (h ++ t') format) (read_store_header_cut false lay r fits)

-- Where the headers are cut, there is no layout.
pub read_layout_short :
    (h t : Bytes) (lay lay' : Layout)
    → length (h ++ t) < 2 ^ 32
    → read_layout (h ++ t) ≡ ok lay
    → length h < lay.store_off + store_header_size
    → read_layout h ≢ ok lay'
unfolding read_layout index
read_layout_short h t lay lay' small e short e' =
    let (wrapped, d, r) = >>=-eq-ok (detect_fv_wrap (h ++ t)) _ e in
    let (wrapped', d', r') = >>=-eq-ok (detect_fv_wrap h) _ e' in
    let sized = length-append h t in
    let inside = read_store_header-IsWithin (h ++ t) wrapped lay r small in
    let inside' = read_store_header-IsWithin h wrapped' lay' r' (omega (arith, sized)) in
    go wrapped wrapped' d r r' inside inside'
  where
    go :
        (wrapped wrapped' : Bool)
        → detect_fv_wrap (h ++ t) ≡ ok wrapped
        → read_store_header (h ++ t) wrapped ≡ ok lay
        → read_store_header h wrapped' ≡ ok lay'
        → IsWithin lay (length (h ++ t)) × (lay.fv_wrapped ≡ wrapped)
        → IsWithin lay' (length h) × (lay'.fv_wrapped ≡ wrapped')
        → ⊥
    go true false d r r' inside inside' =
        let fits : 28 ≤ length h = ground arith in
        let byte = index→get_elem? h 20 0x5a (format_byte h lay' r') in
        let kept : index (h ++ t) 20 ≡ ok 0x5a =
          rw (get_elem?-append_lt h t 20 (omega arith), byte) refl in
        let raw = detect_fv_wrap_raw (h ++ t) kept in cc
    go true true d r r' inside inside' = ground arith
    go false true d r r' inside inside' = ground arith
    go false false d r r' inside inside' = ground arith
