-- ===== src/LoadOption/Scanned.antt =====
-- bootvars.go: the description that ParseLoadOption scans for, on any bytes.
use uefi.Base.{
  ℕ, zero, suc, ◌+◌, ◌-◌, ◌*◌, ◌%◌, ◌<◌, ◌≤◌, ◌≡◌, refl, sym, ap, subst, ◌∙◌, true, false, ◌&&◌,
  List, [], ◌∷◌, ◌++◌, Bytes, IsByte, arith, All, All-drop, length, length-append, take, drop,
  drop_two, Option, some, none, Bool-cases, inl, inr,
}
use uefi.Base.{
  ok, guard, leb, ◌==◌, if◌then◌else◌, Yields, yields, yields_out_of_fuel, Yields-if, Yields-guard,
  Yields-map, Yields-after_eq, index, leb→le, guard_tripped, odd_length, >>=-eq-ok, ok-injective,
}
use uefi.Safeio.{Safeio}
use uefi.Text.{get_units, decode_utf16le, encode_utf16le}
use uefi.Text.Utf8.{IsScalar, string, runes}
use uefi.Text.Utf16.{encode_unit, utf16_encode, utf16_decode, is_pair, is_lone, replacement}
use uefi.Text.RoundTrip.{runes-string, length-put_units}
use uefi.LoadOption.{find_nul}
use uefi.LoadOption.Description.{IsDescription, IsInner, drop_nul-IsInner}

-- A scalar value other than NUL.
abbrev IsVisible : ℕ → Type 0
IsVisible r = IsScalar r × (0 < r)

-- utf16.Decode makes of units other than NUL scalar values other than NUL, which utf16.Encode
-- writes in at most as many units.
abbrev Decoded : List ℕ → ℕ → Type 0
Decoded rs n = All IsVisible rs × (length (utf16_encode rs) ≤ n)

length-encode_unit : (r : ℕ) → r < 65536 → length (encode_unit r) ≡ 1
unfolding encode_unit
length-encode_unit r h = ground arith

length-encode_unit_le : (r : ℕ) → length (encode_unit r) ≤ 2
unfolding encode_unit
length-encode_unit_le r = ground arith

unit_rune :
    (u : ℕ)
    → IsInner u
    → IsVisible (if is_lone u then replacement else u)
      × ((if is_lone u then replacement else u) < 65536)
unfolding is_lone
unit_rune u h = ground arith

cons_unit :
    (r n : ℕ) (rs : List ℕ) → IsVisible r → r < 65536 → Decoded rs n → Decoded (r ∷ rs) (suc n)
unfolding utf16_encode
cons_unit r n rs h small (hs, size) = (
  (h, hs),
  omega (arith, length-append (encode_unit r) (utf16_encode rs), length-encode_unit r small, size),
)

cons_pair : (r n : ℕ) (rs : List ℕ) → IsVisible r → Decoded rs n → Decoded (r ∷ rs) (suc (suc n))
unfolding utf16_encode
cons_pair r n rs h (hs, size) = (
  (h, hs),
  omega (arith, length-append (encode_unit r) (utf16_encode rs), length-encode_unit_le r, size),
)

utf16_decode-Decoded : (us : List ℕ) → All IsInner us → Decoded (utf16_decode us) (length us)
unfolding utf16_decode
utf16_decode-Decoded [] h = (tt, unfold utf16_encode in omega arith)
utf16_decode-Decoded (u ∷ []) (h, hs) =
    let (visible, small) = unit_rune u h in
    cons_unit _ 0 [] visible small (tt, unfold utf16_encode in omega arith)
utf16_decode-Decoded (u ∷ v ∷ us) (h, (k, hs)) =
    let behind = utf16_decode-Decoded us hs in
    let rest = utf16_decode-Decoded (v ∷ us) (k, hs) in
    let (visible, small) = unit_rune u h in
    elim (Bool-cases (is_pair u v)) [
      | inl paired ↦ rw paired (cons_pair _ _ _ (pair_rune paired) behind)
      | inr single ↦ rw single (cons_unit _ _ _ visible small rest)
    ]
  where
    pair_rune : is_pair u v ≡ true → IsVisible ((u - 0xd800) * 1024 + (v - 0xdc00) + 0x10000)
    pair_rune paired = unfold is_pair in ground arith

-- The description that ParseLoadOption decodes from units other than NUL.
pub decode_utf16le-IsDescription :
    (raw desc : Bytes)
    → All IsInner (get_units raw)
    → decode_utf16le raw ≡ ok desc
    → IsDescription desc × (length (encode_utf16le desc) ≤ 2 * length (get_units raw) + 2)
unfolding decode_utf16le encode_utf16le
decode_utf16le-IsDescription raw desc inner e =
    let us = get_units raw in
    let rs = utf16_decode us in
    let (_, _, made) = >>=-eq-ok (guard (length raw % 2 == 0) odd_length) _ e in
    let decoded : desc ≡ string rs =
      ok-injective (sym made) ∙ ap (λ x. string (utf16_decode x)) (drop_nul-IsInner us inner) in
    let (visible, size) = utf16_decode-Decoded us inner in
    let same : runes desc ≡ rs = ap runes decoded ∙ runes-string rs (scalars rs visible) in
    (
      (rs, visible, decoded),
      rw (same, length-put_units (utf16_encode rs ++ 0 ∷ []))
          (omega (arith, size, length-append (utf16_encode rs) (0 ∷ []))),
    )
  where
    scalars : (rs : List ℕ) → All IsVisible rs → All IsScalar rs
    scalars [] h = tt
    scalars (r ∷ rs) (h, hs) = (h.0, scalars rs hs)

module _ (io : Safeio) (b : Bytes) (bytes : All IsByte b) where
  -- The scan from `i` on found a terminator, and the units before it are none.
  abbrev pub Scanned : ℕ → Option ℕ → Type 0
  Scanned i none = Unit
  Scanned i (some k) =
      (i ≤ k)
      × (k + 2 ≤ length b)
      × All IsInner (get_units (take (k - i) (drop i b)))
      × (2 * length (get_units (take (k - i) (drop i b))) ≡ k - i)

  more_units :
      (i x y k : ℕ)
      → index b i ≡ ok x
      → index b (i + 1) ≡ ok y
      → i + 2 ≤ k
      → get_units (take (k - i) (drop i b))
        ≡ (x + 256 * y) ∷ get_units (take (k - (i + 2)) (drop (i + 2) b))
  unfolding get_units
  more_units i x y k ex ey later =
      let more : k - i ≡ suc (suc (k - (i + 2))) = omega arith in rw (more, drop_two b i x y ex ey)

  Scanned-earlier :
      (i x y : ℕ) (r : Option ℕ)
      → index b i ≡ ok x
      → index b (i + 1) ≡ ok y
      → (x == 0 && y == 0) ≡ false
      → Scanned (i + 2) r
      → Scanned i r
  Scanned-earlier i x y none ex ey other h = tt
  Scanned-earlier i x y (some k) ex ey other (later, room, inner, size) =
      let (small, (small', _)) =
        subst (All IsByte) (drop_two b i x y ex ey) (All-drop IsByte i b bytes) in
      let units = more_units i x y k ex ey later in
      let unit : IsInner (x + 256 * y) = ground arith in
      (omega arith, room, rw units (unit, inner), rw units (omega (arith, size)))

  no_units : (i : ℕ) → All IsInner (get_units (take (i - i) (drop i b)))
  unfolding get_units
  no_units i = let none_left : i - i ≡ 0 = omega arith in rw none_left tt

  no_length : (i : ℕ) → 2 * length (get_units (take (i - i) (drop i b))) ≡ i - i
  unfolding get_units
  no_length i = let none_left : i - i ≡ 0 = omega arith in rw none_left refl

  pub find_nul-Scanned : (fuel rounds i : ℕ) → Yields (Scanned i) (find_nul io b fuel rounds i)
  unfolding find_nul
  find_nul-Scanned zero rounds i = yields_out_of_fuel
  find_nul-Scanned (suc fuel) rounds i =
      Yields-if (leb (i + 2) (length b))
        (λ more. Yields-guard (io.guard_next (length b + 1) rounds) guard_tripped (λ _.
          Yields-after_eq (index b i) (λ x ex. Yields-after_eq (index b (i + 1)) (λ y ey.
            Yields-if (x == 0 && y == 0)
              (λ _. yields (omega arith, leb→le _ _ more, no_units i, no_length i))
              (λ other.
                Yields-map (find_nul-Scanned fuel (suc rounds) (i + 2))
                  (λ r. Scanned-earlier i x y r ex ey other))))))
        (λ _. yields tt)
