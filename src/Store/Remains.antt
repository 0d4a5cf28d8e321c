-- ===== src/Store/Remains.antt =====
-- uefi.go: what OpenLimits makes of the first bytes of a file that flush wrote.
use uefi.Base.{
  ℕ, zero, suc, ◌+◌, ◌-◌, ◌%◌, ◌<◌, ◌≤◌, ◌≡◌, refl, sym, ap, ◌∙◌, Bytes, List, ◌++◌, arith, min,
  take, drop, replicate, take-append_le, take-append_ge, take-append-drop, length, length-append,
  length-take, All, Bool-cases, inl, inr,
}
use uefi.Base.{ok, ltb, Ensures, Ensures-bind_eq}
use uefi.Safeio.{Safeio, SafeioLaws}
use uefi.Variable.{Variable, IsStorable, store_header_size}
use uefi.Walk.{serialize_vars, parse_variables}
use uefi.Walk.RoundTrip.{IsErased, parse_variables-serialize_vars}
use uefi.Walk.Torn.{whole_records, whole_records_all, parse_variables_torn}
use uefi.Store.{Limits, Store, read_layout, open_bytes}
use uefi.Store.Rewrite.{length-rebuilt}
use uefi.Store.Flushed.{IsOpen, Fits, flushed, inside, aligned_off, flushed-IsOpen}
use uefi.Store.Cut.{clamped, read_layout_cut, read_layout_short}
use uefi.Store.Opening.{read_layout-Ensures}

IsErased-torn :
    (at free m stop : ℕ) (back : Bytes)
    → stop ≡ at + min free m
    → IsErased at (take m (replicate free 0xff ++ back)) stop
IsErased-torn at zero m stop back e = inl (omega arith)
IsErased-torn at free zero stop back e = inl (omega arith)
IsErased-torn at (suc zero) m stop back e = inl (omega arith)
IsErased-torn at free (suc zero) stop back e = inl (omega arith)
IsErased-torn at (suc (suc free)) (suc (suc m)) stop back e =
    inr (take m (replicate free 0xff ++ back), refl)

module _ (s : Store) (orig : Bytes) (opened : IsOpen s orig) (vars : List Variable)
    (fits : Fits vars s) where
  abbrev header_end : ℕ
  header_end = s.store_off + store_header_size

  abbrev front : Bytes
  front = take header_end orig

  abbrev ser : Bytes
  ser = serialize_vars s.auth_vars vars

  abbrev free : ℕ
  free = s.store_size - store_header_size - length ser

  abbrev back : Bytes
  back = drop (s.store_size - store_header_size) (drop header_end orig)

  abbrev tail : Bytes
  tail = ser ++ (replicate free 0xff ++ back)

  front_size : length front ≡ header_end
  front_size = omega (arith, length-take header_end orig, inside s orig opened)

  pub flushed_size : length (flushed vars s orig) ≡ length orig
  flushed_size = length-rebuilt orig s.store_off s.store_size _ (inside s orig opened).store_in fits

  laid : read_layout (front ++ tail) ≡ ok s.layout
  laid = (flushed-IsOpen s orig opened vars fits).laid_out

  tail_size : length front + length tail ≡ length orig
  tail_size = sym (length-append front tail) ∙ flushed_size

  -- The file is cut in its headers.
  pub headers_cut :
      (n : ℕ) (io : Safeio) (path : Bytes) (lim : Limits)
      → n < header_end
      → Ensures (λ _. ⊥) (open_bytes io path lim (take n (flushed vars s orig)))
  unfolding open_bytes
  headers_cut n io path lim short =
      let whole = take-append-drop n (flushed vars s orig) in
      Ensures-bind_eq (read_layout (take n (flushed vars s orig)))
        (read_layout-Ensures (take n (flushed vars s orig)))
        (λ lay e _. absurd (
          read_layout_short (take n (flushed vars s orig)) (drop n (flushed vars s orig)) s.layout
            lay (rw whole (omega (arith, flushed_size, opened))) (rw whole laid)
            (omega (arith, length-take n (flushed vars s orig))) e))

  cut_layout :
      (n : ℕ)
      → header_end ≤ n
      → read_layout (front ++ take (n - header_end) tail) ≡ ok (clamped s.layout n)
  cut_layout n long =
      let cut = take (n - header_end) tail in
      let sized = length-append front tail in
      let size : min s.store_size (length (front ++ cut) - s.store_off)
          ≡ min s.store_size (n - s.store_off) =
        omega (
          arith,
          length-append front cut,
          length-take (n - header_end) tail,
          front_size,
          tail_size,
          inside s orig opened,
        ) in
      read_layout_cut front tail cut (omega (arith, length-take (n - header_end) tail))
        (omega (arith, sized, tail_size, opened)) s.layout laid (omega (arith, front_size))
      ∙ ap (λ (k : ℕ). ok (record s.layout { store_size = k })) size

  cut_variables :
      (n : ℕ) (io : Safeio)
      → SafeioLaws io
      → All IsStorable vars
      → length vars ≤ s.lim.max_variables
      → header_end ≤ n
      → parse_variables io
          (front ++ take (n - header_end) tail)
          s.store_off
          (min s.store_size (n - s.store_off))
          s.auth_vars
          s.lim.max_variables
        ≡ ok (whole_records s.auth_vars vars (n - header_end))
  cut_variables n io laws storable count long =
      elim (Bool-cases (ltb (n - header_end) (length ser))) [
        | inl torn ↦
            let cut : n - header_end < length ser = ground arith in
            rw (take-append_le (n - header_end) ser (replicate free 0xff ++ back) (omega arith)) (
              parse_variables_torn io laws s.auth_vars vars front (n - header_end) s.store_off
                (min s.store_size (n - s.store_off)) s.lim.max_variables storable front_size aligned
                cut (omega (arith, front_size))
                (omega (
                  arith,
                  front_size,
                  tail_size,
                  length-append ser (replicate free 0xff ++ back),
                  opened,
                ))
                count)
        | inr kept ↦
            let all_in : length ser ≤ n - header_end = ground arith in
            let cut = take (n - header_end - length ser) (replicate free 0xff ++ back) in
            rw
              (
                take-append_ge (n - header_end) ser (replicate free 0xff ++ back) all_in,
                whole_records_all s.auth_vars vars (n - header_end) all_in,
              )
              (parse_variables-serialize_vars io laws s.auth_vars vars front cut s.store_off
                (min s.store_size (n - s.store_off)) s.lim.max_variables storable front_size aligned
                (omega arith) (ends cut refl) (omega (arith, opened, inside s orig opened)) count
                (IsErased-torn _ free (n - header_end - length ser) _ back
                  (omega (arith, front_size))))
      ]
    where
      ends :
          (cut : Bytes)
          → cut ≡ take (n - header_end - length ser) (replicate free 0xff ++ back)
          → s.store_off + min s.store_size (n - s.store_off) ≤ length (front ++ (ser ++ cut))
      ends cut e = omega (
        arith,
        ap length e,
        length-append front (ser ++ cut),
        length-append ser cut,
        length-take (n - header_end - length ser) (replicate free 0xff ++ back),
        length-append ser (replicate free 0xff ++ back),
        tail_size,
        front_size,
        inside s orig opened,
      )

      aligned : s.store_off % 4 ≡ 0
      aligned = aligned_off s.layout (inside s orig opened)

  -- The file is cut behind its headers.
  pub records_cut :
      (n : ℕ) (io : Safeio)
      → SafeioLaws io
      → All IsStorable vars
      → length vars ≤ s.lim.max_variables
      → header_end ≤ n
      → open_bytes io s.path s.lim (take n (flushed vars s orig))
        ≡ ok (record s {
          vars = whole_records s.auth_vars vars (n - header_end);
          layout = clamped s.layout n;
        })
  unfolding open_bytes
  records_cut n io laws storable count long = rw (
    take-append_ge n front tail (omega (arith, front_size)),
    front_size,
    cut_layout n long,
    cut_variables n io laws storable count long,
  )
