-- ===== src/Store/Flushed.antt =====
-- uefi.go: the files that flush writes, opened again.
use uefi.Base.{
  ℕ, zero, suc, ◌+◌, ◌-◌, ◌%◌, ◌<◌, ◌≤◌, ◌≡◌, refl, sym, subst, List, ◌++◌, Bytes, arith, inl, inr,
  All,
}
use uefi.Base.{
  ok, err, le→leb, length, length-append, length-take, length-drop, take, drop, replicate,
  take-append-drop, store_full,
}
use uefi.Safeio.{Safeio, SafeioLaws}
use uefi.Variable.{Variable, IsStorable, store_header_size, u32_mod}
use uefi.Walk.{serialize_vars}
use uefi.Walk.RoundTrip.{IsErased, parse_variables-serialize_vars}
use uefi.Disk.{max_int64}
use uefi.Store.{Layout, Store, read_layout, open_bytes, rewrite}
use uefi.Store.Prefix.{IsWithin, read_layout-IsWithin, read_layout-prefix}
use uefi.Store.Rewrite.{rebuilt, build_store_ok, build_store_full, length-rebuilt}

-- The store in memory belongs to the file `orig`: Open would find this layout in it.
pub record IsOpen (s : Store) (orig : Bytes) : Type 0 where
  pub laid_out : read_layout orig ≡ ok s.layout
  pub within_limit : length orig ≤ s.lim.max_file_size
  pub limit_int64 : s.lim.max_file_size < max_int64
  pub room_in_u32 : length orig + 60 < u32_mod

-- The bytes that flush writes.
abbrev pub flushed : List Variable → Store → Bytes → Bytes
flushed vars s orig = rebuilt orig s.store_off s.store_size (serialize_vars s.auth_vars vars)

-- The variables fit in the store.
abbrev pub Fits : List Variable → Store → Type 0
Fits vars s = store_header_size + length (serialize_vars s.auth_vars vars) ≤ s.store_size

pub aligned_off : (lay : Layout) {len : ℕ} → IsWithin lay len → lay.store_off % 4 ≡ 0
aligned_off lay w = ground arith

pub IsErased-behind :
    (at k stop : ℕ) (t : Bytes) → stop ≡ at + k → IsErased at (replicate k 0xff ++ t) stop
IsErased-behind at zero stop t e = inl (omega arith)
IsErased-behind at (suc zero) stop t e = inl (omega arith)
IsErased-behind at (suc (suc k)) stop t e = inr (replicate k 0xff ++ t, refl)

module _ (s : Store) (orig : Bytes) (opened : IsOpen s orig) where
  pub inside : IsWithin s.layout (length orig)
  inside = read_layout-IsWithin orig s.layout opened.laid_out (omega arith)

  pub rewrite_ok :
      (vars : List Variable) → Fits vars s → rewrite vars s orig ≡ ok (flushed vars s orig)
  unfolding rewrite
  rewrite_ok vars fits =
      rw (le→leb (s.store_off + store_header_size) (length orig) inside.header_in)
        (build_store_ok orig s.store_off s.store_size _ inside.store_in fits)

  pub rewrite_full :
      (vars : List Variable)
      → s.store_size < store_header_size + length (serialize_vars s.auth_vars vars)
      → rewrite vars s orig ≡ err store_full
  unfolding rewrite
  rewrite_full vars over =
      rw (le→leb (s.store_off + store_header_size) (length orig) inside.header_in)
        (build_store_full orig s.store_off s.store_size _ inside.store_in over)

  -- Where the variables fit, the rewritten file has the layout, the limit and the room of the file
  -- before: the store with the new variables belongs to it.
  pub flushed-IsOpen :
      (vars : List Variable) → Fits vars s → IsOpen (record s { vars = vars }) (flushed vars s orig)
  flushed-IsOpen vars fits = record {
    laid_out =
        read_layout-prefix front (drop header_end orig) _ s.layout same_tail
          (subst (λ b. read_layout b ≡ ok s.layout) (sym whole) opened.laid_out)
          (rw whole (omega arith)) (omega (arith, length-take header_end orig, inside));
    within_limit = rw same opened.within_limit;
    limit_int64 = opened.limit_int64;
    room_in_u32 = rw same opened.room_in_u32;
  }
    where
      header_end : ℕ
      header_end = s.store_off + store_header_size

      front : Bytes
      front = take header_end orig

      tail : Bytes
      tail =
          let room = s.store_size - store_header_size in
          let ser = serialize_vars s.auth_vars vars in
          ser ++ (replicate (room - length ser) 0xff ++ drop room (drop header_end orig))

      whole : front ++ drop header_end orig ≡ orig
      whole = take-append-drop header_end orig

      same : length (flushed vars s orig) ≡ length orig
      same = length-rebuilt orig s.store_off s.store_size _ inside.store_in fits

      same_tail : length (drop header_end orig) ≡ length tail
      same_tail = omega (
        arith,
        same,
        length-append front tail,
        length-drop header_end orig,
        length-take header_end orig,
        inside,
      )

  -- Open finds the variables in the rewritten file.
  pub open_bytes-flushed :
      (io : Safeio)
      → SafeioLaws io
      → (vars : List Variable) → Fits vars s
      → All IsStorable vars
      → length vars ≤ s.lim.max_variables
      → open_bytes io s.path s.lim (flushed vars s orig) ≡ ok (record s { vars = vars })
  unfolding open_bytes
  open_bytes-flushed io laws vars fits storable count = rw (flushed-IsOpen vars fits).laid_out (
      rw (
        parse_variables-serialize_vars io laws s.auth_vars vars front (replicate free 0xff ++ back)
          s.store_off s.store_size s.lim.max_variables storable front_size
          (aligned_off s.layout inside) fits ends (omega (arith, inside)) count erased))
    where
      header_end : ℕ
      header_end = s.store_off + store_header_size

      room : ℕ
      room = s.store_size - store_header_size

      ser : Bytes
      ser = serialize_vars s.auth_vars vars

      front : Bytes
      front = take header_end orig

      free : ℕ
      free = room - length ser

      back : Bytes
      back = drop room (drop header_end orig)

      front_size : length front ≡ s.store_off + store_header_size
      front_size = omega (arith, length-take header_end orig, inside)

      ends : s.store_off + s.store_size ≤ length (flushed vars s orig)
      ends =
          omega (arith, length-rebuilt orig s.store_off s.store_size _ inside.store_in fits, inside)

      erased :
          IsErased
            (length front + length ser)
            (replicate free 0xff ++ back)
            (s.store_off + s.store_size)
      erased = IsErased-behind _ free _ back (omega (arith, front_size))
