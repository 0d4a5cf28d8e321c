-- ===== src/Store/Reopen.antt =====
-- uefi.go: flush and Set over a disk, and the file opened again.
use uefi.Base.{
  ℕ, ◌+◌, ◌<◌, ◌≤◌, ◌≡◌, ap, ◌∙◌, true, List, [], ◌∷◌, ◌++◌, Bytes, Option, some, inl, inr, All,
  Bool-cases,
}
use uefi.Base.{
  ok, err, ◌>>=◌, length, take, eq_bytes, eq_bytes_refl, store_full, os_error, if◌then◌else◌,
}
use uefi.Safeio.{Safeio, SafeioLaws}
use uefi.Variable.{Guid, is_named, Variable, IsStorable, store_header_size}
use uefi.Walk.{serialize_vars}
use uefi.Disk.{Disk, Fate, works, interrupted, read_store_file, read_within_ok, write_file}
use uefi.Store.{Limits, Store, open_bytes, open_limits, resolve, flush, others, set}
use uefi.Store.Flushed.{
  IsOpen, flushed, Fits, rewrite_ok, rewrite_full, flushed-IsOpen, open_bytes-flushed,
}

-- A disk on which every call works.
abbrev pub calm : (Bytes → Option Bytes) → Disk
calm files = record { files = files; fates = [] }

abbrev pub put : Bytes → Bytes → (Bytes → Option Bytes) → Bytes → Option Bytes
put path content files p = if eq_bytes p path then some content else files p

pub open_limits_lem :
    (io : Safeio) (path : Bytes) (lim lim' : Limits) (d : Disk)
    → lim' ≡ resolve lim
    → (open_limits io path lim d).0
      ≡ ((read_store_file path lim'.max_file_size d).0 >>= open_bytes io path lim')
unfolding open_limits
open_limits_lem io path lim lim' d e = rw e

pub read_calm :
    (s : Store) (orig : Bytes)
    → IsOpen s orig
    → (files : Bytes → Option Bytes) → files s.path ≡ some orig
    → read_store_file s.path s.lim.max_file_size (calm files) ≡ (ok orig, calm files)
unfolding read_store_file
read_calm s orig opened files there =
    rw (there, read_within_ok true s.lim.max_file_size orig opened.within_limit opened.limit_int64)

module _ (s : Store) (orig : Bytes) (opened : IsOpen s orig) (files : Bytes → Option Bytes)
    (there : files s.path ≡ some orig) where
  read_orig :
      (fates : List Fate)
      → read_store_file s.path s.lim.max_file_size (record { files = files; fates = works ∷ fates })
        ≡ (ok orig, record { files = files; fates = fates })
  unfolding read_store_file
  read_orig fates =
      rw
        (there, read_within_ok true s.lim.max_file_size orig opened.within_limit opened.limit_int64)

  -- Where the variables fit and the disk works, flush succeeds: the store has the variables, and
  -- the file is rewritten.
  pub flush_ok :
      (vars : List Variable)
      → Fits vars s
      → flush vars (s, calm files)
        ≡ ((record s { vars = vars }, calm (put s.path (flushed vars s orig) files)), ok tt)
  unfolding flush write_file
  flush_ok vars fits = rw (read_calm s orig opened files there, rewrite_ok s orig opened vars fits)

  -- Where the variables do not fit in the store, flush on a working disk reports a full store and
  -- changes neither the store nor the file.
  pub flush_full :
      (vars : List Variable)
      → s.store_size < store_header_size + length (serialize_vars s.auth_vars vars)
      → flush vars (s, calm files) ≡ ((s, calm files), err store_full)
  unfolding flush
  flush_full vars over =
      rw (read_calm s orig opened files there, rewrite_full s orig opened vars over)

  -- Where the variables fit and the write of flush is cut off after n bytes, flush reports an
  -- error, the file holds the first n of the new bytes only, and the store in memory has the new
  -- variables all the same.
  pub flush_interrupted :
      (vars : List Variable) (n : ℕ)
      → Fits vars s
      → flush vars (s, record { files = files; fates = works ∷ interrupted n ∷ [] }) ≡ (
        (record s { vars = vars }, calm (put s.path (take n (flushed vars s orig)) files)),
        err os_error,
      )
  unfolding flush write_file
  flush_interrupted vars n fits =
      rw (read_orig (interrupted n ∷ []), rewrite_ok s orig opened vars fits)

  -- After a successful flush Open gives the store that is in memory.
  pub flush_reopens :
      (io : Safeio)
      → SafeioLaws io
      → (lim : Limits) (vars : List Variable) → s.lim ≡ resolve lim
      → Fits vars s
      → All IsStorable vars
      → length vars ≤ s.lim.max_variables
      → (open_limits io s.path lim (flush vars (s, calm files)).0.1).0
        ≡ ok (record s { vars = vars })
  flush_reopens io laws lim vars resolved fits storable count =
      open_limits_lem io s.path lim s.lim _ resolved
      ∙ rw (flush_ok vars fits) (
          rw
            (read_calm (record s { vars = vars }) (flushed vars s orig)
              (flushed-IsOpen s orig opened vars fits) files' there')
            (open_bytes-flushed s orig opened io laws vars fits storable count))
    where
      files' : Bytes → Option Bytes
      files' = put s.path (flushed vars s orig) files

      there' : files' s.path ≡ some (flushed vars s orig)
      there' = rw (eq_bytes_refl s.path)

pub All-others :
    (name : Bytes) (guid : Guid) (vs : List Variable)
    → All IsStorable vs
    → All IsStorable (others name guid vs)
unfolding others
All-others name guid [] h = tt
All-others name guid (v ∷ vs) (h, hs) = elim (Bool-cases (is_named v name guid)) [
  | inl same ↦ rw same (All-others name guid vs hs)
  | inr other ↦ rw other (h, All-others name guid vs hs)
]

pub All-snoc :
    (vs : List Variable) (v : Variable)
    → All IsStorable vs
    → IsStorable v
    → All IsStorable (vs ++ v ∷ [])
All-snoc [] v h k = (k, tt)
All-snoc (x ∷ xs) v (h, hs) k = (h, All-snoc xs v hs k)

module _ (s : Store) (orig : Bytes) (opened : IsOpen s orig) (files : Bytes → Option Bytes)
    (there : files s.path ≡ some orig) (io : Safeio) (laws : SafeioLaws io) (lim : Limits)
    (resolved : s.lim ≡ resolve lim) where
  -- A Set that fits, of a storable variable, on a disk whose calls work and in a store of storable
  -- variables that belongs to its file, with at most the limit of variables, succeeds, and opening
  -- the file again gives the same store with the other variables in their order and then the new
  -- one.
  pub set_reopens :
      (v : Variable)
      → IsStorable v
      → All IsStorable s.vars
      → Fits (others v.name v.guid s.vars ++ v ∷ []) s
      → length (others v.name v.guid s.vars ++ v ∷ []) ≤ s.lim.max_variables
      → ((set (s, calm files) v).1 ≡ ok tt)
        × ((open_limits io s.path lim (set (s, calm files) v).0.1).0
            ≡ ok (record s { vars = others v.name v.guid s.vars ++ v ∷ [] }))
  unfolding set
  set_reopens v storable all fits count =
      let vars = others v.name v.guid s.vars ++ v ∷ [] in
      (
        ap (λ r. r.1) (flush_ok s orig opened files there vars fits),
        flush_reopens s orig opened files there io laws lim vars resolved fits
            (All-snoc _ v (All-others v.name v.guid s.vars all) storable) count,
      )
