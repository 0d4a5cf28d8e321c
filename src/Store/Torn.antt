-- ===== src/Store/Torn.antt =====
-- uefi.go: OpenLimits on a file whose write was cut off in flush.
use uefi.Base.{
  ℕ, ◌+◌, ◌-◌, ◌<◌, ◌≤◌, ◌≡◌, ◌⊎◌, ◌∙◌, true, Bytes, List, [], ◌∷◌, Option, some, arith, take,
  length, length-take, All, Bool-cases, inl, inr,
}
use uefi.Base.{ok, ltb, Ensures, eq_bytes_refl}
use uefi.Safeio.{Safeio, SafeioLaws}
use uefi.Variable.{Variable, IsStorable, store_header_size}
use uefi.Walk.Torn.{whole_records}
use uefi.Disk.{max_int64, works, interrupted, read_store_file, read_within_ok}
use uefi.Store.{Limits, Store, resolve, open_bytes, open_limits, flush}
use uefi.Store.Flushed.{IsOpen, Fits, flushed}
use uefi.Store.Reopen.{calm, put, open_limits_lem, flush_interrupted}
use uefi.Store.Cut.{clamped}
use uefi.Store.Remains.{flushed_size, headers_cut, records_cut}

-- OpenLimits on a disk whose calls work, for a file within the limit.
open_limits-calm :
    (io : Safeio) (path content : Bytes) (lim lim' : Limits) (files : Bytes → Option Bytes)
    → lim' ≡ resolve lim
    → length content ≤ lim'.max_file_size
    → lim'.max_file_size < max_int64
    → (open_limits io path lim (calm (put path content files))).0 ≡ open_bytes io path lim' content
unfolding read_store_file
open_limits-calm io path content lim lim' files resolved within small =
    open_limits_lem io path lim lim' _ resolved
    ∙ rw (eq_bytes_refl path, read_within_ok true lim'.max_file_size content within small)

module _ (s : Store) (orig : Bytes) (opened : IsOpen s orig) (files : Bytes → Option Bytes)
    (there : files s.path ≡ some orig) where
  -- Where the variables are storable, fit and are at most the limit, and the write of flush over a
  -- file of the store is cut off after n bytes, OpenLimits of what is left refuses the file where
  -- n is short of the headers, and otherwise gives the variables whose records lie whole in the
  -- first n bytes, in a store that ends there.
  pub flush_torn_reopens :
      (io : Safeio)
      → SafeioLaws io
      → (lim : Limits) (vars : List Variable) (n : ℕ) → s.lim ≡ resolve lim
      → Fits vars s
      → All IsStorable vars
      → length vars ≤ s.lim.max_variables
      → ((n < s.store_off + store_header_size)
          × Ensures
              (λ _. ⊥)
              (open_limits io s.path lim
                (flush vars
                  (s, record { files = files; fates = works ∷ interrupted n ∷ [] })).0.1).0)
        ⊎ ((s.store_off + store_header_size ≤ n)
            × ((open_limits io s.path lim
                  (flush vars
                    (s, record { files = files; fates = works ∷ interrupted n ∷ [] })).0.1).0
                ≡ ok (record s {
                  vars = whole_records s.auth_vars vars (n - (s.store_off + store_header_size));
                  layout = clamped s.layout n;
                })))
  flush_torn_reopens io laws lim vars n resolved fits storable count =
      let torn = take n (flushed vars s orig) in
      let reopened : (open_limits io s.path lim
            (flush vars (s, record { files = files; fates = works ∷ interrupted n ∷ [] })).0.1).0
          ≡ open_bytes io s.path s.lim torn =
        rw (flush_interrupted s orig opened files there vars n fits) (
          open_limits-calm io s.path torn lim s.lim files resolved
            (omega (
              arith,
              length-take n (flushed vars s orig),
              flushed_size s orig opened vars fits,
              opened,
            ))
            opened.limit_int64) in
      elim (Bool-cases (ltb n (s.store_off + store_header_size))) [
        | inl short ↦
            let cut : n < s.store_off + store_header_size = ground arith in
            inl (cut, rw reopened (headers_cut s orig opened vars fits n io s.path s.lim cut))
        | inr long ↦
            let rest : s.store_off + store_header_size ≤ n = ground arith in
            inr (rest, reopened ∙ records_cut s orig opened vars fits n io laws storable count rest)
      ]
