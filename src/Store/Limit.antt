-- ===== src/Store/Limit.antt =====
-- uefi.go: Set where it goes beyond the limit on the number of variables that Open enforces.
use uefi.Base.{
  ◌+◌, ◌-◌, ◌<◌, ◌≤◌, ◌≡◌, ap, ◌∙◌, List, [], ◌∷◌, ◌++◌, Bytes, Option, some, arith, All,
}
use uefi.Base.{ok, err, too_large, length, length-take, take, drop, replicate, eq_bytes_refl}
use uefi.Safeio.{Safeio, SafeioLaws}
use uefi.Variable.{Variable, IsStorable, store_header_size}
use uefi.Walk.{serialize_vars}
use uefi.Walk.Limit.{parse_variables-too_many}
use uefi.Store.{Limits, Store, open_bytes, open_limits, resolve, others, set}
use uefi.Store.Rewrite.{length-rebuilt}
use uefi.Store.Flushed.{IsOpen, Fits, flushed, flushed-IsOpen, inside, aligned_off}
use uefi.Store.Reopen.{calm, put, read_calm, open_limits_lem, flush_ok, All-others, All-snoc}

open_bytes-flushed_over :
    (io : Safeio)
    → SafeioLaws io
    → (s : Store) (orig : Bytes) → IsOpen s orig
    → (vars : List Variable) → Fits vars s
    → All IsStorable vars
    → s.lim.max_variables < length vars
    → open_bytes io s.path s.lim (flushed vars s orig) ≡ err too_large
unfolding open_bytes
open_bytes-flushed_over io laws s orig opened vars fits storable count =
    let header_end = s.store_off + store_header_size in
    let room = s.store_size - store_header_size in
    let ser = serialize_vars s.auth_vars vars in
    let front : Bytes = take header_end orig in
    let tail : Bytes = replicate (room - length ser) 0xff ++ drop room (drop header_end orig) in
    let within = inside s orig opened in
    let front_size : length front ≡ s.store_off + store_header_size =
      omega (arith, length-take header_end orig, within) in
    let ends : s.store_off + s.store_size ≤ length (flushed vars s orig) =
      omega (arith, length-rebuilt orig s.store_off s.store_size _ within.store_in fits, within) in
    rw ((flushed-IsOpen s orig opened vars fits).laid_out) (
      rw (
        parse_variables-too_many io laws s.auth_vars vars front tail s.store_off s.store_size
          s.lim.max_variables storable front_size (aligned_off s.layout within) fits ends
          (omega (arith, within)) count))

-- A Set that fits, of a storable variable, on a disk whose calls work and in a store of storable
-- variables that belongs to its file, succeeds also where it makes more variables than the limit
-- of the store; the file then cannot be opened with that limit.
pub set_beyond_limit :
    (io : Safeio)
    → SafeioLaws io
    → (lim : Limits) (s : Store) (orig : Bytes) (files : Bytes → Option Bytes) (v : Variable)
    → s.lim ≡ resolve lim
    → IsOpen s orig
    → files s.path ≡ some orig
    → IsStorable v
    → All IsStorable s.vars
    → Fits (others v.name v.guid s.vars ++ v ∷ []) s
    → s.lim.max_variables < length (others v.name v.guid s.vars ++ v ∷ [])
    → ((set (s, calm files) v).1 ≡ ok tt)
      × ((open_limits io s.path lim (set (s, calm files) v).0.1).0 ≡ err too_large)
unfolding set
set_beyond_limit io laws lim s orig files v resolved opened there storable all fits count =
    let vars = others v.name v.guid s.vars ++ v ∷ [] in
    let files' = put s.path (flushed vars s orig) files in
    let there' : files' s.path ≡ some (flushed vars s orig) = rw (eq_bytes_refl s.path) in
    let done = flush_ok s orig opened files there vars fits in
    (
      ap (λ r. r.1) done,
      open_limits_lem io s.path lim s.lim _ resolved
          ∙ rw done (
              rw
                (read_calm (record s { vars = vars }) (flushed vars s orig)
                  (flushed-IsOpen s orig opened vars fits) files' there')
                (open_bytes-flushed_over io laws s orig opened vars fits
                  (All-snoc _ v (All-others v.name v.guid s.vars all) storable) count)),
    )
