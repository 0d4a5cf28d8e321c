-- ===== src/Store/Saved.antt =====
-- uefi.go: a successful Set on a disk whose calls work.
use uefi.Base.{
  ◌+◌, ◌≤◌, ◌≡◌, sym, ap, subst, ◌∙◌, List, [], ◌∷◌, ◌++◌, Bytes, Option, some, arith, All,
}
use uefi.Base.{ok, length, eq_bytes_refl}
use native.Mathlib.Decide.{dec_le}
use uefi.Variable.{Variable, IsStorable, store_header_size}
use uefi.Walk.{serialize_vars}
use uefi.Safeio.{Safeio, SafeioLaws}
use uefi.Store.{Store, Limits, resolve, open_limits, others, set}
use uefi.Store.Flushed.{IsOpen, Fits, flushed, flushed-IsOpen}
use uefi.Store.Reopen.{calm, put, set_reopens, flush_ok, flush_full, All-others, All-snoc}

-- What a Set of `v` makes of the variables.
abbrev pub added : Variable → List Variable → List Variable
added v vars = others v.name v.guid vars ++ v ∷ []

pub added-IsStorable :
    (v : Variable) (vars : List Variable)
    → IsStorable v
    → All IsStorable vars
    → All IsStorable (added v vars)
added-IsStorable v vars h hs = All-snoc _ v (All-others v.name v.guid vars hs) h

pub set_ok :
    (s : Store) (orig : Bytes)
    → IsOpen s orig
    → (files : Bytes → Option Bytes) → files s.path ≡ some orig
    → (v : Variable) → Fits (added v s.vars) s
    → set (s, calm files) v ≡ (
      (
        record s { vars = added v s.vars },
        calm (put s.path (flushed (added v s.vars) s orig) files),
      ),
      ok tt,
    )
unfolding set
set_ok s orig opened files there v fits = flush_ok s orig opened files there (added v s.vars) fits

module _ (s : Store) (orig : Bytes) (opened : IsOpen s orig) (files : Bytes → Option Bytes)
    (there : files s.path ≡ some orig) where
  -- On a disk whose calls work, a Set that succeeds had room.
  pub set-Fits : (v : Variable) → (set (s, calm files) v).1 ≡ ok tt → Fits (added v s.vars) s
  unfolding set
  set-Fits v h =
      elim (dec_le (store_header_size + length (serialize_vars s.auth_vars (added v s.vars)))
        s.store_size) [
          | yes fits ↦ fits
          | no over ↦ cc (
              sym (
                ap (λ r. r.1) (flush_full s orig opened files there (added v s.vars) (omega arith)))
              ∙ h)
        ]

put_there :
    (path content : Bytes) (fs : Bytes → Option Bytes) → put path content fs path ≡ some content
put_there path content fs = rw (eq_bytes_refl path)

-- Two Sets that succeed, one after the other, on a disk whose calls work: OpenLimits finds the
-- store that is in memory.
pub set_twice_reopens :
    (io : Safeio)
    → SafeioLaws io
    → (lim : Limits) (s : Store) (orig : Bytes) (files : Bytes → Option Bytes) (v w : Variable)
    → s.lim ≡ resolve lim
    → IsOpen s orig
    → files s.path ≡ some orig
    → All IsStorable s.vars
    → IsStorable v
    → IsStorable w
    → (set (s, calm files) v).1 ≡ ok tt
    → (set (set (s, calm files) v).0 w).1 ≡ ok tt
    → length (set (set (s, calm files) v).0 w).0.0.vars ≤ s.lim.max_variables
    → (open_limits io s.path lim (set (set (s, calm files) v).0 w).0.1).0
      ≡ ok (set (set (s, calm files) v).0 w).0.0
set_twice_reopens io laws lim s orig files v w resolved opened there storable new new' done done'
      count =
    let fits = set-Fits s orig opened files there v done in
    let s1 : Store = record s { vars = added v s.vars } in
    let orig1 = flushed (added v s.vars) s orig in
    let files1 = put s.path orig1 files in
    let there1 : files1 s.path ≡ some orig1 = put_there s.path orig1 files in
    let opened1 : IsOpen s1 orig1 = flushed-IsOpen s orig opened (added v s.vars) fits in
    let first : set (s, calm files) v ≡ ((s1, calm files1), ok tt) =
      set_ok s orig opened files there v fits in
    let done1 : (set (s1, calm files1) w).1 ≡ ok tt = sym (ap (λ m. (set m.0 w).1) first) ∙ done' in
    let fits1 = set-Fits s1 orig1 opened1 files1 there1 w done1 in
    let last : (set (set (s, calm files) v).0 w).0.0
        ≡ record s { vars = added w (added v s.vars) } =
      ap (λ m. (set m.0 w).0.0) first
      ∙ ap (λ m. m.0.0) (set_ok s1 orig1 opened1 files1 there1 w fits1) in
    let (_, reopened) =
      set_reopens s1 orig1 opened1 files1 there1 io laws lim resolved w new'
        (added-IsStorable v s.vars new storable) fits1
        (subst (λ (x : Store). length x.vars ≤ s.lim.max_variables) last count) in
    ap (λ m. (open_limits io s.path lim (set m.0 w).0.1).0) first ∙ reopened ∙ ap ok (sym last)
