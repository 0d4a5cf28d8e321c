-- ===== src/Store/Committed.antt =====
-- uefi.go: Open, then any Sets and Deletes over a disk whose calls work, and the file they leave.
use uefi.Base.{
  ◌+◌, ◌≤◌, ◌≡◌, refl, sym, ap, subst, ◌∙◌, Bool, true, false, List, [], ◌∷◌, ◌++◌, Bytes, Option,
  some, arith, All, IsByte, ◌<◌, Ensures-ok,
}
use uefi.Base.{ok, length, eq_bytes_refl}
use native.Mathlib.Decide.{dec_le}
use uefi.Safeio.{Safeio, SafeioLaws}
use uefi.Variable.{Guid, Variable, IsStorable, store_header_size, u32_mod}
use uefi.Walk.{serialize_vars}
use uefi.Disk.{Disk, read_store_file}
use uefi.Store.{
  Limits, Store, Session, resolve, open_limits, flush, others, set, delete, delete_found, split_off,
}
use uefi.Store.Opening.{open_limits-Ensures}
use uefi.Store.Map.{split_off-others}
use uefi.Store.Flushed.{IsOpen, flushed, flushed-IsOpen}
use uefi.Store.Reopen.{calm, flush_ok, flush_full, flush_reopens, All-others, All-snoc}

-- Sets and Deletes, one after the other, whatever they report.
pub data Commits (t : Session) : Session → Type 0 where
  unchanged : Commits t t
  then_set : {u : Session} → Commits t u → (v : Variable) → IsStorable v → Commits t (set u v).0
  then_delete :
      {u : Session} → Commits t u → (name : Bytes) (guid : Guid) → Commits t (delete u name guid).0

module _ (io : Safeio) (laws : SafeioLaws io) (path : Bytes) (lim : Limits) where
  -- A session whose file holds what the store in memory does, over a disk whose calls work.
  pub record Committed (t : Session) : Type 0 where
    pub quiet : t.1.fates ≡ []
    pub at : t.0.path ≡ path
    pub limits : t.0.lim ≡ resolve lim
    pub file : Bytes
    pub there : t.1.files t.0.path ≡ some file
    pub belongs : IsOpen t.0 file
    pub storable : All IsStorable t.0.vars
    pub reopens :
        length t.0.vars ≤ t.0.lim.max_variables → (open_limits io t.0.path lim t.1).0 ≡ ok t.0

  flush-calm-Committed :
      (s : Store) (files : Bytes → Option Bytes) (vars : List Variable)
      → Committed (s, calm files)
      → All IsStorable vars
      → Committed (flush vars (s, calm files)).0
  flush-calm-Committed s files vars c storable =
      elim (dec_le (store_header_size + length (serialize_vars s.auth_vars vars)) s.store_size) [
        | no over ↦
            subst Committed
              (sym (ap (λ r. r.0) (flush_full s c.file c.belongs files c.there vars (omega arith))))
              c
        | yes fits ↦
            let flushes = flush_ok s c.file c.belongs files c.there vars fits in
            subst Committed (sym (ap (λ r. r.0) flushes)) (record {
              quiet = refl;
              at = c.at;
              limits = c.limits;
              file = flushed vars s c.file;
              there = rw (eq_bytes_refl s.path);
              belongs = flushed-IsOpen s c.file c.belongs vars fits;
              storable = storable;
              reopens = λ count.
                  ap (λ r. (open_limits io s.path lim r.0.1).0) (sym flushes)
                  ∙ flush_reopens s c.file c.belongs files c.there io laws lim vars c.limits fits
                      storable count;
            })
      ]

  flush-Committed :
      (t : Session) (vars : List Variable)
      → Committed t
      → All IsStorable vars
      → Committed (flush vars t).0
  flush-Committed (s, d) vars c storable =
      subst (λ (d' : Disk). Committed (s, d') → Committed (flush vars (s, d')).0)
        (ap (λ fates. record d { fates = fates }) (sym c.quiet))
        (λ c'. flush-calm-Committed s d.files vars c' storable) c

  set-Committed : (t : Session) (v : Variable) → Committed t → IsStorable v → Committed (set t v).0
  unfolding set
  set-Committed (s, d) v c new =
      flush-Committed (s, d) (others v.name v.guid s.vars ++ v ∷ []) c
        (All-snoc _ v (All-others v.name v.guid s.vars c.storable) new)

  delete_found-Committed :
      (t : Session) (f : Bool × List Variable)
      → Committed t
      → All IsStorable f.1
      → Committed (delete_found t f).0
  unfolding delete_found
  delete_found-Committed t (true, rest) c storable = flush-Committed t rest c storable
  delete_found-Committed t (false, rest) c storable = c

  delete-Committed :
      (t : Session) (name : Bytes) (guid : Guid) → Committed t → Committed (delete t name guid).0
  unfolding delete
  delete-Committed (s, d) name guid c =
      delete_found-Committed (s, d) (split_off name guid s.vars) c
        (rw (split_off-others name guid s.vars) (All-others name guid s.vars c.storable))

  Commits-Committed : {t u : Session} → Committed t → Commits t u → Committed u
  Commits-Committed c unchanged = c
  Commits-Committed c (then_set {u} r v new) = set-Committed u v (Commits-Committed c r) new
  Commits-Committed c (then_delete {u} r name guid) =
      delete-Committed u name guid (Commits-Committed c r)

  files-open_limits :
      (files : Bytes → Option Bytes) → (open_limits io path lim (calm files)).1.files ≡ files
  unfolding open_limits read_store_file
  files-open_limits files = refl

  -- What OpenLimits returns over a disk whose calls work.
  open_limits-Committed :
      (files : Bytes → Option Bytes) (s : Store)
      → ((file : Bytes) → files path ≡ some file → All IsByte file)
      → (resolve lim).max_file_size + 60 < u32_mod
      → (open_limits io path lim (calm files)).0 ≡ ok s
      → Committed (s, calm files)
  open_limits-Committed files s bytes small opens =
      let (sound, at, limits, count) =
        Ensures-ok (open_limits-Ensures io laws path lim (calm files) bytes tt small) opens in
      record {
        quiet = refl;
        at = at;
        limits = limits;
        file = sound.file;
        there = ap (λ fs. fs s.path) (sym (files-open_limits files)) ∙ sound.there;
        belongs = sound.belongs;
        storable = sound.storable;
        reopens = λ _. subst (λ p. (open_limits io p lim (calm files)).0 ≡ ok s) (sym at) opens;
      }

  -- On a file of bytes, with a limit that leaves 60 below 2^32, over a disk whose calls work:
  -- after OpenLimits and then any Sets of storable variables and any Deletes, whatever they
  -- report, opening the file again gives the store that is in memory, where it has at most the
  -- limit of variables.
  pub open_limits-Commits :
      (files : Bytes → Option Bytes) (s : Store) (u : Session)
      → ((file : Bytes) → files path ≡ some file → All IsByte file)
      → (resolve lim).max_file_size + 60 < u32_mod
      → (open_limits io path lim (calm files)).0 ≡ ok s
      → Commits (s, calm files) u
      → length u.0.vars ≤ (resolve lim).max_variables
      → (open_limits io path lim u.1).0 ≡ ok u.0
  open_limits-Commits files s u bytes small opens r count =
      let c = Commits-Committed (open_limits-Committed files s bytes small opens) r in
      subst (λ p. (open_limits io p lim u.1).0 ≡ ok u.0) c.at
        (c.reopens (subst (λ (l : Limits). length u.0.vars ≤ l.max_variables) (sym c.limits) count))
