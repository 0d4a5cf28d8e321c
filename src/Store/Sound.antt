-- ===== src/Store/Sound.antt =====
-- uefi.go: Set and Delete over a disk on which calls can fail, but do not stop halfway.
use uefi.Base.{
  ◌+◌, ◌≡◌, ◌⊎◌, refl, sym, ap, subst, ◌∙◌, Bool, true, false, List, [], ◌∷◌, ◌++◌, Bytes, some,
  arith, inl, inr, All, eq_bytes_refl,
}
use native.Mathlib.Decide.{dec_le}
use uefi.Base.{ok, err, length, os_error}
use uefi.Variable.{Guid, Variable, IsStorable, store_header_size}
use uefi.Walk.{serialize_vars}
use uefi.Disk.{
  Disk, Fate, works, no_stat, refused, interrupted, next_fate, later, read_opened, read_store_file,
  read_within_ok, write_as, write_file, put_file,
}
use uefi.Store.{
  Store, Session, commit, rewrite, flush, others, set, delete, delete_found, split_off,
}
use uefi.Store.Map.{split_off-others}
use uefi.Store.Flushed.{IsOpen, Fits, flushed, flushed-IsOpen, rewrite_ok, rewrite_full}
use uefi.Store.Reopen.{All-others, All-snoc}

-- A call that is not cut off in the middle.
abbrev pub IsWhole : Fate → Type 0
IsWhole works = Unit
IsWhole no_stat = Unit
IsWhole refused = Unit
IsWhole (interrupted n) = ⊥

-- A session that began with the store `s0`: the file belongs to the store still, whatever failed.
pub record Sound (s0 : Store) (t : Session) : Type 0 where
  pub same_store : t.0 ≡ record s0 { vars = t.0.vars }
  pub storable : All IsStorable t.0.vars
  pub whole : All IsWhole t.1.fates
  pub file : Bytes
  pub there : t.1.files s0.path ≡ some file
  pub belongs : IsOpen s0 file

IsWhole-next_fate : (fates : List Fate) → All IsWhole fates → IsWhole (next_fate fates)
IsWhole-next_fate [] h = tt
IsWhole-next_fate (f ∷ fs) (h, hs) = h

pub IsWhole-later : (fates : List Fate) → All IsWhole fates → All IsWhole (later fates)
IsWhole-later [] h = tt
IsWhole-later (f ∷ fs) (h, hs) = hs

read_whole :
    (f : Fate) (s : Store) (orig : Bytes)
    → IsWhole f
    → IsOpen s orig
    → (read_opened f s.lim.max_file_size (some orig) ≡ ok orig)
      ⊎ (read_opened f s.lim.max_file_size (some orig) ≡ err os_error)
unfolding read_opened
read_whole works s orig h o =
    inl (read_within_ok true s.lim.max_file_size orig o.within_limit o.limit_int64)
read_whole no_stat s orig h o =
    inl (read_within_ok false s.lim.max_file_size orig o.within_limit o.limit_int64)
read_whole refused s orig h o = inr refl
read_whole (interrupted n) s orig h o = absurd h

write_whole :
    (f : Fate) (path content : Bytes) (d : Disk)
    → IsWhole f
    → (write_as f path content d ≡ (ok tt, put_file path content d))
      ⊎ (write_as f path content d ≡ (err os_error, d))
unfolding write_as
write_whole works path content d h = inl refl
write_whole no_stat path content d h = inl refl
write_whole refused path content d h = inr refl
write_whole (interrupted n) path content d h = absurd h

-- A session of the store `s` with the file that it had.
unmoved :
    (s : Store) (vars : List Variable) (d : Disk) (orig : Bytes)
    → IsOpen s orig
    → d.files s.path ≡ some orig
    → All IsWhole d.fates
    → All IsStorable vars
    → Sound s (record s { vars = vars }, d)
unmoved s vars d orig o there whole storable = record {
  same_store = refl;
  storable = storable;
  whole = whole;
  file = orig;
  there = there;
  belongs = o;
}

-- The write of flush, whether it works or is refused.
write-Sound :
    (s : Store) (vars : List Variable) (d : Disk) (orig : Bytes)
    → IsOpen s orig
    → d.files s.path ≡ some orig
    → All IsWhole d.fates
    → All IsStorable vars
    → Fits vars s
    → Sound s (record s { vars = vars }, (write_file s.path (flushed vars s orig) d).1)
unfolding write_file
write-Sound s vars d orig o there whole storable fits =
    elim (write_whole (next_fate d.fates) s.path (flushed vars s orig)
      (record d { fates = later d.fates }) (IsWhole-next_fate d.fates whole)) [
        | inr failed ↦ rw failed (
            unmoved s vars (record d { fates = later d.fates }) orig o there
              (IsWhole-later d.fates whole) storable)
        | inl wrote ↦ rw wrote (record {
          same_store = refl;
          storable = storable;
          whole = IsWhole-later d.fates whole;
          file = flushed vars s orig;
          there = rw (eq_bytes_refl s.path);
          belongs = record {
            laid_out = (flushed-IsOpen s orig o vars fits).laid_out;
            within_limit = (flushed-IsOpen s orig o vars fits).within_limit;
            limit_int64 = (flushed-IsOpen s orig o vars fits).limit_int64;
            room_in_u32 = (flushed-IsOpen s orig o vars fits).room_in_u32;
          };
        })
      ]

module _ (s : Store) (d : Disk) (orig : Bytes) (o : IsOpen s orig)
    (there : d.files s.path ≡ some orig) (whole : All IsWhole d.fates) where
  -- What the end of flush leaves, with the variables that it was given.
  commit-Sound :
      (vars : List Variable)
      → All IsStorable vars
      → All IsStorable s.vars
      → Sound s (commit vars s d (rewrite vars s orig)).0
  unfolding commit
  commit-Sound vars new old =
      elim (dec_le (store_header_size + length (serialize_vars s.auth_vars vars)) s.store_size) [
        | yes fits ↦
            rw (rewrite_ok s orig o vars fits) (write-Sound s vars d orig o there whole new fits)
        | no over ↦
            rw (rewrite_full s orig o vars (omega arith))
              (unmoved s s.vars d orig o there whole old)
      ]

-- flush, whatever comes of it.
flush-Sound :
    (s : Store) (d : Disk) (vars : List Variable)
    → Sound s (s, d)
    → All IsStorable vars
    → Sound s (flush vars (s, d)).0
unfolding flush read_store_file
flush-Sound s d vars h new =
    let d' : Disk = record d { fates = later d.fates } in
    let whole' = IsWhole-later d.fates h.whole in
    elim (read_whole (next_fate d.fates) s h.file (IsWhole-next_fate d.fates h.whole) h.belongs) [
      | inl read ↦
          rw (h.there, read) (commit-Sound s d' h.file h.belongs h.there whole' vars new h.storable)
      | inr failed ↦
          rw (h.there, failed)
            (unfold commit in unmoved s s.vars d' h.file h.belongs h.there whole' h.storable)
    ]

-- A session is sound with itself as the start, and soundness composes.
pub restart : (s0 : Store) (t : Session) → Sound s0 t → Sound t.0 t
restart s0 t h =
    subst (λ (s : Store). Sound s t) (sym h.same_store)
      (record {
        same_store = h.same_store;
        storable = h.storable;
        whole = h.whole;
        file = h.file;
        there = h.there;
        belongs = record {
          laid_out = h.belongs.laid_out;
          within_limit = h.belongs.within_limit;
          limit_int64 = h.belongs.limit_int64;
          room_in_u32 = h.belongs.room_in_u32;
        };
      })

pub chain : (s0 : Store) (t u : Session) → Sound s0 t → Sound t.0 u → Sound s0 u
chain s0 t u h k =
    let b : IsOpen (record s0 { vars = t.0.vars }) k.file =
      subst (λ (s : Store). IsOpen s k.file) h.same_store k.belongs in
    record {
      same_store = k.same_store ∙ ap (λ (s : Store). record s { vars = u.0.vars }) h.same_store;
      storable = k.storable;
      whole = k.whole;
      file = k.file;
      there =
          subst (λ (p : Bytes). u.1.files p ≡ some k.file) (ap (λ (s : Store). s.path) h.same_store)
            k.there;
      belongs = record {
        laid_out = b.laid_out;
        within_limit = b.within_limit;
        limit_int64 = b.limit_int64;
        room_in_u32 = b.room_in_u32;
      };
    }

pub set-Sound :
    (s : Store) (d : Disk) (v : Variable) → Sound s (s, d) → IsStorable v → Sound s (set (s, d) v).0
unfolding set
set-Sound s d v h new =
    flush-Sound s d (others v.name v.guid s.vars ++ v ∷ []) h
      (All-snoc _ v (All-others v.name v.guid s.vars h.storable) new)

delete_found-Sound :
    (s : Store) (d : Disk) (f : Bool × List Variable)
    → Sound s (s, d)
    → All IsStorable f.1
    → Sound s (delete_found (s, d) f).0
unfolding delete_found
delete_found-Sound s d (true, rest) h new = flush-Sound s d rest h new
delete_found-Sound s d (false, rest) h new = h

pub delete-Sound :
    (s : Store) (d : Disk) (name : Bytes) (guid : Guid)
    → Sound s (s, d)
    → Sound s (delete (s, d) name guid).0
unfolding delete
delete-Sound s d name guid h =
    delete_found-Sound s d (split_off name guid s.vars) h
      (rw (split_off-others name guid s.vars) (All-others name guid s.vars h.storable))
