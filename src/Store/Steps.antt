-- ===== src/Store/Steps.antt =====
-- uefi.go: sequences of operations on a store, over a disk on which calls can fail, but do not stop
-- halfway.
use uefi.Base.{◌≡◌, sym, subst, List, Bytes, All}
use uefi.Variable.{Guid, Variable, IsStorable}
use uefi.Disk.{Fate}
use uefi.Store.{Store, Session, set, delete}
use uefi.Store.Sound.{IsWhole, Sound, chain, restart, set-Sound, delete-Sound}

-- One operation, whatever it reports, or a change of what the next calls on the disk will do.
pub data Step (t u : Session) : Type 0 where
  set_step : (v : Variable) → IsStorable v → u ≡ (set t v).0 → Step t u
  delete_step : (name : Bytes) (guid : Guid) → u ≡ (delete t name guid).0 → Step t u
  disk_step :
      (fates : List Fate) → All IsWhole fates → u ≡ (t.0, record t.1 { fates = fates }) → Step t u

pub data Reach (s : Session) : Session → Type 0 where
  here : Reach s s
  next : {t u : Session} → Reach s t → Step t u → Reach s u

Step-Sound : (s0 : Store) (t u : Session) → Sound s0 t → Step t u → Sound s0 u
Step-Sound s0 (s, d) u h (set_step v new e) =
    subst (λ (x : Session). Sound s0 x) (sym e)
      (chain s0 (s, d) (set (s, d) v).0 h (set-Sound s d v (restart s0 (s, d) h) new))
Step-Sound s0 (s, d) u h (delete_step name guid e) =
    subst (λ (x : Session). Sound s0 x) (sym e)
      (chain s0 (s, d) (delete (s, d) name guid).0 h
        (delete-Sound s d name guid (restart s0 (s, d) h)))
Step-Sound s0 (s, d) u h (disk_step fates whole e) =
    subst (λ (x : Session). Sound s0 x) (sym e)
      (record {
        same_store = h.same_store;
        storable = h.storable;
        whole = whole;
        file = h.file;
        there = h.there;
        belongs = h.belongs;
      })

-- Every session reached from a sound one by Sets of storable variables, Deletes and changes of
-- what the disk will do is sound, whatever failed, as long as no write is cut off in the middle:
-- the store has the path, the limits and the layout it began with, its variables are storable,
-- with names of valid UTF-8 and uint32 attributes, and there is a file at its path to which it
-- belongs.
pub Reach-Sound : (s0 : Store) {t u : Session} → Sound s0 t → Reach t u → Sound s0 u
Reach-Sound s0 h here = h
Reach-Sound s0 {u = u} h (next {t = v} r st) = Step-Sound s0 v u (Reach-Sound s0 h r) st
