-- ===== src/Store/Recovered.antt =====
-- uefi.go: a Set after a sequence of operations, failed ones included.
use uefi.Base.{◌≤◌, ◌≡◌, ◌∙◌, sym, ap, subst, List, [], ◌∷◌, ◌++◌}
use uefi.Base.{ok, length}
use uefi.Safeio.{Safeio, SafeioLaws}
use uefi.Variable.{Variable, IsStorable}
use uefi.Disk.{Disk}
use uefi.Store.{Limits, Store, Session, resolve, open_limits, others, set}
use uefi.Store.Flushed.{Fits}
use uefi.Store.Reopen.{calm, set_reopens}
use uefi.Store.Sound.{Sound, restart}
use uefi.Store.Steps.{Reach, Reach-Sound}

-- From a session that began soundly, after any Sets of storable variables, any Deletes and any
-- changes of what the disk will do, failed operations included, of which no write was cut off in
-- the middle: once the calls on the disk work, a Set of a storable variable that fits, with at
-- most the limit of variables, succeeds, and opening the file gives the other variables in their
-- order and then the new one.
pub recovered_set_reopens :
    (io : Safeio)
    → SafeioLaws io
    → (lim : Limits) (t u : Session) (v : Variable) → t.0.lim ≡ resolve lim
    → Sound t.0 t
    → Reach t u
    → u.1.fates ≡ []
    → IsStorable v
    → Fits (others v.name v.guid u.0.vars ++ v ∷ []) u.0
    → length (others v.name v.guid u.0.vars ++ v ∷ []) ≤ t.0.lim.max_variables
    → ((set u v).1 ≡ ok tt)
      × ((open_limits io t.0.path lim (set u v).0.1).0
          ≡ ok (record t.0 { vars = others v.name v.guid u.0.vars ++ v ∷ [] }))
recovered_set_reopens io laws lim t (s, d) v resolved start reach quiet new fits count =
    let reopened =
      set_reopens s own.file own.belongs d.files own.there io laws lim (same_lim ∙ resolved) v new
        own.storable fits (rw same_lim count) in
    subst
      (λ (d' : Disk).
        ((set (s, d') v).1 ≡ ok tt)
        × ((open_limits io t.0.path lim (set (s, d') v).0.1).0 ≡ ok (record t.0 { vars = vars })))
      (sym (ap (λ fates. record d { fates = fates }) quiet))
      (
        reopened.0,
        subst
            (λ (x : Store).
              (open_limits io x.path lim (set (s, calm d.files) v).0.1).0
              ≡ ok (record x { vars = vars }))
            sound.same_store reopened.1,
      )
  where
    vars : List Variable
    vars = others v.name v.guid s.vars ++ v ∷ []

    sound : Sound t.0 (s, d)
    sound = Reach-Sound t.0 start reach

    same_lim : s.lim ≡ t.0.lim
    same_lim = ap (λ (x : Store). x.lim) sound.same_store

    own : Sound s (s, d)
    own = restart t.0 (s, d) sound
