-- ===== src/Store/Distinct.antt =====
-- uefi.go: Set and Delete, and variables with the same name and GUID.
use uefi.Base.{
  ◌≡◌, refl, subst, ◌∙◌, true, false, List, [], ◌∷◌, ◌++◌, Bytes, eq_bytes, eq_bytes_refl,
  eq_bytes→eq, Bool-cases, &&-eq-true, inl, inr, ok, err, not_exist,
}
use uefi.Variable.{Variable, Guid, eq_guid, eq_guid_refl, eq_guid→eq, is_named}
use uefi.Base.{◌⊎◌, ◌>>=◌, Bool, Result, panic, out_of_fuel}
use uefi.Disk.{Disk, read_store_file}
use uefi.Store.{
  Store, Session, list, set, delete, delete_found, split_off, find_var, others, flush, commit,
  rewrite,
}
use uefi.Store.Map.{split_off-others, find_var-append, find_var-others_self}
use uefi.VariableStore.{IsMap}

find_var-others_missing :
    (name : Bytes) (guid : Guid) (vs : List Variable) (name' : Bytes) (guid' : Guid)
    → find_var vs name' guid' ≡ err not_exist
    → find_var (others name guid vs) name' guid' ≡ err not_exist
unfolding find_var others
find_var-others_missing name guid [] name' guid' h = refl
find_var-others_missing name guid (v ∷ vs) name' guid' h =
    elim (Bool-cases (is_named v name' guid')) [
      | inl found ↦ cc (rw found at h)
      | inr away ↦
          let ih = find_var-others_missing name guid vs name' guid' (rw away at h) in
          elim (Bool-cases (is_named v name guid)) [
            | inl same ↦ rw same ih
            | inr other ↦ rw (other, away) ih
          ]
    ]

others-IsMap :
    (name : Bytes) (guid : Guid) (vs : List Variable) → IsMap vs → IsMap (others name guid vs)
unfolding others
others-IsMap name guid [] h = tt
others-IsMap name guid (v ∷ vs) (missing, unique) = elim (Bool-cases (is_named v name guid)) [
  | inl same ↦ rw same (others-IsMap name guid vs unique)
  | inr other ↦
      rw other (
        find_var-others_missing name guid vs v.name v.guid missing,
        others-IsMap name guid vs unique,
      )
]

is_named_sym :
    (x v : Variable) → is_named x v.name v.guid ≡ false → is_named v x.name x.guid ≡ false
is_named_sym x v h = elim (Bool-cases (is_named v x.name x.guid)) [
  | inr other ↦ other
  | inl same ↦
      let (name, guid) = &&-eq-true _ _ same in
      let name' : eq_bytes x.name v.name ≡ true =
        subst (λ (t : Bytes). eq_bytes t v.name ≡ true) (eq_bytes→eq v.name x.name name)
          (eq_bytes_refl v.name) in
      let guid' : eq_guid x.guid v.guid ≡ true =
        subst (λ (g : Guid). eq_guid g v.guid ≡ true) (eq_guid→eq v.guid x.guid guid)
          (eq_guid_refl v.guid) in
      cc (rw (name', guid') at h)
]

append-IsMap :
    (vs : List Variable) (v : Variable)
    → IsMap vs
    → find_var vs v.name v.guid ≡ err not_exist
    → IsMap (vs ++ v ∷ [])
unfolding find_var
append-IsMap [] v h free = (refl, tt)
append-IsMap (x ∷ xs) v (missing, unique) free = elim (Bool-cases (is_named x v.name v.guid)) [
  | inl same ↦ cc (rw same at free)
  | inr other ↦ (
    find_var-append xs v x.name x.guid missing ∙ rw (is_named_sym x v other),
    append-IsMap xs v unique (rw other at free),
  )
]

-- Whatever becomes of the file, flush leaves the variables as they were or as it was given them.
list-flush_cases :
    (vars : List Variable) (s : Session)
    → (list (flush vars s).0 ≡ vars) ⊎ (list (flush vars s).0 ≡ list s)
unfolding flush list
list-flush_cases vars (s, d) =
    let (read, d') = read_store_file s.path s.lim.max_file_size d in
    list-commit vars s d' (read >>= rewrite vars s)
  where
    list-commit :
        (vars : List Variable) (s : Store) (d : Disk) (r : Result Bytes)
        → (list (commit vars s d r).0 ≡ vars) ⊎ (list (commit vars s d r).0 ≡ s.vars)
    list-commit vars s d (ok buf) = inl refl
    list-commit vars s d (err e) = inr refl
    list-commit vars s d panic = inr refl
    list-commit vars s d out_of_fuel = inr refl

flush-IsMap :
    (vars : List Variable) (s : Session)
    → IsMap vars
    → IsMap (list s)
    → IsMap (list (flush vars s).0)
flush-IsMap vars s new old = elim (list-flush_cases vars s) [ inl e ↦ rw e new | inr e ↦ rw e old ]

set-IsMap : (s : Session) (v : Variable) → IsMap (list s) → IsMap (list (set s v).0)
unfolding set list
set-IsMap (s, d) v unique =
    flush-IsMap (others v.name v.guid s.vars ++ v ∷ []) (s, d)
      (append-IsMap (others v.name v.guid s.vars) v (others-IsMap v.name v.guid s.vars unique)
        (find_var-others_self v.name v.guid s.vars))
      unique

delete_found-IsMap :
    (s : Session) (f : Bool × List Variable)
    → IsMap f.1
    → IsMap (list s)
    → IsMap (list (delete_found s f).0)
unfolding delete_found
delete_found-IsMap s (true, rest) new old = flush-IsMap rest s new old
delete_found-IsMap s (false, rest) new old = old

delete-IsMap :
    (s : Session) (name : Bytes) (guid : Guid)
    → IsMap (list s)
    → IsMap (list (delete s name guid).0)
unfolding delete list
delete-IsMap (s, d) name guid unique =
    delete_found-IsMap (s, d) (split_off name guid s.vars)
      (rw (split_off-others name guid s.vars) (others-IsMap name guid s.vars unique)) unique

-- A Set of any variable and a Delete of any name and GUID, whatever they report, each leave a
-- store that has no name and GUID twice where there was one.
pub set-delete-IsMap :
    (s : Session) (v : Variable) (name : Bytes) (guid : Guid)
    → IsMap (list s)
    → IsMap (list (set s v).0) × IsMap (list (delete s name guid).0)
set-delete-IsMap s v name guid unique = (set-IsMap s v unique, delete-IsMap s name guid unique)
