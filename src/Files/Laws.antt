-- ===== src/Files/Laws.antt =====
-- filesystem.go: what the file operations of a store do to the files.
use uefi.Base.{
  panic, out_of_fuel, true, inl, inr, [], Bool-cases, &&-eq-true, ◌≡◌, refl, subst, false, List,
  ◌∷◌, Bytes, eq_bytes, length,
}
use uefi.Base.{Result, ok, err, not_exist}
use uefi.Variable.{Variable, Guid, eq_guid→eq, is_named}
use uefi.Store.{Session, find_var, get, set, delete}
use uefi.Store.Map.{get-set_self, get-set_other, get-delete_self, get-delete_other}
use uefi.VariableStore.{Differs}
use uefi.Files.{
  default_namespace_guid, default_attributes, read_file, write_file, delete_file, stat, rename,
  rename_found, drop_old,
}

Differs-name :
    (p q : Bytes) → eq_bytes p q ≡ false → Differs p default_namespace_guid q default_namespace_guid
Differs-name p q h = rw h refl

-- After a successful WriteFile, ReadFile gives the content, Stat its length, and a file with
-- another path reads as it did.
pub read_file-write_file :
    (s : Session) (path content other : Bytes)
    → (write_file s path content).1 ≡ ok tt
    → eq_bytes path other ≡ false
    → (read_file (write_file s path content).0 path ≡ ok content)
      × (stat (write_file s path content).0 path
          ≡ ok (record { mode = 0o600; size = length content; inode = 0 }))
      × (read_file (write_file s path content).0 other ≡ read_file s other)
unfolding read_file write_file stat
read_file-write_file s path content other h d =
    let v : Variable = record {
      name = path;
      guid = default_namespace_guid;
      attributes = default_attributes;
      content = content;
    } in
    (
      rw (get-set_self s v h),
      rw (get-set_self s v h),
      rw (get-set_other s v other default_namespace_guid h (Differs-name path other d)),
    )

-- After a successful DeleteFile the file is missing, and any other file reads as it did.
pub read_file-delete_file :
    (s : Session) (path other : Bytes)
    → (delete_file s path).1 ≡ ok tt
    → eq_bytes path other ≡ false
    → (read_file (delete_file s path).0 path ≡ err not_exist)
      × (read_file (delete_file s path).0 other ≡ read_file s other)
unfolding read_file delete_file
read_file-delete_file s path other h d = (
  rw (get-delete_self s path default_namespace_guid h),
  rw (
      get-delete_other s path default_namespace_guid other default_namespace_guid h
        (Differs-name path other d)),
)

-- The variable that a search finds has the name and the GUID searched for.
find_var-is_named :
    (vars : List Variable) (name : Bytes) (guid : Guid) (v : Variable)
    → find_var vars name guid ≡ ok v
    → is_named v name guid ≡ true
unfolding find_var
find_var-is_named [] name guid v h = cc
find_var-is_named (w ∷ ws) name guid v h = elim (Bool-cases (is_named w name guid)) [
  | inl same ↦
      let found : w ≡ v = cc (rw same at h) in
      subst (λ (x : Variable). is_named x name guid ≡ true) found same
  | inr other ↦ find_var-is_named ws name guid v (rw other at h)
]

found_guid :
    (s : Session) (name : Bytes) (guid : Guid) (v : Variable)
    → get s name guid ≡ ok v
    → v.guid ≡ guid
unfolding get
found_guid (s, d) name guid v h =
    eq_guid→eq v.guid guid (&&-eq-true _ _ (find_var-is_named s.vars name guid v h)).1

drop_old_ok :
    (p : Bytes) (w : Session × Result (Unit {0}))
    → w.1 ≡ ok tt
    → drop_old p w ≡ ((delete w.0 p default_namespace_guid).0, ok tt)
unfolding drop_old
drop_old_ok p (s, ok _) h = refl
drop_old_ok p (s, err e) h = cc
drop_old_ok p (s, panic) h = cc
drop_old_ok p (s, out_of_fuel) h = cc

module _ (s : Session) (p q : Bytes) (v : Variable) (there : get s p default_namespace_guid ≡ ok v)
    (written : (set s (record v { name = q })).1 ≡ ok tt)
    (deleted : (delete (set s (record v { name = q })).0 p default_namespace_guid).1 ≡ ok tt) where
  rename_runs :
      rename s p q ≡ ((delete (set s (record v { name = q })).0 p default_namespace_guid).0, ok tt)
  unfolding rename rename_found
  rename_runs = rw there (drop_old_ok p (set s (record v { name = q })) written)

  -- Rename of a file that is there to another path, when both of its writes succeed, makes the new
  -- path read as the old one did, and the old one is missing.
  pub rename_moves :
      eq_bytes p q ≡ false
      → ((rename s p q).1 ≡ ok tt)
        × (read_file (rename s p q).0 q ≡ read_file s p)
        × (read_file (rename s p q).0 p ≡ err not_exist)
  unfolding read_file
  rename_moves d =
      let moved : Variable = record v { name = q } in
      let here : get (set s moved).0 q default_namespace_guid ≡ ok moved =
        subst (λ (g : Guid). get (set s moved).0 q g ≡ ok moved)
          (found_guid s p default_namespace_guid v there) (get-set_self s moved written) in
      (
        rw rename_runs,
        rw rename_runs (
            rw (
              get-delete_other (set s moved).0 p default_namespace_guid q default_namespace_guid
                  deleted (Differs-name p q d),
              here,
              there,
            )),
        rw rename_runs (rw (get-delete_self (set s moved).0 p default_namespace_guid deleted)),
      )

-- Rename of a file to its own path, when both of its writes succeed, reports success and the file
-- is gone.
pub rename_same :
    (s : Session) (p : Bytes) (v : Variable)
    → get s p default_namespace_guid ≡ ok v
    → (set s (record v { name = p })).1 ≡ ok tt
    → (delete (set s (record v { name = p })).0 p default_namespace_guid).1 ≡ ok tt
    → ((rename s p p).1 ≡ ok tt) × (read_file (rename s p p).0 p ≡ err not_exist)
unfolding read_file
rename_same s p v there written deleted = (
  rw (rename_runs s p p v there written deleted),
  rw (rename_runs s p p v there written deleted)
      (rw (get-delete_self (set s (record v { name = p })).0 p default_namespace_guid deleted)),
)
