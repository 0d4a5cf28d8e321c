-- ===== src/Store/Map.antt =====
-- Get, Set and Delete as operations on a map from names and GUIDs to variables.
use uefi.Base.{
  ◌≡◌, refl, sym, ap, ◌∙◌, Bool, true, false, List, [], ◌∷◌, ◌++◌, Bytes, eq_bytes_refl,
  eq_bytes→eq, Bool-cases, &&-eq-true, inl, inr, if◌then◌else◌,
}
use uefi.Base.{Result, ok, err, not_exist, ◌>>=◌, panic, out_of_fuel}
use uefi.Variable.{Variable, Guid, eq_guid_refl, eq_guid→eq, is_named}
use uefi.Disk.{Disk, read_store_file}
use uefi.Store.{
  Session, Store, commit, rewrite, flush, list, get, set, delete, delete_found, find_var, others,
  split_off,
}
use uefi.VariableStore.{VariableStore, VariableStoreLaws, Differs}

pub is_named_self : (v : Variable) → is_named v v.name v.guid ≡ true
is_named_self v = rw (eq_bytes_refl v.name, eq_guid_refl v.guid)

-- A variable of one name is of no other.
pub is_named-other :
    (v : Variable) (name : Bytes) (guid : Guid) (name' : Bytes) (guid' : Guid)
    → Differs name guid name' guid'
    → is_named v name guid ≡ true
    → is_named v name' guid' ≡ false
is_named-other v name guid name' guid' d h =
    let (n, g) = &&-eq-true _ _ h in rw (eq_bytes→eq v.name name n, eq_guid→eq v.guid guid g) d

pub find_var-others_self :
    (name : Bytes) (guid : Guid) (vs : List Variable)
    → find_var (others name guid vs) name guid ≡ err not_exist
unfolding find_var others
find_var-others_self name guid [] = refl
find_var-others_self name guid (v ∷ vs) = elim (Bool-cases (is_named v name guid)) [
  | inl same ↦ rw same (find_var-others_self name guid vs)
  | inr other ↦ rw (other, other) (find_var-others_self name guid vs)
]

pub find_var-others_other :
    (name : Bytes) (guid : Guid) (name' : Bytes) (guid' : Guid) (vs : List Variable)
    → Differs name guid name' guid'
    → find_var (others name guid vs) name' guid' ≡ find_var vs name' guid'
unfolding find_var others
find_var-others_other name guid name' guid' [] d = refl
find_var-others_other name guid name' guid' (v ∷ vs) d =
    let ih = find_var-others_other name guid name' guid' vs d in
    elim (Bool-cases (is_named v name guid)) [
      | inl same ↦ rw (same, is_named-other v name guid name' guid' d same) ih
      | inr other ↦ rw (other, ih)
    ]

pub find_var-append :
    (vs : List Variable) (v : Variable) (name : Bytes) (guid : Guid)
    → find_var vs name guid ≡ err not_exist
    → find_var (vs ++ v ∷ []) name guid ≡ (if is_named v name guid then ok v else err not_exist)
unfolding find_var
find_var-append [] v name guid h = refl
find_var-append (x ∷ xs) v name guid h = elim (Bool-cases (is_named x name guid)) [
  | inl same ↦ cc (rw same at h)
  | inr other ↦ rw other (find_var-append xs v name guid (rw other at h))
]

pub find_var-append_other :
    (vs : List Variable) (v : Variable) (name : Bytes) (guid : Guid)
    → is_named v name guid ≡ false
    → find_var (vs ++ v ∷ []) name guid ≡ find_var vs name guid
unfolding find_var
find_var-append_other [] v name guid h = rw h
find_var-append_other (x ∷ xs) v name guid h = rw (find_var-append_other xs v name guid h)

-- Whatever becomes of the file, the session has the new variables when the write was reached, and
-- a success reached it.
pub list-flush :
    (vars : List Variable) (s : Session) → (flush vars s).1 ≡ ok tt → list (flush vars s).0 ≡ vars
unfolding flush list
list-flush vars (s, d) h =
    let (read, d') = read_store_file s.path s.lim.max_file_size d in
    list-commit vars s d' (read >>= rewrite vars s) h
  where
    list-commit :
        (vars : List Variable) (s : Store) (d : Disk) (r : Result Bytes)
        → (commit vars s d r).1 ≡ ok tt
        → list (commit vars s d r).0 ≡ vars
    list-commit vars s d (ok buf) h = refl
    list-commit vars s d (err e) h = cc
    list-commit vars s d panic h = cc
    list-commit vars s d out_of_fuel h = cc

pub split_off-others :
    (name : Bytes) (guid : Guid) (vs : List Variable)
    → (split_off name guid vs).1 ≡ others name guid vs
unfolding split_off others
split_off-others name guid [] = refl
split_off-others name guid (v ∷ vs) = elim (Bool-cases (is_named v name guid)) [
  | inl same ↦ rw same (split_off-others name guid vs)
  | inr other ↦ rw other (ap (λ t. v ∷ t) (split_off-others name guid vs))
]

split_off_missing :
    (name : Bytes) (guid : Guid) (vs : List Variable)
    → find_var vs name guid ≡ err not_exist
    → (split_off name guid vs).0 ≡ false
unfolding split_off find_var
split_off_missing name guid [] h = refl
split_off_missing name guid (v ∷ vs) h = elim (Bool-cases (is_named v name guid)) [
  | inl same ↦ cc (rw same at h)
  | inr other ↦ rw other (split_off_missing name guid vs (rw other at h))
]

-- A successful Delete has the other variables.
pub list-delete :
    (s : Session) (name : Bytes) (guid : Guid)
    → (delete s name guid).1 ≡ ok tt
    → list (delete s name guid).0 ≡ others name guid (list s)
unfolding delete list
list-delete (s, d) name guid h =
    go (split_off name guid s.vars) (split_off-others name guid s.vars) h
  where
    go :
        (f : Bool × List Variable)
        → f.1 ≡ others name guid s.vars
        → (delete_found (s, d) f).1 ≡ ok tt
        → (delete_found (s, d) f).0.0.vars ≡ others name guid s.vars
    go (true, rest) e k = list-flush rest (s, d) k ∙ e
    go (false, rest) e k = cc

-- A successful Set has the other variables and then the new one.
pub list-set :
    (s : Session) (v : Variable)
    → (set s v).1 ≡ ok tt
    → list (set s v).0 ≡ others v.name v.guid (list s) ++ v ∷ []
unfolding set list
list-set (s, d) v h = list-flush _ (s, d) h

pub get-list :
    (s : Session) (name : Bytes) (guid : Guid) → get s name guid ≡ find_var (list s) name guid
unfolding get list
get-list (s, d) name guid = refl

-- Set makes Get return the variable.
pub get-set_self :
    (s : Session) (v : Variable) → (set s v).1 ≡ ok tt → get (set s v).0 v.name v.guid ≡ ok v
get-set_self s v h =
    get-list (set s v).0 v.name v.guid
    ∙ rw (list-set s v h) (
        find_var-append _ v v.name v.guid (find_var-others_self v.name v.guid (list s))
        ∙ rw (is_named_self v))

pub get-set_other :
    (s : Session) (v : Variable) (name : Bytes) (guid : Guid)
    → (set s v).1 ≡ ok tt
    → Differs v.name v.guid name guid
    → get (set s v).0 name guid ≡ get s name guid
get-set_other s v name guid h d =
    get-list (set s v).0 name guid
    ∙ rw (list-set s v h) (
        find_var-append_other _ v name guid d
        ∙ find_var-others_other v.name v.guid name guid (list s) d)
    ∙ sym (get-list s name guid)

pub get-delete_self :
    (s : Session) (name : Bytes) (guid : Guid)
    → (delete s name guid).1 ≡ ok tt
    → get (delete s name guid).0 name guid ≡ err not_exist
get-delete_self s name guid h =
    get-list (delete s name guid).0 name guid
    ∙ rw (list-delete s name guid h) (find_var-others_self name guid (list s))

pub get-delete_other :
    (s : Session) (name : Bytes) (guid : Guid) (name' : Bytes) (guid' : Guid)
    → (delete s name guid).1 ≡ ok tt
    → Differs name guid name' guid'
    → get (delete s name guid).0 name' guid' ≡ get s name' guid'
get-delete_other s name guid name' guid' h d =
    get-list (delete s name guid).0 name' guid'
    ∙ rw (list-delete s name guid h) (find_var-others_other name guid name' guid' (list s) d)
    ∙ sym (get-list s name' guid')

-- Delete of a missing variable is an error, and touches neither the store nor the file.
pub delete_missing :
    (s : Session) (name : Bytes) (guid : Guid)
    → get s name guid ≡ err not_exist
    → delete s name guid ≡ (s, err not_exist)
unfolding delete get
delete_missing (s, d) name guid h =
    go (split_off name guid s.vars) (split_off_missing name guid s.vars h)
  where
    go : (f : Bool × List Variable) → f.0 ≡ false → delete_found (s, d) f ≡ ((s, d), err not_exist)
    go (true, rest) e = cc
    go (false, rest) e = refl

-- The store as the interface that the boot manager and Secure Boot code take.
abbrev pub store_operations : VariableStore Session
store_operations = record { list = list; get = get; set = set; delete = delete }

-- The file-backed store keeps every law of the VariableStore interface: Get searches what List
-- gives, and where Set and Delete report success they act on one variable and leave the others;
-- Delete of a missing variable is an error that changes nothing.
pub store_operations-laws : VariableStoreLaws store_operations
store_operations-laws = record {
  get_list = get-list;
  get-set_self = get-set_self;
  get-set_other = get-set_other;
  get-delete_self = get-delete_self;
  get-delete_other = get-delete_other;
  delete_missing = delete_missing;
}
