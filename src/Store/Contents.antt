-- ===== src/Store/Contents.antt =====
-- uefi.go: Get, Set and Delete on the contents of a store, a map from names and GUIDs to variables
-- that forgets the order of the variables.
use uefi.Base.{
  ◌≡◌, sym, ap, ◌∙◌, true, false, ◌&&◌, List, Bytes, eq_bytes, eq_bytes→eq, &&-eq-true, Bool-cases,
  inl, inr, if◌then◌else◌,
}
use uefi.Base.{Result, ok, err, not_exist}
use mathlib.Core.Quot
use mathlib.Core.Quot.{Quot, Quot-set}
use native.Mathlib.Nat.{ℕ_set}
use uefi.Variable.{Variable, Guid, eq_guid, eq_guid→eq, is_named}
use uefi.VariableStore.{Differs}
use uefi.Store.{Session, find_var, others, list, get, set, delete}
use uefi.Store.Map.{
  find_var-others_self, find_var-others_other, find_var-append, find_var-append_other,
  is_named_self, list-set, list-delete, get-list,
}
use uefi.Store.Saved.{added}

find_var-others :
    (name : Bytes) (guid : Guid) (vs : List Variable) (name' : Bytes) (guid' : Guid)
    → find_var (others name guid vs) name' guid' ≡ (
        if eq_bytes name name' && eq_guid guid guid'
        then err not_exist
        else find_var vs name' guid')
find_var-others name guid vs name' guid' =
    elim (Bool-cases (eq_bytes name name' && eq_guid guid guid')) [
      | inl same ↦
          let (n, g) = &&-eq-true _ _ same in
          rw same (
            rw (sym (eq_bytes→eq name name' n), sym (eq_guid→eq guid guid' g))
              (find_var-others_self name guid vs))
      | inr other ↦ rw other (find_var-others_other name guid name' guid' vs other)
    ]

find_var-added :
    (v : Variable) (vs : List Variable) (name : Bytes) (guid : Guid)
    → find_var (added v vs) name guid
      ≡ (if is_named v name guid then ok v else find_var vs name guid)
find_var-added v vs name guid = elim (Bool-cases (is_named v name guid)) [
  | inl same ↦
      let missing : find_var (others v.name v.guid vs) name guid ≡ err not_exist =
        find_var-others v.name v.guid vs name guid ∙ rw same in
      rw same (find_var-append (others v.name v.guid vs) v name guid missing ∙ rw same)
  | inr other ↦ rw other (
      find_var-append_other _ v name guid other
      ∙ find_var-others_other v.name v.guid name guid vs other)
]

Variable_set : IsSet Variable
Variable_set = hlevel ℕ_set

found_set : IsSet (Result Variable)
found_set = hlevel Variable_set

-- Lists in which Get finds the same.
abbrev pub Alike : List Variable → List Variable → Type 0
Alike vs ws = (name : Bytes) (guid : Guid) → find_var vs name guid ≡ find_var ws name guid

abbrev pub Contents : Type 0
Contents = Quot Alike

pub contents : Session → Contents
contents s = Quot.mk (list s)

pub look_up : Contents → Bytes → Guid → Result Variable
look_up c name guid = Quot.lift found_set (λ vs. find_var vs name guid) (λ vs ws h. h name guid) c

pub insert_variable : Variable → Contents → Contents
insert_variable v =
    Quot.lift Quot-set (λ vs. Quot.mk (added v vs))
      (λ vs ws h.
        Quot.sound (λ name guid. rw (find_var-added v vs, find_var-added v ws, h name guid)))

pub remove_variable : Bytes → Guid → Contents → Contents
remove_variable name guid =
    Quot.lift Quot-set (λ vs. Quot.mk (others name guid vs))
      (λ vs ws h. Quot.sound (λ name' guid'.
        rw (find_var-others name guid vs, find_var-others name guid ws, h name' guid')))

-- A variable of one name is none of another.
not_both :
    (v w : Variable) (name : Bytes) (guid : Guid)
    → Differs v.name v.guid w.name w.guid
    → is_named v name guid ≡ true
    → is_named w name guid ≡ false
not_both v w name guid differ first = elim (Bool-cases (is_named w name guid)) [
  | inr other ↦ other
  | inl second ↦
      let (n, g) = &&-eq-true _ _ first in
      let (m, k) = &&-eq-true _ _ second in
      let same_name : v.name ≡ w.name =
        eq_bytes→eq v.name name n ∙ sym (eq_bytes→eq w.name name m) in
      let same_guid : v.guid ≡ w.guid = eq_guid→eq v.guid guid g ∙ sym (eq_guid→eq w.guid guid k) in
      let same : is_named w w.name w.guid ≡ false = rw (same_name, same_guid) at differ in
      cc (sym (is_named_self w) ∙ same)
]

-- In the contents, two insertions of different variables commute.
insert_variable_comm :
    (v w : Variable)
    → Differs v.name v.guid w.name w.guid
    → (c : Contents)
    → insert_variable v (insert_variable w c) ≡ insert_variable w (insert_variable v c)
unfolding insert_variable
insert_variable_comm v w differ =
    Quot.ind (λ c. Quot-set _ _)
      (λ vs. Quot.sound (λ name guid.
        rw
          (
            find_var-added v (added w vs),
            find_var-added w vs,
            find_var-added w (added v vs),
            find_var-added v vs,
          )
          (elim (Bool-cases (is_named v name guid)) [
            | inl first ↦ rw (first, not_both v w name guid differ first)
            | inr other ↦ rw other
          ])))

-- Where Set and Delete succeed, they insert and remove in the contents; Get looks up.
pub contents-set :
    (s : Session) (v : Variable)
    → (set s v).1 ≡ ok tt
    → contents (set s v).0 ≡ insert_variable v (contents s)
unfolding contents insert_variable
contents-set s v h = ap Quot.mk (list-set s v h)

pub contents-delete :
    (s : Session) (name : Bytes) (guid : Guid)
    → (delete s name guid).1 ≡ ok tt
    → contents (delete s name guid).0 ≡ remove_variable name guid (contents s)
unfolding contents remove_variable
contents-delete s name guid h = ap Quot.mk (list-delete s name guid h)

pub get-contents :
    (s : Session) (name : Bytes) (guid : Guid) → get s name guid ≡ look_up (contents s) name guid
unfolding contents look_up
get-contents s name guid = get-list s name guid

-- Two Sets of different variables, where all four calls succeed, leave the same contents in either
-- order, and Get finds the same for every name and GUID; the contents are the variables up to what
-- Get finds.
pub set_comm :
    (s : Session) (v w : Variable)
    → Differs v.name v.guid w.name w.guid
    → (set s v).1 ≡ ok tt
    → (set (set s v).0 w).1 ≡ ok tt
    → (set s w).1 ≡ ok tt
    → (set (set s w).0 v).1 ≡ ok tt
    → (contents (set (set s v).0 w).0 ≡ contents (set (set s w).0 v).0)
      × ((name : Bytes) (guid : Guid)
          → get (set (set s v).0 w).0 name guid ≡ get (set (set s w).0 v).0 name guid)
set_comm s v w differ done_v done_vw done_w done_wv = (same, found)
  where
    same : contents (set (set s v).0 w).0 ≡ contents (set (set s w).0 v).0
    same =
        contents-set (set s v).0 w done_vw
        ∙ ap (insert_variable w) (contents-set s v done_v)
        ∙ sym (insert_variable_comm v w differ (contents s))
        ∙ ap (insert_variable v) (sym (contents-set s w done_w))
        ∙ sym (contents-set (set s w).0 v done_wv)

    found :
        (name : Bytes) (guid : Guid)
        → get (set (set s v).0 w).0 name guid ≡ get (set (set s w).0 v).0 name guid
    found name guid =
        get-contents (set (set s v).0 w).0 name guid
        ∙ ap (λ c. look_up c name guid) same
        ∙ sym (get-contents (set (set s w).0 v).0 name guid)
