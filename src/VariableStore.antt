-- ===== src/VariableStore.antt =====
-- uefi.go, the interface VariableStore, on which the boot manager and Secure Boot code stands: its
-- operations over the states of a store, and what its clients may rely on.
use uefi.Base.{
  ◌≡◌, refl, false, List, [], ◌∷◌, Bytes, ◌&&◌, eq_bytes, Result, ok, err, panic, out_of_fuel,
  not_exist,
}
use uefi.Variable.{Variable, Guid, eq_guid}
use uefi.Store.{find_var}

pub record VariableStore (S : Type 0) : Type 0 where
  pub list : S → List Variable
  pub get : S → Bytes → Guid → Result Variable
  pub set : S → Variable → S × Result (Unit {0})
  pub delete : S → Bytes → Guid → S × Result (Unit {0})

-- Go's `if err != nil { return err }` after a call that changes the state.
abbrev pub and_then {ℓ κ} :
    {S : Type 0} {A : Type ℓ} {B : Type κ} → S × Result A → (S → A → S × Result B) → S × Result B
and_then (s, ok a) f = f s a
and_then (s, err e) f = (s, err e)
and_then (s, panic) f = (s, panic)
and_then (s, out_of_fuel) f = (s, out_of_fuel)

-- A chain of calls succeeded: so did its first, and its rest after that.
pub and_then-ok :
    {S : Type 0} {A B : Type 0} (m : S × Result A) (f : S → A → S × Result B) {s : S} {b : B}
    → and_then m f ≡ (s, ok b)
    → (a : A) × (m.1 ≡ ok a) × (f m.0 a ≡ (s, ok b))
and_then-ok (s, ok a) f h = (a, refl, h)
and_then-ok (s, err e) f h = cc
and_then-ok (s, panic) f h = cc
and_then-ok (s, out_of_fuel) f h = cc

-- The variable (name, guid) is another than (name', guid').
abbrev pub Differs : Bytes → Guid → Bytes → Guid → Type 0
Differs name guid name' guid' = (eq_bytes name name' && eq_guid guid guid') ≡ false

-- No two variables of the list have one name and GUID.
abbrev pub IsMap : List Variable → Type 0
IsMap [] = Unit
IsMap (v ∷ vs) = (find_var vs v.name v.guid ≡ err not_exist) × IsMap vs

-- What holds when an operation reports success; a missing variable is the only error of Get.
pub record VariableStoreLaws {S : Type 0} (vs : VariableStore S) : Type 0 where
  pub get_list :
      (s : S) (name : Bytes) (guid : Guid) → vs.get s name guid ≡ find_var (vs.list s) name guid
  pub get-set_self :
      (s : S) (v : Variable) → (vs.set s v).1 ≡ ok tt → vs.get (vs.set s v).0 v.name v.guid ≡ ok v
  pub get-set_other :
      (s : S) (v : Variable) (name : Bytes) (guid : Guid)
      → (vs.set s v).1 ≡ ok tt
      → Differs v.name v.guid name guid
      → vs.get (vs.set s v).0 name guid ≡ vs.get s name guid
  pub get-delete_self :
      (s : S) (name : Bytes) (guid : Guid)
      → (vs.delete s name guid).1 ≡ ok tt
      → vs.get (vs.delete s name guid).0 name guid ≡ err not_exist
  pub get-delete_other :
      (s : S) (name : Bytes) (guid : Guid) (name' : Bytes) (guid' : Guid)
      → (vs.delete s name guid).1 ≡ ok tt
      → Differs name guid name' guid'
      → vs.get (vs.delete s name guid).0 name' guid' ≡ vs.get s name' guid'
  pub delete_missing :
      (s : S) (name : Bytes) (guid : Guid)
      → vs.get s name guid ≡ err not_exist
      → vs.delete s name guid ≡ (s, err not_exist)
