-- ===== src/Boot/Free.antt =====
-- bootvars.go: lowestFreeBootNum.
use uefi.Base.{
  ℕ, zero, suc, ◌+◌, ◌<◌, ◌≤◌, ◌≡◌, refl, ap, ◌∙◌, true, false, Option, none, some, List, [], ◌∷◌,
  arith, ==_refl, Bool-cases, Option-cases, &&-eq-true, eq_bytes→eq, inl, inr, ◌⊎◌, subst, err,
  not_exist,
}
use native.Mathlib.Decide.{ℕ_discrete}
use uefi.Variable.{Variable, is_named, eq_guid}
use uefi.Store.{find_var}
use uefi.SecureBoot.{efi_global_variable_guid}
use uefi.Boot.{boot_numbers, contains, first_free, lowest_free, parse_boot_name, boot_name}
use uefi.Boot.Names.{parse_boot_name-boot_name}

-- What a scan of `count` numbers from `i` on says of `used`.
abbrev Scanned : List ℕ → ℕ → ℕ → Option ℕ → Type 0
Scanned used i count none = (m : ℕ) → i ≤ m → m < i + count → contains used m ≡ true
Scanned used i count (some n) =
    (i ≤ n)
    × (n < i + count)
    × (contains used n ≡ false)
    × ((m : ℕ) → i ≤ m → m < n → contains used m ≡ true)

extend :
    (used : List ℕ) (i count : ℕ) (r : Option ℕ)
    → contains used i ≡ true
    → Scanned used (i + 1) count r
    → Scanned used i (suc count) r
extend used i count none taken h = λ m lo hi. elim (ℕ_discrete i m) [
  | yes e ↦ subst (λ (k : ℕ). contains used k ≡ true) e taken
  | no e ↦ h m (omega arith) (omega arith)
]
extend used i count (some n) taken h =
    let (lo, hi, free, below) = h in
    (
      omega arith,
      omega arith,
      free,
      λ m p q. elim (ℕ_discrete i m) [
        | yes e ↦ subst (λ (k : ℕ). contains used k ≡ true) e taken
        | no e ↦ below m (omega arith) q
      ],
    )

first_free-Scanned : (count i : ℕ) (used : List ℕ) → Scanned used i count (first_free count i used)
unfolding first_free
first_free-Scanned zero i used = λ m lo hi. absurd (omega arith)
first_free-Scanned (suc count) i used = elim (Bool-cases (contains used i)) [
  | inl taken ↦ rw taken (
      extend used i count (first_free count (i + 1) used) taken
        (first_free-Scanned count (i + 1) used))
  | inr free ↦ rw free (omega arith, omega arith, free, λ m p q. absurd (omega arith))
]

-- A variable with the name of a free number is not in the store.
pub find_var_free :
    (vars : List Variable) (n : ℕ)
    → n < 65536
    → contains (boot_numbers vars) n ≡ false
    → find_var vars (boot_name n) efi_global_variable_guid ≡ err not_exist
unfolding find_var boot_numbers contains
find_var_free [] n h free = refl
find_var_free (v ∷ vs) n h free =
    elim (Bool-cases (is_named v (boot_name n) efi_global_variable_guid)) [
      | inl same ↦
          let (name, guid) = &&-eq-true _ _ same in
          let number : parse_boot_name v.name ≡ some n =
            ap parse_boot_name (eq_bytes→eq v.name (boot_name n) name)
            ∙ parse_boot_name-boot_name n h in
          cc (rw (guid, number, ==_refl n) at free)
      | inr other ↦ rw other (
          find_var_free vs n h (
            rest_free (Bool-cases (eq_guid v.guid efi_global_variable_guid))
              (Option-cases (parse_boot_name v.name))))
    ]
  where
    rest_free :
        (eq_guid v.guid efi_global_variable_guid ≡ true)
          ⊎ (eq_guid v.guid efi_global_variable_guid ≡ false)
        → (parse_boot_name v.name ≡ none) ⊎ ((a : ℕ) × (parse_boot_name v.name ≡ some a))
        → contains (boot_numbers vs) n ≡ false
    rest_free (inr g) o = rw g at free
    rest_free (inl g) (inl o) = rw (g, o) at free
    rest_free (inl g) (inr (a, o)) = ground (arith, rw (g, o) at free)

-- What the number a search returns is worth: it is the lowest free one, or there is none.
abbrev pub IsLowest : List Variable → Option ℕ → Type 0
IsLowest vars none = (m : ℕ) → m < 65536 → contains (boot_numbers vars) m ≡ true
IsLowest vars (some n) =
    (n < 65536)
    × (find_var vars (boot_name n) efi_global_variable_guid ≡ err not_exist)
    × ((m : ℕ) → m < n → contains (boot_numbers vars) m ≡ true)

Scanned-IsLowest :
    (vars : List Variable) (r : Option ℕ) → Scanned (boot_numbers vars) 0 65536 r → IsLowest vars r
Scanned-IsLowest vars none h = λ m lt. h m (omega arith) (omega arith)
Scanned-IsLowest vars (some n) h =
    let (lo, hi, free, below) = h in
    (omega arith, find_var_free vars n (omega arith) free, λ m lt. below m (omega arith) lt)

-- A number that lowestFreeBootNum returns is a uint16 under whose name the list has no variable,
-- and every lower number is taken; where it returns none, all 65536 are taken.
pub lowest_free_lem : (vars : List Variable) → IsLowest vars (lowest_free vars)
unfolding lowest_free
lowest_free_lem vars =
    Scanned-IsLowest vars (first_free 65536 0 (boot_numbers vars))
      (first_free-Scanned 65536 0 (boot_numbers vars))
