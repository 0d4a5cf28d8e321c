-- ===== src/Boot/Listing.antt =====
-- bootvars.go, ListBootEntries. The map of entries is a list with one pair for each number; the set
-- `seen` has the same numbers as `ordered` at every point, and is not kept beside it.
pub mod Order
pub mod Readable
use uefi.Base.{
  ℕ, zero, suc, ◌+◌, Bool, true, false, not, ◌&&◌, Option, none, some, List, [], ◌∷◌, ◌++◌, Bytes,
}
use uefi.Base.{Result, ok, err, panic, out_of_fuel, ◌>>=◌, ◌==◌, if◌then◌else◌}
use uefi.Safeio.{Safeio}
use uefi.Variable.{Variable, eq_guid}
use uefi.VariableStore.{VariableStore}
use uefi.SecureBoot.{efi_global_variable_guid}
use uefi.LoadOption.{LoadOption, parse_load_option}
use uefi.Boot.{parse_boot_name, max_boot_entries, contains, boot_order}

abbrev pub Entries : Type 0
Entries = List (ℕ × LoadOption)

-- `entries[n]`
unfoldable pub lookup : Entries → ℕ → Option LoadOption
lookup [] n = none
lookup ((m, lo) ∷ es) n = let rest = lookup es n in if m == n then some lo else rest

-- `entries[n] = lo`
unfoldable pub insert : ℕ → LoadOption → Entries → Entries
insert n lo [] = (n, lo) ∷ []
insert n lo ((m, old) ∷ es) =
    let rest = insert n lo es in if m == n then (n, lo) ∷ es else (m, old) ∷ rest

abbrev pub is_some {ℓ} : {A : Type ℓ} → Option A → Bool
is_some none = false
is_some (some a) = true

-- `_, ok := entries[n]`
unfoldable pub has : Entries → ℕ → Bool
unfolding lookup
has es n = is_some (lookup es n)

-- A malformed entry is skipped.
unfoldable pub keep_entry : ℕ → Entries → Result LoadOption → Result Entries
unfolding insert
keep_entry n es (ok lo) = ok (insert n lo es)
keep_entry n es (err e) = ok es
keep_entry n es panic = panic
keep_entry n es out_of_fuel = out_of_fuel

-- The body of the first loop.
unfoldable pub read_entry : Safeio → Variable → Entries → Result Entries
unfolding keep_entry
read_entry io v es =
    if eq_guid v.guid efi_global_variable_guid
    then elim (parse_boot_name v.name) [
      | none ↦ ok es
      | some n ↦ keep_entry n es (parse_load_option io v.content)
    ]
    else ok es

-- The first loop, over the store's list.
unfoldable pub read_entries : Safeio → List Variable → Entries → Result Entries
read_entries io [] es = ok es
read_entries io (v ∷ vs) es = read_entry io v es >>= read_entries io vs

-- The body of the other two loops.
unfoldable pub add_number : Entries → ℕ → List ℕ → List ℕ
unfolding has
add_number es n ordered =
    if has es n && not (contains ordered n) then ordered ++ n ∷ [] else ordered

-- The loop over the boot order.
unfoldable pub add_ordered : Entries → List ℕ → List ℕ → List ℕ
unfolding add_number
add_ordered es [] ordered = ordered
add_ordered es (n ∷ ns) ordered = add_ordered es ns (add_number es n ordered)

-- The loop over `count` numbers from `i` on.
unfoldable pub add_others : Entries → ℕ → ℕ → List ℕ → List ℕ
unfolding add_number
add_others es zero i ordered = ordered
add_others es (suc count) i ordered = add_others es count (i + 1) (add_number es i ordered)

module _ {S : Type 0} (vs : VariableStore S) where
  -- ListBootEntries
  unfoldable pub list_boot_entries : Safeio → S → Result (Entries × List ℕ)
  unfolding add_ordered add_others
  list_boot_entries io s = do
    es ← read_entries io (vs.list s) []
    order ← boot_order vs s
    ok (es, add_others es max_boot_entries 0 (add_ordered es order []))
