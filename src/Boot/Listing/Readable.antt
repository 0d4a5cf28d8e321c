-- ===== src/Boot/Listing/Readable.antt =====
-- bootvars.go: the entries that ListBootEntries returns, beside those that BootEntry reads.
use uefi.Base.{
  ℕ, ◌<◌, ◌≡◌, refl, sym, ap, subst, ◌∙◌, true, false, Option, none, some, List, [], ◌∷◌, Bytes,
  arith, ◌==◌, ==_iff, ==_refl, eq_bytes, eq_bytes_refl, eq_bytes→eq, &&-eq-true, Bool-cases,
  Option-cases, inl, inr, if◌then◌else◌,
}
use uefi.Base.{Result, ok, err, panic, out_of_fuel, ◌>>=◌, >>=-eq-ok, not_exist}
use uefi.Safeio.{Safeio}
use uefi.Variable.{Variable, Guid, eq_guid, eq_guid→eq, is_named}
use uefi.Store.{find_var}
use uefi.VariableStore.{VariableStore, VariableStoreLaws, IsMap}
use uefi.SecureBoot.{efi_global_variable_guid}
use uefi.LoadOption.{LoadOption, parse_load_option}
use uefi.Boot.{boot_name, parse_boot_name, boot_entry, boot_order}
use uefi.Boot.Names.{parse_boot_name-boot_name}
use uefi.Boot.Parsed.{boot_name-parse_boot_name}
use uefi.Boot.Listing.{
  Entries, lookup, insert, keep_entry, read_entry, read_entries, list_boot_entries,
}

lookup-insert :
    (es : Entries) (n m : ℕ) (lo : LoadOption)
    → lookup (insert n lo es) m ≡ (if n == m then some lo else lookup es m)
unfolding lookup insert
lookup-insert [] n m lo = refl
lookup-insert ((k, old) ∷ es) n m lo = ground (arith, lookup-insert es n m lo)

-- A readable option takes the place of what was there.
abbrev override : Result LoadOption → Option LoadOption → Option LoadOption
override (ok lo) old = some lo
override (err e) old = old
override panic old = old
override out_of_fuel old = old

abbrev pub readable : Result LoadOption → Option LoadOption
readable r = override r none

-- What the loop makes of an entry, given what the store has under the entry's name.
abbrev found_entry : Safeio → Result Variable → Option LoadOption → Option LoadOption
found_entry io (ok v) old = override (parse_load_option io v.content) old
found_entry io (err e) old = old
found_entry io panic old = old
found_entry io out_of_fuel old = old

lookup-keep_entry :
    (n : ℕ) (es es' : Entries) (r : Result LoadOption)
    → keep_entry n es r ≡ ok es'
    → lookup es' n ≡ override r (lookup es n)
unfolding keep_entry
lookup-keep_entry n es es' (ok lo) h =
    subst (λ (t : Entries). lookup t n ≡ some lo) (cc) (lookup-insert es n n lo ∙ rw (==_refl n))
lookup-keep_entry n es es' (err e) h = ap (λ t. lookup t n) (cc)
lookup-keep_entry n es es' panic h = cc
lookup-keep_entry n es es' out_of_fuel h = cc

lookup-keep_entry_other :
    (m n : ℕ) (es es' : Entries) (r : Result LoadOption)
    → keep_entry m es r ≡ ok es'
    → (m == n) ≡ false
    → lookup es' n ≡ lookup es n
unfolding keep_entry
lookup-keep_entry_other m n es es' (ok lo) h d =
    subst (λ (t : Entries). lookup t n ≡ lookup es n) (cc) (lookup-insert es m n lo ∙ rw d)
lookup-keep_entry_other m n es es' (err e) h d = ap (λ t. lookup t n) (cc)
lookup-keep_entry_other m n es es' panic h d = cc
lookup-keep_entry_other m n es es' out_of_fuel h d = cc

-- A variable of the entry's name is read into the entry.
lookup-read_entry_same :
    (io : Safeio) (v : Variable) (es es' : Entries) (n : ℕ)
    → n < 65536
    → is_named v (boot_name n) efi_global_variable_guid ≡ true
    → read_entry io v es ≡ ok es'
    → lookup es' n ≡ override (parse_load_option io v.content) (lookup es n)
unfolding read_entry
lookup-read_entry_same io v es es' n small named h =
    let (name, guid) = &&-eq-true _ _ named in
    let number : parse_boot_name v.name ≡ some n =
      ap parse_boot_name (eq_bytes→eq v.name (boot_name n) name)
      ∙ parse_boot_name-boot_name n small in
    lookup-keep_entry n es es' (parse_load_option io v.content) (rw (guid, number) at h)

number_differs :
    (v : Variable) (m n : ℕ)
    → eq_guid v.guid efi_global_variable_guid ≡ true
    → parse_boot_name v.name ≡ some m
    → is_named v (boot_name n) efi_global_variable_guid ≡ false
    → (m == n) ≡ false
number_differs v m n global number other = elim (Bool-cases (m == n)) [
  | inr differs ↦ differs
  | inl same ↦
      let name : v.name ≡ boot_name n =
        (boot_name-parse_boot_name v.name m number).1 ∙ ap boot_name ((==_iff m n).0 same) in
      let named : eq_bytes v.name (boot_name n) ≡ true =
        ap (λ t. eq_bytes t (boot_name n)) name ∙ eq_bytes_refl (boot_name n) in
      cc (rw (named, global) at other)
]

-- Any other variable leaves the entry as it is.
lookup-read_entry_other :
    (io : Safeio) (v : Variable) (es es' : Entries) (n : ℕ)
    → is_named v (boot_name n) efi_global_variable_guid ≡ false
    → read_entry io v es ≡ ok es'
    → lookup es' n ≡ lookup es n
unfolding read_entry
lookup-read_entry_other io v es es' n other h =
    elim (Bool-cases (eq_guid v.guid efi_global_variable_guid)) [
      | inr away ↦ ap (λ t. lookup t n) (cc (rw away at h))
      | inl global ↦ elim (Option-cases (parse_boot_name v.name)) [
        | inl none_read ↦ ap (λ t. lookup t n) (cc (rw (global, none_read) at h))
        | inr (m, number) ↦
            lookup-keep_entry_other m n es es' (parse_load_option io v.content)
              (rw (global, number) at h) (number_differs v m n global number other)
      ]
    ]

lookup-read_entries :
    (io : Safeio) (vs : List Variable) (es es' : Entries) (n : ℕ)
    → n < 65536
    → IsMap vs
    → read_entries io vs es ≡ ok es'
    → lookup es' n
      ≡ found_entry io (find_var vs (boot_name n) efi_global_variable_guid) (lookup es n)
unfolding read_entries find_var
lookup-read_entries io [] es es' n small unique h = ap (λ t. lookup t n) (cc)
lookup-read_entries io (v ∷ vs) es es' n small (missing, unique) h =
    let (es1, first, rest) = >>=-eq-ok (read_entry io v es) (read_entries io vs) h in
    let ih = lookup-read_entries io vs es1 es' n small unique rest in
    elim (Bool-cases (is_named v (boot_name n) efi_global_variable_guid)) [
      | inl named ↦
          let (name, guid) = &&-eq-true _ _ named in
          let gone : find_var vs (boot_name n) efi_global_variable_guid ≡ err not_exist =
            subst (λ (g : Guid). find_var vs (boot_name n) g ≡ err not_exist)
              (eq_guid→eq v.guid efi_global_variable_guid guid)
              (subst (λ (t : Bytes). find_var vs t v.guid ≡ err not_exist)
                (eq_bytes→eq v.name (boot_name n) name) missing) in
          rw named (rw gone at ih ∙ lookup-read_entry_same io v es es1 n small named first)
      | inr other ↦
          rw other (ih ∙ ap (found_entry io _) (lookup-read_entry_other io v es es1 n other first))
    ]

readable_found :
    (io : Safeio) (r : Result Variable)
    → found_entry io r none ≡ readable (r >>= λ v. parse_load_option io v.content)
readable_found io (ok v) = refl
readable_found io (err e) = refl
readable_found io panic = refl
readable_found io out_of_fuel = refl

-- Where ListBootEntries succeeds, over a store that keeps the laws and has no name and GUID twice,
-- its entry for a uint16 is what BootEntry reads, and there is none where BootEntry gives no load
-- option.
pub list_boot_entries-boot_entry :
    {S : Type 0} (vs : VariableStore S)
    → VariableStoreLaws vs
    → (io : Safeio) (s : S) (es : Entries) (ordered : List ℕ) (n : ℕ)
    → list_boot_entries vs io s ≡ ok (es, ordered)
    → IsMap (vs.list s)
    → n < 65536
    → lookup es n ≡ readable (boot_entry vs io s n)
unfolding list_boot_entries boot_entry lookup
list_boot_entries-boot_entry vs laws io s es ordered n h unique small =
    let (es', read, h1) = >>=-eq-ok (read_entries io (vs.list s) []) _ h in
    let (order, found, h2) = >>=-eq-ok (boot_order vs s) _ h1 in
    let same : es' ≡ es = cc in
    ap (λ t. lookup t n) (sym same)
    ∙ lookup-read_entries io (vs.list s) [] es' n small unique read
    ∙ readable_found io (find_var (vs.list s) (boot_name n) efi_global_variable_guid)
    ∙ ap (λ r. readable (r >>= λ v. parse_load_option io v.content))
        (sym (laws.get_list s (boot_name n) efi_global_variable_guid))
