-- ===== src/Boot/Listing/Order.antt =====
-- bootvars.go: the order in which ListBootEntries lists the entries.
use uefi.Base.{
  ℕ, zero, suc, ◌+◌, ◌≡◌, refl, sym, ap, subst, ◌∙◌, Bool, false, not, ◌&&◌, ◌||◌, List, [], ◌∷◌,
  ◌++◌, arith, append_assoc, append-nil, ◌==◌, ==_iff, Bool-cases, inl, inr, ok, if◌then◌else◌,
}
use uefi.Base.{◌>>=◌, Result, Ensures, returns, fails, Option-cases}
use uefi.Safeio.{Safeio, SafeioLaws}
use uefi.Variable.{Variable, eq_guid}
use uefi.SecureBoot.{efi_global_variable_guid}
use uefi.LoadOption.{LoadOption}
use uefi.LoadOption.Total.{parse_load_option-Ensures}
use uefi.VariableStore.{VariableStore}
use uefi.Boot.{contains, boot_order, parse_boot_name}
use uefi.Boot.Listing.{
  Entries, insert, keep_entry, read_entry, has, add_number, add_ordered, add_others, read_entries,
  list_boot_entries,
}

-- The `count` numbers from `i` on.
unfoldable pub range : ℕ → ℕ → List ℕ
range zero i = []
range (suc count) i = i ∷ range count (i + 1)

-- The elements that a test accepts.
unfoldable pub filter : (ℕ → Bool) → List ℕ → List ℕ
filter p [] = []
filter p (n ∷ ns) = let rest = filter p ns in if p n then n ∷ rest else rest

-- The first occurrences.
unfoldable pub distinct : List ℕ → List ℕ
unfolding filter
distinct [] = []
distinct (n ∷ ns) = n ∷ filter (λ m. not (n == m)) (distinct ns)

filter-filter :
    (p q r : ℕ → Bool)
    → ((m : ℕ) → (q m && p m) ≡ r m)
    → (ns : List ℕ) → filter p (filter q ns) ≡ filter r ns
unfolding filter
filter-filter p q r h [] = refl
filter-filter p q r h (n ∷ ns) = elim (Bool-cases (q n)) [
  | inl accepted ↦
      rw (accepted, ← h n)
        (rw accepted (ap (λ t. if p n then n ∷ t else t) (filter-filter p q r h ns)))
  | inr refused ↦ rw (refused, ← h n) (rw refused (filter-filter p q r h ns))
]

contains-append : (ns : List ℕ) (n m : ℕ) → contains (ns ++ n ∷ []) m ≡ (contains ns m || n == m)
unfolding contains
contains-append [] n m = ground arith
contains-append (x ∷ xs) n m = ground (arith, contains-append xs n m)

-- What a loop can still add to `acc`.
abbrev open_to : Entries → List ℕ → ℕ → Bool
open_to es acc m = has es m && not (contains acc m)

taken :
    (es : Entries) (acc : List ℕ) (n m : ℕ)
    → (not (n == m) && open_to es acc m) ≡ open_to es (acc ++ n ∷ []) m
taken es acc n m = ground (arith, contains-append acc n m)

skipped :
    (es : Entries) (acc : List ℕ) (n m : ℕ)
    → open_to es acc n ≡ false
    → (not (n == m) && open_to es acc m) ≡ open_to es acc m
skipped es acc n m closed = elim (Bool-cases (n == m)) [
  | inl same ↦
      let shut : open_to es acc m ≡ false =
        subst (λ (k : ℕ). open_to es acc k ≡ false) ((==_iff n m).0 same) closed in
      rw (same, shut)
  | inr other ↦ rw other
]

-- The loop over a list adds the first occurrences of what is open.
add_ordered_lem :
    (es : Entries) (ns acc : List ℕ)
    → add_ordered es ns acc ≡ acc ++ filter (open_to es acc) (distinct ns)
unfolding add_ordered add_number distinct filter
add_ordered_lem es [] acc = sym (append-nil acc)
add_ordered_lem es (n ∷ ns) acc = elim (Bool-cases (open_to es acc n)) [
  | inl accepted ↦ rw accepted (
      add_ordered_lem es ns (acc ++ n ∷ [])
      ∙ append_assoc acc (n ∷ []) (filter (open_to es (acc ++ n ∷ [])) (distinct ns))
      ∙ ap (λ t. acc ++ n ∷ t)
          (sym (
            filter-filter (open_to es acc) (λ m. not (n == m)) (open_to es (acc ++ n ∷ []))
              (taken es acc n) (distinct ns))))
  | inr refused ↦ rw refused (
      add_ordered_lem es ns acc
      ∙ ap (λ t. acc ++ t)
          (sym (
            filter-filter (open_to es acc) (λ m. not (n == m)) (open_to es acc)
              (λ m. skipped es acc n m refused) (distinct ns))))
]

add_others_lem :
    (es : Entries) (count i : ℕ) (acc : List ℕ)
    → add_others es count i acc ≡ add_ordered es (range count i) acc
unfolding add_others add_ordered range
add_others_lem es zero i acc = refl
add_others_lem es (suc count) i acc = add_others_lem es count (i + 1) (add_number es i acc)

add_ordered-append :
    (es : Entries) (ns ms acc : List ℕ)
    → add_ordered es (ns ++ ms) acc ≡ add_ordered es ms (add_ordered es ns acc)
unfolding add_ordered
add_ordered-append es [] ms acc = refl
add_ordered-append es (n ∷ ns) ms acc = add_ordered-append es ns ms (add_number es n acc)

filter_ext : (p q : ℕ → Bool) → ((m : ℕ) → p m ≡ q m) → (ns : List ℕ) → filter p ns ≡ filter q ns
unfolding filter
filter_ext p q h [] = refl
filter_ext p q h (n ∷ ns) = rw (h n) (ap (λ t. if q n then n ∷ t else t) (filter_ext p q h ns))

open_first : (es : Entries) (m : ℕ) → open_to es [] m ≡ has es m
unfolding contains
open_first es m = ground arith

-- What is wrong with an entry does not end the loop: it skips the entry.
keep_entry_ok :
    {P : LoadOption → Type 0} (n : ℕ) (es : Entries) {r : Result LoadOption}
    → Ensures P r
    → (es' : Entries) × (keep_entry n es r ≡ ok es')
unfolding keep_entry
keep_entry_ok n es (returns {a} h) = (insert n a es, refl)
keep_entry_ok n es fails = (es, refl)

module _ (io : Safeio) (laws : SafeioLaws io) where
  read_entry_ok : (v : Variable) (es : Entries) → (es' : Entries) × (read_entry io v es ≡ ok es')
  unfolding read_entry
  read_entry_ok v es = elim (Bool-cases (eq_guid v.guid efi_global_variable_guid)) [
    | inr away ↦ (es, rw away)
    | inl global ↦ elim (Option-cases (parse_boot_name v.name)) [
      | inl other ↦ (es, rw (global, other))
      | inr (n, number) ↦
          let (es', e) = keep_entry_ok n es (parse_load_option-Ensures io laws v.content) in
          (es', rw (global, number) e)
    ]
  ]

  read_entries_ok :
      (vars : List Variable) (es : Entries) → (es' : Entries) × (read_entries io vars es ≡ ok es')
  unfolding read_entries
  read_entries_ok [] es = (es, refl)
  read_entries_ok (v ∷ vars) es =
      let (es1, e1) = read_entry_ok v es in
      let (es2, e2) = read_entries_ok vars es1 in (es2, rw e1 e2)

  -- Where the boot order can be read, ListBootEntries succeeds, whatever the other variables hold,
  -- and the numbers that it lists are those of the boot order and then those from 0 to 65535, each
  -- at its first place, as far as there is an entry for them.
  pub list_boot_entries-order :
      {S : Type 0} (vs : VariableStore S) (s : S) (order : List ℕ)
      → boot_order vs s ≡ ok order
      → (es : Entries) × (list_boot_entries vs io s
          ≡ ok (es, filter (has es) (distinct (order ++ range 65536 0))))
  unfolding list_boot_entries
  list_boot_entries-order vs s order found =
      let (es, read) = read_entries_ok (vs.list s) [] in
      (
        es,
        ap
              (λ r. r >>= λ es'.
                boot_order vs s >>= λ o. ok (es', add_others es' 65536 0 (add_ordered es' o [])))
              read
            ∙ ap (λ r. r >>= λ o. ok (es, add_others es 65536 0 (add_ordered es o []))) found
            ∙ ap (λ t. ok (es, t)) (listed es order),
      )
    where
      listed :
          (es : Entries) (order : List ℕ)
          → add_others es 65536 0 (add_ordered es order [])
            ≡ filter (has es) (distinct (order ++ range 65536 0))
      listed es order =
          add_others_lem es 65536 0 (add_ordered es order [])
          ∙ sym (add_ordered-append es order (range 65536 0) [])
          ∙ add_ordered_lem es (order ++ range 65536 0) []
          ∙ filter_ext (open_to es []) (has es) (open_first es) (distinct (order ++ range 65536 0))
