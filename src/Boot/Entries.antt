-- ===== src/Boot/Entries.antt =====
-- bootvars.go: the boot order and the boot entries, over any store that keeps the laws of VariableStore.
use uefi.Base.{
  ℕ, ◌%◌, ◌<◌, ◌≤◌, ◌^◌, ◌≡◌, sym, ap, subst, ◌∙◌, true, Option, some, none, List, [], ◌∷◌, ◌++◌,
  Bytes, arith, All, length, ◌==◌, Option-cases, inl, inr,
}
use uefi.Base.{Result, ok, err, no_free_slot, not_exist, le16, uint16-le16}
use uefi.Text.{put_units}
use uefi.Text.RoundTrip.{get_units-put_units, length-put_units}
use uefi.Safeio.{Safeio, SafeioLaws}
use uefi.VariableStore.{VariableStore, VariableStoreLaws, and_then, and_then-ok, Differs}
use uefi.Store.{find_var}
use uefi.SecureBoot.{efi_global_variable_guid}
use uefi.LoadOption.{LoadOption, marshal_load_option, max_load_option_bytes}
use uefi.LoadOption.Description.{IsDescription}
use uefi.LoadOption.RoundTrip.{parse_load_option-marshal_load_option}
use uefi.Boot.{
  boot_name, boot_order_name, boot_next_name, global_variable, get_global, set_global, boot_order,
  set_boot_order, boot_entry, set_boot_entry, add_boot_entry, lowest_free, boot_next, set_boot_next,
  clear_boot_next, read_words, read_word,
}
use uefi.Boot.Names.{eq_bytes_ne}
use uefi.Boot.Free.{IsLowest, lowest_free_lem}

-- The words of a boot order.
abbrev pub IsOrder : List ℕ → Type 0
IsOrder order = All (λ n. n < 65536) order

IsOrder-snoc : (order : List ℕ) (n : ℕ) → IsOrder order → n < 65536 → IsOrder (order ++ n ∷ [])
IsOrder-snoc [] n h k = (k, tt)
IsOrder-snoc (m ∷ ms) n (h, hs) k = (h, IsOrder-snoc ms n hs k)

read_words-put_units : (order : List ℕ) → IsOrder order → read_words (put_units order) ≡ ok order
unfolding read_words
read_words-put_units order h =
    let even : (length (put_units order) % 2 == 0) ≡ true =
      rw (length-put_units order) (ground arith) in
    rw (even, get_units-put_units order h)

-- BootOrder is no name of an entry.
order-Differs :
    (n : ℕ)
    → Differs (boot_name n) efi_global_variable_guid boot_order_name efi_global_variable_guid
unfolding boot_name
order-Differs n = rw (eq_bytes_ne (boot_name n) boot_order_name (λ e. omega arith))

order-Differs' :
    (n : ℕ)
    → Differs boot_order_name efi_global_variable_guid (boot_name n) efi_global_variable_guid
unfolding boot_name
order-Differs' n = rw (eq_bytes_ne boot_order_name (boot_name n) (λ e. omega arith))

module _ {S : Type 0} (vs : VariableStore S) (laws : VariableStoreLaws vs) where
  get-set_global :
      (s : S) (name content : Bytes)
      → (set_global vs s name content).1 ≡ ok tt
      → vs.get (set_global vs s name content).0 name efi_global_variable_guid
        ≡ ok (global_variable name content)
  get-set_global s name content h = laws.get-set_self s (global_variable name content) h

  -- After a successful SetBootOrder, BootOrder gives the order that was set.
  pub boot_order-set_boot_order :
      (s : S) (order : List ℕ)
      → IsOrder order
      → (set_boot_order vs s order).1 ≡ ok tt
      → boot_order vs (set_boot_order vs s order).0 ≡ ok order
  unfolding set_boot_order boot_order
  boot_order-set_boot_order s order words h =
      rw (boot_order, set_boot_order, get-set_global s boot_order_name (put_units order) h)
        (read_words-put_units order words)

  -- After a successful SetBootEntry, BootEntry gives the entry that was set, where its bytes are
  -- within the ceiling of ParseLoadOption.
  pub boot_entry-set_boot_entry :
      (io : Safeio)
      → SafeioLaws io
      → (s : S) (n : ℕ) (lo : LoadOption) (buf : Bytes) → lo.attributes < 2 ^ 32
      → IsDescription lo.description
      → marshal_load_option lo ≡ ok buf
      → length buf ≤ max_load_option_bytes
      → (set_boot_entry vs s n lo).1 ≡ ok tt
      → boot_entry vs io (set_boot_entry vs s n lo).0 n ≡ ok lo
  unfolding boot_entry set_boot_entry
  boot_entry-set_boot_entry io slaws s n lo buf attrs desc e small h = rw e (
      rw (get-set_global s (boot_name n) buf (rw e at h))
        (parse_load_option-marshal_load_option io slaws lo buf attrs desc e small))

  -- After a successful SetBootNext of a uint16, BootNext gives the number that was set.
  pub boot_next-set_boot_next :
      (s : S) (n : ℕ)
      → n < 65536
      → (set_boot_next vs s n).1 ≡ ok tt
      → boot_next vs (set_boot_next vs s n).0 ≡ ok (some n)
  unfolding boot_next set_boot_next read_word
  boot_next-set_boot_next s n small h =
      rw (get-set_global s boot_next_name (le16 n) h) (rw (uint16-le16 n [] (omega arith)))

  -- After a successful ClearBootNext, BootNext is not set.
  pub boot_next-clear_boot_next :
      (s : S) → (clear_boot_next vs s).1 ≡ ok tt → boot_next vs (clear_boot_next vs s).0 ≡ ok none
  unfolding clear_boot_next boot_next
  boot_next-clear_boot_next s h = elim (Option-cases (get_global vs s boot_next_name)) [
    | inl unset ↦ rw (clear_boot_next, unset, boot_next, unset)
    | inr (bytes, found) ↦ rw (
      clear_boot_next,
      found,
      boot_next,
      laws.get-delete_self s boot_next_name efi_global_variable_guid
          (rw (clear_boot_next, found) at h),
    )
  ]

  -- What AddBootEntry did when it succeeded: it wrote the entry, then the longer order.
  abbrev pub Added : S → LoadOption → S → ℕ → Type 0
  Added s lo s' n =
      (n < 65536)
      × (find_var (vs.list s) (boot_name n) efi_global_variable_guid ≡ err not_exist)
      × ((set_boot_entry vs s n lo).1 ≡ ok tt)
      × (order : List ℕ) × (boot_order vs (set_boot_entry vs s n lo).0 ≡ ok order)
      × ((set_boot_order vs (set_boot_entry vs s n lo).0 (order ++ n ∷ [])).1 ≡ ok tt)
      × ((set_boot_order vs (set_boot_entry vs s n lo).0 (order ++ n ∷ [])).0 ≡ s')

  add_at :
      (s : S) (lo : LoadOption) (s' : S) (n : ℕ) (r : Option ℕ)
      → IsLowest (vs.list s) r
      → elim r as (λ _. S × Result ℕ) [
        | none ↦ (s, err no_free_slot)
        | some m ↦ and_then (set_boot_entry vs s m lo) (λ s1 _.
            and_then
              (s1, boot_order vs s1)
              (λ s2 order. and_then (set_boot_order vs s2 (order ++ m ∷ [])) (λ s3 _. (s3, ok m))))
      ]
        ≡ (s', ok n)
      → Added s lo s' n
  add_at s lo s' n none h e = cc
  add_at s lo s' n (some m) (small, missing, below) e =
      let (_, e1, h1) = and_then-ok (set_boot_entry vs s m lo) _ e in
      let (order, e2, h2) =
        and_then-ok ((set_boot_entry vs s m lo).0, boot_order vs (set_boot_entry vs s m lo).0) _
          h1 in
      let (_, e3, h3) =
        and_then-ok (set_boot_order vs (set_boot_entry vs s m lo).0 (order ++ m ∷ [])) _ h2 in
      let same : m ≡ n = cc in
      subst (λ (k : ℕ). Added s lo s' k) same (small, missing, e1, order, e2, e3, ap (λ r. r.0) h3)

  pub add_boot_entry-Added :
      (s : S) (lo : LoadOption) (s' : S) (n : ℕ)
      → add_boot_entry vs s lo ≡ (s', ok n)
      → Added s lo s' n
  unfolding add_boot_entry
  add_boot_entry-Added s lo s' n e =
      add_at s lo s' n (lowest_free (vs.list s)) (lowest_free_lem (vs.list s)) e

  boot_order-set_boot_entry :
      (s : S) (n : ℕ) (lo : LoadOption) (buf : Bytes)
      → marshal_load_option lo ≡ ok buf
      → (set_boot_entry vs s n lo).1 ≡ ok tt
      → boot_order vs (set_boot_entry vs s n lo).0 ≡ boot_order vs s
  unfolding boot_order set_boot_entry
  boot_order-set_boot_entry s n lo buf e h = rw (
    e,
    boot_order,
    laws.get-set_other s (global_variable (boot_name n) buf) boot_order_name
        efi_global_variable_guid (rw e at h) (order-Differs n),
  )

  boot_entry-set_boot_order :
      (io : Safeio) (s : S) (n : ℕ) (order : List ℕ)
      → (set_boot_order vs s order).1 ≡ ok tt
      → boot_entry vs io (set_boot_order vs s order).0 n ≡ boot_entry vs io s n
  unfolding boot_entry set_boot_order
  boot_entry-set_boot_order io s n order h = rw (
      laws.get-set_other s (global_variable boot_order_name (put_units order)) (boot_name n)
        efi_global_variable_guid h (order-Differs' n))

  -- A successful AddBootEntry of an option with uint32 attributes and a description of valid UTF-8
  -- without NUL, which Marshal encodes within the ceiling, over any store that keeps the laws and
  -- has a readable boot order of uint16 numbers, returns a uint16 whose variable was missing,
  -- under which the store then has the option, and which is then appended to the boot order that
  -- was read before.
  pub add_boot_entry_lem :
      (io : Safeio)
      → SafeioLaws io
      → (s : S) (lo : LoadOption) (buf : Bytes) (order : List ℕ) (s' : S) (n : ℕ)
      → lo.attributes < 2 ^ 32
      → IsDescription lo.description
      → marshal_load_option lo ≡ ok buf
      → length buf ≤ max_load_option_bytes
      → boot_order vs s ≡ ok order
      → IsOrder order
      → add_boot_entry vs s lo ≡ (s', ok n)
      → (n < 65536)
        × (vs.get s (boot_name n) efi_global_variable_guid ≡ err not_exist)
        × (boot_entry vs io s' n ≡ ok lo)
        × (boot_order vs s' ≡ ok (order ++ n ∷ []))
  add_boot_entry_lem io slaws s lo buf order s' n attrs desc e small before words h =
      let (n_small, missing, wrote, order', read, ordered, end) =
        add_boot_entry-Added s lo s' n h in
      let same : order' ≡ order =
        cc (sym read ∙ boot_order-set_boot_entry s n lo buf e wrote ∙ before) in
      let longer : IsOrder (order' ++ n ∷ []) = rw same (IsOrder-snoc order n words n_small) in
      (
        n_small,
        laws.get_list s (boot_name n) efi_global_variable_guid ∙ missing,
        subst (λ (t : S). boot_entry vs io t n ≡ ok lo) end
            (boot_entry-set_boot_order io _ n _ ordered
              ∙ boot_entry-set_boot_entry io slaws s n lo buf attrs desc e small wrote),
        subst (λ (t : S). boot_order vs t ≡ ok (order ++ n ∷ [])) end
            (boot_order-set_boot_order _ (order' ++ n ∷ []) longer ordered
              ∙ ap (λ o. ok (o ++ n ∷ [])) same),
      )
