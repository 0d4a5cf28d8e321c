-- ===== src/Boot.antt =====
-- bootvars.go: the boot manager's variables, over any VariableStore.
pub mod Names
pub mod Parsed
pub mod Free
pub mod Entries
pub mod Listing
pub mod Persisted
use uefi.Base.{
  ℕ, zero, suc, ◌+◌, ◌-◌, ◌*◌, ◌/◌, ◌%◌, Bool, true, false, ◌&&◌, ◌||◌, not, Option, none, some,
  List, [], ◌∷◌, ◌++◌, Bytes,
}
use uefi.Base.{
  Result, ok, err, panic, out_of_fuel, guard, ◌>>=◌, ◌>>◌, uint16, le16, take, drop, length, leb,
  ◌==◌, eq_bytes, if◌then◌else◌, bad_length, not_set, no_free_slot,
}
use uefi.Text.{get_units, put_units}
use uefi.Text.Utf8.{runes}
use uefi.Safeio.{Safeio}
use uefi.Variable.{Variable, eq_guid}
use uefi.VariableStore.{VariableStore, and_then}
use uefi.SecureBoot.{efi_global_variable_guid}
use uefi.LoadOption.{LoadOption, parse_load_option, marshal_load_option}

abbrev pub boot_var_attrs : ℕ
boot_var_attrs = 0x00000007

abbrev pub max_boot_entries : ℕ
max_boot_entries = 0x10000

-- "Boot", "BootOrder", "BootNext", "BootCurrent" and "Timeout"
abbrev pub boot_prefix : Bytes
boot_prefix = b'B' ∷ b'o' ∷ b'o' ∷ b't' ∷ []

abbrev pub boot_order_name : Bytes
boot_order_name = boot_prefix ++ b'O' ∷ b'r' ∷ b'd' ∷ b'e' ∷ b'r' ∷ []

abbrev pub boot_next_name : Bytes
boot_next_name = boot_prefix ++ b'N' ∷ b'e' ∷ b'x' ∷ b't' ∷ []

abbrev pub boot_current_name : Bytes
boot_current_name = boot_prefix ++ b'C' ∷ b'u' ∷ b'r' ∷ b'r' ∷ b'e' ∷ b'n' ∷ b't' ∷ []

abbrev pub timeout_name : Bytes
timeout_name = b'T' ∷ b'i' ∷ b'm' ∷ b'e' ∷ b'o' ∷ b'u' ∷ b't' ∷ []

unfoldable pub hex_digit : ℕ → ℕ
hex_digit d = if leb d 9 then 48 + d else 55 + d

-- bootName: "Boot%04X" of a uint16.
unfoldable pub boot_name : ℕ → Bytes
unfolding hex_digit
boot_name n =
    boot_prefix
    ++ hex_digit (n / 4096 % 16)
      ∷ hex_digit (n / 256 % 16)
      ∷ hex_digit (n / 16 % 16)
      ∷ hex_digit (n % 16)
      ∷ []

-- The `switch` of parseBootName.
unfoldable pub hex_value : ℕ → Option ℕ
hex_value c =
    if leb 48 c && leb c 57
    then some (c - 48)
    else if leb 65 c && leb c 70
    then some (c - 65 + 10)
    else none

-- Its loop. The low four bits of `n<<4` are clear, so `|` adds.
unfoldable pub hex_number : List ℕ → ℕ → Option ℕ
unfolding hex_value
hex_number [] n = some n
hex_number (c ∷ cs) n = elim (hex_value c) [
  | none ↦ none
  | some d ↦ hex_number cs (n * 16 % 65536 + d)
]

-- parseBootName
unfoldable pub parse_boot_name : Bytes → Option ℕ
unfolding hex_number
parse_boot_name name =
    if not (length name == 8) || not (eq_bytes (take 4 name) boot_prefix)
    then none
    else hex_number (runes (drop 4 name)) 0

-- A one-word variable's data: Uint16 of exactly two bytes.
unfoldable pub read_word : Bytes → Result ℕ
read_word bytes = do guard (length bytes == 2) bad_length; uint16 bytes

-- A UINT16 array.
unfoldable pub read_words : Bytes → Result (List ℕ)
read_words bytes = do guard (length bytes % 2 == 0) bad_length; ok (get_units bytes)

abbrev pub global_variable : Bytes → Bytes → Variable
global_variable name content = record {
  name = name;
  guid = efi_global_variable_guid;
  attributes = boot_var_attrs;
  content = content;
}

abbrev pub content_of : Result Variable → Option Bytes
content_of (ok v) = some v.content
content_of (err e) = none
content_of panic = none
content_of out_of_fuel = none

-- A missing variable is `none`, and any other is read.
abbrev pub read_if_set {ℓ} : {A : Type ℓ} → (Bytes → Result A) → Option Bytes → Result (Option A)
read_if_set read none = ok none
read_if_set read (some bytes) = read bytes >>= λ a. ok (some a)

-- The numbers of the Boot#### variables among `vars`.
unfoldable pub boot_numbers : List Variable → List ℕ
boot_numbers [] = []
boot_numbers (v ∷ vs) =
    let rest = boot_numbers vs in
    if eq_guid v.guid efi_global_variable_guid
    then elim (parse_boot_name v.name) [ none ↦ rest | some n ↦ n ∷ rest ]
    else rest

unfoldable pub contains : List ℕ → ℕ → Bool
contains [] n = false
contains (m ∷ ms) n = m == n || contains ms n

-- The loop for the first free number, over `count` numbers from `i` on.
unfoldable pub first_free : ℕ → ℕ → List ℕ → Option ℕ
first_free zero i used = none
first_free (suc count) i used =
    let rest = first_free count (i + 1) used in if contains used i then rest else some i

-- lowestFreeBootNum, over the store's list.
unfoldable pub lowest_free : List Variable → Option ℕ
lowest_free vars = first_free max_boot_entries 0 (boot_numbers vars)

module _ {S : Type 0} (vs : VariableStore S) where
  -- getGlobal and setGlobal
  abbrev pub get_global : S → Bytes → Option Bytes
  get_global s name = content_of (vs.get s name efi_global_variable_guid)

  abbrev pub set_global : S → Bytes → Bytes → S × Result (Unit {0})
  set_global s name content = vs.set s (global_variable name content)

  -- BootOrder: a missing variable is an empty order.
  unfoldable pub boot_order : S → Result (List ℕ)
  boot_order s = elim (get_global s boot_order_name) [
    | none ↦ ok []
    | some bytes ↦ read_words bytes
  ]

  -- SetBootOrder
  unfoldable pub set_boot_order : S → List ℕ → S × Result (Unit {0})
  set_boot_order s order = set_global s boot_order_name (put_units order)

  -- BootEntry
  unfoldable pub boot_entry : Safeio → S → ℕ → Result LoadOption
  boot_entry io s n = do
    v ← vs.get s (boot_name n) efi_global_variable_guid
    parse_load_option io v.content

  -- SetBootEntry
  unfoldable pub set_boot_entry : S → ℕ → LoadOption → S × Result (Unit {0})
  set_boot_entry s n lo =
      and_then (s, marshal_load_option lo) (λ s' bytes. set_global s' (boot_name n) bytes)

  -- DeleteBootEntry
  unfoldable pub delete_boot_entry : S → ℕ → S × Result (Unit {0})
  delete_boot_entry s n = vs.delete s (boot_name n) efi_global_variable_guid

  -- AddBootEntry
  unfoldable pub add_boot_entry : S → LoadOption → S × Result ℕ
  add_boot_entry s lo = elim (lowest_free (vs.list s)) [
    | none ↦ (s, err no_free_slot)
    | some n ↦ and_then (set_boot_entry s n lo) (λ s' _.
        and_then (s', boot_order s')
          (λ s'' order. and_then (set_boot_order s'' (order ++ n ∷ [])) (λ s''' _. (s''', ok n))))
  ]

  -- BootNext, SetBootNext and ClearBootNext
  unfoldable pub boot_next : S → Result (Option ℕ)
  boot_next s = read_if_set read_word (get_global s boot_next_name)

  unfoldable pub set_boot_next : S → ℕ → S × Result (Unit {0})
  set_boot_next s n = set_global s boot_next_name (le16 n)

  unfoldable pub clear_boot_next : S → S × Result (Unit {0})
  clear_boot_next s = elim (get_global s boot_next_name) [
    | none ↦ (s, ok tt)
    | some bytes ↦ vs.delete s boot_next_name efi_global_variable_guid
  ]

  -- BootCurrent and SetBootCurrent
  unfoldable pub boot_current : S → Result ℕ
  boot_current s = elim (get_global s boot_current_name) [
    | none ↦ err not_set
    | some bytes ↦ read_word bytes
  ]

  unfoldable pub set_boot_current : S → ℕ → S × Result (Unit {0})
  set_boot_current s n = set_global s boot_current_name (le16 n)

  -- Timeout and SetTimeout
  unfoldable pub timeout : S → Result (Option ℕ)
  timeout s = read_if_set read_word (get_global s timeout_name)

  unfoldable pub set_timeout : S → ℕ → S × Result (Unit {0})
  set_timeout s seconds = set_global s timeout_name (le16 seconds)
