-- ===== src/Boot/Persisted.antt =====
-- bootvars.go: AddBootEntry in a store that is backed by a file.
use uefi.Base.{
  ℕ, ◌/◌, ◌%◌, ◌^◌, ◌<◌, ◌≤◌, ◌≡◌, refl, sym, ap, subst, ◌∙◌, List, [], ◌∷◌, ◌++◌, Bytes, Option,
  some, arith, All,
}
use uefi.Base.{ok, length}
use uefi.Safeio.{Safeio, SafeioLaws}
use uefi.Text.Utf8.{IsScalar, string}
use uefi.Text.RoundTrip.{IsUtf8, encode_rune_one}
use uefi.Variable.{IsStorable}
use uefi.Store.{Store, Session, Limits, resolve, open_limits, set}
use uefi.Store.Map.{store_operations, store_operations-laws}
use uefi.Store.Flushed.{IsOpen}
use uefi.Store.Reopen.{calm}
use uefi.Store.Saved.{set_twice_reopens}
use uefi.LoadOption.{LoadOption, marshal_load_option, max_load_option_bytes}
use uefi.LoadOption.Description.{IsDescription}
use uefi.Text.{put_units}
use uefi.Boot.{
  boot_name, boot_order_name, global_variable, set_boot_entry, set_boot_order, boot_order,
  boot_entry, add_boot_entry,
}
use uefi.Boot.Names.{hex_digit-lt}
use uefi.Boot.Entries.{IsOrder, add_boot_entry-Added, add_boot_entry_lem}

string_ascii : (bs : Bytes) → All (λ b. b < 128) bs → string bs ≡ bs
unfolding string
string_ascii [] h = refl
string_ascii (b ∷ bs) (h, hs) = rw (encode_rune_one b h, string_ascii bs hs)

ascii-IsUtf8 : (bs : Bytes) → All (λ b. b < 128) bs → IsUtf8 bs
ascii-IsUtf8 bs h = (bs, all_scalars bs h, sym (string_ascii bs h))
  where
    all_scalars : (bs : Bytes) → All (λ b. b < 128) bs → All IsScalar bs
    all_scalars [] h = tt
    all_scalars (b ∷ bs) (h, hs) = (ground arith, all_scalars bs hs)

boot_name_ascii : (n : ℕ) → All (λ b. b < 128) (boot_name n)
unfolding boot_name
boot_name_ascii n = (
  omega arith,
  (
    omega arith,
    (
      omega arith,
      (
        omega arith,
        (
          hex_digit-lt (n / 4096 % 16) (omega arith),
          (
            hex_digit-lt (n / 256 % 16) (omega arith),
            (hex_digit-lt (n / 16 % 16) (omega arith), (hex_digit-lt (n % 16) (omega arith), tt)),
          ),
        ),
      ),
    ),
  ),
)

global_variable-IsStorable :
    (name content : Bytes) → All (λ b. b < 128) name → IsStorable (global_variable name content)
global_variable-IsStorable name content h = record {
  name_utf8 = ascii-IsUtf8 name h;
  attributes_u32 = omega arith;
}

module _ (io : Safeio) (laws : SafeioLaws io) (lim : Limits) (s : Store) (orig : Bytes)
    (files : Bytes → Option Bytes) where
  -- After a successful AddBootEntry of an option with uint32 attributes and a description of valid
  -- UTF-8 without NUL, which Marshal encodes within the ceiling, in a store of storable variables
  -- that belongs to its file and has a readable boot order of uint16 numbers, on a disk whose
  -- calls work, with at most the limit of variables afterwards, the store that OpenLimits finds in
  -- the file has the option under the number returned, and the boot order that was read before
  -- with that number behind it.
  pub add_boot_entry_reopens :
      s.lim ≡ resolve lim
      → IsOpen s orig
      → files s.path ≡ some orig
      → All IsStorable s.vars
      → (lo : LoadOption) (buf : Bytes) (order : List ℕ) (t : Session) (n : ℕ)
      → lo.attributes < 2 ^ 32
      → IsDescription lo.description
      → marshal_load_option lo ≡ ok buf
      → length buf ≤ max_load_option_bytes
      → boot_order store_operations (s, calm files) ≡ ok order
      → IsOrder order
      → add_boot_entry store_operations (s, calm files) lo ≡ (t, ok n)
      → length t.0.vars ≤ s.lim.max_variables
      → (s' : Store) × ((open_limits io s.path lim t.1).0 ≡ ok s')
        × (boot_entry store_operations io (s', t.1) n ≡ ok lo)
        × (boot_order store_operations (s', t.1) ≡ ok (order ++ n ∷ []))
  add_boot_entry_reopens resolved opened there storable lo buf order t n attrs desc e small before
        words h count =
      let (_, _, here, last) =
        add_boot_entry_lem store_operations store_operations-laws io laws (s, calm files) lo buf
          order t n attrs desc e small before words h in
      (t.0, saved, here, last)
    where
      saved : (open_limits io s.path lim t.1).0 ≡ ok t.0
      saved =
          let (_, _, wrote, order', _, ordered, end) =
            add_boot_entry-Added store_operations store_operations-laws (s, calm files) lo t n h in
          let v = global_variable (boot_name n) buf in
          let w = global_variable boot_order_name (put_units (order' ++ n ∷ [])) in
          let entry : set_boot_entry store_operations (s, calm files) n lo ≡ set (s, calm files) v =
            unfold set_boot_entry in rw e in
          let ordered' : set_boot_order store_operations
                (set_boot_entry store_operations (s, calm files) n lo).0 (order' ++ n ∷ [])
              ≡ set (set (s, calm files) v).0 w =
            unfold set_boot_order in ap (λ m. set m.0 w) entry in
          let last : (set (set (s, calm files) v).0 w).0 ≡ t = sym (ap (λ m. m.0) ordered') ∙ end in
          let wrote' : (set (s, calm files) v).1 ≡ ok tt = sym (ap (λ m. m.1) entry) ∙ wrote in
          let done : (set (set (s, calm files) v).0 w).1 ≡ ok tt =
            sym (ap (λ m. m.1) ordered') ∙ ordered in
          let kept =
            set_twice_reopens io laws lim s orig files v w resolved opened there storable
              (global_variable-IsStorable (boot_name n) buf (boot_name_ascii n))
              (global_variable-IsStorable boot_order_name _ (ground arith)) wrote' done
              (subst (λ (x : Session). length x.0.vars ≤ s.lim.max_variables) (sym last) count) in
          subst (λ (x : Session). (open_limits io s.path lim x.1).0 ≡ ok x.0) last kept
