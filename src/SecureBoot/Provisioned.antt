-- ===== src/SecureBoot/Provisioned.antt =====
-- secureboot.go: enrolling the Secure Boot keys in a store that is backed by a file.
use uefi.Base.{◌+◌, ◌<◌, ◌≤◌, ◌≡◌, refl, ap, ◌∙◌, List, [], ◌∷◌, Bytes, Option, some, arith, All}
use uefi.Base.{Result, ok, err, panic, out_of_fuel, length, eq_bytes_refl}
use uefi.Safeio.{Safeio, SafeioLaws}
use uefi.Text.Utf8.{string, encode_rune}
use uefi.Text.RoundTrip.{IsUtf8}
use uefi.Variable.{Variable, IsStorable, u32_mod}
use uefi.VariableStore.{and_then}
use uefi.Store.{Session, Store, Limits, resolve, open_limits, set}
use uefi.Store.Map.{store_operations}
use uefi.Store.Flushed.{IsOpen, Fits, flushed, flushed-IsOpen}
use uefi.Store.Reopen.{calm, put, set_reopens}
use uefi.Store.Saved.{added, added-IsStorable, set_ok}
use uefi.SecureBoot.SignatureList.{signature_list, build_efi_signature_list_lem}
use uefi.SecureBoot.{
  efi_global_variable_guid, SecureBootKeys, Entry, key_variable, db_entry, kek_entry, pk_entry,
  enroll_one, enroll_all, enroll_secure_boot_keys, db_name, kek_name, pk_name,
}

-- The variable of an entry, with the signature list of its certificate.
abbrev pub list_variable : Entry → Variable
list_variable e = key_variable e (signature_list efi_global_variable_guid e.cert)

list_variable-IsStorable : (e : Entry) → IsUtf8 e.name → IsStorable (list_variable e)
list_variable-IsStorable e h = record { name_utf8 = h; attributes_u32 = omega arith }

pub db_name-IsUtf8 : IsUtf8 db_name
unfolding string encode_rune
db_name-IsUtf8 = (db_name, (ground arith, (ground arith, tt)), refl)

kek_name-IsUtf8 : IsUtf8 kek_name
unfolding string encode_rune
kek_name-IsUtf8 = (kek_name, (ground arith, (ground arith, (ground arith, tt))), refl)

pk_name-IsUtf8 : IsUtf8 pk_name
unfolding string encode_rune
pk_name-IsUtf8 = (pk_name, (ground arith, (ground arith, tt)), refl)

-- enrolOne of a certificate whose list size is a uint32.
enroll_one_lem :
    (t : Session) (e : Entry)
    → 44 + length e.cert < u32_mod
    → enroll_one store_operations t e ≡ set t (list_variable e)
enroll_one_lem t e small = rw (build_efi_signature_list_lem efi_global_variable_guid e.cert small)

enroll_all_next :
    (t t' : Session) (e : Entry) (es : List Entry)
    → 44 + length e.cert < u32_mod
    → set t (list_variable e) ≡ (t', ok tt)
    → enroll_all store_operations t (e ∷ es) ≡ enroll_all store_operations t' es
unfolding enroll_all
enroll_all_next t t' e es small h =
    ap (λ m. and_then m (λ s' _. enroll_all store_operations s' es)) (enroll_one_lem t e small ∙ h)

and_then_last : (m : Session × Result (Unit {0})) → m.1 ≡ ok tt → and_then m (λ t _. (t, ok tt)) ≡ m
and_then_last (t, ok tt) h = refl
and_then_last (t, err e) h = cc
and_then_last (t, panic) h = cc
and_then_last (t, out_of_fuel) h = cc

enroll_all_last :
    (t : Session) (e : Entry)
    → 44 + length e.cert < u32_mod
    → (set t (list_variable e)).1 ≡ ok tt
    → enroll_all store_operations t (e ∷ []) ≡ set t (list_variable e)
unfolding enroll_all
enroll_all_last t e small h =
    ap (λ m. and_then m (λ s' _. (s', ok tt))) (enroll_one_lem t e small)
    ∙ and_then_last (set t (list_variable e)) h

module _ (io : Safeio) (laws : SafeioLaws io) (lim : Limits) (s : Store) (orig : Bytes)
    (files : Bytes → Option Bytes) (keys : SecureBootKeys) where
  abbrev pub with_db : List Variable
  with_db = added (list_variable (db_entry keys)) s.vars

  abbrev pub with_kek : List Variable
  with_kek = added (list_variable (kek_entry keys)) with_db

  abbrev pub with_keys : List Variable
  with_keys = added (list_variable (pk_entry keys)) with_kek

  -- On a disk whose calls work, where each of the three steps fits in a store of storable
  -- variables that belongs to its file, with at most the limit of variables at the end, and where
  -- the signature list of each certificate, which is 44 bytes longer than it, is shorter than
  -- 2^32, EnrollSecureBootKeys succeeds, and opening the file again gives the other variables and
  -- then db, KEK and PK, each with the signature list of its certificate.
  pub enroll_secure_boot_keys_reopens :
      s.lim ≡ resolve lim
      → IsOpen s orig
      → files s.path ≡ some orig
      → All IsStorable s.vars
      → 44 + length keys.db < u32_mod
      → 44 + length keys.kek < u32_mod
      → 44 + length keys.pk < u32_mod
      → Fits with_db s
      → Fits with_kek s
      → Fits with_keys s
      → length with_keys ≤ s.lim.max_variables
      → let t = enroll_secure_boot_keys store_operations (s, calm files) keys in
        (t.1 ≡ ok tt) × ((open_limits io s.path lim t.0.1).0 ≡ ok (record s { vars = with_keys }))
  unfolding enroll_secure_boot_keys enroll_all
  enroll_secure_boot_keys_reopens resolved opened there storable small1 small2 small3 fits1 fits2
        fits3 count =
      let s1 : Store = record s { vars = with_db } in
      let s2 : Store = record s { vars = with_kek } in
      let orig1 = flushed with_db s orig in
      let orig2 = flushed with_kek s orig1 in
      let files1 = put s.path orig1 files in
      let files2 = put s.path orig2 files1 in
      let opened1 : IsOpen s1 orig1 = flushed-IsOpen s orig opened with_db fits1 in
      let opened2 : IsOpen s2 orig2 = flushed-IsOpen s1 orig1 opened1 with_kek fits2 in
      let there1 : files1 s.path ≡ some orig1 = put_there s.path orig1 files in
      let there2 : files2 s.path ≡ some orig2 = put_there s.path orig2 files1 in
      let (done, reopened) =
        set_reopens s2 orig2 opened2 files2 there2 io laws lim resolved
          (list_variable (pk_entry keys)) (list_variable-IsStorable (pk_entry keys) pk_name-IsUtf8)
          (added-IsStorable (list_variable (kek_entry keys)) with_db
            (list_variable-IsStorable (kek_entry keys) kek_name-IsUtf8)
            (added-IsStorable (list_variable (db_entry keys)) s.vars
              (list_variable-IsStorable (db_entry keys) db_name-IsUtf8) storable))
          fits3 count in
      let whole : enroll_secure_boot_keys store_operations (s, calm files) keys
          ≡ set (s2, calm files2) (list_variable (pk_entry keys)) =
        enroll_all_next (s, calm files) (s1, calm files1) (db_entry keys)
          (kek_entry keys ∷ pk_entry keys ∷ []) small1
          (set_ok s orig opened files there (list_variable (db_entry keys)) fits1)
        ∙ enroll_all_next (s1, calm files1) (s2, calm files2) (kek_entry keys) (pk_entry keys ∷ [])
            small2 (set_ok s1 orig1 opened1 files1 there1 (list_variable (kek_entry keys)) fits2)
        ∙ enroll_all_last (s2, calm files2) (pk_entry keys) small3 done in
      (ap (λ t. t.1) whole ∙ done, ap (λ t. (open_limits io s.path lim t.0.1).0) whole ∙ reopened)
    where
      put_there :
          (path content : Bytes) (fs : Bytes → Option Bytes)
          → put path content fs path ≡ some content
      put_there path content fs = rw (eq_bytes_refl path)
