-- ===== src/Examples/Histories.antt =====
-- The theorems on sequences of operations, and on the limit, at the store of 256 bytes.
use uefi.Base.{arith, ◌≡◌, ◌<◌, ◌≤◌, refl, ok, err, too_large, List, [], ◌∷◌, ◌++◌, length}
use uefi.Safeio.{plain_safeio, plain_safeio-laws}
use uefi.Base.{copy_at, eq_bytes}
use uefi.Text.{encode_utf16le, put_units}
use uefi.Text.Utf8.{runes, runes_from, decode_rune}
use uefi.Text.Utf16.{utf16_encode}
use uefi.Variable.{Variable, efi_authenticated_variable_guid, IsStorable}
use uefi.VariableStore.{IsMap}
use uefi.Record.{encode_variable, encode_header, align_up, pad_bytes}
use uefi.Walk.{serialize_vars}
use uefi.Disk.{works, refused, read_store_file, read_within, write_file, write_as}
use uefi.Store.{
  Store, Session, Limits, resolve, open_limits, commit, rewrite, build_store, erase, get, find_var,
  others, set, flush, list, delete,
}
use uefi.Store.Flushed.{IsOpen, Fits}
use uefi.Store.Reopen.{calm}
use uefi.Store.Distinct.{set-delete-IsMap}
use uefi.Store.Sound.{Sound}
use uefi.Store.Steps.{Reach, here, next, set_step, disk_step, Reach-Sound}
use uefi.Store.Recovered.{recovered_set_reopens}
use uefi.Store.Limit.{set_beyond_limit}
use uefi.Format.{make_empty_store}
use uefi.Examples.{
  path, image, files, store, session, opened, there, variable, variable-IsStorable, name-IsUtf8,
}

session-Sound : Sound store session
session-Sound = record {
  same_store = refl;
  storable = tt;
  whole = tt;
  file = image;
  there = there;
  belongs = opened;
}

-- The disk is about to refuse a write, and then a Set fails.
abbrev refusing : Session
refusing = (store, record { files = files; fates = works ∷ refused ∷ [] })

abbrev failed : Session
failed = (set refusing variable).0

failed-Reach : Reach session failed
failed-Reach =
    next (next here (disk_step (works ∷ refused ∷ []) (tt, (tt, tt)) refl))
      (set_step variable variable-IsStorable refl)

Reach-Sound_example : Sound store failed
Reach-Sound_example = Reach-Sound store session-Sound failed-Reach

abbrev no_limits : Limits
no_limits = record { max_file_size = 0; max_variables = 0 }

store-resolved : store.lim ≡ resolve no_limits
unfolding resolve
store-resolved = refl

-- The failed Set left the variable in memory and nothing to come on the disk.
failed_vars : failed.0.vars ≡ variable ∷ []
unfolding set eq_bytes copy_at put_units encode_utf16le runes runes_from decode_rune utf16_encode
    encode_variable encode_header align_up pad_bytes serialize_vars read_store_file read_within
    write_file write_as commit rewrite build_store erase get find_var others flush list
    make_empty_store
failed_vars = refl

failed_quiet : failed.1.fates ≡ []
unfolding set eq_bytes copy_at put_units encode_utf16le runes runes_from decode_rune utf16_encode
    encode_variable encode_header align_up pad_bytes serialize_vars read_store_file read_within
    write_file write_as commit rewrite build_store erase get find_var others flush list
    make_empty_store
failed_quiet = refl

abbrev again : List Variable
again = others variable.name variable.guid failed.0.vars ++ variable ∷ []

again-Fits : Fits again failed.0
unfolding set eq_bytes copy_at put_units encode_utf16le runes runes_from decode_rune utf16_encode
    encode_variable encode_header align_up pad_bytes serialize_vars read_store_file read_within
    write_file write_as commit rewrite build_store erase get find_var others flush list
    make_empty_store
again-Fits = omega arith

again-few : length again ≤ 65536
unfolding set eq_bytes copy_at put_units encode_utf16le runes runes_from decode_rune utf16_encode
    encode_variable encode_header align_up pad_bytes serialize_vars read_store_file read_within
    write_file write_as commit rewrite build_store erase get find_var others flush list
    make_empty_store
again-few = omega arith

recovered_set_reopens_example :
    ((set failed variable).1 ≡ ok tt)
    × ((open_limits plain_safeio path no_limits (set failed variable).0.1).0
        ≡ ok (record store { vars = again }))
recovered_set_reopens_example =
    recovered_set_reopens plain_safeio plain_safeio-laws no_limits session failed variable
      store-resolved session-Sound failed-Reach failed_quiet variable-IsStorable again-Fits
      again-few

-- A store that is to hold one variable at most.
abbrev one_limit : Limits
one_limit = record { max_file_size = 0; max_variables = 1 }

abbrev narrow : Store
narrow = record store { lim = resolve one_limit; vars = variable ∷ [] }

narrow-IsOpen : IsOpen narrow image
unfolding resolve
narrow-IsOpen = record {
  laid_out = opened.laid_out;
  within_limit = opened.within_limit;
  limit_int64 = opened.limit_int64;
  room_in_u32 = opened.room_in_u32;
}

abbrev second : Variable
second = record variable { attributes = 6; guid = efi_authenticated_variable_guid }

second-IsStorable : IsStorable second
second-IsStorable = record { name_utf8 = name-IsUtf8; attributes_u32 = omega arith }

abbrev both : List Variable
both = others second.name second.guid narrow.vars ++ second ∷ []

both-Fits : Fits both narrow
unfolding others eq_bytes serialize_vars encode_variable encode_header pad_bytes align_up copy_at
    encode_utf16le runes runes_from decode_rune utf16_encode put_units
both-Fits = omega arith

both-many : narrow.lim.max_variables < length both
unfolding others eq_bytes resolve
both-many = omega arith

set_beyond_limit_example :
    ((set (narrow, calm files) second).1 ≡ ok tt)
    × ((open_limits plain_safeio path one_limit (set (narrow, calm files) second).0.1).0
        ≡ err too_large)
set_beyond_limit_example =
    set_beyond_limit plain_safeio plain_safeio-laws one_limit narrow image files second refl
      narrow-IsOpen there second-IsStorable (variable-IsStorable, tt) both-Fits both-many

-- The session after a Set of the variable.
abbrev holding : Session
holding = (set session variable).0

holding-IsMap : IsMap (list holding)
unfolding set eq_bytes copy_at put_units encode_utf16le runes runes_from decode_rune utf16_encode
    encode_variable encode_header align_up pad_bytes serialize_vars read_store_file read_within
    write_file write_as commit rewrite build_store erase get find_var others flush list
    make_empty_store
holding-IsMap = (refl, tt)

set-delete-IsMap_example :
    IsMap (list (set holding second).0)
    × IsMap (list (delete holding variable.name variable.guid).0)
set-delete-IsMap_example = set-delete-IsMap holding second variable.name variable.guid holding-IsMap
