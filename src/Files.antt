-- ===== src/Files.antt =====
-- filesystem.go: the store as a filesystem.Filesystem, a flat namespace of variables. The Stat and
-- DirEntry values of github.com/go-filesystems/interface are taken as the arguments that the source
-- builds them from; MkDir, DeleteDir and ReadLink only return an error.
pub mod Laws
use uefi.Base.{ℕ, ◌+◌, Bool, not, ◌&&◌, List, [], ◌∷◌, map, Bytes, eq_bytes, length}
use uefi.Base.{
  Result, ok, err, panic, out_of_fuel, guard, ◌>>=◌, ◌>>◌, not_exist, not_supported, if◌then◌else◌,
}
use uefi.Variable.{Guid, Variable}
use uefi.Store.{Session, get, set, delete, list}

-- DefaultNamespaceGUID, which is EFI_GLOBAL_VARIABLE_GUID.
abbrev pub default_namespace_guid : Guid
default_namespace_guid = record {
  b0 = 0x61;
  b1 = 0xdf;
  b2 = 0xe4;
  b3 = 0x8b;
  b4 = 0xca;
  b5 = 0x93;
  b6 = 0xd2;
  b7 = 0x11;
  b8 = 0xaa;
  b9 = 0x0d;
  b10 = 0x00;
  b11 = 0xe0;
  b12 = 0x98;
  b13 = 0x03;
  b14 = 0x2b;
  b15 = 0x8c;
}

-- AttrNonVolatile | AttrBootServiceAccess | AttrRuntimeAccess
abbrev pub default_attributes : ℕ
default_attributes = 0x00000007

-- ReadFile
unfoldable pub read_file : Session → Bytes → Result Bytes
read_file s path = do v ← get s path default_namespace_guid; ok v.content

-- WriteFile
unfoldable pub write_file : Session → Bytes → Bytes → Session × Result (Unit {0})
write_file s path content = set s (record {
  name = path;
  guid = default_namespace_guid;
  attributes = default_attributes;
  content = content;
})

-- DeleteFile
unfoldable pub delete_file : Session → Bytes → Session × Result (Unit {0})
delete_file s path = delete s path default_namespace_guid

-- The arguments of filesystem.NewDirEntry(0, v.Name, 8).
pub record DirEntry : Type 0 where
  pub inode : ℕ
  pub name : Bytes
  pub kind : ℕ

abbrev dir_entry : Variable → DirEntry
dir_entry v = record { inode = 0; name = v.name; kind = 8 }

-- ListDir
unfoldable pub list_dir : Session → Bytes → Result (List DirEntry)
list_dir s path =
    if not (eq_bytes path (b'/' ∷ [])) && not (eq_bytes path [])
    then err not_exist
    else ok (map dir_entry (list s))

-- The arguments of filesystem.NewStat(0o600, size, 0).
pub record Stat : Type 0 where
  pub mode : ℕ
  pub size : ℕ
  pub inode : ℕ

-- Stat
unfoldable pub stat : Session → Bytes → Result Stat
stat s path = do
  v ← get s path default_namespace_guid
  ok (record { mode = 0o600; size = length v.content; inode = 0 })

-- ReadLink, MkDir and DeleteDir
abbrev pub read_link : Session → Bytes → Result Bytes
read_link s path = err not_supported

abbrev pub mk_dir : Session → Bytes → Result (Unit {0})
mk_dir s path = err not_supported

abbrev pub delete_dir : Session → Bytes → Result (Unit {0})
delete_dir s path = err not_supported

-- The end of Rename: what Delete reports is dropped.
unfoldable pub drop_old : Bytes → Session × Result (Unit {0}) → Session × Result (Unit {0})
drop_old old_path (s, ok _) = ((delete s old_path default_namespace_guid).0, ok tt)
drop_old old_path (s, err e) = (s, err e)
drop_old old_path (s, panic) = (s, panic)
drop_old old_path (s, out_of_fuel) = (s, out_of_fuel)

unfoldable pub rename_found :
    Session → Bytes → Bytes → Result Variable → Session × Result (Unit {0})
unfolding drop_old
rename_found s old_path new_path (ok v) = drop_old old_path (set s (record v { name = new_path }))
rename_found s old_path new_path (err e) = (s, err e)
rename_found s old_path new_path panic = (s, panic)
rename_found s old_path new_path out_of_fuel = (s, out_of_fuel)

-- Rename
unfoldable pub rename : Session → Bytes → Bytes → Session × Result (Unit {0})
unfolding rename_found
rename s old_path new_path =
    rename_found s old_path new_path (get s old_path default_namespace_guid)
