-- ===== src/Examples.antt =====
-- Concrete data: a store of 256 bytes in a file, a variable and a load option.
pub mod Codecs
pub mod Stores
pub mod Managers
pub mod Writes
pub mod Histories
pub mod Listings
pub mod Texts
pub mod Sessions
use uefi.Base.{ℕ, arith, ◌≡◌, refl, some, none, Option, List, [], ◌∷◌, Bytes, eq_bytes, leb}
use uefi.Safeio.{plain_safeio, plain_safeio-laws}
use uefi.Text.Utf8.{string, encode_rune}
use uefi.Text.RoundTrip.{IsUtf8}
use uefi.Variable.{Variable, efi_variable_guid, IsStorable}
use uefi.Store.{Store, Session}
use uefi.Store.Flushed.{IsOpen}
use uefi.Store.Reopen.{calm, put}
use uefi.Format.{make_empty_store}
use uefi.Format.Fresh.{fresh_store, fresh_store-IsOpen}
use uefi.LoadOption.{LoadOption}
use uefi.LoadOption.Description.{IsDescription}

abbrev pub path : Bytes
path = b'v' ∷ []

abbrev pub image : Bytes
image = make_empty_store 256

abbrev pub files : Bytes → Option Bytes
files = put path image (λ _. none)

abbrev pub store : Store
store = fresh_store plain_safeio plain_safeio-laws path 256

abbrev pub session : Session
session = (store, calm files)

pub opened : IsOpen store image
opened = fresh_store-IsOpen plain_safeio plain_safeio-laws path 256 (omega arith) (omega arith)

pub there : files path ≡ some image
unfolding eq_bytes
there = refl

-- The variable "d" with three bytes of data.
abbrev pub variable : Variable
variable = record {
  name = b'd' ∷ [];
  guid = efi_variable_guid;
  attributes = 7;
  content = 1 ∷ 2 ∷ 3 ∷ [];
}

pub name-IsUtf8 : IsUtf8 (b'd' ∷ [])
unfolding string encode_rune
name-IsUtf8 = (b'd' ∷ [], (ground arith, tt), refl)

pub variable-IsStorable : IsStorable variable
variable-IsStorable = record { name_utf8 = name-IsUtf8; attributes_u32 = omega arith }

-- An option with the description "d" and one byte of optional data.
abbrev pub option : LoadOption
option = record {
  attributes = 1;
  description = b'd' ∷ [];
  device_path = [];
  optional_data = 7 ∷ [];
}

pub IsDescription-IsDescription : IsDescription (b'd' ∷ [])
unfolding string encode_rune
IsDescription-IsDescription = (b'd' ∷ [], ((ground arith, omega arith), tt), refl)
