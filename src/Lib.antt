-- ===== src/Lib.antt =====
-- A model of the Go package filesystem_uefi, which reads and writes UEFI variable stores (NvVar
-- files), and of the boot manager and Secure Boot code that stands on it.
--
-- The files and the code they are about:
--   Base, Base/*          lists, tests, byte buffers and encoding/binary, and the type of results:
--                         a value, an error, a panic, or (in the model only) no fuel left
--   Text, Text/*          uefi.go, EncodeUTF16LE and DecodeUTF16LE, over UTF-8 and UTF-16
--   Safeio                the functions of github.com/go-volumes/safeio, as a record of parameters
--                         with the laws that its documentation gives
--   Variable              uefi.go, the constants, GUID and Variable
--   Record, Record/*      uefi.go, parseOneVariable, encodeVariable, alignUp and padBytes
--   Walk, Walk/*          uefi.go, parseVariables and serializeVars
--   Disk                  os.Open, Stat, ReadAll and os.WriteFile as the store uses them: a disk
--                         has files and the fates of the calls to come; readStoreFile
--   Store, Store/*        uefi.go, Open, OpenLimits, Limits, buildStore, flush, List, Get, Set, Delete
--   VariableStore         uefi.go, the interface VariableStore, with the laws its clients rely on
--   DevicePath, DevicePath/*  devicepath.go, the parser and the writer of node lists, and the typed
--                         views of file paths and hard drives; DevicePath/PathText is the text form
--   LoadOption, LoadOption/*  bootvars.go, ParseLoadOption and Marshal
--   Boot, Boot/*          bootvars.go, the variables of the boot manager, over any VariableStore;
--                         Boot/Listing is ListBootEntries
--   Format, Format/*      format.go, Format and makeEmptyStore; Format/Ovmf is FormatOVMF and
--                         makeEmptyOVMFStore
--   Pkcs7                 authwrite.go, the values that signPKCS7Detached builds; the hash, the RSA
--                         signature and encoding/asn1 are a record of parameters
--   AuthWrite, AuthWrite/*  authwrite.go, EFI_TIME, the descriptor, its parser and the write
--   Files, Files/*        filesystem.go, the store as a flat filesystem
--   SecureBoot, SecureBoot/*  secureboot.go, signature lists and the enrolment of the keys
--   Examples, Examples/*  concrete stores, options and keys, and the theorems at them
--
-- Strings are lists of bytes, as in Go. A byte is a natural number; what is written as a byte is
-- taken modulo 256. Sums in uint32 are taken modulo 2^32 where the code computes in uint32. A GUID
-- is a record of sixteen bytes. Method receivers are passed as states: an operation that changes
-- the store returns the store and the disk beside its result.
--
-- A variable is storable where its name is valid UTF-8 and its attributes are a uint32. A store
-- belongs to a file where OpenLimits finds its layout in the file, the file is within the limit of
-- the store, this limit is below the largest int64, and the file leaves 60 below 2^32.
--
-- Loops over offsets run on fuel: one round more than the region or the buffer has bytes, which is
-- enough since every round goes forward by a byte at least. Limits are natural numbers.
--
-- What a disk does is given by the fates of its calls. Store/Committed follows a session through
-- any Sets and Deletes over a disk whose calls work, Store/Steps through any operations over a disk
-- on which calls fail, and a write that is cut off is in Store/Reopen and Store/Torn.
-- Store/Contents takes the variables of a store as a quotient that forgets their order.
--
-- Not modelled: the texts of errors (an error is told apart by its site), the sharing of a
-- variable's data slice between the store and its caller, sizes and years that are negative, and
-- values of OVMFFlavor without a name.
pub mod Base
pub mod Text
pub mod Safeio
pub mod Variable
pub mod Record
pub mod Walk
pub mod Disk
pub mod Store
pub mod VariableStore
pub mod DevicePath
pub mod LoadOption
pub mod Format
pub mod Files
pub mod SecureBoot
pub mod Boot
pub mod Pkcs7
pub mod AuthWrite
pub mod Examples
