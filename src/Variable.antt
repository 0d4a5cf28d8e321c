-- ===== src/Variable.antt =====
-- uefi.go: GUIDs, attributes and variables, with the format's constants.
use uefi.Base.{
  ℕ, ◌^◌, ◌≡◌, refl, ap, ◌<◌, Bool, true, [], ◌∷◌, ◌++◌, ◌&&◌, Bytes, eq_bytes, copy_at, replicate,
}
use uefi.Base.{eq_bytes_refl, eq_bytes→eq}
use uefi.Text.RoundTrip.{IsUtf8}

abbrev pub u32_mod : ℕ
u32_mod = 2 ^ 32

-- The constants of the NvVar format.
abbrev pub variable_data : ℕ
variable_data = 0x55aa

abbrev pub store_formatted : ℕ
store_formatted = 0x5a

abbrev pub store_healthy : ℕ
store_healthy = 0xfe

abbrev pub var_added : ℕ
var_added = 0x3f

abbrev pub store_header_size : ℕ
store_header_size = 28

abbrev pub fv_header_size : ℕ
fv_header_size = 72

abbrev pub fv_signature : ℕ
fv_signature = 0x4856465f

-- `[16]byte`
pub record Guid : Type 0 where
  pub b0 : ℕ
  pub b1 : ℕ
  pub b2 : ℕ
  pub b3 : ℕ
  pub b4 : ℕ
  pub b5 : ℕ
  pub b6 : ℕ
  pub b7 : ℕ
  pub b8 : ℕ
  pub b9 : ℕ
  pub b10 : ℕ
  pub b11 : ℕ
  pub b12 : ℕ
  pub b13 : ℕ
  pub b14 : ℕ
  pub b15 : ℕ

-- `g[:]`
abbrev pub guid_bytes : Guid → Bytes
guid_bytes g =
    g.b0 ∷ g.b1 ∷ g.b2 ∷ g.b3 ∷ g.b4 ∷ g.b5 ∷ g.b6 ∷ g.b7 ∷ g.b8 ∷ g.b9 ∷ g.b10 ∷ g.b11 ∷ g.b12
    ∷ g.b13 ∷ g.b14 ∷ g.b15 ∷ []

-- The array that holds sixteen bytes, the others being impossible.
abbrev sixteen : Bytes → Guid
sixteen (a ∷ b ∷ c ∷ d ∷ e ∷ f ∷ g ∷ h ∷ i ∷ j ∷ k ∷ l ∷ m ∷ n ∷ o ∷ p ∷ _) = record {
  b0 = a;
  b1 = b;
  b2 = c;
  b3 = d;
  b4 = e;
  b5 = f;
  b6 = g;
  b7 = h;
  b8 = i;
  b9 = j;
  b10 = k;
  b11 = l;
  b12 = m;
  b13 = n;
  b14 = o;
  b15 = p;
}
sixteen _ = record {
  b0 = 0;
  b1 = 0;
  b2 = 0;
  b3 = 0;
  b4 = 0;
  b5 = 0;
  b6 = 0;
  b7 = 0;
  b8 = 0;
  b9 = 0;
  b10 = 0;
  b11 = 0;
  b12 = 0;
  b13 = 0;
  b14 = 0;
  b15 = 0;
}

-- `var g GUID; copy(g[:], b)`
unfoldable pub guid_of : Bytes → Guid
unfolding copy_at
guid_of b = sixteen (copy_at (replicate 16 0) 0 b)

-- The sixteen bytes come back, whatever stands behind them.
pub guid_of-guid_bytes : (g : Guid) (tail : Bytes) → guid_of (guid_bytes g ++ tail) ≡ g
unfolding guid_of
guid_of-guid_bytes g tail = refl

abbrev pub eq_guid : Guid → Guid → Bool
eq_guid g h = eq_bytes (guid_bytes g) (guid_bytes h)

pub eq_guid_refl : (g : Guid) → eq_guid g g ≡ true
eq_guid_refl g = eq_bytes_refl (guid_bytes g)

pub eq_guid→eq : (g h : Guid) → eq_guid g h ≡ true → g ≡ h
unfolding guid_of
eq_guid→eq g h e = ap guid_of (eq_bytes→eq (guid_bytes g) (guid_bytes h) e)

pub record Variable : Type 0 where
  pub name : Bytes
  pub guid : Guid
  pub attributes : ℕ
  pub content : Bytes

-- `v.Name == name && v.GUID == guid`
abbrev pub is_named : Variable → Bytes → Guid → Bool
is_named v name guid = eq_bytes v.name name && eq_guid v.guid guid

-- What a store can hold without loss: a name that is valid UTF-8, and a uint32 of attributes.
pub record IsStorable (v : Variable) : Type 0 where
  pub name_utf8 : IsUtf8 v.name
  pub attributes_u32 : v.attributes < u32_mod

-- EFIVariableGUID, EFIAuthenticatedVariableGUID and EFISystemNvDataFvGUID.
abbrev pub efi_variable_guid : Guid
efi_variable_guid = record {
  b0 = 0x16;
  b1 = 0x36;
  b2 = 0xcf;
  b3 = 0xdd;
  b4 = 0x75;
  b5 = 0x32;
  b6 = 0x64;
  b7 = 0x41;
  b8 = 0x98;
  b9 = 0xb6;
  b10 = 0xfe;
  b11 = 0x85;
  b12 = 0x70;
  b13 = 0x7f;
  b14 = 0xfe;
  b15 = 0x7d;
}

abbrev pub efi_authenticated_variable_guid : Guid
efi_authenticated_variable_guid = record {
  b0 = 0x78;
  b1 = 0x2c;
  b2 = 0xf3;
  b3 = 0xaa;
  b4 = 0x7b;
  b5 = 0x94;
  b6 = 0x9a;
  b7 = 0x43;
  b8 = 0xa1;
  b9 = 0x80;
  b10 = 0x2e;
  b11 = 0x14;
  b12 = 0x4e;
  b13 = 0xc3;
  b14 = 0x77;
  b15 = 0x92;
}

abbrev pub efi_system_nv_data_fv_guid : Guid
efi_system_nv_data_fv_guid = record {
  b0 = 0x8d;
  b1 = 0x2b;
  b2 = 0xf1;
  b3 = 0xff;
  b4 = 0x96;
  b5 = 0x76;
  b6 = 0x8b;
  b7 = 0x4c;
  b8 = 0xa9;
  b9 = 0x85;
  b10 = 0x27;
  b11 = 0x47;
  b12 = 0x07;
  b13 = 0x5b;
  b14 = 0x4f;
  b15 = 0x50;
}
