-- ===== src/NetMessage/Fields.antt =====
-- A message body as a list of typed fields, written by the writers of NetMessage.cpp and read back
-- by its readers, each field by the pair that its constructor names.
pub mod RoundTrip
use socketforioswinandroid.Common.{
  ℕ, suc, ◌+◌, ◌%◌, ◌^◌, ◌≤◌, ◌<◌, ◌≡◌, List, [], ◌∷◌, ◌++◌, Bool, length, if◌then◌else◌, ℤ, pos,
  IsInt, to_word, be_bytes, Result, ok, ◌>>=◌,
}
use socketforioswinandroid.MemBuffer.{Allocator}
use socketforioswinandroid.NetMessage.{NetMessage}
use socketforioswinandroid.NetMessage.Write.{
  w_int8, w_uint8, w_boolean, w_ushort, w_short, w_uint, w_int, w_float, w_double, w_int64,
  w_string, w_raw,
}
use socketforioswinandroid.NetMessage.Read.{
  r_int8, r_uint8, r_boolean, r_ushort, r_short, r_uint, r_int, r_float, r_double, r_int64,
}
use socketforioswinandroid.NetMessage.Read.Text.{read_raw, read_string}

pub data Field : Type 0 where
  int8 : ℤ → Field
  uint8 : ℕ → Field
  boolean : Bool → Field
  short : ℤ → Field
  ushort : ℕ → Field
  int : ℤ → Field
  uint : ℕ → Field
  int64 : ℤ → Field
  float : ℕ → Field
  double : ℕ → Field
  string : List ℕ → Field
  raw : List ℕ → Field

-- The values that the C++ type of the field can hold.
abbrev pub InRange : Field → Type 0
InRange (int8 v) = IsInt 8 v
InRange (uint8 v) = v < 2 ^ 8
InRange (boolean v) = Unit {0}
InRange (short v) = IsInt 16 v
InRange (ushort v) = v < 2 ^ 16
InRange (int v) = IsInt 32 v
InRange (uint v) = v < 2 ^ 32
InRange (int64 v) = IsInt 64 v
InRange (float v) = v < 2 ^ 32
InRange (double v) = v < 2 ^ 64
InRange (string vs) = length vs < 2 ^ 31
InRange (raw vs) = Unit {0}

abbrev pub AllInRange : List Field → Type 0
AllInRange [] = Unit {0}
AllInRange (f ∷ fs) = InRange f × AllInRange fs

-- The wire format, said without the code: big-endian bytes, a string behind its length.
abbrev pub encode : Field → List ℕ
encode (int8 v) = be_bytes 1 (to_word 32 v)
encode (uint8 v) = be_bytes 1 v
encode (boolean v) = (if v then 1 else 0) ∷ []
encode (short v) = be_bytes 2 (to_word 32 v)
encode (ushort v) = be_bytes 2 v
encode (int v) = be_bytes 4 (to_word 32 v)
encode (uint v) = be_bytes 4 v
encode (int64 v) = be_bytes 8 (to_word 64 v)
encode (float v) = be_bytes 4 v
encode (double v) = be_bytes 8 v
encode (string vs) = be_bytes 4 (length vs % 2 ^ 32) ++ vs
encode (raw vs) = vs

abbrev pub encode_all : List Field → List ℕ
encode_all [] = []
encode_all (f ∷ fs) = encode f ++ encode_all fs

pub write_field : Allocator → Field → NetMessage → Result NetMessage
unfolding w_int8 w_uint8 w_boolean w_ushort w_short w_uint w_int w_float w_double w_int64 w_string
    w_raw
write_field a (int8 v) m = w_int8 a v m
write_field a (uint8 v) m = w_uint8 a v m
write_field a (boolean v) m = w_boolean a v m
write_field a (short v) m = w_short a v m
write_field a (ushort v) m = w_ushort a v m
write_field a (int v) m = w_int a v m
write_field a (uint v) m = w_uint a v m
write_field a (int64 v) m = w_int64 a v m
write_field a (float v) m = w_float a v m
write_field a (double v) m = w_double a v m
write_field a (string vs) m = w_string a vs (pos (length vs)) m
write_field a (raw vs) m = w_raw a vs (pos (length vs)) m

pub write_fields : Allocator → List Field → NetMessage → Result NetMessage
unfolding write_field
write_fields a [] m = ok m
write_fields a (f ∷ fs) m = write_field a f m >>= write_fields a fs

-- A read by the reader of the field's type. `like` gives the type, and the size of a raw field.
abbrev pub read_as {ℓ} :
    {A : Type ℓ} → (A → Field) → Result (A × NetMessage) → Result (Field × NetMessage)
read_as c r = r >>= λ (v, m). ok (c v, m)

pub read_field : Field → NetMessage → Result (Field × NetMessage)
unfolding r_int8 r_uint8 r_boolean r_ushort r_short r_uint r_int r_float r_double r_int64
read_field (int8 v) m = read_as int8 (r_int8 m)
read_field (uint8 v) m = read_as uint8 (r_uint8 m)
read_field (boolean v) m = read_as boolean (r_boolean m)
read_field (short v) m = read_as short (r_short m)
read_field (ushort v) m = read_as ushort (r_ushort m)
read_field (int v) m = read_as int (r_int m)
read_field (uint v) m = read_as uint (r_uint m)
read_field (int64 v) m = read_as int64 (r_int64 m)
read_field (float v) m = read_as float (r_float m)
read_field (double v) m = read_as double (r_double m)
read_field (string vs) m = read_as string (read_string m)
read_field (raw vs) m = read_as raw (read_raw (pos (length vs)) m)

pub read_fields : List Field → NetMessage → Result (List Field × NetMessage)
unfolding read_field
read_fields [] m = ok ([], m)
read_fields (like ∷ more) m = do
  (f, m) ← read_field like m
  (fs, m) ← read_fields more m
  ok (f ∷ fs, m)
