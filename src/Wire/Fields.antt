-- ===== src/Wire/Fields.antt =====
-- Any sequence of writer calls, and the sequence of reader calls that belongs to it.
use rivt.Base.{ℕ, ◌<◌, ◌^◌, List, [], ◌∷◌, length}
use rivt.Base.Bytes.{Bytes}
use rivt.Base.Int.{ℤ, IsInt32}
use rivt.Wire.Writer
use rivt.Wire.Writer.{Writer}
use rivt.Wire.Reader
use rivt.Wire.Reader.{Read, ◌>>=◌, pure}

pub data Field : Type 0 where
  u8 u16 u32 u64 : ℕ → Field
  i32 : ℤ → Field
  str : Bytes → Field

pub data Kind : Type 0 where
  u8 u16 u32 u64 i32 str : Kind

abbrev pub kind : Field → Kind
kind (u8 v) = Kind.u8
kind (u16 v) = Kind.u16
kind (u32 v) = Kind.u32
kind (u64 v) = Kind.u64
kind (i32 z) = Kind.i32
kind (str s) = Kind.str

-- The values that the C++ type of the field holds. A `str` must leave its size in 32 bits.
abbrev pub Fits : Field → Type 0
Fits (u8 v) = v < 2 ^ 8
Fits (u16 v) = v < 2 ^ 16
Fits (u32 v) = v < 2 ^ 32
Fits (u64 v) = v < 2 ^ 64
Fits (i32 z) = IsInt32 z
Fits (str s) = length s < 2 ^ 32

-- What a failed read gives.
abbrev pub zero_of : Kind → Field
zero_of Kind.u8 = u8 0
zero_of Kind.u16 = u16 0
zero_of Kind.u32 = u32 0
zero_of Kind.u64 = u64 0
zero_of Kind.i32 = i32 (ℤ.pos 0)
zero_of Kind.str = str []

unfoldable pub write : Field → Writer → Writer
write (u8 v) = Writer.u8 v
write (u16 v) = Writer.u16 v
write (u32 v) = Writer.u32 v
write (u64 v) = Writer.u64 v
write (i32 z) = Writer.i32 z
write (str s) = Writer.str s

unfoldable pub write_all : List Field → Writer → Writer
write_all [] w = w
write_all (f ∷ fs) w = write_all fs (write f w)

unfoldable pub read : Kind → Read Field
read Kind.u8 = Reader.u8 >>= λ v. pure (Field.u8 v)
read Kind.u16 = Reader.u16 >>= λ v. pure (Field.u16 v)
read Kind.u32 = Reader.u32 >>= λ v. pure (Field.u32 v)
read Kind.u64 = Reader.u64 >>= λ v. pure (Field.u64 v)
read Kind.i32 = Reader.i32 >>= λ v. pure (Field.i32 v)
read Kind.str = Reader.str >>= λ s. pure (Field.str s)

unfoldable pub read_all : List Kind → Read (List Field)
read_all [] = pure []
read_all (k ∷ ks) = read k >>= λ f. read_all ks >>= λ fs. pure (f ∷ fs)
