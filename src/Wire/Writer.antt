-- ===== src/Wire/Writer.antt =====
-- `struct Writer` of src/proto/wire.h. A call that writes returns the writer with the longer buffer.
use rivt.Base.{ℕ, ◌%◌, [], ◌∷◌, ◌++◌, length}
use rivt.Base.Bytes.{Bytes, le_bytes}
use rivt.Base.Int.{ℤ, pattern32}

pub record Writer : Type 0 where
  pub buf : Bytes

abbrev pub empty : Writer
empty = record { buf = [] }

-- `buf.insert(buf.end(), b, b + n)` on the bytes themselves.
unfoldable pub raw : Bytes → Writer → Writer
raw b w = record { buf = w.buf ++ b }

unfoldable pub u8 : ℕ → Writer → Writer
u8 v w = record { buf = w.buf ++ ((v % 256) ∷ []) }

unfoldable pub u16 : ℕ → Writer → Writer
unfolding raw
u16 v = raw (le_bytes 2 v)

unfoldable pub u32 : ℕ → Writer → Writer
unfolding raw
u32 v = raw (le_bytes 4 v)

unfoldable pub u64 : ℕ → Writer → Writer
unfolding raw
u64 v = raw (le_bytes 8 v)

unfoldable pub i32 : ℤ → Writer → Writer
unfolding raw
i32 v = raw (le_bytes 4 (pattern32 v))

unfoldable pub bytes : Bytes → Writer → Writer
unfolding raw
bytes p = raw p

-- The size is cut to 32 bits, as the cast does; the bytes are all written.
unfoldable pub str : Bytes → Writer → Writer
unfolding raw u32
str s w = raw s (u32 (length s) w)
