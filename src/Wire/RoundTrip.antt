-- ===== src/Wire/RoundTrip.antt =====
-- What the writer wrote, the matching reads of src/proto/wire.h give back.
use rivt.Base.{
  ℕ, ◌<◌, ◌^◌, ◌≡◌, refl, List, [], ◌∷◌, ◌++◌, map, append-nil, append_assoc, arith, length,
  take-append, drop-append, length-append, ◌∙◌, ap, sym,
}
use rivt.Base.Bytes.{Bytes, All, le_bytes, length-le_bytes, le_value-le_bytes}
use rivt.Base.Int.{pattern32, signed32-pattern32, pattern32-lt}
use rivt.Wire.Writer
use rivt.Wire.Writer.{Writer}
use rivt.Wire.Reader
use rivt.Wire.Reader.{Reader, start}
use rivt.Wire.Fields.{Field, kind, Fits, write, write_all, read, read_all}
use rivt.Wire.Fields.Field.{u8, u16, u32, u64, i32, str}

-- The bytes of one field on the wire.
unfoldable pub bytes_of : Field → Bytes
bytes_of (u8 v) = le_bytes 1 v
bytes_of (u16 v) = le_bytes 2 v
bytes_of (u32 v) = le_bytes 4 v
bytes_of (u64 v) = le_bytes 8 v
bytes_of (i32 z) = le_bytes 4 (pattern32 z)
bytes_of (str s) = le_bytes 4 (length s) ++ s

pub write-bytes_of : (f : Field) (w : Writer) → (write f w).buf ≡ w.buf ++ bytes_of f
unfolding write bytes_of le_bytes Writer.u8 Writer.u16 Writer.u32 Writer.u64 Writer.i32 Writer.str
write-bytes_of (u8 v) w = refl
write-bytes_of (str s) w = append_assoc w.buf (le_bytes 4 (length s)) s
write-bytes_of _ w = refl

-- The bytes of a sequence of fields.
unfoldable pub bytes_of_all : List Field → Bytes
bytes_of_all [] = []
bytes_of_all (f ∷ fs) = bytes_of f ++ bytes_of_all fs

pub write_all-bytes_of_all :
    (fs : List Field) (w : Writer) → (write_all fs w).buf ≡ w.buf ++ bytes_of_all fs
unfolding write_all bytes_of_all
write_all-bytes_of_all [] w = sym (append-nil w.buf)
write_all-bytes_of_all (f ∷ fs) w =
    write_all-bytes_of_all fs (write f w)
    ∙ rw (write-bytes_of f w) (append_assoc w.buf (bytes_of f) (bytes_of_all fs))

pub raw-append :
    (n : ℕ) (b rest : Bytes) → n ≡ length b → Reader.raw n (start (b ++ rest)) ≡ (b, start rest)
unfolding Reader.raw
raw-append n b rest h =
    ground (arith, length-append b rest, take-append b rest n h, drop-append b rest n h)

pub number-le_bytes :
    (n v : ℕ) (rest : Bytes)
    → v < 256 ^ n
    → Reader.number n (start (le_bytes n v ++ rest)) ≡ (v, start rest)
unfolding Reader.number
number-le_bytes n v rest h =
    rw (raw-append n (le_bytes n v) rest (sym (length-le_bytes n v)), le_value-le_bytes n v h)

str-append :
    (s rest : Bytes)
    → length s < 2 ^ 32
    → Reader.str (start ((le_bytes 4 (length s) ++ s) ++ rest)) ≡ (s, start rest)
unfolding Reader.str Reader.u32
str-append s rest h =
    rw (append_assoc, number-le_bytes 4 (length s) (s ++ rest) h)
      (ground (
        arith,
        length-append s rest,
        take-append s rest (length s) refl,
        drop-append s rest (length s) refl,
      ))

pub read-bytes_of :
    (f : Field) (rest : Bytes)
    → Fits f
    → read (kind f) (start (bytes_of f ++ rest)) ≡ (f, start rest)
unfolding read bytes_of Reader.u8 Reader.u16 Reader.u32 Reader.u64 Reader.i32
read-bytes_of (u8 v) rest h = rw (number-le_bytes 1 v rest h)
read-bytes_of (u16 v) rest h = rw (number-le_bytes 2 v rest h)
read-bytes_of (u32 v) rest h = rw (number-le_bytes 4 v rest h)
read-bytes_of (u64 v) rest h = rw (number-le_bytes 8 v rest h)
read-bytes_of (i32 z) rest h =
    rw (number-le_bytes 4 (pattern32 z) rest (pattern32-lt z))
      (ap (λ y. (i32 y, start rest)) (signed32-pattern32 z h))
read-bytes_of (str s) rest h = rw (str-append s rest h)

pub read_all-bytes_of_all :
    (fs : List Field) (rest : Bytes)
    → All Fits fs
    → read_all (map kind fs) (start (bytes_of_all fs ++ rest)) ≡ (fs, start rest)
unfolding read_all bytes_of_all
read_all-bytes_of_all [] rest h = refl
read_all-bytes_of_all (f ∷ fs) rest h =
    rw (
      append_assoc,
      read-bytes_of f (bytes_of_all fs ++ rest) h.0,
      read_all-bytes_of_all fs rest h.1,
    )

-- For every sequence of values that fit their types: what the writer calls append, read by the
-- matching reader calls, gives the values back, leaves what follows them, and keeps `ok`.
pub read_all-write_all :
    (fs : List Field) (rest : Bytes)
    → All Fits fs
    → read_all (map kind fs) (start ((write_all fs Writer.empty).buf ++ rest)) ≡ (fs, start rest)
read_all-write_all fs rest h =
    rw (write_all-bytes_of_all fs Writer.empty) (read_all-bytes_of_all fs rest h)
