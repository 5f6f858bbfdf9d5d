-- ===== src/Wire/Examples.antt =====
-- The writer and the reader of src/proto/wire.h on concrete values.
use rivt.Base.{◌≡◌, refl, false, List, [], ◌∷◌, ◌++◌, map, arith}
use rivt.Base.Bytes.{Bytes, All, le_bytes, le_value}
use rivt.Base.Int.{negsuc}
use rivt.Wire.Writer
use rivt.Wire.Writer.{Writer}
use rivt.Wire.Reader
use rivt.Wire.Reader.{Reader, start}
use rivt.Wire.Stable.{failed}
use rivt.Wire.Fields.{Field, Kind, kind, Fits, write, write_all, read, read_all}
use rivt.Wire.RoundTrip.{read_all-write_all}
use rivt.Wire.FailSoft.{read_all_truncated}

abbrev values : List Field
values = Field.u8 7 ∷ Field.u16 0x1234 ∷ Field.i32 (negsuc 0) ∷ Field.str (b'o' ∷ b'k' ∷ []) ∷ []

abbrev values_front : Bytes
values_front = 7 ∷ 0x34 ∷ 0x12 ∷ 255 ∷ 255 ∷ 255 ∷ 255 ∷ 2 ∷ 0 ∷ 0 ∷ 0 ∷ b'o' ∷ []

values-Fits : All Fits values
values-Fits = ground arith

values_bytes : (write_all values Writer.empty).buf ≡ values_front ++ (b'k' ∷ [])
unfolding write_all write Writer.u8 Writer.u16 Writer.u32 Writer.i32 Writer.str Writer.raw le_bytes
values_bytes = refl

-- The calls behind a failed one, on a buffer that is too short for the second.
short_test :
    read_all (Kind.u8 ∷ Kind.u16 ∷ Kind.u8 ∷ []) (start (9 ∷ 1 ∷ []))
    ≡ (Field.u8 9 ∷ Field.u16 0 ∷ Field.u8 0 ∷ [], failed (1 ∷ []))
unfolding read_all read Reader.u8 Reader.u16 Reader.number Reader.raw le_value
short_test = refl

one_read : read_all (Kind.u8 ∷ []) (start (9 ∷ 1 ∷ [])) ≡ (Field.u8 9 ∷ [], start (1 ∷ []))
unfolding read_all read Reader.u8 Reader.number Reader.raw le_value
one_read = refl

-- `skip` past the end moves to the end, where a failed read stays.
skip_test : Reader.skip 3 (start (1 ∷ 2 ∷ [])) ≡ failed []
unfolding Reader.skip
skip_test = refl

read_all-write_all_example :
    read_all (map kind values) (start ((write_all values Writer.empty).buf ++ (1 ∷ [])))
    ≡ (values, start (1 ∷ []))
read_all-write_all_example = read_all-write_all values (1 ∷ []) values-Fits

read_all_truncated_example : (read_all (map kind values) (start values_front)).1.ok ≡ false
read_all_truncated_example = read_all_truncated values values_front [] b'k' values-Fits values_bytes
