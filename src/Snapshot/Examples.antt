-- ===== src/Snapshot/Examples.antt =====
-- Lines through Snapshot::encode_line and Snapshot::decode_line of src/proto/snapshot.cpp.
use rivt.Base.{◌≡◌, refl, true, false, [], ◌∷◌, ◌++◌, none, some, replicate, arith}
use rivt.Base.Bytes.{Bytes, le_value}
use rivt.Wire.Writer
use rivt.Wire.Reader
use rivt.Wire.Reader.{start}
use rivt.Snapshot.Cells.{Cell, Line, IsCell, blank, same_cell}
use rivt.Snapshot.Line.{
  same_prefix, encode_line, decode_cell, decode_cells, finish_line, decode_line, encode_lines,
  decode_lines,
}
use rivt.Snapshot.RoundTrip.{IsLine, redrawn, decode_line-encode_line, decode_lines-encode_lines}
use rivt.Snapshot.Bounds.{Holds, decode_line-Holds}

abbrev letter : Cell
letter = record blank { codepoint = b'A'; attrs = 1 }

abbrev prompt : Line
prompt = record {
  cells = letter ∷ blank ∷ blank ∷ [];
  wrapped = true;
  dirty = false;
  semantic_zone = 3;
}

blank-IsCell : IsCell blank
blank-IsCell = record {
  codepoint_ok = omega arith;
  fg_ok = omega arith;
  bg_ok = omega arith;
  attrs_ok = omega arith;
  hyperlink_ok = omega arith;
}

letter-IsCell : IsCell letter
letter-IsCell = record {
  codepoint_ok = omega arith;
  fg_ok = omega arith;
  bg_ok = omega arith;
  attrs_ok = omega arith;
  hyperlink_ok = omega arith;
}

prompt-IsLine : IsLine prompt
prompt-IsLine = record {
  size_ok = omega arith;
  zone_ok = omega arith;
  cells_ok = (letter-IsCell, (blank-IsCell, (blank-IsCell, tt)));
}

-- Two runs: one letter, and two blanks.
runs_test : same_prefix blank (blank ∷ letter ∷ []) ≡ 1
unfolding same_prefix same_cell
runs_test = refl

-- A run of no cells, and one that goes on behind the last cell, are refused.
abbrev empty_run : Bytes
empty_run = 0 ∷ 0 ∷ 0 ∷ 0 ∷ 0 ∷ 1 ∷ 0 ∷ replicate 18 0

abbrev long_run : Bytes
long_run = 0 ∷ 0 ∷ 0 ∷ 0 ∷ 0 ∷ 1 ∷ 0 ∷ 2 ∷ replicate 17 0

empty_run_test : (decode_line (start empty_run)).0 ≡ none
unfolding decode_line decode_cells decode_cell finish_line Reader.u8 Reader.u16 Reader.u32
    Reader.number Reader.raw le_value
empty_run_test = refl

long_run_test : (decode_line (start long_run)).0 ≡ none
unfolding decode_line decode_cells decode_cell finish_line Reader.u8 Reader.u16 Reader.u32
    Reader.number Reader.raw le_value
long_run_test = refl

decode_line-encode_line_example :
    decode_line (start ((encode_line prompt Writer.empty).buf ++ (9 ∷ [])))
    ≡ (some (redrawn prompt), start (9 ∷ []))
decode_line-encode_line_example = decode_line-encode_line prompt (9 ∷ []) prompt-IsLine

decode_lines-encode_lines_example :
    decode_lines 2 (start ((encode_lines (prompt ∷ prompt ∷ []) Writer.empty).buf ++ (9 ∷ [])))
    ≡ (some (redrawn prompt ∷ redrawn prompt ∷ []), start (9 ∷ []))
decode_lines-encode_lines_example =
    decode_lines-encode_lines (prompt ∷ prompt ∷ []) (9 ∷ []) (prompt-IsLine, (prompt-IsLine, tt))

-- What encode_line writes for a line of one letter, which is accepted.
abbrev one_letter : Line
one_letter = record { cells = letter ∷ []; wrapped = true; dirty = true; semantic_zone = 3 }

abbrev accepted : Bytes
accepted =
    1 ∷ 3 ∷ 0 ∷ 0 ∷ 0 ∷ 1 ∷ 0 ∷ 1 ∷ 0 ∷ b'A' ∷ 0 ∷ 0 ∷ 0 ∷ 0 ∷ 0 ∷ 0 ∷ 2 ∷ 0 ∷ 0 ∷ 0 ∷ 2 ∷ 1 ∷ 0 ∷ 0
    ∷ 0 ∷ []

accepted_test : (decode_line (start accepted)).0 ≡ some one_letter
unfolding decode_line decode_cells decode_cell finish_line Reader.u8 Reader.u16 Reader.u32
    Reader.number Reader.raw le_value
accepted_test = refl

decode_line-Holds_example : Holds (decode_line (start accepted)).0
decode_line-Holds_example = decode_line-Holds (start accepted) (ground arith)
