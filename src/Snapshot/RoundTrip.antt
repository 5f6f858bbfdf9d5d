-- ===== src/Snapshot/RoundTrip.antt =====
-- A line that Snapshot::encode_line wrote, read back by Snapshot::decode_line.
use rivt.Base.{
  ℕ, zero, suc, ◌+◌, ◌<◌, ◌≤◌, ◌^◌, ◌≡◌, refl, Bool, true, false, List, [], ◌∷◌, ◌++◌, some, length,
  length-append, drop, length-drop, replicate, length-replicate, append_assoc, append-nil, map, ◌∙◌,
  ap, sym, arith, if◌then◌else◌, Bool-cases, inl, inr,
}
use rivt.Base.Bytes.{Bytes, All, le_bytes}
use rivt.Wire.Writer
use rivt.Wire.Writer.{Writer}
use rivt.Wire.Reader
use rivt.Wire.Reader.{Reader, start}
use rivt.Wire.RoundTrip.{number-le_bytes}
use rivt.Snapshot.Cells.{Cell, Line, IsCell, same_cell}
use rivt.Snapshot.Line.{
  same_prefix, encode_run, encode_runs, encode_line, max_cells, decode_cell, decode_cells,
  finish_line, decode_line, encode_lines, decode_lines,
}

pub record IsLine (l : Line) : Type 0 where
  pub cells_ok : All IsCell l.cells
  pub size_ok : length l.cells ≤ max_cells
  pub zone_ok : l.semantic_zone < 2 ^ 32

cell_bytes : Cell → Bytes
cell_bytes c =
    le_bytes 4 c.codepoint
    ++ (le_bytes 4 c.fg ++ (le_bytes 4 c.bg ++ (le_bytes 2 c.attrs ++ le_bytes 2 c.hyperlink_id)))

decode_cell-cell_bytes :
    (c : Cell) (rest : Bytes)
    → IsCell c
    → decode_cell (start (cell_bytes c ++ rest)) ≡ (c, start rest)
unfolding decode_cell cell_bytes Reader.u16 Reader.u32
decode_cell-cell_bytes c rest v = rw (
  append_assoc,
  append_assoc,
  append_assoc,
  append_assoc,
  number-le_bytes 4 c.codepoint _ v.codepoint_ok,
  number-le_bytes 4 c.fg _ v.fg_ok,
  number-le_bytes 4 c.bg _ v.bg_ok,
  number-le_bytes 2 c.attrs _ v.attrs_ok,
  number-le_bytes 2 c.hyperlink_id _ v.hyperlink_ok,
)

encode_run-buf :
    (run : ℕ) (c : Cell) (w : Writer)
    → (encode_run run c w).buf ≡ w.buf ++ (le_bytes 2 run ++ cell_bytes c)
unfolding encode_run cell_bytes Writer.u16 Writer.u32
encode_run-buf run c w = simp append_assoc

runs_bytes : ℕ → List Cell → Bytes
runs_bytes zero cs = []
runs_bytes (suc f) [] = []
runs_bytes (suc f) (c ∷ cs) =
    let more = same_prefix c cs in
    (le_bytes 2 (suc more) ++ cell_bytes c) ++ runs_bytes f (drop more cs)

encode_runs-buf :
    (f : ℕ) (cs : List Cell) (w : Writer) → (encode_runs f cs w).buf ≡ w.buf ++ runs_bytes f cs
unfolding encode_runs runs_bytes
encode_runs-buf zero cs w = sym (append-nil w.buf)
encode_runs-buf (suc f) [] w = sym (append-nil w.buf)
encode_runs-buf (suc f) (c ∷ cs) w =
    let more = same_prefix c cs in
    encode_runs-buf f (drop more cs) (encode_run (suc more) c w)
    ∙ rw (encode_run-buf (suc more) c w)
        (append_assoc w.buf (le_bytes 2 (suc more) ++ cell_bytes c) (runs_bytes f (drop more cs)))

same_cell→eq : (c d : Cell) → same_cell c d ≡ true → d ≡ c
unfolding same_cell
same_cell→eq c d e = ground arith

-- A run and what is behind it make up the cells.
replicate-same_prefix :
    (c : Cell) (cs : List Cell) → replicate (same_prefix c cs) c ++ drop (same_prefix c cs) cs ≡ cs
unfolding same_prefix
replicate-same_prefix c [] = refl
replicate-same_prefix c (d ∷ ds) = elim (Bool-cases (same_cell c d)) [
  | inl same ↦
      rw same (rw (replicate-same_prefix c ds) (ap (λ x. x ∷ ds) (sym (same_cell→eq c d same))))
  | inr other ↦ rw other refl
]

same_prefix-le : (c : Cell) (cs : List Cell) → same_prefix c cs ≤ length cs
unfolding same_prefix
same_prefix-le c [] = omega arith
same_prefix-le c (d ∷ ds) = ground (arith, same_prefix-le c ds)

All-drop : (n : ℕ) (cs : List Cell) → All IsCell cs → All IsCell (drop n cs)
All-drop zero cs h = h
All-drop (suc n) [] h = tt
All-drop (suc n) (c ∷ cs) h = All-drop n cs h.1

-- The loop at its end.
decode_cells_done :
    (f n : ℕ) (cells : List Cell) (r : Reader)
    → length cells ≡ n
    → decode_cells f n cells r ≡ (some cells, r)
unfolding decode_cells
decode_cells_done zero n cells r h = ground arith
decode_cells_done (suc f) n cells r h = ground arith

decode_cells_run :
    (f n run : ℕ) (c : Cell) (cells : List Cell) (rest : Bytes)
    → IsCell c
    → 0 < run
    → run < 2 ^ 16
    → length cells + run ≤ n
    → decode_cells (suc f) n cells (start ((le_bytes 2 run ++ cell_bytes c) ++ rest))
      ≡ decode_cells f n (cells ++ replicate run c) (start rest)
unfolding decode_cells Reader.u16
decode_cells_run f n run c cells rest v pos hr fits =
    rw
      (
        append_assoc,
        number-le_bytes 2 run (cell_bytes c ++ rest) hr,
        decode_cell-cell_bytes c rest v,
      )
      (ground arith)

decode_cells-runs_bytes :
    (g f n : ℕ) (done cs : List Cell) (rest : Bytes)
    → length cs ≤ g
    → length cs ≤ f
    → length done + length cs ≡ n
    → n ≤ max_cells
    → All IsCell cs
    → decode_cells f n done (start (runs_bytes g cs ++ rest)) ≡ (some (done ++ cs), start rest)
unfolding runs_bytes
decode_cells-runs_bytes zero f n done [] rest hg hf hn hm h =
    rw append-nil (decode_cells_done f n done (start rest) (omega arith))
decode_cells-runs_bytes zero f n done (c ∷ cs) rest hg hf hn hm h = absurd (omega arith)
decode_cells-runs_bytes (suc g) f n done [] rest hg hf hn hm h =
    rw append-nil (decode_cells_done f n done (start rest) (omega arith))
decode_cells-runs_bytes (suc g) zero n done (c ∷ cs) rest hg hf hn hm h = absurd (omega arith)
decode_cells-runs_bytes (suc g) (suc f) n done (c ∷ cs) rest hg hf hn hm h =
    let more = same_prefix c cs in
    let tail = drop more cs in
    let run = replicate (suc more) c in
    let fits = same_prefix-le c cs in
    let lengths = length-drop more cs in
    rw (append_assoc (le_bytes 2 (suc more) ++ cell_bytes c) (runs_bytes g tail) rest) (
      decode_cells_run f n (suc more) c done (runs_bytes g tail ++ rest) h.0 (omega arith)
        (omega (arith, fits)) (omega (arith, fits))
      ∙ decode_cells-runs_bytes g f n (done ++ run) tail rest (omega (arith, fits, lengths))
          (omega (arith, fits, lengths))
          (omega (arith, fits, lengths, length-append done run, length-replicate more c)) hm
          (All-drop more cs h.1)
      ∙ rw (append_assoc done run tail, replicate-same_prefix c cs))

line_bytes : Line → Bytes
line_bytes l =
    le_bytes 1 (if l.wrapped then 1 else 0)
    ++ (le_bytes 4 l.semantic_zone
        ++ (le_bytes 2 (length l.cells) ++ runs_bytes (length l.cells) l.cells))

encode_line-buf : (l : Line) (w : Writer) → (encode_line l w).buf ≡ w.buf ++ line_bytes l
unfolding encode_line line_bytes Writer.u8 Writer.u16 Writer.u32 le_bytes
encode_line-buf l w =
    encode_runs-buf (length l.cells) l.cells (
      Writer.u16 (length l.cells)
        (Writer.u32 l.semantic_zone (Writer.u8 (if l.wrapped then 1 else 0) w)))
    ∙ simp append_assoc

-- A line decoded is the line encoded, marked dirty.
abbrev pub redrawn : Line → Line
redrawn l = record l { dirty = true }

flag_bound : (b : Bool) → (if b then 1 else 0) < 256 ^ 1
flag_bound true = omega arith
flag_bound false = omega arith

decode_line-line_bytes :
    (l : Line) (rest : Bytes)
    → IsLine l
    → decode_line (start (line_bytes l ++ rest)) ≡ (some (redrawn l), start rest)
unfolding decode_line line_bytes finish_line Reader.u8 Reader.u16 Reader.u32
decode_line-line_bytes l rest v =
    let n = length l.cells in
    rw
      (
        append_assoc,
        append_assoc,
        append_assoc,
        number-le_bytes 1 (if l.wrapped then 1 else 0) _ (flag_bound l.wrapped),
        number-le_bytes 4 l.semantic_zone _ v.zone_ok,
        number-le_bytes 2 n _ (omega (arith, v.size_ok)),
        decode_cells-runs_bytes n n n [] l.cells rest (omega arith) (omega arith) (omega arith)
            v.size_ok v.cells_ok,
      )
      (ground arith)

-- A line of at most 4096 cells, written by `encode_line` and read by `decode_line`, comes back with
-- the same cells, wrap flag and zone, marked dirty, and what follows it is left in place.
pub decode_line-encode_line :
    (l : Line) (rest : Bytes)
    → IsLine l
    → decode_line (start ((encode_line l Writer.empty).buf ++ rest))
      ≡ (some (redrawn l), start rest)
decode_line-encode_line l rest v =
    rw (encode_line-buf l Writer.empty) (decode_line-line_bytes l rest v)

lines_bytes : List Line → Bytes
lines_bytes [] = []
lines_bytes (l ∷ ls) = line_bytes l ++ lines_bytes ls

encode_lines-buf : (ls : List Line) (w : Writer) → (encode_lines ls w).buf ≡ w.buf ++ lines_bytes ls
unfolding encode_lines lines_bytes
encode_lines-buf [] w = sym (append-nil w.buf)
encode_lines-buf (l ∷ ls) w =
    encode_lines-buf ls (encode_line l w)
    ∙ rw (encode_line-buf l w) (append_assoc w.buf (line_bytes l) (lines_bytes ls))

decode_lines-lines_bytes :
    (ls : List Line) (rest : Bytes)
    → All IsLine ls
    → decode_lines (length ls) (start (lines_bytes ls ++ rest))
      ≡ (some (map redrawn ls), start rest)
unfolding decode_lines lines_bytes
decode_lines-lines_bytes [] rest h = refl
decode_lines-lines_bytes (l ∷ ls) rest h = rw append_assoc (
    ground (
      arith,
      decode_line-line_bytes l (lines_bytes ls ++ rest) h.0,
      decode_lines-lines_bytes ls rest h.1,
    ))

-- The rows of a grid, or the lines of a scrollback chunk, written one after the other and read back
-- by as many calls of `decode_line`, come back in order, and what follows them is left in place.
pub decode_lines-encode_lines :
    (ls : List Line) (rest : Bytes)
    → All IsLine ls
    → decode_lines (length ls) (start ((encode_lines ls Writer.empty).buf ++ rest))
      ≡ (some (map redrawn ls), start rest)
decode_lines-encode_lines ls rest h =
    rw (encode_lines-buf ls Writer.empty) (decode_lines-lines_bytes ls rest h)
