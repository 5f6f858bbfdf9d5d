-- ===== src/Snapshot/Line.antt =====
-- Snapshot::encode_line and Snapshot::decode_line of src/proto/snapshot.cpp.
use rivt.Base.{
  ℕ, zero, suc, ◌+◌, Bool, true, not, ◌||◌, List, [], ◌∷◌, ◌++◌, Option, none, some, length, drop,
  replicate, ltb, ◌==◌, if◌then◌else◌,
}
use mathlib.Core.Option
use rivt.Wire.Writer
use rivt.Wire.Writer.{Writer}
use rivt.Wire.Reader
use rivt.Wire.Reader.{Reader, Read, ◌>>=◌, pure}
use rivt.Snapshot.Cells.{Cell, Line, same_cell}

-- How many cells at the front are the same as `c`: the `while` that counts `run` beyond its first.
unfoldable pub same_prefix : Cell → List Cell → ℕ
same_prefix c [] = 0
same_prefix c (d ∷ ds) = let more = suc (same_prefix c ds) in if same_cell c d then more else 0

-- One run; its length is cut to 16 bits, as the cast does.
unfoldable pub encode_run : ℕ → Cell → Writer → Writer
encode_run run c w = Writer.u16 c.hyperlink_id (
    Writer.u16 c.attrs
      (Writer.u32 c.bg (Writer.u32 c.fg (Writer.u32 c.codepoint (Writer.u16 run w)))))

-- The loop over the cells. Each round takes a cell at least, so a unit of fuel for each is enough.
unfoldable pub encode_runs : ℕ → List Cell → Writer → Writer
encode_runs zero cs w = w
encode_runs (suc f) [] w = w
encode_runs (suc f) (c ∷ cs) w =
    let more = same_prefix c cs in encode_runs f (drop more cs) (encode_run (suc more) c w)

unfoldable pub encode_line : Line → Writer → Writer
encode_line l w = encode_runs (length l.cells) l.cells (
    Writer.u16 (length l.cells)
      (Writer.u32 l.semantic_zone (Writer.u8 (if l.wrapped then 1 else 0) w)))

abbrev pub max_cells : ℕ
max_cells = 4096

unfoldable pub decode_cell : Read Cell
decode_cell = Reader.u32 >>= λ codepoint. Reader.u32 >>= λ fg. Reader.u32 >>= λ bg.
    Reader.u16 >>= λ attrs. Reader.u16 >>= λ link.
    pure (record { codepoint = codepoint; fg = fg; bg = bg; attrs = attrs; hyperlink_id = link })

-- `while (l.cells.size() < ncells)`; `none` is `return false`. A round that goes on adds a cell at
-- least, so `ncells` rounds are enough.
unfoldable pub decode_cells : ℕ → ℕ → List Cell → Read (Option (List Cell))
decode_cells zero ncells cells r = (if ltb (length cells) ncells then none else some cells, r)
decode_cells (suc f) ncells cells r =
    let (run, r1) = Reader.u16 r in
    let (c, r2) = decode_cell r1 in
    let next = decode_cells f ncells (cells ++ replicate run c) r2 in
    if ltb (length cells) ncells
    then (if not r2.ok || run == 0 || ltb ncells (length cells + run) then (none, r2) else next)
    else (some cells, r)

-- What `decode_line` makes of the cells: `return r.ok`, with the line marked dirty.
unfoldable pub finish_line : ℕ → ℕ → Option (List Cell) → Bool → Option Line
finish_line wrapped zone none good = none
finish_line wrapped zone (some cells) good =
    if good
    then some
        (record { cells = cells; wrapped = not (wrapped == 0); dirty = true; semantic_zone = zone })
    else none

-- `none` is `return false`; its callers give up then.
unfoldable pub decode_line : Read (Option Line)
decode_line r =
    let (wrapped, r1) = Reader.u8 r in
    let (zone, r2) = Reader.u32 r1 in
    let (ncells, r3) = Reader.u16 r2 in
    let (cells, r4) = decode_cells ncells ncells [] r3 in
    if not r3.ok || ltb max_cells ncells
    then (none, r3)
    else (finish_line wrapped zone cells r4.ok, r4)

-- `for (const Line &l : …) Snapshot::encode_line(w, l);`
unfoldable pub encode_lines : List Line → Writer → Writer
encode_lines [] w = w
encode_lines (l ∷ ls) w = encode_lines ls (encode_line l w)

-- `n` calls of `decode_line`, the first that fails being the last.
unfoldable pub decode_lines : ℕ → Read (Option (List Line))
decode_lines zero r = (some [], r)
decode_lines (suc n) r =
    let (line, r') = decode_line r in
    let more = decode_lines n r' in
    elim line [ none ↦ (none, r') | some l ↦ (Option.map (λ ls. l ∷ ls) more.0, more.1) ]
