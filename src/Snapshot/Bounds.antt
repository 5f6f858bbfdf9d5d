-- ===== src/Snapshot/Bounds.antt =====
-- What Snapshot::decode_line makes of any bytes, well formed or not.
use rivt.Base.{
  ℕ, zero, suc, ◌<◌, ◌≤◌, ◌^◌, ◌≡◌, true, List, [], ◌∷◌, ◌++◌, Option, none, some, length,
  length-append, drop, take, length-take, replicate, length-replicate, arith,
}
use rivt.Base.Bytes.{Bytes, All, All-append, IsByte, le_value, le_value-lt}
use rivt.Wire.Reader
use rivt.Wire.Reader.{Reader, start}
use rivt.Snapshot.Cells.{Cell, Line, IsCell}
use rivt.Snapshot.Line.{decode_cell, decode_cells, finish_line, decode_line}
use rivt.Snapshot.RoundTrip.{IsLine}
use native.Mathlib.Nat.{pow-le-pow_right}

abbrev pub AreBytes : Reader → Type 0
AreBytes r = All IsByte r.rest

All-take : (n : ℕ) (b : Bytes) → All IsByte b → All IsByte (take n b)
All-take zero b h = tt
All-take (suc n) [] h = tt
All-take (suc n) (x ∷ b) h = (h.0, All-take n b h.1)

All-drop : (n : ℕ) (b : Bytes) → All IsByte b → All IsByte (drop n b)
All-drop zero b h = h
All-drop (suc n) [] h = tt
All-drop (suc n) (x ∷ b) h = All-drop n b h.1

pow_pos : (n : ℕ) → 0 < 256 ^ n
pow_pos n = omega (arith, pow-le-pow_right {n = 256} (omega arith) {i = 0} {j = n} (omega arith))

-- A number that was read fits its width.
number_fits :
    (n : ℕ) (r : Reader)
    → AreBytes r
    → ((Reader.number n r).0 < 256 ^ n) × AreBytes (Reader.number n r).1
unfolding Reader.number Reader.raw le_value
number_fits n r h = ground (
  arith,
  pow_pos n,
  le_value-lt (take n r.rest) (All-take n r.rest h),
  length-take n r.rest,
  All-drop n r.rest h,
)

decode_cell_fits : (r : Reader) → AreBytes r → IsCell (decode_cell r).0 × AreBytes (decode_cell r).1
unfolding decode_cell Reader.u16 Reader.u32
decode_cell_fits r h =
    let r1 = (Reader.number 4 r).1 in
    let r2 = (Reader.number 4 r1).1 in
    let r3 = (Reader.number 4 r2).1 in
    let r4 = (Reader.number 2 r3).1 in
    let h1 = number_fits 4 r h in
    let h2 = number_fits 4 r1 h1.1 in
    let h3 = number_fits 4 r2 h2.1 in
    let h4 = number_fits 2 r3 h3.1 in
    let h5 = number_fits 2 r4 h4.1 in
    (
      record {
        codepoint_ok = h1.0;
        fg_ok = h2.0;
        bg_ok = h3.0;
        attrs_ok = h4.0;
        hyperlink_ok = h5.0;
      },
      h5.1,
    )

All-replicate : (n : ℕ) (c : Cell) → IsCell c → All IsCell (replicate n c)
All-replicate zero c h = tt
All-replicate (suc n) c h = (h, All-replicate n c h)

-- Cells that were decoded are as many as were announced, and each fits its fields.
abbrev AreCells : ℕ → Option (List Cell) → Type 0
AreCells n none = Unit
AreCells n (some cells) = (length cells ≡ n) × All IsCell cells

decode_cells_fit :
    (f n : ℕ) (cells : List Cell) (r : Reader)
    → AreBytes r
    → All IsCell cells
    → length cells ≤ n
    → AreCells n (decode_cells f n cells r).0
unfolding decode_cells Reader.u16
decode_cells_fit zero n cells r h k l = ground arith
decode_cells_fit (suc f) n cells r h k l =
    let run = (Reader.number 2 r).0 in
    let r1 = (Reader.number 2 r).1 in
    let c = (decode_cell r1).0 in
    let h1 = number_fits 2 r h in
    let h2 = decode_cell_fits r1 h1.1 in
    ground (
      arith,
      length-append cells (replicate run c),
      length-replicate run c,
      decode_cells_fit f n (cells ++ replicate run c) (decode_cell r1).1 h2.1
          (All-append IsCell cells (replicate run c) k (All-replicate run c h2.0)),
    )

abbrev pub Holds : Option Line → Type 0
Holds none = Unit
Holds (some l) = IsLine l × (l.dirty ≡ true)

-- Whatever bytes a peer sends: a line that `decode_line` accepts has at most 4096 cells, each field
-- of each cell in its range, and is marked dirty.
pub decode_line-Holds : (r : Reader) → AreBytes r → Holds (decode_line r).0
unfolding decode_line Reader.u8 Reader.u16 Reader.u32 finish_line
decode_line-Holds r h =
    let r1 = (Reader.number 1 r).1 in
    let r2 = (Reader.number 4 r1).1 in
    let r3 = (Reader.number 2 r2).1 in
    let n = (Reader.number 2 r2).0 in
    let h1 = number_fits 1 r h in
    let h2 = number_fits 4 r1 h1.1 in
    let h3 = number_fits 2 r2 h2.1 in
    ground (arith, h2.0, decode_cells_fit n n [] r3 h3.1 tt (omega arith))
