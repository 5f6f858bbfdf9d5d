-- ===== src/Screen/Select.antt =====
-- The selection and the output of a command (Selection of src/terminal/screen_buffer.h, and the end of
-- src/terminal/screen_buffer.cpp).
use rivt.Base.{
  ℕ, zero, suc, ◌+◌, ◌-◌, ◌/◌, ◌%◌, ◌^◌, bit_and, Bool, true, false, not, ◌&&◌, ◌||◌, List, [], ◌∷◌,
  ◌++◌, map, Option, none, some, length, get_or, take, drop, leb, ltb, ◌==◌, if◌then◌else◌,
}
use rivt.Base.Bytes.{Bytes}
use rivt.Base.Int.{ℤ, pos, negsuc, pos_part, ◌+ℤ◌, ◌-ℤ◌, ltb_ℤ, leb_ℤ}
use rivt.Snapshot.Cells.{Cell, Line}
use rivt.Screen.State.{Screen, blank_line, sline, rows_of}
use rivt.Screen.Fields.{Selection}
use rivt.Screen.Reflow.{trim_tail}

abbrev pub same_ℤ : ℤ → ℤ → Bool
same_ℤ a b = leb_ℤ a b && leb_ℤ b a

-- Line and column of the first and of the last cell.
pub record Range : Type 0 where
  pub first_line : ℤ
  pub first_col : ℤ
  pub last_line : ℤ
  pub last_col : ℤ

-- Selection::normalized
unfoldable pub normalized : Selection → Range
normalized sel =
    if ltb_ℤ sel.start_line sel.end_line
      || (same_ℤ sel.start_line sel.end_line && leb_ℤ sel.start_col sel.end_col)
    then record {
      first_line = sel.start_line;
      first_col = sel.start_col;
      last_line = sel.end_line;
      last_col = sel.end_col;
    }
    else record {
      first_line = sel.end_line;
      first_col = sel.end_col;
      last_line = sel.start_line;
      last_col = sel.start_col;
    }

-- Selection::rect_cols
unfoldable pub rect_cols : Selection → ℤ × ℤ
rect_cols sel =
    if leb_ℤ sel.start_col sel.end_col
    then (sel.start_col, sel.end_col)
    else (sel.end_col, sel.start_col)

-- Selection::contains
unfoldable pub contains : Selection → ℤ → ℤ → Bool
unfolding normalized rect_cols
contains sel abs_line col =
    let r = normalized sel in
    let columns = rect_cols sel in
    if not sel.active
    then false
    else if ltb_ℤ abs_line r.first_line || ltb_ℤ r.last_line abs_line
    then false
    else if sel.rectangular
    then leb_ℤ columns.0 col && leb_ℤ col columns.1
    else if same_ℤ abs_line r.first_line && same_ℤ abs_line r.last_line
    then leb_ℤ r.first_col col && leb_ℤ col r.last_col
    else if same_ℤ abs_line r.first_line
    then leb_ℤ r.first_col col
    else if same_ℤ abs_line r.last_line
    then leb_ℤ col r.last_col
    else true

-- A line by its absolute number.
unfoldable pub get_line : Screen → ℤ → Line
unfolding ◌-ℤ◌ sline
get_line s abs_line = at (abs_line -ℤ s.scrollback_trimmed)
  where
    at : ℤ → Line
    at (negsuc n) = blank_line 0
    at (pos n) =
        if ltb n (length s.scrollback)
        then get_or s.scrollback n (blank_line 0)
        else if ltb (n - length s.scrollback) (length s.screen)
        then sline s (n - length s.scrollback)
        else blank_line 0

unfoldable pub append_utf8 : Bytes → ℕ → Bytes
append_utf8 out cp =
    if ltb cp 0x80
    then out ++ (cp ∷ [])
    else if ltb cp 0x800
    then out ++ ((0xC0 + cp / 64) ∷ (0x80 + cp % 64) ∷ [])
    else if ltb cp 0x10000
    then out ++ ((0xE0 + cp / 4096) ∷ (0x80 + cp / 64 % 64) ∷ (0x80 + cp % 64) ∷ [])
    else out
      ++ (((0xF0 + cp / 262144) % 256)
          ∷ (0x80 + cp / 4096 % 64)
          ∷ (0x80 + cp / 64 % 64)
          ∷ (0x80 + cp % 64)
          ∷ [])

abbrev pub attr_wide_cont : ℕ
attr_wide_cont = 2 ^ 10

unfoldable pub append_cells : Bytes → List Cell → Bytes
unfolding append_utf8
append_cells out [] = out
append_cells out (c ∷ cells) =
    append_cells (if bit_and c.attrs attr_wide_cont == 0 then append_utf8 out c.codepoint else out)
      cells

abbrev pub is_space : Cell → Bool
is_space c = c.codepoint == b' '

-- The cells from column `start` up to, and not including, `stop`, without the spaces at their end.
unfoldable pub range_text : ℕ → ℕ → Line → Bytes → Bytes
unfolding append_cells trim_tail
range_text start stop l out =
    append_cells out (trim_tail is_space 0 (take (stop - start) (drop start l.cells)))

-- The loop over the lines, in `n` rounds. Columns are not negative.
unfoldable pub lines_text : Screen → Range → ℕ → ℤ → Bytes → Bytes
unfolding get_line range_text rect_cols ◌+ℤ◌
lines_text s r zero abs_line out = out
lines_text s r (suc n) abs_line out =
    let sel = s.selection in
    let l = get_line s abs_line in
    let columns = rect_cols sel in
    let start =
      if sel.rectangular
      then pos_part columns.0
      else if same_ℤ abs_line r.first_line
      then pos_part r.first_col
      else 0 in
    let stop =
      if sel.rectangular
      then suc (pos_part columns.1)
      else if same_ℤ abs_line r.last_line
      then suc (pos_part r.last_col)
      else length l.cells in
    let text = range_text start stop l out in
    let ended =
      if ltb_ℤ abs_line r.last_line && (sel.rectangular || not l.wrapped)
      then text ++ (10 ∷ [])
      else text in
    lines_text s r n (abs_line +ℤ pos 1) ended

-- ScreenBuffer::get_selection_text
unfoldable pub get_selection_text : Screen → Bytes
unfolding normalized lines_text ◌-ℤ◌ ◌+ℤ◌
get_selection_text s =
    let r = normalized s.selection in
    if s.selection.active
    then lines_text s r (pos_part (r.last_line -ℤ r.first_line +ℤ pos 1)) r.first_line []
    else []

-- ScreenBuffer::find_command_output, on the marks of the lines from the oldest on: 'A' at a prompt and
-- 'C' at the output of a command.
abbrev pub zone_at : List ℕ → ℕ → ℕ
zone_at zones i = get_or zones i 0

-- The scan backward from the line in front of the `i`th.
unfoldable pub scan_back : List ℕ → ℕ → Option ℕ
scan_back zones zero = none
scan_back zones (suc i) =
    let rest = scan_back zones i in
    if zone_at zones i == b'C' then some (suc i) else if zone_at zones i == b'A' then none else rest

-- The scan forward from the `i`th line, in `n` rounds.
unfoldable pub scan_forward : List ℕ → ℕ → ℕ → ℕ → ℕ
scan_forward zones last zero i = last
scan_forward zones last (suc n) i =
    let rest = scan_forward zones last n (suc i) in
    if zone_at zones i == b'A' || zone_at zones i == b'C' then i - 1 else rest

-- The range from the start that is found on.
unfoldable pub output_from : List ℕ → ℕ → Option ℕ → Option (ℕ × ℕ)
unfolding scan_forward
output_from zones k none = none
output_from zones k (some start) =
    let stop = scan_forward zones (length zones - 1) (length zones - suc k) (suc k) in
    if leb start stop then some (start, stop) else none

unfoldable pub output_range : List ℕ → ℕ → Option (ℕ × ℕ)
unfolding scan_back output_from
output_range zones k =
    if zone_at zones k == 0 then output_from zones k (scan_back zones k) else none

unfoldable pub find_command_output : Screen → ℤ → Option (ℤ × ℤ)
unfolding output_range ◌+ℤ◌ ◌-ℤ◌
find_command_output s abs_line = at (abs_line -ℤ s.scrollback_trimmed)
  where
    shown : Option (ℕ × ℕ) → Option (ℤ × ℤ)
    shown none = none
    shown (some (a, b)) = some (s.scrollback_trimmed +ℤ pos a, s.scrollback_trimmed +ℤ pos b)

    at : ℤ → Option (ℤ × ℤ)
    at (negsuc n) = none
    at (pos k) =
        shown (output_range (map (λ (l : Line). l.semantic_zone) (s.scrollback ++ rows_of s)) k)
