-- ===== src/Screen/Edit.antt =====
-- Printing, erasing and editing (src/terminal/screen_buffer.cpp). Ranges are given by the column or
-- row behind their last. A row or column that would be negative is 0 here, which is what it is
-- clamped to.
use rivt.Base.{
  ℕ, zero, suc, ◌+◌, ◌-◌, ◌^◌, min, Bool, true, ◌&&◌, List, [], ◌∷◌, ◌++◌, set, get_or, leb, ltb,
  ◌==◌, Option, none, some, if◌then◌else◌, bit_or,
}
use rivt.Base.Moves.{move_left, move_right, fill}
use rivt.Snapshot.Cells.{Cell, blank}
use rivt.Screen.State.{Screen, sline, put_sline}
use rivt.Screen.Fields.{Call}
use rivt.Screen.Scroll.{scroll_up, scroll_down}

abbrev pub attr_wrap : ℕ
attr_wrap = 2 ^ 11

abbrev pub attr_hyperlink : ℕ
attr_hyperlink = 2 ^ 12

-- A change of the cells of a row, which is then dirty.
unfoldable pub edit_row : ℕ → (List Cell → List Cell) → Screen → Screen
unfolding sline put_sline
edit_row row edit s =
    let l = sline s row in put_sline row (record l { cells = edit l.cells; dirty = true }) s

-- `reset(); bg = m_bg;`
abbrev pub erased : Screen → Cell
erased s = record blank { bg = s.pen.bg }

unfoldable pub set_cursor : ℕ → ℕ → Screen → Screen
set_cursor row col s = record s {
  cursor_row = min row (s.rows - 1);
  cursor_col = min col (s.cols - 1);
}

unfoldable pub new_line : Screen → Screen
unfolding scroll_up
new_line s =
    if suc s.cursor_row == s.scroll_end
    then scroll_up s.scroll_top s.scroll_end 1 s
    else if ltb s.cursor_row (s.rows - 1)
    then record s { cursor_row = suc s.cursor_row }
    else s

-- The mark of a row that goes on in the next.
abbrev pub wrap_cell : Cell → Cell
wrap_cell c = record c { attrs = bit_or c.attrs attr_wrap }

unfoldable pub wrap_row : Screen → Screen
unfolding sline put_sline
wrap_row s =
    let l = sline s s.cursor_row in
    let last = s.cols - 1 in
    put_sline s.cursor_row
      (record l {
        cells = set l.cells last (wrap_cell (get_or l.cells last blank));
        wrapped = true;
      })
      s

unfoldable pub auto_wrap : Screen → Screen
unfolding wrap_row new_line
auto_wrap s =
    if leb s.cols s.cursor_col then record (new_line (wrap_row s)) { cursor_col = 0 } else s

-- The cell that a character makes.
abbrev pub pen_cell : Screen → ℕ → Cell
pen_cell s cp = record {
  codepoint = cp;
  fg = s.pen.fg;
  bg = s.pen.bg;
  attrs = bit_or s.pen.attrs (if s.cur_hyperlink_id == 0 then 0 else attr_hyperlink);
  hyperlink_id = s.cur_hyperlink_id;
}

unfoldable pub put_char : ℕ → Screen → Screen
unfolding auto_wrap edit_row
put_char cp s =
    let w = auto_wrap s in
    record (edit_row w.cursor_row (λ cells. set cells w.cursor_col (pen_cell w cp)) w) {
      cursor_col = suc w.cursor_col;
    }

unfoldable pub erase_cells : ℕ → ℕ → ℕ → Screen → Screen
unfolding edit_row
erase_cells row start stop s =
    if leb s.rows row then s else edit_row row (fill (erased s) (min stop s.cols - start) start) s

unfoldable pub erase_line : ℕ → Screen → Screen
unfolding erase_cells
erase_line row s = erase_cells row 0 s.cols s

-- `for (r = row; …; r++) erase_line(r)`, in `n` rounds.
unfoldable pub erase_lines : ℕ → ℕ → Screen → Screen
unfolding erase_line
erase_lines zero row s = s
erase_lines (suc n) row s = erase_lines n (suc row) (erase_line row s)

unfoldable pub clear_history : Screen → Screen
clear_history s = record s {
  scrollback = [];
  viewport_back = 0;
  calls = s.calls ++ (Call.remove_all ∷ []);
}

unfoldable pub erase_display : ℕ → Screen → Screen
unfolding erase_lines erase_cells clear_history
erase_display mode s =
    if mode == 0
    then erase_lines (s.rows - suc s.cursor_row) (suc s.cursor_row)
        (erase_cells s.cursor_row s.cursor_col s.cols s)
    else if mode == 1
    then erase_lines s.cursor_row 0 (erase_cells s.cursor_row 0 (suc s.cursor_col) s)
    else if mode == 2
    then erase_lines s.rows 0 s
    else if mode == 3
    then erase_lines s.rows 0 (clear_history s)
    else s

-- On the cells of a row of `cols` cells, with the cursor at `col`. Where `m_cursor_col + count` overflows
-- an int, the loops write outside of the row.
unfoldable pub insert_cells : ℕ → ℕ → ℕ → Cell → List Cell → Option (List Cell)
unfolding move_right fill
insert_cells cols col count v cells =
    if ltb (col + count) (2 ^ 31)
    then some (
        fill v (min (col + count) cols - col) col
          (move_right blank (λ c. c) count (cols - (col + count)) col cells))
    else none

unfoldable pub delete_cells : ℕ → ℕ → ℕ → Cell → List Cell → List Cell
unfolding move_left fill
delete_cells cols col count v cells =
    let from = if leb col (cols - count) then cols - count else col in
    fill v (cols - from) from (move_left blank (λ c. c) count (cols - count - col) col cells)

unfoldable pub put_cells : Option (List Cell) → Screen → Screen
unfolding edit_row
put_cells none s = record s { faulted = true }
put_cells (some cells) s = edit_row s.cursor_row (λ _. cells) s

unfoldable pub insert_chars : ℕ → Screen → Screen
unfolding sline insert_cells put_cells
insert_chars count s =
    put_cells (insert_cells s.cols s.cursor_col count (erased s) ((sline s s.cursor_row).cells)) s

unfoldable pub delete_chars : ℕ → Screen → Screen
unfolding edit_row delete_cells
delete_chars count s = edit_row s.cursor_row (delete_cells s.cols s.cursor_col count (erased s)) s

abbrev pub in_region : Screen → Bool
in_region s = leb s.scroll_top s.cursor_row && ltb s.cursor_row s.scroll_end

unfoldable pub insert_lines : ℕ → Screen → Screen
unfolding scroll_down
insert_lines count s = if in_region s then scroll_down s.cursor_row s.scroll_end count s else s

unfoldable pub delete_lines : ℕ → Screen → Screen
unfolding scroll_up
delete_lines count s = if in_region s then scroll_up s.cursor_row s.scroll_end count s else s
