-- ===== src/Screen/Invariant/Edit.antt =====
-- Printing, erasing and editing keep the screen well formed (src/terminal/screen_buffer.cpp).
use rivt.Base.{
  true, ℕ, zero, suc, ◌+◌, ◌^◌, some, subst, sym, ◌-◌, ◌<◌, ◌≤◌, ◌≡◌, refl, min, List, length, set,
  length-set, leb, ltb, ◌==◌, arith, tests,
}
use rivt.Base.Moves.{fill, length-fill, length-move_left, move_right, length-move_right}
use rivt.Snapshot.Cells.{Cell, Line, blank}
use rivt.Screen.State.{Screen, sline, put_sline}
use rivt.Screen.Edit.{
  edit_row, erased, set_cursor, new_line, wrap_row, auto_wrap, pen_cell, put_char, erase_cells,
  erase_line, erase_lines, clear_history, erase_display, insert_cells, put_cells, delete_cells,
  insert_chars, delete_chars, insert_lines, delete_lines,
}
use rivt.Screen.WellFormed.{
  same_cells-HasCols, sline-HasCols, put_sline-IsScreen, if-IsScreen, if_true-IsScreen,
  IsScreen-cols, IsScreen-cols_pos, IsScreen-rows, IsScreen-cursor,
}
use rivt.Screen.Fits.{IsScreen, with_cursor}
use rivt.Screen.Invariant.Scroll.{scroll_up-IsScreen, scroll_down-IsScreen}

insert_cells-some :
    (cols col count : ℕ) (v : Cell) (cells : List Cell)
    → col + count < 2 ^ 31
    → (more : List Cell) × ((insert_cells cols col count v cells ≡ some more)
        × (length more ≡ length cells))
unfolding insert_cells
insert_cells-some cols col count v cells h =
    let moved = move_right blank (λ c. c) count (cols - (col + count)) col cells in
    let more = fill v (min (col + count) cols - col) col moved in
    (more, (ground arith, rw (length-fill, length-move_right) refl))

pub length-delete_cells :
    (cols col count : ℕ) (v : Cell) (cells : List Cell)
    → length (delete_cells cols col count v cells) ≡ length cells
unfolding delete_cells
length-delete_cells cols col count v cells = rw (length-fill, length-move_left) refl

module _ (cols rows : ℕ) where
  pub set_row-IsScreen :
      (row : ℕ) (s : Screen)
      → row < rows
      → IsScreen cols rows s
      → IsScreen cols rows (record s { cursor_row = row })
  unfolding IsScreen
  set_row-IsScreen row s h v = with_cursor v (record { row_ok = h; col_ok = v.cursor_ok.col_ok })

  pub set_col-IsScreen :
      (col : ℕ) (s : Screen)
      → col ≤ cols
      → IsScreen cols rows s
      → IsScreen cols rows (record s { cursor_col = col })
  unfolding IsScreen
  set_col-IsScreen col s h v = with_cursor v (record { row_ok = v.cursor_ok.row_ok; col_ok = h })

  -- A change of a line that keeps its number of cells.
  pub put_changed-IsScreen :
      (row : ℕ) (l : Line) (s : Screen)
      → length l.cells ≡ length ((sline s row).cells)
      → IsScreen cols rows s
      → IsScreen cols rows (put_sline row l s)
  put_changed-IsScreen row l s e v =
      put_sline-IsScreen cols rows s v row l
        (same_cells-HasCols cols l (sline s row) e (sline-HasCols cols rows s v row))

  edit_row-IsScreen :
      (row : ℕ) (edit : List Cell → List Cell) (s : Screen)
      → ((cells : List Cell) → length (edit cells) ≡ length cells)
      → IsScreen cols rows s
      → IsScreen cols rows (edit_row row edit s)
  unfolding edit_row
  edit_row-IsScreen row edit s h v =
      put_changed-IsScreen row
        (record (sline s row) { cells = edit ((sline s row).cells); dirty = true }) s
        (h ((sline s row).cells)) v

  pub set_cursor-IsScreen :
      (row col : ℕ) (s : Screen) → IsScreen cols rows s → IsScreen cols rows (set_cursor row col s)
  unfolding set_cursor IsScreen
  set_cursor-IsScreen row col s v = with_cursor v (record {
    row_ok = ground (arith, v.rows_eq, v.cursor_ok.row_ok);
    col_ok = ground (arith, v.cols_eq);
  })

  pub new_line-IsScreen : (s : Screen) → IsScreen cols rows s → IsScreen cols rows (new_line s)
  unfolding new_line
  new_line-IsScreen s v =
      if-IsScreen cols rows (suc s.cursor_row == s.scroll_end) _ _
        (scroll_up-IsScreen cols rows s.scroll_top s.scroll_end 1 s v)
        (if_true-IsScreen cols rows (ltb s.cursor_row (s.rows - 1)) _ s
          (λ h.
            set_row-IsScreen (suc s.cursor_row) s (omega (tests, IsScreen-rows cols rows s v)) v)
          v)

  wrap_row-IsScreen : (s : Screen) → IsScreen cols rows s → IsScreen cols rows (wrap_row s)
  unfolding wrap_row
  wrap_row-IsScreen s v =
      put_changed-IsScreen s.cursor_row _ s
        (length-set ((sline s s.cursor_row).cells) (s.cols - 1) _) v

  auto_wrap-IsScreen : (s : Screen) → IsScreen cols rows s → IsScreen cols rows (auto_wrap s)
  unfolding auto_wrap
  auto_wrap-IsScreen s v =
      if-IsScreen cols rows (leb s.cols s.cursor_col) _ s
        (set_col-IsScreen 0 (new_line (wrap_row s)) (omega arith)
          (new_line-IsScreen _ (wrap_row-IsScreen s v)))
        v

  -- A character is written within its row.
  auto_wrap-cursor_col : (s : Screen) → IsScreen cols rows s → (auto_wrap s).cursor_col < cols
  unfolding auto_wrap
  auto_wrap-cursor_col s v =
      ground (arith, IsScreen-cols cols rows s v, IsScreen-cols_pos cols rows s v)

  pub put_char-IsScreen :
      (cp : ℕ) (s : Screen) → IsScreen cols rows s → IsScreen cols rows (put_char cp s)
  unfolding put_char
  put_char-IsScreen cp s v =
      let w = auto_wrap s in
      set_col-IsScreen (suc w.cursor_col) _ (omega (arith, auto_wrap-cursor_col s v)) (
        edit_row-IsScreen w.cursor_row (λ cells. set cells w.cursor_col (pen_cell w cp)) w
          (λ cells. length-set cells w.cursor_col (pen_cell w cp)) (auto_wrap-IsScreen s v))

  pub erase_cells-IsScreen :
      (row start stop : ℕ) (s : Screen)
      → IsScreen cols rows s
      → IsScreen cols rows (erase_cells row start stop s)
  unfolding erase_cells
  erase_cells-IsScreen row start stop s v = if-IsScreen cols rows (leb s.rows row) s _ v (
      edit_row-IsScreen row (fill (erased s) (min stop s.cols - start) start) s
        (λ cells. length-fill (erased s) (min stop s.cols - start) start cells) v)

  pub erase_line-IsScreen :
      (row : ℕ) (s : Screen) → IsScreen cols rows s → IsScreen cols rows (erase_line row s)
  unfolding erase_line
  erase_line-IsScreen row s v = erase_cells-IsScreen row 0 s.cols s v

  erase_lines-IsScreen :
      (n row : ℕ) (s : Screen) → IsScreen cols rows s → IsScreen cols rows (erase_lines n row s)
  unfolding erase_lines
  erase_lines-IsScreen zero row s v = v
  erase_lines-IsScreen (suc n) row s v =
      erase_lines-IsScreen n (suc row) (erase_line row s) (erase_line-IsScreen row s v)

  clear_history-IsScreen :
      (s : Screen) → IsScreen cols rows s → IsScreen cols rows (clear_history s)
  unfolding clear_history IsScreen
  clear_history-IsScreen s v = v

  pub erase_display-IsScreen :
      (mode : ℕ) (s : Screen) → IsScreen cols rows s → IsScreen cols rows (erase_display mode s)
  unfolding erase_display
  erase_display-IsScreen mode s v =
      search (if-IsScreen, erase_lines-IsScreen, erase_cells-IsScreen, clear_history-IsScreen)

  put_cells-IsScreen :
      (cells : List Cell) (s : Screen)
      → length cells ≡ length ((sline s s.cursor_row).cells)
      → IsScreen cols rows s
      → IsScreen cols rows (put_cells (some cells) s)
  unfolding put_cells edit_row
  put_cells-IsScreen cells s e v =
      put_changed-IsScreen s.cursor_row
        (record (sline s s.cursor_row) { cells = cells; dirty = true }) s e v

  -- Where the column behind the new cells is an int.
  pub insert_chars-IsScreen :
      (count : ℕ) (s : Screen)
      → cols + count < 2 ^ 31
      → IsScreen cols rows s
      → IsScreen cols rows (insert_chars count s)
  unfolding insert_chars
  insert_chars-IsScreen count s h v =
      let (more, (e, l)) =
        insert_cells-some s.cols s.cursor_col count (erased s) ((sline s s.cursor_row).cells)
          (omega (arith, (IsScreen-cursor cols rows s v).col_ok)) in
      subst (λ o. IsScreen cols rows (put_cells o s)) (sym e) (put_cells-IsScreen more s l v)

  pub delete_chars-IsScreen :
      (count : ℕ) (s : Screen) → IsScreen cols rows s → IsScreen cols rows (delete_chars count s)
  unfolding delete_chars
  delete_chars-IsScreen count s v =
      edit_row-IsScreen s.cursor_row (delete_cells s.cols s.cursor_col count (erased s)) s
        (length-delete_cells s.cols s.cursor_col count (erased s)) v

  pub insert_lines-IsScreen :
      (count : ℕ) (s : Screen) → IsScreen cols rows s → IsScreen cols rows (insert_lines count s)
  unfolding insert_lines
  insert_lines-IsScreen count s v = search (if-IsScreen, scroll_down-IsScreen)

  pub delete_lines-IsScreen :
      (count : ℕ) (s : Screen) → IsScreen cols rows s → IsScreen cols rows (delete_lines count s)
  unfolding delete_lines
  delete_lines-IsScreen count s v = search (if-IsScreen, scroll_up-IsScreen)
