-- ===== src/Screen/Resize.antt =====
-- ScreenBuffer::resize (src/terminal/screen_buffer.cpp). The new width and height are positive.
use rivt.Base.{
  ℕ, zero, suc, ◌+◌, ◌-◌, min, not, ◌&&◌, ◌∷◌, map, length, get_or, take, drop, leb, ltb, ◌==◌,
  if◌then◌else◌,
}
use rivt.Screen.State.{Screen, blank_line, mark_dirty, resize_line, linearize_screen}
use rivt.Screen.Scroll.{push_scrollback}
use rivt.Screen.Reflow.{is_nil, resize_list, reflow}

-- The loop that pushes rows from the top, which ends at an empty screen.
unfoldable pub push_rows : ℕ → Screen → Screen
unfolding push_scrollback
push_rows zero s = s
push_rows (suc n) s =
    let pushed = push_scrollback (get_or s.screen 0 (blank_line 0)) s in
    let rest = push_rows n (record pushed { screen = drop 1 pushed.screen }) in
    if is_nil s.screen then s else rest

-- The loop that takes rows back from the scrollback, in at most `n` rounds.
unfoldable pub pull_rows : ℕ → ℕ → Screen → Screen
unfolding resize_line
pull_rows cols zero s = s
pull_rows cols (suc n) s =
    let last = length s.scrollback - 1 in
    let pulled = record s {
      screen = resize_line cols (get_or s.scrollback last (blank_line 0)) ∷ s.screen;
      scrollback = take last s.scrollback;
      cursor_row = suc s.cursor_row;
    } in
    let rest = pull_rows cols n pulled in if is_nil s.scrollback then s else rest

-- What stays above the cursor goes to the scrollback.
unfoldable pub shrink_rows : ℕ → Screen → Screen
unfolding push_rows
shrink_rows rows s =
    let count = s.cursor_row - rows + 1 in
    let pushed = push_rows count s in
    if ltb rows s.rows && leb rows s.cursor_row
    then record pushed { cursor_row = pushed.cursor_row - count }
    else s

unfoldable pub grow_rows : ℕ → ℕ → Screen → Screen
unfolding pull_rows resize_line
grow_rows cols rows s =
    let resized = record s { screen = map (resize_line cols) s.screen } in
    let pulled = pull_rows cols (rows - length s.screen) resized in
    record pulled { screen = resize_list rows (blank_line cols) pulled.screen }

-- The dimensions, and what they limit.
unfoldable pub set_size : ℕ → ℕ → Screen → Screen
unfolding resize_line
set_size cols rows s = record s {
  alt_screen = map (resize_line cols) (resize_list rows (blank_line cols) s.alt_screen);
  cols = cols;
  rows = rows;
  scroll_top = 0;
  scroll_end = rows;
  cursor_row = min s.cursor_row (rows - 1);
  cursor_col = min s.cursor_col (cols - 1);
  screen = map mark_dirty s.screen;
}

unfoldable pub resize : ℕ → ℕ → Screen → Screen
unfolding linearize_screen reflow shrink_rows grow_rows set_size
resize cols rows s =
    let straight = linearize_screen s in
    if cols == s.cols && rows == s.rows
    then s
    else if not (cols == s.cols) && not s.using_alt_screen
    then reflow cols rows straight
    else set_size cols rows (grow_rows cols rows (shrink_rows rows straight))
