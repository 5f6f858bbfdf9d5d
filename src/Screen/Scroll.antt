-- ===== src/Screen/Scroll.antt =====
-- Scrolling and the scrollback (src/terminal/screen_buffer.cpp).
use rivt.Base.{
  ℕ, zero, suc, ◌+◌, ◌-◌, ◌%◌, min, Bool, false, not, ◌&&◌, ◌||◌, map, List, [], ◌∷◌, ◌++◌, length,
  drop, get_or, leb, ltb, ◌==◌, if◌then◌else◌,
}
use rivt.Base.Int.{ℤ, pos, pos_part, ◌+ℤ◌, ◌-ℤ◌, ltb_ℤ, leb_ℤ}
use rivt.Snapshot.Cells.{Line}
use rivt.Screen.State.{Screen, blank_line, mark_dirty, sline, put_sline, emit}
use rivt.Screen.Fields.{Call}

-- One round of the loop that trims the scrollback.
unfoldable pub pop_scrollback : Screen → Screen
unfolding ◌+ℤ◌
pop_scrollback s =
    let rest = drop 1 s.scrollback in
    let trimmed = s.scrollback_trimmed +ℤ pos 1 in
    record s {
      scrollback = rest;
      scrollback_trimmed = trimmed;
      viewport_back = min s.viewport_back (length rest);
      calls = s.calls ++ (Call.gc_placements trimmed ∷ []);
    }

-- The loop ends at an empty scrollback at the latest, unless the limit is negative, when it goes on
-- to take from an empty deque; here it stops.
unfoldable pub trim_scrollback : ℕ → Screen → Screen
unfolding pop_scrollback
trim_scrollback zero s = s
trim_scrollback (suc f) s =
    let rest = trim_scrollback f (pop_scrollback s) in
    if ltb_ℤ s.scrollback_limit (pos (length s.scrollback)) then rest else s

unfoldable pub push_scrollback : Line → Screen → Screen
unfolding trim_scrollback
push_scrollback l s =
    let longer = record s { scrollback = s.scrollback ++ (l ∷ []) } in
    if s.using_alt_screen then s else trim_scrollback (suc (length s.scrollback)) longer

-- What scroll_up does first: row 0 goes to the scrollback, and a viewport that is scrolled back
-- stays on its lines.
unfoldable pub save_top : Screen → Screen
unfolding push_scrollback sline
save_top s =
    let pushed = push_scrollback (sline s 0) s in
    record pushed {
      viewport_back =
          if ltb 0 pushed.viewport_back then suc pushed.viewport_back else pushed.viewport_back;
    }

-- `for (r = top; r < bottom; r++) sline(r) = sline(r + 1)`, in `n` rounds.
unfoldable pub shift_up : ℕ → ℕ → Screen → Screen
unfolding sline put_sline
shift_up zero r s = s
shift_up (suc n) r s = shift_up n (suc r) (put_sline r (mark_dirty (sline s (suc r))) s)

-- `for (r = bottom; r > top; r--) sline(r) = sline(r - 1)`, in `n` rounds.
unfoldable pub shift_down : ℕ → ℕ → Screen → Screen
unfolding sline put_sline
shift_down zero top s = s
shift_down (suc n) top s =
    shift_down n top (put_sline (top + suc n) (mark_dirty (sline s (top + n))) s)

unfoldable pub rotate_up : Screen → Screen
unfolding sline put_sline
rotate_up s =
    let wiped = put_sline 0 (blank_line s.cols) s in
    let turned = record wiped { screen_top = (s.screen_top + 1) % length s.screen } in
    put_sline (s.rows - 1) (mark_dirty (sline turned (s.rows - 1))) turned

unfoldable pub rotate_down : Screen → Screen
unfolding put_sline
rotate_down s =
    let turned = record s { screen_top = (s.screen_top + length s.screen - 1) % length s.screen } in
    put_sline 0 (blank_line s.cols) turned

-- One round of scroll_up; `stop` is the row behind the bottom.
unfoldable pub scroll_up_once : ℕ → ℕ → Screen → Screen
unfolding save_top rotate_up shift_up put_sline
scroll_up_once top stop s =
    let saved = if top == 0 && not s.using_alt_screen then save_top s else s in
    if top == 0 && stop == s.rows
    then rotate_up saved
    else put_sline (stop - 1) (blank_line s.cols) (shift_up (stop - 1 - top) top saved)

unfoldable pub scroll_down_once : ℕ → ℕ → Screen → Screen
unfolding rotate_down shift_down put_sline
scroll_down_once top stop s =
    if top == 0 && stop == s.rows
    then rotate_down s
    else put_sline top (blank_line s.cols) (shift_down (stop - 1 - top) top s)

abbrev pub repeat : ℕ → (Screen → Screen) → Screen → Screen
repeat zero body s = s
repeat (suc n) body s = repeat n body (body s)

unfoldable pub scroll_up : ℕ → ℕ → ℕ → Screen → Screen
unfolding scroll_up_once
scroll_up top stop count = repeat (min count (stop - top)) (scroll_up_once top stop)

unfoldable pub scroll_down : ℕ → ℕ → ℕ → Screen → Screen
unfolding scroll_down_once
scroll_down top stop count = repeat (min count (stop - top)) (scroll_down_once top stop)

-- ScreenBuffer::scroll_viewport, towards the history for a negative `delta`.
unfoldable pub scroll_viewport : ℤ → Screen → Screen
unfolding ◌-ℤ◌
scroll_viewport delta s =
    let back = min (pos_part (pos s.viewport_back -ℤ delta)) (length s.scrollback) in
    let near_top = ltb_ℤ (pos 0) s.scrollback_trimmed && leb (length s.scrollback) (back + 200) in
    emit (s.hooks.scrollback_wanted && near_top) Call.scrollback_wanted
      (record s { viewport_back = back })

unfoldable pub scroll_to_bottom : Screen → Screen
scroll_to_bottom s = record s { viewport_back = 0 }

-- ScreenBuffer::prepend_scrollback
unfoldable pub prepend_scrollback : List Line → Screen → Screen
unfolding ◌-ℤ◌
prepend_scrollback lines s = record s {
  scrollback = lines ++ s.scrollback;
  scrollback_trimmed = s.scrollback_trimmed -ℤ pos (length lines);
}

unfoldable pub screen_line : Screen → ℤ → Line
unfolding sline
screen_line s row =
    if leb_ℤ (pos 0) row && ltb_ℤ row (pos (length s.screen))
    then sline s (pos_part row)
    else blank_line 0

-- ScreenBuffer::line: a row of the viewport, out of the history where it is scrolled back.
unfoldable pub line : Screen → ℤ → Line
unfolding screen_line ◌+ℤ◌ ◌-ℤ◌
line s row =
    let size = pos (length s.scrollback) in
    let sb_row = size -ℤ pos s.viewport_back +ℤ row in
    if s.viewport_back == 0
    then screen_line s row
    else if ltb_ℤ sb_row (pos 0)
    then blank_line 0
    else if ltb_ℤ sb_row size
    then get_or s.scrollback (pos_part sb_row) (blank_line 0)
    else screen_line s (sb_row -ℤ size)

-- ScreenBuffer::absolute_line
unfoldable pub absolute_line : Screen → ℤ → ℤ
unfolding ◌+ℤ◌ ◌-ℤ◌
absolute_line s row =
    s.scrollback_trimmed +ℤ pos (length s.scrollback) -ℤ pos s.viewport_back +ℤ row

-- ScreenBuffer::any_dirty, clear_dirty
unfoldable pub any_dirty_line : List Line → Bool
any_dirty_line [] = false
any_dirty_line (l ∷ ls) = l.dirty || any_dirty_line ls

unfoldable pub any_dirty : Screen → Bool
unfolding any_dirty_line
any_dirty s = any_dirty_line s.screen

unfoldable pub clear_dirty : Screen → Screen
clear_dirty s = record s { screen = map (λ (l : Line). record l { dirty = false }) s.screen }
