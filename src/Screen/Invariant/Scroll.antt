-- ===== src/Screen/Invariant/Scroll.antt =====
-- Scrolling keeps the screen well formed (src/terminal/screen_buffer.cpp).
use rivt.Base.{
  ◌++◌, ◌∷◌, [], ◌%◌, Bool, ℕ, zero, suc, ◌+◌, ◌-◌, refl, min, not, ◌&&◌, length, ◌==◌, arith,
}
use rivt.Base.Int.{ltb_ℤ, pos}
use rivt.Snapshot.Cells.{Line}
use native.Mathlib.Nat.{mod-lt}
use rivt.Screen.State.{Screen, blank_line, mark_dirty, sline, put_sline, emit, linearize_screen}
use rivt.Screen.Fields.{Call}
use rivt.Screen.Scroll.{
  pop_scrollback, trim_scrollback, push_scrollback, save_top, shift_up, shift_down, rotate_up,
  rotate_down, scroll_up_once, scroll_down_once, repeat, scroll_up, scroll_down,
}
use rivt.Screen.WellFormed.{
  Grid-rotated, same_cells-HasCols, blank-HasCols, sline-HasCols, put_sline-IsScreen, if-IsScreen,
}
use rivt.Screen.Fits.{IsScreen, with_top, with-Grid}

module _ (cols rows : ℕ) where
  pub emit-IsScreen :
      (b : Bool) (c : Call) (s : Screen) → IsScreen cols rows s → IsScreen cols rows (emit b c s)
  unfolding IsScreen
  emit-IsScreen b c s v = v

  pub linearize_screen-IsScreen :
      (s : Screen) → IsScreen cols rows s → IsScreen cols rows (linearize_screen s)
  unfolding IsScreen linearize_screen
  linearize_screen-IsScreen s v =
      with_top (with-Grid v (Grid-rotated cols rows s.screen_top s.screen v.grid))
        (omega (arith, v.top_ok))

  pop_scrollback-IsScreen :
      (s : Screen) → IsScreen cols rows s → IsScreen cols rows (pop_scrollback s)
  unfolding IsScreen pop_scrollback
  pop_scrollback-IsScreen s v = v

  trim_scrollback-IsScreen :
      (f : ℕ) (s : Screen) → IsScreen cols rows s → IsScreen cols rows (trim_scrollback f s)
  unfolding trim_scrollback
  trim_scrollback-IsScreen zero s v = v
  trim_scrollback-IsScreen (suc f) s v =
      if-IsScreen cols rows (ltb_ℤ s.scrollback_limit (pos (length s.scrollback))) _ s
        (trim_scrollback-IsScreen f (pop_scrollback s) (pop_scrollback-IsScreen s v)) v

  pub longer-IsScreen :
      (l : Line) (s : Screen)
      → IsScreen cols rows s
      → IsScreen cols rows (record s { scrollback = s.scrollback ++ (l ∷ []) })
  unfolding IsScreen
  longer-IsScreen l s v = v

  pub push_scrollback-IsScreen :
      (l : Line) (s : Screen) → IsScreen cols rows s → IsScreen cols rows (push_scrollback l s)
  unfolding push_scrollback
  push_scrollback-IsScreen l s v =
      if-IsScreen cols rows s.using_alt_screen s _ v
        (trim_scrollback-IsScreen (suc (length s.scrollback)) _ (longer-IsScreen l s v))

  pub save_top-IsScreen : (s : Screen) → IsScreen cols rows s → IsScreen cols rows (save_top s)
  unfolding save_top IsScreen
  save_top-IsScreen s v = push_scrollback-IsScreen (sline s 0) s v

  -- A line of the screen, marked dirty, in another place of it.
  pub put_line-IsScreen :
      (row from : ℕ) (s t : Screen)
      → IsScreen cols rows t
      → IsScreen cols rows s
      → IsScreen cols rows (put_sline row (mark_dirty (sline t from)) s)
  put_line-IsScreen row from s t w v =
      put_sline-IsScreen cols rows s v row (mark_dirty (sline t from)) (
        same_cells-HasCols cols (mark_dirty (sline t from)) (sline t from) refl
          (sline-HasCols cols rows t w from))

  pub put_blank-IsScreen :
      (row : ℕ) (s t : Screen)
      → IsScreen cols rows t
      → IsScreen cols rows s
      → IsScreen cols rows (put_sline row (blank_line t.cols) s)
  put_blank-IsScreen row s t w v =
      put_sline-IsScreen cols rows s v row (blank_line t.cols) (blank-HasCols cols rows t w)

  pub shift_up-IsScreen :
      (n r : ℕ) (s : Screen) → IsScreen cols rows s → IsScreen cols rows (shift_up n r s)
  unfolding shift_up
  shift_up-IsScreen zero r s v = v
  shift_up-IsScreen (suc n) r s v =
      shift_up-IsScreen n (suc r) _ (put_line-IsScreen r (suc r) s s v v)

  pub shift_down-IsScreen :
      (n top : ℕ) (s : Screen) → IsScreen cols rows s → IsScreen cols rows (shift_down n top s)
  unfolding shift_down
  shift_down-IsScreen zero top s v = v
  shift_down-IsScreen (suc n) top s v =
      shift_down-IsScreen n top _ (put_line-IsScreen (top + suc n) (top + n) s s v v)

  -- A turn of the ring buffer.
  pub set_top-IsScreen :
      (s t : Screen) (top : ℕ)
      → IsScreen cols rows t
      → IsScreen cols rows s
      → IsScreen cols rows (record s { screen_top = top % length t.screen })
  unfolding IsScreen
  set_top-IsScreen s t top w v = with_top v (
      omega (
        arith,
        mod-lt top {m = length t.screen} (omega (arith, w.grid.size_ok, w.top_ok)),
        w.grid.size_ok,
      ))

  rotate_up-IsScreen : (s : Screen) → IsScreen cols rows s → IsScreen cols rows (rotate_up s)
  unfolding rotate_up
  rotate_up-IsScreen s v =
      let turned = set_top-IsScreen _ s (s.screen_top + 1) v (put_blank-IsScreen 0 s s v v) in
      put_line-IsScreen (s.rows - 1) (s.rows - 1) _ _ turned turned

  rotate_down-IsScreen : (s : Screen) → IsScreen cols rows s → IsScreen cols rows (rotate_down s)
  unfolding rotate_down
  rotate_down-IsScreen s v =
      put_blank-IsScreen 0 _ s v (set_top-IsScreen s s (s.screen_top + length s.screen - 1) v v)

  pub scroll_up_once-IsScreen :
      (top stop : ℕ) (s : Screen)
      → IsScreen cols rows s
      → IsScreen cols rows (scroll_up_once top stop s)
  unfolding scroll_up_once
  scroll_up_once-IsScreen top stop s v =
      let saved =
        if-IsScreen cols rows (top == 0 && not s.using_alt_screen) (save_top s) s
          (save_top-IsScreen s v) v in
      if-IsScreen cols rows (top == 0 && stop == s.rows) _ _ (rotate_up-IsScreen _ saved)
        (put_blank-IsScreen (stop - 1) _ s v (shift_up-IsScreen (stop - 1 - top) top _ saved))

  pub scroll_down_once-IsScreen :
      (top stop : ℕ) (s : Screen)
      → IsScreen cols rows s
      → IsScreen cols rows (scroll_down_once top stop s)
  unfolding scroll_down_once
  scroll_down_once-IsScreen top stop s v =
      if-IsScreen cols rows (top == 0 && stop == s.rows) _ _ (rotate_down-IsScreen s v)
        (put_blank-IsScreen top _ s v (shift_down-IsScreen (stop - 1 - top) top s v))

  repeat-IsScreen :
      (n : ℕ) (body : Screen → Screen) (s : Screen)
      → ((t : Screen) → IsScreen cols rows t → IsScreen cols rows (body t))
      → IsScreen cols rows s
      → IsScreen cols rows (repeat n body s)
  repeat-IsScreen zero body s h v = v
  repeat-IsScreen (suc n) body s h v = repeat-IsScreen n body (body s) h (h s v)

  pub scroll_up-IsScreen :
      (top stop count : ℕ) (s : Screen)
      → IsScreen cols rows s
      → IsScreen cols rows (scroll_up top stop count s)
  unfolding scroll_up
  scroll_up-IsScreen top stop count s v =
      repeat-IsScreen (min count (stop - top)) _ s (scroll_up_once-IsScreen top stop) v

  pub scroll_down-IsScreen :
      (top stop count : ℕ) (s : Screen)
      → IsScreen cols rows s
      → IsScreen cols rows (scroll_down top stop count s)
  unfolding scroll_down
  scroll_down-IsScreen top stop count s v =
      repeat-IsScreen (min count (stop - top)) _ s (scroll_down_once-IsScreen top stop) v
