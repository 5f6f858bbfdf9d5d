-- ===== src/Screen/Invariant/Modes.antt =====
-- Modes, the saved cursor and the alternate screen keep the screen well formed
-- (src/terminal/screen_buffer.cpp).
use rivt.Base.{ℕ, refl, Bool, not, [], map, ◌==◌}
use rivt.Snapshot.Cells.{Line}
use rivt.Screen.State.{Screen, mark_dirty, blank_line, linearize_screen}
use rivt.Screen.Fields.{Modes, Selection}
use rivt.Screen.Modes.{
  save_cursor, restore_cursor, clear_selection, swap_to_alt, wipe_screen, enter_alt_screen,
  swap_to_main, leave_alt_screen, set_flag, set_mode,
}
use rivt.Screen.WellFormed.{Grid-map, blank-HasCols, same_cells-HasCols, if-IsScreen}
use rivt.Screen.Fits.{HasCols, IsScreen, with-Grid, with_swap, with_cursor, with_saved}
use rivt.Screen.Invariant.Scroll.{linearize_screen-IsScreen}
use rivt.Screen.Invariant.Edit.{set_cursor-IsScreen}

module _ (cols rows : ℕ) where
  pub save_cursor-IsScreen :
      (s : Screen) → IsScreen cols rows s → IsScreen cols rows (save_cursor s)
  unfolding IsScreen save_cursor
  save_cursor-IsScreen s v = with_saved v v.cursor_ok

  pub restore_cursor-IsScreen :
      (s : Screen) → IsScreen cols rows s → IsScreen cols rows (restore_cursor s)
  unfolding IsScreen restore_cursor
  restore_cursor-IsScreen s v = with_cursor v v.saved_ok

  map_lines-IsScreen :
      (f : Line → Line) (s : Screen)
      → ((l : Line) → HasCols cols l → HasCols cols (f l))
      → IsScreen cols rows s
      → IsScreen cols rows (record s { screen = map f s.screen })
  unfolding IsScreen
  map_lines-IsScreen f s h v = with-Grid v (Grid-map cols rows f s.screen h v.grid)

  wipe_screen-IsScreen : (s : Screen) → IsScreen cols rows s → IsScreen cols rows (wipe_screen s)
  unfolding wipe_screen
  wipe_screen-IsScreen s v =
      map_lines-IsScreen (λ _. blank_line s.cols) s (λ l h. blank-HasCols cols rows s v) v

  swap_to_alt-IsScreen : (s : Screen) → IsScreen cols rows s → IsScreen cols rows (swap_to_alt s)
  unfolding swap_to_alt
  swap_to_alt-IsScreen s v =
      if-IsScreen cols rows s.using_alt_screen s _ v (unfold IsScreen in (with_swap v))

  swap_to_main-IsScreen : (s : Screen) → IsScreen cols rows s → IsScreen cols rows (swap_to_main s)
  unfolding swap_to_main
  swap_to_main-IsScreen s v =
      if-IsScreen cols rows s.using_alt_screen _ s
        (unfold IsScreen in (with_swap (linearize_screen-IsScreen cols rows s v))) v

  set_selection-IsScreen :
      (sel : Selection) (s : Screen)
      → IsScreen cols rows s
      → IsScreen cols rows (record s { selection = sel })
  unfolding IsScreen
  set_selection-IsScreen sel s v = v

  keep_keyboard-IsScreen :
      (s : Screen)
      → IsScreen cols rows s
      → IsScreen cols rows (record s { saved_kitty_kbd_stack = s.kitty_kbd_stack })
  unfolding IsScreen
  keep_keyboard-IsScreen s v = v

  enter_alt_screen-IsScreen :
      (s : Screen) → IsScreen cols rows s → IsScreen cols rows (enter_alt_screen s)
  unfolding enter_alt_screen
  enter_alt_screen-IsScreen s v = set_cursor-IsScreen cols rows 0 0 _ (
      wipe_screen-IsScreen _ (
        swap_to_alt-IsScreen _ (
          keep_keyboard-IsScreen _ (
            save_cursor-IsScreen _ (
              set_selection-IsScreen _ (linearize_screen s)
                (linearize_screen-IsScreen cols rows s v))))))

  restored_keyboard-IsScreen :
      (s : Screen)
      → IsScreen cols rows s
      → IsScreen cols rows
          (record s { kitty_kbd_stack = s.saved_kitty_kbd_stack; saved_kitty_kbd_stack = [] })
  unfolding IsScreen
  restored_keyboard-IsScreen s v = v

  leave_alt_screen-IsScreen :
      (s : Screen) → IsScreen cols rows s → IsScreen cols rows (leave_alt_screen s)
  unfolding leave_alt_screen
  leave_alt_screen-IsScreen s v = restored_keyboard-IsScreen _ (
      map_lines-IsScreen mark_dirty _ (λ l h. same_cells-HasCols cols (mark_dirty l) l refl h)
        (restore_cursor-IsScreen _
          (swap_to_main-IsScreen _ (set_selection-IsScreen (clear_selection s.selection) s v))))

  set_flags-IsScreen :
      (m : Modes) (s : Screen) → IsScreen cols rows s → IsScreen cols rows (record s { modes = m })
  unfolding IsScreen
  set_flags-IsScreen m s v = v

  pub set_mode-IsScreen :
      (mode : ℕ) (enable dec_private : Bool) (s : Screen)
      → IsScreen cols rows s
      → IsScreen cols rows (set_mode mode enable dec_private s)
  unfolding set_mode
  set_mode-IsScreen mode enable dec_private s v = if-IsScreen cols rows (not dec_private) s _ v (
      if-IsScreen cols rows (mode == 1049) _ _
        (if-IsScreen cols rows enable _ _ (enter_alt_screen-IsScreen s v)
          (leave_alt_screen-IsScreen s v))
        (set_flags-IsScreen (set_flag mode enable s.modes) s v))
