-- ===== src/Screen/Invariant/Calls.antt =====
-- Each call of the handler keeps the screen well formed, and of the same size
-- (src/terminal/screen_buffer.cpp).
use rivt.Base.{
  ℕ, zero, suc, ◌+◌, ◌-◌, ◌*◌, ◌/◌, ◌^◌, ◌<◌, ◌≡◌, refl, min, Bool, true, false, ◌||◌, List, [],
  ◌∷◌, Option, none, some, ◌==◌, arith, if◌then◌else◌,
}
use rivt.Base.Int.{ℤ}
use rivt.Vt.Params.{CsiParam}
use rivt.Screen.State.{Screen}
use rivt.Screen.Fields.{Call, Charsets, Pen}
use rivt.Screen.Edit.{put_char, insert_chars}
use rivt.Screen.Sgr.{handle_sgr}
use rivt.Screen.Dispatch.{
  translate, print, execute, arg, count_arg, repeat_char, set_modes, set_region, status_report,
  device_attributes, kitty_keyboard, erase_in_line, move_cursor, edit_screen, other_csi, or_else,
  csi_dispatch,
}
use rivt.Screen.WellFormed.{if-IsScreen}
use rivt.Screen.Fits.{IsScreen, with_region, with_cursor}
use rivt.Screen.Invariant.Scroll.{emit-IsScreen, scroll_up-IsScreen, scroll_down-IsScreen}
use rivt.Screen.Invariant.Edit.{
  set_col-IsScreen, set_cursor-IsScreen, new_line-IsScreen, put_char-IsScreen, erase_cells-IsScreen,
  erase_display-IsScreen, insert_chars-IsScreen, delete_chars-IsScreen, insert_lines-IsScreen,
  delete_lines-IsScreen,
}
use rivt.Screen.Invariant.Modes.{set_mode-IsScreen}

module _ (cols rows : ℕ) where
  pub set_charsets-IsScreen :
      (c : Charsets) (s : Screen)
      → IsScreen cols rows s
      → IsScreen cols rows (record s { charsets = c })
  unfolding IsScreen
  set_charsets-IsScreen c s v = v

  set_last_printed-IsScreen :
      (cp : ℕ) (s : Screen)
      → IsScreen cols rows s
      → IsScreen cols rows (record s { last_printed = cp })
  unfolding IsScreen
  set_last_printed-IsScreen cp s v = v

  pub print-IsScreen :
      (cp : ℕ) (s : Screen) → IsScreen cols rows s → IsScreen cols rows (print cp s)
  unfolding print
  print-IsScreen cp s v =
      put_char-IsScreen cols rows (translate s.charsets cp) _
        (set_last_printed-IsScreen (translate s.charsets cp) s v)

  back-IsScreen :
      (s : Screen)
      → IsScreen cols rows s
      → IsScreen cols rows (record s { cursor_col = s.cursor_col - 1 })
  unfolding IsScreen
  back-IsScreen s v =
      with_cursor v
        (record { row_ok = v.cursor_ok.row_ok; col_ok = omega (arith, v.cursor_ok.col_ok) })

  tab-IsScreen :
      (col : ℕ) (s : Screen)
      → IsScreen cols rows s
      → IsScreen cols rows (record s { cursor_col = min col (s.cols - 1) })
  unfolding IsScreen
  tab-IsScreen col s v =
      with_cursor v (record { row_ok = v.cursor_ok.row_ok; col_ok = ground (arith, v.cols_eq) })

  pub set_col_zero-IsScreen :
      (s : Screen) → IsScreen cols rows s → IsScreen cols rows (record s { cursor_col = 0 })
  set_col_zero-IsScreen s v = set_col-IsScreen cols rows 0 s (omega arith) v

  pub execute-IsScreen :
      (c : ℕ) (s : Screen) → IsScreen cols rows s → IsScreen cols rows (execute c s)
  unfolding execute
  execute-IsScreen c s v =
      if-IsScreen cols rows (c == 0x07) _ _ (emit-IsScreen cols rows s.hooks.bell Call.bell s v) (
        if-IsScreen cols rows (c == 0x08) _ _ (back-IsScreen s v) (
          if-IsScreen cols rows (c == 0x09) _ _ (tab-IsScreen ((s.cursor_col / 8 + 1) * 8) s v) (
            if-IsScreen cols rows (c == 0x0A || c == 0x0B || c == 0x0C) _ _
              (new_line-IsScreen cols rows s v)
              (if-IsScreen cols rows (c == 0x0D) _ _ (set_col_zero-IsScreen s v) (
                if-IsScreen cols rows (c == 0x0E) _ _ (set_charsets-IsScreen _ s v)
                  (if-IsScreen cols rows (c == 0x0F) _ _ (set_charsets-IsScreen _ s v) v))))))

  repeat_char-IsScreen :
      (n cp : ℕ) (s : Screen) → IsScreen cols rows s → IsScreen cols rows (repeat_char n cp s)
  unfolding repeat_char
  repeat_char-IsScreen zero cp s v = v
  repeat_char-IsScreen (suc n) cp s v =
      repeat_char-IsScreen n cp (put_char cp s) (put_char-IsScreen cols rows cp s v)

  set_modes-IsScreen :
      (ps : List CsiParam) (enable dec_private : Bool) (s : Screen)
      → IsScreen cols rows s
      → IsScreen cols rows (set_modes ps enable dec_private s)
  unfolding set_modes
  set_modes-IsScreen [] enable dec_private s v = v
  set_modes-IsScreen (p ∷ ps) enable dec_private s v =
      set_modes-IsScreen ps enable dec_private _
        (set_mode-IsScreen cols rows (arg (p ∷ []) 0 0) enable dec_private s v)

  region-IsScreen :
      (first last : ℕ) (s : Screen)
      → IsScreen cols rows s
      → IsScreen cols rows (record s { scroll_top = first - 1; scroll_end = min s.rows last })
  unfolding IsScreen
  region-IsScreen first last s v = with_region v (ground (arith, v.rows_eq))

  set_region-IsScreen :
      (first last : ℕ) (s : Screen)
      → IsScreen cols rows s
      → IsScreen cols rows (set_region first last s)
  unfolding set_region
  set_region-IsScreen first last s v =
      set_cursor-IsScreen cols rows 0 0 _ (region-IsScreen first last s v)

  status_report-IsScreen :
      (kind : ℕ) (dec_private : Bool) (s : Screen)
      → IsScreen cols rows s
      → IsScreen cols rows (status_report kind dec_private s)
  unfolding status_report
  status_report-IsScreen kind dec_private s v = search (if-IsScreen, emit-IsScreen)

  device_attributes-IsScreen :
      (intermediate : ℕ) (s : Screen)
      → IsScreen cols rows s
      → IsScreen cols rows (device_attributes intermediate s)
  unfolding device_attributes
  device_attributes-IsScreen intermediate s v = search (if-IsScreen, emit-IsScreen)

  set_keyboard-IsScreen :
      (flags : List ℤ) (s : Screen)
      → IsScreen cols rows s
      → IsScreen cols rows (record s { kitty_kbd_stack = flags })
  unfolding IsScreen
  set_keyboard-IsScreen flags s v = v

  kitty_keyboard-IsScreen :
      (ps : List CsiParam) (intermediate : ℕ) (s : Screen)
      → IsScreen cols rows s
      → IsScreen cols rows (kitty_keyboard ps intermediate s)
  unfolding kitty_keyboard
  kitty_keyboard-IsScreen ps intermediate s v =
      if-IsScreen cols rows (intermediate == b'?') _ _
        (emit-IsScreen cols rows s.hooks.write_back _ s v)
        (if-IsScreen cols rows (intermediate == b'>') _ _ (set_keyboard-IsScreen _ s v)
          (if-IsScreen cols rows (intermediate == b'<') _ _ (set_keyboard-IsScreen _ s v) v))

  erase_in_line-IsScreen :
      (mode : ℕ) (s : Screen) → IsScreen cols rows s → IsScreen cols rows (erase_in_line mode s)
  unfolding erase_in_line
  erase_in_line-IsScreen mode s v = search (if-IsScreen, erase_cells-IsScreen)

  -- The state that a case makes, if it is one of these.
  unfoldable AreScreens : Option Screen → Type 0
  AreScreens none = Unit
  AreScreens (some s) = IsScreen cols rows s

  if-AreScreens :
      (b : Bool) (s : Screen) (o : Option Screen)
      → IsScreen cols rows s
      → AreScreens o
      → AreScreens (if b then some s else o)
  unfolding AreScreens
  if-AreScreens true s o p q = p
  if-AreScreens false s o p q = q

  none-AreScreens : AreScreens none
  unfolding AreScreens
  none-AreScreens = tt

  or_else-IsScreen :
      (o : Option Screen) (t : Screen)
      → AreScreens o
      → IsScreen cols rows t
      → IsScreen cols rows (or_else o t)
  unfolding AreScreens
  or_else-IsScreen none t p q = q
  or_else-IsScreen (some s) t p q = p

  move_cursor-AreScreens :
      (ps : List CsiParam) (final : ℕ) (s : Screen)
      → IsScreen cols rows s
      → AreScreens (move_cursor ps final s)
  unfolding move_cursor
  move_cursor-AreScreens ps final s v =
      search (if-AreScreens, none-AreScreens, set_cursor-IsScreen) depth 14

  insert-AreScreens :
      (b : Bool) (n : ℕ) (s : Screen) (o : Option Screen)
      → (b ≡ true → cols + n < 2 ^ 31)
      → IsScreen cols rows s
      → AreScreens o
      → AreScreens (if b then some (insert_chars n s) else o)
  unfolding AreScreens
  insert-AreScreens true n s o h p q = insert_chars-IsScreen cols rows n s (h refl) p
  insert-AreScreens false n s o h p q = q

  edit_screen-AreScreens :
      (ps : List CsiParam) (final : ℕ) (s : Screen)
      → ((final == b'@') ≡ true → cols + count_arg ps < 2 ^ 31)
      → IsScreen cols rows s
      → AreScreens (edit_screen ps final s)
  unfolding edit_screen
  edit_screen-AreScreens ps final s h v =
      search
        (
          insert-AreScreens, if-AreScreens, none-AreScreens, if-IsScreen, erase_display-IsScreen,
          erase_in_line-IsScreen, insert_lines-IsScreen, delete_lines-IsScreen,
          delete_chars-IsScreen, scroll_up-IsScreen, scroll_down-IsScreen, erase_cells-IsScreen,
          repeat_char-IsScreen,
        )
        depth 16 fits 3000

  set_pen-IsScreen :
      (p : Pen) (s : Screen) → IsScreen cols rows s → IsScreen cols rows (record s { pen = p })
  unfolding IsScreen
  set_pen-IsScreen p s v = v

  other_csi-IsScreen :
      (ps : List CsiParam) (intermediate final : ℕ) (s : Screen)
      → IsScreen cols rows s
      → IsScreen cols rows (other_csi ps intermediate final s)
  unfolding other_csi
  other_csi-IsScreen ps intermediate final s v =
      let pen = set_pen-IsScreen (handle_sgr ps s.pen) s v in
      search
        (
          pen, if-IsScreen, set_modes-IsScreen, set_region-IsScreen, status_report-IsScreen,
          device_attributes-IsScreen, kitty_keyboard-IsScreen,
        )
        depth 12 fits 3000

  pub csi_dispatch-IsScreen :
      (ps : List CsiParam) (intermediate final : ℕ) (s : Screen)
      → ((final == b'@') ≡ true → cols + count_arg ps < 2 ^ 31)
      → IsScreen cols rows s
      → IsScreen cols rows (csi_dispatch ps intermediate final s)
  unfolding csi_dispatch
  csi_dispatch-IsScreen ps intermediate final s h v =
      or_else-IsScreen (move_cursor ps final s) _ (move_cursor-AreScreens ps final s v) (
        or_else-IsScreen (edit_screen ps final s) _ (edit_screen-AreScreens ps final s h v)
          (other_csi-IsScreen ps intermediate final s v))
