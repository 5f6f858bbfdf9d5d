-- ===== src/Screen/Invariant/Handler.antt =====
-- OSC and escape sequences, and the calls of the handler together, keep the screen well formed
-- (src/terminal/screen_buffer.cpp).
use rivt.Base.{
  ℕ, subst, sym, Bool, ◌+◌, ◌-◌, ◌^◌, ◌<◌, ◌≡◌, true, refl, ◌||◌, List, [], ◌∷◌, Option, none, some,
  ◌==◌, arith,
}
use rivt.Base.Bytes.{Bytes, All}
use rivt.Base.Int.{ℤ, pos, negsuc}
use rivt.Vt.Parser.{Action, split_semicolon}
use rivt.Screen.State.{Screen, sline, new_screen}
use rivt.Screen.Fields.{Call}
use rivt.Screen.Strings.{
  clipboard_parts, clipboard, start_link, hyperlink_parts, hyperlink, mark_zone,
  osc_command_dispatch, osc_dispatch, reverse_index, full_reset, esc_plain, esc_dispatch, handle,
  handle_all,
}
use rivt.Screen.Dispatch.{count_arg}
use rivt.Screen.WellFormed.{
  new_screen-IsScreen, if-IsScreen, IsScreen-cols, IsScreen-rows, IsScreen-cols_pos,
  IsScreen-cursor, IsScreen-top, IsScreen-no_fault,
}
use rivt.Screen.Fits.{IsScreen}
use rivt.Screen.Invariant.Scroll.{emit-IsScreen, scroll_down-IsScreen}
use rivt.Screen.Invariant.Edit.{set_row-IsScreen, put_changed-IsScreen, new_line-IsScreen}
use rivt.Screen.Invariant.Modes.{save_cursor-IsScreen, restore_cursor-IsScreen}
use rivt.Screen.Invariant.Calls.{
  set_charsets-IsScreen, set_col_zero-IsScreen, print-IsScreen, execute-IsScreen,
  csi_dispatch-IsScreen,
}

module _ (cols rows : ℕ) where
  clipboard_parts-IsScreen :
      (parts : Option (Bytes × Bytes)) (s : Screen)
      → IsScreen cols rows s
      → IsScreen cols rows (clipboard_parts parts s)
  unfolding clipboard_parts
  clipboard_parts-IsScreen none s v = v
  clipboard_parts-IsScreen (some (sel, rest)) s v = search (if-IsScreen, emit-IsScreen)

  clipboard-IsScreen :
      (payload : Bytes) (s : Screen)
      → IsScreen cols rows s
      → IsScreen cols rows (clipboard payload s)
  unfolding clipboard
  clipboard-IsScreen payload s v = clipboard_parts-IsScreen (split_semicolon payload) s v

  start_link-IsScreen :
      (uri : Bytes) (s : Screen) → IsScreen cols rows s → IsScreen cols rows (start_link uri s)
  unfolding start_link IsScreen
  start_link-IsScreen uri s v = v

  end_link-IsScreen :
      (s : Screen) → IsScreen cols rows s → IsScreen cols rows (record s { cur_hyperlink_id = 0 })
  unfolding IsScreen
  end_link-IsScreen s v = v

  hyperlink_parts-IsScreen :
      (parts : Option (Bytes × Bytes)) (s : Screen)
      → IsScreen cols rows s
      → IsScreen cols rows (hyperlink_parts parts s)
  unfolding hyperlink_parts
  hyperlink_parts-IsScreen none s v = v
  hyperlink_parts-IsScreen (some (params, [])) s v = end_link-IsScreen s v
  hyperlink_parts-IsScreen (some (params, c ∷ cs)) s v = start_link-IsScreen (c ∷ cs) s v

  hyperlink-IsScreen :
      (payload : Bytes) (s : Screen)
      → IsScreen cols rows s
      → IsScreen cols rows (hyperlink payload s)
  unfolding hyperlink
  hyperlink-IsScreen payload s v = hyperlink_parts-IsScreen (split_semicolon payload) s v

  mark_zone-IsScreen :
      (payload : Bytes) (s : Screen)
      → IsScreen cols rows s
      → IsScreen cols rows (mark_zone payload s)
  unfolding mark_zone
  mark_zone-IsScreen [] s v = v
  mark_zone-IsScreen (zone ∷ _) s v =
      if-IsScreen cols rows (zone == b'A' || zone == b'C') _ s
        (put_changed-IsScreen cols rows s.cursor_row
          (record (sline s s.cursor_row) { semantic_zone = zone }) s refl v)
        v

  osc_dispatch-IsScreen :
      (command : ℤ) (payload : Bytes) (s : Screen)
      → IsScreen cols rows s
      → IsScreen cols rows (osc_dispatch command payload s)
  unfolding osc_dispatch osc_command_dispatch
  osc_dispatch-IsScreen (pos command) payload s v =
      search
        (if-IsScreen, emit-IsScreen, clipboard-IsScreen, hyperlink-IsScreen, mark_zone-IsScreen)
        depth 8
  osc_dispatch-IsScreen (negsuc n) payload s v = v

  row_up-IsScreen :
      (s : Screen)
      → IsScreen cols rows s
      → IsScreen cols rows (record s { cursor_row = s.cursor_row - 1 })
  row_up-IsScreen s v =
      set_row-IsScreen cols rows (s.cursor_row - 1) s
        (omega (arith, (IsScreen-cursor cols rows s v).row_ok)) v

  reverse_index-IsScreen :
      (s : Screen) → IsScreen cols rows s → IsScreen cols rows (reverse_index s)
  unfolding reverse_index
  reverse_index-IsScreen s v = search (if-IsScreen, scroll_down-IsScreen, row_up-IsScreen s v)

  new_store-IsScreen :
      (cs : List Call) (b : Bool) (s : Screen)
      → s.faulted ≡ b
      → IsScreen cols rows s
      → IsScreen cols rows (record s { calls = cs; faulted = b })
  unfolding IsScreen
  new_store-IsScreen cs b s e v =
      subst (λ c. IsScreen cols rows (record s { calls = cs; faulted = c })) e v

  full_reset-IsScreen : (s : Screen) → IsScreen cols rows s → IsScreen cols rows (full_reset s)
  unfolding full_reset
  full_reset-IsScreen s v =
      new_store-IsScreen _ s.faulted (new_screen s.cols s.rows s.scrollback_limit)
        (sym (IsScreen-no_fault cols rows s v))
        (rw (IsScreen-cols cols rows s v, IsScreen-rows cols rows s v)
          (new_screen-IsScreen cols rows s.scrollback_limit (IsScreen-cols_pos cols rows s v)
            (omega (arith, IsScreen-top cols rows s v))))

  esc_plain-IsScreen :
      (final : ℕ) (s : Screen) → IsScreen cols rows s → IsScreen cols rows (esc_plain final s)
  unfolding esc_plain
  esc_plain-IsScreen final s v =
      let line_start = set_col_zero-IsScreen cols rows s v in
      search
        (
          if-IsScreen, save_cursor-IsScreen, restore_cursor-IsScreen, line_start, new_line-IsScreen,
          reverse_index-IsScreen, full_reset-IsScreen,
        )
        depth 9

  esc_dispatch-IsScreen :
      (intermediate final : ℕ) (s : Screen)
      → IsScreen cols rows s
      → IsScreen cols rows (esc_dispatch intermediate final s)
  unfolding esc_dispatch
  esc_dispatch-IsScreen intermediate final s v =
      if-IsScreen cols rows (intermediate == 0) _ _ (esc_plain-IsScreen final s v) (
        if-IsScreen cols rows (intermediate == b'(') _ _ (set_charsets-IsScreen cols rows _ s v) (
          if-IsScreen cols rows (intermediate == b')') _ _ (set_charsets-IsScreen cols rows _ s v)
            v))

-- An ICH asks for so few cells that the column behind them, from any column on, is an int.
abbrev pub InsertFits : ℕ → Action → Type 0
InsertFits cols (Action.csi_dispatch ps intermediate final) =
    (final == b'@') ≡ true → cols + count_arg ps < 2 ^ 31
InsertFits cols _ = Unit

module _ (apc_dispatch : Bytes → Screen → Screen) (cols rows : ℕ)
    (apc_dispatch-IsScreen : (payload : Bytes) (s : Screen)
      → IsScreen cols rows s
      → IsScreen cols rows (apc_dispatch payload s)) where
  pub handle-IsScreen :
      (a : Action) (s : Screen)
      → InsertFits cols a
      → IsScreen cols rows s
      → IsScreen cols rows (handle apc_dispatch a s)
  unfolding handle
  handle-IsScreen (Action.print cp) s h v = print-IsScreen cols rows cp s v
  handle-IsScreen (Action.execute c) s h v = execute-IsScreen cols rows c s v
  handle-IsScreen (Action.csi_dispatch ps intermediate final) s h v =
      csi_dispatch-IsScreen cols rows ps intermediate final s h v
  handle-IsScreen (Action.osc_dispatch command payload) s h v =
      osc_dispatch-IsScreen cols rows command payload s v
  handle-IsScreen (Action.esc_dispatch intermediate final) s h v =
      esc_dispatch-IsScreen cols rows intermediate final s v
  handle-IsScreen (Action.apc_dispatch payload) s h v = apc_dispatch-IsScreen payload s v
  handle-IsScreen _ s h v = v

  -- Each sequence of calls of the handler keeps a screen well formed and of its size.
  pub handle_all-IsScreen :
      (calls : List Action) (s : Screen)
      → All (InsertFits cols) calls
      → IsScreen cols rows s
      → IsScreen cols rows (handle_all apc_dispatch calls s)
  handle_all-IsScreen [] s h v = v
  handle_all-IsScreen (a ∷ more) s h v = handle_all-IsScreen more _ h.1 (handle-IsScreen a s h.0 v)
