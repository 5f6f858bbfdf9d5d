-- ===== src/Screen/Modes.antt =====
-- ScreenBuffer::set_mode, and the saved cursor (src/terminal/screen_buffer.cpp).
use rivt.Base.{ℕ, Bool, true, false, not, [], map, ◌==◌, if◌then◌else◌}
use rivt.Screen.State.{Screen, blank_line, mark_dirty, linearize_screen}
use rivt.Screen.Fields.{Modes, Selection}
use rivt.Screen.Edit.{set_cursor}

-- DECSC: `m_saved_cursor = { … }`
unfoldable pub save_cursor : Screen → Screen
save_cursor s = record s {
  saved_cursor = record {
    row = s.cursor_row;
    col = s.cursor_col;
    fg = s.pen.fg;
    bg = s.pen.bg;
    attrs = s.pen.attrs;
    g0 = s.charsets.g0;
    g1 = s.charsets.g1;
    gl = s.charsets.gl;
  };
}

-- DECRC
unfoldable pub restore_cursor : Screen → Screen
restore_cursor s =
    let saved = s.saved_cursor in
    record s {
      cursor_row = saved.row;
      cursor_col = saved.col;
      pen = record { fg = saved.fg; bg = saved.bg; attrs = saved.attrs };
      charsets = record { g0 = saved.g0; g1 = saved.g1; gl = saved.gl };
    }

-- `selection.clear()`
abbrev pub clear_selection : Selection → Selection
clear_selection sel = record sel { active = false; rectangular = false }

unfoldable pub swap_to_alt : Screen → Screen
swap_to_alt s = if s.using_alt_screen then s else record s {
  screen = s.alt_screen;
  alt_screen = s.screen;
  using_alt_screen = true;
  screen_top = 0;
  saved_viewport_back = s.viewport_back;
  viewport_back = 0;
}

unfoldable pub wipe_screen : Screen → Screen
wipe_screen s = record s { screen = map (λ _. blank_line s.cols) s.screen }

-- 1049 with `enable`.
unfoldable pub enter_alt_screen : Screen → Screen
unfolding linearize_screen save_cursor swap_to_alt wipe_screen set_cursor
enter_alt_screen s =
    let straight = linearize_screen s in
    let saved = save_cursor (record straight { selection = clear_selection straight.selection }) in
    let swapped = swap_to_alt (record saved { saved_kitty_kbd_stack = saved.kitty_kbd_stack }) in
    set_cursor 0 0 (wipe_screen swapped)

unfoldable pub swap_to_main : Screen → Screen
unfolding linearize_screen
swap_to_main s =
    let straight = linearize_screen s in
    if s.using_alt_screen
    then record straight {
      screen = straight.alt_screen;
      alt_screen = straight.screen;
      using_alt_screen = false;
      screen_top = 0;
      viewport_back = straight.saved_viewport_back;
      saved_viewport_back = 0;
    }
    else s

-- 1049 without.
unfoldable pub leave_alt_screen : Screen → Screen
unfolding swap_to_main restore_cursor
leave_alt_screen s =
    let main = swap_to_main (record s { selection = clear_selection s.selection }) in
    let restored = restore_cursor main in
    record restored {
      kitty_kbd_stack = restored.saved_kitty_kbd_stack;
      saved_kitty_kbd_stack = [];
      screen = map mark_dirty restored.screen;
    }

-- The modes that are flags.
unfoldable pub set_flag : ℕ → Bool → Modes → Modes
set_flag mode enable m =
    if mode == 1
    then record m { app_cursor = enable }
    else if mode == 12
    then record m { cursor_blink = enable }
    else if mode == 25
    then record m { cursor_visible = enable }
    else if mode == 1000
    then record m { mouse_mode = if enable then 1000 else 0 }
    else if mode == 1002
    then record m { mouse_mode = if enable then 1002 else 0 }
    else if mode == 1003
    then record m { mouse_mode = if enable then 1003 else 0 }
    else if mode == 1004
    then record m { focus_events = enable }
    else if mode == 1006
    then record m { sgr_mouse = enable }
    else if mode == 2004
    then record m { bracketed_paste = enable }
    else if mode == 2026
    then record m { synchronized_update = enable }
    else if mode == 2027
    then record m { grapheme_cluster = enable }
    else m

unfoldable pub set_mode : ℕ → Bool → Bool → Screen → Screen
unfolding set_flag enter_alt_screen leave_alt_screen
set_mode mode enable dec_private s =
    if not dec_private
    then s
    else if mode == 1049
    then (if enable then enter_alt_screen s else leave_alt_screen s)
    else record s { modes = set_flag mode enable s.modes }
