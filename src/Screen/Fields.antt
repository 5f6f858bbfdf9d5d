-- ===== src/Screen/Fields.antt =====
-- The parts of the state of `ScreenBuffer` (src/terminal/screen_buffer.h). A callback that is set, and
-- the image store, are seen by the calls that are made of them.
use rivt.Base.{ℕ, Bool, true, false, List, [], Option, none}
use rivt.Base.Bytes.{Bytes}
use rivt.Base.Int.{ℤ, pos}
use rivt.Snapshot.Cells.{color_flag_default}

pub record SavedCursor : Type 0 where
  pub row : ℕ
  pub col : ℕ
  pub fg : ℕ
  pub bg : ℕ
  pub attrs : ℕ
  pub g0 : ℕ
  pub g1 : ℕ
  pub gl : ℕ

abbrev pub no_saved_cursor : SavedCursor
no_saved_cursor = record {
  row = 0;
  col = 0;
  fg = color_flag_default;
  bg = color_flag_default;
  attrs = 0;
  g0 = 0;
  g1 = 0;
  gl = 0;
}

-- The current text attributes.
pub record Pen : Type 0 where
  pub fg : ℕ
  pub bg : ℕ
  pub attrs : ℕ

abbrev pub plain_pen : Pen
plain_pen = record { fg = color_flag_default; bg = color_flag_default; attrs = 0 }

pub record Modes : Type 0 where
  pub app_cursor : Bool
  pub cursor_blink : Bool
  pub cursor_visible : Bool
  pub focus_events : Bool
  pub bracketed_paste : Bool
  pub mouse_mode : ℕ
  pub sgr_mouse : Bool
  pub grapheme_cluster : Bool
  pub synchronized_update : Bool

abbrev pub no_modes : Modes
no_modes = record {
  app_cursor = false;
  cursor_blink = false;
  cursor_visible = true;
  focus_events = false;
  bracketed_paste = false;
  mouse_mode = 0;
  sgr_mouse = false;
  grapheme_cluster = false;
  synchronized_update = false;
}

-- 0 is ASCII and 1 the DEC special graphics; `gl` is 0 for G0 and 1 for G1.
pub record Charsets : Type 0 where
  pub g0 : ℕ
  pub g1 : ℕ
  pub gl : ℕ

-- A flag for each callback that is set.
pub record Hooks : Type 0 where
  pub title : Bool
  pub bell : Bool
  pub osc52_write : Bool
  pub osc52_read : Bool
  pub cwd : Bool
  pub write_back : Bool
  pub scrollback_wanted : Bool

abbrev pub no_hooks : Hooks
no_hooks = record {
  title = false;
  bell = false;
  osc52_write = false;
  osc52_read = false;
  cwd = false;
  write_back = false;
  scrollback_wanted = false;
}

-- The calls of the callbacks, and those of the image store.
pub data Call : Type 0 where
  title_change cwd_change write_back : Bytes → Call
  bell scrollback_wanted : Call
  osc52_write : Bytes → Bytes → Bytes → Call
  osc52_read : Bytes → Bytes → Call
  gc_placements : ℤ → Call
  clear_placements remove_all new_image_store : Call

pub record Selection : Type 0 where
  pub active : Bool
  pub rectangular : Bool
  pub start_line : ℤ
  pub start_col : ℤ
  pub end_line : ℤ
  pub end_col : ℤ

abbrev pub no_selection : Selection
no_selection = record {
  active = false;
  rectangular = false;
  start_line = pos 0;
  start_col = pos 0;
  end_line = pos 0;
  end_col = pos 0;
}

pub record SearchMatch : Type 0 where
  pub abs_line : ℤ
  pub start_col : ℕ
  pub end_col : ℕ

-- `current_match` is none for -1.
pub record SearchState : Type 0 where
  pub active : Bool
  pub focused : Bool
  pub query : Bytes
  pub matches : List SearchMatch
  pub current_match : Option ℕ
  pub case_sensitive : Bool
  pub searched_up_to : ℕ

abbrev pub no_search : SearchState
no_search = record {
  active = false;
  focused = false;
  query = [];
  matches = [];
  current_match = none;
  case_sensitive = false;
  searched_up_to = 0;
}
