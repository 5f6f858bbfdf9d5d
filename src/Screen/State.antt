-- ===== src/Screen/State.antt =====
-- The fields of `ScreenBuffer` (src/terminal/screen_buffer.h). `viewport_back` is -m_viewport_offset,
-- which is never positive, and `scroll_end` is m_scroll_bottom + 1, since m_scroll_bottom can be -1.
use rivt.Base.{
  ℕ, ◌+◌, ◌-◌, ◌%◌, Bool, true, false, List, [], ◌∷◌, ◌++◌, length, get_or, set, take, drop,
  replicate, if◌then◌else◌,
}
use rivt.Base.Bytes.{Bytes}
use rivt.Base.Int.{ℤ, pos}
use rivt.Screen.Fields.{
  SavedCursor, no_saved_cursor, Pen, plain_pen, Modes, no_modes, Charsets, Hooks, no_hooks, Call,
  Selection, no_selection, SearchState, no_search,
}
use rivt.Snapshot.Cells.{Line, blank}

pub record Screen : Type 0 where
  pub cols : ℕ
  pub rows : ℕ
  pub scrollback_limit : ℤ
  pub screen : List Line
  pub screen_top : ℕ
  pub alt_screen : List Line
  pub using_alt_screen : Bool
  pub scrollback : List Line
  pub scrollback_trimmed : ℤ
  pub viewport_back : ℕ
  pub saved_viewport_back : ℕ
  pub cursor_row : ℕ
  pub cursor_col : ℕ
  pub saved_cursor : SavedCursor
  pub pen : Pen
  pub scroll_top : ℕ
  pub scroll_end : ℕ
  pub modes : Modes
  pub charsets : Charsets
  pub last_printed : ℕ
  pub kitty_kbd_stack : List ℤ
  pub saved_kitty_kbd_stack : List ℤ
  pub hyperlinks : List (ℕ × Bytes)
  pub cur_hyperlink_id : ℕ
  pub next_hyperlink_id : ℕ
  pub selection : Selection
  pub search : SearchState
  pub hooks : Hooks
  pub calls : List Call
  -- A write outside of the cells of a row has happened, behind which the state says nothing.
  pub faulted : Bool

-- `Line(cols)`
abbrev pub blank_line : ℕ → Line
blank_line cols = record {
  cells = replicate cols blank;
  wrapped = false;
  dirty = true;
  semantic_zone = 0;
}

-- `Line::resize`
unfoldable pub resize_line : ℕ → Line → Line
resize_line cols l = record l {
  cells = take cols l.cells ++ replicate (cols - length l.cells) blank;
  dirty = true;
}

-- `ScreenBuffer(cols, rows, scrollback_limit)`, with the callbacks not set.
abbrev pub new_screen : ℕ → ℕ → ℤ → Screen
new_screen cols rows limit = record {
  cols = cols;
  rows = rows;
  scrollback_limit = limit;
  screen = replicate rows (blank_line cols);
  screen_top = 0;
  alt_screen = replicate rows (blank_line cols);
  using_alt_screen = false;
  scrollback = [];
  scrollback_trimmed = pos 0;
  viewport_back = 0;
  saved_viewport_back = 0;
  cursor_row = 0;
  cursor_col = 0;
  saved_cursor = no_saved_cursor;
  pen = plain_pen;
  scroll_top = 0;
  scroll_end = rows;
  modes = no_modes;
  charsets = record { g0 = 0; g1 = 0; gl = 0 };
  last_printed = 0;
  kitty_kbd_stack = [];
  saved_kitty_kbd_stack = [];
  hyperlinks = [];
  cur_hyperlink_id = 0;
  next_hyperlink_id = 1;
  selection = no_selection;
  search = no_search;
  hooks = no_hooks;
  calls = [];
  faulted = false;
}

abbrev pub mark_dirty : Line → Line
mark_dirty l = record l { dirty = true }

-- The place of a row in the ring buffer.
unfoldable pub physical : Screen → ℕ → ℕ
physical s row = (s.screen_top + row) % length s.screen

-- `sline(row)`, read and written.
unfoldable pub sline : Screen → ℕ → Line
unfolding physical
sline s row = get_or s.screen (physical s row) (blank_line 0)

unfoldable pub put_sline : ℕ → Line → Screen → Screen
unfolding physical
put_sline row l s = record s { screen = set s.screen (physical s row) l }

-- The rows from the top of the screen to its bottom.
abbrev pub rows_of : Screen → List Line
rows_of s = drop s.screen_top s.screen ++ take s.screen_top s.screen

-- ScreenBuffer::linearize_screen
unfoldable pub linearize_screen : Screen → Screen
linearize_screen s = record s { screen = rows_of s; screen_top = 0 }

-- A call of a callback, when it is set.
abbrev pub emit : Bool → Call → Screen → Screen
emit is_set c s = record s { calls = s.calls ++ (if is_set then c ∷ [] else []) }
