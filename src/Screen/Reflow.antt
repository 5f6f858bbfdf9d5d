-- ===== src/Screen/Reflow.antt =====
-- ScreenBuffer::reflow (src/terminal/screen_buffer.cpp): soft-wrapped lines are joined and wrapped
-- again at a new width. The new width and height are positive. A logical line keeps the offset of the
-- cursor, where the cursor is on it.
use rivt.Base.{
  ℕ, zero, suc, ◌+◌, ◌-◌, ◌*◌, ◌/◌, ◌^◌, min, bit_and, Bool, true, false, not, ◌&&◌, ◌||◌, List, [],
  ◌∷◌, ◌++◌, map, Option, none, some, length, take, drop, replicate, leb, ltb, ◌==◌, if◌then◌else◌,
}
use rivt.Base.Int.{pos, pos_part, ◌+ℤ◌}
use rivt.Snapshot.Cells.{Cell, Line, blank, color_flag_default}
use rivt.Screen.State.{Screen, blank_line, mark_dirty, resize_line}
use rivt.Screen.Fields.{Call, no_search}
use rivt.Screen.Edit.{attr_wrap, wrap_cell}
use rivt.Screen.Modes.{clear_selection}

unfoldable pub is_default_space : Cell → Bool
is_default_space c =
    c.codepoint == b' '
    && not (bit_and c.fg color_flag_default == 0)
    && not (bit_and c.bg color_flag_default == 0)
    && c.attrs == 0

abbrev pub all_of {ℓ} : {A : Type ℓ} → (A → Bool) → List A → Bool
all_of p [] = true
all_of p (x ∷ xs) = p x && all_of p xs

abbrev pub is_nil {ℓ} : {A : Type ℓ} → List A → Bool
is_nil [] = true
is_nil (x ∷ xs) = false

-- `while (xs.size() > keep && p(xs.back())) xs.pop_back();`
unfoldable pub trim_tail {ℓ} : {A : Type ℓ} → (A → Bool) → ℕ → List A → List A
trim_tail p keep [] = []
trim_tail p zero (x ∷ xs) =
    let rest = trim_tail p 0 xs in if p x && is_nil rest then [] else x ∷ rest
trim_tail p (suc keep) (x ∷ xs) = x ∷ trim_tail p keep xs

unfoldable pub is_empty_line : Line → Bool
unfolding is_default_space
is_empty_line l = all_of is_default_space l.cells && not l.wrapped

-- Step 3.
pub record LogicalLine : Type 0 where
  pub cells : List Cell
  pub cursor : Option ℕ

-- `attrs &= ~ATTR_WRAP` on the last cell.
unfoldable pub strip_wrap : List Cell → List Cell
strip_wrap [] = []
strip_wrap (c ∷ []) = record c { attrs = bit_and c.attrs (2 ^ 16 - 1 - attr_wrap) } ∷ []
strip_wrap (c ∷ d ∷ cs) = c ∷ strip_wrap (d ∷ cs)

unfoldable pub end_line : List Cell → Option ℕ → LogicalLine
unfolding is_default_space trim_tail
end_line cells none = record { cells = trim_tail is_default_space 0 cells; cursor = none }
end_line cells (some offset) =
    let kept = trim_tail is_default_space (suc offset) cells in
    record { cells = kept; cursor = some (min offset (length kept)) }

module _ (cursor_abs cursor_col : ℕ) where
  -- On the lines from the `i`th on, with the cells of the logical line that has begun, and its cursor.
  unfoldable pub group : ℕ → List Cell → Option ℕ → List Line → List LogicalLine
  unfolding strip_wrap end_line
  group i acc cur [] = []
  group i acc cur (l ∷ []) =
      let cells = acc ++ l.cells in
      let cur' = if i == cursor_abs then some (length acc + cursor_col) else cur in
      end_line (if l.wrapped then strip_wrap cells else cells) cur' ∷ []
  group i acc cur (l ∷ m ∷ ls) =
      let cells = acc ++ l.cells in
      let cur' = if i == cursor_abs then some (length acc + cursor_col) else cur in
      let joined = group (suc i) (strip_wrap cells) cur' (m ∷ ls) in
      let apart = group (suc i) [] none (m ∷ ls) in
      if l.wrapped then joined else end_line cells cur' ∷ apart

-- Step 4.
unfoldable pub wrap_last : List Cell → List Cell
wrap_last [] = []
wrap_last (c ∷ []) = wrap_cell c ∷ []
wrap_last (c ∷ d ∷ cs) = c ∷ wrap_last (d ∷ cs)

-- `Line(new_cols)` with the cells copied into it.
unfoldable pub chunk_line : ℕ → List Cell → Bool → Line
unfolding wrap_last
chunk_line cols cells more =
    let padded = cells ++ replicate (cols - length cells) blank in
    record {
      cells = if more then wrap_last padded else padded;
      wrapped = more;
      dirty = true;
      semantic_zone = 0;
    }

-- A place in the new lines.
abbrev pub Place : Type 0
Place = Option (ℕ × ℕ)

abbrev pub or_place : Place → Place → Place
or_place none q = q
or_place (some p) q = some p

-- The loop over a logical line at `pos`, which makes the new line `base`. Each round takes a cell at
-- least, so the number of cells is fuel enough.
unfoldable pub wrap_cells : ℕ → ℕ → Option ℕ → ℕ → ℕ → List Cell → List Line × Place
unfolding chunk_line
wrap_cells zero cols cur position base cells = ([], none)
wrap_cells (suc f) cols cur position base [] = ([], none)
wrap_cells (suc f) cols cur position base (c ∷ cs) =
    let rest = drop cols (c ∷ cs) in
    let next = wrap_cells f cols cur (position + cols) (suc base) rest in
    (
      chunk_line cols (take cols (c ∷ cs)) (not (is_nil rest)) ∷ next.0,
      or_place (here cur position base) next.1,
    )
  where
    here : Option ℕ → ℕ → ℕ → Place
    here none position base = none
    here (some offset) position base =
        if leb position offset && ltb offset (position + cols)
        then some (base, offset - position)
        else none

unfoldable pub past_end : ℕ → ℕ → ℕ → Option ℕ → Place
past_end cols last n none = none
past_end cols last n (some offset) = some (last, min (offset - (n - 1) / cols * cols) (cols - 1))

abbrev pub empty_place : ℕ → Option ℕ → Place
empty_place base none = none
empty_place base (some offset) = some (base, 0)

unfoldable pub wrap_line : ℕ → ℕ → Option ℕ → List Cell → List Line × Place
unfolding wrap_cells past_end
wrap_line cols base cursor [] = (blank_line cols ∷ [], empty_place base cursor)
wrap_line cols base cursor (c ∷ cs) =
    let n = suc (length cs) in
    let made = wrap_cells n cols cursor 0 base (c ∷ cs) in
    (made.0, or_place made.1 (past_end cols (base + length (made.0) - 1) n cursor))

unfoldable pub wrap_lines : ℕ → ℕ → List LogicalLine → List Line × Place
unfolding wrap_line
wrap_lines cols base [] = ([], none)
wrap_lines cols base (l ∷ ls) =
    let made = wrap_line cols base l.cursor l.cells in
    let rest = wrap_lines cols (base + length (made.0)) ls in
    (made.0 ++ rest.0, or_place made.1 rest.1)

-- Where the cursor is on no logical line, it is put at the start of the last one.
abbrev pub is_some {ℓ} : {A : Type ℓ} → Option A → Bool
is_some none = false
is_some (some x) = true

unfoldable pub has_cursor : List LogicalLine → Bool
has_cursor [] = false
has_cursor (l ∷ ls) = is_some l.cursor || has_cursor ls

unfoldable pub cursor_on_last : List LogicalLine → List LogicalLine
cursor_on_last [] = []
cursor_on_last (l ∷ []) = record l { cursor = some 0 } ∷ []
cursor_on_last (l ∷ m ∷ ls) = l ∷ cursor_on_last (m ∷ ls)

unfoldable pub place_cursor : List LogicalLine → List LogicalLine
unfolding has_cursor cursor_on_last
place_cursor ls = if has_cursor ls then ls else cursor_on_last ls

-- A cursor that was not found in the new lines is put on the last of them.
unfoldable pub place_or_last : ℕ → Place → ℕ × ℕ
place_or_last n none = (n - 1, 0)
place_or_last n (some p) = p

abbrev pub some_line : ℕ → List Line → List Line
some_line cols [] = blank_line cols ∷ []
some_line cols (l ∷ ls) = l ∷ ls

-- `m_alt_screen.resize(rows, Line(cols))`
abbrev pub resize_list {ℓ} : {A : Type ℓ} → ℕ → A → List A → List A
resize_list n d xs = take n xs ++ replicate (n - length xs) d

-- Steps 1 to 4.
unfoldable pub rewrapped : ℕ → Screen → List Line × Place
unfolding trim_tail is_empty_line group place_cursor wrap_lines
rewrapped new_cols s =
    let cursor_abs = length s.scrollback + s.cursor_row in
    let cursor_col = min s.cursor_col (s.cols - 1) in
    let all_lines = trim_tail is_empty_line (suc cursor_abs) (s.scrollback ++ s.screen) in
    wrap_lines new_cols 0 (place_cursor (group cursor_abs cursor_col 0 [] none all_lines))

-- Steps 5 to 7, on the new lines and the place of the cursor in them.
unfoldable pub split_lines : ℕ → ℕ → List Line → ℕ × ℕ → Screen → Screen
unfolding ◌+ℤ◌
split_lines new_cols new_rows lines place s =
    let start = length lines - new_rows in
    let over = start - pos_part s.scrollback_limit in
    record s {
      scrollback = drop over (take start lines);
      scrollback_trimmed = s.scrollback_trimmed +ℤ pos over;
      screen = map mark_dirty (resize_list new_rows (blank_line new_cols) (drop start lines));
      cursor_row = min (place.0 - start) (new_rows - 1);
      cursor_col = min place.1 (new_cols - 1);
      cols = new_cols;
      rows = new_rows;
      screen_top = 0;
      scroll_top = 0;
      scroll_end = new_rows;
      alt_screen =
          map (resize_line new_cols) (resize_list new_rows (blank_line new_cols) s.alt_screen);
      selection = clear_selection s.selection;
      search = record no_search { case_sensitive = s.search.case_sensitive };
      calls = s.calls ++ (Call.clear_placements ∷ []);
      viewport_back = 0;
    }

unfoldable pub reflow : ℕ → ℕ → Screen → Screen
unfolding rewrapped split_lines place_or_last
reflow new_cols new_rows s =
    let made = rewrapped new_cols s in
    let lines = some_line new_cols made.0 in
    split_lines new_cols new_rows lines (place_or_last (length lines) made.1) s
