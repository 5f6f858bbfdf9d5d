-- ===== src/Screen/Resized.antt =====
-- A resize gives a well-formed screen of the new size (src/terminal/screen_buffer.cpp).
use rivt.Base.{
  ℕ, zero, suc, ◌+◌, ◌-◌, ◌<◌, ◌≡◌, refl, sym, ap, ◌∙◌, subst, Bool, true, false, not, ◌&&◌, List,
  [], ◌∷◌, ◌++◌, map, Option, length, get_or, take, drop, replicate, length-append, length-take,
  length-replicate, length-map, ◌==◌, if_same, arith, if◌then◌else◌,
}
use rivt.Base.Bytes.{All, All-append}
use rivt.Snapshot.Cells.{Cell, Line, blank}
use rivt.Screen.State.{Screen, blank_line, mark_dirty, resize_line, linearize_screen}
use rivt.Screen.Fields.{SavedCursor}
use rivt.Screen.Reflow.{
  is_nil, resize_list, LogicalLine, wrap_last, chunk_line, wrap_cells, wrap_line, wrap_lines,
  some_line, rewrapped, split_lines, reflow,
}
use rivt.Screen.Resize.{pull_rows, shrink_rows, grow_rows, set_size, resize}
use rivt.Screen.Kept.{Kept, trans-Kept, shrink_rows-Kept, grow_rows-Kept}
use rivt.Screen.WellFormed.{
  blank_line-HasCols, same_cells-HasCols, if-IsScreen, if_true-IsScreen, IsScreen-cols,
  IsScreen-rows, IsScreen-no_fault,
}
use rivt.Screen.Fits.{HasCols, Grid, Within, IsScreen}
use rivt.Base.Every.{All-take, All-drop, All-replicate, All-map}

All-map_any {ℓ κ μ} :
    {A : Type ℓ} {B : Type κ} (P : B → Type μ) (f : A → B) (xs : List A)
    → ((x : A) → P (f x))
    → All P (map f xs)
All-map_any P f [] p = tt
All-map_any P f (x ∷ xs) p = (p x, All-map_any P f xs p)

resize_line-HasCols : (cols : ℕ) (l : Line) → HasCols cols (resize_line cols l)
unfolding HasCols resize_line
resize_line-HasCols cols l =
    length-append (take cols l.cells) (replicate (cols - length l.cells) blank)
    ∙ omega (arith, length-take cols l.cells, length-replicate (cols - length l.cells) blank)

module _ (cols rows : ℕ) where
  length-resize_list : (d : Line) (xs : List Line) → length (resize_list rows d xs) ≡ rows
  length-resize_list d xs =
      length-append (take rows xs) (replicate (rows - length xs) d)
      ∙ omega (arith, length-take rows xs, length-replicate (rows - length xs) d)

  resize_list-Grid :
      (xs : List Line)
      → All (HasCols cols) xs
      → Grid cols rows (resize_list rows (blank_line cols) xs)
  resize_list-Grid xs h = record {
    size_ok = length-resize_list (blank_line cols) xs;
    lines_ok = All-append (HasCols cols) (take rows xs) _ (All-take (HasCols cols) rows xs h) (
        All-replicate (HasCols cols) (rows - length xs) (blank_line cols)
          (blank_line-HasCols cols));
  }

  dirty-Grid : (xs : List Line) → Grid cols rows xs → Grid cols rows (map mark_dirty xs)
  dirty-Grid xs g = record {
    size_ok = length-map xs mark_dirty ∙ g.size_ok;
    lines_ok =
        All-map (HasCols cols) mark_dirty xs
          (λ l h. same_cells-HasCols cols (mark_dirty l) l refl h) g.lines_ok;
  }

  -- The alternate screen is cut off or filled up.
  alt-Grid :
      (xs : List Line)
      → Grid cols rows (map (resize_line cols) (resize_list rows (blank_line cols) xs))
  alt-Grid xs = record {
    size_ok =
        length-map (resize_list rows (blank_line cols) xs) (resize_line cols)
        ∙ length-resize_list (blank_line cols) xs;
    lines_ok = All-map_any (HasCols cols) (resize_line cols) _ (resize_line-HasCols cols);
  }

  if-HasCols :
      (b : Bool) (s t : Screen)
      → All (HasCols cols) s.screen
      → All (HasCols cols) t.screen
      → All (HasCols cols) ((if b then s else t).screen)
  if-HasCols true s t h g = h
  if-HasCols false s t h g = g

  pull_rows-HasCols :
      (n : ℕ) (s : Screen)
      → All (HasCols cols) s.screen
      → All (HasCols cols) ((pull_rows cols n s).screen)
  unfolding pull_rows
  pull_rows-HasCols zero s h = h
  pull_rows-HasCols (suc n) s h = if-HasCols (is_nil s.scrollback) s _ h (
      pull_rows-HasCols n _ (
        resize_line-HasCols cols (get_or s.scrollback (length s.scrollback - 1) (blank_line 0)),
        h,
      ))

  grow_rows-Grid : (s : Screen) → Grid cols rows ((grow_rows cols rows s).screen)
  unfolding grow_rows
  grow_rows-Grid s = resize_list-Grid _ (
      pull_rows-HasCols (rows - length s.screen)
        (record s { screen = map (resize_line cols) s.screen })
        (All-map_any (HasCols cols) (resize_line cols) s.screen (resize_line-HasCols cols)))

  -- Without a reflow.
  set_size-IsScreen :
      (s : Screen)
      → 0 < cols
      → 0 < rows
      → Grid cols rows s.screen
      → s.screen_top < rows
      → Within cols rows s.saved_cursor.row s.saved_cursor.col
      → s.faulted ≡ false
      → IsScreen cols rows (set_size cols rows s)
  unfolding set_size IsScreen
  set_size-IsScreen s h g grid top saved fine = record {
    cols_eq = refl;
    rows_eq = refl;
    cols_pos = h;
    grid = dirty-Grid s.screen grid;
    top_ok = top;
    alt_grid = alt-Grid s.alt_screen;
    cursor_ok = record { row_ok = omega arith; col_ok = omega arith };
    saved_ok = saved;
    region_ok = omega arith;
    no_fault = fine;
  }

length-wrap_last : (cells : List Cell) → length (wrap_last cells) ≡ length cells
unfolding wrap_last
length-wrap_last [] = refl
length-wrap_last (c ∷ []) = refl
length-wrap_last (c ∷ d ∷ cs) = ap suc (length-wrap_last (d ∷ cs))

chunk_line-HasCols :
    (cols : ℕ) (cells : List Cell) (more : Bool)
    → HasCols cols (chunk_line cols (take cols cells) more)
unfolding HasCols chunk_line
chunk_line-HasCols cols cells more =
    let padded = take cols cells ++ replicate (cols - length (take cols cells)) blank in
    if_same length more (wrap_last padded) padded cols (λ _. length-wrap_last padded ∙ whole)
      (λ _. whole)
  where
    whole : length (take cols cells ++ replicate (cols - length (take cols cells)) blank) ≡ cols
    whole =
        length-append (take cols cells) _
        ∙ omega (
          arith,
          length-take cols cells,
          length-replicate (cols - length (take cols cells)) blank,
        )

wrap_cells-HasCols :
    (f cols : ℕ) (cur : Option ℕ) (position base : ℕ) (cells : List Cell)
    → All (HasCols cols) ((wrap_cells f cols cur position base cells).0)
unfolding wrap_cells
wrap_cells-HasCols zero cols cur position base cells = tt
wrap_cells-HasCols (suc f) cols cur position base [] = tt
wrap_cells-HasCols (suc f) cols cur position base (c ∷ cs) = (
  chunk_line-HasCols cols (c ∷ cs) (not (is_nil (drop cols (c ∷ cs)))),
  wrap_cells-HasCols f cols cur (position + cols) (suc base) (drop cols (c ∷ cs)),
)

wrap_line-HasCols :
    (cols base : ℕ) (cur : Option ℕ) (cells : List Cell)
    → All (HasCols cols) ((wrap_line cols base cur cells).0)
unfolding wrap_line
wrap_line-HasCols cols base cur [] = (blank_line-HasCols cols, tt)
wrap_line-HasCols cols base cur (c ∷ cs) =
    wrap_cells-HasCols (suc (length cs)) cols cur 0 base (c ∷ cs)

wrap_lines-HasCols :
    (cols : ℕ) (ls : List LogicalLine) (base : ℕ) → All (HasCols cols) ((wrap_lines cols base ls).0)
unfolding wrap_lines
wrap_lines-HasCols cols [] base = tt
wrap_lines-HasCols cols (l ∷ ls) base =
    All-append (HasCols cols) ((wrap_line cols base l.cursor l.cells).0) _
      (wrap_line-HasCols cols base l.cursor l.cells) (wrap_lines-HasCols cols ls _)

some_line-HasCols :
    (cols : ℕ) (ls : List Line) → All (HasCols cols) ls → All (HasCols cols) (some_line cols ls)
some_line-HasCols cols [] h = (blank_line-HasCols cols, tt)
some_line-HasCols cols (l ∷ ls) h = h

module _ (cols rows : ℕ) where
  split_lines-IsScreen :
      (lines : List Line) (place : ℕ × ℕ) (s : Screen)
      → 0 < cols
      → 0 < rows
      → All (HasCols cols) lines
      → Within cols rows s.saved_cursor.row s.saved_cursor.col
      → s.faulted ≡ false
      → IsScreen cols rows (split_lines cols rows lines place s)
  unfolding split_lines IsScreen
  split_lines-IsScreen lines place s h g all saved fine = record {
    cols_eq = refl;
    rows_eq = refl;
    cols_pos = h;
    grid =
        dirty-Grid cols rows _
          (resize_list-Grid cols rows _ (All-drop (HasCols cols) (length lines - rows) lines all));
    top_ok = g;
    alt_grid = alt-Grid cols rows s.alt_screen;
    cursor_ok = record { row_ok = omega arith; col_ok = omega arith };
    saved_ok = saved;
    region_ok = omega arith;
    no_fault = fine;
  }

  reflow-IsScreen :
      (s : Screen)
      → 0 < cols
      → 0 < rows
      → Within cols rows s.saved_cursor.row s.saved_cursor.col
      → s.faulted ≡ false
      → IsScreen cols rows (reflow cols rows s)
  unfolding reflow rewrapped
  reflow-IsScreen s h g saved fine =
      split_lines-IsScreen _ _ s h g (some_line-HasCols cols _ (wrap_lines-HasCols cols _ 0)) saved
        fine

  Within-Kept :
      (s t : Screen)
      → Kept s t
      → Within cols rows s.saved_cursor.row s.saved_cursor.col
      → Within cols rows t.saved_cursor.row t.saved_cursor.col
  Within-Kept s t k w = subst (λ (c : SavedCursor). Within cols rows c.row c.col) (sym k.saved_eq) w

  plain-IsScreen :
      (s : Screen)
      → 0 < cols
      → 0 < rows
      → s.screen_top ≡ 0
      → Within cols rows s.saved_cursor.row s.saved_cursor.col
      → s.faulted ≡ false
      → IsScreen cols rows (set_size cols rows (grow_rows cols rows (shrink_rows rows s)))
  plain-IsScreen s h g top saved fine =
      let shrunk = shrink_rows rows s in
      let k =
        trans-Kept s shrunk (grow_rows cols rows shrunk) (shrink_rows-Kept rows s)
          (grow_rows-Kept cols rows shrunk) in
      set_size-IsScreen cols rows (grow_rows cols rows shrunk) h g (grow_rows-Grid cols rows shrunk)
        (omega (arith, k.top_eq, top)) (Within-Kept s _ k saved) (k.faulted_eq ∙ fine)

  same_size : (w h : ℕ) → (cols == w && rows == h) ≡ true → (w ≡ cols) × (h ≡ rows)
  same_size w h e = ground arith

-- A resize of a well-formed screen to a positive width and height makes it a well-formed screen of that
-- size, where the saved cursor is within the new size, since a resize leaves the saved cursor as it is.
pub resize-IsScreen :
    (width height cols rows : ℕ) (s : Screen)
    → IsScreen width height s
    → 0 < cols
    → 0 < rows
    → Within cols rows s.saved_cursor.row s.saved_cursor.col
    → IsScreen cols rows (resize cols rows s)
unfolding resize linearize_screen
resize-IsScreen width height cols rows s v h g saved =
    if_true-IsScreen cols rows (cols == s.cols && rows == s.rows) s _
      (λ e.
        subst (λ k. IsScreen cols k s)
          (sym (IsScreen-rows width height s v) ∙ (same_size cols rows s.cols s.rows e).1)
          (subst (λ k. IsScreen k height s)
            (sym (IsScreen-cols width height s v) ∙ (same_size cols rows s.cols s.rows e).0) v))
      (if-IsScreen cols rows (not (cols == s.cols) && not s.using_alt_screen) _ _
        (reflow-IsScreen cols rows (linearize_screen s) h g saved
          (IsScreen-no_fault width height s v))
        (plain-IsScreen cols rows (linearize_screen s) h g refl saved
          (IsScreen-no_fault width height s v)))
