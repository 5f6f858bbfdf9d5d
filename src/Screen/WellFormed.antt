-- ===== src/Screen/WellFormed.antt =====
-- The lines of a well-formed screen (src/terminal/screen_buffer.h), and what its fields say.
use rivt.Base.{
  ℕ, ◌+◌, ◌<◌, ◌≡◌, refl, sym, subst, ◌∙◌, Bool, true, false, List, ◌++◌, map, length, set, take,
  drop, replicate, length-set, length-append, length-take, length-drop, length-replicate,
  length-map, arith, if◌then◌else◌,
}
use rivt.Base.Every.{All-get_or, All-set, All-take, All-drop, All-replicate, All-map}
use rivt.Base.Bytes.{All-append}
use rivt.Base.Int.{ℤ}
use rivt.Screen.Fits.{HasCols, Grid, Within, IsScreen, with-Grid}
use rivt.Snapshot.Cells.{Line, blank}
use rivt.Screen.State.{Screen, blank_line, physical, sline, put_sline, new_screen}
use native.Mathlib.Nat.{mod-lt}

pub blank_line-HasCols : (n : ℕ) → HasCols n (blank_line n)
unfolding HasCols
blank_line-HasCols n = length-replicate n blank

-- A change of the other fields of a line, and of its cells as long as there are as many.
pub same_cells-HasCols :
    (n : ℕ) (l m : Line) → length l.cells ≡ length m.cells → HasCols n m → HasCols n l
unfolding HasCols
same_cells-HasCols n l m e h = e ∙ h

module _ (cols rows : ℕ) where
  pub Grid-set :
      (ls : List Line) (i : ℕ) (l : Line)
      → HasCols cols l
      → Grid cols rows ls
      → Grid cols rows (set ls i l)
  Grid-set ls i l h g = record {
    size_ok = length-set ls i l ∙ g.size_ok;
    lines_ok = All-set (HasCols cols) ls i l g.lines_ok h;
  }

  pub Grid-blank : Grid cols rows (replicate rows (blank_line cols))
  Grid-blank = record {
    size_ok = length-replicate rows (blank_line cols);
    lines_ok = All-replicate (HasCols cols) rows (blank_line cols) (blank_line-HasCols cols);
  }

  pub Grid-map :
      (f : Line → Line) (ls : List Line)
      → ((l : Line) → HasCols cols l → HasCols cols (f l))
      → Grid cols rows ls
      → Grid cols rows (map f ls)
  Grid-map f ls h g = record {
    size_ok = length-map ls f ∙ g.size_ok;
    lines_ok = All-map (HasCols cols) f ls h g.lines_ok;
  }

  pub Grid-rotated :
      (n : ℕ) (ls : List Line) → Grid cols rows ls → Grid cols rows (drop n ls ++ take n ls)
  Grid-rotated n ls g = record {
    size_ok =
        length-append (drop n ls) (take n ls)
        ∙ omega (arith, length-drop n ls, length-take n ls, g.size_ok);
    lines_ok =
        All-append (HasCols cols) (drop n ls) (take n ls) (All-drop (HasCols cols) n ls g.lines_ok)
          (All-take (HasCols cols) n ls g.lines_ok);
  }

  -- What a state that the invariant holds in says.
  module _ (s : Screen) (v : IsScreen cols rows s) where
    pub IsScreen-cols : s.cols ≡ cols
    unfolding IsScreen
    IsScreen-cols = v.cols_eq

    pub IsScreen-rows : s.rows ≡ rows
    unfolding IsScreen
    IsScreen-rows = v.rows_eq

    pub IsScreen-cols_pos : 0 < cols
    unfolding IsScreen
    IsScreen-cols_pos = v.cols_pos

    pub IsScreen-Grid : Grid cols rows s.screen
    unfolding IsScreen
    IsScreen-Grid = v.grid

    pub IsScreen-top : s.screen_top < rows
    unfolding IsScreen
    IsScreen-top = v.top_ok

    pub IsScreen-cursor : Within cols rows s.cursor_row s.cursor_col
    unfolding IsScreen
    IsScreen-cursor = v.cursor_ok

    pub IsScreen-saved : Within cols rows s.saved_cursor.row s.saved_cursor.col
    unfolding IsScreen
    IsScreen-saved = v.saved_ok

    pub IsScreen-no_fault : s.faulted ≡ false
    unfolding IsScreen
    IsScreen-no_fault = v.no_fault

    pub blank-HasCols : HasCols cols (blank_line s.cols)
    blank-HasCols =
        subst (λ n. HasCols cols (blank_line n)) (sym IsScreen-cols) (blank_line-HasCols cols)

    pub physical-lt : (row : ℕ) → physical s row < length s.screen
    unfolding physical
    physical-lt row =
        mod-lt (s.screen_top + row) {m = length s.screen}
          (omega (arith, IsScreen-Grid.size_ok, IsScreen-top))

    pub sline-HasCols : (row : ℕ) → HasCols cols (sline s row)
    unfolding sline
    sline-HasCols row =
        All-get_or (HasCols cols) s.screen (physical s row) (blank_line 0) (physical-lt row)
          IsScreen-Grid.lines_ok

    pub put_sline-IsScreen :
        (row : ℕ) (l : Line) → HasCols cols l → IsScreen cols rows (put_sline row l s)
    unfolding put_sline IsScreen
    put_sline-IsScreen row l h = with-Grid v (Grid-set s.screen (physical s row) l h v.grid)

  pub if-IsScreen :
      (b : Bool) (s t : Screen)
      → IsScreen cols rows s
      → IsScreen cols rows t
      → IsScreen cols rows (if b then s else t)
  if-IsScreen true s t p q = p
  if-IsScreen false s t p q = q

  -- The branch may use that its test holds.
  pub if_true-IsScreen :
      (b : Bool) (s t : Screen)
      → (b ≡ true → IsScreen cols rows s)
      → IsScreen cols rows t
      → IsScreen cols rows (if b then s else t)
  if_true-IsScreen true s t p q = p refl
  if_true-IsScreen false s t p q = q

  pub new_screen-IsScreen :
      (limit : ℤ) → 0 < cols → 0 < rows → IsScreen cols rows (new_screen cols rows limit)
  unfolding IsScreen
  new_screen-IsScreen limit h g = record {
    cols_eq = refl;
    rows_eq = refl;
    cols_pos = h;
    grid = Grid-blank;
    top_ok = g;
    alt_grid = Grid-blank;
    cursor_ok = record { row_ok = g; col_ok = omega arith };
    saved_ok = record { row_ok = g; col_ok = omega arith };
    region_ok = omega arith;
    no_fault = refl;
  }
