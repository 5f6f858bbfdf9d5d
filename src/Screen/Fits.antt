-- ===== src/Screen/Fits.antt =====
-- What every state of `ScreenBuffer` (src/terminal/screen_buffer.h) keeps to: the sizes of its grids,
-- the cursor, the saved cursor
-- and the end of the scroll region within them, and no write outside of a row.
use rivt.Base.{ℕ, ◌≤◌, ◌<◌, ◌≡◌, Bool, false, List, length, arith}
use rivt.Base.Bytes.{All}
use rivt.Snapshot.Cells.{Line}
use rivt.Screen.State.{Screen}
use rivt.Screen.Fields.{SavedCursor}

unfoldable pub HasCols : ℕ → Line → Type 0
HasCols n l = length l.cells ≡ n

-- A grid of `rows` lines of `cols` cells.
pub record Grid (cols rows : ℕ) (lines : List Line) : Type 0 where
  pub size_ok : length lines ≡ rows
  pub lines_ok : All (HasCols cols) lines

-- A place that the cursor can have: the column may be the one behind the last.
pub record Within (cols rows row col : ℕ) : Type 0 where
  pub row_ok : row < rows
  pub col_ok : col ≤ cols

-- A screen of `cols` columns and `rows` rows, by the fields that this is about.
pub record Fits (cols rows width height : ℕ) (screen : List Line) (top : ℕ) (alt : List Line)
    (row col : ℕ) (saved : SavedCursor) (scroll_end : ℕ) (faulted : Bool) : Type 0 where
  pub cols_eq : width ≡ cols
  pub rows_eq : height ≡ rows
  pub cols_pos : 0 < cols
  pub grid : Grid cols rows screen
  pub top_ok : top < rows
  pub alt_grid : Grid cols rows alt
  pub cursor_ok : Within cols rows row col
  pub saved_ok : Within cols rows saved.row saved.col
  pub region_ok : scroll_end ≤ rows
  pub no_fault : faulted ≡ false

unfoldable pub IsScreen : ℕ → ℕ → Screen → Type 0
IsScreen cols rows s =
    Fits cols rows s.cols s.rows s.screen s.screen_top s.alt_screen s.cursor_row s.cursor_col
      s.saved_cursor s.scroll_end s.faulted

module _ {cols rows width height : ℕ} {screen : List Line} {top : ℕ} {alt : List Line} {row col : ℕ}
    {saved : SavedCursor} {scroll_end : ℕ} {faulted : Bool}
    (v : Fits cols rows width height screen top alt row col saved scroll_end faulted) where
  pub with-Grid :
      {new : List Line}
      → Grid cols rows new
      → Fits cols rows width height new top alt row col saved scroll_end faulted
  with-Grid g = record {
    cols_eq = v.cols_eq;
    rows_eq = v.rows_eq;
    cols_pos = v.cols_pos;
    grid = g;
    top_ok = v.top_ok;
    alt_grid = v.alt_grid;
    cursor_ok = v.cursor_ok;
    saved_ok = v.saved_ok;
    region_ok = v.region_ok;
    no_fault = v.no_fault;
  }

  pub with_top :
      {new : ℕ}
      → new < rows
      → Fits cols rows width height screen new alt row col saved scroll_end faulted
  with_top h = record {
    cols_eq = v.cols_eq;
    rows_eq = v.rows_eq;
    cols_pos = v.cols_pos;
    grid = v.grid;
    top_ok = h;
    alt_grid = v.alt_grid;
    cursor_ok = v.cursor_ok;
    saved_ok = v.saved_ok;
    region_ok = v.region_ok;
    no_fault = v.no_fault;
  }

  pub with_cursor :
      {new_row new_col : ℕ}
      → Within cols rows new_row new_col
      → Fits cols rows width height screen top alt new_row new_col saved scroll_end faulted
  with_cursor w = record {
    cols_eq = v.cols_eq;
    rows_eq = v.rows_eq;
    cols_pos = v.cols_pos;
    grid = v.grid;
    top_ok = v.top_ok;
    alt_grid = v.alt_grid;
    cursor_ok = w;
    saved_ok = v.saved_ok;
    region_ok = v.region_ok;
    no_fault = v.no_fault;
  }

  pub with_saved :
      {new : SavedCursor}
      → Within cols rows new.row new.col
      → Fits cols rows width height screen top alt row col new scroll_end faulted
  with_saved w = record {
    cols_eq = v.cols_eq;
    rows_eq = v.rows_eq;
    cols_pos = v.cols_pos;
    grid = v.grid;
    top_ok = v.top_ok;
    alt_grid = v.alt_grid;
    cursor_ok = v.cursor_ok;
    saved_ok = w;
    region_ok = v.region_ok;
    no_fault = v.no_fault;
  }

  pub with_region :
      {new : ℕ} → new ≤ rows → Fits cols rows width height screen top alt row col saved new faulted
  with_region h = record {
    cols_eq = v.cols_eq;
    rows_eq = v.rows_eq;
    cols_pos = v.cols_pos;
    grid = v.grid;
    top_ok = v.top_ok;
    alt_grid = v.alt_grid;
    cursor_ok = v.cursor_ok;
    saved_ok = v.saved_ok;
    region_ok = h;
    no_fault = v.no_fault;
  }

  -- The two grids change places.
  pub with_swap : Fits cols rows width height alt 0 screen row col saved scroll_end faulted
  with_swap = record {
    cols_eq = v.cols_eq;
    rows_eq = v.rows_eq;
    cols_pos = v.cols_pos;
    grid = v.alt_grid;
    top_ok = omega (arith, v.top_ok);
    alt_grid = v.grid;
    cursor_ok = v.cursor_ok;
    saved_ok = v.saved_ok;
    region_ok = v.region_ok;
    no_fault = v.no_fault;
  }
