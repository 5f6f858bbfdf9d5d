-- ===== src/Screen/Examples.antt =====
-- `ScreenBuffer` of src/terminal/screen_buffer.cpp on concrete input.
use rivt.Base.{
  none, replicate, length, ◌*◌, ℕ, List, ◌-◌, ◌≡◌, refl, true, [], ◌∷◌, ◌++◌, some, map, take, drop,
  get_or, arith,
}
use rivt.Base.Bytes.{Bytes}
use rivt.Base.Int.{pos, ◌+ℤ◌}
use rivt.Base.Moves.{move_left, fill}
use rivt.Base.Change.{change_part}
use rivt.Base.Shift.{moved_up, moved_down}
use rivt.Snapshot.Cells.{Cell, Line, blank}
use rivt.Screen.State.{Screen, new_screen, blank_line, physical, sline, put_sline, rows_of}
use rivt.Screen.Fields.{SearchState, no_search}
use rivt.Screen.Scroll.{
  push_scrollback, trim_scrollback, save_top, shift_up, scroll_up_once, scroll_up, scroll_down,
}
use rivt.Screen.Edit.{insert_cells, delete_cells}
use rivt.Screen.Search.{
  build_query_cps, matches_here, search_line, search_lines, all_lines, find_matches,
  find_matches_incremental, match_type, first_on_line, type_on_line,
}
use rivt.Screen.Select.{output_range, output_from, scan_back, scan_forward}
use rivt.Screen.Resize.{resize}
use rivt.Screen.WellFormed.{new_screen-IsScreen}
use rivt.Screen.Fits.{HasCols, IsScreen, with-Grid}
use rivt.Screen.Lines.{text_of}
use rivt.Screen.Scrolled.{scroll_up_lem, scroll_down_lem}
use rivt.Screen.Turned.{fresh}
use rivt.Screen.Rows.{insert_cells_lem, delete_cells_lem}
use rivt.Screen.History.{push_scrollback_lem}
use rivt.Screen.Resized.{resize-IsScreen}
use rivt.Screen.Reflow.{wrap_line}
use rivt.Screen.Rewrapped.{code_points, rows_text, wrap_marks, wrap_line_lem}
use rivt.Screen.Found.{find_matches_incremental_lem}
use rivt.Screen.Located.{IsSorted, find_type, match_type_lem}
use rivt.Screen.Url.{
  any_scheme, match_at, url_begins, is_alphanumeric, url_length, is_url_char, strip_url,
  is_trailing, count_cp, ascii_only, scan_step, scan_urls, detect_url_at,
}
use rivt.Screen.Scan.{detect_url_at_ends}
use rivt.Screen.Output.{OnRange, IsOutput, output_range-IsOutput}

-- Three rows of four columns, with a scrollback of one line.
abbrev small : Screen
small = new_screen 4 3 (pos 1)

small-IsScreen : IsScreen 4 3 small
small-IsScreen = new_screen-IsScreen 4 3 (pos 1) (omega arith) (omega arith)

-- A handler of APC strings that ignores them.
abbrev ignore : Bytes → Screen → Screen
ignore payload s = s

-- Text that fills a row, a red letter in the next, two cells that are inserted and an erased line.
abbrev output : Bytes
output =
    b'a' ∷ b'b' ∷ b'c' ∷ b'd' ∷ 0x1B ∷ b'[' ∷ b'3' ∷ b'1' ∷ b'm' ∷ b'e' ∷ 0x1B ∷ b'[' ∷ b'2' ∷ b'@'
    ∷ 0x0A ∷ 0x1B ∷ b'[' ∷ b'K' ∷ []

abbrev abcd : Line
abcd = record (blank_line 4) {
  cells =
      record blank { codepoint = b'a' }
      ∷ record blank { codepoint = b'b' }
      ∷ record blank { codepoint = b'c' }
      ∷ record blank { codepoint = b'd' }
      ∷ [];
}

-- The letters in the first row.
abbrev written : Screen
written = record small { screen = abcd ∷ blank_line 4 ∷ blank_line 4 ∷ [] }

written-IsScreen : IsScreen 4 3 written
unfolding IsScreen HasCols
written-IsScreen =
    with-Grid small-IsScreen (record { size_ok = refl; lines_ok = (refl, (refl, (refl, tt))) })

-- With a line in the scrollback.
abbrev one_back : Screen
one_back = record written { scrollback = blank_line 4 ∷ [] }

-- One line of the scrollback is searched, where a letter is found.
abbrev searched : Screen
searched = record written {
  scrollback = abcd ∷ [];
  search = record no_search {
    query = b'c' ∷ [];
    case_sensitive = true;
    matches = record { abs_line = pos 0; start_col = 2; end_col = 2 } ∷ [];
    searched_up_to = 2;
  };
}

searched-matches :
    searched.search.matches
    ≡ search_lines true (build_query_cps (b'c' ∷ []) true) (pos 0) (take 1 (all_lines searched))
      ++ []
unfolding search_lines search_line matches_here build_query_cps
searched-matches = refl

abbrev two_matches : SearchState
two_matches = record no_search {
  active = true;
  matches =
      record { abs_line = pos 0; start_col = 2; end_col = 3 }
      ∷ record { abs_line = pos 1; start_col = 3; end_col = 4 }
      ∷ [];
  current_match = some 1;
}

two_matches-IsSorted : IsSorted two_matches.matches
two_matches-IsSorted = ground arith

match_type_test : match_type two_matches (pos 1) 4 ≡ 2
unfolding match_type first_on_line type_on_line
match_type_test = refl

output_range_test : output_range (b'A' ∷ b'C' ∷ 0 ∷ 0 ∷ b'A' ∷ []) 3 ≡ some (2, 3)
unfolding output_range output_from scan_back scan_forward
output_range_test = refl

scroll_test :
    map (λ (l : Line). (get_or l.cells 0 blank).codepoint) (rows_of (scroll_up 0 2 1 written))
    ≡ b' ' ∷ b' ' ∷ b' ' ∷ []
unfolding scroll_up scroll_up_once save_top push_scrollback trim_scrollback shift_up put_sline sline
    physical
scroll_test = refl

delete_test :
    map (λ (c : Cell). c.codepoint) (delete_cells 4 1 2 blank abcd.cells)
    ≡ b'a' ∷ b'd' ∷ b' ' ∷ b' ' ∷ []
unfolding delete_cells move_left fill
delete_test = refl

scroll_up_lem_example :
    text_of (scroll_up 0 3 2 written)
    ≡ change_part 0 3 (moved_up (fresh written) 2) (text_of written)
scroll_up_lem_example = scroll_up_lem 4 3 0 3 2 written written-IsScreen (omega arith) (omega arith)

scroll_down_lem_example :
    text_of (scroll_down 0 2 1 written)
    ≡ change_part 0 2 (moved_down (fresh written) 1) (text_of written)
scroll_down_lem_example =
    scroll_down_lem 4 3 0 2 1 written written-IsScreen (omega arith) (omega arith)

insert_cells_lem_example :
    insert_cells 4 1 2 blank abcd.cells ≡ some (change_part 1 4 (moved_down blank 2) abcd.cells)
insert_cells_lem_example =
    insert_cells_lem blank 4 1 2 abcd.cells refl (omega arith) (omega arith) (omega arith)

delete_cells_lem_example :
    delete_cells 4 1 2 blank abcd.cells ≡ change_part 1 4 (moved_up blank 2) abcd.cells
delete_cells_lem_example = delete_cells_lem blank 4 1 2 abcd.cells refl (omega arith)

push_scrollback_lem_example :
    ((push_scrollback abcd one_back).scrollback ≡ drop (2 - 1) (one_back.scrollback ++ (abcd ∷ [])))
    × ((push_scrollback abcd one_back).scrollback_trimmed
        ≡ one_back.scrollback_trimmed +ℤ pos (2 - 1))
push_scrollback_lem_example = push_scrollback_lem abcd one_back 1 refl refl

resize-IsScreen_example : IsScreen 2 5 (resize 2 5 written)
resize-IsScreen_example =
    resize-IsScreen 4 3 2 5 written written-IsScreen (omega arith) (omega arith)
      (record { row_ok = omega arith; col_ok = omega arith })

-- Four letters in two lines of three columns.
wrap_line_lem_example :
    let made = (wrap_line 3 0 none abcd.cells).0 in
    (rows_text made ≡ code_points abcd.cells ++ replicate (length made * 3 - 4) b' ')
    × (map (λ (l : Line). l.wrapped) made ≡ wrap_marks (length made))
wrap_line_lem_example = wrap_line_lem 3 0 none abcd.cells (omega arith)

find_matches_incremental_lem_example :
    (find_matches_incremental searched).search.matches
    ≡ (find_matches (b'c' ∷ []) true searched).search.matches
find_matches_incremental_lem_example =
    find_matches_incremental_lem searched [] refl (omega arith) searched-matches tt

match_type_lem_example :
    match_type two_matches (pos 1) 4 ≡ find_type (pos 1) 4 (some 1) 0 two_matches.matches
match_type_lem_example = match_type_lem two_matches (pos 1) 4 two_matches-IsSorted

output_range-IsOutput_example :
    OnRange
      (output_range (b'A' ∷ b'C' ∷ 0 ∷ 0 ∷ b'A' ∷ []) 3)
      (IsOutput (b'A' ∷ b'C' ∷ 0 ∷ 0 ∷ b'A' ∷ []) 3)
output_range-IsOutput_example =
    output_range-IsOutput (b'A' ∷ b'C' ∷ 0 ∷ 0 ∷ b'A' ∷ []) 3 (omega arith)

-- (see http://a.b).
abbrev with_url : List ℕ
with_url =
    b'(' ∷ b's' ∷ b'e' ∷ b'e' ∷ b' ' ∷ b'h' ∷ b't' ∷ b't' ∷ b'p' ∷ b':' ∷ b'/' ∷ b'/' ∷ b'a' ∷ b'.'
    ∷ b'b' ∷ b')' ∷ b'.' ∷ []

scan_urls_test : scan_urls 17 with_url (some 6) 0 ≡ some (take 10 (drop 5 with_url))
unfolding scan_urls scan_step url_begins any_scheme match_at is_alphanumeric url_length is_url_char
    strip_url is_trailing count_cp ascii_only
scan_urls_test = refl

-- Behind a URL that is not clicked the loop goes on, and ends.
scan_urls_end_test : scan_urls 17 with_url (some 1) 0 ≡ some []
unfolding scan_urls scan_step url_begins any_scheme match_at is_alphanumeric url_length is_url_char
    strip_url is_trailing count_cp ascii_only
scan_urls_end_test = refl

-- A row that begins with www.
abbrev with_www : Screen
with_www = record small {
  screen =
      record (blank_line 4) {
        cells =
            record blank { codepoint = b'w' }
            ∷ record blank { codepoint = b'w' }
            ∷ record blank { codepoint = b'w' }
            ∷ record blank { codepoint = b'.' }
            ∷ [];
      }
      ∷ blank_line 4
      ∷ blank_line 4
      ∷ [];
}

detect_url_at_ends_example : (url : Bytes) × (detect_url_at with_www (pos 0) (pos 1) ≡ some url)
detect_url_at_ends_example = detect_url_at_ends with_www (pos 0) (pos 1)
