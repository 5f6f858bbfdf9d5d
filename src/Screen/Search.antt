-- ===== src/Screen/Search.antt =====
-- Search in the scrollback and the screen (SearchState of src/terminal/screen_buffer.h, and the end of
-- src/terminal/screen_buffer.cpp). The line numbers that are compared are held below 2 ^ 31.
use rivt.Base.{
  ℕ, zero, suc, ◌+◌, ◌-◌, ◌/◌, min, Bool, true, false, ◌&&◌, ◌||◌, List, [], ◌∷◌, ◌++◌, map, Option,
  none, some, length, get_or, take, drop, leb, ltb, ◌==◌, if◌then◌else◌,
}
use rivt.Base.Bytes.{Bytes}
use rivt.Base.Int.{ℤ, pos, ◌+ℤ◌, ltb_ℤ, leb_ℤ}
use rivt.Snapshot.Cells.{Cell, Line}
use rivt.Screen.State.{Screen, rows_of}
use rivt.Screen.Fields.{SearchMatch, SearchState}
use rivt.Screen.Scroll.{absolute_line}

unfoldable pub tolower_cp : ℕ → ℕ
tolower_cp cp = if leb b'A' cp && leb cp b'Z' then cp + 32 else cp

unfoldable pub build_query_cps : Bytes → Bool → List ℕ
unfolding tolower_cp
build_query_cps query case_sensitive = if case_sensitive then query else map tolower_cp query

-- The loop over `k`, at a column.
unfoldable pub matches_here : Bool → List ℕ → List Cell → Bool
unfolding tolower_cp
matches_here case_sensitive [] cells = true
matches_here case_sensitive (q ∷ qs) [] = false
matches_here case_sensitive (q ∷ qs) (c ∷ cells) =
    (if case_sensitive then c.codepoint else tolower_cp c.codepoint) == q
    && matches_here case_sensitive qs cells

-- The loop over the columns. The query is not empty, so that it is found nowhere behind the last column
-- that the loop tries.
unfoldable pub search_line : Bool → List ℕ → ℤ → ℕ → List Cell → List SearchMatch
unfolding matches_here
search_line case_sensitive qcps abs_line col [] = []
search_line case_sensitive qcps abs_line col (c ∷ cells) =
    let rest = search_line case_sensitive qcps abs_line (suc col) cells in
    if matches_here case_sensitive qcps (c ∷ cells)
    then record { abs_line = abs_line; start_col = col; end_col = col + length qcps - 1 } ∷ rest
    else rest

-- The loop over the lines, from the one with the number `abs_line` on.
unfoldable pub search_lines : Bool → List ℕ → ℤ → List Line → List SearchMatch
unfolding search_line ◌+ℤ◌
search_lines case_sensitive qcps abs_line [] = []
search_lines case_sensitive qcps abs_line (l ∷ ls) =
    search_line case_sensitive qcps abs_line 0 l.cells
    ++ search_lines case_sensitive qcps (abs_line +ℤ pos 1) ls

-- The lines from the oldest of the scrollback to the bottom of the screen.
abbrev pub all_lines : Screen → List Line
all_lines s = s.scrollback ++ rows_of s

-- `total_lines()`
abbrev pub total_lines : Screen → ℕ
total_lines s = length s.scrollback + s.rows

-- The last match from the `i`th on that is not below the line, or else `found`.
unfoldable pub nearest_match : ℤ → ℕ → ℕ → List SearchMatch → ℕ
nearest_match bottom_line i found [] = found
nearest_match bottom_line i found (m ∷ ms) =
    nearest_match bottom_line (suc i) (if leb_ℤ m.abs_line bottom_line then i else found) ms

unfoldable pub first_current : ℤ → List SearchMatch → Option ℕ
unfolding nearest_match
first_current bottom_line [] = none
first_current bottom_line (m ∷ ms) = some (nearest_match bottom_line 0 0 (m ∷ ms))

-- ScreenBuffer::find_matches
unfoldable pub find_matches : Bytes → Bool → Screen → Screen
unfolding build_query_cps search_lines first_current absolute_line
find_matches [] case_sensitive s = record s {
  search = record (s.search) { matches = []; current_match = none; searched_up_to = 0 };
}
find_matches (q ∷ query) case_sensitive s =
    let found =
      search_lines case_sensitive (build_query_cps (q ∷ query) case_sensitive) s.scrollback_trimmed
        (take (total_lines s) (all_lines s)) in
    record s {
      search = record (s.search) {
        matches = found;
        current_match = first_current (absolute_line s (pos (s.rows - 1))) found;
        searched_up_to = total_lines s;
      };
    }

-- `while (!matches.empty() && matches.back().abs_line >= from) matches.pop_back();`
unfoldable pub drop_stale : ℤ → List SearchMatch → List SearchMatch
drop_stale from [] = []
drop_stale from (m ∷ ms) = keep (drop_stale from ms) (leb_ℤ from m.abs_line) m
  where
    keep : List SearchMatch → Bool → SearchMatch → List SearchMatch
    keep [] true m = []
    keep [] false m = m ∷ []
    keep (n ∷ ns) b m = m ∷ n ∷ ns

-- ScreenBuffer::find_matches_incremental, behind its first test.
unfoldable pub rescan : Screen → Screen
unfolding build_query_cps search_lines drop_stale ◌+ℤ◌
rescan s =
    let from = min s.search.searched_up_to (length s.scrollback) in
    let first = s.scrollback_trimmed +ℤ pos from in
    let found =
      search_lines s.search.case_sensitive (build_query_cps s.search.query s.search.case_sensitive)
        first (take (total_lines s - from) (drop from (all_lines s))) in
    record s {
      search = record (s.search) {
        matches = drop_stale first s.search.matches ++ found;
        searched_up_to = total_lines s;
      };
    }

abbrev pub is_empty_query : Bytes → Bool
is_empty_query [] = true
is_empty_query (b ∷ bs) = false

unfoldable pub find_matches_incremental : Screen → Screen
unfolding rescan
find_matches_incremental s =
    if is_empty_query s.search.query || leb (total_lines s) s.search.searched_up_to
    then s
    else rescan s

-- SearchState::match_type: the loop that looks for the first match on a line. Each round halves the
-- range at least, so its length is fuel enough.
abbrev pub no_match : SearchMatch
no_match = record { abs_line = pos 0; start_col = 0; end_col = 0 }

unfoldable pub first_on_line : ℕ → List SearchMatch → ℤ → ℕ → ℕ → ℕ
first_on_line zero matches abs_line lo hi = lo
first_on_line (suc f) matches abs_line lo hi =
    let mid = (lo + hi) / 2 in
    let after = first_on_line f matches abs_line (mid + 1) hi in
    let before = first_on_line f matches abs_line lo mid in
    if ltb lo hi
    then (if ltb_ℤ (get_or matches mid no_match).abs_line abs_line then after else before)
    else lo

-- The loop over the matches of the line, from the `i`th on.
unfoldable pub type_on_line : ℤ → ℕ → Option ℕ → ℕ → List SearchMatch → ℕ
type_on_line abs_line col current i [] = 0
type_on_line abs_line col current i (m ∷ ms) =
    let rest = type_on_line abs_line col current (suc i) ms in
    if leb_ℤ m.abs_line abs_line && leb_ℤ abs_line m.abs_line
    then (if leb m.start_col col && leb col m.end_col then type_of current else rest)
    else 0
  where
    type_of : Option ℕ → ℕ
    type_of none = 1
    type_of (some c) = if i == c then 2 else 1

unfoldable pub match_type : SearchState → ℤ → ℕ → ℕ
unfolding first_on_line type_on_line
match_type st abs_line col =
    let n = length st.matches in
    let lo = first_on_line n st.matches abs_line 0 n in
    type_on_line abs_line col st.current_match lo (drop lo st.matches)
