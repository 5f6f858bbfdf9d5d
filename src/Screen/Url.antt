-- ===== src/Screen/Url.antt =====
-- ScreenBuffer::detect_url_at (src/terminal/screen_buffer.cpp).
use rivt.Base.{
  ℕ, zero, suc, ◌+◌, ◌-◌, bit_and, Bool, true, false, not, ◌&&◌, ◌||◌, List, [], ◌∷◌, ◌++◌, map,
  Option, none, some, length, get_or, take, drop, leb, ltb, ◌==◌, if◌then◌else◌,
}
use rivt.Base.Bytes.{Bytes}
use rivt.Base.Int.{ℤ, pos, negsuc, ◌+ℤ◌, ◌-ℤ◌}
use rivt.Snapshot.Cells.{Cell, blank}
use rivt.Screen.State.{Screen}
use rivt.Screen.Scroll.{line}
use rivt.Screen.Edit.{attr_hyperlink}
use rivt.Screen.Select.{same_ℤ}

-- `m_hyperlinks.find(id)`
unfoldable pub find_link : ℕ → List (ℕ × Bytes) → Option Bytes
find_link id [] = none
find_link id ((k, uri) ∷ links) =
    let rest = find_link id links in if k == id then some uri else rest

-- The explicit hyperlink of a cell.
unfoldable pub cell_link : Cell → Screen → Option Bytes
unfolding find_link
cell_link c s =
    if bit_and c.attrs attr_hyperlink == 0 || c.hyperlink_id == 0
    then none
    else find_link c.hyperlink_id s.hyperlinks

-- The first row of the logical line, with `guard` rounds left.
unfoldable pub start_row : ℕ → Screen → ℤ → ℤ
unfolding line ◌-ℤ◌
start_row zero s row = row
start_row (suc guard) s row =
    let before = row -ℤ pos 1 in
    let rest = start_row guard s before in if (line s before).wrapped then rest else row

-- The code points of the logical line from row `r` on, and the index of the cell that is clicked.
unfoldable pub gather_cps : ℕ → Screen → ℤ → ℕ → ℤ → List ℕ → Option ℕ → List ℕ × Option ℕ
unfolding line ◌+ℤ◌
gather_cps zero s screen_row col r cps click = (cps, click)
gather_cps (suc guard) s screen_row col r cps click =
    let l = line s r in
    let click' = if same_ℤ r screen_row then some (length cps + col) else click in
    let cps' = cps ++ map (λ (c : Cell). c.codepoint) l.cells in
    let rest = gather_cps guard s screen_row col (r +ℤ pos 1) cps' click' in
    if l.wrapped then rest else (cps', click')

unfoldable pub is_url_char : ℕ → Bool
is_url_char cp =
    if leb cp b' ' || leb 0x7F cp
    then false
    else not (cp == 0x3C || cp == 0x3E || cp == 0x22 || cp == 0x27)

-- `match_at`, on the code points from the position on.
unfoldable pub match_at : Bytes → List ℕ → Bool
match_at [] cps = true
match_at (b ∷ str) [] = false
match_at (b ∷ str) (cp ∷ cps) = cp == b && match_at str cps

abbrev pub schemes : List Bytes
schemes =
    (b'h' ∷ b't' ∷ b't' ∷ b'p' ∷ b's' ∷ b':' ∷ b'/' ∷ b'/' ∷ [])
    ∷ (b'h' ∷ b't' ∷ b't' ∷ b'p' ∷ b':' ∷ b'/' ∷ b'/' ∷ [])
    ∷ (b'f' ∷ b't' ∷ b'p' ∷ b':' ∷ b'/' ∷ b'/' ∷ [])
    ∷ (b'f' ∷ b'i' ∷ b'l' ∷ b'e' ∷ b':' ∷ b'/' ∷ b'/' ∷ [])
    ∷ []

unfoldable pub any_scheme : List Bytes → List ℕ → Bool
unfolding match_at
any_scheme [] cps = false
any_scheme (s ∷ more) cps = match_at s cps || any_scheme more cps

-- Whether a URL begins here, and then whether it needs a scheme in front.
unfoldable pub url_begins : List ℕ → Option Bool
unfolding any_scheme match_at
url_begins cps =
    if any_scheme schemes cps
    then some false
    else if match_at (b'w' ∷ b'w' ∷ b'w' ∷ b'.' ∷ []) cps
    then some true
    else none

unfoldable pub is_alphanumeric : ℕ → Bool
is_alphanumeric cp =
    (leb b'a' cp && leb cp b'z') || (leb b'A' cp && leb cp b'Z') || (leb b'0' cp && leb cp b'9')

-- The number of URL characters in front.
unfoldable pub url_length : List ℕ → ℕ
unfolding is_url_char
url_length [] = 0
url_length (cp ∷ cps) = let rest = url_length cps in if is_url_char cp then suc rest else 0

unfoldable pub count_cp : ℕ → List ℕ → ℕ
count_cp b [] = 0
count_cp b (cp ∷ cps) = (if cp == b then 1 else 0) + count_cp b cps

unfoldable pub is_trailing : ℕ → Bool
is_trailing c = c == b'.' || c == b',' || c == b';' || c == b':' || c == b'!' || c == b'?'

-- The length without the punctuation at the end, of the first `n` code points.
unfoldable pub strip_url : ℕ → List ℕ → ℕ
unfolding is_trailing count_cp
strip_url zero cps = 0
strip_url (suc n) cps =
    let rest = strip_url n cps in
    let c = get_or cps n 0 in
    if is_trailing c
    then rest
    else if c == b')' && ltb (count_cp b'(' (take (suc n) cps)) (count_cp b')' (take (suc n) cps))
    then rest
    else suc n

unfoldable pub ascii_only : List ℕ → Bytes
ascii_only [] = []
ascii_only (cp ∷ cps) = if ltb cp 0x80 then cp ∷ ascii_only cps else ascii_only cps

abbrev pub url_text : Bool → List ℕ → Bytes
url_text prepend_http cps =
    (if prepend_http then b'h' ∷ b't' ∷ b't' ∷ b'p' ∷ b':' ∷ b'/' ∷ b'/' ∷ [] else [])
    ++ ascii_only cps

abbrev pub is_clicked : Option ℕ → ℕ → ℕ → Bool
is_clicked none first stop = false
is_clicked (some click) first stop = leb first click && ltb click stop

-- A round: `next` is what the loop gives from the next position on, and `behind` from the end of the URL
-- on.
unfoldable pub scan_step :
    Option Bool → Bool → Bool → List ℕ → Option Bytes → Option Bytes → Option Bytes
unfolding ascii_only
scan_step none mid_word clicked url next behind = next
scan_step (some prepend_http) mid_word clicked url next behind =
    if mid_word then next else if clicked then some (url_text prepend_http url) else behind

-- The loop from the position `at` on. `none` is what it gives when its fuel is used up in front of the
-- end.
unfoldable pub scan_urls : ℕ → List ℕ → Option ℕ → ℕ → Option Bytes
unfolding url_begins is_alphanumeric url_length strip_url scan_step
scan_urls zero cps click at = if leb (length cps) at then some [] else none
scan_urls (suc f) cps click at =
    let here = drop at cps in
    let stop = strip_url (url_length here) here in
    let next = scan_urls f cps click (suc at) in
    let behind = scan_urls f cps click (at + stop) in
    if leb (length cps) at
    then some []
    else scan_step (url_begins here) (ltb 0 at && is_alphanumeric (get_or cps (at - 1) 0))
        (is_clicked click at (at + stop)) (take stop here) next behind

unfoldable pub find_url : Screen → ℤ → ℕ → Option Bytes
unfolding start_row gather_cps scan_urls
find_url s screen_row col =
    let found = gather_cps 10000 s screen_row col (start_row 10000 s screen_row) [] none in
    scan_urls (length found.0) found.0 found.1 0

abbrev pub link_or : Option Bytes → Option Bytes → Option Bytes
link_or none url = url
link_or (some uri) url = some uri

unfoldable pub detect_url_at : Screen → ℤ → ℤ → Option Bytes
unfolding line cell_link find_url
detect_url_at s screen_row (negsuc n) = some []
detect_url_at s screen_row (pos col) =
    let l = line s screen_row in
    if leb (length l.cells) col
    then some []
    else link_or (cell_link (get_or l.cells col blank) s) (find_url s screen_row col)
