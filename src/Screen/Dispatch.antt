-- ===== src/Screen/Dispatch.antt =====
-- The `VtHandler` side of `ScreenBuffer` (src/terminal/screen_buffer.cpp), without apc_dispatch. The
-- numbers in reports are written as `%d` writes them.
use rivt.Base.{
  ℕ, zero, suc, ◌+◌, ◌-◌, ◌*◌, ◌/◌, min, Bool, true, false, not, ◌&&◌, ◌||◌, List, [], ◌∷◌, ◌++◌,
  Option, none, some, length, take, get_or, leb, ltb, ◌^◌, ◌==◌, if◌then◌else◌,
}
use rivt.Base.Bytes.{Bytes}
use rivt.Base.Int.{ℤ, pos, negsuc, pos_part}
use rivt.Vt.Params.{CsiParam, params_get}
use rivt.Vt.Decimal.{decimal}
use rivt.Screen.State.{Screen, emit}
use rivt.Screen.Fields.{Call, Charsets}
use rivt.Screen.Scroll.{scroll_up, scroll_down}
use rivt.Screen.Edit.{
  set_cursor, new_line, put_char, erase_cells, erase_line, erase_display, insert_chars,
  delete_chars, insert_lines, delete_lines,
}
use rivt.Screen.Sgr.{handle_sgr}
use rivt.Screen.Modes.{set_mode}

-- `dec_special_graphics`, from 0x60 on.
abbrev pub dec_special_graphics : List ℕ
dec_special_graphics =
    0x25C6 ∷ 0x2592 ∷ 0x2409 ∷ 0x240C ∷ 0x240D ∷ 0x240A ∷ 0x00B0 ∷ 0x00B1 ∷ 0x2424 ∷ 0x240B ∷ 0x2518
    ∷ 0x2510 ∷ 0x250C ∷ 0x2514 ∷ 0x253C ∷ 0x23BA ∷ 0x23BB ∷ 0x2500 ∷ 0x23BC ∷ 0x23BD ∷ 0x251C
    ∷ 0x2524 ∷ 0x2534 ∷ 0x252C ∷ 0x2502 ∷ 0x2264 ∷ 0x2265 ∷ 0x03C0 ∷ 0x2260 ∷ 0x00A3 ∷ 0x00B7 ∷ []

unfoldable pub translate : Charsets → ℕ → ℕ
translate c cp =
    let charset = if c.gl == 0 then c.g0 else c.g1 in
    if charset == 1 && leb 0x60 cp && leb cp 0x7E
    then get_or dec_special_graphics (cp - 0x60) 0
    else cp

unfoldable pub print : ℕ → Screen → Screen
unfolding translate put_char
print codepoint s =
    let cp = translate s.charsets codepoint in put_char cp (record s { last_printed = cp })

unfoldable pub execute : ℕ → Screen → Screen
unfolding new_line
execute code s =
    if code == 0x07
    then emit s.hooks.bell Call.bell s
    else if code == 0x08
    then record s { cursor_col = s.cursor_col - 1 }
    else if code == 0x09
    then record s { cursor_col = min ((s.cursor_col / 8 + 1) * 8) (s.cols - 1) }
    else if code == 0x0A || code == 0x0B || code == 0x0C
    then new_line s
    else if code == 0x0D
    then record s { cursor_col = 0 }
    else if code == 0x0E
    then record s { charsets = record (s.charsets) { gl = 1 } }
    else if code == 0x0F
    then record s { charsets = record (s.charsets) { gl = 0 } }
    else s

-- `params.get(i, def)`, which is not negative for a `def` that is not.
unfoldable pub arg : List CsiParam → ℕ → ℕ → ℕ
unfolding params_get
arg ps i def = pos_part (params_get ps (pos i) (pos def))

-- `std::max(1, params.get(0, 1))`
unfoldable pub count_arg : List CsiParam → ℕ
unfolding arg
count_arg ps = let n = arg ps 0 1 in if n == 0 then 1 else n

unfoldable pub repeat_char : ℕ → ℕ → Screen → Screen
unfolding put_char
repeat_char zero cp s = s
repeat_char (suc n) cp s = repeat_char n cp (put_char cp s)

unfoldable pub set_modes : List CsiParam → Bool → Bool → Screen → Screen
unfolding arg set_mode
set_modes [] enable dec_private s = s
set_modes (p ∷ ps) enable dec_private s =
    set_modes ps enable dec_private (set_mode (arg (p ∷ []) 0 0) enable dec_private s)

-- DECSTBM
unfoldable pub set_region : ℕ → ℕ → Screen → Screen
unfolding set_cursor
set_region first last s =
    set_cursor 0 0 (record s { scroll_top = first - 1; scroll_end = min s.rows last })

unfoldable pub print_int : ℤ → Bytes
print_int (pos n) = decimal 9 n
print_int (negsuc n) = b'-' ∷ decimal 9 (suc n)

abbrev pub csi_text : Bytes → Bytes
csi_text rest = 0x1B ∷ b'[' ∷ rest

unfoldable pub status_report : ℕ → Bool → Screen → Screen
unfolding print_int
status_report kind dec_private s =
    if kind == 6
    then emit s.hooks.write_back
        (Call.write_back (
          csi_text (
            (if dec_private then b'?' ∷ [] else [])
            ++ (print_int (pos (s.cursor_row + 1))
                ++ (b';' ∷ (print_int (pos (s.cursor_col + 1)) ++ (b'R' ∷ [])))))))
        s
    else if kind == 5 && not dec_private
    then emit s.hooks.write_back (Call.write_back (csi_text (b'0' ∷ b'n' ∷ []))) s
    else s

unfoldable pub device_attributes : ℕ → Screen → Screen
device_attributes intermediate s =
    if intermediate == b'>'
    then emit s.hooks.write_back
        (Call.write_back (csi_text (b'>' ∷ b'0' ∷ b';' ∷ b'0' ∷ b';' ∷ b'0' ∷ b'c' ∷ []))) s
    else if intermediate == 0
    then emit s.hooks.write_back
        (Call.write_back (csi_text (b'?' ∷ b'6' ∷ b'2' ∷ b';' ∷ b'2' ∷ b'2' ∷ b'c' ∷ []))) s
    else s

-- `kitty_kbd_flags()`: the last of the stack.
unfoldable pub kitty_kbd_flags : List ℤ → ℤ
kitty_kbd_flags [] = pos 0
kitty_kbd_flags (f ∷ []) = f
kitty_kbd_flags (f ∷ g ∷ fs) = kitty_kbd_flags (g ∷ fs)

unfoldable pub kitty_keyboard : List CsiParam → ℕ → Screen → Screen
unfolding arg count_arg kitty_kbd_flags print_int
kitty_keyboard ps intermediate s =
    if intermediate == b'?'
    then emit s.hooks.write_back
        (Call.write_back
          (csi_text (b'?' ∷ (print_int (kitty_kbd_flags s.kitty_kbd_stack) ++ (b'u' ∷ [])))))
        s
    else if intermediate == b'>'
    then record s { kitty_kbd_stack = s.kitty_kbd_stack ++ (pos (arg ps 0 0) ∷ []) }
    else if intermediate == b'<'
    then record s {
      kitty_kbd_stack = take (length s.kitty_kbd_stack - count_arg ps) s.kitty_kbd_stack;
    }
    else s

unfoldable pub erase_in_line : ℕ → Screen → Screen
unfolding erase_cells erase_line
erase_in_line mode s =
    if mode == 0
    then erase_cells s.cursor_row s.cursor_col s.cols s
    else if mode == 1
    then erase_cells s.cursor_row 0 (suc s.cursor_col) s
    else if mode == 2
    then erase_line s.cursor_row s
    else s

-- A sum of ints that wraps around is negative, which is clamped to 0.
abbrev pub int_sum : ℕ → ℕ → ℕ
int_sum a n = if ltb (a + n) (2 ^ 31) then a + n else 0

-- Behind the last column of ECH, `m_cursor_col + n - 1`, with nothing to erase where that wraps around.
abbrev pub erase_stop : ℕ → ℕ → ℕ
erase_stop col n = if leb (col + n) (2 ^ 31) then col + n else 0

-- The final bytes that move the cursor.
unfoldable pub move_cursor : List CsiParam → ℕ → Screen → Option Screen
unfolding arg count_arg set_cursor
move_cursor ps final s =
    let n = count_arg ps in
    let row = s.cursor_row in
    let col = s.cursor_col in
    if final == b'A'
    then some (set_cursor (row - n) col s)
    else if final == b'B'
    then some (set_cursor (int_sum row n) col s)
    else if final == b'C'
    then some (set_cursor row (int_sum col n) s)
    else if final == b'D'
    then some (set_cursor row (col - n) s)
    else if final == b'E'
    then some (set_cursor (int_sum row n) 0 s)
    else if final == b'F'
    then some (set_cursor (row - n) 0 s)
    else if final == b'G'
    then some (set_cursor row (arg ps 0 1 - 1) s)
    else if final == b'H' || final == b'f'
    then some (set_cursor (arg ps 0 1 - 1) (arg ps 1 1 - 1) s)
    else if final == b'd'
    then some (set_cursor (arg ps 0 1 - 1) col s)
    else none

-- Those that change the screen.
unfoldable pub edit_screen : List CsiParam → ℕ → Screen → Option Screen
unfolding arg count_arg erase_display erase_in_line insert_lines delete_lines delete_chars scroll_up
    scroll_down erase_cells insert_chars repeat_char
edit_screen ps final s =
    let n = count_arg ps in
    if final == b'J'
    then some (erase_display (arg ps 0 0) s)
    else if final == b'K'
    then some (erase_in_line (arg ps 0 0) s)
    else if final == b'L'
    then some (insert_lines n s)
    else if final == b'M'
    then some (delete_lines n s)
    else if final == b'P'
    then some (delete_chars n s)
    else if final == b'S'
    then some (scroll_up s.scroll_top s.scroll_end n s)
    else if final == b'T'
    then some (scroll_down s.scroll_top s.scroll_end n s)
    else if final == b'X'
    then some (erase_cells s.cursor_row s.cursor_col (min (erase_stop s.cursor_col n) s.cols) s)
    else if final == b'@'
    then some (insert_chars n s)
    else if final == b'b'
    then some (if s.last_printed == 0 then s else repeat_char n s.last_printed s)
    else none

-- Those that change modes, or report.
unfoldable pub other_csi : List CsiParam → ℕ → ℕ → Screen → Screen
unfolding arg set_modes handle_sgr set_region status_report device_attributes kitty_keyboard
other_csi ps intermediate final s =
    let dec_private = intermediate == b'?' in
    if final == b'h'
    then set_modes ps true dec_private s
    else if final == b'l'
    then set_modes ps false dec_private s
    else if final == b'm'
    then (if intermediate == 0 then record s { pen = handle_sgr ps s.pen } else s)
    else if final == b'r'
    then set_region (arg ps 0 1) (arg ps 1 s.rows) s
    else if final == b'n'
    then status_report (arg ps 0 0) dec_private s
    else if final == b'c'
    then device_attributes intermediate s
    else if final == b'u'
    then kitty_keyboard ps intermediate s
    else s

abbrev pub or_else : Option Screen → Screen → Screen
or_else none s = s
or_else (some t) s = t

unfoldable pub csi_dispatch : List CsiParam → ℕ → ℕ → Screen → Screen
unfolding move_cursor edit_screen other_csi
csi_dispatch ps intermediate final s =
    or_else (move_cursor ps final s)
      (or_else (edit_screen ps final s) (other_csi ps intermediate final s))
