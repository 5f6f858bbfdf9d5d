-- ===== src/Screen/Strings.antt =====
-- ScreenBuffer::osc_dispatch and esc_dispatch (src/terminal/screen_buffer.cpp), and all calls of the
-- handler together.
use rivt.Base.{
  ℕ, zero, suc, ◌+◌, ◌-◌, ◌%◌, ◌^◌, Bool, true, false, ◌&&◌, ◌||◌, List, [], ◌∷◌, ◌++◌, Option,
  none, some, length, ◌==◌, if◌then◌else◌,
}
use mathlib.Core.Option
use rivt.Base.Bytes.{Bytes}
use rivt.Base.Int.{ℤ, pos, negsuc}
use rivt.Vt.Parser.{Action, split_semicolon}
use rivt.Screen.State.{Screen, new_screen, sline, put_sline, emit}
use rivt.Screen.Fields.{Call}
use rivt.Screen.Scroll.{scroll_down}
use rivt.Screen.Edit.{new_line}
use rivt.Screen.Modes.{save_cursor, restore_cursor}
use rivt.Screen.Dispatch.{print, execute, csi_dispatch}

unfoldable pub same_bytes : Bytes → Bytes → Bool
same_bytes [] [] = true
same_bytes (x ∷ xs) (y ∷ ys) = x == y && same_bytes xs ys
same_bytes _ _ = false

-- What stands before and behind the first `=`.
unfoldable pub split_equals : Bytes → Option (Bytes × Bytes)
split_equals [] = none
split_equals (c ∷ cs) =
    if c == b'='
    then some ([], cs)
    else Option.map (λ (s : Bytes × Bytes). (c ∷ s.0, s.1)) (split_equals cs)

-- The `key=val;` pairs in front of a clipboard payload: the MIME type, and the data behind them. Each
-- round takes a semicolon, so the length of the data is fuel enough.
unfoldable pub osc52_metadata : ℕ → Bytes → Bytes → Bytes × Bytes
unfolding split_semicolon split_equals same_bytes
osc52_metadata zero mime text = (mime, text)
osc52_metadata (suc f) mime text = elim (split_semicolon text) [
  | none ↦ (mime, text)
  | some (pair, rest) ↦ elim (split_equals pair) [
    | none ↦ (mime, text)
    | some (key, val) ↦
        osc52_metadata f (if same_bytes key (b't' ∷ b'y' ∷ b'p' ∷ b'e' ∷ []) then val else mime)
          rest
  ]
]

-- On the payload split at its first semicolon.
unfoldable pub clipboard_parts : Option (Bytes × Bytes) → Screen → Screen
unfolding osc52_metadata same_bytes
clipboard_parts none s = s
clipboard_parts (some (sel, rest)) s =
    let (mime, text) = osc52_metadata (length rest) [] rest in
    if same_bytes text (b'?' ∷ [])
    then emit s.hooks.osc52_read (Call.osc52_read sel mime) s
    else emit s.hooks.osc52_write (Call.osc52_write sel text mime) s

unfoldable pub clipboard : Bytes → Screen → Screen
unfolding split_semicolon clipboard_parts
clipboard payload s = clipboard_parts (split_semicolon payload) s

-- `m_hyperlinks[id] = uri`
unfoldable pub put_link : ℕ → Bytes → List (ℕ × Bytes) → List (ℕ × Bytes)
put_link id uri [] = (id, uri) ∷ []
put_link id uri ((k, v) ∷ links) =
    let rest = put_link id uri links in if k == id then (k, uri) ∷ links else (k, v) ∷ rest

-- ScreenBuffer::hyperlink_uri
unfoldable pub hyperlink_uri : ℕ → List (ℕ × Bytes) → Bytes
hyperlink_uri id [] = []
hyperlink_uri id ((k, v) ∷ links) = let rest = hyperlink_uri id links in if k == id then v else rest

unfoldable pub start_link : Bytes → Screen → Screen
unfolding put_link
start_link uri s =
    let next = (s.next_hyperlink_id + 1) % 2 ^ 16 in
    record s {
      cur_hyperlink_id = s.next_hyperlink_id;
      next_hyperlink_id = if next == 0 then 1 else next;
      hyperlinks = put_link s.next_hyperlink_id uri s.hyperlinks;
    }

unfoldable pub hyperlink_parts : Option (Bytes × Bytes) → Screen → Screen
unfolding start_link
hyperlink_parts none s = s
hyperlink_parts (some (params, [])) s = record s { cur_hyperlink_id = 0 }
hyperlink_parts (some (params, c ∷ cs)) s = start_link (c ∷ cs) s

unfoldable pub hyperlink : Bytes → Screen → Screen
unfolding split_semicolon hyperlink_parts
hyperlink payload s = hyperlink_parts (split_semicolon payload) s

unfoldable pub mark_zone : Bytes → Screen → Screen
unfolding sline put_sline
mark_zone [] s = s
mark_zone (zone ∷ _) s =
    if zone == b'A' || zone == b'C'
    then put_sline s.cursor_row (record (sline s s.cursor_row) { semantic_zone = zone }) s
    else s

unfoldable pub osc_command_dispatch : ℕ → Bytes → Screen → Screen
unfolding clipboard hyperlink mark_zone
osc_command_dispatch command payload s =
    if command == 0 || command == 2
    then emit s.hooks.title (Call.title_change payload) s
    else if command == 7
    then emit s.hooks.cwd (Call.cwd_change payload) s
    else if command == 52
    then clipboard payload s
    else if command == 8
    then hyperlink payload s
    else if command == 133
    then mark_zone payload s
    else s

-- A command number that overflowed may be negative; no case is.
unfoldable pub osc_dispatch : ℤ → Bytes → Screen → Screen
unfolding osc_command_dispatch
osc_dispatch (pos command) payload s = osc_command_dispatch command payload s
osc_dispatch (negsuc n) payload s = s

unfoldable pub reverse_index : Screen → Screen
unfolding scroll_down
reverse_index s =
    if s.cursor_row == s.scroll_top
    then scroll_down s.scroll_top s.scroll_end 1 s
    else record s { cursor_row = s.cursor_row - 1 }

-- RIS: `*this = ScreenBuffer(m_cols, m_rows, m_scrollback_limit)`, which resets the callbacks and the
-- image store as well. The calls made so far stay made.
unfoldable pub full_reset : Screen → Screen
full_reset s = record (new_screen s.cols s.rows s.scrollback_limit) {
  calls = s.calls ++ (Call.new_image_store ∷ []);
  faulted = s.faulted;
}

unfoldable pub esc_plain : ℕ → Screen → Screen
unfolding save_cursor restore_cursor new_line reverse_index full_reset
esc_plain final s =
    if final == b'7'
    then save_cursor s
    else if final == b'8'
    then restore_cursor s
    else if final == b'D'
    then new_line s
    else if final == b'E'
    then new_line (record s { cursor_col = 0 })
    else if final == b'M'
    then reverse_index s
    else if final == b'c'
    then full_reset s
    else s

unfoldable pub esc_dispatch : ℕ → ℕ → Screen → Screen
unfolding esc_plain
esc_dispatch intermediate final s =
    let charset = if final == b'0' then 1 else 0 in
    if intermediate == 0
    then esc_plain final s
    else if intermediate == b'('
    then record s { charsets = record (s.charsets) { g0 = charset } }
    else if intermediate == b')'
    then record s { charsets = record (s.charsets) { g1 = charset } }
    else s

-- A call that the parser makes. DCS strings are ignored, and apc_dispatch is a parameter.
module _ (apc_dispatch : Bytes → Screen → Screen) where
  unfoldable pub handle : Action → Screen → Screen
  unfolding print execute csi_dispatch osc_dispatch esc_dispatch
  handle (Action.print cp) s = print cp s
  handle (Action.execute c) s = execute c s
  handle (Action.csi_dispatch ps intermediate final) s = csi_dispatch ps intermediate final s
  handle (Action.osc_dispatch command payload) s = osc_dispatch command payload s
  handle (Action.esc_dispatch intermediate final) s = esc_dispatch intermediate final s
  handle (Action.apc_dispatch payload) s = apc_dispatch payload s
  handle _ s = s

  abbrev pub handle_all : List Action → Screen → Screen
  handle_all [] s = s
  handle_all (a ∷ more) s = handle_all more (handle a s)
