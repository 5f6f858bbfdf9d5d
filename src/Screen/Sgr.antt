-- ===== src/Screen/Sgr.antt =====
-- ScreenBuffer::handle_sgr (src/terminal/screen_buffer.cpp) and the colours of src/core/types.h. A
-- parameter's value is never negative behind `CsiParam::get`, so it is a number.
use rivt.Base.{
  ℕ, zero, suc, ◌+◌, ◌-◌, ◌*◌, ◌^◌, ◌%◌, Bool, false, ◌&&◌, List, [], ◌∷◌, length, get_or, leb, ltb,
  ◌==◌, if◌then◌else◌, bit_or, bit_and,
}
use rivt.Base.Int.{ℤ, pos, pos_part}
use rivt.Snapshot.Cells.{color_flag_default}
use rivt.Vt.Params.{CsiParam, param_get}
use rivt.Screen.Fields.{Pen, plain_pen}

abbrev pub color_flag_truecolor : ℕ
color_flag_truecolor = 2 ^ 24

-- The arguments are cut to eight bits, as the parameters' type does.
unfoldable pub color_rgb : ℕ → ℕ → ℕ → ℕ
color_rgb r g b = color_flag_truecolor + (r % 256) * 2 ^ 16 + (g % 256) * 2 ^ 8 + b % 256

unfoldable pub color_palette : ℕ → ℕ
color_palette idx = idx % 256

-- `params.get(i, 0)` of the parameter at hand, and of one behind it.
unfoldable pub value : CsiParam → ℕ
unfolding param_get
value p = pos_part (param_get p (pos 0))

abbrev pub no_param : CsiParam
no_param = record { value = ℤ.negsuc 0; sub = [] }

unfoldable pub value_at : List CsiParam → ℕ → ℕ
unfolding value
value_at ps i = value (get_or ps i no_param)

-- `std::max(0, sub[i])`
abbrev pub sub_at : List ℤ → ℕ → ℕ
sub_at sub i = pos_part (get_or sub i (pos 0))

abbrev pub is_value : ℤ → ℕ → Bool
is_value (ℤ.pos n) m = n == m
is_value (ℤ.negsuc n) m = false

-- 38:2::R:G:B, 38:2:R:G:B and 38:5:N, on the sub-parameters.
unfoldable pub colon_color : List ℤ → ℕ → ℕ
unfolding color_rgb color_palette
colon_color sub old =
    let first = if leb 5 (length sub) then 2 else 1 in
    let kind = get_or sub 0 (pos 0) in
    if is_value kind 2 && leb 4 (length sub)
    then color_rgb (sub_at sub first) (sub_at sub (first + 1)) (sub_at sub (first + 2))
    else if is_value kind 5 && leb 2 (length sub)
    then color_palette (sub_at sub 1)
    else old

-- 38;5;N and 38;2;R;G;B, on the parameters behind the 38: the colour, and how many are consumed.
unfoldable pub semicolon_color : List CsiParam → ℕ → ℕ × ℕ
unfolding value_at color_rgb color_palette
semicolon_color rest old =
    let mode = value_at rest 0 in
    if mode == 5 && leb 2 (length rest)
    then (color_palette (value_at rest 1), 2)
    else if mode == 2 && leb 4 (length rest)
    then (color_rgb (value_at rest 1) (value_at rest 2) (value_at rest 3), 4)
    else (old, 0)

unfoldable pub extended_color : CsiParam → List CsiParam → ℕ → ℕ × ℕ
unfolding colon_color semicolon_color
extended_color p rest old = elim (p.sub) [
  | [] ↦ semicolon_color rest old
  | s ∷ sub ↦ (colon_color (s ∷ sub) old, 0)
]

-- `m_cur_attrs |= bits` and `m_cur_attrs &= ~bits`
abbrev pub set_attrs : ℕ → Pen → Pen
set_attrs bits pen = record pen { attrs = bit_or pen.attrs bits }

abbrev pub clear_attrs : ℕ → Pen → Pen
clear_attrs bits pen = record pen { attrs = bit_and pen.attrs (2 ^ 16 - 1 - bits) }

-- ATTR_UNDERLINE | ATTR_UNDERLINE_DOUBLE | ATTR_UNDERLINE_CURLY
abbrev pub underline_mask : ℕ
underline_mask = 56

unfoldable pub underline_bits : List ℤ → ℕ
underline_bits [] = 8
underline_bits (style ∷ sub) =
    if is_value style 0
    then 0
    else if is_value style 2
    then 16
    else if is_value style 3
    then 32
    else 8

abbrev pub in_span : ℕ → ℕ → ℕ → Bool
in_span lo hi v = leb lo v && leb v hi

-- The attributes: the codes below 30.
unfoldable pub sgr_attrs : ℕ → List ℤ → Pen → Pen
unfolding underline_bits
sgr_attrs v sub pen =
    if v == 0
    then plain_pen
    else if v == 1
    then set_attrs 1 pen
    else if v == 2
    then set_attrs 2 pen
    else if v == 3
    then set_attrs 4 pen
    else if v == 4
    then set_attrs (underline_bits sub) (clear_attrs underline_mask pen)
    else if v == 7
    then set_attrs 128 pen
    else if v == 8
    then set_attrs 256 pen
    else if v == 9
    then set_attrs 64 pen
    else if v == 21
    then clear_attrs 1 pen
    else if v == 22
    then clear_attrs 3 pen
    else if v == 23
    then clear_attrs 4 pen
    else if v == 24
    then clear_attrs underline_mask pen
    else if v == 27
    then clear_attrs 128 pen
    else if v == 28
    then clear_attrs 256 pen
    else if v == 29
    then clear_attrs 64 pen
    else pen

-- The colours: the codes from 30 on. The number says how many parameters are consumed.
unfoldable pub sgr_color : ℕ → CsiParam → List CsiParam → Pen → Pen × ℕ
unfolding color_palette extended_color
sgr_color v p rest pen =
    let (fg, used_fg) = extended_color p rest pen.fg in
    let (bg, used_bg) = extended_color p rest pen.bg in
    if in_span 30 37 v
    then (record pen { fg = color_palette (v - 30) }, 0)
    else if v == 38
    then (record pen { fg = fg }, used_fg)
    else if v == 39
    then (record pen { fg = color_flag_default }, 0)
    else if in_span 40 47 v
    then (record pen { bg = color_palette (v - 40) }, 0)
    else if v == 48
    then (record pen { bg = bg }, used_bg)
    else if v == 49
    then (record pen { bg = color_flag_default }, 0)
    else if v == 58
    then (pen, used_fg)
    else if in_span 90 97 v
    then (record pen { fg = color_palette (v - 90 + 8) }, 0)
    else if in_span 100 107 v
    then (record pen { bg = color_palette (v - 100 + 8) }, 0)
    else (pen, 0)

unfoldable pub sgr_param : CsiParam → List CsiParam → Pen → Pen × ℕ
unfolding value sgr_attrs sgr_color
sgr_param p rest pen =
    let v = value p in if ltb v 30 then (sgr_attrs v p.sub pen, 0) else sgr_color v p rest pen

-- The loop; `skip` parameters were consumed by the one before.
unfoldable pub sgr_from : ℕ → List CsiParam → Pen → Pen
unfolding sgr_param
sgr_from skip [] pen = pen
sgr_from (suc skip) (p ∷ ps) pen = sgr_from skip ps pen
sgr_from zero (p ∷ ps) pen = let (pen', used) = sgr_param p ps pen in sgr_from used ps pen'

unfoldable pub handle_sgr : List CsiParam → Pen → Pen
unfolding sgr_from
handle_sgr [] pen = plain_pen
handle_sgr (p ∷ ps) pen = sgr_from 0 (p ∷ ps) pen
