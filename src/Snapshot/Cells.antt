-- ===== src/Snapshot/Cells.antt =====
-- `Cell` and `Line` of src/core/types.h.
use rivt.Base.{ℕ, ◌^◌, ◌<◌, Bool, ◌&&◌, List, ◌==◌}

pub record Cell : Type 0 where
  pub codepoint : ℕ
  pub fg : ℕ
  pub bg : ℕ
  pub attrs : ℕ
  pub hyperlink_id : ℕ

pub record Line : Type 0 where
  pub cells : List Cell
  pub wrapped : Bool
  pub dirty : Bool
  pub semantic_zone : ℕ

-- 1u << 25
abbrev pub color_flag_default : ℕ
color_flag_default = 2 ^ 25

-- A cell as it is constructed: a space in the default colours.
abbrev pub blank : Cell
blank = record {
  codepoint = b' ';
  fg = color_flag_default;
  bg = color_flag_default;
  attrs = 0;
  hyperlink_id = 0;
}

-- The values that the C++ fields hold.
pub record IsCell (c : Cell) : Type 0 where
  pub codepoint_ok : c.codepoint < 2 ^ 32
  pub fg_ok : c.fg < 2 ^ 32
  pub bg_ok : c.bg < 2 ^ 32
  pub attrs_ok : c.attrs < 2 ^ 16
  pub hyperlink_ok : c.hyperlink_id < 2 ^ 16

-- The comparison that ends a run in `encode_line`, the other way round.
unfoldable pub same_cell : Cell → Cell → Bool
same_cell c d =
    d.codepoint == c.codepoint
    && d.fg == c.fg
    && d.bg == c.bg
    && d.attrs == c.attrs
    && d.hyperlink_id == c.hyperlink_id
