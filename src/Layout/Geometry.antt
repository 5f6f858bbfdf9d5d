-- ===== src/Layout/Geometry.antt =====
-- LayoutTree::compute_layout and compute_node, and what reads the geometry that they leave:
-- divider_at, pane_at, and the moves of a divider (src/core/layout.cpp). The `float` arithmetic is a
-- parameter of what uses it. An `int` is an integer without a bound.
use rivt.Base.{ℕ, ◌/◌, Bool, ◌&&◌, List, [], ◌∷◌, ◌++◌, Option, none, some, suc, if◌then◌else◌}
use rivt.Base.Int.{ℤ, pos, negsuc, pos_part, ◌+ℤ◌, ◌-ℤ◌, ◌*ℤ◌, ltb_ℤ, leb_ℤ}
use rivt.Layout.Tree.{LayoutNode, leaf, split, LayoutTree, SplitDir, Rect}

-- `a / d` for a positive `d`: C++ cuts towards 0.
unfoldable pub div_ℤ : ℤ → ℤ → ℤ
div_ℤ (pos n) d = pos (n / pos_part d)
div_ℤ (negsuc n) d = pos 0 -ℤ pos (suc n / pos_part d)

-- What compute_node writes to a pane, and the size in cells that it gives to `Pane::resize`, which is
-- called when the pane has another.
pub record Placed : Type 0 where
  pub pane : ℕ
  pub rect : Rect
  pub cols : ℤ
  pub rows : ℤ

-- The size in cells of `w` pixels, one at least.
unfoldable pub cells : ℤ → ℤ → ℤ
unfolding div_ℤ
cells w cell =
    let n = if ltb_ℤ (pos 0) cell then div_ℤ w cell else pos 1 in
    if ltb_ℤ n (pos 1) then pos 1 else n

module _ {Ratio : Type 0} (scale : ℤ → Ratio → ℤ) (border cell_w cell_h : ℤ) where
  -- The size of the first child along the axis of a split: `(int)(w * ratio) - border_width / 2`,
  -- snapped to cells.
  unfoldable pub first_size : ℤ → Ratio → ℤ → ℤ
  unfolding div_ℤ
  first_size w ratio cell =
      let first = scale w ratio -ℤ div_ℤ border (pos 2) in
      if ltb_ℤ (pos 0) cell then div_ℤ first cell *ℤ cell else first

  abbrev pub first_rect : SplitDir → Ratio → Rect → Rect
  first_rect SplitDir.vertical ratio g = record g { w = first_size g.w ratio cell_w }
  first_rect SplitDir.horizontal ratio g = record g { h = first_size g.h ratio cell_h }

  abbrev pub second_rect : SplitDir → Ratio → Rect → Rect
  second_rect SplitDir.vertical ratio g =
      let first_w = first_size g.w ratio cell_w in
      record g { x = g.x +ℤ first_w +ℤ border; w = g.w -ℤ first_w -ℤ border }
  second_rect SplitDir.horizontal ratio g =
      let first_h = first_size g.h ratio cell_h in
      record g { y = g.y +ℤ first_h +ℤ border; h = g.h -ℤ first_h -ℤ border }

  -- The tree with its geometry, and the panes placed, in order.
  unfoldable pub compute_node : LayoutNode Ratio → Rect → LayoutNode Ratio × List Placed
  compute_node (leaf _ p) g = (
    leaf g p,
    record { pane = p; rect = g; cols = cells g.w cell_w; rows = cells g.h cell_h } ∷ [],
  )
  compute_node (split _ d r a b) g =
      let (a', placed_a) = compute_node a (first_rect d r g) in
      let (b', placed_b) = compute_node b (second_rect d r g) in
      (split g d r a' b', placed_a ++ placed_b)

  unfoldable pub compute_layout : LayoutTree Ratio → Rect → LayoutTree Ratio × List Placed
  unfolding compute_node
  compute_layout none g = (none, [])
  compute_layout (some t) g = let (t', placed) = compute_node t g in (some t', placed)

-- Is the point in the rectangle?
unfoldable pub holds : Rect → ℤ → ℤ → Bool
holds r px py = leb_ℤ r.x px && ltb_ℤ px (r.x +ℤ r.w) && leb_ℤ r.y py && ltb_ℤ py (r.y +ℤ r.h)

-- LayoutTree::pane_at, on the panes as compute_layout placed them.
unfoldable pub pane_at : List Placed → ℤ → ℤ → Option ℕ
pane_at [] px py = none
pane_at (p ∷ ps) px py = if holds p.rect px py then some p.pane else pane_at ps px py
