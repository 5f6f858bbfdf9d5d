-- ===== src/Layout/Tiling.antt =====
-- The geometry that LayoutTree::compute_layout of src/core/layout.cpp leaves.
use rivt.Base.{◌≡◌, refl, List, map, arith}
use rivt.Base.Bytes.{All, All-append}
use rivt.Base.Int.{ℤ, pos, ◌+ℤ◌, ◌-ℤ◌, ◌≤ℤ◌, +ℤ_parts, -ℤ_parts, eq_of_parts}
use mathlib.Core.List.{map-append}
use rivt.Layout.Tree.{LayoutNode, leaf, split, SplitDir, Rect, node_rect}
use rivt.Layout.Panes.{panes}
use rivt.Layout.Geometry.{Placed, cells, first_rect, second_rect, compute_node}

-- Two parts of a length with the divider between them.
parts_sum : (w a border : ℤ) → a +ℤ border +ℤ (w -ℤ a -ℤ border) ≡ w
parts_sum w a border = eq_of_parts _ _ (
    omega (
      arith,
      +ℤ_parts (a +ℤ border) (w -ℤ a -ℤ border),
      +ℤ_parts a border,
      -ℤ_parts (w -ℤ a) border,
      -ℤ_parts w a,
    ))

-- The two rectangles and a divider of the border's width between them make up `g`.
abbrev pub Halves : ℤ → SplitDir → Rect → Rect → Rect → Type 0
Halves border SplitDir.vertical g a b =
    ((a.x ≡ g.x) × (b.x ≡ a.x +ℤ a.w +ℤ border) × (a.w +ℤ border +ℤ b.w ≡ g.w))
    × ((a.y ≡ g.y) × (b.y ≡ g.y) × (a.h ≡ g.h) × (b.h ≡ g.h))
Halves border SplitDir.horizontal g a b =
    ((a.y ≡ g.y) × (b.y ≡ a.y +ℤ a.h +ℤ border) × (a.h +ℤ border +ℤ b.h ≡ g.h))
    × ((a.x ≡ g.x) × (b.x ≡ g.x) × (a.w ≡ g.w) × (b.w ≡ g.w))

-- It is so at every split of the tree.
module _ {Ratio : Type 0} where
  abbrev pub Tiled : ℤ → LayoutNode Ratio → Type 0
  Tiled border (leaf g p) = Unit
  Tiled border (split g d r a b) =
      Halves border d g (node_rect a) (node_rect b) × (Tiled border a × Tiled border b)

-- At least one row and one column.
abbrev pub IsPlaced : Placed → Type 0
IsPlaced p = (pos 1 ≤ℤ p.cols) × (pos 1 ≤ℤ p.rows)

cells_positive : (w cell : ℤ) → pos 1 ≤ℤ cells w cell
unfolding cells
cells_positive w cell = ground arith

module _ {Ratio : Type 0} (scale : ℤ → Ratio → ℤ) (border cell_w cell_h : ℤ) where
  abbrev compute : LayoutNode Ratio → Rect → LayoutNode Ratio × List Placed
  compute = compute_node scale border cell_w cell_h

  rects-Halves :
      (d : SplitDir) (r : Ratio) (g : Rect)
      → Halves border d g
          (first_rect scale border cell_w cell_h d r g)
          (second_rect scale border cell_w cell_h d r g)
  rects-Halves SplitDir.vertical r g =
      ((refl, refl, parts_sum g.w _ border), (refl, refl, refl, refl))
  rects-Halves SplitDir.horizontal r g =
      ((refl, refl, parts_sum g.h _ border), (refl, refl, refl, refl))

  node_rect-compute : (t : LayoutNode Ratio) (g : Rect) → node_rect (compute t g).0 ≡ g
  unfolding compute_node
  node_rect-compute (leaf _ p) g = refl
  node_rect-compute (split _ d r a b) g = refl

  -- The root has the rectangle that was given, and at every split, at any depth, the two children and
  -- the divider between them make up the node exactly, whatever the ratios, the border and the cells,
  -- also where there is too little room.
  pub compute_node-Tiled :
      (t : LayoutNode Ratio) (g : Rect)
      → (node_rect (compute t g).0 ≡ g) × Tiled border (compute t g).0
  unfolding compute_node
  compute_node-Tiled (leaf _ p) g = (refl, tt)
  compute_node-Tiled (split _ d r a b) g =
      let ha = compute_node-Tiled a (first_rect scale border cell_w cell_h d r g) in
      let hb = compute_node-Tiled b (second_rect scale border cell_w cell_h d r g) in
      (refl, (rw (ha.0, hb.0) (rects-Halves d r g), (ha.1, hb.1)))

  -- Every pane of the layout is placed, once for each leaf and from left to right, with at least one
  -- row and one column; the panes of the tree stay what they were.
  pub compute_node-panes :
      (t : LayoutNode Ratio) (g : Rect)
      → (map (λ (p : Placed). p.pane) (compute t g).1 ≡ panes t)
        × (panes (compute t g).0 ≡ panes t)
        × All IsPlaced (compute t g).1
  unfolding compute_node
  compute_node-panes (leaf _ p) g =
      (refl, refl, ((cells_positive g.w cell_w, cells_positive g.h cell_h), tt))
  compute_node-panes (split _ d r a b) g =
      let ha = compute_node-panes a (first_rect scale border cell_w cell_h d r g) in
      let hb = compute_node-panes b (second_rect scale border cell_w cell_h d r g) in
      (rw (map-append, ha.0, hb.0), rw (ha.1, hb.1), All-append IsPlaced _ _ ha.2 hb.2)
