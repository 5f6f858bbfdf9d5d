-- ===== src/Layout/Dividers.antt =====
-- Moving a divider: LayoutTree::drag_divider and LayoutTree::resize_edge of src/core/layout.cpp. The
-- `float` arithmetic is a parameter: 0.05f and 0.95f, `<`, `+` and the quotient of two numbers.
use rivt.Base.{ℕ, Bool, true, false, ◌&&◌, Option, none, some, if◌then◌else◌}
use rivt.Base.Int.{ℤ, pos, ◌-ℤ◌, ltb_ℤ, leb_ℤ}
use rivt.Layout.Tree.{LayoutNode, leaf, split, LayoutTree, SplitDir, Rect, subtree_contains}

unfoldable pub same_dir : SplitDir → SplitDir → Bool
same_dir SplitDir.vertical SplitDir.vertical = true
same_dir SplitDir.horizontal SplitDir.horizontal = true
same_dir _ _ = false

module _ {Ratio : Type 0} where
  -- The first child's result, or else the second's, under their node.
  abbrev pub in_child :
      (LayoutNode Ratio → LayoutNode Ratio → LayoutNode Ratio)
      → LayoutNode Ratio
      → LayoutNode Ratio
      → Option (LayoutNode Ratio × Bool)
      → Option (LayoutNode Ratio × Bool)
      → Option (LayoutNode Ratio × Bool)
      → Option (LayoutNode Ratio × Bool)
  in_child node a b (some (a', done)) second own = some (node a' b, done)
  in_child node a b none (some (b', done)) own = some (node a b', done)
  in_child node a b none none own = own

  -- edge_split_node, and what is done to the node that it finds: the new ratio, and whether the
  -- call succeeds.
  unfoldable pub edge_split :
      SplitDir
      → ℕ
      → (Rect → Ratio → Ratio × Bool)
      → LayoutNode Ratio
      → Option (LayoutNode Ratio × Bool)
  unfolding same_dir subtree_contains
  edge_split dir target adjust (leaf g p) = none
  edge_split dir target adjust (split g d r a b) =
      let (r', done) = adjust g r in
      in_child (split g d r) a b (edge_split dir target adjust a) (edge_split dir target adjust b) (
        if same_dir d dir && subtree_contains a target then some (split g d r' a b, done) else none)

  module _ (low high : Ratio) (less : Ratio → Ratio → Bool) where
    -- `if (r < 0.05f) r = 0.05f; if (r > 0.95f) r = 0.95f;`
    unfoldable pub clamp : Ratio → Ratio
    clamp r =
        let raised = if less r low then low else r in if less high raised then high else raised

  module _ (low high : Ratio) (less : Ratio → Ratio → Bool) (plus : Ratio → Ratio → Ratio)
      (quotient : ℤ → ℤ → Ratio) where
    -- LayoutTree::drag_divider
    unfoldable pub drag_divider : LayoutNode Ratio → ℤ → ℤ → LayoutNode Ratio
    unfolding clamp
    drag_divider (leaf g p) px py = leaf g p
    drag_divider (split g SplitDir.vertical r a b) px py =
        split g SplitDir.vertical
          (clamp low high less (if ltb_ℤ (pos 0) g.w then quotient (px -ℤ g.x) g.w else r)) a b
    drag_divider (split g SplitDir.horizontal r a b) px py =
        split g SplitDir.horizontal
          (clamp low high less (if ltb_ℤ (pos 0) g.h then quotient (py -ℤ g.y) g.h else r)) a b

    unfoldable pub adjust_ratio : Bool → ℤ → Rect → Ratio → Ratio × Bool
    unfolding clamp
    adjust_ratio horizontal delta g r =
        let extent = if horizontal then g.w else g.h in
        if leb_ℤ extent (pos 0)
        then (r, false)
        else (clamp low high less (plus r (quotient delta extent)), true)

    -- LayoutTree::resize_edge: the tree after the call, and what it returns.
    unfoldable pub resize_edge : ℕ → Bool → ℤ → LayoutTree Ratio → LayoutTree Ratio × Bool
    unfolding adjust_ratio edge_split
    resize_edge target horizontal delta none = (none, false)
    resize_edge target horizontal delta (some t) =
        let dir = if horizontal then SplitDir.vertical else SplitDir.horizontal in
        elim (edge_split dir target (adjust_ratio horizontal delta) t) [
          | none ↦ (some t, false)
          | some (t', done) ↦ (some t', done)
        ]
