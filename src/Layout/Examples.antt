-- ===== src/Layout/Examples.antt =====
-- A layout of panes 1 to 4 through the operations of src/core/layout.cpp. Its ratios are percentages.
use rivt.Base.{
  ◌⊎◌, ◌+◌, ltb, false, ◌*◌, ◌/◌, List, map, ℕ, ◌≡◌, refl, true, [], ◌∷◌, none, some, arith,
}
use rivt.Base.Bytes.{All}
use rivt.Layout.Tree.{
  Rect, node_rect, LayoutNode, leaf, split, SplitDir, no_rect, is_pane, split_leaf, collapse, init,
  split_pane, remove, collect_node, collect_panes, subtree_contains,
}
use rivt.Layout.Panes.{panes, SplitSpec, RemoveSpec, split_pane-SplitSpec, remove-RemoveSpec}
use rivt.Base.Int.{ℤ, pos, pos_part, ◌+ℤ◌, ◌-ℤ◌, ◌*ℤ◌}
use rivt.Layout.Geometry.{Placed, cells, div_ℤ, first_size, compute_node, pane_at, holds}
use rivt.Layout.Tiling.{Tiled, IsPlaced, compute_node-Tiled, compute_node-panes}
use rivt.Layout.Dividers.{same_dir, edge_split, clamp, drag_divider, adjust_ratio, resize_edge}
use rivt.Layout.Clamping.{AllClamped, MovedTree, resize_edge-Moved}
use rivt.Layout.Navigation.{
  NavDir, FoundAt, NoneNearer, collect_centers, find_center, towards, distance, is_candidate,
  nearest, int_max, navigate, navigate_lem,
}
use rivt.Layout.Undo.{remove-split_pane}

abbrev three : LayoutNode ℕ
three =
    split no_rect SplitDir.vertical 50 (leaf no_rect 1)
      (split no_rect SplitDir.horizontal 30 (leaf no_rect 2) (leaf no_rect 3))

split_test :
    collect_panes (split_pane 50 2 4 SplitDir.vertical (some three)).0 [] ≡ 1 ∷ 2 ∷ 4 ∷ 3 ∷ []
unfolding collect_panes collect_node split_pane split_leaf
split_test = refl

remove_test :
    remove 1 (some three)
    ≡ (some (split no_rect SplitDir.horizontal 30 (leaf no_rect 2) (leaf no_rect 3)), true)
unfolding remove collapse is_pane
remove_test = refl

last_test : remove 1 (init {Ratio = ℕ} 1) ≡ (none, true)
unfolding remove collapse is_pane init
last_test = refl

contains_test : subtree_contains three 3 ≡ true
unfolding subtree_contains
contains_test = refl

split_done : (split_pane 50 2 4 SplitDir.vertical (some three)).1 ≡ true
unfolding split_pane split_leaf
split_done = refl

split_pane-SplitSpec_example :
    SplitSpec 50 2 4 SplitDir.vertical
      (some three)
      (split_pane 50 2 4 SplitDir.vertical (some three))
split_pane-SplitSpec_example = split_pane-SplitSpec 50 2 4 SplitDir.vertical (some three)

remove-RemoveSpec_example : RemoveSpec 3 (some three) (remove 3 (some three))
remove-RemoveSpec_example = remove-RemoveSpec 3 (some three)

remove-split_pane_example :
    remove 4 (split_pane 50 2 4 SplitDir.vertical (some three)).0 ≡ (some three, true)
remove-split_pane_example =
    remove-split_pane 50 2 4 SplitDir.vertical (some three) (ground arith) split_done

-- A ratio in percent, of a length that is not negative.
abbrev percent : ℤ → ℕ → ℤ
percent w r = pos (pos_part w * r / 100)

abbrev window : Rect
window = record { x = pos 0; y = pos 0; w = pos 101; h = pos 60 }

abbrev placed : LayoutNode ℕ × List Placed
placed = compute_node percent (pos 1) (pos 8) (pos 16) three window

placed_test :
    placed.1
    ≡ record { pane = 1; rect = record window { w = pos 48 }; cols = pos 6; rows = pos 3 }
      ∷ record {
        pane = 2;
        rect = record { x = pos 49; y = pos 0; w = pos 52; h = pos 16 };
        cols = pos 6;
        rows = pos 1;
      }
      ∷ record {
        pane = 3;
        rect = record { x = pos 49; y = pos 17; w = pos 52; h = pos 43 };
        cols = pos 6;
        rows = pos 2;
      }
      ∷ []
unfolding compute_node first_size cells div_ℤ ◌+ℤ◌ ◌-ℤ◌ ◌*ℤ◌
placed_test = refl

-- The column of the divider belongs to no pane.
pane_at_test :
    (pane_at placed.1 (pos 60) (pos 20) ≡ some 3) × (pane_at placed.1 (pos 48) (pos 20) ≡ none)
unfolding pane_at holds compute_node first_size cells div_ℤ ◌+ℤ◌ ◌-ℤ◌ ◌*ℤ◌
pane_at_test = (refl, refl)

compute_node-Tiled_example : (node_rect placed.0 ≡ window) × Tiled (pos 1) placed.0
compute_node-Tiled_example = compute_node-Tiled percent (pos 1) (pos 8) (pos 16) three window

compute_node-panes_example :
    (map (λ (p : Placed). p.pane) placed.1 ≡ 1 ∷ 2 ∷ 3 ∷ [])
    × (panes placed.0 ≡ 1 ∷ 2 ∷ 3 ∷ [])
    × All IsPlaced placed.1
compute_node-panes_example = compute_node-panes percent (pos 1) (pos 8) (pos 16) three window

abbrev percent_of : ℤ → ℤ → ℕ
percent_of a b = pos_part a * 100 / pos_part b

resize_test :
    resize_edge 5 95 ltb ◌+◌ percent_of 1 true (pos 20) (some placed.0)
    ≡ (some (drag_divider 5 95 ltb ◌+◌ percent_of placed.0 (pos 70) (pos 0)), true)
unfolding resize_edge edge_split same_dir subtree_contains adjust_ratio clamp drag_divider
    compute_node first_size cells div_ℤ ◌+ℤ◌ ◌-ℤ◌ ◌*ℤ◌
resize_test = refl

-- Pane 3 stands at the right edge.
resize_refused : (resize_edge 5 95 ltb ◌+◌ percent_of 3 true (pos 20) (some three)).1 ≡ false
unfolding resize_edge edge_split same_dir subtree_contains adjust_ratio clamp
resize_refused = refl

three-AllClamped : AllClamped 5 95 ltb three
three-AllClamped = ((refl, refl), tt, ((refl, refl), tt, tt))

resize_edge-Moved_example :
    MovedTree 5 95 ltb
      (some three)
      (resize_edge 5 95 ltb ◌+◌ percent_of 1 true (pos 20) (some three))
resize_edge-Moved_example =
    resize_edge-Moved 5 95 ltb ◌+◌ percent_of (refl, refl) (refl, refl) 1 true (pos 20) (some three)
      three-AllClamped

navigate_test : navigate 3 NavDir.go_up placed.1 ≡ 2
unfolding navigate nearest is_candidate towards distance collect_centers find_center compute_node
    first_size cells div_ℤ ◌+ℤ◌ ◌-ℤ◌ ◌*ℤ◌
navigate_test = refl

navigate_lem_example :
    (d : ℤ) × (((navigate 1 NavDir.go_right placed.1 ≡ 1) × (d ≡ int_max))
      ⊎ FoundAt 1 NavDir.go_right
          (find_center 1 (collect_centers placed.1))
          (navigate 1 NavDir.go_right placed.1)
          d
          (collect_centers placed.1))
    × NoneNearer 1 NavDir.go_right
        (find_center 1 (collect_centers placed.1))
        d
        (collect_centers placed.1)
navigate_lem_example = navigate_lem 1 NavDir.go_right placed.1
