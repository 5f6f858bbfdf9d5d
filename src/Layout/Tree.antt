-- ===== src/Layout/Tree.antt =====
-- `LayoutNode` and the operations of `LayoutTree` that change or search the tree. A pane is the
-- number that stands for its address. The code finds a node by its address and then writes to it;
-- here the search returns the tree with that node rewritten, or `none` where it finds no node.
use rivt.Base.{
  ℕ, Bool, true, false, ◌||◌, List, [], ◌∷◌, ◌++◌, Option, none, some, ◌==◌, if◌then◌else◌,
}
use rivt.Base.Int.{ℤ, pos}

pub data SplitDir : Type 0 where
  horizontal vertical : SplitDir

pub record Rect : Type 0 where
  pub x : ℤ
  pub y : ℤ
  pub w : ℤ
  pub h : ℤ

-- The geometry of a node that no `compute_layout` has reached.
abbrev pub no_rect : Rect
no_rect = record { x = pos 0; y = pos 0; w = pos 0; h = pos 0 }

-- A leaf is a node with a pane; any other has a split and two children.
pub data LayoutNode (Ratio : Type 0) : Type 0 where
  leaf : Rect → ℕ → LayoutNode Ratio
  split : Rect → SplitDir → Ratio → LayoutNode Ratio → LayoutNode Ratio → LayoutNode Ratio

-- `m_root`
abbrev pub LayoutTree : Type 0 → Type 0
LayoutTree Ratio = Option (LayoutNode Ratio)

module _ {Ratio : Type 0} where
  abbrev pub node_rect : LayoutNode Ratio → Rect
  node_rect (leaf g p) = g
  node_rect (split g d r a b) = g

  -- `parent->pane = sibling->pane; …`: everything but the geometry is taken over.
  abbrev pub with_rect : Rect → LayoutNode Ratio → LayoutNode Ratio
  with_rect g (leaf _ p) = leaf g p
  with_rect g (split _ d r a b) = split g d r a b

  -- `is_leaf() && pane == target`
  unfoldable pub is_pane : LayoutNode Ratio → ℕ → Bool
  is_pane (leaf g p) target = p == target
  is_pane (split g d r a b) target = false

  -- The search in the first child, and in the second where that finds nothing.
  abbrev pub first_or_second :
      (LayoutNode Ratio → LayoutNode Ratio → LayoutNode Ratio)
      → LayoutNode Ratio
      → LayoutNode Ratio
      → Option (LayoutNode Ratio)
      → Option (LayoutNode Ratio)
      → Option (LayoutNode Ratio)
  first_or_second node a b (some a') second = some (node a' b)
  first_or_second node a b none (some b') = some (node a b')
  first_or_second node a b none none = none

  -- find_leaf, and the rewriting of the leaf that it finds into a split.
  unfoldable pub split_leaf :
      Ratio → ℕ → ℕ → SplitDir → LayoutNode Ratio → Option (LayoutNode Ratio)
  split_leaf half target new_pane dir (leaf g p) =
      if p == target
      then some (split g dir half (leaf no_rect target) (leaf no_rect new_pane))
      else none
  split_leaf half target new_pane dir (split g d r a b) =
      first_or_second (split g d r) a b (split_leaf half target new_pane dir a)
        (split_leaf half target new_pane dir b)

  -- find_parent, and the collapse of the node that it finds into the sibling of the target.
  unfoldable pub collapse : ℕ → LayoutNode Ratio → Option (LayoutNode Ratio)
  unfolding is_pane
  collapse target (leaf g p) = none
  collapse target (split g d r a b) =
      let deeper = first_or_second (split g d r) a b (collapse target a) (collapse target b) in
      if is_pane a target
      then some (with_rect g b)
      else if is_pane b target
      then some (with_rect g a)
      else deeper

  -- LayoutTree::init
  unfoldable pub init : ℕ → LayoutTree Ratio
  init pane = some (leaf no_rect pane)

  -- The tree after the call, and what it returns.
  abbrev pub changed : Option (LayoutNode Ratio) → LayoutNode Ratio → LayoutTree Ratio × Bool
  changed (some t) old = (some t, true)
  changed none old = (some old, false)

  -- LayoutTree::split
  unfoldable pub split_pane : Ratio → ℕ → ℕ → SplitDir → LayoutTree Ratio → LayoutTree Ratio × Bool
  unfolding split_leaf
  split_pane half target new_pane dir none = (none, false)
  split_pane half target new_pane dir (some t) = changed (split_leaf half target new_pane dir t) t

  -- LayoutTree::remove
  unfoldable pub remove : ℕ → LayoutTree Ratio → LayoutTree Ratio × Bool
  unfolding collapse
  remove target none = (none, false)
  remove target (some t) = if is_pane t target then (none, true) else changed (collapse target t) t

  -- LayoutTree::collect_node and LayoutTree::collect_panes
  unfoldable pub collect_node : LayoutNode Ratio → List ℕ → List ℕ
  collect_node (leaf g p) out = out ++ (p ∷ [])
  collect_node (split g d r a b) out = collect_node b (collect_node a out)

  unfoldable pub collect_panes : LayoutTree Ratio → List ℕ → List ℕ
  unfolding collect_node
  collect_panes none out = out
  collect_panes (some t) out = collect_node t out

  unfoldable pub subtree_contains : LayoutNode Ratio → ℕ → Bool
  subtree_contains (leaf g p) t = p == t
  subtree_contains (split g d r a b) t = subtree_contains a t || subtree_contains b t
