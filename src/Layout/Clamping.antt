-- ===== src/Layout/Clamping.antt =====
-- What moving a divider keeps (LayoutTree::drag_divider and resize_edge of src/core/layout.cpp).
use rivt.Base.{
  ℕ, ◌≡◌, refl, Bool, false, ◌&&◌, Option, none, some, arith, Bool-cases, inl, inr, if◌then◌else◌,
  ap,
}
use rivt.Base.Int.{ℤ, pos, leb_ℤ}
use rivt.Layout.Tree.{LayoutNode, leaf, split, LayoutTree, SplitDir, Rect, subtree_contains}
use rivt.Layout.Dividers.{
  same_dir, in_child, edge_split, clamp, drag_divider, adjust_ratio, resize_edge,
}

module _ {Ratio : Type 0} where
  -- The two trees differ in their ratios at most.
  abbrev pub SameShape : LayoutNode Ratio → LayoutNode Ratio → Type 0
  SameShape (leaf g p) (leaf g' p') = (g ≡ g') × (p ≡ p')
  SameShape (split g d r a b) (split g' d' r' a' b') =
      (g ≡ g') × (d ≡ d') × SameShape a a' × SameShape b b'
  SameShape _ _ = ⊥

  same : (t : LayoutNode Ratio) → SameShape t t
  same (leaf g p) = (refl, refl)
  same (split g d r a b) = (refl, refl, same a, same b)

  module _ (low high : Ratio) (less : Ratio → Ratio → Bool) where
    abbrev pub IsClamped : Ratio → Type 0
    IsClamped r = (less r low ≡ false) × (less high r ≡ false)

    -- Every ratio of the tree is between the two limits.
    abbrev pub AllClamped : LayoutNode Ratio → Type 0
    AllClamped (leaf g p) = Unit
    AllClamped (split g d r a b) = IsClamped r × AllClamped a × AllClamped b

    -- Nothing but ratios changes, they stay within the limits, and nothing changes where the call
    -- returns false.
    abbrev pub Moved : LayoutNode Ratio → Option (LayoutNode Ratio × Bool) → Type 0
    Moved t none = Unit
    Moved t (some (t', done)) = SameShape t t' × AllClamped t' × (done ≡ false → t' ≡ t)

    in_child-Moved :
        (g : Rect) (d : SplitDir) (r : Ratio) (a b : LayoutNode Ratio)
        (oa ob own : Option (LayoutNode Ratio × Bool))
        → AllClamped (split g d r a b)
        → Moved a oa
        → Moved b ob
        → Moved (split g d r a b) own
        → Moved (split g d r a b) (in_child (split g d r) a b oa ob own)
    in_child-Moved g d r a b (some (a', done)) ob own v ma mb mo =
        ((refl, refl, ma.0, same b), (v.0, ma.1, v.2), λ e. ap (λ t. split g d r t b) (ma.2 e))
    in_child-Moved g d r a b none (some (b', done)) own v ma mb mo =
        ((refl, refl, same a, mb.0), (v.0, v.1, mb.1), λ e. ap (λ t. split g d r a t) (mb.2 e))
    in_child-Moved g d r a b none none own v ma mb mo = mo

    edge_split-Moved :
        (dir : SplitDir) (target : ℕ) (adjust : Rect → Ratio → Ratio × Bool)
        → ((g : Rect) (r : Ratio)
            → IsClamped r
            → IsClamped (adjust g r).0 × ((adjust g r).1 ≡ false → (adjust g r).0 ≡ r))
        → (t : LayoutNode Ratio) → AllClamped t
        → Moved t (edge_split dir target adjust t)
    unfolding edge_split
    edge_split-Moved dir target adjust keeps (leaf g p) v = tt
    edge_split-Moved dir target adjust keeps (split g d r a b) v =
        in_child-Moved g d r a b _ _ _ v (edge_split-Moved dir target adjust keeps a v.1)
          (edge_split-Moved dir target adjust keeps b v.2)
          (elim (Bool-cases (same_dir d dir && subtree_contains a target)) [
            | inl found ↦ rw found (
                let (ok, kept) = keeps g r v.0 in
                (
                  (refl, refl, same a, same b),
                  (ok, v.1, v.2),
                  λ e. ap (λ r'. split g d r' a b) (kept e),
                ))
            | inr other ↦ rw other tt
          ])

    abbrev pub MovedTree : LayoutTree Ratio → LayoutTree Ratio × Bool → Type 0
    MovedTree none (t', done) = (t' ≡ none) × (done ≡ false)
    MovedTree (some t) (none, done) = ⊥
    MovedTree (some t) (some t', done) = Moved t (some (t', done))

    abbrev pub AllClampedTree : LayoutTree Ratio → Type 0
    AllClampedTree none = Unit
    AllClampedTree (some t) = AllClamped t

    module _ (plus : Ratio → Ratio → Ratio) (quotient : ℤ → ℤ → Ratio) (low_ok : IsClamped low)
        (high_ok : IsClamped high) where
      clamp-IsClamped : (r : Ratio) → IsClamped (clamp low high less r)
      unfolding clamp
      clamp-IsClamped r = ground arith

      adjust_ratio-keeps :
          (horizontal : Bool) (delta : ℤ) (g : Rect) (r : Ratio)
          → IsClamped r
          → IsClamped (adjust_ratio low high less plus quotient horizontal delta g r).0
            × ((adjust_ratio low high less plus quotient horizontal delta g r).1 ≡ false
                → (adjust_ratio low high less plus quotient horizontal delta g r).0 ≡ r)
      unfolding adjust_ratio
      adjust_ratio-keeps horizontal delta g r v =
          elim (Bool-cases (leb_ℤ (if horizontal then g.w else g.h) (pos 0))) [
            | inl empty ↦ rw empty (v, λ e. refl)
            | inr room ↦ rw room (clamp-IsClamped _, λ e. absurd (cc))
          ]

      -- When the limits are in order and every ratio of a layout is within them, `resize_edge`
      -- changes nothing but ratios, leaves every ratio within the limits, and leaves the layout as it
      -- was where it returns false.
      pub resize_edge-Moved :
          (target : ℕ) (horizontal : Bool) (delta : ℤ) (t : LayoutTree Ratio)
          → AllClampedTree t
          → MovedTree t (resize_edge low high less plus quotient target horizontal delta t)
      unfolding resize_edge
      resize_edge-Moved target horizontal delta none v = (refl, refl)
      resize_edge-Moved target horizontal delta (some t) v =
          let dir = if horizontal then SplitDir.vertical else SplitDir.horizontal in
          let adjust = adjust_ratio low high less plus quotient horizontal delta in
          moved t (edge_split dir target adjust t) v
            (edge_split-Moved dir target adjust (adjust_ratio-keeps horizontal delta) t v)
        where
          moved :
              (t : LayoutNode Ratio) (o : Option (LayoutNode Ratio × Bool))
              → AllClamped t
              → Moved t o
              → MovedTree
                  (some t)
                  (elim o [ none ↦ (some t, false) | some (t', done) ↦ (some t', done) ])
          moved t none v m = (same t, v, λ e. refl)
          moved t (some (t', done)) v m = m

      -- `drag_divider`, too, changes nothing but the ratio of the divider and leaves it within the
      -- limits.
      pub drag_divider-Moved :
          (t : LayoutNode Ratio) (px py : ℤ)
          → AllClamped t
          → SameShape t (drag_divider low high less plus quotient t px py)
            × AllClamped (drag_divider low high less plus quotient t px py)
      unfolding drag_divider
      drag_divider-Moved (leaf g p) px py v = ((refl, refl), tt)
      drag_divider-Moved (split g SplitDir.vertical r a b) px py v =
          ((refl, refl, same a, same b), (clamp-IsClamped _, v.1, v.2))
      drag_divider-Moved (split g SplitDir.horizontal r a b) px py v =
          ((refl, refl, same a, same b), (clamp-IsClamped _, v.1, v.2))
