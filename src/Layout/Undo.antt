-- ===== src/Layout/Undo.antt =====
-- LayoutTree::remove takes back what LayoutTree::split did.
use rivt.Base.{
  ℕ, ◌≡◌, refl, Bool, true, false, List, [], ◌∷◌, ◌++◌, Option, none, some, ◌==◌, ==_iff, arith,
  Bool-cases, inl, inr,
}
use rivt.Base.Bytes.{All}
use rivt.Layout.Tree.{
  LayoutNode, leaf, split, LayoutTree, SplitDir, Rect, no_rect, is_pane, first_or_second,
  split_leaf, collapse, split_pane, remove, changed,
}
use rivt.Layout.Panes.{panes, tree_panes, Others}

All-append_parts {ℓ κ} :
    {A : Type ℓ} (P : A → Type κ) (xs ys : List A) → All P (xs ++ ys) → All P xs × All P ys
All-append_parts P [] ys h = (tt, h)
All-append_parts P (x ∷ xs) ys h = let (hx, hy) = All-append_parts P xs ys h.1 in ((h.0, hx), hy)

module _ {Ratio : Type 0} (half : Ratio) (target new : ℕ) (dir : SplitDir) where
  is_pane-Others : (t : LayoutNode Ratio) → Others new (panes t) → is_pane t new ≡ false
  unfolding is_pane
  is_pane-Others (leaf g p) h = h.0
  is_pane-Others (split g d r a b) h = refl

  collapse-Others : (t : LayoutNode Ratio) → Others new (panes t) → collapse new t ≡ none
  unfolding collapse
  collapse-Others (leaf g p) h = refl
  collapse-Others (split g d r a b) h =
      let (ha, hb) = All-append_parts (λ q. (q == new) ≡ false) (panes a) (panes b) h in
      rw (is_pane-Others a ha, is_pane-Others b hb, collapse-Others a ha, collapse-Others b hb)

  -- The tree that `split` makes is a split at its root or at one of its children's.
  abbrev Undoes : LayoutNode Ratio → Option (LayoutNode Ratio) → Type 0
  Undoes t none = Unit
  Undoes t (some t') = (collapse new t' ≡ some t) × (is_pane t' new ≡ false)

  undo_either :
      (g : Rect) (d : SplitDir) (r : Ratio) (a b : LayoutNode Ratio)
      (oa ob : Option (LayoutNode Ratio))
      → Others new (panes a)
      → Others new (panes b)
      → Undoes a oa
      → Undoes b ob
      → Undoes (split g d r a b) (first_or_second (split g d r) a b oa ob)
  unfolding collapse
  undo_either g d r a b (some a') ob ha hb ua ub = (rw (ua.1, is_pane-Others b hb, ua.0), refl)
  undo_either g d r a b none (some b') ha hb ua ub =
      (rw (is_pane-Others a ha, ub.1, collapse-Others a ha, ub.0), refl)
  undo_either g d r a b none none ha hb ua ub = tt

  collapse-split :
      (g : Rect) (p : ℕ)
      → p ≡ target
      → (p == new) ≡ false
      → collapse new (split g dir half (leaf no_rect target) (leaf no_rect new)) ≡ some (leaf g p)
  unfolding collapse
  collapse-split g p e h = ground arith

  split_leaf-Undoes :
      (t : LayoutNode Ratio) → Others new (panes t) → Undoes t (split_leaf half target new dir t)
  unfolding split_leaf
  split_leaf-Undoes (leaf g p) h = elim (Bool-cases (p == target)) [
    | inl same ↦ rw same (collapse-split g p ((==_iff p target).0 same) h.0, unfold is_pane in refl)
    | inr other ↦ rw other tt
  ]
  split_leaf-Undoes (split g d r a b) h =
      let (ha, hb) = All-append_parts (λ q. (q == new) ≡ false) (panes a) (panes b) h in
      undo_either g d r a b _ _ ha hb (split_leaf-Undoes a ha) (split_leaf-Undoes b hb)

  abbrev UndoesTree : LayoutTree Ratio → LayoutTree Ratio × Bool → Type 0
  UndoesTree t (t', true) = remove new t' ≡ (t, true)
  UndoesTree t (t', false) = Unit

  changed-UndoesTree :
      (t : LayoutNode Ratio) (o : Option (LayoutNode Ratio))
      → Undoes t o
      → UndoesTree (some t) (changed o t)
  unfolding remove
  changed-UndoesTree t none h = tt
  changed-UndoesTree t (some t') h = rw (h.1, h.0)

  split_pane-UndoesTree :
      (t : LayoutTree Ratio)
      → Others new (tree_panes t)
      → UndoesTree t (split_pane half target new dir t)
  unfolding split_pane
  split_pane-UndoesTree none h = tt
  split_pane-UndoesTree (some t) h =
      changed-UndoesTree t (split_leaf half target new dir t) (split_leaf-Undoes t h)

  undone :
      (t : LayoutTree Ratio) (q : LayoutTree Ratio × Bool)
      → UndoesTree t q
      → q.1 ≡ true
      → remove new q.0 ≡ (t, true)
  undone t (t', true) u e = u
  undone t (t', false) u e = absurd (cc)

  -- Splitting a pane and removing the new one, which was not in the layout before, gives the very
  -- same tree: shape, order, ratios and geometry.
  pub remove-split_pane :
      (t : LayoutTree Ratio)
      → Others new (tree_panes t)
      → (split_pane half target new dir t).1 ≡ true
      → remove new (split_pane half target new dir t).0 ≡ (t, true)
  remove-split_pane t h e = undone t _ (split_pane-UndoesTree t h) e
