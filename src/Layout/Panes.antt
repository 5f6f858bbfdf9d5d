-- ===== src/Layout/Panes.antt =====
-- Which panes a layout holds, and in which order, through LayoutTree::split and LayoutTree::remove.
use rivt.Base.{
  ℕ, ◌≡◌, refl, Bool, true, false, List, [], ◌∷◌, ◌++◌, append_assoc, append-nil, Option, none,
  some, ◌==◌, ==_iff, ◌∙◌, ap, sym, Bool-cases, inl, inr, ◌⊎◌,
}
use rivt.Base.Bytes.{All, All-append}
use rivt.Layout.Tree.{
  LayoutNode, leaf, split, LayoutTree, SplitDir, Rect, with_rect, is_pane, first_or_second,
  split_leaf, collapse, split_pane, remove, collect_node, changed,
}

module _ {Ratio : Type 0} where
  -- The panes of a tree, from the left to the right.
  abbrev pub panes : LayoutNode Ratio → List ℕ
  panes (leaf g p) = p ∷ []
  panes (split g d r a b) = panes a ++ panes b

  -- `collect_node` lists the panes of a tree, from the left to the right, behind what the list holds
  -- already.
  pub collect_node-panes :
      (t : LayoutNode Ratio) (out : List ℕ) → collect_node t out ≡ out ++ panes t
  unfolding collect_node
  collect_node-panes (leaf g p) out = refl
  collect_node-panes (split g d r a b) out =
      collect_node-panes b (collect_node a out)
      ∙ rw (collect_node-panes a out) (append_assoc out (panes a) (panes b))

  panes-with_rect : (g : Rect) (t : LayoutNode Ratio) → panes (with_rect g t) ≡ panes t
  panes-with_rect g (leaf _ p) = refl
  panes-with_rect g (split _ d r a b) = refl

abbrev pub Others : ℕ → List ℕ → Type 0
Others target = All (λ q. (q == target) ≡ false)

-- `new` stands in the list directly behind the first `target`.
pub record Inserted (target new : ℕ) (before after : List ℕ) : Type 0 where
  pub front : List ℕ
  pub back : List ℕ
  pub was : before ≡ front ++ (target ∷ back)
  pub is : after ≡ front ++ (target ∷ new ∷ back)
  pub first : Others target front

-- One `target` was taken out of the list.
pub record TakenOut (target : ℕ) (before after : List ℕ) : Type 0 where
  pub front : List ℕ
  pub back : List ℕ
  pub was : before ≡ front ++ (target ∷ back)
  pub is : after ≡ front ++ back

module _ {Ratio : Type 0} (half : Ratio) (target new : ℕ) (dir : SplitDir) where
  abbrev SplitResult : LayoutNode Ratio → Option (LayoutNode Ratio) → Type 0
  SplitResult t none = Others target (panes t)
  SplitResult t (some t') = Inserted target new (panes t) (panes t')

  split_either :
      (g : Rect) (d : SplitDir) (r : Ratio) (a b : LayoutNode Ratio)
      (oa ob : Option (LayoutNode Ratio))
      → SplitResult a oa
      → SplitResult b ob
      → SplitResult (split g d r a b) (first_or_second (split g d r) a b oa ob)
  split_either g d r a b (some a') ob ra rb = record {
    front = ra.front;
    back = ra.back ++ panes b;
    was = rw (ra.was) (append_assoc ra.front (target ∷ ra.back) (panes b));
    is = rw (ra.is) (append_assoc ra.front (target ∷ new ∷ ra.back) (panes b));
    first = ra.first;
  }
  split_either g d r a b none (some b') ra rb = record {
    front = panes a ++ rb.front;
    back = rb.back;
    was = rw (rb.was) (sym (append_assoc (panes a) rb.front (target ∷ rb.back)));
    is = rw (rb.is) (sym (append_assoc (panes a) rb.front (target ∷ new ∷ rb.back)));
    first = All-append _ (panes a) rb.front ra rb.first;
  }
  split_either g d r a b none none ra rb = All-append _ (panes a) (panes b) ra rb

  split_leaf-SplitResult : (t : LayoutNode Ratio) → SplitResult t (split_leaf half target new dir t)
  unfolding split_leaf
  split_leaf-SplitResult (leaf g p) = elim (Bool-cases (p == target)) [
    | inl same ↦ rw same (record {
      front = [];
      back = [];
      was = ap (λ q. q ∷ []) ((==_iff p target).0 same);
      is = refl;
      first = tt;
    })
    | inr other ↦ rw other (other, tt)
  ]
  split_leaf-SplitResult (split g d r a b) =
      split_either g d r a b _ _ (split_leaf-SplitResult a) (split_leaf-SplitResult b)

module _ {Ratio : Type 0} where
  abbrev pub tree_panes : LayoutTree Ratio → List ℕ
  tree_panes none = []
  tree_panes (some t) = panes t

module _ {Ratio : Type 0} (half : Ratio) (target new : ℕ) (dir : SplitDir) where
  abbrev pub SplitSpec : LayoutTree Ratio → LayoutTree Ratio × Bool → Type 0
  SplitSpec t (t', true) = Inserted target new (tree_panes t) (tree_panes t')
  SplitSpec t (t', false) = (t' ≡ t) × Others target (tree_panes t)

  changed-SplitSpec :
      (t : LayoutNode Ratio) (o : Option (LayoutNode Ratio))
      → SplitResult half target new dir t o
      → SplitSpec (some t) (changed o t)
  changed-SplitSpec t none h = (refl, h)
  changed-SplitSpec t (some t') h = h

  -- `split` succeeds exactly when the target is in the layout; the new pane then stands directly
  -- behind the first occurrence of the target and no other pane moves. Where it fails the layout is
  -- as it was.
  pub split_pane-SplitSpec : (t : LayoutTree Ratio) → SplitSpec t (split_pane half target new dir t)
  unfolding split_pane
  split_pane-SplitSpec none = (refl, tt)
  split_pane-SplitSpec (some t) =
      changed-SplitSpec t (split_leaf half target new dir t)
        (split_leaf-SplitResult half target new dir t)

module _ {Ratio : Type 0} (target : ℕ) where
  abbrev RemoveResult : LayoutNode Ratio → Option (LayoutNode Ratio) → Type 0
  RemoveResult t none = (is_pane t target ≡ true) ⊎ Others target (panes t)
  RemoveResult t (some t') = TakenOut target (panes t) (panes t')

  is_pane-panes : (t : LayoutNode Ratio) → is_pane t target ≡ true → panes t ≡ target ∷ []
  unfolding is_pane
  is_pane-panes (leaf g p) e = ap (λ q. q ∷ []) ((==_iff p target).0 e)
  is_pane-panes (split g d r a b) e = cc

  remove_either :
      (g : Rect) (d : SplitDir) (r : Ratio) (a b : LayoutNode Ratio)
      (oa ob : Option (LayoutNode Ratio))
      → is_pane a target ≡ false
      → is_pane b target ≡ false
      → RemoveResult a oa
      → RemoveResult b ob
      → RemoveResult (split g d r a b) (first_or_second (split g d r) a b oa ob)
  remove_either g d r a b (some a') ob na nb ra rb = record {
    front = ra.front;
    back = ra.back ++ panes b;
    was = rw (ra.was) (append_assoc ra.front (target ∷ ra.back) (panes b));
    is = rw (ra.is) (append_assoc ra.front ra.back (panes b));
  }
  remove_either g d r a b none (some b') na nb ra rb = record {
    front = panes a ++ rb.front;
    back = rb.back;
    was = rw (rb.was) (sym (append_assoc (panes a) rb.front (target ∷ rb.back)));
    is = rw (rb.is) (sym (append_assoc (panes a) rb.front rb.back));
  }
  remove_either g d r a b none none na nb (inl pa) rb = absurd (cc)
  remove_either g d r a b none none na nb (inr ra) (inl pb) = absurd (cc)
  remove_either g d r a b none none na nb (inr ra) (inr rb) =
      inr (All-append _ (panes a) (panes b) ra rb)

  collapse-RemoveResult : (t : LayoutNode Ratio) → RemoveResult t (collapse target t)
  unfolding collapse
  collapse-RemoveResult (leaf g p) = elim (Bool-cases (p == target)) [
    | inl same ↦ inl (unfold is_pane in same)
    | inr other ↦ inr (other, tt)
  ]
  collapse-RemoveResult (split g d r a b) = elim (Bool-cases (is_pane a target)) [
    | inl pa ↦ rw pa (record {
      front = [];
      back = panes b;
      was = ap (λ l. l ++ panes b) (is_pane-panes a pa);
      is = panes-with_rect g b;
    })
    | inr na ↦ elim (Bool-cases (is_pane b target)) [
      | inl pb ↦
          rw (na, pb)
            (record {
              front = panes a;
              back = [];
              was = ap (λ l. panes a ++ l) (is_pane-panes b pb);
              is = panes-with_rect g a ∙ sym (append-nil (panes a));
            })
      | inr nb ↦
          rw (na, nb)
            (remove_either g d r a b _ _ na nb (collapse-RemoveResult a) (collapse-RemoveResult b))
    ]
  ]

  abbrev pub RemoveSpec : LayoutTree Ratio → LayoutTree Ratio × Bool → Type 0
  RemoveSpec t (t', true) = TakenOut target (tree_panes t) (tree_panes t')
  RemoveSpec t (t', false) = (t' ≡ t) × Others target (tree_panes t)

  changed-RemoveSpec :
      (t : LayoutNode Ratio) (o : Option (LayoutNode Ratio))
      → is_pane t target ≡ false
      → RemoveResult t o
      → RemoveSpec (some t) (changed o t)
  changed-RemoveSpec t none e (inl pa) = absurd (cc)
  changed-RemoveSpec t none e (inr h) = (refl, h)
  changed-RemoveSpec t (some t') e h = h

  -- `remove` succeeds exactly when the target is in the layout; it then takes one occurrence of it
  -- out and keeps the order of the other panes. Where it fails the layout is as it was.
  pub remove-RemoveSpec : (t : LayoutTree Ratio) → RemoveSpec t (remove target t)
  unfolding remove
  remove-RemoveSpec none = (refl, tt)
  remove-RemoveSpec (some t) = elim (Bool-cases (is_pane t target)) [
    | inl p ↦ rw p (record { front = []; back = []; was = is_pane-panes t p; is = refl })
    | inr n ↦ rw n (changed-RemoveSpec t (collapse target t) n (collapse-RemoveResult t))
  ]
