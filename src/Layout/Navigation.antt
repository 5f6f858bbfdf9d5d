-- ===== src/Layout/Navigation.antt =====
-- LayoutTree::navigate of src/core/layout.cpp, on the panes as compute_layout placed them.
use rivt.Base.{
  ℕ, ◌-◌, ◌^◌, ◌≡◌, refl, Bool, true, false, not, ◌&&◌, List, [], ◌∷◌, arith, sym, ap, subst, ◌==◌,
  ◌⊎◌, inl, inr, Bool-cases, if◌then◌else◌,
}
use rivt.Base.Bytes.{All}
use rivt.Base.Int.{ℤ, pos, ◌+ℤ◌, ◌-ℤ◌, ◌*ℤ◌, ◌≤ℤ◌, ltb_ℤ}
use rivt.Layout.Geometry.{Placed, div_ℤ}

pub data NavDir : Type 0 where
  go_up go_down go_left go_right : NavDir

pub record PaneCenter : Type 0 where
  pub pane : ℕ
  pub cx : ℤ
  pub cy : ℤ

-- LayoutTree::collect_centers
unfoldable pub collect_centers : List Placed → List PaneCenter
unfolding div_ℤ
collect_centers [] = []
collect_centers (p ∷ ps) =
    record {
      pane = p.pane;
      cx = p.rect.x +ℤ div_ℤ p.rect.w (pos 2);
      cy = p.rect.y +ℤ div_ℤ p.rect.h (pos 2);
    }
    ∷ collect_centers ps

-- The centre of `from`: the first that carries it, or 0, 0.
unfoldable pub find_center : ℕ → List PaneCenter → ℤ × ℤ
find_center from [] = (pos 0, pos 0)
find_center from (pc ∷ pcs) = if pc.pane == from then (pc.cx, pc.cy) else find_center from pcs

unfoldable pub towards : NavDir → ℤ → ℤ → Bool
towards NavDir.go_left dx dy = ltb_ℤ dx (pos 0)
towards NavDir.go_right dx dy = ltb_ℤ (pos 0) dx
towards NavDir.go_up dx dy = ltb_ℤ dy (pos 0)
towards NavDir.go_down dx dy = ltb_ℤ (pos 0) dy

unfoldable pub distance : ℤ × ℤ → PaneCenter → ℤ
distance c pc = (pc.cx -ℤ c.0) *ℤ (pc.cx -ℤ c.0) +ℤ (pc.cy -ℤ c.1) *ℤ (pc.cy -ℤ c.1)

-- Is the pane another one, and on the right side?
unfoldable pub is_candidate : ℕ → NavDir → ℤ × ℤ → PaneCenter → Bool
is_candidate from dir c pc = not (pc.pane == from) && towards dir (pc.cx -ℤ c.0) (pc.cy -ℤ c.1)

-- The loop over the centres; `best` and `best_dist` are its state.
unfoldable pub nearest : ℕ → NavDir → ℤ × ℤ → ℕ → ℤ → List PaneCenter → ℕ × ℤ
nearest from dir c best best_dist [] = (best, best_dist)
nearest from dir c best best_dist (pc ∷ pcs) =
    if is_candidate from dir c pc && ltb_ℤ (distance c pc) best_dist
    then nearest from dir c pc.pane (distance c pc) pcs
    else nearest from dir c best best_dist pcs

-- INT_MAX
abbrev pub int_max : ℤ
int_max = pos (2 ^ 31 - 1)

unfoldable pub navigate : ℕ → NavDir → List Placed → ℕ
unfolding collect_centers find_center nearest
navigate from dir placed =
    let centers = collect_centers placed in
    (nearest from dir (find_center from centers) from int_max centers).0

module _ (from : ℕ) (dir : NavDir) (c : ℤ × ℤ) where
  -- `best` is the pane of a candidate among the centres, at the distance `d`.
  abbrev pub FoundAt : ℕ → ℤ → List PaneCenter → Type 0
  FoundAt best d [] = ⊥
  FoundAt best d (pc ∷ pcs) =
      ((pc.pane ≡ best) × (is_candidate from dir c pc ≡ true) × (distance c pc ≡ d))
      ⊎ FoundAt best d pcs

  -- No candidate is nearer.
  abbrev pub NoneNearer : ℤ → List PaneCenter → Type 0
  NoneNearer d = All (λ pc. is_candidate from dir c pc ≡ true → d ≤ℤ distance c pc)

  nearest_shrinks :
      (best : ℕ) (d : ℤ) (pcs : List PaneCenter) → (nearest from dir c best d pcs).1 ≤ℤ d
  unfolding nearest
  nearest_shrinks best d [] = omega arith
  nearest_shrinks best d (pc ∷ pcs) =
      elim (Bool-cases (is_candidate from dir c pc && ltb_ℤ (distance c pc) d)) [
        | inl nearer ↦
            rw nearer (ground (arith, nearer, nearest_shrinks pc.pane (distance c pc) pcs))
        | inr other ↦ rw other (nearest_shrinks best d pcs)
      ]

  abbrev IsBest : ℕ → ℤ → List PaneCenter → ℕ × ℤ → Type 0
  IsBest best d pcs q = ((q ≡ (best, d)) ⊎ FoundAt q.0 q.1 pcs) × NoneNearer q.1 pcs

  nearest_taken :
      (best : ℕ) (d : ℤ) (pc : PaneCenter) (pcs : List PaneCenter)
      → (is_candidate from dir c pc && ltb_ℤ (distance c pc) d) ≡ true
      → nearest from dir c best d (pc ∷ pcs) ≡ nearest from dir c pc.pane (distance c pc) pcs
  unfolding nearest
  nearest_taken best d pc pcs e = rw e

  nearest_kept :
      (best : ℕ) (d : ℤ) (pc : PaneCenter) (pcs : List PaneCenter)
      → (is_candidate from dir c pc && ltb_ℤ (distance c pc) d) ≡ false
      → nearest from dir c best d (pc ∷ pcs) ≡ nearest from dir c best d pcs
  unfolding nearest
  nearest_kept best d pc pcs e = rw e

  IsBest-closer :
      (best : ℕ) (d : ℤ) (pc : PaneCenter) (pcs : List PaneCenter) (q : ℕ × ℤ)
      → is_candidate from dir c pc ≡ true
      → q.1 ≤ℤ distance c pc
      → IsBest pc.pane (distance c pc) pcs q
      → IsBest best d (pc ∷ pcs) q
  IsBest-closer best d pc pcs q k le (inl e, none_nearer) = (
    inr (inl (sym (ap (λ (q : ℕ × ℤ). q.0) e), k, sym (ap (λ (q : ℕ × ℤ). q.1) e))),
    (λ _. le, none_nearer),
  )
  IsBest-closer best d pc pcs q k le (inr later, none_nearer) =
      (inr (inr later), (λ _. le, none_nearer))

  IsBest-other :
      (best : ℕ) (d : ℤ) (pc : PaneCenter) (pcs : List PaneCenter) (q : ℕ × ℤ)
      → (is_candidate from dir c pc ≡ true → q.1 ≤ℤ distance c pc)
      → IsBest best d pcs q
      → IsBest best d (pc ∷ pcs) q
  IsBest-other best d pc pcs q far (inl e, none_nearer) = (inl e, (far, none_nearer))
  IsBest-other best d pc pcs q far (inr later, none_nearer) = (inr (inr later), (far, none_nearer))

  candidate_far :
      (pc : PaneCenter) (d r : ℤ)
      → (is_candidate from dir c pc && ltb_ℤ (distance c pc) d) ≡ false
      → r ≤ℤ d
      → is_candidate from dir c pc ≡ true
      → r ≤ℤ distance c pc
  candidate_far pc d r e le k = ground arith

  candidate_near :
      (pc : PaneCenter) (d : ℤ)
      → (is_candidate from dir c pc && ltb_ℤ (distance c pc) d) ≡ true
      → is_candidate from dir c pc ≡ true
  candidate_near pc d e = ground arith

  -- The loop's result is where it started, or the pane of a candidate, and no candidate is nearer.
  nearest-Nearest :
      (best : ℕ) (d : ℤ) (pcs : List PaneCenter) → IsBest best d pcs (nearest from dir c best d pcs)
  nearest-Nearest best d [] = unfold nearest in (inl refl, tt)
  nearest-Nearest best d (pc ∷ pcs) =
      elim (Bool-cases (is_candidate from dir c pc && ltb_ℤ (distance c pc) d)) [
        | inl e ↦ subst (IsBest best d (pc ∷ pcs)) (sym (nearest_taken best d pc pcs e)) (
            IsBest-closer best d pc pcs _ (candidate_near pc d e)
              (nearest_shrinks pc.pane (distance c pc) pcs)
              (nearest-Nearest pc.pane (distance c pc) pcs))
        | inr e ↦ subst (IsBest best d (pc ∷ pcs)) (sym (nearest_kept best d pc pcs e)) (
            IsBest-other best d pc pcs _ (candidate_far pc d _ e (nearest_shrinks best d pcs))
              (nearest-Nearest best d pcs))
      ]

-- `navigate` stays where it is, or goes to another pane whose centre lies in the direction asked for;
-- no pane in that direction has a nearer centre, and where it stays none is nearer than INT_MAX.
pub navigate_lem :
    (from : ℕ) (dir : NavDir) (placed : List Placed)
    → (d : ℤ) × (((navigate from dir placed ≡ from) × (d ≡ int_max))
        ⊎ FoundAt from dir
            (find_center from (collect_centers placed))
            (navigate from dir placed)
            d
            (collect_centers placed))
      × NoneNearer from dir (find_center from (collect_centers placed)) d (collect_centers placed)
unfolding navigate
navigate_lem from dir placed =
    let centers = collect_centers placed in
    let c = find_center from centers in
    let (found, none_nearer) = nearest-Nearest from dir c from int_max centers in
    (
      (nearest from dir c from int_max centers).1,
      elim found [
        | inl e ↦ inl (ap (λ (q : ℕ × ℤ). q.0) e, ap (λ (q : ℕ × ℤ). q.1) e)
        | inr later ↦ inr later
      ],
      none_nearer,
    )
