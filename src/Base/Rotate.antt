-- ===== src/Base/Rotate.antt =====
-- A ring buffer read from its first element on, and a change of a part of a list.
use Prim.Native.Nat.{ℕ, zero, suc, ◌+◌, ◌-◌, ◌%◌, ◌≤◌, ◌<◌}
use mathlib.Core.Path.{◌≡◌, refl, sym, ap, ◌∙◌}
use mathlib.Core.Logic.{◌⊎◌, inl, inr}
use mathlib.Core.List.{List, [], ◌∷◌, ◌++◌, append-nil, append_assoc}
use native.Mathlib.Omega.{arith}
use native.Mathlib.Decide.{dec_lt}
use native.Mathlib.Nat.{mod-eq_of_lt, mod-eq-sub-mod, mod_self}
use rivt.Base.Lists.{length, set, get_or, take, drop, length-append, length-drop, length-take}
use rivt.Base.Moves.{take-set, drop-get}

pub lt-cases : (a b : ℕ) → (a < b) ⊎ (b ≤ a)
lt-cases a b = elim (dec_lt a b) [ yes p ↦ inl p | no p ↦ inr (omega arith) ]

-- (t + r) % n, without the remainder.
wrap-cases :
    (t r n : ℕ)
    → t < n
    → r < n
    → ((t + r < n) × ((t + r) % n ≡ t + r)) ⊎ ((n ≤ t + r) × ((t + r) % n ≡ t + r - n))
wrap-cases t r n h g = elim (lt-cases (t + r) n) [
  | inl a ↦ inl (a, mod-eq_of_lt a)
  | inr a ↦ inr (a, mod-eq-sub-mod a ∙ mod-eq_of_lt (omega arith))
]

module _ {ℓ} {A : Type ℓ} where
  abbrev pub rotated : ℕ → List A → List A
  rotated t xs = drop t xs ++ take t xs

  get_or-append_left :
      (xs ys : List A) (i : ℕ) (d : A) → i < length xs → get_or (xs ++ ys) i d ≡ get_or xs i d
  get_or-append_left [] ys i d h = absurd (omega arith)
  get_or-append_left (x ∷ xs) ys zero d h = refl
  get_or-append_left (x ∷ xs) ys (suc i) d h = get_or-append_left xs ys i d (omega arith)

  get_or-append_right :
      (xs ys : List A) (i j : ℕ) (d : A) → length xs + j ≡ i → get_or (xs ++ ys) i d ≡ get_or ys j d
  get_or-append_right [] ys i j d e = ap (λ k. get_or ys k d) (omega arith)
  get_or-append_right (x ∷ xs) ys zero j d e = absurd (omega arith)
  get_or-append_right (x ∷ xs) ys (suc i) j d e = get_or-append_right xs ys i j d (omega arith)

  get_or-drop :
      (t i j : ℕ) (xs : List A) (d : A) → t + i ≡ j → get_or (drop t xs) i d ≡ get_or xs j d
  get_or-drop zero i j xs d e = ap (λ k. get_or xs k d) (omega arith)
  get_or-drop (suc t) i j [] d e = refl
  get_or-drop (suc t) i zero (x ∷ xs) d e = absurd (omega arith)
  get_or-drop (suc t) i (suc j) (x ∷ xs) d e = get_or-drop t i j xs d (omega arith)

  get_or-take : (t i : ℕ) (xs : List A) (d : A) → i < t → get_or (take t xs) i d ≡ get_or xs i d
  get_or-take zero i xs d h = absurd (omega arith)
  get_or-take (suc t) i [] d h = refl
  get_or-take (suc t) zero (x ∷ xs) d h = refl
  get_or-take (suc t) (suc i) (x ∷ xs) d h = get_or-take t i xs d (omega arith)

  set-append_left :
      (xs ys : List A) (i : ℕ) (v : A) → i < length xs → set (xs ++ ys) i v ≡ set xs i v ++ ys
  set-append_left [] ys i v h = absurd (omega arith)
  set-append_left (x ∷ xs) ys zero v h = refl
  set-append_left (x ∷ xs) ys (suc i) v h =
      ap (λ l. x ∷ l) (set-append_left xs ys i v (omega arith))

  pub set-append_right :
      (xs ys : List A) (i j : ℕ) (v : A) → length xs + j ≡ i → set (xs ++ ys) i v ≡ xs ++ set ys j v
  set-append_right [] ys i j v e = ap (λ k. set ys k v) (omega arith)
  set-append_right (x ∷ xs) ys zero j v e = absurd (omega arith)
  set-append_right (x ∷ xs) ys (suc i) j v e =
      ap (λ l. x ∷ l) (set-append_right xs ys i j v (omega arith))

  drop-set_ge :
      (t i j : ℕ) (v : A) (xs : List A) → t + i ≡ j → drop t (set xs j v) ≡ set (drop t xs) i v
  drop-set_ge zero i j v xs e = ap (λ k. set xs k v) (omega arith)
  drop-set_ge (suc t) i j v [] e = refl
  drop-set_ge (suc t) i zero v (x ∷ xs) e = absurd (omega arith)
  drop-set_ge (suc t) i (suc j) v (x ∷ xs) e = drop-set_ge t i j v xs (omega arith)

  drop-set_lt : (t i : ℕ) (v : A) (xs : List A) → i < t → drop t (set xs i v) ≡ drop t xs
  drop-set_lt zero i v xs h = absurd (omega arith)
  drop-set_lt (suc t) i v [] h = refl
  drop-set_lt (suc t) zero v (x ∷ xs) h = refl
  drop-set_lt (suc t) (suc i) v (x ∷ xs) h = drop-set_lt t i v xs (omega arith)

  take-set_any : (t i : ℕ) (v : A) (xs : List A) → take t (set xs i v) ≡ set (take t xs) i v
  take-set_any zero i v xs = refl
  take-set_any (suc t) i v [] = refl
  take-set_any (suc t) zero v (x ∷ xs) = refl
  take-set_any (suc t) (suc i) v (x ∷ xs) = ap (λ l. x ∷ l) (take-set_any t i v xs)

  pub length-rotated : (t : ℕ) (xs : List A) → length (rotated t xs) ≡ length xs
  length-rotated t xs =
      length-append (drop t xs) (take t xs) ∙ omega (arith, length-drop t xs, length-take t xs)

  -- The element `r` behind the first is at (t + r) % n.
  pub get_or-rotated :
      (t r : ℕ) (xs : List A) (d : A)
      → t < length xs
      → r < length xs
      → get_or (rotated t xs) r d ≡ get_or xs ((t + r) % length xs) d
  get_or-rotated t r xs d h g = elim (wrap-cases t r (length xs) h g) [
    | inl (a, e) ↦
        get_or-append_left (drop t xs) (take t xs) r d (omega (arith, length-drop t xs))
        ∙ get_or-drop t r (t + r) xs d refl
        ∙ ap (λ k. get_or xs k d) (sym e)
    | inr (a, e) ↦
        get_or-append_right (drop t xs) (take t xs) r (t + r - length xs) d
          (omega (arith, length-drop t xs))
        ∙ get_or-take t (t + r - length xs) xs d (omega arith)
        ∙ ap (λ k. get_or xs k d) (sym e)
  ]

  pub rotated-set :
      (t r : ℕ) (xs : List A) (v : A)
      → t < length xs
      → r < length xs
      → rotated t (set xs ((t + r) % length xs) v) ≡ set (rotated t xs) r v
  rotated-set t r xs v h g = elim (wrap-cases t r (length xs) h g) [
    | inl (a, e) ↦
        ap (λ k. rotated t (set xs k v)) e
        ∙ rw (drop-set_ge t r (t + r) v xs refl, take-set t (t + r) v xs (omega arith)) refl
        ∙ sym (set-append_left (drop t xs) (take t xs) r v (omega (arith, length-drop t xs)))
    | inr (a, e) ↦
        ap (λ k. rotated t (set xs k v)) e
        ∙ rw
            (
              drop-set_lt t (t + r - length xs) v xs (omega arith),
              take-set_any t (t + r - length xs) v xs,
            )
            refl
        ∙ sym (
            set-append_right (drop t xs) (take t xs) r (t + r - length xs) v
              (omega (arith, length-drop t xs)))
  ]

  -- The first element becomes the last.
  abbrev pub turn : List A → List A
  turn [] = []
  turn (x ∷ xs) = xs ++ (x ∷ [])

  pub take_next :
      (t : ℕ) (xs : List A) (d : A)
      → t < length xs
      → take (suc t) xs ≡ take t xs ++ (get_or xs t d ∷ [])
  take_next t [] d h = absurd (omega arith)
  take_next zero (x ∷ xs) d h = refl
  take_next (suc t) (x ∷ xs) d h = ap (λ l. x ∷ l) (take_next t xs d (omega arith))

  pub take_all : (n : ℕ) (xs : List A) → length xs ≤ n → take n xs ≡ xs
  take_all zero [] h = refl
  take_all zero (x ∷ xs) h = absurd (omega arith)
  take_all (suc n) [] h = refl
  take_all (suc n) (x ∷ xs) h = ap (λ l. x ∷ l) (take_all n xs (omega arith))

  pub drop_all : (n : ℕ) (xs : List A) → length xs ≤ n → drop n xs ≡ []
  drop_all zero [] h = refl
  drop_all zero (x ∷ xs) h = absurd (omega arith)
  drop_all (suc n) [] h = refl
  drop_all (suc n) (x ∷ xs) h = drop_all n xs (omega arith)

  pub take_full : (xs : List A) → take (length xs) xs ≡ xs
  take_full xs = take_all (length xs) xs (omega arith)

  -- A step of the first place to the next element.
  pub rotated-next :
      (t : ℕ) (xs : List A) (d : A)
      → t < length xs
      → rotated ((t + 1) % length xs) xs ≡ turn (rotated t xs)
  rotated-next t xs d h = elim (lt-cases (t + 1) (length xs)) [
    | inl a ↦
        ap (λ k. rotated k xs) {y = suc t} (omega (arith, mod-eq_of_lt a))
        ∙ ap (λ l. drop (suc t) xs ++ l) (take_next t xs d h)
        ∙ sym (append_assoc (drop (suc t) xs) (take t xs) (get_or xs t d ∷ []))
        ∙ ap (λ l. turn (l ++ take t xs)) (sym (drop-get t (suc t) d xs h refl))
    | inr a ↦
        ap (λ k. rotated k xs) (next_zero a)
        ∙ append-nil xs
        ∙ sym (take_full xs)
        ∙ ap (λ k. take k xs) {y = suc t} (omega arith)
        ∙ take_next t xs d h
        ∙ ap (λ l. turn (l ++ take t xs))
            (sym (
              drop-get t (suc t) d xs h refl
              ∙ ap (λ l. get_or xs t d ∷ l) (drop_all (suc t) xs (omega arith))))
  ]
    where
      next_zero : length xs ≤ t + 1 → (t + 1) % length xs ≡ 0
      next_zero a = ap (λ k. k % length xs) {y = length xs} (omega arith) ∙ mod_self (length xs)
