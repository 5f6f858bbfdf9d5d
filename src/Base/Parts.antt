-- ===== src/Base/Parts.antt =====
-- A part of a list that moves by one place.
use Prim.Native.Nat.{ℕ, zero, suc, ◌+◌, ◌-◌, ◌%◌, ◌≤◌, ◌<◌}
use mathlib.Core.Path.{◌≡◌, refl, sym, ap, ◌∙◌}
use mathlib.Core.List.{List, [], ◌∷◌, ◌++◌, map, append-nil, append_assoc}
use native.Mathlib.Omega.{arith}
use native.Mathlib.Nat.{mod-eq_of_lt, mod-add-mod, add-mod_right}
use rivt.Base.Lists.{length, set, get_or, take, drop, length-append, length-drop, length-take}
use rivt.Base.Moves.{move_left, move_right, move_left_lem, move_right_lem, drop-get}
use rivt.Base.Rotate.{set-append_right, take_next, take_full, drop_all, turn}
use rivt.Base.Change.{change_part, take_at}
use rivt.Base.Shift.{step_up, step_down, take-take}

module _ {ℓ} {A : Type ℓ} where
  pub map_id : (xs : List A) → map (λ x. x) xs ≡ xs
  map_id [] = refl
  map_id (x ∷ xs) = ap (λ l. x ∷ l) (map_id xs)

  pub set-get_or : (xs : List A) (i : ℕ) (d : A) → set xs i (get_or xs i d) ≡ xs
  set-get_or [] i d = refl
  set-get_or (x ∷ xs) zero d = refl
  set-get_or (x ∷ xs) (suc i) d = ap (λ l. x ∷ l) (set-get_or xs i d)

  -- A part is its first element and the rest.
  part-cons :
      (top n stop : ℕ) (xs : List A) (d : A)
      → top < length xs
      → stop - top ≡ suc n
      → take (stop - top) (drop top xs) ≡ get_or xs top d ∷ take n (drop (suc top) xs)
  part-cons top n stop xs d h e =
      ap (λ k. take k (drop top xs)) e ∙ ap (take (suc n)) (drop-get top (suc top) d xs h refl)

  -- The loop that moves a part to the left by one and the write behind it.
  pub move_left-step_up :
      (b d : A) (n top stop : ℕ) (xs : List A)
      → top + suc n ≡ stop
      → stop ≤ length xs
      → set (move_left d (λ x. x) 1 n top xs) (stop - 1) b ≡ change_part top stop (step_up b) xs
  move_left-step_up b d n top stop xs e h =
      let part = take n (drop (suc top) xs) in
      let front : length (take top xs) ≡ top = omega (arith, length-take top xs) in
      let middle : length part ≡ n =
        omega (arith, length-take n (drop (suc top) xs), length-drop (suc top) xs) in
      ap (λ l. set l (stop - 1) b)
        (move_left_lem d (λ x. x) 1 n top (suc top) (stop - 1) xs (omega arith) (omega arith)
            (omega arith)
          ∙ ap (λ l. take top xs ++ (l ++ drop (stop - 1) xs)) (map_id part)
          ∙ ap (λ l. take top xs ++ (part ++ l))
              (drop-get (stop - 1) stop d xs (omega arith) (omega arith)))
      ∙ set-append_right (take top xs) _ (stop - 1) n b (omega (arith, front))
      ∙ ap (λ l. take top xs ++ l) (set-append_right part _ n 0 b (omega (arith, middle)))
      ∙ ap (λ l. take top xs ++ l) (sym (append_assoc part (b ∷ []) (drop stop xs)))
      ∙ ap (λ l. take top xs ++ (step_up b l ++ drop stop xs))
          (sym (part-cons top n stop xs d (omega arith) (omega arith)))

  -- The loop that moves it to the right and the write in front of it.
  pub move_right-step_down :
      (b d : A) (n top stop : ℕ) (xs : List A)
      → top + suc n ≡ stop
      → stop ≤ length xs
      → set (move_right d (λ x. x) 1 n top xs) top b ≡ change_part top stop (step_down b) xs
  move_right-step_down b d n top stop xs e h =
      let part = take n (drop top xs) in
      let first = get_or xs top d in
      let rest = drop (suc top) xs in
      let front : length (take top xs) ≡ top = omega (arith, length-take top xs) in
      let back : length (take n rest) ≡ n =
        omega (arith, length-take n rest, length-drop (suc top) xs) in
      ap (λ l. set l top b)
        (move_right_lem d (λ x. x) 1 n top (suc top) stop xs (omega arith) (omega arith)
            (omega arith) h
          ∙ ap (λ l. take (suc top) xs ++ (l ++ drop stop xs)) (map_id part)
          ∙ ap (λ l. l ++ (part ++ drop stop xs)) (take_next top xs d (omega arith))
          ∙ append_assoc (take top xs) (first ∷ []) (part ++ drop stop xs))
      ∙ set-append_right (take top xs) _ top 0 b (omega (arith, front))
      ∙ ap (λ l. take top xs ++ (b ∷ (take n l ++ drop stop xs)))
          (drop-get top (suc top) d xs (omega arith) refl)
      ∙ ap (λ l. take top xs ++ (b ∷ (l ++ drop stop xs)))
          (sym (take-take b n (suc n) (first ∷ rest) (omega arith)))
      ∙ ap (λ k. take top xs ++ (b ∷ (take k (first ∷ take n rest) ++ drop stop xs))) (sym back)
      ∙ ap (λ l. take top xs ++ (step_down b l ++ drop stop xs))
          (sym (part-cons top n stop xs d (omega arith) (omega arith)))

  -- The part that is the whole list.
  pub change_all :
      (n : ℕ) (f : List A → List A) (xs : List A) → length xs ≡ n → change_part 0 n f xs ≡ f xs
  change_all n f xs e =
      ap (λ k. f (take k xs) ++ drop n xs) {y = length xs} (omega arith)
      ∙ ap (λ l. f (take (length xs) xs) ++ l) (drop_all n xs (omega arith))
      ∙ append-nil (f (take (length xs) xs))
      ∙ ap f (take_full xs)

  pub turn-set : (b : A) (xs : List A) → turn (set xs 0 b) ≡ step_up b xs
  turn-set b [] = refl
  turn-set b (x ∷ xs) = refl

  pub step_down-turn : (b : A) (xs : List A) → step_down b (turn xs) ≡ set xs 0 b
  step_down-turn b [] = refl
  step_down-turn b (x ∷ []) = refl
  step_down-turn b (x ∷ y ∷ xs) =
      ap (λ l. b ∷ l)
        (take_at (length (xs ++ (x ∷ []))) (y ∷ xs) (x ∷ [])
          (omega (arith, length-append xs (x ∷ []))))

-- The place in front of the first of a ring of `n`.
pub back_and_forth : (t n : ℕ) → t < n → ((t + n - 1) % n + 1) % n ≡ t
back_and_forth t n h =
    mod-add-mod (t + n - 1) n 1
    ∙ ap (λ k. k % n) {y = t + n} (omega arith)
    ∙ add-mod_right t n
    ∙ mod-eq_of_lt h
