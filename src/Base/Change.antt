-- ===== src/Base/Change.antt =====
-- A change of a part of a list, and what stands in front of it and behind.
use Prim.Native.Nat.{ℕ, zero, suc, ◌+◌, ◌-◌, ◌≤◌}
use mathlib.Core.Path.{◌≡◌, refl, sym, ap, ◌∙◌}
use mathlib.Core.List.{List, [], ◌∷◌, ◌++◌}
use native.Mathlib.Omega.{arith}
use rivt.Base.Lists.{length, take, drop, length-append, length-drop, length-take, take-append-drop}

module _ {ℓ} {A : Type ℓ} where
  -- A change of the part of a list from `top` up to, and not including, `stop`.
  abbrev pub change_part : ℕ → ℕ → (List A → List A) → List A → List A
  change_part top stop f xs = take top xs ++ (f (take (stop - top) (drop top xs)) ++ drop stop xs)

  pub length-part :
      (top stop : ℕ) (xs : List A)
      → stop ≤ length xs
      → length (take (stop - top) (drop top xs)) ≡ stop - top
  length-part top stop xs h =
      length-take (stop - top) (drop top xs) ∙ omega (arith, length-drop top xs)

  pub drop-drop : (n m k : ℕ) (xs : List A) → n + m ≡ k → drop m (drop n xs) ≡ drop k xs
  drop-drop zero m k xs e = ap (λ q. drop q xs) {y = k} (omega arith)
  drop-drop (suc n) m zero xs e = absurd (omega arith)
  drop-drop (suc n) zero (suc k) [] e = refl
  drop-drop (suc n) (suc m) (suc k) [] e = refl
  drop-drop (suc n) m (suc k) (x ∷ xs) e = drop-drop n m k xs (omega arith)

  pub drop_at :
      (n m k : ℕ) (xs ys : List A) → length xs ≡ n → n + m ≡ k → drop k (xs ++ ys) ≡ drop m ys
  drop_at zero m k [] ys e e' = ap (λ q. drop q ys) {x = k} (omega arith)
  drop_at zero m k (x ∷ xs) ys e e' = absurd (omega arith)
  drop_at (suc n) m k [] ys e e' = absurd (omega arith)
  drop_at (suc n) m zero (x ∷ xs) ys e e' = absurd (omega arith)
  drop_at (suc n) m (suc k) (x ∷ xs) ys e e' = drop_at n m k xs ys (omega arith) (omega arith)

  pub take_at : (n : ℕ) (xs ys : List A) → length xs ≡ n → take n (xs ++ ys) ≡ xs
  take_at zero [] ys e = refl
  take_at zero (x ∷ xs) ys e = absurd (omega arith)
  take_at (suc n) [] ys e = absurd (omega arith)
  take_at (suc n) (x ∷ xs) ys e = ap (λ l. x ∷ l) (take_at n xs ys (omega arith))

  -- Two changes of a part after each other, of which the first keeps its length.
  pub change_part-twice :
      (top stop : ℕ) (f g : List A → List A) (xs : List A)
      → top ≤ stop
      → stop ≤ length xs
      → ((l : List A) → length (f l) ≡ length l)
      → change_part top stop g (change_part top stop f xs) ≡ change_part top stop (λ l. g (f l)) xs
  change_part-twice top stop f g xs h h' k =
      let m = take (stop - top) (drop top xs) in
      let front : length (take top xs) ≡ top = omega (arith, length-take top xs) in
      let middle : length (f m) ≡ stop - top = k m ∙ length-part top stop xs h' in
      rw
        (
          take_at top (take top xs) (f m ++ drop stop xs) front,
          drop_at top 0 top (take top xs) (f m ++ drop stop xs) front (omega arith),
          drop_at top (stop - top) stop (take top xs) (f m ++ drop stop xs) front (omega arith),
          take_at (stop - top) (f m) (drop stop xs) middle,
          drop_at (stop - top) 0 (stop - top) (f m) (drop stop xs) middle (omega arith),
        )
        refl

  pub length-change_part :
      (top stop : ℕ) (f : List A → List A) (xs : List A)
      → top ≤ stop
      → stop ≤ length xs
      → ((l : List A) → length (f l) ≡ length l)
      → length (change_part top stop f xs) ≡ length xs
  length-change_part top stop f xs h h' k =
      let m = take (stop - top) (drop top xs) in
      length-append (take top xs) (f m ++ drop stop xs)
      ∙ omega (
        arith,
        length-take top xs,
        length-append (f m) (drop stop xs),
        k m,
        length-part top stop xs h',
        length-drop stop xs,
      )

  pub change_nothing :
      (top stop : ℕ) (xs : List A) → top ≤ stop → change_part top stop (λ l. l) xs ≡ xs
  change_nothing top stop xs h =
      ap (λ l. take top xs ++ (take (stop - top) (drop top xs) ++ l))
        (sym (drop-drop top (stop - top) stop xs (omega arith)))
      ∙ ap (λ l. take top xs ++ l) (take-append-drop (stop - top) (drop top xs))
      ∙ take-append-drop top xs
