-- ===== src/Base/Shift.antt =====
-- The elements of a list moved to its front or its back, with copies of a value behind or in front.
use Prim.Native.Nat.{ℕ, zero, suc, ◌-◌, ◌≤◌, min}
use mathlib.Core.Path.{◌≡◌, refl, ap, ◌∙◌}
use mathlib.Core.Logic.{inl, inr}
use mathlib.Core.List.{List, [], ◌∷◌, ◌++◌, append-nil, append_assoc}
use native.Mathlib.Omega.{arith}
use rivt.Base.Lists.{
  length, take, drop, replicate, length-append, length-drop, length-take, length-replicate,
  drop-append_le,
}
use rivt.Base.Rotate.{drop_all, take_all, lt-cases}

module _ {ℓ} {A : Type ℓ} (b : A) where
  -- `n` elements are lost at the front.
  abbrev pub moved_up : ℕ → List A → List A
  moved_up n xs = drop n xs ++ replicate (min n (length xs)) b

  -- `n` elements are lost at the back.
  abbrev pub moved_down : ℕ → List A → List A
  moved_down n xs = replicate (min n (length xs)) b ++ take (length xs - n) xs

  pub length-moved_up : (n : ℕ) (xs : List A) → length (moved_up n xs) ≡ length xs
  length-moved_up n xs =
      length-append (drop n xs) (replicate (min n (length xs)) b)
      ∙ omega (arith, length-drop n xs, length-replicate (min n (length xs)) b)

  pub length-moved_down : (n : ℕ) (xs : List A) → length (moved_down n xs) ≡ length xs
  length-moved_down n xs =
      length-append (replicate (min n (length xs)) b) (take (length xs - n) xs)
      ∙ omega (arith, length-take (length xs - n) xs, length-replicate (min n (length xs)) b)

  replicate-suc : (n : ℕ) (xs : List A) → replicate n b ++ (b ∷ xs) ≡ b ∷ (replicate n b ++ xs)
  replicate-suc zero xs = refl
  replicate-suc (suc n) xs = ap (λ l. b ∷ l) (replicate-suc n xs)

  -- One element is lost.
  abbrev pub step_up : List A → List A
  step_up [] = []
  step_up (x ∷ xs) = xs ++ (b ∷ [])

  abbrev pub step_down : List A → List A
  step_down [] = []
  step_down (x ∷ xs) = b ∷ take (length xs) (x ∷ xs)

  pub length-step_up : (xs : List A) → length (step_up xs) ≡ length xs
  length-step_up [] = refl
  length-step_up (x ∷ xs) = length-append xs (b ∷ []) ∙ omega arith

  pub length-step_down : (xs : List A) → length (step_down xs) ≡ length xs
  length-step_down [] = refl
  length-step_down (x ∷ xs) = omega (arith, length-take (length xs) (x ∷ xs))

  -- Steps by one are a step by their number.
  pub moved_up-suc : (n : ℕ) (xs : List A) → moved_up n (step_up xs) ≡ moved_up (suc n) xs
  moved_up-suc n [] =
      ap (λ l. l ++ replicate (min n 0) b) (drop_all n [] (omega arith))
      ∙ ap (λ k. replicate k b) {x = min n 0} {y = min (suc n) 0} (omega arith)
  moved_up-suc n (x ∷ xs) = elim (lt-cases (length xs) n) [
    | inl h ↦
        rw
          (
            drop_all n (xs ++ (b ∷ [])) (omega (arith, length-append xs (b ∷ []))),
            drop_all n xs (omega arith),
          )
          (ap (λ k. replicate k b) (omega (arith, length-append xs (b ∷ []))))
    | inr h ↦
        rw (drop-append_le n xs (b ∷ []) h, append_assoc)
          (ap (λ k. drop n xs ++ replicate k b) {x = suc (min n (length (xs ++ (b ∷ []))))}
            (omega (arith, length-append xs (b ∷ []))))
  ]

  pub take-take : (k m : ℕ) (xs : List A) → k ≤ m → take k (take m xs) ≡ take k xs
  take-take zero m xs h = refl
  take-take (suc k) zero xs h = absurd (omega arith)
  take-take (suc k) (suc m) [] h = refl
  take-take (suc k) (suc m) (x ∷ xs) h = ap (λ l. x ∷ l) (take-take k m xs (omega arith))

  pub moved_down-suc : (n : ℕ) (xs : List A) → moved_down n (step_down xs) ≡ moved_down (suc n) xs
  moved_down-suc n [] =
      ap (λ k. replicate (min n 0) b ++ take k []) {x = 0 - n} {y = 0} (omega arith)
      ∙ ap (λ k. replicate k b ++ []) {x = min n 0} {y = min (suc n) 0} (omega arith)
      ∙ ap (λ k. replicate (min (suc n) 0) b ++ take k []) {x = 0} {y = 0 - suc n} (omega arith)
  moved_down-suc n (x ∷ xs) =
      let ys = x ∷ xs in
      let zs = take (length xs) ys in
      let e : length zs ≡ length xs = omega (arith, length-take (length xs) ys) in
      elim (lt-cases (length xs) n) [
        | inl h ↦
            ap (λ k. replicate (min n (suc (length zs))) b ++ take k (b ∷ zs)) {y = 0} (omega arith)
            ∙ ap (λ k. replicate k b ++ []) {y = min (suc n) (suc (length xs))} (omega arith)
            ∙ ap (λ k. replicate (min (suc n) (suc (length xs))) b ++ take k ys) {x = 0}
                (omega arith)
        | inr h ↦
            ap (λ k. replicate (min n (suc (length zs))) b ++ take k (b ∷ zs))
              {y = suc (length xs - n)} (omega arith)
            ∙ replicate-suc (min n (suc (length zs))) (take (length xs - n) zs)
            ∙ ap (λ l. b ∷ (replicate (min n (suc (length zs))) b ++ l))
                (take-take (length xs - n) (length xs) ys (omega arith))
            ∙ ap (λ k. replicate k b ++ take (length xs - n) ys) {x = suc (min n (suc (length zs)))}
                (omega arith)
            ∙ ap (λ k. replicate (min (suc n) (suc (length xs))) b ++ take k ys) (omega arith)
      ]

  -- More steps than there are elements are no different.
  pub moved_up-min : (n m : ℕ) (xs : List A) → length xs ≡ m → moved_up (min n m) xs ≡ moved_up n xs
  moved_up-min n m xs e = elim (lt-cases n m) [
    | inl h ↦ ap (λ k. moved_up k xs) (omega arith)
    | inr h ↦
        rw (drop_all (min n m) xs (omega arith), drop_all n xs (omega arith))
          (ap (λ k. replicate k b) (omega arith))
  ]

  pub moved_down-min :
      (n m : ℕ) (xs : List A) → length xs ≡ m → moved_down (min n m) xs ≡ moved_down n xs
  moved_down-min n m xs e =
      ap (λ k. replicate k b ++ take (length xs - min n m) xs) {y = min n (length xs)} (omega arith)
      ∙ ap (λ k. replicate (min n (length xs)) b ++ take k xs) (omega arith)

  pub moved_up-zero : (xs : List A) → moved_up 0 xs ≡ xs
  moved_up-zero xs = ap (λ k. xs ++ replicate k b) {y = 0} (omega arith) ∙ append-nil xs

  pub moved_down-zero : (xs : List A) → moved_down 0 xs ≡ xs
  moved_down-zero xs =
      ap (λ k. replicate k b ++ take (length xs - 0) xs) {y = 0} (omega arith)
      ∙ take_all (length xs - 0) xs (omega arith)
