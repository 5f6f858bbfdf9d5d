-- ===== src/Base/Moves.antt =====
-- Loops that move or fill a range of an array, and what they leave. `f` is done to each element that
-- is moved.
use Prim.Native.Nat.{ℕ, zero, suc, ◌+◌, ◌≤◌, ◌<◌}
use mathlib.Core.Path.{◌≡◌, refl, sym, ap, ◌∙◌}
use mathlib.Core.List.{List, [], ◌∷◌, ◌++◌, map, map-append, append_assoc}
use native.Mathlib.Omega.{arith}
use rivt.Base.Lists.{length, set, get_or, take, drop, replicate, length-set, take-append-drop}

module _ {ℓ} {A : Type ℓ} (d : A) where
  -- for (; n > 0; n--, i++) xs[i] = f(xs[i + k]);
  unfoldable pub move_left : (A → A) → ℕ → ℕ → ℕ → List A → List A
  move_left f k zero i xs = xs
  move_left f k (suc n) i xs = move_left f k n (suc i) (set xs i (f (get_or xs (i + k) d)))

  -- for (; n > 0; n--) xs[i + k + n - 1] = f(xs[i + n - 1]);
  unfoldable pub move_right : (A → A) → ℕ → ℕ → ℕ → List A → List A
  move_right f k zero i xs = xs
  move_right f k (suc n) i xs = move_right f k n i (set xs (i + k + n) (f (get_or xs (i + n) d)))

module _ {ℓ} {A : Type ℓ} where
  -- for (; n > 0; n--, i++) xs[i] = v;
  unfoldable pub fill : A → ℕ → ℕ → List A → List A
  fill v zero i xs = xs
  fill v (suc n) i xs = fill v n (suc i) (set xs i v)

  pub length-fill : (v : A) (n i : ℕ) (xs : List A) → length (fill v n i xs) ≡ length xs
  unfolding fill
  length-fill v zero i xs = refl
  length-fill v (suc n) i xs = length-fill v n (suc i) (set xs i v) ∙ length-set xs i v

  fill-cons :
      (v : A) (n i : ℕ) (x : A) (xs : List A) → fill v n (suc i) (x ∷ xs) ≡ x ∷ fill v n i xs
  unfolding fill
  fill-cons v zero i x xs = refl
  fill-cons v (suc n) i x xs = fill-cons v n (suc i) x (set xs i v)

  -- The range is filled and the rest stays.
  pub fill_lem :
      (v : A) (n i j : ℕ) (xs : List A)
      → i + n ≡ j
      → j ≤ length xs
      → fill v n i xs ≡ take i xs ++ (replicate n v ++ drop j xs)
  unfolding fill
  fill_lem v zero zero zero xs e h = refl
  fill_lem v zero zero (suc j) xs e h = absurd (omega arith)
  fill_lem v (suc n) zero zero xs e h = absurd (omega arith)
  fill_lem v (suc n) zero (suc j) [] e h = absurd (omega arith)
  fill_lem v (suc n) zero (suc j) (x ∷ xs) e h =
      fill-cons v n 0 v xs ∙ ap (λ l. v ∷ l) (fill_lem v n 0 j xs (omega arith) (omega arith))
  fill_lem v n (suc i) zero xs e h = absurd (omega arith)
  fill_lem v n (suc i) (suc j) [] e h = absurd (omega arith)
  fill_lem v n (suc i) (suc j) (x ∷ xs) e h =
      fill-cons v n i x xs ∙ ap (λ l. x ∷ l) (fill_lem v n i j xs (omega arith) (omega arith))

  pub take-set : (m i : ℕ) (v : A) (xs : List A) → m ≤ i → take m (set xs i v) ≡ take m xs
  take-set zero i v xs h = refl
  take-set (suc m) i v [] h = refl
  take-set (suc m) zero v (x ∷ xs) h = absurd (omega arith)
  take-set (suc m) (suc i) v (x ∷ xs) h = ap (λ l. x ∷ l) (take-set m i v xs (omega arith))

  drop-set_at :
      (i j : ℕ) (v : A) (xs : List A)
      → i < length xs
      → suc i ≡ j
      → drop i (set xs i v) ≡ v ∷ drop j xs
  drop-set_at i j v [] h e = absurd (omega arith)
  drop-set_at zero zero v (x ∷ xs) h e = absurd (omega arith)
  drop-set_at zero (suc zero) v (x ∷ xs) h e = refl
  drop-set_at zero (suc (suc j)) v (x ∷ xs) h e = absurd (omega arith)
  drop-set_at (suc i) zero v (x ∷ xs) h e = absurd (omega arith)
  drop-set_at (suc i) (suc j) v (x ∷ xs) h e = drop-set_at i j v xs (omega arith) (omega arith)

  -- A range that ends in front of the index does not see the write.
  range-set :
      (n i j : ℕ) (v : A) (xs : List A)
      → i + n ≤ j
      → take n (drop i (set xs j v)) ≡ take n (drop i xs)
  range-set n zero j v xs h = take-set n j v xs (omega arith)
  range-set n (suc i) j v [] h = refl
  range-set n (suc i) zero v (x ∷ xs) h = absurd (omega arith)
  range-set n (suc i) (suc j) v (x ∷ xs) h = range-set n i j v xs (omega arith)

  pub drop-get :
      (i j : ℕ) (d : A) (xs : List A)
      → i < length xs
      → suc i ≡ j
      → drop i xs ≡ get_or xs i d ∷ drop j xs
  drop-get i j d [] h e = absurd (omega arith)
  drop-get zero zero d (x ∷ xs) h e = absurd (omega arith)
  drop-get zero (suc zero) d (x ∷ xs) h e = refl
  drop-get zero (suc (suc j)) d (x ∷ xs) h e = absurd (omega arith)
  drop-get (suc i) zero d (x ∷ xs) h e = absurd (omega arith)
  drop-get (suc i) (suc j) d (x ∷ xs) h e = drop-get i j d xs (omega arith) (omega arith)

  range_last :
      (n i j : ℕ) (d : A) (xs : List A)
      → i + n ≡ j
      → j < length xs
      → take (suc n) (drop i xs) ≡ take n (drop i xs) ++ (get_or xs j d ∷ [])
  range_last n i j d [] e h = absurd (omega arith)
  range_last zero zero zero d (x ∷ xs) e h = refl
  range_last n zero (suc j) d (x ∷ []) e h = absurd (omega arith)
  range_last zero zero (suc j) d (x ∷ y ∷ xs) e h = absurd (omega arith)
  range_last (suc n) zero zero d (x ∷ xs) e h = absurd (omega arith)
  range_last (suc n) zero (suc j) d (x ∷ y ∷ xs) e h =
      ap (λ l. x ∷ l) (range_last n zero j d (y ∷ xs) (omega arith) (omega arith))
  range_last n (suc i) zero d (x ∷ xs) e h = absurd (omega arith)
  range_last n (suc i) (suc j) d (x ∷ xs) e h = range_last n i j d xs (omega arith) (omega arith)

module _ {ℓ} {A : Type ℓ} (d : A) (f : A → A) where
  pub length-move_left : (k n i : ℕ) (xs : List A) → length (move_left d f k n i xs) ≡ length xs
  unfolding move_left
  length-move_left k zero i xs = refl
  length-move_left k (suc n) i xs =
      length-move_left k n (suc i) _ ∙ length-set xs i (f (get_or xs (i + k) d))

  pub length-move_right : (k n i : ℕ) (xs : List A) → length (move_right d f k n i xs) ≡ length xs
  unfolding move_right
  length-move_right k zero i xs = refl
  length-move_right k (suc n) i xs =
      length-move_right k n i _ ∙ length-set xs (i + k + n) (f (get_or xs (i + n) d))

  get_or-suc : (x : A) (xs : List A) (i j : ℕ) → suc i ≡ j → get_or (x ∷ xs) j d ≡ get_or xs i d
  get_or-suc x xs i zero e = absurd (omega arith)
  get_or-suc x xs i (suc j) e = ap (λ k. get_or xs k d) (omega arith)

  move_left-cons :
      (k n i : ℕ) (x : A) (xs : List A)
      → move_left d f k n (suc i) (x ∷ xs) ≡ x ∷ move_left d f k n i xs
  unfolding move_left
  move_left-cons k zero i x xs = refl
  move_left-cons k (suc n) i x xs =
      rw (get_or-suc x xs (i + k) (suc i + k) (omega arith)) (move_left-cons k n (suc i) x _)

  pub move_left_step :
      (k n i m : ℕ) (xs : List A)
      → i + k ≡ m
      → move_left d f k (suc n) i xs ≡ move_left d f k n (suc i) (set xs i (f (get_or xs m d)))
  unfolding move_left
  move_left_step k n i m xs e = ap (λ q. move_left d f k n (suc i) (set xs i (f (get_or xs q d)))) e

  -- `n` elements, from `m` on, stand from `i` on.
  pub move_left_lem :
      (k n i m j : ℕ) (xs : List A)
      → i + k ≡ m
      → i + n ≡ j
      → m + n ≤ length xs
      → move_left d f k n i xs ≡ take i xs ++ (map f (take n (drop m xs)) ++ drop j xs)
  move_left_lem k zero zero m zero xs e e' h = unfold move_left in refl
  move_left_lem k zero zero m (suc j) xs e e' h = absurd (omega arith)
  move_left_lem k (suc n) zero m zero xs e e' h = absurd (omega arith)
  move_left_lem k (suc n) zero m (suc j) [] e e' h = absurd (omega arith)
  move_left_lem k (suc n) zero m (suc j) (x ∷ xs) e e' h =
      move_left_step k n 0 m (x ∷ xs) e
      ∙ move_left-cons k n 0 _ xs
      ∙ ap (λ l. f (get_or (x ∷ xs) m d) ∷ l)
          (move_left_lem k n 0 m j xs e (omega arith) (omega arith))
      ∙ sym (
          ap (λ l. map f (take (suc n) l) ++ drop j xs)
            (drop-get m (suc m) d (x ∷ xs) (omega arith) (omega arith)))
  move_left_lem k n (suc i) zero j xs e e' h = absurd (omega arith)
  move_left_lem k n (suc i) m zero xs e e' h = absurd (omega arith)
  move_left_lem k n (suc i) (suc m) (suc j) [] e e' h = absurd (omega arith)
  move_left_lem k n (suc i) (suc m) (suc j) (x ∷ xs) e e' h =
      move_left-cons k n i x xs
      ∙ ap (λ l. x ∷ l) (move_left_lem k n i m j xs (omega arith) (omega arith) (omega arith))

  pub move_right_step :
      (k n i j : ℕ) (xs : List A)
      → i + k + n ≡ j
      → move_right d f k (suc n) i xs ≡ move_right d f k n i (set xs j (f (get_or xs (i + n) d)))
  unfolding move_right
  move_right_step k n i j xs e =
      ap (λ q. move_right d f k n i (set xs q (f (get_or xs (i + n) d)))) e

  last_moved :
      (n i : ℕ) (xs rest : List A)
      → i + n < length xs
      → map f (take n (drop i xs)) ++ (f (get_or xs (i + n) d) ∷ rest)
        ≡ map f (take (suc n) (drop i xs)) ++ rest
  last_moved n i xs rest h = rw (range_last n i (i + n) d xs refl h, map-append, append_assoc) refl

  -- `n` elements, from `i` on, stand from `m` on.
  pub move_right_lem :
      (k n i m j : ℕ) (xs : List A)
      → 0 < k
      → i + k ≡ m
      → m + n ≡ j
      → j ≤ length xs
      → move_right d f k n i xs ≡ take m xs ++ (map f (take n (drop i xs)) ++ drop j xs)
  move_right_lem k zero i m j xs p e e' h =
      unfold move_right in
      (sym (take-append-drop m xs) ∙ ap (λ q. take m xs ++ drop q xs) {y = j} (omega arith))
  move_right_lem k (suc n) i m zero xs p e e' h = absurd (omega arith)
  move_right_lem k (suc n) i m (suc j) xs p e e' h =
      let v = f (get_or xs (i + n) d) in
      move_right_step k n i j xs (omega arith)
      ∙ move_right_lem k n i m j (set xs j v) p e (omega arith) (omega (arith, length-set xs j v))
      ∙ rw
          (
            take-set m j v xs (omega arith),
            range-set n i j v xs (omega arith),
            drop-set_at j (suc j) v xs (omega arith) refl,
            last_moved n i xs (drop (suc j) xs) (omega arith),
          )
          refl
