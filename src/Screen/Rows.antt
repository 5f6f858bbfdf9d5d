-- ===== src/Screen/Rows.antt =====
-- Cells put into a row and taken out of it (src/terminal/screen_buffer.cpp).
use rivt.Base.{
  ℕ, zero, suc, ◌+◌, ◌-◌, ◌<◌, ◌≤◌, ◌≡◌, refl, sym, ap, ◌∙◌, inl, inr, min, List, [], ◌∷◌, ◌++◌,
  append-nil, append_assoc, length, take, drop, replicate, length-append, length-take, length-drop,
  take-append_le, leb, arith, if◌then◌else◌, some, none, lt→ltb, ◌^◌,
}
use rivt.Base.Moves.{move_left, move_right, fill, fill_lem, move_left_lem, move_right_lem}
use rivt.Base.Rotate.{drop_all, lt-cases}
use rivt.Base.Change.{change_part, take_at, drop_at, drop-drop, length-part}
use rivt.Base.Shift.{moved_up, moved_down, take-take}
use rivt.Base.Parts.{map_id}
use rivt.Snapshot.Cells.{Cell, blank}
use rivt.Screen.Edit.{insert_cells, delete_cells}

module _ {ℓ} {A : Type ℓ} where
  take_nil : (n : ℕ) → take {A = A} n [] ≡ []
  take_nil zero = refl
  take_nil (suc n) = refl

  drop-take : (n k : ℕ) (xs : List A) → drop n (take k xs) ≡ take (k - n) (drop n xs)
  drop-take zero k xs = ap (λ j. take j xs) (omega arith)
  drop-take (suc n) zero xs = ap (λ j. take j (drop (suc n) xs)) {x = 0} (omega arith)
  drop-take (suc n) (suc k) [] = sym (take_nil (suc k - suc n))
  drop-take (suc n) (suc k) (x ∷ xs) = drop-take n k xs ∙ ap (λ j. take j (drop n xs)) (omega arith)

module _ (v : Cell) (cols col count : ℕ) (cells : List Cell) (e : length cells ≡ cols)
    (h : col ≤ cols) where
  abbrev part : List Cell
  part = take (cols - col) (drop col cells)

  part_lem : length part ≡ cols - col
  part_lem = length-part col cols cells (omega arith)

  front : length (take col cells) ≡ col
  front = omega (arith, length-take col cells)

  -- Where delete_chars begins to fill.
  abbrev fill_from : ℕ
  fill_from = if leb col (cols - count) then cols - count else col

  -- All of the row from `col` on is filled.
  filled :
      fill v (cols - col) col cells
      ≡ take col cells ++ (replicate (cols - col) v ++ drop cols cells)
  filled = fill_lem v (cols - col) col cols cells (omega arith) (omega arith)

  -- The part that a move leaves, and the cells that are filled in.
  inserted :
      count ≤ cols - col
      → moved_down v count part ≡ replicate count v ++ take (cols - (col + count)) (drop col cells)
  inserted g =
      ap (λ n. replicate n v ++ take (length part - count) part) {y = count}
        (omega (arith, part_lem))
      ∙ ap (λ n. replicate count v ++ take n part) {y = cols - (col + count)}
          (omega (arith, part_lem))
      ∙ ap (λ l. replicate count v ++ l)
          (take-take v (cols - (col + count)) (cols - col) (drop col cells) (omega arith))

  deleted :
      count ≤ cols - col
      → moved_up v count part
        ≡ take (cols - count - col) (drop (col + count) cells) ++ replicate count v
  deleted g =
      ap (λ n. drop count part ++ replicate n v) {y = count} (omega (arith, part_lem))
      ∙ ap (λ l. l ++ replicate count v)
          (drop-take count (cols - col) (drop col cells)
            ∙ ap (take (cols - col - count)) (drop-drop col count (col + count) cells refl)
            ∙ ap (λ n. take n (drop (col + count) cells)) (omega arith))

  -- All that is there is lost.
  inserted_all : cols - col ≤ count → moved_down v count part ≡ replicate (cols - col) v
  inserted_all g =
      ap (λ n. replicate n v ++ take (length part - count) part) {y = cols - col}
        (omega (arith, part_lem))
      ∙ ap (λ n. replicate (cols - col) v ++ take n part) {y = 0} (omega (arith, part_lem))
      ∙ append-nil (replicate (cols - col) v)

  deleted_all : cols - col ≤ count → moved_up v count part ≡ replicate (cols - col) v
  deleted_all g =
      ap (λ l. l ++ replicate (min count (length part)) v)
        (drop_all count part (omega (arith, part_lem)))
      ∙ ap (λ n. replicate n v) (omega (arith, part_lem))

  moved_right :
      0 < count
      → fill v
          (min (col + count) cols - col)
          col
          (move_right blank (λ c. c) count (cols - (col + count)) col cells)
        ≡ change_part col cols (moved_down v count) cells
  moved_right p = elim (lt-cases cols (col + count)) [
    | inl g ↦
        let whole : fill v (min (col + count) cols - col) col
              (move_right blank (λ c. c) count 0 col cells)
            ≡ fill v (cols - col) col cells =
          unfold move_right in
          (ap (λ n. fill v n col cells) {x = min (col + count) cols - col} {y = cols - col}
            (omega arith)) in
        ap
          (λ n.
            fill v (min (col + count) cols - col) col (move_right blank (λ c. c) count n col cells))
          {x = cols - (col + count)} {y = 0} (omega arith)
        ∙ whole
        ∙ filled
        ∙ ap (λ l. take col cells ++ (l ++ drop cols cells)) (sym (inserted_all (omega arith)))
    | inr g ↦
        let n = cols - (col + count) in
        let kept = take n (drop col cells) in
        ap (λ k. fill v k col (move_right blank (λ c. c) count n col cells))
          {x = min (col + count) cols - col} {y = count} (omega arith)
        ∙ ap (fill v count col) (
            move_right_lem blank (λ c. c) count n col (col + count) cols cells p refl (omega arith)
              (omega arith)
            ∙ ap (λ l. take (col + count) cells ++ (l ++ drop cols cells)) (map_id kept))
        ∙ fill_lem v count col (col + count) _ refl (
            omega (
              arith,
              length-append (take (col + count) cells) (kept ++ drop cols cells),
              length-take (col + count) cells,
            ))
        ∙ ap
            (λ l.
              l
              ++ (replicate count v
                  ++ drop (col + count) (take (col + count) cells ++ (kept ++ drop cols cells))))
            (take-append_le col (take (col + count) cells) (kept ++ drop cols cells)
                (omega (arith, length-take (col + count) cells))
              ∙ take-take v col (col + count) cells (omega arith))
        ∙ ap (λ l. take col cells ++ (replicate count v ++ l))
            (drop_at (col + count) 0 (col + count) (take (col + count) cells)
              (kept ++ drop cols cells) (omega (arith, length-take (col + count) cells))
              (omega arith))
        ∙ ap (λ l. take col cells ++ l)
            (sym (append_assoc (replicate count v) kept (drop cols cells))
              ∙ ap (λ l. l ++ drop cols cells) (sym (inserted (omega arith))))
  ]

  -- Cells that are inserted at `col`, so few that `col + count` is an int, move those behind them to the
  -- right, and those at the end of the row are lost.
  pub insert_cells_lem :
      0 < count
      → col + count < 2 ^ 31
      → insert_cells cols col count v cells ≡ some (change_part col cols (moved_down v count) cells)
  unfolding insert_cells
  insert_cells_lem p g =
      let cells' =
        fill v (min (col + count) cols - col) col
          (move_right blank (λ c. c) count (cols - (col + count)) col cells) in
      ap (λ b. if b then some cells' else none) (lt→ltb (col + count) (2 ^ 31) g)
      ∙ ap some (moved_right p)

  -- Cells that are deleted at `col` let those behind them move to the left, and empty ones are put at
  -- the end of the row.
  pub delete_cells_lem :
      delete_cells cols col count v cells ≡ change_part col cols (moved_up v count) cells
  unfolding delete_cells
  delete_cells_lem = elim (lt-cases cols (col + count)) [
    | inl g ↦
        ap (λ n. fill v (cols - fill_from) fill_from (move_left blank (λ c. c) count n col cells))
          {x = cols - count - col} {y = 0} (omega arith)
        ∙ (unfold move_left in
            (ap (λ k. fill v (cols - k) k cells) {x = fill_from} {y = col} (ground arith)))
        ∙ filled
        ∙ ap (λ l. take col cells ++ (l ++ drop cols cells)) (sym (deleted_all (omega arith)))
    | inr g ↦
        let n = cols - count - col in
        let kept = take n (drop (col + count) cells) in
        let len : length kept ≡ n =
          omega
            (arith, length-take n (drop (col + count) cells), length-drop (col + count) cells) in
        let end : length (take col cells ++ kept) ≡ cols - count =
          omega (arith, length-append (take col cells) kept, front, len) in
        ap (λ k. fill v (cols - k) k (move_left blank (λ c. c) count n col cells)) {x = fill_from}
          {y = cols - count} (ground arith)
        ∙ ap (λ k. fill v k (cols - count) (move_left blank (λ c. c) count n col cells))
            {x = cols - (cols - count)} {y = count} (omega arith)
        ∙ ap (fill v count (cols - count)) (
            move_left_lem blank (λ c. c) count n col (col + count) (cols - count) cells refl
              (omega arith) (omega arith)
            ∙ ap (λ l. take col cells ++ (l ++ drop (cols - count) cells)) (map_id kept)
            ∙ sym (append_assoc (take col cells) kept (drop (cols - count) cells)))
        ∙ fill_lem v count (cols - count) cols _ (omega arith) (
            omega (
              arith,
              length-append (take col cells ++ kept) (drop (cols - count) cells),
              end,
              length-drop (cols - count) cells,
            ))
        ∙ ap
            (λ l.
              l
              ++ (replicate count v
                  ++ drop cols ((take col cells ++ kept) ++ drop (cols - count) cells)))
            (take_at (cols - count) (take col cells ++ kept) (drop (cols - count) cells) end)
        ∙ ap (λ l. (take col cells ++ kept) ++ (replicate count v ++ l))
            (drop_at (cols - count) count cols (take col cells ++ kept) (drop (cols - count) cells)
                end (omega arith)
              ∙ drop-drop (cols - count) count cols cells (omega arith))
        ∙ append_assoc (take col cells) kept (replicate count v ++ drop cols cells)
        ∙ ap (λ l. take col cells ++ l)
            (sym (append_assoc kept (replicate count v) (drop cols cells))
              ∙ ap (λ l. l ++ drop cols cells) (sym (deleted (omega arith))))
  ]
