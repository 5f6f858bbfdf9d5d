-- ===== src/Screen/Rewrapped.antt =====
-- The logical lines of ScreenBuffer::reflow, wrapped at a new width (src/terminal/screen_buffer.cpp).
use rivt.Base.{
  ℕ, zero, suc, ◌+◌, ◌-◌, ◌*◌, ◌<◌, ◌≤◌, ◌≡◌, refl, sym, ap, ◌∙◌, inl, inr, Bool, true, false, not,
  List, [], ◌∷◌, ◌++◌, append-nil, append_assoc, map, Option, length, take, drop, replicate,
  take-append-drop, length-drop, length-take, arith, if_same,
}
use mathlib.Core.List.{map-append}
use rivt.Base.Rotate.{lt-cases, drop_all, take_all}
use rivt.Snapshot.Cells.{Cell, Line, blank}
use rivt.Screen.Reflow.{is_nil, wrap_last, chunk_line, wrap_cells, wrap_line}

abbrev pub code_points : List Cell → List ℕ
code_points cells = map (λ c. c.codepoint) cells

-- The text of some lines, one behind the other.
abbrev pub rows_text : List Line → List ℕ
rows_text [] = []
rows_text (l ∷ ls) = code_points l.cells ++ rows_text ls

code_points-blank : (n : ℕ) → code_points (replicate n blank) ≡ replicate n b' '
code_points-blank zero = refl
code_points-blank (suc n) = ap (λ l. b' ' ∷ l) (code_points-blank n)

code_points-wrap_last : (cells : List Cell) → code_points (wrap_last cells) ≡ code_points cells
unfolding wrap_last
code_points-wrap_last [] = refl
code_points-wrap_last (c ∷ []) = refl
code_points-wrap_last (c ∷ d ∷ cs) = ap (λ l. c.codepoint ∷ l) (code_points-wrap_last (d ∷ cs))

code_points-chunk_line :
    (cols : ℕ) (cells : List Cell) (more : Bool)
    → code_points ((chunk_line cols cells more).cells)
      ≡ code_points cells ++ replicate (cols - length cells) b' '
unfolding chunk_line
code_points-chunk_line cols cells more =
    let padded = cells ++ replicate (cols - length cells) blank in
    if_same code_points more (wrap_last padded) padded (code_points padded)
      (λ _. code_points-wrap_last padded) (λ _. refl)
    ∙ map-append (λ (c : Cell). c.codepoint) cells (replicate (cols - length cells) blank)
    ∙ ap (λ l. code_points cells ++ l) (code_points-blank (cols - length cells))

-- A new line and those behind it.
pieces :
    (cols n : ℕ) (xs : List Cell)
    → (length xs ≤ cols → n ≡ 0)
    → (code_points (take cols xs) ++ replicate (cols - length (take cols xs)) b' ')
        ++ (code_points (drop cols xs) ++ replicate (n * cols - length (drop cols xs)) b' ')
      ≡ code_points xs ++ replicate (suc n * cols - length xs) b' '
pieces cols n xs h = elim (lt-cases cols (length xs)) [
  | inl g ↦
      ap
        (λ k.
          (code_points (take cols xs) ++ replicate k b' ')
          ++ (code_points (drop cols xs) ++ replicate (n * cols - length (drop cols xs)) b' '))
        {x = cols - length (take cols xs)} {y = 0} (omega (arith, length-take cols xs))
      ∙ ap
          (λ l.
            l ++ (code_points (drop cols xs) ++ replicate (n * cols - length (drop cols xs)) b' '))
          (append-nil (code_points (take cols xs)))
      ∙ sym (append_assoc (code_points (take cols xs)) (code_points (drop cols xs)) _)
      ∙ ap (λ l. l ++ replicate (n * cols - length (drop cols xs)) b' ')
          (sym (map-append (λ (c : Cell). c.codepoint) (take cols xs) (drop cols xs))
            ∙ ap code_points (take-append-drop cols xs))
      ∙ ap (λ k. code_points xs ++ replicate k b' ') {x = n * cols - length (drop cols xs)}
          {y = suc n * cols - length xs} (omega (arith, length-drop cols xs))
  | inr g ↦
      ap
        (λ l.
          (code_points l ++ replicate (cols - length l) b' ')
          ++ (code_points (drop cols xs) ++ replicate (n * cols - length (drop cols xs)) b' '))
        (take_all cols xs g)
      ∙ ap
          (λ l.
            (code_points xs ++ replicate (cols - length xs) b' ')
            ++ (code_points l ++ replicate (n * cols - length l) b' '))
          (drop_all cols xs g)
      ∙ ap (λ k. (code_points xs ++ replicate (cols - length xs) b' ') ++ replicate k b' ')
          {x = n * cols - 0} {y = 0} (ap (λ m. m * cols - 0) (h g) ∙ omega arith)
      ∙ append-nil (code_points xs ++ replicate (cols - length xs) b' ')
      ∙ ap (λ k. code_points xs ++ replicate k b' ') {x = cols - length xs}
          {y = suc n * cols - length xs}
          (omega arith ∙ ap (λ m. suc m * cols - length xs) {x = 0} {y = n} (sym (h g)))
]

wrap_cells-nil :
    (f cols : ℕ) (cur : Option ℕ) (position base : ℕ)
    → (wrap_cells f cols cur position base []).0 ≡ []
unfolding wrap_cells
wrap_cells-nil zero cols cur position base = refl
wrap_cells-nil (suc f) cols cur position base = refl

wrap_cells-text :
    (f cols : ℕ) (cur : Option ℕ) (position base : ℕ) (cells : List Cell)
    → 0 < cols
    → length cells ≤ f
    → rows_text ((wrap_cells f cols cur position base cells).0)
      ≡ code_points cells
        ++ replicate
            (length ((wrap_cells f cols cur position base cells).0) * cols - length cells)
            b' '
unfolding wrap_cells
wrap_cells-text zero cols cur position base [] p h =
    ap (λ k. replicate k b' ') {x = 0} {y = 0 * cols - 0} (omega arith)
wrap_cells-text zero cols cur position base (c ∷ cs) p h = absurd (omega arith)
wrap_cells-text (suc f) cols cur position base [] p h =
    ap (λ k. replicate k b' ') {x = 0} {y = 0 * cols - 0} (omega arith)
wrap_cells-text (suc f) cols cur position base (c ∷ cs) p h =
    let rest = drop cols (c ∷ cs) in
    let made = (wrap_cells f cols cur (position + cols) (suc base) rest).0 in
    ap (λ l. l ++ rows_text made)
      (code_points-chunk_line cols (take cols (c ∷ cs)) (not (is_nil rest)))
    ∙ ap
        (λ l.
          (code_points (take cols (c ∷ cs)) ++ replicate (cols - length (take cols (c ∷ cs))) b' ')
          ++ l)
        (wrap_cells-text f cols cur (position + cols) (suc base) rest p
          (omega (arith, length-drop cols (c ∷ cs))))
    ∙ pieces cols (length made) (c ∷ cs) (λ g.
      ap (λ l. length ((wrap_cells f cols cur (position + cols) (suc base) l).0))
        (drop_all cols (c ∷ cs) g)
      ∙ ap length (wrap_cells-nil f cols cur (position + cols) (suc base)))

-- Of `n` lines that hold a logical line all but the last are marked as wrapped.
abbrev pub wrap_marks : ℕ → List Bool
wrap_marks zero = []
wrap_marks (suc zero) = false ∷ []
wrap_marks (suc (suc n)) = true ∷ wrap_marks (suc n)

wrap_cells-marks :
    (f cols : ℕ) (cur : Option ℕ) (position base : ℕ) (cells : List Cell)
    → 0 < cols
    → length cells ≤ f
    → map (λ (l : Line). l.wrapped) ((wrap_cells f cols cur position base cells).0)
      ≡ wrap_marks (length ((wrap_cells f cols cur position base cells).0))
unfolding wrap_cells
wrap_cells-marks zero cols cur position base cells p h = refl
wrap_cells-marks (suc f) cols cur position base [] p h = refl
wrap_cells-marks (suc f) cols cur position base (c ∷ cs) p h =
    let rest = drop cols (c ∷ cs) in
    let fits : length rest ≤ f = omega (arith, length-drop cols (c ∷ cs)) in
    go rest fits (wrap_cells-marks f cols cur (position + cols) (suc base) rest p fits)
  where
    more :
        (g : ℕ) (d : Cell) (ds : List Cell)
        → suc (length ds) ≤ g
        → true
            ∷ wrap_marks (length ((wrap_cells g cols cur (position + cols) (suc base) (d ∷ ds)).0))
          ≡ wrap_marks
              (suc (length ((wrap_cells g cols cur (position + cols) (suc base) (d ∷ ds)).0)))
    more zero d ds g = absurd (omega arith)
    more (suc n) d ds g = refl

    go :
        (rest : List Cell)
        → length rest ≤ f
        → map
            (λ (l : Line). l.wrapped)
            ((wrap_cells f cols cur (position + cols) (suc base) rest).0)
          ≡ wrap_marks (length ((wrap_cells f cols cur (position + cols) (suc base) rest).0))
        → not (is_nil rest)
            ∷ map
                (λ (l : Line). l.wrapped)
                ((wrap_cells f cols cur (position + cols) (suc base) rest).0)
          ≡ wrap_marks (suc (length ((wrap_cells f cols cur (position + cols) (suc base) rest).0)))
    go [] g ih =
        ap (λ ls. false ∷ map (λ (l : Line). l.wrapped) ls)
          (wrap_cells-nil f cols cur (position + cols) (suc base))
        ∙ ap (λ (ls : List Line). wrap_marks (suc (length ls)))
            (sym (wrap_cells-nil f cols cur (position + cols) (suc base)))
    go (d ∷ ds) g ih = ap (λ l. true ∷ l) ih ∙ more f d ds g

-- At any positive width, the lines that a logical line is wrapped into hold its text, one behind the
-- other and with nothing but spaces behind it, and all but the last are marked as going on.
pub wrap_line_lem :
    (cols base : ℕ) (cursor : Option ℕ) (cells : List Cell)
    → 0 < cols
    → let made = (wrap_line cols base cursor cells).0 in
      (rows_text made ≡ code_points cells ++ replicate (length made * cols - length cells) b' ')
      × (map (λ (l : Line). l.wrapped) made ≡ wrap_marks (length made))
unfolding wrap_line
wrap_line_lem cols base cursor [] p = (
  append-nil (code_points (replicate cols blank))
      ∙ code_points-blank cols
      ∙ ap (λ k. replicate k b' ') {x = cols} {y = 1 * cols - 0} (omega arith),
  refl,
)
wrap_line_lem cols base cursor (c ∷ cs) p = (
  wrap_cells-text (suc (length cs)) cols cursor 0 base (c ∷ cs) p (omega arith),
  wrap_cells-marks (suc (length cs)) cols cursor 0 base (c ∷ cs) p (omega arith),
)
