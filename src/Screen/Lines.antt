-- ===== src/Screen/Lines.antt =====
-- The ring buffer of `ScreenBuffer` (src/terminal/screen_buffer.h) as the list of its rows, without
-- their dirty flags.
use rivt.Base.{
  ℕ, zero, suc, ◌+◌, ◌<◌, ◌≡◌, refl, sym, ap, ◌∙◌, false, List, [], ◌∷◌, map, length, get_or, set,
  length-map, arith,
}
use rivt.Base.Moves.{move_left, move_right, move_left_step, move_right_step}
use rivt.Base.Rotate.{get_or-rotated, rotated-set, length-rotated}
use rivt.Snapshot.Cells.{Line}
use rivt.Screen.State.{Screen, blank_line, mark_dirty, physical, sline, put_sline, rows_of}
use rivt.Screen.Scroll.{shift_up, shift_down}
use rivt.Screen.WellFormed.{IsScreen-Grid, IsScreen-top}
use rivt.Screen.Fits.{IsScreen}
use rivt.Screen.Invariant.Scroll.{put_line-IsScreen}

abbrev pub clean : Line → Line
clean l = record l { dirty = false }

-- The rows from the top of the screen to its bottom.
abbrev pub text_of : Screen → List Line
text_of s = map clean (rows_of s)

map-set :
    (xs : List Line) (i : ℕ) (v : Line) → map clean (set xs i v) ≡ set (map clean xs) i (clean v)
map-set [] i v = refl
map-set (x ∷ xs) zero v = refl
map-set (x ∷ xs) (suc i) v = ap (λ l. clean x ∷ l) (map-set xs i v)

get_or-map :
    (xs : List Line) (i : ℕ) (d e : Line)
    → i < length xs
    → get_or (map clean xs) i d ≡ clean (get_or xs i e)
get_or-map [] i d e h = absurd (omega arith)
get_or-map (x ∷ xs) zero d e h = refl
get_or-map (x ∷ xs) (suc i) d e h = get_or-map xs i d e (omega arith)

abbrev pub no_line : Line
no_line = blank_line 0

module _ (cols rows : ℕ) (s : Screen) (v : IsScreen cols rows s) where
  pub length-text_of : length (text_of s) ≡ rows
  length-text_of =
      length-map (rows_of s) clean
      ∙ length-rotated s.screen_top s.screen
      ∙ (IsScreen-Grid cols rows s v).size_ok

  pub text_of-sline : (row : ℕ) → row < rows → clean (sline s row) ≡ get_or (text_of s) row no_line
  unfolding sline physical
  text_of-sline row h =
      let e = (IsScreen-Grid cols rows s v).size_ok in
      ap clean (
        sym (
          get_or-rotated s.screen_top row s.screen no_line
            (omega (arith, e, IsScreen-top cols rows s v)) (omega (arith, e))))
      ∙ sym (
          get_or-map (rows_of s) row no_line no_line
            (omega (arith, length-rotated s.screen_top s.screen, e)))

  -- A write of a row is a write of the list.
  pub text_of-put_sline :
      (row : ℕ) (l : Line)
      → row < rows
      → text_of (put_sline row l s) ≡ set (text_of s) row (clean l)
  unfolding put_sline physical
  text_of-put_sline row l h =
      let e = (IsScreen-Grid cols rows s v).size_ok in
      ap (map clean) (
        rotated-set s.screen_top row s.screen l (omega (arith, e, IsScreen-top cols rows s v))
          (omega (arith, e)))
      ∙ map-set (rows_of s) row l

  pub text_of-put_line :
      (row from : ℕ)
      → row < rows
      → from < rows
      → text_of (put_sline row (mark_dirty (sline s from)) s)
        ≡ set (text_of s) row (get_or (text_of s) from no_line)
  text_of-put_line row from h g =
      text_of-put_sline row (mark_dirty (sline s from)) h
      ∙ ap (set (text_of s) row) (text_of-sline from g)

module _ (cols rows : ℕ) where
  pub text_of-shift_up :
      (n r : ℕ) (s : Screen)
      → IsScreen cols rows s
      → r + n < rows
      → text_of (shift_up n r s) ≡ move_left no_line (λ l. l) 1 n r (text_of s)
  unfolding shift_up
  text_of-shift_up zero r s v h = unfold move_left in refl
  text_of-shift_up (suc n) r s v h =
      text_of-shift_up n (suc r) _ (put_line-IsScreen cols rows r (suc r) s s v v) (omega arith)
      ∙ ap (move_left no_line (λ l. l) 1 n (suc r))
          (text_of-put_line cols rows s v r (suc r) (omega arith) (omega arith))
      ∙ sym (move_left_step no_line (λ l. l) 1 n r (suc r) (text_of s) (omega arith))

  pub text_of-shift_down :
      (n top : ℕ) (s : Screen)
      → IsScreen cols rows s
      → top + n < rows
      → text_of (shift_down n top s) ≡ move_right no_line (λ l. l) 1 n top (text_of s)
  unfolding shift_down
  text_of-shift_down zero top s v h = unfold move_right in refl
  text_of-shift_down (suc n) top s v h =
      text_of-shift_down n top _ (put_line-IsScreen cols rows (top + suc n) (top + n) s s v v)
        (omega arith)
      ∙ ap (move_right no_line (λ l. l) 1 n top)
          (text_of-put_line cols rows s v (top + suc n) (top + n) (omega arith) (omega arith))
      ∙ sym (move_right_step no_line (λ l. l) 1 n top (top + suc n) (text_of s) (omega arith))
