-- ===== src/Screen/Scrolled.antt =====
-- Scrolling moves the rows of its region (src/terminal/screen_buffer.cpp), whether the ring buffer is
-- turned or the lines are copied.
use rivt.Base.{
  ℕ, zero, suc, ◌-◌, ◌<◌, ◌≤◌, ◌≡◌, refl, sym, ap, ◌∙◌, min, true, not, ◌&&◌, List, ◌++◌, map,
  length, set, take, drop, ◌==◌, arith, if_same, if◌then◌else◌,
}
use rivt.Base.Moves.{move_left}
use rivt.Base.Change.{change_part, change_part-twice, change_nothing, length-part}
use rivt.Base.Shift.{
  step_up, step_down, moved_up, moved_down, moved_up-suc, moved_down-suc, moved_up-min,
  moved_down-min, moved_up-zero, moved_down-zero, length-step_up, length-step_down,
}
use rivt.Base.Parts.{move_left-step_up, move_right-step_down, change_all}
use rivt.Snapshot.Cells.{Line}
use rivt.Screen.State.{Screen, blank_line}
use rivt.Screen.Scroll.{
  save_top, shift_up, shift_down, rotate_up, rotate_down, scroll_up_once, scroll_down_once, repeat,
  scroll_up, scroll_down,
}
use rivt.Screen.WellFormed.{IsScreen-rows, IsScreen-cols, if-IsScreen}
use rivt.Screen.Fits.{IsScreen}
use rivt.Screen.Invariant.Scroll.{
  save_top-IsScreen, shift_up-IsScreen, shift_down-IsScreen, scroll_up_once-IsScreen,
  scroll_down_once-IsScreen,
}
use rivt.Screen.Turned.{fresh, save_top-rows_of, text_of-rotate_up, text_of-rotate_down}
use rivt.Screen.Lines.{
  clean, text_of, no_line, length-text_of, text_of-put_sline, text_of-shift_up, text_of-shift_down,
}

module _ (cols rows : ℕ) where
  -- The region that scrolls is the whole screen, or not.
  whole_region :
      (top stop : ℕ) (s : Screen)
      → IsScreen cols rows s
      → (top == 0 && stop == s.rows) ≡ true
      → (top ≡ 0) × (stop ≡ rows)
  whole_region top stop s v h = ground (arith, IsScreen-rows cols rows s v)

  -- What is saved of the top row first changes no row.
  module _ (top : ℕ) (s : Screen) (v : IsScreen cols rows s) where
    abbrev top_saved : Screen
    top_saved = if top == 0 && not s.using_alt_screen then save_top s else s

    top_saved-IsScreen : IsScreen cols rows top_saved
    top_saved-IsScreen =
        if-IsScreen cols rows (top == 0 && not s.using_alt_screen) (save_top s) s
          (save_top-IsScreen cols rows s v) v

    text_of-top_saved : text_of top_saved ≡ text_of s
    text_of-top_saved =
        if_same text_of (top == 0 && not s.using_alt_screen) (save_top s) s (text_of s)
          (λ _. ap (map clean) (save_top-rows_of s)) (λ _. refl)

    fresh-top_saved : fresh top_saved ≡ fresh s
    fresh-top_saved =
        ap (λ k. clean (blank_line k))
          (IsScreen-cols cols rows top_saved top_saved-IsScreen ∙ sym (IsScreen-cols cols rows s v))

  -- One line up: the region loses its first row.
  scroll_up_once_lem :
      (top stop : ℕ) (s : Screen)
      → IsScreen cols rows s
      → top < stop
      → stop ≤ rows
      → text_of (scroll_up_once top stop s) ≡ change_part top stop (step_up (fresh s)) (text_of s)
  unfolding scroll_up_once
  scroll_up_once_lem top stop s v h g =
      let saved = top_saved top s v in
      let w = top_saved-IsScreen top s v in
      let n = stop - 1 - top in
      if_same text_of (top == 0 && stop == s.rows) (rotate_up saved) _ _
        (λ e.
          text_of-rotate_up cols rows saved w
          ∙ ap (λ b. step_up b (text_of saved)) (fresh-top_saved top s v)
          ∙ ap (step_up (fresh s)) (text_of-top_saved top s v)
          ∙ sym (change_all rows (step_up (fresh s)) (text_of s) (length-text_of cols rows s v))
          ∙ ap (λ k. change_part k rows (step_up (fresh s)) (text_of s))
              (sym ((whole_region top stop s v e).0))
          ∙ ap (λ k. change_part top k (step_up (fresh s)) (text_of s))
              (sym ((whole_region top stop s v e).1)))
        (λ _.
          text_of-put_sline cols rows (shift_up n top saved)
            (shift_up-IsScreen cols rows n top saved w) (stop - 1) (blank_line s.cols) (omega arith)
          ∙ ap (λ l. set l (stop - 1) (fresh s))
              (text_of-shift_up cols rows n top saved w (omega arith)
                ∙ ap (move_left no_line (λ l. l) 1 n top) (text_of-top_saved top s v))
          ∙ move_left-step_up (fresh s) no_line n top stop (text_of s) (omega arith)
              (omega (arith, length-text_of cols rows s v)))

  -- One line down: it loses its last.
  scroll_down_once_lem :
      (top stop : ℕ) (s : Screen)
      → IsScreen cols rows s
      → top < stop
      → stop ≤ rows
      → text_of (scroll_down_once top stop s)
        ≡ change_part top stop (step_down (fresh s)) (text_of s)
  unfolding scroll_down_once
  scroll_down_once_lem top stop s v h g =
      let n = stop - 1 - top in
      if_same text_of (top == 0 && stop == s.rows) (rotate_down s) _ _
        (λ e.
          text_of-rotate_down cols rows s v
          ∙ sym (change_all rows (step_down (fresh s)) (text_of s) (length-text_of cols rows s v))
          ∙ ap (λ k. change_part k rows (step_down (fresh s)) (text_of s))
              (sym ((whole_region top stop s v e).0))
          ∙ ap (λ k. change_part top k (step_down (fresh s)) (text_of s))
              (sym ((whole_region top stop s v e).1)))
        (λ _.
          text_of-put_sline cols rows (shift_down n top s) (shift_down-IsScreen cols rows n top s v)
            top (blank_line s.cols) (omega arith)
          ∙ ap (λ l. set l top (fresh s)) (text_of-shift_down cols rows n top s v (omega arith))
          ∙ move_right-step_down (fresh s) no_line n top stop (text_of s) (omega arith)
              (omega (arith, length-text_of cols rows s v)))

  fresh_same : (s t : Screen) → IsScreen cols rows s → IsScreen cols rows t → fresh t ≡ fresh s
  fresh_same s t v w =
      ap (λ k. clean (blank_line k))
        (IsScreen-cols cols rows t w ∙ sym (IsScreen-cols cols rows s v))

  -- Rounds that are each a step are a move by their number.
  repeat_lem :
      (n top stop : ℕ) (body : Screen → Screen) (step : Line → List Line → List Line)
      (moved : Line → ℕ → List Line → List Line) (s : Screen)
      → ((t : Screen) → IsScreen cols rows t → IsScreen cols rows (body t))
      → (top < stop
          → (t : Screen) → IsScreen cols rows t
          → text_of (body t) ≡ change_part top stop (step (fresh t)) (text_of t))
      → ((b : Line) (l : List Line) → length (step b l) ≡ length l)
      → ((b : Line) (l : List Line) → moved b 0 l ≡ l)
      → ((b : Line) (k : ℕ) (l : List Line) → moved b k (step b l) ≡ moved b (suc k) l)
      → top ≤ stop
      → stop ≤ rows
      → n ≤ stop - top
      → IsScreen cols rows s
      → text_of (repeat n body s) ≡ change_part top stop (moved (fresh s) n) (text_of s)
  repeat_lem zero top stop body step moved s i e k z m h g l v = sym (
      ap (λ l. take top (text_of s) ++ (l ++ drop stop (text_of s))) (z (fresh s) _)
      ∙ change_nothing top stop (text_of s) h)
  repeat_lem (suc n) top stop body step moved s i e k z m h g l v =
      repeat_lem n top stop body step moved (body s) i e k z m h g (omega arith) (i s v)
      ∙ ap (λ b. change_part top stop (moved b n) (text_of (body s)))
          (fresh_same s (body s) v (i s v))
      ∙ ap (change_part top stop (moved (fresh s) n)) (e (omega arith) s v)
      ∙ change_part-twice top stop (step (fresh s)) (moved (fresh s) n) (text_of s) h
          (omega (arith, length-text_of cols rows s v)) (k (fresh s))
      ∙ ap (λ l. take top (text_of s) ++ (l ++ drop stop (text_of s))) (m (fresh s) n _)

  -- In a well-formed screen, scrolling a region up by a count moves its rows up by as many, with empty
  -- rows behind them, and changes no row outside of it.
  pub scroll_up_lem :
      (top stop count : ℕ) (s : Screen)
      → IsScreen cols rows s
      → top ≤ stop
      → stop ≤ rows
      → text_of (scroll_up top stop count s)
        ≡ change_part top stop (moved_up (fresh s) count) (text_of s)
  unfolding scroll_up
  scroll_up_lem top stop count s v h g =
      repeat_lem (min count (stop - top)) top stop (scroll_up_once top stop) step_up moved_up s
        (scroll_up_once-IsScreen cols rows top stop) (λ k t w. scroll_up_once_lem top stop t w k g)
        length-step_up moved_up-zero moved_up-suc h g (omega arith) v
      ∙ ap (λ l. take top (text_of s) ++ (l ++ drop stop (text_of s)))
          (moved_up-min (fresh s) count (stop - top) _
            (length-part top stop (text_of s) (omega (arith, length-text_of cols rows s v))))

  -- In a well-formed screen, scrolling a region down by a count moves its rows down by as many, with
  -- empty rows in front of them, and changes no row outside of it.
  pub scroll_down_lem :
      (top stop count : ℕ) (s : Screen)
      → IsScreen cols rows s
      → top ≤ stop
      → stop ≤ rows
      → text_of (scroll_down top stop count s)
        ≡ change_part top stop (moved_down (fresh s) count) (text_of s)
  unfolding scroll_down
  scroll_down_lem top stop count s v h g =
      repeat_lem (min count (stop - top)) top stop (scroll_down_once top stop) step_down moved_down
        s (scroll_down_once-IsScreen cols rows top stop)
        (λ k t w. scroll_down_once_lem top stop t w k g) length-step_down moved_down-zero
        moved_down-suc h g (omega arith) v
      ∙ ap (λ l. take top (text_of s) ++ (l ++ drop stop (text_of s)))
          (moved_down-min (fresh s) count (stop - top) _
            (length-part top stop (text_of s) (omega (arith, length-text_of cols rows s v))))
