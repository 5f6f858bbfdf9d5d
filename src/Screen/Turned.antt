-- ===== src/Screen/Turned.antt =====
-- The rows of the screen when the ring buffer is turned (src/terminal/screen_buffer.cpp).
use rivt.Base.{
  ℕ, zero, suc, ◌+◌, ◌-◌, ◌%◌, ◌<◌, ◌≡◌, refl, sym, ap, ◌∙◌, List, [], ◌∷◌, ◌++◌, map, length,
  length-set, arith, if_same,
}
use mathlib.Core.List.{map-append}
use rivt.Base.Int.{ltb_ℤ, pos}
use rivt.Base.Rotate.{rotated, rotated-next, turn}
use rivt.Base.Shift.{step_up, step_down}
use rivt.Base.Parts.{set-get_or, turn-set, step_down-turn, back_and_forth}
use rivt.Snapshot.Cells.{Line}
use rivt.Screen.State.{Screen, blank_line, sline, put_sline, rows_of}
use rivt.Screen.Scroll.{
  pop_scrollback, trim_scrollback, push_scrollback, save_top, rotate_up, rotate_down,
}
use rivt.Screen.WellFormed.{IsScreen-Grid, IsScreen-top, IsScreen-rows}
use rivt.Screen.Fits.{IsScreen}
use rivt.Screen.Invariant.Scroll.{put_blank-IsScreen, set_top-IsScreen}
use rivt.Screen.Lines.{clean, text_of, no_line, text_of-put_sline, text_of-put_line}

-- The empty row that scrolling brings in.
abbrev pub fresh : Screen → Line
fresh s = clean (blank_line s.cols)

trim_scrollback-rows_of : (f : ℕ) (s : Screen) → rows_of (trim_scrollback f s) ≡ rows_of s
unfolding trim_scrollback pop_scrollback
trim_scrollback-rows_of zero s = refl
trim_scrollback-rows_of (suc f) s =
    if_same rows_of (ltb_ℤ s.scrollback_limit (pos (length s.scrollback))) _ s (rows_of s)
      (λ _. trim_scrollback-rows_of f (pop_scrollback s)) (λ _. refl)

push_scrollback-rows_of : (l : Line) (s : Screen) → rows_of (push_scrollback l s) ≡ rows_of s
unfolding push_scrollback
push_scrollback-rows_of l s =
    if_same rows_of s.using_alt_screen s _ (rows_of s) (λ _. refl)
      (λ _.
        trim_scrollback-rows_of (suc (length s.scrollback))
          (record s { scrollback = s.scrollback ++ (l ∷ []) }))

pub save_top-rows_of : (s : Screen) → rows_of (save_top s) ≡ rows_of s
unfolding save_top
save_top-rows_of s = push_scrollback-rows_of (sline s 0) s

map-turn : (xs : List Line) → map clean (turn xs) ≡ turn (map clean xs)
map-turn [] = refl
map-turn (x ∷ xs) = map-append clean xs (x ∷ [])

module _ (cols rows : ℕ) where
  -- The rows after a turn of the ring buffer.
  text_of-turned :
      (s : Screen) (n : ℕ)
      → IsScreen cols rows s
      → length s.screen ≡ n
      → text_of (record s { screen_top = (s.screen_top + 1) % n }) ≡ turn (text_of s)
  text_of-turned s n v e =
      ap (λ k. map clean (rotated ((s.screen_top + 1) % k) s.screen)) (sym e)
      ∙ ap (map clean) (
          rotated-next s.screen_top s.screen no_line
            (omega (arith, IsScreen-top cols rows s v, (IsScreen-Grid cols rows s v).size_ok)))
      ∙ map-turn (rows_of s)

  turned_wiped :
      (s : Screen)
      → IsScreen cols rows s
      → text_of (record (put_sline 0 (blank_line s.cols) s) {
        screen_top = (s.screen_top + 1) % length s.screen;
      })
        ≡ turn (text_of (put_sline 0 (blank_line s.cols) s))
  unfolding put_sline
  turned_wiped s v =
      text_of-turned (put_sline 0 (blank_line s.cols) s) (length s.screen)
        (put_blank-IsScreen cols rows 0 s s v v) (length-set s.screen _ (blank_line s.cols))

  pub text_of-rotate_up :
      (s : Screen) → IsScreen cols rows s → text_of (rotate_up s) ≡ step_up (fresh s) (text_of s)
  unfolding rotate_up
  text_of-rotate_up s v =
      let top = IsScreen-top cols rows s v in
      let last : s.rows - 1 < rows = omega (arith, IsScreen-rows cols rows s v, top) in
      let wiped = put_sline 0 (blank_line s.cols) s in
      let turned = record wiped { screen_top = (s.screen_top + 1) % length s.screen } in
      let w = put_blank-IsScreen cols rows 0 s s v v in
      let t = set_top-IsScreen cols rows wiped s (s.screen_top + 1) v w in
      text_of-put_line cols rows turned t (s.rows - 1) (s.rows - 1) last last
      ∙ set-get_or (text_of turned) (s.rows - 1) no_line
      ∙ turned_wiped s v
      ∙ ap turn (text_of-put_sline cols rows s v 0 (blank_line s.cols) (omega arith))
      ∙ turn-set (fresh s) (text_of s)

  pub text_of-rotate_down :
      (s : Screen)
      → IsScreen cols rows s
      → text_of (rotate_down s) ≡ step_down (fresh s) (text_of s)
  unfolding rotate_down
  text_of-rotate_down s v =
      let n = length s.screen in
      let e = (IsScreen-Grid cols rows s v).size_ok in
      let top = IsScreen-top cols rows s v in
      let turned = record s { screen_top = (s.screen_top + n - 1) % n } in
      let t = set_top-IsScreen cols rows s s (s.screen_top + n - 1) v v in
      text_of-put_sline cols rows turned t 0 (blank_line s.cols) (omega (arith, top))
      ∙ sym (step_down-turn (fresh s) (text_of turned))
      ∙ ap (step_down (fresh s)) (
          sym (text_of-turned turned n t refl)
          ∙ ap (λ k. text_of (record s { screen_top = k }))
              (back_and_forth s.screen_top n (omega (arith, e, top))))
