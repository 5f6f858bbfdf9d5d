-- ===== src/Screen/Kept.antt =====
-- What the loops of `resize` leave as it is (src/terminal/screen_buffer.cpp).
use rivt.Base.{
  ℕ, zero, suc, ◌+◌, ◌-◌, ◌≡◌, refl, ◌∙◌, Bool, true, false, ◌&&◌, [], ◌∷◌, ◌++◌, map, length,
  get_or, drop, leb, ltb, if◌then◌else◌,
}
use rivt.Base.Int.{pos, ltb_ℤ}
use rivt.Snapshot.Cells.{Line}
use rivt.Screen.State.{Screen, blank_line, resize_line}
use rivt.Screen.Scroll.{pop_scrollback, trim_scrollback, push_scrollback}
use rivt.Screen.Reflow.{is_nil}
use rivt.Screen.Resize.{push_rows, pull_rows, shrink_rows, grow_rows}

-- What no loop of `resize` changes.
pub record Kept (s t : Screen) : Type 0 where
  pub saved_eq : t.saved_cursor ≡ s.saved_cursor
  pub top_eq : t.screen_top ≡ s.screen_top
  pub faulted_eq : t.faulted ≡ s.faulted

pub same-Kept :
    (s t : Screen)
    → t.saved_cursor ≡ s.saved_cursor
    → t.screen_top ≡ s.screen_top
    → t.faulted ≡ s.faulted
    → Kept s t
same-Kept s t e f g = record { saved_eq = e; top_eq = f; faulted_eq = g }

pub trans-Kept : (s t u : Screen) → Kept s t → Kept t u → Kept s u
trans-Kept s t u k m = record {
  saved_eq = m.saved_eq ∙ k.saved_eq;
  top_eq = m.top_eq ∙ k.top_eq;
  faulted_eq = m.faulted_eq ∙ k.faulted_eq;
}

if-Kept : (b : Bool) (s t u : Screen) → Kept s t → Kept s u → Kept s (if b then t else u)
if-Kept true s t u k m = k
if-Kept false s t u k m = m

trim_scrollback-Kept : (f : ℕ) (s t : Screen) → Kept s t → Kept s (trim_scrollback f t)
unfolding trim_scrollback pop_scrollback
trim_scrollback-Kept zero s t k = k
trim_scrollback-Kept (suc f) s t k =
    if-Kept (ltb_ℤ t.scrollback_limit (pos (length t.scrollback))) s _ t
      (trim_scrollback-Kept f s (pop_scrollback t)
        (record { saved_eq = k.saved_eq; top_eq = k.top_eq; faulted_eq = k.faulted_eq }))
      k

push_scrollback-Kept : (l : Line) (s : Screen) → Kept s (push_scrollback l s)
unfolding push_scrollback
push_scrollback-Kept l s = if-Kept s.using_alt_screen s s _ (same-Kept s s refl refl refl) (
    trim_scrollback-Kept (suc (length s.scrollback)) s
      (record s { scrollback = s.scrollback ++ (l ∷ []) }) (same-Kept s _ refl refl refl))

push_rows-Kept : (n : ℕ) (s : Screen) → Kept s (push_rows n s)
unfolding push_rows
push_rows-Kept zero s = same-Kept s s refl refl refl
push_rows-Kept (suc n) s =
    let pushed = push_scrollback (get_or s.screen 0 (blank_line 0)) s in
    let next = record pushed { screen = drop 1 pushed.screen } in
    if-Kept (is_nil s.screen) s s _ (same-Kept s s refl refl refl) (
      trans-Kept s pushed _ (push_scrollback-Kept (get_or s.screen 0 (blank_line 0)) s)
        (trans-Kept pushed next _ (same-Kept pushed next refl refl refl) (push_rows-Kept n next)))

pull_rows-Kept : (cols n : ℕ) (s t : Screen) → Kept s t → Kept s (pull_rows cols n t)
unfolding pull_rows
pull_rows-Kept cols zero s t k = k
pull_rows-Kept cols (suc n) s t k =
    if-Kept (is_nil t.scrollback) s t _ k
      (pull_rows-Kept cols n s _ (trans-Kept s t _ k (same-Kept t _ refl refl refl)))

pub shrink_rows-Kept : (rows : ℕ) (s : Screen) → Kept s (shrink_rows rows s)
unfolding shrink_rows
shrink_rows-Kept rows s =
    let count = s.cursor_row - rows + 1 in
    let pushed = push_rows count s in
    if-Kept (ltb rows s.rows && leb rows s.cursor_row) s _ s
      (trans-Kept s pushed _ (push_rows-Kept count s) (same-Kept pushed _ refl refl refl))
      (same-Kept s s refl refl refl)

pub grow_rows-Kept : (cols rows : ℕ) (s : Screen) → Kept s (grow_rows cols rows s)
unfolding grow_rows
grow_rows-Kept cols rows s =
    let resized = record s { screen = map (resize_line cols) s.screen } in
    let pulled = pull_rows cols (rows - length s.screen) resized in
    trans-Kept s pulled _
      (pull_rows-Kept cols (rows - length s.screen) s resized (same-Kept s resized refl refl refl))
      (same-Kept pulled _ refl refl refl)
