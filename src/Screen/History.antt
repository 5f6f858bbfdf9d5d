-- ===== src/Screen/History.antt =====
-- The scrollback (ScreenBuffer::push_scrollback of src/terminal/screen_buffer.cpp).
use rivt.Base.{
  ℕ, zero, suc, ◌+◌, ◌-◌, ◌<◌, ◌≤◌, ◌≡◌, refl, ap, subst, ◌∙◌, Bool, true, false, [], ◌∷◌, ◌++◌,
  length, drop, length-drop, length-append, arith, tests, if◌then◌else◌,
}
use rivt.Base.Int.{ℤ, pos, ◌+ℤ◌, ltb_ℤ, eq_of_parts, int_laws}
use rivt.Base.Change.{drop-drop}
use rivt.Snapshot.Cells.{Line}
use rivt.Screen.State.{Screen}
use rivt.Screen.Scroll.{pop_scrollback, trim_scrollback, push_scrollback}

-- `n` lines are lost at the front, and counted.
pub record Trimmed (n : ℕ) (s t : Screen) : Type 0 where
  pub lines_eq : t.scrollback ≡ drop n s.scrollback
  pub trimmed_eq : t.scrollback_trimmed ≡ s.scrollback_trimmed +ℤ pos n

+ℤ-pos : (a : ℤ) (n : ℕ) → (a +ℤ pos 1) +ℤ pos n ≡ a +ℤ pos (suc n)
+ℤ-pos a n = eq_of_parts _ _ (omega int_laws)

+ℤ-zero : (a : ℤ) → a ≡ a +ℤ pos 0
+ℤ-zero a = eq_of_parts _ _ (omega int_laws)

if_Trimmed :
    (b : Bool) (n : ℕ) (s x y : Screen)
    → (b ≡ true → Trimmed n s x)
    → (b ≡ false → Trimmed n s y)
    → Trimmed n s (if b then x else y)
if_Trimmed true n s x y p q = p refl
if_Trimmed false n s x y p q = q refl

trim_none : (n : ℕ) (s : Screen) → 0 ≡ n → Trimmed n s s
trim_none n s e =
    subst (λ k. Trimmed k s s) e
      (record { lines_eq = refl; trimmed_eq = +ℤ-zero s.scrollback_trimmed })

trim_more : (k n : ℕ) (s t : Screen) → suc k ≡ n → Trimmed k (pop_scrollback s) t → Trimmed n s t
unfolding pop_scrollback
trim_more k n s t e h =
    subst (λ k. Trimmed k s t) e
      (record {
        lines_eq = h.lines_eq ∙ drop-drop 1 k (suc k) s.scrollback (omega arith);
        trimmed_eq = h.trimmed_eq ∙ +ℤ-pos s.scrollback_trimmed k;
      })

length-popped : (s : Screen) → length ((pop_scrollback s).scrollback) ≡ length s.scrollback - 1
unfolding pop_scrollback
length-popped s = length-drop 1 s.scrollback

limit-popped : (s : Screen) → (pop_scrollback s).scrollback_limit ≡ s.scrollback_limit
unfolding pop_scrollback
limit-popped s = refl

-- The loop runs until the limit is met.
trim_scrollback-Trimmed :
    (f n : ℕ) (s : Screen)
    → s.scrollback_limit ≡ pos n
    → length s.scrollback ≤ n + f
    → Trimmed (length s.scrollback - n) s (trim_scrollback f s)
unfolding trim_scrollback
trim_scrollback-Trimmed zero n s e h = trim_none _ s (omega arith)
trim_scrollback-Trimmed (suc f) n s e h =
    if_Trimmed (ltb_ℤ s.scrollback_limit (pos (length s.scrollback))) _ s _ s
      (λ p.
        trim_more (length ((pop_scrollback s).scrollback) - n) _ s _
          (omega (arith, length-popped s, over p))
          (trim_scrollback-Trimmed f n (pop_scrollback s) (limit-popped s ∙ e)
            (omega (arith, length-popped s, over p))))
      (λ p. trim_none _ s (omega (arith, under p)))
  where
    over : ltb_ℤ s.scrollback_limit (pos (length s.scrollback)) ≡ true → n < length s.scrollback
    over p = omega (tests, subst (λ k. ltb_ℤ k (pos (length s.scrollback)) ≡ true) e p)

    under : ltb_ℤ s.scrollback_limit (pos (length s.scrollback)) ≡ false → length s.scrollback ≤ n
    under p = ground (arith, subst (λ k. ltb_ℤ k (pos (length s.scrollback)) ≡ false) e p)

-- A line that is pushed on the main screen, with a limit that is not negative, is the last of the
-- scrollback, of which the oldest lines are lost so far as the limit asks. As many are counted, so
-- that a line keeps its absolute number.
pub push_scrollback_lem :
    (l : Line) (s : Screen) (n : ℕ)
    → s.using_alt_screen ≡ false
    → s.scrollback_limit ≡ pos n
    → let lost = suc (length s.scrollback) - n in
      ((push_scrollback l s).scrollback ≡ drop lost (s.scrollback ++ (l ∷ [])))
      × ((push_scrollback l s).scrollback_trimmed ≡ s.scrollback_trimmed +ℤ pos lost)
unfolding push_scrollback
push_scrollback_lem l s n a e =
    let longer = record s { scrollback = s.scrollback ++ (l ∷ []) } in
    let len : length (s.scrollback ++ (l ∷ [])) ≡ suc (length s.scrollback) =
      omega (arith, length-append s.scrollback (l ∷ [])) in
    let t : Trimmed (suc (length s.scrollback) - n) longer
        (trim_scrollback (suc (length s.scrollback)) longer) =
      subst (λ k. Trimmed (k - n) longer (trim_scrollback (suc (length s.scrollback)) longer)) len
        (trim_scrollback-Trimmed (suc (length s.scrollback)) n longer e (omega (arith, len))) in
    let pushed = ap (λ b. if b then s else trim_scrollback (suc (length s.scrollback)) longer) a in
    (
      ap (λ (u : Screen). u.scrollback) pushed ∙ t.lines_eq,
      ap (λ (u : Screen). u.scrollback_trimmed) pushed ∙ t.trimmed_eq,
    )
