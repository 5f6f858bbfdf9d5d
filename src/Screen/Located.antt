-- ===== src/Screen/Located.antt =====
-- SearchState::match_type (src/terminal/screen_buffer.h) and a look at all matches.
use rivt.Base.{
  ℕ, zero, suc, ◌+◌, ◌-◌, ◌/◌, ◌<◌, ◌≤◌, ◌≡◌, refl, sym, ap, subst, ltb→lt, ◌∙◌, Bool, true, false,
  ◌&&◌, List, [], ◌∷◌, Option, none, some, length, get_or, take, drop, leb, ltb, ◌==◌, arith, inl,
  inr, if◌then◌else◌,
}
use rivt.Base.Bytes.{All}
use rivt.Base.Int.{ℤ, pos_part, neg_part, ◌≤ℤ◌, ltb_ℤ, leb_ℤ}
use rivt.Base.Rotate.{lt-cases}
use rivt.Screen.Fields.{SearchMatch, SearchState}
use rivt.Base.Every.{All-get_or}
use rivt.Screen.Search.{no_match, first_on_line, type_on_line, match_type}

-- The matches are in the order of their lines.
abbrev pub IsSorted : List SearchMatch → Type 0
IsSorted [] = Unit
IsSorted (m ∷ ms) = All (λ k. m.abs_line ≤ℤ k.abs_line) ms × IsSorted ms

-- 2 for the current match and 1 for another.
abbrev type_of : ℕ → Option ℕ → ℕ
type_of i none = 1
type_of i (some c) = if i == c then 2 else 1

-- The first match that a cell is in, of those from the `i`th on.
abbrev pub find_type : ℤ → ℕ → Option ℕ → ℕ → List SearchMatch → ℕ
find_type abs_line col current i [] = 0
find_type abs_line col current i (m ∷ ms) =
    let rest = find_type abs_line col current (suc i) ms in
    if (leb_ℤ m.abs_line abs_line && leb_ℤ abs_line m.abs_line)
      && (leb m.start_col col && leb col m.end_col)
    then type_of i current
    else rest

module _ (n : ℤ) (col : ℕ) (current : Option ℕ) where
  abbrev Lower : SearchMatch → Type 0
  Lower m = pos_part m.abs_line + neg_part n < pos_part n + neg_part m.abs_line

  abbrev NotLower : SearchMatch → Type 0
  NotLower m = n ≤ℤ m.abs_line

  abbrev Higher : SearchMatch → Type 0
  Higher m = pos_part n + neg_part m.abs_line < pos_part m.abs_line + neg_part n

  find_type-Higher :
      (i : ℕ) (ms : List SearchMatch) → All Higher ms → find_type n col current i ms ≡ 0
  find_type-Higher i [] h = refl
  find_type-Higher i (m ∷ ms) h = ground (arith, h.0, find_type-Higher (suc i) ms h.1)

  All-Higher :
      (m : SearchMatch) (ms : List SearchMatch)
      → Higher m
      → All (λ k. m.abs_line ≤ℤ k.abs_line) ms
      → All Higher ms
  All-Higher m [] h a = tt
  All-Higher m (k ∷ ms) h a = (omega (arith, h, a.0), All-Higher m ms h a.1)

  -- The loop stops at the first match of another line, behind which there is none of this line.
  type_on_line_lem :
      (i : ℕ) (ms : List SearchMatch)
      → IsSorted ms
      → All NotLower ms
      → type_on_line n col current i ms ≡ find_type n col current i ms
  unfolding type_on_line
  type_on_line_lem i [] o h = refl
  type_on_line_lem i (m ∷ ms) o h =
      elim (lt-cases (pos_part n + neg_part m.abs_line) (pos_part m.abs_line + neg_part n)) [
        | inl p ↦ ground (arith, find_type-Higher (suc i) ms (All-Higher m ms p o.0))
        | inr p ↦ ground (arith, h.0, type_on_line_lem (suc i) ms o.1 h.1)
      ]

  find_type-drop :
      (k i : ℕ) (ms : List SearchMatch)
      → All Lower (take k ms)
      → find_type n col current i ms ≡ find_type n col current (i + k) (drop k ms)
  find_type-drop zero i ms h = ap (λ j. find_type n col current j ms) (omega arith)
  find_type-drop (suc k) i [] h = refl
  find_type-drop (suc k) i (m ∷ ms) h = ground (arith, h.0, find_type-drop k (suc i) ms h.1)

  Lower-trans : (m k : SearchMatch) → m.abs_line ≤ℤ k.abs_line → Lower k → Lower m
  Lower-trans m k h l = omega (arith, h, l)

  -- Those in front of one that is lower are lower.
  take-Lower :
      (i : ℕ) (ms : List SearchMatch)
      → IsSorted ms
      → i < length ms
      → Lower (get_or ms i no_match)
      → All Lower (take (suc i) ms)
  take-Lower i [] o h l = tt
  take-Lower zero (m ∷ ms) o h l = (l, tt)
  take-Lower (suc i) (m ∷ ms) o h l = (
    Lower-trans m (get_or ms i no_match)
        (All-get_or (λ k. m.abs_line ≤ℤ k.abs_line) ms i no_match (omega arith) o.0) l,
    take-Lower i ms o.1 (omega arith) l,
  )

  All-NotLower :
      (m : SearchMatch) (ms : List SearchMatch)
      → NotLower m
      → All (λ k. m.abs_line ≤ℤ k.abs_line) ms
      → All NotLower ms
  All-NotLower m [] h a = tt
  All-NotLower m (k ∷ ms) h a = (omega (arith, h, a.0), All-NotLower m ms h a.1)

  -- And those behind one that is not are not.
  drop-NotLower :
      (i : ℕ) (ms : List SearchMatch)
      → IsSorted ms
      → i < length ms
      → NotLower (get_or ms i no_match)
      → All NotLower (drop i ms)
  drop-NotLower i [] o h l = absurd (omega arith)
  drop-NotLower zero (m ∷ ms) o h l = (l, All-NotLower m ms l o.0)
  drop-NotLower (suc i) (m ∷ ms) o h l = drop-NotLower i ms o.1 (omega arith) l

  drop-IsSorted : (i : ℕ) (ms : List SearchMatch) → IsSorted ms → IsSorted (drop i ms)
  drop-IsSorted zero ms o = o
  drop-IsSorted (suc i) [] o = tt
  drop-IsSorted (suc i) (m ∷ ms) o = drop-IsSorted i ms o.1

  -- Where the loop of the binary search ends.
  abbrev IsBound : List SearchMatch → ℕ → Type 0
  IsBound ms lo = All Lower (take lo ms) × All NotLower (drop lo ms)

  if_IsBound :
      (b : Bool) (ms : List SearchMatch) (x y : ℕ)
      → (b ≡ true → IsBound ms x)
      → (b ≡ false → IsBound ms y)
      → IsBound ms (if b then x else y)
  if_IsBound true ms x y p q = p refl
  if_IsBound false ms x y p q = q refl

  not_ltb : (a b : ℕ) → ltb a b ≡ false → b ≤ a
  not_ltb a b h = ground arith

  first_on_line_lem :
      (f lo hi : ℕ) (ms : List SearchMatch)
      → IsSorted ms
      → lo ≤ hi
      → hi ≤ length ms
      → hi - lo ≤ f
      → All Lower (take lo ms)
      → All NotLower (drop hi ms)
      → IsBound ms (first_on_line f ms n lo hi)
  unfolding first_on_line
  first_on_line_lem zero lo hi ms o a b c l r =
      (l, subst (λ k. All NotLower (drop k ms)) {x = hi} {y = lo} (omega arith) r)
  first_on_line_lem (suc f) lo hi ms o a b c l r =
      let mid = (lo + hi) / 2 in
      if_IsBound (ltb lo hi) ms _ lo
        (λ p.
          let q : lo < hi = ltb→lt lo hi p in
          if_IsBound (ltb_ℤ (get_or ms mid no_match).abs_line n) ms _ _
            (λ e.
              first_on_line_lem f (mid + 1) hi ms o (omega arith) b (omega arith)
                (subst (λ k. All Lower (take k ms)) {x = suc mid} (omega arith)
                  (take-Lower mid ms o (omega arith) (ltb→lt _ _ e)))
                r)
            (λ e.
              first_on_line_lem f lo mid ms o (omega arith) (omega arith) (omega arith) l
                (drop-NotLower mid ms o (omega arith) (not_ltb _ _ e))))
        (λ p. (
          l,
          subst (λ k. All NotLower (drop k ms)) {x = hi} {y = lo} (omega (arith, not_ltb lo hi p))
              r,
        ))

  drop_end : (ms : List SearchMatch) → All NotLower (drop (length ms) ms)
  drop_end [] = tt
  drop_end (m ∷ ms) = drop_end ms

-- On matches in the order of their lines, the binary search and the look at the matches of one line
-- tell what the first match that the cell is in is, of all matches looked at one after another.
pub match_type_lem :
    (st : SearchState) (abs_line : ℤ) (col : ℕ)
    → IsSorted st.matches
    → match_type st abs_line col ≡ find_type abs_line col st.current_match 0 st.matches
unfolding match_type
match_type_lem st abs_line col o =
    let ms = st.matches in
    let lo = first_on_line (length ms) ms abs_line 0 (length ms) in
    let bound =
      first_on_line_lem abs_line col st.current_match (length ms) 0 (length ms) ms o (omega arith)
        (omega arith) (omega arith) tt (drop_end abs_line col st.current_match ms) in
    type_on_line_lem abs_line col st.current_match lo (drop lo ms)
      (drop-IsSorted abs_line col st.current_match lo ms o) bound.1
    ∙ ap (λ i. find_type abs_line col st.current_match i (drop lo ms)) {x = lo} {y = 0 + lo}
        (omega arith)
    ∙ sym (find_type-drop abs_line col st.current_match lo 0 ms bound.0)
