-- ===== src/Screen/Found.antt =====
-- What a search finds (SearchState of src/terminal/screen_buffer.h, and src/terminal/screen_buffer.cpp).
use rivt.Base.{
  ℕ, zero, suc, ◌-◌, ◌<◌, ◌≤◌, ◌≡◌, refl, sym, ap, ◌∙◌, min, Bool, true, false, ◌||◌, List, [], ◌∷◌,
  ◌++◌, append_assoc, length, take, drop, length-append, length-take, leb, if_same, arith,
  if◌then◌else◌,
}
use rivt.Base.Bytes.{Bytes, All, All-append}
use rivt.Base.Int.{ℤ, pos, pos_part, neg_part, ◌+ℤ◌, ◌≤ℤ◌, +ℤ_parts, eq_of_parts, int_laws}
use rivt.Snapshot.Cells.{Cell, Line}
use rivt.Screen.State.{Screen, rows_of}
use rivt.Screen.Fields.{SearchMatch}
use rivt.Screen.Search.{
  build_query_cps, matches_here, search_line, search_lines, all_lines, total_lines, find_matches,
  drop_stale, rescan, is_empty_query, find_matches_incremental,
}

take-split :
    {A : Type 0} (n m : ℕ) (xs : List A) → n ≤ m → take n xs ++ take (m - n) (drop n xs) ≡ take m xs
take-split zero m xs h = ap (λ k. take k xs) {x = m - 0} (omega arith)
take-split (suc n) zero xs h = absurd (omega arith)
take-split (suc n) (suc m) [] h = nil (suc m - suc n)
  where
    nil : {A : Type 0} (k : ℕ) → take {A = A} k [] ≡ []
    nil zero = refl
    nil (suc k) = refl
take-split (suc n) (suc m) (x ∷ xs) h =
    ap (λ l. x ∷ l)
      (ap (λ k. take n xs ++ take k (drop n xs)) {x = suc m - suc n} {y = m - n} (omega arith)
        ∙ take-split n m xs (omega arith))

+ℤ-zero : (a : ℤ) → a ≡ a +ℤ pos 0
+ℤ-zero a = eq_of_parts _ _ (omega int_laws)

abbrev Before : ℤ → SearchMatch → Type 0
Before n m = (m.abs_line +ℤ pos 1) ≤ℤ n

abbrev From : ℤ → SearchMatch → Type 0
From n m = n ≤ℤ m.abs_line

module _ (cs : Bool) (q : List ℕ) where
  search_lines-append :
      (n m : ℤ) (a b : List Line)
      → m ≡ n +ℤ pos (length a)
      → search_lines cs q n (a ++ b) ≡ search_lines cs q n a ++ search_lines cs q m b
  unfolding search_lines
  search_lines-append n m [] b e =
      ap (λ k. search_lines cs q k b) {x = n} {y = m} (sym (e ∙ sym (+ℤ-zero n)))
  search_lines-append n m (l ∷ a) b e =
      ap (λ r. search_line cs q n 0 l.cells ++ r)
        (search_lines-append (n +ℤ pos 1) m a b (e ∙ eq_of_parts _ _ (omega int_laws)))
      ∙ sym (append_assoc (search_line cs q n 0 l.cells) _ _)

  search_line-at :
      (n : ℤ) (col : ℕ) (cells : List Cell)
      → All (λ m. m.abs_line ≡ n) (search_line cs q n col cells)
  unfolding search_line
  search_line-at n col [] = tt
  search_line-at n col (c ∷ cells) =
      if_all (matches_here cs q (c ∷ cells)) _ (search_line cs q n (suc col) cells)
        (refl, search_line-at n (suc col) cells) (search_line-at n (suc col) cells)
    where
      if_all :
          (b : Bool) (x y : List SearchMatch)
          → All (λ m. m.abs_line ≡ n) x
          → All (λ m. m.abs_line ≡ n) y
          → All (λ m. m.abs_line ≡ n) (if b then x else y)
      if_all true x y p r = p
      if_all false x y p r = r

  Before-later :
      (n m : ℤ) (k : ℕ) (x : SearchMatch) → x.abs_line ≡ n → m ≡ n +ℤ pos (suc k) → Before m x
  Before-later n m k x e e' =
      omega (int_laws, ap pos_part e, ap neg_part e, ap pos_part e', ap neg_part e')

  All-mono :
      (P Q : SearchMatch → Type 0) (xs : List SearchMatch)
      → ((x : SearchMatch) → P x → Q x)
      → All P xs
      → All Q xs
  All-mono P Q [] f a = tt
  All-mono P Q (x ∷ xs) f a = (f x a.0, All-mono P Q xs f a.1)

  search_lines-Before :
      (n m : ℤ) (ls : List Line)
      → m ≡ n +ℤ pos (length ls)
      → All (Before m) (search_lines cs q n ls)
  unfolding search_lines
  search_lines-Before n m [] e = tt
  search_lines-Before n m (l ∷ ls) e =
      All-append (Before m) (search_line cs q n 0 l.cells) _
        (All-mono (λ x. x.abs_line ≡ n) (Before m) _ (λ x p. Before-later n m (length ls) x p e)
          (search_line-at n 0 l.cells))
        (search_lines-Before (n +ℤ pos 1) m ls (e ∙ eq_of_parts _ _ (omega int_laws)))

drop_stale-From : (n : ℤ) (xs : List SearchMatch) → All (From n) xs → drop_stale n xs ≡ []
unfolding drop_stale
drop_stale-From n [] h = refl
drop_stale-From n (x ∷ xs) h = ground (arith, drop_stale-From n xs h.1)

drop_stale_lem :
    (n : ℤ) (xs stale : List SearchMatch)
    → All (Before n) xs
    → All (From n) stale
    → drop_stale n (xs ++ stale) ≡ xs
unfolding drop_stale
drop_stale_lem n [] stale h g = drop_stale-From n stale g
drop_stale_lem n (x ∷ []) stale h g =
    ground (arith, drop_stale-From n stale g, +ℤ_parts x.abs_line (pos 1), h.0)
drop_stale_lem n (x ∷ y ∷ xs) stale h g = rw (drop_stale_lem n (y ∷ xs) stale h.1 g) refl

find_matches-matches :
    (query : Bytes) (cs : Bool) (s : Screen)
    → is_empty_query query ≡ false
    → (find_matches query cs s).search.matches
      ≡ search_lines cs
          (build_query_cps query cs)
          s.scrollback_trimmed
          (take (total_lines s) (all_lines s))
unfolding find_matches
find_matches-matches [] cs s e = absurd (ground arith)
find_matches-matches (q ∷ query) cs s e = refl

rescan-matches :
    (s : Screen) (stale : List SearchMatch) (from : ℕ) (first : ℤ)
    → min s.search.searched_up_to (length s.scrollback) ≡ from
    → s.scrollback_trimmed +ℤ pos from ≡ first
    → s.search.matches
      ≡ search_lines s.search.case_sensitive
          (build_query_cps s.search.query s.search.case_sensitive)
          s.scrollback_trimmed
          (take from (all_lines s))
        ++ stale
    → All (From first) stale
    → (rescan s).search.matches
      ≡ search_lines s.search.case_sensitive
          (build_query_cps s.search.query s.search.case_sensitive)
          s.scrollback_trimmed
          (take (total_lines s) (all_lines s))
unfolding rescan
rescan-matches s stale from first e f m g =
    let cs = s.search.case_sensitive in
    let q = build_query_cps s.search.query cs in
    let old = take from (all_lines s) in
    let len : length old ≡ from =
      omega (arith, length-take from (all_lines s), length-append s.scrollback (rows_of s)) in
    let at : first ≡ s.scrollback_trimmed +ℤ pos (length old) =
      sym f ∙ ap (λ k. s.scrollback_trimmed +ℤ pos k) (sym len) in
    ap
      (λ k.
        drop_stale (s.scrollback_trimmed +ℤ pos k) s.search.matches
        ++ search_lines cs q (s.scrollback_trimmed +ℤ pos k)
            (take (total_lines s - k) (drop k (all_lines s))))
      e
    ∙ ap
        (λ n.
          drop_stale n s.search.matches
          ++ search_lines cs q n (take (total_lines s - from) (drop from (all_lines s))))
        f
    ∙ ap (λ l. l ++ search_lines cs q first (take (total_lines s - from) (drop from (all_lines s))))
        (ap (drop_stale first) m
          ∙ drop_stale_lem first (search_lines cs q s.scrollback_trimmed old) stale
              (search_lines-Before cs q s.scrollback_trimmed first old at) g)
    ∙ sym (search_lines-append cs q s.scrollback_trimmed first old _ at)
    ∙ ap (search_lines cs q s.scrollback_trimmed)
        (take-split from (total_lines s) (all_lines s) (omega arith))

-- An incremental search that has lines to look at finds the matches that a search from the start finds,
-- where the matches so far are those that it finds in the lines that are not searched again, with any
-- others behind them that lie in the lines that are.
pub find_matches_incremental_lem :
    (s : Screen) (stale : List SearchMatch)
    → is_empty_query s.search.query ≡ false
    → s.search.searched_up_to < total_lines s
    → let from = min s.search.searched_up_to (length s.scrollback) in
      let query = build_query_cps s.search.query s.search.case_sensitive in
      s.search.matches
        ≡ search_lines s.search.case_sensitive query s.scrollback_trimmed (take from (all_lines s))
          ++ stale
      → All
          (λ m.
            (s.scrollback_trimmed +ℤ pos (min s.search.searched_up_to (length s.scrollback)))
            ≤ℤ m.abs_line)
          stale
      → (find_matches_incremental s).search.matches
        ≡ (find_matches s.search.query s.search.case_sensitive s).search.matches
unfolding find_matches_incremental
find_matches_incremental_lem s stale e h m g =
    if_same (λ (u : Screen). u.search.matches)
      (is_empty_query s.search.query || leb (total_lines s) s.search.searched_up_to) s (rescan s) _
      (λ p. absurd (ground arith))
      (λ _.
        rescan-matches s stale _ _ refl refl m g
        ∙ sym (find_matches-matches s.search.query s.search.case_sensitive s e))
