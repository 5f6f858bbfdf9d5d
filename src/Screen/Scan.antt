-- ===== src/Screen/Scan.antt =====
-- The loop of ScreenBuffer::detect_url_at over the positions ends (src/terminal/screen_buffer.cpp).
use rivt.Base.{
  leb, ℕ, zero, suc, ◌+◌, ◌<◌, ◌≤◌, ◌≡◌, ◌⊎◌, refl, inl, inr, Bool, ◌&&◌, List, [], ◌∷◌, Option,
  none, some, length, get_or, take, drop, ltb, ◌==◌, if_elim, arith,
}
use rivt.Base.Bytes.{Bytes}
use rivt.Base.Int.{ℤ, pos, negsuc}
use rivt.Snapshot.Cells.{blank}
use rivt.Screen.State.{Screen}
use rivt.Screen.Scroll.{line}
use rivt.Screen.Url.{
  is_url_char, match_at, any_scheme, url_begins, url_length, count_cp, is_trailing, strip_url,
  scan_step, scan_urls, url_text, link_or, find_url, gather_cps, start_row, cell_link,
  detect_url_at,
}

-- The code points begin with the first letter of a prefix.
abbrev BeginsUrl : List ℕ → Type 0
BeginsUrl [] = ⊥
BeginsUrl (cp ∷ cps) = (cp ≡ b'h') ⊎ ((cp ≡ b'f') ⊎ (cp ≡ b'w'))

url_begins-BeginsUrl : (cps : List ℕ) (p : Bool) → url_begins cps ≡ some p → BeginsUrl cps
unfolding url_begins any_scheme match_at
url_begins-BeginsUrl [] p e = absurd (ground arith)
url_begins-BeginsUrl (cp ∷ cps) p e = ground arith

url_length_pos : (cps : List ℕ) → BeginsUrl cps → 0 < url_length cps
unfolding url_length is_url_char
url_length_pos [] h = absurd h
url_length_pos (cp ∷ cps) (inl h) = ground arith
url_length_pos (cp ∷ cps) (inr (inl h)) = ground arith
url_length_pos (cp ∷ cps) (inr (inr h)) = ground arith

first_kept : (cps : List ℕ) → BeginsUrl cps → strip_url 1 cps ≡ 1
unfolding strip_url is_trailing
first_kept [] h = absurd h
first_kept (cp ∷ cps) (inl h) = ground arith
first_kept (cp ∷ cps) (inr (inl h)) = ground arith
first_kept (cp ∷ cps) (inr (inr h)) = ground arith

strip_url_pos : (n : ℕ) (cps : List ℕ) → BeginsUrl cps → 0 < strip_url (suc n) cps
unfolding strip_url
strip_url_pos zero cps h = omega (arith, first_kept cps h)
strip_url_pos (suc n) cps h =
    let c = get_or cps (suc n) 0 in
    if_elim (λ k. 0 < k) (is_trailing c) _ _ (λ _. strip_url_pos n cps h)
      (λ _.
        if_elim (λ k. 0 < k)
          (c == b')'
            && ltb (count_cp b'(' (take (suc (suc n)) cps))
                (count_cp b')' (take (suc (suc n)) cps)))
          _ (suc (suc n)) (λ _. strip_url_pos n cps h) (λ _. omega arith))

-- A URL that begins somewhere goes on for a character at least.
url_pos : (cps : List ℕ) (p : Bool) → url_begins cps ≡ some p → 0 < strip_url (url_length cps) cps
url_pos cps p e = go (url_length cps) (url_length_pos cps (url_begins-BeginsUrl cps p e))
  where
    go : (n : ℕ) → 0 < n → 0 < strip_url n cps
    go zero h = absurd (omega arith)
    go (suc n) h = strip_url_pos n cps (url_begins-BeginsUrl cps p e)

-- The loop has come to its end, with a URL or without one.
abbrev Ends : Option Bytes → Type 0
Ends none = ⊥
Ends (some url) = Unit

scan_step-Ends :
    (o : Option Bool) (mid_word clicked : Bool) (url : List ℕ) (a b : Option Bytes)
    → Ends a
    → ((p : Bool) → o ≡ some p → Ends b)
    → Ends (scan_step o mid_word clicked url a b)
unfolding scan_step
scan_step-Ends none mid_word clicked url a b h g = h
scan_step-Ends (some p) mid_word clicked url a b h g =
    if_elim Ends mid_word a _ (λ _. h)
      (λ _. if_elim Ends clicked (some (url_text p url)) b (λ _. tt) (λ _. g p refl))

-- A round of fuel for each position left is enough, since each round goes on by one at least.
scan_urls-Ends :
    (f : ℕ) (cps : List ℕ) (click : Option ℕ) (at : ℕ)
    → length cps ≤ at + f
    → Ends (scan_urls f cps click at)
unfolding scan_urls
scan_urls-Ends zero cps click at h =
    if_elim Ends (leb (length cps) at) (some []) none (λ _. tt) (λ e. absurd (ground arith))
scan_urls-Ends (suc f) cps click at h =
    let here = drop at cps in
    let stop = strip_url (url_length here) here in
    if_elim Ends (leb (length cps) at) (some []) _ (λ _. tt)
      (λ _.
        scan_step-Ends (url_begins here) _ _ _ _ _
          (scan_urls-Ends f cps click (suc at) (omega arith))
          (λ p e. scan_urls-Ends f cps click (at + stop) (omega (arith, url_pos here p e))))

link_or-Ends : (o url : Option Bytes) → Ends url → Ends (link_or o url)
link_or-Ends none url h = h
link_or-Ends (some uri) url h = tt

find_url-Ends : (s : Screen) (screen_row : ℤ) (col : ℕ) → Ends (find_url s screen_row col)
unfolding find_url
find_url-Ends s screen_row col =
    let found = gather_cps 10000 s screen_row col (start_row 10000 s screen_row) [] none in
    scan_urls-Ends (length found.0) found.0 found.1 0 (omega arith)

Ends-some : (o : Option Bytes) → Ends o → (url : Bytes) × (o ≡ some url)
Ends-some none h = absurd h
Ends-some (some url) h = (url, refl)

detect_url_at-Ends : (s : Screen) (screen_row col : ℤ) → Ends (detect_url_at s screen_row col)
unfolding detect_url_at
detect_url_at-Ends s screen_row (negsuc n) = tt
detect_url_at-Ends s screen_row (pos col) =
    let l = line s screen_row in
    if_elim Ends (leb (length l.cells) col) (some []) _ (λ _. tt)
      (λ _.
        link_or-Ends (cell_link (get_or l.cells col blank) s) _ (find_url-Ends s screen_row col))

-- At any place of any screen, the loop that looks for a URL comes to its end, with the text of a URL
-- or with none: it never runs out of its fuel, one round for each code point of the logical line.
pub detect_url_at_ends :
    (s : Screen) (screen_row col : ℤ) → (url : Bytes) × (detect_url_at s screen_row col ≡ some url)
detect_url_at_ends s screen_row col =
    Ends-some (detect_url_at s screen_row col) (detect_url_at-Ends s screen_row col)
