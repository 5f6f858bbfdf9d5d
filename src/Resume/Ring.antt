-- ===== src/Resume/Ring.antt =====
-- The ring of a pane's recent output, in src/daemon/rivtd.cpp.
use rivt.Base.{
  ℕ, zero, suc, ◌+◌, ◌-◌, ◌%◌, ◌^◌, ◌≤◌, ◌<◌, ◌≡◌, refl, [], ◌∷◌, ◌++◌, length, drop, arith, ◌∙◌,
  sym, ap, ltb, if◌then◌else◌, length-append, length-drop, drop-append_le,
}
use rivt.Base.Bytes.{Bytes}
use rivt.Resume.{PaneRef, on_output, pane_ring_max}

drop-nil : (k : ℕ) → drop {A = ℕ} k [] ≡ []
drop-nil zero = refl
drop-nil (suc k) = refl

pub drop-drop : (m n : ℕ) (xs : Bytes) → drop m (drop n xs) ≡ drop (n + m) xs
drop-drop m zero xs = ap (λ k. drop k xs) (omega arith)
drop-drop m (suc n) [] = drop-nil m ∙ sym (drop-nil (suc n + m))
drop-drop m (suc n) (x ∷ xs) =
    drop-drop m n xs ∙ ap (λ k. drop k (x ∷ xs)) {x = suc (n + m)} (omega arith)

pub drop_all : (k : ℕ) (xs : Bytes) → length xs ≤ k → drop k xs ≡ []
drop_all k [] h = drop-nil k
drop_all zero (x ∷ xs) h = absurd (omega arith)
drop_all (suc k) (x ∷ xs) h = drop_all k xs (omega arith)

-- The end of the stream, and what stands before it: as much as the ring holds.
pub record IsRing (history : Bytes) (ref : PaneRef) : Type 0 where
  pub ring_ok : ref.ring ≡ drop (length history - pane_ring_max) history
  pub end_ok : ref.ring_end ≡ length history % 2 ^ 64

drop-none : (k : ℕ) (xs : Bytes) → k ≡ 0 → drop k xs ≡ xs
drop-none k xs e = ap (λ n. drop n xs) e

cut :
    (r : Bytes)
    → (if ltb pane_ring_max (length r) then drop (length r - pane_ring_max) r else r)
      ≡ drop (length r - pane_ring_max) r
cut r = ground (arith, drop-none (length r - pane_ring_max) r)

ring-append :
    (h d : Bytes)
    → drop
        (length (drop (length h - pane_ring_max) h ++ d) - pane_ring_max)
        (drop (length h - pane_ring_max) h ++ d)
      ≡ drop (length (h ++ d) - pane_ring_max) (h ++ d)
ring-append h d =
    let j = length h - pane_ring_max in
    rw (sym (drop-append_le j h d (omega arith))) (
      drop-drop (length (drop j (h ++ d)) - pane_ring_max) j (h ++ d)
      ∙ ap (λ k. drop k (h ++ d)) (omega (arith, length-drop j (h ++ d), length-append h d)))

-- Whatever is written to a pane, in whatever pieces: the ring holds the last 256 KiB of it, or all
-- where that is less, and `ring_end` is the number of bytes written, in 64 bits.
pub on_output-IsRing :
    (h d : Bytes) (ref : PaneRef) → IsRing h ref → IsRing (h ++ d) (on_output d ref)
unfolding on_output
on_output-IsRing h d ref v = record {
  ring_ok = rw (v.ring_ok) (cut (drop (length h - pane_ring_max) h ++ d) ∙ ring-append h d);
  end_ok = omega (arith, v.end_ok, length-append h d);
}

-- `ring_start`: where in the stream the ring begins.
pub ring_start_lem :
    (h : Bytes) (ref : PaneRef)
    → length h < 2 ^ 64
    → IsRing h ref
    → (ref.ring_end + (2 ^ 64 - length ref.ring)) % 2 ^ 64 ≡ length h - pane_ring_max
ring_start_lem h ref b r =
    omega (arith, r.end_ok, ap length r.ring_ok, length-drop (length h - pane_ring_max) h)
