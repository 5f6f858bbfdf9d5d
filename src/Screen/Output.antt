-- ===== src/Screen/Output.antt =====
-- What ScreenBuffer::find_command_output finds (src/terminal/screen_buffer.cpp).
use rivt.Base.{
  ℕ, zero, suc, ◌+◌, ◌-◌, ◌<◌, ◌≤◌, ◌≡◌, ◌≢◌, ◌⊎◌, refl, sym, ap, ◌∙◌, inl, inr, Bool, true, false,
  ◌||◌, List, Option, none, some, length, leb, ◌==◌, subst, if_elim, arith,
}
use rivt.Base.Rotate.{lt-cases}
use rivt.Screen.Select.{zone_at, scan_back, scan_forward, output_from, output_range}

-- No prompt and no start of an output.
abbrev pub IsUnmarked : List ℕ → ℕ → Type 0
IsUnmarked zones i = (zone_at zones i ≢ b'A') × (zone_at zones i ≢ b'C')

-- The output of a command that the `k`th line is in: it follows the start of an output, has no mark, and
-- ends at the last line or in front of a mark.
pub record IsOutput (zones : List ℕ) (k start stop : ℕ) : Type 0 where
  pub start_ok : start ≤ k
  pub stop_ok : k ≤ stop
  pub last_ok : stop < length zones
  pub begins : (i : ℕ) → suc i ≡ start → zone_at zones i ≡ b'C'
  pub positive : 0 < start
  pub unmarked : (i : ℕ) → start ≤ i → i ≤ stop → IsUnmarked zones i
  pub ends :
      (suc stop ≡ length zones)
      ⊎ ((zone_at zones (suc stop) ≡ b'A') ⊎ (zone_at zones (suc stop) ≡ b'C'))

record IsStart (zones : List ℕ) (k start : ℕ) : Type 0 where
  start_ok : start ≤ k
  begins : (i : ℕ) → suc i ≡ start → zone_at zones i ≡ b'C'
  positive : 0 < start
  unmarked : (i : ℕ) → start ≤ i → i < k → IsUnmarked zones i

abbrev OnSome : Option ℕ → (ℕ → Type 0) → Type 0
OnSome none P = Unit
OnSome (some n) P = P n

eq_of_test : (a b : ℕ) → (a == b) ≡ true → a ≡ b
eq_of_test a b h = ground arith

ne_of_test : (a b : ℕ) → (a == b) ≡ false → a ≢ b
ne_of_test a b h e = ground arith

IsStart-here : (zones : List ℕ) (i : ℕ) → zone_at zones i ≡ b'C' → IsStart zones (suc i) (suc i)
IsStart-here zones i e = record {
  start_ok = omega arith;
  begins = λ j p. ap (zone_at zones) {x = j} {y = i} (omega arith) ∙ e;
  positive = omega arith;
  unmarked = λ j p q. absurd (omega arith);
}

IsStart-before :
    (zones : List ℕ) (i start : ℕ)
    → IsUnmarked zones i
    → IsStart zones i start
    → IsStart zones (suc i) start
IsStart-before zones i start u s = record {
  start_ok = omega (arith, s.start_ok);
  begins = s.begins;
  positive = s.positive;
  unmarked = λ j p q. elim (lt-cases j i) [
    | inl h ↦ s.unmarked j p h
    | inr h ↦ subst (IsUnmarked zones) {x = i} {y = j} (omega arith) u
  ];
}

OnSome-map : (o : Option ℕ) (P Q : ℕ → Type 0) → ((n : ℕ) → P n → Q n) → OnSome o P → OnSome o Q
OnSome-map none P Q f p = tt
OnSome-map (some n) P Q f p = f n p

scan_back-IsStart : (zones : List ℕ) (k : ℕ) → OnSome (scan_back zones k) (IsStart zones k)
unfolding scan_back
scan_back-IsStart zones zero = tt
scan_back-IsStart zones (suc i) =
    let rest = scan_back zones i in
    if_elim (λ o. OnSome o (IsStart zones (suc i))) (zone_at zones i == b'C') (some (suc i)) _
      (λ e. IsStart-here zones i (eq_of_test (zone_at zones i) b'C' e))
      (λ c.
        if_elim (λ o. OnSome o (IsStart zones (suc i))) (zone_at zones i == b'A') none rest
          (λ _. tt)
          (λ a.
            OnSome-map rest (IsStart zones i) (IsStart zones (suc i))
              (λ n.
                IsStart-before zones i n
                  (ne_of_test (zone_at zones i) b'A' a, ne_of_test (zone_at zones i) b'C' c))
              (scan_back-IsStart zones i)))

-- Where the scan forward from the `i`th line stops.
record IsStop (zones : List ℕ) (i stop : ℕ) : Type 0 where
  stop_ok : i ≤ suc stop
  last_ok : stop < length zones
  unmarked : (j : ℕ) → i ≤ j → j ≤ stop → IsUnmarked zones j
  ends :
      (suc stop ≡ length zones)
      ⊎ ((zone_at zones (suc stop) ≡ b'A') ⊎ (zone_at zones (suc stop) ≡ b'C'))

or_true : (a b : Bool) → (a || b) ≡ true → (a ≡ true) ⊎ (b ≡ true)
or_true true b h = inl refl
or_true false b h = inr h

or_false : (a b : Bool) → (a || b) ≡ false → (a ≡ false) × (b ≡ false)
or_false true b h = absurd (ground arith)
or_false false b h = (refl, h)

IsStop-here :
    (zones : List ℕ) (n i : ℕ)
    → i + suc n ≡ length zones
    → 0 < i
    → (zone_at zones i == b'A' || zone_at zones i == b'C') ≡ true
    → IsStop zones i (i - 1)
IsStop-here zones n i e p t =
    let at : suc (i - 1) ≡ i = omega arith in
    record {
      stop_ok = omega arith;
      last_ok = omega arith;
      unmarked = λ j q r. absurd (omega arith);
      ends = inr (
          subst (λ k. (zone_at zones k ≡ b'A') ⊎ (zone_at zones k ≡ b'C')) (sym at)
            (marked (or_true _ _ t)));
    }
  where
    marked :
        ((zone_at zones i == b'A') ≡ true) ⊎ ((zone_at zones i == b'C') ≡ true)
        → (zone_at zones i ≡ b'A') ⊎ (zone_at zones i ≡ b'C')
    marked (inl h) = inl (eq_of_test (zone_at zones i) b'A' h)
    marked (inr h) = inr (eq_of_test (zone_at zones i) b'C' h)

IsStop-later :
    (zones : List ℕ) (i stop : ℕ)
    → (zone_at zones i == b'A' || zone_at zones i == b'C') ≡ false
    → IsStop zones (suc i) stop
    → IsStop zones i stop
IsStop-later zones i stop t s = record {
  stop_ok = omega (arith, s.stop_ok);
  last_ok = s.last_ok;
  unmarked = λ j p q. elim (lt-cases i j) [
    | inl h ↦ s.unmarked j h q
    | inr h ↦ subst (IsUnmarked zones) {x = i} {y = j} (omega arith) (
      ne_of_test (zone_at zones i) b'A' ((or_false _ _ t).0),
      ne_of_test (zone_at zones i) b'C' ((or_false _ _ t).1),
    )
  ];
  ends = s.ends;
}

scan_forward-IsStop :
    (zones : List ℕ) (n i : ℕ)
    → i + n ≡ length zones
    → 0 < i
    → IsStop zones i (scan_forward zones (length zones - 1) n i)
unfolding scan_forward
scan_forward-IsStop zones zero i e p = record {
  stop_ok = omega arith;
  last_ok = omega arith;
  unmarked = λ j q r. absurd (omega arith);
  ends = inl (omega arith);
}
scan_forward-IsStop zones (suc n) i e p =
    if_elim (IsStop zones i) (zone_at zones i == b'A' || zone_at zones i == b'C') (i - 1) _
      (IsStop-here zones n i e p)
      (λ t.
        IsStop-later zones i _ t (scan_forward-IsStop zones n (suc i) (omega arith) (omega arith)))

abbrev pub OnRange : Option (ℕ × ℕ) → (ℕ → ℕ → Type 0) → Type 0
OnRange none P = Unit
OnRange (some (a, b)) P = P a b

output_from-IsOutput :
    (zones : List ℕ) (k : ℕ) (start : Option ℕ)
    → k < length zones
    → zone_at zones k ≡ 0
    → OnSome start (IsStart zones k)
    → OnRange (output_from zones k start) (IsOutput zones k)
unfolding output_from
output_from-IsOutput zones k none h z s = tt
output_from-IsOutput zones k (some start) h z s =
    let stop = scan_forward zones (length zones - 1) (length zones - suc k) (suc k) in
    let t = scan_forward-IsStop zones (length zones - suc k) (suc k) (omega arith) (omega arith) in
    if_elim (λ o. OnRange o (IsOutput zones k)) (leb start stop) (some (start, stop)) none
      (λ _. record {
        start_ok = s.start_ok;
        stop_ok = omega (arith, t.stop_ok);
        last_ok = t.last_ok;
        begins = s.begins;
        positive = s.positive;
        unmarked = λ j p q. elim (lt-cases j k) [
          | inl a ↦ s.unmarked j p a
          | inr a ↦ elim (lt-cases k j) [
            | inl b ↦ t.unmarked j b q
            | inr b ↦
                subst (IsUnmarked zones) {x = k} {y = j} (omega arith)
                  (λ m. ground arith, λ m. ground arith)
          ]
        ];
        ends = t.ends;
      })
      (λ _. tt)

-- For a line that there is, what is found as the output of a command holds the line and no mark, follows
-- a line that is marked as the start of an output, and ends at the last line or in front of a mark.
pub output_range-IsOutput :
    (zones : List ℕ) (k : ℕ) → k < length zones → OnRange (output_range zones k) (IsOutput zones k)
unfolding output_range
output_range-IsOutput zones k h =
    if_elim (λ o. OnRange o (IsOutput zones k)) (zone_at zones k == 0) _ none
      (λ z.
        output_from-IsOutput zones k (scan_back zones k) h (eq_of_test (zone_at zones k) 0 z)
          (scan_back-IsStart zones k))
      (λ _. tt)
