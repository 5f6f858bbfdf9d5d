-- ===== src/Wire/Stable.antt =====
-- What holds of every chain of reads of src/proto/wire.h: a failure is not forgotten, and a read
-- that succeeds does not look behind the bytes that it takes.
use rivt.Base.{
  ℕ, ◌≤◌, ◌≡◌, refl, true, false, [], ◌++◌, append_assoc, arith, length, ◌∙◌, take, drop,
  take-append_le, drop-append_le, length-append, ap, sym, inl, inr, Bool-cases, take-append-drop,
}
use rivt.Base.Bytes.{Bytes, le_value}
use rivt.Base.Int.{signed32}
use rivt.Wire.Reader
use rivt.Wire.Reader.{Reader, Read, start, ◌>>=◌, pure}

-- A reader that has failed, at the bytes `b`.
abbrev pub failed : Bytes → Reader
failed b = record { rest = b; ok = false }

module _ {ℓ} {A : Type ℓ} where
  abbrev pub Latches : Read A → Type 0
  Latches m = (b : Bytes) → (m (failed b)).1.ok ≡ false

  abbrev pub Grows : Read A → Type ℓ
  Grows m =
      (b more : Bytes) (a : A) (r : Bytes)
      → m (start b) ≡ (a, start r)
      → m (start (b ++ more)) ≡ (a, start (r ++ more))

  -- A read that succeeds takes its bytes from the front.
  abbrev pub Takes : Read A → Type ℓ
  Takes m =
      (b : Bytes) (a : A) (r : Bytes)
      → m (start b) ≡ (a, start r)
      → (used : Bytes) × (b ≡ used ++ r)

  pub record IsStable (m : Read A) : Type ℓ where
    pub latches : Latches m
    pub grows : Grows m
    pub takes : Takes m

pub ok_start : (r : Reader) → r.ok ≡ true → r ≡ start r.rest
ok_start r h = λ i. record { rest = r.rest; ok = h i }

ok_failed : (r : Reader) → r.ok ≡ false → r ≡ failed r.rest
ok_failed r h = λ i. record { rest = r.rest; ok = h i }

module _ {ℓ} {A : Type ℓ} where
  Latches-failed : (m : Read A) → Latches m → (r : Reader) → r.ok ≡ false → (m r).1.ok ≡ false
  Latches-failed m lm r h = ap (λ t. (m t).1.ok) (ok_failed r h) ∙ lm r.rest

module _ {ℓ κ} {A : Type ℓ} {B : Type κ} (m : Read A) (f : A → Read B) where
  -- A chain that succeeds has succeeded at its first read.
  pub bind_ok :
      ((a : A) → Latches (f a))
      → (b : Bytes) (c : B) (r : Bytes) → (m >>= f) (start b) ≡ (c, start r)
      → (a : A) × (s : Bytes) × (m (start b) ≡ (a, start s)) × (f a (start s) ≡ (c, start r))
  bind_ok lf b c r e =
      let (a, s) = m (start b) in
      elim (Bool-cases s.ok) [
        | inl good ↦
            (a, s.rest, ap (λ t. (a, t)) (ok_start s good), sym (ap (f a) (ok_start s good)) ∙ e)
        | inr bad ↦
            absurd (cc (Latches-failed (f a) (lf a) s bad, ap (λ (t : B × Reader). t.1.ok) e))
      ]

  pub bind-IsStable : IsStable m → ((a : A) → IsStable (f a)) → IsStable (m >>= f)
  bind-IsStable hm hf = record {
    latches =
        λ b. let (a, s) = m (failed b) in Latches-failed (f a) (hf a).latches s (hm.latches b);
    grows = λ b more c r e.
        let (a, s, em, ef) = bind_ok (λ a. (hf a).latches) b c r e in
        ap (λ p. f p.0 p.1) (hm.grows b more a s em) ∙ (hf a).grows s more c r ef;
    takes = λ b c r e.
        let (a, s, em, ef) = bind_ok (λ a. (hf a).latches) b c r e in
        let (u, eu) = hm.takes b a s em in
        let (v, ev) = (hf a).takes s c r ef in
        (u ++ v, eu ∙ ap (λ t. u ++ t) ev ∙ sym (append_assoc u v r));
  }

module _ {ℓ} {A : Type ℓ} where
  pub pure-IsStable : (a : A) → IsStable (pure a)
  pure-IsStable a = record {
    latches = λ b. refl;
    grows = λ b more c r e.
        ap (λ (t : A × Reader). (t.0, record { rest = t.1.rest ++ more; ok = t.1.ok })) e;
    takes = λ b c r e. ([], ap (λ (t : A × Reader). t.1.rest) e);
  }

raw_ok :
    (n : ℕ) (b : Bytes) {a r : Bytes}
    → Reader.raw n (start b) ≡ (a, start r)
    → (n ≤ length b) × (a ≡ take n b) × (r ≡ drop n b)
unfolding Reader.raw
raw_ok n b e = ground arith

raw_long :
    (n : ℕ) (b : Bytes) → n ≤ length b → Reader.raw n (start b) ≡ (take n b, start (drop n b))
unfolding Reader.raw
raw_long n b h = ground arith

pub raw-IsStable : (n : ℕ) → IsStable (Reader.raw n)
raw-IsStable n = record {
  latches = λ b. unfold Reader.raw in refl;
  grows = λ b more a r e.
      let (h, ea, er) = raw_ok n b e in
      raw_long n (b ++ more) (omega (arith, length-append b more))
      ∙ rw (take-append_le n b more h, drop-append_le n b more h, ea, er);
  takes =
      λ b a r e. let (h, ea, er) = raw_ok n b e in (take n b, rw er (sym (take-append-drop n b)));
}

pub number-IsStable : (n : ℕ) → IsStable (Reader.number n)
unfolding Reader.number
number-IsStable n =
    bind-IsStable (Reader.raw n) (λ b. pure (le_value b)) (raw-IsStable n) (λ b. pure-IsStable _)

pub u8-IsStable : IsStable Reader.u8
unfolding Reader.u8
u8-IsStable = number-IsStable 1

pub u16-IsStable : IsStable Reader.u16
unfolding Reader.u16
u16-IsStable = number-IsStable 2

pub u32-IsStable : IsStable Reader.u32
unfolding Reader.u32
u32-IsStable = number-IsStable 4

pub u64-IsStable : IsStable Reader.u64
unfolding Reader.u64
u64-IsStable = number-IsStable 8

pub i32-IsStable : IsStable Reader.i32
unfolding Reader.i32
i32-IsStable =
    bind-IsStable (Reader.number 4) (λ v. pure (signed32 v)) (number-IsStable 4)
      (λ v. pure-IsStable _)

pub str-IsStable : IsStable Reader.str
unfolding Reader.str Reader.raw
str-IsStable = bind-IsStable Reader.u32 Reader.raw u32-IsStable raw-IsStable
