-- ===== src/Wire/FailSoft.antt =====
-- The reader of src/proto/wire.h on any input: short, cut off or malformed.
use rivt.Base.{
  ℕ, ◌≡◌, refl, false, List, [], ◌∷◌, ◌++◌, map, append-nil, arith, length, length-append, ◌∙◌, ap,
  sym, inl, inr, Bool-cases,
}
use rivt.Base.Bytes.{Bytes, All, le_value}
use rivt.Wire.Writer
use rivt.Wire.Reader
use rivt.Wire.Reader.{Reader, start}
use rivt.Wire.Stable.{
  IsStable, failed, bind-IsStable, pure-IsStable, u8-IsStable, u16-IsStable, u32-IsStable,
  u64-IsStable, i32-IsStable, str-IsStable, ok_start,
}
use rivt.Wire.Fields.{Field, Kind, kind, Fits, write_all, read, read_all, zero_of}
use rivt.Wire.RoundTrip.{read_all-write_all}

read-failed : (k : Kind) (b : Bytes) → read k (failed b) ≡ (zero_of k, failed b)
unfolding read Reader.u8 Reader.u16 Reader.u32 Reader.u64 Reader.i32 Reader.str Reader.number
    Reader.raw le_value
read-failed Kind.u8 b = refl
read-failed _ b = refl

-- Once a read has failed, every later read gives a zero or an empty value, moves nothing and
-- leaves the failure standing.
pub read_all-failed :
    (ks : List Kind) (b : Bytes) → read_all ks (failed b) ≡ (map zero_of ks, failed b)
unfolding read_all
read_all-failed [] b = refl
read_all-failed (k ∷ ks) b = rw (read-failed k b, read_all-failed ks b)

pub read-IsStable : (k : Kind) → IsStable (read k)
unfolding read
read-IsStable Kind.u8 = bind-IsStable _ _ u8-IsStable (λ v. pure-IsStable (Field.u8 v))
read-IsStable Kind.u16 = bind-IsStable _ _ u16-IsStable (λ v. pure-IsStable (Field.u16 v))
read-IsStable Kind.u32 = bind-IsStable _ _ u32-IsStable (λ v. pure-IsStable (Field.u32 v))
read-IsStable Kind.u64 = bind-IsStable _ _ u64-IsStable (λ v. pure-IsStable (Field.u64 v))
read-IsStable Kind.i32 = bind-IsStable _ _ i32-IsStable (λ v. pure-IsStable (Field.i32 v))
read-IsStable Kind.str = bind-IsStable _ _ str-IsStable (λ v. pure-IsStable (Field.str v))

pub read_all-IsStable : (ks : List Kind) → IsStable (read_all ks)
unfolding read_all
read_all-IsStable [] = pure-IsStable []
read_all-IsStable (k ∷ ks) =
    bind-IsStable (read k) _ (read-IsStable k)
      (λ f. bind-IsStable (read_all ks) _ (read_all-IsStable ks) (λ fs. pure-IsStable (f ∷ fs)))

-- Reads that succeed take their bytes from the front: the reader never leaves its buffer.
pub read_all_takes :
    (ks : List Kind) (b : Bytes) (fs : List Field) (r : Bytes)
    → read_all ks (start b) ≡ (fs, start r)
    → (used : Bytes) × (b ≡ used ++ r)
read_all_takes ks = (read_all-IsStable ks).takes

-- What the writer wrote, cut off anywhere before its end, makes the matching reads fail.
pub read_all_truncated :
    (fs : List Field) (front back : Bytes) (x : ℕ)
    → All Fits fs
    → (write_all fs Writer.empty).buf ≡ front ++ (x ∷ back)
    → (read_all (map kind fs) (start front)).1.ok ≡ false
read_all_truncated fs front back x h e =
    elim (Bool-cases (read_all (map kind fs) (start front)).1.ok) [
      | inl good ↦
          let (gs, s) = read_all (map kind fs) (start front) in
          let whole =
            (read_all-IsStable (map kind fs)).grows front (x ∷ back) gs s.rest
              (ap (λ t. (gs, t)) (ok_start s good)) in
          let written = rw (append-nil, e) at (read_all-write_all fs [] h) in
          absurd (
            omega (
              arith,
              ap (λ (t : List Field × Reader). length t.1.rest) (sym whole ∙ written),
              length-append s.rest (x ∷ back),
            ))
      | inr bad ↦ bad
    ]
