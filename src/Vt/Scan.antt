-- ===== src/Vt/Scan.antt =====
-- The parameter loop of VtParser::action_csi_dispatch ends on every string that `feed` collects.
use rivt.Base.{
  ℕ, zero, suc, ◌+◌, ◌-◌, ◌*◌, ◌%◌, ◌^◌, ◌<◌, ◌≤◌, ◌≡◌, ◌≢◌, refl, true, false, ◌||◌, List, [], ◌∷◌,
  none, some, arith, length, ◌==◌, Bool-cases, inl, inr,
}
use rivt.Base.Bytes.{Bytes, All}
use rivt.Vt.Params.{
  CsiParam, is_digit, scan_digits, scan_value, scan_subs, skip_semicolon, scan_param, scan_params,
  csi_params,
}

-- What `feed` appends to `m_csi_param_str`.
abbrev pub IsParamChar : ℕ → Type 0
IsParamChar c = (is_digit c || c == b';' || c == b':') ≡ true

-- `rest` is made of the same characters as before, and is no longer than `cs`.
abbrev Shrinks : Bytes → Bytes → Type 0
Shrinks cs rest = (length rest ≤ length cs) × All IsParamChar rest

scan_digits-Shrinks : (v : ℕ) (cs : Bytes) → All IsParamChar cs → Shrinks cs (scan_digits v cs).1
unfolding scan_digits
scan_digits-Shrinks v [] h = (omega arith, tt)
scan_digits-Shrinks v (c ∷ cs) h =
    ground (arith, scan_digits-Shrinks ((v * 10 + (c - b'0')) % 2 ^ 32) cs h.1)

scan_value-Shrinks : (cs : Bytes) → All IsParamChar cs → Shrinks cs (scan_value cs).1
unfolding scan_value
scan_value-Shrinks [] h = (omega arith, tt)
scan_value-Shrinks (c ∷ cs) h = ground (arith, scan_digits-Shrinks 0 (c ∷ cs) h)

-- A digit is taken.
scan_value_digit :
    (c : ℕ) (cs : Bytes)
    → is_digit c ≡ true
    → All IsParamChar cs
    → length (scan_value (c ∷ cs)).1 < length (c ∷ cs)
unfolding scan_value scan_digits
scan_value_digit c cs d h =
    ground (arith, scan_digits-Shrinks ((0 * 10 + (c - b'0')) % 2 ^ 32) cs h)

scan_value_other : (c : ℕ) (cs : Bytes) → is_digit c ≡ false → (scan_value (c ∷ cs)).1 ≡ c ∷ cs
unfolding scan_value
scan_value_other c cs d = ground arith

scan_subs-Shrinks : (f : ℕ) (cs : Bytes) → All IsParamChar cs → Shrinks cs (scan_subs f cs).1
unfolding scan_subs
scan_subs-Shrinks zero cs h = (omega arith, h)
scan_subs-Shrinks (suc f) [] h = (omega arith, tt)
scan_subs-Shrinks (suc f) (c ∷ cs) h =
    ground (arith, scan_value-Shrinks cs h.1, scan_subs-Shrinks f (scan_value cs).1)

-- A colon is taken.
scan_subs_colon :
    (f : ℕ) (cs : Bytes)
    → All IsParamChar cs
    → length (scan_subs (suc f) (b':' ∷ cs)).1 < length (b':' ∷ cs)
unfolding scan_subs
scan_subs_colon f cs h =
    ground (arith, scan_value-Shrinks cs h, scan_subs-Shrinks f (scan_value cs).1)

skip_semicolon-Shrinks : (cs : Bytes) → All IsParamChar cs → Shrinks cs (skip_semicolon cs)
unfolding skip_semicolon
skip_semicolon-Shrinks [] h = (omega arith, tt)
skip_semicolon-Shrinks (c ∷ cs) h = ground arith

skip_semicolon_taken : (cs : Bytes) → skip_semicolon (b';' ∷ cs) ≡ cs
unfolding skip_semicolon
skip_semicolon_taken cs = refl

-- A colon or a semicolon that starts a round is taken by it.
separator_taken :
    (c : ℕ) (cs : Bytes)
    → is_digit c ≡ false
    → All IsParamChar (c ∷ cs)
    → length (skip_semicolon (scan_subs (suc (length cs)) (c ∷ cs)).1) < suc (length cs)
unfolding scan_subs
separator_taken c cs d h = ground (
  arith,
  skip_semicolon_taken cs,
  scan_value-Shrinks cs h.1,
  scan_subs-Shrinks (length cs) (scan_value cs).1,
  skip_semicolon-Shrinks (scan_subs (length cs) (scan_value cs).1).1,
)

-- Each round takes a character at least.
pub scan_param_shrinks :
    (c : ℕ) (cs : Bytes)
    → All IsParamChar (c ∷ cs)
    → (length (scan_param (c ∷ cs)).1 < length (c ∷ cs)) × All IsParamChar (scan_param (c ∷ cs)).1
unfolding scan_param
scan_param_shrinks c cs h =
    let value = scan_value-Shrinks (c ∷ cs) h in
    let subs = scan_subs-Shrinks (length (scan_value (c ∷ cs)).1) (scan_value (c ∷ cs)).1 value.1 in
    let rest = skip_semicolon-Shrinks _ subs.1 in
    elim (Bool-cases (is_digit c)) [
      | inl digit ↦ (omega (arith, rest.0, subs.0, scan_value_digit c cs digit h.1), rest.1)
      | inr other ↦ (rw (scan_value_other c cs other) (separator_taken c cs other h), rest.1)
    ]

pub IsParamChar-ne_nul : (c : ℕ) → IsParamChar c → (c == 0) ≡ false
unfolding is_digit
IsParamChar-ne_nul c h = ground arith

scan_params_ends :
    (f : ℕ) (cs : Bytes)
    → length cs < f
    → All IsParamChar cs
    → (ps : List CsiParam) × (scan_params f cs ≡ some ps)
unfolding scan_params
scan_params_ends zero cs p h = absurd (omega arith)
scan_params_ends (suc f) [] p h = ([], refl)
scan_params_ends (suc f) (c ∷ cs) p h =
    let (shorter, chars) = scan_param_shrinks c cs h in
    let (ps, e) = scan_params_ends f (scan_param (c ∷ cs)).1 (omega arith) chars in
    ((scan_param (c ∷ cs)).0 ∷ ps, rw (IsParamChar-ne_nul c h.0, e))

-- The loop ends on every string of digits, semicolons and colons.
pub csi_params_ends :
    (cs : Bytes) → All IsParamChar cs → (ps : List CsiParam) × (csi_params cs ≡ some ps)
unfolding csi_params
csi_params_ends cs h = scan_params_ends (suc (length cs)) cs (omega arith) h

scan_param_stuck :
    (c : ℕ) (cs : Bytes)
    → (is_digit c || c == b';' || c == b':') ≡ false
    → (scan_param (c ∷ cs)).1 ≡ c ∷ cs
unfolding scan_param scan_value scan_subs skip_semicolon
scan_param_stuck c cs h = ground arith

-- A round takes nothing where another character stands, so the loop does not end there, whatever
-- the fuel.
pub scan_params_stuck :
    (f c : ℕ) (cs : Bytes)
    → (is_digit c || c == b';' || c == b':') ≡ false
    → c ≢ 0
    → scan_params f (c ∷ cs) ≡ none
unfolding scan_params
scan_params_stuck zero c cs h z = refl
scan_params_stuck (suc f) c cs h z =
    ground (arith, scan_param_stuck c cs h, scan_params_stuck f c cs h z)
