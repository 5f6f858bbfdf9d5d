-- ===== src/Vt/Params.antt =====
-- The parameters of a CSI sequence: `CsiParam`, `CsiParams` and the loop of
-- VtParser::action_csi_dispatch. A string is its bytes; its end stands for the NUL of `c_str()`.
use rivt.Base.{
  ℕ, zero, suc, ◌+◌, ◌-◌, ◌*◌, ◌%◌, ◌^◌, Bool, ◌&&◌, List, [], ◌∷◌, Option, none, some, length,
  get_elem?, leb, ◌==◌, if◌then◌else◌,
}
use rivt.Base.Bytes.{Bytes}
use rivt.Base.Int.{ℤ, pos, negsuc, signed32, ltb_ℤ, pos_part}
use mathlib.Core.Option

-- A value of -1 is an empty parameter.
pub record CsiParam : Type 0 where
  pub value : ℤ
  pub sub : List ℤ

unfoldable pub param_get : CsiParam → ℤ → ℤ
param_get p def = if ltb_ℤ p.value (pos 0) then def else p.value

unfoldable pub params_get : List CsiParam → ℤ → ℤ → ℤ
unfolding param_get
params_get ps idx def =
    if ltb_ℤ idx (pos 0)
    then def
    else elim (get_elem? ps (pos_part idx)) [ none ↦ def | some p ↦ param_get p def ]

unfoldable pub is_digit : ℕ → Bool
is_digit c = leb b'0' c && leb c b'9'

-- `v * 10 + d` on an `int`, kept as its 32-bit pattern: a C++ overflow is undefined, and wraps here.
abbrev pub push_digit : ℕ → ℕ → ℕ
push_digit v c = (v * 10 + (c - b'0')) % 2 ^ 32

unfoldable pub scan_digits : ℕ → Bytes → ℕ × Bytes
unfolding is_digit
scan_digits v [] = (v, [])
scan_digits v (c ∷ cs) = if is_digit c then scan_digits (push_digit v c) cs else (v, c ∷ cs)

-- The number that starts here, or -1 where no digit stands.
unfoldable pub scan_value : Bytes → ℤ × Bytes
scan_value [] = (negsuc 0, [])
scan_value (c ∷ cs) =
    if is_digit c
    then (let (v, rest) = scan_digits 0 (c ∷ cs) in (signed32 v, rest))
    else (negsuc 0, c ∷ cs)

-- `while (*p == ':')`. Each round takes the colon, so a unit of fuel for each byte is enough.
unfoldable pub scan_subs : ℕ → Bytes → List ℤ × Bytes
scan_subs zero cs = ([], cs)
scan_subs (suc f) [] = ([], [])
scan_subs (suc f) (c ∷ cs) =
    let (v, rest) = scan_value cs in
    let more = scan_subs f rest in if c == b':' then (v ∷ more.0, more.1) else ([], c ∷ cs)

unfoldable pub skip_semicolon : Bytes → Bytes
skip_semicolon [] = []
skip_semicolon (c ∷ cs) = if c == b';' then cs else c ∷ cs

-- One round of `while (*p)`: the parameter, and where `p` stands after it.
unfoldable pub scan_param : Bytes → CsiParam × Bytes
scan_param cs =
    let (v, rest) = scan_value cs in
    let (subs, rest') = scan_subs (length rest) rest in
    (record { value = v; sub = subs }, skip_semicolon rest')

-- `while (*p)` with fuel; `none` means that it ran out.
unfoldable pub scan_params : ℕ → Bytes → Option (List CsiParam)
scan_params zero cs = none
scan_params (suc f) [] = some []
scan_params (suc f) (c ∷ cs) =
    let (param, rest) = scan_param (c ∷ cs) in
    let more = Option.map (λ ps. param ∷ ps) (scan_params f rest) in
    if c == 0 then some [] else more

-- The parameters that `action_csi_dispatch` hands over. `none` means that its loop does not end: a
-- round for each byte and one more is all that a loop that ends can take.
unfoldable pub csi_params : Bytes → Option (List CsiParam)
csi_params cs = scan_params (suc (length cs)) cs
