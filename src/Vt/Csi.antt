-- ===== src/Vt/Csi.antt =====
-- A CSI sequence as a program writes it, with its parameters in decimal, read back by the parameter
-- loop of VtParser::action_csi_dispatch.
use rivt.Base.{
  ℕ, zero, suc, ◌^◌, ◌<◌, ◌≤◌, ◌≡◌, refl, false, List, [], ◌∷◌, ◌++◌, append_assoc, arith, length,
  length-append, ◌∙◌, ap, sym, some, ◌==◌, append-nil,
}
use rivt.Base.Bytes.{Bytes, All, All-append}
use rivt.Base.Int.{ℤ, pos, negsuc, signed32}
use rivt.Vt.Params.{
  CsiParam, is_digit, scan_value, scan_subs, skip_semicolon, scan_param, scan_params, csi_params,
}
use rivt.Vt.Scan.{IsParamChar, IsParamChar-ne_nul}
use mathlib.Core.Option
use rivt.Vt.Decimal.{
  decimal, IsDigit, decimal-IsDigit, decimal_nonempty, push_all, push_all-decimal, StopsDigits,
  scan_digits-append,
}

-- A value that a sequence can carry: a non-negative `int`, or -1 where nothing is written.
abbrev pub IsValue : ℤ → Type 0
IsValue (pos n) = n < 2 ^ 31
IsValue (negsuc n) = n ≡ 0

unfoldable pub print_value : ℤ → Bytes
print_value (pos n) = decimal 9 n
print_value (negsuc n) = []

unfoldable pub print_subs : List ℤ → Bytes
print_subs [] = []
print_subs (v ∷ vs) = b':' ∷ (print_value v ++ print_subs vs)

unfoldable pub print_param : CsiParam → Bytes
print_param p = print_value p.value ++ print_subs p.sub

-- Parameters are separated by semicolons.
unfoldable pub print_params : List CsiParam → Bytes
print_params [] = []
print_params (p ∷ []) = print_param p
print_params (p ∷ q ∷ ps) = print_param p ++ (b';' ∷ print_params (q ∷ ps))

abbrev pub IsParam : CsiParam → Type 0
IsParam p = IsValue p.value × All IsValue p.sub

-- An empty last parameter leaves no trace in the text.
abbrev pub EndsFilled : List CsiParam → Type 0
EndsFilled [] = Unit
EndsFilled (p ∷ []) = 0 < length (print_param p)
EndsFilled (p ∷ q ∷ ps) = EndsFilled (q ∷ ps)

scan_value_digits :
    (ds rest : Bytes)
    → 0 < length ds
    → All IsDigit ds
    → StopsDigits rest
    → scan_value (ds ++ rest) ≡ (signed32 (push_all 0 ds), rest)
unfolding scan_value
scan_value_digits [] rest p h s = absurd (omega arith)
scan_value_digits (d ∷ ds) rest p h s = rw (h.0, scan_digits-append 0 (d ∷ ds) rest h s)

scan_value_none : (rest : Bytes) → StopsDigits rest → scan_value rest ≡ (negsuc 0, rest)
unfolding scan_value
scan_value_none [] s = refl
scan_value_none (c ∷ rest) s = rw s

scan_value-print_value :
    (v : ℤ) (rest : Bytes)
    → IsValue v
    → StopsDigits rest
    → scan_value (print_value v ++ rest) ≡ (v, rest)
unfolding print_value
scan_value-print_value (pos n) rest h s =
    scan_value_digits (decimal 9 n) rest (decimal_nonempty 9 n) (decimal-IsDigit 9 n) s
    ∙ rw (push_all-decimal 9 n (omega arith) (omega arith)) (ground arith)
scan_value-print_value (negsuc n) rest h s = rw h (scan_value_none rest s)

-- The end of the string, or a character that starts neither a digit nor a sub-parameter.
abbrev StopsParam : Bytes → Type 0
StopsParam [] = Unit
StopsParam (c ∷ cs) = (is_digit c ≡ false) × ((c == b':') ≡ false)

print_subs_stops :
    (vs : List ℤ) (rest : Bytes) → StopsParam rest → StopsDigits (print_subs vs ++ rest)
unfolding print_subs is_digit
print_subs_stops [] [] s = tt
print_subs_stops [] (c ∷ rest) s = s.0
print_subs_stops (v ∷ vs) rest s = refl

scan_subs_none : (f : ℕ) (rest : Bytes) → StopsParam rest → scan_subs f rest ≡ ([], rest)
unfolding scan_subs
scan_subs_none zero rest s = refl
scan_subs_none (suc f) [] s = refl
scan_subs_none (suc f) (c ∷ rest) s = rw s.1

scan_subs_more :
    (f : ℕ) (cs : Bytes)
    → scan_subs (suc f) (b':' ∷ cs)
      ≡ ((scan_value cs).0 ∷ (scan_subs f (scan_value cs).1).0, (scan_subs f (scan_value cs).1).1)
unfolding scan_subs
scan_subs_more f cs = refl

scan_subs-print_subs :
    (vs : List ℤ) (f : ℕ) (rest : Bytes)
    → length (print_subs vs) ≤ f
    → All IsValue vs
    → StopsParam rest
    → scan_subs f (print_subs vs ++ rest) ≡ (vs, rest)
unfolding print_subs
scan_subs-print_subs [] f rest p h s = scan_subs_none f rest s
scan_subs-print_subs (v ∷ vs) zero rest p h s = absurd (omega arith)
scan_subs-print_subs (v ∷ vs) (suc f) rest p h s =
    rw
      (
        append_assoc,
        scan_subs_more,
        scan_value-print_value v (print_subs vs ++ rest) h.0 (print_subs_stops vs rest s),
      )
      (rw (
        scan_subs-print_subs vs f rest
          (omega (arith, length-append (print_value v) (print_subs vs))) h.1 s))

scan_param-print_param :
    (p : CsiParam) (rest : Bytes)
    → IsParam p
    → StopsParam rest
    → scan_param (print_param p ++ rest) ≡ (p, skip_semicolon rest)
unfolding scan_param print_param
scan_param-print_param p rest h s =
    let subs = print_subs p.sub in
    rw
      (
        append_assoc,
        scan_value-print_value p.value (subs ++ rest) h.0 (print_subs_stops p.sub rest s),
      )
      (rw (
        scan_subs-print_subs p.sub (length (subs ++ rest)) rest
          (omega (arith, length-append subs rest)) h.1 s))

digits_chars : (cs : Bytes) → All IsDigit cs → All IsParamChar cs
digits_chars [] h = tt
digits_chars (c ∷ cs) h = (rw h.0 refl, digits_chars cs h.1)

value_chars : (v : ℤ) → All IsParamChar (print_value v)
unfolding print_value
value_chars (pos n) = digits_chars (decimal 9 n) (decimal-IsDigit 9 n)
value_chars (negsuc n) = tt

separator_chars : IsParamChar b':' × IsParamChar b';'
unfolding is_digit
separator_chars = (refl, refl)

subs_chars : (vs : List ℤ) → All IsParamChar (print_subs vs)
unfolding print_subs
subs_chars [] = tt
subs_chars (v ∷ vs) = (
  separator_chars.0,
  All-append IsParamChar (print_value v) (print_subs vs) (value_chars v) (subs_chars vs),
)

param_chars : (p : CsiParam) → All IsParamChar (print_param p)
unfolding print_param
param_chars p =
    All-append IsParamChar (print_value p.value) (print_subs p.sub) (value_chars p.value)
      (subs_chars p.sub)

pub params_chars : (ps : List CsiParam) → All IsParamChar (print_params ps)
unfolding print_params
params_chars [] = tt
params_chars (p ∷ []) = param_chars p
params_chars (p ∷ q ∷ ps) =
    All-append IsParamChar (print_param p) (b';' ∷ print_params (q ∷ ps)) (param_chars p)
      (separator_chars.1, params_chars (q ∷ ps))

scan_params_round :
    (f : ℕ) (cs : Bytes)
    → 0 < length cs
    → All IsParamChar cs
    → scan_params (suc f) cs
      ≡ Option.map (λ ps. (scan_param cs).0 ∷ ps) (scan_params f (scan_param cs).1)
unfolding scan_params
scan_params_round f [] p h = absurd (omega arith)
scan_params_round f (c ∷ cs) p h = rw (IsParamChar-ne_nul c h.0)

semicolon_stops : (rest : Bytes) → StopsParam (b';' ∷ rest) × (skip_semicolon (b';' ∷ rest) ≡ rest)
unfolding is_digit skip_semicolon
semicolon_stops rest = ((refl, refl), refl)

scan_params-print_param :
    (p : CsiParam) (rest : Bytes) (f : ℕ)
    → 0 < length (print_param p ++ rest)
    → All IsParamChar rest
    → IsParam p
    → StopsParam rest
    → scan_params (suc f) (print_param p ++ rest)
      ≡ Option.map (λ ps. p ∷ ps) (scan_params f (skip_semicolon rest))
scan_params-print_param p rest f l c h s =
    scan_params_round f (print_param p ++ rest) l
      (All-append IsParamChar (print_param p) rest (param_chars p) c)
    ∙ ap (λ (t : CsiParam × Bytes). Option.map (λ ps. t.0 ∷ ps) (scan_params f t.1))
        (scan_param-print_param p rest h s)

scan_params_end : (f : ℕ) → scan_params (suc f) (skip_semicolon []) ≡ some []
unfolding scan_params skip_semicolon
scan_params_end f = refl

scan_params-print_params :
    (ps : List CsiParam) (f : ℕ)
    → length (print_params ps) < f
    → All IsParam ps
    → EndsFilled ps
    → scan_params f (print_params ps) ≡ some ps
unfolding print_params
scan_params-print_params ps zero l h e = absurd (omega arith)
scan_params-print_params [] (suc f) l h e = unfold scan_params in refl
scan_params-print_params (p ∷ []) (suc zero) l h e = absurd (omega arith)
scan_params-print_params (p ∷ []) (suc (suc f)) l h e =
    ap (scan_params (suc (suc f))) (sym (append-nil (print_param p)))
    ∙ scan_params-print_param p [] (suc f) (rw append-nil e) tt h.0 tt
    ∙ rw (scan_params_end f)
scan_params-print_params (p ∷ q ∷ ps) (suc f) l h e =
    let rest = print_params (q ∷ ps) in
    let lengths = length-append (print_param p) (b';' ∷ rest) in
    scan_params-print_param p (b';' ∷ rest) f (omega (arith, lengths))
      (separator_chars.1, params_chars (q ∷ ps)) h.0 (semicolon_stops rest).0
    ∙ rw (
      (semicolon_stops rest).1,
      scan_params-print_params (q ∷ ps) f (omega (arith, lengths)) h.1 e,
    )

-- Written parameters are read back, sub-parameters and empty ones included, when each value is below
-- 2 ^ 31 and the last parameter is not empty.
pub csi_params-print_params :
    (ps : List CsiParam) → All IsParam ps → EndsFilled ps → csi_params (print_params ps) ≡ some ps
unfolding csi_params
csi_params-print_params ps h e =
    scan_params-print_params ps (suc (length (print_params ps))) (omega arith) h e
