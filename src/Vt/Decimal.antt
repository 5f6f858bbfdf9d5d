-- ===== src/Vt/Decimal.antt =====
-- Numbers in decimal, as a program writes them into a control sequence, and the digit loops of
-- src/terminal/vt_parser.cpp on them.
use rivt.Base.{
  ℕ, zero, suc, ◌+◌, ◌/◌, ◌%◌, ◌^◌, ◌<◌, ◌≡◌, refl, true, false, [], ◌∷◌, ◌++◌, arith, length,
  length-append, ltb, if◌then◌else◌, Bool-cases, inl, inr,
}
use rivt.Base.Bytes.{Bytes, All, All-append}
use rivt.Vt.Params.{is_digit, push_digit, scan_digits}
use rivt.Vt.Parser.{osc_command}
use native.Mathlib.Nat.{pow-suc}

-- The decimal digits of `n`, for `n` below 10 ^ (f + 1).
unfoldable pub decimal : ℕ → ℕ → Bytes
decimal zero n = (b'0' + n % 10) ∷ []
decimal (suc f) n =
    let front = decimal f (n / 10) in
    if ltb n 10 then (b'0' + n) ∷ [] else front ++ ((b'0' + n % 10) ∷ [])

abbrev pub IsDigit : ℕ → Type 0
IsDigit c = is_digit c ≡ true

numeral-IsDigit : (d : ℕ) → d < 10 → IsDigit (b'0' + d)
unfolding is_digit
numeral-IsDigit d h = ground arith

pub decimal-IsDigit : (f n : ℕ) → All IsDigit (decimal f n)
unfolding decimal
decimal-IsDigit zero n = (numeral-IsDigit (n % 10) (omega arith), tt)
decimal-IsDigit (suc f) n = elim (Bool-cases (ltb n 10)) [
  | inl one ↦ rw one (numeral-IsDigit n (ground arith), tt)
  | inr more ↦ rw more (
      All-append IsDigit (decimal f (n / 10)) _ (decimal-IsDigit f (n / 10))
        (numeral-IsDigit (n % 10) (omega arith), tt))
]

pub decimal_nonempty : (f n : ℕ) → 0 < length (decimal f n)
unfolding decimal
decimal_nonempty zero n = omega arith
decimal_nonempty (suc f) n =
    ground (arith, length-append (decimal f (n / 10)) ((b'0' + n % 10) ∷ []))

-- The digit loop over a string of digits.
unfoldable pub push_all : ℕ → Bytes → ℕ
push_all v [] = v
push_all v (c ∷ cs) = push_all (push_digit v c) cs

push_all-append :
    (v : ℕ) (cs : Bytes) (c : ℕ) → push_all v (cs ++ (c ∷ [])) ≡ push_digit (push_all v cs) c
unfolding push_all
push_all-append v [] c = refl
push_all-append v (x ∷ cs) c = push_all-append (push_digit v x) cs c

pub push_all-decimal : (f n : ℕ) → n < 10 ^ suc f → n < 2 ^ 32 → push_all 0 (decimal f n) ≡ n
unfolding decimal
push_all-decimal zero n h w = unfold push_all in omega arith
push_all-decimal (suc f) n h w =
    let ih = push_all-decimal f (n / 10) (omega (arith, pow-suc 10 (suc f))) (omega arith) in
    elim (Bool-cases (ltb n 10)) [
      | inl one ↦ rw one (unfold push_all in ground arith)
      | inr more ↦
          rw (more, push_all-append 0 (decimal f (n / 10)) (b'0' + n % 10), ih) (omega arith)
    ]

-- The loop stops behind the digits.
abbrev pub StopsDigits : Bytes → Type 0
StopsDigits [] = Unit
StopsDigits (c ∷ cs) = is_digit c ≡ false

pub scan_digits-append :
    (v : ℕ) (cs rest : Bytes)
    → All IsDigit cs
    → StopsDigits rest
    → scan_digits v (cs ++ rest) ≡ (push_all v cs, rest)
unfolding scan_digits push_all
scan_digits-append v [] [] h s = refl
scan_digits-append v [] (r ∷ rest) h s = rw s
scan_digits-append v (c ∷ cs) rest h s = rw h.0 (scan_digits-append (push_digit v c) cs rest h.1 s)

pub osc_command-digits : (v : ℕ) (cs : Bytes) → All IsDigit cs → osc_command v cs ≡ push_all v cs
unfolding osc_command push_all
osc_command-digits v [] h = refl
osc_command-digits v (c ∷ cs) h = rw h.0 (osc_command-digits (push_digit v c) cs h.1)
