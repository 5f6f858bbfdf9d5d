-- ===== src/Vt/Osc.antt =====
-- An OSC sequence (window titles, hyperlinks, the clipboard) through VtParser::feed.
use rivt.Base.{
  ℕ, ◌+◌, ◌<◌, ◌≤◌, ◌^◌, ◌≡◌, ◌≢◌, refl, false, [], ◌∷◌, ◌++◌, append_assoc, append-nil, arith,
  length, length-append, ◌∙◌, ap, sym, Option, some, ◌==◌,
}
use rivt.Base.Bytes.{Bytes, All, All-append}
use rivt.Base.Int.{pos}
use rivt.Vt.Params.{is_digit}
use rivt.Vt.Decimal.{decimal, IsDigit, decimal-IsDigit, push_all-decimal, osc_command-digits}
use rivt.Vt.Parser.{State, Parser, Action, transition, enter, osc_max, osc_action, split_semicolon}
use rivt.Vt.Feed.{step, is_utf8, on_byte, in_string, on_state, on_osc_string, feed, before, head?}
use rivt.Vt.Text.{feed_quiet, feed_call}
use rivt.Vt.Sequences.{step_escape, step_osc}

-- A byte of an OSC string that does not end it.
abbrev pub IsText : ℕ → Type 0
IsText c = (c ≢ 0x07) × (c ≢ 0x1B)

abbrev gather : Parser → Bytes → Parser
gather q cs = record q { osc_string = q.osc_string ++ cs }

step-gather :
    (q : Parser) (c : ℕ) (next : Option ℕ)
    → q.state ≡ State.osc_string
    → IsText c
    → length q.osc_string < osc_max
    → step q c next ≡ some (gather q (c ∷ []), [], false)
unfolding step is_utf8 on_byte in_string on_state on_osc_string
step-gather q c next e h l = ground arith

feed-gather :
    (cs rest : Bytes) (q : Parser)
    → q.state ≡ State.osc_string
    → All IsText cs
    → length q.osc_string + length cs ≤ osc_max
    → feed q (cs ++ rest) ≡ feed (gather q cs) rest
feed-gather [] rest q e h l =
    ap (λ s. feed (record q { osc_string = s }) rest) (sym (append-nil q.osc_string))
feed-gather (c ∷ cs) rest q e h l =
    feed_quiet q (gather q (c ∷ [])) c (cs ++ rest)
      (step-gather q c (head? (cs ++ rest)) e h.0 (omega arith))
    ∙ feed-gather cs rest (gather q (c ∷ [])) e h.1
        (omega (arith, length-append q.osc_string (c ∷ [])))
    ∙ ap (λ s. feed (record q { osc_string = s }) rest) (append_assoc q.osc_string (c ∷ []) cs)

step_bel :
    (q : Parser) (next : Option ℕ)
    → q.state ≡ State.osc_string
    → step q 0x07 next ≡ some (enter State.ground q, osc_action q.osc_string ∷ [], false)
unfolding step is_utf8 on_byte in_string on_state on_osc_string
step_bel q next e = ground arith

split_semicolon-digits :
    (ds payload : Bytes)
    → All IsDigit ds
    → split_semicolon (ds ++ (b';' ∷ payload)) ≡ some (ds, payload)
unfolding split_semicolon
split_semicolon-digits [] payload h = refl
split_semicolon-digits (d ∷ ds) payload h =
    let not_semicolon : (d == b';') ≡ false = unfold is_digit in ground arith in
    rw (not_semicolon, split_semicolon-digits ds payload h.1)

osc_action_lem :
    (n : ℕ) (payload : Bytes)
    → n < 2 ^ 31
    → osc_action (decimal 9 n ++ (b';' ∷ payload)) ≡ Action.osc_dispatch (pos n) payload
unfolding osc_action
osc_action_lem n payload h =
    rw (split_semicolon-digits (decimal 9 n) payload (decimal-IsDigit 9 n), osc_action)
      (rw
        (
          osc_command-digits 0 (decimal 9 n) (decimal-IsDigit 9 n),
          push_all-decimal 9 n (omega arith) (omega arith),
        )
        (ground arith))

digits-IsText : (ds : Bytes) → All IsDigit ds → All IsText ds
unfolding is_digit
digits-IsText [] h = tt
digits-IsText (d ∷ ds) h = (ground arith, digits-IsText ds h.1)

-- What an OSC sequence leaves behind.
abbrev pub after_osc : Parser → Bytes → Parser
after_osc p s = record p { state = State.ground; osc_string = s; esc_intermediate = 0 }

-- ESC ], a command number below 2 ^ 31 in decimal, a semicolon, a payload with neither BEL nor ESC and a BEL, fed
-- to a parser in its ground state, make exactly one call, with that number and that payload, when
-- number and payload keep within the limit of the string. What follows is read from the ground
-- state.
pub feed_osc :
    (p : Parser) (n : ℕ) (payload rest : Bytes)
    → p.state ≡ State.ground
    → n < 2 ^ 31
    → All IsText payload
    → length (decimal 9 n ++ (b';' ∷ payload)) ≤ osc_max
    → feed p (0x1B ∷ b']' ∷ ((decimal 9 n ++ (b';' ∷ payload)) ++ (0x07 ∷ rest)))
      ≡ before
          (Action.osc_dispatch (pos n) payload ∷ [])
          (feed (after_osc p (decimal 9 n ++ (b';' ∷ payload))) rest)
unfolding transition
feed_osc p n payload rest e hn h l =
    let s = decimal 9 n ++ (b';' ∷ payload) in
    let q = transition State.osc_string (transition State.escape p) in
    let text =
      All-append IsText (decimal 9 n) (b';' ∷ payload) (digits-IsText _ (decimal-IsDigit 9 n))
        ((omega arith), h) in
    feed_quiet p _ 0x1B _ (step_escape p _ e)
    ∙ feed_quiet _ _ b']' _ (step_osc p _)
    ∙ feed-gather s (0x07 ∷ rest) q refl text (omega arith)
    ∙ feed_call (gather q s) (after_osc p s) (osc_action s) 0x07 rest (step_bel (gather q s) _ refl)
    ∙ ap (λ a. before (a ∷ []) (feed (after_osc p s) rest)) (osc_action_lem n payload hn)
