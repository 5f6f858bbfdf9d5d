-- ===== src/Vt/Feed.antt =====
-- VtParser::feed: the cases of its `switch`, one function for each state, and its loop.
use rivt.Base.{
  ℕ, ◌+◌, ◌-◌, ◌*◌, ◌/◌, ◌%◌, ◌^◌, Bool, true, false, not, ◌&&◌, ◌||◌, List, [], ◌∷◌, ◌++◌, Option,
  none, some, length, ltb, ◌==◌, if◌then◌else◌,
}
use rivt.Base.Bytes.{Bytes}
use rivt.Vt.Parser.{
  State, Parser, Action, transition, enter, Outcome, quiet, call, call_both, in_range, csi_done,
  osc_action, osc_max, apc_max, ends_string,
}

unfoldable pub start_utf8 : ℕ → ℕ → Parser → Outcome
start_utf8 bits n p =
    quiet (record p { state = State.utf8; utf8_codepoint = bits; utf8_remaining = n })

unfoldable pub on_ground : Parser → ℕ → Outcome
on_ground p b =
    if in_range 0x20 0x7E b
    then call (Action.print b) p
    else if in_range 0xC0 0xDF b
    then start_utf8 (b % 32) 1 p
    else if in_range 0xE0 0xEF b
    then start_utf8 (b % 16) 2 p
    else if in_range 0xF0 0xF7 b
    then start_utf8 (b % 8) 3 p
    else quiet p

unfoldable pub on_escape : Parser → ℕ → Outcome
on_escape p b =
    if b == b'['
    then quiet (transition State.csi_entry p)
    else if b == b']'
    then quiet (transition State.osc_string p)
    else if b == b'P'
    then call Action.dcs_start (transition State.dcs_entry p)
    else if b == b'_'
    then quiet (transition State.apc_string p)
    else if in_range 0x20 0x2F b
    then quiet (record p { state = State.escape_intermediate; esc_intermediate = b })
    else if in_range 0x30 0x7E b
    then call (Action.esc_dispatch p.esc_intermediate b) (enter State.ground p)
    else quiet (enter State.ground p)

unfoldable pub on_escape_intermediate : Parser → ℕ → Outcome
on_escape_intermediate p b =
    if in_range 0x20 0x2F b
    then quiet (record p { esc_intermediate = b })
    else if in_range 0x30 0x7E b
    then call (Action.esc_dispatch p.esc_intermediate b) (enter State.ground p)
    else quiet (enter State.ground p)

-- `m_csi_param_str += (char)byte`
unfoldable pub csi_collect : Parser → ℕ → Outcome
csi_collect p b =
    quiet (record p { state = State.csi_param; csi_param_str = p.csi_param_str ++ (b ∷ []) })

unfoldable pub on_csi_entry : Parser → ℕ → Outcome
on_csi_entry p b =
    if in_range b'0' b'9' b
    then csi_collect p b
    else if b == b';' || b == b':'
    then csi_collect p b
    else if b == b'?' || b == b'>' || b == b'<'
    then quiet (record p { state = State.csi_param; csi_intermediate = b })
    else if in_range 0x40 0x7E b
    then csi_done p b
    else if in_range 0x20 0x2F b
    then quiet (record p { state = State.csi_intermediate; csi_intermediate = b })
    else quiet (enter State.csi_ignore p)

-- The state stays CsiParam where a byte is collected, which is what `csi_collect` sets.
unfoldable pub on_csi_param : Parser → ℕ → Outcome
on_csi_param p b =
    if in_range b'0' b'9' b
    then csi_collect p b
    else if b == b';' || b == b':'
    then csi_collect p b
    else if in_range 0x40 0x7E b
    then csi_done p b
    else if in_range 0x20 0x2F b
    then quiet (record p { state = State.csi_intermediate; csi_intermediate = b })
    else quiet (enter State.csi_ignore p)

unfoldable pub on_csi_intermediate : Parser → ℕ → Outcome
on_csi_intermediate p b =
    if in_range 0x20 0x2F b
    then quiet p
    else if in_range 0x40 0x7E b
    then csi_done p b
    else quiet (enter State.csi_ignore p)

unfoldable pub on_csi_ignore : Parser → ℕ → Outcome
on_csi_ignore p b = if in_range 0x40 0x7E b then quiet (enter State.ground p) else quiet p

-- An ESC that no backslash follows is dropped.
unfoldable pub on_osc_string : Parser → ℕ → Option ℕ → Outcome
on_osc_string p b next =
    if b == 0x07
    then call (osc_action p.osc_string) (enter State.ground p)
    else if b == 0x1B
    then (if ends_string next
        then call_both (osc_action p.osc_string) (enter State.ground p)
        else quiet p)
    else if ltb (length p.osc_string) osc_max
    then quiet (record p { osc_string = p.osc_string ++ (b ∷ []) })
    else quiet p

unfoldable pub on_apc_string : Parser → ℕ → Option ℕ → Outcome
on_apc_string p b next =
    if b == 0x07
    then call (Action.apc_dispatch p.apc_string) (enter State.ground p)
    else if b == 0x1B
    then (if ends_string next
        then call_both (Action.apc_dispatch p.apc_string) (enter State.ground p)
        else quiet p)
    else if ltb (length p.apc_string) apc_max
    then quiet (record p { apc_string = p.apc_string ++ (b ∷ []) })
    else quiet p

unfoldable pub on_dcs_entry : Parser → ℕ → Outcome
on_dcs_entry p b =
    if in_range 0x40 0x7E b
    then quiet (enter State.dcs_passthrough p)
    else if in_range 0x30 0x3F b
    then quiet (record p { dcs_param_str = p.dcs_param_str ++ (b ∷ []) })
    else quiet (enter State.dcs_passthrough p)

unfoldable pub on_dcs_passthrough : Parser → ℕ → Option ℕ → Outcome
on_dcs_passthrough p b next =
    if b == 0x1B && ends_string next
    then call_both Action.dcs_end (enter State.ground p)
    else call (Action.dcs_put b) p

unfoldable pub on_dcs_ignore : Parser → ℕ → Option ℕ → Outcome
on_dcs_ignore p b next =
    if b == 0x1B && ends_string next then some (enter State.ground p, [], true) else quiet p

-- The `switch`. Its default is the Utf8 state, which never gets here.
unfoldable pub on_state : State → Parser → ℕ → Option ℕ → Outcome
on_state State.ground p b next = on_ground p b
on_state State.escape p b next = on_escape p b
on_state State.escape_intermediate p b next = on_escape_intermediate p b
on_state State.csi_entry p b next = on_csi_entry p b
on_state State.csi_param p b next = on_csi_param p b
on_state State.csi_intermediate p b next = on_csi_intermediate p b
on_state State.csi_ignore p b next = on_csi_ignore p b
on_state State.osc_string p b next = on_osc_string p b next
on_state State.dcs_entry p b next = on_dcs_entry p b
on_state State.dcs_passthrough p b next = on_dcs_passthrough p b next
on_state State.dcs_ignore p b next = on_dcs_ignore p b next
on_state State.apc_string p b next = on_apc_string p b next
on_state State.utf8 p b next = quiet (enter State.ground p)

-- The states in which an ESC may begin an ST, and C0 controls are part of the string.
unfoldable pub in_string : State → Bool
in_string State.osc_string = true
in_string State.dcs_passthrough = true
in_string State.apc_string = true
in_string _ = false

-- An iteration behind the test for a UTF-8 continuation. The branch for a BEL inside an OSC string
-- stands under a test that the state is none, so it is never taken.
unfoldable pub on_byte : Parser → ℕ → Option ℕ → Outcome
on_byte p b next =
    if b == 0x1B && not (in_string p.state)
    then quiet (transition State.escape p)
    else if ltb b 0x20 && not (b == 0x1B) && not (in_string p.state)
    then call (Action.execute b) p
    else on_state p.state p b next

-- A continuation byte; `byte & 0xC0` is 0x80.
unfoldable pub on_continuation : Parser → ℕ → Outcome
on_continuation p b =
    let cp = p.utf8_codepoint * 64 % 2 ^ 32 + b % 64 in
    let left = (p.utf8_remaining + (2 ^ 32 - 1)) % 2 ^ 32 in
    if left == 0
    then call (Action.print cp)
        (record p { state = State.ground; utf8_codepoint = cp; utf8_remaining = left })
    else quiet (record p { utf8_codepoint = cp; utf8_remaining = left })

unfoldable pub is_utf8 : State → Bool
is_utf8 State.utf8 = true
is_utf8 _ = false

-- One iteration of the loop, on a byte and the byte behind it.
unfoldable pub step : Parser → ℕ → Option ℕ → Outcome
step p b next =
    if is_utf8 p.state
    then (if b / 64 == 2 then on_continuation p b else on_byte (enter State.ground p) b next)
    else on_byte p b next

abbrev pub head? : Bytes → Option ℕ
head? [] = none
head? (b ∷ bs) = some b

-- The calls of a prefix, and then those of the rest.
abbrev pub before {ℓ} :
    {A : Type ℓ} → List Action → Option (A × List Action) → Option (A × List Action)
before calls none = none
before calls (some (a, rest)) = some (a, calls ++ rest)

-- The loop; `skip` is an `i++` inside an iteration.
unfoldable pub feed_from : Bool → Parser → Bytes → Option (Parser × List Action)
feed_from skip p [] = some (p, [])
feed_from true p (b ∷ bs) = feed_from false p bs
feed_from false p (b ∷ bs) = elim (step p b (head? bs)) [
  | none ↦ none
  | some (p', calls, skip) ↦ before calls (feed_from skip p' bs)
]

unfoldable pub feed : Parser → Bytes → Option (Parser × List Action)
feed p bs = feed_from false p bs
