-- ===== src/Vt/Parser.antt =====
-- The state of a `VtParser`, the calls that it makes of its handler, and its step on one byte.
-- The bit masks of the source are written as divisions and remainders: `byte & 0x1F` is `byte % 32`,
-- and `(cp << 6) | (byte & 0x3F)` adds, since the six low bits of the shifted number are 0.
use rivt.Base.{
  ℕ, ◌*◌, Bool, true, false, ◌&&◌, List, [], ◌∷◌, Option, none, some, leb, ◌==◌, if◌then◌else◌,
}
use rivt.Base.Bytes.{Bytes}
use rivt.Base.Int.{ℤ, signed32}
use rivt.Vt.Params.{CsiParam, is_digit, push_digit, csi_params}
use mathlib.Core.Option

pub data State : Type 0 where
  ground escape escape_intermediate csi_entry csi_param csi_intermediate csi_ignore : State
  osc_string dcs_entry dcs_passthrough dcs_ignore apc_string utf8 : State

-- `utf8_remaining` is an `int`, kept as its 32-bit pattern.
pub record Parser : Type 0 where
  pub state : State
  pub utf8_codepoint : ℕ
  pub utf8_remaining : ℕ
  pub csi_param_str : Bytes
  pub csi_intermediate : ℕ
  pub esc_intermediate : ℕ
  pub osc_string : Bytes
  pub apc_string : Bytes
  pub dcs_param_str : Bytes

abbrev pub initial : Parser
initial = record {
  state = State.ground;
  utf8_codepoint = 0;
  utf8_remaining = 0;
  csi_param_str = [];
  csi_intermediate = 0;
  esc_intermediate = 0;
  osc_string = [];
  apc_string = [];
  dcs_param_str = [];
}

-- The calls of the `VtHandler`, in order.
pub data Action : Type 0 where
  print execute : ℕ → Action
  csi_dispatch : List CsiParam → ℕ → ℕ → Action
  osc_dispatch : ℤ → Bytes → Action
  esc_dispatch : ℕ → ℕ → Action
  dcs_start : Action
  dcs_put : ℕ → Action
  dcs_end : Action
  apc_dispatch : Bytes → Action

-- VtParser::transition
unfoldable pub transition : State → Parser → Parser
transition State.csi_entry p = record p {
  state = State.csi_entry;
  csi_param_str = [];
  csi_intermediate = 0;
}
transition State.osc_string p = record p { state = State.osc_string; osc_string = [] }
transition State.escape p = record p { state = State.escape; esc_intermediate = 0 }
transition State.dcs_entry p = record p { state = State.dcs_entry; dcs_param_str = [] }
transition State.apc_string p = record p { state = State.apc_string; apc_string = [] }
transition s p = record p { state = s }

abbrev pub enter : State → Parser → Parser
enter s p = record p { state = s }

-- What one byte does: the parser after it, the calls, and whether the next byte (`i++`) goes with it.
-- `none` is a loop that does not end.
abbrev pub Outcome : Type 0
Outcome = Option (Parser × List Action × Bool)

abbrev pub quiet : Parser → Outcome
quiet p = some (p, [], false)

abbrev pub call : Action → Parser → Outcome
call a p = some (p, a ∷ [], false)

-- `call`, with the byte behind this one taken too.
abbrev pub call_both : Action → Parser → Outcome
call_both a p = some (p, a ∷ [], true)

unfoldable pub in_range : ℕ → ℕ → ℕ → Bool
in_range lo hi c = leb lo c && leb c hi

-- VtParser::action_csi_dispatch, then `m_state = State::Ground`.
unfoldable pub csi_done : Parser → ℕ → Outcome
csi_done p final =
    Option.map
      (λ ps. (enter State.ground p, Action.csi_dispatch ps p.csi_intermediate final ∷ [], false))
      (csi_params p.csi_param_str)

-- `m_osc_string.find(';')`: what stands before and behind it.
unfoldable pub split_semicolon : Bytes → Option (Bytes × Bytes)
split_semicolon [] = none
split_semicolon (c ∷ cs) =
    if c == b';'
    then some ([], cs)
    else Option.map (λ (s : Bytes × Bytes). (c ∷ s.0, s.1)) (split_semicolon cs)

unfoldable pub osc_command : ℕ → Bytes → ℕ
unfolding is_digit
osc_command v [] = v
osc_command v (c ∷ cs) = osc_command (if is_digit c then push_digit v c else v) cs

-- VtParser::action_osc_dispatch
unfoldable pub osc_action : Bytes → Action
osc_action s = elim (split_semicolon s) [
  | none ↦ Action.osc_dispatch (signed32 0) []
  | some (number, payload) ↦ Action.osc_dispatch (signed32 (osc_command 0 number)) payload
]

abbrev pub osc_max : ℕ
osc_max = 16 * 1024 * 1024

abbrev pub apc_max : ℕ
apc_max = 32 * 1024 * 1024

-- Is the byte behind this one a backslash, so that both are an ST?
unfoldable pub ends_string : Option ℕ → Bool
ends_string none = false
ends_string (some c) = c == 0x5C
