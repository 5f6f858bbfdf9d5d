-- ===== src/Vt/Strings.antt =====
-- The string states of VtParser::feed (OSC, APC, DCS) and their terminator, the ST (ESC, backslash).
use rivt.Base.{◌<◌, ◌≡◌, List, [], ◌∷◌, ◌++◌, Option, none, some, arith, length}
use rivt.Vt.Parser.{
  State, Parser, Action, enter, in_range, ends_string, osc_action, osc_max, transition,
}
use rivt.Vt.Feed.{
  on_osc_string, on_apc_string, on_dcs_passthrough, on_dcs_ignore, on_escape, on_state, on_byte,
  step, feed_from, feed, before, is_utf8, in_string,
}
use rivt.Vt.Chunks.{then_feed}

abbrev pub EndsInGround : Option (Parser × List Action) → Type 0
EndsInGround none = ⊥
EndsInGround (some (p, calls)) = p.state ≡ State.ground

EndsInGround-before :
    (calls : List Action) (m : Option (Parser × List Action))
    → EndsInGround m
    → EndsInGround (before calls m)
EndsInGround-before calls none h = h
EndsInGround-before calls (some t) h = h

-- An ST that comes in one chunk brings the parser back to its ground state, from every state, with
-- any contents, whatever was cut short before it.
pub feed_st : (p : Parser) → EndsInGround (feed p (0x1B ∷ 0x5C ∷ []))
unfolding feed feed_from step is_utf8 on_byte in_string on_state on_osc_string on_apc_string
    on_dcs_passthrough on_dcs_ignore on_escape transition ends_string in_range
feed_st p = ground arith

-- The same two bytes in two chunks do not end an OSC string that has room for a byte: the ESC is dropped, the backslash is
-- taken into the string, and the parser goes on collecting.
pub feed_st_split :
    (p : Parser)
    → p.state ≡ State.osc_string
    → length p.osc_string < osc_max
    → (feed p (0x1B ∷ 0x5C ∷ []) ≡ some (enter State.ground p, osc_action p.osc_string ∷ []))
      × (then_feed (feed p (0x1B ∷ [])) (0x5C ∷ [])
          ≡ some (record p { osc_string = p.osc_string ++ (0x5C ∷ []) }, []))
unfolding feed feed_from step is_utf8 on_byte in_string on_state on_osc_string ends_string
feed_st_split p e h = ground arith
