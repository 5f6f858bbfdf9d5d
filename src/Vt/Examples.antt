-- ===== src/Vt/Examples.antt =====
-- The parser of src/terminal/vt_parser.cpp on concrete input.
use rivt.Base.{
  ◌≡◌, ◌≤◌, ◌||◌, ◌==◌, length, refl, false, List, [], ◌∷◌, ◌++◌, none, some, arith, inl,
}
use rivt.Base.Bytes.{Bytes, All}
use rivt.Base.Int.{pos, negsuc}
use rivt.Vt.Params.{
  CsiParam, csi_params, scan_params, scan_param, scan_value, scan_digits, scan_subs, skip_semicolon,
  is_digit, params_get, param_get,
}
use rivt.Vt.Parser.{
  State, Parser, Action, initial, transition, enter, in_range, csi_done, osc_action, osc_max,
}
use rivt.Vt.Feed.{
  on_ground, on_escape, csi_collect, on_csi_entry, on_csi_param, on_state, in_string, on_byte,
  is_utf8, step, feed_from, feed, before,
}
use rivt.Vt.Chunks.{then_feed, feed-append}
use rivt.Vt.Scan.{IsParamChar, csi_params_ends, scan_params_stuck}
use rivt.Vt.Invariant.{KeepsAll, initial-IsValid, feed-KeepsAll}
use rivt.Vt.Text.{IsPrintable, encode_text, printed_text, feed-encode_text}
use rivt.Vt.Strings.{EndsInGround, feed_st, feed_st_split}
use rivt.Vt.Csi.{
  print_params, print_param, print_value, print_subs, IsParam, EndsFilled, csi_params-print_params,
}
use rivt.Vt.Decimal.{decimal}
use rivt.Vt.Sequences.{after_csi, feed_csi}
use rivt.Vt.Osc.{after_osc, feed_osc}

-- 38:2::255;1
abbrev colour : List CsiParam
colour =
    record { value = pos 38; sub = pos 2 ∷ negsuc 0 ∷ pos 255 ∷ [] }
    ∷ record { value = pos 1; sub = [] }
    ∷ []

abbrev in_osc : Parser
in_osc = record initial { state = State.osc_string; osc_string = b'0' ∷ b';' ∷ [] }

-- ESC [ 3 1 m and a letter.
abbrev red_text : Bytes
red_text = 0x1B ∷ b'[' ∷ b'3' ∷ b'1' ∷ b'm' ∷ b'A' ∷ []

params_test :
    csi_params (b'1' ∷ b';' ∷ b';' ∷ b'2' ∷ b':' ∷ b'3' ∷ [])
    ≡ some (
        record { value = pos 1; sub = [] }
        ∷ record { value = negsuc 0; sub = [] }
        ∷ record { value = pos 2; sub = pos 3 ∷ [] }
        ∷ [])
unfolding csi_params scan_params scan_param scan_value scan_digits scan_subs skip_semicolon is_digit
params_test = refl

get_test : params_get colour (pos 1) (pos 7) ≡ pos 1
unfolding params_get param_get
get_test = refl

feed_test :
    feed initial red_text
    ≡ some (
      after_csi initial none (b'3' ∷ b'1' ∷ []),
      Action.csi_dispatch (record { value = pos 31; sub = [] } ∷ []) 0 b'm'
          ∷ Action.print b'A'
          ∷ [],
    )
unfolding feed feed_from step is_utf8 on_byte in_string on_state transition on_ground on_escape
    on_csi_entry on_csi_param csi_collect csi_done csi_params scan_params scan_param scan_value
    scan_digits scan_subs skip_semicolon is_digit in_range
feed_test = refl

feed-append_example :
    feed initial ((0xC3 ∷ []) ++ (0xA9 ∷ [])) ≡ then_feed (feed initial (0xC3 ∷ [])) (0xA9 ∷ [])
feed-append_example = feed-append initial (0xC3 ∷ []) (0xA9 ∷ []) (inl (omega arith))

colour-IsParam : All IsParam colour
colour-IsParam = ((omega arith, (omega arith, (refl, (omega arith, tt)))), ((omega arith, tt), tt))

colour-EndsFilled : EndsFilled colour
unfolding print_param print_value print_subs decimal
colour-EndsFilled = omega arith

code_points-IsPrintable : All IsPrintable (b'A' ∷ 0x20AC ∷ 0x1F600 ∷ [])
code_points-IsPrintable = (
  (omega arith, omega arith, omega arith),
  ((omega arith, omega arith, omega arith), ((omega arith, omega arith, omega arith), tt)),
)

separated-IsParamChar : All IsParamChar (b'1' ∷ b';' ∷ b'2' ∷ [])
unfolding is_digit
separated-IsParamChar = (refl, (refl, (refl, tt)))

question_mark_lem : (is_digit b'?' || b'?' == b';' || b'?' == b':') ≡ false
unfolding is_digit
question_mark_lem = refl

clipboard_short : length (decimal 9 52 ++ (b';' ∷ b'c' ∷ [])) ≤ osc_max
unfolding decimal
clipboard_short = omega arith

feed_csi_example :
    feed initial (0x1B ∷ b'[' ∷ (print_params colour ++ (b'm' ∷ b'A' ∷ [])))
    ≡ before
        (Action.csi_dispatch colour 0 b'm' ∷ [])
        (feed (after_csi initial none (print_params colour)) (b'A' ∷ []))
feed_csi_example =
    feed_csi initial none colour b'm' (b'A' ∷ []) refl tt colour-IsParam colour-EndsFilled
      (omega arith) (omega arith)

feed-KeepsAll_example : KeepsAll (feed initial red_text)
feed-KeepsAll_example = feed-KeepsAll initial red_text (ground arith) initial-IsValid

feed-encode_text_example :
    (feed initial (encode_text (b'A' ∷ 0x20AC ∷ 0x1F600 ∷ []) ++ (b'B' ∷ []))
      ≡ before
          (Action.print b'A' ∷ Action.print 0x20AC ∷ Action.print 0x1F600 ∷ [])
          (feed (printed_text (b'A' ∷ 0x20AC ∷ 0x1F600 ∷ []) initial) (b'B' ∷ [])))
    × ((printed_text (b'A' ∷ 0x20AC ∷ 0x1F600 ∷ []) initial).state ≡ State.ground)
feed-encode_text_example =
    feed-encode_text (b'A' ∷ 0x20AC ∷ 0x1F600 ∷ []) initial (b'B' ∷ []) refl code_points-IsPrintable

feed_osc_example :
    feed initial (0x1B ∷ b']' ∷ ((decimal 9 52 ++ (b';' ∷ b'c' ∷ [])) ++ (0x07 ∷ b'A' ∷ [])))
    ≡ before
        (Action.osc_dispatch (pos 52) (b'c' ∷ []) ∷ [])
        (feed (after_osc initial (decimal 9 52 ++ (b';' ∷ b'c' ∷ []))) (b'A' ∷ []))
feed_osc_example =
    feed_osc initial 52 (b'c' ∷ []) (b'A' ∷ []) refl (omega arith) ((omega arith, omega arith), tt)
      clipboard_short

csi_params-print_params_example : csi_params (print_params colour) ≡ some colour
csi_params-print_params_example = csi_params-print_params colour colour-IsParam colour-EndsFilled

csi_params_ends_example : (ps : List CsiParam) × (csi_params (b'1' ∷ b';' ∷ b'2' ∷ []) ≡ some ps)
csi_params_ends_example = csi_params_ends (b'1' ∷ b';' ∷ b'2' ∷ []) separated-IsParamChar

-- A string of one question mark, as `Snapshot::deserialize` can put it there.
scan_params_stuck_example : scan_params 100 (b'?' ∷ []) ≡ none
scan_params_stuck_example = scan_params_stuck 100 b'?' [] question_mark_lem (omega arith)

feed_st_example : EndsInGround (feed in_osc (0x1B ∷ 0x5C ∷ []))
feed_st_example = feed_st in_osc

feed_st_split_example :
    (feed in_osc (0x1B ∷ 0x5C ∷ [])
      ≡ some (enter State.ground in_osc, osc_action (b'0' ∷ b';' ∷ []) ∷ []))
    × (then_feed (feed in_osc (0x1B ∷ [])) (0x5C ∷ [])
        ≡ some (record in_osc { osc_string = b'0' ∷ b';' ∷ 0x5C ∷ [] }, []))
feed_st_split_example = feed_st_split in_osc refl (omega arith)
