-- ===== src/Vt/Invariant.antt =====
-- What holds of a VtParser at every byte boundary, and of the calls that it makes.
use rivt.Base.{
  ℕ, ◌/◌, ◌^◌, ◌<◌, ◌≤◌, ◌≡◌, ◌⊎◌, refl, Bool, true, false, ◌||◌, List, [], ◌∷◌, Option, none, some,
  arith, length, length-append, ◌==◌, sym, subst,
}
use rivt.Base.Bytes.{Bytes, All, All-append, IsByte}
use rivt.Vt.Params.{is_digit}
use rivt.Vt.Scan.{IsParamChar, csi_params_ends}
use rivt.Vt.Parser.{
  State, Parser, Action, Outcome, initial, transition, enter, csi_done, osc_max, apc_max, in_range,
  osc_action, split_semicolon,
}
use rivt.Vt.Chunks.{follow, feed_step, feed_skip}
use rivt.Vt.Feed.{
  on_ground, start_utf8, on_escape, on_escape_intermediate, on_csi_entry, csi_collect, on_csi_param,
  on_csi_intermediate, on_csi_ignore, on_osc_string, on_apc_string, on_dcs_entry,
  on_dcs_passthrough, on_dcs_ignore, on_state, on_byte, on_continuation, step, feed_from, feed,
  before, head?, is_utf8,
}

-- While a code point is read, `n` continuation bytes are still to come, and with them it stays
-- below 2 ^ 21.
abbrev pub Utf8Fits : State → ℕ → ℕ → Type 0
Utf8Fits State.utf8 n cp =
    (n ≡ 1) × (cp < 2 ^ 15) ⊎ (((n ≡ 2) × (cp < 2 ^ 9)) ⊎ ((n ≡ 3) × (cp < 2 ^ 3)))
Utf8Fits _ n cp = Unit

pub record IsValid (p : Parser) : Type 0 where
  pub utf8_ok : Utf8Fits p.state p.utf8_remaining p.utf8_codepoint
  pub params_ok : All IsParamChar p.csi_param_str
  pub osc_ok : length p.osc_string ≤ osc_max
  pub apc_ok : length p.apc_string ≤ apc_max

pub initial-IsValid : IsValid initial
initial-IsValid = record {
  utf8_ok = tt;
  params_ok = tt;
  osc_ok = omega arith;
  apc_ok = omega arith;
}

-- What a handler can rely on: code points that fit 21 bits, controls below 0x20, and payloads within
-- the limits of the strings that they were collected in.
abbrev pub IsSound : Action → Type 0
IsSound (Action.print cp) = cp < 2 ^ 21
IsSound (Action.execute c) = c < 0x20
IsSound (Action.osc_dispatch n s) = length s ≤ osc_max
IsSound (Action.apc_dispatch s) = length s ≤ apc_max
IsSound _ = Unit

abbrev pub Keeps : Outcome → Type 0
Keeps none = ⊥
Keeps (some (p, calls, skip)) = IsValid p × All IsSound calls

on_ground-Keeps : (p : Parser) (b : ℕ) → IsByte b → IsValid p → Keeps (on_ground p b)
unfolding on_ground start_utf8 in_range
on_ground-Keeps p b hb v = ground arith

on_escape-Keeps : (p : Parser) (b : ℕ) → IsValid p → Keeps (on_escape p b)
unfolding on_escape transition in_range
on_escape-Keeps p b v = ground arith

on_escape_intermediate-Keeps : (p : Parser) (b : ℕ) → IsValid p → Keeps (on_escape_intermediate p b)
unfolding on_escape_intermediate in_range
on_escape_intermediate-Keeps p b v = ground arith

csi_done-Keeps : (p : Parser) (b : ℕ) → IsValid p → Keeps (csi_done p b)
unfolding csi_done
csi_done-Keeps p b v = let (ps, e) = csi_params_ends p.csi_param_str v.params_ok in ground arith

csi_collect-Keeps : (p : Parser) (b : ℕ) → IsParamChar b → IsValid p → Keeps (csi_collect p b)
unfolding csi_collect
csi_collect-Keeps p b h v =
    ground (arith, All-append IsParamChar p.csi_param_str (b ∷ []) v.params_ok (h, tt))

-- The characters that the CSI states collect.
collected :
    (b : ℕ) → (in_range b'0' b'9' b ≡ true) ⊎ ((b == b';' || b == b':') ≡ true) → IsParamChar b
unfolding in_range is_digit
collected b h = ground arith

on_csi_entry-Keeps : (p : Parser) (b : ℕ) → IsValid p → Keeps (on_csi_entry p b)
unfolding on_csi_entry
on_csi_entry-Keeps p b v = ground (arith, collected b, csi_collect-Keeps p b, csi_done-Keeps p b v)

on_csi_param-Keeps : (p : Parser) (b : ℕ) → IsValid p → Keeps (on_csi_param p b)
unfolding on_csi_param
on_csi_param-Keeps p b v = ground (arith, collected b, csi_collect-Keeps p b, csi_done-Keeps p b v)

on_csi_intermediate-Keeps : (p : Parser) (b : ℕ) → IsValid p → Keeps (on_csi_intermediate p b)
unfolding on_csi_intermediate
on_csi_intermediate-Keeps p b v = ground (arith, csi_done-Keeps p b v)

on_csi_ignore-Keeps : (p : Parser) (b : ℕ) → IsValid p → Keeps (on_csi_ignore p b)
unfolding on_csi_ignore
on_csi_ignore-Keeps p b v = ground arith

abbrev Within : ℕ → Option (Bytes × Bytes) → Type 0
Within k none = Unit
Within k (some (number, payload)) = length payload ≤ k

split_semicolon-Within : (s : Bytes) → Within (length s) (split_semicolon s)
unfolding split_semicolon
split_semicolon-Within [] = tt
split_semicolon-Within (c ∷ cs) = ground (arith, split_semicolon-Within cs)

osc_action-IsSound : (s : Bytes) → length s ≤ osc_max → IsSound (osc_action s)
unfolding osc_action
osc_action-IsSound s h = ground (arith, split_semicolon-Within s)

on_osc_string-Keeps :
    (p : Parser) (b : ℕ) (next : Option ℕ) → IsValid p → Keeps (on_osc_string p b next)
unfolding on_osc_string
on_osc_string-Keeps p b next v =
    ground (arith, osc_action-IsSound p.osc_string v.osc_ok, length-append p.osc_string (b ∷ []))

on_apc_string-Keeps :
    (p : Parser) (b : ℕ) (next : Option ℕ) → IsValid p → Keeps (on_apc_string p b next)
unfolding on_apc_string
on_apc_string-Keeps p b next v = ground (arith, length-append p.apc_string (b ∷ []))

on_dcs_entry-Keeps : (p : Parser) (b : ℕ) → IsValid p → Keeps (on_dcs_entry p b)
unfolding on_dcs_entry
on_dcs_entry-Keeps p b v = ground arith

on_dcs_passthrough-Keeps :
    (p : Parser) (b : ℕ) (next : Option ℕ) → IsValid p → Keeps (on_dcs_passthrough p b next)
unfolding on_dcs_passthrough
on_dcs_passthrough-Keeps p b next v = ground arith

on_dcs_ignore-Keeps :
    (p : Parser) (b : ℕ) (next : Option ℕ) → IsValid p → Keeps (on_dcs_ignore p b next)
unfolding on_dcs_ignore
on_dcs_ignore-Keeps p b next v = ground arith

on_state-Keeps :
    (s : State) (p : Parser) (b : ℕ) (next : Option ℕ)
    → IsByte b
    → IsValid p
    → Keeps (on_state s p b next)
unfolding on_state
on_state-Keeps State.ground p b next hb v = on_ground-Keeps p b hb v
on_state-Keeps State.escape p b next hb v = on_escape-Keeps p b v
on_state-Keeps State.escape_intermediate p b next hb v = on_escape_intermediate-Keeps p b v
on_state-Keeps State.csi_entry p b next hb v = on_csi_entry-Keeps p b v
on_state-Keeps State.csi_param p b next hb v = on_csi_param-Keeps p b v
on_state-Keeps State.csi_intermediate p b next hb v = on_csi_intermediate-Keeps p b v
on_state-Keeps State.csi_ignore p b next hb v = on_csi_ignore-Keeps p b v
on_state-Keeps State.osc_string p b next hb v = on_osc_string-Keeps p b next v
on_state-Keeps State.dcs_entry p b next hb v = on_dcs_entry-Keeps p b v
on_state-Keeps State.dcs_passthrough p b next hb v = on_dcs_passthrough-Keeps p b next v
on_state-Keeps State.dcs_ignore p b next hb v = on_dcs_ignore-Keeps p b next v
on_state-Keeps State.apc_string p b next hb v = on_apc_string-Keeps p b next v
on_state-Keeps State.utf8 p b next hb v = ground arith

enter_ground-IsValid : (p : Parser) → IsValid p → IsValid (enter State.ground p)
enter_ground-IsValid p v = ground arith

on_byte-Keeps :
    (p : Parser) (b : ℕ) (next : Option ℕ) → IsByte b → IsValid p → Keeps (on_byte p b next)
unfolding on_byte transition
on_byte-Keeps p b next hb v = ground (arith, on_state-Keeps p.state p b next hb v)

on_continuation-Keeps :
    (p : Parser) (b : ℕ)
    → p.state ≡ State.utf8
    → b / 64 ≡ 2
    → IsValid p
    → Keeps (on_continuation p b)
unfolding on_continuation
on_continuation-Keeps p b e hb v =
    let fits : Utf8Fits State.utf8 p.utf8_remaining p.utf8_codepoint = rw e at v.utf8_ok in
    ground arith

is_utf8→eq : (s : State) → is_utf8 s ≡ true → s ≡ State.utf8
unfolding is_utf8
is_utf8→eq State.utf8 e = refl
is_utf8→eq _ e = cc

step-Keeps : (p : Parser) (b : ℕ) (next : Option ℕ) → IsByte b → IsValid p → Keeps (step p b next)
unfolding step
step-Keeps p b next hb v = ground (
  arith,
  is_utf8→eq p.state,
  on_continuation-Keeps p b,
  on_byte-Keeps p b next hb v,
  on_byte-Keeps (enter State.ground p) b next hb (enter_ground-IsValid p v),
)

abbrev pub KeepsAll : Option (Parser × List Action) → Type 0
KeepsAll none = ⊥
KeepsAll (some (p, calls)) = IsValid p × All IsSound calls

before-KeepsAll :
    (calls : List Action) (m : Option (Parser × List Action))
    → All IsSound calls
    → KeepsAll m
    → KeepsAll (before calls m)
before-KeepsAll calls none h k = k
before-KeepsAll calls (some (p, more)) h k = (k.0, All-append IsSound calls more h k.1)

follow-KeepsAll :
    (o : Outcome) (bs : Bytes)
    → Keeps o
    → ((skip : Bool) (p : Parser) → IsValid p → KeepsAll (feed_from skip p bs))
    → KeepsAll (follow o bs)
follow-KeepsAll none bs k h = k
follow-KeepsAll (some (p, calls, skip)) bs k h =
    before-KeepsAll calls (feed_from skip p bs) k.1 (h skip p k.0)

feed_from-KeepsAll :
    (skip : Bool) (p : Parser) (bs : Bytes)
    → All IsByte bs
    → IsValid p
    → KeepsAll (feed_from skip p bs)
feed_from-KeepsAll skip p [] h v = unfold feed_from in (v, tt)
feed_from-KeepsAll true p (b ∷ bs) h v =
    subst KeepsAll (sym (feed_skip p b bs)) (feed_from-KeepsAll false p bs h.1 v)
feed_from-KeepsAll false p (b ∷ bs) h v = subst KeepsAll (sym (feed_step p b bs)) (
    follow-KeepsAll (step p b (head? bs)) bs (step-Keeps p b (head? bs) h.0 v)
      (λ skip p' v'. feed_from-KeepsAll skip p' bs h.1 v'))

-- From a valid parser, `feed` ends on every input, leaves a valid parser, and every code point it
-- prints is below 2 ^ 21, every control below 0x20, every payload within its limit.
pub feed-KeepsAll : (p : Parser) (bs : Bytes) → All IsByte bs → IsValid p → KeepsAll (feed p bs)
unfolding feed
feed-KeepsAll p bs h v = feed_from-KeepsAll false p bs h v
