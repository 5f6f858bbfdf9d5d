-- ===== src/Vt/Chunks.antt =====
-- Cutting the output of a pane into chunks, and the one place where VtParser::feed minds: an ST
-- (ESC, backslash) whose two bytes come in two calls.
use rivt.Base.{
  ℕ, ◌≡◌, ◌≢◌, refl, Bool, true, false, List, [], ◌∷◌, ◌++◌, append-nil, append_assoc, Option, none,
  some, arith, ◌⊎◌, ◌∙◌, sym, ap,
}
use rivt.Base.Bytes.{Bytes}
use rivt.Vt.Parser.{State, Parser, Action, Outcome, ends_string, enter, csi_done}
use rivt.Vt.Feed.{
  on_continuation, on_ground, start_utf8, on_escape, on_escape_intermediate, on_csi_entry,
  csi_collect, on_csi_param, on_csi_intermediate, on_csi_ignore, on_dcs_entry, step, on_byte,
  on_state, on_osc_string, on_apc_string, on_dcs_passthrough, on_dcs_ignore, head?, before,
  feed_from, feed,
}

abbrev pub Fed : Type 0
Fed = Option (Parser × List Action)

-- A second call of `feed`, behind what a first one did.
abbrev pub then_feed : Fed → Bytes → Fed
then_feed none b = none
then_feed (some (p, calls)) b = before calls (feed p b)

-- The cut between `a` and `b` does not part an ESC from a backslash.
abbrev pub CutsNoSt : Bytes → Bytes → Type 0
CutsNoSt [] b = Unit
CutsNoSt (x ∷ []) b = (x ≢ 0x1B) ⊎ (ends_string (head? b) ≡ false)
CutsNoSt (x ∷ y ∷ r) b = CutsNoSt (y ∷ r) b

on_state_alone :
    (s : State) (p : Parser) (x : ℕ) (next : Option ℕ)
    → (x ≢ 0x1B) ⊎ (ends_string next ≡ false)
    → on_state s p x next ≡ on_state s p x none
unfolding on_state on_osc_string on_apc_string on_dcs_passthrough on_dcs_ignore ends_string
on_state_alone State.osc_string p x next h = ground arith
on_state_alone State.apc_string p x next h = ground arith
on_state_alone State.dcs_passthrough p x next h = ground arith
on_state_alone State.dcs_ignore p x next h = ground arith
on_state_alone _ p x next h = refl

step_alone :
    (p : Parser) (x : ℕ) (next : Option ℕ)
    → (x ≢ 0x1B) ⊎ (ends_string next ≡ false)
    → step p x next ≡ step p x none
unfolding step on_byte
step_alone p x next h =
    rw (
      on_state_alone p.state p x next h,
      on_state_alone State.ground (enter State.ground p) x next h,
    )

-- A step at the end of its input takes no byte behind its own.
abbrev skips : Outcome → Bool
skips none = false
skips (some (p, calls, skip)) = skip

skips-on_state : (s : State) (p : Parser) (x : ℕ) → skips (on_state s p x none) ≡ false
unfolding on_state on_ground start_utf8 on_escape on_escape_intermediate on_csi_entry csi_collect
    on_csi_param on_csi_intermediate on_csi_ignore on_osc_string on_apc_string on_dcs_entry
    on_dcs_passthrough on_dcs_ignore ends_string csi_done
skips-on_state State.ground p x = ground arith
skips-on_state _ p x = ground arith

skips-step : (p : Parser) (x : ℕ) → skips (step p x none) ≡ false
unfolding step on_byte on_continuation
skips-step p x =
    ground (arith, skips-on_state p.state p x, skips-on_state State.ground (enter State.ground p) x)

pub before-nil {ℓ} : {A : Type ℓ} (m : Option (A × List Action)) → before [] m ≡ m
before-nil none = refl
before-nil (some t) = refl

pub before-before {ℓ} :
    {A : Type ℓ} (xs ys : List Action) (m : Option (A × List Action))
    → before xs (before ys m) ≡ before (xs ++ ys) m
before-before xs ys none = refl
before-before xs ys (some (a, zs)) = ap (λ t. some (a, t)) (sym (append_assoc xs ys zs))

then_feed-before :
    (calls : List Action) (m : Fed) (b : Bytes)
    → then_feed (before calls m) b ≡ before calls (then_feed m b)
then_feed-before calls none b = refl
then_feed-before calls (some (p, more)) b = sym (before-before calls more (feed p b))

-- What follows a step, on the bytes behind it.
abbrev pub follow : Outcome → Bytes → Fed
follow none b = none
follow (some (p, calls, skip)) b = before calls (feed_from skip p b)

pub feed_step :
    (p : Parser) (x : ℕ) (bs : Bytes) → feed_from false p (x ∷ bs) ≡ follow (step p x (head? bs)) bs
unfolding feed_from
feed_step p x bs = ground arith

pub feed_skip : (p : Parser) (x : ℕ) (bs : Bytes) → feed_from true p (x ∷ bs) ≡ feed_from false p bs
unfolding feed_from
feed_skip p x bs = refl

follow_last : (o : Outcome) (b : Bytes) → skips o ≡ false → follow o b ≡ then_feed (follow o []) b
unfolding feed_from feed
follow_last none b h = refl
follow_last (some (p, calls, skip)) b h = rw (h, append-nil)

follow-append :
    (o : Outcome) (y : ℕ) (r b : Bytes)
    → ((skip : Bool) (p : Parser)
        → feed_from skip p ((y ∷ r) ++ b) ≡ then_feed (feed_from skip p (y ∷ r)) b)
    → follow o ((y ∷ r) ++ b) ≡ then_feed (follow o (y ∷ r)) b
follow-append none y r b h = refl
follow-append (some (p, calls, skip)) y r b h =
    ap (before calls) (h skip p) ∙ sym (then_feed-before calls (feed_from skip p (y ∷ r)) b)

feed_from-append :
    (skip : Bool) (p : Parser) (x : ℕ) (a b : Bytes)
    → CutsNoSt (x ∷ a) b
    → feed_from skip p ((x ∷ a) ++ b) ≡ then_feed (feed_from skip p (x ∷ a)) b
feed_from-append true p x [] b h = unfold feed_from feed in sym (before-nil _)
feed_from-append true p x (y ∷ r) b h =
    feed_skip p x (y ∷ (r ++ b))
    ∙ feed_from-append false p y r b h
    ∙ sym (ap (λ m. then_feed m b) (feed_skip p x (y ∷ r)))
feed_from-append false p x [] b h =
    feed_step p x b
    ∙ ap (λ o. follow o b) (step_alone p x (head? b) h)
    ∙ follow_last (step p x none) b (skips-step p x)
    ∙ sym (ap (λ m. then_feed m b) (feed_step p x []))
feed_from-append false p x (y ∷ r) b h =
    feed_step p x (y ∷ (r ++ b))
    ∙ follow-append (step p x (some y)) y r b (λ skip p'. feed_from-append skip p' y r b h)
    ∙ sym (ap (λ m. then_feed m b) (feed_step p x (y ∷ r)))

-- Feeding two chunks, one after the other, makes the calls and ends in the state of feeding both at
-- once, for every parser state, unless the cut parts an ESC from a backslash.
pub feed-append :
    (p : Parser) (a b : Bytes) → CutsNoSt a b → feed p (a ++ b) ≡ then_feed (feed p a) b
unfolding feed feed_from
feed-append p [] b h = sym (before-nil _)
feed-append p (x ∷ a) b h = feed_from-append false p x a b h
