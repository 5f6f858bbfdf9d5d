-- ===== src/Vt/Sequences.antt =====
-- Whole control sequences through VtParser::feed, from the ESC to the call of the handler.
use rivt.Base.{
  ℕ, ◌≤◌, ◌≡◌, ◌⊎◌, inl, inr, refl, false, List, [], ◌∷◌, ◌++◌, append_assoc, append-nil, arith,
  ◌∙◌, ap, sym, Option, some, none,
}
use rivt.Base.Bytes.{Bytes, All}
use rivt.Vt.Params.{CsiParam, is_digit, csi_params}
use rivt.Vt.Scan.{IsParamChar}
use rivt.Vt.Csi.{IsParam, EndsFilled, print_params, params_chars, csi_params-print_params}
use rivt.Vt.Parser.{State, Parser, Action, transition, enter, in_range, csi_done}
use rivt.Vt.Feed.{
  step, is_utf8, on_byte, in_string, on_state, on_escape, on_csi_entry, on_csi_param, csi_collect,
  feed, before, head?,
}
use rivt.Vt.Text.{feed_quiet, feed_call}

pub step_escape :
    (p : Parser) (next : Option ℕ)
    → p.state ≡ State.ground
    → step p 0x1B next ≡ some (transition State.escape p, [], false)
unfolding step is_utf8 on_byte in_string
step_escape p next e = ground arith

-- ESC [ and ESC ] lead to fresh strings.
step_csi :
    (p : Parser) (next : Option ℕ)
    → step (transition State.escape p) b'[' next
      ≡ some (transition State.csi_entry (transition State.escape p), [], false)
unfolding step is_utf8 on_byte in_string on_state on_escape transition
step_csi p next = refl

pub step_osc :
    (p : Parser) (next : Option ℕ)
    → step (transition State.escape p) b']' next
      ≡ some (transition State.osc_string (transition State.escape p), [], false)
unfolding step is_utf8 on_byte in_string on_state on_escape transition
step_osc p next = refl

abbrev InCsi : Parser → Type 0
InCsi q = (q.state ≡ State.csi_entry) ⊎ (q.state ≡ State.csi_param)

abbrev collect : Parser → ℕ → Parser
collect q c = record q { state = State.csi_param; csi_param_str = q.csi_param_str ++ (c ∷ []) }

step-collect :
    (q : Parser) (c : ℕ) (next : Option ℕ)
    → InCsi q
    → IsParamChar c
    → step q c next ≡ some (collect q c, [], false)
unfolding step is_utf8 on_byte in_string on_state on_csi_entry on_csi_param csi_collect in_range
    is_digit
step-collect q c next e h = ground arith

abbrev collect_all : Parser → Bytes → Parser
collect_all q [] = q
collect_all q (c ∷ cs) = collect_all (collect q c) cs

feed_collect :
    (cs rest : Bytes) (q : Parser)
    → InCsi q
    → All IsParamChar cs
    → (feed q (cs ++ rest) ≡ feed (collect_all q cs) rest) × InCsi (collect_all q cs)
feed_collect [] rest q e h = (refl, e)
feed_collect (c ∷ cs) rest q e h =
    let (ih, in_csi) = feed_collect cs rest (collect q c) (inr refl) h.1 in
    (
      feed_quiet q (collect q c) c (cs ++ rest) (step-collect q c (head? (cs ++ rest)) e h.0) ∙ ih,
      in_csi,
    )

collect_all_lem :
    (cs : Bytes) (q : Parser)
    → record (collect_all q cs) { state = State.ground }
      ≡ record q { state = State.ground; csi_param_str = q.csi_param_str ++ cs }
collect_all_lem [] q =
    ap (λ s. record q { state = State.ground; csi_param_str = s })
      (sym (append-nil q.csi_param_str))
collect_all_lem (c ∷ cs) q =
    collect_all_lem cs (collect q c)
    ∙ ap (λ s. record q { state = State.ground; csi_param_str = s })
        (append_assoc q.csi_param_str (c ∷ []) cs)

step_final :
    (q : Parser) (final : ℕ) (ps : List CsiParam) (next : Option ℕ)
    → InCsi q
    → 0x40 ≤ final
    → final ≤ 0x7E
    → csi_params q.csi_param_str ≡ some ps
    → step q final next
      ≡ some (enter State.ground q, Action.csi_dispatch ps q.csi_intermediate final ∷ [], false)
unfolding step is_utf8 on_byte in_string on_state on_csi_entry on_csi_param in_range csi_done
step_final q final ps next e lo hi h = ground arith

-- The mark of a private sequence, as in ESC [ ? 25 h.
abbrev pub IsMark : Option ℕ → Type 0
IsMark none = Unit
IsMark (some m) = (m ≡ b'?') ⊎ ((m ≡ b'>') ⊎ (m ≡ b'<'))

abbrev pub mark_bytes : Option ℕ → Bytes
mark_bytes none = []
mark_bytes (some m) = m ∷ []

abbrev pub mark_code : Option ℕ → ℕ
mark_code none = 0
mark_code (some m) = m

-- Behind ESC [ and the mark.
abbrev marked : Parser → Option ℕ → Parser
marked p none = transition State.csi_entry (transition State.escape p)
marked p (some m) = record (transition State.csi_entry (transition State.escape p)) {
  state = State.csi_param;
  csi_intermediate = m;
}

step_mark :
    (p : Parser) (m : ℕ) (next : Option ℕ)
    → IsMark (some m)
    → step (transition State.csi_entry (transition State.escape p)) m next
      ≡ some (marked p (some m), [], false)
unfolding step is_utf8 on_byte in_string on_state on_csi_entry transition in_range
step_mark p m next h = ground arith

feed_mark :
    (p : Parser) (mark : Option ℕ) (rest : Bytes)
    → IsMark mark
    → feed (transition State.csi_entry (transition State.escape p)) (mark_bytes mark ++ rest)
      ≡ feed (marked p mark) rest
feed_mark p none rest h = refl
feed_mark p (some m) rest h = feed_quiet _ _ m rest (step_mark p m (head? rest) h)

marked-InCsi : (p : Parser) (mark : Option ℕ) → InCsi (marked p mark)
unfolding transition
marked-InCsi p none = inl refl
marked-InCsi p (some m) = inr refl

-- What a CSI sequence leaves behind.
abbrev pub after_csi : Parser → Option ℕ → Bytes → Parser
after_csi p mark cs = record p {
  state = State.ground;
  csi_param_str = cs;
  csi_intermediate = mark_code mark;
  esc_intermediate = 0;
}

marked_lem :
    (p : Parser) (mark : Option ℕ) (cs : Bytes)
    → record (marked p mark) {
      state = State.ground;
      csi_param_str = (marked p mark).csi_param_str ++ cs;
    }
      ≡ after_csi p mark cs
unfolding transition
marked_lem p none cs = refl
marked_lem p (some m) cs = refl

marked-param_str : (p : Parser) (mark : Option ℕ) → (marked p mark).csi_param_str ≡ []
unfolding transition
marked-param_str p none = refl
marked-param_str p (some m) = refl

collected_lem :
    (p : Parser) (mark : Option ℕ) (cs : Bytes)
    → enter State.ground (collect_all (marked p mark) cs) ≡ after_csi p mark cs
collected_lem p mark cs = collect_all_lem cs (marked p mark) ∙ marked_lem p mark cs

-- ESC [, a mark or none, the parameters in decimal (each value empty or below 2 ^ 31, the last
-- parameter not empty) and a final byte from 0x40 to 0x7E, fed to a parser in its ground state, make
-- exactly one call, with those parameters, that mark and that final byte. What follows is read from
-- the ground state.
pub feed_csi :
    (p : Parser) (mark : Option ℕ) (ps : List CsiParam) (final : ℕ) (rest : Bytes)
    → p.state ≡ State.ground
    → IsMark mark
    → All IsParam ps
    → EndsFilled ps
    → 0x40 ≤ final
    → final ≤ 0x7E
    → feed p (0x1B ∷ b'[' ∷ (mark_bytes mark ++ (print_params ps ++ (final ∷ rest))))
      ≡ before
          (Action.csi_dispatch ps (mark_code mark) final ∷ [])
          (feed (after_csi p mark (print_params ps)) rest)
feed_csi p mark ps final rest e m h filled lo hi =
    let cs = print_params ps in
    let q = collect_all (marked p mark) cs in
    let (collected, in_csi) =
      feed_collect cs (final ∷ rest) (marked p mark) (marked-InCsi p mark) (params_chars ps) in
    let done = collected_lem p mark cs in
    let str : q.csi_param_str ≡ cs = ap (λ (t : Parser). t.csi_param_str) done in
    let code : q.csi_intermediate ≡ mark_code mark = ap (λ (t : Parser). t.csi_intermediate) done in
    feed_quiet p _ 0x1B _ (step_escape p _ e)
    ∙ feed_quiet _ _ b'[' _ (step_csi p _)
    ∙ feed_mark p mark (cs ++ (final ∷ rest)) m
    ∙ collected
    ∙ feed_call q (enter State.ground q) _ final rest (
        step_final q final ps (head? rest) in_csi lo hi
          (rw str (csi_params-print_params ps h filled)))
    ∙ ap
        (λ (t : Parser).
          before (Action.csi_dispatch ps t.csi_intermediate final ∷ []) (feed t rest))
        done
