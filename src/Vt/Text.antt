-- ===== src/Vt/Text.antt =====
-- Text through VtParser::feed: the UTF-8 that a program writes comes out as its code points.
use rivt.Base.{
  ℕ, ◌+◌, ◌*◌, ◌/◌, ◌%◌, ◌^◌, ◌<◌, ◌≤◌, ◌≡◌, ◌≢◌, ◌⊎◌, false, List, [], ◌∷◌, ◌++◌, Option, some,
  arith, append_assoc, map, ◌∙◌, ap, sym, ltb, if◌then◌else◌, Bool-cases, inl, inr,
}
use rivt.Base.Bytes.{Bytes, All}
use rivt.Vt.Parser.{State, Parser, Action, in_range}
use rivt.Vt.Feed.{
  on_ground, start_utf8, on_state, on_byte, on_continuation, step, feed, before, head?, is_utf8,
  in_string,
}
use rivt.Vt.Chunks.{before-nil, before-before, follow, feed_step}

-- The UTF-8 encoding of a code point: its groups of six bits.
unfoldable pub encode_utf8 : ℕ → Bytes
encode_utf8 cp =
    let last = 0x80 + cp % 64 in
    let c2 = cp / 64 in
    let c3 = c2 / 64 in
    if ltb cp 0x80
    then cp ∷ []
    else if ltb cp 0x800
    then (0xC0 + c2) ∷ last ∷ []
    else if ltb cp 0x10000
    then (0xE0 + c3) ∷ (0x80 + c2 % 64) ∷ last ∷ []
    else (0xF0 + c3 / 64) ∷ (0x80 + c3 % 64) ∷ (0x80 + c2 % 64) ∷ last ∷ []

-- A Unicode code point that is no C0 control and no DEL.
abbrev pub IsPrintable : ℕ → Type 0
IsPrintable cp = (0x20 ≤ cp) × (cp ≢ 0x7F) × (cp < 0x110000)

-- What printing leaves of the decoder's state.
abbrev pub printed : ℕ → Parser → Parser
printed cp p =
    if ltb cp 0x80
    then p
    else record p { state = State.ground; utf8_codepoint = cp; utf8_remaining = 0 }

-- A step that reads its byte alone and makes no call, or one.
pub feed_quiet :
    (p p' : Parser) (b : ℕ) (bs : Bytes)
    → step p b (head? bs) ≡ some (p', [], false)
    → feed p (b ∷ bs) ≡ feed p' bs
unfolding feed
feed_quiet p p' b bs e = feed_step p b bs ∙ ap (λ o. follow o bs) e ∙ before-nil _

pub feed_call :
    (p p' : Parser) (a : Action) (b : ℕ) (bs : Bytes)
    → step p b (head? bs) ≡ some (p', a ∷ [], false)
    → feed p (b ∷ bs) ≡ before (a ∷ []) (feed p' bs)
unfolding feed
feed_call p p' a b bs e = feed_step p b bs ∙ ap (λ o. follow o bs) e

-- `p` inside a code point, with the bits `c` read and `n` bytes to come.
abbrev reading : Parser → ℕ → ℕ → Parser
reading p c n = record p { state = State.utf8; utf8_codepoint = c; utf8_remaining = n }

abbrev done : Parser → ℕ → Parser
done p cp = record p { state = State.ground; utf8_codepoint = cp; utf8_remaining = 0 }

step_ascii :
    (p : Parser) (b : ℕ) (next : Option ℕ)
    → p.state ≡ State.ground
    → 0x20 ≤ b
    → b < 0x7F
    → step p b next ≡ some (p, Action.print b ∷ [], false)
unfolding step is_utf8 on_byte in_string on_state on_ground in_range
step_ascii p b next e lo hi = ground arith

step_lead :
    (p : Parser) (base n c : ℕ) (next : Option ℕ)
    → p.state ≡ State.ground
    → ((n ≡ 1) × (base ≡ 0xC0) × (c < 32))
      ⊎ (((n ≡ 2) × (base ≡ 0xE0) × (c < 16)) ⊎ ((n ≡ 3) × (base ≡ 0xF0) × (c < 8)))
    → step p (base + c) next ≡ some (reading p c n, [], false)
unfolding step is_utf8 on_byte in_string on_state on_ground start_utf8 in_range
step_lead p base n c next e h = ground arith

step_more :
    (p : Parser) (c n d : ℕ) (next : Option ℕ)
    → d < 64
    → c < 2 ^ 9
    → n < 2
    → step (reading p c (n + 2)) (0x80 + d) next ≡ some (reading p (c * 64 + d) (n + 1), [], false)
unfolding step is_utf8 on_continuation
step_more p c n d next hd hc hn = ground arith

step_final :
    (p : Parser) (c d : ℕ) (next : Option ℕ)
    → d < 64
    → c < 2 ^ 15
    → step (reading p c 1) (0x80 + d) next
      ≡ some (done p (c * 64 + d), Action.print (c * 64 + d) ∷ [], false)
unfolding step is_utf8 on_continuation
step_final p c d next hd hc = ground arith

-- The last byte of a code point.
feed_final :
    (p : Parser) (cp : ℕ) (rest : Bytes)
    → cp < 2 ^ 21
    → feed (reading p (cp / 2 ^ 6) 1) ((0x80 + cp % 2 ^ 6) ∷ rest)
      ≡ before (Action.print cp ∷ []) (feed (done p cp) rest)
feed_final p cp rest h =
    let whole : cp / 64 * 64 + cp % 64 ≡ cp = omega arith in
    feed_call _ (done p cp) (Action.print cp) _ rest
      (rw whole at (step_final p (cp / 64) (cp % 64) (head? rest) (omega arith) (omega arith)))

feed_more :
    (p : Parser) (c n : ℕ) (rest : Bytes)
    → c < 2 ^ 15
    → n < 2
    → feed (reading p (c / 2 ^ 6) (n + 2)) ((0x80 + c % 2 ^ 6) ∷ rest)
      ≡ feed (reading p c (n + 1)) rest
feed_more p c n rest h hn =
    let whole : c / 64 * 64 + c % 64 ≡ c = omega arith in
    feed_quiet _ (reading p c (n + 1)) _ rest
      (rw whole at (step_more p (c / 64) n (c % 64) (head? rest) (omega arith) (omega arith) hn))

feed_lead :
    (p : Parser) (base n c : ℕ) (rest : Bytes)
    → p.state ≡ State.ground
    → ((n ≡ 1) × (base ≡ 0xC0) × (c < 32))
      ⊎ (((n ≡ 2) × (base ≡ 0xE0) × (c < 16)) ⊎ ((n ≡ 3) × (base ≡ 0xF0) × (c < 8)))
    → feed p ((base + c) ∷ rest) ≡ feed (reading p c n) rest
feed_lead p base n c rest e h = feed_quiet _ _ _ rest (step_lead p base n c (head? rest) e h)

-- One code point, in each of the four lengths.
pub feed-encode_utf8 :
    (p : Parser) (cp : ℕ) (rest : Bytes)
    → p.state ≡ State.ground
    → IsPrintable cp
    → feed p (encode_utf8 cp ++ rest) ≡ before (Action.print cp ∷ []) (feed (printed cp p) rest)
unfolding encode_utf8
feed-encode_utf8 p cp rest e h =
    let c2 = cp / 64 in
    let c3 = c2 / 64 in
    elim (Bool-cases (ltb cp 0x80)) [
      | inl one ↦ rw one (
          feed_call p p (Action.print cp) cp rest
            (step_ascii p cp (head? rest) e (omega arith) (ground arith)))
      | inr more ↦ rw more (elim (Bool-cases (ltb cp 0x800)) [
        | inl two ↦
            rw two (feed_lead p 0xC0 1 c2 _ e (ground arith) ∙ feed_final p cp rest (ground arith))
        | inr more2 ↦ rw more2 (elim (Bool-cases (ltb cp 0x10000)) [
          | inl three ↦ rw three (
              feed_lead p 0xE0 2 c3 _ e (ground arith)
              ∙ feed_more p c2 0 _ (ground arith) (omega arith)
              ∙ feed_final p cp rest (ground arith))
          | inr four ↦ rw four (
              feed_lead p 0xF0 3 (c3 / 64) _ e (ground arith)
              ∙ feed_more p c3 1 _ (ground arith) (omega arith)
              ∙ feed_more p c2 0 _ (ground arith) (omega arith)
              ∙ feed_final p cp rest (ground arith))
        ])
      ])
    ]

abbrev pub encode_text : List ℕ → Bytes
encode_text [] = []
encode_text (cp ∷ cps) = encode_utf8 cp ++ encode_text cps

abbrev pub printed_text : List ℕ → Parser → Parser
printed_text [] p = p
printed_text (cp ∷ cps) p = printed_text cps (printed cp p)

printed-ground :
    (cp : ℕ) (p : Parser) → p.state ≡ State.ground → (printed cp p).state ≡ State.ground
printed-ground cp p e = ground arith

-- Text in UTF-8 without C0 controls and DEL, fed to a parser in its ground state, is printed code
-- point by code point, with no other call, and leaves the parser ready for what follows.
pub feed-encode_text :
    (cps : List ℕ) (p : Parser) (rest : Bytes)
    → p.state ≡ State.ground
    → All IsPrintable cps
    → (feed p (encode_text cps ++ rest)
        ≡ before (map Action.print cps) (feed (printed_text cps p) rest))
      × ((printed_text cps p).state ≡ State.ground)
feed-encode_text [] p rest e h = (sym (before-nil _), e)
feed-encode_text (cp ∷ cps) p rest e h =
    let (ih, done) = feed-encode_text cps (printed cp p) rest (printed-ground cp p e) h.1 in
    (
      rw append_assoc (
          feed-encode_utf8 p cp (encode_text cps ++ rest) e h.0
          ∙ ap (before (Action.print cp ∷ [])) ih
          ∙ before-before (Action.print cp ∷ []) (map Action.print cps) _),
      done,
    )
