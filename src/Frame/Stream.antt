-- ===== src/Frame/Stream.antt =====
-- How input is cut into chunks does not matter to the frame loop of src/daemon/rivtd.cpp, and
-- frames that were queued are handled one by one, each with its own payload.
use rivt.Base.{
  ℕ, zero, suc, ◌+◌, ◌<◌, ◌≡◌, Bool, true, false, List, [], ◌∷◌, ◌++◌, append_assoc, length, drop,
  arith, ◌∙◌, sym, ap, take-append, drop-append, take-append_le, drop-append_le, length-append,
  length-drop, Bool-cases, inl, inr, ◌⊎◌,
}
use rivt.Base.Bytes.{Bytes, All}
use rivt.Frame.{
  FrameHeader, IsHeader, encode_frame_header, decode_frame_header, frame, process_step,
  process_loop, process_client,
}
use rivt.Frame.Decode.{
  length-encode_frame_header, decode-encode_frame_header, decode_frame_header-append,
}

module _ {S : Type 0} (dead : S → Bool) (kill : S → S) (handle : FrameHeader → Bytes → S → S) where
  abbrev step : S → Bytes → S × Bytes × Bool
  step = process_step dead kill handle

  abbrev rounds : ℕ → S → Bytes → S × Bytes
  rounds = process_loop dead kill handle

  -- A round that goes on has taken eight bytes at least, and does not look behind its frame.
  step_more :
      (s : S) (a b : Bytes)
      → (step s a).2 ≡ true
      → (length (step s a).1 < length a)
        × (step s (a ++ b) ≡ ((step s a).0, (step s a).1 ++ b, true))
  unfolding process_step
  step_more s a b e = ground (
    arith,
    decode_frame_header-append a b,
    length-append a b,
    length-drop (8 + (decode_frame_header a).0.len) a,
    take-append_le (decode_frame_header a).0.len (drop 8 a) b,
    length-drop 8 a,
    drop-append_le 8 a b,
    drop-append_le (8 + (decode_frame_header a).0.len) a b,
  )

  -- A round that stops keeps the buffer. It has killed the client only for a header that it will
  -- refuse however much follows.
  step_stop :
      (s : S) (a b : Bytes)
      → (step s a).2 ≡ false
      → ((step s a).1 ≡ a)
        × (((step s a).0 ≡ s)
            ⊎ (((step s a).0 ≡ kill s) × (step s (a ++ b) ≡ (kill s, a ++ b, false))))
  unfolding process_step
  step_stop s a b e = ground (arith, decode_frame_header-append a b, length-append a b)

  step_dead : (s : S) (b : Bytes) → dead s ≡ true → step s b ≡ (s, b, false)
  unfolding process_step
  step_dead s b e = ground arith

  loop_more :
      (f : ℕ) (s : S) (a : Bytes)
      → (step s a).2 ≡ true
      → rounds (suc f) s a ≡ rounds f (step s a).0 (step s a).1
  unfolding process_loop
  loop_more f s a e = ground arith

  loop_stop :
      (f : ℕ) (s : S) (a : Bytes)
      → (step s a).2 ≡ false
      → rounds (suc f) s a ≡ ((step s a).0, (step s a).1)
  unfolding process_loop
  loop_stop f s a e = ground arith

  -- Any fuel above the number of bytes gives the same result.
  pub process_loop_fuel :
      (f g : ℕ) (s : S) (a : Bytes) → length a < f → length a < g → rounds f s a ≡ rounds g s a
  process_loop_fuel zero g s a p q = absurd (omega arith)
  process_loop_fuel (suc f) zero s a p q = absurd (omega arith)
  process_loop_fuel (suc f) (suc g) s a p q = elim (Bool-cases (step s a).2) [
    | inl more ↦
        let shorter = (step_more s a [] more).0 in
        loop_more f s a more
        ∙ process_loop_fuel f g (step s a).0 (step s a).1 (omega arith) (omega arith)
        ∙ sym (loop_more g s a more)
    | inr stop ↦ loop_stop f s a stop ∙ sym (loop_stop g s a stop)
  ]

  abbrev receive : S → Bytes → S × Bytes
  receive = process_client dead kill handle

  process_more :
      (s : S) (a : Bytes) → (step s a).2 ≡ true → receive s a ≡ receive (step s a).0 (step s a).1
  unfolding process_client
  process_more s a more =
      loop_more (length a) s a more
      ∙ process_loop_fuel (length a) (suc (length (step s a).1)) _ _ (step_more s a [] more).0
          (omega arith)

  process_stop :
      (s : S) (a : Bytes) → (step s a).2 ≡ false → receive s a ≡ ((step s a).0, (step s a).1)
  unfolding process_client
  process_stop s a stop = loop_stop (length a) s a stop

  process-step_stop :
      (s s' : S) (b b' : Bytes) → step s b ≡ (s', b', false) → receive s b ≡ (s', b')
  process-step_stop s s' b b' e =
      process_stop s b (ap (λ (t : S × Bytes × Bool). t.2) e)
      ∙ ap (λ (t : S × Bytes × Bool). (t.0, t.1)) e

  pub process-step_more :
      (s s' : S) (b b' : Bytes) → step s b ≡ (s', b', true) → receive s b ≡ receive s' b'
  process-step_more s s' b b' e =
      process_more s b (ap (λ (t : S × Bytes × Bool). t.2) e)
      ∙ ap (λ (t : S × Bytes × Bool). receive t.0 t.1) e

  -- The loop at its end: it would stop again where it stopped.
  module _ (killed : (s : S) → dead (kill s) ≡ true) where
    resume_stop :
        (s : S) (a b : Bytes)
        → (step s a).2 ≡ false
        → receive (step s a).0 ((step s a).1 ++ b) ≡ receive s (a ++ b)
    resume_stop s a b stop =
        let (kept, how) = step_stop s a b stop in
        elim how [
          | inl same ↦ rw (same, kept)
          | inr (gone, again) ↦
              rw (kept, gone)
                (process-step_stop (kill s) (kill s) (a ++ b) (a ++ b)
                    (step_dead (kill s) (a ++ b) (killed s))
                  ∙ sym (process-step_stop s (kill s) (a ++ b) (a ++ b) again))
        ]

    pub process_loop-append :
        (f : ℕ) (s : S) (a b : Bytes)
        → length a < f
        → receive (rounds f s a).0 ((rounds f s a).1 ++ b) ≡ receive s (a ++ b)
    process_loop-append zero s a b p = absurd (omega arith)
    process_loop-append (suc f) s a b p = elim (Bool-cases (step s a).2) [
      | inl more ↦
          let (shorter, on) = step_more s a b more in
          rw (loop_more f s a more) (
            process_loop-append f (step s a).0 (step s a).1 b (omega arith)
            ∙ sym (process-step_more s (step s a).0 (a ++ b) ((step s a).1 ++ b) on))
      | inr stop ↦ rw (loop_stop f s a stop) (resume_stop s a b stop)
    ]

    -- Feeding the bytes of a connection in two chunks, the second behind what the first left in the
    -- buffer, ends in the state and the buffer that one chunk of both ends in, for every receiver
    -- whose `kill` marks the client as dead.
    pub process_client-append :
        (s : S) (a b : Bytes) → receive (receive s a).0 ((receive s a).1 ++ b) ≡ receive s (a ++ b)
    unfolding process_client
    process_client-append s a b = process_loop-append (suc (length a)) s a b (omega arith)

  -- The frames that were queued for one connection, as bytes and as calls of the handler.
  abbrev pub queued : List (FrameHeader × Bytes) → Bytes
  queued [] = []
  queued ((h, payload) ∷ fs) = frame h payload ++ queued fs

  abbrev pub handle_all : List (FrameHeader × Bytes) → S → S
  handle_all [] s = s
  handle_all ((h, payload) ∷ fs) s = handle_all fs (handle h payload s)

  -- The client is alive when each of the frames is reached.
  abbrev pub Survives : List (FrameHeader × Bytes) → S → Type 0
  Survives [] s = Unit
  Survives ((h, payload) ∷ fs) s = (dead s ≡ false) × Survives fs (handle h payload s)

  abbrev pub AreFrames : List (FrameHeader × Bytes) → Type 0
  AreFrames = All (λ f. IsHeader f.0 × (f.0.len ≡ length f.1))

  step-frame :
      (s : S) (h : FrameHeader) (payload rest : Bytes)
      → IsHeader h
      → h.len ≡ length payload
      → dead s ≡ false
      → step s (frame h payload ++ rest) ≡ (handle h payload s, rest, true)
  unfolding process_step frame
  step-frame s h payload rest v e alive =
      let enc = encode_frame_header h in
      ground (
        arith,
        append_assoc enc payload rest,
        decode-encode_frame_header h (payload ++ rest) v,
        length-append enc (payload ++ rest),
        length-append enc payload,
        length-append payload rest,
        length-encode_frame_header h,
        drop-append enc (payload ++ rest) 8 (sym (length-encode_frame_header h)),
        take-append payload rest h.len e,
        drop-append (enc ++ payload) rest (8 + h.len)
            (omega (arith, length-append enc payload, length-encode_frame_header h)),
      )

  step_short : (s : S) (b : Bytes) → length b < 8 → step s b ≡ (s, b, false)
  unfolding process_step
  step_short s b short = ground arith

  -- Frames that `send_frame` queued, within the limit of their length, followed by fewer than eight
  -- bytes, are handled, while the client is alive, in order, each
  -- with its own header and payload, and exactly what follows them stays in the buffer.
  pub process_client-queued :
      (fs : List (FrameHeader × Bytes)) (s : S) (rest : Bytes)
      → AreFrames fs
      → Survives fs s
      → length rest < 8
      → receive s (queued fs ++ rest) ≡ (handle_all fs s, rest)
  process_client-queued [] s rest v alive short =
      process-step_stop s s rest rest (step_short s rest short)
  process_client-queued ((h, payload) ∷ fs) s rest v alive short = rw append_assoc (
      process-step_more s _ _ _ (step-frame s h payload (queued fs ++ rest) v.0.0 v.0.1 alive.0)
      ∙ process_client-queued fs (handle h payload s) rest v.1 alive.1 short)
