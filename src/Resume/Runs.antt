-- ===== src/Resume/Runs.antt =====
-- Runs of a pane and a client: every order of output, arriving frames, lost connections and
-- re-attaching (src/daemon/rivtd.cpp, src/remote/remote_client.cpp).
use rivt.Base.{
  ℕ, ◌+◌, ◌-◌, ◌^◌, ◌≤◌, ◌<◌, ◌≡◌, refl, List, [], ◌∷◌, ◌++◌, some, length, drop, ltb, arith, ◌∙◌,
  sym, ap, subst, if◌then◌else◌, length-append, length-drop,
}
use rivt.Base.Bytes.{Bytes}
use rivt.Resume.{
  PaneRef, pane_ring_max, out_frame, resume_frame, attach_pane, RemotePane, Link, System, Event,
  step, run, start, send, arrive, answer, dial,
}
use rivt.Resume.Link.{down, asked, up}
use rivt.Resume.Event.{writes, arrives, breaks, dials, answers}
use rivt.Resume.Ring.{IsRing, on_output-IsRing, drop-drop, ring_start_lem}
use rivt.Resume.Replica.{
  Current, Caught, Follows, Follows-Current, Follows-append, Current-append, attach_pane-Follows,
}

module _ (serialize : Bytes → ℕ → Bytes) where
  abbrev LinkFollows : Bytes → Link → RemotePane → Type 0
  LinkFollows h down c = Current serialize h c.off c
  LinkFollows h (asked off) c = (c.off ≡ off) × Current serialize h off c
  LinkFollows h (up q) c = Follows serialize h q c

  record Sound (s : System) : Type 0 where
    ring_ok : IsRing s.history s.ref
    link_ok : LinkFollows s.history s.link s.client

  LinkFollows-Current :
      (h : Bytes) (link : Link) (c : RemotePane)
      → LinkFollows h link c
      → Current serialize h c.off c
  LinkFollows-Current h down c v = v
  LinkFollows-Current h (asked off) c v = subst (λ o. Current serialize h o c) (sym v.0) v.1
  LinkFollows-Current h (up q) c v = Follows-Current serialize h q c v

  LinkFollows-append :
      (h d : Bytes) (link : Link) (c : RemotePane)
      → length (h ++ d) < 2 ^ 64
      → LinkFollows h link c
      → LinkFollows (h ++ d) (send (out_frame d) link) c
  LinkFollows-append h d down c b v = Current-append serialize h d c.off c v
  LinkFollows-append h d (asked off) c b v = (v.0, Current-append serialize h d off c v.1)
  LinkFollows-append h d (up q) c b v = Follows-append serialize h d q c b v

  arrive-Sound :
      (link : Link) (s : System) → s.link ≡ link → Sound s → Sound (arrive serialize link s)
  arrive-Sound (up (f ∷ q)) s e v = record {
    ring_ok = v.ring_ok;
    link_ok = (subst (λ l. LinkFollows s.history l s.client) e v.link_ok).1;
  }
  arrive-Sound (up []) s e v = v
  arrive-Sound down s e v = v
  arrive-Sound (asked off) s e v = v

  answer-Sound :
      (link : Link) (s : System)
      → s.link ≡ link
      → length s.history < 2 ^ 64
      → Sound s
      → Sound (answer serialize link s)
  answer-Sound (asked off) s e b v =
      let w = subst (λ l. LinkFollows s.history l s.client) e v.link_ok in
      record {
        ring_ok = v.ring_ok;
        link_ok = attach_pane-Follows serialize s.history s.ref s.client off b v.ring_ok w.0 w.1;
      }
  answer-Sound down s e b v = v
  answer-Sound (up q) s e b v = v

  dial-Sound : (link : Link) (s : System) → s.link ≡ link → Sound s → Sound (dial serialize link s)
  dial-Sound down s e v = record {
    ring_ok = v.ring_ok;
    link_ok = (refl, LinkFollows-Current s.history s.link s.client v.link_ok);
  }
  dial-Sound (asked off) s e v = v
  dial-Sound (up q) s e v = v

  arrive-history : (link : Link) (s : System) → (arrive serialize link s).history ≡ s.history
  arrive-history (up (f ∷ q)) s = refl
  arrive-history (up []) s = refl
  arrive-history down s = refl
  arrive-history (asked off) s = refl

  answer-history : (link : Link) (s : System) → (answer serialize link s).history ≡ s.history
  answer-history (up q) s = refl
  answer-history down s = refl
  answer-history (asked off) s = refl

  dial-history : (link : Link) (s : System) → (dial serialize link s).history ≡ s.history
  dial-history (up q) s = refl
  dial-history down s = refl
  dial-history (asked off) s = refl

  -- The stream only grows.
  step_grows : (e : Event) (s : System) → length s.history ≤ length (step serialize e s).history
  unfolding step
  step_grows (writes d) s = omega (arith, length-append s.history d)
  step_grows arrives s = omega (arith, ap length (arrive-history s.link s))
  step_grows breaks s = omega arith
  step_grows dials s = omega (arith, ap length (dial-history s.link s))
  step_grows answers s = omega (arith, ap length (answer-history s.link s))

  step-Sound :
      (e : Event) (s : System)
      → length (step serialize e s).history < 2 ^ 64
      → Sound s
      → Sound (step serialize e s)
  unfolding step
  step-Sound (writes d) s b v = record {
    ring_ok = on_output-IsRing s.history d s.ref v.ring_ok;
    link_ok = LinkFollows-append s.history d s.link s.client b v.link_ok;
  }
  step-Sound arrives s b v = arrive-Sound s.link s refl v
  step-Sound breaks s b v = record {
    ring_ok = v.ring_ok;
    link_ok = LinkFollows-Current s.history s.link s.client v.link_ok;
  }
  step-Sound dials s b v = dial-Sound s.link s refl v
  step-Sound answers s b v =
      answer-Sound s.link s refl (omega (arith, b, ap length (answer-history s.link s))) v

  run_grows :
      (es : List Event) (s : System) → length s.history ≤ length (run serialize es s).history
  unfolding run
  run_grows [] s = omega arith
  run_grows (e ∷ es) s = omega (arith, step_grows e s, run_grows es (step serialize e s))

  run-Sound :
      (es : List Event) (s : System)
      → length (run serialize es s).history < 2 ^ 64
      → Sound s
      → Sound (run serialize es s)
  unfolding run
  run-Sound [] s b v = v
  run-Sound (e ∷ es) s b v =
      run-Sound es (step serialize e s) b
        (step-Sound e s (omega (arith, run_grows es (step serialize e s))) v)

  start-Sound : Sound start
  start-Sound = record { ring_ok = record { ring_ok = refl; end_ok = refl }; link_ok = tt }

  -- After any events whatever, below 2 ^ 64 bytes of output: where the client has an offset, what it
  -- was handed is the snapshot of a front of the stream and then exactly the bytes from there to that
  -- offset.
  pub run-Current :
      (es : List Event)
      → length (run serialize es start).history < 2 ^ 64
      → Current serialize
          (run serialize es start).history
          (run serialize es start).client.off
          (run serialize es start).client
  run-Current es b =
      let s = run serialize es start in
      LinkFollows-Current s.history s.link s.client (run-Sound es start b start-Sound).link_ok

  -- After any events, below 2 ^ 64 bytes of output: a client that is attached and has taken every
  -- frame under way was handed the snapshot of a front of the stream and then all the rest that the
  -- pane has written, and its offset is the length of the stream.
  pub run-Caught :
      (es : List Event)
      → length (run serialize es start).history < 2 ^ 64
      → (run serialize es start).link ≡ up []
      → Caught serialize (run serialize es start).history (run serialize es start).client
  run-Caught es b e =
      let s = run serialize es start in
      subst (λ l. LinkFollows s.history l s.client) e (run-Sound es start b start-Sound).link_ok

-- Attach replays exactly the bytes behind the client's offset, and sends no snapshot, when the offset
-- is within the last 256 KiB of what was written.
pub attach_pane-replay :
    (serialize : ℕ → Bytes) (h : Bytes) (ref : PaneRef) (o : ℕ)
    → IsRing h ref
    → length h < 2 ^ 64
    → length h ≤ o + pane_ring_max
    → o ≤ length h
    → attach_pane serialize ref (some o)
      ≡ resume_frame o ∷ (if ltb o (length h) then out_frame (drop o h) ∷ [] else [])
unfolding attach_pane
attach_pane-replay serialize h ref o r b near le =
    let j = length h - pane_ring_max in
    rw (ring_start_lem h ref b r) (
      ground (
        arith,
        r.end_ok,
        ap length r.ring_ok,
        length-drop j h,
        ap (λ l. drop (o - j) l) r.ring_ok
            ∙ drop-drop (o - j) j h
            ∙ ap (λ k. drop k h) {y = o} (omega arith),
      ))
