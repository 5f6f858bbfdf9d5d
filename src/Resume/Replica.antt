-- ===== src/Resume/Replica.antt =====
-- What a client of a pane holds, through output, lost connections and re-attaching: the frames of
-- src/daemon/rivtd.cpp as src/remote/remote_client.cpp takes them, in any order of events.
use rivt.Base.{
  ℕ, ◌+◌, ◌-◌, ◌^◌, ◌<◌, ◌≡◌, refl, ◌&&◌, List, [], ◌∷◌, ◌++◌, Option, none, some, length, drop,
  leb, ltb, arith, ◌∙◌, sym, ap, subst, append_assoc, append-nil, length-append, drop-append,
  Bool-cases, inl, inr, if◌then◌else◌,
}
use rivt.Base.Bytes.{Bytes, le_bytes, le_value-le_bytes}
use rivt.Resume.{
  PaneRef, pane_ring_max, pane_snapshot, PaneFrame, out_frame, resume_frame, snapshot_frames,
  attach_blob, attach_pane, RemotePane, process_frame,
}
use rivt.Resume.Ring.{IsRing, drop-drop, drop_all, ring_start_lem}

module _ (serialize : Bytes → ℕ → Bytes) where
  -- The client loaded the snapshot of a front of the stream and was handed what follows it, up to
  -- the offset `o`.
  pub record Replicates (history : Bytes) (o : ℕ) (c : RemotePane) : Type 0 where
    pub base : Bytes
    pub rest : Bytes
    pub was : history ≡ base ++ (c.since ++ rest)
    pub offset_ok : o ≡ length base + length c.since
    pub loaded_ok : c.loaded ≡ some (attach_blob (serialize base))

  -- An entry in `m_pane_off` says how far the client's replica is.
  abbrev pub Current : Bytes → Option ℕ → RemotePane → Type 0
  Current history none c = Unit
  Current history (some o) c = Replicates history o c

  -- The client has everything.
  pub record Caught (history : Bytes) (c : RemotePane) : Type 0 where
    pub off_ok : c.off ≡ some (length history)
    pub base : Bytes
    pub was : history ≡ base ++ c.since
    pub loaded_ok : c.loaded ≡ some (attach_blob (serialize base))

  -- At every point of the frames under way the entry is right, and behind the last the client has
  -- everything.
  abbrev pub Follows : Bytes → List PaneFrame → RemotePane → Type 0
  Follows history [] c = Caught history c
  Follows history (f ∷ q) c = Current history c.off c × Follows history q (process_frame f c)

  Caught-Current : (h : Bytes) (c : RemotePane) → Caught h c → Current h c.off c
  Caught-Current h c v =
      subst (λ o. Current h o c) (sym v.off_ok)
        (record {
          base = v.base;
          rest = [];
          was = v.was ∙ ap (λ l. v.base ++ l) (sym (append-nil c.since));
          offset_ok = ap length v.was ∙ length-append v.base c.since;
          loaded_ok = v.loaded_ok;
        })

  pub Follows-Current :
      (h : Bytes) (q : List PaneFrame) (c : RemotePane) → Follows h q c → Current h c.off c
  Follows-Current h [] c v = Caught-Current h c v
  Follows-Current h (f ∷ q) c v = v.0

  pub Current-append :
      (h d : Bytes) (o : Option ℕ) (c : RemotePane) → Current h o c → Current (h ++ d) o c
  Current-append h d none c v = tt
  Current-append h d (some o) c v = record {
    base = v.base;
    rest = v.rest ++ d;
    was =
        ap (λ l. l ++ d) v.was
        ∙ append_assoc v.base (c.since ++ v.rest) d
        ∙ ap (λ l. v.base ++ l) (append_assoc c.since v.rest d);
    offset_ok = v.offset_ok;
    loaded_ok = v.loaded_ok;
  }

  Caught-append :
      (h d : Bytes) (c : RemotePane)
      → length (h ++ d) < 2 ^ 64
      → Caught h c
      → Caught (h ++ d) (process_frame (out_frame d) c)
  unfolding process_frame
  Caught-append h d c b v = record {
    off_ok = rw (v.off_ok) (ap some (omega (arith, length-append h d)));
    base = v.base;
    was = ap (λ l. l ++ d) v.was ∙ append_assoc v.base c.since d;
    loaded_ok = v.loaded_ok;
  }

  pub Follows-append :
      (h d : Bytes) (q : List PaneFrame) (c : RemotePane)
      → length (h ++ d) < 2 ^ 64
      → Follows h q c
      → Follows (h ++ d) (q ++ (out_frame d ∷ [])) c
  Follows-append h d [] c b v =
      (Current-append h d c.off c (Caught-Current h c v), Caught-append h d c b v)
  Follows-append h d (f ∷ q) c b v =
      (Current-append h d c.off c v.0, Follows-append h d q (process_frame f c) b v.1)

  process_frame-resume :
      (o : ℕ) (c : RemotePane)
      → o < 2 ^ 64
      → process_frame (resume_frame o) c ≡ record c { off = some o }
  unfolding process_frame le_bytes
  process_frame-resume o c b = ap (λ v. record c { off = some v }) (le_value-le_bytes 8 o b)

  abbrev snapshot_frame : Bytes → PaneFrame
  snapshot_frame blob = record { type = pane_snapshot; payload = blob }

  process_frame-snapshot :
      (blob : Bytes) (c : RemotePane)
      → process_frame (snapshot_frame blob) c
        ≡ record { off = none; loaded = some blob; since = [] }
  unfolding process_frame
  process_frame-snapshot blob c = refl

  -- A snapshot and its anchor bring any client up to date.
  snapshot_frames-Follows :
      (h : Bytes) (ref : PaneRef) (c : RemotePane)
      → length h < 2 ^ 64
      → IsRing h ref
      → Current h c.off c
      → Follows h (snapshot_frames (attach_blob (serialize h)) ref) c
  snapshot_frames-Follows h ref c b r v =
      rw
        (
          process_frame-snapshot (attach_blob (serialize h)) c,
          process_frame-resume ref.ring_end
              (record { off = none; loaded = some (attach_blob (serialize h)); since = [] })
              (omega (arith, r.end_ok)),
        )
        (
          v,
          (
            tt,
            record {
              off_ok = ap some (omega (arith, r.end_ok));
              base = h;
              was = sym (append-nil h);
              loaded_ok = refl;
            },
          ),
        )

  -- What the client has is followed by the end of the ring from `skip` on.
  ring-rest :
      (h : Bytes) (o : ℕ) (ref : PaneRef) (c : RemotePane) (skip : ℕ)
      → IsRing h ref
      → (v : Replicates h o c) → skip + (length h - pane_ring_max) ≡ o
      → drop skip ref.ring ≡ v.rest
  ring-rest h o ref c skip r v e =
      ap (λ l. drop skip l) r.ring_ok
      ∙ drop-drop skip (length h - pane_ring_max) h
      ∙ ap (λ l. drop (length h - pane_ring_max + skip) l)
          (v.was ∙ sym (append_assoc v.base c.since v.rest))
      ∙ drop-append (v.base ++ c.since) v.rest (length h - pane_ring_max + skip)
          (omega (arith, v.offset_ok, length-append v.base c.since))

  Replicates-le :
      (h : Bytes) (o : ℕ) (c : RemotePane) (v : Replicates h o c) → o + length v.rest ≡ length h
  Replicates-le h o c v = omega (
    arith,
    v.offset_ok,
    ap length v.was,
    length-append v.base (c.since ++ v.rest),
    length-append c.since v.rest,
  )

  -- The client with its entry set to `o`.
  abbrev anchored : ℕ → RemotePane → RemotePane
  anchored o c = record c { off = some o }

  anchored-Replicates :
      (h : Bytes) (o : ℕ) (c : RemotePane) → Replicates h o c → Replicates h o (anchored o c)
  anchored-Replicates h o c v = record {
    base = v.base;
    rest = v.rest;
    was = v.was;
    offset_ok = v.offset_ok;
    loaded_ok = v.loaded_ok;
  }

  -- The rest of the stream brings an anchored client up to date.
  out-Caught :
      (h d : Bytes) (o : ℕ) (c : RemotePane) (v : Replicates h o c)
      → length h < 2 ^ 64
      → d ≡ v.rest
      → Caught h (process_frame (out_frame d) (anchored o c))
  unfolding process_frame
  out-Caught h d o c v b e = record {
    off_ok = ap some (omega (arith, Replicates-le h o c v, ap length e));
    base = v.base;
    was = v.was ∙ ap (λ l. v.base ++ (c.since ++ l)) (sym e);
    loaded_ok = v.loaded_ok;
  }

  -- A client that lacks nothing is up to date as it stands.
  nothing-Caught :
      (h : Bytes) (o : ℕ) (c : RemotePane) (v : Replicates h o c)
      → v.rest ≡ []
      → Caught h (anchored o c)
  nothing-Caught h o c v e = record {
    off_ok = ap some (omega (arith, Replicates-le h o c v, ap length e));
    base = v.base;
    was = v.was ∙ ap (λ l. v.base ++ l) (ap (λ l. c.since ++ l) e ∙ append-nil c.since);
    loaded_ok = v.loaded_ok;
  }

  replay-Follows :
      (h : Bytes) (o : ℕ) (ref : PaneRef) (c : RemotePane) (skip : ℕ)
      → length h < 2 ^ 64
      → IsRing h ref
      → c.off ≡ some o
      → Replicates h o c
      → skip + (length h - pane_ring_max) ≡ o
      → Follows h
          (resume_frame o
            ∷ (if ltb skip (length ref.ring) then out_frame (drop skip ref.ring) ∷ [] else []))
          c
  replay-Follows h o ref c skip b r e v k =
      let rest = ring-rest h o ref c skip r v k in
      (
        subst (λ off. Current h off c) (sym e) v,
        rw (process_frame-resume o c (omega (arith, Replicates-le h o c v)))
            (elim (Bool-cases (ltb skip (length ref.ring))) [
              | inl more ↦
                  rw more
                    (anchored-Replicates h o c v, out-Caught h (drop skip ref.ring) o c v b rest)
              | inr all ↦
                  rw all (nothing-Caught h o c v (sym rest ∙ drop_all skip ref.ring (ground arith)))
            ]),
      )

  pub attach_pane-Follows :
      (h : Bytes) (ref : PaneRef) (c : RemotePane) (off : Option ℕ)
      → length h < 2 ^ 64
      → IsRing h ref
      → c.off ≡ off
      → Current h off c
      → Follows h (attach_pane (serialize h) ref off) c
  unfolding attach_pane
  attach_pane-Follows h ref c none b r e v =
      snapshot_frames-Follows h ref c b r (subst (λ off. Current h off c) (sym e) tt)
  attach_pane-Follows h ref c (some o) b r e v =
      rw (ring_start_lem h ref b r)
        (elim (Bool-cases (leb (length h - pane_ring_max) o && leb o ref.ring_end)) [
          | inl inside ↦
              rw inside
                (replay-Follows h o ref c (o - (length h - pane_ring_max)) b r e v (ground arith))
          | inr outside ↦
              rw outside
                (snapshot_frames-Follows h ref c b r (subst (λ off. Current h off c) (sym e) v))
        ])
