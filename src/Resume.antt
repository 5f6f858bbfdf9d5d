-- ===== src/Resume.antt =====
-- The seamless re-attach of a client to a pane: the ring of recent output and the answer to Attach in
-- src/daemon/rivtd.cpp, and what RemoteClient (src/remote/remote_client.cpp) does with the frames of
-- one pane.
pub mod Ring
pub mod Replica
pub mod Runs
mod Examples
use rivt.Base.{
  ℕ, ◌+◌, ◌-◌, ◌*◌, ◌/◌, ◌%◌, ◌^◌, Bool, ◌&&◌, List, [], ◌∷◌, ◌++◌, Option, none, some, length,
  take, drop, ltb, leb, ◌==◌, if◌then◌else◌,
}
use rivt.Base.Bytes.{Bytes, le_bytes, le_value}
use rivt.Frame.{frame_max_len}
use mathlib.Core.Option

abbrev pub pane_out : ℕ
pane_out = 0

abbrev pub pane_snapshot : ℕ
pane_snapshot = 2

abbrev pub pane_resume : ℕ
pane_resume = 5

-- 256 * 1024
abbrev pub pane_ring_max : ℕ
pane_ring_max = 256 * 1024

-- ATTACH_SCROLLBACK_LINES
abbrev pub attach_scrollback_lines : ℕ
attach_scrollback_lines = 100

-- The fields of `PaneRef` that the re-attach needs.
pub record PaneRef : Type 0 where
  pub ring : Bytes
  pub ring_end : ℕ

-- The first part of the callback that `wire_pane` gives to a pane.
unfoldable pub on_output : Bytes → PaneRef → PaneRef
on_output d ref =
    let ring = ref.ring ++ d in
    record {
      ring =
          if ltb pane_ring_max (length ring) then drop (length ring - pane_ring_max) ring else ring;
      ring_end = (ref.ring_end + length d) % 2 ^ 64;
    }

-- A frame on the channel of the pane.
pub record PaneFrame : Type 0 where
  pub type : ℕ
  pub payload : Bytes

abbrev pub out_frame : Bytes → PaneFrame
out_frame d = record { type = pane_out; payload = d }

abbrev pub resume_frame : ℕ → PaneFrame
resume_frame off = record { type = pane_resume; payload = le_bytes 8 off }

-- The snapshot that Attach sends, with another number of lines of history, 200, where the first is
-- longer than half a frame.
-- `serialize` is Snapshot::serialize of the pane with a number of scrollback lines.
unfoldable pub attach_blob : (ℕ → Bytes) → Bytes
attach_blob serialize =
    let blob = serialize attach_scrollback_lines in
    if ltb (frame_max_len / 2) (length blob) then serialize 200 else blob

-- The full state, and the anchor behind it.
abbrev pub snapshot_frames : Bytes → PaneRef → List PaneFrame
snapshot_frames blob ref =
    record { type = pane_snapshot; payload = blob } ∷ resume_frame ref.ring_end ∷ []

-- What Attach sends for a pane, given the client's resume entry for it.
unfoldable pub attach_pane : (ℕ → Bytes) → PaneRef → Option ℕ → List PaneFrame
unfolding attach_blob
attach_pane serialize ref none = snapshot_frames (attach_blob serialize) ref
attach_pane serialize ref (some off) =
    let ring_start = (ref.ring_end + (2 ^ 64 - length ref.ring)) % 2 ^ 64 in
    let skip = off - ring_start in
    if leb ring_start off && leb off ref.ring_end
    then resume_frame off
      ∷ (if ltb skip (length ref.ring) then out_frame (drop skip ref.ring) ∷ [] else [])
    else snapshot_frames (attach_blob serialize) ref

-- The client's entry in `m_pane_off`, and what its callbacks were handed: the last snapshot, and the
-- output since.
pub record RemotePane : Type 0 where
  pub off : Option ℕ
  pub loaded : Option Bytes
  pub since : Bytes

-- RemoteClient::process_buffer on a frame of the pane. Frames of other types change nothing here.
unfoldable pub process_frame : PaneFrame → RemotePane → RemotePane
process_frame f c =
    if f.type == pane_out
    then record {
      off = Option.map (λ o. (o + length f.payload) % 2 ^ 64) c.off;
      loaded = c.loaded;
      since = c.since ++ f.payload;
    }
    else if f.type == pane_resume
    then (if leb 8 (length f.payload)
        then record c { off = some (le_value (take 8 f.payload)) }
        else c)
    else if f.type == pane_snapshot
    then record { off = none; loaded = some f.payload; since = [] }
    else c

-- The connection: none; one on which the client has sent Attach with its entry; one on which it is
-- attached, with the frames of the pane that are under way.
pub data Link : Type 0 where
  down : Link
  asked : Option ℕ → Link
  up : List PaneFrame → Link

-- `history` is all that the pane has ever written; no code keeps it.
pub record System : Type 0 where
  pub history : Bytes
  pub ref : PaneRef
  pub link : Link
  pub client : RemotePane

abbrev pub start : System
start = record {
  history = [];
  ref = record { ring = []; ring_end = 0 };
  link = down;
  client = record { off = none; loaded = none; since = [] };
}

-- The pane writes; a frame arrives; the connection breaks, with what is under way on it; the client
-- dials again and sends Attach; the daemon answers it.
pub data Event : Type 0 where
  writes : Bytes → Event
  arrives breaks dials answers : Event

-- `send_frame` to a client that is attached.
abbrev pub send : PaneFrame → Link → Link
send f (up q) = up (q ++ (f ∷ []))
send f link = link

module _ (serialize : Bytes → ℕ → Bytes) where
  abbrev pub arrive : Link → System → System
  arrive (up (f ∷ q)) s = record s { link = up q; client = process_frame f s.client }
  arrive link s = s

  abbrev pub answer : Link → System → System
  answer (asked off) s = record s { link = up (attach_pane (serialize s.history) s.ref off) }
  answer link s = s

  abbrev pub dial : Link → System → System
  dial down s = record s { link = asked s.client.off }
  dial link s = s

  unfoldable pub step : Event → System → System
  step (writes d) s = record {
    history = s.history ++ d;
    ref = on_output d s.ref;
    link = send (out_frame d) s.link;
    client = s.client;
  }
  step arrives s = arrive s.link s
  step breaks s = record s { link = down }
  step dials s = dial s.link s
  step answers s = answer s.link s

  unfoldable pub run : List Event → System → System
  run [] s = s
  run (e ∷ es) s = run es (step e s)
