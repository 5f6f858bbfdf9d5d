-- ===== src/Frame.antt =====
-- src/proto/frame.h: the 8-byte header of a frame; and the loop of src/daemon/rivtd.cpp
-- (Daemon::process_client) that takes whole frames off the front of a client's input buffer.
pub mod Stream
pub mod Decode
mod Examples
use rivt.Base.{
  ℕ, zero, suc, ◌+◌, ◌*◌, ◌^◌, ◌<◌, ◌≤◌, Bool, true, false, not, ◌||◌, List, [], ◌∷◌, ◌++◌, length,
  take, drop, ltb, leb, if◌then◌else◌,
}
use rivt.Base.Bytes.{Bytes, le_bytes, le_value}

abbrev pub frame_header_size : ℕ
frame_header_size = 8

-- 8 << 20
abbrev pub frame_max_len : ℕ
frame_max_len = 8 * 2 ^ 20

pub record FrameHeader : Type 0 where
  pub len : ℕ
  pub channel : ℕ
  pub type : ℕ

unfoldable pub encode_frame_header : FrameHeader → Bytes
encode_frame_header h = le_bytes 4 h.len ++ (le_bytes 2 h.channel ++ le_bytes 2 h.type)

-- The first eight bytes of `b`, which the callers see to, and whether the length is allowed.
unfoldable pub decode_frame_header : Bytes → FrameHeader × Bool
decode_frame_header b =
    let len = le_value (take 4 b) in
    (
      record {
        len = len;
        channel = le_value (take 2 (drop 4 b));
        type = le_value (take 2 (drop 6 b));
      },
      leb len frame_max_len,
    )

-- The values that the C++ fields hold, at a length that the decoder lets through.
pub record IsHeader (h : FrameHeader) : Type 0 where
  pub len_ok : h.len ≤ frame_max_len
  pub channel_ok : h.channel < 2 ^ 16
  pub type_ok : h.type < 2 ^ 16

-- A frame as `send_frame` queues it: the header, then the payload.
unfoldable pub frame : FrameHeader → Bytes → Bytes
frame h payload = encode_frame_header h ++ payload

-- The loop over any state `S` of the receiver, its test for a killed client, what a bad header
-- does to it and what a whole frame does to it.
module _ {S : Type 0} (dead : S → Bool) (kill : S → S) (handle : FrameHeader → Bytes → S → S) where
  -- One pass of the loop's body: the new state and buffer, and whether the loop goes on.
  pub process_step : S → Bytes → S × Bytes × Bool
  process_step s b =
      if dead s || ltb (length b) frame_header_size
      then (s, b, false)
      else (let (h, allowed) = decode_frame_header b in
          let total = frame_header_size + h.len in
          if not allowed
          then (kill s, b, false)
          else if ltb (length b) total
          then (s, b, false)
          else (handle h (take h.len (drop frame_header_size b)) s, drop total b, true))

  pub process_loop : ℕ → S → Bytes → S × Bytes
  process_loop zero s b = (s, b)
  process_loop (suc fuel) s b =
      let (s', b', more) = process_step s b in
      let rest = process_loop fuel s' b' in if more then rest else (s', b')

  -- Each round of the loop takes eight bytes at least, so a unit of fuel for each byte is enough.
  pub process_client : S → Bytes → S × Bytes
  process_client s b = process_loop (suc (length b)) s b
