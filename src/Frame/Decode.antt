-- ===== src/Frame/Decode.antt =====
-- The frame header's two directions (src/proto/frame.h).
use rivt.Base.{
  ℕ, ◌≤◌, ◌≡◌, refl, true, [], ◌∷◌, ◌++◌, length, drop, arith, take-append_le, drop-append_le,
  length-drop,
}
use rivt.Base.Bytes.{Bytes, All, IsByte, le_bytes, le_value, le_bytes-le_value}
use rivt.Frame.{FrameHeader, IsHeader, encode_frame_header, decode_frame_header}

pub length-encode_frame_header : (h : FrameHeader) → length (encode_frame_header h) ≡ 8
unfolding encode_frame_header le_bytes
length-encode_frame_header h = refl

-- Decoding what was encoded gives the header back, and lets it through, whatever follows it.
pub decode-encode_frame_header :
    (h : FrameHeader) (rest : Bytes)
    → IsHeader h
    → decode_frame_header (encode_frame_header h ++ rest) ≡ (h, true)
unfolding decode_frame_header encode_frame_header le_bytes le_value
decode-encode_frame_header h rest v = ground arith

-- Bytes behind the first eight do not matter.
pub decode_frame_header-append :
    (a b : Bytes) → 8 ≤ length a → decode_frame_header (a ++ b) ≡ decode_frame_header a
unfolding decode_frame_header
decode_frame_header-append a b h =
    let drop_at = λ (n : ℕ) (m : n ≤ 8). drop-append_le n a b (omega arith) in
    rw (
      take-append_le 4 a b (omega arith),
      drop_at 4 (omega arith),
      drop_at 6 (omega arith),
      take-append_le 2 (drop 4 a) b (omega (arith, length-drop 4 a)),
      take-append_le 2 (drop 6 a) b (omega (arith, length-drop 6 a)),
    )

-- Eight bytes are the encoding of the header that they decode to: no two headers look alike and no
-- bit of them is dropped.
pub encode-decode_frame_header :
    (b : Bytes) → length b ≡ 8 → All IsByte b → encode_frame_header (decode_frame_header b).0 ≡ b
unfolding decode_frame_header encode_frame_header
encode-decode_frame_header (b0 ∷ b1 ∷ b2 ∷ b3 ∷ b4 ∷ b5 ∷ b6 ∷ b7 ∷ []) e h = rw (
  le_bytes-le_value (b0 ∷ b1 ∷ b2 ∷ b3 ∷ []) (omega arith),
  le_bytes-le_value (b4 ∷ b5 ∷ []) (omega arith),
  le_bytes-le_value (b6 ∷ b7 ∷ []) (omega arith),
)
encode-decode_frame_header _ e h = absurd (omega arith)
