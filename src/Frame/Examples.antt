-- ===== src/Frame/Examples.antt =====
-- The frame loop of src/daemon/rivtd.cpp with a receiver that lists what it was handed.
use rivt.Base.{◌≡◌, refl, Bool, true, false, List, [], ◌∷◌, ◌++◌, arith}
use rivt.Base.Bytes.{Bytes, le_value}
use rivt.Frame.{
  FrameHeader, IsHeader, frame, encode_frame_header, decode_frame_header, process_step,
  process_loop, process_client,
}
use rivt.Frame.Decode.{decode-encode_frame_header}
use rivt.Frame.Stream.{process_client-append, queued, process_client-queued}

-- Whether the client was killed, and the frames handled, the last first.
abbrev Log : Type 0
Log = Bool × List (FrameHeader × Bytes)

abbrev log_dead : Log → Bool
log_dead s = s.0

abbrev log_kill : Log → Log
log_kill s = (true, s.1)

abbrev log_handle : FrameHeader → Bytes → Log → Log
log_handle h payload s = (s.0, (h, payload) ∷ s.1)

abbrev hello : FrameHeader
hello = record { len = 2; channel = 0; type = 1 }

abbrev input : FrameHeader
input = record { len = 1; channel = 5; type = 16 }

-- A header that announces more than is allowed.
abbrev oversized : Bytes
oversized = 0 ∷ 0 ∷ 0 ∷ 1 ∷ 0 ∷ 0 ∷ 1 ∷ 0 ∷ []

abbrev sent : List (FrameHeader × Bytes)
sent = (hello, b'h' ∷ b'i' ∷ []) ∷ (input, b'x' ∷ []) ∷ []

hello-IsHeader : IsHeader hello
hello-IsHeader = record { len_ok = omega arith; channel_ok = omega arith; type_ok = omega arith }

input-IsHeader : IsHeader input
input-IsHeader = record { len_ok = omega arith; channel_ok = omega arith; type_ok = omega arith }

oversized_test :
    process_client log_dead log_kill log_handle (false, []) oversized ≡ ((true, []), oversized)
unfolding process_client process_loop process_step decode_frame_header le_value
oversized_test = refl

decode-encode_frame_header_example :
    decode_frame_header (encode_frame_header hello ++ (b'h' ∷ [])) ≡ (hello, true)
decode-encode_frame_header_example = decode-encode_frame_header hello (b'h' ∷ []) hello-IsHeader

abbrev first_part : Bytes
first_part = frame hello (b'h' ∷ b'i' ∷ []) ++ (1 ∷ 0 ∷ [])

process_client-append_example :
    process_client log_dead log_kill log_handle
      (process_client log_dead log_kill log_handle (false, []) first_part).0
      ((process_client log_dead log_kill log_handle (false, []) first_part).1 ++ (0 ∷ 0 ∷ []))
    ≡ process_client log_dead log_kill log_handle (false, []) (first_part ++ (0 ∷ 0 ∷ []))
process_client-append_example =
    process_client-append log_dead log_kill log_handle (λ s. refl) (false, []) first_part
      (0 ∷ 0 ∷ [])

process_client-queued_example :
    process_client log_dead log_kill log_handle
      (false, [])
      (queued log_dead log_kill log_handle sent ++ (3 ∷ []))
    ≡ ((false, (input, b'x' ∷ []) ∷ (hello, b'h' ∷ b'i' ∷ []) ∷ []), 3 ∷ [])
process_client-queued_example =
    process_client-queued log_dead log_kill log_handle sent (false, []) (3 ∷ [])
      ((hello-IsHeader, refl), ((input-IsHeader, refl), tt)) (refl, (refl, tt)) (omega arith)
