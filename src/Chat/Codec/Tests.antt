-- ===== src/Chat/Codec/Tests.antt =====
-- The codec at concrete messages.
use burger.Common.{◌≡◌, refl, false, some, [], ◌∷◌, arith}
use burger.Net.Endian.{host_to_network}
use burger.Net.Buffer.{Buffer}
use burger.Net.Buffer.Valid.{IsValid, contents}
use burger.Chat.Codec.{decode}
use burger.Chat.Codec.Frames.{no_header, decode-frames_lem}

-- Two frames, "a" and "", and two bytes of the next header.
abbrev two_frames : Buffer
two_frames = record {
  bytes = 0 ∷ 0 ∷ 0 ∷ 1 ∷ 97 ∷ 0 ∷ 0 ∷ 0 ∷ 0 ∷ 0 ∷ 0 ∷ [];
  reader = 0;
  writer = 11;
}

decode-frames_lem_example :
    (b : Buffer) × (decode two_frames ≡ some ((97 ∷ []) ∷ [] ∷ [], false, b))
    × IsValid b
    × (contents b ≡ 0 ∷ 0 ∷ [])
unfolding host_to_network
decode-frames_lem_example =
    decode-frames_lem ((97 ∷ []) ∷ [] ∷ []) (0 ∷ 0 ∷ []) two_frames (omega arith) (omega arith)
      (no_header (omega arith)) refl

-- A header of 2 ^ 24.
abbrev long_frame : Buffer
long_frame = record { bytes = 1 ∷ 0 ∷ 0 ∷ 0 ∷ 97 ∷ 0 ∷ 0 ∷ 0 ∷ []; reader = 0; writer = 5 }
