-- ===== src/Tests/Frames.antt =====
-- Runs of the frame codec and the receiver of network/websocket.cpp.
use malibu.Common.{
  List, [], arith, false, length, none, refl, some, true, ℕ, ◌++◌, ◌-◌, ◌^◌, ◌∷◌, ◌≡◌,
}
use malibu.Network.WebSocket.{
  absorb, Decoded, Fed, WebSocket, new_socket, encode_frame, decode_frame, big_endian, feed, drain,
  text,
}
use malibu.Network.WebSocket.Payload.{key_bytes}
use malibu.Network.WebSocket.Codec.{decode_frame-encode_frame}
use malibu.Network.WebSocket.Chunks.{feed-append}
use malibu.Network.WebSocket.Fragments.{fragments, joined, feed-fragments}
use malibu.Network.WebSocket.Overflow.{decode_frame-length_error}

-- "Hi" in one text frame without a mask.
abbrev hi : List ℕ
hi = 72 ∷ 105 ∷ []

abbrev hi_frame : List ℕ
hi_frame = 129 ∷ 2 ∷ 72 ∷ 105 ∷ []

encodes : encode_frame text hi true none ≡ hi_frame
unfolding encode_frame
encodes = refl

decodes :
    decode_frame hi_frame
    ≡ Decoded.ok (record { type = text; fin = true; masked = false; payload = hi }) 4
unfolding decode_frame
decodes = refl

-- Half of the frame is kept, and the rest completes it.
abbrev half : WebSocket
half = record new_socket { rx_buffer = 129 ∷ 2 ∷ [] }

feeds_half : feed new_socket (129 ∷ 2 ∷ []) ≡ Fed.fed half []
unfolding feed drain decode_frame
feeds_half = refl

feeds_rest : feed half hi ≡ Fed.fed new_socket (record { type = text; bytes = hi } ∷ [])
unfolding feed drain decode_frame absorb
feeds_rest = refl

decode_frame-encode_frame_example :
    decode_frame (encode_frame text hi true (key_bytes (some (1, 2, 3, 4))) ++ 7 ∷ [])
    ≡ Decoded.ok
        (record { type = text; fin = true; masked = true; payload = hi })
        (length (encode_frame text hi true (key_bytes (some (1, 2, 3, 4)))))
decode_frame-encode_frame_example =
    decode_frame-encode_frame text hi true (some (1, 2, 3, 4)) (7 ∷ []) (omega arith) (omega arith)
      (omega arith, (omega arith, tt))
      (omega arith, (omega arith, (omega arith, (omega arith, tt))))

feed-append_example :
    feed new_socket ((129 ∷ 2 ∷ []) ++ hi)
    ≡ Fed.fed new_socket ([] ++ record { type = text; bytes = hi } ∷ [])
feed-append_example =
    feed-append new_socket (129 ∷ 2 ∷ []) hi half new_socket []
      (record { type = text; bytes = hi } ∷ []) feeds_half feeds_rest

feed-fragments_example :
    feed new_socket (fragments text (72 ∷ [], none) ((105 ∷ [], some (1, 2, 3, 4)) ∷ []))
    ≡ Fed.fed
        (record new_socket {
          rx_buffer = [];
          frag_type = text;
          fragmenting = false;
          frag_data = [];
        })
        (record {
          type = text;
          bytes = joined ((72 ∷ [], none) ∷ (105 ∷ [], some (1, 2, 3, 4)) ∷ []);
        }
          ∷ [])
feed-fragments_example =
    feed-fragments new_socket text (72 ∷ [], none) ((105 ∷ [], some (1, 2, 3, 4)) ∷ []) refl
      (omega arith) refl refl
      (
        (omega arith, (omega arith, tt), tt),
        (
          (
            omega arith,
            (omega arith, tt),
            (omega arith, (omega arith, (omega arith, (omega arith, tt)))),
          ),
          tt,
        ),
      )

decode_frame-length_error_example :
    decode_frame (130 ∷ 127 ∷ (big_endian 8 (2 ^ 64 - 1) ++ [])) ≡ Decoded.length_error
decode_frame-length_error_example =
    decode_frame-length_error 130 (2 ^ 64 - 1) [] (omega arith) (omega arith)
