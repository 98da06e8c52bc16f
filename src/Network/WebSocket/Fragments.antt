-- ===== src/Network/WebSocket/Fragments.antt =====
-- A message sent in fragments through network/websocket.cpp.
use mathlib.Core.List.{append_assoc, append-nil}
use malibu.Common.{
  All, Bool, List, [], arith, drop, drop-length-append, false, is_empty, length, refl, suc, true,
  zero, ℕ, ◌++◌, ◌+◌, ◌<◌, ◌==◌, ◌^◌, ◌∙◌, ◌∷◌, ◌≡◌,
}
use malibu.Network.WebSocket.{
  FrameType, Frame, decode_frame, encode_frame, WebSocket, Message, gather, absorb, drain, feed,
  Fed, is_control,
}
use malibu.Network.WebSocket.Payload.{AreBytes, Key, key_bytes, AreKeyBytes, has_key}
use malibu.Network.WebSocket.Codec.{decode_frame-encode_frame}
use malibu.Network.WebSocket.Stream.{drain_ok, drain-fuel}

-- A fragment is its payload and its mask key.
abbrev pub Part : Type 0
Part = List ℕ × Key

abbrev pub IsPart : Part → Type 0
IsPart (bytes, key) = (length bytes < 2 ^ 63) × AreBytes bytes × AreKeyBytes key

abbrev pub joined : List Part → List ℕ
joined [] = []
joined ((bytes, key) ∷ ps) = bytes ++ joined ps

-- The frames of a fragmented message: the last one has the final bit, all but the first are
-- continuations (opcode 0).
pub part_frame : FrameType → Part → Bool → List ℕ
part_frame type (bytes, key) last = encode_frame type bytes last (key_bytes key)

abbrev pub continuations : List Part → List ℕ
continuations [] = []
continuations (p ∷ ps) = part_frame 0 p (is_empty ps) ++ continuations ps

abbrev pub fragments : FrameType → Part → List Part → List ℕ
fragments type p ps = part_frame type p (is_empty ps) ++ continuations ps

drop-part : (xs ys : List ℕ) → drop (length xs) (xs ++ ys) ≡ ys
drop-part xs ys = drop-length-append xs ys

-- One frame of the message through the loop.
drain_part :
    (fuel : ℕ) (w : WebSocket) (type : FrameType) (bytes : List ℕ) (key : Key) (last : Bool)
    (rest : List ℕ) (out : List Message)
    → type < 16
    → IsPart (bytes, key)
    → drain (suc fuel) w (part_frame type (bytes, key) last ++ rest) out
      ≡ drain fuel
          (absorb w (record { type = type; fin = last; masked = has_key key; payload = bytes })).0
          rest
          (out
            ++ (absorb w
                (record { type = type; fin = last; masked = has_key key; payload = bytes })).1)
unfolding part_frame
drain_part fuel w type bytes key last rest out ht (hl, hb, hk) =
    let sent = encode_frame type bytes last (key_bytes key) in
    rw (
      drain_ok fuel w (sent ++ rest) out _ (length sent)
          (decode_frame-encode_frame type bytes last key rest ht hl hb hk),
      drop-part sent rest,
    )

drain_nil :
    (fuel : ℕ) (w : WebSocket) (out : List Message)
    → drain (suc fuel) w [] out ≡ Fed.fed (record w { rx_buffer = [] }) out
unfolding drain decode_frame
drain_nil fuel w out = refl

idle : WebSocket → WebSocket
idle w = record w { rx_buffer = []; fragmenting = false; frag_data = [] }

-- The continuation frames, on a message of which `frag_data` has arrived.
drain-continuations :
    (ps : List Part) (p : Part) (fuel : ℕ) (w : WebSocket) (out : List Message)
    → All IsPart (p ∷ ps)
    → w.fragmenting ≡ true
    → length (p ∷ ps) < fuel
    → drain fuel w (continuations (p ∷ ps)) out
      ≡ Fed.fed
          (idle w)
          (out ++ record { type = w.frag_type; bytes = w.frag_data ++ joined (p ∷ ps) } ∷ [])
unfolding absorb idle
drain-continuations ps p zero w out h g l = absurd (omega arith)
drain-continuations ps p (suc zero) w out h g l = absurd (omega arith)
drain-continuations [] (bytes, key) (suc (suc fuel)) w out h g l =
    rw (drain_part (suc fuel) w 0 bytes key true [] out (omega arith) h.0, g, append-nil bytes)
      (drain_nil fuel _ _)
drain-continuations (q ∷ ps) (bytes, key) (suc fuel) w out h g l =
    rw
      (
        drain_part fuel w 0 bytes key false (continuations (q ∷ ps)) out (omega arith) h.0,
        append-nil out,
        ← append_assoc w.frag_data bytes (joined (q ∷ ps)),
      )
      (drain-continuations ps q fuel (record w { frag_data = w.frag_data ++ bytes }) out h.1 g
        (omega arith))

drain-fragments :
    (type : FrameType) (p : Part) (ps : List Part) (fuel : ℕ) (w : WebSocket)
    → type < 16
    → (type == 0) ≡ false
    → is_control type ≡ false
    → All IsPart (p ∷ ps)
    → length (p ∷ ps) < fuel
    → drain fuel w (fragments type p ps) []
      ≡ Fed.fed
          (idle (record w { frag_type = type }))
          (record { type = type; bytes = joined (p ∷ ps) } ∷ [])
unfolding absorb idle gather
drain-fragments type p ps zero w ht hz hc h l = absurd (omega arith)
drain-fragments type p ps (suc zero) w ht hz hc h l = absurd (omega arith)
drain-fragments type (bytes, key) [] (suc (suc fuel)) w ht hz hc h l =
    rw (drain_part (suc fuel) w type bytes key true [] [] ht h.0, hz, hc, append-nil bytes)
      (drain_nil fuel _ _)
drain-fragments type (bytes, key) (q ∷ ps) (suc fuel) w ht hz hc h l =
    rw (drain_part fuel w type bytes key false (continuations (q ∷ ps)) [] ht h.0, hz, hc)
      (drain-continuations ps q fuel
        (record w { frag_data = bytes; frag_type = type; fragmenting = true }) [] h.1 refl
        (omega arith))

-- A message of a type below 16 that is no control frame and no continuation, sent in any number of
-- fragments of fewer than 2 ^ 63 bytes each, each under its own mask key or none, arrives at a socket
-- with an empty buffer as one message with the type of the first frame and the payloads joined. The
-- socket is left with an empty buffer and no message begun.
pub feed-fragments :
    (w : WebSocket) (type : FrameType) (p : Part) (ps : List Part)
    → w.rx_buffer ≡ []
    → type < 16
    → (type == 0) ≡ false
    → is_control type ≡ false
    → All IsPart (p ∷ ps)
    → feed w (fragments type p ps)
      ≡ Fed.fed
          (record w { rx_buffer = []; frag_type = type; fragmenting = false; frag_data = [] })
          (record { type = type; bytes = joined (p ∷ ps) } ∷ [])
unfolding feed idle
feed-fragments w type p ps e ht hz hc h =
    let sent = fragments type p ps in
    rw e (
      drain-fuel (suc (length sent)) (length sent + length ps + 3) (record w { rx_buffer = sent })
        sent [] (omega arith) (omega arith)
      ∙ drain-fragments type p ps (length sent + length ps + 3) (record w { rx_buffer = sent }) ht
          hz hc h (omega arith))

-- A control frame between fragments is delivered at once and leaves the message that is being put
-- together alone.
pub absorb-control :
    (w : WebSocket) (f : Frame)
    → is_control f.type ≡ true
    → absorb w f ≡ (w, record { type = f.type; bytes = f.payload } ∷ [])
unfolding absorb
absorb-control w f h = rw h
