-- ===== src/Network/WebSocket/Stream.antt =====
-- `WebSocket::feed` of network/websocket.cpp over a stream that arrives in pieces.

use malibu.Common.{
  List, [], arith, drop, inl, inr, length, length-drop, refl, suc, sym, zero, ℕ, ◌++◌, ◌<◌, ◌∙◌,
  ◌≡◌, ◌⊎◌,
}
use malibu.Network.WebSocket.{
  Frame, Decoded, decode_frame, WebSocket, Message, absorb, drain, feed, Fed,
}
use malibu.Network.WebSocket.Prefix.{decode_frame-append}

pub Decoded-cases :
    (d : Decoded)
    → ((f : Frame) × (n : ℕ) × (d ≡ Decoded.ok f n))
      ⊎ ((d ≡ Decoded.need_more) ⊎ (d ≡ Decoded.length_error))
Decoded-cases (Decoded.ok f n) = inl (f, n, refl)
Decoded-cases Decoded.need_more = inr (inl refl)
Decoded-cases Decoded.length_error = inr (inr refl)

-- The rounds of the loop.
pub drain_ok :
    (fuel : ℕ) (w : WebSocket) (buf : List ℕ) (out : List Message) (f : Frame) (n : ℕ)
    → decode_frame buf ≡ Decoded.ok f n
    → drain (suc fuel) w buf out ≡ drain fuel (absorb w f).0 (drop n buf) (out ++ (absorb w f).1)
unfolding drain
drain_ok fuel w buf out f n e = rw (e, drain)

pub drain_more :
    (fuel : ℕ) (w : WebSocket) (buf : List ℕ) (out : List Message)
    → decode_frame buf ≡ Decoded.need_more
    → drain (suc fuel) w buf out ≡ Fed.fed (record w { rx_buffer = buf }) out
unfolding drain
drain_more fuel w buf out e = rw (e, drain)

pub drain_error :
    (fuel : ℕ) (w : WebSocket) (buf : List ℕ) (out : List Message)
    → decode_frame buf ≡ Decoded.length_error
    → drain (suc fuel) w buf out ≡ Fed.thrown w
unfolding drain
drain_error fuel w buf out e = rw (e, drain)

-- The number of bytes is fuel enough: more fuel changes nothing.
pub drain-fuel :
    (fuel fuel' : ℕ) (w : WebSocket) (buf : List ℕ) (out : List Message)
    → length buf < fuel
    → length buf < fuel'
    → drain fuel w buf out ≡ drain fuel' w buf out
drain-fuel zero fuel' w buf out h h' = absurd (omega arith)
drain-fuel (suc fuel) zero w buf out h h' = absurd (omega arith)
drain-fuel (suc fuel) (suc fuel') w buf out h h' = elim (Decoded-cases (decode_frame buf)) [
  | inl (f, n, e) ↦
      let (_, lo, hi) = decode_frame-append buf [] f n e in
      rw (drain_ok fuel w buf out f n e, drain_ok fuel' w buf out f n e)
        (drain-fuel fuel fuel' (absorb w f).0 (drop n buf) (out ++ (absorb w f).1)
          (omega (arith, length-drop n buf)) (omega (arith, length-drop n buf)))
  | inr (inl e) ↦ drain_more fuel w buf out e ∙ sym (drain_more fuel' w buf out e)
  | inr (inr e) ↦ drain_error fuel w buf out e ∙ sym (drain_error fuel' w buf out e)
]

-- What is left in the buffer is not a whole frame.
drain-need_more :
    (fuel : ℕ) (w : WebSocket) (buf : List ℕ) (out : List Message) (w' : WebSocket)
    (out' : List Message)
    → length buf < fuel
    → drain fuel w buf out ≡ Fed.fed w' out'
    → decode_frame w'.rx_buffer ≡ Decoded.need_more
drain-need_more zero w buf out w' out' h r = absurd (omega arith)
drain-need_more (suc fuel) w buf out w' out' h r = elim (Decoded-cases (decode_frame buf)) [
  | inl (f, n, e) ↦
      let (_, lo, hi) = decode_frame-append buf [] f n e in
      drain-need_more fuel (absorb w f).0 (drop n buf) (out ++ (absorb w f).1) w' out'
        (omega (arith, length-drop n buf)) (sym (drain_ok fuel w buf out f n e) ∙ r)
  | inr (inl e) ↦ fed_rest w buf out w' out' (sym (drain_more fuel w buf out e) ∙ r) e
  | inr (inr e) ↦ absurd (cc (sym (drain_error fuel w buf out e) ∙ r))
]
  where
    fed_rest :
        (w : WebSocket) (buf : List ℕ) (out : List Message) (w' : WebSocket) (out' : List Message)
        → Fed.fed (record w { rx_buffer = buf }) out ≡ Fed.fed w' out'
        → decode_frame buf ≡ Decoded.need_more
        → decode_frame w'.rx_buffer ≡ Decoded.need_more
    fed_rest w buf out w' out' q e = let same : buf ≡ w'.rx_buffer = ground arith in rw (← same) e

-- A call of `feed` that does not throw takes every complete frame out of the buffer: what it keeps
-- is the beginning of a frame that needs more bytes.
pub feed-need_more :
    (w : WebSocket) (bytes : List ℕ) (w' : WebSocket) (out : List Message)
    → feed w bytes ≡ Fed.fed w' out
    → decode_frame w'.rx_buffer ≡ Decoded.need_more
unfolding feed
feed-need_more w bytes w' out r =
    let whole = w.rx_buffer ++ bytes in
    drain-need_more (suc (length whole)) (record w { rx_buffer = whole }) whole [] w' out
      (omega arith) r
