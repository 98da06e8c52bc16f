-- ===== src/Network/WebSocket/Chunks.antt =====
-- `WebSocket::feed` of network/websocket.cpp does not depend on how the stream is cut into calls.
use mathlib.Core.List.{append_assoc, append-nil}
use malibu.Common.{
  List, [], arith, drop, inl, inr, length, length-append, length-drop, subst, suc, sym, zero, ℕ,
  ◌++◌, ◌<◌, ◌∙◌, ◌≡◌,
}
use malibu.Network.WebSocket.{Frame, decode_frame, WebSocket, Message, absorb, drain, feed, Fed}
use malibu.Network.WebSocket.Prefix.{decode_frame-append, drop-append}
use malibu.Network.WebSocket.Stream.{drain_ok, drain_more, drain_error, drain-fuel, Decoded-cases}

-- The loop does not look at the old buffer or at the messages before it.
absorb_buffer :
    (w : WebSocket) (f : Frame) (x : List ℕ)
    → (absorb (record w { rx_buffer = x }) f).0 ≡ record (absorb w f).0 { rx_buffer = x }
unfolding absorb
absorb_buffer w f x = ground arith

absorb_buffer_messages :
    (w : WebSocket) (f : Frame) (x : List ℕ)
    → (absorb (record w { rx_buffer = x }) f).1 ≡ (absorb w f).1
unfolding absorb
absorb_buffer_messages w f x = ground arith

absorb_rx : (w : WebSocket) (f : Frame) → (absorb w f).0.rx_buffer ≡ w.rx_buffer
unfolding absorb
absorb_rx w f = ground arith

drain_frame :
    (fuel : ℕ) (w : WebSocket) (buf x : List ℕ) (before out : List Message) (w' : WebSocket)
    (out' : List Message)
    → length buf < fuel
    → drain fuel w buf out ≡ Fed.fed w' out'
    → drain fuel (record w { rx_buffer = x }) buf (before ++ out) ≡ Fed.fed w' (before ++ out')
drain_frame zero w buf x before out w' out' h r = absurd (omega arith)
drain_frame (suc fuel) w buf x before out w' out' h r = elim (Decoded-cases (decode_frame buf)) [
  | inl (f, n, e) ↦
      let (_, lo, hi) = decode_frame-append buf [] f n e in
      let ih =
        drain_frame fuel (absorb w f).0 (drop n buf) x before (out ++ (absorb w f).1) w' out'
          (omega (arith, length-drop n buf)) (sym (drain_ok fuel w buf out f n e) ∙ r) in
      rw
        (
          drain_ok fuel (record w { rx_buffer = x }) buf (before ++ out) f n e,
          absorb_buffer w f x,
          absorb_buffer_messages w f x,
          append_assoc before out (absorb w f).1,
        )
        ih
  | inr (inl e) ↦
      let r' = sym (drain_more fuel w buf out e) ∙ r in
      rw (drain_more fuel (record w { rx_buffer = x }) buf (before ++ out) e) (ground arith)
  | inr (inr e) ↦ absurd (cc (sym (drain_error fuel w buf out e) ∙ r))
]

-- Draining a buffer and then its rest with more bytes is draining the longer buffer.
drain_split :
    (fuel : ℕ) (w : WebSocket) (buf more : List ℕ) (out : List Message) (w' : WebSocket)
    (out' : List Message) (r : Fed)
    → length buf < fuel
    → drain fuel w buf out ≡ Fed.fed w' out'
    → ((fuel2 : ℕ)
        → length (w'.rx_buffer ++ more) < fuel2
        → drain fuel2 (record w' { rx_buffer = w.rx_buffer }) (w'.rx_buffer ++ more) out' ≡ r)
    → (fuel2 : ℕ) → length (buf ++ more) < fuel2
    → drain fuel2 w (buf ++ more) out ≡ r
drain_split zero w buf more out w' out' r h d k fuel2 h2 = absurd (omega arith)
drain_split (suc fuel) w buf more out w' out' r h d k zero h2 = absurd (omega arith)
drain_split (suc fuel) w buf more out w' out' r h d k (suc fuel2) h2 =
    elim (Decoded-cases (decode_frame buf)) [
      | inl (f, n, e) ↦
          let (e2, lo, hi) = decode_frame-append buf more f n e in
          rw (drain_ok fuel2 w (buf ++ more) out f n e2, drop-append n buf more hi)
            (drain_split fuel (absorb w f).0 (drop n buf) more (out ++ (absorb w f).1) w' out' r
              (omega (arith, length-drop n buf)) (sym (drain_ok fuel w buf out f n e) ∙ d)
              (rw (absorb_rx w f) k) fuel2
              (omega (
                arith,
                length-drop n buf,
                length-append buf more,
                length-append (drop n buf) more,
              )))
      | inr (inl e) ↦
          stopped w buf more out w' out' r (sym (drain_more fuel w buf out e) ∙ d) k fuel2 h2
      | inr (inr e) ↦ absurd (cc (sym (drain_error fuel w buf out e) ∙ d))
    ]
  where
    stopped :
        (w : WebSocket) (buf more : List ℕ) (out : List Message) (w' : WebSocket)
        (out' : List Message) (r : Fed)
        → Fed.fed (record w { rx_buffer = buf }) out ≡ Fed.fed w' out'
        → ((fuel2 : ℕ)
            → length (w'.rx_buffer ++ more) < fuel2
            → drain fuel2 (record w' { rx_buffer = w.rx_buffer }) (w'.rx_buffer ++ more) out' ≡ r)
        → (fuel2 : ℕ) → length (buf ++ more) < suc fuel2
        → drain (suc fuel2) w (buf ++ more) out ≡ r
    stopped w buf more out w' out' r q k fuel2 h2 =
        let eb : buf ≡ w'.rx_buffer = ground arith in
        let eo : out ≡ out' = ground arith in
        let ew : w ≡ record w' { rx_buffer = w.rx_buffer } = ground arith in
        rw (eb, eo, ew) (k (suc fuel2) (rw (← eb) h2))

-- `feed` does not depend on how the stream is cut: if two calls on consecutive pieces succeed, one
-- call on both pieces leaves the same state and gives the messages of the two calls in order.
pub feed-append :
    (w : WebSocket) (a b : List ℕ) (w1 w2 : WebSocket) (m1 m2 : List Message)
    → feed w a ≡ Fed.fed w1 m1
    → feed w1 b ≡ Fed.fed w2 m2
    → feed w (a ++ b) ≡ Fed.fed w2 (m1 ++ m2)
unfolding feed
feed-append w a b w1 w2 m1 m2 r1 r2 =
    let A = w.rx_buffer ++ a in
    let B = w1.rx_buffer ++ b in
    let first =
      drain_frame (suc (length A)) (record w { rx_buffer = A }) A (A ++ b) [] [] w1 m1 (omega arith)
        r1 in
    let second : (fuel2 : ℕ)
        → length B < fuel2
        → drain fuel2 (record w1 { rx_buffer = A ++ b }) B m1 ≡ Fed.fed w2 (m1 ++ m2) =
      λ fuel2 h.
        subst (λ l. drain fuel2 (record w1 { rx_buffer = A ++ b }) B l ≡ Fed.fed w2 (m1 ++ m2))
          (append-nil m1)
          (drain_frame fuel2 (record w1 { rx_buffer = B }) B (A ++ b) m1 [] w2 m2 h
            (drain-fuel fuel2 (suc (length B)) (record w1 { rx_buffer = B }) B [] h (omega arith)
              ∙ r2)) in
    rw (← append_assoc w.rx_buffer a b) (
      drain_split (suc (length A)) (record w { rx_buffer = A ++ b }) A b [] w1 m1
        (Fed.fed w2 (m1 ++ m2)) (omega arith) first second (suc (length (A ++ b))) (omega arith))
