-- ===== src/Network/WebSocket/Overflow.antt =====
-- The length check of `ws_decode_frame` in network/websocket.cpp at lengths near 2 ^ 64.
use Prim.Native.Nat.{bit_and}
use malibu.Common.{
  Bool, List, arith, false, leb, length, ltb, refl, some, true, ℕ, ◌%◌, ◌++◌, ◌+◌, ◌-◌, ◌<◌, ◌^◌,
  ◌∷◌, ◌≡◌, ◌≤◌,
}
use malibu.Network.WebSocket.{
  has_bit, big_endian, size_mod, Decoded, decode_frame, read_rest, read_mask, read_payload,
}
use malibu.Network.WebSocket.Codec.{header_lem, read_length_long}

unmasked_rest :
    (fin : Bool) (type n : ℕ) (buf : List ℕ)
    → 2 ^ 64 - 10 ≤ n
    → n < 2 ^ 64
    → 10 ≤ length buf
    → read_rest fin false type (some (n, 10)) buf ≡ Decoded.length_error
unfolding read_mask read_payload
unmasked_rest fin type n buf lo hi l =
    let wrapped : ltb (length buf) ((10 + n) % size_mod) ≡ false = ground arith in
    let huge : leb (2 ^ 63) n ≡ true = ground arith in rw (wrapped, huge)

-- An unmasked frame that announces one of the ten largest 64-bit lengths passes the check that its
-- payload has arrived, because `pos + payload_len` wraps, and `resize` throws; a decoder that
-- compared without wrapping would wait for more bytes.
pub decode_frame-length_error :
    (b0 n : ℕ) (rest : List ℕ)
    → 2 ^ 64 - 10 ≤ n
    → n < 2 ^ 64
    → decode_frame (b0 ∷ 127 ∷ (big_endian 8 n ++ rest)) ≡ Decoded.length_error
unfolding big_endian
decode_frame-length_error b0 n rest lo hi =
    rw
      (
        header_lem b0 127 127 (big_endian 8 n ++ rest) (has_bit b0 0x80) false (bit_and b0 0x0F)
            refl refl refl refl,
        read_length_long b0 127 n rest hi,
      )
      (unmasked_rest (has_bit b0 0x80) (bit_and b0 0x0F) n (b0 ∷ 127 ∷ (big_endian 8 n ++ rest)) lo
        hi (omega arith))
