-- ===== src/Network/WebSocket/Codec.antt =====
-- `ws_decode_frame` of network/websocket.cpp undoes `ws_encode_frame`, whatever bytes follow.
use Prim.Native.Nat.{bit_and, bit_or}
use mathlib.Core.List.{append_assoc}
use malibu.Common.{
  Bool, Bool-cases, List, [], ap, arith, false, if◌then◌else◌, inl, inr, leb, length, length-append,
  ltb, none, refl, some, suc, ℕ, ◌%◌, ◌*◌, ◌++◌, ◌+◌, ◌/◌, ◌<◌, ◌==◌, ◌^◌, ◌∙◌, ◌∷◌, ◌≡◌, ◌≤◌, ◌⊎◌,
}
use malibu.Network.WebSocket.{
  has_bit, big_endian, size_mod, FrameType, Frame, Decoded, encode_frame, decode_frame, mask_bit_of,
  masked_payload, read_rest, read_length,
}
use malibu.Network.WebSocket.Bits.{
  first_byte_fields, second_byte_fields, read_big_endian-big_endian,
}
use malibu.Network.WebSocket.Payload.{AreBytes, Key, key_bytes, has_key, AreKeyBytes, rest_lem}

-- A buffer of two bytes and more is read by the fields of its first two bytes.
pub header_lem :
    (b0 b1 n : ℕ) (tail : List ℕ) (fin masked : Bool) (type : FrameType)
    → has_bit b0 0x80 ≡ fin
    → bit_and b0 0x0F ≡ type
    → has_bit b1 0x80 ≡ masked
    → bit_and b1 0x7F ≡ n
    → decode_frame (b0 ∷ b1 ∷ tail)
      ≡ read_rest fin masked type (read_length n (b0 ∷ b1 ∷ tail)) (b0 ∷ b1 ∷ tail)
unfolding decode_frame
header_lem b0 b1 n tail fin masked type f t m l =
    let enough : ltb (length (b0 ∷ b1 ∷ tail)) 2 ≡ false = ground arith in rw (enough, f, t, m, l)

mask_bit_cases :
    (key : Key)
    → ((mask_bit_of (key_bytes key) ≡ 0) ⊎ (mask_bit_of (key_bytes key) ≡ 0x80))
      × ((mask_bit_of (key_bytes key) == 0x80) ≡ has_key key)
mask_bit_cases none = (inl refl, refl)
mask_bit_cases (some k) = (inr refl, refl)

-- The length field, behind its seven bits.
read_length_short : (n : ℕ) (buf : List ℕ) → n < 126 → read_length n buf ≡ some (n, 2)
unfolding read_length
read_length_short n buf h = ground arith

read_length_medium :
    (b0 b1 n : ℕ) (tail : List ℕ)
    → n < 65536
    → read_length 126 (b0 ∷ b1 ∷ n / 2 ^ 8 % 256 ∷ n % 256 ∷ tail) ≡ some (n, 4)
unfolding read_length
read_length_medium b0 b1 n tail h =
    let enough : ltb (length (b0 ∷ b1 ∷ n / 2 ^ 8 % 256 ∷ n % 256 ∷ tail)) 4 ≡ false =
      ground arith in
    let whole : n / 2 ^ 8 % 256 * 256 + n % 256 ≡ n = omega arith in rw (enough, whole)

pub read_length_long :
    (b0 b1 n : ℕ) (tail : List ℕ)
    → n < size_mod
    → read_length 127 (b0 ∷ b1 ∷ (big_endian 8 n ++ tail)) ≡ some (n, 10)
unfolding read_length big_endian
read_length_long b0 b1 n tail h =
    let enough : ltb (length (b0 ∷ b1 ∷ (big_endian 8 n ++ tail))) 10 ≡ false = ground arith in
    rw (enough, read_big_endian-big_endian n h)

length-big_endian : (n : ℕ) → length (big_endian 8 n) ≡ 8
unfolding big_endian
length-big_endian n = refl

-- A frame behind its two bytes and an extended length `ext`.
framed :
    (type : FrameType) (bytes : List ℕ) (fin : Bool) (key : Key) (rest ext : List ℕ) (seven pos : ℕ)
    → type < 16
    → length bytes < 2 ^ 63
    → AreBytes bytes
    → AreKeyBytes key
    → seven < 128
    → length ext + 2 ≡ pos
    → pos ≤ 10
    → ((b0 b1 : ℕ) (tail : List ℕ)
        → read_length seven (b0 ∷ b1 ∷ (ext ++ tail)) ≡ some (length bytes, pos))
    → decode_frame (
        bit_or (if fin then 0x80 else 0) (bit_and type 0x0F)
        ∷ bit_or (mask_bit_of (key_bytes key)) seven % 256
        ∷ ((ext ++ masked_payload (key_bytes key) bytes) ++ rest))
      ≡ Decoded.ok
          (record { type = type; fin = fin; masked = has_key key; payload = bytes })
          (suc (suc (length (ext ++ masked_payload (key_bytes key) bytes))))
framed type bytes fin key rest ext seven pos ht hl hb hk h7 hp h10 read =
    let first = first_byte_fields fin type ht in
    let m = mask_bit_of (key_bytes key) in
    let body = masked_payload (key_bytes key) bytes in
    let b0 = bit_or (if fin then 0x80 else 0) (bit_and type 0x0F) in
    let b1 = bit_or m seven % 256 in
    let (bit, flag) = mask_bit_cases key in
    let second = second_byte_fields m seven bit h7 in
    let frame : Frame = record { type = type; fin = fin; masked = has_key key; payload = bytes } in
    let size : pos + length body ≡ suc (suc (length (ext ++ body))) =
      omega (arith, length-append ext body) in
    rw
      (
        append_assoc {A = ℕ} ext body rest,
        header_lem b0 b1 seven (ext ++ (body ++ rest)) fin (has_key key) type first.0 first.1
            (second.0 ∙ flag) second.1,
        read b0 b1 (body ++ rest),
      )
      (rest_lem fin type key bytes rest (b0 ∷ b1 ∷ ext) pos (omega arith) h10 hl hb hk
        ∙ ap (Decoded.ok frame) size)

-- Decoding an encoded frame gives the frame back and consumes exactly its bytes, whatever bytes
-- stand behind it: for every opcode, with and without the final bit and a mask key, and on each of
-- the three forms of the length, if the payload is shorter than 2 ^ 63.
pub decode_frame-encode_frame :
    (type : FrameType) (bytes : List ℕ) (fin : Bool) (key : Key) (rest : List ℕ)
    → type < 16
    → length bytes < 2 ^ 63
    → AreBytes bytes
    → AreKeyBytes key
    → decode_frame (encode_frame type bytes fin (key_bytes key) ++ rest)
      ≡ Decoded.ok
          (record { type = type; fin = fin; masked = has_key key; payload = bytes })
          (length (encode_frame type bytes fin (key_bytes key)))
unfolding encode_frame
decode_frame-encode_frame type bytes fin key rest ht hl hb hk =
    let n = length bytes in
    elim (Bool-cases (ltb n 126)) [
      | inl short ↦ rw short (
          framed type bytes fin key rest [] n 2 ht hl hb hk (ground arith) refl (omega arith)
            (λ b0 b1 tail. read_length_short n (b0 ∷ b1 ∷ tail) (ground arith)))
      | inr long ↦ elim (Bool-cases (leb n 0xFFFF)) [
        | inl medium ↦
            rw (long, medium)
              (framed type bytes fin key rest (n / 2 ^ 8 % 256 ∷ n % 256 ∷ []) 126 4 ht hl hb hk
                (omega arith) (omega arith) (omega arith)
                (λ b0 b1 tail. read_length_medium b0 b1 n tail (ground arith)))
        | inr big ↦
            rw (long, big)
              (framed type bytes fin key rest (big_endian 8 n) 127 10 ht hl hb hk (omega arith)
                (omega (arith, length-big_endian n)) (omega arith)
                (λ b0 b1 tail. read_length_long b0 b1 n tail (omega arith)))
      ]
    ]
