-- ===== src/Network/WebSocket/Payload.antt =====
-- The second half of `ws_decode_frame` in network/websocket.cpp: the mask key and the payload, read
-- from what `ws_encode_frame` writes behind the header.

use mathlib.Core.Path.{ap₂}
use malibu.Common.{
  All, Bool, List, Option, [], ap, arith, drop, drop-length-append, false, if◌then◌else◌, leb,
  length, length-append, ltb, none, refl, some, suc, take-length-append, true, zero, ℕ, ◌%◌, ◌++◌,
  ◌+◌, ◌<◌, ◌^◌, ◌∷◌, ◌≡◌, ◌≤◌,
}
use malibu.Network.WebSocket.{
  size_mod, mask_from, byte_at, FrameType, Decoded, masked_payload, read_rest, read_mask,
  read_payload,
}
use malibu.Network.WebSocket.Bits.{bit_xor_twice}

abbrev pub AreBytes : List ℕ → Type 0
AreBytes = All (λ b. b < 256)

byte_at-lt : (bs : List ℕ) (i : ℕ) → AreBytes bs → byte_at bs i < 256
byte_at-lt [] i h = omega arith
byte_at-lt (b ∷ bs) zero h = h.0
byte_at-lt (b ∷ bs) (suc i) h = byte_at-lt bs i h.1

-- Masking is undone by masking again.
pub mask_from-mask_from :
    (i : ℕ) (mask bs : List ℕ)
    → AreBytes mask
    → AreBytes bs
    → mask_from i mask (mask_from i mask bs) ≡ bs
unfolding mask_from
mask_from-mask_from i mask [] m h = refl
mask_from-mask_from i mask (b ∷ bs) m h =
    ap₂ (◌∷◌) (bit_xor_twice b (byte_at mask (i % 4)) h.0 (byte_at-lt mask (i % 4) m))
      (mask_from-mask_from (i + 1) mask bs m h.1)

length-mask_from : (i : ℕ) (mask bs : List ℕ) → length (mask_from i mask bs) ≡ length bs
unfolding mask_from
length-mask_from i mask [] = refl
length-mask_from i mask (b ∷ bs) = ap suc (length-mask_from (i + 1) mask bs)

drop-add_four {ℓ} :
    {A : Type ℓ} (n : ℕ) (xs : List A) (a b c d : A) (ys : List A)
    → drop n xs ≡ a ∷ b ∷ c ∷ d ∷ ys
    → drop (n + 4) xs ≡ ys
drop-add_four zero xs a b c d ys h = rw h
drop-add_four (suc n) [] a b c d ys h = absurd (ground arith)
drop-add_four (suc n) (x ∷ xs) a b c d ys h =
    let e : suc n + 4 ≡ suc (n + 4) = omega arith in rw e (drop-add_four n xs a b c d ys h)

-- The header of an encoded frame: its two bytes, then the extended length.
abbrev pub Key : Type 0
Key = Option (ℕ × ℕ × ℕ × ℕ)

abbrev pub key_bytes : Key → Option (List ℕ)
key_bytes none = none
key_bytes (some (a, b, c, d)) = some (a ∷ b ∷ c ∷ d ∷ [])

abbrev pub has_key : Key → Bool
has_key none = false
has_key (some k) = true

abbrev pub AreKeyBytes : Key → Type 0
AreKeyBytes none = Unit
AreKeyBytes (some (a, b, c, d)) = AreBytes (a ∷ b ∷ c ∷ d ∷ [])

-- The copy loop behind a header of `pos` bytes.
payload_lem :
    (fin masked : Bool) (type : FrameType) (mask buf pay rest : List ℕ) (pos : ℕ)
    → drop pos buf ≡ pay ++ rest
    → length buf ≡ pos + length pay + length rest
    → pos ≤ 14
    → length pay < 2 ^ 63
    → read_payload fin masked type (length pay) (mask, pos) buf
      ≡ Decoded.ok
          (record {
            type = type;
            fin = fin;
            masked = masked;
            payload = if masked then mask_from 0 mask pay else pay;
          })
          (pos + length pay)
unfolding read_payload
payload_lem fin masked type mask buf pay rest pos d l p b =
    let wrap : (pos + length pay) % size_mod ≡ pos + length pay = omega arith in
    let enough : ltb (length buf) (pos + length pay) ≡ false = ground arith in
    let small : leb (2 ^ 63) (length pay) ≡ false = ground arith in
    rw (wrap, enough, small, d, take-length-append pay rest)

-- The key that stands behind a header of `pos` bytes.
read_mask_lem :
    (k0 k1 k2 k3 : ℕ) (pos : ℕ) (buf rest : List ℕ)
    → drop pos buf ≡ k0 ∷ k1 ∷ k2 ∷ k3 ∷ rest
    → pos + 4 ≤ length buf
    → read_mask true pos buf ≡ some (k0 ∷ k1 ∷ k2 ∷ k3 ∷ [], pos + 4)
unfolding read_mask
read_mask_lem k0 k1 k2 k3 pos buf rest d l =
    let enough : ltb (length buf) (pos + 4) ≡ false = ground arith in rw (enough, d)

-- The same with a key.
keyed_lem :
    (fin : Bool) (type : FrameType) (k0 k1 k2 k3 : ℕ) (bytes rest head : List ℕ) (pos : ℕ)
    → length head ≡ pos
    → pos ≤ 10
    → length bytes < 2 ^ 63
    → AreBytes bytes
    → AreBytes (k0 ∷ k1 ∷ k2 ∷ k3 ∷ [])
    → read_rest fin true type
        (some (length bytes, pos))
        (head ++ (k0 ∷ k1 ∷ k2 ∷ k3 ∷ (mask_from 0 (k0 ∷ k1 ∷ k2 ∷ k3 ∷ []) bytes ++ rest)))
      ≡ Decoded.ok
          (record { type = type; fin = fin; masked = true; payload = bytes })
          (pos + suc (suc (suc (suc (length (mask_from 0 (k0 ∷ k1 ∷ k2 ∷ k3 ∷ []) bytes))))))
keyed_lem fin type k0 k1 k2 k3 bytes rest head pos e p b hb hk =
    let mask : List ℕ = k0 ∷ k1 ∷ k2 ∷ k3 ∷ [] in
    let sent = mask_from 0 mask bytes in
    let len = length-mask_from 0 mask bytes in
    let tail = k0 ∷ k1 ∷ k2 ∷ k3 ∷ (sent ++ rest) in
    let buf = head ++ tail in
    let d : drop pos buf ≡ tail = rw (← e) (drop-length-append head tail) in
    let l : length buf ≡ pos + 4 + length sent + length rest =
      omega (arith, length-append head tail, length-append sent rest) in
    let key = read_mask_lem k0 k1 k2 k3 pos buf (sent ++ rest) d (omega arith) in
    let body =
      payload_lem fin true type mask buf sent rest (pos + 4)
        (drop-add_four pos buf k0 k1 k2 k3 (sent ++ rest) d) l (omega arith) (omega arith) in
    let size : pos + 4 + length sent ≡ pos + suc (suc (suc (suc (length sent)))) = omega arith in
    rw (key, read_rest, ← len, body, mask_from-mask_from 0 mask bytes hk hb)
      (ap (Decoded.ok (record { type = type; fin = fin; masked = true; payload = bytes })) size)

-- The second half of the decoder, behind a header of `pos` bytes.
pub rest_lem :
    (fin : Bool) (type : FrameType) (key : Key) (bytes rest head : List ℕ) (pos : ℕ)
    → length head ≡ pos
    → pos ≤ 10
    → length bytes < 2 ^ 63
    → AreBytes bytes
    → AreKeyBytes key
    → read_rest fin
        (has_key key)
        type
        (some (length bytes, pos))
        (head ++ (masked_payload (key_bytes key) bytes ++ rest))
      ≡ Decoded.ok
          (record { type = type; fin = fin; masked = has_key key; payload = bytes })
          (pos + length (masked_payload (key_bytes key) bytes))
unfolding read_mask
rest_lem fin type none bytes rest head pos e p b hb hk =
    payload_lem fin false type _ (head ++ (bytes ++ rest)) bytes rest pos
      (rw (← e) (drop-length-append head (bytes ++ rest)))
      (omega (arith, length-append head (bytes ++ rest), length-append bytes rest)) (omega arith) b
rest_lem fin type (some (k0, k1, k2, k3)) bytes rest head pos e p b hb hk =
    keyed_lem fin type k0 k1 k2 k3 bytes rest head pos e p b hb hk
