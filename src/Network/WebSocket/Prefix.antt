-- ===== src/Network/WebSocket/Prefix.antt =====
-- `ws_decode_frame` of network/websocket.cpp on a growing buffer.
use Prim.Native.Nat.{bit_and}
use malibu.Common.{
  Bool, Bool-cases, List, Option, Option-cases, [], ap, arith, drop, false, inl, inr, length,
  length-append, length-drop, ltb, none, refl, some, suc, sym, take, zero, ℕ, ◌++◌, ◌+◌, ◌<◌, ◌∙◌,
  ◌∷◌, ◌≡◌, ◌≤◌,
}
use malibu.Network.WebSocket.{
  byte_at, FrameType, Frame, Decoded, decode_frame, read_rest, read_length, read_mask, read_payload,
}

byte_at-append : (xs ys : List ℕ) (i : ℕ) → i < length xs → byte_at (xs ++ ys) i ≡ byte_at xs i
byte_at-append [] ys i h = elim h [ ]
byte_at-append (x ∷ xs) ys zero h = refl
byte_at-append (x ∷ xs) ys (suc i) h = byte_at-append xs ys i (omega arith)

take-append {ℓ} :
    {A : Type ℓ} (n : ℕ) (xs ys : List A) → n ≤ length xs → take n (xs ++ ys) ≡ take n xs
take-append zero xs ys h = refl
take-append (suc n) [] ys h = absurd (omega arith)
take-append (suc n) (x ∷ xs) ys h = ap (◌∷◌ x) (take-append n xs ys (omega arith))

pub drop-append {ℓ} :
    {A : Type ℓ} (n : ℕ) (xs ys : List A) → n ≤ length xs → drop n (xs ++ ys) ≡ drop n xs ++ ys
drop-append zero xs ys h = refl
drop-append (suc n) [] ys h = absurd (omega arith)
drop-append (suc n) (x ∷ xs) ys h = drop-append n xs ys (omega arith)

take-drop-append {ℓ} :
    {A : Type ℓ} (n p : ℕ) (xs ys : List A)
    → p + n ≤ length xs
    → take n (drop p (xs ++ ys)) ≡ take n (drop p xs)
take-drop-append n p xs ys h =
    rw (drop-append p xs ys (omega arith))
      (take-append n (drop p xs) ys (omega (arith, length-drop p xs)))

module _ (buf more : List ℕ) where
  -- Each stage reads the same from a longer buffer, once it reads at all, and stays inside.
  grow_length :
      (n l pos : ℕ)
      → read_length n buf ≡ some (l, pos)
      → (read_length n (buf ++ more) ≡ some (l, pos)) × (2 ≤ pos) × (pos ≤ 10)
  unfolding read_length
  grow_length n l pos e = ground (
    arith,
    length-append buf more,
    byte_at-append buf more 2,
    byte_at-append buf more 3,
    take-drop-append 8 2 buf more,
  )

  grow_mask :
      (masked : Bool) (pos pos' : ℕ) (key : List ℕ)
      → read_mask masked pos buf ≡ some (key, pos')
      → (read_mask masked pos (buf ++ more) ≡ some (key, pos')) × (pos ≤ pos') × (pos' ≤ pos + 4)
  unfolding read_mask
  grow_mask masked pos pos' key e =
      ground (arith, length-append buf more, take-drop-append 4 pos buf more)

  grow_payload :
      (fin masked : Bool) (type : FrameType) (n pos : ℕ) (key : List ℕ) (f : Frame) (used : ℕ)
      → pos ≤ 14
      → read_payload fin masked type n (key, pos) buf ≡ Decoded.ok f used
      → (read_payload fin masked type n (key, pos) (buf ++ more) ≡ Decoded.ok f used)
        × (pos ≤ used)
        × (used ≤ length buf)
  unfolding read_payload
  grow_payload fin masked type n pos key f used p e =
      ground (arith, length-append buf more, take-drop-append n pos buf more)

  grow_rest :
      (fin masked : Bool) (type : FrameType) (o : Option (ℕ × ℕ)) (f : Frame) (used : ℕ)
      → ((n pos : ℕ) → o ≡ some (n, pos) → (2 ≤ pos) × (pos ≤ 10))
      → read_rest fin masked type o buf ≡ Decoded.ok f used
      → (read_rest fin masked type o (buf ++ more) ≡ Decoded.ok f used)
        × (2 ≤ used)
        × (used ≤ length buf)
  grow_rest fin masked type none f used h e = absurd (ground arith)
  grow_rest fin masked type (some (n, pos)) f used h e =
      elim (Option-cases (read_mask masked pos buf)) [
        | inl m ↦ absurd (ground arith)
        | inr (k, m) ↦
            let (m', lo, hi) = grow_mask masked pos k.1 k.0 m in
            let (lo2, hi2) = h n pos refl in
            let e2 : read_payload fin masked type n k buf ≡ Decoded.ok f used =
              rw (m, read_rest) at e in
            let (p, a, b) = grow_payload fin masked type n k.1 k.0 f used (omega arith) e2 in
            (rw (m', read_rest) p, omega arith, b)
      ]

  -- A frame that decodes goes on decoding to the same frame and the same number of bytes, whatever
  -- is appended; it takes at least two bytes and no more than there are. So the decoder never reads
  -- past the buffer, and a frame is never completed differently by later bytes.
  pub decode_frame-append :
      (f : Frame) (used : ℕ)
      → decode_frame buf ≡ Decoded.ok f used
      → (decode_frame (buf ++ more) ≡ Decoded.ok f used) × (2 ≤ used) × (used ≤ length buf)
  unfolding decode_frame
  decode_frame-append f used e = elim (Bool-cases (ltb (length buf) 2)) [
    | inl short ↦ absurd (ground arith)
    | inr long ↦
        let long' : ltb (length (buf ++ more)) 2 ≡ false = ground (arith, length-append buf more) in
        let b0 = byte_at-append buf more 0 (ground arith) in
        let b1 = byte_at-append buf more 1 (ground arith) in
        let e1 = rw long at e in
        elim (Option-cases (read_length (bit_and (byte_at buf 1) 0x7F) buf)) [
          | inl none_read ↦ absurd (cc (rw (none_read, read_rest) at e1))
          | inr (o, some_read) ↦
              let (l, lo, hi) = grow_length (bit_and (byte_at buf 1) 0x7F) o.0 o.1 some_read in
              let bound : (n pos : ℕ)
                  → read_length (bit_and (byte_at buf 1) 0x7F) buf ≡ some (n, pos)
                  → (2 ≤ pos) × (pos ≤ 10) =
                λ n pos q.
                  let g = grow_length (bit_and (byte_at buf 1) 0x7F) n pos q in (g.1, g.2) in
              let r = grow_rest _ _ _ _ f used bound e1 in
              (rw (long', b0, b1, l ∙ sym some_read) r.0, r.1, r.2)
        ]
  ]
