-- ===== src/Network/WebSocket.antt =====
-- core/include/malibu/network/websocket.h and network/websocket.cpp: the frame codec and the
-- framing state machine.
--
-- A byte is a number below 256 and a buffer a list of bytes. `x >> k` is `x / 2 ^ k`, a cast to
-- `uint8_t` is `% 256`, and `(x << 8) | b` is `x * 256 + b`, since the low byte of `x << 8` is zero.
-- `size_t` and `uint64_t` wrap at 2 ^ 64. A payload of 2 ^ 63 bytes or more is more than a vector
-- can hold, and `resize` throws. The handshake hash is OpenSSL's and is left out.
pub mod Bits
pub mod Payload
pub mod Codec
pub mod Prefix
pub mod Stream
pub mod Chunks
pub mod Fragments
pub mod Overflow
use Prim.Native.Nat.{bit_and, bit_or, bit_xor}
use malibu.Common.{
  ==_iff, All, All-append, All-imp, Bool, Bool-cases, List, Option, Option-cases, [], ap, arith,
  drop, drop-length-append, exists, false, get_elem?, get_elem?-append_left,
  get_elem?-append_length, get_elem?-lt, get_elem?-set_ne, get_elem?-set_self, get_elem?_lem,
  get_or, if◌then◌else◌, inl, inr, is_empty, keep, leb, leb→le, length, length-append, length-drop,
  length-keep-le, length-set, ltb, ltb→lt, lt→ltb, map, none, not, refl, set, set-append_length,
  set-get_elem?, set-set, some, subst, suc, sym, take, take-length-append, tests, true, zero, ℕ,
  ◌%◌, ◌&&◌, ◌*◌, ◌++◌, ◌+◌, ◌-◌, ◌/◌, ◌<◌, ◌==◌, ◌^◌, ◌||◌, ◌↔◌, ◌∙◌, ◌∷◌, ◌≡◌, ◌≢◌, ◌≤◌, ◌⊎◌,
}

-- `WSFrameType` is the opcode; a received frame may carry any value below 16.
abbrev pub FrameType : Type 0
FrameType = ℕ

abbrev pub continuation : FrameType
continuation = 0

abbrev pub text : FrameType
text = 1

abbrev pub binary : FrameType
binary = 2

abbrev pub close : FrameType
close = 8

abbrev pub ping : FrameType
ping = 9

abbrev pub pong : FrameType
pong = 10

pub record Frame : Type 0 where
  pub type : FrameType
  pub fin : Bool
  pub masked : Bool
  pub payload : List ℕ

pub data Decoded : Type 0 where
  ok : Frame → ℕ → Decoded
  need_more : Decoded
  length_error : Decoded

abbrev pub byte_at : List ℕ → ℕ → ℕ
byte_at buf i = get_or buf i 0

abbrev pub size_mod : ℕ
size_mod = 2 ^ 64

-- `data[i] ^ mask[i % 4]` from position `i` on.
unfoldable pub mask_from : ℕ → List ℕ → List ℕ → List ℕ
mask_from i mask [] = []
mask_from i mask (b ∷ bs) = bit_xor b (byte_at mask (i % 4)) ∷ mask_from (i + 1) mask bs

-- The eight bytes of a number, highest first: the loop from `i` to 0 over `(len >> (i * 8)) & 0xFF`.
unfoldable pub big_endian : ℕ → ℕ → List ℕ
big_endian zero n = []
big_endian (suc i) n = n / 2 ^ (i * 8) % 256 ∷ big_endian i n

-- `payload_len = (payload_len << 8) | buf[2 + i]`.
unfoldable pub read_big_endian : ℕ → List ℕ → ℕ
read_big_endian acc [] = acc
read_big_endian acc (b ∷ bs) = read_big_endian (acc * 256 % size_mod + b) bs

abbrev pub length_bytes : ℕ → ℕ → List ℕ
length_bytes mask_bit len =
    if ltb len 126
    then bit_or mask_bit len % 256 ∷ []
    else if leb len 0xFFFF
    then bit_or mask_bit 126 % 256 ∷ len / 2 ^ 8 % 256 ∷ len % 256 ∷ []
    else bit_or mask_bit 127 % 256 ∷ big_endian 8 len

abbrev pub mask_bit_of : Option (List ℕ) → ℕ
mask_bit_of none = 0
mask_bit_of (some mask) = 0x80

abbrev pub masked_payload : Option (List ℕ) → List ℕ → List ℕ
masked_payload none bytes = bytes
masked_payload (some mask) bytes = mask ++ mask_from 0 mask bytes

unfoldable pub encode_frame : FrameType → List ℕ → Bool → Option (List ℕ) → List ℕ
encode_frame type bytes fin mask =
    bit_or (if fin then 0x80 else 0) (bit_and type 0x0F)
    ∷ (length_bytes (mask_bit_of mask) (length bytes) ++ masked_payload mask bytes)

-- The payload length and the position behind it, or `none` for `NeedMore`.
unfoldable pub read_length : ℕ → List ℕ → Option (ℕ × ℕ)
read_length n buf =
    if n == 126
    then if ltb (length buf) 4 then none else some (byte_at buf 2 * 256 + byte_at buf 3, 4)
    else if n == 127
    then if ltb (length buf) 10 then none else some (read_big_endian 0 (take 8 (drop 2 buf)), 10)
    else some (n, 2)

-- The mask key and the position behind it.
unfoldable pub read_mask : Bool → ℕ → List ℕ → Option (List ℕ × ℕ)
read_mask masked pos buf =
    if masked
    then if ltb (length buf) (pos + 4) then none else some (take 4 (drop pos buf), pos + 4)
    else some (0 ∷ 0 ∷ 0 ∷ 0 ∷ [], pos)

-- `len < pos + payload_len` in 64 bits, then `resize` and the copy loop.
unfoldable pub read_payload : Bool → Bool → FrameType → ℕ → List ℕ × ℕ → List ℕ → Decoded
read_payload fin masked type n (mask, pos) buf =
    if ltb (length buf) ((pos + n) % size_mod)
    then need_more
    else if leb (2 ^ 63) n
    then length_error
    else ok
        (record {
          type = type;
          fin = fin;
          masked = masked;
          payload =
              if masked then mask_from 0 mask (take n (drop pos buf)) else take n (drop pos buf);
        })
        ((pos + n) % size_mod)

abbrev pub read_rest : Bool → Bool → FrameType → Option (ℕ × ℕ) → List ℕ → Decoded
read_rest fin masked type none buf = need_more
read_rest fin masked type (some (n, pos)) buf = elim (read_mask masked pos buf) [
  | none ↦ need_more
  | some key ↦ read_payload fin masked type n key buf
]

abbrev pub has_bit : ℕ → ℕ → Bool
has_bit b m = not (bit_and b m == 0)

unfoldable pub decode_frame : List ℕ → Decoded
unfolding read_length read_mask read_payload
decode_frame buf =
    if ltb (length buf) 2
    then need_more
    else read_rest (has_bit (byte_at buf 0) 0x80) (has_bit (byte_at buf 1) 0x80)
        (bit_and (byte_at buf 0) 0x0F) (read_length (bit_and (byte_at buf 1) 0x7F) buf) buf

pub record Message : Type 0 where
  pub type : FrameType
  pub bytes : List ℕ

pub record WebSocket : Type 0 where
  pub rx_buffer : List ℕ
  pub fragmenting : Bool
  pub frag_type : FrameType
  pub frag_data : List ℕ
  pub mask_counter : ℕ

abbrev pub new_socket : WebSocket
new_socket = record {
  rx_buffer = [];
  fragmenting = false;
  frag_type = text;
  frag_data = [];
  mask_counter = 0x12345678;
}

-- One step of the masking key's counter, and `k` bytes of the key with the counter behind them.
abbrev pub next_counter : ℕ → ℕ
next_counter c = (c * 6364136223846793005 + 1442695040888963407) % size_mod

unfoldable pub put_mask : ℕ → ℕ → List ℕ × ℕ
put_mask zero counter = ([], counter)
put_mask (suc k) counter =
    let c = next_counter counter in let (key, last) = put_mask k c in (c / 2 ^ 33 % 256 ∷ key, last)

-- The shape that the five outgoing frames share: a final frame, with a new key if `mask` is set.
unfoldable pub send_frame : WebSocket → FrameType → List ℕ → Bool → WebSocket × List ℕ
unfolding put_mask encode_frame
send_frame w type bytes mask =
    if mask
    then (let (key, counter) = put_mask 4 w.mask_counter in
        (record w { mask_counter = counter }, encode_frame type bytes true (some key)))
    else (w, encode_frame type bytes true none)

unfoldable pub text_frame : WebSocket → List ℕ → Bool → WebSocket × List ℕ
unfolding send_frame
text_frame w bytes mask = send_frame w text bytes mask

unfoldable pub binary_frame : WebSocket → List ℕ → Bool → WebSocket × List ℕ
unfolding send_frame
binary_frame w bytes mask = send_frame w binary bytes mask

unfoldable pub ping_frame : WebSocket → List ℕ → Bool → WebSocket × List ℕ
unfolding send_frame
ping_frame w bytes mask = send_frame w ping bytes mask

unfoldable pub pong_frame : WebSocket → List ℕ → Bool → WebSocket × List ℕ
unfolding send_frame
pong_frame w bytes mask = send_frame w pong bytes mask

unfoldable pub close_frame : WebSocket → ℕ → List ℕ → Bool → WebSocket × List ℕ
unfolding send_frame
close_frame w code reason mask = send_frame w close (code / 2 ^ 8 % 256 ∷ code % 256 ∷ reason) mask

abbrev pub is_control : FrameType → Bool
is_control type = (type == 8) || ((type == 9) || (type == 10))

-- What one decoded frame adds to the message that is being put together.
unfoldable pub gather : WebSocket → Frame → WebSocket
gather w f =
    if f.type == 0
    then record w { frag_data = w.frag_data ++ f.payload }
    else record w { frag_type = f.type; frag_data = f.payload; fragmenting = true }

-- The body of the loop of `feed`: the state, and the messages that the frame completes.
unfoldable pub absorb : WebSocket → Frame → WebSocket × List Message
unfolding gather
absorb w f =
    if is_control f.type
    then (w, record { type = f.type; bytes = f.payload } ∷ [])
    else if f.fin && (gather w f).fragmenting
    then (
      record (gather w f) { fragmenting = false; frag_data = [] },
      record { type = (gather w f).frag_type; bytes = (gather w f).frag_data } ∷ [],
    )
    else (gather w f, [])

pub data Fed : Type 0 where
  fed : WebSocket → List Message → Fed
  thrown : WebSocket → Fed

-- The loop of `feed` over the bytes behind `offset`, on fuel; the bytes left at the end are what
-- `erase` keeps. A frame takes two bytes at least, so the number of bytes is fuel enough. When
-- `resize` throws, the buffer stays whole.
unfoldable pub drain : ℕ → WebSocket → List ℕ → List Message → Fed
drain zero w buf out = Fed.fed (record w { rx_buffer = buf }) out
drain (suc fuel) w buf out = elim (decode_frame buf) [
  | ok f n ↦ drain fuel (absorb w f).0 (drop n buf) (out ++ (absorb w f).1)
  | need_more ↦ Fed.fed (record w { rx_buffer = buf }) out
  | length_error ↦ Fed.thrown w
]

unfoldable pub feed : WebSocket → List ℕ → Fed
feed w bytes =
    let whole = w.rx_buffer ++ bytes in
    drain (suc (length whole)) (record w { rx_buffer = whole }) whole []
