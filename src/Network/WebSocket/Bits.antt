-- ===== src/Network/WebSocket/Bits.antt =====
-- The bits of a frame header and of a masked byte, by tables, and the eight-byte length.
use Prim.Native.Nat.{bit_and, bit_or, bit_xor}
use malibu.Common.{
  ==_iff, Bool, arith, false, if◌then◌else◌, inl, inr, not, refl, suc, true, zero, ℕ, ◌%◌, ◌&&◌,
  ◌*◌, ◌+◌, ◌/◌, ◌<◌, ◌==◌, ◌^◌, ◌≡◌, ◌⊎◌,
}
use malibu.Network.WebSocket.{has_bit, big_endian, read_big_endian, size_mod}

-- Every value of a small range, by evaluation.
all_below : ℕ → (ℕ → Bool) → Bool
all_below zero p = true
all_below (suc n) p = p n && all_below n p

all_below_lem : (n : ℕ) (p : ℕ → Bool) (x : ℕ) → all_below n p ≡ true → x < n → p x ≡ true
unfolding all_below
all_below_lem zero p x h lt = absurd (omega arith)
all_below_lem (suc n) p x h lt = ground (arith, all_below_lem n p x)

same : Bool → Bool → Bool
same true b = b
same false b = not b

same_eq : (a b : Bool) → same a b ≡ true → a ≡ b
unfolding same
same_eq true true h = refl
same_eq true false h = cc
same_eq false true h = cc
same_eq false false h = refl

abbrev first_byte : Bool → ℕ → ℕ
first_byte fin type = bit_or (if fin then 0x80 else 0) (bit_and type 0x0F)

first_ok : Bool → ℕ → Bool
first_ok fin type =
    same (has_bit (first_byte fin type) 0x80) fin && (bit_and (first_byte fin type) 0x0F == type)

first_table_set : all_below 16 (first_ok true) ≡ true
unfolding all_below first_ok same
first_table_set = refl

first_table_clear : all_below 16 (first_ok false) ≡ true
unfolding all_below first_ok same
first_table_clear = refl

first_ok_lem : (fin : Bool) (type : ℕ) → type < 16 → first_ok fin type ≡ true
first_ok_lem true type h = all_below_lem 16 (first_ok true) type first_table_set h
first_ok_lem false type h = all_below_lem 16 (first_ok false) type first_table_clear h

both : (a b : Bool) → (a && b) ≡ true → (a ≡ true) × (b ≡ true)
both a b e = ground arith

-- The first byte carries the final bit and the opcode.
pub first_byte_fields :
    (fin : Bool) (type : ℕ)
    → type < 16
    → (has_bit (bit_or (if fin then 0x80 else 0) (bit_and type 0x0F)) 0x80 ≡ fin)
      × (bit_and (bit_or (if fin then 0x80 else 0) (bit_and type 0x0F)) 0x0F ≡ type)
unfolding first_ok
first_byte_fields fin type h =
    let t = both _ _ (first_ok_lem fin type h) in (same_eq _ _ t.0, (==_iff _ _).0 t.1)

second_ok : ℕ → ℕ → Bool
second_ok m n =
    same (has_bit (bit_or m n % 256) 0x80) (m == 0x80) && (bit_and (bit_or m n % 256) 0x7F == n)

second_table_set : all_below 128 (second_ok 0x80) ≡ true
unfolding all_below second_ok same
second_table_set = refl

second_table_clear : all_below 128 (second_ok 0) ≡ true
unfolding all_below second_ok same
second_table_clear = refl

second_ok_lem : (m n : ℕ) → (m ≡ 0) ⊎ (m ≡ 0x80) → n < 128 → second_ok m n ≡ true
second_ok_lem m n (inl e) h = rw e (all_below_lem 128 (second_ok 0) n second_table_clear h)
second_ok_lem m n (inr e) h = rw e (all_below_lem 128 (second_ok 0x80) n second_table_set h)

-- The second byte carries the mask bit and seven bits of length.
pub second_byte_fields :
    (m n : ℕ)
    → (m ≡ 0) ⊎ (m ≡ 0x80)
    → n < 128
    → (has_bit (bit_or m n % 256) 0x80 ≡ (m == 0x80)) × (bit_and (bit_or m n % 256) 0x7F ≡ n)
unfolding second_ok
second_byte_fields m n k h =
    let t = both _ _ (second_ok_lem m n k h) in (same_eq _ _ t.0, (==_iff _ _).0 t.1)

-- Masking twice with one byte gives the byte back.
xor_ok : ℕ → Bool
xor_ok a = all_below 256 (λ b. bit_xor (bit_xor a b) b == a)

xor_table : all_below 256 xor_ok ≡ true
unfolding all_below xor_ok
xor_table = refl

pub bit_xor_twice : (a b : ℕ) → a < 256 → b < 256 → bit_xor (bit_xor a b) b ≡ a
unfolding xor_ok
bit_xor_twice a b ha hb = (==_iff _ a).0 (
    all_below_lem 256 (λ c. bit_xor (bit_xor a c) c == a) b
      (all_below_lem 256 xor_ok a xor_table ha) hb)

module _ (n : ℕ) (h : n < size_mod) where
  digit7 : (0 + n / 2 ^ 56 % 256) ≡ n / 2 ^ 56
  digit7 = omega arith

  digit6 : n / 2 ^ 56 * 256 % size_mod + n / 2 ^ 48 % 256 ≡ n / 2 ^ 48
  digit6 = omega arith

  digit5 : n / 2 ^ 48 * 256 % size_mod + n / 2 ^ 40 % 256 ≡ n / 2 ^ 40
  digit5 = omega arith

  digit4 : n / 2 ^ 40 * 256 % size_mod + n / 2 ^ 32 % 256 ≡ n / 2 ^ 32
  digit4 = omega arith

  digit3 : n / 2 ^ 32 * 256 % size_mod + n / 2 ^ 24 % 256 ≡ n / 2 ^ 24
  digit3 = omega arith

  digit2 : n / 2 ^ 24 * 256 % size_mod + n / 2 ^ 16 % 256 ≡ n / 2 ^ 16
  digit2 = omega arith

  digit1 : n / 2 ^ 16 * 256 % size_mod + n / 2 ^ 8 % 256 ≡ n / 2 ^ 8
  digit1 = omega arith

  digit0 : n / 2 ^ 8 * 256 % size_mod + n / 1 % 256 ≡ n
  digit0 = omega arith

  -- The eight-byte length is read back whole.
  pub read_big_endian-big_endian : read_big_endian 0 (big_endian 8 n) ≡ n
  unfolding read_big_endian big_endian
  read_big_endian-big_endian = rw (digit7, digit6, digit5, digit4, digit3, digit2, digit1, digit0)
