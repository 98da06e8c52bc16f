-- ===== src/Js/Bytecode/Encoding.antt =====
-- The instruction word keeps every field.
use malibu.Common.{arith, refl, ℕ, ◌%◌, ◌*◌, ◌+◌, ◌/◌, ◌<◌, ◌^◌, ◌≡◌}
use malibu.Js.Bytecode.{Instruction, encode, decode}

-- The fields of an instruction fit their types.
pub record IsInstruction (i : Instruction) : Type 0 where
  pub op : i.op < 2 ^ 8
  pub dst : i.dst < 2 ^ 8
  pub src_a : i.src_a < 2 ^ 16
  pub src_b : i.src_b < 2 ^ 16
  pub imm16 : i.imm16 < 2 ^ 16

decode-fields :
    (o d a b m : ℕ)
    → o < 2 ^ 8
    → d < 2 ^ 8
    → a < 2 ^ 16
    → b < 2 ^ 16
    → m < 2 ^ 16
    → decode (encode (record { op = o; dst = d; src_a = a; src_b = b; imm16 = m }))
      ≡ record { op = o; dst = d; src_a = a; src_b = b; imm16 = m }
unfolding encode decode
decode-fields o d a b m ho hd ha hb hm =
    let raw : ℕ =
      o % 2 ^ 8 * 2 ^ 56
      + d % 2 ^ 8 * 2 ^ 48
      + a % 2 ^ 16 * 2 ^ 32
      + b % 2 ^ 16 * 2 ^ 16
      + m % 2 ^ 16 in
    let e1 : raw / 2 ^ 56 % 2 ^ 8 ≡ o = omega arith in
    let e2 : raw / 2 ^ 48 % 2 ^ 8 ≡ d = omega arith in
    let e3 : raw / 2 ^ 32 % 2 ^ 16 ≡ a = omega arith in
    let e4 : raw / 2 ^ 16 % 2 ^ 16 ≡ b = omega arith in
    let e5 : raw % 2 ^ 16 ≡ m = omega arith in rw (e1, e2, e3, e4, e5) refl

-- Every instruction whose fields fit their types is what its word decodes to, and every 64-bit word is
-- what its instruction encodes to.
pub decode-encode :
    (i : Instruction) (raw : ℕ)
    → IsInstruction i
    → raw < 2 ^ 64
    → (decode (encode i) ≡ i) × (encode (decode raw) ≡ raw)
decode-encode i raw h k = (
  decode-fields i.op i.dst i.src_a i.src_b i.imm16 h.op h.dst h.src_a h.src_b h.imm16,
  unfold encode in unfold decode in omega arith,
)
