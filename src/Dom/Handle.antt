-- ===== src/Dom/Handle.antt =====
-- core/include/malibu/types.h: the tokens by which the subsystems name nodes and script objects.
use malibu.Common.{ℕ, ◌-◌, ◌^◌, ◌≡◌, Bool, true, ◌&&◌, ◌↔◌, ◌==◌, arith}

-- `UINT32_MAX` is the last 32-bit word.
abbrev pub word_size : ℕ
word_size = 2 ^ 32

pub record NodeHandle : Type 0 where
  pub index : ℕ
  pub generation : ℕ

abbrev pub null_handle : NodeHandle
null_handle = record { index = 2 ^ 32 - 1; generation = 0 }

abbrev pub is_null : NodeHandle → Bool
is_null h = h.index == 2 ^ 32 - 1

-- `NodeHandle::operator==`, field by field.
abbrev pub handle_eq : NodeHandle → NodeHandle → Bool
handle_eq a b = (a.index == b.index) && (a.generation == b.generation)

pub handle_eq_iff : (a b : NodeHandle) → (handle_eq a b ≡ true) ↔ (a ≡ b)
handle_eq_iff a b = ground arith

-- `JSObjectHandle` is its raw word; zero is the null reference.
abbrev pub JsObjectHandle : Type 0
JsObjectHandle = ℕ

abbrev pub js_is_null : JsObjectHandle → Bool
js_is_null h = h == 0
