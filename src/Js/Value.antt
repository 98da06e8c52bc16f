-- ===== src/Js/Value.antt =====
-- `Value` of core/include/malibu/js/vm/value.h and js/vm/value.cpp: the NaN-boxed value.
--
-- A value is its 64-bit word. `std::bit_cast` makes a `double` its own word, so `make_double` takes
-- the word, and `is_nan` reads it as IEEE 754 says. The three fields that `tagged` joins by `|` share
-- no bit, so they are added; `x >> 48` is `x / 2 ^ 48`. `as_number` gives a `double` and is left out.
pub mod Boxing
use malibu.Common.{
  ==_iff, All, All-append, All-imp, Bool, Bool-cases, Distinct, Distinct-snoc, List, List-cases,
  Option, Option-cases, [], ap, arith, drop, drop-length-append, exists, exists_get_elem?,
  exists_none, false, get_elem?, get_elem?-append_left, get_elem?-append_length, get_elem?-lt,
  get_elem?-set_ne, get_elem?-set_self, get_elem?_lem, get_or, if◌then◌else◌, inl, inr, is_empty,
  keep, leb, leb→le, length, length-append, length-drop, length-keep-le, length-set, listed,
  listed-append, ltb, ltb→lt, lt→ltb, map, map-append_lem, none, not, not-listed, refl, set,
  set-append_length, set-get_elem?, set-set, some, subst, suc, sym, take, take-length-append, tests,
  true, zero, ℕ, ◌%◌, ◌&&◌, ◌*◌, ◌++◌, ◌+◌, ◌-◌, ◌/◌, ◌<◌, ◌==◌, ◌^◌, ◌||◌, ◌↔◌, ◌∙◌, ◌∷◌, ◌≡◌, ◌≢◌,
  ◌≤◌, ◌⊎◌,
}

abbrev pub Value : Type 0
Value = ℕ

abbrev pub quiet_nan : ℕ
quiet_nan = 0x7FF8000000000000

-- `x & kPayloadMask`.
abbrev pub payload_of : ℕ → ℕ
payload_of x = x % 2 ^ 48

unfoldable pub tagged : ℕ → ℕ → Value
tagged tag payload = quiet_nan + tag % 8 * 2 ^ 48 + payload_of payload

-- `std::isnan`: all exponent bits set and a fraction that is not zero.
abbrev pub is_nan : ℕ → Bool
is_nan d = (d / 2 ^ 52 % 2 ^ 11 == 0x7FF) && not (d % 2 ^ 52 == 0)

unfoldable pub make_double : ℕ → Value
make_double d = if is_nan d then quiet_nan else d

-- An `int32_t` is its bit pattern, a word below 2 ^ 32.
unfoldable pub make_int32 : ℕ → Value
unfolding tagged
make_int32 i = tagged 1 i

unfoldable pub make_bool : Bool → Value
unfolding tagged
make_bool b = tagged 2 (if b then 1 else 0)

unfoldable pub make_null : Value
unfolding tagged
make_null = tagged 3 0

unfoldable pub make_undefined : Value
unfolding tagged
make_undefined = tagged 4 0

unfoldable pub make_heap_ptr : ℕ → Value
unfolding tagged
make_heap_ptr p = tagged 5 (payload_of p)

unfoldable pub is_tagged : Value → Bool
is_tagged v = leb 0x7FF9 (v / 2 ^ 48 % 2 ^ 16) && leb (v / 2 ^ 48 % 2 ^ 16) 0x7FFF

unfoldable pub tag : Value → ℕ
tag v = v / 2 ^ 48 % 8

unfoldable pub is_double : Value → Bool
unfolding is_tagged
is_double v = not (is_tagged v)

abbrev pub has_tag : ℕ → Value → Bool
has_tag t v = is_tagged v && (tag v == t)

abbrev pub is_int32 : Value → Bool
is_int32 = has_tag 1

abbrev pub is_bool : Value → Bool
is_bool = has_tag 2

abbrev pub is_null_value : Value → Bool
is_null_value = has_tag 3

abbrev pub is_undefined : Value → Bool
is_undefined = has_tag 4

abbrev pub is_heap_ptr : Value → Bool
is_heap_ptr = has_tag 5

abbrev pub as_double : Value → ℕ
as_double v = v

abbrev pub as_int32 : Value → ℕ
as_int32 v = v % 2 ^ 32

abbrev pub as_bool : Value → Bool
as_bool v = v % 2 == 1

-- A pointer is its address, and 0 is `nullptr`.
unfoldable pub as_heap_ptr : Value → ℕ
unfolding is_tagged tag
as_heap_ptr v = if not (is_heap_ptr v) then 0 else payload_of v

-- `assert_heap_ptr_fits` passes exactly these addresses; it aborts on the others.
abbrev pub heap_ptr_fits : ℕ → Bool
heap_ptr_fits p = p / 2 ^ 48 == 0
