-- ===== src/Js/Value/Boxing.antt =====
-- What is put into a NaN-boxed value comes out again, and under no other tag.
use malibu.Common.{
  Bool, Bool-cases, ap, arith, false, if◌then◌else◌, inl, inr, leb, refl, true, ℕ, ◌%◌, ◌&&◌, ◌*◌,
  ◌+◌, ◌/◌, ◌<◌, ◌==◌, ◌^◌, ◌∙◌, ◌≡◌, ◌≤◌,
}
use malibu.Js.Value.{
  Value, quiet_nan, payload_of, tagged, make_double, make_int32, make_bool, make_null,
  make_undefined, make_heap_ptr, is_tagged, tag, is_double, is_int32, is_bool, is_null_value,
  is_undefined, as_int32, as_bool, as_heap_ptr, is_nan,
}

-- A word from `tagged` is tagged, with the tag and the payload that were given, if the tag is not 0.
pub tagged_lem :
    (t p : ℕ)
    → 0 < t
    → t < 8
    → (is_tagged (tagged t p) ≡ true)
      × (tag (tagged t p) ≡ t)
      × (payload_of (tagged t p) ≡ p % 2 ^ 48)
unfolding tagged is_tagged tag
tagged_lem t p lo hi =
    let top : (quiet_nan + t % 8 * 2 ^ 48 + p % 2 ^ 48) / 2 ^ 48 % 2 ^ 16 ≡ 0x7FF8 + t =
      omega arith in
    let low : (quiet_nan + t % 8 * 2 ^ 48 + p % 2 ^ 48) / 2 ^ 48 % 8 ≡ t = omega arith in
    (rw top (ground arith), low, omega arith)

-- What a value stands for: a number by its bits, or one of the tagged kinds.
pub data Unboxed : Type 0 where
  double int32 heap_ptr : ℕ → Unboxed
  bool : Bool → Unboxed
  null undefined : Unboxed

abbrev pub box : Unboxed → Value
box (Unboxed.double d) = make_double d
box (Unboxed.int32 i) = make_int32 i
box (Unboxed.heap_ptr p) = make_heap_ptr p
box (Unboxed.bool b) = make_bool b
box Unboxed.null = make_null
box Unboxed.undefined = make_undefined

-- The tests and the reads of the class, in its order.
pub unbox : Value → Unboxed
unbox v =
    if is_double v
    then Unboxed.double v
    else if is_int32 v
    then Unboxed.int32 (as_int32 v)
    else if is_bool v
    then Unboxed.bool (as_bool v)
    else if is_null_value v
    then Unboxed.null
    else if is_undefined v
    then Unboxed.undefined
    else Unboxed.heap_ptr (as_heap_ptr v)

-- A word for a number, a 32-bit pattern, or an address below 2 ^ 48. Of the NaNs only the canonical
-- one.
abbrev pub Fits : Unboxed → Type 0
Fits (Unboxed.double d) = (d < 2 ^ 64) × (make_double d ≡ d)
Fits (Unboxed.int32 i) = i < 2 ^ 32
Fits (Unboxed.heap_ptr p) = p < 2 ^ 48
Fits _ = Unit

not_nan :
    (d : ℕ)
    → is_nan d ≡ false
    → (leb 0x7FF9 (d / 2 ^ 48 % 2 ^ 16) && leb (d / 2 ^ 48 % 2 ^ 16) 0x7FFF) ≡ false
not_nan d n =
    elim (Bool-cases (leb 0x7FF9 (d / 2 ^ 48 % 2 ^ 16) && leb (d / 2 ^ 48 % 2 ^ 16) 0x7FFF)) [
      | inl t ↦
          let lo : 0x7FF9 ≤ d / 2 ^ 48 % 2 ^ 16 = ground arith in
          let hi : d / 2 ^ 48 % 2 ^ 16 ≤ 0x7FFF = ground arith in
          let exponent : d / 2 ^ 52 % 2 ^ 11 ≡ 0x7FF = omega arith in
          let fraction : 0 < d % 2 ^ 52 = omega arith in absurd (ground arith)
      | inr t ↦ t
    ]

double_lem : (d : ℕ) → d < 2 ^ 64 → is_tagged (make_double d) ≡ false
unfolding make_double is_tagged
double_lem d h = elim (Bool-cases (is_nan d)) [ inl n ↦ rw n refl | inr n ↦ rw n (not_nan d n) ]

-- The tests read the tag that was given, and no other.
unbox-tagged :
    (t p : ℕ)
    → 0 < t
    → t < 6
    → unbox (tagged t p) ≡ (
        if t == 1
        then Unboxed.int32 (p % 2 ^ 48 % 2 ^ 32)
        else if t == 2
        then Unboxed.bool (p % 2 ^ 48 % 2 == 1)
        else if t == 3
        then Unboxed.null
        else if t == 4
        then Unboxed.undefined
        else Unboxed.heap_ptr (p % 2 ^ 48))
unfolding unbox is_double as_heap_ptr
unbox-tagged t p lo hi =
    let (a, b, c) = tagged_lem t p lo (omega arith) in
    let low32 : tagged t p % 2 ^ 32 ≡ p % 2 ^ 48 % 2 ^ 32 = omega (arith, c) in
    let low1 : tagged t p % 2 ≡ p % 2 ^ 48 % 2 = omega (arith, c) in
    rw (a, b, low32, low1, c) (ground arith)

unbox-double : (v : Value) → is_tagged v ≡ false → unbox v ≡ Unboxed.double v
unfolding unbox is_double
unbox-double v e = rw e refl

-- Unboxing gives back what was boxed: every kind is recognised as itself and as no other kind.
pub unbox-box : (x : Unboxed) → Fits x → unbox (box x) ≡ x
unfolding make_int32 make_bool make_null make_undefined make_heap_ptr
unbox-box (Unboxed.double d) h =
    unbox-double (make_double d) (double_lem d h.0) ∙ ap Unboxed.double h.1
unbox-box (Unboxed.int32 i) h =
    unbox-tagged 1 i (omega arith) (omega arith) ∙ ap Unboxed.int32 (omega arith)
unbox-box (Unboxed.heap_ptr p) h =
    unbox-tagged 5 (payload_of p) (omega arith) (omega arith) ∙ ap Unboxed.heap_ptr (omega arith)
unbox-box (Unboxed.bool true) h = unbox-tagged 2 1 (omega arith) (omega arith)
unbox-box (Unboxed.bool false) h = unbox-tagged 2 0 (omega arith) (omega arith)
unbox-box Unboxed.null h = unbox-tagged 3 0 (omega arith) (omega arith)
unbox-box Unboxed.undefined h = unbox-tagged 4 0 (omega arith) (omega arith)
