-- ===== src/Dom/Attributes/Laws.antt =====
-- `set_attribute` and `get_attribute` of dom/document.cpp on the sorted list are a finite map.
use malibu.Common.{
  All, All-imp, Bool-cases, List, [], arith, false, if◌then◌else◌, inl, inr, none, refl, some, true,
  ℕ, ◌∷◌, ◌≡◌,
}
use malibu.Common.Bytes.{bytes_eq, bytes_eq_iff, bytes_eq_refl}
use malibu.Dom.Attributes.{AttrMap, text_lt, set_attr, get_attr}
use malibu.Dom.Attributes.Order.{text_lt_irrefl, text_lt_trans, text_lt_total, text_lt_asym}

-- Every name of the list lies behind `k`.
abbrev pub Behind : List ℕ → AttrMap → Type 0
Behind k = All (λ (e : List ℕ × List ℕ). text_lt k e.0 ≡ true)

abbrev pub Sorted : AttrMap → Type 0
Sorted [] = Unit
Sorted ((k, v) ∷ rest) = Behind k rest × Sorted rest

Behind-trans : (j k : List ℕ) (rest : AttrMap) → text_lt j k ≡ true → Behind k rest → Behind j rest
Behind-trans j k rest p h = All-imp _ _ (λ e q. text_lt_trans j k e.0 p q) rest h

Behind-set_attr :
    (j key value : List ℕ) (m : AttrMap)
    → text_lt j key ≡ true
    → Behind j m
    → Behind j (set_attr key value m)
unfolding set_attr
Behind-set_attr j key value [] p h = (p, tt)
Behind-set_attr j key value ((k, v) ∷ rest) p h = elim (Bool-cases (text_lt k key)) [
  | inl lt ↦ rw lt (h.0, Behind-set_attr j key value rest p h.1)
  | inr ge ↦ elim (Bool-cases (bytes_eq k key)) [
    | inl eq ↦ rw (ge, eq) h
    | inr ne ↦ rw (ge, ne) (p, h)
  ]
]

-- A name that is neither less than the key nor the key lies behind it.
above : (key k : List ℕ) → text_lt k key ≡ false → bytes_eq k key ≡ false → text_lt key k ≡ true
above key k ge ne = elim (Bool-cases (text_lt key k)) [
  | inl lt ↦ lt
  | inr nl ↦ absurd (ground (arith, text_lt_total k key ge nl, bytes_eq_iff k key))
]

lt_ne : (xs ys : List ℕ) → text_lt xs ys ≡ true → bytes_eq xs ys ≡ false
lt_ne xs ys p = elim (Bool-cases (bytes_eq xs ys)) [
  | inl e ↦ absurd (ground (arith, (bytes_eq_iff xs ys).0 e, text_lt_irrefl xs))
  | inr e ↦ e
]

-- Setting an attribute keeps the list in order, so no name ever stands in it twice.
pub set_attr-Sorted : (key value : List ℕ) (m : AttrMap) → Sorted m → Sorted (set_attr key value m)
unfolding set_attr
set_attr-Sorted key value [] h = (tt, tt)
set_attr-Sorted key value ((k, v) ∷ rest) h = elim (Bool-cases (text_lt k key)) [
  | inl lt ↦ rw lt (Behind-set_attr k key value rest lt h.0, set_attr-Sorted key value rest h.1)
  | inr ge ↦ elim (Bool-cases (bytes_eq k key)) [
    | inl eq ↦ rw (ge, eq) h
    | inr ne ↦ rw (ge, ne) (let lt = above key k ge ne in ((lt, Behind-trans key k rest lt h.0), h))
  ]
]

-- A name in front of the whole list is not found in it.
get_attr-Behind : (key : List ℕ) (m : AttrMap) → Behind key m → get_attr key m ≡ none
unfolding get_attr
get_attr-Behind key [] h = refl
get_attr-Behind key ((k, v) ∷ rest) h = rw (text_lt_asym key k h.0, beq_sym h.0)
  where
    beq_sym : text_lt key k ≡ true → bytes_eq k key ≡ false
    beq_sym p = elim (Bool-cases (bytes_eq k key)) [
      | inl e ↦ absurd (ground (arith, (bytes_eq_iff k key).0 e, text_lt_irrefl key))
      | inr e ↦ e
    ]

same_name : (xs ys : List ℕ) → bytes_eq xs ys ≡ true → xs ≡ ys
same_name xs ys = (bytes_eq_iff xs ys).0

self :
    (key value : List ℕ) (m : AttrMap) → Sorted m → get_attr key (set_attr key value m) ≡ some value
unfolding get_attr set_attr
self key value [] h = rw (text_lt_irrefl key, bytes_eq_refl key)
self key value ((k, v) ∷ rest) h = elim (Bool-cases (text_lt k key)) [
  | inl lt ↦ rw lt (rw lt (self key value rest h.1))
  | inr ge ↦ elim (Bool-cases (bytes_eq k key)) [
    | inl eq ↦ rw (ge, eq) (rw (ge, eq))
    | inr ne ↦ rw (ge, ne) (rw (text_lt_irrefl key, bytes_eq_refl key))
  ]
]

other :
    (j key value : List ℕ) (m : AttrMap)
    → Sorted m
    → bytes_eq key j ≡ false
    → get_attr j (set_attr key value m) ≡ get_attr j m
unfolding get_attr set_attr
other j key value [] h n = ground arith
other j key value ((k, v) ∷ rest) h n = elim (Bool-cases (text_lt k key)) [
  | inl lt ↦ ground (arith, other j key value rest h.1 n)
  | inr ge ↦ elim (Bool-cases (bytes_eq k key)) [
    | inl eq ↦ ground (arith, same_name k key eq)
    | inr ne ↦ elim (Bool-cases (text_lt key j)) [
      | inl lt ↦ ground arith
      | inr nl ↦
          let before : text_lt j key ≡ true = above j key nl n in
          let front : text_lt j k ≡ true = text_lt_trans j key k before (above key k ge ne) in
          ground (arith, get_attr-Behind j ((k, v) ∷ rest) (front, Behind-trans j k rest front h.0))
    ]
  ]
]

-- In a list in order, reading after a write gives the written value under the written name, and what
-- was there under every other name.
pub get_attr-set_attr :
    (j key value : List ℕ) (m : AttrMap)
    → Sorted m
    → get_attr j (set_attr key value m) ≡ (if bytes_eq key j then some value else get_attr j m)
get_attr-set_attr j key value m h = elim (Bool-cases (bytes_eq key j)) [
  | inl e ↦ rw (e, ← same_name key j e) (self key value m h)
  | inr e ↦ rw e (other j key value m h e)
]
