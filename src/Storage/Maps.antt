-- ===== src/Storage/Maps.antt =====
-- `std::map` from strings, as storage/indexed_db.cpp and storage/cache_storage.cpp use it: entries in
-- the order of the keys.
use malibu.Common.{
  Bool, Bool-cases, List, Option, [], arith, exists, false, if◌then◌else◌, inl, inr, keep, none,
  not, refl, some, subst, sym, true, ℕ, ◌∙◌, ◌∷◌, ◌≡◌,
}
use malibu.Common.Bytes.{bytes_eq, bytes_eq_iff}
use malibu.Dom.Attributes.{text_lt}

module _ {ℓ} {A : Type ℓ} where
  -- `find`.
  unfoldable pub find_key : List ℕ → List (List ℕ × A) → Option A
  unfolding bytes_eq
  find_key key [] = none
  find_key key ((k, v) ∷ m) = if bytes_eq k key then some v else find_key key m

  -- `m[key] = value`.
  unfoldable pub put_key : List ℕ → A → List (List ℕ × A) → List (List ℕ × A)
  unfolding bytes_eq
  put_key key v [] = (key, v) ∷ []
  put_key key v ((k, w) ∷ m) =
      if bytes_eq k key
      then (k, v) ∷ m
      else if text_lt key k
      then (key, v) ∷ (k, w) ∷ m
      else (k, w) ∷ put_key key v m

  -- `erase(key)`.
  abbrev pub erase_key : List ℕ → List (List ℕ × A) → List (List ℕ × A)
  erase_key key m = keep (λ (e : List ℕ × A). not (bytes_eq e.0 key)) m

  abbrev pub has_key : List ℕ → List (List ℕ × A) → Bool
  has_key key m = exists (λ (e : List ℕ × A). bytes_eq e.0 key) m

  -- `m[key]`, where a missing key makes a default value.
  abbrev pub value_or : A → Option A → A
  value_or d none = d
  value_or d (some v) = v

  pub find_key-put_key :
      (key q : List ℕ) (v : A) (m : List (List ℕ × A))
      → find_key q (put_key key v m) ≡ (if bytes_eq key q then some v else find_key q m)
  unfolding find_key put_key
  find_key-put_key key q v [] = refl
  find_key-put_key key q v ((k, w) ∷ m) = elim (Bool-cases (bytes_eq k key)) [
    | inl e ↦
        let same : k ≡ key = (bytes_eq_iff k key).0 e in
        rw e (
          subst
            (λ x. (if bytes_eq x q then some v else find_key q m) ≡ (
              if bytes_eq key q then some v else (if bytes_eq x q then some w else find_key q m)))
            (sym same) (inner (bytes_eq key q)))
    | inr e ↦ elim (Bool-cases (text_lt key k)) [
      | inl l ↦ rw (e, l) refl
      | inr l ↦
          rw (e, l)
            (elim (Bool-cases (bytes_eq k q)) [
              | inl f ↦
                  let same : k ≡ q = (bytes_eq_iff k q).0 f in
                  rw f (elim (Bool-cases (bytes_eq key q)) [
                    | inl g ↦
                        let again : bytes_eq k key ≡ true =
                          (bytes_eq_iff k key).1 (same ∙ sym ((bytes_eq_iff key q).0 g)) in
                        absurd (ground arith)
                    | inr g ↦ rw g refl
                  ])
              | inr f ↦ rw f (find_key-put_key key q v m)
            ])
    ]
  ]
    where
      inner :
          (b : Bool)
          → (if b then some v else find_key q m)
            ≡ (if b then some v else (if b then some w else find_key q m))
      inner true = refl
      inner false = refl

  pub find_key-erase_key :
      (key q : List ℕ) (m : List (List ℕ × A))
      → find_key q (erase_key key m) ≡ (if bytes_eq key q then none else find_key q m)
  unfolding find_key
  find_key-erase_key key q [] = elim (Bool-cases (bytes_eq key q)) [
    | inl e ↦ rw e refl
    | inr e ↦ rw e refl
  ]
  find_key-erase_key key q ((k, w) ∷ m) =
      ground (
        arith,
        find_key-erase_key key q m,
        bytes_eq_iff k key,
        bytes_eq_iff k q,
        bytes_eq_iff key q,
      )
