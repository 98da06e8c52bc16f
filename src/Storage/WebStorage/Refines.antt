-- ===== src/Storage/WebStorage/Refines.antt =====
-- Web storage is a function from keys to values, and its keys stand in the order they came in.
use malibu.Common.{
  Bool-cases, List, Option, [], ap, arith, exists, false, if◌then◌else◌, inl, inr, keep, map, none,
  not, refl, some, subst, sym, true, ℕ, ◌++◌, ◌∙◌, ◌∷◌, ◌≡◌,
}
use malibu.Common.Bytes.{bytes_eq, bytes_eq_iff}
use malibu.Storage.WebStorage.{
  Storage, find_item, get_item, put_item, set_item, drop_item, remove_item, clear,
}

-- The calls that change a storage.
pub data StorageOp : Type 0 where
  set_to : List ℕ → List ℕ → StorageOp
  removal : List ℕ → StorageOp
  clearing : StorageOp

unfoldable pub perform : Storage → StorageOp → Storage
unfolding set_item remove_item clear
perform s (StorageOp.set_to k v) = set_item s k v
perform s (StorageOp.removal k) = remove_item s k
perform s StorageOp.clearing = clear s

abbrev pub IsUnique : List (List ℕ × List ℕ) → Type 0
IsUnique [] = Unit
IsUnique ((k, v) ∷ items) = (find_item k items ≡ none) × IsUnique items

-- What the calls mean for a function from keys to values.
unfoldable pub answers : (List ℕ → Option (List ℕ)) → StorageOp → List ℕ → Option (List ℕ)
unfolding bytes_eq
answers f (StorageOp.set_to k v) q = if bytes_eq k q then some v else f q
answers f (StorageOp.removal k) q = if bytes_eq k q then none else f q
answers f StorageOp.clearing q = none

-- What they mean for the list of the keys.
abbrev pub keys_of : List (List ℕ × List ℕ) → List (List ℕ)
keys_of = map (λ (e : List ℕ × List ℕ). e.0)

unfoldable pub ordered : List (List ℕ) → StorageOp → List (List ℕ)
unfolding bytes_eq
ordered ks (StorageOp.set_to k v) = if exists (bytes_eq k) ks then ks else ks ++ k ∷ []
ordered ks (StorageOp.removal k) = keep (λ (j : List ℕ). not (bytes_eq k j)) ks
ordered ks StorageOp.clearing = []

find-put :
    (k v q : List ℕ) (m : List (List ℕ × List ℕ))
    → find_item q (put_item k v m) ≡ (if bytes_eq k q then some v else find_item q m)
find-put k v q [] = refl
find-put k v q ((j, w) ∷ m) =
    ground (arith, find-put k v q m, bytes_eq_iff j k, bytes_eq_iff j q, bytes_eq_iff k q)

find-absent :
    (k q : List ℕ) (m : List (List ℕ × List ℕ))
    → find_item k m ≡ none
    → bytes_eq k q ≡ true
    → find_item q m ≡ none
find-absent k q m h e = subst (λ x. find_item x m ≡ none) ((bytes_eq_iff k q).0 e) h

find-drop :
    (k q : List ℕ) (m : List (List ℕ × List ℕ))
    → IsUnique m
    → find_item q (drop_item k m) ≡ (if bytes_eq k q then none else find_item q m)
find-drop k q [] u = ground arith
find-drop k q ((j, w) ∷ m) u = elim (Bool-cases (bytes_eq j k)) [
  | inl e ↦
      let same : j ≡ k = (bytes_eq_iff j k).0 e in
      let absent : find_item k m ≡ none = subst (λ x. find_item x m ≡ none) same u.0 in
      rw e (elim (Bool-cases (bytes_eq k q)) [
        | inl f ↦ rw f (find-absent k q m absent f)
        | inr f ↦ ground (arith, bytes_eq_iff j q, bytes_eq_iff k q)
      ])
  | inr e ↦
      ground (arith, find-drop k q m u.1, bytes_eq_iff j k, bytes_eq_iff j q, bytes_eq_iff k q)
]

keys-put :
    (k v : List ℕ) (m : List (List ℕ × List ℕ))
    → keys_of (put_item k v m) ≡ ordered (keys_of m) (StorageOp.set_to k v)
unfolding ordered
keys-put k v [] = refl
keys-put k v ((j, w) ∷ m) = ground (arith, keys-put k v m, bytes_eq_iff j k, bytes_eq_iff k j)

exists-none :
    (k : List ℕ) (m : List (List ℕ × List ℕ))
    → find_item k m ≡ none
    → keep (λ (j : List ℕ). not (bytes_eq k j)) (keys_of m) ≡ keys_of m
exists-none k [] h = refl
exists-none k ((j, w) ∷ m) h =
    let other : bytes_eq k j ≡ false = ground (arith, bytes_eq_iff j k, bytes_eq_iff k j) in
    let rest : find_item k m ≡ none = ground arith in rw other (ap (◌∷◌ j) (exists-none k m rest))

keys-drop :
    (k : List ℕ) (m : List (List ℕ × List ℕ))
    → IsUnique m
    → keys_of (drop_item k m) ≡ ordered (keys_of m) (StorageOp.removal k)
unfolding ordered
keys-drop k [] u = refl
keys-drop k ((j, w) ∷ m) u = elim (Bool-cases (bytes_eq j k)) [
  | inl e ↦
      let same : j ≡ k = (bytes_eq_iff j k).0 e in
      let absent : find_item k m ≡ none = subst (λ x. find_item x m ≡ none) same u.0 in
      let back : bytes_eq k j ≡ true = (bytes_eq_iff k j).1 (sym same) in
      rw (e, back) (sym (exists-none k m absent))
  | inr e ↦ ground (arith, keys-drop k m u.1, bytes_eq_iff j k, bytes_eq_iff k j)
]

IsUnique-put : (k v : List ℕ) (m : List (List ℕ × List ℕ)) → IsUnique m → IsUnique (put_item k v m)
IsUnique-put k v [] u = (refl, tt)
IsUnique-put k v ((j, w) ∷ m) u = elim (Bool-cases (bytes_eq j k)) [
  | inl e ↦ rw e (u.0, u.1)
  | inr e ↦ rw e (
    find-put k v j m ∙ ground (arith, bytes_eq_iff j k, bytes_eq_iff k j),
    IsUnique-put k v m u.1,
  )
]

IsUnique-drop : (k : List ℕ) (m : List (List ℕ × List ℕ)) → IsUnique m → IsUnique (drop_item k m)
IsUnique-drop k [] u = tt
IsUnique-drop k ((j, w) ∷ m) u = elim (Bool-cases (bytes_eq j k)) [
  | inl e ↦ rw e u.1
  | inr e ↦ rw e (find-drop k j m u.1 ∙ ground (arith, u.0), IsUnique-drop k m u.1)
]

-- A storage in which no key stands twice stays so under `set_item`, `remove_item` and `clear`; `get_item`
-- then answers as a function from keys to values would that the call updates, and the keys stand in
-- the order in which they were first set, a new one last.
pub perform-Refines :
    (s : Storage) (op : StorageOp)
    → IsUnique s.items
    → IsUnique (perform s op).items
      × ((q : List ℕ) → get_item (perform s op) q ≡ answers (get_item s) op q)
      × (keys_of (perform s op).items ≡ ordered (keys_of s.items) op)
unfolding perform set_item remove_item clear get_item answers ordered
perform-Refines s (StorageOp.set_to k v) u =
    (IsUnique-put k v s.items u, λ q. find-put k v q s.items, keys-put k v s.items)
perform-Refines s (StorageOp.removal k) u =
    (IsUnique-drop k s.items u, λ q. find-drop k q s.items u, keys-drop k s.items u)
perform-Refines s StorageOp.clearing u = (tt, λ q. refl, refl)
