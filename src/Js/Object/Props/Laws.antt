-- ===== src/Js/Object/Props/Laws.antt =====
-- Reading the properties of js/runtime/objects.cpp after a write or a deletion.
use malibu.Common.{
  Bool, Bool-cases, List, Option, Option-cases, [], ap, arith, false, if◌then◌else◌, inl, inr, none,
  not, refl, some, subst, sym, true, ℕ, ◌&&◌, ◌++◌, ◌||◌, ◌∙◌, ◌∷◌, ◌≡◌,
}
use malibu.Common.Bytes.{bytes_eq, bytes_eq_iff}
use malibu.Js.Value.{Value}
use malibu.Js.Object.{Property, JsObject}
use malibu.Js.Object.Props.{
  find_own, update_own, new_property, assign, set_prop, delete_from, delete_prop,
}

abbrev pub mapped : (Property → Property) → Option Property → Option Property
mapped f none = none
mapped f (some p) = some (f p)

find_own-append :
    (j : List ℕ) (ps : List Property) (q : Property)
    → find_own j (ps ++ q ∷ [])
      ≡ elim (find_own j ps) [ some p ↦ some p | none ↦ if bytes_eq q.key j then some q else none ]
unfolding find_own
find_own-append j [] q = refl
find_own-append j (p ∷ ps) q = elim (Bool-cases (bytes_eq p.key j)) [
  | inl e ↦ rw e refl
  | inr e ↦ rw e (find_own-append j ps q)
]

find_own-update_own :
    (f : Property → Property)
    → ((p : Property) → (f p).key ≡ p.key)
    → (key j : List ℕ) (ps : List Property)
    → find_own j (update_own f key ps)
      ≡ (if bytes_eq key j then mapped f (find_own key ps) else find_own j ps)
unfolding find_own update_own
find_own-update_own f same key j [] = ground arith
find_own-update_own f same key j (p ∷ ps) = elim (Bool-cases (bytes_eq p.key key)) [
  | inl e ↦
      let k : p.key ≡ key = (bytes_eq_iff p.key key).0 e in rw (e, same p) (rw k (ground arith))
  | inr e ↦ rw e (elim (Bool-cases (bytes_eq p.key j)) [
    | inl g ↦
        let k : p.key ≡ j = (bytes_eq_iff p.key j).0 g in
        let n : bytes_eq key j ≡ false =
          ground (arith, bytes_eq_iff key j, bytes_eq_iff p.key j, bytes_eq_iff p.key key) in
        rw (g, n) refl
    | inr g ↦ rw g (find_own-update_own f same key j ps)
  ])
]

-- What a set is to leave under its own key.
abbrev pub after_set : JsObject → List ℕ → Value → Bool → Option Property
after_set o key v enumerable = elim (find_own key o.props) [
  | some p ↦ some (if p.writable && not p.is_accessor then record p { value = v } else p)
  | none ↦
      if o.extensible
      then some (record {
        key = key;
        value = v;
        enumerable = enumerable;
        is_accessor = false;
        getter = 0;
        setter = 0;
        writable = true;
        configurable = true;
      })
      else none
]

assign_lem :
    (v : Value) (p : Property)
    → assign v p ≡ (if p.writable && not p.is_accessor then record p { value = v } else p)
assign_lem v p = chosen p.writable p.is_accessor
  where
    chosen :
        (w acc : Bool)
        → (if not w || acc then p else record p { value = v })
          ≡ (if w && not acc then record p { value = v } else p)
    chosen true true = refl
    chosen true false = refl
    chosen false true = refl
    chosen false false = refl

assign_key : (v : Value) (p : Property) → (assign v p).key ≡ p.key
assign_key v p = ground arith

-- A set writes its own key and no other: a property that is there gets the value, unless it is
-- read-only or an accessor, one that is not there is added, unless the object is not extensible, and
-- what is found under every other key stays.
pub find_own-set_prop :
    (key j : List ℕ) (v : Value) (enumerable : Bool) (o : JsObject)
    → find_own j (set_prop key v enumerable o).props
      ≡ (if bytes_eq key j then after_set o key v enumerable else find_own j o.props)
unfolding set_prop
find_own-set_prop key j v enumerable o = elim (Option-cases (find_own key o.props)) [
  | inr (p, e) ↦
      rw (e, set_prop)
        (find_own-update_own (assign v) (assign_key v) key j o.props
          ∙ rw e (
              ap (λ (q : Property). if bytes_eq key j then some q else find_own j o.props)
                (assign_lem v p)
              ∙ rw (e, after_set) refl))
  | inl e ↦
      let new = new_property key v enumerable in
      elim (Bool-cases (bytes_eq key j)) [
        | inl k ↦
            let gone : find_own j o.props ≡ none =
              subst (λ x. find_own x o.props ≡ none) ((bytes_eq_iff key j).0 k) e in
            ground (arith, find_own-append j o.props new)
        | inr k ↦ ground (arith, find_own-append j o.props new)
      ]
]

-- No key stands in the list twice.
abbrev pub HasKeys : List Property → Type 0
HasKeys [] = Unit
HasKeys (p ∷ ps) = (find_own p.key ps ≡ none) × HasKeys ps

abbrev pub may_delete : Option Property → Bool
may_delete none = false
may_delete (some p) = p.configurable

delete_from_lem :
    (key j : List ℕ) (ps : List Property)
    → HasKeys ps
    → ((delete_from key ps).0 ≡ may_delete (find_own key ps))
      × (find_own j (delete_from key ps).1
          ≡ (if bytes_eq key j && may_delete (find_own key ps) then none else find_own j ps))
unfolding delete_from find_own
delete_from_lem key j [] h = (refl, ground arith)
delete_from_lem key j (p ∷ ps) h =
    let (done, rest) = delete_from_lem key j ps h.1 in
    elim (Bool-cases (bytes_eq p.key key)) [
      | inl e ↦ elim (Bool-cases (bytes_eq p.key j)) [
        | inl g ↦
            let n : find_own j ps ≡ none =
              subst (λ x. find_own x ps ≡ none) ((bytes_eq_iff p.key j).0 g) h.0 in
            let same : bytes_eq key j ≡ true =
              ground (arith, bytes_eq_iff key j, bytes_eq_iff p.key j, bytes_eq_iff p.key key) in
            ground arith
        | inr g ↦
            let other : bytes_eq key j ≡ false =
              ground (arith, bytes_eq_iff key j, bytes_eq_iff p.key j, bytes_eq_iff p.key key) in
            ground arith
      ]
      | inr e ↦ elim (Bool-cases (bytes_eq p.key j)) [
        | inl g ↦
            let other : bytes_eq key j ≡ false =
              ground (arith, bytes_eq_iff key j, bytes_eq_iff p.key j, bytes_eq_iff p.key key) in
            ground arith
        | inr g ↦ ground arith
      ]
    ]

-- A deletion of a key from an object in which no key stands twice says `true` exactly if the key was
-- there and configurable; then nothing is found under it, and otherwise what was there stays. What is
-- found under every other key stays in both cases.
pub find_own-delete_prop :
    (key j : List ℕ) (o : JsObject)
    → HasKeys o.props
    → ((delete_prop key o).0 ≡ may_delete (find_own key o.props))
      × (find_own j (delete_prop key o).1.props ≡ (
          if bytes_eq key j && may_delete (find_own key o.props) then none else find_own j o.props))
unfolding delete_prop
find_own-delete_prop key j o h = delete_from_lem key j o.props h

HasKeys-update_own :
    (f : Property → Property)
    → ((p : Property) → (f p).key ≡ p.key)
    → (key : List ℕ) (ps : List Property) → HasKeys ps
    → HasKeys (update_own f key ps)
unfolding update_own
HasKeys-update_own f same key [] h = tt
HasKeys-update_own f same key (p ∷ ps) h = elim (Bool-cases (bytes_eq p.key key)) [
  | inl e ↦ rw e (subst (λ k. find_own k ps ≡ none) (sym (same p)) h.0, h.1)
  | inr e ↦
      let other : bytes_eq key p.key ≡ false =
        ground (arith, bytes_eq_iff key p.key, bytes_eq_iff p.key key) in
      rw e (
        find_own-update_own f same key p.key ps ∙ rw other h.0,
        HasKeys-update_own f same key ps h.1,
      )
]

HasKeys-snoc :
    (ps : List Property) (q : Property)
    → HasKeys ps
    → find_own q.key ps ≡ none
    → HasKeys (ps ++ q ∷ [])
unfolding find_own
HasKeys-snoc [] q h n = (refl, tt)
HasKeys-snoc (p ∷ ps) q h n =
    let apart : bytes_eq p.key q.key ≡ false = ground arith in
    let back : bytes_eq q.key p.key ≡ false =
      ground (arith, bytes_eq_iff q.key p.key, bytes_eq_iff p.key q.key) in
    (find_own-append p.key ps q ∙ ground arith, HasKeys-snoc ps q h.1 (ground arith))

-- No set puts a key into the list twice.
pub set_prop-HasKeys :
    (key : List ℕ) (v : Value) (enumerable : Bool) (o : JsObject)
    → HasKeys o.props
    → HasKeys (set_prop key v enumerable o).props
unfolding set_prop
set_prop-HasKeys key v enumerable o h = elim (Option-cases (find_own key o.props)) [
  | inr (p, e) ↦ rw (e, set_prop) (HasKeys-update_own (assign v) (assign_key v) key o.props h)
  | inl e ↦ rw (e, set_prop) (step o.extensible o h e)
]
  where
    step :
        (b : Bool) (o : JsObject)
        → HasKeys o.props
        → find_own key o.props ≡ none
        → HasKeys
            (if not b
              then o
              else record o { props = o.props ++ new_property key v enumerable ∷ [] }).props
    step true o h e = HasKeys-snoc o.props (new_property key v enumerable) h e
    step false o h e = h
