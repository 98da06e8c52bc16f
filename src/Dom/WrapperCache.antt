-- ===== src/Dom/WrapperCache.antt =====
-- dom/wrapper_cache.cpp, core/include/malibu/dom/wrapper_cache.h and js/vm/realm.cpp: the script
-- wrapper of each node in each realm.
--
-- The `unordered_map` is an association list without repeated keys. The mutex makes each operation
-- one step; both lookups of `get_or_create` find the same then, and the model makes one.
pub mod Identity
use malibu.Common.{
  ==_iff, All, All-append, All-imp, Bool, Bool-cases, Distinct, Distinct-snoc, List, List-cases,
  Option, Option-cases, [], ap, arith, drop, drop-length-append, exists, exists_get_elem?,
  exists_none, false, get_elem?, get_elem?-append_left, get_elem?-append_length, get_elem?-lt,
  get_elem?-set_ne, get_elem?-set_self, get_elem?_lem, get_or, if◌then◌else◌, inl, inr, is_empty,
  keep, leb, leb→le, length, length-append, length-drop, length-keep-le, length-set, listed,
  listed-append, ltb, ltb→lt, lt→ltb, map, map-append_lem, none, not, not-listed, refl, set,
  set-append_length, set-get_elem?, set-set, some, subst, suc, sym, take, take-length-append, tests,
  true, zero, ℕ, ◌%◌, ◌&&◌, ◌*◌, ◌++◌, ◌+◌, ◌-◌, ◌/◌, ◌<◌, ◌==◌, ◌^◌, ◌||◌, ◌↔◌, ◌∙◌, ◌∷◌, ◌≡◌, ◌≢◌,
  ◌≤◌, ◌⊎◌,
}
use malibu.Dom.Handle.{NodeHandle, JsObjectHandle, handle_eq}
use Prim.Native.Nat.{bit_xor}

pub record WrapperKey : Type 0 where
  pub node_index : ℕ
  pub node_generation : ℕ
  pub realm_id : ℕ

abbrev pub key_eq : WrapperKey → WrapperKey → Bool
key_eq a b =
    (a.node_index == b.node_index)
    && ((a.node_generation == b.node_generation) && (a.realm_id == b.realm_id))

abbrev pub key_of : NodeHandle → ℕ → WrapperKey
key_of h realm_id = record {
  node_index = h.index;
  node_generation = h.generation;
  realm_id = realm_id;
}

abbrev pub WrapperMap : Type 0
WrapperMap = List (WrapperKey × JsObjectHandle)

-- `JSRealm::create_dom_wrapper` of the realm with this id.
unfoldable pub create_dom_wrapper : ℕ → NodeHandle → JsObjectHandle
create_dom_wrapper id h =
    let combined = bit_xor (bit_xor (id * 2 ^ 40 % 2 ^ 64) (h.index * 2 ^ 8)) h.generation in
    if combined == 0 then 1 else combined

unfoldable pub find_wrapper : WrapperMap → WrapperKey → Option JsObjectHandle
find_wrapper [] key = none
find_wrapper ((k, w) ∷ es) key = if key_eq k key then some w else find_wrapper es key

unfoldable pub get_or_create : WrapperMap → NodeHandle → ℕ → WrapperMap × JsObjectHandle
unfolding find_wrapper create_dom_wrapper
get_or_create m h realm_id = elim (find_wrapper m (key_of h realm_id)) [
  | some w ↦ (m, w)
  | none ↦ let w = create_dom_wrapper realm_id h in ((key_of h realm_id, w) ∷ m, w)
]

unfoldable pub on_wrapper_collected : WrapperMap → NodeHandle → ℕ → WrapperMap
on_wrapper_collected m h realm_id =
    keep (λ (e : WrapperKey × JsObjectHandle). not (key_eq e.0 (key_of h realm_id))) m

unfoldable pub purge_realm : WrapperMap → ℕ → WrapperMap
purge_realm m realm_id =
    keep (λ (e : WrapperKey × JsObjectHandle). not (e.0.realm_id == realm_id)) m
