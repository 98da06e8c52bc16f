-- ===== src/Dom/WrapperCache/Identity.antt =====
-- How stable and how distinct the wrappers of dom/wrapper_cache.cpp are.
use malibu.Common.{
  Bool-cases, Option-cases, [], arith, false, if◌then◌else◌, inl, inr, none, refl, some, ℕ, ◌==◌,
  ◌∷◌, ◌≡◌,
}
use malibu.Dom.Handle.{NodeHandle}
use malibu.Dom.WrapperCache.{
  WrapperKey, WrapperMap, key_eq, key_of, find_wrapper, get_or_create, purge_realm,
}

find_wrapper-get_or_create :
    (m : WrapperMap) (h : NodeHandle) (realm_id : ℕ)
    → find_wrapper (get_or_create m h realm_id).0 (key_of h realm_id)
      ≡ some (get_or_create m h realm_id).1
unfolding get_or_create find_wrapper
find_wrapper-get_or_create m h realm_id = elim (Option-cases (find_wrapper m (key_of h realm_id))) [
  | inl n ↦ rw (n, get_or_create) (ground arith)
  | inr (w, n) ↦ rw (n, get_or_create) n
]

-- Asking for the wrapper of a node twice gives one wrapper and leaves the cache as the first call did.
pub get_or_create-twice :
    (m : WrapperMap) (h : NodeHandle) (realm_id : ℕ)
    → get_or_create (get_or_create m h realm_id).0 h realm_id ≡ get_or_create m h realm_id
unfolding get_or_create
get_or_create-twice m h realm_id = rw (find_wrapper-get_or_create m h realm_id, get_or_create) refl

-- Asking for a wrapper changes what the cache holds under no other key.
pub find_wrapper-get_or_create_frame :
    (m : WrapperMap) (h : NodeHandle) (realm_id : ℕ) (key : WrapperKey)
    → key_eq (key_of h realm_id) key ≡ false
    → find_wrapper (get_or_create m h realm_id).0 key ≡ find_wrapper m key
unfolding get_or_create find_wrapper
find_wrapper-get_or_create_frame m h realm_id key e =
    elim (Option-cases (find_wrapper m (key_of h realm_id))) [
      | inl n ↦ rw (n, get_or_create) (rw e refl)
      | inr (w, n) ↦ rw (n, get_or_create) refl
    ]

-- After a purge of a realm the cache holds nothing of that realm, and under a key of any other realm
-- what it held before.
pub find_wrapper-purge_realm :
    (m : WrapperMap) (realm_id : ℕ) (key : WrapperKey)
    → find_wrapper (purge_realm m realm_id) key
      ≡ (if key.realm_id == realm_id then none else find_wrapper m key)
unfolding purge_realm find_wrapper
find_wrapper-purge_realm [] realm_id key = elim (Bool-cases (key.realm_id == realm_id)) [
  | inl a ↦ rw a refl
  | inr a ↦ rw a refl
]
find_wrapper-purge_realm ((k, w) ∷ m) realm_id key =
    ground (arith, find_wrapper-purge_realm m realm_id key)
