-- ===== src/Storage/CacheStorage.antt =====
-- `CacheStorage` of core/include/malibu/storage/cache_storage.h and storage/cache_storage.cpp.
use malibu.Common.{
  Bool, Bool-cases, List, Option, [], ap, false, if◌then◌else◌, inl, inr, map, none, refl, some, ℕ,
  ◌&&◌, ◌∙◌, ◌≡◌,
}
use malibu.Common.Bytes.{bytes_eq, bytes_eq_iff}
use malibu.Storage.Maps.{find_key, put_key, erase_key, has_key, value_or, find_key-put_key}

-- The status is an `int32_t` bit pattern.
pub record CachedResponse : Type 0 where
  pub status : ℕ
  pub headers : List (List ℕ × List ℕ)
  pub body : List ℕ

abbrev pub Caches : Type 0
Caches = List (List ℕ × List (List ℕ × CachedResponse))

abbrev pub cache_of : List ℕ → Caches → List (List ℕ × CachedResponse)
cache_of name caches = value_or [] (find_key name caches)

unfoldable pub open_cache : List ℕ → Caches → Caches
unfolding find_key put_key
open_cache name caches = put_key name (cache_of name caches) caches

abbrev pub has_cache : List ℕ → Caches → Bool
has_cache name caches = has_key name caches

abbrev pub delete_cache : List ℕ → Caches → Caches × Bool
delete_cache name caches = (erase_key name caches, has_key name caches)

abbrev pub cache_names : Caches → List (List ℕ)
cache_names = map (λ (e : List ℕ × List (List ℕ × CachedResponse)). e.0)

unfoldable pub put_response : List ℕ → List ℕ → CachedResponse → Caches → Caches
unfolding find_key put_key
put_response name url response caches =
    put_key name (put_key url response (cache_of name caches)) caches

abbrev pub response_in : List ℕ → Option (List (List ℕ × CachedResponse)) → Option CachedResponse
response_in url none = none
response_in url (some c) = find_key url c

unfoldable pub match_response : List ℕ → List ℕ → Caches → Option CachedResponse
unfolding find_key
match_response name url caches = response_in url (find_key name caches)

unfoldable pub delete_entry : List ℕ → List ℕ → Caches → Caches × Bool
unfolding find_key put_key
delete_entry name url caches = elim (find_key name caches) [
  | none ↦ (caches, false)
  | some c ↦ (put_key name (erase_key url c) caches, has_key url c)
]

in_default :
    (url : List ℕ) (o : Option (List (List ℕ × CachedResponse)))
    → find_key url (value_or [] o) ≡ response_in url o
unfolding find_key
in_default url none = refl
in_default url (some c) = refl

-- After a `put`, `match` answers the new response for that cache and URL, and what it answered before
-- for all others.
pub match_response-put_response :
    (name url name' url' : List ℕ) (response : CachedResponse) (caches : Caches)
    → match_response name' url' (put_response name url response caches) ≡ (
        if bytes_eq name name' && bytes_eq url url'
        then some response
        else match_response name' url' caches)
unfolding match_response put_response
match_response-put_response name url name' url' response caches =
    let e = find_key-put_key name name' (put_key url response (cache_of name caches)) caches in
    elim (Bool-cases (bytes_eq name name')) [
      | inl h ↦
          let same : name ≡ name' = (bytes_eq_iff name name').0 h in
          rw (e, h)
            (find_key-put_key url url' response (cache_of name caches)
              ∙ ap (λ (o : Option CachedResponse). if bytes_eq url url' then some response else o)
                  (in_default url' (find_key name caches)
                    ∙ ap (λ x. response_in url' (find_key x caches)) same))
      | inr h ↦ rw (e, h) refl
    ]
