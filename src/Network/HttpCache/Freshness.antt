-- ===== src/Network/HttpCache/Freshness.antt =====
-- What the cache holds after a response was stored, and what `Cache-Control` makes of its entry.
use malibu.Common.{
  Bool, List, [], ap, arith, exists, false, if◌then◌else◌, none, refl, some, true, ℕ, ◌∙◌, ◌∷◌, ◌≡◌,
}
use malibu.Common.Bytes.{bytes_eq, codes}
use malibu.Security.Text.{lower}
use malibu.Storage.Maps.{find_key, put_key, erase_key, find_key-put_key, find_key-erase_key}
use malibu.Network.HttpCache.{
  FetchResponse, CacheEntry, HttpCache, get_header, tokens, strip, read_token, read_tokens,
  first_entry, entry_for, store, lookup,
}

-- Whether a header has a directive, as one of its comma-separated tokens in any case.
abbrev pub directive : List ℕ → FetchResponse → Bool
directive name response =
    exists (λ (t : List ℕ). bytes_eq (strip t) name)
      (tokens (lower (get_header (codes "Cache-Control") response.headers)))

read_tokens-no_store :
    (ts : List (List ℕ)) (e : CacheEntry)
    → (read_tokens ts e).no_store ≡ (
        if exists (λ (t : List ℕ). bytes_eq (strip t) (codes "no-store")) ts
        then true
        else e.no_store)
unfolding read_tokens read_token
read_tokens-no_store [] e = refl
read_tokens-no_store (t ∷ ts) e = ground (arith, read_tokens-no_store ts (read_token (strip t) e))

read_tokens-response :
    (ts : List (List ℕ)) (e : CacheEntry) → (read_tokens ts e).response ≡ e.response
unfolding read_tokens read_token
read_tokens-response [] e = refl
read_tokens-response (t ∷ ts) e = ground (arith, read_tokens-response ts (read_token (strip t) e))

entry_for-no_store :
    (response : FetchResponse)
    → (entry_for response).no_store ≡ directive (codes "no-store") response
unfolding entry_for
entry_for-no_store response =
    read_tokens-no_store (tokens (lower (get_header (codes "Cache-Control") response.headers)))
      (first_entry response)
    ∙ as_bool (directive (codes "no-store") response)
  where
    as_bool : (b : Bool) → (if b then true else false) ≡ b
    as_bool true = refl
    as_bool false = refl

entry_for-response : (response : FetchResponse) → (entry_for response).response ≡ response
unfolding entry_for
entry_for-response response =
    read_tokens-response (tokens (lower (get_header (codes "Cache-Control") response.headers)))
      (first_entry response)

kept :
    (url q : List ℕ) (e : CacheEntry) (entries : HttpCache) (b : Bool)
    → find_key q (if b then erase_key url entries else put_key url e entries)
      ≡ (if bytes_eq url q then (if b then none else some e) else find_key q entries)
kept url q e entries true = find_key-erase_key url q entries
kept url q e entries false = find_key-put_key url q e entries

-- After a store the cache answers, for that URL, the entry of the response, or nothing if its Cache-Control
-- says no-store, even where an older response was cached; the entry holds the response as it came. For every
-- other URL it answers what it did before.
pub lookup-store :
    (url q : List ℕ) (response : FetchResponse) (entries : HttpCache)
    → (lookup q (store url response entries) ≡ (
        if bytes_eq url q
        then (if directive (codes "no-store") response then none else some (entry_for response))
        else lookup q entries))
      × ((entry_for response).response ≡ response)
unfolding lookup store
lookup-store url q response entries = (
  ap
        (λ (b : Bool).
          find_key q
            (if b then erase_key url entries else put_key url (entry_for response) entries))
        (entry_for-no_store response)
      ∙ kept url q (entry_for response) entries (directive (codes "no-store") response),
  entry_for-response response,
)
