-- ===== src/Network/HttpCache.antt =====
-- network/http_cache.cpp, core/include/malibu/network/http_cache.h, and the headers and responses of
-- core/include/malibu/network/fetch_types.h.
--
-- A number that may be negative is its 64-bit pattern. `std::stol` skips white space and reads a sign
-- and digits; where it finds none, or the number is out of range, it throws, and the answer is 0.
pub mod Freshness
use malibu.Common.{
  ==_iff, All, All-append, All-imp, Bool, Bool-cases, Distinct, Distinct-snoc, List, List-cases,
  Option, Option-cases, [], ap, arith, drop, drop-length-append, exists, exists_get_elem?,
  exists_none, false, get_elem?, get_elem?-append_left, get_elem?-append_length, get_elem?-lt,
  get_elem?-set_ne, get_elem?-set_self, get_elem?_lem, get_or, if◌then◌else◌, inl, inr, is_empty,
  keep, leb, leb→le, length, length-append, length-drop, length-keep-le, length-set, listed,
  listed-append, ltb, ltb→lt, lt→ltb, map, map-append_lem, none, not, not-listed, refl, set,
  set-append_length, set-get_elem?, set-set, some, subst, suc, sym, take, take-length-append, tests,
  true, zero, ℕ, ◌%◌, ◌&&◌, ◌*◌, ◌++◌, ◌+◌, ◌-◌, ◌/◌, ◌<◌, ◌==◌, ◌^◌, ◌||◌, ◌↔◌, ◌∙◌, ◌∷◌, ◌≡◌, ◌≢◌,
  ◌≤◌, ◌⊎◌,
}
use malibu.Common.Bytes.{bytes_eq, codes}
use malibu.Security.Text.{lower, starts_with, is_digit, decimal, is_space}
use malibu.Storage.Maps.{find_key, put_key, erase_key, value_or}

-- `HeaderMap::entries`: the keys are in lower case.
abbrev pub HeaderMap : Type 0
HeaderMap = List (List ℕ × List ℕ)

unfoldable pub set_header : List ℕ → List ℕ → HeaderMap → HeaderMap
unfolding put_key
set_header k v headers = put_key (lower k) v headers

unfoldable pub get_header : List ℕ → HeaderMap → List ℕ
unfolding find_key
get_header k headers = value_or [] (find_key (lower k) headers)

pub data ResponseType : Type 0 where
  basic cors opaque_filtered network_error : ResponseType

pub record FetchResponse : Type 0 where
  pub status : ℕ
  pub status_text : List ℕ
  pub headers : HeaderMap
  pub body : List ℕ
  pub is_ok : Bool
  pub url : List ℕ
  pub type : ResponseType

pub record CacheEntry : Type 0 where
  pub response : FetchResponse
  pub etag : List ℕ
  pub last_modified : List ℕ
  pub no_store : Bool
  pub no_cache : Bool
  pub has_max_age : Bool
  pub max_age : ℕ

abbrev pub has_validator : CacheEntry → Bool
has_validator e = not (is_empty e.etag) || not (is_empty e.last_modified)

abbrev pub HttpCache : Type 0
HttpCache = List (List ℕ × CacheEntry)

-- `trim`: spaces and tabs.
abbrev pub is_gap : ℕ → Bool
is_gap c = (c == 32) || (c == 9)

abbrev pub strip_front : List ℕ → List ℕ
strip_front [] = []
strip_front (c ∷ cs) = if is_gap c then strip_front cs else c ∷ cs

abbrev pub strip_back : List ℕ → List ℕ
strip_back [] = []
strip_back (c ∷ cs) = let rest = strip_back cs in if is_gap c && is_empty rest then [] else c ∷ rest

abbrev pub strip : List ℕ → List ℕ
strip s = strip_back (strip_front s)

-- The pieces between commas; what is left when the loop ends is none.
abbrev pub onto_head : ℕ → List (List ℕ) → List (List ℕ)
onto_head x [] = (x ∷ []) ∷ []
onto_head x (p ∷ ps) = (x ∷ p) ∷ ps

unfoldable pub tokens : List ℕ → List (List ℕ)
tokens [] = []
tokens (c ∷ cs) = if c == 44 then [] ∷ tokens cs else onto_head c (tokens cs)

abbrev pub digits_at : List ℕ → List ℕ
digits_at [] = []
digits_at (c ∷ cs) = if is_digit c then c ∷ digits_at cs else []

abbrev pub behind_spaces : List ℕ → List ℕ
behind_spaces [] = []
behind_spaces (c ∷ cs) = if is_space c then behind_spaces cs else c ∷ cs

abbrev pub upward : List ℕ → ℕ
upward digits = if ltb (decimal 0 digits) (2 ^ 63) then decimal 0 digits else 0

abbrev pub downward : List ℕ → ℕ
downward digits =
    if leb (decimal 0 digits) (2 ^ 63) then (2 ^ 64 - decimal 0 digits) % 2 ^ 64 else 0

abbrev pub signed_number : List ℕ → ℕ
signed_number [] = 0
signed_number (c ∷ cs) =
    if c == 45
    then downward (digits_at cs)
    else if c == 43
    then upward (digits_at cs)
    else upward (digits_at (c ∷ cs))

unfoldable pub long_or_zero : List ℕ → ℕ
long_or_zero s = signed_number (behind_spaces s)

unfoldable pub read_token : List ℕ → CacheEntry → CacheEntry
unfolding bytes_eq long_or_zero
read_token token e =
    if bytes_eq token (codes "no-store")
    then record e { no_store = true }
    else if bytes_eq token (codes "no-cache")
    then record e { no_cache = true }
    else if starts_with (codes "max-age=") token
    then record e { has_max_age = true; max_age = long_or_zero (drop 8 token) }
    else e

unfoldable pub read_tokens : List (List ℕ) → CacheEntry → CacheEntry
unfolding read_token
read_tokens [] e = e
read_tokens (t ∷ ts) e = read_tokens ts (read_token (strip t) e)

-- The entry before and after `Cache-Control` is read.
abbrev pub first_entry : FetchResponse → CacheEntry
first_entry response = record {
  response = response;
  etag = get_header (codes "ETag") response.headers;
  last_modified = get_header (codes "Last-Modified") response.headers;
  no_store = false;
  no_cache = false;
  has_max_age = false;
  max_age = 0;
}

unfoldable pub entry_for : FetchResponse → CacheEntry
unfolding get_header read_tokens tokens
entry_for response =
    read_tokens (tokens (lower (get_header (codes "Cache-Control") response.headers)))
      (first_entry response)

unfoldable pub store : List ℕ → FetchResponse → HttpCache → HttpCache
unfolding entry_for put_key
store url response entries =
    if (entry_for response).no_store
    then erase_key url entries
    else put_key url (entry_for response) entries

unfoldable pub lookup : List ℕ → HttpCache → Option CacheEntry
unfolding find_key
lookup url entries = find_key url entries

abbrev pub remove : List ℕ → HttpCache → HttpCache
remove url entries = erase_key url entries
