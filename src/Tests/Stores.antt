-- ===== src/Tests/Stores.antt =====
-- Runs of the stores of an origin and of the cookies.
use malibu.Common.{none, List, [], exists, false, if◌then◌else◌, refl, some, true, ℕ, ◌∷◌, ◌≡◌}
use malibu.Common.Bytes.{bytes_eq, codes}
use malibu.Security.Origin.{Origin}
use malibu.Network.HttpCache.{
  FetchResponse, ResponseType, set_header, get_header, tokens, read_token, read_tokens, entry_for,
  store, lookup,
}
use malibu.Network.HttpCache.Freshness.{directive, lookup-store}
use malibu.Storage.Maps.{find_key, put_key}
use malibu.Storage.WebStorage.{Storage, get_item}
use malibu.Storage.WebStorage.Refines.{
  StorageOp, perform, IsUnique, answers, ordered, keys_of, perform-Refines,
}
use malibu.Storage.Cookies.{
  Cookie, Cookies, Context, SameSite, get_cookies, get_cookie_string, set_cookie, same_cookie,
  applies,
}
use malibu.Storage.Cookies.Urls.{
  parse_url, behind_or, split_first, domain_matches, path_matches, default_cookie_path,
}
use malibu.Storage.Cookies.Document.{
  set_cookie_from_document, segments, parse_assignment, read_attributes, set_field, same_site_of,
  whole_number,
}
use malibu.Storage.Cookies.Boundary.{
  AreAllowed, violates, set_cookie_from_document-AreAllowed, set_cookie_from_document-refused,
}
use malibu.Storage.Engine.{new_engine, origin_eq, clear_origin}
use malibu.Storage.Engine.Isolation.{
  EngineOp, contents, no_contents, run, contents-run, contents-clear_origin,
}

abbrev saved : Storage
saved = record { items = (codes "b", codes "1") ∷ (codes "a", codes "2") ∷ [] }

saved-IsUnique : IsUnique saved.items
unfolding bytes_eq
saved-IsUnique = (refl, (refl, tt))

perform-Refines_example :
    IsUnique (perform saved (StorageOp.removal (codes "b"))).items
    × ((q : List ℕ)
        → get_item (perform saved (StorageOp.removal (codes "b"))) q
          ≡ answers (get_item saved) (StorageOp.removal (codes "b")) q)
    × (keys_of (perform saved (StorageOp.removal (codes "b"))).items
        ≡ ordered (keys_of saved.items) (StorageOp.removal (codes "b")))
perform-Refines_example = perform-Refines saved (StorageOp.removal (codes "b")) saved-IsUnique

abbrev page : List ℕ
page = codes "http://a.test:80/x/y?q"

abbrev assignment : List ℕ
assignment = codes "id=7; Path=/x; Max-Age=60"

abbrev jar : Cookies
jar = (set_cookie_from_document 100 page assignment []).0

-- What a page sets and reads back.
read_back : get_cookie_string 120 page jar ≡ codes "id=7"
unfolding get_cookie_string get_cookies applies set_cookie_from_document parse_assignment
    read_attributes set_field segments parse_url domain_matches path_matches default_cookie_path
    same_site_of whole_number set_cookie same_cookie bytes_eq
read_back = refl

-- It is gone when its age is over.
expired : get_cookie_string 160 page jar ≡ []
unfolding get_cookie_string get_cookies applies set_cookie_from_document parse_assignment
    read_attributes set_field segments parse_url domain_matches path_matches default_cookie_path
    same_site_of whole_number set_cookie same_cookie bytes_eq
expired = refl

-- A cookie that scripts cannot read.
abbrev hidden : Cookie
hidden = record {
  name = codes "sid";
  value = codes "s";
  domain = codes "a.test";
  path = codes "/x";
  expires = 0;
  secure = false;
  http_only = true;
  same_site = SameSite.lax;
}

-- A script replaces it all the same.
replaces_hidden :
    (set_cookie_from_document 100 page (codes "sid=e") (hidden ∷ [])).0
    ≡ record hidden { value = codes "e"; http_only = false } ∷ []
unfolding set_cookie_from_document parse_assignment read_attributes set_field segments parse_url
    domain_matches default_cookie_path same_site_of whole_number set_cookie same_cookie bytes_eq
replaces_hidden = refl

set_cookie_from_document-AreAllowed_example :
    AreAllowed (parse_url page) [] (set_cookie_from_document 100 page assignment []).0
set_cookie_from_document-AreAllowed_example =
    set_cookie_from_document-AreAllowed 100 page assignment []

abbrev secured : List ℕ
secured = codes "id=7; secure"

secured-violates :
    exists (violates (parse_url page)) (segments (behind_or [] (split_first 59 secured))) ≡ true
unfolding violates segments parse_url bytes_eq
secured-violates = refl

set_cookie_from_document-refused_example :
    set_cookie_from_document 100 page secured jar ≡ (jar, false)
set_cookie_from_document-refused_example =
    set_cookie_from_document-refused 100 page secured jar secured-violates

abbrev site : Origin
site = record { scheme = codes "http"; host = codes "a.test"; port = 80 }

abbrev other_site : Origin
other_site = record site { port = 81 }

apart : origin_eq other_site site ≡ false
unfolding origin_eq bytes_eq
apart = refl

abbrev work : List EngineOp
work = EngineOp.write_to_local saved ∷ EngineOp.clearing ∷ EngineOp.take_caches ∷ []

contents-run_example :
    contents other_site (run site work new_engine) ≡ contents other_site new_engine
contents-run_example = contents-run site other_site work new_engine apart

page_host : (parse_url page).host ≡ site.host
unfolding parse_url
page_host = refl

abbrev context : Context
context = record { secure_transport = true; same_site = true; script_access = false }

contents-clear_origin_example :
    (contents site (clear_origin site new_engine) ≡ no_contents)
    × (get_cookies 120 page context (clear_origin site new_engine).cookies ≡ [])
contents-clear_origin_example = contents-clear_origin 120 page context site new_engine page_host

abbrev fresh : FetchResponse
fresh = record {
  status = 200;
  status_text = [];
  headers = set_header (codes "Cache-Control") (codes "Public, max-age=60 ,NO-STORE") [];
  body = [];
  is_ok = true;
  url = page;
  type = ResponseType.basic;
}

lookup-store_example :
    (lookup page (store page fresh []) ≡ (
      if bytes_eq page page
      then (if directive (codes "no-store") fresh then none else some (entry_for fresh))
      else lookup page []))
    × ((entry_for fresh).response ≡ fresh)
lookup-store_example = lookup-store page page fresh []

-- The directive is found in any case and between spaces.
unkept : lookup page (store page fresh []) ≡ none
unfolding lookup store entry_for get_header set_header read_tokens read_token tokens find_key
    put_key bytes_eq
unkept = refl
