-- ===== src/Storage/Engine.antt =====
-- `StorageEngine` of core/include/malibu/storage/storage_engine.h and storage/storage_engine.cpp.
--
-- An unordered map is a function from its keys. An accessor returns a reference into the engine; here
-- it returns what the reference leads to and the engine in which the entry is there, and `write` gives
-- the engine after a change through the reference.
pub mod Isolation
use malibu.Common.{
  ==_iff, All, All-append, All-imp, Bool, Bool-cases, Distinct, Distinct-snoc, List, List-cases,
  Option, Option-cases, [], ap, arith, drop, drop-length-append, exists, exists_get_elem?,
  exists_none, false, get_elem?, get_elem?-append_left, get_elem?-append_length, get_elem?-lt,
  get_elem?-set_ne, get_elem?-set_self, get_elem?_lem, get_or, if◌then◌else◌, inl, inr, is_empty,
  keep, leb, leb→le, length, length-append, length-drop, length-keep-le, length-set, listed,
  listed-append, ltb, ltb→lt, lt→ltb, map, map-append_lem, none, not, not-listed, refl, set,
  set-append_length, set-get_elem?, set-set, some, subst, suc, sym, take, take-length-append, tests,
  true, zero, ℕ, ◌%◌, ◌&&◌, ◌*◌, ◌++◌, ◌+◌, ◌-◌, ◌/◌, ◌<◌, ◌==◌, ◌^◌, ◌||◌, ◌↔◌, ◌∙◌, ◌∷◌, ◌≡◌, ◌≢◌,
  ◌≤◌, ◌⊎◌,
}
use malibu.Common.Bytes.{bytes_eq}
use malibu.Security.Origin.{Origin}
use malibu.Storage.WebStorage.{Storage, new_storage}
use malibu.Storage.IndexedDb.{Databases}
use malibu.Storage.CacheStorage.{Caches}
use malibu.Storage.Cookies.{Cookies, clear_host}

pub record StorageEngine : Type 0 where
  pub ls : Origin → Option Storage
  pub ss : Origin → List ℕ → Option Storage
  pub idb : Origin → Option Databases
  pub cs : Origin → Option Caches
  pub cookies : Cookies

abbrev pub new_engine : StorageEngine
new_engine = record {
  ls = λ (o : Origin). none;
  ss = λ (o : Origin) (session : List ℕ). none;
  idb = λ (o : Origin). none;
  cs = λ (o : Origin). none;
  cookies = [];
}

-- `Origin::operator==`: field by field.
unfoldable pub origin_eq : Origin → Origin → Bool
unfolding bytes_eq
origin_eq a b = (bytes_eq a.scheme b.scheme && bytes_eq a.host b.host) && (a.port == b.port)

-- `m[origin]`.
abbrev pub present {ℓ} : {A : Type ℓ} → A → Option A → A
present d none = d
present d (some x) = x

-- `m[origin] = x`, and `erase`.
abbrev pub write {ℓ} : {A : Type ℓ} → Origin → A → (Origin → Option A) → Origin → Option A
write origin x m o = if origin_eq o origin then some x else m o

abbrev pub erase {ℓ} : {A : Type ℓ} → Origin → (Origin → Option A) → Origin → Option A
erase origin m o = if origin_eq o origin then none else m o

unfoldable pub write_local : Origin → Storage → StorageEngine → StorageEngine
unfolding origin_eq
write_local origin s e = record e { ls = write origin s e.ls }

unfoldable pub local_storage : Origin → StorageEngine → Storage × StorageEngine
unfolding write_local
local_storage origin e =
    (present new_storage (e.ls origin), write_local origin (present new_storage (e.ls origin)) e)

unfoldable pub write_session : Origin → List ℕ → Storage → StorageEngine → StorageEngine
unfolding origin_eq bytes_eq
write_session origin session s e = record e {
  ss = λ (o : Origin) (i : List ℕ).
      if origin_eq o origin && bytes_eq i session then some s else e.ss o i;
}

unfoldable pub session_storage : Origin → List ℕ → StorageEngine → Storage × StorageEngine
unfolding write_session
session_storage origin session e = (
  present new_storage (e.ss origin session),
  write_session origin session (present new_storage (e.ss origin session)) e,
)

unfoldable pub write_databases : Origin → Databases → StorageEngine → StorageEngine
unfolding origin_eq
write_databases origin dbs e = record e { idb = write origin dbs e.idb }

unfoldable pub indexed_db : Origin → StorageEngine → Databases × StorageEngine
unfolding write_databases
indexed_db origin e =
    (present [] (e.idb origin), write_databases origin (present [] (e.idb origin)) e)

unfoldable pub write_caches : Origin → Caches → StorageEngine → StorageEngine
unfolding origin_eq
write_caches origin caches e = record e { cs = write origin caches e.cs }

unfoldable pub cache_storage : Origin → StorageEngine → Caches × StorageEngine
unfolding write_caches
cache_storage origin e =
    (present [] (e.cs origin), write_caches origin (present [] (e.cs origin)) e)

unfoldable pub clear_origin : Origin → StorageEngine → StorageEngine
unfolding origin_eq clear_host
clear_origin origin e = record {
  ls = erase origin e.ls;
  idb = erase origin e.idb;
  cs = erase origin e.cs;
  ss = λ (o : Origin) (session : List ℕ). if origin_eq o origin then none else e.ss o session;
  cookies = clear_host origin.host e.cookies;
}

abbrev pub has_local_storage : Origin → StorageEngine → Bool
has_local_storage origin e = elim (e.ls origin) [ none ↦ false | some s ↦ true ]

abbrev pub has_indexed_db : Origin → StorageEngine → Bool
has_indexed_db origin e = elim (e.idb origin) [ none ↦ false | some d ↦ true ]
