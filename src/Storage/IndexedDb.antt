-- ===== src/Storage/IndexedDb.antt =====
-- `IndexedDB` of core/include/malibu/storage/indexed_db.h and storage/indexed_db.cpp. The references
-- that `open_database` and `create_store` return are left out: what they refer to is looked up.
pub mod Laws
use malibu.Common.{
  ==_iff, All, All-append, All-imp, Bool, Bool-cases, Distinct, Distinct-snoc, List, List-cases,
  Option, Option-cases, [], ap, arith, drop, drop-length-append, exists, exists_get_elem?,
  exists_none, false, get_elem?, get_elem?-append_left, get_elem?-append_length, get_elem?-lt,
  get_elem?-set_ne, get_elem?-set_self, get_elem?_lem, get_or, if◌then◌else◌, inl, inr, is_empty,
  keep, leb, leb→le, length, length-append, length-drop, length-keep-le, length-set, listed,
  listed-append, ltb, ltb→lt, lt→ltb, map, map-append_lem, none, not, not-listed, refl, set,
  set-append_length, set-get_elem?, set-set, some, subst, suc, sym, take, take-length-append, tests,
  true, zero, ℕ, ◌%◌, ◌&&◌, ◌*◌, ◌++◌, ◌+◌, ◌-◌, ◌/◌, ◌<◌, ◌==◌, ◌^◌, ◌||◌, ◌↔◌, ◌∙◌, ◌∷◌, ◌≡◌, ◌≢◌,
  ◌≤◌, ◌⊎◌,
}
use malibu.Common.Bytes.{bytes_eq}
use malibu.Storage.Maps.{find_key, put_key, erase_key, has_key, value_or}

pub record ObjectStore : Type 0 where
  pub records : List (List ℕ × List ℕ)

-- The version is an `int` that only grows from 0, so it is never negative.
pub record Database : Type 0 where
  pub name : List ℕ
  pub version : ℕ
  pub stores : List (List ℕ × ObjectStore)

abbrev pub Databases : Type 0
Databases = List (List ℕ × Database)

abbrev pub new_store : ObjectStore
new_store = record { records = [] }

abbrev pub new_database : Database
new_database = record { name = []; version = 0; stores = [] }

abbrev pub opened : List ℕ → ℕ → Database → Database
opened name version db = record db {
  name = if is_empty db.name then name else db.name;
  version = if ltb db.version version then version else db.version;
}

-- `version` is the argument if it is positive, and 0 stands for the others, which change nothing.
unfoldable pub open_database : List ℕ → ℕ → Databases → Databases
unfolding find_key put_key
open_database name version dbs =
    put_key name (opened name version (value_or new_database (find_key name dbs))) dbs

abbrev pub has_database : List ℕ → Databases → Bool
has_database name dbs = has_key name dbs

abbrev pub delete_database : List ℕ → Databases → Databases
delete_database name dbs = erase_key name dbs

abbrev pub database_names : Databases → List (List ℕ)
database_names = map (λ (e : List ℕ × Database). e.0)

-- `dbs_[db].stores[store]` and a change of it.
abbrev pub store_of : List ℕ → Database → ObjectStore
store_of store d = value_or new_store (find_key store d.stores)

abbrev pub database_of : List ℕ → Databases → Database
database_of db dbs = value_or new_database (find_key db dbs)

abbrev pub put_store : List ℕ → List ℕ → ObjectStore → Databases → Databases
put_store db store s dbs =
    put_key db
      (record (database_of db dbs) { stores = put_key store s (database_of db dbs).stores }) dbs

unfoldable pub create_store : List ℕ → List ℕ → Databases → Databases
unfolding find_key put_key
create_store db store dbs = put_store db store (store_of store (database_of db dbs)) dbs

unfoldable pub put : List ℕ → List ℕ → List ℕ → List ℕ → Databases → Databases
unfolding find_key put_key
put db store key value dbs =
    put_store db store
      (record { records = put_key key value (store_of store (database_of db dbs)).records }) dbs

abbrev pub records_in : List ℕ → Option Database → Option ObjectStore
records_in store none = none
records_in store (some d) = find_key store d.stores

abbrev pub record_at : List ℕ → Option ObjectStore → Option (List ℕ)
record_at key none = none
record_at key (some s) = find_key key s.records

unfoldable pub get : List ℕ → List ℕ → List ℕ → Databases → Option (List ℕ)
unfolding find_key
get db store key dbs = record_at key (records_in store (find_key db dbs))

unfoldable pub delete_record : List ℕ → List ℕ → List ℕ → Databases → Databases × Bool
unfolding find_key put_key
delete_record db store key dbs = elim (records_in store (find_key db dbs)) [
  | none ↦ (dbs, false)
  | some s ↦
      (put_store db store (record { records = erase_key key s.records }) dbs, has_key key s.records)
]

abbrev pub size_of : Option ObjectStore → ℕ
size_of none = 0
size_of (some s) = length s.records

unfoldable pub count : List ℕ → List ℕ → Databases → ℕ
unfolding find_key
count db store dbs = size_of (records_in store (find_key db dbs))
