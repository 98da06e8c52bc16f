-- ===== src/Storage/Engine/Isolation.antt =====
-- No origin sees what another one stores, and a cleared origin keeps nothing.
use malibu.Common.{
  Bool, List, Option, [], ap, arith, false, if◌then◌else◌, none, refl, some, subst, true, ℕ, ◌&&◌,
  ◌∙◌, ◌∷◌, ◌≡◌,
}
use malibu.Common.Bytes.{bytes_eq, bytes_eq_iff}
use malibu.Security.Origin.{Origin}
use malibu.Storage.WebStorage.{Storage, new_storage}
use malibu.Storage.IndexedDb.{Databases}
use malibu.Storage.CacheStorage.{Caches}
use malibu.Storage.Cookies.{Context, clear_host, get_cookies}
use malibu.Storage.Cookies.Urls.{parse_url}
use malibu.Storage.Cookies.Retrieval.{get_cookies-clear_host}
use malibu.Storage.Engine.{
  StorageEngine, origin_eq, write_local, local_storage, write_session, session_storage,
  write_databases, indexed_db, write_caches, cache_storage, clear_origin, present,
}

-- What an engine holds for one origin.
pub record Contents : Type 0 where
  pub items : Option Storage
  pub sessions : List ℕ → Option Storage
  pub databases : Option Databases
  pub caches : Option Caches

abbrev pub contents : Origin → StorageEngine → Contents
contents o e = record { items = e.ls o; sessions = e.ss o; databases = e.idb o; caches = e.cs o }

abbrev pub no_contents : Contents
no_contents = record {
  items = none;
  sessions = λ (i : List ℕ). none;
  databases = none;
  caches = none;
}

-- What the code of an origin does with the engine: it takes a store by an accessor, and writes
-- through the reference.
pub data EngineOp : Type 0 where
  take_local take_databases take_caches clearing : EngineOp
  take_session : List ℕ → EngineOp
  write_to_local : Storage → EngineOp
  write_to_session : List ℕ → Storage → EngineOp
  write_to_databases : Databases → EngineOp
  write_to_caches : Caches → EngineOp

unfoldable pub act : Origin → EngineOp → StorageEngine → StorageEngine
unfolding write_local local_storage write_session session_storage write_databases indexed_db
    write_caches cache_storage clear_origin
act o EngineOp.take_local e = (local_storage o e).1
act o (EngineOp.take_session i) e = (session_storage o i e).1
act o EngineOp.take_databases e = (indexed_db o e).1
act o EngineOp.take_caches e = (cache_storage o e).1
act o (EngineOp.write_to_local s) e = write_local o s e
act o (EngineOp.write_to_session i s) e = write_session o i s e
act o (EngineOp.write_to_databases d) e = write_databases o d e
act o (EngineOp.write_to_caches c) e = write_caches o c e
act o EngineOp.clearing e = clear_origin o e

unfoldable pub run : Origin → List EngineOp → StorageEngine → StorageEngine
unfolding act
run o [] e = e
run o (op ∷ ops) e = run o ops (act o op e)

-- What is left of an origin's contents when it is cleared or not.
cleared : Origin → StorageEngine → Bool → Contents
cleared o e b = record {
  items = if b then none else e.ls o;
  sessions = λ (i : List ℕ). if b then none else e.ss o i;
  databases = if b then none else e.idb o;
  caches = if b then none else e.cs o;
}

-- The contents of an origin after a session was written, for this origin or for another one.
shared : Origin → List ℕ → Storage → StorageEngine → Bool → Contents
shared o i s e b = record {
  items = e.ls o;
  sessions = λ (j : List ℕ). if b && bytes_eq j i then some s else e.ss o j;
  databases = e.idb o;
  caches = e.cs o;
}

contents-act :
    (o p : Origin) (op : EngineOp) (e : StorageEngine)
    → origin_eq p o ≡ false
    → contents p (act o op e) ≡ contents p e
unfolding act write_local local_storage write_session session_storage write_databases indexed_db
    write_caches cache_storage clear_origin cleared shared
contents-act o p EngineOp.take_local e h = rw h refl
contents-act o p (EngineOp.take_session i) e h =
    ap (shared p i (present new_storage (e.ss o i)) e) h
contents-act o p EngineOp.take_databases e h = rw h refl
contents-act o p EngineOp.take_caches e h = rw h refl
contents-act o p (EngineOp.write_to_local s) e h = rw h refl
contents-act o p (EngineOp.write_to_session i s) e h = ap (shared p i s e) h
contents-act o p (EngineOp.write_to_databases d) e h = rw h refl
contents-act o p (EngineOp.write_to_caches c) e h = rw h refl
contents-act o p EngineOp.clearing e h = ap (cleared p e) h

-- Whatever one origin does with the engine, in any order, its accessors, the writes through what they
-- return and clear_origin leave the local storage, sessions, databases and caches of another origin as they were.
pub contents-run :
    (o p : Origin) (ops : List EngineOp) (e : StorageEngine)
    → origin_eq p o ≡ false
    → contents p (run o ops e) ≡ contents p e
unfolding run
contents-run o p [] e h = refl
contents-run o p (op ∷ ops) e h = contents-run o p ops (act o op e) h ∙ contents-act o p op e h

origin_eq_refl : (o : Origin) → origin_eq o o ≡ true
unfolding origin_eq
origin_eq_refl o = ground (arith, bytes_eq_iff o.scheme o.scheme, bytes_eq_iff o.host o.host)

-- A cleared origin has no local storage, session, database or cache left, and a URL of its host is
-- sent no cookie.
pub contents-clear_origin :
    (now : ℕ) (url : List ℕ) (ctx : Context) (o : Origin) (e : StorageEngine)
    → (parse_url url).host ≡ o.host
    → (contents o (clear_origin o e) ≡ no_contents)
      × (get_cookies now url ctx (clear_origin o e).cookies ≡ [])
unfolding clear_origin cleared
contents-clear_origin now url ctx o e h = (
  ap (cleared o e) (origin_eq_refl o),
  subst (λ x. get_cookies now url ctx (clear_host x e.cookies) ≡ []) h
      (get_cookies-clear_host now url ctx e.cookies),
)
