-- ===== src/Storage/IndexedDb/Laws.antt =====
-- Records are kept apart by database, store and key.
use malibu.Common.{
  Bool-cases, List, Option, Option-cases, ap, arith, if◌then◌else◌, inl, inr, none, refl, some,
  subst, ℕ, ◌&&◌, ◌∙◌, ◌≡◌,
}
use malibu.Common.Bytes.{bytes_eq, bytes_eq_iff}
use malibu.Storage.Maps.{
  find_key, put_key, erase_key, value_or, find_key-put_key, find_key-erase_key,
}
use malibu.Storage.IndexedDb.{
  Databases, Database, ObjectStore, new_store, new_database, store_of, database_of, put_store,
  records_in, record_at, put, get, delete_record,
}

default_stores :
    (store : List ℕ) (o : Option Database)
    → find_key store (value_or new_database o).stores ≡ records_in store o
unfolding find_key
default_stores store none = refl
default_stores store (some d) = refl

-- The records of a store after one store was written.
records_in-put_store :
    (db store db' store' : List ℕ) (s : ObjectStore) (dbs : Databases)
    → records_in store' (find_key db' (put_store db store s dbs)) ≡ (
        if bytes_eq db db' && bytes_eq store store'
        then some s
        else records_in store' (find_key db' dbs))
records_in-put_store db store db' store' s dbs =
    let e =
      find_key-put_key db db'
        (record (database_of db dbs) { stores = put_key store s (database_of db dbs).stores })
        dbs in
    elim (Bool-cases (bytes_eq db db')) [
      | inl h ↦
          let same : db ≡ db' = (bytes_eq_iff db db').0 h in
          rw (e, h)
            (inside
              ∙ ap (λ (o : Option ObjectStore). if bytes_eq store store' then some s else o)
                  (ap (λ x. records_in store' (find_key x dbs)) same))
      | inr h ↦ rw (e, h) refl
    ]
  where
    inside :
        find_key store' (put_key store s (database_of db dbs).stores)
        ≡ (if bytes_eq store store' then some s else records_in store' (find_key db dbs))
    inside =
        find_key-put_key store store' s (database_of db dbs).stores
        ∙ ap (λ (o : Option ObjectStore). if bytes_eq store store' then some s else o)
            (default_stores store' (find_key db dbs))

record_at-default :
    (key : List ℕ) (o : Option ObjectStore)
    → find_key key (value_or new_store o).records ≡ record_at key o
unfolding find_key
record_at-default key none = refl
record_at-default key (some s) = refl

-- What a record answers once the store that was read at (db, store) was written back changed.
record_at-written :
    (db store key db' store' key' : List ℕ) (s : ObjectStore) (new : Option (List ℕ))
    (dbs : Databases)
    → find_key key' s.records
      ≡ (if bytes_eq key key' then new else record_at key' (records_in store (find_key db dbs)))
    → record_at key' (records_in store' (find_key db' (put_store db store s dbs))) ≡ (
        if bytes_eq db db' && bytes_eq store store' && bytes_eq key key'
        then new
        else record_at key' (records_in store' (find_key db' dbs)))
record_at-written db store key db' store' key' s new dbs h =
    rw (records_in-put_store db store db' store' s dbs) (elim (Bool-cases (bytes_eq db db')) [
      | inr e ↦ rw e refl
      | inl e ↦ elim (Bool-cases (bytes_eq store store')) [
        | inr f ↦ rw (e, f) refl
        | inl f ↦
            let same_db : db ≡ db' = (bytes_eq_iff db db').0 e in
            let same_store : store ≡ store' = (bytes_eq_iff store store').0 f in
            rw (e, f)
              (h
                ∙ ap (λ (o : Option (List ℕ)). if bytes_eq key key' then new else o)
                    (ap (λ x. record_at key' (records_in x (find_key db dbs))) same_store
                      ∙ ap (λ x. record_at key' (records_in store' (find_key x dbs))) same_db))
      ]
    ])

-- After a `put`, `get` answers the new value for that database, store and key, and what it answered
-- before for all others.
pub get-put :
    (db store key value db' store' key' : List ℕ) (dbs : Databases)
    → get db' store' key' (put db store key value dbs) ≡ (
        if bytes_eq db db' && bytes_eq store store' && bytes_eq key key'
        then some value
        else get db' store' key' dbs)
unfolding get put
get-put db store key value db' store' key' dbs =
    let s : ObjectStore = store_of store (database_of db dbs) in
    let before : find_key key' s.records ≡ record_at key' (records_in store (find_key db dbs)) =
      record_at-default key' (find_key store (database_of db dbs).stores)
      ∙ ap (record_at key') (default_stores store (find_key db dbs)) in
    record_at-written db store key db' store' key'
      (record { records = put_key key value s.records }) (some value) dbs
      (find_key-put_key key key' value s.records
        ∙ ap (λ (o : Option (List ℕ)). if bytes_eq key key' then some value else o) before)

nothing_there :
    (db store key db' store' key' : List ℕ) (dbs : Databases)
    → records_in store (find_key db dbs) ≡ none
    → record_at key' (records_in store' (find_key db' dbs)) ≡ (
        if bytes_eq db db' && bytes_eq store store' && bytes_eq key key'
        then none
        else record_at key' (records_in store' (find_key db' dbs)))
nothing_there db store key db' store' key' dbs e =
    elim (Bool-cases (bytes_eq db db' && bytes_eq store store' && bytes_eq key key')) [
      | inr f ↦ rw f refl
      | inl f ↦
          let same_db : db ≡ db' = ground (arith, bytes_eq_iff db db') in
          let same_store : store ≡ store' = ground (arith, bytes_eq_iff store store') in
          rw f (
            ap (record_at key') (
              subst (λ x. records_in store' (find_key x dbs) ≡ none) same_db
                (subst (λ x. records_in x (find_key db dbs) ≡ none) same_store e)))
    ]

-- After a `delete_record`, `get` answers none for that database, store and key, and what it answered
-- before for all others, whether the record was there or not.
pub get-delete_record :
    (db store key db' store' key' : List ℕ) (dbs : Databases)
    → get db' store' key' (delete_record db store key dbs).0 ≡ (
        if bytes_eq db db' && bytes_eq store store' && bytes_eq key key'
        then none
        else get db' store' key' dbs)
unfolding get delete_record
get-delete_record db store key db' store' key' dbs =
    elim (Option-cases (records_in store (find_key db dbs))) [
      | inl e ↦ rw (e, delete_record) (nothing_there db store key db' store' key' dbs e)
      | inr (s, e) ↦
          rw (e, delete_record)
            (record_at-written db store key db' store' key'
              (record { records = erase_key key s.records }) none dbs
              (find_key-erase_key key key' s.records ∙ rw e refl))
    ]
