-- ===== src/Cache.antt =====
-- internal/cache/redis.go, and the versioned cache of internal/user/cache.go, internal/manga/cache.go
-- and internal/review/cache.go. Redis and its client library are not the repository's: their
-- commands are the operations of a `Redis`. A cached JSON text is the value that it encodes.
pub mod Reads
pub mod Keeps
use manga_hub.Prelude.{ℤ, pos, String, List, Option, none, some, Result, ok, err, wrap, failure}
use manga_hub.Models.{User, Manga, LibraryEntry, ProgressHistoryEntry, Review}
use manga_hub.Exec.{Exec, ◌>>=◌, ◌>>◌, pure, caught}
use manga_hub.Store.Tables.{Store}

-- what a key may hold: a counter, or the JSON text of a value
pub data Payload : Type 0 where
  counter : ℤ → Payload
  a_user : User → Payload
  library : List LibraryEntry → Payload
  history : List ProgressHistoryEntry → Payload
  a_manga : Manga → Payload
  manga_list : List Manga → Payload
  a_review : Review → Payload
  review_list : List Review → Payload

-- GET (`ok none` is redis.Nil), SET with a time to live in nanoseconds, and INCR
pub record Redis : Type 1 where
  pub State : Type 0
  pub get : String → State → Result (Option Payload) × State
  pub set : String → Payload → ℤ → State → Result (Unit {0}) × State
  pub incr : String → State → Result ℤ × State

-- the state of a service: its store, and its cache client unless that is nil
pub record Service (r : Redis) : Type 0 where
  pub store : Store
  pub cache : Option r.State

module _ (r : Redis) where
  unfoldable pub in_store : {A : Type 0} → Exec Store A → Exec (Service r) A
  in_store m s = ((m s.store).0, record s { store = (m s.store).1 })

  -- the result of `GetJSON`: `ok none` is `false, nil`
  abbrev decoded : {A : Type 0} → (Payload → Option A) → Result (Option Payload) → Result (Option A)
  decoded read (ok none) = ok none
  decoded read (ok (some raw)) = elim (read raw) [
    | none ↦ err (wrap "unmarshal cache value" (failure "json"))
    | some a ↦ ok (some a)
  ]
  decoded read (err e) = err e

  -- `Client.GetJSON`
  unfoldable pub get_json :
      {A : Type 0} → (Payload → Option A) → String → Exec (Service r) (Option A)
  get_json read key s = elim s.cache [
    | none ↦ (ok none, s)
    | some c ↦ (decoded read (r.get key c).0, record s { cache = some (r.get key c).1 })
  ]

  -- `Client.SetJSON`
  unfoldable pub set_json : String → Payload → ℤ → Exec (Service r) (Unit {0})
  set_json key value ttl s = elim s.cache [
    | none ↦ (ok tt, s)
    | some c ↦ ((r.set key value ttl c).0, record s { cache = some (r.set key value ttl c).1 })
  ]

  abbrev read_counter : Payload → Option ℤ
  read_counter (counter n) = some n
  read_counter _ = none

  abbrev or_zero : Result (Option ℤ) → ℤ
  or_zero (ok (some n)) = n
  or_zero (ok none) = pos 0
  or_zero (err e) = pos 0

  -- `Service.version`: 0 without a cache, without the key, or on an error
  unfoldable pub version : String → Exec (Service r) ℤ
  unfolding get_json
  version version_key s = (
    ok (or_zero (get_json read_counter version_key s).0),
    (get_json read_counter version_key s).1,
  )

  -- `Service.invalidate`
  unfoldable pub invalidate : String → Exec (Service r) (Unit {0})
  invalidate version_key s = elim s.cache [
    | none ↦ (ok tt, s)
    | some c ↦
        (dropped (r.incr version_key c).0, record s { cache = some (r.incr version_key c).1 })
  ]
    where
      dropped : Result ℤ → Result (Unit {0})
      dropped (ok n) = ok tt
      dropped (err e) = err e

  module _ {A : Type 0} (read : Payload → Option A) (write : A → Payload) (ttl : ℤ) where
    -- `if ok, err := s.cache.GetJSON(…); err == nil && ok { return items, nil }`
    unfoldable pub serve : Exec (Service r) A → Result (Option A) → Exec (Service r) A
    serve miss (ok (some a)) = pure a
    serve miss (ok none) = miss
    serve miss (err e) = miss

    -- load from the store, and write what was loaded to the cache under a key computed again
    unfoldable pub load : Exec (Service r) String → Exec (Service r) A → Exec (Service r) A
    unfolding set_json
    load key source = do a ← source; k ← key; caught (set_json k (write a) ttl); pure a

    -- The body of the cached getters. The key is computed only where there is a cache.
    unfoldable pub read_through : Exec (Service r) String → Exec (Service r) A → Exec (Service r) A
    unfolding serve load get_json
    read_through key source s = elim s.cache [
      | none ↦ source s
      | some c ↦ (do k ← key; hit ← caught (get_json read k); serve (load key source) hit) s
    ]
