-- ===== src/Cache/Keeps.antt =====
-- What the methods of a service leave true of the store's tables.
use mathlib.Core.Path.{subst}
use manga_hub.Prelude.{String, refl, sym, Option-cases, inl, inr}
use manga_hub.Exec.{Exec, pure, caught, ◌>>=◌, ◌>>◌}
use manga_hub.Exec.Keeps.{Keeps, Keeps-bind, Keeps-pure}
use manga_hub.Store.Tables.{Tables, Store}
use manga_hub.Store.Tables.Keeps.{On}
use manga_hub.Cache.{Redis, Service, in_store, invalidate}
use manga_hub.Cache.Reads.{Reads}

module _ (P : Tables → Type 0) (r : Redis) where
  abbrev pub Within : Service r → Type 0
  Within s = P s.store.tables

  pub Reads-Within : {A : Type 0} (m : Exec (Service r) A) → Reads r m → Keeps Within m
  Reads-Within m reads = record { after = λ s h. subst P (sym (reads s)) h }

  pub in_store-Within :
      {A : Type 0} (m : Exec Store A) → Keeps (On P) m → Keeps Within (in_store r m)
  unfolding in_store
  in_store-Within m k = record { after = λ s h. k.after s.store h }

  pub caught-Within :
      {A : Type 0} (m : Exec (Service r) A) → Keeps Within m → Keeps Within (caught m)
  caught-Within m k = record { after = k.after }

  invalidate-Reads : (key : String) → Reads r (invalidate r key)
  unfolding invalidate
  invalidate-Reads key s = elim (Option-cases s.cache) [
    | inl nil ↦ rw (nil, invalidate) refl
    | inr (c, client) ↦ rw (client, invalidate) refl
  ]

  -- a value, and then the cache is made invalid
  pub invalidating :
      {A B : Type 0} (m : Exec (Service r) A) (key : String) (result : A → B)
      → Keeps Within m
      → Keeps Within (do a ← m; caught (invalidate r key); pure (result a))
  invalidating m key result k = Keeps-bind m _ k λ a.
      Keeps-bind (caught (invalidate r key)) _
        (caught-Within (invalidate r key) (Reads-Within (invalidate r key) (invalidate-Reads key)))
        λ _. Keeps-pure (result a)
