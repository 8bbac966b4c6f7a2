-- ===== src/Cache/Reads.antt =====
-- A getter that goes through the cache leaves the store's tables as they are.
use manga_hub.Prelude.{
  ℤ, String, ◌≡◌, refl, ◌∙◌, Option, none, some, Result, ok, err, Option-cases, inl, inr,
}
use manga_hub.Exec.{Exec, caught, continue, ◌>>=◌}
use manga_hub.Cache.{
  Redis, Service, Payload, get_json, set_json, version, serve, load, read_through,
}

module _ (r : Redis) where
  abbrev pub Reads : {A : Type 0} → Exec (Service r) A → Type 0
  Reads m = (s : Service r) → (m s).1.store.tables ≡ s.store.tables

  get_json-Reads :
      {A : Type 0} (read : Payload → Option A) (key : String) → Reads (get_json r read key)
  unfolding get_json
  get_json-Reads read key s = elim (Option-cases s.cache) [
    | inl nil ↦ rw (nil, get_json) refl
    | inr (c, client) ↦ rw (client, get_json) refl
  ]

  set_json-Reads : (key : String) (value : Payload) (ttl : ℤ) → Reads (set_json r key value ttl)
  unfolding set_json
  set_json-Reads key value ttl s = elim (Option-cases s.cache) [
    | inl nil ↦ rw (nil, set_json) refl
    | inr (c, client) ↦ rw (client, set_json) refl
  ]

  pub version-Reads : (key : String) → Reads (version r key)
  unfolding version
  version-Reads key s = get_json-Reads _ key s

  continue-Reads :
      {A B : Type 0} (x : Result A × Service r) (f : A → Exec (Service r) B)
      → ((a : A) → Reads (f a))
      → (continue x.0 f x.1).1.store.tables ≡ x.1.store.tables
  continue-Reads (ok a, s) f next = next a s
  continue-Reads (err e, s) f next = refl

  pub bind-Reads :
      {A B : Type 0} (m : Exec (Service r) A) (f : A → Exec (Service r) B)
      → Reads m
      → ((a : A) → Reads (f a))
      → Reads (m >>= f)
  bind-Reads m f first next s = continue-Reads (m s) f next ∙ first s

  module _ {A : Type 0} (read : Payload → Option A) (write : A → Payload) (ttl : ℤ)
      (key : Exec (Service r) String) (source : Exec (Service r) A) (keyed : Reads key)
      (sourced : Reads source) where
    load-Reads : Reads (load r read write ttl key source)
    unfolding load
    load-Reads =
        bind-Reads source _ sourced
          λ a. bind-Reads key _ keyed λ k s. set_json-Reads k (write a) ttl s

    serve-Reads :
        (hit : Result (Option A))
        → Reads (serve r read write ttl (load r read write ttl key source) hit)
    unfolding serve
    serve-Reads (ok (some a)) s = refl
    serve-Reads (ok none) s = load-Reads s
    serve-Reads (err e) s = load-Reads s

    pub read_through-Reads : Reads (read_through r read write ttl key source)
    unfolding read_through
    read_through-Reads s = elim (Option-cases s.cache) [
      | inl nil ↦ rw (nil, read_through) (sourced s)
      | inr (c, client) ↦
          rw (client, read_through)
            (bind-Reads key _ keyed
              (λ k.
                bind-Reads (caught (get_json r read k))
                  (serve r read write ttl (load r read write ttl key source))
                  (get_json-Reads read k) serve-Reads)
              s)
    ]
