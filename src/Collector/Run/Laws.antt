-- ===== src/Collector/Run/Laws.antt =====
-- What a run of the collector writes to the seed file.
use mathlib.Core.Path.{subst}
use manga_hub.Prelude.{
  ℤ, String, List, [], ◌∷◌, ◌++◌, Bool, true, false, ◌==◌, ◌≡◌, refl, ap, sym, ◌∙◌, All, All-append,
  any, find, Result, ok, err, Error, none, some, Unicode, trim_space, to_lower, text_lt, ◌⊎◌, inl,
  inr, Bool-cases, Result-cases, arith, eq_iff,
}
use manga_hub.Prelude.Text.Laws.{text_lt_asym, text_lt_total}
use manga_hub.Prelude.Sorting.{insert_by, sort_by, any-insert_by, any-sort_by, find-sort_by, Single}
use manga_hub.Prelude.Sorting.Order.{Under, Chain, Before, sort_by-Chain, sort_by-All}
use manga_hub.Models.{Manga}
use manga_hub.Store.Sql.Keys.{Distinct, string_eq}
use manga_hub.Collector.Unique.{title_key, dedupe_from, merge_and_dedupe}
use manga_hub.Collector.Unique.Laws.{at, dedupe_from-Distinct, dedupe_from-All, find-dedupe_from}
use manga_hub.Collector.Clean.{sanitize_manga_list}
use manga_hub.Collector.Clean.Laws.{
  Normalised, sanitize_manga_list-Normalised, Normalised-sanitize_manga_list,
}
use manga_hub.Collector.Sources.{World, fetch_jikan_batch, fetch_mangadex_batch}
use manga_hub.Collector.Run.{
  Options, Files, Source, mangadex, jikan, other, source_of, sanitized, fetch_series, with_fallback,
  load_seed, sort_key, title_order, merged, seed_path, requested, store, collect,
}

module _ ⦃u : Unicode⦄ where
  title_order_total : (a b : Manga) → title_order a b ≡ false → title_order b a ≡ true
  title_order_total a b h = ground (arith, text_lt_asym (sort_key b) (sort_key a))

  insert_by-Distinct :
      (x : Manga) (xs : List Manga)
      → any (at (title_key x)) xs ≡ false
      → Distinct title_key xs
      → Distinct title_key (insert_by title_order x xs)
  unfolding insert_by any
  insert_by-Distinct x [] new d = (refl, tt)
  insert_by-Distinct x (y ∷ ys) new d = elim (Bool-cases (title_order x y)) [
    | inl here ↦ rw (here, insert_by) (new, d)
    | inr later ↦
        rw (later, insert_by)
          (
            ground (
              arith,
              any-insert_by (at (title_key y)) title_order x ys,
              d.0,
              eq_iff (title_key x) (title_key y),
              eq_iff (title_key y) (title_key x),
            ),
            insert_by-Distinct x ys (ground arith) d.1,
          )
  ]

  -- a strict order of lower-case titles
  abbrev pub Less : Manga → Manga → Type 0
  Less a b = text_lt (sort_key a) (sort_key b) ≡ true

  any-sorted : (p : Manga → Bool) (xs : List Manga) → any p (sort_by title_order xs) ≡ any p xs
  any-sorted p xs = any-sort_by p title_order xs

  sort_by-Distinct :
      (xs : List Manga) → Distinct title_key xs → Distinct title_key (sort_by title_order xs)
  unfolding sort_by
  sort_by-Distinct [] d = tt
  sort_by-Distinct (x ∷ xs) d =
      insert_by-Distinct x (sort_by title_order xs) (any-sorted (at (title_key x)) xs ∙ d.0)
        (sort_by-Distinct xs d.1)

  Distinct-Single : (key : String) (xs : List Manga) → Distinct title_key xs → Single (at key) xs
  Distinct-Single key [] d = tt
  Distinct-Single key (x ∷ xs) d = (
    λ h. subst (λ k. any (at k) xs ≡ false) ((eq_iff (title_key x) key).0 h) d.0,
    Distinct-Single key xs d.1,
  )

  normal_key : (m : Manga) → Normalised m → title_key m ≡ sort_key m
  normal_key m n = ap to_lower n.trimmed

  less :
      (a b : Manga)
      → Normalised a
      → Normalised b
      → (title_key b == title_key a) ≡ false
      → title_order a b ≡ true
      → Less a b
  less a b na nb differ ordered =
      text_lt_total (sort_key a) (sort_key b)
        (ground (
          arith,
          normal_key a na,
          normal_key b nb,
          eq_iff (sort_key a) (sort_key b),
          eq_iff (title_key b) (title_key a),
        ))
        (ground arith)

  less-Under :
      (m : Manga) (ms : List Manga)
      → Normalised m
      → All Normalised ms
      → any (at (title_key m)) ms ≡ false
      → Under (Before title_order) m ms
      → Under Less m ms
  unfolding any
  less-Under m [] nm ns new under = tt
  less-Under m (x ∷ xs) nm ns new under = less m x nm ns.0 (ground arith) under

  Chain-Less :
      (ms : List Manga)
      → All Normalised ms
      → Distinct title_key ms
      → Chain (Before title_order) ms
      → Chain Less ms
  Chain-Less [] ns d chain = tt
  Chain-Less (m ∷ ms) ns d chain =
      (less-Under m ms ns.0 ns.1 d.0 chain.0, Chain-Less ms ns.1 d.1 chain.1)

  merged-Distinct : (a b : List Manga) → Distinct title_key (merged a b)
  unfolding merged merge_and_dedupe
  merged-Distinct a b =
      sort_by-Distinct (dedupe_from [] (a ++ b)) (dedupe_from-Distinct [] (a ++ b))

  merged-Normalised :
      (a b : List Manga) → All Normalised a → All Normalised b → All Normalised (merged a b)
  unfolding merged merge_and_dedupe
  merged-Normalised a b na nb =
      sort_by-All title_order Normalised (dedupe_from [] (a ++ b))
        (dedupe_from-All Normalised [] (a ++ b) (All-append Normalised a b na nb))

  merged-Less : (a b : List Manga) → All Normalised a → All Normalised b → Chain Less (merged a b)
  unfolding merged
  merged-Less a b na nb =
      Chain-Less (merged a b) (merged-Normalised a b na nb) (merged-Distinct a b)
        (sort_by-Chain title_order title_order_total (merge_and_dedupe a b))

  -- a title's manga is the first of the two lists
  find-merged :
      (key : String) (a b : List Manga)
      → (key == "") ≡ false
      → find (at key) (merged a b) ≡ find (at key) (a ++ b)
  unfolding merged merge_and_dedupe any find
  find-merged key a b solid =
      find-sort_by (at key) title_order (dedupe_from [] (a ++ b))
        (Distinct-Single key (dedupe_from [] (a ++ b)) (dedupe_from-Distinct [] (a ++ b)))
      ∙ find-dedupe_from key [] (a ++ b) solid refl

  -- an error, or a list of clean manga
  abbrev Clean : Result (List Manga) → Type 0
  Clean (ok ms) = All Normalised ms
  Clean (err e) = Unit

  abbrev CleanPair : Result (List Manga × String) → Type 0
  CleanPair (ok (ms, source)) = All Normalised ms
  CleanPair (err e) = Unit

  load_seed-Clean : (files : Files) (path : String) → Clean (load_seed files path)
  unfolding load_seed
  load_seed-Clean files path = elim (Result-cases (files.read path)) [
    | inl (none, missing) ↦ rw (missing, load_seed, Clean) tt
    | inl (some items, found) ↦ rw (found, load_seed, Clean) (sanitize_manga_list-Normalised items)
    | inr (e, failed) ↦ rw (failed, load_seed, Clean) tt
  ]

  with_fallback-CleanPair : (a b : Result (List Manga)) → CleanPair (with_fallback a b)
  unfolding with_fallback
  with_fallback-CleanPair (ok items) b = sanitize_manga_list-Normalised items
  with_fallback-CleanPair (err e) (ok items) = sanitize_manga_list-Normalised items
  with_fallback-CleanPair (err e) (err f) = tt

  sanitized-CleanPair : (name : String) (a : Result (List Manga)) → CleanPair (sanitized name a)
  sanitized-CleanPair name (ok items) = sanitize_manga_list-Normalised items
  sanitized-CleanPair name (err e) = tt

  source_cases : (s : Source) → (s ≡ mangadex) ⊎ ((s ≡ jikan) ⊎ (s ≡ other))
  source_cases mangadex = inl refl
  source_cases jikan = inr (inl refl)
  source_cases other = inr (inr refl)

  fetch_series-CleanPair :
      (w : World) (source : String) (limit : ℤ) → CleanPair (fetch_series w source limit)
  unfolding fetch_series
  fetch_series-CleanPair w source limit = elim (source_cases (source_of source)) [
    | inl e ↦
        rw (e, fetch_series)
          (with_fallback-CleanPair (fetch_mangadex_batch w limit) (fetch_jikan_batch w limit))
    | inr (inl e) ↦ rw (e, fetch_series) (sanitized-CleanPair "jikan" (fetch_jikan_batch w limit))
    | inr (inr e) ↦ rw (e, fetch_series, CleanPair) tt
  ]

  some_pair : (p q : String × List Manga) → some p ≡ some q → (q.0 ≡ p.0) × (q.1 ≡ p.1)
  some_pair p q h = ground arith

  store-writes :
      (files : Files) (opts : Options) (existing : List Manga) (fetched : List Manga × String)
      → (store files opts existing fetched).1 ≡ some (seed_path opts, merged existing fetched.0)
  unfolding store
  store-writes files opts existing fetched =
      elim (Result-cases (files.write (seed_path opts) (merged existing fetched.0))) [
        | inl (done, e) ↦ rw (e, store) refl
        | inr (x, e) ↦ rw (e, store) refl
      ]

  collect-no_seed :
      (w : World) (files : Files) (opts : Options) (e : Error)
      → load_seed files (seed_path opts) ≡ err e
      → collect w files opts ≡ (err e, none)
  unfolding collect
  collect-no_seed w files opts e failed = rw (failed, collect) refl

  collect-no_fetch :
      (w : World) (files : Files) (opts : Options) (existing : List Manga) (e : Error)
      → load_seed files (seed_path opts) ≡ ok existing
      → fetch_series w (trim_space opts.source) (requested opts) ≡ err e
      → collect w files opts ≡ (err e, none)
  unfolding collect
  collect-no_fetch w files opts existing e loaded failed = rw (loaded, collect) (rw failed refl)

  collect-store :
      (w : World) (files : Files) (opts : Options) (existing : List Manga)
      (fetched : List Manga × String)
      → load_seed files (seed_path opts) ≡ ok existing
      → fetch_series w (trim_space opts.source) (requested opts) ≡ ok fetched
      → collect w files opts ≡ store files opts existing fetched
  unfolding collect
  collect-store w files opts existing fetched loaded got = rw (loaded, collect) (rw got refl)

  ok_path : (a b : List Manga) → ok a ≡ ok b → a ≡ b
  ok_path a b h = ground arith

  -- the two lists of a run that came to write
  collect-inversion :
      (w : World) (files : Files) (opts : Options) (path : String) (ms : List Manga)
      → (collect w files opts).1 ≡ some (path, ms)
      → (existing : List Manga) × (fetched : List Manga × String) × (load_seed files
            (seed_path opts)
          ≡ ok existing)
        × (fetch_series w (trim_space opts.source) (requested opts) ≡ ok fetched)
        × (path ≡ seed_path opts)
        × (ms ≡ merged existing fetched.0)
  collect-inversion w files opts path ms h =
      elim (Result-cases (load_seed files (seed_path opts))) [
        | inr (e, failed) ↦ ground (arith, collect-no_seed w files opts e failed)
        | inl (existing, loaded) ↦
            elim (Result-cases (fetch_series w (trim_space opts.source) (requested opts))) [
              | inr (e, failed) ↦
                  ground (arith, collect-no_fetch w files opts existing e loaded failed)
              | inl (fetched, got) ↦
                  let wrote = collect-store w files opts existing fetched loaded got in
                  let p =
                    some_pair (seed_path opts, merged existing fetched.0) (path, ms)
                      (sym (store-writes files opts existing fetched)
                        ∙ (sym (ap (λ x. x.1) wrote) ∙ h)) in
                  (existing, fetched, loaded, got, p.0, p.1)
            ]
      ]

  Clean-list : (r : Result (List Manga)) (ms : List Manga) → r ≡ ok ms → Clean r → All Normalised ms
  Clean-list r ms h c = subst Clean h c

  clean_pair :
      (r : Result (List Manga × String)) (got : List Manga × String)
      → r ≡ ok got
      → CleanPair r
      → All Normalised got.0
  clean_pair r got h c = subst CleanPair h c

  -- What a run writes is one list for its seed file: every manga is clean, the lower-case titles
  -- ascend strictly, and the next run loads the list as it was written.
  pub collect-Normalised :
      (w : World) (files : Files) (opts : Options) (path : String) (ms : List Manga)
      → (collect w files opts).1 ≡ some (path, ms)
      → (path ≡ seed_path opts) × All Normalised ms × Chain Less ms × (sanitize_manga_list ms ≡ ms)
  collect-Normalised w files opts path ms h =
      let (existing, fetched, loaded, got, at_path, all) =
        collect-inversion w files opts path ms h in
      let a =
        Clean-list (load_seed files (seed_path opts)) existing loaded
          (load_seed-Clean files (seed_path opts)) in
      let b =
        clean_pair (fetch_series w (trim_space opts.source) (requested opts)) fetched got
          (fetch_series-CleanPair w (trim_space opts.source) (requested opts)) in
      let clean = merged-Normalised existing fetched.0 a b in
      (
        at_path,
        subst (All Normalised) (sym all) clean,
        subst (Chain Less) (sym all) (merged-Less existing fetched.0 a b),
        Normalised-sanitize_manga_list ms (subst (All Normalised) (sym all) clean),
      )

  find-append :
      (p : Manga → Bool) (xs ys : List Manga) (m : Manga)
      → find p xs ≡ some m
      → find p (xs ++ ys) ≡ some m
  unfolding find
  find-append p [] ys m h = ground arith
  find-append p (x ∷ xs) ys m h = ground (arith, find-append p xs ys m)

  load_seed-as_read :
      (files : Files) (path : String) (existing : List Manga)
      → files.read path ≡ ok (some existing)
      → All Normalised existing
      → load_seed files path ≡ ok existing
  unfolding load_seed
  load_seed-as_read files path existing found clean =
      rw (found, load_seed) (ap ok (Normalised-sanitize_manga_list existing clean))

  -- Where the seed file holds clean manga only, as a run writes them, a run that writes keeps the first
  -- manga of every title that the seed file had.
  pub collect-keeps :
      (w : World) (files : Files) (opts : Options) (path : String) (existing ms : List Manga)
      → files.read (seed_path opts) ≡ ok (some existing)
      → All Normalised existing
      → (collect w files opts).1 ≡ some (path, ms)
      → (key : String) (m : Manga) → (key == "") ≡ false
      → find (at key) existing ≡ some m
      → find (at key) ms ≡ some m
  collect-keeps w files opts path existing ms found clean h key m solid old =
      let loaded = load_seed-as_read files (seed_path opts) existing found clean in
      let (existing', fetched, loaded', got, at_path, all) =
        collect-inversion w files opts path ms h in
      let same = ok_path existing' existing (sym loaded' ∙ loaded) in
      subst (λ l. find (at key) l ≡ some m) (sym all)
        (find-merged key existing' fetched.0 solid
          ∙ find-append (at key) existing' fetched.0 m
              (subst (λ l. find (at key) l ≡ some m) (sym same) old))

  -- A run writes nothing just where the seed file cannot be read or no service answers, and then it
  -- returns that error.
  pub collect-error :
      (w : World) (files : Files) (opts : Options)
      → ((e : Error) × (collect w files opts ≡ (err e, none))
          × ((load_seed files (seed_path opts) ≡ err e)
              ⊎ (fetch_series w (trim_space opts.source) (requested opts) ≡ err e)))
        ⊎ ((ms : List Manga) × ((collect w files opts).1 ≡ some (seed_path opts, ms)))
  collect-error w files opts = elim (Result-cases (load_seed files (seed_path opts))) [
    | inr (e, failed) ↦ inl (e, collect-no_seed w files opts e failed, inl failed)
    | inl (existing, loaded) ↦
        elim (Result-cases (fetch_series w (trim_space opts.source) (requested opts))) [
          | inr (e, failed) ↦
              inl (e, collect-no_fetch w files opts existing e loaded failed, inr failed)
          | inl (fetched, got) ↦ inr (
            merged existing fetched.0,
            ap (λ x. x.1) (collect-store w files opts existing fetched loaded got)
                ∙ store-writes files opts existing fetched,
          )
        ]
  ]
