-- ===== src/Collector/Run.antt =====
-- collect.go: `Collect` and `fetchSeries`. Reading the seed file gives `none` where it does not
-- exist; what is written to it is an output.
pub mod Laws
use manga_hub.Prelude.{
  ℕ, ℤ, pos, le_ℤ, String, List, [], ◌∷◌, ◌++◌, Bool, not, ◌==◌, ◌||◌, if◌then◌else◌, Result, ok,
  err, Error, both_failed, unsupported_source, Option, none, some, length, Unicode, trim_space,
  to_lower, text_lt,
}
use manga_hub.Prelude.Sorting.{sort_by}
use manga_hub.Models.{Manga}
use manga_hub.Collector.Unique.{merge_and_dedupe}
use manga_hub.Collector.Clean.{sanitize_manga_list}
use manga_hub.Collector.Sources.{World, fetch_jikan_batch, fetch_mangadex_batch}

pub record Options : Type 0 where
  pub seed_file : String
  pub source : String
  pub limit : ℤ

pub record Collected : Type 0 where
  pub source : String
  pub requested_limit : ℤ
  pub fetched_count : ℕ
  pub existing_count : ℕ
  pub final_count : ℕ

-- loadSeed and writeJSON on the seed file's path
pub record Files : Type 0 where
  pub read : String → Result (Option (List Manga))
  pub write : String → List Manga → Result (Unit {0})

-- what a run wrote, if it came to that
abbrev pub Written : Type 0
Written = Option (String × List Manga)

-- the switch on the source
pub data Source : Type 0 where
  mangadex jikan other : Source

module _ ⦃u : Unicode⦄ where
  unfoldable pub source_of : String → Source
  source_of source =
      let s = to_lower (trim_space source) in
      if s == "" || s == "mangadex" then mangadex else if s == "jikan" then jikan else other

  abbrev pub sanitized : String → Result (List Manga) → Result (List Manga × String)
  sanitized name (ok items) = ok (sanitize_manga_list items, name)
  sanitized name (err e) = err e

  -- MangaDex, and Jikan where that fails
  unfoldable pub with_fallback :
      Result (List Manga) → Result (List Manga) → Result (List Manga × String)
  unfolding sanitize_manga_list
  with_fallback (ok items) fallback = ok (sanitize_manga_list items, "mangadex")
  with_fallback (err e) (ok items) = ok (sanitize_manga_list items, "jikan")
  with_fallback (err e) (err f) = err (both_failed e f)

  unfoldable pub fetch_series : World → String → ℤ → Result (List Manga × String)
  unfolding source_of with_fallback fetch_jikan_batch fetch_mangadex_batch sanitize_manga_list
  fetch_series w source limit = elim (source_of source) [
    | mangadex ↦ with_fallback (fetch_mangadex_batch w limit) (fetch_jikan_batch w limit)
    | jikan ↦ sanitized "jikan" (fetch_jikan_batch w limit)
    | other ↦ err (unsupported_source (to_lower (trim_space source)))
  ]

  -- a seed file that does not exist is an empty list
  unfoldable pub load_seed : Files → String → Result (List Manga)
  unfolding sanitize_manga_list
  load_seed files path = elim (files.read path) [
    | err e ↦ err e
    | ok none ↦ ok []
    | ok (some items) ↦ ok (sanitize_manga_list items)
  ]

  abbrev pub sort_key : Manga → String
  sort_key m = to_lower m.title

  -- `a` may stand before `b` unless `b` is less
  abbrev pub title_order : Manga → Manga → Bool
  title_order a b = not (text_lt (sort_key b) (sort_key a))

  unfoldable pub merged : List Manga → List Manga → List Manga
  unfolding merge_and_dedupe
  merged existing fetched = sort_by title_order (merge_and_dedupe existing fetched)

  abbrev pub seed_path : Options → String
  seed_path opts = let p = trim_space opts.seed_file in if p == "" then "manga.sample.json" else p

  abbrev pub requested : Options → ℤ
  requested opts = if le_ℤ opts.limit (pos 0) then pos 100 else opts.limit

  unfoldable pub store :
      Files → Options → List Manga → List Manga × String → Result Collected × Written
  unfolding merged
  store files opts existing (fetched, source) =
      let all = merged existing fetched in
      elim (files.write (seed_path opts) all) [
        | err e ↦ (err e, some (seed_path opts, all))
        | ok _ ↦ (
          ok (record {
            source = source;
            requested_limit = requested opts;
            fetched_count = length fetched;
            existing_count = length existing;
            final_count = length all;
          }),
          some (seed_path opts, all),
        )
      ]

  unfoldable pub collect : World → Files → Options → Result Collected × Written
  unfolding load_seed fetch_series store
  collect w files opts = elim (load_seed files (seed_path opts)) [
    | err e ↦ (err e, none)
    | ok existing ↦ elim (fetch_series w (trim_space opts.source) (requested opts)) [
      | err e ↦ (err e, none)
      | ok fetched ↦ store files opts existing fetched
    ]
  ]
