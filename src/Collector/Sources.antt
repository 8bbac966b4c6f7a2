-- ===== src/Collector/Sources.antt =====
-- jikan.go and mangadex.go: the batches, and the manga that a decoded item becomes. One HTTP call
-- with its decoding is a parameter: a page of Jikan, a group of MangaDex. So are a text's UTF-8
-- bytes, what the seed file makes of the bytes of a cut text, and cases.Title.
pub mod Paging
use manga_hub.Prelude.{
  ℕ, zero, suc, ◌+◌, ◌/◌, ◌%◌, eqb, ℤ, pos, pos_part, lt_ℤ, le_ℤ, String, List, [], ◌∷◌, ◌++◌, map,
  Bool, ◌==◌, ◌&&◌, if◌then◌else◌, ltb, Result, ok, err, Error, Option, none, some, length, take,
  Unicode, trim_space, to_lower, itoa,
}
use manga_hub.Models.{Manga}
use manga_hub.Collector.Unique.{unique_non_empty}
use manga_hub.Collector.Cut.{trim_to}
use manga_hub.Collector.Json.{
  Json, text, Fields, Relationship, get, as_text, pick_localized_text, extract_author,
  extract_tag_names,
}

pub record JikanItem : Type 0 where
  pub mal_id : ℤ
  pub status : String
  pub chapters : ℤ
  pub synopsis : String
  pub title : String
  pub title_english : String
  pub authors : List String
  pub genres : List String
  pub demographics : List String

pub record DexItem : Type 0 where
  pub id : String
  pub attributes : Fields
  pub relationships : List Relationship

-- the two services, with what Go and its libraries do to texts
pub record World : Type 0 where
  pub jikan : ℕ → ℕ → Result (List JikanItem)
  pub mangadex : String → ℕ → Result (List DexItem)
  pub bytes : String → List ℕ
  pub text_of : List ℕ → String
  pub title_case : String → String

abbrev pub or_text : String → String → String
or_text s fallback = if s == "" then fallback else s

-- the names that are not blank, trimmed
unfoldable pub trimmed : List String → List String
trimmed [] = []
trimmed (name ∷ names) =
    let rest = trimmed names in if trim_space name == "" then rest else trim_space name ∷ rest

-- no limit of the code is negative
abbrev cut : World → String → String
cut w s = elim (trim_to (w.bytes s) (pos 280)) [ ok bs ↦ w.text_of bs | err e ↦ s ]

abbrev pub map_result : {A B : Type 0} → (A → B) → Result A → Result B
map_result f (ok a) = ok (f a)
map_result f (err e) = err e

abbrev pub after : Result (List Manga) → Result (List Manga) → Result (List Manga)
after (err e) rest = err e
after (ok batch) (err e) = err e
after (ok batch) (ok more) = ok (batch ++ more)

-- total / 25, rounded up
unfoldable pub page_count : ℕ → ℕ
page_count total = if eqb (total % 25) 0 then total / 25 else total / 25 + 1

-- items[:total] where there are more
abbrev pub first : ℕ → List Manga → List Manga
first total items = if ltb total (length items) then take total items else items

abbrev pub demographics : List String
demographics = "shounen" ∷ "shoujo" ∷ "seinen" ∷ "josei" ∷ []

-- a quarter of the limit, and 25 where that is nothing
unfoldable pub per_group : ℤ → ℕ
per_group limit =
    if lt_ℤ (pos 0) limit && ltb 0 (pos_part limit / 4) then pos_part limit / 4 else 25

module _ ⦃u : Unicode⦄ (w : World) where
  abbrev first_author : List String → String
  first_author [] = "Unknown"
  first_author (a ∷ _) = or_text (trim_space a) "Unknown"

  unfoldable pub jikan_title : JikanItem → String
  jikan_title item =
      let t = trim_space item.title in if t == "" then trim_space item.title_english else t

  unfoldable pub jikan_manga : JikanItem → Manga
  unfolding jikan_title trimmed unique_non_empty trim_to
  jikan_manga item = record {
    id = itoa item.mal_id;
    title = jikan_title item;
    author = first_author item.authors;
    genres = unique_non_empty (trimmed item.genres ++ trimmed item.demographics);
    status = or_text (to_lower (trim_space item.status)) "ongoing";
    year = pos 0;
    rating = pos 0;
    popularity = pos 0;
    total_chapters = item.chapters;
    description = cut w (or_text (trim_space item.synopsis) "No description from API.");
    cover_url = "";
  }

  -- the loop of fetchJikanPage over the decoded items
  unfoldable pub jikan_results : List JikanItem → List Manga
  unfolding jikan_manga
  jikan_results [] = []
  jikan_results (item ∷ items) =
      let rest = jikan_results items in
      if jikan_title item == "" then rest else jikan_manga item ∷ rest

  -- `count` pages from `page` on; a page that fails ends the loop
  unfoldable pub jikan_pages : ℕ → ℕ → Result (List Manga)
  unfolding jikan_results
  jikan_pages zero page = ok []
  jikan_pages (suc count) page =
      after (map_result jikan_results (w.jikan page 25)) (jikan_pages count (suc page))

  -- fetchJikanBatch
  unfoldable pub fetch_jikan_batch : ℤ → Result (List Manga)
  unfolding jikan_pages page_count
  fetch_jikan_batch limit =
      let total : ℕ = if le_ℤ limit (pos 0) then 100 else pos_part limit in
      map_result (first total) (jikan_pages (page_count total) 1)

  unfoldable pub dex_manga : String → DexItem → Manga
  unfolding pick_localized_text extract_author extract_tag_names unique_non_empty trim_to get
      as_text
  dex_manga demographic item = record {
    id = item.id;
    title = pick_localized_text item.attributes "title";
    author = or_text (extract_author item.relationships) "Unknown";
    genres = unique_non_empty (extract_tag_names item.attributes ++ w.title_case demographic ∷ []);
    status =
        to_lower (elim (as_text (get "status" item.attributes)) [ none ↦ "ongoing" | some s ↦ s ]);
    year = pos 0;
    rating = pos 0;
    popularity = pos 0;
    total_chapters = pos 0;
    description =
        cut w
          (or_text (pick_localized_text item.attributes "description") "No description from API.");
    cover_url = "";
  }

  unfoldable pub dex_results : String → List DexItem → List Manga
  unfolding dex_manga
  dex_results demographic [] = []
  dex_results demographic (item ∷ items) =
      let rest = dex_results demographic items in
      let m = dex_manga demographic item in if m.title == "" then rest else m ∷ rest

  unfoldable pub dex_groups : ℕ → List String → Result (List Manga)
  unfolding dex_results
  dex_groups per_group [] = ok []
  dex_groups per_group (d ∷ ds) =
      after (map_result (dex_results d) (w.mangadex d per_group)) (dex_groups per_group ds)

  -- fetchMangaDexBatch; `make` with a negative capacity is not reached, since Collect passes a
  -- positive limit
  unfoldable pub fetch_mangadex_batch : ℤ → Result (List Manga)
  unfolding dex_groups per_group
  fetch_mangadex_batch limit =
      map_result (λ items. if lt_ℤ (pos 0) limit then first (pos_part limit) items else items)
        (dex_groups (per_group limit) demographics)
