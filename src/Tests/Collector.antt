-- ===== src/Tests/Collector.antt =====
-- The collector's theorems at concrete inputs.
use manga_hub.Prelude.{
  ℕ, zero, suc, pos, List, [], ◌∷◌, ◌≡◌, refl, All, find, ok, err, failure, some, length,
  trim_space, to_lower, any, ascii, itoa,
}
use manga_hub.Prelude.Sorting.{sort_by, insert_by}
use manga_hub.Prelude.Sorting.Order.{Chain}
use manga_hub.Models.{Manga}
use manga_hub.Store.Sql.Keys.{Distinct, string_eq}
use manga_hub.Collector.Unique.{
  seen_key, unique_from, unique_non_empty, title_key, dedupe_from, merge_and_dedupe,
}
use manga_hub.Collector.Unique.Laws.{at, merge_and_dedupe-first}
use manga_hub.Collector.Clean.{normal_status, cleaned, normalize_manga, sanitize_manga_list}
use manga_hub.Collector.Clean.Laws.{Normalised}
use manga_hub.Collector.Cut.{trim_to}
use manga_hub.Collector.Sources.{
  World, JikanItem, trimmed, jikan_title, jikan_manga, jikan_results, jikan_pages, page_count,
  fetch_jikan_batch, dex_groups, per_group, fetch_mangadex_batch,
}
use manga_hub.Collector.Sources.Paging.{Full, fetch_jikan_batch-full}
use manga_hub.Collector.Run.{
  Options, Files, source_of, with_fallback, fetch_series, load_seed, merged, seed_path, store,
  collect,
}
use mathlib.Core.Path.{subst}
use manga_hub.Collector.Clean.Laws.{sanitize_manga_list-Normalised}
use manga_hub.Collector.Run.Laws.{Less, collect-Normalised, collect-keeps}

abbrev bleach_item : JikanItem
bleach_item = record {
  mal_id = pos 269;
  status = "Completed";
  chapters = pos 705;
  synopsis = "Ichigo.";
  title = "Bleach ";
  title_english = "";
  authors = "Kubo" ∷ [];
  genres = "Action" ∷ [];
  demographics = "Shounen" ∷ "action" ∷ [];
}

-- Jikan has one item on each page, and MangaDex does not answer
abbrev world : World
world = record {
  jikan = λ page limit. ok (bleach_item ∷ []);
  mangadex = λ demographic limit. err (failure "timeout");
  bytes = λ s. [];
  text_of = λ bs. "Ichigo.";
  title_case = λ s. s;
}

abbrev naruto : Manga
naruto = record {
  id = "n";
  title = " Naruto";
  author = "Kishimoto";
  genres = "Action" ∷ " " ∷ [];
  status = "Ended";
  year = pos 1999;
  rating = pos 0;
  popularity = pos 0;
  total_chapters = pos 700;
  description = "Ninja.";
  cover_url = "";
}

abbrev clean_naruto : Manga
clean_naruto = record naruto { title = "Naruto"; genres = "Action" ∷ []; status = "ongoing" }

abbrev bleach : Manga
bleach = record {
  id = "269";
  title = "Bleach";
  author = "Kubo";
  genres = "Action" ∷ "Shounen" ∷ [];
  status = "completed";
  year = pos 0;
  rating = pos 0;
  popularity = pos 0;
  total_chapters = pos 705;
  description = "Ichigo.";
  cover_url = "";
}

abbrev files : Files
files = record { read = λ path. ok (some (naruto ∷ [])); write = λ path ms. ok tt }

abbrev options : Options
options = record { seed_file = ""; source = "MangaDex"; limit = pos 1 }

abbrev result : List Manga
result = bleach ∷ clean_naruto ∷ []

run_writes : (collect world files options).1 ≡ some ("manga.sample.json", result)
unfolding collect load_seed fetch_series store merged source_of with_fallback fetch_mangadex_batch
    fetch_jikan_batch sanitize_manga_list normalize_manga cleaned normal_status unique_non_empty
    unique_from seen_key any trim_space to_lower dex_groups per_group jikan_pages page_count
    jikan_results jikan_manga jikan_title trimmed trim_to merge_and_dedupe dedupe_from sort_by
    insert_by itoa
run_writes = refl

collect-Normalised_example :
    ("manga.sample.json" ≡ seed_path options)
    × All Normalised result
    × Chain Less result
    × (sanitize_manga_list result ≡ result)
collect-Normalised_example =
    collect-Normalised world files options "manga.sample.json" result run_writes

-- the seed file as a run left it
abbrev kept_files : Files
kept_files = record { read = λ path. ok (some (clean_naruto ∷ [])); write = λ path ms. ok tt }

next_writes : (collect world kept_files options).1 ≡ some ("manga.sample.json", result)
unfolding collect load_seed fetch_series store merged source_of with_fallback fetch_mangadex_batch
    fetch_jikan_batch sanitize_manga_list normalize_manga cleaned normal_status unique_non_empty
    unique_from seen_key any trim_space to_lower dex_groups per_group jikan_pages page_count
    jikan_results jikan_manga jikan_title trimmed trim_to merge_and_dedupe dedupe_from sort_by
    insert_by itoa
next_writes = refl

naruto_sanitized : sanitize_manga_list (naruto ∷ []) ≡ clean_naruto ∷ []
unfolding sanitize_manga_list normalize_manga cleaned normal_status unique_non_empty unique_from
    seen_key any trim_space to_lower
naruto_sanitized = refl

naruto_clean : All Normalised (clean_naruto ∷ [])
naruto_clean =
    subst (All Normalised) naruto_sanitized (sanitize_manga_list-Normalised (naruto ∷ []))

naruto_found : find (at "naruto") (clean_naruto ∷ []) ≡ some clean_naruto
unfolding find trim_space to_lower
naruto_found = refl

collect-keeps_example : find (at "naruto") result ≡ some clean_naruto
collect-keeps_example =
    collect-keeps world kept_files options "manga.sample.json" (clean_naruto ∷ []) result refl
      naruto_clean next_writes "naruto" clean_naruto refl naruto_found

abbrev twin : Manga
twin = record bleach { title = "NARUTO " }

merge_and_dedupe-first_example :
    (find (at "naruto") (merge_and_dedupe (clean_naruto ∷ []) (bleach ∷ twin ∷ []))
      ≡ find (at "naruto") (clean_naruto ∷ bleach ∷ twin ∷ []))
    × Distinct title_key (merge_and_dedupe (clean_naruto ∷ []) (bleach ∷ twin ∷ []))
merge_and_dedupe-first_example =
    merge_and_dedupe-first (clean_naruto ∷ []) (bleach ∷ twin ∷ []) "naruto" refl

-- a Jikan whose pages are full
abbrev copies : ℕ → List JikanItem
copies zero = []
copies (suc n) = bleach_item ∷ copies n

abbrev full_world : World
full_world = record world { jikan = λ page limit. ok (copies limit) }

twenty_five : length (jikan_results full_world (copies 25)) ≡ 25
unfolding jikan_results jikan_title trim_space
twenty_five = refl

every_page : Full full_world
every_page = λ page. (copies 25, refl, twenty_five)

fetch_jikan_batch-full_example :
    (items : List Manga) × (fetch_jikan_batch full_world (pos 30) ≡ ok items) × (length items ≡ 30)
fetch_jikan_batch-full_example = fetch_jikan_batch-full full_world (pos 30) every_page
