-- ===== src/Collector/Clean.antt =====
-- normalizeManga and sanitizeMangaList of helpers.go.
pub mod Laws
use manga_hub.Prelude.{
  ℤ, pos, lt_ℤ, String, List, [], ◌∷◌, Bool, ◌==◌, ◌||◌, if◌then◌else◌, Option, none, some, Unicode,
  trim_space, to_lower, is_nil,
}
use manga_hub.Models.{Manga}
use manga_hub.Collector.Unique.{unique_non_empty}

module _ ⦃u : Unicode⦄ where
  -- a status that is not one of the four is "ongoing"
  unfoldable pub normal_status : String → String
  normal_status status =
      let s = to_lower (trim_space status) in
      if s == "ongoing" || (s == "completed" || (s == "hiatus" || s == "cancelled"))
      then s
      else "ongoing"

  unfoldable pub cleaned : Manga → Manga
  unfolding normal_status unique_non_empty
  cleaned m = record m {
    title = trim_space m.title;
    author = trim_space m.author;
    description = trim_space m.description;
    cover_url = trim_space m.cover_url;
    genres = unique_non_empty m.genres;
    total_chapters = if lt_ℤ m.total_chapters (pos 0) then pos 0 else m.total_chapters;
    status = normal_status m.status;
  }

  -- `none` is the result `false`
  unfoldable pub normalize_manga : Manga → Option Manga
  unfolding cleaned
  normalize_manga m =
      let c = cleaned m in
      if c.title == "" || (c.author == "" || c.description == "")
      then none
      else if is_nil c.genres
      then none
      else some c

  unfoldable pub sanitize_manga_list : List Manga → List Manga
  unfolding normalize_manga
  sanitize_manga_list [] = []
  sanitize_manga_list (m ∷ ms) = elim (normalize_manga m) [
    | none ↦ sanitize_manga_list ms
    | some n ↦ n ∷ sanitize_manga_list ms
  ]
