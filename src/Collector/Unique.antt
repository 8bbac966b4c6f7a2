-- ===== src/Collector/Unique.antt =====
-- The loops of helpers.go that keep the first of each kind: `uniqueNonEmpty` and `mergeAndDedupe`.
-- Their `seen` maps hold keys only.
pub mod Laws
use manga_hub.Prelude.{
  String, List, [], ◌∷◌, ◌++◌, Bool, true, false, ◌==◌, ◌||◌, if◌then◌else◌, any, Unicode,
  trim_space, to_lower,
}
use manga_hub.Models.{Manga}

unfoldable pub seen_key : String → List String → Bool
unfolding any
seen_key key seen = any (λ k. k == key) seen

module _ ⦃u : Unicode⦄ where
  abbrev pub tag_key : String → String
  tag_key item = to_lower (trim_space item)

  unfoldable pub unique_from : List String → List String → List String
  unfolding seen_key
  unique_from seen [] = []
  unique_from seen (item ∷ items) =
      let skipped = unique_from seen items in
      let taken = trim_space item ∷ unique_from (tag_key item ∷ seen) items in
      if trim_space item == ""
      then skipped
      else if seen_key (tag_key item) seen
      then skipped
      else taken

  -- uniqueNonEmpty
  unfoldable pub unique_non_empty : List String → List String
  unfolding unique_from
  unique_non_empty items = unique_from [] items

  abbrev pub title_key : Manga → String
  title_key m = to_lower (trim_space m.title)

  -- the closure `add` over a list, with the keys that were seen before
  unfoldable pub dedupe_from : List String → List Manga → List Manga
  unfolding seen_key
  dedupe_from seen [] = []
  dedupe_from seen (m ∷ ms) =
      let skipped = dedupe_from seen ms in
      let taken = m ∷ dedupe_from (title_key m ∷ seen) ms in
      if title_key m == "" then skipped else if seen_key (title_key m) seen then skipped else taken

  -- mergeAndDedupe
  unfoldable pub merge_and_dedupe : List Manga → List Manga → List Manga
  unfolding dedupe_from
  merge_and_dedupe a b = dedupe_from [] (a ++ b)
