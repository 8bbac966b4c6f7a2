-- ===== src/Cli/Library.antt =====
-- cmd/cli/commands/library: library_helpers.go, and the filter and the sections of library_list.go.
pub mod Laws
use manga_hub.Prelude.{
  ℤ, String, List, [], ◌∷◌, Bool, true, false, not, ◌==◌, ◌||◌, if◌then◌else◌, map, keep, Unicode,
  trim_space, to_lower, text_lt, is_nil,
}
use manga_hub.Prelude.Sorting.{sort_by}

pub record LibraryListItem : Type 0 where
  pub manga_id : String
  pub title : String
  pub current_chapter : ℤ
  pub status : String
  pub updated_at : String
  pub rating : ℤ
  pub started_at : String

module _ ⦃u : Unicode⦄ where
  unfoldable pub normalize_library_status : String → String
  normalize_library_status status =
      let s = to_lower (trim_space status) in
      if s == "completed"
      then "completed"
      else if s == "on-hold" || (s == "on hold" || (s == "on_hold" || s == "onhold"))
      then "on-hold"
      else if s == "dropped"
      then "dropped"
      else if s == "plan-to-read" || (s == "plan to read" || (s == "plantoread" || s == "planned"))
      then "plan_to_read"
      else "reading"

  abbrev pub is_section : String → Bool
  is_section s =
      s == "reading"
      || (s == "completed" || (s == "plan_to_read" || (s == "on-hold" || s == "dropped")))

  unfoldable pub is_allowed_library_status : String → Bool
  unfolding normalize_library_status
  is_allowed_library_status status = is_section (normalize_library_status status)

  abbrev directed : Bool → String → String → Bool
  directed desc a b = if desc then text_lt b a else text_lt a b

  -- strings.EqualFold with "desc": the letters that fold to its letters are theirs and the long s
  unfoldable pub is_desc : String → Bool
  is_desc order = to_lower order == "desc" || to_lower order == "deſc"

  -- the `less` of `sortLibraryEntries`
  unfoldable pub less : String → String → LibraryListItem → LibraryListItem → Bool
  unfolding is_desc
  less sort order a b =
      let desc = is_desc order in
      let by_id = text_lt a.manga_id b.manga_id in
      if sort == "title"
      then (if to_lower a.title == to_lower b.title
          then by_id
          else directed desc (to_lower a.title) (to_lower b.title))
      else if sort == "last-updated"
      then (if a.updated_at == b.updated_at then by_id else directed desc a.updated_at b.updated_at)
      else by_id

  unfoldable pub sort_library_entries :
      String → String → List LibraryListItem → List LibraryListItem
  unfolding less
  sort_library_entries sort order entries =
      if sort == "" then entries else sort_by (λ a b. not (less sort order b a)) entries

  -- the entries of the wanted status
  unfoldable pub filtered : String → List LibraryListItem → List LibraryListItem
  unfolding normalize_library_status
  filtered status entries =
      if status == ""
      then entries
      else keep (λ e. normalize_library_status e.status == normalize_library_status status) entries

  abbrev pub order_sections : List String
  order_sections = "reading" ∷ "completed" ∷ "plan_to_read" ∷ "on-hold" ∷ "dropped" ∷ []

  -- what is printed under one section
  unfoldable pub section : String → String → List LibraryListItem → String → List LibraryListItem
  unfolding normalize_library_status sort_library_entries
  section sort order entries name =
      sort_library_entries sort order
        (keep (λ e. normalize_library_status e.status == name) entries)

  -- the sections that have entries
  unfoldable pub sections :
      String → String → String → List LibraryListItem → List (String × List LibraryListItem)
  unfolding section filtered
  sections status sort order entries = shown order_sections
    where
      shown : List String → List (String × List LibraryListItem)
      shown [] = []
      shown (name ∷ names) =
          let rest = shown names in
          let list = section sort order (filtered status entries) name in
          if is_nil list then rest else (name, list) ∷ rest
