-- ===== src/Store/Listing.antt =====
-- `ListManga` and `buildMangaOrder` of pkg/database/manga_repository.go. What SQLite makes of MATCH
-- on the full-text table, of LOWER and of LIKE on the JSON text of the genres are parameters.
pub mod Pages
use Prim.Native.String.{◌++◌ as str_append}
use manga_hub.Prelude.{
  ℕ, ◌+◌, ◌-◌, ◌*◌, ◌%◌, ltb, ℤ, pos, pos_part, lt_ℤ, le_ℤ, eq_ℤ, String, List, [], ◌∷◌, Bool, true,
  false, not, ◌==◌, ◌&&◌, ◌||◌, if◌then◌else◌, Result, ok, err, keep, take, skip, Unicode,
  trim_space, to_lower, text_lt,
}
use manga_hub.Prelude.Sorting.{sort_by}
use manga_hub.Models.{Manga, MangaQuery, SearchFilters}
use manga_hub.Exec.{Exec}
use manga_hub.Store.Tables.{Store, statement}

-- the rows that match a full-text query, or its syntax error
pub record Sqlite : Type 0 where
  pub matching : String → Result (Manga → Bool)
  pub lower : String → String
  pub genres_like : String → Manga → Bool

abbrev descending : ℤ → ℤ → Bool → Bool
descending a b ties = lt_ℤ b a || (eq_ℤ a b && ties)

-- the limit and the page that a query gets, and the offset: an `int`, where OFFSET below 0 is 0
unfoldable pub manga_limit : ℤ → ℕ
manga_limit limit = if le_ℤ limit (pos 0) || lt_ℤ (pos 100) limit then 20 else pos_part limit

unfoldable pub manga_page : ℤ → ℕ
manga_page page = if le_ℤ page (pos 0) then 1 else pos_part page

unfoldable pub manga_offset : ℕ → ℕ → ℕ
manga_offset limit page =
    let product = ((page - 1) * limit) % 18446744073709551616 in
    if ltb product 9223372036854775808 then product else 0

-- LIMIT ? OFFSET ?
unfoldable pub page_rows : ℕ → ℕ → List Manga → List Manga
unfolding manga_offset
page_rows limit page rows = take limit (skip (manga_offset limit page) rows)

module _ ⦃u : Unicode⦄ where
  -- `buildMangaOrder`
  unfoldable pub manga_order : String → Manga → Manga → Bool
  manga_order sort a b =
      let key = to_lower (trim_space sort) in
      let by_title = not (text_lt b.title a.title) in
      if key == "popularity"
      then descending a.popularity b.popularity (descending a.rating b.rating by_title)
      else if key == "rating"
      then descending a.rating b.rating (descending a.popularity b.popularity by_title)
      else if key == "recent"
      then descending a.year b.year by_title
      else by_title

  module _ (sql : Sqlite) where
    -- a clause for each genre that is not blank
    unfoldable pub has_genres : List String → Manga → Bool
    has_genres [] m = true
    has_genres (genre ∷ genres) m =
        let rest = has_genres genres m in
        if trim_space genre == ""
        then rest
        else sql.genres_like (str_append "%" (str_append (to_lower (trim_space genre)) "%")) m
          && rest

    -- the clauses of the filters, joined by AND
    unfoldable pub passes : SearchFilters → Manga → Bool
    unfolding has_genres
    passes f m =
        has_genres f.genres m
        && ((f.status == "" || sql.lower m.status == to_lower f.status)
            && ((le_ℤ f.year_range.0 (pos 0) || le_ℤ f.year_range.0 m.year)
                && ((le_ℤ f.year_range.1 (pos 0) || le_ℤ m.year f.year_range.1)
                    && (le_ℤ f.rating (pos 0) || le_ℤ f.rating m.rating))))

    -- the rows that the query selects, in its order
    unfoldable pub selected : SearchFilters → (Manga → Bool) → List Manga → List Manga
    unfolding passes manga_order
    selected f found rows = sort_by (manga_order f.sort_by) (keep (λ m. found m && passes f m) rows)

    abbrev pub found_by : MangaQuery → Result (Manga → Bool)
    found_by q = if q.query == "" then ok (λ m. true) else sql.matching q.query

    unfoldable pub list_manga : MangaQuery → Exec Store (List Manga)
    unfolding selected page_rows manga_limit manga_page
    list_manga q = statement "list manga" λ now t. elim (found_by q) [
      | err e ↦ (err e, t)
      | ok found ↦ (
        ok (page_rows (manga_limit q.limit) (manga_page q.page) (selected q.filters found t.manga)),
        t,
      )
    ]
