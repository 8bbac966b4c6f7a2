-- ===== src/Store/Library/Lookup.antt =====
-- What the library's queries find: the search through the sorted join and the two-key query agree.
use manga_hub.Prelude.{
  String, List, [], ◌∷◌, Bool, false, ◌≡◌, refl, ◌∙◌, ◌==◌, any, find, All, arith, eq_iff, Option,
  none, some, Bool-cases, Option-cases, inl, inr,
}
use manga_hub.Prelude.Sorting.{Single, find-sort_by}
use manga_hub.Models.{Manga, LibraryEntry}
use manga_hub.Store.Sql.Rows.{find-of_any}
use manga_hub.Store.Sql.Keys.{at, Distinct, string_eq, pair_eq}
use manga_hub.Store.Tables.{Tables, UserRow, ProgressRow, find_manga}
use manga_hub.Store.Library.{
  is_key, scan_entry, joined, newer, user_library, find_entry, select_entry,
}
use manga_hub.Store.Schema.{manga_key, progress_key, HasManga, RefersTo, IsValid}

abbrev is_entry : String → LibraryEntry → Bool
is_entry manga_id item = item.manga_id == manga_id

find_manga-of_HasManga :
    (id : String) (ms : List Manga) → HasManga ms id → (m : Manga) × (find_manga id ms ≡ some m)
unfolding find_manga
find_manga-of_HasManga id ms h = find-of_any (at manga_key id) ms h

module _ (user_id manga_id : String) (ms : List Manga) where
  any-joined :
      (rows : List ProgressRow)
      → any (is_key user_id manga_id) rows ≡ false
      → any (is_entry manga_id) (joined user_id ms rows) ≡ false
  unfolding any joined
  any-joined [] h = refl
  any-joined (r ∷ rows) h = ground (arith, any-joined rows)

  joined-Single :
      (rows : List ProgressRow)
      → Distinct progress_key rows
      → Single (is_entry manga_id) (joined user_id ms rows)
  unfolding joined
  joined-Single [] d = tt
  joined-Single (r ∷ rows) d = elim (Bool-cases (r.user_id == user_id)) [
    | inl mine ↦ elim (Option-cases (find_manga r.manga_id ms)) [
      | inl missing ↦ rw (mine, missing) (joined-Single rows d.1)
      | inr (m, found) ↦
          rw (mine, found)
            (
              (λ same. any-joined rows (
                  ground (
                    arith,
                    d.0,
                    (eq_iff r.user_id user_id).0 mine,
                    (eq_iff r.manga_id manga_id).0 same,
                  ))),
              joined-Single rows d.1,
            )
    ]
    | inr other ↦ rw other (joined-Single rows d.1)
  ]

  abbrev scanned : Option ProgressRow → Option LibraryEntry
  scanned none = none
  scanned (some r) = elim (find_manga r.manga_id ms) [
    | none ↦ none
    | some m ↦ some (scan_entry m r)
  ]

  find_entry-joined :
      (users : List UserRow) (rows : List ProgressRow)
      → All (λ r. RefersTo users ms r.user_id r.manga_id) rows
      → find_entry manga_id (joined user_id ms rows) ≡ scanned (find (is_key user_id manga_id) rows)
  unfolding find_entry find joined
  find_entry-joined users [] h = refl
  find_entry-joined users (r ∷ rows) h =
      let (m, found) = find_manga-of_HasManga r.manga_id ms h.0.1 in
      ground (arith, found, find_entry-joined users rows h.1)

-- In valid tables the search through the user's library finds what the two-key query finds.
pub find_entry-user_library :
    (user_id manga_id : String) (t : Tables)
    → IsValid t
    → find_entry manga_id (user_library user_id t) ≡ select_entry user_id manga_id t
unfolding user_library select_entry
find_entry-user_library user_id manga_id t v =
    unfold find_entry in
    find-sort_by (is_entry manga_id) newer (joined user_id t.manga t.user_progress)
      (joined-Single user_id manga_id t.manga t.user_progress v.progress.0)
    ∙ find_entry-joined user_id manga_id t.manga t.users t.user_progress v.progress.1
