-- ===== src/Store/Library/Upsert.antt =====
-- Writing a library entry: what is read back, what is kept, and what is left alone.
use manga_hub.Prelude.{
  ℤ, String, true, false, ◌≡◌, ◌≢◌, ◌⊎◌, refl, ◌∙◌, ap, ◌==◌, ◌&&◌, ok, find, arith, eq_iff,
  eq_refl, none, some, Option-cases, inl, inr,
}
use manga_hub.Models.{Time, Manga, LibraryEntry}
use manga_hub.Store.Sql.Rows.{merged, find_sound, find-upsert_self, find-upsert_ne}
use manga_hub.Store.Tables.{Tables, ProgressRow, Store, statement, find_user, find_manga}
use manga_hub.Store.Library.{
  is_key, nullable_int, scan_int, excluded, overwrite, upsert_row, upsert_progress, scan_entry,
  user_library, get_user_library, find_entry, returned_entry, upsert_library_entry, select_entry,
}

-- NULL stands for the rating 0, and is read back as 0
scan_int-nullable_int : (v : ℤ) → scan_int (nullable_int v) ≡ v
unfolding nullable_int
scan_int-nullable_int v = ground arith

-- the row under a key after an upsert of that key
pub stored : String → LibraryEntry → Time → Tables → ProgressRow
stored user_id entry now t =
    let x = excluded user_id entry now in
    merged (λ r. overwrite r x) x (find (is_key user_id entry.manga_id) t.user_progress)

module _ (user_id : String) (entry : LibraryEntry) (now : Time) (t : Tables) where
  abbrev pub x : ProgressRow
  x = excluded user_id entry now

  find-upsert_row :
      find (is_key user_id entry.manga_id) (upsert_row x t.user_progress)
      ≡ some (stored user_id entry now t)
  unfolding upsert_row stored excluded overwrite
  find-upsert_row =
      find-upsert_self (is_key user_id entry.manga_id) (λ r. overwrite r x) x t.user_progress
        (λ r h. h) (ground (arith, eq_refl user_id, eq_refl entry.manga_id))

  find-upsert_row_ne :
      (u m : String)
      → (u == user_id && m == entry.manga_id) ≡ false
      → find (is_key u m) (upsert_row x t.user_progress) ≡ find (is_key u m) t.user_progress
  unfolding upsert_row excluded overwrite
  find-upsert_row_ne u m h =
      find-upsert_ne (is_key user_id entry.manga_id) (is_key u m) (λ r. overwrite r x) x
        t.user_progress (λ r same. apart r.user_id r.manga_id same)
        (λ r same. apart r.user_id r.manga_id same)
        (ground (
          arith,
          eq_iff u user_id,
          eq_iff m entry.manga_id,
          eq_iff user_id u,
          eq_iff entry.manga_id m,
        ))
    where
      apart :
          (a b : String) → (a == user_id && b == entry.manga_id) ≡ true → (a == u && b == m) ≡ false
      apart a b same = ground (
        arith,
        eq_iff a user_id,
        eq_iff b entry.manga_id,
        eq_iff a u,
        eq_iff b m,
        eq_iff u user_id,
        eq_iff m entry.manga_id,
      )

  stored_key :
      ((stored user_id entry now t).user_id ≡ user_id)
      × ((stored user_id entry now t).manga_id ≡ entry.manga_id)
  unfolding stored excluded overwrite
  stored_key = elim (Option-cases (find (is_key user_id entry.manga_id) t.user_progress)) [
    | inl absent ↦ rw absent (refl, refl)
    | inr (r, found) ↦
        let key : is_key user_id entry.manga_id r ≡ true =
          find_sound (is_key user_id entry.manga_id) t.user_progress r found in
        rw found (ground (arith, key, eq_iff r.user_id user_id, eq_iff r.manga_id entry.manga_id))
  ]

  -- an upsert goes through exactly when its user and its manga are there
  pub upsert_progress_cases :
      ((m : Manga) × (find_manga entry.manga_id t.manga ≡ some m)
        × (upsert_progress user_id entry now t
            ≡ (ok tt, record t { user_progress = upsert_row x t.user_progress })))
      ⊎ ((upsert_progress user_id entry now t).0 ≢ ok tt)
        × ((upsert_progress user_id entry now t).1 ≡ t)
        × ((find_user user_id t.users ≡ none) ⊎ (find_manga entry.manga_id t.manga ≡ none))
  unfolding upsert_progress
  upsert_progress_cases = elim (Option-cases (find_user user_id t.users)) [
    | inl missing ↦
        inr (rw (missing, upsert_progress) (λ e. cc), rw (missing, upsert_progress), inl missing)
    | inr (u, user) ↦ elim (Option-cases (find_manga entry.manga_id t.manga)) [
      | inl missing ↦ inr (
        rw (user, missing, upsert_progress) (λ e. cc),
        rw (user, missing, upsert_progress),
        inr missing,
      )
      | inr (m, found) ↦ inl (m, found, rw (user, found, upsert_progress))
    ]
  ]

  -- the entry that the queries find under the key after the upsert
  pub select_entry-upsert_row :
      (m : Manga)
      → find_manga entry.manga_id t.manga ≡ some m
      → select_entry user_id entry.manga_id
          (record t { user_progress = upsert_row x t.user_progress })
        ≡ some (scan_entry m (stored user_id entry now t))
  unfolding select_entry
  select_entry-upsert_row m found =
      let same : find_manga (stored user_id entry now t).manga_id t.manga ≡ some m =
        ap (λ k. find_manga k t.manga) stored_key.1 ∙ found in
      rw (find-upsert_row, select_entry) (rw same)

  pub select_entry-upsert_row_ne :
      (u m : String)
      → (u == user_id && m == entry.manga_id) ≡ false
      → select_entry u m (record t { user_progress = upsert_row x t.user_progress })
        ≡ select_entry u m t
  unfolding select_entry
  select_entry-upsert_row_ne u m h = rw (find-upsert_row_ne u m h, select_entry)

-- the fields of an entry that the caller of an upsert gives
pub record Agrees (user_id : String) (entry item : LibraryEntry) : Type 0 where
  pub user : item.user_id ≡ user_id
  pub manga : item.manga_id ≡ entry.manga_id
  pub chapter : item.current_chapter ≡ entry.current_chapter
  pub volume : item.current_volume ≡ entry.current_volume
  pub status : item.status ≡ entry.status
  pub rating : item.rating ≡ entry.rating
  pub notes : item.notes ≡ entry.notes

pub Agrees-stored :
    (user_id : String) (entry : LibraryEntry) (now : Time) (t : Tables) (m : Manga)
    → Agrees user_id entry (scan_entry m (stored user_id entry now t))
unfolding stored excluded overwrite scan_entry
Agrees-stored user_id entry now t m =
    elim (Option-cases (find (is_key user_id entry.manga_id) t.user_progress)) [
      | inl absent ↦ rw absent (record {
        user = refl;
        manga = refl;
        chapter = refl;
        volume = refl;
        status = refl;
        rating = scan_int-nullable_int entry.rating;
        notes = refl;
      })
      | inr (r, found) ↦
          let key : is_key user_id entry.manga_id r ≡ true =
            find_sound (is_key user_id entry.manga_id) t.user_progress r found in
          rw found (record {
            user = ground (arith, key, eq_iff r.user_id user_id);
            manga = ground (arith, key, eq_iff r.manga_id entry.manga_id);
            chapter = refl;
            volume = refl;
            status = refl;
            rating = scan_int-nullable_int entry.rating;
            notes = refl;
          })
    ]

-- a successful call wrote the row, and returned what it then found
pub upsert_library_entry-ok :
    (user_id : String) (entry e : LibraryEntry) (s s' : Store)
    → upsert_library_entry user_id entry s ≡ (ok e, s')
    → (now : Time) × (upsert_progress user_id entry now s.tables ≡ (ok tt, s'.tables))
      × (find_entry entry.manga_id (user_library user_id s'.tables) ≡ some e)
unfolding upsert_library_entry statement get_user_library returned_entry
upsert_library_entry-ok user_id entry e s s' h = ((s.driver 0).time, ground arith, ground arith)
