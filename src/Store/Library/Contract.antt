-- ===== src/Store/Library/Contract.antt =====
-- What `UpsertLibraryEntry` promises its callers.
use manga_hub.Prelude.{
  String, false, ◌≡◌, ◌≢◌, ◌∙◌, sym, ap, ◌⊎◌, ok, arith, eq_iff, none, some, Bool-cases, inl, inr,
}
use manga_hub.Models.{Time, Manga, LibraryEntry}
use manga_hub.Store.Tables.{Tables, Store, statement, find_user, find_manga}
use manga_hub.Store.Library.{
  excluded, upsert_row, upsert_progress, scan_entry, user_library, get_user_library, find_entry,
  returned_entry, upsert_library_entry, select_entry,
}
use manga_hub.Store.Library.Lookup.{find_entry-user_library}
use manga_hub.Store.Library.Upsert.{
  stored, upsert_progress_cases, select_entry-upsert_row, select_entry-upsert_row_ne, Agrees,
  Agrees-stored, upsert_library_entry-ok,
}
use manga_hub.Store.Schema.{IsValid}
use manga_hub.Store.Schema.Rules.{upsert_progress-IsValid}

module _ (user_id : String) (entry : LibraryEntry) where
  -- the row behind the entry that a successful call returns
  upsert_stored :
      (s s' : Store) (e : LibraryEntry)
      → IsValid s.tables
      → upsert_library_entry user_id entry s ≡ (ok e, s')
      → (now : Time) × (m : Manga) × (find_manga entry.manga_id s.tables.manga ≡ some m)
        × (e ≡ scan_entry m (stored user_id entry now s.tables))
        × (select_entry user_id entry.manga_id s'.tables ≡ some e)
  upsert_stored s s' e v h =
      let (now, wrote, found) = upsert_library_entry-ok user_id entry e s s' h in
      let v' : IsValid s'.tables =
        rw wrote at (upsert_progress-IsValid user_id entry now s.tables v) in
      let here : select_entry user_id entry.manga_id s'.tables ≡ some e =
        sym (find_entry-user_library user_id entry.manga_id s'.tables v') ∙ found in
      elim (upsert_progress_cases user_id entry now s.tables) [
        | inl (m, manga, done) ↦
            let after : select_entry user_id entry.manga_id s'.tables
                ≡ some (scan_entry m (stored user_id entry now s.tables)) =
              ap (λ t. select_entry user_id entry.manga_id t) (ap (λ p. p.1) (sym wrote ∙ done))
              ∙ select_entry-upsert_row user_id entry now s.tables m manga in
            (now, m, manga, ground (arith, here, after), here)
        | inr (refused, _, _) ↦ absurd (refused (ap (λ p. p.0) wrote))
      ]

  -- A successful upsert returns the entry that a query by user and manga finds afterwards, and it
  -- holds the caller's chapter, volume, status, rating and notes.
  pub upsert_reads_back :
      (s s' : Store) (e : LibraryEntry)
      → IsValid s.tables
      → upsert_library_entry user_id entry s ≡ (ok e, s')
      → (select_entry user_id entry.manga_id s'.tables ≡ some e) × Agrees user_id entry e
  upsert_reads_back s s' e v h =
      let (now, m, manga, same, here) = upsert_stored s s' e v h in
      (here, rw same (Agrees-stored user_id entry now s.tables m))

  -- what a call leaves in the tables, whatever it returns
  pub upsert_tables :
      (s : Store)
      → ((upsert_library_entry user_id entry s).1.tables ≡ s.tables)
        ⊎ ((now : Time) × ((upsert_library_entry user_id entry s).1.tables
              ≡ (upsert_progress user_id entry now s.tables).1))
  unfolding upsert_library_entry statement get_user_library returned_entry
  upsert_tables s = elim (Bool-cases (s.driver 0).fails) [
    | inl failed ↦ inl (ground arith)
    | inr executed ↦ inr ((s.driver 0).time, ground arith)
  ]

  -- Whatever an upsert returns, every library entry under another user or another manga is as it was.
  pub upsert_frame :
      (s : Store) (u m : String)
      → (u ≢ user_id) ⊎ (m ≢ entry.manga_id)
      → select_entry u m (upsert_library_entry user_id entry s).1.tables ≡ select_entry u m s.tables
  upsert_frame s u m other = elim (upsert_tables s) [
    | inl same ↦ rw same
    | inr (now, after) ↦
        ap (λ t. select_entry u m t) after
        ∙ elim (upsert_progress_cases user_id entry now s.tables) [
          | inl (mg, manga, done) ↦
              ap (λ p. select_entry u m p.1) done
              ∙ select_entry-upsert_row_ne user_id entry now s.tables u m
                  (ground (arith, eq_iff u user_id, eq_iff m entry.manga_id))
          | inr (_, same, _) ↦ ap (λ t. select_entry u m t) same
        ]
  ]

  executed :
      (s : Store) (t : Tables) (e : LibraryEntry)
      → (s.driver 0).fails ≡ false
      → (s.driver 1).fails ≡ false
      → upsert_progress user_id entry (s.driver 0).time s.tables ≡ (ok tt, t)
      → find_entry entry.manga_id (user_library user_id t) ≡ some e
      → (upsert_library_entry user_id entry s).0 ≡ ok e
  unfolding upsert_library_entry statement get_user_library returned_entry
  executed s t e up up' wrote found = ground arith

  -- With the user and the manga in valid tables, and a driver that executes the two statements,
  -- an upsert returns an entry.
  pub upsert_succeeds :
      (s : Store)
      → IsValid s.tables
      → find_user user_id s.tables.users ≢ none
      → find_manga entry.manga_id s.tables.manga ≢ none
      → (s.driver 0).fails ≡ false
      → (s.driver 1).fails ≡ false
      → (e : LibraryEntry) × ((upsert_library_entry user_id entry s).0 ≡ ok e)
  upsert_succeeds s v user manga up up' =
      let now : Time = (s.driver 0).time in
      elim (upsert_progress_cases user_id entry now s.tables) [
        | inl (m, has, done) ↦
            let t : Tables = record s.tables {
              user_progress = upsert_row (excluded user_id entry now) s.tables.user_progress;
            } in
            let v' : IsValid t =
              rw done at (upsert_progress-IsValid user_id entry now s.tables v) in
            (
              scan_entry m (stored user_id entry now s.tables),
              executed s t _ up up' done (
                  find_entry-user_library user_id entry.manga_id t v'
                  ∙ select_entry-upsert_row user_id entry now s.tables m has),
            )
        | inr (_, _, missing) ↦ absurd (elim missing [ inl h ↦ user h | inr h ↦ manga h ])
      ]
