-- ===== src/Tcp/Conflicts.antt =====
-- The conflict rules of a progress message, as a specification.
use manga_hub.Prelude.{
  ℤ, ◌≤ℤ◌, ◌<ℤ◌, lt_ℤ, String, true, false, ◌≡◌, refl, ◌∙◌, ap, ◌⊎◌, ◌↔◌, inl, inr, Option, none,
  some, Result, ok, err, ◌==◌, Unicode, arith, eq_iff, Bool-cases, trim_space, if◌then◌else◌,
}
use manga_hub.Models.{Time, LibraryEntry, ProgressUpdateResult}
use manga_hub.Cache.{Redis, Service, in_store}
use manga_hub.User.{get_library_entry, update_progress}
use manga_hub.User.Progress.{Updated, update_progress_sound}
use manga_hub.Store.Schema.{IsValid}
use manga_hub.Store.Library.{select_entry}
use manga_hub.Store.Library
use manga_hub.Store.Reads.{get_library_entry-ok, get_library_entry-tables}
use manga_hub.Store.Tables.{statement}
use manga_hub.Tcp.Messages.{ClientMessage}
use manga_hub.Tcp.Rules.{
  conflict_with, conflict_of, stale_with, newer_resolution, strategy, incoming_timestamp,
  progress_request,
}
use manga_hub.Tcp.Handlers.{Outcome, conflicts, updates, finished, decide, reconcile}

-- A message goes through if its chapter is not behind the entry's, and the entry is not newer than
-- it, or it takes the entry forward under the strategy "merge".
pub record Accepts (strategy : String) (incoming : ℤ) (msg : ClientMessage) (entry : LibraryEntry)
    : Type 0 where
  pub chapter : entry.current_chapter ≤ℤ msg.chapter
  pub fresh :
      (entry.updated_at ≤ℤ incoming)
      ⊎ ((strategy ≡ "merge") × (entry.current_chapter <ℤ msg.chapter))

module _ (strategy : String) (incoming : ℤ) (msg : ClientMessage) (entry : LibraryEntry) where
  stale_merge :
      strategy == "merge" ≡ true
      → stale_with strategy msg entry
        ≡ (if lt_ℤ entry.current_chapter msg.chapter then none else some "server_newer")
  unfolding stale_with newer_resolution
  stale_merge merge = elim (Bool-cases (lt_ℤ entry.current_chapter msg.chapter)) [
    | inl forward ↦ rw (merge, forward) refl
    | inr backward ↦ rw (merge, backward) refl
  ]

  stale_other : strategy == "merge" ≡ false → stale_with strategy msg entry ≡ none → ⊥
  unfolding stale_with
  stale_other other h =
      let k : some (if strategy == "user_choice" then "needs_user_choice" else "server_newer")
          ≡ none =
        rw other at h in
      cc

  Accepts-sound :
      conflict_with strategy incoming msg entry ≡ none → Accepts strategy incoming msg entry
  unfolding conflict_with
  Accepts-sound h = record {
    chapter = ground arith;
    fresh = elim (Bool-cases (strategy == "merge")) [
      | inl merge ↦ ground (arith, eq_iff strategy "merge", stale_merge merge)
      | inr other ↦ ground (arith, stale_other other)
    ];
  }

  Accepts-complete :
      Accepts strategy incoming msg entry → conflict_with strategy incoming msg entry ≡ none
  unfolding conflict_with
  Accepts-complete a = elim a.fresh [
    | inl fresh ↦ ground (arith, a.chapter)
    | inr (merge, forward) ↦
        ground (arith, a.chapter, stale_merge ((eq_iff strategy "merge").1 merge))
  ]

  -- A progress message meets no conflict exactly if it is accepted by the rules of `Accepts`.
  pub conflict_iff :
      (conflict_with strategy incoming msg entry ≡ none) ↔ Accepts strategy incoming msg entry
  conflict_iff = (Accepts-sound, Accepts-complete)

module _ {S : Type 0} where
  finished-conflicts :
      (x : Result ProgressUpdateResult × S) {resolution : String} {s' : S}
      → ◌≡◌ {A = Result Outcome × S} (finished x.0, x.1) (ok (conflicts resolution), s')
      → ⊥
  finished-conflicts (ok res, s) h = cc
  finished-conflicts (err e, s) h = cc

  finished-updates :
      (x : Result ProgressUpdateResult × S) {res : ProgressUpdateResult} {s' : S}
      → ◌≡◌ {A = Result Outcome × S} (finished x.0, x.1) (ok (updates res), s')
      → x ≡ (ok res, s')
  finished-updates (ok res, s) h = cc
  finished-updates (err e, s) h = cc

conflict_of-some :
    (strategy : String) (incoming : ℤ) (msg : ClientMessage) {resolution : String}
    (looked : Result LibraryEntry)
    → conflict_of strategy incoming msg looked ≡ some resolution
    → (entry : LibraryEntry) × (looked ≡ ok entry)
      × (conflict_with strategy incoming msg entry ≡ some resolution)
unfolding conflict_of
conflict_of-some st i msg (ok entry) h = (entry, refl, h)
conflict_of-some st i msg (err e) h = cc

conflict_not : {o : Option String} {x : String} → o ≡ none → o ≡ some x → ⊥
conflict_not h k = cc

module _ (r : Redis) ⦃u : Unicode⦄ (now : Time) (user_id : String) (msg : ClientMessage) where
  caught_entry :
      (s : Service r)
      → ((get_library_entry r user_id (trim_space msg.manga_id) s).1.store.tables ≡ s.store.tables)
  unfolding get_library_entry in_store
  caught_entry s = get_library_entry-tables user_id (trim_space msg.manga_id) s.store

  decide-conflict :
      (found : Option String) (s s' : Service r) (resolution : String)
      → decide r user_id msg found s ≡ (ok (conflicts resolution), s')
      → (found ≡ some resolution) × (s' ≡ s)
  unfolding decide
  decide-conflict (some x) s s' resolution h = (cc, cc)
  decide-conflict none s s' resolution h =
      absurd (finished-conflicts (update_progress r user_id (progress_request msg) s) h)

  decide-update :
      (found : Option String) (s s' : Service r) (res : ProgressUpdateResult)
      → decide r user_id msg found s ≡ (ok (updates res), s')
      → (found ≡ none) × (update_progress r user_id (progress_request msg) s ≡ (ok res, s'))
  unfolding decide
  decide-update (some x) s s' res h = absurd cc
  decide-update none s s' res h =
      (refl, finished-updates (update_progress r user_id (progress_request msg) s) h)

  abbrev Rules : LibraryEntry → Type 0
  Rules entry = Accepts (strategy msg) (incoming_timestamp now msg) msg entry

  -- an entry that the lookup found is the tables'
  looked_up :
      (s : Service r) (entry : LibraryEntry)
      → (get_library_entry r user_id (trim_space msg.manga_id) s).0 ≡ ok entry
      → select_entry user_id (trim_space msg.manga_id) s.store.tables ≡ some entry
  unfolding get_library_entry in_store
  looked_up s entry h =
      (get_library_entry-ok user_id (trim_space msg.manga_id) s.store
        (Library.get_library_entry user_id (trim_space msg.manga_id) s.store).1 entry
        (ap (λ x. (x, (Library.get_library_entry user_id (trim_space msg.manga_id) s.store).1))
          h)).0

  -- A conflict is reported only for an entry that the rules do not accept the message for, and
  -- leaves every table as it was.
  pub reconcile_conflict :
      (s s' : Service r) (resolution : String)
      → reconcile r now user_id msg s ≡ (ok (conflicts resolution), s')
      → (s'.store.tables ≡ s.store.tables)
        × ((entry : LibraryEntry) × (select_entry user_id (trim_space msg.manga_id) s.store.tables
              ≡ some entry)
            × (Rules entry → ⊥))
  unfolding reconcile
  reconcile_conflict s s' resolution h =
      let looked = get_library_entry r user_id (trim_space msg.manga_id) s in
      let (found, same) = decide-conflict _ looked.1 s' resolution h in
      (
        ap (λ x. x.store.tables) same ∙ caught_entry s,
        (let (entry, hit, met) =
              conflict_of-some (strategy msg) (incoming_timestamp now msg) msg looked.0 found in
            (
              entry,
              looked_up s entry hit,
              λ accepted. conflict_not (Accepts-complete _ _ _ entry accepted) met,
            )),
      )

  looked_hit :
      (s : Service r) (entry : LibraryEntry)
      → select_entry user_id (trim_space msg.manga_id) s.store.tables ≡ some entry
      → (s.store.driver 0).fails ≡ false
      → (get_library_entry r user_id (trim_space msg.manga_id) s).0 ≡ ok entry
  unfolding get_library_entry in_store Library.get_library_entry statement
  looked_hit s entry held executed = rw (executed, held) refl

  -- An update goes through only as `Updated` says, so that it takes no chapter back, and by the
  -- rules for the entry, if the driver executes the lookup of it.
  pub reconcile_update :
      (s s' : Service r) (res : ProgressUpdateResult)
      → IsValid s.store.tables
      → reconcile r now user_id msg s ≡ (ok (updates res), s')
      → Updated user_id (progress_request msg) s.store.tables s'.store.tables res
        × ((entry : LibraryEntry)
            → select_entry user_id (trim_space msg.manga_id) s.store.tables ≡ some entry
            → (s.store.driver 0).fails ≡ false
            → Rules entry)
  unfolding reconcile conflict_of
  reconcile_update s s' res valid h =
      let looked = get_library_entry r user_id (trim_space msg.manga_id) s in
      let (clear, updated) = decide-update _ looked.1 s' res h in
      (
        rw (caught_entry s) at (
            update_progress_sound r user_id (progress_request msg) looked.1 s' res
              (rw (caught_entry s) valid) updated),
        λ entry held executed.
            Accepts-sound _ _ _ entry (rw (looked_hit s entry held executed, conflict_of) at clear),
      )
