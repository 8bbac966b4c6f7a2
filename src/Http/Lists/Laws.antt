-- ===== src/Http/Lists/Laws.antt =====
-- The reading lists are a partition of the library.
use mathlib.Core.List.{Perm, perm_middle}
use mathlib.Core.List.Perm
use manga_hub.Prelude.{
  List, [], ◌∷◌, ◌++◌, String, Bool, true, false, ◌==◌, ◌||◌, find, none, some, to_lower,
  trim_space, arith, ◌≡◌, refl, ap, ◌∙◌, if◌then◌else◌, keep, Unicode,
}
use manga_hub.Models.{LibraryEntry}
use manga_hub.Http.Requests.{ReadingLists}
use manga_hub.Http.Lists.{
  Shelf, reading, completed, plan_to_read, on_hold, dropped, shelf_of, empty_lists, shelve,
  build_reading_lists,
}

abbrev pub is_shelf : Shelf → Shelf → Bool
is_shelf reading reading = true
is_shelf completed completed = true
is_shelf plan_to_read plan_to_read = true
is_shelf on_hold on_hold = true
is_shelf dropped dropped = true
is_shelf _ _ = false

-- the list of a shelf
abbrev pub list_of : Shelf → ReadingLists → List LibraryEntry
list_of reading l = l.reading
list_of completed l = l.completed
list_of plan_to_read l = l.plan_to_read
list_of on_hold l = l.on_hold
list_of dropped l = l.dropped

abbrev pub all_lists : ReadingLists → List LibraryEntry
all_lists l = l.reading ++ (l.completed ++ (l.plan_to_read ++ (l.on_hold ++ l.dropped)))

each_shelf :
    (P : Shelf → Type 0)
    → P reading
    → P completed
    → P plan_to_read
    → P on_hold
    → P dropped
    → (s : Shelf) → P s
each_shelf P a b c d e reading = a
each_shelf P a b c d e completed = b
each_shelf P a b c d e plan_to_read = c
each_shelf P a b c d e on_hold = d
each_shelf P a b c d e dropped = e

list_of-shelve :
    (s t : Shelf) (item : LibraryEntry) (l : ReadingLists)
    → ◌≡◌ {A = List LibraryEntry}
        (list_of s (shelve t item l))
        (if is_shelf t s then item ∷ list_of s l else list_of s l)
unfolding shelve
list_of-shelve s reading item l =
    each_shelf
      (λ s.
        ◌≡◌ {A = List LibraryEntry} (list_of s (shelve reading item l))
          (if is_shelf reading s then item ∷ list_of s l else list_of s l))
      refl refl refl refl refl s
list_of-shelve s completed item l =
    each_shelf
      (λ s.
        ◌≡◌ {A = List LibraryEntry} (list_of s (shelve completed item l))
          (if is_shelf completed s then item ∷ list_of s l else list_of s l))
      refl refl refl refl refl s
list_of-shelve s plan_to_read item l =
    each_shelf
      (λ s.
        ◌≡◌ {A = List LibraryEntry} (list_of s (shelve plan_to_read item l))
          (if is_shelf plan_to_read s then item ∷ list_of s l else list_of s l))
      refl refl refl refl refl s
list_of-shelve s on_hold item l =
    each_shelf
      (λ s.
        ◌≡◌ {A = List LibraryEntry} (list_of s (shelve on_hold item l))
          (if is_shelf on_hold s then item ∷ list_of s l else list_of s l))
      refl refl refl refl refl s
list_of-shelve s dropped item l =
    each_shelf
      (λ s.
        ◌≡◌ {A = List LibraryEntry} (list_of s (shelve dropped item l))
          (if is_shelf dropped s then item ∷ list_of s l else list_of s l))
      refl refl refl refl refl s

-- an item deeper in the lists moves to the front
behind :
    (item : LibraryEntry) (xs ys zs : List LibraryEntry)
    → Perm ys (item ∷ zs)
    → Perm (xs ++ ys) (item ∷ (xs ++ zs))
behind item xs ys zs p = Perm.trans (Perm.append_left xs p) (perm_middle xs zs)

all_lists-shelve :
    (t : Shelf) (item : LibraryEntry) (l : ReadingLists)
    → Perm (all_lists (shelve t item l)) (item ∷ all_lists l)
unfolding shelve
all_lists-shelve reading item l = Perm.refl (item ∷ all_lists l)
all_lists-shelve completed item l = behind item l.reading _ _ (Perm.refl _)
all_lists-shelve plan_to_read item l =
    behind item l.reading _ _ (behind item l.completed _ _ (Perm.refl _))
all_lists-shelve on_hold item l =
    behind item l.reading _ _
      (behind item l.completed _ _ (behind item l.plan_to_read _ _ (Perm.refl _)))
all_lists-shelve dropped item l = behind item l.reading _ _ (
    behind item l.completed _ _
      (behind item l.plan_to_read _ _ (behind item l.on_hold _ _ (Perm.refl _))))

-- the words for a list, in lower case; any other status is listed as reading
abbrev pub shelf_words : List (String × Shelf)
shelf_words =
    ("completed", completed)
    ∷ ("on-hold", on_hold)
    ∷ ("on_hold", on_hold)
    ∷ ("on hold", on_hold)
    ∷ ("dropped", dropped)
    ∷ ("plan_to_read", plan_to_read)
    ∷ ("plantoread", plan_to_read)
    ∷ ("planned", plan_to_read)
    ∷ []

abbrev pub shelf_for : String → Shelf
shelf_for word = elim (find (λ p. word == p.0) shelf_words) [ none ↦ reading | some p ↦ p.1 ]

by_word :
    (s : String)
    → (if s == "completed"
        then completed
        else if s == "on-hold" || (s == "on_hold" || s == "on hold")
        then on_hold
        else if s == "dropped"
        then dropped
        else if s == "plan_to_read" || (s == "plantoread" || s == "planned")
        then plan_to_read
        else reading)
      ≡ shelf_for s
unfolding find
by_word s = ground arith

module _ ⦃u : Unicode⦄ where
  -- the entries of a shelf, by the table
  abbrev pub on_shelf : Shelf → LibraryEntry → Bool
  on_shelf s item = is_shelf (shelf_for (to_lower (trim_space item.status))) s

  shelf_of-table : (status : String) → shelf_of status ≡ shelf_for (to_lower (trim_space status))
  unfolding shelf_of
  shelf_of-table status = by_word (to_lower (trim_space status))

  list_of-build_reading_lists :
      (s : Shelf) (items : List LibraryEntry)
      → list_of s (build_reading_lists items) ≡ keep (on_shelf s) items
  unfolding build_reading_lists keep
  list_of-build_reading_lists s [] =
      each_shelf (λ s. list_of s empty_lists ≡ []) refl refl refl refl refl s
  list_of-build_reading_lists s (item ∷ items) = rw (← shelf_of-table item.status) (
      list_of-shelve s (shelf_of item.status) item (build_reading_lists items)
      ∙ ap (λ rest. if is_shelf (shelf_of item.status) s then item ∷ rest else rest)
          (list_of-build_reading_lists s items))

  all_lists-build_reading_lists :
      (items : List LibraryEntry) → Perm (all_lists (build_reading_lists items)) items
  unfolding build_reading_lists
  all_lists-build_reading_lists [] = Perm.refl []
  all_lists-build_reading_lists (item ∷ items) =
      Perm.trans (all_lists-shelve (shelf_of item.status) item (build_reading_lists items))
        (Perm.cons item (all_lists-build_reading_lists items))

  -- The five lists hold every entry of the library once, and each list, in the library's order, the
  -- entries whose status, trimmed and in lower case, the table of words gives to it; any other status,
  -- as plan-to-read, is listed as reading.
  pub build_reading_lists-Perm :
      (items : List LibraryEntry) (s : Shelf)
      → Perm (all_lists (build_reading_lists items)) items
        × (list_of s (build_reading_lists items) ≡ keep (on_shelf s) items)
  build_reading_lists-Perm items s =
      (all_lists-build_reading_lists items, list_of-build_reading_lists s items)
