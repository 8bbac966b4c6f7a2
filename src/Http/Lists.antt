-- ===== src/Http/Lists.antt =====
-- `buildReadingLists` of user_handler.go.
pub mod Laws
use manga_hub.Prelude.{
  String, List, [], ◌∷◌, Bool, ◌==◌, ◌||◌, if◌then◌else◌, Unicode, trim_space, to_lower,
}
use manga_hub.Models.{LibraryEntry}
use manga_hub.Http.Requests.{ReadingLists}

-- the five lists
pub data Shelf : Type 0 where
  reading completed plan_to_read on_hold dropped : Shelf

-- the switch on the status
unfoldable pub shelf_of : ⦃u : Unicode⦄ → String → Shelf
shelf_of status =
    let s = to_lower (trim_space status) in
    if s == "completed"
    then completed
    else if s == "on-hold" || (s == "on_hold" || s == "on hold")
    then on_hold
    else if s == "dropped"
    then dropped
    else if s == "plan_to_read" || (s == "plantoread" || s == "planned")
    then plan_to_read
    else reading

abbrev pub empty_lists : ReadingLists
empty_lists = record { reading = []; completed = []; plan_to_read = []; on_hold = []; dropped = [] }

-- the item goes on its list, in front of those of the items after it
unfoldable pub shelve : Shelf → LibraryEntry → ReadingLists → ReadingLists
shelve reading item l = record l { reading = item ∷ l.reading }
shelve completed item l = record l { completed = item ∷ l.completed }
shelve plan_to_read item l = record l { plan_to_read = item ∷ l.plan_to_read }
shelve on_hold item l = record l { on_hold = item ∷ l.on_hold }
shelve dropped item l = record l { dropped = item ∷ l.dropped }

unfoldable pub build_reading_lists : ⦃u : Unicode⦄ → List LibraryEntry → ReadingLists
unfolding shelve shelf_of
build_reading_lists [] = empty_lists
build_reading_lists (item ∷ items) = shelve (shelf_of item.status) item (build_reading_lists items)
