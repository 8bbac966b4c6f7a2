-- ===== src/Cli/Library/Laws.antt =====
-- What the library commands make of a status.
use manga_hub.Prelude.{
  String, Bool, true, false, ◌==◌, ◌||◌, ◌≡◌, refl, if◌then◌else◌, Unicode, trim_space, to_lower,
}
use manga_hub.Http.Lists.{Shelf, reading, completed, plan_to_read, on_hold, dropped, shelf_of}
use manga_hub.Cli.Library.{normalize_library_status, is_section, is_allowed_library_status}

abbrev choose : Bool → Bool → Bool → Bool → String
choose a b c d =
    if a
    then "completed"
    else if b
    then "on-hold"
    else if c
    then "dropped"
    else if d
    then "plan_to_read"
    else "reading"

-- one of the five words
each_word :
    (P : String → Type 0)
    → P "completed"
    → P "on-hold"
    → P "dropped"
    → P "plan_to_read"
    → P "reading"
    → (a b c d : Bool) → P (choose a b c d)
each_word P v w x y z true b c d = v
each_word P v w x y z false true c d = w
each_word P v w x y z false false true d = x
each_word P v w x y z false false false true = y
each_word P v w x y z false false false false = z

-- the section of a list of the server
abbrev pub section_of : Shelf → String
section_of reading = "reading"
section_of completed = "completed"
section_of plan_to_read = "plan_to_read"
section_of on_hold = "on-hold"
section_of dropped = "dropped"

module _ ⦃u : Unicode⦄ where
  normalized :
      (P : String → Type 0)
      → P "completed"
      → P "on-hold"
      → P "dropped"
      → P "plan_to_read"
      → P "reading"
      → (status : String) → P (normalize_library_status status)
  unfolding normalize_library_status
  normalized P v w x y z status =
      let s = to_lower (trim_space status) in
      each_word P v w x y z (s == "completed")
        (s == "on-hold" || (s == "on hold" || (s == "on_hold" || s == "onhold"))) (s == "dropped")
        (s == "plan-to-read" || (s == "plan to read" || (s == "plantoread" || s == "planned")))

  -- A status that the client has normalised is one that the server puts on the list of the same
  -- name, and every text is an allowed status: the test that the library commands make refuses
  -- nothing.
  pub normalize_library_status-shelf :
      (status : String)
      → (section_of (shelf_of (normalize_library_status status)) ≡ normalize_library_status status)
        × (is_allowed_library_status status ≡ true)
  unfolding shelf_of trim_space to_lower is_allowed_library_status
  normalize_library_status-shelf status = (
    normalized (λ s. section_of (shelf_of s) ≡ s) refl refl refl refl refl status,
    normalized (λ s. is_section s ≡ true) refl refl refl refl refl status,
  )
