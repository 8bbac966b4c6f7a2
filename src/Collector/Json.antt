-- ===== src/Collector/Json.antt =====
-- The values that encoding/json decodes into `any`, and what helpers.go reads from them. An object's
-- fields stand in the order in which one `range` over the map visits them.
use manga_hub.Prelude.{ℤ, String, List, [], ◌∷◌, Bool, ◌==◌, if◌then◌else◌, Option, none, some}

mutual
  pub data Json : Type 0 where
    null : Json
    text : String → Json
    number : ℤ → Json
    boolean : Bool → Json
    array : Items → Json
    object : Fields → Json

  pub data Items : Type 0 where
    nil : Items
    cons : Json → Items → Items

  pub data Fields : Type 0 where
    end : Fields
    field : String → Json → Fields → Fields

-- value, ok := fields[key]
unfoldable pub get : String → Fields → Option Json
get key end = none
get key (field k v fs) = if k == key then some v else get key fs

-- a type assertion to a string that is not empty
unfoldable pub as_text : Option Json → Option String
as_text (some (text s)) = if s == "" then none else some s
as_text _ = none

unfoldable pub as_object : Option Json → Option Fields
as_object (some (object fs)) = some fs
as_object _ = none

-- the loop over the fields; Go's order of a map is any, here that of the list
unfoldable pub first_text : Fields → String
unfolding as_text
first_text end = ""
first_text (field k v fs) = elim (as_text (some v)) [ none ↦ first_text fs | some s ↦ s ]

abbrev or_else : Option String → String → String
or_else none s = s
or_else (some s) _ = s

unfoldable pub in_language : Fields → String
unfolding get as_text first_text
in_language localized = or_else (as_text (get "en" localized)) (
    or_else (as_text (get "ja-ro" localized))
      (or_else (as_text (get "ja" localized)) (first_text localized)))

-- pickLocalizedText
unfoldable pub pick_localized_text : Fields → String → String
unfolding get as_object in_language
pick_localized_text attributes key = elim (as_object (get key attributes)) [
  | none ↦ ""
  | some localized ↦ in_language localized
]

pub record Relationship : Type 0 where
  pub type : String
  pub attributes : Option Fields

abbrev author_name : Relationship → Option String
author_name rel = elim rel.attributes [ none ↦ none | some fs ↦ as_text (get "name" fs) ]

-- extractAuthor
unfoldable pub extract_author : List Relationship → String
unfolding get as_text
extract_author [] = ""
extract_author (rel ∷ rels) =
    let rest = extract_author rels in
    if rel.type == "author" then or_else (author_name rel) rest else rest

abbrev tag_name : Json → String
tag_name (object fs) = elim (as_object (get "attributes" fs)) [
  | none ↦ ""
  | some attr ↦ pick_localized_text attr "name"
]
tag_name _ = ""

unfoldable pub tag_names : Items → List String
unfolding pick_localized_text as_object get
tag_names nil = []
tag_names (cons tag tags) =
    let rest = tag_names tags in if tag_name tag == "" then rest else tag_name tag ∷ rest

-- extractTagNames
unfoldable pub extract_tag_names : Fields → List String
unfolding tag_names get
extract_tag_names attributes = elim (get "tags" attributes) [
  | some (array tags) ↦ tag_names tags
  | _ ↦ []
]
