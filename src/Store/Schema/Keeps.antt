-- ===== src/Store/Schema/Keeps.antt =====
-- Every method of the repositories keeps the schema, whatever the driver does with its statements.
use manga_hub.Prelude.{
  String, List, Bool, true, false, Result, Option-cases, inl, inr, if◌then◌else◌,
}
use manga_hub.Exec.Keeps.{Keeps, Keeps-bind}
use manga_hub.Models.{Time, LibraryEntry}
use manga_hub.Store.Tables.Keeps.{Keeps-statement as tables_keep}
use manga_hub.Store.Tables.{Tables, Store, Statement, statement, find_user, find_username}
use manga_hub.Store.Users.{
  get_user_by_id, get_user_by_username, get_user_by_username_with_password,
  get_user_by_id_with_password, create_user, update_user_password,
}
use manga_hub.Store.Library.{
  get_user_library, get_library_entry, find_entry, returned_entry, upsert_library_entry,
  delete_library_entry, select_entry, is_key,
}
use manga_hub.Store.Schema.{IsValid}
use manga_hub.Store.Schema.Rules.{
  insert_user-IsValid, set_password-IsValid, upsert_progress-IsValid, delete_entry-IsValid,
}

abbrev pub StoreValid : Store → Type 0
StoreValid s = IsValid s.tables

pub Keeps-statement :
    {A : Type 0} (label : String) (body : Statement A)
    → ((now : Time) (t : Tables) → IsValid t → IsValid (body now t).1)
    → Keeps StoreValid (statement label body)
Keeps-statement label body keeps = tables_keep IsValid label body keeps

-- a statement with two outcomes, chosen by a test of the tables
pub if-IsValid :
    {A : Type 0} (b : Bool) (x y : Result A × Tables)
    → IsValid x.1
    → IsValid y.1
    → IsValid (if b then x else y).1
if-IsValid true x y vx vy = vx
if-IsValid false x y vx vy = vy

pub get_user_by_id-Keeps : (id : String) → Keeps StoreValid (get_user_by_id id)
unfolding get_user_by_id
get_user_by_id-Keeps id = Keeps-statement _ _ λ now t v.
    elim (Option-cases (find_user id t.users)) [
      | inl missing ↦ rw missing v
      | inr (r, found) ↦ rw found v
    ]

pub get_user_by_username-Keeps : (name : String) → Keeps StoreValid (get_user_by_username name)
unfolding get_user_by_username
get_user_by_username-Keeps name = Keeps-statement _ _ λ now t v.
    elim (Option-cases (find_username name t.users)) [
      | inl missing ↦ rw missing v
      | inr (r, found) ↦ rw found v
    ]

pub get_user_by_username_with_password-Keeps :
    (name : String) → Keeps StoreValid (get_user_by_username_with_password name)
unfolding get_user_by_username_with_password
get_user_by_username_with_password-Keeps name = Keeps-statement _ _ λ now t v.
    elim (Option-cases (find_username name t.users)) [
      | inl missing ↦ rw missing v
      | inr (r, found) ↦ rw found v
    ]

pub get_user_by_id_with_password-Keeps :
    (id : String) → Keeps StoreValid (get_user_by_id_with_password id)
unfolding get_user_by_id_with_password
get_user_by_id_with_password-Keeps id = Keeps-statement _ _ λ now t v.
    elim (Option-cases (find_user id t.users)) [
      | inl missing ↦ rw missing v
      | inr (r, found) ↦ rw found v
    ]

pub create_user-Keeps :
    (id name email hash : String) → Keeps StoreValid (create_user id name email hash)
unfolding create_user
create_user-Keeps id name email hash =
    Keeps-bind _ _ (Keeps-statement _ _ (insert_user-IsValid id name email hash))
      (λ _. get_user_by_id-Keeps id)

pub update_user_password-Keeps :
    (id hash : String) → Keeps StoreValid (update_user_password id hash)
unfolding update_user_password
update_user_password-Keeps id hash =
    Keeps-statement _ _ λ now t v. if-IsValid _ _ _ (set_password-IsValid id hash t v) v

pub get_user_library-Keeps : (id : String) → Keeps StoreValid (get_user_library id)
unfolding get_user_library
get_user_library-Keeps id = Keeps-statement _ _ λ now t v. v

pub returned_entry-Keeps :
    (id : String) (items : List LibraryEntry) → Keeps StoreValid (returned_entry id items)
unfolding returned_entry
returned_entry-Keeps id items = record {
  after = λ s v. elim (Option-cases (find_entry id items)) [
    | inl missing ↦ rw (missing, returned_entry) v
    | inr (x, found) ↦ rw (found, returned_entry) v
  ];
}

pub upsert_library_entry-Keeps :
    (id : String) (entry : LibraryEntry) → Keeps StoreValid (upsert_library_entry id entry)
unfolding upsert_library_entry
upsert_library_entry-Keeps id entry =
    Keeps-bind _ _ (Keeps-statement _ _ (upsert_progress-IsValid id entry)) (λ _.
      Keeps-bind _ _ (get_user_library-Keeps id)
        (λ items. returned_entry-Keeps entry.manga_id items))

pub get_library_entry-Keeps : (u m : String) → Keeps StoreValid (get_library_entry u m)
unfolding get_library_entry
get_library_entry-Keeps u m = Keeps-statement _ _ λ now t v.
    elim (Option-cases (select_entry u m t)) [
      | inl missing ↦ rw missing v
      | inr (r, found) ↦ rw found v
    ]

pub delete_library_entry-Keeps : (u m : String) → Keeps StoreValid (delete_library_entry u m)
unfolding delete_library_entry
delete_library_entry-Keeps u m =
    Keeps-statement _ _ λ now t v. if-IsValid _ _ _ (delete_entry-IsValid (is_key u m) t v) v
