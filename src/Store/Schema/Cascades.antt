-- ===== src/Store/Schema/Cascades.antt =====
-- The statements on `manga`, whose deletions cascade, and those on the message tables.
use manga_hub.Prelude.{
  String, List, [], ◌∷◌, ◌++◌, false, ◌≡◌, refl, ◌∙◌, ◌==◌, any, All-append, arith, eq_iff,
  Option-cases, Bool-cases, inl, inr, some,
}
use manga_hub.Models.{Time, Manga, ChatMessage, PrivateMessage}
use manga_hub.Store.Sql.{delete_where}
use manga_hub.Store.Sql.Rows.{
  any-append, any-find, any-delete_where_ne, any-delete_where_self, any-update_where, All-kept,
  All-map,
}
use manga_hub.Store.Sql.Keys.{
  at, Distinct, Distinct-append, Distinct-delete_where, Distinct-update_where, string_eq, pair_eq,
}
use manga_hub.Store.Tables.{Tables, UserRow, find_user}
use manga_hub.Store.Catalog.{delete_manga_rows, replace_manga, set_manga}
use manga_hub.Store.Chats.{insert_chat_row, insert_private_row}
use manga_hub.Store.Schema.{
  user_key, manga_key, progress_key, review_key, chat_key, private_key, HasUser, HasManga, IsValid,
}

HasUser-of_find :
    (id : String) (users : List UserRow) (u : UserRow)
    → find_user id users ≡ some u
    → HasUser users id
unfolding find_user
HasUser-of_find id users u e = any-find (at user_key id) users u e

-- a manga with another id is still there
HasManga-delete_where :
    (id other : String) (ms : List Manga)
    → (other == id) ≡ false
    → HasManga ms other
    → HasManga (delete_where (at manga_key id) ms) other
HasManga-delete_where id other ms h has =
    any-delete_where_ne (at manga_key id) (at manga_key other) ms
      (λ m e. ground (arith, eq_iff m.id id, eq_iff m.id other, eq_iff other id))
    ∙ has

HasManga-append :
    (ms : List Manga) (m : Manga) (id : String) → HasManga ms id → HasManga (ms ++ m ∷ []) id
HasManga-append ms m id h = ground (arith, any-append (at manga_key id) ms (m ∷ []))

module _ (t : Tables) (v : IsValid t) (ms : List Manga) where
  -- A change of `manga` that keeps the ids referenced.
  manga-IsValid :
      ((id : String) → HasManga t.manga id → HasManga ms id)
      → Distinct manga_key ms
      → IsValid (record t { manga = ms })
  manga-IsValid grows ids = record {
    user_ids = v.user_ids;
    usernames = v.usernames;
    manga_ids = ids;
    progress = (
      v.progress.0,
      All-map _ _ t.user_progress (λ r h. (h.0, grows r.manga_id h.1)) v.progress.1,
    );
    history = All-map _ _ t.user_progress_history (λ r h. (h.0, grows r.manga_id h.1)) v.history;
    reviews = (v.reviews.0, All-map _ _ t.reviews (λ r h. (h.0, grows r.manga_id h.1)) v.reviews.1);
    chats = v.chats;
    privates = v.privates;
  }

pub set_manga-IsValid :
    (id : String) (x : Manga) (t : Tables)
    → IsValid t
    → IsValid (record t { manga = set_manga id x t.manga })
unfolding set_manga
set_manga-IsValid id x t v =
    manga-IsValid t v _
      (λ k h. any-update_where (at manga_key id) (at manga_key k) _ t.manga (λ m. refl) ∙ h)
      (Distinct-update_where manga_key _ (λ m. refl) (at manga_key id) t.manga v.manga_ids)

pub delete_manga_rows-IsValid :
    (id : String) (t : Tables) → IsValid t → IsValid (delete_manga_rows id t)
unfolding delete_manga_rows
delete_manga_rows-IsValid id t v = record {
  user_ids = v.user_ids;
  usernames = v.usernames;
  manga_ids = Distinct-delete_where manga_key (at manga_key id) t.manga v.manga_ids;
  progress = (
    Distinct-delete_where progress_key _ t.user_progress v.progress.0,
    All-kept _ _ _ t.user_progress
        (λ r other h. (h.0, HasManga-delete_where id r.manga_id t.manga other h.1)) v.progress.1,
  );
  history =
      All-kept _ _ _ t.user_progress_history
        (λ r other h. (h.0, HasManga-delete_where id r.manga_id t.manga other h.1)) v.history;
  reviews = (
    Distinct-delete_where review_key _ t.reviews v.reviews.0,
    All-kept _ _ _ t.reviews
        (λ r other h. (h.0, HasManga-delete_where id r.manga_id t.manga other h.1)) v.reviews.1,
  );
  chats = v.chats;
  privates = v.privates;
}

pub replace_manga-IsValid : (m : Manga) (t : Tables) → IsValid t → IsValid (replace_manga m t)
unfolding replace_manga
replace_manga-IsValid m t v =
    let cleared : Tables = delete_manga_rows m.id t in
    let w : IsValid cleared = delete_manga_rows-IsValid m.id t v in
    manga-IsValid cleared w (cleared.manga ++ m ∷ []) (λ k h. HasManga-append cleared.manga m k h)
      (Distinct-append manga_key cleared.manga m (any-delete_where_self (at manga_key m.id) t.manga)
        w.manga_ids)

pub insert_chat_row-IsValid :
    (id : String) (msg : ChatMessage) (room : String) (now : Time) (t : Tables)
    → IsValid t
    → IsValid (insert_chat_row id msg room now t).1
unfolding insert_chat_row
insert_chat_row-IsValid id msg room now t v =
    elim (Bool-cases (any (λ r. r.id == id) t.chat_messages)) [
      | inl taken ↦ rw taken v
      | inr free ↦ elim (Option-cases (find_user msg.user_id t.users)) [
        | inl missing ↦ rw (free, missing, insert_chat_row) v
        | inr (u, user) ↦
            rw (free, user, insert_chat_row)
              (record {
                user_ids = v.user_ids;
                usernames = v.usernames;
                manga_ids = v.manga_ids;
                progress = v.progress;
                history = v.history;
                reviews = v.reviews;
                chats = (
                  Distinct-append chat_key t.chat_messages _ free v.chats.0,
                  All-append _ t.chat_messages (_ ∷ []) v.chats.1
                      (HasUser-of_find msg.user_id t.users u user, tt),
                );
                privates = v.privates;
              })
      ]
    ]

pub insert_private_row-IsValid :
    (id : String) (pm : PrivateMessage) (now : Time) (t : Tables)
    → IsValid t
    → IsValid (insert_private_row id pm now t).1
unfolding insert_private_row
insert_private_row-IsValid id pm now t v =
    elim (Bool-cases (any (λ r. r.id == id) t.private_messages)) [
      | inl taken ↦ rw taken v
      | inr free ↦ elim (Option-cases (find_user pm.sender_id t.users)) [
        | inl missing ↦ rw (free, missing, insert_private_row) v
        | inr (s, sender) ↦ elim (Option-cases (find_user pm.recipient_id t.users)) [
          | inl missing ↦ rw (free, sender, missing, insert_private_row) v
          | inr (r, recipient) ↦
              rw (free, sender, recipient, insert_private_row)
                (record {
                  user_ids = v.user_ids;
                  usernames = v.usernames;
                  manga_ids = v.manga_ids;
                  progress = v.progress;
                  history = v.history;
                  reviews = v.reviews;
                  chats = v.chats;
                  privates = (
                    Distinct-append private_key t.private_messages _ free v.privates.0,
                    All-append _ t.private_messages (_ ∷ []) v.privates.1 (
                      (
                        HasUser-of_find pm.sender_id t.users s sender,
                        HasUser-of_find pm.recipient_id t.users r recipient,
                      ),
                      tt,
                    ),
                  );
                })
        ]
      ]
    ]
