-- ===== src/Store/Schema/Rules.antt =====
-- The statements of the repositories, one by one: what each does to the tables keeps the schema.
use manga_hub.Prelude.{
  ℤ, pos, String, List, [], ◌∷◌, ◌++◌, Bool, true, ◌≡◌, refl, ◌∙◌, ◌==◌, any, All-append, arith,
  Option-cases, Bool-cases, inl, inr, some,
}
use manga_hub.Models.{Time, Manga, Review, LibraryEntry, ProgressHistoryEntry}
use manga_hub.Store.Sql.{delete_where}
use manga_hub.Store.Sql.Rows.{
  any-append, any-find, All-delete_where, All-update_where, All-upsert, All-map, any-update_where,
}
use manga_hub.Store.Sql.Keys.{
  at, Distinct, Distinct-append, Distinct-delete_where, Distinct-update_where, Distinct-upsert,
  string_eq, pair_eq,
}
use manga_hub.Store.Tables.{Tables, UserRow, ProgressRow, find_user, find_manga}
use manga_hub.Store.Users.{insert_user, set_password}
use manga_hub.Store.Library.{upsert_row, excluded, overwrite, upsert_progress, is_key}
use manga_hub.Store.History.{insert_history}
use manga_hub.Store.Reviews.{insert_review, add_helpful, is_review}
use manga_hub.Store.Schema.{
  user_key, name_key, manga_key, progress_key, review_key, HasUser, HasManga, RefersTo,
  ProgressValid, HistoryValid, ReviewsValid, IsValid,
}

any-append-left :
    (p : UserRow → Bool) (xs ys : List UserRow) → any p xs ≡ true → any p (xs ++ ys) ≡ true
any-append-left p xs ys h = ground (arith, any-append p xs ys)

HasUser-of_find :
    (id : String) (users : List UserRow) (u : UserRow)
    → find_user id users ≡ some u
    → HasUser users id
unfolding find_user
HasUser-of_find id users u e = any-find (at user_key id) users u e

HasManga-of_find :
    (id : String) (ms : List Manga) (m : Manga) → find_manga id ms ≡ some m → HasManga ms id
unfolding find_manga
HasManga-of_find id ms m e = any-find (at manga_key id) ms m e

module _ (t : Tables) (v : IsValid t) where
  -- With more users every reference still holds.
  users-IsValid :
      (users : List UserRow)
      → ((id : String) → HasUser t.users id → HasUser users id)
      → Distinct user_key users
      → Distinct name_key users
      → IsValid (record t { users = users })
  users-IsValid users grows ids names = record {
    user_ids = ids;
    usernames = names;
    manga_ids = v.manga_ids;
    progress = (
      v.progress.0,
      All-map _ _ t.user_progress (λ r h. (grows r.user_id h.0, h.1)) v.progress.1,
    );
    history = All-map _ _ t.user_progress_history (λ r h. (grows r.user_id h.0, h.1)) v.history;
    reviews = (v.reviews.0, All-map _ _ t.reviews (λ r h. (grows r.user_id h.0, h.1)) v.reviews.1);
    chats = (v.chats.0, All-map _ _ t.chat_messages (λ r h. grows r.user_id h) v.chats.1);
    privates = (
      v.privates.0,
      All-map _ _ t.private_messages
          (λ r h. (grows r.message.sender_id h.0, grows r.message.recipient_id h.1)) v.privates.1,
    );
  }

  progress-IsValid :
      (rows : List ProgressRow)
      → ProgressValid t.users t.manga rows
      → IsValid (record t { user_progress = rows })
  progress-IsValid rows h = record {
    user_ids = v.user_ids;
    usernames = v.usernames;
    manga_ids = v.manga_ids;
    progress = h;
    history = v.history;
    reviews = v.reviews;
    chats = v.chats;
    privates = v.privates;
  }

  history-IsValid :
      (rows : List ProgressHistoryEntry) (seq : ℤ)
      → HistoryValid t.users t.manga rows
      → IsValid (record t { user_progress_history = rows; history_seq = seq })
  history-IsValid rows seq h = record {
    user_ids = v.user_ids;
    usernames = v.usernames;
    manga_ids = v.manga_ids;
    progress = v.progress;
    history = h;
    reviews = v.reviews;
    chats = v.chats;
    privates = v.privates;
  }

  reviews-IsValid :
      (rows : List Review)
      → ReviewsValid t.users t.manga rows
      → IsValid (record t { reviews = rows })
  reviews-IsValid rows h = record {
    user_ids = v.user_ids;
    usernames = v.usernames;
    manga_ids = v.manga_ids;
    progress = v.progress;
    history = v.history;
    reviews = h;
    chats = v.chats;
    privates = v.privates;
  }

pub insert_user-IsValid :
    (id name email hash : String) (now : Time) (t : Tables)
    → IsValid t
    → IsValid (insert_user id name email hash now t).1
unfolding insert_user
insert_user-IsValid id name email hash now t v =
    elim (Bool-cases (any (λ r. r.user.id == id) t.users)) [
      | inl taken ↦ rw taken v
      | inr free ↦ elim (Bool-cases (any (λ r. r.user.username == name) t.users)) [
        | inl taken ↦ rw (free, taken) v
        | inr fresh ↦
            rw (free, fresh)
              (users-IsValid t v _ (λ k h. any-append-left (at user_key k) t.users _ h)
                (Distinct-append user_key t.users _ free v.user_ids)
                (Distinct-append name_key t.users _ fresh v.usernames))
      ]
    ]

pub set_password-IsValid :
    (id hash : String) (t : Tables)
    → IsValid t
    → IsValid (record t { users = set_password id hash t.users })
unfolding set_password
set_password-IsValid id hash t v =
    users-IsValid t v _
      (λ k h. any-update_where (at user_key id) (at user_key k) _ t.users (λ x. refl) ∙ h)
      (Distinct-update_where user_key _ (λ x. refl) (at user_key id) t.users v.user_ids)
      (Distinct-update_where name_key _ (λ x. refl) (at user_key id) t.users v.usernames)

pub upsert_progress-IsValid :
    (user_id : String) (entry : LibraryEntry) (now : Time) (t : Tables)
    → IsValid t
    → IsValid (upsert_progress user_id entry now t).1
unfolding upsert_progress
upsert_progress-IsValid user_id entry now t v = elim (Option-cases (find_user user_id t.users)) [
  | inl missing ↦ rw (missing, upsert_progress) v
  | inr (u, user) ↦ elim (Option-cases (find_manga entry.manga_id t.manga)) [
    | inl missing ↦ rw (user, missing, upsert_progress) v
    | inr (m, manga) ↦
        let x : ProgressRow = excluded user_id entry now in
        rw (user, manga, upsert_progress)
          (progress-IsValid t v (upsert_row x t.user_progress) (
            Distinct-upsert progress_key (λ r. overwrite r x) (λ r. refl) x t.user_progress
                v.progress.0,
            All-upsert (λ r. RefersTo t.users t.manga r.user_id r.manga_id)
                (is_key user_id entry.manga_id) (λ r. overwrite r x) x t.user_progress (λ r h. h)
                (
                  HasUser-of_find user_id t.users u user,
                  HasManga-of_find entry.manga_id t.manga m manga,
                )
                v.progress.1,
          ))
  ]
]

pub delete_entry-IsValid :
    (p : ProgressRow → Bool) (t : Tables)
    → IsValid t
    → IsValid (record t { user_progress = delete_where p t.user_progress })
delete_entry-IsValid p t v = progress-IsValid t v _ (
  Distinct-delete_where progress_key p t.user_progress v.progress.0,
  All-delete_where _ p t.user_progress v.progress.1,
)

pub insert_history-IsValid :
    (entry : ProgressHistoryEntry) (now : Time) (t : Tables)
    → IsValid t
    → IsValid (insert_history entry now t).1
unfolding insert_history
insert_history-IsValid entry now t v = elim (Option-cases (find_user entry.user_id t.users)) [
  | inl missing ↦ rw (missing, insert_history) v
  | inr (u, user) ↦ elim (Option-cases (find_manga entry.manga_id t.manga)) [
    | inl missing ↦ rw (user, missing, insert_history) v
    | inr (m, manga) ↦
        rw (user, manga, insert_history)
          (history-IsValid t v _ _ (
            All-append _ t.user_progress_history (_ ∷ []) v.history (
              (
                HasUser-of_find entry.user_id t.users u user,
                HasManga-of_find entry.manga_id t.manga m manga,
              ),
              tt,
            )))
  ]
]

pub insert_review-IsValid :
    (x : Review) (now : Time) (t : Tables) → IsValid t → IsValid (insert_review x now t).1
unfolding insert_review
insert_review-IsValid x now t v = elim (Option-cases (find_user x.user_id t.users)) [
  | inl missing ↦ rw (missing, insert_review) v
  | inr (u, user) ↦ elim (Option-cases (find_manga x.manga_id t.manga)) [
    | inl missing ↦ rw (user, missing, insert_review) v
    | inr (m, manga) ↦
        let renewed : Review → Review =
          λ r. record r { rating = x.rating; text = x.text; timestamp = x.timestamp } in
        let fresh : Review = record x { helpful = pos 0 } in
        rw (user, manga, insert_review)
          (reviews-IsValid t v _ (
            Distinct-upsert review_key renewed (λ r. refl) fresh t.reviews v.reviews.0,
            All-upsert (λ r. RefersTo t.users t.manga r.user_id r.manga_id)
                (is_review x.user_id x.manga_id) renewed fresh t.reviews (λ r h. h)
                (
                  HasUser-of_find x.user_id t.users u user,
                  HasManga-of_find x.manga_id t.manga m manga,
                )
                v.reviews.1,
          ))
  ]
]

pub add_helpful-IsValid :
    (user_id manga_id : String) (t : Tables)
    → IsValid t
    → IsValid (record t { reviews = add_helpful user_id manga_id t.reviews })
unfolding add_helpful
add_helpful-IsValid user_id manga_id t v = reviews-IsValid t v _ (
  Distinct-update_where review_key _ (λ r. refl) (is_review user_id manga_id) t.reviews v.reviews.0,
  All-update_where (λ r. RefersTo t.users t.manga r.user_id r.manga_id) (is_review user_id manga_id)
      _ t.reviews (λ r h. h) v.reviews.1,
)
