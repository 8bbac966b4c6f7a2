-- ===== src/Http/Limits.antt =====
-- The `limit` of `RoomHistory` (user_handler.go) and of `ListReviews` (review_handler.go).
use manga_hub.Prelude.{
  ℤ, pos, le_ℤ, lt_ℤ, String, Bool, not, ◌==◌, ◌||◌, if◌then◌else◌, Option, none, some, atoi,
  trim_space,
}
use manga_hub.Http.Requests.{Request}

abbrev pub or_empty : Option String → String
or_empty none = ""
or_empty (some s) = s

abbrev limit_of : ℤ × Bool → Option ℤ
limit_of p =
    if not p.1 || le_ℤ p.0 (pos 0) then none else some (if lt_ℤ (pos 200) p.0 then pos 200 else p.0)

-- 50 where the query has none; `none` is the answer "invalid limit"
unfoldable pub query_limit : Request → Option ℤ
unfolding atoi
query_limit c =
    let raw = trim_space (or_empty (c.query "limit")) in
    if raw == "" then some (pos 50) else limit_of (atoi raw)
