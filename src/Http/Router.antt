-- ===== src/Http/Router.antt =====
-- internal/api/router/router.go: which handler a request goes to, and which run behind the
-- middleware. Gin finds the route; a call is a route with the decoded body of the request. Three
-- routes without the middleware are not among them: /health, the Swagger pages, and /ws/chat, whose
-- handler is Chat.handler.
pub mod Laws
pub mod Library
pub mod Owners
use Prim.Native.String.{◌++◌ as str_append}
use manga_hub.Prelude.{
  String, List, [], ◌∷◌, ℤ, Bool, Option, none, some, Result, ◌⊎◌, inl, inr, Map, Unicode,
}
use manga_hub.Models.{
  RegisterRequest, LoginRequest, ChangePasswordRequest, AddLibraryRequest, UpdateProgressRequest,
  UpdateLibraryRequest, SendPmRequest, CreateMangaRequest, UpdateMangaRequest, CreateReviewRequest,
  ProgressUpdate, Time,
}
use manga_hub.Store.Tables.{Store}
use manga_hub.Store.Listing.{Sqlite}
use manga_hub.Cache.{Redis, Service}
use manga_hub.Auth.{Crypto, Clocks, AuthService}
use manga_hub.Hub.{Hub, PrivateDelivery}
use manga_hub.Http.Requests.{Request, Response}
use manga_hub.Http.Members
use manga_hub.Http.Titles
use manga_hub.Http.Feedback
use manga_hub.Http.Accounts
use manga_hub.Http.Accounts.{middleware}
use manga_hub.Http.Rooms

-- the routes without the middleware that are modelled here: those on accounts and manga
pub data Public : Type 0 where
  register : Result RegisterRequest → Public
  login : Result LoginRequest → Public
  list_manga get_manga list_reviews : Public

-- the routes behind it
pub data Protected : Type 0 where
  logout : Protected
  change_password : Result ChangePasswordRequest → Protected
  rooms_users room_users room_history : Protected
  get_me get_library get_progress_history remove_from_library : Protected
  send_pm : Result SendPmRequest → Protected
  add_to_library : Result AddLibraryRequest → Protected
  update_progress : Result UpdateProgressRequest → Protected
  update_library : Result UpdateLibraryRequest → Protected
  create_manga : Result CreateMangaRequest → Protected
  update_manga : Result UpdateMangaRequest → Protected
  delete_manga get_my_review mark_review_helpful : Protected
  upsert_review : Result CreateReviewRequest → Protected

-- what the handlers read beside the request: the clock at the two reads of an IssueToken, as the
-- middleware reads it, as a Logout in the handler does after that, and in seconds; the text of the
-- nanoseconds in an id, bcrypt's salt, the hub, and which dependencies there are
pub record Outside : Type 0 where
  pub issued : Time × Time
  pub admitted : Clocks
  pub left : Clocks
  pub unix : Time
  pub nanos : String
  pub salt : String
  pub hub : Hub
  pub has_hub : Bool
  pub has_chat : Bool
  pub has_broadcaster : Bool

-- what a handler sends beside its answer
pub data Effect : Type 0 where
  publishes : ProgressUpdate → Effect
  delivers : PrivateDelivery → Effect

-- the services share one store
pub record Api (r : Redis) : Type 0 where
  pub service : Service r
  pub revoked : Map Time

module _ (r : Redis) where
  abbrev pub Outcome : Type 0
  Outcome = Response × Option Effect × Api r

  abbrev pub silent : (Service r → Response × Service r) → Api r → Outcome
  silent handler s = ((handler s.service).0, none, record s { service = (handler s.service).1 })

  abbrev reads : (Hub → Response) → Outside → Api r → Outcome
  reads handler o s = (handler o.hub, none, s)

  abbrev pub account : AuthService → Api r → Api r
  account a s = record s { service = record s.service { store = a.store }; revoked = a.revoked }

  abbrev pub accounts : Api r → AuthService
  accounts s = record { store = s.service.store; revoked = s.revoked }

  abbrev pub on_accounts : (AuthService → Response × AuthService) → Api r → Outcome
  on_accounts handler s = ((handler (accounts s)).0, none, account (handler (accounts s)).1 s)

  abbrev sent : {A : Type 0} → (A → Effect) → Option A → Option Effect
  sent effect none = none
  sent effect (some a) = some (effect a)

  abbrev loud :
      {A : Type 0} → (A → Effect) → (Service r → Response × Option A × Service r) → Api r → Outcome
  loud effect handler s = (
    (handler s.service).0,
    sent effect (handler s.service).1,
    record s { service = (handler s.service).2 },
  )

  -- `room_history` reads the store beside the cache
  abbrev on_store : (Store → Response × Store) → Service r → Response × Service r
  on_store handler s = ((handler s.store).0, record s { store = (handler s.store).1 })

  -- `quote` is the verb %q, `hundredths` strconv.ParseFloat, `digest` SHA-1 as text
  module _ (quote : String → String) ⦃u : Unicode⦄ (crypto : Crypto) (secret : String)
      (hundredths : String → ℤ) (sql : Sqlite) (digest : String → String) where
    unfoldable pub serve_public : Outside → Public → Request → Api r → Outcome
    serve_public o (register body) c = on_accounts (
        Accounts.register_account quote crypto secret o.issued (str_append "user-" o.nanos) o.salt
          body)
    serve_public o (login body) c =
        on_accounts (Accounts.login_account quote crypto secret o.issued body)
    serve_public o list_manga c = silent (Titles.list_manga quote r hundredths sql digest c)
    serve_public o get_manga c = silent (Titles.get_manga quote r c)
    serve_public o list_reviews c = silent (Feedback.list_reviews quote r digest c)

    unfoldable pub handle : Outside → Protected → Request → Api r → Outcome
    handle o logout c = on_accounts (Accounts.logout_account quote crypto secret o.left c)
    handle o (change_password body) c =
        on_accounts (Accounts.change_account_password quote crypto secret o.left o.salt c body)
    handle o rooms_users c = reads Rooms.rooms_users o
    handle o room_users c = reads (Rooms.room_users c) o
    handle o room_history c = silent (on_store (Rooms.room_history o.has_chat c))
    handle o get_me c = silent (Members.get_me quote r c)
    handle o get_library c = silent (Members.get_library quote r c)
    handle o get_progress_history c = silent (Members.get_progress_history quote r c)
    handle o remove_from_library c = silent (Members.remove_from_library quote r c)
    handle o (send_pm body) c =
        loud delivers (Rooms.send_pm quote r o.has_chat o.has_hub o.unix o.nanos c body)
    handle o (add_to_library body) c = silent (Members.add_to_library quote r c body)
    handle o (update_progress body) c =
        loud publishes (Members.update_progress quote r o.has_broadcaster o.unix c body)
    handle o (update_library body) c = silent (Members.update_library quote r c body)
    handle o (create_manga body) c = silent (Titles.create_manga quote r body)
    handle o (update_manga body) c = silent (Titles.update_manga quote r c body)
    handle o delete_manga c = silent (Titles.delete_manga quote r c)
    handle o get_my_review c = silent (Feedback.get_my_review quote r c)
    handle o mark_review_helpful c = silent (Feedback.mark_review_helpful quote r c)
    handle o (upsert_review body) c = silent (Feedback.upsert_review quote r o.unix c body)

    -- the middleware's refusal, or the handler on what it passes on
    unfoldable pub serve_protected : Outside → Protected → Request → Api r → Outcome
    unfolding middleware handle
    serve_protected o call c s =
        let passed = middleware quote crypto secret o.admitted c (accounts s) in
        elim passed.0 [
          | inl refusal ↦ (refusal, none, account passed.1 s)
          | inr c' ↦ handle o call c' (account passed.1 s)
        ]
