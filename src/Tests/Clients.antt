-- ===== src/Tests/Clients.antt =====
-- The theorems on listings, the command line client, gRPC and chat connections at concrete inputs.
use Prim.Native.String.{String}
use manga_hub.Prelude.{
  ℕ, pos, le_ℤ, List, [], ◌∷◌, true, false, ◌==◌, ◌||◌, ◌≡◌, ◌≤◌, join, refl, ◌⊎◌, All, take,
  Result, ok, err, failure, some, ascii, itoa, join_with, trim_space, arith,
}
use manga_hub.Auth.{Clocks}
use manga_hub.Store.Listing.Pages.{pages, pages-take}
use manga_hub.Cli.Text.{rune_count, fields, wrap_text, format_number}
use manga_hub.Cli.Text.Wrapped.{Fits, wrap_text-Fits}
use manga_hub.Cli.Text.Grouped.{format_number-groups}
use manga_hub.Cli.Library.{normalize_library_status, is_allowed_library_status}
use manga_hub.Cli.Library.Laws.{section_of, normalize_library_status-shelf}
use manga_hub.Http.Lists.{shelf_of}
use manga_hub.Http.Requests.{Request, text, current_user_id}
use manga_hub.Http.Members
use manga_hub.Grpc.{ProgressRequest, update_progress}
use manga_hub.Grpc.Laws.{update_progress-agrees}
use manga_hub.Chat.{Clock}
use manga_hub.Tests.{idle, service, piece}

pages-take_example : pages 1 2 (piece ∷ piece ∷ piece ∷ []) ≡ take 2 (piece ∷ piece ∷ piece ∷ [])
pages-take_example = pages-take 1 2 (piece ∷ piece ∷ piece ∷ []) (omega arith)

wrap_text-Fits_example :
    (join_with " " (wrap_text "a  bc def" 4) ≡ join_with " " (fields "a  bc def"))
    × All (Fits 4 (fields "a  bc def")) (wrap_text "a  bc def" 4)
wrap_text-Fits_example = wrap_text-Fits "a  bc def" 3

format_number-groups_example :
    ((rune_count (itoa (pos 1234567)) ≤ 3)
      × (format_number (pos 1234567) ≡ some (itoa (pos 1234567))))
    ⊎ ((head : String) × (parts : List String) × (format_number (pos 1234567)
          ≡ some (join_with "," (head ∷ parts)))
        × (1 ≤ rune_count head)
        × (rune_count head ≤ 3)
        × All (λ p. rune_count p ≡ 3) parts
        × (join (head ∷ parts) ≡ itoa (pos 1234567)))
format_number-groups_example = format_number-groups (pos 1234567)

normalize_library_status-shelf_example :
    (section_of (shelf_of (normalize_library_status "Plan to read"))
      ≡ normalize_library_status "Plan to read")
    × (is_allowed_library_status "Plan to read" ≡ true)
normalize_library_status-shelf_example = normalize_library_status-shelf "Plan to read"

abbrev quote : String → String
quote s = s

abbrev sent : Request
sent = record {
  values = λ key. some (text "u1");
  param = λ key. "";
  query = λ key. some "t";
  header = λ key. "";
}

abbrev asked : ProgressRequest
asked = record {
  user_id = " u1";
  manga_id = "m1";
  chapter = pos 12;
  volume = pos 0;
  notes = "";
  force = false;
}

asked_given :
    (trim_space asked.user_id == ""
      || (trim_space asked.manga_id == "" || le_ℤ asked.chapter (pos 0)))
    ≡ false
unfolding trim_space
asked_given = refl

same_user : current_user_id sent ≡ trim_space asked.user_id
unfolding current_user_id trim_space
same_user = refl

update_progress-agrees_example :
    (update_progress quote idle asked service).1
    ≡ (Members.update_progress quote idle false
        (pos 9)
        sent
        (ok (record {
          manga_id = trim_space asked.manga_id;
          current_chapter = asked.chapter;
          current_volume = asked.volume;
          status = "";
          notes = asked.notes;
          force = asked.force;
        }))
        service).2
update_progress-agrees_example =
    update_progress-agrees quote idle asked false (pos 9) sent service asked_given same_user

abbrev clock : ℕ → Clock
clock n = record { seconds = pos n; nanos = "7" }

abbrev reads : List (Result String)
reads = ok "hi" ∷ ok " " ∷ err (failure "closed") ∷ []

abbrev reading : Clocks
reading = record { validated = pos 5; checked = pos 5; stored = pos 5 }
