-- ===== src/Tests.antt =====
-- Sample data, and the theorems at concrete inputs.
pub mod Library
pub mod Progress
pub mod Udp
pub mod Hub
pub mod Tcp
pub mod Auth
pub mod Collector
pub mod Http
pub mod Clients
use manga_hub.Prelude.{ℕ, ℤ, pos, String, [], ◌∷◌, false, Option, none, ok, any, refl}
use manga_hub.Models.{Manga}
use manga_hub.Store.Tables.{Tables, UserRow, ProgressRow, Store, Tick, empty_tables}
use manga_hub.Store.Schema.{IsValid}
use manga_hub.Cache.{Redis, Service, Payload}

-- a driver that executes every statement at the second 1000
abbrev pub up : ℕ → Tick
up n = record { fails = false; why = ""; time = pos 1000 }

abbrev pub ann : UserRow
ann = record {
  user = record { id = "u1"; username = "ann"; email = "ann@example.org"; created_at = pos 1 };
  password_hash = "hash";
}

abbrev pub piece : Manga
piece = record {
  id = "m1";
  title = "One Piece";
  author = "Oda";
  genres = "Adventure" ∷ [];
  status = "ongoing";
  year = pos 1997;
  rating = pos 950;
  popularity = pos 1;
  total_chapters = pos 1100;
  description = "";
  cover_url = "";
}

abbrev pub reading : ProgressRow
reading = record {
  user_id = "u1";
  manga_id = "m1";
  current_chapter = pos 10;
  current_volume = pos 2;
  status = "reading";
  rating = Option.some (pos 9);
  started_at = Option.some (pos 5);
  notes = "good";
  updated_at = pos 500;
}

abbrev pub shelf : Tables
shelf = record empty_tables { users = ann ∷ []; manga = piece ∷ []; user_progress = reading ∷ [] }

abbrev pub sample : Store
sample = record { tables = shelf; driver = up }

-- a cache client that never answers
abbrev pub idle : Redis
idle = record {
  State = Unit;
  get = λ key c. (ok none, c);
  set = λ key value ttl c. (ok tt, c);
  incr = λ key c. (ok (pos 1), c);
}

abbrev pub service : Service idle
service = record { store = sample; cache = none }

pub shelf-IsValid : IsValid shelf
unfolding any
shelf-IsValid = record {
  user_ids = (refl, tt);
  usernames = (refl, tt);
  manga_ids = (refl, tt);
  progress = ((refl, tt), ((refl, refl), tt));
  history = tt;
  reviews = (tt, tt);
  chats = (tt, tt);
  privates = (tt, tt);
}
