-- ===== src/Tests/Auth.antt =====
-- The authentication service's theorems at concrete inputs.
use manga_hub.Prelude.{
  pos, le_ℤ, ◌≤ℤ◌, ◌<ℤ◌, ◌⊎◌, inr, All, String, List, [], ◌∷◌, ◌≡◌, refl, some, ok, err, Result,
  new, failure, Map, lookup, if◌then◌else◌, arith,
}
use manga_hub.Models.{Time}
use manga_hub.Auth.{Claims, Clocks, Crypto, purge, is_revoked, parse_token, logout, revoke}
use manga_hub.Auth.Revocation.{Event, parses, revokes, Possible, Lawful, run, logout_revokes}

abbrev pub claims : Claims
claims = record {
  user_id = "u1";
  username = "ann";
  expires_at = some (pos 100);
  issued_at = some (pos 1);
  subject = "u1";
}

-- a library that knows one token
abbrev check : Time → String → Result Claims
check now token = if le_ℤ now (pos 100) then ok claims else err (failure "expired")

abbrev pub crypto : Crypto
crypto = record {
  generate = λ salt password. ok password;
  compare = λ hash password. ok tt;
  numeric_date = λ t. t;
  sign = λ secret c. ok "t";
  verify = λ secret now token. check now token;
}

check-claims : (now : Time) (t : String) (c : Claims) → check now t ≡ ok c → claims ≡ c
check-claims now t c h = ground arith

check-expires : (now : Time) (t : String) (c : Claims) → check now t ≡ ok c → now ≤ℤ pos 100
check-expires now t c h = ground arith

pub crypto-Lawful : Lawful crypto "secret"
crypto-Lawful = record {
  claims = λ now later t c d h k. ground (arith, check-claims now t c h, check-claims later t d k);
  expires = λ now t c exp h k. ground (arith, check-claims now t c h, check-expires now t c h, k);
}

-- a Logout at 5, and a request at 50
abbrev pub out : Clocks
out = record { validated = pos 5; checked = pos 5; stored = pos 6 }

abbrev pub clocks : Clocks
clocks = record { validated = pos 50; checked = pos 51; stored = pos 52 }

pub parses_out : (parse_token crypto "secret" out "t" []).0 ≡ ok claims
unfolding parse_token is_revoked purge lookup
parses_out = refl

-- between the two halves of the Logout of "t", "s" was revoked
abbrev pub meanwhile : Map Time
meanwhile = ("s", pos 90) ∷ []

-- and afterwards a token is checked and "s" revoked again
abbrev pub events : List Event
events =
    parses (record { validated = pos 7; checked = pos 7; stored = pos 7 }) "t"
    ∷ revokes (pos 8) "s" claims
    ∷ []

abbrev pub Early : Type 0
Early =
    (pos 100 <ℤ clocks.validated)
    ⊎ ((clocks.checked ≤ℤ pos 100) × All (Possible crypto "secret" (pos 100)) events)

pub early : Early
early = inr (omega arith, (omega arith, ((pos 8, refl), tt)))

logout_revokes_example :
    (logout crypto "secret" out "t" [] ≡ (
      ok tt,
      revoke crypto "secret" out.stored "t" claims (parse_token crypto "secret" out "t" []).1,
    ))
    × ((parse_token crypto "secret" clocks "t"
          (run crypto "secret" events (revoke crypto "secret" out.stored "t" claims meanwhile))).0
        ≡ err (new "invalid token"))
logout_revokes_example =
    logout_revokes crypto "secret" out clocks (pos 100) "t" claims [] meanwhile events crypto-Lawful
      parses_out refl early
