-- ===== src/Cli/Passwords.antt =====
-- `isStrongPassword` of cmd/cli/commands/auth/auth_helpers.go.
use Prim.Native.Char.{Char, code}
use Prim.Native.String.{String, len}
use manga_hub.Prelude.{ℕ, leb, ltb, Bool, false, ◌&&◌, ◌||◌, if◌then◌else◌}

abbrev between : ℕ → ℕ → Char → Bool
between low high c = leb low (code c) && leb (code c) high

unfoldable pub has_rune : (Char → Bool) → String → Bool
has_rune p String.[] = false
has_rune p (String.◌∷◌ c s) = p c || has_rune p s

-- len() counts bytes
unfoldable pub is_strong_password : String → Bool
unfolding has_rune
is_strong_password password =
    if ltb (len password) 8
    then false
    else has_rune (between 65 90) password
      && (has_rune (between 97 122) password && has_rune (between 48 57) password)
