-- ===== src/Auth/Revocation.antt =====
-- Logging out.
use mathlib.Core.Path.{subst, refl}
use manga_hub.Prelude.{
  ◌≤ℤ◌, ◌<ℤ◌, ◌⊎◌, String, List, [], ◌∷◌, true, ◌==◌, ◌≡◌, ◌∙◌, sym, some, ok, err, Error, new, Map,
  lookup, All, lookup-put, lookup-put_ne, lookup-drop_ne, Bool-cases, Result-cases, inl, inr, arith,
  eq_iff,
}
use manga_hub.Models.{Time}
use manga_hub.Auth.{Claims, Clocks, Crypto, purge, is_revoked, parse_token, revoke, logout, expiry}

module _ (token : String) (exp : Time) where
  -- the token is revoked until it expires
  abbrev pub Held : Map Time → Type 0
  Held m = lookup token m ≡ some exp

  lookup-purge : (now : Time) (m : Map Time) → now ≤ℤ exp → Held m → Held (purge now m)
  unfolding lookup purge
  lookup-purge now [] fresh found = found
  lookup-purge now ((t, e) ∷ m) fresh found = elim (Bool-cases (t == token)) [
    | inl same ↦ ground arith
    | inr other ↦ ground (arith, lookup-purge now m fresh)
  ]

  is_revoked-true :
      (now : Time) (m : Map Time) → now ≤ℤ exp → Held m → (is_revoked now token m).0 ≡ ok true
  unfolding is_revoked
  is_revoked-true now m fresh held = ground (arith, lookup-purge now m fresh held)

  is_revoked-Held :
      (now : Time) (t : String) (m : Map Time) → now ≤ℤ exp → Held m → Held (is_revoked now t m).1
  unfolding is_revoked
  is_revoked-Held now t m fresh held =
      ground
        (arith, lookup-purge now m fresh held, lookup-drop_ne t token (purge now m), eq_iff t token)

  module _ (crypto : Crypto) (secret : String) where
    parse_token-Held :
        (clocks : Clocks) (t : String) (m : Map Time)
        → clocks.checked ≤ℤ exp
        → Held m
        → Held (parse_token crypto secret clocks t m).1
    unfolding parse_token
    parse_token-Held clocks t m fresh held =
        ground (arith, is_revoked-Held clocks.checked t m fresh held)

    parse_token-refused :
        (clocks : Clocks) (m : Map Time)
        → clocks.checked ≤ℤ exp
        → Held m
        → (parse_token crypto secret clocks token m).0 ≡ err (new "invalid token")
    unfolding parse_token
    parse_token-refused clocks m fresh held =
        ground (arith, is_revoked-true clocks.checked m fresh held)

-- what is done to the revoked tokens, in the order of the mutex: any method's check of a token, and
-- the second half of a `Logout`, between which there may be steps of others
pub data Event : Type 0 where
  parses : Clocks → String → Event
  revokes : Time → String → Claims → Event

-- What the JWT library documents: the claims are the token's, and a token is not valid after the
-- time that its claim `exp` names.
pub record Lawful (crypto : Crypto) (secret : String) : Type 0 where
  pub claims :
      (now later : Time) (t : String) (c d : Claims)
      → crypto.verify secret now t ≡ ok c
      → crypto.verify secret later t ≡ ok d
      → c ≡ d
  pub expires :
      (now : Time) (t : String) (c : Claims) (exp : Time)
      → crypto.verify secret now t ≡ ok c
      → c.expires_at ≡ some exp
      → now ≤ℤ exp

module _ (crypto : Crypto) (secret : String) where
  -- a check reads the clock no later than `last`; a token is revoked with the claims it was valid with
  abbrev pub Possible : Time → Event → Type 0
  Possible last (parses clocks t) = clocks.checked ≤ℤ last
  Possible last (revokes now t c) = (at : Time) × (crypto.verify secret at t ≡ ok c)

  unfoldable pub run : List Event → Map Time → Map Time
  run [] m = m
  run (parses clocks t ∷ es) m = run es (parse_token crypto secret clocks t m).1
  run (revokes now t c ∷ es) m = run es (revoke crypto secret now t c m)

  module _ (jwt : Lawful crypto secret) (token : String) (exp : Time) (c : Claims) (valid_at : Time)
      (verified : crypto.verify secret valid_at token ≡ ok c)
      (expiring : c.expires_at ≡ some exp) where
    revoke-stores :
        (now at : Time) (d : Claims) (m : Map Time)
        → crypto.verify secret at token ≡ ok d
        → Held token exp (revoke crypto secret now token d m)
    unfolding revoke
    revoke-stores now at d m valid =
        let same : d ≡ c = jwt.claims at valid_at token d c valid verified in
        lookup-put token (expiry crypto secret now d) m ∙ rw (same, expiring) refl

    revoke-Held :
        (now at : Time) (t : String) (d : Claims) (m : Map Time)
        → crypto.verify secret at t ≡ ok d
        → Held token exp m
        → Held token exp (revoke crypto secret now t d m)
    revoke-Held now at t d m valid held = elim (Bool-cases (t == token)) [
      | inl same ↦
          let is = (eq_iff t token).0 same in
          subst (λ x. Held token exp (revoke crypto secret now x d m)) (sym is)
            (revoke-stores now at d m (subst (λ x. crypto.verify secret at x ≡ ok d) is valid))
      | inr other ↦
          unfold revoke in (lookup-put_ne t token (expiry crypto secret now d) m other ∙ held)
    ]

    run-Held :
        (es : List Event) (m : Map Time)
        → All (Possible exp) es
        → Held token exp m
        → Held token exp (run es m)
    unfolding run
    run-Held [] m possible held = held
    run-Held (parses clocks t ∷ es) m possible held =
        run-Held es (parse_token crypto secret clocks t m).1 possible.1
          (parse_token-Held token exp crypto secret clocks t m possible.0 held)
    run-Held (revokes now t d ∷ es) m possible held =
        run-Held es (revoke crypto secret now t d m) possible.1
          (revoke-Held now possible.0.0 t d m possible.0.1 held)

  parse_token-unverified :
      (clocks : Clocks) (t : String) (m : Map Time) (e : Error)
      → crypto.verify secret clocks.validated t ≡ err e
      → (parse_token crypto secret clocks t m).0 ≡ err (new "invalid token")
  unfolding parse_token
  parse_token-unverified clocks t m e h = ground arith

  parse_token-ok :
      (clocks : Clocks) (t : String) (m : Map Time) (c : Claims)
      → (parse_token crypto secret clocks t m).0 ≡ ok c
      → crypto.verify secret clocks.validated t ≡ ok c
  unfolding parse_token
  parse_token-ok clocks t m c h = ground arith

  logout-halves :
      (clocks : Clocks) (t : String) (m : Map Time) (c : Claims)
      → (parse_token crypto secret clocks t m).0 ≡ ok c
      → logout crypto secret clocks t m
        ≡ (ok tt, revoke crypto secret clocks.stored t c (parse_token crypto secret clocks t m).1)
  unfolding logout
  logout-halves clocks t m c parsed = rw (parsed, logout) refl

  -- With a JWT library that does what it documents: a Logout of a token that parses is a check and
  -- then a step that revokes it. Once that step is done, whatever steps others made before it, a token
  -- with an expiry time is refused after any further steps, if the validation reads a clock that is
  -- past the expiry, or if neither its own check nor a check before it reads a clock that is.
  pub logout_revokes :
      (out clocks : Clocks) (exp : Time) (token : String) (c : Claims) (m₀ m : Map Time)
      (es : List Event)
      → Lawful crypto secret
      → (parse_token crypto secret out token m₀).0 ≡ ok c
      → c.expires_at ≡ some exp
      → (exp <ℤ clocks.validated) ⊎ ((clocks.checked ≤ℤ exp) × All (Possible exp) es)
      → (logout crypto secret out token m₀ ≡ (
        ok tt,
        revoke crypto secret out.stored token c (parse_token crypto secret out token m₀).1,
      ))
        × ((parse_token crypto secret clocks token
              (run es (revoke crypto secret out.stored token c m))).0
            ≡ err (new "invalid token"))
  logout_revokes out clocks exp token c m₀ m es jwt parsed expiring when = (
    logout-halves out token m₀ c parsed,
    elim when [
      | inl past ↦ elim (Result-cases (crypto.verify secret clocks.validated token)) [
        | inr (e, refused) ↦ parse_token-unverified clocks token _ e refused
        | inl (d, valid) ↦
            let same = jwt.claims clocks.validated out.validated token d c valid verified in
            absurd (
              omega
                (arith, past, jwt.expires clocks.validated token d exp valid (rw same expiring)))
      ]
      | inr (early, possible) ↦ parse_token-refused token exp crypto secret clocks _ early (
          run-Held jwt token exp c out.validated verified expiring es _ possible (
            revoke-stores jwt token exp c out.validated verified expiring out.stored out.validated c
              m verified))
    ],
  )
    where
      verified : crypto.verify secret out.validated token ≡ ok c
      verified = parse_token-ok out token m₀ c parsed
