-- ===== src/Gate/SignedIn.antt =====
-- Whom the gate of internal/app/authz.go lets through.
use erzhuang_project.Prelude.{
  ℕ, ◌+◌, ◌<◌, ◌≡◌, refl, sym, subst, inl, inr, Bool, true, false, Option, none, some, arith,
  Bool-cases, Option-cases,
}
use erzhuang_project.Prelude.Map.{lookup, nat_eq}
use erzhuang_project.Prelude.Text.{Text, CaseTable}
use erzhuang_project.Session.{
  Session, Sessions, SessionError, absolute_timeout, touch_auth_session, or_clock,
  default_auth_idle_timeout, default_auth_absolute_timeout,
}
use erzhuang_project.Session.Expiry.{touch_session_active}
use erzhuang_project.Access.Users.{Users, ok, get_auth_user_by_email}
use erzhuang_project.Access.Users.Mutation.{Result-cases}
use erzhuang_project.Gate.{
  Request, AuthConfig, Claims, Identity, Authenticated, authenticated, refused, Gate, serve_open,
  serve_as, refuse, auth_user, cookie_value, is_blank, auth_required, valid_claims,
  validate_sso_token, identify, bypass, after_touch, after_sso, to_gate, authenticate_sso,
  use_session, with_store, authenticate_request, serves_unchecked, auth_gate, is_api_path,
  is_auth_gate_exempt_path,
}

module _ (table : CaseTable) (sha : Text → Text) (digest : Text → ℕ) (decode : Text → Option Claims)
    (config : AuthConfig) (users : Users) where
  -- The SSO token of the request is valid and names the enabled user of the identity.
  pub record Identified (r : Request) (now : ℕ) (identity : Identity) : Type 0 where
    pub claims : Claims
    pub decoded : decode (cookie_value r.sso_cookie) ≡ some claims
    pub valid : valid_claims table config claims now ≡ true
    pub found :
        get_auth_user_by_email table sha users (auth_user claims).email ≡ ok identity.record_of_user
    pub is_enabled : identity.record_of_user.enabled ≡ true

  -- The session cookie of the request opens a session of the user that has not ended.
  pub record InSession (sessions : Sessions) (r : Request) (time : ℕ) (identity : Identity)
      : Type 0 where
    pub session : Session
    pub held : lookup (digest (cookie_value r.session_cookie)) sessions ≡ some session
    pub owner : session.user_id ≡ identity.record_of_user.id
    pub not_revoked : session.revoked_at ≡ 0
    pub not_too_old : time < session.created_at + default_auth_absolute_timeout
    pub not_expired : time < session.expires_at
    pub not_idle : time < session.last_activity + default_auth_idle_timeout

  abbrev pub SsoOk : Request → ℕ → Authenticated → Type 0
  SsoOk r now (authenticated identity) = Identified r now identity
  SsoOk r now (refused e) = Unit {0}

  validate_sso_token_sound :
      (token : Text) (now : ℕ) (claims : Claims)
      → validate_sso_token table sha digest decode config users token now ≡ some claims
      → (decode token ≡ some claims) × (valid_claims table config claims now ≡ true)
  unfolding validate_sso_token
  validate_sso_token_sound token now claims h = ground arith

  identify-SsoOk :
      (r : Request) (now : ℕ) (claims : Claims)
      → decode (cookie_value r.sso_cookie) ≡ some claims
      → valid_claims table config claims now ≡ true
      → SsoOk r now (identify table sha digest decode config users claims)
  unfolding identify
  identify-SsoOk r now claims d v =
      elim (Result-cases (get_auth_user_by_email table sha users (auth_user claims).email)) [
        | inl (e, failed) ↦ rw (failed, identify) tt
        | inr (user, got) ↦ elim (Bool-cases user.enabled) [
          | inl on ↦
              rw (got, identify)
                (simp on (record {
                  claims = claims;
                  decoded = d;
                  valid = v;
                  found = got;
                  is_enabled = on;
                }))
          | inr off ↦ rw (got, identify, off) tt
        ]
      ]

  bypass-SsoOk :
      (r : Request) (now : ℕ)
      → auth_required table config r ≡ true
      → SsoOk r now (bypass table sha digest decode config users r)
  unfolding bypass
  bypass-SsoOk r now required = rw required tt

  authenticate_sso-SsoOk :
      (r : Request) (now : ℕ)
      → auth_required table config r ≡ true
      → SsoOk r now (authenticate_sso table sha digest decode config users r now)
  unfolding authenticate_sso
  authenticate_sso-SsoOk r now required = elim (Bool-cases (is_blank r.sso_cookie)) [
    | inl blank ↦ rw (blank, authenticate_sso) (bypass-SsoOk r now required)
    | inr given ↦
        elim (Option-cases (
          validate_sso_token table sha digest decode config users (cookie_value r.sso_cookie)
            now)) [
              | inl bad ↦ rw (given, authenticate_sso, bad) (bypass-SsoOk r now required)
              | inr (claims, good) ↦
                  let sound =
                    validate_sso_token_sound (cookie_value r.sso_cookie) now claims good in
                  rw (given, authenticate_sso, good) (identify-SsoOk r now claims sound.0 sound.1)
            ]
  ]

  -- A request that goes on is in a session, and the identity is the one it came with.
  abbrev StoreOk : Sessions → Request → ℕ → Identity → Authenticated → Type 0
  StoreOk sessions r time identity (authenticated found) =
      (found ≡ identity) × InSession sessions r time identity
  StoreOk sessions r time identity (refused e) = Unit {0}

  touch-InSession :
      (sessions : Sessions) (r : Request) (clock now : ℕ) (identity : Identity)
      → (touch_auth_session digest sessions
          (cookie_value r.session_cookie)
          identity.record_of_user.id
          clock
          now).1
        ≡ true
      → InSession sessions r (or_clock clock now) identity
  unfolding touch_auth_session
  touch-InSession sessions r clock now identity used =
      elim (Option-cases (lookup (digest (cookie_value r.session_cookie)) sessions)) [
        | inl gone ↦ absurd (cc (rw (gone, touch_auth_session) at used))
        | inr (session, held) ↦
            let (owner, not_revoked, not_too_old, not_expired, not_idle) =
              (touch_session_active session identity.record_of_user.id (or_clock clock now)).0
                (rw (held, touch_auth_session) at used) in
            record {
              session = session;
              held = held;
              owner = owner;
              not_revoked = not_revoked;
              not_too_old = not_too_old;
              not_expired = not_expired;
              not_idle = not_idle;
            }
      ]

  after_touch-StoreOk :
      (sessions : Sessions) (r : Request) (time clock now : ℕ) (identity : Identity) (cookie : Text)
      (touched : Sessions) (active : Bool) (error : Option SessionError)
      → (active ≡ true → InSession sessions r time identity)
      → StoreOk sessions r time identity
          (after_touch table sha digest decode config users identity cookie clock now touched active
            error).1
  unfolding after_touch
  after_touch-StoreOk sessions r time clock now identity cookie touched false none h = tt
  after_touch-StoreOk sessions r time clock now identity cookie touched true none h = (refl, h refl)
  after_touch-StoreOk sessions r time clock now identity cookie touched active
        (some absolute_timeout) h =
      tt
  after_touch-StoreOk sessions r time clock now identity cookie touched active (some e) h = tt

  with_store-StoreOk :
      (sessions : Sessions) (r : Request) (clock now : ℕ) (identity : Identity)
      → StoreOk sessions r
          (or_clock clock now)
          identity
          (with_store table sha digest decode config users (some sessions) identity r clock now).1
  unfolding with_store use_session
  with_store-StoreOk sessions r clock now identity = elim (Bool-cases (is_blank r.session_cookie)) [
    | inl blank ↦ rw (blank, with_store) tt
    | inr given ↦
        rw (given, with_store)
          (after_touch-StoreOk sessions r (or_clock clock now) clock now identity
            (cookie_value r.session_cookie) _ _ _ (touch-InSession sessions r clock now identity))
  ]

  -- What the gate may answer on a path that it guards.
  abbrev pub Guarded : Sessions → Request → ℕ → ℕ → Gate → Type 0
  Guarded sessions r clock now serve_open = ⊥
  Guarded sessions r clock now (serve_as identity) =
      Identified r now identity × InSession sessions r (or_clock clock now) identity
  Guarded sessions r clock now (refuse e) = Unit {0}

  abbrev RequestOk : Sessions → Request → ℕ → ℕ → Authenticated → Type 0
  RequestOk sessions r clock now (authenticated identity) =
      Identified r now identity × InSession sessions r (or_clock clock now) identity
  RequestOk sessions r clock now (refused e) = Unit {0}

  with_store-RequestOk :
      (sessions : Sessions) (r : Request) (clock now : ℕ) (identity : Identity) (a : Authenticated)
      → Identified r now identity
      → StoreOk sessions r (or_clock clock now) identity a
      → RequestOk sessions r clock now a
  with_store-RequestOk sessions r clock now identity (authenticated found) i h = (
    subst (λ who. Identified r now who) (sym h.0) i,
    subst (λ who. InSession sessions r (or_clock clock now) who) (sym h.0) h.1,
  )
  with_store-RequestOk sessions r clock now identity (refused e) i h = tt

  after_sso-RequestOk :
      (sessions : Sessions) (r : Request) (clock now : ℕ) (a : Authenticated)
      → auth_required table config r ≡ true
      → SsoOk r now a
      → RequestOk sessions r clock now
          (after_sso table sha digest decode config users (some sessions) r clock now a).1
  unfolding after_sso
  after_sso-RequestOk sessions r clock now (refused e) required h = tt
  after_sso-RequestOk sessions r clock now (authenticated identity) required h =
      rw (required, after_sso)
        (with_store-RequestOk sessions r clock now identity _ h
          (with_store-StoreOk sessions r clock now identity))

  authenticate_request-RequestOk :
      (sessions : Sessions) (r : Request) (clock now : ℕ)
      → auth_required table config r ≡ true
      → RequestOk sessions r clock now
          (authenticate_request table sha digest decode config users (some sessions) r clock now).1
  unfolding authenticate_request
  authenticate_request-RequestOk sessions r clock now required =
      after_sso-RequestOk sessions r clock now _ required (authenticate_sso-SsoOk r now required)

  to_gate-Guarded :
      (sessions : Sessions) (r : Request) (clock now : ℕ) (a : Authenticated)
      → RequestOk sessions r clock now a
      → Guarded sessions r clock now (to_gate a)
  unfolding to_gate
  to_gate-Guarded sessions r clock now (authenticated identity) h = h
  to_gate-Guarded sessions r clock now (refused e) h = h

  serves_unchecked_guarded :
      (env : Text) (r : Request)
      → auth_required table config r ≡ true
      → is_auth_gate_exempt_path env r.path ≡ false
      → is_api_path env r.path ≡ true
      → serves_unchecked table sha digest decode config users env r ≡ false
  unfolding serves_unchecked
  serves_unchecked_guarded env r required guarded api = rw (required, guarded, api)

  -- On an API path that is not exempt, where authentication is required, the gate never serves a
  -- request without an identity; the identity it serves is an enabled user, found by the address
  -- in a valid SSO token of the request, whose session cookie opens a session of that user that is
  -- not revoked and has reached none of its three ends.
  pub auth_gate-Guarded :
      (env : Text) (sessions : Sessions) (r : Request) (clock now : ℕ)
      → auth_required table config r ≡ true
      → is_auth_gate_exempt_path env r.path ≡ false
      → is_api_path env r.path ≡ true
      → Guarded sessions r clock now
          (auth_gate table sha digest decode config users env (some sessions) r clock now).1
  unfolding auth_gate
  auth_gate-Guarded env sessions r clock now required guarded api =
      rw (serves_unchecked_guarded env r required guarded api, auth_gate)
        (to_gate-Guarded sessions r clock now _
          (authenticate_request-RequestOk sessions r clock now required))
