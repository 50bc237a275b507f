-- ===== src/Gate/Timeouts.antt =====
-- What the gate of internal/app/authz.go leaves of a session that has timed out.
use erzhuang_project.Prelude.{
  ℕ, ◌≡◌, ◌≢◌, refl, sym, ap, ◌∙◌, inl, inr, Bool, true, false, List, All, Option, none, some,
  arith, Bool-cases, Option-cases,
}
use erzhuang_project.Prelude.Map.{lookup, nat_eq}
use erzhuang_project.Prelude.Text.{Text, text, CaseTable}
use erzhuang_project.Session.{
  Session, Sessions, SessionError, absolute_timeout, idle_timeout, touch_session,
  touch_auth_session, revoke_auth_session, or_clock, Call, run, get_auth_session_status,
}
use erzhuang_project.Session.Isolation.{Avoids, revoke_final}
use erzhuang_project.Access.Users.{Users}
use erzhuang_project.Gate.{
  Request, AuthConfig, Claims, Identity, authenticated, refused, AuthError, session_idle_timeout,
  session_absolute_timeout, cookie_value, is_blank, auth_required, authenticate_sso, after_touch,
  use_session, with_store, after_sso, authenticate_request,
}

-- The two answers to a session that has ended.
abbrev pub is_timeout : AuthError → Bool
is_timeout session_idle_timeout = true
is_timeout session_absolute_timeout = true
is_timeout e = false

touch_session_error :
    (s : Session) (user now : ℕ) {e : SessionError}
    → (touch_session s user now).2 ≡ some e
    → (touch_session s user now).1 ≡ false
unfolding touch_session
touch_session_error s user now h = ground arith

module _ (table : CaseTable) (sha : Text → Text) (digest : Text → ℕ) (decode : Text → Option Claims)
    (config : AuthConfig) (users : Users) where
  touch_auth_session_idle :
      (s : Sessions) (token : Text) (user clock now : ℕ)
      → (touch_auth_session digest s token user clock now).1 ≡ false
      → (touch_auth_session digest s token user clock now).0 ≡ s
  unfolding touch_auth_session
  touch_auth_session_idle s token user clock now h = elim (Option-cases (lookup (digest token) s)) [
    | inl gone ↦ rw (gone, touch_auth_session) refl
    | inr (row, held) ↦ rw (held, touch_auth_session, rw (held, touch_auth_session) at h) refl
  ]

  touch_auth_session_error :
      (s : Sessions) (token : Text) (user clock now : ℕ) {e : SessionError}
      → (touch_auth_session digest s token user clock now).2 ≡ some e
      → (touch_auth_session digest s token user clock now).1 ≡ false
  unfolding touch_auth_session
  touch_auth_session_error s token user clock now h =
      elim (Option-cases (lookup (digest token) s)) [
        | inl gone ↦ rw (gone, touch_auth_session) refl
        | inr (row, held) ↦
            rw (held, touch_auth_session)
              (touch_session_error row user (or_clock clock now)
                (rw (held, touch_auth_session) at h))
      ]

  -- The store that a timeout leaves, for some reason that is written.
  abbrev Revoked : Sessions → Identity → Text → ℕ → ℕ → Sessions → Type 0
  Revoked s identity cookie clock now later =
      (reason : Text) × (later
        ≡ revoke_auth_session digest s cookie identity.record_of_user.id reason clock now)

  revoked_same :
      (s : Sessions) (identity : Identity) (cookie : Text) (clock now : ℕ) (touched : Sessions)
      (reason : Text) {later : Sessions}
      → touched ≡ s
      → revoke_auth_session digest touched cookie identity.record_of_user.id reason clock now
        ≡ later
      → later ≡ revoke_auth_session digest s cookie identity.record_of_user.id reason clock now
  revoked_same s identity cookie clock now touched reason same h = sym (rw same at h)

  after_touch-Revoked :
      (s : Sessions) (identity : Identity) (cookie : Text) (clock now : ℕ) (touched : Sessions)
      (active : Bool) (error : Option SessionError) {later : Sessions} {e : AuthError}
      → (active ≡ false → touched ≡ s)
      → ((f : SessionError) → error ≡ some f → active ≡ false)
      → after_touch table sha digest decode config users identity cookie clock now touched active
          error
        ≡ (some later, refused e)
      → is_timeout e ≡ true
      → Revoked s identity cookie clock now later
  unfolding after_touch
  after_touch-Revoked s identity cookie clock now touched false none same idle h t = (
    text "idle_timeout",
    revoked_same s identity cookie clock now touched (text "idle_timeout") (same refl) (cc h),
  )
  after_touch-Revoked s identity cookie clock now touched true none same idle h t = absurd (cc h)
  after_touch-Revoked s identity cookie clock now touched active (some absolute_timeout) same idle h
        t =
      (
        text "absolute_timeout",
        revoked_same s identity cookie clock now touched (text "absolute_timeout")
            (same (idle absolute_timeout refl)) (cc h),
      )
  after_touch-Revoked s identity cookie clock now touched active (some idle_timeout) same idle h t =
      ground arith
  after_touch-Revoked s identity cookie clock now touched active (some f) same idle h t =
      ground arith

  with_store-Revoked :
      (s : Sessions) (identity : Identity) (r : Request) (clock now : ℕ) {later : Sessions}
      {e : AuthError}
      → with_store table sha digest decode config users (some s) identity r clock now
        ≡ (some later, refused e)
      → is_timeout e ≡ true
      → Revoked s identity (cookie_value r.session_cookie) clock now later
  unfolding with_store use_session
  with_store-Revoked s identity r clock now {later} {e} h t =
      elim (Bool-cases (is_blank r.session_cookie)) [
        | inl blank ↦ ground (arith, rw (blank, with_store) at h)
        | inr given ↦
            let user = identity.record_of_user.id in
            let cookie = cookie_value r.session_cookie in
            after_touch-Revoked s identity cookie clock now _ _ _
              (touch_auth_session_idle s cookie user clock now)
              (λ f. touch_auth_session_error s cookie user clock now) (rw (given, with_store) at h)
              t
      ]

  after_sso_required :
      (s : Sessions) (r : Request) (clock now : ℕ) (identity : Identity)
      → auth_required table config r ≡ true
      → after_sso table sha digest decode config users (some s) r clock now (authenticated identity)
        ≡ with_store table sha digest decode config users (some s) identity r clock now
  unfolding after_sso
  after_sso_required s r clock now identity required = rw (required, after_sso) refl

  authenticate_request_signed :
      (s : Sessions) (r : Request) (clock now : ℕ) (identity : Identity)
      → auth_required table config r ≡ true
      → authenticate_sso table sha digest decode config users r now ≡ authenticated identity
      → authenticate_request table sha digest decode config users (some s) r clock now
        ≡ with_store table sha digest decode config users (some s) identity r clock now
  unfolding authenticate_request
  authenticate_request_signed s r clock now identity required signed =
      ap (λ a. after_sso table sha digest decode config users (some s) r clock now a) signed
      ∙ after_sso_required s r clock now identity required

  -- After a request was refused because its session had been idle or had reached its absolute end,
  -- at a nonzero time and for the session's own user, no request with that cookie is accepted and
  -- no status is given for it, whatever calls follow, if no new session is given the same digest.
  pub timeout_final :
      (s : Sessions) (r : Request) (clock now : ℕ) (identity : Identity) (session : Session)
      (later : Sessions) (e : AuthError) (cs : List Call) (user clock' now' : ℕ)
      → auth_required table config r ≡ true
      → authenticate_sso table sha digest decode config users r now ≡ authenticated identity
      → authenticate_request table sha digest decode config users (some s) r clock now
        ≡ (some later, refused e)
      → is_timeout e ≡ true
      → lookup (digest (cookie_value r.session_cookie)) s ≡ some session
      → session.user_id ≡ identity.record_of_user.id
      → or_clock clock now ≢ 0
      → All (Avoids digest (digest (cookie_value r.session_cookie))) cs
      → let token = cookie_value r.session_cookie in
        ((touch_auth_session digest (run digest later cs) token user clock' now').1 ≡ false)
        × ((get_auth_session_status digest (run digest later cs) token user now').0 ≡ none)
  timeout_final s r clock now identity session later e cs user clock' now' required signed h t held
        owner ne avoids =
      let token = cookie_value r.session_cookie in
      let (reason, revoked) =
        with_store-Revoked s identity r clock now
          (sym (authenticate_request_signed s r clock now identity required signed) ∙ h) t in
      let by_owner : later ≡ revoke_auth_session digest s token session.user_id reason clock now =
        rw owner revoked in
      rw by_owner
        (revoke_final digest s token session reason clock now cs user clock' now' held ne avoids)
