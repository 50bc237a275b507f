-- ===== src/Gate/Login.antt =====
-- Signing in and out: `authCallbackHandler`, `authSessionStatusHandler` and `revokeLocalAuthSession` of
-- internal/app/auth.go, up to what they write to the browser.
pub mod Once
use erzhuang_project.Prelude.{
  ℕ, ◌≡◌, refl, sym, ap, ◌∙◌, Bool, true, false, not, ◌||◌, List, ◌++◌, Option, none, some, arith,
  Bool-cases, if◌then◌else◌,
}
use erzhuang_project.Prelude.Text.{Text, text, CaseTable, is_empty}
use erzhuang_project.Session.{
  Sessions, SessionCreate, SessionError, SessionStatus, idle_timeout, absolute_timeout,
  reauthentication_required, no_entropy, create_auth_session, revoke_auth_session,
  get_auth_session_status, is_sso_credential_fingerprint, fingerprint_prefix, Call, run,
}
use erzhuang_project.Session.Replay.{Fresh, credential_once}
use erzhuang_project.Access.Users.{Users, ok, err, get_auth_user_by_email}
use erzhuang_project.Gate.{
  Request, AuthConfig, Claims, Identity, Authenticated, authenticated, refused, AuthError,
  session_idle_timeout, session_absolute_timeout, session_login_required,
  session_reauthentication_required, auth_session_unavailable, After, cookie_value, is_blank,
  auth_required, auth_user, validate_sso_token, authenticate_sso, authenticate_request,
}

-- What the callback does: goes on to the page, with the token of a new session or none; rejects the
-- attempt; or answers with an error at once.
pub data Callback : Type 0 where
  signed_in : Option Text → Callback
  rejected : AuthError → Callback
  denied : AuthError → Callback

-- What the status endpoint answers.
pub data StatusReply : Type 0 where
  not_enabled : StatusReply
  remaining : SessionStatus → StatusReply
  no_status : AuthError → StatusReply

-- The error of a new session that was not given out.
creation_error : SessionError → AuthError
creation_error reauthentication_required = session_reauthentication_required
creation_error e = auth_session_unavailable

created : Sessions × Option Text × Option SessionError → After Callback
unfolding creation_error
created (s, token, some e) = (some s, rejected (creation_error e))
created (s, none, none) = (some s, denied auth_session_unavailable)
created (s, some token, none) =
    (some s, if is_empty token then denied auth_session_unavailable else signed_in (some token))

resumed : After Authenticated → After Callback
resumed (store, refused e) = (store, rejected e)
resumed (store, authenticated identity) = (store, signed_in none)

status_error : SessionError → AuthError
status_error idle_timeout = session_idle_timeout
status_error absolute_timeout = session_absolute_timeout
status_error e = auth_session_unavailable

timeout_reason : SessionError → Option Text
timeout_reason idle_timeout = some (text "idle_timeout")
timeout_reason absolute_timeout = some (text "absolute_timeout")
timeout_reason e = none

-- `sha` gives the hexadecimal digits of the digest.
unfoldable pub sso_credential_fingerprint : (Text → Text) → Text → Text
sso_credential_fingerprint sha token = fingerprint_prefix ++ sha token

unfoldable pub session_for : (Text → Text) → Identity → Request → ℕ → SessionCreate
unfolding sso_credential_fingerprint
session_for sha identity r now = record {
  user_id = identity.record_of_user.id;
  sso_subject = sso_credential_fingerprint sha (cookie_value r.sso_cookie);
  now = now;
}

module _ (table : CaseTable) (sha : Text → Text) (digest : Text → ℕ) (decode : Text → Option Claims)
    (config : AuthConfig) (users : Users) where
  -- With a session store and an SSO identity; `random` is what the random source gives.
  enter : Sessions → Identity → Request → Option Text → ℕ → ℕ → After Callback
  unfolding created resumed session_for
  enter s identity r random clock now =
      if is_blank r.session_cookie
      then created (create_auth_session digest s random clock (session_for sha identity r now))
      else resumed (authenticate_request table sha digest decode config users (some s) r clock now)

  admit : Option Sessions → Request → Option Text → ℕ → ℕ → Authenticated → After Callback
  unfolding enter
  admit store r random clock now (refused e) = (store, denied e)
  admit none r random clock now (authenticated identity) = (none, denied auth_session_unavailable)
  admit (some s) r random clock now (authenticated identity) = enter s identity r random clock now

  unfoldable pub auth_callback : Option Sessions → Request → Option Text → ℕ → ℕ → After Callback
  unfolding admit
  auth_callback store r random clock now =
      let entered =
        admit store r random clock now
          (authenticate_sso table sha digest decode config users r now) in
      if auth_required table config r then entered else (store, signed_in none)

  -- `readAuthSessionStatus`, on the memory store.
  unfoldable pub read_auth_session_status :
      Sessions → Request → ℕ → ℕ → Option SessionStatus × Option SessionError
  read_auth_session_status s r user now =
      get_auth_session_status digest s (cookie_value r.session_cookie) user now

  -- The store gives a status or an error, never neither.
  status_reply :
      Sessions
      → Identity
      → Request
      → ℕ
      → ℕ
      → Option SessionStatus × Option SessionError
      → After StatusReply
  unfolding status_error timeout_reason
  status_reply s identity r clock now (some status, none) = (some s, remaining status)
  status_reply s identity r clock now (none, none) = (some s, no_status auth_session_unavailable)
  status_reply s identity r clock now (status, some e) = elim (timeout_reason e) [
    | none ↦ (some s, no_status (status_error e))
    | some reason ↦ (
      some (
          revoke_auth_session digest s (cookie_value r.session_cookie) identity.record_of_user.id
            reason clock now),
      no_status (status_error e),
    )
  ]

  status_of : Option Sessions → Request → ℕ → ℕ → Authenticated → After StatusReply
  unfolding status_reply read_auth_session_status
  status_of store r clock now (refused e) = (store, no_status e)
  status_of store r clock now (authenticated identity) =
      if not (auth_required table config r) then (store, not_enabled) else elim store [
        | none ↦ (none, no_status auth_session_unavailable)
        | some s ↦
            if is_blank r.session_cookie
            then (some s, no_status session_login_required)
            else status_reply s identity r clock now
                (read_auth_session_status s r identity.record_of_user.id now)
      ]

  unfoldable pub auth_session_status : Option Sessions → Request → ℕ → ℕ → After StatusReply
  unfolding status_of
  auth_session_status store r clock now =
      status_of store r clock now (authenticate_sso table sha digest decode config users r now)

  -- `revokeLocalAuthSession`, with the two readings of the clock in one.
  unfoldable pub revoke_local_auth_session : Option Sessions → Request → ℕ → ℕ → Option Sessions
  revoke_local_auth_session none r clock now = none
  revoke_local_auth_session (some s) r clock now =
      if is_blank r.session_cookie || is_blank r.sso_cookie
      then some s
      else elim (validate_sso_token table sha digest decode config users (cookie_value r.sso_cookie)
          now) [
            | none ↦ some s
            | some claims ↦ elim (get_auth_user_by_email table sha users (auth_user claims).email) [
              | err e ↦ some s
              | ok user ↦
                  if not user.enabled
                  then some s
                  else some (
                      revoke_auth_session digest s (cookie_value r.session_cookie) user.id
                        (text "manual_logout") clock now)
            ]
          ]
