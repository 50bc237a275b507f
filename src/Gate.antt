-- ===== src/Gate.antt =====
-- internal/app/authz.go with the parts of auth.go and handler.go that it calls: who a request comes
-- from. The form and signature of the SSO token are the parameter `decode`; the audit trail is left out.
pub mod SignedIn
pub mod Timeouts
pub mod Login
pub mod Stores
use erzhuang_project.Prelude.{
  ℕ, ◌+◌, ◌-◌, ◌*◌, ◌/◌, Bool, true, false, not, ◌&&◌, ◌||◌, List, [], ◌∷◌, ◌++◌, ◌==◌,
  if◌then◌else◌, ltb, leb, Option, none, some, length, drop,
}
use erzhuang_project.Prelude.Int.{ℤ, pos, negsuc}
use erzhuang_project.Prelude.Text.{
  Text, text, text_eq, trim_space, to_lower, CaseTable, is_empty, has_prefix,
}
use erzhuang_project.Session.{
  Sessions, SessionError, absolute_timeout, touch_auth_session, revoke_auth_session, SessionStatus,
  idle_timeout, get_auth_session_status, default_auth_idle_timeout, create_auth_session,
  fingerprint_prefix, reauthentication_required,
}
use erzhuang_project.Access.Roles.{
  first_non_empty, normalize_role, permissions, has_permission, role_admin,
}
use erzhuang_project.Access.Users.{
  Users, User, UserError, user_not_found, ok, err, get_auth_user_by_email,
}

pub data AuthError : Type 0 where
  unauthorized forbidden session_idle_timeout session_absolute_timeout : AuthError
  session_login_required session_reauthentication_required auth_session_unavailable : AuthError
  store_failed : UserError → AuthError

-- What is read of a request: its host, its path, the SSO cookie and the session cookie.
pub record Request : Type 0 where
  pub host : Text
  pub path : Text
  pub sso_cookie : Option Text
  pub session_cookie : Option Text

-- The public key and the cookie's name are in `decode` and in the request.
pub record AuthConfig : Type 0 where
  pub enabled : Bool
  pub expected_sub : Text
  pub clock_skew : ℕ
  pub require_email : Bool

-- `apisixSSOTokenClaims`
pub record Claims : Type 0 where
  pub display : Text
  pub mail : Text
  pub open_id : Text
  pub user_id : Text
  pub phone : Text
  pub username : Text
  pub login_way : Text
  pub exp : ℤ
  pub sub : Text

pub record AuthUserResponse : Type 0 where
  pub email : Text
  pub username : Text
  pub display_name : Text
  pub open_id : Text
  pub feishu_user_id : Text
  pub phone : Text
  pub login_way : Text
  pub subject : Text
  pub role : Text

pub record Identity : Type 0 where
  pub record_of_user : User
  pub user : AuthUserResponse

pub data Authenticated : Type 0 where
  authenticated : Identity → Authenticated
  refused : AuthError → Authenticated

unfoldable pub auth_user : Claims → AuthUserResponse
unfolding first_non_empty
auth_user claims =
    let email = trim_space claims.mail in
    let username = first_non_empty (claims.username ∷ email ∷ []) in
    record {
      email = email;
      username = username;
      display_name = first_non_empty (claims.display ∷ username ∷ email ∷ []);
      open_id = trim_space claims.open_id;
      feishu_user_id = trim_space claims.user_id;
      phone = trim_space claims.phone;
      login_way = trim_space claims.login_way;
      subject = trim_space claims.sub;
      role = text "admin";
    }

abbrev empty_response : AuthUserResponse
empty_response = record {
  email = [];
  username = [];
  display_name = [];
  open_id = [];
  feishu_user_id = [];
  phone = [];
  login_way = [];
  subject = [];
  role = [];
}

-- The local-development bypass.
unfoldable pub local_admin : Identity
local_admin = record {
  record_of_user = record {
    id = 0;
    email = [];
    username = [];
    display_name = [];
    feishu_user_id = [];
    phone = [];
    role = role_admin;
    enabled = true;
    last_login_at = none;
    scope_count = 0;
    scopes = [];
    scope_revision = [];
  };
  user = empty_response;
}

-- Up to the first colon.
before_colon : Text → Text
before_colon [] = []
before_colon (c ∷ s) = let rest = before_colon s in if c == 58 then [] else c ∷ rest

-- Seconds from Go's zero time to the Unix epoch.
abbrev unix_to_internal : ℕ
unix_to_internal = 62135596800

-- `time.Unix(exp, 0).Add(skew)` in nanoseconds; `none` where that is before the zero time, as it is too
-- where the seconds wrap around.
unfoldable pub token_deadline : ℤ → ℕ → Option ℕ
token_deadline (pos n) skew =
    if ltb 9223372036854775807 (n + unix_to_internal + skew / 1000000000)
    then none
    else some ((n + unix_to_internal) * 1000000000 + skew)
token_deadline (negsuc n) skew =
    if ltb (n + 1) unix_to_internal
    then some ((unix_to_internal - (n + 1)) * 1000000000 + skew)
    else none

-- `claims.Exp == 0 || now.After(deadline)`
unfoldable pub token_expired : ℤ → ℕ → ℕ → Bool
unfolding token_deadline
token_expired (pos n) skew now =
    n == 0 || elim (token_deadline (pos n) skew) [ none ↦ true | some d ↦ ltb d now ]
token_expired (negsuc n) skew now = elim (token_deadline (negsuc n) skew) [
  | none ↦ true
  | some d ↦ ltb d now
]

abbrev pub is_blank : Option Text → Bool
is_blank none = true
is_blank (some value) = is_empty (trim_space value)

abbrev pub cookie_value : Option Text → Text
cookie_value none = []
cookie_value (some value) = value

abbrev default_app_base_path : Text
default_app_base_path = text "/erzhuang-project"

abbrev legacy_app_base_path : Text
legacy_app_base_path = text "/erzhuang"

-- `strings.Trim(s, "/")`
trim_slashes_left : Text → Text
trim_slashes_left [] = []
trim_slashes_left (c ∷ s) = if c == 47 then trim_slashes_left s else c ∷ s

trim_slashes_right : Text → Text
trim_slashes_right [] = []
trim_slashes_right (c ∷ s) =
    let rest = trim_slashes_right s in if is_empty rest && c == 47 then [] else c ∷ rest

unfoldable pub normalize_base_path : Text → Text
unfolding trim_slashes_left trim_slashes_right text_eq
normalize_base_path value =
    let trimmed = text "/" ++ trim_slashes_right (trim_slashes_left value) in
    if is_empty value || text_eq value (text "/")
    then default_app_base_path
    else if text_eq trimmed (text "/")
    then default_app_base_path
    else trimmed

-- From the environment's `APP_BASE_PATH`.
unfoldable pub configured_base_paths : Text → List Text
unfolding normalize_base_path
configured_base_paths env =
    let base = normalize_base_path env in
    if text_eq base legacy_app_base_path then base ∷ [] else base ∷ legacy_app_base_path ∷ []

any_api_prefix : List Text → Text → Bool
unfolding has_prefix
any_api_prefix [] path = false
any_api_prefix (base ∷ bases) path =
    has_prefix path (base ++ text "/api/") || any_api_prefix bases path

unfoldable pub is_api_path : Text → Text → Bool
unfolding any_api_prefix
is_api_path env path =
    any_api_prefix (configured_base_paths env) path || has_prefix path (text "/api/")

-- `strings.TrimPrefix`, of one base path after the other.
trim_prefixes : List Text → Text → Text
unfolding has_prefix
trim_prefixes [] path = path
trim_prefixes (base ∷ bases) path =
    trim_prefixes bases (if has_prefix path base then drop (length base) path else path)

unfoldable pub is_auth_gate_exempt_path : Text → Text → Bool
unfolding trim_prefixes text_eq
is_auth_gate_exempt_path env path =
    let path' = trim_prefixes (configured_base_paths env) path in
    text_eq path' (text "/health")
    || text_eq path' (text "/_/auth/callback")
    || text_eq path' (text "/api/auth/logout")
    || text_eq path' (text "/logout")
    || text_eq path' (text "/api/auth/session-status")

lookup_refused : UserError → AuthError
lookup_refused user_not_found = forbidden
lookup_refused e = store_failed e

-- How a request went through the gate.
pub data Gate : Type 0 where
  serve_open : Gate
  serve_as : Identity → Gate
  refuse : AuthError → Gate

to_gate : Authenticated → Gate
to_gate (authenticated identity) = serve_as identity
to_gate (refused e) = refuse e

-- The session store, or nil, after the call, with the call's answer.
abbrev pub After : Type 0 → Type 0
After A = Option Sessions × A

module _ (table : CaseTable) (config : AuthConfig) where
  unfoldable pub logout_gateway_host : Text → Text
  unfolding before_colon text_eq
  logout_gateway_host host =
      let hostname = before_colon (to_lower table (trim_space host)) in
      if text_eq hostname (text "lite.sy.soyoung.com")
      then text "security-test.sy.soyoung.com"
      else if text_eq hostname (text "lite.soyoung.com")
      then text "security.soyoung.com"
      else []

  unfoldable pub auth_required : Request → Bool
  unfolding logout_gateway_host
  auth_required r = config.enabled || not (is_empty (logout_gateway_host r.host))

  -- The tests of `validateAPISIXSSOToken` on the claims of a token that `decode` accepted.
  unfoldable pub valid_claims : Claims → ℕ → Bool
  unfolding token_expired text_eq
  valid_claims claims now =
      not (token_expired claims.exp config.clock_skew now)
      && not (not (is_empty config.expected_sub) && not (text_eq claims.sub config.expected_sub))
      && not (config.require_email && is_empty (trim_space claims.mail))

module _ (table : CaseTable) (sha : Text → Text) (digest : Text → ℕ) (decode : Text → Option Claims)
    (config : AuthConfig) (users : Users) where
  unfoldable pub validate_sso_token : Text → ℕ → Option Claims
  unfolding valid_claims
  validate_sso_token token now = elim (decode token) [
    | none ↦ none
    | some claims ↦ if valid_claims table config claims now then some claims else none
  ]

  identify : Claims → Authenticated
  unfolding auth_user lookup_refused
  identify claims = elim (get_auth_user_by_email table sha users (auth_user claims).email) [
    | err e ↦ refused (lookup_refused e)
    | ok record_of_user ↦
        if not record_of_user.enabled
        then refused forbidden
        else authenticated (record { record_of_user = record_of_user; user = auth_user claims })
  ]

  bypass : Request → Authenticated
  unfolding auth_required local_admin
  bypass r =
      if not (auth_required table config r) then authenticated local_admin else refused unauthorized

  unfoldable pub authenticate_sso : Request → ℕ → Authenticated
  unfolding bypass identify validate_sso_token
  authenticate_sso r now =
      if is_blank r.sso_cookie
      then bypass r
      else elim (validate_sso_token (cookie_value r.sso_cookie) now) [
        | none ↦ bypass r
        | some claims ↦ identify claims
      ]

  -- What follows the touch, which left the sessions and gave the answer; the clock of the store
  -- reads `clock`.
  after_touch :
      Identity → Text → ℕ → ℕ → Sessions → Bool → Option SessionError → After Authenticated
  unfolding revoke_auth_session
  after_touch identity cookie clock now touched active (some absolute_timeout) = (
    some (
        revoke_auth_session digest touched cookie identity.record_of_user.id
          (text "absolute_timeout") clock now),
    refused session_absolute_timeout,
  )
  after_touch identity cookie clock now touched active (some e) =
      (some touched, refused auth_session_unavailable)
  after_touch identity cookie clock now touched false none = (
    some (
        revoke_auth_session digest touched cookie identity.record_of_user.id (text "idle_timeout")
          clock now),
    refused session_idle_timeout,
  )
  after_touch identity cookie clock now touched true none = (some touched, authenticated identity)

  use_session : Sessions → Identity → Text → ℕ → ℕ → After Authenticated
  unfolding touch_auth_session after_touch
  use_session sessions identity cookie clock now =
      let (touched, active, error) =
        touch_auth_session digest sessions cookie identity.record_of_user.id clock now in
      after_touch identity cookie clock now touched active error

  with_store : Option Sessions → Identity → Request → ℕ → ℕ → After Authenticated
  unfolding use_session
  with_store none identity r clock now = (none, refused auth_session_unavailable)
  with_store (some sessions) identity r clock now =
      if is_blank r.session_cookie
      then (some sessions, refused session_login_required)
      else use_session sessions identity (cookie_value r.session_cookie) clock now

  after_sso : Option Sessions → Request → ℕ → ℕ → Authenticated → After Authenticated
  unfolding with_store auth_required
  after_sso store r clock now (refused e) = (store, refused e)
  after_sso store r clock now (authenticated identity) =
      if not (auth_required table config r)
      then (store, authenticated identity)
      else with_store store identity r clock now

  unfoldable pub authenticate_request : Option Sessions → Request → ℕ → ℕ → After Authenticated
  unfolding authenticate_sso after_sso
  authenticate_request store r clock now = after_sso store r clock now (authenticate_sso r now)

  -- The gate's first test, with the environment's base path.
  serves_unchecked : Text → Request → Bool
  unfolding auth_required is_auth_gate_exempt_path is_api_path
  serves_unchecked env r =
      not (auth_required table config r)
      || is_auth_gate_exempt_path env r.path
      || not (is_api_path env r.path)

  -- `authGate`
  unfoldable pub auth_gate : Text → Option Sessions → Request → ℕ → ℕ → After Gate
  unfolding authenticate_request to_gate serves_unchecked
  auth_gate env store r clock now =
      let (store', answer) = authenticate_request store r clock now in
      if serves_unchecked env r then (store, serve_open) else (store', to_gate answer)

  -- The identity that the gate left in the context, if it did, or a new authentication.
  unfoldable pub current_auth_identity :
      Option Identity → Option Sessions → Request → ℕ → ℕ → After Authenticated
  unfolding authenticate_request
  current_auth_identity (some identity) store r clock now = (store, authenticated identity)
  current_auth_identity none store r clock now = authenticate_request store r clock now
