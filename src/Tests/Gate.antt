-- ===== src/Tests/Gate.antt =====
-- A clinic's viewer at the gate. The digest of a session token is its length, SHA-256 gives the same 64
-- digits for every text, and every SSO token carries the same claims.
use erzhuang_project.Prelude.{
  ℕ, ◌≡◌, refl, true, false, List, [], ◌∷◌, length, All, none, some, Option, arith,
}
use erzhuang_project.Prelude.Int.{pos}
use erzhuang_project.Prelude.Map.{lookup, nat_eq}
use erzhuang_project.Prelude.Text.{
  Text, text, CaseTable, text_eq, trim_space, is_space, to_lower_rune, has_prefix, text_is_eq,
}
use erzhuang_project.Session.{
  Session, Sessions, touch, touch_auth_session, touch_session, revoke_auth_session,
  get_auth_session_status, run, create_auth_session, credential_used, is_sso_credential_fingerprint,
}
use erzhuang_project.Access.Roles.{role_viewer, normalize_email}
use erzhuang_project.Access.Users.{Scope, User, Users, attach_scopes, get_auth_user_by_email}
use erzhuang_project.Gate.{
  Request, AuthConfig, Claims, Identity, authenticated, refused, session_idle_timeout,
  session_reauthentication_required, auth_user, auth_required, logout_gateway_host,
  authenticate_sso, authenticate_request, auth_gate, is_auth_gate_exempt_path, is_api_path,
  configured_base_paths, normalize_base_path,
}
use erzhuang_project.Gate.SignedIn.{Guarded, auth_gate-Guarded}
use erzhuang_project.Gate.Timeouts.{timeout_final}
use erzhuang_project.Gate.Login.{
  signed_in, rejected, auth_callback, session_for, sso_credential_fingerprint,
}
use erzhuang_project.Gate.Login.Once.{Arrives, sso_token_once}
use erzhuang_project.Gate.Stores.{StoreInfo, StoreCityGroup, answer, filter_stores, viewable_groups}
use erzhuang_project.Gate.Stores.Filtered.{
  listed, keep, may_view_row, HasStores, filter_stores-keep,
}

abbrev ascii : CaseTable
ascii = record { lower = λ c. c; upper = λ c. c }

abbrev hex : Text → Text
hex t = text "0123456789abcdef0123456789abcdef0123456789abcdef0123456789abcdef"

abbrev size : Text → ℕ
size t = length t

abbrev bob_claims : Claims
bob_claims = record {
  display = [];
  mail = text "Bob@x";
  open_id = [];
  user_id = [];
  phone = [];
  username = text "bob";
  login_way = [];
  exp = pos 1;
  sub = [];
}

abbrev bob_token : Text → Option Claims
bob_token t = some bob_claims

abbrev sso_only : AuthConfig
sso_only = record { enabled = true; expected_sub = []; clock_skew = 0; require_email = true }

abbrev bob : User
bob = record {
  id = 5;
  email = text "bob@x";
  username = text "bob";
  display_name = text "Bob";
  feishu_user_id = [];
  phone = [];
  role = role_viewer;
  enabled = true;
  last_login_at = none;
  scope_count = 0;
  scopes = [];
  scope_revision = [];
}

abbrev clinic : Scope
clinic = record {
  store_id = 7;
  city = text "X";
  name = text "Y";
  external_org_id = text "7";
  unavailable = false;
}

abbrev staff : Users
staff = record {
  auth_users = (text "bob@x", bob) ∷ [];
  scope_candidates = clinic ∷ [];
  scopes_by_user = (5, clinic ∷ []) ∷ [];
}

abbrev api_request : Option Text → Request
api_request session = record {
  host = text "localhost";
  path = text "/api/stores";
  sso_cookie = some (text "jwt");
  session_cookie = session;
}

abbrev bob_session : Session
bob_session = record {
  user_id = 5;
  sso_subject = text "other";
  last_activity = 1000;
  expires_at = 1800000001000;
  revoked_at = 0;
  created_at = 1000;
  revoke_reason = [];
}

abbrev open_sessions : Sessions
open_sessions = (1, bob_session) ∷ []

required : (session : Option Text) → auth_required ascii sso_only (api_request session) ≡ true
unfolding auth_required logout_gateway_host
required session = refl

exempt : is_auth_gate_exempt_path [] (text "/api/stores") ≡ false
unfolding is_auth_gate_exempt_path configured_base_paths normalize_base_path text_eq has_prefix
exempt = refl

api : is_api_path [] (text "/api/stores") ≡ true
unfolding is_api_path configured_base_paths normalize_base_path text_eq has_prefix
api = refl

auth_gate-Guarded_example :
    Guarded ascii hex size bob_token sso_only staff open_sessions
      (api_request (some (text "a")))
      9
      2000
      (auth_gate ascii hex size bob_token sso_only staff []
        (some open_sessions)
        (api_request (some (text "a")))
        9
        2000).1
auth_gate-Guarded_example =
    auth_gate-Guarded ascii hex size bob_token sso_only staff [] open_sessions
      (api_request (some (text "a"))) 9 2000 (required (some (text "a"))) exempt api

abbrev bob_identity : Identity
bob_identity = record {
  record_of_user = attach_scopes ascii hex staff bob;
  user = auth_user bob_claims;
}

signs_in :
    (session : Option Text)
    → authenticate_sso ascii hex size bob_token sso_only staff (api_request session) 2000
      ≡ authenticated bob_identity
unfolding authenticate_sso trim_space is_space get_auth_user_by_email lookup normalize_email
    to_lower_rune attach_scopes
signs_in session = refl

signs_in_late :
    (session : Option Text)
    → authenticate_sso ascii hex size bob_token sso_only staff (api_request session) 1800000002000
      ≡ authenticated bob_identity
unfolding authenticate_sso trim_space is_space get_auth_user_by_email lookup normalize_email
    to_lower_rune attach_scopes
signs_in_late session = refl

abbrev timed_out : Sessions
timed_out =
    revoke_auth_session size open_sessions (text "a") 5 (text "idle_timeout") 9 1800000002000

times_out :
    authenticate_request ascii hex size bob_token sso_only staff
      (some open_sessions)
      (api_request (some (text "a")))
      9
      1800000002000
    ≡ (some timed_out, refused session_idle_timeout)
unfolding authenticate_request touch_auth_session trim_space is_space get_auth_user_by_email lookup
    normalize_email to_lower_rune attach_scopes touch_session
times_out = refl

timeout_final_example :
    let later = run size timed_out (touch (text "a") 5 9 1800000003000 ∷ []) in
    ((touch_auth_session size later (text "a") 5 9 1800000004000).1 ≡ false)
    × ((get_auth_session_status size later (text "a") 5 1800000004000).0 ≡ none)
unfolding lookup attach_scopes
timeout_final_example =
    timeout_final ascii hex size bob_token sso_only staff open_sessions
      (api_request (some (text "a"))) 9 1800000002000 bob_identity bob_session timed_out
      session_idle_timeout (touch (text "a") 5 9 1800000003000 ∷ []) 5 9 1800000004000
      (required (some (text "a"))) (signs_in_late (some (text "a"))) times_out refl refl refl
      (λ z. absurd (omega (arith, z))) (tt, tt)

bob-Arrives : Arrives ascii hex size bob_token sso_only staff (api_request none) 2000 bob_identity
bob-Arrives = record { required = required none; signed = signs_in none; no_session = refl }

abbrev entered : Sessions
entered =
    (create_auth_session size [] (some (text "a")) 9
      (session_for hex bob_identity (api_request none) 2000)).0

first_entry :
    auth_callback ascii hex size bob_token sso_only staff
      (some [])
      (api_request none)
      (some (text "a"))
      9
      2000
    ≡ (some entered, signed_in (some (text "a")))
unfolding auth_callback auth_required authenticate_sso trim_space is_space get_auth_user_by_email
    lookup normalize_email to_lower_rune attach_scopes create_auth_session
    is_sso_credential_fingerprint credential_used
first_entry = refl

sso_token_once_example :
    let later = run size entered (touch (text "a") 5 9 3000 ∷ []) in
    auth_callback ascii hex size bob_token sso_only staff
      (some later)
      (api_request none)
      (some (text "bb"))
      9
      2000
    ≡ (some later, rejected session_reauthentication_required)
unfolding sso_credential_fingerprint is_sso_credential_fingerprint
sso_token_once_example =
    sso_token_once ascii hex size bob_token sso_only staff staff [] entered (api_request none)
      (api_request none) (text "a") (text "bb") (text "a") 9 2000 9 2000 bob_identity bob_identity
      (touch (text "a") 5 9 3000 ∷ []) refl bob-Arrives first_entry (tt, tt) bob-Arrives refl refl

abbrev shop : Text → StoreInfo
shop org = record {
  external_org_id = org;
  store_name = org;
  city = text "X";
  available_camera_count = 2;
}

abbrev shops : List StoreCityGroup
shops =
    record { city = text "X"; stores = shop (text "7") ∷ shop (text "8") ∷ [] }
    ∷ record { city = text "Z"; stores = shop (text "9") ∷ [] }
    ∷ []

filter_stores-keep_example :
    let kept = viewable_groups ascii hex staff bob_identity.record_of_user shops in
    (filter_stores ascii hex size bob_token sso_only staff
        (some bob_identity)
        (some open_sessions)
        (api_request (some (text "a")))
        9
        2000
        shops
      ≡ (some open_sessions, answer kept))
    × (listed kept ≡ keep (may_view_row ascii hex staff bob_identity.record_of_user) (listed shops))
    × All HasStores kept
filter_stores-keep_example =
    filter_stores-keep ascii hex size bob_token sso_only staff bob_identity (some open_sessions)
      (api_request (some (text "a"))) 9 2000 shops
