-- ===== src/Tests/Sessions.antt =====
-- Sessions by hand. The digest of a token is its length.
use erzhuang_project.Session.{max_duration}
use erzhuang_project.Prelude.{min}
use erzhuang_project.Prelude.{
  ℕ, ◌+◌, ◌-◌, ◌/◌, ◌≡◌, refl, true, false, List, [], ◌∷◌, length, All, none, some, arith,
}
use erzhuang_project.Prelude.Text.{Text, text}
use erzhuang_project.Prelude.Map.{lookup}
use erzhuang_project.Session.{
  Session, Sessions, SessionCreate, reauthentication_required, touch_session, session_status,
  create_auth_session, touch_auth_session, revoke_auth_session, get_auth_session_status, Call,
  create, touch, revoke, step, run, credential_used, is_sso_credential_fingerprint,
  default_auth_absolute_timeout,
}
use erzhuang_project.Session.Expiry.{
  SessionOk, RowOk, session_status-touch_session, touch_session-session_status, step-RowOk,
}
use erzhuang_project.Session.Isolation.{absolute_deadline, owner_only, revoke_final}
use erzhuang_project.Session.Replay.{credential_once}

abbrev size : Text → ℕ
size t = length t

abbrev one_token : Text
one_token = 97 ∷ []

abbrev two_token : Text
two_token = 97 ∷ 98 ∷ []

abbrev fingerprint : Text
fingerprint = text "jwt-sha256:v1:0123456789abcdef0123456789abcdef0123456789abcdef0123456789abcdef"

abbrev login : SessionCreate
login = record { user_id = 5; sso_subject = fingerprint; now = 1000 }

abbrev first_session : Session
first_session = record {
  user_id = 5;
  sso_subject = fingerprint;
  last_activity = 1000;
  expires_at = 1800000001000;
  revoked_at = 0;
  created_at = 1000;
  revoke_reason = [];
}

abbrev one_session : Sessions
one_session = (1, first_session) ∷ []

first_session-SessionOk : SessionOk first_session
first_session-SessionOk = record {
  used_later = ground arith;
  idle_bound = ground arith;
  absolute_bound = ground arith;
}

session_status-touch_session_example : (touch_session first_session 5 2000).1 ≡ true
unfolding session_status
session_status-touch_session_example = session_status-touch_session first_session 5 2000 refl

touch_session-session_status_example : session_status first_session 5 2000 ≡ (
  some (record {
    idle_remaining_ms = min (1800000001000 - 2000) max_duration / 1000000;
    absolute_remaining_ms =
        min (1000 + default_auth_absolute_timeout - 2000) max_duration / 1000000;
  }),
  none,
)
unfolding touch_session
touch_session-session_status_example =
    touch_session-session_status first_session 5 2000 first_session-SessionOk refl (ground arith)

step-RowOk_example : All RowOk (step size one_session (touch one_token 5 0 2000))
step-RowOk_example =
    step-RowOk size one_session (touch one_token 5 0 2000) (first_session-SessionOk, tt)

-- A use, another login and a use by a stranger.
abbrev calls : List Call
calls =
    touch one_token 5 0 2000
    ∷ create (some two_token) 3000 (record login { now = 0 })
    ∷ touch one_token 6 0 4000
    ∷ []

absolute_deadline_example :
    (touch_auth_session size (run size one_session calls) one_token 5 0 28800000001000).1 ≡ false
unfolding lookup
absolute_deadline_example =
    absolute_deadline size one_session one_token first_session calls 5 0 28800000001000 refl
      (ground arith) (ground arith)

owner_only_example :
    (touch_auth_session size (run size one_session calls) one_token 6 0 5000).1 ≡ false
unfolding lookup
owner_only_example =
    owner_only size one_session one_token first_session calls 6 0 5000 refl (ground arith)
      (ground arith)

revoke_final_example :
    let later =
      run size (revoke_auth_session size one_session one_token 5 (text "logout") 0 1500) calls in
    ((touch_auth_session size later one_token 5 0 5000).1 ≡ false)
    × ((get_auth_session_status size later one_token 5 5000).0 ≡ none)
unfolding lookup
revoke_final_example =
    revoke_final size one_session one_token first_session (text "logout") 0 1500 calls 5 0 5000 refl
      (ground arith) (ground arith)

abbrev after_login : Sessions
after_login = (create_auth_session size [] (some one_token) 0 login).0

credential_once_example :
    let later = run size after_login (revoke one_token 5 (text "logout") 0 2000 ∷ []) in
    create_auth_session size later (some two_token) 3000 login
    ≡ (later, none, some reauthentication_required)
unfolding create_auth_session is_sso_credential_fingerprint credential_used
credential_once_example =
    credential_once size [] one_token 0 login (revoke one_token 5 (text "logout") 0 2000 ∷ [])
      two_token 3000 login refl refl (tt, tt) (refl, refl)
