-- ===== src/Session.antt =====
-- internal/app/auth_session.go: the in-memory session store. An instant is the number of
-- nanoseconds since Go's zero time, so that `IsZero` is 0. Tokens come from crypto/rand, and
-- their SHA-256 digest is the parameter `digest`; sessions are kept under the digest.
pub mod Expiry
pub mod Isolation
pub mod Replay
use erzhuang_project.Prelude.{
  ℕ, ◌+◌, ◌-◌, ◌/◌, ◌≡◌, Bool, true, false, not, ◌&&◌, ◌||◌, List, [], ◌∷◌, ◌==◌, if◌then◌else◌,
  length, take, drop, ltb, leb, min, Option, none, some,
}
use erzhuang_project.Prelude.Map.{Map, lookup, insert, nat_eq}
use erzhuang_project.Prelude.Text.{Text, text, text_eq}

-- 30 minutes.
abbrev pub default_auth_idle_timeout : ℕ
default_auth_idle_timeout = 1800000000000

-- 8 hours.
abbrev pub default_auth_absolute_timeout : ℕ
default_auth_absolute_timeout = 28800000000000

pub data SessionError : Type 0 where
  idle_timeout absolute_timeout reauthentication_required no_entropy : SessionError

pub record Session : Type 0 where
  pub user_id : ℕ
  pub sso_subject : Text
  pub last_activity : ℕ
  pub expires_at : ℕ
  pub revoked_at : ℕ
  pub created_at : ℕ
  pub revoke_reason : Text

abbrev pub Sessions : Type 0
Sessions = Map ℕ Session

-- The address and the user agent, which the memory store does not keep, are left out.
pub record SessionCreate : Type 0 where
  pub user_id : ℕ
  pub sso_subject : Text
  pub now : ℕ

pub record SessionStatus : Type 0 where
  pub idle_remaining_ms : ℕ
  pub absolute_remaining_ms : ℕ

-- `if now.IsZero() { now = time.Now() }`
abbrev pub or_clock : ℕ → ℕ → ℕ
or_clock clock now = if now == 0 then clock else now

is_hex_digit : ℕ → Bool
is_hex_digit c = (leb 48 c && leb c 57) || (leb 97 c && leb c 102) || (leb 65 c && leb c 70)

all_hex : Text → Bool
unfolding is_hex_digit
all_hex [] = true
all_hex (c ∷ s) = is_hex_digit c && all_hex s

abbrev pub fingerprint_prefix : Text
fingerprint_prefix = text "jwt-sha256:v1:"

-- A prefix of 14 characters and 64 hexadecimal digits.
unfoldable pub is_sso_credential_fingerprint : Text → Bool
unfolding all_hex text_eq
is_sso_credential_fingerprint value =
    length value == 78 && text_eq (take 14 value) fingerprint_prefix && all_hex (drop 14 value)

-- The test of the loop over all sessions in `CreateAuthSession`.
unfoldable pub credential_used : ℕ → Text → Sessions → Bool
credential_used user subject [] = false
credential_used user subject ((k, session) ∷ rest) =
    (session.user_id == user && text_eq session.sso_subject subject)
    || credential_used user subject rest

unfoldable pub new_session : ℕ → SessionCreate → Session
new_session now input = record {
  user_id = input.user_id;
  sso_subject = input.sso_subject;
  last_activity = now;
  expires_at = now + default_auth_idle_timeout;
  revoked_at = 0;
  created_at = now;
  revoke_reason = [];
}

abbrev pub is_revoked : Session → Bool
is_revoked session = not (session.revoked_at == 0)

-- The later end is cut at the absolute deadline.
unfoldable pub extend : Session → ℕ → Session
extend session now =
    let deadline = session.created_at + default_auth_absolute_timeout in
    let expires_at = now + default_auth_idle_timeout in
    record session {
      last_activity = now;
      expires_at = if ltb deadline expires_at then deadline else expires_at;
    }

-- `TouchAuthSession` on the row it found.
unfoldable pub touch_session : Session → ℕ → ℕ → Session × Bool × Option SessionError
unfolding extend
touch_session session user now =
    if not (session.user_id == user) || is_revoked session
    then (session, false, none)
    else if leb (session.created_at + default_auth_absolute_timeout) now
    then (session, false, some absolute_timeout)
    else if leb session.expires_at now
        || leb (session.last_activity + default_auth_idle_timeout) now
    then (session, false, none)
    else if ltb session.last_activity now
    then (extend session now, true, none)
    else (session, true, none)

-- `RevokeAuthSession` on the row it found.
unfoldable pub revoke_session : Session → ℕ → Text → ℕ → Session
revoke_session session user reason now =
    if session.user_id == user && not (is_revoked session)
    then record session { revoked_at = now; revoke_reason = reason }
    else session

-- The largest `time.Duration`, at which `Time.Sub` stops.
abbrev pub max_duration : ℕ
max_duration = 9223372036854775807

-- `deadline.Sub(now).Milliseconds()`, with 0 for what is not positive: only the sign of such a
-- value is read, and by a test that holds of 0 too.
abbrev pub remaining_ms : ℕ → ℕ → ℕ
remaining_ms deadline now = min (deadline - now) max_duration / 1000000

-- `GetAuthSessionStatus` on the row it found.
unfoldable pub session_status : Session → ℕ → ℕ → Option SessionStatus × Option SessionError
session_status session user now =
    let absolute = remaining_ms (session.created_at + default_auth_absolute_timeout) now in
    let stored = remaining_ms session.expires_at now in
    let idle = remaining_ms (session.last_activity + default_auth_idle_timeout) now in
    let idle' = if ltb idle stored then idle else stored in
    if not (session.user_id == user) || is_revoked session
    then (none, some idle_timeout)
    else if absolute == 0
    then (none, some absolute_timeout)
    else if idle' == 0
    then (none, some idle_timeout)
    else (some (record { idle_remaining_ms = idle'; absolute_remaining_ms = absolute }), none)

-- One call on the store; the clock reads `clock`.
pub data Call : Type 0 where
  create : Option Text → ℕ → SessionCreate → Call
  touch : Text → ℕ → ℕ → ℕ → Call
  revoke : Text → ℕ → Text → ℕ → ℕ → Call

module _ (digest : Text → ℕ) where
  -- `token` is what the random source gives, or nothing where it fails.
  unfoldable pub create_auth_session :
      Sessions → Option Text → ℕ → SessionCreate → Sessions × Option Text × Option SessionError
  unfolding new_session
  create_auth_session sessions none clock input = (sessions, none, some no_entropy)
  create_auth_session sessions (some token) clock input =
      let now = or_clock clock input.now in
      if is_sso_credential_fingerprint input.sso_subject
        && credential_used input.user_id input.sso_subject sessions
      then (sessions, none, some reauthentication_required)
      else (insert (digest token) (new_session now input) sessions, some token, none)

  -- The idle timeout that the caller passes is not read. `s.sessions[key] = session` on every
  -- path that writes.
  unfoldable pub touch_auth_session :
      Sessions → Text → ℕ → ℕ → ℕ → Sessions × Bool × Option SessionError
  touch_auth_session sessions token user clock now = elim (lookup (digest token) sessions) [
    | none ↦ (sessions, false, none)
    | some session ↦
        let (session', active, error) = touch_session session user (or_clock clock now) in
        (if active then insert (digest token) session' sessions else sessions, active, error)
  ]

  unfoldable pub revoke_auth_session : Sessions → Text → ℕ → Text → ℕ → ℕ → Sessions
  revoke_auth_session sessions token user reason clock now = elim (lookup (digest token) sessions) [
    | none ↦ sessions
    | some session ↦
        insert (digest token) (revoke_session session user reason (or_clock clock now)) sessions
  ]

  unfoldable pub get_auth_session_status :
      Sessions → Text → ℕ → ℕ → Option SessionStatus × Option SessionError
  get_auth_session_status sessions token user now = elim (lookup (digest token) sessions) [
    | none ↦ (none, some idle_timeout)
    | some session ↦ session_status session user now
  ]

  unfoldable pub step : Sessions → Call → Sessions
  unfolding create_auth_session touch_auth_session revoke_auth_session
  step s (create token clock input) = (create_auth_session s token clock input).0
  step s (touch token user clock now) = (touch_auth_session s token user clock now).0
  step s (revoke token user reason clock now) = revoke_auth_session s token user reason clock now

  unfoldable pub run : Sessions → List Call → Sessions
  run s [] = s
  run s (c ∷ cs) = run (step s c) cs
