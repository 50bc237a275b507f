-- ===== src/Session/Expiry.antt =====
-- When a session ends.
use erzhuang_project.Prelude.{
  ℕ, ◌+◌, ◌-◌, ◌/◌, ◌≤◌, ◌<◌, ◌≡◌, ◌↔◌, true, List, [], ◌∷◌, All, none, some, min, arith, inl, inr,
  Bool-cases, Option-cases,
}
use erzhuang_project.Prelude.Map.{nat_eq, lookup, All-insert, All-lookup}
use erzhuang_project.Prelude.Text.{Text}
use erzhuang_project.Session.{
  Session, Sessions, SessionCreate, or_clock, new_session, touch_session, revoke_session,
  session_status, touch_auth_session, revoke_auth_session, Call, create, touch, revoke, step, run,
  default_auth_idle_timeout, default_auth_absolute_timeout, max_duration,
}

-- A session ends at most 30 minutes after its last use and 8 hours after its creation.
pub record SessionOk (s : Session) : Type 0 where
  pub used_later : s.created_at ≤ s.last_activity
  pub idle_bound : s.expires_at ≤ s.last_activity + default_auth_idle_timeout
  pub absolute_bound : s.expires_at ≤ s.created_at + default_auth_absolute_timeout

abbrev pub RowOk : ℕ × Session → Type 0
RowOk row = SessionOk row.1

new_session-SessionOk : (now : ℕ) (input : SessionCreate) → SessionOk (new_session now input)
unfolding new_session
new_session-SessionOk now input = ground arith

touch_session-SessionOk :
    (s : Session) (user now : ℕ) → SessionOk s → SessionOk (touch_session s user now).0
unfolding touch_session
touch_session-SessionOk s user now v = ground arith

revoke_session-SessionOk :
    (s : Session) (user : ℕ) (reason : Text) (now : ℕ)
    → SessionOk s
    → SessionOk (revoke_session s user reason now)
unfolding revoke_session
revoke_session-SessionOk s user reason now v = ground arith

-- A use is accepted exactly for the owner, of a session that is not revoked, within 8 hours of its
-- creation, before its recorded end, and within 30 minutes of its last use.
pub touch_session_active :
    (s : Session) (user now : ℕ)
    → ((touch_session s user now).1 ≡ true) ↔ (
        (s.user_id ≡ user)
        × (s.revoked_at ≡ 0)
        × (now < s.created_at + default_auth_absolute_timeout)
        × (now < s.expires_at)
        × (now < s.last_activity + default_auth_idle_timeout))
unfolding touch_session
touch_session_active s user now = (λ h. ground arith, λ h. ground arith)

-- A status is given only for a session that a use at the same moment would accept.
pub session_status-touch_session :
    (s : Session) (user now : ℕ)
    → (session_status s user now).1 ≡ none
    → (touch_session s user now).1 ≡ true
unfolding session_status touch_session
session_status-touch_session s user now h = ground arith

-- A session within its bounds that a use would accept has a status as long as a millisecond is
-- left to its recorded end; the milliseconds given are those to that end and to the absolute one,
-- each counted up to the largest duration of 2^63 - 1 nanoseconds.
pub touch_session-session_status :
    (s : Session) (user now : ℕ)
    → SessionOk s
    → (touch_session s user now).1 ≡ true
    → now + 1000000 ≤ s.expires_at
    → session_status s user now ≡ (
      some (record {
        idle_remaining_ms = min (s.expires_at - now) max_duration / 1000000;
        absolute_remaining_ms =
            min (s.created_at + default_auth_absolute_timeout - now) max_duration / 1000000;
      }),
      none,
    )
unfolding session_status touch_session
touch_session-session_status s user now v h a = ground arith

module _ (digest : Text → ℕ) where
  touch-RowOk :
      (s : Sessions) (token : Text) (user clock now : ℕ)
      → All RowOk s
      → All RowOk (touch_auth_session digest s token user clock now).0
  unfolding touch_auth_session
  touch-RowOk s token user clock now v = elim (Option-cases (lookup (digest token) s)) [
    | inl e ↦ rw (e, touch_auth_session) v
    | inr (row, e) ↦
        let ok =
          touch_session-SessionOk row user (or_clock clock now)
            (All-lookup RowOk (digest token) s v e) in
        let kept =
          All-insert RowOk (digest token) (touch_session row user (or_clock clock now)).0 s ok v in
        elim (Bool-cases (touch_session row user (or_clock clock now)).1) [
          | inl used ↦ rw (e, touch_auth_session, used) kept
          | inr unused ↦ rw (e, touch_auth_session, unused) v
        ]
  ]

  -- Every call on the session store keeps the bounds of every session: used no earlier than
  -- created, and ending at most 30 minutes after its last use and 8 hours after its creation.
  pub step-RowOk : (s : Sessions) (c : Call) → All RowOk s → All RowOk (step digest s c)
  unfolding step
  step-RowOk s (create none clock input) v = v
  step-RowOk s (create (some token) clock input) v = ground (
    arith,
    v,
    All-insert RowOk (digest token) (new_session (or_clock clock input.now) input) s
        (new_session-SessionOk (or_clock clock input.now) input) v,
  )
  step-RowOk s (touch token user clock now) v = touch-RowOk s token user clock now v
  step-RowOk s (revoke token user reason clock now) v =
      elim (Option-cases (lookup (digest token) s)) [
        | inl e ↦ rw (e, step, revoke_auth_session) v
        | inr (row, e) ↦
            rw (e, step, revoke_auth_session)
              (All-insert RowOk (digest token) _ s
                (revoke_session-SessionOk row user reason (or_clock clock now)
                  (All-lookup RowOk (digest token) s v e))
                v)
      ]

  run-RowOk : (s : Sessions) (cs : List Call) → All RowOk s → All RowOk (run digest s cs)
  unfolding run
  run-RowOk s [] v = v
  run-RowOk s (c ∷ cs) v = run-RowOk (step digest s c) cs (step-RowOk s c v)
