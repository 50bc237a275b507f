-- ===== src/Session/Replay.antt =====
-- One SSO credential opens one session.
use erzhuang_project.Prelude.{
  ℕ, ◌≡◌, refl, true, List, [], ◌∷◌, none, some, arith, inl, inr, Bool-cases, Option-cases,
}
use erzhuang_project.Prelude.Map.{nat_eq, lookup, insert}
use erzhuang_project.Prelude.Text.{Text, text_eq_iff}
use erzhuang_project.Session.{
  Session, Sessions, SessionCreate, reauthentication_required, or_clock, new_session, touch_session,
  revoke_session, create_auth_session, touch_auth_session, revoke_auth_session, Call, create, touch,
  revoke, step, run, is_sso_credential_fingerprint, credential_used,
}

used-insert_other :
    (user : ℕ) (subject : Text) (k : ℕ) (new : Session) (s : Sessions)
    → (new.user_id ≡ user) × (new.sso_subject ≡ subject)
    → credential_used user subject (insert k new s) ≡ true
unfolding credential_used insert
used-insert_other user subject k new [] h = ground (arith, text_eq_iff new.sso_subject subject)
used-insert_other user subject k new ((j, row) ∷ s) h =
    ground (arith, text_eq_iff new.sso_subject subject, used-insert_other user subject k new s h)

-- A write that keeps user and subject of the session it replaces.
used-insert_same :
    (user : ℕ) (subject : Text) (k : ℕ) (old new : Session) (s : Sessions)
    → lookup k s ≡ some old
    → (new.user_id ≡ old.user_id) × (new.sso_subject ≡ old.sso_subject)
    → credential_used user subject s ≡ true
    → credential_used user subject (insert k new s) ≡ true
unfolding credential_used insert lookup
used-insert_same user subject k old new [] e h u = absurd (cc u)
used-insert_same user subject k old new ((j, row) ∷ s) e h u =
    ground (arith, used-insert_same user subject k old new s)

used-insert_fresh :
    (user : ℕ) (subject : Text) (k : ℕ) (new : Session) (s : Sessions)
    → lookup k s ≡ none
    → credential_used user subject s ≡ true
    → credential_used user subject (insert k new s) ≡ true
unfolding credential_used insert lookup
used-insert_fresh user subject k new [] e u = absurd (cc u)
used-insert_fresh user subject k new ((j, row) ∷ s) e u =
    ground (arith, used-insert_fresh user subject k new s)

touch_session-same :
    (s : Session) (user now : ℕ)
    → ((touch_session s user now).0.user_id ≡ s.user_id)
      × ((touch_session s user now).0.sso_subject ≡ s.sso_subject)
unfolding touch_session
touch_session-same s user now = ground arith

revoke_session-same :
    (s : Session) (user : ℕ) (reason : Text) (now : ℕ)
    → ((revoke_session s user reason now).user_id ≡ s.user_id)
      × ((revoke_session s user reason now).sso_subject ≡ s.sso_subject)
unfolding revoke_session
revoke_session-same s user reason now = ground arith

module _ (digest : Text → ℕ) where
  -- The random source gives no digest that a session of the store has.
  abbrev pub FreshCall : Sessions → Call → Type 0
  FreshCall s (create (some token) clock input) = lookup (digest token) s ≡ none
  FreshCall s _ = Unit {0}

  abbrev pub Fresh : Sessions → List Call → Type 0
  Fresh s [] = Unit {0}
  Fresh s (c ∷ cs) = FreshCall s c × Fresh (step digest s c) cs

  touch-used :
      (user : ℕ) (subject : Text) (s : Sessions) (token : Text) (u clock now : ℕ)
      → credential_used user subject s ≡ true
      → credential_used user subject (touch_auth_session digest s token u clock now).0 ≡ true
  unfolding touch_auth_session
  touch-used user subject s token u clock now h = elim (Option-cases (lookup (digest token) s)) [
    | inl e ↦ rw (e, touch_auth_session) h
    | inr (row, e) ↦
        let t = or_clock clock now in
        elim (Bool-cases (touch_session row u t).1) [
          | inl active ↦
              rw (e, touch_auth_session, active)
                (used-insert_same user subject (digest token) row (touch_session row u t).0 s e
                  (touch_session-same row u t) h)
          | inr refused ↦ rw (e, touch_auth_session, refused) h
        ]
  ]

  step-used :
      (user : ℕ) (subject : Text) (s : Sessions) (c : Call)
      → FreshCall s c
      → credential_used user subject s ≡ true
      → credential_used user subject (step digest s c) ≡ true
  unfolding step
  step-used user subject s (create none clock input) f h = h
  step-used user subject s (create (some token) clock input) f h = ground (
    arith,
    h,
    used-insert_fresh user subject (digest token) (new_session (or_clock clock input.now) input) s f
        h,
  )
  step-used user subject s (touch token u clock now) f h =
      touch-used user subject s token u clock now h
  step-used user subject s (revoke token u reason clock now) f h =
      elim (Option-cases (lookup (digest token) s)) [
        | inl e ↦ rw (e, step, revoke_auth_session) h
        | inr (row, e) ↦
            rw (e, step, revoke_auth_session)
              (used-insert_same user subject (digest token) row _ s e
                (revoke_session-same row u reason (or_clock clock now)) h)
      ]

  run-used :
      (user : ℕ) (subject : Text) (s : Sessions) (cs : List Call)
      → Fresh s cs
      → credential_used user subject s ≡ true
      → credential_used user subject (run digest s cs) ≡ true
  unfolding run
  run-used user subject s [] f h = h
  run-used user subject s (c ∷ cs) f h =
      run-used user subject (step digest s c) cs f.1 (step-used user subject s c f.0 h)

  create-used :
      (s : Sessions) (token : Text) (clock : ℕ) (input : SessionCreate) {issued : Text}
      → (create_auth_session digest s (some token) clock input).1 ≡ some issued
      → credential_used input.user_id input.sso_subject
          (create_auth_session digest s (some token) clock input).0
        ≡ true
  unfolding create_auth_session
  create-used s token clock input h = ground (
    arith,
    used-insert_other input.user_id input.sso_subject (digest token)
        (new_session (or_clock clock input.now) input) s (unfold new_session in (refl, refl)),
  )

  create-refused :
      (s : Sessions) (token : Text) (clock : ℕ) (again : SessionCreate) (user : ℕ) (subject : Text)
      → is_sso_credential_fingerprint subject ≡ true
      → credential_used user subject s ≡ true
      → (again.user_id ≡ user) × (again.sso_subject ≡ subject)
      → create_auth_session digest s (some token) clock again
        ≡ (s, none, some reauthentication_required)
  unfolding create_auth_session
  create-refused s token clock again user subject fp used same = rw (same.0, same.1, fp, used)

  -- After a session was issued for an SSO credential fingerprint, whatever calls follow, the same
  -- user's login with the same credential is refused and changes nothing, if the digests of the
  -- random tokens do not collide.
  pub credential_once :
      (s : Sessions) (token : Text) (clock : ℕ) (input : SessionCreate) {issued : Text}
      (cs : List Call) (token' : Text) (clock' : ℕ) (again : SessionCreate)
      → is_sso_credential_fingerprint input.sso_subject ≡ true
      → (create_auth_session digest s (some token) clock input).1 ≡ some issued
      → Fresh (create_auth_session digest s (some token) clock input).0 cs
      → (again.user_id ≡ input.user_id) × (again.sso_subject ≡ input.sso_subject)
      → let later = run digest (create_auth_session digest s (some token) clock input).0 cs in
        create_auth_session digest later (some token') clock' again
        ≡ (later, none, some reauthentication_required)
  credential_once s token clock input cs token' clock' again fp made fresh same =
      create-refused (run digest (create_auth_session digest s (some token) clock input).0 cs)
        token' clock' again input.user_id input.sso_subject fp
        (run-used input.user_id input.sso_subject _ cs fresh (create-used s token clock input made))
        same
