-- ===== src/Session/Isolation.antt =====
-- What later calls on the store can do to one session.
use erzhuang_project.Prelude.{
  ℕ, ◌+◌, ◌≤◌, ◌≡◌, ◌≢◌, sym, subst, ◌⊎◌, ◌∙◌, false, List, [], ◌∷◌, ◌==◌, ==_iff, ==_self, All,
  none, some, arith, inl, inr, Bool-cases, Option-cases,
}
use erzhuang_project.Prelude.Map.{nat_eq, lookup, insert, lookup-insert}
use erzhuang_project.Prelude.Text.{Text}
use erzhuang_project.Session.{
  Session, Sessions, SessionCreate, or_clock, new_session, touch_session, revoke_session,
  create_auth_session, touch_auth_session, revoke_auth_session, Call, create, touch, revoke, step,
  run, default_auth_absolute_timeout, get_auth_session_status, session_status,
}

-- What stays true of a session: its user, its creation, its subject, and a revocation.
pub record Evolves (s t : Session) : Type 0 where
  pub same_user : t.user_id ≡ s.user_id
  pub same_creation : t.created_at ≡ s.created_at
  pub same_subject : t.sso_subject ≡ s.sso_subject
  pub stays_revoked : s.revoked_at ≢ 0 → t.revoked_at ≡ s.revoked_at

Evolves-refl : (s : Session) → Evolves s s
Evolves-refl s = ground arith

Evolves-trans : (s t u : Session) → Evolves s t → Evolves t u → Evolves s u
Evolves-trans s t u a b = ground arith

touch_session-Evolves : (s : Session) (user now : ℕ) → Evolves s (touch_session s user now).0
unfolding touch_session
touch_session-Evolves s user now = ground arith

revoke_session-Evolves :
    (s : Session) (user : ℕ) (reason : Text) (now : ℕ)
    → Evolves s (revoke_session s user reason now)
unfolding revoke_session
revoke_session-Evolves s user reason now = ground arith

-- The session under `k` is there, and has come from `row`.
pub record Holds (k : ℕ) (row : Session) (s : Sessions) : Type 0 where
  pub current : Session
  pub found : lookup k s ≡ some current
  pub evolved : Evolves row current

module _ (digest : Text → ℕ) where
  -- The random source gives no token of the digest `k`.
  abbrev pub Avoids : ℕ → Call → Type 0
  Avoids k (create (some token) clock input) = digest token ≢ k
  Avoids k _ = Unit {0}

  -- A write under `j` of a session that comes from the one read there.
  insert-Holds :
      (k j : ℕ) (row old new : Session) (s : Sessions)
      → lookup j s ≡ some old
      → Evolves old new
      → Holds k row s
      → Holds k row (insert j new s)
  insert-Holds k j row old new s e v h = elim (Bool-cases (j == k)) [
    | inl same ↦
        let here : lookup k s ≡ some old = rw ((==_iff j k).0 same) at e in
        let one : some h.current ≡ some old = sym h.found ∙ here in
        record {
          current = new;
          found = rw (lookup-insert j k new s, same);
          evolved =
              Evolves-trans row h.current new h.evolved
                (subst (λ (x : Session). Evolves x new) (sym (cc one)) v);
        }
    | inr other ↦ record {
      current = h.current;
      found = rw (lookup-insert j k new s, other) h.found;
      evolved = h.evolved;
    }
  ]

  insert-Holds_other :
      (k j : ℕ) (row new : Session) (s : Sessions)
      → j ≢ k
      → Holds k row s
      → Holds k row (insert j new s)
  insert-Holds_other k j row new s ne h = record {
    current = h.current;
    found = ground (arith, lookup-insert j k new s, h.found);
    evolved = h.evolved;
  }

  touch-Holds :
      (k : ℕ) (row : Session) (s : Sessions) (token : Text) (user clock now : ℕ)
      → Holds k row s
      → Holds k row (touch_auth_session digest s token user clock now).0
  unfolding touch_auth_session
  touch-Holds k row s token user clock now h = elim (Option-cases (lookup (digest token) s)) [
    | inl e ↦ rw (e, touch_auth_session) h
    | inr (old, e) ↦
        let (new, active, error) = touch_session old user (or_clock clock now) in
        elim (Bool-cases active) [
          | inl used ↦
              rw (e, touch_auth_session, used)
                (insert-Holds k (digest token) row old new s e
                  (touch_session-Evolves old user (or_clock clock now)) h)
          | inr unused ↦ rw (e, touch_auth_session, unused) h
        ]
  ]

  revoke-Holds :
      (k : ℕ) (row : Session) (s : Sessions) (token : Text) (user : ℕ) (reason : Text)
      (clock now : ℕ)
      → Holds k row s
      → Holds k row (revoke_auth_session digest s token user reason clock now)
  unfolding revoke_auth_session
  revoke-Holds k row s token user reason clock now h =
      elim (Option-cases (lookup (digest token) s)) [
        | inl e ↦ rw (e, revoke_auth_session) h
        | inr (old, e) ↦
            rw (e, revoke_auth_session)
              (insert-Holds k (digest token) row old _ s e
                (revoke_session-Evolves old user reason (or_clock clock now)) h)
      ]

  create-Holds :
      (k : ℕ) (row : Session) (s : Sessions) (token : Text) (clock : ℕ) (input : SessionCreate)
      → digest token ≢ k
      → Holds k row s
      → Holds k row (create_auth_session digest s (some token) clock input).0
  unfolding create_auth_session
  create-Holds k row s token clock input ne h = ground (
    arith,
    h,
    insert-Holds_other k (digest token) row (new_session (or_clock clock input.now) input) s ne h,
  )

  step-Holds :
      (k : ℕ) (row : Session) (s : Sessions) (c : Call)
      → Avoids k c
      → Holds k row s
      → Holds k row (step digest s c)
  unfolding step
  step-Holds k row s (create none clock input) a h = h
  step-Holds k row s (create (some token) clock input) a h =
      create-Holds k row s token clock input a h
  step-Holds k row s (touch token user clock now) a h = touch-Holds k row s token user clock now h
  step-Holds k row s (revoke token user reason clock now) a h =
      revoke-Holds k row s token user reason clock now h

  pub run-Holds :
      (k : ℕ) (row : Session) (s : Sessions) (cs : List Call)
      → All (Avoids k) cs
      → Holds k row s
      → Holds k row (run digest s cs)
  unfolding run
  run-Holds k row s [] a h = h
  run-Holds k row s (c ∷ cs) a h =
      run-Holds k row (step digest s c) cs a.1 (step-Holds k row s c a.0 h)

  Holds-self : (k : ℕ) (row : Session) (s : Sessions) → lookup k s ≡ some row → Holds k row s
  Holds-self k row s e = record { current = row; found = e; evolved = Evolves-refl row }

  touch_session_refused :
      (s : Session) (user now : ℕ)
      → (s.revoked_at ≢ 0)
        ⊎ ((s.user_id ≢ user) ⊎ (s.created_at + default_auth_absolute_timeout ≤ now))
      → (touch_session s user now).1 ≡ false
  unfolding touch_session
  touch_session_refused s user now h = ground arith

  touch_auth_session_refused :
      (s : Sessions) (token : Text) (user clock now : ℕ) (row : Session)
      → lookup (digest token) s ≡ some row
      → (touch_session row user (or_clock clock now)).1 ≡ false
      → (touch_auth_session digest s token user clock now).1 ≡ false
  unfolding touch_auth_session
  touch_auth_session_refused s token user clock now row e h = rw (e, touch_auth_session) h

  -- Eight hours after its creation a session that the store holds is never accepted again,
  -- whatever calls came in between, if no new session is given the same digest.
  pub absolute_deadline :
      (s : Sessions) (token : Text) (row : Session) (cs : List Call) (user clock now : ℕ)
      → lookup (digest token) s ≡ some row
      → All (Avoids (digest token)) cs
      → row.created_at + default_auth_absolute_timeout ≤ or_clock clock now
      → (touch_auth_session digest (run digest s cs) token user clock now).1 ≡ false
  absolute_deadline s token row cs user clock now e a late =
      let h = run-Holds (digest token) row s cs a (Holds-self (digest token) row s e) in
      touch_auth_session_refused (run digest s cs) token user clock now h.current h.found (
        touch_session_refused h.current user (or_clock clock now)
          (inr (inr (omega (arith, h.evolved.same_creation)))))

  -- Whatever calls came in between, no other user's request is accepted with the token of a
  -- session that the store holds, if no new session is given the same digest.
  pub owner_only :
      (s : Sessions) (token : Text) (row : Session) (cs : List Call) (user clock now : ℕ)
      → lookup (digest token) s ≡ some row
      → All (Avoids (digest token)) cs
      → row.user_id ≢ user
      → (touch_auth_session digest (run digest s cs) token user clock now).1 ≡ false
  owner_only s token row cs user clock now e a other =
      let h = run-Holds (digest token) row s cs a (Holds-self (digest token) row s e) in
      touch_auth_session_refused (run digest s cs) token user clock now h.current h.found (
        touch_session_refused h.current user (or_clock clock now)
          (inr (inl (omega (arith, h.evolved.same_user)))))

  revoke_session_owner :
      (row : Session) (reason : Text) (now : ℕ)
      → now ≢ 0
      → (revoke_session row row.user_id reason now).revoked_at ≢ 0
  unfolding revoke_session
  revoke_session_owner row reason now ne = ground arith

  lookup-revoke :
      (s : Sessions) (token : Text) (row : Session) (reason : Text) (clock now : ℕ)
      → lookup (digest token) s ≡ some row
      → lookup (digest token) (revoke_auth_session digest s token row.user_id reason clock now)
        ≡ some (revoke_session row row.user_id reason (or_clock clock now))
  unfolding revoke_auth_session
  lookup-revoke s token row reason clock now e =
      rw (e, revoke_auth_session) (rw (lookup-insert, ==_self (digest token)))

  status_refused :
      (s : Sessions) (token : Text) (user now : ℕ) (row : Session)
      → lookup (digest token) s ≡ some row
      → row.revoked_at ≢ 0
      → (get_auth_session_status digest s token user now).0 ≡ none
  unfolding get_auth_session_status session_status
  status_refused s token user now row e h = rw (e, get_auth_session_status) (ground arith)

  -- From a revocation by its owner at a nonzero time on, whatever calls follow, no request with
  -- the session's token is accepted and no status is given for it, if no new session is given the
  -- same digest.
  pub revoke_final :
      (s : Sessions) (token : Text) (row : Session) (reason : Text) (revoked_clock revoked_now : ℕ)
      (cs : List Call) (user clock now : ℕ)
      → lookup (digest token) s ≡ some row
      → or_clock revoked_clock revoked_now ≢ 0
      → All (Avoids (digest token)) cs
      → let later =
          run digest
            (revoke_auth_session digest s token row.user_id reason revoked_clock revoked_now)
            cs in
        ((touch_auth_session digest later token user clock now).1 ≡ false)
        × ((get_auth_session_status digest later token user now).0 ≡ none)
  revoke_final s token row reason rc rn cs user clock now e ne a =
      let gone = revoke_session row row.user_id reason (or_clock rc rn) in
      let after = revoke_auth_session digest s token row.user_id reason rc rn in
      let h =
        run-Holds (digest token) gone after cs a
          (Holds-self (digest token) gone after (lookup-revoke s token row reason rc rn e)) in
      let still : h.current.revoked_at ≢ 0 = λ z.
        revoke_session_owner row reason (or_clock rc rn) ne (
          sym (h.evolved.stays_revoked (revoke_session_owner row reason (or_clock rc rn) ne))
          ∙ z) in
      (
        touch_auth_session_refused (run digest after cs) token user clock now h.current h.found
            (touch_session_refused h.current user (or_clock clock now) (inl still)),
        status_refused (run digest after cs) token user now h.current h.found still,
      )
