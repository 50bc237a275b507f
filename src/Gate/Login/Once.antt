-- ===== src/Gate/Login/Once.antt =====
-- One SSO token opens one session, through the callback of internal/app/auth.go.
use erzhuang_project.Prelude.{
  ℕ, ◌≡◌, refl, sym, subst, ◌∙◌, Bool, true, if◌then◌else◌, List, Option, none, some, arith,
}
use erzhuang_project.Prelude.Text.{Text, CaseTable}
use erzhuang_project.Session.{
  Sessions, SessionError, reauthentication_required, create_auth_session,
  is_sso_credential_fingerprint, Call, run,
}
use erzhuang_project.Session.Replay.{Fresh, credential_once}
use erzhuang_project.Access.Users.{Users}
use erzhuang_project.Gate.{
  Request, AuthConfig, Claims, Identity, Authenticated, authenticated,
  session_reauthentication_required, cookie_value, is_blank, auth_required, authenticate_sso,
}
use erzhuang_project.Gate.Login.{
  signed_in, rejected, created, creation_error, enter, admit, auth_callback, session_for,
  sso_credential_fingerprint,
}

module _ (table : CaseTable) (sha : Text → Text) (digest : Text → ℕ) (decode : Text → Option Claims)
    (config : AuthConfig) where
  -- A request without a session, from someone whom the SSO token names.
  pub record Arrives (users : Users) (r : Request) (now : ℕ) (identity : Identity) : Type 0 where
    pub required : auth_required table config r ≡ true
    pub signed :
        authenticate_sso table sha digest decode config users r now ≡ authenticated identity
    pub no_session : is_blank r.session_cookie ≡ true

  enter_blank :
      (users : Users) (s : Sessions) (r : Request) (random : Option Text) (clock now : ℕ)
      (identity : Identity)
      → is_blank r.session_cookie ≡ true
      → enter table sha digest decode config users s identity r random clock now
        ≡ created (create_auth_session digest s random clock (session_for sha identity r now))
  unfolding enter
  enter_blank users s r random clock now identity blank = rw (blank, enter) refl

  callback_admits :
      (users : Users) (s : Sessions) (r : Request) (random : Option Text) (clock now : ℕ)
      (identity : Identity) (b : Bool) (a : Authenticated)
      → b ≡ true
      → a ≡ authenticated identity
      → (if b
          then admit table sha digest decode config users (some s) r random clock now a
          else (some s, signed_in none))
        ≡ enter table sha digest decode config users s identity r random clock now
  unfolding admit
  callback_admits users s r random clock now identity b a on signed = rw (on, signed) refl

  auth_callback_new :
      (users : Users) (s : Sessions) (r : Request) (random : Option Text) (clock now : ℕ)
      (identity : Identity)
      → Arrives users r now identity
      → auth_callback table sha digest decode config users (some s) r random clock now
        ≡ created (create_auth_session digest s random clock (session_for sha identity r now))
  unfolding auth_callback
  auth_callback_new users s r random clock now identity a =
      callback_admits users s r random clock now identity _ _ a.required a.signed
      ∙ enter_blank users s r random clock now identity a.no_session

  created-signed_in :
      (made : Sessions × Option Text × Option SessionError) {s : Sessions} {token : Text}
      → created made ≡ (some s, signed_in (some token))
      → (made.0 ≡ s) × (made.1 ≡ some token)
  unfolding created
  created-signed_in (s, none, none) h = absurd (cc h)
  created-signed_in (s, some token, none) h = ground arith
  created-signed_in (s, token, some e) h = absurd (cc h)

  created_again :
      (s : Sessions) (made : Sessions × Option Text × Option SessionError)
      → made ≡ (s, none, some reauthentication_required)
      → created made ≡ (some s, rejected session_reauthentication_required)
  unfolding created creation_error
  created_again s made h = rw h refl

  -- After the callback signed someone in with a new session, a later callback of the same user
  -- with the same SSO token and no session cookie is rejected for a new login and changes nothing,
  -- whatever calls came in between, if the token's digest has the form of a fingerprint and the
  -- digests of the random tokens do not collide.
  pub sso_token_once :
      (users users' : Users) (s s' : Sessions) (r r' : Request) (token token' issued : Text)
      (clock now clock' now' : ℕ) (identity identity' : Identity) (cs : List Call)
      → is_sso_credential_fingerprint (sso_credential_fingerprint sha (cookie_value r.sso_cookie))
        ≡ true
      → Arrives users r now identity
      → auth_callback table sha digest decode config users (some s) r (some token) clock now
        ≡ (some s', signed_in (some issued))
      → Fresh digest s' cs
      → Arrives users' r' now' identity'
      → identity'.record_of_user.id ≡ identity.record_of_user.id
      → r'.sso_cookie ≡ r.sso_cookie
      → let later = run digest s' cs in
        auth_callback table sha digest decode config users'
          (some later)
          r'
          (some token')
          clock'
          now'
        ≡ (some later, rejected session_reauthentication_required)
  unfolding session_for
  sso_token_once users users' s s' r r' token token' issued clock now clock' now' identity identity'
        cs fp a first fresh a' same_user same_cookie =
      let input = session_for sha identity r now in
      let made = create_auth_session digest s (some token) clock input in
      let (kept, given) =
        created-signed_in made
          (sym (auth_callback_new users s r (some token) clock now identity a) ∙ first) in
      let refuses =
        credential_once digest s token clock input cs token' clock'
          (session_for sha identity' r' now') fp given (rw kept fresh)
          (same_user, rw same_cookie refl) in
      auth_callback_new users' (run digest s' cs) r' (some token') clock' now' identity' a'
      ∙ subst
          (λ x.
            created (
              create_auth_session digest (run digest x cs) (some token') clock'
                (session_for sha identity' r' now'))
            ≡ (some (run digest x cs), rejected session_reauthentication_required))
          kept (created_again _ _ refuses)
