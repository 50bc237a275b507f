-- ===== src/Access/Users/Mutation.antt =====
-- What creating and updating a user does to the store.
use erzhuang_project.Prelude.{
  ℕ, ◌+◌, ◌≤◌, ◌<◌, ◌≡◌, ◌⊎◌, refl, ap, ◌∙◌, false, List, [], ◌∷◌, All, if◌then◌else◌, length, none,
  some, arith, Option-cases, Bool-cases, inl, inr,
}
use erzhuang_project.Prelude.Map.{Map, lookup, insert, lookup-insert, nat_eq, All-insert}
use erzhuang_project.Prelude.Text.{Text, text_eq, text_eq_iff, text_is_eq, CaseTable, is_empty}
use erzhuang_project.Access.Roles.{normalize_email}
use erzhuang_project.Access.Users.{
  Scope, User, UserMutation, Users, Result, ok, err, UserError, missing_email, user_exists,
  scope_conflict, user_not_found, monitor_scopes_for_ids, find_by_id, attach_scopes,
  create_auth_user, created_user, update_auth_user, mutated_user,
}

pub find_by_id-id :
    (id : ℕ) (m : Map Text User) (email : Text) (user : User)
    → find_by_id id m ≡ some (email, user)
    → user.id ≡ id
unfolding find_by_id
find_by_id-id id [] email user e = absurd (cc e)
find_by_id-id id ((k, u) ∷ m) email user e = ground (arith, find_by_id-id id m email user)

pub Result-cases :
    {A : Type 0} (r : Result A) → ((e : UserError) × (r ≡ err e)) ⊎ ((a : A) × (r ≡ ok a))
Result-cases (err e) = inl (e, refl)
Result-cases (ok a) = inr (a, refl)

-- The store with `scopes` granted to the user.
abbrev pub with_scopes : Users → ℕ → List Scope → Users
with_scopes s id scopes = record s { scopes_by_user = insert id scopes s.scopes_by_user }

module _ (table : CaseTable) (sha : Text → Text) where
  -- A successful update: the record found, its scopes, and what was written.
  pub record Updated (s : Users) (id : ℕ) (input : UserMutation) (t : Users) (u : User)
      : Type 0 where
    pub email : Text
    pub found : User
    pub scopes : List Scope
    pub found_eq : find_by_id id s.auth_users ≡ some (email, found)
    pub revision_eq : input.scope_revision ≡ (attach_scopes table sha s found).scope_revision
    pub scopes_eq : monitor_scopes_for_ids s found.id input.institution_ids ≡ ok scopes
    pub user_eq :
        u
        ≡ attach_scopes table sha
            (with_scopes s found.id scopes)
            (mutated_user table sha (attach_scopes table sha s found) input)
    pub store_eq : t ≡ record s {
      scopes_by_user = insert found.id scopes s.scopes_by_user;
      auth_users = insert email u s.auth_users;
    }

  -- An update of a user either fails and leaves the store as it was, or writes the one record
  -- found, its scopes, and nothing else; it succeeds only with the revision of the record's
  -- present scopes, role and state.
  pub update_auth_user-cases :
      (s : Users) (id : ℕ) (input : UserMutation)
      → let r = update_auth_user table sha s id input in
        ((e : UserError) × (r ≡ (s, err e)))
        ⊎ ((u : User) × (r.1 ≡ ok u) × Updated s id input r.0 u)
  unfolding update_auth_user
  update_auth_user-cases s id input = elim (Option-cases (find_by_id id s.auth_users)) [
    | inl e ↦ inl (user_not_found, rw (e, update_auth_user))
    | inr ((email, found), e) ↦
        let user = attach_scopes table sha s found in
        elim (Bool-cases (text_eq input.scope_revision user.scope_revision)) [
          | inr stale ↦ inl (scope_conflict, rw (e, update_auth_user, stale))
          | inl current ↦
              elim (Result-cases (monitor_scopes_for_ids s found.id input.institution_ids)) [
                | inl (why, f) ↦ inl (why, rw (e, update_auth_user, current, f))
                | inr (scopes, f) ↦ inr (
                  attach_scopes table sha (with_scopes s found.id scopes)
                      (mutated_user table sha user input),
                  rw (e, update_auth_user, current, f),
                  record {
                    email = email;
                    found = found;
                    scopes = scopes;
                    found_eq = e;
                    revision_eq = (text_eq_iff input.scope_revision user.scope_revision).0 current;
                    scopes_eq = f;
                    user_eq = refl;
                    store_eq = rw (e, update_auth_user, current, f);
                  },
                )
              ]
        ]
  ]

  -- No user has an id above the number of users.
  abbrev pub IdsBounded : Users → Type 0
  IdsBounded s = All (λ (row : Text × User). row.1.id ≤ length s.auth_users) s.auth_users

  -- A successful creation.
  pub record Created (s : Users) (input : UserMutation) (t : Users) (u : User) : Type 0 where
    pub scopes : List Scope
    pub named : is_empty (normalize_email table input.email) ≡ false
    pub absent : lookup (normalize_email table input.email) s.auth_users ≡ none
    pub scopes_eq :
        monitor_scopes_for_ids s (length s.auth_users + 1) input.institution_ids ≡ ok scopes
    pub user_eq :
        u
        ≡ attach_scopes table sha
            (with_scopes s (length s.auth_users + 1) scopes)
            (created_user table sha s (normalize_email table input.email) input)
    pub store_eq : t ≡ record s {
      scopes_by_user = insert (length s.auth_users + 1) scopes s.scopes_by_user;
      auth_users = insert (normalize_email table input.email) u s.auth_users;
    }

  create_auth_user-cases :
      (s : Users) (input : UserMutation)
      → let r = create_auth_user table sha s input in
        ((e : UserError) × (r ≡ (s, err e))) ⊎ ((u : User) × (r.1 ≡ ok u) × Created s input r.0 u)
  unfolding create_auth_user
  create_auth_user-cases s input =
      let email = normalize_email table input.email in
      let made = created_user table sha s email input in
      elim (Bool-cases (is_empty email)) [
        | inl blank ↦ inl (missing_email, rw (blank, create_auth_user))
        | inr named ↦ elim (Option-cases (lookup email s.auth_users)) [
          | inr (old, e) ↦ inl (user_exists, rw (named, e, create_auth_user))
          | inl e ↦ elim (Result-cases (monitor_scopes_for_ids s made.id input.institution_ids)) [
            | inl (why, f) ↦ inl (why, rw (named, e, create_auth_user, f))
            | inr (scopes, f) ↦ inr (
              attach_scopes table sha (with_scopes s made.id scopes) made,
              rw (named, e, create_auth_user, f),
              record {
                scopes = scopes;
                named = named;
                absent = e;
                scopes_eq = f;
                user_eq = refl;
                store_eq = rw (named, e, create_auth_user, f);
              },
            )
          ]
        ]
      ]

  find_above :
      (m : Map Text User) (id bound : ℕ)
      → All (λ (row : Text × User). row.1.id ≤ bound) m
      → bound < id
      → find_by_id id m ≡ none
  unfolding find_by_id
  find_above [] id bound a h = refl
  find_above ((k, u) ∷ m) id bound a h = ground (arith, find_above m id bound a.1 h)

  length-insert_absent :
      (m : Map Text User) (k : Text) (u : User)
      → lookup k m ≡ none
      → length (insert k u m) ≡ length m + 1
  unfolding lookup insert
  length-insert_absent [] k u e = omega arith
  length-insert_absent ((j, w) ∷ m) k u e = ground (arith, length-insert_absent m k u)

  bounded_mono :
      (m : Map Text User) (a b : ℕ)
      → a ≤ b
      → All (λ (row : Text × User). row.1.id ≤ a) m
      → All (λ (row : Text × User). row.1.id ≤ b) m
  bounded_mono [] a b h v = tt
  bounded_mono (r ∷ m) a b h v = (omega arith, bounded_mono m a b h v.1)

  -- From a store whose ids are at most the number of users, a successful creation keeps that; the
  -- new id was nobody's; the new user is found under the normalized e-mail, which was free, and
  -- every other key reads as before.
  pub create_auth_user-fresh :
      (s : Users) (input : UserMutation) (u : User) (other : Text)
      → IdsBounded s
      → (create_auth_user table sha s input).1 ≡ ok u
      → let t = (create_auth_user table sha s input).0 in
        let email = normalize_email table input.email in
        IdsBounded t
        × (find_by_id u.id s.auth_users ≡ none)
        × (lookup email s.auth_users ≡ none)
        × (lookup other t.auth_users
            ≡ (if text_eq email other then some u else lookup other s.auth_users))
  create_auth_user-fresh s input u other v e = elim (create_auth_user-cases s input) [
    | inl (why, f) ↦ absurd (cc (e, f))
    | inr (u', done, w) ↦
        let same : u' ≡ u = cc (done, e) in
        let email = normalize_email table input.email in
        let id_eq : u'.id ≡ length s.auth_users + 1 =
          ap (λ (x : User). x.id) w.user_eq ∙ unfold attach_scopes in refl in
        let size = length-insert_absent s.auth_users email u' w.absent in
        rw (w.store_eq, ← same)
          (
            All-insert (λ (row : Text × User). row.1.id ≤ length (insert email u' s.auth_users))
                email u' s.auth_users (omega arith)
                (bounded_mono s.auth_users (length s.auth_users) _ (omega arith) v),
            find_above s.auth_users u'.id (length s.auth_users) v (omega arith),
            w.absent,
            lookup-insert email other u' s.auth_users,
          )
  ]
