-- ===== src/Access/Users/ReadBack.antt =====
-- What is read after UpdateAuthUser of internal/app/memory_store.go.
use erzhuang_project.Prelude.{
  ℕ, ◌≡◌, ◌≢◌, refl, sym, ap, ◌∙◌, true, false, [], ◌∷◌, ◌==◌, none, some, if◌then◌else◌, arith,
  Option-cases, Bool-cases, inl, inr,
}
use erzhuang_project.Prelude.Map.{Map, lookup, insert, lookup-insert, nat_eq}
use erzhuang_project.Prelude.Text.{Text, text_eq, text_eq_iff, text_is_eq, CaseTable, trim_space}
use erzhuang_project.Access.Roles.{normalize_role}
use erzhuang_project.Access.Users.{
  User, UserMutation, Users, ok, find_by_id, attach_scopes, get_auth_user_by_id, update_auth_user,
  scopes_of,
}
use erzhuang_project.Access.Users.Mutation.{find_by_id-id, Updated, update_auth_user-cases}

-- A Go map has each key once.
abbrev pub DistinctKeys : Map Text User → Type 0
DistinctKeys [] = Unit {0}
DistinctKeys ((k, u) ∷ m) = (lookup k m ≡ none) × DistinctKeys m

find_by_id-lookup :
    (id : ℕ) (m : Map Text User) (email : Text) (user : User)
    → find_by_id id m ≡ some (email, user)
    → lookup email m ≢ none
unfolding find_by_id lookup
find_by_id-lookup id [] email user e n = absurd (cc e)
find_by_id-lookup id ((k, u) ∷ m) email user e n =
    ground (arith, find_by_id-lookup id m email user, text_eq_iff k email)

key_differs :
    (id : ℕ) (k email : Text) (user : User) (m : Map Text User)
    → lookup k m ≡ none
    → find_by_id id m ≡ some (email, user)
    → text_eq k email ≡ false
key_differs id k email user m absent found = elim (Bool-cases (text_eq k email)) [
  | inl same ↦
      absurd (find_by_id-lookup id m email user found (rw ((text_eq_iff k email).0 same) at absent))
  | inr other ↦ other
]

-- Writing the row found.
find_by_id-insert_self :
    (id : ℕ) (m : Map Text User) (email : Text) (old new : User)
    → DistinctKeys m
    → find_by_id id m ≡ some (email, old)
    → new.id ≡ id
    → find_by_id id (insert email new m) ≡ some (email, new)
unfolding find_by_id insert
find_by_id-insert_self id [] email old new d e h = absurd (cc e)
find_by_id-insert_self id ((k, u) ∷ m) email old new d e h = elim (Bool-cases (u.id == id)) [
  | inl hit ↦
      let key : k ≡ email = ground arith in
      let same_key : text_eq k email ≡ true = (text_eq_iff k email).1 key in ground arith
  | inr miss ↦
      let later : find_by_id id m ≡ some (email, old) = rw (miss, find_by_id) at e in
      let other_key = key_differs id k email old m d.0 later in
      let rest = find_by_id-insert_self id m email old new d.1 later h in ground arith
]

find_by_id-insert_other :
    (id other : ℕ) (m : Map Text User) (email : Text) (old new : User)
    → DistinctKeys m
    → find_by_id id m ≡ some (email, old)
    → new.id ≡ id
    → other ≢ id
    → find_by_id other (insert email new m) ≡ find_by_id other m
unfolding find_by_id insert
find_by_id-insert_other id other [] email old new d e h n = absurd (cc e)
find_by_id-insert_other id other ((k, u) ∷ m) email old new d e h n =
    elim (Bool-cases (u.id == id)) [
      | inl hit ↦
          let key : k ≡ email = ground arith in
          let same_key : text_eq k email ≡ true = (text_eq_iff k email).1 key in ground arith
      | inr miss ↦
          let later : find_by_id id m ≡ some (email, old) = rw (miss, find_by_id) at e in
          let other_key = key_differs id k email old m d.0 later in
          let rest = find_by_id-insert_other id other m email old new d.1 later h n in ground arith
    ]

get_auth_user-ok :
    (table : CaseTable) (sha : Text → Text) (s : Users) (id : ℕ) (email : Text) (found u : User)
    → find_by_id id s.auth_users ≡ some (email, found)
    → get_auth_user_by_id table sha s id ≡ ok u
    → u ≡ attach_scopes table sha s found
unfolding get_auth_user_by_id
get_auth_user-ok table sha s id email found u e h =
    let same : ok (attach_scopes table sha s found) ≡ ok u = rw (e, get_auth_user_by_id) at h in
    sym (cc same)

module _ (table : CaseTable) (sha : Text → Text) where
  -- What an update changes of the user that was there, and what it keeps.
  pub record Changed (before : User) (input : UserMutation) (u : User) : Type 0 where
    pub username : u.username ≡ trim_space input.username
    pub display_name : u.display_name ≡ trim_space input.display_name
    pub role : u.role ≡ normalize_role table input.role
    pub enabled : u.enabled ≡ input.enabled
    pub id : u.id ≡ before.id
    pub email : u.email ≡ before.email
    pub phone : u.phone ≡ before.phone
    pub feishu_user_id : u.feishu_user_id ≡ before.feishu_user_id
    pub last_login_at : u.last_login_at ≡ before.last_login_at

  Updated-Changed :
      (s : Users) (id : ℕ) (input : UserMutation) (t : Users) (u before : User)
      → Updated table sha s id input t u
      → get_auth_user_by_id table sha s id ≡ ok before
      → Changed before input u
  unfolding attach_scopes
  Updated-Changed s id input t u before w e =
      rw (w.user_eq, get_auth_user-ok table sha s id w.email w.found before w.found_eq e)
        (record {
          username = refl;
          display_name = refl;
          role = refl;
          enabled = refl;
          id = refl;
          email = refl;
          phone = refl;
          feishu_user_id = refl;
          last_login_at = refl;
        })

  attach_scopes_idem :
      (s t : Users) (user : User)
      → t.scopes_by_user ≡ s.scopes_by_user
      → attach_scopes table sha t (attach_scopes table sha s user) ≡ attach_scopes table sha s user
  unfolding attach_scopes
  attach_scopes_idem s t user e = rw e refl

  attach_scopes-other :
      (s t : Users) (user : User)
      → scopes_of t.scopes_by_user user.id ≡ scopes_of s.scopes_by_user user.id
      → attach_scopes table sha t user ≡ attach_scopes table sha s user
  unfolding attach_scopes
  attach_scopes-other s t user e = rw e refl

  Updated-same :
      (s : Users) (id : ℕ) (input : UserMutation) (t : Users) (u : User)
      → DistinctKeys s.auth_users
      → Updated table sha s id input t u
      → get_auth_user_by_id table sha t id ≡ ok u
  unfolding get_auth_user_by_id
  Updated-same s id input t u d w =
      let after : Users = record s {
        scopes_by_user = insert w.found.id w.scopes s.scopes_by_user;
        auth_users = insert w.email u s.auth_users;
      } in
      let found_id = find_by_id-id id s.auth_users w.email w.found w.found_eq in
      let u_id : u.id ≡ w.found.id =
        ap (λ (x : User). x.id) w.user_eq ∙ unfold attach_scopes in refl in
      let at_id : find_by_id id after.auth_users ≡ some (w.email, u) =
        find_by_id-insert_self id s.auth_users w.email w.found u d w.found_eq (u_id ∙ found_id) in
      let attached : attach_scopes table sha after u ≡ u =
        ap (attach_scopes table sha after) w.user_eq
        ∙ attach_scopes_idem _ after _ refl
        ∙ sym w.user_eq in
      rw w.store_eq (rw (at_id, get_auth_user_by_id) (ap ok attached))

  Updated-other :
      (s : Users) (id : ℕ) (input : UserMutation) (t : Users) (u : User) (other : ℕ)
      → DistinctKeys s.auth_users
      → Updated table sha s id input t u
      → other ≢ id
      → get_auth_user_by_id table sha t other ≡ get_auth_user_by_id table sha s other
  unfolding get_auth_user_by_id
  Updated-other s id input t u other d w n =
      let after : Users = record s {
        scopes_by_user = insert w.found.id w.scopes s.scopes_by_user;
        auth_users = insert w.email u s.auth_users;
      } in
      let found_id = find_by_id-id id s.auth_users w.email w.found w.found_eq in
      let u_id : u.id ≡ w.found.id =
        ap (λ (x : User). x.id) w.user_eq ∙ unfold attach_scopes in refl in
      let same : find_by_id other after.auth_users ≡ find_by_id other s.auth_users =
        find_by_id-insert_other id other s.auth_users w.email w.found u d w.found_eq
          (u_id ∙ found_id) n in
      rw w.store_eq (elim (Option-cases (find_by_id other s.auth_users)) [
        | inl missing ↦ rw (same, missing, get_auth_user_by_id) refl
        | inr ((email, v), hit) ↦
            let v_id = find_by_id-id other s.auth_users email v hit in
            let scopes_eq : scopes_of after.scopes_by_user v.id ≡ scopes_of s.scopes_by_user v.id =
              ground (arith, lookup-insert w.found.id v.id w.scopes s.scopes_by_user) in
            rw (same, hit, get_auth_user_by_id) (ap ok (attach_scopes-other s after v scopes_eq))
      ])

  -- After an update of a user that is there has succeeded, in a store that has each key once, the
  -- user read back by its id is the one returned: it has the trimmed names, the normalized role
  -- and the state asked for, and is as before in all else but its scopes; every other user reads
  -- as before.
  pub update_auth_user-get_auth_user_by_id :
      (s : Users) (id : ℕ) (input : UserMutation) (before u : User) (other : ℕ)
      → DistinctKeys s.auth_users
      → get_auth_user_by_id table sha s id ≡ ok before
      → (update_auth_user table sha s id input).1 ≡ ok u
      → Changed before input u
        × (get_auth_user_by_id table sha (update_auth_user table sha s id input).0 other
            ≡ (if other == id then ok u else get_auth_user_by_id table sha s other))
  update_auth_user-get_auth_user_by_id s id input before u other d b e =
      elim (update_auth_user-cases table sha s id input) [
        | inl (why, f) ↦ absurd (cc (e, f))
        | inr (u', done, w) ↦
            let same : u' ≡ u = cc (done, e) in
            (
              rw (← same) (Updated-Changed s id input _ u' before w b),
              elim (Bool-cases (other == id)) [
                | inl self ↦
                    let other_id : other ≡ id = ground arith in
                    rw (self, other_id) (rw (← same) (Updated-same s id input _ u' d w))
                | inr differs ↦ rw differs (Updated-other s id input _ u' other d w (ground arith))
              ],
            )
      ]
