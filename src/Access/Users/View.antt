-- ===== src/Access/Users/View.antt =====
-- Which institutions' monitors a user may watch.
use erzhuang_project.Prelude.{
  ℕ, ◌≤◌, ◌<◌, ◌≡◌, ◌≢◌, refl, sym, ap, subst, ◌∙◌, Bool, true, false, not, ◌&&◌, ◌||◌, List, [],
  ◌∷◌, All, ◌==◌, ==_iff, ==_self, if◌then◌else◌, some, arith, Option-cases, Bool-cases, inl, inr,
}
use erzhuang_project.Prelude.Int.{ℤ, pos, negsuc}
use erzhuang_project.Prelude.Map.{
  Map, lookup, insert, lookup-insert, nat_eq, All-insert, All-lookup,
}
use erzhuang_project.Prelude.Text.{
  Text, text_eq, text_eq_iff, text_is_eq, trim_space, CaseTable, is_space, to_lower_rune,
}
use erzhuang_project.Prelude.Decimal.{format_nat, trim_space-format_nat}
use erzhuang_project.Access.Roles.{normalize_role, role_viewer}
use erzhuang_project.Access.Users.{
  Scope, User, UserMutation, Users, Result, ok, err, scopes_of, index_scopes, index_available,
  contains_id, unique_positive, scopes_for, monitor_scopes_for_ids, active_candidate, has_scope,
  may_view, attach_scopes, update_auth_user, can_user_view_monitor_store,
}
use erzhuang_project.Access.Users.Mutation.{find_by_id-id, Updated, update_auth_user-cases}
use erzhuang_project.Access.Users.Institution.{canonical_institution_id_iff}

-- The request names the institution `n`.
abbrev pub names_id : ℕ → List ℤ → Bool
names_id n [] = false
names_id n (pos m ∷ ids) = m == n || names_id n ids
names_id n (negsuc m ∷ ids) = names_id n ids

-- A scope carries the decimal form of its institution's id.
abbrev pub ScopeOk : Scope → Type 0
ScopeOk s = s.external_org_id ≡ format_nat s.store_id

-- Every candidate and every granted scope does.
pub record ScopesOk (s : Users) : Type 0 where
  pub candidates_ok : All ScopeOk s.scope_candidates
  pub granted_ok : All (λ (row : ℕ × List Scope). All ScopeOk row.1) s.scopes_by_user

abbrev IndexRow : ℕ × Scope → Type 0
IndexRow row = (row.1.store_id ≡ row.0) × ScopeOk row.1

index_scopes-IndexRow :
    (m : Map ℕ Scope) (ss : List Scope)
    → All IndexRow m
    → All ScopeOk ss
    → All IndexRow (index_scopes m ss)
index_scopes-IndexRow m [] a b = a
index_scopes-IndexRow m (s ∷ ss) a b =
    index_scopes-IndexRow (insert s.store_id s m) ss
      (All-insert IndexRow s.store_id s m (refl, b.0) a) b.1

index_available-IndexRow :
    (m : Map ℕ Scope) (ss : List Scope)
    → All IndexRow m
    → All ScopeOk ss
    → All IndexRow (index_available m ss)
index_available-IndexRow m [] a b = a
index_available-IndexRow m (s ∷ ss) a b =
    index_available-IndexRow (if not s.unavailable then insert s.store_id s m else m) ss
      (step (not s.unavailable)) b.1
  where
    step : (x : Bool) → All IndexRow (if x then insert s.store_id s m else m)
    step true = All-insert IndexRow s.store_id s m (refl, b.0) a
    step false = a

scopes_of-ok :
    (m : Map ℕ (List Scope)) (id : ℕ)
    → All (λ (row : ℕ × List Scope). All ScopeOk row.1) m
    → All ScopeOk (scopes_of m id)
scopes_of-ok m id a = elim (Option-cases (lookup id m)) [
  | inl e ↦ rw (e, All) tt
  | inr (ss, e) ↦ rw (e, All) (All-lookup (λ (row : ℕ × List Scope). All ScopeOk row.1) id m a e)
]

contains-unique_positive :
    (n : ℕ) (seen : List ℕ) (ids : List ℤ)
    → 0 < n
    → contains_id n (unique_positive seen ids) ≡ (names_id n ids && not (contains_id n seen))
unfolding unique_positive contains_id
contains-unique_positive n seen [] h = refl
contains-unique_positive n seen (negsuc m ∷ ids) h = contains-unique_positive n seen ids h
contains-unique_positive n seen (pos m ∷ ids) h = ground (
  arith,
  contains-unique_positive n seen ids h,
  contains-unique_positive n (m ∷ seen) ids h,
  seen_again n m seen,
)
  where
    seen_again : (a b : ℕ) (xs : List ℕ) → b ≡ a → contains_id b xs ≡ contains_id a xs
    seen_again a b xs e = rw e

abbrev Grants : ℕ → List ℕ → Result (List Scope) → Type 0
Grants n ids (ok scopes) = has_scope n (format_nat n) scopes ≡ contains_id n ids
Grants n ids (err e) = Unit {0}

scopes_for-cons :
    (n id : ℕ) (ids : List ℕ) (scope : Scope) (rest : Result (List Scope))
    → IndexRow (id, scope)
    → Grants n ids rest
    → Grants n (id ∷ ids) (elim rest [ ok scopes ↦ ok (scope ∷ scopes) | err e ↦ err e ])
unfolding contains_id
scopes_for-cons n id ids scope (err e) i g = tt
scopes_for-cons n id ids scope (ok scopes) i g = elim (Bool-cases (id == n)) [
  | inl same ↦
      let is_n = (==_iff id n).0 same in
      ground (
        arith,
        i.0,
        i.1,
        g,
        text_eq_iff scope.external_org_id (format_nat n),
        ap format_nat i.0,
        ap format_nat is_n,
      )
  | inr other ↦ ground (arith, i.0, g)
]

-- The scopes found for a list of ids are those of the institutions that it names.
scopes_for-Grants :
    (n : ℕ) (by_id : Map ℕ Scope) (ids : List ℕ)
    → All IndexRow by_id
    → Grants n ids (scopes_for by_id ids)
unfolding scopes_for
scopes_for-Grants n by_id [] a = unfold contains_id in refl
scopes_for-Grants n by_id (id ∷ ids) a = elim (Option-cases (lookup id by_id)) [
  | inl e ↦ rw (e, Grants) tt
  | inr (scope, e) ↦
      rw (e, Grants)
        (scopes_for-cons n id ids scope (scopes_for by_id ids) (All-lookup IndexRow id by_id a e)
          (scopes_for-Grants n by_id ids a))
]

-- The scopes granted for a request are those of the institutions that it names.
monitor_scopes_for_ids-Grants :
    (s : Users) (user : ℕ) (ids : List ℤ) (scopes : List Scope) (n : ℕ)
    → ScopesOk s
    → monitor_scopes_for_ids s user (some ids) ≡ ok scopes
    → 0 < n
    → has_scope n (format_nat n) scopes ≡ names_id n ids
unfolding monitor_scopes_for_ids
monitor_scopes_for_ids-Grants s user ids scopes n v e h =
    let granted = index_scopes [] (scopes_of s.scopes_by_user user) in
    let by_id = index_available granted s.scope_candidates in
    let rows =
      index_available-IndexRow granted s.scope_candidates
        (index_scopes-IndexRow [] (scopes_of s.scopes_by_user user) tt
          (scopes_of-ok s.scopes_by_user user v.granted_ok))
        v.candidates_ok in
    let all = scopes_for-Grants n by_id (unique_positive [] ids) rows in
    let found : scopes_for by_id (unique_positive [] ids) ≡ ok scopes = ground arith in
    subst (Grants n (unique_positive [] ids)) found all
    ∙ contains-unique_positive n [] ids h
    ∙ unfold contains_id in ground arith

scopes_of-insert :
    (m : Map ℕ (List Scope)) (id j : ℕ) (scopes : List Scope)
    → scopes_of (insert id scopes m) j ≡ (if id == j then scopes else scopes_of m j)
scopes_of-insert m id j scopes = elim (Bool-cases (id == j)) [
  | inl same ↦ rw (lookup-insert id j scopes m, same)
  | inr other ↦ rw (lookup-insert id j scopes m, other)
]

-- What a viewer may watch, at the decimal form of an id.
may_view-viewer :
    (candidates granted : List Scope) (n : ℕ)
    → 0 < n
    → n ≤ 9007199254740991
    → may_view candidates granted role_viewer (format_nat n)
      ≡ (active_candidate n (format_nat n) candidates && has_scope n (format_nat n) granted)
unfolding may_view
may_view-viewer candidates granted n h k =
    rw (may_view, (canonical_institution_id_iff (format_nat n) n).1 (h, k, refl))
      (go (active_candidate n (format_nat n) candidates))
  where
    go :
        (b : Bool)
        → (if not b
            then false
            else if not (text_eq role_viewer role_viewer)
            then true
            else has_scope n (format_nat n) granted)
          ≡ (b && has_scope n (format_nat n) granted)
    go true = rw ((text_eq_iff role_viewer role_viewer).1 refl)
    go false = refl

module _ (table : CaseTable) (sha : Text → Text) where
  can_user_view-viewer :
      (s : Users) (user : User) (n : ℕ)
      → 0 < n
      → n ≤ 9007199254740991
      → normalize_role table user.role ≡ role_viewer
      → can_user_view_monitor_store table sha s user (format_nat n) ≡ (
          active_candidate n (format_nat n) s.scope_candidates
          && has_scope n (format_nat n) (scopes_of s.scopes_by_user user.id))
  unfolding can_user_view_monitor_store
  can_user_view-viewer s user n h k role =
      rw (trim_space-format_nat n, role) (may_view-viewer _ _ n h k)

  normalize_role-viewer :
      (role : Text)
      → normalize_role table role ≡ role_viewer
      → normalize_role table (normalize_role table role) ≡ role_viewer
  unfolding normalize_role text_eq trim_space is_space to_lower_rune
  normalize_role-viewer role e = rw e refl

  -- After a successful update that gives a viewer a list of institutions, in a store whose scopes
  -- carry the decimal form of their ids, the viewer may watch an institution with an id from 1 to
  -- 2^53 - 1 exactly if it is an active candidate and the list names it.
  pub update_auth_user-view :
      (s : Users) (id : ℕ) (input : UserMutation) (ids : List ℤ) (user : User) (n : ℕ)
      → ScopesOk s
      → input.institution_ids ≡ some ids
      → normalize_role table input.role ≡ role_viewer
      → (update_auth_user table sha s id input).1 ≡ ok user
      → 0 < n
      → n ≤ 9007199254740991
      → can_user_view_monitor_store table sha
          (update_auth_user table sha s id input).0
          user
          (format_nat n)
        ≡ (active_candidate n (format_nat n) s.scope_candidates && names_id n ids)
  update_auth_user-view s id input ids user n v given viewer e h k =
      elim (update_auth_user-cases table sha s id input) [
        | inl (why, f) ↦ absurd (cc (e, f))
        | inr (u, done, w) ↦ view_updated u done w
      ]
    where
      view_updated :
          (u : User)
          → (update_auth_user table sha s id input).1 ≡ ok u
          → Updated table sha s id input (update_auth_user table sha s id input).0 u
          → can_user_view_monitor_store table sha
              (update_auth_user table sha s id input).0
              user
              (format_nat n)
            ≡ (active_candidate n (format_nat n) s.scope_candidates && names_id n ids)
      view_updated u done w =
          let same : u ≡ user = cc (done, e) in
          let granted =
            monitor_scopes_for_ids-Grants s w.found.id ids w.scopes n v (rw given at w.scopes_eq)
              h in
          let role : u.role ≡ normalize_role table input.role =
            ap (λ (x : User). x.role) w.user_eq ∙ unfold attach_scopes in refl in
          let id_eq : u.id ≡ w.found.id =
            ap (λ (x : User). x.id) w.user_eq ∙ unfold attach_scopes in refl in
          rw (w.store_eq, ← same)
            (can_user_view-viewer _ u n h k
                (ap (normalize_role table) role ∙ normalize_role-viewer input.role viewer)
              ∙ rw (
                id_eq,
                scopes_of-insert s.scopes_by_user w.found.id w.found.id w.scopes,
                ==_self w.found.id,
                granted,
              ))

  -- Nobody else's view of an institution changes with an update, whether it succeeds or not.
  pub update_auth_user-view_other :
      (s : Users) (id : ℕ) (input : UserMutation) (other : User) (org : Text)
      → other.id ≢ id
      → can_user_view_monitor_store table sha (update_auth_user table sha s id input).0 other org
        ≡ can_user_view_monitor_store table sha s other org
  update_auth_user-view_other s id input other org ne =
      elim (update_auth_user-cases table sha s id input) [
        | inl (why, f) ↦ rw f
        | inr (u, done, w) ↦ rw w.store_eq (
            unfold can_user_view_monitor_store in
            rw (
              scopes_of-insert s.scopes_by_user w.found.id other.id w.scopes,
              ne_test (w.found.id) other.id
                  (λ e. ne (sym e ∙ find_by_id-id id s.auth_users w.email w.found w.found_eq)),
            ))
      ]
    where
      ne_test : (a b : ℕ) → a ≢ b → (a == b) ≡ false
      ne_test a b h = ground arith
