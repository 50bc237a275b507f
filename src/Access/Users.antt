-- ===== src/Access/Users.antt =====
-- Users and their monitor scopes in `MemoryStore` of internal/app/memory_store.go, with
-- `canonicalInstitutionID` and the scope revisions of internal/app/mysql_monitor_scopes.go.
-- Ids are not negative; those that a request names are integers. SHA-256, printed in hexadecimal, is
-- the parameter `sha`.
pub mod Institution
pub mod View
pub mod ReadBack
pub mod Mutation
use erzhuang_project.Prelude.{
  ℕ, ◌+◌, ◌≡◌, Bool, true, false, not, ◌&&◌, ◌||◌, List, [], ◌∷◌, ◌++◌, map, ◌==◌, if◌then◌else◌,
  length, leb, ltb, Option, none, some,
}
use erzhuang_project.Prelude.Int.{ℤ, pos, negsuc}
use erzhuang_project.Prelude.Map.{Map, lookup, insert, nat_eq}
use erzhuang_project.Prelude.Text.{
  Text, text, text_eq, text_is_eq, trim_space, CaseTable, is_empty, join, sort_texts,
}
use erzhuang_project.Prelude.Decimal.{format_nat, parse_int}
use erzhuang_project.Access.Roles.{normalize_role, normalize_email, role_viewer, first_non_empty}

pub record Scope : Type 0 where
  pub store_id : ℕ
  pub city : Text
  pub name : Text
  pub external_org_id : Text
  pub unavailable : Bool

-- The zero value of a count, list and revision stands where none was attached.
pub record User : Type 0 where
  pub id : ℕ
  pub email : Text
  pub username : Text
  pub display_name : Text
  pub feishu_user_id : Text
  pub phone : Text
  pub role : Text
  pub enabled : Bool
  pub last_login_at : Option ℕ
  pub scope_count : ℕ
  pub scopes : List Scope
  pub scope_revision : Text

-- `institution_ids` is `none` for nil. The legacy store ids, which the memory store does not read, are
-- left out.
pub record UserMutation : Type 0 where
  pub email : Text
  pub username : Text
  pub display_name : Text
  pub role : Text
  pub enabled : Bool
  pub institution_ids : Option (List ℤ)
  pub scope_revision : Text

pub record UserPatch : Type 0 where
  pub email : Text
  pub username : Text
  pub display_name : Text
  pub feishu_user_id : Text
  pub phone : Text

pub data UserError : Type 0 where
  missing_email user_exists bad_institution_id scope_conflict user_not_found : UserError
  institution_unavailable : ℕ → UserError

pub data Result (A : Type 0) : Type 0 where
  ok : A → Result A
  err : UserError → Result A

-- What the operations on users read and write of `MemoryStore`.
pub record Users : Type 0 where
  pub auth_users : Map Text User
  pub scope_candidates : List Scope
  pub scopes_by_user : Map ℕ (List Scope)

-- 2^53 - 1.
abbrev pub max_institution_id : ℕ
max_institution_id = 9007199254740991

abbrev checked_id : Text → Option ℤ → Option ℕ
checked_id key (some (pos id)) =
    if ltb 0 id && leb id max_institution_id && text_eq (format_nat id) key then some id else none
checked_id key _ = none

unfoldable pub canonical_institution_id : Text → Option ℕ
canonical_institution_id key = checked_id key (parse_int key)

-- A missing key reads as the nil slice.
abbrev pub or_nil : Option (List Scope) → List Scope
or_nil none = []
or_nil (some scopes) = scopes

abbrev pub scopes_of : Map ℕ (List Scope) → ℕ → List Scope
scopes_of m id = or_nil (lookup id m)

-- `byID[scope.StoreID] = scope` over a list.
abbrev index_scopes : Map ℕ Scope → List Scope → Map ℕ Scope
index_scopes m [] = m
index_scopes m (s ∷ ss) = index_scopes (insert s.store_id s m) ss

-- The same, over the available ones.
abbrev index_available : Map ℕ Scope → List Scope → Map ℕ Scope
index_available m [] = m
index_available m (s ∷ ss) =
    index_available (if not s.unavailable then insert s.store_id s m else m) ss

-- `id <= 0 || id > 9007199254740991`
abbrev bad_id : ℤ → Bool
bad_id (pos n) = n == 0 || ltb max_institution_id n
bad_id (negsuc n) = true

any_bad : List ℤ → Bool
any_bad [] = false
any_bad (id ∷ ids) = bad_id id || any_bad ids

contains_id : ℕ → List ℕ → Bool
contains_id id [] = false
contains_id id (x ∷ xs) = x == id || contains_id id xs

-- `uniquePositiveInt64s`, with what it has seen.
unique_positive : List ℕ → List ℤ → List ℕ
unfolding contains_id
unique_positive seen [] = []
unique_positive seen (negsuc n ∷ ids) = unique_positive seen ids
unique_positive seen (pos n ∷ ids) =
    let skipped = unique_positive seen ids in
    let kept = n ∷ unique_positive (n ∷ seen) ids in
    if n == 0 || contains_id n seen then skipped else kept

-- The scopes of the ids in turn, up to the first id that has none.
scopes_for : Map ℕ Scope → List ℕ → Result (List Scope)
scopes_for by_id [] = ok []
scopes_for by_id (id ∷ ids) = elim (lookup id by_id) [
  | none ↦ err (institution_unavailable id)
  | some scope ↦ elim (scopes_for by_id ids) [ ok scopes ↦ ok (scope ∷ scopes) | err e ↦ err e ]
]

unfoldable pub monitor_scopes_for_ids : Users → ℕ → Option (List ℤ) → Result (List Scope)
unfolding any_bad unique_positive scopes_for
monitor_scopes_for_ids s user none = ok (scopes_of s.scopes_by_user user)
monitor_scopes_for_ids s user (some ids) =
    let granted = index_scopes [] (scopes_of s.scopes_by_user user) in
    let by_id = index_available granted s.scope_candidates in
    if any_bad ids then err bad_institution_id else scopes_for by_id (unique_positive [] ids)

-- The record that `range s.authUsers` finds by its id, with its key.
unfoldable pub find_by_id : ℕ → Map Text User → Option (Text × User)
find_by_id id [] = none
find_by_id id ((email, user) ∷ rest) =
    if user.id == id then some (email, user) else find_by_id id rest

abbrev pub active_candidate : ℕ → Text → List Scope → Bool
active_candidate id org [] = false
active_candidate id org (c ∷ cs) =
    (c.store_id == id && text_eq c.external_org_id org && not c.unavailable)
    || active_candidate id org cs

abbrev pub has_scope : ℕ → Text → List Scope → Bool
has_scope id org [] = false
has_scope id org (s ∷ ss) =
    (s.store_id == id && text_eq s.external_org_id org) || has_scope id org ss

-- The candidates, the user's scopes and role, and the trimmed key.
unfoldable pub may_view : List Scope → List Scope → Text → Text → Bool
may_view candidates granted role org = elim (canonical_institution_id org) [
  | none ↦ false
  | some id ↦
      if not (active_candidate id org candidates)
      then false
      else if not (text_eq role role_viewer)
      then true
      else has_scope id org granted
]

abbrev colon : Text
colon = text ":"

abbrev scope_token : Scope → Text
scope_token s = text "crm_institution:" ++ (format_nat s.store_id ++ (colon ++ s.external_org_id))

abbrev bool_text : Bool → Text
bool_text true = text "true"
bool_text false = text "false"

module _ (table : CaseTable) (sha : Text → Text) where
  -- `sort.Strings`, joined by newlines.
  unfoldable pub monitor_scope_revision : List Text → Text
  monitor_scope_revision tokens = sha (join (text "\n") (sort_texts tokens))

  unfoldable pub memory_scope_revision : List Scope → Text
  unfolding monitor_scope_revision
  memory_scope_revision scopes = monitor_scope_revision (map scope_token scopes)

  unfoldable pub user_monitor_scope_revision : List Text → Text → Bool → Text
  unfolding monitor_scope_revision
  user_monitor_scope_revision tokens role enabled =
      let token = text "user:" ++ (normalize_role table role ++ (colon ++ bool_text enabled)) in
      monitor_scope_revision (tokens ++ token ∷ [])

  -- `attachMemoryMonitorScopes`
  unfoldable pub attach_scopes : Users → User → User
  attach_scopes s user =
      let scopes = scopes_of s.scopes_by_user user.id in
      record user {
        scopes = scopes;
        scope_count = length scopes;
        scope_revision =
            user_monitor_scope_revision (memory_scope_revision scopes ∷ []) user.role user.enabled;
      }

  unfoldable pub get_auth_user_by_email : Users → Text → Result User
  get_auth_user_by_email s email = elim (lookup (normalize_email table email) s.auth_users) [
    | none ↦ err user_not_found
    | some user ↦ ok (attach_scopes s user)
  ]

  unfoldable pub get_auth_user_by_id : Users → ℕ → Result User
  get_auth_user_by_id s id = elim (find_by_id id s.auth_users) [
    | none ↦ err user_not_found
    | some (email, user) ↦ ok (attach_scopes s user)
  ]

  -- `clock` is `time.Now()`.
  unfoldable pub update_auth_user_profile : Users → ℕ → UserPatch → Users × Result User
  update_auth_user_profile s clock patch =
      let email = normalize_email table patch.email in
      elim (lookup email s.auth_users) [
        | none ↦ (s, err user_not_found)
        | some user ↦
            let updated = record user {
              username = first_non_empty (patch.username ∷ user.username ∷ []);
              display_name = first_non_empty (patch.display_name ∷ user.display_name ∷ []);
              feishu_user_id = first_non_empty (patch.feishu_user_id ∷ user.feishu_user_id ∷ []);
              phone = first_non_empty (patch.phone ∷ user.phone ∷ []);
              last_login_at = some clock;
            } in
            if not user.enabled
            then (s, ok user)
            else (record s { auth_users = insert email updated s.auth_users }, ok updated)
      ]

  -- The record that is made before its scopes are attached.
  abbrev created_user : Users → Text → UserMutation → User
  created_user s email input = record {
    id = length s.auth_users + 1;
    email = email;
    username = trim_space input.username;
    display_name = trim_space input.display_name;
    feishu_user_id = [];
    phone = [];
    role = normalize_role table input.role;
    enabled = input.enabled;
    last_login_at = none;
    scope_count = 0;
    scopes = [];
    scope_revision = [];
  }

  -- The scopes are stored before they are attached.
  store_user : Users → Text → User → List Scope → Users × Result User
  unfolding attach_scopes
  store_user s email user scopes =
      let s' = record s { scopes_by_user = insert user.id scopes s.scopes_by_user } in
      let attached = attach_scopes s' user in
      (record s' { auth_users = insert email attached s.auth_users }, ok attached)

  unfoldable pub create_auth_user : Users → UserMutation → Users × Result User
  unfolding store_user
  create_auth_user s input =
      let email = normalize_email table input.email in
      let user = created_user s email input in
      if is_empty email then (s, err missing_email) else elim (lookup email s.auth_users) [
        | some existing ↦ (s, err user_exists)
        | none ↦ elim (monitor_scopes_for_ids s user.id input.institution_ids) [
          | err e ↦ (s, err e)
          | ok scopes ↦ store_user s email user scopes
        ]
      ]

  abbrev mutated_user : User → UserMutation → User
  mutated_user user input = record user {
    username = trim_space input.username;
    display_name = trim_space input.display_name;
    role = normalize_role table input.role;
    enabled = input.enabled;
  }

  unfoldable pub update_auth_user : Users → ℕ → UserMutation → Users × Result User
  unfolding store_user
  update_auth_user s id input = elim (find_by_id id s.auth_users) [
    | none ↦ (s, err user_not_found)
    | some (email, found) ↦
        let user = attach_scopes s found in
        if not (text_eq input.scope_revision user.scope_revision)
        then (s, err scope_conflict)
        else elim (monitor_scopes_for_ids s user.id input.institution_ids) [
          | err e ↦ (s, err e)
          | ok scopes ↦ store_user s email (mutated_user user input) scopes
        ]
  ]

  unfoldable pub can_user_view_monitor_store : Users → User → Text → Bool
  can_user_view_monitor_store s user external_org_id =
      may_view s.scope_candidates (scopes_of s.scopes_by_user user.id)
        (normalize_role table user.role) (trim_space external_org_id)
