-- ===== src/Gate/Stores.antt =====
-- What a signed-in user may do: the permission guards and the store filters of internal/app/authz.go,
-- with the response types of internal/nvrmonitor/models.go.
pub mod Filtered
use erzhuang_project.Prelude.{
  ℕ, suc, ◌≡◌, ◌≢◌, refl, ap, Bool, true, false, not, ◌||◌, List, [], ◌∷◌, ◌++◌, append_assoc, All,
  Option, none, some, arith, inl, inr, Bool-cases, if◌then◌else◌, length, ltb,
}
use erzhuang_project.Prelude.Text.{Text, CaseTable, text_eq}
use erzhuang_project.Session.{Sessions}
use erzhuang_project.Access.Roles.{
  normalize_role, permissions, has_permission, role_admin, permission_store_write,
}
use erzhuang_project.Access.Users.{Users, User, can_user_view_monitor_store}
use erzhuang_project.Gate.{
  Request, AuthConfig, Claims, Identity, Authenticated, authenticated, refused, AuthError,
  unauthorized, forbidden, session_idle_timeout, session_absolute_timeout, session_login_required,
  session_reauthentication_required, auth_session_unavailable, store_failed, After,
  current_auth_identity,
}

pub record StoreInfo : Type 0 where
  pub external_org_id : Text
  pub store_name : Text
  pub city : Text
  pub available_camera_count : ℕ

pub record StoreCityGroup : Type 0 where
  pub city : Text
  pub stores : List StoreInfo

-- What the monitors' authorizer returns beside an error.
pub data MonitorError : Type 0 where
  monitor_unauthorized monitor_forbidden : MonitorError
  monitor_failed : AuthError → MonitorError

pub data Answer (A : Type 0) : Type 0 where
  answer : A → Answer A
  fails : MonitorError → Answer A

pub data Guard : Type 0 where
  granted : User → Guard
  lacks_permission : Guard
  not_signed_in : AuthError → Guard

unfoldable pub is_session_auth_error : AuthError → Bool
is_session_auth_error unauthorized = true
is_session_auth_error session_idle_timeout = true
is_session_auth_error session_absolute_timeout = true
is_session_auth_error session_login_required = true
is_session_auth_error session_reauthentication_required = true
is_session_auth_error auth_session_unavailable = true
is_session_auth_error forbidden = false
is_session_auth_error (store_failed e) = false

abbrev is_forbidden : AuthError → Bool
is_forbidden forbidden = true
is_forbidden e = false

unfoldable pub nvr_monitor_auth_error : AuthError → MonitorError
unfolding is_session_auth_error
nvr_monitor_auth_error e =
    if is_session_auth_error e
    then monitor_unauthorized
    else if is_forbidden e
    then monitor_forbidden
    else monitor_failed e

-- The rest of a handler, once `currentAuthUser` has answered.
for_user : {A : Type 0} → After Authenticated → (User → A) → After (Answer A)
unfolding nvr_monitor_auth_error
for_user (store, refused e) f = (store, fails (nvr_monitor_auth_error e))
for_user (store, authenticated identity) f = (store, answer (f identity.record_of_user))

module _ (table : CaseTable) (sha : Text → Text) (users : Users) where
  -- The inner loop of `FilterStores`.
  viewable_stores : User → List StoreInfo → List StoreInfo
  viewable_stores user [] = []
  viewable_stores user (s ∷ ss) =
      let rest = viewable_stores user ss in
      if can_user_view_monitor_store table sha users user s.external_org_id then s ∷ rest else rest

  -- The outer one.
  unfoldable pub viewable_groups : User → List StoreCityGroup → List StoreCityGroup
  unfolding viewable_stores
  viewable_groups user [] = []
  viewable_groups user (g ∷ gs) =
      let rest = viewable_groups user gs in
      let stores = viewable_stores user g.stores in
      if ltb 0 (length stores) then record { city = g.city; stores = stores } ∷ rest else rest

  may_backfill : User → Text → Bool
  may_backfill user external_org_id =
      if not (has_permission (permissions table user.role) permission_store_write)
      then false
      else can_user_view_monitor_store table sha users user external_org_id

-- The handlers take the identity that the gate left in the context, and what authenticating anew
-- reads: the session store, the request and the two clocks.
module _ (table : CaseTable) (sha : Text → Text) (digest : Text → ℕ) (decode : Text → Option Claims)
    (config : AuthConfig) (users : Users) (context : Option Identity) (store : Option Sessions)
    (r : Request) (clock now : ℕ) where
  current : After Authenticated
  current = current_auth_identity table sha digest decode config users context store r clock now

  unfoldable pub filter_stores : List StoreCityGroup → After (Answer (List StoreCityGroup))
  unfolding for_user viewable_groups current
  filter_stores cities = for_user current (λ user. viewable_groups table sha users user cities)

  unfoldable pub can_view_store : Text → After (Answer Bool)
  unfolding for_user current
  can_view_store external_org_id =
      for_user current (λ user. can_user_view_monitor_store table sha users user external_org_id)

  unfoldable pub can_backfill_snapshot : Text → After (Answer Bool)
  unfolding for_user may_backfill current
  can_backfill_snapshot external_org_id =
      for_user current (λ user. may_backfill table sha users user external_org_id)

  guard : (User → Bool) → After Authenticated → After Guard
  guard allowed (store', refused e) = (store', not_signed_in e)
  guard allowed (store', authenticated identity) = (
    store',
    if allowed identity.record_of_user then granted identity.record_of_user else lacks_permission,
  )

  unfoldable pub require_permission : Text → After Guard
  unfolding guard current
  require_permission permission =
      guard (λ user. has_permission (permissions table user.role) permission) current

  unfoldable pub nvr_lab_admin_guard : After Guard
  unfolding guard current
  nvr_lab_admin_guard = guard (λ user. text_eq (normalize_role table user.role) role_admin) current
