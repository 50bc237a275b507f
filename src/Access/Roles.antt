-- ===== src/Access/Roles.antt =====
-- Roles and permissions of internal/app/auth_users.go and authz.go.
use erzhuang_project.Prelude.{
  ◌≡◌, ◌⊎◌, refl, Bool, true, false, ◌||◌, List, [], ◌∷◌, if◌then◌else◌, inl, inr, Bool-cases,
}
use erzhuang_project.Prelude.Text.{Text, text, text_eq, trim_space, to_lower, CaseTable, is_empty}

abbrev pub role_admin : Text
role_admin = text "admin"

abbrev pub role_editor : Text
role_editor = text "editor"

abbrev pub role_viewer : Text
role_viewer = text "viewer"

abbrev pub permission_store_read : Text
permission_store_read = text "store:read"

abbrev pub permission_store_write : Text
permission_store_write = text "store:write"

abbrev pub permission_store_export : Text
permission_store_export = text "store:export"

abbrev pub permission_user_manage : Text
permission_user_manage = text "user:manage"

abbrev pub permission_audit_view : Text
permission_audit_view = text "audit.view"

unfoldable pub has_permission : List Text → Text → Bool
unfolding text_eq
has_permission [] target = false
has_permission (v ∷ values) target = text_eq v target || has_permission values target

unfoldable pub first_non_empty : List Text → Text
first_non_empty [] = []
first_non_empty (v ∷ values) =
    let rest = first_non_empty values in if is_empty (trim_space v) then rest else trim_space v

module _ (table : CaseTable) where
  unfoldable pub normalize_email : Text → Text
  normalize_email value = to_lower table (trim_space value)

  unfoldable pub normalize_role : Text → Text
  normalize_role value =
      let role = to_lower table (trim_space value) in
      if text_eq role role_admin
      then role_admin
      else if text_eq role role_editor
      then role_editor
      else role_viewer

  -- `permissions` of a record with the role `value`.
  unfoldable pub permissions : Text → List Text
  permissions value =
      let role = to_lower table (trim_space value) in
      if text_eq role role_admin
      then (role_admin ∷ permission_store_read ∷ permission_store_write ∷ permission_store_export
          ∷ permission_user_manage ∷ permission_audit_view ∷ [])
      else if text_eq role role_editor
      then role_editor ∷ permission_store_read ∷ permission_store_write ∷ []
      else role_viewer ∷ permission_store_read ∷ []

  role_cases :
      (value : Text)
      → ((normalize_role value ≡ role_admin)
          × (permissions value
              ≡ role_admin ∷ permission_store_read ∷ permission_store_write
                ∷ permission_store_export ∷ permission_user_manage ∷ permission_audit_view ∷ []))
        ⊎ (((normalize_role value ≡ role_editor)
              × (permissions value
                  ≡ role_editor ∷ permission_store_read ∷ permission_store_write ∷ []))
            ⊎ ((normalize_role value ≡ role_viewer)
                × (permissions value ≡ role_viewer ∷ permission_store_read ∷ [])))
  unfolding normalize_role permissions
  role_cases value = elim (Bool-cases (text_eq (to_lower table (trim_space value)) role_admin)) [
    | inl admin ↦ inl (rw admin, rw admin)
    | inr other ↦ elim (Bool-cases (text_eq (to_lower table (trim_space value)) role_editor)) [
      | inl editor ↦ inr (inl (rw (other, editor), rw (other, editor)))
      | inr viewer ↦ inr (inr (rw (other, viewer), rw (other, viewer)))
    ]
  ]

  -- Reading goes to every role, writing to administrators and editors, export, user management and
  -- the audit view to administrators, where the role is what the role text normalizes to.
  pub permissions-normalize_role :
      (value : Text)
      → (has_permission (permissions value) permission_store_read ≡ true)
        × (has_permission (permissions value) permission_store_write ≡ (
            text_eq (normalize_role value) role_admin
            || text_eq (normalize_role value) role_editor))
        × (has_permission (permissions value) permission_store_export
            ≡ text_eq (normalize_role value) role_admin)
        × (has_permission (permissions value) permission_user_manage
            ≡ text_eq (normalize_role value) role_admin)
        × (has_permission (permissions value) permission_audit_view
            ≡ text_eq (normalize_role value) role_admin)
  unfolding has_permission
  permissions-normalize_role value = elim (role_cases value) [
    | inl (n, p) ↦ rw (n, p) (refl, refl, refl, refl, refl)
    | inr (inl (n, p)) ↦ rw (n, p) (refl, refl, refl, refl, refl)
    | inr (inr (n, p)) ↦ rw (n, p) (refl, refl, refl, refl, refl)
  ]
