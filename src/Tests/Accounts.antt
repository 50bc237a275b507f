-- ===== src/Tests/Accounts.antt =====
-- Roles and users by hand. The case table leaves every letter beyond ASCII, and the hash is the text.
use erzhuang_project.Prelude.{
  ℕ, ◌≤◌, ◌<◌, ◌≡◌, ◌↔◌, refl, true, false, ◌&&◌, [], ◌∷◌, if◌then◌else◌, none, some, arith,
}
use erzhuang_project.Prelude.Int.{pos}
use erzhuang_project.Prelude.Text.{
  Text, text, CaseTable, text_eq, text_is_eq, join, sort_texts, trim_space, is_space, to_lower_rune,
}
use erzhuang_project.Prelude.Map.{lookup, insert}
use erzhuang_project.Prelude.Decimal.{format_nat}
use erzhuang_project.Access.Roles.{normalize_role, normalize_email, role_viewer}
use erzhuang_project.Access.Users.{
  Scope, User, UserMutation, Users, Result, ok, err, canonical_institution_id, active_candidate,
  find_by_id, update_auth_user, create_auth_user, attach_scopes, user_monitor_scope_revision,
  memory_scope_revision, monitor_scopes_for_ids, can_user_view_monitor_store,
}
use erzhuang_project.Access.Users.Institution.{canonical_institution_id_iff}
use erzhuang_project.Access.Users.Mutation.{IdsBounded, create_auth_user-fresh}
use erzhuang_project.Access.Users.ReadBack.{Changed, update_auth_user-get_auth_user_by_id}
use erzhuang_project.Access.Users.{get_auth_user_by_id}
use erzhuang_project.Prelude.{if◌then◌else◌, ◌==◌}
use erzhuang_project.Access.Users.View.{
  ScopesOk, names_id, update_auth_user-view, update_auth_user-view_other,
}

abbrev same_case : CaseTable
same_case = record { lower = λ c. c; upper = λ c. c }

abbrev same_text : Text → Text
same_text t = t

canonical_institution_id_iff_example :
    (canonical_institution_id (text "007") ≡ some 7)
    ↔ ((0 < 7) × (7 ≤ 9007199254740991) × (format_nat 7 ≡ text "007"))
canonical_institution_id_iff_example = canonical_institution_id_iff (text "007") 7

abbrev clinic : ℕ → Text → Scope
clinic id key = record {
  store_id = id;
  city = text "X";
  name = text "Y";
  external_org_id = key;
  unavailable = false;
}

abbrev ann : User
ann = record {
  id = 1;
  email = text "ann@x";
  username = text "ann";
  display_name = text "Ann";
  feishu_user_id = [];
  phone = [];
  role = text "viewer";
  enabled = true;
  last_login_at = none;
  scope_count = 0;
  scopes = [];
  scope_revision = [];
}

abbrev two_clinics : Users
two_clinics = record {
  auth_users = (text "ann@x", ann) ∷ [];
  scope_candidates = clinic 7 (text "7") ∷ clinic 8 (text "8") ∷ [];
  scopes_by_user = [];
}

abbrev ann_revision : Text
ann_revision = (attach_scopes same_case same_text two_clinics ann).scope_revision

abbrev grant : UserMutation
grant = record {
  email = text "ann@x";
  username = text "ann";
  display_name = text "Ann";
  role = text "viewer";
  enabled = true;
  institution_ids = some (pos 7 ∷ []);
  scope_revision = ann_revision;
}

abbrev granted : Users × Result User
granted = update_auth_user same_case same_text two_clinics 1 grant

update_auth_user-view_other_example :
    can_user_view_monitor_store same_case same_text granted.0 (record ann { id = 2 }) (text "7")
    ≡ can_user_view_monitor_store same_case same_text two_clinics (record ann { id = 2 }) (text "7")
update_auth_user-view_other_example =
    update_auth_user-view_other same_case same_text two_clinics 1 grant (record ann { id = 2 })
      (text "7") (ground arith)

abbrev ben : UserMutation
ben = record grant { email = text "Ben@X "; username = text "ben"; scope_revision = [] }

abbrev made : Users × Result User
made = create_auth_user same_case same_text two_clinics ben

abbrev or_ann : Result User → User
or_ann (ok u) = u
or_ann (err e) = ann

granted-ok : granted.1 ≡ ok (or_ann granted.1)
unfolding update_auth_user find_by_id text_eq user_monitor_scope_revision join sort_texts
    memory_scope_revision lookup normalize_role trim_space is_space to_lower_rune
    monitor_scopes_for_ids insert
granted-ok = refl

made-ok : made.1 ≡ ok (or_ann made.1)
unfolding create_auth_user normalize_email trim_space is_space lookup text_eq to_lower_rune
    monitor_scopes_for_ids insert
made-ok = refl

ann-found :
    get_auth_user_by_id same_case same_text two_clinics 1
    ≡ ok (attach_scopes same_case same_text two_clinics ann)
unfolding get_auth_user_by_id find_by_id
ann-found = refl

update_auth_user-get_auth_user_by_id_example :
    Changed same_case same_text
      (attach_scopes same_case same_text two_clinics ann)
      grant
      (or_ann granted.1)
    × (get_auth_user_by_id same_case same_text granted.0 1 ≡ (
        if 1 == 1
        then ok (or_ann granted.1)
        else get_auth_user_by_id same_case same_text two_clinics 1))
update_auth_user-get_auth_user_by_id_example =
    update_auth_user-get_auth_user_by_id same_case same_text two_clinics 1 grant
      (attach_scopes same_case same_text two_clinics ann) (or_ann granted.1) 1
      (unfold lookup in (refl, tt)) ann-found granted-ok

two_clinics-ScopesOk : ScopesOk two_clinics
unfolding format_nat
two_clinics-ScopesOk = record { candidates_ok = (refl, (refl, tt)); granted_ok = tt }

viewer-viewer : normalize_role same_case (text "viewer") ≡ role_viewer
unfolding normalize_role text_eq trim_space is_space to_lower_rune
viewer-viewer = refl

-- The viewer may watch institution 7 now, which was not granted before.
update_auth_user-view_example :
    can_user_view_monitor_store same_case same_text granted.0 (or_ann granted.1) (format_nat 7)
    ≡ (active_candidate 7 (format_nat 7) two_clinics.scope_candidates && names_id 7 (pos 7 ∷ []))
update_auth_user-view_example =
    update_auth_user-view same_case same_text two_clinics 1 grant (pos 7 ∷ []) (or_ann granted.1) 7
      two_clinics-ScopesOk refl viewer-viewer granted-ok (ground arith) (ground arith)

create_auth_user-fresh_example :
    let email = normalize_email same_case ben.email in
    IdsBounded same_case same_text made.0
    × (find_by_id (or_ann made.1).id two_clinics.auth_users ≡ none)
    × (lookup email two_clinics.auth_users ≡ none)
    × (lookup (text "ann@x") made.0.auth_users ≡ (
        if text_eq email (text "ann@x")
        then some (or_ann made.1)
        else lookup (text "ann@x") two_clinics.auth_users))
create_auth_user-fresh_example =
    create_auth_user-fresh same_case same_text two_clinics ben (or_ann made.1) (text "ann@x")
      (ground arith, tt) made-ok
