-- ===== src/ResourceView/Relations.antt =====
-- The relations between areas and cameras that count: service.go of internal/resourceview.
use erzhuang_project.Prelude.{
  ℕ, ◌-◌, Bool, false, ◌&&◌, List, [], ◌∷◌, ◌==◌, if◌then◌else◌, length, drop, ltb, leb, none, some,
}
use erzhuang_project.Prelude.Map.{Map, lookup, nat_eq}
use erzhuang_project.Prelude.Text.{Text, text, text_eq, trim_space, to_lower, CaseTable}
use erzhuang_project.ResourceView.{
  Device, Space, Relation, consulting_area_container_id, sort_by, devices_by_id, spaces_by_id,
}
use erzhuang_project.ResourceView.Devices.{is_eligible_camera}

-- `byKey[key] = normalized` where the key is new or the id is smaller.
keep_relation : Relation → List Relation → List Relation
keep_relation r [] = r ∷ []
keep_relation r (x ∷ xs) =
    let rest = keep_relation r xs in
    if r.device_id == x.device_id
      && r.area_id == x.area_id
      && text_eq r.function_type x.function_type
    then if ltb r.id x.id then r ∷ xs else x ∷ xs
    else x ∷ rest

keep_relations : List Relation → List Relation → List Relation
unfolding keep_relation
keep_relations kept [] = kept
keep_relations kept (r ∷ rs) =
    keep_relations (keep_relation (record r { function_type = trim_space r.function_type }) kept) rs

unfoldable pub relation_before : Relation → Relation → Bool
relation_before a b = ltb a.id b.id

unfoldable pub normalized_relations : List Relation → List Relation
unfolding keep_relations sort_by relation_before
normalized_relations input = sort_by relation_before (keep_relations [] input)

-- `strings.HasSuffix`
unfoldable pub has_suffix : Text → Text → Bool
unfolding text_eq
has_suffix s p = leb (length p) (length s) && text_eq (drop (length s - length p) s) p

abbrev is_relevant : CaseTable → Map ℕ Device → Relation → Bool
is_relevant table devices r = elim (lookup r.device_id devices) [
  | some d ↦ is_eligible_camera d
  | none ↦ has_suffix (to_lower table (trim_space r.function_type)) (text "camera")
]

relevant_relations : CaseTable → Map ℕ Device → List Relation → List Relation
unfolding has_suffix
relevant_relations table devices [] = []
relevant_relations table devices (r ∷ rs) =
    let rest = relevant_relations table devices rs in
    if is_relevant table devices r then r ∷ rest else rest

unfoldable pub camera_relevant_relations : CaseTable → List Relation → List Device → List Relation
unfolding relevant_relations devices_by_id
camera_relevant_relations table relations devices =
    relevant_relations table (devices_by_id [] devices) relations

abbrev in_container : Map ℕ Space → Relation → Bool
in_container spaces r = elim (lookup r.area_id spaces) [
  | some s ↦ s.parent_id == consulting_area_container_id
  | none ↦ false
]

outside_container : Map ℕ Space → List Relation → List Relation
outside_container spaces [] = []
outside_container spaces (r ∷ rs) =
    let rest = outside_container spaces rs in if in_container spaces r then rest else r ∷ rest

unfoldable pub applicable_camera_relations : List Relation → List Space → List Relation
unfolding outside_container spaces_by_id
applicable_camera_relations relations spaces = outside_container (spaces_by_id [] spaces) relations
