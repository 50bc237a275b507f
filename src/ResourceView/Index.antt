-- ===== src/ResourceView/Index.antt =====
-- Which cameras watch which spaces: `buildValidBindings` and `enrichSpaces` of internal/resourceview.
use erzhuang_project.Prelude.{
  ℕ, Bool, false, ◌&&◌, ◌||◌, List, [], ◌∷◌, ◌++◌, ◌==◌, if◌then◌else◌, length, ltb, Option, none,
  some,
}
use erzhuang_project.Prelude.Map.{Map, lookup, insert, nat_eq}
use erzhuang_project.ResourceView.{Space, Relation, Camera, sort_by, spaces_by_id, cameras_by_id}

-- `bindingIndex`; the set of bound cameras is a list.
pub record BindingIndex : Type 0 where
  pub cameras_by_space : Map ℕ (List Camera)
  pub camera_ids_by_space : Map ℕ (List ℕ)
  pub space_ids_by_camera : Map ℕ (List ℕ)
  pub bound_camera_ids : List ℕ

-- A missing key reads as the nil slice.
abbrev pub or_empty : {A : Type 0} → Option (List A) → List A
or_empty none = []
or_empty (some xs) = xs

-- `m[k] = append(m[k], x)`
unfoldable pub append_at : {A : Type 0} → ℕ → A → Map ℕ (List A) → Map ℕ (List A)
append_at k x m = insert k (or_empty (lookup k m) ++ x ∷ []) m

unfoldable pub has : ℕ → List ℕ → Bool
has n [] = false
has n (m ∷ ms) = m == n || has n ms

-- `set[n] = struct{}{}`
unfoldable pub add_id : ℕ → List ℕ → List ℕ
unfolding has
add_id n ms = if has n ms then ms else ms ++ n ∷ []

unfoldable pub seen_pair : ℕ → ℕ → List (ℕ × ℕ) → Bool
seen_pair c s [] = false
seen_pair c s ((c', s') ∷ ps) = (c' == c && s' == s) || seen_pair c s ps

unfoldable pub bind_camera : Camera → ℕ → BindingIndex → BindingIndex
unfolding append_at add_id
bind_camera camera space b = record {
  cameras_by_space = append_at space camera b.cameras_by_space;
  camera_ids_by_space = append_at space camera.device.id b.camera_ids_by_space;
  space_ids_by_camera = append_at camera.device.id space b.space_ids_by_camera;
  bound_camera_ids = add_id camera.device.id b.bound_camera_ids;
}

-- The loop over the relations.
unfoldable pub bind_relations :
    Map ℕ Camera → Map ℕ Space → List (ℕ × ℕ) → BindingIndex → List Relation → BindingIndex
unfolding bind_camera seen_pair
bind_relations cameras spaces seen b [] = b
bind_relations cameras spaces seen b (r ∷ rs) =
    let skipped = bind_relations cameras spaces seen b rs in
    elim (lookup r.device_id cameras) [
      | none ↦ skipped
      | some camera ↦ elim (lookup r.area_id spaces) [
        | none ↦ skipped
        | some space ↦
            let bound =
              bind_relations cameras spaces ((r.device_id, r.area_id) ∷ seen)
                (bind_camera camera r.area_id b) rs in
            if seen_pair r.device_id r.area_id seen then skipped else bound
      ]
    ]

unfoldable pub map_values : {A B : Type 0} → (A → B) → Map ℕ A → Map ℕ B
map_values f [] = []
map_values f ((k, v) ∷ m) = (k, f v) ∷ map_values f m

unfoldable pub sort_index : BindingIndex → BindingIndex
unfolding sort_by map_values
sort_index b = record b {
  cameras_by_space = map_values (sort_by (λ x y. ltb x.device.id y.device.id)) b.cameras_by_space;
  camera_ids_by_space = map_values (sort_by ltb) b.camera_ids_by_space;
  space_ids_by_camera = map_values (sort_by ltb) b.space_ids_by_camera;
}

abbrev pub empty_index : BindingIndex
empty_index = record {
  cameras_by_space = [];
  camera_ids_by_space = [];
  space_ids_by_camera = [];
  bound_camera_ids = [];
}

unfoldable pub build_valid_bindings : List Space → List Camera → List Relation → BindingIndex
unfolding bind_relations sort_index cameras_by_id spaces_by_id
build_valid_bindings spaces cameras relations =
    sort_index
      (bind_relations (cameras_by_id [] cameras) (spaces_by_id [] spaces) [] empty_index relations)

unfoldable pub enrich_spaces : List Space → BindingIndex → List Space
enrich_spaces [] b = []
enrich_spaces (s ∷ ss) b =
    let ids = or_empty (lookup s.id b.camera_ids_by_space) in
    record s { bound_camera_ids = ids; bound_camera_count = length ids } ∷ enrich_spaces ss b
