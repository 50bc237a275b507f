-- ===== src/ResourceView.antt =====
-- internal/resourceview: the devices, spaces and camera relations of a store, as service.go prepares
-- them. Ids, levels, statuses and sort orders are not negative. `sort.Slice` is a stable sort here; the
-- orders decide between all entries with distinct ids.
pub mod Devices
pub mod Relations
pub mod Labels
pub mod Index
pub mod Bound
use erzhuang_project.Prelude.{ℕ, Bool, List, [], ◌∷◌, if◌then◌else◌, Option}
use erzhuang_project.Prelude.Map.{Map, insert, nat_eq}
use erzhuang_project.Prelude.Text.{Text, text}

abbrev pub consulting_area_container_id : ℕ
consulting_area_container_id = 2387

pub record BusinessDevice : Type 0 where
  pub id : ℕ
  pub tenant_id : ℕ
  pub parent_id : ℕ
  pub name : Text
  pub hardware_id : Text
  pub sn : Text
  pub ip : Text
  pub category : Text
  pub provider : Text
  pub status : ℕ
  pub online_status : ℕ
  pub ext_params : Text
  pub is_deleted : Bool

-- Without the two texts that `status` and `online_status` give, and the heartbeat.
pub record Device : Type 0 where
  pub id : ℕ
  pub parent_id : ℕ
  pub tenant_id : ℕ
  pub name : Text
  pub hardware_id : Text
  pub sn : Text
  pub ip : Text
  pub category : Text
  pub provider : Text
  pub status : ℕ
  pub online_status : ℕ
  pub ext_summary : Text

pub record BusinessSpace : Type 0 where
  pub id : ℕ
  pub tenant_id : ℕ
  pub parent_id : ℕ
  pub name : Text
  pub code : Text
  pub level : ℕ
  pub status : ℕ
  pub dict_id : ℕ
  pub sort_order : ℕ

-- Without the text that `status` gives. The bound cameras are filled in at the end.
pub record Space : Type 0 where
  pub id : ℕ
  pub tenant_id : ℕ
  pub parent_id : ℕ
  pub name : Text
  pub code : Text
  pub level : ℕ
  pub status : ℕ
  pub dict_id : ℕ
  pub sort_order : ℕ
  pub bound_camera_ids : List ℕ
  pub bound_camera_count : ℕ

-- The instant of creation, which only the list of stores reads, is left out.
pub record Relation : Type 0 where
  pub id : ℕ
  pub device_id : ℕ
  pub area_id : ℕ
  pub function_type : Text

pub record Camera : Type 0 where
  pub device : Device
  pub channel_no : Option ℕ
  pub nvr_id : ℕ
  pub nvr_name : Text
  pub space_paths : List Text
  pub thumbnail_kind : Text
  pub thumbnail_url : Text

abbrev pub category_camera : Text
category_camera = text "camera"

module _ {A : Type 0} (less : A → A → Bool) where
  -- Behind the entries that it is not less than.
  unfoldable pub insert_sorted : A → List A → List A
  insert_sorted x [] = x ∷ []
  insert_sorted x (y ∷ ys) =
      let rest = insert_sorted x ys in if less y x then y ∷ rest else x ∷ y ∷ ys

  unfoldable pub sort_by : List A → List A
  unfolding insert_sorted
  sort_by [] = []
  sort_by (x ∷ xs) = insert_sorted x (sort_by xs)

-- The last device of an id.
unfoldable pub devices_by_id : Map ℕ Device → List Device → Map ℕ Device
devices_by_id m [] = m
devices_by_id m (d ∷ ds) = devices_by_id (insert d.id d m) ds

unfoldable pub spaces_by_id : Map ℕ Space → List Space → Map ℕ Space
spaces_by_id m [] = m
spaces_by_id m (s ∷ ss) = spaces_by_id (insert s.id s m) ss

unfoldable pub cameras_by_id : Map ℕ Camera → List Camera → Map ℕ Camera
cameras_by_id m [] = m
cameras_by_id m (c ∷ cs) = cameras_by_id (insert c.device.id c m) cs
