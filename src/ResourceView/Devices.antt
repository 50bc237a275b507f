-- ===== src/ResourceView/Devices.antt =====
-- The devices and spaces of a store, trimmed and in order: service.go of internal/resourceview.
use erzhuang_project.Prelude.{
  ℕ, Bool, not, ◌&&◌, ◌||◌, List, [], ◌∷◌, ◌==◌, if◌then◌else◌, ltb, map,
}
use erzhuang_project.Prelude.Map.{nat_eq}
use erzhuang_project.Prelude.Text.{Text, text, text_eq, trim_space}
use erzhuang_project.ResourceView.{
  BusinessDevice, Device, BusinessSpace, Space, category_camera, sort_by,
}

unfoldable pub category_rank : Text → ℕ
category_rank category =
    if text_eq category (text "edge")
    then 1
    else if text_eq category (text "nvr")
    then 2
    else if text_eq category category_camera
    then 3
    else 9

unfoldable pub device_before : Device → Device → Bool
unfolding category_rank
device_before a b =
    if category_rank a.category == category_rank b.category
    then ltb a.id b.id
    else ltb (category_rank a.category) (category_rank b.category)

unfoldable pub space_before : Space → Space → Bool
space_before a b =
    if a.level == b.level
    then if a.sort_order == b.sort_order then ltb a.id b.id else ltb a.sort_order b.sort_order
    else ltb a.level b.level

abbrev device_of : BusinessDevice → Device
device_of d = record {
  id = d.id;
  parent_id = d.parent_id;
  tenant_id = d.tenant_id;
  name = trim_space d.name;
  hardware_id = trim_space d.hardware_id;
  sn = trim_space d.sn;
  ip = trim_space d.ip;
  category = trim_space d.category;
  provider = trim_space d.provider;
  status = d.status;
  online_status = d.online_status;
  ext_summary = trim_space d.ext_params;
}

live_devices : List BusinessDevice → List Device
live_devices [] = []
live_devices (d ∷ ds) =
    let rest = live_devices ds in if d.is_deleted then rest else device_of d ∷ rest

unfoldable pub normalized_devices : List BusinessDevice → List Device
unfolding live_devices sort_by device_before
normalized_devices input = sort_by device_before (live_devices input)

abbrev space_of : BusinessSpace → Space
space_of s = record {
  id = s.id;
  tenant_id = s.tenant_id;
  parent_id = s.parent_id;
  name = trim_space s.name;
  code = trim_space s.code;
  level = s.level;
  status = s.status;
  dict_id = s.dict_id;
  sort_order = s.sort_order;
  bound_camera_ids = [];
  bound_camera_count = 0;
}

unfoldable pub normalized_spaces : List BusinessSpace → List Space
unfolding sort_by space_before
normalized_spaces input = sort_by space_before (map space_of input)

unfoldable pub is_eligible_camera : Device → Bool
unfolding text_eq
is_eligible_camera d =
    text_eq d.category category_camera
    && text_eq d.provider (text "HikVisionNvrChannel")
    && d.status == 1

unfoldable pub resource_view_devices : List Device → List Device
unfolding is_eligible_camera
resource_view_devices [] = []
resource_view_devices (d ∷ ds) =
    let rest = resource_view_devices ds in
    if not (text_eq d.category category_camera) || is_eligible_camera d then d ∷ rest else rest

unfoldable pub devices_by_category : List Device → Text → List Device
devices_by_category [] category = []
devices_by_category (d ∷ ds) category =
    let rest = devices_by_category ds category in
    if text_eq d.category category then d ∷ rest else rest
