-- ===== src/Tests/Views.antt =====
-- A camera in two rooms, and relations that point nowhere.
use erzhuang_project.Prelude.{ℕ, List, [], ◌∷◌, none}
use erzhuang_project.Prelude.Text.{text}
use erzhuang_project.ResourceView.{Space, Camera, Relation}
use erzhuang_project.ResourceView.Index.{build_valid_bindings}
use erzhuang_project.ResourceView.Bound.{
  Reflects, camera_ids, space_ids, build_valid_bindings-Reflects,
}

abbrev camera_of : ℕ → Camera
camera_of id = record {
  device = record {
    id = id;
    parent_id = 1;
    tenant_id = 1;
    name = text "C";
    hardware_id = text "NVRCHANNEL:1-2";
    sn = [];
    ip = [];
    category = text "camera";
    provider = text "HikVisionNvrChannel";
    status = 1;
    online_status = 1;
    ext_summary = [];
  };
  channel_no = none;
  nvr_id = 1;
  nvr_name = text "N";
  space_paths = [];
  thumbnail_kind = text "utility";
  thumbnail_url = [];
}

abbrev room : ℕ → Space
room id = record {
  id = id;
  tenant_id = 1;
  parent_id = 0;
  name = text "R";
  code = [];
  level = 2;
  status = 1;
  dict_id = 0;
  sort_order = 0;
  bound_camera_ids = [];
  bound_camera_count = 0;
}

abbrev relation_of : ℕ → ℕ → ℕ → Relation
relation_of id camera space = record {
  id = id;
  device_id = camera;
  area_id = space;
  function_type = text "camera";
}

abbrev rooms : List Space
rooms = room 10 ∷ room 20 ∷ []

abbrev cameras : List Camera
cameras = camera_of 5 ∷ camera_of 6 ∷ []

abbrev relations : List Relation
relations =
    relation_of 1 5 20
    ∷ relation_of 2 5 10
    ∷ relation_of 3 5 20
    ∷ relation_of 4 6 99
    ∷ relation_of 5 77 10
    ∷ []

build_valid_bindings-Reflects_example :
    Reflects
      (camera_ids cameras)
      (space_ids rooms)
      relations
      (build_valid_bindings rooms cameras relations)
build_valid_bindings-Reflects_example = build_valid_bindings-Reflects rooms cameras relations
