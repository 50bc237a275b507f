-- ===== src/NvrMonitor.antt =====
-- internal/nvrmonitor/service.go: the cameras of a store that may be watched, and sessions on them. The
-- repository and the authorization of streams are parameters. Ids are not negative.
pub mod Sessions
use erzhuang_project.Prelude.{
  ℕ, ◌+◌, ◌-◌, Bool, true, false, not, ◌&&◌, ◌||◌, List, [], ◌∷◌, ◌++◌, ◌==◌, if◌then◌else◌, ltb,
  leb, Option, none, some,
}
use erzhuang_project.Prelude.Int.{ℤ, pos, negsuc, pos_part}
use erzhuang_project.Prelude.Map.{Map, lookup, insert, nat_eq}
use erzhuang_project.Prelude.Text.{Text, text, text_eq, text_leb, trim_space, is_empty}
use erzhuang_project.Prelude.Decimal.{format_nat, parse_int}
use erzhuang_project.ResourceView.{
  BusinessDevice, BusinessSpace, Relation, category_camera, consulting_area_container_id, sort_by,
}
use erzhuang_project.ResourceView.Labels.{camera_thumbnail_kind}
use erzhuang_project.ResourceView.Index.{or_empty, append_at}

-- In seconds.
abbrev pub max_playback_window : ℕ
max_playback_window = 3600

-- Of the tenant, its id, name and the city's label are read.
pub record StoreRecords : Type 0 where
  pub tenant_id : ℕ
  pub tenant_name : Text
  pub city : Text
  pub devices : List BusinessDevice
  pub spaces : List BusinessSpace
  pub relations : List Relation

pub record MonitorCamera : Type 0 where
  pub id : ℕ
  pub name : Text
  pub space_type : Text
  pub space_name : Text
  pub thumbnail_kind : Text
  pub thumbnail_url : Text

pub data Mode : Type 0 where
  live playback : Mode
  other_mode : Text → Mode

pub record StreamRequest : Type 0 where
  pub mode : Mode
  pub start_time : ℤ
  pub end_time : ℤ

-- `repository_failed` and `stream_failed` stand for the errors of the two clients.
pub data NvrError : Type 0 where
  not_configured store_not_found camera_not_found invalid_stream_mode : NvrError
  invalid_playback_window authorization_failed repository_failed stream_failed : NvrError

pub data Fallible (A : Type 0) : Type 0 where
  done : A → Fallible A
  error : NvrError → Fallible A

pub record CameraList : Type 0 where
  pub external_org_id : Text
  pub tenant_id : ℕ
  pub store_name : Text
  pub city : Text
  pub cameras : List MonitorCamera

pub record AuditTarget : Type 0 where
  pub external_org_id : Text
  pub store_name : Text
  pub camera_id : ℕ
  pub camera_name : Text
  pub space_type : Text
  pub space_name : Text

pub record StreamSession : Type 0 where
  pub url : Text
  pub mode : Mode

unfoldable pub is_eligible : BusinessDevice → Bool
is_eligible d =
    text_eq d.category category_camera
    && text_eq d.provider (text "HikVisionNvrChannel")
    && d.status == 1
    && not d.is_deleted

-- The last space of an id.
index_spaces : Map ℕ BusinessSpace → List BusinessSpace → Map ℕ BusinessSpace
index_spaces m [] = m
index_spaces m (s ∷ ss) = index_spaces (insert s.id s m) ss

-- The spaces that a device's relations name, outside the container.
related_spaces :
    Map ℕ BusinessSpace → Map ℕ (List BusinessSpace) → List Relation → Map ℕ (List BusinessSpace)
unfolding append_at
related_spaces spaces found [] = found
related_spaces spaces found (r ∷ rs) = elim (lookup r.area_id spaces) [
  | none ↦ related_spaces spaces found rs
  | some s ↦
      related_spaces spaces
        (if s.parent_id == consulting_area_container_id
          then found
          else append_at r.device_id s found)
        rs
]

abbrev head_of : {A : Type 0} → List A → Option A
head_of [] = none
head_of (x ∷ xs) = some x

unfoldable pub preferred_space : List BusinessSpace → Option BusinessSpace
unfolding sort_by
preferred_space spaces = head_of (sort_by (λ a b. ltb a.id b.id) spaces)

unfoldable pub space_type : BusinessSpace → Map ℕ BusinessSpace → Text
space_type s spaces =
    if s.level == 3
    then text "治疗室"
    else elim (lookup s.parent_id spaces) [ none ↦ [] | some parent ↦ trim_space parent.name ]

unfoldable pub snapshot_url : ℕ → ℕ → Text
snapshot_url tenant camera =
    text "/api/h5/nvr-monitor/orgs/"
    ++ (format_nat tenant ++ (text "/cameras/" ++ (format_nat camera ++ text "/snapshot")))

-- One eligible device as a camera, with the spaces it is related to.
camera_from : Map ℕ BusinessSpace → ℕ → Bool → BusinessDevice → List BusinessSpace → MonitorCamera
unfolding preferred_space space_type snapshot_url camera_thumbnail_kind
camera_from spaces tenant snapshots_configured d found =
    let url = if snapshots_configured then snapshot_url tenant d.id else [] in
    elim (preferred_space found) [
      | none ↦ record {
        id = d.id;
        name = trim_space d.name;
        space_type = [];
        space_name = [];
        thumbnail_kind = text "unassigned";
        thumbnail_url = url;
      }
      | some s ↦ record {
        id = d.id;
        name = trim_space d.name;
        space_type = space_type s spaces;
        space_name = trim_space s.name;
        thumbnail_kind = camera_thumbnail_kind (space_type s spaces) (trim_space s.name) s.level;
        thumbnail_url = url;
      }
    ]

cameras_from :
    Map ℕ BusinessSpace
    → Map ℕ (List BusinessSpace)
    → ℕ
    → Bool
    → List BusinessDevice
    → List MonitorCamera
unfolding is_eligible camera_from
cameras_from spaces found tenant snapshots_configured [] = []
cameras_from spaces found tenant snapshots_configured (d ∷ ds) =
    let rest = cameras_from spaces found tenant snapshots_configured ds in
    if not (is_eligible d)
    then rest
    else camera_from spaces tenant snapshots_configured d (or_empty (lookup d.id found)) ∷ rest

unfoldable pub camera_before : MonitorCamera → MonitorCamera → Bool
camera_before a b =
    if not (text_eq a.space_type b.space_type)
    then not (text_leb b.space_type a.space_type)
    else if not (text_eq a.space_name b.space_name)
    then not (text_leb b.space_name a.space_name)
    else ltb a.id b.id

unfoldable pub cameras_from_records : StoreRecords → Bool → List MonitorCamera
unfolding index_spaces related_spaces cameras_from camera_before sort_by
cameras_from_records records snapshots_configured =
    let spaces = index_spaces [] records.spaces in
    sort_by camera_before (
      cameras_from spaces (related_spaces spaces [] records.relations) records.tenant_id
        snapshots_configured records.devices)

abbrev is_zero : ℤ → Bool
is_zero (pos n) = n == 0
is_zero (negsuc n) = false

-- Whether the request is refused, and how.
unfoldable pub validate_stream_request : StreamRequest → Option NvrError
validate_stream_request r = elim r.mode [
  | live ↦
      if not (is_zero r.start_time) || not (is_zero r.end_time)
      then some invalid_stream_mode
      else none
  | playback ↦
      if not (ltb 0 (pos_part r.start_time))
        || not (ltb (pos_part r.start_time) (pos_part r.end_time))
        || ltb max_playback_window (pos_part r.end_time - pos_part r.start_time)
      then some invalid_playback_window
      else none
  | other_mode m ↦ some invalid_stream_mode
]

unfoldable pub contains_camera : List MonitorCamera → ℕ → Bool
contains_camera [] id = false
contains_camera (c ∷ cs) id = c.id == id || contains_camera cs id

find_camera : ℕ → List MonitorCamera → Option MonitorCamera
find_camera id [] = none
find_camera id (c ∷ cs) = if c.id == id then some c else find_camera id cs

-- What the repository answers for a tenant: its records, none, or an error.
pub data Found : Type 0 where
  found_store : StoreRecords → Found
  no_such_store repository_error : Found

-- The repository, or nil; whether a snapshot store is there; and the client that opens streams, or nil,
-- which gives an address or fails.
module _ (repository : Option (ℕ → Found)) (snapshots_configured : Bool)
    (open_stream : Option (ℕ → StreamRequest → Option Text)) where
  -- `storeRecords`
  unfoldable pub store_records : Text → Fallible StoreRecords
  store_records external_org_id = elim repository [
    | none ↦ error not_configured
    | some repo ↦ elim (parse_int (trim_space external_org_id)) [
      | none ↦ error store_not_found
      | some n ↦
          if not (ltb 0 (pos_part n)) then error store_not_found else elim (repo (pos_part n)) [
            | found_store records ↦ done records
            | no_such_store ↦ error store_not_found
            | repository_error ↦ error repository_failed
          ]
    ]
  ]

  unfoldable pub get_cameras : Text → Fallible CameraList
  unfolding store_records cameras_from_records
  get_cameras external_org_id = elim (store_records external_org_id) [
    | error e ↦ error e
    | done records ↦ done (record {
      external_org_id = format_nat records.tenant_id;
      tenant_id = records.tenant_id;
      store_name = trim_space records.tenant_name;
      city = records.city;
      cameras = cameras_from_records records snapshots_configured;
    })
  ]

  -- From the camera on, for which the stream is opened.
  open_session : ℕ → StreamRequest → Fallible StreamSession
  open_session camera_id request = elim open_stream [
    | none ↦ error not_configured
    | some open_at ↦ elim (open_at camera_id request) [
      | none ↦ error stream_failed
      | some url ↦
          if is_empty (trim_space url)
          then error authorization_failed
          else done (record { url = url; mode = request.mode })
    ]
  ]

  abbrev target_of : CameraList → MonitorCamera → AuditTarget
  target_of list c = record {
    external_org_id = list.external_org_id;
    store_name = list.store_name;
    camera_id = c.id;
    camera_name = c.name;
    space_type = c.space_type;
    space_name = c.space_name;
  }

  -- The target is none for the zero value.
  unfoldable pub create_session_with_audit_target :
      Text → ℕ → StreamRequest → Fallible StreamSession × Option AuditTarget
  unfolding validate_stream_request get_cameras find_camera open_session
  create_session_with_audit_target external_org_id camera_id request =
      elim (validate_stream_request request) [
        | some e ↦ (error e, none)
        | none ↦ elim (get_cameras external_org_id) [
          | error e ↦ (error e, none)
          | done list ↦ elim (find_camera camera_id list.cameras) [
            | none ↦ (error camera_not_found, none)
            | some c ↦ (open_session camera_id request, some (target_of list c))
          ]
        ]
      ]
