-- ===== src/StoreSpace/Areas.antt =====
-- The areas of a store: the helpers of internal/storespace/store.go on `store.Areas`. A pointer into
-- the slice that a helper returns is the area itself beside the changed list.
pub mod Unique
pub mod Writes
pub mod NextId
pub mod Found
pub mod Kept
use erzhuang_project.Prelude.{
  ℕ, ◌+◌, Bool, true, false, not, ◌&&◌, ◌||◌, List, [], ◌∷◌, ◌++◌, ◌==◌, if◌then◌else◌, ltb, Option,
  none, some,
}
use erzhuang_project.Prelude.Int.{ℤ, pos_part, int_eq}
use erzhuang_project.Prelude.Text.{Text, text}
use erzhuang_project.Prelude.Decimal.{format_int}
use erzhuang_project.StoreSpace.Model.{
  AreaType, no_type, treatment, vip_treatment, consultation, beauty, other_type, AreaSource,
  no_source, manual, design_plan, video_channel, multiple, confirmed, area_type_eq, area_source_eq,
  Area, Channel, Recorder,
}

unfoldable pub area_display_name : AreaType → ℤ → Text
area_display_name treatment number = text "治疗室 " ++ format_int number
area_display_name vip_treatment number =
    if ltb 0 (pos_part number) then text "VIP治疗室 " ++ format_int number else text "VIP治疗室"
area_display_name consultation number = text "面诊室 " ++ format_int number
area_display_name beauty number = text "生美 " ++ format_int number
area_display_name no_type number = text " " ++ format_int number
area_display_name (other_type t) number = t ++ (text " " ++ format_int number)

abbrev pub is_area : AreaType → ℤ → Area → Bool
is_area type number a = area_type_eq a.type type && int_eq a.number number

-- `findAreaByTypeNumber`
unfoldable pub find_area : AreaType → ℤ → List Area → Option Area
find_area type number [] = none
find_area type number (a ∷ areas) =
    if is_area type number a then some a else find_area type number areas

abbrev pub is_video : AreaSource → Bool
is_video video_channel = true
is_video multiple = true
is_video _ = false

-- `area.ID == currentAreaID` and from a camera, the first such.
unfoldable pub find_video_area : ℕ → List Area → Option Area
find_video_area id [] = none
find_video_area id (a ∷ areas) =
    if a.id == id && is_video a.source then some a else find_video_area id areas

-- Writes through a pointer to the first area of that type and number.
unfoldable pub set_area : AreaType → ℤ → Area → List Area → List Area
set_area type number new [] = []
set_area type number new (a ∷ areas) =
    if is_area type number a then new ∷ areas else a ∷ set_area type number new areas

-- Writes through a pointer to the first camera area with that id.
unfoldable pub set_video_area : ℕ → Area → List Area → List Area
set_video_area id new [] = []
set_video_area id new (a ∷ areas) =
    if a.id == id && is_video a.source then new ∷ areas else a ∷ set_video_area id new areas

-- `s.nextAreaID` and `store.Areas`.
pub record AreaState : Type 0 where
  pub next_area_id : ℕ
  pub areas : List Area

abbrev pub new_area : ℕ → ℕ → AreaType → ℤ → AreaSource → ℕ → Area
new_area id store_id type number source now = record {
  id = id;
  store_id = store_id;
  type = type;
  number = number;
  display_name = area_display_name type number;
  source = source;
  status = confirmed;
  box = none;
  created_at = now;
  updated_at = now;
}

abbrev pub is_no_source : AreaSource → Bool
is_no_source no_source = true
is_no_source _ = false

-- `findOrCreateAreaLocked`
unfoldable pub find_or_create_area :
    AreaState → ℕ → AreaType → ℤ → AreaSource → ℕ → AreaState × Area
unfolding set_area
find_or_create_area s store_id type number source now = elim (find_area type number s.areas) [
  | some a ↦
      let merged = record a { source = multiple; updated_at = now } in
      if not (area_source_eq a.source source) && not (is_no_source source)
      then (record s { areas = set_area type number merged s.areas }, merged)
      else (s, a)
  | none ↦
      let made = new_area s.next_area_id store_id type number source now in
      (record { next_area_id = s.next_area_id + 1; areas = s.areas ++ made ∷ [] }, made)
]

-- The branch of `updateOrFindVideoAreaLocked` on the camera area that the channel has.
move_video_area : AreaState → ℕ → AreaType → ℤ → ℕ → Area → AreaState × Area
unfolding set_area set_video_area
move_video_area s current type number now a =
    let moved = record a {
      type = type;
      number = number;
      display_name = area_display_name type number;
      updated_at = now;
    } in
    let renamed : AreaState × Area =
      (record s { areas = set_video_area current moved s.areas }, moved) in
    elim (find_area type number s.areas) [
      | none ↦ renamed
      | some existing ↦
          let joined = record existing {
            source = if is_video existing.source then existing.source else multiple;
            updated_at = now;
          } in
          if not (existing.id == current)
          then (record s { areas = set_area type number joined s.areas }, joined)
          else renamed
    ]

unfoldable pub update_or_find_video_area : AreaState → ℕ → ℕ → AreaType → ℤ → ℕ → AreaState × Area
unfolding move_video_area
update_or_find_video_area s store_id current type number now =
    if current == 0
    then find_or_create_area s store_id type number video_channel now
    else elim (find_video_area current s.areas) [
      | none ↦ find_or_create_area s store_id type number video_channel now
      | some a ↦ move_video_area s current type number now a
    ]

unfoldable pub channel_references : ℕ → List Channel → Bool
channel_references id [] = false
channel_references id (c ∷ cs) =
    (not (c.area_id == 0) && c.area_id == id) || channel_references id cs

unfoldable pub is_referenced : ℕ → List Recorder → Bool
unfolding channel_references
is_referenced id [] = false
is_referenced id (r ∷ rs) = channel_references id r.channels || is_referenced id rs

abbrev pub is_only_video : AreaSource → Bool
is_only_video video_channel = true
is_only_video _ = false

abbrev pub has_no_box : Area → Bool
has_no_box a = elim a.box [ none ↦ true | some b ↦ false ]

-- `deleteUnusedVideoAreasLocked`
unfoldable pub delete_unused_video_areas : List Recorder → List Area → List Area
delete_unused_video_areas recorders [] = []
delete_unused_video_areas recorders (a ∷ areas) =
    let rest = delete_unused_video_areas recorders areas in
    if is_only_video a.source && has_no_box a && not (is_referenced a.id recorders)
    then rest
    else a ∷ rest
