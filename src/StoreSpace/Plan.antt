-- ===== src/StoreSpace/Plan.antt =====
-- SaveDesignPlan of internal/storespace/store.go on the store it found. `now` is the clock.
pub mod Planned
use erzhuang_project.Prelude.{
  ℕ, ◌+◌, Bool, true, false, not, List, [], ◌∷◌, ◌++◌, ◌==◌, if◌then◌else◌, Option, none, some,
}
use erzhuang_project.Prelude.Int.{ℤ, pos, negsuc}
use erzhuang_project.Prelude.Decimal.{atoi}
use erzhuang_project.Prelude.Text.{Text, text, trim_space, is_empty}
use erzhuang_project.Prelude.Int.{ℤ, int_eq_iff}
use erzhuang_project.StoreSpace.Model.{
  AreaType, AreaSource, design_plan, multiple, confirmed, area_source_eq, AreaBox, Area,
}
use erzhuang_project.StoreSpace.Areas.{
  area_display_name, find_area, set_area, is_video, is_no_source, AreaState,
}

pub record PlanArea : Type 0 where
  pub id : ℤ
  pub display_name : Text
  pub type : AreaType
  pub number_text : Text
  pub box : Option AreaBox

-- `number, _ := strconv.Atoi(strings.TrimSpace(areaInput.NumberText))`: the error is dropped.
unfoldable pub plan_number : PlanArea → ℤ
unfolding atoi
plan_number input = atoi (trim_space input.number_text)

-- What SaveDesignPlan reads of its input.
pub record PlanInput : Type 0 where
  pub upload_id : Text
  pub pdf_file_name : Text
  pub original_pdf_path : Text
  pub preview_image_path : Text
  pub thumbnail_path : Text
  pub page_count : ℕ
  pub areas : List PlanArea

pub record DesignPlan : Type 0 where
  pub id : ℕ
  pub store_id : ℕ
  pub upload_id : Text
  pub pdf_file_name : Text
  pub original_pdf_path : Text
  pub preview_image_path : Text
  pub thumbnail_path : Text
  pub page_count : ℕ
  pub recognition_status : Text
  pub created_at : ℕ
  pub updated_at : ℕ

-- What SaveDesignPlan uses of a `Store`, beside its areas and `s.nextAreaID`, and `s.nextPlanID`.
pub record PlanStore : Type 0 where
  pub id : ℕ
  pub next_plan_id : ℕ
  pub design_plans : List DesignPlan
  pub design_plan_status : Text
  pub areas : AreaState
  pub updated_at : ℕ

unfoldable pub first_with_id : ℕ → List Area → Option Area
first_with_id id [] = none
first_with_id id (a ∷ areas) = if a.id == id then some a else first_with_id id areas

-- `findAreaByID`: an id of 0 is none, and no area has a negative one.
unfoldable pub find_area_by_id : ℤ → List Area → Option Area
unfolding first_with_id
find_area_by_id (pos id) areas = if id == 0 then none else first_with_id id areas
find_area_by_id (negsuc id) areas = none

-- Writes through a pointer to the first area with that id.
unfoldable pub set_area_by_id : ℕ → Area → List Area → List Area
set_area_by_id id new [] = []
set_area_by_id id new (a ∷ areas) =
    if a.id == id then new ∷ areas else a ∷ set_area_by_id id new areas

unfoldable pub merge_area_source : AreaSource → AreaSource → AreaSource
merge_area_source existing incoming =
    if is_no_source existing
    then incoming
    else if is_no_source incoming
    then existing
    else if area_source_eq existing incoming
    then existing
    else multiple

abbrev pub display_name_or_default : Text → AreaType → ℤ → Text
display_name_or_default name type number =
    if not (is_empty (trim_space name)) then trim_space name else area_display_name type number

-- The area that is there, after the input.
unfoldable pub planned_area : ℕ → PlanArea → Area → Area
unfolding merge_area_source
planned_area now input a = record a {
  type = if is_video a.source then a.type else input.type;
  number = if is_video a.source then a.number else plan_number input;
  display_name =
      if is_video a.source
      then a.display_name
      else display_name_or_default input.display_name input.type (plan_number input);
  source = merge_area_source a.source design_plan;
  status = confirmed;
  box = input.box;
  updated_at = now;
}

unfoldable pub added_area : ℕ → ℕ → ℕ → PlanArea → Area
added_area id store_id now input = record {
  id = id;
  store_id = store_id;
  type = input.type;
  number = plan_number input;
  display_name = display_name_or_default input.display_name input.type (plan_number input);
  source = design_plan;
  status = confirmed;
  box = input.box;
  created_at = now;
  updated_at = now;
}

-- One turn of the loop over the areas of the input.
unfoldable pub save_plan_area : ℕ → ℕ → AreaState → PlanArea → AreaState
unfolding find_area_by_id set_area_by_id find_area set_area planned_area added_area
save_plan_area store_id now s input = elim (find_area_by_id input.id s.areas) [
  | some a ↦ record s { areas = set_area_by_id a.id (planned_area now input a) s.areas }
  | none ↦ elim (find_area input.type (plan_number input) s.areas) [
    | some a ↦ record s {
      areas = set_area input.type (plan_number input) (planned_area now input a) s.areas;
    }
    | none ↦ record {
      next_area_id = s.next_area_id + 1;
      areas = s.areas ++ added_area s.next_area_id store_id now input ∷ [];
    }
  ]
]

unfoldable pub save_plan_areas : ℕ → ℕ → AreaState → List PlanArea → AreaState
unfolding save_plan_area
save_plan_areas store_id now s [] = s
save_plan_areas store_id now s (input ∷ inputs) =
    save_plan_areas store_id now (save_plan_area store_id now s input) inputs

abbrev pub made_plan : ℕ → ℕ → ℕ → ℕ → PlanInput → DesignPlan
made_plan id created_at store_id now input = record {
  id = id;
  store_id = store_id;
  upload_id = trim_space input.upload_id;
  pdf_file_name = trim_space input.pdf_file_name;
  original_pdf_path = trim_space input.original_pdf_path;
  preview_image_path = trim_space input.preview_image_path;
  thumbnail_path = trim_space input.thumbnail_path;
  page_count = input.page_count;
  recognition_status = text "completed";
  created_at = created_at;
  updated_at = now;
}

-- The plan saved, which takes the place of one that is there, and the next plan id.
unfoldable pub saved_plan : PlanStore → ℕ → PlanInput → DesignPlan × ℕ
saved_plan s now input = elim s.design_plans [
  | [] ↦ (made_plan s.next_plan_id now s.id now input, s.next_plan_id + 1)
  | plan ∷ _ ↦ (made_plan plan.id plan.created_at s.id now input, s.next_plan_id)
]

-- `SaveDesignPlan`
unfoldable pub save_design_plan : PlanStore → ℕ → PlanInput → PlanStore
unfolding saved_plan save_plan_areas
save_design_plan s now input =
    let (plan, next_plan_id) = saved_plan s now input in
    record {
      id = s.id;
      next_plan_id = next_plan_id;
      design_plans = plan ∷ [];
      design_plan_status = text "completed";
      areas = save_plan_areas s.id now s.areas input.areas;
      updated_at = now;
    }
