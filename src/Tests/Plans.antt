-- ===== src/Tests/Plans.antt =====
-- Design plans and store names by hand.
use erzhuang_project.Prelude.Int.{ℤ, pos, negsuc, int_eq}
use erzhuang_project.Prelude.Decimal.{atoi, scan_uint}
use erzhuang_project.StoreSpace.Names.{matches_store_search}
use erzhuang_project.StoreSpace.Names.Search.{matches_store_search-part}
use erzhuang_project.Prelude.Text.{Text, trim_space, is_space, CaseTable}
use erzhuang_project.Prelude.{◌≡◌, refl, true, List, [], ◌∷◌, some, All, arith}
use erzhuang_project.Prelude.Text.{text}
use erzhuang_project.StoreSpace.Model.{
  AreaType, treatment, beauty, manual, video_channel, AreaBox, Area, area_type_eq,
}
use erzhuang_project.StoreSpace.Areas.{find_area, new_area, AreaState}
use erzhuang_project.StoreSpace.Areas.Unique.{AreasOk}
use erzhuang_project.StoreSpace.Plan.{
  PlanArea, plan_number, PlanInput, PlanStore, find_area_by_id, first_with_id, set_area_by_id,
  planned_area, save_plan_area, save_design_plan,
}
use erzhuang_project.StoreSpace.Plan.Planned.{Shown, DistinctRooms, save_design_plan-Shown}

abbrev box : AreaBox
box = record { x = text "1"; y = text "2"; width = text "3"; height = text "4" }

abbrev planned : ℤ → AreaType → Text → PlanArea
planned id type number_text = record {
  id = id;
  display_name = [];
  type = type;
  number_text = number_text;
  box = some box;
}

-- A camera's treatment room 2, and a treatment room 1 entered by hand.
abbrev rooms : AreaState
rooms = record {
  next_area_id = 5;
  areas =
      new_area 3 1 treatment (pos 2) video_channel 100
      ∷ new_area 4 1 treatment (pos 1) manual 100
      ∷ [];
}

abbrev plan_store : PlanStore
plan_store = record {
  id = 1;
  next_plan_id = 7;
  design_plans = [];
  design_plan_status = text "missing";
  areas = rooms;
  updated_at = 100;
}

abbrev plan_input : PlanInput
plan_input = record {
  upload_id = text "u1";
  pdf_file_name = text "plan.pdf";
  original_pdf_path = text "a";
  preview_image_path = text "b";
  thumbnail_path = text "c";
  page_count = 1;
  areas = planned (pos 0) treatment (text " 2") ∷ planned (pos 0) beauty (text "1") ∷ [];
}

rooms-AreasOk : AreasOk rooms
unfolding find_area area_type_eq int_eq
rooms-AreasOk = record {
  unique = (refl, ((λ q. absurd (ground arith)), tt), (refl, tt, tt));
  below = (ground arith, ground arith, (ground arith, ground arith, tt));
  positive = ground arith;
}

plan_input-DistinctRooms : DistinctRooms plan_input.areas
plan_input-DistinctRooms = ((λ same. absurd (cc same.0), tt), (tt, tt))

save_design_plan-Shown_example :
    AreasOk (save_design_plan plan_store 200 plan_input).areas
    × All (Shown (save_design_plan plan_store 200 plan_input).areas.areas) plan_input.areas
save_design_plan-Shown_example =
    save_design_plan-Shown plan_store 200 plan_input (refl, (refl, tt)) plan_input-DistinctRooms
      rooms-AreasOk

abbrev numbers : List Area → List ℤ
numbers [] = []
numbers (a ∷ areas) = a.number ∷ numbers areas

-- An area found by its id takes the number of another one.
renumbered_area :
    numbers (save_plan_area 1 200 rooms (planned (pos 4) treatment (text "2"))).areas
    ≡ pos 2 ∷ pos 2 ∷ []
unfolding save_plan_area find_area_by_id first_with_id set_area_by_id planned_area plan_number atoi
    trim_space is_space
renumbered_area = refl

abbrev ascii_case : CaseTable
ascii_case = record { lower = λ c. c; upper = λ c. c }

matches_store_search-part_example :
    matches_store_search ascii_case (text "Shop North 2") (text "shopnorth2") (text " North") ≡ true
matches_store_search-part_example =
    matches_store_search-part ascii_case (text "Shop") (text " North") (text " 2")
      (text "shopnorth2")

-- No number, a signed one, and one out of range.
atoi_tests :
    (atoi (text "2x") ≡ pos 0)
    × (atoi (text "-12") ≡ negsuc 11)
    × (atoi (text "-9223372036854775809") ≡ negsuc 9223372036854775807)
    × (atoi (text "99999999999999999999x") ≡ pos 9223372036854775807)
unfolding atoi scan_uint
atoi_tests = (refl, refl, refl, refl)
