-- ===== src/Tests/Inputs.antt =====
-- Inputs of the store space by hand. No rune beyond ASCII is a digit.
use erzhuang_project.Prelude.{
  ℕ, ◌≡◌, ◌<◌, refl, Bool, false, true, [], ◌∷◌, All, length, none, some,
}
use erzhuang_project.Prelude.Int.{pos}
use erzhuang_project.Prelude.Map.{lookup, insert}
use erzhuang_project.Prelude.Text.{text, text_eq, text_is_eq, trim_space, is_space}
use erzhuang_project.Prelude.Decimal.{parse_int}
use erzhuang_project.StoreSpace.Model.{
  AreaBox, treatment, vip_treatment, pending_confirmation, Channel, ConfirmationInput,
}
use erzhuang_project.StoreSpace.Channels.{
  Work, confirm_in_store, confirmed_number, must_positive_int,
}
use erzhuang_project.StoreSpace.Validation.{
  SaveDesignPlanInput, number, validate_save_design_plan, validate_channel_confirmation,
}
use erzhuang_project.StoreSpace.Validation.PlanAreas.{
  AreaInputOk, DistinctAreas, validated_plan-DistinctAreas,
}
use erzhuang_project.StoreSpace.Validation.Confirmed.{validated-confirm_in_store}

abbrev no_wide : ℕ → Bool
no_wide c = false

abbrev box : AreaBox
box = record { x = []; y = []; width = []; height = [] }

abbrev plan : SaveDesignPlanInput
plan = record {
  upload_id = text "u1";
  preview_image_path = [];
  areas =
      record { id = pos 0; type = treatment; number_text = text "12"; box = some box }
      ∷ record { id = pos 0; type = vip_treatment; number_text = text " "; box = some box }
      ∷ [];
}

plan-valid : validate_save_design_plan no_wide plan ≡ none
unfolding validate_save_design_plan must_positive_int parse_int trim_space is_space lookup insert
    text_eq
plan-valid = refl

validated_plan-DistinctAreas_example :
    (0 < length plan.areas) × All (AreaInputOk no_wide) plan.areas × DistinctAreas plan.areas
validated_plan-DistinctAreas_example = validated_plan-DistinctAreas no_wide plan plan-valid

abbrev camera : Channel
camera = record {
  id = 9;
  recorder_id = 4;
  channel_no = 1;
  channel_name = text "C1";
  status = pending_confirmation;
  is_active = true;
  scene_type = text "unknown";
  area_type = treatment;
  area_number = pos 2;
  bed_label = [];
  area_note = [];
  area_id = 3;
  recognition_attempts = 1;
  recognition_result = [];
  thumbnail_url = [];
  full_image_url = [];
  full_image_expires_at = none;
  confirmed_at = none;
  created_at = 100;
  updated_at = 100;
}

abbrev empty_work : Work
empty_work = record {
  next_area_id = 1;
  store = record { id = 1; areas = []; recorders = []; updated_at = 100 };
}

abbrev room_two : ConfirmationInput
room_two = record {
  kind = text "business";
  area_type = treatment;
  area_number = text " 2 ";
  bed_label = [];
  area_note = [];
  scene_type = [];
}

room_two-valid : validate_channel_confirmation no_wide room_two ≡ number 2
unfolding validate_channel_confirmation trim_space is_space text_eq parse_int
room_two-valid = refl

validated-confirm_in_store_example :
    ((confirm_in_store empty_work 9 room_two 200 camera).1 ≡ none)
    × (confirmed_number treatment (text " 2 ") ≡ some 2)
validated-confirm_in_store_example =
    validated-confirm_in_store no_wide empty_work 9 room_two 200 camera 2 room_two-valid
