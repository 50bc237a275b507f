-- ===== src/StoreSpace/Model.antt =====
-- The data of internal/storespace/models.go. A string type with named values is a data type with one
-- constructor for each, one for the empty string and one for any other text. Ids, counts and
-- instants are not negative.
use erzhuang_project.Prelude.{ℕ, ◌≡◌, ◌↔◌, Bool, true, false, List, Option, arith}
use erzhuang_project.Prelude.Int.{ℤ}
use erzhuang_project.Prelude.Text.{Text, text, text_eq, text_eq_iff}

pub data AreaType : Type 0 where
  no_type treatment vip_treatment consultation beauty : AreaType
  other_type : Text → AreaType

pub data AreaSource : Type 0 where
  no_source manual design_plan video_channel multiple : AreaSource
  other_source : Text → AreaSource

pub data AreaStatus : Type 0 where
  candidate confirmed : AreaStatus

pub data ChannelStatus : Type 0 where
  no_status pending_recognition pending_confirmation confirmed_business : ChannelStatus
  confirmed_non_business recognition_failed inactive : ChannelStatus
  other_status : Text → ChannelStatus

pub data RecorderStatus : Type 0 where
  online offline : RecorderStatus

-- `SceneType` is kept as its text.
abbrev pub scene_unknown : Text
scene_unknown = text "unknown"

abbrev pub area_type_text : AreaType → Text
area_type_text no_type = text ""
area_type_text treatment = text "treatment"
area_type_text vip_treatment = text "vip_treatment"
area_type_text consultation = text "consultation"
area_type_text beauty = text "beauty"
area_type_text (other_type t) = t

unfoldable pub area_type_eq : AreaType → AreaType → Bool
unfolding text_eq
area_type_eq no_type no_type = true
area_type_eq treatment treatment = true
area_type_eq vip_treatment vip_treatment = true
area_type_eq consultation consultation = true
area_type_eq beauty beauty = true
area_type_eq (other_type s) (other_type t) = text_eq s t
area_type_eq _ _ = false

pub area_type_eq_iff : (a b : AreaType) → (area_type_eq a b ≡ true) ↔ (a ≡ b)
unfolding area_type_eq
area_type_eq_iff (other_type s) (other_type t) = ground (arith, text_eq_iff s t)
area_type_eq_iff no_type b = ground arith
area_type_eq_iff _ _ = ground arith

unfoldable pub area_source_eq : AreaSource → AreaSource → Bool
unfolding text_eq
area_source_eq no_source no_source = true
area_source_eq manual manual = true
area_source_eq design_plan design_plan = true
area_source_eq video_channel video_channel = true
area_source_eq multiple multiple = true
area_source_eq (other_source s) (other_source t) = text_eq s t
area_source_eq _ _ = false

-- The box is in the number format of the drawing, which no operation here reads.
pub record AreaBox : Type 0 where
  pub x : Text
  pub y : Text
  pub width : Text
  pub height : Text

pub record Area : Type 0 where
  pub id : ℕ
  pub store_id : ℕ
  pub type : AreaType
  pub number : ℤ
  pub display_name : Text
  pub source : AreaSource
  pub status : AreaStatus
  pub box : Option AreaBox
  pub created_at : ℕ
  pub updated_at : ℕ

pub record Channel : Type 0 where
  pub id : ℕ
  pub recorder_id : ℕ
  pub channel_no : ℕ
  pub channel_name : Text
  pub status : ChannelStatus
  pub is_active : Bool
  pub scene_type : Text
  pub area_type : AreaType
  pub area_number : ℤ
  pub bed_label : Text
  pub area_note : Text
  pub area_id : ℕ
  pub recognition_attempts : ℕ
  pub recognition_result : Text
  pub thumbnail_url : Text
  pub full_image_url : Text
  pub full_image_expires_at : Option ℕ
  pub confirmed_at : Option ℕ
  pub created_at : ℕ
  pub updated_at : ℕ

pub record Recorder : Type 0 where
  pub id : ℕ
  pub store_id : ℕ
  pub ezviz_account_id : ℕ
  pub device_code : Text
  pub status : RecorderStatus
  pub effective_channel_count : ℕ
  pub last_scanned_at : Option ℕ
  pub channels : List Channel
  pub created_at : ℕ
  pub updated_at : ℕ

-- `ChannelInput`; a channel number that is not positive is 0.
pub record ChannelInput : Type 0 where
  pub channel_no : ℕ
  pub channel_name : Text
  pub is_active : Bool

pub record SnapshotInput : Type 0 where
  pub thumbnail_path : Text
  pub full_image_path : Text
  pub full_image_expires_at : Option ℕ
  pub recognition_result : Text
  pub status : ChannelStatus
  pub scene_type : Text
  pub area_type : AreaType
  pub area_number_text : Text
  pub area_note : Text
  pub count_attempt : Bool

pub record ConfirmationInput : Type 0 where
  pub kind : Text
  pub area_type : AreaType
  pub area_number : Text
  pub bed_label : Text
  pub area_note : Text
  pub scene_type : Text
