-- ===== src/StoreSpace/Validation.antt =====
-- internal/storespace/validation.go: what a request's input must satisfy. The errors are the map from
-- field to message; `none` is the nil error. Which runes beyond ASCII are digits is a parameter.
pub mod Confirmed
pub mod PlanAreas
use erzhuang_project.Prelude.{
  ℕ, suc, ◌+◌, ◌≡◌, refl, Bool, true, false, not, ◌&&◌, ◌||◌, List, [], ◌∷◌, ◌++◌, ◌==◌,
  if◌then◌else◌, length, ltb, leb, Option, none, some,
}
use erzhuang_project.Prelude.Int.{ℤ, pos_part, pos, negsuc}
use erzhuang_project.Prelude.Map.{Map, lookup, insert}
use erzhuang_project.Prelude.Text.{
  Text, text, text_eq, text_is_eq, trim_space, is_empty, to_upper, CaseTable,
}
use erzhuang_project.Prelude.Decimal.{format_nat, parse_int}
use erzhuang_project.StoreSpace.Model.{
  AreaType, no_type, treatment, vip_treatment, consultation, beauty, other_type, area_type_text,
  AreaSource, no_source, manual, design_plan, video_channel, multiple, other_source,
  ConfirmationInput, AreaBox,
}
use erzhuang_project.StoreSpace.Channels.{is_no_type, is_vip, must_positive_int}

abbrev pub Fields : Type 0
Fields = Map Text Text

-- `if len(fields) > 0 { return &ValidationError{...} }`
unfoldable pub failed_fields : Fields → Option Fields
failed_fields [] = none
failed_fields (f ∷ fields) = some (f ∷ fields)

-- `if test { fields[field] = message }`
unfoldable pub report : Bool → Text → Text → Fields → Fields
report test field message fields = if test then insert field message fields else fields

pub record RecorderInput : Type 0 where
  pub ezviz_account_id : ℤ
  pub device_code : Text

pub record CreateStoreInput : Type 0 where
  pub city : Text
  pub name : Text
  pub short_name : Text
  pub external_org_id : Text
  pub design_plan_upload_id : Text
  pub recorders : List RecorderInput

-- The display name, the confidence and the mark for a review are not read here.
pub record DesignAreaInput : Type 0 where
  pub id : ℤ
  pub type : AreaType
  pub number_text : Text
  pub box : Option AreaBox

pub record SaveDesignPlanInput : Type 0 where
  pub upload_id : Text
  pub preview_image_path : Text
  pub areas : List DesignAreaInput

pub record AreaLookup : Type 0 where
  pub store_id : ℤ
  pub type : AreaType
  pub number_text : Text
  pub source : AreaSource

-- A number, or the fields that are wrong.
pub data Checked : Type 0 where
  number : ℕ → Checked
  invalid : Fields → Checked

unfoldable pub valid_area_type : AreaType → Bool
valid_area_type treatment = true
valid_area_type vip_treatment = true
valid_area_type consultation = true
valid_area_type beauty = true
valid_area_type no_type = false
valid_area_type (other_type t) = false

unfoldable pub valid_area_source : AreaSource → Bool
valid_area_source manual = true
valid_area_source design_plan = true
valid_area_source video_channel = true
valid_area_source multiple = true
valid_area_source no_source = false
valid_area_source (other_source t) = false

abbrev scene_types : List Text
scene_types =
    text "treatment"
    ∷ text "vip_treatment"
    ∷ text "consultation"
    ∷ text "beauty"
    ∷ text "front_desk"
    ∷ text "corridor"
    ∷ text "passage"
    ∷ text "waiting_area"
    ∷ text "hall"
    ∷ text "entrance"
    ∷ text "storage"
    ∷ text "pharmacy"
    ∷ text "machine_room"
    ∷ text "unknown"
    ∷ []

abbrev any_text : Text → List Text → Bool
any_text t [] = false
any_text t (s ∷ ss) = text_eq s t || any_text t ss

unfoldable pub valid_scene_type : Text → Bool
valid_scene_type t = any_text t scene_types

unfoldable pub normalize_device_code : CaseTable → Text → Text
normalize_device_code table value = to_upper table (trim_space value)

unfoldable pub validate_store_basic_fields : Text → Text → Fields → Fields
unfolding report
validate_store_basic_fields city name fields =
    report (is_empty (trim_space city)) (text "city") (text "城市必填")
      (report (is_empty (trim_space name)) (text "name") (text "门店名称必填") fields)

-- City and name are all that is read of the update.
unfoldable pub validate_update_store_basic_info : Text → Text → Option Fields
unfolding validate_store_basic_fields failed_fields
validate_update_store_basic_info city name =
    failed_fields (validate_store_basic_fields city name [])

unfoldable pub validate_create_ezviz_account : Text → Option Fields
unfolding report failed_fields
validate_create_ezviz_account account_name =
    failed_fields
      (report (is_empty (trim_space account_name)) (text "account_name") (text "账号名称必填") [])

unfoldable pub validate_add_recorder : CaseTable → RecorderInput → Option Fields
unfolding report failed_fields normalize_device_code
validate_add_recorder table input = failed_fields (
    report (is_empty (normalize_device_code table input.device_code)) (text "device_code")
      (text "录像机设备编码必填") [])

-- `fmt.Sprintf("name[%d]", index)` with the field after it.
unfoldable pub indexed : Text → ℕ → Text → Text
indexed name index field = name ++ (text "[" ++ (format_nat index ++ (text "]." ++ field)))

abbrev pub is_seen : Text → Map Text Bool → Bool
is_seen key seen = elim (lookup key seen) [ none ↦ false | some b ↦ b ]

-- The loop over the recorders from `index` on: the fields, and whether one has a code.
unfoldable pub check_recorders :
    CaseTable → ℕ → List RecorderInput → Map Text Bool → Bool → Fields → Fields × Bool
unfolding report indexed normalize_device_code
check_recorders table index [] seen has_recorder fields = (fields, has_recorder)
check_recorders table index (r ∷ rs) seen has_recorder fields =
    let code = normalize_device_code table r.device_code in
    let skipped = check_recorders table (index + 1) rs seen has_recorder fields in
    let taken = check_recorders table (index + 1) rs (insert code true seen) true (
      report (is_seen code seen) (indexed (text "recorders") index (text "device_code"))
        (text "同一门店内录像机设备编码不能重复") fields) in
    if is_empty code then skipped else taken

unfoldable pub validate_create_store : CaseTable → CreateStoreInput → Option Fields
unfolding report failed_fields validate_store_basic_fields check_recorders
validate_create_store table input =
    let named = validate_store_basic_fields input.city input.name [] in
    let counted =
      report (ltb 3 (length input.recorders)) (text "recorders") (text "单门店最多 3 台录像机") named in
    let (fields, has_recorder) = check_recorders table 0 input.recorders [] false counted in
    failed_fields (
      report (is_empty (trim_space input.design_plan_upload_id) && not has_recorder)
        (text "resources") (text "请至少上传设计图或填写一个录像机设备编码") fields)

abbrev area_type_message : Text
area_type_message = text "区域类型只能是 treatment、vip_treatment、consultation、beauty"

abbrev digits_message : Text
digits_message = text "区域编号只能是数字"

abbrev positive_message : Text
positive_message = text "区域编号必须是正整数"

abbrev required_message : Text
required_message = text "区域编号必填"

-- The key of an area in the design plan's loop.
unfoldable pub area_key : AreaType → ℕ → Text
area_key type n = area_type_text type ++ (text ":" ++ format_nat n)

abbrev is_absent : {A : Type 0} → Option A → Bool
is_absent none = true
is_absent (some a) = false

-- `strconv.Atoi` of a number that must be positive.
unfoldable pub positive_number : Text → Checked
positive_number s = elim (parse_int s) [
  | none ↦ invalid ((text "area_number", positive_message) ∷ [])
  | some n ↦
      if ltb 0 (pos_part n)
      then number (pos_part n)
      else invalid ((text "area_number", positive_message) ∷ [])
]

module _ (wide_digit : ℕ → Bool) where
  -- `unicode.IsDigit`
  is_digit : ℕ → Bool
  is_digit c = if ltb c 128 then leb 48 c && leb c 57 else wide_digit c

  all_digits : Text → Bool
  unfolding is_digit
  all_digits [] = true
  all_digits (c ∷ s) = is_digit c && all_digits s

  unfoldable pub only_digits : Text → Bool
  unfolding all_digits
  only_digits value = not (is_empty value) && all_digits value

  -- What one area of the plan reports, but for a number that occurs twice.
  check_area : ℕ → DesignAreaInput → Fields → Fields
  unfolding report indexed valid_area_type only_digits
  check_area index area fields =
      let number_text = trim_space area.number_text in
      let n = must_positive_int number_text in
      let number_field = indexed (text "areas") index (text "area_number") in
      let typed =
        report (not (valid_area_type area.type)) (indexed (text "areas") index (text "area_type"))
          area_type_message fields in
      let numbered =
        if is_empty number_text
        then report (not (is_vip area.type)) number_field required_message typed
        else if not (only_digits area.number_text)
        then insert number_field digits_message typed
        else report (n == 0) number_field positive_message typed in
      report (is_absent area.box) (indexed (text "areas") index (text "box")) (text "高亮框不能为空")
        numbered

  -- Whether the area has a key among those that may not occur twice.
  is_keyed : DesignAreaInput → Bool
  is_keyed area =
      let number_text = trim_space area.number_text in
      not (is_no_type area.type)
      && (ltb 0 (must_positive_int number_text) || (is_vip area.type && is_empty number_text))

  unfoldable pub key_of : DesignAreaInput → Text
  unfolding area_key
  key_of area = area_key area.type (must_positive_int (trim_space area.number_text))

  unfoldable pub check_areas : ℕ → List DesignAreaInput → Map Text Bool → Fields → Fields
  unfolding check_area is_keyed key_of report indexed
  check_areas index [] seen fields = fields
  check_areas index (area ∷ areas) seen fields =
      let fields' = check_area index area fields in
      let key = key_of area in
      let keyed = check_areas (index + 1) areas (insert key true seen) (
        report (is_seen key seen) (indexed (text "areas") index (text "area_number"))
          (text "同类型下编号不能重复") fields') in
      let unkeyed = check_areas (index + 1) areas seen fields' in
      if is_keyed area then keyed else unkeyed

  unfoldable pub validate_save_design_plan : SaveDesignPlanInput → Option Fields
  unfolding report failed_fields check_areas
  validate_save_design_plan input =
      let no_plan =
        is_empty (trim_space input.preview_image_path) && is_empty (trim_space input.upload_id) in
      let fields = report no_plan (text "design_plan") (text "请先上传设计图") [] in
      let counted =
        report (length input.areas == 0) (text "areas") (text "至少需要维护 1 个业务区域") fields in
      failed_fields (check_areas 0 input.areas [] counted)

  -- The tests on type and number that a lookup and a confirmation share.
  check_area_number : AreaType → Text → Fields → Fields
  unfolding report valid_area_type only_digits
  check_area_number type number_text fields =
      let typed = report (not (valid_area_type type)) (text "area_type") area_type_message fields in
      if is_empty number_text
      then report (not (is_vip type)) (text "area_number") required_message typed
      else report (not (only_digits number_text)) (text "area_number") digits_message typed

  -- From the collected fields on.
  finish_number : AreaType → Text → Fields → Checked
  unfolding positive_number
  finish_number type number_text (f ∷ fields) = invalid (f ∷ fields)
  finish_number type number_text [] =
      if is_empty number_text && is_vip type then number 0 else positive_number number_text

  abbrev is_no_source : AreaSource → Bool
  is_no_source no_source = true
  is_no_source _ = false

  abbrev not_above_zero : ℤ → Bool
  not_above_zero (pos n) = n == 0
  not_above_zero (negsuc n) = true

  unfoldable pub validate_area_lookup : AreaLookup → Checked
  unfolding report valid_area_source check_area_number finish_number
  validate_area_lookup input =
      let number_text = trim_space input.number_text in
      let stored = report (not_above_zero input.store_id) (text "store_id") (text "门店 ID 必填") [] in
      let numbered = check_area_number input.type number_text stored in
      finish_number input.type number_text (
        report (not (is_no_source input.source) && not (valid_area_source input.source))
          (text "source") (text "区域来源只能是 manual、design_plan、video_channel、multiple") numbered)

  -- Without an area type.
  check_non_business : Text → ConfirmationInput → Fields → Checked
  unfolding report failed_fields valid_scene_type
  check_non_business kind input fields =
      let typed =
        report (text_eq kind (text "business")) (text "area_type") (text "业务区域类型必填") fields in
      let scened =
        report (not (is_empty input.scene_type) && not (valid_scene_type input.scene_type))
          (text "scene_type") (text "场景类型不合法") typed in
      elim (failed_fields (
        report (ltb 40 (length (trim_space input.area_note))) (text "area_note")
          (text "备注不能超过 40 个字") scened)) [ none ↦ number 0 | some wrong ↦ invalid wrong ]

  unfoldable pub validate_channel_confirmation : ConfirmationInput → Checked
  unfolding report check_non_business check_area_number finish_number
  validate_channel_confirmation input =
      let kind = trim_space input.kind in
      let number_text = trim_space input.area_number in
      let bad_kind =
        not (is_empty kind)
        && not (text_eq kind (text "business"))
        && not (text_eq kind (text "non_business")) in
      let kinds = report bad_kind (text "kind") (text "确认类型只能是 business 或 non_business") [] in
      if is_no_type input.area_type
      then check_non_business kind input kinds
      else finish_number input.area_type number_text
          (check_area_number input.area_type number_text kinds)
