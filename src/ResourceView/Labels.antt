-- ===== src/ResourceView/Labels.antt =====
-- What service.go of internal/resourceview reads from names: channel numbers, kinds and types.
use erzhuang_project.Prelude.{
  ℕ, Bool, false, not, ◌||◌, List, [], ◌∷◌, ◌==◌, if◌then◌else◌, ltb, Option, none, some,
}
use erzhuang_project.Prelude.Map.{Map, lookup, nat_eq}
use erzhuang_project.Prelude.Text.{Text, text, trim_space, contains, has_prefix}
use erzhuang_project.ResourceView.{Space}
use erzhuang_project.Prelude.Int.{pos_part}
use erzhuang_project.Prelude.Decimal.{parse_int}

-- `strings.Split(s, "-")` where it has two parts.
before_dash : Text → Option (Text × Text)
before_dash [] = none
before_dash (c ∷ s) =
    let rest = before_dash s in
    if c == 45 then some ([], s) else elim rest [ none ↦ none | some (a, b) ↦ some (c ∷ a, b) ]

has_dash : Text → Bool
has_dash [] = false
has_dash (c ∷ s) = c == 45 || has_dash s

unfoldable pub parse_nvr_channel_hardware_id : Text → Option ℕ
unfolding before_dash has_dash has_prefix
parse_nvr_channel_hardware_id value = elim (before_dash (trim_space value)) [
  | none ↦ none
  | some (device, channel) ↦
      if has_dash channel || not (has_prefix device (text "NVRCHANNEL:"))
      then none
      else elim (parse_int channel) [
        | none ↦ none
        | some n ↦ if ltb 0 (pos_part n) then some (pos_part n) else none
      ]
]

-- `containsAny`
any_keyword : Text → List Text → Bool
unfolding contains
any_keyword value [] = false
any_keyword value (k ∷ ks) = contains (trim_space value) k || any_keyword value ks

abbrev contains_any : Text → Text → List Text → Bool
contains_any type name keywords = any_keyword type keywords || any_keyword name keywords

unfoldable pub camera_thumbnail_kind : Text → Text → ℕ → Text
unfolding any_keyword
camera_thumbnail_kind type name level =
    if level == 3 || contains_any type name (text "治疗" ∷ text "床位" ∷ [])
    then text "treatment"
    else if contains_any type name (text "面诊" ∷ text "咨询" ∷ [])
    then text "consultation"
    else if contains_any type name (text "前台" ∷ text "接待" ∷ text "导诊" ∷ text "收银" ∷ [])
    then text "reception"
    else if contains_any type name (text "候诊" ∷ text "等候" ∷ text "休息" ∷ text "大厅" ∷ [])
    then text "waiting"
    else if contains_any type name (text "走廊" ∷ text "过道" ∷ text "通道" ∷ text "入口" ∷ text "出口" ∷ [])
    then text "corridor"
    else text "utility"

unfoldable pub display_space_type : Space → Map ℕ Space → Text
display_space_type space spaces =
    if space.level == 3
    then text "治疗室"
    else elim (lookup space.parent_id spaces) [ none ↦ [] | some parent ↦ trim_space parent.name ]
