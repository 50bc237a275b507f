-- ===== src/Snapshot/AccessUnit.antt =====
-- The parameter sets and the access unit that `WebSocketJPEGCapture` of
-- internal/nvrsnapshot/capture.go gathers. Wiping of memory that is given up is not modelled.
use erzhuang_project.Prelude.{
  ℕ, ◌+◌, ◌/◌, ◌%◌, Bool, true, false, not, ◌&&◌, ◌||◌, [], ◌∷◌, ◌++◌, ◌==◌, if◌then◌else◌, length,
  ltb, leb, Option, none, some,
}
use erzhuang_project.Snapshot.Rtp.{Bytes}

-- `8 << 20`
abbrev pub max_annex_b_bytes : ℕ
max_annex_b_bytes = 8388608

-- `[3][]byte`: types 32, 33 and 34.
pub record ParameterSets : Type 0 where
  pub vps : Bytes
  pub sps : Bytes
  pub pps : Bytes

pub record AccessUnit : Type 0 where
  pub timestamp : ℕ
  pub active : Bool
  pub has_key_frame : Bool
  pub bytes : Bytes

abbrev pub empty_unit : AccessUnit
empty_unit = record { timestamp = 0; active = false; has_key_frame = false; bytes = [] }

unfoldable pub accepts_timestamp : AccessUnit → ℕ → Bool
accepts_timestamp a timestamp = not a.active || a.timestamp == timestamp

-- `a.append`
unfoldable pub append_nal : AccessUnit → ℕ → Bytes → Bool → AccessUnit
append_nal a timestamp nal key_frame = record {
  timestamp = if not a.active then timestamp else a.timestamp;
  active = true;
  has_key_frame = a.has_key_frame || key_frame;
  bytes = a.bytes ++ nal;
}

-- `a.reset`
abbrev pub reset_unit : AccessUnit → AccessUnit
reset_unit a = record { timestamp = 0; active = false; has_key_frame = false; bytes = [] }

-- 255 for what is no unit behind a start code.
unfoldable pub h265_nal_type : Bytes → ℕ
h265_nal_type (a ∷ b ∷ c ∷ d ∷ h0 ∷ h1 ∷ rest) =
    if a == 0 && b == 0 && c == 0 && d == 1 then (h0 / 2) % 64 else 255
h265_nal_type _ = 255

unfoldable pub is_h265_key_frame : Bytes → Bool
is_h265_key_frame nal = leb 16 (h265_nal_type nal) && leb (h265_nal_type nal) 21

pub data SetIndex : Type 0 where
  vps_index sps_index pps_index no_index : SetIndex

-- `no_index` is -1.
unfoldable pub parameter_set_index : ℕ → SetIndex
parameter_set_index nal_type =
    if nal_type == 32
    then vps_index
    else if nal_type == 33
    then sps_index
    else if nal_type == 34
    then pps_index
    else no_index

-- `parameterSets[index] = replaceParameterSet(parameterSets[index], nal)`
unfoldable pub replace_parameter_set : ParameterSets → SetIndex → Bytes → ParameterSets
replace_parameter_set p vps_index nal = record p { vps = nal }
replace_parameter_set p sps_index nal = record p { sps = nal }
replace_parameter_set p pps_index nal = record p { pps = nal }
replace_parameter_set p no_index nal = p

abbrev pub is_empty_bytes : Bytes → Bool
is_empty_bytes [] = true
is_empty_bytes (b ∷ bs) = false

unfoldable pub has_all_parameter_sets : ParameterSets → Bool
has_all_parameter_sets p =
    not (is_empty_bytes p.vps) && not (is_empty_bytes p.sps) && not (is_empty_bytes p.pps)

-- `len(set) > maxAnnexBBytes-total`, where the difference may be negative.
abbrev over : ℕ → ℕ → Bool
over total size = ltb max_annex_b_bytes (total + size)

unfoldable pub combine_access_unit : ParameterSets → Bytes → Option Bytes
combine_access_unit p unit =
    let n0 = length unit in
    let n1 = n0 + length p.vps in
    let n2 = n1 + length p.sps in
    let n3 = n2 + length p.pps in
    if over n0 (length p.vps)
    then none
    else if over n1 (length p.sps)
    then none
    else if over n2 (length p.pps)
    then none
    else if n3 == 0
    then none
    else some (p.vps ++ (p.sps ++ (p.pps ++ unit)))
