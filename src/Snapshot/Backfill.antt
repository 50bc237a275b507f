-- ===== src/Snapshot/Backfill.antt =====
-- `BackfillService` of internal/nvrsnapshot/service.go with its models.go, and `validateSelection` of
-- mysql_repository.go. The capture, the object store and the clock are functions, one set of them for
-- each visit of a candidate, since they may answer differently every time.
pub mod Accounting
pub mod Circuit
use erzhuang_project.Prelude.{
  ◌≡◌, refl, ◌⊎◌, inl, inr, ℕ, suc, ◌+◌, Bool, true, false, not, ◌&&◌, ◌||◌, List, [], ◌∷◌, ◌++◌,
  ◌==◌, if◌then◌else◌, length, ltb, leb, Option, none, some,
}
use erzhuang_project.Prelude.Int.{ℤ, pos, negsuc, at_most}
use erzhuang_project.Prelude.Map.{Map, lookup, insert}
use erzhuang_project.Prelude.Text.{Text, text, text_eq, text_is_eq}
use erzhuang_project.Prelude.Decimal.{format_nat}
use erzhuang_project.Snapshot.Rtp.{
  Bytes, ErrorCode, no_error, demux_failed, media_timeout, authorization_failed, wss_connect_failed,
  wss_connect_timeout, decode_failed, thumbnail_invalid, unlisted,
}
use erzhuang_project.Snapshot.Depacketizer.{no_code}
use erzhuang_project.Snapshot.Decode.{max_jpeg_bytes, max_thumbnail_edge}

-- Durations are in nanoseconds.
abbrev pub default_capture_timeout : ℤ
default_capture_timeout = pos 20000000000

abbrev pub default_request_interval : ℤ
default_request_interval = pos 2000000000

abbrev pub max_consecutive_failures : ℕ
max_consecutive_failures = 3

-- The code's string.
abbrev pub code_text : ErrorCode → Text
code_text no_error = []
code_text demux_failed = text "demux_failed"
code_text media_timeout = text "media_timeout"
code_text authorization_failed = text "authorization_failed"
code_text wss_connect_failed = text "wss_connect_failed"
code_text wss_connect_timeout = text "wss_connect_timeout"
code_text decode_failed = text "decode_failed"
code_text thumbnail_invalid = text "thumbnail_invalid"
code_text (unlisted t) = t

abbrev pub snapshot_status_succeeded : ErrorCode
snapshot_status_succeeded = unlisted (text "succeeded")

abbrev pub error_oss_upload_failed : ErrorCode
error_oss_upload_failed = unlisted (text "oss_upload_failed")

abbrev pub same_code : ErrorCode → ErrorCode → Bool
same_code a b = text_eq (code_text a) (code_text b)

pub record Selection : Type 0 where
  pub tenant_id : ℤ
  pub camera_id : ℤ
  pub all_tenants : Bool

pub record Candidate : Type 0 where
  pub tenant_id : ℤ
  pub camera_id : ℤ

abbrev format_positive_id : ℤ → Text
format_positive_id (pos n) = format_nat n
format_positive_id (negsuc n) = text "0"

unfoldable pub snapshot_object_key : ℤ → ℤ → Text
snapshot_object_key tenant camera =
    text "nvr-camera-snapshots/"
    ++ (format_positive_id tenant ++ (text "/" ++ (format_positive_id camera ++ text ".jpg")))

-- What any `CameraCapture` may give.
pub record Picture : Type 0 where
  pub bytes : Bytes
  pub content_type : Text
  pub width : ℤ
  pub height : ℤ

abbrev is_edge : ℤ → Bool
is_edge (pos n) = ltb 0 n && leb n max_thumbnail_edge
is_edge (negsuc n) = false

unfoldable pub valid_backfill_jpeg : Picture → Bool
valid_backfill_jpeg p =
    ltb 0 (length p.bytes)
    && leb (length p.bytes) max_jpeg_bytes
    && text_eq p.content_type (text "image/jpeg")
    && is_edge p.width
    && is_edge p.height

unfoldable pub is_circuit_failure : ErrorCode → Bool
is_circuit_failure code =
    same_code code authorization_failed
    || same_code code wss_connect_failed
    || same_code code wss_connect_timeout

pub data BackfillError : Type 0 where
  not_configured selection_invalid options_invalid repository_failed : BackfillError
  open_failed close_failed sleep_failed circuit_open : BackfillError

-- What `Open` answers; `present` with whether the reader's `Close` succeeds.
pub data Opened : Type 0 where
  absent broken_store : Opened
  present : Bool → Opened

-- A candidate, and what the capture, the object store and the pause answer when it is visited.
pub record Visit : Type 0 where
  pub candidate : Candidate
  pub open_object : Text → Opened
  pub sleep : ℤ → Bool
  pub capture : ℤ → ℤ → Picture × ErrorCode
  pub save : Text → Bytes → Text → Bool

pub record BackfillOptions : Type 0 where
  pub selection : Selection
  pub timeout : ℤ
  pub request_interval : ℤ
  pub force : Bool

pub record Summary : Type 0 where
  pub selected : ℕ
  pub skipped : ℕ
  pub succeeded : ℕ
  pub failed : ℕ
  pub failures : Map Text ℕ

abbrev empty_summary : Summary
empty_summary = record { selected = 0; skipped = 0; succeeded = 0; failed = 0; failures = [] }

pub data Exists : Type 0 where
  exists missing : Exists
  unknown : BackfillError → Exists

unfoldable pub object_exists : Visit → Exists
object_exists v =
    elim (v.open_object (snapshot_object_key v.candidate.tenant_id v.candidate.camera_id)) [
      | absent ↦ missing
      | broken_store ↦ unknown open_failed
      | present true ↦ exists
      | present false ↦ unknown close_failed
    ]

unfoldable pub process_candidate : Visit → ℤ → ErrorCode
process_candidate v timeout =
    let (jpeg, code) = v.capture v.candidate.camera_id timeout in
    if not (no_code code)
    then code
    else if not (valid_backfill_jpeg jpeg)
    then thumbnail_invalid
    else if not (
        v.save (snapshot_object_key v.candidate.tenant_id v.candidate.camera_id) jpeg.bytes
          jpeg.content_type)
    then error_oss_upload_failed
    else snapshot_status_succeeded

-- `m[code]++`
unfoldable pub increment : Text → Map Text ℕ → Map Text ℕ
increment k m = insert k (elim (lookup k m) [ none ↦ 1 | some n ↦ suc n ]) m

-- The loop's variables.
pub record Progress : Type 0 where
  pub summary : Summary
  pub consecutive : ℕ
  pub captured : Bool

pub data Turn : Type 0 where
  next : Progress → Turn
  return : Summary → BackfillError → Turn

count_failure : Progress → ErrorCode → Turn
unfolding increment
count_failure p code =
    let s = record p.summary {
      failed = suc p.summary.failed;
      failures = increment (code_text code) p.summary.failures;
    } in
    if is_circuit_failure code
    then if leb max_consecutive_failures (suc p.consecutive)
      then return s circuit_open
      else next (record p { summary = s; consecutive = suc p.consecutive })
    else next (record p { summary = s; consecutive = 0 })

count_outcome : Progress → ErrorCode → Turn
unfolding count_failure
count_outcome p code =
    if same_code code snapshot_status_succeeded
    then next (record p {
      summary = record p.summary { succeeded = suc p.summary.succeeded };
      consecutive = 0;
    })
    else count_failure p code

capture_candidate : ℤ → ℤ → Progress → Visit → Turn
unfolding count_outcome
capture_candidate timeout interval p v =
    if p.captured && not (v.sleep interval)
    then return p.summary sleep_failed
    else count_outcome (record p { captured = true }) (process_candidate v timeout)

unfoldable pub visit_candidate : Bool → ℤ → ℤ → Progress → Visit → Turn
unfolding capture_candidate
visit_candidate true timeout interval p v = capture_candidate timeout interval p v
visit_candidate false timeout interval p v = elim (object_exists v) [
  | unknown e ↦ return p.summary e
  | exists ↦ next (record p { summary = record p.summary { skipped = suc p.summary.skipped } })
  | missing ↦ capture_candidate timeout interval p v
]

unfoldable pub visit_all : Bool → ℤ → ℤ → Progress → List Visit → Summary × Option BackfillError
visit_all force timeout interval p [] = (p.summary, none)
visit_all force timeout interval p (v ∷ vs) = elim (visit_candidate force timeout interval p v) [
  | next p' ↦ visit_all force timeout interval p' vs
  | return s e ↦ (s, some e)
]

abbrev is_zero : ℤ → Bool
is_zero (pos n) = n == 0
is_zero (negsuc n) = false

abbrev is_positive : ℤ → Bool
is_positive (pos n) = ltb 0 n
is_positive (negsuc n) = false

-- Whether the selection is refused.
unfoldable pub validate_selection : Selection → Bool
validate_selection s =
    if at_most s.camera_id (negsuc 0)
    then false
    else if s.all_tenants
    then is_zero s.tenant_id && is_zero s.camera_id
    else is_positive s.tenant_id

abbrev or_default : ℤ → ℤ → ℤ
or_default default t = if is_zero t then default else t

pub Turn-cases :
    (t : Turn)
    → ((p : Progress) × (t ≡ next p)) ⊎ ((s : Summary) × (e : BackfillError) × (t ≡ return s e))
Turn-cases (next p) = inl (p, refl)
Turn-cases (return s e) = inr (s, e, refl)

-- What the service was built with: all of its parts, or not.
pub data Configuration : Type 0 where
  configured unconfigured : Configuration

-- The pair is the timeout and the interval to use.
pub data Prepared : Type 0 where
  refused : BackfillError → Prepared
  prepared : ℤ → ℤ → Prepared

pub Prepared-cases :
    (q : Prepared)
    → ((e : BackfillError) × (q ≡ refused e)) ⊎ ((t : ℤ) × (i : ℤ) × (q ≡ prepared t i))
Prepared-cases (refused e) = inl (e, refl)
Prepared-cases (prepared t i) = inr (t, i, refl)

unfoldable pub prepare_options : BackfillOptions → Prepared
unfolding validate_selection
prepare_options o =
    let timeout = or_default default_capture_timeout o.timeout in
    let interval = or_default default_request_interval o.request_interval in
    if not (validate_selection o.selection)
    then refused selection_invalid
    else if not (is_positive timeout)
        || not (at_most timeout default_capture_timeout)
        || not (at_most default_request_interval interval)
    then refused options_invalid
    else prepared timeout interval

unfoldable pub start_progress : List Visit → Progress
start_progress visits = record {
  summary = record empty_summary { selected = length visits };
  consecutive = 0;
  captured = false;
}

-- `Run`, with what `ListCandidates` answers for the selection.
unfoldable pub run_backfill :
    Configuration
    → (Selection → Option (List Visit))
    → BackfillOptions
    → Summary × Option BackfillError
unfolding visit_all prepare_options start_progress
run_backfill unconfigured list_candidates o = (empty_summary, some not_configured)
run_backfill configured list_candidates o = elim (prepare_options o) [
  | refused e ↦ (empty_summary, some e)
  | prepared timeout interval ↦ elim (list_candidates o.selection) [
    | none ↦ (empty_summary, some repository_failed)
    | some visits ↦ visit_all o.force timeout interval (start_progress visits) visits
  ]
]
