-- ===== src/Snapshot/Capture.antt =====
-- `WebSocketJPEGCapture` and `CaptureService` of internal/nvrsnapshot/capture.go. What the
-- connection delivers is a list of messages; ffmpeg, and the JPEG decoder, are parameters.
pub mod Media
pub mod Service
use erzhuang_project.Prelude.{
  ℕ, ◌+◌, ◌-◌, Bool, true, false, not, ◌&&◌, ◌||◌, List, [], ◌∷◌, ◌++◌, ◌==◌, if◌then◌else◌, length,
  ltb, Option, none, some,
}
use erzhuang_project.Prelude.Text.{Text, trim_space, is_empty}
use erzhuang_project.Snapshot.Rtp.{
  Bytes, ErrorCode, no_error, demux_failed, media_timeout, authorization_failed, wss_connect_failed,
  wss_connect_timeout, decode_failed, thumbnail_invalid, unlisted,
}
use erzhuang_project.Snapshot.Depacketizer.{
  Depacketizer, DepacketizedNal, new_depacketizer, feed_rtp_with_metadata, no_code,
}
use erzhuang_project.Snapshot.AccessUnit.{
  ParameterSets, AccessUnit, empty_unit, accepts_timestamp, append_nal, reset_unit, h265_nal_type,
  is_h265_key_frame, parameter_set_index, SetIndex, vps_index, sps_index, pps_index, no_index,
  replace_parameter_set, has_all_parameter_sets, combine_access_unit, max_annex_b_bytes,
}

-- The content type is always image/jpeg.
pub record Jpeg : Type 0 where
  pub bytes : Bytes
  pub width : ℕ
  pub height : ℕ

-- What `connection.Read` returns.
pub data Message : Type 0 where
  binary : Bytes → Message
  text_message : Message
  read_failed : Bool → Message  -- whether the context's deadline has passed

-- What the loop over the connection ends with: `media` goes to the decoder, and `reading` means
-- that the messages so far do not end it.
pub data Captured : Type 0 where
  failed : ErrorCode → Captured
  media : Bytes → Captured
  reading : Captured

pub record Reader : Type 0 where
  pub depacketizer : Depacketizer
  pub parameter_sets : ParameterSets
  pub access_unit : AccessUnit

-- One turn of the loop goes on with a state, or ends.
pub data Turn : Type 0 where
  go_on : Reader → Turn
  stop : Captured → Turn

-- From the marker on.
end_of_unit : Reader → Turn
end_of_unit r =
    if r.access_unit.has_key_frame && has_all_parameter_sets r.parameter_sets
    then elim (combine_access_unit r.parameter_sets r.access_unit.bytes) [
      | none ↦ stop (failed demux_failed)
      | some m ↦ stop (media m)
    ]
    else go_on (record r { access_unit = reset_unit r.access_unit })

-- A unit that is no parameter set.
add_to_unit : Reader → Bytes → ℕ → Bool → Turn
unfolding end_of_unit append_nal
add_to_unit r nal timestamp marker =
    let unit =
      if not (accepts_timestamp r.access_unit timestamp)
      then reset_unit r.access_unit
      else r.access_unit in
    if ltb max_annex_b_bytes (length nal + length unit.bytes)
    then stop (failed demux_failed)
    else (let r' = record r {
      access_unit = append_nal unit timestamp nal (is_h265_key_frame nal);
    } in
        if not marker then go_on r' else end_of_unit r')

keep_parameter_set : Reader → SetIndex → Bytes → Turn
keep_parameter_set r index nal =
    if ltb max_annex_b_bytes (length nal)
    then stop (failed demux_failed)
    else go_on (record r { parameter_sets = replace_parameter_set r.parameter_sets index nal })

-- A nil or empty NAL goes on to the next message.
take_nal : Reader → Option Bytes → ℕ → Bool → Turn
unfolding add_to_unit keep_parameter_set
take_nal r none timestamp marker = go_on r
take_nal r (some []) timestamp marker = go_on r
take_nal r (some (b ∷ bs)) timestamp marker = elim (parameter_set_index (h265_nal_type (b ∷ bs))) [
  | no_index ↦ add_to_unit r (b ∷ bs) timestamp marker
  | index ↦ keep_parameter_set r index (b ∷ bs)
]

unfoldable pub take_message : Reader → Message → Turn
unfolding take_nal
take_message r (binary packet) =
    let (d, result, code) = feed_rtp_with_metadata r.depacketizer packet in
    if not (no_code code)
    then stop (failed code)
    else take_nal (record r { depacketizer = d }) result.nal result.timestamp result.marker
take_message r text_message = stop (failed demux_failed)
take_message r (read_failed true) = stop (failed media_timeout)
take_message r (read_failed false) = stop (failed wss_connect_failed)

unfoldable pub read_messages : Reader → List Message → Captured
read_messages r [] = reading
read_messages r (m ∷ ms) = elim (take_message r m) [ go_on r' ↦ read_messages r' ms | stop c ↦ c ]

unfoldable pub new_reader : Reader
new_reader = record {
  depacketizer = new_depacketizer;
  parameter_sets = record { vps = []; sps = []; pps = [] };
  access_unit = empty_unit;
}

-- `none` for a dial that failed, with whether the deadline has passed.
pub data Dialled : Type 0 where
  connected : List Message → Dialled
  dial_failed : Bool → Dialled

-- `Capture` of `WebSocketJPEGCapture`, with `captureJPEG` as `decode`; `none` while it still reads.
unfoldable pub capture_jpeg :
    (Bytes → Jpeg × ErrorCode) → Jpeg → Dialled → Option (Jpeg × ErrorCode)
capture_jpeg decode empty (dial_failed true) = some (empty, wss_connect_timeout)
capture_jpeg decode empty (dial_failed false) = some (empty, wss_connect_failed)
capture_jpeg decode empty (connected messages) = elim (read_messages new_reader messages) [
  | failed code ↦ some (empty, code)
  | media m ↦ some (decode m)
  | reading ↦ none
]

unfoldable pub whitelist_capture_code : ErrorCode → ErrorCode
whitelist_capture_code (unlisted t) = decode_failed
whitelist_capture_code code = code

-- What the service has: an authorizer and a capture, or not both.
pub data Wiring : Type 0 where
  wired unwired : Wiring

-- `Capture` of `CaptureService`: what the authorizer answers for the camera, and what the capture then
-- gives for a stream's address.
unfoldable pub service_capture :
    Jpeg → Wiring → Text × ErrorCode → (Text → Jpeg × ErrorCode) → Jpeg × ErrorCode
unfolding whitelist_capture_code
service_capture empty unwired answer capture = (empty, authorization_failed)
service_capture empty wired (wss_url, code) capture =
    let (jpeg, captured) = capture wss_url in
    if not (no_code code) || is_empty (trim_space wss_url)
    then (empty, authorization_failed)
    else (jpeg, whitelist_capture_code captured)
