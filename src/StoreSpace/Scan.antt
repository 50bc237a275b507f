-- ===== src/StoreSpace/Scan.antt =====
-- UpsertRecorderChannel of internal/storespace/store.go: one scanned channel of a recorder. The stores
-- and recorders are in the order of the loops, and `now` is the clock's reading.
pub mod Numbers
use erzhuang_project.Prelude.{
  ℕ, ◌+◌, Bool, true, false, not, ◌&&◌, ◌||◌, List, [], ◌∷◌, ◌++◌, ◌==◌, if◌then◌else◌, ltb, leb,
  Option, none, some,
}
use erzhuang_project.Prelude.Int.{pos, int_eq}
use erzhuang_project.Prelude.Text.{Text, text, trim_space}
use erzhuang_project.StoreSpace.Model.{
  AreaType, no_type, scene_unknown, ChannelStatus, pending_recognition, confirmed_business,
  confirmed_non_business, online, Channel, Recorder, ChannelInput,
}
use erzhuang_project.StoreSpace.Channels.{
  Store, Result, ok, failed, not_found, is_no_type, is_inactive, active_channel_count,
}

-- The first channel with the number.
unfoldable pub channel_by_no : ℕ → List Channel → Option Channel
channel_by_no nr [] = none
channel_by_no nr (c ∷ cs) = if c.channel_no == nr then some c else channel_by_no nr cs

unfoldable pub set_by_no : ℕ → Channel → List Channel → List Channel
set_by_no nr new [] = []
set_by_no nr new (c ∷ cs) = if c.channel_no == nr then new ∷ cs else c ∷ set_by_no nr new cs

unfoldable pub max_channel_id : List Channel → ℕ
max_channel_id [] = 0
max_channel_id (c ∷ cs) = let rest = max_channel_id cs in if ltb rest c.id then c.id else rest

-- `sort.Slice` by channel number; its result is determined where the numbers differ.
unfoldable pub insert_channel : Channel → List Channel → List Channel
insert_channel c [] = c ∷ []
insert_channel c (x ∷ xs) =
    if leb c.channel_no x.channel_no then c ∷ x ∷ xs else x ∷ insert_channel c xs

unfoldable pub sort_channels : List Channel → List Channel
unfolding insert_channel
sort_channels [] = []
sort_channels (c ∷ cs) = insert_channel c (sort_channels cs)

abbrev was_confirmed : Channel → Bool
was_confirmed c =
    not (c.area_id == 0)
    || not (is_no_type c.area_type)
    || not (int_eq c.area_number (pos 0))
    || elim c.confirmed_at [ none ↦ false | some t ↦ true ]

abbrev revived_status : Channel → ChannelStatus
revived_status c =
    if was_confirmed c
    then (if not (is_no_type c.area_type) then confirmed_business else confirmed_non_business)
    else pending_recognition

-- A channel that is there already.
unfoldable pub rescanned : Text → ℕ → Channel → Channel
rescanned name now c = record c {
  channel_name = trim_space name;
  is_active = true;
  status = if is_inactive c.status then revived_status c else c.status;
  scene_type =
      if is_inactive c.status && not (was_confirmed c) then scene_unknown else c.scene_type;
  updated_at = now;
}

abbrev pub scanned_channel : ℕ → ℕ → ChannelInput → ℕ → Channel
scanned_channel id recorder_id input now = record {
  id = id;
  recorder_id = recorder_id;
  channel_no = input.channel_no;
  channel_name = trim_space input.channel_name;
  status = pending_recognition;
  is_active = true;
  scene_type = scene_unknown;
  area_type = no_type;
  area_number = pos 0;
  bed_label = text "";
  area_note = text "";
  area_id = 0;
  recognition_attempts = 0;
  recognition_result = text "";
  thumbnail_url = text "";
  full_image_url = text "";
  full_image_expires_at = none;
  confirmed_at = none;
  created_at = now;
  updated_at = now;
}

abbrev pub with_channels : Recorder → List Channel → ℕ → Recorder
with_channels r channels now = record r {
  channels = channels;
  effective_channel_count = active_channel_count channels;
  last_scanned_at = some now;
  status = online;
  updated_at = now;
}

-- The body of the loop on the recorder; `none` for a number or a channel that is not to be kept.
unfoldable pub upsert_in_recorder : ChannelInput → ℕ → Recorder → Option (Recorder × Channel)
unfolding channel_by_no set_by_no sort_channels rescanned active_channel_count max_channel_id
upsert_in_recorder input now r =
    if input.channel_no == 0 || not input.is_active
    then none
    else elim (channel_by_no input.channel_no r.channels) [
      | some c ↦
          let new = rescanned input.channel_name now c in
          some (with_channels r (set_by_no input.channel_no new r.channels) now, new)
      | none ↦
          let new = scanned_channel (max_channel_id r.channels + 1) r.id input now in
          some (with_channels r (sort_channels (r.channels ++ new ∷ [])) now, new)
    ]

-- What the loop over the recorders of a store finds: nothing, a refusal, or the recorders after it.
pub data Upserted : Type 0 where
  no_recorder refused : Upserted
  upserted : List Recorder → Channel → Upserted

upsert_in_recorders : ℕ → ChannelInput → ℕ → List Recorder → Upserted
unfolding upsert_in_recorder
upsert_in_recorders id input now [] = no_recorder
upsert_in_recorders id input now (r ∷ rs) =
    let later = upsert_in_recorders id input now rs in
    let here : Upserted = elim (upsert_in_recorder input now r) [
      | none ↦ refused
      | some (r', c) ↦ upserted (r' ∷ rs) c
    ] in
    let there : Upserted = elim later [
      | no_recorder ↦ no_recorder
      | refused ↦ refused
      | upserted rs' c ↦ upserted (r ∷ rs') c
    ] in
    if r.id == id then here else there

-- `UpsertRecorderChannel`
unfoldable pub upsert_recorder_channel :
    ℕ → ChannelInput → ℕ → List Store → List Store × Result Channel
unfolding upsert_in_recorders
upsert_recorder_channel id input now [] = ([], failed not_found)
upsert_recorder_channel id input now (s ∷ ss) =
    let later = upsert_recorder_channel id input now ss in
    elim (upsert_in_recorders id input now s.recorders) [
      | no_recorder ↦ (s ∷ later.0, later.1)
      | refused ↦ (s ∷ ss, failed not_found)
      | upserted rs c ↦ (record s { recorders = rs; updated_at = now } ∷ ss, ok c)
    ]
