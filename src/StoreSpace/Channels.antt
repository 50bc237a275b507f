-- ===== src/StoreSpace/Channels.antt =====
-- The channel operations of the in-memory repository, internal/storespace/store.go: SaveChannelSnapshot,
-- ConfirmChannel, UnlockChannelForEdit and DeleteChannel. The stores are in the order
-- in which the loop over `s.stores` meets them, and `now` is the clock's reading. A copy that is
-- returned is the value itself; the snapshot addresses that `cloneStore` blanks are not part of it.
pub mod Confirm
pub mod Repository
use erzhuang_project.Prelude.{
  ℕ, ◌+◌, Bool, true, false, not, ◌&&◌, ◌||◌, List, [], ◌∷◌, ◌==◌, if◌then◌else◌, ltb, Option, none,
  some,
}
use erzhuang_project.Prelude.Int.{ℤ, pos, pos_part}
use erzhuang_project.Prelude.Text.{Text, text, is_empty, text_eq, trim_space}
use erzhuang_project.Prelude.Decimal.{parse_int}
use erzhuang_project.StoreSpace.Model.{
  AreaType, no_type, vip_treatment, area_type_text, ChannelStatus, no_status, pending_confirmation,
  confirmed_business, confirmed_non_business, inactive, offline, Area, Channel, Recorder,
  SnapshotInput, ConfirmationInput,
}
use erzhuang_project.StoreSpace.Areas.{
  AreaState, update_or_find_video_area, delete_unused_video_areas,
}

-- What the channel operations use of a `Store`.
pub record Store : Type 0 where
  pub id : ℕ
  pub areas : List Area
  pub recorders : List Recorder
  pub updated_at : ℕ

pub data ChannelError : Type 0 where
  not_found bad_area_number not_editable : ChannelError

pub data Result (A : Type 0) : Type 0 where
  ok : A → Result A
  failed : ChannelError → Result A

abbrev pub is_no_type : AreaType → Bool
is_no_type no_type = true
is_no_type _ = false

abbrev is_no_status : ChannelStatus → Bool
is_no_status no_status = true
is_no_status _ = false

abbrev is_pending_confirmation : ChannelStatus → Bool
is_pending_confirmation pending_confirmation = true
is_pending_confirmation _ = false

abbrev pub is_inactive : ChannelStatus → Bool
is_inactive inactive = true
is_inactive _ = false

abbrev pub is_vip : AreaType → Bool
is_vip vip_treatment = true
is_vip _ = false

-- `mustPositiveInt`
unfoldable pub must_positive_int : Text → ℕ
must_positive_int s = elim (parse_int (trim_space s)) [ none ↦ 0 | some n ↦ pos_part n ]

-- The body of `SaveChannelSnapshot` on the channel.
unfoldable pub save_snapshot : SnapshotInput → ℕ → Channel → Channel
unfolding must_positive_int
save_snapshot input now c =
    let pending = is_pending_confirmation input.status in
    let has_image =
      not (is_empty (trim_space input.thumbnail_path))
      || not (is_empty (trim_space input.full_image_path)) in
    let has_result = not (is_empty (trim_space input.recognition_result)) || input.count_attempt in
    let number = must_positive_int input.area_number_text in
    let numbered = ltb 0 number in
    let note = if numbered then text "" else c.area_note in
    record c {
      thumbnail_url = if has_image then trim_space input.thumbnail_path else c.thumbnail_url;
      full_image_url = if has_image then trim_space input.full_image_path else c.full_image_url;
      full_image_expires_at =
          if has_image then input.full_image_expires_at else c.full_image_expires_at;
      status = if is_no_status input.status then c.status else input.status;
      scene_type = if is_empty input.scene_type then c.scene_type else input.scene_type;
      area_type =
          if not (is_no_type input.area_type)
          then input.area_type
          else if pending
          then no_type
          else c.area_type;
      area_number = if numbered then pos number else if pending then pos 0 else c.area_number;
      area_note =
          if not (is_empty input.area_note) || pending then trim_space input.area_note else note;
      recognition_result =
          if has_result then trim_space input.recognition_result else c.recognition_result;
      recognition_attempts =
          if input.count_attempt then c.recognition_attempts + 1 else c.recognition_attempts;
      updated_at = now;
    }

-- The body of `UnlockChannelForEdit` on the channel.
unfoldable pub unlock_for_edit : ℕ → Channel → Result Channel
unlock_for_edit now c =
    if is_inactive c.status || not c.is_active
    then failed not_editable
    else ok (record c { status = pending_confirmation; confirmed_at = none; updated_at = now })

-- The first channel with the id, in the loop's order.
unfoldable pub find_channel : ℕ → List Channel → Option Channel
find_channel id [] = none
find_channel id (c ∷ cs) = if c.id == id then some c else find_channel id cs

unfoldable pub set_channel : ℕ → Channel → List Channel → List Channel
set_channel id new [] = []
set_channel id new (c ∷ cs) = if c.id == id then new ∷ cs else c ∷ set_channel id new cs

unfoldable pub find_in_recorders : ℕ → List Recorder → Option Channel
unfolding find_channel
find_in_recorders id [] = none
find_in_recorders id (r ∷ rs) =
    let later = find_in_recorders id rs in
    elim (find_channel id r.channels) [ some c ↦ some c | none ↦ later ]

unfoldable pub set_in_recorders : ℕ → Channel → List Recorder → List Recorder
unfolding find_channel set_channel
set_in_recorders id new [] = []
set_in_recorders id new (r ∷ rs) =
    let later = set_in_recorders id new rs in
    elim (find_channel id r.channels) [
      | some c ↦ record r { channels = set_channel id new r.channels } ∷ rs
      | none ↦ r ∷ later
    ]

-- `strconv.Atoi` and `parsedNumber <= 0`; no number at all is allowed for a VIP room, as 0.
unfoldable pub confirmed_number : AreaType → Text → Option ℕ
confirmed_number type s =
    if not (is_empty (trim_space s))
    then elim (parse_int (trim_space s)) [
      | none ↦ none
      | some n ↦ if ltb 0 (pos_part n) then some (pos_part n) else none
    ]
    else if is_vip type
    then some 0
    else none

-- A store with the repository's next area id.
pub record Work : Type 0 where
  pub next_area_id : ℕ
  pub store : Store

-- The end of the two confirmations: the channel is written and unused areas are deleted.
confirmed_store : Work → AreaState → ℕ → Channel → ℕ → Work
unfolding set_in_recorders delete_unused_video_areas
confirmed_store w s id new now =
    let recorders = set_in_recorders id new w.store.recorders in
    record {
      next_area_id = s.next_area_id;
      store = record w.store {
        recorders = recorders;
        areas = delete_unused_video_areas recorders s.areas;
        updated_at = now;
      };
    }

-- The body of `ConfirmChannel` on the store's channel: the store after it, also when it fails.
unfoldable pub confirm_in_store :
    Work → ℕ → ConfirmationInput → ℕ → Channel → Work × Option ChannelError
unfolding confirmed_store set_in_recorders confirmed_number
confirm_in_store w id input now c =
    let begun = record c {
      scene_type = input.scene_type;
      updated_at = now;
      confirmed_at = some now;
    } in
    let before : AreaState = record { next_area_id = w.next_area_id; areas = w.store.areas } in
    if is_no_type input.area_type
    then (
      confirmed_store w before id
          (record begun {
            area_type = no_type;
            area_number = pos 0;
            bed_label = text "";
            area_note = trim_space input.area_note;
            area_id = 0;
            status = confirmed_non_business;
          })
          now,
      none,
    )
    else elim (confirmed_number input.area_type input.area_number) [
      | none ↦ (
        record w {
          store = record w.store { recorders = set_in_recorders id begun w.store.recorders };
        },
        some bad_area_number,
      )
      | some number ↦
          let (after, area) =
            update_or_find_video_area before w.store.id c.area_id input.area_type (pos number)
              now in
          (
            confirmed_store w after id
                (record begun {
                  area_type = area.type;
                  area_number = area.number;
                  bed_label = trim_space input.bed_label;
                  area_note = text "";
                  area_id = area.id;
                  scene_type = area_type_text area.type;
                  status = confirmed_business;
                })
                now,
            none,
          )
    ]

unfoldable pub active_channel_count : List Channel → ℕ
active_channel_count [] = 0
active_channel_count (c ∷ cs) =
    let rest = active_channel_count cs in
    if c.is_active && not (is_inactive c.status) then rest + 1 else rest
