-- ===== src/Tests/Rooms.antt =====
-- Areas and channels by hand.
use erzhuang_project.Prelude.{◌≡◌, refl, true, false, [], ◌∷◌, none, some, arith}
use erzhuang_project.Prelude.Int.{pos}
use erzhuang_project.Prelude.Text.{text, trim_space, is_space}
use erzhuang_project.Prelude.Decimal.{parse_int}
use erzhuang_project.StoreSpace.Model.{
  treatment, consultation, video_channel, pending_confirmation, online, Area, Channel, Recorder,
  ConfirmationInput,
}
use erzhuang_project.StoreSpace.Areas.{find_area, new_area, update_or_find_video_area}
use erzhuang_project.StoreSpace.Areas.Unique.{AreasOk}
use erzhuang_project.StoreSpace.Areas.Found.{GivesArea, update_or_find_video_area-GivesArea}
use erzhuang_project.StoreSpace.Channels.{
  Work, find_in_recorders, confirmed_number, confirm_in_store,
}
use erzhuang_project.StoreSpace.Model.{ChannelInput}
use erzhuang_project.Prelude.{◌&&◌, ◌==◌, if◌then◌else◌}
use erzhuang_project.Prelude.Text.{text_eq, is_empty}
use erzhuang_project.StoreSpace.Scan.{upsert_in_recorder}
use erzhuang_project.StoreSpace.Scan.Numbers.{Rescanned, upsert_in_recorder-Rescanned}
use erzhuang_project.StoreSpace.Accounts.{Accounts, upsert_ezviz_account_name}
use erzhuang_project.StoreSpace.Accounts.Names.{count_name, upsert_ezviz_account_name-count}
use erzhuang_project.Prelude.{All}
use erzhuang_project.StoreSpace.Channels.Repository.{Stores, confirm_channel}
use erzhuang_project.StoreSpace.Channels.Repository.Areas.{StoreOk, confirm_channel-StoreOk}
use erzhuang_project.StoreSpace.Channels.Confirm.{
  areas_of, RefersToArea, confirm_in_store-AreasOk, confirm_in_store-RefersToArea,
}

abbrev room : Area
room = new_area 3 1 treatment (pos 2) video_channel 100

-- A channel that waits to be confirmed, in room 3.
abbrev camera : Channel
camera = record {
  id = 9;
  recorder_id = 4;
  channel_no = 1;
  channel_name = text "C1";
  status = pending_confirmation;
  is_active = true;
  scene_type = text "unknown";
  area_type = treatment;
  area_number = pos 2;
  bed_label = [];
  area_note = [];
  area_id = 3;
  recognition_attempts = 1;
  recognition_result = [];
  thumbnail_url = [];
  full_image_url = [];
  full_image_expires_at = none;
  confirmed_at = none;
  created_at = 100;
  updated_at = 100;
}

abbrev recorder : Recorder
recorder = record {
  id = 4;
  store_id = 1;
  ezviz_account_id = 1;
  device_code = text "D1";
  status = online;
  effective_channel_count = 1;
  last_scanned_at = none;
  channels = camera ∷ [];
  created_at = 100;
  updated_at = 100;
}

abbrev work : Work
work = record {
  next_area_id = 4;
  store = record { id = 1; areas = room ∷ []; recorders = recorder ∷ []; updated_at = 100 };
}

work-AreasOk : AreasOk (areas_of work)
unfolding find_area
work-AreasOk = record {
  unique = (refl, tt, tt);
  below = (ground arith, ground arith, tt);
  positive = ground arith;
}

abbrev consultation_5 : ConfirmationInput
consultation_5 = record {
  kind = text "business";
  area_type = consultation;
  area_number = text " 5 ";
  bed_label = [];
  area_note = [];
  scene_type = text "consultation";
}

update_or_find_video_area-GivesArea_example :
    GivesArea consultation
      (pos 5)
      (update_or_find_video_area (areas_of work) 1 3 consultation (pos 5) 200)
update_or_find_video_area-GivesArea_example =
    update_or_find_video_area-GivesArea (areas_of work) 1 3 consultation (pos 5) 200 work-AreasOk

confirm_in_store-AreasOk_example :
    AreasOk (areas_of (confirm_in_store work 9 consultation_5 200 camera).0)
confirm_in_store-AreasOk_example =
    confirm_in_store-AreasOk work 9 consultation_5 200 camera work-AreasOk

consultation_5-number :
    confirmed_number consultation_5.area_type consultation_5.area_number ≡ some 5
unfolding confirmed_number trim_space is_space parse_int
consultation_5-number = refl

camera-found : find_in_recorders 9 work.store.recorders ≡ some camera
unfolding find_in_recorders
camera-found = refl

confirm_in_store-RefersToArea_example :
    let r = confirm_in_store work 9 consultation_5 200 camera in
    (r.1 ≡ none) × ((new : Channel) × (area : Area) × RefersToArea r.0 9 consultation 5 new area)
confirm_in_store-RefersToArea_example =
    confirm_in_store-RefersToArea work 9 consultation_5 200 5 camera work-AreasOk camera-found refl
      consultation_5-number

abbrev second_channel : ChannelInput
second_channel = record { channel_no = 2; channel_name = text " C2 "; is_active = true }

upsert_in_recorder-Rescanned_example :
    (r' : Recorder) × (c : Channel) × (upsert_in_recorder second_channel 200 recorder
      ≡ some (r', c))
    × Rescanned second_channel recorder r' c
upsert_in_recorder-Rescanned_example =
    upsert_in_recorder-Rescanned second_channel 200 recorder (ground arith) refl

abbrev no_accounts : Accounts
no_accounts = record { next_account_id = 1; accounts = [] }

name-kept : is_empty (trim_space (text " main ")) ≡ false
unfolding trim_space is_space
name-kept = refl

upsert_ezviz_account_name-count_example :
    count_name (text "main") (upsert_ezviz_account_name no_accounts (text " main ") 200).accounts
    ≡ (if text_eq (text "main") (trim_space (text " main ")) && count_name (text "main") [] == 0
        then 1
        else count_name (text "main") [])
upsert_ezviz_account_name-count_example =
    upsert_ezviz_account_name-count no_accounts (text " main ") (text "main") 200 name-kept

-- Another store beside the one with the channel.
abbrev two_stores : Stores
two_stores = record {
  next_area_id = 4;
  stores =
      record {
        id = 2;
        areas = new_area 1 2 treatment (pos 2) video_channel 50 ∷ [];
        recorders = [];
        updated_at = 50;
      }
      ∷ work.store
      ∷ [];
}

two_stores-StoreOk : All (StoreOk 4) two_stores.stores
unfolding find_area
two_stores-StoreOk = (
  record {
    unique = (refl, tt, tt);
    below = (ground arith, ground arith, tt);
    positive = ground arith;
  },
  (work-AreasOk, tt),
)

confirm_channel-StoreOk_example :
    let r = confirm_channel two_stores 9 consultation_5 200 in
    All (StoreOk r.0.next_area_id) r.0.stores
confirm_channel-StoreOk_example =
    confirm_channel-StoreOk two_stores 9 consultation_5 200 two_stores-StoreOk
