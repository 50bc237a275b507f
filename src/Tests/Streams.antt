-- ===== src/Tests/Streams.antt =====
-- One store with one camera behind a recorder.
use erzhuang_project.Prelude.{ℕ, ◌≡◌, refl, false, [], ◌∷◌, Option, some}
use erzhuang_project.Prelude.Int.{pos}
use erzhuang_project.Prelude.Map.{lookup}
use erzhuang_project.Prelude.Text.{Text, text, text_eq, trim_space, is_space}
use erzhuang_project.Prelude.Decimal.{parse_int, format_nat}
use erzhuang_project.ResourceView.{BusinessDevice}
use erzhuang_project.NvrMonitor.{
  StoreRecords, Found, found_store, StreamRequest, StreamSession, AuditTarget, playback, done,
  create_session_with_audit_target,
}
use erzhuang_project.NvrMonitor.Sessions.{Allowed, create_session-Allowed}

abbrev lobby_camera : BusinessDevice
lobby_camera = record {
  id = 12;
  tenant_id = 7;
  parent_id = 1;
  name = text "Lobby";
  hardware_id = text "NVRCHANNEL:1-2";
  sn = [];
  ip = [];
  category = text "camera";
  provider = text "HikVisionNvrChannel";
  status = 1;
  online_status = 1;
  ext_params = [];
  is_deleted = false;
}

abbrev store_seven : StoreRecords
store_seven = record {
  tenant_id = 7;
  tenant_name = text "Seven";
  city = text "X";
  devices = lobby_camera ∷ [];
  spaces = [];
  relations = [];
}

abbrev repository : ℕ → Found
repository id = found_store store_seven

abbrev open_at : ℕ → StreamRequest → Option Text
open_at camera request = some (text "wss://x")

abbrev ten_minutes : StreamRequest
ten_minutes = record { mode = playback; start_time = pos 1000; end_time = pos 1600 }

abbrev stream : StreamSession
stream = record { url = text "wss://x"; mode = playback }

abbrev lobby_target : AuditTarget
lobby_target = record {
  external_org_id = text "7";
  store_name = text "Seven";
  camera_id = 12;
  camera_name = text "Lobby";
  space_type = [];
  space_name = [];
}

session-made :
    create_session_with_audit_target
      (some repository)
      false
      (some open_at)
      (text " 7 ")
      12
      ten_minutes
    ≡ (done stream, some lobby_target)
unfolding create_session_with_audit_target parse_int trim_space is_space text_eq lookup format_nat
session-made = refl

create_session-Allowed_example :
    Allowed
      (some repository)
      false
      (some open_at)
      (text " 7 ")
      12
      ten_minutes
      stream
      (some lobby_target)
create_session-Allowed_example =
    create_session-Allowed (some repository) false (some open_at) (text " 7 ") 12 ten_minutes stream
      (some lobby_target) session-made
