-- ===== src/Tests/Backfill.antt =====
-- Backfills of cameras that cannot be reached.
use erzhuang_project.Prelude.{◌≡◌, refl, true, false, List, [], ◌∷◌, none, some, map, if◌then◌else◌}
use erzhuang_project.Prelude.Int.{pos}
use erzhuang_project.Snapshot.Rtp.{ErrorCode, wss_connect_failed, wss_connect_timeout}
use erzhuang_project.Snapshot.Backfill.{
  Visit, BackfillOptions, Picture, absent, present, configured, run_backfill, circuit_open,
  prepared, prepare_options, default_capture_timeout, default_request_interval, is_circuit_failure,
  validate_selection, object_exists,
}
use erzhuang_project.Snapshot.Backfill.Accounting.{Accounted, run_backfill-Accounted}
use erzhuang_project.Snapshot.Backfill.Circuit.{
  three_in_a_row, outcomes, undisturbed, run_backfill-opens,
}

abbrev no_picture : Picture
no_picture = record { bytes = []; content_type = []; width = pos 0; height = pos 0 }

-- A camera without a picture in the store, whose capture fails with the code.
abbrev unreachable : ErrorCode → Visit
unreachable code = record {
  candidate = record { tenant_id = pos 7; camera_id = pos 12 };
  open_object = λ key. absent;
  sleep = λ interval. true;
  capture = λ camera timeout. (no_picture, code);
  save = λ key bytes content_type. true;
}

abbrev stored : Visit
stored = record (unreachable wss_connect_failed) { open_object = λ key. present true }

abbrev visits : List Visit
visits =
    unreachable wss_connect_failed
    ∷ stored
    ∷ unreachable wss_connect_timeout
    ∷ unreachable wss_connect_failed
    ∷ unreachable wss_connect_failed
    ∷ []

abbrev one_tenant : BackfillOptions
one_tenant = record {
  selection = record { tenant_id = pos 7; camera_id = pos 0; all_tenants = false };
  timeout = pos 0;
  request_interval = pos 0;
  force = false;
}

run_backfill-Accounted_example : Accounted (run_backfill configured (λ s. some visits) one_tenant)
run_backfill-Accounted_example = run_backfill-Accounted configured (λ s. some visits) one_tenant

one_tenant-prepared :
    prepare_options one_tenant ≡ prepared default_capture_timeout default_request_interval
unfolding prepare_options validate_selection
one_tenant-prepared = refl

run_backfill-opens_example : (run_backfill configured (λ s. some visits) one_tenant).1 ≡ (
    if three_in_a_row (map is_circuit_failure (outcomes false default_capture_timeout visits))
    then some circuit_open
    else none)
unfolding undisturbed object_exists
run_backfill-opens_example =
    run_backfill-opens (λ s. some visits) one_tenant visits default_capture_timeout
      default_request_interval one_tenant-prepared refl (refl, (refl, (refl, (refl, (refl, tt)))))
