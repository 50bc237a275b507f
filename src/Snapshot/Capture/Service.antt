-- ===== src/Snapshot/Capture/Service.antt =====
-- `CaptureService.Capture` of internal/nvrsnapshot/capture.go.
use erzhuang_project.Prelude.{◌≡◌, true, false, arith}
use erzhuang_project.Prelude.Text.{Text, trim_space, is_empty}
use erzhuang_project.Snapshot.Rtp.{ErrorCode, no_error}
use erzhuang_project.Snapshot.Depacketizer.{no_code}
use erzhuang_project.Snapshot.Capture.{
  Jpeg, Wiring, wired, unwired, service_capture, whitelist_capture_code,
}

whitelist_no_error : (code : ErrorCode) → whitelist_capture_code code ≡ no_error → code ≡ no_error
unfolding whitelist_capture_code
whitelist_no_error code e = ground arith

no_code-no_error : (code : ErrorCode) → no_code code ≡ true → code ≡ no_error
no_code-no_error code e = ground arith

-- The service gives an image without an error only where the stream was authorized, its address is
-- not blank, and the capture at that address gave that image without an error.
pub service_capture-no_error :
    (empty : Jpeg) (w : Wiring) (wss_url : Text) (code : ErrorCode)
    (capture : Text → Jpeg × ErrorCode)
    → (service_capture empty w (wss_url, code) capture).1 ≡ no_error
    → (code ≡ no_error)
      × (is_empty (trim_space wss_url) ≡ false)
      × (capture wss_url ≡ ((service_capture empty w (wss_url, code) capture).0, no_error))
unfolding service_capture
service_capture-no_error empty unwired wss_url code capture e = absurd (cc e)
service_capture-no_error empty wired wss_url code capture e =
    ground (arith, no_code-no_error code, whitelist_no_error (capture wss_url).1)
