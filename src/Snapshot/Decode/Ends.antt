-- ===== src/Snapshot/Decode/Ends.antt =====
-- `captureJPEG` of internal/nvrsnapshot/capture.go ends.
use erzhuang_project.Prelude.{◌≡◌, Bool, true, some}
use erzhuang_project.Snapshot.Decode.Process.{Answers}
use erzhuang_project.Snapshot.Decode.Reaped.{Reaped}

-- What os/exec promises: `Wait` returns, since the process is killed with its context, also after
-- `Kill`, and a read and a write end once their pipes are closed.
pub record Answering (a : Answers) : Type 0 where
  pub waited : (failed : Bool) × (a.waited ≡ some failed)
  pub killed : a.killed ≡ true
  pub reader : a.reader_sends ≡ true
  pub writer : a.writer_sends ≡ true
