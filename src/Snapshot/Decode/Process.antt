-- ===== src/Snapshot/Decode/Process.antt =====
-- `captureJPEG` of internal/nvrsnapshot/capture.go. The ffmpeg process is the list of what its
-- pipes and the context report, in the order in which `select` could take them, and `Answers`, which
-- says what the blocking calls after that give. Every call on the process and every receive is an
-- action, which is logged. Wiping of memory is not modelled.
use erzhuang_project.Prelude.{
  Bool, true, false, not, ◌&&◌, ◌||◌, List, [], ◌∷◌, if◌then◌else◌, Option, none, some,
}
use erzhuang_project.Prelude.Int.{ℤ}
use erzhuang_project.Snapshot.Rtp.{
  Bytes, ErrorCode, no_error, media_timeout, decode_failed, thumbnail_invalid,
}
use erzhuang_project.Snapshot.Capture.{Jpeg}
use erzhuang_project.Snapshot.Decode.{ReadResult, empty_jpeg, validate_jpeg}

-- What `select` may take: the reader's result, the writer's error with that of closing the pipe,
-- or the context's end, by its deadline or not.
pub data ProcessEvent : Type 0 where
  read_done : ReadResult → ProcessEvent
  write_done : Bool → Bool → ProcessEvent
  context_done : Bool → ProcessEvent

pub data Action : Type 0 where
  close_stdin close_stdout kill wait receive_read receive_write : Action

-- The loop's variables, and the actions so far, the last one first.
pub record Waiting : Type 0 where
  pub read_finished : Bool
  pub write_finished : Bool
  pub output : Bytes
  pub actions : List Action

-- One turn of the `select`: go on, or return with a code.
pub data Select : Type 0 where
  waits : Waiting → Select
  returns : Waiting → ErrorCode → Select

-- Each goroutine sends once, so what was received is not ready again.
abbrev pub is_ready : Waiting → ProcessEvent → Bool
is_ready w (read_done r) = not w.read_finished
is_ready w (write_done write_failed close_failed) = not w.write_finished
is_ready w (context_done deadline) = true

abbrev pub took_read : Waiting → Waiting
took_read w = record w { read_finished = true; actions = receive_read ∷ w.actions }

abbrev pub took_write : Waiting → Waiting
took_write w = record w { write_finished = true; actions = receive_write ∷ w.actions }

unfoldable pub select_event : Waiting → ProcessEvent → Select
select_event w (read_done r) =
    if r.too_large
    then returns (took_read w) thumbnail_invalid
    else if r.broken
    then returns (took_read w) decode_failed
    else waits (record (took_read w) { output = r.bytes })
select_event w (write_done write_failed close_failed) =
    let closed = record (took_write w) { actions = close_stdin ∷ receive_write ∷ w.actions } in
    if write_failed
    then returns (took_write w) decode_failed
    else if close_failed
    then returns closed decode_failed
    else waits closed
select_event w (context_done deadline) =
    returns w (if deadline then media_timeout else decode_failed)

-- `for !readFinished || !writeFinished`; `none` while neither a ready event nor the end is there.
unfoldable pub select_loop : Waiting → List ProcessEvent → Option (Waiting × ErrorCode)
unfolding select_event
select_loop w [] = if not w.read_finished || not w.write_finished then none else some (w, no_error)
select_loop w (e ∷ es) = elim (not w.read_finished || not w.write_finished) [
  | false ↦ some (w, no_error)
  | true ↦ elim (is_ready w e) [
    | false ↦ select_loop w es
    | true ↦ elim (select_event w e) [
      | returns w' code ↦ some (w', code)
      | waits w' ↦ select_loop w' es
    ]
  ]
]

-- Where the start ends: at the command, at one of its pipes, at `Start`, or with a process.
pub data Started : Type 0 where
  no_command no_stdin no_stdout start_failed started : Started

-- What the calls that may block give: `Wait` once both results were received, an error or not;
-- `Wait` after a kill; and what the goroutines send once their pipes are closed. `none` and
-- `false` stand for a call that never returns.
pub record Answers : Type 0 where
  pub waited : Option Bool
  pub killed : Bool
  pub reader_sends : Bool
  pub writer_sends : Bool

-- What `captureJPEG` returns, and all its actions, the last one first.
pub record FfmpegResult : Type 0 where
  pub jpeg : Jpeg
  pub code : ErrorCode
  pub actions : List Action

-- `shutdown` with a process, and with the flag `waited`; `none` where it blocks.
unfoldable pub shutdown : Answers → Bool → Waiting → Option (List Action)
shutdown a waited w =
    let closed = close_stdout ∷ close_stdin ∷ w.actions in
    let reaped = if waited then closed else wait ∷ kill ∷ closed in
    let read = if w.read_finished then reaped else receive_read ∷ reaped in
    let written = if w.write_finished then read else receive_write ∷ read in
    if (waited || a.killed)
      && (w.read_finished || a.reader_sends)
      && (w.write_finished || a.writer_sends)
    then some written
    else none

-- A result, with the deferred `shutdown`.
unfoldable pub shut : Answers → Bool → Waiting → Jpeg × ErrorCode → Option FfmpegResult
unfolding shutdown
shut a waited w (jpeg, code) = elim (shutdown a waited w) [
  | none ↦ none
  | some actions ↦ some (record { jpeg = jpeg; code = code; actions = actions })
]

abbrev pub waited_for : Waiting → Waiting
waited_for w = record w { actions = wait ∷ w.actions }

-- The rest of `captureJPEG` from the end of the loop, or from a return within it.
unfoldable pub after_loop :
    (Bytes → Option (ℤ × ℤ)) → Answers → Waiting → ErrorCode → Option FfmpegResult
unfolding shut
after_loop decode a w no_error = elim a.waited [
  | none ↦ none
  | some true ↦ shut a true (waited_for w) (empty_jpeg, decode_failed)
  | some false ↦ shut a true (waited_for w) (validate_jpeg decode w.output)
]
after_loop decode a w code = shut a false w (empty_jpeg, code)

abbrev unstarted : List Action → Option FfmpegResult
unstarted actions = some (record { jpeg = empty_jpeg; code = decode_failed; actions = actions })

abbrev pub begun : Waiting
begun = record { read_finished = false; write_finished = false; output = []; actions = [] }

-- `captureJPEG`
unfoldable pub run_ffmpeg :
    (Bytes → Option (ℤ × ℤ)) → Started → List ProcessEvent → Answers → Option FfmpegResult
unfolding after_loop select_loop
run_ffmpeg decode no_command events a = unstarted []
run_ffmpeg decode no_stdin events a = unstarted []
run_ffmpeg decode no_stdout events a = unstarted (close_stdin ∷ [])
run_ffmpeg decode start_failed events a = unstarted (close_stdout ∷ close_stdin ∷ [])
run_ffmpeg decode started events a = elim (select_loop begun events) [
  | none ↦ none
  | some (w, code) ↦ after_loop decode a w code
]
