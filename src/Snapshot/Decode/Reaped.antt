-- ===== src/Snapshot/Decode/Reaped.antt =====
-- What `captureJPEG` of internal/nvrsnapshot/capture.go leaves behind: no process, no goroutine and
-- no open pipe.
use erzhuang_project.Prelude.{
  ℕ, ◌+◌, ◌<◌, ◌≡◌, ◌≢◌, ◌⊎◌, refl, Bool, true, false, not, ◌||◌, if◌then◌else◌, List, [], ◌∷◌,
  Option, some, inl, inr, Bool-cases, Option-cases, arith, subst,
}
use erzhuang_project.Prelude.Int.{ℤ}
use erzhuang_project.Snapshot.Rtp.{Bytes, ErrorCode, no_error}
use erzhuang_project.Snapshot.Capture.{Jpeg}
use erzhuang_project.Snapshot.Decode.{empty_jpeg}
use erzhuang_project.Snapshot.Decode.Process.{
  ProcessEvent, context_done, Action, close_stdin, close_stdout, kill, wait, receive_read,
  receive_write, Waiting, Select, waits, returns, is_ready, select_event, select_loop, started,
  Answers, FfmpegResult, shutdown, shut, waited_for, after_loop, begun, run_ffmpeg, read_done,
  write_done, took_read,
}

abbrev is_wait : Action → Bool
is_wait wait = true
is_wait _ = false

abbrev is_kill : Action → Bool
is_kill kill = true
is_kill _ = false

abbrev is_receive_read : Action → Bool
is_receive_read receive_read = true
is_receive_read _ = false

abbrev is_receive_write : Action → Bool
is_receive_write receive_write = true
is_receive_write _ = false

abbrev is_close_stdin : Action → Bool
is_close_stdin close_stdin = true
is_close_stdin _ = false

abbrev is_close_stdout : Action → Bool
is_close_stdout close_stdout = true
is_close_stdout _ = false

-- How many of the actions.
abbrev pub tally : (Action → Bool) → List Action → ℕ
tally test [] = 0
tally test (a ∷ actions) = (if test a then 1 else 0) + tally test actions

-- Before a kill, the process was not waited for. The last action comes first.
abbrev pub KillsFirst : List Action → Type 0
KillsFirst [] = Unit {0}
KillsFirst (kill ∷ actions) = (tally is_wait actions ≡ 0) × KillsFirst actions
KillsFirst (_ ∷ actions) = KillsFirst actions

pub record Reaped (r : FfmpegResult) : Type 0 where
  pub waited : tally is_wait r.actions ≡ 1
  pub read : tally is_receive_read r.actions ≡ 1
  pub written : tally is_receive_write r.actions ≡ 1
  pub stdin_closed : 0 < tally is_close_stdin r.actions
  pub stdout_closed : 0 < tally is_close_stdout r.actions
  pub kills_first : KillsFirst r.actions
  pub kills : (tally is_kill r.actions ≡ 0) ⊎ (r.code ≢ no_error)

-- Within the loop.
record LoopOk (w : Waiting) : Type 0 where
  read : tally is_receive_read w.actions ≡ (if w.read_finished then 1 else 0)
  written : tally is_receive_write w.actions ≡ (if w.write_finished then 1 else 0)
  not_waited : tally is_wait w.actions ≡ 0
  not_killed : tally is_kill w.actions ≡ 0
  kills_first : KillsFirst w.actions

abbrev Kept : Select → Type 0
Kept (waits w) = LoopOk w
Kept (returns w code) = LoopOk w

took_read-LoopOk :
    (w : Waiting) (output : Bytes)
    → w.read_finished ≡ false
    → LoopOk w
    → LoopOk (record (took_read w) { output = output })
took_read-LoopOk w output h v = ground arith

select_event-Kept :
    (w : Waiting) (e : ProcessEvent) → is_ready w e ≡ true → LoopOk w → Kept (select_event w e)
unfolding select_event
select_event-Kept w (read_done r) h v = ground arith
select_event-Kept w (write_done a b) h v = ground arith
select_event-Kept w (context_done d) h v = ground arith

-- What is true of all actions once the process is gone.
abbrev Cleaned : List Action → Type 0
Cleaned actions =
    (tally is_wait actions ≡ 1)
    × (tally is_receive_read actions ≡ 1)
    × (tally is_receive_write actions ≡ 1)
    × (0 < tally is_close_stdin actions)
    × (0 < tally is_close_stdout actions)
    × KillsFirst actions

shutdown-Cleaned :
    (a : Answers) (w : Waiting) (actions : List Action)
    → LoopOk w
    → shutdown a false w ≡ some actions
    → Cleaned actions
unfolding shutdown
shutdown-Cleaned a w actions v e = ground arith

shutdown_waited-Cleaned :
    (a : Answers) (w : Waiting) (actions : List Action)
    → LoopOk w
    → shutdown a true (waited_for w) ≡ some actions
    → Cleaned actions × (tally is_kill actions ≡ 0)
unfolding shutdown
shutdown_waited-Cleaned a w actions v e = ground arith

shut-Reaped :
    (a : Answers) (w : Waiting) (j : Jpeg) (code : ErrorCode) (r : FfmpegResult)
    → LoopOk w
    → code ≢ no_error
    → shut a false w (j, code) ≡ some r
    → Reaped r
unfolding shut
shut-Reaped a w j code r v h e = elim (Option-cases (shutdown a false w)) [
  | inl blocked ↦ absurd (cc (rw (blocked, shut) at e))
  | inr (actions, k) ↦
      let (waited, read, written, stdin, stdout, kills_first) = shutdown-Cleaned a w actions v k in
      let out : FfmpegResult = record { jpeg = j; code = code; actions = actions } in
      let same : some out ≡ some r = rw (k, shut) at e in
      let is_it : out ≡ r = cc same in
      subst Reaped is_it (record {
        waited = waited;
        read = read;
        written = written;
        stdin_closed = stdin;
        stdout_closed = stdout;
        kills_first = kills_first;
        kills = inr h;
      })
]

shut_waited-Reaped :
    (a : Answers) (w : Waiting) (result : Jpeg × ErrorCode) (r : FfmpegResult)
    → LoopOk w
    → shut a true (waited_for w) result ≡ some r
    → Reaped r
unfolding shut
shut_waited-Reaped a w (j, code) r v e = elim (Option-cases (shutdown a true (waited_for w))) [
  | inl blocked ↦ absurd (cc (rw (blocked, shut) at e))
  | inr (actions, k) ↦
      let ((waited, read, written, stdin, stdout, kills_first), kills) =
        shutdown_waited-Cleaned a w actions v k in
      let out : FfmpegResult = record { jpeg = j; code = code; actions = actions } in
      let same : some out ≡ some r = rw (k, shut) at e in
      let is_it : out ≡ r = cc same in
      subst Reaped is_it (record {
        waited = waited;
        read = read;
        written = written;
        stdin_closed = stdin;
        stdout_closed = stdout;
        kills_first = kills_first;
        kills = inl kills;
      })
]

after_loop-Reaped :
    (decode : Bytes → Option (ℤ × ℤ)) (a : Answers) (w : Waiting) (code : ErrorCode)
    (r : FfmpegResult)
    → LoopOk w
    → after_loop decode a w code ≡ some r
    → Reaped r
unfolding after_loop
after_loop-Reaped decode a w no_error r v e = elim (Option-cases a.waited) [
  | inl blocked ↦ absurd (cc (rw (blocked, after_loop) at e))
  | inr (true, k) ↦ shut_waited-Reaped a w _ r v (rw (k, after_loop) at e)
  | inr (false, k) ↦ shut_waited-Reaped a w _ r v (rw (k, after_loop) at e)
]
after_loop-Reaped decode a w code r v e = shut-Reaped a w empty_jpeg code r v (λ q. absurd (cc q)) e

pub Select-cases :
    (s : Select)
    → ((w : Waiting) × (code : ErrorCode) × (s ≡ returns w code)) ⊎ ((w : Waiting) × (s ≡ waits w))
Select-cases (returns w code) = inl (w, code, refl)
Select-cases (waits w) = inr (w, refl)

select_loop-LoopOk :
    (w : Waiting) (es : List ProcessEvent) (w' : Waiting) (code : ErrorCode)
    → LoopOk w
    → select_loop w es ≡ some (w', code)
    → LoopOk w'
unfolding select_loop
select_loop-LoopOk w [] w' code v e =
    elim (Bool-cases (not w.read_finished || not w.write_finished)) [
      | inl unfinished ↦ absurd (cc (rw (unfinished, select_loop) at e))
      | inr finished ↦
          let same : w ≡ w' = cc (rw (finished, select_loop) at e) in subst LoopOk same v
    ]
select_loop-LoopOk w (e ∷ es) w' code v h =
    elim (Bool-cases (not w.read_finished || not w.write_finished)) [
      | inr finished ↦
          let same : w ≡ w' = cc (rw (finished, select_loop) at h) in subst LoopOk same v
      | inl unfinished ↦ elim (Bool-cases (is_ready w e)) [
        | inr passed ↦ select_loop-LoopOk w es w' code v (rw (unfinished, passed, select_loop) at h)
        | inl ready ↦
            let kept = select_event-Kept w e ready v in
            elim (Select-cases (select_event w e)) [
              | inl (next, code', k) ↦
                  let same : next ≡ w' = cc (rw (unfinished, ready, k, select_loop) at h) in
                  subst LoopOk same (rw k at kept)
              | inr (next, k) ↦
                  select_loop-LoopOk next es w' code (rw k at kept)
                    (rw (unfinished, ready, k, select_loop) at h)
            ]
      ]
    ]

-- Wherever it ends, a capture whose process was started has waited for the process once, received
-- what each of its two goroutines sends once, and closed both pipes; it never kills a process that
-- it has waited for, and kills none where it has no error.
pub run_ffmpeg-Reaped :
    (decode : Bytes → Option (ℤ × ℤ)) (es : List ProcessEvent) (a : Answers) (r : FfmpegResult)
    → run_ffmpeg decode started es a ≡ some r
    → Reaped r
unfolding run_ffmpeg
run_ffmpeg-Reaped decode es a r e = elim (Option-cases (select_loop begun es)) [
  | inl blocked ↦ absurd (cc (rw (blocked, run_ffmpeg) at e))
  | inr ((w, code), k) ↦
      after_loop-Reaped decode a w code r (select_loop-LoopOk begun es w code begun-LoopOk k)
        (rw (k, run_ffmpeg) at e)
]
  where
    begun-LoopOk : LoopOk begun
    begun-LoopOk = ground arith
