-- ===== src/Snapshot/Decode/Limits.antt =====
-- What comes out of ffmpeg, and what is accepted as a thumbnail.
use erzhuang_project.Prelude.{
  ◌≤◌, ◌<◌, ◌≡◌, ◌≢◌, refl, Bool, true, false, List, [], ◌∷◌, ◌++◌, append_assoc, length,
  length-append, Option, none, some, arith, ap, subst, ◌∙◌, inl, inr, Option-cases,
}
use erzhuang_project.Prelude.Int.{ℤ, pos, negsuc}
use erzhuang_project.Snapshot.Rtp.{Bytes, ErrorCode, no_error, decode_failed}
use erzhuang_project.Snapshot.Capture.{Jpeg}
use erzhuang_project.Snapshot.Decode.{
  Read, more_data, end_of_file, read_error, ReadResult, read_bounded_jpeg, empty_jpeg,
  validate_jpeg,
}
use erzhuang_project.Snapshot.Decode.Process.{
  ProcessEvent, Waiting, select_loop, Started, started, no_command, no_stdin, no_stdout,
  start_failed, Answers, FfmpegResult, shutdown, shut, waited_for, after_loop, begun, run_ffmpeg,
}

-- A thumbnail within the limits, which the decoder gives the stated size.
pub record IsThumbnail (decode : Bytes → Option (ℤ × ℤ)) (j : Jpeg) : Type 0 where
  pub decoded : decode j.bytes ≡ some (pos j.width, pos j.height)
  pub not_empty : j.bytes ≢ []
  pub small : length j.bytes ≤ 1048576
  pub wide : (0 < j.width) × (j.width ≤ 640)
  pub high : (0 < j.height) × (j.height ≤ 640)

validate_jpeg-IsThumbnail :
    (decode : Bytes → Option (ℤ × ℤ)) (data' : Bytes)
    → (validate_jpeg decode data').1 ≡ no_error
    → IsThumbnail decode (validate_jpeg decode data').0
unfolding validate_jpeg
validate_jpeg-IsThumbnail decode [] e = absurd (cc e)
validate_jpeg-IsThumbnail decode (b ∷ bs) e = go (decode (b ∷ bs)) refl
  where
    go :
        (o : Option (ℤ × ℤ))
        → decode (b ∷ bs) ≡ o
        → IsThumbnail decode (validate_jpeg decode (b ∷ bs)).0
    go none d = absurd (ground arith)
    go (some (pos w, pos h)) d = ground arith
    go (some (negsuc w, h)) d = absurd (ground arith)
    go (some (pos w, negsuc h)) d = absurd (ground arith)

shut-IsThumbnail :
    (decode : Bytes → Option (ℤ × ℤ)) (a : Answers) (waited : Bool) (w : Waiting)
    (result : Jpeg × ErrorCode) (r : FfmpegResult)
    → (result.1 ≡ no_error → IsThumbnail decode result.0)
    → shut a waited w result ≡ some r
    → r.code ≡ no_error
    → IsThumbnail decode r.jpeg
unfolding shut
shut-IsThumbnail decode a waited w (j, code) r v e h = elim (Option-cases (shutdown a waited w)) [
  | inl blocked ↦ absurd (cc (rw (blocked, shut) at e))
  | inr (actions, k) ↦
      let out : FfmpegResult = record { jpeg = j; code = code; actions = actions } in
      let same : some out ≡ some r = rw (k, shut) at e in
      let is_it : out ≡ r = cc same in
      let code_eq : code ≡ no_error = ap (λ (o : FfmpegResult). o.code) is_it ∙ h in
      subst (λ (o : FfmpegResult). IsThumbnail decode o.jpeg) is_it (v code_eq)
]

after_loop-IsThumbnail :
    (decode : Bytes → Option (ℤ × ℤ)) (a : Answers) (w : Waiting) (code : ErrorCode)
    (r : FfmpegResult)
    → after_loop decode a w code ≡ some r
    → r.code ≡ no_error
    → IsThumbnail decode r.jpeg
unfolding after_loop
after_loop-IsThumbnail decode a w no_error r e h = elim (Option-cases a.waited) [
  | inl blocked ↦ absurd (cc (rw (blocked, after_loop) at e))
  | inr (true, k) ↦
      shut-IsThumbnail decode a true (waited_for w) (empty_jpeg, decode_failed) r
        (λ q. absurd (cc q)) (rw (k, after_loop) at e) h
  | inr (false, k) ↦
      shut-IsThumbnail decode a true (waited_for w) (validate_jpeg decode w.output) r
        (validate_jpeg-IsThumbnail decode w.output) (rw (k, after_loop) at e) h
]
after_loop-IsThumbnail decode a w code r e h =
    shut-IsThumbnail decode a false w (empty_jpeg, code) r (λ q. absurd (cc q)) e h

-- Whatever ffmpeg's pipes deliver in whatever order, a capture without an error is an image that
-- the decoder accepts, of the stated width and height, each at most 640, and at most 1 MiB.
pub run_ffmpeg-IsThumbnail :
    (decode : Bytes → Option (ℤ × ℤ)) (s : Started) (events : List ProcessEvent) (a : Answers)
    (r : FfmpegResult)
    → run_ffmpeg decode s events a ≡ some r
    → r.code ≡ no_error
    → IsThumbnail decode r.jpeg
unfolding run_ffmpeg
run_ffmpeg-IsThumbnail decode started events a r e h =
    elim (Option-cases (select_loop begun events)) [
      | inl blocked ↦ absurd (cc (rw (blocked, run_ffmpeg) at e))
      | inr ((w, code), k) ↦ after_loop-IsThumbnail decode a w code r (rw (k, run_ffmpeg) at e) h
    ]
run_ffmpeg-IsThumbnail decode no_command events a r e h = absurd (cc (e, h))
run_ffmpeg-IsThumbnail decode no_stdin events a r e h = absurd (cc (e, h))
run_ffmpeg-IsThumbnail decode no_stdout events a r e h = absurd (cc (e, h))
run_ffmpeg-IsThumbnail decode start_failed events a r e h = absurd (cc (e, h))

-- All bytes of the reads, up to the end.
abbrev pub delivered : List Read → Bytes
delivered [] = []
delivered (more_data c ∷ rs) = c ++ delivered rs
delivered (end_of_file c ∷ rs) = c
delivered (read_error c ∷ rs) = c

-- A result that is too large, broken or whole, of all the bytes that were delivered.
abbrev Told : Bool → Bool → Bytes → Bytes → Type 0
Told true broken bytes all = 1048576 < length all
Told false true bytes all = bytes ≡ []
Told false false bytes all = bytes ≡ all

abbrev pub IsBounded : Bytes → List Read → Option ReadResult → Type 0
IsBounded output rs none = Unit {0}
IsBounded output rs (some r) =
    (length r.bytes ≤ 1048576) × Told r.too_large r.broken r.bytes (output ++ delivered rs)

-- From at most 1 MiB read so far, the output of ffmpeg, once it ends, is read whole if it is not
-- too large or broken, is reported as too large only if it exceeds 1 MiB, and no more than 1 MiB
-- is ever returned.
pub read_bounded_jpeg-IsBounded :
    (output : Bytes) (rs : List Read)
    → length output ≤ 1048576
    → IsBounded output rs (read_bounded_jpeg output rs)
unfolding read_bounded_jpeg
read_bounded_jpeg-IsBounded output [] h = tt
read_bounded_jpeg-IsBounded output (more_data c ∷ rs) h = ground (
  arith,
  length-append output c,
  length-append c (delivered rs),
  length-append output (c ++ delivered rs),
  append_assoc output c (delivered rs),
  read_bounded_jpeg-IsBounded (output ++ c) rs,
)
read_bounded_jpeg-IsBounded output (end_of_file c ∷ rs) h = ground (arith, length-append output c)
read_bounded_jpeg-IsBounded output (read_error c ∷ rs) h = ground (arith, length-append output c)
