-- ===== src/Snapshot/Decode.antt =====
-- `readBoundedJPEG` and `validateJPEG` of internal/nvrsnapshot/capture.go. The decoder of the
-- standard library is a parameter that gives the image's size.
pub mod Process
pub mod Limits
pub mod Reaped
pub mod Ends
use erzhuang_project.Prelude.{
  ℕ, ◌+◌, Bool, true, false, not, ◌&&◌, ◌||◌, List, [], ◌∷◌, ◌++◌, ◌==◌, if◌then◌else◌, length, ltb,
  Option, none, some,
}
use erzhuang_project.Prelude.Int.{ℤ, pos, negsuc}
use erzhuang_project.Snapshot.Rtp.{
  Bytes, ErrorCode, no_error, media_timeout, decode_failed, thumbnail_invalid,
}
use erzhuang_project.Snapshot.Capture.{Jpeg}

-- `1 << 20`
abbrev pub max_jpeg_bytes : ℕ
max_jpeg_bytes = 1048576

abbrev pub max_thumbnail_edge : ℕ
max_thumbnail_edge = 640

-- One return of `reader.Read`: bytes, with the error beside them.
pub data Read : Type 0 where
  more_data : Bytes → Read
  end_of_file : Bytes → Read
  read_error : Bytes → Read

-- What the goroutine that reads sends: `readResult`.
pub record ReadResult : Type 0 where
  pub bytes : Bytes
  pub too_large : Bool
  pub broken : Bool

abbrev too_large_result : ReadResult
too_large_result = record { bytes = []; too_large = true; broken = false }

-- `read > maxJPEGBytes-output.Len()`; nothing is too much for the bytes read so far.
abbrev pub exceeds : Bytes → Bytes → Bool
exceeds output chunk = not (length chunk == 0) && ltb max_jpeg_bytes (length output + length chunk)

-- `none` while the pipe has not ended.
unfoldable pub read_bounded_jpeg : Bytes → List Read → Option ReadResult
read_bounded_jpeg output [] = none
read_bounded_jpeg output (more_data chunk ∷ rs) =
    let rest = read_bounded_jpeg (output ++ chunk) rs in
    if exceeds output chunk then some too_large_result else rest
read_bounded_jpeg output (end_of_file chunk ∷ rs) =
    if exceeds output chunk
    then some too_large_result
    else some (record { bytes = output ++ chunk; too_large = false; broken = false })
read_bounded_jpeg output (read_error chunk ∷ rs) =
    if exceeds output chunk
    then some too_large_result
    else some (record { bytes = []; too_large = false; broken = true })

abbrev pub empty_jpeg : Jpeg
empty_jpeg = record { bytes = []; width = 0; height = 0 }

-- `width <= 0`
abbrev not_positive : ℤ → Bool
not_positive (pos n) = n == 0
not_positive (negsuc n) = true

-- `width > maxThumbnailEdge`
abbrev too_wide : ℤ → Bool
too_wide (pos n) = ltb max_thumbnail_edge n
too_wide (negsuc n) = false

abbrev size_of : ℤ → ℕ
size_of (pos n) = n
size_of (negsuc n) = 0

unfoldable pub validate_jpeg : (Bytes → Option (ℤ × ℤ)) → Bytes → Jpeg × ErrorCode
validate_jpeg decode [] = (empty_jpeg, decode_failed)
validate_jpeg decode (b ∷ bs) = elim (decode (b ∷ bs)) [
  | none ↦ (empty_jpeg, decode_failed)
  | some (width, height) ↦
      if not_positive width || not_positive height
      then (empty_jpeg, decode_failed)
      else if too_wide width || too_wide height || ltb max_jpeg_bytes (length (b ∷ bs))
      then (empty_jpeg, thumbnail_invalid)
      else (record { bytes = b ∷ bs; width = size_of width; height = size_of height }, no_error)
]
