-- ===== src/Tests/Media.antt =====
-- Snapshots: packets, units and thumbnails by hand.
use erzhuang_project.Prelude.{
  ℕ, ◌*◌, ◌≡◌, ◌≢◌, refl, Bool, true, false, List, [], ◌∷◌, ◌++◌, Option, none, some, arith,
}
use erzhuang_project.Prelude.Int.{ℤ, pos}
use erzhuang_project.Snapshot.Rtp.{Bytes, RtpPacket, no_error, parse_rtp}
use erzhuang_project.Snapshot.Rtp.RoundTrip.{encode_rtp, parse_rtp-encode_rtp, parse_rtp_sound}
use erzhuang_project.Snapshot.Depacketizer.{
  feed_rtp_with_metadata, new_depacketizer, Depacketizer, new_depacketizer_with_max_bytes, feed_rtp,
  feed_h265, reset, annex_b, next_sequence,
}
use erzhuang_project.Snapshot.Depacketizer.Invariant.{
  FeedContract, feed_rtp-FeedContract, feed_all, new_depacketizer-IsWellFormed,
}
use erzhuang_project.Snapshot.Depacketizer.Fragments.{Unit265, fu_packet, later_packets, pending}
use erzhuang_project.Snapshot.Depacketizer.RoundTrip.{feed_all-fragments}
use erzhuang_project.Snapshot.Capture.{
  take_message, Jpeg, Message, binary, media, read_messages, new_reader,
}
use erzhuang_project.Prelude.Text.{Text, text, trim_space, is_space}
use erzhuang_project.Snapshot.Capture.{wired, service_capture, whitelist_capture_code}
use erzhuang_project.Snapshot.Decode.Reaped.{Reaped, run_ffmpeg-Reaped}
use erzhuang_project.Snapshot.Capture.Media.{IsMedia, read_messages-IsMedia}
use erzhuang_project.Snapshot.AccessUnit.{
  parameter_set_index, h265_nal_type, accepts_timestamp, is_h265_key_frame, has_all_parameter_sets,
  replace_parameter_set, combine_access_unit,
}
use erzhuang_project.Snapshot.Decode.{validate_jpeg}
use erzhuang_project.Snapshot.Decode.Process.{
  select_event, ProcessEvent, read_done, write_done, started, run_ffmpeg, Answers, FfmpegResult,
  close_stdin, close_stdout, wait, receive_read, receive_write,
}
use erzhuang_project.Snapshot.Decode.Limits.{IsThumbnail, run_ffmpeg-IsThumbnail}

-- Sequence number 65535, timestamp 3000, with the marker.
abbrev key_packet : RtpPacket
key_packet = record {
  sequence_number = 65535;
  timestamp = 3000;
  marker = true;
  payload = 38 ∷ 1 ∷ 7 ∷ [];
}

parse_rtp-encode_rtp_example : parse_rtp (encode_rtp key_packet 1 2 3 4) ≡ (key_packet, no_error)
parse_rtp-encode_rtp_example = parse_rtp-encode_rtp key_packet 1 2 3 4 (ground arith)

abbrev key_bytes : Bytes
key_bytes = 128 ∷ 224 ∷ 255 ∷ 255 ∷ 0 ∷ 0 ∷ 11 ∷ 184 ∷ 1 ∷ 2 ∷ 3 ∷ 4 ∷ 38 ∷ 1 ∷ 7 ∷ []

parse_rtp_sound_example :
    (s0 : ℕ) × (s1 : ℕ) × (s2 : ℕ) × (s3 : ℕ) × (key_bytes
      ≡ encode_rtp (parse_rtp key_bytes).0 s0 s1 s2 s3)
    × ((parse_rtp key_bytes).0.payload ≢ [])
unfolding parse_rtp
parse_rtp_sound_example = parse_rtp_sound key_bytes (ground arith) refl

abbrev small_depacketizer : Depacketizer
small_depacketizer = new_depacketizer_with_max_bytes (pos 100)

feed_rtp-FeedContract_example :
    FeedContract small_depacketizer (feed_rtp small_depacketizer key_bytes)
feed_rtp-FeedContract_example =
    feed_rtp-FeedContract small_depacketizer key_bytes (new_depacketizer-IsWellFormed (pos 100))

abbrev key_unit : Unit265
key_unit = record { h0 = 38; h1 = 1; timestamp = 3000; s0 = 1; s1 = 2; s2 = 3; s3 = 4 }

-- Three fragments, over the wrap of the sequence number.
feed_all-fragments_example :
    feed_all small_depacketizer (
      fu_packet key_unit 65534 true false (7 ∷ 8 ∷ [])
      ∷ later_packets key_unit (next_sequence 65534) ((9 ∷ []) ∷ []) (10 ∷ 11 ∷ []))
    ≡ (
      reset small_depacketizer,
      (none, no_error)
          ∷ pending
              ((9 ∷ []) ∷ [])
              ((some (annex_b (38 ∷ 1 ∷ (7 ∷ 8 ∷ 9 ∷ 10 ∷ 11 ∷ []))), no_error) ∷ []),
    )
unfolding new_depacketizer_with_max_bytes
feed_all-fragments_example =
    feed_all-fragments small_depacketizer key_unit 65534 (7 ∷ 8 ∷ []) ((9 ∷ []) ∷ []) (10 ∷ 11 ∷ [])
      (record {
        byte = ground arith;
        no_ap = ground arith;
        no_fu = ground arith;
        no_paci = ground arith;
      })
      (ground arith) (ground arith) (ground arith) (ground arith) (ground arith)

abbrev packet_of : Bool → ℕ → ℕ → Message
packet_of marker number type = binary (
    encode_rtp
      (record {
        sequence_number = number;
        timestamp = 3000;
        marker = marker;
        payload = 2 * type ∷ 1 ∷ 5 ∷ [];
      })
      1 2 3 4)

-- The three parameter sets and a key frame.
abbrev four_messages : List Message
four_messages =
    packet_of false 1 32 ∷ packet_of false 2 33 ∷ packet_of false 3 34 ∷ packet_of true 4 19 ∷ []

abbrev four_units : Bytes
four_units =
    annex_b (64 ∷ 1 ∷ 5 ∷ [])
    ++ annex_b (66 ∷ 1 ∷ 5 ∷ [])
    ++ annex_b (68 ∷ 1 ∷ 5 ∷ [])
    ++ annex_b (38 ∷ 1 ∷ 5 ∷ [])

four_messages-media : read_messages new_reader four_messages ≡ media four_units
unfolding read_messages new_reader take_message feed_rtp_with_metadata parse_rtp feed_h265
    new_depacketizer parameter_set_index h265_nal_type accepts_timestamp is_h265_key_frame
    has_all_parameter_sets replace_parameter_set combine_access_unit
four_messages-media = refl

read_messages-IsMedia_example : IsMedia four_units
read_messages-IsMedia_example = read_messages-IsMedia four_messages four_messages-media

abbrev any_size : Bytes → Option (ℤ × ℤ)
any_size b = some (pos 320, pos 180)

abbrev good_run : List ProcessEvent
good_run =
    write_done false false
    ∷ read_done (record { bytes = 255 ∷ 216 ∷ []; too_large = false; broken = false })
    ∷ []

abbrev good_jpeg : Jpeg
good_jpeg = record { bytes = 255 ∷ 216 ∷ []; width = 320; height = 180 }

-- A process that answers, and that ends without an error.
abbrev answers : Answers
answers = record { waited = some false; killed = true; reader_sends = true; writer_sends = true }

abbrev good_outcome : FfmpegResult
good_outcome = record {
  jpeg = good_jpeg;
  code = no_error;
  actions = close_stdout ∷ close_stdin ∷ wait ∷ receive_read ∷ close_stdin ∷ receive_write ∷ [];
}

good_run-outcome : run_ffmpeg any_size started good_run answers ≡ some good_outcome
unfolding run_ffmpeg select_event validate_jpeg
good_run-outcome = refl

run_ffmpeg-IsThumbnail_example : IsThumbnail any_size good_jpeg
run_ffmpeg-IsThumbnail_example =
    run_ffmpeg-IsThumbnail any_size started good_run answers good_outcome good_run-outcome refl

run_ffmpeg-Reaped_example : Reaped good_outcome
run_ffmpeg-Reaped_example =
    run_ffmpeg-Reaped any_size good_run answers good_outcome good_run-outcome

abbrev address : Text
address = text "wss://camera"

authorized-jpeg :
    (service_capture good_jpeg wired (address, no_error) (λ url. (good_jpeg, no_error))).1
    ≡ no_error
unfolding service_capture whitelist_capture_code trim_space is_space
authorized-jpeg = refl
