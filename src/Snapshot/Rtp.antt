-- ===== src/Snapshot/Rtp.antt =====
-- `ParseRTP` of internal/nvrsnapshot/depacketizer.go, and the bit fields of a byte.
-- A byte is a number below 256; shifts, masks and disjoint ors are written as arithmetic.
pub mod RoundTrip
use erzhuang_project.Prelude.Text.{Text}
use erzhuang_project.Prelude.{
  ℕ, ◌+◌, ◌*◌, ◌/◌, ◌%◌, Bool, not, ◌||◌, List, [], ◌∷◌, ◌==◌, if◌then◌else◌, length, ltb,
}

abbrev pub Bytes : Type 0
Bytes = List ℕ

abbrev pub rtp_version : ℕ
rtp_version = 2

abbrev pub rtp_header_size : ℕ
rtp_header_size = 12

abbrev pub h265_video_payload_type : ℕ
h265_video_payload_type = 96

-- `no_error` is the empty code; `unlisted` is any text but the named codes, which only a dependency
-- can give.
pub data ErrorCode : Type 0 where
  no_error demux_failed media_timeout authorization_failed wss_connect_failed : ErrorCode
  wss_connect_timeout decode_failed thumbnail_invalid : ErrorCode
  unlisted : Text → ErrorCode

pub record RtpPacket : Type 0 where
  pub sequence_number : ℕ
  pub timestamp : ℕ
  pub marker : Bool
  pub payload : Bytes

-- `b & 0x80 != 0`
abbrev pub bit7 : ℕ → Bool
bit7 b = (b / 128) % 2 == 1

-- `b & 0x40 != 0`
abbrev pub bit6 : ℕ → Bool
bit6 b = (b / 64) % 2 == 1

abbrev pub empty_packet : RtpPacket
empty_packet = record { sequence_number = 0; timestamp = 0; marker = Bool.false; payload = [] }

-- The header's twelve bytes have been taken off; `rest` is `packet[rtpHeaderSize:]`.
-- `p0 & (0x20|0x10|0x0f)` is `p0 % 64`, and `p1 & 0x7f` is `p1 % 128`.
parse_fields : ℕ → ℕ → ℕ → ℕ → ℕ → ℕ → ℕ → ℕ → Bytes → RtpPacket × ErrorCode
parse_fields p0 p1 p2 p3 p4 p5 p6 p7 rest =
    if not (p0 / 64 == rtp_version)
    then (empty_packet, demux_failed)
    else if not (p0 % 64 == 0) || not (p1 % 128 == h265_video_payload_type)
    then (empty_packet, demux_failed)
    else if length rest == 0
    then (empty_packet, demux_failed)
    else (
      record {
        sequence_number = p2 * 256 + p3;
        timestamp = p4 * 16777216 + p5 * 65536 + p6 * 256 + p7;
        marker = bit7 p1;
        payload = rest;
      },
      no_error,
    )

-- Fewer than twelve bytes are refused.
unfoldable pub parse_rtp : Bytes → RtpPacket × ErrorCode
unfolding parse_fields
parse_rtp (p0 ∷ p1 ∷ p2 ∷ p3 ∷ p4 ∷ p5 ∷ p6 ∷ p7 ∷ p8 ∷ p9 ∷ p10 ∷ p11 ∷ rest) =
    parse_fields p0 p1 p2 p3 p4 p5 p6 p7 rest
parse_rtp _ = (empty_packet, demux_failed)
