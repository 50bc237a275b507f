-- ===== src/Snapshot/Rtp/RoundTrip.antt =====
-- `ParseRTP` against the layout of an RTP packet, RFC 3550 section 5.1, without its options.
use erzhuang_project.Prelude.{ℕ, ◌/◌, ◌%◌, ◌<◌, ◌≡◌, ◌≢◌, [], ◌∷◌, arith, if◌then◌else◌, All}
use erzhuang_project.Snapshot.Rtp.{Bytes, RtpPacket, no_error, parse_rtp}

abbrev pub IsByte : ℕ → Type 0
IsByte b = b < 256

-- A packet of version 2 and payload type 96 with source identifier `s0 s1 s2 s3`.
abbrev pub encode_rtp : RtpPacket → ℕ → ℕ → ℕ → ℕ → Bytes
encode_rtp p s0 s1 s2 s3 =
    128
    ∷ (if p.marker then 224 else 96)
    ∷ p.sequence_number / 256
    ∷ p.sequence_number % 256
    ∷ p.timestamp / 16777216
    ∷ p.timestamp / 65536 % 256
    ∷ p.timestamp / 256 % 256
    ∷ p.timestamp % 256
    ∷ s0
    ∷ s1
    ∷ s2
    ∷ s3
    ∷ p.payload

-- Every RTP packet of this layout with a payload is read back as it was encoded.
pub parse_rtp-encode_rtp :
    (p : RtpPacket) (s0 s1 s2 s3 : ℕ)
    → p.payload ≢ []
    → parse_rtp (encode_rtp p s0 s1 s2 s3) ≡ (p, no_error)
unfolding parse_rtp
parse_rtp-encode_rtp p s0 s1 s2 s3 ne = ground arith

-- A packet of bytes that ParseRTP accepts is the encoding of what it returned, with some source
-- identifier and a payload that is not empty.
pub parse_rtp_sound :
    (packet : Bytes)
    → All IsByte packet
    → (parse_rtp packet).1 ≡ no_error
    → (s0 : ℕ) × (s1 : ℕ) × (s2 : ℕ) × (s3 : ℕ) × (packet
        ≡ encode_rtp (parse_rtp packet).0 s0 s1 s2 s3)
      × ((parse_rtp packet).0.payload ≢ [])
unfolding parse_rtp
parse_rtp_sound (p0 ∷ p1 ∷ p2 ∷ p3 ∷ p4 ∷ p5 ∷ p6 ∷ p7 ∷ p8 ∷ p9 ∷ p10 ∷ p11 ∷ rest) b h =
    (p8, p9, p10, p11, ground arith, ground arith)
parse_rtp_sound _ b h = absurd (cc h)
