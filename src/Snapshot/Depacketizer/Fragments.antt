-- ===== src/Snapshot/Depacketizer/Fragments.antt =====
-- A unit cut into the fragments of RFC 7798 section 4.4.3, and their packets.
use erzhuang_project.Prelude.{
  ℕ, ◌+◌, ◌*◌, ◌/◌, ◌%◌, ◌<◌, ◌≢◌, Bool, true, false, List, [], ◌∷◌, ◌++◌, if◌then◌else◌, Option,
  none,
}
use erzhuang_project.Snapshot.Rtp.{Bytes, RtpPacket, ErrorCode, no_error}
use erzhuang_project.Snapshot.Rtp.RoundTrip.{encode_rtp}
use erzhuang_project.Snapshot.Depacketizer.{next_sequence}

-- What stays the same over the fragments of one unit: its two header bytes, the timestamp, and
-- the stream's source identifier.
pub record Unit265 : Type 0 where
  pub h0 : ℕ
  pub h1 : ℕ
  pub timestamp : ℕ
  pub s0 : ℕ
  pub s1 : ℕ
  pub s2 : ℕ
  pub s3 : ℕ

-- The header's first byte is one, and its type is no aggregation, fragmentation or PACI.
pub record IsUnit (u : Unit265) : Type 0 where
  pub byte : u.h0 < 256
  pub no_ap : u.h0 / 2 % 64 ≢ 48
  pub no_fu : u.h0 / 2 % 64 ≢ 49
  pub no_paci : u.h0 / 2 % 64 ≢ 50

-- Type 49 in place of the unit's.
abbrev pub indicator : Unit265 → ℕ
indicator u = u.h0 / 128 * 128 + 98 + u.h0 % 2

abbrev pub fu_header : Unit265 → Bool → Bool → ℕ
fu_header u start end = (if start then 128 else 0) + (if end then 64 else 0) + u.h0 / 2 % 64

abbrev pub fu_payload : Unit265 → Bool → Bool → Bytes → Bytes
fu_payload u start end fragment = indicator u ∷ u.h1 ∷ fu_header u start end ∷ fragment

abbrev pub fu_fields : Unit265 → ℕ → Bool → Bool → Bytes → RtpPacket
fu_fields u sequence start end fragment = record {
  sequence_number = sequence;
  timestamp = u.timestamp;
  marker = end;
  payload = fu_payload u start end fragment;
}

abbrev pub fu_packet : Unit265 → ℕ → Bool → Bool → Bytes → Bytes
fu_packet u sequence start end fragment =
    encode_rtp (fu_fields u sequence start end fragment) u.s0 u.s1 u.s2 u.s3

-- The fragments behind the first, the last of them marked.
abbrev pub later_packets : Unit265 → ℕ → List Bytes → Bytes → List Bytes
later_packets u sequence [] last = fu_packet u sequence false true last ∷ []
later_packets u sequence (f ∷ fs) last =
    fu_packet u sequence false false f ∷ later_packets u (next_sequence sequence) fs last

abbrev pub concat : List Bytes → Bytes → Bytes
concat [] last = last
concat (f ∷ fs) last = f ++ concat fs last

abbrev pub pending : List Bytes → List (Option Bytes × ErrorCode) → List (Option Bytes × ErrorCode)
pending [] results = results
pending (f ∷ fs) results = (none, no_error) ∷ pending fs results

abbrev pub IsNonempty : Bytes → Type 0
IsNonempty f = f ≢ []
