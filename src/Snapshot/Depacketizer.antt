-- ===== src/Snapshot/Depacketizer.antt =====
-- `Depacketizer` of internal/nvrsnapshot/depacketizer.go: one H.265 fragmentation unit at a time.
-- A method returns the new state beside its results; a nil NAL is `none`.
pub mod Invariant
pub mod Fragments
pub mod RoundTrip
use erzhuang_project.Prelude.{
  ℕ, ◌+◌, ◌-◌, ◌*◌, ◌/◌, ◌%◌, ◌^◌, Bool, true, false, not, ◌&&◌, ◌||◌, List, [], ◌∷◌, ◌++◌, ◌==◌,
  if◌then◌else◌, length, ltb, leb, Option, none, some,
}
use erzhuang_project.Prelude.Int.{ℤ, pos_part}
use erzhuang_project.Snapshot.Rtp.{
  Bytes, ErrorCode, no_error, demux_failed, RtpPacket, parse_rtp, bit7, bit6,
}

abbrev pub h265_ap_type : ℕ
h265_ap_type = 48

abbrev pub h265_fu_type : ℕ
h265_fu_type = 49

abbrev pub h265_paci_type : ℕ
h265_paci_type = 50

abbrev pub default_max_fu_bytes : ℕ
default_max_fu_bytes = 4194304

-- `int(^uint(0)>>1) - 4`, on a 64-bit platform.
abbrev pub max_annex_b_nal_bytes : ℕ
max_annex_b_nal_bytes = 9223372036854775803

pub record DepacketizedNal : Type 0 where
  pub nal : Option Bytes
  pub timestamp : ℕ
  pub marker : Bool

pub record Depacketizer : Type 0 where
  pub fu_active : Bool
  pub next_seq : ℕ  -- uint16
  pub fu_indicator0 : ℕ
  pub fu_indicator1 : ℕ
  pub fu_type : ℕ
  pub fu_timestamp : ℕ  -- uint32
  pub buffer : Bytes
  pub max_bytes : ℕ

unfoldable pub new_depacketizer_with_max_bytes : ℤ → Depacketizer
new_depacketizer_with_max_bytes max_bytes = record {
  fu_active = false;
  next_seq = 0;
  fu_indicator0 = 0;
  fu_indicator1 = 0;
  fu_type = 0;
  fu_timestamp = 0;
  buffer = [];
  max_bytes = pos_part max_bytes;
}

unfoldable pub new_depacketizer : Depacketizer
unfolding new_depacketizer_with_max_bytes
new_depacketizer = new_depacketizer_with_max_bytes (ℤ.pos default_max_fu_bytes)

unfoldable pub reset : Depacketizer → Depacketizer
reset d = record d {
  fu_active = false;
  next_seq = 0;
  fu_indicator0 = 0;
  fu_indicator1 = 0;
  fu_type = 0;
  fu_timestamp = 0;
  buffer = [];
}

-- The Annex-B start code in front of the unit.
abbrev pub annex_b : Bytes → Bytes
annex_b nal = 0 ∷ 0 ∷ 0 ∷ 1 ∷ nal

-- Lengths are never negative here.
unfoldable pub fits_nal_bytes : Depacketizer → ℕ → ℕ → Bool
fits_nal_bytes d prefix suffix =
    let limit =
      if ltb max_annex_b_nal_bytes d.max_bytes then max_annex_b_nal_bytes else d.max_bytes in
    leb prefix limit && leb suffix (limit - prefix)

-- What a method of the depacketizer leaves and returns.
abbrev pub Fed : Type 0
Fed = Depacketizer × Option Bytes × ErrorCode

abbrev pub refuse : Depacketizer → Fed
refuse d = (reset d, none, demux_failed)

unfoldable pub finish_fu : Depacketizer → Fed
finish_fu d = (reset d, some (annex_b d.buffer), no_error)

-- uint16 arithmetic.
abbrev pub next_sequence : ℕ → ℕ
next_sequence sequence = (sequence + 1) % 65536

-- `(fuType<<1)|(payload[0]&0x81)`: the type in bits 1 to 6, bits 7 and 0 of the indicator.
abbrev pub nal_header : ℕ → ℕ → ℕ
nal_header fu_type i0 = (i0 / 128) % 2 * 128 + fu_type * 2 + i0 % 2

-- `if d.fuActive { d.reset() }`
abbrev pub abandon : Depacketizer → Depacketizer
abandon d = if d.fu_active then reset d else d

-- The branch of a unit that is no fragment.
feed_single : Depacketizer → Bytes → Fed
unfolding reset fits_nal_bytes
feed_single d payload =
    let d' = abandon d in
    if not (fits_nal_bytes d' 0 (length payload))
    then (d', none, demux_failed)
    else (d', some (annex_b payload), no_error)

-- The branch of a start fragment.
feed_start : Depacketizer → ℕ → ℕ → ℕ → ℕ → ℕ → Bytes → Fed
unfolding reset fits_nal_bytes finish_fu
feed_start d sequence timestamp i0 i1 fu_header fragment =
    let fu_type = fu_header % 64 in
    let d' = abandon d in
    if fu_type == h265_ap_type || fu_type == h265_fu_type || fu_type == h265_paci_type
    then refuse d'
    else if not (fits_nal_bytes d' 2 (length fragment))
    then refuse d'
    else (let started = record d' {
      buffer = nal_header fu_type i0 ∷ i1 ∷ fragment;
      fu_active = true;
      next_seq = next_sequence sequence;
      fu_indicator0 = i0;
      fu_indicator1 = i1;
      fu_type = fu_type;
      fu_timestamp = timestamp;
    } in
        if not (bit6 fu_header) then (started, none, no_error) else finish_fu started)

-- The branch of a later fragment.
feed_continuation : Depacketizer → ℕ → ℕ → ℕ → ℕ → ℕ → Bytes → Fed
unfolding reset fits_nal_bytes finish_fu
feed_continuation d sequence timestamp i0 i1 fu_header fragment =
    if not d.fu_active || not (sequence == d.next_seq)
    then refuse d
    else if not (i0 == d.fu_indicator0)
        || not (i1 == d.fu_indicator1)
        || not (fu_header % 64 == d.fu_type)
        || not (timestamp == d.fu_timestamp)
    then refuse d
    else if not (fits_nal_bytes d (length d.buffer) (length fragment))
    then refuse d
    else (let grown = record d {
      buffer = d.buffer ++ fragment;
      next_seq = next_sequence sequence;
    } in
        if not (bit6 fu_header) then (grown, none, no_error) else finish_fu grown)

-- `len(payload) < 4`, with the indicator taken off.
feed_fu : Depacketizer → ℕ → ℕ → ℕ → ℕ → Bytes → Fed
unfolding reset feed_start feed_continuation
feed_fu d sequence timestamp i0 i1 (fu_header ∷ f ∷ fs) =
    if bit7 fu_header
    then feed_start d sequence timestamp i0 i1 fu_header (f ∷ fs)
    else feed_continuation d sequence timestamp i0 i1 fu_header (f ∷ fs)
feed_fu d sequence timestamp i0 i1 _ = refuse d

-- `nalType := (payload[0] >> 1) & 0x3f`
unfoldable pub feed_h265 : Depacketizer → ℕ → ℕ → Bytes → Fed
unfolding reset feed_single feed_fu
feed_h265 d sequence timestamp (i0 ∷ i1 ∷ rest) =
    let nal_type = (i0 / 2) % 64 in
    if nal_type == h265_ap_type || nal_type == h265_paci_type
    then refuse d
    else if not (nal_type == h265_fu_type)
    then feed_single d (i0 ∷ i1 ∷ rest)
    else feed_fu d sequence timestamp i0 i1 rest
feed_h265 d sequence timestamp _ = refuse d

abbrev pub empty_nal : DepacketizedNal
empty_nal = record { nal = none; timestamp = 0; marker = false }

abbrev pub no_code : ErrorCode → Bool
no_code no_error = true
no_code _ = false

unfoldable pub feed_rtp_with_metadata :
    Depacketizer → Bytes → Depacketizer × DepacketizedNal × ErrorCode
unfolding reset
feed_rtp_with_metadata d packet =
    let (rtp, code) = parse_rtp packet in
    if not (no_code code)
    then (reset d, empty_nal, code)
    else (let (d', nal, code') = feed_h265 d rtp.sequence_number rtp.timestamp rtp.payload in
        if not (no_code code')
        then (d', empty_nal, code')
        else (d', record { nal = nal; timestamp = rtp.timestamp; marker = rtp.marker }, no_error))

unfoldable pub feed_rtp : Depacketizer → Bytes → Fed
unfolding feed_rtp_with_metadata
feed_rtp d packet =
    let (d', result, code) = feed_rtp_with_metadata d packet in (d', result.nal, code)
