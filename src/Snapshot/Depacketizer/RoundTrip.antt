-- ===== src/Snapshot/Depacketizer/RoundTrip.antt =====
-- Reassembly against the fragmentation of RFC 7798 section 4.4.3.
use erzhuang_project.Prelude.{
  ℕ, ◌+◌, ◌/◌, ◌%◌, ◌≤◌, ◌≡◌, ◌≢◌, refl, ◌∙◌, Bool, true, false, List, [], ◌∷◌, ◌++◌, append_assoc,
  arith, Bool-cases, inl, inr, ==_self, if◌then◌else◌, All, length, length-append, none, some,
}
use erzhuang_project.Snapshot.Rtp.{Bytes, RtpPacket, no_error, bit6, bit7}
use erzhuang_project.Snapshot.Rtp.RoundTrip.{encode_rtp, parse_rtp-encode_rtp}
use erzhuang_project.Snapshot.Depacketizer.{
  Depacketizer, Fed, annex_b, reset, fits_nal_bytes, feed_start, feed_continuation, feed_h265,
  feed_rtp, max_annex_b_nal_bytes, next_sequence, nal_header, abandon,
}
use erzhuang_project.Snapshot.Depacketizer.Invariant.{feed_all}
use erzhuang_project.Snapshot.Depacketizer.Fragments.{
  Unit265, IsUnit, indicator, fu_header, fu_fields, fu_packet, later_packets, concat, pending,
  IsNonempty,
}

-- The depacketizer in the middle of unit `u`, with `buffer` read and packet `sequence` to come.
abbrev assembling : ℕ → Unit265 → ℕ → Bytes → Depacketizer
assembling max u sequence buffer = record {
  fu_active = true;
  next_seq = sequence;
  fu_indicator0 = indicator u;
  fu_indicator1 = u.h1;
  fu_type = u.h0 / 2 % 64;
  fu_timestamp = u.timestamp;
  buffer = buffer;
  max_bytes = max;
}

-- An accepted packet is fed by its payload.
feed_rtp-encode :
    (d : Depacketizer) (p : RtpPacket) (s0 s1 s2 s3 : ℕ) {r : Fed}
    → p.payload ≢ []
    → feed_h265 d p.sequence_number p.timestamp p.payload ≡ r
    → r.2 ≡ no_error
    → feed_rtp d (encode_rtp p s0 s1 s2 s3) ≡ r
unfolding feed_rtp
feed_rtp-encode d p s0 s1 s2 s3 ne e ok = ground (arith, parse_rtp-encode_rtp p s0 s1 s2 s3)

-- The bit fields of the two bytes that the fragmentation adds.
indicator_fields :
    (u : Unit265)
    → IsUnit u
    → (indicator u / 2 % 64 ≡ 49) × (nal_header (u.h0 / 2 % 64) (indicator u) ≡ u.h0)
indicator_fields u v = (omega arith, omega arith)

fu_header_fields :
    (u : Unit265) (start end : Bool)
    → (bit7 (fu_header u start end) ≡ start)
      × (bit6 (fu_header u start end) ≡ end)
      × (fu_header u start end % 64 ≡ u.h0 / 2 % 64)
fu_header_fields u false false = (ground arith, ground arith, omega arith)
fu_header_fields u false true = (ground arith, ground arith, omega arith)
fu_header_fields u true false = (ground arith, ground arith, omega arith)
fu_header_fields u true true = (ground arith, ground arith, omega arith)

feed_h265-fu :
    (d : Depacketizer) (s t i0 i1 h f : ℕ) (fs : Bytes)
    → i0 / 2 % 64 ≡ 49
    → feed_h265 d s t (i0 ∷ i1 ∷ h ∷ f ∷ fs) ≡ (
        if bit7 h
        then feed_start d s t i0 i1 h (f ∷ fs)
        else feed_continuation d s t i0 i1 h (f ∷ fs))
unfolding feed_h265
feed_h265-fu d s t i0 i1 h f fs e = rw (e, feed_h265)

fits_nal_bytes_of_le :
    (d : Depacketizer) (m n : ℕ)
    → m + n ≤ d.max_bytes
    → d.max_bytes ≤ max_annex_b_nal_bytes
    → fits_nal_bytes d m n ≡ true
unfolding fits_nal_bytes
fits_nal_bytes_of_le d m n h small = ground arith

feed_start_lem :
    (d : Depacketizer) (s t i0 i1 h k : ℕ) (fragment : Bytes)
    → h % 64 ≡ k
    → bit6 h ≡ false
    → (k ≢ 48) × (k ≢ 49) × (k ≢ 50)
    → 2 + length fragment ≤ d.max_bytes
    → d.max_bytes ≤ max_annex_b_nal_bytes
    → feed_start d s t i0 i1 h fragment ≡ (
      record {
        fu_active = true;
        next_seq = next_sequence s;
        fu_indicator0 = i0;
        fu_indicator1 = i1;
        fu_type = k;
        fu_timestamp = t;
        buffer = nal_header k i0 ∷ i1 ∷ fragment;
        max_bytes = d.max_bytes;
      },
      none,
      no_error,
    )
unfolding feed_start
feed_start_lem d s t i0 i1 h k fragment e b types fits small = elim (Bool-cases d.fu_active) [
  | inl a ↦ ground (arith, fits_nal_bytes_of_le (abandon d) 2 (length fragment))
  | inr a ↦ ground (arith, fits_nal_bytes_of_le (abandon d) 2 (length fragment))
]

feed_continuation_lem :
    (max : ℕ) (u : Unit265) (s h : ℕ) (buffer fragment : Bytes)
    → h % 64 ≡ u.h0 / 2 % 64
    → length buffer + length fragment ≤ max
    → max ≤ max_annex_b_nal_bytes
    → feed_continuation (assembling max u s buffer) s u.timestamp (indicator u) u.h1 h fragment ≡ (
        if bit6 h
        then (reset (assembling max u s buffer), some (annex_b (buffer ++ fragment)), no_error)
        else (assembling max u (next_sequence s) (buffer ++ fragment), none, no_error))
unfolding feed_continuation
feed_continuation_lem max u s h buffer fragment e fits small =
    let w =
      fits_nal_bytes_of_le (assembling max u s buffer) (length buffer) (length fragment) fits
        small in
    rw
      (
        ==_self s,
        ==_self (indicator u),
        ==_self u.h1,
        e,
        ==_self (u.h0 / 2 % 64),
        ==_self u.timestamp,
        w,
      )
      (ground arith)

-- The three kinds of packets of a fragmented unit.
feed-first :
    (d : Depacketizer) (u : Unit265) (s : ℕ) (f : Bytes)
    → IsUnit u
    → IsNonempty f
    → 2 + length f ≤ d.max_bytes
    → d.max_bytes ≤ max_annex_b_nal_bytes
    → feed_rtp d (fu_packet u s true false f)
      ≡ (assembling d.max_bytes u (next_sequence s) (u.h0 ∷ u.h1 ∷ f), none, no_error)
feed-first d u s [] v ne fits small = absurd (ne refl)
feed-first d u s (f ∷ fs) v ne fits small =
    let h = fu_header u true false in
    let (is_start, not_end, type) = fu_header_fields u true false in
    let (fu, header) = indicator_fields u v in
    feed_rtp-encode d (fu_fields u s true false (f ∷ fs)) u.s0 u.s1 u.s2 u.s3 (λ e. cc)
      (feed_h265-fu d s u.timestamp (indicator u) u.h1 h f fs fu
        ∙ rw is_start (
            feed_start_lem d s u.timestamp (indicator u) u.h1 h (u.h0 / 2 % 64) (f ∷ fs) type
              not_end (v.no_ap, v.no_fu, v.no_paci) fits small
            ∙ rw header))
      refl

feed-later :
    (max : ℕ) (u : Unit265) (s : ℕ) (buffer f : Bytes) (end : Bool)
    → IsUnit u
    → IsNonempty f
    → length buffer + length f ≤ max
    → max ≤ max_annex_b_nal_bytes
    → feed_rtp (assembling max u s buffer) (fu_packet u s false end f) ≡ (
        if end
        then (reset (assembling max u s buffer), some (annex_b (buffer ++ f)), no_error)
        else (assembling max u (next_sequence s) (buffer ++ f), none, no_error))
feed-later max u s buffer [] end v ne fits small = absurd (ne refl)
feed-later max u s buffer (f ∷ fs) end v ne fits small =
    let h = fu_header u false end in
    let (not_start, is_end, type) = fu_header_fields u false end in
    feed_rtp-encode (assembling max u s buffer) (fu_fields u s false end (f ∷ fs)) u.s0 u.s1 u.s2
      u.s3 (λ e. cc)
      (feed_h265-fu _ s u.timestamp (indicator u) u.h1 h f fs (indicator_fields u v).0
        ∙ rw not_start
            (feed_continuation_lem max u s h buffer (f ∷ fs) type fits small ∙ rw is_end))
      (ok end)
  where
    ok :
        (b : Bool)
        → (if b
            then (reset (assembling max u s buffer), some (annex_b (buffer ++ f ∷ fs)), no_error)
            else let r : Fed =
                (assembling max u (next_sequence s) (buffer ++ f ∷ fs), none, no_error) in
              r).2
          ≡ no_error
    ok true = refl
    ok false = refl

feed_all-later :
    (max : ℕ) (u : Unit265) (s : ℕ) (buffer : Bytes) (fs : List Bytes) (last : Bytes)
    → IsUnit u
    → All IsNonempty fs
    → IsNonempty last
    → length buffer + length (concat fs last) ≤ max
    → max ≤ max_annex_b_nal_bytes
    → feed_all (assembling max u s buffer) (later_packets u s fs last) ≡ (
      reset (assembling max u s buffer),
      pending fs ((some (annex_b (buffer ++ concat fs last)), no_error) ∷ []),
    )
unfolding feed_all
feed_all-later max u s buffer [] last v nes ne fits small =
    rw (feed-later max u s buffer last true v ne fits small)
feed_all-later max u s buffer (f ∷ fs) last v nes ne fits small =
    rw
      (feed-later max u s buffer f false v nes.0 (omega (arith, length-append f (concat fs last)))
        small)
      (rw
        (feed_all-later max u (next_sequence s) (buffer ++ f) fs last v nes.1 ne
          (omega (arith, length-append f (concat fs last), length-append buffer f)) small)
        (rw (append_assoc buffer f (concat fs last)) (unfold reset in refl)))

-- A unit cut into two or more nonempty fragments, sent in consecutive packets, comes back whole
-- behind the start code with the last packet and not before, whatever the depacketizer was doing
-- and wherever the sequence numbers wrap, if it fits the limit and the limit is at most the
-- largest one; the depacketizer is then idle.
pub feed_all-fragments :
    (d : Depacketizer) (u : Unit265) (sequence : ℕ) (first : Bytes) (middle : List Bytes)
    (last : Bytes)
    → IsUnit u
    → IsNonempty first
    → All IsNonempty middle
    → IsNonempty last
    → 2 + length (first ++ concat middle last) ≤ d.max_bytes
    → d.max_bytes ≤ max_annex_b_nal_bytes
    → feed_all d (
        fu_packet u sequence true false first
        ∷ later_packets u (next_sequence sequence) middle last)
      ≡ (
        reset d,
        (none, no_error)
            ∷ pending middle
                ((some (annex_b (u.h0 ∷ u.h1 ∷ (first ++ concat middle last))), no_error) ∷ []),
      )
unfolding feed_all
feed_all-fragments d u s first middle last v ne nes ne' fits small =
    let sizes = length-append first (concat middle last) in
    rw (feed-first d u s first v ne (omega (arith, sizes)) small) (
      rw
        (feed_all-later d.max_bytes u (next_sequence s) (u.h0 ∷ u.h1 ∷ first) middle last v nes ne'
          (omega (arith, sizes)) small)
        (unfold reset in refl))
