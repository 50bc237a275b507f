-- ===== src/Snapshot/Depacketizer/Invariant.antt =====
-- What holds of the depacketizer between two packets, and of every unit that it returns.
use erzhuang_project.Prelude.{
  ℕ, ◌+◌, ◌≤◌, ◌≡◌, Bool, true, false, List, [], ◌∷◌, length, length-append, take, All, subst,
  Option, none, some, arith,
}
use erzhuang_project.Prelude.Int.{ℤ, pos_part}
use erzhuang_project.Snapshot.Rtp.{Bytes, ErrorCode, no_error, parse_rtp}
use erzhuang_project.Snapshot.Depacketizer.{
  Depacketizer, Fed, refuse, reset, feed_single, feed_start, feed_continuation, feed_fu, feed_h265,
  feed_rtp, new_depacketizer_with_max_bytes,
}

-- Nothing is buffered between units; a unit in the making has its header and some media, and
-- keeps within the limit.
pub record IsWellFormed (d : Depacketizer) : Type 0 where
  pub idle_empty : d.fu_active ≡ false → d.buffer ≡ []
  pub active_header : d.fu_active ≡ true → 3 ≤ length d.buffer
  pub bounded : length d.buffer ≤ d.max_bytes

-- A returned unit stands behind a start code and is not longer than the limit.
abbrev pub NalFits : ℕ → Option Bytes → Type 0
NalFits max_bytes none = Unit {0}
NalFits max_bytes (some nal) =
    (take 4 nal ≡ 0 ∷ 0 ∷ 0 ∷ 1 ∷ []) × (6 ≤ length nal) × (length nal ≤ max_bytes + 4)

-- With no error there may be a unit, and nothing is buffered behind it; with an error there is no
-- unit and nothing is buffered.
abbrev pub Outcome : ℕ → Bool → Option Bytes → ErrorCode → Type 0
Outcome max_bytes active none no_error = Unit {0}
Outcome max_bytes active (some nal) no_error = NalFits max_bytes (some nal) × (active ≡ false)
Outcome max_bytes active none _ = active ≡ false
Outcome max_bytes active (some nal) _ = ⊥

-- What one packet does.
pub record FeedContract (d : Depacketizer) (r : Fed) : Type 0 where
  pub kept : IsWellFormed r.0
  pub same_limit : r.0.max_bytes ≡ d.max_bytes
  pub outcome : Outcome d.max_bytes r.0.fu_active r.1 r.2

feed_single-FeedContract :
    (d : Depacketizer) (i0 i1 : ℕ) (p : Bytes)
    → IsWellFormed d
    → FeedContract d (feed_single d (i0 ∷ i1 ∷ p))
unfolding feed_single
feed_single-FeedContract d i0 i1 p v = ground arith

feed_start-FeedContract :
    (d : Depacketizer) (s t i0 i1 h f : ℕ) (fs : Bytes)
    → IsWellFormed d
    → FeedContract d (feed_start d s t i0 i1 h (f ∷ fs))
unfolding feed_start
feed_start-FeedContract d s t i0 i1 h f fs v = ground arith

feed_continuation-FeedContract :
    (d : Depacketizer) (s t i0 i1 h f : ℕ) (fs : Bytes)
    → IsWellFormed d
    → FeedContract d (feed_continuation d s t i0 i1 h (f ∷ fs))
unfolding feed_continuation
feed_continuation-FeedContract d s t i0 i1 h f fs v =
    ground (arith, length-append d.buffer (f ∷ fs))

refuse-FeedContract : (d : Depacketizer) → FeedContract d (refuse d)
unfolding reset
refuse-FeedContract d = ground arith

feed_fu-FeedContract :
    (d : Depacketizer) (s t i0 i1 : ℕ) (p : Bytes)
    → IsWellFormed d
    → FeedContract d (feed_fu d s t i0 i1 p)
unfolding feed_fu
feed_fu-FeedContract d s t i0 i1 (h ∷ f ∷ fs) v = ground (
  arith,
  feed_start-FeedContract d s t i0 i1 h f fs v,
  feed_continuation-FeedContract d s t i0 i1 h f fs v,
)
feed_fu-FeedContract d s t i0 i1 _ v = refuse-FeedContract d

feed_h265-FeedContract :
    (d : Depacketizer) (s t : ℕ) (p : Bytes) → IsWellFormed d → FeedContract d (feed_h265 d s t p)
unfolding feed_h265
feed_h265-FeedContract d s t (i0 ∷ i1 ∷ p) v = ground (
  arith,
  refuse-FeedContract d,
  feed_single-FeedContract d i0 i1 p v,
  feed_fu-FeedContract d s t i0 i1 p v,
)
feed_h265-FeedContract d s t _ v = refuse-FeedContract d

-- Whatever the packet holds, feeding it to a well-formed depacketizer keeps it well formed and its
-- limit; a unit is returned with its start code, at least two header bytes and at most max_bytes
-- bytes; an error returns no unit; after an error or a unit nothing is left buffered.
pub feed_rtp-FeedContract :
    (d : Depacketizer) (packet : Bytes) → IsWellFormed d → FeedContract d (feed_rtp d packet)
unfolding feed_rtp
feed_rtp-FeedContract d packet v =
    let rtp = (parse_rtp packet).0 in
    ground (
      arith,
      refuse-FeedContract d,
      feed_h265-FeedContract d rtp.sequence_number rtp.timestamp rtp.payload v,
    )

pub new_depacketizer-IsWellFormed : (n : ℤ) → IsWellFormed (new_depacketizer_with_max_bytes n)
unfolding new_depacketizer_with_max_bytes
new_depacketizer-IsWellFormed n = ground arith

-- The results of feeding packets one after the other.
unfoldable pub feed_all : Depacketizer → List Bytes → Depacketizer × List (Option Bytes × ErrorCode)
feed_all d [] = (d, [])
feed_all d (p ∷ ps) =
    let (d', nal, code) = feed_rtp d p in
    let (last, results) = feed_all d' ps in (last, (nal, code) ∷ results)

Outcome-NalFits :
    (m : ℕ) (active : Bool) (nal : Option Bytes) (code : ErrorCode)
    → Outcome m active nal code
    → NalFits m nal
Outcome-NalFits m active none code o = tt
Outcome-NalFits m active (some n) no_error o = o.0
Outcome-NalFits m active (some n) _ o = absurd o

feed_all_bounded :
    (d : Depacketizer) (ps : List Bytes)
    → IsWellFormed d
    → All (λ r. NalFits d.max_bytes r.0) (feed_all d ps).1
unfolding feed_all
feed_all_bounded d [] v = tt
feed_all_bounded d (p ∷ ps) v =
    let c = feed_rtp-FeedContract d p v in
    (
      Outcome-NalFits _ _ _ _ c.outcome,
      subst (λ (m : ℕ). All (λ r. NalFits m r.0) (feed_all (feed_rtp d p).0 ps).1) c.same_limit
          (feed_all_bounded (feed_rtp d p).0 ps c.kept),
    )

-- A new depacketizer never returns a unit longer than its limit, over any sequence of packets; a
-- negative limit counts as zero.
pub feed_all-new_bounded :
    (n : ℤ) (ps : List Bytes)
    → All (λ r. NalFits (pos_part n) r.0) (feed_all (new_depacketizer_with_max_bytes n) ps).1
unfolding new_depacketizer_with_max_bytes
feed_all-new_bounded n ps = feed_all_bounded _ ps (new_depacketizer-IsWellFormed n)
