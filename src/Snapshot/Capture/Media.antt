-- ===== src/Snapshot/Capture/Media.antt =====
-- What the capture loop hands to the decoder.
use erzhuang_project.Prelude.{
  ℕ, ◌+◌, ◌≤◌, ◌≡◌, ◌⊎◌, inl, inr, refl, sym, ◌∙◌, Bool, true, false, not, ◌&&◌, ◌||◌, List, [],
  ◌∷◌, ◌++◌, append-nil, append_assoc, if◌then◌else◌, length, length-append, ltb, Option, none,
  some, arith, Bool-cases, Option-cases, subst,
}
use erzhuang_project.Snapshot.Rtp.{Bytes}
use erzhuang_project.Snapshot.Depacketizer.{feed_rtp_with_metadata, no_code}
use erzhuang_project.Snapshot.AccessUnit.{
  ParameterSets, AccessUnit, empty_unit, accepts_timestamp, append_nal, reset_unit, h265_nal_type,
  is_h265_key_frame, parameter_set_index, no_index, replace_parameter_set, has_all_parameter_sets,
  combine_access_unit, max_annex_b_bytes, is_empty_bytes,
}
use erzhuang_project.Snapshot.Capture.{
  Message, binary, text_message, read_failed, Captured, failed, media, reading, Reader, Turn, go_on,
  stop, end_of_unit, add_to_unit, keep_parameter_set, take_nal, take_message, read_messages,
  new_reader,
}

abbrev pub flatten : List Bytes → Bytes
flatten [] = []
flatten (x ∷ xs) = x ++ flatten xs

abbrev pub any_key_frame : List Bytes → Bool
any_key_frame [] = false
any_key_frame (x ∷ xs) = is_h265_key_frame x || any_key_frame xs

flatten-snoc : (xs : List Bytes) (y : Bytes) → flatten (xs ++ y ∷ []) ≡ flatten xs ++ y
flatten-snoc [] y = append-nil y
flatten-snoc (x ∷ xs) y = rw (flatten-snoc xs y, append_assoc x (flatten xs) y)

any_key_frame-snoc :
    (xs : List Bytes) (y : Bytes)
    → any_key_frame (xs ++ y ∷ []) ≡ (any_key_frame xs || is_h265_key_frame y)
any_key_frame-snoc [] y = ground arith
any_key_frame-snoc (x ∷ xs) y = ground (arith, any_key_frame-snoc xs y)

-- A parameter set is not there yet, or is a unit of its type.
abbrev pub SetOk : ℕ → Bytes → Type 0
SetOk type s = (s ≡ []) ⊎ (h265_nal_type s ≡ type)

-- The access unit is the units appended to it, a key frame among them or not.
record Gathered (a : AccessUnit) : Type 0 where
  units : List Bytes
  bytes_eq : a.bytes ≡ flatten units
  key_eq : a.has_key_frame ≡ any_key_frame units

record ReaderInv (r : Reader) : Type 0 where
  vps_ok : SetOk 32 r.parameter_sets.vps
  sps_ok : SetOk 33 r.parameter_sets.sps
  pps_ok : SetOk 34 r.parameter_sets.pps
  gathered : Gathered r.access_unit

-- A decodable picture: the three parameter sets, then units with a key frame among them.
pub record IsMedia (m : Bytes) : Type 0 where
  pub vps : Bytes
  pub sps : Bytes
  pub pps : Bytes
  pub units : List Bytes
  pub splits : m ≡ vps ++ (sps ++ (pps ++ flatten units))
  pub vps_type : h265_nal_type vps ≡ 32
  pub sps_type : h265_nal_type sps ≡ 33
  pub pps_type : h265_nal_type pps ≡ 34
  pub has_key : any_key_frame units ≡ true
  pub bounded : length m ≤ 8388608

abbrev TurnOk : Turn → Type 0
TurnOk (go_on r) = ReaderInv r
TurnOk (stop (media m)) = IsMedia m
TurnOk (stop _) = Unit {0}

Gathered-reset : (a : AccessUnit) → Gathered (reset_unit a)
Gathered-reset a = record { units = []; bytes_eq = refl; key_eq = refl }

Gathered-append :
    (a : AccessUnit) (t : ℕ) (nal : Bytes)
    → Gathered a
    → Gathered (append_nal a t nal (is_h265_key_frame nal))
unfolding append_nal
Gathered-append a t nal g = record {
  units = g.units ++ nal ∷ [];
  bytes_eq = rw (g.bytes_eq, flatten-snoc g.units nal);
  key_eq = rw (g.key_eq, any_key_frame-snoc g.units nal);
}

set_ne_nil :
    (type : ℕ) (s : Bytes) → SetOk type s → is_empty_bytes s ≡ false → h265_nal_type s ≡ type
set_ne_nil type [] o e = absurd (cc e)
set_ne_nil type (b ∷ s) (inl p) e = absurd (cc p)
set_ne_nil type (b ∷ s) (inr p) e = p

combine_access_unit-some :
    (p : ParameterSets) (unit m : Bytes)
    → combine_access_unit p unit ≡ some m
    → (m ≡ p.vps ++ (p.sps ++ (p.pps ++ unit))) × (length m ≤ 8388608)
unfolding combine_access_unit
combine_access_unit-some p unit m e = ground (
  arith,
  length-append p.vps (p.sps ++ (p.pps ++ unit)),
  length-append p.sps (p.pps ++ unit),
  length-append p.pps unit,
)

has_all_parameter_sets-parts :
    (p : ParameterSets)
    → has_all_parameter_sets p ≡ true
    → (is_empty_bytes p.vps ≡ false)
      × (is_empty_bytes p.sps ≡ false)
      × (is_empty_bytes p.pps ≡ false)
unfolding has_all_parameter_sets
has_all_parameter_sets-parts p e = ground arith

combined-IsMedia :
    (r : Reader) (m : Bytes)
    → ReaderInv r
    → r.access_unit.has_key_frame ≡ true
    → has_all_parameter_sets r.parameter_sets ≡ true
    → combine_access_unit r.parameter_sets r.access_unit.bytes ≡ some m
    → IsMedia m
combined-IsMedia r m v key all e =
    let (vps_there, sps_there, pps_there) = has_all_parameter_sets-parts r.parameter_sets all in
    let (splits, small) = combine_access_unit-some r.parameter_sets r.access_unit.bytes m e in
    record {
      vps = r.parameter_sets.vps;
      sps = r.parameter_sets.sps;
      pps = r.parameter_sets.pps;
      units = v.gathered.units;
      splits = rw (← v.gathered.bytes_eq) splits;
      vps_type = set_ne_nil 32 _ v.vps_ok vps_there;
      sps_type = set_ne_nil 33 _ v.sps_ok sps_there;
      pps_type = set_ne_nil 34 _ v.pps_ok pps_there;
      has_key = sym v.gathered.key_eq ∙ key;
      bounded = small;
    }

end_of_unit-TurnOk : (r : Reader) → ReaderInv r → TurnOk (end_of_unit r)
unfolding end_of_unit
end_of_unit-TurnOk r v =
    elim (Bool-cases (r.access_unit.has_key_frame && has_all_parameter_sets r.parameter_sets)) [
      | inl ready ↦ elim (Option-cases (combine_access_unit r.parameter_sets r.access_unit.bytes)) [
        | inl e ↦ rw (ready, e, end_of_unit) tt
        | inr (m, e) ↦
            rw (ready, e, end_of_unit) (combined-IsMedia r m v (ground arith) (ground arith) e)
      ]
      | inr more ↦ rw more (record {
        vps_ok = v.vps_ok;
        sps_ok = v.sps_ok;
        pps_ok = v.pps_ok;
        gathered = Gathered-reset r.access_unit;
      })
    ]

fresh_unit :
    (a : AccessUnit) (t : ℕ)
    → Gathered a
    → Gathered (if not (accepts_timestamp a t) then reset_unit a else a)
fresh_unit a t g = elim (Bool-cases (accepts_timestamp a t)) [
  | inl same ↦ rw same g
  | inr other ↦ rw other (Gathered-reset a)
]

add_to_unit-TurnOk :
    (r : Reader) (nal : Bytes) (t : ℕ) (marker : Bool)
    → ReaderInv r
    → TurnOk (add_to_unit r nal t marker)
unfolding add_to_unit
add_to_unit-TurnOk r nal t marker v =
    let unit =
      if not (accepts_timestamp r.access_unit t) then reset_unit r.access_unit else r.access_unit in
    let r' : Reader = record r { access_unit = append_nal unit t nal (is_h265_key_frame nal) } in
    let v' : ReaderInv r' = record {
      vps_ok = v.vps_ok;
      sps_ok = v.sps_ok;
      pps_ok = v.pps_ok;
      gathered = Gathered-append unit t nal (fresh_unit r.access_unit t v.gathered);
    } in
    elim (Bool-cases (ltb max_annex_b_bytes (length nal + length unit.bytes))) [
      | inl big ↦ rw big tt
      | inr small ↦ rw small (elim (Bool-cases marker) [
        | inl last ↦ rw last (end_of_unit-TurnOk r' v')
        | inr before ↦ rw before v'
      ])
    ]

keep_parameter_set-TurnOk :
    (r : Reader) (nal : Bytes)
    → ReaderInv r
    → TurnOk (elim (parameter_set_index (h265_nal_type nal)) [
      | no_index ↦ stop reading
      | index ↦ keep_parameter_set r index nal
    ])
unfolding keep_parameter_set replace_parameter_set parameter_set_index
keep_parameter_set-TurnOk r nal v = ground arith

take_nal-TurnOk :
    (r : Reader) (nal : Option Bytes) (t : ℕ) (marker : Bool)
    → ReaderInv r
    → TurnOk (take_nal r nal t marker)
unfolding take_nal
take_nal-TurnOk r none t marker v = v
take_nal-TurnOk r (some []) t marker v = v
take_nal-TurnOk r (some (b ∷ bs)) t marker v =
    ground (arith, keep_parameter_set-TurnOk r (b ∷ bs) v, add_to_unit-TurnOk r (b ∷ bs) t marker v)

take_message-TurnOk : (r : Reader) (m : Message) → ReaderInv r → TurnOk (take_message r m)
unfolding take_message
take_message-TurnOk r (binary p) v =
    let (d, result, code) = feed_rtp_with_metadata r.depacketizer p in
    let taken =
      take_nal-TurnOk (record r { depacketizer = d }) result.nal result.timestamp result.marker
        (record {
          vps_ok = v.vps_ok;
          sps_ok = v.sps_ok;
          pps_ok = v.pps_ok;
          gathered = v.gathered;
        }) in
    elim (Bool-cases (no_code code)) [ inl fed ↦ rw fed taken | inr broken ↦ rw broken tt ]
take_message-TurnOk r text_message v = tt
take_message-TurnOk r (read_failed true) v = tt
take_message-TurnOk r (read_failed false) v = tt

abbrev CapturedOk : Captured → Type 0
CapturedOk (media m) = IsMedia m
CapturedOk _ = Unit {0}

read_messages-CapturedOk :
    (r : Reader) (ms : List Message) → ReaderInv r → CapturedOk (read_messages r ms)
unfolding read_messages
read_messages-CapturedOk r [] v = tt
read_messages-CapturedOk r (m ∷ ms) v =
    go (take_message r m) (take_message-TurnOk r m v) (λ r' v'. read_messages-CapturedOk r' ms v')
  where
    go :
        (t : Turn)
        → TurnOk t
        → ((r' : Reader) → ReaderInv r' → CapturedOk (read_messages r' ms))
        → CapturedOk (elim t [ go_on r' ↦ read_messages r' ms | stop c ↦ c ])
    go (go_on r') o ih = ih r' o
    go (stop (media m)) o ih = o
    go (stop (failed c)) o ih = tt
    go (stop reading) o ih = tt

-- Whatever messages the camera sends, media that the capture loop hands to the decoder is one
-- parameter set of each type followed by units with a key frame among them, and is 8 MiB at most.
pub read_messages-IsMedia :
    (ms : List Message) {m : Bytes} → read_messages new_reader ms ≡ media m → IsMedia m
unfolding new_reader
read_messages-IsMedia ms e = subst CapturedOk e (
    read_messages-CapturedOk new_reader ms (record {
      vps_ok = inl refl;
      sps_ok = inl refl;
      pps_ok = inl refl;
      gathered = Gathered-reset empty_unit;
    }))
