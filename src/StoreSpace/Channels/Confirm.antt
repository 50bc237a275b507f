-- ===== src/StoreSpace/Channels/Confirm.antt =====
-- ConfirmChannel of internal/storespace/store.go: a confirmed channel refers to an area of its store.
use erzhuang_project.Prelude.{
  ℕ, ◌≡◌, ◌≢◌, refl, ◌∙◌, true, false, List, [], ◌∷◌, none, some, arith, inl, inr, Bool-cases,
  Option-cases,
}
use erzhuang_project.Prelude.Int.{pos}
use erzhuang_project.StoreSpace.Model.{
  AreaType, confirmed_business, Area, Channel, Recorder, ConfirmationInput,
}
use erzhuang_project.StoreSpace.Areas.{find_area, AreaState, channel_references, is_referenced}
use erzhuang_project.StoreSpace.Areas.Unique.{AreasOk, find_area-is_area, find_area-IdsBelow}
use erzhuang_project.StoreSpace.Areas.Found.{GivesArea, update_or_find_video_area-GivesArea}
use erzhuang_project.StoreSpace.Areas.Kept.{delete_unused-GivesArea, delete_unused-AreasOk}
use erzhuang_project.StoreSpace.Channels.{
  Work, is_no_type, find_channel, set_channel, find_in_recorders, set_in_recorders,
  confirmed_number, confirmed_store, confirm_in_store,
}

abbrev pub areas_of : Work → AreaState
areas_of w = record { next_area_id = w.next_area_id; areas = w.store.areas }

find_channel-set_channel :
    (id : ℕ) (new c : Channel) (cs : List Channel)
    → find_channel id cs ≡ some c
    → new.id ≡ id
    → find_channel id (set_channel id new cs) ≡ some new
unfolding find_channel set_channel
find_channel-set_channel id new c [] f e = absurd (cc f)
find_channel-set_channel id new c (x ∷ cs) f e =
    ground (arith, find_channel-set_channel id new c cs)

channel_references-set_channel :
    (id a : ℕ) (new c : Channel) (cs : List Channel)
    → find_channel id cs ≡ some c
    → new.area_id ≡ a
    → a ≢ 0
    → channel_references a (set_channel id new cs) ≡ true
unfolding find_channel set_channel channel_references
channel_references-set_channel id a new c [] f e nz = absurd (cc f)
channel_references-set_channel id a new c (x ∷ cs) f e nz =
    ground (arith, channel_references-set_channel id a new c cs)

find_channel-id :
    (id : ℕ) (cs : List Channel) (c : Channel) → find_channel id cs ≡ some c → c.id ≡ id
unfolding find_channel
find_channel-id id [] c f = absurd (cc f)
find_channel-id id (x ∷ cs) c f = ground (arith, find_channel-id id cs c)

find_in_recorders-id :
    (id : ℕ) (rs : List Recorder) (c : Channel) → find_in_recorders id rs ≡ some c → c.id ≡ id
unfolding find_in_recorders
find_in_recorders-id id [] c f = absurd (cc f)
find_in_recorders-id id (r ∷ rs) c f = elim (Option-cases (find_channel id r.channels)) [
  | inl missing ↦ find_in_recorders-id id rs c (rw (missing, find_in_recorders) at f)
  | inr (x, hit) ↦ find_channel-id id r.channels c (hit ∙ (rw (hit, find_in_recorders) at f))
]

find_in_recorders-set :
    (id : ℕ) (new c : Channel) (rs : List Recorder)
    → find_in_recorders id rs ≡ some c
    → new.id ≡ id
    → find_in_recorders id (set_in_recorders id new rs) ≡ some new
unfolding find_in_recorders set_in_recorders
find_in_recorders-set id new c [] f e = absurd (cc f)
find_in_recorders-set id new c (r ∷ rs) f e = elim (Option-cases (find_channel id r.channels)) [
  | inl missing ↦
      rw (missing, set_in_recorders)
        (rw (missing, find_in_recorders)
          (find_in_recorders-set id new c rs (rw (missing, find_in_recorders) at f) e))
  | inr (x, hit) ↦
      let kept = find_channel-set_channel id new x r.channels hit e in
      rw (hit, set_in_recorders) (rw (kept, find_in_recorders) refl)
]

is_referenced-set :
    (id a : ℕ) (new c : Channel) (rs : List Recorder)
    → find_in_recorders id rs ≡ some c
    → new.area_id ≡ a
    → a ≢ 0
    → is_referenced a (set_in_recorders id new rs) ≡ true
unfolding find_in_recorders set_in_recorders is_referenced
is_referenced-set id a new c [] f e nz = absurd (cc f)
is_referenced-set id a new c (r ∷ rs) f e nz = elim (Option-cases (find_channel id r.channels)) [
  | inl missing ↦
      let rest = is_referenced-set id a new c rs (rw (missing, find_in_recorders) at f) e nz in
      rw (missing, set_in_recorders) (ground (arith, rest))
  | inr (x, hit) ↦
      let here = channel_references-set_channel id a new x r.channels hit e nz in
      rw (hit, set_in_recorders) (ground (arith, here))
]

confirmed_store-AreasOk :
    (w : Work) (s : AreaState) (id : ℕ) (new : Channel) (now : ℕ)
    → AreasOk s
    → AreasOk (areas_of (confirmed_store w s id new now))
unfolding confirmed_store
confirmed_store-AreasOk w s id new now v =
    delete_unused-AreasOk (set_in_recorders id new w.store.recorders) s v

-- Whatever a confirmation asks for, and also when it fails, a store whose areas have distinct
-- types and numbers and distinct positive ids below the next id is left so.
pub confirm_in_store-AreasOk :
    (w : Work) (id : ℕ) (input : ConfirmationInput) (now : ℕ) (c : Channel)
    → AreasOk (areas_of w)
    → AreasOk (areas_of (confirm_in_store w id input now c).0)
unfolding confirm_in_store
confirm_in_store-AreasOk w id input now c v = elim (Bool-cases (is_no_type input.area_type)) [
  | inl other ↦ rw (other, confirm_in_store) (confirmed_store-AreasOk w (areas_of w) id _ now v)
  | inr business ↦ elim (Option-cases (confirmed_number input.area_type input.area_number)) [
    | inl bad ↦ rw (business, bad, confirm_in_store) v
    | inr (n, good) ↦
        rw (business, good, confirm_in_store)
          (confirmed_store-AreasOk w _ id _ now
            (update_or_find_video_area-GivesArea (areas_of w) w.store.id c.area_id input.area_type
              (pos n) now v).0)
  ]
]

-- The channel refers to the store's one area of its type and number.
pub record RefersToArea (w : Work) (id : ℕ) (type : AreaType) (number : ℕ) (new : Channel)
    (area : Area) : Type 0 where
  pub stored : find_in_recorders id w.store.recorders ≡ some new
  pub found : find_area type (pos number) w.store.areas ≡ some area
  pub area_id : new.area_id ≡ area.id
  pub not_zero : area.id ≢ 0
  pub type_eq : new.area_type ≡ type
  pub number_eq : new.area_number ≡ pos number
  pub status : new.status ≡ confirmed_business

confirmed_store-RefersToArea :
    (w : Work) (s : AreaState) (id type_number : ℕ) (t : AreaType) (new c : Channel) (area : Area)
    (now : ℕ)
    → GivesArea t (pos type_number) (s, area)
    → find_in_recorders id w.store.recorders ≡ some c
    → new.id ≡ c.id
    → (new.area_id ≡ area.id)
      × (new.area_type ≡ area.type)
      × (new.area_number ≡ area.number)
      × (new.status ≡ confirmed_business)
    → RefersToArea (confirmed_store w s id new now) id t type_number new area
unfolding confirmed_store
confirmed_store-RefersToArea w s id n t new c area now (v, found) at_c same k =
    let is_it = find_area-is_area t (pos n) s.areas area found in
    let id_positive = find_area-IdsBelow s.next_area_id t (pos n) s.areas area found v.below in
    let nz : area.id ≢ 0 = λ e. absurd (omega arith) in
    let referenced = is_referenced-set id area.id new c w.store.recorders at_c k.0 nz in
    record {
      stored =
          find_in_recorders-set id new c w.store.recorders at_c
            (same ∙ find_in_recorders-id id w.store.recorders c at_c);
      found =
          (delete_unused-GivesArea (set_in_recorders id new w.store.recorders) t (pos n) s area
            (v, found) referenced).1;
      area_id = k.0;
      not_zero = nz;
      type_eq = k.1 ∙ is_it.0;
      number_eq = k.2 ∙ is_it.1;
      status = k.3;
    }

-- Confirming a channel of the store for a business area with a number that parses succeeds, from a
-- store whose areas have distinct types and numbers and distinct positive ids below the next id;
-- afterwards the channel is confirmed, has the type and number asked for, and refers to the
-- store's one area of that type and number, which the deletion of unused areas has left.
pub confirm_in_store-RefersToArea :
    (w : Work) (id : ℕ) (input : ConfirmationInput) (now number : ℕ) (c : Channel)
    → AreasOk (areas_of w)
    → find_in_recorders id w.store.recorders ≡ some c
    → is_no_type input.area_type ≡ false
    → confirmed_number input.area_type input.area_number ≡ some number
    → let r = confirm_in_store w id input now c in
      (r.1 ≡ none)
      × ((new : Channel) × (area : Area) × RefersToArea r.0 id input.area_type number new area)
unfolding confirm_in_store
confirm_in_store-RefersToArea w id input now n c v at_c business good =
    let gives =
      update_or_find_video_area-GivesArea (areas_of w) w.store.id c.area_id input.area_type (pos n)
        now v in
    rw (business, good, confirm_in_store)
      (
        refl,
        (
          _,
          _,
          confirmed_store-RefersToArea w _ id n input.area_type _ c _ now gives at_c refl
              (refl, refl, refl, refl),
        ),
      )
