-- ===== src/StoreSpace/Areas/Kept.antt =====
-- What the deletion of unused camera areas in internal/storespace/store.go leaves.
use erzhuang_project.Prelude.{
  ℕ, ◌≡◌, refl, true, not, ◌&&◌, List, [], ◌∷◌, none, some, arith, inl, inr, Bool-cases,
}
use erzhuang_project.Prelude.Int.{ℤ}
use erzhuang_project.StoreSpace.Model.{AreaType, Area, Recorder}
use erzhuang_project.StoreSpace.Areas.{
  is_area, find_area, AreaState, delete_unused_video_areas, is_referenced,
}
use erzhuang_project.StoreSpace.Areas.Unique.{LacksId, Unique, IdsBelow, AreasOk}
use erzhuang_project.StoreSpace.Areas.{is_only_video, has_no_box}
use erzhuang_project.StoreSpace.Areas.Found.{GivesArea}

find_area-delete_unused :
    (recorders : List Recorder) (t : AreaType) (n : ℤ) (areas : List Area)
    → find_area t n areas ≡ none
    → find_area t n (delete_unused_video_areas recorders areas) ≡ none
unfolding find_area delete_unused_video_areas
find_area-delete_unused recorders t n [] e = refl
find_area-delete_unused recorders t n (a ∷ areas) e =
    ground (arith, find_area-delete_unused recorders t n areas)

LacksId-delete_unused :
    (recorders : List Recorder) (id : ℕ) (areas : List Area)
    → LacksId id areas
    → LacksId id (delete_unused_video_areas recorders areas)
unfolding delete_unused_video_areas
LacksId-delete_unused recorders id [] l = tt
LacksId-delete_unused recorders id (a ∷ areas) l =
    ground (arith, LacksId-delete_unused recorders id areas)

delete_unused-Unique :
    (recorders : List Recorder) (areas : List Area)
    → Unique areas
    → Unique (delete_unused_video_areas recorders areas)
unfolding delete_unused_video_areas
delete_unused-Unique recorders [] u = tt
delete_unused-Unique recorders (a ∷ areas) u =
    elim (Bool-cases
      (is_only_video a.source && has_no_box a && not (is_referenced a.id recorders))) [
        | inl unused ↦
            rw (unused, delete_unused_video_areas) (delete_unused-Unique recorders areas u.2)
        | inr kept ↦
            rw (kept, delete_unused_video_areas)
              (
                find_area-delete_unused recorders a.type a.number areas u.0,
                LacksId-delete_unused recorders a.id areas u.1,
                delete_unused-Unique recorders areas u.2,
              )
      ]

delete_unused-IdsBelow :
    (recorders : List Recorder) (m : ℕ) (areas : List Area)
    → IdsBelow m areas
    → IdsBelow m (delete_unused_video_areas recorders areas)
unfolding delete_unused_video_areas
delete_unused-IdsBelow recorders m [] l = tt
delete_unused-IdsBelow recorders m (a ∷ areas) l =
    ground (arith, delete_unused-IdsBelow recorders m areas)

delete_unused-keeps :
    (recorders : List Recorder) (t : AreaType) (n : ℤ) (areas : List Area) (a : Area)
    → find_area t n areas ≡ some a
    → is_referenced a.id recorders ≡ true
    → find_area t n (delete_unused_video_areas recorders areas) ≡ some a
unfolding find_area delete_unused_video_areas
delete_unused-keeps recorders t n [] a e h = absurd (cc e)
delete_unused-keeps recorders t n (x ∷ areas) a e h = elim (Bool-cases (is_area t n x)) [
  | inl hit ↦
      let same : x ≡ a = ground arith in
      let kept : is_referenced x.id recorders ≡ true = rw same h in ground arith
  | inr miss ↦ ground (arith, delete_unused-keeps recorders t n areas a)
]

-- Deleting the unused areas keeps the areas distinct, and an area that a channel refers to.
pub delete_unused-GivesArea :
    (recorders : List Recorder) (t : AreaType) (n : ℤ) (s : AreaState) (a : Area)
    → GivesArea t n (s, a)
    → is_referenced a.id recorders ≡ true
    → GivesArea t n (record s { areas = delete_unused_video_areas recorders s.areas }, a)
delete_unused-GivesArea recorders t n s a (v, found) h = (
  record {
    unique = delete_unused-Unique recorders s.areas v.unique;
    below = delete_unused-IdsBelow recorders s.next_area_id s.areas v.below;
    positive = v.positive;
  },
  delete_unused-keeps recorders t n s.areas a found h,
)

pub delete_unused-AreasOk :
    (recorders : List Recorder) (s : AreaState)
    → AreasOk s
    → AreasOk (record s { areas = delete_unused_video_areas recorders s.areas })
delete_unused-AreasOk recorders s v = record {
  unique = delete_unused-Unique recorders s.areas v.unique;
  below = delete_unused-IdsBelow recorders s.next_area_id s.areas v.below;
  positive = v.positive;
}
