-- ===== src/StoreSpace/Areas/NextId.antt =====
-- The next area id of internal/storespace/store.go never goes down.
use erzhuang_project.Prelude.{ℕ, ◌≤◌, arith, inl, inr, Option-cases}
use erzhuang_project.Prelude.Int.{ℤ}
use erzhuang_project.StoreSpace.Model.{AreaType, AreaSource, Area, video_channel}
use erzhuang_project.StoreSpace.Areas.{
  AreaState, find_or_create_area, move_video_area, update_or_find_video_area, find_video_area,
}

find_or_create_area-next :
    (s : AreaState) (store_id : ℕ) (t : AreaType) (n : ℤ) (from : AreaSource) (now : ℕ)
    → s.next_area_id ≤ (find_or_create_area s store_id t n from now).0.next_area_id
unfolding find_or_create_area
find_or_create_area-next s store_id t n from now = ground arith

move_video_area-next :
    (s : AreaState) (current : ℕ) (t : AreaType) (n : ℤ) (now : ℕ) (a : Area)
    → s.next_area_id ≤ (move_video_area s current t n now a).0.next_area_id
unfolding move_video_area
move_video_area-next s current t n now a = ground arith

pub update_or_find_video_area-next :
    (s : AreaState) (store_id current : ℕ) (t : AreaType) (n : ℤ) (now : ℕ)
    → s.next_area_id ≤ (update_or_find_video_area s store_id current t n now).0.next_area_id
unfolding update_or_find_video_area
update_or_find_video_area-next s store_id current t n now =
    elim (Option-cases (find_video_area current s.areas)) [
      | inl missing ↦ ground (arith, find_or_create_area-next s store_id t n video_channel now)
      | inr (a, found) ↦ ground (
        arith,
        find_or_create_area-next s store_id t n video_channel now,
        move_video_area-next s current t n now a,
      )
    ]
