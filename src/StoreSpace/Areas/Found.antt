-- ===== src/StoreSpace/Areas/Found.antt =====
-- The area that the helpers of internal/storespace/store.go return is the store's one of its type and
-- number, and the areas stay distinct.
use erzhuang_project.Prelude.{
  ℕ, ◌≡◌, refl, not, ◌&&◌, List, [], ◌∷◌, ◌==◌, if◌then◌else◌, some, arith, inl, inr, Bool-cases,
  Option-cases,
}
use erzhuang_project.Prelude.Int.{ℤ}
use erzhuang_project.StoreSpace.Model.{
  AreaType, AreaSource, video_channel, multiple, area_source_eq, Area,
}
use erzhuang_project.StoreSpace.Areas.{
  find_area, is_video, find_video_area, set_video_area, AreaState, new_area, is_no_source,
  find_or_create_area, move_video_area, update_or_find_video_area,
}
use erzhuang_project.StoreSpace.Areas.Unique.{
  AreasOk, is_area_iff, find_area-is_area, append-Unique, append-IdsBelow,
}
use erzhuang_project.StoreSpace.Areas.{area_display_name, new_area, is_no_source}
use erzhuang_project.StoreSpace.Areas.Writes.{
  find_area-append_self, find_area-set_area_self, none-OnlyId, found-OnlyId,
  set_video_area-IdsBelow, set_video_area-Unique, find_area-set_video_area_self, rewritten, OnlyId,
}

-- Distinct areas, and the one given is that of the type and number.
abbrev pub GivesArea : AreaType → ℤ → AreaState × Area → Type 0
GivesArea t n r = AreasOk r.0 × (find_area t n r.0.areas ≡ some r.1)

-- From a store whose areas have distinct types and numbers, and distinct positive ids below the next
-- id, finding or creating an area leaves a store of that kind, and gives the store's one area of the
-- type and number asked for.
pub find_or_create_area-GivesArea :
    (s : AreaState) (store_id : ℕ) (t : AreaType) (n : ℤ) (from : AreaSource) (now : ℕ)
    → AreasOk s
    → GivesArea t n (find_or_create_area s store_id t n from now)
unfolding find_or_create_area
find_or_create_area-GivesArea s store_id t n from now v =
    elim (Option-cases (find_area t n s.areas)) [
      | inl missing ↦
          let made = new_area s.next_area_id store_id t n from now in
          rw (missing, find_or_create_area)
            (
              record {
                unique =
                    append-Unique s.areas made s.next_area_id v.unique v.below (omega arith)
                      missing;
                below = append-IdsBelow s.areas made s.next_area_id v.below v.positive refl;
                positive = omega arith;
              },
              find_area-append_self t n s.areas made missing
                  ((is_area_iff t n made).1 (refl, refl)),
            )
      | inr (a, found) ↦
          let is_it = find_area-is_area t n s.areas a found in
          let merged = record a { source = multiple; updated_at = now } in
          elim (Bool-cases (not (area_source_eq a.source from) && not (is_no_source from))) [
            | inl differs ↦
                rw (found, differs, find_or_create_area)
                  (
                    rewritten s t n merged a found (is_it.0, is_it.1, refl) v,
                    find_area-set_area_self t n s.areas merged a found
                        ((is_area_iff t n merged).1 is_it),
                  )
            | inr same ↦ rw (found, same, find_or_create_area) (v, found)
          ]
    ]

find_video_area-id :
    (id : ℕ) (areas : List Area) (a : Area) → find_video_area id areas ≡ some a → a.id ≡ id
unfolding find_video_area
find_video_area-id id [] a e = absurd (cc e)
find_video_area-id id (x ∷ areas) a e = ground (arith, find_video_area-id id areas a)

-- Renaming the channel's own area, which no other area stands in the way of.
renamed-GivesArea :
    (s : AreaState) (current : ℕ) (t : AreaType) (n : ℤ) (new old : Area)
    → find_video_area current s.areas ≡ some old
    → (new.type ≡ t) × (new.number ≡ n) × (new.id ≡ current)
    → OnlyId t n current s.areas
    → AreasOk s
    → GivesArea t n (record s { areas = set_video_area current new s.areas }, new)
renamed-GivesArea s current t n new old found k only v = (
  record {
    unique = set_video_area-Unique t n current new old s.areas found k only v.unique;
    below = set_video_area-IdsBelow s.next_area_id current new s.areas k.2 v.below;
    positive = v.positive;
  },
  find_area-set_video_area_self t n current new old s.areas found
      ((is_area_iff t n new).1 (k.0, k.1)) only v.unique,
)

move_video_area-GivesArea :
    (s : AreaState) (current : ℕ) (t : AreaType) (n : ℤ) (now : ℕ) (a : Area)
    → find_video_area current s.areas ≡ some a
    → AreasOk s
    → GivesArea t n (move_video_area s current t n now a)
unfolding move_video_area
move_video_area-GivesArea s current t n now a found v =
    let moved = record a {
      type = t;
      number = n;
      display_name = area_display_name t n;
      updated_at = now;
    } in
    let own = find_video_area-id current s.areas a found in
    elim (Option-cases (find_area t n s.areas)) [
      | inl missing ↦
          rw (missing, move_video_area)
            (renamed-GivesArea s current t n moved a found (refl, refl, own)
              (none-OnlyId t n current s.areas missing) v)
      | inr (b, hit) ↦
          let is_it = find_area-is_area t n s.areas b hit in
          let joined = record b {
            source = if is_video b.source then b.source else multiple;
            updated_at = now;
          } in
          elim (Bool-cases (b.id == current)) [
            | inl same ↦
                rw (hit, same, move_video_area)
                  (renamed-GivesArea s current t n moved a found (refl, refl, own)
                    (found-OnlyId t n current s.areas b hit (ground arith) v.unique) v)
            | inr differs ↦
                rw (hit, differs, move_video_area)
                  (
                    rewritten s t n joined b hit (is_it.0, is_it.1, refl) v,
                    find_area-set_area_self t n s.areas joined b hit
                        ((is_area_iff t n joined).1 is_it),
                  )
          ]
    ]

-- From a store whose areas have distinct types and numbers and distinct positive ids below the
-- next id, moving a channel to a type and number leaves a store of that kind and gives the store's
-- one area of that type and number.
pub update_or_find_video_area-GivesArea :
    (s : AreaState) (store_id current : ℕ) (t : AreaType) (n : ℤ) (now : ℕ)
    → AreasOk s
    → GivesArea t n (update_or_find_video_area s store_id current t n now)
unfolding update_or_find_video_area
update_or_find_video_area-GivesArea s store_id current t n now v =
    elim (Bool-cases (current == 0)) [
      | inl zero_id ↦
          rw (zero_id, update_or_find_video_area)
            (find_or_create_area-GivesArea s store_id t n video_channel now v)
      | inr has_id ↦ elim (Option-cases (find_video_area current s.areas)) [
        | inl missing ↦
            rw (has_id, missing, update_or_find_video_area)
              (find_or_create_area-GivesArea s store_id t n video_channel now v)
        | inr (a, found) ↦
            rw (has_id, found, update_or_find_video_area)
              (move_video_area-GivesArea s current t n now a found v)
      ]
    ]
