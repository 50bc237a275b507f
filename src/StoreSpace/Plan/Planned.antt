-- ===== src/StoreSpace/Plan/Planned.antt =====
-- What SaveDesignPlan of internal/storespace/store.go leaves of a store's areas.
use erzhuang_project.Prelude.{
  ℕ, ◌≡◌, refl, List, [], ◌∷◌, ◌++◌, none, some, arith, inl, inr, All, Option-cases,
}
use erzhuang_project.Prelude.Int.{ℤ, pos}
use erzhuang_project.StoreSpace.Model.{AreaType, confirmed, Area}
use erzhuang_project.StoreSpace.Areas.{find_area, set_area, AreaState}
use erzhuang_project.StoreSpace.Areas.Unique.{
  AreasOk, is_area_iff, find_area-is_area, append-Unique, append-IdsBelow,
}
use erzhuang_project.StoreSpace.Areas.Writes.{
  find_area-append_self, find_area-set_area_self, rewritten,
}
use erzhuang_project.StoreSpace.Plan.{
  PlanArea, plan_number, PlanInput, PlanStore, find_area_by_id, planned_area, added_area,
  save_plan_area, save_plan_areas, save_design_plan,
}

abbrev pub SameRoom : PlanArea → PlanArea → Type 0
SameRoom x y = (x.type ≡ y.type) × ((plan_number x) ≡ (plan_number y))

-- No two areas of the plan have the same type and number, as SaveDesignPlan reads it.
abbrev pub DistinctRooms : List PlanArea → Type 0
DistinctRooms [] = Unit {0}
DistinctRooms (x ∷ xs) = All (λ y. ¬ SameRoom x y) xs × DistinctRooms xs

-- The area found by the input's type and number is confirmed and has its box.
abbrev pub Shown : List Area → PlanArea → Type 0
Shown areas x =
    (a : Area) × (find_area x.type (plan_number x) areas ≡ some a)
    × (a.status ≡ confirmed)
    × (a.box ≡ x.box)

planned_area-same :
    (now : ℕ) (x : PlanArea) (a : Area)
    → (a.type ≡ x.type) × (a.number ≡ (plan_number x))
    → ((planned_area now x a).type ≡ x.type) × ((planned_area now x a).number ≡ (plan_number x))
unfolding planned_area
planned_area-same now x a h = (ground arith, ground arith)

-- The three ways of a turn of the loop without an id.
no_id : (x : PlanArea) (areas : List Area) → x.id ≡ pos 0 → find_area_by_id x.id areas ≡ none
unfolding find_area_by_id
no_id x areas h = ground arith

save_plan_area-Shown :
    (store_id now : ℕ) (s : AreaState) (x : PlanArea)
    → x.id ≡ pos 0
    → AreasOk s
    → AreasOk (save_plan_area store_id now s x) × Shown (save_plan_area store_id now s x).areas x
unfolding save_plan_area
save_plan_area-Shown store_id now s x h v =
    let missed = no_id x s.areas h in
    elim (Option-cases (find_area x.type (plan_number x) s.areas)) [
      | inl missing ↦
          let made = added_area s.next_area_id store_id now x in
          rw (missed, missing, save_plan_area)
            (
              record {
                unique =
                    append-Unique s.areas made s.next_area_id v.unique v.below
                      (unfold added_area in omega arith) (unfold added_area in missing);
                below =
                    append-IdsBelow s.areas made s.next_area_id v.below v.positive
                      (unfold added_area in refl);
                positive = omega arith;
              },
              (
                made,
                find_area-append_self x.type (plan_number x) s.areas made missing (
                    (is_area_iff x.type (plan_number x) made).1
                      (unfold added_area in (refl, refl))),
                unfold added_area in refl,
                unfold added_area in refl,
              ),
            )
      | inr (a, found) ↦
          let is_it = find_area-is_area x.type (plan_number x) s.areas a found in
          let new = planned_area now x a in
          let same = planned_area-same now x a is_it in
          rw (missed, found, save_plan_area)
            (
              rewritten s x.type (plan_number x) new a found
                  (same.0, same.1, unfold planned_area in refl) v,
              (
                new,
                find_area-set_area_self x.type (plan_number x) s.areas new a found
                    ((is_area_iff x.type (plan_number x) new).1 same),
                unfold planned_area in refl,
                unfold planned_area in refl,
              ),
            )
    ]

find_area-append_some :
    (t : AreaType) (n : ℤ) (areas : List Area) (new a : Area)
    → find_area t n areas ≡ some a
    → find_area t n (areas ++ new ∷ []) ≡ some a
unfolding find_area
find_area-append_some t n [] new a e = absurd (cc e)
find_area-append_some t n (x ∷ areas) new a e =
    ground (arith, find_area-append_some t n areas new a)

find_area-set_area_other :
    (t t' : AreaType) (n n' : ℤ) (areas : List Area) (new a : Area)
    → ¬ ((t ≡ t') × (n ≡ n'))
    → (new.type ≡ t') × (new.number ≡ n')
    → find_area t n areas ≡ some a
    → find_area t n (set_area t' n' new areas) ≡ some a
unfolding find_area set_area
find_area-set_area_other t t' n n' [] new a d k e = absurd (cc e)
find_area-set_area_other t t' n n' (x ∷ areas) new a d k e = ground (
  arith,
  find_area-set_area_other t t' n n' areas new a d k,
  is_area_iff t n x,
  is_area_iff t' n' x,
  is_area_iff t n new,
)

-- A turn for another room.
save_plan_area-other :
    (store_id now : ℕ) (s : AreaState) (x y : PlanArea)
    → y.id ≡ pos 0
    → ¬ SameRoom x y
    → Shown s.areas x
    → Shown (save_plan_area store_id now s y).areas x
unfolding save_plan_area
save_plan_area-other store_id now s x y h d (a, at, status, box) =
    let missed = no_id y s.areas h in
    elim (Option-cases (find_area y.type (plan_number y) s.areas)) [
      | inl missing ↦
          rw (missed, missing, save_plan_area)
            (a, find_area-append_some x.type (plan_number x) s.areas _ a at, status, box)
      | inr (b, found) ↦
          let is_it = find_area-is_area y.type (plan_number y) s.areas b found in
          let new = planned_area now y b in
          rw (missed, found, save_plan_area)
            (
              a,
              find_area-set_area_other x.type y.type (plan_number x) (plan_number y) s.areas new a d
                  (planned_area-same now y b is_it) at,
              status,
              box,
            )
    ]

save_plan_areas-other :
    (store_id now : ℕ) (s : AreaState) (x : PlanArea) (ys : List PlanArea)
    → All (λ y. y.id ≡ pos 0) ys
    → All (λ y. ¬ SameRoom x y) ys
    → Shown s.areas x
    → Shown (save_plan_areas store_id now s ys).areas x
unfolding save_plan_areas
save_plan_areas-other store_id now s x [] h d shown = shown
save_plan_areas-other store_id now s x (y ∷ ys) h d shown =
    save_plan_areas-other store_id now (save_plan_area store_id now s y) x ys h.1 d.1
      (save_plan_area-other store_id now s x y h.0 d.0 shown)

save_plan_areas-Shown :
    (store_id now : ℕ) (s : AreaState) (xs : List PlanArea)
    → All (λ x. x.id ≡ pos 0) xs
    → DistinctRooms xs
    → AreasOk s
    → AreasOk (save_plan_areas store_id now s xs)
      × All (Shown (save_plan_areas store_id now s xs).areas) xs
unfolding save_plan_areas
save_plan_areas-Shown store_id now s [] h d v = (v, tt)
save_plan_areas-Shown store_id now s (x ∷ xs) h d v =
    let first = save_plan_area-Shown store_id now s x h.0 v in
    let after = save_plan_area store_id now s x in
    let rest = save_plan_areas-Shown store_id now after xs h.1 d.1 first.0 in
    (rest.0, (save_plan_areas-other store_id now after x xs h.1 d.0 first.1, rest.1))

-- Saving a design plan whose areas are given without ids and with distinct types and numbers, in a
-- store whose areas have distinct types and numbers, and distinct positive ids below the next id,
-- leaves a store of that kind, in which each area of the plan is found by its type and number,
-- confirmed and with the box of the plan.
pub save_design_plan-Shown :
    (s : PlanStore) (now : ℕ) (input : PlanInput)
    → All (λ x. x.id ≡ pos 0) input.areas
    → DistinctRooms input.areas
    → AreasOk s.areas
    → AreasOk (save_design_plan s now input).areas
      × All (Shown (save_design_plan s now input).areas.areas) input.areas
unfolding save_design_plan
save_design_plan-Shown s now input h d v = save_plan_areas-Shown s.id now s.areas input.areas h d v
