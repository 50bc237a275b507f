-- ===== src/StoreSpace/Areas/Writes.antt =====
-- What a write to one area of a store leaves of the areas' types, numbers and ids: the pointers of
-- internal/storespace/store.go.
use erzhuang_project.Prelude.{
  ℕ, ◌≡◌, ◌≢◌, refl, sym, true, false, ◌&&◌, List, [], ◌∷◌, ◌++◌, ◌==◌, none, some, arith, inl, inr,
  Bool-cases,
}
use erzhuang_project.Prelude.Int.{ℤ}
use erzhuang_project.StoreSpace.Model.{AreaType, Area}
use erzhuang_project.StoreSpace.Areas.{
  is_area, find_area, is_video, find_video_area, set_area, set_video_area, AreaState,
}
use erzhuang_project.StoreSpace.Areas.Unique.{
  LacksId, Unique, IdsBelow, AreasOk, is_area_iff, set_area-Unique, set_area-IdsBelow,
}

pub find_area-append_self :
    (t : AreaType) (n : ℤ) (areas : List Area) (new : Area)
    → find_area t n areas ≡ none
    → is_area t n new ≡ true
    → find_area t n (areas ++ new ∷ []) ≡ some new
unfolding find_area
find_area-append_self t n [] new e h = ground arith
find_area-append_self t n (a ∷ areas) new e h = ground (arith, find_area-append_self t n areas new)

pub find_area-set_area_self :
    (t : AreaType) (n : ℤ) (areas : List Area) (new old : Area)
    → find_area t n areas ≡ some old
    → is_area t n new ≡ true
    → find_area t n (set_area t n new areas) ≡ some new
unfolding find_area set_area
find_area-set_area_self t n [] new old e h = absurd (cc e)
find_area-set_area_self t n (a ∷ areas) new old e h =
    ground (arith, find_area-set_area_self t n areas new old)

-- Every area of that type and number has the id.
abbrev pub OnlyId : AreaType → ℤ → ℕ → List Area → Type 0
OnlyId t n id [] = Unit {0}
OnlyId t n id (a ∷ areas) = (is_area t n a ≡ true → a.id ≡ id) × OnlyId t n id areas

pub none-OnlyId :
    (t : AreaType) (n : ℤ) (id : ℕ) (areas : List Area)
    → find_area t n areas ≡ none
    → OnlyId t n id areas
unfolding find_area
none-OnlyId t n id [] e = tt
none-OnlyId t n id (a ∷ areas) e = (λ h. ground arith, none-OnlyId t n id areas (ground arith))

pub found-OnlyId :
    (t : AreaType) (n : ℤ) (id : ℕ) (areas : List Area) (a : Area)
    → find_area t n areas ≡ some a
    → a.id ≡ id
    → Unique areas
    → OnlyId t n id areas
unfolding find_area
found-OnlyId t n id [] a e i u = tt
found-OnlyId t n id (x ∷ areas) a e i u = elim (Bool-cases (is_area t n x)) [
  | inl hit ↦
      let k = (is_area_iff t n x).0 hit in
      let none_later : find_area t n areas ≡ none = rw (sym k.0, sym k.1) u.0 in
      (λ h. ground arith, none-OnlyId t n id areas none_later)
  | inr miss ↦ (λ h. ground arith, found-OnlyId t n id areas a (ground arith) i u.2)
]

pub OnlyId-none :
    (t : AreaType) (n : ℤ) (id : ℕ) (areas : List Area)
    → OnlyId t n id areas
    → LacksId id areas
    → find_area t n areas ≡ none
unfolding find_area
OnlyId-none t n id [] o l = refl
OnlyId-none t n id (a ∷ areas) o l = elim (Bool-cases (is_area t n a)) [
  | inl hit ↦ absurd (l.0 (o.0 hit))
  | inr miss ↦ rw (miss, find_area) (OnlyId-none t n id areas o.1 l.1)
]

-- An area that is found does have its id.
pub find_video_area-LacksId :
    (id : ℕ) (areas : List Area) (old : Area)
    → find_video_area id areas ≡ some old
    → ¬ LacksId id areas
unfolding find_video_area
find_video_area-LacksId id [] old e l = absurd (cc e)
find_video_area-LacksId id (a ∷ areas) old e l =
    elim (Bool-cases (a.id == id && is_video a.source)) [
      | inl hit ↦ ground arith
      | inr miss ↦ find_video_area-LacksId id areas old (ground arith) l.1
    ]

pub LacksId-set_video_area :
    (id current : ℕ) (new : Area) (areas : List Area)
    → new.id ≡ current
    → LacksId id areas
    → LacksId id (set_video_area current new areas)
unfolding set_video_area
LacksId-set_video_area id current new [] e l = tt
LacksId-set_video_area id current new (a ∷ areas) e l =
    ground (arith, LacksId-set_video_area id current new areas)

pub set_video_area-IdsBelow :
    (m current : ℕ) (new : Area) (areas : List Area)
    → new.id ≡ current
    → IdsBelow m areas
    → IdsBelow m (set_video_area current new areas)
unfolding set_video_area
set_video_area-IdsBelow m current new [] e l = tt
set_video_area-IdsBelow m current new (a ∷ areas) e l =
    ground (arith, set_video_area-IdsBelow m current new areas)

pub find_area-set_video_area :
    (t : AreaType) (n : ℤ) (current : ℕ) (new : Area) (areas : List Area)
    → is_area t n new ≡ false
    → find_area t n areas ≡ none
    → find_area t n (set_video_area current new areas) ≡ none
unfolding find_area set_video_area
find_area-set_video_area t n current new [] m e = refl
find_area-set_video_area t n current new (a ∷ areas) m e =
    ground (arith, find_area-set_video_area t n current new areas)

pub set_video_area-Unique :
    (t : AreaType) (n : ℤ) (current : ℕ) (new old : Area) (areas : List Area)
    → find_video_area current areas ≡ some old
    → (new.type ≡ t) × (new.number ≡ n) × (new.id ≡ current)
    → OnlyId t n current areas
    → Unique areas
    → Unique (set_video_area current new areas)
unfolding find_video_area set_video_area
set_video_area-Unique t n current new old [] f k o u = tt
set_video_area-Unique t n current new old (a ∷ areas) f k o u =
    elim (Bool-cases (a.id == current && is_video a.source)) [
      | inl hit ↦
          let same_id : a.id ≡ current = ground arith in
          let lacks : LacksId current areas = rw (sym same_id) u.1 in
          let none_later : find_area t n areas ≡ none = OnlyId-none t n current areas o.1 lacks in
          rw (hit, set_video_area, k.0, k.1, k.2) (none_later, lacks, u.2)
      | inr miss ↦
          let later : find_video_area current areas ≡ some old = rw (miss, find_video_area) at f in
          let other_id : a.id ≢ current =
            λ e. find_video_area-LacksId current areas old later (rw (sym e) u.1) in
          let other : is_area a.type a.number new ≡ false =
            ground (arith, is_area_iff t n a, is_area_iff a.type a.number new, other_id, o.0) in
          rw (miss, set_video_area)
            (
              find_area-set_video_area a.type a.number current new areas other u.0,
              LacksId-set_video_area a.id current new areas k.2 u.1,
              set_video_area-Unique t n current new old areas later k o.1 u.2,
            )
    ]

pub find_area-set_video_area_self :
    (t : AreaType) (n : ℤ) (current : ℕ) (new old : Area) (areas : List Area)
    → find_video_area current areas ≡ some old
    → is_area t n new ≡ true
    → OnlyId t n current areas
    → Unique areas
    → find_area t n (set_video_area current new areas) ≡ some new
unfolding find_video_area set_video_area find_area
find_area-set_video_area_self t n current new old [] f k o u = absurd (cc f)
find_area-set_video_area_self t n current new old (a ∷ areas) f k o u =
    elim (Bool-cases (a.id == current && is_video a.source)) [
      | inl hit ↦ ground arith
      | inr miss ↦
          let later : find_video_area current areas ≡ some old = rw (miss, find_video_area) at f in
          let other_id : a.id ≢ current =
            λ e. find_video_area-LacksId current areas old later (rw (sym e) u.1) in
          let other : is_area t n a ≡ false = ground (arith, other_id, o.0) in
          rw (miss, set_video_area, other, find_area)
            (find_area-set_video_area_self t n current new old areas later k o.1 u.2)
    ]

pub rewritten :
    (s : AreaState) (t : AreaType) (n : ℤ) (new old : Area)
    → find_area t n s.areas ≡ some old
    → (new.type ≡ t) × (new.number ≡ n) × (new.id ≡ old.id)
    → AreasOk s
    → AreasOk (record s { areas = set_area t n new s.areas })
rewritten s t n new old found k v = record {
  unique = set_area-Unique t n new old s.areas found k v.unique;
  below = set_area-IdsBelow s.next_area_id t n new old s.areas found k.2 v.below;
  positive = v.positive;
}
