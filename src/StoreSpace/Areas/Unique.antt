-- ===== src/StoreSpace/Areas/Unique.antt =====
-- A store has one area for each type and number, and one for each id.
use erzhuang_project.Prelude.{
  ℕ, ◌+◌, ◌≤◌, ◌<◌, ◌≡◌, ◌≢◌, ◌↔◌, refl, sym, ◌∙◌, true, false, List, [], ◌∷◌, ◌++◌, none, some,
  arith, inl, inr, Bool-cases,
}
use erzhuang_project.Prelude.Int.{ℤ, int_eq_iff}
use erzhuang_project.StoreSpace.Model.{AreaType, area_type_eq_iff, Area}
use erzhuang_project.StoreSpace.Areas.{is_area, find_area, set_area, AreaState}

-- No area of the list has the id.
abbrev pub LacksId : ℕ → List Area → Type 0
LacksId id [] = Unit {0}
LacksId id (a ∷ areas) = (a.id ≢ id) × LacksId id areas

-- Types and numbers, and ids, do not repeat.
abbrev pub Unique : List Area → Type 0
Unique [] = Unit {0}
Unique (a ∷ areas) = (find_area a.type a.number areas ≡ none) × LacksId a.id areas × Unique areas

abbrev pub IdsBelow : ℕ → List Area → Type 0
IdsBelow n [] = Unit {0}
IdsBelow n (a ∷ areas) = (0 < a.id) × (a.id < n) × IdsBelow n areas

-- The next id is above all others.
pub record AreasOk (s : AreaState) : Type 0 where
  pub unique : Unique s.areas
  pub below : IdsBelow s.next_area_id s.areas
  pub positive : 0 < s.next_area_id

pub is_area_iff :
    (t : AreaType) (n : ℤ) (a : Area) → (is_area t n a ≡ true) ↔ ((a.type ≡ t) × (a.number ≡ n))
is_area_iff t n a = (
  λ h. ground (arith, area_type_eq_iff a.type t, int_eq_iff a.number n),
  λ h. ground (arith, area_type_eq_iff a.type t, int_eq_iff a.number n),
)

-- What is found has the type and number asked for.
pub find_area-is_area :
    (t : AreaType) (n : ℤ) (areas : List Area) (a : Area)
    → find_area t n areas ≡ some a
    → (a.type ≡ t) × (a.number ≡ n)
unfolding find_area
find_area-is_area t n [] a e = absurd (cc e)
find_area-is_area t n (b ∷ areas) a e = elim (Bool-cases (is_area t n b)) [
  | inl hit ↦ ground (arith, is_area_iff t n b)
  | inr miss ↦ ground (arith, find_area-is_area t n areas a)
]

find_area-append :
    (t : AreaType) (n : ℤ) (areas : List Area) (new : Area)
    → find_area t n areas ≡ none
    → is_area t n new ≡ false
    → find_area t n (areas ++ new ∷ []) ≡ none
unfolding find_area
find_area-append t n [] new e h = ground arith
find_area-append t n (a ∷ areas) new e h = ground (arith, find_area-append t n areas new)

find_area-set_area :
    (t t' : AreaType) (n n' : ℤ) (new : Area) (areas : List Area)
    → (new.type ≡ t) × (new.number ≡ n)
    → find_area t' n' areas ≡ none
    → find_area t' n' (set_area t n new areas) ≡ none
unfolding find_area set_area
find_area-set_area t t' n n' new [] k e = refl
find_area-set_area t t' n n' new (a ∷ areas) k e = ground (
  arith,
  find_area-set_area t t' n n' new areas k,
  is_area_iff t n a,
  is_area_iff t' n' new,
  is_area_iff t' n' a,
)

LacksId-set_area :
    (id : ℕ) (t : AreaType) (n : ℤ) (new old : Area) (areas : List Area)
    → find_area t n areas ≡ some old
    → new.id ≡ old.id
    → LacksId id areas
    → LacksId id (set_area t n new areas)
unfolding find_area set_area
LacksId-set_area id t n new old [] e s l = tt
LacksId-set_area id t n new old (a ∷ areas) e s l =
    ground (arith, LacksId-set_area id t n new old areas)

-- A write to the area found that leaves its type, number and id.
pub set_area-Unique :
    (t : AreaType) (n : ℤ) (new old : Area) (areas : List Area)
    → find_area t n areas ≡ some old
    → (new.type ≡ t) × (new.number ≡ n) × (new.id ≡ old.id)
    → Unique areas
    → Unique (set_area t n new areas)
unfolding find_area set_area
set_area-Unique t n new old [] e k u = tt
set_area-Unique t n new old (a ∷ areas) e k u = elim (Bool-cases (is_area t n a)) [
  | inl hit ↦
      let (type_eq, number_eq) = (is_area_iff t n a).0 hit in
      let same : some a ≡ some old = rw (hit, find_area) at e in
      let id_eq : a.id ≡ old.id = cc same in
      rw (hit, k.0 ∙ sym type_eq, k.1 ∙ sym number_eq, k.2 ∙ sym id_eq) u
  | inr miss ↦
      let later : find_area t n areas ≡ some old = rw (miss, find_area) at e in
      rw miss (
        find_area-set_area t a.type n a.number new areas (k.0, k.1) u.0,
        LacksId-set_area a.id t n new old areas later k.2 u.1,
        set_area-Unique t n new old areas later k u.2,
      )
]

pub set_area-IdsBelow :
    (m : ℕ) (t : AreaType) (n : ℤ) (new old : Area) (areas : List Area)
    → find_area t n areas ≡ some old
    → new.id ≡ old.id
    → IdsBelow m areas
    → IdsBelow m (set_area t n new areas)
unfolding find_area set_area
set_area-IdsBelow m t n new old [] e s l = tt
set_area-IdsBelow m t n new old (a ∷ areas) e s l =
    ground (arith, set_area-IdsBelow m t n new old areas)

LacksId-append :
    (id : ℕ) (areas : List Area) (new : Area)
    → LacksId id areas
    → new.id ≢ id
    → LacksId id (areas ++ new ∷ [])
LacksId-append id [] new l h = (h, tt)
LacksId-append id (a ∷ areas) new l h = (l.0, LacksId-append id areas new l.1 h)

pub append-Unique :
    (areas : List Area) (new : Area) (m : ℕ)
    → Unique areas
    → IdsBelow m areas
    → m ≤ new.id
    → find_area new.type new.number areas ≡ none
    → Unique (areas ++ new ∷ [])
append-Unique [] new m u b h e = (unfold find_area in refl, tt, tt)
append-Unique (a ∷ areas) new m u b h e = (
  find_area-append a.type a.number areas new u.0 (no_match a new areas e),
  LacksId-append a.id areas new u.1 (λ q. absurd (omega arith)),
  append-Unique areas new m u.2 b.2 h (later a new areas e),
)
  where
    no_match :
        (a new : Area) (areas : List Area)
        → find_area new.type new.number (a ∷ areas) ≡ none
        → is_area a.type a.number new ≡ false
    no_match a new areas e =
        unfold find_area in
        ground (arith, is_area_iff new.type new.number a, is_area_iff a.type a.number new)

    later :
        (a new : Area) (areas : List Area)
        → find_area new.type new.number (a ∷ areas) ≡ none
        → find_area new.type new.number areas ≡ none
    later a new areas e = unfold find_area in ground arith

pub append-IdsBelow :
    (areas : List Area) (new : Area) (m : ℕ)
    → IdsBelow m areas
    → 0 < m
    → new.id ≡ m
    → IdsBelow (m + 1) (areas ++ new ∷ [])
append-IdsBelow [] new m b h e = (omega arith, omega arith, tt)
append-IdsBelow (a ∷ areas) new m b h e = (b.0, omega arith, append-IdsBelow areas new m b.2 h e)

pub find_area-IdsBelow :
    (m : ℕ) (t : AreaType) (n : ℤ) (areas : List Area) (a : Area)
    → find_area t n areas ≡ some a
    → IdsBelow m areas
    → 0 < a.id
unfolding find_area
find_area-IdsBelow m t n [] a e b = absurd (cc e)
find_area-IdsBelow m t n (x ∷ areas) a e b = ground (arith, find_area-IdsBelow m t n areas a)
