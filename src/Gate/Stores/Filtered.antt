-- ===== src/Gate/Stores/Filtered.antt =====
-- Which stores `FilterStores` of internal/app/authz.go leaves.
use erzhuang_project.Prelude.{
  ℕ, ◌<◌, ◌≡◌, refl, ap, Bool, false, List, [], ◌∷◌, ◌++◌, All, Option, some, arith, inl, inr,
  Bool-cases, if◌then◌else◌, length, ltb,
}
use erzhuang_project.Prelude.Text.{Text, CaseTable}
use erzhuang_project.Session.{Sessions}
use erzhuang_project.Access.Users.{Users, User, can_user_view_monitor_store}
use erzhuang_project.Gate.{Request, AuthConfig, Claims, Identity, current_auth_identity}
use erzhuang_project.Gate.Stores.{
  StoreInfo, StoreCityGroup, answer, viewable_stores, viewable_groups, filter_stores, for_user,
  current,
}

-- The entries that pass a test, in their order.
unfoldable pub keep : {A : Type 0} → (A → Bool) → List A → List A
keep p [] = []
keep p (x ∷ xs) = let rest = keep p xs in if p x then x ∷ rest else rest

keep-append :
    {A : Type 0} (p : A → Bool) (xs ys : List A) → keep p (xs ++ ys) ≡ keep p xs ++ keep p ys
unfolding keep
keep-append p [] ys = refl
keep-append p (x ∷ xs) ys = elim (Bool-cases (p x)) [
  | inl yes' ↦ rw (yes', keep) (ap (λ l. x ∷ l) (keep-append p xs ys))
  | inr no' ↦ rw (no', keep) (keep-append p xs ys)
]

-- The stores of a city, each with the city.
abbrev with_city : Text → List StoreInfo → List (Text × StoreInfo)
with_city city [] = []
with_city city (s ∷ ss) = (city, s) ∷ with_city city ss

-- All stores of the groups, in their order.
unfoldable pub listed : List StoreCityGroup → List (Text × StoreInfo)
listed [] = []
listed (g ∷ gs) = with_city g.city g.stores ++ listed gs

abbrev pub HasStores : StoreCityGroup → Type 0
HasStores g = 0 < length g.stores

module _ (table : CaseTable) (sha : Text → Text) (users : Users) where
  abbrev pub may_view_row : User → Text × StoreInfo → Bool
  may_view_row user row = can_user_view_monitor_store table sha users user row.1.external_org_id

  viewable_stores-keep :
      (user : User) (city : Text) (ss : List StoreInfo)
      → with_city city (viewable_stores table sha users user ss)
        ≡ keep (may_view_row user) (with_city city ss)
  unfolding viewable_stores keep
  viewable_stores-keep user city [] = refl
  viewable_stores-keep user city (s ∷ ss) =
      elim (Bool-cases (can_user_view_monitor_store table sha users user s.external_org_id)) [
        | inl seen ↦
            rw (seen, viewable_stores, keep)
              (ap (λ l. (city, s) ∷ l) (viewable_stores-keep user city ss))
        | inr hidden ↦ rw (hidden, viewable_stores, keep) (viewable_stores-keep user city ss)
      ]

  with_city_none :
      (city : Text) (ss : List StoreInfo) → ltb 0 (length ss) ≡ false → with_city city ss ≡ []
  with_city_none city [] h = refl
  with_city_none city (s ∷ ss) h = absurd (ground arith)

  viewable_groups-keep :
      (user : User) (gs : List StoreCityGroup)
      → listed (viewable_groups table sha users user gs) ≡ keep (may_view_row user) (listed gs)
  unfolding viewable_groups listed
  viewable_groups-keep user [] = unfold keep in refl
  viewable_groups-keep user (g ∷ gs) =
      let stores = viewable_stores table sha users user g.stores in
      let rest = viewable_groups-keep user gs in
      rw (keep-append (may_view_row user) (with_city g.city g.stores) (listed gs)) (
        rw⁻¹ (viewable_stores-keep user g.city g.stores)
          (elim (Bool-cases (ltb 0 (length stores))) [
            | inl some' ↦ rw (some', viewable_groups) (ap (λ l. with_city g.city stores ++ l) rest)
            | inr none' ↦ rw (none', viewable_groups, with_city_none g.city stores none') rest
          ]))

  viewable_groups-HasStores :
      (user : User) (gs : List StoreCityGroup)
      → All HasStores (viewable_groups table sha users user gs)
  unfolding viewable_groups
  viewable_groups-HasStores user [] = tt
  viewable_groups-HasStores user (g ∷ gs) = ground (arith, viewable_groups-HasStores user gs)

module _ (table : CaseTable) (sha : Text → Text) (digest : Text → ℕ) (decode : Text → Option Claims)
    (config : AuthConfig) (users : Users) where
  -- For a user whom the gate has let through, the filter leaves the session store alone and
  -- answers with the stores that the user may view, each under its city, in the order given, and
  -- with no city without a store.
  pub filter_stores-keep :
      (identity : Identity) (store : Option Sessions) (r : Request) (clock now : ℕ)
      (cities : List StoreCityGroup)
      → let user = identity.record_of_user in
        let kept = viewable_groups table sha users user cities in
        (filter_stores table sha digest decode config users (some identity) store r clock now cities
          ≡ (store, answer kept))
        × (listed kept ≡ keep (may_view_row table sha users user) (listed cities))
        × All HasStores kept
  unfolding filter_stores current current_auth_identity for_user
  filter_stores-keep identity store r clock now cities =
      let user = identity.record_of_user in
      (
        refl,
        viewable_groups-keep table sha users user cities,
        viewable_groups-HasStores table sha users user cities,
      )
