-- ===== src/ResourceView/Bound.antt =====
-- The two indexes of the bindings agree with the relations.
use erzhuang_project.Prelude.{
  ℕ, ◌≡◌, refl, ◌∙◌, subst, Bool, true, false, not, ◌&&◌, ◌||◌, List, [], ◌∷◌, ◌++◌, ◌==◌, ==_iff,
  All, if◌then◌else◌, Option, none, some, map, ltb, arith, inl, inr, Bool-cases, Option-cases,
}
use erzhuang_project.Prelude.Map.{
  Map, lookup, insert, nat_eq, lookup-insert, All-insert, All-lookup,
}
use erzhuang_project.ResourceView.{
  Space, Relation, Camera, sort_by, insert_sorted, spaces_by_id, cameras_by_id,
}
use erzhuang_project.ResourceView.Index.{
  BindingIndex, or_empty, append_at, has, add_id, seen_pair, bind_camera, bind_relations,
  map_values, sort_index, empty_index, build_valid_bindings,
}

has-append : (n : ℕ) (xs ys : List ℕ) → has n (xs ++ ys) ≡ (has n xs || has n ys)
unfolding has
has-append n [] ys = refl
has-append n (x ∷ xs) ys = ground (arith, has-append n xs ys)

has-append_at :
    (n k j y : ℕ) (m : Map ℕ (List ℕ))
    → has n (or_empty (lookup k (append_at j y m)))
      ≡ ((j == k && y == n) || has n (or_empty (lookup k m)))
unfolding append_at has
has-append_at n k j y m =
    rw (lookup-insert j k (or_empty (lookup j m) ++ y ∷ []) m) (elim (Bool-cases (j == k)) [
      | inl same ↦
          rw (same, (==_iff j k).0 same, has-append n (or_empty (lookup k m)) (y ∷ []))
            (ground arith)
      | inr other ↦ rw other refl
    ])

has-add_id : (n c : ℕ) (ms : List ℕ) → has c (add_id n ms) ≡ (n == c || has c ms)
unfolding add_id has
has-add_id n c ms = elim (Bool-cases (n == c)) [
  | inl same ↦ rw ((==_iff n c).0 same) (ground (arith, has-append c ms (c ∷ [])))
  | inr other ↦ ground (arith, has-append c ms (n ∷ []))
]

has-insert_sorted : (n x : ℕ) (xs : List ℕ) → has n (insert_sorted ltb x xs) ≡ (x == n || has n xs)
unfolding insert_sorted has
has-insert_sorted n x [] = refl
has-insert_sorted n x (y ∷ ys) = ground (arith, has-insert_sorted n x ys)

has-sort_by : (n : ℕ) (xs : List ℕ) → has n (sort_by ltb xs) ≡ has n xs
unfolding sort_by has
has-sort_by n [] = refl
has-sort_by n (x ∷ xs) = ground (arith, has-sort_by n xs, has-insert_sorted n x (sort_by ltb xs))

has-map_values :
    (n k : ℕ) (m : Map ℕ (List ℕ))
    → has n (or_empty (lookup k (map_values (sort_by ltb) m))) ≡ has n (or_empty (lookup k m))
unfolding map_values lookup has
has-map_values n k [] = refl
has-map_values n k ((j, xs) ∷ m) = ground (arith, has-map_values n k m, has-sort_by n xs)

abbrev pub camera_ids : List Camera → List ℕ
camera_ids cs = map (λ (c : Camera). c.device.id) cs

abbrev pub space_ids : List Space → List ℕ
space_ids ss = map (λ (s : Space). s.id) ss

abbrev is_known : {A : Type 0} → Option A → Bool
is_known none = false
is_known (some a) = true

cameras_by_id_known :
    (k : ℕ) (m : Map ℕ Camera) (cs : List Camera)
    → is_known (lookup k (cameras_by_id m cs)) ≡ (is_known (lookup k m) || has k (camera_ids cs))
unfolding cameras_by_id has
cameras_by_id_known k m [] = ground arith
cameras_by_id_known k m (c ∷ cs) =
    ground
      (arith, cameras_by_id_known k (insert c.device.id c m) cs, lookup-insert c.device.id k c m)

spaces_by_id_known :
    (k : ℕ) (m : Map ℕ Space) (ss : List Space)
    → is_known (lookup k (spaces_by_id m ss)) ≡ (is_known (lookup k m) || has k (space_ids ss))
unfolding spaces_by_id has
spaces_by_id_known k m [] = ground arith
spaces_by_id_known k m (s ∷ ss) =
    ground (arith, spaces_by_id_known k (insert s.id s m) ss, lookup-insert s.id k s m)

abbrev OwnId : ℕ × Camera → Type 0
OwnId row = row.1.device.id ≡ row.0

cameras_by_id-OwnId :
    (m : Map ℕ Camera) (cs : List Camera) → All OwnId m → All OwnId (cameras_by_id m cs)
unfolding cameras_by_id
cameras_by_id-OwnId m [] h = h
cameras_by_id-OwnId m (c ∷ cs) h =
    cameras_by_id-OwnId (insert c.device.id c m) cs (All-insert OwnId c.device.id c m refl h)

-- The pairs that the loop has bound after the relations.
bound_pairs : Map ℕ Camera → Map ℕ Space → List (ℕ × ℕ) → List Relation → List (ℕ × ℕ)
bound_pairs cameras spaces seen [] = seen
bound_pairs cameras spaces seen (r ∷ rs) =
    if is_known (lookup r.device_id cameras)
      && is_known (lookup r.area_id spaces)
      && not (seen_pair r.device_id r.area_id seen)
    then bound_pairs cameras spaces ((r.device_id, r.area_id) ∷ seen) rs
    else bound_pairs cameras spaces seen rs

-- A pair with the camera is among them.
has_camera : ℕ → List (ℕ × ℕ) → Bool
has_camera c [] = false
has_camera c (p ∷ ps) = p.0 == c || has_camera c ps

-- The index holds the pairs, both ways.
record Holds (pairs : List (ℕ × ℕ)) (b : BindingIndex) : Type 0 where
  by_camera : (c s : ℕ) → has s (or_empty (lookup c b.space_ids_by_camera)) ≡ seen_pair c s pairs
  by_space : (c s : ℕ) → has c (or_empty (lookup s b.camera_ids_by_space)) ≡ seen_pair c s pairs
  bound : (c : ℕ) → has c b.bound_camera_ids ≡ has_camera c pairs

bind_camera-Holds :
    (pairs : List (ℕ × ℕ)) (b : BindingIndex) (camera : Camera) (space : ℕ)
    → Holds pairs b
    → Holds ((camera.device.id, space) ∷ pairs) (bind_camera camera space b)
unfolding bind_camera seen_pair has_camera
bind_camera-Holds pairs b camera space h = record {
  by_camera = λ c s.
      ground
        (arith, has-append_at s c camera.device.id space b.space_ids_by_camera, h.by_camera c s);
  by_space = λ c s.
      ground
        (arith, has-append_at c s space camera.device.id b.camera_ids_by_space, h.by_space c s);
  bound = λ c. ground (arith, has-add_id camera.device.id c b.bound_camera_ids, h.bound c);
}

bind_relations-Holds :
    (cameras : Map ℕ Camera) (spaces : Map ℕ Space) (seen : List (ℕ × ℕ)) (b : BindingIndex)
    (rs : List Relation)
    → All OwnId cameras
    → Holds seen b
    → Holds (bound_pairs cameras spaces seen rs) (bind_relations cameras spaces seen b rs)
unfolding bind_relations bound_pairs
bind_relations-Holds cameras spaces seen b [] own h = h
bind_relations-Holds cameras spaces seen b (r ∷ rs) own h =
    let skipped = bind_relations-Holds cameras spaces seen b rs own h in
    elim (Option-cases (lookup r.device_id cameras)) [
      | inl no_camera ↦ rw (no_camera, bind_relations, bound_pairs) skipped
      | inr (camera, c) ↦ elim (Option-cases (lookup r.area_id spaces)) [
        | inl no_space ↦ rw (c, no_space, bind_relations, bound_pairs) skipped
        | inr (space, s) ↦ elim (Bool-cases (seen_pair r.device_id r.area_id seen)) [
          | inl again ↦ rw (c, s, again, bind_relations, bound_pairs) skipped
          | inr new ↦
              rw (c, s, new, bind_relations, bound_pairs)
                (bind_relations-Holds cameras spaces ((r.device_id, r.area_id) ∷ seen)
                  (bind_camera camera r.area_id b) rs own
                  (subst (λ d. Holds ((d, r.area_id) ∷ seen) (bind_camera camera r.area_id b))
                    (All-lookup OwnId r.device_id cameras own c)
                    (bind_camera-Holds seen b camera r.area_id h)))
        ]
      ]
    ]

has_same : (a b : ℕ) (xs : List ℕ) → (a == b) ≡ true → has a xs ≡ has b xs
has_same a b xs h = rw ((==_iff a b).0 h) refl

seen_pair_same :
    (a c b s : ℕ) (ps : List (ℕ × ℕ))
    → (a == c && b == s) ≡ true
    → seen_pair a b ps ≡ seen_pair c s ps
unfolding seen_pair
seen_pair_same a c b s [] h = refl
seen_pair_same a c b s ((c', s') ∷ ps) h = ground (arith, seen_pair_same a c b s ps h)

has_camera_same :
    (a c : ℕ) (ps : List (ℕ × ℕ)) → (a == c) ≡ true → has_camera a ps ≡ has_camera c ps
has_camera_same a c ps h = rw ((==_iff a c).0 h) refl

seen_pair-has_camera :
    (c s : ℕ) (ps : List (ℕ × ℕ)) → seen_pair c s ps ≡ true → has_camera c ps ≡ true
unfolding seen_pair has_camera
seen_pair-has_camera c s [] h = absurd (cc h)
seen_pair-has_camera c s ((c', s') ∷ ps) h = ground (arith, seen_pair-has_camera c s ps)

-- A relation names the camera and the space.
unfoldable pub related : ℕ → ℕ → List Relation → Bool
related c s [] = false
related c s (r ∷ rs) = (r.device_id == c && r.area_id == s) || related c s rs

-- A relation names the camera and one of the spaces.
unfoldable pub related_to_any : ℕ → List ℕ → List Relation → Bool
related_to_any c spaces [] = false
related_to_any c spaces (r ∷ rs) =
    (r.device_id == c && has r.area_id spaces) || related_to_any c spaces rs

module _ (cameras : Map ℕ Camera) (spaces : Map ℕ Space) (cams places : List ℕ)
    (cams_known : (c : ℕ) → is_known (lookup c cameras) ≡ has c cams)
    (places_known : (s : ℕ) → is_known (lookup s spaces) ≡ has s places) where
  seen_pair-bound_pairs :
      (c s : ℕ) (seen : List (ℕ × ℕ)) (rs : List Relation)
      → seen_pair c s (bound_pairs cameras spaces seen rs)
        ≡ (seen_pair c s seen || (has c cams && has s places && related c s rs))
  unfolding bound_pairs related seen_pair
  seen_pair-bound_pairs c s seen [] = ground arith
  seen_pair-bound_pairs c s seen (r ∷ rs) =
      let skipped = seen_pair-bound_pairs c s seen rs in
      let taken = seen_pair-bound_pairs c s ((r.device_id, r.area_id) ∷ seen) rs in
      elim (Bool-cases (r.device_id == c && r.area_id == s)) [
        | inl here ↦ ground (
          arith,
          skipped,
          taken,
          cams_known r.device_id,
          places_known r.area_id,
          has_same r.device_id c cams,
          has_same r.area_id s places,
          seen_pair_same r.device_id c r.area_id s seen here,
        )
        | inr other ↦ ground (arith, skipped, taken)
      ]

  has_camera-bound_pairs :
      (c : ℕ) (seen : List (ℕ × ℕ)) (rs : List Relation)
      → has_camera c (bound_pairs cameras spaces seen rs)
        ≡ (has_camera c seen || (has c cams && related_to_any c places rs))
  unfolding bound_pairs related_to_any has_camera
  has_camera-bound_pairs c seen [] = ground arith
  has_camera-bound_pairs c seen (r ∷ rs) =
      let skipped = has_camera-bound_pairs c seen rs in
      let taken = has_camera-bound_pairs c ((r.device_id, r.area_id) ∷ seen) rs in
      ground (
        arith,
        skipped,
        taken,
        cams_known r.device_id,
        places_known r.area_id,
        has_same r.device_id c cams,
        has_camera_same r.device_id c seen,
        seen_pair-has_camera r.device_id r.area_id seen,
      )

-- What the bindings hold of a camera and a space, in the relations' own terms.
pub record Reflects (cams places : List ℕ) (rs : List Relation) (b : BindingIndex) : Type 0 where
  pub spaces_of_camera :
      (c s : ℕ)
      → has s (or_empty (lookup c b.space_ids_by_camera))
        ≡ (has c cams && has s places && related c s rs)
  pub cameras_of_space :
      (c s : ℕ)
      → has c (or_empty (lookup s b.camera_ids_by_space))
        ≡ (has c cams && has s places && related c s rs)
  pub bound_cameras :
      (c : ℕ) → has c b.bound_camera_ids ≡ (has c cams && related_to_any c places rs)

Holds-empty : Holds [] empty_index
unfolding lookup has seen_pair has_camera
Holds-empty = record { by_camera = λ c s. refl; by_space = λ c s. refl; bound = λ c. refl }

Holds-Reflects :
    (cameras : Map ℕ Camera) (spaces : Map ℕ Space) (cams places : List ℕ)
    (cams_known : (c : ℕ) → is_known (lookup c cameras) ≡ has c cams)
    (places_known : (s : ℕ) → is_known (lookup s spaces) ≡ has s places) (rs : List Relation)
    (b : BindingIndex)
    → Holds (bound_pairs cameras spaces [] rs) b
    → Reflects cams places rs (sort_index b)
unfolding sort_index seen_pair has_camera
Holds-Reflects cameras spaces cams places ck pk rs b h = record {
  spaces_of_camera = λ c s.
      has-map_values s c b.space_ids_by_camera
      ∙ (h.by_camera c s ∙ seen_pair-bound_pairs cameras spaces cams places ck pk c s [] rs);
  cameras_of_space = λ c s.
      has-map_values c s b.camera_ids_by_space
      ∙ (h.by_space c s ∙ seen_pair-bound_pairs cameras spaces cams places ck pk c s [] rs);
  bound_cameras = λ c. h.bound c ∙ has_camera-bound_pairs cameras spaces cams places ck pk c [] rs;
}

-- Whatever spaces, cameras and relations are given, the bindings list a space for a camera, and
-- the camera for the space, exactly if both exist and a relation names them; and a camera is bound
-- exactly if it exists and a relation names it with a space that exists.
pub build_valid_bindings-Reflects :
    (spaces : List Space) (cameras : List Camera) (relations : List Relation)
    → Reflects
        (camera_ids cameras)
        (space_ids spaces)
        relations
        (build_valid_bindings spaces cameras relations)
unfolding build_valid_bindings lookup
build_valid_bindings-Reflects spaces cameras relations =
    Holds-Reflects (cameras_by_id [] cameras) (spaces_by_id [] spaces) (camera_ids cameras)
      (space_ids spaces) (λ c. cameras_by_id_known c [] cameras)
      (λ s. spaces_by_id_known s [] spaces) relations
      (bind_relations (cameras_by_id [] cameras) (spaces_by_id [] spaces) [] empty_index relations)
      (bind_relations-Holds (cameras_by_id [] cameras) (spaces_by_id [] spaces) [] empty_index
        relations (cameras_by_id-OwnId [] cameras tt) Holds-empty)
