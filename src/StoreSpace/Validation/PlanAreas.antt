-- ===== src/StoreSpace/Validation/PlanAreas.antt =====
-- What the validation of a design plan promises of its areas.
use erzhuang_project.Prelude.{
  ℕ, ◌+◌, ◌<◌, ◌≡◌, ◌≢◌, refl, sym, ◌∙◌, Bool, true, false, not, ◌&&◌, List, [], ◌∷◌, ◌==◌, All,
  none, arith, inl, inr, Bool-cases, if◌then◌else◌, length, ltb,
}
use erzhuang_project.Prelude.Map.{Map, insert, lookup-insert}
use erzhuang_project.Prelude.Text.{Text, text_eq, text_eq_iff, text_is_eq, trim_space, is_empty}
use erzhuang_project.StoreSpace.Model.{AreaType}
use erzhuang_project.StoreSpace.Channels.{is_no_type, is_vip, must_positive_int}
use erzhuang_project.StoreSpace.Validation.{
  Fields, report, failed_fields, DesignAreaInput, SaveDesignPlanInput, valid_area_type, is_seen,
  only_digits, is_absent, check_area, is_keyed, key_of, check_areas, validate_save_design_plan,
  digits_message, positive_message, required_message,
}

insert_not_nil : (k v : Text) (m : Fields) → insert k v m ≢ []
unfolding insert
insert_not_nil k v [] h = absurd (cc h)
insert_not_nil k v ((j, w) ∷ m) h = elim (Bool-cases (text_eq j k)) [
  | inl same ↦ absurd (cc (rw (same, insert) at h))
  | inr other ↦ absurd (cc (rw (other, insert) at h))
]

report_nil :
    (test : Bool) (field message : Text) (fields : Fields)
    → report test field message fields ≡ []
    → (test ≡ false) × (fields ≡ [])
unfolding report
report_nil test field message fields h = ground (arith, insert_not_nil field message fields)

abbrev number_of : DesignAreaInput → ℕ
number_of area = must_positive_int (trim_space area.number_text)

failed_fields-none : (fields : Fields) → failed_fields fields ≡ none → fields ≡ []
unfolding failed_fields
failed_fields-none [] h = refl
failed_fields-none (f ∷ fields) h = absurd (cc h)

-- Of a known type, with a box, and with a positive number in digits or, for a VIP room, none.
pub record AreaInputOk (wide_digit : ℕ → Bool) (area : DesignAreaInput) : Type 0 where
  pub typed : valid_area_type area.type ≡ true
  pub numbered :
      (if is_empty (trim_space area.number_text)
        then is_vip area.type
        else only_digits wide_digit area.number_text && ltb 0 (number_of area))
      ≡ true
  pub boxed : is_absent area.box ≡ false

-- No two areas have the same type and number.
abbrev pub DistinctAreas : List DesignAreaInput → Type 0
DistinctAreas [] = Unit {0}
DistinctAreas (a ∷ rest) =
    All (λ b. ¬ ((a.type ≡ b.type) × (number_of a ≡ number_of b))) rest × DistinctAreas rest

module _ (wide_digit : ℕ → Bool) where
  -- The tests on the number, with those before them.
  numbered_nil :
      (blank vip digits zero_number : Bool) (field : Text) (typed : Fields)
      → (if blank
          then report (not vip) field required_message typed
          else if not digits
          then insert field digits_message typed
          else report zero_number field positive_message typed)
        ≡ []
      → ((if blank then vip else digits && not zero_number) ≡ true) × (typed ≡ [])
  numbered_nil true vip digits zero_number field typed h =
      ground (arith, report_nil (not vip) field required_message typed h)
  numbered_nil false vip false zero_number field typed h =
      absurd (insert_not_nil field digits_message typed h)
  numbered_nil false vip true zero_number field typed h =
      ground (arith, report_nil zero_number field positive_message typed h)

  check_area_nil :
      (index : ℕ) (area : DesignAreaInput) (fields : Fields)
      → check_area wide_digit index area fields ≡ []
      → AreaInputOk wide_digit area × (fields ≡ [])
  unfolding check_area
  check_area_nil index area fields h =
      let (boxed, h') = report_nil (is_absent area.box) _ _ _ h in
      let (numbered, h'') =
        numbered_nil (is_empty (trim_space area.number_text)) (is_vip area.type) _ _ _ _ h' in
      let (typed, none_before) = report_nil _ _ _ fields h'' in
      (
        record {
          typed = ground (arith, typed);
          numbered = ground (arith, numbered);
          boxed = boxed;
        },
        none_before,
      )

  valid_area_type-typed : (type : AreaType) → valid_area_type type ≡ true → is_no_type type ≡ false
  unfolding valid_area_type
  valid_area_type-typed type h = ground arith

  AreaInputOk-is_keyed :
      (area : DesignAreaInput) → AreaInputOk wide_digit area → is_keyed wide_digit area ≡ true
  unfolding is_keyed
  AreaInputOk-is_keyed area ok' =
      ground (arith, ok'.numbered, valid_area_type-typed area.type ok'.typed)

  abbrev Unseen : Map Text Bool → DesignAreaInput → Type 0
  Unseen seen area = is_seen (key_of wide_digit area) seen ≡ false

  is_seen-insert :
      (k j : Text) (seen : Map Text Bool)
      → is_seen j (insert k true seen) ≡ (if text_eq k j then true else is_seen j seen)
  is_seen-insert k j seen = rw (lookup-insert k j true seen, is_seen) (ground arith)

  keys_agree :
      (a b : DesignAreaInput)
      → (a.type ≡ b.type) × (number_of a ≡ number_of b)
      → text_eq (key_of wide_digit a) (key_of wide_digit b) ≡ true
  unfolding key_of
  keys_agree a b e =
      (text_eq_iff (key_of wide_digit a) (key_of wide_digit b)).1 (rw (e.0, e.1) refl)

  Unseen-insert :
      (seen : Map Text Bool) (a b : DesignAreaInput)
      → Unseen (insert (key_of wide_digit a) true seen) b
      → Unseen seen b × (¬ ((a.type ≡ b.type) × (number_of a ≡ number_of b)))
  unfolding key_of
  Unseen-insert seen a b h =
      let split = sym (is_seen-insert (key_of wide_digit a) (key_of wide_digit b) seen) ∙ h in
      elim (Bool-cases (text_eq (key_of wide_digit a) (key_of wide_digit b))) [
        | inl same ↦ absurd (cc (rw same at split))
        | inr other ↦ (rw other at split, λ e. absurd (cc (rw (keys_agree a b e) at other)))
      ]

  Unseen-insert-All :
      (seen : Map Text Bool) (a : DesignAreaInput) (areas : List DesignAreaInput)
      → All (Unseen (insert (key_of wide_digit a) true seen)) areas
      → All (Unseen seen) areas
        × All (λ b. ¬ ((a.type ≡ b.type) × (number_of a ≡ number_of b))) areas
  Unseen-insert-All seen a [] h = (tt, tt)
  Unseen-insert-All seen a (b ∷ areas) h =
      let here = Unseen-insert seen a b h.0 in
      let there = Unseen-insert-All seen a areas h.1 in ((here.0, there.0), (here.1, there.1))

  check_areas_nil :
      (index : ℕ) (areas : List DesignAreaInput) (seen : Map Text Bool) (fields : Fields)
      → check_areas wide_digit index areas seen fields ≡ []
      → (fields ≡ [])
        × All (AreaInputOk wide_digit) areas
        × All (Unseen seen) areas
        × DistinctAreas areas
  unfolding check_areas
  check_areas_nil index [] seen fields h = (h, tt, tt, tt)
  check_areas_nil index (area ∷ areas) seen fields h =
      elim (Bool-cases (is_keyed wide_digit area)) [
        | inl keyed ↦
            let (fields_nil, oks, fresh, distinct) =
              check_areas_nil (index + 1) areas (insert (key_of wide_digit area) true seen) _
                (rw (keyed, check_areas) at h) in
            let (unseen, before) = report_nil _ _ _ _ fields_nil in
            let (fine, none_before) = check_area_nil index area fields before in
            let (unseen_rest, apart) = Unseen-insert-All seen area areas fresh in
            (none_before, (fine, oks), (unseen, unseen_rest), (apart, distinct))
        | inr unkeyed ↦
            let rest = check_areas_nil (index + 1) areas seen _ (rw (unkeyed, check_areas) at h) in
            let fine = check_area_nil index area fields rest.0 in
            absurd (cc (sym unkeyed ∙ AreaInputOk-is_keyed area fine.0))
      ]

  -- A design plan that passes the validation has an area; every area has a known type, a box, and
  -- a positive number in digits or, for a VIP room, no number; and no two areas have the same type
  -- and number.
  pub validated_plan-DistinctAreas :
      (input : SaveDesignPlanInput)
      → validate_save_design_plan wide_digit input ≡ none
      → (0 < length input.areas)
        × All (AreaInputOk wide_digit) input.areas
        × DistinctAreas input.areas
  unfolding validate_save_design_plan
  validated_plan-DistinctAreas input h =
      let (counted, oks, fresh, distinct) =
        check_areas_nil 0 input.areas [] _ (failed_fields-none _ h) in
      let (some_area, before) = report_nil (length input.areas == 0) _ _ _ counted in
      (ground (arith, some_area), oks, distinct)
