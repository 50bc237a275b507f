-- ===== src/StoreSpace/Validation/Confirmed.antt =====
-- What passes the validation of a confirmation, ConfirmChannel accepts.
use erzhuang_project.Prelude.{
  ℕ, ◌≡◌, refl, Bool, true, false, [], ◌∷◌, none, some, arith, inl, inr, Bool-cases, Option-cases,
  if◌then◌else◌,
}
use erzhuang_project.Prelude.Text.{Text, trim_space, is_empty}
use erzhuang_project.Prelude.Decimal.{parse_int}
use erzhuang_project.StoreSpace.Model.{AreaType, Channel, ConfirmationInput}
use erzhuang_project.StoreSpace.Channels.{is_no_type, Work, confirmed_number, confirm_in_store}
use erzhuang_project.StoreSpace.Validation.{
  Fields, number, positive_number, finish_number, validate_channel_confirmation,
}

parse_int_blank : (t : Text) → is_empty t ≡ true → parse_int t ≡ none
unfolding parse_int
parse_int_blank [] h = refl
parse_int_blank (c ∷ t) h = absurd (cc h)

module _ (wide_digit : ℕ → Bool) where
  finish_number-confirmed_number :
      (type : AreaType) (s : Text) (fields : Fields) {n : ℕ}
      → finish_number wide_digit type (trim_space s) fields ≡ number n
      → confirmed_number type s ≡ some n
  unfolding finish_number positive_number confirmed_number
  finish_number-confirmed_number type s (f ∷ fields) h = absurd (cc h)
  finish_number-confirmed_number type s [] h = elim (Option-cases (parse_int (trim_space s))) [
    | inl bad ↦
        ground
          (arith, rw (bad, finish_number, positive_number) at h, parse_int_blank (trim_space s))
    | inr (z, good) ↦
        ground
          (arith, rw (good, finish_number, positive_number) at h, parse_int_blank (trim_space s))
  ]

  validated_business :
      (input : ConfirmationInput) {n : ℕ}
      → is_no_type input.area_type ≡ false
      → validate_channel_confirmation wide_digit input ≡ number n
      → confirmed_number input.area_type input.area_number ≡ some n
  unfolding validate_channel_confirmation
  validated_business input business h =
      finish_number-confirmed_number input.area_type input.area_number _
        (rw (business, validate_channel_confirmation) at h)

  confirm_in_store_business :
      (w : Work) (id : ℕ) (input : ConfirmationInput) (now : ℕ) (c : Channel) {n : ℕ}
      → is_no_type input.area_type ≡ false
      → confirmed_number input.area_type input.area_number ≡ some n
      → (confirm_in_store w id input now c).1 ≡ none
  unfolding confirm_in_store
  confirm_in_store_business w id input now c business h = rw (business, confirm_in_store, h) refl

  confirm_in_store_plain :
      (w : Work) (id : ℕ) (input : ConfirmationInput) (now : ℕ) (c : Channel)
      → is_no_type input.area_type ≡ true
      → (confirm_in_store w id input now c).1 ≡ none
  unfolding confirm_in_store
  confirm_in_store_plain w id input now c plain = rw (plain, confirm_in_store) refl

  -- A confirmation that passes the validation is never refused by ConfirmChannel on the channel's
  -- store, and the number validated for a business area is the one that ConfirmChannel reads.
  pub validated-confirm_in_store :
      (w : Work) (id : ℕ) (input : ConfirmationInput) (now : ℕ) (c : Channel) (n : ℕ)
      → validate_channel_confirmation wide_digit input ≡ number n
      → ((confirm_in_store w id input now c).1 ≡ none)
        × ((if is_no_type input.area_type
              then some n
              else confirmed_number input.area_type input.area_number)
            ≡ some n)
  validated-confirm_in_store w id input now c n h = elim (Bool-cases (is_no_type input.area_type)) [
    | inl plain ↦ (confirm_in_store_plain w id input now c plain, rw plain refl)
    | inr business ↦
        let parsed = validated_business input business h in
        (confirm_in_store_business w id input now c business parsed, rw business parsed)
  ]
