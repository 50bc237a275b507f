-- ===== src/Snapshot/Backfill/Circuit.antt =====
-- When a backfill opens its circuit.
use erzhuang_project.Prelude.{
  ℕ, suc, zero, ◌<◌, ◌≡◌, refl, Bool, true, false, ◌&&◌, ◌||◌, List, [], ◌∷◌, Option, none, some,
  All, arith, if◌then◌else◌, inl, inr, map,
}
use erzhuang_project.Prelude.Int.{ℤ}
use erzhuang_project.Prelude.Text.{text, text_eq, text_eq_iff}
use erzhuang_project.Snapshot.Rtp.{ErrorCode}
use erzhuang_project.Snapshot.Backfill.{
  Visit, Exists, missing, unknown, object_exists, process_candidate, is_circuit_failure,
  circuit_open, BackfillError, Turn, code_text, snapshot_status_succeeded, same_code, Progress,
  next, return, count_failure, count_outcome, capture_candidate, visit_candidate, visit_all,
  Selection, BackfillOptions, configured, prepared, prepare_options, run_backfill, start_progress,
  Turn-cases,
}

abbrev pub starts_with_three : List Bool → Bool
starts_with_three (true ∷ true ∷ true ∷ bs) = true
starts_with_three bs = false

-- Three times true stands side by side.
unfoldable pub three_in_a_row : List Bool → Bool
three_in_a_row [] = false
three_in_a_row (b ∷ bs) = starts_with_three (b ∷ bs) || three_in_a_row bs

is_known : Exists → Bool
is_known (unknown e) = false
is_known _ = true

is_missing : Exists → Bool
is_missing missing = true
is_missing _ = false

-- The object store answers, and the pause is not interrupted.
unfoldable pub undisturbed : Bool → ℤ → Visit → Bool
unfolding is_known
undisturbed force interval v = (force || is_known (object_exists v)) && v.sleep interval

-- What the captures of the candidates that are not skipped give, in their order.
unfoldable pub outcomes : Bool → ℤ → List Visit → List ErrorCode
unfolding is_missing
outcomes force timeout [] = []
outcomes force timeout (v ∷ vs) =
    let rest = outcomes force timeout vs in
    if force || is_missing (object_exists v) then process_candidate v timeout ∷ rest else rest

-- With `n` times true in front.
abbrev behind : ℕ → List Bool → Bool
behind zero bs = three_in_a_row bs
behind (suc n) bs = behind n (true ∷ bs)

behind_empty : (n : ℕ) → n < 3 → behind n [] ≡ false
unfolding three_in_a_row
behind_empty zero h = refl
behind_empty (suc zero) h = refl
behind_empty (suc (suc zero)) h = refl
behind_empty (suc (suc (suc n))) h = absurd (omega arith)

behind-false : (n : ℕ) (bs : List Bool) → n < 3 → behind n (false ∷ bs) ≡ three_in_a_row bs
unfolding three_in_a_row
behind-false zero bs h = refl
behind-false (suc zero) bs h = refl
behind-false (suc (suc zero)) bs h = refl
behind-false (suc (suc (suc n))) bs h = absurd (omega arith)

behind-true : (n : ℕ) (bs : List Bool) → n ≡ 2 → behind (suc n) bs ≡ true
unfolding three_in_a_row
behind-true n bs h = rw h refl

abbrev opens_at : ℕ → List Bool → Option BackfillError
opens_at n bs = if behind n bs then some circuit_open else none

circuit_bits : Bool → ℤ → List Visit → List Bool
unfolding outcomes
circuit_bits force timeout vs = map is_circuit_failure (outcomes force timeout vs)

-- A turn that captures, with the later captures `bs`.
abbrev TurnOpens : List Bool → ErrorCode → ℕ → Turn → Type 0
TurnOpens bs code n (next p) =
    (p.consecutive < 3) × (behind p.consecutive bs ≡ behind n (is_circuit_failure code ∷ bs))
TurnOpens bs code n (return s e) =
    (e ≡ circuit_open) × (behind n (is_circuit_failure code ∷ bs) ≡ true)

succeeded_no_circuit :
    (code : ErrorCode)
    → same_code code snapshot_status_succeeded ≡ true
    → is_circuit_failure code ≡ false
unfolding is_circuit_failure text_eq
succeeded_no_circuit code h = rw ((text_eq_iff (code_text code) (text "succeeded")).0 h) refl

count_outcome-TurnOpens :
    (p : Progress) (code : ErrorCode) (bs : List Bool)
    → p.consecutive < 3
    → TurnOpens bs code p.consecutive (count_outcome p code)
unfolding count_outcome count_failure
count_outcome-TurnOpens p code bs h = ground (
  arith,
  behind-false p.consecutive bs h,
  behind-true p.consecutive bs,
  succeeded_no_circuit code,
)

-- What a turn does to the answer, where the later captures give `bs`.
abbrev TurnAnswers : Bool → ℤ → Visit → List Visit → ℕ → Turn → Type 0
TurnAnswers force timeout v vs n (next p) =
    (p.consecutive < 3)
    × (behind p.consecutive (circuit_bits force timeout vs)
        ≡ behind n (circuit_bits force timeout (v ∷ vs)))
TurnAnswers force timeout v vs n (return s e) =
    (e ≡ circuit_open) × (behind n (circuit_bits force timeout (v ∷ vs)) ≡ true)

capture_candidate-TurnOpens :
    (timeout interval : ℤ) (p : Progress) (v : Visit) (bs : List Bool)
    → p.consecutive < 3
    → v.sleep interval ≡ true
    → TurnOpens bs
        (process_candidate v timeout)
        p.consecutive
        (capture_candidate timeout interval p v)
unfolding capture_candidate
capture_candidate-TurnOpens timeout interval p v bs h sleeps = ground (
  arith,
  count_outcome-TurnOpens (record p { captured = true }) (process_candidate v timeout) bs h,
)

visit_candidate-TurnAnswers :
    (force : Bool) (timeout interval : ℤ) (p : Progress) (v : Visit) (vs : List Visit)
    → p.consecutive < 3
    → undisturbed force interval v ≡ true
    → TurnAnswers force timeout v vs p.consecutive (visit_candidate force timeout interval p v)
unfolding visit_candidate circuit_bits outcomes undisturbed is_known is_missing
visit_candidate-TurnAnswers true timeout interval p v vs h calm =
    ground
      (arith, capture_candidate-TurnOpens timeout interval p v (circuit_bits true timeout vs) h)
visit_candidate-TurnAnswers false timeout interval p v vs h calm =
    ground
      (arith, capture_candidate-TurnOpens timeout interval p v (circuit_bits false timeout vs) h)

visit_all-opens :
    (force : Bool) (timeout interval : ℤ) (p : Progress) (vs : List Visit)
    → p.consecutive < 3
    → All (λ v. undisturbed force interval v ≡ true) vs
    → (visit_all force timeout interval p vs).1
      ≡ opens_at p.consecutive (circuit_bits force timeout vs)
unfolding visit_all
visit_all-opens force timeout interval p [] h calm =
    unfold circuit_bits in ground (arith, behind_empty p.consecutive h)
visit_all-opens force timeout interval p (v ∷ vs) h calm =
    let turn = visit_candidate-TurnAnswers force timeout interval p v vs h calm.0 in
    elim (Turn-cases (visit_candidate force timeout interval p v)) [
      | inl (p', e) ↦
          rw (e, visit_all)
            (ground (arith, rw e at turn, visit_all-opens force timeout interval p' vs))
      | inr (s, error, e) ↦ rw (e, visit_all) (ground (arith, rw e at turn))
    ]

-- With options that are accepted, candidates that are listed, and an object store and pauses that
-- never fail, a backfill ends with the open circuit exactly if three captures in a row, not
-- counting skipped candidates, failed by authorization or by connecting; otherwise it ends without
-- an error.
pub run_backfill-opens :
    (list_candidates : Selection → Option (List Visit)) (o : BackfillOptions) (vs : List Visit)
    (timeout interval : ℤ)
    → prepare_options o ≡ prepared timeout interval
    → list_candidates o.selection ≡ some vs
    → All (λ v. undisturbed o.force interval v ≡ true) vs
    → (run_backfill configured list_candidates o).1 ≡ (
        if three_in_a_row (map is_circuit_failure (outcomes o.force timeout vs))
        then some circuit_open
        else none)
unfolding run_backfill circuit_bits start_progress
run_backfill-opens list_candidates o vs timeout interval prepares lists calm =
    rw (prepares, run_backfill, lists)
      (visit_all-opens o.force timeout interval (start_progress vs) vs (omega arith) calm)
