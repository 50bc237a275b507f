-- ===== src/Snapshot/Backfill/Accounting.antt =====
-- The counts of a backfill's summary.
use erzhuang_project.Prelude.{
  ℕ, suc, ◌+◌, ◌≤◌, ◌≡◌, refl, List, [], ◌∷◌, Bool, true, false, Option, none, some, length, arith,
  inl, inr, Bool-cases, Option-cases,
}
use erzhuang_project.Prelude.Int.{ℤ}
use erzhuang_project.Prelude.Map.{Map, lookup, insert, lookup-insert}
use erzhuang_project.Prelude.Text.{Text, text, text_is_eq}
use erzhuang_project.Snapshot.Rtp.{ErrorCode}
use erzhuang_project.Snapshot.Backfill.{
  Summary, empty_summary, BackfillError, Progress, Turn, next, return, Visit, BackfillOptions,
  Selection, Configuration, configured, unconfigured, code_text, same_code,
  snapshot_status_succeeded, increment, count_failure, count_outcome, capture_candidate,
  visit_candidate, visit_all, run_backfill, process_candidate, prepare_options, start_progress,
  Turn-cases, Prepared-cases, not_configured, repository_failed,
}

-- The sum of a map's counts.
unfoldable pub total : Map Text ℕ → ℕ
total [] = 0
total ((k, n) ∷ m) = n + total m

total-insert-none :
    (k : Text) (m : Map Text ℕ) (n : ℕ) → lookup k m ≡ none → total (insert k n m) ≡ n + total m
unfolding total lookup insert
total-insert-none k [] n h = omega arith
total-insert-none k ((j, v) ∷ m) n h = ground (arith, total-insert-none k m n)

total-insert-some :
    (k : Text) (m : Map Text ℕ) (n v : ℕ)
    → lookup k m ≡ some v
    → total (insert k n m) + v ≡ n + total m
unfolding total lookup insert
total-insert-some k [] n v h = absurd (cc h)
total-insert-some k ((j, w) ∷ m) n v h = ground (arith, total-insert-some k m n v)

total-increment : (k : Text) (m : Map Text ℕ) → total (increment k m) ≡ suc (total m)
unfolding increment
total-increment k m = elim (Option-cases (lookup k m)) [
  | inl e ↦ rw (e, increment) (omega (arith, total-insert-none k m 1 e))
  | inr (v, e) ↦ rw (e, increment) (omega (arith, total-insert-some k m (suc v) v e))
]

abbrev handled : Summary → ℕ
handled s = s.skipped + s.succeeded + s.failed

-- Every failure stands in the map under its code, and no success does.
abbrev FailuresListed : Summary → Type 0
FailuresListed s = (total s.failures ≡ s.failed) × (lookup (text "succeeded") s.failures ≡ none)

-- With `n` candidates handled of those selected.
abbrev Balanced : ℕ → ℕ → Summary → Type 0
Balanced n selected s = (s.selected ≡ selected) × (handled s ≡ n) × FailuresListed s

abbrev TurnBalanced : ℕ → ℕ → Turn → Type 0
TurnBalanced n selected (next p) = Balanced (suc n) selected p.summary
TurnBalanced n selected (return s e) =
    (s.selected ≡ selected) × (handled s ≤ suc n) × FailuresListed s

increment-no_success :
    (code : ErrorCode) (m : Map Text ℕ)
    → same_code code snapshot_status_succeeded ≡ false
    → lookup (text "succeeded") m ≡ none
    → lookup (text "succeeded") (increment (code_text code) m) ≡ none
unfolding increment
increment-no_success code m h e = rw (lookup-insert (code_text code) (text "succeeded"), h) e

count_failure-TurnBalanced :
    (n selected : ℕ) (p : Progress) (code : ErrorCode)
    → same_code code snapshot_status_succeeded ≡ false
    → Balanced n selected p.summary
    → TurnBalanced n selected (count_failure p code)
unfolding count_failure
count_failure-TurnBalanced n selected p code h b = ground (
  arith,
  total-increment (code_text code) p.summary.failures,
  increment-no_success code p.summary.failures h b.2.1,
)

count_outcome-TurnBalanced :
    (n selected : ℕ) (p : Progress) (code : ErrorCode)
    → Balanced n selected p.summary
    → TurnBalanced n selected (count_outcome p code)
unfolding count_outcome
count_outcome-TurnBalanced n selected p code b =
    elim (Bool-cases (same_code code snapshot_status_succeeded)) [
      | inl e ↦ rw (e, count_outcome) (ground arith)
      | inr e ↦ rw (e, count_outcome) (count_failure-TurnBalanced n selected p code e b)
    ]

capture_candidate-TurnBalanced :
    (n selected : ℕ) (timeout interval : ℤ) (p : Progress) (v : Visit)
    → Balanced n selected p.summary
    → TurnBalanced n selected (capture_candidate timeout interval p v)
unfolding capture_candidate
capture_candidate-TurnBalanced n selected timeout interval p v b = ground (
  arith,
  count_outcome-TurnBalanced n selected (record p { captured = true }) (process_candidate v timeout)
      b,
)

visit_candidate-TurnBalanced :
    (n selected : ℕ) (force : Bool) (timeout interval : ℤ) (p : Progress) (v : Visit)
    → Balanced n selected p.summary
    → TurnBalanced n selected (visit_candidate force timeout interval p v)
unfolding visit_candidate
visit_candidate-TurnBalanced n selected true timeout interval p v b =
    capture_candidate-TurnBalanced n selected timeout interval p v b
visit_candidate-TurnBalanced n selected false timeout interval p v b =
    ground (arith, capture_candidate-TurnBalanced n selected timeout interval p v b)

-- Without an error every candidate selected is handled, with one perhaps not all.
abbrev pub Accounted : Summary × Option BackfillError → Type 0
Accounted (s, none) = (handled s ≡ s.selected) × FailuresListed s
Accounted (s, some e) = (handled s ≤ s.selected) × FailuresListed s

visit_all-Accounted :
    (n : ℕ) (force : Bool) (timeout interval : ℤ) (p : Progress) (vs : List Visit)
    → Balanced n (n + length vs) p.summary
    → Accounted (visit_all force timeout interval p vs)
unfolding visit_all
visit_all-Accounted n force timeout interval p [] b = ground arith
visit_all-Accounted n force timeout interval p (v ∷ vs) b =
    let turn = visit_candidate-TurnBalanced n (n + suc (length vs)) force timeout interval p v b in
    elim (Turn-cases (visit_candidate force timeout interval p v)) [
      | inl (p', e) ↦
          rw (e, visit_all)
            (visit_all-Accounted (suc n) force timeout interval p' vs
              (ground (arith, rw e at turn)))
      | inr (s, error, e) ↦ rw (e, visit_all) (ground (arith, rw e at turn))
    ]

start_progress-Balanced : (vs : List Visit) → Balanced 0 (0 + length vs) (start_progress vs).summary
unfolding start_progress total lookup
start_progress-Balanced vs = (omega arith, refl, (refl, refl))

empty_summary-Accounted : (e : BackfillError) → Accounted (empty_summary, some e)
unfolding total lookup
empty_summary-Accounted e = (omega arith, (refl, refl))

-- Whatever the cameras, the object store and the clock answer, the summary of a backfill counts
-- every selected candidate once as skipped, succeeded or failed if there is no error, and at most
-- that many if there is one; the counts by code add up to the failures, and none stands under the
-- code of success.
pub run_backfill-Accounted :
    (c : Configuration) (list_candidates : Selection → Option (List Visit)) (o : BackfillOptions)
    → Accounted (run_backfill c list_candidates o)
unfolding run_backfill
run_backfill-Accounted unconfigured list_candidates o = empty_summary-Accounted not_configured
run_backfill-Accounted configured list_candidates o = elim (Prepared-cases (prepare_options o)) [
  | inl (e, refuses) ↦ rw (refuses, run_backfill) (empty_summary-Accounted e)
  | inr (timeout, interval, goes) ↦ elim (Option-cases (list_candidates o.selection)) [
    | inl e ↦ rw (goes, run_backfill, e) (empty_summary-Accounted repository_failed)
    | inr (visits, e) ↦
        rw (goes, run_backfill, e)
          (visit_all-Accounted 0 o.force timeout interval (start_progress visits) visits
            (start_progress-Balanced visits))
  ]
]
