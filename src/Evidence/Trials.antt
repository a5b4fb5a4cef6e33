-- ===== src/Evidence/Trials.antt =====
-- What is left of a trial once it is over.
use caas_lite.Prelude.{
  ℕ, ◌≡◌, refl, ap, ◌∙◌, String, List, [], ◌∷◌, Bool-cases, inl, inr, ltb, ◌+◌, str_eq, insert_by,
  sort_by, ◌≢◌,
}
use caas_lite.Evidence.{
  Meter, TrialStatus, active, expired_locked, expired_converted, get_meter_by_tenant, lock_trials,
  more_runs, evaluate_trial_status, after_trial, trial_of, trial_duration_ms,
}

abbrev locked : Meter → Meter
locked m = record m { trial_status = expired_locked }

abbrev all_locked : List Meter → List Meter
all_locked [] = []
all_locked (m ∷ ms) = locked m ∷ all_locked ms

insert_by-locked :
    (m : Meter) (ms : List Meter)
    → insert_by more_runs (locked m) (all_locked ms) ≡ all_locked (insert_by more_runs m ms)
unfolding insert_by
insert_by-locked m [] = refl
insert_by-locked m (n ∷ ms) = elim (Bool-cases (ltb m.verification_runs n.verification_runs)) [
  | inl e ↦ rw e (ap (λ ns. locked n ∷ ns) (insert_by-locked m ms))
  | inr e ↦ rw e refl
]

get_meter_by_tenant-lock_trials :
    (tenant : String) (ms : List Meter)
    → get_meter_by_tenant tenant (lock_trials tenant ms)
      ≡ all_locked (get_meter_by_tenant tenant ms)
unfolding get_meter_by_tenant lock_trials sort_by
get_meter_by_tenant-lock_trials tenant [] = refl
get_meter_by_tenant-lock_trials tenant (m ∷ ms) =
    let rest = get_meter_by_tenant-lock_trials tenant ms in
    elim (Bool-cases (str_eq m.tenant_id tenant)) [
      | inl e ↦ rw e (
          rw e (
            ap (insert_by more_runs (locked m)) rest
            ∙ insert_by-locked m (get_meter_by_tenant tenant ms)))
      | inr e ↦ rw e (rw e rest)
    ]

-- The second evaluation where the meter with the most runs is the one given.
from_rows :
    (tenant : String) (ms : List Meter) (later : ℕ) (m : Meter) (rows : List Meter)
    (s : TrialStatus)
    → get_meter_by_tenant tenant ms ≡ m ∷ rows
    → m.trial_status ≡ s
    → evaluate_trial_status tenant later ms ≡ after_trial tenant later ms m s
unfolding evaluate_trial_status
from_rows tenant ms later m rows s shown status = rw (shown, trial_of) (rw status refl)

after_trial_stays :
    (tenant : String) (ms : List Meter) (now later : ℕ) (m : Meter) (rows : List Meter)
    (s : TrialStatus)
    → get_meter_by_tenant tenant ms ≡ m ∷ rows
    → m.trial_status ≡ s
    → (after_trial tenant now ms m s).0 ≢ active
    → evaluate_trial_status tenant later (after_trial tenant now ms m s).1
      ≡ after_trial tenant now ms m s
after_trial_stays tenant ms now later m rows expired_converted shown status over =
    from_rows tenant ms later m rows expired_converted shown status
after_trial_stays tenant ms now later m rows expired_locked shown status over =
    from_rows tenant ms later m rows expired_locked shown status
after_trial_stays tenant ms now later m rows active shown status over =
    elim (Bool-cases (ltb (m.trial_start_timestamp + trial_duration_ms) now)) [
      | inl e ↦ rw e (
          from_rows tenant (lock_trials tenant ms) later (locked m) (all_locked rows) expired_locked
            (get_meter_by_tenant-lock_trials tenant ms ∙ ap all_locked shown) refl)
      | inr e ↦ absurd (over (rw e refl))
    ]

rows_stay :
    (tenant : String) (ms : List Meter) (now later : ℕ) (rows : List Meter)
    → get_meter_by_tenant tenant ms ≡ rows
    → (trial_of tenant now ms rows).0 ≢ active
    → evaluate_trial_status tenant later (trial_of tenant now ms rows).1
      ≡ trial_of tenant now ms rows
rows_stay tenant ms now later [] shown over = absurd (over refl)
rows_stay tenant ms now later (m ∷ rows) shown over =
    after_trial_stays tenant ms now later m rows m.trial_status shown refl over

-- A trial that an evaluation does not find active stays as it is: an evaluation at any other time
-- gives the same status and changes no meter.
pub evaluate_trial_status_final :
    (tenant : String) (ms : List Meter) (now later : ℕ)
    → (evaluate_trial_status tenant now ms).0 ≢ active
    → evaluate_trial_status tenant later (evaluate_trial_status tenant now ms).1
      ≡ evaluate_trial_status tenant now ms
unfolding evaluate_trial_status
evaluate_trial_status_final tenant ms now later over =
    rows_stay tenant ms now later (get_meter_by_tenant tenant ms) refl over
