-- ===== src/Commercial/Subscriptions/Runs.antt =====
-- The validation runs of a period, one after the other, and the charges that they log.
use caas_lite.Prelude.{
  ℕ, suc, ◌+◌, ◌*◌, ◌≡◌, refl, ap, ◌∙◌, ◌&&◌, String, Bool, true, false, List, [], ◌∷◌, ◌++◌,
  if◌then◌else◌, str_eq, eq_iff, arith, length, ltb,
}
use caas_lite.Commercial.Tables.{Subscription, OverageCharge, Tables, Result, ok, ◌>>=◌, Platform}
use caas_lite.Commercial.Subscriptions.{
  update_subscription, need_subscription, is_over, run_charge, overage_row, with_runs,
  record_validation_run,
}
use caas_lite.Commercial.Subscriptions.Laws.{
  find_subscription-update, need_subscription-ok, need_subscription-found,
}
use caas_lite.Commercial.Commitment.{units_over}

-- Runs at the given instants.
unfoldable pub record_runs : Platform → String → List ℕ → Tables → Result Tables
record_runs pf tenant [] t = ok t
record_runs pf tenant (now ∷ later) t =
    record_validation_run pf tenant now t >>= λ r. record_runs pf tenant later r.1

-- What the log says that a tenant owes, in ten-thousandths of a dollar.
unfoldable pub logged : String → List OverageCharge → ℕ
logged tenant [] = 0
logged tenant (c ∷ cs) =
    let rest = logged tenant cs in if str_eq c.tenant_id tenant then c.charge + rest else rest

logged-append :
    (tenant : String) (cs ds : List OverageCharge)
    → logged tenant (cs ++ ds) ≡ logged tenant cs + logged tenant ds
unfolding logged
logged-append tenant [] ds = ground arith
logged-append tenant (c ∷ cs) ds = ground (arith, logged-append tenant cs ds)

abbrev after_run : Subscription → String → ℕ → Tables → Tables
after_run s tenant now t = record t {
  subscriptions =
      update_subscription tenant (with_runs (s.runs_this_period + 1) now) t.subscriptions;
  overages = if is_over s then t.overages ++ overage_row tenant now s ∷ [] else t.overages;
}

-- The subscription after one more run.
abbrev pub one_more : ℕ → Subscription → Subscription
one_more now s = with_runs (s.runs_this_period + 1) now s

run_lem :
    (pf : Platform) (tenant : String) (now : ℕ) (t : Tables) (s : Subscription)
    → need_subscription pf tenant t ≡ ok s
    → (record_validation_run pf tenant now t ≡ ok (run_charge s, after_run s tenant now t))
      × (need_subscription pf tenant (after_run s tenant now t) ≡ ok (one_more now s))
unfolding record_validation_run
run_lem pf tenant now t s h =
    let (found, sound) = need_subscription-ok pf tenant t s h in
    (
      rw h refl,
      need_subscription-found pf tenant (after_run s tenant now t) (one_more now s)
          (ground (
            arith,
            eq_iff tenant tenant,
            find_subscription-update tenant tenant (with_runs (s.runs_this_period + 1) now)
                t.subscriptions (λ _. refl),
          ))
          sound,
    )

after_run-logged :
    (s : Subscription) (tenant : String) (now : ℕ) (t : Tables)
    → logged tenant (after_run s tenant now t).overages
      ≡ logged tenant t.overages + (if is_over s then s.overage_rate else 0)
unfolding logged
after_run-logged s tenant now t =
    ground
      (arith, eq_iff tenant tenant, logged-append tenant t.overages (overage_row tenant now s ∷ []))

over_units :
    (limit n : ℕ)
    → units_over limit (n + 1)
      ≡ units_over limit n + (if ltb 0 limit && ltb limit (n + 1) then 1 else 0)
unfolding units_over
over_units limit n = ground arith

times_if : (b : Bool) (x y : ℕ) → (x + (if b then 1 else 0)) * y ≡ x * y + (if b then y else 0)
times_if true x y = omega arith
times_if false x y = omega arith

over_one_more :
    (s : Subscription)
    → units_over s.included_runs (s.runs_this_period + 1) * s.overage_rate
      ≡ units_over s.included_runs s.runs_this_period * s.overage_rate
        + (if is_over s then s.overage_rate else 0)
over_one_more s =
    ap (λ n. n * s.overage_rate) (over_units s.included_runs s.runs_this_period)
    ∙ times_if (is_over s) _ _

add_suc : (m n : ℕ) → m + suc n ≡ m + 1 + n
add_suc m n = omega arith

-- From a sound subscription any sequence of runs succeeds, counts each of them and changes nothing
-- else of the subscription but its time, and what the log says that the tenant owes grows by the
-- runs above the limit, at the subscription's rate: what the commitment bills for them.
pub record_runs_lem :
    (pf : Platform) (tenant : String) (nows : List ℕ) (t : Tables) (s : Subscription)
    → need_subscription pf tenant t ≡ ok s
    → (t' : Tables) × (s' : Subscription) × (record_runs pf tenant nows t ≡ ok t')
      × (need_subscription pf tenant t' ≡ ok s')
      × (s' ≡ record s {
        runs_this_period = s.runs_this_period + length nows;
        updated_at = s'.updated_at;
      })
      × (logged tenant t'.overages + units_over s.included_runs s.runs_this_period * s.overage_rate
          ≡ logged tenant t.overages
            + units_over s.included_runs (s.runs_this_period + length nows) * s.overage_rate)
unfolding record_runs
record_runs_lem pf tenant [] t s h = (
  t,
  s,
  refl,
  h,
  ap (λ n. record s { runs_this_period = n }) (omega arith),
  (ap (λ n. logged tenant t.overages + units_over s.included_runs n * s.overage_rate)
      (omega arith)),
)
record_runs_lem pf tenant (now ∷ nows) t s h =
    let (ran, sound) = run_lem pf tenant now t s h in
    let (t', s', all, need, same, owed) =
      record_runs_lem pf tenant nows (after_run s tenant now t) (one_more now s) sound in
    (
      t',
      s',
      rw ran all,
      need,
      same ∙ ap (λ n. record s { runs_this_period = n; updated_at = s'.updated_at }) (omega arith),
      ground (
        arith,
        owed,
        after_run-logged s tenant now t,
        over_one_more s,
        add_suc s.runs_this_period (length nows),
      ),
    )
