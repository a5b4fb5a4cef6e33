-- ===== src/Commercial/Underwriting.antt =====
-- `registerPolicy` and `computeUnderwritingRiskScore` of src/services/commercialEngine.ts.
-- `snapshot_id` and `token_id` are the ids drawn by an audit and `now` its clock reading.
pub mod Audit
pub mod Thread
pub mod Chain
pub mod Trace
use Prim.Native.String
use caas_lite.Prelude.{
  ℕ, ◌+◌, ◌-◌, ◌*◌, ◌/◌, String, not, ◌&&◌, ◌||◌, Option, none, some, List, [], ◌∷◌, ◌++◌,
  if◌then◌else◌, str_eq, any,
}
use caas_lite.Commercial.Tables.{
  RiskBand, amber, red, TokenStatus, Registry, AuditInputs, ComponentScores, Snapshot, Token,
  Tables, constraint, no_registry, Result, ok, err, Platform,
}
use caas_lite.Commercial.Digest.{bars, token_signature}
use caas_lite.Commercial.Subscriptions.{default_to}
use caas_lite.Commercial.Commitment.{token_status_eq}
use caas_lite.Commercial.Scores.{
  audit_window_ms, derive_risk_band, discount_for_band, collect_inputs, component_scores,
  composite_score,
}

-- `WHERE id = ? AND tenant_id = ?`
unfoldable pub find_registry : String → String → List Registry → Option Registry
find_registry id tenant [] = none
find_registry id tenant (r ∷ rs) =
    if str_eq r.id id && str_eq r.tenant_id tenant then some r else find_registry id tenant rs

unfoldable pub update_registry : String → (Registry → Registry) → List Registry → List Registry
update_registry id f [] = []
update_registry id f (r ∷ rs) = (if str_eq r.id id then f r else r) ∷ update_registry id f rs

-- The revocation of the tenant's other tokens.
unfoldable pub revoke_others : String → String → List Token → List Token
revoke_others tenant id [] = []
revoke_others tenant id (k ∷ ks) =
    (if str_eq k.tenant_id tenant
        && token_status_eq k.status TokenStatus.issued
        && not (str_eq k.id id)
      then record k { status = TokenStatus.revoked }
      else k)
    ∷ revoke_others tenant id ks

-- `SET token_id = ? WHERE id = ?`
unfoldable pub set_token : String → String → List Snapshot → List Snapshot
set_token id token [] = []
set_token id token (s ∷ ss) =
    (if str_eq s.id id then record s { token_id = some token } else s) ∷ set_token id token ss

-- `Math.round(base / 12 * (pct / 100) * 100) / 100`, in cents.
unfoldable pub discount_value : ℕ → ℕ → ℕ
discount_value premium pct = (premium * pct + 60000) / 120000

-- `Math.round(base * (1 - pct / 100) * 100) / 100`, or the premium itself.
unfoldable pub effective_premium : ℕ → Option ℕ → ℕ
effective_premium premium none = premium
effective_premium premium (some pct) = 100 * ((premium * (100 - pct) + 5000) / 10000)

unfoldable pub clean_audits : RiskBand → ℕ → ℕ
clean_audits red n = 0
clean_audits _ n = n + 1

pub record NewPolicy : Type 0 where
  pub tenant_id : String
  pub carrier_name : String
  pub carrier_id : String
  pub policy_number : String
  pub coverage_type : String
  pub coverage_limit : ℕ
  pub deductible : ℕ
  pub base_annual_premium : ℕ
  pub policy_start_date : String
  pub policy_end_date : String
  pub jurisdiction : Option String

-- `UnderwritingRiskResult`
pub record RiskResult : Type 0 where
  pub registry_id : String
  pub tenant_id : String
  pub composite_risk_score : ℕ
  pub risk_band : RiskBand
  pub discount_pct : Option ℕ
  pub token_id : Option String
  pub snapshot_id : String
  pub component_scores : ComponentScores
  pub inputs : AuditInputs

-- What an audit finds before it writes.
pub record Assessment : Type 0 where
  pub inputs : AuditInputs
  pub scores : ComponentScores
  pub score : ℕ
  pub band : RiskBand
  pub pct : Option ℕ

unfoldable pub assess : String → ℕ → Tables → Assessment
assess tenant now t =
    let inputs = collect_inputs tenant (now - audit_window_ms) t in
    let scores = component_scores inputs in
    let score = composite_score scores in
    record {
      inputs = inputs;
      scores = scores;
      score = score;
      band = derive_risk_band score;
      pct = discount_for_band (derive_risk_band score);
    }

abbrev pub with_snapshot : Snapshot → Tables → Tables
with_snapshot s t = record t { snapshots = t.snapshots ++ s ∷ [] }

-- The token with its snapshot's reference to it, and the older tokens revoked.
abbrev pub emitted : Token → Registry → Snapshot → Tables → Tables
emitted k r s t = record t {
  tokens = revoke_others r.tenant_id k.id (t.tokens ++ k ∷ []);
  snapshots = set_token s.id k.id t.snapshots;
}

abbrev pub succeeded : RiskResult × Tables → Result RiskResult × Tables
succeeded (answer, t) = (ok answer, t)

module _ (pf : Platform) where
  open pf use {hmac, sha256, snapshot_json}

  unfoldable pub seed_hash : String → String → String → String → String
  seed_hash id tenant policy carrier = hmac (bars (id ∷ tenant ∷ policy ∷ carrier ∷ []))

  unfoldable pub chain_hash : String → String → String
  chain_hash previous hash = hmac (String.◌++◌ previous (String.◌++◌ "||" hash))

  unfoldable pub new_registry : NewPolicy → String → ℕ → Registry
  new_registry p id now = record {
    id = id;
    tenant_id = p.tenant_id;
    carrier_name = p.carrier_name;
    carrier_id = p.carrier_id;
    policy_number = p.policy_number;
    coverage_type = p.coverage_type;
    coverage_limit = p.coverage_limit;
    deductible = p.deductible;
    base_annual_premium = p.base_annual_premium;
    risk_score = 50;
    risk_band = amber;
    verified_discount_pct = none;
    effective_annual_premium = p.base_annual_premium;
    golden_thread_hash = seed_hash id p.tenant_id p.policy_number p.carrier_name;
    policy_start_date = p.policy_start_date;
    policy_end_date = p.policy_end_date;
    last_audit_at = now;
    next_audit_at = now + audit_window_ms;
    consecutive_clean_audits = 0;
    status = "active";
    jurisdiction = default_to p.jurisdiction "GH";
    created_at = now;
    updated_at = now;
  }

  -- The id is a primary key and the policy number UNIQUE.
  unfoldable pub register_policy : NewPolicy → String → ℕ → Tables → Result (Registry × Tables)
  register_policy p id now t =
      if any (λ (r : Registry). str_eq r.id id || str_eq r.policy_number p.policy_number)
        t.registries
      then err constraint
      else (let r = new_registry p id now in
          ok (r, record t { registries = t.registries ++ r ∷ [] }))

  unfoldable pub new_snapshot : String → Registry → ℕ → Assessment → Snapshot
  new_snapshot id r now a =
      let hash =
        sha256 (snapshot_json id r.id r.tenant_id a.score a.band a.pct a.scores a.inputs) in
      record {
        id = id;
        registry_id = r.id;
        tenant_id = r.tenant_id;
        audit_period_start = now - audit_window_ms;
        audit_period_end = now;
        inputs = a.inputs;
        scores = a.scores;
        composite_risk_score = a.score;
        resulting_risk_band = a.band;
        discount_pct_emitted = a.pct;
        token_id = none;
        snapshot_hash = hash;
        chained_hash = chain_hash r.golden_thread_hash hash;
      }

  unfoldable pub new_token : String → String → Registry → ℕ → ℕ → Token
  new_token id snapshot r pct now =
      let expires = now + 60 * 86400000 in
      record {
        id = id;
        tenant_id = r.tenant_id;
        registry_id = r.id;
        snapshot_id = snapshot;
        discount_pct = pct;
        discount_value = discount_value r.base_annual_premium pct;
        status = TokenStatus.issued;
        expires_at = expires;
        applied_to_invoice = none;
        applied_at = none;
        token_signature = token_signature pf id r.tenant_id pct snapshot expires;
        issued_at = now;
      }

  -- The registry's row after an audit.
  unfoldable pub audited : Assessment → String → ℕ → ℕ → ℕ → Registry → Registry
  audited a hash clean premium now r = record r {
    risk_score = a.score;
    risk_band = a.band;
    verified_discount_pct = a.pct;
    effective_annual_premium = premium;
    golden_thread_hash = hash;
    last_audit_at = now;
    next_audit_at = now + audit_window_ms;
    consecutive_clean_audits = clean;
    updated_at = now;
  }

  -- The last statement of an audit and its answer.
  unfoldable pub close_audit :
      Registry → Assessment → Snapshot → Option String → ℕ → Tables → RiskResult × Tables
  close_audit r a s token now t =
      let clean = clean_audits a.band r.consecutive_clean_audits in
      let premium = effective_premium r.base_annual_premium a.pct in
      (
        record {
          registry_id = r.id;
          tenant_id = r.tenant_id;
          composite_risk_score = a.score;
          risk_band = a.band;
          discount_pct = a.pct;
          token_id = token;
          snapshot_id = s.id;
          component_scores = a.scores;
          inputs = a.inputs;
        },
        record t {
          registries =
              update_registry r.id (audited a s.chained_hash clean premium now) t.registries;
        },
      )

  -- The statements after the snapshot's. They are no transaction: an exception keeps the snapshot.
  unfoldable pub write_token :
      Registry → Assessment → Snapshot → String → ℕ → Tables → Result RiskResult × Tables
  write_token r a s token_id now t = elim a.pct [
    | none ↦ succeeded (close_audit r a s none now t)
    | some pct ↦
        if any (λ (k : Token). str_eq k.id token_id) t.tokens
        then (err constraint, t)
        else succeeded (
            close_audit r a s (some token_id) now
              (emitted (new_token token_id s.id r pct now) r s t))
  ]

  unfoldable pub write_audit :
      Registry → Assessment → Snapshot → String → ℕ → Tables → Result RiskResult × Tables
  write_audit r a s token_id now t =
      if any (λ (q : Snapshot). str_eq q.id s.id) t.snapshots
      then (err constraint, t)
      else write_token r a s token_id now (with_snapshot s t)

  unfoldable pub compute_underwriting_risk_score :
      String → String → String → String → ℕ → Tables → Result RiskResult × Tables
  compute_underwriting_risk_score tenant registry snapshot_id token_id now t =
      elim (find_registry registry tenant t.registries) [
        | none ↦ (err no_registry, t)
        | some r ↦
            let a = assess tenant now t in
            write_audit r a (new_snapshot snapshot_id r now a) token_id now t
      ]
