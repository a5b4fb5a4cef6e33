-- ===== src/Queue/Worker/Submission.antt =====
-- What a submission with an idempotency key gives back.
use caas_lite.Prelude.{
  ℕ, ◌≡◌, ◌≢◌, ◌⊎◌, ◌||◌, sym, Bool, false, Option, refl, String, All, Bool-cases, true, none, some,
  [], ◌∷◌, inl, inr, eq_iff, arith, In,
}
use mathlib.Core.Path.{subst}
use caas_lite.Queue.Job.{
  status_eq, JobDefinition, Row, JobStatus, queued, processing, completed, failed, dead,
}
use caas_lite.Queue.Table.{Table, key_eq, find_live, conflicts}
use caas_lite.Queue.Worker.{Queue, Submitted, existing, refused, find_duplicate, enqueue}

conflicts_of_key :
    (id k : String) (r : Row) (t : Table)
    → In r t
    → r.idempotency_key ≡ some k
    → conflicts id (some k) t ≡ true
unfolding conflicts
conflicts_of_key id k r [] m e = absurd m
conflicts_of_key id k r (q ∷ t) (inl same) e = ground (arith, eq_iff k k)
conflicts_of_key id k r (q ∷ t) (inr later) e = ground (arith, conflicts_of_key id k r t later)

-- What a submission of a key gives back by the state of the job that has it.
abbrev pub answer_for : JobStatus → String → Submitted
answer_for queued id = existing id
answer_for processing id = existing id
answer_for completed id = refused
answer_for failed id = refused
answer_for dead id = refused

-- The rows that have a key, as its UNIQUE constraint leaves them.
abbrev pub IsOnly : String → Row → Table → Type 0
IsOnly k r t = All (λ s. s.idempotency_key ≡ some k → s ≡ r) t

abbrev is_live : JobStatus → Bool
is_live s = status_eq s queued || status_eq s processing

refused_is_over : (s : JobStatus) (id : String) → answer_for s id ≡ refused → is_live s ≡ false
refused_is_over queued id e = cc
refused_is_over processing id e = cc
refused_is_over completed id e = refl
refused_is_over failed id e = refl
refused_is_over dead id e = refl

existing_is_live : (s : JobStatus) (id : String) → answer_for s id ≡ existing id → is_live s ≡ true
existing_is_live queued id e = refl
existing_is_live processing id e = refl
existing_is_live completed id e = cc
existing_is_live failed id e = cc
existing_is_live dead id e = cc

answer_cases :
    (s : JobStatus) (id : String) → (answer_for s id ≡ existing id) ⊎ (answer_for s id ≡ refused)
answer_cases queued id = inl refl
answer_cases processing id = inl refl
answer_cases completed id = inr refl
answer_cases failed id = inr refl
answer_cases dead id = inr refl

key_eq-some : (key : Option String) (k : String) → key_eq key k ≡ true → key ≡ some k
key_eq-some none k e = cc
key_eq-some (some j) k e = ground (arith, eq_iff j k)

some-key_eq : (key : Option String) (k : String) → key ≡ some k → key_eq key k ≡ true
some-key_eq key k e = rw e (ground (arith, eq_iff k k))

find_live_other :
    (k : String) (r : Row) (t : Table)
    → IsOnly k r t
    → answer_for r.status r.id ≡ refused
    → find_live k t ≡ none
unfolding find_live
find_live_other k r [] h e = refl
find_live_other k r (q ∷ t) (h, hs) e = elim (Bool-cases (key_eq q.idempotency_key k)) [
  | inl has ↦
      let at_r = h (key_eq-some q.idempotency_key k has) in
      let over =
        subst (λ (x : Row). is_live x.status ≡ false) (sym at_r)
          (refused_is_over r.status r.id e) in
      rw over (ground (arith, has, find_live_other k r t hs e))
  | inr lacks ↦ rw lacks (find_live_other k r t hs e)
]

find_live_only :
    (k : String) (r : Row) (t : Table)
    → In r t
    → IsOnly k r t
    → r.idempotency_key ≡ some k
    → answer_for r.status r.id ≡ existing r.id
    → find_live k t ≡ some r
unfolding find_live
find_live_only k r [] m h same e = absurd m
find_live_only k r (q ∷ t) (inl here) (h, hs) same e =
    subst (λ (x : Row). find_live k (x ∷ t) ≡ some r) here
      (rw (some-key_eq r.idempotency_key k same) (rw (existing_is_live r.status r.id e) refl))
find_live_only k r (q ∷ t) (inr later) (h, hs) same e =
    elim (Bool-cases (key_eq q.idempotency_key k)) [
      | inl has ↦
          let at_r = h (key_eq-some q.idempotency_key k has) in
          subst (λ (x : Row). find_live k (x ∷ t) ≡ some r) (sym at_r)
            (rw (some-key_eq r.idempotency_key k same) (rw (existing_is_live r.status r.id e) refl))
      | inr lacks ↦ rw lacks (find_live_only k r t later hs same e)
    ]

-- Where one job has a key, not empty, a submission of the key leaves the queue as it was: if the job
-- is queued or processing it gives back the job's id, and if it is completed, failed or dead it
-- fails on the UNIQUE constraint.
pub enqueue_same_key :
    (now : ℕ) (id k : String) (def : JobDefinition) (q : Queue) (r : Row)
    → def.idempotency_key ≡ some k
    → k ≢ ""
    → In r q.jobs
    → r.idempotency_key ≡ some k
    → IsOnly k r q.jobs
    → enqueue now id def q ≡ (answer_for r.status r.id, q)
unfolding enqueue find_duplicate
enqueue_same_key now id k def q r e ne m same only = elim (answer_cases r.status r.id) [
  | inl live ↦
      let l = find_live_only k r q.jobs m only same live in rw live (ground (arith, eq_iff k "", l))
  | inr over ↦
      let l = find_live_other k r q.jobs only over in
      rw over (ground (arith, eq_iff k "", l, conflicts_of_key id k r q.jobs m same))
]
