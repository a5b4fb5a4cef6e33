-- ===== src/Queue/Table/Laws.antt =====
-- What the statements do to a table: single rows, keys, and the choice of the next job.
use caas_lite.Prelude.{
  ◌++◌, Bool, filter, map, ℕ, ◌≤◌, ◌<◌, ◌≡◌, map, ◌⊎◌, refl, String, true, false, Option, none,
  some, [], ◌∷◌, inl, inr, if◌then◌else◌, str_eq, eq_iff, arith, Bool-cases, sym, In, All,
}
use mathlib.Core.Path.{subst}
use caas_lite.Queue.Job.{Row, rank}
use caas_lite.Queue.Table.{
  Table, update_row, find_row, conflicts, is_eligible, goes_before, first_of_two, select_next,
}

-- Every row has an id of its own.
abbrev pub IsKeyed : Table → Type 0
IsKeyed [] = Unit
IsKeyed (r ∷ t) = (find_row r.id t ≡ none) × IsKeyed t

pub find_row-update_row :
    (j id : String) (f : Row → Row) (t : Table)
    → ((r : Row) → (f r).id ≡ r.id)
    → find_row j (update_row id f t)
      ≡ elim (find_row j t) [ none ↦ none | some r ↦ some (if str_eq id j then f r else r) ]
unfolding find_row update_row
find_row-update_row j id f [] h = refl
find_row-update_row j id f (r ∷ t) h =
    ground (arith, eq_iff r.id id, eq_iff r.id j, eq_iff id j, h r, find_row-update_row j id f t h)

pub update_row-IsKeyed :
    (id : String) (f : Row → Row) (t : Table)
    → ((r : Row) → (f r).id ≡ r.id)
    → IsKeyed t
    → IsKeyed (update_row id f t)
unfolding update_row
update_row-IsKeyed id f [] h k = tt
update_row-IsKeyed id f (r ∷ t) h k =
    ground (arith, h r, update_row-IsKeyed id f t h k.1, find_row-update_row r.id id f t h)

-- No later than, in the order by priority and time of submission.
abbrev pub ComesNoLater : Row → Row → Type 0
ComesNoLater a b =
    (rank a.priority < rank b.priority)
    ⊎ ((rank a.priority ≡ rank b.priority) × (a.queued_at ≤ b.queued_at))

abbrev NoLaterThan : Row → Option Row → Type 0
NoLaterThan r none = Unit
NoLaterThan r (some q) = ComesNoLater r q

first_of_two_lem :
    (r : Row) (o : Option Row)
    → ComesNoLater (first_of_two r o) r
      × NoLaterThan (first_of_two r o) o
      × ((first_of_two r o ≡ r) ⊎ (o ≡ some (first_of_two r o)))
unfolding first_of_two goes_before
first_of_two_lem r none = ground arith
first_of_two_lem r (some q) = ground arith

ComesNoLater-trans : (a b c : Row) → ComesNoLater a b → ComesNoLater b c → ComesNoLater a c
ComesNoLater-trans a b c h k = omega arith

-- A row is chosen from a table if it is eligible there and no eligible row comes before it;
-- none is chosen if none is eligible.
abbrev pub Chosen : ℕ → Table → Option Row → Type 0
Chosen now t none = All (λ r. is_eligible now r ≡ false) t
Chosen now t (some r) =
    In r t × (is_eligible now r ≡ true) × All (λ q. is_eligible now q ≡ true → ComesNoLater r q) t

from_none :
    (now : ℕ) (r : Row) (t : Table)
    → All (λ q. is_eligible now q ≡ false) t
    → All (λ q. is_eligible now q ≡ true → ComesNoLater r q) t
from_none now r [] h = tt
from_none now r (q ∷ t) (e, h) = ((λ e'. cc), from_none now r t h)

from_later :
    (now : ℕ) (a b : Row) (t : Table)
    → ComesNoLater a b
    → All (λ q. is_eligible now q ≡ true → ComesNoLater b q) t
    → All (λ q. is_eligible now q ≡ true → ComesNoLater a q) t
from_later now a b [] h k = tt
from_later now a b (q ∷ t) h (k, ks) =
    ((λ e. ComesNoLater-trans a b q h (k e)), from_later now a b t h ks)

choose_eligible :
    (now : ℕ) (r : Row) (t : Table) (o : Option Row)
    → is_eligible now r ≡ true
    → Chosen now t o
    → Chosen now (r ∷ t) (some (first_of_two r o))
choose_eligible now r t none e h =
    let (first, _, from) = first_of_two_lem r none in
    let same : first_of_two r none ≡ r = grind arith in
    (inl same, rw same e, ((λ _. first), from_none now (first_of_two r none) t h))
choose_eligible now r t (some q) e (here, eligible, rest) =
    let (first, second, from) = first_of_two_lem r (some q) in
    let below = from_later now (first_of_two r (some q)) q t second rest in
    elim from [
      | inl same ↦ (inl same, rw same e, ((λ _. first), below))
      | inr other ↦
          let same : first_of_two r (some q) ≡ q = cc in
          (inr (subst (λ x. In x t) (sym same) here), rw same eligible, ((λ _. first), below))
    ]

skip :
    (now : ℕ) (r : Row) (t : Table) (o : Option Row)
    → is_eligible now r ≡ false
    → Chosen now t o
    → Chosen now (r ∷ t) o
skip now r t none e h = (e, h)
skip now r t (some q) e (here, eligible, rest) = (inr here, eligible, ((λ e'. cc), rest))

-- `dequeueNext` takes an eligible job than which no eligible job has a higher priority or, at
-- the same priority, was submitted earlier; it takes none only if none is eligible.
pub select_next-Chosen : (now : ℕ) (t : Table) → Chosen now t (select_next now t)
unfolding select_next
select_next-Chosen now [] = tt
select_next-Chosen now (r ∷ t) = elim (Bool-cases (is_eligible now r)) [
  | inl e ↦ rw (e, select_next) (choose_eligible now r t _ e (select_next-Chosen now t))
  | inr e ↦ rw (e, select_next) (skip now r t _ e (select_next-Chosen now t))
]

find_row_of_In : (r : Row) (t : Table) → IsKeyed t → In r t → find_row r.id t ≡ some r
unfolding find_row
find_row_of_In r [] k h = absurd h
find_row_of_In r (q ∷ t) k (inl same) = ground (arith, eq_iff q.id r.id)
find_row_of_In r (q ∷ t) k (inr later) =
    ground (arith, eq_iff q.id r.id, find_row_of_In r t k.1 later)

pub find_row_id : (id : String) (r : Row) (t : Table) → find_row id t ≡ some r → r.id ≡ id
unfolding find_row
find_row_id id r [] e = cc
find_row_id id r (q ∷ t) e = ground (arith, eq_iff q.id id, find_row_id id r t)

-- The row that `dequeueNext` takes is the one that its id names, and it is queued.
pub select_next-found :
    (now : ℕ) (r : Row) (t : Table)
    → IsKeyed t
    → select_next now t ≡ some r
    → (find_row r.id t ≡ some r) × (is_eligible now r ≡ true)
select_next-found now r t k e =
    let (here, eligible, _) = subst (Chosen now t) e (select_next-Chosen now t) in
    (find_row_of_In r t k here, eligible)

-- A new row at the end.
pub find_row-append_one :
    (j : String) (r : Row) (t : Table)
    → find_row j (t ++ r ∷ [])
      ≡ elim (find_row j t) [ some q ↦ some q | none ↦ if str_eq r.id j then some r else none ]
unfolding find_row
find_row-append_one j r [] = refl
find_row-append_one j r (q ∷ t) = ground (arith, find_row-append_one j r t)

pub append_one-IsKeyed :
    (r : Row) (t : Table) → IsKeyed t → find_row r.id t ≡ none → IsKeyed (t ++ r ∷ [])
unfolding find_row
append_one-IsKeyed r [] k e = (refl, tt)
append_one-IsKeyed r (q ∷ t) k e = ground (
  arith,
  eq_iff q.id r.id,
  eq_iff r.id q.id,
  append_one-IsKeyed r t k.1,
  find_row-append_one q.id r t,
)

pub find_row_of_not_conflicts :
    (id : String) (key : Option String) (t : Table)
    → conflicts id key t ≡ false
    → find_row id t ≡ none
unfolding conflicts find_row
find_row_of_not_conflicts id key [] e = refl
find_row_of_not_conflicts id key (r ∷ t) e = ground (arith, find_row_of_not_conflicts id key t)

-- Deleting rows.
pub find_row-filter-none :
    (j : String) (p : Row → Bool) (t : Table) → find_row j t ≡ none → find_row j (filter p t) ≡ none
unfolding find_row
find_row-filter-none j p [] e = refl
find_row-filter-none j p (r ∷ t) e = ground (arith, find_row-filter-none j p t)

pub filter-IsKeyed : (p : Row → Bool) (t : Table) → IsKeyed t → IsKeyed (filter p t)
filter-IsKeyed p [] k = tt
filter-IsKeyed p (r ∷ t) k = ground (arith, filter-IsKeyed p t k.1, find_row-filter-none r.id p t)

pub find_row-filter :
    (j : String) (p : Row → Bool) (t : Table) (r : Row)
    → find_row j t ≡ some r
    → p r ≡ true
    → find_row j (filter p t) ≡ some r
unfolding find_row
find_row-filter j p [] r e h = cc
find_row-filter j p (q ∷ t) r e h = ground (arith, find_row-filter j p t r)

pub find_row-map :
    (j : String) (f : Row → Row) (t : Table)
    → ((r : Row) → (f r).id ≡ r.id)
    → find_row j (map f t) ≡ elim (find_row j t) [ none ↦ none | some r ↦ some (f r) ]
unfolding find_row
find_row-map j f [] h = refl
find_row-map j f (r ∷ t) h = ground (arith, h r, find_row-map j f t h)

pub map-IsKeyed :
    (f : Row → Row) (t : Table) → ((r : Row) → (f r).id ≡ r.id) → IsKeyed t → IsKeyed (map f t)
map-IsKeyed f [] h k = tt
map-IsKeyed f (r ∷ t) h k = ground (arith, h r, map-IsKeyed f t h k.1, find_row-map r.id f t h)
