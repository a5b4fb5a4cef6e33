-- ===== src/Commercial/Reads/Laws.antt =====
-- The list of active tokens against the token that an invoice takes.
use caas_lite.Prelude.{
  insert_by, sort_by, ℕ, ◌≡◌, refl, ap, ◌∙◌, String, Bool, Option, none, some, List, [], ◌∷◌, ltb,
  arith, filter, Bool-cases, inl, inr,
}
use caas_lite.Commercial.Tables.{Token, Tables}
use caas_lite.Commercial.Commitment.{is_usable, larger, best_token}
use caas_lite.Commercial.Reads.{get_active_tokens}

abbrev pub head_of {ℓ} : {A : Type ℓ} → List A → Option A
head_of [] = none
head_of (x ∷ xs) = some x

abbrev by_discount : Token → Token → Bool
by_discount a b = ltb b.discount_pct a.discount_pct

head-insert_by :
    (k : Token) (ks : List Token)
    → head_of (insert_by by_discount k ks) ≡ some (larger k (head_of ks))
unfolding insert_by
head-insert_by k [] = refl
head-insert_by k (q ∷ ks) = ground arith

head-sort_by :
    (tenant : String) (now : ℕ) (ks : List Token)
    → head_of (sort_by by_discount (filter (is_usable tenant now) ks)) ≡ best_token tenant now ks
unfolding sort_by best_token
head-sort_by tenant now [] = refl
head-sort_by tenant now (k ∷ ks) =
    let rest = head-sort_by tenant now ks in
    elim (Bool-cases (is_usable tenant now k)) [
      | inl e ↦ rw e (head-insert_by k _ ∙ ap (λ o. some (larger k o)) rest)
      | inr e ↦ rw e rest
    ]

-- The first of the active tokens that are listed is the one that a commitment and an invoice at
-- that time take into account, and none is listed where they take none.
pub get_active_tokens_head :
    (tenant : String) (now : ℕ) (t : Tables)
    → head_of (get_active_tokens tenant now t) ≡ best_token tenant now t.tokens
unfolding get_active_tokens
get_active_tokens_head tenant now t = head-sort_by tenant now t.tokens
