-- ===== src/Commercial/Commitment/Choice.antt =====
-- The choice of the token that a commitment takes into account.
use caas_lite.Prelude.{
  ℕ, ◌≤◌, ◌≡◌, refl, String, true, false, Option, none, some, List, [], ◌∷◌, inl, inr, arith, ltb,
  Bool-cases, All, In, sym,
}
use mathlib.Core.Path.{subst}
use caas_lite.Commercial.Tables.{Token}
use caas_lite.Commercial.Commitment.{is_usable, larger, best_token}

-- No usable token, or a usable one of the list with the largest discount.
abbrev pub Best : String → ℕ → List Token → Option Token → Type 0
Best tenant now ks none = All (λ k. is_usable tenant now k ≡ false) ks
Best tenant now ks (some b) =
    In b ks
    × (is_usable tenant now b ≡ true)
    × All (λ k. is_usable tenant now k ≡ true → k.discount_pct ≤ b.discount_pct) ks

below_none :
    (tenant : String) (now n : ℕ) (ks : List Token)
    → All (λ k. is_usable tenant now k ≡ false) ks
    → All (λ k. is_usable tenant now k ≡ true → k.discount_pct ≤ n) ks
below_none tenant now n [] h = tt
below_none tenant now n (k ∷ ks) (e, h) = ((λ e'. cc), below_none tenant now n ks h)

below_larger :
    (tenant : String) (now m n : ℕ) (ks : List Token)
    → m ≤ n
    → All (λ k. is_usable tenant now k ≡ true → k.discount_pct ≤ m) ks
    → All (λ k. is_usable tenant now k ≡ true → k.discount_pct ≤ n) ks
below_larger tenant now m n [] h a = tt
below_larger tenant now m n (k ∷ ks) h (a, rest) =
    ((λ e. omega (arith, a e)), below_larger tenant now m n ks h rest)

take_usable :
    (tenant : String) (now : ℕ) (k : Token) (ks : List Token) (o : Option Token)
    → is_usable tenant now k ≡ true
    → Best tenant now ks o
    → Best tenant now (k ∷ ks) (some (larger k o))
take_usable tenant now k ks none e h =
    (inl refl, e, ((λ _. omega arith), below_none tenant now k.discount_pct ks h))
take_usable tenant now k ks (some q) e (here, usable, rest) =
    elim (Bool-cases (ltb k.discount_pct q.discount_pct)) [
      | inl less ↦
          let same : larger k (some q) ≡ q = rw less refl in
          subst (λ b. Best tenant now (k ∷ ks) (some b)) (sym same)
            (inr here, usable, ((λ _. ground arith), rest))
      | inr more ↦
          let same : larger k (some q) ≡ k = rw more refl in
          subst (λ b. Best tenant now (k ∷ ks) (some b)) (sym same)
            (
              inl refl,
              e,
              (
                (λ _. omega arith),
                below_larger tenant now q.discount_pct k.discount_pct ks (ground arith) rest,
              ),
            )
    ]

skip :
    (tenant : String) (now : ℕ) (k : Token) (ks : List Token) (o : Option Token)
    → is_usable tenant now k ≡ false
    → Best tenant now ks o
    → Best tenant now (k ∷ ks) o
skip tenant now k ks none e h = (e, h)
skip tenant now k ks (some q) e (here, usable, rest) = (inr here, usable, ((λ e'. cc), rest))

-- The token taken into account is usable and has the largest discount of the usable ones, and
-- there is none only if none is usable.
pub best_token-Best :
    (tenant : String) (now : ℕ) (ks : List Token) → Best tenant now ks (best_token tenant now ks)
unfolding best_token
best_token-Best tenant now [] = tt
best_token-Best tenant now (k ∷ ks) = elim (Bool-cases (is_usable tenant now k)) [
  | inl e ↦ rw (e, best_token) (take_usable tenant now k ks _ e (best_token-Best tenant now ks))
  | inr e ↦ rw (e, best_token) (skip tenant now k ks _ e (best_token-Best tenant now ks))
]

pub best_token-some :
    (tenant : String) (now : ℕ) (ks : List Token) (k : Token)
    → best_token tenant now ks ≡ some k
    → In k ks × (is_usable tenant now k ≡ true)
best_token-some tenant now ks k e =
    let (here, usable, _) = subst (Best tenant now ks) e (best_token-Best tenant now ks) in
    (here, usable)
