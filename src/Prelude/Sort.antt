-- ===== src/Prelude/Sort.antt =====
-- `ORDER BY` and `LIMIT` of SQL.
use Prim.Native.Nat.{ℕ, zero, suc}
use mathlib.Core.Bool.{Bool}
use mathlib.Core.List.{List, [], ◌∷◌}
use caas_lite.Prelude.Tests.{if◌then◌else◌}

-- For a strict order of the rows: a row goes before the first that it does not follow, so rows that
-- tie stay in the order of the table.
unfoldable pub insert_by {ℓ} : {A : Type ℓ} → (A → A → Bool) → A → List A → List A
insert_by before a [] = a ∷ []
insert_by before a (x ∷ xs) =
    let rest = insert_by before a xs in if before x a then x ∷ rest else a ∷ x ∷ xs

unfoldable pub sort_by {ℓ} : {A : Type ℓ} → (A → A → Bool) → List A → List A
sort_by before [] = []
sort_by before (x ∷ xs) = insert_by before x (sort_by before xs)

unfoldable pub take {ℓ} : {A : Type ℓ} → ℕ → List A → List A
take zero xs = []
take (suc n) [] = []
take (suc n) (x ∷ xs) = x ∷ take n xs
