-- ===== src/Common/Sort.antt =====
-- The order of a query: insertion of each row before the first that it precedes.
use mathlib.Core.Bool.{Bool}
use mathlib.Core.List.{List, [], ◌∷◌}
use replay_bug.Common.Tests.{if◌then◌else◌}

module _ {ℓ} {A : Type ℓ} (precedes : A → A → Bool) where
  abbrev pub insert_by : A → List A → List A
  insert_by x [] = x ∷ []
  insert_by x (y ∷ ys) = let rest = insert_by x ys in if precedes x y then x ∷ y ∷ ys else y ∷ rest

  -- `orderBy(...)`
  abbrev pub sort_by : List A → List A
  sort_by [] = []
  sort_by (x ∷ xs) = insert_by x (sort_by xs)
