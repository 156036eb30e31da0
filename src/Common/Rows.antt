-- ===== src/Common/Rows.antt =====
-- Tables as lists of rows: the rows that a test finds, counts and tells apart, and what an update
-- of the rows that it finds does to them.
use mathlib.Core.Path.{◌≡◌, subst}
use mathlib.Core.Bool.{Bool, true, false}
use mathlib.Core.Option.{Option, none, some}
use mathlib.Core.Logic.{inl, inr}
use mathlib.Core.List.{List, [], ◌∷◌, ◌++◌, map}
use Prim.Native.Nat.{ℕ, ◌+◌}
use native.Mathlib.Omega.{arith}
use replay_bug.Common.Tests.{if◌then◌else◌, Bool-cases}
use replay_bug.Common.Preds.{All}

-- `rows[0]` of a query.
unfoldable pub find {ℓ} : {A : Type ℓ} → (A → Bool) → List A → Option A
find p [] = none
find p (x ∷ xs) = let rest = find p xs in if p x then some x else rest

abbrev pub weight : Bool → ℕ
weight true = 1
weight false = 0

-- The rows that pass a test, counted.
abbrev pub count {ℓ} : {A : Type ℓ} → (A → Bool) → List A → ℕ
count p [] = 0
count p (x ∷ xs) = weight (p x) + count p xs

-- No two rows are the same by a test: a unique key.
abbrev pub Distinct {ℓ} : {A : Type ℓ} → (A → A → Bool) → List A → Type ℓ
Distinct same [] = Unit
Distinct same (x ∷ xs) = All (λ y. same x y ≡ false) xs × Distinct same xs

-- `update(...).set(f).where(p)` on one row.
abbrev pub at {ℓ} : {A : Type ℓ} → (A → Bool) → (A → A) → A → A
at p f x = if p x then f x else x

module _ {ℓ κ} {A : Type ℓ} (P : A → Type κ) where
  pub All-prefix : (xs ys : List A) → All P (xs ++ ys) → All P xs
  All-prefix [] ys t = tt
  All-prefix (x ∷ xs) ys (p, t) = (p, All-prefix xs ys t)

module _ {ℓ κ} {A : Type ℓ} (P Q : A → Type κ) where
  pub All-imp : ((x : A) → P x → Q x) → (xs : List A) → All P xs → All Q xs
  All-imp h [] t = tt
  All-imp h (x ∷ xs) (p, t) = (h x p, All-imp h xs t)

  pub All-map :
      (f : A → A) → ((x : A) → P x → Q (f x)) → (xs : List A) → All P xs → All Q (map f xs)
  All-map f h [] t = tt
  All-map f h (x ∷ xs) (p, t) = (h x p, All-map f h xs t)

module _ {ℓ κ} {A : Type ℓ} (P : A → Type κ) (p : A → Bool) where
  pub All-find : (xs : List A) (x : A) → All P xs → find p xs ≡ some x → P x × (p x ≡ true)
  unfolding find
  All-find [] x t h = absurd (cc)
  All-find (y ∷ ys) x (q, t) h = elim (Bool-cases (p y)) [
    | inl k ↦ let e : y ≡ x = ground arith in (subst P e q, subst (λ z. p z ≡ true) e k)
    | inr k ↦ All-find ys x t (ground arith)
  ]
