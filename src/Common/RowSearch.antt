-- ===== src/Common/RowSearch.antt =====
-- What searches, selections and orders keep of the rows of a table.
use mathlib.Core.Path.{◌≡◌, refl}
use mathlib.Core.Bool.{Bool, true, false}
use mathlib.Core.Logic.{inl, inr}
use mathlib.Core.Option.{some}
use mathlib.Core.List.{List, [], ◌∷◌}
use Prim.Native.Nat.{ℕ, zero, suc}
use native.Mathlib.Omega.{arith}
use replay_bug.Common.Tests.{Bool-cases}
use replay_bug.Common.Lists.{take, filter}
use replay_bug.Common.Preds.{All}
use replay_bug.Common.Rows.{find, Distinct}
use replay_bug.Common.Sort.{insert_by, sort_by}

-- A narrower test that the first row passes finds the same row.
pub find_narrow {ℓ} :
    {A : Type ℓ} (p q : A → Bool)
    → ((y : A) → p y ≡ false → q y ≡ false)
    → (xs : List A) (x : A) → find p xs ≡ some x
    → q x ≡ true
    → find q xs ≡ some x
unfolding find
find_narrow p q h [] x e k = absurd (cc)
find_narrow p q h (y ∷ ys) x e k = elim (Bool-cases (p y)) [
  | inl l ↦
      let same : y ≡ x = ground arith in let yes : q y ≡ true = rw same k in rw (yes, same) refl
  | inr l ↦ rw (h y l) (find_narrow p q h ys x (ground arith) k)
]

module _ {ℓ κ} {A : Type ℓ} (P : A → Type κ) where
  pub All-filter : (p : A → Bool) (xs : List A) → All P xs → All P (filter p xs)
  All-filter p [] h = tt
  All-filter p (x ∷ xs) (k, h) = elim (Bool-cases (p x)) [
    | inl l ↦ rw l (k, All-filter p xs h)
    | inr l ↦ rw l (All-filter p xs h)
  ]

  All-insert_by :
      (precedes : A → A → Bool) (x : A) (xs : List A)
      → P x
      → All P xs
      → All P (insert_by precedes x xs)
  All-insert_by precedes x [] k h = (k, tt)
  All-insert_by precedes x (y ∷ ys) k (l, h) = elim (Bool-cases (precedes x y)) [
    | inl e ↦ rw e (k, (l, h))
    | inr e ↦ rw e (l, All-insert_by precedes x ys k h)
  ]

  pub All-sort_by : (precedes : A → A → Bool) (xs : List A) → All P xs → All P (sort_by precedes xs)
  All-sort_by precedes [] h = tt
  All-sort_by precedes (x ∷ xs) (k, h) =
      All-insert_by precedes x (sort_by precedes xs) k (All-sort_by precedes xs h)

  pub All-take : (n : ℕ) (xs : List A) → All P xs → All P (take n xs)
  All-take zero xs h = tt
  All-take (suc n) [] h = tt
  All-take (suc n) (x ∷ xs) (k, h) = (k, All-take n xs h)

-- Where rows are distinct by a key, the key of each row finds it.
module _ {ℓ} {A : Type ℓ} (same : A → A → Bool) (reflexive : (x : A) → same x x ≡ true) where
  skipped :
      (x : A) (xs ys : List A)
      → All (λ y. same x y ≡ false) ys
      → All (λ y. find (λ z. same z y) xs ≡ some y) ys
      → All (λ y. find (λ z. same z y) (x ∷ xs) ≡ some y) ys
  unfolding find
  skipped x xs [] a h = tt
  skipped x xs (y ∷ ys) (k, a) (l, h) = (rw k l, skipped x xs ys a h)

  pub All-find_key :
      (xs : List A) → Distinct same xs → All (λ y. find (λ z. same z y) xs ≡ some y) xs
  unfolding find
  All-find_key [] d = tt
  All-find_key (x ∷ xs) (a, d) = (rw (reflexive x) refl, skipped x xs xs a (All-find_key xs d))
