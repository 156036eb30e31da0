-- ===== src/Common/RowLaws.antt =====
-- How the rows of a table that a test finds, counts or tells apart change with an update or an
-- insert.
use mathlib.Core.Path.{◌≡◌, refl, sym}
use mathlib.Core.Bool.{Bool, true, false, ◌||◌}
use mathlib.Core.Option.{Option, none, some}
use mathlib.Core.Option
use mathlib.Core.Logic.{inl, inr}
use mathlib.Core.List.{List, [], ◌∷◌, ◌++◌, map}
use Prim.Native.Nat.{◌+◌}
use native.Mathlib.Omega.{arith}
use replay_bug.Common.Tests.{Bool-cases}
use replay_bug.Common.Lists.{any}
use replay_bug.Common.Preds.{All}
use replay_bug.Common.Rows.{find, weight, count, Distinct, at, All-find}

module _ {ℓ} {A : Type ℓ} (p : A → Bool) where
  -- At most one row passes.
  abbrev pub Only : List A → Type ℓ
  Only [] = Unit
  Only (x ∷ xs) = (p x ≡ true → All (λ y. p y ≡ false) xs) × Only xs

  pub Only-of_distinct :
      (same : A → A → Bool)
      → ((x y : A) → p x ≡ true → same x y ≡ false → p y ≡ false)
      → (xs : List A) → Distinct same xs
      → Only xs
  Only-of_distinct same sep [] h = tt
  Only-of_distinct same sep (x ∷ xs) (a, h) = (λ k. apart xs k a, Only-of_distinct same sep xs h)
    where
      apart :
          (ys : List A) → p x ≡ true → All (λ y. same x y ≡ false) ys → All (λ y. p y ≡ false) ys
      apart [] k t = tt
      apart (y ∷ ys) k (b, t) = (sep x y k b, apart ys k t)

  pub any-of_find : (xs : List A) (x : A) → find p xs ≡ some x → any p xs ≡ true
  unfolding find
  any-of_find [] x h = absurd (cc)
  any-of_find (y ∷ ys) x h = ground (arith, any-of_find ys x)

  pub find-passes : (xs : List A) (x : A) → find p xs ≡ some x → p x ≡ true
  unfolding find
  find-passes [] x h = cc
  find-passes (y ∷ ys) x h = ground (arith, find-passes ys x)

  pub any-of_none : (xs : List A) → find p xs ≡ none → any p xs ≡ false
  unfolding find
  any-of_none [] h = refl
  any-of_none (y ∷ ys) h = ground (arith, any-of_none ys)

  pub none-of_any : (xs : List A) → any p xs ≡ false → find p xs ≡ none
  unfolding find
  none-of_any [] h = refl
  none-of_any (y ∷ ys) h = ground (arith, none-of_any ys)

  pub All-of_any : (xs : List A) → any p xs ≡ false → All (λ x. p x ≡ false) xs
  All-of_any [] h = tt
  All-of_any (y ∷ ys) h = elim (Bool-cases (p y)) [
    | inl k ↦ absurd (ground arith)
    | inr k ↦ (k, All-of_any ys (ground arith))
  ]

  pub any-weaker :
      (q : A → Bool)
      → ((x : A) → p x ≡ false → q x ≡ false)
      → (xs : List A) → any p xs ≡ false
      → any q xs ≡ false
  any-weaker q h [] t = refl
  any-weaker q h (x ∷ xs) t = elim (Bool-cases (p x)) [
    | inl k ↦ absurd (ground arith)
    | inr k ↦ rw (h x k) (any-weaker q h xs (ground arith))
  ]

  pub find-append_here :
      (xs : List A) (y : A) → find p xs ≡ none → p y ≡ true → find p (xs ++ (y ∷ [])) ≡ some y
  unfolding find
  find-append_here [] y h k = rw k
  find-append_here (x ∷ xs) y h k = ground (arith, find-append_here xs y)

  pub find-append_keep : (xs ys : List A) (x : A) → find p xs ≡ some x → find p (xs ++ ys) ≡ some x
  unfolding find
  find-append_keep [] ys x h = absurd (cc)
  find-append_keep (y ∷ xs) ys x h = ground (arith, find-append_keep xs ys x)

  pub find-append_skip : (xs : List A) (y : A) → p y ≡ false → find p (xs ++ (y ∷ [])) ≡ find p xs
  unfolding find
  find-append_skip [] y k = rw k
  find-append_skip (x ∷ xs) y k = ground (arith, find-append_skip xs y k)

  pub count-append_one :
      (xs : List A) (y : A) → count p (xs ++ (y ∷ [])) ≡ count p xs + weight (p y)
  count-append_one [] y = omega arith
  count-append_one (x ∷ xs) y = omega (arith, count-append_one xs y)

  pub count-none : (xs : List A) → any p xs ≡ false → count p xs ≡ 0
  count-none [] h = refl
  count-none (x ∷ xs) h = ground (arith, count-none xs)

  pub any-append_one : (xs : List A) (y : A) → any p (xs ++ (y ∷ [])) ≡ any p xs || p y
  any-append_one [] y = ground arith
  any-append_one (x ∷ xs) y = ground (arith, any-append_one xs y)

  pub any_mono :
      (q : A → Bool) (f : A → A)
      → ((x : A) → p x ≡ true → q (f x) ≡ true)
      → (xs : List A) → any p xs ≡ true
      → any q (map f xs) ≡ true
  any_mono q f h [] t = cc
  any_mono q f h (x ∷ xs) t = elim (Bool-cases (p x)) [
    | inl k ↦ rw (h x k) refl
    | inr k ↦ ground (arith, any_mono q f h xs)
  ]

  pub any-map :
      (f : A → A) → ((x : A) → p (f x) ≡ p x) → (xs : List A) → any p (map f xs) ≡ any p xs
  any-map f h [] = refl
  any-map f h (x ∷ xs) = rw (h x, any-map f h xs)

-- An update of the rows that pass `p`.
module _ {ℓ} {A : Type ℓ} (p : A → Bool) (f : A → A) where
  pub find-at_same :
      ((x : A) → p (f x) ≡ p x)
      → (xs : List A) → find p (map (at p f) xs) ≡ Option.map f (find p xs)
  unfolding find
  find-at_same keeps [] = refl
  find-at_same keeps (x ∷ xs) = elim (Bool-cases (p x)) [
    | inl k ↦ rw (k, keeps x, k)
    | inr k ↦ rw (k, k) (find-at_same keeps xs)
  ]

  pub find-at_other :
      (q : A → Bool)
      → ((x : A) → p x ≡ true → (q x ≡ false) × (q (f x) ≡ false))
      → (xs : List A) → find q (map (at p f) xs) ≡ find q xs
  unfolding find
  find-at_other q apart [] = refl
  find-at_other q apart (x ∷ xs) = elim (Bool-cases (p x)) [
    | inl k ↦ let (a, b) = apart x k in rw (k, a, b) (find-at_other q apart xs)
    | inr k ↦ rw (k, find-at_other q apart xs) refl
  ]

  pub find-map :
      (q : A → Bool) (g : A → A)
      → ((x : A) → q (g x) ≡ q x)
      → (xs : List A) → find q (map g xs) ≡ Option.map g (find q xs)
  unfolding find
  find-map q g keeps [] = refl
  find-map q g keeps (x ∷ xs) = elim (Bool-cases (q x)) [
    | inl k ↦ rw (keeps x, k)
    | inr k ↦ rw (keeps x, k) (find-map q g keeps xs)
  ]

  pub map-at-at :
      (g : A → A)
      → ((x : A) → p (g x) ≡ p x)
      → (xs : List A) → map (at p f) (map (at p g) xs) ≡ map (at p (λ x. f (g x))) xs
  map-at-at g keeps [] = refl
  map-at-at g keeps (x ∷ xs) = elim (Bool-cases (p x)) [
    | inl k ↦ rw (k, keeps x, k, map-at-at g keeps xs)
    | inr k ↦ rw (k, k, map-at-at g keeps xs)
  ]

  pub map-at-absent : (xs : List A) → All (λ x. p x ≡ false) xs → map (at p f) xs ≡ xs
  map-at-absent [] t = refl
  map-at-absent (x ∷ xs) (k, t) = rw (k, map-at-absent xs t)

  -- The count of any other test moves by the one row that is updated.
  pub count-at :
      (c : A → Bool) (xs : List A) (old : A)
      → Only p xs
      → find p xs ≡ some old
      → count c (map (at p f) xs) + weight (c old) ≡ count c xs + weight (c (f old))
  unfolding find
  count-at c [] old o h = absurd (cc)
  count-at c (x ∷ xs) old (o, os) h = elim (Bool-cases (p x)) [
    | inl k ↦ let e : x ≡ old = ground arith in rw (k, map-at-absent xs (o k), e) (omega arith)
    | inr k ↦ rw k (omega (arith, count-at c xs old os (ground arith)))
  ]

module _ {ℓ} {A : Type ℓ} (same : A → A → Bool) where
  apart-map :
      (f : A → A)
      → ((x y : A) → same x y ≡ false → same (f x) (f y) ≡ false)
      → (x : A) (xs : List A) → All (λ y. same x y ≡ false) xs
      → All (λ y. same (f x) y ≡ false) (map f xs)
  apart-map f h x [] t = tt
  apart-map f h x (y ∷ ys) (k, t) = (h x y k, apart-map f h x ys t)

  pub Distinct-map_apart :
      (f : A → A)
      → ((x y : A) → same x y ≡ false → same (f x) (f y) ≡ false)
      → (xs : List A) → Distinct same xs
      → Distinct same (map f xs)
  Distinct-map_apart f h [] t = tt
  Distinct-map_apart f h (x ∷ xs) (a, t) = (apart-map f h x xs a, Distinct-map_apart f h xs t)

  pub Distinct-map :
      (f : A → A)
      → ((x y : A) → same (f x) (f y) ≡ same x y)
      → (xs : List A) → Distinct same xs
      → Distinct same (map f xs)
  Distinct-map f h = Distinct-map_apart f (λ x y k. rw (h x y) k)

  apart-append :
      (x y : A) (xs : List A)
      → All (λ z. same x z ≡ false) xs
      → same x y ≡ false
      → All (λ z. same x z ≡ false) (xs ++ (y ∷ []))
  apart-append x y [] t k = (k, tt)
  apart-append x y (z ∷ zs) (a, t) k = (a, apart-append x y zs t k)

  pub Distinct-append :
      (xs : List A) (y : A)
      → Distinct same xs
      → All (λ x. same x y ≡ false) xs
      → Distinct same (xs ++ (y ∷ []))
  Distinct-append [] y t a = (tt, tt)
  Distinct-append (x ∷ xs) y (b, t) (k, a) = (apart-append x y xs b k, Distinct-append xs y t a)

module _ {ℓ} {A : Type ℓ} (same : A → A → Bool) where
  -- A row that any test finds is the row of its key.
  pub find-key_of :
      (q : A → Bool) (xs : List A) (r : A)
      → same r r ≡ true
      → Distinct same xs
      → find q xs ≡ some r
      → find (λ y. same y r) xs ≡ some r
  unfolding find
  find-key_of q [] r e d h = absurd (cc)
  find-key_of q (x ∷ xs) r e (a, d) h = elim (Bool-cases (q x)) [
    | inl k ↦ let same_row : r ≡ x = ground arith in rw (sym same_row, e) refl
    | inr k ↦
        let rest : find q xs ≡ some r = ground arith in
        rw (All-find (λ y. same x y ≡ false) q xs r a rest).0 (find-key_of q xs r e d rest)
  ]
