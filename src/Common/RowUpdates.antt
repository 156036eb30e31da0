-- ===== src/Common/RowUpdates.antt =====
-- An update of the one row that a test finds.
use mathlib.Core.Path.{◌≡◌, subst}
use mathlib.Core.Bool.{Bool, true, false}
use mathlib.Core.Option.{some}
use mathlib.Core.Logic.{inl, inr}
use mathlib.Core.List.{List, [], ◌∷◌, ◌++◌, map}
use native.Mathlib.Omega.{arith}
use replay_bug.Common.Tests.{Bool-cases}
use replay_bug.Common.Lists.{any}
use replay_bug.Common.Preds.{All}
use replay_bug.Common.Rows.{find, at}
use replay_bug.Common.RowLaws.{Only, map-at-absent}

module _ {ℓ} {A : Type ℓ} (p : A → Bool) (f : A → A) (old : A) where
  -- What the other rows keep, and the updated row has, every row has.
  pub All-at {κ} :
      (Q R : A → Type κ) (xs : List A)
      → Only p xs
      → find p xs ≡ some old
      → All Q xs
      → ((x : A) → p x ≡ false → Q x → R x)
      → R (f old)
      → All R (map (at p f) xs)
  unfolding find
  All-at Q R [] o h t keep here = tt
  All-at Q R (x ∷ xs) (o, os) h (q, t) keep here = elim (Bool-cases (p x)) [
    | inl k ↦
        let e : old ≡ x = ground arith in
        rw (k, map-at-absent p f xs (o k)) (subst (λ z. R (f z)) e here, rest xs (o k) t)
    | inr k ↦ rw k (keep x k q, All-at Q R xs os (ground arith) t keep here)
  ]
    where
      rest : (ys : List A) → All (λ y. p y ≡ false) ys → All Q ys → All R ys
      rest [] a s = tt
      rest (y ∷ ys) (a, as') (s, ss) = (keep y a s, rest ys as' ss)

  pub any-at_here :
      (q : A → Bool) (xs : List A)
      → find p xs ≡ some old
      → q (f old) ≡ true
      → any q (map (at p f) xs) ≡ true
  unfolding find
  any-at_here q [] h k = absurd (cc)
  any-at_here q (x ∷ xs) h here = elim (Bool-cases (p x)) [
    | inl k ↦
        let e : old ≡ x = ground arith in
        let there : q (f x) ≡ true = subst (λ z. q (f z) ≡ true) e here in rw (k, there)
    | inr k ↦ rw k (ground (arith, any-at_here q xs (ground arith) here))
  ]

  -- A row that passes still does, unless it is the updated one.
  pub any-at_keep :
      (q : A → Bool) (xs : List A)
      → Only p xs
      → find p xs ≡ some old
      → q old ≡ false
      → any q xs ≡ true
      → any q (map (at p f) xs) ≡ true
  unfolding find
  any-at_keep q [] o h k t = cc
  any-at_keep q (x ∷ xs) (o, os) h k t = elim (Bool-cases (p x)) [
    | inl l ↦
        let e : old ≡ x = ground arith in
        let not_here : q x ≡ false = subst (λ z. q z ≡ false) e k in
        rw (l, map-at-absent p f xs (o l)) (ground arith)
    | inr l ↦ rw l (ground (arith, any-at_keep q xs os (ground arith) k))
  ]

module _ {ℓ κ} {A : Type ℓ} (P : A → Type κ) where
  pub All-append_one : (xs : List A) (y : A) → All P xs → P y → All P (xs ++ (y ∷ []))
  All-append_one [] y t p = (p, tt)
  All-append_one (x ∷ xs) y (q, t) p = (q, All-append_one xs y t p)
