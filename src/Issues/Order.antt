-- ===== src/Issues/Order.antt =====
-- Occurrences in another order, and the creation of an issue while others create it too
-- (packages/db/src/repositories/issues.ts, apps/worker/src/processors/process-event.ts).
use replay_bug.Common.{
  ℕ, ◌+◌, ◌≢◌, min, max, Bool, true, false, ◌≡◌, refl, inl, inr, Option, some, List, [], ◌∷◌, ◌++◌,
  arith, Option-cases, if◌then◌else◌, ltb, ==_refl,
}
use replay_bug.Common.Text.{Text}
use replay_bug.Common.Rows.{find, Distinct, All-imp, All-prefix}
use replay_bug.Common.RowLaws.{
  find-passes, any-of_find, any-of_none, find-append_here, Distinct-append, All-of_any,
}
use replay_bug.Issues.Store.{
  IssueRow, CreateIssueInput, new_issue, has_fingerprint, occurred, lock_issue_by_fingerprint,
  insert_issue_if_absent,
}
use replay_bug.Issues.Process.{LockOrCreateResult, lock_or_create_issue}
use replay_bug.Issues.Consistent.{same_key}

-- The aggregates of an issue.
abbrev pub aggregates : IssueRow → ℕ × (ℕ × (ℕ × (ℕ × (Option Text × Option Text))))
aggregates i = (
  i.occurrence_count,
  (
    i.affected_session_count,
    (i.first_seen_at, (i.last_seen_at, (i.first_release, i.last_release))),
  ),
)

first_order :
    {A : Type 0} (t u s : ℕ) (a b r : A)
    → t ≢ u
    → (if ltb u (min s t) then b else (if ltb t s then a else r))
      ≡ (if ltb t (min s u) then a else (if ltb u s then b else r))
first_order t u s a b r h = ground arith

last_order :
    {A : Type 0} (t u s : ℕ) (a b r : A)
    → t ≢ u
    → (if ltb (max s t) u then b else (if ltb s t then a else r))
      ≡ (if ltb (max s u) t then a else (if ltb s u then b else r))
last_order t u s a b r h = ground arith

sessions_order :
    (a b : Bool) (n : ℕ)
    → (if b then (if a then n + 1 else n) + 1 else (if a then n + 1 else n))
      ≡ (if a then (if b then n + 1 else n) + 1 else (if b then n + 1 else n))
sessions_order a b n = ground arith

min_order : (s t u : ℕ) → min (min s t) u ≡ min (min s u) t
min_order s t u = omega arith

max_order : (s t u : ℕ) → max (max s t) u ≡ max (max s u) t
max_order s t u = omega arith

-- Two occurrences at different times leave the same counts, first and last seen and first and last
-- release in either order.
pub occurred_order :
    (now now' t u : ℕ) (a b : Option Text) (new_a new_b reopen_a reopen_b : Bool) (i : IssueRow)
    → t ≢ u
    → aggregates (occurred now' u b new_b reopen_b (occurred now t a new_a reopen_a i))
      ≡ aggregates (occurred now t a new_a reopen_a (occurred now' u b new_b reopen_b i))
unfolding occurred
occurred_order now now' t u a b new_a new_b reopen_a reopen_b i h =
    rw
      (
        sessions_order new_a new_b i.affected_session_count,
        min_order i.first_seen_at t u,
        max_order i.last_seen_at t u,
        first_order t u i.first_seen_at a b i.first_release h,
        last_order t u i.last_seen_at a b i.last_release h,
      )
      refl

-- The prefix of a table with a unique key has one.
Distinct-prefix :
    {A : Type 0} (same : A → A → Bool) (xs ys : List A)
    → Distinct same (xs ++ ys)
    → Distinct same xs
Distinct-prefix same [] ys d = tt
Distinct-prefix same (x ∷ xs) ys (a, d) = (All-prefix _ xs ys a, Distinct-prefix same xs ys d)

module _ (new_id now : ℕ) (input : CreateIssueInput) where
  abbrev key : IssueRow → Bool
  key = has_fingerprint input.project_id input.fingerprint

  -- While others commit any issues between the look-up and the insert, `lockOrCreateIssue` still
  -- returns an issue of the project and the fingerprint, which is the row that the table has of
  -- them afterwards; the key stays unique, and the error of a lost race is not thrown.
  pub lock_or_create_issue_raced :
      (raced issues : List IssueRow)
      → Distinct same_key (issues ++ raced)
      → let (issues', result) = lock_or_create_issue raced new_id now input issues in
        (f : LockOrCreateResult) × (result ≡ some f)
        × (key f.row ≡ true)
        × (find key issues' ≡ some f.row)
        × Distinct same_key issues'
  unfolding lock_or_create_issue lock_issue_by_fingerprint insert_issue_if_absent new_issue
  lock_or_create_issue_raced raced issues d =
      let new = new_issue new_id now input in
      elim (Option-cases (find key issues)) [
        | inr (r, k) ↦ rw k (
          record { row = r; created = false },
          refl,
          find-passes key issues r k,
          k,
          Distinct-prefix same_key issues raced d,
        )
        | inl k ↦ elim (Option-cases (find key (issues ++ raced))) [
          | inr (r, l) ↦
              rw (k, any-of_find key (issues ++ raced) r l, l)
                (
                  record { row = r; created = false },
                  refl,
                  find-passes key (issues ++ raced) r l,
                  l,
                  d,
                )
          | inl l ↦
              let absent = any-of_none key (issues ++ raced) l in
              let own : key new ≡ true =
                ground (arith, ==_refl input.project_id, ==_refl input.fingerprint) in
              rw (k, absent)
                (
                  record { row = new; created = true },
                  refl,
                  own,
                  find-append_here key (issues ++ raced) new l own,
                  Distinct-append same_key (issues ++ raced) new d (
                      All-imp (λ i. key i ≡ false) _ (λ i q. ground arith) _
                        (All-of_any key _ absent)),
                )
        ]
      ]
