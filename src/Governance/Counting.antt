-- ===== src/Governance/Counting.antt =====
-- The owners of a workspace, counted, and how the repository's writes change their number.
use replay_bug.Common.{
  ℕ, ◌+◌, Bool, true, false, not, ◌==◌, ◌&&◌, ◌≡◌, refl, inl, inr, some, List, [], ◌∷◌, map, filter,
  length, All, arith, Bool-cases,
}
pub use replay_bug.Common.Rows.{weight}
use replay_bug.Authz.Roles.{WorkspaceRole, owner, is_role}
use replay_bug.Authz.Access.{find}
use replay_bug.Governance.Store.{MembershipRow, is_key, in_workspace, with_role}
use replay_bug.Governance.Service.{owner_row}

-- How many rows of a workspace have the role "owner".
unfoldable pub owners : ℕ → List MembershipRow → ℕ
owners w [] = 0
owners w (m ∷ ms) = weight (in_workspace w m && owner_row m) + owners w ms

abbrev pub Absent : ℕ → ℕ → List MembershipRow → Type 0
Absent w u ms = All (λ m. is_key w u m ≡ false) ms

-- The table's unique constraint on (workspace_id, user_id).
abbrev pub Unique : List MembershipRow → Type 0
Unique [] = Unit
Unique (m ∷ ms) = Absent m.workspace_id m.user_id ms × Unique ms

pub owners-eq-length :
    (w : ℕ) (ms : List MembershipRow)
    → length (filter owner_row (filter (in_workspace w) ms)) ≡ owners w ms
unfolding owners
owners-eq-length w [] = refl
owners-eq-length w (m ∷ ms) = ground (arith, owners-eq-length w ms)

map-with_role-Absent :
    (w u : ℕ) (r : WorkspaceRole) (ms : List MembershipRow)
    → Absent w u ms
    → map (with_role w u r) ms ≡ ms
map-with_role-Absent w u r [] h = refl
map-with_role-Absent w u r (m ∷ ms) (p, h) = rw (p, map-with_role-Absent w u r ms h)

filter-not-key-Absent :
    (w u : ℕ) (ms : List MembershipRow) → Absent w u ms → filter (λ m. not (is_key w u m)) ms ≡ ms
filter-not-key-Absent w u [] h = refl
filter-not-key-Absent w u (m ∷ ms) (p, h) = rw (p, filter-not-key-Absent w u ms h)

Absent-of_key :
    (w u : ℕ) (m : MembershipRow) (ms : List MembershipRow)
    → is_key w u m ≡ true
    → Absent m.workspace_id m.user_id ms
    → Absent w u ms
Absent-of_key w u m [] k h = tt
Absent-of_key w u m (n ∷ ms) k (p, h) = (ground arith, Absent-of_key w u m ms k h)

-- Giving the row of a user another role moves the count by that row alone.
pub owners-update :
    (v w u : ℕ) (r : WorkspaceRole) (ms : List MembershipRow) (old : MembershipRow)
    → Unique ms
    → find (is_key w u) ms ≡ some old
    → owners v (map (with_role w u r) ms) + weight ((w == v) && owner_row old)
      ≡ owners v ms + weight ((w == v) && is_role r owner)
unfolding owners find
owners-update v w u r [] old h f = cc
owners-update v w u r (m ∷ ms) old (a, h) f = elim (Bool-cases (is_key w u m)) [
  | inl k ↦ rw (k, map-with_role-Absent w u r ms (Absent-of_key w u m ms k a)) (ground arith)
  | inr k ↦ rw k (ground (arith, owners-update v w u r ms old h))
]

-- Deleting the row of a user takes that row alone from the count.
pub owners-delete :
    (v w u : ℕ) (ms : List MembershipRow) (old : MembershipRow)
    → Unique ms
    → find (is_key w u) ms ≡ some old
    → owners v (filter (λ m. not (is_key w u m)) ms) + weight ((w == v) && owner_row old)
      ≡ owners v ms
unfolding owners find
owners-delete v w u [] old h f = cc
owners-delete v w u (m ∷ ms) old (a, h) f = elim (Bool-cases (is_key w u m)) [
  | inl k ↦ rw (k, filter-not-key-Absent w u ms (Absent-of_key w u m ms k a)) (ground arith)
  | inr k ↦ rw k (ground (arith, owners-delete v w u ms old h))
]

-- Both writes keep the unique constraint.
Absent-map :
    (w u v t : ℕ) (r : WorkspaceRole) (ms : List MembershipRow)
    → Absent v t ms
    → Absent v t (map (with_role w u r) ms)
Absent-map w u v t r [] h = tt
Absent-map w u v t r (m ∷ ms) (p, h) = (ground arith, Absent-map w u v t r ms h)

pub Unique-map :
    (w u : ℕ) (r : WorkspaceRole) (ms : List MembershipRow)
    → Unique ms
    → Unique (map (with_role w u r) ms)
Unique-map w u r [] h = tt
Unique-map w u r (m ∷ ms) (a, h) = elim (Bool-cases (is_key w u m)) [
  | inl k ↦ rw k (Absent-map w u m.workspace_id m.user_id r ms a, Unique-map w u r ms h)
  | inr k ↦ rw k (Absent-map w u m.workspace_id m.user_id r ms a, Unique-map w u r ms h)
]

Absent-filter :
    (v t : ℕ) (p : MembershipRow → Bool) (ms : List MembershipRow)
    → Absent v t ms
    → Absent v t (filter p ms)
Absent-filter v t p [] h = tt
Absent-filter v t p (m ∷ ms) (q, h) = elim (Bool-cases (p m)) [
  | inl k ↦ rw k (q, Absent-filter v t p ms h)
  | inr k ↦ rw k (Absent-filter v t p ms h)
]

pub Unique-filter :
    (p : MembershipRow → Bool) (ms : List MembershipRow) → Unique ms → Unique (filter p ms)
Unique-filter p [] h = tt
Unique-filter p (m ∷ ms) (a, h) = elim (Bool-cases (p m)) [
  | inl k ↦ rw k (Absent-filter m.workspace_id m.user_id p ms a, Unique-filter p ms h)
  | inr k ↦ rw k (Unique-filter p ms h)
]

-- The user's row among the rows of a workspace is the row of the key.
pub find-filter :
    (w u : ℕ) (ms : List MembershipRow)
    → find (λ m. m.user_id == u) (filter (in_workspace w) ms) ≡ find (is_key w u) ms
unfolding find
find-filter w u [] = refl
find-filter w u (m ∷ ms) = ground (arith, find-filter w u ms)
