-- ===== src/Authz/AccessLaws.antt =====
-- Who gets through the checks of the services, and what those who do not can tell apart
-- (apps/api/src/services/projects.ts, ai-analyses.ts; apps/api/src/authz/guards.ts).
use replay_bug.Common.{
  ℕ, Bool, true, ◌==◌, ◌&&◌, ◌≡◌, ◌↔◌, inl, inr, none, some, List, [], ◌∷◌, arith, Option-cases,
  Bool-cases,
}
use replay_bug.Errors.{ok, err, not_found}
use replay_bug.Authz.Policy.{Capability, has_capability}
use replay_bug.Authz.Guards.{MembershipView, ProjectView}
use replay_bug.Authz.Access.{
  IssueRef, Store, find, find_membership, find_project_by_id, find_issue_by_id, get_project_by_id,
  update_project_access, issue_with_access,
}

-- A row that a query returns passes its test.
pub find_sound {ℓ} :
    {A : Type ℓ} (p : A → Bool) (xs : List A) {x : A} → find p xs ≡ some x → p x ≡ true
unfolding find
find_sound p [] h = cc
find_sound p (y ∷ xs) {x} h = elim (Bool-cases (p y)) [
  | inl passes ↦
      let first : some y ≡ some x = rw passes at h in let e : y ≡ x = cc in rw e at passes
  | inr fails ↦ find_sound p xs (rw fails at h)
]

find_membership_workspace :
    (db : Store) (w u : ℕ) {m : MembershipView}
    → find_membership db w u ≡ some m
    → (m.workspace_id ≡ w) × (m.user_id ≡ u)
unfolding find_membership
find_membership_workspace db w u {m} h =
    let passed =
      find_sound (λ (m : MembershipView). (m.workspace_id == w) && (m.user_id == u)) db.memberships
        h in
    ground arith

-- What it takes to be let through to an issue.
pub record Granted (db : Store) (user_id issue_id : ℕ) (capability : Capability) (issue : IssueRef)
    (m : MembershipView) : Type 0 where
  pub project : ProjectView
  pub issue_found : find_issue_by_id db issue_id ≡ some issue
  pub project_found : find_project_by_id db issue.project_id ≡ some project
  pub is_member : find_membership db project.workspace_id user_id ≡ some m
  pub capable : has_capability m.role capability ≡ true

module _ (db : Store) (user_id issue_id : ℕ) (capability : Capability) (issue : IssueRef)
    (m : MembershipView) where
  issue_with_access_sound :
      issue_with_access db user_id issue_id capability ≡ ok (issue, m)
      → Granted db user_id issue_id capability issue m
  unfolding issue_with_access
  issue_with_access_sound h = elim (Option-cases (find_issue_by_id db issue_id)) [
    | inl missing ↦ absurd (ground arith)
    | inr (i, found_i) ↦ elim (Option-cases (find_project_by_id db i.project_id)) [
      | inl missing ↦ absurd (ground arith)
      | inr (p, found_p) ↦ elim (Option-cases (find_membership db p.workspace_id user_id)) [
        | inl missing ↦ absurd (ground arith)
        | inr (k, found_k) ↦ record {
          project = p;
          issue_found = ground arith;
          project_found = ground arith;
          is_member = ground arith;
          capable = ground arith;
        }
      ]
    ]
  ]

  issue_with_access_complete :
      Granted db user_id issue_id capability issue m
      → issue_with_access db user_id issue_id capability ≡ ok (issue, m)
  unfolding issue_with_access
  issue_with_access_complete g =
      ground (arith, find_membership_workspace db g.project.workspace_id user_id g.is_member)

  -- `issueWithAccess` lets a caller through exactly when the issue and its project exist, the
  -- caller is a member of the project's workspace and the role of that membership has the
  -- capability; what it returns is that issue and that membership.
  pub issue_with_access_iff :
      (issue_with_access db user_id issue_id capability ≡ ok (issue, m))
      ↔ Granted db user_id issue_id capability issue m
  issue_with_access_iff = (issue_with_access_sound, issue_with_access_complete)

-- To a caller without a membership, `getProjectById` answers the same for a project that exists in
-- another workspace as for one that does not exist.
pub get_project_by_id_hides :
    (db : Store) (user_id project_id missing_id : ℕ) (p : ProjectView)
    → find_project_by_id db project_id ≡ some p
    → find_membership db p.workspace_id user_id ≡ none
    → find_project_by_id db missing_id ≡ none
    → get_project_by_id db user_id project_id ≡ get_project_by_id db user_id missing_id
unfolding get_project_by_id
get_project_by_id_hides db user_id project_id missing_id p exists outsider missing = ground arith

-- To a caller without a membership, `updateProject` and `issueWithAccess` answer a project or an
-- issue that exists in another workspace with another message than one that does not exist:
-- "Workspace not found" against "Project not found" or "Issue not found", all with one code.
pub access_messages_differ :
    (db : Store) (user_id issue_id missing_id : ℕ) (capability : Capability) (i : IssueRef)
    (p : ProjectView)
    → find_issue_by_id db issue_id ≡ some i
    → find_project_by_id db i.project_id ≡ some p
    → find_membership db p.workspace_id user_id ≡ none
    → find_issue_by_id db missing_id ≡ none
    → find_project_by_id db missing_id ≡ none
    → (issue_with_access db user_id issue_id capability ≡ err (not_found "Workspace"))
      × (issue_with_access db user_id missing_id capability ≡ err (not_found "Issue"))
      × (update_project_access db user_id i.project_id ≡ err (not_found "Workspace"))
      × (update_project_access db user_id missing_id ≡ err (not_found "Project"))
unfolding issue_with_access update_project_access
access_messages_differ db user_id issue_id missing_id capability i p hi hp hm mi mp = ground arith
