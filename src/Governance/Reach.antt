-- ===== src/Governance/Reach.antt =====
-- Every sequence of governance requests, each serialized by the lock on its workspace
-- (apps/api/src/services/workspace-governance.ts).
use replay_bug.Common.{ℕ, ◌≡◌, refl, ◌∙◌, Option, none, some, List, [], ◌∷◌, In, subst}
use replay_bug.Errors.{Result, ok, err}
use replay_bug.Authz.Roles.{WorkspaceMemberRole}
use replay_bug.Governance.Store.{Db, commit}
use replay_bug.Governance.Service.{
  update_role_body, update_workspace_member_role, remove_body, remove_workspace_member, leave_body,
  leave_workspace, transfer_body, transfer_workspace_ownership,
}
use replay_bug.Governance.Counting.{owners, Unique}
use replay_bug.Governance.Writes.{Keeps}
use replay_bug.Governance.Members.{update_role_sound}
use replay_bug.Governance.Removal.{remove_sound, leave_sound}
use replay_bug.Governance.Transfer.{transfer_sound}

-- A request, and the database that it leaves, whether it succeeds or throws.
pub data Request : Type 0 where
  update : ℕ → ℕ → ℕ → Option WorkspaceMemberRole → Request
  remove : ℕ → ℕ → ℕ → Request
  leave : ℕ → ℕ → Request
  transfer : ℕ → ℕ → ℕ → Request

unfoldable pub serve : Request → Db → Db
serve (update a w t input) db = (update_workspace_member_role a w t input db).0
serve (remove a w t) db = (remove_workspace_member a w t db).0
serve (leave a w) db = (leave_workspace a w db).0
serve (transfer a w t) db = (transfer_workspace_ownership a w t db).0

unfoldable pub serve_all : List Request → Db → Db
unfolding serve
serve_all [] db = db
serve_all (r ∷ rs) db = serve_all rs (serve r db)

-- The tables' unique key, and one owner for each workspace.
pub record Inv (db : Db) : Type 0 where
  pub unique : Unique db.memberships
  pub one_owner : (w : ℕ) → In w db.workspaces → owners w db.memberships ≡ 1

Keeps-Inv : {db db' : Db} → Inv db → Keeps db db' → Inv db'
Keeps-Inv i k = record {
  unique = k.unique;
  one_owner = λ w listed. k.owners_kept w ∙ i.one_owner w (subst (In w) k.workspaces listed);
}

commit-Inv {ℓ} :
    {A : Type ℓ} (db : Db) (r : Result (Db × A))
    → Inv db
    → ((db' : Db) (a : A) → r ≡ ok (db', a) → Keeps db db')
    → Inv (commit db r).0
commit-Inv db (ok (db', a)) i keeps = Keeps-Inv i (keeps db' a refl)
commit-Inv db (err e) i keeps = i

-- Every request, whatever its outcome, keeps the key unique and one owner for each workspace.
pub serve-Inv : (r : Request) (db : Db) → Inv db → Inv (serve r db)
unfolding serve update_workspace_member_role remove_workspace_member leave_workspace
    transfer_workspace_ownership
serve-Inv (update a w t none) db i = i
serve-Inv (update a w t (some n)) db i =
    commit-Inv db (update_role_body a w t n db) i
      (λ db' out e. (update_role_sound a w t n db i.unique e).keeps)
serve-Inv (remove a w t) db i =
    commit-Inv db (remove_body a w t db) i (λ db' out e. (remove_sound a w t db i.unique e).keeps)
serve-Inv (leave a w) db i =
    commit-Inv db (leave_body a w db) i (λ db' out e. (leave_sound a w db i.unique e).keeps)
serve-Inv (transfer a w t) db i =
    commit-Inv db (transfer_body a w t db) i
      (λ db' out e. (transfer_sound a w t db i.unique e).keeps)

-- If the memberships' key is unique and every workspace has exactly one owner, then so it is after
-- any requests, in whatever order and whatever they answer.
pub serve_all-Inv : (rs : List Request) (db : Db) → Inv db → Inv (serve_all rs db)
unfolding serve_all
serve_all-Inv [] db i = i
serve_all-Inv (r ∷ rs) db i = serve_all-Inv rs (serve r db) (serve-Inv r db i)
