-- ===== src/Errors.antt =====
-- Domain errors and their HTTP statuses (apps/api/src/errors.ts), with the result of code that
-- throws them.
use Prim.Native.String
use Prim.Native.String.{String}
use replay_bug.Common.{ℕ, Bool, true, false, if◌then◌else◌, ◌≡◌, refl, ◌⊎◌, inl, inr}

pub data DomainErrorCode : Type 0 where
  auth_required_code : DomainErrorCode
  forbidden_code : DomainErrorCode
  not_found_code : DomainErrorCode
  validation_error_code : DomainErrorCode
  conflict_code : DomainErrorCode
  already_workspace_member_code : DomainErrorCode
  active_invitation_exists_code : DomainErrorCode
  invitation_invalid_code : DomainErrorCode
  invitation_already_used_code : DomainErrorCode
  release_version_conflict_code : DomainErrorCode
  artifact_path_invalid_code : DomainErrorCode
  artifact_path_conflict_code : DomainErrorCode
  invalid_artifact_type_code : DomainErrorCode
  invalid_source_map_code : DomainErrorCode
  artifact_too_large_code : DomainErrorCode
  artifact_storage_unavailable_code : DomainErrorCode
  reproduction_base_url_required_code : DomainErrorCode
  reproduction_unsupported_failure_code : DomainErrorCode
  ai_not_configured_code : DomainErrorCode
  internal_error_code : DomainErrorCode

pub record DomainError : Type 0 where
  pub code : DomainErrorCode
  pub message : String

abbrev pub auth_required : DomainError
auth_required = record { code = auth_required_code; message = "Authentication required" }

abbrev pub forbidden : String → DomainError
forbidden message = record { code = forbidden_code; message = message }

abbrev pub not_found : String → DomainError
not_found resource = record { code = not_found_code; message = String.◌++◌ resource " not found" }

abbrev pub validation_error : String → DomainError
validation_error message = record { code = validation_error_code; message = message }

abbrev pub conflict : String → DomainError
conflict message = record { code = conflict_code; message = message }

abbrev pub already_workspace_member : DomainError
already_workspace_member = record {
  code = already_workspace_member_code;
  message = "The invited email already belongs to a workspace member";
}

abbrev pub active_invitation_exists : DomainError
active_invitation_exists = record {
  code = active_invitation_exists_code;
  message = "An active invitation already exists for this email";
}

abbrev pub invitation_invalid : DomainError
invitation_invalid = record {
  code = invitation_invalid_code;
  message = "Invitation is invalid or unavailable";
}

abbrev pub invitation_already_used : DomainError
invitation_already_used = record {
  code = invitation_already_used_code;
  message = "Invitation is invalid or unavailable";
}

-- An error that is no `DomainError` is one of this code to the caller.
abbrev pub internal_error : DomainError
internal_error = record { code = internal_error_code; message = "An unexpected error occurred" }

unfoldable pub status_for_code : DomainErrorCode → ℕ
status_for_code auth_required_code = 401
status_for_code forbidden_code = 403
status_for_code not_found_code = 404
status_for_code validation_error_code = 400
status_for_code conflict_code = 409
status_for_code already_workspace_member_code = 409
status_for_code active_invitation_exists_code = 409
status_for_code invitation_already_used_code = 409
status_for_code invitation_invalid_code = 404
status_for_code release_version_conflict_code = 409
status_for_code artifact_path_conflict_code = 409
status_for_code artifact_path_invalid_code = 400
status_for_code invalid_artifact_type_code = 400
status_for_code invalid_source_map_code = 400
status_for_code artifact_too_large_code = 413
status_for_code artifact_storage_unavailable_code = 503
status_for_code reproduction_base_url_required_code = 422
status_for_code reproduction_unsupported_failure_code = 422
status_for_code ai_not_configured_code = 503
status_for_code internal_error_code = 500

-- What code that may throw a `DomainError` comes to.
pub data Result {ℓ} (V : Type ℓ) : Type ℓ where
  ok : V → Result V
  err : DomainError → Result V

-- `db.transaction(body)`: what the body wrote is kept if it returns, and dropped if it throws.
abbrev pub transacted {ℓ κ} : {D : Type ℓ} {A : Type κ} → D → Result (D × A) → D × Result A
transacted db (ok (db', a)) = (db', ok a)
transacted db (err e) = (db, err e)

-- `if (!test) throw e`
abbrev pub ensure : Bool → DomainError → Result (Unit {0})
ensure test e = if test then ok tt else err e

-- Statements in a row: the first that throws ends them.
infixl 5 ◌>>=◌
abbrev pub ◌>>=◌ {ℓ κ} : {V : Type ℓ} {W : Type κ} → Result V → (V → Result W) → Result W
ok value >>= next = next value
err thrown >>= next = err thrown

infixl 5 ◌>>◌
abbrev pub ◌>>◌ {κ} : {W : Type κ} → Result (Unit {0}) → Result W → Result W
done >> next = done >>= λ _. next

-- A chain that succeeds has passed through its first step.
pub through {ℓ κ μ} :
    {A : Type ℓ} {B : Type κ} {C : Type μ} (m : Result A) (f : A → Result B) {b : B}
    → (m >>= f) ≡ ok b
    → ((a : A) → m ≡ ok a → f a ≡ ok b → C)
    → C
through (ok a) f h k = k a refl h
through (err e) f h k = absurd (cc)

pub ensure-eq-ok : (b : Bool) (e : DomainError) {t : Unit {0}} → ensure b e ≡ ok t → b ≡ true
ensure-eq-ok true e h = refl
ensure-eq-ok false e h = cc

pub Result-cases {ℓ} :
    {A : Type ℓ} (m : Result A) → ((e : DomainError) × (m ≡ err e)) ⊎ ((a : A) × (m ≡ ok a))
Result-cases (ok a) = inr (a, refl)
Result-cases (err e) = inl (e, refl)
