-- ===== src/Failure.antt =====
-- What the program throws, and computations that may throw.
-- A failure is an `Error` with its message, one of the error classes of the source with its extra
-- fields, an `AggregateError`, or a thrown value that is no `Error`.
-- src/repository/types.ts, src/artifact/s3-persistence.ts, src/recovery/types.ts.
use ai_agent_runner.Base.{
  ℕ, String, ◌≡◌, refl, ◌⊎◌, inl, inr, Bool, true, false, Option, none, some, List,
}

-- `RepositoryAccessFailureCode`.
pub data AccessCode : Type 0 where
  authorization_configuration_invalid repository_unauthorized credential_unavailable : AccessCode
  source_resolution_failed checkout_failed : AccessCode

-- `Phase49S3OperationFailureKind`.
pub data S3FailureKind : Type 0 where
  conflict not_found access_denied ambiguous definitive : S3FailureKind

pub data Failure : Type 0 where
  error : String → Failure
  repository_access_error : AccessCode → String → Failure
  s3_operation_error : S3FailureKind → String → Failure
  query_predicate_mismatch_error : String → Option ℕ → Failure
  aggregate_error : List String → String → Failure
  not_an_error : Failure

-- `error.message`, where the value is an `Error`.
unfoldable pub message_of : Failure → Option String
message_of (error m) = some m
message_of (repository_access_error c m) = some m
message_of (s3_operation_error k m) = some m
message_of (query_predicate_mismatch_error m i) = some m
message_of (aggregate_error ms m) = some m
message_of not_an_error = none

pub data Result {ℓ} (A : Type ℓ) : Type ℓ where
  err : Failure → Result A
  ok : A → Result A

pub Result-cases {ℓ} :
    {A : Type ℓ} (r : Result A) → ((e : Failure) × (r ≡ err e)) ⊎ ((a : A) × (r ≡ ok a))
Result-cases (err e) = inl (e, refl)
Result-cases (ok a) = inr (a, refl)

infixl 5 ◌>>=◌ ◌>>◌
-- The rest runs on a value; a failure ends the computation.
abbrev pub ◌>>=◌ {ℓ κ} : {X : Type ℓ} {Y : Type κ} → Result X → (X → Result Y) → Result Y
err thrown >>= rest = err thrown
ok value >>= rest = rest value

-- A sequence that succeeds has a first part that succeeds.
pub >>=-eq-ok {ℓ κ} :
    {X : Type ℓ} {Y : Type κ} (first : Result X) (rest : X → Result Y) {y : Y}
    → (first >>= rest) ≡ ok y
    → (x : X) × (first ≡ ok x) × (rest x ≡ ok y)
>>=-eq-ok (err thrown) rest h = cc
>>=-eq-ok (ok value) rest h = (value, refl, h)

abbrev pub ◌>>◌ {ℓ} : {Y : Type ℓ} → Result (Unit {0}) → Result Y → Result Y
first >> rest = first >>= λ done. rest

-- `if (!test) throw new Error(message)`.
abbrev pub require : Bool → String → Result (Unit {0})
require false message = err (error message)
require true message = ok tt

pub require-eq-ok : (b : Bool) (m : String) → require b m ≡ ok tt → b ≡ true
require-eq-ok false m h = cc
require-eq-ok true m h = refl
