-- ===== src/Common/Failures.antt =====
-- The crate's errors (ironqueue/src/lib.rs) as values, and the monad of fallible code. A message is
-- named by a constructor, not spelled out.
use mathlib.Core.Path.{◌≡◌, refl}
use mathlib.Core.Bool.{Bool, true, false}
use native.Mathlib.Omega.{arith}
use ironqueue.Common.Texts.{Text}

-- What a validator names in its message.
pub data Field : Type 0 where
  job_timeout job_retention job_failed_retention job_retry_delay job_backoff_maximum : Field
  job_delay job_payload job_meta job_result worker_stats worker_metadata lease_ttl
        cron_misfire_grace :
      Field

pub data Issue : Type 0 where
  too_long must_be_positive nests_too_deep holds_nul too_many_bytes : Field → Issue
  no_attempts too_many_attempts backoff_without_delay : Issue
  empty_name long_name nul_in_name nul_in_key long_key : Issue
  schedule_too_early schedule_too_late : Issue
  cron_fields cron_syntax cron_revision cron_no_next cron_no_previous : Issue
  too_many_jobs too_many_batch_bytes dropped_keyless short_batch : Issue
  key_of_other_job : Text → Issue
  cron_conflict cron_not_reconciled : Text → Issue
  nul_in_error not_terminal foreign_queue bad_limit worker_of_other_queue : Issue

pub data Failure : Type 0 where
  config : Issue → Failure
  dedupe_race : Text → Failure
  lost_connection row_not_found : Failure

pub data Result {ℓ} (A : Type ℓ) : Type ℓ where
  err : Failure → Result A
  ok : A → Result A

infixl 5 ◌>>◌ ◌>>=◌
-- A check, and what follows where it passed.
abbrev pub ◌>>◌ {ℓ} : {B : Type ℓ} → Result (Unit {0}) → Result B → Result B
err failure >> next = err failure
ok passed >> next = next

abbrev pub ◌>>=◌ {ℓ κ} : {A : Type ℓ} → {B : Type κ} → Result A → (A → Result B) → Result B
err failure >>= next = err failure
ok value >>= next = next value

-- `if refused { return Err(..) }`.
abbrev pub refuse : Bool → Issue → Result (Unit {0})
refuse true e = err (config e)
refuse false e = ok tt

-- A step that succeeds inside a successful chain.
pub >>-eq-ok {ℓ} :
    {B : Type ℓ} (m : Result (Unit {0})) (k : Result B) {b : B}
    → (m >> k) ≡ ok b
    → (m ≡ ok tt) × (k ≡ ok b)
>>-eq-ok (ok u) k h = (refl, h)
>>-eq-ok (err e) k h = ground arith

-- A step that succeeds inside a successful chain, with its value.
pub >>=-eq-ok {ℓ κ} :
    {A : Type ℓ} {B : Type κ} (m : Result A) (k : A → Result B) {b : B}
    → (m >>= k) ≡ ok b
    → (a : A) × (m ≡ ok a) × (k a ≡ ok b)
>>=-eq-ok (ok a) k h = (a, refl, h)
>>=-eq-ok (err e) k h = ground arith

pub ok-injective {ℓ} : {A : Type ℓ} {x y : A} → ok x ≡ ok y → x ≡ y
ok-injective e = cc
