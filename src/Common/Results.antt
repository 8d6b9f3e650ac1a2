-- ===== src/Common/Results.antt =====
-- The outcome of a call that returns a value or an error, in the order of Go's `(T, error)`.
use mathlib.Core.Path.{◌≡◌, refl}
use mathlib.Core.Logic.{◌⊎◌, inl, inr}

-- The errors that the services name, and one for any failure of a service that they call.
pub data Error : Type 0 where
  not_found invalid_state invalid_presence : Error
  no_agent unknown_did missing_channel esl_unavailable : Error
  esl_refused redis_failed store_failed bad_number invalid_meta missing_phone_column : Error
  carrier_capacity invalid_e164 missing_fields agent_required originate_failed : Error
  no_active_call call_not_found call_forbidden no_creds : Error
  db_failed unique_violation constraint_violation : Error
  invalid_status_transition invalid_agent invalid_campaign_state forbidden : Error
  no_leads_available duplicate_disposition admin_exists duplicate_email : Error

pub data Result {ℓ} (A : Type ℓ) : Type ℓ where
  ok : A → Result A
  err : Error → Result A

pub Result-cases {ℓ} :
    {A : Type ℓ} (r : Result A) → ((a : A) × (r ≡ ok a)) ⊎ ((e : Error) × (r ≡ err e))
Result-cases (ok a) = inl (a, refl)
Result-cases (err e) = inr (e, refl)
