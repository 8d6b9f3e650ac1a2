-- ===== src/Dialer/Hangup.antt =====
-- Hangup: the end of a tracked call, for the agent who owns it.
pub mod Laws
pub mod Ended
use callvoice.Common.{
  ℕ, Bool, true, false, not, Option, none, some, List, [], ◌∷◌, ◌++◌, Text, codes, eqb, is_empty,
  if◌then◌else◌, Error, Result, ok, err, esl_refused, not_found, no_active_call, call_not_found,
  call_forbidden,
}
use callvoice.Common.Decimal.{decimal}
use callvoice.Services.{Services, Value, text, number, object}
use callvoice.Services.Commands.{M, pure, fail, attempt, ◌>>=◌, ◌>>◌, get, esl_api, publish}
use callvoice.Keys.{agent_call_key}
use callvoice.Presence.{Presence, release_on_call}
use callvoice.Esl.{is_killed}
use callvoice.Dialer.Calls.{CallMeta, load_meta, cleanup_call}
use callvoice.Dialer.Originate.{Manual}

abbrev meta_carrier : Option CallMeta → Text
meta_carrier none = []
meta_carrier (some m) = m.carrier_id

abbrev known : Result CallMeta → Option CallMeta
known (ok m) = some m
known (err e) = none

module _ ⦃S : Services⦄ where
  -- The call that a key of an agent names.
  named_call : Option Value → M (Text × Option CallMeta)
  named_call none = fail no_active_call
  named_call (some v) = attempt (load_meta (S.raw v)) >>= λ m. pure (S.raw v, known m)

  -- Whether the metadata gives the agent the call.
  owned : ℕ → Text → Result CallMeta → M (Text × Option CallMeta)
  owned agent_id call_uuid (err not_found) = fail call_not_found
  owned agent_id call_uuid (err e) = fail e
  owned agent_id call_uuid (ok m) =
      if not (eqb m.agent_id (S.uuid_string agent_id))
      then fail call_forbidden
      else pure (call_uuid, some m)

  -- The call to end, and what is known of it.
  unfoldable pub find_call : ℕ → Text → M (Text × Option CallMeta)
  unfolding named_call owned
  find_call agent_id call_uuid =
      if is_empty call_uuid
      then get (agent_call_key agent_id) >>= named_call
      else attempt (load_meta call_uuid) >>= owned agent_id call_uuid

  hangup_event : ℕ → Text → Option CallMeta → List (Text × Text)
  hangup_event agent_id call_uuid meta =
      (codes "type", codes "hangup")
      ∷ (codes "call_uuid", call_uuid)
      ∷ (codes "agent_id", S.uuid_string agent_id)
      ∷ (codes "carrier_id", meta_carrier meta)
      ∷ []

  release : Option Presence → ℕ → M (Unit {0})
  release none agent_id = pure tt
  release (some p) agent_id = attempt (release_on_call p agent_id) >>= λ _. pure tt

  -- What follows the answer to uuid_kill.
  hung_up : Manual → ℕ → Text × Option CallMeta → Text → M (Unit {0})
  unfolding hangup_event release
  hung_up m agent_id (call_uuid, meta) body =
      if not (is_killed body)
      then fail esl_refused
      else cleanup_call agent_id call_uuid meta
        >> release m.pres agent_id
        >> (attempt (publish (hangup_event agent_id call_uuid meta)) >>= λ _. pure tt)

  kill : Manual → ℕ → Text × Option CallMeta → M (Unit {0})
  unfolding hung_up
  kill m agent_id call = esl_api (codes "uuid_kill " ++ call.0) >>= hung_up m agent_id call

  unfoldable pub hangup : Manual → ℕ → Text → M (Unit {0})
  unfolding kill
  hangup m agent_id call_uuid = find_call agent_id call_uuid >>= kill m agent_id
