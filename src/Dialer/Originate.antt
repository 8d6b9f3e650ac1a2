-- ===== src/Dialer/Originate.antt =====
-- Originate: an outbound call over the first carrier that has a channel and calls per second to
-- spare, and whose gateway accepts it.
pub mod Rounds
pub mod Laws
use callvoice.Common.{
  ℕ, suc, Bool, true, false, not, ◌&&◌, Option, none, some, List, [], ◌∷◌, ◌++◌, Text, codes,
  is_empty, if◌then◌else◌, ◌==◌, ltb, Error, Result, ok, err, esl_refused, carrier_capacity,
  invalid_e164, agent_required, originate_failed,
}
use callvoice.Services.{Services}
use callvoice.Services.Commands.{
  W, M, pure, fail, guard, attempt, ◌>>=◌, ◌>>◌, esl_api, new_uuid, publish,
}
use callvoice.Presence.{Presence}
use callvoice.Cps.{allow_global, allow_carrier}
use callvoice.Esl.{is_esl_ok}
use callvoice.Dialer.Command.{is_e164, build_originate}
use callvoice.Dialer.Calls.{Carrier, OutboundRequest, channel_available, track_call}

pub record Manual : Type 0 where
  -- The field `Pres`, which may be nil.
  pub pres : Option Presence
  pub global_max_cps : ℕ
  -- The reply of `CarrierLister.ListOrdered`.
  pub carriers : Result (List Carrier)

pub record OutboundResult : Type 0 where
  pub call_uuid : Text
  pub carrier_id : ℕ
  pub to : Text

-- How the loop leaves one carrier: `continue` before it is tried, after a limit, or after an error of
-- the gateway; or the call is placed.
pub data Attempt : Type 0 where
  disabled full : Attempt
  failed : Error → Attempt
  placed : OutboundResult → Attempt

module _ ⦃S : Services⦄ where
  abbrev pub result_of : OutboundRequest → Carrier → Text → OutboundResult
  result_of req c call_uuid = record { call_uuid = call_uuid; carrier_id = c.id; to = req.to }

  answered_event : OutboundRequest → Carrier → Text → List (Text × Text)
  answered_event req c call_uuid =
      (codes "type", codes "answered")
      ∷ (codes "call_uuid", call_uuid)
      ∷ (codes "agent_id", S.uuid_string req.agent_id)
      ∷ (codes "carrier_id", S.uuid_string c.id)
      ∷ (codes "to", req.to)
      ∷ []

  tracked : OutboundRequest → Carrier → Text → Result (Unit {0}) → M Attempt
  unfolding answered_event
  tracked req c call_uuid (ok _) = do
    _ ← attempt (publish (answered_event req c call_uuid))
    pure (placed (result_of req c call_uuid))
  tracked req c call_uuid (err e) = do
    _ ← attempt (esl_api (codes "uuid_kill " ++ call_uuid))
    fail e

  -- What follows the gateway's answer.
  gateway_answered : OutboundRequest → Carrier → Text → Result Text → M Attempt
  gateway_answered req c call_uuid (err e) = pure (failed e)
  gateway_answered req c call_uuid (ok body) =
      if is_esl_ok body
      then attempt (track_call req c.id call_uuid) >>= tracked req c call_uuid
      else pure (failed esl_refused)

  send : OutboundRequest → Carrier → Text → Result Text → M Attempt
  send req c call_uuid (err e) = fail e
  send req c call_uuid (ok command) = attempt (esl_api command) >>= gateway_answered req c call_uuid

  place : OutboundRequest → Carrier → Bool → M Attempt
  place req c false = pure full
  place req c true = do
    id ← new_uuid
    let call_uuid = S.uuid_string id
    send req c call_uuid (
        build_originate (codes "agent-" ++ S.uuid_string req.agent_id) (S.uuid_string c.id) req.to
          req.caller_id call_uuid)

  limit : OutboundRequest → ℕ → Carrier → Bool → M Attempt
  limit req now c false = pure full
  limit req now c true = allow_carrier (S.uuid_string c.id) c.max_cps now >>= place req c

  -- One round of the loop.
  unfoldable pub try_carrier : OutboundRequest → ℕ → Carrier → M Attempt
  unfolding limit place send gateway_answered tracked
  try_carrier req now c =
      if not c.enabled then pure disabled else channel_available c >>= limit req now c

  next_carrier :
      (ℕ → Option Error → M OutboundResult) → ℕ → Option Error → Attempt → M OutboundResult
  next_carrier rest tried last_esl disabled = rest tried last_esl
  next_carrier rest tried last_esl full = rest (suc tried) last_esl
  next_carrier rest tried last_esl (failed e) = rest (suc tried) (some e)
  next_carrier rest tried last_esl (placed r) = pure r

  -- After the loop.
  out_of_carriers : ℕ → Option Error → Error
  out_of_carriers tried none = carrier_capacity
  out_of_carriers tried (some e) = if tried == 0 then carrier_capacity else originate_failed

  unfoldable pub originate_each :
      OutboundRequest → ℕ → List Carrier → ℕ → Option Error → M OutboundResult
  unfolding next_carrier out_of_carriers
  originate_each req now [] tried last_esl = fail (out_of_carriers tried last_esl)
  originate_each req now (c ∷ cs) tried last_esl =
      try_carrier req now c >>= next_carrier (originate_each req now cs) tried last_esl

  listed : Result (List Carrier) → M (List Carrier)
  listed (ok cs) = pure cs
  listed (err e) = fail e

  pub global_limit : Manual → ℕ → M (Unit {0})
  global_limit m now =
      if not (ltb 0 m.global_max_cps)
      then pure tt
      else allow_global m.global_max_cps now >>= λ allowed. guard allowed carrier_capacity

  -- The checks on the request before anything is asked of Redis.
  abbrev pub request_error : OutboundRequest → Option Error
  request_error req =
      if not (is_e164 req.to)
      then some invalid_e164
      else if not (is_empty req.caller_id) && not (is_e164 req.caller_id)
      then some invalid_e164
      else if req.agent_id == 0
      then some agent_required
      else none

  checked : Option Error → M (Unit {0})
  checked none = pure tt
  checked (some e) = fail e

  unfoldable pub originate : Manual → OutboundRequest → M OutboundResult
  unfolding global_limit listed checked
  originate m req w =
      (do
        checked (request_error req)
        global_limit m w.now
        cs ← listed m.carriers
        originate_each req w.now cs 0 none)
        w
