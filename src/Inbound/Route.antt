-- ===== src/Inbound/Route.antt =====
-- Route and Apply: the decision for a called number, and its effect on the channel.
pub mod Laws
pub mod Sent
use callvoice.Common.{
  ℕ, Bool, true, false, not, Option, none, some, List, [], ◌∷◌, ◌++◌, Text, codes, is_empty,
  if◌then◌else◌, ◌==◌, Error, Result, ok, err, unknown_did, no_agent, esl_unavailable, esl_refused,
}
use callvoice.Services.{Services}
use callvoice.Services.Commands.{M, pure, fail, attempt, ◌>>=◌, ◌>>◌, esl_api}
use callvoice.Presence.{Presence, release_on_call}
use callvoice.Esl.{is_esl_ok, is_killed, escape_fs}
use callvoice.Inbound.Number.{normalize_did, is_agent_pool}
use callvoice.Inbound.Scan.{first_available_agent}

pub record Did : Type 0 where
  pub number : Text
  pub destination : Text
  pub carrier_id : Option ℕ

pub data Action : Type 0 where
  bridge busy other : Action

pub record Decision : Type 0 where
  pub action : Action
  pub did : Text
  pub destination : Text
  -- `uuid.Nil`, 0, where there is no agent.
  pub agent_id : ℕ
  pub agent_user : Text

pub record Router : Type 0 where
  -- Whether the field `ESL` is set.
  pub esl : Bool
  pub pres : Presence
  -- The interface `DIDLookup`.
  pub lookup : Text → Result Did

-- `MapDIDLookup.LookupByNumber`.
find_did : Text → List (Text × Did) → Result Did
find_did number [] = err unknown_did
find_did number ((n, d) ∷ m) = if callvoice.Common.eqb n number then ok d else find_did number m

unfoldable pub map_lookup : List (Text × Did) → Text → Result Did
unfolding find_did
map_lookup m number = find_did (normalize_did number) m

abbrev pub busy_decision : Text → Text → Decision
busy_decision did destination = record {
  action = busy;
  did = did;
  destination = destination;
  agent_id = 0;
  agent_user = [];
}

module _ ⦃S : Services⦄ where
  unfoldable pub agent_sip_user : ℕ → Text
  agent_sip_user agent_id = codes "agent-" ++ S.uuid_string agent_id

  abbrev pub bridge_decision : Did → ℕ → Decision
  bridge_decision d agent_id = record {
    action = bridge;
    did = d.number;
    destination = d.destination;
    agent_id = agent_id;
    agent_user = agent_sip_user agent_id;
  }

  -- The decision once the search for an agent is done.
  route_agent : Did → Result ℕ → M Decision
  route_agent d (ok agent_id) = pure (bridge_decision d agent_id)
  route_agent d (err no_agent) = pure (busy_decision d.number d.destination)
  route_agent d (err e) = fail e

  -- The decision once the number is looked up.
  route_did : Router → List (Result (List Text)) → Text → Result Did → M Decision
  unfolding route_agent
  route_did r pages number (err unknown_did) = pure (busy_decision number [])
  route_did r pages number (err e) = fail e
  route_did r pages number (ok d) =
      if not (is_agent_pool d.destination)
      then pure (busy_decision d.number d.destination)
      else attempt (first_available_agent r.pres pages) >>= route_agent d

  unfoldable pub route : Router → List (Result (List Text)) → Text → M Decision
  unfolding route_did
  route r pages did_number =
      let number = normalize_did did_number in
      if is_empty number then fail unknown_did else route_did r pages number (r.lookup number)

  unfoldable pub release_claimed : Router → ℕ → M (Unit {0})
  release_claimed r agent_id =
      if agent_id == 0 then pure tt else attempt (release_on_call r.pres agent_id) >>= λ _. pure tt

  transfer_command : Text → Text → Text
  transfer_command channel_uuid user =
      codes "uuid_transfer "
      ++ (channel_uuid ++ (codes " bridge:user/" ++ (escape_fs user ++ codes " inline")))

  bridged : Router → Decision → Result Text → M (Unit {0})
  bridged r dec (err e) = do release_claimed r dec.agent_id; fail e
  bridged r dec (ok body) =
      if is_esl_ok body then pure tt else (release_claimed r dec.agent_id >> fail esl_refused)

  killed : Text → M (Unit {0})
  killed body = if is_killed body then pure tt else fail esl_refused

  apply_action : Router → Text → Decision → Action → M (Unit {0})
  unfolding transfer_command bridged killed
  apply_action r channel_uuid dec bridge =
      attempt (esl_api (transfer_command channel_uuid dec.agent_user)) >>= bridged r dec
  apply_action r channel_uuid dec busy =
      esl_api (codes "uuid_kill " ++ (channel_uuid ++ codes " USER_BUSY")) >>= killed
  apply_action r channel_uuid dec other = fail esl_refused

  -- `Apply`.
  unfoldable pub apply : Router → Text → Decision → M (Unit {0})
  unfolding apply_action
  apply r channel_uuid dec =
      if not r.esl then fail esl_unavailable else apply_action r channel_uuid dec dec.action
