-- ===== src/Handlers/Routes.antt =====
-- services/api/internal/httpapi/auth.go: the routes to the handlers of campaigns.go, users.go, carriers.go and agent_ops.go,
-- behind the checks of the role of the session's user.
use callvoice.Common.{ℕ, Bool, Option, List, Text}
use callvoice.Models.{User}
use callvoice.Store.Campaigns.{DispositionInput}
use callvoice.Handlers.{Handler, Gate, admins, supervisors, agents, require_role}
use callvoice.Handlers.Campaigns.{
  CreateCampaignRequest, PatchCampaignRequest, Upload, handle_list_campaigns,
  handle_create_campaign, handle_patch_campaign, handle_assign_campaign_agents,
  handle_import_lead_list, handle_list_dispositions, handle_create_disposition,
}
use callvoice.Handlers.Agents.{
  DispositionRequest, handle_agent_list_campaigns, handle_agent_join_campaign,
  handle_agent_list_dispositions, handle_agent_next_lead, handle_agent_disposition,
}
use callvoice.Handlers.Carriers.{
  CreateCarrierRequest, PatchCarrierRequest, handle_list_carriers, handle_create_carrier,
  handle_patch_carrier, handle_delete_carrier,
}
use callvoice.Handlers.Users.{
  CreateUserRequest, PatchUserRequest, handle_list_users, handle_create_user, handle_patch_user,
  handle_reset_user_password,
}

-- The requests to these routes, with the text of the identifier in the path.
pub data Request : Type 0 where
  campaigns_asked : Request
  campaign_posted : Option CreateCampaignRequest → Request
  campaign_patched : Text → Option PatchCampaignRequest → Request
  agents_posted : Text → Option (List Text) → Request
  list_uploaded : Text → Upload → Request
  dispositions_asked : Text → Request
  disposition_posted : Text → Option DispositionInput → Request
  users_asked : Request
  user_posted : Option CreateUserRequest → Request
  user_patched : Text → Option PatchUserRequest → Request
  password_posted : Text → Option Text → Request
  carriers_asked : Request
  carrier_posted : Option CreateCarrierRequest → Request
  carrier_patched : Text → Option PatchCarrierRequest → Request
  carrier_dropped : Text → Request
  own_campaigns_asked : Request
  campaign_joined : Text → Request
  own_dispositions_asked : Text → Request
  lead_asked : Text → Request
  outcome_posted : Option DispositionRequest → Request

-- What the handlers use of other packages, and the time.
pub record Packages : Type 0 where
  pub parse_uuid : Text → Option ℕ
  pub parse_time : Text → Option ℕ
  pub hash_password : Text → Option Text
  pub encrypt : Text → Option Text
  pub is_digit : ℕ → Bool
  pub now : ℕ

-- The handler of a request.
unfoldable pub handle : Packages → User → Request → Handler
handle p u campaigns_asked = handle_list_campaigns
handle p u (campaign_posted r) = handle_create_campaign p.parse_uuid r
handle p u (campaign_patched id r) = handle_patch_campaign p.parse_uuid id r
handle p u (agents_posted id r) = handle_assign_campaign_agents p.parse_uuid id r
handle p u (list_uploaded id up) = handle_import_lead_list p.parse_uuid p.is_digit id up
handle p u (dispositions_asked id) = handle_list_dispositions p.parse_uuid id
handle p u (disposition_posted id r) = handle_create_disposition p.parse_uuid id r
handle p u users_asked = handle_list_users
handle p u (user_posted r) = handle_create_user p.parse_uuid p.hash_password r
handle p u (user_patched id r) = handle_patch_user p.parse_uuid p.hash_password p.now id r
handle p u (password_posted id r) = handle_reset_user_password p.parse_uuid p.hash_password id r
handle p u carriers_asked = handle_list_carriers
handle p u (carrier_posted r) = handle_create_carrier p.encrypt r
handle p u (carrier_patched id r) = handle_patch_carrier p.encrypt p.parse_uuid id r
handle p u (carrier_dropped id) = handle_delete_carrier p.parse_uuid id
handle p u own_campaigns_asked = handle_agent_list_campaigns u
handle p u (campaign_joined id) = handle_agent_join_campaign p.parse_uuid u id
handle p u (own_dispositions_asked id) = handle_agent_list_dispositions p.parse_uuid u id
handle p u (lead_asked raw) = handle_agent_next_lead p.parse_uuid u raw
handle p u (outcome_posted r) = handle_agent_disposition p.parse_uuid p.parse_time p.now u r

unfoldable pub gate_of : Request → Gate
gate_of users_asked = admins
gate_of (user_posted _) = admins
gate_of (user_patched _ _) = admins
gate_of (password_posted _ _) = admins
gate_of carriers_asked = admins
gate_of (carrier_posted _) = admins
gate_of (carrier_patched _ _) = admins
gate_of (carrier_dropped _) = admins
gate_of own_campaigns_asked = agents
gate_of (campaign_joined _) = agents
gate_of (own_dispositions_asked _) = agents
gate_of (lead_asked _) = agents
gate_of (outcome_posted _) = agents
gate_of _ = supervisors

-- `RequireSession` has left the user in the context, or has refused before.
unfoldable pub serve : Packages → Option User → Request → Handler
serve p user r = require_role (gate_of r) user (λ u. handle p u r)
