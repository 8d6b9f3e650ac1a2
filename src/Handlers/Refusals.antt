-- ===== src/Handlers/Refusals.antt =====
-- The routes of auth.go to these handlers: a request that is refused changes no table.
use callvoice.Handlers.KeptCarriers.{
  handle_create_carrier-Safe, handle_patch_carrier-Safe, handle_delete_carrier-Safe,
}
use callvoice.Handlers.Carriers.{handle_list_carriers}
use callvoice.Store.Carriers.{list_carriers}
use callvoice.Handlers.Agents.{handle_agent_list_campaigns}
use callvoice.Handlers.Routes.{
  carriers_asked, carrier_posted, carrier_patched, carrier_dropped, own_campaigns_asked,
  campaign_joined, own_dispositions_asked, lead_asked, outcome_posted, Request, Packages, handle,
  serve, gate_of, campaigns_asked, campaign_posted, campaign_patched, agents_posted, list_uploaded,
  dispositions_asked, disposition_posted, users_asked, user_posted, user_patched, password_posted,
}
use callvoice.Common.{Bool-cases, ℕ, ◌≡◌, Option, none, some, Text, inl, inr}
use callvoice.Models.{User}
use callvoice.Sql.{Db}
use callvoice.Sql.Laws.{tables-query}
use callvoice.Store.Campaigns.{list_running_for_agent, list_campaigns}
use callvoice.Store.Users.{list_users}
use callvoice.Handlers.{Gate, is_allowed, require_role, Handler, refusal}
use callvoice.Handlers.Campaigns.{handle_list_campaigns}
use callvoice.Handlers.Users.{handle_list_users}
use callvoice.Handlers.Safe.{Safe, reply-Safe, reads-Safe}
use callvoice.Handlers.Kept.{
  handle_create_campaign-Safe, handle_patch_campaign-Safe, handle_assign_campaign_agents-Safe,
  handle_import_lead_list-Safe, handle_list_dispositions-Safe, handle_create_disposition-Safe,
  handle_create_user-Safe, handle_patch_user-Safe, handle_reset_user_password-Safe,
}
use callvoice.Handlers.KeptAgents.{
  handle_agent_join_campaign-Safe, handle_agent_list_dispositions-Safe, handle_agent_next_lead-Safe,
  handle_agent_disposition-Safe,
}

handle-Safe : (p : Packages) (u : User) (r : Request) → Safe (handle p u r)
unfolding handle handle_list_carriers list_carriers handle_agent_list_campaigns
    list_running_for_agent handle_list_campaigns list_campaigns handle_list_users list_users
handle-Safe p u campaigns_asked = reads-Safe _ _ _ (tables-query _) (λ _. reply-Safe _)
handle-Safe p u (campaign_posted r) = handle_create_campaign-Safe p.parse_uuid r
handle-Safe p u (campaign_patched id r) = handle_patch_campaign-Safe p.parse_uuid id r
handle-Safe p u (agents_posted id r) = handle_assign_campaign_agents-Safe p.parse_uuid id r
handle-Safe p u (list_uploaded id up) = handle_import_lead_list-Safe p.parse_uuid p.is_digit id up
handle-Safe p u (dispositions_asked id) = handle_list_dispositions-Safe p.parse_uuid id
handle-Safe p u (disposition_posted id r) = handle_create_disposition-Safe p.parse_uuid id r
handle-Safe p u users_asked = reads-Safe _ _ _ (tables-query _) (λ _. reply-Safe _)
handle-Safe p u (user_posted r) = handle_create_user-Safe p.parse_uuid p.hash_password r
handle-Safe p u (user_patched id r) = handle_patch_user-Safe p.parse_uuid p.hash_password p.now id r
handle-Safe p u (password_posted id r) =
    handle_reset_user_password-Safe p.parse_uuid p.hash_password id r
handle-Safe p u carriers_asked = reads-Safe _ _ _ (tables-query _) (λ _. reply-Safe _)
handle-Safe p u (carrier_posted r) = handle_create_carrier-Safe p.encrypt r
handle-Safe p u (carrier_patched id r) = handle_patch_carrier-Safe p.encrypt p.parse_uuid id r
handle-Safe p u (carrier_dropped id) = handle_delete_carrier-Safe p.parse_uuid id
handle-Safe p u own_campaigns_asked = reads-Safe _ _ _ (tables-query _) (λ _. reply-Safe _)
handle-Safe p u (campaign_joined id) = handle_agent_join_campaign-Safe p.parse_uuid u id
handle-Safe p u (own_dispositions_asked id) = handle_agent_list_dispositions-Safe p.parse_uuid u id
handle-Safe p u (lead_asked raw) = handle_agent_next_lead-Safe p.parse_uuid u raw
handle-Safe p u (outcome_posted r) =
    handle_agent_disposition-Safe p.parse_uuid u p.parse_time p.now r

require_role-Safe :
    (gate : Gate) (user : Option User) (next : User → Handler)
    → ((u : User) → Safe (next u))
    → Safe (require_role gate user next)
unfolding require_role
require_role-Safe gate none next h = reply-Safe _
require_role-Safe gate (some u) next h = elim (Bool-cases (is_allowed gate u.role)) [
  | inl e ↦ rw e (h u)
  | inr e ↦ rw e (reply-Safe _)
]

-- Whatever statements fail, a request to the routes of carriers, campaigns, users and agents that is
-- refused, with any status and text, leaves every table as it was.
pub serve-refusal :
    (p : Packages) (user : Option User) (r : Request) (db : Db) (n : ℕ) (text : Text)
    → (serve p user r db).0 ≡ refusal n text
    → (serve p user r db).1.tables ≡ db.tables
unfolding serve
serve-refusal p user r db n text h =
    (require_role-Safe (gate_of r) user (λ u. handle p u r) (λ u. handle-Safe p u r)).refused db n
      text h
