-- ===== src/Handlers/Kept.antt =====
-- campaigns.go and users.go: a handler that refuses changes no table.
use callvoice.Common.{ℕ, Bool, Option, none, some, List, Text, Error}
use callvoice.Models.{Role, CampaignStatus}
use callvoice.CsvImport.{Parsed}
use callvoice.Sql.Laws.{tables-query}
use callvoice.Store.Whole.{
  create_campaign-Whole, update_campaign-Whole, set_agents-Whole, import_leads-Whole,
  create_disposition-Whole, create_user-Whole, update_user-Whole, reset_password-Whole,
}
use callvoice.Store.Campaigns.{DispositionInput}
use callvoice.Store.Dispositions.{list_dispositions}
use callvoice.Handlers.{Handler}
use callvoice.Handlers.Campaigns.{
  unless_stopped, CreateCampaignRequest, PatchCampaignRequest, Upload, handle_create_campaign,
  patch_name, patch_carrier, patch_status, handle_patch_campaign, handle_assign_campaign_agents,
  import_parsed, handle_import_lead_list, handle_list_dispositions, handle_create_disposition,
}
use callvoice.Handlers.Users.{
  CreateUserRequest, PatchUserRequest, handle_create_user, patch_role, with_hash, handle_patch_user,
  handle_reset_user_password,
}
use callvoice.Handlers.Safe.{
  Safe, reply-Safe, with_part-Safe, reads-Safe, last-Safe, unless-Safe, get_carrier-reads,
  get_campaign-reads,
}

pub handle_create_campaign-Safe :
    (parse_uuid : Text → Option ℕ) (r : Option CreateCampaignRequest)
    → Safe (handle_create_campaign parse_uuid r)
unfolding handle_create_campaign
handle_create_campaign-Safe parse_uuid request = with_part-Safe _ _ _ (λ r. unless-Safe _ _ _ (
    with_part-Safe _ _ _ (λ carrier.
      reads-Safe _ _ _ (get_carrier-reads carrier)
        (λ _. last-Safe _ _ _ _ (create_campaign-Whole _)))))

pub patch_name-Safe :
    (o : Option Text) (k : Option Text → Handler)
    → ((n : Option Text) → Safe (k n))
    → Safe (patch_name o k)
unfolding patch_name
patch_name-Safe none k h = h none
patch_name-Safe (some name) k h = unless-Safe _ _ _ (h _)

pub patch_carrier-Safe :
    (parse_uuid : Text → Option ℕ) (o : Option Text) (k : Option ℕ → Handler)
    → ((n : Option ℕ) → Safe (k n))
    → Safe (patch_carrier parse_uuid o k)
unfolding patch_carrier
patch_carrier-Safe parse_uuid none k h = h none
patch_carrier-Safe parse_uuid (some raw) k h =
    with_part-Safe _ _ _ (λ carrier. reads-Safe _ _ _ (get_carrier-reads carrier) (λ _. h _))

pub patch_status-Safe :
    (o : Option Text) (k : Option CampaignStatus → Handler)
    → ((n : Option CampaignStatus) → Safe (k n))
    → Safe (patch_status o k)
unfolding patch_status
patch_status-Safe none k h = h none
patch_status-Safe (some raw) k h = with_part-Safe _ _ _ (λ s. h _)

pub handle_patch_campaign-Safe :
    (parse_uuid : Text → Option ℕ) (id : Text) (r : Option PatchCampaignRequest)
    → Safe (handle_patch_campaign parse_uuid id r)
unfolding handle_patch_campaign
handle_patch_campaign-Safe parse_uuid id request = with_part-Safe _ _ _ (λ id.
    with_part-Safe _ _ _ (λ r. patch_name-Safe _ _ (λ name.
      patch_carrier-Safe parse_uuid _ _ (λ carrier.
        patch_status-Safe _ _ (λ status. last-Safe _ _ _ _ (update_campaign-Whole id _))))))

pub handle_assign_campaign_agents-Safe :
    (parse_uuid : Text → Option ℕ) (id : Text) (r : Option (List Text))
    → Safe (handle_assign_campaign_agents parse_uuid id r)
unfolding handle_assign_campaign_agents
handle_assign_campaign_agents-Safe parse_uuid id request = with_part-Safe _ _ _ (λ id.
    with_part-Safe _ _ _
      (λ raws. with_part-Safe _ _ _ (λ uids. last-Safe _ _ _ _ (set_agents-Whole id uids))))

unless_stopped-Safe : (o : Option Error) (k : Handler) → Safe k → Safe (unless_stopped o k)
unfolding unless_stopped
unless_stopped-Safe (some e) k h = reply-Safe _
unless_stopped-Safe none k h = h

pub import_parsed-Safe :
    (campaign : ℕ) (name : Text) (p : Parsed) → Safe (import_parsed campaign name p)
unfolding import_parsed
import_parsed-Safe campaign name p =
    unless_stopped-Safe _ _ (last-Safe _ _ _ _ (import_leads-Whole campaign name _))

pub handle_import_lead_list-Safe :
    (parse_uuid : Text → Option ℕ) (is_digit : ℕ → Bool) (id : Text) (upload : Upload)
    → Safe (handle_import_lead_list parse_uuid is_digit id upload)
unfolding handle_import_lead_list
handle_import_lead_list-Safe parse_uuid is_digit id upload =
    with_part-Safe _ _ _ (λ campaign.
      unless-Safe _ _ _ (with_part-Safe _ _ _ (λ file. import_parsed-Safe campaign _ _)))

pub handle_list_dispositions-Safe :
    (parse_uuid : Text → Option ℕ) (id : Text) → Safe (handle_list_dispositions parse_uuid id)
unfolding handle_list_dispositions list_dispositions
handle_list_dispositions-Safe parse_uuid id = with_part-Safe _ _ _ (λ campaign.
    reads-Safe _ _ _ (get_campaign-reads campaign)
      (λ _. reads-Safe _ _ _ (tables-query _) (λ _. reply-Safe _)))

pub handle_create_disposition-Safe :
    (parse_uuid : Text → Option ℕ) (id : Text) (r : Option DispositionInput)
    → Safe (handle_create_disposition parse_uuid id r)
unfolding handle_create_disposition
handle_create_disposition-Safe parse_uuid id request = with_part-Safe _ _ _ (λ campaign.
    with_part-Safe _ _ _ (λ r. unless-Safe _ _ _ (
      unless-Safe _ _ _ (
        reads-Safe _ _ _ (get_campaign-reads campaign)
          (λ _. last-Safe _ _ _ _ (create_disposition-Whole campaign _))))))

pub with_hash-Safe :
    (o : Option Text) (k : Text → Handler) → ((h : Text) → Safe (k h)) → Safe (with_hash o k)
with_hash-Safe none k h = reply-Safe _
with_hash-Safe (some x) k h = h x

pub patch_role-Safe :
    (o : Option Text) (k : Option Role → Handler)
    → ((n : Option Role) → Safe (k n))
    → Safe (patch_role o k)
unfolding patch_role
patch_role-Safe none k h = h none
patch_role-Safe (some raw) k h = with_part-Safe _ _ _ (λ s. h _)

module _ (parse_uuid : Text → Option ℕ) (hash_password : Text → Option Text) where
  pub handle_create_user-Safe :
      (r : Option CreateUserRequest) → Safe (handle_create_user parse_uuid hash_password r)
  unfolding handle_create_user
  handle_create_user-Safe request = with_part-Safe _ _ _ (λ r. unless-Safe _ _ _ (
      unless-Safe _ _ _ (
        with_part-Safe _ _ _
          (λ role. with_hash-Safe _ _ (λ hash. last-Safe _ _ _ _ (create_user-Whole _))))))

  pub handle_patch_user-Safe :
      (now : ℕ) (id : Text) (r : Option PatchUserRequest)
      → Safe (handle_patch_user parse_uuid hash_password now id r)
  unfolding handle_patch_user
  handle_patch_user-Safe now id request = with_part-Safe _ _ _ (λ id.
      with_part-Safe _ _ _
        (λ r. patch_role-Safe _ _ (λ role. last-Safe _ _ _ _ (update_user-Whole id _))))

  pub handle_reset_user_password-Safe :
      (id : Text) (r : Option Text)
      → Safe (handle_reset_user_password parse_uuid hash_password id r)
  unfolding handle_reset_user_password
  handle_reset_user_password-Safe id request = with_part-Safe _ _ _ (λ id.
      with_part-Safe _ _ _ (λ p.
        unless-Safe _ _ _
          (with_hash-Safe _ _ (λ hash. last-Safe _ _ _ _ (reset_password-Whole id _)))))
