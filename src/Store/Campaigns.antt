-- ===== src/Store/Campaigns.antt =====
-- services/api/internal/store/campaigns.go: the campaigns, their agents and their default
-- dispositions.
use callvoice.Common.{
  ℕ, Bool, true, false, not, ◌&&◌, ◌||◌, Option, none, some, List, [], ◌∷◌, ◌++◌, Text, codes, eqb,
  ◌==◌, select, exists, lookup, has, amend, Result, ok, unique_violation, constraint_violation,
  invalid_status_transition, invalid_agent, invalid_campaign_state, forbidden,
}
use callvoice.Models.{
  User, Role, agent, is_role, Campaign, CampaignAgent, CampaignStatus, draft, running, paused,
  stopped, is_status, Disposition,
}
use callvoice.Sql.{Tables, M, pure, guard, ◌>>=◌, ◌>>◌, statement, query, insert, atomically}
use callvoice.Store.{found, present, require, given}

pub record CreateCampaignInput : Type 0 where
  pub name : Text
  pub carrier_id : ℕ

pub record UpdateCampaignInput : Type 0 where
  pub name : Option Text
  pub carrier_id : Option ℕ
  pub status : Option CampaignStatus

pub record DispositionInput : Type 0 where
  pub code : Text
  pub label : Text
  pub is_contact : Bool
  pub is_success : Bool

abbrev pub default_disposition : Text → Text → Bool → Bool → DispositionInput
default_disposition code label contact success = record {
  code = code;
  label = label;
  is_contact = contact;
  is_success = success;
}

abbrev pub default_dispositions : List DispositionInput
default_dispositions =
    default_disposition (codes "NO_ANSWER") (codes "Pas de réponse") false false
    ∷ default_disposition (codes "BUSY") (codes "Occupé") false false
    ∷ default_disposition (codes "CALLBACK") (codes "Rappel") false false
    ∷ default_disposition (codes "SUCCESS") (codes "Succès") true true
    ∷ default_disposition (codes "DNC") (codes "Ne pas appeler") false false
    ∷ []

abbrev pub follows : CampaignStatus → CampaignStatus → Bool
follows draft to = is_status to running
follows running to = is_status to paused
follows paused to = is_status to running
follows stopped to = false

unfoldable pub valid_status_transition : CampaignStatus → CampaignStatus → Bool
valid_status_transition from to = is_status from to || is_status to stopped || follows from to

-- `List`, in the order of creation.
unfoldable pub list_campaigns : M (List Campaign)
list_campaigns = query (λ t. ok t.campaigns)

abbrev pub campaign_of : ℕ → Tables → Option Campaign
campaign_of id t = lookup (λ c. c.id) id t.campaigns

unfoldable pub get_campaign : ℕ → M Campaign
get_campaign id = query (λ t. found (campaign_of id t))

abbrev pub has_carrier : ℕ → Tables → Bool
has_carrier id t = has (λ c. c.id) id t.carriers

abbrev pub insert_campaign_row : CreateCampaignInput → ℕ → ℕ → Tables → Result Campaign × Tables
insert_campaign_row input id now t =
    require (not (has (λ c. c.id) id t.campaigns)) unique_violation t (
      require (has_carrier input.carrier_id t) constraint_violation t (
        let c : Campaign = record {
          id = id;
          name = input.name;
          carrier_id = input.carrier_id;
          status = draft;
          created_at = now;
          updated_at = now;
        } in
        (ok c, record t { campaigns = t.campaigns ++ c ∷ [] })))

-- `UNIQUE (code, campaign_id)`, where NULL is equal to nothing.
abbrev pub same_code : Text → ℕ → Disposition → Bool
same_code code campaign d = elim d.campaign_id [
  | none ↦ false
  | some c ↦ c == campaign && eqb d.code code
]

abbrev pub insert_disposition_row : ℕ → DispositionInput → ℕ → Tables → Result Disposition × Tables
insert_disposition_row campaign input id t =
    require
      (not (has (λ d. d.id) id t.dispositions)
        && not (exists (same_code input.code campaign) t.dispositions))
      unique_violation t
      (require (has (λ c. c.id) campaign t.campaigns) constraint_violation t (
        let d : Disposition = record {
          id = id;
          code = input.code;
          label = input.label;
          campaign_id = some campaign;
          is_contact = input.is_contact;
          is_success = input.is_success;
        } in
        (ok d, record t { dispositions = t.dispositions ++ d ∷ [] })))

unfoldable pub seed_dispositions : ℕ → List DispositionInput → M (Unit {0})
seed_dispositions id [] = pure tt
seed_dispositions id (d ∷ ds) =
    insert (λ i _ t. insert_disposition_row id d i t) >>= λ _. seed_dispositions id ds

unfoldable pub create_campaign : CreateCampaignInput → M Campaign
create_campaign input =
    atomically
      do c ← insert (insert_campaign_row input); seed_dispositions c.id default_dispositions; pure c

-- The row that `Update` writes over `cur`.
unfoldable pub updated_campaign : UpdateCampaignInput → Campaign → ℕ → Campaign → Campaign
updated_campaign input cur now c = record c {
  name = given input.name cur.name;
  carrier_id = given input.carrier_id cur.carrier_id;
  status = given input.status cur.status;
  updated_at = now;
}

abbrev pub update_campaign_row :
    ℕ → UpdateCampaignInput → Campaign → ℕ → Tables → Result Campaign × Tables
update_campaign_row id input cur now t =
    let update = updated_campaign input cur now in
    present (campaign_of id t) t (λ c.
      require (has_carrier (given input.carrier_id cur.carrier_id) t) constraint_violation t
        (ok (update c), record t { campaigns = amend (λ c. c.id) id update t.campaigns }))

-- What `Update` does after it has read the campaign.
unfoldable pub write_campaign : ℕ → UpdateCampaignInput → Campaign → M Campaign
write_campaign id input cur =
    guard (valid_status_transition cur.status (given input.status cur.status))
      invalid_status_transition
    >> statement (update_campaign_row id input cur)

unfoldable pub update_campaign : ℕ → UpdateCampaignInput → M Campaign
update_campaign id input = get_campaign id >>= write_campaign id input

abbrev pub role_in : Option User → Option Role
role_in none = none
role_in (some u) = some u.role

unfoldable pub role_of : ℕ → Tables → Option Role
role_of id t = role_in (lookup (λ u. u.id) id t.users)

abbrev pub is_agent : Option Role → Bool
is_agent none = false
is_agent (some r) = is_role r agent

unfoldable pub check_agents : List ℕ → M (Unit {0})
check_agents [] = pure tt
check_agents (uid ∷ uids) = do
  role ← query (λ t. ok (role_of uid t))
  guard (is_agent role) invalid_agent
  check_agents uids

abbrev pub is_assignment : ℕ → ℕ → CampaignAgent → Bool
is_assignment campaign user a = a.campaign_id == campaign && a.user_id == user

abbrev pub insert_agent_row : ℕ → ℕ → Tables → Result (Unit {0}) × Tables
insert_agent_row campaign user t =
    require (not (exists (is_assignment campaign user) t.campaign_agents)) unique_violation t (
      require (has (λ c. c.id) campaign t.campaigns && has (λ u. u.id) user t.users)
        constraint_violation t
        (
          ok tt,
          record t {
            campaign_agents =
                t.campaign_agents ++ record { campaign_id = campaign; user_id = user } ∷ [];
          },
        ))

unfoldable pub insert_agents : ℕ → List ℕ → M (Unit {0})
insert_agents campaign [] = pure tt
insert_agents campaign (uid ∷ uids) =
    statement (λ _. insert_agent_row campaign uid) >> insert_agents campaign uids

abbrev pub delete_agents : ℕ → Tables → Tables
delete_agents campaign t = record t {
  campaign_agents = select (λ a. not (a.campaign_id == campaign)) t.campaign_agents;
}

unfoldable pub set_agents : ℕ → List ℕ → M (Unit {0})
set_agents campaign uids = get_campaign campaign >>= λ _.
    check_agents uids
    >> atomically
        (statement (λ _ t. (ok tt, delete_agents campaign t)) >> insert_agents campaign uids)

abbrev pub is_assigned : ℕ → ℕ → Tables → Bool
is_assigned campaign user t = exists (is_assignment campaign user) t.campaign_agents

-- The campaigns that run and that the agent is on, in the order of creation.
unfoldable pub list_running_for_agent : ℕ → M (List Campaign)
list_running_for_agent user =
    query
      (λ t. ok (select (λ c. is_status c.status running && is_assigned c.id user t) t.campaigns))

unfoldable pub is_agent_assigned : ℕ → ℕ → M Bool
is_agent_assigned campaign user = query (λ t. ok (is_assigned campaign user t))

unfoldable pub validate_agent_join : ℕ → ℕ → M (Unit {0})
validate_agent_join campaign user = do
  c ← get_campaign campaign
  guard (is_status c.status running) invalid_campaign_state
  assigned ← is_agent_assigned campaign user
  guard assigned forbidden
