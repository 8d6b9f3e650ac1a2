-- ===== src/Store/Leads.antt =====
-- services/api/internal/store/leads.go: the import of a list of leads, and the lead that an agent
-- is given next. `FOR UPDATE SKIP LOCKED` makes of the claim one statement that no other splits.
use callvoice.Common.{
  ℕ, suc, Bool, true, false, not, ◌&&◌, Option, none, some, List, [], ◌∷◌, ◌++◌, Text, ltb, ◌==◌,
  if◌then◌else◌, exists, has, amend, Result, ok, err, unique_violation, constraint_violation,
  invalid_campaign_state, forbidden, no_leads_available,
}
use callvoice.Models.{running, is_status, LeadList, Lead, LeadStatus, new_lead, in_progress}
use callvoice.Sql.{Tables, M, pure, guard, ◌>>=◌, ◌>>◌, statement, insert, atomically}
use callvoice.Store.{require}
use callvoice.Store.Campaigns.{get_campaign, is_agent_assigned}

pub record ImportLeadRow : Type 0 where
  pub phone : Text
  pub payload : List (Text × Text)

pub record ImportLeadsResult : Type 0 where
  pub list_id : ℕ
  pub imported : ℕ

abbrev pub new_list : ℕ → Text → ℕ → LeadList
new_list campaign name id = record { id = id; campaign_id = campaign; name = name; row_count = 0 }

abbrev pub insert_list_row : ℕ → Text → ℕ → Tables → Result ℕ × Tables
insert_list_row campaign name id t =
    require (not (has (λ l. l.id) id t.lead_lists)) unique_violation t (
      require (has (λ c. c.id) campaign t.campaigns) constraint_violation t
        (ok id, record t { lead_lists = t.lead_lists ++ new_list campaign name id ∷ [] }))

abbrev pub fresh_lead : ℕ → ImportLeadRow → ℕ → Lead
fresh_lead list row id = record {
  id = id;
  list_id = list;
  phone = row.phone;
  payload = row.payload;
  status = new_lead;
  disposition_id = none;
  assigned_agent_id = none;
}

abbrev pub insert_lead_row : ℕ → ImportLeadRow → ℕ → Tables → Result (Unit {0}) × Tables
insert_lead_row list row id t = require (not (has (λ l. l.id) id t.leads)) unique_violation t (
    require (has (λ l. l.id) list t.lead_lists) constraint_violation t
      (ok tt, record t { leads = t.leads ++ fresh_lead list row id ∷ [] }))

-- The loop over the rows, with the count so far.
unfoldable pub insert_leads : ℕ → List ImportLeadRow → ℕ → M ℕ
insert_leads list [] imported = pure imported
insert_leads list (row ∷ rows) imported =
    insert (λ id _ t. insert_lead_row list row id t) >>= λ _. insert_leads list rows (suc imported)

abbrev pub set_row_count : ℕ → ℕ → Tables → Tables
set_row_count list n t = record t {
  lead_lists = amend (λ l. l.id) list (λ l. record l { row_count = n }) t.lead_lists;
}

unfoldable pub import_leads : ℕ → Text → List ImportLeadRow → M ImportLeadsResult
import_leads campaign name rows = do
  _ ← get_campaign campaign
  atomically do
    list ← insert (λ id _ t. insert_list_row campaign name id t)
    imported ← insert_leads list rows 0
    statement (λ _ t. (ok tt, set_row_count list imported t))
    pure (record { list_id = list; imported = imported })

abbrev pub is_new : LeadStatus → Bool
is_new new_lead = true
is_new _ = false

abbrev pub is_list_of : ℕ → ℕ → LeadList → Bool
is_list_of campaign list l = l.campaign_id == campaign && l.id == list

-- Whether the lead is on a list of the campaign.
unfoldable pub in_campaign : ℕ → Tables → Lead → Bool
in_campaign campaign t l = exists (is_list_of campaign l.list_id) t.lead_lists

unfoldable pub is_candidate : ℕ → Tables → Lead → Bool
is_candidate campaign t l = in_campaign campaign t l && is_new l.status

abbrev pub earlier : Lead → Option Lead → Lead
earlier l none = l
earlier l (some m) = if ltb m.id l.id then m else l

-- `ORDER BY l.id LIMIT 1`
unfoldable pub next_lead : (Lead → Bool) → List Lead → Option Lead
next_lead p [] = none
next_lead p (l ∷ ls) = let rest = next_lead p ls in if p l then some (earlier l rest) else rest

abbrev pub claimed : ℕ → Lead → Lead
claimed agent l = record l { status = in_progress; assigned_agent_id = some agent }

abbrev pub claim_row : ℕ → Option Lead → Tables → Result Lead × Tables
claim_row agent none t = (err no_leads_available, t)
claim_row agent (some l) t =
    require (has (λ u. u.id) agent t.users) constraint_violation t
      (ok (claimed agent l), record t { leads = amend (λ m. m.id) l.id (claimed agent) t.leads })

abbrev pub claim_statement : ℕ → ℕ → Tables → Result Lead × Tables
claim_statement campaign agent t = claim_row agent (next_lead (is_candidate campaign t) t.leads) t

unfoldable pub claim_next : ℕ → ℕ → M Lead
claim_next campaign agent = do
  c ← get_campaign campaign
  guard (is_status c.status running) invalid_campaign_state
  assigned ← is_agent_assigned campaign agent
  guard assigned forbidden
  statement (λ _. claim_statement campaign agent)
