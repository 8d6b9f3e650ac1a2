-- ===== src/Store/Closed.antt =====
-- Conditions on the tables that every change of a row keeps.
pub mod Campaigns
pub mod Accounts
pub mod History
use callvoice.Common.{
  not-true, Result-cases, subst, sym, arith, ℕ, ◌≡◌, refl, Bool, true, false, ◌&&◌, not, Bool-cases,
  inl, inr, Option, none, some, List, [], ◌∷◌, ◌++◌, Text, lookup, has, amend, ltb,
}
use callvoice.Models.{
  User, admin, is_role, Campaign, CampaignAgent, LeadList, Lead, Disposition, CallLog, Carrier,
}
use callvoice.Sql.{Tables, Db, M, control}
use callvoice.Sql.Wp.{
  guard-last, Wp-ok, forget-Wp, ok-Post, err-Post, Post, Wp, query-then, insert-then, guard-then,
  query-Wp, statement-Wp, insert-Wp, atomically-Wp, pure-Wp, rename-Wp, reads-then, seq-Wp,
  weaken-Wp, bind-Wp,
}
use callvoice.Store.{given}
use callvoice.Store.Rules.{found-Post, present-Post, require-Post}
use callvoice.Store.Whole.{AreAgents, check_agents-Wp}
use callvoice.Store.Campaigns.{
  create_campaign, update_campaign, write_campaign, updated_campaign, campaign_of, get_campaign,
  CreateCampaignInput, UpdateCampaignInput, set_agents, insert_agents, is_agent_assigned,
  DispositionInput, seed_dispositions, valid_status_transition,
}
use callvoice.Store.Leads.{
  in_campaign, import_leads, insert_leads, ImportLeadRow, claim_next, claimed, claim_row,
}
use callvoice.Store.Dispositions.{get_disposition, create_disposition}
use callvoice.Store.CallLogs.{
  holder, record_disposition, RecordDispositionInput, dispose_lead, lead_status_from_disposition,
}
use callvoice.Store.Users.{
  create_user, CreateUserInput, update_user, UpdateUserInput, updated_user, user_of, get_user,
  reset_user, reset_password, admins, claim_admin_slot, lock_admin_slot, count_admins, promotes,
}
use callvoice.Store.Carriers.{
  create_carrier, CreateCarrierInput, update_carrier, UpdateCarrierInput, get_carrier, carrier_row,
  delete_carrier,
}
use callvoice.Store.Operations.{
  perform-err, history, campaign_created, campaign_updated, agents_set, leads_imported,
  lead_claimed, disposition_created, disposition_recorded, user_created, user_updated,
  password_reset, carrier_created, carrier_updated, carrier_deleted, Operation, perform,
  finished-Wp,
}

-- What each change of rows keeps, under what its operation has checked.
pub record Closed (P : Tables → Type 0) : Type 0 where
  pub carriers : (t : Tables) (cs : List Carrier) → P t → P (record t { carriers = cs })
  pub campaign_agents :
      (t : Tables) (as_ : List CampaignAgent) → P t → P (record t { campaign_agents = as_ })
  pub lead_lists : (t : Tables) (ls : List LeadList) → P t → P (record t { lead_lists = ls })
  pub dispositions : (t : Tables) (ds : List Disposition) → P t → P (record t { dispositions = ds })
  pub call_logs : (t : Tables) (cs : List CallLog) → P t → P (record t { call_logs = cs })
  pub campaign_added :
      (t : Tables) (c : Campaign) → P t → P (record t { campaigns = t.campaigns ++ c ∷ [] })
  pub campaign_changed :
      (t : Tables) (id : ℕ) (input : UpdateCampaignInput) (cur : Campaign) (now : ℕ)
      → campaign_of id t ≡ some cur
      → valid_status_transition cur.status (given input.status cur.status) ≡ true
      → P t
      → P (record t {
        campaigns = amend (λ c. c.id) id (updated_campaign input cur now) t.campaigns;
      })
  pub lead_added :
      (t : Tables) (l : Lead)
      → has (λ l. l.id) l.id t.leads ≡ false
      → P t
      → P (record t { leads = t.leads ++ l ∷ [] })
  pub lead_taken :
      (t : Tables) (id agent : ℕ)
      → P t
      → P (record t { leads = amend (λ l. l.id) id (claimed agent) t.leads })
  pub lead_disposed :
      (t : Tables) (id : ℕ) (d : Disposition) (disposition : ℕ)
      → P t
      → P (record t {
        leads =
            amend
              (λ l. l.id)
              id
              (dispose_lead (lead_status_from_disposition d) disposition)
              t.leads;
      })
  pub user_added :
      (t : Tables) (u : User)
      → has (λ u. u.id) u.id t.users ≡ false
      → (is_role u.role admin ≡ true → admins t.users ≡ 0)
      → P t
      → P (record t { users = t.users ++ u ∷ [] })
  pub user_changed :
      (t : Tables) (id : ℕ) (input : UpdateUserInput) (cur : User) (now : ℕ)
      → user_of id t ≡ some cur
      → (promotes input.role cur.role ≡ true → admins t.users ≡ 0)
      → P t
      → P (record t { users = amend (λ u. u.id) id (updated_user input now cur) t.users })
  pub password_changed :
      (t : Tables) (id : ℕ) (hash : Text)
      → P t
      → P (record t { users = amend (λ u. u.id) id (reset_user hash) t.users })

-- A success of the program keeps the condition.
abbrev pub Keeps : (Tables → Type 0) → {A : Type 0} → M A → Tables → Type 0
Keeps P m t = Wp m (λ _. P) (λ _ _. Unit {0}) t
