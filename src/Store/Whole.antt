-- ===== src/Store/Whole.antt =====
-- Every operation of the stores happens whole or not at all.
use callvoice.Common.{ℕ, ◌≡◌, refl, true, Option, none, some, List, [], ◌∷◌, Text, lookup}
use callvoice.Models.{Lead}
use callvoice.Sql.{Tables, M, atomically}
use callvoice.Sql.Wp.{
  ok-Post, err-Post, Post, Wp, query-then, guard-then, statement-Wp, insert-Wp, atomically-Wp,
  any-Wp, pure-Wp, rename-Wp, reads-then, weaken-Wp,
}
use callvoice.Store.Rules.{found-Post, present-Post, require-Post}
use callvoice.Store.Campaigns.{
  create_campaign, update_campaign, write_campaign, campaign_of, get_campaign, CreateCampaignInput,
  UpdateCampaignInput, check_agents, set_agents, role_of, is_agent, is_agent_assigned,
  DispositionInput,
}
use callvoice.Store.Leads.{import_leads, ImportLeadRow, claim_next, claim_row}
use callvoice.Store.Dispositions.{get_disposition, create_disposition}
use callvoice.Store.CallLogs.{record_disposition, RecordDispositionInput}
use callvoice.Store.Users.{
  create_user, CreateUserInput, update_user, UpdateUserInput, reset_password,
}
use callvoice.Store.Carriers.{
  create_carrier, CreateCarrierInput, update_carrier, UpdateCarrierInput, get_carrier, carrier_row,
  delete_carrier,
}

module _ {A : Type 0} where
  -- An error leaves the tables as they were.
  abbrev pub Whole : M A → Tables → Type 0
  Whole m t = Wp m (λ _ _. Unit {0}) (λ _ u. u ≡ t) t

  atomically-Whole : (m : M A) (t : Tables) → Whole (atomically m) t
  atomically-Whole m t = atomically-Wp _ _ m t refl (any-Wp m (λ _ _. tt) (λ _ _. refl))

pub create_campaign-Whole :
    (input : CreateCampaignInput) (t : Tables) → Whole (create_campaign input) t
unfolding create_campaign
create_campaign-Whole input t = atomically-Whole _ t

pub update_campaign-Whole :
    (id : ℕ) (input : UpdateCampaignInput) (t : Tables) → Whole (update_campaign id input) t
unfolding update_campaign get_campaign write_campaign
update_campaign-Whole id input t = query-then _ _ refl (
    found-Post _ _ (campaign_of id t) t (λ _. refl)
      (λ cur _.
        guard-then _ _ _ (λ _. refl)
          (λ _. statement-Wp _ _ _ t refl (λ now.
            present-Post _ _ (campaign_of id t) t _ (λ _. refl)
              (λ c _. require-Post _ _ _ _ t _ (λ _. refl) (λ _. ok-Post _ _ tt))))))

-- Whether each of the users is an agent.
unfoldable pub AreAgents : Tables → List ℕ → Type 0
AreAgents t [] = Unit
AreAgents t (uid ∷ uids) = (is_agent (role_of uid t) ≡ true) × AreAgents t uids

pub check_agents-Wp :
    (uids : List ℕ) (t : Tables)
    → Wp (check_agents uids) (λ _ u. (u ≡ t) × AreAgents t uids) (λ _ u. u ≡ t) t
unfolding check_agents AreAgents
check_agents-Wp [] t = pure-Wp tt (refl, tt)
check_agents-Wp (uid ∷ uids) t = query-then _ _ refl (
    ok-Post _ _ (
      guard-then _ _ _ (λ _. refl)
        (λ e. weaken-Wp _ _ _ _ t (λ _ u p. (p.0, (e, p.1))) (check_agents-Wp uids t))))

pub set_agents-Whole :
    (campaign : ℕ) (uids : List ℕ) (t : Tables) → Whole (set_agents campaign uids) t
unfolding set_agents get_campaign
set_agents-Whole campaign uids t = query-then _ _ refl (
    found-Post _ _ (campaign_of campaign t) t (λ _. refl)
      (λ _ _. reads-then _ _ t _ (check_agents-Wp uids t) (λ _. atomically-Whole _ t)))

pub import_leads-Whole :
    (campaign : ℕ) (name : Text) (rows : List ImportLeadRow) (t : Tables)
    → Whole (import_leads campaign name rows) t
unfolding import_leads get_campaign
import_leads-Whole campaign name rows t =
    query-then _ _ refl
      (found-Post _ _ (campaign_of campaign t) t (λ _. refl) (λ _ _. atomically-Whole _ t))

claim_row-Whole :
    (agent : ℕ) (o : Option Lead) (t : Tables)
    → Post (λ _ _. Unit {0}) (λ _ u. u ≡ t) (claim_row agent o t)
claim_row-Whole agent none t = err-Post _ _ refl
claim_row-Whole agent (some l) t = require-Post _ _ _ _ t _ (λ _. refl) (λ _. ok-Post _ _ tt)

pub claim_next-Whole : (campaign agent : ℕ) (t : Tables) → Whole (claim_next campaign agent) t
unfolding claim_next get_campaign is_agent_assigned
claim_next-Whole campaign agent t = query-then _ _ refl (
    found-Post _ _ (campaign_of campaign t) t (λ _. refl)
      (λ c _.
        guard-then _ _ _ (λ _. refl)
          (λ _. query-then _ _ refl (
            ok-Post _ _ (
              guard-then _ _ _ (λ _. refl)
                (λ _. statement-Wp _ _ _ t refl (λ _. claim_row-Whole agent _ t)))))))

pub create_disposition-Whole :
    (campaign : ℕ) (input : DispositionInput) (t : Tables)
    → Whole (create_disposition campaign input) t
unfolding create_disposition
create_disposition-Whole campaign input t = rename-Wp _ _ (
    insert-Wp _ _ _ t refl (λ id _.
      require-Post _ _ _ _ t _ (λ _. refl)
        (λ _. require-Post _ _ _ _ t _ (λ _. refl) (λ _. ok-Post _ _ tt))))

pub record_disposition-Whole :
    (input : RecordDispositionInput) (t : Tables) → Whole (record_disposition input) t
unfolding record_disposition get_disposition
record_disposition-Whole input t = query-then _ _ refl (
    found-Post _ _ (lookup (λ d. d.id) input.disposition_id t.dispositions) t (λ _. refl)
      (λ d _. guard-then _ _ _ (λ _. refl) (λ _. atomically-Whole _ t)))

pub create_user-Whole : (input : CreateUserInput) (t : Tables) → Whole (create_user input) t
unfolding create_user
create_user-Whole input t = atomically-Whole _ t

pub update_user-Whole :
    (id : ℕ) (input : UpdateUserInput) (t : Tables) → Whole (update_user id input) t
unfolding update_user
update_user-Whole id input t = atomically-Whole _ t

pub reset_password-Whole : (id : ℕ) (hash : Text) (t : Tables) → Whole (reset_password id hash) t
unfolding reset_password
reset_password-Whole id hash t =
    statement-Wp _ _ _ t refl (λ _. require-Post _ _ _ _ t _ (λ _. refl) (λ _. ok-Post _ _ tt))

pub create_carrier-Whole :
    (input : CreateCarrierInput) (t : Tables) → Whole (create_carrier input) t
unfolding create_carrier
create_carrier-Whole input t = insert-Wp _ _ _ t refl (λ id now.
    require-Post _ _ _ _ t _ (λ _. refl)
      (λ _. require-Post _ _ _ _ t _ (λ _. refl) (λ _. ok-Post _ _ tt)))

pub update_carrier-Whole :
    (id : ℕ) (input : UpdateCarrierInput) (t : Tables) → Whole (update_carrier id input) t
unfolding update_carrier get_carrier
update_carrier-Whole id input t = query-then _ _ refl (
    found-Post _ _ (carrier_row id t) t (λ _. refl)
      (λ cur _. statement-Wp _ _ _ t refl (λ now.
        present-Post _ _ (carrier_row id t) t _ (λ _. refl)
          (λ c _. require-Post _ _ _ _ t _ (λ _. refl) (λ _. ok-Post _ _ tt)))))

pub delete_carrier-Whole : (id : ℕ) (t : Tables) → Whole (delete_carrier id) t
unfolding delete_carrier
delete_carrier-Whole id t = statement-Wp _ _ _ t refl (λ _.
    require-Post _ _ _ _ t _ (λ _. refl)
      (λ _. require-Post _ _ _ _ t _ (λ _. refl) (λ _. ok-Post _ _ tt)))
