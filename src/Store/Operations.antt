-- ===== src/Store/Operations.antt =====
-- The operations of the stores that change tables, and histories of them, one after the other.
use callvoice.Common.{ℕ, ◌≡◌, List, [], ◌∷◌, Text, Error, err}
use callvoice.Sql.{Tables, Db, M, pure, ◌>>=◌}
use callvoice.Sql.Wp.{Wp, Wp-err, bind-Wp, weaken-Wp, pure-Wp}
use callvoice.Store.Campaigns.{
  CreateCampaignInput, UpdateCampaignInput, DispositionInput, create_campaign, update_campaign,
  set_agents,
}
use callvoice.Store.Leads.{ImportLeadRow, import_leads, claim_next}
use callvoice.Store.Dispositions.{create_disposition}
use callvoice.Store.CallLogs.{RecordDispositionInput, record_disposition}
use callvoice.Store.Users.{
  CreateUserInput, UpdateUserInput, create_user, update_user, reset_password,
}
use callvoice.Store.Carriers.{
  CreateCarrierInput, UpdateCarrierInput, create_carrier, update_carrier, delete_carrier,
}
use callvoice.Store.Whole.{
  Whole, create_campaign-Whole, update_campaign-Whole, set_agents-Whole, import_leads-Whole,
  claim_next-Whole, create_disposition-Whole, record_disposition-Whole, create_user-Whole,
  update_user-Whole, reset_password-Whole, create_carrier-Whole, update_carrier-Whole,
  delete_carrier-Whole,
}

pub data Operation : Type 0 where
  campaign_created : CreateCampaignInput → Operation
  campaign_updated : ℕ → UpdateCampaignInput → Operation
  agents_set : ℕ → List ℕ → Operation
  leads_imported : ℕ → Text → List ImportLeadRow → Operation
  lead_claimed : ℕ → ℕ → Operation
  disposition_created : ℕ → DispositionInput → Operation
  disposition_recorded : RecordDispositionInput → Operation
  user_created : CreateUserInput → Operation
  user_updated : ℕ → UpdateUserInput → Operation
  password_reset : ℕ → Text → Operation
  carrier_created : CreateCarrierInput → Operation
  carrier_updated : ℕ → UpdateCarrierInput → Operation
  carrier_deleted : ℕ → Operation

unfoldable pub finished : {A : Type 0} → M A → M (Unit {0})
finished m = m >>= λ _. pure tt

unfoldable pub perform : Operation → M (Unit {0})
perform (campaign_created input) = finished (create_campaign input)
perform (campaign_updated id input) = finished (update_campaign id input)
perform (agents_set campaign uids) = set_agents campaign uids
perform (leads_imported campaign name rows) = finished (import_leads campaign name rows)
perform (lead_claimed campaign agent) = finished (claim_next campaign agent)
perform (disposition_created campaign input) = finished (create_disposition campaign input)
perform (disposition_recorded input) = finished (record_disposition input)
perform (user_created input) = finished (create_user input)
perform (user_updated id input) = finished (update_user id input)
perform (password_reset id hash) = reset_password id hash
perform (carrier_created input) = finished (create_carrier input)
perform (carrier_updated id input) = finished (update_carrier id input)
perform (carrier_deleted id) = delete_carrier id

unfoldable pub history : List Operation → Db → Db
history [] db = db
history (o ∷ os) db = history os (perform o db).1

module _ {A : Type 0} where
  pub finished-Wp :
      (Q : Tables → Type 0) (E : Error → Tables → Type 0) (m : M A) (t : Tables)
      → Wp m (λ _. Q) E t
      → Wp (finished m) (λ _. Q) E t
  unfolding finished
  finished-Wp Q E m t h =
      bind-Wp (λ _. Q) E m (λ _. pure tt) t
        (weaken-Wp (λ _ u. Wp (pure tt) (λ _. Q) E u) (λ _. Q) E m t (λ _ u q. pure-Wp tt q) h)

  finished-Whole : (m : M A) (t : Tables) → Whole m t → Whole (finished m) t
  finished-Whole m t h = finished-Wp (λ _. Unit {0}) (λ _ u. u ≡ t) m t h

pub perform-Whole : (o : Operation) (t : Tables) → Whole (perform o) t
unfolding perform
perform-Whole (campaign_created input) t = finished-Whole _ t (create_campaign-Whole input t)
perform-Whole (campaign_updated id input) t = finished-Whole _ t (update_campaign-Whole id input t)
perform-Whole (agents_set campaign uids) t = set_agents-Whole campaign uids t
perform-Whole (leads_imported campaign name rows) t =
    finished-Whole _ t (import_leads-Whole campaign name rows t)
perform-Whole (lead_claimed campaign agent) t =
    finished-Whole _ t (claim_next-Whole campaign agent t)
perform-Whole (disposition_created campaign input) t =
    finished-Whole _ t (create_disposition-Whole campaign input t)
perform-Whole (disposition_recorded input) t = finished-Whole _ t (record_disposition-Whole input t)
perform-Whole (user_created input) t = finished-Whole _ t (create_user-Whole input t)
perform-Whole (user_updated id input) t = finished-Whole _ t (update_user-Whole id input t)
perform-Whole (password_reset id hash) t = reset_password-Whole id hash t
perform-Whole (carrier_created input) t = finished-Whole _ t (create_carrier-Whole input t)
perform-Whole (carrier_updated id input) t = finished-Whole _ t (update_carrier-Whole id input t)
perform-Whole (carrier_deleted id) t = delete_carrier-Whole id t

-- Each operation of the stores happens whole or not at all: whatever statements fail, in a
-- transaction or outside one, an operation that returns an error leaves every table as it was.
pub perform-err :
    (o : Operation) (db : Db) {e : Error}
    → (perform o db).0 ≡ err e
    → (perform o db).1.tables ≡ db.tables
perform-err o db {e = e} h =
    Wp-err (λ _ _. Unit {0}) (λ _ u. u ≡ db.tables) (perform o) db e (perform-Whole o db.tables) h
