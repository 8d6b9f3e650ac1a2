-- ===== src/Store/Closed/History.antt =====
-- A closed condition holds after every history of operations.
use callvoice.Common.{Result-cases, subst, sym, inl, inr, List, [], ◌∷◌}
use callvoice.Sql.{Tables, Db}
use callvoice.Sql.Wp.{Wp-ok}
use callvoice.Store.Operations.{
  perform-err, history, campaign_created, campaign_updated, agents_set, leads_imported,
  lead_claimed, disposition_created, disposition_recorded, user_created, user_updated,
  password_reset, carrier_created, carrier_updated, carrier_deleted, Operation, perform,
  finished-Wp,
}
use callvoice.Store.Closed.{Closed, Keeps}
use callvoice.Store.Closed.Campaigns.{
  create_campaign-Keeps, update_campaign-Keeps, set_agents-Keeps, import_leads-Keeps,
  claim_next-Keeps, create_disposition-Keeps, record_disposition-Keeps,
}
use callvoice.Store.Closed.Accounts.{
  create_user-Keeps, update_user-Keeps, reset_password-Keeps, create_carrier-Keeps,
  update_carrier-Keeps, delete_carrier-Keeps,
}

module _ (P : Tables → Type 0) (C : Closed P) where
  perform-Keeps : (o : Operation) (t : Tables) → P t → Keeps P (perform o) t
  unfolding perform
  perform-Keeps (campaign_created input) t p =
      finished-Wp P _ _ t (create_campaign-Keeps P C input t p)
  perform-Keeps (campaign_updated id input) t p =
      finished-Wp P _ _ t (update_campaign-Keeps P C id input t p)
  perform-Keeps (agents_set campaign uids) t p = set_agents-Keeps P C campaign uids t p
  perform-Keeps (leads_imported campaign name rows) t p =
      finished-Wp P _ _ t (import_leads-Keeps P C campaign name rows t p)
  perform-Keeps (lead_claimed campaign agent) t p =
      finished-Wp P _ _ t (claim_next-Keeps P C campaign agent t p)
  perform-Keeps (disposition_created campaign input) t p =
      finished-Wp P _ _ t (create_disposition-Keeps P C campaign input t p)
  perform-Keeps (disposition_recorded input) t p =
      finished-Wp P _ _ t (record_disposition-Keeps P C input t p)
  perform-Keeps (user_created input) t p = finished-Wp P _ _ t (create_user-Keeps P C input t p)
  perform-Keeps (user_updated id input) t p =
      finished-Wp P _ _ t (update_user-Keeps P C id input t p)
  perform-Keeps (password_reset id hash) t p = reset_password-Keeps P C id hash t p
  perform-Keeps (carrier_created input) t p =
      finished-Wp P _ _ t (create_carrier-Keeps P C input t p)
  perform-Keeps (carrier_updated id input) t p =
      finished-Wp P _ _ t (update_carrier-Keeps P C id input t p)
  perform-Keeps (carrier_deleted id) t p = delete_carrier-Keeps P C id t p

  -- After an error the tables are those before.
  perform-step : (o : Operation) (db : Db) → P db.tables → P (perform o db).1.tables
  perform-step o db p = elim (Result-cases (perform o db).0) [
    | inl (a, e) ↦ Wp-ok (λ _. P) (λ _ _. Unit {0}) (perform o) db a (perform-Keeps o db.tables p) e
    | inr (e, h) ↦ subst P (sym (perform-err o db h)) p
  ]

  -- The rule of invariants.
  pub history-Closed : (os : List Operation) (db : Db) → P db.tables → P (history os db).tables
  unfolding history
  history-Closed [] db p = p
  history-Closed (o ∷ os) db p = history-Closed os (perform o db).1 (perform-step o db p)
