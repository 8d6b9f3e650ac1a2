-- ===== src/Store/Closed/Campaigns.antt =====
-- A closed condition holds after each operation on campaigns, leads and outcomes.
use callvoice.Common.{
  not-true, ℕ, Bool-cases, inl, inr, Option, none, some, List, [], ◌∷◌, Text, lookup,
}
use callvoice.Models.{Lead, CallLog}
use callvoice.Sql.{Tables, M}
use callvoice.Sql.Wp.{
  forget-Wp, ok-Post, err-Post, Post, query-then, insert-then, guard-then, statement-Wp, insert-Wp,
  atomically-Wp, pure-Wp, rename-Wp, reads-then, seq-Wp, weaken-Wp, bind-Wp,
}
use callvoice.Store.Rules.{found-Post, present-Post, require-Post}
use callvoice.Store.Whole.{AreAgents, check_agents-Wp}
use callvoice.Store.Campaigns.{
  create_campaign, update_campaign, write_campaign, campaign_of, get_campaign, CreateCampaignInput,
  UpdateCampaignInput, set_agents, insert_agents, is_agent_assigned, DispositionInput,
  seed_dispositions,
}
use callvoice.Store.Leads.{
  in_campaign, import_leads, insert_leads, ImportLeadRow, claim_next, claim_row,
}
use callvoice.Store.Dispositions.{get_disposition, create_disposition}
use callvoice.Store.CallLogs.{holder, record_disposition, RecordDispositionInput}
use callvoice.Store.Closed.{Closed, Keeps}

module _ (P : Tables → Type 0) (C : Closed P) where
  pub seed_dispositions-Keeps :
      (id : ℕ) (ds : List DispositionInput) (t : Tables) → P t → Keeps P (seed_dispositions id ds) t
  unfolding seed_dispositions
  seed_dispositions-Keeps id [] t p = pure-Wp tt p
  seed_dispositions-Keeps id (d ∷ ds) t p = insert-then _ _ tt (λ i _.
      require-Post _ _ _ _ t _ (λ _. tt)
        (λ _.
          require-Post _ _ _ _ t _ (λ _. tt)
            (λ _. ok-Post _ _ (seed_dispositions-Keeps id ds _ (C.dispositions t _ p)))))

  pub create_campaign-Keeps :
      (input : CreateCampaignInput) (t : Tables) → P t → Keeps P (create_campaign input) t
  unfolding create_campaign
  create_campaign-Keeps input t p = atomically-Wp _ _ _ t tt (
      insert-then _ _ tt (λ id now.
        require-Post _ _ _ _ t _ (λ _. tt)
          (λ _.
            require-Post _ _ _ _ t _ (λ _. tt)
              (λ _. ok-Post _ _ (
                seq-Wp _ _ _ (
                  weaken-Wp _ _ _ _ _ (λ _ u q. pure-Wp _ q)
                    (seed_dispositions-Keeps id _ _ (C.campaign_added t _ p))))))))

  pub update_campaign-Keeps :
      (id : ℕ) (input : UpdateCampaignInput) (t : Tables)
      → P t
      → Keeps P (update_campaign id input) t
  unfolding update_campaign get_campaign write_campaign
  update_campaign-Keeps id input t p = query-then _ _ tt (
      found-Post _ _ (campaign_of id t) t (λ _. tt)
        (λ cur e.
          guard-then _ _ _ (λ _. tt)
            (λ v. statement-Wp _ _ _ t tt (λ now.
              present-Post _ _ (campaign_of id t) t _ (λ _. tt)
                (λ c _.
                  require-Post _ _ _ _ t _ (λ _. tt)
                    (λ _. ok-Post _ _ (C.campaign_changed t id input cur now e v p)))))))

  pub insert_agents-Keeps :
      (campaign : ℕ) (uids : List ℕ) (t : Tables) → P t → Keeps P (insert_agents campaign uids) t
  unfolding insert_agents
  insert_agents-Keeps campaign [] t p = pure-Wp tt p
  insert_agents-Keeps campaign (uid ∷ uids) t p = seq-Wp _ _ _ (
      statement-Wp _ _ _ t tt (λ _.
        require-Post _ _ _ _ t _ (λ _. tt)
          (λ _.
            require-Post _ _ _ _ t _ (λ _. tt)
              (λ _. ok-Post _ _ (insert_agents-Keeps campaign uids _ (C.campaign_agents t _ p))))))

  pub set_agents-Keeps :
      (campaign : ℕ) (uids : List ℕ) (t : Tables) → P t → Keeps P (set_agents campaign uids) t
  unfolding set_agents get_campaign
  set_agents-Keeps campaign uids t p = query-then _ _ tt (
      found-Post _ _ (campaign_of campaign t) t (λ _. tt)
        (λ _ _.
          reads-then _ _ t (AreAgents t uids) (forget-Wp _ _ _ t (check_agents-Wp uids t)) (λ _.
            atomically-Wp _ _ _ t tt (
              seq-Wp _ _ _ (
                statement-Wp _ _ _ t tt (λ _.
                  ok-Post _ _ (insert_agents-Keeps campaign uids _ (C.campaign_agents t _ p))))))))

  pub insert_leads-Keeps :
      (list : ℕ) (rows : List ImportLeadRow) (n : ℕ) (t : Tables)
      → P t
      → Keeps P (insert_leads list rows n) t
  unfolding insert_leads
  insert_leads-Keeps list [] n t p = pure-Wp n p
  insert_leads-Keeps list (row ∷ rows) n t p = insert-then _ _ tt (λ id _.
      require-Post _ _ _ _ t _ (λ _. tt)
        (λ e.
          require-Post _ _ _ _ t _ (λ _. tt)
            (λ _.
              ok-Post _ _ (insert_leads-Keeps list rows _ _ (C.lead_added t _ (not-true e) p)))))

  pub import_leads-Keeps :
      (campaign : ℕ) (name : Text) (rows : List ImportLeadRow) (t : Tables)
      → P t
      → Keeps P (import_leads campaign name rows) t
  unfolding import_leads get_campaign
  import_leads-Keeps campaign name rows t p = query-then _ _ tt (
      found-Post _ _ (campaign_of campaign t) t (λ _. tt)
        (λ _ _. atomically-Wp _ _ _ t tt (
          insert-then _ _ tt (λ id _.
            require-Post _ _ _ _ t _ (λ _. tt)
              (λ _.
                require-Post _ _ _ _ t _ (λ _. tt)
                  (λ _. ok-Post _ _ (
                    bind-Wp _ _ _ _ _ (
                      weaken-Wp _ _ _ _ _
                        (λ n u q. seq-Wp _ _ _ (
                          statement-Wp _ _ _ u tt
                            (λ _. ok-Post _ _ (pure-Wp _ (C.lead_lists u _ q)))))
                        (insert_leads-Keeps id rows 0 _ (C.lead_lists t _ p))))))))))

  pub claim_row-Keeps :
      (agent : ℕ) (o : Option Lead) (t : Tables)
      → P t
      → Post (λ _. P) (λ _ _. Unit {0}) (claim_row agent o t)
  claim_row-Keeps agent none t p = err-Post _ _ tt
  claim_row-Keeps agent (some l) t p =
      require-Post _ _ _ _ t _ (λ _. tt) (λ _. ok-Post _ _ (C.lead_taken t l.id agent p))

  pub claim_next-Keeps :
      (campaign agent : ℕ) (t : Tables) → P t → Keeps P (claim_next campaign agent) t
  unfolding claim_next get_campaign is_agent_assigned
  claim_next-Keeps campaign agent t p = query-then _ _ tt (
      found-Post _ _ (campaign_of campaign t) t (λ _. tt)
        (λ c _.
          guard-then _ _ _ (λ _. tt)
            (λ _. query-then _ _ tt (
              ok-Post _ _ (
                guard-then _ _ _ (λ _. tt)
                  (λ _. statement-Wp _ _ _ t tt (λ _. claim_row-Keeps agent _ t p)))))))

  pub create_disposition-Keeps :
      (campaign : ℕ) (input : DispositionInput) (t : Tables)
      → P t
      → Keeps P (create_disposition campaign input) t
  unfolding create_disposition
  create_disposition-Keeps campaign input t p = rename-Wp _ _ (
      insert-Wp _ _ _ t tt (λ id _.
        require-Post _ _ _ _ t _ (λ _. tt)
          (λ _. require-Post _ _ _ _ t _ (λ _. tt) (λ _. ok-Post _ _ (C.dispositions t _ p)))))

  pub holder-Keeps :
      (campaign : ℕ) (o : Option Lead) (t : Tables) (k : Option ℕ → M CallLog)
      → ((a : Option ℕ) → Keeps P (k a) t)
      → Post (λ a u. Keeps P (k a) u) (λ _ _. Unit {0}) (holder campaign t o, t)
  holder-Keeps campaign none t k h = err-Post _ _ tt
  holder-Keeps campaign (some l) t k h = elim (Bool-cases (in_campaign campaign t l)) [
    | inl e ↦ rw e (ok-Post _ _ (h l.assigned_agent_id))
    | inr e ↦ rw e (err-Post _ _ tt)
  ]

  pub record_disposition-Keeps :
      (input : RecordDispositionInput) (t : Tables) → P t → Keeps P (record_disposition input) t
  unfolding record_disposition get_disposition
  record_disposition-Keeps input t p = query-then _ _ tt (
      found-Post _ _ (lookup (λ d. d.id) input.disposition_id t.dispositions) t (λ _. tt)
        (λ d _.
          guard-then _ _ _ (λ _. tt)
            (λ _. atomically-Wp _ _ _ t tt (
              query-then _ _ tt (
                holder-Keeps input.campaign_id _ t _ (λ a.
                  guard-then _ _ _ (λ _. tt)
                    (λ _. seq-Wp _ _ _ (
                      statement-Wp _ _ _ t tt (λ _.
                        require-Post _ _ _ _ t _ (λ _. tt)
                          (λ _. ok-Post _ _ (
                            insert-Wp _ _ _ _ tt (λ id _.
                              require-Post _ _ _ _ _ _ (λ _. tt)
                                (λ _.
                                  require-Post _ _ _ _ _ _ (λ _. tt)
                                    (λ _. ok-Post _ _ (
                                      C.call_logs _ _ (
                                        C.lead_disposed t input.lead_id d input.disposition_id
                                          p))))))))))))))))
