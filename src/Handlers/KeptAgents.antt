-- ===== src/Handlers/KeptAgents.antt =====
-- agent_ops.go: a handler that refuses changes no table.
use callvoice.Store.CallLogs.{RecordDispositionInput}
use callvoice.Store.Rules.{found-Post}
use callvoice.Handlers.Agents.{
  DispositionRequest, handle_agent_join_campaign, handle_agent_list_dispositions,
  handle_agent_next_lead, handle_agent_disposition, with_time, record_outcome,
}
use callvoice.Common.{
  is_empty, trim_space, Bool-cases, ℕ, ◌≡◌, refl, Option, none, some, Text, inl, inr,
}
use callvoice.Models.{User}
use callvoice.Sql.{Tables, Db}
use callvoice.Sql.Laws.{tables-query}
use callvoice.Sql.Wp.{Wp, Wp-any, query-then, guard-then, guard-last, ok-Post}
use callvoice.Store.Whole.{record_disposition-Whole, claim_next-Whole}
use callvoice.Store.Campaigns.{validate_agent_join, is_agent_assigned, campaign_of, get_campaign}
use callvoice.Store.Dispositions.{list_dispositions}
use callvoice.Handlers.{Handler}
use callvoice.Handlers.Safe.{Safe, reply-Safe, with_part-Safe, reads-Safe, last-Safe, unless-Safe}

validate_agent_join-Wp :
    (campaign user : ℕ) (t : Tables)
    → Wp (validate_agent_join campaign user) (λ _ u. u ≡ t) (λ _ u. u ≡ t) t
unfolding validate_agent_join get_campaign is_agent_assigned
validate_agent_join-Wp campaign user t = query-then _ _ refl (
    found-Post _ _ (campaign_of campaign t) t (λ _. refl)
      (λ c _.
        guard-then _ _ _ (λ _. refl)
          (λ _. query-then _ _ refl (ok-Post _ _ (guard-last _ _ t (λ _. refl) (λ _. refl))))))

pub validate_agent_join-reads :
    (campaign user : ℕ) (db : Db) → (validate_agent_join campaign user db).1.tables ≡ db.tables
validate_agent_join-reads campaign user db =
    Wp-any (λ _ u. u ≡ db.tables) (λ _ u. u ≡ db.tables) (λ u. u ≡ db.tables)
      (validate_agent_join campaign user) db (validate_agent_join-Wp campaign user db.tables)
      (λ _ _ e. e) (λ _ _ e. e)

pub with_time-Safe :
    (parse_time : Text → Option ℕ) (o : Option Text) (text : Text) (k : Option ℕ → Handler)
    → ((t : Option ℕ) → Safe (k t))
    → Safe (with_time parse_time o text k)
unfolding with_time
with_time-Safe parse_time none text k h = h none
with_time-Safe parse_time (some raw) text k h = elim (Bool-cases (is_empty (trim_space raw))) [
  | inl e ↦ rw e (h none)
  | inr e ↦ rw e (with_part-Safe _ _ _ (λ t. h (some t)))
]

pub record_outcome-Safe : (input : RecordDispositionInput) → Safe (record_outcome input)
unfolding record_outcome
record_outcome-Safe input =
    reads-Safe _ _ _ (validate_agent_join-reads input.campaign_id input.agent_id)
      (λ _. last-Safe _ _ _ _ (record_disposition-Whole input))

module _ (parse_uuid : Text → Option ℕ) (user : User) where
  pub handle_agent_join_campaign-Safe :
      (id : Text) → Safe (handle_agent_join_campaign parse_uuid user id)
  unfolding handle_agent_join_campaign
  handle_agent_join_campaign-Safe id = with_part-Safe _ _ _ (λ campaign.
      reads-Safe _ _ _ (validate_agent_join-reads campaign user.id) (λ _. reply-Safe _))

  pub handle_agent_list_dispositions-Safe :
      (id : Text) → Safe (handle_agent_list_dispositions parse_uuid user id)
  unfolding handle_agent_list_dispositions list_dispositions
  handle_agent_list_dispositions-Safe id = with_part-Safe _ _ _ (λ campaign.
      reads-Safe _ _ _ (validate_agent_join-reads campaign user.id)
        (λ _. reads-Safe _ _ _ (tables-query _) (λ _. reply-Safe _)))

  pub handle_agent_next_lead-Safe : (raw : Text) → Safe (handle_agent_next_lead parse_uuid user raw)
  unfolding handle_agent_next_lead
  handle_agent_next_lead-Safe raw =
      unless-Safe _ _ _
        (with_part-Safe _ _ _ (λ campaign. last-Safe _ _ _ _ (claim_next-Whole campaign user.id)))

  pub handle_agent_disposition-Safe :
      (parse_time : Text → Option ℕ) (now : ℕ) (r : Option DispositionRequest)
      → Safe (handle_agent_disposition parse_uuid parse_time now user r)
  unfolding handle_agent_disposition
  handle_agent_disposition-Safe parse_time now request = with_part-Safe _ _ _ (λ r.
      with_part-Safe _ _ _ (λ campaign. with_part-Safe _ _ _ (λ lead.
        with_part-Safe _ _ _ (λ disposition. unless-Safe _ _ _ (
          with_time-Safe _ _ _ _
            (λ started. with_time-Safe _ _ _ _ (λ ended. record_outcome-Safe _)))))))
