-- ===== src/Handlers/Agents.antt =====
-- services/api/internal/httpapi/agent_ops.go: what an agent does with campaigns and leads.
use callvoice.Common.Int.{ℤ}
use callvoice.Common.{
  if◌then◌else◌, ℕ, Option, none, some, Text, codes, is_empty, trim_space, Error, forbidden,
  invalid_campaign_state, no_leads_available,
}
use callvoice.Models.{User}
use callvoice.Store.Campaigns.{list_running_for_agent, validate_agent_join}
use callvoice.Store.Leads.{claim_next}
use callvoice.Store.Dispositions.{list_dispositions}
use callvoice.Store.CallLogs.{RecordDispositionInput, record_disposition}
use callvoice.Handlers.{
  Answer, Handler, success, refusal, or_missing, not_found_answer, to_internal, call, with_part,
  unless, reply, no_content, campaign_list, disposition_list, lead_body, call_log_body,
}

-- Times arrive as RFC 3339 texts; the call's identifier is not used.
pub record DispositionRequest : Type 0 where
  pub campaign_id : Text
  pub lead_id : Text
  pub disposition_id : Text
  pub to_number : Text
  pub started_at : Option Text
  pub ended_at : Option Text
  pub duration_sec : Option ℤ

unfoldable pub handle_agent_list_campaigns : User → Handler
handle_agent_list_campaigns user =
    call (list_running_for_agent user.id) to_internal (λ cs. reply (success 200 (campaign_list cs)))

-- What `ValidateAgentJoin` and `ClaimNext` refuse.
abbrev pub join_error : Error → Answer
join_error forbidden = refusal 403 (codes "forbidden")
join_error invalid_campaign_state = refusal 400 (codes "campaign_not_running")
join_error e = or_missing not_found_answer e

-- No lead is no error.
abbrev pub claim_error : Error → Answer
claim_error no_leads_available = success 204 no_content
claim_error e = join_error e

module _ (parse_uuid : Text → Option ℕ) where
  unfoldable pub handle_agent_join_campaign : User → Text → Handler
  handle_agent_join_campaign user id = with_part (parse_uuid id) (codes "invalid_id") (λ campaign.
      call (validate_agent_join campaign user.id) join_error (λ _. reply (success 204 no_content)))

  unfoldable pub handle_agent_list_dispositions : User → Text → Handler
  handle_agent_list_dispositions user id =
      with_part (parse_uuid id) (codes "invalid_id") (λ campaign.
        call (validate_agent_join campaign user.id) join_error (λ _.
          call (list_dispositions campaign) to_internal
            (λ ds. reply (success 200 (disposition_list ds)))))

  -- With the query parameter `campaign_id`, empty for none.
  unfoldable pub handle_agent_next_lead : User → Text → Handler
  handle_agent_next_lead user raw =
      unless (is_empty (trim_space raw)) (codes "campaign_id_required") (
        with_part (parse_uuid (trim_space raw)) (codes "invalid_campaign_id") (λ campaign.
          call (claim_next campaign user.id) claim_error (λ l. reply (success 200 (lead_body l)))))

-- A time that is given and not blank must be readable.
unfoldable pub with_time : (Text → Option ℕ) → Option Text → Text → (Option ℕ → Handler) → Handler
with_time parse_time none text k = k none
with_time parse_time (some raw) text k =
    let read = with_part (parse_time (trim_space raw)) text (λ t. k (some t)) in
    if is_empty (trim_space raw) then k none else read

abbrev pub or_now : ℕ → Option ℕ → ℕ
or_now now none = now
or_now now (some t) = t

-- What is done with a request that is read.
unfoldable pub record_outcome : RecordDispositionInput → Handler
record_outcome input = call (validate_agent_join input.campaign_id input.agent_id) join_error (λ _.
    call (record_disposition input) (or_missing not_found_answer)
      (λ c. reply (success 201 (call_log_body c))))

module _ (parse_uuid : Text → Option ℕ) (parse_time : Text → Option ℕ) where
  unfoldable pub handle_agent_disposition : ℕ → User → Option DispositionRequest → Handler
  handle_agent_disposition now user request = with_part request (codes "invalid_json") (λ r.
      with_part (parse_uuid (trim_space r.campaign_id)) (codes "invalid_campaign_id") (λ campaign.
        with_part (parse_uuid (trim_space r.lead_id)) (codes "invalid_lead_id") (λ lead.
          with_part (parse_uuid (trim_space r.disposition_id)) (codes "invalid_disposition_id")
            (λ disposition.
              unless (is_empty (trim_space r.to_number)) (codes "to_number_required") (
                with_time parse_time r.started_at (codes "invalid_started_at") (λ started.
                  with_time parse_time r.ended_at (codes "invalid_ended_at") (λ ended.
                    record_outcome (record {
                      campaign_id = campaign;
                      lead_id = lead;
                      agent_id = user.id;
                      disposition_id = disposition;
                      to_number = trim_space r.to_number;
                      started_at = or_now now started;
                      ended_at = ended;
                      duration_sec = r.duration_sec;
                    }))))))))
