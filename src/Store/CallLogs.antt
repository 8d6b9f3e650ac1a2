-- ===== src/Store/CallLogs.antt =====
-- services/api/internal/store/calllogs.go: the outcome of a call, kept with the lead and in the log.
use callvoice.Common.Int.{ℤ}
use callvoice.Common.{
  ℕ, Bool, false, not, ◌&&◌, Option, none, some, [], ◌∷◌, ◌++◌, Text, codes, eqb, ◌==◌,
  if◌then◌else◌, lookup, has, amend, Result, ok, err, not_found, unique_violation,
  constraint_violation,
}
use callvoice.Models.{
  Lead, LeadStatus, no_answer, busy_lead, callback, disposed, answered_lead, Disposition, CallLog,
}
use callvoice.Sql.{Tables, M, guard, ◌>>=◌, ◌>>◌, statement, query, insert, atomically}
use callvoice.Store.{require}
use callvoice.Store.Leads.{in_campaign}
use callvoice.Store.Dispositions.{get_disposition, belongs_to}

pub record RecordDispositionInput : Type 0 where
  pub campaign_id : ℕ
  pub lead_id : ℕ
  pub agent_id : ℕ
  pub disposition_id : ℕ
  pub to_number : Text
  pub started_at : ℕ
  pub ended_at : Option ℕ
  pub duration_sec : Option ℤ

unfoldable pub lead_status_from_disposition : Disposition → LeadStatus
lead_status_from_disposition d =
    if eqb d.code (codes "NO_ANSWER")
    then no_answer
    else if eqb d.code (codes "BUSY")
    then busy_lead
    else if eqb d.code (codes "CALLBACK")
    then callback
    else if eqb d.code (codes "SUCCESS")
    then answered_lead
    else if eqb d.code (codes "DNC")
    then disposed
    else if d.is_success
    then answered_lead
    else disposed

-- The agent that has the lead, if the lead is on a list of the campaign. The source reads the
-- status of the lead with it and does not look at it.
abbrev pub holder : ℕ → Tables → Option Lead → Result (Option ℕ)
holder campaign t none = err not_found
holder campaign t (some l) =
    if in_campaign campaign t l then ok l.assigned_agent_id else err not_found

abbrev pub is_held_by : ℕ → Option ℕ → Bool
is_held_by agent none = false
is_held_by agent (some a) = a == agent

abbrev pub dispose_lead : LeadStatus → ℕ → Lead → Lead
dispose_lead status disposition l = record l { status = status; disposition_id = some disposition }

abbrev pub new_call_log : RecordDispositionInput → ℕ → CallLog
new_call_log input id = record {
  id = id;
  campaign_id = input.campaign_id;
  lead_id = some input.lead_id;
  agent_id = input.agent_id;
  started_at = input.started_at;
  ended_at = input.ended_at;
  duration_sec = input.duration_sec;
  disposition_id = some input.disposition_id;
  to_number = input.to_number;
}

abbrev pub insert_call_log_row : RecordDispositionInput → ℕ → Tables → Result CallLog × Tables
insert_call_log_row input id t = require (not (has (λ c. c.id) id t.call_logs)) unique_violation t (
    require
      (has (λ c. c.id) input.campaign_id t.campaigns
        && has (λ l. l.id) input.lead_id t.leads
        && has (λ u. u.id) input.agent_id t.users
        && has (λ d. d.id) input.disposition_id t.dispositions)
      constraint_violation t
      (
        ok (new_call_log input id),
        record t { call_logs = t.call_logs ++ new_call_log input id ∷ [] },
      ))

abbrev pub update_lead_row : ℕ → LeadStatus → ℕ → Tables → Result (Unit {0}) × Tables
update_lead_row lead status disposition t =
    require (has (λ d. d.id) disposition t.dispositions) constraint_violation t
      (ok tt, record t { leads = amend (λ l. l.id) lead (dispose_lead status disposition) t.leads })

unfoldable pub record_disposition : RecordDispositionInput → M CallLog
record_disposition input = do
  d ← get_disposition input.disposition_id
  guard (belongs_to input.campaign_id d) not_found
  atomically do
    agent ← query (λ t. holder input.campaign_id t (lookup (λ l. l.id) input.lead_id t.leads))
    guard (is_held_by input.agent_id agent) not_found
    statement
        (λ _. update_lead_row input.lead_id (lead_status_from_disposition d) input.disposition_id)
    insert (λ id _. insert_call_log_row input id)
