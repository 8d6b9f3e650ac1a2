-- ===== src/Tests/Store.antt =====
-- A call centre with a running campaign, and the theorems of the stores on it.
use callvoice.Store.Offers.{Offered, claim_next-offers}
use callvoice.Common.Int.{pos}
use callvoice.Handlers.Campaigns.{Upload}
use callvoice.CsvImport.{RowError}
use callvoice.Handlers.Refusals.{serve-refusal}
use callvoice.Handlers.{refusal}
use callvoice.Handlers.Routes.{Packages, Request, campaign_patched, serve, handle}
use callvoice.Store.Outcomes.{record_disposition-Recorded, Recorded}
use callvoice.Store.Agents.{set_agents-Assigned, Assigned}
use callvoice.Store.CallLogs.{RecordDispositionInput, record_disposition, new_call_log}
use callvoice.Common.{
  no_leads_available, ◌⊎◌, leb, ◌&&◌, ℕ, suc, ◌+◌, ◌≤◌, ◌≡◌, ◌≢◌, refl, Bool, true, false, Option,
  none, some, List, [], ◌∷◌, Text, codes, arith, Error, Result, ok, err, db_failed,
}
use callvoice.Models.{
  Role, admin, agent, User, Carrier, CampaignStatus, draft, running, paused, stopped, Campaign,
  CampaignAgent, LeadList, Lead, LeadStatus, new_lead, in_progress, Disposition,
}
use callvoice.Sql.{insert, Tables, Db, run, query, statement, pure, fail, guard, ◌>>=◌, ◌>>◌}
use callvoice.Store.{found, present, require}
use callvoice.Store.Campaigns.{
  is_assigned, set_agents, get_campaign, write_campaign, update_campaign, valid_status_transition,
  is_agent_assigned,
}
use callvoice.Store.Leads.{ImportLeadRow, claim_next, in_campaign, is_candidate, next_lead}
use callvoice.Store.Users.{UpdateUserInput, admins}
use callvoice.Store.Operations.{
  Operation, campaign_updated, user_updated, carrier_deleted, perform, finished, history,
  perform-err,
}
use callvoice.Store.Status.{
  status_of, status_input, pause_over_stop, history-status, pause_over_stop-paused,
}
use callvoice.Store.Admins.{Distinct, history-admins}
use callvoice.Store.Claims.{claim_next-once}

abbrev user : ℕ → Text → Role → User
user id email role = record {
  id = id;
  email = email;
  password_hash = codes "hash";
  role = role;
  display_name = none;
  totp_secret = [];
  totp_enabled = false;
  failed_login_count = 0;
  locked_until = none;
  disabled_at = none;
  created_at = 1;
}

abbrev trunk : Carrier
trunk = record {
  id = 7;
  name = codes "trunk";
  host = codes "sip.example";
  port = pos 5060;
  transport = codes "udp";
  username = none;
  password = [];
  realm = none;
  codecs = codes "PCMU" ∷ [];
  caller_ids = [];
  max_cps = pos 30;
  max_channels = pos 100;
  enabled = true;
  priority = pos 100;
  created_at = 1;
}

abbrev campaign : ℕ → CampaignStatus → Campaign
campaign id status = record {
  id = id;
  name = codes "spring";
  carrier_id = 7;
  status = status;
  created_at = 2;
  updated_at = 2;
}

abbrev lead : ℕ → LeadStatus → Option ℕ → Lead
lead id status holder = record {
  id = id;
  list_id = 20;
  phone = codes "+33612345678";
  payload = [];
  status = status;
  disposition_id = none;
  assigned_agent_id = holder;
}

abbrev centre : Tables
centre = record {
  users = user 1 (codes "a@x") admin ∷ user 2 (codes "b@x") agent ∷ [];
  carriers = trunk ∷ [];
  campaigns = campaign 10 running ∷ campaign 11 stopped ∷ [];
  campaign_agents = record { campaign_id = 10; user_id = 2 } ∷ [];
  lead_lists = record { id = 20; campaign_id = 10; name = codes "list"; row_count = 2 } ∷ [];
  leads = lead 31 new_lead none ∷ lead 30 new_lead none ∷ [];
  dispositions =
      record {
        id = 40;
        code = codes "BUSY";
        label = codes "busy";
        campaign_id = some 10;
        is_contact = false;
        is_success = false;
      }
      ∷ [];
  call_logs = [];
}

abbrev base : List Bool → Db
base failures = record {
  tables = centre;
  failures = failures;
  fresh = λ n. 100 + n;
  drawn = 0;
  now = 5;
}

write_fails :
    (perform (campaign_updated 10 (status_input stopped)) (base (false ∷ true ∷ []))).0
    ≡ err db_failed
unfolding perform finished update_campaign get_campaign write_campaign query statement run ◌>>=◌
    ◌>>◌ guard pure fail found present valid_status_transition callvoice.Common.lookup
write_fails = refl

perform-err_example :
    (perform (campaign_updated 10 (status_input stopped)) (base (false ∷ true ∷ []))).1.tables
    ≡ centre
perform-err_example =
    perform-err (campaign_updated 10 (status_input stopped)) (base (false ∷ true ∷ [])) write_fails

is_stopped : status_of 11 centre ≡ some stopped
unfolding status_of callvoice.Common.lookup
is_stopped = refl

abbrev attempts : List Operation
attempts =
    campaign_updated 11 (status_input running) ∷ campaign_updated 11 (status_input draft) ∷ []

history-status_example :
    (s : CampaignStatus) × (status_of 11 (history attempts (base (false ∷ true ∷ []))).tables
      ≡ some s)
    × (stopped ≡ stopped → s ≡ stopped)
    × (s ≡ draft → stopped ≡ draft)
history-status_example = history-status attempts (base (false ∷ true ∷ [])) 11 stopped is_stopped

has_trunk : callvoice.Common.has (λ c. c.id) 7 centre.carriers ≡ true
unfolding callvoice.Common.has callvoice.Common.exists
has_trunk = refl

running_there : callvoice.Common.lookup (λ c. c.id) 10 centre.campaigns ≡ some (campaign 10 running)
unfolding callvoice.Common.lookup
running_there = refl

pause_over_stop-paused_example : status_of 10 (pause_over_stop 10 (base [])).1.tables ≡ some paused
pause_over_stop-paused_example =
    pause_over_stop-paused 10 (campaign 10 running) (base []) refl running_there refl has_trunk

abbrev promotion : UpdateUserInput
promotion = record { display_name = none; role = some admin; disabled = none; disabled_at = none }

Distinct-users : Distinct centre.users
unfolding Distinct callvoice.Common.has callvoice.Common.exists
Distinct-users = (refl, (refl, tt))

one_admin : admins centre.users ≤ 1
unfolding admins callvoice.Models.is_admin
one_admin = omega arith

history-admins_example :
    Distinct (history (user_updated 2 promotion ∷ []) (base [])).tables.users
    × (admins (history (user_updated 2 promotion ∷ []) (base [])).tables.users ≤ 1)
history-admins_example =
    history-admins (user_updated 2 promotion ∷ []) (base []) Distinct-users one_admin

abbrev held : ℕ → Lead
held id = lead id in_progress (some 2)

first_claim : (claim_next 10 2 (base [])).0 ≡ ok (held 30)
unfolding claim_next get_campaign is_agent_assigned query statement run ◌>>=◌ ◌>>◌ guard pure fail
    found require is_candidate in_campaign next_lead callvoice.Common.lookup callvoice.Common.exists
    callvoice.Common.has
first_claim = refl

second_claim :
    (claim_next 10 2 (history (carrier_deleted 7 ∷ []) (claim_next 10 2 (base [])).1)).0
    ≡ ok (held 31)
unfolding history perform callvoice.Store.Carriers.delete_carrier claim_next get_campaign
    is_agent_assigned query statement run ◌>>=◌ ◌>>◌ guard pure fail found require is_candidate
    in_campaign next_lead callvoice.Common.lookup callvoice.Common.exists callvoice.Common.has
    callvoice.Common.amend
second_claim = refl

claim_next-once_example : (held 31).id ≢ (held 30).id
claim_next-once_example =
    claim_next-once 10 2 10 2 (carrier_deleted 7 ∷ []) (base []) (held 30) (held 31) first_claim
      second_claim

agents_set : (set_agents 11 (2 ∷ []) (base [])).0 ≡ ok tt
unfolding callvoice.Store.Campaigns.set_agents get_campaign callvoice.Store.Campaigns.check_agents
    callvoice.Store.Campaigns.insert_agents callvoice.Store.Campaigns.role_of
    callvoice.Sql.atomically query statement run ◌>>=◌ ◌>>◌ guard pure fail found require
    callvoice.Common.lookup callvoice.Common.exists callvoice.Common.has callvoice.Common.select
agents_set = refl

set_agents-Assigned_example :
    Assigned 11 (2 ∷ []) centre (set_agents 11 (2 ∷ []) (base [])).1.tables
set_agents-Assigned_example = set_agents-Assigned 11 (2 ∷ []) (base []) agents_set

abbrev rows : List ImportLeadRow
rows = record { phone = codes "+33600000001"; payload = [] } ∷ []

abbrev outcome : RecordDispositionInput
outcome = record {
  campaign_id = 10;
  lead_id = 30;
  agent_id = 2;
  disposition_id = 40;
  to_number = codes "+33612345678";
  started_at = 3;
  ended_at = some 4;
  duration_sec = some (pos 1);
}

recorded :
    (record_disposition outcome (claim_next 10 2 (base [])).1).0 ≡ ok (new_call_log outcome 100)
unfolding callvoice.Store.CallLogs.record_disposition callvoice.Store.Dispositions.get_disposition
    callvoice.Store.CallLogs.lead_status_from_disposition callvoice.Sql.atomically insert claim_next
    get_campaign is_agent_assigned query statement run ◌>>=◌ ◌>>◌ guard pure fail found require
    is_candidate in_campaign next_lead callvoice.Common.lookup callvoice.Common.exists
    callvoice.Common.has callvoice.Common.amend callvoice.Common.eqb
recorded = refl

record_disposition-Recorded_example :
    Recorded outcome
      (claim_next 10 2 (base [])).1.tables
      (new_call_log outcome 100)
      (record_disposition outcome (claim_next 10 2 (base [])).1).1.tables
record_disposition-Recorded_example =
    record_disposition-Recorded outcome (claim_next 10 2 (base [])).1 (new_call_log outcome 100)
      recorded

abbrev packages : Packages
packages = record {
  parse_uuid = λ _. some 10;
  parse_time = λ t. some 4;
  hash_password = λ p. some p;
  encrypt = λ p. some p;
  is_digit = λ c. true;
  now = 5;
}

abbrev stop_it : Request
stop_it =
    campaign_patched (codes "10")
      (some (record { name = none; carrier_id = none; status = some (codes "stopped") }))

refused :
    (serve packages (some (user 1 (codes "a@x") admin)) stop_it (base (false ∷ true ∷ []))).0
    ≡ refusal 500 (codes "internal_error")
unfolding serve handle callvoice.Handlers.Routes.gate_of callvoice.Handlers.is_allowed
    callvoice.Handlers.require_role callvoice.Handlers.with_part callvoice.Handlers.call
    callvoice.Handlers.then_call callvoice.Handlers.Campaigns.handle_patch_campaign
    callvoice.Handlers.Campaigns.patch_name callvoice.Handlers.Campaigns.patch_carrier
    callvoice.Handlers.Campaigns.patch_status callvoice.Handlers.Campaigns.parse_campaign_status
    callvoice.Common.eqb callvoice.Common.to_lower callvoice.Common.trim_space update_campaign
    get_campaign write_campaign query statement run ◌>>=◌ ◌>>◌ guard pure fail found present
    valid_status_transition callvoice.Common.lookup
refused = refl

serve-refusal_example :
    (serve packages (some (user 1 (codes "a@x") admin)) stop_it (base (false ∷ true ∷ []))).1.tables
    ≡ centre
serve-refusal_example =
    serve-refusal packages (some (user 1 (codes "a@x") admin)) stop_it (base (false ∷ true ∷ []))
      500 (codes "internal_error") refused

abbrev decimal_digit : ℕ → Bool
decimal_digit c = leb 48 c && leb c 57

abbrev desk : Packages
desk = record packages { is_digit = decimal_digit }

abbrev upload : Upload
upload = record {
  readable = true;
  file = some (ok (codes "phone" ∷ []), ok (codes "+33612345678" ∷ []) ∷ ok (codes "12" ∷ []) ∷ []);
  name = codes "may";
}

abbrev row_errors : List RowError
row_errors = record { line = 3; reason = codes "invalid_phone" } ∷ []

user_there : callvoice.Common.has (λ u. u.id) 2 centre.users ≡ true
unfolding callvoice.Common.has callvoice.Common.exists
user_there = refl

claim_next-offers_example : Offered 10 2 centre (claim_next 10 2 (base [])).0
claim_next-offers_example = claim_next-offers 10 2 (base []) refl user_there
