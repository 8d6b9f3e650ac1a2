-- ===== src/Handlers/Campaigns.antt =====
-- services/api/internal/httpapi/campaigns.go: the campaigns, their agents, lists and dispositions.
use callvoice.Common.{
  not, ℕ, zero, suc, Bool, Option, none, some, List, [], ◌∷◌, map, Text, codes, eqb, is_empty,
  trim_space, to_lower, if◌then◌else◌, length, Error, Result, invalid_status_transition,
  invalid_agent, duplicate_disposition,
}
use callvoice.Models.{CampaignStatus, draft, running, paused, stopped}
use callvoice.CsvImport.{LeadRow, RowError, Parsed, parse}
use callvoice.Store.Campaigns.{
  DispositionInput, list_campaigns, get_campaign, create_campaign, update_campaign, set_agents,
}
use callvoice.Store.Leads.{ImportLeadsResult, ImportLeadRow, import_leads}
use callvoice.Store.Dispositions.{list_dispositions, create_disposition}
use callvoice.Store.Carriers.{get_carrier}
use callvoice.Handlers.{
  to_internal, Answer, Handler, success, refusal, internal_error, or_missing, not_found_answer,
  call, with_part, unless, reply, bad_request, status_ok, campaign_list, campaign_body,
  disposition_list, disposition_body, import_body,
}

pub record CreateCampaignRequest : Type 0 where
  pub name : Text
  pub carrier_id : Text

pub record PatchCampaignRequest : Type 0 where
  pub name : Option Text
  pub carrier_id : Option Text
  pub status : Option Text

-- The form of an upload: whether it can be read, its file as the records of encoding/csv, its name.
pub record Upload : Type 0 where
  pub readable : Bool
  pub file : Option (Result (List Text) × List (Result (List Text)))
  pub name : Text

unfoldable pub handle_list_campaigns : Handler
handle_list_campaigns =
    call list_campaigns to_internal (λ cs. reply (success 200 (campaign_list cs)))

unfoldable pub parse_campaign_status : Text → Option CampaignStatus
parse_campaign_status raw =
    let s = to_lower (trim_space raw) in
    if eqb s (codes "draft")
    then some draft
    else if eqb s (codes "running")
    then some running
    else if eqb s (codes "paused")
    then some paused
    else if eqb s (codes "stopped")
    then some stopped
    else none

abbrev pub carrier_missing : Error → Answer
carrier_missing = or_missing (refusal 400 (codes "carrier_not_found"))

abbrev pub update_error : Error → Answer
update_error invalid_status_transition = refusal 400 (codes "invalid_status_transition")
update_error e = or_missing not_found_answer e

abbrev pub agents_error : Error → Answer
agents_error invalid_agent = refusal 400 (codes "invalid_agent")
agents_error e = or_missing not_found_answer e

abbrev pub disposition_error : Error → Answer
disposition_error duplicate_disposition = refusal 400 (codes "duplicate_code")
disposition_error e = internal_error

-- At most the first hundred errors are shown.
unfoldable pub first_errors : ℕ → List RowError → List RowError
first_errors zero es = []
first_errors (suc n) [] = []
first_errors (suc n) (e ∷ es) = e ∷ first_errors n es

-- A field that is not given is left as it is.
unfoldable pub patch_name : Option Text → (Option Text → Handler) → Handler
patch_name none k = k none
patch_name (some name) k =
    unless (is_empty (trim_space name)) (codes "name_required") (k (some (trim_space name)))

unfoldable pub patch_status : Option Text → (Option CampaignStatus → Handler) → Handler
patch_status none k = k none
patch_status (some raw) k =
    with_part (parse_campaign_status raw) (codes "invalid_status") (λ s. k (some s))

abbrev pub import_row : LeadRow → ImportLeadRow
import_row row = record { phone = row.phone; payload = row.payload }

abbrev pub list_name : Text → Text
list_name name = if is_empty (trim_space name) then codes "Import" else trim_space name

-- The reply to an import.
abbrev pub report : Parsed → ImportLeadsResult → Handler
report p r =
    reply
      (success 201 (import_body r.list_id r.imported (length p.errors) (first_errors 100 p.errors)))

-- A file that `Parse` stops at is refused.
unfoldable pub unless_stopped : Option Error → Handler → Handler
unless_stopped (some e) k = bad_request (codes "invalid_csv")
unless_stopped none k = k

unfoldable pub import_parsed : ℕ → Text → Parsed → Handler
import_parsed campaign name p = unless_stopped p.stopped (
    call (import_leads campaign name (map import_row p.rows)) (or_missing not_found_answer)
      (report p))

module _ (parse_uuid : Text → Option ℕ) where
  unfoldable pub handle_create_campaign : Option CreateCampaignRequest → Handler
  handle_create_campaign request = with_part request (codes "invalid_json") (λ r.
      unless (is_empty (trim_space r.name)) (codes "name_required") (
        with_part (parse_uuid (trim_space r.carrier_id)) (codes "invalid_carrier_id") (λ carrier.
          call (get_carrier carrier) carrier_missing (λ _.
            call (create_campaign (record { name = trim_space r.name; carrier_id = carrier }))
              to_internal (λ c. reply (success 201 (campaign_body c)))))))

  unfoldable pub patch_carrier : Option Text → (Option ℕ → Handler) → Handler
  patch_carrier none k = k none
  patch_carrier (some raw) k =
      with_part (parse_uuid (trim_space raw)) (codes "invalid_carrier_id")
        (λ carrier. call (get_carrier carrier) carrier_missing (λ _. k (some carrier)))

  unfoldable pub handle_patch_campaign : Text → Option PatchCampaignRequest → Handler
  handle_patch_campaign id request = with_part (parse_uuid id) (codes "invalid_id") (λ id.
      with_part request (codes "invalid_json") (λ r. patch_name r.name (λ name.
        patch_carrier r.carrier_id (λ carrier. patch_status r.status (λ status.
          call (update_campaign id (record { name = name; carrier_id = carrier; status = status }))
            update_error (λ c. reply (success 200 (campaign_body c))))))))

  unfoldable pub parse_user_ids : List Text → Option (List ℕ)
  parse_user_ids [] = some []
  parse_user_ids (raw ∷ raws) =
      let rest = parse_user_ids raws in
      elim (parse_uuid (trim_space raw)) [
        | none ↦ none
        | some uid ↦ elim rest [ none ↦ none | some uids ↦ some (uid ∷ uids) ]
      ]

  unfoldable pub handle_assign_campaign_agents : Text → Option (List Text) → Handler
  handle_assign_campaign_agents id request = with_part (parse_uuid id) (codes "invalid_id") (λ id.
      with_part request (codes "invalid_json") (λ raws.
        with_part (parse_user_ids raws) (codes "invalid_user_id")
          (λ uids. call (set_agents id uids) agents_error (λ _. reply (success 200 status_ok)))))

  unfoldable pub handle_import_lead_list : (ℕ → Bool) → Text → Upload → Handler
  handle_import_lead_list is_digit id upload =
      with_part (parse_uuid id) (codes "invalid_id") (λ campaign.
        unless (not upload.readable) (codes "invalid_multipart") (
          with_part upload.file (codes "file_required") (λ (first, rest).
            import_parsed campaign (list_name upload.name) (parse is_digit first rest))))

  unfoldable pub handle_list_dispositions : Text → Handler
  handle_list_dispositions id = with_part (parse_uuid id) (codes "invalid_id") (λ campaign.
      call (get_campaign campaign) (or_missing not_found_answer) (λ _.
        call (list_dispositions campaign) to_internal
          (λ ds. reply (success 200 (disposition_list ds)))))

  unfoldable pub handle_create_disposition : Text → Option DispositionInput → Handler
  handle_create_disposition id request = with_part (parse_uuid id) (codes "invalid_id") (λ campaign.
      with_part request (codes "invalid_json") (λ r.
        unless (is_empty (trim_space r.code)) (codes "code_required") (
          unless (is_empty (trim_space r.label)) (codes "label_required") (
            call (get_campaign campaign) (or_missing not_found_answer) (λ _.
              call
                (create_disposition campaign
                  (record r { code = trim_space r.code; label = trim_space r.label }))
                disposition_error (λ d. reply (success 201 (disposition_body d))))))))
