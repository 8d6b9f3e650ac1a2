-- ===== src/Models.antt =====
-- internal/models/models.go: the rows of the database. A time is in Unix seconds, and `[]byte` is a
-- text; an identifier is its number.
use callvoice.Common.Int.{ℤ}
use callvoice.Common.{ℕ, Bool, true, false, Option, none, some, List, Text}

pub data Role : Type 0 where
  admin supervisor agent : Role

abbrev pub is_role : Role → Role → Bool
is_role admin admin = true
is_role supervisor supervisor = true
is_role agent agent = true
is_role _ _ = false

pub record User : Type 0 where
  pub id : ℕ
  pub email : Text
  pub password_hash : Text
  pub role : Role
  pub display_name : Option Text
  -- Empty for NULL.
  pub totp_secret : Text
  pub totp_enabled : Bool
  pub failed_login_count : ℕ
  pub locked_until : Option ℕ
  pub disabled_at : Option ℕ
  pub created_at : ℕ

unfoldable pub is_disabled : User → Bool
is_disabled a = elim a.disabled_at [ none ↦ false | some _ ↦ true ]

unfoldable pub is_admin : User → Bool
is_admin a = is_role a.role admin

pub record Session : Type 0 where
  pub user_id : ℕ
  pub token_hash : Text
  pub expires_at : ℕ

pub record Carrier : Type 0 where
  pub id : ℕ
  pub name : Text
  pub host : Text
  pub port : ℤ
  pub transport : Text
  pub username : Option Text
  -- Empty for NULL.
  pub password : Text
  pub realm : Option Text
  pub codecs : List Text
  pub caller_ids : List Text
  pub max_cps : ℤ
  pub max_channels : ℤ
  pub enabled : Bool
  pub priority : ℤ
  pub created_at : ℕ

pub data CampaignStatus : Type 0 where
  draft running paused stopped : CampaignStatus

abbrev pub is_status : CampaignStatus → CampaignStatus → Bool
is_status draft draft = true
is_status running running = true
is_status paused paused = true
is_status stopped stopped = true
is_status _ _ = false

pub record Campaign : Type 0 where
  pub id : ℕ
  pub name : Text
  pub carrier_id : ℕ
  pub status : CampaignStatus
  pub created_at : ℕ
  pub updated_at : ℕ

pub record CampaignAgent : Type 0 where
  pub campaign_id : ℕ
  pub user_id : ℕ

pub record LeadList : Type 0 where
  pub id : ℕ
  pub campaign_id : ℕ
  pub name : Text
  pub row_count : ℕ

pub data LeadStatus : Type 0 where
  new_lead in_progress no_answer busy_lead callback disposed answered_lead : LeadStatus

pub record Lead : Type 0 where
  pub id : ℕ
  pub list_id : ℕ
  pub phone : Text
  pub payload : List (Text × Text)
  pub status : LeadStatus
  pub disposition_id : Option ℕ
  pub assigned_agent_id : Option ℕ

pub record Disposition : Type 0 where
  pub id : ℕ
  pub code : Text
  pub label : Text
  pub campaign_id : Option ℕ
  pub is_contact : Bool
  pub is_success : Bool

pub record CallLog : Type 0 where
  pub id : ℕ
  pub campaign_id : ℕ
  pub lead_id : Option ℕ
  pub agent_id : ℕ
  pub started_at : ℕ
  pub ended_at : Option ℕ
  pub duration_sec : Option ℤ
  pub disposition_id : Option ℕ
  pub to_number : Text
