-- ===== src/Handlers.antt =====
-- services/api/internal/httpapi: what the handlers over the stores share. A handler is a function
-- from a connection to its answer and the connection after it. JSON bodies arrive decoded, `none`
-- for one that cannot be read; `uuid.Parse` is a parameter of the handlers.
pub mod Campaigns
pub mod Agents
pub mod Users
pub mod Carriers
pub mod Routes
pub mod Safe
pub mod Kept
pub mod KeptAgents
pub mod KeptCarriers
pub mod Refusals
pub mod Imports
use callvoice.Common.{
  if◌then◌else◌, ℕ, Bool, true, false, Option, none, some, List, [], ◌∷◌, Text, codes, Error,
  Result, ok, err, not_found,
}
use callvoice.Models.{
  Carrier, User, Role, admin, supervisor, agent, Campaign, Lead, CallLog, Disposition, Lead,
  CallLog,
}
use callvoice.CsvImport.{RowError}
use callvoice.Sql.{Db, M}

-- The body of a success, by what it shows.
pub data Body : Type 0 where
  status_ok : Body
  no_content : Body
  campaign_list : List Campaign → Body
  campaign_body : Campaign → Body
  disposition_list : List Disposition → Body
  disposition_body : Disposition → Body
  -- The list, the imported, the rejected and the first errors.
  import_body : ℕ → ℕ → ℕ → List RowError → Body
  lead_body : Lead → Body
  call_log_body : CallLog → Body
  carrier_list : List Carrier → Body
  carrier_changed : Carrier → Body
  carrier_deleted : ℕ → Body
  user_list : List User → Body
  user_body : User → Body

pub data Answer : Type 0 where
  success : ℕ → Body → Answer
  refusal : ℕ → Text → Answer

abbrev pub Handler : Type 0
Handler = Db → Answer × Db

abbrev pub reply : Answer → Handler
reply a db = (a, db)

abbrev pub bad_request : Text → Handler
bad_request text = reply (refusal 400 text)

abbrev pub internal_error : Answer
internal_error = refusal 500 (codes "internal_error")

-- The answer to an error that is a missing row, and to any other one.
abbrev pub or_missing : Answer → Error → Answer
or_missing a not_found = a
or_missing a _ = internal_error

abbrev pub not_found_answer : Answer
not_found_answer = refusal 404 (codes "not_found")

-- A call of a store, and what follows it.
unfoldable pub then_call :
    {A : Type 0} → (Error → Answer) → (A → Handler) → Result A × Db → Answer × Db
then_call f k (ok a, db) = k a db
then_call f k (err e, db) = (f e, db)

unfoldable pub call : {A : Type 0} → M A → (Error → Answer) → (A → Handler) → Handler
call m f k db = then_call f k (m db)

-- A part of the request that must be there.
unfoldable pub with_part : {A : Type 0} → Option A → Text → (A → Handler) → Handler
with_part none text k = bad_request text
with_part (some a) text k = k a

unfoldable pub unless : Bool → Text → Handler → Handler
unless true text k = bad_request text
unless false text k = k

abbrev pub to_internal : Error → Answer
to_internal e = internal_error

-- Who may use a route.
pub data Gate : Type 0 where
  admins supervisors agents : Gate

-- The routes of the supervisors are open to the administrator too.
unfoldable pub is_allowed : Gate → Role → Bool
is_allowed admins admin = true
is_allowed supervisors admin = true
is_allowed supervisors supervisor = true
is_allowed agents agent = true
is_allowed _ _ = false

-- `RequireAdmin`, `RequireSupervisor` and `RequireAgent`, for the user of the context.
unfoldable pub require_role : Gate → Option User → (User → Handler) → Handler
require_role gate none next = reply (refusal 401 (codes "unauthorized"))
require_role gate (some u) next =
    if is_allowed gate u.role then next u else reply (refusal 403 (codes "forbidden"))
