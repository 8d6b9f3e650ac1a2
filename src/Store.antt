-- ===== src/Store.antt =====
-- services/api/internal/store: the operations on the tables of the campaigns.
pub mod Rules
pub mod Whole
pub mod Operations
pub mod Closed
pub mod Status
pub mod Claims
pub mod Offers
pub mod Admins
pub mod Agents
pub mod Imports
pub mod Outcomes
pub mod Campaigns
pub mod Leads
pub mod Dispositions
pub mod CallLogs
pub mod Users
pub mod Carriers
use callvoice.Common.{
  ℕ, Bool, true, false, Option, none, some, Error, Result, ok, err, not_found, db_failed,
}
use callvoice.Sql.{Tables}

-- A row that is found, or `ErrNotFound`.
unfoldable pub found : {A : Type 0} → Option A → Result A
found none = err not_found
found (some a) = ok a

-- A statement on a row that is gone changes nothing, and returning no row is an error like any other.
unfoldable pub present :
    {A B : Type 0} → Option A → Tables → (A → Result B × Tables) → Result B × Tables
present none t k = (err db_failed, t)
present (some a) t k = k a

-- A constraint of a table: a statement that breaks it changes nothing.
unfoldable pub require :
    {A : Type 0} → Bool → Error → Tables → Result A × Tables → Result A × Tables
require true e t r = r
require false e t r = (err e, t)

-- The column of an update: the new value, if one is given.
abbrev pub given : {A : Type 0} → Option A → A → A
given none old = old
given (some a) old = a
