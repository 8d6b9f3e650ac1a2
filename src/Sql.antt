-- ===== src/Sql.antt =====
-- What the stores of services/api/internal/store ask of Postgres through database/sql: statements on
-- tables, of which any may fail with no effect, and transactions.
pub mod Laws
pub mod Wp
use callvoice.Models.{User, Carrier, Campaign, CampaignAgent, LeadList, Lead, Disposition, CallLog}
use callvoice.Common.{ℕ, suc, Bool, true, false, List, [], ◌∷◌, Error, Result, ok, err, db_failed}

-- The tables of services/api/migrations, each with its rows in the order of their insertion, which
-- is that of `created_at`.
pub record Tables : Type 0 where
  pub users : List User
  pub carriers : List Carrier
  pub campaigns : List Campaign
  pub campaign_agents : List CampaignAgent
  pub lead_lists : List LeadList
  pub leads : List Lead
  pub dispositions : List Disposition
  pub call_logs : List CallLog

-- A connection: the tables, which of the coming statements fail (past the end none does), the
-- identifiers that `gen_random_uuid` gives and how many are drawn, and `now()`.
pub record Db : Type 0 where
  pub tables : Tables
  pub failures : List Bool
  pub fresh : ℕ → ℕ
  pub drawn : ℕ
  pub now : ℕ

abbrev pub M : Type 0 → Type 0
M A = Db → Result A × Db

unfoldable pub pure : {A : Type 0} → A → M A
pure a db = (ok a, db)

unfoldable pub fail : {A : Type 0} → Error → M A
fail e db = (err e, db)

abbrev pub continue : {A B : Type 0} → (A → M B) → Result A × Db → Result B × Db
continue f (ok a, db) = f a db
continue f (err e, db) = (err e, db)

infixl 5 ◌>>=◌ ◌>>◌
unfoldable pub ◌>>=◌ : {A B : Type 0} → M A → (A → M B) → M B
◌>>=◌ m f db = continue f (m db)

unfoldable pub ◌>>◌ : {B : Type 0} → M (Unit {0}) → M B → M B
(m >> k) db = continue (λ _. k) (m db)

unfoldable pub guard : Bool → Error → M (Unit {0})
guard true e = pure tt
guard false e = fail e

-- The error of a statement, as the caller reads it.
unfoldable pub rename : {A : Type 0} → (Error → Error) → Result A × Db → Result A × Db
rename f (ok a, db) = (ok a, db)
rename f (err e, db) = (err (f e), db)

unfoldable pub run : {A : Type 0} → List Bool → Result A × Tables → M A
run [] (r, t) db = (r, record db { tables = t })
run (false ∷ fs) (r, t) db = (r, record db { tables = t; failures = fs })
run (true ∷ fs) (r, t) db = (err db_failed, record db { failures = fs })

-- A statement, by its result and the tables after it at a time.
unfoldable pub statement : {A : Type 0} → (ℕ → Tables → Result A × Tables) → M A
unfolding run
statement f db = run db.failures (f db.now db.tables) db

-- A query: no table changes.
unfoldable pub query : {A : Type 0} → (Tables → Result A) → M A
unfolding run
query f db = run db.failures (f db.tables, db.tables) db

-- An insertion, with a new identifier and the time.
unfoldable pub insert : {A : Type 0} → (ℕ → ℕ → Tables → Result A × Tables) → M A
unfolding run
insert f db =
    run db.failures (f (db.fresh db.drawn) db.now db.tables) (record db { drawn = suc db.drawn })

-- `defer tx.Rollback()`: unless the transaction is committed, the tables are as before it.
abbrev pub settle : {A : Type 0} → Tables → Result A × Db → Result A × Db
settle t (ok a, db) = (ok a, db)
settle t (err e, db) = (err e, record db { tables = t })

-- BEGIN and COMMIT.
abbrev pub control : M (Unit {0})
control = query (λ _. ok tt)

unfoldable pub atomically : {A : Type 0} → M A → M A
unfolding ◌>>=◌ pure
atomically body db = settle db.tables ((control >>= λ _. body >>= λ a. control >>= λ _. pure a) db)
