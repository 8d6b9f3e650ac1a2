-- ===== src/Handlers/Imports.antt =====
-- handleImportLeadList: the upload of a list, from the records of the file to the tables.
use callvoice.Handlers.Routes.{Packages}
use callvoice.Common.{ℕ, ◌≡◌, Bool, true, false, none, some, List, map, Text, Result, length}
use callvoice.CsvImport.{Parsed, RowError, parse}
use callvoice.Sql.{Tables, Db}
use callvoice.Store.Imports.{Imported}
use callvoice.Handlers.{Answer, success, refusal, import_body}
use callvoice.Handlers.Campaigns.{Upload, import_row, list_name, first_errors}

abbrev refused : Answer → Bool
refused (success n b) = false
refused (refusal n text) = true

-- An answer that reports an import, and what it has left.
abbrev Reports : ℕ → ℕ → ℕ → ℕ → List RowError → Answer × Db → Type 0
Reports n list imported rejected shown r =
    r.0 ≡ success n (import_body list imported rejected shown)

module _ (n list imported rejected : ℕ) (shown : List RowError) where
  -- What a report says of the file and of the tables before and after it.
  abbrev pub Loaded : ℕ → Text → Parsed → Tables → Tables → Type 0
  Loaded campaign name p t u =
      (p.stopped ≡ none)
      × (rejected ≡ length p.errors)
      × (shown ≡ first_errors 100 p.errors)
      × Imported campaign name (map import_row p.rows) t
          (record { list_id = list; imported = imported }) u

  -- The upload that is reported.
  abbrev pub Uploaded : Packages → Text → Upload → Tables → Tables → Type 0
  Uploaded p id upload t u =
      (campaign : ℕ) × (first : Result (List Text)) × (rest : List (Result (List Text)))
      × (p.parse_uuid id ≡ some campaign)
      × (upload.file ≡ some (first, rest))
      × Loaded campaign (list_name upload.name) (parse p.is_digit first rest) t u
