-- ===== src/Store/Imports.antt =====
-- services/api/internal/store/leads.go: what an import leaves in the tables.
use callvoice.Common.{
  ℕ, ◌+◌, ◌≡◌, true, false, some, List, [], ◌∷◌, ◌++◌, Text, length, has, lookup,
}
use callvoice.Models.{Lead}
use callvoice.Sql.{Tables}
use callvoice.Sql.Wp.{Wp}
use callvoice.Store.Leads.{ImportLeadRow, ImportLeadsResult, fresh_lead}

-- New leads of a list, one for each row and in the order of the rows.
abbrev pub Loaded : ℕ → List ImportLeadRow → List Lead → Type 0
Loaded list [] [] = Unit
Loaded list (row ∷ rows) (l ∷ ls) = (l ≡ fresh_lead list row l.id) × Loaded list rows ls
Loaded list _ _ = true ≡ false

-- What the loop over the rows leaves.
abbrev pub Inserted : ℕ → List ImportLeadRow → ℕ → Tables → ℕ → Tables → Type 0
Inserted list rows n t m u =
    (m ≡ n + length rows)
    × (u.lead_lists ≡ t.lead_lists)
    × (new : List Lead) × (u.leads ≡ t.leads ++ new)
    × Loaded list rows new

-- What an import leaves: the leads of its rows behind the others, and their list, which is new,
-- with their number.
abbrev pub Imported : ℕ → Text → List ImportLeadRow → Tables → ImportLeadsResult → Tables → Type 0
Imported campaign name rows t r u =
    (r.imported ≡ length rows)
    × (has (λ l. l.id) r.list_id t.lead_lists ≡ false)
    × (lookup (λ l. l.id) r.list_id u.lead_lists
        ≡ some (record {
          id = r.list_id;
          campaign_id = campaign;
          name = name;
          row_count = length rows;
        }))
    × (new : List Lead) × (u.leads ≡ t.leads ++ new)
    × Loaded r.list_id rows new
