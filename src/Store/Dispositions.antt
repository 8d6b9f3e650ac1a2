-- ===== src/Store/Dispositions.antt =====
-- services/api/internal/store/dispositions.go: the outcomes that a campaign names.
use callvoice.Common.{
  Option, none, some, ℕ, Bool, true, false, none, some, List, [], ◌∷◌, Text, to_upper, trim_space,
  ltb, ◌==◌, if◌then◌else◌, select, lookup, Error, ok, unique_violation, duplicate_disposition,
}
use callvoice.Models.{Disposition}
use callvoice.Sql.{M, rename, query, insert}
use callvoice.Store.{found}
use callvoice.Store.Campaigns.{DispositionInput, insert_disposition_row}

unfoldable pub get_disposition : ℕ → M Disposition
get_disposition id = query (λ t. found (lookup (λ d. d.id) id t.dispositions))

-- The order of texts by code points.
unfoldable pub text_leb : Text → Text → Bool
text_leb [] t = true
text_leb (a ∷ s) [] = false
text_leb (a ∷ s) (b ∷ t) = let rest = text_leb s t in if a == b then rest else ltb a b

unfoldable pub insert_by_code : Disposition → List Disposition → List Disposition
insert_by_code d [] = d ∷ []
insert_by_code d (x ∷ xs) =
    let rest = insert_by_code d xs in if text_leb d.code x.code then d ∷ x ∷ xs else x ∷ rest

-- `ORDER BY code ASC`
unfoldable pub sort_by_code : List Disposition → List Disposition
sort_by_code [] = []
sort_by_code (d ∷ ds) = insert_by_code d (sort_by_code ds)

abbrev pub is_campaign : ℕ → Option ℕ → Bool
is_campaign campaign none = false
is_campaign campaign (some c) = c == campaign

abbrev pub belongs_to : ℕ → Disposition → Bool
belongs_to campaign d = is_campaign campaign d.campaign_id

unfoldable pub list_dispositions : ℕ → M (List Disposition)
list_dispositions campaign =
    query (λ t. ok (sort_by_code (select (belongs_to campaign) t.dispositions)))

abbrev pub is_duplicate : Error → Error
is_duplicate unique_violation = duplicate_disposition
is_duplicate e = e

unfoldable pub create_disposition : ℕ → DispositionInput → M Disposition
create_disposition campaign input db = rename is_duplicate (
    insert
      (λ id _ t.
        insert_disposition_row campaign
          (record input { code = to_upper (trim_space input.code); label = trim_space input.label })
          id t)
      db)
