-- ===== src/CsvImport.antt =====
-- services/api/internal/csvimport/parse.go: the leads of an uploaded file. The records that
-- encoding/csv reads, one result each, are an argument; the end of the list is the end of the file.
-- `unicode.IsDigit` is a parameter.
pub mod Laws
use callvoice.Common.{
  ℕ, zero, suc, ◌+◌, Bool, true, false, not, ◌&&◌, ◌||◌, Option, none, some, List, [], ◌∷◌, Text,
  codes, eqb, is_empty, trim_space, to_lower, leb, ltb, if◌then◌else◌, ◌==◌, Error, Result, ok, err,
  missing_phone_column,
}

pub record LeadRow : Type 0 where
  pub line : ℕ
  pub phone : Text
  -- A map, its keys in the order in which they are first set.
  pub payload : List (Text × Text)

pub record RowError : Type 0 where
  pub line : ℕ
  pub reason : Text

-- What Parse returns: leads, row errors, and the error that stopped it.
pub record Parsed : Type 0 where
  pub rows : List LeadRow
  pub errors : List RowError
  pub stopped : Option Error

-- The bytes of a code point in UTF-8, and of a text.
abbrev pub rune_len : ℕ → ℕ
rune_len c = if ltb c 128 then 1 else if ltb c 2048 then 2 else if ltb c 65536 then 3 else 4

unfoldable pub byte_len : Text → ℕ
byte_len [] = 0
byte_len (c ∷ s) = rune_len c + byte_len s

unfoldable pub normalize_header : Text → Text
normalize_header h = to_lower (trim_space h)

abbrev pub is_phone_header : Text → Bool
is_phone_header h =
    eqb h (codes "phone")
    || eqb h (b't' ∷ (233 ∷ (b'l' ∷ (233 ∷ codes "phone"))))
    || eqb h (codes "telephone")
    || eqb h (codes "mobile")

unfoldable pub phone_index : List Text → Option ℕ
phone_index [] = none
phone_index (h ∷ hs) =
    let rest = phone_index hs in
    if is_phone_header (normalize_header h)
    then some 0
    else elim rest [ none ↦ none | some i ↦ some (suc i) ]

unfoldable pub all_empty : List Text → Bool
all_empty [] = true
all_empty (v ∷ vs) = if not (is_empty (trim_space v)) then false else all_empty vs

-- `record[i]`, or an empty text past the end.
unfoldable pub column : ℕ → List Text → Text
column i [] = []
column zero (v ∷ vs) = v
column (suc i) (v ∷ vs) = column i vs

-- `payload[key] = val`.
unfoldable pub put : Text → Text → List (Text × Text) → List (Text × Text)
put k v [] = (k, v) ∷ []
put k v ((j, u) ∷ m) = let rest = put k v m in if eqb j k then (j, v) ∷ m else (j, u) ∷ rest

abbrev pub put_field : Text → Text → List (Text × Text) → List (Text × Text)
put_field key val m = if is_empty key then m else if not (is_empty val) then put key val m else m

unfoldable pub fields : ℕ → ℕ → List Text → List Text → List (Text × Text) → List (Text × Text)
unfolding column put
fields phone_idx i [] record_ m = m
fields phone_idx i (h ∷ hs) record_ m =
    fields phone_idx (suc i) hs record_
      (if i == phone_idx then m else put_field (trim_space h) (trim_space (column i record_)) m)

module _ (unicode_is_digit : ℕ → Bool) where
  unfoldable pub digits_of : Text → Text
  digits_of [] = []
  digits_of (c ∷ s) = let rest = digits_of s in if unicode_is_digit c then c ∷ rest else rest

  unfoldable pub normalize_phone : Text → Option Text
  unfolding digits_of byte_len
  normalize_phone raw =
      let d = digits_of (trim_space raw) in
      if is_empty (trim_space raw)
      then none
      else if ltb (byte_len d) 8 || ltb 15 (byte_len d)
      then none
      else some (b'+' ∷ d)

  abbrev pub invalid_phone : ℕ → RowError
  invalid_phone line = record { line = line; reason = codes "invalid_phone" }

  -- A row with its normalized number, if it has one, before the rest of the file.
  pub add_row : ℕ → List (Text × Text) → Option Text → Parsed → Parsed
  add_row line payload none rest = record rest { errors = invalid_phone line ∷ rest.errors }
  add_row line payload (some phone) rest = record rest {
    rows = record { line = line; phone = phone; payload = payload } ∷ rest.rows;
  }

  -- The loop over the records.
  unfoldable pub parse_records : ℕ → List Text → List (Result (List Text)) → ℕ → Parsed
  unfolding add_row all_empty
  parse_records phone_idx headers [] line = record { rows = []; errors = []; stopped = none }
  parse_records phone_idx headers (err e ∷ rs) line = record {
    rows = [];
    errors = [];
    stopped = some e;
  }
  parse_records phone_idx headers (ok record_ ∷ rs) line =
      let rest = parse_records phone_idx headers rs (suc line) in
      if all_empty record_
      then rest
      else add_row line (fields phone_idx 0 headers record_ [])
          (normalize_phone (column phone_idx record_)) rest

  pub parse_from : List Text → List (Result (List Text)) → Option ℕ → Parsed
  parse_from headers rs none = record {
    rows = [];
    errors = [];
    stopped = some missing_phone_column;
  }
  parse_from headers rs (some i) = parse_records i headers rs 2

  -- `Parse`, on the first record and the rest.
  unfoldable pub parse : Result (List Text) → List (Result (List Text)) → Parsed
  unfolding parse_from phone_index
  parse (err e) rs = record { rows = []; errors = []; stopped = some e }
  parse (ok headers) rs = parse_from headers rs (phone_index headers)
