-- ===== src/CsvImport/Laws.antt =====
-- What Parse returns of a file: valid numbers, and every row accounted for.
use callvoice.Common.{
  ℕ, suc, ◌≡◌, ◌≤◌, refl, Bool, true, false, Bool-cases, Option, none, some, List, [], ◌∷◌, Text,
  is_empty, trim_space, ltb, ◌||◌, arith, if◌then◌else◌, Result, ok, err, All, inl, inr,
}
use callvoice.CsvImport.{
  LeadRow, RowError, Parsed, byte_len, digits_of, normalize_phone, all_empty, column, fields,
  add_row, parse_records, parse_from, phone_index, parse,
}

module _ (is_digit : ℕ → Bool) where
  -- A plus sign and digits of 8 to 15 bytes.
  abbrev pub Phone : Text → Type 0
  Phone t =
      (d : Text) × (t ≡ b'+' ∷ d)
      × All (λ c. is_digit c ≡ true) d
      × (8 ≤ byte_len d)
      × (byte_len d ≤ 15)

  -- The lines of the records that are not empty, up to the first that cannot be read.
  unfoldable pub filled : List (Result (List Text)) → ℕ → List ℕ
  filled [] line = []
  filled (err e ∷ rs) line = []
  filled (ok r ∷ rs) line =
      let rest = filled rs (suc line) in if all_empty r then rest else line ∷ rest

  -- The rows and the errors share out these lines, both in the order of the file.
  pub data Shared : List ℕ → List LeadRow → List RowError → Type 0 where
    done : Shared [] [] []
    lead :
        {n : ℕ} {ns : List ℕ} {r : LeadRow} {rs : List LeadRow} {es : List RowError}
        → r.line ≡ n
        → Phone r.phone
        → Shared ns rs es
        → Shared (n ∷ ns) (r ∷ rs) es
    fault :
        {n : ℕ} {ns : List ℕ} {e : RowError} {rs : List LeadRow} {es : List RowError}
        → e.line ≡ n
        → Shared ns rs es
        → Shared (n ∷ ns) rs (e ∷ es)

  digits_of-digits : (t : Text) → All (λ c. is_digit c ≡ true) (digits_of is_digit t)
  unfolding digits_of
  digits_of-digits [] = tt
  digits_of-digits (c ∷ t) = elim (Bool-cases (is_digit c)) [
    | inl digit ↦ rw digit (digit, digits_of-digits t)
    | inr other ↦ rw other (digits_of-digits t)
  ]

  phone_bounds : (n : ℕ) → (ltb n 8 || ltb 15 n) ≡ false → (8 ≤ n) × (n ≤ 15)
  phone_bounds n h = (ground arith, ground arith)

  -- A number that is accepted is a plus sign and digits of 8 to 15 bytes.
  pub normalize_phone-Phone : (raw t : Text) → normalize_phone is_digit raw ≡ some t → Phone t
  unfolding normalize_phone
  normalize_phone-Phone raw t h = elim (Bool-cases (is_empty (trim_space raw))) [
    | inl none_there ↦ cc
    | inr there ↦
        let d = digits_of is_digit (trim_space raw) in
        elim (Bool-cases (ltb (byte_len d) 8 || ltb 15 (byte_len d))) [
          | inl out ↦ cc
          | inr within ↦
              let (low, high) = phone_bounds (byte_len d) within in
              let same : t ≡ b'+' ∷ d = cc in
              (d, same, digits_of-digits (trim_space raw), low, high)
        ]
  ]

  row_Shared :
      (ns : List ℕ) (line : ℕ) (payload : List (Text × Text)) (phone : Option Text) (rest : Parsed)
      → ((t : Text) → phone ≡ some t → Phone t)
      → Shared ns rest.rows rest.errors
      → Shared
          (line ∷ ns)
          (add_row is_digit line payload phone rest).rows
          (add_row is_digit line payload phone rest).errors
  unfolding add_row
  row_Shared ns line payload none rest valid h = fault refl h
  row_Shared ns line payload (some t) rest valid h = lead refl (valid t refl) h

  parse_records-Shared :
      (i : ℕ) (headers : List Text) (rs : List (Result (List Text))) (line : ℕ)
      → Shared
          (filled rs line)
          (parse_records is_digit i headers rs line).rows
          (parse_records is_digit i headers rs line).errors
  unfolding parse_records filled
  parse_records-Shared i headers [] line = done
  parse_records-Shared i headers (err e ∷ rs) line = done
  parse_records-Shared i headers (ok r ∷ rs) line = elim (Bool-cases (all_empty r)) [
    | inl blank ↦ rw blank (parse_records-Shared i headers rs (suc line))
    | inr full ↦ rw full (
        row_Shared (filled rs (suc line)) line (fields i 0 headers r [])
          (normalize_phone is_digit (column i r)) (parse_records is_digit i headers rs (suc line))
          (normalize_phone-Phone (column i r)) (parse_records-Shared i headers rs (suc line)))
  ]

  -- If the file has a header with a phone column, the records that are not empty, up to the first one
  -- that cannot be read, are shared out in order: each is one lead with its line and a number of a
  -- plus sign and digits of 8 to 15 bytes, or one row error with its line.
  pub parse-Shared :
      (headers : List Text) (i : ℕ) (rs : List (Result (List Text)))
      → phone_index headers ≡ some i
      → Shared
          (filled rs 2)
          (parse is_digit (ok headers) rs).rows
          (parse is_digit (ok headers) rs).errors
  unfolding parse parse_from
  parse-Shared headers i rs e = rw (e, parse_from) (parse_records-Shared i headers rs 2)
