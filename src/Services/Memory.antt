-- ===== src/Services/Memory.antt =====
-- An instance of `Services`: a keyspace as a function, and identifiers as runs of 36 marks.
use callvoice.Common.{
  ℕ, zero, suc, ◌≡◌, refl, Option, none, some, [], ◌∷◌, Text, eqb, if◌then◌else◌,
}
use callvoice.Common.Int.{add_one, sub_one}
use callvoice.Services.{Services, Value, text, number, object, counted}

abbrev pub Keyspace : Type 0
Keyspace = Text → Option Value

abbrev put : Text → Option Value → Keyspace → Keyspace
put k v s j = if eqb k j then v else s j

-- The number, then 35 marks.
abbrev pub marks : ℕ → Text
marks zero = []
marks (suc n) = b'-' ∷ marks n

abbrev name : ℕ → Text
name u = u ∷ marks 35

abbrev unname : Text → Option ℕ
unname [] = none
unname (u ∷ t) = if eqb t (marks 35) then some u else none

pub unname-name : (u : ℕ) → unname (name u) ≡ some u
unfolding eqb
unname-name u = refl

-- Text as it is, and one mark for other values.
abbrev raw_value : Value → Text
raw_value (text t) = t
raw_value (number n) = b'0' ∷ []
raw_value (object fs) = b'{' ∷ []

instance abbrev pub memory : Services
memory = record {
  uuid_string = name;
  uuid_parse = unname;
  parse-string = unname-name;
  length-string = λ u. refl;
  rfc3339 = λ n. n ∷ [];
  raw = raw_value;
  raw-text = λ t. refl;
  Store = Keyspace;
  read = λ s k. s k;
  set = λ k v ttl s. put k (some v) s;
  del = λ k s. put k none s;
  incr = λ k s. put k (counted add_one (s k)) s;
  decr = λ k s. put k (counted sub_one (s k)) s;
  expire = λ k ttl s. s;
  read-set = λ k v ttl s j. refl;
  read-del = λ k s j. refl;
  read-incr = λ k s j. refl;
  read-decr = λ k s j. refl;
  read-expire = λ k ttl s j. refl;
}
