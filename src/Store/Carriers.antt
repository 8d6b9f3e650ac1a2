-- ===== src/Store/Carriers.antt =====
-- services/api/internal/store/carriers.go: the carriers that the campaigns dial through.
use callvoice.Common.Int.{ℤ, pos, above, is_zero, no_more}
use callvoice.Common.{
  ℕ, Bool, true, false, not, ◌&&◌, Option, none, some, List, [], ◌∷◌, ◌++◌, Text, codes, eqb, ◌==◌,
  if◌then◌else◌, exists, select, lookup, has, amend, Result, ok, not_found, unique_violation,
  constraint_violation,
}
use callvoice.Models.{Carrier}
use callvoice.Sql.{Tables, M, ◌>>=◌, statement, query, insert}
use callvoice.Store.{found, present, require, given}

pub record CreateCarrierInput : Type 0 where
  pub name : Text
  pub host : Text
  pub port : ℤ
  pub transport : Text
  pub username : Option Text
  -- Empty for nil.
  pub password : Text
  pub realm : Option Text
  pub codecs : Option (List Text)
  pub caller_ids : Option (List Text)
  pub max_cps : ℤ
  pub max_channels : ℤ
  pub enabled : Bool
  pub priority : ℤ

pub record UpdateCarrierInput : Type 0 where
  pub name : Option Text
  pub host : Option Text
  pub port : Option ℤ
  pub transport : Option Text
  pub username : Option Text
  pub clear_username : Bool
  pub password : Option Text
  pub clear_password : Bool
  pub realm : Option Text
  pub clear_realm : Bool
  pub codecs : Option (List Text)
  pub caller_ids : Option (List Text)
  pub max_cps : Option ℤ
  pub max_channels : Option ℤ
  pub enabled : Option Bool
  pub priority : Option ℤ

unfoldable pub insert_by_priority : Carrier → List Carrier → List Carrier
insert_by_priority c [] = c ∷ []
insert_by_priority c (x ∷ xs) =
    let rest = insert_by_priority c xs in
    if no_more c.priority x.priority then c ∷ x ∷ xs else x ∷ rest

-- `ORDER BY priority ASC, created_at ASC`
unfoldable pub sort_by_priority : List Carrier → List Carrier
sort_by_priority [] = []
sort_by_priority (c ∷ cs) = insert_by_priority c (sort_by_priority cs)

unfoldable pub list_carriers : M (List Carrier)
list_carriers = query (λ t. ok (sort_by_priority t.carriers))

abbrev pub carrier_row : ℕ → Tables → Option Carrier
carrier_row id t = lookup (λ c. c.id) id t.carriers

unfoldable pub get_carrier : ℕ → M Carrier
get_carrier id = query (λ t. found (carrier_row id t))

abbrev pub is_transport : Text → Bool
is_transport s = exists (eqb s) (codes "udp" ∷ codes "tcp" ∷ codes "tls" ∷ [])

-- The checks that the table makes of a row.
unfoldable pub is_allowed : Carrier → Bool
is_allowed c = is_transport c.transport && above c.max_cps 0 && above c.max_channels 0

abbrev pub default_codecs : List Text
default_codecs = codes "PCMU" ∷ codes "PCMA" ∷ []

abbrev pub new_carrier : CreateCarrierInput → ℕ → ℕ → Carrier
new_carrier input id now = record {
  id = id;
  name = input.name;
  host = input.host;
  port = if is_zero input.port then pos 5060 else input.port;
  transport = input.transport;
  username = input.username;
  password = input.password;
  realm = input.realm;
  codecs = given input.codecs default_codecs;
  caller_ids = given input.caller_ids [];
  max_cps = input.max_cps;
  max_channels = input.max_channels;
  enabled = input.enabled;
  priority = input.priority;
  created_at = now;
}

abbrev pub insert_carrier_row : CreateCarrierInput → ℕ → ℕ → Tables → Result Carrier × Tables
insert_carrier_row input id now t =
    let c = new_carrier input id now in
    require (not (has (λ c. c.id) id t.carriers)) unique_violation t (
      require (is_allowed c) constraint_violation t
        (ok c, record t { carriers = t.carriers ++ c ∷ [] }))

unfoldable pub create_carrier : CreateCarrierInput → M Carrier
create_carrier input = insert (insert_carrier_row input)

-- A column that an update can clear: clearing it goes first.
abbrev pub cleared : {A : Type 0} → Bool → A → Option A → A → A
cleared true empty new old = empty
cleared false empty new old = given new old

abbrev pub kept : {A : Type 0} → Option A → Option A → Option A
kept none old = old
kept (some a) old = some a

unfoldable pub updated_carrier : UpdateCarrierInput → Carrier → Carrier → Carrier
updated_carrier input cur c = record c {
  name = given input.name cur.name;
  host = given input.host cur.host;
  port = given input.port cur.port;
  transport = given input.transport cur.transport;
  username = if input.clear_username then none else kept input.username cur.username;
  password = cleared input.clear_password [] input.password cur.password;
  realm = if input.clear_realm then none else kept input.realm cur.realm;
  codecs = given input.codecs cur.codecs;
  caller_ids = given input.caller_ids cur.caller_ids;
  max_cps = given input.max_cps cur.max_cps;
  max_channels = given input.max_channels cur.max_channels;
  enabled = given input.enabled cur.enabled;
  priority = given input.priority cur.priority;
}

abbrev pub update_carrier_row : ℕ → UpdateCarrierInput → Carrier → Tables → Result Carrier × Tables
update_carrier_row id input cur t =
    let update = updated_carrier input cur in
    present (carrier_row id t) t (λ c.
      require (is_allowed (update c)) constraint_violation t
        (ok (update c), record t { carriers = amend (λ c. c.id) id update t.carriers }))

unfoldable pub update_carrier : ℕ → UpdateCarrierInput → M Carrier
update_carrier id input = get_carrier id >>= λ cur. statement (λ _. update_carrier_row id input cur)

-- A carrier that a campaign refers to stays.
abbrev pub delete_row : ℕ → Tables → Result (Unit {0}) × Tables
delete_row id t = require (has (λ c. c.id) id t.carriers) not_found t (
    require (not (has (λ c. c.carrier_id) id t.campaigns)) constraint_violation t
      (ok tt, record t { carriers = select (λ c. not (c.id == id)) t.carriers }))

unfoldable pub delete_carrier : ℕ → M (Unit {0})
delete_carrier id = statement (λ _. delete_row id)
