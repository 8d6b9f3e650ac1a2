-- ===== src/Services.antt =====
-- What the edge service (services/edge) asks of code outside the repository: Redis commands through
-- go-redis, identifiers of google/uuid, and FreeSWITCH behind its event socket. `Services` holds
-- the operations with their documented laws; `World` is what one call of a handler sees and changes.
pub mod Commands
pub mod Memory
use callvoice.Common.{ℕ, ◌≡◌, Option, none, some, List, Text, eqb, len, if◌then◌else◌, Result}
use callvoice.Common.Int.{ℤ, pos, add_one, sub_one}

-- A Redis string: a JSON object with text fields, the decimal text of an integer, or other text.
pub data Value : Type 0 where
  text : Text → Value
  number : ℤ → Value
  object : List (Text × Text) → Value

-- What INCR and DECR start from: a missing key counts as 0.
abbrev pub counter : Option Value → Option ℤ
counter none = some (pos 0)
counter (some (number n)) = some n
counter (some (text t)) = none
counter (some (object fs)) = none

-- What INCR and DECR leave behind: a value that is no integer is an error and stays.
abbrev pub counted : (ℤ → ℤ) → Option Value → Option Value
counted f none = some (number (f (pos 0)))
counted f (some (number n)) = some (number (f n))
counted f (some (text t)) = some (text t)
counted f (some (object fs)) = some (object fs)

pub record Services : Type 1 where
  -- google/uuid; an identifier is its 128-bit number, and `uuid.Nil` is 0.
  pub uuid_string : ℕ → Text
  pub uuid_parse : Text → Option ℕ
  pub parse-string : (u : ℕ) → uuid_parse (uuid_string u) ≡ some u
  pub length-string : (u : ℕ) → len (uuid_string u) ≡ 36
  -- `time.Time.Format(time.RFC3339)` of a time in Unix seconds.
  pub rfc3339 : ℕ → Text
  -- The bytes of a Redis string; its JSON is encoding/json's.
  pub raw : Value → Text
  pub raw-text : (t : Text) → raw (text t) ≡ t
  -- The Redis keyspace, read by GET and changed by SET (with a time to live in seconds, 0 for none),
  -- DEL, INCR, DECR and EXPIRE.
  pub Store : Type 0
  pub read : Store → Text → Option Value
  pub set : Text → Value → ℕ → Store → Store
  pub del : Text → Store → Store
  pub incr : Text → Store → Store
  pub decr : Text → Store → Store
  pub expire : Text → ℕ → Store → Store
  pub read-set :
      (k : Text) (v : Value) (ttl : ℕ) (s : Store) (j : Text)
      → read (set k v ttl s) j ≡ (if eqb k j then some v else read s j)
  pub read-del :
      (k : Text) (s : Store) (j : Text) → read (del k s) j ≡ (if eqb k j then none else read s j)
  pub read-incr :
      (k : Text) (s : Store) (j : Text)
      → read (incr k s) j ≡ (if eqb k j then counted add_one (read s k) else read s j)
  pub read-decr :
      (k : Text) (s : Store) (j : Text)
      → read (decr k s) j ≡ (if eqb k j then counted sub_one (read s k) else read s j)
  pub read-expire : (k : Text) (ttl : ℕ) (s : Store) (j : Text) → read (expire k ttl s) j ≡ read s j

-- How one Redis command ends: answered; refused, with no effect; lost, with its effect made and the
-- reply missing; or, at a watched transaction, aborted since another client wrote the key.
pub data Outcome : Type 0 where
  answered refused lost conflict : Outcome

pub record World (Store : Type 0) : Type 0 where
  pub store : Store
  -- How the coming commands end; past the end of the list every command is answered.
  pub outcomes : List Outcome
  -- What FreeSWITCH answers to the coming commands, and the commands sent, the latest first.
  pub replies : List (Result Text)
  pub sent : List Text
  -- The bodies published on `call.events`, the latest first.
  pub events : List (List (Text × Text))
  -- The identifiers that `uuid.New` draws, and how many are drawn.
  pub fresh : ℕ → ℕ
  pub drawn : ℕ
  -- `time.Now()` in Unix seconds.
  pub now : ℕ
