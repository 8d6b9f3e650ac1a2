-- ===== src/Presence.antt =====
-- services/edge/internal/agent/presence.go: an agent's live state, kept under one Redis key.
pub mod Laws
pub mod Sent
pub mod History
use callvoice.Common.{
  ℕ, ◌*◌, Bool, true, false, not, ◌&&◌, ◌||◌, Option, none, some, List, [], ◌∷◌, Text, codes, eqb,
  is_empty, if◌then◌else◌, ◌==◌, Result, ok, err, invalid_state, invalid_presence, not_found,
}
use callvoice.Services.{Services, Value, text, number, object}
use callvoice.Services.Commands.{
  M, pure, fail, ◌>>=◌, ◌>>◌, guard, get, set, del, exists, watch, watched,
}
use callvoice.Keys.{agent_key}

abbrev pub state_available : Text
state_available = codes "available"

abbrev pub state_paused : Text
state_paused = codes "paused"

abbrev pub state_on_call : Text
state_on_call = codes "on_call"

-- Two hours, in seconds.
abbrev pub default_ttl : ℕ
default_ttl = 2 * 3600

pub record Presence : Type 0 where
  pub ttl : ℕ

unfoldable pub new_presence : ℕ → Presence
new_presence ttl = record { ttl = if ttl == 0 then default_ttl else ttl }

pub record PresenceValue : Type 0 where
  pub state : Text
  pub campaign_id : Text

-- A text field of a JSON object, as `json.Unmarshal` fills a struct: empty if it is missing.
unfoldable pub field : Text → List (Text × Text) → Text
field k [] = []
field k ((j, v) ∷ fs) = if eqb j k then v else field k fs

abbrev is_state : Text → Bool
is_state s = eqb s state_available || eqb s state_paused || eqb s state_on_call

unfoldable pub parse_presence : Value → Result PresenceValue
unfolding field
parse_presence (object fs) =
    let state = field (codes "state") fs in
    if not (is_empty state)
    then ok (record { state = state; campaign_id = field (codes "campaign_id") fs })
    else err invalid_presence
parse_presence (number n) = err invalid_presence
parse_presence (text raw) =
    if is_state raw then ok (record { state = raw; campaign_id = [] }) else err invalid_presence

unfoldable pub encode_presence : PresenceValue → Value
encode_presence v =
    if is_empty v.campaign_id
    then text v.state
    else object ((codes "state", v.state) ∷ (codes "campaign_id", v.campaign_id) ∷ [])

parse_found : Option Value → Result PresenceValue
parse_found none = err not_found
parse_found (some raw) = parse_presence raw

-- The value with its state changed from one state to another, if it is in the first.
pub moved : Text → Text → Option Value → Option PresenceValue
moved from to none = none
moved from to (some raw) = elim (parse_presence raw) [
  | err _ ↦ none
  | ok v ↦ if eqb v.state from then some (record v { state = to }) else none
]

module _ ⦃S : Services⦄ where
  lift : {A : Type 0} → Result A → M A
  lift (ok a) = pure a
  lift (err e) = fail e

  unfoldable pub read_presence : Presence → ℕ → M PresenceValue
  unfolding lift parse_found
  read_presence p user_id = do raw ← get (agent_key user_id); lift (parse_found raw)

  unfoldable pub write_presence : Presence → ℕ → PresenceValue → M (Unit {0})
  write_presence p user_id v = set (agent_key user_id) (encode_presence v) p.ttl

  -- `Start`.
  unfoldable pub start : Presence → ℕ → M (Unit {0})
  unfolding write_presence
  start p user_id = write_presence p user_id (record { state = state_available; campaign_id = [] })

  -- `Stop`.
  unfoldable pub stop : Presence → ℕ → M (Unit {0})
  stop p user_id = del (agent_key user_id)

  -- `Get`.
  unfoldable pub get_state : Presence → ℕ → M Text
  unfolding read_presence
  get_state p user_id = do v ← read_presence p user_id; pure v.state

  -- The campaign as text, empty for a missing one and for `uuid.Nil`.
  campaign_text : Option ℕ → Text
  campaign_text none = []
  campaign_text (some id) = if id == 0 then [] else S.uuid_string id

  unfoldable pub set_campaign : Presence → ℕ → Option ℕ → M (Unit {0})
  unfolding read_presence write_presence campaign_text
  set_campaign p user_id campaign_id = do
    v ← read_presence p user_id
    write_presence p user_id (record v { campaign_id = campaign_text campaign_id })

  unfoldable pub set_state : Presence → ℕ → Text → M (Unit {0})
  unfolding read_presence write_presence
  set_state p user_id state = do
    guard (eqb state state_available || eqb state state_paused) invalid_state
    n ← exists (agent_key user_id)
    guard n not_found
    v ← read_presence p user_id
    write_presence p user_id (record v { state = state })

  -- The write of a watched transaction; `false` where the transaction made none.
  pub compare_and_set : Presence → ℕ → Option PresenceValue → M Bool
  compare_and_set p user_id none = pure false
  compare_and_set p user_id (some v) = watched (S.set (agent_key user_id) (encode_presence v) p.ttl)

  -- The common shape of the two WATCH transactions.
  pub shift : Presence → ℕ → Text → Text → M Bool
  unfolding moved compare_and_set
  shift p user_id from to = do
    watch (agent_key user_id)
    raw ← get (agent_key user_id)
    compare_and_set p user_id (moved from to raw)

  -- `ClaimAvailable`: whether this caller moved the agent from available to on_call.
  unfoldable pub claim_available : Presence → ℕ → M Bool
  unfolding shift
  claim_available p user_id = shift p user_id state_available state_on_call

  -- `ReleaseOnCall`: back to available if the agent is on_call; a conflict is no error.
  unfoldable pub release_on_call : Presence → ℕ → M (Unit {0})
  unfolding shift
  release_on_call p user_id = do _ ← shift p user_id state_on_call state_available; pure tt
