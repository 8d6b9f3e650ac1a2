-- ===== src/Dialer/Calls.antt =====
-- The calls tracked in Redis: channel counters, call metadata and the call of each agent.
pub mod Laws
pub mod Cleanup
pub mod Metadata
use callvoice.Common.{
  ℕ, Bool, true, false, not, Option, none, some, List, [], ◌∷◌, ◌++◌, Text, codes, eqb, is_empty,
  if◌then◌else◌, ◌==◌, Error, Result, ok, err, bad_number, not_found, invalid_meta,
}
use callvoice.Common.Int.{ℤ, pos, below, is_negative}
use callvoice.Services.{Services, World, Value, number, text, object}
use callvoice.Services.Commands.{
  W, M, pure, fail, attempt, ◌>>=◌, ◌>>◌, get, set, del, incr, decr, transaction,
}
use callvoice.Keys.{agent_call_key, call_meta_key, channel_key}
use callvoice.Presence.{field}

-- `models.Carrier`, as far as the dialer reads it.
pub record Carrier : Type 0 where
  pub id : ℕ
  pub max_cps : ℕ
  pub max_channels : ℕ
  pub enabled : Bool

pub record OutboundRequest : Type 0 where
  pub agent_id : ℕ
  pub to : Text
  pub caller_id : Text
  pub campaign_id : Option ℕ
  pub lead_id : Option ℕ

pub record CallMeta : Type 0 where
  pub agent_id : Text
  pub carrier_id : Text
  pub to : Text
  pub campaign_id : Text
  pub lead_id : Text
  pub started_at : Text

-- A field with the tag `omitempty`.
abbrev optional : Text → Text → List (Text × Text)
optional name v = if is_empty v then [] else (name, v) ∷ []

-- `json.Marshal` and `json.Unmarshal` of the metadata.
unfoldable pub encode_meta : CallMeta → Value
encode_meta m = object (
    (codes "agent_id", m.agent_id)
    ∷ (codes "carrier_id", m.carrier_id)
    ∷ (codes "to", m.to)
    ∷ (optional (codes "campaign_id") m.campaign_id
        ++ (optional (codes "lead_id") m.lead_id ++ optional (codes "started_at") m.started_at)))

unfoldable pub parse_meta : Value → Option CallMeta
unfolding field
parse_meta (text t) = none
parse_meta (number n) = none
parse_meta (object fs) = some (record {
  agent_id = field (codes "agent_id") fs;
  carrier_id = field (codes "carrier_id") fs;
  to = field (codes "to") fs;
  campaign_id = field (codes "campaign_id") fs;
  lead_id = field (codes "lead_id") fs;
  started_at = field (codes "started_at") fs;
})

-- A day, in seconds.
abbrev pub call_ttl : ℕ
call_ttl = 86400

module _ ⦃S : Services⦄ where
  pub parse_count : Option Value → M ℤ
  parse_count none = pure (pos 0)
  parse_count (some (number n)) = pure n
  parse_count (some (text t)) = fail bad_number
  parse_count (some (object fs)) = fail bad_number

  unfoldable pub channel_count : ℕ → M ℤ
  unfolding parse_count
  channel_count carrier_id = get (channel_key carrier_id) >>= parse_count

  unfoldable pub channel_available : Carrier → M Bool
  unfolding channel_count
  channel_available c =
      if c.max_channels == 0
      then pure false
      else channel_count c.id >>= λ n. pure (below n c.max_channels)

  -- An identifier as text, empty for a missing one and for `uuid.Nil`.
  optional_id : Option ℕ → Text
  optional_id none = []
  optional_id (some id) = if id == 0 then [] else S.uuid_string id

  unfoldable pub call_meta : OutboundRequest → ℕ → ℕ → CallMeta
  unfolding optional_id
  call_meta req carrier_id now = record {
    agent_id = S.uuid_string req.agent_id;
    carrier_id = S.uuid_string carrier_id;
    to = req.to;
    campaign_id = optional_id req.campaign_id;
    lead_id = optional_id req.lead_id;
    started_at = S.rfc3339 now;
  }

  abbrev pub write_call : Text → ℕ → CallMeta → S.Store → S.Store
  write_call call_uuid agent_id meta s =
      S.set (agent_call_key agent_id) (text call_uuid) call_ttl
        (S.set (call_meta_key call_uuid) (encode_meta meta) call_ttl s)

  -- The rest of `trackCall`, once the channel is counted.
  pub continue_tracking : OutboundRequest → ℕ → Text → ℤ → M (Unit {0})
  continue_tracking req carrier_id call_uuid n w =
      transaction (write_call call_uuid req.agent_id (call_meta req carrier_id w.now)) w

  unfoldable pub track_call : OutboundRequest → ℕ → Text → M (Unit {0})
  unfolding continue_tracking
  track_call req carrier_id call_uuid =
      incr (channel_key carrier_id) >>= continue_tracking req carrier_id call_uuid

  meta_or_error : Option CallMeta → M CallMeta
  meta_or_error none = fail invalid_meta
  meta_or_error (some m) = pure m

  -- The metadata that a reply of GET holds.
  parsed_meta : Option Value → M CallMeta
  unfolding meta_or_error
  parsed_meta none = fail not_found
  parsed_meta (some v) = meta_or_error (parse_meta v)

  unfoldable pub load_meta : Text → M CallMeta
  unfolding parsed_meta
  load_meta call_uuid = get (call_meta_key call_uuid) >>= parsed_meta

  -- A counter below 0 is set back to 0.
  pub clamp : ℕ → ℤ → M (Unit {0})
  clamp carrier_id n =
      if not (is_negative n)
      then pure tt
      else attempt (set (channel_key carrier_id) (number (pos 0)) 0) >>= λ _. pure tt

  -- DECR of the carrier's counter, for metadata that names a carrier.
  pub free_channel : Option ℕ → M (Unit {0})
  unfolding clamp
  free_channel none = pure tt
  free_channel (some carrier_id) = decr (channel_key carrier_id) >>= clamp carrier_id

  abbrev pub carrier_of : Option CallMeta → Option ℕ
  carrier_of none = none
  carrier_of (some m) = S.uuid_parse m.carrier_id

  -- Whether a reply of GET is this call.
  abbrev pub is_call : Text → Result (Option Value) → Bool
  is_call call_uuid (ok (some v)) = eqb (S.raw v) call_uuid
  is_call call_uuid (ok none) = false
  is_call call_uuid (err e) = false

  -- The agent's key is deleted if it names the call.
  pub forget_call : ℕ → Bool → M (Unit {0})
  forget_call agent_id false = pure tt
  forget_call agent_id true = attempt (del (agent_call_key agent_id)) >>= λ _. pure tt

  unfoldable pub cleanup_call : ℕ → Text → Option CallMeta → M (Unit {0})
  unfolding free_channel forget_call
  cleanup_call agent_id call_uuid meta = do
    free_channel (carrier_of meta)
    _ ← attempt (del (call_meta_key call_uuid))
    cur ← attempt (get (agent_call_key agent_id))
    forget_call agent_id (is_call call_uuid cur)
