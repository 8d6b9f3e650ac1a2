-- ===== src/Inbound/Events.antt =====
-- HandleEvent and ParseEvent: the channels already seen, and the events that count as inbound.
pub mod Laws
use callvoice.Common.{
  ℕ, Bool, true, false, not, ◌&&◌, ◌||◌, Option, none, some, List, [], ◌∷◌, Text, codes, eqb,
  is_empty, trim_space, to_lower, to_upper, contains, has_prefix, if◌then◌else◌, Error, Result, ok,
  err, missing_channel,
}
use callvoice.Services.{Services}
use callvoice.Services.Commands.{W}
use callvoice.Inbound.Number.{normalize_did}
use callvoice.Inbound.Route.{Router, Decision, route, apply}

pub record Event : Type 0 where
  pub channel_uuid : Text
  pub did : Text

-- The map `seen` of channel identifiers.
unfoldable pub member : Text → List Text → Bool
member c [] = false
member c (x ∷ xs) = eqb x c || member c xs

unfoldable pub delete : Text → List Text → List Text
delete c [] = []
delete c (x ∷ xs) = let rest = delete c xs in if eqb x c then rest else x ∷ rest

-- What HandleEvent returns, `(*Decision, error)`, and leaves.
pub record Handled (World : Type 0) : Type 0 where
  pub decision : Option Decision
  pub error : Option Error
  pub seen : List Text
  pub world : World

module _ ⦃S : Services⦄ where
  applied : Text → List Text → Decision → Result (Unit {0}) × W → Handled W
  applied c seen dec (ok _, w) = record {
    decision = some dec;
    error = none;
    seen = seen;
    world = w;
  }
  applied c seen dec (err e, w) = record {
    decision = some dec;
    error = some e;
    seen = delete c seen;
    world = w;
  }

  routed : Router → Text → List Text → Result Decision × W → Handled W
  unfolding applied
  routed r c seen (ok dec, w) = applied c seen dec (apply r c dec w)
  routed r c seen (err e, w) = record {
    decision = none;
    error = some e;
    seen = delete c seen;
    world = w;
  }

  unfoldable pub handle_event :
      Router → List (Result (List Text)) → Event → List Text → W → Handled W
  unfolding routed
  handle_event r pages ev seen w =
      let c = ev.channel_uuid in
      if is_empty c
      then record { decision = none; error = some missing_channel; seen = seen; world = w }
      else if member c seen
      then record { decision = none; error = none; seen = seen; world = w }
      else routed r c (c ∷ seen) (route r pages ev.did w)

unfoldable pub first_non_empty : List Text → Text
first_non_empty [] = []
first_non_empty (v ∷ vs) =
    if not (is_empty (trim_space v)) then trim_space v else first_non_empty vs

-- An event of the dialplan, or an inbound leg that is not an agent's own.
is_inbound : (Text → Text) → Bool
is_inbound get =
    let subclass = to_lower (get (codes "Event-Subclass")) in
    let name = to_upper (get (codes "Event-Name")) in
    let dir = to_lower (get (codes "Call-Direction")) in
    if eqb name (codes "CUSTOM")
      && (eqb subclass (codes "callvoice::inbound") || contains subclass (codes "callvoice"))
    then true
    else if eqb name (codes "CHANNEL_CREATE")
    then (is_empty dir || eqb dir (codes "inbound"))
      && not (has_prefix (to_lower (get (codes "Caller-Destination-Number"))) (codes "agent-"))
      && not (contains (to_lower (get (codes "Channel-Name"))) (codes "agent-"))
    else false

event_did : (Text → Text) → Text
event_did get = first_non_empty (
    get (codes "Variable_callvoice_did")
    ∷ get (codes "variable_callvoice_did")
    ∷ get (codes "Callvoice-Did")
    ∷ get (codes "callvoice_did")
    ∷ get (codes "Caller-Destination-Number")
    ∷ get (codes "Variable_destination_number")
    ∷ get (codes "Channel-Destination-Number")
    ∷ [])

event_uuid : (Text → Text) → Text
event_uuid get = first_non_empty (
    get (codes "Unique-ID") ∷ get (codes "Channel-Call-UUID") ∷ get (codes "Caller-Unique-ID") ∷ [])

unfoldable pub parse_event : (Text → Text) → Option Event
unfolding is_inbound event_did event_uuid
parse_event get =
    if not (is_inbound get)
    then none
    else if is_empty (event_uuid get) || is_empty (event_did get)
    then none
    else some (record { channel_uuid = event_uuid get; did = normalize_did (event_did get) })
