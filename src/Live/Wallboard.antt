-- ===== src/Live/Wallboard.antt =====
-- services/edge/internal/live/wallboard.go: the snapshot of all agents and calls. What SCAN answers,
-- page after page until its cursor is 0, is an argument.
pub mod Laws
use callvoice.Common.{
  ℕ, suc, Bool, true, false, ◌||◌, Option, none, some, List, [], ◌∷◌, ◌++◌, Text, codes, eqb,
  is_empty, trim_prefix, if◌then◌else◌, Result, ok, err,
}
use callvoice.Services.{Services, Value, text, number, object}
use callvoice.Services.Commands.{M, pure, fail, ◌>>=◌, get}
use callvoice.Presence.{state_available, state_paused, state_on_call, field}

pub record WallboardCounts : Type 0 where
  pub available : ℕ
  pub paused : ℕ
  pub on_call : ℕ
  pub calls : ℕ

pub record WallboardAgent : Type 0 where
  pub user_id : Text
  pub state : Text
  pub campaign_id : Option Text

pub record WallboardCall : Type 0 where
  pub uuid : Text
  pub agent_id : Text
  pub to : Text
  pub campaign_id : Option Text
  pub started_at : Text

pub record Wallboard : Type 0 where
  pub counts : WallboardCounts
  pub agents : List WallboardAgent
  pub calls : List WallboardCall

abbrev pub empty_wallboard : Wallboard
empty_wallboard = record {
  counts = record { available = 0; paused = 0; on_call = 0; calls = 0 };
  agents = [];
  calls = [];
}

-- `&campaignID` of a text that is not empty.
abbrev pub present : Text → Option Text
present t = if is_empty t then none else some t

-- The state and the campaign of a raw presence value.
unfoldable pub parse_agent_presence : Value → Text × Text
unfolding field
parse_agent_presence (object fs) = (field (codes "state") fs, field (codes "campaign_id") fs)
parse_agent_presence (number n) = ([], [])
parse_agent_presence (text raw) =
    if eqb raw state_available || eqb raw state_paused || eqb raw state_on_call
    then (raw, [])
    else ([], [])

abbrev pub count_state : Text → WallboardCounts → WallboardCounts
count_state state c =
    if eqb state state_available
    then record c { available = suc c.available }
    else if eqb state state_paused
    then record c { paused = suc c.paused }
    else if eqb state state_on_call
    then record c { on_call = suc c.on_call }
    else c

unfoldable pub add_agent : Text → Text × Text → Wallboard → Wallboard
add_agent user_id (state, campaign_id) wb = if is_empty state then wb else record wb {
  counts = count_state state wb.counts;
  agents =
      wb.agents
      ++ (record { user_id = user_id; state = state; campaign_id = present campaign_id } ∷ []);
}

add_found_agent : Text → Option Value → Wallboard → Wallboard
unfolding add_agent parse_agent_presence
add_found_agent user_id none wb = wb
add_found_agent user_id (some raw) wb = add_agent user_id (parse_agent_presence raw) wb

-- A call whose metadata is no JSON object is left out.
unfoldable pub add_call : Text → Option Value → Wallboard → Wallboard
unfolding field
add_call uuid none wb = wb
add_call uuid (some (text t)) wb = wb
add_call uuid (some (number n)) wb = wb
add_call uuid (some (object fs)) wb = record wb {
  counts = record wb.counts { calls = suc wb.counts.calls };
  calls =
      wb.calls
      ++ (record {
        uuid = uuid;
        agent_id = field (codes "agent_id") fs;
        to = field (codes "to") fs;
        campaign_id = present (field (codes "campaign_id") fs);
        started_at = field (codes "started_at") fs;
      }
          ∷ []);
}

-- The part of a key after its prefix, if there is one.
abbrev pub named_by : Text → Text → Option Text
named_by prefix key =
    let name = trim_prefix key prefix in if eqb name key || is_empty name then none else some name

module _ ⦃S : Services⦄ where
  -- One scanned key, by what is done with its name and value.
  scan_key :
      (Text → Option Value → Wallboard → Wallboard) → Text → Option Text → Wallboard → M Wallboard
  scan_key add key none wb = pure wb
  scan_key add key (some name) wb = get key >>= λ raw. pure (add name raw wb)

  unfoldable pub scan_page :
      (Text → Option Value → Wallboard → Wallboard) → Text → List Text → Wallboard → M Wallboard
  unfolding scan_key
  scan_page add prefix [] wb = pure wb
  scan_page add prefix (key ∷ keys) wb =
      scan_key add key (named_by prefix key) wb >>= scan_page add prefix keys

  unfoldable pub scan_all :
      (Text → Option Value → Wallboard → Wallboard)
      → Text
      → List (Result (List Text))
      → Wallboard
      → M Wallboard
  unfolding scan_page
  scan_all add prefix [] wb = pure wb
  scan_all add prefix (err e ∷ pages) wb = fail e
  scan_all add prefix (ok keys ∷ pages) wb =
      scan_page add prefix keys wb >>= scan_all add prefix pages

  -- `BuildSnapshot`, with a client.
  unfoldable pub build_snapshot :
      List (Result (List Text)) → List (Result (List Text)) → M Wallboard
  unfolding scan_all add_found_agent add_call
  build_snapshot agent_pages call_pages =
      scan_all add_found_agent (codes "agent:") agent_pages empty_wallboard
      >>= scan_all add_call (codes "call:meta:") call_pages
