-- ===== src/Tests/Live.antt =====
-- A concrete hub, snapshot and uploaded file.
use callvoice.Common.{
  eqb, ℕ, suc, ◌≡◌, refl, true, false, none, some, List, [], ◌∷◌, Text, codes, Result, ok, err,
  is_digit,
}
use callvoice.Services.{World, text}
use callvoice.Services.Memory.{memory, Keyspace}
use callvoice.Keys.{agent_key}
use callvoice.Presence.{state_paused}
use callvoice.Live.Hub.{HubEvent, new_hub}
use callvoice.Live.Hub.Invariant.{
  Request, joins, leaves, sends, serve_all, WellFormed, serve_all-WellFormed,
}
use callvoice.Live.Wallboard.{Wallboard, build_snapshot}
use callvoice.Live.Wallboard.Laws.{Counted, build_snapshot-Counted}
use callvoice.CsvImport.{parse, phone_index, normalize_header}
use callvoice.CsvImport.Laws.{Shared, filled, parse-Shared}
use callvoice.Tests.{world_of, plain}

abbrev event : HubEvent
event = record { type = codes "heartbeat"; payload = [] }

abbrev requests : List Request
requests = joins (codes "7") ∷ (sends (codes "7") event ∷ (leaves (codes "7") 0 ∷ []))

serve_all-WellFormed_example : WellFormed (serve_all requests new_hub)
unfolding new_hub
serve_all-WellFormed_example = serve_all-WellFormed requests new_hub tt

abbrev paused_agent : World Keyspace
paused_agent = world_of (memory.set (agent_key 7) (text state_paused) 60 plain.store) []

abbrev snapshot : Wallboard
snapshot = record {
  counts = record { available = 0; paused = 1; on_call = 0; calls = 0 };
  agents = record { user_id = memory.uuid_string 7; state = state_paused; campaign_id = none } ∷ [];
  calls = [];
}

build_snapshot-Counted_example : Counted snapshot
unfolding build_snapshot agent_key callvoice.Services.Commands.get eqb callvoice.Common.trim_prefix
build_snapshot-Counted_example =
    build_snapshot-Counted (ok (agent_key 7 ∷ []) ∷ []) [] paused_agent snapshot refl

abbrev headers : List Text
headers = codes "Name" ∷ (codes " Phone" ∷ [])

abbrev records : List (Result (List Text))
records =
    ok (codes "Ann" ∷ (codes "06 12 34 56 78" ∷ [])) ∷ (ok (codes "Bob" ∷ (codes "12" ∷ [])) ∷ [])

parse-Shared_example :
    Shared is_digit
      (filled is_digit records 2)
      (parse is_digit (ok headers) records).rows
      (parse is_digit (ok headers) records).errors
unfolding phone_index normalize_header eqb callvoice.Common.to_lower callvoice.Common.trim_space
parse-Shared_example = parse-Shared is_digit headers 1 records refl
