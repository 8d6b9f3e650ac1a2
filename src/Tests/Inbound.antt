-- ===== src/Tests/Inbound.antt =====
-- Concrete inbound calls, claims and windows.
use callvoice.Common.{
  ◌+◌, ◌-◌, ◌≤◌, ◌≡◌, ◌≢◌, ◌⊎◌, inr, refl, true, none, some, List, [], ◌∷◌, map, Text, codes, eqb,
  Error, ok, err, invalid_state, no_agent,
}
use Prim.Native.Nat.{min}
use callvoice.Services.{World, text, lost}
use callvoice.Services.Memory.{memory, Keyspace}
use callvoice.Keys.{agent_key}
use callvoice.Presence.{
  PresenceValue, state_available, state_on_call, state_paused, encode_presence, claim_available,
  release_on_call, set_state,
}
use callvoice.Presence.Laws.{
  Shifted, Settled, presence_of, moved_to, OthersKept, claim_available-Shifted,
  release_on_call-restores, set_state_cases,
}
use callvoice.Presence.History.{Call, claims, releases, wins, others, openness, wins-le-others}
use callvoice.Cps.Window.{allowed, allowed-le-cap, allowed-eq-min}
use callvoice.Inbound.Scan.{first_available_agent}
use callvoice.Inbound.Scan.Laws.{first_available_agent-Joined}
use callvoice.Inbound.Route.{Did, Router, route}
use callvoice.Inbound.Route.Laws.{Routed, route-Routed}
use callvoice.Inbound.Events.{Event, handle_event, member}
use callvoice.Inbound.Events.Laws.{AllOrNothing, handle_event-AllOrNothing, handle_event_once}
use callvoice.Tests.{presence, world_of, plain, flaky}

abbrev available_value : PresenceValue
available_value = record { state = state_available; campaign_id = [] }

-- Agent 7 is available.
abbrev staffed : World Keyspace
staffed = world_of (memory.set (agent_key 7) (text state_available) 60 plain.store) []

abbrev did : Did
did = record {
  number = codes "+33123456789";
  destination = codes "queue:default";
  carrier_id = none;
}

abbrev router : Router
router = record { esl = true; pres = presence; lookup = λ number. ok did }

abbrev event : Event
event = record { channel_uuid = codes "c1"; did = codes "+33123456789" }

abbrev pages : List (List Text)
pages = (agent_key 7 ∷ []) ∷ []

handle_event-AllOrNothing_example :
    AllOrNothing router event staffed (handle_event router (map ok pages) event [] staffed)
unfolding agent_key member eqb
handle_event-AllOrNothing_example =
    handle_event-AllOrNothing router pages event [] staffed refl refl refl refl refl

handle_event_once_example :
    (((handle_event router (map ok pages) event [] flaky).error ≡ none)
      × (handle_event router []
            (record event { did = codes "x" })
            (handle_event router (map ok pages) event [] flaky).seen
            (handle_event router (map ok pages) event [] flaky).world
          ≡ record {
            decision = none;
            error = none;
            seen = (handle_event router (map ok pages) event [] flaky).seen;
            world = (handle_event router (map ok pages) event [] flaky).world;
          }))
    ⊎ ((e : Error) × ((handle_event router (map ok pages) event [] flaky).error ≡ some e)
        × ((handle_event router (map ok pages) event [] flaky).seen ≡ []))
unfolding member eqb
handle_event_once_example =
    handle_event_once router (map ok pages) [] event (codes "x") [] flaky refl refl

route-Routed_example :
    Routed router (codes "0033") staffed (route router (map ok pages) (codes "0033") staffed)
unfolding agent_key
route-Routed_example = route-Routed router pages (codes "0033") staffed refl

-- Agent 7 is available for campaign 9.
abbrev joined_value : PresenceValue
joined_value = record { state = state_available; campaign_id = codes "9" }

abbrev joined : World Keyspace
joined = world_of (memory.set (agent_key 7) (encode_presence joined_value) 60 plain.store) []

first_available_agent-Joined_example :
    first_available_agent presence (map ok pages) joined ≡ (err no_agent, joined)
unfolding agent_key encode_presence eqb
first_available_agent-Joined_example =
    first_available_agent-Joined presence pages joined refl ((inr (_, refl), tt), tt)

claim_available-Shifted_example :
    Shifted 7 state_available state_on_call staffed (claim_available presence 7 staffed)
claim_available-Shifted_example = claim_available-Shifted presence 7 staffed refl

release_on_call-restores_example :
    ((release_on_call presence 7 staffed).0 ≡ ok tt)
    × (((v : PresenceValue) × (presence_of 7 staffed ≡ some (ok v))
          × (v.state ≡ state_on_call)
          × (presence_of 7 (release_on_call presence 7 staffed).1
              ≡ some (ok (moved_to state_available v)))
          × OthersKept 7 staffed (release_on_call presence 7 staffed).1)
        ⊎ (((v : PresenceValue) → presence_of 7 staffed ≡ some (ok v) → v.state ≢ state_on_call)
            × ((release_on_call presence 7 staffed).1 ≡ staffed)))
release_on_call-restores_example = release_on_call-restores presence 7 staffed refl

set_state_cases_example :
    ((state_paused ≢ state_available)
      × (state_paused ≢ state_paused)
      × (set_state presence 7 state_paused staffed ≡ (err invalid_state, staffed)))
    ⊎ Settled 7 state_paused staffed (set_state presence 7 state_paused staffed)
set_state_cases_example = set_state_cases presence 7 state_paused staffed refl

-- Two claims with a release between them, the first command losing its reply.
abbrev calls : List Call
calls = claims ∷ (releases ∷ (claims ∷ []))

wins-le-others_example :
    wins presence 7 calls (record staffed { outcomes = lost ∷ [] })
    ≤ openness (presence_of 7 (record staffed { outcomes = lost ∷ [] })) + others calls
wins-le-others_example = wins-le-others presence 7 calls (record staffed { outcomes = lost ∷ [] })

allowed-le-cap_example : allowed (codes "cps:global") 2 100 5 flaky ≤ 2 - 0
allowed-le-cap_example = allowed-le-cap (codes "cps:global") 2 100 5 0 flaky refl

allowed-eq-min_example : allowed (codes "cps:global") 2 100 5 plain ≡ min 5 (2 - 0)
allowed-eq-min_example = allowed-eq-min (codes "cps:global") 2 100 5 0 plain refl refl
