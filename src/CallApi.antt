-- ===== src/CallApi.antt =====
-- services/edge/internal/httpapi/calls.go and the state handler of agent.go: the requests of a user
-- whose session is checked, and what his subscribers are sent.
pub mod Laws
use callvoice.Common.{
  ℕ, Bool, true, false, Option, none, some, List, [], ◌∷◌, ◌++◌, Text, codes, is_empty,
  if◌then◌else◌, Error, Result, ok, err, invalid_e164, carrier_capacity, no_active_call,
  call_not_found, call_forbidden, invalid_state, not_found,
}
use callvoice.Services.{Services}
use callvoice.Services.Commands.{W}
use callvoice.Presence.{Presence, set_state}
use callvoice.Live.Hub.{Hub, HubEvent, broadcast}
use callvoice.Dialer.Calls.{OutboundRequest}
use callvoice.Dialer.Originate.{Manual, OutboundResult, originate}
use callvoice.Dialer.Hangup.{hangup}

pub record ApiReply : Type 0 where
  pub status : ℕ
  pub body : List (Text × Text)

-- The reply, and the hub (which may be nil) and the world after it.
pub record Answered (World : Type 0) : Type 0 where
  pub reply : ApiReply
  pub hub : Option Hub
  pub world : World

abbrev pub error_reply : ℕ → Text → ApiReply
error_reply status e = record { status = status; body = (codes "error", e) ∷ [] }

abbrev pub answer_error : {World : Type 0} → ℕ → Text → Option Hub → World → Answered World
answer_error status e hub w = record { reply = error_reply status e; hub = hub; world = w }

pub record OutboundBody : Type 0 where
  pub to : Text
  pub caller_id : Text
  pub campaign_id : Text
  pub lead_id : Text

-- `publishCallState` and `publishAgentState`, with the type of the event.
abbrev pub publish_state : Text → Text → List (Text × Text) → Option Hub → Option Hub
publish_state type user_id payload none = none
publish_state type user_id payload (some h) = some (
    broadcast user_id
      (record {
        type = type;
        payload = (codes "user_id", user_id) ∷ ((codes "agent_id", user_id) ∷ payload);
      })
      h)

-- `writeOutboundError`.
unfoldable pub outbound_error : Error → ApiReply
outbound_error invalid_e164 = error_reply 400 (codes "invalid_e164")
outbound_error carrier_capacity = error_reply 429 (codes "carrier_capacity")
outbound_error e = error_reply 500 (codes "internal_error")

unfoldable pub hangup_error : Error → ApiReply
hangup_error no_active_call = error_reply 409 (codes "no_active_call")
hangup_error call_not_found = error_reply 404 (codes "call_not_found")
hangup_error call_forbidden = error_reply 403 (codes "forbidden")
hangup_error e = error_reply 500 (codes "internal_error")

unfoldable pub state_error : Error → ApiReply
state_error invalid_state = error_reply 400 (codes "invalid_state")
state_error not_found = error_reply 409 (codes "session_not_started")
state_error e = error_reply 500 (codes "internal_error")

module _ ⦃S : Services⦄ where
  -- An identifier of the body: missing if it is empty, an error if it cannot be parsed.
  unfoldable pub parse_id : Text → Error → Result (Option ℕ)
  parse_id t e =
      if is_empty t
      then ok none
      else elim (S.uuid_parse t) [ none ↦ err e | some id ↦ ok (some id) ]

  placed_call : ℕ → Option Hub → Result OutboundResult × W → Answered W
  placed_call user hub (err e, w) = record { reply = outbound_error e; hub = hub; world = w }
  placed_call user hub (ok res, w) =
      let call =
        (codes "call_uuid", res.call_uuid)
        ∷ ((codes "carrier_id", S.uuid_string res.carrier_id) ∷ ((codes "to", res.to) ∷ [])) in
      record {
        reply = record { status = 200; body = (codes "status", codes "ok") ∷ call };
        hub =
            publish_state (codes "call.state") (S.uuid_string user)
              (call ++ ((codes "state", codes "active") ∷ [])) hub;
        world = w;
      }

  -- The call, once both identifiers are read.
  outbound_call :
      Manual
      → ℕ
      → OutboundBody
      → Result (Option ℕ)
      → Result (Option ℕ)
      → Option Hub
      → W
      → Answered W
  unfolding placed_call
  outbound_call m user body (err e) lead hub w =
      answer_error 400 (codes "invalid_campaign_id") hub w
  outbound_call m user body (ok campaign) (err e) hub w =
      answer_error 400 (codes "invalid_lead_id") hub w
  outbound_call m user body (ok campaign) (ok lead) hub w = placed_call user hub (
      originate m
        (record {
          agent_id = user;
          to = body.to;
          caller_id = body.caller_id;
          campaign_id = campaign;
          lead_id = lead;
        })
        w)

  -- `handleOutbound`; the body is `none` if it is no JSON.
  unfoldable pub handle_outbound :
      Option Manual → ℕ → Option OutboundBody → Option Hub → W → Answered W
  unfolding outbound_call
  handle_outbound none user body hub w = answer_error 503 (codes "dialer_unavailable") hub w
  handle_outbound (some m) user none hub w = answer_error 400 (codes "invalid_json") hub w
  handle_outbound (some m) user (some body) hub w =
      outbound_call m user body (parse_id body.campaign_id not_found)
        (parse_id body.lead_id not_found) hub w

  ended_call : ℕ → Text → Option Hub → Result (Unit {0}) × W → Answered W
  ended_call user uuid hub (err e, w) = record { reply = hangup_error e; hub = hub; world = w }
  ended_call user uuid hub (ok _, w) = record {
    reply = record { status = 200; body = (codes "status", codes "ok") ∷ [] };
    hub =
        publish_state (codes "call.state") (S.uuid_string user)
          ((codes "call_uuid", uuid) ∷ ((codes "state", codes "ended") ∷ [])) hub;
    world = w;
  }

  -- `handleHangup`; a body that cannot be read names no call.
  unfoldable pub handle_hangup : Option Manual → ℕ → Text → Option Hub → W → Answered W
  unfolding ended_call
  handle_hangup none user uuid hub w = answer_error 503 (codes "dialer_unavailable") hub w
  handle_hangup (some m) user uuid hub w = ended_call user uuid hub (hangup m user uuid w)

  changed_state : ℕ → Text → Option Hub → Result (Unit {0}) × W → Answered W
  changed_state user state hub (err e, w) = record { reply = state_error e; hub = hub; world = w }
  changed_state user state hub (ok _, w) = record {
    reply = record {
      status = 200;
      body = (codes "status", codes "ok") ∷ ((codes "state", state) ∷ []);
    };
    hub =
        publish_state (codes "agent.state") (S.uuid_string user) ((codes "state", state) ∷ []) hub;
    world = w;
  }

  -- `handleState`; the body is `none` if it is no JSON.
  unfoldable pub handle_state : Presence → ℕ → Option Text → Option Hub → W → Answered W
  unfolding changed_state
  handle_state p user none hub w = answer_error 400 (codes "invalid_json") hub w
  handle_state p user (some state) hub w = changed_state user state hub (set_state p user state w)
