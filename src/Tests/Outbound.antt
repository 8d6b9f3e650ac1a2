-- ===== src/Tests/Outbound.antt =====
-- Concrete outbound calls.
use callvoice.Common.{Text, ◌≡◌, ◌⊎◌, ◌↔◌, refl, true, false, none, some, [], ◌∷◌, codes, eqb, ok}
use callvoice.Common.Int.{pos}
use callvoice.Services.{World, Value, text, number, counter}
use callvoice.Services.Memory.{memory, Keyspace}
use callvoice.Keys.{channel_key}
use callvoice.Esl.{is_killed}
use callvoice.Dialer.Command.{is_e164, escape_dial_string}
use callvoice.Dialer.Command.Pattern.{Matches, e164_pattern, is_e164-Matches}
use callvoice.Dialer.Command.Laws.{Escaped, originate_text, exposed, exposed-escape_dial_string}
use callvoice.Dialer.Calls.{Carrier, CallMeta, OutboundRequest, cleanup_call, track_call}
use callvoice.Dialer.Calls.Laws.{counter_of, OtherCountersKept, track_call-Tracked}
use callvoice.Dialer.Calls.Cleanup.{Gone, one_less, cleanup_call-one_less}
use callvoice.Dialer.Originate.{Manual, originate}
use callvoice.Dialer.Originate.Rounds.{Originated}
use callvoice.Dialer.Originate.Laws.{originate-Originated}
use callvoice.CallApi.{OutboundBody, handle_outbound, handle_hangup}
use callvoice.CallApi.Laws.{PlacedOrRefused, Untouched, handle_outbound-answers, handle_hangup-Owns}
use callvoice.Dialer.Hangup.{hangup}
use callvoice.Dialer.Hangup.Laws.{Refused, Owns, hangup-Owns}
use callvoice.Dialer.Hangup.Ended.{Undone, hangup-Undone}
use callvoice.Tests.{presence, world_of, plain}

abbrev carrier : Carrier
carrier = record { id = 5; max_cps = 3; max_channels = 2; enabled = true }

abbrev manual : Manual
manual = record { pres = some presence; global_max_cps = 10; carriers = ok (carrier ∷ []) }

abbrev request : OutboundRequest
request = record {
  agent_id = 7;
  to = codes "+33123456789";
  caller_id = [];
  campaign_id = none;
  lead_id = none;
}

abbrev answering : World Keyspace
answering = world_of plain.store (ok (codes "+OK done") ∷ [])

originate-Originated_example :
    Originated request (carrier ∷ []) answering (originate manual request answering)
originate-Originated_example =
    originate-Originated manual request (carrier ∷ []) answering refl refl

-- One channel of the carrier is in use, and a second call is recorded.
abbrev busy_line : World Keyspace
busy_line =
    world_of (memory.set (channel_key 5) (number (pos 1)) 0 plain.store) (ok (codes "+OK") ∷ [])

abbrev on_line : World Keyspace
on_line = (track_call request 5 (codes "call") busy_line).1

hangup-Undone_example :
    ((hangup manual 7 [] on_line).0 ≡ ok tt)
    × Undone request 5 (codes "call") 1 busy_line (hangup manual 7 [] on_line).1
unfolding channel_key track_call is_killed eqb callvoice.Services.Commands.incr
    callvoice.Services.Commands.transaction
hangup-Undone_example =
    let (_, made, h) = track_call-Tracked request 5 (codes "call") busy_line (pos 1) refl refl in
    hangup-Undone manual request 5 (codes "call") (codes "+OK") 1 [] busy_line on_line h made refl
      refl

hangup-Owns_example :
    Refused on_line (hangup manual 8 (codes "call") on_line) ⊎ Owns 8 (codes "call") on_line
hangup-Owns_example = hangup-Owns manual 8 (codes "call") on_line refl

abbrev meta : CallMeta
meta = record {
  agent_id = memory.uuid_string 7;
  carrier_id = memory.uuid_string 5;
  to = codes "+33123456789";
  campaign_id = [];
  lead_id = codes "3";
  started_at = [];
}

cleanup_call-one_less_example :
    (cleanup_call 7 (codes "call") (some meta) busy_line).0 ≡ ok tt
    × (counter_of 5 (cleanup_call 7 (codes "call") (some meta) busy_line).1
        ≡ some (number (pos (one_less (pos 1)))))
    × OtherCountersKept 5 busy_line (cleanup_call 7 (codes "call") (some meta) busy_line).1
    × Gone 7 (codes "call") busy_line (cleanup_call 7 (codes "call") (some meta) busy_line).1
    × ((cleanup_call 7 (codes "call") (some meta) busy_line).1.outcomes ≡ [])
unfolding channel_key eqb
cleanup_call-one_less_example =
    cleanup_call-one_less 7 (codes "call") meta 5 (pos 1) busy_line refl refl refl

is_e164-Matches_example : (is_e164 (codes "+33") ≡ true) ↔ Matches e164_pattern (codes "+33")
is_e164-Matches_example = is_e164-Matches (codes "+33")

abbrev ring : Text
ring = originate_text (codes "agent-7") (codes "gw") (codes "+33") [] (codes "call")

exposed-escape_dial_string_example :
    Escaped (codes "a,{b}\\") (escape_dial_string (codes "a,{b}\\"))
    × (exposed (escape_dial_string (codes "a,{b}\\")) ≡ false)
exposed-escape_dial_string_example = exposed-escape_dial_string (codes "a,{b}\\")

abbrev body : OutboundBody
body = record { to = codes "+33123456789"; caller_id = []; campaign_id = []; lead_id = [] }

handle_outbound-answers_example :
    PlacedOrRefused 7
      (codes "+33123456789")
      none
      answering
      (handle_outbound (some manual) 7 (some body) none answering)
handle_outbound-answers_example =
    handle_outbound-answers manual (carrier ∷ []) 7 body none answering refl refl

handle_hangup-Owns_example :
    Untouched none on_line (handle_hangup (some manual) 8 (codes "call") none on_line)
    ⊎ Owns 8 (codes "call") on_line
handle_hangup-Owns_example = handle_hangup-Owns manual 8 (codes "call") none on_line refl
