-- ===== src/CallApi/Laws.antt =====
-- What the replies to call requests tell.
use callvoice.Common.{
  ℕ, ◌≡◌, ◌≢◌, refl, ◌⊎◌, inl, inr, arith, false, Option, some, List, Text, is_empty, Error, Result,
  ok, err, invalid_e164, carrier_capacity, no_active_call, call_not_found, call_forbidden,
  not_found,
}
use callvoice.Services.{Services}
use callvoice.Services.Commands.{W}
use callvoice.Services.Commands.Healthy.{Healthy}
use callvoice.Live.Hub.{Hub}
use callvoice.Dialer.Calls.{Carrier, OutboundRequest}
use callvoice.Dialer.Calls.Laws.{Quiet}
use callvoice.Dialer.Originate.{Manual, OutboundResult, originate}
use callvoice.Dialer.Originate.Rounds.{Originated, Placed, still}
use callvoice.Dialer.Originate.Laws.{originate-Originated}
use callvoice.Dialer.Hangup.{hangup}
use callvoice.Dialer.Hangup.Laws.{Refused, Owns, hangup-Owns}
use callvoice.CallApi.{
  Answered, OutboundBody, outbound_error, hangup_error, parse_id, placed_call, outbound_call,
  handle_outbound, ended_call, handle_hangup,
}

outbound_error-fails : (e : Error) → (outbound_error e).status ≢ 200
unfolding outbound_error
outbound_error-fails invalid_e164 h = omega (arith, h)
outbound_error-fails carrier_capacity h = omega (arith, h)
outbound_error-fails e h = omega (arith, h)

hangup_error-fails : (e : Error) → (hangup_error e).status ≢ 200
unfolding hangup_error
hangup_error-fails no_active_call h = omega (arith, h)
hangup_error-fails call_not_found h = omega (arith, h)
hangup_error-fails call_forbidden h = omega (arith, h)
hangup_error-fails e h = omega (arith, h)

module _ ⦃S : Services⦄ where
  -- How a request for a call ends: with 200 and a call placed for the user, or with another status,
  -- every counter as before and nothing sent to subscribers.
  abbrev pub PlacedOrRefused : ℕ → Text → Option Hub → W → Answered W → Type 0
  PlacedOrRefused user to hub w after =
      ((after.reply.status ≡ 200)
        × ((req : OutboundRequest) × (c : Carrier) × (t : Text) × (req.agent_id ≡ user)
            × (req.to ≡ to)
            × Placed req c t w after.world))
      ⊎ ((after.reply.status ≢ 200) × (after.hub ≡ hub) × Quiet w after.world)

  placed_call-answers :
      (req : OutboundRequest) (cs : List Carrier) (hub : Option Hub) (w : W)
      (r : Result OutboundResult × W)
      → Originated req cs w r
      → PlacedOrRefused req.agent_id req.to hub w (placed_call req.agent_id hub r)
  unfolding placed_call
  placed_call-answers req cs hub w (ok res, w1) (inl (c, t, _, _, made)) =
      inl (refl, (req, c, t, refl, refl, made))
  placed_call-answers req cs hub w (err e, w1) (inl (c, t, _, failed, made)) = cc
  placed_call-answers req cs hub w (ok res, w1) (inr (e, failed, q)) = cc
  placed_call-answers req cs hub w (err x, w1) (inr (e, _, q)) =
      inr (outbound_error-fails x, refl, q)

  outbound_call-answers :
      (m : Manual) (cs : List Carrier) (user : ℕ) (body : OutboundBody)
      (campaign lead : Result (Option ℕ)) (hub : Option Hub) (w : W)
      → m.carriers ≡ ok cs
      → Healthy w
      → PlacedOrRefused user body.to hub w (outbound_call m user body campaign lead hub w)
  unfolding outbound_call
  outbound_call-answers m cs user body (err e) lead hub w list h =
      inr (λ x. omega (arith, x), refl, still w h)
  outbound_call-answers m cs user body (ok c) (err e) hub w list h =
      inr (λ x. omega (arith, x), refl, still w h)
  outbound_call-answers m cs user body (ok c) (ok l) hub w list h =
      let req : OutboundRequest = record {
        agent_id = user;
        to = body.to;
        caller_id = body.caller_id;
        campaign_id = c;
        lead_id = l;
      } in
      placed_call-answers req cs hub w (originate m req w) (originate-Originated m req cs w list h)

  -- If Redis answers and the carriers are listed, a request for a call ends in one of two ways: with
  -- status 200, after the command of a call from the user's phone to the asked number was the last
  -- one sent and was answered with +OK, and the call is recorded; or with another status, every
  -- channel counter as before and nothing sent to subscribers.
  pub handle_outbound-answers :
      (m : Manual) (cs : List Carrier) (user : ℕ) (body : OutboundBody) (hub : Option Hub) (w : W)
      → m.carriers ≡ ok cs
      → Healthy w
      → PlacedOrRefused user body.to hub w (handle_outbound (some m) user (some body) hub w)
  unfolding handle_outbound
  handle_outbound-answers m cs user body hub w list h =
      outbound_call-answers m cs user body (parse_id body.campaign_id not_found)
        (parse_id body.lead_id not_found) hub w list h

  -- A request that is refused.
  abbrev pub Untouched : Option Hub → W → Answered W → Type 0
  Untouched hub w after =
      (after.reply.status ≢ 200)
      × (after.hub ≡ hub)
      × (after.world.store ≡ w.store)
      × (after.world.sent ≡ w.sent)

  ended_call-Untouched :
      (user : ℕ) (uuid : Text) (hub : Option Hub) (w : W) (r : Result (Unit {0}) × W)
      → Refused w r
      → Untouched hub w (ended_call user uuid hub r)
  unfolding ended_call
  ended_call-Untouched user uuid hub w (ok _, w1) (e, failed, s, t) = cc
  ended_call-Untouched user uuid hub w (err x, w1) (e, _, s, t) = (hangup_error-fails x, refl, s, t)

  -- However Redis and FreeSWITCH behave, a request to hang up a given call is refused with another
  -- status than 200, with nothing changed in Redis, nothing sent to FreeSWITCH or to subscribers, or
  -- the call's metadata names the user.
  pub handle_hangup-Owns :
      (m : Manual) (user : ℕ) (uuid : Text) (hub : Option Hub) (w : W)
      → is_empty uuid ≡ false
      → Untouched hub w (handle_hangup (some m) user uuid hub w) ⊎ Owns user uuid w
  unfolding handle_hangup
  handle_hangup-Owns m user uuid hub w given = elim (hangup-Owns m user uuid w given) [
    | inl refused ↦ inl (ended_call-Untouched user uuid hub w (hangup m user uuid w) refused)
    | inr mine ↦ inr mine
  ]
