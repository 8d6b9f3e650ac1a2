-- ===== src/Inbound/Events/Laws.antt =====
-- Events for one channel: the first is handled, later ones are ignored, and one that fails leaves no
-- trace.
use callvoice.Keys.{agent_key, eqb-agent_key}
use callvoice.Common.{
  ==_iff, ℕ, ◌≡◌, ◌≢◌, refl, ap, sym, ◌∙◌, ◌⊎◌, inl, inr, true, false, Bool-cases, none, some, List,
  [], ◌∷◌, map, Text, is_empty, arith, eqb, eqb_refl, Error, Result, ok, err, ◌==◌,
}
use callvoice.Services.{Services}
use callvoice.Services.Commands.{W}
use callvoice.Services.Commands.Healthy.{Healthy}
use callvoice.Presence.{PresenceValue, state_available, state_on_call}
use callvoice.Presence.Laws.{said, presence_of, moved_to}
use callvoice.Inbound.Scan.Laws.{Claimed}
use callvoice.Inbound.Route.{Did, Decision, Router, busy_decision, bridge_decision, route, apply}
use callvoice.Inbound.Route.Laws.{
  store-apply_busy, route-Routed, Bridged, Restored, apply-Bridged, transfer_text,
}
use callvoice.Inbound.Route.Sent.{route-Calm}
use callvoice.Services.Commands.Silent.{Calm, Accepted, Calm-Accepted}
use callvoice.Inbound.Events.{Event, member, delete, Handled, handle_event, routed, applied}

delete_absent : (c : Text) (xs : List Text) → member c xs ≡ false → delete c xs ≡ xs
unfolding member delete
delete_absent c [] h = refl
delete_absent c (x ∷ xs) h = ground (arith, delete_absent c xs)

delete_self : (c : Text) (xs : List Text) → member c xs ≡ false → delete c (c ∷ xs) ≡ xs
unfolding delete
delete_self c xs h = rw (eqb_refl c) (delete_absent c xs h)

member_self : (c : Text) (xs : List Text) → member c (c ∷ xs) ≡ true
unfolding member
member_self c xs = rw (eqb_refl c)

module _ ⦃S : Services⦄ where
  -- A call that ends with no error has its channel in `seen`; one that ends with an error has not.
  Tracked : Text → List Text → Handled W → Type 0
  Tracked c seen after =
      ((after.error ≡ none) × (after.seen ≡ c ∷ seen))
      ⊎ ((e : Error) × (after.error ≡ some e) × (after.seen ≡ seen))

  applied-Tracked :
      (c : Text) (seen : List Text) (dec : Decision) (r : Result (Unit {0}) × W)
      → member c seen ≡ false
      → Tracked c seen (applied c (c ∷ seen) dec r)
  unfolding Tracked applied
  applied-Tracked c seen dec (ok t, w) new = inl (refl, refl)
  applied-Tracked c seen dec (err e, w) new = inr (e, refl, delete_self c seen new)

  routed-Tracked :
      (r : Router) (c : Text) (seen : List Text) (d : Result Decision × W)
      → member c seen ≡ false
      → Tracked c seen (routed r c (c ∷ seen) d)
  unfolding routed Tracked
  routed-Tracked r c seen (ok dec, w) new = applied-Tracked c seen dec (apply r c dec w) new
  routed-Tracked r c seen (err e, w) new = inr (e, refl, delete_self c seen new)

  fresh_event :
      (r : Router) (pages : List (Result (List Text))) (ev : Event) (seen : List Text) (w : W)
      → is_empty ev.channel_uuid ≡ false
      → member ev.channel_uuid seen ≡ false
      → handle_event r pages ev seen w
        ≡ routed r ev.channel_uuid (ev.channel_uuid ∷ seen) (route r pages ev.did w)
  unfolding handle_event
  fresh_event r pages ev seen w named new = simp (named, new)

  ignored_event :
      (r : Router) (pages : List (Result (List Text))) (ev : Event) (seen : List Text) (w : W)
      → is_empty ev.channel_uuid ≡ false
      → member ev.channel_uuid seen ≡ true
      → handle_event r pages ev seen w
        ≡ record { decision = none; error = none; seen = seen; world = w }
  unfolding handle_event
  ignored_event r pages ev seen w named old = simp (named, old)

  -- However Redis and FreeSWITCH behave: after an event for a channel not seen before, either it is
  -- done with no error, and any later event for the channel decides nothing and changes nothing; or
  -- it failed, and the channel can be handled anew as if it had not come.
  pub handle_event_once :
      (r : Router) (pages later : List (Result (List Text))) (ev : Event) (did : Text)
      (seen : List Text) (w : W)
      → is_empty ev.channel_uuid ≡ false
      → member ev.channel_uuid seen ≡ false
      → let after = handle_event r pages ev seen w in
        ((after.error ≡ none)
          × (handle_event r later (record ev { did = did }) after.seen after.world
              ≡ record { decision = none; error = none; seen = after.seen; world = after.world }))
        ⊎ ((e : Error) × (after.error ≡ some e) × (after.seen ≡ seen))
  unfolding Tracked
  handle_event_once r pages later ev did seen w named new =
      let c = ev.channel_uuid in
      rw (fresh_event r pages ev seen w named new)
        (elim (routed-Tracked r c seen (route r pages ev.did w) new) [
          | inl (fine, kept) ↦ inl (
            fine,
            ignored_event r later (record ev { did = did }) _ _ named
                (rw kept (member_self c seen)),
          )
          | inr failed ↦ inr failed
        ])

  unclaimed_zero : (id : ℕ) (w w' : W) → presence_of 0 w ≡ none → Claimed id w w' → id ≢ 0
  unclaimed_zero id w w' nobody claim e =
      let zero_said : presence_of 0 w ≡ some (ok claim.0) = rw (← e) claim.1 in
      cc (nobody, zero_said)

  -- A claim that is restored leaves every agent as he was.
  Restored-all :
      (id : ℕ) (w w1 w2 : W)
      → Claimed id w w1
      → Restored id w1 w2
      → (u : ℕ) → presence_of u w2 ≡ presence_of u w
  Restored-all id w w1 w2 (v, at, ready, now, kept, _) restored u =
      let (back, still) = restored v ready now in
      elim (Bool-cases (id == u)) [
        | inl same ↦ let e : id ≡ u = (==_iff id u).0 same in rw (← e) (back ∙ sym at)
        | inr apart ↦
            let ne : eqb (agent_key id) (agent_key u) ≡ false = eqb-agent_key id u ∙ apart in
            ap said (still (agent_key u) ne ∙ kept (agent_key u) ne)
      ]

  -- What one event makes of the agents: one is claimed, the decision to bridge him stands
  -- and FreeSWITCH has accepted the transfer, or
  -- every agent is as before.
  abbrev pub AllOrNothing : Router → Event → W → Handled W → Type 0
  AllOrNothing r ev w after =
      ((d : Did) × (id : ℕ) × (v : PresenceValue) × (after.error ≡ none)
        × (after.decision ≡ some (bridge_decision d id))
        × (presence_of id w ≡ some (ok v))
        × (v.state ≡ state_available)
        × (presence_of id after.world ≡ some (ok (moved_to state_on_call v)))
        × Accepted (transfer_text ev.channel_uuid id) w after.world)
      ⊎ ((u : ℕ) → presence_of u after.world ≡ presence_of u w)

  abbrev Unmoved : W → Handled W → Type 0
  Unmoved w after = (u : ℕ) → presence_of u after.world ≡ presence_of u w

  applied-Bridged :
      (r : Router) (ev : Event) (seen : List Text) (d : Did) (id : ℕ) (w w1 : W)
      (q : Result (Unit {0}) × W)
      → Claimed id w w1
      → Calm w w1
      → Bridged ev.channel_uuid id w1 q
      → AllOrNothing r ev w (applied ev.channel_uuid seen (bridge_decision d id) q)
  unfolding applied
  applied-Bridged r ev seen d id w w1 (ok t, w2) (v, at, ready, now, kept, _) calm
        (inl (_, same, said)) =
      inl (d, id, v, refl, refl, at, ready, rw same now, Calm-Accepted _ w w1 w2 calm said)
  applied-Bridged r ev seen d id w w1 (err e, w2) claimed calm (inl (no_error, same, _)) = cc
  applied-Bridged r ev seen d id w w1 (ok t, w2) claimed calm (inr (e, failed, restored)) = cc
  applied-Bridged r ev seen d id w w1 (err x, w2) claimed calm (inr (e, failed, restored)) =
      inr (Restored-all id w w1 w2 claimed restored)

  applied_world :
      (c : Text) (seen : List Text) (dec : Decision) (q : Result (Unit {0}) × W)
      → (applied c seen dec q).world ≡ q.1
  unfolding applied
  applied_world c seen dec (ok t, w) = refl
  applied_world c seen dec (err e, w) = refl

  routed_ok :
      (r : Router) (c : Text) (seen : List Text) (q : Result Decision × W) (dec : Decision)
      → q.0 ≡ ok dec
      → routed r c seen q ≡ applied c seen dec (apply r c dec q.1)
  unfolding routed
  routed_ok r c seen (ok d, w) dec e = let same : d ≡ dec = cc in rw same
  routed_ok r c seen (err x, w) dec e = cc

  routed_err :
      (r : Router) (c : Text) (seen : List Text) (q : Result Decision × W) (e : Error) (w : W)
      → q ≡ (err e, w)
      → (routed r c seen q).world ≡ w
  unfolding routed
  routed_err r c seen q e w same = rw same

  -- If Redis answers, one event for a channel not seen before either sends the transfer of
  -- the channel to the phone of one agent, which FreeSWITCH answers with +OK, and the agent was
  -- available and is on_call with his campaign; or leaves every agent as he was. The router has its command connection, and no agent is named by `uuid.Nil`.
  pub handle_event-AllOrNothing :
      (r : Router) (pages : List (List Text)) (ev : Event) (seen : List Text) (w : W)
      → r.esl ≡ true
      → presence_of 0 w ≡ none
      → Healthy w
      → is_empty ev.channel_uuid ≡ false
      → member ev.channel_uuid seen ≡ false
      → AllOrNothing r ev w (handle_event r (map ok pages) ev seen w)
  handle_event-AllOrNothing r pages ev seen w up nobody h named new =
      let c = ev.channel_uuid in
      rw (fresh_event r (map ok pages) ev seen w named new)
        (elim (route-Routed r pages ev.did w h) [
          | inl (d, id, found, pool, dec, claimed) ↦
              rw (routed_ok r c (c ∷ seen) (route r (map ok pages) ev.did w) _ dec) (
                applied-Bridged r ev (c ∷ seen) d id w (route r (map ok pages) ev.did w).1 _ claimed
                  (route-Calm r (map ok pages) ev.did w)
                  (apply-Bridged r c d id (route r (map ok pages) ev.did w).1 up
                    (unclaimed_zero id w (route r (map ok pages) ev.did w).1 nobody claimed)
                    claimed.5))
          | inr (inl (did, destination, e)) ↦
              rw
                (routed_ok r c (c ∷ seen) (route r (map ok pages) ev.did w)
                  (busy_decision did destination) (ap (λ q. q.0) e))
                (inr λ u. rw (applied_world c (c ∷ seen) (busy_decision did destination) _) (
                  ap (λ s. said (S.read s (agent_key u)))
                    (store-apply_busy r c did destination (route r (map ok pages) ev.did w).1
                      ∙ ap (λ q. q.1.store) e)))
          | inr (inr (e, failed)) ↦ inr λ u. rw (routed_err r c (c ∷ seen) _ e w failed)
        ])
