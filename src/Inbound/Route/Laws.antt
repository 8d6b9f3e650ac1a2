-- ===== src/Inbound/Route/Laws.antt =====
-- What Route decides, and what Apply undoes when the channel cannot be bridged.
use callvoice.Services.Commands.Inversion.{Same, esl_api-Same}
use callvoice.Esl.{is_killed, is_esl_ok, escape_fs}
use callvoice.Services.Commands.Silent.{
  Accepted, Told, Heard, is_esl_ok-Positive, esl_api-Told, esl_api-Heard,
}
use callvoice.Keys.{agent_key}
use callvoice.Common.{
  subst, pair_eq, ℕ, ◌≡◌, ◌≢◌, refl, ap, sym, ◌∙◌, ◌⊎◌, inl, inr, true, false, Bool-cases, some,
  List, [], map, Text, is_empty, arith, ◌==◌, Error, Result, ok, err, no_agent, unknown_did,
  esl_refused, codes, ◌++◌,
}
use callvoice.Services.{Services}
use callvoice.Services.Commands.{fail, W, esl_api, continue}
use callvoice.Services.Commands.Healthy.{Healthy}
use callvoice.Presence.{PresenceValue, state_available, state_on_call}
use callvoice.Presence.Laws.{said, presence_of, moved_to, OthersKept, release_on_call-restores}
use callvoice.Inbound.Number.{normalize_did, is_agent_pool}
use callvoice.Inbound.Scan.{first_available_agent}
use callvoice.Inbound.Scan.Laws.{Claimed, first_available_agent-Searched}
use callvoice.Inbound.Route.{
  killed, transfer_command, Did, Decision, Router, busy_decision, bridge_decision, route_agent,
  route_did, route, release_claimed, bridged, apply, apply_action, agent_sip_user,
}

module _ ⦃S : Services⦄ where
  -- The decisions on a called number: a bridge to an agent claimed for a pool DID, a rejection that
  -- changes nothing, or an error that changes nothing.
  abbrev pub Routed : Router → Text → W → Result Decision × W → Type 0
  Routed r number w after =
      ((d : Did) × (id : ℕ) × (r.lookup (normalize_did number) ≡ ok d)
        × (is_agent_pool d.destination ≡ true)
        × (after.0 ≡ ok (bridge_decision d id))
        × Claimed id w after.1)
      ⊎ ((did destination : Text) × (after ≡ (ok (busy_decision did destination), w)))
      ⊎ ((e : Error) × (after ≡ (err e, w)))

  search_found :
      (d : Did) (id : ℕ) (r : Result ℕ × W)
      → r.0 ≡ ok id
      → continue (route_agent d) (ok r.0, r.1) ≡ (ok (bridge_decision d id), r.1)
  unfolding route_agent
  search_found d id (ok i, w) e = let same_id : i ≡ id = cc in rw same_id
  search_found d id (err x, w) e = cc

  search_failed :
      (d : Did) (w : W) (r : Result ℕ × W)
      → r ≡ (err no_agent, w)
      → continue (route_agent d) (ok r.0, r.1) ≡ (ok (busy_decision d.number d.destination), w)
  unfolding route_agent
  search_failed d w r e = rw e

  route_did-Routed :
      (r : Router) (pages : List (List Text)) (number : Text) (w : W) (l : Result Did)
      → Healthy w
      → r.lookup (normalize_did number) ≡ l
      → Routed r number w (route_did r (map ok pages) (normalize_did number) l w)
  unfolding route_did
  route_did-Routed r pages number w (err unknown_did) h e =
      inr (inl (normalize_did number, [], refl))
  route_did-Routed r pages number w (err x) h e = inr (inr (_, refl))
  route_did-Routed r pages number w (ok d) h e = elim (Bool-cases (is_agent_pool d.destination)) [
    | inr outside ↦ rw outside (inr (inl (d.number, d.destination, refl)))
    | inl pool ↦ rw pool (elim (first_available_agent-Searched r.pres pages w h) [
      | inl (id, found, claimed) ↦
          rw (search_found d id (first_available_agent r.pres (map ok pages) w) found)
            (inl (d, id, e, pool, refl, claimed))
      | inr (nobody, missed) ↦
          rw (search_failed d w (first_available_agent r.pres (map ok pages) w) nobody)
            (inr (inl (d.number, d.destination, refl)))
    ])
  ]

  -- If Redis answers, every call of Route ends in one of these ways.
  pub route-Routed :
      (r : Router) (pages : List (List Text)) (number : Text) (w : W)
      → Healthy w
      → Routed r number w (route r (map ok pages) number w)
  unfolding route
  route-Routed r pages number w h = elim (Bool-cases (is_empty (normalize_did number))) [
    | inl none_given ↦ rw none_given (inr (inr (unknown_did, refl)))
    | inr given ↦
        rw given (route_did-Routed r pages number w (r.lookup (normalize_did number)) h refl)
  ]

  -- The agent is as before the claim, and no other key is touched.
  abbrev pub Restored : ℕ → W → W → Type 0
  Restored id w w' =
      (v : PresenceValue)
      → v.state ≡ state_available
      → presence_of id w ≡ some (ok (moved_to state_on_call v))
      → (presence_of id w' ≡ some (ok v)) × OthersKept id w w'

  moved_back :
      (v u : PresenceValue)
      → v.state ≡ state_available
      → moved_to state_on_call v ≡ u
      → moved_to state_available u ≡ v
  moved_back v u at e = rw (← e) (λ i. record { state = sym at i; campaign_id = v.campaign_id })

  release-Restored :
      (r : Router) (id : ℕ) (w : W) → id ≢ 0 → Healthy w → Restored id w (release_claimed r id w).1
  unfolding release_claimed
  release-Restored r id w ne h v at on =
      rw (zero_test id ne) (elim (release_on_call-restores r.pres id w h).1 [
        | inl (u, said_u, was, now, kept) ↦
            let same_value : moved_to state_on_call v ≡ u = cc in
            (rw now (rw (moved_back v u at same_value)), kept)
        | inr (never, same) ↦ absurd (never (moved_to state_on_call v) on refl)
      ])
    where
      zero_test : (n : ℕ) → n ≢ 0 → (n == 0) ≡ false
      zero_test n ne = ground arith

  -- The command that bridges a channel to an agent's phone.
  abbrev pub transfer_text : Text → ℕ → Text
  transfer_text channel_uuid id =
      codes "uuid_transfer "
      ++ (channel_uuid
          ++ (codes " bridge:user/"
              ++ (escape_fs (codes "agent-" ++ S.uuid_string id) ++ codes " inline")))

  -- How an attempt to bridge ends: with the transfer sent and answered with +OK, and Redis
  -- untouched, or with an error and the claimed agent restored.
  abbrev pub Bridged : Text → ℕ → W → Result (Unit {0}) × W → Type 0
  Bridged channel_uuid id w after =
      ((after.0 ≡ ok tt)
        × (after.1.store ≡ w.store)
        × Accepted (transfer_text channel_uuid id) w after.1)
      ⊎ ((e : Error) × (after.0 ≡ err e) × Restored id w after.1)

  Restored-from : (id : ℕ) (w w1 w' : W) → w1.store ≡ w.store → Restored id w1 w' → Restored id w w'
  Restored-from id w w1 w' e restored v at on =
      let (now, kept) = restored v at (
        subst (λ s. said (S.read s (agent_key id)) ≡ some (ok (moved_to state_on_call v))) (sym e)
          on) in
      (now, λ j ne. kept j ne ∙ ap (λ s. S.read s j) e)

  release_ok : (r : Router) (id : ℕ) (w : W) → (release_claimed r id w).0 ≡ ok tt
  unfolding release_claimed
  release_ok r id w = ground arith

  -- The error path of a bridge: the claim is released, then the error is returned.
  released :
      (r : Router) (c : Text) (id : ℕ) (e : Error) (w w1 : W)
      → id ≢ 0
      → Same w w1
      → Healthy w
      → Bridged c id w (continue (λ _. fail {A = Unit {0}} e) (release_claimed r id w1))
  released r c id e w w1 ne (es, eo) h =
      rw (pair_eq {p = release_claimed r id w1} (release_ok r id w1) refl) (
        inr (
          e,
          refl,
          Restored-from id w w1 (release_claimed r id w1).1 es
              (release-Restored r id w1 ne (eo ∙ h)),
        ))

  bridged-Bridged :
      (r : Router) (c : Text) (d : Did) (id : ℕ) (reply : Result Text) (w w1 : W)
      → id ≢ 0
      → Same w w1
      → Healthy w
      → Told (transfer_text c id) w w1
      → Heard reply w w1
      → Bridged c id w (bridged r (bridge_decision d id) reply w1)
  unfolding bridged
  bridged-Bridged r c d id (err e) w w1 ne same h told heard = released r c id e w w1 ne same h
  bridged-Bridged r c d id (ok body) w w1 ne same h told heard =
      elim (Bool-cases (is_esl_ok body)) [
        | inl accepted ↦
            rw accepted (
              inl (refl, same.0, (told, (body, heard body refl, is_esl_ok-Positive body accepted))))
        | inr rejected ↦ rw rejected (released r c id esl_refused w w1 ne same h)
      ]

  apply_connected :
      (r : Router) (c : Text) (dec : Decision) (w : W)
      → r.esl ≡ true
      → apply r c dec w ≡ apply_action r c dec dec.action w
  unfolding apply
  apply_connected r c dec w up = simp up

  pub apply-Bridged :
      (r : Router) (channel_uuid : Text) (d : Did) (id : ℕ) (w : W)
      → r.esl ≡ true
      → id ≢ 0
      → Healthy w
      → Bridged channel_uuid id w (apply r channel_uuid (bridge_decision d id) w)
  unfolding apply_action transfer_command agent_sip_user
  apply-Bridged r c d id w up ne h =
      let command = transfer_command c (agent_sip_user id) in
      rw (apply_connected r c (bridge_decision d id) w up, apply_action)
        (bridged-Bridged r c d id (esl_api command w).0 w (esl_api command w).1 ne
          (esl_api-Same command w) h (esl_api-Told command w) (esl_api-Heard command w))

  killed_store : (r : Result Text × W) → (continue killed r).1.store ≡ r.1.store
  unfolding killed
  killed_store (ok body, w) = elim (Bool-cases (is_killed body)) [
    | inl gone ↦ rw gone
    | inr left ↦ rw left
  ]
  killed_store (err e, w) = refl

  -- A rejection leaves Redis alone.
  pub store-apply_busy :
      (r : Router) (c did destination : Text) (w : W)
      → (apply r c (busy_decision did destination) w).1.store ≡ w.store
  unfolding apply apply_action
  store-apply_busy r c did destination w = elim (Bool-cases r.esl) [
    | inl up ↦ simp up (killed_store (esl_api _ w) ∙ (esl_api-Same _ w).0)
    | inr down ↦ simp down
  ]
