-- ===== src/Dialer/Originate/Rounds.antt =====
-- The channel accounting of the rounds of Originate: each takes one channel of a carrier with room and
-- places the call, or leaves the counters as they were.
use mathlib.Core.List.{Memᴰ}
use callvoice.Common.{
  ℕ, suc, ◌≡◌, refl, ap, ◌∙◌, ◌⊎◌, inl, inr, Bool, true, false, Bool-cases, Option, some, List, [],
  ◌∷◌, ◌++◌, Text, codes, eqb, Error, Result, ok, err, pair_eq,
}
use callvoice.Common.Int.{ℤ, below}
use callvoice.Services.{Services, counter}
use callvoice.Services.Commands.{W, continue, esl_api, new_uuid}
use callvoice.Services.Commands.Healthy.{Healthy, publish-Healthy}
use callvoice.Services.Commands.Inversion.{Same, esl_api-Same}
use callvoice.Services.Commands.Silent.{
  Progress, Progress-trans, Calm-Progress, LastAccepted, LastAccepted-from, Accepted-last,
  Accepted-Calm, Told, Heard, esl_api-Told, esl_api-Heard, esl_api-Progress, is_esl_ok-Positive,
}
use callvoice.Dialer.Command.Laws.{originate_text, build_originate-text}
use callvoice.Keys.{channel_key}
use callvoice.Cps.{allow_carrier, carrier_key, window_key}
use callvoice.Cps.Window.{allow-other_key, allow-Healthy, allow-Calm}
use callvoice.Esl.{is_esl_ok}
use callvoice.Dialer.Command.{build_originate}
use callvoice.Dialer.Calls.{Carrier, OutboundRequest, channel_available, track_call}
use callvoice.Dialer.Calls.Laws.{
  counter_of, Quiet, Tracked, track_call-Calm, track_call-Tracked, channel_available-Available,
}
use callvoice.Dialer.Originate.{
  OutboundResult, Attempt, disabled, full, failed, placed, result_of, tracked, answered_event,
  gateway_answered, send, place, limit, try_carrier, next_carrier, out_of_carriers, originate_each,
}

abbrev is_placed : Attempt → Bool
is_placed (placed r) = true
is_placed disabled = false
is_placed full = false
is_placed (failed e) = false

module _ ⦃S : Services⦄ where
  -- The command of a call over a carrier.
  abbrev pub call_text : OutboundRequest → Carrier → Text → Text
  call_text req c call_uuid =
      originate_text (codes "agent-" ++ S.uuid_string req.agent_id) (S.uuid_string c.id) req.to
        req.caller_id call_uuid

  -- The call is placed over an enabled carrier that had a channel to spare, and recorded; its
  -- command is the last one sent, and the reply to it begins with +OK.
  abbrev pub Placed : OutboundRequest → Carrier → Text → W → W → Type 0
  Placed req c call_uuid w w' =
      (c.enabled ≡ true)
      × ((n : ℤ) × (below n c.max_channels ≡ true) × Tracked req c.id call_uuid n w w')
      × LastAccepted (call_text req c call_uuid) w w'

  -- How one round ends: the loop goes on or stops with an error, all counters as before, or the
  -- call is placed.
  abbrev Tried : OutboundRequest → Carrier → W → Result Attempt × W → Type 0
  Tried req c w after =
      ((a : Attempt) × (is_placed a ≡ false) × (after.0 ≡ ok a) × Quiet w after.1)
      ⊎ ((e : Error) × (after.0 ≡ err e) × Quiet w after.1)
      ⊎ ((t : Text) × (after.0 ≡ ok (placed (result_of req c t))) × Placed req c t w after.1)

  pub Quiet-trans : (w w1 w2 : W) → Quiet w w1 → Quiet w1 w2 → Quiet w w2
  Quiet-trans w w1 w2 (k, h, p) (k', h', p') = (λ u. k' u ∙ k u, h', Progress-trans w w1 w2 p p')

  Tracked-from :
      (req : OutboundRequest) (u : ℕ) (t : Text) (n : ℤ) (w w1 w2 : W)
      → Quiet w w1
      → Tracked req u t n w1 w2
      → Tracked req u t n w w2
  Tracked-from req u t n w w1 w2 (k, h, _) (was, now, others, meta, call) =
      (rw (← k u) was, now, λ j ne. others j ne ∙ k j, meta, call)

  Placed-from :
      (req : OutboundRequest) (c : Carrier) (t : Text) (w w1 w2 : W)
      → Quiet w w1
      → Placed req c t w1 w2
      → Placed req c t w w2
  Placed-from req c t w w1 w2 q (on, (n, room, made), said) = (
    on,
    (n, room, Tracked-from req c.id t n w w1 w2 q made),
    LastAccepted-from (call_text req c t) w w1 w2 q.2 said,
  )

  Tried-from :
      (req : OutboundRequest) (c : Carrier) (w w1 : W) (after : Result Attempt × W)
      → Quiet w w1
      → Tried req c w1 after
      → Tried req c w after
  Tried-from req c w w1 after q (inl (a, left, r, q')) =
      inl (a, left, r, Quiet-trans w w1 after.1 q q')
  Tried-from req c w w1 after q (inr (inl (e, r, q'))) =
      inr (inl (e, r, Quiet-trans w w1 after.1 q q'))
  Tried-from req c w w1 after q (inr (inr (t, r, p))) =
      inr (inr (t, r, Placed-from req c t w w1 after.1 q p))

  pub still : (w : W) → Healthy w → Quiet w w
  still w h = (λ u. refl, h, (([], refl), ([], refl)))

  Same-Quiet : (w w1 : W) → Same w w1 → Progress w w1 → Healthy w → Quiet w w1
  Same-Quiet w w1 (es, eo) p h = (λ u. ap (λ s. S.read s (channel_key u)) es, eo ∙ h, p)

  tracked_eq :
      (req : OutboundRequest) (c : Carrier) (t : Text) (w : W)
      → Healthy w
      → tracked req c t (ok tt) w
        ≡ (ok (placed (result_of req c t)), record w { events = answered_event req c t ∷ w.events })
  unfolding tracked
  tracked_eq req c t w h = rw (publish-Healthy (answered_event req c t) w h)

  module _ (req : OutboundRequest) (c : Carrier) (on : c.enabled ≡ true) where
    -- The carrier has room when the round starts.
    abbrev Room : W → Type 0
    Room w = (n : ℤ) × (counter (counter_of c.id w) ≡ some n) × (below n c.max_channels ≡ true)

    Room-after : (w w1 : W) → Quiet w w1 → Room w → Room w1
    Room-after w w1 (k, h, _) (n, e, free) = (n, rw (k c.id) e, free)

    gateway_answered-Tried :
        (t : Text) (reply : Result Text) (w0 w : W)
        → Quiet w0 w
        → Room w0
        → Told (call_text req c t) w0 w
        → Heard reply w0 w
        → Tried req c w0 (gateway_answered req c t reply w)
    unfolding gateway_answered
    gateway_answered-Tried t (err e) w0 w q room told heard = inl (failed e, refl, refl, q)
    gateway_answered-Tried t (ok body) w0 w q room told heard = elim (Bool-cases (is_esl_ok body)) [
      | inr refused ↦ rw refused (inl (failed _, refl, refl, q))
      | inl accepted ↦
          let (n, e, free) = Room-after w0 w q room in
          let (reply, made, healthy) = track_call-Tracked req c.id t w n q.1 e in
          let w1 = (track_call req c.id t w).1 in
          rw
            (
              accepted,
              pair_eq {p = track_call req c.id t w} reply refl,
              tracked_eq req c t w1 healthy,
            )
            (inr (
              inr (
                t,
                refl,
                (
                  on,
                  (n, free, Tracked-from req c.id t n w0 w w1 q made),
                  Accepted-last (call_text req c t) w0 w1 (
                      Accepted-Calm (call_text req c t) w0 w w1
                        (told, (body, heard body refl, is_esl_ok-Positive body accepted))
                        (track_call-Calm req c.id t w)),
                ),
              )))
    ]

    send-Tried :
        (t : Text) (command : Result Text) (w : W)
        → Healthy w
        → Room w
        → ((x : Text) → command ≡ ok x → x ≡ call_text req c t)
        → Tried req c w (send req c t command w)
    unfolding send
    send-Tried t (err e) w h room text = inr (inl (e, refl, still w h))
    send-Tried t (ok command) w h room text =
        let w1 = (esl_api command w).1 in
        let q = Same-Quiet w w1 (esl_api-Same command w) (esl_api-Progress command w) h in
        gateway_answered-Tried t (esl_api command w).0 w w1 q room
          (esl_api-Told command w ∙ ap (λ x. x ∷ w.sent) (text command refl))
          (esl_api-Heard command w)

    place-Tried :
        (allowed : Bool) (w : W) → Healthy w → Room w → Tried req c w (place req c allowed w)
    unfolding place new_uuid
    place-Tried false w h room = inl (full, refl, refl, still w h)
    place-Tried true w h room =
        let call_uuid = S.uuid_string (w.fresh w.drawn) in
        let command =
          build_originate (codes "agent-" ++ S.uuid_string req.agent_id) (S.uuid_string c.id) req.to
            req.caller_id call_uuid in
        send-Tried call_uuid command (record w { drawn = suc w.drawn }) h room
          (λ x e.
            (build_originate-text (codes "agent-" ++ S.uuid_string req.agent_id)
              (S.uuid_string c.id) req.to req.caller_id call_uuid x e).3)

    placed_or_not :
        (w : W) (r : Result Bool × W)
        → Quiet w r.1
        → Room w
        → Tried req c w (continue (place req c) r)
    placed_or_not w (err e, w1) q room = inr (inl (e, refl, q))
    placed_or_not w (ok allowed, w1) q room =
        Tried-from req c w w1 (place req c allowed w1) q
          (place-Tried allowed w1 q.1 (Room-after w w1 q room))

    allow_carrier-Quiet :
        (id : Text) (max_cps now : ℕ) (w : W)
        → Healthy w
        → Quiet w (allow_carrier id max_cps now w).1
    unfolding allow_carrier window_key carrier_key channel_key eqb
    allow_carrier-Quiet id m now w h = (
      λ u. allow-other_key (carrier_key id) m now w (channel_key u) refl,
      allow-Healthy (carrier_key id) m now w h,
      Calm-Progress w (allow_carrier id m now w).1 (allow-Calm (carrier_key id) m now w),
    )

    limit-Tried : (now : ℕ) (w : W) → Healthy w → Room w → Tried req c w (limit req now c true w)
    unfolding limit
    limit-Tried now w h room =
        placed_or_not w (allow_carrier (S.uuid_string c.id) c.max_cps now w)
          (allow_carrier-Quiet (S.uuid_string c.id) c.max_cps now w h) room

    enabled_eq :
        (now : ℕ) (w : W)
        → try_carrier req now c w ≡ continue (limit req now c) (channel_available c w)
    unfolding try_carrier
    enabled_eq now w = simp on

    try_enabled : (now : ℕ) (w : W) → Healthy w → Tried req c w (try_carrier req now c w)
    unfolding limit
    try_enabled now w h = rw (enabled_eq now w) (elim (channel_available-Available c w h) [
      | inl (n, e, free, r) ↦ rw r (limit-Tried now w h (n, e, free))
      | inr (inl r) ↦ rw r (inl (full, refl, refl, still w h))
      | inr (inr (e, r)) ↦ rw r (inr (inl (e, refl, still w h)))
    ])

  try_carrier-Tried :
      (req : OutboundRequest) (now : ℕ) (c : Carrier) (w : W)
      → Healthy w
      → Tried req c w (try_carrier req now c w)
  unfolding try_carrier
  try_carrier-Tried req now c w h = elim (Bool-cases c.enabled) [
    | inl on ↦ try_enabled req c on now w h
    | inr off ↦ rw off (inl (disabled, refl, refl, still w h))
  ]

  -- How Originate ends: a call is placed over one of the carriers, or there is an error and every
  -- counter is as it was.
  abbrev pub Originated : OutboundRequest → List Carrier → W → Result OutboundResult × W → Type 0
  Originated req cs w after =
      ((c : Carrier) × (t : Text) × Memᴰ c cs
        × (after.0 ≡ ok (result_of req c t))
        × Placed req c t w after.1)
      ⊎ ((e : Error) × (after.0 ≡ err e) × Quiet w after.1)

  pub Originated-from :
      (req : OutboundRequest) (cs : List Carrier) (w w1 : W) (after : Result OutboundResult × W)
      → Quiet w w1
      → Originated req cs w1 after
      → Originated req cs w after
  Originated-from req cs w w1 after q (inl (d, t, m, r, p)) =
      inl (d, t, m, r, Placed-from req d t w w1 after.1 q p)
  Originated-from req cs w w1 after q (inr (e, r, q')) = inr (e, r, Quiet-trans w w1 after.1 q q')

  one_more :
      (req : OutboundRequest) (c : Carrier) (cs : List Carrier) (w : W)
      (after : Result OutboundResult × W)
      → Originated req cs w after
      → Originated req (c ∷ cs) w after
  one_more req c cs w after (inl (d, t, m, r, p)) = inl (d, t, Memᴰ.tail m, r, p)
  one_more req c cs w after (inr failure) = inr failure

  Originated-cons :
      (req : OutboundRequest) (c : Carrier) (cs : List Carrier) (w w1 : W)
      (after : Result OutboundResult × W)
      → Quiet w w1
      → Originated req cs w1 after
      → Originated req (c ∷ cs) w after
  Originated-cons req c cs w w1 after q o =
      one_more req c cs w after (Originated-from req cs w w1 after q o)

  -- After a round that goes on, the rest of the carriers decide.
  goes_on :
      (req : OutboundRequest) (now : ℕ) (c : Carrier) (cs : List Carrier) (w w1 : W)
      (rest : (tried : ℕ) (last : Option Error)
        → Originated req cs w1 (originate_each req now cs tried last w1))
      (a : Attempt) (tried : ℕ) (last : Option Error)
      → is_placed a ≡ false
      → Quiet w w1
      → Originated req (c ∷ cs) w (next_carrier (originate_each req now cs) tried last a w1)
  unfolding next_carrier
  goes_on req now c cs w w1 rest disabled tried last left q =
      Originated-cons req c cs w w1 (originate_each req now cs tried last w1) q (rest tried last)
  goes_on req now c cs w w1 rest full tried last left q =
      Originated-cons req c cs w w1 (originate_each req now cs (suc tried) last w1) q
        (rest (suc tried) last)
  goes_on req now c cs w w1 rest (failed e) tried last left q =
      Originated-cons req c cs w w1 (originate_each req now cs (suc tried) (some e) w1) q
        (rest (suc tried) (some e))
  goes_on req now c cs w w1 rest (placed r) tried last left q = cc

  pub originate_each-Originated :
      (req : OutboundRequest) (now : ℕ) (cs : List Carrier) (tried : ℕ) (last : Option Error)
      (w : W)
      → Healthy w
      → Originated req cs w (originate_each req now cs tried last w)
  unfolding originate_each next_carrier
  originate_each-Originated req now [] tried last w h =
      inr (out_of_carriers tried last, refl, still w h)
  originate_each-Originated req now (c ∷ cs) tried last w h =
      let w1 = (try_carrier req now c w).1 in
      elim (try_carrier-Tried req now c w h) [
        | inl (a, left, r, q) ↦ rw (pair_eq {p = try_carrier req now c w} r refl) (
            goes_on req now c cs w w1
              (λ tried' last'. originate_each-Originated req now cs tried' last' w1 q.1) a tried
              last left q)
        | inr (inl (e, r, q)) ↦ rw (pair_eq {p = try_carrier req now c w} r refl) (inr (e, refl, q))
        | inr (inr (t, r, p)) ↦
            rw (pair_eq {p = try_carrier req now c w} r refl) (inl (c, t, Memᴰ.head refl, refl, p))
      ]
