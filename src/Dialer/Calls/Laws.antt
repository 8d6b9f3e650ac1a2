-- ===== src/Dialer/Calls/Laws.antt =====
-- The channel counters, and the record of a call that trackCall writes.
use callvoice.Common.{
  ℕ, ◌≡◌, refl, sym, ◌⊎◌, inl, inr, Bool, true, false, Bool-cases, Option, none, some, Text,
  eqb_refl, ◌==◌, ==_refl, Error, Result, ok, err,
}
use callvoice.Common.Int.{ℤ, pos, add_one, below}
use callvoice.Services.{Services, Value, number, text, object, counter, counted}
use callvoice.Services.Commands.{W, incr}
use callvoice.Services.Commands.Healthy.{
  Healthy, stored, get-Healthy, incr-Healthy, transaction-Healthy,
}
use callvoice.Services.Commands.Silent.{Progress, Calm, continue-Calm, incr-Calm, transaction-Calm}
use callvoice.Keys.{agent_call_key, call_meta_key, channel_key, key_laws}
use callvoice.Dialer.Calls.{
  Carrier, OutboundRequest, CallMeta, encode_meta, channel_count, channel_available, call_meta,
  write_call, track_call, continue_tracking, parse_count,
}

pub counted-counter :
    (f : ℤ → ℤ) (v : Option Value) (n : ℤ) → counter v ≡ some n → counted f v ≡ some (number (f n))
counted-counter f none n e = let same : pos 0 ≡ n = cc in rw same
counted-counter f (some (number m)) n e = let same : m ≡ n = cc in rw same
counted-counter f (some (text t)) n e = cc
counted-counter f (some (object fs)) n e = cc

module _ ⦃S : Services⦄ where
  -- What Redis holds under the counter of a carrier.
  abbrev pub counter_of : ℕ → W → Option Value
  counter_of carrier_id w = S.read w.store (channel_key carrier_id)

  -- The counters of all carriers but one are as before.
  abbrev pub OtherCountersKept : ℕ → W → W → Type 0
  OtherCountersKept carrier_id w w' =
      (u : ℕ) → (carrier_id == u) ≡ false → counter_of u w' ≡ counter_of u w

  -- The counters of all carriers are as before, and Redis still answers; FreeSWITCH may have been
  -- asked something.
  abbrev pub Quiet : W → W → Type 0
  Quiet w w' = ((u : ℕ) → counter_of u w' ≡ counter_of u w) × Healthy w' × Progress w w'

  -- A call is recorded: its carrier has one channel more, and its metadata and its agent's key are
  -- written.
  abbrev pub Tracked : OutboundRequest → ℕ → Text → ℤ → W → W → Type 0
  Tracked req carrier_id call_uuid n w w' =
      (counter_of carrier_id w ≡ some (number n) ⊎ (counter_of carrier_id w ≡ none) × (n ≡ pos 0))
      × (counter_of carrier_id w' ≡ some (number (add_one n)))
      × OtherCountersKept carrier_id w w'
      × ((m : CallMeta) × (S.read w'.store (call_meta_key call_uuid) ≡ some (encode_meta m))
          × (m.agent_id ≡ S.uuid_string req.agent_id)
          × (m.carrier_id ≡ S.uuid_string carrier_id)
          × (m.to ≡ req.to))
      × (S.read w'.store (agent_call_key req.agent_id) ≡ some (text call_uuid))

  counter_known :
      (v : Option Value) (n : ℤ)
      → counter v ≡ some n
      → (v ≡ some (number n)) ⊎ (v ≡ none) × (n ≡ pos 0)
  counter_known none n e = let same : pos 0 ≡ n = cc in inr (refl, sym same)
  counter_known (some (number m)) n e = let same : m ≡ n = cc in inl (rw same)
  counter_known (some (text t)) n e = cc
  counter_known (some (object fs)) n e = cc

  counter-incr :
      (u : ℕ) (w : W) (n : ℤ)
      → counter (counter_of u w) ≡ some n
      → S.read (S.incr (channel_key u) w.store) (channel_key u) ≡ some (number (add_one n))
  counter-incr u w n e = rw (S.read-incr, eqb_refl, counted-counter add_one (counter_of u w) n e)

  track_eq :
      (req : OutboundRequest) (u : ℕ) (t : Text) (w : W) (n : ℤ)
      → Healthy w
      → counter (counter_of u w) ≡ some n
      → track_call req u t w ≡ (
        ok tt,
        stored w
            (write_call t req.agent_id (call_meta req u w.now) (S.incr (channel_key u) w.store)),
      )
  unfolding track_call continue_tracking
  track_eq req u t w n h e =
      let counted_up = counter-incr u w n e in
      rw (
        incr-Healthy (channel_key u) w (add_one n) h (rw counted_up),
        transaction-Healthy (write_call t req.agent_id (call_meta req u w.now))
            (stored w (S.incr (channel_key u) w.store)) h,
      )

  -- trackCall asks nothing of FreeSWITCH.
  pub track_call-Calm :
      (req : OutboundRequest) (u : ℕ) (t : Text) (w : W) → Calm w (track_call req u t w).1
  unfolding track_call continue_tracking
  track_call-Calm req u t w =
      continue-Calm (continue_tracking req u t) w (incr (channel_key u) w)
        (incr-Calm (channel_key u) w)
        (λ n w1. transaction-Calm (write_call t req.agent_id (call_meta req u w1.now)) w1)

  -- If Redis answers and the counter can be read, trackCall succeeds and records the call.
  pub track_call-Tracked :
      (req : OutboundRequest) (u : ℕ) (t : Text) (w : W) (n : ℤ)
      → Healthy w
      → counter (counter_of u w) ≡ some n
      → ((track_call req u t w).0 ≡ ok tt)
        × Tracked req u t n w (track_call req u t w).1
        × Healthy (track_call req u t w).1
  unfolding call_meta
  track_call-Tracked req u t w n h e = rw (track_eq req u t w n h e) (
    refl,
    (
      counter_known (counter_of u w) n e,
      simp (S.read-set, key_laws) (counter-incr u w n e),
      λ j ne. simp (S.read-set, S.read-incr, key_laws, ne),
      (call_meta req u w.now, simp (S.read-set, key_laws, eqb_refl), refl, refl, refl),
      simp (S.read-set, key_laws, ==_refl),
    ),
    h,
  )

  parse_count-ok :
      (v : Option Value) (w : W)
      → ((n : ℤ) × (counter v ≡ some n) × (parse_count v w ≡ (ok n, w)))
        ⊎ ((e : Error) × (parse_count v w ≡ (err e, w)))
  unfolding parse_count
  parse_count-ok none w = inl (pos 0, refl, refl)
  parse_count-ok (some (number n)) w = inl (n, refl, refl)
  parse_count-ok (some (text t)) w = inr (_, refl)
  parse_count-ok (some (object fs)) w = inr (_, refl)

  count_eq : (u : ℕ) (w : W) → Healthy w → channel_count u w ≡ parse_count (counter_of u w) w
  unfolding channel_count
  count_eq u w h = rw (get-Healthy (channel_key u) w h)

  -- The answers of channelAvailable, which change nothing.
  abbrev pub Available : Carrier → W → Result Bool × W → Type 0
  Available c w after =
      ((n : ℤ) × (counter (counter_of c.id w) ≡ some n)
        × (below n c.max_channels ≡ true)
        × (after ≡ (ok true, w)))
      ⊎ (after ≡ (ok false, w))
      ⊎ ((e : Error) × (after ≡ (err e, w)))

  below_cases :
      (c : Carrier) (n : ℤ) (w : W)
      → counter (counter_of c.id w) ≡ some n
      → Available c w (ok (below n c.max_channels), w)
  below_cases c n w e = elim (Bool-cases (below n c.max_channels)) [
    | inl free ↦ inl (n, e, free, rw free)
    | inr busy ↦ inr (inl (rw busy))
  ]

  pub channel_available-Available :
      (c : Carrier) (w : W) → Healthy w → Available c w (channel_available c w)
  unfolding channel_available
  channel_available-Available c w h = elim (Bool-cases (c.max_channels == 0)) [
    | inl closed ↦ rw closed (inr (inl refl))
    | inr open_ ↦
        rw (open_, count_eq c.id w h)
          (elim (parse_count-ok (counter_of c.id w) w) [
            | inl (n, e, p) ↦ rw p (below_cases c n w e)
            | inr (e, p) ↦ rw p (inr (inr (e, refl)))
          ])
  ]
