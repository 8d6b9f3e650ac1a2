-- ===== src/Dialer/Originate/Laws.antt =====
-- The channel accounting of Originate.
use callvoice.Common.{
  ℕ, ◌≡◌, refl, ◌⊎◌, inl, inr, Bool, true, false, Bool-cases, none, Option-cases, List, eqb, Error,
  Result, ok, err, ltb, carrier_capacity,
}
use callvoice.Services.{Services}
use callvoice.Services.Commands.{W, continue, guard}
use callvoice.Services.Commands.Healthy.{Healthy}
use callvoice.Services.Commands.Silent.{Calm-Progress}
use callvoice.Keys.{channel_key}
use callvoice.Cps.{allow_global, window_key, global_key}
use callvoice.Cps.Window.{allow-other_key, allow-Healthy, allow-Calm}
use callvoice.Dialer.Calls.{Carrier, OutboundRequest}
use callvoice.Dialer.Calls.Laws.{Quiet}
use callvoice.Dialer.Originate.{
  Manual, originate_each, listed, global_limit, request_error, checked, originate,
}
use callvoice.Dialer.Originate.Rounds.{
  Originated, Originated-from, originate_each-Originated, still,
}

module _ ⦃S : Services⦄ where
  -- How the checks before the loop end: all counters are as before.
  abbrev Checked : W → Result (Unit {0}) × W → Type 0
  Checked w after =
      ((after.0 ≡ ok tt) × Quiet w after.1) ⊎ ((e : Error) × (after.0 ≡ err e) × Quiet w after.1)

  guarded :
      (w : W) (r : Result Bool × W)
      → Quiet w r.1
      → Checked w (continue (λ allowed. guard allowed carrier_capacity) r)
  guarded w (ok true, w1) q = inl (refl, q)
  guarded w (ok false, w1) q = inr (carrier_capacity, refl, q)
  guarded w (err e, w1) q = inr (e, refl, q)

  allow_global-Quiet :
      (max_cps now : ℕ) (w : W) → Healthy w → Quiet w (allow_global max_cps now w).1
  unfolding allow_global window_key channel_key eqb
  allow_global-Quiet m now w h = (
    λ u. allow-other_key global_key m now w (channel_key u) refl,
    allow-Healthy global_key m now w h,
    Calm-Progress w (allow_global m now w).1 (allow-Calm global_key m now w),
  )

  global_limit-Checked :
      (m : Manual) (now : ℕ) (w : W) → Healthy w → Checked w (global_limit m now w)
  unfolding global_limit
  global_limit-Checked m now w h = elim (Bool-cases (ltb 0 m.global_max_cps)) [
    | inl limited ↦ rw limited (
        guarded w (allow_global m.global_max_cps now w)
          (allow_global-Quiet m.global_max_cps now w h))
    | inr free ↦ rw free (inl (refl, still w h))
  ]

  after_checks :
      (req : OutboundRequest) (now : ℕ) (cs : List Carrier) (w : W) (r : Result (Unit {0}) × W)
      → Checked w r
      → Originated req cs w (continue (λ _. originate_each req now cs 0 none) r)
  after_checks req now cs w (ok _, w1) (inl (e, q)) =
      Originated-from req cs w w1 (originate_each req now cs 0 none w1) q
        (originate_each-Originated req now cs 0 none w1 q.1)
  after_checks req now cs w (err x, w1) (inl (e, q)) = cc
  after_checks req now cs w (ok _, w1) (inr (x, e, q)) = cc
  after_checks req now cs w (err y, w1) (inr (x, e, q)) = inr (y, refl, q)

  originate_eq :
      (m : Manual) (req : OutboundRequest) (cs : List Carrier) (w : W)
      → m.carriers ≡ ok cs
      → request_error req ≡ none
      → originate m req w
        ≡ continue (λ _. originate_each req w.now cs 0 none) (global_limit m w.now w)
  unfolding originate checked listed
  originate_eq m req cs w e valid = simp (e, valid)

  -- If Redis answers and the carriers are listed, Originate ends in one of two ways. A call is placed
  -- over an enabled carrier of the list whose counter was below its limit: the last command sent is
  -- that of the call, from the agent's phone over the carrier to the asked number, the last reply taken
  -- begins with +OK, that counter is one higher,
  -- every other one is as before, the metadata names the agent, the carrier and the destination, and
  -- the agent's key names the call. Or there is an error, and every channel counter is as before.
  pub originate-Originated :
      (m : Manual) (req : OutboundRequest) (cs : List Carrier) (w : W)
      → m.carriers ≡ ok cs
      → Healthy w
      → Originated req cs w (originate m req w)
  unfolding originate checked
  originate-Originated m req cs w e h = elim (Option-cases (request_error req)) [
    | inl valid ↦
        rw (originate_eq m req cs w e valid)
          (after_checks req w.now cs w (global_limit m w.now w) (global_limit-Checked m w.now w h))
    | inr (x, wrong) ↦ rw wrong (inr (x, refl, still w h))
  ]
