-- ===== src/Presence/History.antt =====
-- Claims on one agent by any number of callers, in any order and with any Redis failures.
use callvoice.Common.{
  ◌∙◌, inl, inr, ℕ, suc, ◌+◌, ◌≤◌, ◌≡◌, refl, ap, Bool, true, false, Option, none, some, List, [],
  ◌∷◌, Text, eqb, eqb_refl, eqb_iff, arith, Result, ok, err, if◌then◌else◌,
}
use callvoice.Services.{Services, Value}
use callvoice.Services.Commands.{W, continue, get, watch, watched}
use callvoice.Services.Commands.Inversion.{store-get, store-watch, get-ok, watched-ok}
use callvoice.Keys.{agent_key}
use callvoice.Presence.{
  Presence, PresenceValue, encode_presence, state_available, state_on_call, claim_available,
  release_on_call, set_state, set_campaign, start, stop, moved, compare_and_set,
}
use callvoice.Presence.Laws.{said, moved_to, moved-Moves, presence_of, parse-encode}

-- 1 where a stored value says that the agent is available.
abbrev pub openness : Option (Result PresenceValue) → ℕ
openness none = 0
openness (some (err e)) = 0
openness (some (ok v)) = if eqb v.state state_available then 1 else 0

won : Result Bool → ℕ
won (ok true) = 1
won (ok false) = 0
won (err e) = 0

-- A call on the agent's presence; `claims` is the one that can win the agent.
pub data Call : Type 0 where
  claims releases starts stops : Call
  sets : Text → Call
  joins : Option ℕ → Call

module _ ⦃S : Services⦄ where
  -- 1 for an available agent.
  pub open_for : ℕ → W → ℕ
  open_for u w = openness (presence_of u w)

  -- A step: the claims won (0 or 1), and the world after it.
  unfoldable pub step : Presence → ℕ → Call → W → ℕ × W
  unfolding won
  step p u claims w = let (r, w') = claim_available p u w in (won r, w')
  step p u releases w = (0, (release_on_call p u w).1)
  step p u starts w = (0, (start p u w).1)
  step p u stops w = (0, (stop p u w).1)
  step p u (sets state) w = (0, (set_state p u state w).1)
  step p u (joins c) w = (0, (set_campaign p u c w).1)

  -- How many claims of a history are won.
  unfoldable pub wins : Presence → ℕ → List Call → W → ℕ
  wins p u [] w = 0
  wins p u (c ∷ cs) w = let (n, w') = step p u c w in n + wins p u cs w'

  openness-le-one : (q : Option (Result PresenceValue)) → openness q ≤ 1
  openness-le-one none = omega arith
  openness-le-one (some (err e)) = omega arith
  openness-le-one (some (ok v)) = ground arith

  -- Once the on_call value is written the agent is closed.
  on_call_closed :
      (p : Presence) (u : ℕ) (v : PresenceValue) (s : S.Store)
      → openness (
          said (
            S.read
              (S.set (agent_key u) (encode_presence (moved_to state_on_call v)) p.ttl s)
              (agent_key u)))
        ≡ 0
  unfolding eqb
  on_call_closed p u v s =
      rw (S.read-set, eqb_refl, parse-encode (moved_to state_on_call v) (inr (inr refl)))

  -- A won claim closes the agent, and any claim leaves at most one to win.
  won_open :
      (u : ℕ) (r : Result Bool × W)
      → (r.0 ≡ ok true → open_for u r.1 ≡ 0)
      → won r.0 + open_for u r.1 ≤ 1
  unfolding won open_for
  won_open u (ok true, w) h = omega (arith, h refl)
  won_open u (ok false, w) h = omega (arith, openness-le-one (presence_of u w))
  won_open u (err e, w) h = omega (arith, openness-le-one (presence_of u w))

  opened :
      (u : ℕ) (w : W) (v : PresenceValue)
      → presence_of u w ≡ some (ok v)
      → v.state ≡ state_available
      → open_for u w ≡ 1
  unfolding open_for
  opened u w v e at = rw (e, openness) (ground (arith, eqb_iff v.state state_available))

  transaction_potential :
      (p : Presence) (u : ℕ) (w : W)
      → let after =
          compare_and_set p u
            (moved state_available state_on_call (S.read w.store (agent_key u)))
            w in
        won after.0 + open_for u after.1 ≤ open_for u w
  unfolding compare_and_set
  transaction_potential p u w =
      elim (moved-Moves state_available state_on_call (S.read w.store (agent_key u))) [
        | inl (v, e, at, m) ↦
            rw (m, compare_and_set)
              (omega (arith, opened u w v e at, won_open u _ λ h. written p u v w h))
        | inr (never, m) ↦ rw (m, compare_and_set) (unfold won in omega arith)
      ]
    where
      written :
          (p : Presence) (u : ℕ) (v : PresenceValue) (w : W)
          → (watched (S.set (agent_key u) (encode_presence (moved_to state_on_call v)) p.ttl) w).0
            ≡ ok true
          → open_for u
              (watched (S.set (agent_key u) (encode_presence (moved_to state_on_call v)) p.ttl) w).1
            ≡ 0
      written p u v w h = unfold open_for in rw (watched-ok _ w h) (on_call_closed p u v w.store)

  open_for_store : (u : ℕ) (w w' : W) → w'.store ≡ w.store → open_for u w' ≡ open_for u w
  unfolding open_for
  open_for_store u w w' e = rw e

  abbrev Spent : ℕ → W → Result Bool × W → Type 0
  Spent u w after = won after.0 + open_for u after.1 ≤ open_for u w

  -- The steps of the claim behind WATCH and GET, from any answers of theirs.
  after_get :
      (p : Presence) (u : ℕ) (w : W) (r : Result (Option Value) × W)
      → r.1.store ≡ w.store
      → ((x : Option Value) → r.0 ≡ ok x → x ≡ S.read w.store (agent_key u))
      → Spent u w
          (continue (λ raw. compare_and_set p u (moved state_available state_on_call raw)) r)
  unfolding won open_for
  after_get p u w (err e, w2) kept at = unfold won in omega (arith, open_for_store u w w2 kept)
  after_get p u w (ok raw, w2) kept at =
      rw (at raw refl, ← kept)
        (omega (arith, open_for_store u w w2 kept, transaction_potential p u w2))

  after_watch :
      (p : Presence) (u : ℕ) (w : W) (r : Result (Unit {0}) × W)
      → r.1.store ≡ w.store
      → Spent u w (
          continue
            (λ _ w1.
              continue
                (λ raw. compare_and_set p u (moved state_available state_on_call raw))
                (get (agent_key u) w1))
            r)
  after_watch p u w (err e, w1) kept = unfold won in omega (arith, open_for_store u w w1 kept)
  after_watch p u w (ok t, w1) kept =
      after_get p u w (get (agent_key u) w1) (store-get (agent_key u) w1 ∙ kept)
        λ x h. get-ok (agent_key u) w1 h ∙ ap (λ s. S.read s (agent_key u)) kept

  claim_potential : (p : Presence) (u : ℕ) (w : W) → Spent u w (claim_available p u w)
  unfolding claim_available
  claim_potential p u w = after_watch p u w (watch (agent_key u) w) (store-watch (agent_key u) w)

  -- The calls that are no claims.
  abbrev pub others : List Call → ℕ
  others [] = 0
  others (claims ∷ cs) = others cs
  others (_ ∷ cs) = suc (others cs)

  step_potential :
      (p : Presence) (u : ℕ) (c : Call) (cs : List Call) (w : W)
      → (step p u c w).0 + open_for u (step p u c w).1 + others cs ≤ open_for u w + others (c ∷ cs)
  unfolding step open_for
  step_potential p u claims cs w = omega (arith, claim_potential p u w)
  step_potential p u releases cs w =
      omega (arith, openness-le-one (presence_of u (release_on_call p u w).1))
  step_potential p u starts cs w = omega (arith, openness-le-one (presence_of u (start p u w).1))
  step_potential p u stops cs w = omega (arith, openness-le-one (presence_of u (stop p u w).1))
  step_potential p u (sets s) cs w =
      omega (arith, openness-le-one (presence_of u (set_state p u s w).1))
  step_potential p u (joins c) cs w =
      omega (arith, openness-le-one (presence_of u (set_campaign p u c w).1))

  -- In any history of calls on one agent's presence, with any failures of Redis on the way, at most
  -- one claim is won for the agent being available at the start, and one for each call that is no
  -- claim.
  pub wins-le-others :
      (p : Presence) (u : ℕ) (cs : List Call) (w : W)
      → wins p u cs w ≤ openness (presence_of u w) + others cs
  unfolding wins open_for
  wins-le-others p u [] w = omega arith
  wins-le-others p u (c ∷ cs) w =
      omega (arith, step_potential p u c cs w, wins-le-others p u cs (step p u c w).1)
