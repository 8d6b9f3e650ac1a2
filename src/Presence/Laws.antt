-- ===== src/Presence/Laws.antt =====
-- What the operations of agent/presence.go do to the presence keys when Redis answers, and what
-- they leave alone however Redis behaves.
use callvoice.Common.{
  Result-cases, Error, ◌∙◌, Option-cases, ◌||◌, invalid_presence, ℕ, ◌≡◌, ◌≢◌, ap, refl, ◌⊎◌, inl,
  inr, Bool, true, false, Option, none, some, [], ◌∷◌, Text, eqb, eqb_iff, eqb_refl, arith,
  Bool-cases, Result, ok, err, invalid_state, not_found,
}
use callvoice.Services.{Services, Value, text, number, object}
use callvoice.Services.Commands.{continue, pure, W}
use callvoice.Services.Commands.Healthy.{
  Healthy, stored, get-Healthy, watch-Healthy, watched-Healthy, set-Healthy, exists-Healthy,
}
use callvoice.Keys.{agent_key}
use callvoice.Presence.{
  Presence, PresenceValue, parse_presence, encode_presence, state_available, state_paused,
  state_on_call, claim_available, release_on_call, set_state, shift, moved, compare_and_set,
}

abbrev pub IsState : Text → Type 0
IsState s = (s ≡ state_available) ⊎ (s ≡ state_paused) ⊎ (s ≡ state_on_call)

parse_encode_at :
    (s c : Text)
    → IsState s
    → parse_presence (encode_presence (record { state = s; campaign_id = c }))
      ≡ ok (record { state = s; campaign_id = c })
unfolding parse_presence encode_presence eqb
parse_encode_at s [] h = ground arith
parse_encode_at s (x ∷ c) h = ground arith

-- A presence value in one of the three states, with any campaign, is read back as it was written.
pub parse-encode : (v : PresenceValue) → IsState v.state → parse_presence (encode_presence v) ≡ ok v
parse-encode v h = parse_encode_at v.state v.campaign_id h

-- What a stored value says of an agent.
abbrev pub said : Option Value → Option (Result PresenceValue)
said none = none
said (some raw) = some (parse_presence raw)

abbrev pub moved_to : Text → PresenceValue → PresenceValue
moved_to to v = record v { state = to }

-- Either the value is in the first state and moves, or it is not.
abbrev pub Moves : Text → Text → Option Value → Option PresenceValue → Type 0
Moves from to r result =
    ((v : PresenceValue) × (said r ≡ some (ok v))
      × (v.state ≡ from)
      × (result ≡ some (moved_to to v)))
    ⊎ (((v : PresenceValue) → said r ≡ some (ok v) → v.state ≢ from) × (result ≡ none))

moved_at :
    (from to : Text) (raw : Value) (q : Result PresenceValue)
    → parse_presence raw ≡ q
    → Moves from to (some raw) (moved from to (some raw))
unfolding moved
moved_at from to raw (err x) e = inr (λ v h. cc (e, h), rw (e, moved))
moved_at from to raw (ok v) e = elim (Bool-cases (eqb v.state from)) [
  | inl t ↦ inl (v, ap some e, (eqb_iff v.state from).0 t, rw (e, moved) (rw t))
  | inr f ↦ inr (λ u h q. cc (eqb_refl from, e, h, q, f), rw (e, moved) (rw f))
]

pub moved-Moves : (from to : Text) (r : Option Value) → Moves from to r (moved from to r)
unfolding moved
moved-Moves from to none = inr (λ v h. cc, refl)
moved-Moves from to (some raw) = moved_at from to raw (parse_presence raw) refl

parse_presence_err : (raw : Value) (x : Error) → parse_presence raw ≡ err x → x ≡ invalid_presence
unfolding parse_presence
parse_presence_err (object fs) x h = ground arith
parse_presence_err (number n) x h = cc
parse_presence_err (text raw) x h = ground arith

module _ ⦃S : Services⦄ where
  -- What the presence key of a user says.
  abbrev pub presence_of : ℕ → W → Option (Result PresenceValue)
  presence_of u w = said (S.read w.store (agent_key u))

  abbrev pub OthersKept : ℕ → W → W → Type 0
  OthersKept u w w' =
      (j : Text) → eqb (agent_key u) j ≡ false → S.read w'.store j ≡ S.read w.store j

  shift-Healthy :
      (p : Presence) (u : ℕ) (from to : Text) (w : W)
      → Healthy w
      → shift p u from to w ≡ compare_and_set p u (moved from to (S.read w.store (agent_key u))) w
  unfolding shift
  shift-Healthy p u from to w h =
      cc (watch-Healthy (agent_key u) w h, get-Healthy (agent_key u) w h)

  -- The outcome of a WATCH transaction from one state to another, when Redis answers: the value
  -- moved, or nothing changed since there was none in the first state.
  abbrev pub Shifted : ℕ → Text → Text → W → Result Bool × W → Type 0
  Shifted u from to w after =
      ((v : PresenceValue) × (presence_of u w ≡ some (ok v))
        × (v.state ≡ from)
        × (after.0 ≡ ok true)
        × (presence_of u after.1 ≡ some (ok (moved_to to v)))
        × OthersKept u w after.1
        × Healthy after.1)
      ⊎ (((v : PresenceValue) → presence_of u w ≡ some (ok v) → v.state ≢ from)
          × (after.0 ≡ ok false)
          × (after.1 ≡ w))

  read_back :
      (p : Presence) (u : ℕ) (v : PresenceValue) (w : W)
      → IsState v.state
      → presence_of u (stored w (S.set (agent_key u) (encode_presence v) p.ttl w.store))
        ≡ some (ok v)
  read_back p u v w known = rw (S.read-set, eqb_refl) (ap some (parse-encode v known))

  set_keeps :
      (p : Presence) (u : ℕ) (v : Value) (w : W)
      → OthersKept u w (stored w (S.set (agent_key u) v p.ttl w.store))
  set_keeps p u v w j ne = rw (S.read-set, ne)

  Shifted-shift :
      (p : Presence) (u : ℕ) (from to : Text) (w : W)
      → Healthy w
      → IsState to
      → Shifted u from to w (shift p u from to w)
  unfolding compare_and_set
  Shifted-shift p u from to w h known =
      rw (shift-Healthy p u from to w h)
        (elim (moved-Moves from to (S.read w.store (agent_key u))) [
          | inl (v, e, at, m) ↦
              rw (m, compare_and_set, watched-Healthy _ w h)
                (inl (v, e, at, refl, read_back p u (moved_to to v) w known, set_keeps p u _ w, h))
          | inr (never, m) ↦ rw (m, compare_and_set) (inr (never, refl, refl))
        ])

  -- If Redis answers, a claim wins exactly for an available agent, who is then on_call with the
  -- same campaign and no other key touched; otherwise it reports no win and changes nothing.
  pub claim_available-Shifted :
      (p : Presence) (u : ℕ) (w : W)
      → Healthy w
      → Shifted u state_available state_on_call w (claim_available p u w)
  unfolding claim_available
  claim_available-Shifted p u w h =
      Shifted-shift p u state_available state_on_call w h (inr (inr refl))

  -- Dropping the result of a call that succeeded.
  continue_done :
      {A B : Type 0} (r : Result A × W) (b : B) {a : A}
      → r.0 ≡ ok a
      → continue (λ _. pure b) r ≡ (ok b, r.1)
  continue_done (ok x, w') b h = refl
  continue_done (err x, w') b h = cc

  -- If Redis answers, a release succeeds; an agent who was on_call is then available with the same
  -- campaign and no other key touched, and for any other agent nothing changes.
  pub release_on_call-restores :
      (p : Presence) (u : ℕ) (w : W)
      → Healthy w
      → ((release_on_call p u w).0 ≡ ok tt)
        × (((v : PresenceValue) × (presence_of u w ≡ some (ok v))
              × (v.state ≡ state_on_call)
              × (presence_of u (release_on_call p u w).1 ≡ some (ok (moved_to state_available v)))
              × OthersKept u w (release_on_call p u w).1)
            ⊎ (((v : PresenceValue) → presence_of u w ≡ some (ok v) → v.state ≢ state_on_call)
                × ((release_on_call p u w).1 ≡ w)))
  unfolding release_on_call
  release_on_call-restores p u w h =
      elim (Shifted-shift p u state_on_call state_available w h (inl refl)) [
        | inl (v, e, at, done, now, kept, _) ↦
            let eq : release_on_call p u w
                ≡ (ok tt, (shift p u state_on_call state_available w).1) =
              continue_done (shift p u state_on_call state_available w) tt done in
            rw eq (refl, inl (v, e, at, now, kept))
        | inr (never, done, same) ↦
            let eq : release_on_call p u w
                ≡ (ok tt, (shift p u state_on_call state_available w).1) =
              continue_done (shift p u state_on_call state_available w) tt done in
            rw eq (refl, inr (never, same))
      ]

  abbrev settable : Text → Bool
  settable s = eqb s state_available || eqb s state_paused

  -- What `SetState` does once the state is one that it takes.
  settled : Presence → ℕ → Text → Option Value → W → Result (Unit {0}) × W
  settled p u s none w = (err not_found, w)
  settled p u s (some raw) w = elim (parse_presence raw) [
    | err e ↦ (err e, w)
    | ok v ↦ (ok tt, stored w (S.set (agent_key u) (encode_presence (moved_to s v)) p.ttl w.store))
  ]

  set_state-settled :
      (p : Presence) (u : ℕ) (s : Text) (w : W)
      → Healthy w
      → settable s ≡ true
      → set_state p u s w ≡ settled p u s (S.read w.store (agent_key u)) w
  unfolding set_state settled
  set_state-settled p u s w h known = elim (Option-cases (S.read w.store (agent_key u))) [
    | inl e ↦ rw (known, exists-Healthy (agent_key u) w h, e)
    | inr (raw, e) ↦
        rw (known, exists-Healthy (agent_key u) w h, e, get-Healthy (agent_key u) w h, e)
          (elim (Result-cases (parse_presence raw)) [
            | inl (v, q) ↦ rw (q, settled) (set-Healthy (agent_key u) _ p.ttl w h)
            | inr (x, q) ↦ rw (q, settled)
          ])
  ]

  -- What `SetState` leaves where the state is one that it takes.
  abbrev pub Settled : ℕ → Text → W → Result (Unit {0}) × W → Type 0
  Settled u s w after =
      ((presence_of u w ≡ none) × (after ≡ (err not_found, w)))
      ⊎ ((presence_of u w ≡ some (err invalid_presence)) × (after ≡ (err invalid_presence, w)))
      ⊎ ((v : PresenceValue) × (presence_of u w ≡ some (ok v))
          × ((s ≡ state_available) ⊎ (s ≡ state_paused))
          × (after.0 ≡ ok tt)
          × (presence_of u after.1 ≡ some (ok (moved_to s v)))
          × OthersKept u w after.1)

  settable_cases : (s : Text) → settable s ≡ true → (s ≡ state_available) ⊎ (s ≡ state_paused)
  settable_cases s h = ground (arith, eqb_iff s state_available, eqb_iff s state_paused)

  IsState-settable : {s : Text} → (s ≡ state_available) ⊎ (s ≡ state_paused) → IsState s
  IsState-settable (inl e) = inl e
  IsState-settable (inr e) = inr (inl e)

  settled-Settled :
      (p : Presence) (u : ℕ) (s : Text) (w : W) (r : Option Value)
      → S.read w.store (agent_key u) ≡ r
      → (s ≡ state_available) ⊎ (s ≡ state_paused)
      → Settled u s w (settled p u s r w)
  unfolding settled
  settled-Settled p u s w none e k = inl (rw e, refl)
  settled-Settled p u s w (some raw) e k = elim (Result-cases (parse_presence raw)) [
    | inl (v, q) ↦
        rw (q, settled)
          (inr (
            inr (
              v,
              rw e (ap some q),
              k,
              refl,
              read_back p u (moved_to s v) w (IsState-settable k),
              set_keeps p u _ w,
            )))
    | inr (x, q) ↦
        rw (q, settled, parse_presence_err raw x q)
          (inr (inl (rw e (ap some (q ∙ ap err (parse_presence_err raw x q))), refl)))
  ]

  -- If Redis answers, `SetState` refuses any other state than available and paused, an agent with
  -- no presence and a presence that cannot be read, and changes nothing then; otherwise it writes
  -- the new state, keeps the campaign and touches no other key.
  pub set_state_cases :
      (p : Presence) (u : ℕ) (s : Text) (w : W)
      → Healthy w
      → ((s ≢ state_available) × (s ≢ state_paused) × (set_state p u s w ≡ (err invalid_state, w)))
        ⊎ Settled u s w (set_state p u s w)
  unfolding set_state
  set_state_cases p u s w h = elim (Bool-cases (settable s)) [
    | inr f ↦ inl (
      (λ e. ground (arith, eqb_iff s state_available)),
      (λ e. ground (arith, eqb_iff s state_paused)),
      rw f,
    )
    | inl t ↦ inr (
        rw (set_state-settled p u s w h t)
          (settled-Settled p u s w (S.read w.store (agent_key u)) refl (settable_cases s t)))
  ]
