-- ===== src/Presence/Sent.antt =====
-- A claim of an agent asks nothing of FreeSWITCH.
use callvoice.Common.{ℕ, refl, Option, none, some}
use callvoice.Services.{Services}
use callvoice.Services.Commands.{W, continue, get, watch}
use callvoice.Services.Commands.Silent.{Calm, continue-Calm, get-Calm, watch-Calm, watched-Calm}
use callvoice.Keys.{agent_key}
use callvoice.Presence.{
  Presence, PresenceValue, compare_and_set, encode_presence, moved, shift, state_available,
  state_on_call, claim_available,
}

module _ ⦃S : Services⦄ where
  compare_and_set-Calm :
      (p : Presence) (user : ℕ) (o : Option PresenceValue) (w : W)
      → Calm w (compare_and_set p user o w).1
  unfolding compare_and_set
  compare_and_set-Calm p user none w = (refl, refl)
  compare_and_set-Calm p user (some v) w =
      watched-Calm (S.set (agent_key user) (encode_presence v) p.ttl) w

  pub claim_available-Calm : (p : Presence) (user : ℕ) (w : W) → Calm w (claim_available p user w).1
  unfolding claim_available shift
  claim_available-Calm p user w =
      continue-Calm
        (λ _. λ w1.
          continue (λ raw. compare_and_set p user (moved state_available state_on_call raw))
            (get (agent_key user) w1))
        w (watch (agent_key user) w) (watch-Calm (agent_key user) w)
        (λ _ w1.
          continue-Calm (λ raw. compare_and_set p user (moved state_available state_on_call raw)) w1
            (get (agent_key user) w1) (get-Calm (agent_key user) w1)
            (λ raw w2. compare_and_set-Calm p user (moved state_available state_on_call raw) w2))
