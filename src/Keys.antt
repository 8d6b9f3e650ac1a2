-- ===== src/Keys.antt =====
-- The Redis keys of the edge service: agent/presence.go, webrtccred/cred.go and dialer/manual.go.
-- Every family of keys is injective and no two families meet.
use callvoice.Common.{
  ℕ, ◌+◌, ◌≡◌, refl, ap, ◌≢◌, false, [], ◌∷◌, ◌++◌, arith, Text, codes, eqb, eqb_iff, eqb_ne, len,
  ◌==◌,
}
use callvoice.Services.{Services}

pub len-append : (s t : Text) → len (s ++ t) ≡ len s + len t
len-append [] t = omega arith
len-append (c ∷ s) t = omega (arith, len-append s t)

-- A prefix can be taken off both sides.
pub append_cancel : (p s t : Text) → p ++ s ≡ p ++ t → s ≡ t
append_cancel [] s t h = h
append_cancel (c ∷ p) s t h = append_cancel p s t (cc)

module _ ⦃S : Services⦄ where
  unfoldable pub agent_key : ℕ → Text
  agent_key u = codes "agent:" ++ S.uuid_string u

  unfoldable pub cred_key : ℕ → Text
  cred_key u = codes "agent:" ++ (S.uuid_string u ++ codes ":webrtc")

  unfoldable pub agent_call_key : ℕ → Text
  agent_call_key u = codes "call:agent:" ++ S.uuid_string u

  unfoldable pub call_meta_key : Text → Text
  call_meta_key call_uuid = codes "call:meta:" ++ call_uuid

  unfoldable pub channel_key : ℕ → Text
  channel_key carrier_id = codes "channels:carrier:" ++ S.uuid_string carrier_id

  pub string-injective : (u v : ℕ) → S.uuid_string u ≡ S.uuid_string v → u ≡ v
  string-injective u v h = cc (S.parse-string u, S.parse-string v, ap S.uuid_parse h)

  -- The key of a prefixed identifier tells the identifier.
  prefixed : (p : Text) (u v : ℕ) → eqb (p ++ S.uuid_string u) (p ++ S.uuid_string v) ≡ (u == v)
  prefixed p u v = ground (
    arith,
    eqb_iff (p ++ S.uuid_string u) (p ++ S.uuid_string v),
    λ (h : p ++ S.uuid_string u ≡ p ++ S.uuid_string v).
        string-injective u v (append_cancel p _ _ h),
    λ (h : u ≡ v). ap (λ w. p ++ S.uuid_string w) h,
  )

  pub eqb-agent_key : (u v : ℕ) → eqb (agent_key u) (agent_key v) ≡ (u == v)
  unfolding agent_key
  eqb-agent_key u v = prefixed (codes "agent:") u v

  pub eqb-agent_call_key : (u v : ℕ) → eqb (agent_call_key u) (agent_call_key v) ≡ (u == v)
  unfolding agent_call_key
  eqb-agent_call_key u v = prefixed (codes "call:agent:") u v

  pub eqb-channel_key : (u v : ℕ) → eqb (channel_key u) (channel_key v) ≡ (u == v)
  unfolding channel_key
  eqb-channel_key u v = prefixed (codes "channels:carrier:") u v

  pub eqb-call_meta_key : (s t : Text) → eqb (call_meta_key s) (call_meta_key t) ≡ eqb s t
  unfolding call_meta_key
  eqb-call_meta_key s t =
      ground (arith, eqb_iff s t, eqb_iff (codes "call:meta:" ++ s) (codes "call:meta:" ++ t))

  -- A presence key is never a credential key: the credential key is longer.
  pub agent_key-ne-cred_key : (u v : ℕ) → agent_key u ≢ cred_key v
  unfolding agent_key cred_key
  agent_key-ne-cred_key u v h = absurd (
      omega (
        arith,
        ap len h,
        S.length-string u,
        S.length-string v,
        len-append (S.uuid_string v) (codes ":webrtc"),
      ))

  pub eqb-agent-cred : (u v : ℕ) → eqb (agent_key u) (cred_key v) ≡ false
  eqb-agent-cred u v = eqb_ne _ _ (agent_key-ne-cred_key u v)

  pub eqb-channel-meta : (u : ℕ) (t : Text) → eqb (channel_key u) (call_meta_key t) ≡ false
  unfolding channel_key call_meta_key eqb
  eqb-channel-meta u t = refl

  pub eqb-channel-call : (u v : ℕ) → eqb (channel_key u) (agent_call_key v) ≡ false
  unfolding channel_key agent_call_key eqb
  eqb-channel-call u v = refl

  pub eqb-meta-channel : (t : Text) (u : ℕ) → eqb (call_meta_key t) (channel_key u) ≡ false
  unfolding channel_key call_meta_key eqb
  eqb-meta-channel t u = refl

  pub eqb-meta-call : (t : Text) (u : ℕ) → eqb (call_meta_key t) (agent_call_key u) ≡ false
  unfolding agent_call_key call_meta_key eqb
  eqb-meta-call t u = refl

  pub eqb-call-meta : (u : ℕ) (t : Text) → eqb (agent_call_key u) (call_meta_key t) ≡ false
  unfolding agent_call_key call_meta_key eqb
  eqb-call-meta u t = refl

  pub eqb-call-channel : (u v : ℕ) → eqb (agent_call_key u) (channel_key v) ≡ false
  unfolding agent_call_key channel_key eqb
  eqb-call-channel u v = refl

  pub eqb-channel-agent : (u v : ℕ) → eqb (channel_key u) (agent_key v) ≡ false
  unfolding channel_key agent_key eqb
  eqb-channel-agent u v = refl

  pub eqb-meta-agent : (t : Text) (v : ℕ) → eqb (call_meta_key t) (agent_key v) ≡ false
  unfolding call_meta_key agent_key eqb
  eqb-meta-agent t v = refl

  pub eqb-call-agent : (u v : ℕ) → eqb (agent_call_key u) (agent_key v) ≡ false
  unfolding agent_call_key agent_key eqb
  eqb-call-agent u v = refl

  pub eqb-agent-channel : (u v : ℕ) → eqb (agent_key u) (channel_key v) ≡ false
  unfolding agent_key channel_key eqb
  eqb-agent-channel u v = refl

  pub eqb-agent-meta : (u : ℕ) (t : Text) → eqb (agent_key u) (call_meta_key t) ≡ false
  unfolding agent_key call_meta_key eqb
  eqb-agent-meta u t = refl

  pub eqb-agent-call : (u v : ℕ) → eqb (agent_key u) (agent_call_key v) ≡ false
  unfolding agent_key agent_call_key eqb
  eqb-agent-call u v = refl

  pub ruleset key_laws = (
    eqb-agent_key, eqb-agent-channel, eqb-agent-meta, eqb-agent-call, eqb-agent_call_key,
    eqb-channel_key, eqb-call_meta_key, eqb-agent-cred, eqb-channel-meta, eqb-channel-call,
    eqb-meta-channel, eqb-meta-call, eqb-call-meta, eqb-call-channel, eqb-channel-agent,
    eqb-meta-agent, eqb-call-agent,
  )
