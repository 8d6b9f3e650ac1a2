-- ===== src/Inbound/Scan/Sent.antt =====
-- The search for an agent asks nothing of FreeSWITCH.
use callvoice.Common.{
  ℕ, refl, Bool, true, false, Option, none, some, List, [], ◌∷◌, Text, Result, ok, err,
}
use callvoice.Services.{Services}
use callvoice.Services.Commands.{W, M, get}
use callvoice.Services.Commands.Silent.{Calm, continue-Calm, get-Calm}
use callvoice.Presence.{Presence, claim_available}
use callvoice.Presence.Sent.{claim_available-Calm}
use callvoice.Inbound.Scan.{
  candidate, claim_or, try_claim, scan_keys, found_or, first_available_agent,
}

module _ ⦃S : Services⦄ where
  claim_or-Calm :
      (p : Presence) (id : ℕ) (rest : M (Option ℕ)) (won : Bool) (w : W)
      → Calm w (rest w).1
      → Calm w (claim_or p id rest won w).1
  unfolding claim_or
  claim_or-Calm p id rest true w h = (refl, refl)
  claim_or-Calm p id rest false w h = h

  try_claim-Calm :
      (p : Presence) (o : Option ℕ) (rest : M (Option ℕ)) (w : W)
      → ((w1 : W) → Calm w1 (rest w1).1)
      → Calm w (try_claim p o rest w).1
  unfolding try_claim
  try_claim-Calm p none rest w h = h w
  try_claim-Calm p (some id) rest w h =
      continue-Calm (claim_or p id rest) w (claim_available p id w) (claim_available-Calm p id w)
        (λ won w1. claim_or-Calm p id rest won w1 (h w1))

  scan_keys-Calm : (p : Presence) (keys : List Text) (w : W) → Calm w (scan_keys p keys w).1
  unfolding scan_keys
  scan_keys-Calm p [] w = (refl, refl)
  scan_keys-Calm p (key ∷ keys) w =
      continue-Calm (λ val. try_claim p (candidate key val) (scan_keys p keys)) w (get key w)
        (get-Calm key w)
        (λ val w1.
          try_claim-Calm p (candidate key val) (scan_keys p keys) w1
            (λ w2. scan_keys-Calm p keys w2))

  found_or-Calm :
      (rest : M ℕ) (o : Option ℕ) (w : W) → Calm w (rest w).1 → Calm w (found_or rest o w).1
  unfolding found_or
  found_or-Calm rest none w h = h
  found_or-Calm rest (some id) w h = (refl, refl)

  pub first_available_agent-Calm :
      (p : Presence) (pages : List (Result (List Text))) (w : W)
      → Calm w (first_available_agent p pages w).1
  unfolding first_available_agent
  first_available_agent-Calm p [] w = (refl, refl)
  first_available_agent-Calm p (err e ∷ pages) w = (refl, refl)
  first_available_agent-Calm p (ok keys ∷ pages) w =
      continue-Calm (found_or (first_available_agent p pages)) w (scan_keys p keys w)
        (scan_keys-Calm p keys w)
        (λ o w1.
          found_or-Calm (first_available_agent p pages) o w1
            (first_available_agent-Calm p pages w1))
