-- ===== src/Inbound/Scan.antt =====
-- FirstAvailableAgent: the scan of the presence keys. What SCAN answers, page after page until its
-- cursor is 0, is an argument.
pub mod Laws
pub mod Sent
use callvoice.Common.{
  ℕ, Bool, Option, none, some, List, [], ◌∷◌, Text, codes, eqb, trim_prefix, if◌then◌else◌, Result,
  ok, err, no_agent,
}
use callvoice.Services.{Services, Value, text, number, object}
use callvoice.Services.Commands.{M, pure, fail, ◌>>=◌, get}
use callvoice.Presence.{Presence, state_available, claim_available}

abbrev pub agent_key_prefix : Text
agent_key_prefix = codes "agent:"

-- The test `agent.State(val) != agent.StateAvailable` on a raw value: a JSON text never passes it.
unfoldable pub says_available : Option Value → Bool
says_available none = Bool.false
says_available (some (text val)) = eqb val state_available
says_available (some (number n)) = Bool.false
says_available (some (object fs)) = Bool.false

module _ ⦃S : Services⦄ where
  -- The agent of a scanned key, if its raw value says that he is available.
  unfoldable pub candidate : Text → Option Value → Option ℕ
  unfolding says_available trim_prefix
  candidate key val =
      if says_available val then S.uuid_parse (trim_prefix key agent_key_prefix) else none

  claim_or : Presence → ℕ → M (Option ℕ) → Bool → M (Option ℕ)
  claim_or p id rest won = if won then pure (some id) else rest

  -- The candidate is claimed; where there is none, or another caller won, the scan goes on.
  try_claim : Presence → Option ℕ → M (Option ℕ) → M (Option ℕ)
  unfolding claim_or
  try_claim p none rest = rest
  try_claim p (some id) rest = claim_available p id >>= claim_or p id rest

  -- A page of keys: the first agent who is claimed, if any.
  unfoldable pub scan_keys : Presence → List Text → M (Option ℕ)
  unfolding try_claim
  scan_keys p [] = pure none
  scan_keys p (key ∷ keys) = do val ← get key; try_claim p (candidate key val) (scan_keys p keys)

  found_or : M ℕ → Option ℕ → M ℕ
  found_or rest none = rest
  found_or rest (some id) = pure id

  unfoldable pub first_available_agent : Presence → List (Result (List Text)) → M ℕ
  unfolding found_or
  first_available_agent p [] = fail no_agent
  first_available_agent p (err e ∷ pages) = fail e
  first_available_agent p (ok keys ∷ pages) =
      scan_keys p keys >>= found_or (first_available_agent p pages)
