-- ===== src/Cps.antt =====
-- internal/cps/limiter.go and services/edge/internal/cpsgate/cpsgate.go: calls per second, counted
-- in Redis under a key for each second. A limit is a number here: the code treats a negative one
-- as it treats 0.
pub mod Window
use callvoice.Common.{
  ℕ, ◌≡◌, Bool, true, false, Option, none, some, List, ◌∷◌, ◌++◌, Text, codes, if◌then◌else◌, ◌==◌,
}
use callvoice.Common.Decimal.{decimal}
use callvoice.Common.Int.{ℤ, pos, negsuc, above}
use callvoice.Services.{Services, Value, counter}
use callvoice.Services.Commands.{M, pure, eval}

abbrev pub window_ttl_seconds : ℕ
window_ttl_seconds = 2

abbrev pub global_key : Text
global_key = codes "cps:global"

unfoldable pub carrier_key : Text → Text
carrier_key id = codes "cps:carrier:" ++ id

-- The counter of a key in one second.
unfoldable pub window_key : Text → ℕ → Text
window_key key now = key ++ (b':' ∷ decimal now)

abbrev is_one : ℤ → Bool
is_one (pos n) = n == 1
is_one (negsuc n) = false

module _ ⦃S : Services⦄ where
  -- The end of the script, at the count that INCR gave.
  allow_count : Text → ℕ → Option ℤ → S.Store → Option Bool × S.Store
  allow_count k max_cps none s = (none, s)
  allow_count k max_cps (some count) s =
      let s' = if is_one count then S.expire k window_ttl_seconds s else s in
      if above count max_cps then (some false, S.decr k s') else (some true, s')

  unfoldable pub allow_script : Text → ℕ → S.Store → Option Bool × S.Store
  unfolding allow_count
  allow_script k max_cps s = let s' = S.incr k s in allow_count k max_cps (counter (S.read s' k)) s'

  -- `Allow`.
  unfoldable pub allow : Text → ℕ → ℕ → M Bool
  unfolding allow_script
  allow key max_cps now =
      if max_cps == 0 then pure false else eval (allow_script (window_key key now) max_cps)

  unfoldable pub allow_global : ℕ → ℕ → M Bool
  allow_global max_cps now = allow global_key max_cps now

  unfoldable pub allow_carrier : Text → ℕ → ℕ → M Bool
  allow_carrier carrier_id max_cps now = allow (carrier_key carrier_id) max_cps now
