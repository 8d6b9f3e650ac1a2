-- ===== src/Inbound/Number.antt =====
-- The called number and the destination of a DID: NormalizeDID and isAgentPool.
use callvoice.Common.{
  Bool, ◌&&◌, ◌||◌, ◌∷◌, Text, codes, eqb, is_empty, trim_space, trim_prefix, has_prefix, before,
  digits, to_lower, len, leb, if◌then◌else◌,
}

abbrev pub default_destination : Text
default_destination = codes "agent_pool:default"

-- What `NormalizeDID` does once the text is trimmed for the second time.
unfoldable pub with_plus : Text → Text
unfolding has_prefix digits
with_plus n =
    if is_empty n
    then n
    else if has_prefix n (codes "+")
    then n
    else if leb 8 (len (digits n)) && leb (len (digits n)) 15
    then b'+' ∷ digits n
    else n

unfoldable pub normalize_did : Text → Text
unfolding trim_space trim_prefix before with_plus
normalize_did number =
    with_plus (trim_space (before b'@' (trim_prefix (trim_space number) (codes "sip:"))))

unfoldable pub is_agent_pool : Text → Bool
unfolding trim_space to_lower eqb has_prefix
is_agent_pool dest =
    let d = trim_space (to_lower dest) in
    eqb d default_destination || eqb d (codes "queue:default") || has_prefix d (codes "agent_pool:")
