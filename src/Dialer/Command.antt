-- ===== src/Dialer/Command.antt =====
-- The originate command: IsE164, EscapeDialString and BuildOriginate.
pub mod Laws
pub mod Pattern
use callvoice.Common.{
  ℕ, Bool, true, false, not, ◌&&◌, ◌||◌, List, [], ◌∷◌, ◌++◌, Text, codes, is_empty, is_digit, leb,
  len, if◌then◌else◌, ◌==◌, Result, ok, err, invalid_e164, missing_fields,
}

abbrev pub all_digits : Text → Bool
all_digits [] = true
all_digits (c ∷ s) = is_digit c && all_digits s

-- The pattern `^\+[1-9]\d{1,14}$`.
unfoldable pub is_e164 : Text → Bool
is_e164 [] = false
is_e164 (p ∷ []) = false
is_e164 (p ∷ (c ∷ s)) =
    p == b'+' && leb b'1' c && leb c b'9' && all_digits s && leb 1 (len s) && leb (len s) 14

abbrev pub is_special : ℕ → Bool
is_special c = c == b'\\' || c == b',' || c == b'\'' || c == b'{' || c == b'}'

unfoldable pub escape_dial_string : Text → Text
escape_dial_string [] = []
escape_dial_string (c ∷ s) =
    let rest = escape_dial_string s in if is_special c then b'\\' ∷ (c ∷ rest) else c ∷ rest

-- The channel variables inside the braces.
unfoldable pub channel_vars : Text → Text → Text
unfolding escape_dial_string
channel_vars caller_id call_uuid =
    codes "origination_uuid="
    ++ (escape_dial_string call_uuid
        ++ (if is_empty caller_id
            then []
            else codes ",origination_caller_id_number=" ++ escape_dial_string caller_id))

abbrev command_text : Text → Text → Text → Text → Text
command_text vars agent_user gateway_name to =
    codes "originate {"
    ++ (vars
        ++ (codes "}user/"
            ++ (escape_dial_string agent_user
                ++ (codes " &bridge(sofia/gateway/"
                    ++ (escape_dial_string gateway_name
                        ++ (codes "/" ++ (escape_dial_string to ++ codes ")")))))))

unfoldable pub build_originate : Text → Text → Text → Text → Text → Result Text
unfolding channel_vars is_e164
build_originate agent_user gateway_name to caller_id call_uuid =
    if not (is_e164 to)
    then err invalid_e164
    else if not (is_empty caller_id) && not (is_e164 caller_id)
    then err invalid_e164
    else if is_empty agent_user || is_empty gateway_name || is_empty call_uuid
    then err missing_fields
    else ok (command_text (channel_vars caller_id call_uuid) agent_user gateway_name to)
