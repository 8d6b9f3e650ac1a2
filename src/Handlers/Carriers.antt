-- ===== src/Handlers/Carriers.antt =====
-- services/api/internal/httpapi/carriers.go: the carriers. A success that changes a carrier comes
-- after a notice of its identifier to the edge, whose errors are ignored.
use callvoice.Common.{
  ℕ, Bool, true, false, not, ◌||◌, Option, none, some, List, [], Text, codes, is_empty, trim_space,
  to_lower, if◌then◌else◌,
}
use callvoice.Common.Int.{ℤ, pos, above}
use callvoice.Models.{Carrier}
use callvoice.Store.{given}
use callvoice.Store.Carriers.{
  UpdateCarrierInput, is_transport, list_carriers, get_carrier, create_carrier, update_carrier,
  delete_carrier,
}
use callvoice.Handlers.{
  Handler, success, internal_error, or_missing, not_found_answer, to_internal, call, with_part,
  reply, bad_request, carrier_list, carrier_changed, carrier_deleted,
}

pub record CreateCarrierRequest : Type 0 where
  pub name : Text
  pub host : Text
  pub port : Option ℤ
  pub transport : Text
  pub username : Option Text
  pub password : Option Text
  pub realm : Option Text
  pub codecs : Option (List Text)
  pub caller_ids : Option (List Text)
  pub max_cps : Option ℤ
  pub max_channels : Option ℤ
  pub enabled : Option Bool
  pub priority : Option ℤ

pub record PatchCarrierRequest : Type 0 where
  pub name : Option Text
  pub host : Option Text
  pub port : Option ℤ
  pub transport : Option Text
  pub username : Option Text
  pub password : Option Text
  pub realm : Option Text
  pub codecs : Option (List Text)
  pub caller_ids : Option (List Text)
  pub max_cps : Option ℤ
  pub max_channels : Option ℤ
  pub enabled : Option Bool
  pub priority : Option ℤ

abbrev pub is_port : ℤ → Bool
is_port p = not (not (above p 0) || above p 65535)

abbrev pub bad_port : Option ℤ → Bool
bad_port none = false
bad_port (some p) = not (is_port p)

-- The text of the first field that is wrong, if one is.
unfoldable pub validate_carrier_fields : Text → Text → Text → ℤ → ℤ → Option ℤ → Option Text
validate_carrier_fields name host transport max_cps max_channels port =
    if is_empty name
    then some (codes "name_required")
    else if is_empty host
    then some (codes "host_required")
    else if not (is_transport transport)
    then some (codes "invalid_transport")
    else if not (above max_cps 0)
    then some (codes "invalid_max_cps")
    else if not (above max_channels 0)
    then some (codes "invalid_max_channels")
    else if bad_port port
    then some (codes "invalid_port")
    else none

unfoldable pub if_valid : Option Text → Handler → Handler
if_valid (some text) k = bad_request text
if_valid none k = k

-- `trimPtr`
abbrev pub trim_ptr : Option Text → Option Text
trim_ptr none = none
trim_ptr (some s) = if is_empty (trim_space s) then none else some (trim_space s)

unfoldable pub handle_list_carriers : Handler
handle_list_carriers = call list_carriers to_internal (λ cs. reply (success 200 (carrier_list cs)))

-- What `cryptokit.Encrypt` gives, or its error.
unfoldable pub encrypted : Option Text → (Text → Handler) → Handler
encrypted none k = reply internal_error
encrypted (some blob) k = k blob

abbrev pub or_udp : Text → Text
or_udp s = if is_empty s then codes "udp" else s

abbrev pub clears : Option Text → Bool
clears none = false
clears (some s) = is_empty (trim_space s)

-- An empty password clears the one that is stored.
abbrev pub clears_password : Option Text → Bool
clears_password none = false
clears_password (some s) = is_empty s

abbrev pub trimmed : Option Text → Text → Text
trimmed none old = old
trimmed (some s) old = trim_space s

abbrev pub lowered : Option Text → Text → Text
lowered none old = old
lowered (some s) old = to_lower (trim_space s)

-- The columns that `PATCH` writes over the row `cur`, with the password that is encrypted.
abbrev pub patch_input : PatchCarrierRequest → Carrier → Option Text → UpdateCarrierInput
patch_input r cur blob = record {
  name = some (trimmed r.name cur.name);
  host = some (trimmed r.host cur.host);
  port = r.port;
  transport = some (lowered r.transport cur.transport);
  username = trim_ptr r.username;
  clear_username = clears r.username;
  password = blob;
  clear_password = clears_password r.password;
  realm = trim_ptr r.realm;
  clear_realm = clears r.realm;
  codecs = r.codecs;
  caller_ids = r.caller_ids;
  max_cps = some (given r.max_cps cur.max_cps);
  max_channels = some (given r.max_channels cur.max_channels);
  enabled = r.enabled;
  priority = r.priority;
}

module _ (encrypt : Text → Option Text) where
  -- No password, or an empty one, is stored as none.
  unfoldable pub with_password : Option Text → (Option Text → Handler) → Handler
  with_password none k = k none
  with_password (some s) k =
      let go = encrypted (encrypt s) (λ blob. k (some blob)) in if is_empty s then k none else go

  unfoldable pub handle_create_carrier : Option CreateCarrierRequest → Handler
  handle_create_carrier request = with_part request (codes "invalid_json") (λ r.
      let transport = or_udp (to_lower (trim_space r.transport)) in
      let max_cps = given r.max_cps (pos 30) in
      let max_channels = given r.max_channels (pos 100) in
      if_valid
        (validate_carrier_fields (trim_space r.name) (trim_space r.host) transport max_cps
          max_channels r.port)
        (with_password r.password (λ blob.
          call
            (create_carrier (record {
              name = trim_space r.name;
              host = trim_space r.host;
              port = given r.port (pos 5060);
              transport = transport;
              username = trim_ptr r.username;
              password = given blob [];
              realm = trim_ptr r.realm;
              codecs = r.codecs;
              caller_ids = r.caller_ids;
              max_cps = max_cps;
              max_channels = max_channels;
              enabled = given r.enabled true;
              priority = given r.priority (pos 100);
            }))
            to_internal (λ c. reply (success 201 (carrier_changed c))))))

  module _ (parse_uuid : Text → Option ℕ) where
    unfoldable pub handle_patch_carrier : Text → Option PatchCarrierRequest → Handler
    handle_patch_carrier id request = with_part (parse_uuid id) (codes "invalid_id") (λ id.
        with_part request (codes "invalid_json") (λ r.
          call (get_carrier id) (or_missing not_found_answer) (λ cur.
            if_valid
              (validate_carrier_fields (trimmed r.name cur.name) (trimmed r.host cur.host)
                (lowered r.transport cur.transport) (given r.max_cps cur.max_cps)
                (given r.max_channels cur.max_channels) (some (given r.port cur.port)))
              (with_password r.password (λ blob.
                call (update_carrier id (patch_input r cur blob)) (or_missing not_found_answer)
                  (λ c. reply (success 200 (carrier_changed c))))))))

unfoldable pub handle_delete_carrier : (Text → Option ℕ) → Text → Handler
handle_delete_carrier parse_uuid id = with_part (parse_uuid id) (codes "invalid_id") (λ id.
    call (delete_carrier id) (or_missing not_found_answer)
      (λ _. reply (success 204 (carrier_deleted id))))
