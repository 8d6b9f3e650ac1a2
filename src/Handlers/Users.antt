-- ===== src/Handlers/Users.antt =====
-- services/api/internal/httpapi/users.go: the users, as an administrator keeps them.
use callvoice.Common.{
  ℕ, Bool, true, false, not, ◌||◌, Option, none, some, Text, codes, eqb, is_empty, trim_space,
  to_lower, contains, if◌then◌else◌, Error, admin_exists, duplicate_email,
}
use callvoice.Models.{Role, admin, supervisor, agent}
use callvoice.Store.Users.{list_users, create_user, update_user, reset_password, named}
use callvoice.Handlers.{
  to_internal, Answer, Handler, success, refusal, internal_error, or_missing, not_found_answer,
  call, with_part, unless, reply, status_ok, user_list, user_body,
}

pub record CreateUserRequest : Type 0 where
  pub email : Text
  pub password : Text
  pub role : Text
  pub display_name : Option Text

pub record PatchUserRequest : Type 0 where
  pub display_name : Option Text
  pub role : Option Text
  pub disabled : Option Bool

unfoldable pub parse_user_role : Text → Option Role
parse_user_role raw =
    let s = to_lower (trim_space raw) in
    if eqb s (codes "admin")
    then some admin
    else if eqb s (codes "supervisor")
    then some supervisor
    else if eqb s (codes "agent")
    then some agent
    else none

abbrev pub create_error : Error → Answer
create_error admin_exists = refusal 400 (codes "admin_exists")
create_error duplicate_email = refusal 400 (codes "email_taken")
create_error e = internal_error

abbrev pub patch_error : Error → Answer
patch_error admin_exists = refusal 400 (codes "admin_exists")
patch_error e = or_missing not_found_answer e

unfoldable pub handle_list_users : Handler
handle_list_users = call list_users to_internal (λ us. reply (success 200 (user_list us)))

-- `HashPassword` may fail.
abbrev pub with_hash : Option Text → (Text → Handler) → Handler
with_hash none k = reply internal_error
with_hash (some hash) k = k hash

abbrev pub disabling : ℕ → Option Bool → Option ℕ
disabling now none = none
disabling now (some false) = none
disabling now (some true) = some now

unfoldable pub patch_role : Option Text → (Option Role → Handler) → Handler
patch_role none k = k none
patch_role (some raw) k =
    with_part (parse_user_role raw) (codes "invalid_role") (λ role. k (some role))

module _ (parse_uuid : Text → Option ℕ) (hash_password : Text → Option Text) where
  unfoldable pub handle_create_user : Option CreateUserRequest → Handler
  handle_create_user request = with_part request (codes "invalid_json") (λ r.
      let email = trim_space (to_lower r.email) in
      unless (is_empty email || not (contains email (codes "@"))) (codes "invalid_email") (
        unless (is_empty r.password) (codes "password_required") (
          with_part (parse_user_role r.role) (codes "invalid_role") (λ role.
            with_hash (hash_password r.password) (λ hash.
              call
                (create_user (record {
                  email = email;
                  password_hash = hash;
                  role = role;
                  display_name = named r.display_name none;
                }))
                create_error (λ u. reply (success 201 (user_body u))))))))

  -- `now` is the time that the server reads for `disabled_at`.
  unfoldable pub handle_patch_user : ℕ → Text → Option PatchUserRequest → Handler
  handle_patch_user now id request = with_part (parse_uuid id) (codes "invalid_id") (λ id.
      with_part request (codes "invalid_json") (λ r. patch_role r.role (λ role.
        call
          (update_user id (record {
            display_name = r.display_name;
            role = role;
            disabled = r.disabled;
            disabled_at = disabling now r.disabled;
          }))
          patch_error (λ u. reply (success 200 (user_body u))))))

  unfoldable pub handle_reset_user_password : Text → Option Text → Handler
  handle_reset_user_password id request = with_part (parse_uuid id) (codes "invalid_id") (λ id.
      with_part request (codes "invalid_json") (λ password.
        unless (is_empty password) (codes "password_required") (
          with_hash (hash_password password) (λ hash.
            call (reset_password id hash) (or_missing not_found_answer)
              (λ _. reply (success 200 status_ok))))))
