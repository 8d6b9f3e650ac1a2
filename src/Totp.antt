-- ===== src/Totp.antt =====
-- services/api/internal/httpapi/totp.go: the second factor, its setup and the login that it ends.
-- The tables and the steps of a login are those of Login.
pub mod Laws
use callvoice.Common.{
  ℕ, Bool, true, false, not, ◌&&◌, Option, none, some, List, [], ◌∷◌, Text, codes, eqb, is_empty,
  if◌then◌else◌, ◌==◌, select, lookup, amend,
}
use callvoice.Models.{User, Session, is_admin}
use callvoice.Login.{
  Database, LoginServer, Reply, refuse, internal_error, execute, is_locked, insert_audit,
  record_failed_login, reset_failed_login, begin_session,
}

-- authkit: `ParsePendingToken` at a time, `GenerateTOTPSecret` and `ValidateTOTP`; cryptokit:
-- `Encrypt` and `Decrypt` with the server's key.
pub record TotpCrypto : Type 0 where
  pub parse_pending_token : ℕ → Text → Option ℕ
  pub generate_totp_secret : ℕ → Option Text
  pub validate_totp : ℕ → Text → Text → Bool
  pub encrypt : Text → Option Text
  pub decrypt : Text → Option Text

abbrev pub done : Text → Reply
done text = refuse 200 text

-- `decryptTOTPSecret`
unfoldable pub decrypt_totp_secret : TotpCrypto → User → Option Text
decrypt_totp_secret c u = if is_empty u.totp_secret then none else c.decrypt u.totp_secret

-- The columns that `lookupUserByID` reads: not the name, and not when the user was disabled.
abbrev pub loaded : User → User
loaded u = record u { display_name = none; disabled_at = none }

abbrev pub loaded_row : Option User → Option User
loaded_row none = none
loaded_row (some u) = some (loaded u)

unfoldable pub find_by_id : ℕ → Database → Option User
find_by_id id db = loaded_row (lookup (λ u. u.id) id db.users)

-- `UPDATE users SET … WHERE id = $1`
abbrev pub update_user_by_id : ℕ → (User → User) → Database → Database
update_user_by_id id f db = record db { users = amend (λ u. u.id) id f db.users }

-- The reply to a statement that is the last one.
abbrev pub finish : Reply → Bool × Database → Reply × Database
finish reply (true, db) = (reply, db)
finish reply (false, db) = (internal_error, db)

store_secret : ℕ → Text → Option Text → Database → Reply × Database
store_secret id secret none db = (internal_error, db)
store_secret id secret (some encrypted) db = finish (done secret) (
    execute (update_user_by_id id (λ u. record u { totp_secret = encrypted; totp_enabled = false }))
      db)

generated : TotpCrypto → ℕ → Option Text → Database → Reply × Database
unfolding store_secret
generated c id none db = (internal_error, db)
generated c id (some secret) db = store_secret id secret (c.encrypt secret) db

-- `handleTOTPSetup`, for the user of the session; the text of the reply is the secret.
unfoldable pub handle_totp_setup : TotpCrypto → ℕ → User → Database → Reply × Database
unfolding generated
handle_totp_setup c seed user db =
    let go = generated c user.id (c.generate_totp_secret seed) db in
    if user.totp_enabled then (refuse 409 (codes "totp_already_enabled"), db) else go

-- `clearSessionCookie`: the row of the session goes, if the statement succeeds.
abbrev pub clear_session : LoginServer → Text → Database → Database
clear_session s cookie db =
    if is_empty cookie
    then db
    else (execute
        (λ d. record d {
          sessions = select (λ x. not (eqb x.token_hash (s.crypto.hash_token cookie))) d.sessions;
        })
        db).1

-- What follows the statement that enables the second factor.
enabled : LoginServer → User → Text → Bool × Database → Reply × Database
enabled s user cookie (false, db) = (internal_error, db)
enabled s user cookie (true, db) =
    if is_admin user
    then (done (codes "relogin_required"), clear_session s cookie db)
    else (done (codes "ok"), db)

check_setup :
    LoginServer → TotpCrypto → ℕ → User → Text → Text → Option Text → Database → Reply × Database
unfolding enabled insert_audit
check_setup s c now user cookie code none db = (refuse 400 (codes "totp_not_setup"), db)
check_setup s c now user cookie code (some secret) db =
    if c.validate_totp now secret code
    then enabled s user cookie
        (execute (update_user_by_id user.id (λ u. record u { totp_enabled = true })) db)
    else (refuse 401 (codes "invalid_totp"), (insert_audit user.id (codes "totp_failed") db).1)

-- The user is read again, to see the secret of the setup; a user who is gone is an error.
reloaded :
    LoginServer
    → TotpCrypto
    → ℕ
    → User
    → Text
    → Text
    → Bool × Database
    → Option User
    → Reply × Database
unfolding check_setup decrypt_totp_secret
reloaded s c now user cookie code (false, db) found = (internal_error, db)
reloaded s c now user cookie code (true, db) none = (internal_error, db)
reloaded s c now user cookie code (true, db) (some fresh) =
    check_setup s c now user cookie code (decrypt_totp_secret c fresh) db

-- `handleTOTPEnable`, for the user of the session with its cookie; an empty code stands for a body
-- that cannot be read as well.
unfoldable pub handle_totp_enable :
    LoginServer → TotpCrypto → ℕ → User → Text → Text → Database → Reply × Database
unfolding reloaded find_by_id execute
handle_totp_enable s c now user cookie code db =
    let go = reloaded s c now user cookie code (execute (λ d. d) db) (find_by_id user.id db) in
    if user.totp_enabled
    then (refuse 409 (codes "totp_already_enabled"), db)
    else if is_empty code
    then (refuse 400 (codes "code_required"), db)
    else go

-- After the failures are reset, the session starts as at the end of any other login.
verified : LoginServer → ℕ → ℕ → User → Bool × Database → Reply × Database
unfolding begin_session
verified s now seed u (false, db) = (internal_error, db)
verified s now seed u (true, db) = begin_session s now seed u (codes "ok") true db

check_code :
    LoginServer → TotpCrypto → ℕ → ℕ → User → Text → Option Text → Database → Reply × Database
unfolding verified insert_audit record_failed_login reset_failed_login
check_code s c now seed u code none db = (internal_error, db)
check_code s c now seed u code (some secret) db =
    if c.validate_totp now secret code
    then verified s now seed u (reset_failed_login u.id db)
    else (
      refuse 401 (codes "invalid_totp"),
      (insert_audit u.id (codes "totp_failed") (record_failed_login now u db)).1,
    )

verify_user :
    LoginServer → TotpCrypto → ℕ → ℕ → Text → Bool × Database → Option User → Reply × Database
unfolding check_code decrypt_totp_secret is_locked
verify_user s c now seed code (false, db) found = (internal_error, db)
verify_user s c now seed code (true, db) none = (refuse 401 (codes "unauthorized"), db)
verify_user s c now seed code (true, db) (some u) =
    let go = check_code s c now seed u code (decrypt_totp_secret c u) db in
    if is_locked now u
    then (refuse 423 (codes "account_locked"), db)
    else if not u.totp_enabled
    then (refuse 400 (codes "totp_not_enabled"), db)
    else go

verify_token : LoginServer → TotpCrypto → ℕ → ℕ → Text → Option ℕ → Database → Reply × Database
unfolding verify_user find_by_id execute
verify_token s c now seed code none db = (refuse 401 (codes "pending_invalid"), db)
verify_token s c now seed code (some id) db =
    let go = verify_user s c now seed code (execute (λ d. d) db) (find_by_id id db) in
    if is_empty code then (refuse 400 (codes "code_required"), db) else go

-- `handleTOTPVerify`, with the pending cookie, empty for none.
unfoldable pub handle_totp_verify :
    LoginServer → TotpCrypto → ℕ → ℕ → Text → Text → Database → Reply × Database
unfolding verify_token
handle_totp_verify s c now seed pending code db =
    let go = verify_token s c now seed code (c.parse_pending_token now pending) db in
    if is_empty pending then (refuse 401 (codes "pending_required"), db) else go
