-- ===== src/Login.antt =====
-- services/api/internal/httpapi/auth.go: the login with its lock after failed attempts, and the
-- checks on a session. The tables are lists of rows; passwords, tokens and their hashes are the
-- functions of a record `Crypto`.
pub mod Lockout
use callvoice.Common.{
  ℕ, suc, ◌+◌, ◌*◌, Bool, true, false, not, ◌&&◌, ◌||◌, Option, none, some, List, [], ◌∷◌, Text,
  codes, eqb, is_empty, trim_space, to_lower, ltb, leb, if◌then◌else◌, ◌==◌,
}
use callvoice.Models.{User, Session, is_disabled, is_admin}

abbrev pub max_failed_logins : ℕ
max_failed_logins = 5

-- Fifteen minutes, in seconds.
abbrev pub lock_duration : ℕ
lock_duration = 15 * 60

-- The tables, and which of the coming statements fail; past the end none does.
pub record Database : Type 0 where
  pub users : List User
  pub sessions : List Session
  pub audit_logs : List (ℕ × Text)
  pub failures : List Bool

-- authkit: `VerifyPassword`, `NewSessionToken` with its hash, `NewPendingToken`.
pub record Crypto : Type 0 where
  pub verify_password : Text → Text → Bool
  pub new_session_token : ℕ → Text
  pub hash_token : Text → Text
  pub new_pending_token : ℕ → Text

pub record LoginServer : Type 0 where
  pub crypto : Crypto
  pub session_ttl : ℕ
  pub require_admin_2fa : Bool

-- The status, the text of `error` or `status`, and the cookies that are set.
pub record Reply : Type 0 where
  pub status : ℕ
  pub text : Text
  pub session_cookie : Option Text
  pub pending_cookie : Option Text

abbrev pub refuse : ℕ → Text → Reply
refuse status text = record {
  status = status;
  text = text;
  session_cookie = none;
  pending_cookie = none;
}

abbrev pub internal_error : Reply
internal_error = refuse 500 (codes "internal_error")

-- Whether the next statement fails, and the database after it if it does.
abbrev pub next_fails : Database → Bool × Database
next_fails db = elim db.failures [ [] ↦ (false, db) | f ∷ fs ↦ (f, record db { failures = fs }) ]

-- The outcome of a statement.
unfoldable pub execute : (Database → Database) → Database → Bool × Database
execute f db = let (failed, db') = next_fails db in if failed then (false, db') else (true, f db')

-- `WHERE lower(email) = $1`
unfoldable pub find_account : Text → List User → Option User
find_account email [] = none
find_account email (a ∷ as_) =
    if eqb (to_lower a.email) email then some a else find_account email as_

-- `UPDATE users SET failed_login_count = …, locked_until = … WHERE id = …`
unfoldable pub set_attempts : ℕ → ℕ → Option ℕ → List User → List User
set_attempts id failed locked [] = []
set_attempts id failed locked (a ∷ as_) =
    let rest = set_attempts id failed locked as_ in
    (if a.id == id then record a { failed_login_count = failed; locked_until = locked } else a)
    ∷ rest

abbrev pub update_attempts : ℕ → ℕ → Option ℕ → Database → Database
update_attempts id failed locked db = record db { users = set_attempts id failed locked db.users }

unfoldable pub insert_audit : ℕ → Text → Database → Bool × Database
unfolding execute
insert_audit id event db = execute (λ d. record d { audit_logs = (id, event) ∷ d.audit_logs }) db

-- The count and the lock after one more failed attempt.
abbrev pub next_attempts : ℕ → User → ℕ × Option ℕ
next_attempts now a =
    if leb max_failed_logins (suc a.failed_login_count)
    then (0, some (now + lock_duration))
    else (suc a.failed_login_count, none)

-- The audit row is written if the update was.
audited : ℕ → Bool × Database → Database
audited id (true, db) = (insert_audit id (codes "login_failed") db).1
audited id (false, db) = db

unfoldable pub record_failed_login : ℕ → User → Database → Database
unfolding audited
record_failed_login now a db =
    let (failed, locked) = next_attempts now a in
    audited a.id (execute (update_attempts a.id failed locked) db)

unfoldable pub reset_failed_login : ℕ → Database → Bool × Database
reset_failed_login id db = execute (update_attempts id 0 none) db

unfoldable pub insert_session : ℕ → Text → ℕ → Database → Bool × Database
insert_session id hash expires db =
    execute
      (λ d. record d {
        sessions = record { user_id = id; token_hash = hash; expires_at = expires } ∷ d.sessions;
      })
      db

unfoldable pub is_locked : ℕ → User → Bool
is_locked now a = elim a.locked_until [ none ↦ false | some t ↦ ltb now t ]

-- A session is started; the audit row is written where a full login ends.
started : User → Text → Text → Bool → Bool × Database → Reply × Database
started a plain text audits (false, db) = (internal_error, db)
started a plain text audits (true, db) = (
  record { status = 200; text = text; session_cookie = some plain; pending_cookie = none },
  if audits then (insert_audit a.id (codes "login_ok") db).1 else db,
)

unfoldable pub begin_session :
    LoginServer → ℕ → ℕ → User → Text → Bool → Database → Reply × Database
unfolding started
begin_session s now seed a text audits db =
    let plain = s.crypto.new_session_token seed in
    started a plain text audits
      (insert_session a.id (s.crypto.hash_token plain) (now + s.session_ttl) db)

-- What follows a right password.
accepted : LoginServer → ℕ → ℕ → User → Bool × Database → Reply × Database
unfolding begin_session
accepted s now seed a (false, db) = (internal_error, db)
accepted s now seed a (true, db) =
    let setup = begin_session s now seed a (codes "totp_setup_required") false db in
    let full = begin_session s now seed a (codes "ok") true db in
    if a.totp_enabled
    then (
      record {
        status = 200;
        text = codes "totp_required";
        session_cookie = none;
        pending_cookie = some (s.crypto.new_pending_token a.id);
      },
      db,
    )
    else if s.require_admin_2fa && is_admin a
    then setup
    else full

-- The login of an account that is found.
unfoldable pub login_account : LoginServer → ℕ → ℕ → User → Text → Database → Reply × Database
unfolding accepted is_locked
login_account s now seed a password db =
    if is_disabled a
    then (refuse 403 (codes "account_disabled"), db)
    else if is_locked now a
    then (refuse 423 (codes "account_locked"), db)
    else if not (s.crypto.verify_password a.password_hash password)
    then (refuse 401 (codes "invalid_credentials"), record_failed_login now a db)
    else accepted s now seed a (reset_failed_login a.id db)

looked_up : LoginServer → ℕ → ℕ → Text → Bool × Database → Option User → Reply × Database
looked_up s now seed password (false, db) found = (internal_error, db)
looked_up s now seed password (true, db) none = (refuse 401 (codes "invalid_credentials"), db)
looked_up s now seed password (true, db) (some a) = login_account s now seed a password db

-- `handleLogin`, on a body that is read; `seed` is the random source.
unfoldable pub handle_login : LoginServer → ℕ → ℕ → Text → Text → Database → Reply × Database
unfolding looked_up execute
handle_login s now seed email password db =
    let key = trim_space (to_lower email) in
    if is_empty key || is_empty password
    then (refuse 400 (codes "email_and_password_required"), db)
    else looked_up s now seed password (execute (λ d. d) db) (find_account key db.users)

unfoldable pub admin_totp_setup_required : LoginServer → User → Bool
admin_totp_setup_required s a = s.require_admin_2fa && is_admin a && not a.totp_enabled
