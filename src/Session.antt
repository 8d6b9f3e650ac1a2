-- ===== src/Session.antt =====
-- RequireSession of services/api/internal/httpapi/auth.go: what a request with a session cookie may
-- reach.
pub mod Laws
use callvoice.Common.{
  ℕ, Bool, true, false, not, ◌&&◌, ◌||◌, Option, none, some, List, [], ◌∷◌, Text, codes, eqb,
  is_empty, ltb, if◌then◌else◌, ◌==◌,
}
use callvoice.Models.{User, Session, is_disabled}
use callvoice.Login.{Database, LoginServer, Reply, refuse, execute, admin_totp_setup_required}

-- What a request shows of itself.
pub record Request : Type 0 where
  pub is_post : Bool
  pub path : Text
  -- The cookie `cv_session`, empty for a missing one.
  pub cookie : Text

unfoldable pub find_session : Text → ℕ → List Session → Option Session
find_session hash now [] = none
find_session hash now (s ∷ ss) =
    let rest = find_session hash now ss in
    if eqb s.token_hash hash && ltb now s.expires_at then some s else rest

unfoldable pub find_user : ℕ → List User → Option User
find_user id [] = none
find_user id (a ∷ as_) = if a.id == id then some a else find_user id as_

session_user : Option Session → List User → Option User
session_user none us = none
session_user (some s) us = find_user s.user_id us

-- `lookupUserBySessionToken`.
unfoldable pub lookup_session : LoginServer → ℕ → Text → Database → Option User
unfolding session_user
lookup_session s now plain db =
    session_user (find_session (s.crypto.hash_token plain) now db.sessions) db.users

-- `admin2FAEnrollmentAllowed`.
unfoldable pub enrollment_allowed : Request → Bool
enrollment_allowed r =
    r.is_post
    && (eqb r.path (codes "/auth/2fa/setup")
        || eqb r.path (codes "/auth/2fa/enable")
        || eqb r.path (codes "/auth/logout"))

-- The account that may go on, or the reply that ends the request.
pub data Checked : Type 0 where
  passed : User → Checked
  denied : Reply → Checked

checked_account : LoginServer → Request → Option User → Checked
checked_account s r none = denied (refuse 401 (codes "unauthorized"))
checked_account s r (some a) =
    if is_disabled a
    then denied (refuse 403 (codes "account_disabled"))
    else if admin_totp_setup_required s a && not (enrollment_allowed r)
    then denied (refuse 403 (codes "totp_setup_required"))
    else passed a

-- The query fails, or gives the account.
queried : LoginServer → ℕ → Request → Bool × Database → Checked
unfolding checked_account
queried s now r (false, db) = denied (refuse 401 (codes "unauthorized"))
queried s now r (true, db) = checked_account s r (lookup_session s now r.cookie db)

-- `RequireSession`.
unfoldable pub require_session : LoginServer → ℕ → Request → Database → Checked
unfolding queried
require_session s now r db =
    if is_empty r.cookie
    then denied (refuse 401 (codes "unauthorized"))
    else queried s now r (execute (λ d. d) db)
