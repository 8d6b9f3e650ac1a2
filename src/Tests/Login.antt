-- ===== src/Tests/Login.antt =====
-- Five wrong passwords and a sixth login.
use callvoice.Common.{
  ℕ, ◌≡◌, refl, true, false, none, some, List, [], ◌∷◌, Text, codes, eqb, is_empty, arith,
}
use callvoice.Models.{User, agent, is_disabled}
use callvoice.Login.{Database, LoginServer, refuse, handle_login}
use callvoice.Login.Lockout.{key_of, guesses, guesses-lock}
use callvoice.Session.{Request, require_session}
use callvoice.Session.Laws.{Admitted, require_session-Admitted}

abbrev account : User
account = record {
  id = 1;
  email = codes "a@b.fr";
  password_hash = codes "right";
  role = agent;
  display_name = none;
  totp_secret = [];
  totp_enabled = false;
  failed_login_count = 0;
  locked_until = none;
  disabled_at = none;
  created_at = 0;
}

abbrev database : Database
database = record { users = account ∷ []; sessions = []; audit_logs = []; failures = [] }

abbrev server : LoginServer
server = record {
  crypto = record {
    verify_password = λ h p. eqb h p;
    new_session_token = λ n. n ∷ [];
    hash_token = λ t. t;
    new_pending_token = λ n. n ∷ [];
  };
  session_ttl = 86400;
  require_admin_2fa = true;
}

abbrev tries : List (ℕ × Text)
tries = (1, codes "one") ∷ ((2, codes "two") ∷ ((3, codes "three") ∷ ((4, codes "four") ∷ [])))

abbrev email : Text
email = codes " A@b.fr"

email_named : is_empty (key_of email) ≡ false
unfolding callvoice.Common.to_lower callvoice.Common.trim_space
email_named = refl

guesses-lock_example :
    handle_login server 100 9 email
      (codes "right")
      (handle_login server 5 9 email
        (codes "five")
        (guesses server 9 email email_named tries database)).1
    ≡ (
      refuse 423 (codes "account_locked"),
      (handle_login server 5 9 email
          (codes "five")
          (guesses server 9 email email_named tries database)).1,
    )
unfolding eqb callvoice.Common.to_lower callvoice.Common.trim_space callvoice.Login.find_account
    callvoice.Login.is_locked callvoice.Models.is_disabled
guesses-lock_example =
    guesses-lock server 9 email email_named tries 5 100 (codes "five") (codes "right") account
      database (refl, refl) refl refl refl
      ((refl, refl), ((refl, refl), ((refl, refl), ((refl, refl), tt)))) (refl, refl) (omega arith)
      refl

-- The account again, with a session that ends at 50.
abbrev signed_in : Database
signed_in = record database {
  sessions = record { user_id = 1; token_hash = codes "t"; expires_at = 50 } ∷ [];
}

abbrev request : Request
request = record { is_post = false; path = codes "/auth/me"; cookie = codes "t" }

require_session-Admitted_example : Admitted server 10 request signed_in account
unfolding eqb require_session callvoice.Login.execute callvoice.Session.lookup_session
    callvoice.Models.is_disabled callvoice.Models.is_admin callvoice.Session.find_session
    callvoice.Session.find_user callvoice.Login.admin_totp_setup_required
require_session-Admitted_example = require_session-Admitted server 10 request signed_in account refl
