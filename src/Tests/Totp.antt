-- ===== src/Tests/Totp.antt =====
-- A user with a second factor who ends a login.
use callvoice.Common.{refl, true, none, some, [], ◌∷◌, codes, eqb, lookup}
use callvoice.Models.{User, admin}
use callvoice.Login.{Database, LoginServer, is_locked}
use callvoice.Totp.{TotpCrypto, handle_totp_verify, decrypt_totp_secret}
use callvoice.Totp.Laws.{Opened, Verified, handle_totp_verify-Verified, handle_totp_verify-session}

abbrev server : LoginServer
server = record {
  crypto = record {
    verify_password = λ hash password. eqb hash password;
    new_session_token = λ seed. codes "token";
    hash_token = λ t. codes "h";
    new_pending_token = λ id. codes "pending";
  };
  session_ttl = 3600;
  require_admin_2fa = true;
}

abbrev factors : TotpCrypto
factors = record {
  parse_pending_token = λ now t. some 1;
  generate_totp_secret = λ seed. some (codes "secret");
  validate_totp = λ now secret code. eqb code (codes "123456");
  encrypt = λ t. some t;
  decrypt = λ t. some t;
}

abbrev ada : User
ada = record {
  id = 1;
  email = codes "a@x";
  password_hash = codes "hash";
  role = admin;
  display_name = none;
  totp_secret = codes "secret";
  totp_enabled = true;
  failed_login_count = 0;
  locked_until = none;
  disabled_at = some 3;
  created_at = 1;
}

abbrev database : Database
database = record { users = ada ∷ []; sessions = []; audit_logs = []; failures = [] }

proof : Verified factors 10 (codes "123456") (codes "pending") database
unfolding is_locked decrypt_totp_secret lookup eqb
proof = (1, ada, refl, refl, (codes "secret", refl, refl, refl, refl))

handle_totp_verify-session_example :
    Opened server 10 0 proof.1.id database
      (handle_totp_verify server factors 10 0 (codes "pending") (codes "123456") database)
handle_totp_verify-session_example =
    handle_totp_verify-session server factors 10 0 (codes "pending") (codes "123456") database proof
      refl refl refl

ended :
    Opened server 10 0 proof.1.id database
      (handle_totp_verify server factors 10 0 (codes "pending") (codes "123456") database)
ended =
    handle_totp_verify-session server factors 10 0 (codes "pending") (codes "123456") database proof
      refl refl refl

handle_totp_verify-Verified_example :
    Verified factors 10 (codes "123456") (codes "pending") database
handle_totp_verify-Verified_example =
    handle_totp_verify-Verified server factors 10 0 (codes "pending") (codes "123456")
      (codes "token") database ended.0
