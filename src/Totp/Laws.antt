-- ===== src/Totp/Laws.antt =====
-- Who gets a session from the second factor.
use callvoice.Common.{
  ◌+◌, ◌∷◌, subst, ℕ, ◌≡◌, refl, sym, Bool, true, false, not, Option, none, some, [], Text,
  is_empty, if◌then◌else◌, lookup, arith,
}
use callvoice.Models.{User}
use callvoice.Login.{
  Database, LoginServer, Reply, insert_audit, is_locked, execute, reset_failed_login,
  insert_session, begin_session,
}
use callvoice.Totp.{
  TotpCrypto, loaded_row, loaded, find_by_id, decrypt_totp_secret, check_code, verify_user,
  verify_token, handle_totp_verify, verified,
}

-- The reply gives a session.
abbrev Given : Text → Reply × Database → Type 0
Given plain r = r.0.session_cookie ≡ some plain

Given-else :
    (plain : Text) (b : Bool) (x y : Reply × Database)
    → x.0.session_cookie ≡ none
    → Given plain (if b then x else y)
    → (b ≡ false) × Given plain y
Given-else plain true x y n h = cc
Given-else plain false x y n h = (refl, h)

Given-then :
    (plain : Text) (b : Bool) (x y : Reply × Database)
    → y.0.session_cookie ≡ none
    → Given plain (if b then x else y)
    → (b ≡ true) × Given plain x
Given-then plain true x y n h = (refl, h)
Given-then plain false x y n h = cc

module _ (c : TotpCrypto) (now : ℕ) (code : Text) where
  -- What a row must have for the code to end its login.
  abbrev pub Proved : User → Type 0
  Proved u =
      (secret : Text) × (is_locked now u ≡ false)
      × (u.totp_enabled ≡ true)
      × (decrypt_totp_secret c u ≡ some secret)
      × (c.validate_totp now secret code ≡ true)

  -- The pending token names such a user.
  abbrev pub Verified : Text → Database → Type 0
  Verified pending db =
      (id : ℕ) × (u : User) × (c.parse_pending_token now pending ≡ some id)
      × (lookup (λ v. v.id) id db.users ≡ some u)
      × Proved u

module _ (s : LoginServer) (c : TotpCrypto) (now : ℕ) (seed : ℕ) (code plain : Text) where
  check_code-Given :
      (u : User) (o : Option Text) (db : Database)
      → Given plain (check_code s c now seed u code o db)
      → (secret : Text) × (o ≡ some secret) × (c.validate_totp now secret code ≡ true)
  unfolding check_code
  check_code-Given u none db h = cc
  check_code-Given u (some secret) db h =
      (secret, refl, (Given-then plain (c.validate_totp now secret code) _ _ refl h).0)

  verify_user-Given :
      (r : Bool × Database) (o : Option User)
      → Given plain (verify_user s c now seed code r o)
      → (u : User) × (o ≡ some u) × Proved c now code u
  unfolding verify_user
  verify_user-Given (false, db) o h = cc
  verify_user-Given (true, db) none h = cc
  verify_user-Given (true, db) (some u) h =
      let (l, h1) = Given-else plain (is_locked now u) _ _ refl h in
      let (e, h2) = Given-else plain (not u.totp_enabled) _ _ refl h1 in
      let (secret, d, v) = check_code-Given u (decrypt_totp_secret c u) db h2 in
      (u, refl, (secret, l, enabled u.totp_enabled e, d, v))
    where
      enabled : (b : Bool) → not b ≡ false → b ≡ true
      enabled b e = ground arith

  verify_token-Given :
      (o : Option ℕ) (db : Database)
      → Given plain (verify_token s c now seed code o db)
      → (id : ℕ) × (u : User) × (o ≡ some id) × (find_by_id id db ≡ some u) × Proved c now code u
  unfolding verify_token
  verify_token-Given none db h = cc
  verify_token-Given (some id) db h =
      let (_, h1) = Given-else plain (is_empty code) _ _ refl h in
      let (u, f, q) = verify_user-Given (execute (λ d. d) db) (find_by_id id db) h1 in
      (id, u, refl, f, q)

  loaded-some :
      (o : Option User) (u : User)
      → loaded_row o ≡ some u
      → (v : User) × (o ≡ some v) × (loaded v ≡ u)
  loaded-some none u h = cc
  loaded-some (some v) u h = (v, refl, cc)

-- `handleTOTPVerify` gives a session only for a pending token that names a user, who is not locked
-- and has the second factor enabled, and for a code that is valid for the user's secret.
pub handle_totp_verify-Verified :
    (s : LoginServer) (c : TotpCrypto) (now seed : ℕ) (pending code plain : Text) (db : Database)
    → (handle_totp_verify s c now seed pending code db).0.session_cookie ≡ some plain
    → Verified c now code pending db
unfolding handle_totp_verify find_by_id is_locked decrypt_totp_secret
handle_totp_verify-Verified s c now seed pending code plain db h =
    let (_, h1) = Given-else plain (is_empty pending) _ _ refl h in
    let (id, u, e, f, q) =
      verify_token-Given s c now seed code plain (c.parse_pending_token now pending) db h1 in
    let (v, g, k) = loaded-some s c now seed code plain (lookup (λ v. v.id) id db.users) u f in
    (id, v, e, g, subst (λ x. Proved c now code x) (sym k) q)

-- A session is open: the cookie has a token, and the sessions one row more, with the hash of the
-- token, for the user and until the end of its time.
abbrev pub Opened : LoginServer → ℕ → ℕ → ℕ → Database → Reply × Database → Type 0
Opened s now seed id db r =
    (r.0.session_cookie ≡ some (s.crypto.new_session_token seed))
    × (r.1.sessions
        ≡ record {
          user_id = id;
          token_hash = s.crypto.hash_token (s.crypto.new_session_token seed);
          expires_at = now + s.session_ttl;
        }
          ∷ db.sessions)

verified-session :
    (s : LoginServer) (now seed : ℕ) (u : User) (db : Database)
    → db.failures ≡ []
    → Opened s now seed u.id db (verified s now seed u (reset_failed_login u.id db))
unfolding verified begin_session insert_session insert_audit execute reset_failed_login
verified-session s now seed u db n = rw n (refl, refl)

-- The right code ends the login, also that of a user who was disabled after the password was
-- checked, since the lookup does not read `disabled_at`: if the pending token names a user, who is
-- not locked and has the second factor enabled, the code is valid for the user's secret and no
-- statement fails, `handleTOTPVerify` gives the cookie of a
-- new session, which stands in the table of sessions for that user and until the end of its time.
pub handle_totp_verify-session :
    (s : LoginServer) (c : TotpCrypto) (now seed : ℕ) (pending code : Text) (db : Database)
    → (v : Verified c now code pending db) → is_empty pending ≡ false
    → is_empty code ≡ false
    → db.failures ≡ []
    → Opened s now seed v.1.id db (handle_totp_verify s c now seed pending code db)
unfolding handle_totp_verify verify_token verify_user check_code find_by_id is_locked
    decrypt_totp_secret execute
handle_totp_verify-session s c now seed pending code db (id, u, e, g, (secret, l, on, d, v)) p q n =
    rw (p, e, q, n, g)
      (rw (l, on, d, v) (verified-session s now seed (loaded u) (record db { failures = [] }) refl))
