-- ===== src/Login/Lockout.antt =====
-- Failed logins lock the account, and nothing opens it before the lock ends.
use callvoice.Common.{
  ℕ, suc, ◌+◌, ◌≡◌, ◌<◌, refl, ap, sym, subst, ◌∙◌, Bool, true, false, Bool-cases, Option, none,
  some, List, [], ◌∷◌, Text, codes, eqb, is_empty, trim_space, to_lower, leb, length, arith, All,
  if◌then◌else◌, ◌==◌, ==_refl, inl, inr,
}
use callvoice.Models.{User, is_disabled}
use callvoice.Login.{
  Database, LoginServer, refuse, execute, find_account, set_attempts, update_attempts, insert_audit,
  audited, next_attempts, record_failed_login, is_locked, login_account, looked_up, handle_login,
  lock_duration, max_failed_logins,
}

-- The account with another count and another lock.
abbrev pub attempted : ℕ → Option ℕ → User → User
attempted failed locked a = record a { failed_login_count = failed; locked_until = locked }

find_here :
    (key : Text) (b : User) (us : List User)
    → eqb (to_lower b.email) key ≡ true
    → find_account key (b ∷ us) ≡ some b
unfolding find_account
find_here key b us e = rw e

find_later :
    (key : Text) (b : User) (us : List User)
    → eqb (to_lower b.email) key ≡ false
    → find_account key (b ∷ us) ≡ find_account key us
unfolding find_account
find_later key b us e = rw e

abbrev update_row : ℕ → ℕ → Option ℕ → User → User
update_row id failed locked b = if b.id == id then attempted failed locked b else b

email_kept :
    (b : User) (failed : ℕ) (locked : Option ℕ) (c : Bool)
    → (if c then attempted failed locked b else b).email ≡ b.email
email_kept b failed locked true = refl
email_kept b failed locked false = refl

row_updated :
    (a b : User) (failed : ℕ) (locked : Option ℕ)
    → b ≡ a
    → some (update_row a.id failed locked b) ≡ some (attempted failed locked a)
row_updated a b failed locked e = rw (e, ==_refl a.id)

find-set_attempts :
    (key : Text) (failed : ℕ) (locked : Option ℕ) (a : User) (us : List User)
    → find_account key us ≡ some a
    → find_account key (set_attempts a.id failed locked us) ≡ some (attempted failed locked a)
unfolding find_account set_attempts
find-set_attempts key f l a [] h = cc
find-set_attempts key f l a (b ∷ us) h =
    let kept = email_kept b f l (b.id == a.id) in
    elim (Bool-cases (eqb (to_lower b.email) key)) [
      | inl here ↦
          let same : b ≡ a = cc (find_here key b us here, h) in
          find_here key (update_row a.id f l b) (set_attempts a.id f l us)
            (ap (λ t. eqb (to_lower t) key) kept ∙ here)
          ∙ row_updated a b f l same
      | inr later ↦
          find_later key (update_row a.id f l b) (set_attempts a.id f l us)
            (ap (λ t. eqb (to_lower t) key) kept ∙ later)
          ∙ find-set_attempts key f l a us (sym (find_later key b us later) ∙ h)
    ]

-- No coming statement fails.
abbrev pub Working : Database → Type 0
Working db = db.failures ≡ []

execute-Working :
    (f : Database → Database) (db : Database) → Working db → execute f db ≡ (true, f db)
unfolding execute
execute-Working f db h = rw h

record_failed-Working :
    (now : ℕ) (a : User) (db : Database)
    → Working db
    → record_failed_login now a db
      ≡ record (update_attempts a.id (next_attempts now a).0 (next_attempts now a).1 db) {
        audit_logs = (a.id, codes "login_failed") ∷ db.audit_logs;
      }
unfolding record_failed_login insert_audit audited
record_failed-Working now a db h =
    let (failed, locked) = next_attempts now a in
    rw (
      execute-Working (update_attempts a.id failed locked) db h,
      audited,
      insert_audit,
      execute-Working (λ d. record d { audit_logs = (a.id, codes "login_failed") ∷ d.audit_logs })
          (update_attempts a.id failed locked db) h,
    )

abbrev pub key_of : Text → Text
key_of email = trim_space (to_lower email)

module _ (s : LoginServer) (seed : ℕ) (email : Text) (named : is_empty (key_of email) ≡ false) where
  -- An account stands under the email and no statement fails.
  abbrev pub Stands : User → Database → Type 0
  Stands a db = (find_account (key_of email) db.users ≡ some a) × Working db

  -- A password that is given and wrong.
  abbrev pub Wrong : User → Text → Type 0
  Wrong a password =
      (is_empty password ≡ false) × (s.crypto.verify_password a.password_hash password ≡ false)

  login_eq :
      (now : ℕ) (password : Text) (a : User) (db : Database)
      → is_empty password ≡ false
      → Stands a db
      → handle_login s now seed email password db ≡ login_account s now seed a password db
  unfolding handle_login looked_up
  login_eq now password a db given (found, h) =
      rw (named, given, execute-Working (λ d. d) db h, found, looked_up)

  -- A wrong password at an open account counts one more attempt.
  Wrong-eq :
      (now : ℕ) (password : Text) (a : User) (db : Database)
      → Stands a db
      → is_disabled a ≡ false
      → is_locked now a ≡ false
      → Wrong a password
      → handle_login s now seed email password db
        ≡ (refuse 401 (codes "invalid_credentials"), record_failed_login now a db)
  unfolding login_account
  Wrong-eq now password a db stands on open_ (given, wrong) =
      login_eq now password a db given stands ∙ simp (on, open_, wrong)

  Wrong-Stands :
      (now : ℕ) (password : Text) (a : User) (db : Database)
      → Stands a db
      → is_disabled a ≡ false
      → is_locked now a ≡ false
      → Wrong a password
      → Stands
          (attempted (next_attempts now a).0 (next_attempts now a).1 a)
          (handle_login s now seed email password db).1
  Wrong-Stands now password a db (found, h) on open_ wrong =
      rw (Wrong-eq now password a db (found, h) on open_ wrong, record_failed-Working now a db h)
        (
          find-set_attempts (key_of email) (next_attempts now a).0 (next_attempts now a).1 a
              db.users found,
          h,
        )

  -- Logins one after the other, each at its time.
  unfoldable pub guesses : List (ℕ × Text) → Database → Database
  guesses [] db = db
  guesses ((now, password) ∷ gs) db = guesses gs (handle_login s now seed email password db).1

  below_limit :
      (now : ℕ) (a : User)
      → suc a.failed_login_count < max_failed_logins
      → next_attempts now a ≡ (suc a.failed_login_count, none)
  below_limit now a h = rw (too_few a.failed_login_count h)
    where
      too_few : (n : ℕ) → suc n < 5 → leb 5 (suc n) ≡ false
      too_few n h = ground arith

  at_limit :
      (now : ℕ) (a : User)
      → suc a.failed_login_count ≡ max_failed_logins
      → next_attempts now a ≡ (0, some (now + lock_duration))
  at_limit now a h = rw h

  not_locked : (now : ℕ) (a : User) → a.locked_until ≡ none → is_locked now a ≡ false
  unfolding is_locked
  not_locked now a e = rw e

  locked_before :
      (t ends : ℕ) (a : User) → a.locked_until ≡ some ends → t < ends → is_locked t a ≡ true
  unfolding is_locked
  locked_before t ends a e before = rw e (ground arith)

  -- A wrong password, by the count and the lock that it leads to.
  next-Stands :
      (now : ℕ) (password : Text) (a : User) (db : Database) (next : ℕ × Option ℕ)
      → next_attempts now a ≡ next
      → Stands a db
      → is_disabled a ≡ false
      → is_locked now a ≡ false
      → Wrong a password
      → Stands (attempted next.0 next.1 a) (handle_login s now seed email password db).1
  next-Stands now password a db next e stands on open_ wrong =
      subst (λ q. Stands (attempted q.0 q.1 a) (handle_login s now seed email password db).1) e
        (Wrong-Stands now password a db stands on open_ wrong)

  -- A locked account refuses a login at any time before the end of the lock.
  refused :
      (a : User) (ends t : ℕ) (password : Text) (db : Database)
      → Stands a db
      → is_disabled a ≡ false
      → a.locked_until ≡ some ends
      → t < ends
      → is_empty password ≡ false
      → handle_login s t seed email password db ≡ (refuse 423 (codes "account_locked"), db)
  unfolding login_account is_locked
  refused a ends t password db stands on locked before given =
      login_eq t password a db given stands ∙ simp (on, locked_before t ends a locked before)

  -- When the first of some guesses and a last one is made.
  abbrev pub first_time : List (ℕ × Text) → ℕ → ℕ
  first_time [] now = now
  first_time (g ∷ gs) now = g.0

  not_locked_then :
      (gs : List (ℕ × Text)) (now : ℕ) (a : User)
      → a.locked_until ≡ none
      → is_locked (first_time gs now) a ≡ false
  not_locked_then gs now a e = not_locked (first_time gs now) a e

  -- Wrong passwords for an account that is not locked when the first of them is given, up to its
  -- fifth failure in a row, lock it for fifteen minutes from the last one: until then each login
  -- with a password that is not empty, also with the right one, answers 423 and changes nothing. The
  -- account is not disabled, and no statement fails.
  pub guesses-lock :
      (gs : List (ℕ × Text)) (now t : ℕ) (last password : Text) (a : User) (db : Database)
      → Stands a db
      → is_disabled a ≡ false
      → is_locked (first_time gs now) a ≡ false
      → a.failed_login_count + suc (length gs) ≡ max_failed_logins
      → All (λ (g : ℕ × Text). Wrong a g.1) gs
      → Wrong a last
      → t < now + lock_duration
      → is_empty password ≡ false
      → handle_login s t seed email password (handle_login s now seed email last (guesses gs db)).1
        ≡ (
          refuse 423 (codes "account_locked"),
          (handle_login s now seed email last (guesses gs db)).1,
        )
  unfolding guesses is_disabled
  guesses-lock [] now t last password a db stands on open_ count tried wrong before given =
      let fifth : suc a.failed_login_count ≡ 5 = omega (arith, count) in
      let after : Stands (attempted 0 (some (now + lock_duration)) a)
          (handle_login s now seed email last db).1 =
        next-Stands now last a db (0, some (now + lock_duration)) (at_limit now a fifth) stands on
          open_ wrong in
      refused (attempted 0 (some (now + lock_duration)) a) (now + lock_duration) t password
        (handle_login s now seed email last db).1 after on refl before given
  guesses-lock ((at, g) ∷ gs) now t last password a db stands on open_ count (bad, tried) wrong
        before given =
      let few : suc a.failed_login_count < 5 = omega (arith, count) in
      let after : Stands (attempted (suc a.failed_login_count) none a)
          (handle_login s at seed email g db).1 =
        next-Stands at g a db (suc a.failed_login_count, none) (below_limit at a few) stands on
          open_ bad in
      guesses-lock gs now t last password (attempted (suc a.failed_login_count) none a)
        (handle_login s at seed email g db).1 after on
        (not_locked_then gs now (attempted (suc a.failed_login_count) none a) refl)
        (omega (arith, count)) tried wrong before given
