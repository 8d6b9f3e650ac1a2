-- ===== src/Session/Laws.antt =====
-- Who passes RequireSession.
use callvoice.Common.{
  ℕ, ◌≡◌, ◌<◌, refl, ap, sym, ◌∙◌, Bool, true, false, Bool-cases, not, ◌&&◌, Option, none, some,
  List, [], ◌∷◌, Text, codes, eqb, eqb_iff, is_empty, ltb, arith, inl, inr, ◌⊎◌,
}
use mathlib.Core.List.{Memᴰ}
use callvoice.Models.{User, Session, is_disabled}
use callvoice.Login.{Database, LoginServer, Reply, refuse, execute, admin_totp_setup_required}
use callvoice.Session.{
  Request, find_session, find_user, session_user, lookup_session, enrollment_allowed, Checked,
  passed, denied, checked_account, queried, require_session,
}

-- A session of the table that names the hash and has not ended.
abbrev pub Live : Text → ℕ → List Session → Session → Type 0
Live hash now ss x = Memᴰ x ss × (x.token_hash ≡ hash) × (now < x.expires_at)

find_session-Live :
    (hash : Text) (now : ℕ) (ss : List Session) (x : Session)
    → find_session hash now ss ≡ some x
    → Live hash now ss x
unfolding find_session
find_session-Live hash now [] x h = cc
find_session-Live hash now (s ∷ ss) x h =
    elim (Bool-cases (eqb s.token_hash hash && ltb now s.expires_at)) [
      | inl here ↦ found here (sym (rw here) ∙ h)
      | inr later ↦ further (find_session-Live hash now ss x (sym (rw later) ∙ h))
    ]
  where
    found :
        (eqb s.token_hash hash && ltb now s.expires_at) ≡ true
        → some s ≡ some x
        → Live hash now (s ∷ ss) x
    found here e =
        let same : x ≡ s = cc in
        (
          Memᴰ.head same,
          ap (λ y. y.token_hash) same ∙ (eqb_iff s.token_hash hash).0 (ground arith),
          rw same (ground arith),
        )

    further : Live hash now ss x → Live hash now (s ∷ ss) x
    further (m, e, h) = (Memᴰ.tail m, e, h)

-- A query leaves the tables, whether it fails or not.
execute_read :
    (db : Database)
    → (b : Bool) × (fs : List Bool) × (execute (λ d. d) db ≡ (b, record db { failures = fs }))
unfolding execute
execute_read db = by_failures db.failures refl
  where
    by_failures :
        (fs : List Bool)
        → db.failures ≡ fs
        → (b : Bool) × (gs : List Bool) × (execute (λ d. d) db ≡ (b, record db { failures = gs }))
    by_failures [] e = (true, [], rw e)
    by_failures (true ∷ fs) e = (false, fs, rw e)
    by_failures (false ∷ fs) e = (true, fs, rw e)

-- Why a request passes: its cookie names a session that has not ended, of an account that is not
-- disabled and that has its second factor where the policy asks an administrator for one, unless
-- the request is one of its enrollment.
abbrev pub Admitted : LoginServer → ℕ → Request → Database → User → Type 0
Admitted s now r db a =
    ((x : Session) × Live (s.crypto.hash_token r.cookie) now db.sessions x
      × (find_user x.user_id db.users ≡ some a))
    × (is_disabled a ≡ false)
    × ((admin_totp_setup_required s a ≡ false) ⊎ (enrollment_allowed r ≡ true))

set_up_or_exempt : (x y : Bool) → (x && not y) ≡ false → (x ≡ false) ⊎ (y ≡ true)
set_up_or_exempt false y h = inl refl
set_up_or_exempt true true h = inr refl
set_up_or_exempt true false h = cc

checked_account-passed :
    (s : LoginServer) (r : Request) (o : Option User) (a : User)
    → checked_account s r o ≡ passed a
    → (o ≡ some a)
      × (is_disabled a ≡ false)
      × ((admin_totp_setup_required s a ≡ false) ⊎ (enrollment_allowed r ≡ true))
unfolding checked_account admin_totp_setup_required
checked_account-passed s r none a h = cc
checked_account-passed s r (some b) a h = elim (Bool-cases (is_disabled b)) [
  | inl off ↦ refused {q = refuse 403 (codes "account_disabled")} (sym (rw off) ∙ h)
  | inr on ↦ elim (Bool-cases (admin_totp_setup_required s b && not (enrollment_allowed r))) [
    | inl missing ↦
        refused {q = refuse 403 (codes "totp_setup_required")} (sym (rw (on, missing)) ∙ h)
    | inr fine ↦ through (sym (rw (on, fine)) ∙ h) on fine
  ]
]
  where
    refused :
        {q : Reply}
        → Checked.denied q ≡ passed a
        → (some b ≡ some a)
          × (is_disabled a ≡ false)
          × ((admin_totp_setup_required s a ≡ false) ⊎ (enrollment_allowed r ≡ true))
    refused e = cc

    through :
        passed b ≡ passed a
        → is_disabled b ≡ false
        → (admin_totp_setup_required s b && not (enrollment_allowed r)) ≡ false
        → (some b ≡ some a)
          × (is_disabled a ≡ false)
          × ((admin_totp_setup_required s a ≡ false) ⊎ (enrollment_allowed r ≡ true))
    through e on fine =
        let same : b ≡ a = cc in
        (
          ap some same,
          ap (is_disabled) (sym same) ∙ on,
          set_up_or_exempt (admin_totp_setup_required s a) (enrollment_allowed r) (
              ap (λ c. admin_totp_setup_required s c && not (enrollment_allowed r)) (sym same)
              ∙ fine),
        )

session_user-some :
    (o : Option Session) (us : List User) (a : User)
    → session_user o us ≡ some a
    → (x : Session) × (o ≡ some x) × (find_user x.user_id us ≡ some a)
unfolding session_user
session_user-some none us a h = cc
session_user-some (some x) us a h = (x, refl, h)

queried-Admitted :
    (s : LoginServer) (now : ℕ) (r : Request) (b : Bool) (fs : List Bool) (db : Database) (a : User)
    → queried s now r (b, record db { failures = fs }) ≡ passed a
    → Admitted s now r db a
unfolding queried lookup_session
queried-Admitted s now r false fs db a h = cc
queried-Admitted s now r true fs db a h =
    let (found, on, enrolled) = checked_account-passed s r (lookup_session s now r.cookie db) a h in
    let (x, at, owner) =
      session_user-some (find_session (s.crypto.hash_token r.cookie) now db.sessions) db.users a
        found in
    (
      (x, find_session-Live (s.crypto.hash_token r.cookie) now db.sessions x at, owner),
      on,
      enrolled,
    )

-- A request passes RequireSession only if its cookie names a session that has not ended, of an
-- account that is not disabled and that has its second factor where the policy asks an administrator
-- for one, unless the request is one of its enrollment.
pub require_session-Admitted :
    (s : LoginServer) (now : ℕ) (r : Request) (db : Database) (a : User)
    → require_session s now r db ≡ passed a
    → Admitted s now r db a
unfolding require_session
require_session-Admitted s now r db a h =
    let (b, fs, read) = execute_read db in
    elim (Bool-cases (is_empty r.cookie)) [
      | inl bare ↦
          let refused : denied (refuse 401 (codes "unauthorized")) ≡ passed a = sym (rw bare) ∙ h in
          cc
      | inr given ↦
          let asked : queried s now r (execute (λ d. d) db) ≡ passed a = sym (rw given) ∙ h in
          queried-Admitted s now r b fs db a (ap (queried s now r) (sym read) ∙ asked)
    ]
