-- ===== src/Store/Admins.antt =====
-- services/api/internal/store/users.go: one administrator at most, over every history.
use callvoice.Common.{
  ℕ, ◌+◌, ◌≤◌, ◌≡◌, refl, sym, subst, ◌∙◌, inl, inr, Bool, true, false, ◌||◌, Bool-cases, Option,
  none, some, List, [], ◌∷◌, ◌++◌, Text, arith, lookup, amend, has, exists, ==_iff, ◌==◌,
  if◌then◌else◌,
}
use callvoice.Models.{User, Role, admin, supervisor, agent, is_role, is_admin}
use callvoice.Sql.{Tables, Db}
use callvoice.Store.{given}
use callvoice.Store.Users.{admins, updated_user, UpdateUserInput, promotes, user_of, reset_user}
use callvoice.Store.Operations.{Operation, history}
use callvoice.Store.Closed.{Closed}
use callvoice.Store.Closed.History.{history-Closed}

-- No two users have the same identifier.
unfoldable pub Distinct : List User → Type 0
Distinct [] = Unit
Distinct (u ∷ us) = (has (λ v. v.id) u.id us ≡ false) × Distinct us

lookup-here :
    (u : User) (i : ℕ) (us : List User)
    → (u.id == i) ≡ true
    → lookup (λ v. v.id) i (u ∷ us) ≡ some u
unfolding lookup
lookup-here u i us e = rw e refl

lookup-there :
    (u : User) (i : ℕ) (us : List User)
    → (u.id == i) ≡ false
    → lookup (λ v. v.id) i (u ∷ us) ≡ lookup (λ v. v.id) i us
unfolding lookup
lookup-there u i us e = rw e refl

-- A change of users that leaves their identifiers.
module _ (f : User → User) (keeps : (u : User) → (f u).id ≡ u.id) where
  has-amend :
      (i j : ℕ) (us : List User)
      → has (λ u. u.id) j (amend (λ u. u.id) i f us) ≡ has (λ u. u.id) j us
  unfolding has exists amend
  has-amend i j [] = refl
  has-amend i j (u ∷ us) = ground (arith, keeps u, has-amend i j us)

  amend-Distinct : (i : ℕ) (us : List User) → Distinct us → Distinct (amend (λ u. u.id) i f us)
  unfolding Distinct amend
  amend-Distinct i [] d = tt
  amend-Distinct i (u ∷ us) d =
      let same : (if u.id == i then f u else u).id ≡ u.id = ground (arith, keeps u) in
      (
        subst (λ j. has (λ v. v.id) j (amend (λ v. v.id) i f us) ≡ false) (sym same)
            (has-amend i u.id us ∙ d.0),
        amend-Distinct i us d.1,
      )

  -- Without the key nothing changes.
  admins-amend_none :
      (i : ℕ) (us : List User)
      → has (λ u. u.id) i us ≡ false
      → admins (amend (λ u. u.id) i f us) ≡ admins us
  unfolding has exists amend admins
  admins-amend_none i [] h = refl
  admins-amend_none i (u ∷ us) h = ground (arith, admins-amend_none i us)

  abbrev bit : Bool → ℕ
  bit b = if b then 1 else 0

  admins-amend :
      (i : ℕ) (us : List User) (cur : User)
      → Distinct us
      → lookup (λ u. u.id) i us ≡ some cur
      → admins (amend (λ u. u.id) i f us) + bit (is_admin cur) ≡ admins us + bit (is_admin (f cur))
  unfolding Distinct lookup amend admins
  admins-amend i [] cur d h = cc
  admins-amend i (u ∷ us) cur d h = elim (Bool-cases (u.id == i)) [
    | inl e ↦
        let alone =
          admins-amend_none i us
            (subst (λ j. has (λ v. v.id) j us ≡ false) ((==_iff u.id i).0 e) d.0) in
        let whole : some u ≡ some cur = sym (lookup-here u i us e) ∙ h in
        let one : u ≡ cur = cc in
        subst
          (λ c.
            admins (amend (λ v. v.id) i f (u ∷ us)) + bit (is_admin c)
            ≡ admins (u ∷ us) + bit (is_admin (f c)))
          one (rw (e, alone) (ground arith))
    | inr e ↦
        let below = admins-amend i us cur d.1 (sym (lookup-there u i us e) ∙ h) in
        rw e (ground (arith, below))
  ]

has-append :
    (i : ℕ) (us : List User) (u : User)
    → has (λ v. v.id) i (us ++ u ∷ []) ≡ has (λ v. v.id) i us || u.id == i
unfolding has exists
has-append i [] u = ground arith
has-append i (v ∷ us) u = ground (arith, has-append i us u)

append-Distinct :
    (us : List User) (u : User)
    → has (λ v. v.id) u.id us ≡ false
    → Distinct us
    → Distinct (us ++ u ∷ [])
unfolding Distinct has exists
append-Distinct [] u h d = (refl, tt)
append-Distinct (v ∷ us) u h d =
    (has-append v.id us u ∙ ground (arith, d.0), append-Distinct us u (ground arith) d.1)

admins-append :
    (us : List User) (u : User) → admins (us ++ u ∷ []) ≡ admins us + (if is_admin u then 1 else 0)
unfolding admins
admins-append [] u = ground arith
admins-append (v ∷ us) u = ground (arith, admins-append us u)

admins-reset :
    (id : ℕ) (hash : Text) (us : List User)
    → admins (amend (λ u. u.id) id (reset_user hash) us) ≡ admins us
unfolding admins amend is_admin
admins-reset id hash [] = refl
admins-reset id hash (u ∷ us) = ground (arith, admins-reset id hash us)

abbrev OneAdmin : Tables → Type 0
OneAdmin t = Distinct t.users × (admins t.users ≤ 1)

added-OneAdmin :
    (t : Tables) (u : User)
    → has (λ u. u.id) u.id t.users ≡ false
    → (is_role u.role admin ≡ true → admins t.users ≡ 0)
    → OneAdmin t
    → OneAdmin (record t { users = t.users ++ u ∷ [] })
unfolding is_admin
added-OneAdmin t u h a p =
    (append-Distinct t.users u h p.0, (let e = admins-append t.users u in ground (arith, e, p.1)))

-- The count after an update, from the count before it.
count-promotes :
    (m n : ℕ) (o : Option Role) (old : Role)
    → (promotes o old ≡ true → n ≡ 0)
    → m + (if is_role old admin then 1 else 0) ≡ n + (if is_role (given o old) admin then 1 else 0)
    → n ≤ 1
    → m ≤ 1
count-promotes m n none old a e h = ground arith
count-promotes m n (some admin) admin a e h = ground arith
count-promotes m n (some admin) supervisor a e h = let z = a refl in ground arith
count-promotes m n (some admin) agent a e h = let z = a refl in ground arith
count-promotes m n (some supervisor) old a e h = ground arith
count-promotes m n (some agent) old a e h = ground arith

changed-OneAdmin :
    (t : Tables) (id : ℕ) (input : UpdateUserInput) (cur : User) (now : ℕ)
    → user_of id t ≡ some cur
    → (promotes input.role cur.role ≡ true → admins t.users ≡ 0)
    → OneAdmin t
    → OneAdmin (record t { users = amend (λ u. u.id) id (updated_user input now cur) t.users })
unfolding is_admin
changed-OneAdmin t id input cur now e a p = (
  amend-Distinct (updated_user input now cur) (λ _. refl) id t.users p.0,
  count-promotes _ (admins t.users) input.role cur.role a
      (admins-amend (updated_user input now cur) (λ _. refl) id t.users cur p.0 e) p.1,
)

reset-OneAdmin :
    (t : Tables) (id : ℕ) (hash : Text)
    → OneAdmin t
    → OneAdmin (record t { users = amend (λ u. u.id) id (reset_user hash) t.users })
reset-OneAdmin t id hash p = (
  amend-Distinct (reset_user hash) (λ _. refl) id t.users p.0,
  subst (λ n. n ≤ 1) (sym (admins-reset id hash t.users)) p.1,
)

users-Closed : Closed OneAdmin
users-Closed = record {
  carriers = λ t _ p. p;
  campaign_agents = λ t _ p. p;
  lead_lists = λ t _ p. p;
  dispositions = λ t _ p. p;
  call_logs = λ t _ p. p;
  campaign_added = λ t _ p. p;
  campaign_changed = λ t _ _ _ _ _ _ p. p;
  lead_added = λ t l _ p. p;
  lead_taken = λ t _ _ p. p;
  lead_disposed = λ t _ _ _ p. p;
  user_added = added-OneAdmin;
  user_changed = changed-OneAdmin;
  password_changed = reset-OneAdmin;
}

-- After any history of the stores' operations, one after the other and whatever statements fail,
-- no two users have the same identifier and one user at most is an administrator, if this holds
-- before it.
pub history-admins :
    (os : List Operation) (db : Db)
    → Distinct db.tables.users
    → admins db.tables.users ≤ 1
    → Distinct (history os db).tables.users × (admins (history os db).tables.users ≤ 1)
history-admins os db d h = history-Closed OneAdmin users-Closed os db (d, h)
