-- ===== src/Store/Users.antt =====
-- services/api/internal/store/users.go: the users, of whom one at most is an administrator.
use callvoice.Common.{
  ℕ, suc, Bool, true, false, not, ◌&&◌, Option, none, some, List, [], ◌∷◌, ◌++◌, Text, eqb,
  is_empty, to_lower, trim_space, ltb, if◌then◌else◌, exists, lookup, has, amend, Error, Result, ok,
  not_found, unique_violation, admin_exists, duplicate_email,
}
use callvoice.Models.{User, Role, admin, is_role, is_admin}
use callvoice.Sql.{
  Tables, M, pure, guard, rename, ◌>>=◌, ◌>>◌, control, statement, query, insert, atomically,
}
use callvoice.Store.{found, present, require, given}

pub record CreateUserInput : Type 0 where
  pub email : Text
  pub password_hash : Text
  pub role : Role
  pub display_name : Option Text

pub record UpdateUserInput : Type 0 where
  pub display_name : Option Text
  pub role : Option Role
  pub disabled : Option Bool
  pub disabled_at : Option ℕ

-- `List`, in the order of creation.
unfoldable pub list_users : M (List User)
list_users = query (λ t. ok t.users)

abbrev pub user_of : ℕ → Tables → Option User
user_of id t = lookup (λ u. u.id) id t.users

unfoldable pub get_user : ℕ → M User
get_user id = query (λ t. found (user_of id t))

unfoldable pub admins : List User → ℕ
admins [] = 0
admins (u ∷ us) = let rest = admins us in if is_admin u then suc rest else rest

unfoldable pub count_admins : M ℕ
count_admins = query (λ t. ok (admins t.users))

-- The lock is held to the end of the transaction, which no other one that takes it then splits.
unfoldable pub lock_admin_slot : M (Unit {0})
lock_admin_slot = do control; n ← count_admins; guard (not (ltb 0 n)) admin_exists

abbrev pub claim_admin_slot : Bool → M (Unit {0})
claim_admin_slot true = lock_admin_slot
claim_admin_slot false = pure tt

abbrev pub insert_user_row : CreateUserInput → ℕ → ℕ → Tables → Result User × Tables
insert_user_row input id now t =
    require
      (not (has (λ u. u.id) id t.users)
        && not (exists (λ u. eqb u.email (to_lower input.email)) t.users))
      unique_violation t
      (let u : User = record {
        id = id;
        email = to_lower input.email;
        password_hash = input.password_hash;
        role = input.role;
        display_name = input.display_name;
        totp_secret = [];
        totp_enabled = false;
        failed_login_count = 0;
        locked_until = none;
        disabled_at = none;
        created_at = now;
      } in
        (ok u, record t { users = t.users ++ u ∷ [] }))

-- `isUniqueViolation`
abbrev pub is_unique_violation : Error → Error
is_unique_violation unique_violation = duplicate_email
is_unique_violation e = e

unfoldable pub create_user : CreateUserInput → M User
create_user input = atomically (
    claim_admin_slot (is_role input.role admin)
    >> (λ db. rename is_unique_violation (insert (insert_user_row input) db)))

-- `strings.TrimSpace` of the new name, and no name if nothing is left.
abbrev pub named : Option Text → Option Text → Option Text
named none old = old
named (some s) old = if is_empty (trim_space s) then none else some (trim_space s)

-- Whether an update makes an administrator of a user who is none.
abbrev pub promotes : Option Role → Role → Bool
promotes none old = false
promotes (some r) old = is_role r admin && not (is_role old admin)

abbrev pub disabled_since : ℕ → UpdateUserInput → Option ℕ → Option ℕ
disabled_since now input old = elim input.disabled [
  | none ↦ old
  | some true ↦ some (given input.disabled_at now)
  | some false ↦ none
]

abbrev pub updated_user : UpdateUserInput → ℕ → User → User → User
updated_user input now cur u = record u {
  display_name = named input.display_name cur.display_name;
  role = given input.role cur.role;
  disabled_at = disabled_since now input cur.disabled_at;
}

abbrev pub update_user_row : ℕ → UpdateUserInput → User → ℕ → Tables → Result User × Tables
update_user_row id input cur now t =
    let update = updated_user input now cur in
    present (user_of id t) t
      (λ u. (ok (update u), record t { users = amend (λ u. u.id) id update t.users }))

-- `FOR UPDATE` keeps the row from other updates until the end of the transaction.
unfoldable pub update_user : ℕ → UpdateUserInput → M User
update_user id input = atomically do
  cur ← get_user id
  claim_admin_slot (promotes input.role cur.role)
  statement (update_user_row id input cur)

abbrev pub reset_user : Text → User → User
reset_user hash u = record u { password_hash = hash; failed_login_count = 0; locked_until = none }

abbrev pub reset_row : ℕ → Text → Tables → Result (Unit {0}) × Tables
reset_row id hash t =
    require (has (λ u. u.id) id t.users) not_found t
      (ok tt, record t { users = amend (λ u. u.id) id (reset_user hash) t.users })

unfoldable pub reset_password : ℕ → Text → M (Unit {0})
reset_password id hash = statement (λ _. reset_row id hash)
