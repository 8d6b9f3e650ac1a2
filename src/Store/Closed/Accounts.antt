-- ===== src/Store/Closed/Accounts.antt =====
-- A closed condition holds after each operation on users and carriers.
use callvoice.Common.{not-true, arith, ℕ, ◌≡◌, refl, Bool, true, false, ◌&&◌, not, Text, ltb}
use callvoice.Models.{admin, is_role}
use callvoice.Sql.{Tables, control}
use callvoice.Sql.Wp.{
  guard-last, ok-Post, Wp, query-then, query-Wp, statement-Wp, insert-Wp, atomically-Wp, pure-Wp,
  rename-Wp, reads-then, seq-Wp,
}
use callvoice.Store.Rules.{found-Post, present-Post, require-Post}
use callvoice.Store.Users.{
  create_user, CreateUserInput, update_user, UpdateUserInput, user_of, get_user, reset_password,
  admins, claim_admin_slot, lock_admin_slot, count_admins, promotes,
}
use callvoice.Store.Carriers.{
  create_carrier, CreateCarrierInput, update_carrier, UpdateCarrierInput, get_carrier, carrier_row,
  delete_carrier,
}
use callvoice.Store.Closed.{Closed, Keeps}

&&-left : (a b : Bool) → a && b ≡ true → a ≡ true
&&-left a b h = ground arith

no-admins : (n : ℕ) → not (ltb 0 n) ≡ true → n ≡ 0
no-admins n h = ground arith

module _ (P : Tables → Type 0) (C : Closed P) where
  -- The slot is claimed if there is no administrator.
  claim_admin_slot-Wp :
      (b : Bool) (t : Tables)
      → Wp
          (claim_admin_slot b)
          (λ _ u. (u ≡ t) × (b ≡ true → admins t.users ≡ 0))
          (λ _ _. Unit {0})
          t
  unfolding lock_admin_slot control count_admins
  claim_admin_slot-Wp false t = pure-Wp tt (refl, λ e. cc)
  claim_admin_slot-Wp true t = seq-Wp _ _ _ (
      query-Wp _ _ _ t tt (
        ok-Post _ _ (
          query-then _ _ tt (
            ok-Post _ _
              (guard-last _ _ t (λ _. tt) (λ e. (refl, λ _. no-admins (admins t.users) e)))))))

  pub create_user-Keeps :
      (input : CreateUserInput) (t : Tables) → P t → Keeps P (create_user input) t
  unfolding create_user
  create_user-Keeps input t p = atomically-Wp _ _ _ t tt (
      reads-then _ _ t _ (claim_admin_slot-Wp (is_role input.role admin) t) (λ a. rename-Wp _ _ (
        insert-Wp _ _ _ t tt (λ id now.
          require-Post _ _ _ _ t _ (λ _. tt)
            (λ e. ok-Post _ _ (C.user_added t _ (not-true (&&-left _ _ e)) a p))))))

  pub update_user-Keeps :
      (id : ℕ) (input : UpdateUserInput) (t : Tables) → P t → Keeps P (update_user id input) t
  unfolding update_user get_user
  update_user-Keeps id input t p = atomically-Wp _ _ _ t tt (
      query-then _ _ tt (
        found-Post _ _ (user_of id t) t (λ _. tt)
          (λ cur e. reads-then _ _ t _ (claim_admin_slot-Wp (promotes input.role cur.role) t) (λ a.
            statement-Wp _ _ _ t tt (λ now.
              present-Post _ _ (user_of id t) t _ (λ _. tt)
                (λ _ _. ok-Post _ _ (C.user_changed t id input cur now e a p)))))))

  pub reset_password-Keeps :
      (id : ℕ) (hash : Text) (t : Tables) → P t → Keeps P (reset_password id hash) t
  unfolding reset_password
  reset_password-Keeps id hash t p =
      statement-Wp _ _ _ t tt (λ _.
        require-Post _ _ _ _ t _ (λ _. tt) (λ _. ok-Post _ _ (C.password_changed t id hash p)))

  pub create_carrier-Keeps :
      (input : CreateCarrierInput) (t : Tables) → P t → Keeps P (create_carrier input) t
  unfolding create_carrier
  create_carrier-Keeps input t p = insert-Wp _ _ _ t tt (λ id now.
      require-Post _ _ _ _ t _ (λ _. tt)
        (λ _. require-Post _ _ _ _ t _ (λ _. tt) (λ _. ok-Post _ _ (C.carriers t _ p))))

  pub update_carrier-Keeps :
      (id : ℕ) (input : UpdateCarrierInput) (t : Tables) → P t → Keeps P (update_carrier id input) t
  unfolding update_carrier get_carrier
  update_carrier-Keeps id input t p = query-then _ _ tt (
      found-Post _ _ (carrier_row id t) t (λ _. tt)
        (λ cur _. statement-Wp _ _ _ t tt (λ now.
          present-Post _ _ (carrier_row id t) t _ (λ _. tt)
            (λ c _. require-Post _ _ _ _ t _ (λ _. tt) (λ _. ok-Post _ _ (C.carriers t _ p))))))

  pub delete_carrier-Keeps : (id : ℕ) (t : Tables) → P t → Keeps P (delete_carrier id) t
  unfolding delete_carrier
  delete_carrier-Keeps id t p = statement-Wp _ _ _ t tt (λ _.
      require-Post _ _ _ _ t _ (λ _. tt)
        (λ _. require-Post _ _ _ _ t _ (λ _. tt) (λ _. ok-Post _ _ (C.carriers t _ p))))
