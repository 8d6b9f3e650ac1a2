-- ===== src/Sql/Wp/Base.antt =====
-- The meaning of `Wp` and its rules for statements, transactions and sequences.
use callvoice.Common.{ℕ, ◌≡◌, refl, sym, subst, inl, inr, Error, Result, ok, err, db_failed}
use callvoice.Sql.{
  Tables, Db, M, continue, pure, statement, query, insert, settle, atomically, control, ◌>>=◌,
}
use callvoice.Sql.Laws.{Ran, statement-Ran, insert-Ran, query-Ran}

module _ {A : Type 0} where
  -- `Q` for a success, `E` for an error.
  unfoldable pub Post :
      (A → Tables → Type 0) → (Error → Tables → Type 0) → Result A × Tables → Type 0
  Post Q E (ok a, t) = Q a t
  Post Q E (err e, t) = E e t

  abbrev pub told : Result A × Db → Result A × Tables
  told (r, db) = (r, db.tables)

  pub record Wp (m : M A) (Q : A → Tables → Type 0) (E : Error → Tables → Type 0) (t : Tables)
      : Type 0 where
    pub holds : (db : Db) → db.tables ≡ t → Post Q E (told (m db))

  Ran-Post :
      (Q : A → Tables → Type 0) (E : Error → Tables → Type 0) (p : Result A × Tables) (t : Tables)
      (after : Result A × Db)
      → Ran p t after
      → E db_failed t
      → Post Q E p
      → Post Q E (told after)
  unfolding Post
  Ran-Post Q E (r, t) t0 (r', db) (inl (e, f)) h k = subst (Post Q E) (λ i. (sym e i, sym f i)) k
  Ran-Post Q E (r, t) t0 (r', db) (inr (e, f)) h k = subst (Post Q E) (λ i. (sym e i, sym f i)) h

  pub statement-Wp :
      (Q : A → Tables → Type 0) (E : Error → Tables → Type 0) (f : ℕ → Tables → Result A × Tables)
      (t : Tables)
      → E db_failed t
      → ((now : ℕ) → Post Q E (f now t))
      → Wp (statement f) Q E t
  statement-Wp Q E f t h k = record {
    holds = λ db e.
        Ran-Post Q E (f db.now t) t (statement f db)
          (subst (λ u. Ran (f db.now u) u (statement f db)) e (statement-Ran f db)) h (k db.now);
  }

  pub insert-Wp :
      (Q : A → Tables → Type 0) (E : Error → Tables → Type 0)
      (f : ℕ → ℕ → Tables → Result A × Tables) (t : Tables)
      → E db_failed t
      → ((id now : ℕ) → Post Q E (f id now t))
      → Wp (insert f) Q E t
  insert-Wp Q E f t h k = record {
    holds = λ db e.
        Ran-Post Q E (f (db.fresh db.drawn) db.now t) t (insert f db)
          (subst (λ u. Ran (f (db.fresh db.drawn) db.now u) u (insert f db)) e (insert-Ran f db)) h
          (k (db.fresh db.drawn) db.now);
  }

  pub query-Wp :
      (Q : A → Tables → Type 0) (E : Error → Tables → Type 0) (f : Tables → Result A) (t : Tables)
      → E db_failed t
      → Post Q E (f t, t)
      → Wp (query f) Q E t
  query-Wp Q E f t h k = record {
    holds = λ db e.
        Ran-Post Q E (f t, t) t (query f db)
          (subst (λ u. Ran (f u, u) u (query f db)) e (query-Ran f db)) h k;
  }

module _ {A B : Type 0} where
  continue-Post :
      (Q : B → Tables → Type 0) (E : Error → Tables → Type 0) (k : A → M B) (r : Result A × Db)
      → Post (λ a t. Wp (k a) Q E t) E (told r)
      → Post Q E (told (continue k r))
  unfolding Post
  continue-Post Q E k (ok a, db) h = h.holds db refl
  continue-Post Q E k (err e, db) h = h

  pub bind-Wp :
      (Q : B → Tables → Type 0) (E : Error → Tables → Type 0) (m : M A) (k : A → M B) (t : Tables)
      → Wp m (λ a u. Wp (k a) Q E u) E t
      → Wp (m >>= k) Q E t
  unfolding ◌>>=◌
  bind-Wp Q E m k t h = record { holds = λ db e. continue-Post Q E k (m db) (h.holds db e) }

module _ {A : Type 0} where
  weaken-Post :
      (Q R : A → Tables → Type 0) (E : Error → Tables → Type 0) (r : Result A × Tables)
      → ((a : A) (u : Tables) → R a u → Q a u)
      → Post R E r
      → Post Q E r
  unfolding Post
  weaken-Post Q R E (ok a, u) h k = h a u k
  weaken-Post Q R E (err e, u) h k = k

  pub weaken-Wp :
      (Q R : A → Tables → Type 0) (E : Error → Tables → Type 0) (m : M A) (t : Tables)
      → ((a : A) (u : Tables) → R a u → Q a u)
      → Wp m R E t
      → Wp m Q E t
  weaken-Wp Q R E m t h k = record {
    holds = λ db e. weaken-Post Q R E (told (m db)) h (k.holds db e);
  }

module _ {A : Type 0} (Q : A → Tables → Type 0) where
  settle-Post :
      (E : Error → Tables → Type 0) (t : Tables) (r : Result A × Db)
      → Post Q (λ e _. E e t) (told r)
      → Post Q E (told (settle t r))
  unfolding Post
  settle-Post E t (ok a, db) k = k
  settle-Post E t (err e, db) k = k

  commit-Wp :
      (E : Error → Tables → Type 0) (a : A) (u : Tables)
      → E db_failed u
      → Q a u
      → Wp (control >>= λ _. pure a) Q E u
  unfolding Post pure
  commit-Wp E a u h k =
      bind-Wp Q E control (λ _. pure a) u
        (query-Wp (λ _ v. Wp (pure a) Q E v) E (λ _. ok tt) u h
          (record { holds = λ db e. subst (Q a) (sym e) k }))

  framed-Wp :
      (E : Error → Tables → Type 0) (m : M A) (t : Tables)
      → ((u : Tables) → E db_failed u)
      → Wp m Q E t
      → Wp (control >>= λ _. m >>= λ a. control >>= λ _. pure a) Q E t
  unfolding Post
  framed-Wp E m t h k =
      bind-Wp Q E control (λ _. m >>= λ a. control >>= λ _. pure a) t
        (query-Wp (λ _ v. Wp (m >>= λ a. control >>= λ _. pure a) Q E v) E (λ _. ok tt) t (h t)
          (bind-Wp Q E m (λ a. control >>= λ _. pure a) t
            (weaken-Wp (λ a v. Wp (control >>= λ _. pure a) Q E v) Q E m t
              (λ a u. commit-Wp E a u (h u)) k)))

  -- A transaction: an error of its body, whatever its tables, leaves the tables before it.
  pub atomically-Wp :
      (E : Error → Tables → Type 0) (m : M A) (t : Tables)
      → E db_failed t
      → Wp m Q (λ e _. E e t) t
      → Wp (atomically m) Q E t
  unfolding atomically Post ◌>>=◌ pure
  atomically-Wp E m t h k = record {
    holds = λ db e.
        subst
          (λ u.
            Post Q E (told (settle u ((control >>= λ _. m >>= λ a. control >>= λ _. pure a) db))))
          (sym e) (settle-Post E t _ ((framed-Wp (λ e _. E e t) m t (λ _. h) k).holds db e));
  }

module _ {A : Type 0} (Q : A → Tables → Type 0) (E : Error → Tables → Type 0) where
  pub ok-Post : {a : A} {t : Tables} → Q a t → Post Q E (ok a, t)
  unfolding Post
  ok-Post h = h

  pub err-Post : {e : Error} {t : Tables} → E e t → Post Q E (err e, t)
  unfolding Post
  err-Post h = h
