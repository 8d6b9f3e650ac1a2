-- ===== src/Sql/Wp/Steps.antt =====
-- The rules of `Wp` as programs are written: a statement and then the rest.
use callvoice.Common.{
  ℕ, ◌≡◌, refl, sym, subst, Bool, true, false, Error, Result, ok, err, db_failed,
}
use callvoice.Sql.{◌>>◌, Tables, Db, M, fail, pure, guard, rename, statement, query, insert, ◌>>=◌}
use callvoice.Sql.Wp.Base.{Post, told, Wp, statement-Wp, insert-Wp, query-Wp, bind-Wp, weaken-Wp}

module _ {A B : Type 0} {Q : B → Tables → Type 0} {E : Error → Tables → Type 0} where
  pub query-then :
      (f : Tables → Result A) (k : A → M B) {t : Tables}
      → E db_failed t
      → Post (λ a u. Wp (k a) Q E u) E (f t, t)
      → Wp (query f >>= k) Q E t
  query-then f k {t = t} h g =
      bind-Wp Q E (query f) k t (query-Wp (λ a u. Wp (k a) Q E u) E f t h g)

  pub statement-then :
      (f : ℕ → Tables → Result A × Tables) (k : A → M B) {t : Tables}
      → E db_failed t
      → ((now : ℕ) → Post (λ a u. Wp (k a) Q E u) E (f now t))
      → Wp (statement f >>= k) Q E t
  statement-then f k {t = t} h g =
      bind-Wp Q E (statement f) k t (statement-Wp (λ a u. Wp (k a) Q E u) E f t h g)

  pub insert-then :
      (f : ℕ → ℕ → Tables → Result A × Tables) (k : A → M B) {t : Tables}
      → E db_failed t
      → ((id now : ℕ) → Post (λ a u. Wp (k a) Q E u) E (f id now t))
      → Wp (insert f >>= k) Q E t
  insert-then f k {t = t} h g =
      bind-Wp Q E (insert f) k t (insert-Wp (λ a u. Wp (k a) Q E u) E f t h g)

module _ {A : Type 0} (Q : A → Tables → Type 0) (E : Error → Tables → Type 0) where
  rename-Post :
      (f : Error → Error) (r : Result A × Db)
      → Post Q (λ e u. E (f e) u) (told r)
      → Post Q E (told (rename f r))
  unfolding Post rename
  rename-Post f (ok a, db) h = h
  rename-Post f (err e, db) h = h

  any-Post :
      ((a : A) (u : Tables) → Q a u)
      → ((e : Error) (u : Tables) → E e u)
      → (r : Result A × Tables) → Post Q E r
  unfolding Post
  any-Post h k (ok a, u) = h a u
  any-Post h k (err e, u) = k e u

module _ {A : Type 0} {Q : A → Tables → Type 0} {E : Error → Tables → Type 0} where
  pub pure-Wp : (a : A) {t : Tables} → Q a t → Wp (pure a) Q E t
  unfolding Post pure
  pure-Wp a h = record { holds = λ db e. subst (Q a) (sym e) h }

  pub guard-then :
      (b : Bool) (e : Error) (k : M A) {t : Tables}
      → (b ≡ false → E e t)
      → (b ≡ true → Wp k Q E t)
      → Wp (guard b e >> k) Q E t
  unfolding Post guard ◌>>◌ fail pure
  guard-then false e k h g = record { holds = λ db p. subst (E e) (sym p) (h refl) }
  guard-then true e k h g = record { holds = λ db p. (g refl).holds db p }

  pub rename-Wp :
      (f : Error → Error) (m : M A) {t : Tables}
      → Wp m Q (λ e u. E (f e) u) t
      → Wp (λ db. rename f (m db)) Q E t
  rename-Wp f m h = record { holds = λ db e. rename-Post Q E f (m db) (h.holds db e) }

  pub any-Wp :
      (m : M A) {t : Tables}
      → ((a : A) (u : Tables) → Q a u)
      → ((e : Error) (u : Tables) → E e u)
      → Wp m Q E t
  any-Wp m h k = record { holds = λ db _. any-Post Q E h k (told (m db)) }

module _ {A B : Type 0} {Q : B → Tables → Type 0} {E : Error → Tables → Type 0} where
  reads-bind :
      (m : M A) (k : A → M B) (t : Tables) (P : A → Type 0)
      → Wp m (λ a u. (u ≡ t) × P a) E t
      → ((a : A) → P a → Wp (k a) Q E t)
      → Wp (m >>= k) Q E t
  reads-bind m k t P h g = bind-Wp Q E m k t (
      weaken-Wp (λ a u. Wp (k a) Q E u) (λ a u. (u ≡ t) × P a) E m t
        (λ a u p. subst (Wp (k a) Q E) (sym p.0) (g a p.1)) h)

module _ {B : Type 0} {Q : B → Tables → Type 0} {E : Error → Tables → Type 0} where
  pub seq-Wp :
      (m : M (Unit {0})) (k : M B) (t : Tables) → Wp m (λ _ u. Wp k Q E u) E t → Wp (m >> k) Q E t
  unfolding ◌>>◌ ◌>>=◌
  seq-Wp m k t h = record { holds = (bind-Wp Q E m (λ _. k) t h).holds }

  -- A program that only reads, before another.
  pub reads-then :
      (m : M (Unit {0})) (k : M B) (t : Tables) (P : Type 0)
      → Wp m (λ _ u. (u ≡ t) × P) E t
      → (P → Wp k Q E t)
      → Wp (m >> k) Q E t
  unfolding ◌>>◌ ◌>>=◌
  reads-then m k t P h g = record { holds = (reads-bind m (λ _. k) t (λ _. P) h (λ _. g)).holds }

module _ {A : Type 0} (Q : A → Tables → Type 0) (E : Error → Tables → Type 0) where
  Post-ok : (r : Result A × Tables) (a : A) → r.0 ≡ ok a → Post Q E r → Q a r.1
  unfolding Post
  Post-ok (ok a, t) b h k = let e : a ≡ b = cc in subst (λ x. Q x t) e k
  Post-ok (err e, t) b h k = cc

  Post-err : (r : Result A × Tables) (e : Error) → r.0 ≡ err e → Post Q E r → E e r.1
  unfolding Post
  Post-err (ok a, t) e h k = cc
  Post-err (err f, t) e h k = let same : f ≡ e = cc in subst (λ x. E x t) same k

  pub Wp-ok :
      (m : M A) (db : Db) (a : A) → Wp m Q E db.tables → (m db).0 ≡ ok a → Q a (m db).1.tables
  Wp-ok m db a h e = Post-ok (told (m db)) a e (h.holds db refl)

  pub Wp-err :
      (m : M A) (db : Db) (e : Error) → Wp m Q E db.tables → (m db).0 ≡ err e → E e (m db).1.tables
  Wp-err m db e h f = Post-err (told (m db)) e f (h.holds db refl)

  Post-any :
      (P : Tables → Type 0) (r : Result A × Tables)
      → ((a : A) (u : Tables) → Q a u → P u)
      → ((e : Error) (u : Tables) → E e u → P u)
      → Post Q E r
      → P r.1
  unfolding Post
  Post-any P (ok a, u) h k p = h a u p
  Post-any P (err e, u) h k p = k e u p

  -- What holds after a success and after an error holds after the program.
  pub Wp-any :
      (P : Tables → Type 0) (m : M A) (db : Db)
      → Wp m Q E db.tables
      → ((a : A) (u : Tables) → Q a u → P u)
      → ((e : Error) (u : Tables) → E e u → P u)
      → P (m db).1.tables
  Wp-any P m db h f g = Post-any P (told (m db)) f g (h.holds db refl)

  forget-Post : (r : Result A × Tables) → Post Q E r → Post Q (λ _ _. Unit {0}) r
  unfolding Post
  forget-Post (ok a, u) h = h
  forget-Post (err e, u) h = tt

  -- Errors are left aside.
  pub forget-Wp : (m : M A) (t : Tables) → Wp m Q E t → Wp m Q (λ _ _. Unit {0}) t
  forget-Wp m t h = record { holds = λ db e. forget-Post (told (m db)) (h.holds db e) }

module _ {Q : Unit {0} → Tables → Type 0} {E : Error → Tables → Type 0} where
  pub guard-last :
      (b : Bool) (e : Error) (t : Tables)
      → (b ≡ false → E e t)
      → (b ≡ true → Q tt t)
      → Wp (guard b e) Q E t
  unfolding Post guard fail pure
  guard-last false e t h g = record { holds = λ db p. subst (E e) (sym p) (h refl) }
  guard-last true e t h g = record { holds = λ db p. subst (Q tt) (sym p) (g refl) }
