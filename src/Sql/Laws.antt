-- ===== src/Sql/Laws.antt =====
-- What a statement, a query and a transaction leave behind, whether statements fail or not.
use callvoice.Common.{
  ℕ, suc, ◌≡◌, refl, ◌⊎◌, inl, inr, Bool, true, false, List, [], ◌∷◌, Error, Result, ok, err,
  db_failed,
}
use callvoice.Sql.{Tables, Db, M, continue, run, statement, query, insert, settle, atomically}

-- A statement has its result and its effect, or fails with neither.
abbrev pub Ran : {A : Type 0} → Result A × Tables → Tables → Result A × Db → Type 0
Ran (r, t) t0 after =
    ((after.0 ≡ r) × (after.1.tables ≡ t)) ⊎ ((after.0 ≡ err db_failed) × (after.1.tables ≡ t0))

run-Ran :
    {A : Type 0} (fs : List Bool) (p : Result A × Tables) (db : Db) → Ran p db.tables (run fs p db)
unfolding run
run-Ran [] (r, t) db = inl (refl, refl)
run-Ran (false ∷ fs) (r, t) db = inl (refl, refl)
run-Ran (true ∷ fs) (r, t) db = inr (refl, refl)

pub statement-Ran :
    {A : Type 0} (f : ℕ → Tables → Result A × Tables) (db : Db)
    → Ran (f db.now db.tables) db.tables (statement f db)
unfolding statement
statement-Ran f db = run-Ran db.failures (f db.now db.tables) db

pub insert-Ran :
    {A : Type 0} (f : ℕ → ℕ → Tables → Result A × Tables) (db : Db)
    → Ran (f (db.fresh db.drawn) db.now db.tables) db.tables (insert f db)
unfolding insert
insert-Ran f db =
    run-Ran db.failures (f (db.fresh db.drawn) db.now db.tables)
      (record db { drawn = suc db.drawn })

pub query-Ran :
    {A : Type 0} (f : Tables → Result A) (db : Db)
    → Ran (f db.tables, db.tables) db.tables (query f db)
unfolding query
query-Ran f db = run-Ran db.failures (f db.tables, db.tables) db

kept :
    {A : Type 0} {r : Result A} {t : Tables} (after : Result A × Db)
    → Ran (r, t) t after
    → after.1.tables ≡ t
kept after (inl (_, e)) = e
kept after (inr (_, e)) = e

pub tables-query :
    {A : Type 0} (f : Tables → Result A) (db : Db) → (query f db).1.tables ≡ db.tables
tables-query f db = kept (query f db) (query-Ran f db)

told :
    {A : Type 0} {r : Result A} {t0 t : Tables} (after : Result A × Db) {a : A}
    → Ran (r, t) t0 after
    → after.0 ≡ ok a
    → (r ≡ ok a) × (after.1.tables ≡ t)
told after (inl (e, f)) h = (cc, f)
told after (inr (e, f)) h = cc

-- The result of a query that succeeds is the one on the tables.
pub query-ok :
    {A : Type 0} (f : Tables → Result A) (db : Db) {a : A}
    → (query f db).0 ≡ ok a
    → f db.tables ≡ ok a
query-ok f db h = (told (query f db) (query-Ran f db) h).0

-- A statement that succeeds had its effect.
pub statement-ok :
    {A : Type 0} (f : ℕ → Tables → Result A × Tables) (db : Db) {a : A}
    → (statement f db).0 ≡ ok a
    → ((f db.now db.tables).0 ≡ ok a) × ((statement f db).1.tables ≡ (f db.now db.tables).1)
statement-ok f db h = told (statement f db) (statement-Ran f db) h

pub insert-ok :
    {A : Type 0} (f : ℕ → ℕ → Tables → Result A × Tables) (db : Db) {a : A}
    → (insert f db).0 ≡ ok a
    → ((f (db.fresh db.drawn) db.now db.tables).0 ≡ ok a)
      × ((insert f db).1.tables ≡ (f (db.fresh db.drawn) db.now db.tables).1)
insert-ok f db h = told (insert f db) (insert-Ran f db) h

pub continue-ok :
    {A B : Type 0} (f : A → M B) (r : Result A × Db) {b : B}
    → (continue f r).0 ≡ ok b
    → (a : A) × (db : Db) × (r ≡ (ok a, db)) × ((f a db).0 ≡ ok b)
continue-ok f (ok a, db) h = (a, db, refl, h)
continue-ok f (err e, db) h = cc

settle-err :
    {A : Type 0} (t : Tables) (r : Result A × Db) {e : Error}
    → (settle t r).0 ≡ err e
    → (settle t r).1.tables ≡ t
settle-err t (ok a, db) h = cc
settle-err t (err e, db) h = refl

-- A transaction that fails, at any of its statements or at its commit, leaves the tables as they
-- were before it.
pub atomically-err :
    {A : Type 0} (body : M A) (db : Db) {e : Error}
    → (atomically body db).0 ≡ err e
    → (atomically body db).1.tables ≡ db.tables
unfolding atomically
atomically-err body db h = settle-err db.tables _ h

-- The body of a transaction that succeeds ran on the tables before it, and what it left is there.
abbrev pub Committed : {A : Type 0} → M A → A → Db → Db → Type 0
Committed body a db db' =
    (d d' : Db) × (d.tables ≡ db.tables) × (body d ≡ (ok a, d')) × (db'.tables ≡ d'.tables)

run-runs :
    {A : Type 0} (fs : List Bool) (p : Result A × Tables) (db : Db)
    → fs ≡ []
    → run fs p db ≡ (p.0, record db { tables = p.1 })
unfolding run
run-runs [] (r, t) db h = refl
run-runs (f ∷ fs) p db h = cc

-- A statement where no more statements fail.
pub statement-runs :
    {A : Type 0} (f : ℕ → Tables → Result A × Tables) (db : Db)
    → db.failures ≡ []
    → statement f db ≡ ((f db.now db.tables).0, record db { tables = (f db.now db.tables).1 })
unfolding statement
statement-runs f db h = run-runs db.failures (f db.now db.tables) db h

pub query-runs :
    {A : Type 0} (f : Tables → Result A) (db : Db)
    → db.failures ≡ []
    → query f db ≡ (f db.tables, db)
unfolding query
query-runs f db h = run-runs db.failures (f db.tables, db.tables) db h
