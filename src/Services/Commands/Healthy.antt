-- ===== src/Services/Commands/Healthy.antt =====
-- The commands when every coming one is answered, and their frames however they end.
use callvoice.Common.{ℕ, ◌≡◌, Bool, true, false, Option, none, some, List, [], ◌∷◌, Text, ok}
use callvoice.Common.Int.{ℤ}
use callvoice.Services.{Services, Value, Outcome, counter}
use callvoice.Services.Commands.{
  eval, W, run_command, run_watched, replied, get, exists, set, del, incr, decr, transaction, watch,
  watched, publish,
}

module _ ⦃S : Services⦄ where
  -- Every coming Redis command is answered.
  abbrev pub Healthy : W → Type 0
  Healthy w = w.outcomes ≡ []

  abbrev pub stored : W → S.Store → W
  stored w s = record w { store = s }

  abbrev pub is_some : Option Value → Bool
  is_some none = false
  is_some (some _) = true

  run-Healthy :
      {A : Type 0} (os : List Outcome) (a : A) (s : S.Store) (w : W)
      → os ≡ []
      → run_command os a s w ≡ (ok a, stored w s)
  unfolding run_command
  run-Healthy os a s w h = rw h

  pub get-Healthy : (k : Text) (w : W) → Healthy w → get k w ≡ (ok (S.read w.store k), w)
  unfolding get
  get-Healthy k w h = run-Healthy w.outcomes (S.read w.store k) w.store w h

  pub exists-Healthy :
      (k : Text) (w : W) → Healthy w → exists k w ≡ (ok (is_some (S.read w.store k)), w)
  unfolding exists
  exists-Healthy k w h = run-Healthy w.outcomes (is_some (S.read w.store k)) w.store w h

  pub set-Healthy :
      (k : Text) (v : Value) (ttl : ℕ) (w : W)
      → Healthy w
      → set k v ttl w ≡ (ok tt, stored w (S.set k v ttl w.store))
  unfolding set
  set-Healthy k v ttl w h = run-Healthy w.outcomes tt (S.set k v ttl w.store) w h

  pub del-Healthy : (k : Text) (w : W) → Healthy w → del k w ≡ (ok tt, stored w (S.del k w.store))
  unfolding del
  del-Healthy k w h = run-Healthy w.outcomes tt (S.del k w.store) w h

  pub watch-Healthy : (k : Text) (w : W) → Healthy w → watch k w ≡ (ok tt, w)
  unfolding watch
  watch-Healthy k w h = run-Healthy w.outcomes tt w.store w h

  pub watched-Healthy :
      (f : S.Store → S.Store) (w : W) → Healthy w → watched f w ≡ (ok true, stored w (f w.store))
  unfolding watched run_watched
  watched-Healthy f w h = rw h

  pub transaction-Healthy :
      (f : S.Store → S.Store) (w : W) → Healthy w → transaction f w ≡ (ok tt, stored w (f w.store))
  unfolding transaction
  transaction-Healthy f w h = run-Healthy w.outcomes tt (f w.store) w h

  pub publish-Healthy :
      (body : List (Text × Text)) (w : W)
      → Healthy w
      → publish body w ≡ (ok tt, record w { events = body ∷ w.events })
  unfolding publish
  publish-Healthy body w h =
      run-Healthy w.outcomes tt w.store (record w { events = body ∷ w.events }) h

  pub incr-Healthy :
      (k : Text) (w : W) (n : ℤ)
      → Healthy w
      → counter (S.read (S.incr k w.store) k) ≡ some n
      → incr k w ≡ (ok n, stored w (S.incr k w.store))
  unfolding incr replied run_command
  incr-Healthy k w n h e = rw (h, e, run_command)

  pub decr-Healthy :
      (k : Text) (w : W) (n : ℤ)
      → Healthy w
      → counter (S.read (S.decr k w.store) k) ≡ some n
      → decr k w ≡ (ok n, stored w (S.decr k w.store))
  unfolding decr replied run_command
  decr-Healthy k w n h e = rw (h, e, run_command)

  pub eval-Healthy :
      {A : Type 0} (f : S.Store → Option A × S.Store) (w : W) (a : A)
      → Healthy w
      → (f w.store).0 ≡ some a
      → eval f w ≡ (ok a, stored w (f w.store).1)
  unfolding eval replied run_command
  eval-Healthy f w a h e = rw (h, e, run_command)
