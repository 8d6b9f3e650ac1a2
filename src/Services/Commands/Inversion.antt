-- ===== src/Services/Commands/Inversion.antt =====
-- What a successful command tells, however the other commands end.
use callvoice.Common.{
  ◌∙◌, ◌⊎◌, inl, inr, redis_failed, ◌≡◌, refl, true, Option, none, some, List, [], ◌∷◌, Text,
  Result, ok, err,
}
use callvoice.Services.{Services, Value, Outcome, answered, refused, lost, conflict}
use callvoice.Services.Commands.{
  publish, answer, esl_api, replied, eval, W, M, continue, run_command, run_watched, get, watch,
  watched,
}

module _ ⦃S : Services⦄ where
  -- A successful bind is a successful first part and a successful rest.
  pub continue-ok :
      {A B : Type 0} (f : A → M B) (r : Result A × W) {b : B}
      → (continue f r).0 ≡ ok b
      → (a : A) × (w : W) × (r ≡ (ok a, w)) × ((f a w).0 ≡ ok b)
  continue-ok f (ok a, w) h = (a, w, refl, h)
  continue-ok f (err e, w) h = cc

  -- A read leaves the store alone, whether it is answered or not.
  run_read :
      {A : Type 0} (os : List Outcome) (a : A) (w : W)
      → ((run_command os a w.store w).1).store ≡ w.store
  unfolding run_command
  run_read [] a w = refl
  run_read (answered ∷ os) a w = refl
  run_read (conflict ∷ os) a w = refl
  run_read (refused ∷ os) a w = refl
  run_read (lost ∷ os) a w = refl

  run_reply :
      {A : Type 0} (os : List Outcome) (a : A) (s : S.Store) (w : W) {b : A}
      → (run_command os a s w).0 ≡ ok b
      → (b ≡ a) × (((run_command os a s w).1).store ≡ s)
  unfolding run_command
  run_reply [] a s w h = (cc, refl)
  run_reply (answered ∷ os) a s w h = (cc, refl)
  run_reply (conflict ∷ os) a s w h = (cc, refl)
  run_reply (refused ∷ os) a s w h = cc
  run_reply (lost ∷ os) a s w h = cc

  pub store-get : (k : Text) (w : W) → (get k w).1.store ≡ w.store
  unfolding get
  store-get k w = run_read w.outcomes (S.read w.store k) w

  run_read_sent :
      {A : Type 0} (os : List Outcome) (a : A) (w : W)
      → ((run_command os a w.store w).1).sent ≡ w.sent
  unfolding run_command
  run_read_sent [] a w = refl
  run_read_sent (answered ∷ os) a w = refl
  run_read_sent (conflict ∷ os) a w = refl
  run_read_sent (refused ∷ os) a w = refl
  run_read_sent (lost ∷ os) a w = refl

  pub sent-get : (k : Text) (w : W) → (get k w).1.sent ≡ w.sent
  unfolding get
  sent-get k w = run_read_sent w.outcomes (S.read w.store k) w

  pub store-watch : (k : Text) (w : W) → (watch k w).1.store ≡ w.store
  unfolding watch
  store-watch k w = run_read w.outcomes tt w

  pub get-ok : (k : Text) (w : W) {r : Option Value} → (get k w).0 ≡ ok r → r ≡ S.read w.store k
  unfolding get
  get-ok k w h = (run_reply w.outcomes (S.read w.store k) w.store w h).0

  watched-ok_on :
      (os : List Outcome) (s : S.Store) (w : W)
      → (run_watched os s w).0 ≡ ok true
      → ((run_watched os s w).1).store ≡ s
  unfolding run_watched
  watched-ok_on [] s w h = refl
  watched-ok_on (answered ∷ os) s w h = refl
  watched-ok_on (conflict ∷ os) s w h = cc
  watched-ok_on (refused ∷ os) s w h = cc
  watched-ok_on (lost ∷ os) s w h = cc

  -- A transaction that reports its writes has made them.
  pub watched-ok :
      (f : S.Store → S.Store) (w : W)
      → (watched f w).0 ≡ ok true
      → (watched f w).1.store ≡ f w.store
  unfolding watched
  watched-ok f w h = watched-ok_on w.outcomes (f w.store) w h

  watched_cases_on :
      (os : List Outcome) (s : S.Store) (w : W)
      → (P : S.Store → Type 0) → P s
      → P w.store
      → P ((run_watched os s w).1).store
  unfolding run_watched
  watched_cases_on [] s w P made kept = made
  watched_cases_on (answered ∷ os) s w P made kept = made
  watched_cases_on (conflict ∷ os) s w P made kept = kept
  watched_cases_on (refused ∷ os) s w P made kept = kept
  watched_cases_on (lost ∷ os) s w P made kept = made

  -- A transaction makes its writes or none.
  pub watched_cases :
      (f : S.Store → S.Store) (w : W) (P : S.Store → Type 0)
      → P (f w.store)
      → P w.store
      → P ((watched f w).1).store
  unfolding watched
  watched_cases f w P made kept = watched_cases_on w.outcomes (f w.store) w P made kept

  -- The result of a script's reply.
  abbrev pub raised : {A : Type 0} → Option A → Result A
  raised none = err redis_failed
  raised (some a) = ok a

  -- How a script ends: with its reply and its effect, or with an error and its effect or none.
  abbrev pub Evaluated : {A : Type 0} → Option A × S.Store → S.Store → Result A × W → Type 0
  Evaluated result s after =
      ((after.0 ≡ raised result.0) × (after.1.store ≡ result.1))
      ⊎ ((after.0 ≡ err redis_failed) × ((after.1.store ≡ result.1) ⊎ (after.1.store ≡ s)))

  replied_lem :
      {A : Type 0} (a : Option A) (w : W)
      → ((replied a w).0 ≡ raised a) × ((replied a w).1.store ≡ w.store)
  unfolding replied
  replied_lem none w = (refl, refl)
  replied_lem (some a) w = (refl, refl)

  run_script :
      {A : Type 0} (os : List Outcome) (result : Option A × S.Store) (w : W)
      → Evaluated result w.store (continue replied (run_command os result.0 result.1 w))
  unfolding run_command
  run_script [] (a, s) w = inl (replied_lem a (record w { store = s }))
  run_script (answered ∷ os) (a, s) w = inl (replied_lem a (record w { store = s; outcomes = os }))
  run_script (conflict ∷ os) (a, s) w = inl (replied_lem a (record w { store = s; outcomes = os }))
  run_script (refused ∷ os) (a, s) w = inr (refl, inr refl)
  run_script (lost ∷ os) (a, s) w = inr (refl, inl refl)

  pub eval-Evaluated :
      {A : Type 0} (f : S.Store → Option A × S.Store) (w : W)
      → Evaluated (f w.store) w.store (eval f w)
  unfolding eval
  eval-Evaluated f w = run_script w.outcomes (f w.store) w

  -- A command to FreeSWITCH leaves Redis alone.
  abbrev pub Same : W → W → Type 0
  Same w w' = (w'.store ≡ w.store) × (w'.outcomes ≡ w.outcomes)

  answer-Same : (rs : List (Result Text)) (w : W) → Same w (answer rs w).1
  unfolding answer
  answer-Same [] w = (refl, refl)
  answer-Same (r ∷ rs) w = (refl, refl)

  pub esl_api-Same : (c : Text) (w : W) → Same w (esl_api c w).1
  unfolding esl_api
  esl_api-Same c w = answer-Same w.replies (record w { sent = c ∷ w.sent })

  replied_outcomes : {A : Type 0} (a : Option A) (w : W) → (replied a w).1.outcomes ≡ w.outcomes
  unfolding replied
  replied_outcomes none w = refl
  replied_outcomes (some a) w = refl

  run_outcomes :
      {A : Type 0} (os : List Outcome) (a : Option A) (s : S.Store) (w : W)
      → os ≡ []
      → (continue replied (run_command os a s w)).1.outcomes ≡ w.outcomes
  unfolding run_command
  run_outcomes os a s w h = rw h (replied_outcomes a (record w { store = s }))

  pub outcomes-eval :
      {A : Type 0} (f : S.Store → Option A × S.Store) (w : W)
      → w.outcomes ≡ []
      → (eval f w).1.outcomes ≡ []
  unfolding eval
  outcomes-eval f w h = run_outcomes w.outcomes (f w.store).0 (f w.store).1 w h ∙ h

  -- The reply that FreeSWITCH gives is the next one.
  pub esl_api-reply :
      (c : Text) (w : W) {r : Result Text} {rs : List (Result Text)}
      → w.replies ≡ r ∷ rs
      → (esl_api c w).0 ≡ r
  unfolding esl_api answer
  esl_api-reply c w e = rw e

  pub store-publish : (body : List (Text × Text)) (w : W) → (publish body w).1.store ≡ w.store
  unfolding publish
  store-publish body w = run_read w.outcomes tt (record w { events = body ∷ w.events })
