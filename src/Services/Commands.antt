-- ===== src/Services/Commands.antt =====
-- Handlers as state passing with errors, and the commands that they issue.
pub mod Healthy
pub mod Inversion
pub mod Silent
use callvoice.Common.{
  ℕ, suc, ◌+◌, ◌≡◌, Bool, true, false, Option, none, some, List, [], ◌∷◌, Text, Error, Result, ok,
  err, redis_failed, esl_refused,
}
use callvoice.Common.Int.{ℤ}
use callvoice.Services.{Services, World, Value, Outcome, answered, refused, lost, conflict, counter}

module _ ⦃S : Services⦄ where
  abbrev pub W : Type 0
  W = World S.Store

  abbrev pub M : Type 0 → Type 0
  M A = W → Result A × W

  abbrev pub pure : {A : Type 0} → A → M A
  pure a w = (ok a, w)

  abbrev pub fail : {A : Type 0} → Error → M A
  fail e w = (err e, w)

  abbrev pub continue : {A B : Type 0} → (A → M B) → Result A × W → Result B × W
  continue f (ok a, w) = f a w
  continue f (err e, w) = (err e, w)

  infixl 5 ◌>>=◌ ◌>>◌
  abbrev pub ◌>>=◌ : {A B : Type 0} → M A → (A → M B) → M B
  ◌>>=◌ m f w = continue f (m w)

  abbrev pub ◌>>◌ : {B : Type 0} → M (Unit {0}) → M B → M B
  m >> k = m >>= λ _. k

  -- `if !test { return err }`
  abbrev pub guard : Bool → Error → M (Unit {0})
  guard true e = pure tt
  guard false e = fail e

  -- `_ = call()` and `if err := call(); err != nil`: the outcome becomes a value.
  abbrev pub attempt : {A : Type 0} → M A → M (Result A)
  attempt m w = let (r, w') = m w in (ok r, w')

  -- One command to Redis, by its effect and its reply.
  run_command : {A : Type 0} → List Outcome → A → S.Store → M A
  run_command [] a s w = (ok a, record w { store = s })
  run_command (answered ∷ os) a s w = (ok a, record w { store = s; outcomes = os })
  run_command (conflict ∷ os) a s w = (ok a, record w { store = s; outcomes = os })
  run_command (refused ∷ os) a s w = (err redis_failed, record w { outcomes = os })
  run_command (lost ∷ os) a s w = (err redis_failed, record w { store = s; outcomes = os })

  -- The reply of a command that may raise an error.
  replied : {A : Type 0} → Option A → M A
  replied none w = (err redis_failed, w)
  replied (some a) w = (ok a, w)

  unfoldable pub get : Text → M (Option Value)
  unfolding run_command
  get k w = run_command w.outcomes (S.read w.store k) w.store w

  unfoldable pub exists : Text → M Bool
  unfolding run_command
  exists k w =
      run_command w.outcomes (elim (S.read w.store k) [ none ↦ false | some _ ↦ true ]) w.store w

  unfoldable pub set : Text → Value → ℕ → M (Unit {0})
  unfolding run_command
  set k v ttl w = run_command w.outcomes tt (S.set k v ttl w.store) w

  unfoldable pub del : Text → M (Unit {0})
  unfolding run_command
  del k w = run_command w.outcomes tt (S.del k w.store) w

  -- The reply of INCR and DECR is the new value, or an error if the key holds no integer.
  unfoldable pub incr : Text → M ℤ
  unfolding run_command replied
  incr k w =
      let s = S.incr k w.store in
      continue replied (run_command w.outcomes (counter (S.read s k)) s w)

  unfoldable pub decr : Text → M ℤ
  unfolding run_command replied
  decr k w =
      let s = S.decr k w.store in
      continue replied (run_command w.outcomes (counter (S.read s k)) s w)

  -- EVALSHA: a script runs as one command; `none` is an error raised in it.
  unfoldable pub eval : {A : Type 0} → (S.Store → Option A × S.Store) → M A
  unfolding run_command replied
  eval f w = continue replied (run_command w.outcomes (f w.store).0 (f w.store).1 w)

  -- WATCH on a key.
  unfoldable pub watch : Text → M (Unit {0})
  unfolding run_command
  watch k w = run_command w.outcomes tt w.store w

  -- MULTI … EXEC: several writes as one command.
  unfoldable pub transaction : (S.Store → S.Store) → M (Unit {0})
  unfolding run_command
  transaction f w = run_command w.outcomes tt (f w.store) w

  -- EXEC under WATCH: `true` if the writes were made, `false` for `redis.TxFailedErr`.
  run_watched : List Outcome → S.Store → M Bool
  run_watched [] s w = (ok true, record w { store = s })
  run_watched (answered ∷ os) s w = (ok true, record w { store = s; outcomes = os })
  run_watched (conflict ∷ os) s w = (ok false, record w { outcomes = os })
  run_watched (refused ∷ os) s w = (err redis_failed, record w { outcomes = os })
  run_watched (lost ∷ os) s w = (err redis_failed, record w { store = s; outcomes = os })

  unfoldable pub watched : (S.Store → S.Store) → M Bool
  unfolding run_watched
  watched f w = run_watched w.outcomes (f w.store) w

  -- PUBLISH on `call.events`.
  unfoldable pub publish : List (Text × Text) → M (Unit {0})
  unfolding run_command
  publish body w = run_command w.outcomes tt w.store (record w { events = body ∷ w.events })

  -- A command to FreeSWITCH over the event socket.
  answer : List (Result Text) → W → Result Text × W
  answer [] w = (err esl_refused, w)
  answer (r ∷ rs) w = (r, record w { replies = rs })

  unfoldable pub esl_api : Text → M Text
  unfolding answer
  esl_api cmd w = answer w.replies (record w { sent = cmd ∷ w.sent })

  -- `uuid.New()`.
  unfoldable pub new_uuid : M ℕ
  new_uuid w = (ok (w.fresh w.drawn), record w { drawn = suc w.drawn })
