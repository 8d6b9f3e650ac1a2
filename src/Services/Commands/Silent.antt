-- ===== src/Services/Commands/Silent.antt =====
-- What a call asks of FreeSWITCH: nothing, where it issues Redis commands only, however they end;
-- and the commands sent and the replies taken, in their order, where it sends some.
use callvoice.Common.{
  ◌≡◌, refl, sym, ap, ◌∙◌, true, Option, none, some, List, [], ◌∷◌, ◌++◌, Text, codes, Result, ok,
  err, has_prefix, trim_space, arith, ==_iff,
}
use callvoice.Services.{Services, counter, Outcome, answered, refused, lost, conflict}
use callvoice.Esl.{is_esl_ok}
use callvoice.Services.Commands.{
  W, M, continue, run_command, run_watched, replied, answer, get, incr, eval, watch, watched,
  transaction, esl_api,
}

-- The rest of a text after a prefix.
has_prefix-rest : (s p : Text) → has_prefix s p ≡ true → (rest : Text) × (s ≡ p ++ rest)
unfolding has_prefix
has_prefix-rest s [] h = (s, refl)
has_prefix-rest [] (b ∷ p) h = cc
has_prefix-rest (a ∷ s) (b ∷ p) h =
    let same : a ≡ b = ground (arith, ==_iff a b) in
    let (rest, e) = has_prefix-rest s p (ground arith) in (rest, λ i. same i ∷ e i)

-- A reply that says yes.
abbrev pub Positive : Text → Type 0
Positive body = (rest : Text) × (trim_space body ≡ codes "+OK" ++ rest)

pub is_esl_ok-Positive : (body : Text) → is_esl_ok body ≡ true → Positive body
unfolding is_esl_ok
is_esl_ok-Positive body h = has_prefix-rest (trim_space body) (codes "+OK") h

module _ ⦃S : Services⦄ where
  -- Nothing is sent, and no reply taken.
  abbrev pub Calm : W → W → Type 0
  Calm w w' = (w'.sent ≡ w.sent) × (w'.replies ≡ w.replies)

  pub Calm-trans : (w w1 w2 : W) → Calm w w1 → Calm w1 w2 → Calm w w2
  Calm-trans w w1 w2 (a, b) (c, d) = (c ∙ a, d ∙ b)

  pub continue-Calm :
      {A B : Type 0} (f : A → M B) (w : W) (r : Result A × W)
      → Calm w r.1
      → ((a : A) (w1 : W) → Calm w1 (f a w1).1)
      → Calm w (continue f r).1
  continue-Calm f w (ok a, w1) q h = Calm-trans w w1 (f a w1).1 q (h a w1)
  continue-Calm f w (err e, w1) q h = q

  run-Calm :
      {A : Type 0} (os : List Outcome) (a : A) (s : S.Store) (w : W)
      → Calm w (run_command os a s w).1
  unfolding run_command
  run-Calm [] a s w = (refl, refl)
  run-Calm (answered ∷ os) a s w = (refl, refl)
  run-Calm (conflict ∷ os) a s w = (refl, refl)
  run-Calm (refused ∷ os) a s w = (refl, refl)
  run-Calm (lost ∷ os) a s w = (refl, refl)

  replied-Calm : {A : Type 0} (a : Option A) (w : W) → Calm w (replied a w).1
  unfolding replied
  replied-Calm none w = (refl, refl)
  replied-Calm (some a) w = (refl, refl)

  run_replied-Calm :
      {A : Type 0} (os : List Outcome) (a : Option A) (s : S.Store) (w : W)
      → Calm w (continue replied (run_command os a s w)).1
  run_replied-Calm os a s w =
      continue-Calm replied w (run_command os a s w) (run-Calm os a s w) (λ b w1. replied-Calm b w1)

  run_watched-Calm : (os : List Outcome) (s : S.Store) (w : W) → Calm w (run_watched os s w).1
  unfolding run_watched
  run_watched-Calm [] s w = (refl, refl)
  run_watched-Calm (answered ∷ os) s w = (refl, refl)
  run_watched-Calm (conflict ∷ os) s w = (refl, refl)
  run_watched-Calm (refused ∷ os) s w = (refl, refl)
  run_watched-Calm (lost ∷ os) s w = (refl, refl)

  pub get-Calm : (k : Text) (w : W) → Calm w (get k w).1
  unfolding get
  get-Calm k w = run-Calm w.outcomes (S.read w.store k) w.store w

  pub watch-Calm : (k : Text) (w : W) → Calm w (watch k w).1
  unfolding watch
  watch-Calm k w = run-Calm w.outcomes tt w.store w

  pub watched-Calm : (f : S.Store → S.Store) (w : W) → Calm w (watched f w).1
  unfolding watched
  watched-Calm f w = run_watched-Calm w.outcomes (f w.store) w

  pub transaction-Calm : (f : S.Store → S.Store) (w : W) → Calm w (transaction f w).1
  unfolding transaction
  transaction-Calm f w = run-Calm w.outcomes tt (f w.store) w

  pub incr-Calm : (k : Text) (w : W) → Calm w (incr k w).1
  unfolding incr
  incr-Calm k w = let s = S.incr k w.store in run_replied-Calm w.outcomes (counter (S.read s k)) s w

  pub eval-Calm : {A : Type 0} (f : S.Store → Option A × S.Store) (w : W) → Calm w (eval f w).1
  unfolding eval
  eval-Calm f w = run_replied-Calm w.outcomes (f w.store).0 (f w.store).1 w

  -- Some commands are sent, and some replies taken.
  abbrev pub Progress : W → W → Type 0
  Progress w w' =
      ((asked : List Text) × (w'.sent ≡ asked ++ w.sent))
      × ((said : List (Result Text)) × (w.replies ≡ said ++ w'.replies))

  pub Calm-Progress : (w w' : W) → Calm w w' → Progress w w'
  Calm-Progress w w' (a, b) = (([], a), ([], sym b))

  -- One command is sent.
  abbrev pub Told : Text → W → W → Type 0
  Told command w w' = w'.sent ≡ command ∷ w.sent

  -- The reply to it, if there was one, is the next.
  abbrev pub Heard : Result Text → W → W → Type 0
  Heard reply w w' = (body : Text) → reply ≡ ok body → w.replies ≡ ok body ∷ w'.replies

  answer-Heard :
      (rs : List (Result Text)) (w : W)
      → rs ≡ w.replies
      → Heard (answer rs w).0 w (answer rs w).1 × ((answer rs w).1.sent ≡ w.sent)
  unfolding answer
  answer-Heard [] w e = (λ body h. cc, refl)
  answer-Heard (r ∷ rs) w e = (λ body h. sym e ∙ ap (λ x. x ∷ rs) h, refl)

  pub esl_api-Told : (c : Text) (w : W) → Told c w (esl_api c w).1
  unfolding esl_api
  esl_api-Told c w = (answer-Heard w.replies (record w { sent = c ∷ w.sent }) refl).1

  pub esl_api-Heard : (c : Text) (w : W) → Heard (esl_api c w).0 w (esl_api c w).1
  unfolding esl_api
  esl_api-Heard c w = (answer-Heard w.replies (record w { sent = c ∷ w.sent }) refl).0

  -- FreeSWITCH was sent one command, and said yes.
  abbrev pub Accepted : Text → W → W → Type 0
  Accepted command w w' =
      Told command w w' × ((body : Text) × (w.replies ≡ ok body ∷ w'.replies) × Positive body)

  answer-Progress :
      (rs : List (Result Text)) (w : W)
      → rs ≡ w.replies
      → (said : List (Result Text)) × (w.replies ≡ said ++ (answer rs w).1.replies)
  unfolding answer
  answer-Progress [] w e = ([], refl)
  answer-Progress (r ∷ rs) w e = (r ∷ [], sym e)

  pub esl_api-Progress : (c : Text) (w : W) → Progress w (esl_api c w).1
  unfolding esl_api
  esl_api-Progress c w = (
    (c ∷ [], (answer-Heard w.replies (record w { sent = c ∷ w.sent }) refl).1),
    answer-Progress w.replies (record w { sent = c ∷ w.sent }) refl,
  )

  append_assoc : {A : Type 0} (xs ys zs : List A) → (xs ++ ys) ++ zs ≡ xs ++ (ys ++ zs)
  append_assoc [] ys zs = refl
  append_assoc (x ∷ xs) ys zs = ap (λ r. x ∷ r) (append_assoc xs ys zs)

  pub Progress-trans : (w w1 w2 : W) → Progress w w1 → Progress w1 w2 → Progress w w2
  Progress-trans w w1 w2 ((a, e), (s, f)) ((a', e'), (s', f')) = (
    (a' ++ a, e' ∙ ap (λ l. a' ++ l) e ∙ sym (append_assoc a' a w.sent)),
    (s ++ s', f ∙ ap (λ l. s ++ l) f' ∙ sym (append_assoc s s' w2.replies)),
  )

  -- A command was the last one sent, and the reply that said yes the last one taken.
  abbrev pub LastAccepted : Text → W → W → Type 0
  LastAccepted command w w' =
      ((asked : List Text) × (w'.sent ≡ command ∷ (asked ++ w.sent)))
      × ((said : List (Result Text)) × (body : Text) × (w.replies ≡ said ++ (ok body ∷ w'.replies))
          × Positive body)

  pub Accepted-last :
      (command : Text) (w w' : W) → Accepted command w w' → LastAccepted command w w'
  Accepted-last command w w' (e, (body, f, p)) = (([], e), ([], body, f, p))

  pub LastAccepted-from :
      (command : Text) (w w1 w2 : W)
      → Progress w w1
      → LastAccepted command w1 w2
      → LastAccepted command w w2
  LastAccepted-from command w w1 w2 ((a, e), (s, f)) ((a', e'), (s', body, f', p)) = (
    (a' ++ a, e' ∙ ap (λ l. command ∷ l) (ap (λ l. a' ++ l) e ∙ sym (append_assoc a' a w.sent))),
    (s ++ s', body, f ∙ ap (λ l. s ++ l) f' ∙ sym (append_assoc s s' (ok body ∷ w2.replies)), p),
  )

  pub Accepted-Calm :
      (command : Text) (w w1 w2 : W) → Accepted command w w1 → Calm w1 w2 → Accepted command w w2
  Accepted-Calm command w w1 w2 (e, (body, f, p)) (a, b) =
      (a ∙ e, (body, f ∙ ap (λ l. ok body ∷ l) (sym b), p))

  pub Calm-Accepted :
      (command : Text) (w w1 w2 : W) → Calm w w1 → Accepted command w1 w2 → Accepted command w w2
  Calm-Accepted command w w1 w2 (a, b) (e, (body, f, p)) =
      (e ∙ ap (λ l. command ∷ l) a, (body, sym b ∙ f, p))
