-- ===== src/Cps/Window.antt =====
-- The cap of internal/cps/limiter.go over all calls of one second.
use callvoice.Keys.{append_cancel}
use callvoice.Common.Decimal.{decimal, decimal-injective}
use callvoice.Services.Commands.Silent.{Calm, eval-Calm}
use callvoice.Services.Commands.Healthy.{Healthy, eval-Healthy}
use Prim.Native.Nat.{min}
use callvoice.Services.Commands.Inversion.{outcomes-eval, Evaluated, eval-Evaluated}
use callvoice.Common.{
  eqb_ne, ◌∙◌, ◌≢◌, zero, ltb, Bool-cases, ◌⊎◌, inl, inr, ℕ, suc, ◌+◌, ◌-◌, ◌≤◌, ◌<◌, ◌≡◌, refl,
  Bool, true, false, Option, none, some, ◌∷◌, Text, eqb, eqb_refl, arith, if◌then◌else◌, ◌==◌,
  Result, ok, err,
}
use callvoice.Common.Int.{ℤ, pos, above, add_one, sub_one}
use callvoice.Services.{Services, Value, number, counter, counted}
use callvoice.Services.Commands.{W, eval}
use callvoice.Cps.{window_key, allow_script, allow, allow_count}

module _ ⦃S : Services⦄ where
  -- The calls counted under a key: a key that is missing counts none.
  abbrev pub Counts : Text → ℕ → S.Store → Type 0
  Counts k c s = counter (S.read s k) ≡ some (pos c)

  counted-Counts :
      (r : Option Value) (c : ℕ)
      → counter r ≡ some (pos c)
      → (counter (counted add_one r) ≡ some (pos (suc c)))
  counted-Counts none c h = ground arith
  counted-Counts (some (number n)) c h = ground arith
  counted-Counts (some (Value.text t)) c h = cc
  counted-Counts (some (Value.object t)) c h = cc

  discounted-Counts :
      (r : Option Value) (c : ℕ)
      → counter r ≡ some (pos (suc c))
      → (counter (counted sub_one r) ≡ some (pos c))
  discounted-Counts none c h = ground arith
  discounted-Counts (some (number n)) c h = ground arith
  discounted-Counts (some (Value.text t)) c h = cc
  discounted-Counts (some (Value.object t)) c h = cc

  incr-Counts : (k : Text) (c : ℕ) (s : S.Store) → Counts k c s → Counts k (suc c) (S.incr k s)
  incr-Counts k c s h = rw (S.read-incr, eqb_refl) (counted-Counts (S.read s k) c h)

  decr-Counts : (k : Text) (c : ℕ) (s : S.Store) → Counts k (suc c) s → Counts k c (S.decr k s)
  decr-Counts k c s h = rw (S.read-decr, eqb_refl) (discounted-Counts (S.read s k) c h)

  expire-Counts :
      (k : Text) (c : ℕ) (ttl : ℕ) (b : Bool) (s : S.Store)
      → Counts k c s
      → Counts k c (if b then S.expire k ttl s else s)
  expire-Counts k c ttl true s h = rw S.read-expire h
  expire-Counts k c ttl false s h = h

  -- What the script leaves, below the cap and at it.
  abbrev pub Decided : Text → ℕ → ℕ → Option Bool × S.Store → Type 0
  Decided k m c after =
      ((c < m) × (after.0 ≡ some true) × Counts k (suc c) after.1)
      ⊎ ((m ≤ c) × (after.0 ≡ some false) × Counts k c after.1)

  -- The script allows a call exactly below the cap, and counts exactly the calls it allows.
  pub allow_script-Decided :
      (k : Text) (m c : ℕ) (s : S.Store) → Counts k c s → Decided k m c (allow_script k m s)
  unfolding allow_script allow_count
  allow_script-Decided k m c s h =
      let counts = incr-Counts k c s h in
      rw (counts, allow_script, allow_count)
        (elim (Bool-cases (ltb m (suc c))) [
          | inl over ↦
              rw over
                (inr (ground arith, refl, decr-Counts k c _ (expire-Counts k (suc c) _ _ _ counts)))
          | inr under ↦ rw under (inl (ground arith, refl, expire-Counts k (suc c) _ _ _ counts))
        ])

  -- The reports of `n` calls, one after the other, with one cap in one second: how many say yes.
  abbrev reported : Result Bool → ℕ
  reported (ok true) = 1
  reported (ok false) = 0
  reported (err e) = 0

  unfoldable pub allowed : Text → ℕ → ℕ → ℕ → W → ℕ
  allowed key max_cps now zero w = 0
  allowed key max_cps now (suc n) w =
      let (r, w') = allow key max_cps now w in reported r + allowed key max_cps now n w'

  -- A call uses up what it is allowed.
  Used : Text → ℕ → ℕ → Result Bool × W → Type 0
  Used k m c after = (d : ℕ) × Counts k d after.1.store × (reported after.0 + (m - d) ≤ m - c)

  Decided-Used :
      (k : Text) (m c : ℕ) (w : W) (result : Option Bool × S.Store) (after : Result Bool × W)
      → Counts k c w.store
      → Decided k m c result
      → Evaluated result w.store after
      → Used k m c after
  unfolding Used
  Decided-Used k m c w (x, s) (r, w') h d (inr (e, inr es)) = (c, rw es h, rw e (omega arith))
  Decided-Used k m c w (x, s) (r, w') h (inl (lt, yes_reply, made)) (inl (e, es)) =
      (suc c, rw es made, rw (e, yes_reply) (omega arith))
  Decided-Used k m c w (x, s) (r, w') h (inr (le, no_reply, made)) (inl (e, es)) =
      (c, rw es made, rw (e, no_reply) (omega arith))
  Decided-Used k m c w (x, s) (r, w') h (inl (lt, _, made)) (inr (e, inl es)) =
      (suc c, rw es made, rw e (omega arith))
  Decided-Used k m c w (x, s) (r, w') h (inr (lt, _, made)) (inr (e, inl es)) =
      (c, rw es made, rw e (omega arith))

  suc-ne-zero : (m : ℕ) → (suc m == 0) ≡ false
  suc-ne-zero m = ground arith

  allow_positive :
      (key : Text) (m now : ℕ) (w : W)
      → allow key (suc m) now w ≡ eval (allow_script (window_key key now) (suc m)) w
  unfolding allow
  allow_positive key m now w = rw (suc-ne-zero m)

  allow-Used :
      (key : Text) (m now c : ℕ) (w : W)
      → Counts (window_key key now) c w.store
      → Used (window_key key now) m c (allow key m now w)
  unfolding allow Used
  allow-Used key zero now c w h = (c, h, omega arith)
  allow-Used key (suc m) now c w h =
      let k = window_key key now in
      let script = allow_script k (suc m) in
      rw (allow_positive key m now w) (
        Decided-Used k (suc m) c w (script w.store) (eval script w) h
          (allow_script-Decided k (suc m) c w.store h) (eval-Evaluated script w))

  -- However Redis commands end, the calls that are told yes in one second are at most what the cap
  -- leaves over the calls already counted in that second.
  pub allowed-le-cap :
      (key : Text) (max_cps now n c : ℕ) (w : W)
      → Counts (window_key key now) c w.store
      → allowed key max_cps now n w ≤ max_cps - c
  unfolding allowed Used
  allowed-le-cap key m now zero c w h = omega arith
  allowed-le-cap key m now (suc n) c w h =
      let (d, counts, used) = allow-Used key m now c w h in
      omega (arith, used, allowed-le-cap key m now n d (allow key m now w).1 counts)

  allow-eval :
      (key : Text) (m now c : ℕ) (w : W)
      → Healthy w
      → Counts (window_key key now) c w.store
      → let after = allow key m now w in
        Healthy after.1
        × (((c < m) × (after.0 ≡ ok true) × Counts (window_key key now) (suc c) after.1.store)
            ⊎ ((m ≤ c) × (after.0 ≡ ok false) × Counts (window_key key now) c after.1.store))
  unfolding allow
  allow-eval key zero now c w h counts = (h, inr (omega arith, refl, counts))
  allow-eval key (suc m) now c w h counts =
      let k = window_key key now in
      let script = allow_script k (suc m) in
      elim (allow_script-Decided k (suc m) c w.store counts) [
        | inl (lt, told, made) ↦
            rw (allow_positive key m now w, eval-Healthy script w true h told)
              (h, inl (lt, refl, made))
        | inr (le, told, made) ↦
            rw (allow_positive key m now w, eval-Healthy script w false h told)
              (h, inr (le, refl, made))
      ]

  -- If Redis answers, exactly as many of `n` calls in one second are told yes as the cap leaves.
  pub allowed-eq-min :
      (key : Text) (max_cps now n c : ℕ) (w : W)
      → Healthy w
      → Counts (window_key key now) c w.store
      → allowed key max_cps now n w ≡ min n (max_cps - c)
  unfolding allowed
  allowed-eq-min key m now zero c w h counts = omega arith
  allowed-eq-min key m now (suc n) c w h counts =
      let (healthy, told) = allow-eval key m now c w h counts in
      elim told [
        | inl (lt, e, made) ↦
            rw e
              (omega (arith, allowed-eq-min key m now n (suc c) (allow key m now w).1 healthy made))
        | inr (le, e, made) ↦
            rw e (omega (arith, allowed-eq-min key m now n c (allow key m now w).1 healthy made))
      ]

  expire_keeps :
      (k j : Text) (ttl : ℕ) (b : Bool) (s : S.Store)
      → S.read (if b then S.expire k ttl s else s) j ≡ S.read s j
  expire_keeps k j ttl true s = S.read-expire k ttl s j
  expire_keeps k j ttl false s = refl

  decr_keeps : (k j : Text) (s : S.Store) → eqb k j ≡ false → S.read (S.decr k s) j ≡ S.read s j
  decr_keeps k j s ne = rw (S.read-decr, ne)

  count_keeps :
      (k j : Text) (m : ℕ) (count : Option ℤ) (s : S.Store)
      → eqb k j ≡ false
      → S.read (allow_count k m count s).1 j ≡ S.read s j
  unfolding allow_count
  count_keeps k j m none s ne = refl
  count_keeps k j m (some n) s ne = elim (Bool-cases (above n m)) [
    | inl over ↦ rw over (decr_keeps k j _ ne ∙ expire_keeps k j _ _ s)
    | inr under ↦ rw under (expire_keeps k j _ _ s)
  ]

  script_keeps :
      (k j : Text) (m : ℕ) (s : S.Store)
      → eqb k j ≡ false
      → S.read (allow_script k m s).1 j ≡ S.read s j
  unfolding allow_script
  script_keeps k j m s ne = count_keeps k j m _ (S.incr k s) ne ∙ rw (S.read-incr, ne)

  -- However the command ends, it leaves every key but its own.
  pub allow-other_key :
      (key : Text) (max_cps now : ℕ) (w : W) (j : Text)
      → eqb (window_key key now) j ≡ false
      → S.read (allow key max_cps now w).1.store j ≡ S.read w.store j
  unfolding allow
  allow-other_key key zero now w j ne = refl
  allow-other_key key (suc m) now w j ne =
      let kept = script_keeps (window_key key now) j (suc m) w.store ne in
      rw (allow_positive key m now w)
        (elim (eval-Evaluated (allow_script (window_key key now) (suc m)) w) [
          | inl (_, e) ↦ rw e kept
          | inr (_, inl e) ↦ rw e kept
          | inr (_, inr e) ↦ rw e
        ])

  pub allow-Healthy :
      (key : Text) (max_cps now : ℕ) (w : W) → Healthy w → Healthy (allow key max_cps now w).1
  unfolding allow
  allow-Healthy key zero now w h = h
  allow-Healthy key (suc m) now w h =
      rw (allow_positive key m now w)
        (outcomes-eval (allow_script (window_key key now) (suc m)) w h)

  -- Allow asks nothing of FreeSWITCH.
  pub allow-Calm : (key : Text) (max_cps now : ℕ) (w : W) → Calm w (allow key max_cps now w).1
  unfolding allow
  allow-Calm key zero now w = (refl, refl)
  allow-Calm key (suc m) now w =
      rw (allow_positive key m now w) (eval-Calm (allow_script (window_key key now) (suc m)) w)

  window_key-injective :
      (key : Text) (now later : ℕ) → window_key key now ≡ window_key key later → now ≡ later
  unfolding window_key
  window_key-injective key now later h =
      let tails = append_cancel key (b':' ∷ decimal now) (b':' ∷ decimal later) h in
      decimal-injective now later (cc tails)

  -- However the command ends, a call of one second leaves the counter of every other second of the
  -- same key as it was.
  pub allow-other_second :
      (key : Text) (max_cps now later : ℕ) (w : W)
      → now ≢ later
      → S.read (allow key max_cps now w).1.store (window_key key later)
        ≡ S.read w.store (window_key key later)
  allow-other_second key max_cps now later w ne =
      allow-other_key key max_cps now w (window_key key later)
        (eqb_ne _ _ λ e. ne (window_key-injective key now later e))
