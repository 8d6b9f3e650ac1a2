-- ===== src/Dialer/Calls/Cleanup.antt =====
-- What cleanupCall leaves in Redis.
use callvoice.Common.{
  ℕ, zero, suc, ◌≡◌, refl, inl, inr, Bool, true, false, Bool-cases, Option, none, some, Text, eqb,
  eqb_refl, if◌then◌else◌, ok,
}
use callvoice.Common.Int.{ℤ, pos, negsuc, sub_one, is_negative}
use callvoice.Services.{Services, Value, number, counter}
use callvoice.Services.Commands.{W}
use callvoice.Services.Commands.Healthy.{
  Healthy, stored, get-Healthy, set-Healthy, del-Healthy, decr-Healthy,
}
use callvoice.Keys.{agent_call_key, call_meta_key, channel_key, key_laws}
use callvoice.Dialer.Calls.{
  CallMeta, free_channel, clamp, carrier_of, is_call, forget_call, cleanup_call,
}
use callvoice.Dialer.Calls.Laws.{counted-counter, counter_of, OtherCountersKept}

-- A count less one, at least 0.
abbrev pub one_less : ℤ → ℕ
one_less (pos zero) = 0
one_less (pos (suc n)) = n
one_less (negsuc n) = 0

module _ ⦃S : Services⦄ where
  decr_store : ℕ → ℤ → S.Store → S.Store
  decr_store u n s =
      if is_negative (sub_one n)
      then S.set (channel_key u) (number (pos 0)) 0 (S.decr (channel_key u) s)
      else S.decr (channel_key u) s

  counter-decr :
      (u : ℕ) (s : S.Store) (n : ℤ)
      → counter (S.read s (channel_key u)) ≡ some n
      → S.read (S.decr (channel_key u) s) (channel_key u) ≡ some (number (sub_one n))
  counter-decr u s n e =
      rw (S.read-decr, eqb_refl, counted-counter sub_one (S.read s (channel_key u)) n e)

  clamp_eq :
      (u : ℕ) (n : ℤ) (w : W)
      → Healthy w
      → clamp u n w ≡ (
        ok tt,
        stored w
            (if is_negative n then S.set (channel_key u) (number (pos 0)) 0 w.store else w.store),
      )
  unfolding clamp
  clamp_eq u (pos n) w h = refl
  clamp_eq u (negsuc n) w h = simp (set-Healthy (channel_key u) (number (pos 0)) 0 w h)

  free_eq :
      (u : ℕ) (n : ℤ) (w : W)
      → Healthy w
      → counter (counter_of u w) ≡ some n
      → free_channel (some u) w ≡ (ok tt, stored w (decr_store u n w.store))
  unfolding free_channel decr_store
  free_eq u n w h e =
      let less = counter-decr u w.store n e in
      rw (
        decr-Healthy (channel_key u) w (sub_one n) h (rw less),
        clamp_eq u (sub_one n) (stored w (S.decr (channel_key u) w.store)) h,
      )

  read-decr_store :
      (u : ℕ) (n : ℤ) (s : S.Store)
      → counter (S.read s (channel_key u)) ≡ some n
      → S.read (decr_store u n s) (channel_key u) ≡ some (number (pos (one_less n)))
  unfolding decr_store
  read-decr_store u (pos zero) s e = rw (S.read-set, eqb_refl)
  read-decr_store u (pos (suc n)) s e = counter-decr u s (pos (suc n)) e
  read-decr_store u (negsuc n) s e = rw (S.read-set, eqb_refl)

  read-decr_store_other :
      (u : ℕ) (n : ℤ) (s : S.Store) (j : Text)
      → eqb (channel_key u) j ≡ false
      → S.read (decr_store u n s) j ≡ S.read s j
  unfolding decr_store
  read-decr_store_other u (pos zero) s j ne = simp (S.read-set, S.read-decr, ne)
  read-decr_store_other u (pos (suc n)) s j ne = simp (S.read-decr, ne)
  read-decr_store_other u (negsuc n) s j ne = simp (S.read-set, S.read-decr, ne)

  -- The agent's key after the cleanup of a call: gone if it named the call.
  abbrev pub forgotten : Text → Option Value → Option Value
  forgotten t v = if is_call t (ok v) then none else v

  forget_store : ℕ → Text → S.Store → S.Store
  forget_store a t s =
      if is_call t (ok (S.read s (agent_call_key a))) then S.del (agent_call_key a) s else s

  forget_eq :
      (a : ℕ) (b : Bool) (w : W)
      → Healthy w
      → forget_call a b w
        ≡ (ok tt, stored w (if b then S.del (agent_call_key a) w.store else w.store))
  unfolding forget_call
  forget_eq a false w h = refl
  forget_eq a true w h = simp (del-Healthy (agent_call_key a) w h)

  -- The end of the cleanup, once the channel is free.
  rest_store : ℕ → Text → S.Store → S.Store
  rest_store a t s = forget_store a t (S.del (call_meta_key t) s)

  cleanup_eq :
      (a : ℕ) (t : Text) (meta : Option CallMeta) (s : S.Store) (w : W)
      → Healthy w
      → free_channel (carrier_of meta) w ≡ (ok tt, stored w s)
      → cleanup_call a t meta w ≡ (ok tt, stored w (rest_store a t s))
  unfolding cleanup_call rest_store forget_store
  cleanup_eq a t meta s w h e = rw (
    e,
    del-Healthy (call_meta_key t) (stored w s) h,
    get-Healthy (agent_call_key a) (stored w (S.del (call_meta_key t) s)) h,
    forget_eq a (is_call t (ok (S.read (S.del (call_meta_key t) s) (agent_call_key a))))
        (stored w (S.del (call_meta_key t) s)) h,
  )

  -- The call is gone from Redis: its metadata, and the agent's key if it named the call.
  abbrev pub Gone : ℕ → Text → W → W → Type 0
  Gone a t w w' =
      (S.read w'.store (call_meta_key t) ≡ none)
      × (S.read w'.store (agent_call_key a) ≡ forgotten t (S.read w.store (agent_call_key a)))

  -- The key of the agent apart, the end of the cleanup deletes the metadata only.
  read-rest_store :
      (a : ℕ) (t : Text) (s : S.Store) (j : Text)
      → eqb (agent_call_key a) j ≡ false
      → S.read (rest_store a t s) j ≡ (if eqb (call_meta_key t) j then none else S.read s j)
  unfolding rest_store forget_store
  read-rest_store a t s j ne =
      elim (Bool-cases (is_call t (ok (S.read (S.del (call_meta_key t) s) (agent_call_key a))))) [
        | inl named ↦ rw (named, S.read-del, ne, S.read-del)
        | inr other ↦ rw (other, S.read-del)
      ]

  read-rest_store_agent :
      (a : ℕ) (t : Text) (s : S.Store)
      → S.read (rest_store a t s) (agent_call_key a) ≡ forgotten t (S.read s (agent_call_key a))
  unfolding rest_store forget_store
  read-rest_store_agent a t s =
      let kept : S.read (S.del (call_meta_key t) s) (agent_call_key a)
          ≡ S.read s (agent_call_key a) =
        simp (S.read-del, key_laws) in
      elim (Bool-cases (is_call t (ok (S.read s (agent_call_key a))))) [
        | inl named ↦ simp (kept, named, S.read-del, eqb_refl)
        | inr other ↦ simp (kept, other)
      ]

  -- If Redis answers and the carrier's counter can be read, cleanupCall succeeds. The counter is one
  -- less and never below 0, the other counters are as before, and the call is gone.
  pub cleanup_call-one_less :
      (a : ℕ) (t : Text) (m : CallMeta) (u : ℕ) (n : ℤ) (w : W)
      → Healthy w
      → S.uuid_parse m.carrier_id ≡ some u
      → counter (counter_of u w) ≡ some n
      → (cleanup_call a t (some m) w).0 ≡ ok tt
        × (counter_of u (cleanup_call a t (some m) w).1 ≡ some (number (pos (one_less n))))
        × OtherCountersKept u w (cleanup_call a t (some m) w).1
        × Gone a t w (cleanup_call a t (some m) w).1
        × Healthy (cleanup_call a t (some m) w).1
  cleanup_call-one_less a t m u n w h p e =
      let freed : free_channel (S.uuid_parse m.carrier_id) w
          ≡ (ok tt, stored w (decr_store u n w.store)) =
        rw p (free_eq u n w h e) in
      rw (cleanup_eq a t (some m) (decr_store u n w.store) w h freed) (
        refl,
        simp (read-rest_store, key_laws) (read-decr_store u n w.store e),
        λ j ne.
            simp (read-rest_store, key_laws)
              (read-decr_store_other u n w.store (channel_key j) (simp (key_laws, ne))),
        (
          simp (read-rest_store, key_laws, eqb_refl),
          simp (
            read-rest_store_agent,
            read-decr_store_other u n w.store (agent_call_key a) (simp key_laws),
          ),
        ),
        h,
      )
