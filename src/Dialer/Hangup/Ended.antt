-- ===== src/Dialer/Hangup/Ended.antt =====
-- A hangup undoes what the placing of the call has recorded.
use callvoice.Common.{
  ℕ, suc, ◌≡◌, refl, ap, ◌∙◌, inl, inr, true, Option, none, some, List, [], ◌∷◌, ◌++◌, Text, codes,
  eqb_refl, Result, ok, err, pair_eq,
}
use callvoice.Common.Int.{pos}
use callvoice.Services.{Services, number, text, counter}
use callvoice.Services.Commands.{W, continue, esl_api, publish}
use callvoice.Services.Commands.Healthy.{Healthy, get-Healthy}
use callvoice.Services.Commands.Inversion.{esl_api-Same, store-publish, esl_api-reply}
use callvoice.Keys.{agent_call_key, call_meta_key, channel_key, key_laws}
use callvoice.Presence.{Presence}
use callvoice.Presence.Laws.{OthersKept, release_on_call-restores}
use callvoice.Esl.{is_killed}
use callvoice.Dialer.Calls.{CallMeta, OutboundRequest, encode_meta, cleanup_call}
use callvoice.Dialer.Calls.Laws.{counter_of, OtherCountersKept, Tracked}
use callvoice.Dialer.Calls.Cleanup.{cleanup_call-one_less}
use callvoice.Dialer.Calls.Metadata.{load_meta_written}
use callvoice.Dialer.Originate.{Manual}
use callvoice.Dialer.Hangup.{find_call, named_call, kill, hung_up, release, hangup_event, hangup}

module _ ⦃S : Services⦄ where
  find_eq :
      (a : ℕ) (t : Text) (m : CallMeta) (w : W)
      → Healthy w
      → S.read w.store (agent_call_key a) ≡ some (text t)
      → S.read w.store (call_meta_key t) ≡ some (encode_meta m)
      → find_call a [] w ≡ (ok (t, some m), w)
  unfolding find_call named_call
  find_eq a t m w h call meta =
      rw (get-Healthy (agent_call_key a) w h, call, S.raw-text t, load_meta_written t m w h meta)

  -- The agent's presence is the one key that his release may write.
  release_lem :
      (p : Option Presence) (a : ℕ) (w : W)
      → Healthy w
      → ((release p a w).0 ≡ ok tt) × OthersKept a w (release p a w).1
  unfolding release
  release_lem none a w h = (refl, λ j ne. refl)
  release_lem (some p) a w h = elim (release_on_call-restores p a w h).1 [
    | inl (v, _, _, _, kept) ↦ (refl, kept)
    | inr (_, same) ↦ (refl, λ j ne. ap (λ w'. S.read w'.store j) same)
  ]

  -- How the end of a hangup is reached from the cleanup, and what it keeps.
  abbrev notified :
      Manual → ℕ → Text × Option CallMeta → Result (Unit {0}) × W → Result (Unit {0}) × W
  notified m a call r =
      continue (λ _ w. (ok tt, (publish (hangup_event a call.0 call.1) w).1))
        (continue (λ _. release m.pres a) r)

  notified_lem :
      (m : Manual) (a : ℕ) (call : Text × Option CallMeta) (r : Result (Unit {0}) × W)
      → r.0 ≡ ok tt
      → Healthy r.1
      → ((notified m a call r).0 ≡ ok tt) × OthersKept a r.1 (notified m a call r).1
  notified_lem m a call (ok _, w) e h =
      let (done, kept) = release_lem m.pres a w h in
      let w1 = (release m.pres a w).1 in
      rw (pair_eq {p = release m.pres a w} done refl) (
        refl,
        λ j ne. ap (λ s. S.read s j) (store-publish (hangup_event a call.0 call.1) w1) ∙ kept j ne,
      )
  notified_lem m a call (err e, w) f h = cc

  hung_up_eq :
      (m : Manual) (a : ℕ) (t : Text) (meta : Option CallMeta) (body : Text) (w : W)
      → is_killed body ≡ true
      → hung_up m a (t, meta) body w ≡ notified m a (t, meta) (cleanup_call a t meta w)
  unfolding hung_up
  hung_up_eq m a t meta body w gone = rw gone

  -- The counts before the call was placed, and Redis names the call no more.
  abbrev pub Undone : OutboundRequest → ℕ → Text → ℕ → W → W → Type 0
  Undone req u t k w w2 =
      (counter_of u w2 ≡ some (number (pos k)))
      × OtherCountersKept u w w2
      × (S.read w2.store (call_meta_key t) ≡ none)
      × (S.read w2.store (agent_call_key req.agent_id) ≡ none)

  -- From a call that is recorded, a cleanup and what follows it lead back.
  cleaned-Undone :
      (m : Manual) (req : OutboundRequest) (u : ℕ) (t : Text) (k : ℕ) (meta : CallMeta)
      (w w1 w2 : W)
      → Healthy w2
      → w2.store ≡ w1.store
      → meta.carrier_id ≡ S.uuid_string u
      → Tracked req u t (pos k) w w1
      → (notified m req.agent_id (t, some meta) (cleanup_call req.agent_id t (some meta) w2)).0
          ≡ ok tt
        × Undone req u t k w
            (notified m req.agent_id (t, some meta) (cleanup_call req.agent_id t (some meta) w2)).1
  cleaned-Undone m req u t k meta w w1 w2 h same by (was, now, others, recorded, call) =
      let a = req.agent_id in
      let number_now : counter (counter_of u w2) ≡ some (pos (suc k)) = rw (same, now) in
      let (done, less, kept, (meta_gone, agent_gone), h') =
        cleanup_call-one_less a t meta u (pos (suc k)) w2 h (rw by (S.parse-string u)) number_now in
      let (ok_, later) =
        notified_lem m a (t, some meta) (cleanup_call a t (some meta) w2) done h' in
      (
        ok_,
        (
          later (channel_key u) (simp key_laws) ∙ less,
          λ j ne.
              later (channel_key j) (simp key_laws)
              ∙ (kept j ne ∙ (ap (λ s. S.read s (channel_key j)) same ∙ others j ne)),
          later (call_meta_key t) (simp key_laws) ∙ meta_gone,
          later (agent_call_key a) (simp key_laws)
              ∙ (agent_gone ∙ simp (same, call, S.raw-text t, eqb_refl)),
        ),
      )

  kill_eq :
      (m : Manual) (a : ℕ) (t : Text) (meta : Option CallMeta) (body : Text)
      (rs : List (Result Text)) (w : W)
      → w.replies ≡ ok body ∷ rs
      → is_killed body ≡ true
      → kill m a (t, meta) w
        ≡ notified m a (t, meta) (cleanup_call a t meta (esl_api (codes "uuid_kill " ++ t) w).1)
  unfolding kill
  kill_eq m a t meta body rs w replies gone =
      let w1 = (esl_api (codes "uuid_kill " ++ t) w).1 in
      rw (
        pair_eq {p = esl_api (codes "uuid_kill " ++ t) w}
            (esl_api-reply (codes "uuid_kill " ++ t) w replies) refl,
        hung_up_eq m a t meta body w1 gone,
      )

  hangup_eq :
      (m : Manual) (a : ℕ) (t : Text) (meta : CallMeta) (w : W)
      → find_call a [] w ≡ (ok (t, some meta), w)
      → hangup m a [] w ≡ kill m a (t, some meta) w
  unfolding hangup
  hangup_eq m a t meta w e = rw e

  -- If Redis answers and FreeSWITCH kills the channel or no longer knows it, a hangup of an agent's
  -- active call, in a state where Originate has recorded it, succeeds and undoes the record: the
  -- carrier's counter holds the count that it had before the call was placed, every other counter is
  -- as it was, and neither the metadata nor the agent's key is left.
  pub hangup-Undone :
      (m : Manual) (req : OutboundRequest) (u : ℕ) (t body : Text) (k : ℕ) (rs : List (Result Text))
      (w w1 : W)
      → Healthy w1
      → Tracked req u t (pos k) w w1
      → w1.replies ≡ ok body ∷ rs
      → is_killed body ≡ true
      → ((hangup m req.agent_id [] w1).0 ≡ ok tt)
        × Undone req u t k w (hangup m req.agent_id [] w1).1
  hangup-Undone m req u t body k rs w w1 h made replies gone =
      let a = req.agent_id in
      let (was, now, others, (meta, written, mine, by, dest), call) = made in
      let w2 = (esl_api (codes "uuid_kill " ++ t) w1).1 in
      let (same, still) = esl_api-Same (codes "uuid_kill " ++ t) w1 in
      rw
        (
          hangup_eq m a t meta w1 (find_eq a t meta w1 h call written),
          kill_eq m a t (some meta) body rs w1 replies gone,
        )
        (cleaned-Undone m req u t k meta w w1 w2 (still ∙ h) same by made)
