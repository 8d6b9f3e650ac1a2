-- ===== src/Inbound/Scan/Laws.antt =====
-- Who FirstAvailableAgent finds.

use callvoice.Common.{
  pair_eq, ℕ, ◌≡◌, ◌≢◌, refl, ◌∙◌, ◌⊎◌, inl, inr, true, false, Option, none, some, List, [], ◌∷◌,
  map, Text, All, Result, ok, err, no_agent,
}
use callvoice.Services.{Services, object}
use callvoice.Services.Commands.{W}
use callvoice.Services.Commands.Healthy.{Healthy, get-Healthy}
use callvoice.Presence.{Presence, PresenceValue, state_available, state_on_call, claim_available}
use callvoice.Presence.Laws.{presence_of, moved_to, OthersKept, claim_available-Shifted}
use callvoice.Inbound.Scan.{candidate, says_available, scan_keys, first_available_agent}

module _ ⦃S : Services⦄ where
  -- The claim of an available agent: on_call after it, with the same campaign, and no other key
  -- touched.
  abbrev pub Claimed : ℕ → W → W → Type 0
  Claimed id w w' =
      (v : PresenceValue) × (presence_of id w ≡ some (ok v))
      × (v.state ≡ state_available)
      × (presence_of id w' ≡ some (ok (moved_to state_on_call v)))
      × OthersKept id w w'
      × Healthy w'

  -- A scanned key that leads to no available agent.
  abbrev pub Unclaimable : W → Text → Type 0
  Unclaimable w key =
      (id : ℕ) (v : PresenceValue)
      → candidate key (S.read w.store key) ≡ some id
      → presence_of id w ≡ some (ok v)
      → v.state ≢ state_available

  abbrev Scanned : List Text → W → Result (Option ℕ) × W → Type 0
  Scanned keys w after =
      ((id : ℕ) × (after.0 ≡ ok (some id)) × Claimed id w after.1)
      ⊎ ((after ≡ (ok none, w)) × All (Unclaimable w) keys)

  Scanned-cons :
      (key : Text) (keys : List Text) (w : W) (after : Result (Option ℕ) × W)
      → Unclaimable w key
      → Scanned keys w after
      → Scanned (key ∷ keys) w after
  Scanned-cons key keys w after not_here (inl found) = inl found
  Scanned-cons key keys w after not_here (inr (e, rest)) = inr (e, (not_here, rest))

  scan_none : (p : Presence) (w : W) → scan_keys p [] w ≡ (ok none, w)
  unfolding scan_keys
  scan_none p w = refl

  scan_miss :
      (p : Presence) (key : Text) (keys : List Text) (w : W)
      → Healthy w
      → candidate key (S.read w.store key) ≡ none
      → scan_keys p (key ∷ keys) w ≡ scan_keys p keys w
  unfolding scan_keys
  scan_miss p key keys w h e = rw (get-Healthy key w h, e)

  scan_lost :
      (p : Presence) (key : Text) (keys : List Text) (w : W) (id : ℕ)
      → Healthy w
      → candidate key (S.read w.store key) ≡ some id
      → claim_available p id w ≡ (ok false, w)
      → scan_keys p (key ∷ keys) w ≡ scan_keys p keys w
  unfolding scan_keys
  scan_lost p key keys w id h e c = rw (get-Healthy key w h, e, c)

  scan_won :
      (p : Presence) (key : Text) (keys : List Text) (w : W) (id : ℕ)
      → Healthy w
      → candidate key (S.read w.store key) ≡ some id
      → (claim_available p id w).0 ≡ ok true
      → scan_keys p (key ∷ keys) w ≡ (ok (some id), (claim_available p id w).1)
  unfolding scan_keys
  scan_won p key keys w id h e c = rw (get-Healthy key w h, e, c)

  scan_step :
      (p : Presence) (key : Text) (keys : List Text) (w : W)
      → Healthy w
      → (c : Option ℕ) → candidate key (S.read w.store key) ≡ c
      → Scanned keys w (scan_keys p keys w)
      → Scanned (key ∷ keys) w (scan_keys p (key ∷ keys) w)
  scan_step p key keys w h none e rest =
      rw (scan_miss p key keys w h e) (Scanned-cons key keys w _ (λ id v at said. cc) rest)
  scan_step p key keys w h (some id) e rest = elim (claim_available-Shifted p id w h) [
    | inl (v, at, ready, done, now, kept, well) ↦
        rw (scan_won p key keys w id h e done) (inl (id, refl, (v, at, ready, now, kept, well)))
    | inr (never, done, same) ↦ rw (scan_lost p key keys w id h e (pair_eq done same)) (
        Scanned-cons key keys w _
          (λ i v at now. let same_id : id ≡ i = cc in never v (rw same_id now)) rest)
  ]

  scan_keys-Scanned :
      (p : Presence) (keys : List Text) (w : W) → Healthy w → Scanned keys w (scan_keys p keys w)
  scan_keys-Scanned p [] w h = rw (scan_none p w) (inr (refl, tt))
  scan_keys-Scanned p (key ∷ keys) w h =
      scan_step p key keys w h (candidate key (S.read w.store key)) refl
        (scan_keys-Scanned p keys w h)

  -- What the scan leaves: an agent claimed, or nothing changed and no scanned key of an agent to
  -- claim.
  abbrev pub Searched : List (List Text) → W → Result ℕ × W → Type 0
  Searched pages w after =
      ((id : ℕ) × (after.0 ≡ ok id) × Claimed id w after.1)
      ⊎ ((after ≡ (err no_agent, w)) × All (All (Unclaimable w)) pages)

  Searched-cons :
      (keys : List Text) (pages : List (List Text)) (w : W) (after : Result ℕ × W)
      → All (Unclaimable w) keys
      → Searched pages w after
      → Searched (keys ∷ pages) w after
  Searched-cons keys pages w after missed (inl found) = inl found
  Searched-cons keys pages w after missed (inr (e, rest)) = inr (e, (missed, rest))

  search_none : (p : Presence) (w : W) → first_available_agent p [] w ≡ (err no_agent, w)
  unfolding first_available_agent
  search_none p w = refl

  search_miss :
      (p : Presence) (keys : List Text) (pages : List (Result (List Text))) (w : W)
      → scan_keys p keys w ≡ (ok none, w)
      → first_available_agent p (ok keys ∷ pages) w ≡ first_available_agent p pages w
  unfolding first_available_agent
  search_miss p keys pages w e = rw e

  search_hit :
      (p : Presence) (keys : List Text) (pages : List (Result (List Text))) (w : W) (id : ℕ)
      → (scan_keys p keys w).0 ≡ ok (some id)
      → first_available_agent p (ok keys ∷ pages) w ≡ (ok id, (scan_keys p keys w).1)
  unfolding first_available_agent
  search_hit p keys pages w id e = rw (pair_eq {p = scan_keys p keys w} e refl)

  pub first_available_agent-Searched :
      (p : Presence) (pages : List (List Text)) (w : W)
      → Healthy w
      → Searched pages w (first_available_agent p (map ok pages) w)
  first_available_agent-Searched p [] w h = rw (search_none p w) (inr (refl, tt))
  first_available_agent-Searched p (keys ∷ pages) w h = elim (scan_keys-Scanned p keys w h) [
    | inl (id, e, claimed) ↦ rw (search_hit p keys (map ok pages) w id e) (inl (id, refl, claimed))
    | inr (e, missed) ↦
        rw (search_miss p keys (map ok pages) w e)
          (Searched-cons keys pages w _ missed (first_available_agent-Searched p pages w h))
  ]

  -- The presence values of agents who joined a campaign are JSON objects.
  abbrev pub Joined : W → Text → Type 0
  Joined w key =
      (S.read w.store key ≡ none)
      ⊎ ((fs : List (Text × Text)) × (S.read w.store key ≡ some (object fs)))

  candidate-Joined : (w : W) (key : Text) → Joined w key → candidate key (S.read w.store key) ≡ none
  unfolding candidate says_available
  candidate-Joined w key (inl e) = rw e
  candidate-Joined w key (inr (fs, e)) = rw e

  scan_keys-Joined :
      (p : Presence) (keys : List Text) (w : W)
      → Healthy w
      → All (Joined w) keys
      → scan_keys p keys w ≡ (ok none, w)
  scan_keys-Joined p [] w h j = scan_none p w
  scan_keys-Joined p (key ∷ keys) w h (j, js) =
      scan_miss p key keys w h (candidate-Joined w key j) ∙ scan_keys-Joined p keys w h js

  -- The defect: where every scanned agent has a campaign on his presence, whatever his state, the
  -- search answers `no_agent`, also with agents who are available.
  pub first_available_agent-Joined :
      (p : Presence) (pages : List (List Text)) (w : W)
      → Healthy w
      → All (All (Joined w)) pages
      → first_available_agent p (map ok pages) w ≡ (err no_agent, w)
  first_available_agent-Joined p [] w h j = search_none p w
  first_available_agent-Joined p (keys ∷ pages) w h (j, js) =
      search_miss p keys (map ok pages) w (scan_keys-Joined p keys w h j)
      ∙ first_available_agent-Joined p pages w h js
