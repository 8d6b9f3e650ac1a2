-- ===== src/Live/Wallboard/Laws.antt =====
-- The counts of a snapshot are those of its lists.
use callvoice.Common.{
  ℕ, suc, ◌+◌, ◌≡◌, ◌≤◌, refl, ap, ◌∙◌, Bool, true, false, Bool-cases, Option, none, some, List, [],
  ◌∷◌, ◌++◌, Text, eqb, is_empty, length, length-append, arith, if◌then◌else◌, Result, ok, err, inl,
  inr, codes,
}
use callvoice.Services.{Services, Value, text, number, object}
use callvoice.Services.Commands.{W, M, continue, get}
use callvoice.Presence.{state_available, state_paused, state_on_call}
use callvoice.Live.Wallboard.{
  Wallboard, WallboardCounts, empty_wallboard, count_state, add_agent, add_found_agent, add_call,
  parse_agent_presence, named_by, scan_key, scan_page, scan_all, build_snapshot,
}

-- The agents by state are no more than the agents listed, and the calls are those listed.
abbrev pub Counted : Wallboard → Type 0
Counted wb =
    (wb.counts.available + wb.counts.paused + wb.counts.on_call ≤ length wb.agents)
    × (wb.counts.calls ≡ length wb.calls)

-- A step that keeps the counts right.
abbrev Keeps : (Text → Option Value → Wallboard → Wallboard) → Type 0
Keeps add =
    (name : Text) (raw : Option Value) (wb : Wallboard) → Counted wb → Counted (add name raw wb)

counted_state :
    (s : Text) (c : WallboardCounts)
    → ((count_state s c).available + (count_state s c).paused + (count_state s c).on_call
        ≤ suc (c.available + c.paused + c.on_call))
      × ((count_state s c).calls ≡ c.calls)
counted_state s c = elim (Bool-cases (eqb s state_available)) [
  | inl a ↦ rw a (omega arith, refl)
  | inr a ↦ rw a (elim (Bool-cases (eqb s state_paused)) [
    | inl b ↦ rw b (omega arith, refl)
    | inr b ↦ rw b (elim (Bool-cases (eqb s state_on_call)) [
      | inl c' ↦ rw c' (omega arith, refl)
      | inr c' ↦ rw c' (omega arith, refl)
    ])
  ])
]

add_agent-Counted :
    (name : Text) (p : Text × Text) (wb : Wallboard) → Counted wb → Counted (add_agent name p wb)
unfolding add_agent
add_agent-Counted name (state, campaign) wb (few, same) = elim (Bool-cases (is_empty state)) [
  | inl none_there ↦ rw none_there (few, same)
  | inr there ↦
      let (more, kept) = counted_state state wb.counts in
      rw there (omega (arith, more, few, length-append wb.agents _), kept ∙ same)
]

add_found_agent-Counted : Keeps add_found_agent
unfolding add_found_agent
add_found_agent-Counted name none wb h = h
add_found_agent-Counted name (some raw) wb h =
    add_agent-Counted name (parse_agent_presence raw) wb h

add_call-Counted : Keeps add_call
unfolding add_call
add_call-Counted name none wb h = h
add_call-Counted name (some (text t)) wb h = h
add_call-Counted name (some (number n)) wb h = h
add_call-Counted name (some (object fs)) wb (few, same) =
    (few, omega (arith, same, length-append wb.calls _))

module _ ⦃S : Services⦄ where
  -- A snapshot that is returned has right counts.
  abbrev pub Sound : Result Wallboard → Type 0
  Sound r = (wb : Wallboard) → r ≡ ok wb → Counted wb

  Sound-ok : (wb : Wallboard) → Counted wb → Sound (ok wb)
  Sound-ok wb h wb' e = let same : wb ≡ wb' = cc in rw (← same) h

  Sound-err : (e : callvoice.Common.Error) → Sound (err e)
  Sound-err e wb h = cc

  module _ (add : Text → Option Value → Wallboard → Wallboard) (keeps : Keeps add)
      (prefix : Text) where
    -- A sound first part, then a part that keeps soundness.
    Sound-continue :
        (f : Wallboard → M Wallboard) (r : Result Wallboard × W)
        → ((wb : Wallboard) (w : W) → Counted wb → Sound (f wb w).0)
        → Sound r.0
        → Sound (continue f r).0
    Sound-continue f (ok wb, w) then_ h = then_ wb w (h wb refl)
    Sound-continue f (err e, w) then_ h = Sound-err e

    scan_key-Sound :
        (key : Text) (name : Option Text) (wb : Wallboard) (w : W)
        → Counted wb
        → Sound (scan_key add key name wb w).0
    unfolding scan_key
    scan_key-Sound key none wb w h = Sound-ok wb h
    scan_key-Sound key (some name) wb w h = found (get key w)
      where
        found :
            (r : Result (Option Value) × W)
            → Sound (continue (λ raw w'. (ok (add name raw wb), w')) r).0
        found (ok raw, w') = Sound-ok (add name raw wb) (keeps name raw wb h)
        found (err e, w') = Sound-err e

    scan_page-Sound :
        (keys : List Text) (wb : Wallboard) (w : W)
        → Counted wb
        → Sound (scan_page add prefix keys wb w).0
    unfolding scan_page
    scan_page-Sound [] wb w h = Sound-ok wb h
    scan_page-Sound (key ∷ keys) wb w h =
        Sound-continue (scan_page add prefix keys) (scan_key add key (named_by prefix key) wb w)
          (scan_page-Sound keys) (scan_key-Sound key (named_by prefix key) wb w h)

    scan_all-Sound :
        (pages : List (Result (List Text))) (wb : Wallboard) (w : W)
        → Counted wb
        → Sound (scan_all add prefix pages wb w).0
    unfolding scan_all
    scan_all-Sound [] wb w h = Sound-ok wb h
    scan_all-Sound (err e ∷ pages) wb w h = Sound-err e
    scan_all-Sound (ok keys ∷ pages) wb w h =
        Sound-continue (scan_all add prefix pages) (scan_page add prefix keys wb w)
          (scan_all-Sound pages) (scan_page-Sound keys wb w h)

  -- However Redis behaves, in a snapshot that is returned the agents counted as available, paused and
  -- on_call are together at most the agents listed, and the calls counted are those listed.
  pub build_snapshot-Counted :
      (agent_pages call_pages : List (Result (List Text))) (w : W) (wb : Wallboard)
      → (build_snapshot agent_pages call_pages w).0 ≡ ok wb
      → Counted wb
  unfolding build_snapshot
  build_snapshot-Counted agent_pages call_pages w wb h =
      Sound-continue add_call add_call-Counted (codes "call:meta:")
        (scan_all add_call (codes "call:meta:") call_pages)
        (scan_all add_found_agent (codes "agent:") agent_pages empty_wallboard w)
        (scan_all-Sound add_call add_call-Counted (codes "call:meta:") call_pages)
        (scan_all-Sound add_found_agent add_found_agent-Counted (codes "agent:") agent_pages
          empty_wallboard w (omega arith, refl))
        wb h
