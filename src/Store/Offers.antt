-- ===== src/Store/Offers.antt =====
-- services/api/internal/store/leads.go: an agent gets a lead as long as one waits.
use mathlib.Core.List.{Memᴰ}
use callvoice.Common.{
  ◌≤◌, ℕ, ◌≡◌, refl, sym, subst, ◌∙◌, ◌⊎◌, inl, inr, Bool, true, false, ◌&&◌, Bool-cases,
  Option-cases, Option, none, some, List, [], ◌∷◌, ap, Result, Error, ok, err, not_found,
  invalid_campaign_state, forbidden, no_leads_available, exists, has, arith, ◌==◌, ==_iff, ==_refl,
}
use callvoice.Models.{
  Lead, LeadList, LeadStatus, new_lead, in_progress, Campaign, CampaignAgent, CampaignStatus,
  running, is_status, draft, paused, stopped, no_answer, busy_lead, callback, disposed,
  answered_lead,
}
use callvoice.Sql.{Tables, Db, pure, fail, guard, ◌>>=◌, ◌>>◌}
use callvoice.Sql.Laws.{query-runs, statement-runs}
use callvoice.Store.{found, require}
use callvoice.Store.Campaigns.{
  campaign_of, get_campaign, is_agent_assigned, is_assigned, is_assignment,
}
use callvoice.Store.Leads.{
  is_candidate, in_campaign, is_new, is_list_of, next_lead, earlier, claim_row, claim_statement,
  claim_next,
}
use callvoice.Store.Claims.{earlier-or}

-- The agent may have a lead: the campaign runs, and he is on it.
abbrev pub MayClaim : ℕ → ℕ → Tables → Type 0
MayClaim campaign agent t =
    (c : Campaign) × (campaign_of campaign t ≡ some c)
    × (c.status ≡ running)
    × (a : CampaignAgent) × Memᴰ a t.campaign_agents
    × (a.campaign_id ≡ campaign)
    × (a.user_id ≡ agent)

-- A new lead on a list of the campaign.
abbrev pub Waiting : ℕ → Tables → Lead → Type 0
Waiting campaign t l =
    Memᴰ l t.leads
    × (l.status ≡ new_lead)
    × (k : LeadList) × Memᴰ k t.lead_lists
    × (k.campaign_id ≡ campaign)
    × (k.id ≡ l.list_id)

module _ {A : Type 0} where
  exists-Memᴰ :
      (p : A → Bool) (xs : List A) → exists p xs ≡ true → (x : A) × Memᴰ x xs × (p x ≡ true)
  unfolding exists
  exists-Memᴰ p [] h = cc
  exists-Memᴰ p (x ∷ xs) h = elim (Bool-cases (p x)) [
    | inl e ↦ (x, Memᴰ.head refl, e)
    | inr e ↦ let (y, m, k) = exists-Memᴰ p xs (sym (rw e refl) ∙ h) in (y, Memᴰ.tail m, k)
  ]

  Memᴰ-exists : (p : A → Bool) (x : A) (xs : List A) → Memᴰ x xs → p x ≡ true → exists p xs ≡ true
  unfolding exists
  Memᴰ-exists p x [] m h = elim m [ ]
  Memᴰ-exists p x (y ∷ xs) (Memᴰ.head e) h = rw (← e) (rw h refl)
  Memᴰ-exists p x (y ∷ xs) (Memᴰ.tail m) h = ground (arith, Memᴰ-exists p x xs m h)

is_status-eq : (s : CampaignStatus) → is_status s running ≡ true → s ≡ running
is_status-eq running h = refl
is_status-eq draft h = cc
is_status-eq paused h = cc
is_status-eq stopped h = cc

is_new-eq : (s : LeadStatus) → is_new s ≡ true → s ≡ new_lead
is_new-eq new_lead h = refl
is_new-eq in_progress h = cc
is_new-eq no_answer h = cc
is_new-eq busy_lead h = cc
is_new-eq callback h = cc
is_new-eq disposed h = cc
is_new-eq answered_lead h = cc

-- A lead that `next_lead` gives passes the test.
next_lead-some :
    (p : Lead → Bool) (ls : List Lead) (m : Lead)
    → next_lead p ls ≡ some m
    → Memᴰ m ls × (p m ≡ true)
unfolding next_lead
next_lead-some p [] m h = cc
next_lead-some p (l ∷ ls) m h = elim (Bool-cases (p l)) [
  | inl y ↦
      let whole : some (earlier l (next_lead p ls)) ≡ some m = sym (rw y refl) ∙ h in
      let one : earlier l (next_lead p ls) ≡ m = cc in
      elim (earlier-or l (next_lead p ls)) [
        | inl f ↦ let same : m ≡ l = sym one ∙ f in (Memᴰ.head same, rw same y)
        | inr f ↦ let (i, q) = next_lead-some p ls m (f ∙ ap (λ x. some x) one) in (Memᴰ.tail i, q)
      ]
  | inr n ↦ let (i, q) = next_lead-some p ls m (sym (rw n refl) ∙ h) in (Memᴰ.tail i, q)
]

-- Where no lead is given, none passes the test.
next_lead-none :
    (p : Lead → Bool) (ls : List Lead)
    → next_lead p ls ≡ none
    → (l : Lead) → Memᴰ l ls
    → p l ≡ false
unfolding next_lead
next_lead-none p [] h l m = elim m [ ]
next_lead-none p (x ∷ ls) h l m = elim (Bool-cases (p x)) [
  | inl y ↦ let whole : some (earlier x (next_lead p ls)) ≡ none = sym (rw y refl) ∙ h in cc
  | inr n ↦ elim m [
    | Memᴰ.head e ↦ rw e n
    | Memᴰ.tail i ↦ next_lead-none p ls (sym (rw n refl) ∙ h) l i
  ]
]

earlier-le : (x : Lead) (o : Option Lead) → (earlier x o).id ≤ x.id
earlier-le x none = omega arith
earlier-le x (some r) = ground arith

earlier-le_other : (x r : Lead) → (earlier x (some r)).id ≤ r.id
earlier-le_other x r = ground arith

-- The lead that `next_lead` gives is the first by its identifier.
next_lead-least :
    (p : Lead → Bool) (ls : List Lead) (m k : Lead)
    → next_lead p ls ≡ some m
    → Memᴰ k ls
    → p k ≡ true
    → m.id ≤ k.id
unfolding next_lead
next_lead-least p [] m k h i q = cc
next_lead-least p (x ∷ ls) m k h i q = elim (Bool-cases (p x)) [
  | inr n ↦ elim i [
    | Memᴰ.head e ↦ let no : p k ≡ false = rw e n in cc
    | Memᴰ.tail j ↦ next_lead-least p ls m k (sym (rw n refl) ∙ h) j q
  ]
  | inl y ↦
      let whole : some (earlier x (next_lead p ls)) ≡ some m = sym (rw y refl) ∙ h in
      let one : earlier x (next_lead p ls) ≡ m = cc in
      subst (λ z. z.id ≤ k.id) one
        (elim i [
          | Memᴰ.head e ↦ rw e (earlier-le x (next_lead p ls))
          | Memᴰ.tail j ↦ elim (Option-cases (next_lead p ls)) [
            | inl nothing ↦ let no : p k ≡ false = next_lead-none p ls nothing k j in cc
            | inr (r, found) ↦
                let low : (earlier x (some r)).id ≤ r.id = earlier-le_other x r in
                let below : r.id ≤ k.id = next_lead-least p ls r k found j q in
                rw found (omega (arith, low, below))
          ]
        ])
]

&&-left : (a b : Bool) → a && b ≡ true → a ≡ true
&&-left a b h = ground arith

&&-right : (a b : Bool) → a && b ≡ true → b ≡ true
&&-right a b h = ground arith

candidate-Waiting :
    (campaign : ℕ) (t : Tables) (l : Lead)
    → Memᴰ l t.leads
    → is_candidate campaign t l ≡ true
    → Waiting campaign t l
unfolding is_candidate in_campaign
candidate-Waiting campaign t l m h =
    let on_list = &&-left (in_campaign campaign t l) (is_new l.status) h in
    let (k, there, e) = exists-Memᴰ (is_list_of campaign l.list_id) t.lead_lists on_list in
    (
      m,
      is_new-eq l.status (&&-right (in_campaign campaign t l) (is_new l.status) h),
      k,
      there,
      (==_iff k.campaign_id campaign).0 (&&-left (k.campaign_id == campaign) _ e),
      (==_iff k.id l.list_id).0 (&&-right _ (k.id == l.list_id) e),
    )

Waiting-candidate :
    (campaign : ℕ) (t : Tables) (l : Lead) → Waiting campaign t l → is_candidate campaign t l ≡ true
unfolding is_candidate in_campaign
Waiting-candidate campaign t l (_, new, k, there, mine, its) =
    let listed : exists (is_list_of campaign l.list_id) t.lead_lists ≡ true =
      Memᴰ-exists (is_list_of campaign l.list_id) k t.lead_lists there
        (rw (mine, its, ==_refl campaign, ==_refl l.list_id) refl) in
    rw (listed, new) refl

Assigned-is_assigned :
    (campaign agent : ℕ) (t : Tables) (a : CampaignAgent)
    → Memᴰ a t.campaign_agents
    → a.campaign_id ≡ campaign
    → a.user_id ≡ agent
    → is_assigned campaign agent t ≡ true
Assigned-is_assigned campaign agent t a m e f =
    Memᴰ-exists (is_assignment campaign agent) a t.campaign_agents m
      (rw (e, f, ==_refl campaign, ==_refl agent) refl)

-- How a claim ends.
abbrev pub Offered : ℕ → ℕ → Tables → Result Lead → Type 0
Offered campaign agent t r =
    (MayClaim campaign agent t
      × (l : Lead) × Waiting campaign t l
      × ((k : Lead) → Waiting campaign t k → l.id ≤ k.id)
      × (r ≡ ok (record l { status = in_progress; assigned_agent_id = some agent })))
    ⊎ (MayClaim campaign agent t
        × ((l : Lead) → ¬ Waiting campaign t l)
        × (r ≡ err no_leads_available))
    ⊎ (¬ MayClaim campaign agent t × (e : Error) × (r ≡ err e))

claim_statement-Offered :
    (campaign agent : ℕ) (t : Tables)
    → MayClaim campaign agent t
    → has (λ u. u.id) agent t.users ≡ true
    → (o : Option Lead) → next_lead (is_candidate campaign t) t.leads ≡ o
    → Offered campaign agent t (claim_row agent o t).0
unfolding require
claim_statement-Offered campaign agent t may u none e = inr (
    inl (
      may,
      λ l w.
          let none_passes : is_candidate campaign t l ≡ false =
            next_lead-none (is_candidate campaign t) t.leads e l w.0 in
          let passes : is_candidate campaign t l ≡ true = Waiting-candidate campaign t l w in cc,
      refl,
    ))
claim_statement-Offered campaign agent t may u (some l) e =
    let (m, h) = next_lead-some (is_candidate campaign t) t.leads l e in
    inl (
      may,
      l,
      candidate-Waiting campaign t l m h,
      λ k w.
          next_lead-least (is_candidate campaign t) t.leads l k e w.0
            (Waiting-candidate campaign t k w),
      rw u refl,
    )

-- The answers to an agent who may have no lead, and to another.
module _ (campaign agent : ℕ) (db : Db) (c : Campaign) (n : db.failures ≡ [])
    (e : campaign_of campaign db.tables ≡ some c) where
  claim_idle :
      is_status c.status running ≡ false
      → (claim_next campaign agent db).0 ≡ err invalid_campaign_state
  unfolding claim_next get_campaign ◌>>=◌ ◌>>◌ guard found fail
  claim_idle stands = rw (query-runs (λ t. found (campaign_of campaign t)) db n, e, stands) refl

  claim_apart :
      is_status c.status running ≡ true
      → is_assigned campaign agent db.tables ≡ false
      → (claim_next campaign agent db).0 ≡ err forbidden
  unfolding claim_next get_campaign is_agent_assigned ◌>>=◌ ◌>>◌ guard found pure fail
  claim_apart runs apart =
      rw (query-runs (λ t. found (campaign_of campaign t)) db n, e, runs)
        (rw (query-runs (λ t. ok (is_assigned campaign agent t)) db n, apart) refl)

  claim_runs :
      is_status c.status running ≡ true
      → is_assigned campaign agent db.tables ≡ true
      → (claim_next campaign agent db).0 ≡ (claim_statement campaign agent db.tables).0
  unfolding claim_next get_campaign is_agent_assigned ◌>>=◌ ◌>>◌ guard found pure
  claim_runs runs on =
      rw (query-runs (λ t. found (campaign_of campaign t)) db n, e, runs)
        (rw (query-runs (λ t. ok (is_assigned campaign agent t)) db n, on)
          (rw (statement-runs (λ _. claim_statement campaign agent) db n) refl))

-- The claim for a campaign that is there, where no statement fails.
claim_there :
    (campaign agent : ℕ) (db : Db) (c : Campaign)
    → db.failures ≡ []
    → has (λ u. u.id) agent db.tables.users ≡ true
    → campaign_of campaign db.tables ≡ some c
    → Offered campaign agent db.tables (claim_next campaign agent db).0
claim_there campaign agent db c n u e = elim (Bool-cases (is_status c.status running)) [
  | inr stands ↦
      inr (inr (idle stands, invalid_campaign_state, claim_idle campaign agent db c n e stands))
  | inl runs ↦ elim (Bool-cases (is_assigned campaign agent db.tables)) [
    | inr apart ↦
        inr (inr (stranger apart, forbidden, claim_apart campaign agent db c n e runs apart))
    | inl on ↦
        subst (λ r. Offered campaign agent db.tables r)
          (sym (claim_runs campaign agent db c n e runs on))
          (claim_statement-Offered campaign agent db.tables (may runs on) u _ refl)
  ]
]
  where
    idle : is_status c.status running ≡ false → ¬ MayClaim campaign agent db.tables
    idle stands (d, there, runs, _, _, _, _) =
        let same : c ≡ d = cc in
        let yes : is_status c.status running ≡ true = rw (same, runs) refl in cc

    stranger : is_assigned campaign agent db.tables ≡ false → ¬ MayClaim campaign agent db.tables
    stranger apart (_, _, _, a, m, f, g) =
        let yes : is_assigned campaign agent db.tables ≡ true =
          Assigned-is_assigned campaign agent db.tables a m f g in
        cc

    may :
        is_status c.status running ≡ true
        → is_assigned campaign agent db.tables ≡ true
        → MayClaim campaign agent db.tables
    may runs on =
        let (a, m, h) = exists-Memᴰ (is_assignment campaign agent) db.tables.campaign_agents on in
        (
          c,
          e,
          is_status-eq c.status runs,
          a,
          m,
          (==_iff a.campaign_id campaign).0 (&&-left (a.campaign_id == campaign) _ h),
          (==_iff a.user_id agent).0 (&&-right _ (a.user_id == agent) h),
        )

claim_missing :
    (campaign agent : ℕ) (db : Db)
    → db.failures ≡ []
    → campaign_of campaign db.tables ≡ none
    → (claim_next campaign agent db).0 ≡ err not_found
unfolding claim_next get_campaign ◌>>=◌ found
claim_missing campaign agent db n missing =
    rw (query-runs (λ t. found (campaign_of campaign t)) db n, missing) refl

-- Where no statement fails and the agent is a user, `ClaimNext` gives the agent the first by its
-- identifier of the new leads on the lists of the campaign, if the campaign runs, he is on it and
-- there is such a lead; it says that there is none, if he may have one and none waits; and it is an
-- error if the campaign is not there or does not run, or he is not on it.
pub claim_next-offers :
    (campaign agent : ℕ) (db : Db)
    → db.failures ≡ []
    → has (λ u. u.id) agent db.tables.users ≡ true
    → Offered campaign agent db.tables (claim_next campaign agent db).0
claim_next-offers campaign agent db n u = elim (Option-cases (campaign_of campaign db.tables)) [
  | inl missing ↦
      inr (
        inr (λ (c, there, _, _, _, _, _). cc, not_found, claim_missing campaign agent db n missing))
  | inr (c, there) ↦ claim_there campaign agent db c n u there
]
