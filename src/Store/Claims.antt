-- ===== src/Store/Claims.antt =====
-- services/api/internal/store/leads.go: a lead is given to one agent once.
use callvoice.Common.{
  ℕ, ◌≡◌, ◌≢◌, refl, sym, ap, subst, ◌∙◌, ◌⊎◌, inl, inr, Bool, true, false, ◌&&◌, ◌||◌, Bool-cases,
  Option, none, some, List, [], ◌∷◌, ◌++◌, arith, amend, has, exists, ==_iff, ==_refl, ◌==◌, ltb,
  ok,
}
use callvoice.Models.{Lead, Disposition}
use callvoice.Sql.{Tables, Db}
use callvoice.Sql.Wp.{Post, Wp, Wp-ok, ok-Post, err-Post, query-then, guard-then, statement-Wp}
use callvoice.Store.Rules.{found-Post, require-Post}
use callvoice.Store.Campaigns.{campaign_of, get_campaign, is_agent_assigned}
use callvoice.Store.Leads.{is_new, is_candidate, next_lead, earlier, claimed, claim_row, claim_next}
use callvoice.Store.CallLogs.{dispose_lead, lead_status_from_disposition}
use callvoice.Store.Operations.{Operation, history}
use callvoice.Store.Closed.{Closed}
use callvoice.Store.Closed.History.{history-Closed}

-- Whether a lead with the identifier still waits.
unfoldable pub waits : ℕ → List Lead → Bool
waits id ls = exists (λ l. l.id == id && is_new l.status) ls

-- The lead is there and waits no more.
abbrev Taken : ℕ → Tables → Type 0
Taken id t = (has (λ l. l.id) id t.leads ≡ true) × (waits id t.leads ≡ false)

disposed-not_new : (d : Disposition) → is_new (lead_status_from_disposition d) ≡ false
unfolding lead_status_from_disposition
disposed-not_new d = ground arith

||-left : (a b : Bool) → a || b ≡ false → a ≡ false
||-left a b h = ground arith

||-right : (a b : Bool) → a || b ≡ false → b ≡ false
||-right a b h = ground arith

&&-false : (a : Bool) → (a && false || false) ≡ false
&&-false a = ground arith

waits-amend :
    (f : Lead → Lead)
    → ((l : Lead) → (f l).id ≡ l.id)
    → ((l : Lead) → is_new (f l).status ≡ false)
    → (i id : ℕ) (ls : List Lead) → waits id ls ≡ false
    → waits id (amend (λ l. l.id) i f ls) ≡ false
unfolding waits exists amend
waits-amend f k n i id [] h = refl
waits-amend f k n i id (l ∷ ls) h =
    let below = waits-amend f k n i id ls (||-right (l.id == id && is_new l.status) _ h) in
    elim (Bool-cases (l.id == i)) [
      | inl e ↦ rw (e, n l, below) (&&-false ((f l).id == id))
      | inr e ↦ rw (e, below, ||-left (l.id == id && is_new l.status) _ h) refl
    ]

waits-claimed :
    (agent id : ℕ) (ls : List Lead) → waits id (amend (λ l. l.id) id (claimed agent) ls) ≡ false
unfolding waits exists amend
waits-claimed agent id [] = refl
waits-claimed agent id (l ∷ ls) = ground (arith, waits-claimed agent id ls)

has-amend_leads :
    (f : Lead → Lead)
    → ((l : Lead) → (f l).id ≡ l.id)
    → (i id : ℕ) (ls : List Lead)
    → has (λ l. l.id) id (amend (λ l. l.id) i f ls) ≡ has (λ l. l.id) id ls
unfolding has exists amend
has-amend_leads f k i id [] = refl
has-amend_leads f k i id (l ∷ ls) = ground (arith, k l, has-amend_leads f k i id ls)

has-append_leads :
    (l : Lead) (id : ℕ) (ls : List Lead)
    → has (λ l. l.id) id ls ≡ true
    → has (λ l. l.id) id (ls ++ l ∷ []) ≡ true
unfolding has exists
has-append_leads m id [] h = cc
has-append_leads m id (l ∷ ls) h = ground (arith, has-append_leads m id ls)

waits-append :
    (l : Lead) (id : ℕ) (ls : List Lead)
    → (l.id == id) ≡ false
    → waits id ls ≡ false
    → waits id (ls ++ l ∷ []) ≡ false
unfolding waits exists
waits-append m id [] n h = ground arith
waits-append m id (l ∷ ls) n h = ground (arith, waits-append m id ls)

amended-Taken :
    (f : Lead → Lead)
    → ((l : Lead) → (f l).id ≡ l.id)
    → ((l : Lead) → is_new (f l).status ≡ false)
    → (id : ℕ) (t : Tables) (i : ℕ) → Taken id t
    → Taken id (record t { leads = amend (λ l. l.id) i f t.leads })
amended-Taken f k n id t i p =
    (has-amend_leads f k i id t.leads ∙ p.0, waits-amend f k n i id t.leads p.1)

added-Taken :
    (id : ℕ) (t : Tables) (l : Lead)
    → has (λ l. l.id) l.id t.leads ≡ false
    → Taken id t
    → Taken id (record t { leads = t.leads ++ l ∷ [] })
added-Taken id t l h p =
    (has-append_leads l id t.leads p.0, waits-append l id t.leads (apart t.leads l id h p.0) p.1)
  where
    apart :
        (ls : List Lead) (l : Lead) (id : ℕ)
        → has (λ l. l.id) l.id ls ≡ false
        → has (λ l. l.id) id ls ≡ true
        → (l.id == id) ≡ false
    apart ls l id n e = elim (Bool-cases (l.id == id)) [
      | inl s ↦
          let same : l.id ≡ id = (==_iff l.id id).0 s in
          let x : has (λ l. l.id) id ls ≡ false =
            subst (λ j. has (λ l. l.id) j ls ≡ false) same n in
          cc
      | inr s ↦ s
    ]

leads-Closed : (id : ℕ) → Closed (Taken id)
leads-Closed id = record {
  carriers = λ t _ p. p;
  campaign_agents = λ t _ p. p;
  lead_lists = λ t _ p. p;
  dispositions = λ t _ p. p;
  call_logs = λ t _ p. p;
  campaign_added = λ t _ p. p;
  campaign_changed = λ t _ _ _ _ _ _ p. p;
  lead_added = λ t l h p. added-Taken id t l h p;
  lead_taken = λ t i agent p. amended-Taken (claimed agent) (λ _. refl) (λ _. refl) id t i p;
  lead_disposed = λ t i d disposition p.
      amended-Taken (dispose_lead (lead_status_from_disposition d) disposition) (λ _. refl)
        (λ _. disposed-not_new d) id t i p;
  user_added = λ t _ _ _ p. p;
  user_changed = λ t _ _ _ _ _ _ p. p;
  password_changed = λ t _ _ p. p;
}

waits-has : (id : ℕ) (ls : List Lead) → waits id ls ≡ true → has (λ l. l.id) id ls ≡ true
unfolding waits has exists
waits-has id [] h = cc
waits-has id (l ∷ ls) h = ground (arith, waits-has id ls)

pub earlier-or : (l : Lead) (o : Option Lead) → (earlier l o ≡ l) ⊎ (o ≡ some (earlier l o))
earlier-or l none = inl refl
earlier-or l (some m) = elim (Bool-cases (ltb m.id l.id)) [
  | inl e ↦ inr (rw e refl)
  | inr e ↦ inl (rw e refl)
]

waits-here : (l : Lead) (ls : List Lead) → is_new l.status ≡ true → waits l.id (l ∷ ls) ≡ true
unfolding waits exists
waits-here l ls h = rw (==_refl l.id, h) refl

waits-there : (id : ℕ) (l : Lead) (ls : List Lead) → waits id ls ≡ true → waits id (l ∷ ls) ≡ true
unfolding waits exists
waits-there id l ls h = ground (arith, h)

-- `next_lead` gives a lead that waits.
next_lead-waits :
    (p : Lead → Bool) (ls : List Lead) (m : Lead)
    → ((l : Lead) → p l ≡ true → is_new l.status ≡ true)
    → next_lead p ls ≡ some m
    → waits m.id ls ≡ true
unfolding next_lead
next_lead-waits p [] m h e = cc
next_lead-waits p (l ∷ ls) m h e = elim (Bool-cases (p l)) [
  | inl y ↦
      let whole : some (earlier l (next_lead p ls)) ≡ some m = sym (rw y refl) ∙ e in
      let one : earlier l (next_lead p ls) ≡ m = cc in
      elim (earlier-or l (next_lead p ls)) [
        | inl f ↦ subst (λ x. waits x.id (l ∷ ls) ≡ true) (sym f ∙ one) (waits-here l ls (h l y))
        | inr f ↦ waits-there m.id l ls (next_lead-waits p ls m h (f ∙ ap (λ x. some x) one))
      ]
  | inr y ↦ waits-there m.id l ls (next_lead-waits p ls m h (sym (rw y refl) ∙ e))
]

candidate-new :
    (campaign : ℕ) (t : Tables) (l : Lead)
    → is_candidate campaign t l ≡ true
    → is_new l.status ≡ true
unfolding is_candidate
candidate-new campaign t l h = ground (arith, h)

claim_row-Post :
    (agent : ℕ) (o : Option Lead) (t : Tables)
    → ((l : Lead) → o ≡ some l → waits l.id t.leads ≡ true)
    → Post
        (λ l u. (waits l.id t.leads ≡ true) × Taken l.id u)
        (λ _ _. Unit {0})
        (claim_row agent o t)
claim_row-Post agent none t h = err-Post _ _ tt
claim_row-Post agent (some l) t h =
    require-Post _ _ _ _ t _ (λ _. tt)
      (λ _. ok-Post _ _ (
        h l refl,
        (
          has-amend_leads (claimed agent) (λ _. refl) l.id l.id t.leads
              ∙ waits-has l.id t.leads (h l refl),
          waits-claimed agent l.id t.leads,
        ),
      ))

-- The claim of a lead: it waited before and is taken after.
claim_next-Wp :
    (campaign agent : ℕ) (t : Tables)
    → Wp
        (claim_next campaign agent)
        (λ l u. (waits l.id t.leads ≡ true) × Taken l.id u)
        (λ _ _. Unit {0})
        t
unfolding claim_next get_campaign is_agent_assigned
claim_next-Wp campaign agent t = query-then _ _ tt (
    found-Post _ _ (campaign_of campaign t) t (λ _. tt)
      (λ c _.
        guard-then _ _ _ (λ _. tt)
          (λ _. query-then _ _ tt (
            ok-Post _ _ (
              guard-then _ _ _ (λ _. tt)
                (λ _. statement-Wp _ _ _ t tt (λ _. claim_row-Post agent _ t (λ l e.
                  next_lead-waits (is_candidate campaign t) t.leads l (candidate-new campaign t)
                    e))))))))

-- A lead that an agent is given is given to no agent again, over any history of the stores'
-- operations after it, one after the other and whatever statements fail.
pub claim_next-once :
    (campaign agent campaign' agent' : ℕ) (os : List Operation) (db : Db) (l l' : Lead)
    → (claim_next campaign agent db).0 ≡ ok l
    → (claim_next campaign' agent' (history os (claim_next campaign agent db).1)).0 ≡ ok l'
    → l'.id ≢ l.id
claim_next-once campaign agent campaign' agent' os db l l' h h' same =
    let db1 = (claim_next campaign agent db).1 in
    let taken = (Wp-ok _ _ _ db l (claim_next-Wp campaign agent db.tables) h).1 in
    let after = history-Closed (Taken l.id) (leads-Closed l.id) os db1 taken in
    let waited = (Wp-ok _ _ _ (history os db1) l' (claim_next-Wp campaign' agent' _) h').0 in
    let again : waits l.id (history os db1).tables.leads ≡ true =
      subst (λ i. waits i (history os db1).tables.leads ≡ true) same waited in
    let never : waits l.id (history os db1).tables.leads ≡ false = after.1 in cc
