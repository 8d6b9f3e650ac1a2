-- ===== src/Store/Status.antt =====
-- services/api/internal/store/campaigns.go: the status of a campaign over every history.
use callvoice.Sql.Laws.{statement-runs, query-runs}
use callvoice.Common.{
  subst, ℕ, ◌≡◌, refl, sym, ap, ◌∙◌, inl, inr, true, Bool-cases, Option, none, some, List, [], ◌∷◌,
  lookup, amend, mapped, lookup-append, lookup-amend, lookup-amend_other, ==_iff, ◌==◌,
  Option-cases, ok,
}
use callvoice.Models.{Campaign, CampaignStatus, draft, running, paused, stopped}
use callvoice.Sql.{◌>>=◌, ◌>>◌, guard, pure, Tables, Db, M}
use callvoice.Store.{found, given, present, require}
use callvoice.Store.Campaigns.{
  has_carrier, UpdateCampaignInput, valid_status_transition, updated_campaign, campaign_of,
  write_campaign, get_campaign, update_campaign,
}
use callvoice.Store.Operations.{Operation, history}
use callvoice.Store.Closed.{Closed}
use callvoice.Store.Closed.History.{history-Closed}

abbrev pub status_in : Option Campaign → Option CampaignStatus
status_in none = none
status_in (some c) = some c.status

unfoldable pub status_of : ℕ → Tables → Option CampaignStatus
status_of id t = status_in (campaign_of id t)

-- What no status comes back from: stopped stays, and draft is only at the start.
abbrev pub Later : CampaignStatus → CampaignStatus → Type 0
Later s s' = (s ≡ stopped → s' ≡ stopped) × (s' ≡ draft → s ≡ draft)

valid-Later :
    (s s' s'' : CampaignStatus) → Later s s' → valid_status_transition s' s'' ≡ true → Later s s''
unfolding valid_status_transition
valid-Later s draft draft h v = h
valid-Later s running draft h v = cc
valid-Later s paused draft h v = cc
valid-Later s stopped draft h v = cc
valid-Later s draft running h v = (λ e. let x : draft ≡ stopped = h.0 e in cc, λ e. cc)
valid-Later s running running h v = h
valid-Later s paused running h v = (λ e. let x : paused ≡ stopped = h.0 e in cc, λ e. cc)
valid-Later s stopped running h v = cc
valid-Later s draft paused h v = cc
valid-Later s running paused h v = (λ e. let x : running ≡ stopped = h.0 e in cc, λ e. cc)
valid-Later s paused paused h v = h
valid-Later s stopped paused h v = cc
valid-Later s s' stopped h v = (λ e. refl, λ e. cc)

abbrev HasStatus : ℕ → CampaignStatus → Tables → Type 0
HasStatus id s t = (c : Campaign) × (campaign_of id t ≡ some c) × Later s c.status

changed-HasStatus :
    (id : ℕ) (s : CampaignStatus) (t : Tables) (i : ℕ) (input : UpdateCampaignInput)
    (cur : Campaign) (now : ℕ)
    → campaign_of i t ≡ some cur
    → valid_status_transition cur.status (given input.status cur.status) ≡ true
    → HasStatus id s t
    → HasStatus id s
        (record t { campaigns = amend (λ c. c.id) i (updated_campaign input cur now) t.campaigns })
unfolding updated_campaign
changed-HasStatus id s t i input cur now e v (c, f, l) = elim (Bool-cases (i == id)) [
  | inl h ↦
      let same : i ≡ id = (==_iff i id).0 h in
      let whole : some c ≡ some cur = sym f ∙ ap (λ j. campaign_of j t) (sym same) ∙ e in
      let one : c ≡ cur = cc in
      (
        updated_campaign input cur now c,
        subst
            (λ j.
              campaign_of j (record t {
                campaigns = amend (λ c. c.id) i (updated_campaign input cur now) t.campaigns;
              })
              ≡ some (updated_campaign input cur now c))
            same
            (lookup-amend (λ c. c.id) i (updated_campaign input cur now) (λ _. refl) t.campaigns
              ∙ ap (mapped (updated_campaign input cur now)) (ap (λ j. campaign_of j t) same ∙ f)),
        valid-Later s cur.status (given input.status cur.status)
            (subst (λ d. Later s d.status) one l) v,
      )
  | inr h ↦ (
    c,
    lookup-amend_other (λ c. c.id) i id (updated_campaign input cur now)
          (λ x. let y : (i == id) ≡ true = (==_iff i id).1 x in cc) (λ _. refl) t.campaigns
        ∙ f,
    l,
  )
]

status-Closed : (id : ℕ) (s : CampaignStatus) → Closed (HasStatus id s)
status-Closed id s = record {
  carriers = λ t _ p. p;
  campaign_agents = λ t _ p. p;
  lead_lists = λ t _ p. p;
  dispositions = λ t _ p. p;
  call_logs = λ t _ p. p;
  campaign_added = λ t c p. (p.0, lookup-append (λ c. c.id) id t.campaigns (c ∷ []) p.1, p.2);
  campaign_changed = changed-HasStatus id s;
  lead_added = λ t l _ p. p;
  lead_taken = λ t _ _ p. p;
  lead_disposed = λ t _ _ _ p. p;
  user_added = λ t u _ _ p. p;
  user_changed = λ t _ _ _ _ _ _ p. p;
  password_changed = λ t _ _ p. p;
}

status_of-some :
    (id : ℕ) (t : Tables) {s : CampaignStatus}
    → status_of id t ≡ some s
    → (c : Campaign) × (campaign_of id t ≡ some c) × (c.status ≡ s)
unfolding status_of
status_of-some id t {s = s} h = elim (Option-cases (campaign_of id t)) [
  | inl e ↦ let x : none ≡ some s = ap status_in (sym e) ∙ h in cc
  | inr (c, e) ↦ let x : some c.status ≡ some s = ap status_in (sym e) ∙ h in (c, e, cc)
]

-- After any history of the stores' operations, one after the other and whatever statements fail,
-- a campaign is still there; it is stopped if it was, and it is a draft only if it was one.
pub history-status :
    (os : List Operation) (db : Db) (id : ℕ) (s : CampaignStatus)
    → status_of id db.tables ≡ some s
    → (s' : CampaignStatus) × (status_of id (history os db).tables ≡ some s')
      × (s ≡ stopped → s' ≡ stopped)
      × (s' ≡ draft → s ≡ draft)
unfolding status_of
history-status os db id s h =
    let (c, e, f) = status_of-some id db.tables h in
    let (c', e', l) =
      history-Closed (HasStatus id s) (status-Closed id s) os db
        (c, e, (λ x. f ∙ x, λ x. sym f ∙ x)) in
    (c'.status, ap status_in e', l.0, l.1)

-- The write of an update where no statement fails.
write_campaign-runs :
    (id : ℕ) (input : UpdateCampaignInput) (cur c : Campaign) (db : Db)
    → db.failures ≡ []
    → valid_status_transition cur.status (given input.status cur.status) ≡ true
    → campaign_of id db.tables ≡ some c
    → has_carrier (given input.carrier_id cur.carrier_id) db.tables ≡ true
    → write_campaign id input cur db ≡ (
      ok (updated_campaign input cur db.now c),
      record db {
        tables = record db.tables {
          campaigns = amend (λ c. c.id) id (updated_campaign input cur db.now) db.tables.campaigns;
        };
      },
    )
unfolding write_campaign guard ◌>>◌ pure present require
write_campaign-runs id input cur c db n v e h = rw (v, statement-runs _ db n, e, h) refl

valid-from :
    (from s to : CampaignStatus)
    → s ≡ from
    → valid_status_transition from to ≡ true
    → valid_status_transition s to ≡ true
valid-from from s to e v = rw e v

-- A `PATCH` of the status alone.
abbrev pub status_input : CampaignStatus → UpdateCampaignInput
status_input s = record { name = none; carrier_id = none; status = some s }

-- The update that pauses reads the campaign, another one stops it, and the first one writes.
unfoldable pub pause_over_stop : ℕ → M Campaign
pause_over_stop id = get_campaign id >>= λ cur.
    update_campaign id (status_input stopped) >>= λ _. write_campaign id (status_input paused) cur

-- Two updates of a campaign are not kept apart: where a campaign runs, its carrier exists and no
-- statement fails, an update that pauses it and has read it before another update stops it leaves
-- it paused, and not stopped.
pub pause_over_stop-paused :
    (id : ℕ) (cur : Campaign) (db : Db)
    → db.failures ≡ []
    → campaign_of id db.tables ≡ some cur
    → cur.status ≡ running
    → has_carrier cur.carrier_id db.tables ≡ true
    → status_of id (pause_over_stop id db).1.tables ≡ some paused
unfolding pause_over_stop get_campaign update_campaign ◌>>=◌ found status_of updated_campaign
    valid_status_transition
pause_over_stop-paused id cur db n e r h =
    rw (query-runs (λ t. found (campaign_of id t)) db n, e)
      (rw (query-runs (λ t. found (campaign_of id t)) db n, e)
        (rw
          (write_campaign-runs id (status_input stopped) cur cur db n
            (valid-from running cur.status stopped r refl) e h)
          (rw
            (write_campaign-runs id (status_input paused) cur (stopped_row cur) (stopped_db) n
              (valid-from running cur.status paused r refl) again h)
            (ap status_in final))))
  where
    stopped_row : Campaign → Campaign
    stopped_row = updated_campaign (status_input stopped) cur db.now

    stopped_db : Db
    stopped_db = record db {
      tables = record db.tables {
        campaigns = amend (λ c. c.id) id stopped_row db.tables.campaigns;
      };
    }

    again : campaign_of id stopped_db.tables ≡ some (stopped_row cur)
    again =
        lookup-amend (λ c. c.id) id stopped_row (λ _. refl) db.tables.campaigns
        ∙ ap (mapped stopped_row) e

    pause : Campaign → Campaign
    pause = updated_campaign (status_input paused) cur db.now

    final :
        lookup (λ c. c.id) id (amend (λ c. c.id) id pause stopped_db.tables.campaigns)
        ≡ some (pause (stopped_row cur))
    final =
        lookup-amend (λ c. c.id) id pause (λ _. refl) stopped_db.tables.campaigns
        ∙ ap (mapped pause) again
