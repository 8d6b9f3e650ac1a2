-- ===== src/Store/Outcomes.antt =====
-- services/api/internal/store/calllogs.go: what a recorded outcome leaves in the tables.
use callvoice.Common.{
  ℕ, ◌≡◌, refl, true, Bool-cases, inl, inr, Option, none, some, [], ◌∷◌, ◌++◌, ok, lookup, amend,
  ==_iff, List, Text, codes, eqb, false, All,
}
use callvoice.Models.{
  Lead, LeadStatus, no_answer, busy_lead, callback, disposed, answered_lead, Disposition, CallLog,
}
use callvoice.Sql.{Tables, Db, M}
use callvoice.Sql.Wp.{
  Post, Wp, Wp-ok, ok-Post, err-Post, query-then, guard-then, statement-Wp, insert-Wp, seq-Wp,
  atomically-Wp,
}
use callvoice.Store.Rules.{found-Post, require-Post}
use callvoice.Store.Leads.{in_campaign}
use callvoice.Store.Dispositions.{get_disposition, belongs_to, is_campaign}
use callvoice.Store.CallLogs.{
  RecordDispositionInput, record_disposition, lead_status_from_disposition, holder, is_held_by,
}

abbrev special_codes : List Text
special_codes =
    codes "NO_ANSWER" ∷ codes "BUSY" ∷ codes "CALLBACK" ∷ codes "SUCCESS" ∷ codes "DNC" ∷ []

-- The status of a lead with the outcome: that of its code, or of its success for any other code.
abbrev pub Asked : Disposition → LeadStatus → Type 0
Asked d s =
    (d.code ≡ codes "NO_ANSWER" → s ≡ no_answer)
    × (d.code ≡ codes "BUSY" → s ≡ busy_lead)
    × (d.code ≡ codes "CALLBACK" → s ≡ callback)
    × (d.code ≡ codes "SUCCESS" → s ≡ answered_lead)
    × (d.code ≡ codes "DNC" → s ≡ disposed)
    × (All (λ c. eqb d.code c ≡ false) special_codes → d.is_success ≡ true → s ≡ answered_lead)
    × (All (λ c. eqb d.code c ≡ false) special_codes → d.is_success ≡ false → s ≡ disposed)

status-Asked : (d : Disposition) → Asked d (lead_status_from_disposition d)
unfolding lead_status_from_disposition eqb
status-Asked d = (
  λ e. rw e refl,
  λ e. rw e refl,
  λ e. rw e refl,
  λ e. rw e refl,
  λ e. rw e refl,
  λ (a, (b, (c, (f, (g, _))))) y. rw (a, b, c, f, g, y) refl,
  λ (a, (b, (c, (f, (g, _))))) n. rw (a, b, c, f, g, n) refl,
)

-- The outcome is one of the campaign, the lead is on a list of it and held by the agent; the lead
-- has the status of the outcome then, and the log one entry more, at its end.
abbrev pub Recorded : RecordDispositionInput → Tables → CallLog → Tables → Type 0
Recorded input t log u =
    (d : Disposition) × (l : Lead) × (lookup (λ d. d.id) input.disposition_id t.dispositions
      ≡ some d)
    × (d.campaign_id ≡ some input.campaign_id)
    × (lookup (λ l. l.id) input.lead_id t.leads ≡ some l)
    × (in_campaign input.campaign_id t l ≡ true)
    × (l.assigned_agent_id ≡ some input.agent_id)
    × (s : LeadStatus) × Asked d s
    × (u.leads
        ≡ amend (λ l. l.id) input.lead_id
            (λ l. record l { status = s; disposition_id = some input.disposition_id }) t.leads)
    × (log ≡ record {
      id = log.id;
      campaign_id = input.campaign_id;
      lead_id = some input.lead_id;
      agent_id = input.agent_id;
      started_at = input.started_at;
      ended_at = input.ended_at;
      duration_sec = input.duration_sec;
      disposition_id = some input.disposition_id;
      to_number = input.to_number;
    })
    × (u.call_logs ≡ t.call_logs ++ log ∷ [])

held-by : (agent : ℕ) (o : Option ℕ) → is_held_by agent o ≡ true → o ≡ some agent
held-by agent none h = cc
held-by agent (some a) h = let e : a ≡ agent = (==_iff a agent).0 h in cc

owned : (campaign : ℕ) (o : Option ℕ) → is_campaign campaign o ≡ true → o ≡ some campaign
owned campaign none h = cc
owned campaign (some c) h = let e : c ≡ campaign = (==_iff c campaign).0 h in cc

belongs :
    (campaign : ℕ) (d : Disposition) → belongs_to campaign d ≡ true → d.campaign_id ≡ some campaign
belongs campaign d h = owned campaign d.campaign_id h

holder-Post :
    (campaign : ℕ) (o : Option Lead) (t : Tables) (k : Option ℕ → M CallLog)
    (Q : CallLog → Tables → Type 0)
    → ((l : Lead)
        → o ≡ some l
        → in_campaign campaign t l ≡ true
        → Wp (k l.assigned_agent_id) Q (λ _ _. Unit {0}) t)
    → Post (λ a u. Wp (k a) Q (λ _ _. Unit {0}) u) (λ _ _. Unit {0}) (holder campaign t o, t)
holder-Post campaign none t k Q h = err-Post _ _ tt
holder-Post campaign (some l) t k Q h = elim (Bool-cases (in_campaign campaign t l)) [
  | inl e ↦ rw e (ok-Post _ _ (h l refl e))
  | inr e ↦ rw e (err-Post _ _ tt)
]

record_disposition-Wp :
    (input : RecordDispositionInput) (t : Tables)
    → Wp (record_disposition input) (Recorded input t) (λ _ _. Unit {0}) t
unfolding record_disposition get_disposition
record_disposition-Wp input t = query-then _ _ tt (
    found-Post _ _ (lookup (λ d. d.id) input.disposition_id t.dispositions) t (λ _. tt)
      (λ d e.
        guard-then _ _ _ (λ _. tt)
          (λ b. atomically-Wp _ _ _ t tt (
            query-then _ _ tt (
              holder-Post input.campaign_id _ t _ _ (λ l f g.
                guard-then _ _ _ (λ _. tt)
                  (λ a. seq-Wp _ _ _ (
                    statement-Wp _ _ _ t tt (λ _.
                      require-Post _ _ _ _ t _ (λ _. tt)
                        (λ _. ok-Post _ _ (
                          insert-Wp _ _ _ _ tt (λ id _.
                            require-Post _ _ _ _ _ _ (λ _. tt)
                              (λ _.
                                require-Post _ _ _ _ _ _ (λ _. tt)
                                  (λ _. ok-Post _ _ (
                                    d,
                                    l,
                                    e,
                                    belongs input.campaign_id d b,
                                    f,
                                    g,
                                    held-by input.agent_id l.assigned_agent_id a,
                                    lead_status_from_disposition d,
                                    status-Asked d,
                                    refl,
                                    refl,
                                    refl,
                                  )))))))))))))))

-- If an outcome is recorded, it is one of the campaign, and the lead is on a list of the campaign
-- and held by the agent; the lead has the outcome and its status then (`Asked` lists the codes),
-- the other leads are as before, and the log has one entry more, at its end, with the campaign, the
-- lead, the agent, the times, the duration, the outcome and the number that were given.
pub record_disposition-Recorded :
    (input : RecordDispositionInput) (db : Db) (log : CallLog)
    → (record_disposition input db).0 ≡ ok log
    → Recorded input db.tables log (record_disposition input db).1.tables
record_disposition-Recorded input db log h =
    Wp-ok (Recorded input db.tables) (λ _ _. Unit {0}) (record_disposition input) db log
      (record_disposition-Wp input db.tables) h
