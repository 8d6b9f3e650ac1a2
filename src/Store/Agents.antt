-- ===== src/Store/Agents.antt =====
-- services/api/internal/store/campaigns.go: the agents of a campaign after `SetAgents`.
use callvoice.Common.{
  ℕ, ◌≡◌, ◌≢◌, refl, Bool, false, not, ◌&&◌, ◌||◌, List, [], ◌∷◌, ◌++◌, ok, arith, exists,
  exists-append, select, ◌==◌, ==_refl,
}
use callvoice.Models.{CampaignAgent}
use callvoice.Sql.{Tables, Db}
use callvoice.Sql.Wp.{
  Wp, Wp-ok, ok-Post, query-then, statement-Wp, seq-Wp, reads-then, atomically-Wp, forget-Wp,
  weaken-Wp, pure-Wp,
}
use callvoice.Store.Rules.{found-Post, require-Post}
use callvoice.Store.Campaigns.{
  campaign_of, get_campaign, insert_agents, delete_agents, set_agents, is_assigned, is_assignment,
}
use callvoice.Store.Whole.{AreAgents, check_agents-Wp}

abbrev pub is_listed : ℕ → List ℕ → Bool
is_listed user uids = exists (λ uid. uid == user) uids

-- What the insertions add.
abbrev Added : ℕ → List ℕ → Tables → Tables → Type 0
Added campaign uids t u =
    (c user : ℕ)
    → is_assigned c user u ≡ is_assigned c user t || campaign == c && is_listed user uids

Added-none : (campaign : ℕ) (t : Tables) → Added campaign [] t t
unfolding exists
Added-none campaign t c user = ground arith

Added-one :
    (campaign uid : ℕ) (uids : List ℕ) (t u : Tables)
    → Added campaign uids
        (record t {
          campaign_agents =
              t.campaign_agents ++ record { campaign_id = campaign; user_id = uid } ∷ [];
        })
        u
    → Added campaign (uid ∷ uids) t u
unfolding exists
Added-one campaign uid uids t u h c user =
    let row : CampaignAgent = record { campaign_id = campaign; user_id = uid } in
    let e = exists-append (is_assignment c user) t.campaign_agents row in
    ground (arith, e, h c user)

insert_agents-Wp :
    (campaign : ℕ) (uids : List ℕ) (t : Tables)
    → Wp (insert_agents campaign uids) (λ _. Added campaign uids t) (λ _ _. Unit {0}) t
unfolding insert_agents
insert_agents-Wp campaign [] t = pure-Wp tt (Added-none campaign t)
insert_agents-Wp campaign (uid ∷ uids) t = seq-Wp _ _ _ (
    statement-Wp _ _ _ t tt (λ _.
      require-Post _ _ _ _ t _ (λ _. tt)
        (λ _.
          require-Post _ _ _ _ t _ (λ _. tt)
            (λ _. ok-Post _ _ (
              weaken-Wp _ _ _ _ _ (λ _ u. Added-one campaign uid uids t u)
                (insert_agents-Wp campaign uids _))))))

deleted-here :
    (campaign user : ℕ) (as_ : List CampaignAgent)
    → exists (is_assignment campaign user) (select (λ a. not (a.campaign_id == campaign)) as_)
      ≡ false
unfolding exists select
deleted-here campaign user [] = refl
deleted-here campaign user (a ∷ as_) = ground (arith, deleted-here campaign user as_)

deleted-there :
    (campaign c user : ℕ) (as_ : List CampaignAgent)
    → c ≢ campaign
    → exists (is_assignment c user) (select (λ a. not (a.campaign_id == campaign)) as_)
      ≡ exists (is_assignment c user) as_
unfolding exists select
deleted-there campaign c user [] n = refl
deleted-there campaign c user (a ∷ as_) n = ground (arith, deleted-there campaign c user as_ n)

-- After `SetAgents` the users that are given, and no others, are on the campaign, and each of them
-- is an agent; the other campaigns have the agents that they had.
abbrev pub Assigned : ℕ → List ℕ → Tables → Tables → Type 0
Assigned campaign uids t u =
    AreAgents t uids
    × ((user : ℕ) → is_assigned campaign user u ≡ is_listed user uids)
    × ((c user : ℕ) → c ≢ campaign → is_assigned c user u ≡ is_assigned c user t)

Added-Assigned :
    (campaign : ℕ) (uids : List ℕ) (t u : Tables)
    → AreAgents t uids
    → Added campaign uids (delete_agents campaign t) u
    → Assigned campaign uids t u
Added-Assigned campaign uids t u a h = (
  a,
  (λ user.
      let e = deleted-here campaign user t.campaign_agents in
      let f = ==_refl campaign in ground (arith, e, f, h campaign user)),
  (λ c user n.
      let e = deleted-there campaign c user t.campaign_agents n in ground (arith, e, h c user)),
)

set_agents-Wp :
    (campaign : ℕ) (uids : List ℕ) (t : Tables)
    → Wp (set_agents campaign uids) (λ _. Assigned campaign uids t) (λ _ _. Unit {0}) t
unfolding set_agents get_campaign
set_agents-Wp campaign uids t = query-then _ _ tt (
    found-Post _ _ (campaign_of campaign t) t (λ _. tt)
      (λ _ _. reads-then _ _ t (AreAgents t uids) (forget-Wp _ _ _ t (check_agents-Wp uids t)) (λ a.
        atomically-Wp _ _ _ t tt (
          seq-Wp _ _ _ (
            statement-Wp _ _ _ t tt (λ _. ok-Post _ _ (
              weaken-Wp _ _ _ _ _ (λ _ u. Added-Assigned campaign uids t u a)
                (insert_agents-Wp campaign uids _))))))))

-- If `SetAgents` succeeds, each of the given users was an agent; they and no others are on the
-- campaign then, and every other campaign has the agents that it had.
pub set_agents-Assigned :
    (campaign : ℕ) (uids : List ℕ) (db : Db)
    → (set_agents campaign uids db).0 ≡ ok tt
    → Assigned campaign uids db.tables (set_agents campaign uids db).1.tables
set_agents-Assigned campaign uids db h =
    Wp-ok (λ _. Assigned campaign uids db.tables) (λ _ _. Unit {0}) (set_agents campaign uids) db tt
      (set_agents-Wp campaign uids db.tables) h
