-- ===== src/Rollout/Offers.antt =====
-- Proofs about what agentRelease (brisk-control/internal/api/rollouts.go) tells an agent.
use brisk.Prelude.{
  In, In-All, All-of, ℕ, Bytes, ◌≡◌, ◌≢◌, refl, sym, ◌∙◌, Option, none, some, Bool, true, List, [],
  ◌∷◌, ◌&&◌, All, Bool-cases, inl, inr, str_eq, str_eq_iff, arith, subst, ap,
}
use brisk.Rollout.{Db, Status, Rollout, RolloutTarget, in_flight, ServerRow, ReleaseMeta}
use brisk.Rollout.Store.{World, Result, ok, err, active_rollout, list_targets, find_active}
use brisk.Rollout.Api.{
  AgentReleaseResp, release, find_server, get_server, get_release_meta, offer, offer_listed,
  offer_running, agent_release_for, agent_release, with_meta, running_rollout,
}
use brisk.Rollout.OneInFlight.{OneInFlight}
use brisk.Rollout.Listed.{listed, All-listed}
use brisk.Rollout.System.{Reach, Reach-OneInFlight}

-- a response that sends the agent to a download
pub record IsUpdate (rel : AgentReleaseResp) : Type 0 where
  pub has_url : rel.url ≢ []

module _ (edge current : Bytes) where
  with_meta-update :
      (version : Bytes) (meta : Result ReleaseMeta) (rel : AgentReleaseResp)
      → with_meta current version meta ≡ release rel
      → IsUpdate rel
      → rel.target_version ≡ version
  with_meta-update version (ok m) rel h up = cc
  with_meta-update version (err e) rel h up = absurd (up.has_url (cc h))

  -- An update is offered only for a listed row that is in flight and of the caller's edge.
  offer-flying :
      (Q : RolloutTarget → Type 0) (ts : List RolloutTarget) (w : World) (rel : AgentReleaseResp)
      → All Q ts
      → (offer edge current ts w).0 ≡ ok (release rel)
      → IsUpdate rel
      → (t : RolloutTarget) × Q t
        × (t.edge_id ≡ edge)
        × (in_flight t.state ≡ true)
        × (rel.target_version ≡ t.to_version)
  unfolding offer
  offer-flying Q [] w rel q h up = absurd (up.has_url (cc h))
  offer-flying Q (t ∷ ts) w rel q h up =
      elim (Bool-cases (str_eq t.edge_id edge && in_flight t.state)) [
        | inl hit ↦ (
          t,
          q.0,
          ground (arith, hit, str_eq_iff t.edge_id edge),
          ground (arith, hit),
          with_meta-update t.to_version (get_release_meta t.to_version w).0 rel
              (let found : ok (with_meta current t.to_version (get_release_meta t.to_version w).0)
                    ≡ ok (release rel) =
                  rw (hit, offer) at h in
                cc)
              up,
        )
        | inr miss ↦ offer-flying Q ts w rel q.1 (rw (miss, offer) at h) up
      ]

  offer_listed-flying :
      (Q : RolloutTarget → Type 0) (le : Bytes → Bytes → Bool) (ts : Result (List RolloutTarget))
      (w : World) (rel : AgentReleaseResp)
      → ((us : List RolloutTarget) → ts ≡ ok us → All Q us)
      → (offer_listed le edge current ts w).0 ≡ ok (release rel)
      → IsUpdate rel
      → (t : RolloutTarget) × Q t
        × (t.edge_id ≡ edge)
        × (in_flight t.state ≡ true)
        × (rel.target_version ≡ t.to_version)
  unfolding offer_listed
  offer_listed-flying Q le (ok us) w rel q h up = offer-flying Q us w rel (q us refl) h up
  offer_listed-flying Q le (err e) w rel q h up = absurd (up.has_url (cc h))

module _ (w : World) where
  get_server-ok :
      (id : ℕ) (s : ServerRow) → (get_server id w).0 ≡ ok s → find_server id w.db.servers ≡ some s
  unfolding get_server
  get_server-ok id s h = ground arith

  db-get_server : (id : ℕ) → (get_server id w).1.db ≡ w.db
  unfolding get_server
  db-get_server id = ground arith

  db-active_rollout : (active_rollout w).1.db ≡ w.db
  unfolding active_rollout
  db-active_rollout = ground arith

  running_rollout-active :
      (r : Rollout)
      → running_rollout (active_rollout w).0 ≡ some r
      → (find_active w.db.rollouts ≡ some r) × (r.status ≡ Status.running)
  unfolding active_rollout
  running_rollout-active r h = ground arith

  list_targets-ok :
      (le : Bytes → Bytes → Bool) (id : ℕ) (ts : List RolloutTarget)
      → (list_targets le id w).0 ≡ ok ts
      → ts ≡ listed le id w.db.targets
  unfolding list_targets
  list_targets-ok le id ts h = ground arith

-- Why an update is offered to an edge: the row that the offer rests on.
pub record Offered (db : Db) (edge : Bytes) (rel : AgentReleaseResp) : Type 0 where
  pub rollout : Rollout
  pub target : RolloutTarget
  pub active : find_active db.rollouts ≡ some rollout
  pub running : rollout.status ≡ Status.running
  pub row : In target db.targets
  pub own : target.rollout_id ≡ rollout.id
  pub of_edge : target.edge_id ≡ edge
  pub flying : in_flight target.state ≡ true
  pub version : rel.target_version ≡ target.to_version

module _ (le : Bytes → Bytes → Bool) (rel : AgentReleaseResp) (up : IsUpdate rel) where
  offer_running-Offered :
      (edge current : Bytes) (o : Option Rollout) (w : World)
      → (offer_running le edge current o w).0 ≡ ok (release rel)
      → ((r : Rollout)
          → o ≡ some r
          → (find_active w.db.rollouts ≡ some r) × (r.status ≡ Status.running))
      → Offered w.db edge rel
  unfolding offer_running
  offer_running-Offered edge current none w h active = absurd (up.has_url (cc h))
  offer_running-Offered edge current (some r) w h active =
      let (t, (row, own), of_edge, flying, version) =
        offer_listed-flying edge current (λ t. In t w.db.targets × (t.rollout_id ≡ r.id)) le
          (list_targets le r.id w).0 (list_targets le r.id w).1 rel
          (λ us e. rw (list_targets-ok w le r.id us e) (
            All-listed (λ t. In t w.db.targets) le r.id w.db.targets
              (All-of _ w.db.targets (λ t i. i))))
          h up in
      record {
        rollout = r;
        target = t;
        active = (active r refl).0;
        running = (active r refl).1;
        row = row;
        own = own;
        of_edge = of_edge;
        flying = flying;
        version = version;
      }

  agent_release_for-Offered :
      (x : Result ServerRow) (w : World)
      → (agent_release_for le x w).0 ≡ ok (release rel)
      → (s : ServerRow) × (x ≡ ok s) × Offered w.db s.edge_id rel
  unfolding agent_release_for
  agent_release_for-Offered (err e) w h = cc
  agent_release_for-Offered (ok s) w h = (
    s,
    refl,
    subst (λ db. Offered db s.edge_id rel) (db-active_rollout w)
        (offer_running-Offered s.edge_id s.agent_version (running_rollout (active_rollout w).0)
          (active_rollout w).1 h (λ r e. rw db-active_rollout (running_rollout-active w r e))),
  )

  -- An agent is sent to a download only while a rollout is running and one of its targets is in
  -- flight at the caller's own edge, and it is sent to that target's version.
  pub agent_release-Offered :
      (id : ℕ) (w : World)
      → (agent_release le id w).0 ≡ ok (release rel)
      → (s : ServerRow) × (find_server id w.db.servers ≡ some s) × Offered w.db s.edge_id rel
  unfolding agent_release
  agent_release-Offered id w h =
      let (s, e, o) = agent_release_for-Offered (get_server id w).0 (get_server id w).1 h in
      (s, get_server-ok w id s e, subst (λ db. Offered db s.edge_id rel) (db-get_server w id) o)

-- Two offers made over the same tables are made to one edge.
Offered-same_edge :
    {db : Db} {a b : Bytes} {ra rb : AgentReleaseResp}
    → OneInFlight db
    → Offered db a ra
    → Offered db b rb
    → a ≡ b
Offered-same_edge {db} h x y =
    let at =
      λ (t : RolloutTarget) (i : In t db.targets). In-All _ db.targets i (h.only x.rollout.id) in
    let same : x.rollout ≡ y.rollout = cc (x.active, y.active) in
    sym x.of_edge
    ∙ (at x.target x.row x.own x.flying
        ∙ (sym (at y.target y.row (y.own ∙ ap (λ (r : Rollout). r.id) (sym same)) y.flying)
            ∙ y.of_edge))

-- From tables with no targets, after any sequence of engine ticks, admin requests, database
-- failures and fleet changes: if two agents are told over the same tables to download a release,
-- whichever database calls fail meanwhile, they are the same edge.
pub one_update_at_a_time :
    (le : Bytes → Bytes → Bool) {u w : World}
    → u.db.targets ≡ []
    → Reach le u w
    → (a b : ℕ) (fa fb : List Bool) (ra rb : AgentReleaseResp) (s t : ServerRow)
    → (agent_release le a (record w { faults = fa })).0 ≡ ok (release ra)
    → (agent_release le b (record w { faults = fb })).0 ≡ ok (release rb)
    → IsUpdate ra
    → IsUpdate rb
    → find_server a w.db.servers ≡ some s
    → find_server b w.db.servers ≡ some t
    → s.edge_id ≡ t.edge_id
one_update_at_a_time le {w} empty run a b fa fb ra rb s t ha hb ua ub sa tb =
    let (s', es, oa) = agent_release-Offered le ra ua a (record w { faults = fa }) ha in
    let (t', et, ob) = agent_release-Offered le rb ub b (record w { faults = fb }) hb in
    let p : s ≡ s' = cc (sa, es) in
    let q : t ≡ t' = cc (tb, et) in
    ap (λ (x : ServerRow). x.edge_id) p
    ∙ (Offered-same_edge (Reach-OneInFlight le empty run) oa ob
        ∙ sym (ap (λ (x : ServerRow). x.edge_id) q))
