-- ===== src/Rollout/Api.antt =====
-- The rollout handlers of brisk-control/internal/api/rollouts.go. A response is its status with
-- what the body carries; the text of an error is left out.
use brisk.Prelude.{
  ℕ, Bytes, codes, str_eq, Option, none, some, Bool, true, false, ◌&&◌, List, [], ◌∷◌, ◌++◌, ◌==◌,
  if◌then◌else◌, lookup,
}
use brisk.Rollout.{Status, Rollout, RolloutTarget, ServerRow, ReleaseMeta, in_flight}
use brisk.Rollout.Store.{
  M, Err, Result, ok, err, ◌>>=◌, pure, query, from_option, round_trip, active_rollout,
  list_targets,
}

pub record AgentReleaseResp : Type 0 where
  pub target_version : Bytes
  pub url : Bytes
  pub sha256 : Bytes
  pub signature : Bytes
  pub signed_by : Bytes

pub data Response : Type 0 where
  bad_request not_found conflict internal_error : Response
  release : AgentReleaseResp → Response
  created : ℕ → Response
  status_set : ℕ → Status → Response
  rolled_back : ℕ → Bytes → Response

-- A store call whose error the handler looks at.
abbrev pub attempt : {A : Type 0} → M A → M (Result A)
attempt m w = let (r, w') = m w in (ok r, w')

-- `if err != nil`, with the error's branch last
abbrev pub either : {A B : Type 0} → Result A → (A → M B) → (Err → M B) → M B
either (ok a) f g = f a
either (err e) f g = g e

unfoldable pub find_server : ℕ → List ServerRow → Option ServerRow
find_server id [] = none
find_server id (s ∷ ss) = if s.id == id then some s else find_server id ss

unfoldable pub get_server : ℕ → M ServerRow
unfolding round_trip find_server
get_server id = do s ← query (λ db. find_server id db.servers); from_option s

unfoldable pub get_release_meta : Bytes → M ReleaseMeta
unfolding round_trip
get_release_meta version = do m ← query (λ db. lookup version db.releases); from_option m

-- {TargetVersion: current}, with no download
abbrev pub no_update : Bytes → Response
no_update current =
    release
      (record { target_version = current; url = []; sha256 = []; signature = []; signed_by = [] })

abbrev pub update_to : Bytes → ReleaseMeta → Response
update_to version rel = release (record {
  target_version = version;
  url = codes "/api/v1/releases/" ++ (version ++ codes "/binary");
  sha256 = rel.sha256;
  signature = rel.signature;
  signed_by = rel.signed_by;
})

abbrev pub with_meta : Bytes → Bytes → Result ReleaseMeta → Response
with_meta current version (ok rel) = update_to version rel
with_meta current version (err e) = no_update current

-- the loop over the targets; it stops at the edge's first open wave
unfoldable pub offer : Bytes → Bytes → List RolloutTarget → M Response
unfolding get_release_meta
offer edge current [] = pure (no_update current)
offer edge current (t ∷ ts) = elim (str_eq t.edge_id edge && in_flight t.state) [
  | true ↦ (do
    meta ← attempt (get_release_meta t.to_version)
    pure (with_meta current t.to_version meta))
  | false ↦ offer edge current ts
]

abbrev pub running_rollout : Result (Option Rollout) → Option Rollout
running_rollout (ok (some r)) = elim r.status [ Status.running ↦ some r | _ ↦ none ]
running_rollout (ok none) = none
running_rollout (err e) = none

module _ (le : Bytes → Bytes → Bool) where
  unfoldable pub offer_listed : Bytes → Bytes → Result (List RolloutTarget) → M Response
  unfolding offer
  offer_listed edge current (ok targets) = offer edge current targets
  offer_listed edge current (err e) = pure (no_update current)

  unfoldable pub offer_running : Bytes → Bytes → Option Rollout → M Response
  unfolding offer_listed
  offer_running edge current none = pure (no_update current)
  offer_running edge current (some r) = do
    targets ← attempt (list_targets le r.id)
    offer_listed edge current targets

  unfoldable pub agent_release_for : Result ServerRow → M Response
  unfolding offer_running
  agent_release_for (err e) = pure not_found
  agent_release_for (ok srv) = do
    rollout ← attempt active_rollout
    offer_running srv.edge_id srv.agent_version (running_rollout rollout)

  -- agentRelease, for a caller whose token names `server_id`
  unfoldable pub agent_release : ℕ → M Response
  unfolding agent_release_for get_server
  agent_release server_id = do srv ← attempt (get_server server_id); agent_release_for srv
