-- ===== src/Drain/Region.antt =====
-- drainRegion and undrainRegion of brisk-control/internal/api/drain.go.
use brisk.Prelude.{
  ℕ, Bytes, codes, str_eq, equal_fold, trim_space, Bool, ◌&&◌, List, [], ◌++◌, ◌==◌, if◌then◌else◌,
  any, length,
}
use brisk.Drain.{
  Server, Fleet, Failures, Response, bad_request, not_found, internal_error, would_empty,
  drained_region, resumed_region, in_rotation_count, no_override, refuses, in_region, returning,
  write_rows, drain_row, undrain_row,
}

module _ (stale now_before now_after now_db : ℕ) (fails : Failures) where
  -- the ids of the region
  unfoldable pub region_ids : Bytes → List Server → ℕ → Bool
  region_ids region servers id =
      any (λ (s : Server). equal_fold s.region region && (s.id == id)) servers

  unfoldable pub drain_region_checked : Bytes → Bool → Bytes → Fleet → Response × Fleet
  unfolding in_rotation_count write_rows region_ids
  drain_region_checked region force reason fleet =
      let before = in_rotation_count now_before stale fleet.servers no_override in
      let after =
        in_rotation_count now_after stale fleet.servers (region_ids region fleet.servers) in
      if refuses before after force
      then (would_empty before, fleet)
      else if fails.set
      then (internal_error, fleet)
      else (
        drained_region (length (returning (in_region region) fleet.servers)),
        write_rows (in_region region) (drain_row now_db (trim_space reason)) (codes "drain")
            (codes "region:" ++ region) (codes "region_drain") fleet,
      )

  -- drainRegion
  unfoldable pub drain_region : Bytes → Bool → Bytes → Fleet → Response × Fleet
  unfolding drain_region_checked
  drain_region param force reason fleet =
      let region = trim_space param in
      if str_eq region []
      then (bad_request, fleet)
      else if fails.list
      then (internal_error, fleet)
      else if any (λ (s : Server). equal_fold s.region region) fleet.servers
      then drain_region_checked region force reason fleet
      else (not_found, fleet)

  -- undrainRegion
  unfoldable pub undrain_region : Bytes → Fleet → Response × Fleet
  unfolding write_rows
  undrain_region param fleet =
      let region = trim_space param in
      if str_eq region []
      then (bad_request, fleet)
      else if fails.set
      then (internal_error, fleet)
      else if any (in_region region) fleet.servers
      then (
        resumed_region (length (returning (in_region region) fleet.servers)),
        write_rows (in_region region) undrain_row (codes "undrain") (codes "region:" ++ region)
            (codes "region_undrain") fleet,
      )
      else (not_found, fleet)
