-- ===== src/Engine/Coalescing.antt =====
-- pkg/engine/machineconfig_coalescing.go: an update of an existing MachineConfig waits until a matching
-- pool is rolling out anyway. The pools are in the child Pools, the staging store in Staging.
pub mod Pools
pub mod Staging
pub mod Refresh
pub mod Held
pub mod Passed
pub mod Silent
use virt_platform_autopilot.Prelude.{
  ℕ, String, ◌==◌, Bool, true, false, not, ◌||◌, Option, none, some, List, [], ◌∷◌, map,
  if◌then◌else◌,
}
use text.Mathlib.Text.{is_le}
use Prim.Native.String.{compare}
use virt_platform_autopilot.Kube.{
  Kube, ObjectId, Error, Result, ok, err, is_not_found, is_no_match, Stage,
}
use virt_platform_autopilot.Engine.World.{
  Effect, clear_update_staged, set_update_staged, pools_event, update_staged,
}
use virt_platform_autopilot.Engine.Flow.{
  State, Action, ◌>>=◌, ◌>>◌, pure, raise, gets, emit, emit_if,
}
use Pools.{
  is_machine_config, copy_bypass_annotation, coalescing_bypassed, matching_pools,
  releases_staged_update,
}
use Staging.{machine_config_stage, stage_update, unstage_update}

-- `slices.Sort` and `slices.Equal` on names.
unfoldable pub insert_name : String → List String → List String
insert_name a [] = a ∷ []
insert_name a (b ∷ bs) =
    let rest = insert_name a bs in if is_le (compare a b) then a ∷ b ∷ bs else b ∷ rest

unfoldable pub sort_names : List String → List String
unfolding insert_name
sort_names [] = []
sort_names (a ∷ as_) = insert_name a (sort_names as_)

unfoldable pub same_names : List String → List String → Bool
same_names [] [] = true
same_names [] (b ∷ bs) = false
same_names (a ∷ as_) [] = false
same_names (a ∷ as_) (b ∷ bs) = let rest = same_names as_ bs in if a == b then rest else false

module _ (K : Kube) (has_recorder : Bool) (now : ℕ) (hco : Kube.Obj K) where
  open K use {Obj, id_of}

  abbrev hco_namespace : String
  hco_namespace = (id_of hco).namespace

  unfoldable pub any_releases : List Obj → Bool
  any_releases [] = false
  any_releases (pool ∷ pools) = releases_staged_update K pool || any_releases pools

  -- A new or changed update starts its clock now.
  restage : String → String → List String → Action K Stage
  restage name hash names = do
    let stage : Stage = record { staged_at = now; desired_hash = hash; matching_pools = names }
    stage_update K hco_namespace name stage hco
    emit_if has_recorder (pools_event update_staged name names)
    pure stage

  -- The `switch` on the stored stage.
  unfoldable pub refresh_stage : String → String → List String → Option Stage → Action K Stage
  unfolding restage
  refresh_stage name hash names none = restage name hash names
  refresh_stage name hash names (some stage) =
      if not (stage.desired_hash == hash)
      then restage name hash names
      else if not (same_names stage.matching_pools names)
      then (do
        stage_update K hco_namespace name (record stage { matching_pools = names }) hco
        pure (record stage { matching_pools = names }))
      else pure stage

  -- No pool releases the update: it stays staged.
  hold_update : String → String → List String → Action K Bool
  unfolding refresh_stage
  hold_update name hash names = do
    stored ← machine_config_stage K hco_namespace name
    stage ← refresh_stage name hash names stored
    emit (clear_update_staged name)
    emit (set_update_staged name names stage.staged_at)
    pure false

  decide : String → String → Result (List Obj) → Action K Bool
  unfolding hold_update any_releases
  decide name hash (err e) = if is_not_found e || is_no_match e then pure true else raise e
  decide name hash (ok []) = do unstage_update K hco_namespace name; pure true
  decide name hash (ok (pool ∷ pools)) =
      if any_releases (pool ∷ pools)
      then pure true
      else hold_update name hash (sort_names (map (λ p. (id_of p).name) (pool ∷ pools)))

  -- `coalesceMachineConfigUpdate` for an existing live object; `desired` has the live bypass
  -- annotation already, and copying it once more changes nothing that is read later.
  unfoldable pub coalesce_update : Obj → Obj → String → Action K Bool
  unfolding decide
  coalesce_update desired live hash =
      if not (is_machine_config K desired)
      then pure true
      else if hco_namespace == ""
      then pure true
      else let marked = copy_bypass_annotation K desired live in
        if coalescing_bypassed K marked hco
        then (do unstage_update K hco_namespace (id_of marked).name; pure true)
        else (do
          pools ← gets (λ s. matching_pools K (marked ∷ live ∷ []) s.cluster)
          decide (id_of marked).name hash pools)

  clear_found : String → Option Stage → Action K (Option Stage)
  clear_found name none = pure none
  clear_found name (some stage) = do unstage_update K hco_namespace name; pure (some stage)

  -- `clearMachineConfigStaging`.
  unfoldable pub clear_staging : Obj → Action K (Option Stage)
  unfolding clear_found
  clear_staging desired =
      if not (is_machine_config K desired) || hco_namespace == "" then pure none else do
        stage ← machine_config_stage K hco_namespace (id_of desired).name
        clear_found (id_of desired).name stage
