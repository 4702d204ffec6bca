-- ===== src/Engine/Coalescing/Staging.antt =====
-- The staging store of machineconfig_coalescing.go: a mirror in memory of a ConfigMap that only the
-- autopilot writes.
pub mod Silent
use virt_platform_autopilot.Prelude.{
  ℕ, String, ◌==◌, Bool, true, false, not, ◌&&◌, ◌||◌, Option, none, some, List, [], ◌∷◌, is_some,
  if◌then◌else◌,
}
use virt_platform_autopilot.Prelude.Maps.{Map, lookup, insert, delete}
use virt_platform_autopilot.Kube.{
  Kube, ObjectId, Error, Result, ok, err, is_not_found, Stage, ConfigMap,
}
use virt_platform_autopilot.Engine.World.{Effect, clear_update_staged}
use virt_platform_autopilot.Engine.Flow.{
  State, StagingStore, Action, ◌>>=◌, ◌>>◌, pure, raise, lift, gets, modify, emit, write,
}

abbrev pub staging_config_map : String
staging_config_map = "virt-platform-autopilot-mc-staging"

module _ (K : Kube) where
  open K use {
    Obj, Cluster, id_of, uid, print_stage, parse_stage, read_config_map, patch_config_map,
    create_config_map,
  }

  -- The entries of the ConfigMap that parse; a corrupt one is dropped.
  parse_entries : Map String → Map Stage
  parse_entries [] = []
  parse_entries ((name, raw) ∷ m) =
      let rest = parse_entries m in
      elim (parse_stage raw) [ none ↦ rest | some stage ↦ insert rest name stage ]

  abbrev store_loaded : Map Stage → Bool → State K → State K
  store_loaded entries has_owner s = record s {
    staging = record { entries = entries; loaded = true; has_owner = has_owner };
  }

  load_answer : Result ConfigMap → Action K (Unit {0})
  unfolding parse_entries
  load_answer (ok cm) = modify (store_loaded (parse_entries cm.entries) cm.has_owner)
  load_answer (err e) =
      if is_not_found e
      then modify (λ s. store_loaded [] s.staging.has_owner s)
      else do modify (λ s. record s { staging = record s.staging { entries = [] } }); raise e

  load_if : Bool → String → Action K (Unit {0})
  unfolding load_answer
  load_if true namespace = pure tt
  load_if false namespace = do cm ← gets (λ s. read_config_map namespace s.cluster); load_answer cm

  -- `loadMachineConfigStaging`: on first use.
  unfoldable pub load_staging : String → Action K (Unit {0})
  unfolding load_if
  load_staging namespace = do loaded ← gets (λ s. s.staging.loaded); load_if loaded namespace

  -- `machineConfigStage`.
  unfoldable pub machine_config_stage : String → String → Action K (Option Stage)
  machine_config_stage namespace name = do
    load_staging namespace
    gets (λ s. lookup s.staging.entries name)

  -- `stagingOwnerReferences`: the HCO, if it has a usable identity.
  unfoldable pub staging_owner_references : Obj → Option ObjectId
  staging_owner_references owner =
      if uid owner == "" || (id_of owner).version == "" || (id_of owner).kind == ""
      then none
      else some (id_of owner)

  abbrev own_if_new : Bool → Option ObjectId → Option ObjectId
  own_if_new true owner = none
  own_if_new false owner = owner

  set_owner : Bool → State K → State K
  set_owner has_owner s = record s { staging = record s.staging { has_owner = has_owner } }

  create_answer : Option ObjectId → Result (Unit {0}) → Action K (Unit {0})
  unfolding set_owner
  create_answer owner (ok u) = modify (set_owner (is_some owner))
  create_answer owner (err e) = raise e

  create_entry : String → String → Option String → Option ObjectId → Action K (Unit {0})
  unfolding create_answer
  create_entry namespace name none owner = pure tt
  create_entry namespace name (some value) owner = do
    r ← write (create_config_map namespace name value owner)
    create_answer owner r

  patch_answer :
      String → String → Option String → Option ObjectId → Result (Unit {0}) → Action K (Unit {0})
  unfolding create_entry
  patch_answer namespace name value owner (ok u) =
      if is_some owner then modify (set_owner true) else pure tt
  patch_answer namespace name value owner (err e) =
      if is_not_found e then create_entry namespace name value owner else raise e

  -- `writeStagingEntry`: a merge patch of one key, or a new ConfigMap.
  unfoldable pub write_staging_entry :
      String → String → Option String → Option ObjectId → Action K (Unit {0})
  unfolding patch_answer
  write_staging_entry namespace name value owner = do
    has_owner ← gets (λ s. s.staging.has_owner)
    r ← write (patch_config_map namespace name value (own_if_new has_owner owner))
    patch_answer namespace name value owner r

  -- `stageMachineConfigUpdate`: the mirror follows the ConfigMap only after the write.
  unfoldable pub stage_update : String → String → Stage → Obj → Action K (Unit {0})
  stage_update namespace name stage owner = do
    load_staging namespace
    write_staging_entry namespace name (some (print_stage stage)) (staging_owner_references owner)
    modify (λ s. record s {
      staging = record s.staging { entries = insert s.staging.entries name stage };
    })

  unstage_found : String → String → Option Stage → Action K (Unit {0})
  unstage_found namespace name none = emit (clear_update_staged name)
  unstage_found namespace name (some stage) = do
    write_staging_entry namespace name none none
    modify
        (λ s. record s { staging = record s.staging { entries = delete s.staging.entries name } })
    emit (clear_update_staged name)

  -- `unstageMachineConfigUpdate`.
  unfoldable pub unstage_update : String → String → Action K (Unit {0})
  unfolding unstage_found
  unstage_update namespace name = do
    load_staging namespace
    stage ← gets (λ s. lookup s.staging.entries name)
    unstage_found namespace name stage
