-- ===== src/Engine/Coalescing/Staging/Silent.antt =====
-- The staging store neither applies an object nor spends a token.
use virt_platform_autopilot.Prelude.{String, refl, Bool, true, false, Option, none, some}
use virt_platform_autopilot.Kube.{Kube, ObjectId, Result, ok, err, ConfigMap, Stage}
use virt_platform_autopilot.Engine.Flow.{State, modify}
use virt_platform_autopilot.Engine.Flow.Silent.{Silent, Silent-modify, silent_rules}
use virt_platform_autopilot.Engine.Coalescing.Staging.{
  load_answer, load_if, load_staging, machine_config_stage, create_answer, create_entry,
  patch_answer, write_staging_entry, stage_update, unstage_found, unstage_update, StagingStore,
}

module _ (K : Kube) where
  store_Silent : (f : State K → StagingStore) → Silent (modify (λ s. record s { staging = f s }))
  store_Silent f = Silent-modify _ (λ s. record { same_applies = refl; same_throttle = refl })

  ruleset store_rules = (silent_rules, store_Silent)

  load_answer-Silent : (r : Result ConfigMap) → Silent (load_answer K r)
  unfolding load_answer
  load_answer-Silent (ok cm) = search store_rules
  load_answer-Silent (err e) = search store_rules

  load_if-Silent : (b : Bool) (ns : String) → Silent (load_if K b ns)
  unfolding load_if
  load_if-Silent true ns = search store_rules
  load_if-Silent false ns = search (store_rules, load_answer-Silent)

  load_staging-Silent : (ns : String) → Silent (load_staging K ns)
  unfolding load_staging
  load_staging-Silent ns = search (store_rules, load_if-Silent)

  pub machine_config_stage-Silent : (ns name : String) → Silent (machine_config_stage K ns name)
  unfolding machine_config_stage
  machine_config_stage-Silent ns name = search (store_rules, load_staging-Silent)

  create_answer-Silent :
      (owner : Option ObjectId) (r : Result (Unit {0})) → Silent (create_answer K owner r)
  unfolding create_answer
  create_answer-Silent owner (ok u) = search store_rules
  create_answer-Silent owner (err e) = search store_rules

  create_entry-Silent :
      (ns name : String) (value : Option String) (owner : Option ObjectId)
      → Silent (create_entry K ns name value owner)
  unfolding create_entry
  create_entry-Silent ns name none owner = search store_rules
  create_entry-Silent ns name (some v) owner = search (store_rules, create_answer-Silent)

  patch_answer-Silent :
      (ns name : String) (value : Option String) (owner : Option ObjectId) (r : Result (Unit {0}))
      → Silent (patch_answer K ns name value owner r)
  unfolding patch_answer
  patch_answer-Silent ns name value owner (ok u) = search store_rules
  patch_answer-Silent ns name value owner (err e) = search (store_rules, create_entry-Silent)

  write_staging_entry-Silent :
      (ns name : String) (value : Option String) (owner : Option ObjectId)
      → Silent (write_staging_entry K ns name value owner)
  unfolding write_staging_entry
  write_staging_entry-Silent ns name value owner = search (store_rules, patch_answer-Silent)

  pub stage_update-Silent :
      (ns name : String) (stage : Stage) (owner : Kube.Obj K)
      → Silent (stage_update K ns name stage owner)
  unfolding stage_update
  stage_update-Silent ns name stage owner =
      search (store_rules, load_staging-Silent, write_staging_entry-Silent)

  unstage_found-Silent :
      (ns name : String) (stage : Option Stage) → Silent (unstage_found K ns name stage)
  unfolding unstage_found
  unstage_found-Silent ns name none = search store_rules
  unstage_found-Silent ns name (some stage) = search (store_rules, write_staging_entry-Silent)

  pub unstage_update-Silent : (ns name : String) → Silent (unstage_update K ns name)
  unfolding unstage_update
  unstage_update-Silent ns name = search (store_rules, load_staging-Silent, unstage_found-Silent)
