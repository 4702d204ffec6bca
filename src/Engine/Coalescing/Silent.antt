-- ===== src/Engine/Coalescing/Silent.antt =====
-- Holding back or releasing a MachineConfig update neither applies an object nor spends a token.
use virt_platform_autopilot.Prelude.{ℕ, String, Bool, Option, none, some, List, [], ◌∷◌}
use virt_platform_autopilot.Kube.{Kube, Result, ok, err, Stage}
use virt_platform_autopilot.Engine.Flow.Silent.{Silent, silent_rules}
use virt_platform_autopilot.Engine.Coalescing.Staging.Silent.{
  machine_config_stage-Silent, stage_update-Silent, unstage_update-Silent,
}
use virt_platform_autopilot.Engine.Coalescing.{
  restage, refresh_stage, hold_update, decide, coalesce_update, clear_found, clear_staging,
}

module _ (K : Kube) (has_recorder : Bool) (now : ℕ) (hco : Kube.Obj K) where
  ruleset staging_rules =
      (silent_rules, machine_config_stage-Silent, stage_update-Silent, unstage_update-Silent)

  restage-Silent :
      (name hash : String) (names : List String)
      → Silent (restage K has_recorder now hco name hash names)
  unfolding restage
  restage-Silent name hash names = search staging_rules

  refresh_stage-Silent :
      (name hash : String) (names : List String) (stage : Option Stage)
      → Silent (refresh_stage K has_recorder now hco name hash names stage)
  unfolding refresh_stage
  refresh_stage-Silent name hash names none = restage-Silent name hash names
  refresh_stage-Silent name hash names (some stage) = search (staging_rules, restage-Silent)

  hold_update-Silent :
      (name hash : String) (names : List String)
      → Silent (hold_update K has_recorder now hco name hash names)
  unfolding hold_update
  hold_update-Silent name hash names = search (staging_rules, refresh_stage-Silent)

  decide-Silent :
      (name hash : String) (r : Result (List (Kube.Obj K)))
      → Silent (decide K has_recorder now hco name hash r)
  unfolding decide
  decide-Silent name hash (err e) = search staging_rules
  decide-Silent name hash (ok []) = search staging_rules
  decide-Silent name hash (ok (pool ∷ pools)) = search (staging_rules, hold_update-Silent)

  pub coalesce_update-Silent :
      (desired live : Kube.Obj K) (hash : String)
      → Silent (coalesce_update K has_recorder now hco desired live hash)
  unfolding coalesce_update
  coalesce_update-Silent desired live hash = search (staging_rules, decide-Silent)

  clear_found-Silent :
      (name : String) (stage : Option Stage)
      → Silent (clear_found K has_recorder now hco name stage)
  unfolding clear_found
  clear_found-Silent name none = search staging_rules
  clear_found-Silent name (some stage) = search staging_rules

  pub clear_staging-Silent :
      (desired : Kube.Obj K) → Silent (clear_staging K has_recorder now hco desired)
  unfolding clear_staging
  clear_staging-Silent desired = search (staging_rules, clear_found-Silent)
