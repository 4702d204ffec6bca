-- ===== src/Engine/NodeDisruption/Reconcile.antt =====
-- Applying the aggregate node disruption policy, in node_disruption_policy.go.
pub mod Control
pub mod Changes
use virt_platform_autopilot.Prelude.{
  ℕ, ◌+◌, String, ◌==◌, Bool, true, false, not, ◌&&◌, ◌||◌, Option, none, some, List, [], ◌∷◌,
  is_some, leb, if◌then◌else◌,
}
use virt_platform_autopilot.Prelude.Maps.{Map, lookup, insert}
use virt_platform_autopilot.Kube.{Kube, Asset, wrap, Result, ok, err, is_not_found, is_no_match}
use virt_platform_autopilot.Engine.World.{api_apply}
use virt_platform_autopilot.Engine.Flow.{next, Action, ◌>>=◌, ◌>>◌, pure, raise, lift, gets, emit}
use virt_platform_autopilot.Engine.Applier
use virt_platform_autopilot.Engine.Applier.{has_managed_by_label}
use virt_platform_autopilot.Overrides.Validation.{annotation_ignore_fields, is_unmanaged}
use virt_platform_autopilot.Overrides.Pointer.{mask_ignored_fields}
use virt_platform_autopilot.Engine.NodeDisruption.Effective.{machine_configuration_id}
use virt_platform_autopilot.Engine.NodeDisruption.Aggregate.{aggregate_policies}

module _ (K : Kube) where
  open K use {
    Obj, Value, Cluster, Facts, id_of, annotations, object, as_map, nested_slice, nested_string,
    nested_generation, generation, same_map, get,
  }

  index_named : Map Value → Result (Option String) → Map (Map Value) → Map (Map Value)
  index_named m (ok (some key)) index = if key == "" then index else insert index key m
  index_named m _ index = index

  index_entry : String → Option (Map Value) → Map (Map Value) → Map (Map Value)
  unfolding index_named
  index_entry identifier none index = index
  index_entry identifier (some m) index = index_named m (nested_string m (identifier ∷ [])) index

  -- The loop of `nodeDisruptionPolicyEntryIndex`: a later entry of the same key wins.
  unfoldable pub index_entries : String → List Value → Map (Map Value) → Map (Map Value)
  unfolding index_entry
  index_entries identifier [] index = index
  index_entries identifier (entry ∷ entries) index =
      index_entries identifier entries (index_entry identifier (as_map entry) index)

  index_found : String → Result (Option (List Value)) → Map (Map Value)
  index_found identifier (ok (some entries)) = index_entries identifier entries []
  index_found identifier _ = []

  -- `nodeDisruptionPolicyEntryIndex`
  unfoldable pub entry_index : Option Obj → String → String → Map (Map Value)
  unfolding index_found
  entry_index none field identifier = []
  entry_index (some obj) field identifier =
      index_found identifier
        (nested_slice (object obj) ("spec" ∷ "nodeDisruptionPolicy" ∷ field ∷ []))

  differs : Map Value → Option (Map Value) → Bool
  differs want none = true
  differs want (some got) = not (same_map want got)

  -- The two range loops.
  unfoldable pub count_changed : Map (Map Value) → Map (Map Value) → ℕ
  unfolding differs
  count_changed live [] = 0
  count_changed live ((key, want) ∷ desired) =
      let rest = count_changed live desired in
      if differs want (lookup live key) then rest + 1 else rest

  unfoldable pub count_removed : Map (Map Value) → Map (Map Value) → ℕ
  count_removed desired [] = 0
  count_removed desired ((key, got) ∷ live) =
      let rest = count_removed desired live in
      if is_some (lookup desired key) then rest else rest + 1

  -- `nodeDisruptionPolicyKeyedEntryChanges`
  unfoldable pub keyed_entry_changes : Option Obj → Option Obj → String → String → ℕ
  keyed_entry_changes desired live field identifier =
      let wanted = entry_index desired field identifier in
      let found = entry_index live field identifier in
      count_changed found wanted + count_removed wanted found

  -- `nodeDisruptionPolicyChangeCount`
  unfoldable pub change_count : Obj → Option Obj → ℕ
  change_count desired live =
      keyed_entry_changes (some desired) live "files" "path"
      + keyed_entry_changes (some desired) live "units" "name"

  applied_answer : Bool → ℕ → Result Bool → Action K (Bool × ℕ)
  applied_answer safe changes (ok applied) = pure (safe, changes)
  applied_answer safe changes (err e) = raise e

  -- The server-side apply, and what the call returns.
  apply_aggregate : Obj → Bool → ℕ → Action K (Bool × ℕ)
  unfolding applied_answer
  apply_aggregate desired safe changes = do
    emit (api_apply (id_of desired))
    r ← λ s.
        let (r, cluster') = Applier.apply K desired s.cluster in
        (next r, record s { cluster = cluster' })
    applied_answer safe changes r

  masked_answer : Obj → Result Obj → Action K (Bool × ℕ)
  unfolding apply_aggregate
  masked_answer live (err e) = raise (wrap "mask aggregate node disruption policy ignored fields" e)
  masked_answer live (ok masked) =
      apply_aggregate masked (not (is_some (lookup (annotations live) annotation_ignore_fields)))
        (change_count masked (some live))

  reconcile_live : Obj → Bool → Result Obj → Action K (Bool × ℕ)
  unfolding masked_answer
  reconcile_live desired allow_create (err e) =
      if is_not_found e
      then (if not allow_create
          then pure (false, 0)
          else apply_aggregate desired true (change_count desired none))
      else raise (wrap "read aggregate node disruption policy" e)
  reconcile_live desired allow_create (ok live) =
      if not allow_create && not (has_managed_by_label K live)
      then pure (false, 0)
      else if is_unmanaged K live
      then pure (false, 0)
      else masked_answer live (mask_ignored_fields K desired live)

  -- `reconcileAggregateNodeDisruptionPolicy`
  unfoldable pub reconcile_aggregate : Obj → Bool → Action K (Bool × ℕ)
  unfolding reconcile_live
  reconcile_aggregate desired allow_create = do
    live ← gets (λ s. get (id_of desired) s.cluster)
    reconcile_live desired allow_create live

  reconcile_desired : Option Obj × Bool → Action K (Bool × ℕ)
  unfolding reconcile_aggregate
  reconcile_desired (none, allow_create) = pure (false, 0)
  reconcile_desired (some desired, allow_create) = reconcile_aggregate desired allow_create

  -- `ReconcileNodeDisruptionPolicies`: whether Autopilot controls the singleton, and how many
  -- entries changed.
  unfoldable pub reconcile_policies :
      Obj → Facts → List Asset → Map Bool → Bool → Action K (Bool × ℕ)
  unfolding reconcile_desired
  reconcile_policies hco facts assets active prune_tombstone_actions = do
    aggregate ←
        gets (λ s. aggregate_policies K hco facts assets active prune_tombstone_actions s.cluster)
    desired ← lift aggregate
    reconcile_desired desired

  observed : Obj → Result (Option ℕ) → Result Bool
  observed policy (err e) = err e
  observed policy (ok none) = ok false
  observed policy (ok (some generation_seen)) = ok (leb (generation policy) generation_seen)

  read_observed : Result Obj → Result Bool
  unfolding observed
  read_observed (err e) =
      if is_not_found e || is_no_match e
      then ok false
      else err (wrap "read MachineConfiguration cluster" e)
  read_observed (ok policy) =
      observed policy (nested_generation (object policy) ("status" ∷ "observedGeneration" ∷ []))

  -- `NodeDisruptionPolicyGenerationObserved`
  unfoldable pub generation_observed : Cluster → Result Bool
  unfolding read_observed
  generation_observed cluster = read_observed (get machine_configuration_id cluster)
