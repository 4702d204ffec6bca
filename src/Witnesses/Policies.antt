-- ===== src/Witnesses/Policies.antt =====
-- Concrete runs of node_disruption_policy.go.
use virt_platform_autopilot.Prelude.{◌≡◌, ◌↔◌, arith, refl, true, false, none, some, List, [], ◌∷◌}
use virt_platform_autopilot.Prelude.Maps.{Map, lookup, insert, delete}
use virt_platform_autopilot.Kube.{Asset, ok}
use virt_platform_autopilot.Overrides.Validation.{contains}
use virt_platform_autopilot.Engine.Flow.{State, next, ◌>>=◌}
use virt_platform_autopilot.Engine.Coalescing.Pools.{is_machine_config}
use virt_platform_autopilot.Engine.NodeDisruption.Coverage.{
  only_fields, require_only_field, as_object, has_named_entry, covers_entries, covers_named_entries,
  uses_ssh_keys, covers_ssh_keys, covers_machine_config,
}
use virt_platform_autopilot.Engine.NodeDisruption.Matching.{
  actions_match, find_entry, named_entries_match, match_field, match_ssh_key, entries_match,
}
use virt_platform_autopilot.Engine.NodeDisruption.Effective.{
  render_policy, policy_effective, policy_ready,
}
use virt_platform_autopilot.Engine.NodeDisruption.Effective.Ready.{Ready, policy_ready-Ready}
use virt_platform_autopilot.Witnesses.Documents.{
  documents, Document, config_of, config_id, policy_document, live_policy, print, print_items,
  print_fields, same_map_refl, same_map_trans, Json, text, listed,
}
use virt_platform_autopilot.Engine.Exclusion.{is_resource_excluded}
use virt_platform_autopilot.Engine.Applier
use virt_platform_autopilot.Engine.Applier.{has_managed_by_label, ensure_managed_by_label}
use virt_platform_autopilot.Overrides.Validation.{is_unmanaged}
use virt_platform_autopilot.Overrides.Pointer.{mask_ignored_fields}
use virt_platform_autopilot.Engine.NodeDisruption.Aggregate.{
  aggregate_entries, aggregate_of, has_entries, Merge, merge_assets, merge_candidate, merge_ssh_key,
  merge_entries, merge_found_entries, merge_each, merge_object, entries_for_dependent,
}
use virt_platform_autopilot.Engine.NodeDisruption.Aggregate.Listed.{
  IsAggregate, aggregate_entries-IsAggregate,
}
use virt_platform_autopilot.Engine.NodeDisruption.Reconcile.{
  reconcile_aggregate, change_count, keyed_entry_changes, count_changed, count_removed, entry_index,
  index_entries,
}
use virt_platform_autopilot.Engine.NodeDisruption.Reconcile.Control.{
  Controlled, reconcile_aggregate-Controlled, Writable, reconcile_aggregate-Writable,
}
use virt_platform_autopilot.Engine.Flow.Silent.{applies}
use virt_platform_autopilot.Engine.NodeDisruption.Reconcile.Changes.{
  SameIndex, keyed_entry_changes_iff,
}
use virt_platform_autopilot.Engine.Tombstone.{
  TombstoneMetadata, tombstone_label, tombstone_label_value, is_owned,
  is_machine_config_tombstone_metadata,
}
use virt_platform_autopilot.Engine.Tombstone.Policies.{
  tombstones_have_effective_policy, any_tombstone_effective, machine_config_effective,
  field_effective, any_effective, entry_names,
}
use virt_platform_autopilot.Engine.Tombstone.Policies.Released.{
  NothingInEffect, tombstones_have_effective_policy_sound,
}
use virt_platform_autopilot.Witnesses.Limits.{two}

abbrev pub begin : List Document → State documents
begin cluster = record {
  cluster = cluster;
  throttle = two;
  thrashing = record { states = [] };
  staging = record { entries = []; loaded = false; has_owner = false };
  trace = [];
}

pub ready :
    policy_ready documents policy_document tt
      (some "policy")
      (config_of "/etc/a")
      (live_policy ∷ [])
    ≡ ok true
unfolding policy_ready render_policy policy_effective covers_machine_config covers_ssh_keys
    uses_ssh_keys covers_named_entries covers_entries has_named_entry as_object require_only_field
    only_fields entries_match match_ssh_key match_field named_entries_match find_entry actions_match
    is_machine_config contains lookup print print_items print_fields
ready = refl

policy_ready-Ready_example :
    Ready documents policy_document tt (some "policy") (config_of "/etc/a") (live_policy ∷ [])
policy_ready-Ready_example =
    policy_ready-Ready documents policy_document tt (some "policy") (config_of "/etc/a")
      (live_policy ∷ []) ready

-- The merge.
abbrev pub dependent : Asset
dependent = record {
  name = "config";
  policy = some (record { asset = "policy"; policy_asset = some "policy" });
}

abbrev merged_entry : Map Json
merged_entry = ("path", text "/etc/a") ∷ ("actions", listed (text "Restart")) ∷ []

abbrev merged : Merge documents
merged = record { files = ("/etc/a", merged_entry) ∷ []; units = []; ssh_key = none }

aggregates :
    aggregate_entries documents policy_document tt (("config", true) ∷ []) [] [] (dependent ∷ [])
    ≡ ok (aggregate_of documents merged, true)
unfolding aggregate_entries has_entries merge_assets merge_candidate merge_ssh_key merge_entries
    merge_found_entries merge_each merge_object entries_for_dependent is_resource_excluded
    render_policy covers_machine_config covers_ssh_keys uses_ssh_keys covers_named_entries
    covers_entries has_named_entry as_object require_only_field only_fields contains lookup insert
    delete
aggregates = refl

aggregate_entries-IsAggregate_example :
    (a : Merge documents) × IsAggregate documents same_map_refl same_map_trans policy_document tt
      (("config", true) ∷ [])
      []
      []
      (dependent ∷ [])
      (aggregate_of documents merged, true)
      a
aggregate_entries-IsAggregate_example =
    aggregate_entries-IsAggregate documents same_map_refl same_map_trans policy_document tt
      (("config", true) ∷ []) [] [] (dependent ∷ []) (aggregate_of documents merged, true)
      aggregates

-- The aggregate on a live policy.
controlled :
    (reconcile_aggregate documents policy_document true (begin (live_policy ∷ []))).0
    ≡ next (true, 1)
unfolding reconcile_aggregate ◌>>=◌ has_managed_by_label is_unmanaged mask_ignored_fields
    change_count keyed_entry_changes count_changed count_removed entry_index index_entries lookup
    insert delete Applier.apply ensure_managed_by_label
controlled = refl

reconcile_aggregate-Controlled_example :
    Controlled documents policy_document true (live_policy ∷ [])
reconcile_aggregate-Controlled_example =
    reconcile_aggregate-Controlled documents policy_document true 1 (begin (live_policy ∷ []))
      controlled

written :
    applies (reconcile_aggregate documents policy_document true (begin (live_policy ∷ []))).1.trace
    ≡ 1
unfolding reconcile_aggregate ◌>>=◌ has_managed_by_label is_unmanaged mask_ignored_fields
    change_count keyed_entry_changes count_changed count_removed entry_index index_entries lookup
    insert delete Applier.apply ensure_managed_by_label
written = refl

reconcile_aggregate-Writable_example : Writable documents policy_document true (live_policy ∷ [])
reconcile_aggregate-Writable_example =
    reconcile_aggregate-Writable documents policy_document true (begin (live_policy ∷ []))
      (omega (arith, written))

keyed_entry_changes_iff_example :
    keyed_entry_changes documents (some policy_document) (some live_policy) "files" "path" ≡ 0
    ↔ SameIndex documents
        (entry_index documents (some policy_document) "files" "path")
        (entry_index documents (some live_policy) "files" "path")
keyed_entry_changes_iff_example =
    keyed_entry_changes_iff documents (some policy_document) (some live_policy) "files" "path"

abbrev pub retired : TombstoneMetadata
retired = record { path = "t.yaml"; id = config_id }

abbrev owned_config : Document
owned_config = record (config_of "/etc/b") { tags = (tombstone_label, tombstone_label_value) ∷ [] }

ineffective :
    tombstones_have_effective_policy documents (ok (retired ∷ [])) (live_policy ∷ owned_config ∷ [])
    ≡ ok false
unfolding tombstones_have_effective_policy any_tombstone_effective machine_config_effective
    field_effective any_effective entry_names is_owned is_machine_config_tombstone_metadata contains
    lookup
ineffective = refl

tombstones_have_effective_policy_sound_example :
    (tombstones : List TombstoneMetadata) × (ok (retired ∷ []) ≡ ok tombstones)
    × NothingInEffect documents tombstones (live_policy ∷ owned_config ∷ [])
tombstones_have_effective_policy_sound_example =
    tombstones_have_effective_policy_sound documents (ok (retired ∷ []))
      (live_policy ∷ owned_config ∷ []) ineffective
