-- ===== src/Controller/Watch.antt =====
-- The event handlers of pkg/controller/platform_controller.go: CRDs that come and go, and the pools' events.
use virt_platform_autopilot.Prelude.{
  String, ◌==◌, Bool, true, false, not, ◌&&◌, none, some, List, [], ◌∷◌, ◌++◌, if◌then◌else◌,
}
use virt_platform_autopilot.Prelude.Maps.{Map, lookup, insert}
use virt_platform_autopilot.Kube.{Kube}
use virt_platform_autopilot.Assets.Registry.{AssetMetadata, is_managed_crd, get_assets_by_crd}
use virt_platform_autopilot.Util.CrdChecker.{CrdCache, invalidate_cache}
use virt_platform_autopilot.Engine.Coalescing.Pools.{rollout_conditions}

-- What the handlers see and leave: the checker's cache, the CRDs that are watched, and what was done, in its order.
pub data Reaction : Type 0 where
  discovered : String → List String → Reaction
  shut_down : Reaction
  enqueue : Reaction

pub record Watching : Type 0 where
  pub crds : CrdCache
  pub watched : Map Bool
  pub reactions : List Reaction

pub data CrdEvent : Type 0 where
  crd_created crd_deleted crd_updated : String → CrdEvent

abbrev react : Watching → Reaction → Watching
react w r = record w { reactions = w.reactions ++ r ∷ [] }

-- `isWatchedCRD`
unfoldable pub is_watched_crd : Watching → String → Bool
is_watched_crd w crd = elim (lookup w.watched crd) [ none ↦ false | some b ↦ b ]

-- `markCRDAsWatched`
unfoldable pub mark_crd_as_watched : Watching → String → Watching
mark_crd_as_watched w crd = record w { watched = insert w.watched crd true }

-- The end of each handler: every CRD is asked for again, and the HCO is reconciled.
invalidate_and_enqueue : Watching → Watching
invalidate_and_enqueue w = react (record w { crds = invalidate_cache w.crds "" }) enqueue

-- `crdEventHandler`; `found` tells whether the HCO could be read.
unfoldable pub handle_crd_event : List AssetMetadata → Bool → Watching → CrdEvent → Watching
unfolding invalidate_and_enqueue
handle_crd_event assets found w (crd_created crd) =
    let w' = if found then react w (discovered crd (get_assets_by_crd assets crd)) else w in
    invalidate_and_enqueue
      (if is_managed_crd assets crd && not (is_watched_crd w crd) then react w' shut_down else w)
handle_crd_event assets found w (crd_deleted crd) =
    invalidate_and_enqueue
      (if is_managed_crd assets crd && is_watched_crd w crd then react w shut_down else w)
handle_crd_event assets found w (crd_updated crd) = invalidate_and_enqueue w

-- `maps.Equal`
includes : Map String → Map String → Bool
includes m [] = true
includes m ((k, v) ∷ n) =
    let rest = includes m n in elim (lookup m k) [ none ↦ false | some u ↦ u == v && rest ]

module _ (K : Kube) where
  -- `machineConfigPoolRolloutPredicate`, for an update of a pool.
  unfoldable pub rollout_predicate : Kube.Obj K → Kube.Obj K → Bool
  unfolding includes
  rollout_predicate old new =
      let before = rollout_conditions K old in
      let after = rollout_conditions K new in not (includes before after && includes after before)
