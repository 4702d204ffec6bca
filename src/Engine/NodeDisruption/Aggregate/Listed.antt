-- ===== src/Engine/NodeDisruption/Aggregate/Listed.antt =====
-- The aggregate policy of node_disruption_policy.go lists every entry of the active assets' policies.
use mathlib.Core.List.{Memᴰ}
use mathlib.Core.List.Memᴰ
use Prim.Native.String.{compare}
use text.Mathlib.Text.{is_le}
use virt_platform_autopilot.Prelude.{
  String, ◌==◌, eq_iff, ◌≡◌, refl, sym, inl, inr, Bool, true, Bool-cases, Option, none, some, List,
  [], ◌∷◌,
}
use virt_platform_autopilot.Prelude.Maps.{Map, lookup}
use virt_platform_autopilot.Kube.{Kube, ExclusionRule, Asset, Dependency, ok}
use virt_platform_autopilot.Kube.Results.{>>=-eq-ok, IfPresent, IfPresent-map}
use virt_platform_autopilot.Engine.Coalescing.{insert_name, sort_names}
use virt_platform_autopilot.Engine.NodeDisruption.Aggregate.{
  keys, entries_at, sorted_entries, Merge, aggregate_of, ssh_key_field, empty_merge, merge_assets,
  has_entries, aggregate_entries, contributes, entries_for_dependent,
}
use virt_platform_autopilot.Engine.NodeDisruption.Aggregate.Merged.{Stands, AllMerged}
use virt_platform_autopilot.Engine.NodeDisruption.Aggregate.Complete.{
  AnswerMerged, ContributionMerged, AllContribute, merge_assets_complete,
}

-- Sorting loses no name.
inserted : (a : String) (names : List String) → Memᴰ a (insert_name a names)
unfolding insert_name
inserted a [] = Memᴰ.head refl
inserted a (b ∷ bs) = elim (Bool-cases (is_le (compare a b))) [
  | inl e ↦ rw e (Memᴰ.head refl)
  | inr e ↦ rw e (Memᴰ.tail (inserted a bs))
]

kept : (a b : String) (names : List String) → Memᴰ b names → Memᴰ b (insert_name a names)
unfolding insert_name
kept a b (c ∷ cs) m = elim (Bool-cases (is_le (compare a c))) [
  | inl e ↦ rw e (Memᴰ.tail m)
  | inr e ↦ rw e (elim m [ Memᴰ.head q ↦ Memᴰ.head q | Memᴰ.tail q ↦ Memᴰ.tail (kept a b cs q) ])
]
kept a b [] m = absurd (Memᴰ.not-nil m)

sort_names-Memᴰ : (a : String) (names : List String) → Memᴰ a names → Memᴰ a (sort_names names)
unfolding sort_names
sort_names-Memᴰ a [] m = m
sort_names-Memᴰ a (b ∷ bs) (Memᴰ.head e) = rw e (inserted b (sort_names bs))
sort_names-Memᴰ a (b ∷ bs) (Memᴰ.tail m) = kept b a (sort_names bs) (sort_names-Memᴰ a bs m)

keys-Memᴰ :
    {V : Type 0} (m : Map V) (key : String) (v : V) → lookup m key ≡ some v → Memᴰ key (keys m)
unfolding lookup
keys-Memᴰ [] key v h = cc
keys-Memᴰ ((k, w) ∷ m) key v h = elim (Bool-cases (k == key)) [
  | inl e ↦ Memᴰ.head (sym ((eq_iff k key).0 e))
  | inr e ↦ Memᴰ.tail (keys-Memᴰ m key v (rw e at h))
]

module _ (K : Kube) where
  open K use {
    Obj, Value, Cluster, Facts, as_map, of_map, of_list, nested_map, nested_slice, nested_string,
    same_map,
  }

  entries_at-Memᴰ :
      (m : Map (Map Value)) (names : List String) (key : String) (v : Map Value)
      → Memᴰ key names
      → lookup m key ≡ some v
      → Memᴰ (of_map v) (entries_at K m names)
  unfolding entries_at
  entries_at-Memᴰ m [] key v p h = absurd (Memᴰ.not-nil p)
  entries_at-Memᴰ m (name ∷ names) key v (Memᴰ.head e) h = Memᴰ.head (rw (← e) (rw h refl))
  entries_at-Memᴰ m (name ∷ names) key v (Memᴰ.tail p) h =
      Memᴰ.tail (entries_at-Memᴰ m names key v p h)

  sorted_entries-Memᴰ :
      (m : Map (Map Value)) (key : String) (v : Map Value)
      → lookup m key ≡ some v
      → Memᴰ (of_map v) (sorted_entries K m)
  unfolding sorted_entries
  sorted_entries-Memᴰ m key v h =
      entries_at-Memᴰ m (sort_names (keys m)) key v
        (sort_names-Memᴰ key (keys m) (keys-Memᴰ m key v h)) h

  -- The SSH key as a field, where there is one.
  abbrev pub key_field : Option (Map Value) → Option Value
  key_field none = none
  key_field (some key) = some (of_map key)

  -- An entry of a policy, with an entry of the list that is deeply equal to it.
  pub record ListedEntry (listed : List Value) (v : Value) : Type 0 where
    pub entry : Map Value
    pub is_entry : as_map v ≡ some entry
    pub other : Map Value
    pub is_listed : Memᴰ (of_map other) listed
    pub same : same_map entry other ≡ true

  abbrev pub AllListed : List Value → List Value → Type 0
  AllListed listed [] = Unit
  AllListed listed (v ∷ vs) = ListedEntry listed v × AllListed listed vs

  AllMerged-AllListed :
      (identifier : String) (m : Map (Map Value)) (vs : List Value)
      → AllMerged K identifier m vs
      → AllListed (sorted_entries K m) vs
  AllMerged-AllListed identifier m [] p = tt
  AllMerged-AllListed identifier m (v ∷ vs) (p, q) = (
    record {
      entry = p.entry;
      is_entry = p.is_entry;
      other = p.stands.value;
      is_listed = sorted_entries-Memᴰ m p.key p.stands.value p.stands.is_value;
      same = p.stands.same;
    },
    AllMerged-AllListed identifier m vs q,
  )

  -- The lists and the SSH key of the aggregate have all that a policy asks for.
  pub record Listed (a : Merge K) (candidate : Map Value) : Type 0 where
    pub files :
        IfPresent (nested_slice candidate ("files" ∷ [])) (AllListed (sorted_entries K a.files))
    pub units :
        IfPresent (nested_slice candidate ("units" ∷ [])) (AllListed (sorted_entries K a.units))
    pub ssh_key : IfPresent (nested_map candidate ("sshkey" ∷ [])) (λ v. Stands K v a.ssh_key)

  abbrev pub AnswerListed : Merge K → Option (Map Value) → Type 0
  AnswerListed a none = Unit
  AnswerListed a (some candidate) = Listed a candidate

  module _ (hco : Obj) (facts : Facts) (active : Map Bool) (rules : List ExclusionRule)
      (cluster : Cluster) where
    -- The policy of an active asset, whose entries are listed; an asset that is excluded or renders
    -- empty has none.
    pub record AssetListed (a : Merge K) (name : String) (dependency : Dependency) : Type 0 where
      pub candidate : Option (Map Value)
      pub is_candidate :
          entries_for_dependent K hco facts name dependency rules cluster ≡ ok candidate
      pub listed : AnswerListed a candidate

    abbrev pub DependencyListed : Merge K → String → Option Dependency → Type 0
    DependencyListed a name none = Unit
    DependencyListed a name (some dependency) = AssetListed a name dependency

    abbrev pub EveryListed : Merge K → List Asset → Type 0
    EveryListed a [] = Unit
    EveryListed a (asset ∷ assets) =
        DependencyListed a asset.name (contributes K active asset asset.policy)
        × EveryListed a assets

  module _ (same_refl : (m : Map Value) → same_map m m ≡ true)
      (same_trans : (l m n : Map Value)
        → same_map l m ≡ true
        → same_map m n ≡ true
        → same_map l n ≡ true)
      (hco : Obj) (facts : Facts) (active : Map Bool) (rules : List ExclusionRule)
      (cluster : Cluster) where
    answer_listed :
        (a : Merge K) (o : Option (Map Value))
        → AnswerMerged K same_refl same_trans a o
        → AnswerListed a o
    answer_listed a none p = tt
    answer_listed a (some candidate) p = record {
      files = IfPresent-map p.files (AllMerged-AllListed "path" a.files);
      units = IfPresent-map p.units (AllMerged-AllListed "name" a.units);
      ssh_key = p.ssh_key;
    }

    dependency_listed :
        (a : Merge K) (name : String) (o : Option Dependency)
        → ContributionMerged K same_refl same_trans hco facts active rules cluster a name o
        → DependencyListed hco facts active rules cluster a name o
    dependency_listed a name none p = tt
    dependency_listed a name (some dependency) p = record {
      candidate = p.candidate;
      is_candidate = p.is_candidate;
      listed = answer_listed a p.candidate p.merged;
    }

    every_listed :
        (a : Merge K) (assets : List Asset)
        → AllContribute K same_refl same_trans hco facts active rules cluster a assets
        → EveryListed hco facts active rules cluster a assets
    every_listed a [] p = tt
    every_listed a (asset ∷ assets) (p, q) = (
      dependency_listed a asset.name (contributes K active asset asset.policy) p,
      every_listed a assets q,
    )

    -- The fields of the aggregate hold the lists and the SSH key.
    abbrev pub HoldsFields : Map Value → Merge K → Type 0
    HoldsFields aggregate a =
        (lookup aggregate "files" ≡ some (of_list (sorted_entries K a.files)))
        × (lookup aggregate "units" ≡ some (of_list (sorted_entries K a.units)))
        × (lookup aggregate "sshkey" ≡ key_field a.ssh_key)

    aggregate_of-HoldsFields : (a : Merge K) → HoldsFields (aggregate_of K a) a
    unfolding aggregate_of lookup
    aggregate_of-HoldsFields a = (refl, refl, key a.ssh_key)
      where
        key : (o : Option (Map Value)) → lookup (ssh_key_field K o) "sshkey" ≡ key_field o
        key none = refl
        key (some k) = refl

    -- What the aggregate is made of.
    abbrev pub IsAggregate : List Asset → Map Value × Bool → Merge K → Type 0
    IsAggregate assets (aggregate, active_dependent) a =
        (aggregate ≡ aggregate_of K a)
        × HoldsFields aggregate a
        × (active_dependent ≡ has_entries K a)
        × EveryListed hco facts active rules cluster a assets

    -- When the aggregate of the policies is built, its fields hold the lists and the SSH key of a
    -- merge in which every active asset with a resolved policy has its part: rendering it and its
    -- policy gave no error, and, unless the asset is excluded or renders empty, each file and
    -- unit entry of its policy has a deeply equal one in the aggregate's lists, and its SSH key
    -- is deeply equal to the aggregate's. Deep equality is taken to be reflexive and transitive.
    pub aggregate_entries-IsAggregate :
        (assets : List Asset) (answer : Map Value × Bool)
        → aggregate_entries K hco facts active rules cluster assets ≡ ok answer
        → (a : Merge K) × IsAggregate assets answer a
    unfolding aggregate_entries
    aggregate_entries-IsAggregate assets answer h =
        let (a, e, f) =
          >>=-eq-ok (merge_assets K hco facts active rules cluster assets (empty_merge K)) _ h in
        let aggregate_is : answer.0 ≡ aggregate_of K a = cc (f) in
        let dependent_is : answer.1 ≡ has_entries K a = cc (f) in
        let merged =
          merge_assets_complete K same_refl same_trans hco facts active rules cluster assets a e in
        (
          a,
          (
            aggregate_is,
            rw aggregate_is (aggregate_of-HoldsFields a),
            dependent_is,
            every_listed a assets merged,
          ),
        )
