-- ===== src/Engine/NodeDisruption/Aggregate/Complete.antt =====
-- The loop over the assets in node_disruption_policy.go: the aggregate has what every active asset
-- contributes.
use virt_platform_autopilot.Prelude.{
  String, ◌≡◌, sym, inl, inr, Bool, true, Bool-cases, Option, none, some, List, [], ◌∷◌,
}
use virt_platform_autopilot.Prelude.Maps.{Map}
use virt_platform_autopilot.Kube.{Kube, ExclusionRule, Asset, Dependency, ok}
use virt_platform_autopilot.Kube.Results.{
  ◌>>=◌, >>=-eq-ok, IfPresent, absent, present, IfPresent-map,
}
use virt_platform_autopilot.Engine.NodeDisruption.Aggregate.{
  merge_found, merge_ssh_key, merge_found_entries, merge_entries, Merge, merge_candidate,
  merge_included, merge_assets, contributes, entries_for_dependent, empty_merge,
}
use virt_platform_autopilot.Engine.NodeDisruption.Aggregate.Merged.{
  Stands, Keeps, AllMerged, merge_each-Keeps, merge_each-AllMerged,
}

module _ (K : Kube) (same_refl : (m : Map (Kube.Value K)) → Kube.same_map K m m ≡ true)
    (same_trans : (l m n : Map (Kube.Value K))
      → Kube.same_map K l m ≡ true
      → Kube.same_map K m n ≡ true
      → Kube.same_map K l n ≡ true) where
  open K use {Obj, Value, Cluster, Facts, as_map, nested_map, nested_slice, nested_string, same_map}

  abbrev FieldMerged : Map Value → String → String → Map (Map Value) → Type 0
  FieldMerged policy field identifier m =
      IfPresent (nested_slice policy (field ∷ [])) (AllMerged K identifier m)

  found_merged :
      (field identifier : String) (policy : Map Value) (o : Option (List Value))
      (m n : Map (Map Value))
      → nested_slice policy (field ∷ []) ≡ ok o
      → merge_found_entries K field identifier o m ≡ ok n
      → Keeps K m n × FieldMerged policy field identifier n
  unfolding merge_found_entries
  found_merged field identifier policy none m n e h =
      let f : m ≡ n = cc in (rw f (λ key v s. s), absent e)
  found_merged field identifier policy (some vs) m n e h = (
    merge_each-Keeps K same_refl same_trans field identifier vs m n h,
    present vs e (merge_each-AllMerged K same_refl same_trans field identifier vs m n h),
  )

  entries_merged :
      (field identifier : String) (policy : Map Value) (m n : Map (Map Value))
      → merge_entries K m policy field identifier ≡ ok n
      → Keeps K m n × FieldMerged policy field identifier n
  unfolding merge_entries
  entries_merged field identifier policy m n h =
      let (o, e, f) = >>=-eq-ok (nested_slice policy (field ∷ [])) _ h in
      found_merged field identifier policy o m n e f

  abbrev KeepsKey : Option (Map Value) → Option (Map Value) → Type 0
  KeepsKey o p = (v : Map Value) → Stands K v o → Stands K v p

  abbrev KeyMerged : Map Value → Option (Map Value) → Type 0
  KeyMerged policy o = IfPresent (nested_map policy ("sshkey" ∷ [])) (λ v. Stands K v o)

  key_found :
      (o p : Option (Map Value)) (c : Map Value)
      → merge_found K o c ≡ ok p
      → KeepsKey o p × Stands K c p
  unfolding merge_found
  key_found none p c h =
      let e : some c ≡ p = cc in
      (λ v s. cc (s.is_value), record { value = c; is_value = sym e; same = same_refl c })
  key_found (some x) p c h = elim (Bool-cases (same_map x c)) [
    | inl f ↦
        (let e : some c ≡ p = cc (rw f at h) in
          (
            λ v s. record {
              value = c;
              is_value = sym e;
              same = same_trans v x c (let g : s.value ≡ x = cc (s.is_value) in rw g at s.same) f;
            },
            record { value = c; is_value = sym e; same = same_refl c },
          ))
    | inr f ↦ cc (rw f at h)
  ]

  key_merged :
      (o p : Option (Map Value)) (policy : Map Value)
      → merge_ssh_key K o policy ≡ ok p
      → KeepsKey o p × KeyMerged policy p
  unfolding merge_ssh_key
  key_merged o p policy h = answer (>>=-eq-ok (nested_map policy ("sshkey" ∷ [])) _ h)
    where
      answer :
          (c : Option (Map Value)) × (nested_map policy ("sshkey" ∷ []) ≡ ok c)
            × ((elim c [ none ↦ ok o | some c ↦ merge_found K o c ]) ≡ ok p)
          → KeepsKey o p × KeyMerged policy p
      answer (none, e, f) = let g : o ≡ p = cc (f) in (rw g (λ v s. s), absent e)
      answer (some c, e, f) = let (k, s) = key_found o p c f in (k, present c e s)

  -- All that a policy asks for stands in the merge.
  pub record Contribution (a : Merge K) (candidate : Map Value) : Type 0 where
    pub files : FieldMerged candidate "files" "path" a.files
    pub units : FieldMerged candidate "units" "name" a.units
    pub ssh_key : KeyMerged candidate a.ssh_key

  record KeepsMerge (a b : Merge K) : Type 0 where
    files : Keeps K a.files b.files
    units : Keeps K a.units b.units
    ssh_key : KeepsKey a.ssh_key b.ssh_key

  AllMerged-Keeps :
      (identifier : String) (m n : Map (Map Value)) (vs : List Value)
      → Keeps K m n
      → AllMerged K identifier m vs
      → AllMerged K identifier n vs
  AllMerged-Keeps identifier m n [] k p = tt
  AllMerged-Keeps identifier m n (v ∷ vs) k (p, q) = (
    record {
      entry = p.entry;
      is_entry = p.is_entry;
      key = p.key;
      has_key = p.has_key;
      stands = k p.key p.entry p.stands;
    },
    AllMerged-Keeps identifier m n vs k q,
  )

  Contribution-KeepsMerge :
      (a b : Merge K) (candidate : Map Value)
      → KeepsMerge a b
      → Contribution a candidate
      → Contribution b candidate
  Contribution-KeepsMerge a b candidate k c = record {
    files = IfPresent-map c.files (λ vs. AllMerged-Keeps "path" a.files b.files vs k.files);
    units = IfPresent-map c.units (λ vs. AllMerged-Keeps "name" a.units b.units vs k.units);
    ssh_key = IfPresent-map c.ssh_key k.ssh_key;
  }

  merge_candidate-Contribution :
      (a b : Merge K) (candidate : Map Value)
      → merge_candidate K a candidate ≡ ok b
      → KeepsMerge a b × Contribution b candidate
  unfolding merge_candidate
  merge_candidate-Contribution a b candidate h =
      let (files, f, h1) = >>=-eq-ok (merge_entries K a.files candidate "files" "path") _ h in
      let (units, u, h2) = >>=-eq-ok (merge_entries K a.units candidate "units" "name") _ h1 in
      let (key, k, h3) = >>=-eq-ok (merge_ssh_key K a.ssh_key candidate) _ h2 in
      let (kf, pf) = entries_merged "files" "path" candidate a.files files f in
      let (ku, pu) = entries_merged "units" "name" candidate a.units units u in
      let (kk, pk) = key_merged a.ssh_key key candidate k in
      let e : record { files = files; units = units; ssh_key = key } ≡ b = cc (h3) in
      rw (← e) (
        record { files = kf; units = ku; ssh_key = kk },
        record { files = pf; units = pu; ssh_key = pk },
      )

  abbrev pub AnswerMerged : Merge K → Option (Map Value) → Type 0
  AnswerMerged a none = Unit
  AnswerMerged a (some candidate) = Contribution a candidate

  KeepsMerge-refl : (a : Merge K) → KeepsMerge a a
  KeepsMerge-refl a = record { files = λ key v s. s; units = λ key v s. s; ssh_key = λ v s. s }

  KeepsMerge-trans : (a b c : Merge K) → KeepsMerge a b → KeepsMerge b c → KeepsMerge a c
  KeepsMerge-trans a b c k l = record {
    files = λ key v s. l.files key v (k.files key v s);
    units = λ key v s. l.units key v (k.units key v s);
    ssh_key = λ v s. l.ssh_key v (k.ssh_key v s);
  }

  merge_included-AnswerMerged :
      (a b : Merge K) (o : Option (Map Value))
      → merge_included K a o ≡ ok b
      → KeepsMerge a b × AnswerMerged b o
  unfolding merge_included
  merge_included-AnswerMerged a b none h = let e : a ≡ b = cc (h) in (rw e (KeepsMerge-refl b), tt)
  merge_included-AnswerMerged a b (some c) h = merge_candidate-Contribution a b c h

  module _ (hco : Obj) (facts : Facts) (active : Map Bool) (rules : List ExclusionRule)
      (cluster : Cluster) where
    -- What an active asset's policy answers stands in the merge.
    pub record AssetMerged (a : Merge K) (name : String) (dependency : Dependency) : Type 0 where
      pub candidate : Option (Map Value)
      pub is_candidate :
          entries_for_dependent K hco facts name dependency rules cluster ≡ ok candidate
      pub merged : AnswerMerged a candidate

    abbrev pub ContributionMerged : Merge K → String → Option Dependency → Type 0
    ContributionMerged a name none = Unit
    ContributionMerged a name (some dependency) = AssetMerged a name dependency

    abbrev pub AllContribute : Merge K → List Asset → Type 0
    AllContribute a [] = Unit
    AllContribute a (asset ∷ assets) =
        ContributionMerged a asset.name (contributes K active asset asset.policy)
        × AllContribute a assets

    AnswerMerged-KeepsMerge :
        (a b : Merge K) (o : Option (Map Value))
        → KeepsMerge a b
        → AnswerMerged a o
        → AnswerMerged b o
    AnswerMerged-KeepsMerge a b none k p = tt
    AnswerMerged-KeepsMerge a b (some c) k p = Contribution-KeepsMerge a b c k p

    merge_assets-AllContribute :
        (assets : List Asset) (a b : Merge K)
        → merge_assets K hco facts active rules cluster assets a ≡ ok b
        → KeepsMerge a b × AllContribute b assets
    unfolding merge_assets
    merge_assets-AllContribute [] a b h = let e : a ≡ b = cc (h) in (rw e (KeepsMerge-refl b), tt)
    merge_assets-AllContribute (asset ∷ assets) a b h =
        next_asset (contributes K active asset asset.policy)
          (λ m n g. merge_assets-AllContribute assets m n g) h
      where
        next_asset :
            (o : Option Dependency)
            → ((m n : Merge K)
                → merge_assets K hco facts active rules cluster assets m ≡ ok n
                → KeepsMerge m n × AllContribute n assets)
            → (elim o [
              | none ↦ merge_assets K hco facts active rules cluster assets a
              | some dependency ↦
                  entries_for_dependent K hco facts asset.name dependency rules cluster
                  >>= λ candidate. merge_included K a candidate >>= λ merged.
                      merge_assets K hco facts active rules cluster assets merged
            ])
              ≡ ok b
            → KeepsMerge a b × (ContributionMerged b asset.name o × AllContribute b assets)
        next_asset none rest g = let (k, p) = rest a b g in (k, (tt, p))
        next_asset (some dependency) rest g =
            let (c, e, g1) =
              >>=-eq-ok (entries_for_dependent K hco facts asset.name dependency rules cluster) _
                g in
            let (m, f, g2) = >>=-eq-ok (merge_included K a c) _ g1 in
            let (k, p) = merge_included-AnswerMerged a m c f in
            let (l, q) = rest m b g2 in
            (
              KeepsMerge-trans a m b k l,
              (
                record {
                  candidate = c;
                  is_candidate = e;
                  merged = AnswerMerged-KeepsMerge m b c l p;
                },
                q,
              ),
            )

    -- When the merge of the policies succeeds, every active asset with a resolved policy was
    -- rendered without an error, and each file, unit and SSH key entry of its policy stands in
    -- the merge under its key with deeply equal content, where deep equality is reflexive and
    -- transitive.
    pub merge_assets_complete :
        (assets : List Asset) (a : Merge K)
        → merge_assets K hco facts active rules cluster assets (empty_merge K) ≡ ok a
        → AllContribute a assets
    merge_assets_complete assets a h = (merge_assets-AllContribute assets (empty_merge K) a h).1
