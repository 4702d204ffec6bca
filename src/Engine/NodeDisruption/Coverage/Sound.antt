-- ===== src/Engine/NodeDisruption/Coverage/Sound.antt =====
-- A MachineConfig that passes the check of node_disruption_policy.go changes nothing but what the policy
-- names.
use virt_platform_autopilot.Prelude.{String, ◌≡◌, Option, List, [], ◌∷◌}
use virt_platform_autopilot.Prelude.Maps.{Map}
use virt_platform_autopilot.Kube.{Kube, ok}
use virt_platform_autopilot.Kube.Results.{
  >>=-eq-ok, in_context-eq-ok, IfPresent, IfPresent-map, when_found-IfPresent,
}
use virt_platform_autopilot.Engine.NodeDisruption.Coverage.{
  only_fields, require_only_field, covers_section, covers_named_entries, covers_passwd,
  covers_ssh_keys, covers_config, covers_spec, covers_machine_config,
}
use virt_platform_autopilot.Engine.NodeDisruption.Coverage.Covered.{
  >>-eq-ok, Only, only_fields-Only, AllCovered, covers_entries-AllCovered,
}
use virt_platform_autopilot.Engine.NodeDisruption.Coverage.Users.{UsersCovered, users_covered}

module _ (K : Kube) where
  open K use {
    Obj, Value, object, as_map, nested_map, nested_slice, nested_string, nested_string_slice,
  }

  -- The entries of the policy, as far as it has the field.
  pub record CoveredBy (policy : Map Value) (field identifier : String) (vs : List Value)
      : Type 0 where
    pub entries : Option (List Value)
    pub in_policy : nested_slice policy (field ∷ []) ≡ ok entries
    pub all : AllCovered K entries identifier vs

  -- A section has the entries of one field and nothing else, and the policy names each of them.
  abbrev pub SectionCovered : Map Value → String → String → Map Value → Type 0
  SectionCovered policy field identifier section =
      Only K (field ∷ []) section
      × IfPresent (nested_slice section (field ∷ [])) (CoveredBy policy field identifier)

  abbrev pub EntriesCovered : Map Value → Map Value → String → String → String → Type 0
  EntriesCovered policy config section field identifier =
      IfPresent (nested_map config (section ∷ [])) (SectionCovered policy field identifier)

  abbrev pub PasswdCovered : Map Value → Map Value → Type 0
  PasswdCovered policy passwd =
      Only K ("users" ∷ []) passwd
      × IfPresent (nested_slice passwd ("users" ∷ [])) (UsersCovered K policy)

  -- What the Ignition configuration may hold under a policy.
  pub record ConfigCovered (policy config : Map Value) : Type 0 where
    pub sections : Only K ("ignition" ∷ "storage" ∷ "systemd" ∷ "passwd" ∷ []) config
    pub ignition : IfPresent (nested_map config ("ignition" ∷ [])) (Only K ("version" ∷ []))
    pub files : EntriesCovered policy config "storage" "files" "path"
    pub units : EntriesCovered policy config "systemd" "units" "name"
    pub ssh_keys : IfPresent (nested_map config ("passwd" ∷ [])) (PasswdCovered policy)

  abbrev pub SpecCovered : Map Value → Map Value → Type 0
  SpecCovered policy spec =
      Only K ("config" ∷ []) spec
      × IfPresent (nested_map spec ("config" ∷ [])) (ConfigCovered policy)

  section_covered :
      (policy : Map Value) (field identifier : String) (section : Map Value)
      → covers_section K policy field identifier section ≡ ok tt
      → SectionCovered policy field identifier section
  unfolding covers_section
  section_covered policy field identifier section h =
      let (o, rest) = >>-eq-ok (only_fields K "section" (field ∷ []) section) _ h in
      (
        only_fields-Only K "section" (field ∷ []) section o,
        IfPresent-map (when_found-IfPresent (nested_slice section (field ∷ [])) _ rest) (λ vs p.
            let (entries, e, q) = >>=-eq-ok _ _ p in
            record {
              entries = entries;
              in_policy = in_context-eq-ok _ _ e;
              all = covers_entries-AllCovered K entries field identifier vs q;
            }),
      )

  entries_covered :
      (policy config : Map Value) (section field identifier : String)
      → covers_named_entries K policy config section field identifier ≡ ok tt
      → EntriesCovered policy config section field identifier
  unfolding covers_named_entries
  entries_covered policy config section field identifier h =
      IfPresent-map (when_found-IfPresent (nested_map config (section ∷ [])) _ h)
        (section_covered policy field identifier)

  passwd_covered :
      (policy passwd : Map Value)
      → covers_passwd K policy passwd ≡ ok tt
      → PasswdCovered policy passwd
  unfolding covers_passwd
  passwd_covered policy passwd h =
      let (o, rest) = >>-eq-ok (only_fields K "spec.config.passwd" ("users" ∷ []) passwd) _ h in
      (
        only_fields-Only K "spec.config.passwd" _ passwd o,
        IfPresent-map (when_found-IfPresent (nested_slice passwd ("users" ∷ [])) _ rest)
            (users_covered K policy),
      )

  config_covered :
      (policy config : Map Value)
      → covers_config K policy config ≡ ok tt
      → ConfigCovered policy config
  unfolding covers_config require_only_field covers_ssh_keys
  config_covered policy config h =
      let (o, h1) =
        >>-eq-ok
          (only_fields K "spec.config" ("ignition" ∷ "storage" ∷ "systemd" ∷ "passwd" ∷ []) config)
          _ h in
      let (i, h2) = >>-eq-ok (require_only_field K config "ignition" "version") _ h1 in
      let (f, h3) = >>-eq-ok (covers_named_entries K policy config "storage" "files" "path") _ h2 in
      let (u, k) = >>-eq-ok (covers_named_entries K policy config "systemd" "units" "name") _ h3 in
      record {
        sections = only_fields-Only K "spec.config" _ config o;
        ignition =
            IfPresent-map (when_found-IfPresent (nested_map config ("ignition" ∷ [])) _ i)
              (λ m p. only_fields-Only K "spec.config.ignition" _ m p);
        files = entries_covered policy config "storage" "files" "path" f;
        units = entries_covered policy config "systemd" "units" "name" u;
        ssh_keys =
            IfPresent-map (when_found-IfPresent (nested_map config ("passwd" ∷ [])) _ k)
              (passwd_covered policy);
      }

  spec_covered :
      (policy spec : Map Value) → covers_spec K policy spec ≡ ok tt → SpecCovered policy spec
  unfolding covers_spec
  spec_covered policy spec h =
      let (o, rest) = >>-eq-ok (only_fields K "spec" ("config" ∷ []) spec) _ h in
      (
        only_fields-Only K "spec" _ spec o,
        IfPresent-map (when_found-IfPresent (nested_map spec ("config" ∷ [])) _ rest)
            (config_covered policy),
      )

  pub covers_machine_config_sound :
      (policy : Map Value) (machine_config : Obj)
      → covers_machine_config K policy machine_config ≡ ok tt
      → IfPresent (nested_map (object machine_config) ("spec" ∷ [])) (SpecCovered policy)
  unfolding covers_machine_config
  covers_machine_config_sound policy machine_config h =
      IfPresent-map (when_found-IfPresent (nested_map (object machine_config) ("spec" ∷ [])) _ h)
        (spec_covered policy)
