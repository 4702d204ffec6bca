-- ===== src/Engine/Coalescing/Pools/Releases.antt =====
-- Which pools release a staged update, said of the conditions that they report, for
-- machineconfig_coalescing.go.
use virt_platform_autopilot.Prelude.{String, ◌≡◌, ◌⊎◌, Option, none, some, List, [], ◌∷◌}
use virt_platform_autopilot.Prelude.Maps.{Map, lookup}
use virt_platform_autopilot.Kube.{Kube, ok}

module _ (K : Kube) where
  open K use {Obj, Value, object, as_map, as_string, nested_slice}

  -- A field of the condition holds this text.
  abbrev pub Says : Map Value → String → String → Type 0
  Says condition field text =
      (x : Value) × (lookup condition field ≡ some x) × (as_string x ≡ some text)

  abbrev pub OfType : String → Option (Map Value) → Type 0
  OfType t none = ⊥
  OfType t (some condition) = Says condition "type" t

  abbrev pub NoneOfType : String → List Value → Type 0
  NoneOfType t [] = Unit
  NoneOfType t (v ∷ vs) = (¬ OfType t (as_map v)) × NoneOfType t vs

  abbrev pub IsTrue : String → Option (Map Value) → Type 0
  IsTrue t none = ⊥
  IsTrue t (some condition) = Says condition "type" t × Says condition "status" "True"

  -- The last condition of the type is true.
  abbrev pub LastTrue : String → List Value → Type 0
  LastTrue t [] = ⊥
  LastTrue t (v ∷ vs) = LastTrue t vs ⊎ (IsTrue t (as_map v) × NoneOfType t vs)

  -- The pool reports a condition of the type as true.
  pub record Reports (t : String) (pool : Obj) : Type 0 where
    pub conditions : List Value
    pub has_conditions :
        nested_slice (object pool) ("status" ∷ "conditions" ∷ []) ≡ ok (some conditions)
    pub last : LastTrue t conditions

  -- The pool's rendering is degraded, or it is updating.
  abbrev pub Releases : Obj → Type 0
  Releases pool = Reports "RenderDegraded" pool ⊎ Reports "Updating" pool

  abbrev pub AnyReleases : List Obj → Type 0
  AnyReleases [] = ⊥
  AnyReleases (pool ∷ pools) = Releases pool ⊎ AnyReleases pools
