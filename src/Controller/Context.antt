-- ===== src/Controller/Context.antt =====
-- pkg/controller/hco_context.go: what the render context says of the cluster's hardware and topology.
pub mod Detection
use virt_platform_autopilot.Prelude.{
  ℕ, ◌+◌, String, ◌==◌, Bool, true, false, not, ◌&&◌, ◌||◌, Option, none, some, List, [], ◌∷◌,
  is_some, ltb, eqb, length, if◌then◌else◌,
}
use virt_platform_autopilot.Prelude.Maps.{Map, lookup}
use virt_platform_autopilot.Kube.{Kube, ObjectId, Error, wrap, Result, ok, err, is_not_found}
use virt_platform_autopilot.Overrides.Validation.{contains}

-- A `corev1.Node`, as far as detection reads it; of the capacity, the names of its resources.
pub record Node : Type 0 where
  pub labels : Map String
  pub annotations : Map String
  pub capacity : List String

-- `HardwareContext`
pub record Hardware : Type 0 where
  pub pci_devices_present : Bool
  pub numa_nodes_present : Bool
  pub vfio_capable : Bool
  pub usb_devices_present : Bool
  pub gpu_present : Bool

abbrev pub has_label : Node → String → Bool
has_label node label = is_some (lookup node.labels label)

abbrev pub common_resources : List String
common_resources =
    "cpu" ∷ "memory" ∷ "pods" ∷ "ephemeral-storage" ∷ "hugepages-1Gi" ∷ "hugepages-2Mi" ∷ []

any_other : List String → Bool
any_other [] = false
any_other (resource ∷ rest) = not (contains common_resources resource) || any_other rest

-- `hasPCIDevices`
unfoldable pub has_pci_devices : Node → Bool
unfolding any_other
has_pci_devices node =
    has_label node "feature.node.kubernetes.io/pci-present" || any_other node.capacity

abbrev is_nonempty_text : Option String → Bool
is_nonempty_text none = false
is_nonempty_text (some policy) = not (policy == "")

-- `hasNUMATopology`
unfoldable pub has_numa_topology : Node → Bool
has_numa_topology node =
    has_label node "feature.node.kubernetes.io/cpu-hardware_multithreading"
    || is_nonempty_text (lookup node.annotations "kubevirt.io/topology-manager-policy")

abbrev is_enabled : Option String → Bool
is_enabled none = false
is_enabled (some iommu) = iommu == "true"

-- `hasVFIOCapability`
unfoldable pub has_vfio_capability : Node → Bool
has_vfio_capability node =
    is_enabled (lookup node.labels "feature.node.kubernetes.io/iommu-enabled")

-- `hasUSBDevices`
unfoldable pub has_usb_devices : Node → Bool
has_usb_devices node = has_label node "feature.node.kubernetes.io/usb-present"

-- `hasGPU`
unfoldable pub has_gpu : Node → Bool
has_gpu node =
    contains node.capacity "nvidia.com/gpu"
    || contains node.capacity "amd.com/gpu"
    || contains node.capacity "gpu.intel.com/i915"

-- `hasMasterRole`
unfoldable pub has_master_role : Node → Bool
has_master_role node =
    has_label node "node-role.kubernetes.io/master"
    || has_label node "node-role.kubernetes.io/control-plane"

-- `hasWorkerRole`
unfoldable pub has_worker_role : Node → Bool
has_worker_role node = has_label node "node-role.kubernetes.io/worker"

abbrev pub no_hardware : Hardware
no_hardware = record {
  pci_devices_present = false;
  numa_nodes_present = false;
  vfio_capable = false;
  usb_devices_present = false;
  gpu_present = false;
}

-- `if test { flag = true }`
abbrev pub raise_flag : Bool → Bool → Bool
raise_flag true flag = true
raise_flag false flag = flag

unfoldable pub detect_each : List Node → Hardware → Hardware
detect_each [] hardware = hardware
detect_each (node ∷ nodes) hardware = detect_each nodes (record {
  pci_devices_present = raise_flag (has_pci_devices node) hardware.pci_devices_present;
  numa_nodes_present = raise_flag (has_numa_topology node) hardware.numa_nodes_present;
  vfio_capable = raise_flag (has_vfio_capability node) hardware.vfio_capable;
  usb_devices_present = raise_flag (has_usb_devices node) hardware.usb_devices_present;
  gpu_present = raise_flag (has_gpu node) hardware.gpu_present;
})

-- `detectHardware`
unfoldable pub detect_hardware : List Node → Hardware
detect_hardware nodes = detect_each nodes no_hardware

-- The counters of `detectTopology`.
pub record Counts : Type 0 where
  pub masters : ℕ
  pub masters_with_worker_role : ℕ
  pub dedicated_workers : ℕ

abbrev pub count_node : Bool → Bool → Counts → Counts
count_node true true c = record c {
  masters = c.masters + 1;
  masters_with_worker_role = c.masters_with_worker_role + 1;
}
count_node true false c = record c { masters = c.masters + 1 }
count_node false true c = record c { dedicated_workers = c.dedicated_workers + 1 }
count_node false false c = c

unfoldable pub count_nodes : List Node → Counts → Counts
count_nodes [] c = c
count_nodes (node ∷ nodes) c =
    count_nodes nodes (count_node (has_master_role node) (has_worker_role node) c)

abbrev pub no_counts : Counts
no_counts = record { masters = 0; masters_with_worker_role = 0; dedicated_workers = 0 }

-- `TopologyContext`, whose booleans for the single providers are comparisons with `cloud_provider`.
pub record Topology : Type 0 where
  pub is_hcp : Bool
  pub is_compact : Bool
  pub has_schedulable_masters : Bool
  pub control_plane_topology : String
  pub cloud_provider : String
  pub is_aws : Bool
  pub is_azure : Bool
  pub is_gcp : Bool
  pub is_bare_metal : Bool
  pub is_vsphere : Bool
  pub is_open_stack : Bool
  pub master_count : ℕ
  pub worker_count : ℕ
  pub total_node_count : ℕ

abbrev pub no_topology : Topology
no_topology = record {
  is_hcp = false;
  is_compact = false;
  has_schedulable_masters = false;
  control_plane_topology = "";
  cloud_provider = "";
  is_aws = false;
  is_azure = false;
  is_gcp = false;
  is_bare_metal = false;
  is_vsphere = false;
  is_open_stack = false;
  master_count = 0;
  worker_count = 0;
  total_node_count = 0;
}

-- The part of `detectTopology` that reads the nodes.
unfoldable pub node_topology : List Node → Topology
node_topology nodes =
    let c = count_nodes nodes no_counts in
    record no_topology {
      is_compact =
          ltb 0 c.masters && eqb c.masters c.masters_with_worker_role && eqb c.dedicated_workers 0;
      master_count = c.masters;
      worker_count = c.dedicated_workers;
      total_node_count = length nodes;
    }

abbrev pub infrastructure_id : ObjectId
infrastructure_id = record {
  group = "config.openshift.io";
  version = "v1";
  kind = "Infrastructure";
  namespace = "";
  name = "cluster";
}

abbrev pub scheduler_id : ObjectId
scheduler_id = record {
  group = "config.openshift.io";
  version = "v1";
  kind = "Scheduler";
  namespace = "";
  name = "cluster";
}

-- A field that is missing, or not of the type, has the zero value.
abbrev pub string_or_empty : Result (Option String) → String
string_or_empty (ok (some s)) = s
string_or_empty _ = ""

abbrev pub bool_or_false : Result (Option Bool) → Bool
bool_or_false (ok (some b)) = b
bool_or_false _ = false

module _ (K : Kube) where
  open K use {Obj, Cluster, object, nested_string, nested_bool, get}

  infrastructure_fields : String → String → Topology → Topology
  infrastructure_fields control_plane provider t = record t {
    control_plane_topology = control_plane;
    is_hcp = control_plane == "External";
    cloud_provider = provider;
    is_aws = provider == "AWS";
    is_azure = provider == "Azure";
    is_gcp = provider == "GCP";
    is_bare_metal = provider == "BareMetal";
    is_vsphere = provider == "VSphere";
    is_open_stack = provider == "OpenStack";
  }

  -- The Infrastructure object; without one the fields keep their zero values.
  unfoldable pub read_infrastructure : Topology → Result Obj → Result Topology
  unfolding infrastructure_fields
  read_infrastructure t (ok infra) = ok (
      infrastructure_fields
        (string_or_empty (nested_string (object infra) ("status" ∷ "controlPlaneTopology" ∷ [])))
        (string_or_empty (nested_string (object infra) ("status" ∷ "platformStatus" ∷ "type" ∷ [])))
        t)
  read_infrastructure t (err e) =
      if is_not_found e then ok t else err (wrap "failed to fetch Infrastructure CR" e)

  unfoldable pub read_scheduler : Topology → Result Obj → Result Topology
  read_scheduler t (ok scheduler) = ok (record t {
    has_schedulable_masters =
        bool_or_false (nested_bool (object scheduler) ("spec" ∷ "mastersSchedulable" ∷ []));
  })
  read_scheduler t (err e) =
      if is_not_found e then ok t else err (wrap "failed to fetch Scheduler CR" e)

  -- `detectTopology`; the topology beside an error is not read.
  unfoldable pub detect_topology : List Node → Cluster → Result Topology
  detect_topology nodes cluster =
      elim (read_infrastructure (node_topology nodes) (get infrastructure_id cluster)) [
        | err e ↦ err e
        | ok t ↦ read_scheduler t (get scheduler_id cluster)
      ]

  -- The topology of `Build`: an error, which is logged and sent as an event, leaves the zero value.
  unfoldable pub build_topology : List Node → Cluster → Topology
  build_topology nodes cluster = elim (detect_topology nodes cluster) [
    | err e ↦ no_topology
    | ok t ↦ t
  ]
