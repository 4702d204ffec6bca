-- ===== src/Controller/Context/Detection.antt =====
-- What the counts and flags of hco_context.go say of the nodes.
use virt_platform_autopilot.Prelude.{
  ◌↔◌, ◌+◌, ◌≤◌, ◌<◌, ◌≡◌, refl, ◌∙◌, Bool, true, false, ◌||◌, List, [], ◌∷◌, arith,
}
use virt_platform_autopilot.Controller.Context.{
  Node, Hardware, has_pci_devices, has_numa_topology, has_vfio_capability, has_usb_devices, has_gpu,
  has_master_role, has_worker_role, raise_flag, detect_each, no_hardware, detect_hardware, Counts,
  count_node, count_nodes, no_counts, node_topology,
}

abbrev pub any_node : (Node → Bool) → List Node → Bool
any_node test [] = false
any_node test (node ∷ nodes) = test node || any_node test nodes

-- The flags of some nodes, on top of flags that stand already.
abbrev found_in : List Node → Hardware → Hardware
found_in nodes h = record {
  pci_devices_present = any_node has_pci_devices nodes || h.pci_devices_present;
  numa_nodes_present = any_node has_numa_topology nodes || h.numa_nodes_present;
  vfio_capable = any_node has_vfio_capability nodes || h.vfio_capable;
  usb_devices_present = any_node has_usb_devices nodes || h.usb_devices_present;
  gpu_present = any_node has_gpu nodes || h.gpu_present;
}

raise_or : (test any flag : Bool) → (any || raise_flag test flag) ≡ ((test || any) || flag)
raise_or true true flag = refl
raise_or true false flag = refl
raise_or false any flag = refl

detect_each-found_in : (nodes : List Node) (h : Hardware) → detect_each nodes h ≡ found_in nodes h
unfolding detect_each
detect_each-found_in [] h = refl
detect_each-found_in (node ∷ nodes) h =
    detect_each-found_in nodes _
    ∙ rw
        (
          raise_or (has_pci_devices node),
          raise_or (has_numa_topology node),
          raise_or (has_vfio_capability node),
          raise_or (has_usb_devices node),
          raise_or (has_gpu node),
        )
        refl

-- What detection says: each flag, of any of the nodes.
abbrev pub hardware_of : List Node → Hardware
hardware_of nodes = record {
  pci_devices_present = any_node has_pci_devices nodes;
  numa_nodes_present = any_node has_numa_topology nodes;
  vfio_capable = any_node has_vfio_capability nodes;
  usb_devices_present = any_node has_usb_devices nodes;
  gpu_present = any_node has_gpu nodes;
}

or_false : (b : Bool) → (b || false) ≡ b
or_false true = refl
or_false false = refl

-- Each hardware flag is set exactly when it holds of some node.
pub detect_hardware-hardware_of : (nodes : List Node) → detect_hardware nodes ≡ hardware_of nodes
unfolding detect_hardware
detect_hardware-hardware_of nodes =
    detect_each-found_in nodes no_hardware
    ∙ rw
        (
          or_false (any_node has_pci_devices nodes),
          or_false (any_node has_numa_topology nodes),
          or_false (any_node has_vfio_capability nodes),
          or_false (any_node has_usb_devices nodes),
          or_false (any_node has_gpu nodes),
        )
        refl

-- Every node is a master with the worker role, or has neither role.
abbrev pub AllCompact : List Node → Type 0
AllCompact [] = Unit
AllCompact (node ∷ nodes) = (has_master_role node ≡ has_worker_role node) × AllCompact nodes

-- Later counters: none shrinks, and the masters grow at least as much as those with the worker role.
record Counted (c d : Counts) : Type 0 where
  bounds : d.masters_with_worker_role + c.masters ≤ d.masters + c.masters_with_worker_role
  grown : (c.masters ≤ d.masters) × (c.dedicated_workers ≤ d.dedicated_workers)

-- Counting on from later counters.
Counted-trans : (c e d : Counts) → Counted c e → Counted e d → Counted c d
Counted-trans c e d p q = record {
  bounds = omega (arith, p.bounds, q.bounds);
  grown = (omega (arith, p.grown.0, q.grown.0), omega (arith, p.grown.1, q.grown.1));
}

count_node-Counted : (m w : Bool) (c : Counts) → Counted c (count_node m w c)
count_node-Counted true true c = record { bounds = omega arith; grown = (omega arith, omega arith) }
count_node-Counted true false c = record {
  bounds = omega arith;
  grown = (omega arith, omega arith);
}
count_node-Counted false true c = record {
  bounds = omega arith;
  grown = (omega arith, omega arith);
}
count_node-Counted false false c = record {
  bounds = omega arith;
  grown = (omega arith, omega arith);
}

count_nodes-Counted : (nodes : List Node) (c : Counts) → Counted c (count_nodes nodes c)
unfolding count_nodes
count_nodes-Counted [] c = record { bounds = omega arith; grown = (omega arith, omega arith) }
count_nodes-Counted (node ∷ nodes) c =
    Counted-trans c _ _ (count_node-Counted (has_master_role node) (has_worker_role node) c)
      (count_nodes-Counted nodes _)

-- The counters agree: every master has the worker role, and there is no worker only.
Balanced : Counts → Counts → Type 0
Balanced c d =
    (d.masters ≡ d.masters_with_worker_role) × (d.dedicated_workers ≡ c.dedicated_workers)

Balanced-AllCompact :
    (nodes : List Node) (c : Counts)
    → c.masters ≡ c.masters_with_worker_role
    → Balanced c (count_nodes nodes c)
    → AllCompact nodes
unfolding count_nodes Balanced
Balanced-AllCompact [] c e b = tt
Balanced-AllCompact (node ∷ nodes) c e b =
    step (has_master_role node) (has_worker_role node) (λ d. count_nodes-Counted nodes d)
      (λ d. Balanced-AllCompact nodes d) b
  where
    step :
        (m w : Bool)
        → ((d : Counts) → Counted d (count_nodes nodes d))
        → ((d : Counts)
            → d.masters ≡ d.masters_with_worker_role
            → Balanced d (count_nodes nodes d)
            → AllCompact nodes)
        → Balanced c (count_nodes nodes (count_node m w c))
        → (m ≡ w) × AllCompact nodes
    step true true k h b = (refl, h (count_node true true c) (omega (arith, e)) b)
    step true false k h (x, y) = absurd (omega (arith, e, x, (k (count_node true false c)).bounds))
    step false true k h (x, y) = absurd (omega (arith, y, (k (count_node false true c)).grown.1))
    step false false k h b = (refl, h c e b)

AllCompact-Balanced :
    (nodes : List Node) (c : Counts)
    → c.masters ≡ c.masters_with_worker_role
    → AllCompact nodes
    → Balanced c (count_nodes nodes c)
unfolding count_nodes Balanced
AllCompact-Balanced [] c e a = (e, refl)
AllCompact-Balanced (node ∷ nodes) c e (same, a) =
    step (has_master_role node) (has_worker_role node) same (λ d q. AllCompact-Balanced nodes d q a)
  where
    step :
        (m w : Bool)
        → m ≡ w
        → ((d : Counts) → d.masters ≡ d.masters_with_worker_role → Balanced d (count_nodes nodes d))
        → Balanced c (count_nodes nodes (count_node m w c))
    step true true q h = h (count_node true true c) (omega (arith, e))
    step true false q h = cc
    step false true q h = cc
    step false false q h = h c e

any_master :
    (nodes : List Node) (c : Counts)
    → c.masters < (count_nodes nodes c).masters ↔ any_node has_master_role nodes ≡ true
unfolding count_nodes
any_master [] c = (λ h. absurd (omega (arith, h)), λ h. cc)
any_master (node ∷ nodes) c =
    step (has_master_role node) (has_worker_role node) (λ d. any_master nodes d)
      (λ d. count_nodes-Counted nodes d)
  where
    step :
        (m w : Bool)
        → ((d : Counts)
            → d.masters < (count_nodes nodes d).masters ↔ any_node has_master_role nodes ≡ true)
        → ((d : Counts) → Counted d (count_nodes nodes d))
        → c.masters < (count_nodes nodes (count_node m w c)).masters
          ↔ (m || any_node has_master_role nodes) ≡ true
    step true true h k = (λ q. refl, λ q. omega (arith, (k (count_node true true c)).grown.0))
    step true false h k = (λ q. refl, λ q. omega (arith, (k (count_node true false c)).grown.0))
    step false true h k = h (count_node false true c)
    step false false h k = h c

-- The topology counts as compact exactly when some node is a master and every node is a master
-- with the worker role or has neither role.
pub is_compact_iff :
    (nodes : List Node)
    → (node_topology nodes).is_compact ≡ true
      ↔ ((any_node has_master_role nodes ≡ true) × AllCompact nodes)
unfolding node_topology Balanced
is_compact_iff nodes = (
  λ h. (
    (any_master nodes no_counts).0 (ground (arith, h)),
    Balanced-AllCompact nodes no_counts refl (ground (arith, h), ground (arith, h)),
  ),
  λ (m, a).
      let (x, y) = AllCompact-Balanced nodes no_counts refl a in
      let z = (any_master nodes no_counts).1 m in ground (arith, x, y, z),
)
