-- ===== src/Executions/Protections.antt =====
-- internal/repository/executions/engine.go and bridge_delete.go: the protections that an execution
-- takes of the objects that its intents touch, in the transaction of its admission.
pub mod Exclusive
use ovs_webui.Prelude.{
  ℕ, Bool, true, false, ◌&&◌, ◌||◌, String, str_eq, List, [], ◌∷◌, ◌++◌, Option, none, some, ◌==◌,
  if◌then◌else◌, count,
}
use ovs_webui.Candidate.{
  Binding, Intent, TopologyChange, MtuChange, InternalPortDeletion, InternalPortCreation,
  BridgeDeletion, BridgeCreation, graph_bindings, port_graph_bindings, add_missing,
  topology_bindings, is_bond_operation,
}
use ovs_webui.Store.{
  Error, Protection, Tx, pure, fail, gets, guard, modify, choose, ◌>>=◌, ◌>>◌, chain,
  field_protected, multicast_graph_reservation_required, isolation_graph_reservation_required,
  spanning_tree_graph_reservation_required,
}

abbrev pub protects : ℕ → Protection → Bool
protects resource p = p.resource == resource

-- field_path IN (…)
abbrev pub is_field : Protection → Bool
is_field p =
    str_eq p.field "port.vlan"
    || str_eq p.field "port.bond"
    || str_eq p.field "root.bridge-creation"
    || str_eq p.field "object.lifecycle"

abbrev is_graph_operation : String → Bool
is_graph_operation op =
    str_eq op "bridge.spanning-tree.configure"
    || str_eq op "port.isolation.set"
    || str_eq op "bridge.multicast.configure"

pub graph_missing : String → Error
graph_missing op =
    if str_eq op "bridge.multicast.configure"
    then multicast_graph_reservation_required
    else if str_eq op "port.isolation.set"
    then isolation_graph_reservation_required
    else spanning_tree_graph_reservation_required

-- The field and the resource of an intent that touches one field.
abbrev pub field_of : Intent → Option BridgeCreation → String
field_of i (some c) = if is_bond_operation i.operation then "port.bond" else "root.bridge-creation"
field_of i none = if is_bond_operation i.operation then "port.bond" else "port.vlan"

abbrev resource_of : Intent → Option BridgeCreation → ℕ
resource_of i (some c) = c.root
resource_of i none = i.object.management_id

pub default_context : Option (List Binding) → List Binding
default_context none = []
default_context (some bs) = bs

module _ (id : ℕ) where
  abbrev pub add_protection : ℕ → String → Tx (Unit {0})
  add_protection resource field = modify (λ t. record t {
    protections =
        t.protections ++ (record { resource = resource; field = field; transaction = id } ∷ []);
  })

  -- `protect` of `protectGraph`
  unfoldable pub protect : ℕ → String → Tx (Unit {0})
  protect resource field = do
    n ← gets (λ t. count (protects resource) t.protections)
    guard (n == 0) field_protected
    add_protection resource field

  unfoldable pub protect_bindings : List Binding → Tx (Unit {0})
  protect_bindings [] = pure tt
  protect_bindings (b ∷ bs) = protect b.management_id "object.lifecycle" >> protect_bindings bs

  -- `protectGraph`
  unfoldable pub protect_graph : ℕ → List Binding → Tx (Unit {0})
  protect_graph root bs = protect root "root.bridge-creation" >> protect_bindings bs

  -- What ends the body of the loop.
  unfoldable pub protect_field : ℕ → String → Tx (Unit {0})
  protect_field resource field = do
    n ← gets (λ t. count (λ p. protects resource p && is_field p) t.protections)
    guard (n == 0) field_protected
    add_protection resource field

  -- `protectDeletion`, or else the field
  unfoldable pub protect_deletion : Intent → Option BridgeDeletion → Tx (Unit {0})
  protect_deletion i (some d) =
      protect_graph d.source.root (graph_bindings d.source ++ graph_bindings d.replacement)
  protect_deletion i none = protect_field (resource_of i i.creation) (field_of i i.creation)

  unfoldable pub protect_port_creation : Intent → Option InternalPortCreation → Tx (Unit {0})
  protect_port_creation i (some p) = protect_graph p.root (p.bridge ∷ i.object ∷ p.interface ∷ [])
  protect_port_creation i none = protect_deletion i i.deletion

  unfoldable pub protect_port_deletion : Intent → Option InternalPortDeletion → Tx (Unit {0})
  protect_port_deletion i (some d) = protect_graph d.source.configuration.root (
      d.source.configuration.bridge
      ∷ (port_graph_bindings d.source ++ port_graph_bindings d.replacement))
  protect_port_deletion i none = protect_port_creation i i.port_creation

  module _ (root : ℕ) (graph : List Binding) where
    unfoldable pub protect_mtu : Intent → Option MtuChange → Tx (Unit {0})
    protect_mtu i (some m) =
        protect_graph root
          (add_missing (m.bridge ∷ m.port ∷ i.object ∷ []) (default_context m.default_bindings))
    protect_mtu i none = protect_port_deletion i i.port_deletion

    unfoldable pub protect_topology : Intent → Option TopologyChange → Tx (Unit {0})
    protect_topology i (some t) = protect_graph root (topology_bindings t)
    protect_topology i none = protect_mtu i i.mtu

    unfoldable pub protect_native_graph : String → List Binding → Tx (Unit {0})
    protect_native_graph op [] = fail (graph_missing op)
    protect_native_graph op (b ∷ bs) = protect_graph root (b ∷ bs)

    -- The body of the loop over the intents; `graph` holds the bindings of the plan.
    unfoldable pub protect_intent : Intent → Tx (Unit {0})
    protect_intent i =
        choose (is_graph_operation i.operation) (protect_native_graph i.operation graph)
          (protect_topology i i.topology)

    unfoldable pub protect_intents : List Intent → Tx (Unit {0})
    protect_intents [] = pure tt
    protect_intents (i ∷ is) = protect_intent i >> protect_intents is
