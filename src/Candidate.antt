-- ===== src/Candidate.antt =====
-- internal/candidate: the intents of a candidate, with what the admission of an execution looks at
-- (types.go, bridge.go, bridge_delete.go, internal_port.go, internal_port_delete.go, mtu.go, topology.go),
-- and `Reverse` of bond.go. A configuration that only moves from place to place is its digest.

use ovs_webui.Prelude.{
  ℕ, Bool, true, false, not, ◌&&◌, ◌||◌, String, str_eq, List, [], ◌∷◌, ◌++◌, Option, none, some,
  ◌==◌, if◌then◌else◌, any, keep, lookup, is_some,
}

pub record Binding : Type 0 where
  pub management_id : ℕ
  pub ovs_uuid : ℕ
  pub table : String
  pub generation : ℕ

-- Go's `==` of two bindings
unfoldable pub same_binding : Binding → Binding → Bool
same_binding a b =
    a.management_id == b.management_id
    && a.ovs_uuid == b.ovs_uuid
    && str_eq a.table b.table
    && a.generation == b.generation

pub record BridgeGraph : Type 0 where
  pub name : String
  pub root : ℕ
  pub bridge : Binding
  pub port : Binding
  pub interface : Binding

pub record BridgeDeletion : Type 0 where
  pub source : BridgeGraph
  pub replacement : BridgeGraph
  pub restoring : Bool
  pub observed : Bool

pub record BridgeCreation : Type 0 where
  pub name : String
  pub root : ℕ
  pub port : Binding
  pub interface : Binding
  pub before_present : Bool
  pub after_present : Bool

pub record InternalPortCreation : Type 0 where
  pub name : String
  pub root : ℕ
  pub bridge : Binding
  pub interface : Binding
  pub before_present : Bool
  pub after_present : Bool

pub record InternalPortGraph : Type 0 where
  pub port : Binding
  pub configuration : InternalPortCreation

pub record InternalPortDeletion : Type 0 where
  pub source : InternalPortGraph
  pub replacement : InternalPortGraph
  pub restoring : Bool
  pub observed : Bool

-- `default_bindings` is `none` where the change has no default context.
pub record MtuChange : Type 0 where
  pub before : Option ℕ
  pub after : Option ℕ
  pub port : Binding
  pub bridge : Binding
  pub default_bindings : Option (List Binding)
  pub compensating : Bool

-- The nodes stand for their bindings.
pub record TopologyChange : Type 0 where
  pub before : List Binding
  pub after : List Binding
  pub restored : List Binding
  pub replacements : List (ℕ × Binding)
  pub observed : Bool
  pub compensating : Bool

-- A change of a multicast, isolation or spanning tree configuration.
pub record Change : Type 0 where
  pub before : ℕ
  pub after : ℕ

pub record PolicingChange : Type 0 where
  pub before : ℕ
  pub after : ℕ
  pub compensating : Bool

-- `StoredIntent`
pub record Intent : Type 0 where
  pub multicast : Option Change
  pub isolation : Option Change
  pub spanning_tree : Option Change
  pub topology : Option TopologyChange
  pub policing : Option PolicingChange
  pub mtu : Option MtuChange
  pub id : ℕ
  pub operation : String
  pub object : Binding
  pub value : ℕ
  pub before : ℕ
  pub dependency : ℕ
  pub schema : ℕ
  pub bond : Option ℕ
  pub before_bond : Option ℕ
  pub creation : Option BridgeCreation
  pub deletion : Option BridgeDeletion
  pub port_deletion : Option InternalPortDeletion
  pub port_creation : Option InternalPortCreation

abbrev pub bridge_create : String
bridge_create = "bridge.create-isolated"

abbrev pub bridge_delete : String
bridge_delete = "bridge.delete-isolated"

abbrev pub internal_port_create : String
internal_port_create = "port.create-internal"

abbrev pub internal_port_delete : String
internal_port_delete = "port.delete-internal"

-- `IsBondOperation`
abbrev pub is_bond_operation : String → Bool
is_bond_operation op = str_eq op "bond.configure" || str_eq op "port.lacp.set"

-- `Bindings` of the two graphs
abbrev pub graph_bindings : BridgeGraph → List Binding
graph_bindings g = g.bridge ∷ g.port ∷ g.interface ∷ []

abbrev pub port_graph_bindings : InternalPortGraph → List Binding
port_graph_bindings g = g.port ∷ g.configuration.interface ∷ []

abbrev pub includes : List Binding → Binding → Bool
includes bs b = any (same_binding b) bs

-- The bindings that the list does not hold yet, each once.
unfoldable pub add_missing : List Binding → List Binding → List Binding
add_missing out [] = out
add_missing out (b ∷ bs) = add_missing (if includes out b then out else out ++ (b ∷ [])) bs

replacement_of : List (ℕ × Binding) → List Binding → List Binding
replacement_of replacements [] = []
replacement_of replacements (b ∷ bs) =
    let rest = replacement_of replacements bs in
    elim (lookup b.ovs_uuid replacements) [ none ↦ rest | some r ↦ r ∷ rest ]

-- `TopologyCreations`
unfoldable pub topology_creations : TopologyChange → Bool → List Binding
unfolding replacement_of
topology_creations t restoration =
    if restoration
    then replacement_of t.replacements t.before
    else keep (λ b. not (includes t.before b)) t.after

-- `TopologyBindings`
unfoldable pub topology_bindings : TopologyChange → List Binding
topology_bindings t = add_missing t.before (t.after ++ t.restored)

-- `CreationBindings`
unfoldable pub creation_bindings : Intent → List Binding
creation_bindings i = elim i.topology [
  | some t ↦ topology_creations t false
  | none ↦ elim i.port_creation [
    | some p ↦ i.object ∷ p.interface ∷ []
    | none ↦ elim i.creation [ some c ↦ i.object ∷ c.port ∷ c.interface ∷ [] | none ↦ [] ]
  ]
]

abbrev swap : Change → Change
swap c = record { before = c.after; after = c.before }

-- The last case of `Reverse`
reverse_value : Intent → Intent
reverse_value i =
    if is_bond_operation i.operation
    then record i { before_bond = i.bond; bond = i.before_bond }
    else record i { before = i.value; value = i.before }

reverse_lifecycle : Intent → Intent
unfolding reverse_value
reverse_lifecycle i = elim i.port_deletion [
  | some d ↦ record i { port_deletion = some (record d { restoring = true; observed = false }) }
  | none ↦ elim i.port_creation [
    | some p ↦ record i {
      port_creation =
          some (record p { before_present = p.after_present; after_present = p.before_present });
    }
    | none ↦ elim i.deletion [
      | some d ↦ record i { deletion = some (record d { restoring = true; observed = false }) }
      | none ↦ elim i.creation [
        | some c ↦ record i {
          creation =
              some
                (record c { before_present = c.after_present; after_present = c.before_present });
        }
        | none ↦ reverse_value i
      ]
    ]
  ]
]

reverse_mtu : MtuChange → Intent → Intent
reverse_mtu m i = record i {
  operation = if is_some m.before then "interface.mtu.set" else "interface.mtu.clear";
  mtu = some (record m { before = m.after; after = m.before; compensating = true });
}

-- `Reverse`
unfoldable pub reverse : Intent → Intent
unfolding reverse_lifecycle reverse_mtu
reverse i = elim i.multicast [
  | some c ↦ record i { multicast = some (swap c) }
  | none ↦ elim i.isolation [
    | some c ↦ record i { isolation = some (swap c) }
    | none ↦ elim i.spanning_tree [
      | some c ↦ record i { spanning_tree = some (swap c) }
      | none ↦ elim i.topology [
        | some t ↦ record i { topology = some (record t { compensating = true; observed = false }) }
        | none ↦ elim i.policing [
          | some p ↦ record i {
            policing = some (record p { before = p.after; after = p.before; compensating = true });
          }
          | none ↦ elim i.mtu [ some m ↦ reverse_mtu m i | none ↦ reverse_lifecycle i ]
        ]
      ]
    ]
  ]
]

-- An intent that says no more than its operation and its object.
abbrev pub bare : ℕ → String → Binding → ℕ → ℕ → Intent
bare id operation object schema dependency = record {
  multicast = none;
  isolation = none;
  spanning_tree = none;
  topology = none;
  policing = none;
  mtu = none;
  id = id;
  operation = operation;
  object = object;
  value = 0;
  before = 0;
  dependency = dependency;
  schema = schema;
  bond = none;
  before_bond = none;
  creation = none;
  deletion = none;
  port_deletion = none;
  port_creation = none;
}

-- The graph that the deletion of an internal port is about now.
port_graph : InternalPortDeletion → InternalPortGraph
port_graph d = if d.restoring then d.replacement else d.source

deletion_graph : Intent → InternalPortDeletion → Intent
unfolding port_graph
deletion_graph i d =
    record (bare i.id internal_port_create (port_graph d).port i.schema i.dependency) {
      port_creation = some (record ((port_graph d).configuration) {
        before_present = if d.observed then d.restoring else not d.restoring;
        after_present = d.restoring;
      });
    }

-- `InternalPortGraphIntent`
unfoldable pub internal_port_graph_intent : Intent → Option Intent
unfolding deletion_graph
internal_port_graph_intent i =
    if str_eq i.operation internal_port_create
      && is_some i.port_creation
      && not (is_some i.port_deletion)
    then some i
    else if not (str_eq i.operation internal_port_delete) || is_some i.port_creation
    then none
    else elim i.port_deletion [ none ↦ none | some d ↦ some (deletion_graph i d) ]
