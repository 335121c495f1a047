-- ===== src/Inventory.antt =====
-- internal/repository/inventory/creation.go: the identities that an execution reserves in the
-- transaction of its admission, for what it creates and for what its rollback would create again.
pub mod Unique
pub mod Registry
mod Examples
use ovs_webui.Prelude.{
  ℕ, ◌+◌, Bool, true, false, not, ◌&&◌, ◌||◌, str_eq, List, [], ◌∷◌, ◌++◌, Option, none, some, leb,
  ◌==◌, count, length,
}
use ovs_webui.Candidate.{
  Binding, Intent, BridgeCreation, InternalPortCreation, BridgeDeletion, InternalPortDeletion,
  TopologyChange, bridge_create, bridge_delete, internal_port_create, internal_port_delete,
  topology_creations, creation_bindings, reverse, internal_port_graph_intent, bare,
}
use ovs_webui.Store.{
  Identity, pending as reserved, Tx, pure, fail, gets, guard, modify, choose, ◌>>=◌, ◌>>◌, chain,
  identity_registry_full, creation_identity_consumed, invalid_creation_reservation,
  invalid_restoration_reservation,
}

abbrev pub max_identities : ℕ
max_identities = 16384

-- WHERE management_id=? OR (generation=? AND table_name=? AND ovs_uuid=?)
abbrev pub consumes : Binding → Identity → Bool
consumes b i =
    i.binding.management_id == b.management_id
    || (i.binding.generation == b.generation
        && str_eq i.binding.table b.table
        && i.binding.ovs_uuid == b.ovs_uuid)

abbrev pub pending_identity : ℕ → ℕ → Binding → Identity
pending_identity id marker b = record {
  binding = b;
  state = reserved;
  creation = some id;
  marker = marker;
}

module _ (id marker : ℕ) where
  -- The body of the loop of `reserveTopology`, which is that of `ReserveCreations` too.
  unfoldable pub reserve_binding : Binding → Tx (Unit {0})
  reserve_binding b = do
    n ← gets (λ t. count (consumes b) t.identities)
    guard (n == 0) creation_identity_consumed
    modify (λ t. record t { identities = t.identities ++ (pending_identity id marker b ∷ []) })

  unfoldable pub reserve_each : List Binding → Tx (Unit {0})
  reserve_each [] = pure tt
  reserve_each (b ∷ bs) = reserve_binding b >> reserve_each bs

  -- `reserveTopology`
  unfoldable pub reserve_bindings : List Binding → Tx (Unit {0})
  reserve_bindings bs = do
    n ← gets (λ t. length t.identities)
    guard (leb (n + length bs) max_identities) identity_registry_full
    reserve_each bs

  appears : Option BridgeCreation → Bool
  appears none = false
  appears (some c) = not c.before_present && c.after_present

  port_appears : Option InternalPortCreation → Bool
  port_appears none = false
  port_appears (some c) = not c.before_present && c.after_present

  pub is_creation : Intent → Bool
  unfolding appears port_appears
  is_creation i =
      (str_eq i.operation bridge_create && appears i.creation)
      || (str_eq i.operation internal_port_create && port_appears i.port_creation)

  unfoldable pub reserve_creation : Intent → Option TopologyChange → Tx (Unit {0})
  reserve_creation i (some t) = reserve_bindings (topology_creations t false)
  reserve_creation i none =
      choose
        (not (str_eq i.operation bridge_create) && not (str_eq i.operation internal_port_create))
        (pure tt)
        (guard (is_creation i) invalid_creation_reservation
          >> reserve_bindings (creation_bindings i))

  -- `ReserveCreations`
  unfoldable pub reserve_creations : List Intent → Tx (Unit {0})
  reserve_creations [] = pure tt
  reserve_creations (i ∷ is) = reserve_creation i i.topology >> reserve_creations is

  unfoldable pub restore_graph : Option Intent → Tx (Unit {0})
  restore_graph none = fail invalid_restoration_reservation
  restore_graph (some i) = reserve_creations (i ∷ [])

  unfoldable pub restore_port : Intent → Option InternalPortDeletion → Tx (Unit {0})
  restore_port i none = fail invalid_restoration_reservation
  restore_port i (some d) =
      choose (d.restoring || d.observed) (fail invalid_restoration_reservation)
        (restore_graph (internal_port_graph_intent (reverse i)))

  -- The creation of the Bridge that would replace a deleted one.
  pub bridge_restoration : BridgeDeletion → Intent
  bridge_restoration d = record (bare 0 bridge_create d.replacement.bridge 0 0) {
    creation = some (record {
      name = d.replacement.name;
      root = d.replacement.root;
      port = d.replacement.port;
      interface = d.replacement.interface;
      before_present = false;
      after_present = true;
    });
  }

  unfoldable pub restore_bridge : Option BridgeDeletion → Tx (Unit {0})
  restore_bridge none = fail invalid_restoration_reservation
  restore_bridge (some d) =
      choose (d.restoring || d.observed) (fail invalid_restoration_reservation)
        (reserve_creations (bridge_restoration d ∷ []))

  unfoldable pub reserve_restoration : Intent → Option TopologyChange → Tx (Unit {0})
  reserve_restoration i (some t) = reserve_bindings (topology_creations t true)
  reserve_restoration i none =
      choose (str_eq i.operation internal_port_delete) (restore_port i i.port_deletion)
        (choose (str_eq i.operation bridge_delete) (restore_bridge i.deletion) (pure tt))

  -- `ReserveRestorations`
  unfoldable pub reserve_restorations : List Intent → Tx (Unit {0})
  reserve_restorations [] = pure tt
  reserve_restorations (i ∷ is) = reserve_restoration i i.topology >> reserve_restorations is
