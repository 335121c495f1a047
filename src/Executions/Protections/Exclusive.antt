-- ===== src/Executions/Protections/Exclusive.antt =====
-- internal/repository/executions/engine.go and bridge_delete.go: no object has two protections.
use ovs_webui.Prelude.{
  ℕ, ◌≤◌, ◌≡◌, refl, ap, ◌∙◌, subst, Bool, true, not, ◌&&◌, String, List, [], ◌∷◌, ◌++◌, Option,
  none, some, ◌==◌, if◌then◌else◌, count, every, keep, arith, Bool-cases, inl, inr,
}
use ovs_webui.Candidate.{
  Binding, Intent, TopologyChange, MtuChange, InternalPortDeletion, InternalPortCreation,
  BridgeDeletion, BridgeCreation, is_bond_operation,
}
use ovs_webui.Store.{Protection, Tables, ok, chain, chain-ok, guard-ok, choose-ok, ok-injective}
use ovs_webui.Inventory.Unique.{count-append_fresh}
use ovs_webui.Executions.Protections.{
  protects, is_field, add_protection, protect, protect_bindings, protect_graph, protect_field,
  protect_deletion, protect_port_creation, protect_port_deletion, protect_mtu, protect_topology,
  protect_native_graph, protect_intent, protect_intents, field_of,
}

-- Every object is protected at most once, and only in the known fields.
pub record Exclusive (ps : List Protection) : Type 0 where
  pub once : (resource : ℕ) → count (protects resource) ps ≤ 1
  pub known : every is_field ps ≡ true

abbrev pub others : ℕ → List Protection → List Protection
others id ps = keep (λ p. not (p.transaction == id)) ps

-- What the protections that a transaction takes do to the tables.
pub record Protected (id : ℕ) (t u : Tables) : Type 0 where
  pub rest : u ≡ record t { protections = u.protections }
  pub exclusive : Exclusive t.protections → Exclusive u.protections
  pub others_kept : others id u.protections ≡ others id t.protections

every-append :
    (p : Protection → Bool) (ps : List Protection) (x : Protection)
    → every p ps ≡ true
    → p x ≡ true
    → every p (ps ++ (x ∷ [])) ≡ true
every-append p [] x h e = rw e refl
every-append p (y ∷ ps) x h e = ground (arith, every-append p ps x)

others-append :
    (id : ℕ) (ps : List Protection) (x : Protection)
    → x.transaction ≡ id
    → others id (ps ++ (x ∷ [])) ≡ others id ps
others-append id [] x e = ground arith
others-append id (y ∷ ps) x e = ground (arith, others-append id ps x e)

count-every :
    {A : Type 0} (p q : A → Bool) (xs : List A)
    → every q xs ≡ true
    → count (λ x. p x && q x) xs ≡ count p xs
count-every p q [] k = refl
count-every p q (x ∷ xs) k = ground (arith, count-every p q xs)

Exclusive-insert :
    (id resource : ℕ) (field : String) (ps : List Protection)
    → is_field (record { resource = resource; field = field; transaction = id }) ≡ true
    → (count (protects resource) ps == 0) ≡ true
    → Exclusive ps
    → Exclusive (ps ++ (record { resource = resource; field = field; transaction = id } ∷ []))
Exclusive-insert id resource field ps f z k = record {
  once = λ m.
      count-append_fresh (protects m) (protects resource) ps
        (record { resource = resource; field = field; transaction = id }) z (λ e p h. ground arith)
        (k.once m);
  known = every-append is_field ps _ k.known f;
}

module _ (id : ℕ) where
  Protected-refl : (t u : Tables) → t ≡ u → Protected id t u
  Protected-refl t u e =
      subst (Protected id t) e (record { rest = refl; exclusive = λ k. k; others_kept = refl })

  Protected-trans : {t u v : Tables} → Protected id t u → Protected id u v → Protected id t v
  Protected-trans {t} {u} {v} a c = record {
    rest =
        c.rest
        ∙ ap {A = Tables} {B = Tables} (λ z. record z { protections = v.protections }) a.rest;
    exclusive = λ k. c.exclusive (a.exclusive k);
    others_kept = c.others_kept ∙ a.others_kept;
  }

  Protected-insert :
      (resource : ℕ) (field : String) (t u : Tables)
      → is_field (record { resource = resource; field = field; transaction = id }) ≡ true
      → (every is_field t.protections ≡ true
          → (count (protects resource) t.protections == 0) ≡ true)
      → add_protection id resource field t ≡ ok (tt, u)
      → Protected id t u
  Protected-insert resource field t u f z h = subst (Protected id t) (ok-injective h).1 (record {
    rest = refl;
    exclusive = λ k. Exclusive-insert id resource field t.protections f (z k.known) k;
    others_kept = others-append id t.protections _ refl;
  })

  protect-Protected :
      (resource : ℕ) (field : String) (t u : Tables)
      → is_field (record { resource = resource; field = field; transaction = id }) ≡ true
      → protect id resource field t ≡ ok (tt, u)
      → Protected id t u
  unfolding protect chain
  protect-Protected resource field t u f h =
      let (z, h1) = guard-ok _ _ _ _ h in Protected-insert resource field t u f (λ k. z) h1

  protect_field-Protected :
      (resource : ℕ) (field : String) (t u : Tables)
      → is_field (record { resource = resource; field = field; transaction = id }) ≡ true
      → protect_field id resource field t ≡ ok (tt, u)
      → Protected id t u
  unfolding protect_field chain
  protect_field-Protected resource field t u f h =
      let (z, h1) = guard-ok _ _ _ _ h in
      Protected-insert resource field t u f
        (λ k.
          subst (λ n. (n == 0) ≡ true) (count-every (protects resource) is_field t.protections k) z)
        h1

  protect_bindings-Protected :
      (bs : List Binding) (t u : Tables) → protect_bindings id bs t ≡ ok (tt, u) → Protected id t u
  unfolding protect_bindings
  protect_bindings-Protected [] t u h = Protected-refl t u (ok-injective h).1
  protect_bindings-Protected (b ∷ bs) t u h =
      let (_, v, s1, s2) = chain-ok _ _ h in
      Protected-trans (protect-Protected b.management_id "object.lifecycle" t v refl s1)
        (protect_bindings-Protected bs v u s2)

  protect_graph-Protected :
      (root : ℕ) (bs : List Binding) (t u : Tables)
      → protect_graph id root bs t ≡ ok (tt, u)
      → Protected id t u
  unfolding protect_graph
  protect_graph-Protected root bs t u h =
      let (_, v, s1, s2) = chain-ok _ _ h in
      Protected-trans (protect-Protected root "root.bridge-creation" t v refl s1)
        (protect_bindings-Protected bs v u s2)

  bond-known :
      (op field : String) (resource : ℕ)
      → is_field (record { resource = resource; field = field; transaction = id }) ≡ true
      → is_field (record {
        resource = resource;
        field = if is_bond_operation op then "port.bond" else field;
        transaction = id;
      })
        ≡ true
  bond-known op field resource f = elim (Bool-cases (is_bond_operation op)) [
    | inl e ↦ rw e refl
    | inr e ↦ rw e f
  ]

  field_of-known :
      (i : Intent) (c : Option BridgeCreation) (resource : ℕ)
      → is_field (record { resource = resource; field = field_of i c; transaction = id }) ≡ true
  field_of-known i (some c) resource = bond-known i.operation "root.bridge-creation" resource refl
  field_of-known i none resource = bond-known i.operation "port.vlan" resource refl

  protect_deletion-Protected :
      (i : Intent) (o : Option BridgeDeletion) (t u : Tables)
      → protect_deletion id i o t ≡ ok (tt, u)
      → Protected id t u
  unfolding protect_deletion
  protect_deletion-Protected i (some d) t u h = protect_graph-Protected _ _ t u h
  protect_deletion-Protected i none t u h =
      protect_field-Protected _ _ t u (field_of-known i i.creation 0) h

  protect_port_creation-Protected :
      (i : Intent) (o : Option InternalPortCreation) (t u : Tables)
      → protect_port_creation id i o t ≡ ok (tt, u)
      → Protected id t u
  unfolding protect_port_creation
  protect_port_creation-Protected i (some d) t u h = protect_graph-Protected _ _ t u h
  protect_port_creation-Protected i none t u h = protect_deletion-Protected i i.deletion t u h

  protect_port_deletion-Protected :
      (i : Intent) (o : Option InternalPortDeletion) (t u : Tables)
      → protect_port_deletion id i o t ≡ ok (tt, u)
      → Protected id t u
  unfolding protect_port_deletion
  protect_port_deletion-Protected i (some d) t u h = protect_graph-Protected _ _ t u h
  protect_port_deletion-Protected i none t u h =
      protect_port_creation-Protected i i.port_creation t u h

  module _ (root : ℕ) (graph : List Binding) where
    protect_mtu-Protected :
        (i : Intent) (o : Option MtuChange) (t u : Tables)
        → protect_mtu id root graph i o t ≡ ok (tt, u)
        → Protected id t u
    unfolding protect_mtu
    protect_mtu-Protected i (some d) t u h = protect_graph-Protected _ _ t u h
    protect_mtu-Protected i none t u h = protect_port_deletion-Protected i i.port_deletion t u h

    protect_topology-Protected :
        (i : Intent) (o : Option TopologyChange) (t u : Tables)
        → protect_topology id root graph i o t ≡ ok (tt, u)
        → Protected id t u
    unfolding protect_topology
    protect_topology-Protected i (some d) t u h = protect_graph-Protected _ _ t u h
    protect_topology-Protected i none t u h = protect_mtu-Protected i i.mtu t u h

    protect_native_graph-Protected :
        (op : String) (bs : List Binding) (t u : Tables)
        → protect_native_graph id root graph op bs t ≡ ok (tt, u)
        → Protected id t u
    unfolding protect_native_graph
    protect_native_graph-Protected op [] t u h = cc
    protect_native_graph-Protected op (b ∷ bs) t u h = protect_graph-Protected root _ t u h

    protect_intent-Protected :
        (i : Intent) (t u : Tables)
        → protect_intent id root graph i t ≡ ok (tt, u)
        → Protected id t u
    unfolding protect_intent
    protect_intent-Protected i t u h =
        choose-ok _ _ _ t (protect_native_graph-Protected _ _ t u)
          (protect_topology-Protected i i.topology t u) h

    pub protect_intents-Protected :
        (is : List Intent) (t u : Tables)
        → protect_intents id root graph is t ≡ ok (tt, u)
        → Protected id t u
    unfolding protect_intents
    protect_intents-Protected [] t u h = Protected-refl t u (ok-injective h).1
    protect_intents-Protected (i ∷ is) t u h =
        let (_, v, s1, s2) = chain-ok _ _ h in
        Protected-trans (protect_intent-Protected i t v s1) (protect_intents-Protected is v u s2)
