-- ===== src/Inventory/Unique.antt =====
-- internal/repository/inventory/creation.go: identities are never shared.
use ovs_webui.Prelude.{
  ℕ, ◌+◌, ◌≤◌, ◌≡◌, refl, sym, ap, ◌∙◌, subst, Bool, true, ◌&&◌, String, str_eq, List, [], ◌∷◌,
  ◌++◌, Option, none, some, ◌==◌, eq_iff, &&-true, Bool-cases, inl, inr, if◌then◌else◌, count,
  arith,
}
use ovs_webui.Candidate.{Binding, Intent, TopologyChange, BridgeDeletion, InternalPortDeletion}
use ovs_webui.Store.{
  Identity, Tables, Error, Result, err, ok, chain, chain-ok, guard-ok, choose-ok, ok-injective,
}
use ovs_webui.Inventory.{
  consumes, pending_identity, reserve_binding, reserve_each, reserve_bindings, reserve_creations,
  reserve_restorations, reserve_creation, reserve_restoration, restore_port, restore_graph,
  restore_bridge,
}

abbrev pub has_id : ℕ → Identity → Bool
has_id m i = i.binding.management_id == m

abbrev pub has_row : ℕ → String → ℕ → Identity → Bool
has_row g table u i =
    i.binding.generation == g && str_eq i.binding.table table && i.binding.ovs_uuid == u

-- No management identity and no row of Open vSwitch stands for two objects.
pub record Unique (is : List Identity) : Type 0 where
  pub by_id : (m : ℕ) → count (has_id m) is ≤ 1
  pub by_row : (g : ℕ) (table : String) (u : ℕ) → count (has_row g table u) is ≤ 1

pub count-append {ℓ} :
    {A : Type ℓ} (p : A → Bool) (xs : List A) (x : A)
    → count p (xs ++ (x ∷ [])) ≡ count p xs + (if p x then 1 else 0)
count-append p [] x = ground arith
count-append p (y ∷ xs) x = ground (arith, count-append p xs x)

pub count-below {ℓ} :
    {A : Type ℓ} (p q : A → Bool) (xs : List A)
    → ((x : A) → p x ≡ true → q x ≡ true)
    → count p xs ≤ count q xs
count-below p q [] h = ground arith
count-below p q (x ∷ xs) h = ground (arith, count-below p q xs h, h x)

-- One more row, which no row of its kind stands against.
pub count-append_fresh {ℓ} :
    {A : Type ℓ} (p q : A → Bool) (xs : List A) (x : A)
    → (count q xs == 0) ≡ true
    → (p x ≡ true → (y : A) → p y ≡ true → q y ≡ true)
    → count p xs ≤ 1
    → count p (xs ++ (x ∷ [])) ≤ 1
count-append_fresh p q xs x z f k = rw (count-append p xs x) (elim (Bool-cases (p x)) [
  | inl e ↦ let below = count-below p q xs (f e) in rw e (ground arith)
  | inr e ↦ rw e (ground arith)
])

has_row-consumes :
    (b : Binding) (g : ℕ) (table : String) (u : ℕ) (i : Identity)
    → (b.generation == g && str_eq b.table table && b.ovs_uuid == u) ≡ true
    → has_row g table u i ≡ true
    → consumes b i ≡ true
has_row-consumes b g table u i e h =
    let (e1, e3) = &&-true (b.generation == g && str_eq b.table table) (b.ovs_uuid == u) e in
    let (e0, e2) = &&-true (b.generation == g) (str_eq b.table table) e1 in
    let same = (eq_iff b.table table).0 e2 in
    let h' = subst (λ z. has_row g z u i ≡ true) (sym same) h in ground arith

Unique-insert :
    (is : List Identity) (id marker : ℕ) (b : Binding)
    → (count (consumes b) is == 0) ≡ true
    → Unique is
    → Unique (is ++ (pending_identity id marker b ∷ []))
Unique-insert is id marker b z k = record {
  by_id = λ m.
      count-append_fresh (has_id m) (consumes b) is (pending_identity id marker b) z
        (λ e i h. ground arith) (k.by_id m);
  by_row = λ g table u.
      count-append_fresh (has_row g table u) (consumes b) is (pending_identity id marker b) z
        (λ e i h. has_row-consumes b g table u i e h) (k.by_row g table u);
}

-- What a reservation does to the tables.
pub record Reserved (t u : Tables) : Type 0 where
  pub rest : u ≡ record t { identities = u.identities }
  pub unique : Unique t.identities → Unique u.identities

Reserved-refl : (t u : Tables) → t ≡ u → Reserved t u
Reserved-refl t u e = subst (Reserved t) e (record { rest = refl; unique = λ k. k })

Reserved-trans : {t u v : Tables} → Reserved t u → Reserved u v → Reserved t v
Reserved-trans {t} {u} {v} a c = record {
  rest = c.rest ∙ ap {A = Tables} {B = Tables} (λ z. record z { identities = v.identities }) a.rest;
  unique = λ k. c.unique (a.unique k);
}

refused_Reserved :
    {e : Error} (t u : Tables)
    → ◌≡◌ {A = Result (Unit {0} × Tables)} (err e) (ok (tt, u))
    → Reserved t u
refused_Reserved t u h = cc

module _ (id marker : ℕ) where
  reserve_binding-Reserved :
      (b : Binding) (t u : Tables) → reserve_binding id marker b t ≡ ok (tt, u) → Reserved t u
  unfolding reserve_binding chain
  reserve_binding-Reserved b t u h =
      let (z, h1) = guard-ok _ _ _ _ h in
      let e = (ok-injective h1).1 in
      subst (Reserved t) e
        (record { rest = refl; unique = Unique-insert t.identities id marker b z })

  reserve_each-Reserved :
      (bs : List Binding) (t u : Tables) → reserve_each id marker bs t ≡ ok (tt, u) → Reserved t u
  unfolding reserve_each
  reserve_each-Reserved [] t u h = Reserved-refl t u (ok-injective h).1
  reserve_each-Reserved (b ∷ bs) t u h =
      let (_, v, s1, s2) = chain-ok _ _ h in
      Reserved-trans (reserve_binding-Reserved b t v s1) (reserve_each-Reserved bs v u s2)

  reserve_bindings-Reserved :
      (bs : List Binding) (t u : Tables)
      → reserve_bindings id marker bs t ≡ ok (tt, u)
      → Reserved t u
  unfolding reserve_bindings chain
  reserve_bindings-Reserved bs t u h = reserve_each-Reserved bs t u (guard-ok _ _ _ _ h).1

  reserve_creation-Reserved :
      (i : Intent) (g : Option TopologyChange) (t u : Tables)
      → reserve_creation id marker i g t ≡ ok (tt, u)
      → Reserved t u
  unfolding reserve_creation
  reserve_creation-Reserved i (some g) t u h = reserve_bindings-Reserved _ t u h
  reserve_creation-Reserved i none t u h =
      choose-ok _ _ _ t (λ e. Reserved-refl t u (ok-injective e).1)
        (λ e. reserve_bindings-Reserved _ t u (guard-ok _ _ _ _ e).1) h

  pub reserve_creations-Reserved :
      (is : List Intent) (t u : Tables)
      → reserve_creations id marker is t ≡ ok (tt, u)
      → Reserved t u
  unfolding reserve_creations
  reserve_creations-Reserved [] t u h = Reserved-refl t u (ok-injective h).1
  reserve_creations-Reserved (i ∷ is) t u h =
      let (_, v, s1, s2) = chain-ok _ _ h in
      Reserved-trans (reserve_creation-Reserved i i.topology t v s1)
        (reserve_creations-Reserved is v u s2)

  restore_graph-Reserved :
      (o : Option Intent) (t u : Tables) → restore_graph id marker o t ≡ ok (tt, u) → Reserved t u
  unfolding restore_graph
  restore_graph-Reserved none t u h = refused_Reserved t u h
  restore_graph-Reserved (some i) t u h = reserve_creations-Reserved (i ∷ []) t u h

  restore_port-Reserved :
      (i : Intent) (o : Option InternalPortDeletion) (t u : Tables)
      → restore_port id marker i o t ≡ ok (tt, u)
      → Reserved t u
  unfolding restore_port
  restore_port-Reserved i none t u h = refused_Reserved t u h
  restore_port-Reserved i (some d) t u h =
      choose-ok _ _ _ t (refused_Reserved t u) (restore_graph-Reserved _ t u) h

  restore_bridge-Reserved :
      (o : Option BridgeDeletion) (t u : Tables)
      → restore_bridge id marker o t ≡ ok (tt, u)
      → Reserved t u
  unfolding restore_bridge
  restore_bridge-Reserved none t u h = refused_Reserved t u h
  restore_bridge-Reserved (some d) t u h =
      choose-ok _ _ _ t (refused_Reserved t u) (reserve_creations-Reserved _ t u) h

  reserve_restoration-Reserved :
      (i : Intent) (g : Option TopologyChange) (t u : Tables)
      → reserve_restoration id marker i g t ≡ ok (tt, u)
      → Reserved t u
  unfolding reserve_restoration
  reserve_restoration-Reserved i (some g) t u h = reserve_bindings-Reserved _ t u h
  reserve_restoration-Reserved i none t u h =
      choose-ok _ _ _ t (restore_port-Reserved i i.port_deletion t u)
        (choose-ok _ _ _ t (restore_bridge-Reserved i.deletion t u)
          (λ e. Reserved-refl t u (ok-injective e).1))
        h

  pub reserve_restorations-Reserved :
      (is : List Intent) (t u : Tables)
      → reserve_restorations id marker is t ≡ ok (tt, u)
      → Reserved t u
  unfolding reserve_restorations
  reserve_restorations-Reserved [] t u h = Reserved-refl t u (ok-injective h).1
  reserve_restorations-Reserved (i ∷ is) t u h =
      let (_, v, s1, s2) = chain-ok _ _ h in
      Reserved-trans (reserve_restoration-Reserved i i.topology t v s1)
        (reserve_restorations-Reserved is v u s2)
