-- ===== src/Executions/Moves/Sound.antt =====
-- internal/repository/executions and internal/repository/inventory: what every transaction keeps of the
-- journal, the identities and the protections.
use ovs_webui.Prelude.{
  ℕ, ◌+◌, ◌≤◌, ◌≡◌, refl, sym, subst, Bool, true, false, not, List, [], ◌∷◌, ◌++◌, map, length,
  update, ◌==◌, count, keep, every, if◌then◌else◌, inl, inr, arith,
}
use ovs_webui.Execution
use ovs_webui.Store.{Tables, Identity, Protection}
use ovs_webui.Evidence.{Budget}
use ovs_webui.Inventory.Unique.{Unique, has_id, has_row}
use ovs_webui.Executions.{release_tables, retire}
use ovs_webui.Executions.Protections.{protects, is_field}
use ovs_webui.Executions.Protections.Exclusive.{Exclusive, others}
use ovs_webui.Executions.Admission.{has_room, max_records}
use ovs_webui.Executions.Admission.Steps.{admission-Admitted}
use ovs_webui.Executions.Moves.{Move, admits, sends, reports, watches, decides, Run, done, after}
use ovs_webui.Executions.Moves.Effects.{
  Rewritten, Written, save_outcome-Written, save_safety-Written, decide_tx-Written,
  before_send-Sending,
}

-- The journal is not over its capacity, no management identity and no row of Open vSwitch stands for
-- two objects, and no object is protected twice.
pub record Sound (t : Tables) : Type 0 where
  pub records : length t.executions ≤ max_records
  pub unique : Unique t.identities
  pub exclusive : Exclusive t.protections

length-update : {V : Type 0} (k : ℕ) (v : V) (m : List (ℕ × V)) → length (update k v m) ≡ length m
length-update k v [] = refl
length-update k v ((j, w) ∷ m) = ground (arith, length-update k v m)

length-append : {V : Type 0} (m : List V) (v : V) → length (m ++ (v ∷ [])) ≡ length m + 1
length-append [] v = refl
length-append (w ∷ m) v = ground (arith, length-append m v)

count-retire :
    (p : Identity → Bool) (id : ℕ) (is : List Identity)
    → ((i : Identity) → p (retire id i) ≡ p i)
    → count p (map (retire id) is) ≡ count p is
count-retire p id [] h = refl
count-retire p id (i ∷ is) h = rw (h i) (rw (count-retire p id is h) refl)

retire-Unique : (id : ℕ) (is : List Identity) → Unique is → Unique (map (retire id) is)
unfolding retire
retire-Unique id is k = record {
  by_id = λ m. rw (count-retire (has_id m) id is (λ i. refl)) (k.by_id m);
  by_row =
      λ g table u. rw (count-retire (has_row g table u) id is (λ i. refl)) (k.by_row g table u);
}

count-keep : {A : Type 0} (p q : A → Bool) (xs : List A) → count p (keep q xs) ≤ count p xs
count-keep p q [] = ground arith
count-keep p q (x ∷ xs) = ground (arith, count-keep p q xs)

every-keep :
    {A : Type 0} (p q : A → Bool) (xs : List A) → every p xs ≡ true → every p (keep q xs) ≡ true
every-keep p q [] h = refl
every-keep p q (x ∷ xs) h = ground (arith, every-keep p q xs)

others-Exclusive : (id : ℕ) (ps : List Protection) → Exclusive ps → Exclusive (others id ps)
others-Exclusive id ps k = record {
  once = λ r.
      let less = count-keep (protects r) (λ p. not (p.transaction == id)) ps in
      let most = k.once r in omega arith;
  known = every-keep is_field _ ps k.known;
}

released-Unique :
    (c : Bool) (id : ℕ) (t : Tables)
    → Unique t.identities
    → Unique (if c then (release_tables id t).identities else t.identities)
unfolding release_tables
released-Unique true id t k = retire-Unique id t.identities k
released-Unique false id t k = k

released-Exclusive :
    (c : Bool) (id : ℕ) (t : Tables)
    → Exclusive t.protections
    → Exclusive (if c then (release_tables id t).protections else t.protections)
unfolding release_tables
released-Exclusive true id t k = others-Exclusive id t.protections k
released-Exclusive false id t k = k

Rewritten-Sound :
    (old new : Execution.Record) (t u : Tables) → Rewritten old new t u → Sound t → Sound u
Rewritten-Sound old new t u x k = record {
  records = rw x.executions (rw (length-update old.id new t.executions) k.records);
  unique = subst Unique (sym x.identities) (released-Unique x.released old.id t k.unique);
  exclusive =
      subst Exclusive (sym x.protections) (released-Exclusive x.released old.id t k.exclusive);
}

Written-Sound : (t u : Tables) → Written t u → Sound t → Sound u
Written-Sound t u (old, new, x, onward) k = Rewritten-Sound old new t u x k

room-records : (t : Tables) → has_room t ≡ true → length t.executions + 1 ≤ max_records
unfolding has_room
room-records t h = ground arith

module _ (b : Budget) where
  move-Sound : {t u : Tables} → Move b t u → Sound t → Sound u
  move-Sound {t} {u} (admits v q c safe m h) k =
      let x = admission-Admitted v b q c safe t u m h in
      record {
        records = rw x.executions (rw (length-append t.executions _) (room-records t x.room));
        unique = x.unique k.unique;
        exclusive = x.exclusive k.exclusive;
      }
  move-Sound {t} {u} (sends v id c safe h) k =
      let x = before_send-Sending b v id c safe t u h in
      Rewritten-Sound x.current x.next t u x.rewritten k
  move-Sound {t} {u} (reports id o now h) k = elim (save_outcome-Written b t u id o now h) [
    | inl e ↦ subst Sound e k
    | inr w ↦ Written-Sound t u w k
  ]
  move-Sound {t} {u} (watches r s now h) k =
      Written-Sound t u (save_safety-Written b t u r s now h) k
  move-Sound {t} {u} (decides v r s id sequence choice o h) k =
      Written-Sound t u (decide_tx-Written b v r s t u id sequence choice o h) k

  -- Every run of the transactions keeps the journal within its capacity, the identities of objects
  -- distinct, and each object protected at most once.
  pub run-Sound : {t u : Tables} → Run b t u → Sound t → Sound u
  run-Sound done k = k
  run-Sound (after m r) k = run-Sound r (move-Sound m k)
