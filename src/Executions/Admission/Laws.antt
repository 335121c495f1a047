-- ===== src/Executions/Admission/Laws.antt =====
-- internal/repository/executions/engine.go and safety.go: what an admission keeps within bounds, and
-- what the release of an execution gives back.
use ovs_webui.Prelude.{
  ℕ, ◌+◌, ◌≤◌, ◌≡◌, refl, sym, ◌∙◌, subst, Bool, true, false, not, List, [], ◌∷◌, ◌++◌, Option,
  lookup, ◌==◌, count, every, if◌then◌else◌, arith,
}
use ovs_webui.Execution.{Authorization, Record}
use ovs_webui.Safety
use ovs_webui.Store.{Tables, Protection, ok}
use ovs_webui.Evidence.{Budget}
use ovs_webui.Inventory.Unique.{count-append, count-append_fresh}
use ovs_webui.Requests.{Mutation}
use ovs_webui.Requests.Once.{Completes}
use ovs_webui.Requests.Once.Rows.{RowsKept, RowsKept-refl}
use ovs_webui.Executions.{settled_safely, release_tables}
use ovs_webui.Executions.Protections.Exclusive.{others}
use ovs_webui.Executions.Admission.{
  Told, Request, SafeAdmission, has_room, is_unsettled, holds, max_unsettled, admission,
  admitted_record, preparing_record,
}
use ovs_webui.Executions.Admission.Steps.{Guarded, alone, guarded, admission-Admitted}

-- At most sixteen executions are under way, and at most one Safe Apply guards a management path.
pub record Bounded (t : Tables) : Type 0 where
  pub under_way : count (is_unsettled t.safe_applies) t.executions ≤ max_unsettled
  pub paths : (domain : ℕ) → count (holds domain) t.safe_applies ≤ 1

count-same :
    {A : Type 0} (p q : A → Bool) (xs : List A) → ((x : A) → p x ≡ q x) → count p xs ≡ count q xs
count-same p q [] h = refl
count-same p q (x ∷ xs) h = rw (h x) (rw (count-same p q xs h) refl)

settled-append :
    (k id : ℕ) (s : Safety.Record) (rows : List (ℕ × Safety.Record))
    → Safety.terminal s.state ≡ false
    → settled_safely (lookup k (rows ++ ((id, s) ∷ []))) ≡ settled_safely (lookup k rows)
unfolding settled_safely
settled-append k id s [] h = ground arith
settled-append k id s ((j, x) ∷ rows) h = ground (arith, settled-append k id s rows h)

module _ (v : Told) where
  preparing-open : (a : SafeAdmission) → Safety.terminal (preparing_record v a).state ≡ false
  unfolding preparing_record
  preparing-open a = refl

  Guarded-unsettled :
      (r : Record) (t u : Tables) (o : Option SafeAdmission) (x : ℕ × Record)
      → Guarded v r t u o
      → is_unsettled u.safe_applies x ≡ is_unsettled t.safe_applies x
  Guarded-unsettled r t u _ (k, y) (alone e) = rw e refl
  Guarded-unsettled r t u _ (k, y) (guarded a n m e) =
      rw e
        (rw (settled-append k r.id (preparing_record v a) t.safe_applies (preparing-open a)) refl)

  holds_same :
      (a : SafeAdmission) (domain id : ℕ) (y : ℕ × Safety.Record)
      → holds domain (id, preparing_record v a) ≡ true
      → holds domain y ≡ true
      → holds v.domain y ≡ true
  unfolding preparing_record
  holds_same a domain id y f g = ground arith

  Guarded-paths :
      (r : Record) (t u : Tables) (o : Option SafeAdmission) (domain : ℕ)
      → Guarded v r t u o
      → count (holds domain) t.safe_applies ≤ 1
      → count (holds domain) u.safe_applies ≤ 1
  Guarded-paths r t u _ domain (alone e) k = rw e k
  Guarded-paths r t u _ domain (guarded a n m e) k = rw e (
      count-append_fresh (holds domain) (holds v.domain) t.safe_applies (r.id, preparing_record v a)
        n (λ f y g. holds_same a domain r.id y f g) k)

fits_room :
    (t : Tables)
    → has_room t ≡ true
    → (c : Bool)
    → count (is_unsettled t.safe_applies) t.executions + (if c then 1 else 0) ≤ max_unsettled
unfolding has_room
fits_room t h c = ground arith

module _ (v : Told) (b : Budget) (q : Request) (c : Authorization)
    (safe : Option SafeAdmission) where
  -- An admission keeps the executions under way within their bound, and at most one Safe Apply on each
  -- management path.
  pub admission-Bounded :
      (t u : Tables) (m : Mutation) → admission v b q c safe t ≡ ok (m, u) → Bounded t → Bounded u
  admission-Bounded t u m h k =
      let x = admission-Admitted v b q c safe t u m h in
      let grown =
        count-append (is_unsettled u.safe_applies) t.executions (v.id, admitted_record v q c) in
      let same =
        count-same (is_unsettled u.safe_applies) (is_unsettled t.safe_applies) t.executions
          (λ y. Guarded-unsettled v _ t u safe y x.safe_apply) in
      record {
        under_way = rw x.executions (rw grown (rw same (fits_room t x.room _)));
        paths = λ d. Guarded-paths v _ t u safe d x.safe_apply (k.paths d);
      }

  -- An admission leaves the receipts of requests alone.
  pub admission-Completes : (now : ℕ) → Completes now (admission v b q c safe)
  admission-Completes now t m u h =
      let x = admission-Admitted v b q c safe t u m h in
      subst (RowsKept now t.receipts) (sym x.receipts) (RowsKept-refl now t.receipts)

  others_all :
      (id : ℕ) (ps : List Protection)
      → every (λ p. not (p.transaction == id)) ps ≡ true
      → others id ps ≡ ps
  others_all id [] h = refl
  others_all id (p ∷ ps) h = ground (arith, others_all id ps)

  -- What an execution protects is given back when it is released, if the new execution protected
  -- nothing before.
  pub release-admission :
      (t u : Tables) (m : Mutation)
      → admission v b q c safe t ≡ ok (m, u)
      → every (λ p. not (p.transaction == v.id)) t.protections ≡ true
      → (release_tables v.id u).protections ≡ t.protections
  unfolding release_tables
  release-admission t u m h none_before =
      let x = admission-Admitted v b q c safe t u m h in
      x.others_kept ∙ others_all v.id t.protections none_before
