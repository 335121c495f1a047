-- ===== src/Executions/Admission/Steps.antt =====
-- internal/repository/executions/engine.go: the steps of an admission that went through, and the tables
-- between them.
use ovs_webui.Prelude.{
  ℕ, ◌≡◌, refl, sym, ap, ◌∙◌, subst, true, false, [], ◌∷◌, ◌++◌, Option, none, some, count, any,
  lookup, is_some, ◌==◌, arith,
}
use ovs_webui.Execution.{Authorization, Record}
use ovs_webui.Jobs.{Job, Entry}
use ovs_webui.Store.{Tables, ok, chain, guard, chain-ok, guard-ok, ok-injective}
use ovs_webui.Evidence.{Budget, append}
use ovs_webui.Evidence.Creation.{Draft, create_job, insert_job}
use ovs_webui.Inventory.Unique.{
  Unique, Reserved, reserve_creations-Reserved, reserve_restorations-Reserved,
}
use ovs_webui.Requests.{Mutation}
use ovs_webui.Executions.Protections.Exclusive.{
  Exclusive, others, Protected, protect_intents-Protected,
}
use ovs_webui.Executions.Admission.Checks.{refuse-same, unchanged-ok}
use ovs_webui.Executions.Admission.{
  Told, Request, SafeAdmission, same_authorization, has_room, holds, admit_safety, admit_safely,
  insert_safety, preparing_record, insert_journal, insert_execution, reserve, enter, admission,
  admitted_record, same_row,
}

-- A record of evidence adds entries, and nothing else.
append-exact :
    (b : Budget) (e : Entry) (t u : Tables)
    → append b e t ≡ ok (tt, u)
    → u ≡ record t { entries = u.entries }
unfolding append chain guard
append-exact b e t u h = ground arith

insert_job-exact :
    (b : Budget) (j : Job) (t u : Tables)
    → insert_job b j t ≡ ok (tt, u)
    → u ≡ record t { revision = u.revision; jobs = u.jobs }
unfolding insert_job chain guard
insert_job-exact b j t u h = ground arith

create_job-exact :
    (b : Budget) (d : Draft) (t u : Tables) (j : Job)
    → create_job b d t ≡ ok (j, u)
    → u ≡ record t { revision = u.revision; jobs = u.jobs; entries = u.entries }
unfolding create_job chain
create_job-exact b d t u j h =
    let (e1, h1) = guard-ok _ _ _ _ h in
    let (e2, h2) = guard-ok _ _ _ _ h1 in
    let (e3, h3) = guard-ok _ _ _ _ h2 in
    let (e4, h4) = guard-ok _ _ _ _ h3 in
    let (_, v, s1, h5) = chain-ok _ _ h4 in
    let (_, x, s2, h6) = chain-ok _ _ h5 in
    let a = insert_job-exact b _ t v s1 in
    let c = append-exact b _ v x s2 in let e = (ok-injective h6).1 in ground arith

-- The reservations of an admission.
pub record Reservation (id : ℕ) (t u : Tables) : Type 0 where
  pub rest : u ≡ record t { identities = u.identities; protections = u.protections }
  pub unique : Unique t.identities → Unique u.identities
  pub exclusive : Exclusive t.protections → Exclusive u.protections
  pub others_kept : others id u.protections ≡ others id t.protections

assemble-Reservation :
    (id : ℕ) (t w x u : Tables)
    → Reserved t w
    → Reserved w x
    → Protected id x u
    → Reservation id t u
assemble-Reservation id t w x u a c p =
    let same : x.protections ≡ t.protections =
      ap (λ z. z.protections) c.rest ∙ ap (λ z. z.protections) a.rest in
    let ids : u.identities ≡ x.identities = ap (λ z. z.identities) p.rest in
    record {
      rest = ground arith;
      unique = λ k. subst Unique (sym ids) (c.unique (a.unique k));
      exclusive = λ k. p.exclusive (subst Exclusive (sym same) k);
      others_kept = p.others_kept ∙ ap (others id) same;
    }

module _ (v : Told) where
  insert_journal-exact :
      (r : Record) (t u : Tables)
      → insert_journal v r t ≡ ok (tt, u)
      → u ≡ record t { anchors = u.anchors; journal = u.journal }
  unfolding insert_journal chain guard
  insert_journal-exact r t u h = ground arith

  -- The row of the new execution.
  insert_execution-exact :
      (r : Record) (t u : Tables)
      → insert_execution v r t ≡ ok (tt, u)
      → (u ≡ record t { executions = t.executions ++ ((r.id, r) ∷ []) })
        × (any (same_row v r) t.executions ≡ false)
  unfolding insert_execution chain guard
  insert_execution-exact r t u h = ground arith

  -- What the Safe Apply of a new execution is.
  pub data Guarded (r : Record) (t u : Tables) : Option SafeAdmission → Type 0 where
    alone : u.safe_applies ≡ t.safe_applies → Guarded r t u none
    guarded :
        (a : SafeAdmission)
        → (count (holds v.domain) t.safe_applies == 0) ≡ true
        → is_some (lookup r.id t.safe_applies) ≡ false
        → u.safe_applies ≡ t.safe_applies ++ ((r.id, preparing_record v a) ∷ [])
        → Guarded r t u (some a)

  insert_safety-exact :
      (r : Record) (a : SafeAdmission) (t u : Tables)
      → insert_safety v r a t ≡ ok (tt, u)
      → (is_some (lookup r.id t.safe_applies) ≡ false)
        × (u ≡ record t { safe_applies = u.safe_applies; safe_requests = u.safe_requests })
        × (u.safe_applies ≡ t.safe_applies ++ ((r.id, preparing_record v a) ∷ []))
  unfolding insert_safety chain guard
  insert_safety-exact r a t u h = ground arith

  admit_safely-exact :
      (r : Record) (safe : Option SafeAdmission) (t u : Tables)
      → admit_safely v r safe t ≡ ok (tt, u)
      → (u ≡ record t { safe_applies = u.safe_applies; safe_requests = u.safe_requests })
        × Guarded r t u safe
  unfolding admit_safely admit_safety chain
  admit_safely-exact r none t u h =
      let e = (ok-injective h).1 in (ground arith, alone (ap (λ z. z.safe_applies) (sym e)))
  admit_safely-exact r (some a) t u h =
      let (e1, h1) = guard-ok _ _ _ _ h in
      let (e2, h2) = guard-ok _ _ _ _ h1 in
      let (_, w, s3, h3) = chain-ok _ _ h2 in
      let (e4, h4) = guard-ok _ _ _ _ h3 in
      let h5 = subst (λ z. insert_safety v r a z ≡ ok (tt, u)) (sym (refuse-same _ t w s3)) h4 in
      let (e6, frame, rows) = insert_safety-exact r a t u h5 in (frame, guarded a e2 e6 rows)

  module _ (b : Budget) (q : Request) (c : Authorization) (safe : Option SafeAdmission) where
    reserve-Reservation :
        (t u : Tables) → reserve v b q c safe t ≡ ok (tt, u) → Reservation v.id t u
    unfolding reserve
    reserve-Reservation t u h =
        let (_, w, s1, h1) = chain-ok _ _ h in
        let (_, x, s2, h2) = chain-ok _ _ h1 in
        assemble-Reservation v.id t w x u
          (reserve_creations-Reserved v.id v.plan.marker q.intents t w s1)
          (reserve_restorations-Reserved v.id v.rollback_marker q.intents w x s2)
          (protect_intents-Protected v.id v.plan.root v.graph q.intents x u h2)

    -- What an admission that went through has found and left.
    pub record Admitted (t u : Tables) : Type 0 where
      pub grant : Authorization
      pub granted : v.fresh ≡ ok grant
      pub unchanged_grant : same_authorization grant c ≡ true
      pub room : has_room t ≡ true
      pub fresh_row : any (same_row v (admitted_record v q c)) t.executions ≡ false
      pub executions : u.executions ≡ t.executions ++ ((v.id, admitted_record v q c) ∷ [])
      pub safe_apply : Guarded (admitted_record v q c) t u safe
      pub receipts : u.receipts ≡ t.receipts
      pub unique : Unique t.identities → Unique u.identities
      pub exclusive : Exclusive t.protections → Exclusive u.protections
      pub others_kept : others v.id u.protections ≡ others v.id t.protections

    -- What the job, the record and the Safe Apply of the execution add.
    record Entered (r : Record) (t u : Tables) : Type 0 where
      executions : u.executions ≡ t.executions ++ ((r.id, r) ∷ [])
      fresh_row : any (same_row v r) t.executions ≡ false
      safe_apply : Guarded r t u safe
      receipts : u.receipts ≡ t.receipts
      identities : u.identities ≡ t.identities
      protections : u.protections ≡ t.protections

    Guarded-same :
        (r : Record) (o : Option SafeAdmission) (t u t' u' : Tables)
        → t'.safe_applies ≡ t.safe_applies
        → u'.safe_applies ≡ u.safe_applies
        → Guarded r t u o
        → Guarded r t' u' o
    Guarded-same r o t u t' u' e f (alone x) = alone (f ∙ x ∙ sym e)
    Guarded-same r o t u t' u' e f (guarded a n m x) =
        guarded a (subst (λ z. (count (holds v.domain) z == 0) ≡ true) (sym e) n)
          (subst (λ z. is_some (lookup r.id z) ≡ false) (sym e) m)
          (f ∙ x ∙ ap (λ z. z ++ ((r.id, preparing_record v a) ∷ [])) (sym e))

    enter-Entered :
        (r : Record) (t u : Tables) → enter v b q c safe r t ≡ ok (tt, u) → Entered r t u
    unfolding enter
    enter-Entered r t u h =
        let (j, w, s1, h1) = chain-ok _ _ h in
        let (_, x, s2, h2) = chain-ok _ _ h1 in
        let (_, y, s3, h3) = chain-ok _ _ h2 in
        let e1 = create_job-exact b _ t w j s1 in
        let (e2, new) = insert_execution-exact r w x s2 in
        let (e3, safely) = admit_safely-exact r safe x y s3 in
        let e4 = append-exact b _ y u h3 in
        record {
          executions = ground arith;
          fresh_row = ground arith;
          safe_apply = Guarded-same r safe x y t u (ground arith) (ground arith) safely;
          receipts = ground arith;
          identities = ground arith;
          protections = ground arith;
        }

    assemble-Admitted :
        (t w x u : Tables) (a : Authorization)
        → v.fresh ≡ ok a
        → same_authorization a c ≡ true
        → has_room t ≡ true
        → w ≡ record t { anchors = w.anchors; journal = w.journal }
        → Reservation v.id w x
        → Entered (admitted_record v q c) x u
        → Admitted t u
    unfolding admitted_record
    assemble-Admitted t w x u a g same room e p n =
        let ids : w.identities ≡ t.identities = ap (λ z. z.identities) e in
        let prot : w.protections ≡ t.protections = ap (λ z. z.protections) e in
        let rows : x.executions ≡ t.executions =
          ap (λ z. z.executions) p.rest ∙ ap (λ z. z.executions) e in
        record {
          grant = a;
          granted = g;
          unchanged_grant = same;
          room = room;
          fresh_row =
              subst (λ z. any (same_row v (admitted_record v q c)) z ≡ false) rows n.fresh_row;
          executions = n.executions ∙ ap (λ z. z ++ ((v.id, admitted_record v q c) ∷ [])) rows;
          safe_apply =
              Guarded-same (admitted_record v q c) safe x u t u
                (sym (ap (λ z. z.safe_applies) p.rest ∙ ap (λ z. z.safe_applies) e)) refl
                n.safe_apply;
          receipts = n.receipts ∙ ap (λ z. z.receipts) p.rest ∙ ap (λ z. z.receipts) e;
          unique = λ k. subst Unique (sym n.identities) (p.unique (subst Unique (sym ids) k));
          exclusive =
              λ k. subst Exclusive (sym n.protections) (p.exclusive (subst Exclusive (sym prot) k));
          others_kept = ap (others v.id) n.protections ∙ p.others_kept ∙ ap (others v.id) prot;
        }

    pub admission-Admitted :
        (t u : Tables) (m : Mutation) → admission v b q c safe t ≡ ok (m, u) → Admitted t u
    unfolding admission chain
    admission-Admitted t u m h =
        let (_, t0, s0, h0) = chain-ok _ _ h in
        let (a, g, same, e0) = unchanged-ok v.fresh c t t0 s0 in
        let (e1, h1) = guard-ok _ _ _ _ h0 in
        let (e2, h2) = guard-ok _ _ _ _ h1 in
        let (_, w, s3, h3) = chain-ok _ _ h2 in
        let (_, x, s4, h4) = chain-ok _ _ h3 in
        let (_, y, s5, h5) = chain-ok _ _ h4 in
        let last = (ok-injective h5).1 in
        subst (λ z. Admitted z u) (sym e0)
          (subst (Admitted t0) last (
            assemble-Admitted t0 w x y a g same e1 (insert_journal-exact _ t0 w s3)
              (reserve-Reservation w x s4) (enter-Entered _ x y s5)))
