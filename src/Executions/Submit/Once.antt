-- ===== src/Executions/Submit/Once.antt =====
-- internal/repository/executions/engine.go: the calls of `submit` and their workers, of any executions
-- and in any order.
use ovs_webui.Prelude.{
  ℕ, ◌+◌, ◌≤◌, ◌≡◌, ◌⊎◌, inl, inr, refl, subst, Bool, true, false, not, ◌&&◌, List, [], ◌∷◌, ◌++◌,
  Option, none, some, lookup, ◌==◌, count, if◌then◌else◌, arith,
}
use ovs_webui.Execution.{Authorization, Plan, Outcome, same_commit, committed}
use ovs_webui.Store.{Error, Store, Result, ok, err, Fault, write, write-Written, write-ok}
use ovs_webui.Evidence.{Budget}
use ovs_webui.Requests.{Digests, Reply}
use ovs_webui.Executions.{Engine, Call, Sent, Times, in_store, save_outcome}
use ovs_webui.Executions.Admission.{Request, before_send}
use ovs_webui.Executions.Moves.Dispatch.{
  begun, begun-append, begun_most, before_send-pays, outcome-begun,
}
use ovs_webui.Executions.Submit.{
  Visit, SafeCall, Answer, Work, submit, finished, let_go, lease_checked, provider_commit,
  reply_observed, run_worker, work,
}
use ovs_webui.Executions.Submit.Ends.{Ended, Entered, refused, repeated, handed, ran, submit-Ended}

-- How often the change of an execution has been sent; rollbacks do not count.
unfoldable pub changes : ℕ → List Sent → ℕ
changes j = count (λ m. not m.rollback && m.transaction == j)

abbrev pub stage : ℕ → Engine → ℕ
stage j e = begun (lookup j e.store.tables.executions)

-- What is sent is paid by the state that the execution leaves.
abbrev pub Paid : ℕ → Engine → Engine → Type 0
Paid j e e' = changes j e'.sent + stage j e ≤ changes j e.sent + stage j e'

changes-append :
    (j id : ℕ) (p : Plan) (l : List Sent)
    → changes j (l ++ (record { transaction = id; rollback = false; plan = p } ∷ []))
      ≡ changes j l + (if id == j then 1 else 0)
unfolding changes
changes-append j id p [] = ground arith
changes-append j id p (x ∷ l) = ground (arith, changes-append j id p l)

Paid-trans : (j : ℕ) (e e1 e2 : Engine) → Paid j e e1 → Paid j e1 e2 → Paid j e e2
Paid-trans j e e1 e2 a c = omega arith

rest_le : (k m n : ℕ) → k + m ≤ n → m ≤ n
rest_le k m n h = omega arith

stage_le : {m n : ℕ} → m ≤ n → (k : ℕ) → k + m ≤ k + n
stage_le h k = omega arith

module _ (b : Budget) (j : ℕ) where
  outcome-Paid :
      (f : Fault) (id : ℕ) (o : Outcome) (now : Times) (e : Engine)
      → Paid j e (in_store (write f (save_outcome b id o now) e.store) e).1
  outcome-Paid f id o now e = elim (write-Written f (save_outcome b id o now) e.store) [
    | inl (same, x, z) ↦ rw same (ground arith)
    | inr (u, m, z) ↦ stage_le (outcome-begun b j e.store.tables _ id o now m) _
  ]

  one_Paid : (k : Bool) (e x y : Engine) → Paid j e x → Paid j e y → Paid j e (if k then x else y)
  one_Paid true e x y h h' = h
  one_Paid false e x y h h' = h'

  call_Paid :
      (k : Bool) (e : Engine) (x y : Call)
      → Paid j e x.1
      → Paid j e y.1
      → Paid j e (if k then x else y).1
  call_Paid true e x y h h' = h
  call_Paid false e x y h h' = h'

  module _ (w : Work) (id : ℕ) (c : Authorization) (safe : Bool) (p : Plan) where
    before_send-stage :
        (e : Engine) (x : Result (Unit {0}) × Store)
        → write w.before_fault (before_send b w.before id c safe) e.store ≡ x
        → stage j e ≤ begun (lookup j x.1.tables.executions)
    before_send-stage e x h =
        subst (λ z. stage j e ≤ begun (lookup j z.1.tables.executions)) h
          (elim (write-Written w.before_fault (before_send b w.before id c safe) e.store) [
            | inl (same, y, z) ↦ rw same (ground arith)
            | inr (u, m, z) ↦ rest_le _ _ _ (before_send-pays b j w.before id c safe _ _ m)
          ])

    -- The callback before the bytes: what it returned, and what it left.
    let_go-Paid :
        (e : Engine) (writes : Bool) (x : Result (Unit {0}) × Store)
        → w.writes ≡ writes
        → write w.before_fault (before_send b w.before id c safe) e.store ≡ x
        → Paid j e (let_go b w id c safe p (in_store x e))
    unfolding let_go
    let_go-Paid e writes (err y, s) k h = stage_le (before_send-stage e (err y, s) h) _
    let_go-Paid e false (ok u, s) k h = rw k (stage_le (before_send-stage e (ok u, s) h) _)
    let_go-Paid e true (ok u, s) k h =
        let pays =
          before_send-pays b j w.before id c safe e.store.tables s.tables
            (write-ok w.before_fault (before_send b w.before id c safe) e.store s u h) in
        rw k (rw (changes-append j id p e.sent) (omega arith))

    lease-Paid :
        (e : Engine) (o : Option Error)
        → Paid j e (let_go b w id c safe p (lease_checked b w id c safe p o e))
    unfolding lease_checked let_go
    lease-Paid e (some x) = ground arith
    lease-Paid e none = let_go-Paid e w.writes _ refl refl

    commit-Paid : (e : Engine) → Paid j e (provider_commit b w id c safe p e)
    unfolding provider_commit
    commit-Paid e = one_Paid w.reaches_send e _ e (lease-Paid e w.lease) (ground arith)

    observed-Paid :
        (e : Engine) (x : Call) → Paid j e x.1 → Paid j e (reply_observed b w id c safe p x).1
    unfolding reply_observed
    observed-Paid e (err x, e') h = h
    observed-Paid e (ok u, e') h =
        let saved =
          in_store
            (write w.observed_fault (save_outcome b id (w.observe p w.reply) w.observed_times)
              e'.store)
            e' in
        call_Paid (same_commit w.reply.commit committed) e saved (ok tt, e')
          (Paid-trans j e e' saved.1 h
            (outcome-Paid w.observed_fault id (w.observe p w.reply) w.observed_times e'))
          h

    pub work-Paid : (e : Engine) → Paid j e (work b w id c safe p e).1
    unfolding work run_worker
    work-Paid e =
        let e' = provider_commit b w id c safe p e in
        let saved =
          in_store (write w.reply_fault (save_outcome b id w.reply w.reply_times) e'.store) e' in
        observed-Paid e saved (
          Paid-trans j e e' saved.1 (commit-Paid e)
            (outcome-Paid w.reply_fault id w.reply w.reply_times e'))

-- A call of `submit`, or the worker of a Safe Apply, with all that it is told.
pub data Deed : Type 0 where
  submission : Visit → Request → Option SafeCall → Work → Deed
  working : Work → (id : ℕ) → Authorization → Bool → Plan → Deed

module _ (g : Digests) (b : Budget) where
  unfoldable pub deed : Deed → Engine → Engine
  deed (submission v q safe w) e = (submit g b v q safe w e).1
  deed (working w id c safe p) e = (work b w id c safe p e).1

  unfoldable pub deeds : List Deed → Engine → Engine
  deeds [] e = e
  deeds (d ∷ ds) e = deeds ds (deed d e)

  module _ (j : ℕ) where
    Entered-stage :
        (v : Visit) (q : Request) (safe : Option SafeCall) (w : Work) (e e' : Engine)
        → (e'.store.tables ≡ e.store.tables) ⊎ Entered g b v q safe w e e'
        → stage j e ≤ stage j e'
    Entered-stage v q safe w e e' (inl same) = rw same (ground arith)
    Entered-stage v q safe w e e' (inr x) =
        rw x.executions (rw x.admitted.executions (begun-append j e.store.tables.executions _))

    finished-Paid :
        (v : Visit) (q : Request) (safe : Option SafeCall) (w : Work) (e : Engine) (r : Reply)
        (x : Result (Unit {0})) (e' : Engine)
        → Paid j e e'
        → Paid j e (finished g b v q safe w r (x, e')).1
    unfolding finished
    finished-Paid v q safe w e r (err y) e' h = h
    finished-Paid v q safe w e r (ok u) e' h = h

    Ended-Paid :
        (v : Visit) (q : Request) (safe : Option SafeCall) (w : Work) (e : Engine) (x : Answer)
        → Ended g b v q safe w e x
        → Paid j e x.1
    Ended-Paid v q safe w e _ (refused x e' sent active left) =
        rw sent (stage_le (Entered-stage v q safe w e e' left) _)
    Ended-Paid v q safe w e _ (repeated r e' sent active again same) =
        rw sent (rw same (ground arith))
    Ended-Paid v q safe w e _ (handed r e' safely sent active new x) =
        rw sent (stage_le (Entered-stage v q safe w e e' (inr x)) _)
    Ended-Paid v q safe w e _ (ran r e1 e' x safely sent new k h once active) =
        let entered : Paid j e e1 = rw sent (stage_le (Entered-stage v q safe w e e1 (inr k)) _) in
        let worked =
          subst (λ z. Paid j e1 z.1) h (work-Paid b j w v.told.id k.granted false v.told.plan e1) in
        finished-Paid v q safe w e r x e' (Paid-trans j e e1 e' entered worked)

    deed-Paid : (d : Deed) (e : Engine) → Paid j e (deed d e)
    unfolding deed
    deed-Paid (submission v q safe w) e =
        Ended-Paid v q safe w e (submit g b v q safe w e) (submit-Ended g b v q safe w e)
    deed-Paid (working w id c safe p) e = work-Paid b j w id c safe p e

    deeds-Paid : (ds : List Deed) (e : Engine) → Paid j e (deeds ds e)
    unfolding deeds
    deeds-Paid [] e = ground arith
    deeds-Paid (d ∷ ds) e =
        Paid-trans j e (deed d e) (deeds ds (deed d e)) (deed-Paid d e) (deeds-Paid ds (deed d e))

    -- Over any run of calls of `submit` and of workers, from an engine that has not sent the change of
    -- an execution that is still in its first state, the change of an execution is sent at most once.
    pub deeds-sent_once :
        (ds : List Deed) (e : Engine)
        → changes j e.sent ≤ stage j e
        → changes j (deeds ds e).sent ≤ 1
    deeds-sent_once ds e h =
        let paid = deeds-Paid ds e in
        let most = begun_most (lookup j (deeds ds e).store.tables.executions) in omega arith
