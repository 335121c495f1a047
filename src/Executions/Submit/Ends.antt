-- ===== src/Executions/Submit/Ends.antt =====
-- internal/repository/executions/engine.go: how a call of `submit` ends.
use ovs_webui.Prelude.{
  ℕ, ◌≡◌, refl, sym, ap, ◌∙◌, subst, ◌⊎◌, Bool, true, false, not, is_some, ◌++◌, List, [], ◌∷◌,
  Option, none, some, ◌==◌, ==_refl, any, keep, if◌then◌else◌, inl, inr, arith,
}
use ovs_webui.Execution.{Authorization}
use ovs_webui.Store.{
  Error, Store, Tables, Result, ok, err, unavailable, execution_busy, safe_apply_required,
  invalid_execution,
}
use ovs_webui.Evidence.{Budget}
use ovs_webui.Requests.{Command, Mutation, Reply, Digests}
use ovs_webui.Requests.Calls.{replay, execute, replay-replayed}
use ovs_webui.Requests.Committed.{Committed, Answered, execute-Committed, execute-Answered}
use ovs_webui.Executions.{Engine, claim, claimed, release}
use ovs_webui.Executions.Admission.{Request, admission}
use ovs_webui.Executions.Admission.Steps.{Admitted, admission-Admitted}
use ovs_webui.Executions.Submit.Run.{planned, work-Ran}
use ovs_webui.Executions.Submit.{
  Visit, SafeCall, Work, Answer, started, finished, work, safe_admission, accepted, claiming,
  preparing, granted, guarded, leased, replayed, authorized, submit,
}

keep_all :
    (id : ℕ) (xs : List ℕ) → any (λ j. j == id) xs ≡ false → keep (λ j. not (j == id)) xs ≡ xs
keep_all id [] h = refl
keep_all id (x ∷ xs) h = ground (arith, keep_all id xs)

true-false : true ≡ false → ⊥
true-false h = cc

release-claim :
    (id : ℕ) (e : Engine) (s : Store)
    → claimed id e ≡ false
    → (release id (record (claim id e) { store = s })).active ≡ e.active
release-claim id e s h = rw (==_refl id) (keep_all id e.active h)

module _ (g : Digests) (b : Budget) (v : Visit) (q : Request) (safe : Option SafeCall)
    (w : Work) where
  -- The execution is in the journal: the admission went through and was committed.
  pub record Entered (e e' : Engine) : Type 0 where
    pub granted : Authorization
    pub second : v.second ≡ ok granted
    pub after : Tables
    pub admitted : Admitted v.told b q granted (safe_admission safe) e.store.tables after
    pub executions : e'.store.tables.executions ≡ after.executions

  -- How the call ends: with an error, with the answer of an earlier call, or with an execution that is
  -- in the journal. A Safe Apply is then handed over with the claim, and nothing was sent. Without one
  -- `run` has taken its course from there, which may have sent the change and no more than that, and
  -- the claim is given back.
  pub data Ended (e : Engine) : Answer → Type 0 where
    refused :
        (x : Error) (e' : Engine)
        → e'.sent ≡ e.sent
        → e'.active ≡ e.active
        → (e'.store.tables ≡ e.store.tables) ⊎ Entered e e'
        → Ended e (err x, e')
    repeated :
        (r : Reply) (e' : Engine)
        → e'.sent ≡ e.sent
        → e'.active ≡ e.active
        → r.replayed ≡ true
        → e'.store.tables ≡ e.store.tables
        → Ended e (ok r, e')
    handed :
        (r : Reply) (e' : Engine)
        → is_some safe ≡ true
        → e'.sent ≡ e.sent
        → e'.active ≡ v.told.id ∷ e.active
        → r.replayed ≡ false
        → Entered e e'
        → Ended e (ok r, e')
    ran :
        (r : Reply) (e1 e' : Engine) (x : Result (Unit {0}))
        → is_some safe ≡ false
        → e1.sent ≡ e.sent
        → r.replayed ≡ false
        → (k : Entered e e1) → work b w v.told.id k.granted false v.told.plan e1 ≡ (x, e')
        → (e'.sent ≡ e.sent) ⊎ (e'.sent ≡ e.sent ++ (planned v.told.id v.told.plan ∷ []))
        → e'.active ≡ e.active
        → Ended e (finished g b v q safe w r (x, e'))

  entered :
      (c : Authorization) (e e' : Engine) (t : Tables) (m : Mutation)
      → v.second ≡ ok c
      → admission v.told b q c (safe_admission safe) e.store.tables ≡ ok (m, t)
      → e'.store.tables.executions ≡ t.executions
      → Entered e e'
  entered c e e' t m k done left = record {
    granted = c;
    second = k;
    after = t;
    admitted = admission-Admitted v.told b q c (safe_admission safe) e.store.tables t m done;
    executions = left;
  }

  failed-Ended :
      (command : Command) (c : Authorization) (e : Engine) (x : Error) (s : Store)
      → claimed v.told.id e ≡ false
      → v.second ≡ ok c
      → Committed v.request command
          (admission v.told b q c (safe_admission safe))
          e.store.tables
          s.tables
      → Ended e (err x, release v.told.id (record (claim v.told.id e) { store = s }))
  failed-Ended command c e x s free k (inl same) =
      refused x _ refl (release-claim v.told.id e s free) (inl same)
  failed-Ended command c e x s free k (inr (d, key, m, t1, done, left)) =
      refused x _ refl (release-claim v.told.id e s free)
        (inr (entered c e _ t1 m k done (ap (λ z. z.executions) left)))

  started-Ended :
      (o : Option SafeCall) (c : Authorization) (e : Engine) (r : Reply) (s : Store)
      → safe ≡ o
      → claimed v.told.id e ≡ false
      → r.replayed ≡ false
      → (k : Entered e (record (claim v.told.id e) { store = s })) → k.granted ≡ c
      → Ended e (started g b v q safe w o c r (record (claim v.told.id e) { store = s }))
  unfolding started
  started-Ended (some y) c e r s h free new k same = handed r _ (ap is_some h) refl refl new k
  started-Ended none c e r s h free new k same =
      let e1 = record (claim v.told.id e) { store = s } in
      let (sent, active) = work-Ran b w v.told.id c false v.told.plan e1 in
      ran r e1 _ _ (ap is_some h) refl new k
        (ap (λ z. work b w v.told.id z false v.told.plan e1) same) sent
        (active ∙ release-claim v.told.id e s free)

  Answered-Ended :
      (again : Bool) (command : Command) (c : Authorization) (e : Engine) (r : Reply) (s : Store)
      → claimed v.told.id e ≡ false
      → v.second ≡ ok c
      → r.replayed ≡ again
      → Answered v.request command
          (admission v.told b q c (safe_admission safe))
          r
          e.store.tables
          s.tables
      → Ended e (
          if again
          then (ok r, release v.told.id (record (claim v.told.id e) { store = s }))
          else started g b v q safe w safe c r (record (claim v.told.id e) { store = s }))
  unfolding entered
  Answered-Ended true command c e r s free k a (inl (x, same)) =
      repeated r _ refl (release-claim v.told.id e s free) x same
  Answered-Ended false command c e r s free k a (inr (x, d, key, m, t1, done, left)) =
      started-Ended safe c e r s refl free x
        (entered c e _ t1 m k done (ap (λ z. z.executions) left)) refl
  Answered-Ended true command c e r s free k a (inr x) = absurd (true-false (sym a ∙ x.0))
  Answered-Ended false command c e r s free k a (inl x) = absurd (true-false (sym x.0 ∙ a))

  accepted-Ended :
      (command : Command) (c : Authorization) (e : Engine) (x : Result Reply × Store)
      → claimed v.told.id e ≡ false
      → v.second ≡ ok c
      → execute g v.request v.fault command (admission v.told b q c (safe_admission safe)) e.store
        ≡ x
      → Ended e (accepted g b v q safe w c x (claim v.told.id e))
  unfolding accepted
  accepted-Ended command c e (err x, s) free k h = failed-Ended command c e x s free k (
      subst
        (λ z.
          Committed v.request command (admission v.told b q c (safe_admission safe)) e.store.tables
            z.1.tables)
        h (execute-Committed g v.request v.fault command _ e.store))
  accepted-Ended command c e (ok r, s) free k h =
      Answered-Ended r.replayed command c e r s free k refl
        (execute-Answered g v.request v.fault command _ e.store s r h)

  claiming-Ended :
      (command : Command) (c : Authorization) (e : Engine) (taken : Bool)
      → claimed v.told.id e ≡ taken
      → v.second ≡ ok c
      → Ended e (
          if taken
          then (err execution_busy, e)
          else accepted g b v q safe w c
              (execute g v.request v.fault command
                (admission v.told b q c (safe_admission safe))
                e.store)
              (claim v.told.id e))
  claiming-Ended command c e true n k = refused execution_busy e refl refl (inl refl)
  claiming-Ended command c e false n k = accepted-Ended command c e _ n k refl

  preparing-Ended :
      (command : Command) (o : Option Error) (c : Authorization) (e : Engine)
      → v.second ≡ ok c
      → Ended e (preparing g b v q safe w command o c e)
  unfolding preparing claiming
  preparing-Ended command (some x) c e k = refused x e refl refl (inl refl)
  preparing-Ended command none c e k = claiming-Ended command c e (claimed v.told.id e) refl k

  granted-Ended :
      (command : Command) (e : Engine) (readable : Bool) (a : Result Authorization)
      → v.second ≡ a
      → Ended e (granted g b v q safe w command (if readable then a else err unavailable) e)
  unfolding granted
  granted-Ended command e false a k = refused unavailable e refl refl (inl refl)
  granted-Ended command e true (err x) k = refused x e refl refl (inl refl)
  granted-Ended command e true (ok c) k = preparing-Ended command v.prepare c e k

  guarded-Ended :
      (command : Command) (e : Engine) (x : Result (Unit {0}))
      → Ended e (guarded g b v q safe w command x e)
  unfolding guarded
  guarded-Ended command e (err x) = refused x e refl refl (inl refl)
  guarded-Ended command e (ok u) = granted-Ended command e e.store.readable v.second refl

  leased-Ended :
      (command : Command) (o : Option (Option Error)) (e : Engine)
      → Ended e (leased g b v q safe w command o e)
  unfolding leased
  leased-Ended command none e = refused safe_apply_required e refl refl (inl refl)
  leased-Ended command (some (some x)) e = refused x e refl refl (inl refl)
  leased-Ended command (some none) e = guarded-Ended command e _

  replayed-Ended :
      (command : Command) (x : Result (Option Reply)) (e : Engine)
      → replay g v.replay_check command e.store ≡ x
      → Ended e (replayed g b v q safe w command x e)
  unfolding replayed
  replayed-Ended command (err x) e h = refused x e refl refl (inl refl)
  replayed-Ended command (ok (some r)) e h =
      repeated r e refl refl (replay-replayed g v.replay_check command e.store r h) refl
  replayed-Ended command (ok none) e h = leased-Ended command v.lease e

  authorized-Ended :
      (x : Result Authorization) (e : Engine) → Ended e (authorized g b v q safe w x e)
  unfolding authorized
  authorized-Ended (err x) e = refused x e refl refl (inl refl)
  authorized-Ended (ok c) e = replayed-Ended _ _ e refl

  checked-Ended :
      (bad : Bool) (x : Result Authorization) (e : Engine)
      → Ended e (if bad then (err invalid_execution, e) else authorized g b v q safe w x e)
  checked-Ended true x e = refused invalid_execution e refl refl (inl refl)
  checked-Ended false x e = authorized-Ended x e

  pub submit-Ended : (e : Engine) → Ended e (submit g b v q safe w e)
  unfolding submit
  submit-Ended e = checked-Ended _ _ e
