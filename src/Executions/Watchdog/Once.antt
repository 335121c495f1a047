-- ===== src/Executions/Watchdog/Once.antt =====
-- The effect of `safetyStep`: which rows it changes, how, and what it sends.
use ovs_webui.Prelude.{
  ℕ, ◌≡◌, ◌⊎◌, inl, inr, refl, sym, ◌∙◌, subst, ap, Bool, true, false, not, String, Option, none,
  some, arith, lookup, ◌==◌, if◌then◌else◌,
}
use ovs_webui.Execution
use ovs_webui.Execution.{Plan, Outcome, same_commit}
use ovs_webui.Safety.{Record, same_state, State, terminal}
use ovs_webui.Store.{ok, err, Fault, write, write-Written}
use ovs_webui.Evidence.{Budget}
use ovs_webui.Executions.{
  Engine, Call, in_store, save_outcome, Times, read_record, claim, claimed, release,
}
use ovs_webui.Executions.Frames.{save_outcome-safe_applies}
use ovs_webui.Executions.Watchdog.{
  Env, hold, save, refresh, rollback, rollback_plan, read_safety, Prepared, plan, conflict,
  generation_changed, failed, observe_rollback, settle_rollback, triggered, trigger_of,
  must_roll_back, probe_failed, probe_passed, healthy, follow, observed, not_rolled_back, watch,
  watch_found, step, reloaded, by_plan,
}
use ovs_webui.Executions.Watchdog.Frames.{read_record-row, read_safety-row}
use ovs_webui.Executions.Watchdog.Effect.{
  rows, Apart, Evolves, Effect, idle-Effect, Saved-Effect, Evolves-refl, refresh-Saved,
}
use ovs_webui.Executions.Watchdog.Rollback.{
  if_holds, from-Effect, save-Effect, hold-Effect, commit-Effect,
}

-- Records that differ in none of the fields that a Safe Apply keeps, and are not confirmed.
record Alike (s s' : Record) : Type 0 where
  domain : s'.domain ≡ s.domain
  preparation : s'.preparation ≡ s.preparation
  confirmation : s'.confirmation ≡ s.confirmation
  rollback : s'.rollback ≡ s.rollback
  open_state : same_state s'.state State.confirmed ≡ false
  apart : Apart s → Apart s'

Alike-Evolves :
    {s s' : Record} → same_state s.state State.confirmed ≡ false → Alike s s' → Evolves s s'
Alike-Evolves h a = record {
  domain = a.domain;
  preparation = a.preparation;
  confirmation = inr a.confirmation;
  rollback = inr a.rollback;
  confirmed = a.open_state ∙ sym h;
  apart = a.apart;
}

Alike-refl : (s : Record) → same_state s.state State.confirmed ≡ false → Alike s s
Alike-refl s h = record {
  domain = refl;
  preparation = refl;
  confirmation = refl;
  rollback = refl;
  open_state = h;
  apart = λ x. x;
}

-- A change of the other fields.
Alike-with :
    {s s' : Record} (trigger reason : String) (failures : ℕ) (at : Option ℕ)
    → Alike s s'
    → Alike s (record s' {
      trigger = trigger;
      reason = reason;
      probe_failures = failures;
      healthy_at = at;
    })
Alike-with trigger reason failures at a = record {
  domain = a.domain;
  preparation = a.preparation;
  confirmation = a.confirmation;
  rollback = a.rollback;
  open_state = a.open_state;
  apart = a.apart;
}

module _ (b : Budget) (v : Env) (r : Execution.Record) (s : Record) (e : Engine)
    (here : lookup r.id (rows e) ≡ some s)
    (open_state : same_state s.state State.confirmed ≡ false) where
  triggered-Alike : Alike s (triggered b v r s)
  unfolding triggered
  triggered-Alike =
      if_holds (Alike s) _ (record s { trigger = trigger_of b v r s }) s
        (Alike-with (trigger_of b v r s) s.reason s.probe_failures s.healthy_at
          (Alike-refl s open_state))
        (Alike-refl s open_state)

  plan-Effect :
      (s' : Record) (x : Prepared)
      → Alike s s'
      → s.rollback ≡ none
      → Effect r.id s e.sent (rows e) (rollback_plan b v r s' x e).1
  unfolding rollback_plan
  plan-Effect s' (plan p) a fresh =
      commit-Effect b v r s s' p e here (Alike-Evolves open_state a) fresh open_state
  plan-Effect s' conflict a fresh =
      hold-Effect b _ r s s' _ _ _ e here (Alike-Evolves open_state a) (sym open_state) (refl, refl)
  plan-Effect s' generation_changed a fresh =
      hold-Effect b _ r s s' _ _ _ e here (Alike-Evolves open_state a) (sym open_state) (refl, refl)
  plan-Effect s' failed a fresh =
      hold-Effect b _ r s s' _ _ _ e here (Alike-Evolves open_state a) (sym open_state) (refl, refl)

  rollback-Effect :
      (s' : Record)
      → Alike s s'
      → s.rollback ≡ none
      → Effect r.id s e.sent (rows e) (rollback b v r s' e).1
  unfolding rollback
  rollback-Effect s' a fresh = plan-Effect s' (v.prepare r.plan) a fresh

  settle_rollback-Alike : (o : Outcome) → Alike s (settle_rollback b v s o)
  unfolding settle_rollback
  settle_rollback-Alike o = ground arith

  observe_rollback-Effect :
      (p : Plan) → Effect r.id s e.sent (rows e) (observe_rollback b v r s p e).1
  unfolding observe_rollback
  observe_rollback-Effect p =
      if_holds {A = Call} (λ y. Effect r.id s e.sent (rows e) y.1) _ (ok tt, e)
        (save b v.first_fault r (settle_rollback b v s (v.observe p s.outcome)) v.first_save e)
        (idle-Effect r.id s e here)
        (save-Effect b v.first_fault r s _ v.first_save e here
          (Alike-Evolves open_state (settle_rollback-Alike (v.observe p s.outcome))))

  probe_failed-Effect :
      (s' : Record)
      → Alike s s'
      → s.rollback ≡ none
      → Effect r.id s e.sent (rows e) (probe_failed b v r s' e).1
  unfolding probe_failed
  probe_failed-Effect s' a fresh =
      if_holds {A = Call} (λ y. Effect r.id s e.sent (rows e) y.1) _ (rollback b v r _ e)
        (save b v.first_fault r _ v.first_save e) (rollback-Effect _ (Alike-with _ _ _ _ a) fresh)
        (save-Effect b v.first_fault r s _ v.first_save e here
          (Alike-Evolves open_state (Alike-with _ _ _ _ a)))

  healthy-Evolves : (s' : Record) → Alike s s' → s.rollback ≡ none → Evolves s (healthy b v s')
  unfolding healthy
  healthy-Evolves s' a fresh = ground arith

  probe_passed-Effect :
      (s' : Record)
      → Alike s s'
      → s.rollback ≡ none
      → Effect r.id s e.sent (rows e) (probe_passed b v r s' e).1
  unfolding probe_passed
  probe_passed-Effect s' a fresh =
      if_holds {A = Call} (λ y. Effect r.id s e.sent (rows e) y.1) _
        (in_store (write v.first_fault (refresh b r (healthy b v s')) e.store) e)
        (save b v.first_fault r (healthy b v s') v.first_save e)
        (Saved-Effect r.id s _ e _ here (healthy-Evolves s' a fresh)
          (refresh-Saved b v.first_fault r (healthy b v s') e))
        (save-Effect b v.first_fault r s _ v.first_save e here (healthy-Evolves s' a fresh))

  follow-Effect :
      (o : Outcome) → s.rollback ≡ none → Effect r.id s e.sent (rows e) (follow b v r s o e).1
  unfolding follow
  follow-Effect o fresh =
      let s' = triggered b v r s in
      let ev = Alike-Evolves open_state triggered-Alike in
      let tested =
        if_holds {A = Call} (λ y. Effect r.id s e.sent (rows e) y.1) v.probe_ok
          (probe_passed b v r s' e) (probe_failed b v r s' e)
          (probe_passed-Effect s' triggered-Alike fresh)
          (probe_failed-Effect s' triggered-Alike fresh) in
      let settled =
        if_holds {A = Call} (λ y. Effect r.id s e.sent (rows e) y.1)
          (not (Execution.same_applied o.applied Execution.applied))
          (hold b v.first_fault r s' State.recovery_required o.reason v.first_save e)
          (if v.probe_ok then probe_passed b v r s' e else probe_failed b v r s' e)
          (hold-Effect b v.first_fault r s s' State.recovery_required o.reason v.first_save e here
            ev (sym open_state) (refl, refl))
          tested in
      if_holds {A = Call} (λ y. Effect r.id s e.sent (rows e) y.1) (must_roll_back b v r s)
        (rollback b v r s' e) _ (rollback-Effect s' triggered-Alike fresh) settled

-- What a write that leaves every Safe Apply alone leaves of the engine.
abbrev pub Untouched : Engine → Engine → Type 0
Untouched e e1 = (e1.sent ≡ e.sent) × (rows e1 ≡ rows e)

pub outcome-Untouched :
    (b : Budget) (f : Fault) (id : ℕ) (o : Outcome) (now : Times) (e : Engine)
    → Untouched e (in_store (write f (save_outcome b id o now) e.store) e).1
outcome-Untouched b f id o now e = elim (write-Written f (save_outcome b id o now) e.store) [
  | inl w ↦ (refl, ap (λ z. z.safe_applies) w.0)
  | inr w ↦ (refl, save_outcome-safe_applies b e.store.tables _ id o now w.1)
]

module _ (b : Budget) (v : Env) (id : ℕ) (s : Record)
    (open_state : same_state s.state State.confirmed ≡ false) where
  reloaded-Effect :
      (o : Outcome) (e : Engine) (q : Option Execution.Record)
      → read_record id e ≡ q
      → lookup id (rows e) ≡ some s
      → s.rollback ≡ none
      → Effect id s e.sent (rows e) (reloaded b v id s o q e).1
  unfolding reloaded
  reloaded-Effect o e none found here fresh = idle-Effect id s e here
  reloaded-Effect o e (some r) found here fresh =
      let own = (read_record-row id e r found).0 in
      let here' = subst (λ i. lookup i (rows e) ≡ some s) (sym own) here in
      let held =
        hold-Effect b v.first_fault r s s State.recovery_required "apply-outcome-unknown"
          v.first_save e here' (Evolves-refl s) (sym open_state) (refl, refl) in
      let next = follow-Effect b v r s e here' open_state o fresh in
      subst (λ i. Effect i s e.sent (rows e) (reloaded b v id s o (some r) e).1) own
        (if_holds {A = Call} (λ y. Effect r.id s e.sent (rows e) y.1)
          (not (same_commit o.commit Execution.committed))
          (hold b v.first_fault r s State.recovery_required "apply-outcome-unknown" v.first_save e)
          (follow b v r s o e) held next)

  observed-Effect :
      (o : Outcome) (e : Engine) (y : Call)
      → Untouched e y.1
      → lookup id (rows e) ≡ some s
      → s.rollback ≡ none
      → Effect id s e.sent (rows e) (observed b v id s o y).1
  unfolding observed
  observed-Effect o e (ok x, e1) same here fresh =
      from-Effect id s e e1 _ same.0 same.1
        (reloaded-Effect o e1 (read_record id e1) refl (rw same.1 here) fresh)
  observed-Effect o e (err x, e1) same here fresh =
      from-Effect id s e e1 _ same.0 same.1 (idle-Effect id s e1 (rw same.1 here))

  not_rolled_back-Effect :
      (r : Execution.Record) (e : Engine)
      → r.id ≡ id
      → lookup id (rows e) ≡ some s
      → s.rollback ≡ none
      → Effect id s e.sent (rows e) (not_rolled_back b v id r s e).1
  unfolding not_rolled_back
  not_rolled_back-Effect r e own here fresh =
      let here' = subst (λ i. lookup i (rows e) ≡ some s) (sym own) here in
      let held =
        hold-Effect b v.first_fault r s s State.not_committed "apply-not-committed" v.first_save e
          here' (Evolves-refl s) (sym open_state) (refl, refl) in
      let o = v.observe r.plan r.outcome in
      let saved = in_store (write v.outcome_fault (save_outcome b id o v.times) e.store) e in
      if_holds {A = Call} (λ y. Effect id s e.sent (rows e) y.1)
        (same_commit r.outcome.commit Execution.rejected)
        (hold b v.first_fault r s State.not_committed "apply-not-committed" v.first_save e) _
        (subst
          (λ i.
            Effect i s e.sent (rows e)
              (hold b v.first_fault r s State.not_committed "apply-not-committed" v.first_save e).1)
          own held)
        (if_holds {A = Call} (λ y. Effect id s e.sent (rows e) y.1)
          (Execution.same_state r.state Execution.admitted) (ok tt, e) (observed b v id s o saved)
          (idle-Effect id s e here)
          (observed-Effect o e saved (outcome-Untouched b v.outcome_fault id o v.times e) here
            fresh))

  plan_branch-Effect :
      (r : Execution.Record) (e : Engine) (q : Option Plan)
      → s.rollback ≡ q
      → r.id ≡ id
      → lookup id (rows e) ≡ some s
      → Effect id s e.sent (rows e) (by_plan b v id r s q e).1
  unfolding by_plan
  plan_branch-Effect r e none fresh own here = not_rolled_back-Effect r e own here fresh
  plan_branch-Effect r e (some p) fresh own here =
      subst (λ i. Effect i s e.sent (rows e) (observe_rollback b v r s p e).1) own
        (observe_rollback-Effect b v r s e (subst (λ i. lookup i (rows e) ≡ some s) (sym own) here)
          open_state p)

  pub watch-Effect :
      (r : Execution.Record) (e : Engine)
      → terminal s.state ≡ false
      → r.id ≡ id
      → lookup id (rows e) ≡ some s
      → Effect id s e.sent (rows e) (watch b v id r s e).1
  unfolding watch
  watch-Effect r e going own here =
      let here' = subst (λ i. lookup i (rows e) ≡ some s) (sym own) here in
      let held =
        hold-Effect b v.first_fault r s s State.recovery_required "management-probe-policy-changed"
          v.first_save e here' (Evolves-refl s) (sym open_state) (refl, refl) in
      let idle = idle-Effect id s e here in
      let hold_call =
        hold b v.first_fault r s State.recovery_required "management-probe-policy-changed"
          v.first_save e in
      let next = by_plan b v id r s s.rollback e in
      if_holds {A = Call} (λ y. Effect id s e.sent (rows e) y.1) (terminal s.state) (ok tt, e) _
        idle
        (if_holds {A = Call} (λ y. Effect id s e.sent (rows e) y.1) (not (s.domain == v.domain))
          hold_call _ (subst (λ i. Effect i s e.sent (rows e) hold_call.1) own held)
          (if_holds {A = Call} (λ y. Effect id s e.sent (rows e) y.1)
            (same_state s.state State.rollback_conflict) (ok tt, e) next idle
            (plan_branch-Effect r e s.rollback refl own here)))

open_lem : (s : State) → terminal s ≡ false → same_state s State.confirmed ≡ false
open_lem s h = ground arith

module _ (b : Budget) (v : Env) (id : ℕ) where
  ended-Effect :
      (r : Execution.Record) (s : Record) (e : Engine) (c : Bool)
      → terminal s.state ≡ c
      → r.id ≡ id
      → lookup id (rows e) ≡ some s
      → Effect id s e.sent (rows e) (watch b v id r s e).1
  unfolding watch
  ended-Effect r s e true h own here = rw h (idle-Effect id s e here)
  ended-Effect r s e false h own here = watch-Effect b v id s (open_lem s.state h) r e h own here

  -- What a call leaves: all rows, or the effect on the row of the identifier.
  abbrev pub Stepped : Engine → Engine → Type 0
  Stepped e e' =
      Untouched e e'
      ⊎ ((s : Record) × (lookup id (rows e) ≡ some s) × Effect id s e.sent (rows e) e')

  found-Stepped :
      (e : Engine) (o : Option Execution.Record) (q : Option Record)
      → read_record id e ≡ o
      → read_safety id e ≡ q
      → Stepped e (watch_found b v id o q e).1
  unfolding watch_found
  found-Stepped e (some r) (some s) found row =
      let here = read_safety-row id e s row in
      inr
        (s, here, ended-Effect r s e (terminal s.state) refl (read_record-row id e r found).0 here)
  found-Stepped e (some r) none found row = inl (refl, refl)
  found-Stepped e none q found row = inl (refl, refl)

  release-Stepped : (e e' : Engine) → Stepped (claim id e) e' → Stepped e (release id e')
  release-Stepped e e' (inl h) = inl h
  release-Stepped e e' (inr (s, here, x)) = inr (
    s,
    here,
    record {
      others = x.others;
      next = x.next;
      here = x.here;
      evolves = x.evolves;
      dispatched = x.dispatched;
    },
  )

  pub step-Stepped : (e : Engine) → Stepped e (step b v id e).1
  unfolding step
  step-Stepped e =
      if_holds {A = Call} (λ y. Stepped e y.1) (claimed id e) (ok tt, e) _ (inl (refl, refl))
        (release-Stepped e _ (found-Stepped (claim id e) _ _ refl refl))
