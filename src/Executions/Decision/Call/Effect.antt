-- ===== src/Executions/Decision/Call/Effect.antt =====
-- internal/repository/executions/safety.go: what a call of `Decide` may do to the rows of Safe Applies.
use ovs_webui.Prelude.{
  ℕ, ◌≡◌, ◌⊎◌, inl, inr, refl, ◌∙◌, subst, ap, ◌&&◌, true, Option, none, some, arith, lookup,
  update,
}
use ovs_webui.Execution
use ovs_webui.Execution.{Outcome}
use ovs_webui.Safety
use ovs_webui.Safety.{same_state}
use ovs_webui.Store.{
  Tables, Result, ok, err, chain-ok, ok-injective, canceled, transaction_busy,
  safe_apply_capability_unavailable,
}
use ovs_webui.Evidence.{Budget}
use ovs_webui.Requests.{Command, Mutation, Reply, Digests}
use ovs_webui.Requests.Calls.{replay}
use ovs_webui.Requests.Committed.{Committed, execute-Committed}
use ovs_webui.Executions.{Engine, claim, claimed, read_record}
use ovs_webui.Executions.Watchdog.{read_safety}
use ovs_webui.Executions.Watchdog.Frames.{read_safety-row}
use ovs_webui.Executions.Watchdog.Effect.{rows, Apart}
use ovs_webui.Executions.Watchdog.Rollback.{if_holds}
use ovs_webui.Executions.Decision
use ovs_webui.Executions.Decision.{
  Choice, confirm, rollback, other, decision_checks, choice_checks, confirm_checks, decide_tx,
  confirmed_record, requested_record,
}
use ovs_webui.Executions.Decision.Laws.{decide_tx-confirm, decide_tx-rollback, decide_tx-other}
use ovs_webui.Executions.Decision.Call.{
  Visit, Answer, decision, checked, decided, undecided, waiting, fresh, decide,
}

-- What a decision may do: nothing is sent, and at most the row of the Safe Apply is changed, which
-- keeps its rollback plan; and no rollback that is planned is confirmed.
abbrev pub Decided : ℕ → Engine → Engine → Type 0
Decided id e e' =
    (e'.sent ≡ e.sent)
    × ((rows e' ≡ rows e)
        ⊎ ((s : Safety.Record) × (next : Safety.Record) × (lookup id (rows e) ≡ some s)
            × (rows e' ≡ update id next (rows e))
            × (next.rollback ≡ s.rollback)
            × (Apart s → Apart next)))

confirm_checks-awaiting :
    (v : Decision.Told) (sequence : ℕ) (r : Execution.Record) (s : Safety.Record) (o : Outcome)
    → decision_checks v sequence confirm r s ≡ ok o
    → same_state s.state Safety.awaiting_confirmation ≡ true
unfolding decision_checks choice_checks confirm_checks
confirm_checks-awaiting v sequence r s o h = ground arith

-- The row that a decision writes.
abbrev WrittenRow : ℕ → Safety.Record → Tables → Tables → Type 0
WrittenRow id s t u =
    (next : Safety.Record) × (u.safe_applies ≡ update id next t.safe_applies)
    × (next.rollback ≡ s.rollback)
    × (Apart s → Apart next)

unplanned :
    (s : Safety.Record)
    → same_state s.state Safety.awaiting_confirmation ≡ true
    → Apart s
    → s.rollback ≡ none
unplanned s w (inl h) = h
unplanned s w (inr (h, k)) = cc

module _ (g : Digests) (b : Budget) (v : Visit) (c : Command) (id sequence : ℕ) where
  decide_tx-row :
      (choice : Choice) (r : Execution.Record) (s : Safety.Record) (o : Outcome) (t u : Tables)
      → decision_checks v.told sequence choice r s ≡ ok o
      → decide_tx b v.told r s id sequence choice o t ≡ ok (tt, u)
      → WrittenRow id s t u
  decide_tx-row confirm r s o t u k h =
      let (_, _, _, _, _, _, wrote) = decide_tx-confirm b v.told r s id sequence o t u h in
      let w = confirm_checks-awaiting v.told sequence r s o k in
      (confirmed_record v.told s, wrote, refl, λ a. inl (unplanned s w a))
  decide_tx-row rollback r s o t u k h =
      let (_, _, _, _, none_yet, wrote) = decide_tx-rollback b v.told r s id sequence o t u h in
      (requested_record s, wrote, refl, λ a. inl none_yet)
  decide_tx-row other r s o t u k h = absurd (decide_tx-other b v.told r s id sequence o t u h)

  module _ (choice : Choice) where
    decision-row :
        (r : Execution.Record) (s : Safety.Record) (o : Outcome) (t u : Tables) (m : Mutation)
        → decision_checks v.told sequence choice r s ≡ ok o
        → decision g b v c id sequence choice r s o t ≡ ok (m, u)
        → WrittenRow id s t u
    unfolding decision
    decision-row r s o t u m k h =
        let (_, t1, h1, h2) = chain-ok _ _ h in
        subst (WrittenRow id s t) (ok-injective h2).1 (decide_tx-row choice r s o t t1 k h1)

    checked-Decided :
        (r : Execution.Record) (s : Safety.Record) (q : Result Outcome) (e : Engine)
        → lookup id (rows e) ≡ some s
        → decision_checks v.told sequence choice r s ≡ q
        → Decided id e (checked g b v c id sequence choice r s q e).1
    unfolding checked
    checked-Decided r s (err x) e here k = (refl, inl refl)
    checked-Decided r s (ok o) e here k = (
      refl,
      executed (
          execute-Committed g v.request v.fault c (decision g b v c id sequence choice r s o)
            e.store),
    )
      where
        executed :
            {u : Tables}
            → Committed v.request c (decision g b v c id sequence choice r s o) e.store.tables u
            → (u.safe_applies ≡ rows e)
              ⊎ ((z : Safety.Record) × (next : Safety.Record) × (lookup id (rows e) ≡ some z)
                  × (u.safe_applies ≡ update id next (rows e))
                  × (next.rollback ≡ z.rollback)
                  × (Apart z → Apart next))
        executed (inl same) = inl (ap (λ z. z.safe_applies) same)
        executed (inr (d, key, m, t1, h, w)) =
            let (next, wrote, planned, apart) = decision-row r s o e.store.tables t1 m k h in
            inr (s, next, here, ap (λ z. z.safe_applies) w ∙ wrote, planned, apart)

    decided-Decided :
        (p : Option Execution.Record) (q : Option Safety.Record) (e : Engine)
        → read_safety id e ≡ q
        → Decided id e (decided g b v c id sequence choice p q e).1
    unfolding decided
    decided-Decided (some r) (some s) e row =
        checked-Decided r s (decision_checks v.told sequence choice r s) e
          (read_safety-row id e s row) refl
    decided-Decided (some r) none e row = (refl, inl refl)
    decided-Decided none q e row = (refl, inl refl)

    undecided-Decided :
        (q : Result (Option Reply)) (e : Engine)
        → Decided id e (undecided g b v c id sequence choice q e).1
    unfolding undecided
    undecided-Decided (err x) e = (refl, inl refl)
    undecided-Decided (ok (some r)) e = (refl, inl refl)
    undecided-Decided (ok none) e = decided-Decided (read_record id e) (read_safety id e) e refl

    waiting-Decided : (e : Engine) → Decided id e (waiting g b v c id sequence choice e).1
    unfolding waiting
    waiting-Decided e =
        if_holds {A = Answer} (λ y. Decided id e y.1) v.ended (err canceled, e) _ (refl, inl refl)
          (if_holds {A = Answer} (λ y. Decided id e y.1) (claimed id e) (err transaction_busy, e) _
            (refl, inl refl) (undecided-Decided (replay g v.second_check c e.store) (claim id e)))

    fresh-Decided :
        (q : Result (Option Reply)) (e : Engine)
        → Decided id e (fresh g b v c id sequence choice q e).1
    unfolding fresh
    fresh-Decided (err x) e = (refl, inl refl)
    fresh-Decided (ok (some r)) e = (refl, inl refl)
    fresh-Decided (ok none) e =
        if_holds {A = Answer} (λ y. Decided id e y.1) (v.configured && e.store.writable) _
          (err safe_apply_capability_unavailable, e) (waiting-Decided e) (refl, inl refl)

    pub decide-Decided : (e : Engine) → Decided id e (decide g b v c id sequence choice e).1
    unfolding decide
    decide-Decided e = fresh-Decided (replay g v.first_check c e.store) e
