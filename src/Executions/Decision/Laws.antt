-- ===== src/Executions/Decision/Laws.antt =====
-- What a decision of the user needs, and what it writes.
use ovs_webui.Prelude.{
  ℕ, ◌≤◌, ◌≡◌, refl, subst, true, false, not, ◌||◌, String, Option, none, some, ltb, ==_iff, arith,
  update, ◌∙◌,
}
use ovs_webui.Execution
use ovs_webui.Execution.{Outcome}
use ovs_webui.Safety
use ovs_webui.Safety.{Clock, Deadline, expired, same_state}
use ovs_webui.Store.{Error, Tables, Tx, ok, chain, chain-ok, guard-ok, one-ok}
use ovs_webui.Evidence.{Budget}
use ovs_webui.Evidence.Laws.{append-SameRest}
use ovs_webui.Executions.{loaded}
use ovs_webui.Executions.Watchdog.Frames.{update_safety-safe_applies, loaded-row}
use ovs_webui.Requests.{refuse}
use ovs_webui.Executions.Decision.{
  Told, confirm, rollback, other, closed, proved, confirmed_record, requested_record, finish,
  apply_choice, decide_tx,
}

refuse-ok :
    {B : Type 0} (o : Option Error) (t : Tables) (f : Unit {0} → Tx B) {x : B} {u : Tables}
    → chain (refuse o t) f ≡ ok (x, u)
    → (o ≡ none) × (f tt t ≡ ok (x, u))
unfolding refuse chain
refuse-ok none t f h = (refl, h)
refuse-ok (some e) t f h = cc

-- The deadline of a confirmation that is not too late.
unfoldable pub Timely : Told → Execution.Record → Safety.Record → Type 0
Timely v current s =
    (d : Deadline) × (s.confirmation ≡ some d)
    × (expired d v.deadline_clock ≡ false)
    × (current.updated ≤ v.updated_clock.wall)
    × (s.last_wall ≤ v.last_clock.wall)

timely :
    (v : Told) (current : Execution.Record) (s : Safety.Record) (o : Option Deadline)
    → s.confirmation ≡ o
    → not (
        closed o v.deadline_clock
        || ltb v.updated_clock.wall current.updated
        || ltb v.last_clock.wall s.last_wall)
      ≡ true
    → Timely v current s
unfolding Timely
timely v current s none e h = cc
timely v current s (some d) e h = (d, e, ground arith, ground arith, ground arith)

module _ (b : Budget) (v : Told) (r : Execution.Record) (s : Safety.Record) (t u : Tables) where
  finish-safe_applies :
      (current : Execution.Record) (next : Safety.Record) (result : String)
      → finish b v r s current next result t ≡ ok (tt, u)
      → u.safe_applies ≡ update current.id next t.safe_applies
  unfolding finish
  finish-safe_applies current next result h =
      let (_, w, h1, h2) = chain-ok _ _ h in
      (append-SameRest b _ w u h2).0.safe_applies
      ∙ update_safety-safe_applies b t w current next v.save_now h1

pub decide_tx-confirm :
    (b : Budget) (v : Told) (r : Execution.Record) (s : Safety.Record) (id sequence : ℕ)
    (o : Outcome) (t u : Tables)
    → decide_tx b v r s id sequence confirm o t ≡ ok (tt, u)
    → (v.check ≡ none)
      × (v.authority ≡ none)
      × (current : Execution.Record) × (loaded id t ≡ some current)
      × (current.sequence ≡ sequence)
      × Timely v current s
      × (u.safe_applies ≡ update id (confirmed_record v s) t.safe_applies)
unfolding decide_tx apply_choice
decide_tx-confirm b v r s id sequence o t u h =
    let (checked, h1) = refuse-ok v.check t _ h in
    let (current, found, h2) = one-ok _ _ _ _ h1 in
    let (same, h3) = guard-ok _ _ _ _ h2 in
    let (time, h4) = guard-ok _ _ _ _ h3 in
    let (authorized, h5) = refuse-ok v.authority t _ h4 in
    let own = (loaded-row id t current found).0 in
    let wrote =
      finish-safe_applies b v r s t u (proved v current o) (confirmed_record v s) "confirm" h5 in
    (
      checked,
      authorized,
      current,
      found,
      (==_iff current.sequence sequence).0 same,
      timely v current s s.confirmation refl time,
      subst (λ i. u.safe_applies ≡ update i (confirmed_record v s) t.safe_applies) own wrote,
    )

pub decide_tx-rollback :
    (b : Budget) (v : Told) (r : Execution.Record) (s : Safety.Record) (id sequence : ℕ)
    (o : Outcome) (t u : Tables)
    → decide_tx b v r s id sequence rollback o t ≡ ok (tt, u)
    → (v.check ≡ none)
      × (current : Execution.Record) × (loaded id t ≡ some current)
      × (current.sequence ≡ sequence)
      × (s.rollback ≡ none)
      × (u.safe_applies ≡ update id (requested_record s) t.safe_applies)
unfolding decide_tx apply_choice
decide_tx-rollback b v r s id sequence o t u h =
    let (checked, h1) = refuse-ok v.check t _ h in
    let (current, found, h2) = one-ok _ _ _ _ h1 in
    let (same, h3) = guard-ok _ _ _ _ h2 in
    let (fresh, h4) = guard-ok _ _ _ _ h3 in
    let own = (loaded-row id t current found).0 in
    let wrote = finish-safe_applies b v r s t u current (requested_record s) "rollback" h4 in
    (
      checked,
      current,
      found,
      (==_iff current.sequence sequence).0 same,
      ground arith,
      subst (λ i. u.safe_applies ≡ update i (requested_record s) t.safe_applies) own wrote,
    )

-- Any other choice is refused.
pub decide_tx-other :
    (b : Budget) (v : Told) (r : Execution.Record) (s : Safety.Record) (id sequence : ℕ)
    (o : Outcome) (t u : Tables)
    → decide_tx b v r s id sequence other o t ≡ ok (tt, u)
    → ⊥
unfolding decide_tx apply_choice
decide_tx-other b v r s id sequence o t u h =
    let (_, w, s1, h1) = chain-ok _ _ h in
    let (current, found, h2) = one-ok _ _ _ _ h1 in let (e, h3) = guard-ok _ _ _ _ h2 in cc
