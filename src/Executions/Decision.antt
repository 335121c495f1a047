-- ===== src/Executions/Decision.antt =====
-- internal/repository/executions/safety.go: `Decide`, the user's confirmation or request of a
-- rollback. `decision_checks` is what it checks before the transaction, `decide_tx` the transaction
-- that the request is executed with; Call is the whole of it.
pub mod Laws
pub mod Call
mod Examples
use ovs_webui.Prelude.{
  ℕ, ◌+◌, Bool, true, false, not, ◌&&◌, ◌||◌, String, Option, none, some, ltb, ◌==◌, is_some,
  if◌then◌else◌, List,
}
use ovs_webui.Execution
use ovs_webui.Execution.{Outcome, same_commit, same_applied, committed, applied}
use ovs_webui.Safety
use ovs_webui.Safety.{
  Clock, Deadline, expired, same_state, terminal, awaiting_confirmation, rollback_conflict,
}
use ovs_webui.Store.{
  Error, Tables, Result, ok, err, Tx, pure, fail, guard, one, ◌>>=◌, ◌>>◌, chain,
  transaction_version_changed, transaction_settled, decision_expired,
  confirmation_evidence_unavailable, rollback_already_dispatched, invalid_decision,
}
use ovs_webui.Requests.{refuse}
use ovs_webui.Evidence.{Budget, append}
use ovs_webui.Executions.{load, state_for, audit_entry}
use ovs_webui.Executions.Watchdog.{update_safety}

-- The texts "confirm" and "rollback", and any other one.
pub data Choice : Type 0 where
  confirm rollback other : Choice

-- What one call is told. The clock is read at several places, and each has its own reading; `check`
-- and `authority` are the errors of the two authorizations inside the transaction.
pub record Told : Type 0 where
  pub first_clock : Clock
  pub domain : ℕ
  pub observed : Outcome
  pub probe_ok : Bool
  pub check : Option Error
  pub deadline_clock : Clock
  pub updated_clock : Clock
  pub last_clock : Clock
  pub confirmed_clock : Clock
  pub state_now : ℕ
  pub save_now : ℕ
  pub audit_now : ℕ
  pub authority : Option Error

-- Whether a confirmation deadline is missing or has expired.
abbrev pub closed : Option Deadline → Clock → Bool
closed none c = true
closed (some d) c = expired d c

unfoldable pub confirm_checks : Told → Safety.Record → Result Outcome
confirm_checks v s =
    if not (same_state s.state awaiting_confirmation)
      || closed s.confirmation v.first_clock
      || not (s.domain == v.domain)
    then err decision_expired
    else if not (same_commit v.observed.commit committed)
        || not (same_applied v.observed.applied applied)
        || not v.probe_ok
    then err confirmation_evidence_unavailable
    else ok v.observed

unfoldable pub choice_checks : Told → Choice → Execution.Record → Safety.Record → Result Outcome
choice_checks v confirm r s = confirm_checks v s
choice_checks v rollback r s = ok r.outcome
choice_checks v other r s = ok r.outcome

-- The checks on what `readSafety` has read; the outcome is used by a confirmation alone.
unfoldable pub decision_checks :
    Told → ℕ → Choice → Execution.Record → Safety.Record → Result Outcome
decision_checks v sequence choice r s =
    if not (r.sequence == sequence)
    then err transaction_version_changed
    else if terminal s.state
    then err transaction_settled
    else choice_checks v choice r s

-- The record with the proof that the confirmation was given on.
abbrev pub proved : Told → Execution.Record → Outcome → Execution.Record
proved v current o = record current { outcome = o; state = state_for current o v.state_now }

abbrev pub confirmed_record : Told → Safety.Record → Safety.Record
confirmed_record v s = record s {
  state = Safety.confirmed;
  reason = "connectivity-confirmed";
  healthy_at = some v.confirmed_clock.wall;
}

abbrev pub requested_record : Safety.Record → Safety.Record
requested_record s = record s {
  state = Safety.rollback_requested;
  reason = "authorized-rollback-requested";
}

module _ (b : Budget) (v : Told) (r : Execution.Record) (s : Safety.Record) where
  unfoldable pub finish : Execution.Record → Safety.Record → String → Tx (Unit {0})
  finish current next result = do
    update_safety b current next v.save_now
    append b (record (audit_entry "safe-apply-decision" result "" r) { created = v.audit_now })

  unfoldable pub apply_choice : Choice → Outcome → Execution.Record → Tx (Unit {0})
  unfolding finish
  apply_choice confirm o current = do
    guard
        (not (
          closed s.confirmation v.deadline_clock
          || ltb v.updated_clock.wall current.updated
          || ltb v.last_clock.wall s.last_wall))
        decision_expired
    refuse v.authority
    finish (proved v current o) (confirmed_record v s) "confirm"
  apply_choice rollback o current = do
    guard (not (is_some s.rollback || same_state s.state rollback_conflict))
        rollback_already_dispatched
    finish current (requested_record s) "rollback"
  apply_choice other o current = fail invalid_decision

  -- The callback of `Decide`.
  unfoldable pub decide_tx : ℕ → ℕ → Choice → Outcome → Tx (Unit {0})
  unfolding apply_choice
  decide_tx id sequence choice o = do
    refuse v.check
    current ← load id
    guard (current.sequence == sequence) transaction_version_changed
    apply_choice choice o current
