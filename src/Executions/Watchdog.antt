-- ===== src/Executions/Watchdog.antt =====
-- internal/repository/executions/safety.go: the watchdog of a Safe Apply. `step` is `safetyStep`:
-- it reads the journal, asks the provider, the probe and the clocks, and writes at most three
-- transactions. What it is told in one call is the record `Env`.
pub mod Frames
pub mod Effect
pub mod Rollback
pub mod Once
pub mod Run
use ovs_webui.Prelude.{
  ℕ, ◌+◌, ◌-◌, ◌^◌, Bool, true, false, not, ◌&&◌, ◌||◌, String, str_eq, List, [], ◌∷◌, ◌++◌, map,
  Option, none, some, ltb, leb, ◌==◌, if◌then◌else◌, keep, any, lookup, update, is_some,
}
use ovs_webui.Execution
use ovs_webui.Execution.{
  Outcome, Plan, committed, rejected, applied, same_commit, same_applied, same_outcome,
}
use ovs_webui.Safety
use ovs_webui.Safety.{
  Clock, Deadline, State, Record, preparing, awaiting_confirmation, confirmed, rollback_requested,
  rolling_back, rolled_back, rollback_conflict, recovery_required, not_committed, terminal,
  same_state, expired, new_deadline, state_name,
}
use ovs_webui.Jobs
use ovs_webui.Jobs.{Job, Transition}
use ovs_webui.Store.{
  Error, Tables, Store, Result, ok, err, Tx, pure, fail, gets, one, ◌>>=◌, ◌>>◌, guard, modify,
  chain, write, Fault, Checkpoint, not_found, unavailable, execution_record_budget,
  transaction_version_changed,
}
use ovs_webui.Evidence.{Budget, append, change_job}
use ovs_webui.Executions.{
  Times, Engine, Call, Sent, in_store, with_claim, save_outcome, parse_sequence, release_tables,
  audit_entry, load, loaded, missing, read_record, absent,
}

-- What `PrepareRollback` answers.
pub data Prepared : Type 0 where
  plan : Plan → Prepared
  conflict generation_changed failed : Prepared

-- All that one call is told from outside. The clock is read at several places of a call, and each
-- has its own reading. `reaches_send` says that `Commit` runs its callback, and `writes` that it
-- then writes the mutation; `reply` is the outcome that it returns.
pub record Env : Type 0 where
  pub clock : Clock
  pub deadline_clock : Clock
  pub first_save : ℕ
  pub second_save : ℕ
  pub times : Times
  pub observe : Plan → Outcome → Outcome
  pub probe_ok : Bool
  pub authorized : Bool
  pub domain : ℕ
  pub window : ℕ
  pub prepare : Plan → Prepared
  pub reaches_send : Bool
  pub writes : Bool
  pub reply : Outcome
  pub outcome_fault : Fault
  pub first_fault : Fault
  pub second_fault : Fault

pub checked_safety : Option Record → Option Record
checked_safety none = none
checked_safety (some s) = if s.domain == 0 then none else some s

-- `loadSafety`
unfoldable pub loaded_safety : ℕ → Tables → Option Record
unfolding checked_safety
loaded_safety id t = checked_safety (lookup id t.safe_applies)

-- `readSafety`, of an engine
abbrev pub read_safety : ℕ → Engine → Option Record
read_safety id e = if e.store.readable then loaded_safety id e.store.tables else none

needs_attention : State → Job → Bool
needs_attention s j =
    same_state s recovery_required
    || same_state s rollback_conflict
    || Jobs.same_state j.state Jobs.needs_attention

abbrev pub is_failure : State → Bool
is_failure rolled_back = true
is_failure not_committed = true
is_failure _ = false

abbrev reported : Execution.Record → Record → Outcome
reported r s = elim s.rollback [ none ↦ r.outcome | some _ ↦ s.outcome ]

-- The states that `updateSafety` gives to the job.
unfoldable pub job_transition : Execution.Record → Record → Job → Transition
unfolding needs_attention
job_transition r s j = record {
  state =
      if is_failure s.state
      then Jobs.failed
      else if same_state s.state confirmed
      then Jobs.succeeded
      else if needs_attention s.state j
      then Jobs.needs_attention
      else Jobs.running;
  dispatch = none;
  business = some (
      if is_failure s.state
      then Jobs.failure
      else if same_state s.state confirmed
      then Jobs.success
      else Jobs.Business.unknown);
  commit = some (reported r s).commit;
  applied = some (reported r s).applied;
  confirmation = some (
      if is_failure s.state
      then Jobs.expired
      else if same_state s.state confirmed
      then Jobs.confirmed
      else Jobs.pending);
  reason = s.reason;
}

abbrev checkpoint : Execution.Record → Checkpoint
checkpoint r = record {
  transaction = r.id;
  generation = r.generation;
  confirmed_at = r.updated;
  plan = r.plan;
}

-- The three documents that `updateSafety` writes first.
unfoldable pub write_safety : Execution.Record → Record → Tables → Tables
write_safety r s t = record t {
  safe_applies = update r.id s t.safe_applies;
  executions = update r.id r t.executions;
  journal = update r.id (record { sequence = r.sequence; state = state_name s.state }) t.journal;
}

-- What ends with the Safe Apply, and the checkpoint of a confirmed one.
unfoldable pub settle_safety : Execution.Record → State → Tables → Tables
settle_safety r s t =
    let t' = if terminal s then release_tables r.id t else t in
    if same_state s confirmed then record t' { last_known_good = some (checkpoint r) } else t'

module _ (b : Budget) where
  update_job : Execution.Record → Record → Job → Tx (Unit {0})
  update_job r s j = do
    change_job b j.id j.sequence (job_transition r s j) r.updated
    modify (settle_safety r s.state)
    append b (audit_entry "safe-apply-state" (state_name s.state) s.reason r)

  -- `updateSafety`; `now` is the wall clock.
  unfoldable pub update_safety : Execution.Record → Record → ℕ → Tx (Unit {0})
  unfolding update_job
  update_safety r s now = do
    guard (parse_sequence r.sequence) unavailable
    let r' = record r { sequence = r.sequence + 1; updated = now }
    guard (b.safety_fits s) unavailable
    guard (b.execution_fits r') execution_record_budget
    modify (write_safety r' s)
    j ← (λ t. one (lookup r.job t.jobs) not_found t)
    update_job r' s j

  -- The callback of `saveSafety`: a compare-and-swap on the sequence.
  unfoldable pub save_safety : Execution.Record → Record → ℕ → Tx (Unit {0})
  save_safety r s now = do
    current ← load r.id
    guard (current.sequence == r.sequence) transaction_version_changed
    update_safety current s now

  pub save : Fault → Execution.Record → Record → ℕ → Engine → Call
  save f r s now e = in_store (write f (save_safety r s now) e.store) e

  -- `holdSafety`
  unfoldable pub hold : Fault → Execution.Record → Record → State → String → ℕ → Engine → Call
  unfolding save
  hold f r s state reason now e =
      if same_state s.state state && str_eq s.reason reason
      then (ok tt, e)
      else save f r (record s { state = state; reason = reason; healthy_at = none }) now e

  -- The record with the durable intent of a rollback.
  unfoldable pub rolling : Record → Plan → Record
  rolling s p = record s {
    rollback = some p;
    state = rolling_back;
    reason = "rollback-dispatch-durable";
    healthy_at = none;
    outcome = record {
      commit = Execution.Commit.unknown;
      applied = Execution.Applied.unknown;
      reason = "rollback-dispatch-durable";
      target = none;
      current = none;
      observed = none;
    };
  }

  -- The record after the provider's reply.
  unfoldable pub replied : Record → Outcome → Record
  replied s o =
      if same_commit o.commit rejected
      then record s {
        outcome = o;
        state = rollback_conflict;
        reason = "rollback-transaction-rejected";
      }
      else record s { outcome = o; reason = o.reason }

  reread : Env → ℕ → Option Execution.Record → Option Record → Engine → Call
  unfolding replied save
  reread v id (some r) (some s) e = save v.second_fault r (replied s v.reply) v.second_save e
  reread v id _ _ e = (err (absent id e), e)

  abbrev dispatch : Env → ℕ → Plan → Engine → Engine
  dispatch v id p e =
      if v.writes
      then record e {
        sent = e.sent ++ (record { transaction = id; rollback = true; plan = p } ∷ []);
      }
      else e

  -- `provider.Commit(ctx, p, beforeSend)`, where the callback is `saveSafety`, and what follows.
  send : Env → Execution.Record → Record → Plan → Result (Unit {0}) × Engine → Call
  unfolding reread
  send v r s p (ok _, e) =
      let e' = dispatch v r.id p e in reread v r.id (read_record r.id e') (read_safety r.id e') e'
  send v r s p (err _, e) =
      hold v.second_fault r (record (rolling s p) { rollback = none }) recovery_required
        "rollback-not-dispatched" v.second_save e

  pub commit : Env → Execution.Record → Record → Plan → Engine → Call
  unfolding send
  commit v r s p e =
      if v.reaches_send
      then send v r s p (save v.first_fault r (rolling s p) v.first_save e)
      else send v r s p (err unavailable, e)

  rollback_plan : Env → Execution.Record → Record → Prepared → Engine → Call
  unfolding commit
  rollback_plan v r s (plan p) e = commit v r s p e
  rollback_plan v r s conflict e =
      hold v.first_fault r s rollback_conflict "rollback-conflict" v.first_save e
  rollback_plan v r s generation_changed e =
      hold v.first_fault r s recovery_required "rollback-generation-changed" v.first_save e
  rollback_plan v r s failed e =
      hold v.first_fault r s recovery_required "rollback-provider-unavailable" v.first_save e

  -- `rollback`
  unfoldable pub rollback : Env → Execution.Record → Record → Engine → Call
  unfolding rollback_plan
  rollback v r s e = rollback_plan v r s (v.prepare r.plan) e

  -- A rollback that was dispatched is only observed.
  settle_rollback : Env → Record → Outcome → Record
  settle_rollback v s o =
      if same_commit o.commit committed && same_applied o.applied applied
      then if v.probe_ok
        then record s {
          outcome = o;
          state = rolled_back;
          reason = "rollback-applied-management-reachable";
          healthy_at = some v.clock.wall;
        }
        else record s {
          outcome = o;
          state = recovery_required;
          reason = "rollback-management-path-unverified";
        }
      else record s { outcome = o; state = recovery_required; reason = o.reason }

  pub observe_rollback : Env → Execution.Record → Record → Plan → Engine → Call
  unfolding settle_rollback save
  observe_rollback v r s p e =
      let s' = settle_rollback v s (v.observe p s.outcome) in
      if same_state s'.state s.state
        && str_eq s'.reason s.reason
        && same_outcome s'.outcome s.outcome
      then (ok tt, e)
      else save v.first_fault r s' v.first_save e

  reversed : Env → Execution.Record → Record → Bool
  reversed v r s = ltb v.clock.wall r.updated || ltb v.clock.wall s.last_wall

  deadline_of : Record → Deadline
  deadline_of s = elim s.confirmation [ none ↦ s.preparation | some d ↦ d ]

  -- Whether the step starts compensation.
  unfoldable pub must_roll_back : Env → Execution.Record → Record → Bool
  unfolding reversed deadline_of
  must_roll_back v r s =
      expired (deadline_of s) v.clock
      || reversed v r s
      || not v.authorized
      || same_state s.state rollback_requested

  -- The trigger that is recorded: the last assignment of the source wins.
  unfoldable pub trigger_of : Env → Execution.Record → Record → String
  unfolding reversed
  trigger_of v r s =
      if same_state s.state rollback_requested
      then "authorized-rollback-requested"
      else if not v.authorized
      then "apply-authority-revoked"
      else if reversed v r s
      then "clock-reversed"
      else if not (v.clock.boot == s.preparation.boot)
      then "boot-changed"
      else if is_some s.confirmation
      then "confirmation-window-expired"
      else "preparation-budget-exhausted"

  triggered : Env → Execution.Record → Record → Record
  triggered v r s =
      if str_eq s.trigger "" && must_roll_back v r s
      then record s { trigger = trigger_of v r s }
      else s

  pub probe_failed : Env → Execution.Record → Record → Engine → Call
  probe_failed v r s0 e =
      let s = record s0 { probe_failures = s0.probe_failures + 1; healthy_at = none } in
      if leb 3 s.probe_failures
      then rollback v r (record s { trigger = "management-path-probes-failed" }) e
      else save v.first_fault r (record s { reason = "management-path-unverified" }) v.first_save e

  -- The record of an applied change whose management path answers.
  unfoldable pub healthy : Env → Record → Record
  healthy v s = record s {
    probe_failures = 0;
    healthy_at = some v.clock.wall;
    last_wall = v.clock.wall;
    confirmation = elim s.confirmation [
      | none ↦ some (new_deadline v.deadline_clock v.window)
      | some d ↦ some d
    ];
    state = awaiting_confirmation;
    reason = "applied-management-reachable";
  }

  -- A refresh of the proof writes the document alone.
  pub refresh : Execution.Record → Record → Tx (Unit {0})
  refresh r s = do
    current ← load r.id
    guard (current.sequence == r.sequence) transaction_version_changed
    modify (λ t. record t { safe_applies = update r.id s t.safe_applies })

  pub probe_passed : Env → Execution.Record → Record → Engine → Call
  unfolding save refresh
  probe_passed v r s e =
      let s' = healthy v s in
      if same_state s.state awaiting_confirmation && s.probe_failures == 0 && is_some s.healthy_at
      then in_store (write v.first_fault (refresh r s') e.store) e
      else save v.first_fault r s' v.first_save e

  -- The step once the outcome of the apply is committed and saved.
  pub follow : Env → Execution.Record → Record → Outcome → Engine → Call
  unfolding triggered probe_failed probe_passed
  follow v r s0 o e =
      let s = triggered v r s0 in
      if must_roll_back v r s0
      then rollback v r s e
      else if not (same_applied o.applied applied)
      then hold v.first_fault r s recovery_required o.reason v.first_save e
      else if v.probe_ok
      then probe_passed v r s e
      else probe_failed v r s e

  -- The journal is read again once the outcome has been saved.
  pub reloaded : Env → ℕ → Record → Outcome → Option Execution.Record → Engine → Call
  unfolding follow
  reloaded v id s o none e = (err (absent id e), e)
  reloaded v id s o (some r) e =
      if not (same_commit o.commit committed)
      then hold v.first_fault r s recovery_required "apply-outcome-unknown" v.first_save e
      else follow v r s o e

  pub observed : Env → ℕ → Record → Outcome → Result (Unit {0}) × Engine → Call
  unfolding reloaded
  observed v id s o (err x, e) = (err x, e)
  observed v id s o (ok _, e) = reloaded v id s o (read_record id e) e

  pub not_rolled_back : Env → ℕ → Execution.Record → Record → Engine → Call
  unfolding observed
  not_rolled_back v id r s e =
      if same_commit r.outcome.commit rejected
      then hold v.first_fault r s not_committed "apply-not-committed" v.first_save e
      else if Execution.same_state r.state Execution.admitted
      then (ok tt, e)
      else let o = v.observe r.plan r.outcome in
        observed v id s o (in_store (write v.outcome_fault (save_outcome b id o v.times) e.store) e)

  pub by_plan : Env → ℕ → Execution.Record → Record → Option Plan → Engine → Call
  unfolding observe_rollback not_rolled_back
  by_plan v id r s (some p) e = observe_rollback v r s p e
  by_plan v id r s none e = not_rolled_back v id r s e

  -- The body of `safetyStep` on the two records.
  pub watch : Env → ℕ → Execution.Record → Record → Engine → Call
  unfolding by_plan
  watch v id r s e =
      if terminal s.state
      then (ok tt, e)
      else if not (s.domain == v.domain)
      then hold v.first_fault r s recovery_required "management-probe-policy-changed" v.first_save e
      else if same_state s.state rollback_conflict
      then (ok tt, e)
      else by_plan v id r s s.rollback e

  pub watch_found : Env → ℕ → Option Execution.Record → Option Record → Engine → Call
  unfolding watch
  watch_found v id (some r) (some s) e = watch v id r s e
  watch_found v id _ _ e = (err (absent id e), e)

  -- `safetyStep`
  unfoldable pub step : Env → ℕ → Engine → Call
  unfolding watch_found
  step v id = with_claim id (λ e. watch_found v id (read_record id e) (read_safety id e) e)
