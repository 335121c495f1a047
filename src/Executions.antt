-- ===== src/Executions.antt =====
-- internal/repository/executions/engine.go: the journal of field executions, where the provider's
-- outcome of a transaction becomes the state of its record and of its job.

pub mod Watchdog
pub mod Frames
pub mod Outcomes
pub mod Decision
pub mod Protections
pub mod Admission
pub mod Moves
pub mod Submit
pub mod Examples
use ovs_webui.Prelude.{
  ℕ, ◌+◌, ◌-◌, ◌^◌, Bool, true, false, not, ◌&&◌, ◌||◌, String, List, [], ◌∷◌, ◌++◌, map, Option,
  none, some, ltb, ◌==◌, if◌then◌else◌, keep, any, lookup, update, is_some,
}
use ovs_webui.Execution
use ovs_webui.Execution.{
  Outcome, Record, State, Commit, Applied, Plan, admitted, committing, applying, succeeded, failed,
  recovery_required, not_sent, committed, rejected, not_applied, pending, applied, same_commit,
  same_applied, same_state, same_outcome, terminal, applied_for,
}
use ovs_webui.Safety
use ovs_webui.Jobs
use ovs_webui.Jobs.{Job, Transition, Entry}
use ovs_webui.Store.{
  Error, Tables, Store, Result, ok, err, Tx, pure, fail, gets, one, ◌>>=◌, ◌>>◌, guard, modify,
  reads, chain, write, Fault, Protection, Identity, IdentityState, pending as reserved, tombstone,
  JournalRow, not_found, unavailable, execution_record_budget,
}
use ovs_webui.Evidence.{Budget, append, change_job}

-- The readings of the wall clock in one call of `saveOutcome`.
pub record Times : Type 0 where
  pub at_state : ℕ
  pub at_reason : ℕ
  pub at_save : ℕ

-- time.Since(r.Created) < execution.AppliedFor
abbrev pub within_budget : Record → ℕ → Bool
within_budget r now = ltb (now - r.created) applied_for

-- `stateFor`
unfoldable pub state_for : Record → Outcome → ℕ → State
state_for r o now =
    if same_commit o.commit rejected
    then failed
    else if same_commit o.commit committed && same_applied o.applied applied
    then succeeded
    else if same_commit o.commit committed
        && same_applied o.applied pending
        && not (same_state r.state recovery_required)
        && within_budget r now
    then applying
    else recovery_required

abbrev max_int64 : ℕ
max_int64 = 9223372036854775807

abbrev pub parse_sequence : ℕ → Bool
parse_sequence n = not (n == 0) && ltb n max_int64

-- `RetirePending`
retire : ℕ → Identity → Identity
retire id i = record i {
  state = elim i.state [
    | reserved ↦ elim i.creation [
      | some owner ↦ if owner == id then tombstone else reserved
      | none ↦ reserved
    ]
    | other ↦ other
  ];
}

-- What ends with a transaction: its pending identities and its protections.
unfoldable pub release_tables : ℕ → Tables → Tables
unfolding retire
release_tables id t = record t {
  identities = map (retire id) t.identities;
  protections = keep (λ p. not (p.transaction == id)) t.protections;
}

pub audit_entry : String → String → String → Record → Entry
audit_entry operation result reason r = record {
  collection = Jobs.audit;
  operation = operation;
  result = result;
  reason = reason;
  job = some r.job;
  transaction = some r.id;
  created = r.updated;
  critical = true;
  dedup = none;
  digest = 0;
}

-- The states that `transition` gives to the job.
unfoldable pub job_transition : Bool → Job → Outcome → State → Transition
job_transition safe job o state = record {
  state =
      if safe
      then if same_state state recovery_required || Jobs.same_state job.state Jobs.needs_attention
        then Jobs.needs_attention
        else Jobs.running
      else if same_state state succeeded
      then Jobs.succeeded
      else if same_commit o.commit rejected
      then Jobs.failed
      else if same_state state recovery_required
      then Jobs.needs_attention
      else Jobs.running;
  dispatch = some (
      if same_state state succeeded || same_commit o.commit rejected
      then Jobs.completed
      else if same_commit o.commit Commit.unknown
      then Jobs.Dispatch.unknown
      else Jobs.sent);
  business = some (
      if safe
      then Jobs.Business.unknown
      else if same_state state succeeded
      then Jobs.success
      else if same_commit o.commit rejected
      then Jobs.failure
      else Jobs.Business.unknown);
  commit = some o.commit;
  applied = some o.applied;
  confirmation = none;
  reason = o.reason;
}

pub checked_record : ℕ → Option Record → Option Record
checked_record id none = none
checked_record id (some r) = if r.id == id && not (r.sequence == 0) then some r else none

-- `load`: a document that is not the row's own is not served.
unfoldable pub loaded : ℕ → Tables → Option Record
unfolding checked_record
loaded id t = checked_record id (lookup id t.executions)

abbrev pub missing : ℕ → Tables → Error
missing id t = if is_some (lookup id t.executions) then unavailable else not_found

abbrev pub load : ℕ → Tx Record
load id t = one (loaded id t) (missing id t) t

-- The two updates of a transition, and the end of a transaction that no Safe Apply owns.
unfoldable pub write_report : Bool → Record → Tables → Tables
write_report safe r t =
    let t' = record t {
      journal =
          update r.id (record { sequence = r.sequence; state = Execution.state_name r.state })
            t.journal;
      executions = update r.id r t.executions;
    } in
    if terminal r.state && not safe then release_tables r.id t' else t'

module _ (b : Budget) where
  report : Record → Job → Bool → Tx Record
  unfolding audit_entry
  report r job safe = do
    change_job b job.id job.sequence (job_transition safe job r.outcome r.state) r.updated
    modify (write_report safe r)
    append b (audit_entry "field-execution-state" (Execution.state_name r.state) r.outcome.reason r)
    pure r

  -- `transition`
  unfoldable pub transition : Record → Outcome → State → ℕ → Tx Record
  unfolding report
  transition r o state now = do
    guard (parse_sequence r.sequence) unavailable
    let r' = record r { sequence = r.sequence + 1; state = state; outcome = o; updated = now }
    guard (b.execution_fits r') execution_record_budget
    job ← (λ t. one (lookup r.job t.jobs) not_found t)
    reads (λ t. report r' job (is_some (lookup r.id t.safe_applies)))

abbrev pub exhausted : Record → Outcome → State → ℕ → Bool
exhausted r o state now =
    same_state state recovery_required
    && same_applied o.applied pending
    && not (within_budget r now)

pub settled_safely : Option Safety.Record → Bool
settled_safely none = false
settled_safely (some s) = Safety.terminal s.state

-- A row of `safe_applies` that `loadSafety` refuses.
pub damaged : Option Safety.Record → Bool
damaged none = false
damaged (some s) = s.domain == 0

module _ (b : Budget) where
  unfoldable pub record_outcome : Record → Outcome → Times → Tx (Unit {0})
  record_outcome r o0 now =
      let state = state_for r o0 now.at_state in
      let o =
        if exhausted r o0 state now.at_reason
        then record o0 { reason = "applied-budget-exhausted" }
        else o0 in
      if same_outcome r.outcome o && same_state r.state state
      then pure tt
      else transition b r o state now.at_save >> pure tt

  -- The callback of `saveOutcome`.
  unfoldable pub save_outcome : ℕ → Outcome → Times → Tx (Unit {0})
  unfolding record_outcome settled_safely damaged
  save_outcome id o now = do
    r ← load id
    reads (λ t.
        if terminal r.state
        then pure tt
        else if damaged (lookup id t.safe_applies)
        then fail unavailable
        else if settled_safely (lookup id t.safe_applies)
        then pure tt
        else record_outcome r o now)

-- A mutation that was written to the provider.
pub record Sent : Type 0 where
  pub transaction : ℕ
  pub rollback : Bool
  pub plan : Plan

-- The engine of a running process: its store, the identifiers that are claimed, and, for the
-- statements about it, what has been sent to the provider.
pub record Engine : Type 0 where
  pub store : Store
  pub active : List ℕ
  pub sent : List Sent

abbrev pub claimed : ℕ → Engine → Bool
claimed id e = any (λ j. j == id) e.active

-- `Read`, and the error where it returns none.
abbrev pub read_record : ℕ → Engine → Option Record
read_record id e = if e.store.readable then loaded id e.store.tables else none

abbrev pub absent : ℕ → Engine → Error
absent id e = if e.store.readable then missing id e.store.tables else unavailable

-- `claim` and `release`
abbrev pub claim : ℕ → Engine → Engine
claim id e = record e { active = id ∷ e.active }

abbrev pub release : ℕ → Engine → Engine
release id e = record e { active = keep (λ j. not (j == id)) e.active }

-- A call of the engine: it returns an error or not, and the engine.
abbrev pub Call : Type 0
Call = Result (Unit {0}) × Engine

abbrev pub in_store : Result (Unit {0}) × Store → Engine → Call
in_store (r, s) e = (r, record e { store = s })

abbrev pub with_claim : ℕ → (Engine → Call) → Engine → Call
with_claim id body e =
    if claimed id e then (ok tt, e) else (let (r, e') = body (claim id e) in (r, release id e'))

abbrev pub recovered : Outcome
recovered = record {
  commit = rejected;
  applied = not_applied;
  reason = "recovered-before-dispatch";
  target = none;
  current = none;
  observed = none;
}

module _ (b : Budget) where
  reconcile_record : Option Record → (Plan → Outcome → Outcome) → Times → Fault → ℕ → Engine → Call
  reconcile_record none observe now f id e = (err (absent id e), e)
  reconcile_record (some r) observe now f id e =
      if terminal r.state
      then (ok tt, e)
      else in_store
          (write f
            (save_outcome b id
              (if same_state r.state admitted then recovered else observe r.plan r.outcome) now)
            e.store)
          e

  -- `Reconcile`
  unfoldable pub reconcile : (Plan → Outcome → Outcome) → Times → Fault → ℕ → Engine → Call
  unfolding reconcile_record
  reconcile observe now f id =
      with_claim id (λ e. reconcile_record (read_record id e) observe now f id e)
