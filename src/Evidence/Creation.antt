-- ===== src/Evidence/Creation.antt =====
-- internal/repository/evidence/write.go: `CreateJob`. Identifiers are numbers, so that the checks of
-- their spelling have no part in it; what the request's context fills in is filled in already.
pub mod Bounds
use ovs_webui.Prelude.{
  ℕ, ◌+◌, ◌-◌, Bool, true, false, not, ◌&&◌, ◌||◌, String, str_eq, List, [], ◌∷◌, ◌++◌, Option,
  none, some, leb, ltb, if◌then◌else◌, count, lookup, length, is_some,
}
use ovs_webui.Execution
use ovs_webui.Execution.{Commit, Applied}
use ovs_webui.Jobs
use ovs_webui.Jobs.{
  Job, State, Dispatch, Business, Confirmation, Handler, Entry, queued, running, needs_attention,
  terminal, code, same_state, control_operation, max_jobs, max_queued, max_running,
  reserved_control_records,
}
use ovs_webui.Store.{
  Tables, Tx, Result, ok, err, pure, gets, guard, modify, ◌>>=◌, ◌>>◌, chain, reads, invalid_job,
  job_capacity_reached, job_budget_exceeded, conflict,
}
use ovs_webui.Evidence.{Budget, append, occupies}

-- The job that is asked for; a field that is empty takes its default. `some none` is
-- "not-applicable".
pub record Draft : Type 0 where
  pub id : ℕ
  pub operation : String
  pub owner : ℕ
  pub transaction : Option ℕ
  pub cancellable : Bool
  pub cancel_requested : Bool
  pub state : Option State
  pub dispatch : Option Dispatch
  pub business : Option Business
  pub commit : Option (Option Commit)
  pub applied : Option (Option Applied)
  pub confirmation : Option (Option Confirmation)
  pub reason : String
  pub handler : Option Handler
  pub created : ℕ

abbrev or_default : {A : Type 0} → Option A → A → A
or_default none d = d
or_default (some a) d = a

-- The defaults of an empty field, and what a terminal state sets.
unfoldable pub filled : Draft → Job
filled d =
    let state = or_default d.state queued in
    record {
      id = d.id;
      sequence = 1;
      state = state;
      operation = d.operation;
      owner = d.owner;
      transaction = d.transaction;
      cancellable = d.cancellable && not (terminal state);
      cancel_requested = d.cancel_requested;
      dispatch = or_default d.dispatch Jobs.not_started;
      business = or_default d.business Jobs.Business.unknown;
      commit = or_default d.commit (some Execution.not_sent);
      applied = or_default d.applied none;
      confirmation = or_default d.confirmation none;
      reason = if str_eq d.reason "" then "admitted" else d.reason;
      handler = d.handler;
      created = d.created;
      updated = d.created;
      completed_at = if terminal state then some d.created else none;
    }

is_initial : State → Bool
is_initial s =
    same_state s queued || same_state s running || terminal s || same_state s needs_attention

-- j.state='queued'
abbrev pub waits : ℕ × Job → Bool
waits (_, j) = same_state j.state queued

job_limit : String → ℕ
job_limit operation =
    if control_operation operation then max_jobs else max_jobs - reserved_control_records

-- Whether one more job fits.
unfoldable pub admits : Job → List (ℕ × Job) → Bool
unfolding job_limit
admits j jobs =
    ltb (length jobs) (job_limit j.operation)
    && not (same_state j.state queued && leb max_queued (count waits jobs))
    && not (same_state j.state running && leb max_running (count occupies jobs))

creation_event : Job → Entry
creation_event j = record {
  collection = Jobs.event;
  operation = "job-created";
  result = Jobs.state_name j.state;
  reason = j.reason;
  job = some j.id;
  transaction = j.transaction;
  created = j.created;
  critical = control_operation j.operation;
  dedup = none;
  digest = 0;
}

module _ (b : Budget) where
  -- `INSERT INTO jobs` and `saveJob` of a new job.
  unfoldable pub insert_job : Job → Tx (Unit {0})
  insert_job j = do
    guard (b.job_fits j) job_budget_exceeded
    modify (λ t. record t { revision = t.revision + 1; jobs = t.jobs ++ ((j.id, j) ∷ []) })

  -- `CreateJob`
  unfoldable pub create_job : Draft → Tx Job
  unfolding is_initial creation_event
  create_job d = do
    let j = filled d
    guard (code j.operation && is_initial j.state) invalid_job
    jobs ← gets (λ t. t.jobs)
    guard (admits j jobs) job_capacity_reached
    guard (code j.reason) invalid_job
    guard (not (is_some (lookup j.id jobs))) conflict
    insert_job j
    append b (creation_event j)
    pure j
