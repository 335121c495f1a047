-- ===== src/Evidence.antt =====
-- internal/repository/evidence/write.go: the journal of evidence and the state machine of jobs. The
-- size of a document is a parameter: it depends on the JSON encoding.

pub mod Laws
pub mod Limits
pub mod Creation
mod Examples
use ovs_webui.Prelude.{
  ℕ, ◌+◌, ◌-◌, ◌^◌, ◌/◌, Bool, true, false, not, ◌&&◌, ◌||◌, String, str_eq, List, [], ◌∷◌, ◌++◌,
  map, Option, none, some, leb, ltb, ◌==◌, if◌then◌else◌, count, any, lookup, update,
}
use ovs_webui.Execution
use ovs_webui.Receipts.{Ref, Row, completed}
use ovs_webui.Jobs
use ovs_webui.Jobs.{
  Job, Transition, Entry, Collection, event, audit, State, queued, running, cancel_requested,
  needs_attention, succeeded, failed, Handler, field_execution, max_events, max_audit, max_running,
  reserved_control_records, terminal, code, same_state,
}
use ovs_webui.Store.{
  Error, Tables, Result, ok, err, Tx, pure, fail, gets, one, ◌>>=◌, ◌>>◌, guard, modify, chain,
  not_found, job_revision_changed, job_terminal, invalid_job_transition,
  job_running_capacity_reached, job_sequence_invalid, job_budget_exceeded, invalid_evidence,
  evidence_dedup_mismatch, evidence_capacity_reached, evidence_budget_exceeded,
}

-- Whether a document is within its byte budget.
pub record Budget : Type 0 where
  pub entry_fits : Entry → Bool
  pub job_fits : Job → Bool
  pub execution_fits : Execution.Record → Bool
  pub safety_fits : ovs_webui.Safety.Record → Bool

abbrev pub same_collection : Collection → Collection → Bool
same_collection event event = true
same_collection audit audit = true
same_collection _ _ = false

abbrev limit_of : Collection → ℕ
limit_of event = max_events
limit_of audit = max_audit

-- The rows that `critical` work may fill, and those that other work may.
unfoldable pub capacity : Entry → ℕ
capacity e =
    if e.critical then limit_of e.collection else limit_of e.collection - reserved_control_records

pub is_well_formed : Entry → Bool
is_well_formed e = code e.operation && code e.result && (str_eq e.reason "" || code e.reason)

unfoldable pub same_key : Option ℕ → Option ℕ → Bool
same_key (some a) (some b) = a == b
same_key _ _ = false

-- SELECT fingerprint … WHERE collection=? AND source=? AND dedup_key=?
unfoldable pub find_duplicate : Entry → List Entry → Option Entry
find_duplicate e [] = none
find_duplicate e (x ∷ xs) =
    let rest = find_duplicate e xs in
    if same_collection e.collection x.collection && same_key e.dedup x.dedup then some x else rest

module _ (b : Budget) where
  unfoldable pub insert_entry : Entry → Tx (Unit {0})
  insert_entry e = do
    n ← gets (λ t. count (λ x. same_collection e.collection x.collection) t.entries)
    guard (ltb n (capacity e)) evidence_capacity_reached
    guard (b.entry_fits e) evidence_budget_exceeded
    modify (λ t. record t { entries = t.entries ++ (e ∷ []) })

  unfoldable pub resolve : Entry → Option Entry → Tx (Unit {0})
  resolve e none = insert_entry e
  resolve e (some prior) = guard (prior.digest == e.digest) evidence_dedup_mismatch

  -- `Append`
  unfoldable pub append : Entry → Tx (Unit {0})
  unfolding is_well_formed resolve insert_entry find_duplicate capacity same_key
  append e = do
    guard (is_well_formed e) invalid_evidence
    resolve e (← gets (λ t. find_duplicate e t.entries))

abbrev pub or_keep : {A : Type 0} → Option A → A → A
or_keep none old = old
or_keep (some new) old = new

abbrev pub or_keep_option : {A : Type 0} → Option A → Option A → Option A
or_keep_option none old = old
or_keep_option (some new) old = some new

is_field_execution : Option Handler → Bool
is_field_execution (some field_execution) = true
is_field_execution _ = false

abbrev is_active : State → Bool
is_active running = true
is_active cancel_requested = true
is_active needs_attention = true
is_active _ = false

-- The `switch` of `ChangeJob`.
unfoldable pub allows : Job → State → Bool
unfolding is_field_execution
allows j to =
    if same_state j.state queued
    then same_state to running
      || same_state to State.cancelled
      || same_state to failed
      || same_state to needs_attention
    else is_active j.state
      && (same_state to cancel_requested
          || same_state to needs_attention
          || terminal to
          || (is_field_execution j.handler && same_state to running && same_state j.state running))

-- The job that `ChangeJob` is about to save.
unfoldable pub advance : Job → Transition → ℕ → Job
advance j t now = record j {
  state = t.state;
  updated = now;
  reason = t.reason;
  dispatch = or_keep t.dispatch j.dispatch;
  business = or_keep t.business j.business;
  commit = or_keep_option t.commit j.commit;
  applied = or_keep_option t.applied j.applied;
  confirmation = or_keep_option t.confirmation j.confirmation;
  cancel_requested = j.cancel_requested || same_state t.state cancel_requested;
  cancellable = j.cancellable && not (same_state t.state cancel_requested || terminal t.state);
  completed_at = if terminal t.state then some now else j.completed_at;
}

-- `state IN ('running','cancel-requested')`
abbrev pub occupies : ℕ × Job → Bool
occupies (_, j) = same_state j.state running || same_state j.state cancel_requested

-- UPDATE api_receipts SET receipt=?,completed_at_ms=? of a job's receipts that are not completed
is_open : Option ℕ → Bool
is_open none = true
is_open (some _) = false

links : ℕ → Option Ref → Bool
links id none = false
links id (some r) = r.id == id

complete : ℕ → ℕ → Row → Row
unfolding is_open links
complete id now r =
    if is_open r.completed_at && links id r.receipt.job
    then record r {
      receipt = record (r.receipt) { stage = completed };
      completed_at = some (now / 1000000);
    }
    else r

job_event : Job → ℕ → Entry
job_event j now = record {
  collection = event;
  operation = "job-state-changed";
  result = Jobs.state_name j.state;
  reason = j.reason;
  job = some j.id;
  transaction = j.transaction;
  created = now;
  critical = true;
  dedup = none;
  digest = 0;
}

-- `completeReceipts`, run when the job has completed.
complete_receipts : Job → ℕ → Tx (Unit {0})
unfolding complete
complete_receipts j now = modify (λ t. elim j.completed_at [
  | none ↦ t
  | some _ ↦ record t { receipts = map (complete j.id now) t.receipts }
])

module _ (b : Budget) where
  -- `saveJob` on a job that exists.
  save_job : Job → Tx Job
  save_job j = do
    guard (not (j.sequence == 0) && not (j.sequence == 2 ^ 64 - 1)) job_sequence_invalid
    let saved = record j { sequence = j.sequence + 1 }
    guard (b.job_fits saved) job_budget_exceeded
    modify (λ t. record t { revision = t.revision + 1; jobs = update saved.id saved t.jobs })
    pure saved

  -- The capacity of running jobs is checked when a queued job starts.
  room : Job → State → Tx (Unit {0})
  room j to = do
    n ← gets (λ t. count occupies t.jobs)
    guard (not (same_state j.state queued && same_state to running) || ltb n max_running)
        job_running_capacity_reached

  change_loaded : Job → ℕ → Transition → ℕ → Tx Job
  change_loaded j expected t now = do
    guard (expected == j.sequence) job_revision_changed
    guard (not (terminal j.state)) job_terminal
    guard (allows j t.state && code t.reason) invalid_job_transition
    room j t.state
    saved ← save_job (advance j t now)
    complete_receipts saved now
    append b (job_event saved now)
    pure saved

  -- `ChangeJob`
  unfoldable pub change_job : ℕ → ℕ → Transition → ℕ → Tx Job
  unfolding change_loaded room save_job complete_receipts job_event same_key
  change_job id expected t now = do
    j ← (λ s. one (lookup id s.jobs) not_found s)
    change_loaded j expected t now
