-- ===== src/Executions/Admission.antt =====
-- internal/repository/executions/engine.go and safety.go: the transaction in which `submit` admits an
-- execution, and the one in which it is about to be sent. New identifiers are arguments.
pub mod Checks
pub mod Steps
pub mod Laws
use ovs_webui.Prelude.{
  ℕ, ◌+◌, Bool, true, false, not, ◌&&◌, ◌||◌, String, str_eq, List, [], ◌∷◌, ◌++◌, Option, none,
  some, ltb, ◌==◌, if◌then◌else◌, count, any, lookup, length, is_some,
}
use ovs_webui.Prelude.Int.{pos}
use ovs_webui.Candidate.{Binding, Intent}
use ovs_webui.Execution
use ovs_webui.Execution.{Authorization, Plan, Record, Outcome, admitted, committing, terminal}
use ovs_webui.Safety
use ovs_webui.Safety.{Clock, new_deadline, preparation_budget, expired}
use ovs_webui.Jobs
use ovs_webui.Jobs.{Entry}
use ovs_webui.Receipts.{Ref}
use ovs_webui.Store.{
  Error, Tables, Result, ok, err, Tx, pure, fail, gets, one, ◌>>=◌, ◌>>◌, guard, modify, choose,
  reads, chain, JournalRow, Anchor, Resolution, unavailable, not_found, conflict,
  execution_capacity_reached, execution_authority_changed, execution_record_budget,
  execution_already_dispatched, safe_apply_expired, safe_apply_already_resolved,
  management_path_protected, safe_clock_unavailable,
}
use ovs_webui.Evidence.{Budget, append}
use ovs_webui.Evidence.Creation.{Draft, create_job}
use ovs_webui.Inventory.{reserve_creations, reserve_restorations}
use ovs_webui.Requests.{Mutation, refuse}
use ovs_webui.Executions.{load, transition, settled_safely}
use ovs_webui.Executions.Protections.{protect_intents}
use ovs_webui.Executions.Watchdog.{loaded_safety}

-- `execution.Request`, with what is used of the candidate in its envelope
pub record Request : Type 0 where
  pub id : ℕ
  pub validation : ℕ
  pub candidate : ℕ
  pub candidate_revision : ℕ
  pub intents : List Intent

-- `safeAdmission`: the epoch of its command, the digest of the payload and the reservation
pub record SafeAdmission : Type 0 where
  pub epoch : ℕ
  pub fingerprint : ℕ
  pub reservation : ℕ

-- What the transaction is told: new identifiers, the context of the request, the plan with the
-- bindings of its graph and the marker of its rollback, the clocks, and the answers of the two
-- authorizations.
pub record Told : Type 0 where
  pub id : ℕ
  pub job : ℕ
  pub correlation : ℕ
  pub principal : ℕ
  pub operation : String
  pub plan : Plan
  pub graph : List Binding
  pub rollback_marker : ℕ
  pub now : ℕ
  pub fresh : Result Authorization
  pub domain : ℕ
  pub clock : Clock
  pub safe_authority : Option Error

abbrev pub max_records : ℕ
max_records = 1024

abbrev pub max_unsettled : ℕ
max_unsettled = 16

unfoldable pub same_authorization : Authorization → Authorization → Bool
same_authorization a c =
    a.owner == c.owner
    && a.credential == c.credential
    && a.epoch == c.epoch
    && a.policy == c.policy
    && a.provider_policy == c.provider_policy
    && a.change_set == c.change_set
    && a.validation == c.validation
    && a.scope == c.scope
    && a.expires == c.expires
    && a.field_capabilities == c.field_capabilities

-- The answer of the authorizer has to be what it was before.
unfoldable pub unchanged : Result Authorization → Authorization → Tx (Unit {0})
unchanged (err e) c = fail e
unchanged (ok a) c = guard (same_authorization a c) execution_authority_changed

-- f.state NOT IN ('succeeded','failed') AND NOT EXISTS (… s.state IN ('confirmed',…))
abbrev pub is_unsettled : List (ℕ × Safety.Record) → ℕ × Record → Bool
is_unsettled safe (id, r) = not (terminal r.state) && not (settled_safely (lookup id safe))

unfoldable pub has_room : Tables → Bool
has_room t =
    ltb (length t.executions) max_records
    && ltb (count (is_unsettled t.safe_applies) t.executions) max_unsettled

-- state NOT IN ('confirmed','rolled-back','not-committed') AND domain=?
abbrev pub holds : ℕ → ℕ × Safety.Record → Bool
holds domain (_, s) = s.domain == domain && not (Safety.terminal s.state)

abbrev pub same_resolution : Resolution → Resolution → Bool
same_resolution a c = a.owner == c.owner && a.epoch == c.epoch && a.request == c.request

abbrev has_request : Resolution → ℕ × Resolution → Bool
has_request x (_, y) = same_resolution x y

abbrev pub resolution_for : Record → SafeAdmission → Resolution
resolution_for r a = record { owner = r.owner; epoch = a.epoch; request = r.request_id }

-- What is waited for of a new execution.
abbrev new_outcome : String → Outcome
new_outcome reason = record {
  commit = Execution.not_sent;
  applied = Execution.not_applied;
  reason = reason;
  target = none;
  current = none;
  observed = none;
}

-- The unknown outcome of an execution that is about to be sent.
abbrev pub intended : Outcome
intended = record {
  commit = Execution.Commit.unknown;
  applied = Execution.Applied.unknown;
  reason = "dispatch-intent-durable";
  target = none;
  current = none;
  observed = none;
}

module _ (v : Told) where
  -- The Safe Apply of a new execution; its empty outcome is "not-sent".
  unfoldable pub preparing_record : SafeAdmission → Safety.Record
  preparing_record a = record {
    last_wall = 0;
    state = Safety.preparing;
    reason = "checkpoint-durable";
    domain = v.domain;
    reservation = a.reservation;
    fingerprint = a.fingerprint;
    trigger = "";
    preparation = new_deadline v.clock preparation_budget;
    confirmation = none;
    healthy_at = none;
    probe_failures = 0;
    rollback = none;
    outcome = new_outcome "";
  }

  unfoldable pub insert_safety : Record → SafeAdmission → Tx (Unit {0})
  insert_safety r a = do
    t ← gets (λ t. t)
    guard
        (not (is_some (lookup r.id t.safe_applies))
          && not (any (has_request (resolution_for r a)) t.safe_requests))
        conflict
    modify (λ t. record t {
      safe_applies = t.safe_applies ++ ((r.id, preparing_record a) ∷ []);
      safe_requests = t.safe_requests ++ ((r.id, resolution_for r a) ∷ []);
    })

  -- `admitSafety`
  unfoldable pub admit_safety : Record → SafeAdmission → Tx (Unit {0})
  admit_safety r a = do
    t ← gets (λ t. t)
    guard (not (any (same_resolution (resolution_for r a)) t.resolutions))
        safe_apply_already_resolved
    guard (count (holds v.domain) t.safe_applies == 0) management_path_protected
    refuse v.safe_authority
    guard (not (v.clock.boot == 0)) safe_clock_unavailable
    insert_safety r a

  unfoldable pub admit_safely : Record → Option SafeAdmission → Tx (Unit {0})
  admit_safely r none = pure tt
  admit_safely r (some a) = admit_safety r a

  -- The record of the new execution.
  unfoldable pub admitted_record : Request → Authorization → Record
  admitted_record q c = record {
    id = v.id;
    sequence = 1;
    state = admitted;
    owner = c.owner;
    request_id = q.id;
    job = v.job;
    correlation = v.correlation;
    validation = q.validation;
    candidate = q.candidate;
    candidate_revision = q.candidate_revision;
    generation = v.plan.generation;
    created = v.now;
    updated = v.now;
    outcome = new_outcome "admitted";
    authorization = c;
    plan = v.plan;
  }

  anchor_for : Record → Anchor
  anchor_for r = record {
    transaction = r.id;
    correlation = r.correlation;
    owner = r.owner;
    candidate = r.candidate;
    candidate_revision = r.candidate_revision;
    scope = r.authorization.scope;
    created_at = v.now;
  }

  abbrev same_anchor : Record → Anchor → Bool
  same_anchor r a = a.transaction == r.id || a.correlation == r.correlation

  -- INSERT INTO request_receipts and transaction_journal
  unfoldable pub insert_journal : Record → Tx (Unit {0})
  unfolding anchor_for
  insert_journal r = do
    t ← gets (λ t. t)
    guard (not (any (same_anchor r) t.anchors) && not (is_some (lookup r.id t.journal))) conflict
    modify (λ t. record t {
      anchors = t.anchors ++ (anchor_for r ∷ []);
      journal =
          t.journal ++ ((r.id, record { sequence = 1; state = Execution.state_name r.state }) ∷ []);
    })

  abbrev same_row : Record → ℕ × Record → Bool
  same_row r (id, x) = id == r.id || x.job == r.job

  -- INSERT INTO field_executions
  unfoldable pub insert_execution : Record → Tx (Unit {0})
  insert_execution r = do
    t ← gets (λ t. t)
    guard (not (any (same_row r) t.executions)) conflict
    modify (λ t. record t { executions = t.executions ++ ((r.id, r) ∷ []) })

  job_draft : Draft
  job_draft = record {
    id = v.job;
    operation = v.operation;
    owner = v.principal;
    transaction = some v.id;
    cancellable = false;
    cancel_requested = false;
    state = some Jobs.running;
    dispatch = some Jobs.prepared;
    business = none;
    commit = none;
    applied = some (some Execution.Applied.unknown);
    confirmation = none;
    reason = "execution-admitted";
    handler = some Jobs.field_execution;
    created = v.now;
  }

  admission_entry : Entry
  admission_entry = record {
    collection = Jobs.audit;
    operation = "execute-fields";
    result = "admitted";
    reason = "";
    job = some v.job;
    transaction = some v.id;
    created = v.now;
    critical = false;
    dedup = none;
    digest = 0;
  }

  unfoldable pub admission_reply : Mutation
  admission_reply = record {
    status = 202;
    body = 0;
    body_ok = true;
    resource = some (record { kind = "transaction"; id = v.id });
    job = some (record { kind = "job"; id = v.job });
    terminal = false;
    secret_response = false;
  }

  module _ (b : Budget) (q : Request) (c : Authorization) (safe : Option SafeAdmission) where
    -- The identities and the protections of the execution.
    unfoldable pub reserve : Tx (Unit {0})
    reserve = do
      reserve_creations v.id v.plan.marker q.intents
      reserve_restorations v.id v.rollback_marker q.intents
      protect_intents v.id v.plan.root v.graph q.intents

    -- Its job, its record, its Safe Apply and the record of evidence.
    unfoldable pub enter : Record → Tx (Unit {0})
    unfolding job_draft admission_entry
    enter r = do
      create_job b job_draft
      insert_execution r
      admit_safely r safe
      append b admission_entry

    -- The callback of `submit` in `Execute`.
    unfoldable pub admission : Tx Mutation
    admission = do
      unchanged v.fresh c
      t ← gets (λ t. t)
      guard (has_room t) execution_capacity_reached
      guard (b.execution_fits (admitted_record q c)) execution_record_budget
      insert_journal (admitted_record q c)
      reserve
      enter (admitted_record q c)
      pure admission_reply

-- What the callback before the bytes are sent is told.
pub record BeforeSend : Type 0 where
  pub fresh : Result Authorization
  pub wall : ℕ
  pub clock : Clock
  pub now : ℕ

ready : Clock → Option Safety.Record → Tx (Unit {0})
ready clock none = fail unavailable
ready clock (some s) =
    guard (Safety.same_state s.state Safety.preparing && not (expired s.preparation clock))
      safe_apply_expired

-- The Safe Apply of the execution, if it has one, is being prepared.
unfoldable pub safe_ready : Bool → Clock → ℕ → Tx (Unit {0})
unfolding ready
safe_ready false clock id = pure tt
safe_ready true clock id = reads (λ t. ready clock (loaded_safety id t))

-- The transaction of `beforeSend`.
unfoldable pub before_send : Budget → BeforeSend → ℕ → Authorization → Bool → Tx (Unit {0})
before_send b v id c safe = do
  unchanged v.fresh c
  guard (ltb v.wall c.expires) execution_authority_changed
  current ← load id
  guard (Execution.same_state current.state admitted) execution_already_dispatched
  safe_ready safe v.clock id
  transition b current intended committing v.now
  pure tt
