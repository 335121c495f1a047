-- ===== src/Executions/Examples.antt =====
-- The reconciler and the watchdog on a journal with one transaction.
use ovs_webui.Prelude.{◌≤◌, ◌≡◌, refl, true, false, List, [], ◌∷◌, none, some, arith, lookup}
use ovs_webui.Prelude.Int.{pos}
use ovs_webui.Execution
use ovs_webui.Execution.{Plan, Outcome, State, Commit, Applied}
use ovs_webui.Safety
use ovs_webui.Jobs
use ovs_webui.Jobs.{Job}
use ovs_webui.Store.{Tables, ok, stored, err}
use ovs_webui.Evidence.{Budget}
use ovs_webui.Executions.{Engine}
use ovs_webui.Executions.Watchdog.{Env, plan}
use ovs_webui.Executions.Decision.{Told, Choice, rollback, decide_tx}
use ovs_webui.Executions.Watchdog.Effect.{rows, Evolves}
use ovs_webui.Executions.Watchdog.Run.{
  Turn, watchdog, reconciler, run, sends, intent, run-rollback_once, run-Evolves,
}

abbrev pub budget : Budget
budget = record {
  entry_fits = λ e. true;
  job_fits = λ j. true;
  execution_fits = λ r. true;
  safety_fits = λ s. true;
}

abbrev pub forward_plan : Plan
forward_plan = record { id = 11; generation = 1; root = 2; marker = 3; digest = 4 }

abbrev pub inverse : Plan
inverse = record { id = 12; generation = 1; root = 2; marker = 5; digest = 6 }

abbrev pub done : Outcome
done = record {
  commit = Commit.committed;
  applied = Applied.applied;
  reason = "applied";
  target = some 3;
  current = some 3;
  observed = none;
}

abbrev pub authority : Execution.Authorization
authority = record {
  owner = 1;
  credential = 1;
  epoch = 1;
  policy = 1;
  provider_policy = 1;
  change_set = 1;
  validation = 1;
  scope = 1;
  expires = 900;
  field_capabilities = 1;
}

abbrev pub applied_record : Execution.Record
applied_record = record {
  id = 1;
  sequence = 4;
  state = State.succeeded;
  owner = 1;
  request_id = 1;
  job = 5;
  correlation = 1;
  validation = 1;
  candidate = 1;
  candidate_revision = 1;
  generation = 1;
  created = 100;
  updated = 120;
  outcome = done;
  authorization = authority;
  plan = forward_plan;
}

abbrev pub safe_apply : Safety.Record
safe_apply = record {
  last_wall = 120;
  state = Safety.preparing;
  reason = "preparing";
  domain = 9;
  reservation = 1;
  fingerprint = 1;
  trigger = "";
  preparation = record { boot = 7; start = pos 10; end = pos 500; started = 100; wall = 590 };
  confirmation = none;
  healthy_at = none;
  probe_failures = 0;
  rollback = none;
  outcome = done;
}

abbrev pub field_job : Job
field_job = record {
  id = 5;
  sequence = 2;
  state = Jobs.running;
  operation = "field-execution";
  owner = 1;
  transaction = some 1;
  cancellable = false;
  cancel_requested = false;
  dispatch = Jobs.sent;
  business = Jobs.Business.unknown;
  commit = none;
  applied = none;
  confirmation = some Jobs.pending;
  reason = "running";
  handler = some Jobs.field_execution;
  created = 100;
  updated = 120;
  completed_at = none;
}

abbrev pub tables : Tables
tables = record {
  executions = (1, applied_record) ∷ [];
  safe_applies = (1, safe_apply) ∷ [];
  journal = (1, record { sequence = 4; state = "succeeded" }) ∷ [];
  jobs = (5, field_job) ∷ [];
  protections = [];
  identities = [];
  receipts = [];
  entries = [];
  last_known_good = none;
  resolutions = [];
  safe_requests = [];
  anchors = [];
  revision = 0;
  authority_epoch = 1;
  high_watermark = 0;
}

abbrev pub engine : Engine
engine = record {
  store = record { tables = tables; readable = true; writable = true };
  active = [];
  sent = [];
}

-- The authority is revoked, and the provider takes the inverse plan.
abbrev pub revoked : Env
revoked = record {
  clock = record { boot = 7; ns = pos 60; wall = 150 };
  deadline_clock = record { boot = 7; ns = pos 61; wall = 151 };
  first_save = 152;
  second_save = 153;
  times = record { at_state = 150; at_reason = 150; at_save = 150 };
  observe = λ p o. done;
  probe_ok = true;
  authorized = false;
  domain = 9;
  window = Safety.confirmation_window;
  prepare = λ p. plan inverse;
  reaches_send = true;
  writes = true;
  reply = done;
  outcome_fault = stored;
  first_fault = stored;
  second_fault = stored;
}

abbrev turns : List Turn
turns =
    watchdog revoked 1
    ∷ reconciler (λ p o. done) (record { at_state = 160; at_reason = 160; at_save = 160 }) stored 1
    ∷ watchdog revoked 1
    ∷ []

run-rollback_once_example :
    (sends 1 (run budget turns engine).sent ≤ intent (lookup 1 (rows (run budget turns engine))))
    × (sends 1 (run budget turns engine).sent ≤ 1)
unfolding sends
run-rollback_once_example = run-rollback_once budget turns 1 engine (ground arith)

run-Evolves_example :
    (s' : Safety.Record) × (lookup 1 (rows (run budget turns engine)) ≡ some s')
    × Evolves safe_apply s'
run-Evolves_example = run-Evolves budget turns 1 engine safe_apply refl

-- The user decides in the confirmation window.
abbrev awaiting : Safety.Record
awaiting = record safe_apply {
  state = Safety.awaiting_confirmation;
  confirmation =
      some (record { boot = 7; start = pos 20; end = pos 300; started = 110; wall = 390 });
}

abbrev awaiting_tables : Tables
awaiting_tables = record tables { safe_applies = (1, awaiting) ∷ [] }

abbrev now : Safety.Clock
now = record { boot = 7; ns = pos 60; wall = 150 }

abbrev told : Told
told = record {
  first_clock = now;
  domain = 9;
  observed = done;
  probe_ok = true;
  check = none;
  deadline_clock = now;
  updated_clock = now;
  last_clock = now;
  confirmed_clock = now;
  state_now = 150;
  save_now = 151;
  audit_now = 152;
  authority = none;
}

abbrev left_by : Choice → Tables
left_by choice =
    elim (decide_tx budget told applied_record awaiting 1 4 choice done awaiting_tables) [
      | ok (_, u) ↦ u
      | err _ ↦ awaiting_tables
    ]
