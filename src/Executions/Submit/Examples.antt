-- ===== src/Executions/Submit/Examples.antt =====
-- A change of the VLAN of a Port is submitted, and its worker runs.
use ovs_webui.Prelude.{
  ℕ, ◌+◌, ◌*◌, ◌≤◌, ◌≡◌, refl, true, false, List, [], ◌∷◌, none, some, lookup, arith,
}
use ovs_webui.Prelude.Int.{pos}
use ovs_webui.Candidate.{Binding, Intent, bare}
use ovs_webui.Execution.{Authorization}
use ovs_webui.Store.{Tables, Store, ok, stored}
use ovs_webui.Requests
use ovs_webui.Requests.{Mutation}
use ovs_webui.Requests.Encoding.{null}
use ovs_webui.Requests.Examples.{digests, version_4, version_7}
use ovs_webui.Executions.{Engine, release_tables}
use ovs_webui.Executions.Examples.{budget, tables, authority, forward_plan, done}
use ovs_webui.Executions.Admission
use ovs_webui.Executions.Admission.{
  Request, BeforeSend, SafeAdmission, admission, before_send, admission_reply, max_records,
}
use ovs_webui.Executions.Admission.Laws.{Bounded, admission-Bounded, release-admission}
use ovs_webui.Executions.Moves.{Run, admits, sends, done as no_more, after, dispatches}
use ovs_webui.Executions.Moves.Dispatch.{dispatched_once, begun}
use ovs_webui.Executions.Moves.Sound.{Sound, run-Sound}
use ovs_webui.Executions.Submit.{Visit, Work}
use ovs_webui.Executions.Submit.Once.{Deed, submission, working, deeds, changes, deeds-sent_once}

abbrev port : Binding
port = record { management_id = 31; ovs_uuid = 41; table = "Port"; generation = 1 }

abbrev vlan : Intent
vlan = bare 51 "port.vlan.set" port 1 1

abbrev change : Request
change = record {
  id = version_7 5000;
  validation = version_4 8;
  candidate = 9;
  candidate_revision = 1;
  intents = vlan ∷ [];
}

abbrev granted : Authorization
granted = record authority { owner = version_4 1; epoch = version_4 2 }

abbrev told : Admission.Told
told = record {
  id = version_4 21;
  job = version_4 22;
  correlation = 23;
  principal = version_4 1;
  operation = "create-transaction";
  plan = record forward_plan { id = version_4 21 };
  graph = [];
  rollback_marker = 24;
  now = 5001000000;
  fresh = ok granted;
  domain = 9;
  clock = record { boot = 7; ns = pos 60; wall = 150 };
  safe_authority = none;
}

abbrev safe : SafeAdmission
safe = record { epoch = version_4 2; fingerprint = 7; reservation = version_4 3 }

-- Another execution has settled, and a third one protects an object.
abbrev before : Tables
before = record tables {
  safe_applies = [];
  protections = record { resource = 77; field = "port.bond"; transaction = 3 } ∷ [];
  authority_epoch = version_4 2;
}

abbrev admitted_tables : Tables
admitted_tables = elim (admission told budget change granted (some safe) before) [
  | ok (m, u) ↦ u
  | _ ↦ before
]

admission_run :
    admission told budget change granted (some safe) before
    ≡ ok (admission_reply told, admitted_tables)
unfolding admission ovs_webui.Store.chain Admission.unchanged ovs_webui.Store.guard
    Admission.same_authorization Admission.has_room Admission.insert_journal
    Admission.admitted_record Admission.reserve Admission.enter Admission.insert_execution
    Admission.admit_safely ovs_webui.Inventory.reserve_creations
    ovs_webui.Inventory.reserve_creation ovs_webui.Inventory.reserve_restorations
    ovs_webui.Inventory.reserve_restoration ovs_webui.Store.choose
    ovs_webui.Executions.Protections.protect_intents ovs_webui.Executions.Protections.protect_intent
    ovs_webui.Executions.Protections.protect_topology ovs_webui.Executions.Protections.protect_mtu
    ovs_webui.Executions.Protections.protect_port_deletion
    ovs_webui.Executions.Protections.protect_port_creation
    ovs_webui.Executions.Protections.protect_deletion ovs_webui.Executions.Protections.protect_field
    ovs_webui.Evidence.Creation.create_job ovs_webui.Evidence.Creation.admits
    ovs_webui.Evidence.Creation.filled ovs_webui.Evidence.Creation.insert_job
    ovs_webui.Evidence.append ovs_webui.Evidence.capacity ovs_webui.Jobs.control_operation
    ovs_webui.Jobs.code Admission.admit_safety ovs_webui.Requests.refuse Admission.insert_safety
    Admission.preparing_record ovs_webui.Safety.new_deadline ovs_webui.Prelude.Int.add_int64
admission_run = refl

before-Bounded : Bounded before
unfolding ovs_webui.Executions.settled_safely
before-Bounded = record { under_way = ground arith; paths = λ d. ground arith }

admission-Bounded_example : Bounded admitted_tables
admission-Bounded_example =
    admission-Bounded told budget change granted (some safe) before admitted_tables
      (admission_reply told) admission_run before-Bounded

release-admission_example :
    (release_tables (version_4 21) admitted_tables).protections ≡ before.protections
release-admission_example =
    release-admission told budget change granted (some safe) before admitted_tables
      (admission_reply told) admission_run refl

abbrev at_send : BeforeSend
at_send = record {
  fresh = ok granted;
  wall = 160;
  clock = record { boot = 7; ns = pos 70; wall = 160 };
  now = 5001000001;
}

abbrev sent_tables : Tables
sent_tables = elim (before_send budget at_send (version_4 21) granted true admitted_tables) [
  | ok (m, u) ↦ u
  | _ ↦ before
]

send_run :
    before_send budget at_send (version_4 21) granted true admitted_tables ≡ ok (tt, sent_tables)
unfolding admission ovs_webui.Store.chain Admission.unchanged ovs_webui.Store.guard
    Admission.same_authorization Admission.has_room Admission.insert_journal
    Admission.admitted_record Admission.reserve Admission.enter Admission.insert_execution
    Admission.admit_safely ovs_webui.Inventory.reserve_creations
    ovs_webui.Inventory.reserve_creation ovs_webui.Inventory.reserve_restorations
    ovs_webui.Inventory.reserve_restoration ovs_webui.Store.choose
    ovs_webui.Executions.Protections.protect_intents ovs_webui.Executions.Protections.protect_intent
    ovs_webui.Executions.Protections.protect_topology ovs_webui.Executions.Protections.protect_mtu
    ovs_webui.Executions.Protections.protect_port_deletion
    ovs_webui.Executions.Protections.protect_port_creation
    ovs_webui.Executions.Protections.protect_deletion ovs_webui.Executions.Protections.protect_field
    ovs_webui.Evidence.Creation.create_job ovs_webui.Evidence.Creation.admits
    ovs_webui.Evidence.Creation.filled ovs_webui.Evidence.Creation.insert_job
    ovs_webui.Evidence.append ovs_webui.Evidence.capacity ovs_webui.Jobs.control_operation
    ovs_webui.Jobs.code Admission.admit_safety ovs_webui.Requests.refuse Admission.insert_safety
    Admission.preparing_record ovs_webui.Safety.new_deadline ovs_webui.Prelude.Int.add_int64
    before_send ovs_webui.Store.one ovs_webui.Executions.loaded ovs_webui.Executions.checked_record
    Admission.safe_ready ovs_webui.Executions.Watchdog.loaded_safety ovs_webui.Safety.expired
    ovs_webui.Executions.transition ovs_webui.Executions.job_transition
    ovs_webui.Executions.write_report ovs_webui.Executions.release_tables
    ovs_webui.Evidence.change_job ovs_webui.Evidence.allows ovs_webui.Evidence.advance
    ovs_webui.Executions.audit_entry
send_run = refl

abbrev both : Run budget before sent_tables
both =
    after (admits told change granted (some safe) (admission_reply told) admission_run)
      (after (sends at_send (version_4 21) granted true send_run) no_more)

dispatched_once_example :
    dispatches budget (version_4 21) both + begun (lookup (version_4 21) before.executions) ≤ 1
dispatched_once_example = dispatched_once budget (version_4 21) both

before-Sound : Sound before
before-Sound = record {
  records = ground arith;
  unique = record { by_id = λ m. ground arith; by_row = λ g table u. ground arith };
  exclusive = record { once = λ m. ground arith; known = refl };
}

run-Sound_example : Sound sent_tables
run-Sound_example = run-Sound budget both before-Sound

abbrev visit : Visit
visit = record {
  within_budget = true;
  payload = some null;
  first = ok granted;
  replay_check = none;
  lease = some none;
  configured = true;
  boot = 7;
  probe_ok = true;
  second = ok granted;
  prepare = none;
  told = told;
  request = record { outer = none; inner = none; now = 5001000000; correlation = 23 };
  fault = stored;
}

abbrev engine : Engine
engine = record {
  store = record { tables = before; readable = true; writable = true };
  active = [];
  sent = [];
}

abbrev worker : Work
worker = record {
  lease = none;
  before = at_send;
  before_fault = stored;
  reaches_send = true;
  writes = true;
  reply = done;
  reply_times = record { at_state = 170; at_reason = 170; at_save = 170 };
  reply_fault = stored;
  observe = λ p o. done;
  observed_times = record { at_state = 180; at_reason = 180; at_save = 180 };
  observed_fault = stored;
}

abbrev calls : List Deed
calls =
    submission visit change none worker
    ∷ working worker (version_4 21) granted false told.plan
    ∷ submission visit change none worker
    ∷ working worker (version_4 21) granted false told.plan
    ∷ []

deeds-sent_once_example : changes (version_4 21) (deeds digests budget calls engine).sent ≤ 1
unfolding changes begun
deeds-sent_once_example = deeds-sent_once digests budget (version_4 21) calls engine (ground arith)
